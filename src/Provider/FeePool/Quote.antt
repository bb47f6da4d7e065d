-- ===== src/Provider/FeePool/Quote.antt =====
-- ComputeClaim against WithdrawShares: what the quote promises.
use native.Mathlib.Nat.{div-eq_of_lt, div-zero}
use vaas.Base.{
  ℕ, ◌+◌, ◌*◌, ◌/◌, ◌≤◌, ◌<◌, ◌≡◌, ◌≢◌, ap, inl, inr, some, arith, nat_eq, pair_eq, Option-cases,
  true,
}
use vaas.Base.Int.{ℤ, pos, pos_part, ltb_ℤ}
use vaas.Provider.State.{Keeper, Coin}
use vaas.Provider.Bank.{Bank}
use vaas.Provider.FeePool.{
  ok, err, sub_share_withdraw, get_total, get_shares, available, withdraw_found, withdraw_shares,
  outstanding_withheld_fees, compute_claim,
}
use vaas.Provider.FeePool.Draw.{fee_pool_draw, partial_draw, draw-le-limit}
use vaas.Provider.FeePool.Withdraw.{limit_of}

-- The quote: a withdrawal of at least the unreserved balance delivers exactly ComputeClaim.
pub withdraw_shares-compute_claim :
    (bank : Bank) (k : Keeper) (l : bank.Ledger) (now consumer depositor : ℕ) (amount : Coin)
    (k' : Keeper) (paid : Coin)
    → bank.balance l (bank.fee_pool_address consumer) amount.denom
      ≤ amount.amount + outstanding_withheld_fees k now consumer amount.denom
    → withdraw_shares bank k l now consumer depositor amount ≡ ok (k', paid)
    → paid.amount ≡ compute_claim bank k l now consumer depositor amount.denom
unfolding compute_claim withdraw_shares withdraw_found available
withdraw_shares-compute_claim bank k l now consumer depositor amount k' paid most h = ground arith

-- No quote is above the unreserved balance.
compute_claim-le-available :
    (bank : Bank) (k : Keeper) (l : bank.Ledger) (now consumer depositor denom : ℕ)
    → compute_claim bank k l now consumer depositor denom
      ≤ pos_part (available bank k l now consumer denom)
unfolding compute_claim
compute_claim-le-available bank k l now c a d = elim (Option-cases (get_shares k c d a)) [
  | inl absent ↦ ground arith
  | inr (s, es) ↦ elim (Option-cases (get_total k c d)) [
    | inl absent ↦ ground arith
    | inr (t, et) ↦ ground (
      arith,
      draw-le-limit s t (bank.balance l (bank.fee_pool_address c) d) (available bank k l now c d),
    )
  ]
]

-- A draw that is worth less than one share is nothing.
draw_of_less_than_a_share :
    (s t b amount : ℕ)
    → amount < s * b / t
    → amount * t < b
    → fee_pool_draw s t b (pos amount) ≡ (0, 0)
unfolding fee_pool_draw partial_draw
draw_of_less_than_a_share s t b amount cut dear =
    let no_share : amount * t / b ≡ 0 = div-eq_of_lt dear in ground arith

small_limit :
    (free : ℤ) (amount : ℕ)
    → 0 < amount
    → amount ≤ pos_part free
    → (ltb_ℤ (pos 0) free ≡ true) × (limit_of free amount ≡ pos amount)
small_limit free amount some_amount h = ground arith

-- A depositor whose claim is cut by the escrow cannot always withdraw what ComputeClaim quotes:
-- where the quote is worth less than one share, asking for exactly the quote is refused.
pub quoted_withdrawal_refused :
    (bank : Bank) (k : Keeper) (l : bank.Ledger) (now consumer depositor : ℕ) (amount : Coin)
    (shares total : ℕ)
    → get_shares k consumer amount.denom depositor ≡ some shares
    → get_total k consumer amount.denom ≡ some total
    → 0 < amount.amount
    → amount.amount ≡ compute_claim bank k l now consumer depositor amount.denom
    → amount.amount < shares * bank.balance l (bank.fee_pool_address consumer) amount.denom / total
    → amount.amount * total < bank.balance l (bank.fee_pool_address consumer) amount.denom
    → withdraw_shares bank k l now consumer depositor amount ≡ err sub_share_withdraw
unfolding withdraw_shares withdraw_found
quoted_withdrawal_refused bank k l now c a amount s t es et some_amount quote cut dear =
    let free = available bank k l now c amount.denom in
    let below = compute_claim-le-available bank k l now c a amount.denom in
    let limits = small_limit free amount.amount some_amount (omega arith) in
    let some_total : t ≢ 0 = zero_total _ _ cut in
    ground (
      arith,
      limits,
      draw_of_less_than_a_share s t (bank.balance l (bank.fee_pool_address c) amount.denom)
          amount.amount cut dear,
    )
  where
    zero_total : (b n : ℕ) → n < s * b / t → t ≢ 0
    zero_total b n h zero = absurd (omega (arith, div-zero (s * b), ap (λ (x : ℕ). s * b / x) zero))
