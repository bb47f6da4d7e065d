-- ===== src/Provider/FeePool/Mint.antt =====
-- MintShares: the books stay in order, and no depositor loses by another's deposit.
use native.Mathlib.Nat.{
  div-mul-le_self, le-div_iff_mul-le, div-le_of_le-mul, mul-le-mul_left, le_of_mul-le-mul_right,
  mul-zero, zero-mul, zero-div,
}
use vaas.Base.{
  ℕ, ◌+◌, ◌*◌, ◌/◌, ◌≤◌, ◌<◌, ◌≡◌, ◌≢◌, ◌⊎◌, inl, inr, some, refl, arith, value_or, subst, ◌==◌,
  if◌then◌else◌,
}
use vaas.Provider.State.{Keeper, Coin}
use vaas.Provider.Bank.{Bank}
use vaas.Provider.FeePool.{
  ok, get_total, clear_all_shares, absorb_unaccounted_balance, get_shares, set_shares, invalidate,
  account, shares_to_mint, credit, mint_shares,
}
use vaas.Provider.FeePool.Ledger.{
  IsBooked, IsAdjusted, shares-le-total, get_total-set_total, get_shares-set_shares,
  get_shares-set_total, get_shares-clear_all_shares, invalidate-IsAdjusted, account-IsAdjusted,
  credit-IsBooked,
}

-- A deposit keeps the books: the shares of every pool still sum to its total.
pub mint_shares-IsBooked :
    (bank : Bank) (k : Keeper) (l : bank.Ledger) (consumer depositor : ℕ) (amount : Coin)
    (k' : Keeper)
    → IsBooked k
    → mint_shares bank k l consumer depositor amount ≡ ok k'
    → IsBooked k'
unfolding mint_shares
mint_shares-IsBooked bank k l c a amount k' v h =
    let b = bank.balance l (bank.fee_pool_address c) amount.denom in
    let t = value_or 0 (get_total k c amount.denom) in
    let booked : IsAdjusted bank c amount.denom
        (account bank c amount.denom b (invalidate k c amount.denom b t)) =
      account-IsAdjusted bank c amount.denom b _
        (invalidate-IsAdjusted bank k c amount.denom b t (v, refl)) in
    credit-IsBooked c amount.denom a _ _ k' booked.0 booked.1 h

-- Shares priced at `amount * total / balance` leave every other holding a claim on the grown pool
-- that is at least its claim on the old one.
mint_keeps_quotient :
    (amount total balance other : ℕ)
    → 0 < total
    → 0 < balance
    → other * balance / total ≤ other * (balance + amount) / (total + amount * total / balance)
mint_keeps_quotient x t b o ht hb =
    let s : ℕ = x * t / b in
    let q : ℕ = o * b / t in
    let priced : s * b ≤ x * t = div-mul-le_self (x * t) b in
    let claimed : q * t ≤ o * b = div-mul-le_self (o * b) t in
    let one : q * (s * b) ≤ q * (x * t) = mul-le-mul_left q priced in
    let two : x * (q * t) ≤ x * (o * b) = mul-le-mul_left x claimed in
    let grown : q * s ≤ o * x = le_of_mul-le-mul_right {k = b} (omega arith) hb in
    (le-div_iff_mul-le {k = t + s} (omega arith)).1 (omega arith)

-- The tokens that a depositor's shares stand for at a pool balance.
unfoldable pub claim_of : Keeper → ℕ → ℕ → ℕ → ℕ → ℕ
claim_of k consumer denom depositor balance =
    value_or 0 (get_shares k consumer denom depositor)
    * balance
    / value_or 0 (get_total k consumer denom)

credit_effect :
    (k : Keeper) (c d a shares total o : ℕ) (k' : Keeper)
    → o ≢ a
    → credit c d a shares (k, total) ≡ ok k'
    → (get_shares k' c d o ≡ get_shares k c d o) × (get_total k' c d ≡ some (total + shares))
unfolding credit
credit_effect k c d a s t o k' ne h = ground (
  arith,
  get_total-set_total (set_shares k c d a (value_or 0 (get_shares k c d a) + s)) c d (t + s) c d,
  get_shares-set_shares k c d a (value_or 0 (get_shares k c d a) + s) c d o,
  get_shares-set_total (set_shares k c d a (value_or 0 (get_shares k c d a) + s)) c d (t + s) c d o,
)

-- A pool with shares and a balance needs no adjustment.
adjust_nothing :
    (bank : Bank) (k : Keeper) (c d balance total : ℕ)
    → 0 < balance
    → 0 < total
    → account bank c d balance (invalidate k c d balance total) ≡ (k, total)
unfolding account invalidate
adjust_nothing bank k c d balance total hb ht = ground arith

zero_or_pos : (n : ℕ) → (n ≡ 0) ⊎ (0 < n)
zero_or_pos n = omega arith

mint_priced :
    (k : Keeper) (c d a o amount balance : ℕ) (k' : Keeper)
    → o ≢ a
    → 0 < balance
    → 0 < value_or 0 (get_total k c d)
    → credit c d a
        (shares_to_mint amount (value_or 0 (get_total k c d)) balance)
        (k, value_or 0 (get_total k c d))
      ≡ ok k'
    → claim_of k c d o balance ≤ claim_of k' c d o (balance + amount)
unfolding claim_of shares_to_mint
mint_priced k c d a o x b k' ne hb ht h =
    let t : ℕ = value_or 0 (get_total k c d) in
    let effect = credit_effect k c d a (shares_to_mint x t b) t o k' ne h in
    let price : shares_to_mint x t b ≡ x * t / b = ground arith in
    rw (effect.0, effect.1, price)
      (mint_keeps_quotient x t b (value_or 0 (get_shares k c d o)) ht hb)

-- A deposit into a pool takes nothing from anybody else: the claim of every other depositor on the
-- pool with the deposit is at least the claim on the pool before it.
pub mint_shares_keeps_claims :
    (bank : Bank) (k : Keeper) (l : bank.Ledger) (consumer depositor other : ℕ) (amount : Coin)
    (k' : Keeper)
    → IsBooked k
    → other ≢ depositor
    → mint_shares bank k l consumer depositor amount ≡ ok k'
    → let balance = bank.balance l (bank.fee_pool_address consumer) amount.denom in
      claim_of k consumer amount.denom other balance
      ≤ claim_of k' consumer amount.denom other (balance + amount.amount)
unfolding mint_shares claim_of
mint_shares_keeps_claims bank k l c a o amount k' v ne h =
    elim (zero_or_pos (bank.balance l (bank.fee_pool_address c) amount.denom)) [
      | inl empty ↦ rw (empty, mul-zero, zero-div) (omega arith)
      | inr full ↦ elim (zero_or_pos (value_or 0 (get_total k c amount.denom))) [
        | inl none_minted ↦
            let none_held : value_or 0 (get_shares k c amount.denom o) ≡ 0 =
              omega (arith, shares-le-total k c amount.denom o v) in
            rw (none_held, zero-mul, zero-div) (omega arith)
        | inr minted ↦
            let same = adjust_nothing bank k c amount.denom _ _ full minted in
            mint_priced k c amount.denom a o amount.amount _ k' ne full minted (
              subst
                (λ (r : Keeper × ℕ).
                  credit c amount.denom a
                    (shares_to_mint amount.amount r.1
                      (bank.balance l (bank.fee_pool_address c) amount.denom))
                    r
                  ≡ ok k')
                same h)
      ]
    ]

-- The claim of the minted shares on the grown pool is at most the amount, at any price.
no_gain_quotient :
    (amount total balance : ℕ)
    → 0 < total
    → 0 < balance
    → amount * total / balance * (balance + amount) / (total + amount * total / balance) ≤ amount
no_gain_quotient x t b ht hb =
    let s : ℕ = x * t / b in
    let priced : s * b ≤ x * t = div-mul-le_self (x * t) b in
    div-le_of_le-mul (t + s) {m = s * (b + x)} {n = x} (omega arith)

-- After the adjustments a pool has shares exactly if it has a balance, and a depositor without
-- shares still has none.
abbrev IsPriced : ℕ → ℕ → ℕ → ℕ → Keeper × ℕ → Type 0
IsPriced c d a balance r =
    (((r.1 ≡ 0) × (balance ≡ 0)) ⊎ ((0 < r.1) × (0 < balance)))
    × (value_or 0 (get_shares r.0 c d a) ≡ 0)

adjust-IsPriced :
    (bank : Bank) (k : Keeper) (c d a balance total : ℕ)
    → a ≢ bank.distribution_module
    → value_or 0 (get_shares k c d a) ≡ 0
    → IsPriced c d a balance (account bank c d balance (invalidate k c d balance total))
unfolding account invalidate absorb_unaccounted_balance
adjust-IsPriced bank k c d a b t ne fresh =
    let cleared = get_shares-clear_all_shares k c d c d a in
    let cleared_twice = get_shares-clear_all_shares (clear_all_shares k c d) c d c d a in
    ground (
      arith,
      cleared,
      cleared_twice,
      get_shares-set_total (set_shares (clear_all_shares k c d) c d bank.distribution_module b) c d
          b c d a,
      get_shares-set_shares (clear_all_shares k c d) c d bank.distribution_module b c d a,
    )

credit_own :
    (c d a shares : ℕ) (r : Keeper × ℕ) (k' : Keeper)
    → value_or 0 (get_shares r.0 c d a) ≡ 0
    → credit c d a shares r ≡ ok k'
    → (get_shares k' c d a ≡ some shares) × (get_total k' c d ≡ some (r.1 + shares)) × (0 < shares)
unfolding credit
credit_own c d a s (k, t) k' fresh h = ground (
  arith,
  get_total-set_total (set_shares k c d a (value_or 0 (get_shares k c d a) + s)) c d (t + s) c d,
  get_shares-set_shares k c d a (value_or 0 (get_shares k c d a) + s) c d a,
  get_shares-set_total (set_shares k c d a (value_or 0 (get_shares k c d a) + s)) c d (t + s) c d a,
)

priced_claim-le :
    (amount total balance : ℕ)
    → ((total ≡ 0) × (balance ≡ 0)) ⊎ ((0 < total) × (0 < balance))
    → 0 < shares_to_mint amount total balance
    → shares_to_mint amount total balance
        * (balance + amount)
        / (total + shares_to_mint amount total balance)
      ≤ amount
unfolding shares_to_mint
priced_claim-le x t b (inl (et, eb)) some_shares = rw (et, eb) (first_claim-le x)
  where
    first_claim-le : (x : ℕ) → x * (0 + x) / (0 + x) ≤ x
    first_claim-le x = div-le_of_le-mul (0 + x) {m = x * (0 + x)} {n = x} (omega arith)
priced_claim-le x t b (inr (ht, hb)) some_shares =
    let price : (if t == 0 then x else x * t / b) ≡ x * t / b = ground arith in
    rw price (no_gain_quotient x t b ht hb)

-- A deposit is no gain: what a depositor without earlier shares could claim from the pool with the
-- deposit is at most the deposit. (The distribution module's own account may be credited with a
-- balance that nobody deposited.)
pub mint_shares_is_no_gain :
    (bank : Bank) (k : Keeper) (l : bank.Ledger) (consumer depositor : ℕ) (amount : Coin)
    (k' : Keeper)
    → depositor ≢ bank.distribution_module
    → value_or 0 (get_shares k consumer amount.denom depositor) ≡ 0
    → mint_shares bank k l consumer depositor amount ≡ ok k'
    → claim_of k' consumer amount.denom depositor
        (bank.balance l (bank.fee_pool_address consumer) amount.denom + amount.amount)
      ≤ amount.amount
unfolding mint_shares claim_of
mint_shares_is_no_gain bank k l c a amount k' ne fresh h =
    let b = bank.balance l (bank.fee_pool_address c) amount.denom in
    let t = value_or 0 (get_total k c amount.denom) in
    let r = account bank c amount.denom b (invalidate k c amount.denom b t) in
    let priced = adjust-IsPriced bank k c amount.denom a b t ne fresh in
    let own = credit_own c amount.denom a _ r k' priced.1 h in
    rw (own.0, own.1) (priced_claim-le amount.amount r.1 b priced.0 own.2)
