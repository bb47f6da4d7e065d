-- ===== src/Provider/FeePool/Withdraw.antt =====
-- WithdrawShares: the books stay in order, no depositor loses by another's withdrawal, and the
-- escrow of withheld fees is never paid out.
use vaas.Base.{
  ℕ, ◌+◌, ◌-◌, ◌≤◌, ◌<◌, ◌≡◌, ◌≢◌, inl, inr, refl, ◌&&◌, ◌==◌, arith, value_or, if◌then◌else◌,
  nat_eq, pair_eq, Option-cases, true,
}
use vaas.Base.Int.{ℤ, pos, pos_part, sub_ℕ, ltb_ℤ}
use vaas.Base.Store.{sum_by-remove, remove-IsStore, set-IsStore, get-remove, IsStore}
use vaas.Provider.State.{Keeper, Coin}
use vaas.Provider.Bank.{Bank}
use vaas.Provider.FeePool.{
  ok, get_total, get_shares, put_shares, put_total, burn, available, withdraw_found,
  withdraw_shares, outstanding_withheld_fees,
}
use vaas.Provider.FeePool.Draw.{fee_pool_draw, Bounds, fee_pool_draw-Bounds, draw_keeps_claims}
use vaas.Provider.FeePool.Ledger.{
  IsBooked, same, in_pool, pool_sum, pool_sum-set_shares, weight_at-in_pool, shares-le-total,
  shares-le-pool_sum, get_total-set_total, get_shares-set_shares,
}
use vaas.Provider.FeePool.Mint.{claim_of}

-- What is stored under a key is what was put there, deleted records counting as zero.
get_shares-put_shares :
    (k : Keeper) (c d a n c' d' a' : ℕ)
    → value_or 0 (get_shares (put_shares k c d a n) c' d' a')
      ≡ (if c == c' && (d == d' && a == a') then n else value_or 0 (get_shares k c' d' a'))
unfolding put_shares get_shares
get_shares-put_shares k c d a n c' d' a' = ground (
  arith,
  get-remove (c', (d', a')) (c, (d, a)) k.fee_pool_shares,
  get_shares-set_shares k c d a n c' d' a',
)

get_total-put_total :
    (k : Keeper) (c d n c' d' : ℕ)
    → value_or 0 (get_total (put_total k c d n) c' d')
      ≡ (if same c d c' d' then n else value_or 0 (get_total k c' d'))
unfolding put_total get_total
get_total-put_total k c d n c' d' =
    ground
      (arith, get-remove (c', d') (c, d) k.fee_pool_total_shares, get_total-set_total k c d n c' d')

get_shares-put_total :
    (k : Keeper) (c d n c' d' a' : ℕ)
    → get_shares (put_total k c d n) c' d' a' ≡ get_shares k c' d' a'
unfolding put_total get_shares
get_shares-put_total k c d n c' d' a' = ground arith

pool_sum-put_shares :
    (k : Keeper) (c d a n c' d' : ℕ)
    → IsStore k.fee_pool_shares
    → pool_sum (put_shares k c d a n) c' d'
        + (if same c d c' d' then value_or 0 (get_shares k c d a) else 0)
      ≡ pool_sum k c' d' + (if same c d c' d' then n else 0)
unfolding put_shares pool_sum
pool_sum-put_shares k c d a n c' d' distinct = ground (
  arith,
  sum_by-remove (in_pool c' d') (c, (d, a)) k.fee_pool_shares distinct,
  weight_at-in_pool k c d a c' d',
  pool_sum-set_shares k c d a n c' d',
)

-- Burning at most a holding keeps the books, and touches no other depositor's record.
burn-IsBooked :
    (k : Keeper) (c d a burned : ℕ)
    → IsBooked k
    → burned ≤ value_or 0 (get_shares k c d a)
    → IsBooked
        (burn k c d a (value_or 0 (get_shares k c d a)) (value_or 0 (get_total k c d)) burned)
unfolding burn
burn-IsBooked k c d a burned v h =
    let s = value_or 0 (get_shares k c d a) in
    let t = value_or 0 (get_total k c d) in
    let k' = put_shares k c d a (s - burned) in
    record {
      distinct = total_keeps k' (t - burned) (shares_keeps (s - burned));
      summed = λ c' d'. ground (
        arith,
        sum_keeps k' (t - burned) c' d',
        totals_keep (s - burned) c' d',
        pool_sum-put_shares k c d a (s - burned) c' d' v.distinct,
        get_total-put_total k' c d (t - burned) c' d',
        shares-le-total k c d a v,
        v.summed c' d',
      );
    }
  where
    shares_keeps : (n : ℕ) → IsStore (put_shares k c d a n).fee_pool_shares
    shares_keeps n =
        unfold put_shares in
        ground (
          arith,
          remove-IsStore (c, (d, a)) k.fee_pool_shares v.distinct,
          set-IsStore (c, (d, a)) n k.fee_pool_shares v.distinct,
        )

    total_keeps :
        (k' : Keeper) (n : ℕ)
        → IsStore k'.fee_pool_shares
        → IsStore (put_total k' c d n).fee_pool_shares
    total_keeps k' n h = unfold put_total in ground arith

    sum_keeps :
        (k' : Keeper) (n c' d' : ℕ) → pool_sum (put_total k' c d n) c' d' ≡ pool_sum k' c' d'
    sum_keeps k' n c' d' = unfold put_total pool_sum in ground arith

    totals_keep : (n c' d' : ℕ) → get_total (put_shares k c d a n) c' d' ≡ get_total k c' d'
    totals_keep n c' d' = unfold put_shares get_total in ground arith

-- The limit that WithdrawShares draws under.
abbrev pub limit_of : ℤ → ℕ → ℤ
limit_of free amount = if ltb_ℤ free (pos amount) then free else pos amount

limit_of_le :
    (balance escrow amount : ℕ)
    → ltb_ℤ (pos 0) (sub_ℕ balance escrow) ≡ true
    → (pos_part (limit_of (sub_ℕ balance escrow) amount) ≤ amount)
      × (pos_part (limit_of (sub_ℕ balance escrow) amount) + escrow ≤ balance)
limit_of_le balance escrow amount h = ground arith

-- Two depositors together hold no more shares than there are.
two-shares-le-total :
    (k : Keeper) (c d a o : ℕ)
    → IsBooked k
    → o ≢ a
    → value_or 0 (get_shares k c d a) + value_or 0 (get_shares k c d o)
      ≤ value_or 0 (get_total k c d)
two-shares-le-total k c d a o v ne = ground (
  arith,
  pool_sum-put_shares k c d a 0 c d v.distinct,
  get_shares-put_shares k c d a 0 c d o,
  shares-le-pool_sum (put_shares k c d a 0) c d o,
  v.summed c d,
)

-- After a burn the other records are as they were, and the total is less by what was burned.
burn_effect :
    (k : Keeper) (c d a s t burned o : ℕ)
    → o ≢ a
    → (value_or 0 (get_shares (burn k c d a s t burned) c d o) ≡ value_or 0 (get_shares k c d o))
      × (value_or 0 (get_total (burn k c d a s t burned) c d) ≡ t - burned)
unfolding burn
burn_effect k c d a s t burned o ne = ground (
  arith,
  get_total-put_total (put_shares k c d a (s - burned)) c d (t - burned) c d,
  get_shares-put_shares k c d a (s - burned) c d o,
  get_shares-put_total (put_shares k c d a (s - burned)) c d (t - burned) c d o,
)

-- What a withdrawal has done when it returns.
abbrev Drawn :
    (bank : Bank) → Keeper → bank.Ledger → ℕ → ℕ → ℕ → Coin → Keeper → Coin → ℕ → ℕ → Type 0
Drawn bank k l now c a amount k' paid s t =
    let free = available bank k l now c amount.denom in
    let balance = bank.balance l (bank.fee_pool_address c) amount.denom in
    let draw = fee_pool_draw s t balance (limit_of free amount.amount) in
    (value_or 0 (get_shares k c amount.denom a) ≡ s)
    × (value_or 0 (get_total k c amount.denom) ≡ t)
    × (0 < t)
    × (ltb_ℤ (pos 0) free ≡ true)
    × (0 < draw.0)
    × (k' ≡ burn k c amount.denom a s t draw.0)
    × (paid ≡ record { denom = amount.denom; amount = draw.1 })

module _ (bank : Bank) (k : Keeper) (l : bank.Ledger) (now consumer depositor : ℕ) (amount : Coin)
    (k' : Keeper) (paid : Coin) where
  withdraw_found-Drawn :
      (s t : ℕ)
      → value_or 0 (get_shares k consumer amount.denom depositor) ≡ s
      → value_or 0 (get_total k consumer amount.denom) ≡ t
      → 0 < t
      → withdraw_found bank k l now consumer depositor amount s t ≡ ok (k', paid)
      → Drawn bank k l now consumer depositor amount k' paid s t
  unfolding withdraw_found
  withdraw_found-Drawn s t es et ht h = ground arith

  withdraw_shares-Drawn :
      withdraw_shares bank k l now consumer depositor amount ≡ ok (k', paid)
      → Drawn bank k l now consumer depositor amount k' paid
          (value_or 0 (get_shares k consumer amount.denom depositor))
          (value_or 0 (get_total k consumer amount.denom))
  unfolding withdraw_shares
  withdraw_shares-Drawn h = elim (Option-cases (get_shares k consumer amount.denom depositor)) [
    | inl absent ↦ ground arith
    | inr (s, es) ↦ elim (Option-cases (get_total k consumer amount.denom)) [
      | inl absent ↦ ground arith
      | inr (t, et) ↦ ground (arith, withdraw_found-Drawn s t)
    ]
  ]

  -- The draw of a withdrawal from pools in order is within its bounds.
  withdraw-Bounds :
      IsBooked k
      → let balance = bank.balance l (bank.fee_pool_address consumer) amount.denom in
        let s = value_or 0 (get_shares k consumer amount.denom depositor) in
        let t = value_or 0 (get_total k consumer amount.denom) in
        let limit = limit_of (available bank k l now consumer amount.denom) amount.amount in
        Bounds s t balance limit (fee_pool_draw s t balance limit)
  withdraw-Bounds v =
      fee_pool_draw-Bounds _ _ _ _ (shares-le-total k consumer amount.denom depositor v)

  -- A withdrawal keeps the books: the shares of every pool still sum to its total.
  pub withdraw_shares-IsBooked :
      IsBooked k
      → withdraw_shares bank k l now consumer depositor amount ≡ ok (k', paid)
      → IsBooked k'
  unfolding Bounds
  withdraw_shares-IsBooked v h =
      let drawn = withdraw_shares-Drawn h in
      rw drawn.5 (burn-IsBooked k consumer amount.denom depositor _ v (withdraw-Bounds v).0)

  -- A withdrawal pays at most what was asked for, and never out of the escrow: what it leaves in the
  -- pool covers the withheld fees that are still open to a challenge.
  pub withdraw_shares_spares_escrow :
      IsBooked k
      → withdraw_shares bank k l now consumer depositor amount ≡ ok (k', paid)
      → (paid.denom ≡ amount.denom)
        × (paid.amount ≤ amount.amount)
        × (paid.amount + outstanding_withheld_fees k now consumer amount.denom
            ≤ bank.balance l (bank.fee_pool_address consumer) amount.denom)
  unfolding Bounds available
  withdraw_shares_spares_escrow v h =
      let drawn = withdraw_shares-Drawn h in
      let bounds = withdraw-Bounds v in
      let free = limit_of_le _ _ amount.amount drawn.3 in
      rw drawn.6 (refl, omega arith, omega arith)

  -- A withdrawal takes nothing from anybody else: every other depositor's claim on what is left is
  -- at least its claim before.
  pub withdraw_shares_keeps_claims :
      (other : ℕ)
      → IsBooked k
      → other ≢ depositor
      → withdraw_shares bank k l now consumer depositor amount ≡ ok (k', paid)
      → let balance = bank.balance l (bank.fee_pool_address consumer) amount.denom in
        claim_of k consumer amount.denom other balance
        ≤ claim_of k' consumer amount.denom other (balance - paid.amount)
  unfolding claim_of
  withdraw_shares_keeps_claims other v ne h =
      let b = bank.balance l (bank.fee_pool_address consumer) amount.denom in
      let s = value_or 0 (get_shares k consumer amount.denom depositor) in
      let t = value_or 0 (get_total k consumer amount.denom) in
      let limit = limit_of (available bank k l now consumer amount.denom) amount.amount in
      let drawn = withdraw_shares-Drawn h in
      let burned = (fee_pool_draw s t b limit).0 in
      let effect = burn_effect k consumer amount.denom depositor s t burned other ne in
      rw (drawn.5, drawn.6, effect.0, effect.1)
        (draw_keeps_claims s t b limit (value_or 0 (get_shares k consumer amount.denom other))
          (two-shares-le-total k consumer amount.denom depositor other v ne))
