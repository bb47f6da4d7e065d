-- ===== src/Provider/Fees/Distribution.antt =====
-- A distribution of the epoch's fees never spends what is in escrow
-- (DistributeConsumerFees of x/vaas/provider/keeper/fees.go).
use native.Mathlib.Nat.{div-mul-le_self}
use vaas.Base.{
  ℕ, ◌*◌, ◌≤◌, ◌≡◌, refl, true, ◌&&◌, some, List, [], ◌∷◌, arith, ◌==◌, length, Bool-cases, inl,
  inr, Option-cases,
}
use vaas.Provider.State.{Keeper, Coin, launched, phase_eq, get_consumer_phase}
use vaas.Provider.Bank.{Bank, BankLaws}
use vaas.Provider.FeePool.{outstanding_withheld_fees}
use vaas.Provider.Fees.{
  BondedVal, Staking, default_fee_per_epoch, get_fees_per_block, epoch_share_for_consumer,
  update_consumer_debt_status, eligible_addrs, excluded_cons_addrs, get_all_active_consumer_ids,
}
use vaas.Provider.Fees.Run.{
  pay_consumer, distribute_to_consumer, distribute_to_consumers, distribute_consumer_fees,
}
use vaas.Provider.Fees.Outcome.{
  IsCovered, IsPaid, draws_at_most, own_pool_covered, length-eligible_addrs,
  outstanding-update_debt, outstanding-set_share, outstanding-skip_zero_share, outstanding-settle,
  pay_eligible-draws, pay_consumer-outcome,
}

module _ (bank : Bank) (laws : BankLaws bank)
    (apart : (c c' : ℕ) → bank.fee_pool_address c ≡ bank.fee_pool_address c' → c ≡ c') where
  pay_consumer-IsCovered :
      (k : Keeper) (l : bank.Ledger) (now : ℕ) (bonded : List BondedVal) (c : ℕ) (fee share : Coin)
      (k' : Keeper) (l' : bank.Ledger)
      → fee.denom ≡ share.denom
      → share.amount * length bonded ≤ fee.amount
      → IsCovered bank k l now
      → pay_consumer bank k l now bonded c fee share ≡ some (k', l')
      → IsCovered bank k' l' now
  pay_consumer-IsCovered k l now bonded c fee share k' l' same_denom split covered h c' d =
      elim (pay_consumer-outcome bank laws k l now bonded c fee share k' l' h) [
        | inl (same, inl (_, owes)) ↦
            rw (same, owes)
              (omega (
                arith,
                covered c' d,
                outstanding-update_debt k true now c c' d,
                outstanding-set_share (update_consumer_debt_status k c true) now 0 now c c' d,
              ))
        | inl (same, inr (_, _, _, refused)) ↦
            rw (same, refused)
              (omega (arith, covered c' d, outstanding-set_share k now 0 now c c' d))
        | inr run ↦ paid_covered run
      ]
    where
      other_pool :
          bank.balance l (bank.fee_pool_address c') d ≤ bank.balance l' (bank.fee_pool_address c') d
          → outstanding_withheld_fees k' now c' d ≤ outstanding_withheld_fees k now c' d
          → outstanding_withheld_fees k' now c' d ≤ bank.balance l' (bank.fee_pool_address c') d
      other_pool drawn escrowed = omega (arith, covered c' d, drawn, escrowed)

      paid_covered :
          IsPaid bank laws k l now bonded c fee share k' l'
          → outstanding_withheld_fees k' now c' d ≤ bank.balance l' (bank.fee_pool_address c') d
      paid_covered run =
          let escrowed =
            outstanding-settle k now c share (excluded_cons_addrs k c bonded) k' c' d run.settled in
          let drawn =
            pay_eligible-draws bank laws l c share (eligible_addrs k c bonded) l'
              (bank.fee_pool_address c') d run.paid in
          elim (Bool-cases (c == c' && share.denom == d)) [
            | inl own ↦
                own_pool_covered _ (outstanding_withheld_fees k now c' d) _
                  (bank.balance l (bank.fee_pool_address c') d) share.amount
                  (length (eligible_addrs k c bonded)) (length (excluded_cons_addrs k c bonded))
                  (length bonded) fee.amount (length-eligible_addrs k c bonded) split
                  (draws_at_most _ _ _ _ drawn) (ground (arith, own, escrowed))
                  (ground (arith, own, same_denom, run.funded))
            | inr other ↦
                other_pool (ground (arith, other, drawn, apart c' c))
                  (ground (arith, other, escrowed))
          ]

  distribute_to_consumer-IsCovered :
      (k : Keeper) (l : bank.Ledger) (now : ℕ) (bonded : List BondedVal)
      (default_epoch default_block : Coin) (c : ℕ) (k' : Keeper) (l' : bank.Ledger)
      → IsCovered bank k l now
      → distribute_to_consumer bank k l now bonded default_epoch default_block c ≡ some (k', l')
      → IsCovered bank k' l' now
  unfolding distribute_to_consumer
  distribute_to_consumer-IsCovered k l now bonded de db c k' l' covered h =
      let (fee, share) = epoch_share_for_consumer k c de db (length bonded) in
      elim (Bool-cases (phase_eq (get_consumer_phase k c) launched)) [
        | inr idle ↦ λ c' d. ground (arith, idle, h, covered c' d)
        | inl active ↦ elim (Bool-cases (share == 0)) [
          | inl zero_share ↦ λ c' d. ground (
            arith,
            active,
            zero_share,
            h,
            covered c' d,
            outstanding-skip_zero_share k now c fee share c' d,
          )
          | inr some_share ↦
              pay_consumer-IsCovered k l now bonded c fee
                (record { denom = fee.denom; amount = share }) k' l' refl
                (unfold epoch_share_for_consumer in div-mul-le_self fee.amount (length bonded))
                covered (ground (arith, active, some_share, h))
        ]
      ]

  distribute_to_consumers-IsCovered :
      (k : Keeper) (l : bank.Ledger) (now : ℕ) (bonded : List BondedVal)
      (default_epoch default_block : Coin) (cs : List ℕ) (k' : Keeper) (l' : bank.Ledger)
      → IsCovered bank k l now
      → distribute_to_consumers bank (k, l) now bonded default_epoch default_block cs
        ≡ some (k', l')
      → IsCovered bank k' l' now
  unfolding distribute_to_consumers
  distribute_to_consumers-IsCovered k l now bonded de db [] k' l' covered h c₀ d =
      ground (arith, h, covered c₀ d)
  distribute_to_consumers-IsCovered k l now bonded de db (c ∷ cs) k' l' covered h c₀ d =
      elim (Option-cases (distribute_to_consumer bank k l now bonded de db c)) [
        | inl fails ↦ ground (arith, fails, h)
        | inr ((k₁, l₁), run) ↦
            distribute_to_consumers-IsCovered k₁ l₁ now bonded de db cs k' l'
              (distribute_to_consumer-IsCovered k l now bonded de db c k₁ l₁ covered run)
              (ground (arith, run, h)) c₀ d
      ]

  -- If every pool's balance covers its escrow in every denomination before a distribution of the
  -- epoch's fees to all consumers, it does so after it, the newly withheld shares included. The
  -- pools' addresses are distinct.
  pub distribution_keeps_escrow :
      (k : Keeper) (l : bank.Ledger) (staking : Staking) (now : ℕ) (k' : Keeper) (l' : bank.Ledger)
      → IsCovered bank k l now
      → distribute_consumer_fees bank k l staking now ≡ some (k', l')
      → IsCovered bank k' l' now
  unfolding distribute_consumer_fees
  distribution_keeps_escrow k l staking now k' l' covered h =
      elim (Option-cases staking.bonded_validators) [
        | inl fails ↦ ground (arith, fails, h)
        | inr (bonded, found) ↦ elim (Bool-cases (length bonded == 0)) [
          | inl nobody ↦ λ c d. ground (arith, found, nobody, h, covered c d)
          | inr some_bonded ↦
              distribute_to_consumers-IsCovered k l now bonded (default_fee_per_epoch k)
                (get_fees_per_block k) (get_all_active_consumer_ids k) k' l' covered
                (ground (arith, found, some_bonded, h))
        ]
      ]
