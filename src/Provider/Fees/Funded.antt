-- ===== src/Provider/Fees/Funded.antt =====
-- A consumer's run with enough in the pool pays every eligible validator its share
-- (x/vaas/provider/keeper/fees.go).
use vaas.Base.{
  ℕ, ◌+◌, ◌*◌, ◌≤◌, ◌<◌, ◌≡◌, refl, ap, true, false, some, List, [], ◌∷◌, arith, ltb, length,
  Bool-cases, inl, inr, Option-cases, nat_eq, pair_eq, All,
}
use vaas.Base.Store.{get, set, get-set}
use vaas.Provider.State.{Keeper, Coin, WithheldFeeRecord, launched, get_consumer_phase}
use vaas.Provider.Bank.{Bank, BankLaws, Spread, output_to, output_total}
use vaas.Provider.FeePool.{outstanding_withheld_fees}
use vaas.Provider.Fees.{
  BondedVal, add_coin, is_consumer_in_debt, set_consumer_in_debt, epoch_share_for_consumer,
  set_epoch_share_record, update_consumer_debt_status, withheld_fee_record, record_withheld_fee,
  record_withheld_fees, eligible_addrs, excluded_cons_addrs, share_outputs,
}
use vaas.Provider.Fees.Run.{settle, pay_eligible, pay_consumer, distribute_to_consumer}
use native.Mathlib.Nat.{div-mul-le_self}
use vaas.Provider.Fees.Books.{recorded_share, settle-books}
use vaas.Provider.Fees.Outcome.{length-eligible_addrs}

-- No record is in another denomination than the fee's.
abbrev pub IsDenominated : Keeper → ℕ → Type 0
IsDenominated k d =
    (key : ℕ × ℕ) (e : WithheldFeeRecord)
    → get key k.withheld_fee_records ≡ some e
    → e.amount.denom ≡ d

-- Withholding in the records' denomination does not panic.
withheld_fee_record-some :
    (k : Keeper) (now c addr : ℕ) (share : Coin)
    → IsDenominated k share.denom
    → (e : WithheldFeeRecord) × (withheld_fee_record k now c addr share ≡ some e)
      × (e.amount.denom ≡ share.denom)
unfolding withheld_fee_record add_coin
withheld_fee_record-some k now c addr share fit =
    let expires = now + k.infraction_params.downtime_challenge_window in
    elim (Option-cases (get (c, addr) k.withheld_fee_records)) [
      | inl absent ↦ (record { amount = share; expires_at = expires }, ground (arith, absent), refl)
      | inr (e, found) ↦ elim (Bool-cases (ltb now e.expires_at)) [
        | inl live ↦ (
          record {
            amount = record { denom = share.denom; amount = share.amount + e.amount.amount };
            expires_at = expires;
          },
          ground (arith, found, live, fit (c, addr) e found),
          refl,
        )
        | inr expired ↦
            (record { amount = share; expires_at = expires }, ground (arith, found, expired), refl)
      ]
    ]

record_withheld_fee-IsDenominated :
    (k : Keeper) (now c addr : ℕ) (share : Coin)
    → IsDenominated k share.denom
    → (k' : Keeper) × (record_withheld_fee k now c addr share ≡ some k')
      × IsDenominated k' share.denom
unfolding record_withheld_fee
record_withheld_fee-IsDenominated k now c addr share fit =
    let (e, made, denominated) = withheld_fee_record-some k now c addr share fit in
    (
      record k { withheld_fee_records = set (c, addr) e k.withheld_fee_records },
      ground (arith, made),
      λ key e' h.
          ground
            (arith, denominated, fit key e', h, get-set key (c, addr) e k.withheld_fee_records),
    )

record_withheld_fees-some :
    (k : Keeper) (now c : ℕ) (addrs : List ℕ) (share : Coin)
    → IsDenominated k share.denom
    → (k' : Keeper) × (record_withheld_fees k now c addrs share ≡ some k')
unfolding record_withheld_fees
record_withheld_fees-some k now c [] share fit = (k, refl)
record_withheld_fees-some k now c (a ∷ addrs) share fit =
    let (k₁, made, fit') = record_withheld_fee-IsDenominated k now c a share fit in
    let (k', rest) = record_withheld_fees-some k₁ now c addrs share fit' in
    (k', ground (arith, made, rest))

settle-some :
    (k : Keeper) (now c : ℕ) (share : Coin) (excluded : List ℕ)
    → IsDenominated k share.denom
    → (k' : Keeper) × (settle k now c share excluded ≡ some k')
unfolding settle set_epoch_share_record update_consumer_debt_status set_consumer_in_debt
settle-some k now c share excluded fit =
    record_withheld_fees-some
      (set_epoch_share_record (update_consumer_debt_status k c false) c now share.amount) now c
      excluded share (λ key e h. fit key e (ground (arith, h)))

output_total-share_outputs :
    (share : Coin) (addrs : List ℕ)
    → output_total share.denom (share_outputs share addrs) ≡ share.amount * length addrs
unfolding output_total share_outputs
output_total-share_outputs share [] = omega arith
output_total-share_outputs share (a ∷ addrs) =
    ground (arith, output_total-share_outputs share addrs)

module _ (bank : Bank) (laws : BankLaws bank) where
  share_outputs-payable :
      (share : Coin) (addrs : List ℕ)
      → All (λ a. bank.accepts a ≡ true) addrs
      → All (λ o. (bank.accepts o.0 ≡ true) × (o.1.denom ≡ share.denom)) (share_outputs share addrs)
  unfolding share_outputs
  share_outputs-payable share [] ok = tt
  share_outputs-payable share (a ∷ addrs) ok =
      ((ok.0, refl), share_outputs-payable share addrs ok.1)

  -- The pool pays each of the accounts a share, and nobody else.
  abbrev pub PaidShares : bank.Ledger → ℕ → Coin → List ℕ → bank.Ledger → Type 0
  PaidShares l c share addrs l' =
      Spread bank l (bank.fee_pool_address c)
        (record { denom = share.denom; amount = share.amount * length addrs })
        (share_outputs share addrs) l'

  pay_eligible-PaidShares :
      (l : bank.Ledger) (c : ℕ) (share : Coin) (addrs : List ℕ)
      → All (λ a. bank.accepts a ≡ true) addrs
      → share.amount * length addrs ≤ bank.balance l (bank.fee_pool_address c) share.denom
      → (l' : bank.Ledger) × (pay_eligible bank l c share addrs ≡ some l')
        × PaidShares l c share addrs l'
  unfolding pay_eligible share_outputs output_to
  pay_eligible-PaidShares l c share [] ok covered = (l, refl, λ a d. ground arith)
  pay_eligible-PaidShares l c share (a ∷ addrs) ok covered =
      let coin : Coin = record {
        denom = share.denom;
        amount = share.amount * length (a ∷ addrs);
      } in
      let outs = share_outputs share (a ∷ addrs) in
      let (l', paid) =
        laws.input_output_covered l (bank.fee_pool_address c) coin outs
          (share_outputs-payable share (a ∷ addrs) ok)
          (output_total-share_outputs share (a ∷ addrs)) covered in
      (
        l',
        ground (arith, paid),
        laws.input_output_spread l (bank.fee_pool_address c) coin outs l' paid,
      )

  -- A run for a launched consumer with a positive share, whose pool holds the epoch fee beside its
  -- escrow, pays: it draws one share for each eligible validator and gives it to that validator's
  -- account, touches no other balance, records the share, and clears the debt flag. The eligible
  -- accounts accept coins, and the withheld records are in the fee's denomination.
  pub funded_run_pays :
      (k : Keeper) (l : bank.Ledger) (now : ℕ) (bonded : List BondedVal)
      (default_epoch default_block : Coin) (c : ℕ)
      → let (fee, share) =
          epoch_share_for_consumer k c default_epoch default_block (length bonded) in
        get_consumer_phase k c ≡ launched
        → 0 < share
        → outstanding_withheld_fees k now c fee.denom + fee.amount
          ≤ bank.balance l (bank.fee_pool_address c) fee.denom
        → All (λ a. bank.accepts a ≡ true) (eligible_addrs k c bonded)
        → IsDenominated k fee.denom
        → (k' : Keeper) × (l' : bank.Ledger) × (distribute_to_consumer bank k l now bonded
              default_epoch default_block c
            ≡ some (k', l'))
          × PaidShares l c
              (record { denom = fee.denom; amount = share })
              (eligible_addrs k c bonded)
              l'
          × (recorded_share k' c now ≡ some share)
          × (is_consumer_in_debt k' c ≡ false)
  unfolding distribute_to_consumer pay_consumer epoch_share_for_consumer
  funded_run_pays k l now bonded de db c active some_share funded ok fit =
      let (fee, share) = epoch_share_for_consumer k c de db (length bonded) in
      let coin : Coin = record { denom = fee.denom; amount = share } in
      let eligible = eligible_addrs k c bonded in
      let excluded = excluded_cons_addrs k c bonded in
      let split = ap (λ (n : ℕ). share * n) (length-eligible_addrs k c bonded) in
      let (l', paid, spread) =
        pay_eligible-PaidShares l c coin eligible ok
          (omega (arith, split, funded, div-mul-le_self fee.amount (length bonded))) in
      let (k', settled) = settle-some k now c coin excluded fit in
      let (recorded, cleared) = settle-books k now c coin excluded k' settled in
      (k', l', ground (arith, active, some_share, funded, paid, settled), spread, recorded, cleared)
