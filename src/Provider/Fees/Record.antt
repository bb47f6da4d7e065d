-- ===== src/Provider/Fees/Record.antt =====
-- What one consumer's run of DistributeConsumerFees pays, withholds and records
-- (x/vaas/provider/keeper/fees.go).
use vaas.Base.{
  ℕ, ◌+◌, ◌*◌, ◌≤◌, ◌<◌, ◌≡◌, ◌⊎◌, ap, refl, subst, ◌||◌, ◌&&◌, ltb, none, if◌then◌else◌, ◌∙◌, true,
  false, some, List, [], ◌∷◌, arith, ◌==◌, length, Bool-cases, inl, inr, nat_eq, pair_eq,
}
use vaas.Base.Store.{get}
use vaas.Provider.State.{Keeper, Coin, launched, get_consumer_phase}
use vaas.Provider.Bank.{Bank, BankLaws, output_to}
use vaas.Provider.FeePool.{outstanding_withheld_fees}
use vaas.Provider.Fees.{
  BondedVal, is_consumer_in_debt, epoch_share_for_consumer, set_epoch_share_record,
  update_consumer_debt_status, excluded_cons_addrs, eligible_addrs, is_epoch_downtime,
  share_outputs,
}
use vaas.Provider.Fees.Run.{skip_zero_share, pay_eligible, pay_consumer, distribute_to_consumer}
use vaas.Provider.Fees.Withheld.{OnePerAddress, is_bonded, entry_after, settle-entries}
use vaas.Provider.Fees.Outcome.{pay_consumer-outcome}
use vaas.Provider.Fees.Funded.{PaidShares}
use vaas.Provider.Fees.Books.{
  recorded_share, recorded_share-set, is_consumer_in_debt-update, update_debt-withheld,
  skip_zero_share-books, settle-books,
}

module _ (bank : Bank) (laws : BankLaws bank) where
  pay_eligible-spread :
      (l : bank.Ledger) (c : ℕ) (share : Coin) (addrs : List ℕ) (l' : bank.Ledger)
      → pay_eligible bank l c share addrs ≡ some l'
      → PaidShares bank laws l c share addrs l'
  unfolding pay_eligible share_outputs output_to
  pay_eligible-spread l c share [] l' h = λ a d. ground (arith, h)
  pay_eligible-spread l c share (x ∷ addrs) l' h =
      laws.input_output_spread l (bank.fee_pool_address c)
        (record { denom = share.denom; amount = share.amount * length (x ∷ addrs) })
        (share_outputs share (x ∷ addrs)) l' (ground (arith, h))

  -- Why a run pays nothing, and the debt flag after it.
  abbrev pub NothingDue :
      Keeper → bank.Ledger → ℕ → List BondedVal → ℕ → Coin → Coin → Keeper → Type 0
  NothingDue k l now bonded c fee share k' =
      let balance = bank.balance l (bank.fee_pool_address c) fee.denom in
      let needed = outstanding_withheld_fees k now c fee.denom + fee.amount in
      let eligible = eligible_addrs k c bonded in
      ((share.amount ≡ 0)
        × (is_consumer_in_debt k' c ≡ (ltb 0 fee.amount || is_consumer_in_debt k c)))
      ⊎ ((0 < share.amount) × (balance < needed) × (is_consumer_in_debt k' c ≡ true))
      ⊎ ((0 < share.amount)
          × (needed ≤ balance)
          × (0 < length eligible)
          × (bank.input_output_coins l (bank.fee_pool_address c)
                (record { denom = share.denom; amount = share.amount * length eligible })
                (share_outputs share eligible)
              ≡ none)
          × (is_consumer_in_debt k' c ≡ is_consumer_in_debt k c))

  -- Nothing is paid or withheld, for one of these reasons, and a zero share is recorded.
  abbrev pub IsUnpaid :
      Keeper → bank.Ledger → ℕ → List BondedVal → ℕ → Coin → Coin → Keeper → bank.Ledger → Type 0
  IsUnpaid k l now bonded c fee share k' l' =
      (l' ≡ l)
      × (k'.withheld_fee_records ≡ k.withheld_fee_records)
      × (recorded_share k' c now ≡ some 0)
      × NothingDue k l now bonded c fee share k'

  -- The share is paid to every eligible validator's account and withheld from every bonded validator
  -- with downtime, out of a pool that holds the fee beside the escrow.
  abbrev pub IsPaidOut :
      Keeper → bank.Ledger → ℕ → List BondedVal → ℕ → Coin → Coin → Keeper → bank.Ledger → Type 0
  IsPaidOut k l now bonded c fee share k' l' =
      (0 < share.amount)
      × (outstanding_withheld_fees k now c fee.denom + fee.amount
          ≤ bank.balance l (bank.fee_pool_address c) fee.denom)
      × PaidShares bank laws l c share (eligible_addrs k c bonded) l'
      × ((b a : ℕ)
          → get (b, a) k'.withheld_fee_records ≡ (
              if c == b && (is_bonded a bonded && is_epoch_downtime k c a)
              then some (entry_after k now c share a)
              else get (b, a) k.withheld_fee_records))
      × (recorded_share k' c now ≡ some share.amount)
      × (is_consumer_in_debt k' c ≡ false)

  skip_zero_share-IsUnpaid :
      (k : Keeper) (l : bank.Ledger) (now : ℕ) (bonded : List BondedVal) (c : ℕ) (fee share : Coin)
      → share.amount ≡ 0
      → IsUnpaid k l now bonded c fee share (skip_zero_share k now c fee share.amount) l
  skip_zero_share-IsUnpaid k l now bonded c fee share zero_share =
      let (recorded, debt, withheld) = skip_zero_share-books k now c fee share.amount in
      (refl, withheld, recorded ∙ ap (λ (n : ℕ). some n) zero_share, inl (zero_share, debt))

  pay_consumer-books :
      (k : Keeper) (l : bank.Ledger) (now : ℕ) (bonded : List BondedVal) (c : ℕ) (fee share : Coin)
      (k' : Keeper) (l' : bank.Ledger)
      → OnePerAddress bonded
      → 0 < share.amount
      → pay_consumer bank k l now bonded c fee share ≡ some (k', l')
      → IsUnpaid k l now bonded c fee share k' l' ⊎ IsPaidOut k l now bonded c fee share k' l'
  pay_consumer-books k l now bonded c fee share k' l' once positive h =
      elim (pay_consumer-outcome bank laws k l now bonded c fee share k' l' h) [
        | inl (same, inl (short, owes)) ↦ inl (
          same,
          rw owes (unfold set_epoch_share_record in update_debt-withheld k c true),
          rw owes (recorded_share-set (update_consumer_debt_status k c true) c now 0),
          inr (
              inl (
                positive,
                short,
                rw owes (
                    unfold is_consumer_in_debt set_epoch_share_record in
                    is_consumer_in_debt-update k c true),
              )),
        )
        | inl (same, inr (held, some_left, refused, skipped)) ↦ inl (
          same,
          rw skipped (unfold set_epoch_share_record in refl),
          rw skipped (recorded_share-set k c now 0),
          inr (
              inr (
                positive,
                held,
                some_left,
                refused,
                rw skipped (unfold is_consumer_in_debt set_epoch_share_record in refl),
              )),
        )
        | inr run ↦
            let (recorded, cleared) =
              settle-books k now c share (excluded_cons_addrs k c bonded) k' run.settled in
            inr (
              positive,
              run.funded,
              pay_eligible-spread l c share (eligible_addrs k c bonded) l' run.paid,
              λ b a. settle-entries k now c share bonded k' b a once run.settled,
              recorded,
              cleared,
            )
      ]

  -- A run for a launched consumer that returns either records a zero share, with the ledger and the
  -- withheld records left as they were, or records the consumer's share of the epoch fee. It records
  -- zero only where the share is zero (with the debt flag set if there is a fee), where the pool does
  -- not hold the fee beside its escrow (with the flag set), or where the bank refuses the payment to
  -- the eligible validators (with the flag left). Else the pool held the fee beside its escrow, each
  -- eligible validator's account has received the share, from the pool and with no other balance
  -- changed; each bonded validator with downtime has it in escrow beside what it had there, for one
  -- challenge window from now, and no other record has changed; and the debt flag is cleared. No two
  -- bonded validators have the same consensus address.
  pub run_records_share :
      (k : Keeper) (l : bank.Ledger) (now : ℕ) (bonded : List BondedVal)
      (default_epoch default_block : Coin) (c : ℕ) (k' : Keeper) (l' : bank.Ledger)
      → OnePerAddress bonded
      → get_consumer_phase k c ≡ launched
      → distribute_to_consumer bank k l now bonded default_epoch default_block c ≡ some (k', l')
      → let (fee, share) =
          epoch_share_for_consumer k c default_epoch default_block (length bonded) in
        let coin : Coin = record { denom = fee.denom; amount = share } in
        IsUnpaid k l now bonded c fee coin k' l' ⊎ IsPaidOut k l now bonded c fee coin k' l'
  unfolding distribute_to_consumer
  run_records_share k l now bonded de db c k' l' once active h =
      let (fee, share) = epoch_share_for_consumer k c de db (length bonded) in
      let coin : Coin = record { denom = fee.denom; amount = share } in
      elim (Bool-cases (share == 0)) [
        | inl zero_share ↦
            let unpaid =
              skip_zero_share-IsUnpaid k l now bonded c fee coin (ground (arith, zero_share)) in
            let same : (skip_zero_share k now c fee share, l) ≡ (k', l') =
              ground (arith, active, zero_share, h) in
            inl (
              subst (λ (r : Keeper × bank.Ledger). IsUnpaid k l now bonded c fee coin r.0 r.1) same
                unpaid)
        | inr some_share ↦
            pay_consumer-books k l now bonded c fee coin k' l' once (ground (arith, some_share))
              (ground (arith, active, some_share, h))
      ]
