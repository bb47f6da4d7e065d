-- ===== src/Provider/Fees/Run.antt =====
-- DistributeConsumerFees, PayWithheldFees and SweepExpiredWithheldFeeRecords of
-- x/vaas/provider/keeper/fees.go. `none` is an error that the function returns or a panic; a refused
-- payment is logged and the loop goes on. A payment in a cached context either happens whole or
-- leaves the ledger, which is what a refusal of the bank is here.
use vaas.Base.{
  ℕ, ◌*◌, true, false, not, Option, none, some, List, [], ◌∷◌, ltb, ◌==◌, if◌then◌else◌, length,
  nat_eq, pair_eq,
}
use vaas.Base.Int.{pos, sub_ℕ, ltb_ℤ}
use vaas.Base.Store.{Store, remove, select}
use vaas.Provider.State.{Keeper, Coin, WithheldFeeRecord, launched, phase_eq, get_consumer_phase}
use vaas.Provider.Bank.{Bank}
use vaas.Provider.FeePool.{outstanding_withheld_fees}
use vaas.Provider.Fees.{
  BondedVal, Staking, default_fee_per_epoch, get_fees_per_block, epoch_share_for_consumer,
  set_epoch_share_record, update_consumer_debt_status, record_withheld_fees, eligible_addrs,
  excluded_cons_addrs, share_outputs, get_all_active_consumer_ids,
}

-- An entry of the withheld fee records.
abbrev pub Withheld : Type 0
Withheld = (ℕ × ℕ) × WithheldFeeRecord

-- The keys of a list of entries are deleted.
unfoldable pub remove_entries :
    List Withheld → Store (ℕ × ℕ) WithheldFeeRecord → Store (ℕ × ℕ) WithheldFeeRecord
remove_entries [] m = m
remove_entries (x ∷ xs) m = remove_entries xs (remove x.0 m)

-- SweepExpiredWithheldFeeRecords.
unfoldable pub sweep_expired_withheld_fee_records : Keeper → ℕ → Keeper
sweep_expired_withheld_fee_records k now = record k {
  withheld_fee_records =
      remove_entries (select (λ x. not (ltb now x.1.expires_at)) k.withheld_fee_records)
        k.withheld_fee_records;
}

-- The run for a consumer whose share is zero.
unfoldable pub skip_zero_share : Keeper → ℕ → ℕ → Coin → ℕ → Keeper
skip_zero_share k now consumer fee share =
    set_epoch_share_record
      (if ltb 0 fee.amount then update_consumer_debt_status k consumer true else k) consumer now
      share

-- The end of a run that was paid.
unfoldable pub settle : Keeper → ℕ → ℕ → Coin → List ℕ → Option Keeper
settle k now consumer share excluded =
    record_withheld_fees
      (set_epoch_share_record (update_consumer_debt_status k consumer false) consumer now
        share.amount)
      now consumer excluded share

module _ (bank : Bank) where
  -- The payment of a share to each eligible validator, one input for all of them.
  unfoldable pub pay_eligible : bank.Ledger → ℕ → Coin → List ℕ → Option bank.Ledger
  pay_eligible l consumer share eligible =
      if ltb 0 (length eligible)
      then bank.input_output_coins l (bank.fee_pool_address consumer)
          (record { denom = share.denom; amount = share.amount * length eligible })
          (share_outputs share eligible)
      else some l

  -- The run for a consumer with a positive share.
  unfoldable pub pay_consumer :
      Keeper → bank.Ledger → ℕ → List BondedVal → ℕ → Coin → Coin → Option (Keeper × bank.Ledger)
  pay_consumer k l now bonded consumer fee share =
      let balance = bank.balance l (bank.fee_pool_address consumer) fee.denom in
      let outstanding = outstanding_withheld_fees k now consumer fee.denom in
      if ltb_ℤ (sub_ℕ balance outstanding) (pos fee.amount)
      then some
          (set_epoch_share_record (update_consumer_debt_status k consumer true) consumer now 0, l)
      else elim (pay_eligible l consumer share (eligible_addrs k consumer bonded)) [
        | none ↦ some (set_epoch_share_record k consumer now 0, l)
        | some l' ↦ elim (settle k now consumer share (excluded_cons_addrs k consumer bonded)) [
          | none ↦ none
          | some k' ↦ some (k', l')
        ]
      ]

  -- The body of the loop of DistributeConsumerFees.
  unfoldable pub distribute_to_consumer :
      Keeper → bank.Ledger → ℕ → List BondedVal → Coin → Coin → ℕ → Option (Keeper × bank.Ledger)
  distribute_to_consumer k l now bonded default_epoch default_block consumer =
      if not (phase_eq (get_consumer_phase k consumer) launched)
      then some (k, l)
      else let (fee, share) =
          epoch_share_for_consumer k consumer default_epoch default_block (length bonded) in
        if share == 0
        then some (skip_zero_share k now consumer fee share, l)
        else pay_consumer k l now bonded consumer fee (record { denom = fee.denom; amount = share })

  unfoldable pub distribute_to_consumers :
      Keeper × bank.Ledger
      → ℕ
      → List BondedVal
      → Coin
      → Coin
      → List ℕ
      → Option (Keeper × bank.Ledger)
  distribute_to_consumers s now bonded default_epoch default_block [] = some s
  distribute_to_consumers (k, l) now bonded default_epoch default_block (c ∷ cs) =
      elim (distribute_to_consumer k l now bonded default_epoch default_block c) [
        | none ↦ none
        | some s' ↦ distribute_to_consumers s' now bonded default_epoch default_block cs
      ]

  -- DistributeConsumerFees.
  unfoldable pub distribute_consumer_fees :
      Keeper → bank.Ledger → Staking → ℕ → Option (Keeper × bank.Ledger)
  distribute_consumer_fees k l staking now = elim staking.bonded_validators [
    | none ↦ none
    | some bonded ↦
        if length bonded == 0
        then some (k, l)
        else distribute_to_consumers (k, l) now bonded (default_fee_per_epoch k)
            (get_fees_per_block k) (get_all_active_consumer_ids k)
  ]

  -- What PayWithheldFees can pay of a record: no more than the pool holds.
  unfoldable pub payable_amount : bank.Ledger → ℕ → Coin → Coin
  payable_amount l consumer owed =
      let balance = bank.balance l (bank.fee_pool_address consumer) owed.denom in
      if ltb balance owed.amount then record { denom = owed.denom; amount = balance } else owed

  -- The payment of one record.
  unfoldable pub pay_withheld_fee : bank.Ledger → Staking → ℕ → ℕ → Withheld → bank.Ledger
  pay_withheld_fee l staking now consumer x =
      if not (ltb now x.1.expires_at)
      then l
      else let payable = payable_amount l consumer x.1.amount in
        if not (ltb 0 payable.amount) then l else elim (staking.validator_by_cons_addr x.0.1) [
          | none ↦ l
          | some acc_addr ↦
              elim (bank.input_output_coins l (bank.fee_pool_address consumer) payable
                ((acc_addr, payable) ∷ [])) [ none ↦ l | some l' ↦ l' ]
        ]

  unfoldable pub pay_records :
      Keeper → bank.Ledger → Staking → ℕ → ℕ → List Withheld → Keeper × bank.Ledger
  pay_records k l staking now consumer [] = (k, l)
  pay_records k l staking now consumer (x ∷ xs) =
      pay_records (record k { withheld_fee_records = remove x.0 k.withheld_fee_records })
        (pay_withheld_fee l staking now consumer x) staking now consumer xs

  -- PayWithheldFees.
  unfoldable pub pay_withheld_fees : Keeper → bank.Ledger → Staking → ℕ → ℕ → Keeper × bank.Ledger
  pay_withheld_fees k l staking now consumer =
      pay_records k l staking now consumer (select (λ x. x.0.0 == consumer) k.withheld_fee_records)
