-- ===== src/Provider/Fees/Tests.antt =====
-- The theorems on fees at a concrete state: consumer 7 owes 20 an epoch, two validators are bonded,
-- and one of them has downtime.
use vaas.Base.{
  ℕ, ◌+◌, ◌≤◌, ◌≡◌, refl, true, false, ◌⊎◌, [], ◌∷◌, List, some, none, nat_eq, pair_eq, ◌==◌,
  if◌then◌else◌, arith, is_some,
}
use vaas.Base.Store.{get, sum_by, select, set}
use vaas.Provider.State.{Keeper, Coin, launched, get_consumer_phase, is_consumer_active}
use vaas.Provider.Example.{keeper}
use vaas.Provider.Bank.{output_to, output_total}
use vaas.Provider.Bank.Toy.{Table, toy_bank, toy_laws}
use vaas.Provider.FeePool.{outstanding_withheld_fees}
use vaas.Provider.Fees.{
  BondedVal, Staking, default_fee_per_epoch, get_fees_per_block, epoch_share_for_consumer,
  effective_fees_per_epoch, set_epoch_share_record, update_consumer_debt_status,
  is_consumer_in_debt, record_withheld_fees, record_withheld_fee, withheld_fee_record,
  is_epoch_downtime, eligible_addrs, excluded_cons_addrs, share_outputs,
  get_all_active_consumer_ids, get_all_consumer_ids, ids_from, active_ids, resolve_epoch_share,
  earliest_run, earlier,
}
use vaas.Provider.Fees.Run.{
  sweep_expired_withheld_fee_records, settle, pay_eligible, pay_consumer, distribute_to_consumer,
  distribute_to_consumers, distribute_consumer_fees, pay_withheld_fees,
}
use vaas.Provider.Fees.Outcome.{IsCovered}
use vaas.Provider.Fees.Escrow.{sweep_expired_withheld_fee_records_keeps_escrow}
use vaas.Provider.Fees.Distribution.{distribution_keeps_escrow}
use vaas.Provider.Fees.Withheld.{OnePerAddress}
use vaas.Provider.Fees.Books.{recorded_share}
use vaas.Provider.Fees.Record.{IsUnpaid, IsPaidOut, run_records_share}
use vaas.Provider.Fees.Funded.{PaidShares, funded_run_pays, IsDenominated}
use vaas.Provider.Fees.Restitution.{owed_to, records, pay_withheld_fees_makes_whole}
use vaas.Provider.Fees.Shares.{resolve_epoch_share_lem}

abbrev bonded : List BondedVal
bonded = record { cons_addr = 30; acc_addr = 40 } ∷ record { cons_addr = 31; acc_addr = 41 } ∷ []

abbrev staking : Staking
staking = record { bonded_validators = some bonded; validator_by_cons_addr = λ a. some (a + 10) }

-- Validator 31 has downtime; a share of 4 was recorded at time 5.
abbrev watched : Keeper
watched = record keeper {
  epoch_downtime = ((7, 31), true) ∷ [];
  epoch_share_records = ((7, 5), 4) ∷ [];
}

-- The pool of consumer 7 holds 40.
abbrev table : Table
table a d = if a == 107 then if d == 0 then 40 else 0 else 0

watched-IsCovered :
    (k : Keeper)
    → k.withheld_fee_records ≡ keeper.withheld_fee_records
    → IsCovered toy_bank k table 10
unfolding outstanding_withheld_fees sum_by
watched-IsCovered k same c d = ground (arith, same)

sweep_expired_withheld_fee_records_keeps_escrow_example :
    outstanding_withheld_fees (sweep_expired_withheld_fee_records keeper 50) 60 7 0
    ≡ outstanding_withheld_fees keeper 60 7 0
unfolding get
sweep_expired_withheld_fee_records_keeps_escrow_example =
    sweep_expired_withheld_fee_records_keeps_escrow keeper 50 60 7 0 (refl, tt) (omega arith)

-- After the run at time 10: 10 paid to account 40, 10 withheld from validator 31.
abbrev distributed : Keeper
distributed = record watched {
  epoch_share_records = ((7, 5), 4) ∷ ((7, 10), 10) ∷ [];
  withheld_fee_records =
      ((7, 30), record { amount = record { denom = 0; amount = 3 }; expires_at = 50 })
      ∷ ((7, 31), record { amount = record { denom = 0; amount = 10 }; expires_at = 60 })
      ∷ [];
}

distribution_runs :
    (l' : Table) × (distribute_consumer_fees toy_bank watched table staking 10
      ≡ some (distributed, l'))
unfolding distribute_consumer_fees distribute_to_consumers distribute_to_consumer pay_consumer
    pay_eligible settle record_withheld_fees record_withheld_fee withheld_fee_record
    set_epoch_share_record update_consumer_debt_status is_consumer_in_debt eligible_addrs
    excluded_cons_addrs is_epoch_downtime share_outputs epoch_share_for_consumer
    effective_fees_per_epoch default_fee_per_epoch get_fees_per_block get_all_active_consumer_ids
    get_all_consumer_ids ids_from active_ids get_consumer_phase is_consumer_active
    outstanding_withheld_fees sum_by get set output_total output_to
distribution_runs = (_, refl)

distribution_keeps_escrow_example :
    outstanding_withheld_fees distributed 10 7 0 ≤ distribution_runs.0 107 0
distribution_keeps_escrow_example =
    distribution_keeps_escrow toy_bank toy_laws (λ c c' h. omega (arith, h)) watched table staking
      10 distributed distribution_runs.0 (watched-IsCovered watched refl) distribution_runs.1 7 0

-- The run for consumer 7 alone.
run_runs :
    (l' : Table) × (distribute_to_consumer toy_bank watched table 10 bonded
        (default_fee_per_epoch watched)
        (get_fees_per_block watched)
        7
      ≡ some (distributed, l'))
unfolding distribute_to_consumer pay_consumer pay_eligible settle record_withheld_fees
    record_withheld_fee withheld_fee_record set_epoch_share_record update_consumer_debt_status
    is_consumer_in_debt eligible_addrs excluded_cons_addrs is_epoch_downtime share_outputs
    epoch_share_for_consumer effective_fees_per_epoch default_fee_per_epoch get_fees_per_block
    get_consumer_phase outstanding_withheld_fees sum_by get set output_total output_to
run_runs = (_, refl)

watched_launched : get_consumer_phase watched 7 ≡ launched
unfolding get_consumer_phase get
watched_launched = refl

share_10 :
    (epoch_share_for_consumer watched 7
      (default_fee_per_epoch watched)
      (get_fees_per_block watched)
      2)
    ≡ (record { denom = 0; amount = 20 }, 10)
unfolding epoch_share_for_consumer effective_fees_per_epoch default_fee_per_epoch get_fees_per_block
    get
share_10 = refl

abbrev fee_share : Coin
fee_share = record { denom = 0; amount = 10 }

abbrev whole_fee : Coin
whole_fee = record { denom = 0; amount = 20 }

bonded_once : OnePerAddress bonded
bonded_once = (refl, (refl, tt))

run_records_share_example :
    IsUnpaid toy_bank toy_laws watched table 10 bonded 7 whole_fee fee_share distributed run_runs.0
    ⊎ IsPaidOut toy_bank toy_laws watched table 10 bonded 7 whole_fee fee_share distributed
        run_runs.0
unfolding epoch_share_for_consumer effective_fees_per_epoch default_fee_per_epoch get_fees_per_block
    get
run_records_share_example =
    run_records_share toy_bank toy_laws watched table 10 bonded (default_fee_per_epoch watched)
      (get_fees_per_block watched) 7 distributed run_runs.0 bonded_once watched_launched run_runs.1

eligible_40 : eligible_addrs watched 7 bonded ≡ 40 ∷ []
unfolding eligible_addrs is_epoch_downtime get
eligible_40 = refl

watched-IsDenominated : IsDenominated watched 0
unfolding get
watched-IsDenominated key e h = ground (arith, h)

funded_run_pays_example :
    (k' : Keeper) × (l' : Table) × (distribute_to_consumer toy_bank watched table 10 bonded
        (default_fee_per_epoch watched)
        (get_fees_per_block watched)
        7
      ≡ some (k', l'))
    × PaidShares toy_bank toy_laws table 7 fee_share (eligible_addrs watched 7 bonded) l'
    × (recorded_share k' 7 10 ≡ some 10)
    × (is_consumer_in_debt k' 7 ≡ false)
unfolding epoch_share_for_consumer effective_fees_per_epoch default_fee_per_epoch get_fees_per_block
    get outstanding_withheld_fees sum_by eligible_addrs is_epoch_downtime
funded_run_pays_example =
    funded_run_pays toy_bank toy_laws watched table 10 bonded (default_fee_per_epoch watched)
      (get_fees_per_block watched) 7 watched_launched (omega arith) (omega arith) (refl, tt)
      watched-IsDenominated

-- Validator 30 is owed 3, which account 40 gets.
pay_withheld_fees_makes_whole_example :
    (pay_withheld_fees toy_bank keeper table staking 10 7).1 40 0 + 0
    ≡ 0
      + owed_to staking.validator_by_cons_addr 10 40 0
          (records toy_bank toy_laws staking 10 7 keeper)
unfolding select outstanding_withheld_fees
pay_withheld_fees_makes_whole_example =
    (pay_withheld_fees_makes_whole toy_bank toy_laws staking 10 7 keeper table
        ((40, refl, refl), tt) (watched-IsCovered keeper refl 7)).0
      40 0

resolve_epoch_share_lem_example :
    ((share : ℕ)
      → resolve_epoch_share distributed 7 6 ≡ some share
      → (at : ℕ) × (get (7, at) distributed.epoch_share_records ≡ some share)
        × (6 ≤ at)
        × ((t' : ℕ)
            → 6 ≤ t'
            → is_some (get (7, t') distributed.epoch_share_records) ≡ true
            → at ≤ t'))
    × (resolve_epoch_share distributed 7 6 ≡ none
        → (t' : ℕ) → 6 ≤ t'
        → get (7, t') distributed.epoch_share_records ≡ none)
unfolding get
resolve_epoch_share_lem_example = resolve_epoch_share_lem distributed 7 6 (refl, (refl, tt))

resolve_runs : resolve_epoch_share distributed 7 6 ≡ some 10
unfolding resolve_epoch_share earliest_run earlier
resolve_runs = refl
