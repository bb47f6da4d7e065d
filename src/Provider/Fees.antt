-- ===== src/Provider/Fees.antt =====
-- Fee collection for the consumers' epochs and the escrow of withheld shares
-- (x/vaas/provider/keeper/fees.go, with debt.go and the fee parameters of params.go). Times are
-- nanoseconds. A stored collection is read and written without failure, so the branches for its
-- errors do not occur; logs and events are left out.
pub mod Run
pub mod Escrow
pub mod Outcome
pub mod Distribution
pub mod Withheld
pub mod Books
pub mod Record
pub mod Funded
pub mod Restitution
pub mod Shares
mod Tests
use vaas.Base.{
  ◌>>=◌, ℕ, suc, ◌+◌, ◌*◌, ◌/◌, ◌≡◌, Bool, true, false, not, ◌&&◌, Option, none, some, List, [],
  ◌∷◌, map, ltb, leb, ◌==◌, if◌then◌else◌, value_or, is_some, zero, length, nat_eq, pair_eq,
}
use vaas.Base.Int.{pos, sub_ℕ, ltb_ℤ}
use vaas.Base.Store.{Store, get, set, remove, clear, select}
use vaas.Provider.State.{
  Keeper, Coin, WithheldFeeRecord, launched, phase_eq, get_consumer_phase, is_consumer_active,
}
use vaas.Provider.Bank.{Bank}
use vaas.Provider.FeePool.{outstanding_withheld_fees}

-- A bonded validator: its consensus address and its operator's account address.
pub record BondedVal : Type 0 where
  pub cons_addr : ℕ
  pub acc_addr : ℕ

-- What fees use of x/staking: the bonded validators in order of power with their addresses decoded,
-- `none` where the query or an address fails, and the account of the operator of the validator that
-- is registered under a consensus address.
pub record Staking : Type 0 where
  pub bonded_validators : Option (List BondedVal)
  pub validator_by_cons_addr : ℕ → Option ℕ

-- Coin.Add, which panics on two denominations.
unfoldable pub add_coin : Coin → Coin → Option Coin
add_coin a b =
    if a.denom == b.denom
    then some (record { denom = a.denom; amount = a.amount + b.amount })
    else none

-- MarkEpochDowntime.
unfoldable pub mark_epoch_downtime : Keeper → ℕ → ℕ → Keeper
mark_epoch_downtime k consumer addr = record k {
  epoch_downtime = set (consumer, addr) true k.epoch_downtime;
}

-- IsEpochDowntime.
unfoldable pub is_epoch_downtime : Keeper → ℕ → ℕ → Bool
is_epoch_downtime k consumer addr = is_some (get (consumer, addr) k.epoch_downtime)

-- ClearEpochDowntime.
unfoldable pub clear_epoch_downtime : Keeper → Keeper
clear_epoch_downtime k = record k { epoch_downtime = [] }

-- SetEpochShareRecord.
unfoldable pub set_epoch_share_record : Keeper → ℕ → ℕ → ℕ → Keeper
set_epoch_share_record k consumer distributed_at share = record k {
  epoch_share_records = set (consumer, distributed_at) share k.epoch_share_records;
}

-- The earlier of a run and the earliest of the others.
unfoldable pub earlier : ℕ × ℕ → Option (ℕ × ℕ) → Option (ℕ × ℕ)
earlier run none = some run
earlier run (some other) = if leb run.0 other.0 then some run else some other

-- The first entry that the range of ResolveEpochShare iterates: a run's time and share.
unfoldable pub earliest_run : ℕ → ℕ → Store (ℕ × ℕ) ℕ → Option (ℕ × ℕ)
earliest_run consumer t [] = none
earliest_run consumer t (x ∷ m) =
    if x.0.0 == consumer && leb t x.0.1
    then earlier (x.0.1, x.1) (earliest_run consumer t m)
    else earliest_run consumer t m

-- ResolveEpochShare.
unfoldable pub resolve_epoch_share : Keeper → ℕ → ℕ → Option ℕ
resolve_epoch_share k consumer t = elim (earliest_run consumer t k.epoch_share_records) [
  | none ↦ none
  | some run ↦ some run.1
]

-- PruneEpochShareRecords.
unfoldable pub prune_epoch_share_records : Keeper → ℕ → Keeper
prune_epoch_share_records k older_than = record k {
  epoch_share_records = clear (λ key. ltb key.1 older_than) k.epoch_share_records;
}

-- GetFeesPerBlock.
unfoldable pub get_fees_per_block : Keeper → Coin
get_fees_per_block k = record { denom = k.fee_denom; amount = k.params.fees_per_block_amount }

-- The default epoch fee, as DistributeConsumerFees and liveEpochShare compute it.
unfoldable pub default_fee_per_epoch : Keeper → Coin
unfolding get_fees_per_block
default_fee_per_epoch k =
    let per_block = get_fees_per_block k in
    record { denom = per_block.denom; amount = per_block.amount * k.params.blocks_per_epoch }

-- effectiveFeesPerEpoch.
unfoldable pub effective_fees_per_epoch : Keeper → ℕ → Coin → Coin → Coin × Bool
effective_fees_per_epoch k consumer default_epoch default_block =
    elim (get consumer k.consumer_fees_per_block_override) [
      | none ↦ (default_epoch, false)
      | some amount ↦ (
        record { denom = default_block.denom; amount = amount * k.params.blocks_per_epoch },
        true,
      )
    ]

-- epochShareForConsumer.
unfoldable pub epoch_share_for_consumer : Keeper → ℕ → Coin → Coin → ℕ → Coin × ℕ
epoch_share_for_consumer k consumer default_epoch default_block num_bonded =
    let fee = (effective_fees_per_epoch k consumer default_epoch default_block).0 in
    (fee, fee.amount / num_bonded)

-- liveEpochShare.
unfoldable pub live_epoch_share : Keeper → Staking → ℕ → Option ℕ
live_epoch_share k staking consumer = elim staking.bonded_validators [
  | none ↦ none
  | some bonded ↦
      if length bonded == 0
      then some 0
      else some
          (epoch_share_for_consumer k consumer (default_fee_per_epoch k) (get_fees_per_block k)
            (length bonded)).1
]

-- IsConsumerInDebt.
unfoldable pub is_consumer_in_debt : Keeper → ℕ → Bool
is_consumer_in_debt k consumer = value_or false (get consumer k.consumer_debt)

-- SetConsumerInDebt.
unfoldable pub set_consumer_in_debt : Keeper → ℕ → Bool → Keeper
set_consumer_in_debt k consumer in_debt = record k {
  consumer_debt = set consumer in_debt k.consumer_debt;
}

-- DeleteConsumerDebt.
unfoldable pub delete_consumer_debt : Keeper → ℕ → Keeper
delete_consumer_debt k consumer = record k { consumer_debt = remove consumer k.consumer_debt }

abbrev pub bool_eq : Bool → Bool → Bool
bool_eq a b = if a then b else not b

-- UpdateConsumerDebtStatus.
unfoldable pub update_consumer_debt_status : Keeper → ℕ → Bool → Keeper
update_consumer_debt_status k consumer in_debt =
    if bool_eq (is_consumer_in_debt k consumer) in_debt
    then k
    else set_consumer_in_debt k consumer in_debt

-- The record that recordWithheldFee stores; `none` is the panic of Coin.Add.
unfoldable pub withheld_fee_record : Keeper → ℕ → ℕ → ℕ → Coin → Option WithheldFeeRecord
withheld_fee_record k now consumer addr amount =
    let expires = now + k.infraction_params.downtime_challenge_window in
    elim (get (consumer, addr) k.withheld_fee_records) [
      | none ↦ some (record { amount = amount; expires_at = expires })
      | some existing ↦
          if ltb now existing.expires_at
          then elim (add_coin amount existing.amount) [
            | none ↦ none
            | some sum ↦ some (record { amount = sum; expires_at = expires })
          ]
          else some (record { amount = amount; expires_at = expires })
    ]

-- recordWithheldFee.
unfoldable pub record_withheld_fee : Keeper → ℕ → ℕ → ℕ → Coin → Option Keeper
record_withheld_fee k now consumer addr amount = do
  entry ← withheld_fee_record k now consumer addr amount
  some (record k { withheld_fee_records = set (consumer, addr) entry k.withheld_fee_records })

-- The loop of DistributeConsumerFees over the excluded validators.
unfoldable pub record_withheld_fees : Keeper → ℕ → ℕ → List ℕ → Coin → Option Keeper
record_withheld_fees k now consumer [] share = some k
record_withheld_fees k now consumer (addr ∷ addrs) share = do
  k' ← record_withheld_fee k now consumer addr share
  record_withheld_fees k' now consumer addrs share

-- The accounts of the validators without downtime, and the consensus addresses of the others.
unfoldable pub eligible_addrs : Keeper → ℕ → List BondedVal → List ℕ
eligible_addrs k consumer [] = []
eligible_addrs k consumer (v ∷ vs) =
    if is_epoch_downtime k consumer v.cons_addr
    then eligible_addrs k consumer vs
    else v.acc_addr ∷ eligible_addrs k consumer vs

unfoldable pub excluded_cons_addrs : Keeper → ℕ → List BondedVal → List ℕ
excluded_cons_addrs k consumer [] = []
excluded_cons_addrs k consumer (v ∷ vs) =
    if is_epoch_downtime k consumer v.cons_addr
    then v.cons_addr ∷ excluded_cons_addrs k consumer vs
    else excluded_cons_addrs k consumer vs

-- One output of the share for each account.
unfoldable pub share_outputs : Coin → List ℕ → List (ℕ × Coin)
share_outputs share [] = []
share_outputs share (a ∷ addrs) = (a, share) ∷ share_outputs share addrs

-- GetAllConsumerIds: the ids below the next one.
unfoldable pub ids_from : ℕ → ℕ → List ℕ
ids_from i zero = []
ids_from i (suc n) = i ∷ ids_from (suc i) n

unfoldable pub get_all_consumer_ids : Keeper → List ℕ
get_all_consumer_ids k = elim k.consumer_id [ none ↦ [] | some latest ↦ ids_from 0 latest ]

unfoldable pub active_ids : Keeper → List ℕ → List ℕ
active_ids k [] = []
active_ids k (i ∷ is) = if is_consumer_active k i then i ∷ active_ids k is else active_ids k is

-- GetAllActiveConsumerIds.
unfoldable pub get_all_active_consumer_ids : Keeper → List ℕ
get_all_active_consumer_ids k = active_ids k (get_all_consumer_ids k)
