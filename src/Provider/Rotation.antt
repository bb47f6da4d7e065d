-- ===== src/Provider/Rotation.antt =====
-- What a rotation of a validator's provider consensus key moves
-- (x/vaas/provider/keeper/cons_pubkey_rotation.go, with the hook of hooks.go and the consumers of
-- key_assignment.go), from the old address to the new one. The punished equivocations are by chain id,
-- address and height. A withheld fee record carries no address of its own here. Reads that fail, and
-- logs, are left out.
pub mod Moves
pub mod Keys
pub mod Accusations
mod Tests
use vaas.Base.{
  ℕ, Bool, true, false, ◌&&◌, ◌||◌, Option, none, some, List, [], ◌∷◌, ◌++◌, ltb, ◌==◌,
  if◌then◌else◌, value_or, is_some, nat_eq, pair_eq,
}
use vaas.Base.Store.{Store, get, set, remove, select}
use vaas.Evidence.Decimal.{Decimals}
use vaas.ValidatorSet.{ConsensusValidator}
use vaas.Packet.{ValidatorSetChangePacketData}
use vaas.Provider.State.{Keeper, Phase, unspecified, deleted, WithheldFeeRecord, get_consumer_phase}
use vaas.Provider.Bank.{Bank}
use vaas.Provider.Fees.{get_all_consumer_ids}
use vaas.Provider.Downtime.{WindowKey, PendingDowntimeSlash}
use vaas.Provider.Assembly.{StakingValidator, get_consumer_validator}
use vaas.Provider.Relay.Sending.{queue_cons_pub_key_rotation_snapshots}
use vaas.Provider.Lifecycle.{State, with_keeper}

abbrev pub is_live : Phase → Bool
is_live unspecified = false
is_live deleted = false
is_live _ = true

unfoldable pub live_ids : Keeper → List ℕ → List ℕ
live_ids k [] = []
live_ids k (i ∷ is) = if is_live (get_consumer_phase k i) then i ∷ live_ids k is else live_ids k is

-- nonDeletedConsumerIds.
unfoldable pub non_deleted_consumer_ids : Keeper → List ℕ
non_deleted_consumer_ids k = live_ids k (get_all_consumer_ids k)

unfoldable pub is_assigned_by_any : Store (ℕ × ℕ) ℕ → ℕ → List ℕ → Bool
is_assigned_by_any assigned addr [] = false
is_assigned_by_any assigned addr (i ∷ is) =
    is_some (get (i, addr) assigned) || is_assigned_by_any assigned addr is

-- collectPerWindowEntries.
unfoldable pub collect_per_window_entries {ℓ} :
    {V : Type ℓ} → Store WindowKey V → ℕ → ℕ → Store WindowKey V
collect_per_window_entries m consumer addr = select (λ x. x.0.0 == consumer && x.0.1.0 == addr) m

-- The entries that have been collected are written under the new address, and deleted.
unfoldable pub move_each {ℓ} :
    {V : Type ℓ} → (V → V) → ℕ → Store WindowKey V → Store WindowKey V → Store WindowKey V
move_each f new [] m = m
move_each f new (x ∷ xs) m = move_each f new xs (remove x.0 (set (x.0.0, (new, x.0.1.1)) (f x.1) m))

abbrev pub with_addr : ℕ → PendingDowntimeSlash → PendingDowntimeSlash
with_addr addr slash = record slash { provider_cons_addr = addr }

-- migrateDowntimeWindowFloor.
unfoldable pub migrate_downtime_window_floor : Store (ℕ × ℕ) ℕ → ℕ → ℕ → ℕ → Store (ℕ × ℕ) ℕ
migrate_downtime_window_floor floors consumer old new = elim (get (consumer, old) floors) [
  | none ↦ floors
  | some floor ↦
      let existing = value_or floor (get (consumer, new) floors) in
      remove (consumer, old)
        (set (consumer, new) (if ltb floor existing then existing else floor) floors)
]

-- The loop of migrateKeyAssignment over a consumer's reverse mappings.
unfoldable pub repoint_each : ℕ → ℕ → Store (ℕ × ℕ) ℕ → Store (ℕ × ℕ) ℕ → Store (ℕ × ℕ) ℕ
repoint_each old new [] m = m
repoint_each old new (x ∷ xs) m = repoint_each old new xs (if x.1 == old then set x.0 new m else m)

-- DeleteConsumerValidator and SetConsumerValidator, on a consumer's set.
unfoldable pub delete_consumer_validator : List ConsensusValidator → ℕ → List ConsensusValidator
delete_consumer_validator [] addr = []
delete_consumer_validator (v ∷ vs) addr =
    if v.provider_cons_addr == addr
    then delete_consumer_validator vs addr
    else v ∷ delete_consumer_validator vs addr

unfoldable pub set_consumer_validator :
    List ConsensusValidator → ConsensusValidator → List ConsensusValidator
set_consumer_validator vs v = delete_consumer_validator vs v.provider_cons_addr ++ (v ∷ [])

-- migrateConsumerValidator, on a consumer's set.
unfoldable pub migrate_consumer_validator :
    List ConsensusValidator → ℕ → ℕ → List ConsensusValidator
migrate_consumer_validator vs old new = elim (get_consumer_validator old vs) [
  | none ↦ vs
  | some v ↦
      set_consumer_validator (delete_consumer_validator vs old)
        (record v { provider_cons_addr = new })
]

-- The mark of migrateFeeExclusion.
unfoldable pub migrate_epoch_downtime : Store (ℕ × ℕ) Bool → ℕ → ℕ → ℕ → Store (ℕ × ℕ) Bool
migrate_epoch_downtime m consumer old new =
    if is_some (get (consumer, old) m)
    then remove (consumer, old) (set (consumer, new) true m)
    else m

-- The record of migrateFeeExclusion.
unfoldable pub migrate_withheld_fee_record :
    Store (ℕ × ℕ) WithheldFeeRecord → ℕ → ℕ → ℕ → Store (ℕ × ℕ) WithheldFeeRecord
migrate_withheld_fee_record m consumer old new = elim (get (consumer, old) m) [
  | none ↦ m
  | some fee ↦
      if is_some (get (consumer, new) m)
      then m
      else remove (consumer, old) (set (consumer, new) fee m)
]

module _ (dec : Decimals) (bank : Bank) where
  -- IsConsumerConsAddrInUse.
  unfoldable pub is_consumer_cons_addr_in_use : State dec bank → ℕ → Bool
  is_consumer_cons_addr_in_use s addr =
      is_assigned_by_any s.validator_by_consumer_addr addr (non_deleted_consumer_ids s.relay.keeper)

  -- What migrateKeyAssignment writes for an assigned key.
  unfoldable pub move_key : State dec bank → ℕ → ℕ → ℕ → ℕ → State dec bank
  move_key s consumer old new key =
      let assigned = s.validator_by_consumer_addr in
      record s {
        relay = record s.relay {
          validator_consumer_pub_key =
              set (consumer, new) key (remove (consumer, old) s.relay.validator_consumer_pub_key);
        };
        validator_by_consumer_addr =
            repoint_each old new (select (λ x. x.0.0 == consumer) assigned) assigned;
      }

  -- migrateKeyAssignment.
  unfoldable pub migrate_key_assignment : State dec bank → ℕ → ℕ → ℕ → State dec bank × Bool
  migrate_key_assignment s consumer old new =
      elim (get (consumer, old) s.relay.validator_consumer_pub_key) [
        | none ↦ (s, false)
        | some key ↦ (move_key s consumer old new key, true)
      ]

  -- migrateConsumerValidator.
  unfoldable pub migrate_stored_validator : State dec bank → ℕ → ℕ → ℕ → State dec bank
  migrate_stored_validator s consumer old new =
      let sets = s.relay.consumer_val_sets in
      record s {
        relay = record s.relay {
          consumer_val_sets = elim (get consumer sets) [
            | none ↦ sets
            | some vs ↦ set consumer (migrate_consumer_validator vs old new) sets
          ];
        };
      }

  -- migrateDowntimeAcceptance.
  unfoldable pub migrate_downtime_acceptance : State dec bank → ℕ → ℕ → ℕ → State dec bank
  migrate_downtime_acceptance s consumer old new = record s {
    pending_downtime_slashes =
        move_each (with_addr new) new
          (collect_per_window_entries s.pending_downtime_slashes consumer old)
          s.pending_downtime_slashes;
    accepted_downtime_windows =
        move_each (λ w. w) new (collect_per_window_entries s.accepted_downtime_windows consumer old)
          s.accepted_downtime_windows;
    downtime_window_floors =
        migrate_downtime_window_floor s.downtime_window_floors consumer old new;
  }

  -- migrateFeeExclusion.
  unfoldable pub migrate_fee_exclusion : State dec bank → ℕ → ℕ → ℕ → State dec bank
  migrate_fee_exclusion s consumer old new =
      let k = s.relay.keeper in
      with_keeper dec bank
        (record k {
          epoch_downtime = migrate_epoch_downtime k.epoch_downtime consumer old new;
          withheld_fee_records =
              migrate_withheld_fee_record k.withheld_fee_records consumer old new;
        })
        s

  -- migratePunishedEquivocations.
  unfoldable pub migrate_punished_equivocations :
      State dec bank → Store WindowKey Bool → ℕ → ℕ → ℕ → Store WindowKey Bool
  migrate_punished_equivocations s punished consumer old new = elim (get consumer s.chain_ids) [
    | none ↦ punished
    | some chain_id ↦
        move_each (λ u. u) new (collect_per_window_entries punished chain_id old) punished
  ]

  -- The body of MigrateStateOnConsPubKeyRotation, of which the equivocations are apart.
  unfoldable pub migrate_consumer : State dec bank → ℕ → ℕ → ℕ → State dec bank
  migrate_consumer s consumer old new =
      let (s₁, assigned) = migrate_key_assignment s consumer old new in
      let s₂ =
        if assigned
        then migrate_downtime_acceptance (migrate_stored_validator s₁ consumer old new) consumer old
            new
        else s₁ in
      migrate_fee_exclusion s₂ consumer old new

  unfoldable pub migrate_each :
      ℕ → ℕ → List ℕ → State dec bank → Store WindowKey Bool → State dec bank × Store WindowKey Bool
  migrate_each old new [] s punished = (s, punished)
  migrate_each old new (i ∷ is) s punished =
      migrate_each old new is (migrate_consumer s i old new)
        (migrate_punished_equivocations s punished i old new)

  -- MigrateStateOnConsPubKeyRotation.
  unfoldable pub migrate_state_on_cons_pub_key_rotation :
      State dec bank → Store WindowKey Bool → ℕ → ℕ → State dec bank × Store WindowKey Bool
  migrate_state_on_cons_pub_key_rotation s punished old new =
      migrate_each old new (non_deleted_consumer_ids s.relay.keeper) s punished

  -- AfterConsensusPubKeyUpdate, with the packets that were sent and their clients.
  unfoldable pub after_consensus_pub_key_update :
      (ℕ → Option ℕ)
      → (ℕ → ValidatorSetChangePacketData dec → Bool)
      → State dec bank
      → Store WindowKey Bool
      → ℕ
      → Option (List StakingValidator)
      → ℕ
      → ℕ
      → State dec bank × (Store WindowKey Bool × List (ℕ × ValidatorSetChangePacketData dec))
  after_consensus_pub_key_update cons_addr_of sends s punished height last_bonded old new =
      let (s₁, punished') = migrate_state_on_cons_pub_key_rotation s punished old new in
      let (relay, sent) =
        queue_cons_pub_key_rotation_snapshots dec cons_addr_of sends s₁.relay height last_bonded
          new in
      (record s₁ { relay = relay }, (punished', sent))
