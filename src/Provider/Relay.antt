-- ===== src/Provider/Relay.antt =====
-- The hand-over of validator sets to the consumers (x/vaas/provider/keeper/relay.go, with
-- ComputeConsumerNextValSet of validator_set_update.go). `none` is an error, which fails the block.
-- A stored validator set is kept in the order of its assembly, in the source by provider address,
-- which x/staking gives to one validator only.
pub mod Queueing
pub mod Ids
pub mod Loop
pub mod Sending
pub mod Sent
mod Tests
use vaas.Base.{
  ℕ, zero, suc, length, ◌+◌, ◌-◌, ◌%◌, Bool, true, false, not, ◌||◌, Option, none, some, List, [],
  ◌∷◌, ◌++◌, ltb, ◌==◌, if◌then◌else◌, is_some, value_or, nat_eq, pair_eq, ◌>>=◌, take,
}
use vaas.Base.Store.{Store, get, set, remove}
use vaas.Evidence.{DowntimeParams}
use vaas.Evidence.Decimal.{Decimals}
use vaas.Packet.{ValidatorSetChangePacketData, to_wire}
use vaas.ValidatorSet.{ConsensusValidator, ValidatorUpdate, diff_validators, full_val_set_updates}
use vaas.Provider.State.{Keeper, launched, phase_eq, get_consumer_phase}
use vaas.Provider.Fees.{get_all_consumer_ids, is_consumer_in_debt}
use vaas.Provider.Assembly.{
  StakingValidator, create_consumer_validators, create_provider_consensus_validator,
}

unfoldable pub launched_ids : Keeper → List ℕ → List ℕ
launched_ids k [] = []
launched_ids k (i ∷ is) =
    if phase_eq (get_consumer_phase k i) launched then i ∷ launched_ids k is else launched_ids k is

-- GetAllLaunchedConsumerIds.
unfoldable pub get_all_launched_consumer_ids : Keeper → List ℕ
get_all_launched_consumer_ids k = launched_ids k (get_all_consumer_ids k)

abbrev pub is_empty : {A : Type 0} → List A → Bool
is_empty [] = true
is_empty (x ∷ xs) = false

-- BlocksUntilNextEpoch.
unfoldable pub blocks_until_next_epoch : Keeper → ℕ → ℕ
blocks_until_next_epoch k height =
    let since = height % k.params.blocks_per_epoch in
    if since == 0 then 0 else k.params.blocks_per_epoch - since

-- The consumer of a client (GetClientIdToConsumerId).
unfoldable pub consumer_of_client : ℕ → Store ℕ ℕ → Option ℕ
consumer_of_client client [] = none
consumer_of_client client (x ∷ m) = if x.1 == client then some x.0 else consumer_of_client client m

-- GetLastBondedValidators, of the maximal number of validators and the bonded ones by power.
unfoldable pub get_last_bonded_validators :
    Option ℕ → Option (List StakingValidator) → Option (List StakingValidator)
get_last_bonded_validators max_validators bonded_by_power = do
  max_vals ← max_validators
  bonded ← bonded_by_power
  some (if ltb (length bonded) max_vals then bonded else take max_vals bonded)

unfoldable pub create_each : List StakingValidator → Option (List ConsensusValidator)
create_each [] = some []
create_each (v ∷ vs) = do
  next ← create_provider_consensus_validator v
  rest ← create_each vs
  some (next ∷ rest)

module _ (dec : Decimals) where
  -- What the relay stores. The clients are by consumer; the keys by consumer and provider address.
  pub record State : Type 0 where
    pub keeper : Keeper
    pub downtime_params : DowntimeParams dec
    pub validator_consumer_pub_key : Store (ℕ × ℕ) ℕ
    pub consumer_val_sets : Store ℕ (List ConsensusValidator)
    pub last_provider_consensus_vals : List ConsensusValidator
    pub validator_set_update_id : ℕ
    pub pending_vsc_packets : Store ℕ (List (ValidatorSetChangePacketData dec))
    pub consumer_highest_sent_vsc_id : Store ℕ ℕ
    pub consumer_highest_acked_vsc_id : Store ℕ ℕ
    pub consumer_last_ack_time : Store ℕ ℕ
    pub consumer_clients : Store ℕ ℕ

  -- GetConsumerValSet, GetPendingVSCPackets, GetConsumerHighestSentVscId and
  -- GetConsumerHighestAckedVscId.
  unfoldable pub get_consumer_val_set : State → ℕ → List ConsensusValidator
  get_consumer_val_set s consumer = value_or [] (get consumer s.consumer_val_sets)

  unfoldable pub get_pending_vsc_packets : State → ℕ → List (ValidatorSetChangePacketData dec)
  get_pending_vsc_packets s consumer = value_or [] (get consumer s.pending_vsc_packets)

  unfoldable pub get_highest_sent : State → ℕ → ℕ
  get_highest_sent s consumer = value_or 0 (get consumer s.consumer_highest_sent_vsc_id)

  unfoldable pub get_highest_acked : State → ℕ → ℕ
  get_highest_acked s consumer = value_or 0 (get consumer s.consumer_highest_acked_vsc_id)

  -- OnAcknowledgementPacketV2; `failed` is a non-empty error.
  unfoldable pub on_acknowledgement_packet_v2 : State → ℕ → ℕ → ℕ → Bool → State
  on_acknowledgement_packet_v2 s now client ack_vsc_id failed =
      elim (consumer_of_client client s.consumer_clients) [
        | none ↦ s
        | some consumer ↦
            if failed
            then s
            else let s₁ = record s {
              consumer_last_ack_time = set consumer now s.consumer_last_ack_time;
            } in
              if ltb (get_highest_acked s consumer) ack_vsc_id
              then record s₁ {
                consumer_highest_acked_vsc_id =
                    set consumer ack_vsc_id s.consumer_highest_acked_vsc_id;
              }
              else s₁
      ]

  -- OnTimeoutPacketV2.
  unfoldable pub on_timeout_packet_v2 : State → ℕ → State
  on_timeout_packet_v2 s client = s

  -- buildVSCPacket.
  unfoldable pub build_vsc_packet :
      State → ℕ → List ValidatorUpdate → ℕ → Bool → ValidatorSetChangePacketData dec
  build_vsc_packet s consumer updates id is_snapshot = record {
    validator_updates = to_wire updates;
    valset_update_id = id;
    consumer_in_debt = is_consumer_in_debt s.keeper consumer;
    is_snapshot = is_snapshot;
    downtime_params = some s.downtime_params;
  }

  -- AppendPendingVSCPackets for one packet.
  unfoldable pub append_pending_vsc_packet : State → ℕ → ValidatorSetChangePacketData dec → State
  append_pending_vsc_packet s consumer p = record s {
    pending_vsc_packets =
        set consumer (get_pending_vsc_packets s consumer ++ (p ∷ [])) s.pending_vsc_packets;
  }

  -- IncrementValidatorSetUpdateId.
  unfoldable pub increment_validator_set_update_id : State → State
  increment_validator_set_update_id s = record s {
    validator_set_update_id = s.validator_set_update_id + 1;
  }

  module _ (cons_addr_of : ℕ → Option ℕ) where
    -- ComputeConsumerNextValSet.
    unfoldable pub compute_consumer_next_val_set :
        State
        → ℕ
        → List StakingValidator
        → ℕ
        → List ConsensusValidator
        → Bool
        → Option (State × List ValidatorUpdate)
    compute_consumer_next_val_set s height bonded consumer current is_snapshot = do
      next ←
          create_consumer_validators cons_addr_of s.validator_consumer_pub_key
            (get_consumer_val_set s consumer) height consumer bonded
      let s₁ = record s { consumer_val_sets = set consumer next s.consumer_val_sets }
      some (s₁, if is_snapshot then full_val_set_updates next else diff_validators current next)

    -- Whether QueueVSCPackets sends a consumer a snapshot.
    unfoldable pub needs_snapshot : State → ℕ → Bool
    needs_snapshot s consumer =
        is_empty (get_consumer_val_set s consumer)
        || (ltb (get_highest_acked s consumer) (get_highest_sent s consumer)
            || not (is_empty (get_pending_vsc_packets s consumer)))

    -- The packet that is queued for one consumer, a snapshot or not.
    unfoldable pub queue_vsc_packet : State → ℕ → List StakingValidator → Bool → ℕ → Option State
    queue_vsc_packet s height bonded is_snapshot consumer = do
      (s₁, updates) ←
          compute_consumer_next_val_set s height bonded consumer (get_consumer_val_set s consumer)
            is_snapshot
      let p = build_vsc_packet s₁ consumer updates s.validator_set_update_id is_snapshot
      some (append_pending_vsc_packet s₁ consumer p)

    -- The loop of QueueVSCPackets.
    unfoldable pub queue_each : State → ℕ → List StakingValidator → List ℕ → Option State
    queue_each s height bonded [] = some s
    queue_each s height bonded (i ∷ is) = do
      s₁ ← queue_vsc_packet s height bonded (needs_snapshot s i) i
      queue_each s₁ height bonded is

    -- QueueVSCPackets, with the last bonded validators.
    unfoldable pub queue_vsc_packets : State → ℕ → Option (List StakingValidator) → Option State
    queue_vsc_packets s height last_bonded = do
      bonded ← last_bonded
      s₁ ← queue_each s height bonded (get_all_launched_consumer_ids s.keeper)
      some (increment_validator_set_update_id s₁)

    -- QueueImmediateSnapshotVSCPacket.
    unfoldable pub queue_immediate_snapshot_vsc_packet :
        State → ℕ → Option (List StakingValidator) → ℕ → Option State
    queue_immediate_snapshot_vsc_packet s height last_bonded consumer = do
      bonded ← last_bonded
      s₁ ← queue_vsc_packet s height bonded true consumer
      some (increment_validator_set_update_id s₁)
