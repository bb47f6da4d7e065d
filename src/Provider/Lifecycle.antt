-- ===== src/Provider/Lifecycle.antt =====
-- The life of a consumer on the provider (x/vaas/provider/keeper/consumer_lifecycle.go, with the
-- lookups of keeper.go and permissionless.go): pause, resumption and stop. A time is nanoseconds from
-- Go's zero time, a client id 0 is the empty one, and `none` is an error, whose state is discarded.
-- Logs and events are left out.
pub mod Launch
pub mod Removal
pub mod BeginBlock
pub mod Shared
pub mod Scheduled
pub mod Launches
pub mod Removals
pub mod Blocks
pub mod Expiry
pub mod Resync
pub mod Resume
pub mod Tests
use vaas.Base.{
  ℕ, ◌+◌, Bool, true, false, not, ◌&&◌, Option, none, some, List, ltb, ◌==◌, if◌then◌else◌,
  value_or, nat_eq, pair_eq, ◌>>=◌,
}
use vaas.Base.Store.{Store, get, set, remove, clear}
use vaas.Evidence.Decimal.{Decimals}
use vaas.Evidence.{DowntimeParams}
use vaas.Packet.{ValidatorSetChangePacketData}
use vaas.ValidatorSet.{ValidatorUpdate}
use vaas.Provider.State.{Keeper, Phase, launched, paused, stopped, phase_eq, get_consumer_phase}
use vaas.Provider.Bank.{Bank}
use vaas.Provider.Fees.{Staking}
use vaas.Provider.Fees.Run.{pay_withheld_fees}
use vaas.Provider.Downtime.{WindowKey, PendingDowntimeSlash, AcceptedDowntimeWindow}
use vaas.Provider.Assembly.{StakingValidator}
use vaas.Provider.TimeQueue.{Queue, get_ids, append_id, is_in, remove_consumer_from_time_queue}
use vaas.Provider.Relay
use vaas.Provider.Relay.{queue_immediate_snapshot_vsc_packet}
use vaas.Provider.Relay.Sending.{send_vsc_packets_to_chain_strict}

pub data PauseReason : Type 0 where
  unspecified_reason downtime_challenge light_client_attack : PauseReason

abbrev pub is_unspecified : PauseReason → Bool
is_unspecified unspecified_reason = true
is_unspecified _ = false

abbrev pub is_attack : PauseReason → Bool
is_attack light_client_attack = true
is_attack _ = false

pub record Height : Type 0 where
  pub revision_number : ℕ
  pub revision_height : ℕ

-- The hashes of a consumer's binary and genesis are only stored.
pub record InitializationParameters : Type 0 where
  pub initial_height : Height
  pub spawn_time : ℕ
  pub unbonding_period : ℕ
  pub vaas_timeout_period : ℕ
  pub historical_entries : ℕ
  pub safe_mode_threshold : ℕ

pub data ClientStatus : Type 0 where
  active frozen expired : ClientStatus

abbrev pub is_active : ClientStatus → Bool
is_active active = true
is_active _ = false

abbrev pub is_frozen : ClientStatus → Bool
is_frozen frozen = true
is_frozen _ = false

pub record TendermintClient : Type 0 where
  pub chain_id : ℕ
  pub trusting_period : ℕ
  pub max_clock_drift : ℕ

-- What the lifecycle uses of x/staking, the IBC clients and CometBFT. An error is `none`.
pub record Chain (dec : Decimals) : Type 0 where
  pub now : ℕ
  pub height : Height
  pub unbonding_time : Option ℕ
  pub max_pause_duration : ℕ
  -- The fractions of the parameters, parsed.
  pub trusting_period_fraction : Option dec.LegacyDec
  pub liveness_grace_fraction : Option dec.LegacyDec
  pub staking : Staking
  pub last_bonded : Option (List StakingValidator)
  pub client_status : ℕ → ClientStatus
  -- GetClientState, `none` also for a client of another kind.
  pub client_state : ℕ → Option TendermintClient
  -- The client id of GetClientCounterparty, 0 where there is none.
  pub counterparty : ℕ → ℕ
  -- ParseChainID, of the provider's own chain id and of a consumer's.
  pub own_revision : ℕ
  pub revision_of : ℕ → ℕ
  -- GetHistoricalInfo: the consensus state at a height.
  pub historical_info : ℕ → Option ℕ
  pub cons_addr_of : ℕ → Option ℕ

module _ (dec : Decimals) where
  pub record ConsumerParams : Type 0 where
    pub vaas_timeout_period : ℕ
    pub historical_entries : ℕ
    pub unbonding_period : ℕ
    pub safe_mode_threshold : ℕ
    pub downtime_params : DowntimeParams dec
    pub owner_address : Option ℕ

  -- The genesis of a consumer, with what the lifecycle sets of the client's template.
  pub record ConsumerGenesis : Type 0 where
    pub latest_height : Height
    pub trusting_period : ℕ
    pub unbonding_period : ℕ
    pub consensus_state : ℕ
    pub initial_val_set : List ValidatorUpdate
    pub params : ConsumerParams

  module _ (bank : Bank) where
    -- What the lifecycle stores, by consumer where nothing else is said, beside what the relay does.
    pub record State : Type 0 where
      pub relay : Relay.State dec
      pub ledger : bank.Ledger
      pub chain_ids : Store ℕ ℕ
      pub owners : Store ℕ ℕ
      pub initialization_parameters : Store ℕ InitializationParameters
      pub consumer_genesis : Store ℕ ConsumerGenesis
      pub equivocation_evidence_min_height : Store ℕ ℕ
      pub init_chain_heights : Store ℕ ℕ
      pub spawn_time_queue : Queue
      pub removal_time_queue : Queue
      pub pause_expiration_queue : Queue
      pub removal_times : Store ℕ ℕ
      pub pause_expiration_times : Store ℕ ℕ
      pub pause_reasons : Store ℕ PauseReason
      pub paused_at : Store ℕ ℕ
      pub pending_downtime_slashes : Store WindowKey PendingDowntimeSlash
      pub accepted_downtime_windows : Store WindowKey AcceptedDowntimeWindow
      pub downtime_window_floors : Store (ℕ × ℕ) ℕ
      pub validator_by_consumer_addr : Store (ℕ × ℕ) ℕ
      pub consumer_addrs_to_prune : Store (ℕ × ℕ) (List ℕ)
      -- By the pool's address.
      pub fee_pool_address_to_consumer_id : Store ℕ ℕ

    unfoldable pub phase_of : State → ℕ → Phase
    phase_of s i = get_consumer_phase s.relay.keeper i

    unfoldable pub with_keeper : Keeper → State → State
    with_keeper k s = record s { relay = record s.relay { keeper = k } }

    -- SetConsumerPhase.
    unfoldable pub set_consumer_phase : State → ℕ → Phase → State
    set_consumer_phase s i phase =
        let k = s.relay.keeper in with_keeper (record k { phases = set i phase k.phases }) s

    -- CancelConsumerDowntimeState.
    unfoldable pub cancel_consumer_downtime_state : State → ℕ → State
    cancel_consumer_downtime_state s i =
        let k = s.relay.keeper in
        record (with_keeper
          (record k { epoch_downtime = clear (λ key. key.0 == i) k.epoch_downtime }) s) {
            pending_downtime_slashes = clear (λ key. key.0 == i) s.pending_downtime_slashes;
          }

    -- The bucket of CancelConsumerPauseExpiration without the consumer, if it is there.
    unfoldable pub cancel_in_bucket : Queue → ℕ → ℕ → Option Queue
    cancel_in_bucket q i ts =
        if is_in i (get_ids q ts) then remove_consumer_from_time_queue q i ts else some q

    -- CancelConsumerPauseExpiration.
    unfoldable pub cancel_consumer_pause_expiration : State → ℕ → Option State
    cancel_consumer_pause_expiration s i = elim (get i s.pause_expiration_times) [
      | none ↦ some s
      | some ts ↦ do
        q ← cancel_in_bucket s.pause_expiration_queue i ts
        some (record s {
          pause_expiration_queue = q;
          pause_expiration_times = remove i s.pause_expiration_times;
        })
    ]

    -- DeleteConsumerPauseReason and DeleteConsumerPausedAt.
    unfoldable pub forget_pause : State → ℕ → State
    forget_pause s i = record s {
      pause_reasons = remove i s.pause_reasons;
      paused_at = remove i s.paused_at;
    }

    -- The end of StopAndPrepareForConsumerRemoval.
    unfoldable pub schedule_removal : State → ℕ → ℕ → State
    schedule_removal s i removal_time = record s {
      removal_times = set i removal_time s.removal_times;
      removal_time_queue = append_id s.removal_time_queue i removal_time;
    }

    -- StopAndPrepareForConsumerRemoval.
    unfoldable pub stop_and_prepare_for_consumer_removal : Chain dec → State → ℕ → Option State
    stop_and_prepare_for_consumer_removal chain s i = do
      s₁ ←
          cancel_consumer_pause_expiration
            (cancel_consumer_downtime_state (set_consumer_phase s i stopped) i) i
      period ← chain.unbonding_time
      some (schedule_removal (forget_pause s₁ i) i (chain.now + period))

    -- What PauseConsumerChain writes before it schedules the stop.
    unfoldable pub pause_now : Chain dec → State → ℕ → PauseReason → State
    pause_now chain s i reason =
        let (k, l) = pay_withheld_fees bank s.relay.keeper s.ledger chain.staking chain.now i in
        let s₁ = set_consumer_phase (record (with_keeper k s) { ledger = l }) i paused in
        cancel_consumer_downtime_state
          (record s₁ {
            pause_reasons = set i reason s.pause_reasons;
            paused_at = set i chain.now s.paused_at;
          })
          i

    unfoldable pub schedule_auto_stop : State → ℕ → ℕ → State
    schedule_auto_stop s i auto_stop_time = record s {
      pause_expiration_times = set i auto_stop_time s.pause_expiration_times;
      pause_expiration_queue = append_id s.pause_expiration_queue i auto_stop_time;
    }

    -- PauseConsumerChain.
    unfoldable pub pause_consumer_chain : Chain dec → State → ℕ → PauseReason → Option State
    pause_consumer_chain chain s i reason =
        if is_unspecified reason
        then none
        else if not (phase_eq (phase_of s i) launched)
        then none
        else some (
            schedule_auto_stop (pause_now chain s i reason) i
              (chain.now + chain.max_pause_duration))

    -- forkEvidenceExpired: whether it returns no error.
    unfoldable pub fork_evidence_expired : Chain dec → State → ℕ → ℕ → Bool
    fork_evidence_expired chain s i client = elim (get i s.paused_at) [
      | none ↦ false
      | some at ↦ elim (chain.client_state client) [
        | none ↦ false
        | some c ↦ not (ltb chain.now (at + (c.trusting_period + c.max_clock_drift)))
      ]
    ]

    -- The end of ResumeConsumerChain, with the packets that were sent.
    unfoldable pub resync :
        (ValidatorSetChangePacketData dec → Bool)
        → Chain dec
        → State
        → ℕ
        → Option (State × List (ValidatorSetChangePacketData dec))
    resync sends chain s i = do
      queued ←
          queue_immediate_snapshot_vsc_packet dec chain.cons_addr_of s.relay
            chain.height.revision_height chain.last_bonded i
      let (relay, sent, done) = send_vsc_packets_to_chain_strict dec sends queued i
      if done then some (record s { relay = relay }, sent) else none

    -- ResumeConsumerChain.
    unfoldable pub resume_consumer_chain :
        (ℕ → ValidatorSetChangePacketData dec → Bool)
        → Chain dec
        → State
        → ℕ
        → Option (State × List (ValidatorSetChangePacketData dec))
    resume_consumer_chain sends chain s i =
        if not (phase_eq (phase_of s i) paused)
        then none
        else elim (get i s.relay.consumer_clients) [
          | none ↦ none
          | some client ↦
              if not (is_active (chain.client_status client))
              then none
              else if is_attack (value_or unspecified_reason (get i s.pause_reasons))
                  && not (fork_evidence_expired chain s i client)
              then none
              else do
                s₁ ← cancel_consumer_pause_expiration (forget_pause s i) i
                let s₂ = set_consumer_phase s₁ i launched
                let acked = set i chain.now s₂.relay.consumer_last_ack_time
                resync (sends client) chain
                    (record s₂ { relay = record s₂.relay { consumer_last_ack_time = acked } }) i
        ]
