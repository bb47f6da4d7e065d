-- ===== src/Consumer/Relay.antt =====
-- The receipt of validator-set packets (x/vaas/consumer/keeper/relay.go), the flush of the pending
-- changes at the end of a block (EndBlock of x/vaas/consumer/module.go) and the staleness clock
-- (x/vaas/consumer/keeper/keeper.go). A refused packet leaves no state: its writes are discarded.
-- Events and logs are left out.
pub mod Effect
pub mod Liveness
pub mod Tests
use vaas.Base.{
  ℕ, ◌+◌, Bool, true, false, not, ◌&&◌, ◌||◌, Option, none, some, List, [], ◌∷◌, ltb, leb, ◌==◌,
  if◌then◌else◌, is_some, nat_eq, ◌-◌,
}
use vaas.Base.Store.{Store}
use vaas.Evidence.Decimal.{Decimals}
use vaas.Packet.{ValidatorSetChangePacketData, of_wire, validate}
use vaas.ValidatorSet.{
  ValidatorUpdate, accumulate_changes, compute_replace_updates, apply_vaas_validator_changes,
}
use vaas.Consumer.State.{Keeper}
use vaas.Consumer.Downtime.{stage_downtime_params}

-- Why a packet is answered by an error acknowledgement.
pub data Refusal : Type 0 where
  invalid_packet invalid_provider_client empty_validator_set : Refusal

-- What IBC knows of a client: nothing, a client of another kind, or a tendermint client with the
-- chain id that it tracks.
pub data ClientState : Type 0 where
  no_client other_client : ClientState
  tendermint : ℕ → ClientState

-- hasPositivePower.
unfoldable pub has_positive_power : List ValidatorUpdate → Bool
has_positive_power [] = false
has_positive_power (u ∷ us) = ltb 0 u.power || has_positive_power us

-- MustGetCurrentValidatorsAsABCIUpdates.
unfoldable pub current_validators_as_updates : Store ℕ ℕ → List ValidatorUpdate
current_validators_as_updates [] = []
current_validators_as_updates (v ∷ vs) =
    record { pub_key = v.0; power = v.1 } ∷ current_validators_as_updates vs

module _ (dec : Decimals) where
  -- What the relay stores, beside the state of downtime detection.
  pub record State : Type 0 where
    pub keeper : Keeper dec
    pub provider_client_id : Option ℕ
    pub provider_chain_id : Option ℕ
    pub highest_valset_update_id : Option ℕ
    pub pending_changes : Option (List ValidatorUpdate)
    pub vaas_validators : Store ℕ ℕ
    pub last_vsc_recv_time : Option ℕ
    pub consumer_in_debt : Bool
    pub init_genesis_height : ℕ
    pub safe_mode_threshold : ℕ

  pub data Outcome : Type 0 where
    handled : State → Outcome
    refused : Refusal → Outcome

  -- authenticateProviderChainID.
  unfoldable pub authenticate_provider_chain_id : State → ClientState → Outcome
  authenticate_provider_chain_id s no_client = refused invalid_provider_client
  authenticate_provider_chain_id s other_client = refused invalid_provider_client
  authenticate_provider_chain_id s (tendermint chain_id) = elim s.provider_chain_id [
    | none ↦ handled (record s { provider_chain_id = some chain_id })
    | some pinned ↦ if not (pinned == chain_id) then refused invalid_provider_client else handled s
  ]

  -- enforcePinnedProviderClient: 0 is the empty client id.
  unfoldable pub enforce_pinned_provider_client : State → ℕ → Bool
  enforce_pinned_provider_client s client = elim s.provider_client_id [
    | none ↦ false
    | some pinned ↦ if pinned == 0 then false else pinned == client
  ]

  -- wouldEmptyValidatorSet.
  unfoldable pub would_empty_validator_set : State → ValidatorSetChangePacketData dec → Bool
  would_empty_validator_set s p =
      let updates = of_wire p.validator_updates in
      if p.is_snapshot
      then not (has_positive_power updates)
      else let current = current_validators_as_updates s.vaas_validators in
        let resulting : List ValidatorUpdate = elim s.pending_changes [
          | none ↦ current
          | some pending ↦ accumulate_changes current pending
        ] in
        not (has_positive_power (accumulate_changes resulting updates))

  -- The pending changes that OnRecvVSCPacketV2 leaves.
  unfoldable pub next_pending_changes :
      State → ValidatorSetChangePacketData dec → List ValidatorUpdate
  next_pending_changes s p =
      let updates = of_wire p.validator_updates in
      if p.is_snapshot
      then compute_replace_updates s.vaas_validators updates
      else accumulate_changes (elim s.pending_changes [ none ↦ [] | some us ↦ us ]) updates

  -- OnRecvVSCPacketV2 from the check that the validator set is not emptied on.
  unfoldable pub accept_vsc_packet : State → ℕ → ValidatorSetChangePacketData dec → Outcome
  accept_vsc_packet s now p =
      if would_empty_validator_set s p
      then refused empty_validator_set
      else handled (record s {
        keeper = elim p.downtime_params [
          | none ↦ s.keeper
          | some params ↦ stage_downtime_params dec s.keeper params
        ];
        last_vsc_recv_time = some now;
        consumer_in_debt = p.consumer_in_debt;
        pending_changes = some (next_pending_changes s p);
        highest_valset_update_id = some p.valset_update_id;
      })

  -- Whether a packet's update id is not above the highest one that was processed.
  unfoldable pub is_out_of_order : State → ValidatorSetChangePacketData dec → Bool
  is_out_of_order s p = elim s.highest_valset_update_id [
    | none ↦ false
    | some highest ↦ leb p.valset_update_id highest
  ]

  -- OnRecvVSCPacketV2.
  unfoldable pub on_recv_vsc_packet_v2 :
      (ℕ → Bool) → (ℕ → ClientState) → State → ℕ → ℕ → ValidatorSetChangePacketData dec → Outcome
  on_recv_vsc_packet_v2 decodes clients s now client p =
      if not (validate dec decodes p)
      then refused invalid_packet
      else elim (authenticate_provider_chain_id s (clients client)) [
        | refused why ↦ refused why
        | handled s₁ ↦
            if not (enforce_pinned_provider_client s₁ client)
            then refused invalid_provider_client
            else if is_out_of_order s₁ p
            then handled s₁
            else accept_vsc_packet s₁ now p
      ]

  -- The flush in EndBlock, with the updates for the consensus engine.
  unfoldable pub end_block : State → State × List ValidatorUpdate
  end_block s = elim s.pending_changes [
    | none ↦ (s, [])
    | some changes ↦
        let (validators, updates) = apply_vaas_validator_changes s.vaas_validators changes in
        (record s { vaas_validators = validators; pending_changes = none }, updates)
  ]

  -- ArmVSCStalenessClock.
  unfoldable pub arm_vsc_staleness_clock : State → ℕ → ℕ → State
  arm_vsc_staleness_clock s height now =
      if leb height s.init_genesis_height
      then s
      else if is_some s.last_vsc_recv_time
      then s
      else record s { last_vsc_recv_time = some now }
