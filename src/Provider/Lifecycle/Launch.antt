-- ===== src/Provider/Lifecycle/Launch.antt =====
-- The launch of a consumer (PrepareConsumerForLaunch, InitializeConsumer, LaunchConsumer,
-- MakeConsumerGenesis and BeginBlockLaunchConsumers of
-- x/vaas/provider/keeper/consumer_lifecycle.go).
use vaas.Base.{
  ℕ, false, not, ◌||◌, Option, none, some, List, [], ◌∷◌, ◌==◌, if◌then◌else◌, nat_eq, ◌>>=◌,
}
use vaas.Base.Store.{get, set}
use vaas.Evidence.Decimal.{Decimals}
use vaas.ValidatorSet.{ValidatorUpdate}
use vaas.Provider.State.{registered, initialized, launched, deleted, phase_eq}
use vaas.Provider.Bank.{Bank}
use vaas.Provider.Assembly.{StakingValidator}
use vaas.Provider.Relay.{compute_consumer_next_val_set, is_empty}
use vaas.Provider.TimeQueue.{
  append_id, remove_consumer_from_time_queue, consume_ids_from_time_queue,
}
use vaas.Provider.Lifecycle.{
  State, Chain, Height, InitializationParameters, ConsumerGenesis, phase_of, set_consumer_phase,
}

module _ (dec : Decimals) where
  -- CalculateTrustPeriod (x/vaas/types/shared_params.go), of a parsed fraction.
  unfoldable pub calculate_trust_period : ℕ → Option dec.LegacyDec → Option ℕ
  calculate_trust_period unbonding fraction = do
    trust ← fraction
    some (dec.truncate_int64 (dec.mul_int64 trust unbonding))

  -- getSelfConsensusState.
  unfoldable pub get_self_consensus_state : Chain dec → Height → Option ℕ
  get_self_consensus_state chain height =
      if chain.own_revision == height.revision_number
      then chain.historical_info height.revision_height
      else none

  module _ (bank : Bank) where
    -- PrepareConsumerForLaunch.
    unfoldable pub prepare_consumer_for_launch :
        State dec bank → ℕ → ℕ → ℕ → Option (State dec bank)
    prepare_consumer_for_launch s i previous_spawn_time spawn_time = do
      q ←
          if previous_spawn_time == 0
          then some s.spawn_time_queue
          else remove_consumer_from_time_queue s.spawn_time_queue i previous_spawn_time
      some (record s { spawn_time_queue = append_id q i spawn_time })

    -- InitializeConsumer, with the spawn time where it initializes.
    unfoldable pub initialize_consumer : State dec bank → ℕ → State dec bank × Option ℕ
    initialize_consumer s i =
        let phase = phase_of dec bank s i in
        if not (phase_eq phase registered || phase_eq phase initialized)
        then (s, none)
        else elim (get i s.initialization_parameters) [
          | none ↦ (s, none)
          | some p ↦
              if p.spawn_time == 0
              then (s, none)
              else (set_consumer_phase dec bank s i initialized, some p.spawn_time)
        ]

    -- SetConsumerInitializationParameters, with ValidateInitialHeight of
    -- x/vaas/provider/types/msg.go.
    unfoldable pub set_consumer_initialization_parameters :
        Chain dec → State dec bank → ℕ → InitializationParameters → Option (State dec bank)
    set_consumer_initialization_parameters chain s i p =
        let stored = record s { initialization_parameters = set i p s.initialization_parameters } in
        if phase_eq (phase_of dec bank s i) deleted then some stored else elim (get i s.chain_ids) [
          | none ↦ none
          | some chain_id ↦
              if p.initial_height.revision_number == chain.revision_of chain_id
              then some stored
              else none
        ]

    -- MakeConsumerGenesis.
    unfoldable pub make_consumer_genesis :
        Chain dec → State dec bank → ℕ → List ValidatorUpdate → Option (ConsumerGenesis dec)
    make_consumer_genesis chain s i updates = do
      p ← get i s.initialization_parameters
      unbonding ← chain.unbonding_time
      trusting ← calculate_trust_period unbonding chain.trusting_period_fraction
      consensus ← get_self_consensus_state chain chain.height
      some (record {
        latest_height = chain.height;
        trusting_period = trusting;
        unbonding_period = unbonding;
        consensus_state = consensus;
        initial_val_set = updates;
        params = record {
          vaas_timeout_period = p.vaas_timeout_period;
          historical_entries = p.historical_entries;
          unbonding_period = p.unbonding_period;
          safe_mode_threshold = p.safe_mode_threshold;
          downtime_params = s.relay.downtime_params;
          owner_address = get i s.owners;
        };
      })

    -- LaunchConsumer.
    unfoldable pub launch_consumer :
        Chain dec → State dec bank → List StakingValidator → ℕ → Option (State dec bank)
    launch_consumer chain s bonded i = do
      p ← get i s.initialization_parameters
      (relay, updates) ←
          compute_consumer_next_val_set dec chain.cons_addr_of s.relay chain.height.revision_height
            bonded i [] false
      nonempty ← if is_empty updates then none else some updates
      let s₁ = record s { relay = relay }
      genesis ← make_consumer_genesis chain s₁ i nonempty
      let s₂ =
          set_consumer_phase dec bank
            (record s₁ {
              consumer_genesis = set i genesis s₁.consumer_genesis;
              equivocation_evidence_min_height =
                  set i p.initial_height.revision_height s₁.equivocation_evidence_min_height;
            })
            i launched
      some (record s₂ {
        relay = record s₂.relay {
          consumer_last_ack_time = set i chain.now s₂.relay.consumer_last_ack_time;
        };
      })

    -- A consumer whose launch fails is registered again, without a spawn time.
    unfoldable pub reset_launch : Chain dec → State dec bank → ℕ → Option (State dec bank)
    reset_launch chain s i = do
      p ← get i s.initialization_parameters
      s₁ ← set_consumer_initialization_parameters chain s i (record p { spawn_time = 0 })
      some (set_consumer_phase dec bank s₁ i registered)

    unfoldable pub launch_or_reset :
        Chain dec → State dec bank → List StakingValidator → ℕ → Option (State dec bank)
    launch_or_reset chain s bonded i = elim (launch_consumer chain s bonded i) [
      | none ↦ reset_launch chain s i
      | some s₁ ↦ some s₁
    ]

    -- The loop of BeginBlockLaunchConsumers.
    unfoldable pub launch_each :
        Chain dec → State dec bank → List StakingValidator → List ℕ → Option (State dec bank)
    launch_each chain s bonded [] = some s
    launch_each chain s bonded (i ∷ is) = do
      s₁ ← launch_or_reset chain s bonded i
      launch_each chain s₁ bonded is

    -- BeginBlockLaunchConsumers.
    unfoldable pub begin_block_launch_consumers :
        Chain dec → State dec bank → Option (State dec bank)
    begin_block_launch_consumers chain s = do
      let (is, q) = consume_ids_from_time_queue chain.now 200 s.spawn_time_queue
      bonded ← if is_empty is then some [] else chain.last_bonded
      launch_each chain (record s { spawn_time_queue = q }) bonded is
