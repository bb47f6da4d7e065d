-- ===== src/Provider/Lifecycle/BeginBlock.antt =====
-- What the provider does with its consumers at the beginning of a block (BeginBlock of
-- x/vaas/provider/module.go, with PauseConsumersWithFrozenClients, SweepUnresponsiveConsumers,
-- BeginBlockAutoStopPausedConsumers and SetConsumerClient of
-- x/vaas/provider/keeper/consumer_lifecycle.go).
use vaas.Base.{
  ℕ, ◌+◌, ◌-◌, not, ◌||◌, Option, none, some, List, [], ◌∷◌, leb, ◌==◌, if◌then◌else◌, value_or,
  nat_eq, ◌>>=◌,
}
use vaas.Base.Store.{get, set}
use vaas.Evidence.Decimal.{Decimals}
use vaas.Provider.State.{paused, phase_eq}
use vaas.Provider.Bank.{Bank}
use vaas.Provider.Relay.{get_all_launched_consumer_ids}
use vaas.Provider.TimeQueue.{consume_ids_from_time_queue}
use vaas.Provider.Lifecycle.{
  State, Chain, light_client_attack, is_active, is_frozen, phase_of, pause_consumer_chain,
  stop_and_prepare_for_consumer_removal,
}
use vaas.Provider.Lifecycle.Launch.{calculate_trust_period, begin_block_launch_consumers}
use vaas.Provider.Lifecycle.Removal.{begin_block_remove_consumers}

module _ (dec : Decimals) (bank : Bank) where
  -- A step in a cached context: an error is logged, and leaves the state.
  abbrev pub cached : State dec bank → Option (State dec bank) → State dec bank
  cached s o = value_or s o

  -- The step of PauseConsumersWithFrozenClients for one consumer and its client.
  unfoldable pub pause_if_frozen : Chain dec → State dec bank → ℕ → Option ℕ → State dec bank
  pause_if_frozen chain s i none = s
  pause_if_frozen chain s i (some client) =
      if is_frozen (chain.client_status client)
      then cached s (pause_consumer_chain dec bank chain s i light_client_attack)
      else s

  unfoldable pub pause_each : Chain dec → State dec bank → List ℕ → State dec bank
  pause_each chain s [] = s
  pause_each chain s (i ∷ is) =
      pause_each chain (pause_if_frozen chain s i (get i s.relay.consumer_clients)) is

  -- PauseConsumersWithFrozenClients.
  unfoldable pub pause_consumers_with_frozen_clients : Chain dec → State dec bank → State dec bank
  pause_consumers_with_frozen_clients chain s =
      pause_each chain s (get_all_launched_consumer_ids s.relay.keeper)

  -- LivenessGracePeriod (params.go).
  unfoldable pub liveness_grace_period : Chain dec → Option ℕ
  liveness_grace_period chain = do
    unbonding ← chain.unbonding_time
    calculate_trust_period dec unbonding chain.liveness_grace_fraction

  -- GetConsumerLastAckTime.
  unfoldable pub get_consumer_last_ack_time : Chain dec → State dec bank → ℕ → ℕ
  get_consumer_last_ack_time chain s i = value_or chain.now (get i s.relay.consumer_last_ack_time)

  -- The step of SweepUnresponsiveConsumers for one consumer.
  unfoldable pub stop_if_silent : Chain dec → ℕ → State dec bank → ℕ → State dec bank
  stop_if_silent chain grace s i =
      if leb (chain.now - get_consumer_last_ack_time chain s i) grace
      then s
      else cached s (stop_and_prepare_for_consumer_removal dec bank chain s i)

  unfoldable pub sweep_each : Chain dec → ℕ → State dec bank → List ℕ → State dec bank
  sweep_each chain grace s [] = s
  sweep_each chain grace s (i ∷ is) = sweep_each chain grace (stop_if_silent chain grace s i) is

  -- SweepUnresponsiveConsumers.
  unfoldable pub sweep_unresponsive_consumers : Chain dec → State dec bank → Option (State dec bank)
  sweep_unresponsive_consumers chain s = do
    grace ← liveness_grace_period chain
    some (sweep_each chain grace s (get_all_launched_consumer_ids s.relay.keeper))

  -- The step of BeginBlockAutoStopPausedConsumers for one consumer.
  unfoldable pub stop_if_paused : Chain dec → State dec bank → ℕ → State dec bank
  stop_if_paused chain s i =
      if phase_eq (phase_of dec bank s i) paused
      then cached s (stop_and_prepare_for_consumer_removal dec bank chain s i)
      else s

  unfoldable pub auto_stop_each : Chain dec → State dec bank → List ℕ → State dec bank
  auto_stop_each chain s [] = s
  auto_stop_each chain s (i ∷ is) = auto_stop_each chain (stop_if_paused chain s i) is

  -- BeginBlockAutoStopPausedConsumers.
  unfoldable pub begin_block_auto_stop_paused_consumers :
      Chain dec → State dec bank → State dec bank
  begin_block_auto_stop_paused_consumers chain s =
      let (is, q) = consume_ids_from_time_queue chain.now 200 s.pause_expiration_queue in
      auto_stop_each chain (record s { pause_expiration_queue = q }) is

  -- BeginBlock, up to the downtime slashes. An error fails the block.
  unfoldable pub begin_block_lifecycle : Chain dec → State dec bank → Option (State dec bank)
  begin_block_lifecycle chain s = do
    s₁ ← begin_block_launch_consumers dec bank chain s
    s₂ ← begin_block_remove_consumers dec bank chain s₁
    s₃ ← sweep_unresponsive_consumers chain (pause_consumers_with_frozen_clients chain s₂)
    some (begin_block_auto_stop_paused_consumers chain s₃)

  -- SetConsumerClient.
  unfoldable pub set_consumer_client : Chain dec → State dec bank → ℕ → ℕ → Option (State dec bank)
  set_consumer_client chain s i client =
      if not (value_or 0 (get i s.relay.consumer_clients) == 0) then none else do
        chain_id ← get i s.chain_ids
        c ← chain.client_state client
        let ip = s.relay.keeper.infraction_params
        let horizon = ip.downtime_evidence_max_age + ip.downtime_challenge_window
        bound ←
            if not (c.chain_id == chain_id)
              || (not (is_active (chain.client_status client))
                  || (chain.counterparty client == 0 || leb c.trusting_period horizon))
            then none
            else some client
        some (record s {
          relay = record s.relay { consumer_clients = set i bound s.relay.consumer_clients };
        })
