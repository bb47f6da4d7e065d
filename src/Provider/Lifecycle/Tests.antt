-- ===== src/Provider/Lifecycle/Tests.antt =====
-- Consumer 7, paused until 30, and what the blocks after that do.
use vaas.Base.{ℕ, ◌≡◌, refl, some, none, [], ◌∷◌, ◌==◌, inr, Bool-cases, ==_iff, inl, arith, nat_eq}
use vaas.Base.Store.{get, set, remove, clear}
use vaas.Evidence.Decimal.Hundredths.{hundredths, toy_decimals}
use vaas.Provider.State.{paused, stopped, get_consumer_phase}
use vaas.Provider.Bank.Toy.{toy_bank}
use vaas.Provider.Example.{keeper}
use vaas.Provider.TimeQueue.{
  put, get_ids, append_id, gather, append_ids, delete_all_ids, delete_consumed,
  consume_ids_from_time_queue,
}
use vaas.Provider.TimeQueue.Entries.{all_ids, due_ids}
use vaas.Provider.TimeQueue.{remove_consumer_from_time_queue}
use vaas.Provider.State.{launched}
use vaas.Base.{false, true, some}
use vaas.Provider.Lifecycle.{
  resync, resume_consumer_chain, State, Chain, downtime_challenge, active, phase_of, with_keeper,
  set_consumer_phase, cancel_consumer_downtime_state, cancel_in_bucket,
  cancel_consumer_pause_expiration, forget_pause, schedule_removal,
  stop_and_prepare_for_consumer_removal,
}
use vaas.Packet.{ValidatorSetChangePacketData, to_wire}
use vaas.ValidatorSet.{full_val_set_updates}
use vaas.Provider.Assembly.{create_consumer_validators, assemble, entries}
use vaas.Provider.Fees.{is_consumer_in_debt}
use vaas.Provider.Relay.Sending.{send_vsc_packets_to_chain_strict, send_each, raise_highest_sent}
use vaas.Provider.Lifecycle.Resume.{IsResumed, resume_ends_the_pause}
use vaas.Provider.Relay.{
  queue_immediate_snapshot_vsc_packet, queue_vsc_packet, compute_consumer_next_val_set,
  get_consumer_val_set, get_pending_vsc_packets, get_highest_sent, append_pending_vsc_packet,
  build_vsc_packet, increment_validator_set_update_id, get_all_launched_consumer_ids, launched_ids,
}
use vaas.Provider.Fees.{get_all_consumer_ids, ids_from}
use vaas.Provider.Lifecycle.Launch.{
  begin_block_launch_consumers, launch_each, calculate_trust_period,
}
use vaas.Provider.Lifecycle.Removal.{begin_block_remove_consumers, remove_each}
use vaas.Provider.Lifecycle.Blocks.{begin_block_strands_no_pause}
use vaas.Provider.Lifecycle.BeginBlock.{
  begin_block_lifecycle, pause_consumers_with_frozen_clients, pause_each,
  sweep_unresponsive_consumers, liveness_grace_period, sweep_each, stop_if_paused, auto_stop_each,
  begin_block_auto_stop_paused_consumers,
}
use vaas.Provider.Lifecycle.Scheduled.{IsScheduled}
use vaas.Provider.Lifecycle.Expiry.{expired_pause_is_stopped}

abbrev pub chain_at : ℕ → Chain toy_decimals
chain_at now = record {
  now = now;
  height = record { revision_number = 1; revision_height = 90 };
  unbonding_time = some 21;
  max_pause_duration = 10;
  trusting_period_fraction = some (hundredths 50);
  liveness_grace_fraction = some (hundredths 60);
  staking = record { bonded_validators = some []; validator_by_cons_addr = λ a. some a };
  last_bonded = some [];
  client_status = λ c. active;
  client_state = λ c. none;
  counterparty = λ c. c;
  own_revision = 1;
  revision_of = λ c. 1;
  historical_info = λ h. none;
  cons_addr_of = λ k. some k;
}

abbrev pub paused_7 : State toy_decimals toy_bank
paused_7 = record {
  relay = record {
    keeper = record keeper { phases = (7, paused) ∷ [] };
    downtime_params = record { signed_blocks_window = 4; min_signed_per_window = hundredths 50 };
    validator_consumer_pub_key = [];
    consumer_val_sets = [];
    last_provider_consensus_vals = [];
    validator_set_update_id = 4;
    pending_vsc_packets = [];
    consumer_highest_sent_vsc_id = [];
    consumer_highest_acked_vsc_id = [];
    consumer_last_ack_time = [];
    consumer_clients = (7, 1) ∷ [];
  };
  ledger = λ a d. 0;
  chain_ids = (7, 70) ∷ [];
  owners = [];
  initialization_parameters = [];
  consumer_genesis = [];
  equivocation_evidence_min_height = [];
  init_chain_heights = [];
  spawn_time_queue = [];
  removal_time_queue = [];
  pause_expiration_queue = (30, 7 ∷ []) ∷ [];
  removal_times = [];
  pause_expiration_times = (7, 30) ∷ [];
  pause_reasons = (7, downtime_challenge) ∷ [];
  paused_at = (7, 20) ∷ [];
  pending_downtime_slashes = [];
  accepted_downtime_windows = [];
  downtime_window_floors = [];
  validator_by_consumer_addr = [];
  consumer_addrs_to_prune = [];
  fee_pool_address_to_consumer_id = [];
}

abbrev stopped_7 : State toy_decimals toy_bank
stopped_7 = record paused_7 {
  relay = record paused_7.relay { keeper = record keeper { phases = (7, stopped) ∷ [] } };
  removal_time_queue = (61, 7 ∷ []) ∷ [];
  pause_expiration_queue = [];
  removal_times = (7, 61) ∷ [];
  pause_expiration_times = [];
  pause_reasons = [];
  paused_at = [];
}

auto_stopped :
    begin_block_auto_stop_paused_consumers toy_decimals toy_bank (chain_at 40) paused_7 ≡ stopped_7
unfolding begin_block_auto_stop_paused_consumers consume_ids_from_time_queue gather delete_consumed
    delete_all_ids remove clear append_ids auto_stop_each stop_if_paused phase_of get_consumer_phase
    get stop_and_prepare_for_consumer_removal cancel_consumer_pause_expiration cancel_in_bucket
    cancel_consumer_downtime_state set_consumer_phase set with_keeper get_ids schedule_removal
    append_id put forget_pause
auto_stopped = refl

paused_7-IsScheduled : IsScheduled toy_decimals toy_bank paused_7
unfolding phase_of get_consumer_phase get all_ids
paused_7-IsScheduled = record {
  ascending = (tt, tt);
  paused_waits = λ i p. elim (Bool-cases (7 == i)) [
    | inl same ↦ inl ((==_iff 7 i).0 same)
    | inr other ↦ absurd (ground (arith, other, p))
  ];
}

expired_pause_is_stopped_example :
    phase_of toy_decimals toy_bank
      (begin_block_auto_stop_paused_consumers toy_decimals toy_bank (chain_at 40) paused_7)
      7
    ≡ stopped
unfolding phase_of get_consumer_phase get due_ids
expired_pause_is_stopped_example =
    expired_pause_is_stopped toy_decimals toy_bank (chain_at 40) paused_7 7 21 paused_7-IsScheduled
      refl refl (inl refl)

-- A block that stops the consumer.
block : begin_block_lifecycle toy_decimals toy_bank (chain_at 40) paused_7 ≡ some stopped_7
unfolding begin_block_lifecycle begin_block_launch_consumers launch_each
    begin_block_remove_consumers remove_each pause_consumers_with_frozen_clients pause_each
    get_all_launched_consumer_ids launched_ids get_all_consumer_ids ids_from
    sweep_unresponsive_consumers liveness_grace_period calculate_trust_period sweep_each
    begin_block_auto_stop_paused_consumers consume_ids_from_time_queue gather delete_consumed
    delete_all_ids remove clear append_ids auto_stop_each stop_if_paused phase_of get_consumer_phase
    get stop_and_prepare_for_consumer_removal cancel_consumer_pause_expiration cancel_in_bucket
    cancel_consumer_downtime_state set_consumer_phase set with_keeper get_ids schedule_removal
    append_id put forget_pause
block = refl

begin_block_strands_no_pause_example : IsScheduled toy_decimals toy_bank stopped_7
begin_block_strands_no_pause_example =
    begin_block_strands_no_pause toy_decimals toy_bank (chain_at 40) paused_7 stopped_7
      paused_7-IsScheduled block

-- A resumption at 25 sends an empty snapshot and ends the pause.
abbrev resumed_7 : State toy_decimals toy_bank
resumed_7 = record paused_7 {
  relay = record paused_7.relay {
    keeper = record keeper { phases = (7, launched) ∷ [] };
    consumer_val_sets = (7, []) ∷ [];
    validator_set_update_id = 5;
    consumer_highest_sent_vsc_id = (7, 4) ∷ [];
    consumer_last_ack_time = (7, 25) ∷ [];
  };
  pause_expiration_queue = [];
  pause_expiration_times = [];
  pause_reasons = [];
  paused_at = [];
}

abbrev empty_snapshot : ValidatorSetChangePacketData toy_decimals
empty_snapshot = record {
  validator_updates = [];
  valset_update_id = 4;
  consumer_in_debt = false;
  is_snapshot = true;
  downtime_params = some paused_7.relay.downtime_params;
}

resumed :
    resume_consumer_chain toy_decimals toy_bank (λ client p. true) (chain_at 25) paused_7 7
    ≡ some (resumed_7, empty_snapshot ∷ [])
unfolding resume_consumer_chain phase_of get_consumer_phase get cancel_consumer_pause_expiration
    cancel_in_bucket remove_consumer_from_time_queue get_ids remove clear forget_pause
    set_consumer_phase set with_keeper resync queue_immediate_snapshot_vsc_packet queue_vsc_packet
    compute_consumer_next_val_set create_consumer_validators get_consumer_val_set
    get_pending_vsc_packets get_highest_sent append_pending_vsc_packet build_vsc_packet
    is_consumer_in_debt increment_validator_set_update_id full_val_set_updates to_wire
    send_vsc_packets_to_chain_strict send_each raise_highest_sent assemble entries
resumed = refl

resume_ends_the_pause_example :
    IsScheduled toy_decimals toy_bank resumed_7 × IsResumed toy_decimals toy_bank 7 resumed_7
resume_ends_the_pause_example =
    resume_ends_the_pause toy_decimals toy_bank (λ client p. true) (chain_at 25) paused_7 resumed_7
      7 (empty_snapshot ∷ []) paused_7-IsScheduled resumed
