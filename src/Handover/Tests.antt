-- ===== src/Handover/Tests.antt =====
-- One epoch of consumer 7, from the queueing of a diff to its acknowledgement.
use vaas.Base.{
  ℕ, ◌+◌, ◌≤◌, ◌≡◌, refl, Bool, true, false, some, List, [], ◌∷◌, ◌++◌, arith, nat_eq, pair_eq, All,
  Among, inl, Option,
}
use vaas.Base.Store.{get, set, remove, clear}
use vaas.Evidence.Decimal.Hundredths.{hundredths, toy_decimals}
use vaas.Packet.{ValidatorSetChangePacketData, to_wire, of_wire, valid_updates, validate}
use vaas.ValidatorSet.{
  ConsensusValidator, find, diff_validators, changed, added, put_update, put_updates, sorts_before,
  insert_update, sort_updates, accumulate_changes,
}
use vaas.ValidatorSet.Diff.{power_in}
use vaas.Consumer.Downtime.{stage_downtime_params, valid_downtime_params}
use vaas.Consumer.Relay as Consumer
use vaas.Consumer.Relay.{
  handled, has_positive_power, current_validators_as_updates, authenticate_provider_chain_id,
  enforce_pinned_provider_client, would_empty_validator_set, next_pending_changes,
  accept_vsc_packet, is_out_of_order, on_recv_vsc_packet_v2, end_block,
}
use vaas.Consumer.Relay.Effect.{effective}
use vaas.Consumer.Relay.Tests.{consumer, clients, decodes}
use vaas.Provider.State.{get_consumer_phase}
use vaas.Provider.Example.{keeper}
use vaas.Provider.Fees.{get_all_consumer_ids, ids_from, is_consumer_in_debt}
use vaas.Provider.Assembly.{
  StakingValidator, create_consumer_validator, create_consumer_validators, assemble, keep_least,
  entries, consumer_key, joined, get_consumer_validator,
}
use vaas.Provider.Assembly.Distinct.{HasPositivePower}
use vaas.Provider.Assembly.Tests.{staking}
use vaas.Provider.Relay as Provider
use vaas.Provider.Relay.{
  launched_ids, get_all_launched_consumer_ids, consumer_of_client, get_consumer_val_set,
  get_pending_vsc_packets, get_highest_sent, get_highest_acked, on_acknowledgement_packet_v2,
  build_vsc_packet, append_pending_vsc_packet, increment_validator_set_update_id,
  compute_consumer_next_val_set, needs_snapshot, queue_vsc_packet, queue_each, queue_vsc_packets,
}
use vaas.Provider.Relay.Sending.{
  raise_highest_sent, send_each, send_vsc_packets_to_chain_strict, send_vsc_packets_to_chain,
}
use vaas.Handover.{World, record_target, epoch, send, deliver, acknowledge, Reach, here, next}
use vaas.Handover.Launch.{IsLaunched, processed}
use vaas.Handover.Agreement.{handover_agreement, acknowledged_consumer_is_current}

abbrev validator : ℕ → ℕ → ℕ → ConsensusValidator
validator key power height = record {
  provider_cons_addr = key + 10;
  power = power;
  public_key = key;
  join_height = height;
}

abbrev set_before : List ConsensusValidator
set_before = validator 1 5 1 ∷ validator 2 6 1 ∷ []

abbrev set_after : List ConsensusValidator
set_after = validator 2 7 1 ∷ validator 3 4 10 ∷ []

abbrev provider : Provider.State toy_decimals
provider = record {
  keeper = keeper;
  downtime_params = record { signed_blocks_window = 4; min_signed_per_window = hundredths 50 };
  validator_consumer_pub_key = [];
  consumer_val_sets = (7, set_before) ∷ [];
  last_provider_consensus_vals = [];
  validator_set_update_id = 1;
  pending_vsc_packets = [];
  consumer_highest_sent_vsc_id = [];
  consumer_highest_acked_vsc_id = [];
  consumer_last_ack_time = [];
  consumer_clients = (7, 1) ∷ [];
}

abbrev launch : World toy_decimals
launch = record {
  provider = provider;
  consumer = consumer;
  sent = [];
  acks = [];
  target = λ i. set_before;
}

launch-IsLaunched : IsLaunched toy_decimals 7 launch
unfolding get_pending_vsc_packets get_highest_sent get_highest_acked get_consumer_val_set get
    effective find
launch-IsLaunched = record {
  sent_nothing = refl;
  acked_nothing = refl;
  waits_nothing = refl;
  sent_zero = refl;
  acked_zero = refl;
  processed_nothing = refl;
  id_positive = omega arith;
  same_set = λ i. refl;
  has_set = λ key. ground arith;
  distinct = (refl, (refl, tt));
  positive = (omega arith, (omega arith, tt));
}

abbrev bonded : List StakingValidator
bonded = staking 12 2 7 ∷ staking 13 3 4 ∷ []

bonded-powers : All HasPositivePower bonded
bonded-powers = ((λ power h. ground (arith, h)), ((λ power h. ground (arith, h)), tt))

abbrev cons_addr_of : ℕ → Option ℕ
cons_addr_of key = some key

-- Validator 1 leaves, validator 2 gains power, validator 3 joins.
abbrev packet : ValidatorSetChangePacketData toy_decimals
packet = record {
  validator_updates = to_wire (
      record { pub_key = 1; power = 0 }
      ∷ record { pub_key = 2; power = 7 }
      ∷ record { pub_key = 3; power = 4 }
      ∷ []);
  valset_update_id = 1;
  consumer_in_debt = false;
  is_snapshot = false;
  downtime_params =
      some (record { signed_blocks_window = 4; min_signed_per_window = hundredths 50 });
}

abbrev provider_queued : Provider.State toy_decimals
provider_queued = record provider {
  consumer_val_sets = (7, set_after) ∷ [];
  validator_set_update_id = 2;
  pending_vsc_packets = (7, packet ∷ []) ∷ [];
}

queues :
    queue_vsc_packets toy_decimals cons_addr_of provider 10 (some bonded) ≡ some provider_queued
unfolding queue_vsc_packets queue_each queue_vsc_packet needs_snapshot compute_consumer_next_val_set
    create_consumer_validators assemble create_consumer_validator consumer_key joined
    get_consumer_validator keep_least entries get_consumer_val_set get_highest_acked
    get_highest_sent get_pending_vsc_packets get set append_pending_vsc_packet build_vsc_packet
    is_consumer_in_debt increment_validator_set_update_id get_all_launched_consumer_ids launched_ids
    get_all_consumer_ids ids_from get_consumer_phase diff_validators changed added find to_wire
queues = refl

abbrev sends : ValidatorSetChangePacketData toy_decimals → Bool
sends p = true

abbrev after_epoch : World toy_decimals
after_epoch = record launch {
  provider = provider_queued;
  target = record_target launch.target 1 (get_consumer_val_set toy_decimals provider_queued 7);
}

abbrev after_send : World toy_decimals
after_send = record after_epoch {
  provider = (send_vsc_packets_to_chain toy_decimals sends provider_queued 7).0;
  sent = [] ++ (send_vsc_packets_to_chain toy_decimals sends provider_queued 7).1;
}

packet_sent : Among packet after_send.sent
unfolding send_vsc_packets_to_chain send_vsc_packets_to_chain_strict send_each
    get_pending_vsc_packets get
packet_sent = inl refl

abbrev consumer_after : Consumer.State toy_decimals
consumer_after = record consumer {
  provider_chain_id = some 3;
  last_vsc_recv_time = some 100;
  highest_valset_update_id = some 1;
  pending_changes = some (
      record { pub_key = 2; power = 7 }
      ∷ record { pub_key = 3; power = 4 }
      ∷ record { pub_key = 1; power = 0 }
      ∷ []);
}

delivers :
    on_recv_vsc_packet_v2 toy_decimals decodes clients consumer 100 4 packet
    ≡ handled consumer_after
unfolding on_recv_vsc_packet_v2 validate valid_updates authenticate_provider_chain_id
    enforce_pinned_provider_client is_out_of_order accept_vsc_packet would_empty_validator_set
    next_pending_changes has_positive_power current_validators_as_updates accumulate_changes
    put_updates put_update sort_updates insert_update sorts_before of_wire to_wire
    stage_downtime_params valid_downtime_params
delivers = refl

abbrev after_delivery : World toy_decimals
after_delivery = record after_send { consumer = consumer_after; acks = 1 ∷ [] }

client_known : consumer_of_client 1 after_delivery.provider.consumer_clients ≡ some 7
unfolding consumer_of_client send_vsc_packets_to_chain send_vsc_packets_to_chain_strict send_each
    raise_highest_sent get_pending_vsc_packets get_highest_sent get
client_known = refl

abbrev after_ack : World toy_decimals
after_ack = record after_delivery {
  provider = on_acknowledgement_packet_v2 toy_decimals after_delivery.provider 110 1 1 false;
}

reached : Reach toy_decimals decodes cons_addr_of 7 launch after_ack
reached =
    next
      (next
        (next (next here (epoch launch 10 bonded provider_queued bonded-powers queues))
          (send after_epoch sends))
        (deliver after_send clients 100 4 packet consumer_after packet_sent delivers))
      (acknowledge after_delivery 110 1 1 (inl refl) client_known)

handover_agreement_example :
    get 3 (end_block toy_decimals after_ack.consumer).0.vaas_validators
    ≡ power_in 3 (after_ack.target (processed after_ack.consumer))
handover_agreement_example =
    handover_agreement toy_decimals decodes cons_addr_of 7 launch after_ack 3 launch-IsLaunched
      reached

-- That is power 4.
power_handed_over : power_in 3 (after_ack.target (processed after_ack.consumer)) ≡ some 4
unfolding get_consumer_val_set get find
power_handed_over = refl

nothing_waits : get_pending_vsc_packets toy_decimals after_ack.provider 7 ≡ []
unfolding get_pending_vsc_packets on_acknowledgement_packet_v2 consumer_of_client
    send_vsc_packets_to_chain send_vsc_packets_to_chain_strict send_each raise_highest_sent
    get_highest_sent get_highest_acked get set remove clear
nothing_waits = refl

all_acknowledged :
    get_highest_sent toy_decimals after_ack.provider 7
    ≤ get_highest_acked toy_decimals after_ack.provider 7
unfolding get_pending_vsc_packets on_acknowledgement_packet_v2 consumer_of_client
    send_vsc_packets_to_chain send_vsc_packets_to_chain_strict send_each raise_highest_sent
    get_highest_sent get_highest_acked get set remove clear
all_acknowledged = omega arith

acknowledged_consumer_is_current_example :
    get 1 (end_block toy_decimals after_ack.consumer).0.vaas_validators
    ≡ power_in 1 (get_consumer_val_set toy_decimals after_ack.provider 7)
acknowledged_consumer_is_current_example =
    acknowledged_consumer_is_current toy_decimals decodes cons_addr_of 7 launch after_ack 1
      launch-IsLaunched reached nothing_waits all_acknowledged
