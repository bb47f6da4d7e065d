-- ===== src/Provider/Relay/Tests.antt =====
-- The end of an epoch for consumer 7, which has an unacknowledged packet, and its answers.
use vaas.Base.{ℕ, ◌+◌, ◌≡◌, refl, Bool, true, false, some, List, [], ◌∷◌, nat_eq, pair_eq}
use vaas.Base.Store.{get, set, remove, clear}
use vaas.Evidence.Decimal.Hundredths.{hundredths, toy_decimals}
use vaas.Packet.{ValidatorSetChangePacketData, to_wire}
use vaas.ValidatorSet.{
  ConsensusValidator, ValidatorUpdate, find, diff_validators, changed, added, full_val_set_updates,
}
use vaas.Provider.State.{get_consumer_phase}
use vaas.Provider.Example.{keeper}
use vaas.Provider.Fees.{get_all_consumer_ids, ids_from, is_consumer_in_debt}
use vaas.Provider.Assembly.{
  StakingValidator, create_consumer_validator, create_consumer_validators,
  create_provider_consensus_validator, assemble, keep_least, entries, consumer_key, joined,
  get_consumer_validator,
}
use vaas.Provider.Assembly.Tests.{staking, cons_addr_of}
use vaas.Provider.Relay.{
  State, get_last_bonded_validators, create_each, blocks_until_next_epoch, launched_ids,
  get_all_launched_consumer_ids, consumer_of_client, get_consumer_val_set, get_pending_vsc_packets,
  get_highest_sent, get_highest_acked, on_acknowledgement_packet_v2, build_vsc_packet,
  append_pending_vsc_packet, increment_validator_set_update_id, compute_consumer_next_val_set,
  needs_snapshot, queue_vsc_packet, queue_each, queue_vsc_packets,
}
use vaas.Provider.Relay.Sending.{
  raise_highest_sent, send_each, send_vsc_packets_to_chain_strict, send_vsc_packets_to_chain, over,
  send_to_each, send_vsc_packets, provider_validator_updates, start_epoch, end_block_vsu,
}

abbrev made : ℕ → ℕ → ℕ → ConsensusValidator
made key power height = record {
  provider_cons_addr = key + 10;
  power = power;
  public_key = key;
  join_height = height;
}

-- Id 3 was sent, id 2 acknowledged.
abbrev behind : State toy_decimals
behind = record {
  keeper = keeper;
  downtime_params = record { signed_blocks_window = 4; min_signed_per_window = hundredths 50 };
  validator_consumer_pub_key = [];
  consumer_val_sets = (7, made 1 5 1 ∷ []) ∷ [];
  last_provider_consensus_vals = made 1 5 0 ∷ [];
  validator_set_update_id = 4;
  pending_vsc_packets = [];
  consumer_highest_sent_vsc_id = (7, 3) ∷ [];
  consumer_highest_acked_vsc_id = (7, 2) ∷ [];
  consumer_last_ack_time = [];
  consumer_clients = (7, 1) ∷ [];
}

abbrev bonded : List StakingValidator
bonded = staking 11 1 5 ∷ staking 12 2 3 ∷ []

abbrev snapshot : ValidatorSetChangePacketData toy_decimals
snapshot = record {
  validator_updates =
      to_wire (record { pub_key = 1; power = 5 } ∷ record { pub_key = 2; power = 3 } ∷ []);
  valset_update_id = 4;
  consumer_in_debt = false;
  is_snapshot = true;
  downtime_params =
      some (record { signed_blocks_window = 4; min_signed_per_window = hundredths 50 });
}

abbrev refuses : ℕ → ValidatorSetChangePacketData toy_decimals → Bool
refuses client p = false

abbrev takes : ℕ → ValidatorSetChangePacketData toy_decimals → Bool
takes client p = true

abbrev queued : State toy_decimals
queued = record behind {
  consumer_val_sets = (7, made 1 5 1 ∷ made 2 3 20 ∷ []) ∷ [];
  last_provider_consensus_vals = made 1 5 0 ∷ made 2 3 0 ∷ [];
  validator_set_update_id = 5;
  pending_vsc_packets = (7, snapshot ∷ []) ∷ [];
}

abbrev own_updates : List ValidatorUpdate
own_updates = record { pub_key = 2; power = 3 } ∷ []

-- A consumer that is behind gets a snapshot, which waits while IBC refuses it.
refused_snapshot_waits :
    end_block_vsu toy_decimals cons_addr_of refuses behind 20 (some bonded) (some bonded)
    ≡ some (queued, own_updates, [])
unfolding end_block_vsu start_epoch provider_validator_updates create_each
    create_provider_consensus_validator blocks_until_next_epoch queue_vsc_packets queue_each
    queue_vsc_packet needs_snapshot compute_consumer_next_val_set create_consumer_validators
    assemble create_consumer_validator consumer_key joined get_consumer_validator keep_least entries
    get_consumer_val_set get_highest_acked get_highest_sent get_pending_vsc_packets get set
    append_pending_vsc_packet build_vsc_packet is_consumer_in_debt increment_validator_set_update_id
    get_all_launched_consumer_ids launched_ids get_all_consumer_ids ids_from get_consumer_phase
    full_val_set_updates diff_validators changed added find to_wire send_vsc_packets send_to_each
    send_vsc_packets_to_chain send_vsc_packets_to_chain_strict send_each over
refused_snapshot_waits = refl

taken_snapshot_leaves : send_vsc_packets toy_decimals takes queued ≡ (
  record queued { pending_vsc_packets = []; consumer_highest_sent_vsc_id = (7, 4) ∷ [] },
  (1, snapshot) ∷ [],
)
unfolding get_highest_sent get_pending_vsc_packets get set get_all_launched_consumer_ids
    launched_ids get_all_consumer_ids ids_from get_consumer_phase send_vsc_packets send_to_each
    send_vsc_packets_to_chain send_vsc_packets_to_chain_strict send_each over raise_highest_sent
    remove clear to_wire
taken_snapshot_leaves = refl

failed_ack_ignored : on_acknowledgement_packet_v2 toy_decimals behind 30 1 3 true ≡ behind
unfolding on_acknowledgement_packet_v2 consumer_of_client
failed_ack_ignored = refl

truncated : get_last_bonded_validators (some 1) (some bonded) ≡ some (staking 11 1 5 ∷ [])
unfolding get_last_bonded_validators
truncated = refl
