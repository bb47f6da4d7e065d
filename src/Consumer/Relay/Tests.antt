-- ===== src/Consumer/Relay/Tests.antt =====
-- Packets at a consumer with the validators 1 and 2.
use vaas.Base.{
  ℕ, ◌<◌, ◌≡◌, refl, Bool, true, false, none, some, List, [], ◌∷◌, arith, nat_eq, pair_eq,
}
use vaas.Base.Int.{pos, negsuc}
use vaas.Base.Store.{get, set, remove, clear}
use vaas.Evidence.Decimal.Hundredths.{hundredths, toy_decimals}
use vaas.Packet.{WireUpdate, ValidatorSetChangePacketData, of_wire, valid_updates, validate}
use vaas.ValidatorSet.{
  put_update, put_updates, sorts_before, insert_update, sort_updates, accumulate_changes,
  has_update, removals, compute_replace_updates, apply_change, apply_vaas_validator_changes,
}
use vaas.Consumer.Relay.{
  invalid_packet, invalid_provider_client, empty_validator_set, ClientState, tendermint, State,
  handled, refused, has_positive_power, current_validators_as_updates,
  authenticate_provider_chain_id, enforce_pinned_provider_client, would_empty_validator_set,
  next_pending_changes, accept_vsc_packet, is_out_of_order, on_recv_vsc_packet_v2, end_block,
  arm_vsc_staleness_clock,
}
use vaas.Consumer.Relay.Liveness.{handled_packet_keeps_validators}

-- Client 4 is pinned, the chain id is not yet.
abbrev pub consumer : State toy_decimals
consumer = record {
  keeper = record {
    params = record { signed_blocks_window = 4; min_signed_per_window = hundredths 50 };
    first_tracked_heights = [];
    missed_block_bitmaps = [];
    staged_downtime_params = none;
    pending_evidence_packets = [];
  };
  provider_client_id = some 4;
  provider_chain_id = none;
  highest_valset_update_id = none;
  pending_changes = none;
  vaas_validators = (1, 5) ∷ (2, 6) ∷ [];
  last_vsc_recv_time = none;
  consumer_in_debt = false;
  init_genesis_height = 1;
  safe_mode_threshold = 50;
}

abbrev pub clients : ℕ → ClientState
clients client = tendermint 3

abbrev pub decodes : ℕ → Bool
decodes key = true

abbrev packet : ℕ → Bool → List WireUpdate → ValidatorSetChangePacketData toy_decimals
packet id is_snapshot updates = record {
  validator_updates = updates;
  valset_update_id = id;
  consumer_in_debt = false;
  is_snapshot = is_snapshot;
  downtime_params = none;
}

abbrev update : ℕ → ℕ → WireUpdate
update key power = record { pub_key = key; power = pos power }

abbrev diff_packet : ValidatorSetChangePacketData toy_decimals
diff_packet = packet 1 false (update 1 0 ∷ update 3 4 ∷ [])

abbrev consumer_after : State toy_decimals
consumer_after = record consumer {
  provider_chain_id = some 3;
  last_vsc_recv_time = some 100;
  highest_valset_update_id = some 1;
  pending_changes =
      some (record { pub_key = 3; power = 4 } ∷ record { pub_key = 1; power = 0 } ∷ []);
}

diff_handled :
    on_recv_vsc_packet_v2 toy_decimals decodes clients consumer 100 4 diff_packet
    ≡ handled consumer_after
unfolding on_recv_vsc_packet_v2 validate valid_updates authenticate_provider_chain_id
    enforce_pinned_provider_client is_out_of_order accept_vsc_packet would_empty_validator_set
    next_pending_changes has_positive_power current_validators_as_updates accumulate_changes
    put_updates put_update sort_updates insert_update sorts_before of_wire
diff_handled = refl

diff_in_order : is_out_of_order toy_decimals consumer diff_packet ≡ false
unfolding is_out_of_order
diff_in_order = refl

handled_packet_keeps_validators_example :
    (key : ℕ) × (power : ℕ) × (get key (end_block toy_decimals consumer_after).0.vaas_validators
      ≡ some power)
    × (0 < power)
handled_packet_keeps_validators_example =
    handled_packet_keeps_validators toy_decimals decodes clients consumer consumer_after 100 4
      diff_packet (unfold get in (refl, (refl, tt))) (λ h. ground (arith, h)) diff_in_order
      diff_handled

flushed : (end_block toy_decimals consumer_after).0.vaas_validators ≡ (2, 6) ∷ (3, 4) ∷ []
unfolding end_block apply_vaas_validator_changes apply_change get set remove clear
flushed = refl

removes_all_refused :
    on_recv_vsc_packet_v2 toy_decimals decodes clients consumer 100 4
      (packet 1 false (update 1 0 ∷ update 2 0 ∷ []))
    ≡ refused empty_validator_set
unfolding on_recv_vsc_packet_v2 validate valid_updates authenticate_provider_chain_id
    enforce_pinned_provider_client is_out_of_order accept_vsc_packet would_empty_validator_set
    has_positive_power current_validators_as_updates accumulate_changes put_updates put_update
    sort_updates insert_update sorts_before of_wire
removes_all_refused = refl

other_client_refused :
    on_recv_vsc_packet_v2 toy_decimals decodes clients consumer 100 5 diff_packet
    ≡ refused invalid_provider_client
unfolding on_recv_vsc_packet_v2 validate valid_updates authenticate_provider_chain_id
    enforce_pinned_provider_client
other_client_refused = refl

negative_power_refused :
    on_recv_vsc_packet_v2 toy_decimals decodes clients consumer 100 4
      (packet 1 false (record { pub_key = 3; power = negsuc 0 } ∷ []))
    ≡ refused invalid_packet
unfolding on_recv_vsc_packet_v2 validate valid_updates
negative_power_refused = refl

-- A snapshot that lists a key twice, first with a power and then with none, passes the guard and
-- leaves no validator.
abbrev doubled : State toy_decimals
doubled = record consumer {
  provider_chain_id = some 3;
  last_vsc_recv_time = some 100;
  highest_valset_update_id = some 1;
  pending_changes = some (
      record { pub_key = 3; power = 4 }
      ∷ record { pub_key = 3; power = 0 }
      ∷ record { pub_key = 1; power = 0 }
      ∷ record { pub_key = 2; power = 0 }
      ∷ []);
}

doubled_handled :
    on_recv_vsc_packet_v2 toy_decimals decodes clients consumer 100 4
      (packet 1 true (update 3 4 ∷ update 3 0 ∷ []))
    ≡ handled doubled
unfolding on_recv_vsc_packet_v2 validate valid_updates authenticate_provider_chain_id
    enforce_pinned_provider_client is_out_of_order accept_vsc_packet would_empty_validator_set
    next_pending_changes has_positive_power compute_replace_updates removals has_update of_wire
doubled_handled = refl

doubled_empties_set : (end_block toy_decimals doubled).0.vaas_validators ≡ []
unfolding end_block apply_vaas_validator_changes apply_change get set remove clear
doubled_empties_set = refl

-- The staleness clock starts after the genesis block, once.
clock_armed : (arm_vsc_staleness_clock toy_decimals consumer 2 30).last_vsc_recv_time ≡ some 30
unfolding arm_vsc_staleness_clock
clock_armed = refl
