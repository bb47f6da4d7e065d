-- ===== src/Provider/Downtime/Tests.antt =====
-- The acceptance of downtime evidence at a concrete state: consumer 7 reports validator 5.
use vaas.Base.{
  ℕ, ◌⊎◌, List, false, ◌≡◌, ◌≢◌, refl, true, none, some, [], ◌∷◌, arith, nat_eq, pair_eq, ◌==◌,
  if◌then◌else◌,
}
use vaas.Base.Store.{get}
use vaas.Evidence.{
  EvidencePacketData, downtime, validate, missed_count, packet_max_missed, echoed_params, span,
  max_missed, count_from,
}
use vaas.Evidence.Bitmap.{bitmap_is_set, byte_at, test_bit}
use vaas.Evidence.Decimal.Hundredths.{hundredths, toy_decimals, toy_decimal_laws}
use vaas.Consumer.State.{Keeper}
use vaas.Consumer.Downtime.{VoteInfo, absent, valid_downtime_params, track_missed_blocks}
use vaas.Consumer.Downtime.Tracking.{IsTracking}
use vaas.Provider.State.{get_consumer_phase}
use vaas.Provider.Example.{keeper}
use vaas.Provider.Fees.{resolve_epoch_share, earliest_run, live_epoch_share}
use vaas.Provider.Downtime.{
  State, Chain, accepted, accept, handle_consumer_evidence_packet, handle_consumer_downtime,
  check_accused, check_grace, check_age, check_window, acceptable_downtime_params,
  get_provider_addr_from_consumer_addr, is_consumer_validator, accused_consumer_validator_addr,
  window_end_timestamp, bracket, intersects_accepted, resolve_downtime_slash_tokens,
}
use vaas.Provider.Downtime.Once.{done, accepted_once}
use vaas.Provider.Downtime.Fault.{is_own_fault}
use vaas.Provider.Downtime.Report.{answer, IsChecked, report_meets_checks}

-- The client has verified the heights 4 and 9, at the times 80 and 90.
abbrev chain : Chain
chain = record {
  staking = record {
    bonded_validators = some (record { cons_addr = 5; acc_addr = 40 } ∷ []);
    validator_by_cons_addr = λ a. some 40;
  };
  live_cons_addr = λ a. some a;
  consensus_heights = λ client. 4 ∷ 9 ∷ [];
  consensus_timestamp = λ client h. if h == 4 then some 80 else some 90;
  trusting_period = λ client. some 1000;
  slash_price = λ share missed span. some missed;
}

abbrev pub state : State toy_decimals
state = record {
  keeper = keeper;
  downtime_params = record { signed_blocks_window = 4; min_signed_per_window = hundredths 50 };
  previous_downtime_params = none;
  validator_by_consumer_addr = [];
  equivocation_evidence_min_height = [];
  consumer_validators = ((7, 5), true) ∷ [];
  consumer_clients = (7, 1) ∷ [];
  spawn_times = (7, 0) ∷ [];
  downtime_window_floors = [];
  pending_downtime_slashes = [];
  accepted_downtime_windows = [];
}

-- Validator 5 missed the heights 5 to 7.
abbrev packet : EvidencePacketData toy_decimals
packet = record {
  validator_addr = 5;
  window_end_height = 7;
  infraction = downtime;
  window_start_height = 5;
  missed_blocks_bitmap = 7 ∷ [];
  signed_blocks_window = 4;
  min_signed_per_window = hundredths 50;
}

abbrev state_after : State toy_decimals
state_after = accept toy_decimals state 100 7 packet 5 5 80 3

packet_accepted :
    handle_consumer_evidence_packet toy_decimals state chain 100 7 packet ≡ accepted state_after
unfolding handle_consumer_evidence_packet handle_consumer_downtime check_accused check_grace
    check_age check_window acceptable_downtime_params get_provider_addr_from_consumer_addr
    is_consumer_validator accused_consumer_validator_addr window_end_timestamp bracket
    intersects_accepted resolve_downtime_slash_tokens resolve_epoch_share earliest_run
    live_epoch_share validate missed_count packet_max_missed echoed_params span max_missed
    count_from bitmap_is_set byte_at test_bit get get_consumer_phase
packet_accepted = refl

same_address :
    get_provider_addr_from_consumer_addr toy_decimals state_after 7 5
    ≡ get_provider_addr_from_consumer_addr toy_decimals state 7 5
unfolding get_provider_addr_from_consumer_addr accept
same_address = refl

-- The same packet is not accepted again.
accepted_once_example :
    handle_consumer_evidence_packet toy_decimals state_after chain 101 7 packet
    ≢ accepted state_after
accepted_once_example =
    accepted_once toy_decimals state state_after state_after chain chain 100 101 7 packet packet
      state_after packet_accepted done same_address (omega arith) (omega arith)

-- A consumer under the same parameters: validator 5 was first seen at height 5 and missed 5 and 6.
abbrev tracker : Keeper toy_decimals
tracker = record {
  params = record { signed_blocks_window = 4; min_signed_per_window = hundredths 50 };
  first_tracked_heights = (5, 5) ∷ [];
  missed_block_bitmaps = (5, 6 ∷ []) ∷ [];
  staged_downtime_params = none;
  pending_evidence_packets = [];
}

-- It misses 7 too, with which the window closes.
abbrev votes : List VoteInfo
votes = record { address = 5; block_id_flag = absent } ∷ []

tracker-IsTracking : IsTracking toy_decimals tracker 3 6
unfolding valid_downtime_params get
tracker-IsTracking = record {
  past = omega arith;
  in_force = refl;
  staged = λ p h. ground (arith, h);
  sighted = λ a f h. ground (arith, h);
  noted = (((λ h. ground (arith, h)), refl), tt);
}

report_meets_checks_example :
    (k' : Keeper toy_decimals) × (track_missed_blocks toy_decimals tracker 8 votes ≡ some k')
    × ((key : ℕ × ℕ) (e : EvidencePacketData toy_decimals)
        → get key k'.pending_evidence_packets ≡ some e
        → (get key tracker.pending_evidence_packets ≡ some e)
          ⊎ ((is_own_fault toy_decimals
                  (handle_consumer_evidence_packet toy_decimals state chain 100 7 e)
                ≡ false)
              × (handle_consumer_evidence_packet toy_decimals state chain 100 7 e
                  ≡ answer toy_decimals state chain 100 7 e)))
    × ((e : EvidencePacketData toy_decimals) (s' : State toy_decimals)
        → handle_consumer_evidence_packet toy_decimals state chain 100 7 e ≡ accepted s'
        → IsChecked toy_decimals state chain 100 7 e)
report_meets_checks_example =
    report_meets_checks toy_decimals toy_decimal_laws tracker 3 6 votes state chain 100 7
      tracker-IsTracking ((λ h. ground (arith, h)), tt) refl
