-- ===== src/Consumer/Queue/Tests.antt =====
-- The queue of pending evidence at a concrete state: one packet of validator 5 is pending.
use vaas.Base.{
  ℕ, ◌≤◌, ◌<◌, ◌≡◌, ◌⊎◌, refl, true, false, none, some, List, [], ◌∷◌, if◌then◌else◌, length,
  is_some, nat_eq, pair_eq, All,
}
use vaas.Base.Store.{get, set, select, remove, clear}
use vaas.Evidence.{EvidencePacketData, downtime}
use vaas.Evidence.Decimal.Hundredths.{hundredths, toy_decimals}
use vaas.Consumer.State.{Keeper}
use vaas.Consumer.Queue.{
  Ibc, of_validator, queue_evidence_packet, evict_oldest_pending_evidence, evict,
  send_evidence_packets, sent_keys, remove_keys,
}
use vaas.Consumer.Queue.Bound.{queue_evidence_packet_bound}
use vaas.Consumer.Queue.Sending.{IsSent, can_send, listed, send_evidence_packets_bounded}

abbrev packet : ℕ → EvidencePacketData toy_decimals
packet end' = record {
  validator_addr = 5;
  window_end_height = end';
  infraction = downtime;
  window_start_height = 4;
  missed_blocks_bitmap = 15 ∷ [];
  signed_blocks_window = 4;
  min_signed_per_window = hundredths 50;
}

abbrev keeper : Keeper toy_decimals
keeper = record {
  params = record { signed_blocks_window = 4; min_signed_per_window = hundredths 50 };
  first_tracked_heights = [];
  missed_block_bitmaps = [];
  staged_downtime_params = none;
  pending_evidence_packets = ((5, 7), packet 7) ∷ [];
}

abbrev queued : Keeper toy_decimals
queued = queue_evidence_packet toy_decimals keeper (packet 11)

queue_runs : queued.pending_evidence_packets ≡ ((5, 7), packet 7) ∷ ((5, 11), packet 11) ∷ []
unfolding queue_evidence_packet evict_oldest_pending_evidence evict of_validator select set
queue_runs = refl

queue_evidence_packet_bound_example :
    (length (of_validator toy_decimals 5 queued.pending_evidence_packets) ≤ 16)
    × ((t kept : ℕ)
        → is_some (get (5, t) keeper.pending_evidence_packets) ≡ true
        → get (5, t) queued.pending_evidence_packets ≡ none
        → is_some (get (5, kept) queued.pending_evidence_packets) ≡ true
        → t < kept)
queue_evidence_packet_bound_example = queue_evidence_packet_bound toy_decimals keeper (packet 11)

abbrev ibc : Ibc toy_decimals
ibc = record {
  provider_client_id = some 1;
  is_active = λ client. true;
  has_counterparty = λ client. true;
  send_packet = λ e. true;
}

send_evidence_packets_bounded_example :
    (sent : List (ℕ × ℕ)) × (length sent ≤ 50)
    × All (IsSent toy_decimals ibc.send_packet keeper.pending_evidence_packets) sent
    × ((key : ℕ × ℕ)
        → get key (send_evidence_packets toy_decimals keeper ibc).pending_evidence_packets
          ≡ (if listed key sent then none else get key keeper.pending_evidence_packets))
    × (can_send toy_decimals ibc ≡ false
        → (sent ≡ []) × (send_evidence_packets toy_decimals keeper ibc ≡ keeper))
    × (can_send toy_decimals ibc ≡ true
        → (key : ℕ × ℕ) (e : EvidencePacketData toy_decimals)
        → get key keeper.pending_evidence_packets ≡ some e
        → ibc.send_packet e ≡ true
        → (listed key sent ≡ true) ⊎ (length sent ≡ 50))
unfolding get
send_evidence_packets_bounded_example =
    send_evidence_packets_bounded toy_decimals keeper ibc (refl, tt)

sending_runs : (send_evidence_packets toy_decimals keeper ibc).pending_evidence_packets ≡ []
unfolding send_evidence_packets sent_keys remove_keys remove clear
sending_runs = refl
