-- ===== src/Consumer/Downtime/Tests.antt =====
-- Downtime tracking at a concrete state: windows of four blocks, half of which must be signed.
use vaas.Base.{
  ℕ, ◌+◌, ◌≡◌, ◌⊎◌, refl, false, none, some, List, [], ◌∷◌, arith, ltb, if◌then◌else◌, length,
  nat_eq, pair_eq,
}
use vaas.Base.Store.{get, set, select}
use vaas.Evidence.{DowntimeParams, downtime, count_from, new_evidence_packet_data, max_missed}
use vaas.Evidence.Bitmap.{bitmap_is_set, bitmap_set, byte_at, put_byte, test_bit, or_bit}
use vaas.Evidence.Decimal.Hundredths.{hundredths, toy_decimals, toy_decimal_laws}
use vaas.Consumer.State.{Keeper}
use vaas.Consumer.Queue.{queue_evidence_packet, evict_oldest_pending_evidence, evict, of_validator}
use vaas.Consumer.Downtime.{
  VoteInfo, absent, valid_downtime_params, track_missed_blocks, track_at, track_votes, track_vote,
  note_sighting, padded, zeros, end_of_votes, close_window, report_offences, offence, offence_since,
  first_height, count_missed_bits, rebase_bitmap, rebase_from, apply_staged_downtime_params,
  stage_downtime_params,
}
use vaas.Consumer.Downtime.Rebase.{rebase_bitmap-lem}
use vaas.Consumer.Downtime.Tracking.{IsTracking, SameRest, stage_downtime_params-IsTracking}
use vaas.Consumer.Downtime.Closing.{IsClosed}
use vaas.Consumer.Downtime.Block.{track_missed_blocks_reports}

abbrev params : DowntimeParams toy_decimals
params = record { signed_blocks_window = 4; min_signed_per_window = hundredths 50 }

abbrev next_params : DowntimeParams toy_decimals
next_params = record { signed_blocks_window = 6; min_signed_per_window = hundredths 50 }

-- Validator 5 was first seen at height 5 and missed 5 and 6.
abbrev keeper : Keeper toy_decimals
keeper = record {
  params = params;
  first_tracked_heights = (5, 5) ∷ [];
  missed_block_bitmaps = (5, 6 ∷ []) ∷ [];
  staged_downtime_params = some next_params;
  pending_evidence_packets = [];
}

abbrev votes : List VoteInfo
votes = record { address = 5; block_id_flag = absent } ∷ []

keeper-IsTracking : IsTracking toy_decimals keeper 3 6
unfolding valid_downtime_params get
keeper-IsTracking = record {
  past = omega arith;
  in_force = refl;
  staged = λ p h. ground (arith, h);
  sighted = λ a f h. ground (arith, h);
  noted = (((λ h. ground (arith, h)), refl), tt);
}

-- It misses 7 too, and is reported for the heights 5 to 7; the staged window size comes into force.
abbrev reported : Keeper toy_decimals
reported = record {
  params = next_params;
  first_tracked_heights = [];
  missed_block_bitmaps = [];
  staged_downtime_params = none;
  pending_evidence_packets =
      (
        (5, 7),
        record {
          validator_addr = 5;
          window_end_height = 7;
          infraction = downtime;
          window_start_height = 5;
          missed_blocks_bitmap = 7 ∷ [];
          signed_blocks_window = 4;
          min_signed_per_window = hundredths 50;
        },
      )
      ∷ [];
}

window_closes : track_missed_blocks toy_decimals keeper 8 votes ≡ some reported
unfolding track_missed_blocks track_at track_votes track_vote note_sighting padded zeros
    end_of_votes close_window report_offences offence offence_since first_height count_missed_bits
    rebase_bitmap rebase_from apply_staged_downtime_params get set bitmap_is_set bitmap_set byte_at
    put_byte test_bit or_bit count_from new_evidence_packet_data max_missed queue_evidence_packet
    evict_oldest_pending_evidence evict of_validator select
window_closes = refl

track_missed_blocks_reports_example :
    (k' : Keeper toy_decimals) × (track_missed_blocks toy_decimals keeper 8 votes ≡ some k')
    × ((IsTracking toy_decimals k' 3 7 × SameRest toy_decimals keeper k')
        ⊎ IsClosed toy_decimals toy_decimal_laws keeper k' 3 7)
track_missed_blocks_reports_example =
    track_missed_blocks_reports toy_decimals toy_decimal_laws keeper 3 6 votes keeper-IsTracking
      ((λ h. ground (arith, h)), tt)

rebase_bitmap-lem_example :
    (out : List ℕ) × (rebase_bitmap (14 ∷ []) 1 3 ≡ some out)
    × (length out ≡ 1)
    × ((j : ℕ) → bitmap_is_set out j ≡ (if ltb j 3 then bitmap_is_set (14 ∷ []) (1 + j) else false))
    × (count_from out 0 3 ≡ count_from (14 ∷ []) 1 3)
rebase_bitmap-lem_example = rebase_bitmap-lem (14 ∷ []) 1 3

stage_downtime_params-IsTracking_example :
    IsTracking toy_decimals (stage_downtime_params toy_decimals keeper next_params) 3 6
    × ((stage_downtime_params toy_decimals keeper next_params).params ≡ params)
    × ((stage_downtime_params toy_decimals keeper next_params).pending_evidence_packets ≡ [])
stage_downtime_params-IsTracking_example =
    stage_downtime_params-IsTracking toy_decimals keeper 3 6 next_params keeper-IsTracking
