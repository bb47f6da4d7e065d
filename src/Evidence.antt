-- ===== src/Evidence.antt =====
-- The evidence packet that a consumer sends to the provider (x/vaas/types/wire.go), with the bitmaps
-- of x/vaas/types/utils.go. Heights and window sizes are non-negative here, so that a test for a
-- non-positive number is one for zero; addresses are numbers, with 0 for the empty one.
pub mod Bitmap
pub mod Decimal
use vaas.Base.{
  ℕ, zero, suc, ◌+◌, ◌-◌, ◌/◌, Bool, true, false, not, ◌||◌, List, ltb, leb, ◌==◌, if◌then◌else◌,
  length,
}
use vaas.Base.Int.{ℤ, sub_ℕ}
use Bitmap.{bitmap_is_set}
use Decimal.{Decimals}

pub data Infraction : Type 0 where
  unspecified double_sign downtime : Infraction

abbrev pub is_downtime : Infraction → Bool
is_downtime downtime = true
is_downtime _ = false

-- The set bits of a bitmap among the `n` from bit `i` on.
unfoldable pub count_from : List ℕ → ℕ → ℕ → ℕ
count_from bitmap i zero = 0
count_from bitmap i (suc n) =
    (if bitmap_is_set bitmap i then 1 else 0) + count_from bitmap (suc i) n

module _ (dec : Decimals) where
  pub record DowntimeParams : Type 0 where
    pub signed_blocks_window : ℕ
    pub min_signed_per_window : dec.LegacyDec

  -- MaxMissed of DowntimeParams.
  unfoldable pub max_missed : DowntimeParams → ℤ
  max_missed p =
      sub_ℕ p.signed_blocks_window (
        dec.truncate_int64
          (dec.ceil (dec.mul_int64 p.min_signed_per_window p.signed_blocks_window)))

  pub record EvidencePacketData : Type 0 where
    pub validator_addr : ℕ
    pub window_end_height : ℕ
    pub infraction : Infraction
    pub window_start_height : ℕ
    pub missed_blocks_bitmap : List ℕ
    pub signed_blocks_window : ℕ
    pub min_signed_per_window : dec.LegacyDec

  -- NewEvidencePacketData. The span is positive where it is called.
  unfoldable pub new_evidence_packet_data :
      ℕ → ℕ → List ℕ → ℕ → ℕ → dec.LegacyDec → EvidencePacketData
  new_evidence_packet_data addr window_start bitmap span window min_signed = record {
    validator_addr = addr;
    window_end_height = window_start + span - 1;
    infraction = downtime;
    window_start_height = window_start;
    missed_blocks_bitmap = bitmap;
    signed_blocks_window = window;
    min_signed_per_window = min_signed;
  }

  -- Span: zero stands for every non-positive span.
  unfoldable pub span : EvidencePacketData → ℕ
  span e = e.window_end_height + 1 - e.window_start_height

  -- MissedCount.
  unfoldable pub missed_count : EvidencePacketData → ℕ
  missed_count e = count_from e.missed_blocks_bitmap 0 (span e)

  -- The parameters that a packet echoes.
  unfoldable pub echoed_params : EvidencePacketData → DowntimeParams
  echoed_params e = record {
    signed_blocks_window = e.signed_blocks_window;
    min_signed_per_window = e.min_signed_per_window;
  }

  -- MaxMissed of EvidencePacketData.
  unfoldable pub packet_max_missed : EvidencePacketData → ℤ
  packet_max_missed e = max_missed (echoed_params e)

  pub data Invalid : Type 0 where
    empty_address end_height not_downtime start_height end_before_start window_size span_too_long
          bitmap_length nil_min_signed min_signed_range nothing_missed :
        Invalid

  pub data Check : Type 0 where
    valid : Check
    invalid : Invalid → Check

  -- Validate.
  unfoldable pub validate : EvidencePacketData → Check
  validate e =
      if e.validator_addr == 0
      then invalid empty_address
      else if e.window_end_height == 0
      then invalid end_height
      else if not (is_downtime e.infraction)
      then invalid not_downtime
      else if e.window_start_height == 0
      then invalid start_height
      else if ltb e.window_end_height e.window_start_height
      then invalid end_before_start
      else if e.signed_blocks_window == 0
      then invalid window_size
      else if ltb e.signed_blocks_window (span e)
      then invalid span_too_long
      else if not (length e.missed_blocks_bitmap == (span e + 7) / 8)
      then invalid bitmap_length
      else if dec.is_nil e.min_signed_per_window
      then invalid nil_min_signed
      else if dec.lte e.min_signed_per_window dec.zero || dec.gte e.min_signed_per_window dec.one
      then invalid min_signed_range
      else if missed_count e == 0
      then invalid nothing_missed
      else valid
