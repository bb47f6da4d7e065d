-- ===== src/Consumer/Downtime.antt =====
-- Detection of missed blocks on the consumer (x/vaas/consumer/keeper/downtime.go). `none` is a
-- panic. The bitmaps are visited in the store's order, in the source by address.
pub mod Rebase
pub mod Window
pub mod Tracking
pub mod Closing
pub mod Block
mod Tests
use vaas.Base.{
  ℕ, zero, suc, ◌+◌, ◌-◌, ◌*◌, ◌/◌, Bool, true, false, not, ◌&&◌, ◌||◌, Option, none, some, List,
  [], ◌∷◌, ◌++◌, ltb, leb, ◌==◌, if◌then◌else◌, length, nat_eq, value_or, is_some, ◌>>=◌,
}
use vaas.Base.Int.{ℤ, pos, leb_ℤ}
use vaas.Base.Store.{Store, get, set}
use vaas.Evidence.{
  DowntimeParams, EvidencePacketData, max_missed, count_from, new_evidence_packet_data,
}
use vaas.Evidence.Bitmap.{bitmap_is_set, bitmap_set}
use vaas.Evidence.Decimal.{Decimals}
use vaas.Consumer.State.{Keeper}
use vaas.Consumer.Queue.{queue_evidence_packet}

-- `make([]byte, n)`.
unfoldable pub zeros : ℕ → List ℕ
zeros zero = []
zeros (suc n) = 0 ∷ zeros n

-- countMissedBits.
unfoldable pub count_missed_bits : List ℕ → ℕ → ℕ → ℕ
count_missed_bits bitmap from to = count_from bitmap from (to - from)

-- The loop of rebaseBitmap for the `n` bits from bit `i` of the output on.
unfoldable pub rebase_from : List ℕ → ℕ → ℕ → ℕ → List ℕ → Option (List ℕ)
rebase_from bitmap offset i zero out = some out
rebase_from bitmap offset i (suc n) out = do
  out' ← if bitmap_is_set bitmap (offset + i) then bitmap_set out i else some out
  rebase_from bitmap offset (suc i) n out'

-- rebaseBitmap.
unfoldable pub rebase_bitmap : List ℕ → ℕ → ℕ → Option (List ℕ)
rebase_bitmap bitmap offset span = rebase_from bitmap offset 0 span (zeros ((span + 7) / 8))

pub data BlockIdFlag : Type 0 where
  unknown absent commit nil_vote : BlockIdFlag

abbrev pub is_absent : BlockIdFlag → Bool
is_absent absent = true
is_absent _ = false

pub record VoteInfo : Type 0 where
  pub address : ℕ
  pub block_id_flag : BlockIdFlag

-- The bitmap that a missed block is recorded in: a missing or short one is padded to a window.
unfoldable pub padded : ℕ → Option (List ℕ) → List ℕ
padded window stored =
    let bitmap = value_or [] stored in
    let want_len = (window + 7) / 8 in
    if not (is_some stored) || ltb (length bitmap) want_len
    then bitmap ++ zeros (want_len - length bitmap)
    else bitmap

module _ (dec : Decimals) where
  -- validDowntimeParams.
  unfoldable pub valid_downtime_params : DowntimeParams dec → Bool
  valid_downtime_params p =
      if p.signed_blocks_window == 0
      then false
      else not (
          dec.is_nil p.min_signed_per_window
          || (not (dec.is_positive p.min_signed_per_window)
              || not (dec.lt p.min_signed_per_window dec.one)))

  -- StageDowntimeParams.
  unfoldable pub stage_downtime_params : Keeper dec → DowntimeParams dec → Keeper dec
  stage_downtime_params k p =
      if not (valid_downtime_params p)
      then k
      else if k.params.signed_blocks_window == p.signed_blocks_window
          && dec.equal k.params.min_signed_per_window p.min_signed_per_window
      then record k { staged_downtime_params = none }
      else record k { staged_downtime_params = some p }

  -- applyStagedDowntimeParams.
  unfoldable pub apply_staged_downtime_params : Keeper dec → Keeper dec
  apply_staged_downtime_params k = elim k.staged_downtime_params [
    | none ↦ k
    | some staged ↦ record k { params = staged; staged_downtime_params = none }
  ]

  -- The first sighting of a validator.
  unfoldable pub note_sighting : Keeper dec → ℕ → ℕ → Keeper dec
  note_sighting k vote_height addr =
      if is_some (get addr k.first_tracked_heights)
      then k
      else record k { first_tracked_heights = set addr vote_height k.first_tracked_heights }

  -- The body of the vote loop of TrackMissedBlocks.
  unfoldable pub track_vote : Keeper dec → ℕ → ℕ → ℕ → VoteInfo → Option (Keeper dec)
  track_vote k window idx vote_height vote =
      let k₁ = note_sighting k vote_height vote.address in
      if not (is_absent vote.block_id_flag)
      then some k₁
      else elim (bitmap_set (padded window (get vote.address k₁.missed_block_bitmaps)) idx) [
        | none ↦ none
        | some bitmap ↦
            some
              (record k₁ { missed_block_bitmaps = set vote.address bitmap k₁.missed_block_bitmaps })
      ]

  unfoldable pub track_votes : Keeper dec → ℕ → ℕ → ℕ → List VoteInfo → Option (Keeper dec)
  track_votes k window idx vote_height [] = some k
  track_votes k window idx vote_height (v ∷ vs) = do
    k' ← track_vote k window idx vote_height v
    track_votes k' window idx vote_height vs

  -- The first height of the window that a validator answers for.
  unfoldable pub first_height : Keeper dec → ℕ → ℕ → ℕ
  first_height k window_start addr =
      let first_tracked = value_or window_start (get addr k.first_tracked_heights) in
      if ltb window_start first_tracked then first_tracked else window_start

  -- The packet that closeWindow builds for a validator that answers from a height on, if it missed
  -- too much: the outer `none` is a panic.
  unfoldable pub offence_since :
      ℕ → ℕ → ℕ → dec.LegacyDec → ℕ → List ℕ → Option (Option (EvidencePacketData dec))
  offence_since first window_start window min_signed addr bitmap =
      let limit =
        max_missed dec
          (record { signed_blocks_window = window; min_signed_per_window = min_signed }) in
      let span = window_start + window - first in
      let offset = first - window_start in
      if leb_ℤ (pos (count_missed_bits bitmap offset window)) limit then some none else do
        rebased ← rebase_bitmap bitmap offset span
        some (some (new_evidence_packet_data dec addr first rebased span window min_signed))

  unfoldable pub offence :
      Keeper dec → ℕ → ℕ → dec.LegacyDec → ℕ → List ℕ → Option (Option (EvidencePacketData dec))
  offence k window_start window min_signed addr bitmap =
      offence_since (first_height k window_start addr) window_start window min_signed addr bitmap

  -- The loop of closeWindow over the tracked validators.
  unfoldable pub report_offences :
      Keeper dec → ℕ → ℕ → dec.LegacyDec → List (ℕ × List ℕ) → Option (Keeper dec)
  report_offences k window_start window min_signed [] = some k
  report_offences k window_start window min_signed (x ∷ xs) = do
    found ← offence k window_start window min_signed x.0 x.1
    report_offences (elim found [ none ↦ k | some packet ↦ queue_evidence_packet dec k packet ])
        window_start window min_signed xs

  -- closeWindow.
  unfoldable pub close_window : Keeper dec → ℕ → ℕ → dec.LegacyDec → Option (Keeper dec)
  close_window k window_start window min_signed = do
    k' ← report_offences k window_start window min_signed k.missed_block_bitmaps
    some (
        apply_staged_downtime_params
          (record k' { missed_block_bitmaps = []; first_tracked_heights = [] }))

  -- The end of TrackMissedBlocks: the window closes with its last vote.
  unfoldable pub end_of_votes : ℕ → ℕ → ℕ → dec.LegacyDec → Keeper dec → Option (Keeper dec)
  end_of_votes vote_height window_start window min_signed k =
      if vote_height == window_start + window - 1
      then close_window k window_start window min_signed
      else some k

  -- TrackMissedBlocks for a vote height. A window size of zero stands for every non-positive one.
  unfoldable pub track_at : Keeper dec → ℕ → List VoteInfo → Option (Keeper dec)
  track_at k vote_height votes =
      let window = k.params.signed_blocks_window in
      let min_signed = k.params.min_signed_per_window in
      if vote_height == 0 || window == 0
      then some k
      else let window_start = vote_height / window * window in
        track_votes k window (vote_height - window_start) vote_height votes
        >>= end_of_votes vote_height window_start window min_signed

  -- TrackMissedBlocks in a block of a height, with its votes on the block before.
  unfoldable pub track_missed_blocks : Keeper dec → ℕ → List VoteInfo → Option (Keeper dec)
  track_missed_blocks k block_height votes = track_at k (block_height - 1) votes
