-- ===== src/Consumer/Downtime/Tracking.antt =====
-- The invariant of downtime tracking, and the votes of a block (TrackMissedBlocks of
-- x/vaas/consumer/keeper/downtime.go).
use vaas.Base.{
  ℕ, ◌+◌, ◌-◌, ◌/◌, ◌≤◌, ◌<◌, ◌≡◌, ◌≢◌, refl, ◌∙◌, Bool, true, false, ◌&&◌, Option, none, some,
  List, [], ◌∷◌, arith, ◌==◌, length, length-append, Bool-cases, inl, inr, value_or, is_some,
  nat_eq, All, All-map,
}
use vaas.Base.Store.{Store, get, set, get-set, set-All}
use vaas.Evidence.{DowntimeParams}
use vaas.Evidence.Bitmap.{bitmap_set-lem}
use vaas.Evidence.Decimal.{Decimals}
use vaas.Consumer.State.{Keeper}
use vaas.Consumer.Downtime.Rebase.{length-zeros}
use vaas.Consumer.Downtime.{
  valid_downtime_params, zeros, padded, VoteInfo, is_absent, note_sighting, track_vote, track_votes,
  stage_downtime_params,
}

-- A padded bitmap holds a window.
length-padded :
    (window : ℕ) (stored : Option (List ℕ)) → (window + 7) / 8 ≤ length (padded window stored)
unfolding padded
length-padded window stored =
    let want = (window + 7) / 8 in
    let bitmap = value_or [] stored in
    ground (
      arith,
      length-append bitmap (zeros (want - length bitmap)),
      length-zeros (want - length bitmap),
      absent_is_empty stored,
    )
  where
    absent_is_empty : (o : Option (List ℕ)) → is_some o ≡ false → length (value_or [] o) ≡ 0
    absent_is_empty none h = refl
    absent_is_empty (some b) h = ground (arith, h)

module _ (dec : Decimals) where
  abbrev pub IsNoted : Store ℕ ℕ → ℕ × List ℕ → Type 0
  IsNoted first x = (x.0 ≢ 0) × (is_some (get x.0 first) ≡ true)

  -- Every tracked validator was first seen after the last closed window and by now, and every bitmap
  -- belongs to a tracked one; the parameters in force and the staged ones are valid.
  pub record IsTracking (k : Keeper dec) (closed now : ℕ) : Type 0 where
    pub past : closed ≤ now
    pub in_force : valid_downtime_params dec k.params ≡ true
    pub staged :
        (p : DowntimeParams dec)
        → k.staged_downtime_params ≡ some p
        → valid_downtime_params dec p ≡ true
    pub sighted : (a f : ℕ) → get a k.first_tracked_heights ≡ some f → (closed < f) × (f ≤ now)
    pub noted : All (IsNoted k.first_tracked_heights) k.missed_block_bitmaps

  -- The parameters and the queue are as before.
  pub record SameRest (k k' : Keeper dec) : Type 0 where
    pub same_params : k'.params ≡ k.params
    pub same_staged : k'.staged_downtime_params ≡ k.staged_downtime_params
    pub same_queue : k'.pending_evidence_packets ≡ k.pending_evidence_packets

  SameRest-trans : (k k₁ k' : Keeper dec) → SameRest k k₁ → SameRest k₁ k' → SameRest k k'
  SameRest-trans k k₁ k' s t = record {
    same_params = t.same_params ∙ s.same_params;
    same_staged = t.same_staged ∙ s.same_staged;
    same_queue = t.same_queue ∙ s.same_queue;
  }

  note_sighting-IsTracking :
      (k : Keeper dec) (closed now addr : ℕ)
      → closed < now
      → IsTracking k closed now
      → IsTracking (note_sighting dec k now addr) closed now
        × SameRest k (note_sighting dec k now addr)
        × (is_some (get addr (note_sighting dec k now addr).first_tracked_heights) ≡ true)
  unfolding note_sighting
  note_sighting-IsTracking k closed now addr lt t =
      elim (Bool-cases (is_some (get addr k.first_tracked_heights))) [
        | inl seen ↦
            rw seen (t, record { same_params = refl; same_staged = refl; same_queue = refl }, seen)
        | inr unseen ↦ rw unseen (
          record {
            past = t.past;
            in_force = t.in_force;
            staged = t.staged;
            sighted = λ a f h.
                ground (arith, lt, h, t.sighted a f, get-set a addr now k.first_tracked_heights);
            noted =
                All-map k.missed_block_bitmaps
                  (λ x was.
                    (was.0, ground (arith, was.1, get-set x.0 addr now k.first_tracked_heights)))
                  t.noted;
          },
          record { same_params = refl; same_staged = refl; same_queue = refl },
          ground (arith, get-set addr addr now k.first_tracked_heights),
        )
      ]

  track_vote-IsTracking :
      (k : Keeper dec) (closed now window idx : ℕ) (v : VoteInfo)
      → closed < now
      → idx < window
      → v.address ≢ 0
      → IsTracking k closed now
      → (k' : Keeper dec) × (track_vote dec k window idx now v ≡ some k')
        × IsTracking k' closed now
        × SameRest k k'
  unfolding track_vote
  track_vote-IsTracking k closed now window idx v lt inside named t =
      let (t₁, same, seen) = note_sighting-IsTracking k closed now v.address lt t in
      let k₁ = note_sighting dec k now v.address in
      elim (Bool-cases (is_absent v.block_id_flag)) [
        | inr present ↦ (k₁, ground (arith, present), t₁, same)
        | inl missed ↦
            let stored = get v.address k₁.missed_block_bitmaps in
            let (bitmap, was_set, _, _) =
              bitmap_set-lem (padded window stored) idx
                (omega (arith, inside, length-padded window stored)) in
            (
              record k₁ { missed_block_bitmaps = set v.address bitmap k₁.missed_block_bitmaps },
              ground (arith, missed, was_set),
              record {
                past = t₁.past;
                in_force = t₁.in_force;
                staged = t₁.staged;
                sighted = t₁.sighted;
                noted =
                    set-All (IsNoted k₁.first_tracked_heights) v.address bitmap
                      k₁.missed_block_bitmaps (named, seen) t₁.noted;
              },
              record {
                same_params = same.same_params;
                same_staged = same.same_staged;
                same_queue = same.same_queue;
              },
            )
      ]

  pub track_votes-IsTracking :
      (k : Keeper dec) (closed now window idx : ℕ) (vs : List VoteInfo)
      → closed < now
      → idx < window
      → All (λ v. v.address ≢ 0) vs
      → IsTracking k closed now
      → (k' : Keeper dec) × (track_votes dec k window idx now vs ≡ some k')
        × IsTracking k' closed now
        × SameRest k k'
  unfolding track_votes
  track_votes-IsTracking k closed now window idx [] lt inside named t =
      (k, refl, t, record { same_params = refl; same_staged = refl; same_queue = refl })
  track_votes-IsTracking k closed now window idx (v ∷ vs) lt inside named t =
      let (k₁, run₁, t₁, same₁) =
        track_vote-IsTracking k closed now window idx v lt inside named.0 t in
      let (k', run, t', same) =
        track_votes-IsTracking k₁ closed now window idx vs lt inside named.1 t₁ in
      (k', ground (arith, run₁, run), t', SameRest-trans k k₁ k' same₁ same)

  -- Downtime parameters that arrive from the provider change no parameter in force, are staged only
  -- if they are valid, and leave the tracking in order.
  pub stage_downtime_params-IsTracking :
      (k : Keeper dec) (closed now : ℕ) (p : DowntimeParams dec)
      → IsTracking k closed now
      → IsTracking (stage_downtime_params dec k p) closed now
        × ((stage_downtime_params dec k p).params ≡ k.params)
        × ((stage_downtime_params dec k p).pending_evidence_packets ≡ k.pending_evidence_packets)
  unfolding stage_downtime_params
  stage_downtime_params-IsTracking k closed now p t =
      elim (Bool-cases (valid_downtime_params dec p)) [
        | inr refused ↦ rw refused (t, refl, refl)
        | inl ok ↦ elim (Bool-cases (in_force_already)) [
          | inl same ↦ rw (ok, same) (restaged none (λ q h. ground (arith, h)), refl, refl)
          | inr new ↦ rw (ok, new) (restaged (some p) (λ q h. ground (arith, h, ok)), refl, refl)
        ]
      ]
    where
      in_force_already : Bool
      in_force_already =
          k.params.signed_blocks_window == p.signed_blocks_window
          && dec.equal k.params.min_signed_per_window p.min_signed_per_window

      restaged :
          (o : Option (DowntimeParams dec))
          → ((q : DowntimeParams dec) → o ≡ some q → valid_downtime_params dec q ≡ true)
          → IsTracking (record k { staged_downtime_params = o }) closed now
      restaged o fine = record {
        past = t.past;
        in_force = t.in_force;
        staged = fine;
        sighted = t.sighted;
        noted = t.noted;
      }
