-- ===== src/Consumer/Downtime/Block.antt =====
-- What a block's votes lead to (TrackMissedBlocks of x/vaas/consumer/keeper/downtime.go).
use native.Mathlib.Nat.{mod-lt, mod-eq-sub-div-mul}
use vaas.Base.{
  ℕ, ◌+◌, ◌-◌, ◌*◌, ◌/◌, ◌<◌, ◌≡◌, ◌≢◌, ◌⊎◌, ap, sym, subst, ◌∙◌, true, Option, some, List, arith,
  ◌==◌, Bool-cases, inl, inr, value_or, nat_eq, pair_eq, All,
}
use vaas.Base.Store.{get}
use vaas.Evidence.{DowntimeParams}
use vaas.Evidence.Decimal.{Decimals, DecimalLaws}
use vaas.Consumer.State.{Keeper}
use vaas.Consumer.Queue.{Pending}
use vaas.Consumer.Downtime.{
  valid_downtime_params, VoteInfo, close_window, end_of_votes, track_at, track_missed_blocks,
}
use vaas.Consumer.Downtime.Window.{IsReport}
use vaas.Consumer.Downtime.Tracking.{IsTracking, SameRest, track_votes-IsTracking}
use vaas.Consumer.Downtime.Closing.{IsClosed, close_window-IsClosed}

module _ (dec : Decimals) (laws : DecimalLaws dec) where
  vote_index-lt :
      (vote_height window : ℕ) → 0 < window → vote_height - vote_height / window * window < window
  vote_index-lt vote_height window some_window =
      omega (arith, mod-lt vote_height some_window, mod-eq-sub-div-mul vote_height window)

  valid_window :
      (p : DowntimeParams dec) → valid_downtime_params dec p ≡ true → 0 < p.signed_blocks_window
  unfolding valid_downtime_params
  valid_window p ok = ground (arith, ok)

  IsClosed-same :
      (k k₁ k' : Keeper dec) (above last : ℕ)
      → SameRest dec k k₁
      → IsClosed dec laws k₁ k' above last
      → IsClosed dec laws k k' above last
  IsClosed-same k k₁ k' above last same c = record {
    reports = λ key e h.
        subst
          (λ (q : DowntimeParams dec).
            (get key k.pending_evidence_packets ≡ some e) ⊎ IsReport dec laws above last q e)
          same.same_params
          (subst
            (λ (m : Pending dec). (get key m ≡ some e) ⊎ IsReport dec laws above last k₁.params e)
            same.same_queue (c.reports key e h));
    next_params =
        c.next_params
        ∙ ap (λ (q : DowntimeParams dec). value_or q k₁.staged_downtime_params) same.same_params
        ∙ ap (λ (o : Option (DowntimeParams dec)). value_or k.params o) same.same_staged;
    restarted = c.restarted;
  }

  -- The vote height moves on.
  later-IsTracking :
      (k : Keeper dec) (closed h : ℕ) → IsTracking dec k closed h → IsTracking dec k closed (h + 1)
  later-IsTracking k closed h t = record {
    past = omega (arith, t.past);
    in_force = t.in_force;
    staged = t.staged;
    sighted = λ a f found. ((t.sighted a f found).0, omega (arith, (t.sighted a f found).1));
    noted = t.noted;
  }

  abbrev Outcome : Keeper dec → ℕ → ℕ → Keeper dec → Type 0
  Outcome k closed now k' =
      (IsTracking dec k' closed now × SameRest dec k k') ⊎ IsClosed dec laws k k' closed now

  -- The end of a vote height that is in a window.
  end_of_votes-Outcome :
      (k k₁ : Keeper dec) (closed now ws : ℕ)
      → IsTracking dec k₁ closed now
      → SameRest dec k k₁
      → 0 < ws + k.params.signed_blocks_window
      → (k' : Keeper dec) × (end_of_votes dec now ws k.params.signed_blocks_window
            k.params.min_signed_per_window k₁
          ≡ some k')
        × Outcome k closed now k'
  unfolding end_of_votes
  end_of_votes-Outcome k k₁ closed now ws t same some_window =
      elim (Bool-cases (now == ws + k.params.signed_blocks_window - 1)) [
        | inr inside ↦ (k₁, ground (arith, inside), inl (t, same))
        | inl ends ↦
            let (k', run, c) = close_window-IsClosed dec laws k₁ ws closed now t (
              subst (λ (q : DowntimeParams dec). now + 1 ≡ ws + q.signed_blocks_window)
                (sym same.same_params) (ground (arith, ends, some_window))) in
            (
              k',
              ground (arith, ends)
                  ∙ ap
                      (λ (q : DowntimeParams dec).
                        close_window dec k₁ ws q.signed_blocks_window q.min_signed_per_window)
                      (sym same.same_params)
                  ∙ run,
              inr (IsClosed-same k k₁ k' closed now same c),
            )
      ]

  track_at-Outcome :
      (k : Keeper dec) (closed h : ℕ) (votes : List VoteInfo)
      → IsTracking dec k closed h
      → All (λ v. v.address ≢ 0) votes
      → (k' : Keeper dec) × (track_at dec k (h + 1) votes ≡ some k') × Outcome k closed (h + 1) k'
  unfolding track_at
  track_at-Outcome k closed h votes t named =
      let window = k.params.signed_blocks_window in
      let some_window = valid_window k.params t.in_force in
      let ws = (h + 1) / window * window in
      let (k₁, run, t₁, same) =
        track_votes-IsTracking dec k closed (h + 1) window (h + 1 - ws) votes
          (omega (arith, t.past)) (vote_index-lt (h + 1) window some_window) named
          (later-IsTracking k closed h t) in
      let (k', ended, outcome) =
        end_of_votes-Outcome k k₁ closed (h + 1) ws t₁ same (omega (arith, some_window)) in
      (k', ground (arith, some_window, run, ended), outcome)

  -- In the block after vote height h + 1, with votes of named validators: tracking does not panic.
  -- Either the window goes on, and the parameters, the staged ones and the queue stay as they were;
  -- or it closes at h + 1. Then every packet that the queue gains is well-formed, reports more missed
  -- blocks than the parameters that it echoes allow, echoes the parameters in force, covers a window
  -- that starts above the last closed height and ends at h + 1, so that no two reported windows of a
  -- validator overlap, and only then do the staged parameters come into force. Tracking holds its
  -- invariant.
  pub track_missed_blocks_reports :
      (k : Keeper dec) (closed h : ℕ) (votes : List VoteInfo)
      → IsTracking dec k closed h
      → All (λ v. v.address ≢ 0) votes
      → (k' : Keeper dec) × (track_missed_blocks dec k (h + 2) votes ≡ some k')
        × ((IsTracking dec k' closed (h + 1) × SameRest dec k k')
            ⊎ IsClosed dec laws k k' closed (h + 1))
  unfolding track_missed_blocks
  track_missed_blocks_reports k closed h votes t named =
      let (k', run, outcome) = track_at-Outcome k closed h votes t named in
      (k', ap (λ (n : ℕ). track_at dec k n votes) (omega arith) ∙ run, outcome)
