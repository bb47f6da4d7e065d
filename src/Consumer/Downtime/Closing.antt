-- ===== src/Consumer/Downtime/Closing.antt =====
-- What a closing window reports: well-formed evidence above the limit, from heights above the last
-- closed one (closeWindow of x/vaas/consumer/keeper/downtime.go).
use vaas.Base.{
  ℕ, ◌+◌, ◌-◌, ◌<◌, ◌≡◌, ◌⊎◌, refl, ap, sym, subst, ◌∙◌, true, Option, none, some, List, [], ◌∷◌,
  arith, Option-cases, inl, inr, value_or, nat_eq, pair_eq, ◌>>=◌, All,
}
use vaas.Base.Store.{Store, get}
use vaas.Evidence.{DowntimeParams, EvidencePacketData}
use vaas.Evidence.Decimal.{Decimals, DecimalLaws}
use vaas.Consumer.State.{Keeper}
use vaas.Consumer.Queue.{Pending, queue_evidence_packet, evict_oldest_pending_evidence}
use vaas.Consumer.Queue.Entries.{queue_evidence_packet-entry}
use vaas.Consumer.Downtime.{
  valid_downtime_params, report_offences, close_window, apply_staged_downtime_params,
}
use vaas.Consumer.Downtime.Window.{IsReport, offence-IsReport}
use vaas.Consumer.Downtime.Tracking.{IsNoted, IsTracking}

module _ (dec : Decimals) (laws : DecimalLaws dec) where
  -- Every packet in a queue was in another one, or is a report.
  abbrev pub OnlyReports : ℕ → ℕ → DowntimeParams dec → Keeper dec → Keeper dec → Type 0
  OnlyReports above last p k k' =
      (key : ℕ × ℕ) (e : EvidencePacketData dec)
      → get key k'.pending_evidence_packets ≡ some e
      → (get key k.pending_evidence_packets ≡ some e) ⊎ IsReport dec laws above last p e

  -- Nothing but the queue has changed.
  record SameTracking (k k' : Keeper dec) : Type 0 where
    same_params : k'.params ≡ k.params
    same_staged : k'.staged_downtime_params ≡ k.staged_downtime_params
    same_first : k'.first_tracked_heights ≡ k.first_tracked_heights

  -- The keeper after the offence of one validator.
  abbrev reported : Keeper dec → Option (EvidencePacketData dec) → Keeper dec
  reported k found = elim found [ none ↦ k | some packet ↦ queue_evidence_packet dec k packet ]

  reported-lem :
      (k : Keeper dec) (r : Option (EvidencePacketData dec)) (above last : ℕ)
      (p : DowntimeParams dec)
      → ((e : EvidencePacketData dec) → r ≡ some e → IsReport dec laws above last p e)
      → SameTracking k (reported k r) × OnlyReports above last p k (reported k r)
  unfolding queue_evidence_packet evict_oldest_pending_evidence
  reported-lem k none above last p sound =
      (record { same_params = refl; same_staged = refl; same_first = refl }, λ key e h. inl h)
  reported-lem k (some packet) above last p sound = (
    record { same_params = refl; same_staged = refl; same_first = refl },
    λ key e h. elim (queue_evidence_packet-entry dec k packet key e h) [
      | inl was ↦ inl was
      | inr same ↦ inr (sound e (ap (λ (x : EvidencePacketData dec). some x) same))
    ],
  )

  module _ (window_start above : ℕ) (p : DowntimeParams dec) where
    abbrev last_height : ℕ
    last_height = window_start + p.signed_blocks_window - 1

    abbrev InWindow : Store ℕ ℕ → Type 0
    InWindow first =
        (a f : ℕ) → get a first ≡ some f → (above < f) × (f < window_start + p.signed_blocks_window)

    tracked_since :
        (first : Store ℕ ℕ) (x : ℕ × List ℕ)
        → IsNoted dec first x
        → (f : ℕ) × (get x.0 first ≡ some f)
    tracked_since first x noted = elim (Option-cases (get x.0 first)) [
      | inl unseen ↦ ground (arith, unseen, noted.1)
      | inr found ↦ found
    ]

    report_offences-lem :
        (k : Keeper dec) (xs : List (ℕ × List ℕ))
        → valid_downtime_params dec p ≡ true
        → InWindow k.first_tracked_heights
        → All (IsNoted dec k.first_tracked_heights) xs
        → (k' : Keeper dec) × (report_offences dec k window_start p.signed_blocks_window
              p.min_signed_per_window xs
            ≡ some k')
          × SameTracking k k'
          × OnlyReports above last_height p k k'
    unfolding report_offences
    report_offences-lem k [] ok inside noted = (
      k,
      refl,
      record { same_params = refl; same_staged = refl; same_first = refl },
      λ key e h. inl h,
    )
    report_offences-lem k (x ∷ xs) ok inside noted =
        let (f, found) = tracked_since k.first_tracked_heights x noted.0 in
        let (starts, ends) = inside x.0 f found in
        let (r, made, sound) =
          offence-IsReport dec laws k window_start p x.0 x.1 above f ok noted.0.0 found starts
            ends in
        let (same₁, only₁) = reported-lem k r above last_height p sound in
        let k₁ = reported k r in
        let (k', run, same, only) =
          report_offences-lem k₁ xs ok (subst InWindow (sym same₁.same_first) inside) (
            subst (λ (first : Store ℕ ℕ). All (IsNoted dec first) xs) (sym same₁.same_first)
              noted.1) in
        (
          k',
          ap
                (λ (o : Option (Option (EvidencePacketData dec))). o >>= λ found.
                  report_offences dec (reported k found) window_start p.signed_blocks_window
                    p.min_signed_per_window xs)
                made
              ∙ run,
          record {
            same_params = same.same_params ∙ same₁.same_params;
            same_staged = same.same_staged ∙ same₁.same_staged;
            same_first = same.same_first ∙ same₁.same_first;
          },
          λ key e h. elim (only key e h) [ inl was ↦ only₁ key e was | inr new ↦ inr new ],
        )

  -- What a closed window leaves.
  pub record IsClosed (k k' : Keeper dec) (above last : ℕ) : Type 0 where
    pub reports : OnlyReports above last k.params k k'
    pub next_params : k'.params ≡ value_or k.params k.staged_downtime_params
    pub restarted : IsTracking dec k' last last

  -- A keeper that tracks nobody and has nothing staged.
  fresh-IsTracking :
      (k : Keeper dec) (last : ℕ)
      → valid_downtime_params dec k.params ≡ true
      → k.staged_downtime_params ≡ none
      → k.first_tracked_heights ≡ []
      → k.missed_block_bitmaps ≡ []
      → IsTracking dec k last last
  unfolding get
  fresh-IsTracking k last ok unstaged no_first no_bitmaps = record {
    past = omega arith;
    in_force = ok;
    staged = λ p h. ground (arith, unstaged, h);
    sighted = λ a f h. ground (arith, ap (λ (m : Store ℕ ℕ). get a m) no_first, h);
    noted =
        subst (λ (m : Store ℕ (List ℕ)). All (IsNoted dec k.first_tracked_heights) m)
          (sym no_bitmaps) tt;
  }

  -- Applying the staged parameters to a keeper that tracks nobody.
  apply_staged-IsTracking :
      (k : Keeper dec) (last : ℕ)
      → valid_downtime_params dec k.params ≡ true
      → ((p : DowntimeParams dec)
          → k.staged_downtime_params ≡ some p
          → valid_downtime_params dec p ≡ true)
      → k.first_tracked_heights ≡ []
      → k.missed_block_bitmaps ≡ []
      → IsTracking dec (apply_staged_downtime_params dec k) last last
        × ((apply_staged_downtime_params dec k).params ≡ value_or k.params k.staged_downtime_params)
        × ((apply_staged_downtime_params dec k).pending_evidence_packets
            ≡ k.pending_evidence_packets)
  unfolding apply_staged_downtime_params
  apply_staged-IsTracking k last ok staged_ok no_first no_bitmaps =
      elim (Option-cases k.staged_downtime_params) [
        | inl unstaged ↦ rw unstaged (
          fresh-IsTracking (record k { staged_downtime_params = none }) last ok refl no_first
              no_bitmaps,
          refl,
          refl,
        )
        | inr (p, staged) ↦ rw staged (
          fresh-IsTracking (record k { params = p; staged_downtime_params = none }) last
              (staged_ok p staged) refl no_first no_bitmaps,
          refl,
          refl,
        )
      ]

  -- The close of a window whose validators were all first seen in or before it.
  pub close_window-IsClosed :
      (k : Keeper dec) (window_start above last : ℕ)
      → IsTracking dec k above last
      → last + 1 ≡ window_start + k.params.signed_blocks_window
      → (k' : Keeper dec) × (close_window dec k window_start k.params.signed_blocks_window
            k.params.min_signed_per_window
          ≡ some k')
        × IsClosed k k' above last
  unfolding close_window
  close_window-IsClosed k ws above last t ends =
      let p = k.params in
      let (k₁, run, same, only) =
        report_offences-lem ws above p k k.missed_block_bitmaps t.in_force
          (λ a f h. ((t.sighted a f h).0, omega (arith, (t.sighted a f h).1, ends))) t.noted in
      let k₂ = record k₁ { missed_block_bitmaps = []; first_tracked_heights = [] } in
      let (restarted, next, queue) =
        apply_staged-IsTracking k₂ last
          (subst (λ (q : DowntimeParams dec). valid_downtime_params dec q ≡ true)
            (sym same.same_params) t.in_force)
          (λ q h. t.staged q (sym same.same_staged ∙ h)) refl refl in
      (
        apply_staged_downtime_params dec k₂,
        ground (arith, run),
        record {
          reports = λ key e h.
              subst
                (λ (m : ℕ).
                  (get key k.pending_evidence_packets ≡ some e) ⊎ IsReport dec laws above m p e)
                (omega (arith, ends))
                (only key e (sym (ap (λ (m : Pending dec). get key m) queue) ∙ h));
          next_params =
              next
              ∙ ap (λ (q : DowntimeParams dec). value_or q k₁.staged_downtime_params)
                  same.same_params
              ∙ ap (λ (o : Option (DowntimeParams dec)). value_or p o) same.same_staged;
          restarted = restarted;
        },
      )
