-- ===== src/Provider/Downtime/Once.antt =====
-- No downtime window is accepted twice for a validator of a consumer, whatever is accepted and
-- pruned between (HandleConsumerEvidencePacket of x/vaas/provider/keeper/downtime.go and
-- PruneAcceptedDowntimeWindows of downtime_slash.go).
use vaas.Base.{
  ℕ, ◌≤◌, ◌≡◌, ◌≢◌, refl, ap, sym, subst, ◌∙◌, false, ◌&&◌, some, List, [], ◌∷◌, ltb, ◌==◌, nat_eq,
  pair_eq, pair_beq, pair_beq_iff, arith, Bool-cases, Option-cases, inl, inr,
}
use vaas.Base.Store.{Store, get, get-set, get-remove}
use vaas.Evidence.{EvidencePacketData}
use vaas.Evidence.Decimal.{Decimals}
use vaas.Provider.Downtime.{
  State, accepted, Chain, WindowKey, AcceptedDowntimeWindow, get_provider_addr_from_consumer_addr,
  handle_consumer_evidence_packet,
}
use vaas.Provider.Downtime.Prune.{
  raise_floor, has_lower, prune_window, prune_windows, prune_accepted_downtime_windows,
}
use vaas.Provider.Downtime.Accept.{
  IsAccepted, intersects_accepted-found, handle_consumer_evidence_packet-IsAccepted,
}

-- The raised floor is at least the window's end and what it was.
raise_floor-at :
    (pair : ℕ × ℕ) (end' : ℕ) (m : Store (ℕ × ℕ) ℕ)
    → (floor : ℕ) × (get pair (raise_floor pair end' m) ≡ some floor)
      × (end' ≤ floor)
      × ((f : ℕ) → get pair m ≡ some f → f ≤ floor)
unfolding raise_floor
raise_floor-at pair end' m = elim (Option-cases (get pair m)) [
  | inl absent ↦ (
    end',
    ground (arith, absent, get-set pair pair end' m),
    omega arith,
    λ f h. ground (arith, absent, h),
  )
  | inr (floor, found) ↦ elim (Bool-cases (ltb floor end')) [
    | inl lower ↦ (
      end',
      ground (arith, found, lower, get-set pair pair end' m),
      omega arith,
      λ f h. ground (arith, found, lower, h),
    )
    | inr higher ↦ (
      floor,
      ground (arith, found, higher),
      ground (arith, higher),
      λ f h. ground (arith, found, h),
    )
  ]
]

raise_floor-grows :
    (pair : ℕ × ℕ) (end' : ℕ) (m : Store (ℕ × ℕ) ℕ) (j : ℕ × ℕ) (floor : ℕ)
    → get j m ≡ some floor
    → (floor' : ℕ) × (get j (raise_floor pair end' m) ≡ some floor') × (floor ≤ floor')
raise_floor-grows pair end' m j floor h = elim (Bool-cases (pair_beq nat_eq nat_eq pair j)) [
  | inl here ↦
      let same : pair ≡ j = (pair_beq_iff nat_eq nat_eq pair j).0 here in
      let (floor', found, _, kept) = raise_floor-at pair end' m in
      (
        floor',
        subst (λ (i : ℕ × ℕ). get i (raise_floor pair end' m) ≡ some floor') same found,
        kept floor (subst (λ (i : ℕ × ℕ). get i m ≡ some floor) (sym same) h),
      )
  | inr other ↦ (floor, elsewhere other, omega arith)
]
  where
    elsewhere : pair_beq nat_eq nat_eq pair j ≡ false → get j (raise_floor pair end' m) ≡ some floor
    elsewhere other = unfold raise_floor in ground (arith, other, h, get-set j pair end' m)

module _ (dec : Decimals) where
  -- Evidence of any consumer at any time, and prunings.
  pub data Steps : State dec → State dec → Type 0 where
    done : {s : State dec} → Steps s s
    handled :
        {s s₁ s' : State dec} (chain : Chain) (now consumer : ℕ) (e : EvidencePacketData dec)
        → handle_consumer_evidence_packet dec s chain now consumer e ≡ accepted s₁
        → Steps s₁ s'
        → Steps s s'
    pruned :
        {s s' : State dec} (now : ℕ)
        → Steps (prune_accepted_downtime_windows dec s now) s'
        → Steps s s'

  module _ (c a start last : ℕ) (proper : start ≤ last) where
    -- A window of a pair is vouched for: its record is retained, or the pair's floor is not below it.
    data IsGuarded (s : State dec) : Type 0 where
      retained :
          (w : AcceptedDowntimeWindow)
          → get (c, (a, last)) s.accepted_downtime_windows ≡ some w
          → w.window_start ≡ start
          → IsGuarded s
      floored :
          (floor : ℕ)
          → get (c, a) s.downtime_window_floors ≡ some floor
          → last ≤ floor
          → IsGuarded s

    -- Evidence that meets a guarded window is not accepted.
    guarded_refuses :
        (s : State dec) (now : ℕ) (e : EvidencePacketData dec) (s' : State dec)
        → IsGuarded s
        → IsAccepted dec s now c a e s'
        → e.window_start_height ≤ last
        → start ≤ e.window_end_height
        → ⊥
    guarded_refuses s now e s' (retained w found same) acc before after = ground (
      arith,
      acc.fresh,
      intersects_accepted-found c a e.window_start_height e.window_end_height
          s.accepted_downtime_windows last w found before (omega (arith, same, after)),
    )
    guarded_refuses s now e s' (floored floor found le) acc before after =
        omega (arith, acc.above floor found, le, before)

    accepted-IsGuarded :
        (s : State dec) (now c' a' : ℕ) (e : EvidencePacketData dec) (s' : State dec)
        → IsAccepted dec s now c' a' e s'
        → e.window_start_height ≤ e.window_end_height
        → IsGuarded s
        → IsGuarded s'
    accepted-IsGuarded s now c' a' e s' acc le (floored floor found above) =
        floored floor (ap (λ (m : Store (ℕ × ℕ) ℕ). get (c, a) m) acc.same_floors ∙ found) above
    accepted-IsGuarded s now c' a' e s' acc le (retained w found same) =
        elim (Bool-cases (c' == c && (a' == a && e.window_end_height == last))) [
          | inl again ↦
              let old_key : WindowKey = (c, (a, last)) in
              let new_key : WindowKey = (c', (a', e.window_end_height)) in
              let here : old_key ≡ new_key = ground (arith, again) in
              let old : get new_key s.accepted_downtime_windows ≡ some w =
                subst (λ (key : WindowKey). get key s.accepted_downtime_windows ≡ some w) here
                  found in
              ground (
                arith,
                acc.fresh,
                intersects_accepted-found c' a' e.window_start_height e.window_end_height
                    s.accepted_downtime_windows e.window_end_height w old le
                    (ground (arith, same, proper, again)),
              )
          | inr other ↦
              retained w
                (ap (λ (m : Store WindowKey AcceptedDowntimeWindow). get (c, (a, last)) m)
                    acc.stored
                  ∙ ground (
                    arith,
                    other,
                    found,
                    get-set (c, (a, last)) (c', (a', e.window_end_height))
                        (record { window_start = e.window_start_height; accepted_at = now })
                        s.accepted_downtime_windows,
                  ))
                same
        ]

    prune_window-IsGuarded :
        (s : State dec) (key : WindowKey) → IsGuarded s → IsGuarded (prune_window dec s key)
    unfolding prune_window
    prune_window-IsGuarded s key g = elim (Bool-cases (has_lower key s.accepted_downtime_windows)) [
      | inl held ↦ rw held g
      | inr free ↦ rw free (elim g [
        | floored floor found above ↦
            let (floor', found', le) =
              raise_floor-grows (key.0, key.1.0) key.1.1 s.downtime_window_floors (c, a) floor
                found in
            floored floor' found' (omega (arith, above, le))
        | retained w found same ↦
            elim (Bool-cases (key.0 == c && (key.1.0 == a && key.1.1 == last))) [
              | inl gone ↦
                  let (floor, found', le, _) =
                    raise_floor-at (key.0, key.1.0) key.1.1 s.downtime_window_floors in
                  let pair : (key.0, key.1.0) ≡ (c, a) = ground (arith, gone) in
                  floored floor
                    (ap
                        (λ (j : ℕ × ℕ).
                          get j (raise_floor (key.0, key.1.0) key.1.1 s.downtime_window_floors))
                        (sym pair)
                      ∙ found')
                    (ground (arith, gone, le))
              | inr other ↦
                  retained w
                    (ground (
                      arith,
                      other,
                      found,
                      get-remove (c, (a, last)) key s.accepted_downtime_windows,
                    ))
                    same
            ]
      ])
    ]

    prune_windows-IsGuarded :
        (s : State dec) (keys : List WindowKey) → IsGuarded s → IsGuarded (prune_windows dec s keys)
    unfolding prune_windows
    prune_windows-IsGuarded s [] g = g
    prune_windows-IsGuarded s (key ∷ keys) g =
        prune_windows-IsGuarded (prune_window dec s key) keys (prune_window-IsGuarded s key g)

    Steps-IsGuarded : (s s' : State dec) → Steps s s' → IsGuarded s → IsGuarded s'
    Steps-IsGuarded s s' done g = g
    Steps-IsGuarded s s' (handled {s₁ = s₁} chain now c' e h rest) g =
        let (acc, le) = handle_consumer_evidence_packet-IsAccepted dec s chain now c' e s₁ h in
        Steps-IsGuarded s₁ s' rest (accepted-IsGuarded s now c' _ e s₁ acc le g)
    Steps-IsGuarded s s' (pruned now rest) g =
        Steps-IsGuarded (prune_accepted_downtime_windows dec s now) s' rest
          (unfold prune_accepted_downtime_windows in prune_windows-IsGuarded s _ g)

  -- Once a consumer's evidence about a window has been accepted for a validator, no evidence about a
  -- window that meets it is accepted for the same validator of the same consumer, after any further
  -- evidence of any consumer and any prunings, whatever the parameters: it is not accepted even when
  -- its record has been pruned.
  pub accepted_once :
      (s s₁ s₂ : State dec) (chain chain' : Chain) (now now' c : ℕ) (e e' : EvidencePacketData dec)
      (s' : State dec)
      → handle_consumer_evidence_packet dec s chain now c e ≡ accepted s₁
      → Steps s₁ s₂
      → get_provider_addr_from_consumer_addr dec s₂ c e'.validator_addr
        ≡ get_provider_addr_from_consumer_addr dec s c e.validator_addr
      → e'.window_start_height ≤ e.window_end_height
      → e.window_start_height ≤ e'.window_end_height
      → handle_consumer_evidence_packet dec s₂ chain' now' c e' ≢ accepted s'
  accepted_once s s₁ s₂ chain chain' now now' c e e' s' first steps same before after again =
      let (acc, proper) = handle_consumer_evidence_packet-IsAccepted dec s chain now c e s₁ first in
      let a = get_provider_addr_from_consumer_addr dec s c e.validator_addr in
      let window : AcceptedDowntimeWindow = record {
        window_start = e.window_start_height;
        accepted_at = now;
      } in
      let key : WindowKey = (c, (a, e.window_end_height)) in
      let kept =
        ap (λ (m : Store WindowKey AcceptedDowntimeWindow). get key m) acc.stored
        ∙ ground (arith, get-set key key window s.accepted_downtime_windows) in
      let guarded =
        Steps-IsGuarded c a e.window_start_height e.window_end_height proper s₁ s₂ steps
          (retained window kept refl) in
      let (acc', _) = handle_consumer_evidence_packet-IsAccepted dec s₂ chain' now' c e' s' again in
      guarded_refuses c a e.window_start_height e.window_end_height proper s₂ now' e' s' guarded
        (subst (λ (b : ℕ). IsAccepted dec s₂ now' c b e' s') same acc') before after
