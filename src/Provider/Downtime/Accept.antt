-- ===== src/Provider/Downtime/Accept.antt =====
-- No downtime window is accepted twice for a validator of a consumer, whatever is accepted and
-- pruned between (HandleConsumerEvidencePacket of x/vaas/provider/keeper/downtime.go and
-- PruneAcceptedDowntimeWindows of downtime_slash.go).
use vaas.Base.{
  ℕ, ◌≤◌, ◌<◌, ◌≡◌, true, false, ◌&&◌, some, [], ◌∷◌, ◌==◌, nat_eq, pair_eq, arith, Bool-cases,
  Option-cases, inl, inr,
}
use vaas.Base.Store.{Store, get, set}
use vaas.Evidence.{EvidencePacketData, validate}
use vaas.Evidence.Decimal.{Decimals}
use vaas.Provider.Downtime.{
  State, accepted, Chain, WindowKey, AcceptedDowntimeWindow, intersects_accepted,
  get_provider_addr_from_consumer_addr, accused_consumer_validator_addr, window_end_timestamp,
  accept, check_window, check_age, check_grace, check_accused, handle_consumer_downtime,
  handle_consumer_evidence_packet,
}

-- An accepted window that a new one meets is found.
pub intersects_accepted-found :
    (c a start end' : ℕ) (m : Store WindowKey AcceptedDowntimeWindow) (last : ℕ)
    (w : AcceptedDowntimeWindow)
    → get (c, (a, last)) m ≡ some w
    → start ≤ last
    → w.window_start ≤ end'
    → intersects_accepted c a start end' m ≡ true
unfolding intersects_accepted get
intersects_accepted-found c a start end' [] last w found before after = ground (arith, found)
intersects_accepted-found c a start end' (x ∷ m) last w found before after =
    elim (Bool-cases (x.0.0 == c && (x.0.1.0 == a && x.0.1.1 == last))) [
      | inl here ↦ ground (arith, here, found, before, after)
      | inr behind ↦ ground (
        arith,
        behind,
        intersects_accepted-found c a start end' m last w (ground (arith, behind, found)) before
            after,
      )
    ]

module _ (dec : Decimals) where
  -- What the acceptance of a packet for a pair entails.
  pub record IsAccepted (s : State dec) (now c a : ℕ) (e : EvidencePacketData dec) (s' : State dec)
      : Type 0 where
    pub above :
        (floor : ℕ)
        → get (c, a) s.downtime_window_floors ≡ some floor
        → floor < e.window_start_height
    pub fresh :
        intersects_accepted c a e.window_start_height e.window_end_height
          s.accepted_downtime_windows
        ≡ false
    pub stored :
        s'.accepted_downtime_windows
        ≡ set
            (c, (a, e.window_end_height))
            (record { window_start = e.window_start_height; accepted_at = now })
            s.accepted_downtime_windows
    pub same_floors : s'.downtime_window_floors ≡ s.downtime_window_floors

  check_window-IsAccepted :
      (s : State dec) (chain : Chain) (now c : ℕ) (e : EvidencePacketData dec)
      (a set_addr window_end_time : ℕ) (s' : State dec)
      → check_window dec s chain now c e a set_addr window_end_time ≡ accepted s'
      → IsAccepted s now c a e s'
  unfolding check_window accept
  check_window-IsAccepted s chain now c e a set_addr time s' h = record {
    above = λ floor found. ground (arith, h, found);
    fresh = ground (arith, h);
    stored = ground (arith, h);
    same_floors = ground (arith, h);
  }

  check_age-check_window :
      (s : State dec) (chain : Chain) (now c : ℕ) (e : EvidencePacketData dec)
      (a set_addr client window_end_time : ℕ) (s' : State dec)
      → check_age dec s chain now c e a set_addr client window_end_time ≡ accepted s'
      → check_window dec s chain now c e a set_addr window_end_time ≡ accepted s'
  unfolding check_age
  check_age-check_window s chain now c e a set_addr client time s' h = ground (arith, h)

  check_grace-check_window :
      (s : State dec) (chain : Chain) (now c : ℕ) (e : EvidencePacketData dec)
      (a set_addr client window_end_time : ℕ) (s' : State dec)
      → check_grace dec s chain now c e a set_addr client window_end_time ≡ accepted s'
      → check_window dec s chain now c e a set_addr window_end_time ≡ accepted s'
  unfolding check_grace
  check_grace-check_window s chain now c e a set_addr client time s' h =
      check_age-check_window s chain now c e a set_addr client time s' (ground (arith, h))

  handle_consumer_downtime-IsAccepted :
      (s : State dec) (chain : Chain) (now c : ℕ) (e : EvidencePacketData dec) (s' : State dec)
      → handle_consumer_downtime dec s chain now c e ≡ accepted s'
      → IsAccepted s now c (get_provider_addr_from_consumer_addr dec s c e.validator_addr) e s'
  unfolding handle_consumer_downtime check_accused
  handle_consumer_downtime-IsAccepted s chain now c e s' h =
      let a = get_provider_addr_from_consumer_addr dec s c e.validator_addr in
      let set_addr = (accused_consumer_validator_addr dec s chain c a).0 in
      elim (Option-cases (get c s.consumer_clients)) [
        | inl no_client ↦ ground (arith, no_client, h)
        | inr (client, found) ↦
            elim (Option-cases (window_end_timestamp chain client e.window_end_height)) [
              | inl no_anchor ↦ ground (arith, found, no_anchor, h)
              | inr (time, anchored) ↦ check_window-IsAccepted s chain now c e a set_addr time s' (
                  check_grace-check_window s chain now c e a set_addr client time s'
                    (ground (arith, found, anchored, h)))
            ]
      ]

  pub handle_consumer_evidence_packet-IsAccepted :
      (s : State dec) (chain : Chain) (now c : ℕ) (e : EvidencePacketData dec) (s' : State dec)
      → handle_consumer_evidence_packet dec s chain now c e ≡ accepted s'
      → IsAccepted s now c (get_provider_addr_from_consumer_addr dec s c e.validator_addr) e s'
        × (e.window_start_height ≤ e.window_end_height)
  unfolding handle_consumer_evidence_packet validate
  handle_consumer_evidence_packet-IsAccepted s chain now c e s' h = (
    handle_consumer_downtime-IsAccepted s chain now c e s' (ground (arith, h)),
    ground (arith, h),
  )
