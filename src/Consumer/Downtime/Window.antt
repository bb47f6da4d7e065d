-- ===== src/Consumer/Downtime/Window.antt =====
-- The packet that a closing window builds is one that the provider accepts as well-formed
-- (closeWindow of x/vaas/consumer/keeper/downtime.go against Validate of x/vaas/types/wire.go).
use vaas.Base.{
  ℕ, ◌+◌, ◌-◌, ◌/◌, ◌≤◌, ◌<◌, ◌≡◌, ◌≢◌, refl, ap, sym, ◌∙◌, subst, true, false, Option, none, some,
  List, arith, length, Bool-cases, inl, inr, nat_eq,
}
use vaas.Base.Int.{pos, leb_ℤ}
use vaas.Base.Store.{get}
use vaas.Evidence.{
  DowntimeParams, EvidencePacketData, max_missed, packet_max_missed, echoed_params, span,
  missed_count, count_from, new_evidence_packet_data, validate, valid,
}
use vaas.Evidence.Decimal.{Decimals, DecimalLaws}
use vaas.Consumer.State.{Keeper}
use vaas.Consumer.Downtime.{
  valid_downtime_params, count_missed_bits, offence, offence_since, first_height,
}
use vaas.Consumer.Downtime.Rebase.{rebase_bitmap-lem}

module _ (dec : Decimals) (laws : DecimalLaws dec) where
  -- A packet is well-formed, its missed blocks exceed the limit of the parameters that it echoes, and
  -- its window lies above one height and ends at another.
  pub record IsReport (above last : ℕ) (p : DowntimeParams dec) (e : EvidencePacketData dec)
      : Type 0 where
    pub well_formed : validate dec e ≡ valid
    pub exceeds : leb_ℤ (pos (missed_count dec e)) (packet_max_missed dec e) ≡ false
    pub echoes : echoed_params dec e ≡ p
    pub starts : above < e.window_start_height
    pub ends : e.window_end_height ≡ last

  -- What valid parameters give.
  in_range :
      (p : DowntimeParams dec)
      → valid_downtime_params dec p ≡ true
      → (p.signed_blocks_window ≢ 0)
        × (dec.is_nil p.min_signed_per_window ≡ false)
        × (dec.lte p.min_signed_per_window dec.zero ≡ false)
        × (dec.gte p.min_signed_per_window dec.one ≡ false)
        × (dec.lt p.min_signed_per_window dec.one ≡ true)
  unfolding valid_downtime_params
  in_range p h = ground (
    arith,
    h,
    laws.is_positive_lte p.min_signed_per_window,
    laws.lt_gte p.min_signed_per_window dec.one,
  )

  -- A count above the limit is positive.
  above_limit :
      (p : DowntimeParams dec) (n : ℕ)
      → dec.lt p.min_signed_per_window dec.one ≡ true
      → leb_ℤ (pos n) (max_missed dec p) ≡ false
      → 0 < n
  unfolding max_missed
  above_limit p n below over =
      let required = laws.ceil_fraction p.min_signed_per_window p.signed_blocks_window below in
      ground (arith, required, over)

  new_evidence_packet_data-IsReport :
      (above first n addr : ℕ) (bitmap : List ℕ) (p : DowntimeParams dec)
      → valid_downtime_params dec p ≡ true
      → addr ≢ 0
      → above < first
      → 0 < n
      → n ≤ p.signed_blocks_window
      → length bitmap ≡ (n + 7) / 8
      → leb_ℤ (pos (count_from bitmap 0 n)) (max_missed dec p) ≡ false
      → IsReport above (first + n - 1) p (
          new_evidence_packet_data dec addr first bitmap n p.signed_blocks_window
            p.min_signed_per_window)
  unfolding new_evidence_packet_data validate span missed_count packet_max_missed echoed_params
  new_evidence_packet_data-IsReport above first n addr bitmap p ok named starts some_span fits len
        over =
      let (window, not_nil, positive, below, lt_one) = in_range p ok in
      let whole : first + n - 1 + 1 - first ≡ n = omega (arith, some_span) in
      let counted = ap (λ (m : ℕ). count_from bitmap 0 m) whole in
      record {
        well_formed = ground (
          arith,
          window,
          not_nil,
          positive,
          below,
          named,
          starts,
          some_span,
          fits,
          len,
          whole,
          counted,
          above_limit p (count_from bitmap 0 n) lt_one over,
        );
        exceeds = ground (arith, over, counted);
        echoes = refl;
        starts = starts;
        ends = refl;
      }

  offence_since-IsReport :
      (first window_start : ℕ) (p : DowntimeParams dec) (addr : ℕ) (bitmap : List ℕ) (above : ℕ)
      → valid_downtime_params dec p ≡ true
      → addr ≢ 0
      → above < first
      → window_start ≤ first
      → first < window_start + p.signed_blocks_window
      → (r : Option (EvidencePacketData dec)) × (offence_since dec first window_start
            p.signed_blocks_window p.min_signed_per_window addr bitmap
          ≡ some r)
        × ((e : EvidencePacketData dec)
            → r ≡ some e
            → IsReport above (window_start + p.signed_blocks_window - 1) p e)
  unfolding offence_since count_missed_bits
  offence_since-IsReport first ws p addr bitmap above ok named starts le inside =
      let w = p.signed_blocks_window in
      let n = ws + w - first in
      let (rebased, run, len, _, counted) = rebase_bitmap-lem bitmap (first - ws) n in
      let same : w - (first - ws) ≡ n = omega (arith, le, inside) in
      let missed = ap (λ (m : ℕ). count_from bitmap (first - ws) m) same in
      elim (Bool-cases
        (leb_ℤ (pos (count_from bitmap (first - ws) (w - (first - ws)))) (max_missed dec p))) [
          | inl within ↦ (none, ground (arith, within), λ e h. ground (arith, h))
          | inr over ↦
              let packet =
                new_evidence_packet_data dec addr first rebased n w p.min_signed_per_window in
              let last : first + n - 1 ≡ ws + w - 1 = omega (arith, inside) in
              let report =
                new_evidence_packet_data-IsReport above first n addr rebased p ok named starts
                  (omega (arith, inside)) (omega (arith, le, inside)) len
                  (ap (λ (m : ℕ). leb_ℤ (pos m) (max_missed dec p)) (counted ∙ sym missed)
                    ∙ over) in
              (
                some packet,
                ground (arith, over, run),
                λ e h.
                    let same_packet : packet ≡ e = ground (arith, h) in
                    subst (λ (x : EvidencePacketData dec). IsReport above (ws + w - 1) p x)
                      same_packet (subst (λ (m : ℕ). IsReport above m p packet) last report),
              )
        ]

  -- The offence of a validator that has been tracked since a height in or before the window.
  pub offence-IsReport :
      (k : Keeper dec) (window_start : ℕ) (p : DowntimeParams dec) (addr : ℕ) (bitmap : List ℕ)
      (above f : ℕ)
      → valid_downtime_params dec p ≡ true
      → addr ≢ 0
      → get addr k.first_tracked_heights ≡ some f
      → above < f
      → f < window_start + p.signed_blocks_window
      → (r : Option (EvidencePacketData dec)) × (offence dec k window_start p.signed_blocks_window
            p.min_signed_per_window addr bitmap
          ≡ some r)
        × ((e : EvidencePacketData dec)
            → r ≡ some e
            → IsReport above (window_start + p.signed_blocks_window - 1) p e)
  unfolding offence first_height
  offence-IsReport k ws p addr bitmap above f ok named found starts inside =
      let some_window = (in_range p ok).0 in
      offence_since-IsReport _ ws p addr bitmap above ok named (ground (arith, found, starts))
        (ground arith) (ground (arith, found, inside, some_window))
