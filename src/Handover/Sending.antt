-- ===== src/Handover/Sending.antt =====
-- The sending of waiting packets keeps the protocol's invariant.
use vaas.Base.{
  ℕ, ◌-◌, ◌<◌, ◌≤◌, sym, ◌∙◌, subst, Option, List, ◌++◌, arith, inl, inr, ◌⊎◌, All, All-map,
  All-append, All-append_left,
}
use vaas.Evidence.Decimal.{Decimals}
use vaas.Packet.{ValidatorSetChangePacketData}
use vaas.ValidatorSet.{ConsensusValidator}
use vaas.Provider.Relay.Queueing.{View}
use vaas.Provider.Relay.Sent.{IsSent}
use vaas.Handover.Protocol.{IsGood, IsInStep}

-- What holds of all that waits holds of what is left of it.
left_All :
    {dec : Decimals} (v v' : View dec) (out : List (ValidatorSetChangePacketData dec))
    (P : ValidatorSetChangePacketData dec → Type 0)
    → IsSent v v' out
    → All P v.pending
    → All P v'.pending
left_All v v' out P s all = elim s.left [
  | inl same ↦ subst (All P) (sym same) all
  | inr (gone, _) ↦ subst (All P) (sym gone) tt
]

-- What waited is below an id that is above what is left and what was sent.
waiting_All :
    {dec : Decimals} (v v' : View dec) (out : List (ValidatorSetChangePacketData dec)) (j : ℕ)
    → IsSent v v' out
    → v'.sent ≤ j
    → All (λ p. p.valset_update_id ≤ j) v'.pending
    → All (λ p. p.valset_update_id ≤ j) v.pending
waiting_All {dec} v v' out j s sent_le waits =
    let P = λ (p : ValidatorSetChangePacketData dec). p.valset_update_id ≤ j in
    elim s.left [
      | inl same ↦ subst (All P) same waits
      | inr (_, empty) ↦ subst (All P) (sym s.prefix) (
          All-append P out s.rest (All-map out (λ p le. omega (arith, le, sent_le)) s.covered)
            (subst (All P) (sym empty) tt))
    ]

module _ {dec : Decimals} (vid h : ℕ) (powers : ℕ → Option ℕ)
    (sent : List (ValidatorSetChangePacketData dec)) (acks : List ℕ)
    (target : ℕ → List ConsensusValidator) where
  -- What waits or was sent is still good when a part of what waits is sent.
  moved-IsGood :
      (v v' : View dec) (out : List (ValidatorSetChangePacketData dec))
      (p : ValidatorSetChangePacketData dec)
      → IsSent v v' out
      → IsGood target h v.pending sent p
      → IsGood target h v'.pending (sent ++ out) p
  moved-IsGood v v' out p s g = record {
    nonzero = g.nonzero;
    snapshot = g.snapshot;
    diff = g.diff;
    base = g.base;
    no_gap_sent = λ e.
        let P = λ (r : ValidatorSetChangePacketData dec).
          (r.valset_update_id ≤ h) ⊎ (p.valset_update_id ≤ r.valset_update_id) in
        All-append P sent out (g.no_gap_sent e)
          (All-append_left P out s.rest (subst (All P) s.prefix (g.no_gap_pending e)));
    no_gap_pending = λ e.
        let P = λ (r : ValidatorSetChangePacketData dec).
          (r.valset_update_id ≤ h) ⊎ (p.valset_update_id ≤ r.valset_update_id) in
        left_All v v' out P s (g.no_gap_pending e);
  }

  pub sent-IsInStep :
      (v v' : View dec) (out : List (ValidatorSetChangePacketData dec))
      → IsSent v v' out
      → IsInStep v vid h powers sent acks target
      → IsInStep v' vid h powers (sent ++ out) acks target
  sent-IsInStep v v' out s inv =
      let good = λ (p : ValidatorSetChangePacketData dec) (g : IsGood target h v.pending sent p).
        moved-IsGood v v' out p s g in
      let moved = All-map v.pending good inv.good_pending in
      let G = IsGood target h v'.pending (sent ++ out) in
      record {
        agrees = inv.agrees;
        distinct = inv.distinct;
        positive = inv.positive;
        current = λ j waits sent_le lt.
            inv.current j (waiting_All v v' out j s sent_le waits) (omega (arith, s.grows, sent_le))
              lt
            ∙ sym s.same_val_set;
        sent_lt = omega (
          arith,
          inv.sent_lt,
          s.bounded (vid - 1) (omega (arith, inv.sent_lt))
              (All-map v.pending (λ p lt. omega (arith, lt)) inv.pending_lt),
        );
        pending_lt = left_All v v' out (λ p. p.valset_update_id < vid) s inv.pending_lt;
        covered =
            All-append (λ p. p.valset_update_id ≤ v'.sent) sent out
              (All-map sent (λ p le. omega (arith, le, s.grows)) inv.covered) s.covered;
        acked_le = omega (arith, inv.acked_le, s.same_acked);
        acks_le = inv.acks_le;
        processed_lt = inv.processed_lt;
        good_pending = left_All v v' out G s moved;
        good_sent =
            All-append G sent out (All-map sent good inv.good_sent)
              (All-append_left G out s.rest (subst (All G) s.prefix moved));
      }
