-- ===== src/Handover/Delivery.antt =====
-- The delivery of a packet keeps the protocol's invariant.
use vaas.Base.{
  ℕ, ◌-◌, ◌<◌, ◌≤◌, ◌≡◌, ap, ◌∙◌, Option, List, ◌∷◌, nat_eq, arith, inl, inr, ◌⊎◌, All, All-map,
  Among, All-Among, Bool-cases,
}
use vaas.Evidence.Decimal.{Decimals}
use vaas.Packet.{ValidatorSetChangePacketData}
use vaas.ValidatorSet.{ValidatorUpdate, ConsensusValidator}
use vaas.ValidatorSet.Diff.{power_in, effects, effects-diff_validators}
use vaas.ValidatorSet.Accumulate.{last_power}
use vaas.ValidatorSet.Replace.{snapshot_power}
use vaas.Consumer.Relay.Effect.{outcome_power}
use vaas.Provider.Relay.Queueing.{View}
use vaas.Handover.Protocol.{IsGood, IsInStep}

no_gap_later : {h : ℕ} (r q id : ℕ) → h < id → (r ≤ h) ⊎ (q ≤ r) → (r ≤ id) ⊎ (q ≤ r)
no_gap_later r q id lt (inl le) = inl (omega (arith, le, lt))
no_gap_later r q id lt (inr ge) = inr ge

module _ {dec : Decimals} (vid h : ℕ) (powers : ℕ → Option ℕ)
    (sent : List (ValidatorSetChangePacketData dec)) (acks : List ℕ)
    (target : ℕ → List ConsensusValidator) where
  -- A good packet takes the consumer's powers to those of its id.
  outcome_agrees :
      (v : View dec) (p : ValidatorSetChangePacketData dec) (key : ℕ)
      → h < p.valset_update_id
      → IsInStep v vid h powers sent acks target
      → IsGood target h v.pending sent p
      → outcome_power dec p key (powers key) ≡ power_in key (target p.valset_update_id)
  outcome_agrees v p key lt inv g =
      let id = p.valset_update_id in
      elim (Bool-cases p.is_snapshot) [
        | inl full ↦
            let updates = ap (λ (us : List ValidatorUpdate). last_power key us) (g.snapshot full) in
            ground (arith, full, updates, snapshot_power key (target id) (inv.positive id))
        | inr change ↦
            let now : powers key ≡ power_in key (target (id - 1)) =
              inv.agrees key ∙ ap (power_in key) (g.base change lt) in
            let updates =
              ap (λ (us : List ValidatorUpdate). effects key us (powers key)) (g.diff change) in
            ground (
              arith,
              change,
              updates,
              effects-diff_validators (target (id - 1)) (target id) key (powers key)
                  (inv.distinct (id - 1)) (inv.distinct id) (inv.positive id) now,
            )
      ]

  -- The other packets stay good when the consumer processes one that was sent.
  processed-IsGood :
      (v : View dec) (p q : ValidatorSetChangePacketData dec)
      → h < p.valset_update_id
      → Among p sent
      → IsGood target h v.pending sent q
      → IsGood target p.valset_update_id v.pending sent q
  processed-IsGood v p q lt among g =
      let P = λ (r : ValidatorSetChangePacketData dec).
        (r.valset_update_id ≤ h) ⊎ (q.valset_update_id ≤ r.valset_update_id) in
      let later = λ (r : ValidatorSetChangePacketData dec) (o : P r).
        no_gap_later r.valset_update_id q.valset_update_id p.valset_update_id lt o in
      record {
        nonzero = g.nonzero;
        snapshot = g.snapshot;
        diff = g.diff;
        base = λ e below. elim (All-Among P p sent (g.no_gap_sent e) among) [
          | inl old ↦ absurd (omega (arith, old, lt))
          | inr after ↦ absurd (omega (arith, after, below))
        ];
        no_gap_sent = λ e. All-map sent later (g.no_gap_sent e);
        no_gap_pending = λ e. All-map v.pending later (g.no_gap_pending e);
      }

  -- The consumer processes a packet that was sent, with an id above all before.
  pub processed-IsInStep :
      (v : View dec) (p : ValidatorSetChangePacketData dec) (powers' : ℕ → Option ℕ)
      → Among p sent
      → h < p.valset_update_id
      → ((key : ℕ) → powers' key ≡ outcome_power dec p key (powers key))
      → IsInStep v vid h powers sent acks target
      → IsInStep v vid p.valset_update_id powers' sent (p.valset_update_id ∷ acks) target
  processed-IsInStep v p powers' among lt effect inv =
      let good = All-Among (IsGood target h v.pending sent) p sent inv.good_sent among in
      let bound = All-Among (λ q. q.valset_update_id ≤ v.sent) p sent inv.covered among in
      let stay = λ (q : ValidatorSetChangePacketData dec) (g : IsGood target h v.pending sent q).
        processed-IsGood v p q lt among g in
      record {
        agrees = λ key. effect key ∙ outcome_agrees v p key lt inv good;
        distinct = inv.distinct;
        positive = inv.positive;
        current = inv.current;
        sent_lt = inv.sent_lt;
        pending_lt = inv.pending_lt;
        covered = inv.covered;
        acked_le = omega (arith, inv.acked_le, lt);
        acks_le = (omega arith, All-map acks (λ a le. omega (arith, le, lt)) inv.acks_le);
        processed_lt = omega (arith, bound, inv.sent_lt);
        good_pending = All-map v.pending stay inv.good_pending;
        good_sent = All-map sent stay inv.good_sent;
      }

  -- Nothing but the consumer's powers, which stay, and an acknowledgement of an old id.
  pub noted-IsInStep :
      (v : View dec) (powers' : ℕ → Option ℕ) (acks' : List ℕ)
      → ((key : ℕ) → powers' key ≡ powers key)
      → All (λ a. a ≤ h) acks'
      → IsInStep v vid h powers sent acks target
      → IsInStep v vid h powers' sent acks' target
  noted-IsInStep v powers' acks' same le inv = record {
    agrees = λ key. same key ∙ inv.agrees key;
    distinct = inv.distinct;
    positive = inv.positive;
    current = inv.current;
    sent_lt = inv.sent_lt;
    pending_lt = inv.pending_lt;
    covered = inv.covered;
    acked_le = inv.acked_le;
    acks_le = le;
    processed_lt = inv.processed_lt;
    good_pending = inv.good_pending;
    good_sent = inv.good_sent;
  }
