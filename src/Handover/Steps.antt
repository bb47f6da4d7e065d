-- ===== src/Handover/Steps.antt =====
-- Queueing and acknowledgements keep the protocol's invariant.
use vaas.Base.{
  ℕ, ◌+◌, ◌-◌, ◌<◌, ◌≤◌, ◌≡◌, refl, sym, ap, ◌∙◌, subst, false, Option, List, [], ◌∷◌, ◌==◌, arith,
  inl, inr, ◌⊎◌, All, All-map, All-append, All-append_right, All-both, Bool-cases,
}
use vaas.Evidence.Decimal.{Decimals}
use vaas.Packet.{ValidatorSetChangePacketData}
use vaas.ValidatorSet.{ConsensusValidator, diff_validators, full_val_set_updates}
use vaas.ValidatorSet.Diff.{IsDistinct, power_in}
use vaas.Provider.Relay.Queueing.{View, IsQueued}
use vaas.Handover.{record_target}
use vaas.Handover.Protocol.{
  IsGood, IsInStep, record_target-other, record_target-same, IsGood-record_target,
}

module _ {dec : Decimals} (vid h : ℕ) (powers : ℕ → Option ℕ)
    (sent : List (ValidatorSetChangePacketData dec)) (acks : List ℕ)
    (target : ℕ → List ConsensusValidator) where
  record_target-All :
      (P : List ConsensusValidator → Type 0) (vs : List ConsensusValidator)
      → ((i : ℕ) → P (target i))
      → P vs
      → (i : ℕ) → P (record_target target vid vs i)
  record_target-All P vs each new i = elim (Bool-cases (i == vid)) [
    | inl own ↦ rw own new
    | inr other ↦ rw other (each i)
  ]

  -- The new packet keeps its promise.
  queued-IsGood :
      (v v' : View dec)
      → (q : IsQueued v v' vid) → IsInStep v vid h powers sent acks target
      → IsGood (record_target target vid v'.val_set) h v'.pending sent q.packet
  queued-IsGood v v' q inv =
      let id = q.id_is in
      let new = record_target-same target vid v'.val_set in
      let here : record_target target vid v'.val_set q.packet.valset_update_id ≡ v'.val_set =
        ap (record_target target vid v'.val_set) id ∙ new in
      let last : ℕ = vid - 1 in
      let before : record_target target vid v'.val_set (q.packet.valset_update_id - 1)
          ≡ target last =
        ap (λ (i : ℕ). record_target target vid v'.val_set (i - 1)) id
        ∙ record_target-other target vid last v'.val_set (omega (arith, inv.sent_lt)) in
      let nothing_waits = λ (j : ℕ) (e : q.packet.is_snapshot ≡ false).
        subst (All (λ p. p.valset_update_id ≤ j)) (sym (q.drained e)) tt in
      let stored : q.packet.is_snapshot ≡ false → target last ≡ v.val_set = λ e.
        inv.current last (nothing_waits last e) (omega (arith, inv.sent_lt))
          (omega (arith, inv.sent_lt)) in
      record {
        nonzero = omega (arith, id, inv.sent_lt);
        snapshot = λ e. q.snapshot e ∙ ap full_val_set_updates (sym here);
        diff = λ e.
            q.diff e
            ∙ ap (λ (xs : List ConsensusValidator). diff_validators xs v'.val_set)
                (sym (before ∙ stored e))
            ∙ ap
                (diff_validators
                  (record_target target vid v'.val_set (q.packet.valset_update_id - 1)))
                (sym here);
        base = λ e lt.
            record_target-other target vid h v'.val_set inv.processed_lt
            ∙ inv.current h (nothing_waits h e) (omega (arith, q.settled e, inv.acked_le))
                inv.processed_lt
            ∙ sym (before ∙ stored e);
        no_gap_sent = λ e.
            All-map sent (λ p below. inl (omega (arith, below, q.settled e, inv.acked_le)))
              inv.covered;
        no_gap_pending = λ e.
            let P = λ (p : ValidatorSetChangePacketData dec).
              (p.valset_update_id ≤ h) ⊎ (q.packet.valset_update_id ≤ p.valset_update_id) in
            subst (All P) (sym q.appended) (
              All-append P v.pending (q.packet ∷ []) (subst (All P) (sym (q.drained e)) tt)
                (inr (omega arith), tt));
      }

  -- An older packet keeps its promise.
  waiting-IsGood :
      (v v' : View dec) (q : IsQueued v v' vid) (p : ValidatorSetChangePacketData dec)
      → IsInStep v vid h powers sent acks target
      → p.valset_update_id < vid
      → IsGood target h v.pending sent p
      → IsGood (record_target target vid v'.val_set) h v'.pending sent p
  waiting-IsGood v v' q p inv lt g =
      IsGood-record_target target h vid v'.val_set v.pending v'.pending sent p inv.processed_lt lt
        (λ all.
          let P = λ (r : ValidatorSetChangePacketData dec).
            (r.valset_update_id ≤ h) ⊎ (p.valset_update_id ≤ r.valset_update_id) in
          subst (All P) (sym q.appended)
            (All-append P v.pending (q.packet ∷ []) all (inr (omega (arith, lt, q.id_is)), tt)))
        g

  -- Queueing a packet under the next id.
  pub queued-IsInStep :
      (v v' : View dec)
      → IsQueued v v' vid
      → IsInStep v vid h powers sent acks target
      → IsInStep v' (vid + 1) h powers sent acks (record_target target vid v'.val_set)
  queued-IsInStep v v' q inv =
      let T = record_target target vid v'.val_set in
      let old =
        λ (p : ValidatorSetChangePacketData dec) (lt : p.valset_update_id < vid)
            (g : IsGood target h v.pending sent p).
          waiting-IsGood v v' q p inv lt g in
      record {
        agrees = λ key.
            inv.agrees key
            ∙ ap (power_in key)
                (sym (record_target-other target vid h v'.val_set inv.processed_lt));
        distinct = record_target-All IsDistinct v'.val_set inv.distinct q.distinct;
        positive = record_target-All (All (λ w. 0 < w.power)) v'.val_set inv.positive q.positive;
        current = λ j waits sent_le lt.
            let bound = λ (p : ValidatorSetChangePacketData dec). p.valset_update_id ≤ j in
            let last =
              All-append_right bound v.pending (q.packet ∷ [])
                (subst (All bound) q.appended waits) in
            ap T (omega (arith, last.0, q.id_is, lt)) ∙ record_target-same target vid v'.val_set;
        sent_lt = omega (arith, inv.sent_lt, q.same_sent);
        pending_lt = subst (All (λ p. p.valset_update_id < vid + 1)) (sym q.appended) (
            All-append (λ p. p.valset_update_id < vid + 1) v.pending (q.packet ∷ [])
              (All-map v.pending (λ p lt. omega (arith, lt)) inv.pending_lt)
              (omega (arith, q.id_is), tt));
        covered =
            subst (λ (n : ℕ). All (λ p. p.valset_update_id ≤ n) sent) (sym q.same_sent) inv.covered;
        acked_le = omega (arith, inv.acked_le, q.same_acked);
        acks_le = inv.acks_le;
        processed_lt = omega (arith, inv.processed_lt);
        good_pending = subst (All (IsGood T h v'.pending sent)) (sym q.appended) (
            All-append (IsGood T h v'.pending sent) v.pending (q.packet ∷ [])
              (All-both v.pending old inv.pending_lt inv.good_pending)
              (queued-IsGood v v' q inv, tt));
        good_sent =
            All-both sent (λ p le g. old p (omega (arith, le, inv.sent_lt)) g) inv.covered
              inv.good_sent;
      }

  -- The stored set is that of the last id.
  latest : (v : View dec) → IsInStep v vid h powers sent acks target → target (vid - 1) ≡ v.val_set
  latest v inv =
      inv.current (vid - 1) (All-map v.pending (λ p lt. omega (arith, lt)) inv.pending_lt)
        (omega (arith, inv.sent_lt)) (omega (arith, inv.sent_lt))

  -- An id that is not used for this consumer.
  pub skipped-IsInStep :
      (v : View dec)
      → IsInStep v vid h powers sent acks target
      → IsInStep v (vid + 1) h powers sent acks (record_target target vid v.val_set)
  skipped-IsInStep v inv =
      let T = record_target target vid v.val_set in
      let old =
        λ (p : ValidatorSetChangePacketData dec) (lt : p.valset_update_id < vid)
            (g : IsGood target h v.pending sent p).
          IsGood-record_target target h vid v.val_set v.pending v.pending sent p inv.processed_lt lt
            (λ all. all) g in
      record {
        agrees = λ key.
            inv.agrees key
            ∙ ap (power_in key) (sym (record_target-other target vid h v.val_set inv.processed_lt));
        distinct =
            record_target-All IsDistinct v.val_set inv.distinct
              (subst IsDistinct (latest v inv) (inv.distinct (vid - 1)));
        positive =
            record_target-All (All (λ w. 0 < w.power)) v.val_set inv.positive
              (subst (All (λ w. 0 < w.power)) (latest v inv) (inv.positive (vid - 1)));
        current = λ j waits sent_le lt. elim (Bool-cases (j == vid)) [
          | inl own ↦ rw own refl
          | inr before ↦ rw before (inv.current j waits sent_le (ground (arith, lt, before)))
        ];
        sent_lt = omega (arith, inv.sent_lt);
        pending_lt = All-map v.pending (λ p lt. omega (arith, lt)) inv.pending_lt;
        covered = inv.covered;
        acked_le = inv.acked_le;
        acks_le = inv.acks_le;
        processed_lt = omega (arith, inv.processed_lt);
        good_pending = All-both v.pending old inv.pending_lt inv.good_pending;
        good_sent =
            All-both sent (λ p le g. old p (omega (arith, le, inv.sent_lt)) g) inv.covered
              inv.good_sent;
      }

  -- An acknowledged id.
  pub acked-IsInStep :
      (v : View dec) (a : ℕ)
      → a ≤ h
      → IsInStep v vid h powers sent acks target
      → IsInStep (record v { acked = a }) vid h powers sent acks target
  acked-IsInStep v a le inv = record {
    agrees = inv.agrees;
    distinct = inv.distinct;
    positive = inv.positive;
    current = inv.current;
    sent_lt = inv.sent_lt;
    pending_lt = inv.pending_lt;
    covered = inv.covered;
    acked_le = le;
    acks_le = inv.acks_le;
    processed_lt = inv.processed_lt;
    good_pending = inv.good_pending;
    good_sent = inv.good_sent;
  }
