-- ===== src/Handover/Protocol.antt =====
-- The hand-over of validator sets as a protocol between what the provider stores for a consumer and
-- what the consumer has applied: its invariant, and that each kind of step keeps it.
use vaas.Base.{ℕ, ◌-◌, ◌<◌, ◌≤◌, ◌≡◌, sym, ap, ◌∙◌, true, false, Option, List, arith, ◌⊎◌, All}
use vaas.Evidence.Decimal.{Decimals}
use vaas.Packet.{ValidatorSetChangePacketData, of_wire}
use vaas.ValidatorSet.{ConsensusValidator, diff_validators, full_val_set_updates}
use vaas.ValidatorSet.Diff.{IsDistinct, power_in}
use vaas.Provider.Relay.Queueing.{View}
use vaas.Handover.{record_target}

pub record_target-other :
    (target : ℕ → List ConsensusValidator) (id i : ℕ) (vs : List ConsensusValidator)
    → i < id
    → record_target target id vs i ≡ target i
record_target-other target id i vs h = ground (arith, h)

pub record_target-same :
    (target : ℕ → List ConsensusValidator) (id : ℕ) (vs : List ConsensusValidator)
    → record_target target id vs id ≡ vs
record_target-same target id vs = ground arith

module _ {dec : Decimals} where
  -- What a packet that waits or was sent promises, where the consumer has processed up to `h`: a
  -- snapshot carries the set of its id; a diff carries the change from the set before its id, which is
  -- the consumer's as long as it has not processed the id, since no packet is in between.
  pub record IsGood (target : ℕ → List ConsensusValidator) (h : ℕ)
      (pending sent : List (ValidatorSetChangePacketData dec))
      (p : ValidatorSetChangePacketData dec) : Type 0 where
    pub nonzero : 0 < p.valset_update_id
    pub snapshot :
        p.is_snapshot ≡ true
        → of_wire p.validator_updates ≡ full_val_set_updates (target p.valset_update_id)
    pub diff :
        p.is_snapshot ≡ false
        → of_wire p.validator_updates
          ≡ diff_validators (target (p.valset_update_id - 1)) (target p.valset_update_id)
    pub base :
        p.is_snapshot ≡ false → h < p.valset_update_id → target h ≡ target (p.valset_update_id - 1)
    pub no_gap_sent :
        p.is_snapshot ≡ false
        → All (λ q. (q.valset_update_id ≤ h) ⊎ (p.valset_update_id ≤ q.valset_update_id)) sent
    pub no_gap_pending :
        p.is_snapshot ≡ false
        → All (λ q. (q.valset_update_id ≤ h) ⊎ (p.valset_update_id ≤ q.valset_update_id)) pending

  -- The invariant, for a provider whose next update id is `vid`, and a consumer whose set is
  -- `powers`.
  pub record IsInStep (v : View dec) (vid h : ℕ) (powers : ℕ → Option ℕ)
      (sent : List (ValidatorSetChangePacketData dec)) (acks : List ℕ)
      (target : ℕ → List ConsensusValidator) : Type 0 where
    pub agrees : (key : ℕ) → powers key ≡ power_in key (target h)
    pub distinct : (i : ℕ) → IsDistinct (target i)
    pub positive : (i : ℕ) → All (λ w. 0 < w.power) (target i)
    pub current :
        (j : ℕ)
        → All (λ p. p.valset_update_id ≤ j) v.pending
        → v.sent ≤ j
        → j < vid
        → target j ≡ v.val_set
    pub sent_lt : v.sent < vid
    pub pending_lt : All (λ p. p.valset_update_id < vid) v.pending
    pub covered : All (λ p. p.valset_update_id ≤ v.sent) sent
    pub acked_le : v.acked ≤ h
    pub acks_le : All (λ a. a ≤ h) acks
    pub processed_lt : h < vid
    pub good_pending : All (IsGood target h v.pending sent) v.pending
    pub good_sent : All (IsGood target h v.pending sent) sent

  -- A packet keeps its promise when the history grows beyond it.
  pub IsGood-record_target :
      (target : ℕ → List ConsensusValidator) (h id : ℕ) (vs : List ConsensusValidator)
      (pending pending' sent : List (ValidatorSetChangePacketData dec))
      (p : ValidatorSetChangePacketData dec)
      → h < id
      → p.valset_update_id < id
      → (All (λ q. (q.valset_update_id ≤ h) ⊎ (p.valset_update_id ≤ q.valset_update_id)) pending
          → All
              (λ q. (q.valset_update_id ≤ h) ⊎ (p.valset_update_id ≤ q.valset_update_id))
              pending')
      → IsGood target h pending sent p
      → IsGood (record_target target id vs) h pending' sent p
  IsGood-record_target target h id vs pending pending' sent p hlt plt more g =
      let at = record_target-other target id p.valset_update_id vs plt in
      let before = record_target-other target id (p.valset_update_id - 1) vs (omega arith) in
      let now = record_target-other target id h vs hlt in
      record {
        nonzero = g.nonzero;
        snapshot = λ e. g.snapshot e ∙ ap full_val_set_updates (sym at);
        diff = λ e. ground (arith, g.diff e, at, before);
        base = λ e lt. now ∙ g.base e lt ∙ sym before;
        no_gap_sent = g.no_gap_sent;
        no_gap_pending = λ e. more (g.no_gap_pending e);
      }
