-- ===== src/Handover/Launch.antt =====
-- The start of a consumer meets the protocol's invariant.
use vaas.Base.{
  ℕ, ◌<◌, ◌≤◌, ◌≡◌, sym, ap, ◌∙◌, subst, Option, none, [], value_or, nat_eq, arith, All,
}
use vaas.Evidence.Decimal.{Decimals}
use vaas.Packet.{ValidatorSetChangePacketData}
use vaas.ValidatorSet.Diff.{IsDistinct, power_in}
use vaas.Consumer.Relay as Consumer
use vaas.Consumer.Relay.{is_out_of_order, end_block}
use vaas.Consumer.Relay.Effect.{effective}
use vaas.Provider.Relay as Provider
use vaas.Provider.Relay.{get_consumer_val_set}
use vaas.Provider.Relay.Queueing.{view}
use vaas.Handover.{World}
use vaas.Handover.Protocol.{IsGood, IsInStep}

-- The highest id that a consumer has processed; 0 before the first.
abbrev pub processed : {dec : Decimals} → Consumer.State dec → ℕ
processed k = value_or 0 k.highest_valset_update_id

module _ (dec : Decimals) (c : ℕ) where
  -- The invariant at a state of both chains.
  abbrev pub AreInStep : World dec → Type 0
  AreInStep w =
      IsInStep (view dec w.provider c) w.provider.validator_set_update_id (processed w.consumer)
        (effective dec w.consumer) w.sent w.acks w.target

  -- The start of a consumer: it has the set that the provider has stored for it, in which no key is
  -- listed twice and all powers are positive; nothing has been sent.
  pub record IsLaunched (w : World dec) : Type 0 where
    pub sent_nothing : w.sent ≡ []
    pub acked_nothing : w.acks ≡ []
    pub waits_nothing : Provider.get_pending_vsc_packets dec w.provider c ≡ []
    pub sent_zero : Provider.get_highest_sent dec w.provider c ≡ 0
    pub acked_zero : Provider.get_highest_acked dec w.provider c ≡ 0
    pub processed_nothing : w.consumer.highest_valset_update_id ≡ none
    pub id_positive : 0 < w.provider.validator_set_update_id
    pub same_set : (i : ℕ) → w.target i ≡ get_consumer_val_set dec w.provider c
    pub has_set :
        (key : ℕ)
        → effective dec w.consumer key ≡ power_in key (get_consumer_val_set dec w.provider c)
    pub distinct : IsDistinct (get_consumer_val_set dec w.provider c)
    pub positive : All (λ v. 0 < v.power) (get_consumer_val_set dec w.provider c)

  pub IsLaunched-AreInStep : (w : World dec) → IsLaunched w → AreInStep w
  IsLaunched-AreInStep w l =
      let none_waits =
        λ (P : ValidatorSetChangePacketData dec → Type 0). subst (All P) (sym l.waits_nothing) tt in
      let none_sent =
        λ (P : ValidatorSetChangePacketData dec → Type 0). subst (All P) (sym l.sent_nothing) tt in
      record {
        agrees = λ key. l.has_set key ∙ ap (power_in key) (sym (l.same_set (processed w.consumer)));
        distinct = λ i. subst IsDistinct (sym (l.same_set i)) l.distinct;
        positive = λ i. subst (All (λ v. 0 < v.power)) (sym (l.same_set i)) l.positive;
        current = λ j waits le lt. l.same_set j;
        sent_lt = omega (arith, l.sent_zero, l.id_positive);
        pending_lt = none_waits (λ p. p.valset_update_id < w.provider.validator_set_update_id);
        covered = none_sent (λ p. p.valset_update_id ≤ Provider.get_highest_sent dec w.provider c);
        acked_le = omega (arith, l.acked_zero);
        acks_le = subst (All (λ a. a ≤ processed w.consumer)) (sym l.acked_nothing) tt;
        processed_lt =
            omega (arith, ap (λ (o : Option ℕ). value_or 0 o) l.processed_nothing, l.id_positive);
        good_pending = none_waits (
            IsGood w.target (processed w.consumer)
              (Provider.get_pending_vsc_packets dec w.provider c) w.sent);
        good_sent = none_sent (
            IsGood w.target (processed w.consumer)
              (Provider.get_pending_vsc_packets dec w.provider c) w.sent);
      }
