-- ===== src/Handover/Agreement.antt =====
-- In every reachable state of the hand-over the consumer's set is one that the provider had stored
-- for it: that of the update id that the consumer processed last.
use vaas.Base.{
  ℕ, ◌+◌, ◌<◌, ◌≤◌, ◌≡◌, sym, ap, ◌∙◌, subst, Bool, true, false, Option, [], ◌∷◌, ◌++◌, value_or,
  nat_eq, arith, inl, inr, All, Among, All-Among, Bool-cases, Option-cases,
}
use vaas.Base.Store.{get}
use vaas.Evidence.Decimal.{Decimals}
use vaas.Packet.{ValidatorSetChangePacketData}
use vaas.ValidatorSet.Diff.{power_in}
use vaas.Consumer.Relay as Consumer
use vaas.Consumer.Relay.{is_out_of_order, end_block}
use vaas.Consumer.Relay.Effect.{
  effective, effective-end_block, get-end_block, IsReceived, on_recv_vsc_packet_v2_effect,
}
use vaas.Provider.Relay as Provider
use vaas.Provider.Relay.{get_consumer_val_set}
use vaas.Provider.Relay.Queueing.{View, view}
use vaas.Provider.Relay.Loop.{
  HandedOn, queue_vsc_packets-HandedOn, queue_immediate_snapshot_vsc_packet-HandedOn,
}
use vaas.Provider.Relay.Sending.{send_vsc_packets_to_chain}
use vaas.Provider.Relay.Sent.{send_vsc_packets_to_chain-IsSent, on_acknowledgement_packet_v2-view}
use vaas.Handover.{
  World, record_target, Step, epoch, snapshot, send, provider_elsewhere, deliver, acknowledge,
  flush, consumer_elsewhere, Reach, here, next,
}
use vaas.Handover.Protocol.{IsGood, IsInStep}
use vaas.Handover.Steps.{queued-IsInStep, skipped-IsInStep, acked-IsInStep}
use vaas.Handover.Sending.{sent-IsInStep}
use vaas.Handover.Delivery.{processed-IsInStep, noted-IsInStep}
use vaas.Handover.Launch.{processed, AreInStep, IsLaunched, IsLaunched-AreInStep}

module _ (dec : Decimals) (decodes : ℕ → Bool) (cons_addr_of : ℕ → Option ℕ) (c : ℕ) where
  handed-AreInStep :
      (w : World dec) (height : ℕ) (s' : Provider.State dec)
      → HandedOn dec cons_addr_of height c w.provider s'
      → AreInStep dec c w
      → AreInStep dec c (record w {
        provider = s';
        target =
            record_target w.target w.provider.validator_set_update_id
              (get_consumer_val_set dec s' c);
      })
  handed-AreInStep w height s' (id, handed) inv =
      let vid = w.provider.validator_set_update_id in
      let h = processed w.consumer in
      let powers = effective dec w.consumer in
      let Next = λ (v : View dec) (n : ℕ).
        IsInStep v n h powers w.sent w.acks (record_target w.target vid v.val_set) in
      let now : Next (view dec s' c) (vid + 1) = elim handed [
        | inl same ↦
            subst (λ (v : View dec). Next v (vid + 1)) (sym same)
              (skipped-IsInStep vid h powers w.sent w.acks w.target (view dec w.provider c) inv)
        | inr queued ↦
            queued-IsInStep vid h powers w.sent w.acks w.target (view dec w.provider c)
              (view dec s' c) queued inv
      ] in
      subst (λ (n : ℕ). Next (view dec s' c) n) (sym id) now

  order-old :
      (k : Consumer.State dec) (p : ValidatorSetChangePacketData dec)
      → is_out_of_order dec k p ≡ true
      → p.valset_update_id ≤ processed k
  unfolding is_out_of_order
  order-old k p h = elim (Option-cases k.highest_valset_update_id) [
    | inl unset ↦ ground (arith, h, unset)
    | inr (highest, known) ↦ ground (arith, h, known)
  ]

  order-fresh :
      (k : Consumer.State dec) (p : ValidatorSetChangePacketData dec)
      → 0 < p.valset_update_id
      → is_out_of_order dec k p ≡ false
      → processed k < p.valset_update_id
  unfolding is_out_of_order
  order-fresh k p positive h = elim (Option-cases k.highest_valset_update_id) [
    | inl unset ↦ ground (arith, h, unset, positive)
    | inr (highest, known) ↦ ground (arith, h, known)
  ]

  received-AreInStep :
      (w : World dec) (p : ValidatorSetChangePacketData dec) (k' : Consumer.State dec)
      → Among p w.sent
      → IsReceived dec w.consumer k' p
      → AreInStep dec c w
      → AreInStep dec c (record w { consumer = k'; acks = p.valset_update_id ∷ w.acks })
  received-AreInStep w p k' among r inv =
      let vid = w.provider.validator_set_update_id in
      let h = processed w.consumer in
      let powers = effective dec w.consumer in
      let v = view dec w.provider c in
      let acks' = p.valset_update_id ∷ w.acks in
      let At = λ (n : ℕ). IsInStep v vid n (effective dec k') w.sent acks' w.target in
      let good = All-Among (IsGood w.target h v.pending w.sent) p w.sent inv.good_sent among in
      elim (Bool-cases (is_out_of_order dec w.consumer p)) [
        | inl old ↦
            let same : processed k' ≡ h = ground (arith, r.highest, old) in
            subst At (sym same) (
              noted-IsInStep vid h powers w.sent w.acks w.target v (effective dec k') acks'
                (λ key. ground (arith, r.power key, old)) (order-old w.consumer p old, inv.acks_le)
                inv)
        | inr fresh ↦
            let same : processed k' ≡ p.valset_update_id = ground (arith, r.highest, fresh) in
            subst At (sym same) (
              processed-IsInStep vid h powers w.sent w.acks w.target v p (effective dec k') among
                (order-fresh w.consumer p good.nonzero fresh)
                (λ key. ground (arith, r.power key, fresh)) inv)
      ]

  end_block-highest :
      (k : Consumer.State dec)
      → (end_block dec k).0.highest_valset_update_id ≡ k.highest_valset_update_id
  unfolding end_block
  end_block-highest k = ground arith

  quiet-AreInStep :
      (w : World dec) (k' : Consumer.State dec)
      → k'.highest_valset_update_id ≡ w.consumer.highest_valset_update_id
      → ((key : ℕ) → effective dec k' key ≡ effective dec w.consumer key)
      → AreInStep dec c w
      → AreInStep dec c (record w { consumer = k' })
  quiet-AreInStep w k' same power inv =
      let v = view dec w.provider c in
      let vid = w.provider.validator_set_update_id in
      subst (λ (n : ℕ). IsInStep v vid n (effective dec k') w.sent w.acks w.target)
        (ap (λ (o : Option ℕ). value_or 0 o) (sym same))
        (noted-IsInStep vid (processed w.consumer) (effective dec w.consumer) w.sent w.acks w.target
          v (effective dec k') w.acks power inv.acks_le inv)

  Step-AreInStep :
      {w w' : World dec}
      → Step dec decodes cons_addr_of c w w'
      → AreInStep dec c w
      → AreInStep dec c w'
  Step-AreInStep (epoch w height bonded s' powers run) inv =
      handed-AreInStep w height s'
        (queue_vsc_packets-HandedOn dec cons_addr_of height w.provider s' bonded c powers run) inv
  Step-AreInStep (snapshot w height bonded i s' powers run) inv =
      handed-AreInStep w height s'
        (queue_immediate_snapshot_vsc_packet-HandedOn dec cons_addr_of height w.provider s' bonded i
          c powers run)
        inv
  Step-AreInStep (send w sends) inv =
      let run = send_vsc_packets_to_chain dec sends w.provider c in
      let (sent, id) = send_vsc_packets_to_chain-IsSent dec sends w.provider c in
      let powers = effective dec w.consumer in
      let h = processed w.consumer in
      subst (λ (n : ℕ). IsInStep (view dec run.0 c) n h powers (w.sent ++ run.1) w.acks w.target)
        (sym id)
        (sent-IsInStep w.provider.validator_set_update_id h powers w.sent w.acks w.target
          (view dec w.provider c) (view dec run.0 c) run.1 sent inv)
  Step-AreInStep (provider_elsewhere w s' id same) inv =
      let powers = effective dec w.consumer in
      let At = λ (v : View dec) (n : ℕ).
        IsInStep v n (processed w.consumer) powers w.sent w.acks w.target in
      subst (λ (n : ℕ). At (view dec s' c) n) (sym id)
        (subst (λ (v : View dec). At v w.provider.validator_set_update_id) (sym same) inv)
  Step-AreInStep (deliver w clients now client p k' among run) inv =
      received-AreInStep w p k' among
        (on_recv_vsc_packet_v2_effect dec decodes clients w.consumer k' now client p run) inv
  Step-AreInStep (acknowledge w now client id among ours) inv =
      let s' = Provider.on_acknowledgement_packet_v2 dec w.provider now client id false in
      let (same_id, seen) = on_acknowledgement_packet_v2-view dec w.provider now client id c ours in
      let powers = effective dec w.consumer in
      let h = processed w.consumer in
      let vid = w.provider.validator_set_update_id in
      let At = λ (v : View dec) (n : ℕ). IsInStep v n h powers w.sent w.acks w.target in
      let le = All-Among (λ a. a ≤ h) id w.acks inv.acks_le among in
      let now_at : At (view dec s' c) vid = elim seen [
        | inl same ↦ subst (λ (v : View dec). At v vid) (sym same) inv
        | inr raised ↦
            subst (λ (v : View dec). At v vid) (sym raised)
              (acked-IsInStep vid h powers w.sent w.acks w.target (view dec w.provider c) id le inv)
      ] in
      subst (λ (n : ℕ). At (view dec s' c) n) (sym same_id) now_at
  Step-AreInStep (flush w) inv =
      quiet-AreInStep w (end_block dec w.consumer).0 (end_block-highest w.consumer)
        (effective-end_block dec w.consumer) inv
  Step-AreInStep (consumer_elsewhere w k' same power) inv = quiet-AreInStep w k' same power inv

  pub Reach-AreInStep :
      {w w' : World dec}
      → IsLaunched dec c w
      → Reach dec decodes cons_addr_of c w w'
      → AreInStep dec c w'
  Reach-AreInStep {w} start here = IsLaunched-AreInStep dec c w start
  Reach-AreInStep start (next r st) = Step-AreInStep st (Reach-AreInStep start r)

  -- From the launch of a consumer on, whatever packets and acknowledgements are lost, delayed,
  -- reordered or repeated: the set that the consumer has once the pending changes are flushed is, by
  -- key and power, the one that the provider had stored for it under the update id that the consumer
  -- processed last. Bonded validators have positive last powers.
  pub handover_agreement :
      (w w' : World dec) (key : ℕ)
      → IsLaunched dec c w
      → Reach dec decodes cons_addr_of c w w'
      → get key (end_block dec w'.consumer).0.vaas_validators
        ≡ power_in key (w'.target (processed w'.consumer))
  handover_agreement w w' key start r =
      get-end_block dec w'.consumer key ∙ (Reach-AreInStep start r).agrees key

  -- Once nothing waits for a consumer and the highest id that was sent is acknowledged, the consumer's
  -- set is the one that the provider has stored for it now.
  pub acknowledged_consumer_is_current :
      (w w' : World dec) (key : ℕ)
      → IsLaunched dec c w
      → Reach dec decodes cons_addr_of c w w'
      → Provider.get_pending_vsc_packets dec w'.provider c ≡ []
      → Provider.get_highest_sent dec w'.provider c ≤ Provider.get_highest_acked dec w'.provider c
      → get key (end_block dec w'.consumer).0.vaas_validators
        ≡ power_in key (get_consumer_val_set dec w'.provider c)
  acknowledged_consumer_is_current w w' key start r drained acked =
      let inv = Reach-AreInStep start r in
      let h = processed w'.consumer in
      handover_agreement w w' key start r
      ∙ ap (power_in key) (
          inv.current h (subst (All (λ p. p.valset_update_id ≤ h)) (sym drained) tt)
            (omega (arith, acked, inv.acked_le)) inv.processed_lt)
