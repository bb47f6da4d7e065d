-- ===== src/Provider/Lifecycle/Resync.antt =====
-- The immediate snapshot of a resumption (the end of ResumeConsumerChain of
-- x/vaas/provider/keeper/consumer_lifecycle.go, on x/vaas/provider/keeper/relay.go).
use vaas.Base.{
  ℕ, ◌≡◌, refl, ◌∙◌, Bool, true, Option, none, some, List, [], ◌∷◌, ==_iff, nat_eq, pair_eq, arith,
  Bool-cases, Option-cases, inl, inr, OnSome, OnSome-found,
}
use vaas.Base.Store.{get, get-remove}
use vaas.Evidence.Decimal.{Decimals}
use vaas.Packet.{ValidatorSetChangePacketData}
use vaas.Provider.Bank.{Bank}
use vaas.Provider.Assembly.{StakingValidator}
use vaas.Provider.Relay
use vaas.Provider.Relay.{
  get_consumer_val_set, get_pending_vsc_packets, compute_consumer_next_val_set,
  append_pending_vsc_packet, increment_validator_set_update_id, queue_vsc_packet,
  queue_immediate_snapshot_vsc_packet,
}
use vaas.Provider.Relay.Sending.{raise_highest_sent, send_each, send_vsc_packets_to_chain_strict}
use vaas.Provider.Lifecycle.{State, Chain, resync}
use vaas.Provider.Lifecycle.Shared.{compute_consumer_next_val_set-keeper}

module _ (dec : Decimals) (bank : Bank) where
  queue_vsc_packet-keeper :
      (cons_addr_of : ℕ → Option ℕ) (s : Relay.State dec) (height : ℕ)
      (bonded : List StakingValidator) (is_snapshot : Bool) (i : ℕ)
      → OnSome
          (λ (t : Relay.State dec). t.keeper ≡ s.keeper)
          (queue_vsc_packet dec cons_addr_of s height bonded is_snapshot i)
  unfolding queue_vsc_packet append_pending_vsc_packet
  queue_vsc_packet-keeper cons_addr_of s height bonded is_snapshot i =
      let current = get_consumer_val_set dec s i in
      let computed =
        compute_consumer_next_val_set dec cons_addr_of s height bonded i current is_snapshot in
      elim (Option-cases computed) [
        | inl failed ↦ rw (OnSome, failed) tt
        | inr (r, made) ↦
            rw (OnSome, made)
              (OnSome-found (λ r'. r'.0.keeper ≡ s.keeper) computed r
                (compute_consumer_next_val_set-keeper dec bank cons_addr_of s height bonded i
                  current is_snapshot)
                made)
      ]

  queue_immediate-keeper :
      (cons_addr_of : ℕ → Option ℕ) (s : Relay.State dec) (height : ℕ)
      (last_bonded : Option (List StakingValidator)) (i : ℕ)
      → OnSome
          (λ (t : Relay.State dec). t.keeper ≡ s.keeper)
          (queue_immediate_snapshot_vsc_packet dec cons_addr_of s height last_bonded i)
  unfolding queue_immediate_snapshot_vsc_packet increment_validator_set_update_id
  queue_immediate-keeper cons_addr_of s height none i = tt
  queue_immediate-keeper cons_addr_of s height (some bonded) i =
      elim (Option-cases (queue_vsc_packet dec cons_addr_of s height bonded true i)) [
        | inl failed ↦ rw (OnSome, failed) tt
        | inr (t, queued) ↦
            rw (OnSome, queued)
              (OnSome-found (λ (t' : Relay.State dec). t'.keeper ≡ s.keeper)
                (queue_vsc_packet dec cons_addr_of s height bonded true i) t
                (queue_vsc_packet-keeper cons_addr_of s height bonded true i) queued)
      ]

  raise_highest_sent-keeper :
      (s : Relay.State dec) (i id : ℕ) → (raise_highest_sent dec s i id).keeper ≡ s.keeper
  unfolding raise_highest_sent
  raise_highest_sent-keeper s i id = ground arith

  send_each-keeper :
      (sends : ValidatorSetChangePacketData dec → Bool) (i : ℕ)
      (ps : List (ValidatorSetChangePacketData dec)) (s : Relay.State dec)
      → (send_each dec sends s i ps).0.keeper ≡ s.keeper
  unfolding send_each
  send_each-keeper sends i [] s = refl
  send_each-keeper sends i (p ∷ ps) s = elim (Bool-cases (sends p)) [
    | inr refused ↦ ground (arith, refused)
    | inl taken ↦ ground (
      arith,
      taken,
      send_each-keeper sends i ps (raise_highest_sent dec s i p.valset_update_id),
      raise_highest_sent-keeper s i p.valset_update_id,
    )
  ]

  -- A sending that hands over all packets leaves none.
  strict-done :
      (sends : ValidatorSetChangePacketData dec → Bool) (i : ℕ) (s : Relay.State dec)
      → let (s', sent, done) = send_vsc_packets_to_chain_strict dec sends s i in
        done ≡ true → (s'.keeper ≡ s.keeper) × (get i s'.pending_vsc_packets ≡ none)
  unfolding send_vsc_packets_to_chain_strict
  strict-done sends i s done =
      let run = send_each dec sends s i (get_pending_vsc_packets dec s i) in
      rw done (
        send_each-keeper sends i (get_pending_vsc_packets dec s i) s,
        ground (arith, get-remove i i run.0.pending_vsc_packets, ==_iff i i),
      )

  -- The state after a resynchronisation that succeeds: nothing waits for the consumer.
  abbrev pub Resynced :
      State dec bank → ℕ → State dec bank × List (ValidatorSetChangePacketData dec) → Type 0
  Resynced s i r =
      (r.0.relay.keeper ≡ s.relay.keeper)
      × (get i r.0.relay.pending_vsc_packets ≡ none)
      × (r.0.pause_expiration_queue ≡ s.pause_expiration_queue)
      × (r.0.pause_expiration_times ≡ s.pause_expiration_times)
      × (r.0.pause_reasons ≡ s.pause_reasons)
      × (r.0.paused_at ≡ s.paused_at)

  pub resync-Resynced :
      (sends : ValidatorSetChangePacketData dec → Bool) (chain : Chain dec) (s : State dec bank)
      (i : ℕ)
      → OnSome (Resynced s i) (resync dec bank sends chain s i)
  unfolding resync
  resync-Resynced sends chain s i =
      let queueing =
        queue_immediate_snapshot_vsc_packet dec chain.cons_addr_of s.relay
          chain.height.revision_height chain.last_bonded i in
      elim (Option-cases queueing) [
        | inl failed ↦ rw (OnSome, failed) tt
        | inr (queued, made) ↦
            let sent = send_vsc_packets_to_chain_strict dec sends queued i in
            elim (Bool-cases sent.2) [
              | inr left_over ↦ rw (OnSome, made, left_over) tt
              | inl done ↦
                  let (keeper, empty) = strict-done sends i queued done in
                  rw (OnSome, made, done)
                    ((
                      keeper
                          ∙ OnSome-found (λ (t : Relay.State dec). t.keeper ≡ s.relay.keeper)
                              queueing queued
                              (queue_immediate-keeper chain.cons_addr_of s.relay
                                chain.height.revision_height chain.last_bonded i)
                              made,
                      empty,
                      refl,
                      refl,
                      refl,
                      refl,
                    ))
            ]
      ]
