-- ===== src/Provider/Lifecycle/Resume.antt =====
-- What a resumption that succeeds leaves (ResumeConsumerChain of
-- x/vaas/provider/keeper/consumer_lifecycle.go).
use vaas.Base.{
  ℕ, ◌≡◌, refl, sym, ap, subst, ◌∙◌, Bool, not, ◌&&◌, none, some, List, [], ◌==◌, ==_iff,
  if◌then◌else◌, value_or, nat_eq, pair_eq, arith, Bool-cases, Option-cases, inl, inr, OnSome,
  OnSome-map, OnSome-found,
}
use vaas.Base.Store.{Store, get, set, remove, get-remove}
use vaas.Evidence.Decimal.{Decimals}
use vaas.Packet.{ValidatorSetChangePacketData}
use vaas.Provider.State.{Keeper, launched, paused, phase_eq}
use vaas.Provider.Bank.{Bank}
use vaas.Provider.Relay
use vaas.Provider.Relay.{
  get_consumer_val_set, get_pending_vsc_packets, compute_consumer_next_val_set,
  append_pending_vsc_packet, increment_validator_set_update_id, queue_vsc_packet,
  queue_immediate_snapshot_vsc_packet,
}
use vaas.Provider.Lifecycle.{
  State, Chain, unspecified_reason, is_active, is_attack, phase_of, with_keeper, set_consumer_phase,
  forget_pause, cancel_in_bucket, cancel_consumer_pause_expiration, fork_evidence_expired, resync,
  resume_consumer_chain,
}
use vaas.Provider.TimeQueue.Members.{Keeps}
use vaas.Provider.Lifecycle.Shared.{phase_of-set, phase_of-phases}
use vaas.Provider.Lifecycle.Resync.{Resynced, resync-Resynced}
use vaas.Provider.Lifecycle.Scheduled.{
  IsScheduled, Leaves-IsScheduledBut, IsScheduledBut-more, cancel_consumer_pause_expiration-Keeps,
}

module _ {ℓ} {V : Type ℓ} where
  removed : (i : ℕ) (m : Store ℕ V) → get i (remove i m) ≡ none
  removed i m = ground (arith, get-remove i i m, ==_iff i i)

module _ (dec : Decimals) (bank : Bank) where
  -- A resumption: the consumer is launched, nothing is left of its pause, and no packet waits for it.
  abbrev pub IsResumed : ℕ → State dec bank → Type 0
  IsResumed i s =
      (phase_of dec bank s i ≡ launched)
      × (get i s.pause_expiration_times ≡ none)
      × (get i s.pause_reasons ≡ none)
      × (get i s.paused_at ≡ none)
      × (get i s.relay.pending_vsc_packets ≡ none)

  -- The cancellation of a scheduled stop leaves the records of pauses.
  cancel-pauses :
      (s : State dec bank) (i : ℕ)
      → OnSome
          (λ t. (t.pause_reasons ≡ s.pause_reasons) × (t.paused_at ≡ s.paused_at))
          (cancel_consumer_pause_expiration dec bank s i)
  unfolding cancel_consumer_pause_expiration
  cancel-pauses s i = elim (Option-cases (get i s.pause_expiration_times)) [
    | inl never ↦ rw (OnSome, never) (refl, refl)
    | inr (ts, found) ↦
        elim (Option-cases (cancel_in_bucket dec bank s.pause_expiration_queue i ts)) [
          | inl lost ↦ rw (OnSome, found, lost) tt
          | inr (q, cancelled) ↦ rw (OnSome, found, cancelled) (refl, refl)
        ]
  ]

  -- The state that ResumeConsumerChain resynchronises.
  abbrev restored : Chain dec → State dec bank → ℕ → State dec bank
  restored chain s i =
      let s₂ = set_consumer_phase dec bank s i launched in
      record s₂ {
        relay = record s₂.relay {
          consumer_last_ack_time = set i chain.now s₂.relay.consumer_last_ack_time;
        };
      }

  resync-IsResumed :
      (sends : ValidatorSetChangePacketData dec → Bool) (chain : Chain dec) (s s₁ : State dec bank)
      (i : ℕ)
      → IsScheduled dec bank s
      → Keeps i s.pause_expiration_queue s₁.pause_expiration_queue
      → s₁.relay.keeper.phases ≡ s.relay.keeper.phases
      → get i s₁.pause_expiration_times ≡ none
      → get i s₁.pause_reasons ≡ none
      → get i s₁.paused_at ≡ none
      → OnSome
          (λ r. IsScheduled dec bank r.0 × IsResumed i r.0)
          (resync dec bank sends chain (restored chain s₁ i) i)
  unfolding set_consumer_phase with_keeper
  resync-IsResumed sends chain s s₁ i sched keeps phases no_time no_reason no_start =
      OnSome-map (Resynced dec bank (restored chain s₁ i) i)
        (λ r. IsScheduled dec bank r.0 × IsResumed i r.0)
        (resync dec bank sends chain (restored chain s₁ i) i)
        (λ r (keeper, empty, queue, times, reasons, at).
          let phase : (j : ℕ)
              → phase_of dec bank r.0 j ≡ (if i == j then launched else phase_of dec bank s j) =
            λ j. ground (
              arith,
              phase_of-phases dec bank (set_consumer_phase dec bank s₁ i launched) r.0 j
                  (ap (λ (k : Keeper). k.phases) keeper),
              phase_of-set dec bank s₁ i launched j,
              phase_of-phases dec bank s s₁ j phases,
            ) in
          (
            Leaves-IsScheduledBut dec bank [] launched i s r.0 refl
                (subst (Keeps i s.pause_expiration_queue) (sym queue) keeps, phase)
                (IsScheduledBut-more dec bank i [] s sched),
            (
              ground (arith, phase i, ==_iff i i),
              ap (get i) times ∙ no_time,
              ap (get i) reasons ∙ no_reason,
              ap (get i) at ∙ no_start,
              empty,
            ),
          ))
        (resync-Resynced dec bank sends chain (restored chain s₁ i) i)

  resume-IsResumed :
      (sends : ℕ → ValidatorSetChangePacketData dec → Bool) (chain : Chain dec) (s : State dec bank)
      (i : ℕ)
      → IsScheduled dec bank s
      → OnSome
          (λ r. IsScheduled dec bank r.0 × IsResumed i r.0)
          (resume_consumer_chain dec bank sends chain s i)
  unfolding resume_consumer_chain forget_pause
  resume-IsResumed sends chain s i sched =
      elim (Bool-cases (phase_eq (phase_of dec bank s i) paused)) [
        | inr not_paused ↦ rw (OnSome, not_paused) tt
        | inl is_paused ↦ elim (Option-cases (get i s.relay.consumer_clients)) [
          | inl unbound ↦ rw (OnSome, is_paused, unbound) tt
          | inr (client, bound) ↦ elim (Bool-cases (is_active (chain.client_status client))) [
            | inr inactive ↦ rw (OnSome, is_paused, bound, inactive) tt
            | inl works ↦
                elim (Bool-cases (
                  is_attack (value_or unspecified_reason (get i s.pause_reasons))
                  && not (fork_evidence_expired dec bank chain s i client))) [
                    | inl too_early ↦ rw (OnSome, is_paused, bound, works, too_early) tt
                    | inr in_time ↦
                        let (s₁, cancelled, keeps, relay, gone) =
                          cancel_consumer_pause_expiration-Keeps dec bank
                            (forget_pause dec bank s i) i sched.ascending in
                        let pauses =
                          OnSome-found
                            (λ (t : State dec bank).
                              (t.pause_reasons ≡ (forget_pause dec bank s i).pause_reasons)
                              × (t.paused_at ≡ (forget_pause dec bank s i).paused_at))
                            (cancel_consumer_pause_expiration dec bank (forget_pause dec bank s i)
                              i)
                            s₁ (cancel-pauses (forget_pause dec bank s i) i) cancelled in
                        rw (is_paused, bound, works, in_time, cancelled)
                          (resync-IsResumed (sends client) chain s s₁ i sched keeps
                            (ap (λ (r : Relay.State dec). r.keeper.phases) relay) gone
                            (ap (get i) pauses.0 ∙ removed i s.pause_reasons)
                            (ap (get i) pauses.1 ∙ removed i s.paused_at))
                  ]
          ]
        ]
      ]

  -- A resumption that succeeds leaves the consumer launched, with no record of its pause and no packet
  -- that waits for it; the queue of pauses stays in the order of time, and every consumer that is
  -- still paused waits there, if that held before.
  pub resume_ends_the_pause :
      (sends : ℕ → ValidatorSetChangePacketData dec → Bool) (chain : Chain dec)
      (s s' : State dec bank) (i : ℕ) (sent : List (ValidatorSetChangePacketData dec))
      → IsScheduled dec bank s
      → resume_consumer_chain dec bank sends chain s i ≡ some (s', sent)
      → IsScheduled dec bank s' × IsResumed i s'
  resume_ends_the_pause sends chain s s' i sent sched run =
      OnSome-found (λ r. IsScheduled dec bank r.0 × IsResumed i r.0)
        (resume_consumer_chain dec bank sends chain s i) (s', sent)
        (resume-IsResumed sends chain s i sched) run
