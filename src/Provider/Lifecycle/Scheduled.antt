-- ===== src/Provider/Lifecycle/Scheduled.antt =====
-- A consumer that is paused waits in the queue of pauses, through the pause and the stop of a
-- consumer (x/vaas/provider/keeper/consumer_lifecycle.go).
use vaas.Base.{
  none, ℕ, ◌+◌, ◌≡◌, refl, sym, ap, ◌∙◌, subst, false, some, List, [], ◌∷◌, ◌++◌, ◌==◌, ==_iff,
  if◌then◌else◌, nat_eq, arith, Bool-cases, Option-cases, inl, inr, Among, OnSome, OnSome-found,
}
use vaas.Base.Store.{get, remove, get-set, get-remove}
use vaas.Evidence.Decimal.{Decimals}
use vaas.Provider.State.{Phase, launched, paused, stopped, phase_eq, get_consumer_phase}
use vaas.Provider.Bank.{Bank}
use vaas.Provider.TimeQueue.{Queue, get_ids, is_in, append_id, remove_consumer_from_time_queue}
use vaas.Provider.TimeQueue.Entries.{Ascending, all_ids}
use vaas.Provider.TimeQueue.Members.{
  Keeps, Among-append, Among-append_left, Among-append_right, append_id-keeps, append_id-new,
  append_id-Ascending, remove_consumer_from_time_queue-Keeps, remove_consumer_from_time_queue-found,
}
use vaas.Provider.Relay
use vaas.Provider.Lifecycle.{
  State, Chain, PauseReason, is_unspecified, phase_of, with_keeper, set_consumer_phase,
  cancel_consumer_downtime_state, cancel_in_bucket, cancel_consumer_pause_expiration, forget_pause,
  schedule_removal, stop_and_prepare_for_consumer_removal, pause_now, schedule_auto_stop,
  pause_consumer_chain,
}
use vaas.Provider.Lifecycle.Shared.{
  NoPause, Phase-apart, phase_of-set, phase_of-phases, pay_withheld_fees-phases,
}

module _ (dec : Decimals) (bank : Bank) where
  -- The queue of pauses is in the order of time, and every paused consumer waits there or is among
  -- those that were just taken from it.
  pub record IsScheduledBut (taken : List ℕ) (s : State dec bank) : Type 0 where
    pub ascending : Ascending s.pause_expiration_queue
    pub paused_waits :
        (i : ℕ)
        → phase_of dec bank s i ≡ paused
        → Among i (taken ++ all_ids s.pause_expiration_queue)

  abbrev pub IsScheduled : State dec bank → Type 0
  IsScheduled s = IsScheduledBut [] s

  pub NoPause-IsScheduledBut :
      (taken : List ℕ) (s s' : State dec bank)
      → NoPause dec bank s s'
      → IsScheduledBut taken s
      → IsScheduledBut taken s'
  NoPause-IsScheduledBut taken s s' h sched = record {
    ascending = subst Ascending (sym h.0) sched.ascending;
    paused_waits = λ i p.
        subst (λ (q : Queue). Among i (taken ++ all_ids q)) (sym h.0)
          (sched.paused_waits i (h.1 i p));
  }

  -- What happens to a consumer that stops being paused: the others keep their place and phase.
  abbrev pub Leaves : Phase → ℕ → State dec bank → State dec bank → Type 0
  Leaves phase i s s' =
      Keeps i s.pause_expiration_queue s'.pause_expiration_queue
      × ((j : ℕ) → phase_of dec bank s' j ≡ (if i == j then phase else phase_of dec bank s j))

  cancel_in_bucket-Keeps :
      (q : Queue) (i ts : ℕ)
      → Ascending q
      → (q' : Queue) × (cancel_in_bucket dec bank q i ts ≡ some q') × Keeps i q q'
  unfolding cancel_in_bucket
  cancel_in_bucket-Keeps q i ts h = elim (Bool-cases (is_in i (get_ids q ts))) [
    | inl found ↦
        let (q', removed) = remove_consumer_from_time_queue-found i ts q found in
        (
          q',
          rw found removed,
          OnSome-found (Keeps i q) (remove_consumer_from_time_queue q i ts) q'
              (remove_consumer_from_time_queue-Keeps i ts q h) removed,
        )
    | inr missing ↦ (q, rw missing refl, (h, λ j apart m. m))
  ]

  -- CancelConsumerPauseExpiration never fails, and touches the queue and the consumer's time only.
  pub cancel_consumer_pause_expiration-Keeps :
      (s : State dec bank) (i : ℕ)
      → Ascending s.pause_expiration_queue
      → (s' : State dec bank) × (cancel_consumer_pause_expiration dec bank s i ≡ some s')
        × Keeps i s.pause_expiration_queue s'.pause_expiration_queue
        × (s'.relay ≡ s.relay)
        × (get i s'.pause_expiration_times ≡ none)
  unfolding cancel_consumer_pause_expiration
  cancel_consumer_pause_expiration-Keeps s i h =
      elim (Option-cases (get i s.pause_expiration_times)) [
        | inl never ↦ (s, ground (arith, never), (h, λ j apart m. m), refl, never)
        | inr (ts, found) ↦
            let (q, cancelled, keeps) = cancel_in_bucket-Keeps s.pause_expiration_queue i ts h in
            (
              record s {
                pause_expiration_queue = q;
                pause_expiration_times = remove i s.pause_expiration_times;
              },
              ground (arith, found, cancelled),
              keeps,
              refl,
              ground (arith, get-remove i i s.pause_expiration_times, ==_iff i i),
            )
      ]

  -- StopAndPrepareForConsumerRemoval succeeds once the unbonding time is known.
  pub stop-Leaves :
      (chain : Chain dec) (s : State dec bank) (i period : ℕ)
      → chain.unbonding_time ≡ some period
      → Ascending s.pause_expiration_queue
      → (s' : State dec bank) × (stop_and_prepare_for_consumer_removal dec bank chain s i ≡ some s')
        × Leaves stopped i s s'
  unfolding stop_and_prepare_for_consumer_removal schedule_removal forget_pause
      cancel_consumer_downtime_state set_consumer_phase with_keeper
  stop-Leaves chain s i period known h =
      let s₀ =
        cancel_consumer_downtime_state dec bank (set_consumer_phase dec bank s i stopped) i in
      let (s₁, cancelled, keeps, relay, gone) = cancel_consumer_pause_expiration-Keeps s₀ i h in
      (
        schedule_removal dec bank (forget_pause dec bank s₁ i) i (chain.now + period),
        ground (arith, cancelled, known),
        (
          keeps,
          λ j.
              phase_of-phases dec bank (set_consumer_phase dec bank s i stopped)
                (schedule_removal dec bank (forget_pause dec bank s₁ i) i (chain.now + period)) j
                (ap (λ (r : Relay.State dec). r.keeper.phases) relay)
              ∙ phase_of-set dec bank s i stopped j,
        ),
      )

  -- A consumer that leaves the pause needs no place in the queue.
  pub Leaves-IsScheduledBut :
      (taken : List ℕ) (phase : Phase) (i : ℕ) (s s' : State dec bank)
      → phase_eq phase paused ≡ false
      → Leaves phase i s s'
      → IsScheduledBut (i ∷ taken) s
      → IsScheduledBut taken s'
  Leaves-IsScheduledBut taken phase i s s' other leaves sched = record {
    ascending = leaves.0.0;
    paused_waits = λ j p. elim (Bool-cases (i == j)) [
      | inl same ↦ absurd (Phase-apart dec bank phase other (ground (arith, leaves.1 j, p, same)))
      | inr apart ↦ elim (sched.paused_waits j (ground (arith, leaves.1 j, p, apart))) [
        | inl this ↦ ground (arith, apart, this)
        | inr m ↦ elim (Among-append j taken (all_ids s.pause_expiration_queue) m) [
          | inl left ↦ Among-append_left j taken (all_ids s'.pause_expiration_queue) left
          | inr waits ↦
              Among-append_right j taken (all_ids s'.pause_expiration_queue)
                (leaves.0.1 j apart waits)
        ]
      ]
    ];
  }

  -- Nobody is missing more than before.
  pub IsScheduledBut-more :
      (i : ℕ) (taken : List ℕ) (s : State dec bank)
      → IsScheduledBut taken s
      → IsScheduledBut (i ∷ taken) s
  IsScheduledBut-more i taken s sched = record {
    ascending = sched.ascending;
    paused_waits = λ j p. inr (sched.paused_waits j p);
  }

  pause_now-queue :
      (chain : Chain dec) (s : State dec bank) (i : ℕ) (reason : PauseReason)
      → (pause_now dec bank chain s i reason).pause_expiration_queue ≡ s.pause_expiration_queue
  unfolding pause_now cancel_consumer_downtime_state set_consumer_phase with_keeper
  pause_now-queue chain s i reason = refl

  pub pause_now-phase_of :
      (chain : Chain dec) (s : State dec bank) (i : ℕ) (reason : PauseReason) (j : ℕ)
      → phase_of dec bank (pause_now dec bank chain s i reason) j
        ≡ (if i == j then paused else phase_of dec bank s j)
  unfolding pause_now cancel_consumer_downtime_state set_consumer_phase with_keeper phase_of
      get_consumer_phase
  pause_now-phase_of chain s i reason j = ground (
    arith,
    pay_withheld_fees-phases dec bank s.relay.keeper s.ledger chain.staking chain.now i,
    get-set j i paused s.relay.keeper.phases,
  )

  still_paused :
      (chain : Chain dec) (s : State dec bank) (i : ℕ) (reason : PauseReason) (j : ℕ)
      → (i == j) ≡ false
      → phase_of dec bank (pause_now dec bank chain s i reason) j ≡ paused
      → phase_of dec bank s j ≡ paused
  still_paused chain s i reason j apart p =
      ground (arith, pause_now-phase_of chain s i reason j, p, apart)

  paused_now-IsScheduled :
      (chain : Chain dec) (s : State dec bank) (i : ℕ) (reason : PauseReason)
      → IsScheduled s
      → IsScheduled (
          schedule_auto_stop dec bank
            (pause_now dec bank chain s i reason)
            i
            (chain.now + chain.max_pause_duration))
  unfolding schedule_auto_stop phase_of
  paused_now-IsScheduled chain s i reason sched =
      let at = chain.now + chain.max_pause_duration in
      rw (pause_now-queue chain s i reason) (record {
        ascending = append_id-Ascending i at s.pause_expiration_queue sched.ascending;
        paused_waits = λ j p. elim (Bool-cases (i == j)) [
          | inl same ↦
              subst (λ (c : ℕ). Among c (all_ids (append_id s.pause_expiration_queue i at)))
                ((==_iff i j).0 same) (append_id-new i at s.pause_expiration_queue)
          | inr apart ↦
              append_id-keeps j i at s.pause_expiration_queue
                (sched.paused_waits j (still_paused chain s i reason j apart p))
        ];
      })

  -- PauseConsumerChain puts the consumer into the queue.
  pub pause_consumer_chain-IsScheduled :
      (chain : Chain dec) (s : State dec bank) (i : ℕ) (reason : PauseReason)
      → IsScheduled s
      → OnSome IsScheduled (pause_consumer_chain dec bank chain s i reason)
  unfolding pause_consumer_chain
  pause_consumer_chain-IsScheduled chain s i reason sched =
      elim (Bool-cases (is_unspecified reason)) [
        | inl no_reason ↦ rw no_reason tt
        | inr given ↦ elim (Bool-cases (phase_eq (phase_of dec bank s i) launched)) [
          | inr not_launched ↦ rw (given, not_launched) tt
          | inl is_launched ↦
              rw (given, is_launched) (paused_now-IsScheduled chain s i reason sched)
        ]
      ]
