-- ===== src/Provider/Lifecycle/Blocks.antt =====
-- What the beginning of a block does with paused consumers (x/vaas/provider/module.go and
-- x/vaas/provider/keeper/consumer_lifecycle.go).
use vaas.Base.{
  ℕ, ◌-◌, ◌≡◌, refl, sym, subst, Option, none, some, List, [], ◌∷◌, leb, nat_eq, arith, Bool-cases,
  Option-cases, inl, inr, Among, OnSome, OnSome-found, ◌>>=◌,
}
use vaas.Base.Store.{get}
use vaas.Evidence.Decimal.{Decimals}
use vaas.Provider.State.{paused, stopped, phase_eq}
use vaas.Provider.Bank.{Bank}
use vaas.Provider.Relay.{get_all_launched_consumer_ids}
use vaas.Provider.TimeQueue.{consume_ids_from_time_queue}
use vaas.Provider.TimeQueue.Consume.{consume_takes_first_due}
use vaas.Provider.Lifecycle.{
  State, Chain, light_client_attack, is_frozen, phase_of, pause_consumer_chain,
  stop_and_prepare_for_consumer_removal,
}
use vaas.Provider.Lifecycle.Launch.{begin_block_launch_consumers}
use vaas.Provider.Lifecycle.Removal.{begin_block_remove_consumers}
use vaas.Provider.Lifecycle.BeginBlock.{
  cached, pause_if_frozen, pause_each, pause_consumers_with_frozen_clients, liveness_grace_period,
  get_consumer_last_ack_time, stop_if_silent, sweep_each, sweep_unresponsive_consumers,
  stop_if_paused, auto_stop_each, begin_block_auto_stop_paused_consumers, begin_block_lifecycle,
}
use vaas.Provider.Lifecycle.Scheduled.{
  IsScheduledBut, IsScheduled, NoPause-IsScheduledBut, Leaves-IsScheduledBut, IsScheduledBut-more,
  stop-Leaves, pause_consumer_chain-IsScheduled,
}
use vaas.Provider.Lifecycle.Shared.{NoPause, Phase-apart}
use vaas.Provider.Lifecycle.Launches.{begin_block_launch_consumers-NoPause}
use vaas.Provider.Lifecycle.Removals.{begin_block_remove_consumers-NoPause}

module _ (dec : Decimals) (bank : Bank) (chain : Chain dec) where
  cached-holds :
      (P : State dec bank → Type 0) (s : State dec bank) (o : Option (State dec bank))
      → P s
      → OnSome P o
      → P (cached dec bank s o)
  cached-holds P s none h h' = h
  cached-holds P s (some t) h h' = h'

  pause_if_frozen-IsScheduled :
      (s : State dec bank) (i : ℕ) (client : Option ℕ)
      → IsScheduled dec bank s
      → IsScheduled dec bank (pause_if_frozen dec bank chain s i client)
  unfolding pause_if_frozen
  pause_if_frozen-IsScheduled s i none sched = sched
  pause_if_frozen-IsScheduled s i (some client) sched =
      elim (Bool-cases (is_frozen (chain.client_status client))) [
        | inr fine ↦ rw fine sched
        | inl is_bad ↦ rw is_bad (
            cached-holds (IsScheduled dec bank) s
              (pause_consumer_chain dec bank chain s i light_client_attack) sched
              (pause_consumer_chain-IsScheduled dec bank chain s i light_client_attack sched))
      ]

  pause_each-IsScheduled :
      (is : List ℕ) (s : State dec bank)
      → IsScheduled dec bank s
      → IsScheduled dec bank (pause_each dec bank chain s is)
  unfolding pause_each
  pause_each-IsScheduled [] s sched = sched
  pause_each-IsScheduled (i ∷ is) s sched =
      let client = get i s.relay.consumer_clients in
      pause_each-IsScheduled is (pause_if_frozen dec bank chain s i client)
        (pause_if_frozen-IsScheduled s i client sched)

  module _ (period : ℕ) (known : chain.unbonding_time ≡ some period) where
    stop-IsScheduledBut :
        (taken : List ℕ) (s : State dec bank) (i : ℕ)
        → IsScheduledBut dec bank (i ∷ taken) s
        → IsScheduledBut dec bank taken
            (cached dec bank s (stop_and_prepare_for_consumer_removal dec bank chain s i))
    stop-IsScheduledBut taken s i sched =
        let (t, done, leaves) = stop-Leaves dec bank chain s i period known sched.ascending in
        subst (λ (o : Option (State dec bank)). IsScheduledBut dec bank taken (cached dec bank s o))
          (sym done) (Leaves-IsScheduledBut dec bank taken stopped i s t refl leaves sched)

    sweep_each-IsScheduled :
        (grace : ℕ) (is : List ℕ) (s : State dec bank)
        → IsScheduled dec bank s
        → IsScheduled dec bank (sweep_each dec bank chain grace s is)
    unfolding sweep_each stop_if_silent
    sweep_each-IsScheduled grace [] s sched = sched
    sweep_each-IsScheduled grace (i ∷ is) s sched =
        elim (Bool-cases (leb (chain.now - get_consumer_last_ack_time dec bank chain s i) grace)) [
          | inl heard ↦ rw heard (sweep_each-IsScheduled grace is s sched)
          | inr silent ↦ rw silent (
              sweep_each-IsScheduled grace is
                (cached dec bank s (stop_and_prepare_for_consumer_removal dec bank chain s i))
                (stop-IsScheduledBut [] s i (IsScheduledBut-more dec bank i [] s sched)))
        ]

    stop_if_paused-IsScheduledBut :
        (taken : List ℕ) (s : State dec bank) (i : ℕ)
        → IsScheduledBut dec bank (i ∷ taken) s
        → IsScheduledBut dec bank taken (stop_if_paused dec bank chain s i)
    unfolding stop_if_paused
    stop_if_paused-IsScheduledBut taken s i sched =
        elim (Bool-cases (phase_eq (phase_of dec bank s i) paused)) [
          | inl is_paused ↦ rw is_paused (stop-IsScheduledBut taken s i sched)
          | inr elsewhere ↦ rw elsewhere (record {
            ascending = sched.ascending;
            paused_waits = λ j p. elim (sched.paused_waits j p) [
              | inl this ↦ absurd (
                  Phase-apart dec bank (phase_of dec bank s i) elsewhere
                    (subst (λ (c : ℕ). phase_of dec bank s c ≡ paused) (sym this) p))
              | inr waits ↦ waits
            ];
          })
        ]

    auto_stop_each-IsScheduled :
        (is : List ℕ) (s : State dec bank)
        → IsScheduledBut dec bank is s
        → IsScheduled dec bank (auto_stop_each dec bank chain s is)
    unfolding auto_stop_each
    auto_stop_each-IsScheduled [] s sched = sched
    auto_stop_each-IsScheduled (i ∷ is) s sched =
        auto_stop_each-IsScheduled is (stop_if_paused dec bank chain s i)
          (stop_if_paused-IsScheduledBut is s i sched)

    -- The consumers whose pause is over, taken from the queue.
    taken-IsScheduledBut :
        (s : State dec bank)
        → IsScheduled dec bank s
        → let (is, q) = consume_ids_from_time_queue chain.now 200 s.pause_expiration_queue in
          IsScheduledBut dec bank is (record s { pause_expiration_queue = q })
    unfolding phase_of
    taken-IsScheduledBut s sched =
        let (first, split, ascending) =
          consume_takes_first_due chain.now 200 s.pause_expiration_queue sched.ascending in
        record {
          ascending = ascending;
          paused_waits = λ i p. subst (Among i) (sym split) (sched.paused_waits i p);
        }

    auto_stop-IsScheduled :
        (s : State dec bank)
        → IsScheduled dec bank s
        → IsScheduled dec bank (begin_block_auto_stop_paused_consumers dec bank chain s)
    unfolding begin_block_auto_stop_paused_consumers
    auto_stop-IsScheduled s sched =
        let (is, q) = consume_ids_from_time_queue chain.now 200 s.pause_expiration_queue in
        auto_stop_each-IsScheduled is (record s { pause_expiration_queue = q })
          (taken-IsScheduledBut s sched)

  -- The liveness grace period of a block that does not fail needs the unbonding time.
  known_unbonding :
      (grace : ℕ)
      → liveness_grace_period dec bank chain ≡ some grace
      → (period : ℕ) × (chain.unbonding_time ≡ some period)
  unfolding liveness_grace_period
  known_unbonding grace h = elim (Option-cases chain.unbonding_time) [
    | inl missing ↦ ground (arith, missing, h)
    | inr known ↦ known
  ]

  sweeps-IsScheduled :
      (s : State dec bank)
      → IsScheduled dec bank s
      → OnSome (IsScheduled dec bank) (
          sweep_unresponsive_consumers dec bank chain s >>= λ t.
          some (begin_block_auto_stop_paused_consumers dec bank chain t))
  unfolding sweep_unresponsive_consumers
  sweeps-IsScheduled s sched = elim (Option-cases (liveness_grace_period dec bank chain)) [
    | inl unknown ↦ rw unknown tt
    | inr (grace, found) ↦
        let (period, known) = known_unbonding grace found in
        let launched_ids = get_all_launched_consumer_ids s.relay.keeper in
        rw found (
          auto_stop-IsScheduled period known (sweep_each dec bank chain grace s launched_ids)
            (sweep_each-IsScheduled period known grace launched_ids s sched))
  ]

  begin_block-IsScheduled :
      (s : State dec bank)
      → IsScheduled dec bank s
      → OnSome (IsScheduled dec bank) (begin_block_lifecycle dec bank chain s)
  unfolding begin_block_lifecycle pause_consumers_with_frozen_clients
  begin_block-IsScheduled s sched =
      elim (Option-cases (begin_block_launch_consumers dec bank chain s)) [
        | inl failed ↦ rw (OnSome, failed) tt
        | inr (s₁, launch) ↦
            let sched₁ =
              NoPause-IsScheduledBut dec bank [] s s₁
                (OnSome-found (NoPause dec bank s) (begin_block_launch_consumers dec bank chain s)
                  s₁ (begin_block_launch_consumers-NoPause dec bank chain s) launch)
                sched in
            elim (Option-cases (begin_block_remove_consumers dec bank chain s₁)) [
              | inl failed ↦ rw (OnSome, launch, failed) tt
              | inr (s₂, removal) ↦
                  let sched₂ =
                    NoPause-IsScheduledBut dec bank [] s₁ s₂
                      (OnSome-found (NoPause dec bank s₁)
                        (begin_block_remove_consumers dec bank chain s₁) s₂
                        (begin_block_remove_consumers-NoPause dec bank chain s₁) removal)
                      sched₁ in
                  let ids = get_all_launched_consumer_ids s₂.relay.keeper in
                  rw (launch, removal)
                    (sweeps-IsScheduled (pause_each dec bank chain s₂ ids)
                      (pause_each-IsScheduled ids s₂ sched₂))
            ]
      ]

  -- Where every paused consumer waits in the queue of pauses to be stopped, and the queue is in the
  -- order of time, this still holds after a BeginBlock that does not fail: launches, removals, pauses
  -- for frozen clients, the liveness sweep and the stop of expired pauses lose no paused consumer.
  pub begin_block_strands_no_pause :
      (s s' : State dec bank)
      → IsScheduled dec bank s
      → begin_block_lifecycle dec bank chain s ≡ some s'
      → IsScheduled dec bank s'
  begin_block_strands_no_pause s s' sched run =
      OnSome-found (IsScheduled dec bank) (begin_block_lifecycle dec bank chain s) s'
        (begin_block-IsScheduled s sched) run
