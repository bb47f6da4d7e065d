-- ===== src/Provider/Lifecycle/Expiry.antt =====
-- A pause that is over ends in a stop (BeginBlockAutoStopPausedConsumers of
-- x/vaas/provider/keeper/consumer_lifecycle.go).
use vaas.Base.{
  ℕ, ◌≡◌, sym, ap, subst, some, List, [], ◌∷◌, ◌==◌, ==_iff, if◌then◌else◌, nat_eq, arith,
  Bool-cases, inl, inr, Among, take,
}
use vaas.Evidence.Decimal.{Decimals}
use vaas.Provider.State.{paused, stopped, phase_eq}
use vaas.Provider.Bank.{Bank}
use vaas.Provider.TimeQueue.{consume_ids_from_time_queue}
use vaas.Provider.TimeQueue.Entries.{Ascending, due_ids}
use vaas.Provider.TimeQueue.Consume.{consume_takes_first_due}
use vaas.Provider.Lifecycle.{State, Chain, phase_of}
use vaas.Provider.Lifecycle.BeginBlock.{
  stop_if_paused, auto_stop_each, begin_block_auto_stop_paused_consumers,
}
use vaas.Provider.Lifecycle.Scheduled.{IsScheduled, stop-Leaves}

module _ (dec : Decimals) (bank : Bank) (chain : Chain dec) where
  module _ (period : ℕ) (known : chain.unbonding_time ≡ some period) where
    -- A round leaves the consumer stopped if it is paused, and alone otherwise.
    stop_if_paused-effect :
        (s : State dec bank) (i : ℕ)
        → Ascending s.pause_expiration_queue
        → let s' = stop_if_paused dec bank chain s i in
          Ascending s'.pause_expiration_queue
          × ((j : ℕ)
              → phase_of dec bank s' j ≡ (
                  if i == j
                  then if phase_eq (phase_of dec bank s i) paused
                    then stopped
                    else phase_of dec bank s j
                  else phase_of dec bank s j))
    unfolding stop_if_paused
    stop_if_paused-effect s i h = elim (Bool-cases (phase_eq (phase_of dec bank s i) paused)) [
      | inr elsewhere ↦ rw elsewhere (h, λ j. ground arith)
      | inl is_paused ↦
          let (t, done, leaves) = stop-Leaves dec bank chain s i period known h in
          rw (is_paused, done) (leaves.0.0, leaves.1)
    ]

    stays_stopped :
        (j : ℕ) (is : List ℕ) (s : State dec bank)
        → Ascending s.pause_expiration_queue
        → phase_of dec bank s j ≡ stopped
        → phase_of dec bank (auto_stop_each dec bank chain s is) j ≡ stopped
    unfolding auto_stop_each
    stays_stopped j [] s h p = p
    stays_stopped j (i ∷ is) s h p =
        let (ascending, phases) = stop_if_paused-effect s i h in
        stays_stopped j is (stop_if_paused dec bank chain s i) ascending
          (ground (arith, phases j, p))

    becomes_stopped :
        (j : ℕ) (is : List ℕ) (s : State dec bank)
        → Ascending s.pause_expiration_queue
        → phase_of dec bank s j ≡ paused
        → Among j is
        → phase_of dec bank (auto_stop_each dec bank chain s is) j ≡ stopped
    unfolding auto_stop_each
    becomes_stopped j [] s h p m = absurd m
    becomes_stopped j (i ∷ is) s h p m =
        let (ascending, phases) = stop_if_paused-effect s i h in
        elim (Bool-cases (i == j)) [
          | inl same ↦
              stays_stopped j is (stop_if_paused dec bank chain s i) ascending
                (ground (arith, phases j, p, same, ap (phase_of dec bank s) ((==_iff i j).0 same)))
          | inr apart ↦
              becomes_stopped j is (stop_if_paused dec bank chain s i) ascending
                (ground (arith, phases j, p, apart))
                (elim m [ inl this ↦ ground (arith, apart, this) | inr later ↦ later ])
        ]

  -- Once the unbonding time is known, and where every paused consumer waits in the queue of pauses,
  -- which is in the order of time, BeginBlockAutoStopPausedConsumers stops every paused consumer that
  -- is among the first 200 of those whose pause is over, in the order of time.
  pub expired_pause_is_stopped :
      (s : State dec bank) (i period : ℕ)
      → IsScheduled dec bank s
      → chain.unbonding_time ≡ some period
      → phase_of dec bank s i ≡ paused
      → Among i (take 200 (due_ids chain.now s.pause_expiration_queue))
      → phase_of dec bank (begin_block_auto_stop_paused_consumers dec bank chain s) i ≡ stopped
  unfolding begin_block_auto_stop_paused_consumers phase_of
  expired_pause_is_stopped s i period sched known p m =
      let (is, q) = consume_ids_from_time_queue chain.now 200 s.pause_expiration_queue in
      let (first, split, ascending) =
        consume_takes_first_due chain.now 200 s.pause_expiration_queue sched.ascending in
      becomes_stopped period known i is (record s { pause_expiration_queue = q }) ascending p
        (subst (Among i) (sym first) m)
