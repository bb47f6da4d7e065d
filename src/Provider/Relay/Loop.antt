-- ===== src/Provider/Relay/Loop.antt =====
-- What QueueVSCPackets and QueueImmediateSnapshotVSCPacket do to each consumer
-- (x/vaas/provider/keeper/relay.go).
use vaas.Base.{
  ℕ, ◌+◌, ◌≡◌, refl, sym, ap, ◌∙◌, subst, Bool, true, false, Option, some, List, [], ◌∷◌, ◌==◌,
  nat_eq, pair_eq, arith, Bool-cases, Option-cases, inl, inr, ◌⊎◌, All, All-map,
}
use vaas.Evidence.Decimal.{Decimals}
use vaas.ValidatorSet.{ConsensusValidator}
use vaas.Provider.Assembly.{StakingValidator}
use vaas.Provider.Assembly.Distinct.{HasPositivePower, create_consumer_validators-IsDistinct}
use vaas.Provider.Relay.{
  State, get_consumer_val_set, get_pending_vsc_packets, get_highest_sent, get_highest_acked,
  append_pending_vsc_packet, increment_validator_set_update_id, needs_snapshot, queue_vsc_packet,
  queue_each, queue_vsc_packets, queue_immediate_snapshot_vsc_packet, get_all_launched_consumer_ids,
}
use vaas.Provider.Relay.Queueing.{
  View, view, IsQueued, queued, queue_vsc_packet-queued, queued-other, queued-IsQueued,
}
use vaas.Provider.Relay.Ids.{IsAscending, get_all_launched_consumer_ids-IsAscending}

module _ (dec : Decimals) (cons_addr_of : ℕ → Option ℕ) (height : ℕ) where
  -- What a step of queueing does to one consumer.
  abbrev pub Handed : ℕ → State dec → State dec → Type 0
  Handed c s s' =
      (s'.validator_set_update_id ≡ s.validator_set_update_id)
      × ((view dec s' c ≡ view dec s c)
          ⊎ IsQueued (view dec s c) (view dec s' c) s.validator_set_update_id)

  queued_id :
      (s : State dec) (is_snapshot : Bool) (consumer : ℕ) (next : List ConsensusValidator)
      → (queued dec cons_addr_of height s is_snapshot consumer next).validator_set_update_id
        ≡ s.validator_set_update_id
  unfolding append_pending_vsc_packet
  queued_id s is_snapshot consumer next = refl

  queue_vsc_packet-other :
      (s s' : State dec) (bonded : List StakingValidator) (is_snapshot : Bool) (i c : ℕ)
      → (i == c) ≡ false
      → queue_vsc_packet dec cons_addr_of s height bonded is_snapshot i ≡ some s'
      → (s'.validator_set_update_id ≡ s.validator_set_update_id) × (view dec s' c ≡ view dec s c)
  queue_vsc_packet-other s s' bonded is_snapshot i c apart run =
      let (next, made, same) =
        queue_vsc_packet-queued dec cons_addr_of height s s' bonded is_snapshot i run in
      (
        ap (λ (t : State dec). t.validator_set_update_id) same ∙ queued_id s is_snapshot i next,
        ap (λ (t : State dec). view dec t c) same
            ∙ queued-other dec cons_addr_of height s is_snapshot i c next apart,
      )

  queue_vsc_packet-own :
      (s s' : State dec) (bonded : List StakingValidator) (is_snapshot : Bool) (c : ℕ)
      → All HasPositivePower bonded
      → (is_snapshot ≡ false → needs_snapshot dec cons_addr_of s c ≡ false)
      → queue_vsc_packet dec cons_addr_of s height bonded is_snapshot c ≡ some s'
      → (s'.validator_set_update_id ≡ s.validator_set_update_id)
        × IsQueued (view dec s c) (view dec s' c) s.validator_set_update_id
  queue_vsc_packet-own s s' bonded is_snapshot c powers reason run =
      let (next, made, same) =
        queue_vsc_packet-queued dec cons_addr_of height s s' bonded is_snapshot c run in
      let (distinct, positive) =
        create_consumer_validators-IsDistinct cons_addr_of s.validator_consumer_pub_key
          (get_consumer_val_set dec s c) next height c bonded powers made in
      (
        ap (λ (t : State dec). t.validator_set_update_id) same ∙ queued_id s is_snapshot c next,
        subst (λ (t : State dec). IsQueued (view dec s c) (view dec t c) s.validator_set_update_id)
            (sym same)
            (queued-IsQueued dec cons_addr_of height s is_snapshot c next distinct positive reason),
      )

  -- A round of the loop that succeeds.
  queue_each-step :
      (s s' : State dec) (bonded : List StakingValidator) (i : ℕ) (is : List ℕ)
      → queue_each dec cons_addr_of s height bonded (i ∷ is) ≡ some s'
      → (s₁ : State dec) × (queue_vsc_packet dec cons_addr_of s height bonded
            (needs_snapshot dec cons_addr_of s i)
            i
          ≡ some s₁)
        × (queue_each dec cons_addr_of s₁ height bonded is ≡ some s')
  unfolding queue_each
  queue_each-step s s' bonded i is run =
      elim (Option-cases (
        queue_vsc_packet dec cons_addr_of s height bonded (needs_snapshot dec cons_addr_of s i)
          i)) [
            | inl failed ↦ ground (arith, run, failed)
            | inr (s₁, done) ↦ (s₁, done, ground (arith, run, done))
          ]

  queue_each-nil :
      (s s' : State dec) (bonded : List StakingValidator)
      → queue_each dec cons_addr_of s height bonded [] ≡ some s'
      → s' ≡ s
  unfolding queue_each
  queue_each-nil s s' bonded run = ground (arith, run)

  queue_each-other :
      (s s' : State dec) (bonded : List StakingValidator) (is : List ℕ) (c : ℕ)
      → All (λ j. (j == c) ≡ false) is
      → queue_each dec cons_addr_of s height bonded is ≡ some s'
      → (s'.validator_set_update_id ≡ s.validator_set_update_id) × (view dec s' c ≡ view dec s c)
  queue_each-other s s' bonded [] c apart run =
      let same = queue_each-nil s s' bonded run in
      (
        ap (λ (t : State dec). t.validator_set_update_id) same,
        ap (λ (t : State dec). view dec t c) same,
      )
  queue_each-other s s' bonded (i ∷ is) c apart run =
      let (s₁, done, rest) = queue_each-step s s' bonded i is run in
      let (id, kept) =
        queue_vsc_packet-other s s₁ bonded (needs_snapshot dec cons_addr_of s i) i c apart.0 done in
      let (id', kept') = queue_each-other s₁ s' bonded is c apart.1 rest in (id' ∙ id, kept' ∙ kept)

  queue_each-Handed :
      (s s' : State dec) (bonded : List StakingValidator) (is : List ℕ) (c : ℕ)
      → All HasPositivePower bonded
      → IsAscending is
      → queue_each dec cons_addr_of s height bonded is ≡ some s'
      → Handed c s s'
  queue_each-Handed s s' bonded [] c powers ascending run =
      let same = queue_each-nil s s' bonded run in
      (
        ap (λ (t : State dec). t.validator_set_update_id) same,
        inl (ap (λ (t : State dec). view dec t c) same),
      )
  queue_each-Handed s s' bonded (i ∷ is) c powers ascending run =
      let (s₁, done, rest) = queue_each-step s s' bonded i is run in
      elim (Bool-cases (i == c)) [
        | inl own ↦
            let here : i ≡ c = ground (arith, own) in
            let done' : queue_vsc_packet dec cons_addr_of s height bonded
                  (needs_snapshot dec cons_addr_of s c) c
                ≡ some s₁ =
              subst
                (λ (j : ℕ).
                  queue_vsc_packet dec cons_addr_of s height bonded
                    (needs_snapshot dec cons_addr_of s j) j
                  ≡ some s₁)
                here done in
            let (id, queued_here) =
              queue_vsc_packet-own s s₁ bonded (needs_snapshot dec cons_addr_of s c) c powers
                (λ h. h) done' in
            let (id', kept) =
              queue_each-other s₁ s' bonded is c
                (All-map is (λ j h. ground (arith, h, here)) ascending.0) rest in
            (
              id' ∙ id,
              inr (
                  subst (λ (v : View dec). IsQueued (view dec s c) v s.validator_set_update_id)
                    (sym kept) queued_here),
            )
        | inr apart ↦
            let (id, kept) =
              queue_vsc_packet-other s s₁ bonded (needs_snapshot dec cons_addr_of s i) i c apart
                done in
            let (id', handed) = queue_each-Handed s₁ s' bonded is c powers ascending.1 rest in
            (
              id' ∙ id,
              elim handed [
                | inl same ↦ inl (same ∙ kept)
                | inr queued_later ↦ inr (
                    subst (λ (v : View dec). IsQueued v (view dec s' c) s.validator_set_update_id)
                      kept
                      (subst (λ (n : ℕ). IsQueued (view dec s₁ c) (view dec s' c) n) id
                        queued_later))
              ],
            )
      ]

  -- What a step that advances the update id does to one consumer.
  abbrev pub HandedOn : ℕ → State dec → State dec → Type 0
  HandedOn c s s' =
      (s'.validator_set_update_id ≡ s.validator_set_update_id + 1)
      × ((view dec s' c ≡ view dec s c)
          ⊎ IsQueued (view dec s c) (view dec s' c) s.validator_set_update_id)

  increment-HandedOn :
      (c : ℕ) (s s' : State dec)
      → Handed c s s'
      → HandedOn c s (increment_validator_set_update_id dec s')
  unfolding increment_validator_set_update_id get_consumer_val_set get_highest_acked
      get_highest_sent get_pending_vsc_packets
  increment-HandedOn c s s' (id, handed) = (ground (arith, id), handed)

  -- After QueueVSCPackets the update id has advanced by one, and each consumer either is as it was or
  -- has one more packet waiting, under the update id before: a snapshot of the set that is stored
  -- for it now, or the diff to that set from the one before, and a diff only if nothing that was sent
  -- is unacknowledged and nothing waits. The set has no key twice and positive powers, if the bonded
  -- validators' last powers are positive.
  pub queue_vsc_packets-HandedOn :
      (s s' : State dec) (bonded : List StakingValidator) (c : ℕ)
      → All HasPositivePower bonded
      → queue_vsc_packets dec cons_addr_of s height (some bonded) ≡ some s'
      → HandedOn c s s'
  unfolding queue_vsc_packets
  queue_vsc_packets-HandedOn s s' bonded c powers run =
      let ids = get_all_launched_consumer_ids s.keeper in
      elim (Option-cases (queue_each dec cons_addr_of s height bonded ids)) [
        | inl failed ↦ ground (arith, run, failed)
        | inr (s₁, done) ↦ subst (HandedOn c s) (ground (arith, run, done)) (
            increment-HandedOn c s s₁ (
              queue_each-Handed s s₁ bonded ids c powers
                (get_all_launched_consumer_ids-IsAscending s.keeper) done))
      ]

  pub queue_immediate_snapshot_vsc_packet-HandedOn :
      (s s' : State dec) (bonded : List StakingValidator) (i c : ℕ)
      → All HasPositivePower bonded
      → queue_immediate_snapshot_vsc_packet dec cons_addr_of s height (some bonded) i ≡ some s'
      → HandedOn c s s'
  unfolding queue_immediate_snapshot_vsc_packet
  queue_immediate_snapshot_vsc_packet-HandedOn s s' bonded i c powers run =
      elim (Option-cases (queue_vsc_packet dec cons_addr_of s height bonded true i)) [
        | inl failed ↦ ground (arith, run, failed)
        | inr (s₁, done) ↦ subst (HandedOn c s) (ground (arith, run, done)) (
            increment-HandedOn c s s₁ (elim (Bool-cases (i == c)) [
              | inl own ↦
                  let done' : queue_vsc_packet dec cons_addr_of s height bonded true c ≡ some s₁ =
                    subst
                      (λ (j : ℕ).
                        queue_vsc_packet dec cons_addr_of s height bonded true j ≡ some s₁)
                      (ground (arith, own)) done in
                  let (id, queued_here) =
                    queue_vsc_packet-own s s₁ bonded true c powers (λ h. cc) done' in
                  (id, inr queued_here)
              | inr apart ↦
                  let (id, kept) = queue_vsc_packet-other s s₁ bonded true i c apart done in
                  (id, inl kept)
            ]))
      ]
