-- ===== src/Provider/Relay/Queueing.antt =====
-- What queueing packets does to one consumer (QueueVSCPackets of x/vaas/provider/keeper/relay.go).
use vaas.Base.{
  ℕ, ◌<◌, ◌≤◌, ◌≡◌, refl, sym, ap, ◌∙◌, subst, Bool, true, false, Option, some, List, [], ◌∷◌, ◌++◌,
  ◌==◌, if◌then◌else◌, nat_eq, pair_eq, arith, Option-cases, inl, inr, All,
}
use vaas.Base.Store.{set, get-set}
use vaas.Evidence.Decimal.{Decimals}
use vaas.Packet.{ValidatorSetChangePacketData, of_wire, of_wire-to_wire}
use vaas.ValidatorSet.{ConsensusValidator, diff_validators, full_val_set_updates}
use vaas.ValidatorSet.Diff.{IsDistinct}
use vaas.Provider.Assembly.{StakingValidator, create_consumer_validators}
use vaas.Provider.Relay.{
  State, is_empty, get_consumer_val_set, get_pending_vsc_packets, get_highest_sent,
  get_highest_acked, build_vsc_packet, append_pending_vsc_packet, compute_consumer_next_val_set,
  needs_snapshot, queue_vsc_packet,
}

-- What the relay stores for one consumer.
pub record View (dec : Decimals) : Type 0 where
  pub val_set : List ConsensusValidator
  pub acked : ℕ
  pub sent : ℕ
  pub pending : List (ValidatorSetChangePacketData dec)

abbrev pub view : (dec : Decimals) → State dec → ℕ → View dec
view dec s consumer = record {
  val_set = get_consumer_val_set dec s consumer;
  acked = get_highest_acked dec s consumer;
  sent = get_highest_sent dec s consumer;
  pending = get_pending_vsc_packets dec s consumer;
}

-- A packet with an id has been queued for the consumer: a snapshot of the next set, or the diff to
-- it, which is queued only if all that was sent is acknowledged and nothing waits.
pub record IsQueued {dec : Decimals} (v v' : View dec) (id : ℕ) : Type 0 where
  pub packet : ValidatorSetChangePacketData dec
  pub distinct : IsDistinct v'.val_set
  pub positive : All (λ w. 0 < w.power) v'.val_set
  pub same_acked : v'.acked ≡ v.acked
  pub same_sent : v'.sent ≡ v.sent
  pub appended : v'.pending ≡ v.pending ++ packet ∷ []
  pub id_is : packet.valset_update_id ≡ id
  pub snapshot :
      packet.is_snapshot ≡ true → of_wire packet.validator_updates ≡ full_val_set_updates v'.val_set
  pub diff :
      packet.is_snapshot ≡ false
      → of_wire packet.validator_updates ≡ diff_validators v.val_set v'.val_set
  pub settled : packet.is_snapshot ≡ false → v.sent ≤ v.acked
  pub drained : packet.is_snapshot ≡ false → v.pending ≡ []

is_empty-nil : {A : Type 0} (xs : List A) → is_empty xs ≡ true → xs ≡ []
is_empty-nil [] h = refl
is_empty-nil (x ∷ xs) h = cc

module _ (dec : Decimals) (cons_addr_of : ℕ → Option ℕ) (height : ℕ) where
  -- The packet that is queued, and the state after that.
  abbrev pub new_packet :
      State dec → Bool → ℕ → List ConsensusValidator → ValidatorSetChangePacketData dec
  new_packet s is_snapshot consumer next =
      build_vsc_packet dec (record s { consumer_val_sets = set consumer next s.consumer_val_sets })
        consumer
        (if is_snapshot
          then full_val_set_updates next
          else diff_validators (get_consumer_val_set dec s consumer) next)
        s.validator_set_update_id is_snapshot

  abbrev pub queued : State dec → Bool → ℕ → List ConsensusValidator → State dec
  queued s is_snapshot consumer next =
      append_pending_vsc_packet dec
        (record s { consumer_val_sets = set consumer next s.consumer_val_sets }) consumer
        (new_packet s is_snapshot consumer next)

  pub queue_vsc_packet-queued :
      (s s' : State dec) (bonded : List StakingValidator) (is_snapshot : Bool) (consumer : ℕ)
      → queue_vsc_packet dec cons_addr_of s height bonded is_snapshot consumer ≡ some s'
      → (next : List ConsensusValidator) × (create_consumer_validators cons_addr_of
            s.validator_consumer_pub_key
            (get_consumer_val_set dec s consumer)
            height
            consumer
            bonded
          ≡ some next)
        × (s' ≡ queued s is_snapshot consumer next)
  unfolding queue_vsc_packet compute_consumer_next_val_set
  queue_vsc_packet-queued s s' bonded is_snapshot consumer run =
      elim (Option-cases (
        create_consumer_validators cons_addr_of s.validator_consumer_pub_key
          (get_consumer_val_set dec s consumer) height consumer bonded)) [
            | inl failed ↦ ground (arith, run, failed)
            | inr (next, made) ↦ (next, made, ground (arith, run, made))
          ]

  -- Another consumer's view is left as it is.
  pub queued-other :
      (s : State dec) (is_snapshot : Bool) (consumer other : ℕ) (next : List ConsensusValidator)
      → (consumer == other) ≡ false
      → view dec (queued s is_snapshot consumer next) other ≡ view dec s other
  unfolding append_pending_vsc_packet get_consumer_val_set get_highest_acked get_highest_sent
      get_pending_vsc_packets
  queued-other s is_snapshot consumer other next apart =
      let pending =
        get_pending_vsc_packets dec s consumer ++ (new_packet s is_snapshot consumer next ∷ []) in
      ground (
        arith,
        apart,
        get-set other consumer next s.consumer_val_sets,
        get-set other consumer pending s.pending_vsc_packets,
      )

  needs_snapshot-drained :
      (s : State dec) (consumer : ℕ)
      → needs_snapshot dec cons_addr_of s consumer ≡ false
      → get_pending_vsc_packets dec s consumer ≡ []
  unfolding needs_snapshot
  needs_snapshot-drained s consumer h =
      is_empty-nil (get_pending_vsc_packets dec s consumer) (ground (arith, h))

  pub queued-IsQueued :
      (s : State dec) (is_snapshot : Bool) (consumer : ℕ) (next : List ConsensusValidator)
      → IsDistinct next
      → All (λ w. 0 < w.power) next
      → (is_snapshot ≡ false → needs_snapshot dec cons_addr_of s consumer ≡ false)
      → IsQueued
          (view dec s consumer)
          (view dec (queued s is_snapshot consumer next) consumer)
          s.validator_set_update_id
  unfolding append_pending_vsc_packet get_consumer_val_set get_highest_acked get_highest_sent
      get_pending_vsc_packets build_vsc_packet needs_snapshot
  queued-IsQueued s is_snapshot consumer next distinct positive reason =
      let packet = new_packet s is_snapshot consumer next in
      let pending = get_pending_vsc_packets dec s consumer ++ (packet ∷ []) in
      let set_is = get-set consumer consumer next s.consumer_val_sets in
      let stored : get_consumer_val_set dec (queued s is_snapshot consumer next) consumer ≡ next =
        ground (arith, set_is) in
      record {
        packet = packet;
        distinct = subst IsDistinct (sym stored) distinct;
        positive = subst (All (λ w. 0 < w.power)) (sym stored) positive;
        same_acked = refl;
        same_sent = refl;
        appended = ground (arith, get-set consumer consumer pending s.pending_vsc_packets);
        id_is = refl;
        snapshot = λ h.
            rw h
              (of_wire-to_wire (full_val_set_updates next) ∙ ap full_val_set_updates (sym stored));
        diff = λ h. rw h (
            of_wire-to_wire (diff_validators (get_consumer_val_set dec s consumer) next)
            ∙ ap (diff_validators (get_consumer_val_set dec s consumer)) (sym stored));
        settled = λ h. ground (arith, reason h);
        drained = λ h. needs_snapshot-drained s consumer (reason h);
      }
