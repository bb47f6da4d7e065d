-- ===== src/Provider/Relay/Sent.antt =====
-- What the sending of the packets that wait for a consumer leaves
-- (x/vaas/provider/keeper/relay.go).
use vaas.Base.{
  ℕ, ◌≤◌, ◌≡◌, refl, ap, ◌∙◌, subst, Bool, true, false, some, List, [], ◌∷◌, ◌++◌, ltb,
  if◌then◌else◌, nat_eq, arith, Bool-cases, inl, inr, ◌⊎◌, All,
}
use vaas.Base.Store.{remove, get-set, get-remove}
use vaas.Evidence.Decimal.{Decimals}
use vaas.Packet.{ValidatorSetChangePacketData}
use vaas.Provider.Relay.{
  State, consumer_of_client, on_acknowledgement_packet_v2, get_consumer_val_set,
  get_pending_vsc_packets, get_highest_sent, get_highest_acked,
}
use vaas.Provider.Relay.Queueing.{View, view}
use vaas.Provider.Relay.Sending.{
  raise_highest_sent, send_each, send_vsc_packets_to_chain_strict, send_vsc_packets_to_chain,
}

-- Some of the waiting packets have been sent, in order: all, and then none waits, or else all stay.
pub record IsSent {dec : Decimals} (v v' : View dec) (out : List (ValidatorSetChangePacketData dec))
    : Type 0 where
  pub same_val_set : v'.val_set ≡ v.val_set
  pub same_acked : v'.acked ≡ v.acked
  pub grows : v.sent ≤ v'.sent
  pub bounded : (b : ℕ) → v.sent ≤ b → All (λ p. p.valset_update_id ≤ b) v.pending → v'.sent ≤ b
  pub covered : All (λ p. p.valset_update_id ≤ v'.sent) out
  pub rest : List (ValidatorSetChangePacketData dec)
  pub prefix : v.pending ≡ out ++ rest
  pub left : (v'.pending ≡ v.pending) ⊎ ((v'.pending ≡ []) × (rest ≡ []))

module _ (dec : Decimals) (sends : ValidatorSetChangePacketData dec → Bool) where
  -- What the loop leaves, with the packets that it was given.
  pub record IsSentFrom (v v' : View dec) (given out : List (ValidatorSetChangePacketData dec))
      (done : Bool) : Type 0 where
    pub same_val_set : v'.val_set ≡ v.val_set
    pub same_acked : v'.acked ≡ v.acked
    pub same_pending : v'.pending ≡ v.pending
    pub grows : v.sent ≤ v'.sent
    pub bounded : (b : ℕ) → v.sent ≤ b → All (λ p. p.valset_update_id ≤ b) given → v'.sent ≤ b
    pub covered : All (λ p. p.valset_update_id ≤ v'.sent) out
    pub rest : List (ValidatorSetChangePacketData dec)
    pub prefix : given ≡ out ++ rest
    pub finished : done ≡ true → rest ≡ []

  raised :
      (s : State dec) (c id : ℕ)
      → (id ≤ get_highest_sent dec (raise_highest_sent dec s c id) c)
        × (get_highest_sent dec s c ≤ get_highest_sent dec (raise_highest_sent dec s c id) c)
        × ((b : ℕ)
            → get_highest_sent dec s c ≤ b
            → id ≤ b
            → get_highest_sent dec (raise_highest_sent dec s c id) c ≤ b)
  unfolding raise_highest_sent get_highest_sent
  raised s c id =
      let set_is = get-set c c id s.consumer_highest_sent_vsc_id in
      (ground (arith, set_is), ground (arith, set_is), λ b h h'. ground (arith, set_is))

  raised_same :
      (s : State dec) (c id : ℕ)
      → let s' = raise_highest_sent dec s c id in
        (get_consumer_val_set dec s' c ≡ get_consumer_val_set dec s c)
        × (get_highest_acked dec s' c ≡ get_highest_acked dec s c)
        × (get_pending_vsc_packets dec s' c ≡ get_pending_vsc_packets dec s c)
        × (s'.validator_set_update_id ≡ s.validator_set_update_id)
  unfolding raise_highest_sent get_consumer_val_set get_highest_acked get_pending_vsc_packets
  raised_same s c id = ground arith

  -- The loop's result, for the packets that it was given.
  abbrev Left :
      State dec
      → ℕ
      → List (ValidatorSetChangePacketData dec)
      → State dec × List (ValidatorSetChangePacketData dec) × Bool
      → Type 0
  Left s c given (s', out, done) =
      IsSentFrom (view dec s c) (view dec s' c) given out done
      × (s'.validator_set_update_id ≡ s.validator_set_update_id)

  nothing_sent :
      (s : State dec) (c : ℕ) (given : List (ValidatorSetChangePacketData dec)) (done : Bool)
      → (done ≡ true → given ≡ [])
      → Left s c given (s, [], done)
  nothing_sent s c given done h = (
    record {
      same_val_set = refl;
      same_acked = refl;
      same_pending = refl;
      grows = omega arith;
      bounded = λ b above below. above;
      covered = tt;
      rest = given;
      prefix = refl;
      finished = h;
    },
    refl,
  )

  one_sent :
      (s s' : State dec) (c : ℕ) (p : ValidatorSetChangePacketData dec)
      (given out : List (ValidatorSetChangePacketData dec)) (done : Bool)
      → Left (raise_highest_sent dec s c p.valset_update_id) c given (s', out, done)
      → Left s c (p ∷ given) (s', p ∷ out, done)
  one_sent s s' c p given out done (r, id_same) =
      let (above, grows, bounded) = raised s c p.valset_update_id in
      let (set_same, acked_same, pending_same, id_same') = raised_same s c p.valset_update_id in
      (
        record {
          same_val_set = r.same_val_set ∙ set_same;
          same_acked = r.same_acked ∙ acked_same;
          same_pending = r.same_pending ∙ pending_same;
          grows = omega (arith, grows, r.grows);
          bounded = λ b h h'. r.bounded b (bounded b h h'.0) h'.1;
          covered = (omega (arith, above, r.grows), r.covered);
          rest = r.rest;
          prefix = ap (λ (qs : List (ValidatorSetChangePacketData dec)). p ∷ qs) r.prefix;
          finished = r.finished;
        },
        id_same ∙ id_same',
      )

  send_each-Left :
      (s : State dec) (c : ℕ) (ps : List (ValidatorSetChangePacketData dec))
      → Left s c ps (send_each dec sends s c ps)
  unfolding send_each
  send_each-Left s c [] = nothing_sent s c [] true (λ h. refl)
  send_each-Left s c (p ∷ ps) = elim (Bool-cases (sends p)) [
    | inr fails ↦
        subst (Left s c (p ∷ ps)) (ground (arith, fails))
          (nothing_sent s c (p ∷ ps) false (λ h. cc))
    | inl works ↦
        let s₁ = raise_highest_sent dec s c p.valset_update_id in
        let run = send_each dec sends s₁ c ps in
        subst (Left s c (p ∷ ps)) {x = (run.0, p ∷ run.1, run.2)} (ground (arith, works))
          (one_sent s run.0 c p ps run.1 run.2 (send_each-Left s₁ c ps))
  ]

  -- The packets that wait are deleted once all have been sent.
  abbrev settled_relay : State dec → ℕ → Bool → State dec
  settled_relay s c done =
      if done then record s { pending_vsc_packets = remove c s.pending_vsc_packets } else s

  Left-IsSent :
      (s s' : State dec) (c : ℕ) (out : List (ValidatorSetChangePacketData dec)) (done : Bool)
      → Left s c (get_pending_vsc_packets dec s c) (s', out, done)
      → IsSent (view dec s c) (view dec (settled_relay s' c done) c) out
        × ((settled_relay s' c done).validator_set_update_id ≡ s.validator_set_update_id)
  unfolding get_consumer_val_set get_highest_acked get_highest_sent get_pending_vsc_packets
  Left-IsSent s s' c out true (r, id_same) = (
    record {
      same_val_set = r.same_val_set;
      same_acked = r.same_acked;
      grows = r.grows;
      bounded = r.bounded;
      covered = r.covered;
      rest = r.rest;
      prefix = r.prefix;
      left = inr (ground (arith, get-remove c c s'.pending_vsc_packets), r.finished refl);
    },
    id_same,
  )
  Left-IsSent s s' c out false (r, id_same) = (
    record {
      same_val_set = r.same_val_set;
      same_acked = r.same_acked;
      grows = r.grows;
      bounded = r.bounded;
      covered = r.covered;
      rest = r.rest;
      prefix = r.prefix;
      left = inl r.same_pending;
    },
    id_same,
  )

  -- The sending to a consumer sends a part of what waits, in order, and leaves either all that waits
  -- or, where all was sent, nothing.
  pub send_vsc_packets_to_chain-IsSent :
      (s : State dec) (c : ℕ)
      → let run = send_vsc_packets_to_chain dec sends s c in
        IsSent (view dec s c) (view dec run.0 c) run.1
        × (run.0.validator_set_update_id ≡ s.validator_set_update_id)
  unfolding send_vsc_packets_to_chain send_vsc_packets_to_chain_strict
  send_vsc_packets_to_chain-IsSent s c =
      let run = send_each dec sends s c (get_pending_vsc_packets dec s c) in
      Left-IsSent s run.0 c run.1 run.2 (send_each-Left s c (get_pending_vsc_packets dec s c))

-- An acknowledgement from a consumer's client raises the consumer's highest acknowledged id at most.
pub on_acknowledgement_packet_v2-view :
    (dec : Decimals) (s : State dec) (now client id c : ℕ)
    → consumer_of_client client s.consumer_clients ≡ some c
    → let s' = on_acknowledgement_packet_v2 dec s now client id false in
      (s'.validator_set_update_id ≡ s.validator_set_update_id)
      × ((view dec s' c ≡ view dec s c) ⊎ (view dec s' c ≡ record (view dec s c) { acked = id }))
unfolding on_acknowledgement_packet_v2 get_consumer_val_set get_highest_acked get_highest_sent
    get_pending_vsc_packets
on_acknowledgement_packet_v2-view dec s now client id c ours =
    elim (Bool-cases (ltb (get_highest_acked dec s c) id)) [
      | inl higher ↦ (
        ground (arith, ours, higher),
        inr (ground (arith, ours, higher, get-set c c id s.consumer_highest_acked_vsc_id)),
      )
      | inr lower ↦ (ground (arith, ours, lower), inl (ground (arith, ours, lower)))
    ]
