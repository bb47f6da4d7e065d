-- ===== src/Consumer/Relay/Effect.antt =====
-- What a packet does to the validator set that the consumer's next flush reaches
-- (x/vaas/consumer/keeper/relay.go).
use vaas.Base.{
  ℕ, ◌≡◌, refl, sym, ap, ◌∙◌, Bool, true, false, Option, none, some, [], if◌then◌else◌, nat_eq,
  arith, Bool-cases, Option-cases, inl, inr, ◌⊎◌, subst,
}
use vaas.Base.Store.{get}
use vaas.Evidence.Decimal.{Decimals}
use vaas.Packet.{ValidatorSetChangePacketData, of_wire, validate}
use vaas.ValidatorSet.Diff.{effects, get-apply_vaas_validator_changes}
use vaas.ValidatorSet.Accumulate.{last_power, kept, effects-accumulate_changes}
use vaas.ValidatorSet.Replace.{effects-compute_replace_updates}
use vaas.Consumer.Relay.{
  Refusal, ClientState, no_client, other_client, tendermint, State, Outcome, handled, refused,
  authenticate_provider_chain_id, enforce_pinned_provider_client, would_empty_validator_set,
  next_pending_changes, accept_vsc_packet, is_out_of_order, on_recv_vsc_packet_v2, end_block,
}

module _ (dec : Decimals) where
  -- The power of a key after the pending changes.
  unfoldable pub effective : State dec → ℕ → Option ℕ
  effective s key = elim s.pending_changes [
    | none ↦ get key s.vaas_validators
    | some changes ↦ effects key changes (get key s.vaas_validators)
  ]

  pub get-end_block :
      (s : State dec) (key : ℕ) → get key (end_block dec s).0.vaas_validators ≡ effective s key
  unfolding end_block effective
  get-end_block s key = elim (Option-cases s.pending_changes) [
    | inl idle ↦ ground (arith, idle)
    | inr (changes, due) ↦
        ground (arith, due, get-apply_vaas_validator_changes s.vaas_validators changes key)
  ]

  pub effective-end_block :
      (s : State dec) (key : ℕ) → effective (end_block dec s).0 key ≡ effective s key
  unfolding end_block effective
  effective-end_block s key = elim (Option-cases s.pending_changes) [
    | inl idle ↦ ground (arith, idle)
    | inr (changes, due) ↦
        ground (arith, due, get-apply_vaas_validator_changes s.vaas_validators changes key)
  ]

  -- The power of a key after a packet.
  abbrev pub outcome_power : ValidatorSetChangePacketData dec → ℕ → Option ℕ → Option ℕ
  outcome_power p key power =
      if p.is_snapshot
      then elim (last_power key (of_wire p.validator_updates)) [ none ↦ none | some n ↦ kept n ]
      else effects key (of_wire p.validator_updates) power

  accept_vsc_packet-effective :
      (s s' : State dec) (now : ℕ) (p : ValidatorSetChangePacketData dec) (key : ℕ)
      → accept_vsc_packet dec s now p ≡ handled s'
      → effective s' key ≡ outcome_power p key (effective s key)
  unfolding accept_vsc_packet next_pending_changes effective effects
  accept_vsc_packet-effective s s' now p key run =
      let updates = of_wire p.validator_updates in
      let before = get key s.vaas_validators in
      elim (Bool-cases (would_empty_validator_set dec s p)) [
        | inl empty ↦ ground (arith, run, empty)
        | inr live ↦ elim (Bool-cases p.is_snapshot) [
          | inl snapshot ↦ ground (
            arith,
            run,
            live,
            snapshot,
            effects-compute_replace_updates key s.vaas_validators updates,
          )
          | inr diff ↦ elim (Option-cases s.pending_changes) [
            | inl idle ↦
                ground
                  (arith, run, live, diff, idle, effects-accumulate_changes key [] updates before)
            | inr (changes, due) ↦
                ground (
                  arith,
                  run,
                  live,
                  diff,
                  due,
                  effects-accumulate_changes key changes updates before,
                )
          ]
        ]
      ]

  abbrev pub IsRefused : Outcome dec → Type 0
  IsRefused o = (why : Refusal) × (o ≡ refused why)

  Outcome-cases : (o : Outcome dec) → IsRefused o ⊎ ((s : State dec) × (o ≡ handled s))
  Outcome-cases (refused why) = inl (why, refl)
  Outcome-cases (handled s) = inr (s, refl)

  -- Authentication changes the pinned chain id at most.
  authenticate-pins :
      (s s' : State dec) (client : ClientState)
      → authenticate_provider_chain_id dec s client ≡ handled s'
      → s' ≡ record s { provider_chain_id = s'.provider_chain_id }
  unfolding authenticate_provider_chain_id
  authenticate-pins s s' no_client run = ground (arith, run)
  authenticate-pins s s' other_client run = ground (arith, run)
  authenticate-pins s s' (tendermint chain_id) run = elim (Option-cases s.provider_chain_id) [
    | inl unpinned ↦ ground (arith, run, unpinned)
    | inr (pinned, known) ↦ ground (arith, run, known)
  ]

  -- A handled packet is out of order, and leaves the validators as they are, or it passed all checks.
  on_recv-cases :
      (decodes : ℕ → Bool) (clients : ℕ → ClientState) (s s' : State dec) (now client : ℕ)
      (p : ValidatorSetChangePacketData dec)
      → on_recv_vsc_packet_v2 dec decodes clients s now client p ≡ handled s'
      → (s₁ : State dec) × (authenticate_provider_chain_id dec s (clients client) ≡ handled s₁)
        × (enforce_pinned_provider_client dec s₁ client ≡ true)
        × (((is_out_of_order dec s₁ p ≡ true) × (s' ≡ s₁))
            ⊎ ((is_out_of_order dec s₁ p ≡ false) × (accept_vsc_packet dec s₁ now p ≡ handled s')))
  unfolding on_recv_vsc_packet_v2
  on_recv-cases decodes clients s s' now client p run = elim (Bool-cases (validate dec decodes p)) [
    | inr invalid ↦ ground (arith, run, invalid)
    | inl valid ↦ elim (Outcome-cases (authenticate_provider_chain_id dec s (clients client))) [
      | inl (why, failed) ↦ ground (arith, run, valid, failed)
      | inr (s₁, authentic) ↦ elim (Bool-cases (enforce_pinned_provider_client dec s₁ client)) [
        | inr wrong ↦ ground (arith, run, valid, authentic, wrong)
        | inl pinned ↦ (
          s₁,
          authentic,
          pinned,
          elim (Bool-cases (is_out_of_order dec s₁ p)) [
            | inl old ↦ inl (old, ground (arith, run, valid, authentic, pinned, old))
            | inr fresh ↦ inr (fresh, ground (arith, run, valid, authentic, pinned, fresh))
          ],
        )
      ]
    ]
  ]

  -- What a handled packet means for the validators: nothing where it is out of order.
  pub record IsReceived (s s' : State dec) (p : ValidatorSetChangePacketData dec) : Type 0 where
    pub highest :
        s'.highest_valset_update_id
        ≡ (if is_out_of_order dec s p then s.highest_valset_update_id else some p.valset_update_id)
    pub power :
        (key : ℕ)
        → effective s' key ≡ (
            if is_out_of_order dec s p
            then effective s key
            else outcome_power p key (effective s key))

  accept_vsc_packet-highest :
      (s s' : State dec) (now : ℕ) (p : ValidatorSetChangePacketData dec)
      → accept_vsc_packet dec s now p ≡ handled s'
      → s'.highest_valset_update_id ≡ some p.valset_update_id
  unfolding accept_vsc_packet
  accept_vsc_packet-highest s s' now p run = elim (Bool-cases (would_empty_validator_set dec s p)) [
    | inl empty ↦ ground (arith, run, empty)
    | inr live ↦ ground (arith, run, live)
  ]

  after_checks-IsReceived :
      (s s' : State dec) (now : ℕ) (p : ValidatorSetChangePacketData dec)
      → ((is_out_of_order dec s p ≡ true) × (s' ≡ s))
        ⊎ ((is_out_of_order dec s p ≡ false) × (accept_vsc_packet dec s now p ≡ handled s'))
      → IsReceived s s' p
  after_checks-IsReceived s s' now p (inl (old, same)) = record {
    highest = rw old (ap (λ (t : State dec). t.highest_valset_update_id) same);
    power = λ key. rw old (ap (λ (t : State dec). effective t key) same);
  }
  after_checks-IsReceived s s' now p (inr (fresh, run)) = record {
    highest = rw fresh (accept_vsc_packet-highest s s' now p run);
    power = λ key. rw fresh (accept_vsc_packet-effective s s' now p key run);
  }

  pinned-IsReceived :
      (s s' : State dec) (chain_id : Option ℕ) (p : ValidatorSetChangePacketData dec)
      → IsReceived (record s { provider_chain_id = chain_id }) s' p
      → IsReceived s s' p
  unfolding effective is_out_of_order
  pinned-IsReceived s s' chain_id p r = record { highest = r.highest; power = r.power }

  -- After a packet that is handled, the validator set that the next flush reaches and the highest
  -- processed update id are those before where the packet's id is not above the highest one. Else the
  -- id is the packet's, and the set is the snapshot's alone, or the diff applied to the set before.
  pub on_recv_vsc_packet_v2_effect :
      (decodes : ℕ → Bool) (clients : ℕ → ClientState) (s s' : State dec) (now client : ℕ)
      (p : ValidatorSetChangePacketData dec)
      → on_recv_vsc_packet_v2 dec decodes clients s now client p ≡ handled s'
      → IsReceived s s' p
  on_recv_vsc_packet_v2_effect decodes clients s s' now client p run =
      let (s₁, authentic, pinned, rest) = on_recv-cases decodes clients s s' now client p run in
      let same = authenticate-pins s s₁ (clients client) authentic in
      pinned-IsReceived s s' s₁.provider_chain_id p (
        subst (λ (t : State dec). IsReceived t s' p) same
          (after_checks-IsReceived s₁ s' now p rest))

  -- A handled packet that is not out of order has passed the guard against an empty set.
  pub on_recv-live :
      (decodes : ℕ → Bool) (clients : ℕ → ClientState) (s s' : State dec) (now client : ℕ)
      (p : ValidatorSetChangePacketData dec)
      → is_out_of_order dec s p ≡ false
      → on_recv_vsc_packet_v2 dec decodes clients s now client p ≡ handled s'
      → would_empty_validator_set dec s p ≡ false
  unfolding is_out_of_order would_empty_validator_set accept_vsc_packet
  on_recv-live decodes clients s s' now client p fresh run =
      let (s₁, authentic, pinned, rest) = on_recv-cases decodes clients s s' now client p run in
      let same = authenticate-pins s s₁ (clients client) authentic in
      let order = ap (λ (t : State dec). is_out_of_order dec t p) same in
      let guard = ap (λ (t : State dec). would_empty_validator_set dec t p) same in
      elim rest [
        | inl (old, kept) ↦ cc (old, order, fresh)
        | inr (later, accepted) ↦ elim (Bool-cases (would_empty_validator_set dec s₁ p)) [
          | inl empty ↦ ground (arith, empty, accepted)
          | inr live ↦ sym guard ∙ live
        ]
      ]
