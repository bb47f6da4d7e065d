-- ===== src/Consumer/Relay/Liveness.antt =====
-- A packet that a consumer takes leaves it with a validator (wouldEmptyValidatorSet of
-- x/vaas/consumer/keeper/relay.go).
use vaas.Base.{
  ℕ, ◌<◌, ◌≡◌, refl, Bool, true, false, none, some, List, [], ◌∷◌, ltb, ◌==◌, nat_eq, arith,
  Bool-cases, Option-cases, inl, inr, subst,
}
use vaas.Base.Store.{Store, IsStore, get}
use vaas.Evidence.Decimal.{Decimals}
use vaas.Packet.{ValidatorSetChangePacketData, of_wire}
use vaas.ValidatorSet.{ValidatorUpdate, accumulate_changes}
use vaas.ValidatorSet.Diff.{effects}
use vaas.ValidatorSet.Accumulate.{
  last_power, IsKeyed, accumulate_changes-IsKeyed, last_power-accumulate_changes,
  effects-last_power,
}
use vaas.Consumer.Relay.{
  ClientState, State, handled, has_positive_power, current_validators_as_updates,
  would_empty_validator_set, is_out_of_order, on_recv_vsc_packet_v2, end_block,
}
use vaas.Consumer.Relay.Effect.{
  effective, get-end_block, outcome_power, on_recv_vsc_packet_v2_effect, on_recv-live,
}

-- A key that the updates leave with a positive power.
abbrev HasPower : List ValidatorUpdate → Type 0
HasPower us = (key : ℕ) × (power : ℕ) × (last_power key us ≡ some power) × (0 < power)

has_positive_power-HasPower :
    (us : List ValidatorUpdate) → IsKeyed us → has_positive_power us ≡ true → HasPower us
unfolding has_positive_power last_power
has_positive_power-HasPower [] keyed h = ground (arith, h)
has_positive_power-HasPower (u ∷ us) keyed h = elim (Bool-cases (ltb 0 u.power)) [
  | inl positive ↦ (u.pub_key, u.power, ground (arith, keyed.0), ground (arith, positive))
  | inr zero_power ↦
      let (key, power, last, positive) =
        has_positive_power-HasPower us keyed.1 (ground (arith, h, zero_power)) in
      (key, power, ground (arith, last), positive)
]

last_power-current :
    (key : ℕ) (m : Store ℕ ℕ)
    → IsStore m
    → last_power key (current_validators_as_updates m) ≡ get key m
unfolding last_power current_validators_as_updates get
last_power-current key [] h = refl
last_power-current key (v ∷ vs) h = elim (Bool-cases (v.0 == key)) [
  | inl own ↦
      let same : v.0 ≡ key = ground (arith, own) in
      ground
        (arith, own, last_power-current key vs h.1, subst (λ (j : ℕ). get j vs ≡ none) same h.0)
  | inr other ↦ ground (arith, other, last_power-current key vs h.1)
]

module _ (dec : Decimals) where
  -- What an accepted packet leaves of a key that the guard sees with a power.
  guarded_power :
      (s : State dec) (p : ValidatorSetChangePacketData dec)
      → IsStore s.vaas_validators
      → (p.is_snapshot ≡ true → IsKeyed (of_wire p.validator_updates))
      → would_empty_validator_set dec s p ≡ false
      → (key : ℕ) × (power : ℕ) × (outcome_power dec p key (effective dec s key) ≡ some power)
        × (0 < power)
  unfolding would_empty_validator_set effective
  guarded_power s p store keyed live =
      let updates = of_wire p.validator_updates in
      let current = current_validators_as_updates s.vaas_validators in
      elim (Bool-cases p.is_snapshot) [
        | inl snapshot ↦
            let (key, power, last, positive) =
              has_positive_power-HasPower updates (keyed snapshot)
                (ground (arith, live, snapshot)) in
            (key, power, ground (arith, snapshot, last, positive), positive)
        | inr diff ↦ elim (Option-cases s.pending_changes) [
          | inl idle ↦
              let (key, power, last, positive) =
                has_positive_power-HasPower (accumulate_changes current updates)
                  (accumulate_changes-IsKeyed current updates) (ground (arith, live, diff, idle)) in
              let before = get key s.vaas_validators in
              (
                key,
                power,
                ground (
                  arith,
                  diff,
                  idle,
                  last,
                  positive,
                  last_power-accumulate_changes key current updates,
                  last_power-current key s.vaas_validators store,
                  effects-last_power key updates before,
                ),
                positive,
              )
          | inr (changes, due) ↦
              let joined = accumulate_changes current changes in
              let (key, power, last, positive) =
                has_positive_power-HasPower (accumulate_changes joined updates)
                  (accumulate_changes-IsKeyed joined updates) (ground (arith, live, diff, due)) in
              let before = get key s.vaas_validators in
              (
                key,
                power,
                ground (
                  arith,
                  diff,
                  due,
                  last,
                  positive,
                  last_power-accumulate_changes key joined updates,
                  last_power-accumulate_changes key current changes,
                  last_power-current key s.vaas_validators store,
                  effects-last_power key changes before,
                  effects-last_power key updates (effects key changes before),
                ),
                positive,
              )
        ]
      ]

  -- After a packet that is handled and not out of order, the next flush leaves the consumer with a
  -- validator of positive power, where no key is stored twice and no key of a snapshot is listed
  -- twice.
  pub handled_packet_keeps_validators :
      (decodes : ℕ → Bool) (clients : ℕ → ClientState) (s s' : State dec) (now client : ℕ)
      (p : ValidatorSetChangePacketData dec)
      → IsStore s.vaas_validators
      → (p.is_snapshot ≡ true → IsKeyed (of_wire p.validator_updates))
      → is_out_of_order dec s p ≡ false
      → on_recv_vsc_packet_v2 dec decodes clients s now client p ≡ handled s'
      → (key : ℕ) × (power : ℕ) × (get key (end_block dec s').0.vaas_validators ≡ some power)
        × (0 < power)
  handled_packet_keeps_validators decodes clients s s' now client p store keyed fresh run =
      let received = on_recv_vsc_packet_v2_effect dec decodes clients s s' now client p run in
      let live = on_recv-live dec decodes clients s s' now client p fresh run in
      let (key, power, kept_power, positive) = guarded_power s p store keyed live in
      (
        key,
        power,
        ground (arith, fresh, kept_power, received.power key, get-end_block dec s' key),
        positive,
      )
