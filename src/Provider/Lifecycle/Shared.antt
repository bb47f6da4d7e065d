-- ===== src/Provider/Lifecycle/Shared.antt =====
-- How the operations on consumers change the phases and the queue of pauses, where the consumers that
-- are paused afterwards were paused before (x/vaas/provider/keeper/consumer_lifecycle.go).
use vaas.Base.{
  ℕ, ◌≡◌, refl, sym, ap, ◌∙◌, Bool, false, Option, List, [], ◌∷◌, ◌==◌, if◌then◌else◌, nat_eq,
  pair_eq, value_or, arith, Bool-cases, Option-cases, inl, inr, OnSome,
}
use vaas.Base.Store.{Store, get, remove, select, get-set}
use vaas.Evidence.Decimal.{Decimals}
use vaas.ValidatorSet.{ConsensusValidator, ValidatorUpdate}
use vaas.Provider.State.{Keeper, Phase, unspecified, paused, phase_eq, get_consumer_phase}
use vaas.Provider.Bank.{Bank}
use vaas.Provider.Fees.{Staking}
use vaas.Provider.Fees.Run.{Withheld, pay_withheld_fee, pay_records, pay_withheld_fees}
use vaas.Provider.Assembly.{StakingValidator, create_consumer_validators}
use vaas.Provider.Relay
use vaas.Provider.Relay.{compute_consumer_next_val_set, get_consumer_val_set}
use vaas.Provider.Lifecycle.{State, phase_of, with_keeper, set_consumer_phase}

module _ (dec : Decimals) (bank : Bank) where
  -- The queue of pauses is the same, and nobody is paused that was not.
  abbrev pub NoPause : State dec bank → State dec bank → Type 0
  NoPause s s' =
      (s'.pause_expiration_queue ≡ s.pause_expiration_queue)
      × ((j : ℕ) → phase_of dec bank s' j ≡ paused → phase_of dec bank s j ≡ paused)

  pub NoPause-trans : (s t u : State dec bank) → NoPause s t → NoPause t u → NoPause s u
  NoPause-trans s t u h h' = (h'.0 ∙ h.0, λ j p. h.1 j (h'.1 j p))

  pub phase_of-phases :
      (s s' : State dec bank) (j : ℕ)
      → s'.relay.keeper.phases ≡ s.relay.keeper.phases
      → phase_of dec bank s' j ≡ phase_of dec bank s j
  unfolding phase_of get_consumer_phase
  phase_of-phases s s' j same = ap (λ (m : Store ℕ Phase). value_or unspecified (get j m)) same

  pub NoPause-same :
      (s s' : State dec bank)
      → s'.pause_expiration_queue ≡ s.pause_expiration_queue
      → s'.relay.keeper.phases ≡ s.relay.keeper.phases
      → NoPause s s'
  NoPause-same s s' queue phases = (queue, λ j p. sym (phase_of-phases s s' j phases) ∙ p)

  -- The phases after one is set.
  pub phase_of-set :
      (s : State dec bank) (i : ℕ) (phase : Phase) (j : ℕ)
      → phase_of dec bank (set_consumer_phase dec bank s i phase) j
        ≡ (if i == j then phase else phase_of dec bank s j)
  unfolding phase_of set_consumer_phase with_keeper get_consumer_phase
  phase_of-set s i phase j = ground (arith, get-set j i phase s.relay.keeper.phases)

  pub Phase-apart : (phase : Phase) → phase_eq phase paused ≡ false → phase ≡ paused → ⊥
  Phase-apart phase other same = ground (arith, other, ap (λ (q : Phase). phase_eq q paused) same)

  pub NoPause-set :
      (s : State dec bank) (i : ℕ) (phase : Phase)
      → phase_eq phase paused ≡ false
      → NoPause s (set_consumer_phase dec bank s i phase)
  unfolding set_consumer_phase with_keeper
  NoPause-set s i phase other = (
    refl,
    λ j p. elim (Bool-cases (i == j)) [
      | inl same ↦
          absurd (Phase-apart phase other (ground (arith, phase_of-set s i phase j, p, same)))
      | inr apart ↦ ground (arith, phase_of-set s i phase j, p, apart)
    ],
  )

  -- ComputeConsumerNextValSet leaves the keeper's state.
  pub compute_consumer_next_val_set-keeper :
      (cons_addr_of : ℕ → Option ℕ) (s : Relay.State dec) (height : ℕ)
      (bonded : List StakingValidator) (i : ℕ) (current : List ConsensusValidator)
      (is_snapshot : Bool)
      → OnSome
          (λ (r : Relay.State dec × List ValidatorUpdate). r.0.keeper ≡ s.keeper)
          (compute_consumer_next_val_set dec cons_addr_of s height bonded i current is_snapshot)
  unfolding compute_consumer_next_val_set
  compute_consumer_next_val_set-keeper cons_addr_of s height bonded i current is_snapshot =
      elim (Option-cases (
        create_consumer_validators cons_addr_of s.validator_consumer_pub_key
          (get_consumer_val_set dec s i) height i bonded)) [
            | inl missing ↦ rw missing tt
            | inr (next, made) ↦ rw made refl
          ]

  pay_records-phases :
      (staking : Staking) (now i : ℕ) (xs : List Withheld) (k : Keeper) (l : bank.Ledger)
      → (pay_records bank k l staking now i xs).0.phases ≡ k.phases
  unfolding pay_records
  pay_records-phases staking now i [] k l = refl
  pay_records-phases staking now i (x ∷ xs) k l =
      pay_records-phases staking now i xs
        (record k { withheld_fee_records = remove x.0 k.withheld_fee_records })
        (pay_withheld_fee bank l staking now i x)

  -- PayWithheldFees leaves the phases.
  pub pay_withheld_fees-phases :
      (k : Keeper) (l : bank.Ledger) (staking : Staking) (now i : ℕ)
      → (pay_withheld_fees bank k l staking now i).0.phases ≡ k.phases
  unfolding pay_withheld_fees
  pay_withheld_fees-phases k l staking now i =
      pay_records-phases staking now i (select (λ x. x.0.0 == i) k.withheld_fee_records) k l
