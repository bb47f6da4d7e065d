-- ===== src/ValidatorSet/Replace.antt =====
-- A snapshot of a validator set, and computeReplaceUpdates (x/vaas/consumer/keeper/validators.go): a
-- consumer that applies the replacement has exactly the set of the snapshot.
use vaas.Base.{
  ℕ, ◌<◌, ◌≡◌, refl, ap, ◌∙◌, Option, none, some, List, [], ◌∷◌, ◌==◌, if◌then◌else◌, is_some,
  nat_eq, arith, Bool-cases, Option-cases, inl, inr, All,
}
use vaas.Base.Store.{Store, get}
use vaas.ValidatorSet.{
  ConsensusValidator, ValidatorUpdate, find, full_val_set_updates, has_update, removals,
  compute_replace_updates, apply_vaas_validator_changes,
}
use vaas.ValidatorSet.Diff.{
  power_in, find-positive, effects, effects-append, get-apply_vaas_validator_changes,
}
use vaas.ValidatorSet.Accumulate.{last_power, kept, effects-last_power}

has_update-last_power :
    (key : ℕ) (us : List ValidatorUpdate) → has_update key us ≡ is_some (last_power key us)
unfolding has_update last_power
has_update-last_power key [] = refl
has_update-last_power key (u ∷ us) = ground (arith, has_update-last_power key us)

effects-removals :
    (key : ℕ) (m : Store ℕ ℕ) (target : List ValidatorUpdate) (o : Option ℕ)
    → effects key (removals m target) o
      ≡ (if has_update key target then o else elim (get key m) [ none ↦ o | some p ↦ none ])
unfolding effects removals get
effects-removals key [] target o = ground arith
effects-removals key (v ∷ vs) target o = elim (Bool-cases (v.0 == key)) [
  | inl own ↦
      let same : v.0 ≡ key = ground (arith, own) in
      let here = ap (λ (j : ℕ). has_update j target) same in
      ground
        (arith, own, here, effects-removals key vs target o, effects-removals key vs target none)
  | inr other ↦ ground (arith, other, effects-removals key vs target o)
]

-- What a replacement leaves of a key does not depend on what was there.
pub effects-compute_replace_updates :
    (key : ℕ) (m : Store ℕ ℕ) (target : List ValidatorUpdate)
    → effects key (compute_replace_updates m target) (get key m)
      ≡ elim (last_power key target) [ none ↦ none | some p ↦ kept p ]
unfolding compute_replace_updates
effects-compute_replace_updates key m target =
    effects-append key target (removals m target) (get key m)
    ∙ ground (
      arith,
      effects-removals key m target (effects key target (get key m)),
      effects-last_power key target (get key m),
      has_update-last_power key target,
    )

last_power-full_val_set_updates :
    (key : ℕ) (vs : List ConsensusValidator)
    → last_power key (full_val_set_updates vs) ≡ power_in key vs
unfolding last_power full_val_set_updates find
last_power-full_val_set_updates key [] = refl
last_power-full_val_set_updates key (v ∷ vs) =
    ground (arith, last_power-full_val_set_updates key vs)

-- A snapshot leaves of a key its power in the set.
pub snapshot_power :
    (key : ℕ) (next : List ConsensusValidator)
    → All (λ w. 0 < w.power) next
    → elim (last_power key (full_val_set_updates next)) as (λ _. Option ℕ) [
      | none ↦ none
      | some p ↦ kept p
    ]
      ≡ power_in key next
snapshot_power key next positive = elim (Option-cases (find key next)) [
  | inl absent ↦ ground (arith, absent, last_power-full_val_set_updates key next)
  | inr (v, found) ↦ ground (
    arith,
    found,
    find-positive key next v positive found,
    last_power-full_val_set_updates key next,
  )
]

-- A consumer that replaces its validators by a snapshot of a set with positive powers has exactly
-- that set, by key and power, whatever it had before.
pub replace-reaches_snapshot :
    (m : Store ℕ ℕ) (next : List ConsensusValidator) (key : ℕ)
    → All (λ w. 0 < w.power) next
    → get key
        (apply_vaas_validator_changes m (compute_replace_updates m (full_val_set_updates next))).0
      ≡ power_in key next
replace-reaches_snapshot m next key positive =
    get-apply_vaas_validator_changes m (compute_replace_updates m (full_val_set_updates next)) key
    ∙ effects-compute_replace_updates key m (full_val_set_updates next)
    ∙ snapshot_power key next positive
