-- ===== src/ValidatorSet.antt =====
-- The updates of a consumer's validator set: DiffValidators and FullValSetUpdates of
-- x/vaas/provider/keeper/validator_set_update.go, ApplyVaasValidatorChanges and
-- computeReplaceUpdates of x/vaas/consumer/keeper/validators.go, and AccumulateChanges of
-- x/vaas/types/utils.go. A public key is a number and stands for its address too. A
-- consumer's validator is stored by its power; the hook of x/slashing is left out. Powers are
-- non-negative. Keys are numbered in the order of their strings, by which AccumulateChanges sorts.
pub mod Diff
pub mod Accumulate
pub mod Replace
mod Tests
use vaas.Base.{
  ℕ, Bool, true, false, not, Option, none, some, List, [], ◌∷◌, ◌++◌, ltb, ◌==◌, if◌then◌else◌,
  is_some, nat_eq, ◌||◌,
}
use vaas.Base.Store.{Store, get, set, remove}

pub record ConsensusValidator : Type 0 where
  pub provider_cons_addr : ℕ
  pub power : ℕ
  pub public_key : ℕ
  pub join_height : ℕ

pub record ValidatorUpdate : Type 0 where
  pub pub_key : ℕ
  pub power : ℕ

-- A lookup in the map that DiffValidators builds of a list: of two entries with a key, the later.
unfoldable pub find : ℕ → List ConsensusValidator → Option ConsensusValidator
find key [] = none
find key (v ∷ vs) = elim (find key vs) [
  | none ↦ if v.public_key == key then some v else none
  | some later ↦ some later
]

-- The first loop of DiffValidators: removals and changes of power.
unfoldable pub changed : List ConsensusValidator → List ConsensusValidator → List ValidatorUpdate
changed [] next = []
changed (v ∷ vs) next =
    let rest = changed vs next in
    elim (find v.public_key next) [
      | none ↦ record { pub_key = v.public_key; power = 0 } ∷ rest
      | some n ↦
          if not (v.power == n.power)
          then record { pub_key = n.public_key; power = n.power } ∷ rest
          else rest
    ]

-- The second: additions.
unfoldable pub added : List ConsensusValidator → List ConsensusValidator → List ValidatorUpdate
added current [] = []
added current (n ∷ ns) =
    let rest = added current ns in
    if not (is_some (find n.public_key current))
    then record { pub_key = n.public_key; power = n.power } ∷ rest
    else rest

-- DiffValidators.
unfoldable pub diff_validators :
    List ConsensusValidator → List ConsensusValidator → List ValidatorUpdate
diff_validators current next = changed current next ++ added current next

-- The body of the loop of ApplyVaasValidatorChanges, with whether the change is forwarded.
unfoldable pub apply_change : Store ℕ ℕ → ValidatorUpdate → Store ℕ ℕ × Bool
apply_change m u = elim (get u.pub_key m) [
  | some old ↦ if ltb u.power 1 then (remove u.pub_key m, true) else (set u.pub_key u.power m, true)
  | none ↦ if ltb 0 u.power then (set u.pub_key u.power m, true) else (m, false)
]

-- ApplyVaasValidatorChanges, with the changes that it forwards to the consensus engine.
unfoldable pub apply_vaas_validator_changes :
    Store ℕ ℕ → List ValidatorUpdate → Store ℕ ℕ × List ValidatorUpdate
apply_vaas_validator_changes m [] = (m, [])
apply_vaas_validator_changes m (u ∷ us) =
    let (m', forwarded) = apply_change m u in
    let (m'', rest) = apply_vaas_validator_changes m' us in
    (m'', if forwarded then u ∷ rest else rest)

-- FullValSetUpdates.
unfoldable pub full_val_set_updates : List ConsensusValidator → List ValidatorUpdate
full_val_set_updates [] = []
full_val_set_updates (v ∷ vs) =
    record { pub_key = v.public_key; power = v.power } ∷ full_val_set_updates vs

-- A write to the map of AccumulateChanges, which is the list of its values here.
unfoldable pub put_update : ValidatorUpdate → List ValidatorUpdate → List ValidatorUpdate
put_update u [] = u ∷ []
put_update u (w ∷ ws) = if w.pub_key == u.pub_key then u ∷ ws else w ∷ put_update u ws

-- The two loops of AccumulateChanges that write to its map.
unfoldable pub put_updates : List ValidatorUpdate → List ValidatorUpdate → List ValidatorUpdate
put_updates m [] = m
put_updates m (u ∷ us) = put_updates (put_update u m) us

-- The order of AccumulateChanges: by power, then by key, the larger first.
unfoldable pub sorts_before : ValidatorUpdate → ValidatorUpdate → Bool
sorts_before u w = if not (u.power == w.power) then ltb w.power u.power else ltb w.pub_key u.pub_key

unfoldable pub insert_update : ValidatorUpdate → List ValidatorUpdate → List ValidatorUpdate
insert_update u [] = u ∷ []
insert_update u (w ∷ ws) = if sorts_before u w then u ∷ w ∷ ws else w ∷ insert_update u ws

unfoldable pub sort_updates : List ValidatorUpdate → List ValidatorUpdate
sort_updates [] = []
sort_updates (u ∷ us) = insert_update u (sort_updates us)

-- AccumulateChanges.
unfoldable pub accumulate_changes :
    List ValidatorUpdate → List ValidatorUpdate → List ValidatorUpdate
accumulate_changes current_changes new_changes =
    sort_updates (put_updates (put_updates [] current_changes) new_changes)

-- Whether a list of updates has one of a key.
unfoldable pub has_update : ℕ → List ValidatorUpdate → Bool
has_update key [] = false
has_update key (u ∷ us) = u.pub_key == key || has_update key us

-- The second loop of computeReplaceUpdates: the removals.
unfoldable pub removals : Store ℕ ℕ → List ValidatorUpdate → List ValidatorUpdate
removals [] target = []
removals (v ∷ vs) target =
    let rest = removals vs target in
    if not (has_update v.0 target) then record { pub_key = v.0; power = 0 } ∷ rest else rest

-- computeReplaceUpdates.
unfoldable pub compute_replace_updates : Store ℕ ℕ → List ValidatorUpdate → List ValidatorUpdate
compute_replace_updates m target = target ++ removals m target
