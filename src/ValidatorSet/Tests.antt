-- ===== src/ValidatorSet/Tests.antt =====
-- A diff at concrete sets: key 1 leaves, key 2 gains power, key 3 joins.
use vaas.Base.{ℕ, ◌+◌, ◌≡◌, refl, List, [], ◌∷◌, arith, nat_eq}
use vaas.Base.Store.{Store, get, set, remove, clear}
use vaas.ValidatorSet.{
  ConsensusValidator, ValidatorUpdate, accumulate_changes, put_updates, put_update, sort_updates,
  insert_update, sorts_before, find, changed, added, diff_validators, apply_change,
  apply_vaas_validator_changes,
}
use vaas.ValidatorSet.Accumulate.{accumulate_changes-apply}
use vaas.ValidatorSet.Diff.{IsDistinct, power_in, diff_validators_reaches_next}

abbrev validator : ℕ → ℕ → ConsensusValidator
validator key power = record {
  provider_cons_addr = key + 10;
  power = power;
  public_key = key;
  join_height = 1;
}

abbrev current : List ConsensusValidator
current = validator 1 5 ∷ validator 2 6 ∷ []

abbrev next : List ConsensusValidator
next = validator 2 7 ∷ validator 3 4 ∷ []

abbrev stored : Store ℕ ℕ
stored = (1, 5) ∷ (2, 6) ∷ []

current-IsDistinct : IsDistinct current
unfolding find
current-IsDistinct = (refl, (refl, tt))

next-IsDistinct : IsDistinct next
unfolding find
next-IsDistinct = (refl, (refl, tt))

stored_in_step : (key : ℕ) → get key stored ≡ power_in key current
unfolding get find
stored_in_step key = ground arith

diff_applies :
    (apply_vaas_validator_changes stored (diff_validators current next)).0 ≡ (2, 7) ∷ (3, 4) ∷ []
unfolding apply_vaas_validator_changes apply_change diff_validators changed added find get set
    remove clear
diff_applies = refl

diff_validators_reaches_next_example :
    get 3 (apply_vaas_validator_changes stored (diff_validators current next)).0 ≡ power_in 3 next
diff_validators_reaches_next_example =
    diff_validators_reaches_next current next stored current-IsDistinct next-IsDistinct
      (omega arith, (omega arith, tt)) stored_in_step 3

-- The later update of key 2 counts; the result is sorted by power.
abbrev earlier_updates : List ValidatorUpdate
earlier_updates = record { pub_key = 1; power = 0 } ∷ record { pub_key = 2; power = 7 } ∷ []

abbrev later : List ValidatorUpdate
later = record { pub_key = 3; power = 9 } ∷ record { pub_key = 2; power = 8 } ∷ []

accumulates :
    accumulate_changes earlier_updates later
    ≡ record { pub_key = 3; power = 9 }
      ∷ record { pub_key = 2; power = 8 }
      ∷ record { pub_key = 1; power = 0 }
      ∷ []
unfolding accumulate_changes put_updates put_update sort_updates insert_update sorts_before
accumulates = refl

accumulate_changes-apply_example :
    get 2 (apply_vaas_validator_changes stored (accumulate_changes earlier_updates later)).0
    ≡ get 2
        (apply_vaas_validator_changes
          (apply_vaas_validator_changes stored earlier_updates).0
          later).0
accumulate_changes-apply_example = accumulate_changes-apply earlier_updates later stored 2
