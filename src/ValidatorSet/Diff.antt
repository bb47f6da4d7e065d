-- ===== src/ValidatorSet/Diff.antt =====
-- A consumer that applies the diff of two validator sets to the first has the second.
use vaas.Base.{
  ℕ, ◌<◌, ◌≡◌, refl, ap, ◌∙◌, true, false, not, ◌&&◌, subst, Option, none, some, List, [], ◌∷◌,
  ◌++◌, ◌==◌, if◌then◌else◌, is_some, nat_eq, arith, Bool-cases, Option-cases, inl, inr, All,
}
use vaas.Base.Store.{Store, get, get-set, get-remove}
use vaas.ValidatorSet.{
  ConsensusValidator, ValidatorUpdate, find, changed, added, diff_validators, apply_change,
  apply_vaas_validator_changes,
}

-- No public key is listed twice.
abbrev pub IsDistinct : List ConsensusValidator → Type 0
IsDistinct [] = Unit
IsDistinct (v ∷ vs) = (find v.public_key vs ≡ none) × IsDistinct vs

-- The power of a key in a set.
abbrev pub power_in : ℕ → List ConsensusValidator → Option ℕ
power_in key vs = elim (find key vs) [ none ↦ none | some v ↦ some v.power ]

-- What an update makes of the power of a key.
abbrev pub effect : ℕ → ValidatorUpdate → Option ℕ → Option ℕ
effect key u power = if u.pub_key == key then if u.power == 0 then none else some u.power else power

unfoldable pub effects : ℕ → List ValidatorUpdate → Option ℕ → Option ℕ
effects key [] power = power
effects key (u ∷ us) power = effects key us (effect key u power)

get-apply_change :
    (m : Store ℕ ℕ) (u : ValidatorUpdate) (key : ℕ)
    → get key (apply_change m u).0 ≡ effect key u (get key m)
unfolding apply_change
get-apply_change m u key =
    ground (arith, get-set key u.pub_key u.power m, get-remove key u.pub_key m)

pub get-apply_vaas_validator_changes :
    (m : Store ℕ ℕ) (us : List ValidatorUpdate) (key : ℕ)
    → get key (apply_vaas_validator_changes m us).0 ≡ effects key us (get key m)
unfolding apply_vaas_validator_changes effects
get-apply_vaas_validator_changes m [] key = refl
get-apply_vaas_validator_changes m (u ∷ us) key =
    get-apply_vaas_validator_changes (apply_change m u).0 us key
    ∙ ap (λ (o : Option ℕ). effects key us o) (get-apply_change m u key)

pub effects-append :
    (key : ℕ) (us vs : List ValidatorUpdate) (o : Option ℕ)
    → effects key (us ++ vs) o ≡ effects key vs (effects key us o)
unfolding effects
effects-append key [] vs o = refl
effects-append key (u ∷ us) vs o = effects-append key us vs (effect key u o)

-- A found validator has the key.
pub find-key :
    (key : ℕ) (vs : List ConsensusValidator) (v : ConsensusValidator)
    → find key vs ≡ some v
    → v.public_key ≡ key
unfolding find
find-key key [] v h = ground (arith, h)
find-key key (w ∷ vs) v h = elim (Option-cases (find key vs)) [
  | inl absent ↦ ground (arith, absent, h)
  | inr (later, found) ↦ ground (arith, found, h, find-key key vs later found)
]

pub find-positive :
    (key : ℕ) (vs : List ConsensusValidator) (v : ConsensusValidator)
    → All (λ w. 0 < w.power) vs
    → find key vs ≡ some v
    → 0 < v.power
unfolding find
find-positive key [] v positive h = ground (arith, h)
find-positive key (w ∷ vs) v positive h = elim (Option-cases (find key vs)) [
  | inl absent ↦ ground (arith, absent, h, positive.0)
  | inr (later, found) ↦ ground (arith, found, h, find-positive key vs later positive.1 found)
]

find-here :
    (key : ℕ) (v : ConsensusValidator) (vs : List ConsensusValidator)
    → (v.public_key == key) ≡ true
    → find key vs ≡ none
    → find key (v ∷ vs) ≡ some v
unfolding find
find-here key v vs own absent = ground (arith, own, absent)

find-skip :
    (key : ℕ) (v : ConsensusValidator) (vs : List ConsensusValidator)
    → (v.public_key == key) ≡ false
    → find key (v ∷ vs) ≡ find key vs
unfolding find
find-skip key v vs other = ground (arith, other)

-- The power of a key after the update for the first validator.
abbrev after_head : ℕ → ConsensusValidator → List ConsensusValidator → Option ℕ → Option ℕ
after_head key v next o =
    if v.public_key == key
    then elim (find key next) [
      | none ↦ none
      | some n ↦ if v.power == n.power then o else some n.power
    ]
    else o

effects-head :
    (key : ℕ) (v : ConsensusValidator) (vs next : List ConsensusValidator) (o : Option ℕ)
    → All (λ w. 0 < w.power) next
    → effects key (changed (v ∷ vs) next) o
      ≡ effects key (changed vs next) (after_head key v next o)
unfolding changed effects
effects-head key v vs next o positive = elim (Option-cases (find v.public_key next)) [
  | inl gone ↦ elim (Bool-cases (v.public_key == key)) [
    | inl own ↦
        let gone' : find key next ≡ none =
          subst (λ (j : ℕ). find j next ≡ none) (ground (arith, own)) gone in
        ground (arith, own, gone, gone')
    | inr other ↦ ground (arith, other, gone)
  ]
  | inr (n, found) ↦ elim (Bool-cases (v.public_key == key)) [
    | inl own ↦
        let found' : find key next ≡ some n =
          subst (λ (j : ℕ). find j next ≡ some n) (ground (arith, own)) found in
        ground (
          arith,
          own,
          found,
          found',
          find-key v.public_key next n found,
          find-positive key next n positive found',
        )
    | inr other ↦ ground (arith, other, found, find-key v.public_key next n found)
  ]
]

-- The removals and changes: a key of the current set gets its next power.
effects-changed :
    (key : ℕ) (vs next : List ConsensusValidator) (o : Option ℕ)
    → IsDistinct vs
    → All (λ w. 0 < w.power) next
    → (is_some (find key vs) ≡ true → o ≡ power_in key vs)
    → effects key (changed vs next) o ≡ (if is_some (find key vs) then power_in key next else o)
unfolding changed effects
effects-changed key [] next o distinct positive start = unfold find in refl
effects-changed key (v ∷ vs) next o distinct positive start =
    elim (Bool-cases (v.public_key == key)) [
      | inl own ↦
          let absent : find key vs ≡ none =
            subst (λ (j : ℕ). find j vs ≡ none) (ground (arith, own)) distinct.0 in
          let o' = after_head key v next o in
          let rest =
            effects-changed key vs next o' distinct.1 positive (λ h. ground (arith, absent, h)) in
          let here = find-here key v vs own absent in
          effects-head key v vs next o positive ∙ rest ∙ ground (arith, own, absent, here, start)
      | inr other ↦
          let o' = after_head key v next o in
          let skip = find-skip key v vs other in
          let same : o' ≡ o = ground (arith, other) in
          let rest = effects-changed key vs next o' distinct.1 positive (λ h.
            same
            ∙ (start (ap (λ (x : Option ConsensusValidator). is_some x) skip ∙ h)
                ∙ ap
                    (λ (x : Option ConsensusValidator). elim x [
                      | none ↦ none
                      | some w ↦ some w.power
                    ])
                    skip)) in
          effects-head key v vs next o positive ∙ rest ∙ ground (arith, skip, same)
    ]

-- The additions: a key that is only in the next set gets its power.
effects-added :
    (key : ℕ) (current ns : List ConsensusValidator) (o : Option ℕ)
    → IsDistinct ns
    → All (λ w. 0 < w.power) ns
    → effects key (added current ns) o
      ≡ (if is_some (find key ns) && not (is_some (find key current)) then power_in key ns else o)
unfolding added effects
effects-added key current [] o distinct positive = unfold find in refl
effects-added key current (n ∷ ns) o distinct positive = elim (Bool-cases (n.public_key == key)) [
  | inl own ↦
      let same_key : n.public_key ≡ key = ground (arith, own) in
      let absent : find key ns ≡ none = subst (λ (j : ℕ). find j ns ≡ none) same_key distinct.0 in
      let here = find-here key n ns own absent in
      let current_same = ap (λ (j : ℕ). find j current) same_key in
      let rest = λ (o' : Option ℕ). effects-added key current ns o' distinct.1 positive.1 in
      ground (arith, own, absent, here, current_same, positive.0, rest o, rest (some n.power))
  | inr other ↦
      let skip = find-skip key n ns other in
      ground (arith, other, skip, effects-added key current ns o distinct.1 positive.1)
]

-- The diff takes the power of a key in the one set to its power in the other.
pub effects-diff_validators :
    (current next : List ConsensusValidator) (key : ℕ) (o : Option ℕ)
    → IsDistinct current
    → IsDistinct next
    → All (λ w. 0 < w.power) next
    → o ≡ power_in key current
    → effects key (diff_validators current next) o ≡ power_in key next
unfolding diff_validators
effects-diff_validators current next key o d d' positive in_step =
    let before = effects-changed key current next o d positive (λ h. in_step) in
    let after = effects-added key current next (effects key (changed current next) o) d' positive in
    effects-append key (changed current next) (added current next) o
    ∙ after
    ∙ ground (arith, before, in_step)

-- A consumer whose validators are a set, by key and power, has the next set after it has applied the
-- diff from the one to the other: every key has exactly its next power, and a key that is not in the
-- next set is gone. No key is listed twice in a set, and the next powers are positive.
pub diff_validators_reaches_next :
    (current next : List ConsensusValidator) (m : Store ℕ ℕ)
    → IsDistinct current
    → IsDistinct next
    → All (λ w. 0 < w.power) next
    → ((key : ℕ) → get key m ≡ power_in key current)
    → (key : ℕ)
    → get key (apply_vaas_validator_changes m (diff_validators current next)).0 ≡ power_in key next
diff_validators_reaches_next current next m d d' positive in_step key =
    get-apply_vaas_validator_changes m (diff_validators current next) key
    ∙ effects-diff_validators current next key (get key m) d d' positive (in_step key)
