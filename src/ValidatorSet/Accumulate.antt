-- ===== src/ValidatorSet/Accumulate.antt =====
-- AccumulateChanges (x/vaas/types/utils.go): its result has the effect of the one list of updates
-- after the other.
use vaas.Base.{
  ℕ, ◌≡◌, refl, sym, ap, ◌∙◌, Option, none, some, List, [], ◌∷◌, ◌==◌, if◌then◌else◌, nat_eq, arith,
  Bool-cases, inl, inr,
}
use vaas.Base.Store.{Store, get}
use vaas.ValidatorSet.{
  ValidatorUpdate, put_update, put_updates, sorts_before, insert_update, sort_updates,
  accumulate_changes, apply_vaas_validator_changes,
}
use vaas.ValidatorSet.Diff.{effect, effects, get-apply_vaas_validator_changes}

-- The power that the last update of a key sets.
unfoldable pub last_power : ℕ → List ValidatorUpdate → Option ℕ
last_power key [] = none
last_power key (u ∷ us) = elim (last_power key us) [
  | none ↦ if u.pub_key == key then some u.power else none
  | some later ↦ some later
]

-- What an update to a power leaves: nothing for power zero.
abbrev pub kept : ℕ → Option ℕ
kept power = if power == 0 then none else some power

-- The first, or else the second.
abbrev pub or_else : Option ℕ → Option ℕ → Option ℕ
or_else none o = o
or_else (some p) o = some p

pub effects-last_power :
    (key : ℕ) (us : List ValidatorUpdate) (o : Option ℕ)
    → effects key us o ≡ elim (last_power key us) [ none ↦ o | some p ↦ kept p ]
unfolding effects last_power
effects-last_power key [] o = refl
effects-last_power key (u ∷ us) o = ground (arith, effects-last_power key us (effect key u o))

-- No key has two updates.
abbrev pub IsKeyed : List ValidatorUpdate → Type 0
IsKeyed [] = Unit
IsKeyed (u ∷ us) = (last_power u.pub_key us ≡ none) × IsKeyed us

last_power-put_update :
    (key : ℕ) (u : ValidatorUpdate) (m : List ValidatorUpdate)
    → IsKeyed m
    → last_power key (put_update u m)
      ≡ (if u.pub_key == key then some u.power else last_power key m)
unfolding last_power put_update
last_power-put_update key u [] h = refl
last_power-put_update key u (w ∷ ws) h =
    let there = λ (same : w.pub_key ≡ key). ap (λ (j : ℕ). last_power j ws) same in
    elim (Bool-cases (w.pub_key == key)) [
      | inl own ↦
          ground (arith, own, h.0, there (ground (arith, own)), last_power-put_update key u ws h.1)
      | inr other ↦ ground (arith, other, last_power-put_update key u ws h.1)
    ]

put_update-IsKeyed :
    (u : ValidatorUpdate) (m : List ValidatorUpdate) → IsKeyed m → IsKeyed (put_update u m)
unfolding put_update last_power
put_update-IsKeyed u [] h = (refl, tt)
put_update-IsKeyed u (w ∷ ws) h = elim (Bool-cases (w.pub_key == u.pub_key)) [
  | inl same ↦
      let key : w.pub_key ≡ u.pub_key = ground (arith, same) in
      ground (arith, same, h.0, h.1, ap (λ (j : ℕ). last_power j ws) key)
  | inr other ↦
      ground
        (arith, other, h.0, last_power-put_update w.pub_key u ws h.1, put_update-IsKeyed u ws h.1)
]

last_power-put_updates :
    (key : ℕ) (us m : List ValidatorUpdate)
    → IsKeyed m
    → last_power key (put_updates m us) ≡ or_else (last_power key us) (last_power key m)
unfolding put_updates last_power
last_power-put_updates key [] m h = refl
last_power-put_updates key (u ∷ us) m h = ground (
  arith,
  last_power-put_updates key us (put_update u m) (put_update-IsKeyed u m h),
  last_power-put_update key u m h,
)

put_updates-IsKeyed : (us m : List ValidatorUpdate) → IsKeyed m → IsKeyed (put_updates m us)
unfolding put_updates
put_updates-IsKeyed [] m h = h
put_updates-IsKeyed (u ∷ us) m h =
    put_updates-IsKeyed us (put_update u m) (put_update-IsKeyed u m h)

last_power-insert_update :
    (key : ℕ) (u : ValidatorUpdate) (ws : List ValidatorUpdate)
    → last_power u.pub_key ws ≡ none
    → last_power key (insert_update u ws)
      ≡ (if u.pub_key == key then some u.power else last_power key ws)
unfolding last_power insert_update
last_power-insert_update key u [] h = refl
last_power-insert_update key u (w ∷ ws) h =
    let there = λ (same : u.pub_key ≡ key). ap (λ (j : ℕ). last_power j ws) same in
    elim (Bool-cases (u.pub_key == key)) [
      | inl own ↦
          ground (arith, own, h, there (ground (arith, own)), last_power-insert_update key u ws)
      | inr other ↦ ground (arith, other, h, last_power-insert_update key u ws)
    ]

last_power-sort_updates :
    (key : ℕ) (us : List ValidatorUpdate)
    → IsKeyed us
    → last_power key (sort_updates us) ≡ last_power key us
unfolding last_power sort_updates
last_power-sort_updates key [] h = refl
last_power-sort_updates key (u ∷ us) h =
    let there = λ (same : u.pub_key ≡ key). ap (λ (j : ℕ). last_power j us) same in
    let absent = last_power-sort_updates u.pub_key us h.1 ∙ h.0 in
    elim (Bool-cases (u.pub_key == key)) [
      | inl own ↦ ground (
        arith,
        own,
        h.0,
        there (ground (arith, own)),
        last_power-insert_update key u (sort_updates us) absent,
      )
      | inr other ↦ ground (
        arith,
        other,
        last_power-insert_update key u (sort_updates us) absent,
        last_power-sort_updates key us h.1,
      )
    ]

insert_update-IsKeyed :
    (u : ValidatorUpdate) (ws : List ValidatorUpdate)
    → last_power u.pub_key ws ≡ none
    → IsKeyed ws
    → IsKeyed (insert_update u ws)
unfolding insert_update last_power
insert_update-IsKeyed u [] absent h = (refl, tt)
insert_update-IsKeyed u (w ∷ ws) absent h = elim (Bool-cases (sorts_before u w)) [
  | inl before ↦ rw before (absent, h)
  | inr after ↦ rw after (
    ground (arith, absent, h.0, last_power-insert_update w.pub_key u ws),
    insert_update-IsKeyed u ws (ground (arith, absent)) h.1,
  )
]

sort_updates-IsKeyed : (us : List ValidatorUpdate) → IsKeyed us → IsKeyed (sort_updates us)
unfolding sort_updates
sort_updates-IsKeyed [] h = tt
sort_updates-IsKeyed (u ∷ us) h =
    insert_update-IsKeyed u (sort_updates us) (last_power-sort_updates u.pub_key us h.1 ∙ h.0)
      (sort_updates-IsKeyed us h.1)

pub accumulate_changes-IsKeyed :
    (current new : List ValidatorUpdate) → IsKeyed (accumulate_changes current new)
unfolding accumulate_changes
accumulate_changes-IsKeyed current new =
    sort_updates-IsKeyed (put_updates (put_updates [] current) new)
      (put_updates-IsKeyed new (put_updates [] current) (put_updates-IsKeyed current [] tt))

pub last_power-accumulate_changes :
    (key : ℕ) (current new : List ValidatorUpdate)
    → last_power key (accumulate_changes current new)
      ≡ or_else (last_power key new) (last_power key current)
unfolding accumulate_changes last_power
last_power-accumulate_changes key current new =
    let first = put_updates-IsKeyed current [] tt in
    ground (
      arith,
      last_power-sort_updates key (put_updates (put_updates [] current) new)
          (put_updates-IsKeyed new (put_updates [] current) first),
      last_power-put_updates key new (put_updates [] current) first,
      last_power-put_updates key current [] tt,
    )

-- The accumulated updates do to each key what the two lists do in turn.
pub effects-accumulate_changes :
    (key : ℕ) (current new : List ValidatorUpdate) (o : Option ℕ)
    → effects key (accumulate_changes current new) o ≡ effects key new (effects key current o)
effects-accumulate_changes key current new o = ground (
  arith,
  effects-last_power key (accumulate_changes current new) o,
  last_power-accumulate_changes key current new,
  effects-last_power key current o,
  effects-last_power key new (effects key current o),
)

-- A consumer that applies two lists of updates as AccumulateChanges joins them has the same
-- validators, by key and power, as one that applies the first list and then the second.
pub accumulate_changes-apply :
    (current new : List ValidatorUpdate) (m : Store ℕ ℕ) (key : ℕ)
    → get key (apply_vaas_validator_changes m (accumulate_changes current new)).0
      ≡ get key (apply_vaas_validator_changes (apply_vaas_validator_changes m current).0 new).0
accumulate_changes-apply current new m key =
    get-apply_vaas_validator_changes m (accumulate_changes current new) key
    ∙ effects-accumulate_changes key current new (get key m)
    ∙ sym (
        get-apply_vaas_validator_changes (apply_vaas_validator_changes m current).0 new key
        ∙ ap (λ (o : Option ℕ). effects key new o) (get-apply_vaas_validator_changes m current key))
