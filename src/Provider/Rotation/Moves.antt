-- ===== src/Provider/Rotation/Moves.antt =====
-- What is read after entries have been moved from an address to another
-- (x/vaas/provider/keeper/cons_pubkey_rotation.go).
use vaas.Base.{
  ℕ, ◌≡◌, ◌≢◌, refl, Bool, true, ◌&&◌, Option, none, some, [], ◌∷◌, ◌==◌, ==_iff, if◌then◌else◌,
  is_some, Eq, nat_eq, pair_eq, arith, Bool-cases, inl, inr, All, All-map,
}
use vaas.Base.Store.{
  Store, get, set, remove, select, IsStore, get-set, get-remove, get-select, select-IsStore,
  select-found,
}
use vaas.Provider.Downtime.{WindowKey}
use vaas.Provider.Rotation.{collect_per_window_entries, move_each, repoint_each}

abbrev pub is_of : ℕ → ℕ → WindowKey → Bool
is_of c a key = key.0 == c && key.1.0 == a

-- What is found under a key once a consumer's entries of an old address have been moved to a new one.
abbrev pub read_moved {ℓ} :
    {V : Type ℓ} → (V → V) → ℕ → ℕ → ℕ → Store WindowKey V → WindowKey → Option V
read_moved f c old new m key =
    if is_of c new key
    then elim (get (c, (old, key.1.1)) m) [ none ↦ get key m | some v ↦ some (f v) ]
    else if is_of c old key
    then none
    else get key m

module _ {ℓ} {V : Type ℓ} (f : V → V) (c old new : ℕ) (apart : old ≢ new) where
  get-move_each :
      (key : WindowKey) (xs m : Store WindowKey V)
      → IsStore xs
      → All (λ x. is_of c old x.0 ≡ true) xs
      → get key (move_each f new xs m) ≡ (
          if is_of c new key
          then elim (get (c, (old, key.1.1)) xs) [ none ↦ get key m | some v ↦ some (f v) ]
          else if is_some (get key xs)
          then none
          else get key m)
  unfolding move_each get
  get-move_each key [] m stored all_old = ground arith
  get-move_each (i, (a, h)) (((xi, (xa, xh)), v) ∷ xs) m stored all_old =
      let from : WindowKey = (xi, (xa, xh)) in
      let to : WindowKey = (xi, (new, xh)) in
      let key : WindowKey = (i, (a, h)) in
      let later = get-move_each key xs (remove from (set to (f v) m)) stored.1 all_old.1 in
      ground (
        arith,
        later,
        apart,
        all_old.0,
        stored.0,
        get-remove key from (set to (f v) m),
        get-set key to (f v) m,
      )

  pub get-moved :
      (m : Store WindowKey V) (key : WindowKey)
      → IsStore m
      → get key (move_each f new (collect_per_window_entries m c old) m)
        ≡ read_moved f c old new m key
  unfolding collect_per_window_entries
  get-moved m key stored =
      let of_old : WindowKey × V → Bool = λ x. x.0.0 == c && x.0.1.0 == old in
      let xs = select of_old m in
      ground (
        arith,
        get-move_each key xs m (select-IsStore of_old m stored)
            (All-map xs (λ x found. found.1) (select-found of_old m stored)),
        get-select (λ k. k.0 == c && k.1.0 == old) key m,
        get-select (λ k. k.0 == c && k.1.0 == old) (c, (old, key.1.1)) m,
        ==_iff c c,
        ==_iff old old,
      )

get-repoint_each :
    (old new : ℕ) (k : ℕ × ℕ) (xs m : Store (ℕ × ℕ) ℕ)
    → IsStore xs
    → get k (repoint_each old new xs m)
      ≡ elim (get k xs) [ none ↦ get k m | some p ↦ if p == old then some new else get k m ]
unfolding repoint_each get
get-repoint_each old new k [] m stored = refl
get-repoint_each old new k (x ∷ xs) m stored =
    let keys : Eq (ℕ × ℕ) = pair_eq in
    elim (Bool-cases (keys.beq x.0 k)) [
      | inl here ↦ ground (
        arith,
        here,
        (keys.beq_iff x.0 k).0 here,
        stored.0,
        get-set k x.0 new m,
        get-repoint_each old new k xs m stored.1,
        get-repoint_each old new k xs (set x.0 new m) stored.1,
      )
      | inr other ↦ ground (
        arith,
        other,
        get-set k x.0 new m,
        get-repoint_each old new k xs m stored.1,
        get-repoint_each old new k xs (set x.0 new m) stored.1,
      )
    ]

-- A consumer's reverse mappings to the old address name the new one.
pub get-repointed :
    (c old new : ℕ) (i a : ℕ) (m : Store (ℕ × ℕ) ℕ)
    → IsStore m
    → get (i, a) (repoint_each old new (select (λ x. x.0.0 == c) m) m) ≡ elim (get (i, a) m) [
      | none ↦ none
      | some p ↦ if i == c && p == old then some new else some p
    ]
get-repointed c old new i a m stored =
    let of_c : (ℕ × ℕ) × ℕ → Bool = λ x. x.0.0 == c in
    ground (
      arith,
      get-repoint_each old new (i, a) (select of_c m) m (select-IsStore of_c m stored),
      get-select (λ k. k.0 == c) (i, a) m,
    )
