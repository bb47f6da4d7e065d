-- ===== src/Base/Store.antt =====
-- A keyed store (the `collections.Map` of the keepers) as an association list, with lookups,
-- writes, deletions, and deletion by a predicate on keys.
use Prim.Native.Nat.{ℕ, ◌+◌, ◌≤◌}
use mathlib.Core.Path.{◌≡◌, refl, ap}
use mathlib.Core.Bool.{Bool, true, false}
use mathlib.Core.Option.{Option, none, some}
use mathlib.Core.List.{List, [], ◌∷◌}
use mathlib.Core.Logic.{inl, inr}
use native.Mathlib.Omega.{arith}
use vaas.Base.Lists.{All, All-map}
use vaas.Base.Tests.{Eq, if◌then◌else◌, Bool-cases}

abbrev pub Store {ℓ κ} : Type ℓ → Type κ → Type (ℓ ⊔ κ)
Store K V = List (K × V)

module _ {ℓ κ} {K : Type ℓ} {V : Type κ} where
  -- The entries that a test on keys and values selects, in order.
  unfoldable pub select : (K × V → Bool) → Store K V → Store K V
  select p [] = []
  select p (x ∷ m) = if p x then x ∷ select p m else select p m

  -- What is left after the entries that a test selects have been deleted.
  unfoldable pub clear : (K → Bool) → Store K V → Store K V
  clear p [] = []
  clear p (x ∷ m) = if p x.0 then clear p m else x ∷ clear p m

  -- The sum of a weight over the entries.
  unfoldable pub sum_by : (K → V → ℕ) → Store K V → ℕ
  sum_by w [] = 0
  sum_by w (x ∷ m) = w x.0 x.1 + sum_by w m

  -- Deleting entries of weight zero keeps the sum.
  pub sum_by-clear_other :
      (w : K → V → ℕ) (p : K → Bool) (m : Store K V)
      → ((k : K) (v : V) → p k ≡ true → w k v ≡ 0)
      → sum_by w (clear p m) ≡ sum_by w m
  unfolding sum_by clear
  sum_by-clear_other w p [] h = refl
  sum_by-clear_other w p (x ∷ m) h = ground (arith, h x.0 x.1, sum_by-clear_other w p m h)

  -- Deleting all the entries that have a weight makes the sum zero.
  pub sum_by-clear :
      (w : K → V → ℕ) (p : K → Bool) (m : Store K V)
      → ((k : K) (v : V) → p k ≡ false → w k v ≡ 0)
      → sum_by w (clear p m) ≡ 0
  unfolding sum_by clear
  sum_by-clear w p [] h = refl
  sum_by-clear w p (x ∷ m) h = ground (arith, h x.0 x.1, sum_by-clear w p m h)

  pub sum_by-clear_le :
      (w : K → V → ℕ) (p : K → Bool) (m : Store K V) → sum_by w (clear p m) ≤ sum_by w m
  unfolding sum_by clear
  sum_by-clear_le w p [] = omega arith
  sum_by-clear_le w p (x ∷ m) = ground (arith, sum_by-clear_le w p m)

module _ {ℓ κ} {K : Type ℓ} {V : Type κ} ⦃e : Eq K⦄ where
  unfoldable pub get : K → Store K V → Option V
  get k [] = none
  get k (x ∷ m) = if e.beq x.0 k then some x.1 else get k m

  unfoldable pub set : K → V → Store K V → Store K V
  set k v [] = (k, v) ∷ []
  set k v (x ∷ m) = if e.beq x.0 k then (k, v) ∷ m else x ∷ set k v m

  unfoldable pub remove : K → Store K V → Store K V
  unfolding clear
  remove k = clear (λ j. e.beq j k)

  -- A read after a write.
  pub get-set :
      (j k : K) (v : V) (m : Store K V)
      → get j (set k v m) ≡ (if e.beq k j then some v else get j m)
  unfolding get set
  get-set j k v [] = refl
  get-set j k v (x ∷ m) =
      ground (arith, e.beq_iff x.0 k, e.beq_iff k j, e.beq_iff x.0 j, get-set j k v m)

  -- A read after a deletion.
  pub get-clear :
      (j : K) (p : K → Bool) (m : Store K V) → get j (clear p m) ≡ (if p j then none else get j m)
  unfolding get clear
  get-clear j p [] = ground arith
  get-clear j p (x ∷ m) = elim (Bool-cases (e.beq x.0 j)) [
    | inl same ↦ ground (arith, (e.beq_iff x.0 j).0 same, get-clear j p m)
    | inr other ↦ ground (arith, get-clear j p m)
  ]

  pub get-remove :
      (j k : K) (m : Store K V) → get j (remove k m) ≡ (if e.beq j k then none else get j m)
  unfolding remove
  get-remove j k m = get-clear j (λ i. e.beq i k) m

  -- The weight of the entry under a key, zero where there is none.
  unfoldable pub weight_at : (K → V → ℕ) → K → Store K V → ℕ
  weight_at w k m = elim (get k m) [ none ↦ 0 | some v ↦ w k v ]

  -- A write replaces one weight by another.
  pub sum_by-set :
      (w : K → V → ℕ) (k : K) (v : V) (m : Store K V)
      → sum_by w (set k v m) + weight_at w k m ≡ sum_by w m + w k v
  unfolding sum_by set weight_at get
  sum_by-set w k v [] = omega arith
  sum_by-set w k v (x ∷ m) = elim (Bool-cases (e.beq x.0 k)) [
    | inl same ↦ ground (arith, (e.beq_iff x.0 k).0 same)
    | inr other ↦ ground (arith, sum_by-set w k v m)
  ]

  -- No key is listed twice.
  abbrev pub IsStore : Store K V → Type κ
  IsStore [] = Unit
  IsStore (x ∷ m) = (get x.0 m ≡ none) × IsStore m

  pub set-IsStore : (k : K) (v : V) (m : Store K V) → IsStore m → IsStore (set k v m)
  unfolding set get
  set-IsStore k v [] h = (refl, tt)
  set-IsStore k v (x ∷ m) h = elim (Bool-cases (e.beq x.0 k)) [
    | inl same ↦ ground (arith, (e.beq_iff x.0 k).0 same)
    | inr other ↦
        ground (arith, set-IsStore k v m h.1, get-set x.0 k v m, e.beq_iff k x.0, e.beq_iff x.0 k)
  ]

  pub clear-IsStore : (p : K → Bool) (m : Store K V) → IsStore m → IsStore (clear p m)
  unfolding clear
  clear-IsStore p [] h = tt
  clear-IsStore p (x ∷ m) h = ground (arith, clear-IsStore p m h.1, get-clear x.0 p m)

  pub remove-IsStore : (k : K) (m : Store K V) → IsStore m → IsStore (remove k m)
  unfolding remove
  remove-IsStore k m = clear-IsStore (λ j. e.beq j k) m

  -- Deleting a key that is not there changes nothing.
  pub sum_by-remove_absent :
      (w : K → V → ℕ) (k : K) (m : Store K V) → get k m ≡ none → sum_by w (remove k m) ≡ sum_by w m
  unfolding sum_by remove get
  sum_by-remove_absent w k [] h = refl
  sum_by-remove_absent w k (x ∷ m) h = ground (arith, sum_by-remove_absent w k m)

  pub sum_by-remove :
      (w : K → V → ℕ) (k : K) (m : Store K V)
      → IsStore m
      → sum_by w (remove k m) + weight_at w k m ≡ sum_by w m
  unfolding sum_by remove weight_at get
  sum_by-remove w k [] h = refl
  sum_by-remove w k (x ∷ m) h = elim (Bool-cases (e.beq x.0 k)) [
    | inl same ↦ ground (
      arith,
      (e.beq_iff x.0 k).0 same,
      sum_by-remove_absent w k m,
      ap (λ (j : K). get j m) ((e.beq_iff x.0 k).0 same),
    )
    | inr other ↦ ground (arith, sum_by-remove w k m h.1)
  ]

  -- One entry weighs no more than all.
  pub weight_at-le : (w : K → V → ℕ) (k : K) (m : Store K V) → weight_at w k m ≤ sum_by w m
  unfolding sum_by weight_at get
  weight_at-le w k [] = omega arith
  weight_at-le w k (x ∷ m) = elim (Bool-cases (e.beq x.0 k)) [
    | inl same ↦ ground (arith, (e.beq_iff x.0 k).0 same)
    | inr other ↦ ground (arith, weight_at-le w k m)
  ]

  -- A lookup in a tail finds the same in the whole.
  pub get-behind :
      (x : K × V) (m : Store K V) (j : K) (v : V)
      → IsStore (x ∷ m)
      → get j m ≡ some v
      → get j (x ∷ m) ≡ some v
  unfolding get
  get-behind x m j v h found = elim (Bool-cases (e.beq x.0 j)) [
    | inl same ↦ ground (arith, ap (λ (i : K). get i m) ((e.beq_iff x.0 j).0 same), h.0, found)
    | inr other ↦ ground (arith, found)
  ]

  -- A selected entry is the one that a lookup of its key finds.
  pub select-found :
      (p : K × V → Bool) (m : Store K V)
      → IsStore m
      → All (λ x. (get x.0 m ≡ some x.1) × (p x ≡ true)) (select p m)
  unfolding get select
  select-found p [] h = tt
  select-found p (x ∷ m) h =
      let others =
        All-map (select p m) (λ y found. (get-behind x m y.0 y.1 h found.0, found.1))
          (select-found p m h.1) in
      elim (Bool-cases (p x)) [
        | inl chosen ↦ rw chosen ((ground (arith, e.beq_iff x.0 x.0), chosen), others)
        | inr left ↦ rw left others
      ]

  -- A selection by key finds what its keys' lookups find.
  pub get-select :
      (p : K → Bool) (j : K) (m : Store K V)
      → get j (select (λ x. p x.0) m) ≡ (if p j then get j m else none)
  unfolding get select
  get-select p j [] = ground arith
  get-select p j (x ∷ m) = elim (Bool-cases (e.beq x.0 j)) [
    | inl same ↦ ground (arith, (e.beq_iff x.0 j).0 same, get-select p j m)
    | inr other ↦ ground (arith, get-select p j m)
  ]

  -- A predicate on entries survives the write of one that satisfies it.
  pub set-All {μ} :
      (P : K × V → Type μ) (k : K) (v : V) (m : Store K V) → P (k, v) → All P m → All P (set k v m)
  unfolding set
  set-All P k v [] new h = (new, tt)
  set-All P k v (x ∷ m) new h = elim (Bool-cases (e.beq x.0 k)) [
    | inl same ↦ rw same (new, h.1)
    | inr other ↦ rw other (h.0, set-All P k v m new h.1)
  ]

  pub select-absent :
      (p : K × V → Bool) (k : K) (m : Store K V) → get k m ≡ none → get k (select p m) ≡ none
  unfolding get select
  select-absent p k [] h = refl
  select-absent p k (x ∷ m) h = ground (arith, h, select-absent p k m)

  pub select-IsStore : (p : K × V → Bool) (m : Store K V) → IsStore m → IsStore (select p m)
  unfolding select
  select-IsStore p [] h = tt
  select-IsStore p (x ∷ m) h = elim (Bool-cases (p x)) [
    | inl chosen ↦ rw chosen (select-absent p x.0 m h.0, select-IsStore p m h.1)
    | inr left ↦ rw left (select-IsStore p m h.1)
  ]

  -- A selection finds what is found and passes the test.
  pub get-select_entries :
      (p : K × V → Bool) (k : K) (m : Store K V)
      → IsStore m
      → get k (select p m)
        ≡ elim (get k m) [ none ↦ none | some v ↦ if p (k, v) then some v else none ]
  unfolding get select
  get-select_entries p k [] h = refl
  get-select_entries p k (x ∷ m) h =
      let later = get-select_entries p k m h.1 in
      elim (Bool-cases (e.beq x.0 k)) [
        | inl same ↦
            let agree = (e.beq_iff x.0 k).0 same in
            ground (arith, same, agree, select-absent p x.0 m h.0)
        | inr other ↦ ground (arith, other, later)
      ]
