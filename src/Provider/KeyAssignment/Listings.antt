-- ===== src/Provider/KeyAssignment/Listings.antt =====
-- The addresses that wait to be pruned, beside those of the assigned keys
-- (x/vaas/provider/keeper/key_assignment.go).
use vaas.Base.{
  ℕ, ◌+◌, ◌≡◌, refl, ◌&&◌, List, [], ◌∷◌, ◌++◌, ◌==◌, ==_iff, if◌then◌else◌, value_or, nat_eq,
  pair_eq, arith, Bool-cases, Option-cases, inl, inr,
}
use vaas.Base.Store.{
  Store, get, clear, sum_by, weight_at, sum_by-set, IsStore, get-remove, remove-IsStore,
}
use vaas.Provider.KeyAssignment.{
  Assignments, append_consumer_addrs_to_prune, delete_validator_by_consumer_addr,
}
use vaas.Provider.KeyAssignment.Prune.{is_due, due_addrs, delete_each}

unfoldable pub occurrences : ℕ → List ℕ → ℕ
occurrences a [] = 0
occurrences a (b ∷ bs) = (if a == b then 1 else 0) + occurrences a bs

occurrences-join :
    (a : ℕ) (xs ys : List ℕ) → occurrences a (xs ++ ys) ≡ occurrences a xs + occurrences a ys
unfolding occurrences
occurrences-join a [] ys = omega arith
occurrences-join a (x ∷ xs) ys = omega (arith, occurrences-join a xs ys)

abbrev pub weight : ℕ → ℕ → ℕ × ℕ → List ℕ → ℕ
weight c a key addrs = if key.0 == c then occurrences a addrs else 0

-- How often an address of a consumer is listed for pruning.
unfoldable pub listings : ℕ → ℕ → Store (ℕ × ℕ) (List ℕ) → ℕ
listings c a m = sum_by (weight c a) m

pub listings-append :
    (c a : ℕ) (s : Assignments) (c' time b : ℕ)
    → listings c a (append_consumer_addrs_to_prune s c' time b).consumer_addrs_to_prune
      ≡ listings c a s.consumer_addrs_to_prune + (if c' == c && a == b then 1 else 0)
unfolding listings append_consumer_addrs_to_prune weight_at occurrences
listings-append c a s c' time b =
    let m = s.consumer_addrs_to_prune in
    let old = value_or [] (get (c', time) m) in
    let written = sum_by-set (weight c a) (c', time) (old ++ (b ∷ [])) m in
    elim (Option-cases (get (c', time) m)) [
      | inl absent ↦ ground (arith, absent, written, occurrences-join a [] (b ∷ []))
      | inr (addrs, found) ↦ ground (arith, found, written, occurrences-join a addrs (b ∷ []))
    ]

pub listings-due :
    (c a : ℕ) (c' now : ℕ) (m : Store (ℕ × ℕ) (List ℕ))
    → listings c a (clear (is_due c' now) m)
        + (if c' == c then occurrences a (due_addrs c' now m) else 0)
      ≡ listings c a m
unfolding listings is_due due_addrs clear sum_by occurrences
listings-due c a c' now [] = ground arith
listings-due c a c' now (x ∷ m) =
    ground (arith, listings-due c a c' now m, occurrences-join a x.1 (due_addrs c' now m))

pub get-delete_each :
    (i a c : ℕ) (s : Assignments) (addrs : List ℕ)
    → (i ≡ c → occurrences a addrs ≡ 0)
    → get (i, a) (delete_each s c addrs).validator_by_consumer_addr
      ≡ get (i, a) s.validator_by_consumer_addr
unfolding delete_each occurrences delete_validator_by_consumer_addr
get-delete_each i a c s [] h = refl
get-delete_each i a c s (b ∷ bs) h =
    let read = get-remove (i, a) (c, b) s.validator_by_consumer_addr in
    elim (Bool-cases (i == c)) [
      | inl same ↦
          let absent = h ((==_iff i c).0 same) in
          ground (
            arith,
            absent,
            read,
            get-delete_each i a c (delete_validator_by_consumer_addr s c b) bs,
          )
      | inr other ↦ ground (
        arith,
        other,
        read,
        get-delete_each i a c (delete_validator_by_consumer_addr s c b) bs,
        ==_iff i c,
      )
    ]

pub delete_each-others :
    (c : ℕ) (s : Assignments) (addrs : List ℕ)
    → ((delete_each s c addrs).validator_consumer_pub_key ≡ s.validator_consumer_pub_key)
      × ((delete_each s c addrs).consumer_addrs_to_prune ≡ s.consumer_addrs_to_prune)
unfolding delete_each delete_validator_by_consumer_addr
delete_each-others c s [] = (refl, refl)
delete_each-others c s (b ∷ bs) = delete_each-others c (delete_validator_by_consumer_addr s c b) bs

pub delete_each-IsStore :
    (c : ℕ) (s : Assignments) (addrs : List ℕ)
    → IsStore s.validator_by_consumer_addr
    → IsStore (delete_each s c addrs).validator_by_consumer_addr
unfolding delete_each delete_validator_by_consumer_addr
delete_each-IsStore c s [] h = h
delete_each-IsStore c s (b ∷ bs) h =
    delete_each-IsStore c (delete_validator_by_consumer_addr s c b) bs
      (remove-IsStore (c, b) s.validator_by_consumer_addr h)
