-- ===== src/Provider/KeyAssignment/Listed.antt =====
-- What is listed for pruning, beside the assigned keys, and what a pruning does to both
-- (x/vaas/provider/keeper/key_assignment.go).
use vaas.Base.{
  ℕ, ◌≤◌, ◌≡◌, ap, subst, true, Option, some, List, is_some, nat_eq, pair_eq, ◌⊎◌, arith, inl, inr,
}
use vaas.Base.Store.{Store, get, clear, IsStore}
use vaas.Provider.KeyAssignment.{Assignments, Chain}
use vaas.Provider.KeyAssignment.Consistency.{IsConsistent}
use vaas.Provider.KeyAssignment.Prune.{
  is_due, due_addrs, consume_consumer_addrs_to_prune, prune_key_assignments,
}
use vaas.Provider.KeyAssignment.Listings.{
  listings, listings-due, get-delete_each, delete_each-others, delete_each-IsStore,
}

-- The addresses that wait to be pruned are mapped, each is listed once, and none is that of an
-- assigned key.
pub record AreListed (cons_addr_of : ℕ → Option ℕ) (s : Assignments) : Type 0 where
  pub stored : IsStore s.validator_by_consumer_addr
  pub once : (c a : ℕ) → listings c a s.consumer_addrs_to_prune ≤ 1
  pub held :
      (c a : ℕ)
      → listings c a s.consumer_addrs_to_prune ≡ 1
      → is_some (get (c, a) s.validator_by_consumer_addr) ≡ true
  pub replaced :
      (c p key a : ℕ)
      → get (c, p) s.validator_consumer_pub_key ≡ some key
      → cons_addr_of key ≡ some a
      → listings c a s.consumer_addrs_to_prune ≡ 0

module _ (chain : Chain) where
  -- A pruning deletes only addresses that are listed, and lists them no more.
  prune-read :
      (s : Assignments) (c now i a : ℕ)
      → AreListed chain.cons_addr_of s
      → (listings i a (prune_key_assignments s c now).consumer_addrs_to_prune
          ≤ listings i a s.consumer_addrs_to_prune)
        × ((listings i a s.consumer_addrs_to_prune ≡ 0)
              ⊎ (listings i a (prune_key_assignments s c now).consumer_addrs_to_prune ≡ 1)
            → get (i, a) (prune_key_assignments s c now).validator_by_consumer_addr
              ≡ get (i, a) s.validator_by_consumer_addr)
  unfolding prune_key_assignments consume_consumer_addrs_to_prune
  prune-read s c now i a v =
      let due = due_addrs c now s.consumer_addrs_to_prune in
      let s₁ : Assignments = record s {
        consumer_addrs_to_prune = clear (is_due c now) s.consumer_addrs_to_prune;
      } in
      let read = get-delete_each i a c s₁ due in
      let left =
        ap (λ (m : Store (ℕ × ℕ) (List ℕ)). listings i a m) (delete_each-others c s₁ due).1 in
      let split = listings-due i a c now s.consumer_addrs_to_prune in
      (
        ground (arith, left, split),
        λ spared. read (λ same. ground (arith, same, left, split, v.once i a, spared)),
      )

  prune-keys :
      (s : Assignments) (c now : ℕ)
      → (prune_key_assignments s c now).validator_consumer_pub_key ≡ s.validator_consumer_pub_key
  unfolding prune_key_assignments consume_consumer_addrs_to_prune
  prune-keys s c now =
      (delete_each-others c
        (record s { consumer_addrs_to_prune = clear (is_due c now) s.consumer_addrs_to_prune })
        (due_addrs c now s.consumer_addrs_to_prune)).0

  prune-IsStore :
      (s : Assignments) (c now : ℕ)
      → IsStore s.validator_by_consumer_addr
      → IsStore (prune_key_assignments s c now).validator_by_consumer_addr
  unfolding prune_key_assignments consume_consumer_addrs_to_prune
  prune-IsStore s c now stored =
      delete_each-IsStore c
        (record s { consumer_addrs_to_prune = clear (is_due c now) s.consumer_addrs_to_prune })
        (due_addrs c now s.consumer_addrs_to_prune) stored

  pub prune-AreListed :
      (s : Assignments) (c now : ℕ)
      → AreListed chain.cons_addr_of s
      → AreListed chain.cons_addr_of (prune_key_assignments s c now)
  prune-AreListed s c now v = record {
    stored = prune-IsStore s c now v.stored;
    once = λ i a. omega (arith, (prune-read s c now i a v).0, v.once i a);
    held = λ i a h.
        let (fewer, read) = prune-read s c now i a v in
        let listed : listings i a s.consumer_addrs_to_prune ≡ 1 =
          omega (arith, fewer, v.once i a, h) in
        ground (arith, read (inr h), v.held i a listed);
    replaced = λ i p key a found addr.
        let was =
          subst (λ (m : Store (ℕ × ℕ) ℕ). get (i, p) m ≡ some key) (prune-keys s c now) found in
        omega (arith, (prune-read s c now i a v).0, v.replaced i p key a was addr);
  }

  -- A pruning keeps the addresses of the assigned keys.
  pub prune-IsConsistent :
      (s : Assignments) (c now : ℕ)
      → AreListed chain.cons_addr_of s
      → IsConsistent chain s
      → IsConsistent chain (prune_key_assignments s c now)
  prune-IsConsistent s c now v consistent i p key found =
      let was =
        subst (λ (m : Store (ℕ × ℕ) ℕ). get (i, p) m ≡ some key) (prune-keys s c now) found in
      let (a, addr, owner) = consistent i p key was in
      let kept = (prune-read s c now i a v).1 (inl (v.replaced i p key a was addr)) in
      (a, addr, ground (arith, kept, owner))
