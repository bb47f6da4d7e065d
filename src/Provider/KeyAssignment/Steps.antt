-- ===== src/Provider/KeyAssignment/Steps.antt =====
-- What an assignment keeps of the stored keys, their addresses and the listed addresses (x/vaas/provider/keeper/key_assignment.go).
use vaas.Base.{
  ℕ, ◌≤◌, ◌≡◌, sym, subst, true, false, none, some, is_some, nat_eq, pair_eq, pair_beq, arith,
  Bool-cases, Option-cases, inl, inr,
}
use vaas.Base.Store.{get, IsStore, get-set, get-remove, set-IsStore, remove-IsStore}
use vaas.Provider.State.{Keeper}
use vaas.Provider.KeyAssignment.{
  Assignments, Chain, Validator, assigned, append_consumer_addrs_to_prune,
  delete_validator_by_consumer_addr, store_key, retire_old_key, assign_free, assign_consumer_key,
}
use vaas.Provider.KeyAssignment.Consistency.{
  IsConsistent, Outcome-cases, retire_old_key-cases, retire_old_key-IsReady,
}
use vaas.Provider.KeyAssignment.Unique.{assign_at-assign_free}
use vaas.Provider.KeyAssignment.Listings.{listings, listings-append}
use vaas.Provider.KeyAssignment.Listed.{AreListed}

module _ (chain : Chain) where
  -- The same, but for the key of one validator.
  record AreListedBut (c₀ p₀ : ℕ) (s : Assignments) : Type 0 where
    stored : IsStore s.validator_by_consumer_addr
    once : (c a : ℕ) → listings c a s.consumer_addrs_to_prune ≤ 1
    held :
        (c a : ℕ)
        → listings c a s.consumer_addrs_to_prune ≡ 1
        → is_some (get (c, a) s.validator_by_consumer_addr) ≡ true
    replaced :
        (c p key a : ℕ)
        → pair_beq nat_eq nat_eq (c₀, p₀) (c, p) ≡ false
        → get (c, p) s.validator_consumer_pub_key ≡ some key
        → chain.cons_addr_of key ≡ some a
        → listings c a s.consumer_addrs_to_prune ≡ 0

  store_key-AreListed :
      (s : Assignments) (c p key a : ℕ)
      → chain.cons_addr_of key ≡ some a
      → get (c, a) s.validator_by_consumer_addr ≡ none
      → AreListedBut c p s
      → AreListed chain.cons_addr_of (store_key s c p key a)
  unfolding store_key
  store_key-AreListed s c p key a addr free v = record {
    stored = set-IsStore (c, a) p s.validator_by_consumer_addr v.stored;
    once = v.once;
    held = λ c' a' listed.
        ground (arith, v.held c' a' listed, get-set (c', a') (c, a) p s.validator_by_consumer_addr);
    replaced = λ c' p' key' a' found addr'.
        elim (Bool-cases (pair_beq nat_eq nat_eq (c, p) (c', p'))) [
          | inl own ↦ ground (
            arith,
            own,
            found,
            addr,
            addr',
            get-set (c', p') (c, p) key s.validator_consumer_pub_key,
            v.once c a,
            v.held c a,
            free,
          )
          | inr other ↦
              v.replaced c' p' key' a' other
                (ground
                  (arith, other, found, get-set (c', p') (c, p) key s.validator_consumer_pub_key))
                addr'
        ];
  }

  delete-AreListedBut :
      (s : Assignments) (c p old old_addr : ℕ)
      → get (c, p) s.validator_consumer_pub_key ≡ some old
      → chain.cons_addr_of old ≡ some old_addr
      → AreListed chain.cons_addr_of s
      → AreListedBut c p (delete_validator_by_consumer_addr s c old_addr)
  unfolding delete_validator_by_consumer_addr
  delete-AreListedBut s c p old old_addr had addr v = record {
    stored = remove-IsStore (c, old_addr) s.validator_by_consumer_addr v.stored;
    once = v.once;
    held = λ c' a' listed. ground (
      arith,
      v.held c' a' listed,
      listed,
      v.replaced c p old old_addr had addr,
      get-remove (c', a') (c, old_addr) s.validator_by_consumer_addr,
    );
    replaced = λ c' p' key a other found addr'. v.replaced c' p' key a found addr';
  }

  append-AreListedBut :
      (s : Assignments) (c p old old_addr time : ℕ)
      → get (c, p) s.validator_consumer_pub_key ≡ some old
      → chain.cons_addr_of old ≡ some old_addr
      → IsConsistent chain s
      → AreListed chain.cons_addr_of s
      → AreListedBut c p (append_consumer_addrs_to_prune s c time old_addr)
  unfolding append_consumer_addrs_to_prune
  append-AreListedBut s c p old old_addr time had addr consistent v =
      let (b, addr_b, owner_b) = consistent c p old had in
      let owner : get (c, old_addr) s.validator_by_consumer_addr ≡ some p =
        ground (arith, addr_b, addr, owner_b) in
      let absent = v.replaced c p old old_addr had addr in
      record {
        stored = v.stored;
        once =
            λ c' a'. ground (arith, listings-append c' a' s c time old_addr, v.once c' a', absent);
        held = λ c' a' h.
            ground (arith, listings-append c' a' s c time old_addr, v.held c' a', owner, h);
        replaced = λ c' p' key a other found addr'.
            let (d, addr_d, owner_d) = consistent c' p' key found in
            ground (
              arith,
              listings-append c' a s c time old_addr,
              v.replaced c' p' key a found addr',
              addr_d,
              owner_d,
              addr',
              owner,
              other,
            );
      }

  retired-AreListedBut :
      (k : Keeper) (now : ℕ) (s s' : Assignments) (c p old a : ℕ)
      → IsConsistent chain s
      → AreListed chain.cons_addr_of s
      → get (c, p) s.validator_consumer_pub_key ≡ some old
      → get (c, a) s.validator_by_consumer_addr ≡ none
      → retire_old_key k chain now s c old ≡ assigned s'
      → AreListedBut c p s' × (get (c, a) s'.validator_by_consumer_addr ≡ none)
  retired-AreListedBut k now s s' c p old a consistent v had free run =
      let (old_addr, addr, _) = consistent c p old had in
      let ready = retire_old_key-IsReady chain k now s s' c p old a consistent had free run in
      elim (retire_old_key-cases chain k now s s' c old old_addr addr run) [
        | inl deleted ↦ (
          subst (AreListedBut c p) (sym deleted)
              (delete-AreListedBut s c p old old_addr had addr v),
          ready.1,
        )
        | inr (time, kept) ↦ (
          subst (AreListedBut c p) (sym kept)
              (append-AreListedBut s c p old old_addr time had addr consistent v),
          ready.1,
        )
      ]

  all_but : (s : Assignments) (c p : ℕ) → AreListed chain.cons_addr_of s → AreListedBut c p s
  all_but s c p v = record {
    stored = v.stored;
    once = v.once;
    held = v.held;
    replaced = λ c' p' key a other found addr. v.replaced c' p' key a found addr;
  }

  assign_free-AreListed :
      (k : Keeper) (now : ℕ) (s s' : Assignments) (c p key a : ℕ)
      → chain.cons_addr_of key ≡ some a
      → IsConsistent chain s
      → AreListed chain.cons_addr_of s
      → assign_free k chain now s c p key a ≡ assigned s'
      → AreListed chain.cons_addr_of s'
  unfolding assign_free
  assign_free-AreListed k now s s' c p key a addr consistent v run =
      elim (Option-cases (get (c, a) s.validator_by_consumer_addr)) [
        | inr (q, taken) ↦ ground (arith, run, taken)
        | inl free ↦ elim (Option-cases (get (c, p) s.validator_consumer_pub_key)) [
          | inl new ↦
              let same : s' ≡ store_key s c p key a = ground (arith, run, free, new) in
              subst (AreListed chain.cons_addr_of) (sym same)
                (store_key-AreListed s c p key a addr free (all_but s c p v))
          | inr (old, had) ↦ elim (Outcome-cases (retire_old_key k chain now s c old)) [
            | inl (why, failed) ↦ ground (arith, run, free, had, failed)
            | inr (s₁, retired) ↦
                let same : s' ≡ store_key s₁ c p key a = ground (arith, run, free, had, retired) in
                let (but, still) =
                  retired-AreListedBut k now s s₁ c p old a consistent v had free retired in
                subst (AreListed chain.cons_addr_of) (sym same)
                  (store_key-AreListed s₁ c p key a addr still but)
          ]
        ]
      ]

  pub assign_consumer_key-AreListed :
      (k : Keeper) (now : ℕ) (s s' : Assignments) (c : ℕ) (validator : Validator) (key : ℕ)
      → IsConsistent chain s
      → AreListed chain.cons_addr_of s
      → assign_consumer_key k chain now s c validator key ≡ assigned s'
      → AreListed chain.cons_addr_of s'
  unfolding assign_consumer_key
  assign_consumer_key-AreListed k now s s' c validator key consistent v run =
      elim (Option-cases (chain.cons_addr_of key)) [
        | inl bad ↦ ground (arith, run, bad)
        | inr (a, addr) ↦ elim (Option-cases validator.cons_addr) [
          | inl bad ↦ ground (arith, run, addr, bad)
          | inr (p, at) ↦ assign_free-AreListed k now s s' c p key a addr consistent v (
              assign_at-assign_free chain k now s s' c validator.operator p key a
                (ground (arith, run, addr, at)))
        ]
      ]
