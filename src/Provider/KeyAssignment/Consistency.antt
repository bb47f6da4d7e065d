-- ===== src/Provider/KeyAssignment/Consistency.antt =====
-- Retiring and storing a key keep the two indexes of key assignment consistent
-- (x/vaas/provider/keeper/key_assignment.go).
use vaas.Base.{
  ℕ, ◌+◌, ◌⊎◌, ◌≡◌, refl, sym, subst, true, false, ◌||◌, none, some, nat_eq, pair_eq, pair_beq,
  pair_beq_iff, arith, Bool-cases, Option-cases, inl, inr,
}
use mathlib.Core.Path.{Path}
use vaas.Base.Store.{get, get-set, get-remove}
use vaas.Provider.State.{Keeper, launched, paused, phase_eq, get_consumer_phase}
use vaas.Provider.KeyAssignment.{
  Assignments, Chain, Refusal, Outcome, assigned, refused, append_consumer_addrs_to_prune,
  delete_validator_by_consumer_addr, store_key, retire_old_key,
}

same_key :
    (c a c' a' : ℕ) → pair_beq nat_eq nat_eq (c, a) (c', a') ≡ true → Path (ℕ × ℕ) (c, a) (c', a')
same_key c a c' a' h =
    let here : ℕ × ℕ = (c, a) in
    let there : ℕ × ℕ = (c', a') in (pair_beq_iff nat_eq nat_eq here there).0 h

pub Outcome-cases :
    (o : Outcome) → ((why : Refusal) × (o ≡ refused why)) ⊎ ((s : Assignments) × (o ≡ assigned s))
Outcome-cases (refused why) = inl (why, refl)
Outcome-cases (assigned s) = inr (s, refl)

module _ (chain : Chain) where
  -- Every assigned key's address maps back to the validator that it is assigned to.
  abbrev pub IsConsistent : Assignments → Type 0
  IsConsistent s =
      (c p key : ℕ)
      → get (c, p) s.validator_consumer_pub_key ≡ some key
      → (a : ℕ) × (chain.cons_addr_of key ≡ some a)
        × (get (c, a) s.validator_by_consumer_addr ≡ some p)

  -- Two validators of a consumer have keys with different addresses.
  pub consistent_is_unique :
      (s : Assignments) (c p p' key key' : ℕ)
      → IsConsistent s
      → get (c, p) s.validator_consumer_pub_key ≡ some key
      → get (c, p') s.validator_consumer_pub_key ≡ some key'
      → chain.cons_addr_of key ≡ chain.cons_addr_of key'
      → p ≡ p'
  consistent_is_unique s c p p' key key' v h h' same =
      let (a, addr, owner) = v c p key h in
      let (a', addr', owner') = v c p' key' h' in
      let here : a ≡ a' = ground (arith, addr, addr', same) in
      ground (
        arith,
        owner',
        subst (λ (x : ℕ). get (c, x) s.validator_by_consumer_addr ≡ some p) here owner,
      )

  -- All keys but the validator's own map back.
  abbrev pub IsConsistentBut : ℕ → ℕ → Assignments → Type 0
  IsConsistentBut c₀ p₀ s =
      (c p key : ℕ)
      → pair_beq nat_eq nat_eq (c₀, p₀) (c, p) ≡ false
      → get (c, p) s.validator_consumer_pub_key ≡ some key
      → (a : ℕ) × (chain.cons_addr_of key ≡ some a)
        × (get (c, a) s.validator_by_consumer_addr ≡ some p)

  pub store_key-IsConsistent :
      (s : Assignments) (c p key a : ℕ)
      → chain.cons_addr_of key ≡ some a
      → get (c, a) s.validator_by_consumer_addr ≡ none
      → IsConsistentBut c p s
      → IsConsistent (store_key s c p key a)
  unfolding store_key
  store_key-IsConsistent s c p key a addr free v c' p' key' h =
      elim (Bool-cases (pair_beq nat_eq nat_eq (c, p) (c', p'))) [
        | inl own ↦ (
          a,
          ground (arith, own, addr, h, get-set (c', p') (c, p) key s.validator_consumer_pub_key),
          ground (arith, own, get-set (c', a) (c, a) p s.validator_by_consumer_addr),
        )
        | inr other ↦
            let (a', addr', owner) = v c' p' key' other (
              ground (arith, other, h, get-set (c', p') (c, p) key s.validator_consumer_pub_key)) in
            (
              a',
              addr',
              elim (Bool-cases (pair_beq nat_eq nat_eq (c, a) (c', a'))) [
                | inl clash ↦ ground (
                  arith,
                  owner,
                  subst (λ (k : ℕ × ℕ). get k s.validator_by_consumer_addr ≡ none)
                      (same_key c a c' a' clash) free,
                )
                | inr apart ↦
                    ground
                      (arith, apart, owner, get-set (c', a') (c, a) p s.validator_by_consumer_addr)
              ],
            )
      ]

  -- Deleting the address of a validator's key leaves the others consistent.
  delete-IsConsistentBut :
      (s : Assignments) (c p a : ℕ)
      → get (c, a) s.validator_by_consumer_addr ≡ some p
      → IsConsistent s
      → IsConsistentBut c p (delete_validator_by_consumer_addr s c a)
  unfolding delete_validator_by_consumer_addr
  delete-IsConsistentBut s c p a owner v c' p' key' other h =
      let (a', addr', owner') = v c' p' key' h in
      (
        a',
        addr',
        elim (Bool-cases (pair_beq nat_eq nat_eq (c, a) (c', a'))) [
          | inl clash ↦
              let mine =
                subst (λ (k : ℕ × ℕ). get k s.validator_by_consumer_addr ≡ some p)
                  (same_key c a c' a' clash) owner in
              ground (arith, mine, owner', clash, other)
          | inr apart ↦
              ground (arith, apart, owner', get-remove (c', a') (c, a) s.validator_by_consumer_addr)
        ],
      )

  -- Retiring a key deletes its address or leaves both indexes as they are.
  pub retire_old_key-cases :
      (k : Keeper) (now : ℕ) (s s' : Assignments) (c old old_addr : ℕ)
      → chain.cons_addr_of old ≡ some old_addr
      → retire_old_key k chain now s c old ≡ assigned s'
      → (s' ≡ delete_validator_by_consumer_addr s c old_addr)
        ⊎ ((time : ℕ) × (s' ≡ append_consumer_addrs_to_prune s c time old_addr))
  unfolding retire_old_key
  retire_old_key-cases k now s s' c old old_addr decoded run =
      elim (Bool-cases
        (phase_eq (get_consumer_phase k c) launched || phase_eq (get_consumer_phase k c) paused)) [
          | inl live ↦ elim (Option-cases chain.unbonding_time) [
            | inl missing ↦ ground (arith, run, decoded, live, missing)
            | inr (period, known) ↦ inr (now + period, ground (arith, run, decoded, live, known))
          ]
          | inr before ↦ inl (ground (arith, run, decoded, before))
        ]

  -- What storing a new key needs of the assignments.
  abbrev pub IsReady : ℕ → ℕ → ℕ → Assignments → Type 0
  IsReady c p a s = IsConsistentBut c p s × (get (c, a) s.validator_by_consumer_addr ≡ none)

  delete-IsReady :
      (s : Assignments) (c p a old_addr : ℕ)
      → get (c, old_addr) s.validator_by_consumer_addr ≡ some p
      → IsConsistent s
      → get (c, a) s.validator_by_consumer_addr ≡ none
      → IsReady c p a (delete_validator_by_consumer_addr s c old_addr)
  unfolding delete_validator_by_consumer_addr
  delete-IsReady s c p a old_addr owner v free = (
    delete-IsConsistentBut s c p old_addr owner v,
    ground (arith, free, get-remove (c, a) (c, old_addr) s.validator_by_consumer_addr),
  )

  append-IsReady :
      (s : Assignments) (c p a old_addr time : ℕ)
      → IsConsistent s
      → get (c, a) s.validator_by_consumer_addr ≡ none
      → IsReady c p a (append_consumer_addrs_to_prune s c time old_addr)
  unfolding append_consumer_addrs_to_prune
  append-IsReady s c p a old_addr time v free = ((λ c' p' key other h. v c' p' key h), free)

  pub retire_old_key-IsReady :
      (k : Keeper) (now : ℕ) (s s' : Assignments) (c p old a : ℕ)
      → IsConsistent s
      → get (c, p) s.validator_consumer_pub_key ≡ some old
      → get (c, a) s.validator_by_consumer_addr ≡ none
      → retire_old_key k chain now s c old ≡ assigned s'
      → IsReady c p a s'
  retire_old_key-IsReady k now s s' c p old a v had free run =
      let (old_addr, decoded, owner) = v c p old had in
      elim (retire_old_key-cases k now s s' c old old_addr decoded run) [
        | inl deleted ↦
            subst (IsReady c p a) (sym deleted) (delete-IsReady s c p a old_addr owner v free)
        | inr (time, kept) ↦
            subst (IsReady c p a) (sym kept) (append-IsReady s c p a old_addr time v free)
      ]
