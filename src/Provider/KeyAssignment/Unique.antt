-- ===== src/Provider/KeyAssignment/Unique.antt =====
-- No consumer key serves two validators of a consumer (x/vaas/provider/keeper/key_assignment.go).
use vaas.Base.{
  ℕ, ◌≡◌, sym, subst, true, false, some, nat_eq, pair_eq, arith, Option-cases, inl, inr,
}
use vaas.Base.Store.{get}
use vaas.Provider.State.{Keeper}
use vaas.Provider.KeyAssignment.{
  Assignments, Chain, Validator, assigned, store_key, retire_old_key, assign_free, assign_at,
  pending_rotation_claims, assign_consumer_key,
}
use vaas.Provider.KeyAssignment.Consistency.{
  IsConsistent, consistent_is_unique, store_key-IsConsistent, retire_old_key-IsReady, Outcome-cases,
}

module _ (chain : Chain) where
  assign_free-IsConsistent :
      (k : Keeper) (now : ℕ) (s s' : Assignments) (c p key a : ℕ)
      → chain.cons_addr_of key ≡ some a
      → IsConsistent chain s
      → assign_free k chain now s c p key a ≡ assigned s'
      → IsConsistent chain s'
  unfolding assign_free
  assign_free-IsConsistent k now s s' c p key a addr v run =
      elim (Option-cases (get (c, a) s.validator_by_consumer_addr)) [
        | inr (q, taken) ↦ ground (arith, run, taken)
        | inl free ↦ elim (Option-cases (get (c, p) s.validator_consumer_pub_key)) [
          | inl new ↦
              let same : s' ≡ store_key s c p key a = ground (arith, run, free, new) in
              subst (IsConsistent chain) (sym same) (
                store_key-IsConsistent chain s c p key a addr free
                  (λ c' p' key' other h. v c' p' key' h))
          | inr (old, had) ↦ elim (Outcome-cases (retire_old_key k chain now s c old)) [
            | inl (why, failed) ↦ ground (arith, run, free, had, failed)
            | inr (s₁, retired) ↦
                let same : s' ≡ store_key s₁ c p key a = ground (arith, run, free, had, retired) in
                let ready = retire_old_key-IsReady chain k now s s₁ c p old a v had free retired in
                subst (IsConsistent chain) (sym same)
                  (store_key-IsConsistent chain s₁ c p key a addr ready.1 ready.0)
          ]
        ]
      ]

  pub assign_at-assign_free :
      (k : Keeper) (now : ℕ) (s s' : Assignments) (c operator p key a : ℕ)
      → assign_at k chain now s c operator p key a ≡ assigned s'
      → assign_free k chain now s c p key a ≡ assigned s'
  unfolding assign_at
  assign_at-assign_free k now s s' c operator p key a run =
      elim (Option-cases (pending_rotation_claims chain a)) [
        | inl failed ↦ ground (arith, run, failed)
        | inr (true, claims) ↦ ground (arith, run, claims)
        | inr (false, claims) ↦ elim (Option-cases (chain.operator_of a)) [
          | inl nobody ↦ ground (arith, run, claims, nobody)
          | inr (existing, runs) ↦ ground (arith, run, claims, runs)
        ]
      ]

  assign_at-IsConsistent :
      (k : Keeper) (now : ℕ) (s s' : Assignments) (c operator p key a : ℕ)
      → chain.cons_addr_of key ≡ some a
      → IsConsistent chain s
      → assign_at k chain now s c operator p key a ≡ assigned s'
      → IsConsistent chain s'
  unfolding assign_at
  assign_at-IsConsistent k now s s' c operator p key a addr v run =
      assign_free-IsConsistent k now s s' c p key a addr v
        (assign_at-assign_free k now s s' c operator p key a run)

  -- An assignment that is accepted keeps every stored key's address mapped to the validator that
  -- the key is assigned to.
  pub assign_consumer_key-IsConsistent :
      (k : Keeper) (now : ℕ) (s s' : Assignments) (c : ℕ) (validator : Validator) (key : ℕ)
      → IsConsistent chain s
      → assign_consumer_key k chain now s c validator key ≡ assigned s'
      → IsConsistent chain s'
  unfolding assign_consumer_key
  assign_consumer_key-IsConsistent k now s s' c validator key v run =
      elim (Option-cases (chain.cons_addr_of key)) [
        | inl bad ↦ ground (arith, run, bad)
        | inr (a, addr) ↦ elim (Option-cases validator.cons_addr) [
          | inl bad ↦ ground (arith, run, addr, bad)
          | inr (p, at) ↦
              assign_at-IsConsistent k now s s' c validator.operator p key a addr v
                (ground (arith, run, addr, at))
        ]
      ]

  -- After an assignment that is accepted, two validators of a consumer whose keys have the same
  -- consumer address are the same validator, if every stored key's address mapped back before.
  assigned_keys_are_unique :
      (k : Keeper) (now : ℕ) (s s' : Assignments) (c : ℕ) (validator : Validator) (key : ℕ)
      (other p p' key₁ key₂ : ℕ)
      → IsConsistent chain s
      → assign_consumer_key k chain now s c validator key ≡ assigned s'
      → get (other, p) s'.validator_consumer_pub_key ≡ some key₁
      → get (other, p') s'.validator_consumer_pub_key ≡ some key₂
      → chain.cons_addr_of key₁ ≡ chain.cons_addr_of key₂
      → p ≡ p'
  assigned_keys_are_unique k now s s' c validator key other p p' key₁ key₂ v run =
      consistent_is_unique chain s' other p p' key₁ key₂
        (assign_consumer_key-IsConsistent k now s s' c validator key v run)
