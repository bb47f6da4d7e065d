-- ===== src/Provider/KeyAssignment/Prune.antt =====
-- The pruning of retired consumer addresses (PruneKeyAssignments of
-- x/vaas/provider/keeper/key_assignment.go, ConsumeConsumerAddrsToPrune of keeper.go). The order of
-- the due addresses is that of the list and not of the stored keys; each is only deleted.
use vaas.Base.{
  ℕ, ◌+◌, ◌<◌, ◌≡◌, refl, sym, subst, Bool, true, false, not, ◌&&◌, ◌||◌, some, List, [], ◌∷◌, ◌++◌,
  ◌==◌, ltb, if◌then◌else◌, value_or, nat_eq, pair_eq, arith, Option-cases, inl, inr,
}
use vaas.Base.Store.{Store, get, set, clear, get-set, get-remove}
use vaas.Provider.State.{Keeper, launched, paused, phase_eq, get_consumer_phase}
use vaas.Provider.KeyAssignment.{
  Assignments, Chain, Validator, assigned, append_consumer_addrs_to_prune,
  delete_validator_by_consumer_addr, store_key, retire_old_key, assign_free, assign_consumer_key,
}
use vaas.Provider.KeyAssignment.Consistency.{IsConsistent}
use vaas.Provider.KeyAssignment.Unique.{assign_at-assign_free}

-- Whether the entry of a consumer and a time is the consumer's and not later than now.
unfoldable pub is_due : ℕ → ℕ → ℕ × ℕ → Bool
is_due consumer now key = key.0 == consumer && not (ltb now key.1)

-- The addresses that ConsumeConsumerAddrsToPrune returns.
unfoldable pub due_addrs : ℕ → ℕ → Store (ℕ × ℕ) (List ℕ) → List ℕ
due_addrs consumer now [] = []
due_addrs consumer now (x ∷ m) =
    let rest = due_addrs consumer now m in if is_due consumer now x.0 then x.1 ++ rest else rest

-- ConsumeConsumerAddrsToPrune.
unfoldable pub consume_consumer_addrs_to_prune : Assignments → ℕ → ℕ → List ℕ × Assignments
consume_consumer_addrs_to_prune s consumer now = (
  due_addrs consumer now s.consumer_addrs_to_prune,
  record s { consumer_addrs_to_prune = clear (is_due consumer now) s.consumer_addrs_to_prune },
)

-- The loop of PruneKeyAssignments.
unfoldable pub delete_each : Assignments → ℕ → List ℕ → Assignments
delete_each s consumer [] = s
delete_each s consumer (addr ∷ addrs) =
    delete_each (delete_validator_by_consumer_addr s consumer addr) consumer addrs

-- PruneKeyAssignments.
unfoldable pub prune_key_assignments : Assignments → ℕ → ℕ → Assignments
prune_key_assignments s consumer now =
    let (addrs, s₁) = consume_consumer_addrs_to_prune s consumer now in
    delete_each s₁ consumer addrs

unfoldable pub is_among : ℕ → List ℕ → Bool
is_among a [] = false
is_among a (b ∷ bs) = a == b || is_among a bs

get-delete_each :
    (c a : ℕ) (s : Assignments) (addrs : List ℕ)
    → is_among a addrs ≡ false
    → get (c, a) (delete_each s c addrs).validator_by_consumer_addr
      ≡ get (c, a) s.validator_by_consumer_addr
unfolding delete_each is_among delete_validator_by_consumer_addr
get-delete_each c a s [] h = refl
get-delete_each c a s (b ∷ bs) h = ground (
  arith,
  h,
  get-delete_each c a (delete_validator_by_consumer_addr s c b) bs,
  get-remove (c, a) (c, b) s.validator_by_consumer_addr,
)

-- A write under a time that is not due leaves the due addresses as they are.
due_addrs-set :
    (c now time : ℕ) (addrs : List ℕ) (m : Store (ℕ × ℕ) (List ℕ))
    → now < time
    → due_addrs c now (set (c, time) addrs m) ≡ due_addrs c now m
unfolding due_addrs set is_due
due_addrs-set c now time addrs [] h = ground (arith, h)
due_addrs-set c now time addrs (x ∷ m) h = ground (arith, h, due_addrs-set c now time addrs m h)

-- A pruning leaves the mapping of an address that is not due.
prune-get :
    (s : Assignments) (c now a : ℕ)
    → is_among a (due_addrs c now s.consumer_addrs_to_prune) ≡ false
    → get (c, a) (prune_key_assignments s c now).validator_by_consumer_addr
      ≡ get (c, a) s.validator_by_consumer_addr
unfolding prune_key_assignments consume_consumer_addrs_to_prune
prune-get s c now a h =
    let s₁ : Assignments = record s {
      consumer_addrs_to_prune = clear (is_due c now) s.consumer_addrs_to_prune;
    } in
    get-delete_each c a s₁ (due_addrs c now s.consumer_addrs_to_prune) h

-- An address that has been retired until a time keeps its mapping in a pruning before that.
store_key-prune :
    (s : Assignments) (c p key a old_addr time later : ℕ)
    → get (c, old_addr) s.validator_by_consumer_addr ≡ some p
    → is_among old_addr (due_addrs c later s.consumer_addrs_to_prune) ≡ false
    → later < time
    → get
        (c, old_addr)
        (prune_key_assignments
          (store_key (append_consumer_addrs_to_prune s c time old_addr) c p key a)
          c
          later).validator_by_consumer_addr
      ≡ some p
unfolding store_key append_consumer_addrs_to_prune
store_key-prune s c p key a old_addr time later owner unlisted before =
    let addrs = value_or [] (get (c, time) s.consumer_addrs_to_prune) ++ (old_addr ∷ []) in
    let s' = store_key (append_consumer_addrs_to_prune s c time old_addr) c p key a in
    let same = due_addrs-set c later time addrs s.consumer_addrs_to_prune before in
    let kept =
      prune-get s' c later old_addr
        (subst (λ (l : List ℕ). is_among old_addr l ≡ false) (sym same) unlisted) in
    ground (arith, kept, owner, get-set (c, old_addr) (c, a) p s.validator_by_consumer_addr)

assign_free-retires :
    (k : Keeper) (chain : Chain) (now : ℕ) (s s' : Assignments) (c p key a old old_addr period : ℕ)
    → (phase_eq (get_consumer_phase k c) launched || phase_eq (get_consumer_phase k c) paused)
      ≡ true
    → chain.unbonding_time ≡ some period
    → get (c, p) s.validator_consumer_pub_key ≡ some old
    → chain.cons_addr_of old ≡ some old_addr
    → assign_free k chain now s c p key a ≡ assigned s'
    → s' ≡ store_key (append_consumer_addrs_to_prune s c (now + period) old_addr) c p key a
unfolding assign_free retire_old_key
assign_free-retires k chain now s s' c p key a old old_addr period live known had decoded run =
    elim (Option-cases (get (c, a) s.validator_by_consumer_addr)) [
      | inr (q, taken) ↦ ground (arith, run, taken)
      | inl free ↦ ground (arith, run, free, had, decoded, live, known)
    ]

assign_consumer_key-assign_free :
    (k : Keeper) (chain : Chain) (now : ℕ) (s s' : Assignments) (c : ℕ) (validator : Validator)
    (key p : ℕ)
    → validator.cons_addr ≡ some p
    → assign_consumer_key k chain now s c validator key ≡ assigned s'
    → (a : ℕ) × (assign_free k chain now s c p key a ≡ assigned s')
unfolding assign_consumer_key
assign_consumer_key-assign_free k chain now s s' c validator key p at run =
    elim (Option-cases (chain.cons_addr_of key)) [
      | inl bad ↦ ground (arith, run, bad)
      | inr (a, addr) ↦ (
        a,
        assign_at-assign_free chain k now s s' c validator.operator p key a
            (ground (arith, run, addr, at)),
      )
    ]

-- On a launched or paused consumer, the address of the key that an accepted assignment replaces
-- still maps to the validator after a pruning at any time before the unbonding period has passed,
-- where the stored keys' addresses map back and the address was not already due at that time.
pub retired_address_resolves :
    (k : Keeper) (chain : Chain) (now : ℕ) (s s' : Assignments) (c : ℕ) (validator : Validator)
    (key p old old_addr period later : ℕ)
    → IsConsistent chain s
    → (phase_eq (get_consumer_phase k c) launched || phase_eq (get_consumer_phase k c) paused)
      ≡ true
    → chain.unbonding_time ≡ some period
    → validator.cons_addr ≡ some p
    → get (c, p) s.validator_consumer_pub_key ≡ some old
    → chain.cons_addr_of old ≡ some old_addr
    → assign_consumer_key k chain now s c validator key ≡ assigned s'
    → is_among old_addr (due_addrs c later s.consumer_addrs_to_prune) ≡ false
    → later < now + period
    → get (c, old_addr) (prune_key_assignments s' c later).validator_by_consumer_addr ≡ some p
retired_address_resolves k chain now s s' c validator key p old old_addr period later v live known
      at had decoded run unlisted before =
    let (a, free) = assign_consumer_key-assign_free k chain now s s' c validator key p at run in
    let same =
      assign_free-retires k chain now s s' c p key a old old_addr period live known had decoded
        free in
    let (mapped, decoded', owner) = v c p old had in
    let here : mapped ≡ old_addr = ground (arith, decoded, decoded') in
    let owner' = subst (λ (x : ℕ). get (c, x) s.validator_by_consumer_addr ≡ some p) here owner in
    subst
      (λ (t : Assignments).
        get (c, old_addr) (prune_key_assignments t c later).validator_by_consumer_addr ≡ some p)
      (sym same) (store_key-prune s c p key a old_addr (now + period) later owner' unlisted before)
