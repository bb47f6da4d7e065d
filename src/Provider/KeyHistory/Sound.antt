-- ===== src/Provider/KeyHistory/Sound.antt =====
-- No sequence of assignments, prunings, rotations and deletions gives two validators of a consumer
-- one key (x/vaas/provider/keeper/key_assignment.go and cons_pubkey_rotation.go).
use vaas.Base.{
  ℕ, ◌≡◌, refl, subst, Bool, ◌&&◌, some, [], ◌∷◌, ◌==◌, nat_eq, pair_eq, arith, Bool-cases,
  Option-cases, inl, inr,
}
use vaas.Base.Store.{
  Store, get, set, remove, select, IsStore, get-set, get-remove, get-clear, set-IsStore,
  clear-IsStore, sum_by, sum_by-clear, sum_by-clear_le,
}
use vaas.Evidence.Decimal.{Decimals}
use vaas.Provider.Bank.{Bank}
use vaas.Provider.KeyAssignment.{Assignments, Chain}
use vaas.Provider.KeyAssignment.Consistency.{IsConsistent, consistent_is_unique}
use vaas.Provider.KeyAssignment.Unique.{assign_consumer_key-IsConsistent}
use vaas.Provider.KeyAssignment.Listings.{listings, weight}
use vaas.Provider.KeyAssignment.Listed.{AreListed, prune-AreListed, prune-IsConsistent}
use vaas.Provider.KeyAssignment.Steps.{assign_consumer_key-AreListed}
use vaas.Provider.Lifecycle.{State, with_keeper}
use vaas.Provider.Lifecycle.Removal.{delete_key_assignments}
use vaas.Provider.Rotation.{
  repoint_each, move_key, migrate_downtime_acceptance, migrate_stored_validator,
  migrate_fee_exclusion, migrate_consumer,
}
use vaas.Provider.Rotation.Moves.{get-repointed}
use vaas.Provider.Rotation.Keys.{
  assignments, rotation_keeps_key_owners, migrate_consumer-assigned, migrate_consumer-unassigned,
}
use vaas.Provider.KeyHistory.{
  no_assignments, KeyStep, assign_step, prune_step, rotation_step, deletion_step, KeyHistory,
  no_step, next_step,
}

repoint_each-IsStore :
    (old new : ℕ) (xs m : Store (ℕ × ℕ) ℕ) → IsStore m → IsStore (repoint_each old new xs m)
unfolding repoint_each
repoint_each-IsStore old new [] m stored = stored
repoint_each-IsStore old new (x ∷ xs) m stored = elim (Bool-cases (x.1 == old)) [
  | inl named ↦
      rw named (repoint_each-IsStore old new xs (set x.0 new m) (set-IsStore x.0 new m stored))
  | inr other ↦ rw other (repoint_each-IsStore old new xs m stored)
]

module _ (dec : Decimals) (bank : Bank) (chain : Chain) where
  module _ (s : State dec bank) (c old new : ℕ) where
    move_key-AreListed :
        (key : ℕ)
        → get (c, old) s.relay.validator_consumer_pub_key ≡ some key
        → AreListed chain.cons_addr_of (assignments dec bank s)
        → AreListed chain.cons_addr_of (assignments dec bank (move_key dec bank s c old new key))
    unfolding move_key
    move_key-AreListed key had v =
        let by_addr = s.validator_by_consumer_addr in
        let keys = s.relay.validator_consumer_pub_key in
        record {
          stored = repoint_each-IsStore old new (select (λ x. x.0.0 == c) by_addr) by_addr v.stored;
          once = v.once;
          held =
              λ i a h. ground (arith, v.held i a h, get-repointed c old new i a by_addr v.stored);
          replaced = λ i p key' a found addr. elim (Bool-cases (i == c && p == new)) [
            | inl own ↦ ground (
              arith,
              own,
              found,
              had,
              addr,
              get-set (i, p) (c, new) key (remove (c, old) keys),
              v.replaced c old key a had,
            )
            | inr other ↦ ground (
              arith,
              other,
              found,
              addr,
              get-set (i, p) (c, new) key (remove (c, old) keys),
              get-remove (i, p) (c, old) keys,
              v.replaced i p key' a,
            )
          ];
        }

    migrate_consumer-AreListed :
        AreListed chain.cons_addr_of (assignments dec bank s)
        → AreListed chain.cons_addr_of
            (assignments dec bank (migrate_consumer dec bank s c old new))
    unfolding migrate_downtime_acceptance migrate_stored_validator migrate_fee_exclusion with_keeper
    migrate_consumer-AreListed v =
        elim (Option-cases (get (c, old) s.relay.validator_consumer_pub_key)) [
          | inl unassigned ↦ rw (migrate_consumer-unassigned dec bank s c old new unassigned) v
          | inr (key, had) ↦
              rw (migrate_consumer-assigned dec bank s c old new key had)
                (move_key-AreListed key had v)
        ]

  module _ (s : State dec bank) (c : ℕ) where
    delete-IsConsistent :
        IsConsistent chain (assignments dec bank s)
        → IsConsistent chain (assignments dec bank (delete_key_assignments dec bank s c))
    unfolding delete_key_assignments
    delete-IsConsistent v i p key found =
        let gone : ℕ × ℕ → Bool = λ key. key.0 == c in
        let read = get-clear (i, p) gone s.relay.validator_consumer_pub_key in
        let (a, addr, owner) = v i p key (ground (arith, found, read)) in
        (
          a,
          addr,
          ground (arith, found, read, owner, get-clear (i, a) gone s.validator_by_consumer_addr),
        )

    delete-AreListed :
        AreListed chain.cons_addr_of (assignments dec bank s)
        → AreListed chain.cons_addr_of (assignments dec bank (delete_key_assignments dec bank s c))
    unfolding delete_key_assignments listings
    delete-AreListed v =
        let gone : ℕ × ℕ → Bool = λ key. key.0 == c in
        let listed = s.consumer_addrs_to_prune in
        record {
          stored = clear-IsStore gone s.validator_by_consumer_addr v.stored;
          once = λ i a. omega (arith, v.once i a, sum_by-clear_le (weight i a) gone listed);
          held = λ i a h.
              let fewer = sum_by-clear_le (weight i a) gone listed in
              elim (Bool-cases (i == c)) [
                | inl same ↦
                    let none_left =
                      sum_by-clear (weight i a) gone listed
                        (λ k addrs kept. ground (arith, kept, same)) in
                    absurd (omega (arith, none_left, h))
                | inr other ↦
                    let was = v.held i a (omega (arith, h, fewer, v.once i a)) in
                    ground (arith, other, was, get-clear (i, a) gone s.validator_by_consumer_addr)
              ];
          replaced = λ i p key a found addr. ground (
            arith,
            found,
            get-clear (i, p) gone s.relay.validator_consumer_pub_key,
            v.replaced i p key a,
            addr,
            sum_by-clear_le (weight i a) gone listed,
          );
        }

  -- Every assigned key maps back, and what is listed for pruning is apart from it.
  abbrev pub IsSound : Assignments → Type 0
  IsSound a = IsConsistent chain a × AreListed chain.cons_addr_of a

  KeyStep-IsSound : (a a' : Assignments) → KeyStep dec bank chain a a' → IsSound a → IsSound a'
  KeyStep-IsSound a a' (assign_step k now c validator key rotations operators period run) v =
      let chain' : Chain = record chain {
        block_rotations = rotations;
        operator_of = operators;
        unbonding_time = period;
      } in
      (
        assign_consumer_key-IsConsistent chain' k now a a' c validator key v.0 run,
        assign_consumer_key-AreListed chain' k now a a' c validator key v.0 v.1 run,
      )
  KeyStep-IsSound a a' (prune_step c now same) v =
      subst IsSound same
        (prune-IsConsistent chain a c now v.1 v.0, prune-AreListed chain a c now v.1)
  KeyStep-IsSound a a' (rotation_step s c old new from to) v =
      let (consistent, listed) = subst IsSound from v in
      subst IsSound to (
        rotation_keeps_key_owners dec bank s c old new chain listed.stored consistent,
        migrate_consumer-AreListed s c old new listed,
      )
  KeyStep-IsSound a a' (deletion_step s c from to) v =
      let (consistent, listed) = subst IsSound from v in
      subst IsSound to (delete-IsConsistent s c consistent, delete-AreListed s c listed)

  History-IsSound : {a a' : Assignments} → KeyHistory dec bank chain a a' → IsSound a → IsSound a'
  History-IsSound no_step v = v
  History-IsSound {a' = a'} (next_step {a₁} h s) v = KeyStep-IsSound a₁ a' s (History-IsSound h v)

  no_assignments-IsSound : IsSound no_assignments
  unfolding get listings sum_by
  no_assignments-IsSound = (
    λ c p key found. ground (arith, found),
    record {
      stored = tt;
      once = λ c a. omega arith;
      held = λ c a h. ground (arith, h);
      replaced = λ c p key a found addr. refl;
    },
  )

  -- After any sequence of key assignments, prunings, rotations of consensus keys and deletions of
  -- consumers that starts without any assigned key, two validators of a consumer whose keys have
  -- the same consumer address are the same validator. Every assigned key's address maps back to the
  -- validator that has the key; every address that waits to be pruned is listed once and still maps
  -- to a validator, and is not that of an assigned key.
  pub keys_stay_unique :
      (a : Assignments)
      → KeyHistory dec bank chain no_assignments a
      → IsSound a
        × ((c p p' key key' : ℕ)
            → get (c, p) a.validator_consumer_pub_key ≡ some key
            → get (c, p') a.validator_consumer_pub_key ≡ some key'
            → chain.cons_addr_of key ≡ chain.cons_addr_of key'
            → p ≡ p')
  keys_stay_unique a h =
      let (consistent, listed) = History-IsSound h no_assignments-IsSound in
      (
        (consistent, listed),
        λ c p p' key key' found found' same.
            consistent_is_unique chain a c p p' key key' consistent found found' same,
      )
