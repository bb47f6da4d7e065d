-- ===== src/Provider/Rotation/Keys.antt =====
-- A rotation keeps whose keys are whose (x/vaas/provider/keeper/cons_pubkey_rotation.go).
use vaas.Base.{
  ℕ, ◌≡◌, refl, none, some, ==_iff, Eq, nat_eq, pair_eq, arith, Bool-cases, Option-cases, inl, inr,
}
use vaas.Base.Store.{get, remove, IsStore, get-set, get-remove}
use vaas.Evidence.Decimal.{Decimals}
use vaas.Provider.Bank.{Bank}
use vaas.Provider.KeyAssignment.{Assignments}
use vaas.Provider.KeyAssignment
use vaas.Provider.KeyAssignment.Consistency.{IsConsistent}
use vaas.Provider.Lifecycle.{State, with_keeper}
use vaas.Provider.Rotation.{
  move_key, migrate_key_assignment, migrate_stored_validator, migrate_downtime_acceptance,
  migrate_fee_exclusion, migrate_consumer,
}
use vaas.Provider.Rotation.Moves.{get-repointed}

module _ (dec : Decimals) (bank : Bank) where
  -- The key assignment of a state.
  abbrev pub assignments : State dec bank → Assignments
  assignments s = record {
    validator_consumer_pub_key = s.relay.validator_consumer_pub_key;
    validator_by_consumer_addr = s.validator_by_consumer_addr;
    consumer_addrs_to_prune = s.consumer_addrs_to_prune;
  }

  module _ (s : State dec bank) (c old new : ℕ) where
    -- The state after the rotation of a validator with an assigned key.
    abbrev pub migrated : ℕ → State dec bank
    migrated key =
        migrate_fee_exclusion dec bank
          (migrate_downtime_acceptance dec bank
            (migrate_stored_validator dec bank (move_key dec bank s c old new key) c old new) c old
            new)
          c old new

    pub migrate_consumer-assigned :
        (key : ℕ)
        → get (c, old) s.relay.validator_consumer_pub_key ≡ some key
        → migrate_consumer dec bank s c old new ≡ migrated key
    unfolding migrate_consumer migrate_key_assignment
    migrate_consumer-assigned key assigned = rw (migrate_key_assignment, assigned) refl

    pub migrate_consumer-unassigned :
        get (c, old) s.relay.validator_consumer_pub_key ≡ none
        → migrate_consumer dec bank s c old new ≡ migrate_fee_exclusion dec bank s c old new
    unfolding migrate_consumer migrate_key_assignment
    migrate_consumer-unassigned unassigned = rw (migrate_key_assignment, unassigned) refl

    move_key-IsConsistent :
        (chain : KeyAssignment.Chain) (key : ℕ)
        → get (c, old) s.relay.validator_consumer_pub_key ≡ some key
        → IsStore s.validator_by_consumer_addr
        → IsConsistent chain (assignments s)
        → IsConsistent chain (assignments (move_key dec bank s c old new key))
    unfolding move_key
    move_key-IsConsistent chain key assigned stored v i p key' found =
        let by_addr = s.validator_by_consumer_addr in
        let keys = s.relay.validator_consumer_pub_key in
        let pairs : Eq (ℕ × ℕ) = pair_eq in
        let here : ℕ × ℕ = (c, new) in
        let there : ℕ × ℕ = (i, p) in
        let read = get-set there here key (remove (c, old) keys) in
        let read' = get-remove there (c, old) keys in
        elim (Bool-cases (pairs.beq here there)) [
          | inl own ↦
              let (a, addr, owner) = v c old key assigned in
              (
                a,
                ground (arith, addr, found, read, own),
                ground (
                  arith,
                  own,
                  owner,
                  get-repointed c old new c a by_addr stored,
                  (pairs.beq_iff here there).0 own,
                  ==_iff c c,
                  ==_iff old old,
                ),
              )
          | inr other ↦
              let (a, addr, owner) = v i p key' (ground (arith, other, found, read, read')) in
              (
                a,
                addr,
                ground (
                  arith,
                  other,
                  found,
                  read,
                  read',
                  owner,
                  get-repointed c old new i a by_addr stored,
                ),
              )
        ]

    -- Where every assigned key's address maps back to the validator that has the key, this still
    -- holds after the migration of a consumer's state from an address that a validator has rotated
    -- away from to its new one. No reverse mapping is stored twice.
    pub rotation_keeps_key_owners :
        (chain : KeyAssignment.Chain)
        → IsStore s.validator_by_consumer_addr
        → IsConsistent chain (assignments s)
        → IsConsistent chain (assignments (migrate_consumer dec bank s c old new))
    unfolding migrate_downtime_acceptance migrate_stored_validator migrate_fee_exclusion with_keeper
    rotation_keeps_key_owners chain stored v =
        elim (Option-cases (get (c, old) s.relay.validator_consumer_pub_key)) [
          | inl unassigned ↦ rw (migrate_consumer-unassigned unassigned) v
          | inr (key, assigned) ↦
              rw (migrate_consumer-assigned key assigned)
                (move_key-IsConsistent chain key assigned stored v)
        ]
