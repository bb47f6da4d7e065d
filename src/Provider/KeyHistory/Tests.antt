-- ===== src/Provider/KeyHistory/Tests.antt =====
-- A validator of consumer 7 is assigned key 105, then key 107; the address of the first is pruned, and
-- the validator rotates from address 5 to 6.
use vaas.Base.{ℕ, ◌≡◌, refl, some, [], ◌∷◌, nat_eq, pair_eq}
use vaas.Base.Store.{get, set, remove, clear, select}
use vaas.Evidence.Decimal.Hundredths.{toy_decimals}
use vaas.Provider.Bank.Toy.{toy_bank}
use vaas.Provider.Example.{keeper}
use vaas.Provider.Lifecycle.{State, with_keeper}
use vaas.Provider.Lifecycle.Tests.{paused_7}
use vaas.Provider.KeyAssignment.{Assignments, delete_validator_by_consumer_addr}
use vaas.Provider.KeyAssignment.Prune.{
  is_due, due_addrs, delete_each, consume_consumer_addrs_to_prune, prune_key_assignments,
}
use vaas.Provider.KeyAssignment.Tests.{
  chain, validator, second, first_assignment, second_assignment,
}
use vaas.Provider.Rotation.{
  repoint_each, move_key, migrate_key_assignment, migrate_stored_validator,
  migrate_downtime_acceptance, migrate_fee_exclusion, migrate_consumer,
}
use vaas.Provider.Rotation.Keys.{assignments}
use vaas.Provider.KeyHistory.{
  no_assignments, KeyHistory, assign_step, prune_step, rotation_step, no_step, next_step,
}
use vaas.Provider.KeyHistory.Sound.{IsSound, keys_stay_unique}

abbrev pruned : Assignments
pruned = record second {
  validator_by_consumer_addr = ((7, 107), 5) ∷ [];
  consumer_addrs_to_prune = [];
}

abbrev rotated : Assignments
rotated = record {
  validator_consumer_pub_key = ((7, 6), 107) ∷ [];
  validator_by_consumer_addr = ((7, 107), 6) ∷ [];
  consumer_addrs_to_prune = [];
}

pruning : prune_key_assignments second 7 130 ≡ pruned
unfolding prune_key_assignments consume_consumer_addrs_to_prune is_due due_addrs delete_each
    delete_validator_by_consumer_addr remove clear
pruning = refl

abbrev state : State toy_decimals toy_bank
state = record paused_7 {
  relay = record paused_7.relay { validator_consumer_pub_key = pruned.validator_consumer_pub_key };
  validator_by_consumer_addr = pruned.validator_by_consumer_addr;
}

rotation :
    assignments toy_decimals toy_bank (migrate_consumer toy_decimals toy_bank state 7 5 6) ≡ rotated
unfolding migrate_consumer migrate_key_assignment move_key migrate_stored_validator
    migrate_downtime_acceptance migrate_fee_exclusion with_keeper repoint_each select get set remove
    clear
rotation = refl

history : KeyHistory toy_decimals toy_bank chain no_assignments rotated
history =
    next_step
      (next_step
        (next_step
          (next_step no_step (
            assign_step keeper 90 7 validator 105 chain.block_rotations chain.operator_of
              chain.unbonding_time first_assignment))
          (assign_step keeper 100 7 validator 107 chain.block_rotations chain.operator_of
            chain.unbonding_time second_assignment))
        (prune_step 7 130 pruning))
      (rotation_step state 7 5 6 refl rotation)

keys_stay_unique_example :
    IsSound toy_decimals toy_bank chain rotated
    × ((c p p' key key' : ℕ)
        → get (c, p) rotated.validator_consumer_pub_key ≡ some key
        → get (c, p') rotated.validator_consumer_pub_key ≡ some key'
        → chain.cons_addr_of key ≡ chain.cons_addr_of key'
        → p ≡ p')
keys_stay_unique_example = keys_stay_unique toy_decimals toy_bank chain rotated history
