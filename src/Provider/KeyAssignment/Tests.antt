-- ===== src/Provider/KeyAssignment/Tests.antt =====
-- Two assignments of one validator of consumer 7, which is launched: first key 105, then key 107.
use vaas.Base.{◌||◌, true, false, ◌≡◌, refl, none, some, [], ◌∷◌, arith, nat_eq, pair_eq}
use vaas.Base.Store.{get, set, remove, clear}
use vaas.Provider.State.{launched, paused, phase_eq, get_consumer_phase, is_consumer_active}
use vaas.Provider.Example.{keeper}
use vaas.Provider.KeyAssignment.{
  Assignments, Chain, Validator, assigned, refused, key_in_use, assign_consumer_key, assign_at,
  assign_free, pending_rotation_claims, rotation_claims, retire_old_key, store_key,
  append_consumer_addrs_to_prune, delete_validator_by_consumer_addr,
}
use vaas.Provider.KeyAssignment.Prune.{
  is_due, due_addrs, consume_consumer_addrs_to_prune, delete_each, prune_key_assignments, is_among,
  retired_address_resolves,
}
use vaas.Provider.KeyAssignment.Consistency.{IsConsistent}
use vaas.Provider.KeyAssignment.Unique.{assign_consumer_key-IsConsistent}

abbrev pub chain : Chain
chain = record {
  cons_addr_of = λ key. some key;
  block_rotations = some (none ∷ some 106 ∷ []);
  operator_of = λ a. none;
  unbonding_time = some 20;
}

abbrev pub validator : Validator
validator = record { operator = 50; cons_addr = some 5 }

abbrev unassigned : Assignments
unassigned = record {
  validator_consumer_pub_key = [];
  validator_by_consumer_addr = [];
  consumer_addrs_to_prune = [];
}

abbrev pub first : Assignments
first = record {
  validator_consumer_pub_key = ((7, 5), 105) ∷ [];
  validator_by_consumer_addr = ((7, 105), 5) ∷ [];
  consumer_addrs_to_prune = [];
}

-- The old address stays until time 120.
abbrev pub second : Assignments
second = record {
  validator_consumer_pub_key = ((7, 5), 107) ∷ [];
  validator_by_consumer_addr = ((7, 105), 5) ∷ ((7, 107), 5) ∷ [];
  consumer_addrs_to_prune = ((7, 120), 105 ∷ []) ∷ [];
}

unassigned-IsConsistent : IsConsistent chain unassigned
unfolding get
unassigned-IsConsistent c p key h = ground (arith, h)

pub first_assignment :
    assign_consumer_key keeper chain 90 unassigned 7 validator 105 ≡ assigned first
unfolding assign_consumer_key assign_at assign_free retire_old_key store_key
    append_consumer_addrs_to_prune get set pending_rotation_claims rotation_claims
    is_consumer_active get_consumer_phase
first_assignment = refl

first-IsConsistent : IsConsistent chain first
first-IsConsistent =
    assign_consumer_key-IsConsistent chain keeper 90 unassigned first 7 validator 105
      unassigned-IsConsistent first_assignment

pub second_assignment : assign_consumer_key keeper chain 100 first 7 validator 107 ≡ assigned second
unfolding assign_consumer_key assign_at assign_free retire_old_key store_key
    append_consumer_addrs_to_prune get set pending_rotation_claims rotation_claims
    is_consumer_active get_consumer_phase
second_assignment = refl

-- The retired key is not free before it is pruned.
retired_key_refused :
    assign_consumer_key keeper chain 101 second 7 validator 105 ≡ refused key_in_use
unfolding assign_consumer_key assign_at assign_free retire_old_key store_key
    append_consumer_addrs_to_prune get set pending_rotation_claims rotation_claims
    is_consumer_active get_consumer_phase
retired_key_refused = refl

launched_7 :
    (phase_eq (get_consumer_phase keeper 7) launched
      || phase_eq (get_consumer_phase keeper 7) paused)
    ≡ true
unfolding get_consumer_phase get
launched_7 = refl

first_key : get (7, 5) first.validator_consumer_pub_key ≡ some 105
unfolding get
first_key = refl

not_listed : is_among 105 (due_addrs 7 119 first.consumer_addrs_to_prune) ≡ false
unfolding is_among due_addrs
not_listed = refl

retired_address_resolves_example :
    get (7, 105) (prune_key_assignments second 7 119).validator_by_consumer_addr ≡ some 5
retired_address_resolves_example =
    retired_address_resolves keeper chain 100 first second 7 validator 107 5 105 105 20 119
      first-IsConsistent launched_7 refl refl first_key refl second_assignment not_listed
      (omega arith)

-- At time 120 the address is pruned, and its key is free again.
pruned_at_120 : get (7, 105) (prune_key_assignments second 7 120).validator_by_consumer_addr ≡ none
unfolding get prune_key_assignments consume_consumer_addrs_to_prune due_addrs is_due delete_each
    delete_validator_by_consumer_addr remove clear
pruned_at_120 = refl
