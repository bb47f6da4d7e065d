-- ===== src/Provider/KeyAssignment.antt =====
-- Assignment of consumer keys (AssignConsumerKey of x/vaas/provider/keeper/key_assignment.go). Keys
-- and addresses are numbers; times are nanoseconds. An error aborts the transaction and has no
-- state.
pub mod Consistency
pub mod Unique
pub mod Prune
pub mod Listings
pub mod Listed
pub mod Steps
pub mod Tests
use vaas.Base.{
  ℕ, ◌+◌, Bool, true, false, not, ◌||◌, Option, none, some, List, [], ◌∷◌, ◌++◌, ◌==◌,
  if◌then◌else◌, value_or, is_some, nat_eq, pair_eq,
}
use vaas.Base.Store.{Store, get, set, remove}
use vaas.Provider.State.{Keeper, launched, paused, phase_eq, get_consumer_phase, is_consumer_active}

-- The stored assignments: by consumer and provider address, the assigned key; by consumer and
-- consumer address, the provider address; by consumer and time, the addresses to prune then.
pub record Assignments : Type 0 where
  pub validator_consumer_pub_key : Store (ℕ × ℕ) ℕ
  pub validator_by_consumer_addr : Store (ℕ × ℕ) ℕ
  pub consumer_addrs_to_prune : Store (ℕ × ℕ) (List ℕ)

-- What an assignment uses of CometBFT and x/staking: the address of a key (`none` where the key does
-- not decode), the addresses of the new keys of this block's rotations (`none` where the read
-- fails, and for a key that does not decode), the operator of the validator that runs under an
-- address, and the unbonding time.
pub record Chain : Type 0 where
  pub cons_addr_of : ℕ → Option ℕ
  pub block_rotations : Option (List (Option ℕ))
  pub operator_of : ℕ → Option ℕ
  pub unbonding_time : Option ℕ

pub record Validator : Type 0 where
  pub operator : ℕ
  pub cons_addr : Option ℕ

pub data Refusal : Type 0 where
  inactive_consumer bad_consumer_key bad_validator_key rotation_lookup_failed key_in_use default_key
        bad_old_key no_unbonding_time :
      Refusal

pub data Outcome : Type 0 where
  assigned : Assignments → Outcome
  refused : Refusal → Outcome

-- AppendConsumerAddrsToPrune.
unfoldable pub append_consumer_addrs_to_prune : Assignments → ℕ → ℕ → ℕ → Assignments
append_consumer_addrs_to_prune s consumer time addr = record s {
  consumer_addrs_to_prune =
      set (consumer, time)
        (value_or [] (get (consumer, time) s.consumer_addrs_to_prune) ++ (addr ∷ []))
        s.consumer_addrs_to_prune;
}

-- DeleteValidatorByConsumerAddr.
unfoldable pub delete_validator_by_consumer_addr : Assignments → ℕ → ℕ → Assignments
delete_validator_by_consumer_addr s consumer addr = record s {
  validator_by_consumer_addr = remove (consumer, addr) s.validator_by_consumer_addr;
}

-- The two writes at the end of AssignConsumerKey.
unfoldable pub store_key : Assignments → ℕ → ℕ → ℕ → ℕ → Assignments
store_key s consumer provider_addr key consumer_addr = record s {
  validator_consumer_pub_key = set (consumer, provider_addr) key s.validator_consumer_pub_key;
  validator_by_consumer_addr =
      set (consumer, consumer_addr) provider_addr s.validator_by_consumer_addr;
}

-- What AssignConsumerKey does with the key that the validator had: once the consumer has a client,
-- its address is kept until the unbonding time has passed.
unfoldable pub retire_old_key : Keeper → Chain → ℕ → Assignments → ℕ → ℕ → Outcome
retire_old_key k chain now s consumer old_key = elim (chain.cons_addr_of old_key) [
  | none ↦ refused bad_old_key
  | some old_addr ↦
      let phase = get_consumer_phase k consumer in
      if phase_eq phase launched || phase_eq phase paused
      then elim chain.unbonding_time [
        | none ↦ refused no_unbonding_time
        | some period ↦ assigned (append_consumer_addrs_to_prune s consumer (now + period) old_addr)
      ]
      else assigned (delete_validator_by_consumer_addr s consumer old_addr)
]

-- AssignConsumerKey after the checks of who runs under the consumer address.
unfoldable pub assign_free : Keeper → Chain → ℕ → Assignments → ℕ → ℕ → ℕ → ℕ → Outcome
assign_free k chain now s consumer provider_addr key consumer_addr =
    if is_some (get (consumer, consumer_addr) s.validator_by_consumer_addr)
    then refused key_in_use
    else elim (get (consumer, provider_addr) s.validator_consumer_pub_key) [
      | none ↦ assigned (store_key s consumer provider_addr key consumer_addr)
      | some old_key ↦ elim (retire_old_key k chain now s consumer old_key) [
        | refused why ↦ refused why
        | assigned s' ↦ assigned (store_key s' consumer provider_addr key consumer_addr)
      ]
    ]

-- The loop of pendingRotationClaims.
unfoldable pub rotation_claims : ℕ → List (Option ℕ) → Bool
rotation_claims addr [] = false
rotation_claims addr (none ∷ rotations) = rotation_claims addr rotations
rotation_claims addr (some new_addr ∷ rotations) =
    addr == new_addr || rotation_claims addr rotations

-- pendingRotationClaims.
unfoldable pub pending_rotation_claims : Chain → ℕ → Option Bool
pending_rotation_claims chain addr = elim chain.block_rotations [
  | none ↦ none
  | some rotations ↦ some (rotation_claims addr rotations)
]

-- AssignConsumerKey after the addresses have been decoded.
unfoldable pub assign_at : Keeper → Chain → ℕ → Assignments → ℕ → ℕ → ℕ → ℕ → ℕ → Outcome
assign_at k chain now s consumer operator provider_addr key consumer_addr =
    elim (pending_rotation_claims chain consumer_addr) [
      | none ↦ refused rotation_lookup_failed
      | some claimed ↦
          if claimed then refused key_in_use else elim (chain.operator_of consumer_addr) [
            | none ↦ assign_free k chain now s consumer provider_addr key consumer_addr
            | some existing ↦
                if not (existing == operator)
                then refused key_in_use
                else if not (is_some (get (consumer, provider_addr) s.validator_consumer_pub_key))
                then refused default_key
                else assign_free k chain now s consumer provider_addr key consumer_addr
          ]
    ]

-- AssignConsumerKey.
unfoldable pub assign_consumer_key : Keeper → Chain → ℕ → Assignments → ℕ → Validator → ℕ → Outcome
assign_consumer_key k chain now s consumer validator key =
    if not (is_consumer_active k consumer)
    then refused inactive_consumer
    else elim (chain.cons_addr_of key) [
      | none ↦ refused bad_consumer_key
      | some consumer_addr ↦ elim validator.cons_addr [
        | none ↦ refused bad_validator_key
        | some provider_addr ↦
            assign_at k chain now s consumer validator.operator provider_addr key consumer_addr
      ]
    ]
