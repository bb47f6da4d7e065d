-- ===== src/Provider/KeyHistory.antt =====
-- Sequences of what happens to the assigned consumer keys: assignments and prunings of
-- x/vaas/provider/keeper/key_assignment.go, rotations of cons_pubkey_rotation.go, and the deletion of
-- a consumer. Every assignment finds rotations, validators and an unbonding time of its own.
pub mod Sound
mod Tests
use vaas.Base.{ℕ, ◌≡◌, Option, List, some, [], nat_eq, pair_eq}
use vaas.Base.Store.{get}
use vaas.Evidence.Decimal.{Decimals}
use vaas.Provider.State.{Keeper}
use vaas.Provider.Bank.{Bank}
use vaas.Provider.KeyAssignment.{Assignments, Chain, Validator, assigned, assign_consumer_key}
use vaas.Provider.KeyAssignment.Prune.{prune_key_assignments}
use vaas.Provider.Lifecycle.{State}
use vaas.Provider.Lifecycle.Removal.{delete_key_assignments}
use vaas.Provider.Rotation.{migrate_consumer}
use vaas.Provider.Rotation.Keys.{assignments}

abbrev pub no_assignments : Assignments
no_assignments = record {
  validator_consumer_pub_key = [];
  validator_by_consumer_addr = [];
  consumer_addrs_to_prune = [];
}

module _ (dec : Decimals) (bank : Bank) (chain : Chain) where
  pub data KeyStep (a a' : Assignments) : Type 0 where
    assign_step :
        (k : Keeper) (now c : ℕ) (validator : Validator) (key : ℕ)
        (block_rotations : Option (List (Option ℕ))) (operator_of : ℕ → Option ℕ)
        (unbonding_time : Option ℕ)
        → assign_consumer_key k
            (record chain {
              block_rotations = block_rotations;
              operator_of = operator_of;
              unbonding_time = unbonding_time;
            })
            now
            a
            c
            validator
            key
          ≡ assigned a'
        → KeyStep a a'
    prune_step : (c now : ℕ) → prune_key_assignments a c now ≡ a' → KeyStep a a'
    rotation_step :
        (s : State dec bank) (c old new : ℕ)
        → a ≡ assignments dec bank s
        → assignments dec bank (migrate_consumer dec bank s c old new) ≡ a'
        → KeyStep a a'
    deletion_step :
        (s : State dec bank) (c : ℕ)
        → a ≡ assignments dec bank s
        → assignments dec bank (delete_key_assignments dec bank s c) ≡ a'
        → KeyStep a a'

  pub data KeyHistory (a : Assignments) : Assignments → Type 0 where
    no_step : KeyHistory a a
    next_step : {a₁ a₂ : Assignments} → KeyHistory a a₁ → KeyStep a₁ a₂ → KeyHistory a a₂
