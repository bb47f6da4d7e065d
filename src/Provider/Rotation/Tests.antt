-- ===== src/Provider/Rotation/Tests.antt =====
-- Validator 30 of consumer 7, which has the key 105 there, rotates to 33.
use vaas.Base.{◌≡◌, refl, true, [], ◌∷◌, arith, nat_eq, pair_eq}
use vaas.Base.Store.{get, set, remove, clear, select}
use vaas.Evidence.Decimal.Hundredths.{toy_decimals}
use vaas.Provider.State.{get_consumer_phase}
use vaas.Provider.Fees.{get_all_consumer_ids, ids_from}
use vaas.Provider.Bank.Toy.{toy_bank}
use vaas.Provider.Example.{keeper}
use vaas.Provider.Assembly.{get_consumer_validator}
use vaas.Provider.Challenge.Tests.{accused, slash}
use vaas.Provider.Lifecycle.{State, with_keeper}
use vaas.Provider.Rotation.{
  live_ids, non_deleted_consumer_ids, collect_per_window_entries, move_each, with_addr,
  migrate_downtime_window_floor, repoint_each, delete_consumer_validator, set_consumer_validator,
  migrate_consumer_validator, migrate_epoch_downtime, migrate_withheld_fee_record, move_key,
  migrate_key_assignment, migrate_stored_validator, migrate_downtime_acceptance,
  migrate_fee_exclusion, migrate_punished_equivocations, migrate_consumer, migrate_each,
  migrate_state_on_cons_pub_key_rotation,
}
use vaas.Provider.Rotation.Accusations.{IsRotated, rotation_keeps_accusations}

abbrev before_rotation : State toy_decimals toy_bank
before_rotation = record accused {
  relay = record accused.relay {
    validator_consumer_pub_key = ((7, 30), 105) ∷ [];
    consumer_val_sets =
        (7, record { provider_cons_addr = 30; power = 2; public_key = 105; join_height = 1 } ∷ [])
        ∷ [];
  };
  validator_by_consumer_addr = ((7, 40), 30) ∷ ((7, 105), 30) ∷ ((7, 41), 31) ∷ [];
  downtime_window_floors = ((7, 30), 9) ∷ [];
}

migrated :
    migrate_state_on_cons_pub_key_rotation toy_decimals toy_bank before_rotation
      (((70, (30, 5)), true) ∷ [])
      30
      33
    ≡ (
      record before_rotation {
        relay = record before_rotation.relay {
          keeper = record keeper {
            withheld_fee_records =
                ((7, 33), record { amount = record { denom = 0; amount = 3 }; expires_at = 50 })
                ∷ [];
          };
          validator_consumer_pub_key = ((7, 33), 105) ∷ [];
          consumer_val_sets =
              (
                7,
                record { provider_cons_addr = 33; power = 2; public_key = 105; join_height = 1 }
                    ∷ [],
              )
              ∷ [];
        };
        validator_by_consumer_addr = ((7, 40), 33) ∷ ((7, 105), 33) ∷ ((7, 41), 31) ∷ [];
        pending_downtime_slashes = ((7, (33, 13)), with_addr 33 slash) ∷ [];
        downtime_window_floors = ((7, 33), 9) ∷ [];
      },
      ((70, (33, 5)), true) ∷ [],
    )
unfolding migrate_state_on_cons_pub_key_rotation non_deleted_consumer_ids live_ids
    get_all_consumer_ids ids_from get_consumer_phase migrate_each migrate_consumer
    migrate_key_assignment move_key migrate_stored_validator migrate_consumer_validator
    get_consumer_validator set_consumer_validator delete_consumer_validator
    migrate_downtime_acceptance collect_per_window_entries move_each migrate_downtime_window_floor
    migrate_fee_exclusion migrate_epoch_downtime migrate_withheld_fee_record
    migrate_punished_equivocations repoint_each select get set remove clear with_keeper
migrated = refl

rotation_keeps_accusations_example :
    IsRotated toy_decimals toy_bank before_rotation
      (migrate_consumer toy_decimals toy_bank before_rotation 7 30 33)
      7
      30
      33
unfolding get
rotation_keeps_accusations_example =
    rotation_keeps_accusations toy_decimals toy_bank before_rotation 7 30 33 105
      (λ same. omega (arith, same)) refl (refl, (refl, (refl, tt))) (refl, tt) tt
