-- ===== src/Provider/Example.antt =====
-- A concrete state of the provider's keeper, for the tests: consumer 7 is launched.
use vaas.Base.{[], ◌∷◌, some}
use vaas.Provider.State.{Keeper, launched}

abbrev pub keeper : Keeper
keeper = record {
  fee_denom = 0;
  params = record { blocks_per_epoch = 10; fees_per_block_amount = 2; min_deposit_blocks = 1 };
  infraction_params = record {
    downtime_grace_period = 0;
    downtime_evidence_max_age = 100;
    downtime_challenge_window = 50;
  };
  consumer_fees_per_block_override = [];
  phases = (7, launched) ∷ [];
  fee_pool_shares = ((7, (0, 10)), 2) ∷ ((7, (0, 11)), 1) ∷ [];
  fee_pool_total_shares = ((7, 0), 3) ∷ [];
  withheld_fee_records =
      ((7, 30), record { amount = record { denom = 0; amount = 3 }; expires_at = 50 }) ∷ [];
  epoch_downtime = [];
  epoch_share_records = [];
  consumer_debt = [];
  consumer_id = some 8;
}
