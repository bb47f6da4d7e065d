-- ===== src/Provider/State.antt =====
-- The stored state of the provider's keeper (x/vaas/provider/keeper/keeper.go), with the records
-- and phases of x/vaas/provider/types. Consumer ids, addresses and denominations are only compared,
-- so they are numbers; times and durations are nanoseconds.
use vaas.Base.{ℕ, Bool, true, false, ◌||◌, value_or, nat_eq, Option}
use vaas.Base.Store.{Store, get}

pub data Phase : Type 0 where
  unspecified registered initialized launched stopped deleted paused : Phase

pub record Coin : Type 0 where
  pub denom : ℕ
  pub amount : ℕ

pub record WithheldFeeRecord : Type 0 where
  pub amount : Coin
  pub expires_at : ℕ

-- The module parameters that fees read; the fee's denomination is wired into the keeper.
pub record Params : Type 0 where
  pub blocks_per_epoch : ℕ
  pub fees_per_block_amount : ℕ
  pub min_deposit_blocks : ℕ

-- Durations in nanoseconds.
pub record InfractionParams : Type 0 where
  pub downtime_grace_period : ℕ
  pub downtime_evidence_max_age : ℕ
  pub downtime_challenge_window : ℕ

pub record Keeper : Type 0 where
  pub fee_denom : ℕ
  pub params : Params
  pub infraction_params : InfractionParams
  pub consumer_fees_per_block_override : Store ℕ ℕ
  pub phases : Store ℕ Phase
  pub fee_pool_shares : Store (ℕ × (ℕ × ℕ)) ℕ
  pub fee_pool_total_shares : Store (ℕ × ℕ) ℕ
  pub withheld_fee_records : Store (ℕ × ℕ) WithheldFeeRecord
  pub epoch_downtime : Store (ℕ × ℕ) Bool
  pub epoch_share_records : Store (ℕ × ℕ) ℕ
  pub consumer_debt : Store ℕ Bool
  -- The id that the next created consumer gets; absent before the first.
  pub consumer_id : Option ℕ

abbrev pub phase_eq : Phase → Phase → Bool
phase_eq unspecified unspecified = true
phase_eq registered registered = true
phase_eq initialized initialized = true
phase_eq launched launched = true
phase_eq stopped stopped = true
phase_eq deleted deleted = true
phase_eq paused paused = true
phase_eq _ _ = false

-- GetConsumerPhase: a consumer with no stored phase is unspecified.
unfoldable pub get_consumer_phase : Keeper → ℕ → Phase
get_consumer_phase k consumer = value_or unspecified (get consumer k.phases)

-- IsConsumerActive.
unfoldable pub is_consumer_active : Keeper → ℕ → Bool
unfolding get_consumer_phase
is_consumer_active k consumer =
    let phase = get_consumer_phase k consumer in
    phase_eq phase registered
    || (phase_eq phase initialized || (phase_eq phase launched || phase_eq phase paused))
