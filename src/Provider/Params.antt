-- ===== src/Provider/Params.antt =====
-- Changes of the module's parameters (x/vaas/provider/keeper/params.go, with the handlers of
-- msg_server.go that make them; the validation of a message's parameters is left out). Infraction
-- parameters are stored at genesis.
pub mod Floor
pub mod Superseded
mod Tests
use vaas.Base.{
  ℕ, Bool, true, false, not, Option, none, some, List, [], ◌∷◌, ltb, if◌then◌else◌, nat_eq,
}
use vaas.Base.Store.{Store, set, remove}
use vaas.Evidence.{DowntimeParams}
use vaas.Evidence.Decimal.{Decimals}
use vaas.Provider.State.{
  Keeper, Params, InfractionParams, Phase, unspecified, deleted, get_consumer_phase,
}
use vaas.Provider.Downtime.{State, same_params}

-- The walk of reconcileFeesPerBlockOverrides: the consumers to remove.
unfoldable pub not_above : ℕ → Store ℕ ℕ → List ℕ
not_above floor [] = []
not_above floor (x ∷ m) = if ltb floor x.1 then not_above floor m else x.0 ∷ not_above floor m

unfoldable pub remove_overrides : List ℕ → Store ℕ ℕ → Store ℕ ℕ
remove_overrides [] m = m
remove_overrides (i ∷ is) m = remove_overrides is (remove i m)

-- reconcileFeesPerBlockOverrides.
unfoldable pub reconcile_fees_per_block_overrides : Keeper → ℕ → Keeper
reconcile_fees_per_block_overrides k floor = record k {
  consumer_fees_per_block_override =
      remove_overrides (not_above floor k.consumer_fees_per_block_override)
        k.consumer_fees_per_block_override;
}

-- UpdateParams after its checks.
unfoldable pub update_params : Keeper → Params → Keeper
update_params k params =
    let k' : Keeper = record k { params = params } in
    if ltb k.params.fees_per_block_amount params.fees_per_block_amount
    then reconcile_fees_per_block_overrides k' params.fees_per_block_amount
    else k'

abbrev pub is_known : Phase → Bool
is_known unspecified = false
is_known deleted = false
is_known _ = true

-- SetConsumerFeesPerBlock for a known consumer; no amount stands for an empty one.
unfoldable pub override_known : Keeper → ℕ → Option ℕ → Option Keeper
override_known k consumer none = some (record k {
  consumer_fees_per_block_override = remove consumer k.consumer_fees_per_block_override;
})
override_known k consumer (some amt) =
    if not (ltb k.params.fees_per_block_amount amt)
    then none
    else some (record k {
      consumer_fees_per_block_override = set consumer amt k.consumer_fees_per_block_override;
    })

-- SetConsumerFeesPerBlock, with whether the signer is the authority.
unfoldable pub set_consumer_fees_per_block : Keeper → Bool → ℕ → Option ℕ → Option Keeper
set_consumer_fees_per_block k authorized consumer amount =
    if not authorized
    then none
    else if not (is_known (get_consumer_phase k consumer))
    then none
    else override_known k consumer amount

-- SetInfractionParams, of the durations and of the downtime fields.
unfoldable pub set_infraction_params :
    (dec : Decimals) → State dec → ℕ → InfractionParams → DowntimeParams dec → State dec
set_infraction_params dec s now durations params = record s {
  keeper = record s.keeper { infraction_params = durations };
  downtime_params = params;
  previous_downtime_params =
      if not (same_params dec s.downtime_params params)
      then some (s.downtime_params, now)
      else s.previous_downtime_params;
}
