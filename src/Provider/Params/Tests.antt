-- ===== src/Provider/Params/Tests.antt =====
-- Consumer 7 gets a fee of 5 above the default of 2, which is then raised.
use vaas.Base.{ℕ, ◌≡◌, ◌≤◌, refl, true, none, some, [], ◌∷◌, ◌+◌, ◌||◌, leb, arith, nat_eq}
use vaas.Base.Store.{get, set, remove, clear}
use vaas.Evidence.{DowntimeParams}
use vaas.Evidence.Decimal.Hundredths.{hundredths, toy_decimals, toy_decimal_laws}
use vaas.Provider.State.{Keeper, get_consumer_phase}
use vaas.Provider.Example.{keeper}
use vaas.Provider.Fees.{get_fees_per_block, default_fee_per_epoch, effective_fees_per_epoch}
use vaas.Provider.Downtime.Tests.{state}
use vaas.Provider.Downtime.{same_params, acceptable_downtime_params}
use vaas.Provider.Params.{
  not_above, remove_overrides, reconcile_fees_per_block_overrides, update_params, override_known,
  set_consumer_fees_per_block, set_infraction_params,
}
use vaas.Provider.Params.Floor.{
  IsAboveFloor, update_step, override_step, no_step, next_step, no_consumer_pays_less,
}
use vaas.Provider.Params.Superseded.{superseded_params_expire}

abbrev dearer : Keeper
dearer = record keeper { consumer_fees_per_block_override = (7, 5) ∷ [] }

overridden : set_consumer_fees_per_block keeper true 7 (some 5) ≡ some dearer
unfolding set_consumer_fees_per_block get_consumer_phase get override_known set
overridden = refl

too_cheap : set_consumer_fees_per_block keeper true 7 (some 2) ≡ none
unfolding set_consumer_fees_per_block get_consumer_phase get override_known
too_cheap = refl

abbrev raised : ℕ → Keeper
raised amount = record keeper { params = record keeper.params { fees_per_block_amount = amount } }

-- A default of 5 takes the override away, one of 4 does not.
reconciled : update_params dearer (raised 5).params ≡ raised 5
unfolding update_params reconcile_fees_per_block_overrides not_above remove_overrides remove clear
reconciled = refl

kept : update_params dearer (raised 4).params ≡ record dearer { params = (raised 4).params }
unfolding update_params reconcile_fees_per_block_overrides not_above remove_overrides
kept = refl

keeper-IsAboveFloor : IsAboveFloor keeper
unfolding get
keeper-IsAboveFloor c amount found = ground (arith, found)

no_consumer_pays_less_example :
    IsAboveFloor (raised 5)
    × ((default_fee_per_epoch (raised 5)).amount
        ≤ (effective_fees_per_epoch
            (raised 5)
            7
            (default_fee_per_epoch (raised 5))
            (get_fees_per_block (raised 5))).0.amount)
no_consumer_pays_less_example = no_consumer_pays_less keeper (raised 5) 7 keeper-IsAboveFloor (
    next_step (next_step no_step (override_step true 7 (some 5) overridden))
      (update_step (raised 5).params reconciled))

abbrev stricter : DowntimeParams toy_decimals
stricter = record { signed_blocks_window = 4; min_signed_per_window = hundredths 60 }

superseded_params_expire_example :
    let s = set_infraction_params toy_decimals state 100 keeper.infraction_params stricter in
    (acceptable_downtime_params toy_decimals s 250 stricter ≡ true)
    × (acceptable_downtime_params toy_decimals s 250 state.downtime_params
        ≡ (same_params toy_decimals state.downtime_params stricter || leb 250 (100 + (100 + 50))))
superseded_params_expire_example =
    superseded_params_expire toy_decimals toy_decimal_laws state 100 250 keeper.infraction_params
      stricter
