-- ===== src/Provider/Slash/Tests.antt =====
-- A sweep of two slashes of consumer 7: that of validator 30 has matured, that of 31 has not.
use vaas.Base.{
  ℕ, Bool, ◌+◌, ◌-◌, ◌*◌, ◌/◌, ◌≡◌, ◌≢◌, All, refl, true, false, some, [], ◌∷◌, ltb, nat_eq,
  pair_eq,
}
use vaas.Base.Store.{get, remove, clear, select}
use vaas.Evidence.Decimal.Hundredths.{Hundredths, hundredths, toy_decimals}
use vaas.Provider.Bank.Toy.{toy_bank}
use vaas.Provider.Example.{keeper}
use vaas.Provider.Downtime.{PendingDowntimeSlash}
use vaas.Provider.Lifecycle.{State, with_keeper}
use vaas.Provider.Lifecycle.Tests.{chain_at, paused_7}
use vaas.Provider.Slash.{
  Slashing, is_listed, touched_pairs, has_pending_downtime_slash, matured, remove_matured,
  forget_withheld, slash_undelegations, slash_redelegations, compute_power_to_slash,
  live_cons_addr_of, slashable_stake, slash_fraction, execute_downtime_slash, execute_each,
  executed_pairs, sweep_pending_downtime_slashes,
}
use vaas.Provider.Challenge.Tests.{crypto, accused, cleared, challenge, won}
use vaas.Provider.Slash.Challenged.{challenged_consumer_is_not_slashed}
use vaas.Provider.Slash.Sweep.{IsSwept, sweep_executes_due_slashes_once}

-- One validator, whose stake is the state, and of which an undelegation takes 2.
abbrev slashing : Slashing toy_decimals
slashing = record {
  Stakes = ℕ;
  get_validator_by_cons_addr =
      λ st a. some (record { is_unbonded = false; cons_addr = some (a + 1); operator = some a });
  is_tombstoned = λ st a. false;
  get_unbonding_delegations_from_validator = λ st v. some (2 ∷ []);
  get_redelegations_from_src_validator = λ st v. some [];
  get_last_validator_power = λ st v. some st;
  power_reduction = λ st. 1;
  slash_unbonding_delegation = λ st u. (u, st);
  slash_redelegation = λ st v r. (r, st);
  tokens_to_consensus_power = λ t r. t / r;
  tokens_from_consensus_power = λ p r. p * r;
  slash_with_infraction_reason = λ st a power fraction. (true, st - 1);
  quo = λ a b. hundredths (a * 100 / b);
  gt = above;
}
  where
    above : Hundredths → Hundredths → Bool
    above (hundredths m) (hundredths n) = ltb n m
    above _ _ = false

abbrev slash_of : ℕ → ℕ → PendingDowntimeSlash
slash_of addr matures_at = record {
  consumer_id = 7;
  provider_cons_addr = addr;
  consumer_cons_addr = 40;
  window_start_height = 10;
  span = 4;
  missed_count = 2;
  missed_blocks_bitmap = 6 ∷ [];
  slash_tokens = 3;
  matures_at = matures_at;
}

abbrev two_accused : State toy_decimals toy_bank
two_accused = record paused_7 {
  relay = record paused_7.relay { keeper = keeper };
  pending_downtime_slashes = ((7, (30, 13)), slash_of 30 90) ∷ ((7, (31, 13)), slash_of 31 99) ∷ [];
}

abbrev punished : State toy_decimals toy_bank
punished = record two_accused {
  relay = record two_accused.relay { keeper = record keeper { withheld_fee_records = [] } };
  pending_downtime_slashes = ((7, (31, 13)), slash_of 31 99) ∷ [];
}

-- The slash is 3 of 12, above the cap of a fifth.
swept :
    sweep_pending_downtime_slashes toy_decimals slashing toy_bank (hundredths 20) 95 two_accused 10
    ≡ (
      punished,
      (
        (
          (7, (30, 13)),
          record { entry = slash_of 30 90; cons_addr = 31; power = 12; fraction = hundredths 20 },
        )
            ∷ [],
        9,
      ),
    )
unfolding sweep_pending_downtime_slashes matured select execute_each execute_downtime_slash
    live_cons_addr_of slashable_stake compute_power_to_slash slash_undelegations slash_redelegations
    slash_fraction remove_matured remove clear executed_pairs touched_pairs is_listed
    forget_withheld has_pending_downtime_slash with_keeper
swept = refl

sweep_executes_due_slashes_once_example :
    IsSwept toy_decimals slashing toy_bank
      (hundredths 20)
      95
      two_accused
      (sweep_pending_downtime_slashes toy_decimals slashing toy_bank
        (hundredths 20)
        95
        two_accused
        10).0
      (sweep_pending_downtime_slashes toy_decimals slashing toy_bank
        (hundredths 20)
        95
        two_accused
        10).1.0
unfolding get
sweep_executes_due_slashes_once_example =
    sweep_executes_due_slashes_once toy_decimals slashing toy_bank (hundredths 20) 95 two_accused 10
      refl (refl, (refl, tt))

challenged_consumer_is_not_slashed_example :
    All
      (λ x. x.0.0 ≢ 7)
      (sweep_pending_downtime_slashes toy_decimals slashing toy_bank
        (hundredths 20)
        95
        cleared
        10).1.0
unfolding get
challenged_consumer_is_not_slashed_example =
    challenged_consumer_is_not_slashed toy_decimals slashing toy_bank crypto (chain_at 20) accused
      cleared challenge (hundredths 20) 95 10 (refl, tt) won
