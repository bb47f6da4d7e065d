-- ===== src/Provider/Slash.antt =====
-- The execution of matured downtime slashes (x/vaas/provider/keeper/downtime_slash.go, with
-- slashableStake and ComputePowerToSlash of consumer_equivocation.go and liveConsAddrOf of
-- cons_pubkey_rotation.go). x/staking, x/slashing and the decimal arithmetic of a fraction are the
-- record Slashing, whose state the slashes change. Powers and tokens are unbounded numbers. Logs and
-- events are left out. The deferral of a matured slash behind a vote on the consumer's removal, which
-- docs/consumer-downtime.md describes, is not in the code.
pub mod Entries
pub mod Executions
pub mod Sweep
pub mod Challenged
mod Tests
use vaas.Base.{
  ℕ, ◌+◌, Bool, true, false, not, ◌&&◌, ◌||◌, Option, none, some, List, [], ◌∷◌, ltb, ◌==◌,
  if◌then◌else◌, value_or, some_if, Eq, nat_eq, pair_eq, ◌>>=◌,
}
use vaas.Base.Store.{Store, get, remove, select}
use vaas.Evidence.Decimal.{Decimals}
use vaas.Provider.State.{WithheldFeeRecord}
use vaas.Provider.Bank.{Bank}
use vaas.Provider.Downtime.{WindowKey, PendingDowntimeSlash}
use vaas.Provider.Lifecycle.{State, with_keeper}

-- A validator of x/staking: GetConsAddr, and GetOperator decoded; `none` is an error.
pub record Validator : Type 0 where
  pub is_unbonded : Bool
  pub cons_addr : Option ℕ
  pub operator : Option ℕ

-- What a slash uses of x/staking and x/slashing, whose state is Stakes, of the SDK's conversions
-- between tokens and power, and of decimals. An error is `none`.
pub record Slashing (dec : Decimals) : Type 1 where
  pub Stakes : Type 0
  pub get_validator_by_cons_addr : Stakes → ℕ → Option Validator
  pub is_tombstoned : Stakes → ℕ → Bool
  -- By operator; an undelegation or redelegation is a number.
  pub get_unbonding_delegations_from_validator : Stakes → ℕ → Option (List ℕ)
  pub get_redelegations_from_src_validator : Stakes → ℕ → Option (List ℕ)
  pub get_last_validator_power : Stakes → ℕ → Option ℕ
  pub power_reduction : Stakes → ℕ
  -- With fraction one: the amount, and the state after it.
  pub slash_unbonding_delegation : Stakes → ℕ → ℕ × Stakes
  pub slash_redelegation : Stakes → Validator → ℕ → ℕ × Stakes
  pub tokens_to_consensus_power : ℕ → ℕ → ℕ
  pub tokens_from_consensus_power : ℕ → ℕ → ℕ
  -- Whether it returns no error, and the state after it: of an address, a power and a fraction.
  pub slash_with_infraction_reason : Stakes → ℕ → ℕ → dec.LegacyDec → Bool × Stakes
  -- The quotient of two integers, as decimals.
  pub quo : ℕ → ℕ → dec.LegacyDec
  pub gt : dec.LegacyDec → dec.LegacyDec → Bool

-- liveConsAddrOf.
unfoldable pub live_cons_addr_of : Validator → ℕ → ℕ
live_cons_addr_of v fallback = value_or fallback v.cons_addr

-- The results of slashableStake.
pub record SlashableStake : Type 0 where
  pub total_power : ℕ
  pub total_tokens : ℕ
  pub cons_addr : ℕ

-- An executed slash.
pub record Execution (dec : Decimals) : Type 0 where
  pub entry : PendingDowntimeSlash
  pub cons_addr : ℕ
  pub power : ℕ
  pub fraction : dec.LegacyDec

abbrev pub pair_of : WindowKey → ℕ × ℕ
pair_of key = (key.0, key.1.0)

unfoldable pub is_listed {ℓ} : {A : Type ℓ} ⦃e : Eq A⦄ → A → List A → Bool
is_listed ⦃e⦄ a [] = false
is_listed ⦃e⦄ a (x ∷ xs) = e.beq x a || is_listed a xs

-- The consumer's and validator's pairs of the entries, each listed once, without those seen before.
unfoldable pub touched_pairs : Store WindowKey PendingDowntimeSlash → List (ℕ × ℕ) → List (ℕ × ℕ)
touched_pairs [] seen = []
touched_pairs (x ∷ m) seen = elim (is_listed (pair_of x.0) seen) [
  | true ↦ touched_pairs m seen
  | false ↦ pair_of x.0 ∷ touched_pairs m (pair_of x.0 ∷ seen)
]

-- hasPendingDowntimeSlash.
unfoldable pub has_pending_downtime_slash : Store WindowKey PendingDowntimeSlash → ℕ × ℕ → Bool
has_pending_downtime_slash [] p = false
has_pending_downtime_slash (x ∷ m) p =
    (x.0.0 == p.0 && x.0.1.0 == p.1) || has_pending_downtime_slash m p

-- The entries whose challenge window has elapsed.
unfoldable pub matured :
    ℕ → Store WindowKey PendingDowntimeSlash → Store WindowKey PendingDowntimeSlash
matured now pending = select (λ x. not (ltb now x.1.matures_at)) pending

unfoldable pub remove_matured :
    Store WindowKey PendingDowntimeSlash
    → Store WindowKey PendingDowntimeSlash
    → Store WindowKey PendingDowntimeSlash
remove_matured [] pending = pending
remove_matured (x ∷ m) pending = remove_matured m (remove x.0 pending)

-- The withheld fee records after the last loop of SweepPendingDowntimeSlashes: of the pending entries
-- that are left, the pairs that saw an execution, and the touched pairs.
unfoldable pub forget_withheld :
    Store WindowKey PendingDowntimeSlash
    → List (ℕ × ℕ)
    → List (ℕ × ℕ)
    → Store (ℕ × ℕ) WithheldFeeRecord
    → Store (ℕ × ℕ) WithheldFeeRecord
forget_withheld pending executed [] records = records
forget_withheld pending executed (p ∷ ps) records = forget_withheld pending executed ps (
    if is_listed p executed && not (has_pending_downtime_slash pending p)
    then remove p records
    else records)

module _ (dec : Decimals) (sl : Slashing dec) where
  unfoldable pub slash_undelegations : sl.Stakes → List ℕ → ℕ × sl.Stakes
  slash_undelegations st [] = (0, st)
  slash_undelegations st (u ∷ us) =
      let (amount, st₁) = sl.slash_unbonding_delegation st u in
      let (total, st₂) = slash_undelegations st₁ us in (amount + total, st₂)

  unfoldable pub slash_redelegations : sl.Stakes → Validator → List ℕ → ℕ × sl.Stakes
  slash_redelegations st v [] = (0, st)
  slash_redelegations st v (r ∷ rs) =
      let (amount, st₁) = sl.slash_redelegation st v r in
      let (total, st₂) = slash_redelegations st₁ v rs in (amount + total, st₂)

  -- ComputePowerToSlash. The state of the cached context is dropped.
  unfoldable pub compute_power_to_slash : sl.Stakes → Validator → List ℕ → List ℕ → ℕ → ℕ → ℕ
  compute_power_to_slash st v us rs power reduction =
      let (undelegated, st₁) = slash_undelegations st us in
      let (redelegated, _) = slash_redelegations st₁ v rs in
      power + sl.tokens_to_consensus_power (undelegated + redelegated) reduction

  -- slashableStake.
  unfoldable pub slashable_stake : sl.Stakes → ℕ → Option SlashableStake
  slashable_stake st addr = do
    v ← sl.get_validator_by_cons_addr st addr
    let live = live_cons_addr_of v addr
    operator ← if v.is_unbonded || sl.is_tombstoned st live then none else v.operator
    us ← sl.get_unbonding_delegations_from_validator st operator
    rs ← sl.get_redelegations_from_src_validator st operator
    last_power ← sl.get_last_validator_power st operator
    let power = compute_power_to_slash st v us rs last_power (sl.power_reduction st)
    some (record {
      total_power = power;
      total_tokens = sl.tokens_from_consensus_power power (sl.power_reduction st);
      cons_addr = live;
    })

  -- The fraction of a slash, capped.
  unfoldable pub slash_fraction : dec.LegacyDec → ℕ → ℕ → dec.LegacyDec
  slash_fraction cap tokens total =
      let fraction = sl.quo tokens total in if sl.gt fraction cap then cap else fraction

  -- executeDowntimeSlash, with Downtime.SlashFraction of the infraction parameters; `none` where the
  -- entry is dropped.
  unfoldable pub execute_downtime_slash :
      dec.LegacyDec
      → sl.Stakes
      → WindowKey
      → PendingDowntimeSlash
      → Option (Execution dec) × sl.Stakes
  execute_downtime_slash cap st key entry =
      if entry.slash_tokens == 0 then (none, st) else elim (slashable_stake st key.1.0) [
        | none ↦ (none, st)
        | some stake ↦
            if stake.total_tokens == 0
            then (none, st)
            else let fraction = slash_fraction cap entry.slash_tokens stake.total_tokens in
              let (done, st') =
                sl.slash_with_infraction_reason st stake.cons_addr stake.total_power fraction in
              (
                some_if done (record {
                  entry = entry;
                  cons_addr = stake.cons_addr;
                  power = stake.total_power;
                  fraction = fraction;
                }),
                st',
              )
      ]

  -- The executions of the matured entries, by key.
  unfoldable pub execute_each :
      dec.LegacyDec
      → sl.Stakes
      → Store WindowKey PendingDowntimeSlash
      → Store WindowKey (Execution dec) × sl.Stakes
  execute_each cap st [] = ([], st)
  execute_each cap st (x ∷ m) =
      let (outcome, st₁) = execute_downtime_slash cap st x.0 x.1 in
      let (later, st₂) = execute_each cap st₁ m in
      (elim outcome [ none ↦ later | some execution ↦ (x.0, execution) ∷ later ], st₂)

  unfoldable pub executed_pairs : Store WindowKey (Execution dec) → List (ℕ × ℕ)
  executed_pairs [] = []
  executed_pairs (x ∷ m) = pair_of x.0 ∷ executed_pairs m

  module _ (bank : Bank) where
    -- SweepPendingDowntimeSlashes, with what it executed.
    unfoldable pub sweep_pending_downtime_slashes :
        dec.LegacyDec
        → ℕ
        → State dec bank
        → sl.Stakes
        → State dec bank × (Store WindowKey (Execution dec) × sl.Stakes)
    sweep_pending_downtime_slashes cap now s st =
        let due = matured now s.pending_downtime_slashes in
        let (executions, st') = execute_each cap st due in
        let pending = remove_matured due s.pending_downtime_slashes in
        let k = s.relay.keeper in
        let records =
          forget_withheld pending (executed_pairs executions) (touched_pairs due [])
            k.withheld_fee_records in
        (
          record (with_keeper dec bank (record k { withheld_fee_records = records }) s) {
            pending_downtime_slashes = pending;
          },
          (executions, st'),
        )
