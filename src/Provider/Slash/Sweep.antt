-- ===== src/Provider/Slash/Sweep.antt =====
-- What a sweep of the pending downtime slashes executes, removes and keeps
-- (x/vaas/provider/keeper/downtime_slash.go).
use vaas.Base.{
  ℕ, ◌≤◌, ◌≡◌, refl, false, not, ◌&&◌, none, some, [], if◌then◌else◌, nat_eq, pair_eq, arith,
  Bool-cases, inl, inr, All,
}
use vaas.Base.Store.{Store, get, IsStore}
use vaas.Evidence.Decimal.{Decimals}
use vaas.Provider.State.{WithheldFeeRecord}
use vaas.Provider.Bank.{Bank}
use vaas.Provider.Downtime.{WindowKey, PendingDowntimeSlash}
use vaas.Provider.Lifecycle.{State, with_keeper}
use vaas.Provider.Slash.{
  Slashing, Execution, is_listed, touched_pairs, has_pending_downtime_slash, matured,
  remove_matured, forget_withheld, execute_each, executed_pairs, sweep_pending_downtime_slashes,
}
use vaas.Provider.Slash.Entries.{
  HasPair, undue, get-matured, get-remove_matured, get-forget_withheld, touched,
  has_pending-HasPair, HasPair-has_pending, matured-IsStore, matured-due,
}
use vaas.Provider.Slash.Executions.{
  execute_each-Executes, execute_each-IsStore, execute_each-has_pending, executed-HasPair,
  HasPair-executed,
}

module _ (dec : Decimals) (sl : Slashing dec) (bank : Bank) where
  -- A pair that saw an execution and has no pending slash left.
  abbrev pub IsSpent :
      Store WindowKey (Execution dec) → Store WindowKey PendingDowntimeSlash → ℕ × ℕ → Type 0
  IsSpent executions pending p = HasPair executions p × (HasPair pending p → ⊥)

  -- The effect of a sweep at a time, with a cap on the fraction.
  pub record IsSwept (cap : dec.LegacyDec) (now : ℕ) (s s' : State dec bank)
      (executions : Store WindowKey (Execution dec)) : Type 0 where
    left :
        (key : WindowKey)
        → get key s'.pending_downtime_slashes ≡ undue now (get key s.pending_downtime_slashes)
    once : IsStore executions
    due :
        All
          (λ x.
            ((get x.0 s.pending_downtime_slashes ≡ some x.1.entry) × (x.1.entry.matures_at ≤ now))
            × (sl.gt x.1.fraction cap ≡ false))
          executions
    forgotten :
        (p : ℕ × ℕ)
        → IsSpent executions s'.pending_downtime_slashes p
        → get p s'.relay.keeper.withheld_fee_records ≡ none
    kept :
        (p : ℕ × ℕ)
        → (IsSpent executions s'.pending_downtime_slashes p → ⊥)
        → get p s'.relay.keeper.withheld_fee_records ≡ get p s.relay.keeper.withheld_fee_records

  module _ (cap : dec.LegacyDec) (st : sl.Stakes) (due : Store WindowKey PendingDowntimeSlash) where
    -- The pairs that saw an execution have been touched.
    get-forgotten :
        (pending : Store WindowKey PendingDowntimeSlash) (p : ℕ × ℕ)
        (records : Store (ℕ × ℕ) WithheldFeeRecord)
        → get p (
            forget_withheld pending
              (executed_pairs dec sl (execute_each dec sl cap st due).0)
              (touched_pairs due [])
              records)
          ≡ (if is_listed p (executed_pairs dec sl (execute_each dec sl cap st due).0)
                && not (has_pending_downtime_slash pending p)
              then none
              else get p records)
    unfolding is_listed
    get-forgotten pending p records =
        let pairs = executed_pairs dec sl (execute_each dec sl cap st due).0 in
        let read = get-forget_withheld pending pairs p (touched_pairs due []) records in
        elim (Bool-cases (is_listed p pairs)) [
          | inr other ↦ ground (arith, read, other)
          | inl executed ↦
              let seen =
                touched p due [] (execute_each-has_pending dec sl cap p st due executed) refl in
              ground (arith, read, seen, executed)
        ]

  -- A sweep of the pending slashes at a time removes those whose challenge window has elapsed, each
  -- of them (no slash is deferred behind a vote on its consumer's removal), and no other. It executes
  -- only what it removes, each entry at most once, at a fraction that is not
  -- above the cap. It deletes the withheld fee record of each pair of consumer and validator that
  -- saw an execution and has no pending slash left, and no other record. A fraction is not greater
  -- than itself, and no slash is stored twice.
  pub sweep_executes_due_slashes_once :
      (cap : dec.LegacyDec) (now : ℕ) (s : State dec bank) (st : sl.Stakes)
      → sl.gt cap cap ≡ false
      → IsStore s.pending_downtime_slashes
      → IsSwept cap now s
          (sweep_pending_downtime_slashes dec sl bank cap now s st).0
          (sweep_pending_downtime_slashes dec sl bank cap now s st).1.0
  unfolding sweep_pending_downtime_slashes with_keeper
  sweep_executes_due_slashes_once cap now s st irreflexive stored =
      let pending = s.pending_downtime_slashes in
      let due = matured now pending in
      let executions = (execute_each dec sl cap st due).0 in
      let left = remove_matured due pending in
      record {
        left = λ key.
            ground (arith, get-matured now key pending stored, get-remove_matured key due pending);
        once = execute_each-IsStore dec sl cap st due (matured-IsStore now pending stored);
        due =
            execute_each-Executes dec sl cap irreflexive
              (λ x. (get x.0 pending ≡ some x.1) × (x.1.matures_at ≤ now)) st due
              (matured-due now pending stored);
        forgotten = λ p ((key, has, of_p), spent).
            elim (Bool-cases (has_pending_downtime_slash left p)) [
              | inl waits ↦ absurd (spent (has_pending-HasPair left p waits))
              | inr none_left ↦ ground (
                arith,
                none_left,
                HasPair-executed dec sl executions p key has of_p,
                get-forgotten cap st due left p s.relay.keeper.withheld_fee_records,
              )
            ];
        kept = λ p unspent.
            elim (Bool-cases (
              is_listed p (executed_pairs dec sl executions)
              && not (has_pending_downtime_slash left p))) [
                | inr stays ↦ ground (
                  arith,
                  stays,
                  get-forgotten cap st due left p s.relay.keeper.withheld_fee_records,
                )
                | inl gone ↦ absurd (
                    unspent (
                      executed-HasPair dec sl executions p (ground (arith, gone)),
                      λ (key, has, of_p).
                          ground (arith, gone, HasPair-has_pending left p key has of_p),
                    ))
              ];
      }
