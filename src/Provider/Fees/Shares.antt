-- ===== src/Provider/Fees/Shares.antt =====
-- The history of the epochs' shares: ResolveEpochShare finds the run that covered a time, and
-- pruning does not change what it finds (x/vaas/provider/keeper/fees.go).
use vaas.Base.{
  ℕ, ◌≤◌, ◌≡◌, refl, Bool, true, ◌&&◌, Option, none, some, [], ◌∷◌, arith, ltb, leb, ◌==◌, is_some,
  nat_eq, pair_eq, Bool-cases, Option-cases, inl, inr, subst, ap, pair_beq,
}
use vaas.Base.Store.{Store, IsStore, get, get-behind, clear}
use vaas.Provider.State.{Keeper}
use vaas.Provider.Fees.{earlier, earliest_run, resolve_epoch_share, prune_epoch_share_records}

-- A run that is not before a time.
abbrev covers : ℕ → ℕ → ℕ × ℕ → Bool
covers c t key = key.0 == c && leb t key.1

-- The found run is recorded, covers the time, and no covering run is earlier.
earliest_run-found :
    (c t : ℕ) (m : Store (ℕ × ℕ) ℕ) (run : ℕ × ℕ)
    → IsStore m
    → earliest_run c t m ≡ some run
    → (get (c, run.0) m ≡ some run.1) × (t ≤ run.0)
unfolding earliest_run earlier get
earliest_run-found c t [] run distinct h = ground (arith, h)
earliest_run-found c t (x ∷ m) run distinct h = elim (Bool-cases (covers c t x.0)) [
  | inr skipped ↦
      let (found, le) = earliest_run-found c t m run distinct.1 (ground (arith, skipped, h)) in
      (get-behind x m (c, run.0) run.1 distinct found, le)
  | inl counted ↦ elim (Option-cases (earliest_run c t m)) [
    | inl alone ↦ ground (arith, counted, alone, h)
    | inr (other, found) ↦ elim (Bool-cases (leb x.0.1 other.0)) [
      | inl first ↦ ground (arith, counted, found, first, h)
      | inr later ↦
          let (recorded, le) = earliest_run-found c t m other distinct.1 found in
          let same : other ≡ run = ground (arith, counted, found, later, h) in
          subst (λ (r : ℕ × ℕ). (get (c, r.0) (x ∷ m) ≡ some r.1) × (t ≤ r.0)) same
            (get-behind x m (c, other.0) other.1 distinct recorded, le)
    ]
  ]
]

earlier-le :
    (run : ℕ × ℕ) (o : Option (ℕ × ℕ))
    → (r : ℕ × ℕ) × (earlier run o ≡ some r)
      × (r.0 ≤ run.0)
      × ((other : ℕ × ℕ) → o ≡ some other → r.0 ≤ other.0)
unfolding earlier
earlier-le run none = (run, refl, omega arith, λ other h. ground (arith, h))
earlier-le run (some other) = elim (Bool-cases (leb run.0 other.0)) [
  | inl first ↦ (run, ground (arith, first), omega arith, λ o h. ground (arith, first, h))
  | inr later ↦ (other, ground (arith, later), ground (arith, later), λ o h. ground (arith, h))
]

earliest_run-first :
    (c t : ℕ) (m : Store (ℕ × ℕ) ℕ) (t' : ℕ)
    → t ≤ t'
    → is_some (get (c, t') m) ≡ true
    → (run : ℕ × ℕ) × (earliest_run c t m ≡ some run) × (run.0 ≤ t')
unfolding earliest_run earlier get
earliest_run-first c t [] t' le h = ground (arith, h)
earliest_run-first c t (x ∷ m) t' le h = elim (Bool-cases (pair_beq nat_eq nat_eq x.0 (c, t'))) [
  | inl here ↦
      let (r, best, no_later, _) = earlier-le (x.0.1, x.1) (earliest_run c t m) in
      (r, ground (arith, here, le, best), ground (arith, here, no_later))
  | inr behind ↦
      let (other, found, le') = earliest_run-first c t m t' le (ground (arith, behind, h)) in
      let (r, best, _, no_later) = earlier-le (x.0.1, x.1) (earliest_run c t m) in
      elim (Bool-cases (covers c t x.0)) [
        | inl counted ↦ (r, ground (arith, counted, best), omega (arith, no_later other found, le'))
        | inr skipped ↦ (other, ground (arith, skipped, found), le')
      ]
]

-- Runs that are pruned cover no later time.
earliest_run-prune :
    (c t cutoff : ℕ) (m : Store (ℕ × ℕ) ℕ)
    → cutoff ≤ t
    → earliest_run c t (clear (λ key. ltb key.1 cutoff) m) ≡ earliest_run c t m
unfolding earliest_run clear
earliest_run-prune c t cutoff [] le = refl
earliest_run-prune c t cutoff (x ∷ m) le = ground (arith, le, earliest_run-prune c t cutoff m le)

-- Where a share is resolved for a time, it is the share recorded for a run that is not before that
-- time, and no recorded run of the consumer lies between; where none is, no recorded run of the
-- consumer covers the time. No record is stored twice.
pub resolve_epoch_share_lem :
    (k : Keeper) (c t : ℕ)
    → IsStore k.epoch_share_records
    → ((share : ℕ)
        → resolve_epoch_share k c t ≡ some share
        → (at : ℕ) × (get (c, at) k.epoch_share_records ≡ some share)
          × (t ≤ at)
          × ((t' : ℕ) → t ≤ t' → is_some (get (c, t') k.epoch_share_records) ≡ true → at ≤ t'))
      × (resolve_epoch_share k c t ≡ none
          → (t' : ℕ) → t ≤ t'
          → get (c, t') k.epoch_share_records ≡ none)
unfolding resolve_epoch_share
resolve_epoch_share_lem k c t distinct = (resolved, unresolved)
  where
    resolved :
        (share : ℕ)
        → resolve_epoch_share k c t ≡ some share
        → (at : ℕ) × (get (c, at) k.epoch_share_records ≡ some share)
          × (t ≤ at)
          × ((t' : ℕ) → t ≤ t' → is_some (get (c, t') k.epoch_share_records) ≡ true → at ≤ t')
    resolved share h = elim (Option-cases (earliest_run c t k.epoch_share_records)) [
      | inl nothing ↦ ground (arith, nothing, h)
      | inr (run, found) ↦
          let (recorded, le) = earliest_run-found c t k.epoch_share_records run distinct found in
          (
            run.0,
            ground (arith, recorded, found, h),
            le,
            λ t' le' some'.
                let (first, found', le'') =
                  earliest_run-first c t k.epoch_share_records t' le' some' in
                ground (arith, found, found', le''),
          )
    ]

    unresolved :
        resolve_epoch_share k c t ≡ none
        → (t' : ℕ) → t ≤ t'
        → get (c, t') k.epoch_share_records ≡ none
    unresolved h t' le = elim (Option-cases (get (c, t') k.epoch_share_records)) [
      | inl absent ↦ absent
      | inr (share, recorded) ↦
          let (run, found, _) =
            earliest_run-first c t k.epoch_share_records t' le (ground (arith, recorded)) in
          ground (arith, found, h)
    ]

-- Pruning the records older than a cutoff does not change what is resolved for any time from the
-- cutoff on, for any consumer.
prune_keeps_resolution :
    (k : Keeper) (cutoff c t : ℕ)
    → cutoff ≤ t
    → resolve_epoch_share (prune_epoch_share_records k cutoff) c t ≡ resolve_epoch_share k c t
unfolding resolve_epoch_share prune_epoch_share_records
prune_keeps_resolution k cutoff c t le =
    ap (λ (o : Option (ℕ × ℕ)). elim o [ none ↦ none | some run ↦ some run.1 ])
      (earliest_run-prune c t cutoff k.epoch_share_records le)
