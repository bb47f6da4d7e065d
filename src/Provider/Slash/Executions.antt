-- ===== src/Provider/Slash/Executions.antt =====
-- The executions of the entries that are due
-- (x/vaas/provider/keeper/downtime_slash.go).
use vaas.Base.{
  ℕ, ◌≡◌, refl, sym, subst, Bool, true, false, none, [], ◌∷◌, is_some, ◌==◌, some_if, Eq, nat_eq,
  pair_eq, arith, Bool-cases, Option-cases, inl, inr, All, OnSome, OnSome-found,
}
use vaas.Base.Store.{Store, get, IsStore}
use vaas.Evidence.Decimal.{Decimals}
use vaas.Provider.Downtime.{WindowKey, PendingDowntimeSlash}
use vaas.Provider.Slash.{
  Slashing, Execution, pair_of, is_listed, has_pending_downtime_slash, slash_fraction,
  execute_downtime_slash, execute_each, executed_pairs, slashable_stake,
}
use vaas.Provider.Slash.Entries.{HasPair}

module _ (dec : Decimals) (sl : Slashing dec) (cap : dec.LegacyDec)
    (irreflexive : sl.gt cap cap ≡ false) where
  -- An execution of an entry, at a fraction that is not above the cap.
  abbrev pub Executes : PendingDowntimeSlash → Execution dec → Type 0
  Executes entry x = (x.entry ≡ entry) × (sl.gt x.fraction cap ≡ false)

  slash_fraction-capped :
      (tokens total : ℕ) → sl.gt (slash_fraction dec sl cap tokens total) cap ≡ false
  unfolding slash_fraction
  slash_fraction-capped tokens total = elim (Bool-cases (sl.gt (sl.quo tokens total) cap)) [
    | inl above ↦ rw above irreflexive
    | inr within ↦ rw within within
  ]

  OnSome-some_if {ℓ κ} :
      {A : Type ℓ} (P : A → Type κ) (b : Bool) (a : A) → P a → OnSome P (some_if b a)
  OnSome-some_if P true a h = h
  OnSome-some_if P false a h = tt

  execute_downtime_slash-Executes :
      (st : sl.Stakes) (key : WindowKey) (entry : PendingDowntimeSlash)
      → OnSome (Executes entry) (execute_downtime_slash dec sl cap st key entry).0
  unfolding execute_downtime_slash
  execute_downtime_slash-Executes st key entry = elim (Bool-cases (entry.slash_tokens == 0)) [
    | inl nothing ↦ rw (OnSome, nothing) tt
    | inr tokens ↦ elim (Option-cases (slashable_stake dec sl st key.1.0)) [
      | inl dropped ↦ rw (OnSome, tokens, dropped) tt
      | inr (stake, found) ↦ elim (Bool-cases (stake.total_tokens == 0)) [
        | inl empty ↦ rw (OnSome, tokens, found, empty) tt
        | inr staked ↦
            rw (OnSome, tokens, found, staked)
              (OnSome-some_if (Executes entry) _ _
                (refl, slash_fraction-capped entry.slash_tokens stake.total_tokens))
      ]
    ]
  ]

  pub execute_each-Executes {ℓ} :
      (P : WindowKey × PendingDowntimeSlash → Type ℓ) (st : sl.Stakes)
      (due : Store WindowKey PendingDowntimeSlash)
      → All P due
      → All
          (λ x. P (x.0, x.1.entry) × (sl.gt x.1.fraction cap ≡ false))
          (execute_each dec sl cap st due).0
  unfolding execute_each
  execute_each-Executes P st [] h = tt
  execute_each-Executes P st (x ∷ due) h =
      let (outcome, st₁) = execute_downtime_slash dec sl cap st x.0 x.1 in
      let later = execute_each-Executes P st₁ due h.1 in
      elim (Option-cases outcome) [
        | inl dropped ↦ rw (All, dropped) later
        | inr (execution, done) ↦
            let (same, capped) =
              OnSome-found (Executes x.1) outcome execution
                (execute_downtime_slash-Executes st x.0 x.1) done in
            rw (All, done)
              (
                (subst (λ (entry : PendingDowntimeSlash). P (x.0, entry)) (sym same) h.0, capped),
                later,
              )
      ]

module _ (dec : Decimals) (sl : Slashing dec) (cap : dec.LegacyDec) where
  pub execute_each-absent :
      (key : WindowKey) (st : sl.Stakes) (due : Store WindowKey PendingDowntimeSlash)
      → get key due ≡ none
      → get key (execute_each dec sl cap st due).0 ≡ none
  unfolding execute_each get
  execute_each-absent key st [] h = refl
  execute_each-absent key st (x ∷ due) h =
      let (outcome, st₁) = execute_downtime_slash dec sl cap st x.0 x.1 in
      elim (Option-cases outcome) [
        | inl dropped ↦ rw (get, dropped) (execute_each-absent key st₁ due (ground (arith, h)))
        | inr (execution, done) ↦
            rw (done, get) (ground (arith, h, execute_each-absent key st₁ due))
      ]

  pub execute_each-IsStore :
      (st : sl.Stakes) (due : Store WindowKey PendingDowntimeSlash)
      → IsStore due
      → IsStore (execute_each dec sl cap st due).0
  unfolding execute_each
  execute_each-IsStore st [] h = tt
  execute_each-IsStore st (x ∷ due) h =
      let (outcome, st₁) = execute_downtime_slash dec sl cap st x.0 x.1 in
      elim (Option-cases outcome) [
        | inl dropped ↦ rw (IsStore, dropped) (execute_each-IsStore st₁ due h.1)
        | inr (execution, done) ↦
            rw (IsStore, done)
              (execute_each-absent x.0 st₁ due h.0, execute_each-IsStore st₁ due h.1)
      ]

  pub execute_each-has_pending :
      (p : ℕ × ℕ) (st : sl.Stakes) (due : Store WindowKey PendingDowntimeSlash)
      → is_listed p (executed_pairs dec sl (execute_each dec sl cap st due).0) ≡ true
      → has_pending_downtime_slash due p ≡ true
  unfolding execute_each has_pending_downtime_slash executed_pairs is_listed
  execute_each-has_pending p st [] h = h
  execute_each-has_pending p st (x ∷ due) h =
      let (outcome, st₁) = execute_downtime_slash dec sl cap st x.0 x.1 in
      elim (Option-cases outcome) [
        | inl dropped ↦ ground (arith, dropped, h, execute_each-has_pending p st₁ due)
        | inr (execution, done) ↦ ground (arith, done, h, execute_each-has_pending p st₁ due)
      ]

module _ (dec : Decimals) (sl : Slashing dec) where
  pub executed-HasPair :
      (m : Store WindowKey (Execution dec)) (p : ℕ × ℕ)
      → is_listed p (executed_pairs dec sl m) ≡ true
      → HasPair m p
  unfolding executed_pairs is_listed get
  executed-HasPair [] p h = ground (arith, h)
  executed-HasPair (x ∷ m) p h =
      let e : Eq (ℕ × ℕ) = pair_eq in
      let keys : Eq WindowKey = pair_eq in
      elim (Bool-cases (e.beq (pair_of x.0) p)) [
        | inl same ↦ (x.0, ground (arith, keys.beq_iff x.0 x.0), (e.beq_iff (pair_of x.0) p).0 same)
        | inr other ↦
            let (key, found, of_p) = executed-HasPair m p (ground (arith, h, other)) in
            (key, ground (arith, found), of_p)
      ]

  pub HasPair-executed :
      (m : Store WindowKey (Execution dec)) (p : ℕ × ℕ) (key : WindowKey)
      → is_some (get key m) ≡ true
      → pair_of key ≡ p
      → is_listed p (executed_pairs dec sl m) ≡ true
  unfolding executed_pairs is_listed get
  HasPair-executed [] p key found same = ground (arith, found)
  HasPair-executed (x ∷ m) p key found same =
      let keys : Eq WindowKey = pair_eq in
      let e : Eq (ℕ × ℕ) = pair_eq in
      elim (Bool-cases (keys.beq x.0 key)) [
        | inl here ↦ ground (arith, (keys.beq_iff x.0 key).0 here, same, e.beq_iff (pair_of x.0) p)
        | inr later ↦ ground (arith, HasPair-executed m p key (ground (arith, found, later)) same)
      ]
