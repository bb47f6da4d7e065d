-- ===== src/Provider/Slash/Entries.antt =====
-- The entries that a sweep of the pending downtime slashes finds, removes and leaves
-- (x/vaas/provider/keeper/downtime_slash.go).
use vaas.Base.{
  ℕ, ◌≤◌, ◌≡◌, refl, Bool, true, false, not, ◌&&◌, Option, none, some, List, [], ◌∷◌, ltb, is_some,
  if◌then◌else◌, Eq, nat_eq, pair_eq, arith, Bool-cases, inl, inr, All, All-map,
}
use vaas.Base.Store.{
  Store, get, remove, select, IsStore, select-found, select-IsStore, get-remove, get-select_entries,
}
use vaas.Provider.State.{WithheldFeeRecord}
use vaas.Provider.Downtime.{WindowKey, PendingDowntimeSlash}
use vaas.Provider.Slash.{
  pair_of, is_listed, touched_pairs, has_pending_downtime_slash, matured, remove_matured,
  forget_withheld,
}

-- A store has an entry of a consumer's and validator's pair.
abbrev pub HasPair {ℓ} : {V : Type ℓ} → Store WindowKey V → ℕ × ℕ → Type 0
HasPair m p = (key : WindowKey) × (is_some (get key m) ≡ true) × (pair_of key ≡ p)

-- What a sweep leaves of an entry.
abbrev pub undue : ℕ → Option PendingDowntimeSlash → Option PendingDowntimeSlash
undue now none = none
undue now (some entry) = if ltb now entry.matures_at then some entry else none

pub get-matured :
    (now : ℕ) (key : WindowKey) (m : Store WindowKey PendingDowntimeSlash)
    → IsStore m
    → get key (matured now m) ≡ elim (get key m) [
      | none ↦ none
      | some entry ↦ if ltb now entry.matures_at then none else some entry
    ]
unfolding matured
get-matured now key m stored =
    ground (arith, get-select_entries (λ x. not (ltb now x.1.matures_at)) key m stored)

pub get-remove_matured :
    (key : WindowKey) (due m : Store WindowKey PendingDowntimeSlash)
    → get key (remove_matured due m) ≡ elim (get key due) [ none ↦ get key m | some entry ↦ none ]
unfolding remove_matured get
get-remove_matured key [] m = refl
get-remove_matured key (x ∷ due) m =
    let e : Eq WindowKey = pair_eq in
    ground (
      arith,
      get-remove key x.0 m,
      e.beq_iff x.0 key,
      e.beq_iff key x.0,
      get-remove_matured key due (remove x.0 m),
    )

pub get-forget_withheld :
    (pending : Store WindowKey PendingDowntimeSlash) (executed : List (ℕ × ℕ)) (p : ℕ × ℕ)
    (ps : List (ℕ × ℕ)) (m : Store (ℕ × ℕ) WithheldFeeRecord)
    → get p (forget_withheld pending executed ps m) ≡ (
        if is_listed p ps && (is_listed p executed && not (has_pending_downtime_slash pending p))
        then none
        else get p m)
unfolding forget_withheld is_listed
get-forget_withheld pending executed p [] m = refl
get-forget_withheld pending executed p (q ∷ ps) m =
    let e : Eq (ℕ × ℕ) = pair_eq in
    ground (
      arith,
      get-remove p q m,
      e.beq_iff q p,
      e.beq_iff p q,
      get-forget_withheld pending executed p ps m,
      get-forget_withheld pending executed p ps (remove q m),
    )

pub touched :
    (p : ℕ × ℕ) (m : Store WindowKey PendingDowntimeSlash) (seen : List (ℕ × ℕ))
    → has_pending_downtime_slash m p ≡ true
    → is_listed p seen ≡ false
    → is_listed p (touched_pairs m seen) ≡ true
unfolding touched_pairs has_pending_downtime_slash is_listed
touched p [] seen h new = h
touched p (x ∷ m) seen h new =
    let e : Eq (ℕ × ℕ) = pair_eq in
    elim (Bool-cases (is_listed (pair_of x.0) seen)) [
      | inl known ↦
          rw (is_listed, touched_pairs, known)
            (touched p m seen (ground (arith, h, e.beq_iff (pair_of x.0) p, known, new)) new)
      | inr unknown ↦
          rw (touched_pairs, unknown, is_listed)
            elim (Bool-cases (e.beq (pair_of x.0) p)) [
              | inl same ↦ ground (arith, same)
              | inr other ↦ ground (
                arith,
                touched p m (pair_of x.0 ∷ seen) (ground (arith, h, other))
                    (ground (arith, other, new)),
                other,
              )
            ]
    ]

-- A pair's test finds an entry of it.
pub has_pending-HasPair :
    (m : Store WindowKey PendingDowntimeSlash) (p : ℕ × ℕ)
    → has_pending_downtime_slash m p ≡ true
    → HasPair m p
unfolding has_pending_downtime_slash get
has_pending-HasPair [] p h = ground (arith, h)
has_pending-HasPair (x ∷ m) p h =
    let e : Eq (ℕ × ℕ) = pair_eq in
    let keys : Eq WindowKey = pair_eq in
    elim (Bool-cases (e.beq (pair_of x.0) p)) [
      | inl same ↦ (x.0, ground (arith, keys.beq_iff x.0 x.0), (e.beq_iff (pair_of x.0) p).0 same)
      | inr other ↦
          let (key, found, of_p) = has_pending-HasPair m p (ground (arith, h, other)) in
          (key, ground (arith, found), of_p)
    ]

pub HasPair-has_pending :
    (m : Store WindowKey PendingDowntimeSlash) (p : ℕ × ℕ) (key : WindowKey)
    → is_some (get key m) ≡ true
    → pair_of key ≡ p
    → has_pending_downtime_slash m p ≡ true
unfolding has_pending_downtime_slash get
HasPair-has_pending [] p key found same = ground (arith, found)
HasPair-has_pending (x ∷ m) p key found same =
    let keys : Eq WindowKey = pair_eq in
    elim (Bool-cases (keys.beq x.0 key)) [
      | inl here ↦ ground (arith, (keys.beq_iff x.0 key).0 here, same)
      | inr later ↦ ground (arith, HasPair-has_pending m p key (ground (arith, found, later)) same)
    ]

pub matured-IsStore :
    (now : ℕ) (m : Store WindowKey PendingDowntimeSlash) → IsStore m → IsStore (matured now m)
unfolding matured
matured-IsStore now m stored = select-IsStore (λ x. not (ltb now x.1.matures_at)) m stored

-- What is matured is stored, and its window has elapsed.
pub matured-due :
    (now : ℕ) (m : Store WindowKey PendingDowntimeSlash)
    → IsStore m
    → All (λ x. (get x.0 m ≡ some x.1) × (x.1.matures_at ≤ now)) (matured now m)
unfolding matured
matured-due now m stored =
    let due : WindowKey × PendingDowntimeSlash → Bool = λ x. not (ltb now x.1.matures_at) in
    All-map (select due m) (λ x (found, passes). (found, ground (arith, passes)))
      (select-found due m stored)
