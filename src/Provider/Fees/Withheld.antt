-- ===== src/Provider/Fees/Withheld.antt =====
-- What a run puts in escrow for the validators that had downtime (recordWithheldFee and the loop of
-- DistributeConsumerFees in x/vaas/provider/keeper/fees.go).
use vaas.Base.{
  ℕ, ◌+◌, ◌≡◌, refl, Bool, false, ◌&&◌, ◌||◌, none, some, List, [], ◌∷◌, arith, ltb, ◌==◌,
  if◌then◌else◌, Bool-cases, inl, inr, Option-cases, nat_eq, pair_eq,
}
use vaas.Base.Store.{get, set, get-set}
use vaas.Provider.State.{Keeper, Coin, WithheldFeeRecord}
use vaas.Provider.Fees.{
  BondedVal, add_coin, is_epoch_downtime, set_epoch_share_record, update_consumer_debt_status,
  set_consumer_in_debt, withheld_fee_record, record_withheld_fee, record_withheld_fees,
  excluded_cons_addrs,
}
use vaas.Provider.Fees.Run.{settle}

-- What is in escrow for a validator of a consumer at a time.
abbrev pub live_amount : Keeper → ℕ → ℕ → ℕ → ℕ
live_amount k now c a = elim (get (c, a) k.withheld_fee_records) [
  | none ↦ 0
  | some e ↦ if ltb now e.expires_at then e.amount.amount else 0
]

-- The share beside what is in escrow, for one more challenge window.
abbrev pub entry_after : Keeper → ℕ → ℕ → Coin → ℕ → WithheldFeeRecord
entry_after k now c share a = record {
  amount = record { denom = share.denom; amount = share.amount + live_amount k now c a };
  expires_at = now + k.infraction_params.downtime_challenge_window;
}

-- A consensus address is that of a bonded validator.
abbrev pub is_bonded : ℕ → List BondedVal → Bool
is_bonded a [] = false
is_bonded a (v ∷ vs) = v.cons_addr == a || is_bonded a vs

-- No two bonded validators have the same consensus address.
abbrev pub OnePerAddress : List BondedVal → Type 0
OnePerAddress [] = Unit
OnePerAddress (v ∷ vs) = (is_bonded v.cons_addr vs ≡ false) × OnePerAddress vs

abbrev is_among : ℕ → List ℕ → Bool
is_among a [] = false
is_among a (x ∷ xs) = x == a || is_among a xs

abbrev NoneTwice : List ℕ → Type 0
NoneTwice [] = Unit
NoneTwice (x ∷ xs) = (is_among x xs ≡ false) × NoneTwice xs

is_among-excluded_cons_addrs :
    (k : Keeper) (c a : ℕ) (vs : List BondedVal)
    → is_among a (excluded_cons_addrs k c vs) ≡ (is_bonded a vs && is_epoch_downtime k c a)
unfolding excluded_cons_addrs
is_among-excluded_cons_addrs k c a [] = refl
is_among-excluded_cons_addrs k c a (v ∷ vs) =
    let later = is_among-excluded_cons_addrs k c a vs in
    elim (Bool-cases (v.cons_addr == a)) [
      | inl here ↦ ground (arith, here, later)
      | inr behind ↦ ground (arith, behind, later)
    ]

excluded_cons_addrs-NoneTwice :
    (k : Keeper) (c : ℕ) (vs : List BondedVal)
    → OnePerAddress vs
    → NoneTwice (excluded_cons_addrs k c vs)
unfolding excluded_cons_addrs
excluded_cons_addrs-NoneTwice k c [] once = tt
excluded_cons_addrs-NoneTwice k c (v ∷ vs) once =
    elim (Bool-cases (is_epoch_downtime k c v.cons_addr)) [
      | inl down ↦ rw down (
        ground (arith, is_among-excluded_cons_addrs k c v.cons_addr vs, once.0),
        excluded_cons_addrs-NoneTwice k c vs once.1,
      )
      | inr up ↦ rw up (excluded_cons_addrs-NoneTwice k c vs once.1)
    ]

record_withheld_fee-entry :
    (k : Keeper) (now c a : ℕ) (share : Coin) (k' : Keeper)
    → record_withheld_fee k now c a share ≡ some k'
    → k' ≡ record k {
      withheld_fee_records = set (c, a) (entry_after k now c share a) k.withheld_fee_records;
    }
unfolding record_withheld_fee withheld_fee_record add_coin
record_withheld_fee-entry k now c a share k' h =
    elim (Option-cases (get (c, a) k.withheld_fee_records)) [
      | inl absent ↦ ground (arith, absent, h)
      | inr (e, found) ↦ elim (Bool-cases (ltb now e.expires_at)) [
        | inl live ↦ ground (arith, found, live, h)
        | inr expired ↦ ground (arith, found, expired, h)
      ]
    ]

record_withheld_fees-entries :
    (k : Keeper) (now c : ℕ) (addrs : List ℕ) (share : Coin) (k' : Keeper) (b a : ℕ)
    → NoneTwice addrs
    → record_withheld_fees k now c addrs share ≡ some k'
    → get (b, a) k'.withheld_fee_records ≡ (
        if c == b && is_among a addrs
        then some (entry_after k now c share a)
        else get (b, a) k.withheld_fee_records)
unfolding record_withheld_fees
record_withheld_fees-entries k now c [] share k' b a apart h = ground (arith, h)
record_withheld_fees-entries k now c (x ∷ xs) share k' b a apart h =
    elim (Option-cases (record_withheld_fee k now c x share)) [
      | inl panics ↦ ground (arith, panics, h)
      | inr (k₁, made) ↦
          let written = record_withheld_fee-entry k now c x share k₁ made in
          let later =
            record_withheld_fees-entries k₁ now c xs share k' b a apart.1
              (ground (arith, made, h)) in
          let read = get-set (b, a) (c, x) (entry_after k now c share x) k.withheld_fee_records in
          let own = get-set (c, a) (c, x) (entry_after k now c share x) k.withheld_fee_records in
          elim (Bool-cases (x == a)) [
            | inl here ↦ ground (arith, here, written, later, read, apart.0)
            | inr behind ↦ ground (arith, behind, written, later, read, own)
          ]
    ]

-- A settled run has put the share of each bonded validator with downtime in escrow, and nothing else.
pub settle-entries :
    (k : Keeper) (now c : ℕ) (share : Coin) (bonded : List BondedVal) (k' : Keeper) (b a : ℕ)
    → OnePerAddress bonded
    → settle k now c share (excluded_cons_addrs k c bonded) ≡ some k'
    → get (b, a) k'.withheld_fee_records ≡ (
        if c == b && (is_bonded a bonded && is_epoch_downtime k c a)
        then some (entry_after k now c share a)
        else get (b, a) k.withheld_fee_records)
unfolding settle set_epoch_share_record update_consumer_debt_status set_consumer_in_debt
settle-entries k now c share bonded k' b a once h =
    let booked =
      set_epoch_share_record (update_consumer_debt_status k c false) c now share.amount in
    let entries =
      record_withheld_fees-entries booked now c (excluded_cons_addrs k c bonded) share k' b a
        (excluded_cons_addrs-NoneTwice k c bonded once) h in
    ground (arith, entries, is_among-excluded_cons_addrs k c a bonded)
