-- ===== src/Provider/Fees/Books.antt =====
-- What a run writes beside the ledger: the recorded share, the debt flag and the withheld records
-- (x/vaas/provider/keeper/fees.go).
use vaas.Base.{
  ℕ, ◌≡◌, ap, refl, ◌||◌, ltb, ◌∙◌, Bool, true, false, Option, some, List, [], ◌∷◌, arith, value_or,
  Bool-cases, inl, inr, Option-cases, nat_eq, pair_eq,
}
use vaas.Base.Store.{get, set, get-set}
use vaas.Provider.State.{Keeper, Coin}
use vaas.Provider.Fees.{
  is_consumer_in_debt, set_consumer_in_debt, set_epoch_share_record, update_consumer_debt_status,
  withheld_fee_record, record_withheld_fee, record_withheld_fees,
}
use vaas.Provider.Fees.Run.{skip_zero_share, settle}

-- The share that a consumer's run at a time recorded.
abbrev pub recorded_share : Keeper → ℕ → ℕ → Option ℕ
recorded_share k c t = get (c, t) k.epoch_share_records

pub recorded_share-set :
    (k : Keeper) (c t share : ℕ)
    → recorded_share (set_epoch_share_record k c t share) c t ≡ some share
unfolding set_epoch_share_record
recorded_share-set k c t share =
    rw (get-set (c, t) (c, t) share k.epoch_share_records) (ground arith)

pub is_consumer_in_debt-update :
    (k : Keeper) (c : ℕ) (b : Bool) → is_consumer_in_debt (update_consumer_debt_status k c b) c ≡ b
unfolding is_consumer_in_debt update_consumer_debt_status set_consumer_in_debt
is_consumer_in_debt-update k c b = ground (arith, get-set c c b k.consumer_debt)

pub update_debt-withheld :
    (k : Keeper) (c : ℕ) (b : Bool)
    → (update_consumer_debt_status k c b).withheld_fee_records ≡ k.withheld_fee_records
unfolding update_consumer_debt_status set_consumer_in_debt
update_debt-withheld k c b = ground arith

-- Withholding fees writes no share and no debt flag.
abbrev SameBooks : Keeper → Keeper → Type 0
SameBooks k k' =
    (k'.epoch_share_records ≡ k.epoch_share_records) × (k'.consumer_debt ≡ k.consumer_debt)

record_withheld_fees-SameBooks :
    (k : Keeper) (now c : ℕ) (addrs : List ℕ) (share : Coin) (k' : Keeper)
    → record_withheld_fees k now c addrs share ≡ some k'
    → SameBooks k k'
unfolding record_withheld_fees record_withheld_fee
record_withheld_fees-SameBooks k now c [] share k' h = ground (arith, h)
record_withheld_fees-SameBooks k now c (a ∷ addrs) share k' h =
    elim (Option-cases (withheld_fee_record k now c a share)) [
      | inl panics ↦ ground (arith, panics, h)
      | inr (e, made) ↦
          let k₁ = record k { withheld_fee_records = set (c, a) e k.withheld_fee_records } in
          let (shares, debts) =
            record_withheld_fees-SameBooks k₁ now c addrs share k' (ground (arith, made, h)) in
          (shares, debts)
    ]

pub settle-books :
    (k : Keeper) (now c : ℕ) (share : Coin) (excluded : List ℕ) (k' : Keeper)
    → settle k now c share excluded ≡ some k'
    → (recorded_share k' c now ≡ some share.amount) × (is_consumer_in_debt k' c ≡ false)
unfolding settle
settle-books k now c share excluded k' h =
    let debt_free = update_consumer_debt_status k c false in
    let booked = set_epoch_share_record debt_free c now share.amount in
    let (shares, debts) = record_withheld_fees-SameBooks booked now c excluded share k' h in
    (
      ap (λ m. get (c, now) m) shares ∙ recorded_share-set debt_free c now share.amount,
      unfold is_consumer_in_debt set_epoch_share_record in
          (ap (λ m. value_or false (get c m)) debts ∙ is_consumer_in_debt-update k c false),
    )

-- A run for a zero share records it, owes if there is a fee, and withholds nothing.
pub skip_zero_share-books :
    (k : Keeper) (now c : ℕ) (fee : Coin) (share : ℕ)
    → let k' = skip_zero_share k now c fee share in
      (recorded_share k' c now ≡ some share)
      × (is_consumer_in_debt k' c ≡ (ltb 0 fee.amount || is_consumer_in_debt k c))
      × (k'.withheld_fee_records ≡ k.withheld_fee_records)
unfolding skip_zero_share
skip_zero_share-books k now c fee share = elim (Bool-cases (ltb 0 fee.amount)) [
  | inl owes ↦ rw owes (
    recorded_share-set (update_consumer_debt_status k c true) c now share,
    unfold is_consumer_in_debt set_epoch_share_record in is_consumer_in_debt-update k c true,
    unfold set_epoch_share_record in update_debt-withheld k c true,
  )
  | inr free ↦ rw free (
    recorded_share-set k c now share,
    unfold is_consumer_in_debt set_epoch_share_record in refl,
    unfold set_epoch_share_record in refl,
  )
]
