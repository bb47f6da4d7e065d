-- ===== src/Provider/Fees/Escrow.antt =====
-- The escrow of withheld shares: what each operation on the records does to the outstanding amount.
use vaas.Base.{
  ℕ, ◌+◌, ◌*◌, ◌≤◌, ◌≡◌, refl, true, not, ◌&&◌, some, List, [], ◌∷◌, arith, ltb, ◌==◌,
  if◌then◌else◌, length, nat_eq, pair_eq, inl, inr, Option-cases, pair_beq, All-map, All,
}
use vaas.Base.Store.{
  Store, get, sum_by, remove, clear, weight_at, IsStore, remove-IsStore, sum_by-remove,
  select-found, get-remove, sum_by-set, sum_by-clear_le,
}
use vaas.Provider.State.{Keeper, Coin, WithheldFeeRecord}
use vaas.Provider.FeePool.{escrowed, outstanding_withheld_fees}
use vaas.Provider.Fees.{add_coin, withheld_fee_record, record_withheld_fee, record_withheld_fees}
use vaas.Provider.Fees.Run.{Withheld, remove_entries, sweep_expired_withheld_fee_records}

abbrev pub coin_in : ℕ → ℕ → ℕ → Coin → ℕ
coin_in c c' d amount = if c == c' && amount.denom == d then amount.amount else 0

-- A new record holds no more than the old one and the amount.
entry-escrowed :
    (k : Keeper) (now c addr : ℕ) (amount : Coin) (e : WithheldFeeRecord) (c' d : ℕ)
    → withheld_fee_record k now c addr amount ≡ some e
    → escrowed now c' d (c, addr) e
      ≤ weight_at (escrowed now c' d) (c, addr) k.withheld_fee_records + coin_in c c' d amount
unfolding withheld_fee_record weight_at add_coin
entry-escrowed k now c addr amount e c' d h = ground arith

-- One withheld share adds at most its amount to the escrow of its consumer and denomination.
pub outstanding-record_withheld_fee :
    (k : Keeper) (now c addr : ℕ) (amount : Coin) (k' : Keeper) (c' d : ℕ)
    → record_withheld_fee k now c addr amount ≡ some k'
    → outstanding_withheld_fees k' now c' d
      ≤ outstanding_withheld_fees k now c' d + coin_in c c' d amount
unfolding record_withheld_fee outstanding_withheld_fees
outstanding-record_withheld_fee k now c addr amount k' c' d h =
    elim (Option-cases (withheld_fee_record k now c addr amount)) [
      | inl panics ↦ ground (arith, panics)
      | inr (e, made) ↦ ground (
        arith,
        made,
        sum_by-set (escrowed now c' d) (c, addr) e k.withheld_fee_records,
        entry-escrowed k now c addr amount e c' d made,
      )
    ]

pub outstanding-record_withheld_fees :
    (k : Keeper) (now c : ℕ) (addrs : List ℕ) (amount : Coin) (k' : Keeper) (c' d : ℕ)
    → record_withheld_fees k now c addrs amount ≡ some k'
    → outstanding_withheld_fees k' now c' d
      ≤ outstanding_withheld_fees k now c' d + coin_in c c' d amount * length addrs
unfolding record_withheld_fees
outstanding-record_withheld_fees k now c [] amount k' c' d h = ground arith
outstanding-record_withheld_fees k now c (a ∷ addrs) amount k' c' d h =
    elim (Option-cases (record_withheld_fee k now c a amount)) [
      | inl panics ↦ ground (arith, panics)
      | inr (k₁, made) ↦
          let first = outstanding-record_withheld_fee k now c a amount k₁ c' d made in
          let rest =
            outstanding-record_withheld_fees k₁ now c addrs amount k' c' d
              (ground (arith, made, h)) in
          omega (arith, first, rest)
    ]

pub outstanding-remove_entries :
    (now c d : ℕ) (xs : List Withheld) (m : Store (ℕ × ℕ) WithheldFeeRecord)
    → sum_by (escrowed now c d) (remove_entries xs m) ≤ sum_by (escrowed now c d) m
unfolding remove_entries remove
outstanding-remove_entries now c d [] m = omega arith
outstanding-remove_entries now c d (x ∷ xs) m = omega (
  arith,
  outstanding-remove_entries now c d xs (clear (λ j. pair_beq nat_eq nat_eq j x.0) m),
  sum_by-clear_le (escrowed now c d) (λ j. pair_beq nat_eq nat_eq j x.0) m,
)

-- Time only releases escrow.
pub outstanding_later :
    (k : Keeper) (now later c d : ℕ)
    → now ≤ later
    → outstanding_withheld_fees k later c d ≤ outstanding_withheld_fees k now c d
unfolding outstanding_withheld_fees sum_by
outstanding_later k now later c d le = go k.withheld_fee_records
  where
    go :
        (m : Store (ℕ × ℕ) WithheldFeeRecord)
        → sum_by (escrowed later c d) m ≤ sum_by (escrowed now c d) m
    go [] = omega arith
    go (x ∷ m) = ground (arith, go m, le)

-- Deleting entries that weigh nothing keeps the sum.
remove_entries_idle :
    (w : ℕ × ℕ → WithheldFeeRecord → ℕ) (xs : List Withheld) (m : Store (ℕ × ℕ) WithheldFeeRecord)
    → IsStore m
    → All (λ x. weight_at w x.0 m ≡ 0) xs
    → sum_by w (remove_entries xs m) ≡ sum_by w m
unfolding remove_entries
remove_entries_idle w [] m distinct idle = refl
remove_entries_idle w (x ∷ xs) m distinct idle = omega (
  arith,
  remove_entries_idle w xs (remove x.0 m) (remove-IsStore x.0 m distinct)
      (All-map xs (λ y h. still_idle x y h) idle.1),
  sum_by-remove w x.0 m distinct,
  idle.0,
)
  where
    still_idle : (x y : Withheld) → weight_at w y.0 m ≡ 0 → weight_at w y.0 (remove x.0 m) ≡ 0
    still_idle x y h = unfold weight_at in ground (arith, get-remove y.0 x.0 m, h)

-- Sweeping the expired records does not change what is in escrow, then or at any later time: it
-- assumes that no record is stored twice.
pub sweep_expired_withheld_fee_records_keeps_escrow :
    (k : Keeper) (now later c d : ℕ)
    → IsStore k.withheld_fee_records
    → now ≤ later
    → outstanding_withheld_fees (sweep_expired_withheld_fee_records k now) later c d
      ≡ outstanding_withheld_fees k later c d
unfolding sweep_expired_withheld_fee_records outstanding_withheld_fees
sweep_expired_withheld_fee_records_keeps_escrow k now later c d distinct le =
    remove_entries_idle (escrowed later c d) _ k.withheld_fee_records distinct
      (All-map _ idle (select-found (λ x. not (ltb now x.1.expires_at)) _ distinct))
  where
    idle :
        (x : Withheld)
        → (get x.0 k.withheld_fee_records ≡ some x.1) × (not (ltb now x.1.expires_at) ≡ true)
        → weight_at (escrowed later c d) x.0 k.withheld_fee_records ≡ 0
    idle x (found, expired) = unfold weight_at in ground (arith, found, expired, le)
