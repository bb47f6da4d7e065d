-- ===== src/Provider/FeePool/Ledger.antt =====
-- The books of the fee pools: the shares of each consumer and denomination sum to the stored total,
-- and every operation of fee_pool_shares.go keeps them so.
use vaas.Base.{
  ℕ, ◌+◌, ◌≤◌, ◌≡◌, refl, Bool, ◌&&◌, none, some, arith, ◌==◌, if◌then◌else◌, value_or, nat_eq,
  pair_eq, Bool-cases, inl, inr,
}
use vaas.Base.Store.{
  sum_by, weight_at, IsStore, weight_at-le, get-set, get-remove, get-clear, sum_by-set,
  sum_by-clear, sum_by-clear_other, set-IsStore, clear-IsStore,
}
use vaas.Provider.State.{Keeper}
use vaas.Provider.Bank.{Bank}
use vaas.Provider.FeePool.{
  ok, of_pool, clear_all_shares, set_shares, set_total, get_shares, get_total,
  absorb_unaccounted_balance, invalidate, account, credit,
}

abbrev pub in_pool : ℕ → ℕ → ℕ × (ℕ × ℕ) → ℕ → ℕ
in_pool consumer denom key shares = if of_pool consumer denom key then shares else 0

-- The shares of all depositors of a consumer's pool in a denomination.
unfoldable pub pool_sum : Keeper → ℕ → ℕ → ℕ
pool_sum k consumer denom = sum_by (in_pool consumer denom) k.fee_pool_shares

pub record IsBooked (k : Keeper) : Type 0 where
  pub distinct : IsStore k.fee_pool_shares
  pub summed : (c d : ℕ) → pool_sum k c d ≡ value_or 0 (get_total k c d)

abbrev pub same : ℕ → ℕ → ℕ → ℕ → Bool
same c d c' d' = c == c' && d == d'

pub weight_at-in_pool :
    (k : Keeper) (c d a c' d' : ℕ)
    → weight_at (in_pool c' d') (c, (d, a)) k.fee_pool_shares
      ≡ (if same c d c' d' then value_or 0 (get_shares k c d a) else 0)
unfolding weight_at get_shares
weight_at-in_pool k c d a c' d' = ground arith

pub pool_sum-set_shares :
    (k : Keeper) (c d a s c' d' : ℕ)
    → pool_sum (set_shares k c d a s) c' d'
        + (if same c d c' d' then value_or 0 (get_shares k c d a) else 0)
      ≡ pool_sum k c' d' + (if same c d c' d' then s else 0)
unfolding set_shares pool_sum
pool_sum-set_shares k c d a s c' d' =
    rw (← weight_at-in_pool k c d a c' d')
      (sum_by-set (in_pool c' d') (c, (d, a)) s k.fee_pool_shares)

pub get_total-set_total :
    (k : Keeper) (c d t c' d' : ℕ)
    → get_total (set_total k c d t) c' d' ≡ (if same c d c' d' then some t else get_total k c' d')
unfolding set_total get_total
get_total-set_total k c d t c' d' = get-set (c', d') (c, d) t k.fee_pool_total_shares

pub get_shares-set_shares :
    (k : Keeper) (c d a s c' d' a' : ℕ)
    → get_shares (set_shares k c d a s) c' d' a'
      ≡ (if c == c' && (d == d' && a == a') then some s else get_shares k c' d' a')
unfolding set_shares get_shares
get_shares-set_shares k c d a s c' d' a' = get-set (c', (d', a')) (c, (d, a)) s k.fee_pool_shares

pub get_shares-set_total :
    (k : Keeper) (c d t c' d' a' : ℕ)
    → get_shares (set_total k c d t) c' d' a' ≡ get_shares k c' d' a'
unfolding set_total get_shares
get_shares-set_total k c d t c' d' a' = refl

pub shares-le-pool_sum : (k : Keeper) (c d a : ℕ) → value_or 0 (get_shares k c d a) ≤ pool_sum k c d
unfolding pool_sum
shares-le-pool_sum k c d a =
    ground (
      arith,
      weight_at-le (in_pool c d) (c, (d, a)) k.fee_pool_shares,
      weight_at-in_pool k c d a c d,
    )

-- No depositor holds more shares than there are.
pub shares-le-total :
    (k : Keeper) (c d a : ℕ)
    → IsBooked k
    → value_or 0 (get_shares k c d a) ≤ value_or 0 (get_total k c d)
shares-le-total k c d a v = omega (arith, shares-le-pool_sum k c d a, v.summed c d)

-- Writing a record together with the new total keeps the books.
pub set-IsBooked :
    (k : Keeper) (c d a s t : ℕ)
    → IsBooked k
    → t + value_or 0 (get_shares k c d a) ≡ value_or 0 (get_total k c d) + s
    → IsBooked (set_total (set_shares k c d a s) c d t)
set-IsBooked k c d a s t v e = record {
  distinct = set_distinct;
  summed = λ c' d'. ground (
    arith,
    total_sum c' d',
    other_total c' d',
    pool_sum-set_shares k c d a s c' d',
    get_total-set_total (set_shares k c d a s) c d t c' d',
    v.summed c' d',
  );
}
  where
    set_distinct : IsStore (set_total (set_shares k c d a s) c d t).fee_pool_shares
    set_distinct = unfold set_total set_shares in set-IsStore (c, (d, a)) s _ v.distinct

    total_sum :
        (c' d' : ℕ)
        → pool_sum (set_total (set_shares k c d a s) c d t) c' d'
          ≡ pool_sum (set_shares k c d a s) c' d'
    total_sum c' d' = unfold set_total pool_sum in refl

    other_total : (c' d' : ℕ) → get_total (set_shares k c d a s) c' d' ≡ get_total k c' d'
    other_total c' d' = unfold set_shares get_total in refl

pub get_total-clear_all_shares :
    (k : Keeper) (c d c' d' : ℕ)
    → get_total (clear_all_shares k c d) c' d'
      ≡ (if same c' d' c d then none else get_total k c' d')
unfolding clear_all_shares get_total
get_total-clear_all_shares k c d c' d' = get-remove (c', d') (c, d) k.fee_pool_total_shares

pub get_shares-clear_all_shares :
    (k : Keeper) (c d c' d' a' : ℕ)
    → get_shares (clear_all_shares k c d) c' d' a'
      ≡ (if same c' d' c d then none else get_shares k c' d' a')
unfolding clear_all_shares get_shares
get_shares-clear_all_shares k c d c' d' a' =
    get-clear (c', (d', a')) (of_pool c d) k.fee_pool_shares

pool_sum-clear_all_shares :
    (k : Keeper) (c d c' d' : ℕ)
    → pool_sum (clear_all_shares k c d) c' d' ≡ (if same c' d' c d then 0 else pool_sum k c' d')
unfolding clear_all_shares pool_sum
pool_sum-clear_all_shares k c d c' d' = elim (Bool-cases (same c' d' c d)) [
  | inl here ↦
      rw here
        (sum_by-clear (in_pool c' d') (of_pool c d) k.fee_pool_shares (λ key v h. ground arith))
  | inr elsewhere ↦
      rw elsewhere (
        sum_by-clear_other (in_pool c' d') (of_pool c d) k.fee_pool_shares
          (λ key v h. ground arith))
]

pub clear_all_shares-IsBooked :
    (k : Keeper) (c d : ℕ) → IsBooked k → IsBooked (clear_all_shares k c d)
clear_all_shares-IsBooked k c d v = record {
  distinct = unfold clear_all_shares in clear-IsStore (of_pool c d) _ v.distinct;
  summed = λ c' d'. ground (
    arith,
    pool_sum-clear_all_shares k c d c' d',
    get_total-clear_all_shares k c d c' d',
    v.summed c' d',
  );
}

module _ (bank : Bank) where
  pub absorb-IsBooked :
      (k : Keeper) (c d balance : ℕ)
      → IsBooked k
      → IsBooked (absorb_unaccounted_balance bank k c d balance)
  unfolding absorb_unaccounted_balance
  absorb-IsBooked k c d balance v =
      set-IsBooked (clear_all_shares k c d) c d bank.distribution_module balance balance
        (clear_all_shares-IsBooked k c d v)
        (ground (
          arith,
          get_total-clear_all_shares k c d c d,
          get_shares-clear_all_shares k c d c d bank.distribution_module,
        ))

  -- What MintShares has after its two adjustments: books in order, and the total that it goes on
  -- with is the stored one.
  abbrev pub IsAdjusted : ℕ → ℕ → Keeper × ℕ → Type 0
  IsAdjusted c d r = IsBooked r.0 × (value_or 0 (get_total r.0 c d) ≡ r.1)

  pub invalidate-IsAdjusted :
      (k : Keeper) (c d balance total : ℕ)
      → IsAdjusted c d (k, total)
      → IsAdjusted c d (invalidate k c d balance total)
  unfolding invalidate
  invalidate-IsAdjusted k c d balance total h =
      ground (arith, clear_all_shares-IsBooked k c d h.0, get_total-clear_all_shares k c d c d)

  pub account-IsAdjusted :
      (c d balance : ℕ) (r : Keeper × ℕ)
      → IsAdjusted c d r
      → IsAdjusted c d (account bank c d balance r)
  unfolding account
  account-IsAdjusted c d balance (k, total) h =
      ground (arith, absorb-IsBooked k c d balance h.0, get_total-absorb k c d balance)
    where
      get_total-absorb :
          (k : Keeper) (c d balance : ℕ)
          → get_total (absorb_unaccounted_balance bank k c d balance) c d ≡ some balance
      get_total-absorb k c d balance =
          unfold absorb_unaccounted_balance in
          ground (
            arith,
            get_total-set_total
                (set_shares (clear_all_shares k c d) c d bank.distribution_module balance) c d
                balance c d,
          )

pub credit-IsBooked :
    (c d a shares : ℕ) (r : Keeper × ℕ) (k' : Keeper)
    → IsBooked r.0
    → value_or 0 (get_total r.0 c d) ≡ r.1
    → credit c d a shares r ≡ ok k'
    → IsBooked k'
unfolding credit
credit-IsBooked c d a shares (k, total) k' v e h =
    ground
      (arith, set-IsBooked k c d a (value_or 0 (get_shares k c d a) + shares) (total + shares) v)
