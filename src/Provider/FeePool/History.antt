-- ===== src/Provider/FeePool/History.antt =====
-- Sequences of what happens to the fee pools (x/vaas/provider/keeper/fee_pool_shares.go): deposits,
-- withdrawals, sweeps, and steps that do not touch the shares. Each step finds balances of its own,
-- since anyone may send coins to a pool in between.
use vaas.Base.{ℕ, ◌≤◌, ◌≡◌, some, value_or, nat_eq, pair_eq}
use vaas.Provider.State.{Keeper, Coin}
use vaas.Provider.Bank.{Bank}
use vaas.Provider.FeePool.{ok, get_shares, get_total, mint_shares, withdraw_shares}
use vaas.Provider.FeePool.Ledger.{IsBooked, pool_sum, shares-le-total}
use vaas.Provider.FeePool.Mint.{mint_shares-IsBooked}
use vaas.Provider.FeePool.Withdraw.{withdraw_shares-IsBooked}
use vaas.Provider.FeePool.Sweep.{sweep_consumer_fee_pool_denom}
use vaas.Provider.FeePool.Sweep.Exact.{sweep-IsBooked}

module _ (bank : Bank) where
  pub data Step (k k' : Keeper) : Type 0 where
    deposit_step :
        (l : bank.Ledger) (consumer depositor : ℕ) (amount : Coin)
        → mint_shares bank k l consumer depositor amount ≡ ok k'
        → Step k k'
    withdrawal_step :
        (l : bank.Ledger) (now consumer depositor : ℕ) (amount paid : Coin)
        → withdraw_shares bank k l now consumer depositor amount ≡ ok (k', paid)
        → Step k k'
    sweep_step :
        (l l' : bank.Ledger) (consumer denom : ℕ)
        → sweep_consumer_fee_pool_denom bank k l consumer denom ≡ some (k', l')
        → Step k k'
    other_step :
        k'.fee_pool_shares ≡ k.fee_pool_shares
        → k'.fee_pool_total_shares ≡ k.fee_pool_total_shares
        → Step k k'

  pub data History (k : Keeper) : Keeper → Type 0 where
    no_step : History k k
    next_step : {k₁ k₂ : Keeper} → History k k₁ → Step k₁ k₂ → History k k₂

  other-IsBooked :
      (k k' : Keeper)
      → k'.fee_pool_shares ≡ k.fee_pool_shares
      → k'.fee_pool_total_shares ≡ k.fee_pool_total_shares
      → IsBooked k
      → IsBooked k'
  unfolding pool_sum get_total
  other-IsBooked k k' shares totals v = record {
    distinct = rw shares v.distinct;
    summed = λ c d. rw (shares, totals) (v.summed c d);
  }

  Step-IsBooked : (k k' : Keeper) → Step k k' → IsBooked k → IsBooked k'
  Step-IsBooked k k' (deposit_step l c a amount run) v =
      mint_shares-IsBooked bank k l c a amount k' v run
  Step-IsBooked k k' (withdrawal_step l now c a amount paid run) v =
      withdraw_shares-IsBooked bank k l now c a amount k' paid v run
  Step-IsBooked k k' (sweep_step l l' c d run) v = (sweep-IsBooked bank k l c d k' l' v run).0
  Step-IsBooked k k' (other_step shares totals) v = other-IsBooked k k' shares totals v

  History-IsBooked : {k k' : Keeper} → History k k' → IsBooked k → IsBooked k'
  History-IsBooked no_step v = v
  History-IsBooked {k' = k'} (next_step {k₁} h s) v = Step-IsBooked k₁ k' s (History-IsBooked h v)

  -- From books that are in order, any sequence of deposits, withdrawals, sweeps and steps that do not
  -- touch the shares, with any balances at each of them, leads to books that are in order: the shares
  -- of every pool sum to its stored total, and nobody holds more than that.
  pub books_stay_in_order :
      (k k' : Keeper)
      → IsBooked k
      → History k k'
      → IsBooked k'
        × ((c d a : ℕ) → value_or 0 (get_shares k' c d a) ≤ value_or 0 (get_total k' c d))
  books_stay_in_order k k' v h =
      let v' = History-IsBooked h v in (v', λ c d a. shares-le-total k' c d a v')
