-- ===== src/Provider/FeePool/Tests.antt =====
-- The fee pool's theorems at a concrete pool: consumer 7, denomination 0, depositors 10 and 11.
use vaas.Base.{ℕ, ◌+◌, ◌≤◌, ◌≡◌, refl, [], ◌∷◌, some, ◌==◌, if◌then◌else◌, value_or, arith}
use vaas.Base.Store.{get, sum_by, select, set, remove, clear}
use vaas.Provider.State.{Keeper, Coin}
use vaas.Provider.Example.{keeper}
use vaas.Provider.Bank.Toy.{Table, toy_bank, toy_laws}
use vaas.Provider.FeePool.{
  ok, err, sub_share_withdraw, mint_shares, withdraw_shares, withdraw_found, compute_claim,
  get_total, get_shares, set_shares, set_total, put_shares, put_total, burn, credit, account,
  invalidate, shares_to_mint, available, clear_all_shares, outstanding_withheld_fees,
}
use vaas.Provider.FeePool.Draw.{fee_pool_draw}
use vaas.Provider.FeePool.Ledger.{IsBooked, pool_sum}
use vaas.Provider.FeePool.Mint.{claim_of, mint_shares_keeps_claims, mint_shares_is_no_gain}
use vaas.Provider.FeePool.Withdraw.{withdraw_shares_spares_escrow, withdraw_shares_keeps_claims}
use vaas.Provider.FeePool.History.{
  no_step, next_step, deposit_step, sweep_step, books_stay_in_order,
}
use vaas.Provider.FeePool.Quote.{withdraw_shares-compute_claim, quoted_withdrawal_refused}
use vaas.Provider.FeePool.Sweep.{sweep_consumer_fee_pool_denom}
use vaas.Provider.FeePool.Sweep.Exact.{IsSweepable, Swept, sweep_pays_shares}

-- The pool holds 10, account 12 holds 100.
abbrev table : Table
table a d = if a == 107 then 10 else if a == 12 then 100 else 0

keeper-IsBooked : IsBooked keeper
unfolding pool_sum sum_by get_total get
keeper-IsBooked = record { distinct = (refl, (refl, tt)); summed = λ c d. ground arith }

abbrev cleared : Keeper
cleared = record keeper { fee_pool_shares = []; fee_pool_total_shares = [] }

abbrev deposit : Coin
deposit = record { denom = 0; amount = 5 }

abbrev minted : Keeper
minted = record keeper {
  fee_pool_shares = ((7, (0, 10)), 2) ∷ ((7, (0, 11)), 1) ∷ ((7, (0, 12)), 1) ∷ [];
  fee_pool_total_shares = ((7, 0), 4) ∷ [];
}

mint_runs : mint_shares toy_bank keeper table 7 12 deposit ≡ ok minted
unfolding mint_shares credit account invalidate shares_to_mint get_shares get_total set_shares
    set_total get set
mint_runs = refl

abbrev withdrawal : Coin
withdrawal = record { denom = 0; amount = 9 }

-- The claim of depositor 10 is 6, and 7 of the 10 are free: it takes all of it.
abbrev withdrawn : Keeper
withdrawn = record keeper {
  fee_pool_shares = ((7, (0, 11)), 1) ∷ [];
  fee_pool_total_shares = ((7, 0), 1) ∷ [];
}

withdraw_runs :
    withdraw_shares toy_bank keeper table 20 7 10 withdrawal
    ≡ ok (withdrawn, record { denom = 0; amount = 6 })
unfolding withdraw_shares withdraw_found burn put_shares put_total set_total get_shares get_total
    get set remove clear available outstanding_withheld_fees sum_by fee_pool_draw
withdraw_runs = refl

mint_shares_keeps_claims_example : claim_of keeper 7 0 10 10 ≤ claim_of minted 7 0 10 15
mint_shares_keeps_claims_example =
    mint_shares_keeps_claims toy_bank keeper table 7 12 10 deposit minted keeper-IsBooked
      (omega arith) mint_runs

mint_shares_is_no_gain_example : claim_of minted 7 0 12 15 ≤ 5
mint_shares_is_no_gain_example =
    mint_shares_is_no_gain toy_bank keeper table 7 12 deposit minted (omega arith) nobody mint_runs
  where
    nobody : value_or 0 (get_shares keeper 7 0 12) ≡ 0
    nobody = unfold get_shares get in refl

withdraw_shares_spares_escrow_example :
    (◌≡◌ {A = ℕ} 0 0) × (6 ≤ 9) × (6 + outstanding_withheld_fees keeper 20 7 0 ≤ 10)
withdraw_shares_spares_escrow_example =
    withdraw_shares_spares_escrow toy_bank keeper table 20 7 10 withdrawal withdrawn
      (record { denom = 0; amount = 6 }) keeper-IsBooked withdraw_runs

withdraw_shares_keeps_claims_example : claim_of keeper 7 0 11 10 ≤ claim_of withdrawn 7 0 11 4
withdraw_shares_keeps_claims_example =
    withdraw_shares_keeps_claims toy_bank keeper table 20 7 10 withdrawal withdrawn
      (record { denom = 0; amount = 6 }) 11 keeper-IsBooked (omega arith) withdraw_runs

withdraw_shares-compute_claim_example : 6 ≡ compute_claim toy_bank keeper table 20 7 10 0
unfolding outstanding_withheld_fees sum_by
withdraw_shares-compute_claim_example =
    withdraw_shares-compute_claim toy_bank keeper table 20 7 10 withdrawal withdrawn
      (record { denom = 0; amount = 6 }) (omega arith) withdraw_runs

keeper-IsSweepable : IsSweepable toy_bank keeper 7 0
unfolding select get_shares get
keeper-IsSweepable = record {
  pool_provider = omega arith;
  pool_distribution = omega arith;
  provider_distribution = omega arith;
  provider_accepts = refl;
  no_pool_shares = refl;
  payable = ((refl, omega arith), ((refl, omega arith), tt));
}

-- Depositor 10 gets 6, depositor 11 gets 3, and the pool is empty.
sweep_pays_shares_example :
    (l' : Table) × (sweep_consumer_fee_pool_denom toy_bank keeper table 7 0
      ≡ some (clear_all_shares keeper 7 0, l'))
    × Swept toy_bank toy_laws keeper table 7 0 10 3 l'
unfolding get_total get
sweep_pays_shares_example =
    sweep_pays_shares toy_bank toy_laws keeper table 7 0 keeper-IsSweepable keeper-IsBooked
      (omega arith) (omega arith)

minted_sweep_runs :
    sweep_consumer_fee_pool_denom toy_bank minted (λ a d. 0) 7 0 ≡ some (cleared, λ a d. 0)
unfolding sweep_consumer_fee_pool_denom clear_all_shares get_total get remove clear
minted_sweep_runs = refl

-- A pool of 2 shares and a balance of 3 with 1 in escrow: the quote is 1, which cannot be asked for.
abbrev diluted : Keeper
diluted = record keeper {
  fee_pool_shares = ((7, (0, 10)), 2) ∷ [];
  fee_pool_total_shares = ((7, 0), 2) ∷ [];
  withheld_fee_records =
      ((7, 30), record { amount = record { denom = 0; amount = 1 }; expires_at = 50 }) ∷ [];
}

abbrev three : Table
three a d = if a == 107 then 3 else 0

quoted_withdrawal_refused_example :
    withdraw_shares toy_bank diluted three 20 7 10 (record { denom = 0; amount = 1 })
    ≡ err sub_share_withdraw
unfolding outstanding_withheld_fees sum_by compute_claim get_shares get_total get available
    fee_pool_draw
quoted_withdrawal_refused_example =
    quoted_withdrawal_refused toy_bank diluted three 20 7 10 (record { denom = 0; amount = 1 }) 2 2
      refl refl (omega arith) refl (omega arith) (omega arith)

-- A deposit, and then the sweep of a pool that has been emptied meanwhile.
books_stay_in_order_example :
    IsBooked cleared
    × ((c d a : ℕ) → value_or 0 (get_shares cleared c d a) ≤ value_or 0 (get_total cleared c d))
books_stay_in_order_example = books_stay_in_order toy_bank keeper cleared keeper-IsBooked (
    next_step (next_step no_step (deposit_step table 7 12 deposit mint_runs))
      (sweep_step (λ a d. 0) (λ a d. 0) 7 0 minted_sweep_runs))
