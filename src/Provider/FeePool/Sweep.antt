-- ===== src/Provider/FeePool/Sweep.antt =====
-- SweepConsumerFeePoolDenom (x/vaas/provider/keeper/fee_pool_shares.go). A panic is `none`.
pub mod Payout
pub mod Exact
use vaas.Base.{
  ◌>>=◌, ℕ, ◌+◌, ◌-◌, ◌*◌, ◌/◌, Bool, true, false, ◌&&◌, Option, none, some, List, [], ◌∷◌, ltb,
  ◌==◌, if◌then◌else◌, value_or,
}
use vaas.Base.Store.{Store, select}
use vaas.Provider.State.{Keeper, Coin}
use vaas.Provider.Bank.{Bank}
use vaas.Provider.FeePool.{of_pool, clear_all_shares, get_total, absorb_unaccounted_balance}

-- A share record of one pool: its key's depositor, and its shares.
abbrev pub Entry : Type 0
Entry = (ℕ × (ℕ × ℕ)) × ℕ

module _ (bank : Bank) where
  -- One slice goes to the community pool if its depositor is the distribution module's account.
  unfoldable pub pay_slice : bank.Ledger → ℕ → ℕ → ℕ → Option bank.Ledger
  pay_slice l denom depositor slice =
      if depositor == bank.distribution_module
      then bank.fund_community_pool l bank.provider_module
          (record { denom = denom; amount = slice })
      else bank.send l bank.provider_module depositor (record { denom = denom; amount = slice })

  -- The loop over the share records, with what has been distributed so far.
  unfoldable pub pay_shares : ℕ → ℕ → ℕ → List Entry → bank.Ledger → ℕ → Option (bank.Ledger × ℕ)
  pay_shares denom balance total [] l distributed = some (l, distributed)
  pay_shares denom balance total (x ∷ rest) l distributed = elim (x.1 * balance / total == 0) [
    | true ↦ pay_shares denom balance total rest l distributed
    | false ↦ elim (pay_slice l denom x.0.1.1 (x.1 * balance / total)) [
      | none ↦ none
      | some l' ↦ pay_shares denom balance total rest l' (distributed + x.1 * balance / total)
    ]
  ]

  -- The truncation residue goes to the community pool.
  unfoldable pub pay_dust : ℕ → ℕ → bank.Ledger × ℕ → Option bank.Ledger
  pay_dust denom balance (l, distributed) =
      if ltb distributed balance
      then bank.fund_community_pool l bank.provider_module
          (record { denom = denom; amount = balance - distributed })
      else some l

  -- The sweep of a pool with a balance and shares.
  unfoldable pub sweep_holding :
      Keeper → bank.Ledger → ℕ → ℕ → ℕ → ℕ → Option (Keeper × bank.Ledger)
  sweep_holding k l consumer denom balance total = do
    drained ←
        bank.send l (bank.fee_pool_address consumer) bank.provider_module
          (record { denom = denom; amount = balance })
    paid ←
        pay_shares denom balance total (select (λ x. of_pool consumer denom x.0) k.fee_pool_shares)
          drained 0
    l' ← pay_dust denom balance paid
    some (clear_all_shares k consumer denom, l')

  -- SweepConsumerFeePoolDenom.
  unfoldable pub sweep_consumer_fee_pool_denom :
      Keeper → bank.Ledger → ℕ → ℕ → Option (Keeper × bank.Ledger)
  sweep_consumer_fee_pool_denom k l consumer denom =
      let balance = bank.balance l (bank.fee_pool_address consumer) denom in
      let total = value_or 0 (get_total k consumer denom) in
      if balance == 0 && total == 0
      then some (k, l)
      else let k' =
          if total == 0 then absorb_unaccounted_balance bank k consumer denom balance else k in
        let total' = if total == 0 then balance else total in
        if balance == 0
        then some (clear_all_shares k' consumer denom, l)
        else sweep_holding k' l consumer denom balance total'

  -- SweepConsumerFeePool over the denominations that the caller names.
  unfoldable pub sweep_consumer_fee_pool :
      Keeper × bank.Ledger → ℕ → List ℕ → Option (Keeper × bank.Ledger)
  sweep_consumer_fee_pool s consumer [] = some s
  sweep_consumer_fee_pool (k, l) consumer (d ∷ ds) =
      elim (sweep_consumer_fee_pool_denom k l consumer d) [
        | none ↦ none
        | some s' ↦ sweep_consumer_fee_pool s' consumer ds
      ]
