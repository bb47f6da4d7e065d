-- ===== src/Provider/FeePool.antt =====
-- The share accounting of a consumer's fee pool (x/vaas/provider/keeper/fee_pool_shares.go). An
-- error aborts the transaction, and the SDK discards its writes: a result has no state on an error.
-- A stored collection is read without failure, so its decoding errors do not occur.
pub mod Draw
pub mod Ledger
pub mod Mint
pub mod Withdraw
pub mod Quote
pub mod Sweep
pub mod History
mod Tests
use vaas.Base.{
  ℕ, ◌+◌, ◌-◌, ◌*◌, ◌/◌, ◌≡◌, Bool, not, ◌&&◌, ◌||◌, Option, none, some, ltb, ◌==◌, if◌then◌else◌,
  value_or, nat_eq, pair_eq,
}
use vaas.Base.Int.{ℤ, pos, sub_ℕ, ltb_ℤ}
use vaas.Base.Store.{Store, get, set, remove, clear, sum_by}
use vaas.Provider.State.{Keeper, Coin, WithheldFeeRecord}
use vaas.Provider.Bank.{Bank}
use Draw.{fee_pool_draw}

pub data Error : Type 0 where
  deposit_too_small no_shares_for_depositor pool_empty sub_share_withdraw : Error

pub data Result {ℓ} (A : Type ℓ) : Type ℓ where
  ok : A → Result A
  err : Error → Result A

-- What a record holds in escrow of a consumer's denomination at a time.
abbrev pub escrowed : ℕ → ℕ → ℕ → ℕ × ℕ → WithheldFeeRecord → ℕ
escrowed now consumer denom key record' =
    if key.0 == consumer && (record'.amount.denom == denom && ltb now record'.expires_at)
    then record'.amount.amount
    else 0

-- outstandingWithheldFees.
unfoldable pub outstanding_withheld_fees : Keeper → ℕ → ℕ → ℕ → ℕ
outstanding_withheld_fees k now consumer denom =
    sum_by (escrowed now consumer denom) k.withheld_fee_records

-- The prefix (consumer, denom) of a share record's key.
abbrev pub of_pool : ℕ → ℕ → ℕ × (ℕ × ℕ) → Bool
of_pool consumer denom key = key.0 == consumer && key.1.0 == denom

unfoldable pub clear_all_shares : Keeper → ℕ → ℕ → Keeper
clear_all_shares k consumer denom = record k {
  fee_pool_shares = clear (of_pool consumer denom) k.fee_pool_shares;
  fee_pool_total_shares = remove (consumer, denom) k.fee_pool_total_shares;
}

unfoldable pub set_shares : Keeper → ℕ → ℕ → ℕ → ℕ → Keeper
set_shares k consumer denom depositor shares = record k {
  fee_pool_shares = set (consumer, (denom, depositor)) shares k.fee_pool_shares;
}

unfoldable pub set_total : Keeper → ℕ → ℕ → ℕ → Keeper
set_total k consumer denom total = record k {
  fee_pool_total_shares = set (consumer, denom) total k.fee_pool_total_shares;
}

unfoldable pub get_shares : Keeper → ℕ → ℕ → ℕ → Option ℕ
get_shares k consumer denom depositor = get (consumer, (denom, depositor)) k.fee_pool_shares

unfoldable pub get_total : Keeper → ℕ → ℕ → Option ℕ
get_total k consumer denom = get (consumer, denom) k.fee_pool_total_shares

-- The lazy invalidation of MintShares, with the total that it leaves.
unfoldable pub invalidate : Keeper → ℕ → ℕ → ℕ → ℕ → Keeper × ℕ
invalidate k consumer denom balance total =
    if balance == 0 && ltb 0 total then (clear_all_shares k consumer denom, 0) else (k, total)

-- The shares that a deposit mints.
unfoldable pub shares_to_mint : ℕ → ℕ → ℕ → ℕ
shares_to_mint amount total balance = if total == 0 then amount else amount * total / balance

-- The end of MintShares: the depositor and the total are credited.
unfoldable pub credit : ℕ → ℕ → ℕ → ℕ → Keeper × ℕ → Result Keeper
credit consumer denom depositor shares (k, total) =
    if not (ltb 0 shares)
    then err deposit_too_small
    else let existing = value_or 0 (get_shares k consumer denom depositor) in
      ok (
        set_total (set_shares k consumer denom depositor (existing + shares)) consumer denom
          (total + shares))

-- A record is deleted when nothing is left of it.
unfoldable pub put_shares : Keeper → ℕ → ℕ → ℕ → ℕ → Keeper
unfolding set_shares
put_shares k consumer denom depositor left =
    if left == 0
    then record k { fee_pool_shares = remove (consumer, (denom, depositor)) k.fee_pool_shares }
    else set_shares k consumer denom depositor left

unfoldable pub put_total : Keeper → ℕ → ℕ → ℕ → Keeper
unfolding set_total
put_total k consumer denom left =
    if left == 0
    then record k { fee_pool_total_shares = remove (consumer, denom) k.fee_pool_total_shares }
    else set_total k consumer denom left

-- The end of WithdrawShares: the burned shares leave the depositor's record and the total.
unfoldable pub burn : Keeper → ℕ → ℕ → ℕ → ℕ → ℕ → ℕ → Keeper
burn k consumer denom depositor shares total burned =
    put_total (put_shares k consumer denom depositor (shares - burned)) consumer denom
      (total - burned)

module _ (bank : Bank) where
  -- absorbUnaccountedBalance.
  unfoldable pub absorb_unaccounted_balance : Keeper → ℕ → ℕ → ℕ → Keeper
  absorb_unaccounted_balance k consumer denom balance =
      set_total
        (set_shares (clear_all_shares k consumer denom) consumer denom bank.distribution_module
          balance)
        consumer denom balance

  -- The booking of an unaccounted balance in MintShares, with the total that it leaves.
  unfoldable pub account : ℕ → ℕ → ℕ → Keeper × ℕ → Keeper × ℕ
  account consumer denom balance (k, total) =
      if total == 0 && ltb 0 balance
      then (absorb_unaccounted_balance k consumer denom balance, balance)
      else (k, total)

  -- MintShares.
  unfoldable pub mint_shares : Keeper → bank.Ledger → ℕ → ℕ → Coin → Result Keeper
  mint_shares k l consumer depositor amount =
      let balance = bank.balance l (bank.fee_pool_address consumer) amount.denom in
      let total = value_or 0 (get_total k consumer amount.denom) in
      let booked =
        account consumer amount.denom balance (invalidate k consumer amount.denom balance total) in
      credit consumer amount.denom depositor (shares_to_mint amount.amount booked.1 balance) booked

  -- The unreserved balance of a pool, which may be negative.
  unfoldable pub available : Keeper → bank.Ledger → ℕ → ℕ → ℕ → ℤ
  available k l now consumer denom =
      sub_ℕ (bank.balance l (bank.fee_pool_address consumer) denom)
        (outstanding_withheld_fees k now consumer denom)

  -- ComputeClaim.
  unfoldable pub compute_claim : Keeper → bank.Ledger → ℕ → ℕ → ℕ → ℕ → ℕ
  compute_claim k l now consumer depositor denom =
      let balance = bank.balance l (bank.fee_pool_address consumer) denom in
      if balance == 0 then 0 else elim (get_shares k consumer denom depositor) [
        | none ↦ 0
        | some shares ↦ elim (get_total k consumer denom) [
          | none ↦ 0
          | some total ↦
              if total == 0
              then 0
              else (fee_pool_draw shares total balance (available k l now consumer denom)).1
        ]
      ]

  -- WithdrawShares from a record that was found.
  unfoldable pub withdraw_found :
      Keeper → bank.Ledger → ℕ → ℕ → ℕ → Coin → ℕ → ℕ → Result (Keeper × Coin)
  withdraw_found k l now consumer depositor amount shares total =
      let balance = bank.balance l (bank.fee_pool_address consumer) amount.denom in
      let free = available k l now consumer amount.denom in
      if not (ltb_ℤ (pos 0) free)
      then err pool_empty
      else let limit = if ltb_ℤ free (pos amount.amount) then free else pos amount.amount in
        let draw = fee_pool_draw shares total balance limit in
        if not (ltb 0 draw.0)
        then err sub_share_withdraw
        else ok (
          burn k consumer amount.denom depositor shares total draw.0,
          record { denom = amount.denom; amount = draw.1 },
        )

  -- WithdrawShares.
  unfoldable pub withdraw_shares : Keeper → bank.Ledger → ℕ → ℕ → ℕ → Coin → Result (Keeper × Coin)
  withdraw_shares k l now consumer depositor amount =
      elim (get_shares k consumer amount.denom depositor) [
        | none ↦ err no_shares_for_depositor
        | some shares ↦ elim (get_total k consumer amount.denom) [
          | none ↦ err pool_empty
          | some total ↦
              if total == 0
              then err pool_empty
              else withdraw_found k l now consumer depositor amount shares total
        ]
      ]
