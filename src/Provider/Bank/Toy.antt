-- ===== src/Provider/Bank/Toy.antt =====
-- A bank over a plain table of balances, which shows that the laws of the interface can be met.
use vaas.Base.{
  ℕ, ◌+◌, ◌-◌, ◌≤◌, ◌≡◌, ◌≢◌, true, Option, none, some, List, [], ◌∷◌, ◌&&◌, arith, leb, ◌==◌,
  if◌then◌else◌,
}
use vaas.Provider.State.{Coin}
use vaas.Provider.Bank.{Bank, BankLaws, Moved, Spread, output_to, output_total}

abbrev pub Table : Type 0
Table = ℕ → ℕ → ℕ

-- Account `a` pays `x` of denomination `d` to account `b`.
abbrev pub transfer : Table → ℕ → ℕ → Coin → Option Table
transfer t from to c =
    if leb c.amount (t from c.denom)
    then some (λ a d.
      if d == c.denom
      then if a == from then t a d - c.amount else if a == to then t a d + c.amount else t a d
      else t a d)
    else none

-- One account pays a coin, and each output is credited, if the coin is covered and is what the
-- outputs sum to.
abbrev pub spread_coins : Table → ℕ → Coin → List (ℕ × Coin) → Option Table
spread_coins t from c os =
    if leb c.amount (t from c.denom) && output_total c.denom os == c.amount
    then some
        (λ a d. t a d - (if a == from && d == c.denom then c.amount else 0) + output_to a d os)
    else none

-- The provider's account is 1, the distribution module's 2, and consumer c's pool 100 + c.
abbrev pub toy_bank : Bank
toy_bank = record {
  Ledger = Table;
  balance = λ t. t;
  denoms = λ t a. 0 ∷ [];
  send = transfer;
  fund_community_pool = λ t from c. transfer t from 2 c;
  input_output_coins = spread_coins;
  provider_module = 1;
  distribution_module = 2;
  fee_pool_address = λ c. 100 + c;
  accepts = λ a. true;
}

transferred : (t : Table) (from to : ℕ) (c : Coin) → Table
transferred t from to c a d =
    if d == c.denom
    then if a == from then t a d - c.amount else if a == to then t a d + c.amount else t a d
    else t a d

transfer_covered :
    (t : Table) (from to : ℕ) (c : Coin)
    → from ≢ to
    → c.amount ≤ t from c.denom
    → (t' : Table) × (transfer t from to c ≡ some t') × Moved toy_bank t from to c t'
unfolding transferred
transfer_covered t from to c ne covered = (
  transferred t from to c,
  ground arith,
  record { paid = ground arith; received = ground arith; others = λ a p q. ground arith },
)

spread_coins-Spread :
    (t : Table) (from : ℕ) (c : Coin) (os : List (ℕ × Coin)) (t' : Table)
    → spread_coins t from c os ≡ some t'
    → Spread toy_bank t from c os t'
spread_coins-Spread t from c os t' h a d = ground arith

spread : Table → ℕ → Coin → List (ℕ × Coin) → Table
spread t from c os a d =
    t a d - (if a == from && d == c.denom then c.amount else 0) + output_to a d os

spread_coins-covered :
    (t : Table) (from : ℕ) (c : Coin) (os : List (ℕ × Coin))
    → output_total c.denom os ≡ c.amount
    → c.amount ≤ t from c.denom
    → (t' : Table) × (spread_coins t from c os ≡ some t')
unfolding spread
spread_coins-covered t from c os whole covered = (spread t from c os, ground arith)

pub toy_laws : BankLaws toy_bank
toy_laws = record {
  send_covered = λ t from to c ne covered ok. transfer_covered t from to c ne covered;
  fund_covered = λ t from c ne covered. transfer_covered t from 2 c ne covered;
  input_output_spread = λ t from c os t' h. spread_coins-Spread t from c os t' h;
  input_output_covered =
      λ t from c os ok whole covered. spread_coins-covered t from c os whole covered;
}
