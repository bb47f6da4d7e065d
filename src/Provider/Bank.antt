-- ===== src/Provider/Bank.antt =====
-- What the provider's keeper uses of x/bank and x/distribution, which the repository does not hold
-- (x/vaas/types/expected_keepers.go names the interfaces): an interface, with the documented effect
-- of each call as a law. Amounts are non-negative, as the coins of the SDK are.
pub mod Toy
use vaas.Base.{
  ℕ, ◌+◌, ◌-◌, ◌≤◌, ◌≡◌, ◌≢◌, Bool, true, Option, some, List, [], ◌∷◌, ◌&&◌, ◌==◌, if◌then◌else◌,
  All,
}
use vaas.Provider.State.{Coin}

pub record Bank : Type 1 where
  pub Ledger : Type 0
  -- GetBalance, by account and denomination.
  pub balance : Ledger → ℕ → ℕ → ℕ
  -- The denominations of GetAllBalances.
  pub denoms : Ledger → ℕ → List ℕ
  -- A transfer of one coin between two accounts: SendCoinsFromAccountToModule and
  -- SendCoinsFromModuleToAccount. `none` is a refusal.
  pub send : Ledger → ℕ → ℕ → Coin → Option Ledger
  -- FundCommunityPool of x/distribution, from a sender.
  pub fund_community_pool : Ledger → ℕ → Coin → Option Ledger
  -- InputOutputCoins, from one input (an account and a coin) to outputs.
  pub input_output_coins : Ledger → ℕ → Coin → List (ℕ × Coin) → Option Ledger
  -- The module accounts of the provider and of x/distribution, and a consumer's pool address.
  pub provider_module : ℕ
  pub distribution_module : ℕ
  pub fee_pool_address : ℕ → ℕ
  -- Accounts that may receive coins (not blocked, and not under a send restriction).
  pub accepts : ℕ → Bool

-- A transfer has moved the coin, and no other balance.
pub record Moved (bank : Bank) (l : bank.Ledger) (from to : ℕ) (c : Coin) (l' : bank.Ledger)
    : Type 0 where
  pub paid : bank.balance l' from c.denom ≡ bank.balance l from c.denom - c.amount
  pub received : bank.balance l' to c.denom ≡ bank.balance l to c.denom + c.amount
  pub others : (a : ℕ) → a ≢ from → a ≢ to → bank.balance l' a c.denom ≡ bank.balance l a c.denom

-- What an account gets of a denomination from a list of outputs.
unfoldable pub output_to : ℕ → ℕ → List (ℕ × Coin) → ℕ
output_to a d [] = 0
output_to a d (o ∷ os) = (if o.0 == a && o.1.denom == d then o.1.amount else 0) + output_to a d os

-- What the outputs pay of a denomination in all.
unfoldable pub output_total : ℕ → List (ℕ × Coin) → ℕ
output_total d [] = 0
output_total d (o ∷ os) = (if o.1.denom == d then o.1.amount else 0) + output_total d os

-- A payment from one account to a list of outputs has debited the one and credited the others.
abbrev pub Spread : (bank : Bank) → bank.Ledger → ℕ → Coin → List (ℕ × Coin) → bank.Ledger → Type 0
Spread bank l from c os l' =
    (a d : ℕ)
    → bank.balance l' a d + (if a == from && d == c.denom then c.amount else 0)
      ≡ bank.balance l a d + output_to a d os

-- A covered transfer to an account that accepts it succeeds, and a success has moved the coin.
pub record BankLaws (bank : Bank) : Type 0 where
  pub send_covered :
      (l : bank.Ledger) (from to : ℕ) (c : Coin)
      → from ≢ to
      → c.amount ≤ bank.balance l from c.denom
      → bank.accepts to ≡ true
      → (l' : bank.Ledger) × (bank.send l from to c ≡ some l') × Moved bank l from to c l'
  pub fund_covered :
      (l : bank.Ledger) (from : ℕ) (c : Coin)
      → from ≢ bank.distribution_module
      → c.amount ≤ bank.balance l from c.denom
      → (l' : bank.Ledger) × (bank.fund_community_pool l from c ≡ some l')
        × Moved bank l from bank.distribution_module c l'
  pub input_output_spread :
      (l : bank.Ledger) (from : ℕ) (c : Coin) (os : List (ℕ × Coin)) (l' : bank.Ledger)
      → bank.input_output_coins l from c os ≡ some l'
      → Spread bank l from c os l'
  pub input_output_covered :
      (l : bank.Ledger) (from : ℕ) (c : Coin) (os : List (ℕ × Coin))
      → All (λ o. (bank.accepts o.0 ≡ true) × (o.1.denom ≡ c.denom)) os
      → output_total c.denom os ≡ c.amount
      → c.amount ≤ bank.balance l from c.denom
      → (l' : bank.Ledger) × (bank.input_output_coins l from c os ≡ some l')
