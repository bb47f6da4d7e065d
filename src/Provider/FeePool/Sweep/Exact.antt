-- ===== src/Provider/FeePool/Sweep/Exact.antt =====
-- A sweep pays every depositor its floor share, empties the pool, and sends the rest to the
-- community pool.
use native.Mathlib.Nat.{le_of_mul-le-mul_right, zero-mul, zero-div}
use native.Mathlib.Decide.{dec_lt}
use vaas.Base.{
  ℕ, ◌+◌, ◌-◌, ◌*◌, ◌/◌, ◌≤◌, ◌<◌, ◌≡◌, ◌≢◌, refl, sym, ap, ◌∙◌, true, Option, none, some, List,
  ◌==◌, arith, if◌then◌else◌, value_or, All, nat_eq, pair_eq,
}
use vaas.Base.Store.{select, IsStore}
use vaas.Provider.State.{Keeper}
use vaas.Provider.Bank.{Bank, BankLaws}
use vaas.Provider.FeePool.{
  of_pool, get_total, get_shares, clear_all_shares, absorb_unaccounted_balance,
}
use vaas.Provider.FeePool.Ledger.{
  IsBooked, pool_sum, clear_all_shares-IsBooked, absorb-IsBooked, get_total-clear_all_shares,
}
use vaas.Provider.FeePool.Sweep.{
  Entry, pay_shares, pay_dust, sweep_holding, sweep_consumer_fee_pool_denom,
}
use vaas.Provider.FeePool.Sweep.Payout.{
  paid_total, paid_to, paid_total-le, paid_to-eq, IsPayable, pay_shares-Paid, SliceMoved-received,
}

-- The accounts of a sweep are apart, the provider's account accepts coins, and so do the
-- depositors, none of which is the pool.
pub record IsSweepable (bank : Bank) (k : Keeper) (consumer denom : ℕ) : Type 0 where
  pub pool_provider : bank.fee_pool_address consumer ≢ bank.provider_module
  pub pool_distribution : bank.fee_pool_address consumer ≢ bank.distribution_module
  pub provider_distribution : bank.provider_module ≢ bank.distribution_module
  pub provider_accepts : bank.accepts bank.provider_module ≡ true
  pub no_pool_shares : get_shares k consumer denom (bank.fee_pool_address consumer) ≡ none
  pub payable : All (IsPayable bank) (select (λ x. of_pool consumer denom x.0) k.fee_pool_shares)

abbrev pub pool_entries : Keeper → ℕ → ℕ → List Entry
pool_entries k c d = select (λ x. of_pool c d x.0) k.fee_pool_shares

-- The slices of a booked pool sum to at most its balance.
paid_total-le-balance :
    (k : Keeper) (c d balance : ℕ)
    → IsBooked k
    → 0 < value_or 0 (get_total k c d)
    → paid_total balance (value_or 0 (get_total k c d)) (pool_entries k c d) ≤ balance
unfolding pool_sum
paid_total-le-balance k c d b v some_shares =
    let t : ℕ = value_or 0 (get_total k c d) in
    le_of_mul-le-mul_right {k = t}
      (omega (arith, paid_total-le b t c d k.fee_pool_shares, ap (λ (x : ℕ). x * b) (v.summed c d)))
      some_shares

dust_apart : (d a x y n : ℕ) → d ≢ a → x ≡ y + (if d == a then n else 0) → x ≡ y
dust_apart d a x y n ne e = ground arith

dust_own : (a x y n : ℕ) → x ≡ y + (if a == a then n else 0) → x ≡ y + n
dust_own a x y n e = ground arith

module _ (bank : Bank) (laws : BankLaws bank) (k : Keeper) (l : bank.Ledger)
    (consumer denom : ℕ) where
  abbrev pub pool : ℕ
  pool = bank.fee_pool_address consumer

  abbrev pub Swept : ℕ → ℕ → bank.Ledger → Type 0
  Swept balance total l' =
      (bank.balance l' pool denom ≡ 0)
      × (bank.balance l' bank.provider_module denom ≡ bank.balance l bank.provider_module denom)
      × ((a : ℕ)
          → a ≢ pool
          → a ≢ bank.provider_module
          → a ≢ bank.distribution_module
          → bank.balance l' a denom
            ≡ bank.balance l a denom + value_or 0 (get_shares k consumer denom a) * balance / total)
      × (bank.balance l' bank.distribution_module denom
          ≡ bank.balance l bank.distribution_module denom
            + value_or 0 (get_shares k consumer denom bank.distribution_module) * balance / total
            + (balance - paid_total balance total (pool_entries k consumer denom)))

  pay_dust-rest :
      (balance distributed : ℕ) (l₂ : bank.Ledger)
      → bank.provider_module ≢ bank.distribution_module
      → distributed ≤ balance
      → balance - distributed ≤ bank.balance l₂ bank.provider_module denom
      → (l' : bank.Ledger) × (pay_dust bank denom balance (l₂, distributed) ≡ some l')
        × (bank.balance l' bank.provider_module denom + (balance - distributed)
            ≡ bank.balance l₂ bank.provider_module denom)
        × ((a : ℕ)
            → a ≢ bank.provider_module
            → bank.balance l' a denom
              ≡ bank.balance l₂ a denom
                + (if bank.distribution_module == a then balance - distributed else 0))
  unfolding pay_dust
  pay_dust-rest balance distributed l₂ ne le covered = elim (dec_lt distributed balance) [
    | yes some_left ↦
        let (l', funded, moved) =
          laws.fund_covered l₂ bank.provider_module
            (record { denom = denom; amount = balance - distributed }) ne covered in
        (
          l',
          ground (arith, funded),
          omega (arith, moved.paid),
          SliceMoved-received bank laws denom balance 0 l₂ l' bank.distribution_module
              (balance - distributed) moved,
        )
    | no none_left ↦ (l₂, ground arith, omega arith, λ a other. ground arith)
  ]

  sweep_holding-run :
      (balance total n : ℕ) (l₁ l₂ l' : bank.Ledger)
      → bank.send l pool bank.provider_module (record { denom = denom; amount = balance }) ≡ some l₁
      → pay_shares bank denom balance total (pool_entries k consumer denom) l₁ 0 ≡ some (l₂, n)
      → pay_dust bank denom balance (l₂, n) ≡ some l'
      → sweep_holding bank k l consumer denom balance total
        ≡ some (clear_all_shares k consumer denom, l')
  unfolding sweep_holding
  sweep_holding-run balance total n l₁ l₂ l' e₁ e₂ e₃ = ground arith

  -- The three steps of a sweep, one after the other.
  sweep_holding-Swept :
      (balance total : ℕ)
      → IsSweepable bank k consumer denom
      → IsStore k.fee_pool_shares
      → balance ≡ bank.balance l pool denom
      → paid_total balance total (pool_entries k consumer denom) ≤ balance
      → (l' : bank.Ledger) × (sweep_holding bank k l consumer denom balance total
          ≡ some (clear_all_shares k consumer denom, l'))
        × Swept balance total l'
  unfolding get_shares
  sweep_holding-Swept balance total fit distinct whole le =
      let (l₁, sent, drained) =
        laws.send_covered l pool bank.provider_module (record { denom = denom; amount = balance })
          fit.pool_provider (omega arith) fit.provider_accepts in
      let xs = pool_entries k consumer denom in
      let (l₂, (paid, left, got)) =
        pay_shares-Paid bank laws denom balance total xs l₁ 0 fit.provider_distribution fit.payable
          (omega (arith, drained.received)) in
      let (l', funded, rest, received) =
        pay_dust-rest balance (paid_total balance total xs) l₂ fit.provider_distribution le
          (omega (arith, drained.received)) in
      let share = λ (a : ℕ). paid_to-eq balance total consumer denom a k.fee_pool_shares distinct in
      let apart = fit.pool_distribution in
      let pool_share : paid_to balance total pool xs ≡ 0 =
        share pool
        ∙ ap (λ (o : Option ℕ). value_or 0 o * balance / total) fit.no_pool_shares
        ∙ (rw (zero-mul balance, zero-div total)) in
      let to_distribution =
        received bank.distribution_module (λ e. fit.provider_distribution (sym e)) in
      (
        l',
        sweep_holding-run balance total (paid_total balance total xs) l₁ l₂ l' sent
            (paid ∙ ap (λ (n : ℕ). some (l₂, n)) (omega arith)) funded,
        (
          dust_apart _ _ _ _ _ (λ e. apart (sym e)) (received pool fit.pool_provider)
              ∙ got pool fit.pool_provider
              ∙ omega (arith, drained.paid, pool_share),
          omega (arith, rest, left, drained.received),
          λ a not_pool not_provider not_distribution.
              dust_apart _ _ _ _ _ (λ e. not_distribution (sym e)) (received a not_provider)
              ∙ got a not_provider
              ∙ omega (arith, drained.others a not_pool not_provider, share a),
          dust_own bank.distribution_module _ _ _ to_distribution
              ∙ omega (
                arith,
                got bank.distribution_module (λ e. fit.provider_distribution (sym e)),
                drained.others bank.distribution_module (λ e. apart (sym e))
                    (λ e. fit.provider_distribution (sym e)),
                share bank.distribution_module,
              ),
        ),
      )

  sweep-holding :
      0 < value_or 0 (get_total k consumer denom)
      → 0 < bank.balance l pool denom
      → sweep_consumer_fee_pool_denom bank k l consumer denom
        ≡ sweep_holding bank k l consumer denom
            (bank.balance l pool denom)
            (value_or 0 (get_total k consumer denom))
  unfolding sweep_consumer_fee_pool_denom
  sweep-holding some_shares some_balance = ground arith

  -- A sweep of a pool with shares and a balance B, T shares in all, succeeds; it deletes the pool's
  -- records and empties its account; it pays every depositor with s shares exactly s * B / T rounded
  -- down, and nobody else; and the community pool's account gets its own share and all the residue.
  -- It assumes that the bank's accounts are apart and the depositors accept coins.
  pub sweep_pays_shares :
      IsSweepable bank k consumer denom
      → IsBooked k
      → 0 < value_or 0 (get_total k consumer denom)
      → 0 < bank.balance l (bank.fee_pool_address consumer) denom
      → (l' : bank.Ledger) × (sweep_consumer_fee_pool_denom bank k l consumer denom
          ≡ some (clear_all_shares k consumer denom, l'))
        × Swept
            (bank.balance l (bank.fee_pool_address consumer) denom)
            (value_or 0 (get_total k consumer denom))
            l'
  sweep_pays_shares fit v some_shares some_balance =
      let (l', run, swept) =
        sweep_holding-Swept (bank.balance l pool denom) (value_or 0 (get_total k consumer denom))
          fit v.distinct refl (paid_total-le-balance k consumer denom _ v some_shares) in
      (l', sweep-holding some_shares some_balance ∙ run, swept)

-- Whatever it pays, a sweep that returns keeps the books of all pools, and the swept pool has no
-- shares left.
pub sweep-IsBooked :
    (bank : Bank) (k : Keeper) (l : bank.Ledger) (consumer denom : ℕ) (k' : Keeper)
    (l' : bank.Ledger)
    → IsBooked k
    → sweep_consumer_fee_pool_denom bank k l consumer denom ≡ some (k', l')
    → IsBooked k' × (value_or 0 (get_total k' consumer denom) ≡ 0)
unfolding sweep_consumer_fee_pool_denom sweep_holding
sweep-IsBooked bank k l c d k' l' v h =
    let k₁ = absorb_unaccounted_balance bank k c d (bank.balance l (bank.fee_pool_address c) d) in
    ground (
      arith,
      clear_all_shares-IsBooked k c d v,
      clear_all_shares-IsBooked k₁ c d (absorb-IsBooked bank k c d _ v),
      get_total-clear_all_shares k c d c d,
      get_total-clear_all_shares k₁ c d c d,
    )
