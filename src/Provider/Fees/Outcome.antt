-- ===== src/Provider/Fees/Outcome.antt =====
-- What one consumer's run of DistributeConsumerFees ends in, and what it does to the pool and the
-- escrow (x/vaas/provider/keeper/fees.go).
use vaas.Base.{
  ℕ, ◌+◌, ◌*◌, ◌≤◌, ◌<◌, ◌≡◌, ◌⊎◌, ap, refl, Bool, true, false, ◌&&◌, none, some, List, [], ◌∷◌,
  arith, ltb, ◌==◌, if◌then◌else◌, length, Bool-cases, inl, inr, Option-cases,
}
use vaas.Base.Int.{pos, sub_ℕ, ltb_ℤ}
use vaas.Provider.State.{Keeper, Coin}
use vaas.Provider.Bank.{Bank, BankLaws}
use vaas.Provider.FeePool.{outstanding_withheld_fees}
use vaas.Provider.Fees.{
  BondedVal, set_epoch_share_record, update_consumer_debt_status, set_consumer_in_debt,
  eligible_addrs, excluded_cons_addrs, share_outputs,
}
use vaas.Provider.Fees.Run.{skip_zero_share, settle, pay_eligible, pay_consumer}
use vaas.Provider.Fees.Escrow.{coin_in, outstanding-record_withheld_fees}

-- Every bonded validator is eligible or excluded.
pub length-eligible_addrs :
    (k : Keeper) (c : ℕ) (vs : List BondedVal)
    → length (eligible_addrs k c vs) + length (excluded_cons_addrs k c vs) ≡ length vs
unfolding eligible_addrs excluded_cons_addrs
length-eligible_addrs k c [] = refl
length-eligible_addrs k c (v ∷ vs) = ground (arith, length-eligible_addrs k c vs)

-- The debt flag and the share records hold no escrow.
pub outstanding-update_debt :
    (k : Keeper) (b : Bool) (now c c' d : ℕ)
    → outstanding_withheld_fees (update_consumer_debt_status k c b) now c' d
      ≡ outstanding_withheld_fees k now c' d
unfolding update_consumer_debt_status set_consumer_in_debt outstanding_withheld_fees
outstanding-update_debt k b now c c' d = ground arith

pub outstanding-set_share :
    (k : Keeper) (t share now c c' d : ℕ)
    → outstanding_withheld_fees (set_epoch_share_record k c t share) now c' d
      ≡ outstanding_withheld_fees k now c' d
unfolding set_epoch_share_record outstanding_withheld_fees
outstanding-set_share k t share now c c' d = refl

pub outstanding-skip_zero_share :
    (k : Keeper) (now c : ℕ) (fee : Coin) (share c' d : ℕ)
    → outstanding_withheld_fees (skip_zero_share k now c fee share) now c' d
      ≡ outstanding_withheld_fees k now c' d
unfolding skip_zero_share
outstanding-skip_zero_share k now c fee share c' d = elim (Bool-cases (ltb 0 fee.amount)) [
  | inl owes ↦ rw (owes, outstanding-set_share, outstanding-update_debt) refl
  | inr free ↦ rw (free, outstanding-set_share) refl
]

-- A settled run puts the excluded validators' shares in escrow.
pub outstanding-settle :
    (k : Keeper) (now c : ℕ) (share : Coin) (excluded : List ℕ) (k' : Keeper) (c' d : ℕ)
    → settle k now c share excluded ≡ some k'
    → outstanding_withheld_fees k' now c' d
      ≤ outstanding_withheld_fees k now c' d + coin_in c c' d share * length excluded
unfolding settle
outstanding-settle k now c share excluded k' c' d h =
    let debt_free = update_consumer_debt_status k c false in
    omega (
      arith,
      outstanding-record_withheld_fees (set_epoch_share_record debt_free c now share.amount) now c
          excluded share k' c' d h,
      outstanding-set_share debt_free now share.amount now c c' d,
      outstanding-update_debt k false now c c' d,
    )

pub draws_at_most : (b b' x : ℕ) (t : Bool) → b ≤ b' + (if t then x else 0) → b ≤ b' + x
draws_at_most b b' x t h = ground arith

-- A pool that held the fee beside the escrow holds the new escrow after paying the rest.
pub own_pool_covered :
    (o' o b' b share e x n fee : ℕ)
    → e + x ≡ n
    → share * n ≤ fee
    → b ≤ b' + share * e
    → o' ≤ o + share * x
    → o + fee ≤ b
    → o' ≤ b'
own_pool_covered o' o b' b share e x n fee whole split drawn escrowed funded =
    omega (arith, ap (λ (m : ℕ). share * m) whole, split, drawn, escrowed, funded)

-- What each consumer's pool has in escrow is in the pool.
abbrev pub IsCovered : (bank : Bank) → Keeper → bank.Ledger → ℕ → Type 0
IsCovered bank k l now =
    (c d : ℕ) → outstanding_withheld_fees k now c d ≤ bank.balance l (bank.fee_pool_address c) d

module _ (bank : Bank) (laws : BankLaws bank) where
  -- Paying the eligible validators draws at most their shares, from that pool only.
  pub pay_eligible-draws :
      (l : bank.Ledger) (c : ℕ) (share : Coin) (eligible : List ℕ) (l' : bank.Ledger) (a d : ℕ)
      → pay_eligible bank l c share eligible ≡ some l'
      → bank.balance l a d
        ≤ bank.balance l' a d
          + (if a == bank.fee_pool_address c && d == share.denom
              then share.amount * length eligible
              else 0)
  unfolding pay_eligible
  pay_eligible-draws l c share eligible l' a d h = elim (Bool-cases (ltb 0 (length eligible))) [
    | inl some_left ↦ omega (
      arith,
      laws.input_output_spread l (bank.fee_pool_address c)
          (record { denom = share.denom; amount = share.amount * length eligible })
          (share_outputs share eligible) l' (ground (arith, some_left, h)) a d,
    )
    | inr none_left ↦ ground (arith, none_left, h)
  ]

  -- The run was paid: the pool held the fee beside the escrow, the eligible validators were paid, and
  -- the books were settled.
  pub record IsPaid (k : Keeper) (l : bank.Ledger) (now : ℕ) (bonded : List BondedVal) (c : ℕ)
      (fee share : Coin) (k' : Keeper) (l' : bank.Ledger) : Type 0 where
    pub funded :
        outstanding_withheld_fees k now c fee.denom + fee.amount
        ≤ bank.balance l (bank.fee_pool_address c) fee.denom
    pub paid : pay_eligible bank l c share (eligible_addrs k c bonded) ≡ some l'
    pub settled : settle k now c share (excluded_cons_addrs k c bonded) ≡ some k'

  -- Nothing was paid, and a zero share was recorded: the pool did not hold the fee beside the escrow,
  -- and the debt flag is set; or the bank refused the payment, and the flag is left.
  abbrev pub IsSkipped :
      Keeper → bank.Ledger → ℕ → List BondedVal → ℕ → Coin → Coin → Keeper → bank.Ledger → Type 0
  IsSkipped k l now bonded c fee share k' l' =
      let balance = bank.balance l (bank.fee_pool_address c) fee.denom in
      let needed = outstanding_withheld_fees k now c fee.denom + fee.amount in
      let eligible = eligible_addrs k c bonded in
      (l' ≡ l)
      × (((balance < needed)
            × (k' ≡ set_epoch_share_record (update_consumer_debt_status k c true) c now 0))
          ⊎ ((needed ≤ balance)
              × (0 < length eligible)
              × (bank.input_output_coins l (bank.fee_pool_address c)
                    (record { denom = share.denom; amount = share.amount * length eligible })
                    (share_outputs share eligible)
                  ≡ none)
              × (k' ≡ set_epoch_share_record k c now 0)))

  refused_payment :
      (l : bank.Ledger) (c : ℕ) (share : Coin) (eligible : List ℕ)
      → pay_eligible bank l c share eligible ≡ none
      → (0 < length eligible)
        × (bank.input_output_coins l
              (bank.fee_pool_address c)
              (record { denom = share.denom; amount = share.amount * length eligible })
              (share_outputs share eligible)
            ≡ none)
  unfolding pay_eligible
  refused_payment l c share eligible h = elim (Bool-cases (ltb 0 (length eligible))) [
    | inl some_left ↦ (ground (arith, some_left), ground (arith, some_left, h))
    | inr none_left ↦ ground (arith, none_left, h)
  ]

  pub pay_consumer-outcome :
      (k : Keeper) (l : bank.Ledger) (now : ℕ) (bonded : List BondedVal) (c : ℕ) (fee share : Coin)
      (k' : Keeper) (l' : bank.Ledger)
      → pay_consumer bank k l now bonded c fee share ≡ some (k', l')
      → IsSkipped k l now bonded c fee share k' l' ⊎ IsPaid k l now bonded c fee share k' l'
  unfolding pay_consumer
  pay_consumer-outcome k l now bonded c fee share k' l' h =
      let balance = bank.balance l (bank.fee_pool_address c) fee.denom in
      let outstanding = outstanding_withheld_fees k now c fee.denom in
      elim (Bool-cases (ltb_ℤ (sub_ℕ balance outstanding) (pos fee.amount))) [
        | inl short ↦
            inl (ground (arith, short, h), inl (ground (arith, short), ground (arith, short, h)))
        | inr funded ↦
            elim (Option-cases (pay_eligible bank l c share (eligible_addrs k c bonded))) [
              | inl refused ↦
                  let (some_left, no_payment) =
                    refused_payment l c share (eligible_addrs k c bonded) refused in
                  inl (
                    ground (arith, funded, refused, h),
                    inr (
                      ground (arith, funded),
                      some_left,
                      no_payment,
                      ground (arith, funded, refused, h),
                    ),
                  )
              | inr (l₁, paid) ↦
                  elim (Option-cases (settle k now c share (excluded_cons_addrs k c bonded))) [
                    | inl panics ↦ ground (arith, funded, paid, panics, h)
                    | inr (k₁, settled) ↦ inr (record {
                      funded = ground (arith, funded);
                      paid = ground (arith, funded, paid, settled, h);
                      settled = ground (arith, funded, paid, settled, h);
                    })
                  ]
            ]
      ]
