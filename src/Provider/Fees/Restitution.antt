-- ===== src/Provider/Fees/Restitution.antt =====
-- PayWithheldFees makes every validator whole whose record is alive, and clears the consumer's
-- records (x/vaas/provider/keeper/fees.go).
use vaas.Base.{
  ℕ, ◌+◌, ◌≤◌, ◌≡◌, refl, ap, ◌∙◌, subst, true, false, ◌&&◌, Option, none, some, List, [], ◌∷◌,
  arith, ltb, ◌==◌, if◌then◌else◌, is_some, nat_eq, pair_eq, Bool-cases, inl, inr, All,
}
use vaas.Base.Store.{Store, get, select, remove, sum_by, get-remove, get-select}
use vaas.Provider.State.{Keeper, Coin, WithheldFeeRecord}
use vaas.Provider.Bank.{Bank, BankLaws, Spread, output_to, output_total}
use vaas.Provider.FeePool.{escrowed, outstanding_withheld_fees}
use vaas.Provider.Fees.{Staking}
use vaas.Provider.Fees.Run.{
  Withheld, remove_entries, payable_amount, pay_withheld_fee, pay_records, pay_withheld_fees,
}

-- What a record that is alive is owed in a denomination.
abbrev pub due : ℕ → ℕ → Withheld → ℕ
due now d x = if x.1.amount.denom == d && ltb now x.1.expires_at then x.1.amount.amount else 0

-- What a list of records is owed in a denomination, in all, and to one account.
unfoldable pub owed_total : ℕ → ℕ → List Withheld → ℕ
owed_total now d [] = 0
owed_total now d (x ∷ xs) = due now d x + owed_total now d xs

unfoldable pub owed_to : (ℕ → Option ℕ) → ℕ → ℕ → ℕ → List Withheld → ℕ
owed_to payee now a d [] = 0
owed_to payee now a d (x ∷ xs) =
    elim (payee x.0.1) [ none ↦ 0 | some b ↦ if b == a then due now d x else 0 ]
    + owed_to payee now a d xs

owed_total-select :
    (now c d : ℕ) (m : Store (ℕ × ℕ) WithheldFeeRecord)
    → owed_total now d (select (λ x. x.0.0 == c) m) ≡ sum_by (escrowed now c d) m
unfolding owed_total select sum_by
owed_total-select now c d [] = refl
owed_total-select now c d (x ∷ m) = ground (arith, owed_total-select now c d m)

-- The escrow of a consumer is what its records are owed.
owed_total-outstanding :
    (k : Keeper) (now c d : ℕ)
    → owed_total now d (select (λ x. x.0.0 == c) k.withheld_fee_records)
      ≡ outstanding_withheld_fees k now c d
unfolding outstanding_withheld_fees
owed_total-outstanding k now c d = owed_total-select now c d k.withheld_fee_records

-- A lookup after deleting the keys of some entries.
get-remove_entries :
    (j : ℕ × ℕ) (xs : List Withheld) (m : Store (ℕ × ℕ) WithheldFeeRecord)
    → get j (remove_entries xs m) ≡ (if is_some (get j xs) then none else get j m)
unfolding remove_entries get
get-remove_entries j [] m = refl
get-remove_entries j (x ∷ xs) m =
    ground (arith, get-remove_entries j xs (remove x.0 m), get-remove j x.0 m)

module _ (bank : Bank) (laws : BankLaws bank) (staking : Staking) (now c : ℕ) where
  -- A record's validator is registered, and its account accepts coins.
  abbrev pub IsPayee : Withheld → Type 0
  IsPayee x = (a : ℕ) × (staking.validator_by_cons_addr x.0.1 ≡ some a) × (bank.accepts a ≡ true)

  -- The payment of a positive amount that the pool holds.
  pay_withheld_fee-paid :
      (l : bank.Ledger) (x : Withheld) (b : ℕ)
      → staking.validator_by_cons_addr x.0.1 ≡ some b
      → bank.accepts b ≡ true
      → ltb now x.1.expires_at ≡ true
      → ltb 0 x.1.amount.amount ≡ true
      → x.1.amount.amount ≤ bank.balance l (bank.fee_pool_address c) x.1.amount.denom
      → Spread bank l
          (bank.fee_pool_address c)
          x.1.amount
          ((b, x.1.amount) ∷ [])
          (pay_withheld_fee bank l staking now c x)
  unfolding pay_withheld_fee payable_amount output_total
  pay_withheld_fee-paid l x b found ok live positive covered =
      let outs : List (ℕ × Coin) = (b, x.1.amount) ∷ [] in
      let (l', paid) =
        laws.input_output_covered l (bank.fee_pool_address c) x.1.amount outs ((ok, refl), tt)
          (ground arith) covered in
      subst (λ r. Spread bank l (bank.fee_pool_address c) x.1.amount outs r)
        (ground (arith, found, live, positive, covered, paid))
        (laws.input_output_spread l (bank.fee_pool_address c) x.1.amount outs l' paid)

  -- Nothing is paid of a record that has expired or is empty.
  pay_withheld_fee-idle :
      (l : bank.Ledger) (x : Withheld)
      → (ltb now x.1.expires_at && ltb 0 x.1.amount.amount) ≡ false
      → due now x.1.amount.denom x ≤ bank.balance l (bank.fee_pool_address c) x.1.amount.denom
      → pay_withheld_fee bank l staking now c x ≡ l
  unfolding pay_withheld_fee payable_amount
  pay_withheld_fee-idle l x idle covered = ground (arith, idle, covered)

  -- A balance after one record's payment.
  pay_withheld_fee-pays :
      (l : bank.Ledger) (x : Withheld)
      → IsPayee x
      → due now x.1.amount.denom x ≤ bank.balance l (bank.fee_pool_address c) x.1.amount.denom
      → (a d : ℕ)
      → bank.balance (pay_withheld_fee bank l staking now c x) a d
          + (if a == bank.fee_pool_address c then due now d x else 0)
        ≡ bank.balance l a d + owed_to staking.validator_by_cons_addr now a d (x ∷ [])
  unfolding owed_to output_to
  pay_withheld_fee-pays l x (b, found, ok) covered a d =
      elim (Bool-cases (ltb now x.1.expires_at && ltb 0 x.1.amount.amount)) [
        | inl live ↦ ground (
          arith,
          found,
          live,
          ap (λ r. r)
              (pay_withheld_fee-paid l x b found ok (ground (arith, live)) (ground (arith, live))
                (ground (arith, live, covered)) a d),
        )
        | inr idle ↦ ground (arith, found, idle, pay_withheld_fee-idle l x idle covered)
      ]

  pay_records-eq :
      (k : Keeper) (l : bank.Ledger) (xs : List Withheld)
      → (pay_records bank k l staking now c xs).0
        ≡ record k { withheld_fee_records = remove_entries xs k.withheld_fee_records }
  unfolding pay_records remove_entries
  pay_records-eq k l [] = refl
  pay_records-eq k l (x ∷ xs) =
      pay_records-eq (record k { withheld_fee_records = remove x.0 k.withheld_fee_records }) _ xs

  pay_records-pays :
      (k : Keeper) (l : bank.Ledger) (xs : List Withheld)
      → All IsPayee xs
      → ((d : ℕ) → owed_total now d xs ≤ bank.balance l (bank.fee_pool_address c) d)
      → (a d : ℕ)
      → bank.balance (pay_records bank k l staking now c xs).1 a d
          + (if a == bank.fee_pool_address c then owed_total now d xs else 0)
        ≡ bank.balance l a d + owed_to staking.validator_by_cons_addr now a d xs
  unfolding pay_records owed_total owed_to
  pay_records-pays k l [] payees covered a d = ground arith
  pay_records-pays k l (x ∷ xs) payees covered a d =
      let l₁ = pay_withheld_fee bank l staking now c x in
      let k₁ = record k { withheld_fee_records = remove x.0 k.withheld_fee_records } in
      let pays = pay_withheld_fee-pays l x payees.0 (omega (arith, covered x.1.amount.denom)) in
      let rest =
        pay_records-pays k₁ l₁ xs payees.1
          (λ d'. ground (arith, covered d', pays (bank.fee_pool_address c) d')) a d in
      ground (arith, pays a d, rest)

  abbrev pub records : Keeper → List Withheld
  records k = select (λ x. x.0.0 == c) k.withheld_fee_records

  -- After a successful challenge of a consumer's downtime evidence, every validator is paid exactly
  -- what its unexpired records hold, out of the consumer's pool and with no other balance changed,
  -- and the consumer's records are gone while those of other consumers stay. The pool holds the
  -- consumer's escrow, and the validators are registered under accounts that accept coins.
  pub pay_withheld_fees_makes_whole :
      (k : Keeper) (l : bank.Ledger)
      → All IsPayee (records k)
      → ((d : ℕ) → outstanding_withheld_fees k now c d ≤ bank.balance l (bank.fee_pool_address c) d)
      → let (k', l') = pay_withheld_fees bank k l staking now c in
        ((a d : ℕ)
          → bank.balance l' a d
              + (if a == bank.fee_pool_address c then outstanding_withheld_fees k now c d else 0)
            ≡ bank.balance l a d + owed_to staking.validator_by_cons_addr now a d (records k))
        × ((j : ℕ × ℕ)
            → get j k'.withheld_fee_records
              ≡ (if j.0 == c then none else get j k.withheld_fee_records))
  unfolding pay_withheld_fees
  pay_withheld_fees_makes_whole k l payees covered = (
    λ a d.
        let pays =
          pay_records-pays k l (records k) payees
            (λ d'. omega (arith, owed_total-outstanding k now c d', covered d')) a d in
        ground (arith, pays, owed_total-outstanding k now c d),
    λ j.
        ap (λ (k' : Keeper). get j k'.withheld_fee_records) (pay_records-eq k l (records k))
        ∙ ground (
          arith,
          get-remove_entries j (records k) k.withheld_fee_records,
          get-select (λ key. key.0 == c) j k.withheld_fee_records,
        ),
  )
