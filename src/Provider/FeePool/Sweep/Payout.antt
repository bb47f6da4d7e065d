-- ===== src/Provider/FeePool/Sweep/Payout.antt =====
-- The payout loop of a sweep: what each account has received.
use native.Mathlib.Nat.{div-mul-le_self, zero-mul, zero-div}
use vaas.Base.{
  ℕ, ◌+◌, ◌*◌, ◌/◌, ◌≤◌, ◌≡◌, ◌≢◌, refl, sym, ◌∙◌, subst, ap, Bool, true, false, ◌||◌, Option, none,
  some, List, [], ◌∷◌, ◌==◌, ==_iff, arith, if◌then◌else◌, value_or, All, Bool-cases, inl, inr,
  nat_eq, pair_eq,
}
use vaas.Base.Store.{select, sum_by, get, IsStore}
use vaas.Provider.Bank.{Bank, BankLaws, Moved}
use vaas.Provider.FeePool.{of_pool}
use vaas.Provider.FeePool.Ledger.{in_pool}
use vaas.Provider.FeePool.Sweep.{Entry, pay_slice, pay_shares}

module _ (balance total : ℕ) where
  -- What all the entries are paid, and what one account is paid.
  unfoldable pub paid_total : List Entry → ℕ
  paid_total [] = 0
  paid_total (x ∷ rest) = x.1 * balance / total + paid_total rest

  unfoldable pub paid_to : ℕ → List Entry → ℕ
  paid_to a [] = 0
  paid_to a (x ∷ rest) = (if x.0.1.1 == a then x.1 * balance / total else 0) + paid_to a rest

  -- The slices of a pool sum to no more than the shares' part of the balance.
  pub paid_total-le :
      (c d : ℕ) (m : List Entry)
      → paid_total (select (λ x. of_pool c d x.0) m) * total ≤ sum_by (in_pool c d) m * balance
  unfolding paid_total select sum_by
  paid_total-le c d [] = omega arith
  paid_total-le c d (x ∷ m) =
      let rest = paid_total-le c d m in
      let slice = div-mul-le_self (x.1 * balance) total in
      elim (Bool-cases (of_pool c d x.0)) [
        | inl here ↦ rw here (omega (arith, rest, slice))
        | inr elsewhere ↦ rw elsewhere (omega (arith, rest))
      ]

  paid_to-absent :
      (c d a : ℕ) (m : List Entry)
      → get (c, (d, a)) m ≡ none
      → paid_to a (select (λ x. of_pool c d x.0) m) ≡ 0
  unfolding paid_to select get
  paid_to-absent c d a [] h = refl
  paid_to-absent c d a (x ∷ m) h = elim (Bool-cases (of_pool c d x.0)) [
    | inl here ↦ rw here (ground (arith, paid_to-absent c d a m))
    | inr elsewhere ↦ rw elsewhere (ground (arith, paid_to-absent c d a m))
  ]

  -- An account is paid its floor share.
  pub paid_to-eq :
      (c d a : ℕ) (m : List Entry)
      → IsStore m
      → paid_to a (select (λ x. of_pool c d x.0) m)
        ≡ value_or 0 (get (c, (d, a)) m) * balance / total
  unfolding paid_to select get
  paid_to-eq c d a [] h = rw (zero-mul balance, zero-div total)
  paid_to-eq c d a (x ∷ m) h =
      let rest = paid_to-eq c d a m h.1 in
      elim (Bool-cases (of_pool c d x.0)) [
        | inl here ↦ rw here (
            ground (
              arith,
              rest,
              paid_to-absent c d a m,
              ==_iff x.0.0 c,
              ==_iff x.0.1.0 d,
              ==_iff x.0.1.1 a,
              key-absent c d a x m h.0,
            ))
        | inr elsewhere ↦ rw elsewhere (ground (arith, rest))
      ]
    where
      key-absent :
          (c d a : ℕ) (x : Entry) (m : List Entry)
          → get x.0 m ≡ none
          → x.0 ≡ (c, (d, a))
          → get (c, (d, a)) m ≡ none
      key-absent c d a x m absent same = subst (λ (j : ℕ × (ℕ × ℕ)). get j m ≡ none) same absent

module _ (bank : Bank) where
  -- A depositor that can be paid: the distribution module, or an account that accepts coins; and not
  -- the paying module's own account.
  abbrev pub can_be_paid : ℕ → Bool
  can_be_paid depositor = depositor == bank.distribution_module || bank.accepts depositor

  abbrev pub IsPayable : Entry → Type 0
  IsPayable x = (can_be_paid x.0.1.1 ≡ true) × (x.0.1.1 ≢ bank.provider_module)

module _ (bank : Bank) (laws : BankLaws bank) (denom balance total : ℕ) where
  abbrev pub SliceMoved : bank.Ledger → ℕ → ℕ → bank.Ledger → Type 0
  SliceMoved l depositor slice l' =
      Moved bank l bank.provider_module depositor (record { denom = denom; amount = slice }) l'

  -- A slice that the provider module's account covers reaches its depositor.
  pay_slice-Moved :
      (l : bank.Ledger) (depositor slice : ℕ)
      → bank.provider_module ≢ bank.distribution_module
      → can_be_paid bank depositor ≡ true
      → depositor ≢ bank.provider_module
      → slice ≤ bank.balance l bank.provider_module denom
      → (l' : bank.Ledger) × (pay_slice bank l denom depositor slice ≡ some l')
        × SliceMoved l depositor slice l'
  unfolding pay_slice
  pay_slice-Moved l a slice ne ok other covered =
      elim (Bool-cases (a == bank.distribution_module)) [
        | inl here ↦ rw here (
            rw ((==_iff a bank.distribution_module).0 here)
              (laws.fund_covered l bank.provider_module _ ne covered))
        | inr elsewhere ↦ rw elsewhere (
            laws.send_covered l bank.provider_module a _ (λ e. other (sym e)) covered
              (rw elsewhere at ok))
      ]

  abbrev pub Paid : bank.Ledger → List Entry → ℕ → Option (bank.Ledger × ℕ) → bank.Ledger → Type 0
  Paid l xs distributed r l' =
      (r ≡ some (l', distributed + paid_total balance total xs))
      × (bank.balance l' bank.provider_module denom + paid_total balance total xs
          ≡ bank.balance l bank.provider_module denom)
      × ((a : ℕ)
          → a ≢ bank.provider_module
          → bank.balance l' a denom ≡ bank.balance l a denom + paid_to balance total a xs)

  pay_shares-nothing :
      (x : Entry) (xs : List Entry) (l : bank.Ledger) (distributed : ℕ)
      → (x.1 * balance / total == 0) ≡ true
      → pay_shares bank denom balance total (x ∷ xs) l distributed
        ≡ pay_shares bank denom balance total xs l distributed
  unfolding pay_shares
  pay_shares-nothing x xs l distributed h = rw (h, pay_shares)

  pay_shares-sent :
      (x : Entry) (xs : List Entry) (l l' : bank.Ledger) (distributed : ℕ)
      → (x.1 * balance / total == 0) ≡ false
      → pay_slice bank l denom x.0.1.1 (x.1 * balance / total) ≡ some l'
      → pay_shares bank denom balance total (x ∷ xs) l distributed
        ≡ pay_shares bank denom balance total xs l' (distributed + x.1 * balance / total)
  unfolding pay_shares
  pay_shares-sent x xs l l' distributed h e = rw (h, e, pay_shares)

  -- A slice of zero, or one that was sent, followed by the payment of the rest.
  Paid-cons :
      (x : Entry) (xs : List Entry) (l l₁ l' : bank.Ledger) (distributed : ℕ)
      (r : Option (bank.Ledger × ℕ))
      → bank.balance l₁ bank.provider_module denom + x.1 * balance / total
        ≡ bank.balance l bank.provider_module denom
      → ((a : ℕ)
          → a ≢ bank.provider_module
          → bank.balance l₁ a denom
            ≡ bank.balance l a denom + (if x.0.1.1 == a then x.1 * balance / total else 0))
      → Paid l₁ xs (distributed + x.1 * balance / total) r l'
      → Paid l (x ∷ xs) distributed r l'
  unfolding paid_total paid_to
  Paid-cons x xs l l₁ l' distributed r sent received (e, left, got) = (
    e ∙ ap (λ (n : ℕ). some (l', n)) (omega arith),
    omega arith,
    λ a other. omega (arith, received a other, got a other),
  )

  pub SliceMoved-received :
      (l l' : bank.Ledger) (depositor slice : ℕ)
      → SliceMoved l depositor slice l'
      → (a : ℕ) → a ≢ bank.provider_module
      → bank.balance l' a denom ≡ bank.balance l a denom + (if depositor == a then slice else 0)
  SliceMoved-received l l' depositor slice moved a other = elim (Bool-cases (depositor == a)) [
    | inl own ↦
        let here : depositor ≡ a = ground arith in
        rw own (
          subst (λ (j : ℕ). bank.balance l' j denom ≡ bank.balance l j denom + slice) here
            moved.received)
    | inr elsewhere ↦ rw elsewhere (omega (arith, moved.others a other (λ e. ground arith)))
  ]

  -- The loop pays every entry its slice out of the provider module's account.
  pub pay_shares-Paid :
      (xs : List Entry) (l : bank.Ledger) (distributed : ℕ)
      → bank.provider_module ≢ bank.distribution_module
      → All (IsPayable bank) xs
      → paid_total balance total xs ≤ bank.balance l bank.provider_module denom
      → (l' : bank.Ledger) × Paid l xs distributed
          (pay_shares bank denom balance total xs l distributed)
          l'
  unfolding paid_total
  pay_shares-Paid [] l distributed ne ok covered =
      (l, unfold pay_shares paid_to in (ground arith, ground arith, λ a other. ground arith))
  pay_shares-Paid (x ∷ xs) l distributed ne ok covered =
      elim (Bool-cases (x.1 * balance / total == 0)) [
        | inl nothing ↦
            let zero_slice : x.1 * balance / total ≡ 0 = ground arith in
            let (l', paid) = pay_shares-Paid xs l distributed ne ok.1 (omega arith) in
            let same_sum : distributed ≡ distributed + x.1 * balance / total = omega arith in
            (
              l',
              rw (pay_shares-nothing x xs l distributed nothing) (
                  Paid-cons x xs l l l' distributed _ (omega arith) (λ a other. ground arith)
                    (subst
                      (λ (n : ℕ).
                        Paid l xs n (pay_shares bank denom balance total xs l distributed) l')
                      same_sum paid)),
            )
        | inr something ↦
            let (l₁, sent, moved) =
              pay_slice-Moved l x.0.1.1 (x.1 * balance / total) ne ok.0.0 ok.0.1 (omega arith) in
            let (l', paid) =
              pay_shares-Paid xs l₁ (distributed + x.1 * balance / total) ne ok.1
                (omega (arith, moved.paid)) in
            (
              l',
              rw (pay_shares-sent x xs l l₁ distributed something sent) (
                  Paid-cons x xs l l₁ l' distributed _ (omega (arith, moved.paid))
                    (SliceMoved-received l l₁ x.0.1.1 _ moved) paid),
            )
      ]
