-- ===== src/Provider/Assembly/Distinct.antt =====
-- An assembled validator set lists no consumer address twice, so no public key either
-- (x/vaas/provider/keeper/validator_set_update.go).
use vaas.Base.{
  ℕ, ◌<◌, ◌⊎◌, ◌≡◌, refl, sym, ap, subst, Option, none, some, List, [], ◌∷◌, ltb, ◌==◌, nat_eq,
  arith, Bool-cases, Option-cases, inl, inr, All,
}
use vaas.Base.Store.{Store, get, set, IsStore, set-IsStore, set-All}
use vaas.ValidatorSet.{ConsensusValidator, find}
use vaas.ValidatorSet.Diff.{IsDistinct}
use vaas.Provider.Assembly.{
  StakingValidator, consumer_key, create_consumer_validator, keep_least, entries, assemble,
  create_consumer_validators,
}

-- Each entry stands under the address of its key, and has a power.
abbrev pub IsFiled : (ℕ → Option ℕ) → ℕ × ConsensusValidator → Type 0
IsFiled cons_addr_of x = (cons_addr_of x.1.public_key ≡ some x.0) × (0 < x.1.power)

-- What the assembled store satisfies.
abbrev pub IsAssembled : (ℕ → Option ℕ) → Store ℕ ConsensusValidator → Type 0
IsAssembled cons_addr_of m = IsStore m × All (IsFiled cons_addr_of) m

-- x/staking keeps a last power only for validators of positive power.
abbrev pub HasPositivePower : StakingValidator → Type 0
HasPositivePower v = (power : ℕ) → v.last_power ≡ some power → 0 < power

create_consumer_validator-power :
    (assigned : Store (ℕ × ℕ) ℕ) (stored : List ConsensusValidator) (height consumer : ℕ)
    (v : StakingValidator) (n : ConsensusValidator)
    → create_consumer_validator assigned stored height consumer v ≡ some n
    → v.last_power ≡ some n.power
unfolding create_consumer_validator
create_consumer_validator-power assigned stored height consumer v n run =
    elim (Option-cases v.last_power) [
      | inl missing ↦ ground (arith, run, missing)
      | inr (power, known) ↦ elim (Option-cases v.cons_addr) [
        | inl missing ↦ ground (arith, run, known, missing)
        | inr (addr, at) ↦ elim (Option-cases (consumer_key assigned consumer addr v)) [
          | inl missing ↦ ground (arith, run, known, at, missing)
          | inr (key, uses) ↦ ground (arith, run, known, at, uses)
        ]
      ]
    ]

pub keep_least-cases :
    (addr : ℕ) (v : ConsensusValidator) (m : Store ℕ ConsensusValidator)
    → (keep_least addr v m ≡ set addr v m) ⊎ (keep_least addr v m ≡ m)
unfolding keep_least
keep_least-cases addr v m = elim (Option-cases (get addr m)) [
  | inl free ↦ inl (ground (arith, free))
  | inr (old, taken) ↦ elim (Bool-cases (ltb v.provider_cons_addr old.provider_cons_addr)) [
    | inl less ↦ inl (ground (arith, taken, less))
    | inr more ↦ inr (ground (arith, taken, more))
  ]
]

module _ (cons_addr_of : ℕ → Option ℕ) where
  keep_least-IsAssembled :
      (addr : ℕ) (v : ConsensusValidator) (m : Store ℕ ConsensusValidator)
      → IsFiled cons_addr_of (addr, v)
      → IsAssembled cons_addr_of m
      → IsAssembled cons_addr_of (keep_least addr v m)
  keep_least-IsAssembled addr v m new h =
      let written : IsAssembled cons_addr_of (set addr v m) =
        (set-IsStore addr v m h.0, set-All (IsFiled cons_addr_of) addr v m new h.1) in
      elim (keep_least-cases addr v m) [
        | inl replaced ↦ subst (IsAssembled cons_addr_of) (sym replaced) written
        | inr left ↦ subst (IsAssembled cons_addr_of) (sym left) h
      ]

  pub assemble-IsAssembled :
      (assigned : Store (ℕ × ℕ) ℕ) (stored : List ConsensusValidator) (height consumer : ℕ)
      (m m' : Store ℕ ConsensusValidator) (bonded : List StakingValidator)
      → All HasPositivePower bonded
      → IsAssembled cons_addr_of m
      → assemble cons_addr_of assigned stored height consumer m bonded ≡ some m'
      → IsAssembled cons_addr_of m'
  unfolding assemble
  assemble-IsAssembled assigned stored height consumer m m' [] powers h run =
      subst (IsAssembled cons_addr_of) (ground (arith, run)) h
  assemble-IsAssembled assigned stored height consumer m m' (v ∷ vs) powers h run =
      elim (Option-cases (create_consumer_validator assigned stored height consumer v)) [
        | inl failed ↦ ground (arith, run, failed)
        | inr (n, made) ↦ elim (Option-cases (cons_addr_of n.public_key)) [
          | inl failed ↦ ground (arith, run, made, failed)
          | inr (addr, at) ↦
              let power =
                create_consumer_validator-power assigned stored height consumer v n made in
              assemble-IsAssembled assigned stored height consumer (keep_least addr n m) m' vs
                powers.1 (keep_least-IsAssembled addr n m (at, powers.0 n.power power) h)
                (ground (arith, run, made, at))
        ]
      ]

  -- A key whose address is not in the store is not listed.
  find-entries :
      (key addr : ℕ) (m : Store ℕ ConsensusValidator)
      → cons_addr_of key ≡ some addr
      → get addr m ≡ none
      → All (IsFiled cons_addr_of) m
      → find key (entries m) ≡ none
  unfolding find entries get
  find-entries key addr [] at absent filed = refl
  find-entries key addr (x ∷ m) at absent filed = elim (Bool-cases (x.1.public_key == key)) [
    | inl own ↦
        let same : x.1.public_key ≡ key = ground (arith, own) in
        ground (arith, absent, at, filed.0.0, ap cons_addr_of same)
    | inr other ↦
        ground (arith, other, absent, find-entries key addr m at (ground (arith, absent)) filed.1)
  ]

  pub entries-IsDistinct :
      (m : Store ℕ ConsensusValidator)
      → IsAssembled cons_addr_of m
      → IsDistinct (entries m) × All (λ w. 0 < w.power) (entries m)
  unfolding entries
  entries-IsDistinct [] h = (tt, tt)
  entries-IsDistinct (x ∷ m) h =
      let rest = entries-IsDistinct m (h.0.1, h.1.1) in
      ((find-entries x.1.public_key x.0 m h.1.0.0 h.0.0 h.1.1, rest.0), (h.1.0.1, rest.1))

  -- An assembled validator set lists no public key twice, and every power in it is positive, if the
  -- bonded validators' last powers are.
  pub create_consumer_validators-IsDistinct :
      (assigned : Store (ℕ × ℕ) ℕ) (stored next : List ConsensusValidator) (height consumer : ℕ)
      (bonded : List StakingValidator)
      → All HasPositivePower bonded
      → create_consumer_validators cons_addr_of assigned stored height consumer bonded ≡ some next
      → IsDistinct next × All (λ w. 0 < w.power) next
  unfolding create_consumer_validators
  create_consumer_validators-IsDistinct assigned stored next height consumer bonded powers run =
      elim (Option-cases (assemble cons_addr_of assigned stored height consumer [] bonded)) [
        | inl failed ↦ ground (arith, run, failed)
        | inr (m, made) ↦
            subst (λ (vs : List ConsensusValidator). IsDistinct vs × All (λ w. 0 < w.power) vs)
              (ground (arith, run, made))
              (entries-IsDistinct m (
                assemble-IsAssembled assigned stored height consumer [] m bonded powers (tt, tt)
                  made))
      ]
