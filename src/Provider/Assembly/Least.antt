-- ===== src/Provider/Assembly/Least.antt =====
-- Of validators that share a consumer address the one with the least provider address is kept,
-- whatever the order of the bonded validators (x/vaas/provider/keeper/validator_set_update.go).
use vaas.Base.{
  Among, ℕ, ◌≤◌, ◌≡◌, refl, sym, All, ap, ◌∙◌, subst, Option, some, List, [], ◌∷◌, ltb, ◌==◌,
  nat_eq, arith, Bool-cases, Option-cases, inl, inr,
}
use vaas.Base.Store.{Store, get, get-set, set-All}
use vaas.ValidatorSet.{ConsensusValidator}
use vaas.Provider.Assembly.Distinct.{
  HasPositivePower, IsFiled, keep_least-cases, assemble-IsAssembled,
}
use vaas.Provider.Assembly.{
  StakingValidator, create_consumer_validator, keep_least, entries, assemble,
  create_consumer_validators,
}

-- The store has, under an address, an entry whose provider address is at most this one.
abbrev HasAtMost : Store ℕ ConsensusValidator → ℕ → ℕ → Type 0
HasAtMost m addr bound =
    (kept : ConsensusValidator) × (get addr m ≡ some kept) × (kept.provider_cons_addr ≤ bound)

keep_least-new :
    (addr : ℕ) (v : ConsensusValidator) (m : Store ℕ ConsensusValidator)
    → HasAtMost (keep_least addr v m) addr v.provider_cons_addr
unfolding keep_least
keep_least-new addr v m = elim (Option-cases (get addr m)) [
  | inl free ↦ (v, ground (arith, free, get-set addr addr v m), omega arith)
  | inr (old, taken) ↦ elim (Bool-cases (ltb v.provider_cons_addr old.provider_cons_addr)) [
    | inl less ↦ (v, ground (arith, taken, less, get-set addr addr v m), omega arith)
    | inr more ↦ (old, ground (arith, taken, more), ground (arith, more))
  ]
]

keep_least-old :
    (addr addr' bound : ℕ) (v : ConsensusValidator) (m : Store ℕ ConsensusValidator)
    → HasAtMost m addr' bound
    → HasAtMost (keep_least addr v m) addr' bound
unfolding keep_least
keep_least-old addr addr' bound v m (kept, found, below) = elim (Bool-cases (addr == addr')) [
  | inl same ↦
      let found' : get addr m ≡ some kept =
        ap (λ (a : ℕ). get a m) (ground (arith, same)) ∙ found in
      elim (Bool-cases (ltb v.provider_cons_addr kept.provider_cons_addr)) [
        | inl less ↦ (
          v,
          ground (arith, same, found', less, get-set addr' addr v m),
          ground (arith, less, below),
        )
        | inr more ↦ (kept, ground (arith, found', more, found), below)
      ]
  | inr other ↦ (kept, ground (arith, other, found, get-set addr' addr v m), below)
]

-- A validator of the set that a bonded one became.
abbrev pub IsMadeFrom :
    Store (ℕ × ℕ) ℕ
    → List ConsensusValidator
    → ℕ
    → ℕ
    → List StakingValidator
    → ConsensusValidator
    → Type 0
IsMadeFrom assigned stored height consumer bonded n =
    (v : StakingValidator) × Among v bonded
    × (create_consumer_validator assigned stored height consumer v ≡ some n)

module _ (cons_addr_of : ℕ → Option ℕ) (assigned : Store (ℕ × ℕ) ℕ)
    (stored : List ConsensusValidator) (height consumer : ℕ) where
  -- A round of the loop that succeeds.
  assemble-step :
      (m m' : Store ℕ ConsensusValidator) (v : StakingValidator) (vs : List StakingValidator)
      → assemble cons_addr_of assigned stored height consumer m (v ∷ vs) ≡ some m'
      → (n : ConsensusValidator) × (addr : ℕ) × (create_consumer_validator assigned stored height
            consumer v
          ≡ some n)
        × (cons_addr_of n.public_key ≡ some addr)
        × (assemble cons_addr_of assigned stored height consumer (keep_least addr n m) vs ≡ some m')
  unfolding assemble
  assemble-step m m' v vs run =
      elim (Option-cases (create_consumer_validator assigned stored height consumer v)) [
        | inl failed ↦ ground (arith, run, failed)
        | inr (n, made) ↦ elim (Option-cases (cons_addr_of n.public_key)) [
          | inl failed ↦ ground (arith, run, made, failed)
          | inr (addr, at) ↦ (n, addr, made, at, ground (arith, run, made, at))
        ]
      ]

  assemble-nil :
      (m m' : Store ℕ ConsensusValidator)
      → assemble cons_addr_of assigned stored height consumer m [] ≡ some m'
      → m ≡ m'
  unfolding assemble
  assemble-nil m m' run = ground (arith, run)

  assemble-old :
      (m m' : Store ℕ ConsensusValidator) (bonded : List StakingValidator) (addr bound : ℕ)
      → assemble cons_addr_of assigned stored height consumer m bonded ≡ some m'
      → HasAtMost m addr bound
      → HasAtMost m' addr bound
  assemble-old m m' [] addr bound run h =
      subst (λ (t : Store ℕ ConsensusValidator). HasAtMost t addr bound) (assemble-nil m m' run) h
  assemble-old m m' (v ∷ vs) addr bound run h =
      let (n, addr', made, at, rest) = assemble-step m m' v vs run in
      assemble-old (keep_least addr' n m) m' vs addr bound rest
        (keep_least-old addr' addr bound n m h)

  assemble-new :
      (m m' : Store ℕ ConsensusValidator) (bonded : List StakingValidator) (v : StakingValidator)
      (n : ConsensusValidator)
      → assemble cons_addr_of assigned stored height consumer m bonded ≡ some m'
      → Among v bonded
      → create_consumer_validator assigned stored height consumer v ≡ some n
      → (addr : ℕ) × (cons_addr_of n.public_key ≡ some addr)
        × HasAtMost m' addr n.provider_cons_addr
  assemble-new m m' [] v n run h made = absurd h
  assemble-new m m' (w ∷ ws) v n run (inl same) made =
      let (n', addr, made', at, rest) = assemble-step m m' w ws run in
      let equal : n' ≡ n = ground (
        arith,
        made,
        made',
        ap (λ (x : StakingValidator). create_consumer_validator assigned stored height consumer x)
            same,
      ) in
      subst
        (λ (x : ConsensusValidator).
          (a : ℕ) × (cons_addr_of x.public_key ≡ some a) × HasAtMost m' a x.provider_cons_addr)
        equal
        (
          addr,
          at,
          assemble-old (keep_least addr n' m) m' ws addr n'.provider_cons_addr rest
              (keep_least-new addr n' m),
        )
  assemble-new m m' (w ∷ ws) v n run (inr later) made =
      let (n', addr, made', at, rest) = assemble-step m m' w ws run in
      assemble-new (keep_least addr n' m) m' ws v n rest later made

  -- A predicate that the bonded validators' entries satisfy, all entries do.
  assemble-All :
      (P : ConsensusValidator → Type 0) (m m' : Store ℕ ConsensusValidator)
      (bonded : List StakingValidator)
      → ((v : StakingValidator) (n : ConsensusValidator)
          → Among v bonded
          → create_consumer_validator assigned stored height consumer v ≡ some n
          → P n)
      → All (λ x. P x.1) m
      → assemble cons_addr_of assigned stored height consumer m bonded ≡ some m'
      → All (λ x. P x.1) m'
  assemble-All P m m' [] each h run =
      subst (λ (t : Store ℕ ConsensusValidator). All (λ x. P x.1) t) (assemble-nil m m' run) h
  assemble-All P m m' (v ∷ vs) each h run =
      let (n, addr, made, at, rest) = assemble-step m m' v vs run in
      let next : All (λ x. P x.1) (keep_least addr n m) = elim (keep_least-cases addr n m) [
        | inl replaced ↦
            subst (λ (t : Store ℕ ConsensusValidator). All (λ x. P x.1) t) (sym replaced)
              (set-All (λ x. P x.1) addr n m (each v n (inl refl) made) h)
        | inr left ↦ subst (λ (t : Store ℕ ConsensusValidator). All (λ x. P x.1) t) (sym left) h
      ] in
      assemble-All P (keep_least addr n m) m' vs (λ w k among. each w k (inr among)) next rest

-- What a lookup finds is an entry, and satisfies what all entries do.
get-entry :
    (P : ℕ × ConsensusValidator → Type 0) (addr : ℕ) (m : Store ℕ ConsensusValidator)
    (v : ConsensusValidator)
    → All P m
    → get addr m ≡ some v
    → Among v (entries m) × P (addr, v)
unfolding get entries
get-entry P addr [] v h found = ground (arith, found)
get-entry P addr (x ∷ m) v h found = elim (Bool-cases (x.0 == addr)) [
  | inl own ↦
      let same : x.1 ≡ v = ground (arith, own, found) in
      let here : x.0 ≡ addr = ground (arith, own) in
      (
        inl same,
        subst (λ (a : ℕ). P (a, v)) here (subst (λ (w : ConsensusValidator). P (x.0, w)) same h.0),
      )
  | inr other ↦
      let (among, holds) = get-entry P addr m v h.1 (ground (arith, other, found)) in
      (inr among, holds)
]

-- Each bonded validator is represented in an assembled set by a validator at the same consumer
-- address whose provider address is at most its own, and which is itself made from a bonded
-- validator, if the bonded validators' last powers are positive.
pub least_provider_address_is_kept :
    (cons_addr_of : ℕ → Option ℕ) (assigned : Store (ℕ × ℕ) ℕ)
    (stored next : List ConsensusValidator) (height consumer : ℕ) (bonded : List StakingValidator)
    (v : StakingValidator) (n : ConsensusValidator)
    → All HasPositivePower bonded
    → create_consumer_validators cons_addr_of assigned stored height consumer bonded ≡ some next
    → Among v bonded
    → create_consumer_validator assigned stored height consumer v ≡ some n
    → (kept : ConsensusValidator) × Among kept next
      × (cons_addr_of kept.public_key ≡ cons_addr_of n.public_key)
      × (kept.provider_cons_addr ≤ n.provider_cons_addr)
      × IsMadeFrom assigned stored height consumer bonded kept
unfolding create_consumer_validators
least_provider_address_is_kept cons_addr_of assigned stored next height consumer bonded v n powers
      run among made =
    elim (Option-cases (assemble cons_addr_of assigned stored height consumer [] bonded)) [
      | inl failed ↦ ground (arith, run, failed)
      | inr (m, done) ↦
          let (addr, at, (kept, found, below)) =
            assemble-new cons_addr_of assigned stored height consumer [] m bonded v n done among
              made in
          let filed =
            assemble-IsAssembled cons_addr_of assigned stored height consumer [] m bonded powers
              (tt, tt) done in
          let from =
            assemble-All cons_addr_of assigned stored height consumer
              (IsMadeFrom assigned stored height consumer bonded) [] m bonded (λ w k a e. (w, a, e))
              tt done in
          let (listed, stands) = get-entry (IsFiled cons_addr_of) addr m kept filed.1 found in
          let (_, origin) =
            get-entry (λ x. IsMadeFrom assigned stored height consumer bonded x.1) addr m kept from
              found in
          let same : entries m ≡ next = ground (arith, run, done) in
          (
            kept,
            subst (λ (t : List ConsensusValidator). Among kept t) same listed,
            ground (arith, stands.0, at),
            below,
            origin,
          )
    ]
