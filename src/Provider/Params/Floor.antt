-- ===== src/Provider/Params/Floor.antt =====
-- A consumer's own fee per block stays above the module's (x/vaas/provider/keeper/params.go and
-- msg_server.go).
use vaas.Base.{
  ℕ, ◌≤◌, ◌<◌, ◌≡◌, subst, Bool, true, false, Option, none, some, List, [], ◌∷◌, ltb, ◌==◌, nat_eq,
  arith, Bool-cases, Option-cases, inl, inr, OnSome, OnSome-found,
}
use native.Mathlib.Nat.{mul-le-mul_right}
use vaas.Base.Store.{Store, get, remove, get-set, get-remove}
use vaas.Provider.State.{Keeper, Params, get_consumer_phase}
use vaas.Provider.Fees.{get_fees_per_block, default_fee_per_epoch, effective_fees_per_epoch}
use vaas.Provider.Params.{
  not_above, remove_overrides, reconcile_fees_per_block_overrides, update_params, is_known,
  override_known, set_consumer_fees_per_block,
}

-- Every stored override is above a floor.
abbrev pub AllAbove : ℕ → Store ℕ ℕ → Type 0
AllAbove floor m = (c amount : ℕ) → get c m ≡ some amount → floor < amount

abbrev pub IsAboveFloor : Keeper → Type 0
IsAboveFloor k = AllAbove k.params.fees_per_block_amount k.consumer_fees_per_block_override

-- What changes the overrides or the default: a parameter update, the setting of an override, and steps
-- that only delete overrides.
pub data FeeStep (k k' : Keeper) : Type 0 where
  update_step : (params : Params) → update_params k params ≡ k' → FeeStep k k'
  override_step :
      (authorized : Bool) (consumer : ℕ) (amount : Option ℕ)
      → set_consumer_fees_per_block k authorized consumer amount ≡ some k'
      → FeeStep k k'
  other_step :
      k'.params.fees_per_block_amount ≡ k.params.fees_per_block_amount
      → ((c amount : ℕ)
          → get c k'.consumer_fees_per_block_override ≡ some amount
          → get c k.consumer_fees_per_block_override ≡ some amount)
      → FeeStep k k'

pub data FeeHistory (k : Keeper) : Keeper → Type 0 where
  no_step : FeeHistory k k
  next_step : {k₁ k₂ : Keeper} → FeeHistory k k₁ → FeeStep k₁ k₂ → FeeHistory k k₂

-- What is left was there, and is not listed.
get-remove_overrides :
    (c amount : ℕ) (is : List ℕ) (m : Store ℕ ℕ)
    → get c (remove_overrides is m) ≡ some amount
    → get c m ≡ some amount
unfolding remove_overrides
get-remove_overrides c amount [] m h = h
get-remove_overrides c amount (i ∷ is) m h =
    ground (arith, get-remove_overrides c amount is (remove i m) h, get-remove c i m)

removed-AllAbove :
    (floor c amount : ℕ) (xs m : Store ℕ ℕ)
    → get c xs ≡ some amount
    → get c (remove_overrides (not_above floor xs) m) ≡ some amount
    → floor < amount
unfolding not_above remove_overrides get
removed-AllAbove floor c amount [] m listed left = ground (arith, listed)
removed-AllAbove floor c amount (x ∷ xs) m listed left = elim (Bool-cases (ltb floor x.1)) [
  | inl above ↦ elim (Bool-cases (x.0 == c)) [
    | inl here ↦ ground (arith, above, here, listed)
    | inr later ↦
        removed-AllAbove floor c amount xs m (ground (arith, later, listed))
          (ground (arith, above, left))
  ]
  | inr below ↦
      let left' : get c (remove_overrides (not_above floor xs) (remove x.0 m)) ≡ some amount =
        ground (arith, below, left) in
      elim (Bool-cases (x.0 == c)) [
        | inl here ↦ ground (
          arith,
          here,
          get-remove_overrides c amount (not_above floor xs) (remove x.0 m) left',
          get-remove c x.0 m,
        )
        | inr later ↦
            removed-AllAbove floor c amount xs (remove x.0 m) (ground (arith, later, listed)) left'
      ]
]

update_params-IsAboveFloor :
    (k : Keeper) (params : Params) → IsAboveFloor k → IsAboveFloor (update_params k params)
unfolding update_params reconcile_fees_per_block_overrides
update_params-IsAboveFloor k params v =
    let m = k.consumer_fees_per_block_override in
    let floor = params.fees_per_block_amount in
    elim (Bool-cases (ltb k.params.fees_per_block_amount floor)) [
      | inl raised ↦ rw raised (λ c amount left.
          removed-AllAbove floor c amount m m
            (get-remove_overrides c amount (not_above floor m) m left) left)
      | inr kept ↦ rw kept (λ c amount found. ground (arith, kept, v c amount found))
    ]

known_override-IsAboveFloor :
    (k : Keeper) (consumer : ℕ) (amount : Option ℕ)
    → IsAboveFloor k
    → OnSome IsAboveFloor (override_known k consumer amount)
unfolding override_known
known_override-IsAboveFloor k consumer none v = λ c a found.
    ground (arith, found, v c a, get-remove c consumer k.consumer_fees_per_block_override)
known_override-IsAboveFloor k consumer (some amt) v =
    elim (Bool-cases (ltb k.params.fees_per_block_amount amt)) [
      | inl above ↦
          rw (OnSome, above)
            (λ c a found. ground (
              arith,
              above,
              found,
              v c a,
              get-set c consumer amt k.consumer_fees_per_block_override,
            ))
      | inr below ↦ rw (OnSome, below) tt
    ]

override-IsAboveFloor :
    (k : Keeper) (authorized : Bool) (consumer : ℕ) (amount : Option ℕ)
    → IsAboveFloor k
    → OnSome IsAboveFloor (set_consumer_fees_per_block k authorized consumer amount)
unfolding set_consumer_fees_per_block
override-IsAboveFloor k false consumer amount v = tt
override-IsAboveFloor k true consumer amount v =
    elim (Bool-cases (is_known (get_consumer_phase k consumer))) [
      | inr unknown ↦ rw (OnSome, unknown) tt
      | inl known ↦ rw (OnSome, known) (known_override-IsAboveFloor k consumer amount v)
    ]

FeeStep-IsAboveFloor : (k k' : Keeper) → FeeStep k k' → IsAboveFloor k → IsAboveFloor k'
FeeStep-IsAboveFloor k k' (update_step params same) v =
    subst IsAboveFloor same (update_params-IsAboveFloor k params v)
FeeStep-IsAboveFloor k k' (override_step authorized consumer amount run) v =
    OnSome-found IsAboveFloor (set_consumer_fees_per_block k authorized consumer amount) k'
      (override-IsAboveFloor k authorized consumer amount v) run
FeeStep-IsAboveFloor k k' (other_step same was) v =
    λ c amount found. omega (arith, same, v c amount (was c amount found))

History-IsAboveFloor : {k k' : Keeper} → FeeHistory k k' → IsAboveFloor k → IsAboveFloor k'
History-IsAboveFloor no_step v = v
History-IsAboveFloor {k' = k'} (next_step {k₁} h s) v =
    FeeStep-IsAboveFloor k₁ k' s (History-IsAboveFloor h v)

effective-le :
    (k : Keeper) (c : ℕ)
    → IsAboveFloor k
    → (default_fee_per_epoch k).amount
      ≤ (effective_fees_per_epoch k c (default_fee_per_epoch k) (get_fees_per_block k)).0.amount
unfolding default_fee_per_epoch effective_fees_per_epoch get_fees_per_block
effective-le k c v = elim (Option-cases (get c k.consumer_fees_per_block_override)) [
  | inl absent ↦ rw (effective_fees_per_epoch, absent) (omega arith)
  | inr (amount, found) ↦
      rw (effective_fees_per_epoch, found)
        (mul-le-mul_right k.params.blocks_per_epoch (omega (arith, v c amount found)))
]

-- Where every override of the fee per block is above the default, it is after any sequence of
-- parameter updates, settings of overrides and steps that only delete overrides; and then no
-- consumer's fee for an epoch is below the default fee for an epoch.
pub no_consumer_pays_less :
    (k k' : Keeper) (c : ℕ)
    → IsAboveFloor k
    → FeeHistory k k'
    → IsAboveFloor k'
      × ((default_fee_per_epoch k').amount
          ≤ (effective_fees_per_epoch k' c
              (default_fee_per_epoch k')
              (get_fees_per_block k')).0.amount)
no_consumer_pays_less k k' c v h = let v' = History-IsAboveFloor h v in (v', effective-le k' c v')
