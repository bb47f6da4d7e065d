-- ===== src/Provider/Assembly.antt =====
-- The assembly of a consumer's validator set (CreateConsumerValidators of
-- x/vaas/provider/keeper/validator_set_update.go and CreateProviderConsensusValidator of keeper.go).
-- `none` is an error. Addresses are numbered in the order of their bytes.
pub mod Distinct
pub mod Least
pub mod Tests
use vaas.Base.{
  ℕ, Bool, true, false, Option, none, some, List, [], ◌∷◌, ltb, ◌==◌, if◌then◌else◌, nat_eq,
  pair_eq, ◌>>=◌,
}
use vaas.Base.Store.{Store, get, set}
use vaas.ValidatorSet.{ConsensusValidator}

-- A validator of x/staking: its consensus address and key where they decode, and its last power
-- where its operator address decodes and x/staking has one.
pub record StakingValidator : Type 0 where
  pub cons_addr : Option ℕ
  pub cmt_public_key : Option ℕ
  pub last_power : Option ℕ

-- GetConsumerValidator, in a consumer's stored set.
unfoldable pub get_consumer_validator : ℕ → List ConsensusValidator → Option ConsensusValidator
get_consumer_validator addr [] = none
get_consumer_validator addr (v ∷ vs) =
    if v.provider_cons_addr == addr then some v else get_consumer_validator addr vs

-- The key that a validator uses on a consumer: the assigned one, or else its own.
unfoldable pub consumer_key : Store (ℕ × ℕ) ℕ → ℕ → ℕ → StakingValidator → Option ℕ
consumer_key assigned consumer addr v = elim (get (consumer, addr) assigned) [
  | none ↦ v.cmt_public_key
  | some key ↦ some key
]

-- The height at which a validator joined the stored set, or else this one.
unfoldable pub joined : ℕ → ℕ → List ConsensusValidator → ℕ
joined height addr stored = elim (get_consumer_validator addr stored) [
  | none ↦ height
  | some v ↦ v.join_height
]

-- CreateConsumerValidator, with the assigned keys and the consumer's stored set.
unfoldable pub create_consumer_validator :
    Store (ℕ × ℕ) ℕ → List ConsensusValidator → ℕ → ℕ → StakingValidator → Option ConsensusValidator
create_consumer_validator assigned stored height consumer v = do
  power ← v.last_power
  addr ← v.cons_addr
  key ← consumer_key assigned consumer addr v
  some (record {
    provider_cons_addr = addr;
    power = power;
    public_key = key;
    join_height = joined height addr stored;
  })

-- One entry of the set: of two with a consumer address, the one whose provider address sorts first
-- stays, in the place of the earlier one.
unfoldable pub keep_least :
    ℕ → ConsensusValidator → Store ℕ ConsensusValidator → Store ℕ ConsensusValidator
keep_least consumer_addr v m = elim (get consumer_addr m) [
  | none ↦ set consumer_addr v m
  | some kept ↦
      if ltb v.provider_cons_addr kept.provider_cons_addr then set consumer_addr v m else m
]

-- The values of a store, in order.
unfoldable pub entries : Store ℕ ConsensusValidator → List ConsensusValidator
entries [] = []
entries (x ∷ m) = x.1 ∷ entries m

module _ (cons_addr_of : ℕ → Option ℕ) where
  -- The loop of CreateConsumerValidators, with the entries by their consumer address.
  unfoldable pub assemble :
      Store (ℕ × ℕ) ℕ
      → List ConsensusValidator
      → ℕ
      → ℕ
      → Store ℕ ConsensusValidator
      → List StakingValidator
      → Option (Store ℕ ConsensusValidator)
  assemble assigned stored height consumer m [] = some m
  assemble assigned stored height consumer m (v ∷ vs) = do
    next ← create_consumer_validator assigned stored height consumer v
    consumer_addr ← cons_addr_of next.public_key
    assemble assigned stored height consumer (keep_least consumer_addr next m) vs

  -- CreateConsumerValidators.
  unfoldable pub create_consumer_validators :
      Store (ℕ × ℕ) ℕ
      → List ConsensusValidator
      → ℕ
      → ℕ
      → List StakingValidator
      → Option (List ConsensusValidator)
  create_consumer_validators assigned stored height consumer bonded = do
    m ← assemble assigned stored height consumer [] bonded
    some (entries m)

-- CreateProviderConsensusValidator, which leaves the join height zero.
unfoldable pub create_provider_consensus_validator : StakingValidator → Option ConsensusValidator
create_provider_consensus_validator v = do
  addr ← v.cons_addr
  key ← v.cmt_public_key
  power ← v.last_power
  some (record { provider_cons_addr = addr; power = power; public_key = key; join_height = 0 })
