-- ===== src/Provider/Assembly/Tests.antt =====
-- Three bonded validators of which two share the consumer address 2.
use vaas.Base.{
  ℕ, ◌≤◌, ◌≡◌, refl, some, List, [], ◌∷◌, arith, nat_eq, pair_eq, All, Among, inl, Option,
}
use vaas.Base.Store.{Store, get, set}
use vaas.ValidatorSet.{ConsensusValidator}
use vaas.Provider.Assembly.{
  StakingValidator, create_consumer_validator, create_consumer_validators, assemble, keep_least,
  entries, consumer_key, joined, get_consumer_validator,
}
use vaas.Provider.Assembly.Distinct.{HasPositivePower}
use vaas.Provider.Assembly.Least.{IsMadeFrom, least_provider_address_is_kept}

abbrev pub staking : ℕ → ℕ → ℕ → StakingValidator
staking addr key power = record {
  cons_addr = some addr;
  cmt_public_key = some key;
  last_power = some power;
}

abbrev bonded : List StakingValidator
bonded = staking 14 4 9 ∷ staking 12 2 7 ∷ staking 11 3 4 ∷ []

-- Validator 14 has been assigned the key of validator 12.
abbrev assigned : Store (ℕ × ℕ) ℕ
assigned = ((7, 14), 2) ∷ []

abbrev made : ℕ → ℕ → ℕ → ConsensusValidator
made addr key power = record {
  provider_cons_addr = addr;
  power = power;
  public_key = key;
  join_height = 10;
}

abbrev pub cons_addr_of : ℕ → Option ℕ
cons_addr_of key = some key

abbrev assembled : List ConsensusValidator
assembled = made 12 2 7 ∷ made 11 3 4 ∷ []

assembles : create_consumer_validators cons_addr_of assigned [] 10 7 bonded ≡ some assembled
unfolding create_consumer_validators assemble create_consumer_validator consumer_key joined
    get_consumer_validator keep_least entries get set
assembles = refl

bonded-powers : All HasPositivePower bonded
bonded-powers = (
  (λ power h. ground (arith, h)),
  ((λ power h. ground (arith, h)), ((λ power h. ground (arith, h)), tt)),
)

created : create_consumer_validator assigned [] 10 7 (staking 14 4 9) ≡ some (made 14 2 9)
unfolding create_consumer_validator consumer_key joined get_consumer_validator get
created = refl

least_provider_address_is_kept_example :
    (kept : ConsensusValidator) × Among kept assembled
    × (cons_addr_of kept.public_key ≡ cons_addr_of 2)
    × (kept.provider_cons_addr ≤ 14)
    × IsMadeFrom assigned [] 10 7 bonded kept
least_provider_address_is_kept_example =
    least_provider_address_is_kept cons_addr_of assigned [] assembled 10 7 bonded (staking 14 4 9)
      (made 14 2 9) bonded-powers assembles (inl refl) created
