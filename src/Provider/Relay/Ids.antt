-- ===== src/Provider/Relay/Ids.antt =====
-- The ids of the launched consumers are listed once each (x/vaas/provider/keeper/keeper.go).
use vaas.Base.{
  ℕ, ◌<◌, ◌≡◌, subst, List, [], ◌∷◌, nat_eq, pair_eq, arith, Bool-cases, Option-cases, inl, inr,
  All, All-if, zero, suc,
}
use vaas.Provider.State.{Keeper, launched, phase_eq, get_consumer_phase}
use vaas.Provider.Fees.{get_all_consumer_ids, ids_from}
use vaas.Provider.Relay.{launched_ids, get_all_launched_consumer_ids}

-- The ids that a listing may give: each is below those behind it.
abbrev pub IsAscending : List ℕ → Type 0
IsAscending [] = Unit
IsAscending (i ∷ is) = All (λ j. i < j) is × IsAscending is

ids_from-IsAscending :
    (i n : ℕ) → IsAscending (ids_from i n) × ((b : ℕ) → b < i → All (λ j. b < j) (ids_from i n))
unfolding ids_from
ids_from-IsAscending i zero = (tt, λ b h. tt)
ids_from-IsAscending i (suc n) =
    let (ascending, above) = ids_from-IsAscending (suc i) n in
    ((above i (omega arith), ascending), λ b h. (h, above b (omega arith)))

launched_ids-All :
    (P : ℕ → Type 0) (k : Keeper) (is : List ℕ) → All P is → All P (launched_ids k is)
unfolding launched_ids
launched_ids-All P k [] h = tt
launched_ids-All P k (i ∷ is) h =
    All-if P (phase_eq (get_consumer_phase k i) launched) i (launched_ids k is) (λ e. h.0)
      (launched_ids-All P k is h.1)

launched_ids-IsAscending :
    (k : Keeper) (is : List ℕ) → IsAscending is → IsAscending (launched_ids k is)
unfolding launched_ids
launched_ids-IsAscending k [] h = tt
launched_ids-IsAscending k (i ∷ is) h =
    elim (Bool-cases (phase_eq (get_consumer_phase k i) launched)) [
      | inl live ↦
          rw live (launched_ids-All (λ j. i < j) k is h.0, launched_ids-IsAscending k is h.1)
      | inr other ↦ rw other (launched_ids-IsAscending k is h.1)
    ]

get_all_consumer_ids-IsAscending : (k : Keeper) → IsAscending (get_all_consumer_ids k)
unfolding get_all_consumer_ids
get_all_consumer_ids-IsAscending k = elim (Option-cases k.consumer_id) [
  | inl no_ids ↦
      let listed : [] ≡ get_all_consumer_ids k = ground (arith, no_ids) in
      subst IsAscending listed tt
  | inr (latest, known) ↦
      let listed : ids_from 0 latest ≡ get_all_consumer_ids k = ground (arith, known) in
      subst IsAscending listed (ids_from-IsAscending 0 latest).0
]

pub get_all_launched_consumer_ids-IsAscending :
    (k : Keeper) → IsAscending (get_all_launched_consumer_ids k)
unfolding get_all_launched_consumer_ids
get_all_launched_consumer_ids-IsAscending k =
    launched_ids-IsAscending k (get_all_consumer_ids k) (get_all_consumer_ids-IsAscending k)
