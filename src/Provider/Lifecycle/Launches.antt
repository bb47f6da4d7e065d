-- ===== src/Provider/Lifecycle/Launches.antt =====
-- The launch of consumers pauses nobody
-- (x/vaas/provider/keeper/consumer_lifecycle.go).
use vaas.Base.{
  ℕ, ◌≡◌, refl, ap, false, Option, none, some, List, [], ◌∷◌, ◌==◌, if◌then◌else◌, nat_eq, pair_eq,
  Bool-cases, Option-cases, inl, inr, OnSome, OnSome-map, OnSome-found, ◌>>=◌,
}
use vaas.Base.Store.{get, set}
use vaas.Evidence.Decimal.{Decimals}
use vaas.ValidatorSet.{ValidatorUpdate}
use vaas.Provider.State.{Keeper, registered, launched, deleted, phase_eq}
use vaas.Provider.Bank.{Bank}
use vaas.Provider.Assembly.{StakingValidator}
use vaas.Provider.Relay
use vaas.Provider.Relay.{compute_consumer_next_val_set, is_empty}
use vaas.Provider.TimeQueue.{consume_ids_from_time_queue}
use vaas.Provider.Lifecycle.{
  State, Chain, InitializationParameters, ConsumerGenesis, phase_of, set_consumer_phase,
}
use vaas.Provider.Lifecycle.Launch.{
  set_consumer_initialization_parameters, make_consumer_genesis, launch_consumer, reset_launch,
  launch_or_reset, launch_each, begin_block_launch_consumers,
}
use vaas.Provider.Lifecycle.Shared.{
  NoPause, NoPause-trans, NoPause-same, NoPause-set, compute_consumer_next_val_set-keeper,
}

module _ (dec : Decimals) (bank : Bank) (chain : Chain dec) where
  launched-NoPause :
      (s : State dec bank) (relay : Relay.State dec) (i : ℕ) (p : InitializationParameters)
      (genesis : ConsumerGenesis dec)
      → relay.keeper.phases ≡ s.relay.keeper.phases
      → NoPause dec bank s (
          set_consumer_phase dec bank
            (record s {
              relay = relay;
              consumer_genesis = set i genesis s.consumer_genesis;
              equivocation_evidence_min_height =
                  set i p.initial_height.revision_height s.equivocation_evidence_min_height;
            })
            i
            launched)
  launched-NoPause s relay i p genesis same =
      let t : State dec bank = record s {
        relay = relay;
        consumer_genesis = set i genesis s.consumer_genesis;
        equivocation_evidence_min_height =
            set i p.initial_height.revision_height s.equivocation_evidence_min_height;
      } in
      NoPause-trans dec bank s t (set_consumer_phase dec bank t i launched)
        (NoPause-same dec bank s t refl same) (NoPause-set dec bank t i launched refl)

  launch_consumer-NoPause :
      (s : State dec bank) (bonded : List StakingValidator) (i : ℕ)
      → OnSome (NoPause dec bank s) (launch_consumer dec bank chain s bonded i)
  unfolding launch_consumer phase_of
  launch_consumer-NoPause s bonded i =
      let computed =
        compute_consumer_next_val_set dec chain.cons_addr_of s.relay chain.height.revision_height
          bonded i [] false in
      elim (Option-cases (get i s.initialization_parameters)) [
        | inl missing ↦ rw missing tt
        | inr (p, found) ↦ elim (Option-cases computed) [
          | inl no_set ↦ rw (found, no_set) tt
          | inr (r, made) ↦ elim (Bool-cases (is_empty r.1)) [
            | inl empty ↦ rw (found, made, empty) tt
            | inr nonempty ↦
                elim (Option-cases
                  (make_consumer_genesis dec bank chain (record s { relay = r.0 }) i r.1)) [
                    | inl no_genesis ↦ rw (found, made, nonempty, no_genesis) tt
                    | inr (genesis, complete) ↦
                        rw (found, made, nonempty, complete)
                          (launched-NoPause s r.0 i p genesis (
                            ap (λ (k : Keeper). k.phases)
                              (OnSome-found
                                (λ (r' : Relay.State dec × List ValidatorUpdate).
                                  r'.0.keeper ≡ s.relay.keeper)
                                computed r
                                (compute_consumer_next_val_set-keeper dec bank chain.cons_addr_of
                                  s.relay chain.height.revision_height bonded i [] false)
                                made)))
                  ]
          ]
        ]
      ]

  set_consumer_initialization_parameters-NoPause :
      (s : State dec bank) (i : ℕ) (p : InitializationParameters)
      → OnSome (NoPause dec bank s) (set_consumer_initialization_parameters dec bank chain s i p)
  unfolding set_consumer_initialization_parameters phase_of
  set_consumer_initialization_parameters-NoPause s i p =
      elim (Bool-cases (phase_eq (phase_of dec bank s i) deleted)) [
        | inl is_deleted ↦ rw is_deleted (refl, λ j h. h)
        | inr not_deleted ↦ elim (Option-cases (get i s.chain_ids)) [
          | inl missing ↦ rw (not_deleted, missing) tt
          | inr (chain_id, found) ↦
              elim (Bool-cases (p.initial_height.revision_number == chain.revision_of chain_id)) [
                | inl matches ↦ rw (not_deleted, found, matches) (refl, λ j h. h)
                | inr differs ↦ rw (not_deleted, found, differs) tt
              ]
        ]
      ]

  reset_launch-NoPause :
      (s : State dec bank) (i : ℕ) → OnSome (NoPause dec bank s) (reset_launch dec bank chain s i)
  unfolding reset_launch
  reset_launch-NoPause s i = elim (Option-cases (get i s.initialization_parameters)) [
    | inl missing ↦ rw missing tt
    | inr (p, found) ↦
        let stored =
          set_consumer_initialization_parameters dec bank chain s i (record p { spawn_time = 0 }) in
        elim (Option-cases stored) [
          | inl refused ↦ rw (found, refused) tt
          | inr (s₁, done) ↦
              rw (found, done)
                (NoPause-trans dec bank s s₁ (set_consumer_phase dec bank s₁ i registered)
                  (OnSome-found (NoPause dec bank s) stored s₁
                    (set_consumer_initialization_parameters-NoPause s i
                      (record p { spawn_time = 0 }))
                    done)
                  (NoPause-set dec bank s₁ i registered refl))
        ]
  ]

  launch_or_reset-NoPause :
      (s : State dec bank) (bonded : List StakingValidator) (i : ℕ)
      → OnSome (NoPause dec bank s) (launch_or_reset dec bank chain s bonded i)
  unfolding launch_or_reset
  launch_or_reset-NoPause s bonded i =
      elim (Option-cases (launch_consumer dec bank chain s bonded i)) [
        | inl failed ↦ rw (OnSome, failed) (reset_launch-NoPause s i)
        | inr (s₁, done) ↦
            rw (OnSome, done)
              (OnSome-found (NoPause dec bank s) (launch_consumer dec bank chain s bonded i) s₁
                (launch_consumer-NoPause s bonded i) done)
      ]

  launch_each-NoPause :
      (bonded : List StakingValidator) (is : List ℕ) (s : State dec bank)
      → OnSome (NoPause dec bank s) (launch_each dec bank chain s bonded is)
  unfolding launch_each
  launch_each-NoPause bonded [] s = (refl, λ j h. h)
  launch_each-NoPause bonded (i ∷ is) s =
      elim (Option-cases (launch_or_reset dec bank chain s bonded i)) [
        | inl failed ↦ rw failed tt
        | inr (s₁, done) ↦
            rw (OnSome, done)
              (OnSome-map (NoPause dec bank s₁) (NoPause dec bank s)
                (launch_each dec bank chain s₁ bonded is)
                (λ t. NoPause-trans dec bank s s₁ t (
                  OnSome-found (NoPause dec bank s) (launch_or_reset dec bank chain s bonded i) s₁
                    (launch_or_reset-NoPause s bonded i) done))
                (launch_each-NoPause bonded is s₁))
      ]

  launch_from-NoPause :
      (is : List ℕ) (s : State dec bank) (last_bonded : Option (List StakingValidator))
      → OnSome
          (NoPause dec bank s)
          (last_bonded >>= λ bonded. launch_each dec bank chain s bonded is)
  launch_from-NoPause is s none = tt
  launch_from-NoPause is s (some bonded) = launch_each-NoPause bonded is s

  -- BeginBlockLaunchConsumers.
  pub begin_block_launch_consumers-NoPause :
      (s : State dec bank)
      → OnSome (NoPause dec bank s) (begin_block_launch_consumers dec bank chain s)
  unfolding begin_block_launch_consumers phase_of
  begin_block_launch_consumers-NoPause s =
      let (is, q) = consume_ids_from_time_queue chain.now 200 s.spawn_time_queue in
      let s₀ : State dec bank = record s { spawn_time_queue = q } in
      launch_from-NoPause is s₀ (if is_empty is then some [] else chain.last_bonded)
