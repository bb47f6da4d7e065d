-- ===== src/Provider/Lifecycle/Removals.antt =====
-- The removal of consumers pauses nobody (x/vaas/provider/keeper/consumer_lifecycle.go).
use vaas.Base.{
  ℕ, ◌≡◌, subst, refl, ◌∙◌, ◌||◌, List, [], ◌∷◌, ◌==◌, nat_eq, pair_eq, Bool-cases, Option-cases,
  inl, inr, OnSome, OnSome-map, ◌⊎◌, OnSome-found, value_or,
}
use vaas.Base.Store.{get, select}
use vaas.Evidence.Decimal.{Decimals}
use vaas.Provider.State.{Keeper, initialized, stopped, deleted, phase_eq}
use vaas.Provider.Bank.{Bank}
use vaas.Provider.Fees.{delete_consumer_debt}
use vaas.Provider.FeePool.{
  of_pool, clear_all_shares, set_shares, set_total, get_total, absorb_unaccounted_balance,
}
use vaas.Provider.FeePool.Sweep.{
  pay_shares, pay_dust, sweep_holding, sweep_consumer_fee_pool_denom, sweep_consumer_fee_pool,
}
use vaas.Provider.TimeQueue.{remove_consumer_from_time_queue, consume_ids_from_time_queue}
use vaas.Provider.Lifecycle.{
  State, Chain, phase_of, with_keeper, cancel_consumer_downtime_state, forget_pause,
}
use vaas.Provider.Lifecycle.Removal.{
  Deletion, deletion, deletion_error, deletion_panic, prelaunched, sweep_all, denoms_with_shares,
  with_balances, erase, erase_stores, erase_fees, erase_relay, delete_key_assignments,
  sweep_and_erase, delete_consumer_chain, remove_each, begin_block_remove_consumers,
}
use vaas.Provider.Lifecycle.Shared.{NoPause, NoPause-trans, NoPause-same, NoPause-set}

module _ (bank : Bank) where
  abbrev KeepsPhases : Keeper → Keeper × bank.Ledger → Type 0
  KeepsPhases k r = r.0.phases ≡ k.phases

  sweep_holding-phases :
      (k : Keeper) (l : bank.Ledger) (i denom balance total : ℕ)
      → OnSome (KeepsPhases k) (sweep_holding bank k l i denom balance total)
  unfolding sweep_holding clear_all_shares
  sweep_holding-phases k l i denom balance total =
      elim (Option-cases (
        bank.send l (bank.fee_pool_address i) bank.provider_module
          (record { denom = denom; amount = balance }))) [
            | inl refused ↦ rw refused tt
            | inr (drained, sent) ↦
                elim (Option-cases (
                  pay_shares bank denom balance total
                    (select (λ x. of_pool i denom x.0) k.fee_pool_shares) drained 0)) [
                      | inl unpaid ↦ rw (sent, unpaid) tt
                      | inr (paid, done) ↦ elim (Option-cases (pay_dust bank denom balance paid)) [
                        | inl stuck ↦ rw (sent, done, stuck) tt
                        | inr (l', rest) ↦ rw (sent, done, rest) refl
                      ]
                    ]
          ]

  sweep_consumer_fee_pool_denom-phases :
      (k : Keeper) (l : bank.Ledger) (i denom : ℕ)
      → OnSome (KeepsPhases k) (sweep_consumer_fee_pool_denom bank k l i denom)
  unfolding sweep_consumer_fee_pool_denom clear_all_shares absorb_unaccounted_balance set_shares
      set_total
  sweep_consumer_fee_pool_denom-phases k l i denom =
      let balance = bank.balance l (bank.fee_pool_address i) denom in
      let total = value_or 0 (get_total k i denom) in
      elim (Bool-cases (total == 0)) [
        | inl no_shares ↦ elim (Bool-cases (balance == 0)) [
          | inl empty ↦ rw (no_shares, empty) refl
          | inr holding ↦
              rw (no_shares, holding)
                (sweep_holding-phases (absorb_unaccounted_balance bank k i denom balance) l i denom
                  balance balance)
        ]
        | inr shares ↦ elim (Bool-cases (balance == 0)) [
          | inl empty ↦ rw (shares, empty) refl
          | inr holding ↦ rw (shares, holding) (sweep_holding-phases k l i denom balance total)
        ]
      ]

  sweep_consumer_fee_pool-phases :
      (i : ℕ) (ds : List ℕ) (k : Keeper) (l : bank.Ledger)
      → OnSome (KeepsPhases k) (sweep_consumer_fee_pool bank (k, l) i ds)
  unfolding sweep_consumer_fee_pool
  sweep_consumer_fee_pool-phases i [] k l = refl
  sweep_consumer_fee_pool-phases i (d ∷ ds) k l =
      elim (Option-cases (sweep_consumer_fee_pool_denom bank k l i d)) [
        | inl stuck ↦ rw (OnSome, stuck) tt
        | inr (r, done) ↦
            rw (OnSome, done)
              (OnSome-map (KeepsPhases r.0) (KeepsPhases k) (sweep_consumer_fee_pool bank r i ds)
                (λ r' same.
                  same
                  ∙ OnSome-found (KeepsPhases k) (sweep_consumer_fee_pool_denom bank k l i d) r
                      (sweep_consumer_fee_pool_denom-phases k l i d) done)
                (sweep_consumer_fee_pool-phases i ds r.0 r.1))
      ]

module _ (dec : Decimals) (bank : Bank) where
  -- The state of a deletion that succeeds.
  abbrev OnDeletion : (State dec bank → Type 0) → Deletion dec bank → Type 0
  OnDeletion P (deletion s) = P s
  OnDeletion P deletion_error = Unit
  OnDeletion P deletion_panic = Unit

  erase-NoPause : (s : State dec bank) (i : ℕ) → NoPause dec bank s (erase dec bank s i)
  unfolding erase erase_stores erase_fees erase_relay delete_key_assignments
      cancel_consumer_downtime_state forget_pause with_keeper delete_consumer_debt
  erase-NoPause s i =
      NoPause-trans dec bank s (erase_stores dec bank s i) (erase dec bank s i)
        (NoPause-same dec bank s (erase_stores dec bank s i) refl refl)
        (NoPause-set dec bank (erase_stores dec bank s i) i deleted refl)

  sweep_all-phases :
      (k : Keeper) (l : bank.Ledger) (i : ℕ)
      → OnSome (KeepsPhases bank k) (sweep_all dec bank k l i)
  unfolding sweep_all
  sweep_all-phases k l i =
      sweep_consumer_fee_pool-phases bank i
        (with_balances (bank.denoms l (bank.fee_pool_address i))
          (denoms_with_shares i k.fee_pool_total_shares []))
        k l

  sweep_and_erase-NoPause :
      (s : State dec bank) (i : ℕ) → OnDeletion (NoPause dec bank s) (sweep_and_erase dec bank s i)
  unfolding sweep_and_erase with_keeper
  sweep_and_erase-NoPause s i = elim (Option-cases (sweep_all dec bank s.relay.keeper s.ledger i)) [
    | inl stuck ↦ rw (OnDeletion, stuck) tt
    | inr ((k, l), swept) ↦
        let t : State dec bank = record (with_keeper dec bank k s) { ledger = l } in
        rw (OnDeletion, swept)
          (NoPause-trans dec bank s t (erase dec bank t i)
            (NoPause-same dec bank s t refl (
              OnSome-found (KeepsPhases bank s.relay.keeper)
                (sweep_all dec bank s.relay.keeper s.ledger i) (k, l)
                (sweep_all-phases s.relay.keeper s.ledger i) swept))
            (erase-NoPause t i))
  ]

  delete_consumer_chain-NoPause :
      (s : State dec bank) (i : ℕ)
      → OnDeletion (NoPause dec bank s) (delete_consumer_chain dec bank s i)
  unfolding delete_consumer_chain phase_of
  delete_consumer_chain-NoPause s i =
      let phase = phase_of dec bank s i in
      elim (Bool-cases (phase_eq phase initialized)) [
        | inl waiting ↦ elim (Option-cases (get i s.initialization_parameters)) [
          | inl missing ↦ rw (OnDeletion, waiting, missing) tt
          | inr (p, found) ↦
              elim (Option-cases
                (remove_consumer_from_time_queue s.spawn_time_queue i p.spawn_time)) [
                  | inl lost ↦ rw (OnDeletion, waiting, found, lost) tt
                  | inr (q, removed) ↦
                      rw (waiting, found, removed)
                        (sweep_and_erase-NoPause (record s { spawn_time_queue = q }) i)
                ]
        ]
        | inr elsewhere ↦ elim (Bool-cases (phase_eq phase stopped || prelaunched phase)) [
          | inl deletable ↦ rw (elsewhere, deletable) (sweep_and_erase-NoPause s i)
          | inr kept ↦ rw (OnDeletion, elsewhere, kept) tt
        ]
      ]

  Deletion-cases :
      (d : Deletion dec bank)
      → ((s : State dec bank) × (d ≡ deletion s)) ⊎ ((d ≡ deletion_error) ⊎ (d ≡ deletion_panic))
  Deletion-cases (deletion s) = inl (s, refl)
  Deletion-cases deletion_error = inr (inl refl)
  Deletion-cases deletion_panic = inr (inr refl)

  remove_each-NoPause :
      (is : List ℕ) (s : State dec bank) → OnSome (NoPause dec bank s) (remove_each dec bank s is)
  unfolding remove_each
  remove_each-NoPause [] s = (refl, λ j h. h)
  remove_each-NoPause (i ∷ is) s = elim (Deletion-cases (delete_consumer_chain dec bank s i)) [
    | inl (t, done) ↦
        rw (OnSome, done)
          (OnSome-map (NoPause dec bank t) (NoPause dec bank s) (remove_each dec bank t is)
            (λ u.
              NoPause-trans dec bank s t u
                (subst (OnDeletion (NoPause dec bank s)) done (delete_consumer_chain-NoPause s i)))
            (remove_each-NoPause is t))
    | inr (inl failed) ↦ rw (OnSome, failed) (remove_each-NoPause is s)
    | inr (inr halted) ↦ rw (OnSome, halted) tt
  ]

  -- BeginBlockRemoveConsumers.
  pub begin_block_remove_consumers-NoPause :
      (chain : Chain dec) (s : State dec bank)
      → OnSome (NoPause dec bank s) (begin_block_remove_consumers dec bank chain s)
  unfolding begin_block_remove_consumers phase_of
  begin_block_remove_consumers-NoPause chain s =
      let (is, q) = consume_ids_from_time_queue chain.now 200 s.removal_time_queue in
      remove_each-NoPause is (record s { removal_time_queue = q })
