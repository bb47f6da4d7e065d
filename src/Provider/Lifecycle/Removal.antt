-- ===== src/Provider/Lifecycle/Removal.antt =====
-- The removal of a consumer (DeleteConsumerChain and BeginBlockRemoveConsumers of
-- x/vaas/provider/keeper/consumer_lifecycle.go, with DeleteKeyAssignments of key_assignment.go and
-- the denominations of SweepConsumerFeePool of fee_pool_shares.go).
use vaas.Base.{
  ℕ, Bool, ◌||◌, Option, none, some, List, [], ◌∷◌, ltb, ◌==◌, if◌then◌else◌, nat_eq, pair_eq,
}
use vaas.Base.Store.{Store, get, remove, clear}
use vaas.Evidence.Decimal.{Decimals}
use vaas.Provider.State.{Keeper, Phase, registered, initialized, stopped, deleted, phase_eq}
use vaas.Provider.Bank.{Bank}
use vaas.Provider.Fees.{delete_consumer_debt}
use vaas.Provider.FeePool.Sweep.{sweep_consumer_fee_pool}
use vaas.Provider.TimeQueue.{remove_consumer_from_time_queue, consume_ids_from_time_queue}
use vaas.Provider.Lifecycle.{
  State, Chain, phase_of, with_keeper, set_consumer_phase, cancel_consumer_downtime_state,
  forget_pause,
}

-- A denomination among others in ascending order, once.
unfoldable pub insert_denom : ℕ → List ℕ → List ℕ
insert_denom d [] = d ∷ []
insert_denom d (e ∷ es) =
    if ltb d e then d ∷ e ∷ es else if d == e then e ∷ es else e ∷ insert_denom d es

-- The denominations of a consumer's share totals, then those of its balances, in order.
unfoldable pub denoms_with_shares : ℕ → Store (ℕ × ℕ) ℕ → List ℕ → List ℕ
denoms_with_shares i [] ds = ds
denoms_with_shares i (x ∷ m) ds =
    denoms_with_shares i m (if x.0.0 == i then insert_denom x.0.1 ds else ds)

unfoldable pub with_balances : List ℕ → List ℕ → List ℕ
with_balances [] ds = ds
with_balances (e ∷ es) ds = with_balances es (insert_denom e ds)

-- Prelaunched, of a phase.
unfoldable pub prelaunched : Phase → Bool
prelaunched phase = phase_eq phase registered || phase_eq phase initialized

module _ (dec : Decimals) (bank : Bank) where
  -- A panic halts the block; an error does not.
  pub data Deletion : Type 0 where
    deletion : State dec bank → Deletion
    deletion_error deletion_panic : Deletion

  -- SweepConsumerFeePool over all denominations.
  unfoldable pub sweep_all : Keeper → bank.Ledger → ℕ → Option (Keeper × bank.Ledger)
  sweep_all k l i =
      let held = bank.denoms l (bank.fee_pool_address i) in
      sweep_consumer_fee_pool bank (k, l) i
        (with_balances held (denoms_with_shares i k.fee_pool_total_shares []))

  -- DeleteKeyAssignments.
  unfoldable pub delete_key_assignments : State dec bank → ℕ → State dec bank
  delete_key_assignments s i = record s {
    relay = record s.relay {
      validator_consumer_pub_key = clear (λ key. key.0 == i) s.relay.validator_consumer_pub_key;
    };
    validator_by_consumer_addr = clear (λ key. key.0 == i) s.validator_by_consumer_addr;
    consumer_addrs_to_prune = clear (λ key. key.0 == i) s.consumer_addrs_to_prune;
  }

  -- What DeleteConsumerChain deletes of the relay's state.
  unfoldable pub erase_relay : State dec bank → ℕ → State dec bank
  erase_relay s i = record s {
    relay = record s.relay {
      consumer_clients = remove i s.relay.consumer_clients;
      pending_vsc_packets = remove i s.relay.pending_vsc_packets;
      consumer_val_sets = remove i s.relay.consumer_val_sets;
      consumer_last_ack_time = remove i s.relay.consumer_last_ack_time;
      consumer_highest_sent_vsc_id = remove i s.relay.consumer_highest_sent_vsc_id;
      consumer_highest_acked_vsc_id = remove i s.relay.consumer_highest_acked_vsc_id;
    };
    consumer_genesis = remove i s.consumer_genesis;
    equivocation_evidence_min_height = remove i s.equivocation_evidence_min_height;
    init_chain_heights = remove i s.init_chain_heights;
    removal_times = remove i s.removal_times;
  }

  -- What it deletes of the fees and of downtime.
  unfoldable pub erase_fees : State dec bank → ℕ → State dec bank
  erase_fees s i =
      let k = delete_consumer_debt s.relay.keeper i in
      record (with_keeper dec bank
        (record k {
          consumer_fees_per_block_override = remove i k.consumer_fees_per_block_override;
          withheld_fee_records = clear (λ key. key.0 == i) k.withheld_fee_records;
        })
        s) {
          fee_pool_address_to_consumer_id =
              remove (bank.fee_pool_address i) s.fee_pool_address_to_consumer_id;
          accepted_downtime_windows = clear (λ key. key.0 == i) s.accepted_downtime_windows;
          downtime_window_floors = clear (λ key. key.0 == i) s.downtime_window_floors;
        }

  -- All that DeleteConsumerChain deletes after the sweep of the fee pool.
  unfoldable pub erase_stores : State dec bank → ℕ → State dec bank
  erase_stores s i =
      let s₁ = delete_key_assignments (erase_relay s i) i in
      let s₂ =
        cancel_consumer_downtime_state dec bank (erase_fees (forget_pause dec bank s₁ i) i) i in
      record s₂ { chain_ids = remove i s₂.chain_ids }

  unfoldable pub erase : State dec bank → ℕ → State dec bank
  erase s i = set_consumer_phase dec bank (erase_stores s i) i deleted

  unfoldable pub sweep_and_erase : State dec bank → ℕ → Deletion
  sweep_and_erase s i = elim (sweep_all s.relay.keeper s.ledger i) [
    | none ↦ deletion_panic
    | some (k, l) ↦ deletion (erase (record (with_keeper dec bank k s) { ledger = l }) i)
  ]

  -- DeleteConsumerChain.
  unfoldable pub delete_consumer_chain : State dec bank → ℕ → Deletion
  delete_consumer_chain s i =
      let phase = phase_of dec bank s i in
      if phase_eq phase initialized
      then elim (get i s.initialization_parameters) [
        | none ↦ deletion_error
        | some p ↦ elim (remove_consumer_from_time_queue s.spawn_time_queue i p.spawn_time) [
          | none ↦ deletion_error
          | some q ↦ sweep_and_erase (record s { spawn_time_queue = q }) i
        ]
      ]
      else if phase_eq phase stopped || prelaunched phase
      then sweep_and_erase s i
      else deletion_error

  -- The loop of BeginBlockRemoveConsumers; `none` is a panic.
  unfoldable pub remove_each : State dec bank → List ℕ → Option (State dec bank)
  remove_each s [] = some s
  remove_each s (i ∷ is) = elim (delete_consumer_chain s i) [
    | deletion s₁ ↦ remove_each s₁ is
    | deletion_error ↦ remove_each s is
    | deletion_panic ↦ none
  ]

  -- BeginBlockRemoveConsumers.
  unfoldable pub begin_block_remove_consumers : Chain dec → State dec bank → Option (State dec bank)
  begin_block_remove_consumers chain s =
      let (is, q) = consume_ids_from_time_queue chain.now 200 s.removal_time_queue in
      remove_each (record s { removal_time_queue = q }) is
