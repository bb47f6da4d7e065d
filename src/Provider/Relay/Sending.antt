-- ===== src/Provider/Relay/Sending.antt =====
-- The sending of waiting packets and the end of a block (SendVSCPackets, EndBlockVSU and
-- QueueConsPubKeyRotationSnapshots of x/vaas/provider/keeper/relay.go). Whether IBC takes a packet
-- over a client is a parameter. What is sent is returned with the state, by client.
use vaas.Base.{
  ℕ, Bool, true, false, Option, none, some, List, [], ◌∷◌, ◌++◌, ltb, ◌==◌, if◌then◌else◌, is_some,
  value_or, nat_eq, pair_eq, ◌>>=◌, map,
}
use vaas.Base.Store.{get, set, remove}
use vaas.Evidence.Decimal.{Decimals}
use vaas.Packet.{ValidatorSetChangePacketData}
use vaas.ValidatorSet.{ValidatorUpdate, diff_validators}
use vaas.Provider.Assembly.{StakingValidator}
use vaas.Provider.Relay.{
  State, create_each, blocks_until_next_epoch, get_all_launched_consumer_ids,
  get_pending_vsc_packets, get_highest_sent, queue_vsc_packets, queue_immediate_snapshot_vsc_packet,
}

module _ (dec : Decimals) where
  abbrev Packet : Type 0
  Packet = ValidatorSetChangePacketData dec

  -- The record of the highest id that was sent.
  unfoldable pub raise_highest_sent : State dec → ℕ → ℕ → State dec
  raise_highest_sent s consumer id =
      if ltb (get_highest_sent dec s consumer) id
      then record s {
        consumer_highest_sent_vsc_id = set consumer id s.consumer_highest_sent_vsc_id;
      }
      else s

  -- The loop of sendVSCPacketsToChainStrict, with what was sent and whether all was.
  unfoldable pub send_each :
      (ValidatorSetChangePacketData dec → Bool)
      → State dec
      → ℕ
      → List (ValidatorSetChangePacketData dec)
      → State dec × List (ValidatorSetChangePacketData dec) × Bool
  send_each sends s consumer [] = (s, [], true)
  send_each sends s consumer (p ∷ ps) = elim (sends p) [
    | false ↦ (s, [], false)
    | true ↦
        let (s', out, done) =
          send_each sends (raise_highest_sent s consumer p.valset_update_id) consumer ps in
        (s', p ∷ out, done)
  ]

  -- sendVSCPacketsToChainStrict.
  unfoldable pub send_vsc_packets_to_chain_strict :
      (ValidatorSetChangePacketData dec → Bool)
      → State dec
      → ℕ
      → State dec × List (ValidatorSetChangePacketData dec) × Bool
  send_vsc_packets_to_chain_strict sends s consumer =
      let (s', out, done) = send_each sends s consumer (get_pending_vsc_packets dec s consumer) in
      (
        if done
            then record s' { pending_vsc_packets = remove consumer s'.pending_vsc_packets }
            else s',
        out,
        done,
      )

  -- SendVSCPacketsToChain.
  unfoldable pub send_vsc_packets_to_chain :
      (ValidatorSetChangePacketData dec → Bool)
      → State dec
      → ℕ
      → State dec × List (ValidatorSetChangePacketData dec)
  send_vsc_packets_to_chain sends s consumer =
      let (s', out, done) = send_vsc_packets_to_chain_strict sends s consumer in (s', out)

  unfoldable pub over :
      ℕ → List (ValidatorSetChangePacketData dec) → List (ℕ × ValidatorSetChangePacketData dec)
  over client ps = map (λ p. (client, p)) ps

  -- SendVSCPackets for the listed consumers: 0 is the empty client id.
  unfoldable pub send_to_each :
      (ℕ → ValidatorSetChangePacketData dec → Bool)
      → State dec
      → List ℕ
      → State dec × List (ℕ × ValidatorSetChangePacketData dec)
  send_to_each sends s [] = (s, [])
  send_to_each sends s (i ∷ is) =
      let client = value_or 0 (get i s.consumer_clients) in
      let (s₁, out) : State dec × List (ValidatorSetChangePacketData dec) =
        if client == 0 then (s, []) else send_vsc_packets_to_chain (sends client) s i in
      let (s₂, rest) = send_to_each sends s₁ is in (s₂, over client out ++ rest)

  -- SendVSCPackets.
  unfoldable pub send_vsc_packets :
      (ℕ → ValidatorSetChangePacketData dec → Bool)
      → State dec
      → State dec × List (ℕ × ValidatorSetChangePacketData dec)
  send_vsc_packets sends s = send_to_each sends s (get_all_launched_consumer_ids s.keeper)

  -- ProviderValidatorUpdates.
  unfoldable pub provider_validator_updates :
      State dec → Option (List StakingValidator) → Option (State dec × List ValidatorUpdate)
  provider_validator_updates s bonded_by_power = do
    bonded ← bonded_by_power
    next ← create_each bonded
    some (
      record s { last_provider_consensus_vals = next },
      diff_validators s.last_provider_consensus_vals next,
    )

  module _ (cons_addr_of : ℕ → Option ℕ) where
    -- The first block of an epoch in EndBlockVSU, with what was sent.
    unfoldable pub start_epoch :
        (ℕ → ValidatorSetChangePacketData dec → Bool)
        → State dec
        → ℕ
        → Option (List StakingValidator)
        → Option (State dec × List (ℕ × ValidatorSetChangePacketData dec))
    start_epoch sends s height last_bonded = do
      s₁ ← queue_vsc_packets dec cons_addr_of s height last_bonded
      some (send_vsc_packets sends s₁)

    -- EndBlockVSU: the provider's own updates, and what was sent.
    unfoldable pub end_block_vsu :
        (ℕ → ValidatorSetChangePacketData dec → Bool)
        → State dec
        → ℕ
        → Option (List StakingValidator)
        → Option (List StakingValidator)
        → Option (State dec × List ValidatorUpdate × List (ℕ × ValidatorSetChangePacketData dec))
    end_block_vsu sends s height bonded_by_power last_bonded = do
      (s₁, updates) ← provider_validator_updates s bonded_by_power
      (s₂, sent) ←
          if blocks_until_next_epoch s₁.keeper height == 0
          then start_epoch sends s₁ height last_bonded
          else some (s₁, [])
      some (s₂, updates, sent)

    -- QueueConsPubKeyRotationSnapshots for the listed consumers: an error is logged only.
    unfoldable pub rotation_snapshots :
        (ℕ → ValidatorSetChangePacketData dec → Bool)
        → State dec
        → ℕ
        → Option (List StakingValidator)
        → ℕ
        → List ℕ
        → State dec × List (ℕ × ValidatorSetChangePacketData dec)
    rotation_snapshots sends s height last_bonded new_addr [] = (s, [])
    rotation_snapshots sends s height last_bonded new_addr (i ∷ is) =
        let (s₁, out) : State dec × List (ℕ × ValidatorSetChangePacketData dec) =
          if is_some (get (i, new_addr) s.validator_consumer_pub_key)
          then (s, [])
          else elim (queue_immediate_snapshot_vsc_packet dec cons_addr_of s height last_bonded i) [
            | none ↦ (s, [])
            | some queued ↦ elim (get i queued.consumer_clients) [
              | none ↦ (queued, [])
              | some client ↦
                  let (s', out') = send_vsc_packets_to_chain (sends client) queued i in
                  (s', over client out')
            ]
          ] in
        let (s₂, rest) = rotation_snapshots sends s₁ height last_bonded new_addr is in
        (s₂, out ++ rest)

    -- QueueConsPubKeyRotationSnapshots.
    unfoldable pub queue_cons_pub_key_rotation_snapshots :
        (ℕ → ValidatorSetChangePacketData dec → Bool)
        → State dec
        → ℕ
        → Option (List StakingValidator)
        → ℕ
        → State dec × List (ℕ × ValidatorSetChangePacketData dec)
    queue_cons_pub_key_rotation_snapshots sends s height last_bonded new_addr =
        rotation_snapshots sends s height last_bonded new_addr
          (get_all_launched_consumer_ids s.keeper)
