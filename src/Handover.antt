-- ===== src/Handover.antt =====
-- The hand-over of validator sets from the provider to one consumer: QueueVSCPackets,
-- SendVSCPackets and OnAcknowledgementPacketV2 of x/vaas/provider/keeper/relay.go with
-- OnRecvVSCPacketV2 and EndBlock of x/vaas/consumer, over a network that may lose, delay, reorder
-- and repeat packets and acknowledgements. A packet that the consumer refuses is answered by an error,
-- which changes neither side, as a timeout does.
pub mod Protocol
pub mod Steps
pub mod Sending
pub mod Delivery
pub mod Launch
pub mod Agreement
mod Tests
use vaas.Base.{
  ℕ, ◌≡◌, Bool, true, false, Option, none, some, List, [], ◌∷◌, ◌++◌, ◌==◌, if◌then◌else◌, All,
  Among,
}
use vaas.Evidence.Decimal.{Decimals}
use vaas.Packet.{ValidatorSetChangePacketData}
use vaas.ValidatorSet.{ConsensusValidator}
use vaas.Provider.Assembly.{StakingValidator}
use vaas.Provider.Assembly.Distinct.{HasPositivePower}
use vaas.Provider.Relay as Provider
use vaas.Provider.Relay.Queueing.{view}
use vaas.Provider.Relay.Sending.{send_vsc_packets_to_chain}
use vaas.Consumer.Relay as Consumer
use vaas.Consumer.Relay.Effect.{effective}

-- Both chains, what is on its way, and for each update id the set that the provider then had stored
-- for the consumer.
pub record World (dec : Decimals) : Type 0 where
  pub provider : Provider.State dec
  pub consumer : Consumer.State dec
  pub sent : List (ValidatorSetChangePacketData dec)
  pub acks : List ℕ
  pub target : ℕ → List ConsensusValidator

-- A history with one more entry.
abbrev pub record_target :
    (ℕ → List ConsensusValidator) → ℕ → List ConsensusValidator → ℕ → List ConsensusValidator
record_target target id vs i = if i == id then vs else target i

module _ (dec : Decimals) (decodes : ℕ → Bool) (cons_addr_of : ℕ → Option ℕ) (c : ℕ) where
  pub data Step : World dec → World dec → Type 0 where
    -- The first block of an epoch.
    epoch :
        (w : World dec) (height : ℕ) (bonded : List StakingValidator) (s' : Provider.State dec)
        → All HasPositivePower bonded
        → Provider.queue_vsc_packets dec cons_addr_of w.provider height (some bonded) ≡ some s'
        → Step w (record w {
          provider = s';
          target =
              record_target w.target w.provider.validator_set_update_id
                (Provider.get_consumer_val_set dec s' c);
        })
    -- A snapshot for this consumer or for another.
    snapshot :
        (w : World dec) (height : ℕ) (bonded : List StakingValidator) (i : ℕ)
        (s' : Provider.State dec)
        → All HasPositivePower bonded
        → Provider.queue_immediate_snapshot_vsc_packet dec cons_addr_of w.provider height
            (some bonded)
            i
          ≡ some s'
        → Step w (record w {
          provider = s';
          target =
              record_target w.target w.provider.validator_set_update_id
                (Provider.get_consumer_val_set dec s' c);
        })
    -- The sending of what waits, of which IBC may take a part only.
    send :
        (w : World dec) (sends : ValidatorSetChangePacketData dec → Bool)
        → Step w (record w {
          provider = (send_vsc_packets_to_chain dec sends w.provider c).0;
          sent = w.sent ++ (send_vsc_packets_to_chain dec sends w.provider c).1;
        })
    -- The provider's other operations, which leave the relay's state of the consumer.
    provider_elsewhere :
        (w : World dec) (s' : Provider.State dec)
        → s'.validator_set_update_id ≡ w.provider.validator_set_update_id
        → view dec s' c ≡ view dec w.provider c
        → Step w (record w { provider = s' })
    -- The receipt of any packet that was sent, at any time and any number of times.
    deliver :
        (w : World dec) (clients : ℕ → Consumer.ClientState) (now client : ℕ)
        (p : ValidatorSetChangePacketData dec) (k' : Consumer.State dec)
        → Among p w.sent
        → Consumer.on_recv_vsc_packet_v2 dec decodes clients w.consumer now client p
          ≡ Consumer.Outcome.handled k'
        → Step w (record w { consumer = k'; acks = p.valset_update_id ∷ w.acks })
    -- The receipt of any acknowledgement over the consumer's client.
    acknowledge :
        (w : World dec) (now client id : ℕ)
        → Among id w.acks
        → Provider.consumer_of_client client w.provider.consumer_clients ≡ some c
        → Step w (record w {
          provider = Provider.on_acknowledgement_packet_v2 dec w.provider now client id false;
        })
    flush : (w : World dec) → Step w (record w { consumer = (Consumer.end_block dec w.consumer).0 })
    -- The consumer's other operations, which leave the relay's state.
    consumer_elsewhere :
        (w : World dec) (k' : Consumer.State dec)
        → k'.highest_valset_update_id ≡ w.consumer.highest_valset_update_id
        → ((key : ℕ) → effective dec k' key ≡ effective dec w.consumer key)
        → Step w (record w { consumer = k' })

  pub data Reach (w : World dec) : World dec → Type 0 where
    here : Reach w w
    next : {u t : World dec} → Reach w u → Step u t → Reach w t
