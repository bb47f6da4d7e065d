-- ===== src/Consumer/Queue.antt =====
-- The queue of pending evidence packets (x/vaas/consumer/keeper/evidence_packet.go).
pub mod Entries
pub mod Bound
pub mod Sending
mod Tests
use vaas.Base.{
  ℕ, zero, suc, ◌-◌, Bool, not, ◌&&◌, Option, none, some, List, [], ◌∷◌, ltb, leb, ◌==◌,
  if◌then◌else◌, length, nat_eq, pair_eq,
}
use vaas.Base.Store.{Store, set, remove, select}
use vaas.Evidence.{EvidencePacketData, validate, valid, invalid}
use vaas.Evidence.Decimal.{Decimals}
use vaas.Consumer.State.{Keeper}

abbrev pub max_pending_evidence_per_validator : ℕ
max_pending_evidence_per_validator = 16

abbrev pub max_evidence_sends_per_block : ℕ
max_evidence_sends_per_block = 50

module _ (dec : Decimals) where
  abbrev pub Pending : Type 0
  Pending = Store (ℕ × ℕ) (EvidencePacketData dec)

  -- The entries of one validator.
  unfoldable pub of_validator : ℕ → Pending → Pending
  of_validator addr m = select (λ x. x.0.0 == addr) m

  -- The lowest window-end height of a list of entries.
  unfoldable pub lowest : Pending → ℕ → ℕ
  lowest [] low = low
  lowest (x ∷ m) low = lowest m (if ltb x.0.1 low then x.0.1 else low)

  unfoldable pub oldest : Pending → Option ℕ
  oldest [] = none
  oldest (x ∷ m) = some (lowest m x.0.1)

  -- The loop of evictOldestPendingEvidence: it removes `n` entries of a validator, each time the one
  -- with the lowest window-end height.
  unfoldable pub evict : ℕ → ℕ → Pending → Pending
  evict addr zero m = m
  evict addr (suc n) m = elim (oldest (of_validator addr m)) [
    | none ↦ m
    | some height ↦ evict addr n (remove (addr, height) m)
  ]

  -- evictOldestPendingEvidence.
  unfoldable pub evict_oldest_pending_evidence : Keeper dec → ℕ → Keeper dec
  evict_oldest_pending_evidence k addr = record k {
    pending_evidence_packets =
        evict addr
          (length (of_validator addr k.pending_evidence_packets)
            - max_pending_evidence_per_validator)
          k.pending_evidence_packets;
  }

  -- QueueEvidencePacket.
  unfoldable pub queue_evidence_packet : Keeper dec → EvidencePacketData dec → Keeper dec
  queue_evidence_packet k packet =
      evict_oldest_pending_evidence
        (record k {
          pending_evidence_packets =
              set (packet.validator_addr, packet.window_end_height) packet
                k.pending_evidence_packets;
        })
        packet.validator_addr

  -- RequeueEvidencePacket, given what its payload decodes to; `none` is an error.
  unfoldable pub requeue_evidence_packet :
      Keeper dec → Option (EvidencePacketData dec) → Option (Keeper dec)
  requeue_evidence_packet k none = none
  requeue_evidence_packet k (some packet) = elim (validate dec packet) [
    | invalid why ↦ none
    | valid ↦ some (queue_evidence_packet k packet)
  ]

  -- What sending uses of IBC: the provider's client, whether it is active and has a counterparty, and
  -- whether SendPacket commits a packet.
  pub record Ibc : Type 0 where
    pub provider_client_id : Option ℕ
    pub is_active : ℕ → Bool
    pub has_counterparty : ℕ → Bool
    pub send_packet : EvidencePacketData dec → Bool

  -- The loop of SendEvidencePackets: the keys of the packets that were committed.
  unfoldable pub sent_keys : (EvidencePacketData dec → Bool) → Pending → ℕ → List (ℕ × ℕ)
  sent_keys send [] sent = []
  sent_keys send (x ∷ m) sent =
      if leb max_evidence_sends_per_block sent
      then []
      else if send x.1
      then x.0 ∷ sent_keys send m (suc sent)
      else sent_keys send m sent

  unfoldable pub remove_keys : List (ℕ × ℕ) → Pending → Pending
  remove_keys [] m = m
  remove_keys (key ∷ keys) m = remove_keys keys (remove key m)

  -- SendEvidencePackets.
  unfoldable pub send_evidence_packets : Keeper dec → Ibc → Keeper dec
  send_evidence_packets k ibc = elim ibc.provider_client_id [
    | none ↦ k
    | some client ↦
        if not (ibc.is_active client && ibc.has_counterparty client) then k else record k {
          pending_evidence_packets =
              remove_keys (sent_keys ibc.send_packet k.pending_evidence_packets 0)
                k.pending_evidence_packets;
        }
  ]
