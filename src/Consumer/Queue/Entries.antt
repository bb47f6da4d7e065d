-- ===== src/Consumer/Queue/Entries.antt =====
-- What queueing a packet does to the entries of the queue
-- (x/vaas/consumer/keeper/evidence_packet.go).
use vaas.Base.{ℕ, zero, suc, ◌≡◌, ◌⊎◌, some, arith, nat_eq, pair_eq, inl, inr, Option-cases}
use vaas.Base.Store.{get, set, remove, get-set, get-remove}
use vaas.Evidence.{EvidencePacketData}
use vaas.Evidence.Decimal.{Decimals}
use vaas.Consumer.State.{Keeper}
use vaas.Consumer.Queue.{
  Pending, of_validator, oldest, evict, evict_oldest_pending_evidence, queue_evidence_packet,
}

module _ (dec : Decimals) where
  -- Eviction adds nothing.
  pub evict-kept :
      (addr n : ℕ) (m : Pending dec) (key : ℕ × ℕ) (e : EvidencePacketData dec)
      → get key (evict dec addr n m) ≡ some e
      → get key m ≡ some e
  unfolding evict
  evict-kept addr zero m key e h = h
  evict-kept addr (suc n) m key e h = elim (Option-cases (oldest dec (of_validator dec addr m))) [
    | inl nothing ↦ ground (arith, nothing, h)
    | inr (height, found) ↦
        let kept = evict-kept addr n (remove (addr, height) m) key e (ground (arith, found, h)) in
        ground (arith, kept, get-remove key (addr, height) m)
  ]

  -- An entry of the queue was there, or is the queued packet.
  pub queue_evidence_packet-entry :
      (k : Keeper dec) (packet : EvidencePacketData dec) (key : ℕ × ℕ) (e : EvidencePacketData dec)
      → get key (queue_evidence_packet dec k packet).pending_evidence_packets ≡ some e
      → (get key k.pending_evidence_packets ≡ some e) ⊎ (packet ≡ e)
  unfolding queue_evidence_packet evict_oldest_pending_evidence
  queue_evidence_packet-entry k packet key e h =
      let own : ℕ × ℕ = (packet.validator_addr, packet.window_end_height) in
      let stored = set own packet k.pending_evidence_packets in
      let kept = evict-kept packet.validator_addr _ stored key e h in
      ground (arith, kept, get-set key own packet k.pending_evidence_packets)
