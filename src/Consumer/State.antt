-- ===== src/Consumer/State.antt =====
-- The stored state of the consumer's keeper (x/vaas/consumer/keeper/keeper.go) that downtime
-- detection reads and writes. A queued packet is stored as its JSON encoding in the source, and as
-- the packet here.
use vaas.Base.{ℕ, Option, List}
use vaas.Base.Store.{Store}
use vaas.Evidence.{DowntimeParams, EvidencePacketData}
use vaas.Evidence.Decimal.{Decimals}

module _ (dec : Decimals) where
  pub record Keeper : Type 0 where
    -- The two fields of the consumer's parameters that downtime detection uses.
    pub params : DowntimeParams dec
    pub first_tracked_heights : Store ℕ ℕ
    pub missed_block_bitmaps : Store ℕ (List ℕ)
    pub staged_downtime_params : Option (DowntimeParams dec)
    -- By validator and window-end height.
    pub pending_evidence_packets : Store (ℕ × ℕ) (EvidencePacketData dec)
