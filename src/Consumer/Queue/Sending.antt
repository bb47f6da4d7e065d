-- ===== src/Consumer/Queue/Sending.antt =====
-- A block sends a bounded number of packets, and only those leave the queue (SendEvidencePackets of
-- x/vaas/consumer/keeper/evidence_packet.go).
use vaas.Base.{
  ℕ, suc, ◌+◌, ◌≤◌, ◌≡◌, ◌⊎◌, refl, Bool, true, false, ◌&&◌, ◌||◌, none, some, List, [], ◌∷◌, leb,
  if◌then◌else◌, length, nat_eq, pair_eq, pair_beq, arith, Bool-cases, Option-cases, inl, inr, All,
  All-map,
}
use vaas.Base.Store.{IsStore, get, remove, get-remove, get-behind}
use vaas.Evidence.{EvidencePacketData}
use vaas.Evidence.Decimal.{Decimals}
use vaas.Consumer.State.{Keeper}
use vaas.Consumer.Queue.{Pending, Ibc, sent_keys, remove_keys, send_evidence_packets}

unfoldable pub listed : ℕ × ℕ → List (ℕ × ℕ) → Bool
listed key [] = false
listed key (j ∷ js) = pair_beq nat_eq nat_eq j key || listed key js

module _ (dec : Decimals) where
  -- The key of a packet in a queue that was committed.
  abbrev pub IsSent : (EvidencePacketData dec → Bool) → Pending dec → ℕ × ℕ → Type 0
  IsSent send m key = (e : EvidencePacketData dec) × (get key m ≡ some e) × (send e ≡ true)

  length-sent_keys :
      (send : EvidencePacketData dec → Bool) (m : Pending dec) (sent : ℕ)
      → sent ≤ 50
      → length (sent_keys dec send m sent) + sent ≤ 50
  unfolding sent_keys
  length-sent_keys send [] sent le = omega (arith, le)
  length-sent_keys send (x ∷ m) sent le = elim (Bool-cases (leb 50 sent)) [
    | inl full ↦ ground (arith, full, le)
    | inr free ↦ ground (
      arith,
      free,
      length-sent_keys send m (suc sent) (ground (arith, free)),
      length-sent_keys send m sent le,
    )
  ]

  IsSent-here :
      (send : EvidencePacketData dec → Bool) (x : (ℕ × ℕ) × EvidencePacketData dec)
      (m : Pending dec)
      → send x.1 ≡ true
      → IsSent send (x ∷ m) x.0
  unfolding get
  IsSent-here send x m h = (x.1, ground arith, h)

  sent_keys-IsSent :
      (send : EvidencePacketData dec → Bool) (m : Pending dec) (sent : ℕ)
      → IsStore m
      → All (IsSent send m) (sent_keys dec send m sent)
  unfolding sent_keys
  sent_keys-IsSent send [] sent distinct = tt
  sent_keys-IsSent send (x ∷ m) sent distinct = elim (Bool-cases (leb 50 sent)) [
    | inl full ↦ rw full tt
    | inr free ↦ elim (Bool-cases (send x.1)) [
      | inl committed ↦
          rw (free, committed)
            (
              IsSent-here send x m committed,
              All-map (sent_keys dec send m (suc sent)) behind
                  (sent_keys-IsSent send m (suc sent) distinct.1),
            )
      | inr failed ↦
          rw (free, failed)
            (All-map (sent_keys dec send m sent) behind (sent_keys-IsSent send m sent distinct.1))
    ]
  ]
    where
      behind : (key : ℕ × ℕ) → IsSent send m key → IsSent send (x ∷ m) key
      behind key (e, found, committed) = (e, get-behind x m key e distinct found, committed)

  get-remove_keys :
      (key : ℕ × ℕ) (keys : List (ℕ × ℕ)) (m : Pending dec)
      → get key (remove_keys dec keys m) ≡ (if listed key keys then none else get key m)
  unfolding remove_keys listed
  get-remove_keys key [] m = refl
  get-remove_keys key (j ∷ js) m =
      ground (arith, get-remove_keys key js (remove j m), get-remove key j m)

  -- A committed packet is among the keys, unless they have reached the limit.
  sent_keys-served :
      (send : EvidencePacketData dec → Bool) (m : Pending dec) (sent : ℕ) (key : ℕ × ℕ)
      (e : EvidencePacketData dec)
      → sent ≤ 50
      → get key m ≡ some e
      → send e ≡ true
      → (listed key (sent_keys dec send m sent) ≡ true)
        ⊎ (length (sent_keys dec send m sent) + sent ≡ 50)
  unfolding sent_keys listed get
  sent_keys-served send [] sent key e le found committed = ground (arith, found)
  sent_keys-served send (x ∷ m) sent key e le found committed = elim (Bool-cases (leb 50 sent)) [
    | inl full ↦ inr (ground (arith, full, le))
    | inr free ↦ elim (Bool-cases (pair_beq nat_eq nat_eq x.0 key)) [
      | inl here ↦ inl (ground (arith, free, here, found, committed))
      | inr behind ↦
          let found' : get key m ≡ some e = ground (arith, behind, found) in
          elim (Bool-cases (send x.1)) [
            | inl goes ↦
                elim (sent_keys-served send m (suc sent) key e (ground (arith, free)) found'
                  committed) [
                    | inl served ↦ inl (ground (arith, free, goes, served))
                    | inr reached ↦ inr (ground (arith, free, goes, reached))
                  ]
            | inr stays ↦ elim (sent_keys-served send m sent key e le found' committed) [
              | inl served ↦ inl (ground (arith, free, stays, served))
              | inr reached ↦ inr (ground (arith, free, stays, reached))
            ]
          ]
    ]
  ]

  -- There is a provider client, it is active, and it has a counterparty.
  abbrev pub can_send : Ibc dec → Bool
  can_send ibc = elim ibc.provider_client_id [
    | none ↦ false
    | some client ↦ ibc.is_active client && ibc.has_counterparty client
  ]

  -- One block takes at most 50 packets from the queue, each of them one that SendPacket committed,
  -- and every other packet stays. Without a provider client, or when it is not active or has no
  -- counterparty, nothing is taken and the keeper is left as it was; with one, a packet stays only if
  -- SendPacket does not commit it or 50 were taken. No packet is stored twice.
  pub send_evidence_packets_bounded :
      (k : Keeper dec) (ibc : Ibc dec)
      → IsStore k.pending_evidence_packets
      → (sent : List (ℕ × ℕ)) × (length sent ≤ 50)
        × All (IsSent ibc.send_packet k.pending_evidence_packets) sent
        × ((key : ℕ × ℕ)
            → get key (send_evidence_packets dec k ibc).pending_evidence_packets
              ≡ (if listed key sent then none else get key k.pending_evidence_packets))
        × (can_send ibc ≡ false → (sent ≡ []) × (send_evidence_packets dec k ibc ≡ k))
        × (can_send ibc ≡ true
            → (key : ℕ × ℕ) (e : EvidencePacketData dec)
            → get key k.pending_evidence_packets ≡ some e
            → ibc.send_packet e ≡ true
            → (listed key sent ≡ true) ⊎ (length sent ≡ 50))
  unfolding send_evidence_packets listed
  send_evidence_packets_bounded k ibc distinct = elim (Option-cases ibc.provider_client_id) [
    | inl nobody ↦ (
      [],
      omega arith,
      tt,
      λ key. ground (arith, nobody),
      λ h. (refl, ground (arith, nobody)),
      λ h key e found committed. ground (arith, nobody, h),
    )
    | inr (client, found) ↦
        elim (Bool-cases (ibc.is_active client && ibc.has_counterparty client)) [
          | inr inactive ↦ (
            [],
            omega arith,
            tt,
            λ key. ground (arith, found, inactive),
            λ h. (refl, ground (arith, found, inactive)),
            λ h key e there committed. ground (arith, found, inactive, h),
          )
          | inl active ↦
              let m = k.pending_evidence_packets in
              let sent = sent_keys dec ibc.send_packet m 0 in
              (
                sent,
                omega (arith, length-sent_keys ibc.send_packet m 0 (omega arith)),
                sent_keys-IsSent ibc.send_packet m 0 distinct,
                λ key. ground (arith, found, active, get-remove_keys key sent m),
                λ h. ground (arith, found, active, h),
                λ h key e there committed.
                    elim (sent_keys-served ibc.send_packet m 0 key e (omega arith) there
                      committed) [
                        | inl served ↦ inl served
                        | inr reached ↦ inr (omega (arith, reached))
                      ],
              )
        ]
  ]
