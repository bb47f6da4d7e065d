-- ===== src/Consumer/Queue/Bound.antt =====
-- The queue is bounded, and what it drops is the oldest (evictOldestPendingEvidence of
-- x/vaas/consumer/keeper/evidence_packet.go).
use vaas.Base.{
  ℕ, zero, suc, ◌-◌, ◌≤◌, ◌<◌, ◌≡◌, refl, ap, sym, ◌∙◌, Bool, true, ◌&&◌, Option, none, some, [],
  ◌∷◌, ltb, ◌==◌, length, is_some, nat_eq, pair_eq, pair_beq, arith, Bool-cases, Option-cases, inl,
  inr, All, All-map, All-if,
}
use vaas.Base.Store.{get, select, set, clear, remove, get-remove, get-set, get-select}
use vaas.Evidence.{EvidencePacketData}
use vaas.Evidence.Decimal.{Decimals}
use vaas.Consumer.State.{Keeper}
use vaas.Consumer.Queue.Entries.{evict-kept}
use vaas.Consumer.Queue.{
  Pending, of_validator, lowest, oldest, evict, evict_oldest_pending_evidence,
  queue_evidence_packet, max_pending_evidence_per_validator,
}

module _ (dec : Decimals) where
  lowest-le_start : (m : Pending dec) (low : ℕ) → lowest dec m low ≤ low
  unfolding lowest
  lowest-le_start [] low = omega arith
  lowest-le_start (x ∷ m) low = ground (arith, lowest-le_start m low, lowest-le_start m x.0.1)

  -- The lowest height is no higher than that of an entry.
  lowest-le :
      (addr t low : ℕ) (m : Pending dec) → is_some (get (addr, t) m) ≡ true → lowest dec m low ≤ t
  unfolding lowest get
  lowest-le addr t low [] h = ground (arith, h)
  lowest-le addr t low (x ∷ m) h = elim (Bool-cases (x.0.0 == addr && x.0.1 == t)) [
    | inl here ↦ ground (arith, here, lowest-le_start m low, lowest-le_start m x.0.1)
    | inr behind ↦ ground (
      arith,
      behind,
      lowest-le addr t low m (ground (arith, behind, h)),
      lowest-le addr t x.0.1 m (ground (arith, behind, h)),
    )
  ]

  -- The lowest height is that of an entry.
  lowest-found :
      (addr : ℕ) (m : Pending dec) (low : ℕ) (whole : Pending dec)
      → is_some (get (addr, low) whole) ≡ true
      → All (λ x. is_some (get (addr, x.0.1) whole) ≡ true) m
      → is_some (get (addr, lowest dec m low) whole) ≡ true
  unfolding lowest
  lowest-found addr [] low whole first others = first
  lowest-found addr (x ∷ m) low whole first others = elim (Bool-cases (ltb x.0.1 low)) [
    | inl lower ↦ rw lower (lowest-found addr m x.0.1 whole others.0 others.1)
    | inr higher ↦ rw higher (lowest-found addr m low whole first others.1)
  ]

  found_here :
      (addr : ℕ) (x : (ℕ × ℕ) × EvidencePacketData dec) (m : Pending dec)
      → (x.0.0 == addr) ≡ true
      → is_some (get (addr, x.0.1) (x ∷ m)) ≡ true
  unfolding get
  found_here addr x m h = ground (arith, h)

  found_behind :
      (addr t : ℕ) (x : (ℕ × ℕ) × EvidencePacketData dec) (m : Pending dec)
      → is_some (get (addr, t) m) ≡ true
      → is_some (get (addr, t) (x ∷ m)) ≡ true
  unfolding get
  found_behind addr t x m h = ground (arith, h)

  -- Every entry of a validator is found under the validator's address.
  of_validator-found :
      (addr : ℕ) (m : Pending dec)
      → All (λ x. is_some (get (addr, x.0.1) m) ≡ true) (of_validator dec addr m)
  unfolding of_validator select
  of_validator-found addr [] = tt
  of_validator-found addr (x ∷ m) =
      All-if (λ y. is_some (get (addr, y.0.1) (x ∷ m)) ≡ true) (x.0.0 == addr) x
        (select (λ y. y.0.0 == addr) m) (found_here addr x m)
        (All-map (select (λ y. y.0.0 == addr) m) (λ y found. found_behind addr y.0.1 x m found)
          (of_validator-found addr m))

  oldest-of :
      (addr height : ℕ) (m xs : Pending dec)
      → All (λ x. is_some (get (addr, x.0.1) m) ≡ true) xs
      → oldest dec xs ≡ some height
      → is_some (get (addr, height) m) ≡ true
  unfolding oldest
  oldest-of addr height m [] found h = ground (arith, h)
  oldest-of addr height m (x ∷ xs) found h =
      ap (λ (t : ℕ). is_some (get (addr, t) m)) (sym (ground (arith, h)))
      ∙ lowest-found addr xs x.0.1 m found.0 found.1

  -- A list without an oldest entry is empty.
  oldest-none : (xs : Pending dec) → oldest dec xs ≡ none → length xs ≡ 0
  unfolding oldest
  oldest-none [] h = refl
  oldest-none (x ∷ xs) h = ground (arith, h)

  none_left :
      (addr : ℕ) (m : Pending dec)
      → oldest dec (of_validator dec addr m) ≡ none
      → length (of_validator dec addr m) ≡ 0
  none_left addr m h = oldest-none (of_validator dec addr m) h

  oldest-found :
      (addr height : ℕ) (m : Pending dec)
      → oldest dec (of_validator dec addr m) ≡ some height
      → is_some (get (addr, height) m) ≡ true
  oldest-found addr height m h =
      oldest-of addr height m (of_validator dec addr m) (of_validator-found addr m) h

  -- Removing fewer entries leaves no more.
  length-clear_le :
      (addr : ℕ) (q : ℕ × ℕ → Bool) (m : Pending dec)
      → length (of_validator dec addr (clear q m)) ≤ length (of_validator dec addr m)
  unfolding of_validator select clear
  length-clear_le addr q [] = omega arith
  length-clear_le addr q (x ∷ m) = ground (arith, length-clear_le addr q m)

  length-remove_lt :
      (addr height : ℕ) (m : Pending dec)
      → is_some (get (addr, height) m) ≡ true
      → length (of_validator dec addr (remove (addr, height) m)) < length (of_validator dec addr m)
  unfolding of_validator select remove clear get
  length-remove_lt addr height [] h = ground (arith, h)
  length-remove_lt addr height (x ∷ m) h = elim (Bool-cases (x.0.0 == addr && x.0.1 == height)) [
    | inl here ↦
        ground (arith, here, length-clear_le addr (λ j. pair_beq nat_eq nat_eq j (addr, height)) m)
    | inr behind ↦
        ground (arith, behind, length-remove_lt addr height m (ground (arith, behind, h)))
  ]

  -- Evicting n entries leaves at most as many as there were, less n.
  length-evict :
      (addr n : ℕ) (m : Pending dec)
      → length (of_validator dec addr (evict dec addr n m)) ≤ length (of_validator dec addr m) - n
  unfolding evict
  length-evict addr zero m = omega arith
  length-evict addr (suc n) m = elim (Option-cases (oldest dec (of_validator dec addr m))) [
    | inl nothing ↦ ground (arith, nothing, none_left addr m nothing)
    | inr (height, found) ↦ ground (
      arith,
      found,
      length-remove_lt addr height m (oldest-found addr height m found),
      length-evict addr n (remove (addr, height) m),
    )
  ]

  -- Starting from the first entry's height, that entry lowers nothing.
  lowest-twice :
      (x : (ℕ × ℕ) × EvidencePacketData dec) (xs : Pending dec)
      → lowest dec (x ∷ xs) x.0.1 ≡ lowest dec xs x.0.1
  unfolding lowest
  lowest-twice x xs = ground arith

  lowest_of-le :
      (addr height t : ℕ) (xs : Pending dec)
      → oldest dec xs ≡ some height
      → is_some (get (addr, t) xs) ≡ true
      → height ≤ t
  unfolding oldest
  lowest_of-le addr height t [] h found = ground (arith, h)
  lowest_of-le addr height t (x ∷ xs) h found =
      let in_tail = lowest-le addr t x.0.1 (x ∷ xs) found in
      ground (arith, h, in_tail, lowest-twice x xs)

  -- The oldest is no newer than an entry.
  oldest-le :
      (addr height t : ℕ) (m : Pending dec)
      → oldest dec (of_validator dec addr m) ≡ some height
      → is_some (get (addr, t) m) ≡ true
      → height ≤ t
  unfolding of_validator
  oldest-le addr height t m h found =
      lowest_of-le addr height t (select (λ x. x.0.0 == addr) m) h
        (ground (arith, found, get-select (λ key. key.0 == addr) (addr, t) m))

  -- What eviction keeps was there.
  evict-some :
      (addr n t : ℕ) (m : Pending dec)
      → is_some (get (addr, t) (evict dec addr n m)) ≡ true
      → is_some (get (addr, t) m) ≡ true
  evict-some addr n t m h = elim (Option-cases (get (addr, t) (evict dec addr n m))) [
    | inl absent ↦ ground (arith, absent, h)
    | inr (e, found) ↦
        ap (λ (o : Option (EvidencePacketData dec)). is_some o)
          (evict-kept dec addr n m (addr, t) e found)
  ]

  -- What eviction drops of a validator is older than what it keeps.
  evict-oldest :
      (addr n t kept : ℕ) (m : Pending dec)
      → is_some (get (addr, t) m) ≡ true
      → get (addr, t) (evict dec addr n m) ≡ none
      → is_some (get (addr, kept) (evict dec addr n m)) ≡ true
      → t < kept
  unfolding evict
  evict-oldest addr zero t kept m was gone stays = ground (arith, was, gone)
  evict-oldest addr (suc n) t kept m was gone stays =
      elim (Option-cases (oldest dec (of_validator dec addr m))) [
        | inl nothing ↦ ground (arith, nothing, was, gone)
        | inr (height, found) ↦
            let rest = remove (addr, height) m in
            let kept_in_rest = evict-some addr n kept rest (ground (arith, found, stays)) in
            let kept_in_m = get-remove (addr, kept) (addr, height) m in
            let le = oldest-le addr height kept m found in
            elim (Bool-cases (height == t)) [
              | inl oldest_gone ↦ ground (arith, oldest_gone, kept_in_rest, kept_in_m, le)
              | inr younger ↦
                  evict-oldest addr n t kept rest
                    (ground (arith, younger, was, get-remove (addr, t) (addr, height) m))
                    (ground (arith, found, gone)) (ground (arith, found, stays))
            ]
      ]

  -- A validator holds at most 16 pending packets after one of its packets has been queued, and what
  -- it lost is older than what it still holds.
  pub queue_evidence_packet_bound :
      (k : Keeper dec) (packet : EvidencePacketData dec)
      → let addr = packet.validator_addr in
        let queue = (queue_evidence_packet dec k packet).pending_evidence_packets in
        (length (of_validator dec addr queue) ≤ 16)
        × ((t kept : ℕ)
            → is_some (get (addr, t) k.pending_evidence_packets) ≡ true
            → get (addr, t) queue ≡ none
            → is_some (get (addr, kept) queue) ≡ true
            → t < kept)
  unfolding queue_evidence_packet evict_oldest_pending_evidence
  queue_evidence_packet_bound k packet =
      let addr = packet.validator_addr in
      let own : ℕ × ℕ = (addr, packet.window_end_height) in
      let stored = set own packet k.pending_evidence_packets in
      let surplus = length (of_validator dec addr stored) - max_pending_evidence_per_validator in
      (
        omega (arith, length-evict addr surplus stored),
        λ t kept was gone stays.
            evict-oldest addr surplus t kept stored
              (ground (arith, was, get-set (addr, t) own packet k.pending_evidence_packets)) gone
              stays,
      )
