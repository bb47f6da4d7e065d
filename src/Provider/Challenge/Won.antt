-- ===== src/Provider/Challenge/Won.antt =====
-- What a challenge that succeeds proves, and what it does
-- (x/vaas/provider/keeper/downtime_challenge.go).
use vaas.Base.{
  ℕ, ◌+◌, ◌-◌, ◌≡◌, refl, ◌∙◌, Bool, true, ◌&&◌, Option, none, some, [], ◌∷◌, ◌==◌, ==_iff,
  if◌then◌else◌, value_or, nat_eq, pair_eq, arith, Bool-cases, Option-cases, inl, inr, All, some_if,
  some_if-found, OnSome, OnSome-found, OnSome-map,
}
use vaas.Base.Store.{Store, get, select, IsStore, select-found, get-clear}
use vaas.Evidence.Decimal.{Decimals}
use vaas.Evidence.Bitmap.{bitmap_is_set}
use vaas.Provider.State.{
  Phase, unspecified, registered, initialized, launched, stopped, deleted, paused, phase_eq,
}
use vaas.Provider.Bank.{Bank}
use vaas.Provider.Downtime.{WindowKey, PendingDowntimeSlash}
use vaas.Provider.Lifecycle.{
  State, Chain, downtime_challenge, phase_of, with_keeper, set_consumer_phase,
  cancel_consumer_downtime_state, pause_now, schedule_auto_stop, pause_consumer_chain,
}
use vaas.Provider.Lifecycle.Scheduled.{pause_now-phase_of}
use vaas.Provider.Challenge.Verified.{IsVerified, proves-IsVerified}
use vaas.Provider.Challenge.{
  Challenge, Crypto, Header, contains, first, find_under_provider_addr, find_by_consumer_addr,
  or_else, find_pending_downtime_slash_containing, proves, disproven_slash,
  handle_challenge_consumer_downtime,
}

-- A slash that waits for a consumer, whose window contains a height.
abbrev pub Accuses : Store WindowKey PendingDowntimeSlash → ℕ → ℕ → PendingDowntimeSlash → Type 0
Accuses pending consumer height slash =
    (key : WindowKey) × (get key pending ≡ some slash)
    × (key.0 ≡ consumer)
    × (contains height slash ≡ true)

first-All :
    (P : WindowKey × PendingDowntimeSlash → Type 0) (xs : Store WindowKey PendingDowntimeSlash)
    → All P xs
    → OnSome (λ slash. (key : WindowKey) × P (key, slash)) (first xs)
first-All P [] h = tt
first-All P (x ∷ xs) h = (x.0, h.0)

module _ (pending : Store WindowKey PendingDowntimeSlash) (consumer height : ℕ)
    (stored : IsStore pending) where
  -- The first of the slashes that wait for the consumer, contain the height and pass a test.
  first_selected-Accuses :
      (q : WindowKey × PendingDowntimeSlash → Bool)
      → OnSome
          (Accuses pending consumer height)
          (first (select (λ x. x.0.0 == consumer && (q x && contains height x.1)) pending))
  first_selected-Accuses q =
      let p : WindowKey × PendingDowntimeSlash → Bool =
        λ x. x.0.0 == consumer && (q x && contains height x.1) in
      let P : WindowKey × PendingDowntimeSlash → Type 0 =
        λ x. (get x.0 pending ≡ some x.1) × (p x ≡ true) in
      OnSome-map (λ slash. (key : WindowKey) × P (key, slash)) (Accuses pending consumer height)
        (first (select p pending))
        (λ slash (key, found). (key, found.0, ground (arith, found.1), ground (arith, found.1)))
        (first-All P (select p pending) (select-found p pending stored))

  or_else-Accuses :
      (o o' : Option PendingDowntimeSlash)
      → OnSome (Accuses pending consumer height) o
      → OnSome (Accuses pending consumer height) o'
      → OnSome (Accuses pending consumer height) (or_else o o')
  or_else-Accuses none o' h h' = h'
  or_else-Accuses (some x) o' h h' = h

  find_pending-Accuses :
      (assigned : Store (ℕ × ℕ) ℕ) (addr : ℕ)
      → OnSome
          (Accuses pending consumer height)
          (find_pending_downtime_slash_containing pending assigned consumer addr height)
  unfolding find_pending_downtime_slash_containing find_under_provider_addr find_by_consumer_addr
  find_pending-Accuses assigned addr =
      let provider_addr = value_or addr (get (consumer, addr) assigned) in
      or_else-Accuses (find_under_provider_addr pending consumer provider_addr height)
        (find_by_consumer_addr pending consumer addr height)
        (first_selected-Accuses (λ x. x.0.1.0 == provider_addr))
        (first_selected-Accuses (λ x. x.1.consumer_cons_addr == addr))

module _ (dec : Decimals) (bank : Bank) (crypto : Crypto) (chain : Chain dec) where
  -- A pending slash that is disproven: the header and the signature are those of the claimed height,
  -- which the slash's bitmap marks as missed.
  abbrev pub Disproves : State dec bank → Challenge → PendingDowntimeSlash → Type 0
  Disproves s msg slash =
      Accuses s.pending_downtime_slashes msg.consumer_id msg.claimed_height slash
      × (bitmap_is_set slash.missed_blocks_bitmap (msg.claimed_height - slash.window_start_height)
          ≡ true)
      × ((header : Header) × (chain_id : ℕ) × (client : ℕ) × (msg.header ≡ some header)
          × (get msg.consumer_id s.chain_ids ≡ some chain_id)
          × (get msg.consumer_id s.relay.consumer_clients ≡ some client)
          × (proves dec bank crypto chain msg header chain_id client ≡ true)
          × IsVerified dec bank crypto chain msg header chain_id client)

  disproves :
      (s : State dec bank) (msg : Challenge) (slash' slash : PendingDowntimeSlash)
      → IsStore s.pending_downtime_slashes
      → (header : Header) (chain_id client : ℕ)
      → find_pending_downtime_slash_containing s.pending_downtime_slashes
          s.validator_by_consumer_addr msg.consumer_id msg.validator_addr msg.claimed_height
        ≡ some slash'
      → msg.header ≡ some header
      → get msg.consumer_id s.chain_ids ≡ some chain_id
      → get msg.consumer_id s.relay.consumer_clients ≡ some client
      → some_if
          (bitmap_is_set slash'.missed_blocks_bitmap
              (msg.claimed_height - slash'.window_start_height)
            && proves dec bank crypto chain msg header chain_id client)
          slash'
        ≡ some slash
      → Disproves s msg slash
  disproves s msg slash' slash stored header chain_id client found given known bound run =
      let (checked, same) = some_if-found _ slash' slash run in
      let accuses =
        OnSome-found (Accuses s.pending_downtime_slashes msg.consumer_id msg.claimed_height)
          (find_pending_downtime_slash_containing s.pending_downtime_slashes
            s.validator_by_consumer_addr msg.consumer_id msg.validator_addr msg.claimed_height)
          slash
          (find_pending-Accuses s.pending_downtime_slashes msg.consumer_id msg.claimed_height stored
            s.validator_by_consumer_addr msg.validator_addr)
          (found ∙ same) in
      (
        accuses,
        ground (arith, checked, same),
        (
          header,
          chain_id,
          client,
          given,
          known,
          bound,
          ground (arith, checked),
          proves-IsVerified dec bank crypto chain msg header chain_id client
              (ground (arith, checked)),
        ),
      )

  disproven_slash-Disproves :
      (s : State dec bank) (msg : Challenge) (slash : PendingDowntimeSlash)
      → IsStore s.pending_downtime_slashes
      → disproven_slash dec bank crypto chain s msg ≡ some slash
      → Disproves s msg slash
  unfolding disproven_slash
  disproven_slash-Disproves s msg slash stored run =
      let search =
        find_pending_downtime_slash_containing s.pending_downtime_slashes
          s.validator_by_consumer_addr msg.consumer_id msg.validator_addr msg.claimed_height in
      elim (Option-cases msg.header) [
        | inl malformed ↦ ground (arith, malformed, run)
        | inr (header, given) ↦ elim (Option-cases search) [
          | inl nothing ↦ ground (arith, given, nothing, run)
          | inr (slash', found) ↦ elim (Option-cases (get msg.consumer_id s.chain_ids)) [
            | inl unknown ↦ ground (arith, given, found, unknown, run)
            | inr (chain_id, known) ↦
                elim (Option-cases (get msg.consumer_id s.relay.consumer_clients)) [
                  | inl unbound ↦ ground (arith, given, found, known, unbound, run)
                  | inr (client, bound) ↦
                      disproves s msg slash' slash stored header chain_id client found given known
                        bound (ground (arith, given, found, known, bound, run))
                ]
          ]
        ]
      ]

  -- What PauseConsumerChain does to a consumer and to the slashes.
  abbrev pub PausesNow : State dec bank → ℕ → State dec bank → Type 0
  PausesNow s i s' =
      (phase_of dec bank s i ≡ launched)
      × (phase_of dec bank s' i ≡ paused)
      × ((key : WindowKey)
          → get key s'.pending_downtime_slashes
            ≡ (if key.0 == i then none else get key s.pending_downtime_slashes))

  schedule-phase :
      (s : State dec bank) (i : ℕ)
      → phase_of dec bank
          (schedule_auto_stop dec bank
            (pause_now dec bank chain s i downtime_challenge)
            i
            (chain.now + chain.max_pause_duration))
          i
        ≡ paused
  unfolding schedule_auto_stop phase_of
  schedule-phase s i =
      ground (arith, pause_now-phase_of dec bank chain s i downtime_challenge i, ==_iff i i)

  schedule-pending :
      (s : State dec bank) (i : ℕ) (key : WindowKey)
      → get key
          (schedule_auto_stop dec bank
            (pause_now dec bank chain s i downtime_challenge)
            i
            (chain.now + chain.max_pause_duration)).pending_downtime_slashes
        ≡ (if key.0 == i then none else get key s.pending_downtime_slashes)
  unfolding schedule_auto_stop pause_now cancel_consumer_downtime_state with_keeper
      set_consumer_phase
  schedule-pending s i key = get-clear key (λ k. k.0 == i) s.pending_downtime_slashes

  phase_eq-launched : (phase : Phase) → phase_eq phase launched ≡ true → phase ≡ launched
  phase_eq-launched launched h = refl
  phase_eq-launched unspecified h = ground (arith, h)
  phase_eq-launched registered h = ground (arith, h)
  phase_eq-launched initialized h = ground (arith, h)
  phase_eq-launched stopped h = ground (arith, h)
  phase_eq-launched deleted h = ground (arith, h)
  phase_eq-launched paused h = ground (arith, h)

  pause_consumer_chain-PausesNow :
      (s : State dec bank) (i : ℕ)
      → OnSome (PausesNow s i) (pause_consumer_chain dec bank chain s i downtime_challenge)
  unfolding pause_consumer_chain
  pause_consumer_chain-PausesNow s i =
      elim (Bool-cases (phase_eq (phase_of dec bank s i) launched)) [
        | inr not_launched ↦ rw (OnSome, not_launched) tt
        | inl is_launched ↦
            rw (OnSome, is_launched)
              (
                phase_eq-launched (phase_of dec bank s i) is_launched,
                schedule-phase s i,
                λ key. schedule-pending s i key,
              )
      ]

  pub won_challenge_cancels_slashes :
      (s s' : State dec bank) (msg : Challenge)
      → IsStore s.pending_downtime_slashes
      → handle_challenge_consumer_downtime dec bank crypto chain s msg ≡ some s'
      → ((slash : PendingDowntimeSlash) × Disproves s msg slash) × PausesNow s msg.consumer_id s'
  unfolding handle_challenge_consumer_downtime
  won_challenge_cancels_slashes s s' msg stored run =
      elim (Option-cases (disproven_slash dec bank crypto chain s msg)) [
        | inl unproven ↦ ground (arith, unproven, run)
        | inr (slash, disproven) ↦ (
          (slash, disproven_slash-Disproves s msg slash stored disproven),
          OnSome-found (PausesNow s msg.consumer_id)
              (pause_consumer_chain dec bank chain s msg.consumer_id downtime_challenge) s'
              (pause_consumer_chain-PausesNow s msg.consumer_id) (ground (arith, disproven, run)),
        )
      ]
