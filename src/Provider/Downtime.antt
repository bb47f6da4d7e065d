-- ===== src/Provider/Downtime.antt =====
-- Acceptance of a consumer's downtime evidence (x/vaas/provider/keeper/downtime.go, with the
-- parameters of params.go and the pruning of downtime_slash.go). Times and durations are
-- nanoseconds; a test on the age of a window, which may be negative, is written without a
-- subtraction. Logs and events are left out.
pub mod Prune
pub mod Accept
pub mod Once
pub mod Fault
pub mod Report
pub mod Tests
use vaas.Base.{
  ℕ, ◌+◌, ◌*◌, Bool, true, false, not, ◌&&◌, ◌||◌, Option, none, some, List, [], ◌∷◌, ltb, leb,
  ◌==◌, if◌then◌else◌, value_or, is_some, nat_eq, pair_eq,
}
use vaas.Base.Int.{ℤ, pos, leb_ℤ}
use vaas.Base.Store.{Store, get, set}
use vaas.Evidence.{
  DowntimeParams, EvidencePacketData, Check, Invalid, valid, invalid, validate, echoed_params,
  packet_max_missed, missed_count, span,
}
use vaas.Evidence.Decimal.{Decimals}
use vaas.Provider.State.{Keeper, launched, phase_eq, get_consumer_phase}
use vaas.Provider.Fees.{Staking, resolve_epoch_share, live_epoch_share, mark_epoch_downtime}

pub record PendingDowntimeSlash : Type 0 where
  pub consumer_id : ℕ
  pub provider_cons_addr : ℕ
  pub consumer_cons_addr : ℕ
  pub window_start_height : ℕ
  pub span : ℕ
  pub missed_count : ℕ
  pub missed_blocks_bitmap : List ℕ
  pub slash_tokens : ℕ
  pub matures_at : ℕ

pub record AcceptedDowntimeWindow : Type 0 where
  pub window_start : ℕ
  pub accepted_at : ℕ

-- The consumer, the provider consensus address, and the window-end height.
abbrev pub WindowKey : Type 0
WindowKey = ℕ × (ℕ × ℕ)

-- What acceptance uses of x/staking, of the IBC client and of the photon module, and the decimal
-- arithmetic of a slash's price (share, missed blocks and span to tokens).
pub record Chain : Type 0 where
  pub staking : Staking
  -- GetValidatorByConsAddr, followed by GetConsAddr of the validator.
  pub live_cons_addr : ℕ → Option ℕ
  -- The heights of a client's consensus states, ascending, and the timestamp of the state there.
  pub consensus_heights : ℕ → List ℕ
  pub consensus_timestamp : ℕ → ℕ → Option ℕ
  pub trusting_period : ℕ → Option ℕ
  pub slash_price : ℕ → ℕ → ℕ → Option ℕ

pub data Rejection : Type 0 where
  malformed : Rejection
  not_launched unacceptable_params below_threshold too_low not_in_set no_client no_anchor
        no_initialization_parameters in_grace_period too_old no_trusting_period not_challengeable
        below_floor intersects no_price :
      Rejection

-- The lookup of a window among those accepted for a pair (checkAcceptedDowntimeWindowIntersection).
unfoldable pub intersects_accepted : ℕ → ℕ → ℕ → ℕ → Store WindowKey AcceptedDowntimeWindow → Bool
intersects_accepted consumer addr start end' [] = false
intersects_accepted consumer addr start end' (x ∷ m) =
    (x.0.0 == consumer && x.0.1.0 == addr && (leb start x.0.1.1 && leb x.1.window_start end'))
    || intersects_accepted consumer addr start end' m

-- The iteration of windowEndTimestamp: the last height at or below the window's end, and whether one
-- at or above it was reached.
unfoldable pub bracket : ℕ → List ℕ → Option ℕ → Option ℕ × Bool
bracket window_end [] anchor = (anchor, false)
bracket window_end (h ∷ hs) anchor =
    let anchor' = if leb h window_end then some h else anchor in
    if leb window_end h then (anchor', true) else bracket window_end hs anchor'

-- windowEndTimestamp.
unfoldable pub window_end_timestamp : Chain → ℕ → ℕ → Option ℕ
window_end_timestamp chain client window_end =
    let (anchor, upper) = bracket window_end (chain.consensus_heights client) none in
    if not upper
    then none
    else elim anchor [ none ↦ none | some h ↦ chain.consensus_timestamp client h ]

module _ (dec : Decimals) where
  pub record State : Type 0 where
    pub keeper : Keeper
    -- The downtime fields of the infraction parameters.
    pub downtime_params : DowntimeParams dec
    -- The superseded ones, and when they were.
    pub previous_downtime_params : Option (DowntimeParams dec × ℕ)
    pub validator_by_consumer_addr : Store (ℕ × ℕ) ℕ
    pub equivocation_evidence_min_height : Store ℕ ℕ
    pub consumer_validators : Store (ℕ × ℕ) Bool
    pub consumer_clients : Store ℕ ℕ
    -- The spawn times of the consumers' initialization parameters.
    pub spawn_times : Store ℕ ℕ
    pub downtime_window_floors : Store (ℕ × ℕ) ℕ
    pub pending_downtime_slashes : Store WindowKey PendingDowntimeSlash
    pub accepted_downtime_windows : Store WindowKey AcceptedDowntimeWindow

  pub data Outcome : Type 0 where
    accepted : State → Outcome
    rejected : Rejection → Outcome

  abbrev pub same_params : DowntimeParams dec → DowntimeParams dec → Bool
  same_params p q =
      p.signed_blocks_window == q.signed_blocks_window
      && dec.equal p.min_signed_per_window q.min_signed_per_window

  -- AcceptableDowntimeParams.
  unfoldable pub acceptable_downtime_params : State → ℕ → DowntimeParams dec → Bool
  acceptable_downtime_params s now echoed =
      if same_params echoed s.downtime_params then true else elim s.previous_downtime_params [
        | none ↦ false
        | some previous ↦
            if not (same_params echoed previous.0)
            then false
            else leb now (
                previous.1
                + (s.keeper.infraction_params.downtime_evidence_max_age
                    + s.keeper.infraction_params.downtime_challenge_window))
      ]

  -- GetProviderAddrFromConsumerAddr.
  unfoldable pub get_provider_addr_from_consumer_addr : State → ℕ → ℕ → ℕ
  get_provider_addr_from_consumer_addr s consumer addr =
      value_or addr (get (consumer, addr) s.validator_by_consumer_addr)

  -- IsConsumerValidator.
  unfoldable pub is_consumer_validator : State → ℕ → ℕ → Bool
  is_consumer_validator s consumer addr = is_some (get (consumer, addr) s.consumer_validators)

  -- liveProviderConsAddr.
  unfoldable pub live_provider_cons_addr : Chain → ℕ → ℕ
  live_provider_cons_addr chain addr = value_or addr (chain.live_cons_addr addr)

  -- accusedConsumerValidatorAddr.
  unfoldable pub accused_consumer_validator_addr : State → Chain → ℕ → ℕ → ℕ × Bool
  accused_consumer_validator_addr s chain consumer addr =
      if is_consumer_validator s consumer addr
      then (addr, true)
      else let rotated = live_provider_cons_addr chain addr in
        (rotated, is_consumer_validator s consumer rotated)

  -- ResolveDowntimeSlashTokens.
  unfoldable pub resolve_downtime_slash_tokens :
      State → Chain → ℕ → EvidencePacketData dec → ℕ → Option ℕ
  resolve_downtime_slash_tokens s chain consumer e window_end_time =
      let share : Option ℕ = elim (resolve_epoch_share s.keeper consumer window_end_time) [
        | none ↦ live_epoch_share s.keeper chain.staking consumer
        | some recorded ↦ some recorded
      ] in
      elim share [
        | none ↦ none
        | some share' ↦ chain.slash_price share' (missed_count dec e) (span dec e)
      ]

  -- The end of HandleConsumerDowntime: the mark, the pending slash and the accepted window.
  unfoldable pub accept : State → ℕ → ℕ → EvidencePacketData dec → ℕ → ℕ → ℕ → ℕ → State
  accept s now consumer e provider_addr set_addr window_end_time slash_tokens =
      let key : WindowKey = (consumer, (provider_addr, e.window_end_height)) in
      record s {
        keeper =
            if is_some (resolve_epoch_share s.keeper consumer window_end_time)
            then s.keeper
            else mark_epoch_downtime s.keeper consumer set_addr;
        pending_downtime_slashes =
            set key
              (record {
                consumer_id = consumer;
                provider_cons_addr = provider_addr;
                consumer_cons_addr = e.validator_addr;
                window_start_height = e.window_start_height;
                span = span dec e;
                missed_count = missed_count dec e;
                missed_blocks_bitmap = e.missed_blocks_bitmap;
                slash_tokens = slash_tokens;
                matures_at = now + s.keeper.infraction_params.downtime_challenge_window;
              })
              s.pending_downtime_slashes;
        accepted_downtime_windows =
            set key (record { window_start = e.window_start_height; accepted_at = now })
              s.accepted_downtime_windows;
      }

  -- The checks against the pair's accepted windows, and the acceptance.
  unfoldable pub check_window : State → Chain → ℕ → ℕ → EvidencePacketData dec → ℕ → ℕ → ℕ → Outcome
  check_window s chain now consumer e provider_addr set_addr window_end_time =
      if elim (get (consumer, provider_addr) s.downtime_window_floors) [
        | none ↦ false
        | some floor ↦ leb e.window_start_height floor
      ]
      then rejected below_floor
      else if intersects_accepted consumer provider_addr e.window_start_height e.window_end_height
          s.accepted_downtime_windows
      then rejected intersects
      else elim (resolve_downtime_slash_tokens s chain consumer e window_end_time) [
        | none ↦ rejected no_price
        | some tokens ↦
            accepted (accept s now consumer e provider_addr set_addr window_end_time tokens)
      ]

  -- The checks of a window's age.
  unfoldable pub check_age :
      State → Chain → ℕ → ℕ → EvidencePacketData dec → ℕ → ℕ → ℕ → ℕ → Outcome
  check_age s chain now consumer e provider_addr set_addr client window_end_time =
      let ip = s.keeper.infraction_params in
      if ltb (window_end_time + ip.downtime_evidence_max_age) now
      then rejected too_old
      else elim (chain.trusting_period client) [
        | none ↦ rejected no_trusting_period
        | some period ↦
            if leb (period + window_end_time) (now + ip.downtime_challenge_window)
            then rejected not_challengeable
            else check_window s chain now consumer e provider_addr set_addr window_end_time
      ]

  -- The check of the grace period.
  unfoldable pub check_grace :
      State → Chain → ℕ → ℕ → EvidencePacketData dec → ℕ → ℕ → ℕ → ℕ → Outcome
  check_grace s chain now consumer e provider_addr set_addr client window_end_time =
      let grace = s.keeper.infraction_params.downtime_grace_period in
      if not (ltb 0 grace)
      then check_age s chain now consumer e provider_addr set_addr client window_end_time
      else elim (get consumer s.spawn_times) [
        | none ↦ rejected no_initialization_parameters
        | some spawn_time ↦
            if ltb window_end_time (spawn_time + grace)
            then rejected in_grace_period
            else check_age s chain now consumer e provider_addr set_addr client window_end_time
      ]

  -- The checks of the accused and of the window's end.
  unfoldable pub check_accused : State → Chain → ℕ → ℕ → EvidencePacketData dec → ℕ → Outcome
  check_accused s chain now consumer e provider_addr =
      let (set_addr, in_set) = accused_consumer_validator_addr s chain consumer provider_addr in
      if ltb e.window_end_height (value_or 0 (get consumer s.equivocation_evidence_min_height))
      then rejected too_low
      else if not in_set
      then rejected not_in_set
      else elim (get consumer s.consumer_clients) [
        | none ↦ rejected no_client
        | some client ↦ elim (window_end_timestamp chain client e.window_end_height) [
          | none ↦ rejected no_anchor
          | some window_end_time ↦
              check_grace s chain now consumer e provider_addr set_addr client window_end_time
        ]
      ]

  -- HandleConsumerDowntime.
  unfoldable pub handle_consumer_downtime : State → Chain → ℕ → ℕ → EvidencePacketData dec → Outcome
  handle_consumer_downtime s chain now consumer e =
      if not (acceptable_downtime_params s now (echoed_params dec e))
      then rejected unacceptable_params
      else if leb_ℤ (pos (missed_count dec e)) (packet_max_missed dec e)
      then rejected below_threshold
      else check_accused s chain now consumer e
          (get_provider_addr_from_consumer_addr s consumer e.validator_addr)

  -- HandleConsumerEvidencePacket. Validate lets no other infraction through.
  unfoldable pub handle_consumer_evidence_packet :
      State → Chain → ℕ → ℕ → EvidencePacketData dec → Outcome
  handle_consumer_evidence_packet s chain now consumer e = elim (validate dec e) [
    | invalid why ↦ rejected malformed
    | valid ↦
        if not (phase_eq (get_consumer_phase s.keeper consumer) launched)
        then rejected not_launched
        else handle_consumer_downtime s chain now consumer e
  ]
