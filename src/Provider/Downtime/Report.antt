-- ===== src/Provider/Downtime/Report.antt =====
-- What the consumer reports when a window closes against what the provider checks
-- (TrackMissedBlocks of x/vaas/consumer/keeper/downtime.go with HandleConsumerEvidencePacket of
-- x/vaas/provider/keeper/downtime.go).
use vaas.Base.{
  ℕ, ◌+◌, ◌≤◌, ◌≡◌, ◌≢◌, ◌⊎◌, ap, ◌∙◌, subst, sym, true, false, some, List, arith, if◌then◌else◌,
  value_or, Bool-cases, Option-cases, inl, inr, nat_eq, pair_eq, All,
}
use vaas.Base.Int.{pos, leb_ℤ}
use vaas.Base.Store.{get}
use vaas.Evidence.{
  EvidencePacketData, DowntimeParams, echoed_params, missed_count, packet_max_missed, validate,
  valid,
}
use vaas.Evidence.Decimal.{Decimals, DecimalLaws}
use vaas.Consumer.State.{Keeper}
use vaas.Consumer.Downtime.{VoteInfo, track_missed_blocks}
use vaas.Consumer.Downtime.Window.{IsReport}
use vaas.Consumer.Downtime.Tracking.{IsTracking}
use vaas.Consumer.Downtime.Block.{track_missed_blocks_reports}
use vaas.Provider.State.{launched, phase_eq, get_consumer_phase}
use vaas.Provider.Downtime.Fault.{is_own_fault, check_accused-no_fault}
use vaas.Provider.Downtime.{
  State, Outcome, accepted, rejected, not_launched, Chain, same_params, acceptable_downtime_params,
  get_provider_addr_from_consumer_addr, accused_consumer_validator_addr, check_accused,
  handle_consumer_downtime, handle_consumer_evidence_packet,
}

module _ (dec : Decimals) where
  -- Parameters that are the current ones, or the previous ones within their time.
  abbrev pub KnownParams : State dec → ℕ → DowntimeParams dec → Type 0
  KnownParams s now p =
      (same_params dec p s.downtime_params ≡ true)
      ⊎ ((q : DowntimeParams dec) × (since : ℕ) × (s.previous_downtime_params ≡ some (q, since))
          × (same_params dec p q ≡ true)
          × (now
              ≤ since
                + (s.keeper.infraction_params.downtime_evidence_max_age
                    + s.keeper.infraction_params.downtime_challenge_window)))

  acceptable-KnownParams :
      (s : State dec) (now : ℕ) (p : DowntimeParams dec)
      → acceptable_downtime_params dec s now p ≡ true
      → KnownParams s now p
  unfolding acceptable_downtime_params
  acceptable-KnownParams s now p h = elim (Bool-cases (same_params dec p s.downtime_params)) [
    | inl same ↦ inl same
    | inr differs ↦ elim (Option-cases s.previous_downtime_params) [
      | inl never ↦ ground (arith, differs, never, h)
      | inr ((q, since), found) ↦
          inr
            (q, since, found, ground (arith, differs, found, h), ground (arith, differs, found, h))
    ]
  ]

  -- What the provider knows of a packet that it accepts, beside the pair's windows.
  pub record IsChecked (s : State dec) (chain : Chain) (now c : ℕ) (e : EvidencePacketData dec)
      : Type 0 where
    pub well_formed : validate dec e ≡ valid
    pub active : get_consumer_phase s.keeper c ≡ launched
    pub known : KnownParams s now (echoed_params dec e)
    pub exceeds : leb_ℤ (pos (missed_count dec e)) (packet_max_missed dec e) ≡ false
    pub high_enough : value_or 0 (get c s.equivocation_evidence_min_height) ≤ e.window_end_height
    pub in_set :
        (accused_consumer_validator_addr dec s chain c
          (get_provider_addr_from_consumer_addr dec s c e.validator_addr)).1
        ≡ true

  accepted-IsChecked :
      (s : State dec) (chain : Chain) (now c : ℕ) (e : EvidencePacketData dec) (s' : State dec)
      → handle_consumer_evidence_packet dec s chain now c e ≡ accepted s'
      → IsChecked s chain now c e
  unfolding handle_consumer_evidence_packet handle_consumer_downtime check_accused
  accepted-IsChecked s chain now c e s' h = record {
    well_formed = ground (arith, h);
    active = ground (arith, h);
    known = acceptable-KnownParams s now (echoed_params dec e) (ground (arith, h));
    exceeds = ground (arith, h);
    high_enough = ground (arith, h);
    in_set = ground (arith, h);
  }

  -- The answer to a packet that is in order by itself: its consumer, the accused and the times are
  -- what is left to check.
  abbrev pub answer : State dec → Chain → ℕ → ℕ → EvidencePacketData dec → Outcome dec
  answer s chain now c e =
      if phase_eq (get_consumer_phase s.keeper c) launched
      then check_accused dec s chain now c e
          (get_provider_addr_from_consumer_addr dec s c e.validator_addr)
      else rejected not_launched

  answer-no_fault :
      (s : State dec) (chain : Chain) (now c : ℕ) (e : EvidencePacketData dec)
      → is_own_fault dec (answer s chain now c e) ≡ false
  answer-no_fault s chain now c e = ground (
    arith,
    check_accused-no_fault dec s chain now c e
        (get_provider_addr_from_consumer_addr dec s c e.validator_addr),
  )

module _ (dec : Decimals) (laws : DecimalLaws dec) where
  current_acceptable :
      (s : State dec) (now : ℕ) (p : DowntimeParams dec)
      → p ≡ s.downtime_params
      → acceptable_downtime_params dec s now p ≡ true
  unfolding acceptable_downtime_params
  current_acceptable s now p same =
      subst (λ (q : DowntimeParams dec). acceptable_downtime_params dec s now q ≡ true) (sym same)
        (ground (arith, laws.equal_refl s.downtime_params.min_signed_per_window))

  report-answer :
      (s : State dec) (chain : Chain) (now c : ℕ) (e : EvidencePacketData dec) (above last : ℕ)
      → IsReport dec laws above last s.downtime_params e
      → handle_consumer_evidence_packet dec s chain now c e ≡ answer dec s chain now c e
  unfolding handle_consumer_evidence_packet handle_consumer_downtime
  report-answer s chain now c e above last report = ground (
    arith,
    report.well_formed,
    report.exceeds,
    current_acceptable s now (echoed_params dec e) report.echoes,
  )

  -- A consumer that tracks missed blocks under the provider's current downtime parameters, in the
  -- block after vote height h + 1, queues no packet that the provider rejects for what it says (its
  -- form, its parameters or its number of missed blocks): a packet that the queue gains is answered by
  -- the check of the accused and of the times if the consumer is launched, and as not launched
  -- otherwise. And whatever packet the provider accepts is well-formed, of a launched consumer, under
  -- the current parameters or the previous ones within their time, with more missed blocks than the
  -- limit, ends no lower than the consumer's least height, and accuses a validator of the consumer.
  pub report_meets_checks :
      (k : Keeper dec) (closed h : ℕ) (votes : List VoteInfo) (s : State dec) (chain : Chain)
      (now c : ℕ)
      → IsTracking dec k closed h
      → All (λ v. v.address ≢ 0) votes
      → s.downtime_params ≡ k.params
      → (k' : Keeper dec) × (track_missed_blocks dec k (h + 2) votes ≡ some k')
        × ((key : ℕ × ℕ) (e : EvidencePacketData dec)
            → get key k'.pending_evidence_packets ≡ some e
            → (get key k.pending_evidence_packets ≡ some e)
              ⊎ ((is_own_fault dec (handle_consumer_evidence_packet dec s chain now c e) ≡ false)
                  × (handle_consumer_evidence_packet dec s chain now c e
                      ≡ answer dec s chain now c e)))
        × ((e : EvidencePacketData dec) (s' : State dec)
            → handle_consumer_evidence_packet dec s chain now c e ≡ accepted s'
            → IsChecked dec s chain now c e)
  report_meets_checks k closed h votes s chain now c t named same =
      let (k', run, outcome) = track_missed_blocks_reports dec laws k closed h votes t named in
      (
        k',
        run,
        λ key e found. elim outcome [
          | inl goes_on ↦ inl (
              ap (λ (m : List ((ℕ × ℕ) × EvidencePacketData dec)). get key m)
                (sym goes_on.1.same_queue)
              ∙ found)
          | inr closes ↦ elim (closes.reports key e found) [
            | inl was ↦ inl was
            | inr report ↦
                let answered = report-answer s chain now c e closed (h + 1) (
                  subst (λ (q : DowntimeParams dec). IsReport dec laws closed (h + 1) q e)
                    (sym same) report) in
                inr (
                  ap (λ (o : Outcome dec). is_own_fault dec o) answered
                      ∙ answer-no_fault dec s chain now c e,
                  answered,
                )
          ]
        ],
        accepted-IsChecked dec s chain now c,
      )
