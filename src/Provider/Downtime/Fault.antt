-- ===== src/Provider/Downtime/Fault.antt =====
-- The checks after those of the packet itself do not reject it for what it says (the later checks of
-- HandleConsumerDowntime in x/vaas/provider/keeper/downtime.go).
use vaas.Base.{ℕ, ◌≡◌, Bool, true, false, arith, Option-cases, inl, inr, nat_eq}
use vaas.Base.Store.{get}
use vaas.Evidence.{EvidencePacketData}
use vaas.Evidence.Decimal.{Decimals}
use vaas.Provider.Downtime.{
  State, Chain, Outcome, accepted, rejected, malformed, unacceptable_params, below_threshold,
  accused_consumer_validator_addr, check_window, check_age, check_grace, check_accused,
  window_end_timestamp,
}

module _ (dec : Decimals) where
  -- A rejection for what the packet itself says.
  abbrev pub is_own_fault : Outcome dec → Bool
  is_own_fault (accepted s) = false
  is_own_fault (rejected malformed) = true
  is_own_fault (rejected unacceptable_params) = true
  is_own_fault (rejected below_threshold) = true
  is_own_fault (rejected other) = false

  check_window-no_fault :
      (s : State dec) (chain : Chain) (now c : ℕ) (e : EvidencePacketData dec) (a set_addr time : ℕ)
      → is_own_fault (check_window dec s chain now c e a set_addr time) ≡ false
  unfolding check_window
  check_window-no_fault s chain now c e a set_addr time = ground arith

  check_age-no_fault :
      (s : State dec) (chain : Chain) (now c : ℕ) (e : EvidencePacketData dec)
      (a set_addr client time : ℕ)
      → is_own_fault (check_age dec s chain now c e a set_addr client time) ≡ false
  unfolding check_age
  check_age-no_fault s chain now c e a set_addr client time =
      ground (arith, check_window-no_fault s chain now c e a set_addr time)

  check_grace-no_fault :
      (s : State dec) (chain : Chain) (now c : ℕ) (e : EvidencePacketData dec)
      (a set_addr client time : ℕ)
      → is_own_fault (check_grace dec s chain now c e a set_addr client time) ≡ false
  unfolding check_grace
  check_grace-no_fault s chain now c e a set_addr client time =
      ground (arith, check_age-no_fault s chain now c e a set_addr client time)

  pub check_accused-no_fault :
      (s : State dec) (chain : Chain) (now c : ℕ) (e : EvidencePacketData dec) (a : ℕ)
      → is_own_fault (check_accused dec s chain now c e a) ≡ false
  unfolding check_accused
  check_accused-no_fault s chain now c e a =
      let set_addr = (accused_consumer_validator_addr dec s chain c a).0 in
      elim (Option-cases (get c s.consumer_clients)) [
        | inl no_client ↦ ground (arith, no_client)
        | inr (client, found) ↦
            elim (Option-cases (window_end_timestamp chain client e.window_end_height)) [
              | inl no_anchor ↦ ground (arith, found, no_anchor)
              | inr (time, anchored) ↦ ground (
                arith,
                found,
                anchored,
                check_grace-no_fault s chain now c e a set_addr client time,
              )
            ]
      ]
