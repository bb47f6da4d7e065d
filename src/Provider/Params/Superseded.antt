-- ===== src/Provider/Params/Superseded.antt =====
-- The downtime parameters that a change supersedes (x/vaas/provider/keeper/params.go).
use vaas.Base.{ℕ, ◌+◌, ◌≡◌, refl, true, ◌||◌, leb, arith, Bool-cases, inl, inr}
use vaas.Evidence.{DowntimeParams}
use vaas.Evidence.Decimal.{Decimals, DecimalLaws}
use vaas.Provider.State.{InfractionParams}
use vaas.Provider.Downtime.{State, same_params, acceptable_downtime_params}
use vaas.Provider.Params.{set_infraction_params}

module _ (dec : Decimals) (laws : DecimalLaws dec) where
  same_params_refl : (p : DowntimeParams dec) → same_params dec p p ≡ true
  same_params_refl p = ground (arith, laws.equal_refl p.min_signed_per_window)

  -- After a change of the infraction parameters the new downtime parameters are acceptable at any
  -- time, and those before it exactly if they are the same, or at most the new evidence age and
  -- challenge window have passed since the change. Decimals obey the laws of equality.
  pub superseded_params_expire :
      (s : State dec) (now later : ℕ) (durations : InfractionParams) (params : DowntimeParams dec)
      → (acceptable_downtime_params dec
            (set_infraction_params dec s now durations params)
            later
            params
          ≡ true)
        × (acceptable_downtime_params dec
              (set_infraction_params dec s now durations params)
              later
              s.downtime_params
            ≡ (same_params dec s.downtime_params params
                || leb later (
                    now
                    + (durations.downtime_evidence_max_age + durations.downtime_challenge_window))))
  unfolding acceptable_downtime_params set_infraction_params
  superseded_params_expire s now later durations params = (
    rw (same_params_refl params) refl,
    elim (Bool-cases (same_params dec s.downtime_params params)) [
      | inl same ↦ rw same refl
      | inr changed ↦ rw (changed, same_params_refl s.downtime_params) refl
    ],
  )
