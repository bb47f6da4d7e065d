-- ===== src/Provider/Slash/Challenged.antt =====
-- Slashes that were cancelled before a sweep (x/vaas/provider/keeper/downtime_slash.go and
-- downtime_challenge.go).
use vaas.Base.{ℕ, ◌≡◌, ◌≢◌, some, none, [], ◌∷◌, not, ltb, ==_iff, Eq, nat_eq, pair_eq, arith, All}
use vaas.Base.Store.{Store, get, IsStore, select-absent}
use vaas.Evidence.Decimal.{Decimals}
use vaas.Provider.Bank.{Bank}
use vaas.Provider.Downtime.{WindowKey}
use vaas.Provider.Lifecycle.{State, Chain}
use vaas.Provider.Challenge.{Challenge, Crypto, handle_challenge_consumer_downtime}
use vaas.Provider.Challenge.Won.{won_challenge_cancels_slashes}
use vaas.Provider.Slash.{Slashing, matured, execute_each, sweep_pending_downtime_slashes}
use vaas.Provider.Slash.Executions.{execute_each-absent}

-- A store that has nothing under the keys of a consumer has no entry of it.
nothing_found-All {ℓ} :
    {V : Type ℓ} (i : ℕ) (m : Store WindowKey V)
    → ((key : WindowKey) → key.0 ≡ i → get key m ≡ none)
    → All (λ x. x.0.0 ≢ i) m
unfolding get
nothing_found-All i [] h = tt
nothing_found-All i (x ∷ m) h =
    let keys : Eq WindowKey = pair_eq in
    (
      λ same. ground (arith, h x.0 same, keys.beq_iff x.0 x.0),
      nothing_found-All i m (λ key of_i. ground (arith, h key of_i)),
    )

module _ (dec : Decimals) (sl : Slashing dec) (bank : Bank) (crypto : Crypto)
    (chain : Chain dec) where
  cancelled-All :
      (i : ℕ) (cap : dec.LegacyDec) (now : ℕ) (s : State dec bank) (st : sl.Stakes)
      → ((key : WindowKey) → key.0 ≡ i → get key s.pending_downtime_slashes ≡ none)
      → All (λ x. x.0.0 ≢ i) (sweep_pending_downtime_slashes dec sl bank cap now s st).1.0
  unfolding sweep_pending_downtime_slashes matured
  cancelled-All i cap now s st cancelled =
      let pending = s.pending_downtime_slashes in
      nothing_found-All i (execute_each dec sl cap st (matured now pending)).0 (λ key of_i.
        execute_each-absent dec sl cap key st (matured now pending)
          (select-absent (λ x. not (ltb now x.1.matures_at)) key pending (cancelled key of_i)))

  -- After a challenge that succeeds, a sweep at any time and with any stakes executes no slash of the
  -- consumer. No slash is stored twice.
  pub challenged_consumer_is_not_slashed :
      (s s' : State dec bank) (msg : Challenge) (cap : dec.LegacyDec) (now : ℕ) (st : sl.Stakes)
      → IsStore s.pending_downtime_slashes
      → handle_challenge_consumer_downtime dec bank crypto chain s msg ≡ some s'
      → All
          (λ x. x.0.0 ≢ msg.consumer_id)
          (sweep_pending_downtime_slashes dec sl bank cap now s' st).1.0
  challenged_consumer_is_not_slashed s s' msg cap now st stored run =
      let (_, (_, _, left)) =
        won_challenge_cancels_slashes dec bank crypto chain s s' msg stored run in
      cancelled-All msg.consumer_id cap now s' st
        (λ key of_i. ground (arith, left key, of_i, ==_iff key.0 msg.consumer_id))
