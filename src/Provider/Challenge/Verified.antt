-- ===== src/Provider/Challenge/Verified.antt =====
-- What the checks of a challenge's header and signature establish (verifyDowntimeChallengeHeader and
-- verifySealedCommitSignature of x/vaas/provider/keeper/downtime_challenge.go).
use vaas.Base.{
  ℕ, suc, ◌+◌, ◌≡◌, true, some, List, [], ◌∷◌, ◌==◌, arith, Bool-cases, Option-cases, inl, inr,
  drop,
}
use vaas.Evidence.Decimal.{Decimals}
use vaas.Provider.Bank.{Bank}
use vaas.Provider.Lifecycle.{Chain, is_active}
use vaas.Provider.Challenge.{
  CommitSig, Commit, Header, Challenge, Crypto, is_signed, find_signature,
  verify_sealed_commit_signature, verify_downtime_challenge_header, proves,
}

-- A signature stands at a position of a list.
abbrev pub StandsAt : ℕ → CommitSig → List CommitSig → Type 0
StandsAt n sig sigs = (rest : List CommitSig) × (drop n sigs ≡ sig ∷ rest)

find_signature-StandsAt :
    (addr i j : ℕ) (sig : CommitSig) (sigs : List CommitSig)
    → find_signature addr i sigs ≡ some (j, sig)
    → (n : ℕ) × (j ≡ i + n) × StandsAt n sig sigs × (sig.validator_address ≡ addr)
unfolding find_signature
find_signature-StandsAt addr i j sig [] h = ground (arith, h)
find_signature-StandsAt addr i j sig (x ∷ sigs) h =
    elim (Bool-cases (x.validator_address == addr)) [
      | inl here ↦
          (0, ground (arith, here, h), (sigs, ground (arith, here, h)), ground (arith, here, h))
      | inr behind ↦
          let (n, at, stands, of_addr) =
            find_signature-StandsAt addr (suc i) j sig sigs (ground (arith, behind, h)) in
          (suc n, omega (arith, at), stands, of_addr)
    ]

module _ (dec : Decimals) (bank : Bank) (crypto : Crypto) (chain : Chain dec) where
  -- The header is of the consumer's chain and of the height after the claimed one, and an active
  -- client has verified it; the commit is the one that the header seals; the key is that of the
  -- accused validator, whose vote in the commit is a signature that the key has made.
  pub record IsVerified (msg : Challenge) (header : Header) (chain_id client : ℕ) : Type 0 where
    pub of_chain : header.chain_id ≡ chain_id
    pub next_height : header.height ≡ msg.claimed_height + 1
    pub active : is_active (chain.client_status client) ≡ true
    pub verified : crypto.verify_client_message client header ≡ true
    pub own_key : crypto.address msg.validator_pubkey ≡ msg.validator_addr
    pub signed :
        (c : Commit) × (msg.last_commit ≡ some c)
        × (c.height ≡ msg.claimed_height)
        × (c.hash ≡ header.last_commit_hash)
        × ((n : ℕ) × (sig : CommitSig) × StandsAt n sig c.signatures
            × (sig.validator_address ≡ msg.validator_addr)
            × (is_signed sig.flag ≡ true)
            × (crypto.verify_signature msg.validator_pubkey c chain_id n sig.signature ≡ true))

  sealed-signed :
      (msg : Challenge) (header : Header) (chain_id : ℕ)
      → header.height ≡ msg.claimed_height + 1
      → verify_sealed_commit_signature crypto msg.last_commit header chain_id msg.validator_addr
          msg.validator_pubkey
        ≡ true
      → (c : Commit) × (msg.last_commit ≡ some c)
        × (c.height ≡ msg.claimed_height)
        × (c.hash ≡ header.last_commit_hash)
        × ((n : ℕ) × (sig : CommitSig) × StandsAt n sig c.signatures
            × (sig.validator_address ≡ msg.validator_addr)
            × (is_signed sig.flag ≡ true)
            × (crypto.verify_signature msg.validator_pubkey c chain_id n sig.signature ≡ true))
  unfolding verify_sealed_commit_signature
  sealed-signed msg header chain_id next h = elim (Option-cases msg.last_commit) [
    | inl missing ↦ ground (arith, missing, h)
    | inr (c, given) ↦ elim (Option-cases (find_signature msg.validator_addr 0 c.signatures)) [
      | inl absent ↦ ground (arith, given, absent, h)
      | inr ((j, sig), found) ↦
          let (n, at, stands, of_addr) =
            find_signature-StandsAt msg.validator_addr 0 j sig c.signatures found in
          (
            c,
            given,
            ground (arith, given, found, next, h),
            ground (arith, given, found, h),
            (
              n,
              sig,
              stands,
              of_addr,
              ground (arith, given, found, h),
              ground (arith, given, found, at, h),
            ),
          )
    ]
  ]

  pub proves-IsVerified :
      (msg : Challenge) (header : Header) (chain_id client : ℕ)
      → proves dec bank crypto chain msg header chain_id client ≡ true
      → IsVerified msg header chain_id client
  unfolding proves verify_downtime_challenge_header
  proves-IsVerified msg header chain_id client h =
      let next : header.height ≡ msg.claimed_height + 1 = ground (arith, h) in
      let signed = sealed-signed msg header chain_id next (ground (arith, h)) in
      record {
        of_chain = ground (arith, h);
        next_height = next;
        active = ground (arith, h);
        verified = ground (arith, h);
        own_key = unfold verify_sealed_commit_signature in ground (arith, signed.1, h);
        signed = signed;
      }
