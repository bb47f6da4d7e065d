-- ===== src/Provider/Challenge.antt =====
-- The challenge of a downtime accusation (x/vaas/provider/keeper/downtime_challenge.go). The light
-- client's verification of a header, and the keys and signatures of CometBFT, are the record Crypto.
-- Pending slashes are searched in the store's order, in the source by key: the windows of one
-- validator are disjoint, so that at most one of them contains a height.
pub mod Verified
pub mod Won
pub mod Tests
use vaas.Base.{
  ℕ, suc, ◌+◌, ◌-◌, Bool, true, false, ◌&&◌, ◌||◌, Option, none, some, List, [], ◌∷◌, ltb, leb,
  ◌==◌, if◌then◌else◌, value_or, nat_eq, pair_eq, ◌>>=◌, some_if,
}
use vaas.Base.Store.{Store, get, select}
use vaas.Evidence.Decimal.{Decimals}
use vaas.Evidence.Bitmap.{bitmap_is_set}
use vaas.Provider.Bank.{Bank}
use vaas.Provider.Downtime.{WindowKey, PendingDowntimeSlash}
use vaas.Provider.Lifecycle.{State, Chain, downtime_challenge, is_active, pause_consumer_chain}

pub data BlockIdFlag : Type 0 where
  absent commit nil : BlockIdFlag

abbrev pub is_signed : BlockIdFlag → Bool
is_signed absent = false
is_signed _ = true

pub record CommitSig : Type 0 where
  pub flag : BlockIdFlag
  pub validator_address : ℕ
  pub signature : ℕ

pub record Commit : Type 0 where
  pub height : ℕ
  pub hash : ℕ
  pub signatures : List CommitSig

pub record Header : Type 0 where
  pub chain_id : ℕ
  pub height : ℕ
  pub last_commit_hash : ℕ

-- `none` is a malformed header, or a commit that does not decode.
pub record Challenge : Type 0 where
  pub consumer_id : ℕ
  pub validator_addr : ℕ
  pub claimed_height : ℕ
  pub header : Option Header
  pub last_commit : Option Commit
  pub validator_pubkey : ℕ

pub record Crypto : Type 0 where
  -- VerifyClientMessage of a header under a client.
  pub verify_client_message : ℕ → Header → Bool
  pub address : ℕ → ℕ
  -- Whether a key has signed the vote of a commit with an index, for a chain id.
  pub verify_signature : ℕ → Commit → ℕ → ℕ → ℕ → Bool

-- Whether a slash's window contains a height.
unfoldable pub contains : ℕ → PendingDowntimeSlash → Bool
contains height slash =
    leb slash.window_start_height height && ltb height (slash.window_start_height + slash.span)

abbrev pub first : Store WindowKey PendingDowntimeSlash → Option PendingDowntimeSlash
first [] = none
first (x ∷ m) = some x.1

-- findPendingDowntimeSlashUnderProviderAddr.
unfoldable pub find_under_provider_addr :
    Store WindowKey PendingDowntimeSlash → ℕ → ℕ → ℕ → Option PendingDowntimeSlash
find_under_provider_addr pending consumer addr height =
    first (select (λ x. x.0.0 == consumer && (x.0.1.0 == addr && contains height x.1)) pending)

-- The fallback of findPendingDowntimeSlashContaining, by the slash's consumer address.
unfoldable pub find_by_consumer_addr :
    Store WindowKey PendingDowntimeSlash → ℕ → ℕ → ℕ → Option PendingDowntimeSlash
find_by_consumer_addr pending consumer addr height = first (
    select (λ x. x.0.0 == consumer && (x.1.consumer_cons_addr == addr && contains height x.1))
      pending)

abbrev pub or_else :
    Option PendingDowntimeSlash → Option PendingDowntimeSlash → Option PendingDowntimeSlash
or_else none o = o
or_else (some x) o = some x

-- findPendingDowntimeSlashContaining.
unfoldable pub find_pending_downtime_slash_containing :
    Store WindowKey PendingDowntimeSlash → Store (ℕ × ℕ) ℕ → ℕ → ℕ → ℕ → Option PendingDowntimeSlash
find_pending_downtime_slash_containing pending assigned consumer addr height =
    or_else
      (find_under_provider_addr pending consumer (value_or addr (get (consumer, addr) assigned))
        height)
      (find_by_consumer_addr pending consumer addr height)

-- The first signature of a validator, with its index.
unfoldable pub find_signature : ℕ → ℕ → List CommitSig → Option (ℕ × CommitSig)
find_signature addr i [] = none
find_signature addr i (sig ∷ sigs) =
    if sig.validator_address == addr then some (i, sig) else find_signature addr (suc i) sigs

-- verifySealedCommitSignature: whether it returns no error.
unfoldable pub verify_sealed_commit_signature : Crypto → Option Commit → Header → ℕ → ℕ → ℕ → Bool
verify_sealed_commit_signature crypto none header chain_id addr key = false
verify_sealed_commit_signature crypto (some c) header chain_id addr key =
    (c.height + 1 == header.height && c.hash == header.last_commit_hash)
    && (crypto.address key == addr && elim (find_signature addr 0 c.signatures) [
      | none ↦ false
      | some (i, sig) ↦ is_signed sig.flag && crypto.verify_signature key c chain_id i sig.signature
    ])

module _ (dec : Decimals) (bank : Bank) (crypto : Crypto) where
  -- verifyDowntimeChallengeHeader.
  unfoldable pub verify_downtime_challenge_header : Chain dec → ℕ → Header → Bool
  verify_downtime_challenge_header chain client header =
      is_active (chain.client_status client) && crypto.verify_client_message client header

  -- The checks of a challenge's header and signature, for a chain id and a client.
  unfoldable pub proves : Chain dec → Challenge → Header → ℕ → ℕ → Bool
  proves chain msg header chain_id client =
      (header.chain_id == chain_id && header.height == msg.claimed_height + 1)
      && (verify_downtime_challenge_header chain client header
          && verify_sealed_commit_signature crypto msg.last_commit header chain_id
              msg.validator_addr msg.validator_pubkey)

  -- The slash that a challenge disproves; `none` is an error.
  unfoldable pub disproven_slash :
      Chain dec → State dec bank → Challenge → Option PendingDowntimeSlash
  disproven_slash chain s msg = do
    header ← msg.header
    slash ←
        find_pending_downtime_slash_containing s.pending_downtime_slashes
          s.validator_by_consumer_addr msg.consumer_id msg.validator_addr msg.claimed_height
    chain_id ← get msg.consumer_id s.chain_ids
    client ← get msg.consumer_id s.relay.consumer_clients
    some_if
        (bitmap_is_set slash.missed_blocks_bitmap (msg.claimed_height - slash.window_start_height)
          && proves chain msg header chain_id client)
        slash

  -- HandleChallengeConsumerDowntime.
  unfoldable pub handle_challenge_consumer_downtime :
      Chain dec → State dec bank → Challenge → Option (State dec bank)
  handle_challenge_consumer_downtime chain s msg = do
    slash ← disproven_slash chain s msg
    pause_consumer_chain dec bank chain s msg.consumer_id downtime_challenge
