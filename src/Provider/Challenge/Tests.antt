-- ===== src/Provider/Challenge/Tests.antt =====
-- A validator of consumer 7 disproves that it missed height 12.
use vaas.Base.{◌≡◌, refl, true, some, none, [], ◌∷◌, ◌==◌, nat_eq, pair_eq}
use vaas.Base.Store.{get, set, remove, clear, select}
use vaas.Evidence.Decimal.Hundredths.{toy_decimals}
use vaas.Evidence.Bitmap.{bitmap_is_set, byte_at, test_bit}
use vaas.Provider.State.{paused, get_consumer_phase}
use vaas.Provider.Bank.Toy.{toy_bank}
use vaas.Provider.Example.{keeper}
use vaas.Provider.Downtime.{PendingDowntimeSlash}
use vaas.Provider.Fees.Run.{pay_withheld_fees, pay_records, pay_withheld_fee, payable_amount}
use vaas.Provider.TimeQueue.{append_id, put, get_ids}
use vaas.Provider.Lifecycle.{
  State, phase_of, with_keeper, set_consumer_phase, cancel_consumer_downtime_state, pause_now,
  schedule_auto_stop, pause_consumer_chain,
}
use vaas.Provider.Lifecycle.Tests.{chain_at, paused_7}
use vaas.Provider.Challenge.{
  Challenge, Crypto, commit, contains, find_under_provider_addr, find_by_consumer_addr,
  find_pending_downtime_slash_containing, find_signature, verify_sealed_commit_signature,
  verify_downtime_challenge_header, proves, disproven_slash, handle_challenge_consumer_downtime,
}

-- Keys are their addresses, and a signature is good if it is the key.
abbrev pub crypto : Crypto
crypto = record {
  verify_client_message = λ client header. true;
  address = λ key. key;
  verify_signature = λ key c chain_id i signature. signature == key;
}

-- Heights 11 and 12 of the window from 10 on are marked.
abbrev pub slash : PendingDowntimeSlash
slash = record {
  consumer_id = 7;
  provider_cons_addr = 30;
  consumer_cons_addr = 40;
  window_start_height = 10;
  span = 4;
  missed_count = 2;
  missed_blocks_bitmap = 6 ∷ [];
  slash_tokens = 3;
  matures_at = 90;
}

abbrev pub accused : State toy_decimals toy_bank
accused = record paused_7 {
  relay = record paused_7.relay { keeper = keeper };
  pause_expiration_queue = [];
  pause_expiration_times = [];
  pause_reasons = [];
  paused_at = [];
  pending_downtime_slashes = ((7, (30, 13)), slash) ∷ [];
}

abbrev pub cleared : State toy_decimals toy_bank
cleared = record paused_7 {
  relay = record paused_7.relay {
    keeper = record keeper { phases = (7, paused) ∷ []; withheld_fee_records = [] };
  };
}

abbrev pub challenge : Challenge
challenge = record {
  consumer_id = 7;
  validator_addr = 40;
  claimed_height = 12;
  header = some (record { chain_id = 70; height = 13; last_commit_hash = 5 });
  last_commit = some (record {
    height = 12;
    hash = 5;
    signatures = record { flag = commit; validator_address = 40; signature = 40 } ∷ [];
  });
  validator_pubkey = 40;
}

-- The slash is stored under the provider's address, and found by the consumer's.
pub won :
    handle_challenge_consumer_downtime toy_decimals toy_bank crypto (chain_at 20) accused challenge
    ≡ some cleared
unfolding handle_challenge_consumer_downtime disproven_slash find_pending_downtime_slash_containing
    find_under_provider_addr find_by_consumer_addr contains select get bitmap_is_set byte_at
    test_bit proves verify_downtime_challenge_header verify_sealed_commit_signature find_signature
    pause_consumer_chain phase_of get_consumer_phase pause_now pay_withheld_fees pay_records
    pay_withheld_fee payable_amount remove clear set_consumer_phase set with_keeper
    cancel_consumer_downtime_state schedule_auto_stop append_id put get_ids
won = refl

-- Height 10 is not marked.
unmarked :
    handle_challenge_consumer_downtime toy_decimals toy_bank crypto
      (chain_at 20)
      accused
      (record challenge { claimed_height = 10 })
    ≡ none
unfolding handle_challenge_consumer_downtime disproven_slash find_pending_downtime_slash_containing
    find_under_provider_addr find_by_consumer_addr contains select get bitmap_is_set byte_at
    test_bit proves
unmarked = refl
