-- ===== src/SigningIntent/Tests.antt =====
-- Concrete intents, and the theorems applied to them.
use aljama_wallet.Base.{
  ℕ, ◌+◌, Bool, true, false, ◌≡◌, ◌⊎◌, refl, none, some, List, [], ◌∷◌, ◌++◌, Text, text, text_eq,
  done, All, NoRepeat, arith, normalize_nullable, trim_between, is_space, length, nat_eq, ◌==◌,
  ==_apart,
}
use aljama_wallet.Base.Map
use aljama_wallet.Base.Map.Keyed.{Keyed}
use aljama_wallet.Chain.{transfer, tx_type_name}
use aljama_wallet.SigningIntent.{
  queued, Payload, Stored, CreateInput, evm, Materialized, inline, build_record,
  resolve_action_type, resolve_create_payload, parse_payload, is_payload, is_decimal,
  is_transaction, resolve_trace_id, apply_updates,
}
use aljama_wallet.SigningIntent.Archive.{Platform, default_policy, should_archive}
use aljama_wallet.SigningIntent.Memory.{
  Setting, Store, empty, is_queued, claim_next, next_queued, materialize, maybe_archive,
  update_intent, update_by_tx_hash, get_intent,
}
use aljama_wallet.SigningIntent.Create.{create_intent, intent_id, cap_intents, prepare_persistence}
use aljama_wallet.SigningIntent.Effect.{id_of}
use aljama_wallet.SigningIntent.Claim.{Took, claim_takes_earliest}
use aljama_wallet.SigningIntent.Calls.{
  Call, create, mark, mark_by_hash, claim, as_signed, as_reopened, step, claims,
}
use aljama_wallet.SigningIntent.Once.{claimed_once}
use aljama_wallet.SigningIntent.Backing.{IsUrl, Agree}
use aljama_wallet.SigningIntent.RoundTrip.{get-create}

abbrev joined : List Text → Text
joined [] = []
joined (s ∷ ss) = b'/' ∷ (s ++ joined ss)

abbrev has_file_protocol : Text → Bool
has_file_protocol (c ∷ i ∷ l ∷ e ∷ colon ∷ s) = colon == b':'
has_file_protocol _ = false

-- A platform on which every URL ends as those of the archive's files do.
abbrev platform : Platform
platform = record {
  archive_dir = text "data";
  join = joined;
  path_to_url = λ path. b'f' ∷ (b'i' ∷ b'l' ∷ b'e' ∷ b':' ∷ path) ++ b'z' ∷ [];
  is_file_url = has_file_protocol;
  digest = λ p. p.amount_wei;
  measure = λ p. length p.from_address + length p.to_address + 400;
}

platform-IsUrl : IsUrl platform
unfolding is_space
platform-IsUrl = record {
  of_file = λ path. refl;
  is_trimmed = λ path. trim_between b'f' (b'i' ∷ b'l' ∷ b'e' ∷ b':' ∷ path) b'z' refl refl;
}

abbrev pub setting : Setting
setting = record { platform = platform; policy = default_policy; strict = true }

abbrev pub payload : Payload
payload = record {
  wallet_id = text "wallet-1";
  chain_id = 1;
  nonce_reservation_id = none;
  from_address = text "0xaa";
  to_address = text "0xbb";
  amount_wei = text "1000";
  tx_type = transfer;
  tx_data = none;
  transfer_log_id = some (text "log-1");
  transaction = record {
    to = text "0xbb";
    value = some (text "1000");
    nonce = some 7;
    gas_limit = some (text "21000");
    gas_price = none;
    max_fee_per_gas = none;
    max_priority_fee_per_gas = none;
    tx_data = none;
  };
}

abbrev input : CreateInput
input = record {
  wallet_id = text "wallet-1";
  user_id = none;
  chain_id = 1;
  chain = none;
  action_type = none;
  idempotency_key = text "key-1";
  trace_id = some (text " trace ");
  correlation_id = none;
  transfer_log_id = none;
  payload = some payload;
  tx_payload = none;
}

abbrev pub intent_at : Text → ℕ → Stored
intent_at id created_at = record {
  intent = record {
    id = id;
    chain = evm;
    action_type = text "transfer";
    status = queued;
    wallet_id = text "wallet-1";
    user_id = none;
    chain_id = 1;
    idempotency_key = text "key-1";
    trace_id = text "trace";
    correlation_id = text "trace";
    transfer_log_id = some (text "log-1");
    payload_ref = none;
    payload_storage = inline;
    payload_size_bytes = 408;
    signed_payload = none;
    tx_hash = none;
    error_code = none;
    error_details = none;
    created_at = created_at;
    updated_at = created_at;
  };
  payload = some payload;
}

-- The second one stored is the older one.
abbrev pub two_queued : Store
two_queued = record {
  intents = (text "a", intent_at (text "a") 9) ∷ (text "b", intent_at (text "b") 5) ∷ [];
  files = [];
}

two_queued-Keyed : Keyed id_of two_queued.intents
two_queued-Keyed = (refl, (==_apart (text "b") (text "a") refl, tt), (refl, tt, tt))

claim_takes_earliest_example :
    ((claim_next setting two_queued 10 11 true ≡ (done none, two_queued))
      × All (λ q. is_queued q ≡ false) (Map.values two_queued.intents))
    ⊎ ((r : Stored) × Took two_queued (claim_next setting two_queued 10 11 true).1 r)
claim_takes_earliest_example = claim_takes_earliest setting two_queued 10 11 true two_queued-Keyed

abbrev story : List (ℕ × ℕ × Call)
story =
    (9, 9, create input (text "a") true)
    ∷ (5, 5, create input (text "b") true)
    ∷ (10, 10, claim true)
    ∷ (10, 11, mark (intent_id (text "b")) (as_signed (text "0xf8") none) true)
    ∷ (11, 11, claim true)
    ∷ (12, 12, mark_by_hash (text "0xcc") as_reopened)
    ∷ (12, 12, claim true)
    ∷ []

claimed_once_example : NoRepeat (claims setting empty story)
claimed_once_example =
    claimed_once setting story
      ((==_apart (intent_id (text "a")) (intent_id (text "b")) refl, tt), (tt, tt))

older_first : claims setting empty story ≡ intent_id (text "b") ∷ intent_id (text "a") ∷ []
unfolding claims step create_intent claim_next next_queued resolve_create_payload parse_payload
    is_payload is_decimal is_transaction resolve_trace_id normalize_nullable prepare_persistence
    should_archive cap_intents Map.set materialize maybe_archive apply_updates update_intent
    update_by_tx_hash Map.get
older_first = refl

abbrev created_store : Store
created_store = record {
  intents = (intent_id (text "a"), intent_at (intent_id (text "a")) 9) ∷ [];
  files = [];
}

abbrev created_record : Materialized
created_record = record { intent = (intent_at (intent_id (text "a")) 9).intent; payload = payload }

creates :
    create_intent setting empty input (text "a") 9 9 true ≡ (done created_record, created_store)
unfolding create_intent resolve_create_payload parse_payload is_payload is_decimal is_transaction
    resolve_trace_id normalize_nullable prepare_persistence should_archive cap_intents Map.set
    build_record resolve_action_type tx_type_name
creates = refl

-- Two hours later the payload has gone to the archive.
get-create_example :
    (m' : Materialized) × ((get_intent setting created_store (intent_id (text "a")) 7200000 true).0
      ≡ done (some m'))
    × Agree created_record m'
get-create_example =
    get-create setting empty created_store input (text "a") 9 9 7200000 true created_record
      platform-IsUrl (omega arith) creates
