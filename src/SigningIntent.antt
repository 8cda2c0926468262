-- ===== src/SigningIntent.antt =====
-- The records of services/signing-intent.service.ts, its schemas, and its pure functions.
pub mod Json
pub mod Archive
pub mod Effect
pub mod Calls
pub mod Kept
pub mod Update
pub mod Memory
pub mod Create
pub mod Backing
pub mod Claim
pub mod Once
pub mod RoundTrip
pub mod Alike
pub mod Race
pub mod Postgres
pub mod Contend
pub mod Tests
mod OneRow
use aljama_wallet.Base.{
  ℕ, Bool, true, false, ◌&&◌, Option, none, some, List, [], ◌∷◌, ltb, leb, if◌then◌else◌, or_else,
  Text, text, length, normalize_nullable, Outcome, done, thrown,
}
use aljama_wallet.Chain.{TxType, tx_type_name}

-- `WALLET_SIGNING_INTENT_STATUSES`
pub data Status : Type 0 where
  queued approved signed submitted confirmed failed : Status

-- `WALLET_SIGNING_INTENT_CHAINS`
pub data Family : Type 0 where
  evm xrpl : Family

-- `SerializedEvmTransaction`; undefined and null are both `none`.
pub record Transaction : Type 0 where
  pub to : Text
  pub value : Option Text
  pub nonce : Option ℕ
  pub gas_limit : Option Text
  pub gas_price : Option Text
  pub max_fee_per_gas : Option Text
  pub max_priority_fee_per_gas : Option Text
  pub tx_data : Option Text

-- `EvmTransactionSigningIntentPayload`
pub record Payload : Type 0 where
  pub wallet_id : Text
  pub chain_id : ℕ
  pub nonce_reservation_id : Option Text
  pub from_address : Text
  pub to_address : Text
  pub amount_wei : Text
  pub tx_type : TxType
  pub tx_data : Option Text
  pub transfer_log_id : Option Text
  pub transaction : Transaction

pub data PayloadStorage : Type 0 where
  inline archived : PayloadStorage

-- The values that the code puts into `errorDetails`.
pub data Detail : Type 0 where
  text_detail : Text → Detail
  number_detail : ℕ → Detail
  null_detail : Detail

abbrev pub Details : Type 0
Details = List (Text × Detail)

-- The fields that a stored record and the one for the caller share.
pub record Intent : Type 0 where
  pub id : Text
  pub chain : Family
  pub action_type : Text
  pub status : Status
  pub wallet_id : Text
  pub user_id : Option Text
  pub chain_id : ℕ
  pub idempotency_key : Text
  pub trace_id : Text
  pub correlation_id : Text
  pub transfer_log_id : Option Text
  pub payload_ref : Option Text
  pub payload_storage : PayloadStorage
  pub payload_size_bytes : ℕ
  pub signed_payload : Option Text
  pub tx_hash : Option Text
  pub error_code : Option Text
  pub error_details : Option Details
  pub created_at : ℕ
  pub updated_at : ℕ

-- `StoredWalletSigningIntentRecord` and `WalletSigningIntentRecord`
pub record Stored : Type 0 where
  pub intent : Intent
  pub payload : Option Payload

pub record Materialized : Type 0 where
  pub intent : Intent
  pub payload : Payload

pub record CreateInput : Type 0 where
  pub wallet_id : Text
  pub user_id : Option Text
  pub chain_id : ℕ
  pub chain : Option Family
  pub action_type : Option Text
  pub idempotency_key : Text
  pub trace_id : Option Text
  pub correlation_id : Option Text
  pub transfer_log_id : Option Text
  pub payload : Option Payload
  pub tx_payload : Option Payload

-- `UpdateWalletSigningIntentInput`; the outer `none` is undefined, which leaves the field alone.
pub record Updates : Type 0 where
  pub status : Option Status
  pub transfer_log_id : Option (Option Text)
  pub signed_payload : Option (Option Text)
  pub tx_hash : Option (Option Text)
  pub error_code : Option (Option Text)
  pub error_details : Option (Option Details)

-- `a ?? b`, where `b` may be missing too
abbrev pub or_option : {A : Type 0} → Option A → Option A → Option A
or_option none b = b
or_option (some a) b = some a

-- `/^\d+$/`
abbrev all_digits : Text → Bool
all_digits [] = true
all_digits (c ∷ s) = leb b'0' c && leb c b'9' && all_digits s

unfoldable pub is_decimal : Text → Bool
is_decimal s = leb 1 (length s) && all_digits s

abbrev pub optionally : (Text → Bool) → Option Text → Bool
optionally p none = true
optionally p (some s) = p s

abbrev pub has_min : ℕ → Text → Bool
has_min n s = leb n (length s)

-- `serializedEvmTransactionSchema`
unfoldable pub is_transaction : Transaction → Bool
is_transaction t =
    has_min 1 t.to
    && optionally is_decimal t.value
    && optionally is_decimal t.gas_limit
    && optionally is_decimal t.gas_price
    && optionally is_decimal t.max_fee_per_gas
    && optionally is_decimal t.max_priority_fee_per_gas

-- `evmTransactionSigningIntentPayloadSchema`
unfoldable pub is_payload : Payload → Bool
is_payload p =
    has_min 3 p.wallet_id
    && ltb 0 p.chain_id
    && optionally (has_min 1) p.nonce_reservation_id
    && has_min 1 p.from_address
    && has_min 1 p.to_address
    && is_decimal p.amount_wei
    && is_transaction p.transaction

abbrev pub invalid_payload : Text
invalid_payload = text "ZodError"

unfoldable pub parse_payload : Payload → Outcome Payload
parse_payload p = if is_payload p then done p else thrown invalid_payload

unfoldable pub resolve_create_payload : CreateInput → Outcome Payload
resolve_create_payload i = elim (or_option i.tx_payload i.payload) [
  | none ↦ thrown (text "SIGNING_INTENT_PAYLOAD_REQUIRED")
  | some p ↦ parse_payload p
]

unfoldable pub resolve_trace_id : CreateInput → Outcome Text
resolve_trace_id i = elim (normalize_nullable (or_option i.trace_id i.correlation_id)) [
  | none ↦ thrown (text "SIGNING_INTENT_TRACE_ID_REQUIRED")
  | some t ↦ done t
]

unfoldable pub resolve_action_type : CreateInput → Payload → Text
resolve_action_type i p =
    or_else (normalize_nullable (some (or_else i.action_type (tx_type_name p.tx_type))))
      (tx_type_name p.tx_type)

-- `buildWalletSigningIntentRecord` on a record in memory
unfoldable pub build_record : Intent → Payload → Materialized
build_record r p = record {
  intent = record r {
    action_type = or_else (normalize_nullable (some r.action_type)) (text "transfer");
    correlation_id = r.trace_id;
    transfer_log_id = normalize_nullable r.transfer_log_id;
    payload_ref = normalize_nullable r.payload_ref;
    signed_payload = normalize_nullable r.signed_payload;
    tx_hash = normalize_nullable r.tx_hash;
    error_code = normalize_nullable r.error_code;
  };
  payload = p;
}

abbrev pub updated_text : Option (Option Text) → Option Text → Option Text
updated_text none old = old
updated_text (some t) old = normalize_nullable t

-- `applyWalletSigningIntentUpdates`
unfoldable pub apply_updates : Intent → Updates → ℕ → Intent
apply_updates r u now = record r {
  status = or_else u.status r.status;
  transfer_log_id = updated_text u.transfer_log_id r.transfer_log_id;
  signed_payload = updated_text u.signed_payload r.signed_payload;
  tx_hash = updated_text u.tx_hash r.tx_hash;
  error_code = updated_text u.error_code r.error_code;
  error_details = or_else u.error_details r.error_details;
  updated_at = now;
}

abbrev pub no_updates : Updates
no_updates = record {
  status = none;
  transfer_log_id = none;
  signed_payload = none;
  tx_hash = none;
  error_code = none;
  error_details = none;
}
