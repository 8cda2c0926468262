-- ===== src/SigningIntent/Create.antt =====
-- `createWalletSigningIntent` in memory: the payload in the record or in the archive, the new record, and
-- the limit on the map in strict mode.
use aljama_wallet.Base.{
  ℕ, Bool, ◌&&◌, Option, none, some, ◌++◌, ltb, if◌then◌else◌, or_else, Text, text, text_eq, length,
  sort_up, head, normalize_nullable, Outcome, done, thrown,
}
use aljama_wallet.Base.Map
use aljama_wallet.Base.Map.{Map}
use aljama_wallet.SigningIntent.{
  queued, evm, Payload, PayloadStorage, inline, archived, Stored, Materialized, CreateInput,
  or_option, resolve_create_payload, resolve_trace_id, resolve_action_type, build_record,
}
use aljama_wallet.SigningIntent.Archive.{Files, Location, archive_payload, should_archive}
use aljama_wallet.SigningIntent.Memory.{created_of, Setting, Store}

-- `prepareWalletSigningIntentPayloadPersistence`: the payload that stays in the record, the
-- reference to the archived one, and where it is.
pub record Prepared : Type 0 where
  pub inline_payload : Option Payload
  pub payload_ref : Option Text
  pub payload_storage : PayloadStorage

abbrev pub prepared_archived : Outcome Text × Files → Outcome Prepared × Files
prepared_archived (done url, files) = (
  done (record { inline_payload = none; payload_ref = some url; payload_storage = archived }),
  files,
)
prepared_archived (thrown e, files) = (thrown e, files)

unfoldable pub prepare_persistence :
    Setting → Files → Location → Payload → ℕ → ℕ → Bool → Outcome Prepared × Files
prepare_persistence cfg files l p created_at now writes =
    if should_archive cfg.policy (cfg.platform.measure p) created_at now
    then prepared_archived (archive_payload cfg.platform files l p writes)
    else (
      done (record { inline_payload = some p; payload_ref = none; payload_storage = inline }),
      files,
    )

abbrev pub max_intents : ℕ
max_intents = 10000

abbrev pub delete_oldest : Map Text Stored → Option Stored → Map Text Stored
delete_oldest m none = m
delete_oldest m (some r) = Map.delete m r.intent.id

-- In strict mode the oldest of more than 10,000 goes.
unfoldable pub cap_intents : Bool → Map Text Stored → Map Text Stored
cap_intents strict m =
    if strict && ltb max_intents (length m)
    then delete_oldest m (head (sort_up created_of (Map.values m)))
    else m

-- `intent_${uuid}`
abbrev pub intent_id : Text → Text
intent_id uuid = text "intent_" ++ uuid

abbrev pub location_for : CreateInput → Payload → Location
location_for i p = record {
  wallet_id = i.wallet_id;
  chain_id = i.chain_id;
  idempotency_key = i.idempotency_key;
  action_type = resolve_action_type i p;
}

abbrev pub new_record : Setting → CreateInput → Payload → Text → Prepared → Text → ℕ → Stored
new_record cfg i p trace_id prepared uuid now = record {
  intent = record {
    id = intent_id uuid;
    chain = or_else i.chain evm;
    action_type = resolve_action_type i p;
    status = queued;
    wallet_id = i.wallet_id;
    user_id = i.user_id;
    chain_id = i.chain_id;
    idempotency_key = i.idempotency_key;
    trace_id = trace_id;
    correlation_id = trace_id;
    transfer_log_id = normalize_nullable (or_option i.transfer_log_id p.transfer_log_id);
    payload_ref = prepared.payload_ref;
    payload_storage = prepared.payload_storage;
    payload_size_bytes = cfg.platform.measure p;
    signed_payload = none;
    tx_hash = none;
    error_code = none;
    error_details = none;
    created_at = now;
    updated_at = now;
  };
  payload = prepared.inline_payload;
}

abbrev pub insert_prepared :
    Setting
    → Store
    → CreateInput
    → Payload
    → Text
    → Text
    → ℕ
    → Outcome Prepared × Files
    → Outcome Materialized × Store
insert_prepared cfg s i p trace_id uuid now (thrown e, files) =
    (thrown e, record s { files = files })
insert_prepared cfg s i p trace_id uuid now (done prepared, files) =
    let r = new_record cfg i p trace_id prepared uuid now in
    (
      done (build_record r.intent p),
      record { intents = cap_intents cfg.strict (Map.set s.intents r.intent.id r); files = files },
    )

-- `createWalletSigningIntent`: the clock is read for the record and then for the archive's test.
unfoldable pub create_intent :
    Setting → Store → CreateInput → Text → ℕ → ℕ → Bool → Outcome Materialized × Store
create_intent cfg s i uuid now checked_at writes = elim (resolve_create_payload i) [
  | thrown e ↦ (thrown e, s)
  | done p ↦ elim (resolve_trace_id i) [
    | thrown e ↦ (thrown e, s)
    | done trace_id ↦
        insert_prepared cfg s i p trace_id uuid now
          (prepare_persistence cfg s.files (location_for i p) p now checked_at writes)
  ]
]
