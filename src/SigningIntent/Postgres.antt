-- ===== src/SigningIntent/Postgres.antt =====
-- The rows of services/signing-intent.service.ts in Postgres: `buildPgUpdateData`, and the reading of a
-- row by `buildWalletSigningIntentRecord` and `resolvePayloadSizeBytes`.
use aljama_wallet.Base.{
  ℕ, ◌≡◌, refl, ap, ◌∙◌, Option, none, some, [], ◌∷◌, Text, text, text_eq, normalize_nullable,
  or_else, switch, Outcome, done, thrown, and_then,
}
use aljama_wallet.SigningIntent.{
  Status, queued, approved, signed, submitted, confirmed, failed, Family, evm, xrpl, Payload,
  PayloadStorage, Details, Intent, Materialized, Updates, updated_text, build_record, apply_updates,
}

-- `PersistedIntentRow`, with the JSON of the payload read.
pub record Row : Type 0 where
  pub id : Text
  pub chain : Text
  pub action_type : Text
  pub status : Text
  pub wallet_id : Text
  pub user_id : Option Text
  pub chain_id : ℕ
  pub idempotency_key : Text
  pub trace_id : Text
  pub transfer_log_id : Option Text
  pub tx_payload : Option Payload
  pub tx_payload_ref : Option Text
  pub tx_payload_size_bytes : Option ℕ
  pub signed_payload : Option Text
  pub tx_hash : Option Text
  pub error_code : Option Text
  pub error_details : Option Details
  pub created_at : ℕ
  pub updated_at : ℕ

unfoldable pub status_name : Status → Text
status_name queued = text "queued"
status_name approved = text "approved"
status_name signed = text "signed"
status_name submitted = text "submitted"
status_name confirmed = text "confirmed"
status_name failed = text "failed"

abbrev parsed : {A : Type 0} → Option A → Outcome A
parsed none = thrown (text "ZodError")
parsed (some a) = done a

-- `walletSigningIntentStatusSchema.parse`
unfoldable pub parse_status : Text → Outcome Status
parse_status t = parsed (
    switch t
      ((text "queued" ∷ [], some queued)
        ∷ (text "approved" ∷ [], some approved)
        ∷ (text "signed" ∷ [], some signed)
        ∷ (text "submitted" ∷ [], some submitted)
        ∷ (text "confirmed" ∷ [], some confirmed)
        ∷ (text "failed" ∷ [], some failed)
        ∷ [])
      none)

-- `normalizeWalletSigningIntentChain` of a text
unfoldable pub parse_family : Text → Outcome Family
parse_family t =
    parsed (switch t ((text "EVM" ∷ [], some evm) ∷ (text "XRPL" ∷ [], some xrpl) ∷ []) none)

-- What a row has of a payload.
pub record PayloadState : Type 0 where
  pub payload : Payload
  pub payload_ref : Option Text
  pub payload_storage : PayloadStorage
  pub payload_size_bytes : ℕ

abbrev pub row_intent : Row → PayloadState → Family → Status → Intent
row_intent r p chain status = record {
  id = r.id;
  chain = chain;
  action_type = r.action_type;
  status = status;
  wallet_id = r.wallet_id;
  user_id = r.user_id;
  chain_id = r.chain_id;
  idempotency_key = r.idempotency_key;
  trace_id = r.trace_id;
  correlation_id = r.trace_id;
  transfer_log_id = r.transfer_log_id;
  payload_ref = p.payload_ref;
  payload_storage = p.payload_storage;
  payload_size_bytes = p.payload_size_bytes;
  signed_payload = r.signed_payload;
  tx_hash = r.tx_hash;
  error_code = r.error_code;
  error_details = r.error_details;
  created_at = r.created_at;
  updated_at = r.updated_at;
}

-- `buildWalletSigningIntentRecord` on a row: the chain is parsed before the status.
unfoldable pub build_row_record : Row → PayloadState → Outcome Materialized
build_row_record r p = and_then (parse_family r.chain) λ chain.
    and_then (parse_status r.status)
      λ status. done (build_record (row_intent r p chain status) p.payload)

-- The columns of an update; `none` is a column that is not named.
pub record UpdateData : Type 0 where
  pub status : Option Text
  pub transfer_log_id : Option (Option Text)
  pub signed_payload : Option (Option Text)
  pub tx_hash : Option (Option Text)
  pub error_code : Option (Option Text)
  pub error_details : Option (Option Details)

abbrev pub data_status : Option Status → Option Text
data_status none = none
data_status (some st) = some (status_name st)

abbrev pub data_text : Option (Option Text) → Option (Option Text)
data_text none = none
data_text (some t) = some (normalize_nullable t)

unfoldable pub build_pg_update_data : Updates → UpdateData
build_pg_update_data u = record {
  status = data_status u.status;
  transfer_log_id = data_text u.transfer_log_id;
  signed_payload = data_text u.signed_payload;
  tx_hash = data_text u.tx_hash;
  error_code = data_text u.error_code;
  error_details = u.error_details;
}

-- What Prisma documents of `update`: a column that is named has the value given, every other one its
-- old one, and `updatedAt` is the time of the update.
abbrev pub overwritten : UpdateData → ℕ → Row → Row
overwritten d now r = record r {
  status = or_else d.status r.status;
  transfer_log_id = or_else d.transfer_log_id r.transfer_log_id;
  signed_payload = or_else d.signed_payload r.signed_payload;
  tx_hash = or_else d.tx_hash r.tx_hash;
  error_code = or_else d.error_code r.error_code;
  error_details = or_else d.error_details r.error_details;
  updated_at = now;
}

parse_status-name : (st : Status) → parse_status (status_name st) ≡ done st
unfolding parse_status status_name
parse_status-name queued = refl
parse_status-name approved = refl
parse_status-name signed = refl
parse_status-name submitted = refl
parse_status-name confirmed = refl
parse_status-name failed = refl

updated_text-data :
    (t : Option (Option Text)) (old : Option Text) → or_else (data_text t) old ≡ updated_text t old
updated_text-data none old = refl
updated_text-data (some t) old = refl

parse_status-data :
    (o : Option Status) (t : Text) (st : Status)
    → parse_status t ≡ done st
    → parse_status (or_else (data_status o) t) ≡ done (or_else o st)
parse_status-data none t st e = e
parse_status-data (some new) t st e = parse_status-name new

parse_status-overwritten :
    (u : Updates) (now : ℕ) (r : Row) (st : Status)
    → parse_status r.status ≡ done st
    → parse_status (overwritten (build_pg_update_data u) now r).status ≡ done (or_else u.status st)
unfolding build_pg_update_data
parse_status-overwritten u now r st e = parse_status-data u.status r.status st e

read_row :
    (r : Row) (p : PayloadState) (chain : Family) (st : Status)
    → parse_family r.chain ≡ done chain
    → parse_status r.status ≡ done st
    → build_row_record r p ≡ done (build_record (row_intent r p chain st) p.payload)
unfolding build_row_record
read_row r p chain st e e' = rw (build_row_record, e, e') refl

-- The record of a row after an update is the updated record, up to the texts of the columns.
overwritten_intent :
    (u : Updates) (now : ℕ) (r : Row) (p : PayloadState) (chain : Family) (st : Status)
    → row_intent (overwritten (build_pg_update_data u) now r) p chain (or_else u.status st)
      ≡ apply_updates (row_intent r p chain st) u now
unfolding build_pg_update_data apply_updates
overwritten_intent u now r p chain st = λ i. record (row_intent r p chain st) {
  status = or_else u.status st;
  transfer_log_id = updated_text-data u.transfer_log_id r.transfer_log_id i;
  signed_payload = updated_text-data u.signed_payload r.signed_payload i;
  tx_hash = updated_text-data u.tx_hash r.tx_hash i;
  error_code = updated_text-data u.error_code r.error_code i;
  error_details = or_else u.error_details r.error_details;
  updated_at = now;
}

-- An update of an intent in Postgres, where it does what Prisma documents, of a row whose chain and
-- status are among the known ones, is read back as the record that the same update makes in memory.
pub pg_update_agrees :
    (update : UpdateData → ℕ → Row → Row)
    → ((d : UpdateData) (now : ℕ) (r : Row) → update d now r ≡ overwritten d now r)
    → (u : Updates) (now : ℕ) (r : Row) (p : PayloadState) (chain : Family) (st : Status)
    → parse_family r.chain ≡ done chain
    → parse_status r.status ≡ done st
    → build_row_record (update (build_pg_update_data u) now r) p
      ≡ done (build_record (apply_updates (row_intent r p chain st) u now) p.payload)
pg_update_agrees update law u now r p chain st known_chain known_status =
    ap (λ x. build_row_record x p) (law (build_pg_update_data u) now r)
    ∙ read_row (overwritten (build_pg_update_data u) now r) p chain (or_else u.status st)
        known_chain (parse_status-overwritten u now r st known_status)
    ∙ ap (λ x. done (build_record x p.payload)) (overwritten_intent u now r p chain st)
