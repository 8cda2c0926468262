-- ===== src/SigningIntent/Memory.antt =====
-- The operations of services/signing-intent.service.ts on the map in memory, without a Postgres URL.
-- Clock readings, random identifiers and whether the disk takes a file are arguments.
use aljama_wallet.Base.{
  ℕ, ◌+◌, Bool, true, false, Option, none, some, [], ◌∷◌, if◌then◌else◌, ◌==◌, Text, text, text_eq,
  filter, sort_up, head, normalize_nullable, Outcome, done, thrown, and_then,
}
use aljama_wallet.Base.Map
use aljama_wallet.Base.Map.{Map}
use aljama_wallet.SigningIntent.{
  Payload, Status, approved, signed, submitted, confirmed, failed, archived, Details, Stored,
  Materialized, Updates, build_record, apply_updates, no_updates,
}
use aljama_wallet.SigningIntent.Json.{parse_json}
use aljama_wallet.SigningIntent.Archive.{
  Platform, ArchivePolicy, Files, location_of, archive_payload, read_payload, should_archive,
}

pub record Setting : Type 0 where
  pub platform : Platform
  pub policy : ArchivePolicy
  pub strict : Bool

-- `memoryIntents`, and the files of the archive.
pub record Store : Type 0 where
  pub intents : Map Text Stored
  pub files : Files

abbrev pub empty : Store
empty = record { intents = []; files = [] }

-- `memoryIntents.set(record.id, record)`
abbrev pub put : Store → Stored → Store
put s r = record s { intents = Map.set s.intents r.intent.id r }

abbrev pub archived_as : Stored → Text → Stored
archived_as r url = record {
  intent = record r.intent { payload_ref = some url; payload_storage = archived };
  payload = none;
}

-- Behind the `await` of the archive: the record of before, without its payload, is put in place.
abbrev pub finish_archive : Setting → Store → Stored → Outcome Text × Files → Outcome Stored × Store
finish_archive cfg s r (done url, files) =
    (done (archived_as r url), put (record s { files = files }) (archived_as r url))
finish_archive cfg s r (thrown e, files) = (if cfg.strict then thrown e else done r, s)

unfoldable pub maybe_archive : Setting → Store → Stored → ℕ → Bool → Outcome Stored × Store
maybe_archive cfg s r now writes = elim r.payload [
  | none ↦ (done r, s)
  | some p ↦
      if should_archive cfg.policy r.intent.payload_size_bytes r.intent.created_at now
      then finish_archive cfg s r
          (archive_payload cfg.platform s.files (location_of r.intent) p writes)
      else (done r, s)
]

-- `loadWalletSigningIntentPayload`
unfoldable pub load_payload : Setting → Files → Text → Outcome Payload
load_payload cfg files ref = and_then (read_payload cfg.platform files ref) parse_json

-- The payload of a record, from the archive where the record has none.
unfoldable pub load : Setting → Files → Stored → Outcome Materialized
load cfg files r = elim r.payload [
  | some p ↦ done (build_record r.intent p)
  | none ↦ elim (normalize_nullable r.intent.payload_ref) [
    | none ↦ thrown (text "SIGNING_INTENT_PAYLOAD_MISSING")
    | some ref ↦ and_then (load_payload cfg files ref) λ p. done (build_record r.intent p)
  ]
]

unfoldable pub materialize : Setting → Store → Stored → ℕ → Bool → Outcome Materialized × Store
materialize cfg s r now writes =
    let (resolved, s') = maybe_archive cfg s r now writes in
    (and_then resolved (load cfg s'.files), s')

-- `null` for the caller, or a record.
abbrev pub found : Outcome Materialized × Store → Outcome (Option Materialized) × Store
found (o, s) = (and_then o λ r. done (some r), s)

unfoldable pub get_intent :
    Setting → Store → Text → ℕ → Bool → Outcome (Option Materialized) × Store
get_intent cfg s id now writes = elim (Map.get s.intents id) [
  | none ↦ (done none, s)
  | some r ↦ found (materialize cfg s r now writes)
]

abbrev pub updated_stored : Stored → Updates → ℕ → Stored
updated_stored r u now = record r { intent = apply_updates r.intent u now }

-- The clock is read for the record and then for the archive's test, here and in a claim.
unfoldable pub update_intent :
    Setting → Store → Text → Updates → ℕ → ℕ → Bool → Outcome (Option Materialized) × Store
update_intent cfg s id u now checked_at writes = elim (Map.get s.intents id) [
  | none ↦ (done none, s)
  | some r ↦
      let updated = updated_stored r u now in
      found (
        materialize cfg (record s { intents = Map.set s.intents id updated }) updated checked_at
          writes)
]

abbrev pub has_hash : Text → Stored → Bool
has_hash hash r = elim r.intent.tx_hash [ none ↦ false | some h ↦ h == hash ]

-- Each entry of the loop is set under the key that it has, which keeps its place.
abbrev pub update_entries : Text → Updates → ℕ → Map Text Stored → ℕ × Map Text Stored
update_entries hash u now [] = (0, [])
update_entries hash u now ((id, r) ∷ m) =
    let (n, m') = update_entries hash u now m in
    if has_hash hash r then (n + 1, (id, updated_stored r u now) ∷ m') else (n, (id, r) ∷ m')

unfoldable pub update_by_tx_hash : Store → Text → Updates → ℕ → ℕ × Store
update_by_tx_hash s tx_hash u now = elim (normalize_nullable (some tx_hash)) [
  | none ↦ (0, s)
  | some hash ↦ let (n, m) = update_entries hash u now s.intents in (n, record s { intents = m })
]

abbrev pub is_queued : Stored → Bool
is_queued r = elim r.intent.status [ Status.queued ↦ true | _ ↦ false ]

abbrev pub created_of : Stored → ℕ
created_of r = r.intent.created_at

-- The queued intent with the earliest time of creation, the first stored where there are several.
unfoldable pub next_queued : Store → Option Stored
next_queued s = head (sort_up created_of (filter is_queued (Map.values s.intents)))

abbrev pub claimed_from : Stored → ℕ → Stored
claimed_from r now = updated_stored r (record no_updates { status = some approved }) now

unfoldable pub claim_next : Setting → Store → ℕ → ℕ → Bool → Outcome (Option Materialized) × Store
claim_next cfg s now checked_at writes = elim (next_queued s) [
  | none ↦ (done none, s)
  | some r ↦
      let claimed = claimed_from r now in
      found (materialize cfg (put s claimed) claimed checked_at writes)
]

-- The updates of the functions that mark an intent.
abbrev pub mark_signed : Text → Option Text → Updates
mark_signed signed_payload tx_hash = record {
  status = some signed;
  transfer_log_id = none;
  signed_payload = some (some signed_payload);
  tx_hash = some tx_hash;
  error_code = some none;
  error_details = some none;
}

abbrev pub mark_submitted : Option (Option Text) → Text → Updates
mark_submitted signed_payload tx_hash = record {
  status = some submitted;
  transfer_log_id = none;
  signed_payload = signed_payload;
  tx_hash = some (some tx_hash);
  error_code = some none;
  error_details = some none;
}

-- By hash: when a transaction is confirmed, and when it is back in the pool.
abbrev pub mark_confirmed : Updates
mark_confirmed = record no_updates {
  status = some confirmed;
  error_code = some none;
  error_details = some none;
}

abbrev pub reopen : Updates
reopen = record no_updates {
  status = some submitted;
  error_code = some none;
  error_details = some none;
}

abbrev pub mark_failed : Text → Option Details → Option (Option Text) → Updates
mark_failed error_code error_details tx_hash = record no_updates {
  status = some failed;
  tx_hash = tx_hash;
  error_code = some (some error_code);
  error_details = some error_details;
}

-- `resetWalletSigningIntentState`
unfoldable pub reset : Store → Store
reset s = record s { intents = [] }
