-- ===== src/SigningIntent/Archive.antt =====
-- lib/storage/wallet-signing-intent-payload.ts: payloads of intents that are kept in files, under
-- their URLs. The digest and the size of a payload's JSON, and what Node makes of paths and URLs, are
-- parameters; a file holds the JSON value that was written, which compression keeps.
use aljama_wallet.Base.{
  ℕ, ◌-◌, Bool, true, false, ◌&&◌, ◌||◌, none, some, List, [], ◌∷◌, ◌++◌, ltb, leb, if◌then◌else◌,
  ◌==◌, nat_eq, Text, text, text_eq, trim, take, show, Outcome, done, thrown,
}
use aljama_wallet.Base.Map
use aljama_wallet.Base.Map.{Map}
use aljama_wallet.SigningIntent.{Payload, Intent}
use aljama_wallet.SigningIntent.Json.{Json, payload_json}

-- The platform, and the directory of the configuration.
pub record Platform : Type 0 where
  pub archive_dir : Text
  -- of a directory and what is below it
  pub join : List Text → Text
  pub path_to_url : Text → Text
  pub is_file_url : Text → Bool
  -- `sha256` in hexadecimal, of the JSON
  pub digest : Payload → Text
  -- `Buffer.byteLength` of the JSON
  pub measure : Payload → ℕ

pub record ArchivePolicy : Type 0 where
  pub inline_max_bytes : ℕ
  pub hot_window_ms : ℕ

-- The defaults: 4 KiB, one hour.
abbrev pub default_policy : ArchivePolicy
default_policy = record { inline_max_bytes = 4096; hot_window_ms = 3600000 }

abbrev pub Files : Type 0
Files = Map Text Json

-- `[a-zA-Z0-9._-]`
abbrev is_safe : ℕ → Bool
is_safe c =
    (leb b'a' c && leb c b'z')
    || (leb b'A' c && leb c b'Z')
    || (leb b'0' c && leb c b'9')
    || c == b'.'
    || c == b'_'
    || c == b'-'

-- `.replace(/[^a-zA-Z0-9._-]+/g, '_')`; the flag says whether the unit before was replaced.
abbrev replace_unsafe : Bool → Text → Text
replace_unsafe after [] = []
replace_unsafe after (c ∷ s) =
    if is_safe c
    then c ∷ replace_unsafe false s
    else if after
    then replace_unsafe true s
    else b'_' ∷ replace_unsafe true s

abbrev non_empty_or : Text → Text → Text
non_empty_or [] fallback = fallback
non_empty_or (c ∷ s) fallback = c ∷ s

unfoldable pub sanitize_path_segment : Text → Text → Text
sanitize_path_segment value fallback =
    non_empty_or (take 96 (replace_unsafe false (trim value))) fallback

-- What an archived payload is filed under.
pub record Location : Type 0 where
  pub wallet_id : Text
  pub chain_id : ℕ
  pub idempotency_key : Text
  pub action_type : Text

abbrev pub location_of : Intent → Location
location_of r = record {
  wallet_id = r.wallet_id;
  chain_id = r.chain_id;
  idempotency_key = r.idempotency_key;
  action_type = r.action_type;
}

unfoldable pub archive_url : Platform → Location → Payload → Text
archive_url pf l p =
    let dir = pf.join (
      pf.archive_dir
      ∷ sanitize_path_segment l.wallet_id (text "wallet")
      ∷ sanitize_path_segment (show l.chain_id) (text "chain")
      ∷ sanitize_path_segment l.idempotency_key (text "idempotency")
      ∷ []) in
    let file_name =
      sanitize_path_segment l.action_type (text "intent")
      ++ b'-' ∷ (take 24 (pf.digest p) ++ text ".json.gz") in
    pf.path_to_url (pf.join (dir ∷ file_name ∷ []))

-- The last argument says whether the disk takes the file.
unfoldable pub archive_payload : Platform → Files → Location → Payload → Bool → Outcome Text × Files
archive_payload pf files l p false = (thrown (text "EIO"), files)
archive_payload pf files l p true =
    (done (archive_url pf l p), Map.set files (archive_url pf l p) (payload_json p))

unfoldable pub read_payload : Platform → Files → Text → Outcome Json
read_payload pf files ref =
    if pf.is_file_url ref
    then elim (Map.get files ref) [ none ↦ thrown (text "ENOENT") | some j ↦ done j ]
    else thrown (text "Unsupported wallet signing intent payload ref")

-- `shouldArchiveWalletSigningIntentPayload`
unfoldable pub should_archive : ArchivePolicy → ℕ → ℕ → ℕ → Bool
should_archive policy size created_at now =
    ltb policy.inline_max_bytes size
    || leb policy.hot_window_ms 0
    || ltb policy.hot_window_ms (now - created_at)
