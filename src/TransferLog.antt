-- ===== src/TransferLog.antt =====
-- services/transfer-log.service.ts on its in-memory log: the attempts to transfer, in the order of
-- their recording. The branch in Postgres is in TransferLog/Postgres. Clock readings and random
-- identifiers are arguments; the two readings of one record are one.
pub mod Queries
pub mod Postgres
pub mod Service
pub mod Strict
pub mod Counts
pub mod Listing
mod Tests
use aljama_wallet.Base.{
  ℕ, ◌+◌, ◌-◌, max, Bool, true, false, ◌&&◌, Option, none, some, List, [], ◌∷◌, ◌++◌, ltb, leb,
  if◌then◌else◌, ◌==◌, Text, text, text_eq, trim, to_lower, normalize_nullable, length, drop,
  includes, or_else, ℤ, pos, negsuc, Number, int, frac, not_finite, map,
}
use aljama_wallet.Chain.{TransferStatus, normalize_transfer_status}

-- The fields that an attempt carries as texts that may be missing.
pub record Details : Type 0 where
  pub tx_hash : Option Text
  pub nonce : Option Text
  pub tx_data : Option Text
  pub gas_limit : Option Text
  pub gas_price : Option Text
  pub max_fee_per_gas : Option Text
  pub max_priority_fee_per_gas : Option Text
  pub gas_used : Option Text
  pub block_hash : Option Text
  pub replaces_tx_hash : Option Text
  pub replaced_by_tx_hash : Option Text

-- `TransferLogInput`; undefined and null are both `none`.
pub record Input : Type 0 where
  pub wallet_id : Text
  pub user_id : Option Text
  pub chain_id : ℕ
  pub to_address : Text
  pub amount_wei : ℤ
  pub status : Text
  pub idempotency_key : Text
  pub trace_id : Text
  pub details : Details
  pub tx_type : Option Text
  pub block_height : Option ℤ
  pub confirmation_count : Option Number
  pub confirmed_at : Option ℕ

pub record Log : Type 0 where
  pub id : Text
  pub wallet_id : Text
  pub user_id : Option Text
  pub chain_id : ℕ
  pub to_address : Text
  pub amount_wei : ℤ
  pub status : TransferStatus
  pub idempotency_key : Text
  pub trace_id : Text
  pub details : Details
  pub tx_type : Option Text
  pub block_height : Option ℤ
  pub confirmation_count : ℕ
  pub confirmed_at : Option ℕ
  pub created_at : ℕ
  pub updated_at : ℕ

-- The same fields in an update: the outer `none` is undefined, which leaves the field alone.
pub record DetailUpdates : Type 0 where
  pub tx_hash : Option (Option Text)
  pub nonce : Option (Option Text)
  pub tx_data : Option (Option Text)
  pub gas_limit : Option (Option Text)
  pub gas_price : Option (Option Text)
  pub max_fee_per_gas : Option (Option Text)
  pub max_priority_fee_per_gas : Option (Option Text)
  pub gas_used : Option (Option Text)
  pub block_hash : Option (Option Text)
  pub replaces_tx_hash : Option (Option Text)
  pub replaced_by_tx_hash : Option (Option Text)

-- `TransferLogUpdateInput`; a count of confirmations in an update is a whole number.
pub record Updates : Type 0 where
  pub status : Option Text
  pub details : DetailUpdates
  pub tx_type : Option (Option Text)
  pub block_height : Option (Option ℤ)
  pub confirmation_count : Option ℤ
  pub confirmed_at : Option (Option ℕ)

abbrev pub no_details : DetailUpdates
no_details = record {
  tx_hash = none;
  nonce = none;
  tx_data = none;
  gas_limit = none;
  gas_price = none;
  max_fee_per_gas = none;
  max_priority_fee_per_gas = none;
  gas_used = none;
  block_hash = none;
  replaces_tx_hash = none;
  replaced_by_tx_hash = none;
}

abbrev pub max_events : ℕ
max_events = 5000

unfoldable pub normalize_address : Text → Text
normalize_address address = to_lower (trim address)

-- `Math.max(0, Math.floor(n))`
abbrev pub whole_count : ℤ → ℕ
whole_count (pos n) = n
whole_count (negsuc n) = 0

abbrev pub count_or_zero : Option Number → ℕ
count_or_zero (some (int z)) = whole_count z
count_or_zero (some (frac z)) = whole_count z
count_or_zero _ = 0

unfoldable pub normalize_details : Details → Details
normalize_details d = record {
  tx_hash = normalize_nullable d.tx_hash;
  nonce = normalize_nullable d.nonce;
  tx_data = normalize_nullable d.tx_data;
  gas_limit = normalize_nullable d.gas_limit;
  gas_price = normalize_nullable d.gas_price;
  max_fee_per_gas = normalize_nullable d.max_fee_per_gas;
  max_priority_fee_per_gas = normalize_nullable d.max_priority_fee_per_gas;
  gas_used = normalize_nullable d.gas_used;
  block_hash = normalize_nullable d.block_hash;
  replaces_tx_hash = normalize_nullable d.replaces_tx_hash;
  replaced_by_tx_hash = normalize_nullable d.replaced_by_tx_hash;
}

unfoldable pub to_record : Input → Text → ℕ → Log
to_record i id now = record {
  id = id;
  wallet_id = i.wallet_id;
  user_id = i.user_id;
  chain_id = i.chain_id;
  to_address = normalize_address i.to_address;
  amount_wei = i.amount_wei;
  status = normalize_transfer_status i.status;
  idempotency_key = i.idempotency_key;
  trace_id = i.trace_id;
  details = normalize_details i.details;
  tx_type = i.tx_type;
  block_height = i.block_height;
  confirmation_count = count_or_zero i.confirmation_count;
  confirmed_at = i.confirmed_at;
  created_at = now;
  updated_at = now;
}

-- A text of an update, normalised, or the old one.
abbrev pub updated_text : Option (Option Text) → Option Text → Option Text
updated_text none old = old
updated_text (some t) old = normalize_nullable t

abbrev pub updated_details : DetailUpdates → Details → Details
updated_details u d = record {
  tx_hash = updated_text u.tx_hash d.tx_hash;
  nonce = updated_text u.nonce d.nonce;
  tx_data = updated_text u.tx_data d.tx_data;
  gas_limit = updated_text u.gas_limit d.gas_limit;
  gas_price = updated_text u.gas_price d.gas_price;
  max_fee_per_gas = updated_text u.max_fee_per_gas d.max_fee_per_gas;
  max_priority_fee_per_gas = updated_text u.max_priority_fee_per_gas d.max_priority_fee_per_gas;
  gas_used = updated_text u.gas_used d.gas_used;
  block_hash = updated_text u.block_hash d.block_hash;
  replaces_tx_hash = updated_text u.replaces_tx_hash d.replaces_tx_hash;
  replaced_by_tx_hash = updated_text u.replaced_by_tx_hash d.replaced_by_tx_hash;
}

-- An empty status counts as none.
abbrev pub updated_status : Option Text → TransferStatus → TransferStatus
updated_status (some (c ∷ s)) old = normalize_transfer_status (c ∷ s)
updated_status _ old = old

abbrev pub updated_count : Option ℤ → ℕ → ℕ
updated_count none old = old
updated_count (some z) old = whole_count z

unfoldable pub apply_transfer_log_updates : Log → Updates → ℕ → Log
apply_transfer_log_updates r u now = record r {
  status = updated_status u.status r.status;
  details = updated_details u.details r.details;
  tx_type = or_else u.tx_type r.tx_type;
  block_height = or_else u.block_height r.block_height;
  confirmation_count = updated_count u.confirmation_count r.confirmation_count;
  confirmed_at = or_else u.confirmed_at r.confirmed_at;
  updated_at = now;
}

-- `recordTransferAttempt`: beyond 5000 the oldest go.
unfoldable pub record_transfer_attempt : List Log → Input → Text → ℕ → Text × List Log
record_transfer_attempt logs i uuid now =
    let id = text "mem_" ++ uuid in
    let longer = logs ++ to_record i id now ∷ [] in
    (
      id,
      if ltb max_events (length longer) then drop (length longer - max_events) longer else longer,
    )

-- The first entry with the id takes the updates.
abbrev update_first : List Log → Text → Updates → ℕ → List Log
update_first [] id u now = []
update_first (r ∷ logs) id u now =
    if r.id == id then apply_transfer_log_updates r u now ∷ logs else r ∷ update_first logs id u now

unfoldable pub update_transfer_status : List Log → Text → Text → Updates → ℕ → List Log
update_transfer_status logs id status extras now =
    update_first logs id (record extras { status = some status }) now

abbrev pub has_hash : Text → Log → Bool
has_hash hash r = elim r.details.tx_hash [ none ↦ false | some h ↦ h == hash ]

abbrev pub is_listed : List Text → Log → Bool
is_listed hashes r = elim r.details.tx_hash [ none ↦ false | some h ↦ includes hashes h ]

abbrev pub update_where : (Log → Bool) → Updates → ℕ → List Log → List Log
update_where hit u now [] = []
update_where hit u now (r ∷ logs) =
    (if hit r then apply_transfer_log_updates r u now else r) ∷ update_where hit u now logs

unfoldable pub update_transfer_attempt_by_tx_hash : List Log → Text → Updates → ℕ → List Log
update_transfer_attempt_by_tx_hash logs tx_hash u now = elim (normalize_nullable (some tx_hash)) [
  | none ↦ logs
  | some hash ↦ update_where (has_hash hash) u now logs
]

abbrev pub normalized_hashes : List Text → List Text
normalized_hashes [] = []
normalized_hashes (h ∷ hs) = elim (normalize_nullable (some h)) [
  | none ↦ normalized_hashes hs
  | some t ↦ t ∷ normalized_hashes hs
]

-- `...(replacesTxHash ? { replacesTxHash } : {})`
abbrev pub given_text : Option Text → Option (Option Text)
given_text (some (c ∷ s)) = some (some (c ∷ s))
given_text _ = none

abbrev pub replacement : Text → Option Text → Updates
replacement replaced_by replaces = record {
  status = some (text "replaced");
  details = record no_details {
    replaced_by_tx_hash = some (some replaced_by);
    replaces_tx_hash = given_text replaces;
  };
  tx_type = none;
  block_height = none;
  confirmation_count = none;
  confirmed_at = none;
}

unfoldable pub replace_transfer_attempts_by_tx_hashes :
    List Log → List Text → Text → Option Text → ℕ → List Log
replace_transfer_attempts_by_tx_hashes logs tx_hashes replaced_by replaces now =
    elim (normalized_hashes tx_hashes) [
      | [] ↦ logs
      | h ∷ hs ↦ update_where (is_listed (h ∷ hs)) (replacement replaced_by replaces) now logs
    ]
