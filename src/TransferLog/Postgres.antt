-- ===== src/TransferLog/Postgres.antt =====
-- The branch of services/transfer-log.service.ts in Postgres: `buildPgUpdateData` and `mapDbRecord`.
-- What Prisma's `update` does with the columns it is given is a parameter with its documented law.
use aljama_wallet.Base.{
  ℕ, ◌≡◌, refl, ap, ◌∙◌, Option, none, some, [], ◌∷◌, Text, text_eq, normalize_nullable, or_else, ℤ,
}
use aljama_wallet.Chain.{normalize_transfer_status, transfer_status_name}
use aljama_wallet.Chain.Vocabulary.{normalize-name}
use aljama_wallet.TransferLog.{
  Details, DetailUpdates, Log, Updates, whole_count, updated_text, updated_details, updated_status,
  updated_count, apply_transfer_log_updates,
}

-- A row of `walletTransferLog`, as Prisma returns it.
pub record Row : Type 0 where
  pub id : Text
  pub wallet_id : Text
  pub user_id : Option Text
  pub chain_id : ℕ
  pub to_address : Text
  pub amount_wei : ℤ
  pub status : Text
  pub idempotency_key : Text
  pub trace_id : Text
  pub details : Details
  pub tx_type : Option Text
  pub block_height : Option ℤ
  pub confirmation_count : ℕ
  pub confirmed_at : Option ℕ
  pub created_at : ℕ
  pub updated_at : ℕ

unfoldable pub map_db_record : Row → Log
map_db_record r = record {
  id = r.id;
  wallet_id = r.wallet_id;
  user_id = r.user_id;
  chain_id = r.chain_id;
  to_address = r.to_address;
  amount_wei = r.amount_wei;
  status = normalize_transfer_status r.status;
  idempotency_key = r.idempotency_key;
  trace_id = r.trace_id;
  details = r.details;
  tx_type = r.tx_type;
  block_height = r.block_height;
  confirmation_count = r.confirmation_count;
  confirmed_at = r.confirmed_at;
  created_at = r.created_at;
  updated_at = r.updated_at;
}

-- The columns of an update; `none` is a column that is not named.
pub record UpdateData : Type 0 where
  pub status : Option Text
  pub details : DetailUpdates
  pub tx_type : Option (Option Text)
  pub block_height : Option (Option ℤ)
  pub confirmation_count : Option ℕ
  pub confirmed_at : Option (Option ℕ)

abbrev pub data_text : Option (Option Text) → Option (Option Text)
data_text none = none
data_text (some t) = some (normalize_nullable t)

abbrev pub data_status : Option Text → Option Text
data_status (some (c ∷ s)) = some (transfer_status_name (normalize_transfer_status (c ∷ s)))
data_status _ = none

abbrev pub data_count : Option ℤ → Option ℕ
data_count none = none
data_count (some z) = some (whole_count z)

unfoldable pub build_pg_update_data : Updates → UpdateData
build_pg_update_data u = record {
  status = data_status u.status;
  details = record {
    tx_hash = data_text u.details.tx_hash;
    nonce = data_text u.details.nonce;
    tx_data = data_text u.details.tx_data;
    gas_limit = data_text u.details.gas_limit;
    gas_price = data_text u.details.gas_price;
    max_fee_per_gas = data_text u.details.max_fee_per_gas;
    max_priority_fee_per_gas = data_text u.details.max_priority_fee_per_gas;
    gas_used = data_text u.details.gas_used;
    block_hash = data_text u.details.block_hash;
    replaces_tx_hash = data_text u.details.replaces_tx_hash;
    replaced_by_tx_hash = data_text u.details.replaced_by_tx_hash;
  };
  tx_type = u.tx_type;
  block_height = u.block_height;
  confirmation_count = data_count u.confirmation_count;
  confirmed_at = u.confirmed_at;
}

-- Each column named by the data has the value given, every other its old one, and `updatedAt` the
-- time of the update.
abbrev pub overwritten : UpdateData → ℕ → Row → Row
overwritten d now r = record r {
  status = or_else d.status r.status;
  details = record {
    tx_hash = or_else d.details.tx_hash r.details.tx_hash;
    nonce = or_else d.details.nonce r.details.nonce;
    tx_data = or_else d.details.tx_data r.details.tx_data;
    gas_limit = or_else d.details.gas_limit r.details.gas_limit;
    gas_price = or_else d.details.gas_price r.details.gas_price;
    max_fee_per_gas = or_else d.details.max_fee_per_gas r.details.max_fee_per_gas;
    max_priority_fee_per_gas =
        or_else d.details.max_priority_fee_per_gas r.details.max_priority_fee_per_gas;
    gas_used = or_else d.details.gas_used r.details.gas_used;
    block_hash = or_else d.details.block_hash r.details.block_hash;
    replaces_tx_hash = or_else d.details.replaces_tx_hash r.details.replaces_tx_hash;
    replaced_by_tx_hash = or_else d.details.replaced_by_tx_hash r.details.replaced_by_tx_hash;
  };
  tx_type = or_else d.tx_type r.tx_type;
  block_height = or_else d.block_height r.block_height;
  confirmation_count = or_else d.confirmation_count r.confirmation_count;
  confirmed_at = or_else d.confirmed_at r.confirmed_at;
  updated_at = now;
}

updated_text-data :
    (t : Option (Option Text)) (old : Option Text) → or_else (data_text t) old ≡ updated_text t old
updated_text-data none old = refl
updated_text-data (some t) old = refl

updated_status-data :
    (s : Option Text) (old : Text)
    → normalize_transfer_status (or_else (data_status s) old)
      ≡ updated_status s (normalize_transfer_status old)
updated_status-data none old = refl
updated_status-data (some []) old = refl
updated_status-data (some (c ∷ s)) old = normalize-name.1 (normalize_transfer_status (c ∷ s))

updated_count-data : (z : Option ℤ) (old : ℕ) → or_else (data_count z) old ≡ updated_count z old
updated_count-data none old = refl
updated_count-data (some z) old = refl

updated_details-data :
    (u : DetailUpdates) (d : Details)
    → (record {
      tx_hash = or_else (data_text u.tx_hash) d.tx_hash;
      nonce = or_else (data_text u.nonce) d.nonce;
      tx_data = or_else (data_text u.tx_data) d.tx_data;
      gas_limit = or_else (data_text u.gas_limit) d.gas_limit;
      gas_price = or_else (data_text u.gas_price) d.gas_price;
      max_fee_per_gas = or_else (data_text u.max_fee_per_gas) d.max_fee_per_gas;
      max_priority_fee_per_gas =
          or_else (data_text u.max_priority_fee_per_gas) d.max_priority_fee_per_gas;
      gas_used = or_else (data_text u.gas_used) d.gas_used;
      block_hash = or_else (data_text u.block_hash) d.block_hash;
      replaces_tx_hash = or_else (data_text u.replaces_tx_hash) d.replaces_tx_hash;
      replaced_by_tx_hash = or_else (data_text u.replaced_by_tx_hash) d.replaced_by_tx_hash;
    })
      ≡ updated_details u d
updated_details-data u d = λ i. record {
  tx_hash = updated_text-data u.tx_hash d.tx_hash i;
  nonce = updated_text-data u.nonce d.nonce i;
  tx_data = updated_text-data u.tx_data d.tx_data i;
  gas_limit = updated_text-data u.gas_limit d.gas_limit i;
  gas_price = updated_text-data u.gas_price d.gas_price i;
  max_fee_per_gas = updated_text-data u.max_fee_per_gas d.max_fee_per_gas i;
  max_priority_fee_per_gas =
      updated_text-data u.max_priority_fee_per_gas d.max_priority_fee_per_gas i;
  gas_used = updated_text-data u.gas_used d.gas_used i;
  block_hash = updated_text-data u.block_hash d.block_hash i;
  replaces_tx_hash = updated_text-data u.replaces_tx_hash d.replaces_tx_hash i;
  replaced_by_tx_hash = updated_text-data u.replaced_by_tx_hash d.replaced_by_tx_hash i;
}

-- An update in Postgres, where it does what Prisma documents, is read back as the record that the same
-- update makes in memory of the row's record.
pub update_in_pg_agrees :
    (update : UpdateData → ℕ → Row → Row)
    → ((d : UpdateData) (now : ℕ) (r : Row) → update d now r ≡ overwritten d now r)
    → (u : Updates) (now : ℕ) (r : Row)
    → map_db_record (update (build_pg_update_data u) now r)
      ≡ apply_transfer_log_updates (map_db_record r) u now
unfolding map_db_record build_pg_update_data apply_transfer_log_updates
update_in_pg_agrees update law u now r =
    ap map_db_record (law (build_pg_update_data u) now r) ∙ λ i. record (map_db_record r) {
      status = updated_status-data u.status r.status i;
      details = updated_details-data u.details r.details i;
      tx_type = or_else u.tx_type r.tx_type;
      block_height = or_else u.block_height r.block_height;
      confirmation_count = updated_count-data u.confirmation_count r.confirmation_count i;
      confirmed_at = or_else u.confirmed_at r.confirmed_at;
      updated_at = now;
    }
