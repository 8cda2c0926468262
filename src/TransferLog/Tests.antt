-- ===== src/TransferLog/Tests.antt =====
-- Examples for the log of transfers.
use aljama_wallet.Base.{◌≡◌, refl, true, some, none, List, [], ◌∷◌, text, text_eq, pos}
use aljama_wallet.TransferLog.{
  Log, Input, Details, Updates, to_record, apply_transfer_log_updates, update_transfer_status,
  update_transfer_attempt_by_tx_hash, replace_transfer_attempts_by_tx_hashes, replacement,
}
use aljama_wallet.TransferLog.Queries.{get_recent_transfer_stats, get_latest_transfer_attempt}
use aljama_wallet.TransferLog.Postgres.{
  Row, map_db_record, build_pg_update_data, overwritten, update_in_pg_agrees,
}
use aljama_wallet.TransferLog.Service.{failed, record_attempt, run}
use aljama_wallet.TransferLog.Strict.{strict_never_in_memory}
use aljama_wallet.TransferLog.Counts.{updates_keep_stats}

abbrev no_texts : Details
no_texts = record {
  tx_hash = some (text "0x1");
  nonce = none;
  tx_data = none;
  gas_limit = none;
  gas_price = none;
  max_fee_per_gas = none;
  max_priority_fee_per_gas = none;
  gas_used = none;
  block_hash = none;
  replaces_tx_hash = none;
  replaced_by_tx_hash = none;
}

abbrev attempt : Input
attempt = record {
  wallet_id = text "w";
  user_id = none;
  chain_id = 1;
  to_address = text " 0xAB ";
  amount_wei = pos 5;
  status = text "created";
  idempotency_key = text "k";
  trace_id = text "t";
  details = no_texts;
  tx_type = some (text "transfer");
  block_height = none;
  confirmation_count = none;
  confirmed_at = none;
}

abbrev one : List Log
one = to_record attempt (text "mem_1") 10 ∷ []

abbrev two : List Log
two = to_record attempt (text "mem_1") 10 ∷ to_record attempt (text "mem_2") 20 ∷ []

abbrev replaced : Updates
replaced = replacement (text "0x2") none

updates_keep_stats_example :
    let stats =
      λ (logs : List Log). get_recent_transfer_stats logs (text "w") 1 (text "0xab") (pos 60) 30 in
    (stats (update_transfer_status two (text "mem_2") (text "failed") replaced 30) ≡ stats two)
    × (stats (update_transfer_attempt_by_tx_hash two (text "0x1") replaced 30) ≡ stats two)
    × (stats (replace_transfer_attempts_by_tx_hashes two (text "0x1" ∷ []) (text "0x2") none 30)
        ≡ stats two)
updates_keep_stats_example =
    updates_keep_stats (text "w") 1 (text "0xab") (pos 60) 30 two (text "mem_2") (text "failed")
      (text "0x1") (text "0x2") replaced (text "0x1" ∷ []) none 30

latest_is_second :
    get_latest_transfer_attempt two (text "w") ≡ some (to_record attempt (text "mem_2") 20)
unfolding get_latest_transfer_attempt to_record
latest_is_second = refl

abbrev row : Row
row = record {
  id = text "r";
  wallet_id = text "w";
  user_id = none;
  chain_id = 1;
  to_address = text "0xab";
  amount_wei = pos 5;
  status = text "submitted";
  idempotency_key = text "k";
  trace_id = text "t";
  details = no_texts;
  tx_type = none;
  block_height = none;
  confirmation_count = 0;
  confirmed_at = none;
  created_at = 10;
  updated_at = 10;
}

update_in_pg_agrees_example :
    map_db_record (overwritten (build_pg_update_data replaced) 30 row)
    ≡ apply_transfer_log_updates (map_db_record row) replaced 30
update_in_pg_agrees_example = update_in_pg_agrees overwritten (λ d now r. refl) replaced 30 row

strict_never_in_memory_example :
    run true one ((40, record_attempt attempt (text "3") failed) ∷ []) ≡ one
strict_never_in_memory_example =
    strict_never_in_memory one ((40, record_attempt attempt (text "3") failed) ∷ []) ((λ e. cc), tt)
