-- ===== src/ChainSync/Row.antt =====
-- `syncRow` of services/chain-transaction-sync.service.ts: a receipt, a reorganisation, a transaction that
-- is known without a receipt, and one that is dropped.
use aljama_wallet.Base.{
  nat_eq, ℕ, ◌-◌, Bool, true, false, ◌&&◌, ◌||◌, not, Option, none, some, [], ◌∷◌, leb, ◌==◌,
  if◌then◌else◌, is_some, Text, text, text_eq, pos, int, Number, Outcome, done, thrown,
}
use mathlib.Core.Option
use aljama_wallet.Base.Map
use aljama_wallet.Chain.{ChainStatus, Finality, finality, normalize_chain_status, chain_status_name}
use aljama_wallet.Nonce
use aljama_wallet.SigningIntent
use aljama_wallet.SigningIntent.{Details, text_detail, number_detail, null_detail}
use aljama_wallet.SigningIntent.Memory.{update_by_tx_hash, mark_confirmed, reopen, mark_failed}
use aljama_wallet.TransferLog
use aljama_wallet.TransferLog.{update_transfer_attempt_by_tx_hash, no_details}
use aljama_wallet.ChainSync.{
  Key, key_eq, World, Node, Receipt, Transaction, bigint_to_string, truthy,
  has_canonical_inclusion_status, clear_indexed_event_data, clear_indexed_receipt_data,
  read_canonical_block, drop_after_ms,
}
use aljama_wallet.ChainSync.Index.{persist_chain_index_data, persist_token_transfers}

-- `await` of a step that changes the world: an error leaves what was changed before it.
abbrev pub and_go :
    {A : Type 0}
    → Outcome A × World
    → (A → World → Outcome (Unit {0}) × World)
    → Outcome (Unit {0}) × World
and_go (done a, w) f = f a w
and_go (thrown e, w) f = (thrown e, w)

-- `chainTransaction.update`, which throws where there is no row.
unfoldable pub update_transaction :
    World → Key → (Transaction → Transaction) → Outcome (Unit {0}) × World
update_transaction w key f = elim (Map.get w.transactions key) [
  | none ↦ (thrown (text "P2025"), w)
  | some t ↦ (done tt, record w { transactions = Map.set w.transactions key (f t) })
]

-- The fields of the transfer attempt that follow the transaction.
abbrev pub chain_updates :
    Text
    → Option (Option Text)
    → Option (Option ℕ)
    → Option (Option Text)
    → Option (Option ℕ)
    → ℕ
    → TransferLog.Updates
chain_updates status gas_used height hash confirmed_at count = record {
  status = some status;
  details = record no_details { gas_used = gas_used; block_hash = hash };
  tx_type = none;
  block_height = Option.map (Option.map pos) height;
  confirmation_count = some (pos count);
  confirmed_at = confirmed_at;
}

abbrev pub update_attempt : World → Key → TransferLog.Updates → ℕ → World
update_attempt w key u now = record w {
  transfers = update_transfer_attempt_by_tx_hash w.transfers key.tx_hash u now;
}

abbrev pub chain_details : Key → Details
chain_details key =
    (text "chainType", text_detail key.chain_type)
    ∷ (text "networkId", text_detail key.network_id)
    ∷ []

abbrev pub status_detail : Option ℕ → SigningIntent.Detail
status_detail none = null_detail
status_detail (some n) = number_detail n

-- The reservation and the intent of the transaction: it is final,
abbrev pub mark_final : World → Key → ℕ → World
mark_final w key now = record w {
  nonces = (Nonce.mark_confirmed_by_hash w.nonces key.tx_hash now).1;
  intents = (update_by_tx_hash w.intents key.tx_hash mark_confirmed now).1;
}

-- it has failed,
abbrev pub mark_unsuccessful : World → Key → Text → Details → ℕ → World
mark_unsuccessful w key code details now = record w {
  nonces = (Nonce.mark_failed_by_hash w.nonces key.tx_hash now).1;
  intents = (update_by_tx_hash w.intents key.tx_hash (mark_failed code (some details) none) now).1;
}

-- or it is under way.
abbrev pub mark_pending : World → Key → ℕ → World
mark_pending w key now = record w {
  nonces = (Nonce.mark_submitted_by_hash w.nonces key.tx_hash now).1;
  intents = (update_by_tx_hash w.intents key.tx_hash reopen now).1;
}

unfoldable pub mark_by_status : World → Key → ChainStatus → Receipt → ℕ → World
mark_by_status w key ChainStatus.confirmed_final r now = mark_final w key now
mark_by_status w key ChainStatus.failed r now =
    mark_unsuccessful w key (text "CHAIN_EXECUTION_FAILED")
      ((text "chainType", text_detail key.chain_type)
        ∷ (text "networkId", text_detail key.network_id)
        ∷ (text "receiptStatus", status_detail r.status)
        ∷ [])
      now
mark_by_status w key _ r now = mark_pending w key now

-- The status and the confirmations that a receipt gives.
abbrev pub receipt_number : Receipt → Option Number
receipt_number r = elim r.block_number [ none ↦ none | some n ↦ some (int (pos n)) ]

unfoldable pub receipt_finality : Receipt → ℕ → Finality
receipt_finality r head = elim r.status [
  | none ↦ record { status = ChainStatus.failed; confirmation_count = 0 }
  | some n ↦
      if n == 1
      then finality head (receipt_number r)
      else record { status = ChainStatus.failed; confirmation_count = 0 }
]

-- Two block hashes that are given and differ.
abbrev pub moved : Option Text → Option Text → Bool
moved (some (c ∷ s)) (some (d ∷ t)) = not (c ∷ s == d ∷ t)
moved _ _ = false

abbrev pub token_transfers_if_final :
    Node → World → Key → Receipt → ChainStatus → Option ℕ → Outcome (Unit {0}) × World
token_transfers_if_final node w key r ChainStatus.confirmed_final confirmed_at =
    persist_token_transfers node w key r confirmed_at
token_transfers_if_final node w key r _ confirmed_at = (done tt, w)

abbrev pub received : Finality → Receipt → Option ℕ → Transaction → Transaction
received f r confirmed_at t = record t {
  status = chain_status_name f.status;
  block_height = r.block_number;
  block_hash = r.block_hash;
  gas_used = bigint_to_string r.gas_used;
  confirmed_at = confirmed_at;
  confirmation_count = f.confirmation_count;
}

-- Behind the index: the row, the attempt, the reservation and the intent, the tokens.
abbrev pub record_receipt :
    Node → Key → Receipt → Finality → ℕ → Option ℕ → World → Outcome (Unit {0}) × World
record_receipt node key r f now confirmed_at w =
    and_go (update_transaction w key (received f r confirmed_at)) λ _ w'.
      token_transfers_if_final node
        (mark_by_status
          (update_attempt w' key
            (chain_updates (chain_status_name f.status) (some (bigint_to_string r.gas_used))
              (some r.block_number) (some r.block_hash) (some confirmed_at) f.confirmation_count)
            now)
          key f.status r now)
        key r f.status confirmed_at

unfoldable pub sync_receipt :
    Node → World → Key → Transaction → Receipt → ℕ → ℕ → Outcome (Unit {0}) × World
sync_receipt node w key row r head now =
    let f = receipt_finality r head in
    let w' =
      if has_canonical_inclusion_status (normalize_chain_status row.status)
        && moved row.block_hash r.block_hash
      then clear_indexed_event_data w key
      else w in
    and_go (persist_chain_index_data node w' key r f.status f.confirmation_count)
      (record_receipt node key r f now)

abbrev pub unplaced : Text → Transaction → Transaction
unplaced status t = record t {
  status = status;
  block_height = none;
  block_hash = none;
  gas_used = none;
  confirmed_at = none;
  confirmation_count = 0;
}

-- The row and the attempt lose their block, with what was indexed of it.
unfoldable pub displace : World → Key → Text → ℕ → Outcome (Unit {0}) × World
displace w key status now =
    and_go (update_transaction (clear_indexed_receipt_data w key status) key (unplaced status))
      λ _ w'. (
        done tt,
        update_attempt w' key
            (chain_updates status (some none) (some none) (some none) (some none) 0) now,
      )

abbrev pub resubmitted : Transaction → Transaction
resubmitted t = record t { status = text "submitted"; confirmation_count = 0 }

abbrev pub resubmission : TransferLog.Updates
resubmission = record {
  status = some (text "submitted");
  details = no_details;
  tx_type = none;
  block_height = none;
  confirmation_count = some (pos 0);
  confirmed_at = none;
}

unfoldable pub resubmit : World → Key → ℕ → Outcome (Unit {0}) × World
resubmit w key now =
    and_go (update_transaction w key resubmitted)
      λ _ w'. (done tt, mark_pending (update_attempt w' key resubmission now) key now)

-- The node knows the transaction, and has no receipt of it.
unfoldable pub sync_known : World → Key → ChainStatus → ℕ → Outcome (Unit {0}) × World
sync_known w key ChainStatus.submitted now = (done tt, w)
sync_known w key ChainStatus.reorged now = (done tt, w)
sync_known w key _ now = resubmit w key now

abbrev pub is_dropped : ChainStatus → Bool
is_dropped ChainStatus.dropped = true
is_dropped _ = false

-- The node does not know the transaction.
unfoldable pub sync_unknown : World → Key → ChainStatus → ℕ → ℕ → Outcome (Unit {0}) × World
sync_unknown w key status created_at now =
    if leb drop_after_ms (now - created_at) && not (is_dropped status)
    then and_go (displace w key (text "dropped") now)
        (λ _ w'. (done tt, mark_unsuccessful w' key (text "TX_DROPPED") (chain_details key) now))
    else (done tt, w)

unfoldable pub sync_without_receipt :
    Node → World → Key → ChainStatus → ℕ → ℕ → Outcome (Unit {0}) × World
sync_without_receipt node w key status created_at now = elim node.transaction [
  | some t ↦ sync_known w key status now
  | none ↦ sync_unknown w key status created_at now
]

-- The row's block is on the chain: it is found, and has the row's hash if the row has one.
unfoldable pub is_still_canonical : Node → Transaction → Bool
is_still_canonical node row = elim (read_canonical_block node row) [
  | none ↦ false
  | some b ↦ elim (truthy row.block_hash) [
    | none ↦ true
    | some hash ↦ elim b.hash [ none ↦ false | some h ↦ h == hash ]
  ]
]

abbrev pub has_block : Transaction → Bool
has_block row = is_some (truthy row.block_hash) || is_some row.block_height

-- The row's block is no longer on the chain.
unfoldable pub sync_displaced : Node → World → Key → Transaction → ℕ → Outcome (Unit {0}) × World
sync_displaced node w key row now = and_go (displace w key (text "reorged") now) λ _ w'.
    sync_without_receipt node (mark_pending w' key now) key ChainStatus.reorged row.created_at now

-- `syncRow`, at a head of the chain.
unfoldable pub sync_row : Node → World → Key → Transaction → ℕ → ℕ → Outcome (Unit {0}) × World
sync_row node w key row head now =
    let status = normalize_chain_status row.status in
    elim node.receipt [
      | some r ↦ sync_receipt node w key row r head now
      | none ↦
          if has_canonical_inclusion_status status && has_block row
          then if is_still_canonical node row
            then (done tt, w)
            else sync_displaced node w key row now
          else sync_without_receipt node w key status row.created_at now
    ]
