-- ===== src/ChainSync/Index.antt =====
-- What services/chain-transaction-sync.service.ts indexes of a receipt: the block, the transaction, its
-- logs and its transfers of tokens.
use aljama_wallet.Base.{
  ℕ, ◌*◌, Bool, false, ◌&&◌, Option, none, some, List, [], ◌∷◌, leb, ◌==◌, nat_eq, if◌then◌else◌,
  or_else, Text, text, text_eq, length, show, big_int, ℤ, pos, negsuc, Outcome, done, thrown, zero,
  suc, not,
}
use aljama_wallet.Base.Map
use aljama_wallet.Base.Map.{Map}
use aljama_wallet.Chain.{ChainStatus, chain_status_name}
use aljama_wallet.ChainSync.{
  Key, key_eq, entry_eq, World, Node, Receipt, ReceiptLog, NodeTransaction, ChainLog, TokenTransfer,
  IndexTransaction, bigint_to_string, first_given, truthy, topic_address,
}

-- `upsertIndexedBlock`: the time of the block in milliseconds, if it is found.
unfoldable pub upsert_indexed_block : Node → World → Key → Option Text → Option ℕ → Option ℕ × World
upsert_indexed_block node w key block_hash height = elim (truthy block_hash) [
  | none ↦ (none, w)
  | some hash ↦ elim (node.block_of hash) [
    | none ↦ (none, w)
    | some b ↦ (
      some (b.timestamp * 1000),
      record w {
        blocks =
            Map.set w.blocks (record key { tx_hash = hash })
              (record {
                block_height = or_else height b.number;
                parent_hash = b.parent_hash;
                timestamp = b.timestamp * 1000;
              });
      },
    )
  ]
]

abbrev pub tx_field :
    {A : Type 0} → Option NodeTransaction → (NodeTransaction → Option A) → Option A
tx_field none f = none
tx_field (some t) f = f t

-- The columns of `chainIndexTransaction`, in an update and in a new row.
abbrev pub index_columns : Receipt → Option NodeTransaction → ChainStatus → ℕ → IndexTransaction
index_columns r t status count = record {
  block_height = r.block_number;
  block_hash = r.block_hash;
  transaction_index = first_given r.index (tx_field t λ x. x.index);
  status = chain_status_name status;
  from_address = first_given (tx_field t λ x. x.from) r.from;
  to_address = first_given (tx_field t λ x. x.to) r.to;
  nonce = bigint_to_string (tx_field t λ x. x.nonce);
  value_base_units = bigint_to_string (tx_field t λ x. x.value);
  gas_limit = bigint_to_string (tx_field t λ x. x.gas_limit);
  gas_price = bigint_to_string (tx_field t λ x. x.gas_price);
  effective_gas_price = bigint_to_string r.effective_gas_price;
  gas_used = bigint_to_string r.gas_used;
  confirmation_count = count;
  tx_data = tx_field t λ x. x.tx_data;
}

-- `log.index ?? log.logIndex`
abbrev pub index_of_log : ReceiptLog → Option ℕ
index_of_log l = first_given l.index l.log_index

abbrev pub chain_log : Receipt → ReceiptLog → Text → ChainLog
chain_log r l address = record {
  block_height = r.block_number;
  block_hash = r.block_hash;
  contract_address = address;
  topics = l.topics;
  log_data = l.log_data;
  removed = l.removed;
}

abbrev pub cons_ok : {A : Type 0} → A → Outcome (List A) → Outcome (List A)
cons_ok a (done xs) = done (a ∷ xs)
cons_ok a (thrown e) = thrown e

-- The rows of the logs: those without an index are left out, and an address that is none throws.
unfoldable pub log_rows : Node → Receipt → List ReceiptLog → Outcome (List (ℕ × ChainLog))
log_rows node r [] = done []
log_rows node r (l ∷ ls) =
    let rest = log_rows node r ls in
    elim (index_of_log l) [
      | none ↦ rest
      | some n ↦ elim (node.get_address l.address) [
        | none ↦ thrown (text "invalid address")
        | some address ↦ cons_ok (n, chain_log r l address) rest
      ]
    ]

-- The upserts of a list of rows.
abbrev pub upsert_all : {V : Type 0} → Key → List (ℕ × V) → Map (Key × ℕ) V → Map (Key × ℕ) V
upsert_all key [] m = m
upsert_all key ((n, v) ∷ rows) m = upsert_all key rows (Map.set m (key, n) v)

unfoldable pub persist_logs : Node → World → Key → Receipt → Outcome (Unit {0}) × World
persist_logs node w key r = elim (log_rows node r r.logs) [
  | thrown e ↦ (thrown e, w)
  | done rows ↦ (done tt, record w { logs = upsert_all key rows w.logs })
]

abbrev pub with_time : Option ℕ → Outcome (Unit {0}) × World → Outcome (Option ℕ) × World
with_time at (done _, w) = (done at, w)
with_time at (thrown e, w) = (thrown e, w)

-- `persistChainIndexData`
unfoldable pub persist_chain_index_data :
    Node → World → Key → Receipt → ChainStatus → ℕ → Outcome (Option ℕ) × World
persist_chain_index_data node w key r status count =
    let (confirmed_at, w') = upsert_indexed_block node w key r.block_hash r.block_number in
    with_time confirmed_at (
      persist_logs node
        (record w' { index = Map.set w'.index key (index_columns r node.transaction status count) })
        key r)

-- `BigInt(text).toString()`
abbrev pub show_integer : ℤ → Text
show_integer (pos n) = show n
show_integer (negsuc n) = b'-' ∷ show (suc n)

unfoldable pub big_int_text : Text → Outcome Text
big_int_text t = elim (big_int t) [
  | none ↦ thrown (text "SyntaxError")
  | some z ↦ done (show_integer z)
]

-- `log.data && log.data !== '0x'`
abbrev pub has_data : Text → Bool
has_data [] = false
has_data (c ∷ s) = not (c ∷ s == text "0x")

abbrev pub topic_at : ℕ → List Text → Option Text
topic_at n [] = none
topic_at zero (t ∷ ts) = some t
topic_at (suc n) (t ∷ ts) = topic_at n ts

abbrev done_some : Outcome Text → Outcome (Option Text)
done_some (done t) = done (some t)
done_some (thrown e) = thrown e

-- The token of an ERC-721 transfer, which has four topics and no data.
unfoldable pub token_id_of : ReceiptLog → Outcome (Option Text)
token_id_of l =
    if leb 4 (length l.topics) && not (has_data l.log_data)
    then done_some (big_int_text (or_else (topic_at 3 l.topics) []))
    else done none

unfoldable pub amount_of : ReceiptLog → Option Text → Outcome (Option Text)
amount_of l (some token) = done (some (text "1"))
amount_of l none = if has_data l.log_data then done_some (big_int_text l.log_data) else done none

abbrev pub standard_of : Option Text → Option Text → Option Text
standard_of (some token) amount = some (text "ERC721")
standard_of none (some amount) = some (text "ERC20")
standard_of none none = none

-- The transfer of a log between two addresses, or none where the log has no index.
abbrev token_transfer_row :
    Node
    → Receipt
    → Option ℕ
    → ReceiptLog
    → Text
    → Text
    → Option Text
    → Option Text
    → Outcome (Option (ℕ × TokenTransfer))
token_transfer_row node r confirmed_at l from to token amount = elim (index_of_log l) [
  | none ↦ done none
  | some n ↦ elim (node.get_address l.address) [
    | none ↦ thrown (text "invalid address")
    | some contract ↦ done (
        some (
          n,
          record {
            contract_address = contract;
            token_standard = standard_of token amount;
            amount_base_units = amount;
            token_id = token;
            from_address = from;
            to_address = to;
            from_wallet_id = node.wallet_of from;
            to_wallet_id = node.wallet_of to;
            block_height = r.block_number;
            block_hash = r.block_hash;
            confirmed_at = confirmed_at;
          },
        ))
  ]
]

unfoldable pub token_transfer_of :
    Node → Receipt → Option ℕ → ReceiptLog → Outcome (Option (ℕ × TokenTransfer))
token_transfer_of node r confirmed_at l = elim (topic_address node (topic_at 1 l.topics)) [
  | none ↦ done none
  | some from ↦ elim (topic_address node (topic_at 2 l.topics)) [
    | none ↦ done none
    | some to ↦ elim (token_id_of l) [
      | thrown e ↦ thrown e
      | done token ↦ elim (amount_of l token) [
        | thrown e ↦ thrown e
        | done amount ↦ token_transfer_row node r confirmed_at l from to token amount
      ]
    ]
  ]
]

abbrev pub is_transfer_log : Node → ReceiptLog → Bool
is_transfer_log node l = elim (topic_at 0 l.topics) [
  | none ↦ false
  | some t ↦ t == node.transfer_topic
]

abbrev pub cons_if : {A : Type 0} → Outcome (Option A) → Outcome (List A) → Outcome (List A)
cons_if (thrown e) rest = thrown e
cons_if (done none) rest = rest
cons_if (done (some a)) rest = cons_ok a rest

unfoldable pub token_transfer_rows :
    Node → Receipt → Option ℕ → List ReceiptLog → Outcome (List (ℕ × TokenTransfer))
token_transfer_rows node r confirmed_at [] = done []
token_transfer_rows node r confirmed_at (l ∷ ls) =
    let rest = token_transfer_rows node r confirmed_at ls in
    if is_transfer_log node l then cons_if (token_transfer_of node r confirmed_at l) rest else rest

-- `persistTokenTransfers`, which writes EVM for the type of the chain.
unfoldable pub persist_token_transfers :
    Node → World → Key → Receipt → Option ℕ → Outcome (Unit {0}) × World
persist_token_transfers node w key r confirmed_at =
    elim (token_transfer_rows node r confirmed_at r.logs) [
      | thrown e ↦ (thrown e, w)
      | done rows ↦ (
        done tt,
        record w {
          token_transfers =
              upsert_all (record key { chain_type = text "EVM" }) rows w.token_transfers;
        },
      )
    ]
