-- ===== src/ChainSync/Tests.antt =====
-- Rows of chain transactions at a node, and the theorems applied to them.
use aljama_wallet.Base.{
  arith, refl, none, some, [], ◌∷◌, text, text_eq, int, pos, not_finite, if◌then◌else◌, ◌==◌,
  normalize_nullable,
}
use aljama_wallet.Base.Map
use aljama_wallet.Chain.{normalize_chain_status}
use aljama_wallet.Nonce
use aljama_wallet.SigningIntent.Tests.{two_queued, intent_at}
use aljama_wallet.ChainSync.{Key, key_eq, World, Node, Receipt, Transaction}
use aljama_wallet.ChainSync.Row.{sync_row, receipt_finality}
use aljama_wallet.ChainSync.Stands.{Stands}
use aljama_wallet.ChainSync.Moves.{Moves, sync_row-Moves}
use aljama_wallet.ChainSync.Pass.{Network, Query, Columns, sync_recent}
use aljama_wallet.ChainSync.Visits.{Visited, sync_recent-Visited}
use aljama_wallet.ChainSync.Stands.{Has}
use aljama_wallet.ChainSync.Agree.{WhereDone, Agrees, sync_row-Agrees}
use aljama_wallet.SigningIntent.{Stored, Status}
use aljama_wallet.ChainSync.Outage.{silenced, Leaves, IsDropped, outage_drops}

abbrev key : Key
key = record { chain_type = text "EVM"; network_id = text "1"; tx_hash = text "0xaa" }

-- A transaction that was final in block 5 of hash "0xb5".
abbrev row : Transaction
row = record {
  status = text "confirmed_final";
  block_height = some 5;
  block_hash = some (text "0xb5");
  gas_used = some (text "21000");
  confirmed_at = some 1000;
  confirmation_count = 12;
  created_at = 0;
}

abbrev world : World
world = record {
  transactions = (key, row) ∷ [];
  index = [];
  logs = [];
  token_transfers = [];
  blocks = [];
  nonces = Nonce.empty;
  intents = two_queued;
  transfers = [];
}

-- Block 5 is another one by now, and the transaction is back in the pool.
abbrev node : Node
node = record {
  receipt = none;
  block_at = λ n.
      some (record { hash = some (text "0xc5"); number = n; parent_hash = none; timestamp = n });
  block_of = λ hash. none;
  transaction = some (record {
    index = none;
    from = none;
    to = none;
    nonce = some 0;
    value = some 1;
    gas_limit = none;
    gas_price = none;
    tx_data = none;
  });
  get_address = λ a. some a;
  transfer_topic = text "0xdd";
  wallet_of = λ a. none;
}

sync_row-Moves_example :
    Stands
      (Moves node row 20 700000)
      key
      world.transactions
      (sync_row node world key row 20 700000).1.transactions
unfolding Map.get
sync_row-Moves_example = sync_row-Moves node key row 20 700000 world refl

outage_drops_example :
    Leaves key 700000 IsDropped (sync_row (silenced node) world key row 20 700000)
unfolding Map.get normalize_chain_status
outage_drops_example = outage_drops key 700000 node world row 20 refl refl (omega arith)

abbrev network : Network
network = record {
  number = λ id. if id == text "1" then int (pos 1) else not_finite;
  head_of = λ chain_id. some 20;
  node = λ k. node;
}

abbrev query : Query
query = record { wallet_id = some (text "w"); network_id = none; tx_hash = none; limit = none }

abbrev columns : Key → Columns
columns k = record { from_wallet_id = text "w"; to_wallet_id = none; updated_at = 7 }

sync_recent-Visited_example :
    Has
      (Visited network query (columns key) 700000 key row)
      key
      (sync_recent network query columns 700000 world).1.transactions
unfolding Map.get
sync_recent-Visited_example =
    sync_recent-Visited network query columns 700000 world key row (refl, tt) refl

-- The transaction is in block 18, and an intent has its hash.
abbrev receipt : Receipt
receipt = record {
  block_hash = some (text "0xb8");
  block_number = some 18;
  index = some 0;
  status = some 1;
  gas_used = some 21000;
  effective_gas_price = none;
  from = none;
  to = none;
  logs = [];
}

abbrev sent_intent : Stored
sent_intent =
    let stored = intent_at (text "a") 5 in
    record stored {
      intent = record (stored.intent) { tx_hash = some (text "0xaa"); status = Status.signed };
    }

abbrev sent_world : World
sent_world = record world { intents = record two_queued { intents = (text "a", sent_intent) ∷ [] } }

sync_row-Agrees_example :
    WhereDone
      (Agrees key (text "0xaa") (receipt_finality receipt 20).status)
      (sync_row (record node { receipt = some receipt }) sent_world key row 20 700000)
unfolding normalize_nullable
sync_row-Agrees_example =
    sync_row-Agrees (record node { receipt = some receipt }) sent_world key row 20 700000 receipt
      (text "0xaa") refl refl
