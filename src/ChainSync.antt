-- ===== src/ChainSync.antt =====
-- services/chain-transaction-sync.service.ts: the rows of chain transactions and what is indexed of
-- them, with the stores in memory that a synchronisation also writes. What the chain's node, the check
-- of addresses and the owners of addresses answer is an argument: a call that is rejected and one that
-- answers null are both `none`, as the code treats them. One clock reading stands for those of a row.
pub mod Index
pub mod Row
pub mod Stands
pub mod Moves
pub mod Pass
pub mod Outage
pub mod Visits
pub mod Agree
mod Tests
use aljama_wallet.Base.{
  ℕ, ◌+◌, ◌-◌, ◌*◌, Bool, true, false, ◌&&◌, ◌||◌, not, Option, none, some, List, [], ◌∷◌, ◌++◌,
  ltb, leb, ◌==◌, ==_iff, nat_eq, HasEquality, if◌then◌else◌, or_else, is_some, map, Text, text,
  text_eq, length, drop, show, big_int, ℤ, pos, negsuc, ◌≡◌, ◌↔◌, arith, suc,
}
use aljama_wallet.Base.Map
use aljama_wallet.Base.Map.{Map}
use aljama_wallet.Chain.{ChainStatus}
use aljama_wallet.Nonce
use aljama_wallet.SigningIntent.Memory
use aljama_wallet.TransferLog.{Log}

-- The columns that make a transaction unique.
pub record Key : Type 0 where
  pub chain_type : Text
  pub network_id : Text
  pub tx_hash : Text

abbrev pub key_equal : Key → Key → Bool
key_equal j k =
    j.tx_hash == k.tx_hash && (j.network_id == k.network_id && j.chain_type == k.chain_type)

pub key_equal_iff : (j k : Key) → (key_equal j k ≡ true) ↔ (j ≡ k)
key_equal_iff j k = ground (
  arith,
  ==_iff j.tx_hash k.tx_hash,
  ==_iff j.network_id k.network_id,
  ==_iff j.chain_type k.chain_type,
)

instance abbrev pub key_eq : HasEquality Key
key_eq = record { equal_to = key_equal; equal_to_iff = key_equal_iff }

abbrev pub entry_equal : Key × ℕ → Key × ℕ → Bool
entry_equal (j, m) (k, n) = m == n && j == k

pub entry_equal_iff : (x y : Key × ℕ) → (entry_equal x y ≡ true) ↔ (x ≡ y)
entry_equal_iff (j, m) (k, n) = ground (arith, ==_iff m n, key_equal_iff j k)

instance abbrev pub entry_eq : HasEquality (Key × ℕ)
entry_eq = record { equal_to = entry_equal; equal_to_iff = entry_equal_iff }

-- A row of `chainTransaction`, as far as this service reads and writes it.
pub record Transaction : Type 0 where
  pub status : Text
  pub block_height : Option ℕ
  pub block_hash : Option Text
  pub gas_used : Option Text
  pub confirmed_at : Option ℕ
  pub confirmation_count : ℕ
  pub created_at : ℕ

pub record IndexTransaction : Type 0 where
  pub block_height : Option ℕ
  pub block_hash : Option Text
  pub transaction_index : Option ℕ
  pub status : Text
  pub from_address : Option Text
  pub to_address : Option Text
  pub nonce : Option Text
  pub value_base_units : Option Text
  pub gas_limit : Option Text
  pub gas_price : Option Text
  pub effective_gas_price : Option Text
  pub gas_used : Option Text
  pub confirmation_count : ℕ
  pub tx_data : Option Text

pub record ChainLog : Type 0 where
  pub block_height : Option ℕ
  pub block_hash : Option Text
  pub contract_address : Text
  pub topics : List Text
  pub log_data : Text
  pub removed : Bool

pub record TokenTransfer : Type 0 where
  pub contract_address : Text
  pub token_standard : Option Text
  pub amount_base_units : Option Text
  pub token_id : Option Text
  pub from_address : Text
  pub to_address : Text
  pub from_wallet_id : Option Text
  pub to_wallet_id : Option Text
  pub block_height : Option ℕ
  pub block_hash : Option Text
  pub confirmed_at : Option ℕ

pub record ChainBlock : Type 0 where
  pub block_height : ℕ
  pub parent_hash : Option Text
  pub timestamp : ℕ

-- The tables, and the stores of the other services. A log and a token transfer stand under the key of
-- their transaction and their index in it, a block under its hash in place of a transaction's.
pub record World : Type 0 where
  pub transactions : Map Key Transaction
  pub index : Map Key IndexTransaction
  pub logs : Map (Key × ℕ) ChainLog
  pub token_transfers : Map (Key × ℕ) TokenTransfer
  pub blocks : Map Key ChainBlock
  pub nonces : Nonce.Store
  pub intents : Memory.Store
  pub transfers : List Log

-- What ethers answers.
pub record Block : Type 0 where
  pub hash : Option Text
  pub number : ℕ
  pub parent_hash : Option Text
  pub timestamp : ℕ

pub record ReceiptLog : Type 0 where
  pub address : Text
  pub log_data : Text
  pub topics : List Text
  pub index : Option ℕ
  pub log_index : Option ℕ
  pub removed : Bool

pub record Receipt : Type 0 where
  pub block_hash : Option Text
  pub block_number : Option ℕ
  pub index : Option ℕ
  pub status : Option ℕ
  pub gas_used : Option ℕ
  pub effective_gas_price : Option ℕ
  pub from : Option Text
  pub to : Option Text
  pub logs : List ReceiptLog

pub record NodeTransaction : Type 0 where
  pub index : Option ℕ
  pub from : Option Text
  pub to : Option Text
  pub nonce : Option ℕ
  pub value : Option ℕ
  pub gas_limit : Option ℕ
  pub gas_price : Option ℕ
  pub tx_data : Option Text

pub record Node : Type 0 where
  pub receipt : Option Receipt
  pub block_at : ℕ → Option Block
  pub block_of : Text → Option Block
  pub transaction : Option NodeTransaction
  -- `getAddress`, which throws on what is no address
  pub get_address : Text → Option Text
  -- `keccak256` of the event's signature
  pub transfer_topic : Text
  -- `resolveWalletIdsByAddresses`
  pub wallet_of : Text → Option Text

-- `DROP_AFTER_MS`
abbrev pub drop_after_ms : ℕ
drop_after_ms = 600000

unfoldable pub has_canonical_inclusion_status : ChainStatus → Bool
has_canonical_inclusion_status ChainStatus.included = true
has_canonical_inclusion_status ChainStatus.confirmed_soft = true
has_canonical_inclusion_status ChainStatus.confirmed_final = true
has_canonical_inclusion_status _ = false

-- `bigintToString`
abbrev pub bigint_to_string : Option ℕ → Option Text
bigint_to_string none = none
bigint_to_string (some n) = some (show n)

-- `x ?? y`
abbrev pub first_given : {A : Type 0} → Option A → Option A → Option A
first_given none y = y
first_given (some x) y = some x

-- A text that is not empty, as `if (text)` asks.
abbrev pub truthy : Option Text → Option Text
truthy (some (c ∷ s)) = some (c ∷ s)
truthy _ = none

unfoldable pub topic_address : Node → Option Text → Option Text
topic_address node topic = elim (truthy topic) [
  | none ↦ none
  | some t ↦
      if ltb (length t) 42 then none else node.get_address (text "0x" ++ drop (length t - 40) t)
]

-- The entries of a table but those of a transaction: `deleteMany`.
abbrev pub without : {V : Type 0} → Key → Map (Key × ℕ) V → Map (Key × ℕ) V
without key [] = []
without key (((k, n), v) ∷ m) =
    let rest = without key m in if k == key then rest else ((k, n), v) ∷ rest

unfoldable pub clear_indexed_event_data : World → Key → World
clear_indexed_event_data w key = record w {
  token_transfers = without key w.token_transfers;
  logs = without key w.logs;
}

abbrev pub cleared_index : Text → IndexTransaction → IndexTransaction
cleared_index status x = record x {
  block_height = none;
  block_hash = none;
  transaction_index = none;
  status = status;
  effective_gas_price = none;
  gas_used = none;
  confirmation_count = 0;
}

-- `updateMany` on a unique key
abbrev pub update_at : {V : Type 0} → Key → (V → V) → Map Key V → Map Key V
update_at key f m = elim (Map.get m key) [ none ↦ m | some x ↦ Map.set m key (f x) ]

unfoldable pub clear_indexed_receipt_data : World → Key → Text → World
clear_indexed_receipt_data w key status = record w {
  token_transfers = without key w.token_transfers;
  logs = without key w.logs;
  index = update_at key (cleared_index status) w.index;
}

-- The block at the row's height, or else the one with its hash.
unfoldable pub read_canonical_block : Node → Transaction → Option Block
read_canonical_block node row = elim row.block_height [
  | some height ↦ node.block_at height
  | none ↦ elim (truthy row.block_hash) [ none ↦ none | some hash ↦ node.block_of hash ]
]
