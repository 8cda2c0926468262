-- ===== src/ChainSync/Pass.antt =====
-- `syncRecentEvmChainTransactions` of services/chain-transaction-sync.service.ts: the rows of a pass, by
-- their networks. The rows of a network are synchronised one after another, each to its end. What the
-- pass tells the monitor is left out.
use aljama_wallet.Base.{
  ℕ, suc, min, max, Bool, true, false, ◌&&◌, ◌||◌, Option, none, some, List, [], ◌∷◌, ◌++◌, ◌==◌,
  nat_eq, if◌then◌else◌, or_else, Text, text, text_eq, ℤ, pos, negsuc, Number, int, frac,
  not_finite, Outcome, done, thrown, any, filter, take, sort_by,
}
use aljama_wallet.Base.Map
use aljama_wallet.Base.Map.{Map}
use aljama_wallet.Chain.{syncable, chain_status_name}
use aljama_wallet.ChainSync.{Key, World, Node, Transaction, truthy}
use aljama_wallet.ChainSync.Row.{sync_row}

pub record Query : Type 0 where
  pub wallet_id : Option Text
  pub network_id : Option Text
  pub tx_hash : Option Text
  pub limit : Option ℤ

-- The columns of a row that only the query reads.
pub record Columns : Type 0 where
  pub from_wallet_id : Text
  pub to_wallet_id : Option Text
  pub updated_at : ℕ

-- `Number(networkId)`, and what each network and its node answer: the head of a chain is none if its
-- provider or the number of its block cannot be had.
pub record Network : Type 0 where
  pub number : Text → Number
  pub head_of : ℕ → Option ℕ
  pub node : Key → Node

abbrev pub Row : Type 0
Row = Key × Transaction

unfoldable pub parse_network_chain_id : Network → Text → Option ℕ
parse_network_chain_id net id = elim (net.number id) [
  | int z ↦ elim z [ pos n ↦ if n == 0 then none else some n | negsuc n ↦ none ]
  | frac _ ↦ none
  | not_finite ↦ none
]

-- A condition that is left out where it is not given.
abbrev pub if_given : Option Text → (Text → Bool) → Bool
if_given none p = true
if_given (some x) p = p x

abbrev pub is_text : Option Text → Text → Bool
is_text none t = false
is_text (some s) t = s == t

unfoldable pub is_syncable : Text → Bool
is_syncable status = any (λ s. chain_status_name s == status) syncable

unfoldable pub asked_for : Query → Columns → Row → Bool
asked_for q c (key, row) =
    key.chain_type == text "EVM"
    && (is_syncable row.status
        && (if_given (truthy q.wallet_id)
              (λ id. c.from_wallet_id == id || is_text c.to_wallet_id id)
            && (if_given (truthy q.network_id) (λ id. key.network_id == id)
                && if_given (truthy q.tx_hash) (λ hash. key.tx_hash == hash))))

unfoldable pub pass_size : Option ℤ → ℕ
pass_size none = 20
pass_size (some (pos n)) = min (max n 1) 50
pass_size (some (negsuc n)) = 1

-- The rows of the pass, the latest updated first.
unfoldable pub rows_to_sync : Query → (Key → Columns) → Map Key Transaction → List Row
rows_to_sync q columns m =
    take (pass_size q.limit)
      (sort_by (λ r. (columns r.0).updated_at) (filter (λ r. asked_for q (columns r.0) r) m))

-- `rowsByNetworkId`
unfoldable pub rows_by_network : List Row → Map Text (List Row) → Map Text (List Row)
rows_by_network [] groups = groups
rows_by_network ((key, row) ∷ rows) groups = rows_by_network rows (
    Map.set groups key.network_id (or_else (Map.get groups key.network_id) [] ++ ((key, row) ∷ [])))

pub record Counts : Type 0 where
  pub processed : ℕ
  pub succeeded : ℕ
  pub failed : ℕ

abbrev pub no_counts : Counts
no_counts = record { processed = 0; succeeded = 0; failed = 0 }

abbrev pub count_row : Outcome (Unit {0}) → Counts → Counts
count_row (done _) c = record c { processed = suc c.processed; succeeded = suc c.succeeded }
count_row (thrown _) c = record c { processed = suc c.processed; failed = suc c.failed }

-- The rows of a network.
unfoldable pub sync_rows : Network → ℕ → ℕ → List Row → Counts → World → Counts × World
sync_rows net head now [] c w = (c, w)
sync_rows net head now ((key, row) ∷ rows) c w =
    let (o, w') = sync_row (net.node key) w key row head now in
    sync_rows net head now rows (count_row o c) w'

-- A network whose id is none, or that cannot be reached, is left out.
unfoldable pub sync_network : Network → ℕ → Text → List Row → Counts → World → Counts × World
sync_network net now id rows c w = elim (parse_network_chain_id net id) [
  | none ↦ (c, w)
  | some chain_id ↦ elim (net.head_of chain_id) [
    | none ↦ (c, w)
    | some head ↦ sync_rows net head now rows c w
  ]
]

unfoldable pub sync_networks : Network → ℕ → Map Text (List Row) → Counts → World → Counts × World
sync_networks net now [] c w = (c, w)
sync_networks net now ((id, rows) ∷ groups) c w =
    let (c', w') = sync_network net now id rows c w in sync_networks net now groups c' w'

unfoldable pub sync_recent : Network → Query → (Key → Columns) → ℕ → World → Counts × World
sync_recent net q columns now w =
    sync_networks net now (rows_by_network (rows_to_sync q columns w.transactions) []) no_counts w
