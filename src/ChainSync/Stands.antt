-- ===== src/ChainSync/Stands.antt =====
-- What the steps of a synchronisation leave of the table of transactions.
use aljama_wallet.Base.{
  ℕ, Bool, true, false, ◌≡◌, refl, ◌∙◌, inl, inr, Option, some, Text, text_eq, ◌==◌, Option-cases,
  Outcome, done, thrown, Outcome-cases, if◌then◌else◌,
}
use aljama_wallet.Base.Map
use aljama_wallet.Base.Map.{Map}
use aljama_wallet.Chain.{ChainStatus}
use aljama_wallet.ChainSync.{
  Key, key_eq, World, Node, Receipt, Transaction, truthy, clear_indexed_event_data,
}
use aljama_wallet.ChainSync.Index.{
  upsert_indexed_block, persist_logs, log_rows, persist_chain_index_data, persist_token_transfers,
  token_transfer_rows, with_time,
}
use aljama_wallet.ChainSync.Row.{
  and_go, update_transaction, mark_by_status, token_transfers_if_final,
}

-- Two tables agree but for a transaction.
abbrev pub Elsewhere : Key → Map Key Transaction → Map Key Transaction → Type 0
Elsewhere key m m' = (j : Key) → key == j ≡ false → Map.get m' j ≡ Map.get m j

-- The table has the transaction, with a status of this kind.
abbrev pub Has : (Text → Type 0) → Key → Map Key Transaction → Type 0
Has P key m = (t : Transaction) × (Map.get m key ≡ some t) × P t.status

-- It does, and is otherwise the earlier one.
abbrev pub Stands : (Text → Type 0) → Key → Map Key Transaction → Map Key Transaction → Type 0
Stands P key m m' = Has P key m' × Elsewhere key m m'

-- A step that may fail leaves such a row in either case.
pub and_go-Stands :
    {A : Type 0} (P : Text → Type 0) (key : Key) (m : Map Key Transaction) (x : Outcome A × World)
    (f : A → World → Outcome (Unit {0}) × World)
    → Stands P key m x.1.transactions
    → ((a : A) → Stands P key m (f a x.1).1.transactions)
    → Stands P key m (and_go x f).1.transactions
and_go-Stands P key m (done a, w) f h k = k a
and_go-Stands P key m (thrown e, w) f h k = h

pub block_keeps :
    (node : Node) (w : World) (key : Key) (hash : Option Text) (height : Option ℕ)
    → (upsert_indexed_block node w key hash height).1.transactions ≡ w.transactions
unfolding upsert_indexed_block
block_keeps node w key hash height = elim (Option-cases (truthy hash)) [
  | inl without_hash ↦ rw (without_hash, upsert_indexed_block) refl
  | inr (h, given) ↦ elim (Option-cases (node.block_of h)) [
    | inl unknown ↦ rw (given, unknown, upsert_indexed_block) refl
    | inr (b, known) ↦ rw (given, known, upsert_indexed_block) refl
  ]
]

pub logs_keep :
    (node : Node) (w : World) (key : Key) (r : Receipt)
    → (persist_logs node w key r).1.transactions ≡ w.transactions
unfolding persist_logs
logs_keep node w key r = elim (Outcome-cases (log_rows node r r.logs)) [
  | inl (rows, good) ↦ rw (good, persist_logs) refl
  | inr (e, bad) ↦ rw (bad, persist_logs) refl
]

pub timed_keeps :
    (at : Option ℕ) (x : Outcome (Unit {0}) × World)
    → (with_time at x).1.transactions ≡ x.1.transactions
timed_keeps at (done tt, w) = refl
timed_keeps at (thrown e, w) = refl

pub index_keeps :
    (node : Node) (w : World) (key : Key) (r : Receipt) (status : ChainStatus) (count : ℕ)
    → (persist_chain_index_data node w key r status count).1.transactions ≡ w.transactions
unfolding persist_chain_index_data
index_keeps node w key r status count =
    timed_keeps _ _ ∙ logs_keep node _ key r ∙ block_keeps node w key r.block_hash r.block_number

pub marks_keep :
    (w : World) (key : Key) (st : ChainStatus) (r : Receipt) (now : ℕ)
    → (mark_by_status w key st r now).transactions ≡ w.transactions
unfolding mark_by_status
marks_keep w key ChainStatus.submitted r now = refl
marks_keep w key ChainStatus.included r now = refl
marks_keep w key ChainStatus.confirmed_soft r now = refl
marks_keep w key ChainStatus.confirmed_final r now = refl
marks_keep w key ChainStatus.reorged r now = refl
marks_keep w key ChainStatus.failed r now = refl
marks_keep w key ChainStatus.replaced r now = refl
marks_keep w key ChainStatus.dropped r now = refl

pub tokens_keep :
    (node : Node) (w : World) (key : Key) (r : Receipt) (st : ChainStatus) (at : Option ℕ)
    → (token_transfers_if_final node w key r st at).1.transactions ≡ w.transactions
unfolding persist_token_transfers
tokens_keep node w key r ChainStatus.confirmed_final at =
    elim (Outcome-cases (token_transfer_rows node r at r.logs)) [
      | inl (rows, good) ↦ rw (good, persist_token_transfers) refl
      | inr (e, bad) ↦ rw (bad, persist_token_transfers) refl
    ]
tokens_keep node w key r ChainStatus.submitted at = refl
tokens_keep node w key r ChainStatus.included at = refl
tokens_keep node w key r ChainStatus.confirmed_soft at = refl
tokens_keep node w key r ChainStatus.reorged at = refl
tokens_keep node w key r ChainStatus.failed at = refl
tokens_keep node w key r ChainStatus.replaced at = refl
tokens_keep node w key r ChainStatus.dropped at = refl

-- An update of the row that is there gives it the status of the update.
pub update-Stands :
    (P : Text → Type 0) (w : World) (key : Key) (m : Map Key Transaction) (row : Transaction)
    (f : Transaction → Transaction)
    → Map.get w.transactions key ≡ some row
    → P (f row).status
    → Elsewhere key m w.transactions
    → Stands P key m (update_transaction w key f).1.transactions
unfolding update_transaction
update-Stands P w key m row f here p away =
    rw (here, update_transaction)
      (
        (f row, Map.get-set_self w.transactions key (f row), p),
        λ j apart. Map.get-set w.transactions key j (f row) ∙ simp (apart, away j apart),
      )

pub Stands-kept :
    (P : Text → Type 0) (key : Key) (m : Map Key Transaction) {n n' : Map Key Transaction}
    → n' ≡ n
    → Stands P key m n
    → Stands P key m n'
Stands-kept P key m same h = rw same h

pub cleared_keeps :
    (b : Bool) (w : World) (key : Key)
    → (if b then clear_indexed_event_data w key else w).transactions ≡ w.transactions
unfolding clear_indexed_event_data
cleared_keeps true w key = refl
cleared_keeps false w key = refl
