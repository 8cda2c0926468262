-- ===== src/ChainSync/Agree.antt =====
-- What a receipt makes of a row and of the signing intents of its transaction.
use aljama_wallet.Base.{
  ℕ, true, ◌≡◌, refl, sym, subst, inl, inr, Option, some, [], ◌∷◌, Text, text_eq, Option-cases,
  Bool-cases, Outcome, done, thrown, Outcome-cases, All, normalize_nullable,
}
use aljama_wallet.Base.Map
use aljama_wallet.Base.Map.{Map}
use aljama_wallet.Chain.{ChainStatus, Finality, chain_status_name}
use aljama_wallet.SigningIntent.{Status, Stored, Updates, apply_updates}
use aljama_wallet.SigningIntent.Memory
use aljama_wallet.SigningIntent.Memory.{has_hash, update_entries, update_by_tx_hash}
use aljama_wallet.ChainSync.{Key, key_eq, World, Node, Receipt, Transaction}
use aljama_wallet.ChainSync.Index.{persist_token_transfers, token_transfer_rows}
use aljama_wallet.ChainSync.Row.{
  and_go, update_transaction, mark_by_status, receipt_finality, token_transfers_if_final, received,
  record_receipt, sync_receipt, sync_row,
}
use aljama_wallet.ChainSync.Stands.{Has, marks_keep}

-- The status of an intent whose transaction has this status on the chain.
abbrev pub intent_status : ChainStatus → Status
intent_status ChainStatus.confirmed_final = Status.confirmed
intent_status ChainStatus.failed = Status.failed
intent_status _ = Status.submitted

abbrev pub OfHash : Text → Status → Map Text Stored → Type 0
OfHash hash status m = All (λ e. has_hash hash e.1 ≡ true → e.1.intent.status ≡ status) m

update_entries-OfHash :
    (hash : Text) (u : Updates) (status : Status) (now : ℕ) (m : Map Text Stored)
    → u.status ≡ some status
    → OfHash hash status (update_entries hash u now m).1
unfolding apply_updates
update_entries-OfHash hash u status now [] e = tt
update_entries-OfHash hash u status now ((id, r) ∷ m) e = elim (Bool-cases (has_hash hash r)) [
  | inl hit ↦ rw hit (λ same. rw e refl, update_entries-OfHash hash u status now m e)
  | inr miss ↦ rw miss (λ same. cc, update_entries-OfHash hash u status now m e)
]

module _ (key : Key) (hash : Text) (named : normalize_nullable (some key.tx_hash) ≡ some hash) where
  updated-OfHash :
      (s : Memory.Store) (u : Updates) (status : Status) (now : ℕ)
      → u.status ≡ some status
      → OfHash hash status (update_by_tx_hash s key.tx_hash u now).1.intents
  unfolding update_by_tx_hash
  updated-OfHash s u status now e =
      rw (named, update_by_tx_hash) (update_entries-OfHash hash u status now s.intents e)

  mark_by_status-OfHash :
      (w : World) (st : ChainStatus) (r : Receipt) (now : ℕ)
      → OfHash hash (intent_status st) (mark_by_status w key st r now).intents.intents
  unfolding mark_by_status
  mark_by_status-OfHash w ChainStatus.confirmed_final r now =
      updated-OfHash w.intents _ Status.confirmed now refl
  mark_by_status-OfHash w ChainStatus.failed r now =
      updated-OfHash w.intents _ Status.failed now refl
  mark_by_status-OfHash w ChainStatus.submitted r now =
      updated-OfHash w.intents _ Status.submitted now refl
  mark_by_status-OfHash w ChainStatus.included r now =
      updated-OfHash w.intents _ Status.submitted now refl
  mark_by_status-OfHash w ChainStatus.confirmed_soft r now =
      updated-OfHash w.intents _ Status.submitted now refl
  mark_by_status-OfHash w ChainStatus.reorged r now =
      updated-OfHash w.intents _ Status.submitted now refl
  mark_by_status-OfHash w ChainStatus.replaced r now =
      updated-OfHash w.intents _ Status.submitted now refl
  mark_by_status-OfHash w ChainStatus.dropped r now =
      updated-OfHash w.intents _ Status.submitted now refl

-- Where the step succeeds, the world it leaves is such.
abbrev pub WhereDone : (World → Type 0) → Outcome (Unit {0}) × World → Type 0
WhereDone P (done a, w) = P w
WhereDone P (thrown e, w) = Unit

and_go-WhereDone :
    {A : Type 0} (P : World → Type 0) (x : Outcome A × World)
    (f : A → World → Outcome (Unit {0}) × World)
    → ((a : A) (w : World) → WhereDone P (f a w))
    → WhereDone P (and_go x f)
and_go-WhereDone P (done a, w) f h = h a w
and_go-WhereDone P (thrown e, w) f h = tt

-- The row and the intents of its transaction have this status.
pub record Agrees (key : Key) (hash : Text) (st : ChainStatus) (w : World) : Type 0 where
  pub by_row : Has (λ s. s ≡ chain_status_name st) key w.transactions
  pub by_intents : OfHash hash (intent_status st) w.intents.intents

tokens-Agrees :
    (node : Node) (w : World) (key : Key) (hash : Text) (r : Receipt) (st : ChainStatus)
    (at : Option ℕ)
    → Agrees key hash st w
    → WhereDone (Agrees key hash st) (token_transfers_if_final node w key r st at)
unfolding persist_token_transfers
tokens-Agrees node w key hash r ChainStatus.confirmed_final at h =
    elim (Outcome-cases (token_transfer_rows node r at r.logs)) [
      | inl (rows, good) ↦
          rw (good, persist_token_transfers)
            (record { by_row = h.by_row; by_intents = h.by_intents })
      | inr (e, bad) ↦ rw (bad, persist_token_transfers) tt
    ]
tokens-Agrees node w key hash r ChainStatus.submitted at h = h
tokens-Agrees node w key hash r ChainStatus.included at h = h
tokens-Agrees node w key hash r ChainStatus.confirmed_soft at h = h
tokens-Agrees node w key hash r ChainStatus.reorged at h = h
tokens-Agrees node w key hash r ChainStatus.failed at h = h
tokens-Agrees node w key hash r ChainStatus.replaced at h = h
tokens-Agrees node w key hash r ChainStatus.dropped at h = h

module _ (node : Node) (key : Key) (hash : Text) (r : Receipt) (f : Finality) (now : ℕ)
    (named : normalize_nullable (some key.tx_hash) ≡ some hash) where
  record_receipt-Agrees :
      (at : Option ℕ) (w : World)
      → WhereDone (Agrees key hash f.status) (record_receipt node key r f now at w)
  unfolding update_transaction
  record_receipt-Agrees at w = elim (Option-cases (Map.get w.transactions key)) [
    | inl missing ↦ rw (missing, update_transaction) tt
    | inr (t, here) ↦
        let row = received f r at t in
        rw (here, update_transaction)
          (tokens-Agrees node _ key hash r f.status at (record {
            by_row =
                rw (marks_keep _ key f.status r now)
                  (row, Map.get-set_self w.transactions key row, refl);
            by_intents = mark_by_status-OfHash key hash named _ f.status r now;
          }))
  ]

-- Where the node has a receipt of a transaction with a hash, and its synchronisation succeeds, the row
-- has the status that the receipt gives, and every intent of that hash is confirmed if the transaction
-- is final, failed if it failed, and submitted otherwise.
pub sync_row-Agrees :
    (node : Node) (w : World) (key : Key) (row : Transaction) (head now : ℕ) (r : Receipt)
    (hash : Text)
    → node.receipt ≡ some r
    → normalize_nullable (some key.tx_hash) ≡ some hash
    → WhereDone
        (Agrees key hash (receipt_finality r head).status)
        (sync_row node w key row head now)
unfolding sync_row sync_receipt
sync_row-Agrees node w key row head now r hash given named =
    let f = receipt_finality r head in
    subst (WhereDone (Agrees key hash f.status)) (sym (with_receipt given)) (
      and_go-WhereDone (Agrees key hash f.status) _ (record_receipt node key r f now)
        (record_receipt-Agrees node key hash r f now named))
  where
    with_receipt :
        node.receipt ≡ some r
        → sync_row node w key row head now ≡ sync_receipt node w key row r head now
    with_receipt e = simp (e, sync_row)
