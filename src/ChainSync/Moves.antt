-- ===== src/ChainSync/Moves.antt =====
-- How one synchronisation moves the status of a row.
use aljama_wallet.Base.{
  ℕ, ◌-◌, ◌≤◌, true, false, ◌&&◌, not, ◌≡◌, refl, sym, subst, ◌∙◌, inl, inr, Option, none, some,
  Text, text, text_eq, leb, Option-cases, Bool-cases, Outcome, done, arith, if◌then◌else◌,
}
use aljama_wallet.Base.Map
use aljama_wallet.Base.Map.{Map}
use aljama_wallet.Chain.{ChainStatus, normalize_chain_status, chain_status_name}
use aljama_wallet.ChainSync.{
  Key, key_eq, World, Node, NodeTransaction, Receipt, Transaction, has_canonical_inclusion_status,
  clear_indexed_event_data, clear_indexed_receipt_data, drop_after_ms,
}
use aljama_wallet.ChainSync.Index.{persist_chain_index_data}
use aljama_wallet.ChainSync.Row.{
  update_transaction, receipt_finality, moved, received, record_receipt, sync_receipt, unplaced,
  displace, resubmitted, resubmit, sync_known, is_dropped, sync_unknown, sync_without_receipt,
  is_still_canonical, has_block, sync_displaced, sync_row, mark_pending,
}
use aljama_wallet.ChainSync.Stands.{
  Elsewhere, Stands, and_go-Stands, index_keeps, tokens_keep, marks_keep, update-Stands,
  Stands-kept, cleared_keeps,
}

-- The status that a row can have after a synchronisation that read the row.
pub data Moves (node : Node) (row : Transaction) (head now : ℕ) : Text → Type 0 where
  kept : Moves node row head now row.status
  by_receipt :
      {r : Receipt}
      → node.receipt ≡ some r
      → Moves node row head now (chain_status_name (receipt_finality r head).status)
  reorganised :
      node.receipt ≡ none
      → has_canonical_inclusion_status (normalize_chain_status row.status) ≡ true
      → is_still_canonical node row ≡ false
      → Moves node row head now (text "reorged")
  back_in_pool :
      {t : NodeTransaction}
      → node.receipt ≡ none
      → node.transaction ≡ some t
      → Moves node row head now (text "submitted")
  dropped :
      node.receipt ≡ none
      → node.transaction ≡ none
      → drop_after_ms ≤ now - row.created_at
      → Moves node row head now (text "dropped")

module _ (node : Node) (key : Key) (row : Transaction) (head now : ℕ) (m : Map Key Transaction)
    (P : Text → Type 0) (into : (s : Text) → Moves node row head now s → P s) where
  -- The row that the steps leave.
  abbrev Left : Map Key Transaction → Type 0
  Left = Stands P key m

  as_in : (x y : Outcome (Unit {0}) × World) → x ≡ y → Left y.1.transactions → Left x.1.transactions
  as_in x y same l = subst (λ z. Left z.1.transactions) (sym same) l

  record_receipt-Left :
      (w : World) (r : Receipt) (at : Option ℕ)
      → node.receipt ≡ some r
      → Left w.transactions
      → Left (record_receipt node key r (receipt_finality r head) now at w).1.transactions
  record_receipt-Left w r at e ((old, here, _), away) =
      let f = receipt_finality r head in
      and_go-Stands P key m (update_transaction w key (received f r at)) _
        (update-Stands P w key m old (received f r at) here (into _ (by_receipt e)) away)
        λ _.
          Stands-kept P key m
            (tokens_keep node _ key r f.status at ∙ marks_keep _ key f.status r now)
            (update-Stands P w key m old (received f r at) here (into _ (by_receipt e)) away)

  receipt-Left :
      (w : World) (r : Receipt)
      → node.receipt ≡ some r
      → Left w.transactions
      → Left (sync_receipt node w key row r head now).1.transactions
  unfolding sync_receipt
  receipt-Left w r e l =
      let f = receipt_finality r head in
      let move =
        has_canonical_inclusion_status (normalize_chain_status row.status)
        && moved row.block_hash r.block_hash in
      let same =
        index_keeps node _ key r f.status f.confirmation_count ∙ cleared_keeps move w key in
      and_go-Stands P key m
        (persist_chain_index_data node (if move then clear_indexed_event_data w key else w) key r
          f.status f.confirmation_count)
        (record_receipt node key r f now) (Stands-kept P key m same l)
        λ at. record_receipt-Left _ r at e (Stands-kept P key m same l)

  displace-Stands :
      (w : World) (status : Text) (t : Transaction)
      → Map.get w.transactions key ≡ some t
      → P status
      → Elsewhere key m w.transactions
      → Stands P key m (displace w key status now).1.transactions
  unfolding displace clear_indexed_receipt_data
  displace-Stands w status t here p away =
      let left =
        update-Stands P (clear_indexed_receipt_data w key status) key m t (unplaced status) here p
          away in
      and_go-Stands P key m
        (update_transaction (clear_indexed_receipt_data w key status) key (unplaced status)) _ left
        λ _. left

  resubmit-Left :
      (w : World) (t : NodeTransaction)
      → node.receipt ≡ none
      → node.transaction ≡ some t
      → Left w.transactions
      → Left (resubmit w key now).1.transactions
  unfolding resubmit
  resubmit-Left w t e known ((old, here, _), away) =
      let left =
        update-Stands P w key m old resubmitted here (into _ (back_in_pool e known)) away in
      and_go-Stands P key m (update_transaction w key resubmitted) _ left λ _. left

  known-Left :
      (w : World) (t : NodeTransaction) (status : ChainStatus)
      → node.receipt ≡ none
      → node.transaction ≡ some t
      → Left w.transactions
      → Left (sync_known w key status now).1.transactions
  unfolding sync_known
  known-Left w t ChainStatus.submitted e known l = l
  known-Left w t ChainStatus.reorged e known l = l
  known-Left w t ChainStatus.included e known l = resubmit-Left w t e known l
  known-Left w t ChainStatus.confirmed_soft e known l = resubmit-Left w t e known l
  known-Left w t ChainStatus.confirmed_final e known l = resubmit-Left w t e known l
  known-Left w t ChainStatus.failed e known l = resubmit-Left w t e known l
  known-Left w t ChainStatus.replaced e known l = resubmit-Left w t e known l
  known-Left w t ChainStatus.dropped e known l = resubmit-Left w t e known l

  unknown-Left :
      (w : World) (status : ChainStatus)
      → node.receipt ≡ none
      → node.transaction ≡ none
      → Left w.transactions
      → Left (sync_unknown w key status row.created_at now).1.transactions
  unfolding sync_unknown
  unknown-Left w status e unknown ((old, here, p), away) =
      elim (Bool-cases (leb drop_after_ms (now - row.created_at) && not (is_dropped status))) [
        | inl due ↦
            let age : drop_after_ms ≤ now - row.created_at = ground arith in
            let left =
              displace-Stands w (text "dropped") old here (into _ (dropped e unknown age)) away in
            rw (due, sync_unknown)
              (and_go-Stands P key m (displace w key (text "dropped") now) _ left λ _. left)
        | inr early ↦ rw (early, sync_unknown) ((old, here, p), away)
      ]

  without-Left :
      (w : World) (status : ChainStatus)
      → node.receipt ≡ none
      → Left w.transactions
      → Left (sync_without_receipt node w key status row.created_at now).1.transactions
  unfolding sync_without_receipt
  without-Left w status e l = elim (Option-cases node.transaction) [
    | inl unknown ↦
        as_in (sync_without_receipt node w key status row.created_at now)
          (sync_unknown w key status row.created_at now) (rw (unknown, sync_without_receipt) refl)
          (unknown-Left w status e unknown l)
    | inr (t, known) ↦
        as_in (sync_without_receipt node w key status row.created_at now)
          (sync_known w key status now) (rw (known, sync_without_receipt) refl)
          (known-Left w t status e known l)
  ]

  displaced-Left :
      (w : World)
      → node.receipt ≡ none
      → has_canonical_inclusion_status (normalize_chain_status row.status) ≡ true
      → is_still_canonical node row ≡ false
      → Left w.transactions
      → Left (sync_displaced node w key row now).1.transactions
  unfolding sync_displaced
  displaced-Left w e canonical gone ((old, here, _), away) =
      let left =
        displace-Stands w (text "reorged") old here (into _ (reorganised e canonical gone)) away in
      and_go-Stands P key m (displace w key (text "reorged") now)
        (λ _ w'.
          sync_without_receipt node (mark_pending w' key now) key ChainStatus.reorged row.created_at
            now)
        left
        λ _.
          without-Left (mark_pending (displace w key (text "reorged") now).1 key now)
            ChainStatus.reorged e left

  pub sync_row-Left :
      (w : World) → Left w.transactions → Left (sync_row node w key row head now).1.transactions
  unfolding sync_row
  sync_row-Left w l = elim (Option-cases node.receipt) [
    | inr (r, e) ↦
        as_in (sync_row node w key row head now) (sync_receipt node w key row r head now)
          (simp (e, sync_row)) (receipt-Left w r e l)
    | inl e ↦
        let status = normalize_chain_status row.status in
        elim (Bool-cases (has_canonical_inclusion_status status && has_block row)) [
          | inr loose ↦
              as_in (sync_row node w key row head now)
                (sync_without_receipt node w key status row.created_at now)
                (simp (e, loose, sync_row)) (without-Left w status e l)
          | inl placed ↦ elim (Bool-cases (is_still_canonical node row)) [
            | inl still ↦
                as_in (sync_row node w key row head now) (done tt, w)
                  (simp (e, placed, still, sync_row)) l
            | inr gone ↦
                as_in (sync_row node w key row head now) (sync_displaced node w key row now)
                  (simp (e, placed, gone, sync_row)) (displaced-Left w e (ground arith) gone l)
          ]
        ]
  ]

-- A synchronisation of a row leaves it with the status that it had, with the one of its receipt, or,
-- where there is no receipt: as reorganised if its block is no longer the canonical one, as submitted
-- if the node knows the transaction, and as dropped only if the node does not know it and it is ten
-- minutes old. No other row is changed. This holds also where the synchronisation ends with an error.
pub sync_row-Moves :
    (node : Node) (key : Key) (row : Transaction) (head now : ℕ) (w : World)
    → Map.get w.transactions key ≡ some row
    → Stands
        (Moves node row head now)
        key
        w.transactions
        (sync_row node w key row head now).1.transactions
sync_row-Moves node key row head now w here =
    sync_row-Left node key row head now w.transactions (Moves node row head now) (λ s m. m) w
      ((row, here, kept), λ j apart. refl)
