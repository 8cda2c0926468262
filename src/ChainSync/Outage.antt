-- ===== src/ChainSync/Outage.antt =====
-- A synchronisation while every call about the transaction is rejected, which the code takes for null answers.
use aljama_wallet.Base.{
  ℕ, ◌-◌, ◌≤◌, true, false, ◌&&◌, ◌≡◌, refl, inl, inr, none, some, Text, text, text_eq, leb,
  Option-cases, Bool-cases, Outcome, done, thrown, arith,
}
use aljama_wallet.Base.Map
use aljama_wallet.Base.Map.{Map}
use aljama_wallet.Chain.{ChainStatus, normalize_chain_status, chain_status_name}
use aljama_wallet.ChainSync.{
  Key, key_eq, World, Node, Transaction, has_canonical_inclusion_status, clear_indexed_receipt_data,
  read_canonical_block, drop_after_ms, truthy,
}
use aljama_wallet.ChainSync.Row.{
  and_go, update_transaction, unplaced, displace, is_dropped, sync_unknown, sync_without_receipt,
  is_still_canonical, has_block, sync_displaced, sync_row, mark_pending,
}
use aljama_wallet.ChainSync.Pass.{is_syncable}
use aljama_wallet.ChainSync.Stands.{Has}

-- A node none of whose calls about the transaction succeeds.
abbrev pub silenced : Node → Node
silenced node = record node {
  receipt = none;
  block_at = λ height. none;
  block_of = λ hash. none;
  transaction = none;
}

-- Dropped, and so not among the rows of a later pass.
abbrev pub IsDropped : Text → Type 0
IsDropped s = (s ≡ text "dropped") × (is_syncable s ≡ false)

never_again : is_syncable (text "dropped") ≡ false
unfolding is_syncable chain_status_name
never_again = refl

no_block : (node : Node) (row : Transaction) → read_canonical_block (silenced node) row ≡ none
unfolding read_canonical_block
no_block node row = elim (Option-cases row.block_height) [
  | inr (n, e) ↦ simp (e, read_canonical_block)
  | inl e ↦ elim (Option-cases (truthy row.block_hash)) [
    | inr (h, given) ↦ simp (e, given, read_canonical_block)
    | inl without_hash ↦ simp (e, without_hash, read_canonical_block)
  ]
]

module _ (key : Key) (now : ℕ) where
  -- The step succeeds, and the row is there with a status of this kind.
  abbrev pub Leaves : (Text → Type 0) → Outcome (Unit {0}) × World → Type 0
  Leaves P (done a, w) = Has P key w.transactions
  Leaves P (thrown e, w) = ⊥

  and_go-Leaves :
      (P Q : Text → Type 0) (x : Outcome (Unit {0}) × World)
      (f : Unit {0} → World → Outcome (Unit {0}) × World)
      → Leaves P x
      → ((a : Unit {0}) (w : World) → Has P key w.transactions → Leaves Q (f a w))
      → Leaves Q (and_go x f)
  and_go-Leaves P Q (done a, w) f l k = k a w l
  and_go-Leaves P Q (thrown e, w) f l k = elim l [ ]

  displaces :
      (w : World) (status : Text) (P Q : Text → Type 0)
      → Has P key w.transactions
      → Q status
      → Leaves Q (displace w key status now)
  unfolding displace clear_indexed_receipt_data update_transaction
  displaces w status P Q (t, here, _) q =
      rw (here, displace, update_transaction, clear_indexed_receipt_data)
        (unplaced status t, Map.get-set_self w.transactions key (unplaced status t), q)

  drops :
      (w : World) (status : ChainStatus) (created_at : ℕ) (P : Text → Type 0)
      → Has P key w.transactions
      → drop_after_ms ≤ now - created_at
      → is_dropped status ≡ false
      → Leaves IsDropped (sync_unknown w key status created_at now)
  unfolding sync_unknown
  drops w status created_at P here age live =
      let due : leb drop_after_ms (now - created_at) ≡ true = ground arith in
      rw (due, live, sync_unknown)
        (and_go-Leaves IsDropped IsDropped (displace w key (text "dropped") now) _
          (displaces w (text "dropped") P IsDropped here (refl, never_again)) λ a w' s. s)

  -- Where the head of the chain is known and every call about the transaction, for its receipt, its block
  -- and itself, is rejected, a row that is ten minutes old and not dropped is dropped, also one that was
  -- final, and no later pass asks for it.
  pub outage_drops :
      (node : Node) (w : World) (row : Transaction) (head : ℕ)
      → Map.get w.transactions key ≡ some row
      → is_dropped (normalize_chain_status row.status) ≡ false
      → drop_after_ms ≤ now - row.created_at
      → Leaves IsDropped (sync_row (silenced node) w key row head now)
  unfolding sync_row is_still_canonical read_canonical_block sync_displaced sync_without_receipt
  outage_drops node w row head here live age =
      let status = normalize_chain_status row.status in
      elim (Bool-cases (has_canonical_inclusion_status status && has_block row)) [
        | inr loose ↦
            simp (loose) (drops w status row.created_at (λ _. Unit {0}) (row, here, tt) age live)
        | inl placed ↦
            simp (placed, no_block, is_still_canonical)
              (and_go-Leaves (λ s. s ≡ text "reorged") IsDropped
                (displace w key (text "reorged") now) _
                (displaces w (text "reorged") (λ _. Unit {0}) (λ s. s ≡ text "reorged")
                  (row, here, tt) refl)
                λ a w' s.
                  drops (mark_pending w' key now) ChainStatus.reorged row.created_at
                    (λ s. s ≡ text "reorged") s age refl)
      ]
