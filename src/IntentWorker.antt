-- ===== src/IntentWorker.antt =====
-- services/signing-intent.worker.ts over the stores in memory that it writes: the signing intents, the
-- nonce reservations and the transfer log. What signing, the network and the record of chain
-- transactions answer is an argument; the readings of the clock for one intent are one.
pub mod Course
pub mod Pass
pub mod Failure
mod Tests
use aljama_wallet.Base.{
  ℕ, zero, suc, ◌+◌, Bool, Option, none, some, List, [], ◌∷◌, Text, text, show, normalize_nullable,
  Outcome, done, thrown,
}
use aljama_wallet.Chain.{tx_type_name}
use aljama_wallet.Nonce
use aljama_wallet.TransferLog
use aljama_wallet.TransferLog.{
  Log, update_transfer_status, replace_transfer_attempts_by_tx_hashes, no_details,
}
use aljama_wallet.SigningIntent.{Payload, Materialized, Details, text_detail, number_detail}
use aljama_wallet.SigningIntent.Memory
use aljama_wallet.SigningIntent.Memory.{
  Setting, update_intent, claim_next, mark_signed, mark_submitted, mark_failed,
}

-- The stores, and the signed transactions that the network was given, the last one first.
pub record World : Type 0 where
  pub intents : Memory.Store
  pub nonces : Nonce.Store
  pub transfers : List Log
  pub sent : List Text

-- What is answered while one intent is processed.
pub record Replies : Type 0 where
  pub now : ℕ
  -- whether the disk takes a file, where an update comes to archive a payload
  pub writes : Bool
  -- `getEvmProviderForChain`
  pub provider : Outcome (Unit {0})
  -- `signUnsignedEvmTx`
  pub signed : Outcome Text
  -- `deriveSignedEvmTxHash`, which throws on what is no transaction
  pub derived : Text → Outcome (Option Text)
  -- `submitSignedEvmTx`, whose hash may be empty
  pub submitted : Text → Outcome Text
  -- the hashes replaced, of `recordChainTransaction`
  pub recorded : Outcome (List Text)

-- `stringifyTxValue` of a nonce
unfoldable pub stringify_tx_value : Option ℕ → Option Text
stringify_tx_value none = none
stringify_tx_value (some n) = normalize_nullable (some (show n))

-- `...(x ?? undefined)`: a missing text leaves the field of the update out.
abbrev pub if_given : Option Text → Option (Option Text)
if_given none = none
if_given (some t) = some (some t)

abbrev pub transfer_fields :
    Payload → Option (Option Text) → Option (Option Text) → TransferLog.Updates
transfer_fields p hash replaces = record {
  status = none;
  details = record {
    tx_hash = hash;
    nonce = some (stringify_tx_value p.transaction.nonce);
    tx_data = some p.tx_data;
    gas_limit = some p.transaction.gas_limit;
    gas_price = some p.transaction.gas_price;
    max_fee_per_gas = some p.transaction.max_fee_per_gas;
    max_priority_fee_per_gas = some p.transaction.max_priority_fee_per_gas;
    gas_used = none;
    block_hash = none;
    replaces_tx_hash = replaces;
    replaced_by_tx_hash = none;
  };
  tx_type = some (some (tx_type_name p.tx_type));
  block_height = none;
  confirmation_count = none;
  confirmed_at = none;
}

-- `if (!payload.transferLogId) return`
abbrev pub given : Option Text → Option Text
given (some (c ∷ s)) = some (c ∷ s)
given _ = none

unfoldable pub mark_transfer_submitted : List Log → Payload → Text → Option Text → ℕ → List Log
mark_transfer_submitted logs p hash replaces now = elim (given p.transfer_log_id) [
  | none ↦ logs
  | some id ↦
      update_transfer_status logs id (text "submitted")
        (transfer_fields p (some (some hash)) (if_given replaces)) now
]

unfoldable pub mark_transfer_failed : List Log → Payload → Option Text → ℕ → List Log
mark_transfer_failed logs p hash now = elim (given p.transfer_log_id) [
  | none ↦ logs
  | some id ↦
      update_transfer_status logs id (text "failed") (transfer_fields p (if_given hash) none) now
]

-- `markReplacedTransferAttempts` of services/chain-transaction-sync.service.ts
unfoldable pub mark_replaced_transfer_attempts : World → List Text → Text → ℕ → World
mark_replaced_transfer_attempts w hashes replaced_by now = record w {
  transfers = replace_transfer_attempts_by_tx_hashes w.transfers hashes replaced_by none now;
  nonces = (Nonce.mark_failed_by_hashes w.nonces hashes now).1;
}

-- The `catch` of `processClaimedSigningIntent`: before the broadcast the nonce is released, from it on
-- its reservation has failed.
abbrev pub release_nonce : World → Payload → ℕ → World
release_nonce w p now = elim (given p.nonce_reservation_id) [
  | none ↦ w
  | some id ↦ record w { nonces = (Nonce.release_reservation w.nonces id now).1 }
]

abbrev pub fail_nonce : World → Payload → ℕ → World
fail_nonce w p now = elim (given p.nonce_reservation_id) [
  | none ↦ w
  | some id ↦ record w { nonces = (Nonce.mark_failed w.nonces id now).1 }
]

-- The record of the chain transaction; an error is logged only.
abbrev pub note_replaced : World → Payload → Text → Outcome (List Text) → ℕ → World
note_replaced w p hash (thrown e) now = w
note_replaced w p hash (done []) now = mark_replaced_transfer_attempts w [] hash now
note_replaced w p hash (done ([] ∷ hs)) now = mark_replaced_transfer_attempts w ([] ∷ hs) hash now
note_replaced w p hash (done ((c ∷ h) ∷ hs)) now =
    mark_replaced_transfer_attempts
      (record w { transfers = mark_transfer_submitted w.transfers p hash (some (c ∷ h)) now })
      ((c ∷ h) ∷ hs) hash now

module _ (cfg : Setting) (p : Payload) (id : Text) (r : Replies) where
  -- Behind the nonce: the intent, the transfer, the chain transaction.
  abbrev pub after_nonce : World → Text → Text → Outcome Text × World
  after_nonce w signed_payload hash =
      let (o, intents) =
        update_intent cfg w.intents id (mark_submitted (some (some signed_payload)) hash) r.now
          r.now r.writes in
      elim o [
        | thrown e ↦ (thrown e, fail_nonce (record w { intents = intents }) p r.now)
        | done _ ↦ (
          done hash,
          note_replaced
              (record w {
                intents = intents;
                transfers = mark_transfer_submitted w.transfers p hash none r.now;
              })
              p hash r.recorded r.now,
        )
      ]

  abbrev pub after_hash : World → Text → Text → Outcome Text × World
  after_hash w signed_payload hash = elim (given p.nonce_reservation_id) [
    | none ↦ after_nonce w signed_payload hash
    | some reservation ↦
        let (o, nonces) = Nonce.mark_submitted w.nonces reservation hash r.now in
        elim o [
          | Nonce.err e ↦ (
            thrown (text "NONCE_INVALID_TX_HASH"),
            fail_nonce (record w { nonces = nonces }) p r.now,
          )
          | Nonce.ok _ ↦ after_nonce (record w { nonces = nonces }) signed_payload hash
        ]
  ]

  -- `broadcastTxHash || derivedHash`
  abbrev pub known_hash : Text → Option Text → Option Text
  known_hash (c ∷ h) derived = some (c ∷ h)
  known_hash [] derived = given derived

  abbrev pub broadcast : World → Text → Option Text → Outcome Text × World
  broadcast w signed_payload derived =
      let w' : World = record w { sent = signed_payload ∷ w.sent } in
      elim (r.submitted signed_payload) [
        | thrown e ↦ (thrown e, fail_nonce w' p r.now)
        | done answer ↦ elim (known_hash answer derived) [
          | none ↦ (
            thrown (text "Unable to determine submitted transaction hash"),
            fail_nonce w' p r.now,
          )
          | some hash ↦ after_hash w' signed_payload hash
        ]
      ]

  -- Behind the signature and its hash.
  abbrev pub record_signed : World → Text → Option Text → Outcome Text × World
  record_signed w signed_payload derived =
      let (o, intents) =
        update_intent cfg w.intents id (mark_signed signed_payload derived) r.now r.now r.writes in
      elim o [
        | thrown e ↦ (thrown e, release_nonce (record w { intents = intents }) p r.now)
        | done _ ↦ broadcast (record w { intents = intents }) signed_payload derived
      ]

  -- `processClaimedSigningIntent`
  unfoldable pub process_claimed : World → Outcome Text × World
  process_claimed w = elim r.signed [
    | thrown e ↦ (thrown e, release_nonce w p r.now)
    | done signed_payload ↦ elim (r.derived signed_payload) [
      | thrown e ↦ (thrown e, release_nonce w p r.now)
      | done derived ↦ record_signed w signed_payload derived
    ]
  ]

pub record Counts : Type 0 where
  pub processed : ℕ
  pub succeeded : ℕ
  pub failed : ℕ

abbrev pub failure_details : Payload → Details
failure_details p =
    (text "walletId", text_detail p.wallet_id) ∷ (text "chainId", number_detail p.chain_id) ∷ []

-- The `catch` of the pass, given the message of the error; errors of the updates are swallowed.
unfoldable pub handle_failure : Setting → World → Materialized → Replies → Text → World
handle_failure cfg w m r message = record w {
  intents =
      (update_intent cfg w.intents m.intent.id
        (mark_failed message (some (failure_details m.payload)) (some m.intent.tx_hash)) r.now r.now
        r.writes).1;
  transfers = mark_transfer_failed w.transfers m.payload m.intent.tx_hash r.now;
}

unfoldable pub process_intent : Setting → World → Materialized → Replies → Outcome Text × World
process_intent cfg w m r = elim r.provider [
  | thrown e ↦ (thrown e, w)
  | done _ ↦ process_claimed cfg m.payload m.intent.id r w
]

abbrev pub counted :
    Setting → Materialized → Replies → Outcome Text × World → Counts → Counts × World
counted cfg m r (done hash, w) c =
    (record c { processed = c.processed + 1; succeeded = c.succeeded + 1 }, w)
counted cfg m r (thrown e, w) c =
    (record c { processed = c.processed + 1; failed = c.failed + 1 }, handle_failure cfg w m r e)

-- The loop of `processWalletSigningIntentQueuePass`, with the number of rounds that are left. An error
-- of the claim ends the pass.
unfoldable pub pass_from : Setting → ℕ → (ℕ → Replies) → Counts → World → Outcome Counts × World
pass_from cfg zero replies c w = (done c, w)
pass_from cfg (suc n) replies c w =
    let r = replies n in
    let (o, intents) = claim_next cfg w.intents r.now r.now r.writes in
    elim o [
      | thrown e ↦ (thrown e, record w { intents = intents })
      | done none ↦ (done c, record w { intents = intents })
      | done (some m) ↦
          let (c', w') =
            counted cfg m r (process_intent cfg (record w { intents = intents }) m r) c in
          pass_from cfg n replies c' w'
    ]

abbrev pub no_counts : Counts
no_counts = record { processed = 0; succeeded = 0; failed = 0 }

unfoldable pub process_queue_pass : Setting → ℕ → (ℕ → Replies) → World → Outcome Counts × World
process_queue_pass cfg batch_size replies w = pass_from cfg batch_size replies no_counts w
