-- ===== src/IntentWorker/Failure.antt =====
-- What the intent has when its processing is over.
use aljama_wallet.Base.{
  ℕ, ◌≡◌, refl, sym, subst, inl, inr, Option, some, List, [], ◌∷◌, Text, text_eq, Option-cases,
  Outcome, done, thrown, Outcome-cases, normalize_nullable,
}
use aljama_wallet.Base.Map
use aljama_wallet.Nonce
use aljama_wallet.Nonce.Unreleased.{Result-cases}
use aljama_wallet.SigningIntent.{
  Status, submitted, failed, Payload, Stored, Materialized, apply_updates,
}
use aljama_wallet.SigningIntent.Memory
use aljama_wallet.SigningIntent.Memory.{
  Setting, update_intent, updated_stored, mark_signed, mark_submitted, mark_failed,
}
use aljama_wallet.SigningIntent.Update.{update_intent-Leaves}
use aljama_wallet.IntentWorker.{
  World, Replies, given, fail_nonce, note_replaced, mark_replaced_transfer_attempts, after_nonce,
  after_hash, known_hash, broadcast, record_signed, process_claimed, handle_failure,
  failure_details,
}

-- Under the id the store has an intent with this status and hash.
abbrev pub HasState : Memory.Store → Text → Status → Option Text → Type 0
HasState s id status hash =
    (r : Stored) × (Map.get s.intents id ≡ some r)
    × (r.intent.id ≡ id)
    × (r.intent.status ≡ status)
    × (r.intent.tx_hash ≡ hash)

-- When the processing of an intent fails, the intent has failed, and its hash is the one that it had
-- when it was claimed, whatever hash was recorded since, also that of a transaction that was sent.
pub handle_failure-restores :
    (cfg : Setting) (w : World) (m : Materialized) (r : Replies) (message : Text) (x : Stored)
    → Map.get w.intents.intents m.intent.id ≡ some x
    → x.intent.id ≡ m.intent.id
    → HasState
        (handle_failure cfg w m r message).intents
        m.intent.id
        failed
        (normalize_nullable m.intent.tx_hash)
unfolding handle_failure apply_updates
handle_failure-restores cfg w m r message x here own =
    let l =
      update_intent-Leaves cfg w.intents m.intent.id x
        (mark_failed message (some (failure_details m.payload)) (some m.intent.tx_hash)) r.now r.now
        r.writes here own in
    (l.record_left, l.stored, l.same_id, l.same_status, l.same_hash)

fail_nonce-intents : (w : World) (p : Payload) (now : ℕ) → (fail_nonce w p now).intents ≡ w.intents
fail_nonce-intents w p now = elim (Option-cases (given p.nonce_reservation_id)) [
  | inl without ↦ rw (without, fail_nonce) refl
  | inr (id, there) ↦ rw (there, fail_nonce) refl
]

note_replaced-intents :
    (w : World) (p : Payload) (hash : Text) (o : Outcome (List Text)) (now : ℕ)
    → (note_replaced w p hash o now).intents ≡ w.intents
unfolding mark_replaced_transfer_attempts
note_replaced-intents w p hash (thrown e) now = refl
note_replaced-intents w p hash (done []) now = refl
note_replaced-intents w p hash (done ([] ∷ hs)) now = refl
note_replaced-intents w p hash (done ((c ∷ h) ∷ hs)) now = refl

-- A result that is no error has the property of its hash and its world.
abbrev OnHash : (Text → World → Type 0) → Outcome Text × World → Type 0
OnHash P (done hash, w) = P hash w
OnHash P (thrown e, w) = Unit

abbrev Submitted : Text → Text → World → Type 0
Submitted id hash w = HasState w.intents id submitted (normalize_nullable (some hash))

module _ (cfg : Setting) (p : Payload) (id : Text) (r : Replies) where
  after_nonce-Submitted :
      (w : World) (signed hash : Text) (x : Stored)
      → Map.get w.intents.intents id ≡ some x
      → x.intent.id ≡ id
      → OnHash (Submitted id) (after_nonce cfg p id r w signed hash)
  unfolding apply_updates
  after_nonce-Submitted w signed hash x here own =
      let u = mark_submitted (some (some signed)) hash in
      let l = update_intent-Leaves cfg w.intents id x u r.now r.now r.writes here own in
      elim (Outcome-cases (update_intent cfg w.intents id u r.now r.now r.writes).0) [
        | inr (e, bad) ↦ rw (bad, after_nonce, OnHash) tt
        | inl (m, good) ↦
            rw (good, after_nonce, OnHash, note_replaced-intents)
              (l.record_left, l.stored, l.same_id, l.same_status, l.same_hash)
      ]

  after_hash-Submitted :
      (w : World) (signed hash : Text) (x : Stored)
      → Map.get w.intents.intents id ≡ some x
      → x.intent.id ≡ id
      → OnHash (Submitted id) (after_hash cfg p id r w signed hash)
  after_hash-Submitted w signed hash x here own =
      elim (Option-cases (given p.nonce_reservation_id)) [
        | inl without ↦ rw (without, after_hash) (after_nonce-Submitted w signed hash x here own)
        | inr (reservation, there) ↦
            let (o, nonces) = Nonce.mark_submitted w.nonces reservation hash r.now in
            elim (Result-cases o) [
              | inl (a, ok) ↦
                  rw (there, after_hash, ok)
                    (after_nonce-Submitted (record w { nonces = nonces }) signed hash x here own)
              | inr (e, bad) ↦ rw (there, after_hash, bad, OnHash) tt
            ]
      ]

  broadcast-Submitted :
      (w : World) (signed : Text) (derived : Option Text) (x : Stored)
      → Map.get w.intents.intents id ≡ some x
      → x.intent.id ≡ id
      → OnHash (Submitted id) (broadcast cfg p id r w signed derived)
  broadcast-Submitted w signed derived x here own =
      let w' : World = record w { sent = signed ∷ w.sent } in
      elim (Outcome-cases (r.submitted signed)) [
        | inr (e, bad) ↦ rw (bad, broadcast, OnHash) tt
        | inl (answer, good) ↦ elim (Option-cases (known_hash cfg p id r answer derived)) [
          | inl unknown ↦ rw (good, broadcast, unknown, OnHash) tt
          | inr (hash, known) ↦
              rw (good, broadcast, known) (after_hash-Submitted w' signed hash x here own)
        ]
      ]

  record_signed-Submitted :
      (w : World) (signed : Text) (derived : Option Text) (x : Stored)
      → Map.get w.intents.intents id ≡ some x
      → x.intent.id ≡ id
      → OnHash (Submitted id) (record_signed cfg p id r w signed derived)
  record_signed-Submitted w signed derived x here own =
      let u = mark_signed signed derived in
      let l = update_intent-Leaves cfg w.intents id x u r.now r.now r.writes here own in
      let (o, intents) = update_intent cfg w.intents id u r.now r.now r.writes in
      elim (Outcome-cases o) [
        | inr (e, bad) ↦ rw (record_signed, bad, OnHash) tt
        | inl (m, recorded) ↦
            rw (record_signed, recorded)
              (broadcast-Submitted (record w { intents = intents }) signed derived l.record_left
                l.stored l.same_id)
      ]

  process-Submitted :
      (w : World) (x : Stored)
      → Map.get w.intents.intents id ≡ some x
      → x.intent.id ≡ id
      → OnHash (Submitted id) (process_claimed cfg p id r w)
  unfolding process_claimed
  process-Submitted w x here own = elim (Outcome-cases r.signed) [
    | inr (e, bad) ↦ rw (bad, process_claimed, OnHash) tt
    | inl (signed, good) ↦ elim (Outcome-cases (r.derived signed)) [
      | inr (e, bad) ↦ rw (good, bad, process_claimed, OnHash) tt
      | inl (derived, known) ↦
          let same : process_claimed cfg p id r w ≡ record_signed cfg p id r w signed derived =
            rw (good, known, process_claimed) refl in
          subst (OnHash (Submitted id)) (sym same)
            (record_signed-Submitted w signed derived x here own)
    ]
  ]

  -- Where the processing of an intent that is stored under its id succeeds, the intent is submitted, with
  -- the hash that the processing returns.
  pub process_claimed-submits :
      (w w' : World) (hash : Text) (x : Stored)
      → Map.get w.intents.intents id ≡ some x
      → x.intent.id ≡ id
      → process_claimed cfg p id r w ≡ (done hash, w')
      → HasState w'.intents id submitted (normalize_nullable (some hash))
  process_claimed-submits w w' hash x here own e =
      subst (OnHash (Submitted id)) e (process-Submitted w x here own)
