-- ===== src/IntentWorker/Course.antt =====
-- The two courses that the processing of a claimed intent can take: nothing reaches the network and the
-- nonce is released, or the signed transaction reaches it and no reservation is released.
use aljama_wallet.Base.{
  ℕ, ◌≡◌, ◌⊎◌, ◌∙◌, sym, subst, Option, refl, inl, inr, some, List, [], ◌∷◌, Text, Option-cases,
  Outcome, done, thrown, Outcome-cases,
}
use aljama_wallet.Nonce
use aljama_wallet.Nonce.Unreleased.{
  Unreleased, mark_failed-Unreleased, mark_submitted-Unreleased, Result-cases,
  failed_by_hashes-Unreleased,
}
use aljama_wallet.TransferLog.{Log}
use aljama_wallet.SigningIntent.{Payload}
use aljama_wallet.SigningIntent.Memory
use aljama_wallet.SigningIntent.Memory.{Setting, update_intent, mark_signed, mark_submitted}
use aljama_wallet.IntentWorker.{
  World, Replies, given, release_nonce, fail_nonce, mark_transfer_submitted, note_replaced,
  mark_replaced_transfer_attempts, after_nonce, after_hash, known_hash, broadcast, record_signed,
  process_claimed,
}

release_nonce-sent : (w : World) (p : Payload) (now : ℕ) → (release_nonce w p now).sent ≡ w.sent
release_nonce-sent w p now = elim (Option-cases (given p.nonce_reservation_id)) [
  | inl without ↦ rw (without, release_nonce) refl
  | inr (id, there) ↦ rw (there, release_nonce) refl
]

release_nonce-nonces :
    (w : World) (intents : Memory.Store) (p : Payload) (now : ℕ)
    → (release_nonce (record w { intents = intents }) p now).nonces ≡ (release_nonce w p now).nonces
release_nonce-nonces w intents p now = elim (Option-cases (given p.nonce_reservation_id)) [
  | inl without ↦ rw (without, release_nonce) refl
  | inr (id, there) ↦ rw (there, release_nonce) refl
]

-- What a world keeps of another: what the network was given, and reservations that are not released.
record Keeps (w w' : World) : Type 0 where
  same_sent : w'.sent ≡ w.sent
  unreleased : (j : Text) → Unreleased w.nonces j → Unreleased w'.nonces j

infixr 60 ◌⨟◌
◌⨟◌ : {u v w : World} → Keeps u v → Keeps v w → Keeps u w
k ⨟ l = record {
  same_sent = l.same_sent ∙ k.same_sent;
  unreleased = λ j h. l.unreleased j (k.unreleased j h);
}

submitted-Keeps :
    (w : World) (reservation hash : Text) (now : ℕ)
    → Keeps w (record w { nonces = (Nonce.mark_submitted w.nonces reservation hash now).1 })
submitted-Keeps w reservation hash now = record {
  same_sent = refl;
  unreleased = λ j h. mark_submitted-Unreleased w.nonces reservation hash j now h;
}

fail_nonce-Keeps : (w : World) (p : Payload) (now : ℕ) → Keeps w (fail_nonce w p now)
fail_nonce-Keeps w p now = elim (Option-cases (given p.nonce_reservation_id)) [
  | inl without ↦ rw (without, fail_nonce) (record { same_sent = refl; unreleased = λ j h. h })
  | inr (id, there) ↦
      rw (there, fail_nonce)
        (record {
          same_sent = refl;
          unreleased = λ j h. mark_failed-Unreleased w.nonces id j now h;
        })
]

replaced-Keeps :
    (w : World) (hashes : List Text) (hash : Text) (now : ℕ) (logs : List Log)
    → Keeps w (mark_replaced_transfer_attempts (record w { transfers = logs }) hashes hash now)
unfolding mark_replaced_transfer_attempts
replaced-Keeps w hashes hash now logs = record {
  same_sent = refl;
  unreleased = λ j h. failed_by_hashes-Unreleased w.nonces hashes j now h;
}

note_replaced-Keeps :
    (w : World) (p : Payload) (hash : Text) (o : Outcome (List Text)) (now : ℕ)
    → Keeps w (note_replaced w p hash o now)
note_replaced-Keeps w p hash (thrown e) now = record { same_sent = refl; unreleased = λ j h. h }
note_replaced-Keeps w p hash (done []) now = replaced-Keeps w [] hash now w.transfers
note_replaced-Keeps w p hash (done ([] ∷ hs)) now = replaced-Keeps w ([] ∷ hs) hash now w.transfers
note_replaced-Keeps w p hash (done ((c ∷ h) ∷ hs)) now =
    replaced-Keeps w ((c ∷ h) ∷ hs) hash now
      (mark_transfer_submitted w.transfers p hash (some (c ∷ h)) now)

module _ (cfg : Setting) (p : Payload) (id : Text) (r : Replies) where
  after_nonce-Keeps :
      (w : World) (signed hash : Text) → Keeps w (after_nonce cfg p id r w signed hash).1
  after_nonce-Keeps w signed hash =
      elim (Outcome-cases
        (update_intent cfg w.intents id (mark_submitted (some (some signed)) hash) r.now r.now
          r.writes).0) [
            | inl (m, updated) ↦
                rw (updated, after_nonce) (again (note_replaced-Keeps _ p hash r.recorded r.now))
            | inr (e, failed) ↦ rw (failed, after_nonce) (again (fail_nonce-Keeps _ p r.now))
          ]
    where
      again :
          {intents : Memory.Store} {logs : List Log} {w' : World}
          → Keeps (record w { intents = intents; transfers = logs }) w'
          → Keeps w w'
      again k = record { same_sent = k.same_sent; unreleased = k.unreleased }

  after_hash-Keeps :
      (w : World) (signed hash : Text) → Keeps w (after_hash cfg p id r w signed hash).1
  after_hash-Keeps w signed hash = elim (Option-cases (given p.nonce_reservation_id)) [
    | inl without ↦ rw (without, after_hash) (after_nonce-Keeps w signed hash)
    | inr (reservation, there) ↦
        let (o, nonces) = Nonce.mark_submitted w.nonces reservation hash r.now in
        let first : Keeps w (record w { nonces = nonces }) =
          submitted-Keeps w reservation hash r.now in
        elim (Result-cases o) [
          | inl (a, ok) ↦
              rw (there, after_hash, ok)
                (first ⨟ after_nonce-Keeps (record w { nonces = nonces }) signed hash)
          | inr (e, bad) ↦
              rw (there, after_hash, bad)
                (first ⨟ fail_nonce-Keeps (record w { nonces = nonces }) p r.now)
        ]
  ]

  broadcast-Keeps :
      (w : World) (signed : Text) (derived : Option Text)
      → Keeps (record w { sent = signed ∷ w.sent }) (broadcast cfg p id r w signed derived).1
  broadcast-Keeps w signed derived =
      let w' : World = record w { sent = signed ∷ w.sent } in
      elim (Outcome-cases (r.submitted signed)) [
        | inr (e, bad) ↦ rw (bad, broadcast) (fail_nonce-Keeps w' p r.now)
        | inl (answer, good) ↦ elim (Option-cases (known_hash cfg p id r answer derived)) [
          | inl unknown ↦ rw (good, broadcast, unknown) (fail_nonce-Keeps w' p r.now)
          | inr (hash, known) ↦ rw (good, broadcast, known) (after_hash-Keeps w' signed hash)
        ]
      ]

  abbrev pub IsThrown : Outcome Text → Type 0
  IsThrown o = (e : Text) × (o ≡ thrown e)

  -- Nothing was sent, and the nonce was released.
  abbrev pub HeldBack : World → Outcome Text × World → Type 0
  HeldBack w (o, w') =
      IsThrown o × (w'.sent ≡ w.sent) × (w'.nonces ≡ (release_nonce w p r.now).nonces)

  -- The signed transaction was sent, and no reservation was released.
  abbrev pub SentOut : World → Outcome Text × World → Type 0
  SentOut w (o, w') =
      (signed : Text) × (r.signed ≡ done signed)
      × (w'.sent ≡ signed ∷ w.sent)
      × ((j : Text) → Unreleased w.nonces j → Unreleased w'.nonces j)

  record_signed-Course :
      (w : World) (signed : Text) (derived : Option Text)
      → r.signed ≡ done signed
      → HeldBack w (record_signed cfg p id r w signed derived)
        ⊎ SentOut w (record_signed cfg p id r w signed derived)
  record_signed-Course w signed derived good =
      let (o, intents) =
        update_intent cfg w.intents id (mark_signed signed derived) r.now r.now r.writes in
      elim (Outcome-cases o) [
        | inr (e, bad) ↦
            rw (bad, record_signed)
              (inl ((e, refl), release_nonce-sent _ p r.now, release_nonce-nonces w _ p r.now))
        | inl (m, recorded) ↦
            let k = broadcast-Keeps (record w { intents = intents }) signed derived in
            rw (recorded, record_signed) (inr (signed, good, k.same_sent, k.unreleased))
      ]

  -- A claimed intent takes one of two courses. Either signing it fails, or the hash or the record of its
  -- signature does: then nothing is given to the network, the nonce is released and the error is thrown
  -- on. Or the network is given the signed transaction, once, and whatever fails from then on, no
  -- reservation that was not released is.
  pub process_claimed-Course :
      (w : World)
      → HeldBack w (process_claimed cfg p id r w) ⊎ SentOut w (process_claimed cfg p id r w)
  unfolding process_claimed
  process_claimed-Course w = elim (Outcome-cases r.signed) [
    | inr (e, bad) ↦ rw (bad, process_claimed) (inl ((e, refl), release_nonce-sent w p r.now, refl))
    | inl (signed, good) ↦ elim (Outcome-cases (r.derived signed)) [
      | inr (e, bad) ↦
          rw (good, bad, process_claimed) (inl ((e, refl), release_nonce-sent w p r.now, refl))
      | inl (derived, known) ↦
          let same : process_claimed cfg p id r w ≡ record_signed cfg p id r w signed derived =
            rw (good, known, process_claimed) refl in
          subst (λ x. HeldBack w x ⊎ SentOut w x) (sym same)
            (record_signed-Course w signed derived good)
    ]
  ]
