-- ===== src/SigningIntent/Kept.antt =====
-- What a call keeps of the records in memory: that each stands under its own id, once, and a property
-- of its id and status that changes of the status to another than `queued` do not take away.
use aljama_wallet.Base.{
  ℕ, Bool, true, ltb, length, or_else, ◌≡◌, ◌≢◌, refl, inl, inr, Option, none, some, [], ◌∷◌, Text,
  text_eq, Bool-cases, Option-cases, Outcome, done, thrown, All-filter, head-sort_up-All,
  normalize_nullable, ◌&&◌,
}
use aljama_wallet.Base.Map
use aljama_wallet.Base.Map.{Map}
use aljama_wallet.Base.Map.Values.{AllValues, set-AllValues, get-AllValues}
use aljama_wallet.Base.Map.Keyed.{
  Keyed, set-Keyed, get-Keyed, delete-Keyed, delete-AllValues, AllValues-All,
}
use aljama_wallet.SigningIntent.{
  Status, queued, Payload, Stored, CreateInput, Updates, apply_updates, resolve_create_payload,
  resolve_trace_id,
}
use aljama_wallet.SigningIntent.Archive.{Files}
use aljama_wallet.SigningIntent.Memory.{
  archived_as, created_of, Setting, Store, put, is_queued, claimed_from, next_queued, claim_next,
  materialize, get_intent, update_intent, updated_stored, update_entries, has_hash,
  update_by_tx_hash,
}
use aljama_wallet.SigningIntent.Create.{
  create_intent, insert_prepared, Prepared, intent_id, cap_intents, delete_oldest, max_intents,
}
use aljama_wallet.SigningIntent.Effect.{id_of, materialize_store}
use aljama_wallet.SigningIntent.Calls.{
  Mark, as_signed, as_submitted, as_failed, HashMark, as_confirmed, as_reopened, as_failed_by_hash,
  marking, hash_marking, Call, create, read, mark, mark_by_hash, claim, step,
}

module _ {κ} (Q : Text → Status → Type κ) where
  -- The records stand under their ids, and each has the property of its id and status.
  abbrev pub Holds : Store → Type κ
  Holds s = Keyed id_of s.intents × AllValues (λ r. Q r.intent.id r.intent.status) s.intents

  pub put-Holds :
      (s : Store) (files : Files) (a : Stored)
      → Q a.intent.id a.intent.status
      → Holds s
      → Holds (put (record s { files = files }) a)
  put-Holds s files a q (keyed, all) = (
    set-Keyed id_of s.intents a.intent.id a refl keyed,
    set-AllValues (λ r. Q r.intent.id r.intent.status) s.intents a.intent.id a all q,
  )

  pub materialize-Holds :
      (cfg : Setting) (s : Store) (r : Stored) (now : ℕ) (writes : Bool)
      → Q r.intent.id r.intent.status
      → Holds s
      → Holds (materialize cfg s r now writes).1
  materialize-Holds cfg s r now writes q h =
      materialize_store cfg s r now writes Holds h
        λ url files. put-Holds s files (archived_as r url) q h

  delete-Holds :
      (m : Map Text Stored) (r : Option Stored) (files : Files)
      → Holds (record { intents = m; files = files })
      → Holds (record { intents = delete_oldest m r; files = files })
  delete-Holds m none files h = h
  delete-Holds m (some r) files (keyed, all) = (
    delete-Keyed id_of m r.intent.id keyed,
    delete-AllValues (λ r. Q r.intent.id r.intent.status) m r.intent.id all,
  )

  cap-Holds :
      (strict : Bool) (m : Map Text Stored) (files : Files)
      → Holds (record { intents = m; files = files })
      → Holds (record { intents = cap_intents strict m; files = files })
  unfolding cap_intents
  cap-Holds strict m files h = elim (Bool-cases (strict && ltb max_intents (length m))) [
    | inl over ↦ rw (over, cap_intents) (delete-Holds m _ files h)
    | inr under ↦ rw (under, cap_intents) h
  ]

  insert-Holds :
      (cfg : Setting) (s : Store) (i : CreateInput) (p : Payload) (trace uuid : Text) (now : ℕ)
      (prepared : Outcome Prepared × Files)
      → Q (intent_id uuid) queued
      → Holds s
      → Holds (insert_prepared cfg s i p trace uuid now prepared).1
  insert-Holds cfg s i p trace uuid now (thrown e, files) q h = h
  insert-Holds cfg s i p trace uuid now (done prepared, files) q h =
      cap-Holds cfg.strict _ files (put-Holds s files _ q h)

  create-Holds :
      (cfg : Setting) (s : Store) (i : CreateInput) (uuid : Text) (now later : ℕ) (writes : Bool)
      → Q (intent_id uuid) queued
      → Holds s
      → Holds (create_intent cfg s i uuid now later writes).1
  unfolding create_intent
  create-Holds cfg s i uuid now later writes q h = payload_of (resolve_create_payload i) refl
    where
      trace_of :
          (p : Payload) (t : Outcome Text)
          → resolve_create_payload i ≡ done p
          → resolve_trace_id i ≡ t
          → Holds (create_intent cfg s i uuid now later writes).1
      trace_of p (thrown e) ep et = rw (ep, et, create_intent) h
      trace_of p (done t) ep et =
          rw (ep, et, create_intent) (insert-Holds cfg s i p t uuid now _ q h)

      payload_of :
          (p : Outcome Payload)
          → resolve_create_payload i ≡ p
          → Holds (create_intent cfg s i uuid now later writes).1
      payload_of (thrown e) ep = rw (ep, create_intent) h
      payload_of (done p) ep = trace_of p (resolve_trace_id i) ep refl

  get-Holds :
      (cfg : Setting) (s : Store) (id : Text) (now : ℕ) (writes : Bool)
      → Holds s
      → Holds (get_intent cfg s id now writes).1
  unfolding get_intent
  get-Holds cfg s id now writes h = elim (Option-cases (Map.get s.intents id)) [
    | inl missing ↦ rw (missing, get_intent) h
    | inr (r, here) ↦
        rw (here, get_intent)
          (materialize-Holds cfg s r now writes
            (get-AllValues (λ r. Q r.intent.id r.intent.status) s.intents id r h.1 here) h)
  ]

  -- A property that no other status than `queued` takes away.
  module _ (moves : (id : Text) (st st' : Status) → Q id st → st' ≢ queued → Q id st') where
    pub next-Q :
        (s : Store) (r : Stored) → next_queued s ≡ some r → Holds s → Q r.intent.id r.intent.status
    unfolding next_queued
    next-Q s r e h =
        (head-sort_up-All (λ q. Q q.intent.id q.intent.status × (is_queued q ≡ true)) created_of _ r
          (All-filter (λ q. Q q.intent.id q.intent.status) is_queued (Map.values s.intents)
            (AllValues-All _ s.intents h.1))
          e).0

    claim-Holds :
        (cfg : Setting) (s : Store) (now later : ℕ) (writes : Bool)
        → Holds s
        → Holds (claim_next cfg s now later writes).1
    unfolding claim_next apply_updates
    claim-Holds cfg s now later writes h = elim (Option-cases (next_queued s)) [
      | inl empty ↦ rw (empty, claim_next) h
      | inr (r, e) ↦
          let c = claimed_from r now in
          let q : Q c.intent.id c.intent.status = moves _ _ _ (next-Q s r e h) λ e'. cc in
          rw (e, claim_next)
            (materialize-Holds cfg (put s c) c later writes q (put-Holds s s.files c q h))
    ]

    module _ (u : Updates) (now : ℕ) (off : (st : Status) → or_else u.status st ≢ queued) where
      updated-Q :
          (r : Stored)
          → Q r.intent.id r.intent.status
          → let a = updated_stored r u now in Q a.intent.id a.intent.status
      unfolding apply_updates
      updated-Q r q = moves _ _ _ q (off r.intent.status)

      update-Holds :
          (cfg : Setting) (s : Store) (id : Text) (later : ℕ) (writes : Bool)
          → Holds s
          → Holds (update_intent cfg s id u now later writes).1
      unfolding update_intent apply_updates
      update-Holds cfg s id later writes (keyed, all) = elim (Option-cases (Map.get s.intents id)) [
        | inl missing ↦ rw (missing, update_intent) (keyed, all)
        | inr (r, here) ↦
            let q =
              updated-Q r
                (get-AllValues (λ r. Q r.intent.id r.intent.status) s.intents id r all here) in
            let own : r.intent.id ≡ id = get-Keyed id_of s.intents id r keyed here in
            rw (here, update_intent)
              (materialize-Holds cfg _ (updated_stored r u now) later writes q (
                set-Keyed id_of s.intents id (updated_stored r u now) own keyed,
                set-AllValues (λ r. Q r.intent.id r.intent.status) s.intents id _ all q,
              ))
      ]

      entries-AllValues :
          (hash : Text) (m : Map Text Stored)
          → AllValues (λ r. Q r.intent.id r.intent.status) m
          → AllValues (λ r. Q r.intent.id r.intent.status) (update_entries hash u now m).1
      entries-AllValues hash [] h = tt
      entries-AllValues hash ((id, r) ∷ m) (q, h) = elim (Bool-cases (has_hash hash r)) [
        | inl hit ↦ rw hit (updated-Q r q, entries-AllValues hash m h)
        | inr miss ↦ rw miss (q, entries-AllValues hash m h)
      ]

      entries-apart :
          (hash id : Text) (m : Map Text Stored)
          → AllValues (λ w. id_of w ≢ id) m
          → AllValues (λ w. id_of w ≢ id) (update_entries hash u now m).1
      unfolding apply_updates
      entries-apart hash id [] h = tt
      entries-apart hash id ((k, r) ∷ m) (ne, h) = elim (Bool-cases (has_hash hash r)) [
        | inl hit ↦ rw hit (ne, entries-apart hash id m h)
        | inr miss ↦ rw miss (ne, entries-apart hash id m h)
      ]

      entries-Keyed :
          (hash : Text) (m : Map Text Stored)
          → Keyed id_of m
          → Keyed id_of (update_entries hash u now m).1
      unfolding apply_updates
      entries-Keyed hash [] h = tt
      entries-Keyed hash ((k, r) ∷ m) (own, ne, h) = elim (Bool-cases (has_hash hash r)) [
        | inl hit ↦ rw hit (own, entries-apart hash (id_of r) m ne, entries-Keyed hash m h)
        | inr miss ↦ rw miss (own, entries-apart hash (id_of r) m ne, entries-Keyed hash m h)
      ]

      by_hash-Holds :
          (s : Store) (tx_hash : Text) → Holds s → Holds (update_by_tx_hash s tx_hash u now).1
      unfolding update_by_tx_hash
      by_hash-Holds s tx_hash (keyed, all) =
          elim (Option-cases (normalize_nullable (some tx_hash))) [
            | inl blank ↦ rw (blank, update_by_tx_hash) (keyed, all)
            | inr (hash, full) ↦
                rw (full, update_by_tx_hash)
                  (entries-Keyed hash s.intents keyed, entries-AllValues hash s.intents all)
          ]

    marking-off : (m : Mark) (st : Status) → or_else (marking m).status st ≢ queued
    marking-off (as_signed p h) st = λ e. cc
    marking-off (as_submitted p h) st = λ e. cc
    marking-off (as_failed c d h) st = λ e. cc

    hash_marking-off : (m : HashMark) (st : Status) → or_else (hash_marking m).status st ≢ queued
    hash_marking-off as_confirmed st = λ e. cc
    hash_marking-off as_reopened st = λ e. cc
    hash_marking-off (as_failed_by_hash c d) st = λ e. cc

    -- An intent that is created wants the property for its id.
    abbrev pub Wants : Call → Type κ
    Wants (create i uuid writes) = Q (intent_id uuid) queued
    Wants _ = Unit {κ}

    pub step-Holds :
        (cfg : Setting) (s : Store) (now later : ℕ) (c : Call)
        → Wants c
        → Holds s
        → Holds (step cfg s (now, later, c))
    unfolding step
    step-Holds cfg s now later (create i uuid writes) q h =
        create-Holds cfg s i uuid now later writes q h
    step-Holds cfg s now later (read id writes) q h = get-Holds cfg s id now writes h
    step-Holds cfg s now later (mark id m writes) q h =
        update-Holds (marking m) now (marking-off m) cfg s id later writes h
    step-Holds cfg s now later (mark_by_hash hash m) q h =
        by_hash-Holds (hash_marking m) now (hash_marking-off m) s hash h
    step-Holds cfg s now later (claim writes) q h = claim-Holds cfg s now later writes h
