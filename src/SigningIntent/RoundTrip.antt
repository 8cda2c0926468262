-- ===== src/SigningIntent/RoundTrip.antt =====
-- That an intent in memory is read back with the payload that it was created with, wherever that is.
use aljama_wallet.Base.{
  ℕ, ◌<◌, ◌≤◌, Bool, true, false, ◌≡◌, refl, subst, inl, inr, some, Text, text_eq, Option-cases,
  Bool-cases, Outcome, done, thrown, arith, ltb, length, normalize_nullable, sym, ap, ◌∙◌,
}
use aljama_wallet.Base.Map
use aljama_wallet.Base.Map.{Map}
use aljama_wallet.SigningIntent.{
  Payload, Stored, Materialized, CreateInput, or_option, is_payload, parse_payload, build_record,
  resolve_create_payload, resolve_trace_id,
}
use aljama_wallet.SigningIntent.Archive.{Files, archive_url, archive_payload, should_archive}
use aljama_wallet.SigningIntent.Memory.{Setting, Store, get_intent}
use aljama_wallet.SigningIntent.Create.{
  Prepared, max_intents, cap_intents, new_record, intent_id, insert_prepared, prepare_persistence,
  prepared_archived, location_for, create_intent,
}
use aljama_wallet.SigningIntent.Backing.{IsUrl, Backed, load-archived, Agree, materialize-Backed}

-- A creation that returned prepared its payload, and put a record with it into the map.
record Creation (cfg : Setting) (s s' : Store) (i : CreateInput) (uuid : Text) (now later : ℕ)
    (writes : Bool) (m : Materialized) : Type 0 where
  payload : Payload
  trace : Text
  prepared : Prepared
  files : Files
  valid : is_payload payload ≡ true
  prepares :
      prepare_persistence cfg s.files (location_for i payload) payload now later writes
      ≡ (done prepared, files)
  inserts : insert_prepared cfg s i payload trace uuid now (done prepared, files) ≡ (done m, s')

thrown_done :
    {A B : Type 0} {x : Text} {a : A} {f g : B} → Path (Outcome A × B) (thrown x, f) (done a, g) → ⊥
thrown_done h = cc

parsed-valid : (q p : Payload) → parse_payload q ≡ done p → is_payload p ≡ true
unfolding parse_payload
parsed-valid q p e = elim (Bool-cases (is_payload q)) [
  | inl good ↦ let same : q ≡ p = let e' = rw (good, parse_payload) at e in cc in rw⁻¹ same good
  | inr bad ↦ absurd (let e' = rw (bad, parse_payload) at e in cc)
]

resolved-valid :
    (i : CreateInput) (p : Payload) → resolve_create_payload i ≡ done p → is_payload p ≡ true
unfolding resolve_create_payload
resolved-valid i p e = elim (Option-cases (or_option i.tx_payload i.payload)) [
  | inl missing ↦ absurd (let e' = rw (missing, resolve_create_payload) at e in cc)
  | inr (q, given) ↦ parsed-valid q p (rw (given, resolve_create_payload) at e)
]

module _ (cfg : Setting) (s s' : Store) (i : CreateInput) (uuid : Text) (now later : ℕ)
    (writes : Bool) (m : Materialized) where
  of_prepared :
      (p : Payload) (trace : Text) (q : Outcome Prepared × Files)
      → is_payload p ≡ true
      → prepare_persistence cfg s.files (location_for i p) p now later writes ≡ q
      → insert_prepared cfg s i p trace uuid now q ≡ (done m, s')
      → Creation cfg s s' i uuid now later writes m
  of_prepared p trace (thrown x, files) v eq e = absurd (thrown_done e)
  of_prepared p trace (done q, files) v eq e = record {
    payload = p;
    trace = trace;
    prepared = q;
    files = files;
    valid = v;
    prepares = eq;
    inserts = e;
  }

  of_trace :
      (p : Payload) (t : Outcome Text)
      → resolve_create_payload i ≡ done p
      → resolve_trace_id i ≡ t
      → create_intent cfg s i uuid now later writes ≡ (done m, s')
      → Creation cfg s s' i uuid now later writes m
  unfolding create_intent
  of_trace p (thrown x) ep et e = absurd (thrown_done (rw (create_intent, ep, et) at e))
  of_trace p (done trace) ep et e =
      of_prepared p trace _ (resolved-valid i p ep) refl (rw (create_intent, ep, et) at e)

  of_payload :
      (p : Outcome Payload)
      → resolve_create_payload i ≡ p
      → create_intent cfg s i uuid now later writes ≡ (done m, s')
      → Creation cfg s s' i uuid now later writes m
  unfolding create_intent
  of_payload (thrown x) ep e = absurd (thrown_done (rw (create_intent, ep) at e))
  of_payload (done p) ep e = of_trace p (resolve_trace_id i) ep refl e

  done-Creation :
      create_intent cfg s i uuid now later writes ≡ (done m, s')
      → Creation cfg s s' i uuid now later writes m
  done-Creation e = of_payload (resolve_create_payload i) refl e

done_injective :
    {A B : Type 0} {a b : A} {f g : B}
    → Path (Outcome A × B) (done a, f) (done b, g)
    → (a ≡ b) × (f ≡ g)
done_injective h = (cc, cc)

prepare-Backed :
    (cfg : Setting) (files files' : Files) (i : CreateInput) (p : Payload) (trace uuid : Text)
    (now later : ℕ) (writes : Bool) (q : Prepared)
    → IsUrl cfg.platform
    → is_payload p ≡ true
    → prepare_persistence cfg files (location_for i p) p now later writes ≡ (done q, files')
    → Backed cfg files' (new_record cfg i p trace q uuid now) p
unfolding prepare_persistence archive_payload archive_url
prepare-Backed cfg files files' i p trace uuid now later writes q url valid e =
    elim (Bool-cases (should_archive cfg.policy (cfg.platform.measure p) now later)) [
      | inl due ↦ kept writes (rw (prepare_persistence, due) at e)
      | inr early ↦
          let (same, _) = done_injective (rw (prepare_persistence, early) at e) in
          inl (ap (λ z. z.inline_payload) (sym same))
    ]
  where
    kept :
        (w : Bool)
        → prepared_archived (archive_payload cfg.platform files (location_for i p) p w)
          ≡ (done q, files')
        → Backed cfg files' (new_record cfg i p trace q uuid now) p
    kept false h = cc
    kept true h =
        let (same, written) = done_injective h in
        inr (
          ap (λ z. z.inline_payload) (sym same),
          archive_url cfg.platform (location_for i p) p,
          ap (λ z. normalize_nullable z.payload_ref) (sym same) ∙ url.is_trimmed _,
          rw (← written) (load-archived cfg files (location_for i p) p url valid),
        )

uncapped : (strict : Bool) (m : Map Text Stored) → length m ≤ max_intents → cap_intents strict m ≡ m
unfolding cap_intents
uncapped true m h = elim (Bool-cases (ltb max_intents (length m))) [
  | inl over ↦ absurd (ground arith)
  | inr fits ↦ rw (fits, cap_intents) refl
]
uncapped false m h = refl

-- The map then has the record under its id, and the creation returned what it builds from it.
inserted :
    (cfg : Setting) (s s' : Store) (i : CreateInput) (p : Payload) (trace uuid : Text) (now : ℕ)
    (q : Prepared) (files : Files) (m : Materialized)
    → length s.intents < max_intents
    → insert_prepared cfg s i p trace uuid now (done q, files) ≡ (done m, s')
    → let r = new_record cfg i p trace q uuid now in
      (build_record r.intent p ≡ m)
      × (s' ≡ record { intents = Map.set s.intents (intent_id uuid) r; files = files })
inserted cfg s s' i p trace uuid now q files m room e =
    let r = new_record cfg i p trace q uuid now in
    let fits = Map.length-set-le s.intents (intent_id uuid) r in
    let (same, stored) = done_injective e in
    (
      same,
      sym stored
          ∙ ap (λ x. record { intents = x; files = files }) (uncapped cfg.strict _ (omega arith)),
    )

abbrev ReadsBack : Setting → Text → ℕ → Materialized → Store → Type 0
ReadsBack cfg id read_at m s =
    (m' : Materialized) × ((get_intent cfg s id read_at true).0 ≡ done (some m')) × Agree m m'

get-Backed :
    (cfg : Setting) (s : Store) (id : Text) (r : Stored) (p : Payload) (read_at : ℕ)
    → IsUrl cfg.platform
    → is_payload p ≡ true
    → Map.get s.intents id ≡ some r
    → Backed cfg s.files r p
    → ReadsBack cfg id read_at (build_record r.intent p) s
unfolding get_intent
get-Backed cfg s id r p read_at url valid here backed =
    let (m', read, agree) = materialize-Backed cfg s r p read_at url valid backed in
    (m', rw (get_intent, here, read) refl, agree)

-- An intent that was created, in a map that is not full, is read back, at any time at which the disk
-- takes a file, with the payload and the fields that its creation returned; only where the payload
-- is kept may be other.
pub get-create :
    (cfg : Setting) (s s' : Store) (i : CreateInput) (uuid : Text) (now later read_at : ℕ)
    (writes : Bool) (m : Materialized)
    → IsUrl cfg.platform
    → length s.intents < max_intents
    → create_intent cfg s i uuid now later writes ≡ (done m, s')
    → (m' : Materialized) × ((get_intent cfg s' (intent_id uuid) read_at true).0 ≡ done (some m'))
      × Agree m m'
get-create cfg s s' i uuid now later read_at writes m url room e =
    let c = done-Creation cfg s s' i uuid now later writes m e in
    let r = new_record cfg i c.payload c.trace c.prepared uuid now in
    let (same, stored) =
      inserted cfg s s' i c.payload c.trace uuid now c.prepared c.files m room c.inserts in
    let s1 : Store = record { intents = Map.set s.intents (intent_id uuid) r; files = c.files } in
    let backed =
      prepare-Backed cfg s.files c.files i c.payload c.trace uuid now later writes c.prepared url
        c.valid c.prepares in
    let read =
      get-Backed cfg s1 (intent_id uuid) r c.payload read_at url c.valid
        (Map.get-set_self s.intents (intent_id uuid) r) backed in
    subst (ReadsBack cfg (intent_id uuid) read_at m) (sym stored)
      (subst (λ x. ReadsBack cfg (intent_id uuid) read_at x s1) same read)
