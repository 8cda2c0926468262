-- ===== src/SigningIntent/Backing.antt =====
-- Payloads that a record in memory has, or that a file has which it refers to: what reads them, and
-- what keeps them so.
use aljama_wallet.Base.{
  ℕ, true, ◌≡◌, ◌⊎◌, refl, inl, inr, none, some, Text, text_eq, Outcome, done, and_then,
  normalize_nullable,
}
use aljama_wallet.Base.Map
use aljama_wallet.Base.Map.{Map}
use aljama_wallet.SigningIntent.{Payload, Stored, Materialized, is_payload, build_record}
use aljama_wallet.SigningIntent.Json.{parse-payload_json}
use aljama_wallet.SigningIntent.Archive.{
  Platform, Files, Location, location_of, archive_url, archive_payload, read_payload,
}
use aljama_wallet.SigningIntent.Memory.{
  Setting, Store, load_payload, load, materialize, archived_as,
}
use aljama_wallet.SigningIntent.Effect.{maybe_archive_cases}

-- What Node documents of `pathToFileURL`: its value has the protocol of files, is not empty and has
-- no white space at its ends.
pub record IsUrl (pf : Platform) : Type 0 where
  pub of_file : (path : Text) → pf.is_file_url (pf.path_to_url path) ≡ true
  pub is_trimmed :
      (path : Text) → normalize_nullable (some (pf.path_to_url path)) ≡ some (pf.path_to_url path)

-- The payload is in the record, or in a file that the record refers to.
abbrev pub Backed : Setting → Files → Stored → Payload → Type 0
Backed cfg files r p =
    (r.payload ≡ some p)
    ⊎ ((r.payload ≡ none)
        × (ref : Text) × (normalize_nullable r.intent.payload_ref ≡ some ref)
        × (load_payload cfg files ref ≡ done p))

pub load-Backed :
    (cfg : Setting) (files : Files) (r : Stored) (p : Payload)
    → Backed cfg files r p
    → load cfg files r ≡ done (build_record r.intent p)
unfolding load
load-Backed cfg files r p (inl here) = rw (here, load) refl
load-Backed cfg files r p (inr (gone, ref, given, read)) = rw (gone, load, given, read) refl

-- A payload that the schema accepts is loaded from where it was archived.
pub load-archived :
    (cfg : Setting) (files : Files) (l : Location) (p : Payload)
    → IsUrl cfg.platform
    → is_payload p ≡ true
    → load_payload cfg
        (archive_payload cfg.platform files l p true).1
        (archive_url cfg.platform l p)
      ≡ done p
unfolding load_payload read_payload archive_payload archive_url
load-archived cfg files l p url valid =
    simp (url.of_file, Map.get-set_self) (parse-payload_json p valid)

-- The two records have one payload and differ at most in where it is kept.
pub record Agree (m m' : Materialized) : Type 0 where
  pub same_payload : m'.payload ≡ m.payload
  pub same_intent :
      (record m'.intent {
        payload_ref = m.intent.payload_ref;
        payload_storage = m.intent.payload_storage;
      })
      ≡ m.intent

abbrev pub Reads : Materialized → Outcome Materialized → Type 0
Reads m o = (m' : Materialized) × (o ≡ done m') × Agree m m'

pub materialize-Backed :
    (cfg : Setting) (s : Store) (r : Stored) (p : Payload) (now : ℕ)
    → IsUrl cfg.platform
    → is_payload p ≡ true
    → Backed cfg s.files r p
    → Reads (build_record r.intent p) (materialize cfg s r now true).0
unfolding materialize build_record archive_url
materialize-Backed cfg s r p now url valid backed =
    maybe_archive_cases cfg s r now true
      (λ x. Reads (build_record r.intent p) (and_then x.0 (load cfg x.1.files)))
      (
        build_record r.intent p,
        load-Backed cfg s.files r p backed,
        record { same_payload = refl; same_intent = refl },
      )
      (λ e q. cc)
      λ p' ref files here at written.
        let same : p' ≡ p = payload_of backed here in
        (
          build_record (archived_as r ref).intent p,
          load-Backed cfg files (archived_as r ref) p (
              inr (
                refl,
                ref,
                rw at (url.is_trimmed _),
                rw (at, written, same)
                    (load-archived cfg s.files (location_of r.intent) p url valid),
              )),
          record { same_payload = refl; same_intent = refl },
        )
  where
    payload_of : {p' : Payload} → Backed cfg s.files r p → r.payload ≡ some p' → p' ≡ p
    payload_of (inl h) here = cc
    payload_of (inr (gone, _, _, _)) here = cc
