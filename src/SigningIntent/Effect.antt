-- ===== src/SigningIntent/Effect.antt =====
-- What the archive does to a store and a record, in the terms that the proofs use.
use aljama_wallet.Base.{
  ℕ, Bool, true, false, ◌≡◌, refl, inl, inr, some, Text, text_eq, Bool-cases, Option-cases, Outcome,
  done, thrown,
}
use aljama_wallet.SigningIntent.{Payload, Stored}
use aljama_wallet.SigningIntent.Archive.{
  Files, archive_url, archive_payload, should_archive, location_of,
}
use aljama_wallet.SigningIntent.Memory.{
  Setting, Store, put, archived_as, finish_archive, maybe_archive, materialize,
}

abbrev pub id_of : Stored → Text
id_of r = r.intent.id

module _ {κ} (cfg : Setting) (s : Store) (r : Stored) (now : ℕ) where
  -- A record stays as it is, or it is put in place without its payload, which is in the files.
  pub maybe_archive_cases :
      (writes : Bool) (P : Outcome Stored × Store → Type κ)
      → P (done r, s)
      → ((e : Text) → writes ≡ false → P (thrown e, s))
      → ((p : Payload) (url : Text) (files : Files)
          → r.payload ≡ some p
          → (url ≡ archive_url cfg.platform (location_of r.intent) p)
          → (files ≡ (archive_payload cfg.platform s.files (location_of r.intent) p true).1)
          → P (done (archived_as r url), put (record s { files = files }) (archived_as r url)))
      → P (maybe_archive cfg s r now writes)
  unfolding maybe_archive archive_payload
  maybe_archive_cases writes P same fail archive = elim (Option-cases r.payload) [
    | inl none_left ↦ rw (none_left, maybe_archive) same
    | inr (p, here) ↦
        rw (here, maybe_archive)
          (elim (Bool-cases
            (should_archive cfg.policy r.intent.payload_size_bytes r.intent.created_at now)) [
              | inl due ↦ rw due (write p here writes refl)
              | inr early ↦ rw early same
            ])
  ]
    where
      write :
          (p : Payload)
          → r.payload ≡ some p
          → (w : Bool) → writes ≡ w
          → P (
              finish_archive cfg s r
                (archive_payload cfg.platform s.files (location_of r.intent) p w))
      write p here true q = archive p _ _ here refl refl
      write p here false q = elim (Bool-cases cfg.strict) [
        | inl strict ↦ rw (strict, archive_payload) (fail _ q)
        | inr lax ↦ rw (lax, archive_payload) same
      ]

  -- So its store is the old one, or has the archived record in the record's place.
  pub materialize_store :
      (writes : Bool) (P : Store → Type κ)
      → P s
      → ((url : Text) (files : Files) → P (put (record s { files = files }) (archived_as r url)))
      → P (materialize cfg s r now writes).1
  unfolding materialize
  materialize_store writes P same changed =
      maybe_archive_cases writes (λ x. P x.1) same (λ e _. same)
        λ p url files _ _ _. changed url files
