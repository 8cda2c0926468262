-- ===== src/SigningIntent/Race.antt =====
-- Two calls of services/signing-intent.service.ts whose awaits interleave: a read that waits for the disk
-- while a claim runs to its end, and then puts the archived record in place.
use aljama_wallet.Base.{
  ℕ, Bool, ◌≡◌, refl, inl, inr, Option, none, some, Text, text_eq, Bool-cases, Option-cases,
  Outcome, done, filter, sort_up, head, if◌then◌else◌,
}
use aljama_wallet.Base.Map
use aljama_wallet.Base.Map.{Map}
use aljama_wallet.Base.Map.Keyed.{Keyed}
use aljama_wallet.SigningIntent.{Payload, Stored}
use aljama_wallet.SigningIntent.Archive.{location_of, archive_payload, should_archive}
use aljama_wallet.SigningIntent.Memory.{
  Setting, Store, finish_archive, maybe_archive, is_queued, created_of,
}

-- The record of `getWalletSigningIntent` and its payload, if the read comes to wait for the disk.
unfoldable pub begin_read : Setting → Store → Text → ℕ → Option (Stored × Payload)
begin_read cfg s id now = elim (Map.get s.intents id) [
  | none ↦ none
  | some r ↦ elim r.payload [
    | none ↦ none
    | some p ↦
        if should_archive cfg.policy r.intent.payload_size_bytes r.intent.created_at now
        then some (r, p)
        else none
  ]
]

-- What it does behind the await, with the record that it found before it.
unfoldable pub finish_read : Setting → Store → Stored × Payload → Bool → Outcome Stored × Store
finish_read cfg s (r, p) writes =
    finish_archive cfg s r (archive_payload cfg.platform s.files (location_of r.intent) p writes)

-- With nothing in between the two are the archive's step of the read.
uninterrupted :
    (cfg : Setting) (s : Store) (r : Stored) (now : ℕ) (writes : Bool)
    → Map.get s.intents r.intent.id ≡ some r
    → maybe_archive cfg s r now writes ≡ (elim (begin_read cfg s r.intent.id now) [
      | none ↦ (done r, s)
      | some x ↦ finish_read cfg s x writes
    ])
unfolding maybe_archive begin_read finish_read
uninterrupted cfg s r now writes here = elim (Option-cases r.payload) [
  | inl gone ↦ rw (here, begin_read, gone, maybe_archive) refl
  | inr (p, there) ↦
      elim (Bool-cases
        (should_archive cfg.policy r.intent.payload_size_bytes r.intent.created_at now)) [
          | inl due ↦ rw (here, begin_read, there, due, maybe_archive, finish_read) refl
          | inr early ↦ rw (here, begin_read, there, early, maybe_archive) refl
        ]
]

abbrev queue_of : Map Text Stored → Option Stored
queue_of m = head (sort_up created_of (filter is_queued (Map.values m)))
