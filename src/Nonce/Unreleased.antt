-- ===== src/Nonce/Unreleased.antt =====
-- Which operations of services/nonce-reservation.service.ts do not release a reservation.
use aljama_wallet.Base.{
  ℕ, ◌≢◌, inl, inr, ◌⊎◌, ◌≡◌, refl, some, List, [], ◌∷◌, Text, text_eq, ◌==◌, ==_iff, Bool-cases,
  Option-cases, or_else, Whenever, normalize_nullable,
}
use aljama_wallet.Base.Map
use aljama_wallet.Nonce.{
  Error, Result, ok, err, Status, released, failed, Reservation, Store, Updates, set_status,
  submission, update_reservation, mark_failed, mark_submitted, is_listed, visit, mark_loop,
  mark_listed, normalized_hashes, update_by_tx_hashes, mark_failed_by_hashes,
}

-- The reservation under the id, if there is one, is not released.
abbrev pub Unreleased : Store → Text → Type 0
Unreleased s id = Whenever (λ r. r.status ≢ released) (Map.get s.reservations id)

module _ (j : Text) (u : Updates) (now : ℕ)
    (off : (st : Status) → st ≢ released → or_else u.status st ≢ released) where
  pub update_reservation-Unreleased :
      (s : Store) (id : Text) → Unreleased s j → Unreleased (update_reservation s id u now).1 j
  unfolding update_reservation
  update_reservation-Unreleased s id h = elim (Option-cases (Map.get s.reservations id)) [
    | inl missing ↦ rw (missing, update_reservation) h
    | inr (r, here) ↦
        rw (here, update_reservation)
          (elim (Bool-cases (id == j)) [
            | inl same ↦
                rw (Map.get-set, same) (off r.status (rw (← (==_iff id j).0 same, here) at h))
            | inr other ↦ rw (Map.get-set, other) h
          ])
  ]

  visit-Unreleased :
      (hashes : List Text) (s : Store) (r : Reservation)
      → Unreleased s j
      → Unreleased (visit hashes u now s r).1 j
  visit-Unreleased hashes s r h = elim (Bool-cases (is_listed hashes r.tx_hash)) [
    | inl listed ↦ rw listed (update_reservation-Unreleased s r.id h)
    | inr other ↦ rw other h
  ]

  mark_loop-Unreleased :
      (hashes ks : List Text) (s : Store)
      → Unreleased s j
      → Unreleased (mark_loop hashes u now ks s).1 j
  unfolding mark_loop
  mark_loop-Unreleased hashes [] s h = h
  mark_loop-Unreleased hashes (k ∷ ks) s h = elim (Option-cases (Map.get s.reservations k)) [
    | inl gone ↦ rw (gone, mark_loop) (mark_loop-Unreleased hashes ks s h)
    | inr (r, found) ↦
        rw (found, mark_loop)
          (mark_loop-Unreleased hashes ks (visit hashes u now s r).1
            (visit-Unreleased hashes s r h))
  ]

set_failed-off : (st : Status) → st ≢ released → or_else (set_status failed).status st ≢ released
set_failed-off st h = λ e. cc

pub mark_failed-Unreleased :
    (s : Store) (id j : Text) (now : ℕ) → Unreleased s j → Unreleased (mark_failed s id now).1 j
unfolding mark_failed
mark_failed-Unreleased s id j now h =
    update_reservation-Unreleased j (set_status failed) now set_failed-off s id h

pub mark_submitted-Unreleased :
    (s : Store) (id hash j : Text) (now : ℕ)
    → Unreleased s j
    → Unreleased (mark_submitted s id hash now).1 j
unfolding mark_submitted
mark_submitted-Unreleased s id hash j now h = elim (Option-cases (normalize_nullable (some hash))) [
  | inl blank ↦ rw (blank, mark_submitted) h
  | inr (t, full) ↦
      rw (full, mark_submitted)
        (update_reservation-Unreleased j (submission t) now (λ st _ e. cc) s id h)
]

listed-Unreleased :
    (hashes : List Text) (s : Store) (j : Text) (now : ℕ)
    → Unreleased s j
    → Unreleased (mark_listed hashes failed now s).1 j
unfolding mark_listed
listed-Unreleased [] s j now h = h
listed-Unreleased (k ∷ ks) s j now h =
    mark_loop-Unreleased j (set_status failed) now set_failed-off (k ∷ ks) (Map.keys s.reservations)
      s h

pub failed_by_hashes-Unreleased :
    (s : Store) (hashes : List Text) (j : Text) (now : ℕ)
    → Unreleased s j
    → Unreleased (mark_failed_by_hashes s hashes now).1 j
unfolding update_by_tx_hashes
failed_by_hashes-Unreleased s hashes j now h =
    listed-Unreleased (normalized_hashes hashes) s j now h

pub Result-cases :
    {A : Type 0} (o : Result A) → ((a : A) × (o ≡ ok a)) ⊎ ((e : Error) × (o ≡ err e))
Result-cases (ok a) = inl (a, refl)
Result-cases (err e) = inr (e, refl)
