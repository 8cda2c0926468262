-- ===== src/Nonce/Update.antt =====
-- The updates of reservations: by id, and by the hash of the transaction that used the nonce.
use aljama_wallet.Base.{
  ℕ, ◌≡◌, refl, ap, sym, ◌∙◌, inl, inr, false, Option, none, some, List, [], ◌∷◌, arith, Text,
  text_eq, ==_iff, ◌==◌, Option-cases, Bool-cases, if◌then◌else◌, includes,
}
use mathlib.Core.Option
use aljama_wallet.Base.Map
use aljama_wallet.Base.Map.Values.{get-AllEntries}
use aljama_wallet.Nonce.{
  Store, Reservation, Status, Updates, set_status, apply_updates, update_reservation, visit,
  mark_loop, mark_listed, update_by_tx_hashes, is_listed, normalized_hashes,
}
use aljama_wallet.Nonce.Invariant.{Inv, visit-Inv}

-- The reservation under an id, and nothing else, takes the updates; under an id that is missing
-- nothing changes.
pub update_reservation_lem :
    (s : Store) (id : Text) (u : Updates) (now : ℕ) (k : Text)
    → Map.get (update_reservation s id u now).1.reservations k ≡ (
        if id == k
        then Option.map (apply_updates u now) (Map.get s.reservations k)
        else Map.get s.reservations k)
unfolding update_reservation
update_reservation_lem s id u now k = elim (Option-cases (Map.get s.reservations id)) [
  | inl missing ↦
      rw (missing, update_reservation)
        (ground (arith, ==_iff id k, λ (e : id ≡ k). ap (Map.get s.reservations) e))
  | inr (r, found) ↦
      rw (found, update_reservation)
        (simp Map.get-set
          (ground (arith, ==_iff id k, λ (e : id ≡ k). ap (Map.get s.reservations) e)))
]

-- What the marking of a list of hashes does to one reservation.
abbrev pub mark : List Text → Status → ℕ → Reservation → Reservation
mark hashes st now r = if is_listed hashes r.tx_hash then apply_updates (set_status st) now r else r

mark-mark :
    (hashes : List Text) (st : Status) (now : ℕ) (r : Reservation)
    → mark hashes st now (mark hashes st now r) ≡ mark hashes st now r
mark-mark hashes st now r = elim (Bool-cases (is_listed hashes r.tx_hash)) [
  | inl listed ↦ simp listed
  | inr other ↦ simp other
]

module _ (hashes : List Text) (st : Status) (now : ℕ) where
  visit_lem :
      (s : Store) (id k : Text) (r : Reservation)
      → Map.get s.reservations id ≡ some r
      → r.id ≡ id
      → Map.get (visit hashes (set_status st) now s r).1.reservations k ≡ (
          if id == k
          then Option.map (mark hashes st now) (Map.get s.reservations k)
          else Map.get s.reservations k)
  visit_lem s id k r found same = elim (Bool-cases (is_listed hashes r.tx_hash)) [
    | inl listed ↦
        rw (listed, update_reservation_lem s r.id (set_status st) now k, same)
          (elim (Bool-cases (id == k)) [
            | inl here ↦
                let f : Map.get s.reservations k ≡ some r = rw (← (==_iff id k).0 here) found in
                simp (here, f, listed)
            | inr there ↦ simp there
          ])
    | inr other ↦ rw other (elim (Bool-cases (id == k)) [
      | inl here ↦
          let f : Map.get s.reservations k ≡ some r = rw (← (==_iff id k).0 here) found in
          simp (here, f, other)
      | inr there ↦ simp there
    ])
  ]

  map-mark_idem :
      (o : Option Reservation)
      → Option.map (mark hashes st now) (Option.map (mark hashes st now) o)
        ≡ Option.map (mark hashes st now) o
  map-mark_idem none = refl
  map-mark_idem (some r) = ap some (mark-mark hashes st now r)

  mark_loop_lem :
      (ks : List Text) (s : Store) (k : Text)
      → Inv s
      → Map.get (mark_loop hashes (set_status st) now ks s).1.reservations k ≡ (
          if includes ks k
          then Option.map (mark hashes st now) (Map.get s.reservations k)
          else Map.get s.reservations k)
  unfolding mark_loop
  mark_loop_lem [] s k v = refl
  mark_loop_lem (j ∷ ks) s k v = elim (Option-cases (Map.get s.reservations j)) [
    | inl gone ↦
        rw (gone, mark_loop, mark_loop_lem ks s k v)
          (elim (Bool-cases (j == k)) [
            | inl here ↦
                let f : Map.get s.reservations k ≡ none = rw (← (==_iff j k).0 here) gone in
                rw (here, f) (ground arith)
            | inr there ↦ rw there
          ])
    | inr (r, found) ↦
        let s' = (visit hashes (set_status st) now s r).1 in
        rw
          (
            found,
            mark_loop,
            mark_loop_lem ks s' k (visit-Inv hashes (set_status st) now s r v),
            visit_lem s j k r found
                (get-AllEntries (λ i q. q.id ≡ i) s.reservations j r v.keyed found),
          )
          (elim (Bool-cases (j == k)) [
            | inl here ↦ rw (here, map-mark_idem (Map.get s.reservations k)) (ground arith)
            | inr there ↦ rw there
          ])
  ]

get-not_key :
    (m : Map.Map Text Reservation) (k : Text) → includes (Map.keys m) k ≡ false → Map.get m k ≡ none
unfolding Map.get
get-not_key [] k h = refl
get-not_key ((j, r) ∷ m) k h = ground (arith, get-not_key m k)

map-mark_nothing :
    (st : Status) (now : ℕ) (o : Option Reservation) → Option.map (mark [] st now) o ≡ o
map-mark_nothing st now none = refl
map-mark_nothing st now (some r) = elim (Option-cases r.tx_hash) [
  | inl e ↦ simp e
  | inr (h, e) ↦ simp e
]

mark_listed_lem :
    (hashes : List Text) (st : Status) (now : ℕ) (s : Store) (k : Text)
    → Inv s
    → Map.get (mark_listed hashes st now s).1.reservations k
      ≡ Option.map (mark hashes st now) (Map.get s.reservations k)
unfolding mark_listed
mark_listed_lem [] st now s k v = sym (map-mark_nothing st now (Map.get s.reservations k))
mark_listed_lem (h ∷ hs) st now s k v =
    mark_loop_lem (h ∷ hs) st now (Map.keys s.reservations) s k v
    ∙ elim (Bool-cases (includes (Map.keys s.reservations) k)) [
      | inl key ↦ rw key
      | inr other ↦ rw (other, get-not_key s.reservations k other)
    ]

-- The update by transaction hashes, over a store with the invariant: every reservation with one of
-- the hashes, trimmed, takes the status and keeps all else but its time stamp, and every other
-- reservation stays as it is; none comes or goes.
pub update_by_tx_hashes_lem :
    (s : Store) (tx_hashes : List Text) (st : Status) (now : ℕ) (k : Text)
    → Inv s
    → Map.get (update_by_tx_hashes s tx_hashes st now).1.reservations k
      ≡ Option.map (mark (normalized_hashes tx_hashes) st now) (Map.get s.reservations k)
unfolding update_by_tx_hashes
update_by_tx_hashes_lem s tx_hashes st now k v =
    mark_listed_lem (normalized_hashes tx_hashes) st now s k v
