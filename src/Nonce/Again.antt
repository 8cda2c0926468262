-- ===== src/Nonce/Again.antt =====
-- A second reservation for an action, and a reservation after one that was released.
use aljama_wallet.Base.{
  ℕ, ◌≤◌, ◌<◌, ◌≡◌, ap, sym, ◌∙◌, ◌⊎◌, Option, none, some, Text, text_eq, nat_eq, ==_refl,
}
use aljama_wallet.Base.Map
use aljama_wallet.Base.Map.Values.{get-AllValues, find-values-set}
use aljama_wallet.Nonce.Update.{update_reservation_lem}
use aljama_wallet.Nonce.{
  update_reservation, apply_updates, set_status, released, Store, Reservation, ReserveInput, Result,
  ok, insert_reservation, new_reservation, has_action, reserve_in_memory, reserve_wallet_nonce,
  release_reservation, find_by_action, check_requested, read_chain_pending_nonce, ChainReply,
  reservation_id, action_key,
}
use aljama_wallet.Nonce.Reserve.{reserve_cases, reserve_new_cases, refused, taken, fresh}
use aljama_wallet.Nonce.Invariant.{Inv, stuck, update_reservation-Inv}
use aljama_wallet.Nonce.Fresh.{Below, reserve-IsFresh}

-- A new reservation is the one that its action finds.
insert-found :
    (s : Store) (i : ReserveInput) (n : ℕ) (uuid : Text) (now : ℕ)
    → find_by_action s i.wallet_id i.chain_id i.action_id ≡ none
    → find_by_action (insert_reservation s i n uuid now) i.wallet_id i.chain_id i.action_id
      ≡ some (new_reservation i n uuid now)
unfolding find_by_action insert_reservation
insert-found s i n uuid now none_yet =
    find-values-set (has_action i.wallet_id i.chain_id i.action_id) s.reservations
      (reservation_id uuid) (new_reservation i n uuid now) none_yet
      (==_refl (action_key i.wallet_id i.chain_id i.action_id))

module _ (s : Store) (i : ReserveInput) (reply : ChainReply) (uuid : Text) (now : ℕ)
    (r : Reservation) (s' : Store) where
  abbrev Found : Store → Reservation → Type 0
  Found t q = find_by_action t i.wallet_id i.chain_id i.action_id ≡ some q

  moved :
      (q : Reservation) (t : Store)
      → Found t q
      → ◌≡◌ {A = Result Reservation × Store} (ok q, t) (ok r, s')
      → Found s' r
  moved q t f h =
      let same_r : q ≡ r = cc (ap (λ p. p.0) h) in
      let same_s : t ≡ s' = ap (λ p. p.1) h in rw (← same_s, ← same_r) f

  reserve-Found : reserve_wallet_nonce s i reply uuid now ≡ (ok r, s') → Found s' r
  reserve-Found =
      reserve_cases s i reply uuid now (λ q. q ≡ (ok r, s') → Found s' r)
        (λ e _ h. cc (ap (λ p. p.0) h)) (λ q found. moved q s found)
        λ pending requested _ _ none_yet h.
          elim (reserve_new_cases s i pending requested uuid now) [
            | refused n given low q ↦ cc (ap (λ p. p.0) (sym q ∙ h))
            | taken n above used q ↦ cc (ap (λ p. p.0) (sym q ∙ h))
            | fresh n above given unused q ↦
                moved (new_reservation i n uuid now) (insert_reservation s i n uuid now)
                  (insert-found s i n uuid now none_yet) (sym q ∙ h)
          ]

-- A second call for an action that has a reservation, whatever else it asks for, returns that
-- reservation and changes nothing, once its request and the chain's reply pass their checks.
pub reserve_again :
    (s : Store) (i : ReserveInput) (reply : ChainReply) (uuid : Text) (now : ℕ) (r : Reservation)
    (s' : Store) (j : ReserveInput) (requested : Option ℕ) (later : ChainReply) (pending : ℕ)
    (uuid' : Text) (now' : ℕ)
    → reserve_wallet_nonce s i reply uuid now ≡ (ok r, s')
    → j.wallet_id ≡ i.wallet_id
    → j.chain_id ≡ i.chain_id
    → j.action_id ≡ i.action_id
    → check_requested j.requested_nonce ≡ ok requested
    → read_chain_pending_nonce later ≡ ok pending
    → reserve_wallet_nonce s' j later uuid' now' ≡ (ok r, s')
unfolding reserve_wallet_nonce reserve_in_memory
reserve_again s i reply uuid now r s' j requested later pending uuid' now' h w c a checked read =
    let found : find_by_action s' j.wallet_id j.chain_id j.action_id ≡ some r =
      rw (w, c, a) (reserve-Found s i reply uuid now r s' h) in
    rw (checked, reserve_wallet_nonce, read, found, reserve_in_memory)

-- A nonce that is given back is lost. Over a store with the invariant, when a reservation q is
-- released and its wallet then reserves for another action on the same chain, the new nonce is above
-- q's, unless it has come to 2^53; so where the chain still waits for q's nonce, as it does when q's
-- transaction was never sent, it waits for one that no later reservation fills.
pub release-gap :
    (s : Store) (id : Text) (q : Reservation) (t : ℕ) (i : ReserveInput) (reply : ChainReply)
    (uuid : Text) (now : ℕ) (r : Reservation) (s' : Store)
    → Inv s
    → Map.get s.reservations id ≡ some q
    → i.wallet_id ≡ q.wallet_id
    → i.chain_id ≡ q.chain_id
    → find_by_action (release_reservation s id t).1 i.wallet_id i.chain_id i.action_id ≡ none
    → reserve_wallet_nonce (release_reservation s id t).1 i reply uuid now ≡ (ok r, s')
    → (q.nonce < r.nonce) ⊎ (stuck ≤ r.nonce)
unfolding release_reservation
release-gap s id q t i reply uuid now r s' v held w c none_yet h =
    let s1 : Store = (update_reservation s id (set_status released) t).1 in
    let f =
      reserve-IsFresh s1 i reply uuid now r s' (update_reservation-Inv s id _ t v) none_yet h in
    let q' : Reservation = apply_updates (set_status released) t q in
    let held' : Map.get s1.reservations id ≡ some q' =
      update_reservation_lem s id (set_status released) t id ∙ simp (==_refl, held) in
    get-AllValues (Below i r.nonce) s1.reservations id q' f.above_all held' (sym w) (sym c)
