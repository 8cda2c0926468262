-- ===== src/Nonce/Fresh.antt =====
-- What a new reservation promises over the store that it is made in, and when two nonces clash
-- (`reserveWalletNonce` in memory).
use aljama_wallet.Base.{
  ℕ, ◌≤◌, ◌<◌, ◌≡◌, refl, ap, sym, ◌∙◌, ◌⊎◌, true, Option, none, some, arith, Text, text_eq, nat_eq,
  ==_iff, or_else, Number, int, pos,
}
use aljama_wallet.Base.Map
use aljama_wallet.Base.Map.Values.{AllValues, AllValues-map, any-values}
use aljama_wallet.Nonce.{
  baseline_nonce, Store, NonceState, Reservation, ReserveInput, ok, err, Error,
  invalid_requested_nonce, invalid_chain_nonce, provider_failed, nonce_already_reserved, state_key,
  baseline, is_taken, insert_reservation, new_reservation, has_nonce, reserve_new,
  reserve_wallet_nonce, find_by_action, check_requested, assert_nonce, read_chain_pending_nonce,
  ChainReply, replied,
}
use aljama_wallet.Nonce.Reserve.{reserve_cases, reserve_new_cases, refused, taken, fresh}
use aljama_wallet.Nonce.Invariant.{Inv, Passed, stuck, le-baseline}

-- The earlier reservation belongs to the wallet and chain, and its nonce is below, or the counter is
-- stuck.
abbrev pub Below : ReserveInput → ℕ → Reservation → Type 0
Below i n q = q.wallet_id ≡ i.wallet_id → q.chain_id ≡ i.chain_id → (q.nonce < n) ⊎ (stuck ≤ n)

Below-of_Passed :
    (s : Store) (i : ReserveInput) (pending n : ℕ)
    → baseline s i pending ≤ n
    → (q : Reservation) → Passed s.states q
    → Below i n q
Below-of_Passed s i pending n above q (st, g, le) w c =
    ground (arith, le-baseline s i pending st (rw (← w, ← c) g))

-- What is promised of the reservation r, made for the input i over the store s.
pub record IsFresh (s : Store) (i : ReserveInput) (reply : ChainReply) (uuid : Text) (now : ℕ)
    (r : Reservation) (s' : Store) : Type 0 where
  pub above_chain : (p : ℕ) → reply ≡ replied (int (pos p)) → p ≤ r.nonce
  pub as_requested : (n : ℕ) → i.requested_nonce ≡ some (int (pos n)) → r.nonce ≡ n
  pub above_all : AllValues (Below i r.nonce) s.reservations
  pub made : r ≡ new_reservation i r.nonce uuid now
  pub stored : s' ≡ insert_reservation s i r.nonce uuid now

read_pending-eq :
    (reply : ChainReply) (pending p : ℕ)
    → read_chain_pending_nonce reply ≡ ok pending
    → reply ≡ replied (int (pos p))
    → pending ≡ p
unfolding read_chain_pending_nonce assert_nonce
read_pending-eq reply pending p h e = let h' = rw e at h in ground arith

check_requested-eq :
    (x : Option Number) (requested : Option ℕ) (n : ℕ)
    → check_requested x ≡ ok requested
    → x ≡ some (int (pos n))
    → requested ≡ some n
unfolding check_requested assert_nonce
check_requested-eq x requested n h e = let h' = rw e at h in ground arith

pending-le : (s : Store) (i : ReserveInput) (pending : ℕ) → pending ≤ baseline s i pending
unfolding baseline_nonce
pending-le s i pending = ground arith

module _ (s : Store) (i : ReserveInput) (reply : ChainReply) (uuid : Text) (now : ℕ) (v : Inv s)
    (none_yet : find_by_action s i.wallet_id i.chain_id i.action_id ≡ none) where
  new-IsFresh :
      (pending : ℕ) (requested : Option ℕ) (n : ℕ)
      → check_requested i.requested_nonce ≡ ok requested
      → read_chain_pending_nonce reply ≡ ok pending
      → baseline s i pending ≤ n
      → or_else requested (baseline s i pending) ≡ n
      → IsFresh s i reply uuid now
          (new_reservation i n uuid now)
          (insert_reservation s i n uuid now)
  new-IsFresh pending requested n checked read above given = record {
    above_chain =
        λ p e. omega (arith, read_pending-eq reply pending p read e, pending-le s i pending);
    as_requested = λ m e.
        let q = check_requested-eq i.requested_nonce requested m checked e in
        sym given ∙ ap (λ o. or_else o (baseline s i pending)) q;
    above_all = AllValues-map (Below-of_Passed s i pending n above) s.reservations v.passed;
    made = refl;
    stored = refl;
  }

  reserve_new-IsFresh :
      (pending : ℕ) (requested : Option ℕ) (r : Reservation) (s' : Store)
      → check_requested i.requested_nonce ≡ ok requested
      → read_chain_pending_nonce reply ≡ ok pending
      → reserve_new s i pending requested uuid now ≡ (ok r, s')
      → IsFresh s i reply uuid now r s'
  reserve_new-IsFresh pending requested r s' checked read e =
      elim (reserve_new_cases s i pending requested uuid now) [
        | refused n given low q ↦ cc (ap (λ p. p.0) (sym q ∙ e))
        | taken n above used q ↦ cc (ap (λ p. p.0) (sym q ∙ e))
        | fresh n above given unused q ↦
            let h = sym q ∙ e in
            let same_r : new_reservation i n uuid now ≡ r = cc (ap (λ p. p.0) h) in
            rw (← same_r, ← ap (λ p. p.1) h)
              (new-IsFresh pending requested n checked read above given)
      ]

-- A reservation for an action with no earlier one, over a store with the invariant, when it
-- succeeds: its nonce is at least what the chain gives as pending and, where one is asked for, that
-- one; it is above every nonce that the wallet has reserved on the chain, released and failed ones
-- included, unless it has come to 2^53; the record is RESERVED with no hash; and the store has it
-- under its id, with the counter moved behind it.
pub reserve-IsFresh :
    (s : Store) (i : ReserveInput) (reply : ChainReply) (uuid : Text) (now : ℕ) (r : Reservation)
    (s' : Store)
    → Inv s
    → find_by_action s i.wallet_id i.chain_id i.action_id ≡ none
    → reserve_wallet_nonce s i reply uuid now ≡ (ok r, s')
    → IsFresh s i reply uuid now r s'
reserve-IsFresh s i reply uuid now r s' v none_yet =
    reserve_cases s i reply uuid now (λ q. q ≡ (ok r, s') → IsFresh s i reply uuid now r s')
      (λ e _ h. cc (ap (λ p. p.0) h)) (λ q found h. cc (sym found ∙ none_yet))
      λ pending requested checked read _.
        reserve_new-IsFresh s i reply uuid now v none_yet pending requested r s' checked read

check_requested_err :
    (x : Option Number) (e : Error) → check_requested x ≡ err e → e ≡ invalid_requested_nonce
unfolding check_requested assert_nonce
check_requested_err x e h = ground arith

read_pending_err :
    (reply : ChainReply) (e : Error)
    → read_chain_pending_nonce reply ≡ err e
    → (e ≡ invalid_chain_nonce) ⊎ (e ≡ provider_failed)
unfolding read_chain_pending_nonce assert_nonce
read_pending_err reply e h = ground arith

-- The counter of the wallet and chain has come to 2^53.
abbrev pub IsStuck : Store → ReserveInput → Type 0
IsStuck s i =
    (st : NonceState) × (Map.get s.states (state_key i.wallet_id i.chain_id) ≡ some st)
    × (stuck ≤ st.next_nonce)

module _ (s : Store) (i : ReserveInput) (v : Inv s) where
  -- A nonce that is taken belongs to a counter that is stuck.
  taken-IsStuck : (pending n : ℕ) → baseline s i pending ≤ n → is_taken s i n ≡ true → IsStuck s i
  taken-IsStuck pending n above used =
      let (q, (st, g, le), hit) =
        any-values (Passed s.states) (has_nonce i.wallet_id i.chain_id n) s.reservations v.passed
          used in
      let w : q.wallet_id ≡ i.wallet_id = ground (arith, ==_iff q.wallet_id i.wallet_id) in
      let c : q.chain_id ≡ i.chain_id = ground arith in
      let g' = rw (w, c) at g in (st, g', ground (arith, le-baseline s i pending st g'))

-- In a store with the invariant the clash of two nonces is reported only for a wallet and chain whose
-- counter has come to 2^53.
already_reserved-IsStuck :
    (s : Store) (i : ReserveInput) (reply : ChainReply) (uuid : Text) (now : ℕ)
    → Inv s
    → (reserve_wallet_nonce s i reply uuid now).0 ≡ err nonce_already_reserved
    → IsStuck s i
already_reserved-IsStuck s i reply uuid now v =
    reserve_cases s i reply uuid now (λ q. q.0 ≡ err nonce_already_reserved → IsStuck s i)
      (λ e why h.
        absurd
          (ground (arith, why, check_requested_err i.requested_nonce e, read_pending_err reply e)))
      (λ q found h. cc)
      λ pending requested _ _ _ h. elim (reserve_new_cases s i pending requested uuid now) [
        | refused n given low q ↦ cc (ap (λ p. p.0) q)
        | taken n above used q ↦ taken-IsStuck s i v pending n above used
        | fresh n above given unused q ↦ cc (ap (λ p. p.0) q)
      ]
