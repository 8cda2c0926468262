-- ===== src/Nonce/Reserve.antt =====
-- What a reservation returns and leaves behind (`reserveWalletNonce` in memory).
use aljama_wallet.Base.{
  inl, inr, ◌⊎◌, none, Option-cases, ℕ, ◌≤◌, ◌<◌, ◌≡◌, refl, inl, inr, true, false, Option, none,
  some, arith, ltb, or_else, Text, text_eq, nat_eq, Bool-cases,
}
use aljama_wallet.Nonce.{
  Error, ChainReply, reserve_wallet_nonce, reserve_in_memory, find_by_action, check_requested,
  read_chain_pending_nonce, Store, Reservation, ReserveInput, Result, ok, err, nonce_too_low,
  nonce_already_reserved, reserve_new, choose_nonce, baseline, is_taken, insert_reservation,
  new_reservation,
}

-- The choice respects the counter and the chain, and the request if there is one.
pub data Chosen (base : ℕ) (requested : Option ℕ) (c : Result ℕ) : Type 0 where
  too_low :
      (n : ℕ) → requested ≡ some n → n < base → c ≡ err nonce_too_low → Chosen base requested c
  next : requested ≡ none → c ≡ ok base → Chosen base requested c
  asked : (n : ℕ) → requested ≡ some n → base ≤ n → c ≡ ok n → Chosen base requested c

pub choose_nonce_cases :
    (base : ℕ) (requested : Option ℕ) → Chosen base requested (choose_nonce base requested)
unfolding choose_nonce
choose_nonce_cases base none = next refl refl
choose_nonce_cases base (some n) = elim (Bool-cases (ltb n base)) [
  | inl low ↦ too_low n refl (ground arith) (rw low)
  | inr high ↦ asked n refl (ground arith) (rw high)
]

-- How a reservation ends for which there was none of its action.
pub data Outcome (s : Store) (i : ReserveInput) (pending : ℕ) (requested : Option ℕ) (uuid : Text)
    (now : ℕ) (r : Result Reservation × Store) : Type 0 where
  refused :
      (n : ℕ)
      → requested ≡ some n
      → n < baseline s i pending
      → r ≡ (err nonce_too_low, s)
      → Outcome s i pending requested uuid now r
  taken :
      (n : ℕ)
      → baseline s i pending ≤ n
      → is_taken s i n ≡ true
      → r ≡ (err nonce_already_reserved, s)
      → Outcome s i pending requested uuid now r
  fresh :
      (n : ℕ)
      → baseline s i pending ≤ n
      → or_else requested (baseline s i pending) ≡ n
      → is_taken s i n ≡ false
      → r ≡ (ok (new_reservation i n uuid now), insert_reservation s i n uuid now)
      → Outcome s i pending requested uuid now r

module _ (s : Store) (i : ReserveInput) (pending : ℕ) (requested : Option ℕ) (uuid : Text)
    (now : ℕ) where
  chosen-Outcome :
      (n : ℕ)
      → baseline s i pending ≤ n
      → or_else requested (baseline s i pending) ≡ n
      → choose_nonce (baseline s i pending) requested ≡ ok n
      → Outcome s i pending requested uuid now (reserve_new s i pending requested uuid now)
  unfolding reserve_new
  chosen-Outcome n above given e = elim (Bool-cases (is_taken s i n)) [
    | inl used ↦ taken n above used (rw (e, reserve_new, used))
    | inr unused ↦ fresh n above given unused (rw (e, reserve_new, unused))
  ]

  pub reserve_new_cases :
      Outcome s i pending requested uuid now (reserve_new s i pending requested uuid now)
  unfolding reserve_new
  reserve_new_cases = elim (choose_nonce_cases (baseline s i pending) requested) [
    | too_low n given low e ↦ refused n given low (rw (e, reserve_new))
    | next missing e ↦ chosen-Outcome (baseline s i pending) (omega arith) (rw missing) e
    | asked n given above e ↦ chosen-Outcome n above (rw given) e
  ]

Result-cases {ℓ} :
    {A : Type ℓ} (r : Result A) → ((a : A) × (r ≡ ok a)) ⊎ ((e : Error) × (r ≡ err e))
Result-cases (ok a) = inl (a, refl)
Result-cases (err e) = inr (e, refl)

module _ (s : Store) (i : ReserveInput) (reply : ChainReply) (uuid : Text) (now : ℕ) where
  -- A reservation is refused, or is the earlier one of its action, or comes from the counter.
  pub reserve_cases {ℓ} :
      (P : Result Reservation × Store → Type ℓ)
      → ((e : Error)
          → (check_requested i.requested_nonce ≡ err e) ⊎ (read_chain_pending_nonce reply ≡ err e)
          → P (err e, s))
      → ((r : Reservation)
          → find_by_action s i.wallet_id i.chain_id i.action_id ≡ some r
          → P (ok r, s))
      → ((pending : ℕ) (requested : Option ℕ)
          → check_requested i.requested_nonce ≡ ok requested
          → read_chain_pending_nonce reply ≡ ok pending
          → find_by_action s i.wallet_id i.chain_id i.action_id ≡ none
          → P (reserve_new s i pending requested uuid now))
      → P (reserve_wallet_nonce s i reply uuid now)
  unfolding reserve_wallet_nonce reserve_in_memory
  reserve_cases P bad old new = elim (Result-cases (check_requested i.requested_nonce)) [
    | inr (e, fault) ↦ rw (fault, reserve_wallet_nonce) (bad e (inl fault))
    | inl (requested, checked) ↦ elim (Result-cases (read_chain_pending_nonce reply)) [
      | inr (e, fault) ↦ rw (checked, reserve_wallet_nonce, fault) (bad e (inr fault))
      | inl (pending, read) ↦
          elim (Option-cases (find_by_action s i.wallet_id i.chain_id i.action_id)) [
            | inr (r, found) ↦
                rw (checked, reserve_wallet_nonce, read, found, reserve_in_memory) (old r found)
            | inl none_yet ↦
                rw (checked, reserve_wallet_nonce, read, none_yet, reserve_in_memory)
                  (new pending requested checked read none_yet)
          ]
    ]
  ]
