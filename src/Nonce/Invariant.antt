-- ===== src/Nonce/Invariant.antt =====
-- No nonce is handed out twice: the invariant of the in-memory store, kept by every call.
use aljama_wallet.Base.{
  ℕ, ◌≤◌, ◌<◌, ◌≡◌, ◌≢◌, refl, ap, ◌⊎◌, inl, inr, false, Option, some, List, [], ◌∷◌, arith, Text,
  text_eq, nat_eq, ==_iff, ◌==◌, Option-cases, Bool-cases, normalize_nullable,
}
use aljama_wallet.Base.Map
use aljama_wallet.Base.Map.Values.{
  AllValues, set-AllValues, AllValues-map, get-AllValues, Distinct, set-Distinct, set-Distinct_same,
  not-any-values, AllEntries, set-AllEntries, get-AllEntries,
}
use aljama_wallet.Nonce.{
  Store, NonceState, Reservation, ReserveInput, Call, empty, state_key, baseline, is_taken,
  baseline_nonce, insert_reservation, new_reservation, double_suc, has_nonce, next_state,
  reserve_new, reserve_wallet_nonce, update_reservation, Updates, mark_loop, mark_listed,
  update_by_tx_hashes, visit, release_reservation, mark_failed, mark_submitted, step, run,
  ChainReply, is_listed, normalized_hashes, Status, set_status, submission, reserve, release,
  submit, fail, confirm_by_hash, fail_by_hash, submit_by_hash, fail_by_hashes, reset,
}
use aljama_wallet.Nonce.Reserve.{reserve_cases, reserve_new_cases, refused, taken, fresh}

-- What no two reservations share.
abbrev pub slot : Reservation → Text × ℕ × ℕ
slot r = (r.wallet_id, r.chain_id, r.nonce)

-- From 2^53 on a counter cannot move: `n + 1` is rounded.
abbrev pub stuck : ℕ
stuck = 9007199254740992

-- The counter of the reservation's wallet and chain has passed its nonce, or is stuck.
abbrev pub Passed : Map.Map Text NonceState → Reservation → Type 0
Passed states r =
    (st : NonceState) × (Map.get states (state_key r.wallet_id r.chain_id) ≡ some st)
    × ((r.nonce < st.next_nonce) ⊎ (stuck ≤ st.next_nonce))

pub record Inv (s : Store) : Type 0 where
  pub distinct : Distinct slot s.reservations
  pub passed : AllValues (Passed s.states) s.reservations
  pub keyed : AllEntries (λ k r. r.id ≡ k) s.reservations

pub empty-Inv : Inv empty
empty-Inv = record { distinct = tt; passed = tt; keyed = tt }

pub le-baseline :
    (s : Store) (i : ReserveInput) (pending : ℕ) (st : NonceState)
    → Map.get s.states (state_key i.wallet_id i.chain_id) ≡ some st
    → st.next_nonce ≤ baseline s i pending
unfolding baseline_nonce
le-baseline s i pending st g = rw g (omega arith)

slot-ne :
    (i : ReserveInput) (n : ℕ) (r : Reservation)
    → has_nonce i.wallet_id i.chain_id n r ≡ false
    → slot r ≢ (i.wallet_id, i.chain_id, n)
slot-ne i n r h e =
    ground
      (arith, ==_iff r.wallet_id i.wallet_id, ap (λ p. p.0) e, ap (λ p. p.1) e, ap (λ p. p.2) e)

module _ (s : Store) (i : ReserveInput) (pending n : ℕ) (uuid : Text) (now : ℕ)
    (above : baseline s i pending ≤ n) where
  Passed-insert :
      (r : Reservation) → Passed s.states r → Passed (insert_reservation s i n uuid now).states r
  unfolding insert_reservation double_suc
  Passed-insert r (st, g, le) =
      let key = state_key i.wallet_id i.chain_id in
      let key_r = state_key r.wallet_id r.chain_id in
      elim (Bool-cases (key == key_r)) [
        | inl same ↦ (
          next_state s i n now,
          simp (Map.get-set, same),
          ground (arith, le-baseline s i pending st (rw ((==_iff key key_r).0 same) g)),
        )
        | inr other ↦ (st, simp (Map.get-set, other) g, le)
      ]

  Passed-new : Passed (insert_reservation s i n uuid now).states (new_reservation i n uuid now)
  unfolding insert_reservation double_suc
  Passed-new = (next_state s i n now, Map.get-set_self _ _ _, ground arith)

  insert-Inv : Inv s → is_taken s i n ≡ false → Inv (insert_reservation s i n uuid now)
  unfolding insert_reservation
  insert-Inv v unused = record {
    distinct = set-Distinct slot s.reservations _ _ v.distinct (
        AllValues-map (slot-ne i n) s.reservations
          (not-any-values (has_nonce i.wallet_id i.chain_id n) s.reservations unused));
    passed =
        set-AllValues _ s.reservations _ _ (AllValues-map Passed-insert s.reservations v.passed)
          Passed-new;
    keyed = set-AllEntries _ s.reservations _ _ v.keyed refl;
  }

reserve_new-Inv :
    (s : Store) (i : ReserveInput) (pending : ℕ) (requested : Option ℕ) (uuid : Text) (now : ℕ)
    → Inv s
    → Inv (reserve_new s i pending requested uuid now).1
reserve_new-Inv s i pending requested uuid now v =
    elim (reserve_new_cases s i pending requested uuid now) [
      | refused n given low e ↦ rw e v
      | taken n above used e ↦ rw e v
      | fresh n above given unused e ↦ rw e (insert-Inv s i pending n uuid now above v unused)
    ]

reserve_wallet_nonce-Inv :
    (s : Store) (i : ReserveInput) (reply : ChainReply) (uuid : Text) (now : ℕ)
    → Inv s
    → Inv (reserve_wallet_nonce s i reply uuid now).1
reserve_wallet_nonce-Inv s i reply uuid now v =
    reserve_cases s i reply uuid now (λ r. Inv r.1) (λ e _. v) (λ r _. v)
      λ pending requested _ _ _. reserve_new-Inv s i pending requested uuid now v

-- An update keeps the slot of the reservation, so it keeps the invariant.
pub update_reservation-Inv :
    (s : Store) (id : Text) (u : Updates) (now : ℕ) → Inv s → Inv (update_reservation s id u now).1
unfolding update_reservation
update_reservation-Inv s id u now v = elim (Option-cases (Map.get s.reservations id)) [
  | inl missing ↦ rw (missing, update_reservation) v
  | inr (r, found) ↦
      rw (found, update_reservation)
        (record {
          distinct = set-Distinct_same slot s.reservations id r _ v.distinct found refl;
          passed =
              set-AllValues (Passed s.states) s.reservations id _ v.passed
                (get-AllValues (Passed s.states) s.reservations id r v.passed found);
          keyed =
              set-AllEntries _ s.reservations id _ v.keyed
                (get-AllEntries (λ k r. r.id ≡ k) s.reservations id r v.keyed found);
        })
]

pub visit-Inv :
    (hashes : List Text) (u : Updates) (now : ℕ) (s : Store) (r : Reservation)
    → Inv s
    → Inv (visit hashes u now s r).1
visit-Inv hashes u now s r v = elim (Bool-cases (is_listed hashes r.tx_hash)) [
  | inl listed ↦ rw listed (update_reservation-Inv s r.id u now v)
  | inr other ↦ rw other v
]

mark_loop-Inv :
    (hashes : List Text) (u : Updates) (now : ℕ) (ks : List Text) (s : Store)
    → Inv s
    → Inv (mark_loop hashes u now ks s).1
unfolding mark_loop
mark_loop-Inv hashes u now [] s v = v
mark_loop-Inv hashes u now (k ∷ ks) s v = elim (Option-cases (Map.get s.reservations k)) [
  | inl gone ↦ rw (gone, mark_loop) (mark_loop-Inv hashes u now ks s v)
  | inr (r, found) ↦
      rw (found, mark_loop)
        (mark_loop-Inv hashes u now ks (visit hashes u now s r).1 (visit-Inv hashes u now s r v))
]

mark_listed-Inv :
    (hs : List Text) (st : Status) (now : ℕ) (s : Store) → Inv s → Inv (mark_listed hs st now s).1
unfolding mark_listed
mark_listed-Inv [] st now s v = v
mark_listed-Inv (h ∷ hs) st now s v =
    mark_loop-Inv (h ∷ hs) (set_status st) now (Map.keys s.reservations) s v

update_by_tx_hashes-Inv :
    (s : Store) (hs : List Text) (st : Status) (now : ℕ)
    → Inv s
    → Inv (update_by_tx_hashes s hs st now).1
unfolding update_by_tx_hashes
update_by_tx_hashes-Inv s hs st now v = mark_listed-Inv (normalized_hashes hs) st now s v

mark_submitted-Inv :
    (s : Store) (id hash : Text) (now : ℕ) → Inv s → Inv (mark_submitted s id hash now).1
unfolding mark_submitted
mark_submitted-Inv s id hash now v = elim (Option-cases (normalize_nullable (some hash))) [
  | inl blank ↦ rw (blank, mark_submitted) v
  | inr (h, full) ↦ rw (full, mark_submitted) (update_reservation-Inv s id (submission h) now v)
]

pub step-Inv : (s : Store) (c : ℕ × Call) → Inv s → Inv (step s c)
unfolding step release_reservation mark_failed
step-Inv s (now, reserve i reply uuid) v = reserve_wallet_nonce-Inv s i reply uuid now v
step-Inv s (now, release id) v = update_reservation-Inv s id _ now v
step-Inv s (now, submit id hash) v = mark_submitted-Inv s id hash now v
step-Inv s (now, fail id) v = update_reservation-Inv s id _ now v
step-Inv s (now, confirm_by_hash h) v = update_by_tx_hashes-Inv s _ _ now v
step-Inv s (now, fail_by_hash h) v = update_by_tx_hashes-Inv s _ _ now v
step-Inv s (now, submit_by_hash h) v = update_by_tx_hashes-Inv s _ _ now v
step-Inv s (now, fail_by_hashes hs) v = update_by_tx_hashes-Inv s _ _ now v
step-Inv s (now, reset) v = empty-Inv

run-Inv_from : (s : Store) (cs : List (ℕ × Call)) → Inv s → Inv (run s cs)
unfolding run
run-Inv_from s [] v = v
run-Inv_from s (c ∷ cs) v = run-Inv_from (step s c) cs (step-Inv s c v)

-- After any sequence of calls on the empty store no two reservations, whatever became of them,
-- have the same wallet, chain and nonce; each nonce has been passed by the counter of its wallet and
-- chain, unless that has come to 2^53; and each reservation stands under its own id.
pub run-Inv : (cs : List (ℕ × Call)) → Inv (run empty cs)
run-Inv cs = run-Inv_from empty cs empty-Inv
