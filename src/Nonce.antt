-- ===== src/Nonce.antt =====
-- services/nonce-reservation.service.ts on its in-memory store (the service without a Postgres
-- URL): one counter for each wallet and chain, and the reservations made from it.
-- A clock reading and a random UUID are arguments of the operation that reads them.
pub mod Reserve
pub mod Invariant
pub mod Fresh
pub mod Again
pub mod Actions
pub mod Update
pub mod Unreleased
mod Tests
use aljama_wallet.Base.{
  ℕ, suc, ◌+◌, ◌^◌, max, Bool, true, false, ◌&&◌, ◌||◌, Option, none, some, List, [], ◌∷◌, ◌++◌,
  ltb, leb, if◌then◌else◌, or_else, ◌==◌, nat_eq, Text, text, text_eq, normalize_nullable, show,
  find, any, filter, includes, is_some, Number, int, frac, not_finite, pos, negsuc,
  max_safe_integer,
}
use aljama_wallet.Base.Map
use aljama_wallet.Base.Map.{Map}

pub data Status : Type 0 where
  reserved submitted confirmed failed released : Status

pub record NonceState : Type 0 where
  pub wallet_id : Text
  pub chain_id : ℕ
  pub next_nonce : ℕ
  pub created_at : ℕ
  pub updated_at : ℕ

pub record Reservation : Type 0 where
  pub id : Text
  pub wallet_id : Text
  pub chain_id : ℕ
  pub nonce : ℕ
  pub action_id : Text
  pub status : Status
  pub tx_hash : Option Text
  pub created_at : ℕ
  pub updated_at : ℕ

-- `memoryStates` and `memoryReservations`.
pub record Store : Type 0 where
  pub states : Map Text NonceState
  pub reservations : Map Text Reservation

abbrev pub empty : Store
empty = record { states = []; reservations = [] }

pub data Error : Type 0 where
  invalid_requested_nonce invalid_chain_nonce nonce_too_low nonce_already_reserved invalid_tx_hash
        provider_failed :
      Error

pub data Result {ℓ} (A : Type ℓ) : Type ℓ where
  ok : A → Result A
  err : Error → Result A

pub record ReserveInput : Type 0 where
  pub wallet_id : Text
  pub chain_id : ℕ
  pub action_id : Text
  pub requested_nonce : Option Number

-- `${walletId}:${chainId}`
unfoldable pub state_key : Text → ℕ → Text
state_key wallet_id chain_id = wallet_id ++ b':' ∷ show chain_id

-- `${walletId}:${chainId}:${actionId}`
unfoldable pub action_key : Text → ℕ → Text → Text
action_key wallet_id chain_id action_id = wallet_id ++ b':' ∷ (show chain_id ++ b':' ∷ action_id)

-- `assertNonce`: an integer from 0 to the largest safe one.
unfoldable pub assert_nonce : Option Number → Error → Result ℕ
assert_nonce none e = err e
assert_nonce (some not_finite) e = err e
assert_nonce (some (frac _)) e = err e
assert_nonce (some (int (negsuc _))) e = err e
assert_nonce (some (int (pos n))) e = if leb n max_safe_integer then ok n else err e

-- The check of `requestedNonce`, which may be missing.
unfoldable pub check_requested : Option Number → Result (Option ℕ)
unfolding assert_nonce
check_requested none = ok none
check_requested (some x) = elim (assert_nonce (some x) invalid_requested_nonce) [
  | ok n ↦ ok (some n)
  | err e ↦ err e
]

-- What `getTransactionCount(address, 'pending')` comes to: a value, or a rejected promise.
pub data ChainReply : Type 0 where
  replied : Number → ChainReply
  rejected : ChainReply

unfoldable pub read_chain_pending_nonce : ChainReply → Result ℕ
unfolding assert_nonce
read_chain_pending_nonce rejected = err provider_failed
read_chain_pending_nonce (replied x) = assert_nonce (some x) invalid_chain_nonce

abbrev pub has_action : Text → ℕ → Text → Reservation → Bool
has_action wallet_id chain_id action_id r =
    action_key r.wallet_id r.chain_id r.action_id == action_key wallet_id chain_id action_id

unfoldable pub find_by_action : Store → Text → ℕ → Text → Option Reservation
find_by_action s wallet_id chain_id action_id =
    find (has_action wallet_id chain_id action_id) (Map.values s.reservations)

-- `n + 1` on doubles: from 2^53 on the sum is rounded back to an even integer, here to n.
unfoldable pub double_suc : ℕ → ℕ
double_suc n = if ltb n 9007199254740992 then n + 1 else n

unfoldable pub baseline_nonce : Option NonceState → ℕ → ℕ
baseline_nonce none pending = pending
baseline_nonce (some current) pending = max current.next_nonce pending

unfoldable pub choose_nonce : ℕ → Option ℕ → Result ℕ
choose_nonce baseline none = ok baseline
choose_nonce baseline (some requested) =
    if ltb requested baseline then err nonce_too_low else ok requested

abbrev pub has_nonce : Text → ℕ → ℕ → Reservation → Bool
has_nonce wallet_id chain_id nonce r =
    r.wallet_id == wallet_id && (r.chain_id == chain_id && r.nonce == nonce)

abbrev pub created_or : Option NonceState → ℕ → ℕ
created_or none now = now
created_or (some current) now = current.created_at

-- `nonce_${uuid}`
abbrev pub reservation_id : Text → Text
reservation_id uuid = text "nonce_" ++ uuid

abbrev pub new_reservation : ReserveInput → ℕ → Text → ℕ → Reservation
new_reservation input nonce uuid now = record {
  id = reservation_id uuid;
  wallet_id = input.wallet_id;
  chain_id = input.chain_id;
  nonce = nonce;
  action_id = input.action_id;
  status = reserved;
  tx_hash = none;
  created_at = now;
  updated_at = now;
}

-- The counter's entry behind a new reservation.
abbrev pub next_state : Store → ReserveInput → ℕ → ℕ → NonceState
next_state s i nonce now = record {
  wallet_id = i.wallet_id;
  chain_id = i.chain_id;
  next_nonce = double_suc nonce;
  created_at = created_or (Map.get s.states (state_key i.wallet_id i.chain_id)) now;
  updated_at = now;
}

-- Both `set` calls of a new reservation.
unfoldable pub insert_reservation : Store → ReserveInput → ℕ → Text → ℕ → Store
insert_reservation s i nonce uuid now = record {
  states = Map.set s.states (state_key i.wallet_id i.chain_id) (next_state s i nonce now);
  reservations = Map.set s.reservations (reservation_id uuid) (new_reservation i nonce uuid now);
}

abbrev pub baseline : Store → ReserveInput → ℕ → ℕ
baseline s i pending = baseline_nonce (Map.get s.states (state_key i.wallet_id i.chain_id)) pending

abbrev pub is_taken : Store → ReserveInput → ℕ → Bool
is_taken s i nonce = any (has_nonce i.wallet_id i.chain_id nonce) (Map.values s.reservations)

-- The part behind the look-up of the action: each error leaves the store alone.
unfoldable pub reserve_new :
    Store → ReserveInput → ℕ → Option ℕ → Text → ℕ → Result Reservation × Store
reserve_new s input pending requested uuid now =
    elim (choose_nonce (baseline s input pending) requested) [
      | err e ↦ (err e, s)
      | ok nonce ↦ if is_taken s input nonce then (err nonce_already_reserved, s) else (
        ok (new_reservation input nonce uuid now),
        insert_reservation s input nonce uuid now,
      )
    ]

unfoldable pub reserve_in_memory :
    Store → ReserveInput → ℕ → Option ℕ → Text → ℕ → Result Reservation × Store
reserve_in_memory s input pending requested uuid now =
    elim (find_by_action s input.wallet_id input.chain_id input.action_id) [
      | some existing ↦ (ok existing, s)
      | none ↦ reserve_new s input pending requested uuid now
    ]

-- `reserveWalletNonce`
unfoldable pub reserve_wallet_nonce :
    Store → ReserveInput → ChainReply → Text → ℕ → Result Reservation × Store
reserve_wallet_nonce s input reply uuid now = elim (check_requested input.requested_nonce) [
  | err e ↦ (err e, s)
  | ok requested ↦ elim (read_chain_pending_nonce reply) [
    | err e ↦ (err e, s)
    | ok pending ↦ reserve_in_memory s input pending requested uuid now
  ]
]

-- `none` where the updates leave a field out.
pub record Updates : Type 0 where
  pub status : Option Status
  pub tx_hash : Option (Option Text)

abbrev pub set_status : Status → Updates
set_status st = record { status = some st; tx_hash = none }

abbrev pub updated_hash : Option (Option Text) → Option Text → Option Text
updated_hash none old = old
updated_hash (some h) old = normalize_nullable h

abbrev pub apply_updates : Updates → ℕ → Reservation → Reservation
apply_updates u now r = record r {
  status = or_else u.status r.status;
  tx_hash = updated_hash u.tx_hash r.tx_hash;
  updated_at = now;
}

unfoldable pub update_reservation : Store → Text → Updates → ℕ → Option Reservation × Store
update_reservation s id u now = elim (Map.get s.reservations id) [
  | none ↦ (none, s)
  | some existing ↦
      let updated = apply_updates u now existing in
      (some updated, record s { reservations = Map.set s.reservations id updated })
]

abbrev pub submission : Text → Updates
submission hash = record { status = some submitted; tx_hash = some (some hash) }

unfoldable pub release_reservation : Store → Text → ℕ → Option Reservation × Store
release_reservation s id now = update_reservation s id (set_status released) now

unfoldable pub mark_failed : Store → Text → ℕ → Option Reservation × Store
mark_failed s id now = update_reservation s id (set_status failed) now

unfoldable pub mark_submitted : Store → Text → Text → ℕ → Result (Option Reservation) × Store
mark_submitted s id tx_hash now = elim (normalize_nullable (some tx_hash)) [
  | none ↦ (err invalid_tx_hash, s)
  | some hash ↦ let (r, s') = update_reservation s id (submission hash) now in (ok r, s')
]

abbrev pub normalized_hashes : List Text → List Text
normalized_hashes [] = []
normalized_hashes (h ∷ hs) = elim (normalize_nullable (some h)) [
  | none ↦ normalized_hashes hs
  | some t ↦ t ∷ normalized_hashes hs
]

abbrev pub is_listed : List Text → Option Text → Bool
is_listed hashes none = false
is_listed hashes (some t) = includes hashes t

abbrev pub visit : List Text → Updates → ℕ → Store → Reservation → ℕ × Store
visit hashes u now s r =
    if is_listed hashes r.tx_hash then (1, (update_reservation s r.id u now).1) else (0, s)

-- The loop over the live map: updates keep its keys, so it visits each entry once and reads the
-- value that the entry then has. The rounds share one clock reading.
mark_loop : List Text → Updates → ℕ → List Text → Store → ℕ × Store
mark_loop hashes u now [] s = (0, s)
mark_loop hashes u now (k ∷ ks) s = elim (Map.get s.reservations k) [
  | none ↦ mark_loop hashes u now ks s
  | some r ↦
      let (n, s') = visit hashes u now s r in
      let (rest, s'') = mark_loop hashes u now ks s' in (n + rest, s'')
]

mark_listed : List Text → Status → ℕ → Store → ℕ × Store
mark_listed [] status now s = (0, s)
mark_listed (h ∷ hs) status now s =
    mark_loop (h ∷ hs) (set_status status) now (Map.keys s.reservations) s

-- `updateNonceReservationsByTxHashes`
unfoldable pub update_by_tx_hashes : Store → List Text → Status → ℕ → ℕ × Store
unfolding mark_listed mark_loop
update_by_tx_hashes s tx_hashes status now = mark_listed (normalized_hashes tx_hashes) status now s

abbrev pub mark_confirmed_by_hash : Store → Text → ℕ → ℕ × Store
mark_confirmed_by_hash s h now = update_by_tx_hashes s (h ∷ []) confirmed now

abbrev pub mark_failed_by_hash : Store → Text → ℕ → ℕ × Store
mark_failed_by_hash s h now = update_by_tx_hashes s (h ∷ []) failed now

abbrev pub mark_submitted_by_hash : Store → Text → ℕ → ℕ × Store
mark_submitted_by_hash s h now = update_by_tx_hashes s (h ∷ []) submitted now

abbrev pub mark_failed_by_hashes : Store → List Text → ℕ → ℕ × Store
mark_failed_by_hashes s hs now = update_by_tx_hashes s hs failed now

-- The calls that other services make, each with what it reads from outside.
pub data Call : Type 0 where
  reserve : ReserveInput → ChainReply → Text → Call
  release : Text → Call
  submit : Text → Text → Call
  fail : Text → Call
  confirm_by_hash fail_by_hash submit_by_hash : Text → Call
  fail_by_hashes : List Text → Call
  reset : Call

unfoldable pub step : Store → ℕ × Call → Store
step s (now, reserve input reply uuid) = (reserve_wallet_nonce s input reply uuid now).1
step s (now, release id) = (release_reservation s id now).1
step s (now, submit id hash) = (mark_submitted s id hash now).1
step s (now, fail id) = (mark_failed s id now).1
step s (now, confirm_by_hash h) = (mark_confirmed_by_hash s h now).1
step s (now, fail_by_hash h) = (mark_failed_by_hash s h now).1
step s (now, submit_by_hash h) = (mark_submitted_by_hash s h now).1
step s (now, fail_by_hashes hs) = (mark_failed_by_hashes s hs now).1
step s (now, reset) = empty

unfoldable pub run : Store → List (ℕ × Call) → Store
run s [] = s
run s (c ∷ cs) = run (step s c) cs
