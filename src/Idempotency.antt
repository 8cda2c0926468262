-- ===== src/Idempotency.antt =====
-- services/idempotency.service.ts: keys that guard a request against being run twice.
-- Both stores are modelled: the map in memory, and the table in Postgres through the interface that
-- KeyTable states. Each clock reading is an argument, in the order of the readings.
pub mod Guard
pub mod Memory
pub mod Table
pub mod History
mod Tests
use aljama_wallet.Base.{
  ℕ, ◌+◌, Bool, true, false, ◌&&◌, Option, none, some, List, [], ◌∷◌, ◌++◌, ltb, leb, if◌then◌else◌,
  or_else, Text, text_eq, length,
}
use aljama_wallet.Base.Map
use aljama_wallet.Base.Map.{Map}

pub data Error : Type 0 where
  replay unique_violation : Error

pub data Reply : Type 0 where
  done : Reply
  failed : Error → Reply

-- `memoryKeys`: the time at which each key expires.
abbrev pub Keys : Type 0
Keys = Map Text ℕ

-- `DEFAULT_TTL_MS`, ten minutes.
abbrev pub default_ttl_ms : ℕ
default_ttl_ms = 600000

abbrev pub max_keys : ℕ
max_keys = 10000

-- `${scope}:${key}`
unfoldable pub cache_key : Text → Text → Text
cache_key scope key = scope ++ b':' ∷ key

abbrev pub is_live : Option ℕ → ℕ → Bool
is_live none now = false
is_live (some expiry) now = ltb now expiry

-- In strict mode a map of more than 10,000 keys is emptied.
unfoldable pub cap_keys : Bool → Keys → Keys
cap_keys strict keys = if strict && ltb max_keys (length keys) then [] else keys

-- `reserveIdempotencyKey` in memory; the clock is read for the test and then for the new expiry.
unfoldable pub reserve_in_memory : Bool → Keys → Text → Text → Option ℕ → ℕ → ℕ → Reply × Keys
reserve_in_memory strict keys scope key ttl checked_at stored_at =
    if is_live (Map.get keys (cache_key scope key)) checked_at then (failed replay, keys) else (
      done,
      cap_keys strict (Map.set keys (cache_key scope key) (stored_at + or_else ttl default_ttl_ms)),
    )

-- `releaseIdempotencyKey` in memory.
unfoldable pub release_in_memory : Keys → Text → Text → Keys
release_in_memory keys scope key = Map.delete keys (cache_key scope key)

-- The rows of `prisma.idempotencyKey`, unique in their scope and key. What Postgres and Prisma do
-- is not the program's code: it is stated as the laws of this interface.
pub record KeyTable : Type 1 where
  pub Rows : Type 0
  pub find : Rows → Text → Text → Option ℕ
  -- `none` is the error P2002.
  pub create : Rows → Text → Text → ℕ → Option Rows
  pub delete : Rows → Text → Text → Rows

module _ (t : KeyTable) where
  open t use {Rows, find, create, delete}

  pub retry_create : Rows → Text → Text → ℕ → Reply × Rows
  retry_create rows scope key expires_at = elim (create rows scope key expires_at) [
    | none ↦ (failed unique_violation, rows)
    | some rows' ↦ (done, rows')
  ]

  -- A row in the way is deleted and replaced if it has expired.
  pub replace_expired : Rows → Text → Text → ℕ → ℕ → Option ℕ → Reply × Rows
  unfolding retry_create
  replace_expired rows scope key expires_at now none = (failed unique_violation, rows)
  replace_expired rows scope key expires_at now (some expiry) =
      if leb expiry now
      then retry_create (delete rows scope key) scope key expires_at
      else (failed replay, rows)

  -- `reserveIdempotencyKey` in Postgres; the clock is read for the new expiry and then for the test.
  pub reserve_in_table : Rows → Text → Text → Option ℕ → ℕ → ℕ → Reply × Rows
  unfolding replace_expired
  reserve_in_table rows scope key ttl started_at checked_at =
      let expires_at = started_at + or_else ttl default_ttl_ms in
      elim (create rows scope key expires_at) [
        | some rows' ↦ (done, rows')
        | none ↦ replace_expired rows scope key expires_at checked_at (find rows scope key)
      ]

  pub release_in_table : Rows → Text → Text → Rows
  release_in_table rows scope key = delete rows scope key
