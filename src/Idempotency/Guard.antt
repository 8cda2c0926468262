-- ===== src/Idempotency/Guard.antt =====
-- What the service promises its callers, as an interface that the table fills, and the map in memory
-- outside strict mode.
use aljama_wallet.Base.{ℕ, ◌+◌, ◌<◌, ◌≡◌, ◌≢◌, false, Option, some, or_else, Text}
use aljama_wallet.Idempotency.{Reply, done, failed, replay, cache_key, is_live, default_ttl_ms}

-- A reservation is refused while the key is live, and changes nothing then; otherwise it succeeds,
-- the key is live up to its expiry, and the expiry of every other key stays.
pub data Promises {S : Type 0} (expiry : S → Text → Text → Option ℕ) (s : S) (scope key : Text)
    (checked expires : ℕ) (r : Reply × S) : Type 0 where
  refused :
      (e : ℕ)
      → expiry s scope key ≡ some e
      → checked < e
      → r ≡ (failed replay, s)
      → Promises expiry s scope key checked expires r
  accepted :
      is_live (expiry s scope key) checked ≡ false
      → r.0 ≡ done
      → expiry r.1 scope key ≡ some expires
      → ((scope' key' : Text)
          → cache_key scope key ≢ cache_key scope' key'
          → expiry r.1 scope' key' ≡ expiry s scope' key')
      → Promises expiry s scope key checked expires r

pub record Guard : Type 1 where
  pub State : Type 0
  pub expiry : State → Text → Text → Option ℕ
  -- The readings of the clock come in the order test, start of the time to live.
  pub reserve : State → Text → Text → Option ℕ → ℕ → ℕ → Reply × State
  pub release : State → Text → Text → State
  pub reserve_promises :
      (s : State) (scope key : Text) (ttl : Option ℕ) (checked started : ℕ)
      → Promises expiry s scope key checked
          (started + or_else ttl default_ttl_ms)
          (reserve s scope key ttl checked started)
  pub release_other :
      (s : State) (scope key scope' key' : Text)
      → cache_key scope key ≢ cache_key scope' key'
      → expiry (release s scope key) scope' key' ≡ expiry s scope' key'
