-- ===== src/RateLimit/Redis.antt =====
-- The limiter in Redis, and `rateLimit`, which chooses between it and the one in memory and keeps a
-- record of the backend's health.
use aljama_wallet.Base.{
  ℕ, ◌+◌, ◌-◌, Bool, true, false, ◌||◌, Option, none, some, ◌++◌, ◌∷◌, ltb, leb, if◌then◌else◌,
  Text, text, ℤ, pos, negsuc, Number,
}
use aljama_wallet.RateLimit.{
  Verdict, passed, Call, Buckets, bucket_key, limit_exceeded_result, retry_seconds,
  default_blocked_result, memory_rate_limit, normalize_window_ms, normalize_limit,
}

-- What `parseNumber` makes of a reply: an integer, or null. (The replies to the commands below are
-- integers by the protocol, if they are numbers at all.)
pub data Reply : Type 0 where
  integer : ℤ → Reply
  not_number : Reply

-- An action on a state S that may throw.
abbrev pub Exec : Type 0 → Type 0 → Type 0
Exec S A = S → Option A × S

infixl 5 ◌>>=◌ ◌>>◌
unfoldable pub ◌>>=◌ :
    {S A B : Type 0} → (S → Option A × S) → (A → S → Option B × S) → S → Option B × S
◌>>=◌ m f s = let (r, s') = m s in elim r [ none ↦ (none, s') | some a ↦ f a s' ]

unfoldable pub ◌>>◌ : {S A B : Type 0} → (S → Option A × S) → (S → Option B × S) → S → Option B × S
m >> k = m >>= λ _. k

unfoldable pub pure : {S A : Type 0} → A → S → Option A × S
pure a s = (some a, s)

-- The three commands that the limiter sends. `none` is a rejected promise.
pub record Client : Type 1 where
  pub Server : Type 0
  pub incr : Text → Exec Server Reply
  pub pexpire : Text → ℕ → Exec Server Reply
  pub pttl : Text → Exec Server Reply

abbrev pub is_first : ℤ → Bool
is_first (pos n) = leb n 1
is_first (negsuc n) = true

-- `count > limit` and `limit - count`.
abbrev pub exceeds : ℤ → ℕ → Bool
exceeds (pos n) limit = ltb limit n
exceeds (negsuc n) limit = false

abbrev pub left_of : ℤ → ℕ → ℕ
left_of (pos n) limit = limit - n
left_of (negsuc n) limit = limit + n + 1

module _ (client : Client) where
  open client use {Server, incr, pexpire, pttl}

  -- A reply that is no number to INCR is an error.
  unfoldable pub count_of : Reply → Exec Server ℤ
  count_of (integer z) s = (some z, s)
  count_of not_number s = (none, s)

  -- The first call of a window sets its end.
  unfoldable pub expire_first : Text → ℕ → ℤ → Exec Server (Unit {0})
  expire_first k window count = elim (is_first count) [
    | true ↦ pexpire k window >>= λ _. pure tt
    | false ↦ pure tt
  ]

  -- A key without a time to live gets one.
  unfoldable pub ttl_of : Text → ℕ → Reply → Exec Server ℕ
  ttl_of k window (integer (pos ttl)) = pure ttl
  ttl_of k window (integer (negsuc _)) = pexpire k window >>= λ _. pure window
  ttl_of k window not_number = pexpire k window >>= λ _. pure window

  unfoldable pub redis_verdict : Call → ℕ → ℤ → ℕ → Verdict
  redis_verdict c now count ttl =
      if exceeds count c.limit
      then limit_exceeded_result (retry_seconds ttl) (now + ttl)
      else passed (left_of count c.limit) (now + ttl)

  -- `redisRateLimit`
  unfoldable pub redis_rate_limit : Text → Call → ℕ → Exec Server Verdict
  unfolding count_of expire_first ttl_of redis_verdict
  redis_rate_limit prefix c now = do
    let k = prefix ++ b':' ∷ bucket_key c
    reply ← incr k
    count ← count_of reply
    expire_first k c.window count
    ttl_reply ← pttl k
    ttl ← ttl_of k c.window ttl_reply
    pure (redis_verdict c now count ttl)

pub data Backend : Type 0 where
  memory redis : Backend

pub record Health : Type 0 where
  pub requested : Backend
  pub active : Backend
  pub degraded : Bool
  pub reason : Option Text
  pub last_failure_at : Option ℕ
  pub require_distributed : Bool

-- What the environment says: SECURITY_DISABLE_RATE_LIMIT, SECURITY_RATE_LIMIT_BACKEND,
-- SECURITY_RATE_LIMIT_REQUIRE_DISTRIBUTED and SECURITY_RATE_LIMIT_PREFIX, read.
pub record Settings : Type 0 where
  pub disabled : Bool
  pub backend : Backend
  pub distributed : Bool
  pub prefix : Text

pub record Options : Type 0 where
  pub key : Text
  pub bucket : Text
  pub limit : Number
  pub window_ms : Number
  pub require_distributed : Bool

abbrev pub wants_redis : Backend → Bool
wants_redis memory = false
wants_redis redis = true

abbrev pub call_of : Options → Call
call_of o = record {
  key = o.key;
  bucket = o.bucket;
  limit = normalize_limit o.limit;
  window = normalize_window_ms o.window_ms;
}

abbrev pub requires : Settings → Options → Bool
requires env o = o.require_distributed || env.distributed

module _ (client : Client) where
  pub record State : Type 0 where
    pub buckets : Buckets
    pub health : Health
    pub server : client.Server

  -- A failure of Redis: closed if the distributed limiter is required, else counted in memory.
  unfoldable pub without_redis : Settings → Options → Text → Text → ℕ → State → Verdict × State
  without_redis env o closed_reason open_reason now s =
      if requires env o
      then (
        default_blocked_result (normalize_window_ms o.window_ms) now,
        record s {
          health = record {
            requested = env.backend;
            active = redis;
            degraded = true;
            reason = some closed_reason;
            last_failure_at = some now;
            require_distributed = true;
          };
        },
      )
      else (let (v, buckets) = memory_rate_limit s.buckets (call_of o) now in
          (
            v,
            record s {
              buckets = buckets;
              health = record {
                requested = env.backend;
                active = memory;
                degraded = true;
                reason = some open_reason;
                last_failure_at = some now;
                require_distributed = false;
              };
            },
          ))

  unfoldable pub in_memory : Settings → Options → ℕ → State → Verdict × State
  in_memory env o now s =
      let (v, buckets) = memory_rate_limit s.buckets (call_of o) now in
      (
        v,
        record s {
          buckets = buckets;
          health = record {
            requested = env.backend;
            active = memory;
            degraded = false;
            reason = none;
            last_failure_at = none;
            require_distributed = requires env o;
          };
        },
      )

  unfoldable pub in_redis : Settings → Options → ℕ → State → Verdict × State
  unfolding without_redis
  in_redis env o now s =
      let (r, server) = redis_rate_limit client env.prefix (call_of o) now s.server in
      elim r [
        | none ↦
            without_redis env o (text "redis_error_fail_closed")
              (text "redis_error_fallback_memory") now (record s { server = server })
        | some v ↦ (
          v,
          record s {
            server = server;
            health = record {
              requested = env.backend;
              active = redis;
              degraded = false;
              reason = none;
              last_failure_at = none;
              require_distributed = requires env o;
            };
          },
        )
      ]

  -- `rateLimit`; `connected` says whether `resolveRedisClient` has a client.
  unfoldable pub rate_limit : Settings → Bool → Options → ℕ → State → Verdict × State
  unfolding in_memory in_redis without_redis
  rate_limit env connected o now s =
      let window = normalize_window_ms o.window_ms in
      let limit = normalize_limit o.limit in
      if env.disabled
      then (passed limit (now + window), s)
      else if leb limit 0
      then (default_blocked_result window now, s)
      else if wants_redis env.backend || requires env o
      then (if connected
          then in_redis env o now s
          else without_redis env o (text "redis_unavailable_fail_closed")
              (text "redis_unavailable_fallback_memory") now s)
      else in_memory env o now s
