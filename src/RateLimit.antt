-- ===== src/RateLimit.antt =====
-- lib/security/rate-limit.ts: fixed windows counted in memory or in Redis. The clock is read once
-- for a call; the environment's settings and the Redis client are arguments.
pub mod Redis
pub mod Memory
pub mod Closed
pub mod Degraded
mod Tests
use aljama_wallet.Base.{
  ℕ, suc, ◌+◌, ◌-◌, ◌/◌, max, Bool, true, false, not, ◌&&◌, ◌||◌, Option, none, some, List, [], ◌∷◌,
  ◌++◌, ltb, leb, if◌then◌else◌, ◌==◌, Text, text, text_eq, length, ℤ, pos, negsuc, pos_part,
  neg_part, Number, int, frac, not_finite,
}
use aljama_wallet.Base.Map
use aljama_wallet.Base.Map.{Map}

pub data FailureKind : Type 0 where
  limit_exceeded backend_unavailable : FailureKind

pub data Verdict : Type 0 where
  passed : (remaining reset_at : ℕ) → Verdict
  blocked : (retry_after reset_at : ℕ) → FailureKind → Verdict

pub record Bucket : Type 0 where
  pub remaining : ℕ
  pub reset_at : ℕ

abbrev pub Buckets : Type 0
Buckets = Map Text Bucket

abbrev pub max_buckets : ℕ
max_buckets = 10000

-- `Math.floor` of a finite number, from below by zero.
abbrev floor_at_zero : ℤ → ℕ
floor_at_zero (pos n) = n
floor_at_zero (negsuc n) = 0

unfoldable pub normalize_window_ms : Number → ℕ
normalize_window_ms not_finite = 1000
normalize_window_ms (int z) = max 1 (floor_at_zero z)
normalize_window_ms (frac z) = max 1 (floor_at_zero z)

unfoldable pub normalize_limit : Number → ℕ
normalize_limit not_finite = 0
normalize_limit (int z) = floor_at_zero z
normalize_limit (frac z) = floor_at_zero z

-- Milliseconds as whole seconds, rounded up, and at least one.
unfoldable pub retry_seconds : ℕ → ℕ
retry_seconds ms = max 1 ((ms + 999) / 1000)

unfoldable pub limit_exceeded_result : ℕ → ℕ → Verdict
limit_exceeded_result retry_after reset_at = blocked retry_after reset_at limit_exceeded

unfoldable pub default_blocked_result : ℕ → ℕ → Verdict
unfolding retry_seconds
default_blocked_result window now =
    blocked (retry_seconds window) (now + window) backend_unavailable

-- A call with its numbers normalised.
pub record Call : Type 0 where
  pub key : Text
  pub bucket : Text
  pub limit : ℕ
  pub window : ℕ

unfoldable pub bucket_key : Call → Text
bucket_key c = c.bucket ++ b':' ∷ c.key

-- The bucket that the call finds, or a new one where there is none or its time is over.
unfoldable pub current_bucket : Option Bucket → Call → ℕ → Bucket
current_bucket none c now = record { remaining = c.limit; reset_at = now + c.window }
current_bucket (some b) c now =
    if leb b.reset_at now then record { remaining = c.limit; reset_at = now + c.window } else b

unfoldable pub cap_buckets : Buckets → Buckets
cap_buckets buckets = if ltb max_buckets (length buckets) then [] else buckets

unfoldable pub take_from : Buckets → Text → Bucket → ℕ → Verdict × Buckets
unfolding limit_exceeded_result retry_seconds
take_from buckets k b now =
    if leb b.remaining 0
    then (limit_exceeded_result (retry_seconds (b.reset_at - now)) b.reset_at, Map.set buckets k b)
    else (
      passed (b.remaining - 1) b.reset_at,
      cap_buckets (Map.set buckets k (record b { remaining = b.remaining - 1 })),
    )

-- `memoryRateLimit`
unfoldable pub memory_rate_limit : Buckets → Call → ℕ → Verdict × Buckets
unfolding current_bucket take_from
memory_rate_limit buckets c now =
    take_from buckets (bucket_key c) (current_bucket (Map.get buckets (bucket_key c)) c now) now
