-- ===== src/RateLimit/Memory.antt =====
-- How many calls of one key pass in a window of the limiter in memory.
use aljama_wallet.Base.{
  ◌&&◌, ℕ, zero, suc, ◌+◌, ◌≤◌, ◌<◌, min, ◌≡◌, refl, ap, ◌∙◌, ◌⊎◌, inl, inr, Bool, true, false,
  none, some, List, [], ◌∷◌, arith, ltb, leb, Text, text_eq, ==_iff, ==_refl, ◌==◌, length, All,
  Bool-cases, if◌then◌else◌,
}
use aljama_wallet.Base.Map
use aljama_wallet.RateLimit.{
  Verdict, passed, blocked, Bucket, Buckets, Call, bucket_key, current_bucket, cap_buckets,
  take_from, memory_rate_limit, max_buckets, limit_exceeded_result,
}

abbrev pub is_passed : Verdict → Bool
is_passed (passed remaining reset_at) = true
is_passed (blocked retry_after reset_at kind) = false

-- The calls of the key that pass, in a history of calls with their times.
unfoldable pub passes : Text → Buckets → List (Call × ℕ) → ℕ
passes k m [] = 0
passes k m ((c, now) ∷ cs) =
    let (v, m') = memory_rate_limit m c now in
    (if bucket_key c == k && is_passed v then 1 else 0) + passes k m' cs

abbrev pub calls_of : Text → List (Call × ℕ) → ℕ
calls_of k [] = 0
calls_of k ((c, now) ∷ cs) = (if bucket_key c == k then 1 else 0) + calls_of k cs

abbrev bucket_of : ℕ → ℕ → Bucket
bucket_of n t = record { remaining = n; reset_at = t }

cap_buckets_of_le : (m : Buckets) → length m ≤ max_buckets → cap_buckets m ≡ m
unfolding cap_buckets
cap_buckets_of_le m h = let e : ltb max_buckets (length m) ≡ false = ground arith in rw e

module _ (m : Buckets) (room : length m + 1 ≤ max_buckets) where
  set_room : (k : Text) (b : Bucket) → cap_buckets (Map.set m k b) ≡ Map.set m k b
  set_room k b = cap_buckets_of_le (Map.set m k b) (omega (arith, Map.length-set-le m k b))

  -- A spent bucket blocks, a bucket with room passes, and either is what the map then holds.
  take_from_spent :
      (k : Text) (t now : ℕ)
      → (is_passed (take_from m k (bucket_of 0 t) now).0 ≡ false)
        × ((take_from m k (bucket_of 0 t) now).1 ≡ Map.set m k (bucket_of 0 t))
  unfolding take_from limit_exceeded_result
  take_from_spent k t now = (refl, refl)

  take_from_room :
      (k : Text) (n t now : ℕ)
      → (is_passed (take_from m k (bucket_of (suc n) t) now).0 ≡ true)
        × ((take_from m k (bucket_of (suc n) t) now).1 ≡ Map.set m k (bucket_of n t))
  unfolding take_from
  take_from_room k n t now = (ground arith, ground (arith, set_room k (bucket_of n t)))

  take_from-set :
      (k : Text) (b : Bucket) (now : ℕ) → (b' : Bucket) × ((take_from m k b now).1 ≡ Map.set m k b')
  take_from-set k b now = go b.remaining refl
    where
      go : (n : ℕ) → b.remaining ≡ n → (b' : Bucket) × ((take_from m k b now).1 ≡ Map.set m k b')
      go zero e =
          let p : b ≡ bucket_of 0 b.reset_at =
            λ i. record { remaining = e i; reset_at = b.reset_at } in
          (bucket_of 0 b.reset_at, rw p ((take_from_spent k b.reset_at now).1))
      go (suc n) e =
          let p : b ≡ bucket_of (suc n) b.reset_at =
            λ i. record { remaining = e i; reset_at = b.reset_at } in
          (
            bucket_of n b.reset_at,
            ap (λ x. (take_from m k x now).1) p ∙ (take_from_room k n b.reset_at now).1,
          )

  memory_set :
      (c : Call) (now : ℕ)
      → (b : Bucket) × ((memory_rate_limit m c now).1 ≡ Map.set m (bucket_key c) b)
  unfolding memory_rate_limit
  memory_set c now = take_from-set (bucket_key c) _ now

  -- A call leaves the buckets of other keys alone,
  memory_other :
      (c : Call) (now : ℕ) (k : Text)
      → (bucket_key c == k) ≡ false
      → Map.get (memory_rate_limit m c now).1 k ≡ Map.get m k
  memory_other c now k other = let (b, e) = memory_set c now in rw e (simp (Map.get-set, other))

  -- adds one bucket at most,
  memory_length : (c : Call) (now : ℕ) → length (memory_rate_limit m c now).1 ≤ length m + 1
  memory_length c now = let (b, e) = memory_set c now in rw e (Map.length-set-le m (bucket_key c) b)

  -- and takes one from the live bucket of its key, if there is one to take.
  memory_spent :
      (c : Call) (t now : ℕ)
      → current_bucket (Map.get m (bucket_key c)) c now ≡ bucket_of 0 t
      → (is_passed (memory_rate_limit m c now).0 ≡ false)
        × (Map.get (memory_rate_limit m c now).1 (bucket_key c) ≡ some (bucket_of 0 t))
  unfolding memory_rate_limit
  memory_spent c t now found =
      let (p, q) = take_from_spent (bucket_key c) t now in
      rw (found, memory_rate_limit) (p, rw q (Map.get-set_self m (bucket_key c) _))

  memory_room :
      (c : Call) (n t now : ℕ)
      → current_bucket (Map.get m (bucket_key c)) c now ≡ bucket_of (suc n) t
      → (is_passed (memory_rate_limit m c now).0 ≡ true)
        × (Map.get (memory_rate_limit m c now).1 (bucket_key c) ≡ some (bucket_of n t))
  unfolding memory_rate_limit
  memory_room c n t now found =
      let (p, q) = take_from_room (bucket_key c) n t now in
      rw (found, memory_rate_limit) (p, rw q (Map.get-set_self m (bucket_key c) _))

abbrev pub InTime : Text → ℕ → Call × ℕ → Type 0
InTime k t (c, now) = bucket_key c ≡ k → now < t

live_bucket :
    (m : Buckets) (k : Text) (n t : ℕ) (c : Call) (now : ℕ)
    → bucket_key c ≡ k
    → Map.get m k ≡ some (bucket_of n t)
    → now < t
    → current_bucket (Map.get m (bucket_key c)) c now ≡ bucket_of n t
unfolding current_bucket
live_bucket m k n t c now e found soon =
    let live : leb t now ≡ false = ground arith in rw (e, found, current_bucket, live)

own_call :
    (k : Text) (n t : ℕ) (m : Buckets) (c : Call) (now : ℕ) (cs : List (Call × ℕ))
    → length m + 1 ≤ max_buckets
    → (bucket_key c == k) ≡ true
    → current_bucket (Map.get m (bucket_key c)) c now ≡ bucket_of n t
    → ((n' : ℕ)
        → Map.get (memory_rate_limit m c now).1 k ≡ some (bucket_of n' t)
        → passes k (memory_rate_limit m c now).1 cs ≡ min n' (calls_of k cs))
    → passes k m ((c, now) ∷ cs) ≡ min n (calls_of k ((c, now) ∷ cs))
unfolding passes
own_call k zero t m c now cs room same found rest =
    let e = (==_iff (bucket_key c) k).0 same in
    let (p, q) = memory_spent m room c t now found in
    rw (same, p) (omega (arith, rest 0 (rw e at q)))
own_call k (suc n) t m c now cs room same found rest =
    let e = (==_iff (bucket_key c) k).0 same in
    let (p, q) = memory_room m room c n t now found in
    rw (same, p) (omega (arith, rest n (rw e at q)))

-- Within the window of a bucket, as many calls of its key pass as it has room for, through any calls
-- of other keys, as long as the map does not overflow.
window_exact :
    (k : Text) (n t : ℕ) (m : Buckets) (cs : List (Call × ℕ))
    → Map.get m k ≡ some (bucket_of n t)
    → All (InTime k t) cs
    → length m + length cs ≤ max_buckets
    → passes k m cs ≡ min n (calls_of k cs)
unfolding passes
window_exact k n t m [] found h room = omega arith
window_exact k n t m ((c, now) ∷ cs) found (here, later) room =
    elim (Bool-cases (bucket_key c == k)) [
      | inr other ↦
          let m' = (memory_rate_limit m c now).1 in
          let found' = memory_other m (omega arith) c now k other ∙ found in
          let ih =
            window_exact k n t m' cs found' later
              (omega (arith, memory_length m (omega arith) c now)) in
          rw other (rw ih (omega arith))
      | inl same ↦
          let e = (==_iff (bucket_key c) k).0 same in
          (own_call k n t m c now cs (omega arith) same (live_bucket m k n t c now e found (here e))
            λ n' f.
              window_exact k n' t (memory_rate_limit m c now).1 cs f later
                (omega (arith, memory_length m (omega arith) c now)))
    ]

-- There is no bucket of the key, or its time is over.
abbrev pub Opens : Buckets → Call → ℕ → Type 0
Opens m c now =
    (Map.get m (bucket_key c) ≡ none)
    ⊎ ((b : Bucket) × (Map.get m (bucket_key c) ≡ some b) × (b.reset_at ≤ now))

Opens-bucket :
    (m : Buckets) (c : Call) (now : ℕ)
    → Opens m c now
    → current_bucket (Map.get m (bucket_key c)) c now ≡ bucket_of c.limit (now + c.window)
unfolding current_bucket
Opens-bucket m c now (inl missing) = rw missing
Opens-bucket m c now (inr (b, found, old)) =
    let over : leb b.reset_at now ≡ true = ground arith in rw (found, current_bucket, over)

-- From a call that opens a window, and through the calls that come before the window's end, those of
-- its key pass that come first, as many as its limit, and no more. Calls of other keys may come in
-- between, at any time. The buckets of before and all these calls are together at most 10,000, so that the
-- map is never emptied for its size.
pub window_passes_exactly :
    (m : Buckets) (c : Call) (now : ℕ) (cs : List (Call × ℕ))
    → Opens m c now
    → All (InTime (bucket_key c) (now + c.window)) cs
    → length m + length ((c, now) ∷ cs) ≤ max_buckets
    → passes (bucket_key c) m ((c, now) ∷ cs)
      ≡ min c.limit (calls_of (bucket_key c) ((c, now) ∷ cs))
window_passes_exactly m c now cs opens h room =
    own_call (bucket_key c) c.limit (now + c.window) m c now cs (omega arith)
      (==_refl (bucket_key c)) (Opens-bucket m c now opens)
      λ n f.
        window_exact (bucket_key c) n (now + c.window) (memory_rate_limit m c now).1 cs f h
          (omega (arith, memory_length m (omega arith) c now))
