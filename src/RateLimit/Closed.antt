-- ===== src/RateLimit/Closed.antt =====
-- What the limiter does when Redis fails: `redisRateLimit` and `rateLimit`.
use aljama_wallet.Base.{
  ℕ, ◌≡◌, refl, ap, ◌∙◌, inl, inr, Bool, true, false, ◌||◌, Option, some, leb, ◌++◌, ◌∷◌, Text,
  text, ℤ, Option-cases, Bool-cases, if◌then◌else◌, Whenever,
}
use aljama_wallet.RateLimit.{
  Verdict, passed, blocked, Call, bucket_key, limit_exceeded_result, default_blocked_result,
  normalize_limit,
}
use aljama_wallet.RateLimit.Memory.{is_passed}
use aljama_wallet.RateLimit.Redis.{
  Reply, integer, not_number, Client, count_of, redis_verdict, redis_rate_limit, Settings, Options,
  wants_redis, call_of, requires, State, without_redis, in_redis, rate_limit, left_of, exceeds,
  pure, ◌>>=◌, ◌>>◌,
}

-- The reply was within the limit, and the verdict says what the limit leaves.
abbrev pub Counts : ℕ → ℤ → Verdict → Type 0
Counts limit z (passed remaining reset_at) =
    (exceeds z limit ≡ false) × (remaining ≡ left_of z limit)
Counts limit z (blocked retry_after reset_at kind) = exceeds z limit ≡ true

bind-Whenever :
    {S A B : Type 0} (P : B → Type 0) (m : S → Option A × S) (f : A → S → Option B × S) (s : S)
    → ((a : A) → (m s).0 ≡ some a → Whenever P (f a (m s).1).0)
    → Whenever P ((m >>= f) s).0
unfolding ◌>>=◌
bind-Whenever P m f s h = elim (Option-cases (m s).0) [
  | inl thrown ↦ rw (thrown, ◌>>=◌) tt
  | inr (a, found) ↦ rw (found, ◌>>=◌) (h a found)
]

module _ (client : Client) where
  redis_verdict-Counts :
      (c : Call) (now : ℕ) (z : ℤ) (ttl : ℕ) → Counts c.limit z (redis_verdict client c now z ttl)
  unfolding redis_verdict limit_exceeded_result
  redis_verdict-Counts c now z ttl = elim (Bool-cases (exceeds z c.limit)) [
    | inl over ↦ rw (over, redis_verdict) over
    | inr within ↦ rw (within, redis_verdict) (within, refl)
  ]

  count_of-some :
      (reply : Reply) (s : client.Server) (z : ℤ)
      → (count_of client reply s).0 ≡ some z
      → reply ≡ integer z
  unfolding count_of
  count_of-some (integer x) s z e = cc
  count_of-some not_number s z e = cc

  -- What INCR replied to the call, with the verdict that its number gives.
  abbrev pub Counted : Text → Call → client.Server → Verdict → Type 0
  Counted prefix c s v =
      (z : ℤ) × ((client.incr (prefix ++ b':' ∷ bucket_key c) s).0 ≡ some (integer z))
      × Counts c.limit z v

  redis_rate_limit-Counted :
      (prefix : Text) (c : Call) (now : ℕ) (s : client.Server)
      → Whenever (Counted prefix c s) (redis_rate_limit client prefix c now s).0
  unfolding redis_rate_limit ◌>>◌ pure
  redis_rate_limit-Counted prefix c now s = bind-Whenever _ _ _ _ λ reply sent.
      bind-Whenever _ _ _ _ λ count read. bind-Whenever _ _ _ _ λ _ _. bind-Whenever _ _ _ _ λ _ _.
        bind-Whenever _ _ _ _ λ ttl _. (
          count,
          sent ∙ ap some (count_of-some reply _ count read),
          redis_verdict-Counts c now count ttl,
        )

  -- A step keeps the buckets, and passes on Redis's word only.
  abbrev Closed : Bool → Text → Call → State client → Verdict × State client → Type 0
  Closed connected prefix c s (v, s') =
      (s'.buckets ≡ s.buckets)
      × (is_passed v ≡ true → (connected ≡ true) × Counted prefix c s.server v)

  module _ (env : Settings) (o : Options) (now : ℕ) (required : requires env o ≡ true) where
    without_redis-Closed :
        (b : Bool) (c r : Text) (s s0 : State client)
        → s.buckets ≡ s0.buckets
        → Closed b env.prefix (call_of o) s0 (without_redis client env o c r now s)
    unfolding without_redis default_blocked_result
    without_redis-Closed b c r s s0 e = rw (required, without_redis) (e, λ p. cc)

    in_redis-Closed :
        (s : State client) → Closed true env.prefix (call_of o) s (in_redis client env o now s)
    unfolding in_redis
    in_redis-Closed s =
        let counted = redis_rate_limit-Counted env.prefix (call_of o) now s.server in
        elim (Option-cases (redis_rate_limit client env.prefix (call_of o) now s.server).0) [
          | inl thrown ↦
              rw (thrown, in_redis)
                (without_redis-Closed true _ _
                  (record s {
                    server = (redis_rate_limit client env.prefix (call_of o) now s.server).1;
                  })
                  s refl)
          | inr (v, replied) ↦ rw (replied, in_redis) (refl, λ _. (refl, rw replied at counted))
        ]

  -- Where Redis is wanted, it is asked, or replaced.
  pub rate_limit_distributed :
      (env : Settings) (connected : Bool) (o : Options) (now : ℕ) (s : State client)
      → env.disabled ≡ false
      → leb (normalize_limit o.limit) 0 ≡ false
      → (wants_redis env.backend || requires env o) ≡ true
      → rate_limit client env connected o now s ≡ (
          if connected
          then in_redis client env o now s
          else without_redis client env o
              (text "redis_unavailable_fail_closed")
              (text "redis_unavailable_fallback_memory")
              now
              s)
  unfolding rate_limit
  rate_limit_distributed env connected o now s enabled allowed wanted =
      rw (enabled, rate_limit, allowed, wanted) refl

  wanted_of_required : (b r : Bool) → r ≡ true → (b || r) ≡ true
  wanted_of_required true r e = refl
  wanted_of_required false r e = e

  -- With a distributed limiter required, and the limiter not disabled, a call passes only if there is a
  -- client of Redis, whose INCR on the call's key replied an integer within the call's limit, and the
  -- verdict then says how many calls that number leaves. No bucket in memory changes, whatever the
  -- verdict.
  pub required_limit_fails_closed :
      (env : Settings) (connected : Bool) (o : Options) (now : ℕ) (s : State client)
      → env.disabled ≡ false
      → requires env o ≡ true
      → let (v, s') = rate_limit client env connected o now s in
        (s'.buckets ≡ s.buckets)
        × (is_passed v ≡ true → (connected ≡ true) × Counted env.prefix (call_of o) s.server v)
  unfolding rate_limit default_blocked_result
  required_limit_fails_closed env connected o now s enabled required =
      elim (Bool-cases (leb (normalize_limit o.limit) 0)) [
        | inl none_allowed ↦ rw (enabled, rate_limit, none_allowed) (refl, λ p. cc)
        | inr some_allowed ↦
            let wanted = wanted_of_required (wants_redis env.backend) (requires env o) required in
            rw (rate_limit_distributed env connected o now s enabled some_allowed wanted)
              (asked connected)
      ]
    where
      asked :
          (b : Bool)
          → Closed b env.prefix (call_of o) s (
              if b
              then in_redis client env o now s
              else without_redis client env o
                  (text "redis_unavailable_fail_closed")
                  (text "redis_unavailable_fallback_memory")
                  now
                  s)
      asked true = in_redis-Closed env o now required s
      asked false = without_redis-Closed env o now required false _ _ s s refl
