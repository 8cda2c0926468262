-- ===== src/RateLimit/Degraded.antt =====
-- When `rateLimit` reports its backend as degraded.
use aljama_wallet.Base.{
  ℕ, ◌≤◌, ◌≡◌, refl, sym, ◌∙◌, ◌⊎◌, ◌↔◌, inl, inr, Bool, true, false, ◌||◌, none, arith, leb, Text,
  text, Option-cases, Bool-cases, if◌then◌else◌,
}
use aljama_wallet.RateLimit.{normalize_limit}
use aljama_wallet.RateLimit.Redis.{
  Client, redis_rate_limit, Settings, Options, wants_redis, call_of, requires, State, without_redis,
  in_redis, rate_limit, in_memory,
}
use aljama_wallet.RateLimit.Closed.{rate_limit_distributed}

module _ (client : Client) where
  abbrev pub Failed : Settings → Bool → Options → ℕ → State client → Type 0
  Failed env connected o now s =
      (connected ≡ false) ⊎ ((redis_rate_limit client env.prefix (call_of o) now s.server).0 ≡ none)

  without_redis-degraded :
      (env : Settings) (o : Options) (c r : Text) (now : ℕ) (s : State client)
      → (without_redis client env o c r now s).1.health.degraded ≡ true
  unfolding without_redis
  without_redis-degraded env o c r now s = elim (Bool-cases (requires env o)) [
    | inl required ↦ rw (required, without_redis) refl
    | inr optional ↦ rw (optional, without_redis) refl
  ]

  in_redis-degraded :
      (env : Settings) (o : Options) (now : ℕ) (s : State client)
      → ((in_redis client env o now s).1.health.degraded ≡ true)
        ↔ ((redis_rate_limit client env.prefix (call_of o) now s.server).0 ≡ none)
  unfolding in_redis
  in_redis-degraded env o now s =
      elim (Option-cases (redis_rate_limit client env.prefix (call_of o) now s.server).0) [
        | inl thrown ↦
            let degraded =
              without_redis-degraded env o (text "redis_error_fail_closed")
                (text "redis_error_fallback_memory") now
                (record s {
                  server = (redis_rate_limit client env.prefix (call_of o) now s.server).1;
                }) in
            (λ _. thrown, λ _. rw (thrown, in_redis) degraded)
        | inr (v, replied) ↦ (λ e. cc (rw (replied, in_redis) at e), λ e. cc (sym replied ∙ e))
      ]

  -- A call that is counted reports the backend as degraded exactly if Redis was wanted, by the
  -- configuration or by the call, and there was no client or the exchange with it failed.
  pub degraded_iff_Failed :
      (env : Settings) (connected : Bool) (o : Options) (now : ℕ) (s : State client)
      → env.disabled ≡ false
      → 1 ≤ normalize_limit o.limit
      → ((rate_limit client env connected o now s).1.health.degraded ≡ true)
        ↔ (((wants_redis env.backend || requires env o) ≡ true) × Failed env connected o now s)
  unfolding rate_limit in_memory
  degraded_iff_Failed env connected o now s enabled allowed =
      let positive : leb (normalize_limit o.limit) 0 ≡ false = ground arith in
      elim (Bool-cases (wants_redis env.backend || requires env o)) [
        | inr local ↦ (
          λ e. cc (rw (enabled, rate_limit, positive, local) at e),
          λ (wanted, _). cc (sym wanted ∙ local),
        )
        | inl wanted ↦
            rw (rate_limit_distributed client env connected o now s enabled positive wanted)
              (asked connected wanted)
      ]
    where
      asked :
          (b : Bool)
          → (wants_redis env.backend || requires env o) ≡ true
          → ((if b
                then in_redis client env o now s
                else without_redis client env o
                    (text "redis_unavailable_fail_closed")
                    (text "redis_unavailable_fallback_memory")
                    now
                    s).1.health.degraded
              ≡ true)
            ↔ (((wants_redis env.backend || requires env o) ≡ true) × Failed env b o now s)
      asked true wanted =
          let (to, from) = in_redis-degraded env o now s in
          (
            λ e. (wanted, inr (to e)),
            λ (_, failed). elim failed [ inl e ↦ cc | inr thrown ↦ from thrown ],
          )
      asked false wanted = (λ _. (wanted, inl refl), λ _. without_redis-degraded env o _ _ now s)
