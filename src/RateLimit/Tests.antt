-- ===== src/RateLimit/Tests.antt =====
-- Examples for the rate limiter, with a server that counts the calls of a single key.
use aljama_wallet.Base.{
  ℕ, suc, ◌≡◌, ◌↔◌, ◌||◌, min, refl, inl, none, some, false, true, [], ◌∷◌, arith, text, text_eq,
  int, pos,
}
use aljama_wallet.Base.Map
use aljama_wallet.RateLimit.{Call, bucket_key, normalize_limit}
use aljama_wallet.RateLimit.Memory.{passes, calls_of, window_passes_exactly, is_passed}
use aljama_wallet.RateLimit.Redis.{
  Client, integer, Settings, Options, State, memory, rate_limit, wants_redis, requires, call_of,
}
use aljama_wallet.RateLimit.Closed.{Counted, required_limit_fails_closed}
use aljama_wallet.RateLimit.Degraded.{Failed, degraded_iff_Failed}

abbrev ping : Call
ping = record { key = text "u"; bucket = text "send"; limit = 1; window = 1000 }

window_passes_exactly_example :
    passes (bucket_key ping) [] ((ping, 5) ∷ (ping, 6) ∷ [])
    ≡ min 1 (calls_of (bucket_key ping) ((ping, 5) ∷ (ping, 6) ∷ []))
unfolding Map.get
window_passes_exactly_example =
    window_passes_exactly [] ping 5 ((ping, 6) ∷ []) (inl refl) ((λ e. omega arith), tt)
      (omega arith)

abbrev counter : Client
counter = record {
  Server = ℕ;
  incr = λ k n. (some (integer (pos (suc n))), suc n);
  pexpire = λ k ms n. (some (integer (pos 1)), n);
  pttl = λ k n. (some (integer (pos 700)), n);
}

abbrev options : Options
options = record {
  key = text "u";
  bucket = text "send";
  limit = int (pos 5);
  window_ms = int (pos 1000);
  require_distributed = true;
}

abbrev settings : Settings
settings = record {
  disabled = false;
  backend = memory;
  distributed = false;
  prefix = text "security:rate-limit";
}

abbrev start : State counter
start = record {
  buckets = [];
  health = record {
    requested = memory;
    active = memory;
    degraded = false;
    reason = none;
    last_failure_at = none;
    require_distributed = false;
  };
  server = 2;
}

required_limit_fails_closed_example :
    ((rate_limit counter settings true options 9 start).1.buckets ≡ [])
    × (is_passed (rate_limit counter settings true options 9 start).0 ≡ true
        → (true ≡ true)
          × Counted counter settings.prefix
              (call_of options)
              start.server
              (rate_limit counter settings true options 9 start).0)
required_limit_fails_closed_example =
    required_limit_fails_closed counter settings true options 9 start refl refl

degraded_iff_Failed_example :
    ((rate_limit counter settings true options 9 start).1.health.degraded ≡ true) ↔ (
      ((wants_redis memory || requires settings options) ≡ true)
      × Failed counter settings true options 9 start)
unfolding normalize_limit
degraded_iff_Failed_example =
    degraded_iff_Failed counter settings true options 9 start refl (omega arith)
