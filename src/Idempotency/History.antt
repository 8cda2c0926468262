-- ===== src/Idempotency/History.antt =====
-- How long a key that was reserved is refused, through any other calls.
use aljama_wallet.Base.{
  ℕ, ◌+◌, ◌<◌, ◌≡◌, ◌≢◌, ap, sym, ◌∙◌, inl, inr, Option, some, List, [], ◌∷◌, arith, Text, text_eq,
  ==_iff, ◌==◌, or_else, All, Bool-cases,
}
use aljama_wallet.Idempotency.{KeyTable, done, failed, replay, cache_key, default_ttl_ms, is_live}
use aljama_wallet.Idempotency.Memory.{memory_guard}
use aljama_wallet.Idempotency.Table.{Laws, table_guard}
use aljama_wallet.Idempotency.Guard.{Guard, refused, accepted}

pub data Call : Type 0 where
  reserve : Text → Text → Option ℕ → ℕ → ℕ → Call
  release : Text → Text → Call

-- A call in the time of the key's life: a reservation, at a time before the expiry, of a key that is
-- this one or has another text; or the release of a key with another text.
abbrev pub Respects : Text → Text → ℕ → Call → Type 0
Respects scope key e (reserve scope' key' ttl checked started) =
    (checked < e) × (cache_key scope' key' ≡ cache_key scope key → (scope' ≡ scope) × (key' ≡ key))
Respects scope key e (release scope' key') = cache_key scope' key' ≢ cache_key scope key

-- The stores that keep the promises: the map in memory outside strict mode, and a table with the laws of
-- its unique key.
pub data Backend : Type 1 where
  in_memory : Backend
  in_table : (t : KeyTable) → Laws t → Backend

abbrev pub guard_of : Backend → Guard
guard_of in_memory = memory_guard
guard_of (in_table t laws) = table_guard t laws

module _ (g : Guard) where
  abbrev pub step : g.State → Call → g.State
  step s (reserve scope key ttl checked started) = (g.reserve s scope key ttl checked started).1
  step s (release scope key) = g.release s scope key

  abbrev pub run : g.State → List Call → g.State
  run s [] = s
  run s (c ∷ cs) = run (step s c) cs

  abbrev Live : Text → Text → ℕ → g.State → Type 0
  Live scope key e s = g.expiry s scope key ≡ some e

  same_key :
      (s : g.State) (scope key : Text) (e : ℕ) (ttl : Option ℕ) (checked started : ℕ)
      → Live scope key e s
      → checked < e
      → g.reserve s scope key ttl checked started ≡ (failed replay, s)
  same_key s scope key e ttl checked started live soon =
      elim (g.reserve_promises s scope key ttl checked started) [
        | refused x found later r ↦ r
        | accepted dead made now others ↦
            absurd (ground (arith, ap (λ o. is_live o checked) (sym live) ∙ dead))
      ]

  other_key :
      (s : g.State) (scope key scope' key' : Text) (e : ℕ) (ttl : Option ℕ) (checked started : ℕ)
      → Live scope key e s
      → cache_key scope' key' ≢ cache_key scope key
      → Live scope key e (g.reserve s scope' key' ttl checked started).1
  other_key s scope key scope' key' e ttl checked started live other =
      elim (g.reserve_promises s scope' key' ttl checked started) [
        | refused x found later r ↦ rw r live
        | accepted dead made now others ↦ others scope key other ∙ live
      ]

  step-Live :
      (scope key : Text) (e : ℕ) (s : g.State) (c : Call)
      → Respects scope key e c
      → Live scope key e s
      → Live scope key e (step s c)
  step-Live scope key e s (reserve scope' key' ttl checked started) (soon, clean) live =
      elim (Bool-cases (cache_key scope' key' == cache_key scope key)) [
        | inl equal ↦
            let (p, q) = clean ((==_iff _ _).0 equal) in
            rw (p, q)
              (ap (λ r. g.expiry r.1 scope key)
                  (same_key s scope key e ttl checked started live soon)
                ∙ live)
        | inr differs ↦
            other_key s scope key scope' key' e ttl checked started live
              (λ p. let t = (==_iff (cache_key scope' key') (cache_key scope key)).1 p in cc)
      ]
  step-Live scope key e s (release scope' key') other live =
      g.release_other s scope' key' scope key other ∙ live

  run-Live :
      (scope key : Text) (e : ℕ) (s : g.State) (cs : List Call)
      → All (Respects scope key e) cs
      → Live scope key e s
      → Live scope key e (run s cs)
  run-Live scope key e s [] h live = live
  run-Live scope key e s (c ∷ cs) (here, later) live =
      run-Live scope key e (step s c) cs later (step-Live scope key e s c here live)

by_guard :
    (g : Guard) (s : g.State) (scope key : Text) (ttl ttl' : Option ℕ)
    (checked started checked' started' : ℕ) (cs : List Call)
    → (g.reserve s scope key ttl checked started).0 ≡ done
    → All (Respects scope key (started + or_else ttl default_ttl_ms)) cs
    → checked' < started + or_else ttl default_ttl_ms
    → (g.reserve
        (run g (g.reserve s scope key ttl checked started).1 cs)
        scope
        key
        ttl'
        checked'
        started').0
      ≡ failed replay
by_guard g s scope key ttl ttl' checked started checked' started' cs made h soon =
    elim (g.reserve_promises s scope key ttl checked started) [
      | refused x found later r ↦ cc (ap (λ p. p.0) r)
      | accepted dead _ now others ↦
          ap (λ p. p.0)
            (same_key g _ scope key _ ttl' checked' started'
              (run-Live g scope key _ (g.reserve s scope key ttl checked started).1 cs h now) soon)
    ]

-- In the map in memory outside strict mode, and in a table with the laws of its unique key: a key that
-- was reserved at a time t is refused to every later reservation whose clock reads less than t and the
-- time to live, whatever was reserved in between and whichever other keys were released, as long as no
-- two of the keys have one text `${scope}:${key}`.
pub refused_until_expiry :
    (b : Backend) (s : (guard_of b).State) (scope key : Text) (ttl ttl' : Option ℕ)
    (checked started checked' started' : ℕ) (cs : List Call)
    → ((guard_of b).reserve s scope key ttl checked started).0 ≡ done
    → All (Respects scope key (started + or_else ttl default_ttl_ms)) cs
    → checked' < started + or_else ttl default_ttl_ms
    → ((guard_of b).reserve
        (run (guard_of b) ((guard_of b).reserve s scope key ttl checked started).1 cs)
        scope
        key
        ttl'
        checked'
        started').0
      ≡ failed replay
refused_until_expiry b = by_guard (guard_of b)
