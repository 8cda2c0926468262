-- ===== src/Idempotency/Memory.antt =====
-- The map in memory keeps the promises of the guard outside strict mode; in strict mode it forgets.
use aljama_wallet.Base.{
  ℕ, ◌+◌, ◌<◌, ◌≡◌, ◌≢◌, refl, inl, inr, true, false, Option, arith, ltb, Text, text_eq, ==_iff,
  ◌==◌, or_else, length, Option-cases, Bool-cases,
}
use aljama_wallet.Base.Map
use aljama_wallet.Idempotency.{
  Keys, done, cache_key, is_live, cap_keys, reserve_in_memory, release_in_memory, max_keys,
  default_ttl_ms,
}
use aljama_wallet.Idempotency.Guard.{Promises, refused, accepted, Guard}

abbrev pub expiry_in_memory : Keys → Text → Text → Option ℕ
expiry_in_memory keys scope key = Map.get keys (cache_key scope key)

ne_false : (k j : Text) → k ≢ j → (k == j) ≡ false
ne_false k j h = ground (arith, ==_iff k j)

module _ (keys : Keys) (scope key : Text) (ttl : Option ℕ) (checked stored : ℕ) where
  accepted_in_memory :
      is_live (expiry_in_memory keys scope key) checked ≡ false
      → Promises expiry_in_memory keys scope key checked
          (stored + or_else ttl default_ttl_ms)
          (reserve_in_memory false keys scope key ttl checked stored)
  unfolding reserve_in_memory cap_keys
  accepted_in_memory dead =
      rw (dead, reserve_in_memory)
        (accepted dead refl (Map.get-set_self keys (cache_key scope key) _)
          λ scope' key' other. simp (Map.get-set, ne_false _ _ other))

  -- Outside strict mode a reservation in memory is refused exactly while the key's entry is live,
  -- changing nothing; otherwise the key is live until the time to live is over, and no other key is
  -- touched.
  pub reserve_in_memory-Promises :
      Promises expiry_in_memory keys scope key checked
        (stored + or_else ttl default_ttl_ms)
        (reserve_in_memory false keys scope key ttl checked stored)
  unfolding reserve_in_memory
  reserve_in_memory-Promises = elim (Option-cases (expiry_in_memory keys scope key)) [
    | inl missing ↦ accepted_in_memory (rw missing)
    | inr (e, found) ↦ elim (Bool-cases (ltb checked e)) [
      | inl live ↦ refused e found (ground arith) (rw (found, reserve_in_memory, live))
      | inr dead ↦ accepted_in_memory (rw found dead)
    ]
  ]

pub release_in_memory_other :
    (keys : Keys) (scope key scope' key' : Text)
    → cache_key scope key ≢ cache_key scope' key'
    → expiry_in_memory (release_in_memory keys scope key) scope' key'
      ≡ expiry_in_memory keys scope' key'
unfolding release_in_memory
release_in_memory_other keys scope key scope' key' other = simp (Map.get-delete, ne_false _ _ other)

abbrev pub memory_guard : Guard
memory_guard = record {
  State = Keys;
  expiry = expiry_in_memory;
  reserve =
      λ s scope key ttl checked started. reserve_in_memory false s scope key ttl checked started;
  release = release_in_memory;
  reserve_promises = reserve_in_memory-Promises;
  release_other = release_in_memory_other;
}

-- In strict mode the key that makes the map longer than 10,000 empties it: any key whatever, also
-- one that was live before, can then be reserved at once.
strict_overflow_forgets :
    (keys : Keys) (scope key : Text) (ttl : Option ℕ) (checked stored : ℕ)
    → is_live (expiry_in_memory keys scope key) checked ≡ false
    → max_keys < length (Map.set keys (cache_key scope key) (stored + or_else ttl default_ttl_ms))
    → (scope' key' : Text) (ttl' : Option ℕ) (checked' stored' : ℕ)
    → (reserve_in_memory true
        (reserve_in_memory true keys scope key ttl checked stored).1
        scope'
        key'
        ttl'
        checked'
        stored').0
      ≡ done
unfolding reserve_in_memory cap_keys Map.get
strict_overflow_forgets keys scope key ttl checked stored dead full scope' key' ttl' checked'
      stored' =
    let over : ltb max_keys
          (length (Map.set keys (cache_key scope key) (stored + or_else ttl default_ttl_ms)))
        ≡ true =
      ground arith in
    rw (dead, reserve_in_memory, over)
