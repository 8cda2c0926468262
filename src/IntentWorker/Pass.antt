-- ===== src/IntentWorker/Pass.antt =====
-- What a pass over the queue counts.
use aljama_wallet.Base.{
  ℕ, zero, suc, ◌+◌, ◌≤◌, ◌≡◌, refl, subst, inl, inr, Text, Outcome, done, thrown, Outcome-cases,
  Option-cases, arith,
}
use aljama_wallet.SigningIntent.{Materialized}
use aljama_wallet.SigningIntent.Memory.{Setting, claim_next}
use aljama_wallet.IntentWorker.{
  World, Replies, Counts, counted, process_intent, pass_from, process_queue_pass, no_counts,
}

-- The counts add up, and have grown by at most n.
record AddsUp (n : ℕ) (c c' : Counts) : Type 0 where
  balanced : c'.processed ≡ c'.succeeded + c'.failed
  bounded : c'.processed ≤ c.processed + n

abbrev Balanced : Counts → Type 0
Balanced c = c.processed ≡ c.succeeded + c.failed

counted-Balanced :
    (cfg : Setting) (m : Materialized) (r : Replies) (x : Outcome Text × World) (c : Counts)
    → Balanced c
    → Balanced (counted cfg m r x c).0 × ((counted cfg m r x c).0.processed ≡ c.processed + 1)
counted-Balanced cfg m r (done hash, w) c b = (omega (arith, b), refl)
counted-Balanced cfg m r (thrown e, w) c b = (omega (arith, b), refl)

-- The result of the loop, if it has one, has the property.
abbrev Returns : (Counts → Type 0) → Outcome Counts × World → Type 0
Returns P (done c, w) = P c
Returns P (thrown e, w) = Unit

one_more :
    (n : ℕ) (c c' : Counts) (x : Outcome Counts × World)
    → c'.processed ≡ c.processed + 1
    → Returns (AddsUp n c') x
    → Returns (AddsUp (suc n) c) x
one_more n c c' (thrown e, w) more h = tt
one_more n c c' (done d, w) more h = record {
  balanced = h.balanced;
  bounded = omega (arith, h.bounded, more);
}

pass_from-AddsUp :
    (cfg : Setting) (n : ℕ) (replies : ℕ → Replies) (c : Counts) (w : World)
    → Balanced c
    → Returns (AddsUp n c) (pass_from cfg n replies c w)
unfolding pass_from
pass_from-AddsUp cfg zero replies c w b = record { balanced = b; bounded = omega arith }
pass_from-AddsUp cfg (suc n) replies c w b =
    let r = replies n in
    let (o, intents) = claim_next cfg w.intents r.now r.now r.writes in
    let w' : World = record w { intents = intents } in
    elim (Outcome-cases o) [
      | inr (e, bad) ↦ rw (pass_from, bad, Returns) tt
      | inl (none_or_some, good) ↦ elim (Option-cases none_or_some) [
        | inl empty ↦
            rw (pass_from, good, empty, Returns) (record { balanced = b; bounded = omega arith })
        | inr (m, there) ↦
            let x = counted cfg m r (process_intent cfg w' m r) c in
            let (b', more) = counted-Balanced cfg m r (process_intent cfg w' m r) c b in
            rw (pass_from, good, there)
              (one_more n c x.0 (pass_from cfg n replies x.0 x.1) more
                (pass_from-AddsUp cfg n replies x.0 x.1 b'))
      ]
    ]

-- A pass that ends without an error has processed at most a batch of intents, and each either
-- succeeded or failed.
process_queue_pass-AddsUp :
    (cfg : Setting) (batch_size : ℕ) (replies : ℕ → Replies) (w w' : World) (c : Counts)
    → process_queue_pass cfg batch_size replies w ≡ (done c, w')
    → (c.processed ≡ c.succeeded + c.failed) × (c.processed ≤ batch_size)
unfolding process_queue_pass
process_queue_pass-AddsUp cfg batch_size replies w w' c e =
    let a =
      subst (Returns (AddsUp batch_size no_counts)) e
        (pass_from-AddsUp cfg batch_size replies no_counts w refl) in
    (a.balanced, omega (arith, a.bounded))
