-- ===== src/SigningIntent/Once.antt =====
-- That no intent in memory is claimed twice.
use aljama_wallet.Base.{
  ℕ, Bool, ◌≡◌, ◌≢◌, refl, inl, inr, some, List, [], ◌∷◌, Text, text_eq, Option-cases, arith, All,
  NoRepeat, sym, true,
}
use aljama_wallet.Base.Map.Values.{AllValues-map}
use aljama_wallet.Base.Map.Keyed.{Keyed, set-Keyed, set_only}
use aljama_wallet.SigningIntent.{Status, queued, Stored, apply_updates}
use aljama_wallet.SigningIntent.Memory.{
  Setting, Store, put, empty, is_queued, claimed_from, next_queued, claim_next,
}
use aljama_wallet.SigningIntent.Effect.{id_of}
use aljama_wallet.SigningIntent.Claim.{next_queued-queued}
use aljama_wallet.SigningIntent.Calls.{
  Call, create, read, mark, mark_by_hash, claim, step, claimed_by, consed, claims, created_ids,
}
use aljama_wallet.SigningIntent.Kept.{Holds, materialize-Holds, next-Q, Wants, step-Holds}

-- A record with this id is not queued.
abbrev Settled : Text → Text → Status → Type 0
Settled id i st = i ≡ id → st ≢ queued

Settled-moves : (id i : Text) (st st' : Status) → Settled id i st → st' ≢ queued → Settled id i st'
Settled-moves id i st st' q ne = λ e. ne

-- The id is none of those that calls will give.
abbrev Fresh : List Text → Text → Status → Type 0
Fresh ids i st = All (λ u. i ≢ u) ids

is_queued-status : (r : Stored) → is_queued r ≡ true → r.intent.status ≡ queued
is_queued-status r e = ground arith

-- What is settled is not what the next claim takes,
next-not_settled :
    (s : Store) (r : Stored) (id : Text)
    → next_queued s ≡ some r
    → Holds (Settled id) s
    → id ≢ r.intent.id
next-not_settled s r id e h same =
    next-Q (Settled id) (Settled-moves id) s r e h (sym same)
      (is_queued-status r (next_queued-queued s r e))

-- and what a claim takes is settled.
claim-Settled :
    (cfg : Setting) (s : Store) (r : Stored) (now later : ℕ) (writes : Bool)
    → next_queued s ≡ some r
    → Keyed id_of s.intents
    → Holds (Settled r.intent.id) (claim_next cfg s now later writes).1
unfolding claim_next apply_updates
claim-Settled cfg s r now later writes e keyed =
    let c = claimed_from r now in
    rw (e, claim_next)
      (materialize-Holds (Settled r.intent.id) cfg (put s c) c later writes (λ _ e'. cc)
        (
          set-Keyed id_of s.intents r.intent.id c refl keyed,
          set_only id_of (λ w. w.intent.status ≢ queued) s.intents r.intent.id c keyed λ e'. cc,
        ))

abbrev Ungiven : List (ℕ × ℕ × Call) → Text → Type 0
Ungiven cs id = All (λ u. id ≢ u) (created_ids cs)

rest-Wants :
    (now later : ℕ) (c : Call) (cs : List (ℕ × ℕ × Call)) (id : Text)
    → Ungiven ((now, later, c) ∷ cs) id
    → Wants (Settled id) (Settled-moves id) c × Ungiven cs id
rest-Wants now later (create i uuid writes) cs id (ne, l) = ((λ e. absurd (ne (sym e))), l)
rest-Wants now later (read j writes) cs id l = (tt, l)
rest-Wants now later (mark j m writes) cs id l = (tt, l)
rest-Wants now later (mark_by_hash j m) cs id l = (tt, l)
rest-Wants now later (claim writes) cs id l = (tt, l)

unclaimed-consed :
    (s : Store) (c : Call) (id : Text) (ids : List Text)
    → Holds (Settled id) s
    → All (λ j. id ≢ j) ids
    → All (λ j. id ≢ j) (consed (claimed_by s c) ids)
unclaimed-consed s (create i uuid writes) id ids h l = l
unclaimed-consed s (read j writes) id ids h l = l
unclaimed-consed s (mark j m writes) id ids h l = l
unclaimed-consed s (mark_by_hash j m) id ids h l = l
unclaimed-consed s (claim writes) id ids h l = elim (Option-cases (next_queued s)) [
  | inl none_left ↦ rw (none_left, All) l
  | inr (r, e) ↦ rw (e, All) (next-not_settled s r id e h, l)
]

settled-unclaimed :
    (cfg : Setting) (s : Store) (cs : List (ℕ × ℕ × Call)) (id : Text)
    → Holds (Settled id) s
    → Ungiven cs id
    → All (λ j. id ≢ j) (claims cfg s cs)
unfolding claims
settled-unclaimed cfg s [] id h l = tt
settled-unclaimed cfg s ((now, later, c) ∷ cs) id h l =
    let (wants, l') = rest-Wants now later c cs id l in
    unclaimed-consed s c id _ h (
      settled-unclaimed cfg (step cfg s (now, later, c)) cs id
        (step-Holds (Settled id) (Settled-moves id) cfg s now later c wants h) l')

abbrev Unmoved :
    (ids : List Text) (i : Text) (st st' : Status) → Fresh ids i st → st' ≢ queued → Fresh ids i st'
Unmoved ids i st st' q ne = q

fresh-Wants :
    (s : Store) (now later : ℕ) (c : Call) (cs : List (ℕ × ℕ × Call))
    → Holds (Fresh (created_ids ((now, later, c) ∷ cs))) s
    → NoRepeat (created_ids ((now, later, c) ∷ cs))
    → Wants (Fresh (created_ids cs)) (Unmoved (created_ids cs)) c
      × Holds (Fresh (created_ids cs)) s
      × NoRepeat (created_ids cs)
fresh-Wants s now later (create i uuid writes) cs (keyed, h) (ne, n) =
    (ne, (keyed, AllValues-map (λ r q. q.1) s.intents h), n)
fresh-Wants s now later (read j writes) cs h n = (tt, h, n)
fresh-Wants s now later (mark j m writes) cs h n = (tt, h, n)
fresh-Wants s now later (mark_by_hash j m) cs h n = (tt, h, n)
fresh-Wants s now later (claim writes) cs h n = (tt, h, n)

once-consed :
    (cfg : Setting) (s : Store) (now later : ℕ) (c : Call) (cs : List (ℕ × ℕ × Call))
    → Holds (Fresh (created_ids cs)) s
    → NoRepeat (claims cfg (step cfg s (now, later, c)) cs)
    → NoRepeat (claims cfg s ((now, later, c) ∷ cs))
unfolding claims step
once-consed cfg s now later (create i uuid writes) cs h n = n
once-consed cfg s now later (read j writes) cs h n = n
once-consed cfg s now later (mark j m writes) cs h n = n
once-consed cfg s now later (mark_by_hash j m) cs h n = n
once-consed cfg s now later (claim writes) cs h n = elim (Option-cases (next_queued s)) [
  | inl none_left ↦ rw (none_left, claims, NoRepeat) n
  | inr (r, e) ↦
      rw (e, claims, NoRepeat)
        (
          settled-unclaimed cfg _ cs r.intent.id (claim-Settled cfg s r now later writes e h.0)
              (next-Q (Fresh (created_ids cs)) (Unmoved (created_ids cs)) s r e h),
          n,
        )
]

fresh-once :
    (cfg : Setting) (s : Store) (cs : List (ℕ × ℕ × Call))
    → Holds (Fresh (created_ids cs)) s
    → NoRepeat (created_ids cs)
    → NoRepeat (claims cfg s cs)
unfolding claims
fresh-once cfg s [] h n = tt
fresh-once cfg s ((now, later, c) ∷ cs) h n =
    let (wants, h', n') = fresh-Wants s now later c cs h n in
    once-consed cfg s now later c cs h' (
      fresh-once cfg (step cfg s (now, later, c)) cs
        (step-Holds (Fresh (created_ids cs)) (Unmoved (created_ids cs)) cfg s now later c wants h')
        n')

-- Through any sequence of the calls of the other parts on the empty map, each running to its end
-- before the next one, with no identifier drawn twice, no intent is claimed twice.
pub claimed_once :
    (cfg : Setting) (cs : List (ℕ × ℕ × Call))
    → NoRepeat (created_ids cs)
    → NoRepeat (claims cfg empty cs)
claimed_once cfg cs n = fresh-once cfg empty cs (tt, tt) n
