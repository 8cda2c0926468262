-- ===== src/SigningIntent/Claim.antt =====
-- What `claimNextQueuedWalletSigningIntent` takes from the map in memory.
use aljama_wallet.Base.{
  ℕ, ◌≤◌, Bool, true, false, ◌≡◌, ◌≢◌, ◌⊎◌, ◌∙◌, refl, inl, inr, none, some, List, [], ◌∷◌, Text,
  text_eq, ◌==◌, ==_iff, Bool-cases, Option-cases, done, All, All-map, All-filter, All-of_filter,
  head-sort_up-All, head-sort_up-le, head-sort_up-none, sym, subst,
}
use aljama_wallet.Base.Map
use aljama_wallet.Base.Map.Keyed.{Keyed, get_of_Keyed, AllValues-All}
use aljama_wallet.SigningIntent.{apply_updates, Stored, approved}
use aljama_wallet.SigningIntent.Memory.{
  archived_as, created_of, Setting, Store, put, is_queued, claimed_from, next_queued, claim_next,
}
use aljama_wallet.SigningIntent.Effect.{id_of, materialize_store}

-- The store has, under its id, a record that is approved.
abbrev pub IsApproved : Store → Text → Type 0
IsApproved s id = (r : Stored) × (Map.get s.intents id ≡ some r) × (r.intent.status ≡ approved)

-- The second store is the first after the record was taken from it.
pub record Took (s s' : Store) (r : Stored) : Type 0 where
  pub stored : Map.get s.intents r.intent.id ≡ some r
  pub was_queued : is_queued r ≡ true
  pub earliest : All (λ q. is_queued q ≡ true → created_of r ≤ created_of q) (Map.values s.intents)
  pub now_approved : IsApproved s' r.intent.id
  pub others_kept : (id : Text) → r.intent.id ≢ id → Map.get s'.intents id ≡ Map.get s.intents id

pub next_queued-none :
    (s : Store) → next_queued s ≡ none → All (λ q. is_queued q ≡ false) (Map.values s.intents)
unfolding next_queued
next_queued-none s e =
    All-map (λ q no. elim (Bool-cases (is_queued q)) [ inl hit ↦ absurd (no hit) | inr h ↦ h ]) _
      (All-of_filter (λ _. ⊥) is_queued (Map.values s.intents)
        (subst (All (λ _. ⊥)) (sym (head-sort_up-none created_of _ e)) tt))

module _ (s : Store) (keyed : Keyed id_of s.intents) (r : Stored) (e : next_queued s ≡ some r) where
  pub next_queued-stored : Map.get s.intents r.intent.id ≡ some r
  unfolding next_queued
  next_queued-stored =
      (head-sort_up-All (λ q. (Map.get s.intents (id_of q) ≡ some q) × (is_queued q ≡ true))
        created_of _ r
        (All-filter (λ q. Map.get s.intents (id_of q) ≡ some q) is_queued (Map.values s.intents)
          (AllValues-All _ s.intents (get_of_Keyed id_of s.intents keyed)))
        e).0

pub next_queued-queued : (s : Store) (r : Stored) → next_queued s ≡ some r → is_queued r ≡ true
unfolding next_queued
next_queued-queued s r e =
    (head-sort_up-All (λ q. Unit {0} × (is_queued q ≡ true)) created_of _ r
      (All-filter (λ _. Unit {0}) is_queued (Map.values s.intents)
        (trivially (Map.values s.intents)))
      e).1
  where
    trivially : (qs : List Stored) → All (λ _. Unit {0}) qs
    trivially [] = tt
    trivially (q ∷ qs) = (tt, trivially qs)

next_queued-earliest :
    (s : Store) (r : Stored)
    → next_queued s ≡ some r
    → All (λ q. is_queued q ≡ true → created_of r ≤ created_of q) (Map.values s.intents)
unfolding next_queued
next_queued-earliest s r e =
    All-of_filter (λ q. created_of r ≤ created_of q) is_queued (Map.values s.intents)
      (head-sort_up-le created_of _ r e)

-- An approved record under the id of the one taken leaves the others as they were.
put-approved :
    (s : Store) (a : Stored) (id : Text)
    → a.intent.id ≡ id
    → a.intent.status ≡ approved
    → IsApproved (put s a) id
      × ((j : Text) → id ≢ j → Map.get (put s a).intents j ≡ Map.get s.intents j)
put-approved s a id same status = (
  (a, simp (same, Map.get-set_self), status),
  λ j ne. elim (Bool-cases (a.intent.id == j)) [
    | inl hit ↦ absurd (ne (sym same ∙ (==_iff a.intent.id j).0 hit))
    | inr miss ↦ simp (Map.get-set, miss)
  ],
)

took :
    (s : Store) (r : Stored)
    → next_queued s ≡ some r
    → Keyed id_of s.intents
    → (s' : Store) → IsApproved s' r.intent.id
    → ((j : Text) → r.intent.id ≢ j → Map.get s'.intents j ≡ Map.get s.intents j)
    → Took s s' r
took s r e keyed s' now kept = record {
  stored = next_queued-stored s keyed r e;
  was_queued = next_queued-queued s r e;
  earliest = next_queued-earliest s r e;
  now_approved = now;
  others_kept = kept;
}

pub claim-Took :
    (cfg : Setting) (s : Store) (now checked_at : ℕ) (writes : Bool) (r : Stored)
    → Keyed id_of s.intents
    → next_queued s ≡ some r
    → Took s (claim_next cfg s now checked_at writes).1 r
unfolding claim_next apply_updates
claim-Took cfg s now checked_at writes r keyed e =
    let c = claimed_from r now in
    rw (e, claim_next)
      (materialize_store cfg (put s c) c checked_at writes (λ s'. Took s s' r)
        (took s r e keyed (put s c) (put-approved s c r.intent.id refl refl).0
          (put-approved s c r.intent.id refl refl).1)
        λ url files.
          let (now, kept) =
            put-approved (record (put s c) { files = files }) (archived_as c url) r.intent.id refl
              refl in
          took s r e keyed _ now
            λ j ne. kept j ne ∙ (put-approved s c r.intent.id refl refl).1 j ne)

-- Over a store whose records stand under their ids: a claim of an empty queue answers null and
-- changes nothing; any other claim takes the queued intent that was created first, which is approved
-- from then on, also where its payload then fails to load, and leaves every other one as it was.
pub claim_takes_earliest :
    (cfg : Setting) (s : Store) (now checked_at : ℕ) (writes : Bool)
    → Keyed id_of s.intents
    → ((claim_next cfg s now checked_at writes ≡ (done none, s))
        × All (λ q. is_queued q ≡ false) (Map.values s.intents))
      ⊎ ((r : Stored) × Took s (claim_next cfg s now checked_at writes).1 r)
unfolding claim_next
claim_takes_earliest cfg s now checked_at writes keyed = elim (Option-cases (next_queued s)) [
  | inl empty ↦ inl (rw (empty, claim_next) refl, next_queued-none s empty)
  | inr (r, e) ↦ inr (r, claim-Took cfg s now checked_at writes r keyed e)
]
