-- ===== src/SigningIntent/Contend.antt =====
-- The branch of `claimNextQueuedWalletSigningIntent` in Postgres: find the oldest queued row, then take
-- it by an update that counts and read it again, at most five times. What other processes do to the
-- table between any two queries is an argument. The table is an interface with the laws that Prisma
-- documents of `findFirst`, `findUnique` and `updateMany`.
use aljama_wallet.Base.{
  ℕ, zero, suc, ◌≤◌, true, false, ◌≡◌, ◌⊎◌, ap, ◌∙◌, inl, inr, sym, Option, none, some, Text, text,
  text_eq, ◌==◌, nat_eq, Option-cases, Bool-cases, ==_iff,
}
use aljama_wallet.SigningIntent.Postgres.{Row}

pub record IntentTable : Type 1 where
  pub Rows : Type 0
  pub find_unique : Rows → Text → Option Row
  -- `findFirst` of the queued rows, by their time of creation
  pub find_first_queued : Rows → Option Row
  -- `updateMany` of the row with the id, if it is queued, and the number of rows that it changed
  pub approve_if_queued : Rows → Text → ℕ × Rows

abbrev pub max_attempts : ℕ
max_attempts = 5

module _ (T : IntentTable) where
  open T use {Rows, find_unique, find_first_queued, approve_if_queued}

  -- The table has the id, with this status.
  abbrev pub HasStatus : Rows → Text → Text → Type 0
  HasStatus t id status = (r : Row) × (find_unique t id ≡ some r) × (r.status ≡ status)

  pub record Laws : Type 0 where
    pub first_is_queued :
        (t : Rows) (r : Row) → find_first_queued t ≡ some r → HasStatus t r.id (text "queued")
    pub first_is_earliest :
        (t : Rows) (r q : Row)
        → find_first_queued t ≡ some r
        → find_unique t q.id ≡ some q
        → q.status ≡ text "queued"
        → r.created_at ≤ q.created_at
    pub approves_queued :
        (t : Rows) (id : Text)
        → HasStatus t id (text "queued")
        → ((approve_if_queued t id).0 ≡ 1)
          × HasStatus (approve_if_queued t id).1 id (text "approved")
    pub skips_others :
        (t : Rows) (id : Text) → ¬ HasStatus t id (text "queued") → approve_if_queued t id ≡ (0, t)

  -- What other processes do at an attempt, of which so many are left: between its two first queries, and
  -- behind the update, before the row is read again or the next attempt begins.
  pub record Others : Type 0 where
    pub before_update : ℕ → Rows → Rows
    pub after_update : ℕ → Rows → Rows

  -- The loop, with the number of attempts that are left.
  unfoldable pub claim_attempts : ℕ → Others → Rows → Option Row × Rows
  claim_attempts zero others t = (none, t)
  claim_attempts (suc n) others t = elim (find_first_queued t) [
    | none ↦ (none, t)
    | some row ↦
        let (count, updated) = approve_if_queued (others.before_update n t) row.id in
        let t' = others.after_update n updated in
        elim (count == 1) [
          | true ↦ (find_unique t' row.id, t')
          | false ↦ claim_attempts n others t'
        ]
  ]

  unfoldable pub claim_in_pg : Others → Rows → Option Row × Rows
  claim_in_pg others t = claim_attempts max_attempts others t

  abbrev updated : Others → ℕ → Rows → Row → ℕ × Rows
  updated others n t row = approve_if_queued (others.before_update n t) row.id

  abbrev pub behind : Others → ℕ → Rows → Row → Rows
  behind others n t row = others.after_update n (updated others n t row).1

  -- How the loop can end: with what is read under the id of a row that was queued just before its update
  -- and approved right behind it, or with an empty queue, or after attempts each of which lost its row
  -- to another process.
  pub data Ends (others : Others) : ℕ → Rows → Option Row × Rows → Type 0 where
    spent : {t : Rows} → Ends others zero t (none, t)
    empty : {n : ℕ} {t : Rows} → find_first_queued t ≡ none → Ends others (suc n) t (none, t)
    took :
        {n : ℕ} {t : Rows} {row : Row}
        → find_first_queued t ≡ some row
        → HasStatus (others.before_update n t) row.id (text "queued")
        → HasStatus (updated others n t row).1 row.id (text "approved")
        → Ends others (suc n) t (find_unique (behind others n t row) row.id, behind others n t row)
    lost :
        {n : ℕ} {t : Rows} {row : Row} {end : Option Row × Rows}
        → find_first_queued t ≡ some row
        → ¬ HasStatus (others.before_update n t) row.id (text "queued")
        → (updated others n t row).0 ≡ 0
        → Ends others n (behind others n t row) end
        → Ends others (suc n) t end

  queued_or_not :
      (t : Rows) (id : Text) → HasStatus t id (text "queued") ⊎ ¬ HasStatus t id (text "queued")
  queued_or_not t id = elim (Option-cases (find_unique t id)) [
    | inl missing ↦ inr (λ (r, here, _). cc)
    | inr (r, here) ↦ elim (Bool-cases (r.status == text "queued")) [
      | inl hit ↦ inl (r, here, (==_iff r.status (text "queued")).0 hit)
      | inr miss ↦ inr (λ (q, there, e). not_status r q t id here there miss e)
    ]
  ]
    where
      not_status :
          (r q : Row) (t : Rows) (id : Text)
          → find_unique t id ≡ some r
          → find_unique t id ≡ some q
          → (r.status == text "queued") ≡ false
          → q.status ≡ text "queued"
          → ⊥
      not_status r q t id here there miss e =
          let same : q ≡ r = cc in
          let hit = (==_iff r.status (text "queued")).1 (ap (λ x. x.status) (sym same) ∙ e) in cc

  module _ (law : Laws) (others : Others) where
    attempts-Ends : (n : ℕ) (t : Rows) → Ends others n t (claim_attempts n others t)
    unfolding claim_attempts
    attempts-Ends zero t = spent
    attempts-Ends (suc n) t = elim (Option-cases (find_first_queued t)) [
      | inl none_left ↦ rw (none_left, claim_attempts) (empty none_left)
      | inr (row, e) ↦ rw (e, claim_attempts) (attempt n t row e λ t'. attempts-Ends n t')
    ]
      where
        attempt :
            (n : ℕ) (t : Rows) (row : Row)
            → find_first_queued t ≡ some row
            → ((t' : Rows) → Ends others n t' (claim_attempts n others t'))
            → Ends others (suc n) t (elim (((updated others n t row).0) == 1) [
              | true ↦ (find_unique (behind others n t row) row.id, behind others n t row)
              | false ↦ claim_attempts n others (behind others n t row)
            ])
        attempt n t row e rest = elim (queued_or_not (others.before_update n t) row.id) [
          | inl free ↦
              let (one, approved) = law.approves_queued (others.before_update n t) row.id free in
              rw one (took e free approved)
          | inr gone ↦
              let none_changed =
                ap (λ x. x.0) (law.skips_others (others.before_update n t) row.id gone) in
              rw none_changed (lost e gone none_changed (rest (behind others n t row)))
        ]

    -- Whatever other processes do to the table between any two queries, the loop of a claim ends within
    -- five attempts: with what is read under the id of a row that was queued just before its update and
    -- approved right behind it, or with an empty queue, or after every attempt lost its row to another
    -- process.
    pub claim_in_pg-Ends : (t : Rows) → Ends others max_attempts t (claim_in_pg others t)
    unfolding claim_in_pg
    claim_in_pg-Ends t = attempts-Ends max_attempts t
