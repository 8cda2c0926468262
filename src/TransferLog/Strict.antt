-- ===== src/TransferLog/Strict.antt =====
-- In strict mode with a database no attempt is ever kept in memory.
use aljama_wallet.Base.{
  ℕ, true, some, List, [], ◌∷◌, ◌≡◌, ◌≢◌, ◌⊎◌, refl, ap, ◌∙◌, inl, inr, Text, normalize_nullable,
  All, Option-cases,
}
use aljama_wallet.TransferLog.{Log, normalized_hashes}
use aljama_wallet.TransferLog.Service.{
  Database, no_database, answered, failed, with_fallback, Call, record_attempt, update_status,
  update_by_hash, replace, record_in_service, update_status_in_service, update_by_hash_in_service,
  replace_in_service, step, run,
}

abbrev pub HasDatabase : Call → Type 0
HasDatabase (record_attempt i uuid db) = db ≢ no_database
HasDatabase (update_status id status u db) = db ≢ no_database
HasDatabase (update_by_hash h u db) = db ≢ no_database
HasDatabase (replace hs by r db) = db ≢ no_database

strict_fallback :
    {A : Type 0} (db : Database A) (logs : List Log) (memory : List Log → A × List Log)
    → db ≢ no_database
    → (with_fallback true db logs memory).1 ≡ logs
unfolding with_fallback
strict_fallback no_database logs memory h = absurd (h refl)
strict_fallback (answered a) logs memory h = refl
strict_fallback failed logs memory h = refl

list_cases : (l : List Text) → (l ≡ []) ⊎ ((t : Text) × (ts : List Text) × (l ≡ t ∷ ts))
list_cases [] = inl refl
list_cases (t ∷ ts) = inr (t, ts, refl)

strict_step :
    (logs : List Log) (now : ℕ) (c : Call) → HasDatabase c → step true logs (now, c) ≡ logs
unfolding step record_in_service update_status_in_service update_by_hash_in_service
    replace_in_service
strict_step logs now (record_attempt i uuid db) h = strict_fallback db logs _ h
strict_step logs now (update_status id status u db) h = strict_fallback db logs _ h
strict_step logs now (update_by_hash t u db) h = elim (Option-cases (normalize_nullable (some t))) [
  | inl blank ↦ rw (blank, step, update_by_hash_in_service) refl
  | inr (hash, full) ↦ rw (full, step, update_by_hash_in_service) (strict_fallback db logs _ h)
]
strict_step logs now (replace hs by r db) h = elim (list_cases (normalized_hashes hs)) [
  | inl nothing ↦ rw (nothing, step, replace_in_service) refl
  | inr (t, ts, full) ↦ rw (full, step, replace_in_service) (strict_fallback db logs _ h)
]

-- In strict mode, where every call finds a database configured, the log in memory never changes,
-- whether the database answers or fails, through any sequence of calls.
pub strict_never_in_memory :
    (logs : List Log) (cs : List (ℕ × Call))
    → All (λ c. HasDatabase c.1) cs
    → run true logs cs ≡ logs
unfolding run
strict_never_in_memory logs [] h = refl
strict_never_in_memory logs ((now, c) ∷ cs) (here, later) =
    ap (λ l. run true l cs) (strict_step logs now c here) ∙ strict_never_in_memory logs cs later
