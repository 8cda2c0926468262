-- ===== src/TransferLog/Service.antt =====
-- The functions that services/transfer-log.service.ts exports: each asks Postgres where a URL is
-- configured, throws in strict mode if that fails, and otherwise falls back to the log in memory.
use aljama_wallet.Base.{
  ℕ, Bool, Option, none, some, List, [], ◌∷◌, if◌then◌else◌, map, Text, normalize_nullable, ℤ,
}
use aljama_wallet.Risk.{Stats}
use aljama_wallet.TransferLog.{
  Log, Input, Updates, record_transfer_attempt, update_transfer_status,
  update_transfer_attempt_by_tx_hash, replace_transfer_attempts_by_tx_hashes, normalized_hashes,
}
use aljama_wallet.TransferLog.Queries.{
  get_recent_transfer_stats, list_transfer_attempts, count_transfer_attempts,
  get_latest_transfer_attempt,
}
use aljama_wallet.TransferLog.Postgres.{Row, map_db_record}

-- What becomes of a query: there is no database, or it answers, or it throws.
pub data Database {ℓ} (A : Type ℓ) : Type ℓ where
  no_database : Database A
  answered : A → Database A
  failed : Database A

-- `none` is the error thrown on to the caller.
unfoldable pub with_fallback :
    {A : Type 0} → Bool → Database A → List Log → (List Log → A × List Log) → Option A × List Log
with_fallback strict no_database logs memory = let (a, logs') = memory logs in (some a, logs')
with_fallback strict (answered a) logs memory = (some a, logs)
with_fallback strict failed logs memory =
    let (a, logs') = memory logs in if strict then (none, logs) else (some a, logs')

-- The calls of the other services, each with what the database makes of it.
pub data Call : Type 0 where
  record_attempt : Input → Text → Database Text → Call
  update_status : Text → Text → Updates → Database (Unit {0}) → Call
  update_by_hash : Text → Updates → Database (Unit {0}) → Call
  replace : List Text → Text → Option Text → Database (Unit {0}) → Call

abbrev pub silent : (List Log → List Log) → List Log → Unit {0} × List Log
silent f logs = (tt, f logs)

unfoldable pub record_in_service :
    Bool → Database Text → List Log → Input → Text → ℕ → Option Text × List Log
record_in_service strict db logs i uuid now =
    with_fallback strict db logs λ l. record_transfer_attempt l i uuid now

unfoldable pub update_status_in_service :
    Bool → Database (Unit {0}) → List Log → Text → Text → Updates → ℕ → Option (Unit {0}) × List Log
update_status_in_service strict db logs id status extras now =
    with_fallback strict db logs (silent λ l. update_transfer_status l id status extras now)

-- A blank hash returns before the database is asked.
unfoldable pub update_by_hash_in_service :
    Bool → Database (Unit {0}) → List Log → Text → Updates → ℕ → Option (Unit {0}) × List Log
update_by_hash_in_service strict db logs tx_hash u now = elim (normalize_nullable (some tx_hash)) [
  | none ↦ (some tt, logs)
  | some hash ↦
      with_fallback strict db logs (silent λ l. update_transfer_attempt_by_tx_hash l tx_hash u now)
]

unfoldable pub replace_in_service :
    Bool
    → Database (Unit {0})
    → List Log
    → List Text
    → Text
    → Option Text
    → ℕ
    → Option (Unit {0}) × List Log
replace_in_service strict db logs tx_hashes replaced_by replaces now =
    elim (normalized_hashes tx_hashes) [
      | [] ↦ (some tt, logs)
      | h ∷ hs ↦
          with_fallback strict db logs (
            silent λ l. replace_transfer_attempts_by_tx_hashes l tx_hashes replaced_by replaces now)
    ]

abbrev pub reading : {A : Type 0} → (List Log → A) → List Log → A × List Log
reading f logs = (f logs, logs)

unfoldable pub stats_in_service :
    Bool → Database Stats → List Log → Text → ℕ → Text → ℤ → ℕ → Option Stats × List Log
stats_in_service strict db logs wallet_id chain_id to_address window now =
    with_fallback strict db logs
      (reading λ l. get_recent_transfer_stats l wallet_id chain_id to_address window now)

-- Rows that the database answers are read as records.
abbrev pub answer_map : {A B : Type 0} → (A → B) → Database A → Database B
answer_map f no_database = no_database
answer_map f (answered a) = answered (f a)
answer_map f failed = failed

unfoldable pub list_in_service :
    Bool
    → Database (List Row)
    → List Log
    → Text
    → Option ℤ
    → Option ℕ
    → Option (List Log) × List Log
list_in_service strict db logs wallet_id limit before =
    with_fallback strict (answer_map (map map_db_record) db) logs
      (reading λ l. list_transfer_attempts l wallet_id limit before)

unfoldable pub count_in_service :
    Bool → Database ℕ → List Log → Text → Option ℕ → Option ℕ × List Log
count_in_service strict db logs wallet_id since =
    with_fallback strict db logs (reading λ l. count_transfer_attempts l wallet_id since)

abbrev pub read_row : Option Row → Option Log
read_row none = none
read_row (some r) = some (map_db_record r)

unfoldable pub latest_in_service :
    Bool → Database (Option Row) → List Log → Text → Option (Option Log) × List Log
latest_in_service strict db logs wallet_id =
    with_fallback strict (answer_map read_row db) logs
      (reading λ l. get_latest_transfer_attempt l wallet_id)

unfoldable pub step : Bool → List Log → ℕ × Call → List Log
step strict logs (now, record_attempt i uuid db) = (record_in_service strict db logs i uuid now).1
step strict logs (now, update_status id status u db) =
    (update_status_in_service strict db logs id status u now).1
step strict logs (now, update_by_hash h u db) = (update_by_hash_in_service strict db logs h u now).1
step strict logs (now, replace hs by r db) = (replace_in_service strict db logs hs by r now).1

unfoldable pub run : Bool → List Log → List (ℕ × Call) → List Log
run strict logs [] = logs
run strict logs (c ∷ cs) = run strict (step strict logs c) cs
