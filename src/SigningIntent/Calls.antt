-- ===== src/SigningIntent/Calls.antt =====
-- The calls that other parts make of services/signing-intent.service.ts, in the order in which they
-- run, and what a call keeps of the records in memory. The statuses are those that the functions
-- `markWalletSigningIntent...` and `reopenWalletSigningIntentByTxHash` give.
use aljama_wallet.Base.{ℕ, Bool, Option, none, some, List, [], ◌∷◌, Text, text_eq}
use aljama_wallet.SigningIntent.{Details, CreateInput, Updates}
use aljama_wallet.SigningIntent.Memory.{
  Setting, Store, next_queued, claim_next, get_intent, update_intent, update_by_tx_hash,
  mark_signed, mark_submitted, mark_confirmed, reopen, mark_failed,
}
use aljama_wallet.SigningIntent.Create.{create_intent, intent_id}

pub data Mark : Type 0 where
  as_signed : Text → Option Text → Mark
  as_submitted : Option (Option Text) → Text → Mark
  as_failed : Text → Option Details → Option (Option Text) → Mark

pub data HashMark : Type 0 where
  as_confirmed as_reopened : HashMark
  as_failed_by_hash : Text → Option Details → HashMark

abbrev pub marking : Mark → Updates
marking (as_signed signed_payload hash) = mark_signed signed_payload hash
marking (as_submitted signed_payload hash) = mark_submitted signed_payload hash
marking (as_failed code details hash) = mark_failed code details hash

abbrev pub hash_marking : HashMark → Updates
hash_marking as_confirmed = mark_confirmed
hash_marking as_reopened = reopen
hash_marking (as_failed_by_hash code details) = mark_failed code details none

-- The Boolean says whether the disk takes a file, where the call comes to archive one.
pub data Call : Type 0 where
  create : CreateInput → Text → Bool → Call
  read : Text → Bool → Call
  mark : Text → Mark → Bool → Call
  mark_by_hash : Text → HashMark → Call
  claim : Bool → Call

-- With the two readings of the clock.
unfoldable pub step : Setting → Store → ℕ × ℕ × Call → Store
step cfg s (now, later, create i uuid writes) = (create_intent cfg s i uuid now later writes).1
step cfg s (now, later, read id writes) = (get_intent cfg s id now writes).1
step cfg s (now, later, mark id m writes) = (update_intent cfg s id (marking m) now later writes).1
step cfg s (now, later, mark_by_hash hash m) = (update_by_tx_hash s hash (hash_marking m) now).1
step cfg s (now, later, claim writes) = (claim_next cfg s now later writes).1

-- The id of the intent that a call claims, if it does.
abbrev pub claimed_by : Store → Call → Option Text
claimed_by s (claim writes) = elim (next_queued s) [ none ↦ none | some r ↦ some r.intent.id ]
claimed_by s _ = none

abbrev pub consed : Option Text → List Text → List Text
consed none ids = ids
consed (some id) ids = id ∷ ids

-- The ids that the calls claim, in their order.
unfoldable pub claims : Setting → Store → List (ℕ × ℕ × Call) → List Text
claims cfg s [] = []
claims cfg s ((now, later, c) ∷ cs) =
    consed (claimed_by s c) (claims cfg (step cfg s (now, later, c)) cs)

-- The ids that the calls give to new intents.
abbrev pub created_ids : List (ℕ × ℕ × Call) → List Text
created_ids [] = []
created_ids ((now, later, create i uuid writes) ∷ cs) = intent_id uuid ∷ created_ids cs
created_ids (_ ∷ cs) = created_ids cs
