-- ===== src/IntentWorker/Tests.antt =====
-- A pass over two intents, and the theorems applied to it.
use aljama_wallet.Base.{
  ℕ, true, ◌≡◌, ◌⊎◌, refl, none, some, [], text, text_eq, done, thrown, normalize_nullable, ◌==◌,
  nat_eq, if◌then◌else◌,
}
use aljama_wallet.Base.Map
use aljama_wallet.Nonce
use aljama_wallet.SigningIntent.{submitted, failed, Materialized, apply_updates, build_record}
use aljama_wallet.SigningIntent.Archive.{should_archive}
use aljama_wallet.SigningIntent.Memory
use aljama_wallet.SigningIntent.Tests.{setting, two_queued, intent_at, payload}
use aljama_wallet.IntentWorker.{
  World, Replies, process_claimed, handle_failure, process_queue_pass, pass_from, process_intent,
  mark_replaced_transfer_attempts,
}
use aljama_wallet.IntentWorker.Course.{HeldBack, SentOut, process_claimed-Course}
use aljama_wallet.IntentWorker.Failure.{HasState, handle_failure-restores, process_claimed-submits}

abbrev world : World
world = record { intents = two_queued; nonces = Nonce.empty; transfers = []; sent = [] }

abbrev good : Replies
good = record {
  now = 20;
  writes = true;
  provider = done tt;
  signed = done (text "0xf8");
  derived = λ signed. done (some (text "0xcc"));
  submitted = λ signed. done (text "0xcc");
  recorded = done [];
}

-- The network takes the transaction of the first intent and refuses the one of the second.
abbrev replies : ℕ → Replies
replies n =
    if n == 2 then good else record good { submitted = λ signed. thrown (text "nonce too low") }

process_claimed-Course_example :
    HeldBack setting payload
      (text "b")
      good
      world
      (process_claimed setting payload (text "b") good world)
    ⊎ SentOut setting payload
        (text "b")
        good
        world
        (process_claimed setting payload (text "b") good world)
process_claimed-Course_example = process_claimed-Course setting payload (text "b") good world

abbrev submitted_world : World
submitted_world = (process_claimed setting payload (text "b") good world).1

submits :
    process_claimed setting payload (text "b") good world ≡ (done (text "0xcc"), submitted_world)
unfolding process_claimed Memory.update_intent Map.get Memory.materialize Memory.maybe_archive
    should_archive apply_updates Memory.load Map.set
submits = refl

stored_b : Map.get two_queued.intents (text "b") ≡ some (intent_at (text "b") 5)
unfolding Map.get
stored_b = refl

process_claimed-submits_example :
    HasState submitted_world.intents (text "b") submitted (normalize_nullable (some (text "0xcc")))
process_claimed-submits_example =
    process_claimed-submits setting payload (text "b") good world submitted_world (text "0xcc")
      (intent_at (text "b") 5) stored_b refl submits

abbrev claimed_b : Materialized
claimed_b = record { intent = (intent_at (text "b") 5).intent; payload = payload }

handle_failure-restores_example :
    HasState
      (handle_failure setting world claimed_b good (text "nonce too low")).intents
      (text "b")
      failed
      (normalize_nullable none)
handle_failure-restores_example =
    handle_failure-restores setting world claimed_b good (text "nonce too low")
      (intent_at (text "b") 5) stored_b refl

abbrev passed_world : World
passed_world = (process_queue_pass setting 3 replies world).1

passes :
    process_queue_pass setting 3 replies world
    ≡ (done (record { processed = 2; succeeded = 1; failed = 1 }), passed_world)
unfolding process_queue_pass pass_from process_intent process_claimed Memory.update_intent Map.get
    Memory.materialize Memory.maybe_archive should_archive apply_updates Memory.load Map.set
    Memory.claim_next Memory.next_queued handle_failure build_record mark_replaced_transfer_attempts
passes = refl
