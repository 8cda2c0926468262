-- ===== src/AlertQueue/Tests.antt =====
-- Examples for the queue of alerts, with numbers for jobs.
use aljama_wallet.Base.{
  ℕ, ◌+◌, ◌≤◌, ◌<◌, max, ◌≡◌, ◌⊎◌, ◌↔◌, refl, true, false, none, some, Bool, List, [], ◌∷◌, filter,
  arith, length, All, Text, text, text_eq,
}
use aljama_wallet.Base.Map
use aljama_wallet.AlertQueue.{
  Entry, Settings, State, reject_new, dequeue_batch, read_stats, run, dequeue, reclaim_expired,
  messages,
}
use aljama_wallet.AlertQueue.Conservation.{is_held, no_alert_lost}
use aljama_wallet.AlertQueue.Delivery.{IsDue, dequeue_lem, dequeue_delivers, is_delivered}
use aljama_wallet.AlertQueue.Adapter.{redis, create_queue, create_queue_lem}

abbrev settings : Settings
settings = record { max_depth = 2; ack_timeout_ms = 30; strategy = reject_new }

abbrev entry : Text → ℕ → Entry ℕ
entry id t = record {
  message = record { id = id; job = 7; retry_count = 0; queued_at = t };
  available_at = t;
}

abbrev start : State ℕ
start = record {
  queue = entry (text "a") 10 ∷ [];
  inflight = (text "b", record { entry = entry (text "b") 5; expires_at = 20 }) ∷ [];
}

flight_held : is_held start (text "b") ≡ true
unfolding Map.get
flight_held = refl

no_alert_lost_example :
    is_held (run settings start ((12, dequeue_batch 1) ∷ (50, read_stats) ∷ [])) (text "b") ≡ true
no_alert_lost_example =
    no_alert_lost settings start ((12, dequeue_batch 1) ∷ (50, read_stats) ∷ []) (text "b") refl
      (refl, tt) flight_held (tt, (tt, tt))

dequeue_delivers_example : is_delivered 25 (dequeue settings start 2 25).0 (text "b") ≡ true
dequeue_delivers_example =
    dequeue_delivers 25 settings start 2 (text "b") (refl, tt) flight_held (omega arith, tt)
      (omega arith, tt) (omega arith)

dequeue_lem_example :
    let q = (reclaim_expired start 25).queue in
    let (out, s') = dequeue settings start 1 25 in
    (length out ≤ max 1 1)
    × ((es : List (Entry ℕ)) × (out ≡ messages es)
        × All (IsDue 25) es
        × ((p : Entry ℕ → Bool)
            → length (filter p es) + length (filter p s'.queue) ≡ length (filter p q)))
    × ((length out < max 1 1) → All (λ e. 25 < e.available_at) s'.queue)
dequeue_lem_example = dequeue_lem 25 settings start 1

create_queue_lem_example :
    let (queue, health) = create_queue redis true (some (text "down")) 9 in
    (true ≡ true → (queue ≡ none) ⊎ (queue ≡ some redis))
    × ((health.degraded ≡ false) ↔ (queue ≡ some redis))
create_queue_lem_example = create_queue_lem redis true (some (text "down")) 9
