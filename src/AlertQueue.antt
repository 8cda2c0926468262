-- ===== src/AlertQueue.antt =====
-- services/security-alert-delivery-queue.ts: the adapter in memory, and the choice of an adapter. A
-- queue of messages with a delay each, and the messages that are in flight until they are
-- acknowledged or their time is over. The queue in Redis is a parameter of the choice.
pub mod Conservation
pub mod Delivery
pub mod Adapter
mod Tests
use aljama_wallet.Base.{
  ℕ, suc, zero, ◌+◌, ◌-◌, max, Bool, true, false, Option, none, some, List, [], ◌∷◌, ◌++◌, ltb, leb,
  if◌then◌else◌, Text, text_eq, length, or_else,
}
use aljama_wallet.Base.Map
use aljama_wallet.Base.Map.{Map}

-- `J` is the type of `SecurityAlertDeliveryJob`, which the queue only passes on.
pub record Message (J : Type 0) : Type 0 where
  pub id : Text
  pub job : J
  pub retry_count : ℕ
  pub queued_at : ℕ

pub record Entry (J : Type 0) : Type 0 where
  pub message : Message J
  pub available_at : ℕ

pub record Flight (J : Type 0) : Type 0 where
  pub entry : Entry J
  pub expires_at : ℕ

pub data Strategy : Type 0 where
  drop_oldest reject_new : Strategy

-- SECURITY_ALERT_DELIVERY_QUEUE_MAX_DEPTH, _ACK_TIMEOUT_MS and _OVERFLOW_STRATEGY, read.
pub record Settings : Type 0 where
  pub max_depth : ℕ
  pub ack_timeout_ms : ℕ
  pub strategy : Strategy

pub record Stats : Type 0 where
  pub depth : ℕ
  pub pending : ℕ
  pub lag : ℕ
  pub oldest_queued_at : Option ℕ
  pub newest_queued_at : Option ℕ

pub record Enqueued (J : Type 0) : Type 0 where
  pub message : Message J
  pub dropped : Bool
  pub queue_length : ℕ

pub record State (J : Type 0) : Type 0 where
  pub queue : List (Entry J)
  pub inflight : Map Text (Flight J)

-- The calls of the delivery service and its worker.
pub data Call (J : Type 0) : Type 0 where
  enqueue_job : J → Option ℕ → Option ℕ → Text → Call J
  dequeue_batch : ℕ → Call J
  ack_message : Message J → Call J
  read_stats : Call J

module _ {J : Type 0} where
  abbrev pub nothing : State J
  nothing = record { queue = []; inflight = [] }

  -- The loop over the live map: it deletes only the entry it stands on.
  abbrev pub expired : List (Text × Flight J) → ℕ → List (Entry J)
  expired [] now = []
  expired ((id, f) ∷ m) now =
      let rest = expired m now in
      if leb f.expires_at now then record f.entry { available_at = now } ∷ rest else rest

  abbrev pub unexpired : Map Text (Flight J) → ℕ → Map Text (Flight J)
  unexpired [] now = []
  unexpired ((id, f) ∷ m) now =
      let rest = unexpired m now in if leb f.expires_at now then rest else (id, f) ∷ rest

  unfoldable pub reclaim_expired : State J → ℕ → State J
  reclaim_expired s now = record {
    queue = s.queue ++ expired s.inflight now;
    inflight = unexpired s.inflight now;
  }

  -- `this.queue.shift()`
  abbrev pub shifted : List (Entry J) → Bool × List (Entry J)
  shifted [] = (false, [])
  shifted (e ∷ es) = (true, es)

  unfoldable pub push_new : State J → J → ℕ → ℕ → Text → ℕ → Bool → Enqueued J × State J
  push_new s job retry_count delay id now dropped =
      let message : Message J = record {
        id = id;
        job = job;
        retry_count = retry_count;
        queued_at = now;
      } in
      let queue = s.queue ++ record { message = message; available_at = now + delay } ∷ [] in
      (
        record { message = message; dropped = dropped; queue_length = length queue },
        record s { queue = queue },
      )

  -- `enqueue`; `none` is the error queue_full. A delay below zero counts as zero.
  unfoldable pub enqueue :
      Settings → State J → J → Option ℕ → Option ℕ → Text → ℕ → Option (Enqueued J) × State J
  enqueue c s job retry_count delay id now =
      if leb c.max_depth (length s.queue)
      then (elim c.strategy [
        | reject_new ↦ (none, s)
        | drop_oldest ↦
            let (dropped, queue) = shifted s.queue in
            let (r, s') =
              push_new (record s { queue = queue }) job (or_else retry_count 0) (or_else delay 0) id
                now dropped in
            (some r, s')
      ])
      else (let (r, s') = push_new s job (or_else retry_count 0) (or_else delay 0) id now false in
          (some r, s'))

  -- The loop of `dequeue`: at most n entries that are due leave the queue, the first first.
  abbrev pub due : ℕ → ℕ → List (Entry J) → List (Entry J)
  due zero now q = []
  due (suc n) now [] = []
  due (suc n) now (e ∷ q) =
      let skipped = due (suc n) now q in
      let taken = due n now q in if ltb now e.available_at then skipped else e ∷ taken

  abbrev pub left : ℕ → ℕ → List (Entry J) → List (Entry J)
  left zero now q = q
  left (suc n) now [] = []
  left (suc n) now (e ∷ q) =
      let skipped = left (suc n) now q in
      let taken = left n now q in if ltb now e.available_at then e ∷ skipped else taken

  abbrev pub send_off : Map Text (Flight J) → List (Entry J) → ℕ → Map Text (Flight J)
  send_off m [] expires_at = m
  send_off m (e ∷ es) expires_at =
      send_off (Map.set m e.message.id (record { entry = e; expires_at = expires_at })) es
        expires_at

  abbrev pub messages : List (Entry J) → List (Message J)
  messages [] = []
  messages (e ∷ es) = e.message ∷ messages es

  -- `dequeue`
  unfoldable pub dequeue : Settings → State J → ℕ → ℕ → List (Message J) × State J
  dequeue c s batch_size now =
      let s' = reclaim_expired s now in
      let out = due (max 1 batch_size) now s'.queue in
      (
        messages out,
        record {
          queue = left (max 1 batch_size) now s'.queue;
          inflight = send_off s'.inflight out (now + c.ack_timeout_ms);
        },
      )

  unfoldable pub ack : State J → Message J → State J
  ack s m = record s { inflight = Map.delete s.inflight m.id }

  abbrev pub first_time : List (Entry J) → Option ℕ
  first_time [] = none
  first_time (e ∷ es) = some e.message.queued_at

  abbrev pub last_time : List (Entry J) → Option ℕ
  last_time [] = none
  last_time (e ∷ []) = some e.message.queued_at
  last_time (e ∷ f ∷ es) = last_time (f ∷ es)

  -- `getStats`, which reclaims too.
  unfoldable pub get_stats : State J → ℕ → Stats × State J
  get_stats s now =
      let s' = reclaim_expired s now in
      (
        record {
          depth = length s'.queue;
          pending = length s'.inflight;
          lag = length s'.queue;
          oldest_queued_at = first_time s'.queue;
          newest_queued_at = last_time s'.queue;
        },
        s',
      )

  unfoldable pub step : Settings → State J → ℕ × Call J → State J
  step c s (now, enqueue_job job retry delay id) = (enqueue c s job retry delay id now).1
  step c s (now, dequeue_batch n) = (dequeue c s n now).1
  step c s (now, ack_message m) = ack s m
  step c s (now, read_stats) = (get_stats s now).1

  unfoldable pub run : Settings → State J → List (ℕ × Call J) → State J
  run c s [] = s
  run c s (x ∷ xs) = run c (step c s x) xs
