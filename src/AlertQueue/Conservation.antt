-- ===== src/AlertQueue/Conservation.antt =====
-- No alert is lost: what is queued or in flight stays so until it is acknowledged or dropped.
use aljama_wallet.Base.{
  ℕ, suc, zero, ◌+◌, max, ◌≡◌, ◌≢◌, refl, inl, inr, Bool, true, false, ◌||◌, Option, List, [], ◌∷◌,
  ◌++◌, arith, All, leb, length, any, ==_iff, ◌==◌, Text, text_eq, is_some, Bool-cases, or_else,
}
use aljama_wallet.Base.Map
use aljama_wallet.Base.Map.{Map}
use aljama_wallet.Base.Map.Values.{AllEntries, set-AllEntries}
use aljama_wallet.AlertQueue.{
  Message, Entry, Flight, Settings, State, reclaim_expired, expired, unexpired, due, left, send_off,
  dequeue, ack, enqueue, push_new, get_stats, Call, enqueue_job, dequeue_batch, ack_message,
  read_stats, step, run, reject_new,
}

module _ {J : Type 0} where
  abbrev pub has_id : Text → Entry J → Bool
  has_id id e = e.message.id == id

  -- Each flight stands under the identifier of its message.
  abbrev pub Keyed : Map Text (Flight J) → Type 0
  Keyed = AllEntries λ k f. f.entry.message.id ≡ k

  abbrev pub is_held : State J → Text → Bool
  is_held s id = any (has_id id) s.queue || is_some (Map.get s.inflight id)

  any-append :
      (id : Text) (p q : List (Entry J))
      → any (has_id id) (p ++ q) ≡ (any (has_id id) p || any (has_id id) q)
  any-append id [] q = refl
  any-append id (e ∷ p) q = ground (arith, any-append id p q)

  expired-held :
      (m : Map Text (Flight J)) (id : Text) (now : ℕ)
      → Keyed m
      → is_some (Map.get m id) ≡ true
      → (any (has_id id) (expired m now) || is_some (Map.get (unexpired m now) id)) ≡ true
  unfolding Map.get
  expired-held [] id now k h = h
  expired-held ((j, f) ∷ m) id now (same, k) h =
      ground (arith, same, ==_iff j id, ==_iff f.entry.message.id id, expired-held m id now k)

  due-left-any :
      (n now : ℕ) (q : List (Entry J)) (id : Text)
      → any (has_id id) q ≡ (any (has_id id) (due n now q) || any (has_id id) (left n now q))
  due-left-any zero now q id = refl
  due-left-any (suc n) now [] id = refl
  due-left-any (suc n) now (e ∷ q) id =
      ground (arith, due-left-any (suc n) now q id, due-left-any n now q id)

  send_off-get :
      (es : List (Entry J)) (m : Map Text (Flight J)) (t : ℕ) (id : Text)
      → (any (has_id id) es || is_some (Map.get m id)) ≡ true
      → is_some (Map.get (send_off m es t) id) ≡ true
  send_off-get [] m t id h = h
  send_off-get (e ∷ es) m t id h =
      send_off-get es _ t id (rw (Map.get-set m e.message.id id _) (ground (arith, h)))

  unexpired-Keyed : (m : Map Text (Flight J)) (now : ℕ) → Keyed m → Keyed (unexpired m now)
  unexpired-Keyed [] now k = tt
  unexpired-Keyed ((j, f) ∷ m) now (same, k) = elim (Bool-cases (leb f.expires_at now)) [
    | inl over ↦ rw over (unexpired-Keyed m now k)
    | inr flying ↦ rw flying (same, unexpired-Keyed m now k)
  ]

  send_off-Keyed :
      (es : List (Entry J)) (m : Map Text (Flight J)) (t : ℕ) → Keyed m → Keyed (send_off m es t)
  send_off-Keyed [] m t k = k
  send_off-Keyed (e ∷ es) m t k = send_off-Keyed es _ t (set-AllEntries _ m _ _ k refl)

  delete-Keyed : (m : Map Text (Flight J)) (id : Text) → Keyed m → Keyed (Map.delete m id)
  unfolding Map.delete
  delete-Keyed [] id k = tt
  delete-Keyed ((j, f) ∷ m) id (same, k) = elim (Bool-cases (j == id)) [
    | inl gone ↦ rw gone (delete-Keyed m id k)
    | inr stays ↦ rw stays (same, delete-Keyed m id k)
  ]

  -- What a call keeps: the keys of the flights, and the message of an identifier.
  pub record Keeps (s s' : State J) (id : Text) : Type 0 where
    pub keyed : Keyed s.inflight → Keyed s'.inflight
    pub held : Keyed s.inflight → is_held s id ≡ true → is_held s' id ≡ true

  pub reclaim-Keeps : (s : State J) (now : ℕ) (id : Text) → Keeps s (reclaim_expired s now) id
  unfolding reclaim_expired
  reclaim-Keeps s now id = record {
    keyed = unexpired-Keyed s.inflight now;
    held = λ k h. ground (
      arith,
      h,
      any-append id s.queue (expired s.inflight now),
      expired-held s.inflight id now k,
    );
  }

  dequeue-Keeps :
      (c : Settings) (s : State J) (n now : ℕ) (id : Text) → Keeps s (dequeue c s n now).1 id
  unfolding dequeue
  dequeue-Keeps c s n now id =
      let s' = reclaim_expired s now in
      let r = reclaim-Keeps s now id in
      let out = due (max 1 n) now s'.queue in
      let t = now + c.ack_timeout_ms in
      record {
        keyed = λ k. send_off-Keyed out s'.inflight t (r.keyed k);
        held = λ k h. ground (
          arith,
          r.held k h,
          due-left-any (max 1 n) now s'.queue id,
          send_off-get out s'.inflight t id,
        );
      }

  ack-Keeps : (s : State J) (m : Message J) (id : Text) → m.id ≢ id → Keeps s (ack s m) id
  unfolding ack
  ack-Keeps s m id other = record {
    keyed = delete-Keyed s.inflight m.id;
    held = λ k h. rw (Map.get-delete s.inflight m.id id) (ground (arith, h, ==_iff m.id id, other));
  }

  push-Keeps :
      (s : State J) (job : J) (retry delay : ℕ) (new : Text) (now : ℕ) (dropped : Bool) (id : Text)
      → Keeps s (push_new s job retry delay new now dropped).1 id
  unfolding push_new
  push-Keeps s job retry delay new now dropped id =
      let message : Message J = record {
        id = new;
        job = job;
        retry_count = retry;
        queued_at = now;
      } in
      let entry : Entry J = record { message = message; available_at = now + delay } in
      record { keyed = λ k. k; held = λ k h. ground (arith, h, any-append id s.queue (entry ∷ [])) }

  same-Keeps : (s : State J) (id : Text) → Keeps s s id
  same-Keeps s id = record { keyed = λ k. k; held = λ k h. h }

  enqueue-Keeps :
      (c : Settings) (s : State J) (job : J) (retry delay : Option ℕ) (new : Text) (now : ℕ)
      (id : Text)
      → c.strategy ≡ reject_new
      → Keeps s (enqueue c s job retry delay new now).1 id
  unfolding enqueue
  enqueue-Keeps c s job retry delay new now id strategy =
      elim (Bool-cases (leb c.max_depth (length s.queue))) [
        | inl full ↦ rw (full, enqueue, strategy) (same-Keeps s id)
        | inr room ↦
            rw (room, enqueue)
              (push-Keeps s job (or_else retry 0) (or_else delay 0) new now false id)
      ]

  -- The call is not the acknowledgement of the message.
  abbrev pub Spares : Text → ℕ × Call J → Type 0
  Spares id (now, ack_message m) = m.id ≢ id
  Spares id (now, enqueue_job job retry delay new) = Unit {0}
  Spares id (now, dequeue_batch n) = Unit {0}
  Spares id (now, read_stats) = Unit {0}

  step-Keeps :
      (c : Settings) (s : State J) (x : ℕ × Call J) (id : Text)
      → c.strategy ≡ reject_new
      → Spares id x
      → Keeps s (step c s x) id
  unfolding step get_stats
  step-Keeps c s (now, enqueue_job job retry delay new) id strategy h =
      enqueue-Keeps c s job retry delay new now id strategy
  step-Keeps c s (now, dequeue_batch n) id strategy h = dequeue-Keeps c s n now id
  step-Keeps c s (now, ack_message m) id strategy h = ack-Keeps s m id h
  step-Keeps c s (now, read_stats) id strategy h = reclaim-Keeps s now id

  -- Where a full queue rejects what is new, a message that is queued or in flight stays so through any
  -- calls but its own acknowledgement, however often it is delivered and its time runs out.
  pub no_alert_lost :
      (c : Settings) (s : State J) (xs : List (ℕ × Call J)) (id : Text)
      → c.strategy ≡ reject_new
      → Keyed s.inflight
      → is_held s id ≡ true
      → All (Spares id) xs
      → is_held (run c s xs) id ≡ true
  unfolding run
  no_alert_lost c s [] id strategy k h spared = h
  no_alert_lost c s (x ∷ xs) id strategy k h (here, later) =
      let kept = step-Keeps c s x id strategy here in
      no_alert_lost c (step c s x) xs id strategy (kept.keyed k) (kept.held k h) later
