-- ===== src/AlertQueue/Delivery.antt =====
-- What a batch of `dequeue` holds.
use aljama_wallet.Base.{
  ℕ, suc, zero, ◌+◌, ◌≤◌, ◌<◌, max, ◌≡◌, refl, ap, sym, ◌∙◌, ◌==◌, inl, inr, Bool, true, false,
  List, [], ◌∷◌, ◌++◌, arith, ltb, leb, length, filter, All, Bool-cases, All-append, length-append,
  any, Text, text_eq,
}
use aljama_wallet.Base.Map.{Map}
use aljama_wallet.Base.Map
use aljama_wallet.AlertQueue.Conservation.{Keyed, is_held, has_id, reclaim-Keeps}
use aljama_wallet.AlertQueue.{
  expired, unexpired, Message, Entry, Flight, Settings, State, reclaim_expired, due, left, messages,
  dequeue,
}

module _ {J : Type 0} (now : ℕ) where
  abbrev pub IsDue : Entry J → Type 0
  IsDue e = e.available_at ≤ now

  due-IsDue : (n : ℕ) (q : List (Entry J)) → All IsDue (due n now q)
  due-IsDue zero q = tt
  due-IsDue (suc n) [] = tt
  due-IsDue (suc n) (e ∷ q) = elim (Bool-cases (ltb now e.available_at)) [
    | inl later ↦ rw later (due-IsDue (suc n) q)
    | inr ready ↦ rw ready (ground arith, due-IsDue n q)
  ]

  due-length-le : (n : ℕ) (q : List (Entry J)) → length (due n now q) ≤ n
  due-length-le zero q = omega arith
  due-length-le (suc n) [] = omega arith
  due-length-le (suc n) (e ∷ q) = ground (arith, due-length-le (suc n) q, due-length-le n q)

  -- If there was room for more, nothing that is due stays behind.
  left-later :
      (n : ℕ) (q : List (Entry J))
      → length (due n now q) < n
      → All (λ e. now < e.available_at) (left n now q)
  left-later zero q h = absurd (omega (arith, h))
  left-later (suc n) [] h = tt
  left-later (suc n) (e ∷ q) h = elim (Bool-cases (ltb now e.available_at)) [
    | inl later ↦ rw later (ground arith, left-later (suc n) q (rw later at h))
    | inr ready ↦ rw ready (left-later n q (let h' = rw ready at h in omega (arith, h')))
  ]

  messages-length : (q : List (Entry J)) → length (messages q) ≡ length q
  messages-length [] = refl
  messages-length (e ∷ q) = ap suc (messages-length q)

  -- Each entry of the queue is taken or left, as often as it was there.
  due-left-count :
      (p : Entry J → Bool) (n : ℕ) (q : List (Entry J))
      → length (filter p (due n now q)) + length (filter p (left n now q)) ≡ length (filter p q)
  due-left-count p zero q = omega arith
  due-left-count p (suc n) [] = omega arith
  due-left-count p (suc n) (e ∷ q) =
      ground (arith, due-left-count p (suc n) q, due-left-count p n q)

  -- A batch has at most the number of messages asked for, or one where none is asked for. It has the
  -- messages of entries that were due, and these and what is left in the queue are together the entries
  -- of the queue with what came back to it, each as often as it was there. If the batch is not full then
  -- nothing that is due stays in the queue.
  pub dequeue_lem :
      (c : Settings) (s : State J) (batch : ℕ)
      → let q = (reclaim_expired s now).queue in
        let (out, s') = dequeue c s batch now in
        (length out ≤ max 1 batch)
        × ((es : List (Entry J)) × (out ≡ messages es)
            × All IsDue es
            × ((p : Entry J → Bool)
                → length (filter p es) + length (filter p s'.queue) ≡ length (filter p q)))
        × ((length out < max 1 batch) → All (λ e. now < e.available_at) s'.queue)
  unfolding dequeue
  dequeue_lem c s batch =
      let q = (reclaim_expired s now).queue in
      let n = max 1 batch in
      (
        omega (arith, due-length-le n q, messages-length (due n now q)),
        (due n now q, refl, due-IsDue n q, λ p. due-left-count p n q),
        λ h. left-later n q (omega (arith, h, messages-length (due n now q))),
      )

  due-All : (n : ℕ) (q : List (Entry J)) → All IsDue q → length q ≤ n → due n now q ≡ q
  due-All zero [] h room = refl
  due-All zero (e ∷ q) h room = absurd (omega (arith, room))
  due-All (suc n) [] h room = refl
  due-All (suc n) (e ∷ q) (ready, h) room =
      let due_now : ltb now e.available_at ≡ false = ground arith in
      rw due_now (ap (λ r. e ∷ r) (due-All n q h (omega arith)))

  expired-IsDue : (m : Map Text (Flight J)) → All IsDue (expired m now)
  expired-IsDue [] = tt
  expired-IsDue ((id, f) ∷ m) = elim (Bool-cases (leb f.expires_at now)) [
    | inl over ↦ rw over (omega arith, expired-IsDue m)
    | inr flying ↦ rw flying (expired-IsDue m)
  ]

  -- The time of the flight is over.
  abbrev pub IsOver : Text × Flight J → Type 0
  IsOver (id, f) = f.expires_at ≤ now

  unexpired_none : (m : Map Text (Flight J)) → All IsOver m → unexpired m now ≡ []
  unexpired_none [] h = refl
  unexpired_none ((id, f) ∷ m) (over, h) = ground (arith, unexpired_none m h)

  expired-length-le : (m : Map Text (Flight J)) → length (expired m now) ≤ length m
  expired-length-le [] = omega arith
  expired-length-le ((id, f) ∷ m) = ground (arith, expired-length-le m)

  -- The message is in the batch.
  abbrev pub is_delivered : List (Message J) → Text → Bool
  is_delivered out id = any (λ m. m.id == id) out

  delivered_of_due :
      (q : List (Entry J)) (id : Text) → any (has_id id) q ≡ is_delivered (messages q) id
  delivered_of_due [] id = refl
  delivered_of_due (e ∷ q) id = ground (arith, delivered_of_due q id)

  -- Once every flight is over and every delay has passed, a batch as large as what is held has each
  -- message that is held.
  pub dequeue_delivers :
      (c : Settings) (s : State J) (batch : ℕ) (id : Text)
      → Keyed s.inflight
      → is_held s id ≡ true
      → All IsDue s.queue
      → All IsOver s.inflight
      → length s.queue + length s.inflight ≤ batch
      → is_delivered (dequeue c s batch now).0 id ≡ true
  unfolding dequeue reclaim_expired Map.get
  dequeue_delivers c s batch id k held ready over room =
      let q = s.queue ++ expired s.inflight now in
      let all_due =
        All-append IsDue s.queue (expired s.inflight now) ready (expired-IsDue s.inflight) in
      let size : length q ≤ max 1 batch =
        omega
          (arith, length-append s.queue (expired s.inflight now), expired-length-le s.inflight) in
      let landed = (reclaim-Keeps s now id).held k held in
      let queued : any (has_id id) q ≡ true =
        ground (arith, rw (unexpired_none s.inflight over) at landed) in
      rw (due-All (max 1 batch) q all_due size) (sym (delivered_of_due q id) ∙ queued)
