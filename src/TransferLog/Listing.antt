-- ===== src/TransferLog/Listing.antt =====
-- What `listTransferAttempts`, `getLatestTransferAttempt` and the cap of 5000 entries promise.
use aljama_wallet.Base.{
  ℕ, suc, zero, ◌+◌, ◌-◌, ◌≤◌, ◌<◌, ◌≡◌, refl, ap, sym, ◌∙◌, inl, inr, Bool, true, Option, none,
  some, List, [], ◌∷◌, ◌++◌, arith, ltb, min, ◌==◌, Text, text, text_eq, length, filter, take, drop,
  All, All-map, sort_by, sort_by-All, sort_by-Sorted, sort_by-length, Sorted, ℤ, length-take,
  length-drop, length-append, Bool-cases,
}
use aljama_wallet.TransferLog.{Log, Input, record_transfer_attempt, max_events, to_record}
use aljama_wallet.TransferLog.Queries.{
  list_transfer_attempts, get_latest_transfer_attempt, belongs, created, page_size, first,
}

module _ {ℓ κ} {A : Type ℓ} (P : A → Type κ) where
  take-All : (n : ℕ) (xs : List A) → All P xs → All P (take n xs)
  take-All zero xs h = tt
  take-All (suc n) [] h = tt
  take-All (suc n) (x ∷ xs) (p, h) = (p, take-All n xs h)

take-Sorted : (n : ℕ) (xs : List Log) → Sorted created xs → Sorted created (take n xs)
take-Sorted zero xs h = tt
take-Sorted (suc n) [] h = tt
take-Sorted (suc n) (x ∷ xs) (most, rest) = (take-All _ n xs most, take-Sorted n xs rest)

filter-All : (p : Log → Bool) (xs : List Log) → All (λ r. p r ≡ true) (filter p xs)
filter-All p [] = tt
filter-All p (x ∷ xs) = elim (Bool-cases (p x)) [
  | inl hit ↦ rw hit (hit, filter-All p xs)
  | inr miss ↦ rw miss (filter-All p xs)
]

-- A page holds attempts of the wallet from before the given time, the newest first, as many as there
-- are and the page admits; a page admits from 1 to 200.
list_page :
    (logs : List Log) (wallet_id : Text) (limit : Option ℤ) (before : Option ℕ)
    → let page = list_transfer_attempts logs wallet_id limit before in
      All (λ r. belongs wallet_id before r ≡ true) page
      × Sorted created page
      × (length page ≡ min (page_size limit) (length (filter (belongs wallet_id before) logs)))
      × ((1 ≤ page_size limit) × (page_size limit ≤ 200))
unfolding list_transfer_attempts
list_page logs wallet_id limit before =
    let found = filter (belongs wallet_id before) logs in
    let ordered = sort_by created found in
    (
      take-All _ (page_size limit) ordered (
          (sort_by-All (λ r. belongs wallet_id before r ≡ true) created found).0
            (filter-All (belongs wallet_id before) logs)),
      take-Sorted (page_size limit) ordered (sort_by-Sorted created found),
      omega (arith, length-take (page_size limit) ordered, sort_by-length created found),
      page_size_bounds limit,
    )
  where
    page_size_bounds : (limit : Option ℤ) → (1 ≤ page_size limit) × (page_size limit ≤ 200)
    page_size_bounds none = (omega arith, omega arith)
    page_size_bounds (some z) = (ground arith, ground arith)

filter-All_back {κ} :
    (Q : Log → Type κ) (p : Log → Bool) (xs : List Log)
    → All Q (filter p xs)
    → All (λ r. p r ≡ true → Q r) xs
filter-All_back Q p [] h = tt
filter-All_back Q p (x ∷ xs) h = elim (Bool-cases (p x)) [
  | inl hit ↦ let h' = rw hit at h in (λ _. h'.0, filter-All_back Q p xs h'.1)
  | inr miss ↦ (λ e. cc (sym miss ∙ e), filter-All_back Q p xs (rw miss at h))
]

first-Sorted :
    (xs : List Log) (r : Log)
    → Sorted created xs
    → first xs ≡ some r
    → All (λ q. created q ≤ created r) xs
first-Sorted [] r h e = tt
first-Sorted (x ∷ xs) r (most, rest) e =
    let same : x ≡ r = cc e in
    (omega (arith, ap created same), All-map (λ q le. omega (arith, ap created same)) xs most)

-- The latest attempt of a wallet is of no earlier time than any of its attempts in the log.
latest_newest :
    (logs : List Log) (wallet_id : Text) (r : Log)
    → get_latest_transfer_attempt logs wallet_id ≡ some r
    → All (λ q. (q.wallet_id == wallet_id) ≡ true → q.created_at ≤ r.created_at) logs
unfolding get_latest_transfer_attempt
latest_newest logs wallet_id r e =
    let mine = λ (q : Log). q.wallet_id == wallet_id in
    filter-All_back (λ q. created q ≤ created r) mine logs
      ((sort_by-All (λ q. created q ≤ created r) created (filter mine logs)).1 (
        first-Sorted (sort_by created (filter mine logs)) r
          (sort_by-Sorted created (filter mine logs)) e))

-- After an attempt is recorded the log holds the last 5000 of its entries and the new one, in their
-- order, or all of them if they are fewer.
record_capped :
    (logs : List Log) (i : Input) (uuid : Text) (now : ℕ)
    → let (id, after) = record_transfer_attempt logs i uuid now in
      (after ≡ drop (length logs + 1 - max_events) (logs ++ to_record i id now ∷ []))
      × (length after ≡ min (length logs + 1) max_events)
unfolding record_transfer_attempt
record_capped logs i uuid now =
    let longer = logs ++ to_record i (text "mem_" ++ uuid) now ∷ [] in
    let size : length longer ≡ length logs + 1 = length-append logs _ in
    elim (Bool-cases (ltb max_events (length longer))) [
      | inl full ↦
          let above : max_events < length longer = ground arith in
          rw (full, record_transfer_attempt, size)
            (refl, omega (arith, length-drop (length logs + 1 - max_events) longer, size))
      | inr fits ↦
          let below : length longer ≤ max_events = ground arith in
          let none_over : length logs + 1 - max_events ≡ 0 = omega arith in
          rw (fits, record_transfer_attempt, none_over) (refl, omega arith)
    ]
