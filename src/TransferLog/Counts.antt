-- ===== src/TransferLog/Counts.antt =====
-- What the risk rules count (`getRecentTransferStats`) across the operations on the log.
use aljama_wallet.Base.{
  ℕ, suc, ◌+◌, ◌<◌, ◌≡◌, refl, inl, inr, Bool, true, false, ◌&&◌, Option, some, List, [], ◌∷◌, ◌++◌,
  arith, ltb, if◌then◌else◌, ◌==◌, ==_refl, nat_eq, Text, text, text_eq, length, filter,
  length-append, Bool-cases, Option-cases, ℤ, normalize_nullable,
}
use aljama_wallet.Risk.{Stats}
use aljama_wallet.TransferLog.{
  Log, Input, Updates, to_record, apply_transfer_log_updates, record_transfer_attempt, update_first,
  update_transfer_status, update_where, update_transfer_attempt_by_tx_hash,
  replace_transfer_attempts_by_tx_hashes, normalized_hashes, normalize_address, max_events,
  has_hash, is_listed, replacement,
}
use aljama_wallet.TransferLog.Queries.{get_recent_transfer_stats, is_recent, goes_to, is_on_chain}

-- A test that no update can change.
abbrev Steady : (Log → Bool) → Type 0
Steady p = (r : Log) (u : Updates) (now : ℕ) → p (apply_transfer_log_updates r u now) ≡ p r

module _ (p : Log → Bool) (steady : Steady p) where
  update_where-filter :
      (hit : Log → Bool) (u : Updates) (now : ℕ) (logs : List Log)
      → length (filter p (update_where hit u now logs)) ≡ length (filter p logs)
  update_where-filter hit u now [] = refl
  update_where-filter hit u now (r ∷ logs) =
      let rest = update_where-filter hit u now logs in
      let same = steady r u now in
      elim (Bool-cases (hit r)) [
        | inl updated ↦ rw (updated, same) (ground (arith, rest))
        | inr kept ↦ rw kept (ground (arith, rest))
      ]

  update_first-filter :
      (logs : List Log) (id : Text) (u : Updates) (now : ℕ)
      → length (filter p (update_first logs id u now)) ≡ length (filter p logs)
  update_first-filter [] id u now = refl
  update_first-filter (r ∷ logs) id u now =
      let rest = update_first-filter logs id u now in
      let same = steady r u now in
      elim (Bool-cases (r.id == id)) [
        | inl updated ↦ rw (updated, same) (ground arith)
        | inr kept ↦ rw kept (ground (arith, rest))
      ]

  update_by_hash-filter :
      (logs : List Log) (tx_hash : Text) (u : Updates) (now : ℕ)
      → length (filter p (update_transfer_attempt_by_tx_hash logs tx_hash u now))
        ≡ length (filter p logs)
  unfolding update_transfer_attempt_by_tx_hash
  update_by_hash-filter logs tx_hash u now =
      elim (Option-cases (normalize_nullable (some tx_hash))) [
        | inl blank ↦ rw (blank, update_transfer_attempt_by_tx_hash) refl
        | inr (h, full) ↦
            rw (full, update_transfer_attempt_by_tx_hash)
              (update_where-filter (has_hash h) u now logs)
      ]

  replace-filter :
      (logs : List Log) (tx_hashes : List Text) (by : Text) (replaces : Option Text) (now : ℕ)
      → length (filter p (replace_transfer_attempts_by_tx_hashes logs tx_hashes by replaces now))
        ≡ length (filter p logs)
  unfolding replace_transfer_attempts_by_tx_hashes
  replace-filter logs tx_hashes by replaces now = go (normalized_hashes tx_hashes)
    where
      go :
          (hashes : List Text)
          → length (
              filter p (elim hashes [
                | [] ↦ logs
                | h ∷ hs ↦ update_where (is_listed (h ∷ hs)) (replacement by replaces) now logs
              ]))
            ≡ length (filter p logs)
      go [] = refl
      go (h ∷ hs) = update_where-filter (is_listed (h ∷ hs)) (replacement by replaces) now logs

module _ (w : Text) (c : ℕ) (a : Text) (window : ℤ) (now : ℕ) where
  abbrev stats_of : List Log → Stats
  stats_of logs = get_recent_transfer_stats logs w c a window now

  Steady-recent : Steady (is_recent w window now)
  unfolding apply_transfer_log_updates
  Steady-recent r u t = refl

  Steady-destination : Steady (goes_to w (normalize_address a))
  unfolding apply_transfer_log_updates
  Steady-destination r u t = refl

  Steady-chain : Steady (is_on_chain w c)
  unfolding apply_transfer_log_updates
  Steady-chain r u t = refl

  stats_eq :
      (logs logs' : List Log)
      → ((p : Log → Bool) → Steady p → length (filter p logs) ≡ length (filter p logs'))
      → stats_of logs ≡ stats_of logs'
  unfolding get_recent_transfer_stats
  stats_eq logs logs' h = λ i. record {
    recent_count = h (is_recent w window now) Steady-recent i;
    destination_count = h (goes_to w (normalize_address a)) Steady-destination i;
    chain_count = h (is_on_chain w c) Steady-chain i;
  }

  -- No update of the log, by id, by hash or by the hashes of replaced transactions, changes what the
  -- risk rules count.
  pub updates_keep_stats :
      (logs : List Log) (id status tx_hash by : Text) (u : Updates) (hashes : List Text)
      (replaces : Option Text) (t : ℕ)
      → (stats_of (update_transfer_status logs id status u t) ≡ stats_of logs)
        × (stats_of (update_transfer_attempt_by_tx_hash logs tx_hash u t) ≡ stats_of logs)
        × (stats_of (replace_transfer_attempts_by_tx_hashes logs hashes by replaces t)
            ≡ stats_of logs)
  unfolding update_transfer_status
  updates_keep_stats logs id status tx_hash by u hashes replaces t = (
    stats_eq _ _ (λ p h. update_first-filter p h logs id (record u { status = some status }) t),
    stats_eq _ _ (λ p h. update_by_hash-filter p h logs tx_hash u t),
    stats_eq _ _ (λ p h. replace-filter p h logs hashes by replaces t),
  )

hit_both : {a b : Bool} → a ≡ true → b ≡ true → (a && b) ≡ true
hit_both p q = ground (arith, p, q)

filter-append_one :
    (p : Log → Bool) (logs : List Log) (r : Log)
    → length (filter p (logs ++ r ∷ [])) ≡ length (filter p logs) + (if p r then 1 else 0)
filter-append_one p [] r = ground arith
filter-append_one p (q ∷ logs) r = ground (arith, filter-append_one p logs r)

module _ (logs : List Log) (i : Input) (uuid : Text) (t : ℕ) (room : length logs < max_events) where
  abbrev entry : Log
  entry = to_record i (text "mem_" ++ uuid) t

  recorded : (record_transfer_attempt logs i uuid t).1 ≡ logs ++ entry ∷ []
  unfolding record_transfer_attempt
  recorded =
      let fits : ltb max_events (length (logs ++ entry ∷ [])) ≡ false =
        ground (arith, length-append logs (entry ∷ [])) in
      rw (fits, record_transfer_attempt) refl

  count_one_more :
      (p : Log → Bool)
      → p entry ≡ true
      → length (filter p (record_transfer_attempt logs i uuid t).1) ≡ suc (length (filter p logs))
  count_one_more p hit = rw recorded (ground (arith, filter-append_one p logs entry, hit))

-- While the log has room, an attempt that is recorded counts at once: for its wallet the destination,
-- in any case of letters and with any white space around it, and the chain have one attempt more.
record-counts :
    (logs : List Log) (i : Input) (uuid address : Text) (window : ℤ) (t now : ℕ)
    → length logs < max_events
    → normalize_address address ≡ normalize_address i.to_address
    → let before = get_recent_transfer_stats logs i.wallet_id i.chain_id address window now in
      let after =
        get_recent_transfer_stats
          (record_transfer_attempt logs i uuid t).1
          i.wallet_id
          i.chain_id
          address
          window
          now in
      (after.destination_count ≡ suc before.destination_count)
      × (after.chain_count ≡ suc before.chain_count)
unfolding get_recent_transfer_stats to_record
record-counts logs i uuid address window t now room same = (
  count_one_more logs i uuid t room (goes_to i.wallet_id (normalize_address address))
      (rw same (hit_both (==_refl i.wallet_id) (==_refl (normalize_address i.to_address)))),
  count_one_more logs i uuid t room (is_on_chain i.wallet_id i.chain_id)
      (hit_both (==_refl i.wallet_id) (==_refl i.chain_id)),
)
