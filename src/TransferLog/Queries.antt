-- ===== src/TransferLog/Queries.antt =====
-- What services/transfer-log.service.ts reads from its in-memory log.
use aljama_wallet.Base.{
  ℕ, min, max, Bool, true, ◌&&◌, Option, none, some, List, [], ◌∷◌, ltb, leb, ◌==◌, nat_eq, Text,
  text_eq, length, filter, take, sort_by, ℤ, pos, ◌+ℤ◌, leb_ℤ,
}
use aljama_wallet.Risk.{Stats}
use aljama_wallet.TransferLog.{Log, normalize_address, whole_count}

-- `log.createdAt >= now - windowMs`
abbrev pub is_recent : Text → ℤ → ℕ → Log → Bool
is_recent wallet_id window now r =
    r.wallet_id == wallet_id && leb_ℤ (pos now) (pos r.created_at +ℤ window)

abbrev pub goes_to : Text → Text → Log → Bool
goes_to wallet_id address r = r.wallet_id == wallet_id && r.to_address == address

abbrev pub is_on_chain : Text → ℕ → Log → Bool
is_on_chain wallet_id chain_id r = r.wallet_id == wallet_id && r.chain_id == chain_id

unfoldable pub get_recent_transfer_stats : List Log → Text → ℕ → Text → ℤ → ℕ → Stats
get_recent_transfer_stats logs wallet_id chain_id to_address window now = record {
  recent_count = length (filter (is_recent wallet_id window now) logs);
  destination_count = length (filter (goes_to wallet_id (normalize_address to_address)) logs);
  chain_count = length (filter (is_on_chain wallet_id chain_id) logs);
}

abbrev pub is_before : Option ℕ → ℕ → Bool
is_before none t = true
is_before (some before) t = ltb t before

abbrev pub is_since : Option ℕ → ℕ → Bool
is_since none t = true
is_since (some since) t = leb since t

abbrev pub belongs : Text → Option ℕ → Log → Bool
belongs wallet_id before r = r.wallet_id == wallet_id && is_before before r.created_at

-- `Math.min(Math.max(limit ?? 25, 1), 200)`
abbrev pub page_size : Option ℤ → ℕ
page_size none = 25
page_size (some limit) = min (max (whole_count limit) 1) 200

abbrev pub created : Log → ℕ
created r = r.created_at

unfoldable pub list_transfer_attempts : List Log → Text → Option ℤ → Option ℕ → List Log
list_transfer_attempts logs wallet_id limit before =
    take (page_size limit) (sort_by created (filter (belongs wallet_id before) logs))

unfoldable pub count_transfer_attempts : List Log → Text → Option ℕ → ℕ
count_transfer_attempts logs wallet_id since =
    length (filter (λ r. r.wallet_id == wallet_id && is_since since r.created_at) logs)

abbrev pub first : List Log → Option Log
first [] = none
first (r ∷ logs) = some r

unfoldable pub get_latest_transfer_attempt : List Log → Text → Option Log
get_latest_transfer_attempt logs wallet_id =
    first (sort_by created (filter (λ r. r.wallet_id == wallet_id) logs))
