-- ===== src/Policy/Tests.antt =====
-- Examples for the stored policies.
use aljama_wallet.Base.{
  none, done, ◌≤◌, ◌≡◌, ◌≢◌, ◌↔◌, ◌⊎◌, refl, true, some, List, [], ◌∷◌, Text, text, text_eq, trim,
  to_lower, to_upper, All, find, ℤ, pos, ◌+ℤ◌, ◌≤ℤ◌, big_int,
}
use aljama_wallet.Policy.{
  allow, review, deny, Policy, Input, null, object, array, string, nil, item, end, field, global,
  is_daily_limit, read_default_daily_limit_wei, or_default, get_wallet_daily_limit_wei,
  evaluate_stored_wallet_policies, list_policies_for_scope, specificity, parse_limit_amount,
  trigger, all_triggered, allowed_addresses, normalize_config, normalize_address_for_policy,
  decision_of, normalize_scope_chain_type, normalize_scope_network_id,
}
use aljama_wallet.Policy.Demands.{Passes}
use aljama_wallet.Policy.Verdict.{Tolerates, evaluate-allow, evaluate-not_deny}
use aljama_wallet.Policy.DailyLimit.{allow-daily_limit, daily_limit_most_specific}

abbrev global_limit : Policy
global_limit = record {
  id = text "p1";
  wallet_id = text "w";
  enabled = true;
  policy_type = text "daily_spend_limit";
  scope_chain_type = global;
  scope_network_id = global;
  limit_amount = some (text "100");
  time_window = some (text "utc_day");
  decision_mode = text "deny";
  config = null;
}

abbrev evm_limit : Policy
evm_limit = record global_limit {
  id = text "p2";
  scope_chain_type = text "EVM";
  limit_amount = some (text "50");
}

abbrev friends_only : Policy
friends_only = record global_limit {
  id = text "p3";
  policy_type = text "whitelist_only";
  decision_mode = text "review";
  config = object (field (text "allowedAddresses") (array (item (string (text "0xA")) nil)) end);
}

abbrev rows : List Policy
rows = global_limit ∷ evm_limit ∷ friends_only ∷ []

abbrev payment : Text → ℤ → Input
payment to_address amount = record {
  wallet_id = text "w";
  chain_type = text "evm";
  network_id = some (text "1");
  to_address = to_address;
  amount = amount;
  spent = pos 10;
}

evaluate-allow_example :
    ((evaluate_stored_wallet_policies rows (payment (text " 0xa") (pos 40))).decision ≡ allow)
    ↔ All (Passes (payment (text " 0xa") (pos 40))) rows
evaluate-allow_example = evaluate-allow rows (payment (text " 0xa") (pos 40))

evaluate-not_deny_example :
    ((evaluate_stored_wallet_policies rows (payment (text "0xb") (pos 40))).decision ≢ deny)
    ↔ All (Tolerates (payment (text "0xb") (pos 40))) rows
evaluate-not_deny_example = evaluate-not_deny rows (payment (text "0xb") (pos 40))

friend_allowed :
    (evaluate_stored_wallet_policies rows (payment (text " 0xa") (pos 40))).decision ≡ allow
unfolding evaluate_stored_wallet_policies decision_of all_triggered list_policies_for_scope
    specificity normalize_scope_chain_type to_upper trim normalize_scope_network_id trigger
    parse_limit_amount big_int ◌+ℤ◌ allowed_addresses normalize_config normalize_address_for_policy
    to_lower
friend_allowed = refl

stranger_reviewed :
    (evaluate_stored_wallet_policies rows (payment (text "0xb") (pos 40))).decision ≡ review
unfolding evaluate_stored_wallet_policies decision_of all_triggered list_policies_for_scope
    specificity normalize_scope_chain_type to_upper trim normalize_scope_network_id trigger
    parse_limit_amount big_int ◌+ℤ◌ allowed_addresses normalize_config normalize_address_for_policy
    to_lower
stranger_reviewed = refl

large_denied :
    (evaluate_stored_wallet_policies rows (payment (text "0xa") (pos 41))).decision ≡ deny
unfolding evaluate_stored_wallet_policies decision_of all_triggered list_policies_for_scope
    specificity normalize_scope_chain_type to_upper trim normalize_scope_network_id trigger
    parse_limit_amount big_int ◌+ℤ◌ allowed_addresses normalize_config normalize_address_for_policy
    to_lower
large_denied = refl

allow-daily_limit_example :
    ((l : ℤ) × (get_wallet_daily_limit_wei rows (text "evm") (some (text "1")) true none ≡ done l)
      × ((pos 10 +ℤ pos 40) ≤ℤ l))
    ⊎ (get_wallet_daily_limit_wei rows (text "evm") (some (text "1")) true none
        ≡ read_default_daily_limit_wei true none)
allow-daily_limit_example =
    allow-daily_limit rows (payment (text " 0xa") (pos 40)) true none friend_allowed

evm_limit_found :
    find is_daily_limit (list_policies_for_scope rows (text "evm") (some (text "1")))
    ≡ some evm_limit
unfolding list_policies_for_scope specificity normalize_scope_chain_type to_upper trim
    normalize_scope_network_id
evm_limit_found = refl

daily_limit_most_specific_example :
    All
      (λ q.
        is_daily_limit q ≡ true
        → specificity (text "evm") (some (text "1")) q
          ≤ specificity (text "evm") (some (text "1")) evm_limit)
      rows
    × (get_wallet_daily_limit_wei rows (text "evm") (some (text "1")) true none
        ≡ or_default (parse_limit_amount (some (text "50"))) true none)
daily_limit_most_specific_example =
    daily_limit_most_specific rows (text "evm") (some (text "1")) true none evm_limit
      evm_limit_found
