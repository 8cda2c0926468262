-- ===== src/Policy.antt =====
-- services/policy.service.ts: the stored policies of a wallet, which ones apply to a transfer and
-- what they decide. The rows that Prisma's `findMany` returns for the query are an argument.
pub mod Demands
pub mod Verdict
pub mod DailyLimit
mod Tests
use aljama_wallet.Base.{
  ℕ, ◌+◌, ◌-◌, ◌^◌, Outcome, done, thrown, Bool, true, false, not, ◌&&◌, ◌||◌, Option, none, some,
  List, [], ◌∷◌, ◌++◌, ltb, leb, if◌then◌else◌, ◌==◌, Text, text, text_eq, trim, to_lower, to_upper,
  includes, find, any, or_else, ℤ, pos, ◌+ℤ◌, leb_ℤ, big_int, sort_by, map, Number, is_some,
}

pub data Decision : Type 0 where
  allow review deny : Decision

-- A value of JSON, as `record.config` holds it.
mutual
  pub data Json : Type 0 where
    null : Json
    boolean : Bool → Json
    number : Number → Json
    string : Text → Json
    array : Items → Json
    object : Fields → Json

  pub data Items : Type 0 where
    nil : Items
    item : Json → Items → Items

  pub data Fields : Type 0 where
    end : Fields
    field : Text → Json → Fields → Fields

pub record Policy : Type 0 where
  pub id : Text
  pub wallet_id : Text
  pub enabled : Bool
  pub policy_type : Text
  pub scope_chain_type : Text
  pub scope_network_id : Text
  pub limit_amount : Option Text
  pub time_window : Option Text
  pub decision_mode : Text
  pub config : Json

pub record Triggered : Type 0 where
  pub id : Option Text
  pub policy_type : Text
  pub decision : Decision
  pub event_type : Text
  pub reason : Text
  pub limit_amount : Option Text
  pub time_window : Option Text
  pub config : Option Fields

-- `GLOBAL_POLICY_SCOPE`
abbrev pub global : Text
global = text "GLOBAL"

abbrev or_global : Text → Text
or_global [] = global
or_global (c ∷ s) = c ∷ s

unfoldable pub normalize_scope_chain_type : Option Text → Text
normalize_scope_chain_type none = global
normalize_scope_chain_type (some s) = or_global (to_upper (trim s))

unfoldable pub normalize_scope_network_id : Option Text → Text
normalize_scope_network_id none = global
normalize_scope_network_id (some s) = or_global (trim s)

-- `parseLimitAmount`: a blank amount is none, like one that `BigInt` refuses.
abbrev parse_unless_blank : Text → Text → Option ℤ
parse_unless_blank [] s = none
parse_unless_blank (c ∷ t) s = big_int s

unfoldable pub parse_limit_amount : Option Text → Option ℤ
parse_limit_amount none = none
parse_limit_amount (some s) = parse_unless_blank (trim s) s

unfoldable pub normalize_config : Json → Option Fields
normalize_config (object fields) = some fields
normalize_config _ = none

unfoldable pub normalize_address_for_policy : Text → Text
normalize_address_for_policy address = to_lower (trim address)

-- The property of an object; of two with one name the last counts.
abbrev pub property : Text → Fields → Option Json
property k end = none
property k (field j v fs) =
    let rest = property k fs in if is_some rest then rest else if j == k then some v else none

abbrev addresses_in : Items → List Text
addresses_in nil = []
addresses_in (item (string s) xs) = normalize_address_for_policy s ∷ addresses_in xs
addresses_in (item _ xs) = addresses_in xs

-- `config?.allowedAddresses`, if it is an array: its texts, normalised.
abbrev addresses_of : Option Json → List Text
addresses_of (some (array xs)) = addresses_in xs
addresses_of _ = []

unfoldable pub allowed_addresses : Option Fields → List Text
allowed_addresses none = []
allowed_addresses (some fields) = addresses_of (property (text "allowedAddresses") fields)

-- The wallet and network that a call names, with its transfer.
pub record Input : Type 0 where
  pub wallet_id : Text
  pub chain_type : Text
  pub network_id : Option Text
  pub to_address : Text
  pub amount : ℤ
  pub spent : ℤ

-- The `where` of the query.
unfoldable pub is_in_scope : Text → Text → Option Text → Policy → Bool
is_in_scope wallet_id chain_type network_id p =
    p.wallet_id == wallet_id
    && p.enabled
    && (p.scope_chain_type == global
        || p.scope_chain_type == normalize_scope_chain_type (some chain_type))
    && (p.scope_network_id == global || p.scope_network_id == normalize_scope_network_id network_id)

abbrev pub one_if : Bool → ℕ
one_if true = 1
one_if false = 0

unfoldable pub specificity : Text → Option Text → Policy → ℕ
specificity chain_type network_id p =
    one_if (p.scope_chain_type == normalize_scope_chain_type (some chain_type))
    + one_if (p.scope_network_id == normalize_scope_network_id network_id)

-- `listPoliciesForScope`, from the rows that the query returned.
unfoldable pub list_policies_for_scope : List Policy → Text → Option Text → List Policy
list_policies_for_scope rows chain_type network_id =
    sort_by (specificity chain_type network_id) rows

abbrev pub is_daily_limit : Policy → Bool
is_daily_limit p = p.policy_type == text "daily_spend_limit"

-- `getWalletDailyLimitWei`; the default is read from WALLET_DAILY_LIMIT_WEI.
abbrev pub limit_of : Option Policy → Option ℤ
limit_of none = none
limit_of (some p) = parse_limit_amount p.limit_amount

-- `MAX_UINT256`
abbrev pub max_uint256 : ℤ
max_uint256 = pos (2 ^ 256 - 1)

abbrev pub read_integer : Text → Outcome ℤ
read_integer raw = elim (big_int raw) [ none ↦ thrown (text "SyntaxError") | some z ↦ done z ]

-- `readDefaultDailyLimitWei`, in strict mode or not, of WALLET_DAILY_LIMIT_WEI.
unfoldable pub read_default_daily_limit_wei : Bool → Option Text → Outcome ℤ
read_default_daily_limit_wei strict (some (c ∷ s)) = read_integer (c ∷ s)
read_default_daily_limit_wei strict _ =
    if strict then thrown (text "Missing WALLET_DAILY_LIMIT_WEI") else done max_uint256

-- `parsed ?? readDefaultDailyLimitWei()`
abbrev pub or_default : Option ℤ → Bool → Option Text → Outcome ℤ
or_default none strict raw = read_default_daily_limit_wei strict raw
or_default (some limit) strict raw = done limit

unfoldable pub get_wallet_daily_limit_wei :
    List Policy → Text → Option Text → Bool → Option Text → Outcome ℤ
get_wallet_daily_limit_wei rows chain_type network_id strict raw =
    or_default (limit_of (find is_daily_limit (list_policies_for_scope rows chain_type network_id)))
      strict raw

-- `value > limit`, false for a limit that is none.
abbrev pub exceeds : ℤ → Option ℤ → Bool
exceeds value none = false
exceeds value (some limit) = not (leb_ℤ value limit)

abbrev pub mode_of : Policy → Decision
mode_of p = if p.decision_mode == text "review" then review else deny

abbrev triggered : Policy → Decision → Text → Text → Triggered
triggered p decision event_type reason = record {
  id = some p.id;
  policy_type = p.policy_type;
  decision = decision;
  event_type = event_type;
  reason = reason;
  limit_amount = p.limit_amount;
  time_window = p.time_window;
  config = normalize_config p.config;
}

abbrev pub when : Bool → Triggered → Option Triggered
when true t = some t
when false t = none

abbrev pub is_outside : List Text → Text → Bool
is_outside [] address = false
is_outside (a ∷ as') address = not (includes (a ∷ as') address)

-- One round of the loop: the `switch` over the policy's type.
unfoldable pub trigger : Input → Policy → Option Triggered
trigger i p =
    if p.policy_type == text "daily_spend_limit"
    then when (exceeds (i.spent +ℤ i.amount) (parse_limit_amount p.limit_amount))
        (triggered p (mode_of p) (text "limit_exceeded") (text "daily_spend_limit_exceeded"))
    else if p.policy_type == text "max_tx_value"
    then when (exceeds i.amount (parse_limit_amount p.limit_amount))
        (triggered p (mode_of p) (text "max_tx_value_exceeded") (text "max_tx_value_exceeded"))
    else if p.policy_type == text "whitelist_only"
    then when
        (is_outside (allowed_addresses (normalize_config p.config))
          (normalize_address_for_policy i.to_address))
        (triggered p (mode_of p) (text "destination_not_whitelisted")
          (text "destination_not_whitelisted"))
    else if p.policy_type == text "require_review"
    then some (triggered p review (text "review_required") (text "review_required"))
    else none

unfoldable pub all_triggered : Input → List Policy → List Triggered
all_triggered i [] = []
all_triggered i (p ∷ ps) =
    let rest = all_triggered i ps in elim (trigger i p) [ none ↦ rest | some t ↦ t ∷ rest ]

abbrev pub is_deny : Triggered → Bool
is_deny t = elim t.decision [ deny ↦ true | _ ↦ false ]

abbrev pub is_review : Triggered → Bool
is_review t = elim t.decision [ review ↦ true | _ ↦ false ]

unfoldable pub decision_of : List Triggered → Decision
decision_of ts = if any is_deny ts then deny else if any is_review ts then review else allow

pub record Evaluation : Type 0 where
  pub decision : Decision
  pub reasons : List Text
  pub triggered_policies : List Triggered

-- `evaluateStoredWalletPolicies`
unfoldable pub evaluate_stored_wallet_policies : List Policy → Input → Evaluation
evaluate_stored_wallet_policies rows i =
    let ts = all_triggered i (list_policies_for_scope rows i.chain_type i.network_id) in
    record { decision = decision_of ts; reasons = map (λ t. t.reason) ts; triggered_policies = ts }
