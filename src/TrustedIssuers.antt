-- ===== src/TrustedIssuers.antt =====
-- lib/xrpl-trusted-issuers.ts, with the list of issuers of lib/xrpl-issued-assets.ts and the currencies of
-- lib/xrpl-amount.ts: which issuers of a currency the environment trusts. What JSON.parse makes of a
-- text that starts with a brace is an argument, `none` where it throws.
pub mod Candidates
pub mod Bought
mod Tests
use aljama_wallet.Base.{
  ℕ, Bool, true, false, ◌||◌, not, Option, none, some, List, [], ◌∷◌, ◌==◌, nat_eq, if◌then◌else◌,
  or_else, Text, text, text_eq, trim, to_upper, filter, map,
}
use aljama_wallet.Base.Map
use aljama_wallet.Base.Map.{Map}

pub data Source : Type 0 where
  policy allowlist no_source : Source

-- The value of a field of the parsed policy; of an array the items that are strings count.
pub data Field : Type 0 where
  array_of : List (Option Text) → Field
  string_of : Text → Field
  other_field : Field

pub record Environment : Type 0 where
  -- XRPL_TRADE_TRUSTED_ISSUERS and XRPL_ALLOWED_ISSUERS
  pub trusted_issuers : Option Text
  pub allowed_issuers : Option Text
  pub parse_json : Text → Option (List (Text × Field))

unfoldable pub normalize_currency : Text → Text
normalize_currency s = to_upper (trim s)

unfoldable pub is_xrp_currency : Text → Bool
is_xrp_currency s = normalize_currency s == text "XRP"

abbrev pub cons_first : ℕ → List Text → List Text
cons_first c [] = (c ∷ []) ∷ []
cons_first c (t ∷ ts) = (c ∷ t) ∷ ts

-- `text.split(separator)`
abbrev pub split : (ℕ → Bool) → Text → List Text
split at [] = [] ∷ []
split at (c ∷ s) = let rest = split at s in if at c then [] ∷ rest else cons_first c rest

abbrev pub is_blank : Text → Bool
is_blank [] = true
is_blank (c ∷ s) = false

-- `.map((s) => s.trim()).filter(Boolean)`
abbrev pub trimmed : List Text → List Text
trimmed ts = filter (λ t. not (is_blank t)) (map trim ts)

-- `Array.from(new Set(values))`
abbrev pub dedupe : List Text → List Text
dedupe [] = []
dedupe (t ∷ ts) = t ∷ filter (λ s. not (t == s)) (dedupe ts)

unfoldable pub allowed_issuer_set : Environment → List Text
allowed_issuer_set env = elim env.allowed_issuers [
  | none ↦ []
  | some raw ↦ if is_blank raw then [] else dedupe (trimmed (split (λ c. c == b',') raw))
]

abbrev pub split_issuer_list : Text → List Text
split_issuer_list s = trimmed (split (λ c. c == b'|' || c == b',') s)

abbrev pub strings : List (Option Text) → List Text
strings [] = []
strings (none ∷ ts) = strings ts
strings (some t ∷ ts) = t ∷ strings ts

unfoldable pub field_issuers : Field → List Text
field_issuers (array_of items) = dedupe (trimmed (strings items))
field_issuers (string_of s) = dedupe (split_issuer_list s)
field_issuers other_field = []

abbrev pub set_if_any : Map Text (List Text) → Text → List Text → Map Text (List Text)
set_if_any m currency [] = m
set_if_any m currency (i ∷ is) = Map.set m currency (i ∷ is)

unfoldable pub parse_json_policy : List (Text × Field) → Map Text (List Text) → Map Text (List Text)
parse_json_policy [] m = m
parse_json_policy ((currency, value) ∷ fields) m =
    parse_json_policy fields (set_if_any m (normalize_currency currency) (field_issuers value))

-- The first two parts of `trimmed.split(':', 2)`, the empty text where there is none.
abbrev pub first_part : List Text → Text
first_part [] = []
first_part (t ∷ ts) = t

abbrev pub second_part : List Text → Text
second_part [] = []
second_part (t ∷ ts) = first_part ts

unfoldable pub parse_segment : Text → Map Text (List Text) → Map Text (List Text)
parse_segment segment m =
    let s = trim segment in
    let parts = split (λ c. c == b':') s in
    let currency = normalize_currency (first_part parts) in
    if is_blank s || is_blank currency
    then m
    else set_if_any m currency (dedupe (split_issuer_list (second_part parts)))

unfoldable pub parse_delimited_policy : List Text → Map Text (List Text) → Map Text (List Text)
parse_delimited_policy [] m = m
parse_delimited_policy (segment ∷ segments) m =
    parse_delimited_policy segments (parse_segment segment m)

abbrev pub starts_with_brace : Text → Bool
starts_with_brace [] = false
starts_with_brace (c ∷ s) = c == 123

unfoldable pub parse_trusted_issuer_policy : Environment → Map Text (List Text)
parse_trusted_issuer_policy env =
    let raw = trim (or_else env.trusted_issuers []) in
    if is_blank raw
    then []
    else if starts_with_brace raw
    then elim (env.parse_json raw) [ none ↦ [] | some fields ↦ parse_json_policy fields [] ]
    else parse_delimited_policy (split (λ c. c == b';') raw) []

abbrev pub from_allowlist : List Text → List Text × Source
from_allowlist [] = ([], no_source)
from_allowlist (i ∷ is) = (i ∷ is, allowlist)

abbrev pub from_policy : List Text → List Text → List Text × Source
from_policy [] allowed = from_allowlist allowed
from_policy (i ∷ is) allowed = (i ∷ is, policy)

-- `getTrustedIssuersForCurrency`
unfoldable pub trusted_issuers_for : Environment → Text → List Text × Source
trusted_issuers_for env input =
    let currency = normalize_currency input in
    if currency == text "XRP"
    then ([], no_source)
    else from_policy (or_else (Map.get (parse_trusted_issuer_policy env) currency) [])
        (allowed_issuer_set env)
