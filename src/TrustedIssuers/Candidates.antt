-- ===== src/TrustedIssuers/Candidates.antt =====
-- The assets that a swap of services/xrpl-swap.service.ts may buy: `resolveDestinationCandidates`.
use aljama_wallet.Base.{
  Bool, ◌&&◌, Option, none, some, List, [], ◌∷◌, ◌++◌, ◌==◌, if◌then◌else◌, or_else, Text, text,
  text_eq, trim, to_lower, any, filter, map, Outcome, done, thrown, and_then,
}
use aljama_wallet.TrustedIssuers.{
  Environment, Source, policy, allowlist, no_source, normalize_currency, is_xrp_currency, is_blank,
  trusted_issuers_for,
}

pub record Asset : Type 0 where
  pub currency : Text
  pub issuer : Option Text

pub record TrustLine : Type 0 where
  pub currency : Text
  pub issuer : Text

pub data Selection : Type 0 where
  native manual trusted_policy trusted_allowlist : Selection

abbrev pub trim_issuer : Option Text → Option Text
trim_issuer none = none
trim_issuer (some i) = some (trim i)

unfoldable pub normalize_asset : Asset → Outcome Asset
normalize_asset a =
    let c = normalize_currency a.currency in
    if is_blank c
    then thrown (text "Currency is required")
    else done
        (record { currency = c; issuer = if is_xrp_currency c then none else trim_issuer a.issuer })

unfoldable pub assert_resolved_asset : Asset → Outcome Asset
assert_resolved_asset a = and_then (normalize_asset a) λ n.
    if is_xrp_currency n.currency
    then done n
    else if is_blank (or_else n.issuer [])
    then thrown (text "Issuer required")
    else done n

unfoldable pub asset_key : Asset → Text
asset_key n =
    if is_xrp_currency n.currency
    then n.currency
    else n.currency ++ (b':' ∷ to_lower (or_else n.issuer []))

abbrev pub also : Asset → Outcome (List Asset) → Outcome (List Asset)
also n (done rest) = done (n ∷ rest)
also n (thrown e) = thrown e

unfoldable pub unique_assets : List Text → List Asset → Outcome (List Asset)
unique_assets seen [] = done []
unique_assets seen (a ∷ candidates) = elim (normalize_asset a) [
  | thrown e ↦ thrown e
  | done n ↦
      let old = unique_assets seen candidates in
      let new = unique_assets (asset_key n ∷ seen) candidates in
      if any (λ k. k == asset_key n) seen then old else also n new
]

abbrev pub selection_of : Source → Selection
selection_of policy = trusted_policy
selection_of allowlist = trusted_allowlist
selection_of no_source = manual

abbrev pub is_trusted_line : List Text → Text → TrustLine → Bool
is_trusted_line issuers currency l = l.currency == currency && any (λ i. i == l.issuer) issuers

abbrev pub asset_of : Text → TrustLine → Asset
asset_of currency l = record { currency = currency; issuer = some l.issuer }

abbrev pub some_candidates : Selection → List Asset → Outcome (List Asset × Selection)
some_candidates selection [] = thrown (text "No trusted trustline is configured in this wallet")
some_candidates selection (a ∷ candidates) = done (a ∷ candidates, selection)

unfoldable pub candidates_of :
    List TrustLine → Text → List Text → Source → Outcome (List Asset × Selection)
candidates_of lines currency [] by = thrown (text "No trusted issuer policy configured")
candidates_of lines currency (i ∷ is) by =
    and_then
      (unique_assets []
        (map (asset_of currency) (filter (is_trusted_line (i ∷ is) currency) lines)))
      (some_candidates (selection_of by))

-- `resolveDestinationCandidates`, at an issuer that is given, native or trusted.
unfoldable pub resolve_destination_candidates :
    Environment → List TrustLine → Asset → Outcome (List Asset × Selection)
resolve_destination_candidates env lines requested = and_then (normalize_asset requested) λ r.
    if is_xrp_currency r.currency
    then done ((record { currency = text "XRP"; issuer = none }) ∷ [], native)
    else if is_blank (trim (or_else r.issuer []))
    then candidates_of lines r.currency (trusted_issuers_for env r.currency).0
        (trusted_issuers_for env r.currency).1
    else and_then (assert_resolved_asset r) λ a. done (a ∷ [], manual)
