-- ===== src/TrustedIssuers/Tests.antt =====
-- An environment that trusts issuers, and the theorem applied to a wallet with two trust lines.
use aljama_wallet.Base.{
  ◌≡◌, ◌⊎◌, refl, inl, inr, none, some, List, [], ◌∷◌, text, text_eq, trim, done, to_upper, false,
  arith,
}
use aljama_wallet.Base.Map
use aljama_wallet.TrustedIssuers.{
  Environment, trusted_issuers_for, parse_trusted_issuer_policy, parse_delimited_policy,
  parse_segment, normalize_currency, allowed_issuer_set, is_xrp_currency, policy,
}
use aljama_wallet.TrustedIssuers.Candidates.{
  Asset, TrustLine, normalize_asset, resolve_destination_candidates,
}
use aljama_wallet.TrustedIssuers.Bought.{Yields, Trusted, bought-Trusted}

abbrev env : Environment
env = record {
  trusted_issuers = some (text "usd: rA | rB ;EUR:rC");
  allowed_issuers = some (text "rD");
  parse_json = λ s. none;
}

abbrev lines : List TrustLine
lines =
    record { currency = text "USD"; issuer = text "rB" }
    ∷ record { currency = text "USD"; issuer = text "rD" }
    ∷ []

abbrev requested : Asset
requested = record { currency = text " usd"; issuer = none }

abbrev normalized : Asset
normalized = record { currency = text "USD"; issuer = none }

dollars : normalize_asset requested ≡ done normalized
unfolding normalize_asset normalize_currency is_xrp_currency trim to_upper
dollars = refl

not_xrp : is_xrp_currency normalized.currency ≡ false
unfolding normalize_currency is_xrp_currency trim to_upper
not_xrp = refl

unnamed : trim [] ≡ []
unfolding trim
unnamed = refl

trusted_dollars : trusted_issuers_for env (text "USD") ≡ (text "rA" ∷ text "rB" ∷ [], policy)
unfolding trusted_issuers_for parse_trusted_issuer_policy parse_delimited_policy parse_segment
    normalize_currency allowed_issuer_set Map.get Map.set trim to_upper
trusted_dollars = refl

bought-Trusted_example :
    Yields
      (Trusted
        (λ l. (l.issuer ≡ text "rB") ⊎ (l.issuer ≡ text "rD"))
        normalized.currency
        (trusted_issuers_for env normalized.currency).0)
      (resolve_destination_candidates env lines requested)
bought-Trusted_example =
    bought-Trusted env lines requested normalized
      (λ l. (l.issuer ≡ text "rB") ⊎ (l.issuer ≡ text "rD")) dollars not_xrp
      (ground (arith, unnamed)) (inl refl, (inr refl, tt))
