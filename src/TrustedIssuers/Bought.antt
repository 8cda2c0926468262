-- ===== src/TrustedIssuers/Bought.antt =====
-- Which assets a swap without a named issuer may buy.
use aljama_wallet.Base.{
  true, false, List, [], ◌∷◌, ◌≢◌, ◌≡◌, refl, sym, subst, inl, inr, Text, or_else, any, map, All,
  All-filter, All-map, Outcome, done, thrown, Outcome-cases, Bool-cases, and_then, trim, ◌==◌,
  text_eq,
}
use aljama_wallet.TrustedIssuers.{
  Environment, Source, is_xrp_currency, is_blank, trusted_issuers_for,
}
use aljama_wallet.TrustedIssuers.Candidates.{
  Asset, TrustLine, Selection, normalize_asset, unique_assets, also, asset_key, is_trusted_line,
  asset_of, selection_of, some_candidates, candidates_of, resolve_destination_candidates,
}

-- The result, where there is one, has the property.
abbrev pub Yields : {A : Type 0} → (A → Type 0) → Outcome A → Type 0
Yields P (done a) = P a
Yields P (thrown e) = Unit

map-All :
    (currency : Text) (Q : Asset → Type 0) (lines : List TrustLine)
    → All (λ l. Q (asset_of currency l)) lines
    → All Q (map (asset_of currency) lines)
map-All currency Q [] h = tt
map-All currency Q (l ∷ lines) (q, h) = (q, map-All currency Q lines h)

module _ (Q : Asset → Type 0) where
  -- One of the assets that has been normalised.
  abbrev FromOne : Asset → Type 0
  FromOne n = (a : Asset) × Q a × (normalize_asset a ≡ done n)

  also-FromOne :
      (n : Asset) (x : Outcome (List Asset))
      → FromOne n
      → Yields (All FromOne) x
      → Yields (All FromOne) (also n x)
  also-FromOne n (done rest) one h = (one, h)
  also-FromOne n (thrown e) one h = tt

  unique_assets-FromOne :
      (seen : List Text) (candidates : List Asset)
      → All Q candidates
      → Yields (All FromOne) (unique_assets seen candidates)
  unfolding unique_assets
  unique_assets-FromOne seen [] h = tt
  unique_assets-FromOne seen (a ∷ candidates) (q, h) = elim (Outcome-cases (normalize_asset a)) [
    | inr (e, bad) ↦ rw (bad, unique_assets) tt
    | inl (n, good) ↦ elim (Bool-cases (any (λ k. k == asset_key n) seen)) [
      | inl old ↦ rw (good, old, unique_assets) (unique_assets-FromOne seen candidates h)
      | inr new ↦
          rw (good, new, unique_assets)
            (also-FromOne n (unique_assets (asset_key n ∷ seen) candidates) (a, q, good)
              (unique_assets-FromOne (asset_key n ∷ seen) candidates h))
    ]
  ]

module _ (P : TrustLine → Type 0) (currency : Text) (issuers : List Text) where
  -- The asset of a trust line with P that is in the currency and of one of the issuers.
  abbrev pub OfTrustLine : Asset → Type 0
  OfTrustLine n =
      (l : TrustLine) × P l
      × (is_trusted_line issuers currency l ≡ true)
      × (normalize_asset (asset_of currency l) ≡ done n)

  -- It is the asset of such a line before it is normalised.
  abbrev OfLine : Asset → Type 0
  OfLine a =
      (l : TrustLine) × P l
      × (is_trusted_line issuers currency l ≡ true)
      × (asset_of currency l ≡ a)

  abbrev pub Trusted : List Asset × Selection → Type 0
  Trusted (cs, selection) = All OfTrustLine cs × (cs ≢ [])

  from_one : (n : Asset) → FromOne OfLine n → OfTrustLine n
  from_one n (a, (l, p, trusted, same), normal) =
      (l, p, trusted, subst (λ z. normalize_asset z ≡ done n) (sym same) normal)

  some_candidates-Trusted :
      (selection : Selection) (x : Outcome (List Asset))
      → Yields (All (FromOne OfLine)) x
      → Yields Trusted (and_then x (some_candidates selection))
  some_candidates-Trusted selection (done []) h = tt
  some_candidates-Trusted selection (done (n ∷ ns)) h = (All-map from_one (n ∷ ns) h, λ e. cc)
  some_candidates-Trusted selection (thrown e) h = tt

candidates-Trusted :
    (P : TrustLine → Type 0) (lines : List TrustLine) (currency : Text) (issuers : List Text)
    (by : Source)
    → All P lines
    → Yields (Trusted P currency issuers) (candidates_of lines currency issuers by)
unfolding candidates_of
candidates-Trusted P lines currency [] by h = tt
candidates-Trusted P lines currency (i ∷ is) by h =
    let issuers = i ∷ is in
    let found = All-filter P (is_trusted_line issuers currency) lines h in
    some_candidates-Trusted P currency issuers (selection_of by) _ (
      unique_assets-FromOne (OfLine P currency issuers) [] _ (
        map-All currency (OfLine P currency issuers) _
          (All-map (λ l (p, trusted). (l, p, trusted, refl)) _ found)))

-- Where a swap asks for a currency other than XRP and names no issuer, and its candidates are found,
-- there is one, and each is the asset of a trust line of the wallet, in that currency and with an issuer
-- that the environment trusts for it. Whatever holds of all trust lines of the wallet holds of its line.
pub bought-Trusted :
    (env : Environment) (lines : List TrustLine) (requested r : Asset) (P : TrustLine → Type 0)
    → normalize_asset requested ≡ done r
    → is_xrp_currency r.currency ≡ false
    → is_blank (trim (or_else r.issuer [])) ≡ true
    → All P lines
    → Yields
        (Trusted P r.currency (trusted_issuers_for env r.currency).0)
        (resolve_destination_candidates env lines requested)
unfolding resolve_destination_candidates
bought-Trusted env lines requested r P normal issued unnamed h =
    rw (normal, issued, unnamed, resolve_destination_candidates)
      (candidates-Trusted P lines r.currency (trusted_issuers_for env r.currency).0
        (trusted_issuers_for env r.currency).1 h)
