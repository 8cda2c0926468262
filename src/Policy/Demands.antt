-- ===== src/Policy/Demands.antt =====
-- What each kind of stored policy demands of a transfer, against one round of the loop in
-- `evaluateStoredWalletPolicies`.
use aljama_wallet.Base.{
  ◌≡◌, ◌≢◌, ◌↔◌, inl, inr, refl, sym, ◌∙◌, Bool, true, false, Option, some, none, List, [], ◌∷◌,
  arith, Bool-cases, Text, text, text_eq, ==_iff, ◌==◌, includes, ℤ, ◌+ℤ◌, ◌≤ℤ◌,
}
use aljama_wallet.Policy.{
  Policy, Triggered, Input, trigger, parse_limit_amount, normalize_config, allowed_addresses,
  normalize_address_for_policy, exceeds, is_outside, when,
}

-- What a policy demands of a transfer, by its type. A policy of any other type demands nothing.
pub record Passes (i : Input) (p : Policy) : Type 0 where
  pub within_daily_limit :
      p.policy_type ≡ text "daily_spend_limit"
      → (l : ℤ) → parse_limit_amount p.limit_amount ≡ some l
      → (i.spent +ℤ i.amount) ≤ℤ l
  pub within_max :
      p.policy_type ≡ text "max_tx_value"
      → (l : ℤ) → parse_limit_amount p.limit_amount ≡ some l
      → i.amount ≤ℤ l
  pub on_whitelist :
      p.policy_type ≡ text "whitelist_only"
      → allowed_addresses (normalize_config p.config) ≢ []
      → includes
          (allowed_addresses (normalize_config p.config))
          (normalize_address_for_policy i.to_address)
        ≡ true
  pub needs_no_review : p.policy_type ≢ text "require_review"

exceeds-false : (x : ℤ) (o : Option ℤ) → (exceeds x o ≡ false) ↔ ((l : ℤ) → o ≡ some l → x ≤ℤ l)
exceeds-false x none = (λ e l p. cc, λ h. refl)
exceeds-false x (some m) = (λ e l p. ground (arith, p), λ h. ground (arith, h m refl))

is_outside-false :
    (xs : List Text) (a : Text) → (is_outside xs a ≡ false) ↔ (xs ≢ [] → includes xs a ≡ true)
is_outside-false [] a = (λ e h. absurd (h refl), λ h. refl)
is_outside-false (x ∷ xs) a =
    let some_listed : x ∷ xs ≢ [] = λ e. cc in
    (λ e _. ground (arith, e), λ h. ground (arith, h some_listed))

when-none : (b : Bool) (t : Triggered) → (when b t ≡ none) ↔ (b ≡ false)
when-none true t = (λ e. cc, λ e. cc)
when-none false t = (λ e. refl, λ e. refl)

apart : {s t : Text} → (s == t) ≡ false → s ≢ t
apart {s} {t} differ e = let same = (==_iff s t).1 e in cc (sym same ∙ differ)

pub iff_trans {ℓ κ ρ} : {A : Type ℓ} {B : Type κ} {C : Type ρ} → A ↔ B → B ↔ C → A ↔ C
iff_trans (f, g) (h, k) = (λ a. h (f a), λ c. g (k c))

module _ (i : Input) (p : Policy) where
  Passes-daily :
      p.policy_type ≡ text "daily_spend_limit"
      → ((l : ℤ) → parse_limit_amount p.limit_amount ≡ some l → (i.spent +ℤ i.amount) ≤ℤ l)
        ↔ Passes i p
  Passes-daily e = (
    λ h. record {
      within_daily_limit = λ _. h;
      within_max = λ q. absurd (apart refl (sym e ∙ q));
      on_whitelist = λ q. absurd (apart refl (sym e ∙ q));
      needs_no_review = λ q. absurd (apart refl (sym e ∙ q));
    },
    λ v. v.within_daily_limit e,
  )

  Passes-max :
      p.policy_type ≡ text "max_tx_value"
      → ((l : ℤ) → parse_limit_amount p.limit_amount ≡ some l → i.amount ≤ℤ l) ↔ Passes i p
  Passes-max e = (
    λ h. record {
      within_daily_limit = λ q. absurd (apart refl (sym e ∙ q));
      within_max = λ _. h;
      on_whitelist = λ q. absurd (apart refl (sym e ∙ q));
      needs_no_review = λ q. absurd (apart refl (sym e ∙ q));
    },
    λ v. v.within_max e,
  )

  Passes-whitelist :
      p.policy_type ≡ text "whitelist_only"
      → (allowed_addresses (normalize_config p.config) ≢ []
          → includes
              (allowed_addresses (normalize_config p.config))
              (normalize_address_for_policy i.to_address)
            ≡ true)
        ↔ Passes i p
  Passes-whitelist e = (
    λ h. record {
      within_daily_limit = λ q. absurd (apart refl (sym e ∙ q));
      within_max = λ q. absurd (apart refl (sym e ∙ q));
      on_whitelist = λ _. h;
      needs_no_review = λ q. absurd (apart refl (sym e ∙ q));
    },
    λ v. v.on_whitelist e,
  )

  Passes-other :
      (p.policy_type == text "daily_spend_limit") ≡ false
      → (p.policy_type == text "max_tx_value") ≡ false
      → (p.policy_type == text "whitelist_only") ≡ false
      → (p.policy_type == text "require_review") ≡ false
      → Passes i p
  Passes-other d m w r = record {
    within_daily_limit = λ q. absurd (apart d q);
    within_max = λ q. absurd (apart m q);
    on_whitelist = λ q. absurd (apart w q);
    needs_no_review = λ q. apart r q;
  }

  -- A policy triggers nothing exactly if the transfer passes it.
  pub trigger-none : (trigger i p ≡ none) ↔ Passes i p
  unfolding trigger
  trigger-none = elim (Bool-cases (p.policy_type == text "daily_spend_limit")) [
    | inl daily ↦
        rw (daily, trigger)
          (iff_trans (when-none _ _)
            (iff_trans (exceeds-false _ _) (Passes-daily ((==_iff _ _).0 daily))))
    | inr not_daily ↦ elim (Bool-cases (p.policy_type == text "max_tx_value")) [
      | inl max ↦
          rw (not_daily, trigger, max)
            (iff_trans (when-none _ _)
              (iff_trans (exceeds-false _ _) (Passes-max ((==_iff _ _).0 max))))
      | inr not_max ↦ elim (Bool-cases (p.policy_type == text "whitelist_only")) [
        | inl whitelist ↦
            rw (not_daily, trigger, not_max, whitelist)
              (iff_trans (when-none _ _)
                (iff_trans (is_outside-false _ _) (Passes-whitelist ((==_iff _ _).0 whitelist))))
        | inr no_list ↦ elim (Bool-cases (p.policy_type == text "require_review")) [
          | inl review_type ↦
              rw (not_daily, trigger, not_max, no_list, review_type)
                (λ e. cc, λ v. absurd (v.needs_no_review ((==_iff _ _).0 review_type)))
          | inr not_review ↦
              rw (not_daily, trigger, not_max, no_list, not_review)
                (λ _. Passes-other not_daily not_max no_list not_review, λ v. refl)
        ]
      ]
    ]
  ]
