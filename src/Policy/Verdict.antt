-- ===== src/Policy/Verdict.antt =====
-- What `evaluateStoredWalletPolicies` decides, against what each kind of policy demands.
use aljama_wallet.Base.{
  sort_by-All, ◌≡◌, ◌≢◌, ◌↔◌, ◌⊎◌, inl, inr, refl, sym, ◌∙◌, Bool, true, false, Option, List, [],
  ◌∷◌, arith, if◌then◌else◌, Bool-cases, Option-cases, All, Text, text, text_eq, ==_iff, ◌==◌, any,
  Whenever,
}
use aljama_wallet.Policy.Demands.{Passes, trigger-none, iff_trans}
use aljama_wallet.Policy.{
  Decision, allow, review, deny, Policy, Triggered, Input, trigger, all_triggered, decision_of,
  evaluate_stored_wallet_policies, list_policies_for_scope, specificity, mode_of, when, is_deny,
}

-- What a policy decides if it objects.
abbrev pub objection : Policy → Decision
objection p = if p.policy_type == text "require_review" then review else mode_of p

abbrev Objects : Policy → Option Triggered → Type 0
Objects p = Whenever (λ t. t.decision ≡ objection p)

when-Objects :
    (p : Policy) (b : Bool) (t : Triggered) → t.decision ≡ objection p → Objects p (when b t)
when-Objects p true t h = h
when-Objects p false t h = tt

mode_of_type :
    (p : Policy) (w : Text)
    → (p.policy_type == w) ≡ true
    → (w == text "require_review") ≡ false
    → mode_of p ≡ objection p
mode_of_type p w e differ =
    let other : (p.policy_type == text "require_review") ≡ false =
      rw ((==_iff p.policy_type w).0 e) differ in
    rw other refl

trigger-Objects : (i : Input) (p : Policy) → Objects p (trigger i p)
unfolding trigger
trigger-Objects i p = elim (Bool-cases (p.policy_type == text "daily_spend_limit")) [
  | inl daily ↦ rw (daily, trigger) (when-Objects p _ _ (mode_of_type p _ daily refl))
  | inr not_daily ↦ elim (Bool-cases (p.policy_type == text "max_tx_value")) [
    | inl max ↦ rw (not_daily, trigger, max) (when-Objects p _ _ (mode_of_type p _ max refl))
    | inr not_max ↦ elim (Bool-cases (p.policy_type == text "whitelist_only")) [
      | inl list ↦
          rw (not_daily, trigger, not_max, list) (when-Objects p _ _ (mode_of_type p _ list refl))
      | inr no_list ↦ elim (Bool-cases (p.policy_type == text "require_review")) [
        | inl review_type ↦ rw (not_daily, trigger, not_max, no_list, review_type) refl
        | inr not_review ↦ rw (not_daily, trigger, not_max, no_list, not_review) tt
      ]
    ]
  ]
]

all_triggered-nil : (i : Input) (ps : List Policy) → (all_triggered i ps ≡ []) ↔ All (Passes i) ps
unfolding all_triggered
all_triggered-nil i [] = (λ _. tt, λ _. refl)
all_triggered-nil i (p ∷ ps) =
    let (to, from) = trigger-none i p in
    let (all, back) = all_triggered-nil i ps in
    elim (Option-cases (trigger i p)) [
      | inl nothing ↦ rw (nothing, all_triggered) (λ e. (to nothing, all e), λ (v, h). back h)
      | inr (t, hit) ↦ rw (hit, all_triggered) (λ e. cc, λ (v, h). cc (sym hit ∙ from v))
    ]

objection_cases : (p : Policy) → (objection p ≡ review) ⊎ (objection p ≡ deny)
objection_cases p = ground arith

all_triggered-objecting :
    (i : Input) (ps : List Policy) → All (λ t. t.decision ≢ allow) (all_triggered i ps)
unfolding all_triggered
all_triggered-objecting i [] = tt
all_triggered-objecting i (p ∷ ps) = elim (Option-cases (trigger i p)) [
  | inl nothing ↦ rw (nothing, all_triggered) (all_triggered-objecting i ps)
  | inr (t, hit) ↦
      let decided : t.decision ≡ objection p = rw hit at (trigger-Objects i p) in
      rw (hit, all_triggered)
        (λ e. ground (arith, objection_cases p, decided, e), all_triggered-objecting i ps)
]

decision_of-allow :
    (ts : List Triggered) → All (λ t. t.decision ≢ allow) ts → (decision_of ts ≡ allow) ↔ (ts ≡ [])
unfolding decision_of
decision_of-allow [] h = (λ _. refl, λ _. refl)
decision_of-allow (t ∷ ts) (objects, h) = (λ e. absurd (ground (arith, objects)), λ e. cc)

decision_of-deny : (ts : List Triggered) → (decision_of ts ≢ deny) ↔ (any is_deny ts ≡ false)
unfolding decision_of
decision_of-deny ts = ground arith

-- The policy lets the transfer pass, or asks for a review only.
abbrev pub Tolerates : Input → Policy → Type 0
Tolerates i p = Passes i p ⊎ (objection p ≡ review)

any_deny-false :
    (i : Input) (ps : List Policy)
    → (any is_deny (all_triggered i ps) ≡ false) ↔ All (Tolerates i) ps
unfolding all_triggered
any_deny-false i [] = (λ _. tt, λ _. refl)
any_deny-false i (p ∷ ps) =
    let (to, from) = any_deny-false i ps in
    let (passing, triggering) = trigger-none i p in
    elim (Option-cases (trigger i p)) [
      | inl nothing ↦
          rw (nothing, all_triggered) (λ e. (inl (passing nothing), to e), λ (v, h). from h)
      | inr (t, hit) ↦
          let decided : t.decision ≡ objection p = rw hit at (trigger-Objects i p) in
          rw (hit, all_triggered)
            (
              λ e. (inr (ground (arith, objection_cases p, decided, e)), to (ground (arith, e))),
              λ (tolerated, h). elim tolerated [
                | inl v ↦ cc (sym hit ∙ triggering v)
                | inr soft ↦ ground (arith, decided, soft, from h)
              ],
            )
    ]

module _ (rows : List Policy) (i : Input) where
  -- A transfer is allowed exactly if it passes every policy in force: it stays within the daily limit
  -- and the limit of one transaction where these parse, its destination is on each whitelist that has
  -- an address, and no policy requires a review.
  pub evaluate-allow :
      ((evaluate_stored_wallet_policies rows i).decision ≡ allow) ↔ All (Passes i) rows
  unfolding evaluate_stored_wallet_policies list_policies_for_scope
  evaluate-allow =
      let key = specificity i.chain_type i.network_id in
      let sorted = list_policies_for_scope rows i.chain_type i.network_id in
      iff_trans (decision_of-allow (all_triggered i sorted) (all_triggered-objecting i sorted)) (
        iff_trans (all_triggered-nil i sorted)
          (let (to, from) = sort_by-All (Passes i) key rows in (from, to)))

  -- A transfer is denied exactly if it fails a policy whose objection is not a review only.
  pub evaluate-not_deny :
      ((evaluate_stored_wallet_policies rows i).decision ≢ deny) ↔ All (Tolerates i) rows
  unfolding evaluate_stored_wallet_policies list_policies_for_scope
  evaluate-not_deny =
      let key = specificity i.chain_type i.network_id in
      let sorted = list_policies_for_scope rows i.chain_type i.network_id in
      iff_trans (decision_of-deny (all_triggered i sorted)) (
        iff_trans (any_deny-false i sorted)
          (let (to, from) = sort_by-All (Tolerates i) key rows in (from, to)))
