-- ===== src/Policy/DailyLimit.antt =====
-- `getWalletDailyLimitWei` against `evaluateStoredWalletPolicies`, and which policy it reads.
use aljama_wallet.Base.{
  sort_by-All, sort_by-Sorted, find-Sorted, sort_by, ◌≤◌, ◌≡◌, ◌⊎◌, inl, inr, refl, subst, Bool,
  true, Option, some, List, [], ◌∷◌, Text, text_eq, ==_iff, Option-cases, Bool-cases, All, find,
  done, ℤ, ◌+ℤ◌, ◌≤ℤ◌,
}
use aljama_wallet.Policy.{
  allow, Policy, Input, is_daily_limit, get_wallet_daily_limit_wei, evaluate_stored_wallet_policies,
  read_default_daily_limit_wei, or_default, list_policies_for_scope, specificity,
  parse_limit_amount,
}
use aljama_wallet.Policy.Demands.{Passes}
use aljama_wallet.Policy.Verdict.{evaluate-allow}

find-All {ℓ} :
    (P : Policy → Type ℓ) (hit : Policy → Bool) (ps : List Policy) (p : Policy)
    → All P ps
    → find hit ps ≡ some p
    → P p × (hit p ≡ true)
find-All P hit [] p h e = cc
find-All P hit (q ∷ ps) p (here, later) e = elim (Bool-cases (hit q)) [
  | inl found ↦ let same : q ≡ p = cc (rw found at e) in (subst P same here, rw (← same) found)
  | inr miss ↦ find-All P hit ps p later (rw miss at e)
]

module _ (rows : List Policy) (i : Input) (strict : Bool) (raw : Option Text) where
  -- If the stored policies allow a transfer, then what the wallet has spent in the window and the
  -- amount are together within the daily limit that the service reports, or no policy gave that limit
  -- and it is the default, or the error where the default cannot be read.
  pub allow-daily_limit :
      (evaluate_stored_wallet_policies rows i).decision ≡ allow
      → ((l : ℤ) × (get_wallet_daily_limit_wei rows i.chain_type i.network_id strict raw ≡ done l)
          × ((i.spent +ℤ i.amount) ≤ℤ l))
        ⊎ (get_wallet_daily_limit_wei rows i.chain_type i.network_id strict raw
            ≡ read_default_daily_limit_wei strict raw)
  unfolding get_wallet_daily_limit_wei list_policies_for_scope
  allow-daily_limit allowed =
      let key = specificity i.chain_type i.network_id in
      let sorted = sort_by key rows in
      let passing = (sort_by-All (Passes i) key rows).0 ((evaluate-allow rows i).0 allowed) in
      elim (Option-cases (find is_daily_limit sorted)) [
        | inl missing ↦ rw missing (inr refl)
        | inr (p, found) ↦
            let (v, daily) = find-All (Passes i) is_daily_limit sorted p passing found in
            elim (Option-cases (parse_limit_amount p.limit_amount)) [
              | inl unparsed ↦ rw (found, unparsed) (inr refl)
              | inr (l, parsed) ↦
                  rw (found, parsed)
                    (inl (l, refl, v.within_daily_limit ((==_iff _ _).0 daily) l parsed))
            ]
      ]

-- The limit is read from a policy that applies to the chain and network as specifically as any of the
-- wallet's daily limits does; if that policy's amount does not parse, the default counts, which may be
-- an error, and no other policy.
pub daily_limit_most_specific :
    (rows : List Policy) (chain_type : Text) (network_id : Option Text) (strict : Bool)
    (raw : Option Text) (p : Policy)
    → find is_daily_limit (list_policies_for_scope rows chain_type network_id) ≡ some p
    → All
        (λ q.
          is_daily_limit q ≡ true
          → specificity chain_type network_id q ≤ specificity chain_type network_id p)
        rows
      × (get_wallet_daily_limit_wei rows chain_type network_id strict raw
          ≡ or_default (parse_limit_amount p.limit_amount) strict raw)
unfolding get_wallet_daily_limit_wei list_policies_for_scope
daily_limit_most_specific rows chain_type network_id strict raw p found =
    let key = specificity chain_type network_id in
    (
      (sort_by-All (λ q. is_daily_limit q ≡ true → key q ≤ key p) key rows).1
          (find-Sorted key is_daily_limit (sort_by key rows) p (sort_by-Sorted key rows) found),
      rw found refl,
    )
