-- ===== src/Risk/Endpoint.antt =====
-- What the AI endpoint can and cannot change of a decision: the end of `assessTransferRisk`.
use aljama_wallet.Base.{
  ◌≡◌, ◌≢◌, ◌⊎◌, [], ◌∷◌, ◌↔◌, inl, inr, refl, Bool, true, false, ◌&&◌, none, some, List, arith,
  Text, Bool-cases,
}
use aljama_wallet.Risk.{
  Numbers, Decision, allow, review, deny, other, rank, combine_decision, Settings, Advice,
  no_endpoint, unreachable, advice, decide, heed, advised, assessed, Scored,
}

-- The endpoint does not object.
abbrev pub Silent : {n : Numbers} → Settings n → Advice n → Type 0
Silent c no_endpoint = Unit {0}
Silent c unreachable = (c.ai_required && c.strict) ≡ false
Silent c (advice s none more) = Unit {0}
Silent c (advice s (some d) more) = (d ≡ allow) ⊎ (d ≡ other [])

-- One of the three decisions of the program's own.
abbrev pub is_known : Decision → Bool
is_known (other t) = false
is_known _ = true

combine-allow :
    (a b : Decision)
    → is_known a ≡ true
    → (combine_decision a b ≡ allow) ↔ ((a ≡ allow) × (b ≡ allow))
unfolding combine_decision rank
combine-allow a b h = ground arith

objection :
    (e d : Decision)
    → is_known d ≡ true
    → e ≢ allow
    → e ≢ other []
    → (combine_decision d e ≡ allow) ↔ ((d ≡ allow) × ((e ≡ allow) ⊎ (e ≡ other [])))
objection e d h not_allow not_empty =
    let (to, from) = combine-allow d e h in
    (
      λ a. let (x, y) = to a in (x, inl y),
      λ (x, y). elim y [ inl a ↦ from (x, a) | inr b ↦ absurd (not_empty b) ],
    )

module _ (n : Numbers) (c : Settings n) where
  decide-allow :
      (x : n.N)
      → (decide n x c.review_score c.deny_score ≡ allow)
        ↔ ((n.le c.deny_score x ≡ false) × (n.le c.review_score x ≡ false))
  unfolding decide
  decide-allow x = ground arith

  decide-is_known : (x : n.N) → is_known (decide n x c.review_score c.deny_score) ≡ true
  unfolding decide
  decide-is_known x = ground arith

  advised-allow :
      (e d : Decision)
      → is_known d ≡ true
      → (advised n d (some e) ≡ allow) ↔ ((d ≡ allow) × ((e ≡ allow) ⊎ (e ≡ other [])))
  advised-allow allow d h =
      let (to, from) = combine-allow d allow h in
      (λ a. ((to a).0, inl refl), λ (a, _). from (a, refl))
  advised-allow review d h = objection review d h (λ e. cc) (λ e. cc)
  advised-allow deny d h = objection deny d h (λ e. cc) (λ e. cc)
  advised-allow (other []) d h = (λ a. (a, inr refl), λ p. p.0)
  advised-allow (other (c ∷ t)) d h = objection (other (c ∷ t)) d h (λ e. cc) (λ e. cc)

  heed-allow :
      (ai : Advice n) (d : Decision) (s : Scored n)
      → is_known d ≡ true
      → ((heed n c ai d s).decision ≡ allow) ↔ ((d ≡ allow) × Silent c ai)
  unfolding heed
  heed-allow no_endpoint d s h = (λ e. (e, tt), λ p. p.0)
  heed-allow unreachable d s h = elim (Bool-cases (c.ai_required && c.strict)) [
    | inl needed ↦
        rw needed (λ e. let (_, agreed) = (combine-allow d review h).0 e in cc, λ p. cc (p.1))
    | inr spare ↦ rw spare (λ e. (e, refl), λ p. p.0)
  ]
  heed-allow (advice x none more) d s h = (λ e. (e, tt), λ p. p.0)
  heed-allow (advice x (some e) more) d s h = advised-allow e d h

  -- A transfer is allowed exactly if the score of the rules is below both thresholds and the endpoint
  -- does not object: it allows, gives no decision or the empty word, is not asked, or fails where it is not required.
  pub assessed-allow :
      (ai : Advice n) (s : Scored n)
      → ((assessed n c ai s).decision ≡ allow)
        ↔ ((n.le c.deny_score s.0 ≡ false) × (n.le c.review_score s.0 ≡ false) × Silent c ai)
  assessed-allow ai s =
      let (to, from) =
        heed-allow ai (decide n s.0 c.review_score c.deny_score) s (decide-is_known s.0) in
      let (below, above) = decide-allow s.0 in
      (
        λ e. let (d, silent) = to e in let (p, q) = below d in (p, q, silent),
        λ (p, q, silent). from (above (p, q), silent),
      )

  combine-deny : (b : Decision) → is_known b ≡ true → combine_decision deny b ≡ deny
  unfolding combine_decision rank
  combine-deny b h = ground arith

  -- The endpoint's decision, if it gives one, is one of the program's three.
  abbrev pub Understood : Advice n → Type 0
  Understood (advice x (some d) more) = is_known d ≡ true
  Understood _ = Unit {0}

  -- What the rules deny stays denied, whatever the endpoint answers in the three decisions of the
  -- program, and whether it answers or not.
  pub denied_stays :
      (ai : Advice n) (s : Scored n)
      → n.le c.deny_score s.0 ≡ true
      → Understood ai
      → (assessed n c ai s).decision ≡ deny
  unfolding heed decide combine_decision rank
  denied_stays no_endpoint s h u = simp h
  denied_stays unreachable s h u = elim (Bool-cases (c.ai_required && c.strict)) [
    | inl needed ↦ rw needed (simp h)
    | inr spare ↦ rw spare (simp h)
  ]
  denied_stays (advice x none more) s h u = simp h
  denied_stays (advice x (some allow) more) s h u = simp h (combine-deny allow refl)
  denied_stays (advice x (some review) more) s h u = simp h (combine-deny review refl)
  denied_stays (advice x (some deny) more) s h u = simp h (combine-deny deny refl)
  denied_stays (advice x (some (other t)) more) s h u = cc

  -- An answer's score raises the score that is reported and never the decision: with no decision in the
  -- answer, a score above the threshold of denial leaves a transfer allowed that the rules allow.
  advised_score_ignored :
      (x : n.N) (more : List Text) (s : Scored n)
      → n.le c.deny_score s.0 ≡ false
      → n.le c.review_score s.0 ≡ false
      → n.le s.0 x ≡ true
      → n.le c.deny_score x ≡ true
      → ((assessed n c (advice (some x) none more) s).decision ≡ allow)
        × (n.le c.deny_score (assessed n c (advice (some x) none more) s).score ≡ true)
  unfolding heed decide
  advised_score_ignored x more s d r above high = (simp (d, r), rw above high)
