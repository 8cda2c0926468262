-- ===== src/Risk/Rules.antt =====
-- The five rules of `assessTransferRisk`: a larger amount never lowers the score.
use aljama_wallet.Base.{
  ℕ, ◌≤◌, ◌≡◌, refl, ap, Bool, true, false, some, arith, Text, ℤ, pos, negsuc, ◌≤ℤ◌,
}
use aljama_wallet.Risk.{
  Numbers, Decision, allow, review, deny, other, Settings, Stats, decide, scored, score_if, Scored,
  is_above_absolute, is_high,
}

-- From the mildest decision to the most severe.
abbrev pub severity : Decision → ℕ
severity allow = 0
severity review = 1
severity deny = 2
severity (other t) = 3

-- If the first test holds then so does the second.
abbrev pub Implies : Bool → Bool → Type 0
Implies a b = a ≡ true → b ≡ true

module _ (n : Numbers) where
  -- What `score_if` adds, points that are not negative, keeps the order of two scores.
  score_if_mono :
      (a b : Bool) (points : n.N) (reason : Text) (s t : Scored n)
      → Implies a b
      → n.le n.nought points ≡ true
      → n.le s.0 t.0 ≡ true
      → n.le (score_if n a points reason s).0 (score_if n b points reason t).0 ≡ true
  unfolding score_if
  score_if_mono true true points reason s t h sign le =
      n.add_mono s.0 t.0 points points le (n.le_refl points)
  score_if_mono true false points reason s t h sign le = cc (h refl)
  score_if_mono false false points reason s t h sign le = le
  score_if_mono false true points reason s t h sign le =
      rw (← n.add_nought s.0) (n.add_mono s.0 t.0 n.nought points le sign)

  pub record NotNegative (c : Settings n) : Type 0 where
    pub velocity : n.le n.nought c.velocity_score ≡ true
    pub destination : n.le n.nought c.new_destination_score ≡ true
    pub chain : n.le n.nought c.new_chain_score ≡ true
    pub high : n.le n.nought c.high_amount_score ≡ true
    pub absolute : n.le n.nought c.absolute_score ≡ true

  module _ (c : Settings n) (weights : NotNegative c) where
    scored_mono :
        (stats : Stats) (above above' high high' : Bool)
        → Implies above above'
        → Implies high high'
        → n.le (scored n c stats above high).0 (scored n c stats above' high').0 ≡ true
    unfolding scored
    scored_mono stats above above' high high' p q =
        score_if_mono _ _ _ _ _ _ (λ e. e) weights.chain
          (score_if_mono _ _ _ _ _ _ (λ e. e) weights.destination
            (score_if_mono _ _ _ _ _ _ (λ e. e) weights.velocity
              (score_if_mono _ _ _ _ _ _ q weights.high
                (score_if_mono _ _ _ _ _ _ p weights.absolute (n.le_refl n.nought)))))

    above_mono : (a b : ℤ) → a ≤ℤ b → Implies (is_above_absolute n c a) (is_above_absolute n c b)
    above_mono a b h = ground arith

    high_mono :
        (limit a b : ℤ) (x y : Bool)
        → a ≤ℤ b
        → is_high n c limit a ≡ some x
        → is_high n c limit b ≡ some y
        → Implies x y
    unfolding is_high
    high_mono (negsuc l) a b x y h p q = λ e. cc
    high_mono (pos l) a b x y h p q = λ e. ground (arith, ap (λ o. o) e)

    decide_mono :
        (x y : n.N)
        → n.le x y ≡ true
        → severity (decide n x c.review_score c.deny_score)
          ≤ severity (decide n y c.review_score c.deny_score)
    unfolding decide
    decide_mono x y h = ground (arith, n.le_trans c.deny_score x y, n.le_trans c.review_score x y)

    -- Where no rule's points are negative, a larger amount, all else equal, has a score by the rules
    -- that is at least as large, and a decision by the rules that is at least as severe.
    pub rules_mono :
        (limit a b : ℤ) (stats : Stats) (x y : Bool)
        → a ≤ℤ b
        → is_high n c limit a ≡ some x
        → is_high n c limit b ≡ some y
        → let small = (scored n c stats (is_above_absolute n c a) x).0 in
          let large = (scored n c stats (is_above_absolute n c b) y).0 in
          (n.le small large ≡ true)
          × (severity (decide n small c.review_score c.deny_score)
              ≤ severity (decide n large c.review_score c.deny_score))
    rules_mono limit a b stats x y h p q =
        let ordered =
          scored_mono stats (is_above_absolute n c a) (is_above_absolute n c b) x y
            (above_mono a b h) (high_mono limit a b x y h p q) in
        (ordered, decide_mono _ _ ordered)
