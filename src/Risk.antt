-- ===== src/Risk.antt =====
-- services/transfer-risk.service.ts: the score of a transfer by rules, and the word of an AI
-- endpoint on it. The numbers of the scores are a parameter; the rows that
-- services/transfer-log.service.ts counts and the endpoint's answer are arguments.
pub mod Rules
pub mod Endpoint
mod Tests
use aljama_wallet.Base.{
  ℕ, ◌*◌, ◌/◌, Bool, true, false, ◌&&◌, Option, none, some, List, [], ◌∷◌, ◌++◌, ltb, leb,
  if◌then◌else◌, ◌≡◌, Text, text, ℤ, pos, negsuc, leb_ℤ, pos_part, big_int, Number, int, frac,
  not_finite,
}

-- The finite numbers of the language, as far as scores use them.
pub record Numbers : Type 1 where
  pub N : Type 0
  pub nought : N
  pub add : N → N → N
  pub le : N → N → Bool
  pub le_refl : (a : N) → le a a ≡ true
  pub le_trans : (a b c : N) → le a b ≡ true → le b c ≡ true → le a c ≡ true
  pub add_mono : (a b c d : N) → le a b ≡ true → le c d ≡ true → le (add a c) (add b d) ≡ true
  pub add_nought : (a : N) → add a nought ≡ a

-- A decision; `other` is whatever else the endpoint may write in its JSON.
pub data Decision : Type 0 where
  allow review deny : Decision
  other : Text → Decision

-- `rank[d]`, which is undefined for an unknown word.
unfoldable pub rank : Decision → Option ℕ
rank allow = some 0
rank review = some 1
rank deny = some 2
rank (other t) = none

-- A comparison with undefined is false.
abbrev pub ranks_at_least : Option ℕ → Option ℕ → Bool
ranks_at_least (some m) (some n) = leb n m
ranks_at_least _ _ = false

unfoldable pub combine_decision : Decision → Decision → Decision
unfolding rank
combine_decision a b = if ranks_at_least (rank a) (rank b) then a else b

-- What `getRecentTransferStats` counts.
pub record Stats : Type 0 where
  pub recent_count : ℕ
  pub destination_count : ℕ
  pub chain_count : ℕ

-- `count >= most`, where the bound may be a fraction. (It is never what is not finite.)
abbrev pub is_reached : Number → ℕ → Bool
is_reached (int z) count = leb_ℤ z (pos count)
is_reached (frac (pos n)) count = ltb n count
is_reached (frac (negsuc n)) count = true
is_reached not_finite count = false

module _ (numbers : Numbers) where
  open numbers use {N, nought, add, le}

  -- The settings, read from the environment. `pct_positive` is `highAmountPct > 0`, and
  -- `basis_points` is the BigInt of its rounded ten-thousandths, which throws for an infinity.
  pub record Settings : Type 0 where
    pub velocity_max : Number
    pub review_score : N
    pub deny_score : N
    pub pct_positive : Bool
    pub basis_points : Option ℕ
    pub high_amount_score : N
    pub absolute_wei : ℤ
    pub absolute_score : N
    pub new_destination_score : N
    pub new_chain_score : N
    pub velocity_score : N
    pub ai_required : Bool
    pub strict : Bool

  pub data Advice : Type 0 where
    no_endpoint unreachable : Advice
    advice : Option N → Option Decision → List Text → Advice

  pub record Assessment : Type 0 where
    pub score : N
    pub decision : Decision
    pub reasons : List Text

  unfoldable pub decide : N → N → N → Decision
  decide score review_score deny_score =
      if le deny_score score then deny else if le review_score score then review else allow

  abbrev pub Scored : Type 0
  Scored = N × List Text

  -- `score += points; reasons.push(reason)` under a test.
  unfoldable pub score_if : Bool → N → Text → Scored → Scored
  score_if hit points reason (score, reasons) =
      if hit then (add score points, reasons ++ reason ∷ []) else (score, reasons)

  abbrev pub is_above_absolute : Settings → ℤ → Bool
  is_above_absolute c amount = ltb 0 (pos_part c.absolute_wei) && leb_ℤ c.absolute_wei amount

  -- `(limit * pct) / 10_000n` for a limit above zero; `none` where the percentage throws.
  unfoldable pub is_high : Settings → ℤ → ℤ → Option Bool
  is_high c (negsuc _) amount = some false
  is_high c (pos limit) amount =
      if ltb 0 limit && c.pct_positive
      then (elim c.basis_points [
        | none ↦ none
        | some pct ↦ some (leb_ℤ (pos (limit * pct / 10000)) amount)
      ])
      else some false

  -- The five rules, in their order.
  unfoldable pub scored : Settings → Stats → Bool → Bool → Scored
  scored c stats above high =
      score_if (leb stats.chain_count 0) c.new_chain_score (text "new_chain") (
        score_if (leb stats.destination_count 0) c.new_destination_score (text "new_destination") (
          score_if (is_reached c.velocity_max stats.recent_count) c.velocity_score
            (text "high_transfer_velocity")
            (score_if high c.high_amount_score (text "amount_high_relative_to_limit") (
              score_if above c.absolute_score (text "amount_above_absolute_threshold")
                (nought, [])))))

  abbrev pub raised : N → Option N → N
  raised score none = score
  raised score (some s) = if le score s then s else score

  -- `if (aiDetails.decision)`: the empty word counts as none.
  abbrev pub advised : Decision → Option Decision → Decision
  advised d none = d
  advised d (some allow) = combine_decision d allow
  advised d (some review) = combine_decision d review
  advised d (some deny) = combine_decision d deny
  advised d (some (other [])) = d
  advised d (some (other (c ∷ t))) = combine_decision d (other (c ∷ t))

  -- What the endpoint adds; only if it is required in strict mode does its silence count.
  unfoldable pub heed : Settings → Advice → Decision → Scored → Assessment
  unfolding combine_decision
  heed c no_endpoint d (score, reasons) = record { score = score; decision = d; reasons = reasons }
  heed c unreachable d (score, reasons) =
      if c.ai_required && c.strict
      then record {
        score = score;
        decision = combine_decision d review;
        reasons = reasons ++ text "ai_unavailable" ∷ [];
      }
      else record { score = score; decision = d; reasons = reasons }
  heed c (advice s e more) d (score, reasons) = record {
    score = raised score s;
    decision = advised d e;
    reasons = reasons ++ more;
  }

  abbrev pub assessed : Settings → Advice → Scored → Assessment
  assessed c ai (score, reasons) =
      heed c ai (decide score c.review_score c.deny_score) (score, reasons)

  -- `assessTransferRisk`; `none` where `BigInt` throws.
  unfoldable pub assess_transfer_risk : Settings → Text → ℤ → Stats → Advice → Option Assessment
  unfolding is_high scored heed decide
  assess_transfer_risk c amount_wei daily_limit stats ai = elim (big_int amount_wei) [
    | none ↦ none
    | some amount ↦ elim (is_high c daily_limit amount) [
      | none ↦ none
      | some high ↦ some (assessed c ai (scored c stats (is_above_absolute c amount) high))
    ]
  ]
