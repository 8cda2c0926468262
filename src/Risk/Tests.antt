-- ===== src/Risk/Tests.antt =====
-- Examples for the assessment of transfers, with whole numbers as scores.
use aljama_wallet.Base.{
  ◌≤◌, ◌≡◌, ◌↔◌, refl, true, false, none, some, [], ◌∷◌, arith, text, ℤ, pos, ◌+ℤ◌, leb_ℤ,
  leb_ℤ_refl, leb_ℤ_trans, +ℤ_mono, +ℤ_nought, int, big_int, trim,
}
use aljama_wallet.Risk.{
  Numbers, allow, deny, other, Settings, Stats, no_endpoint, advice, assessed, decide, scored,
  score_if, is_above_absolute, is_high, assess_transfer_risk,
}
use aljama_wallet.Risk.Endpoint.{Silent, assessed-allow, denied_stays}
use aljama_wallet.Risk.Rules.{NotNegative, severity, rules_mono}

abbrev whole : Numbers
whole = record {
  N = ℤ;
  nought = pos 0;
  add = ◌+ℤ◌;
  le = leb_ℤ;
  le_refl = leb_ℤ_refl;
  le_trans = leb_ℤ_trans;
  add_mono = +ℤ_mono;
  add_nought = +ℤ_nought;
}

-- The defaults of the source, with a threshold of 1000 wei.
abbrev defaults : Settings whole
defaults = record {
  velocity_max = int (pos 5);
  review_score = pos 50;
  deny_score = pos 80;
  pct_positive = true;
  basis_points = some 5000;
  high_amount_score = pos 30;
  absolute_wei = pos 1000;
  absolute_score = pos 40;
  new_destination_score = pos 10;
  new_chain_score = pos 10;
  velocity_score = pos 25;
  ai_required = true;
  strict = true;
}

abbrev first_transfer : Stats
first_transfer = record { recent_count = 0; destination_count = 0; chain_count = 0 }

assessed-allow_example :
    ((assessed whole defaults (advice none (some (other (text "block"))) []) (pos 20, [])).decision
      ≡ allow)
    ↔ ((leb_ℤ (pos 80) (pos 20) ≡ false)
        × (leb_ℤ (pos 50) (pos 20) ≡ false)
        × Silent {n = whole} defaults (advice none (some (other (text "block"))) []))
assessed-allow_example =
    assessed-allow whole defaults (advice none (some (other (text "block"))) []) (pos 20, [])

denied_stays_example :
    (assessed whole defaults (advice (some (pos 0)) (some allow) []) (pos 90, [])).decision ≡ deny
denied_stays_example =
    denied_stays whole defaults (advice (some (pos 0)) (some allow) []) (pos 90, []) refl refl

weights : NotNegative whole defaults
weights = record { velocity = refl; destination = refl; chain = refl; high = refl; absolute = refl }

low : is_high whole defaults (pos 3000) (pos 900) ≡ some false
unfolding is_high
low = refl

high : is_high whole defaults (pos 3000) (pos 2000) ≡ some true
unfolding is_high
high = refl

rules_mono_example :
    let small =
      (scored whole defaults first_transfer (is_above_absolute whole defaults (pos 900)) false).0 in
    let large =
      (scored whole defaults first_transfer (is_above_absolute whole defaults (pos 2000)) true).0 in
    (leb_ℤ small large ≡ true)
    × (severity (decide whole small (pos 50) (pos 80))
        ≤ severity (decide whole large (pos 50) (pos 80)))
rules_mono_example =
    rules_mono whole defaults weights (pos 3000) (pos 900) (pos 2000) first_transfer false true
      (omega arith) low high

-- A new destination on a new chain, and an amount above both thresholds, make 90 points.
first_large_transfer :
    assess_transfer_risk whole defaults (text "2000") (pos 3000) first_transfer no_endpoint
    ≡ some (record {
      score = pos 90;
      decision = deny;
      reasons =
          text "amount_above_absolute_threshold"
          ∷ text "amount_high_relative_to_limit"
          ∷ text "new_destination"
          ∷ text "new_chain"
          ∷ [];
    })
unfolding assess_transfer_risk big_int trim score_if ◌+ℤ◌
first_large_transfer = refl
