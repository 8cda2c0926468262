-- ===== src/Base/Switch.antt =====
-- A `switch` over texts: the value of the first group of labels that holds the text, or the default.
use mathlib.Core.Path.{◌≡◌}
use mathlib.Core.Logic.{inl, inr}
use mathlib.Core.Bool.{Bool, true, false, ◌||◌}
use mathlib.Core.List.{List, [], ◌∷◌}
use native.Mathlib.Omega.{arith}
use aljama_wallet.Base.Tests.{if◌then◌else◌, ◌==◌, ==_iff, Bool-cases, HasEquality}
use aljama_wallet.Base.Lists.{All}
use aljama_wallet.Base.Strings.{Text, text_eq}

-- `xs.includes(x)`
abbrev pub includes {ℓ} : {A : Type ℓ} ⦃e : HasEquality A⦄ → List A → A → Bool
includes [] a = false
includes (x ∷ xs) a = x == a || includes xs a

includes_cases {κ} :
    (P : Type κ) (t : Text) (labels : List Text)
    → All (λ l. t ≡ l → P) labels
    → includes labels t ≡ true
    → P
includes_cases P t [] h e = cc
includes_cases P t (l ∷ labels) (here, later) e = elim (Bool-cases (l == t)) [
  | inl same ↦ here (let q = (==_iff l t).0 same in cc)
  | inr other ↦ includes_cases P t labels later (ground arith)
]

module _ {ℓ} {A : Type ℓ} where
  abbrev pub switch : Text → List (List Text × A) → A → A
  switch t [] d = d
  switch t ((labels, v) ∷ cases) d = if includes labels t then v else switch t cases d

  -- What holds of the text and the value at each label, and of the default, holds of the switch.
  pub switch_cases {κ} :
      (P : A → Type κ) (t : Text) (cases : List (List Text × A)) (d : A)
      → All (λ c. All (λ l. t ≡ l → P c.1) c.0) cases
      → P d
      → P (switch t cases d)
  switch_cases P t [] d h k = k
  switch_cases P t ((labels, v) ∷ cases) d (here, later) k = elim (Bool-cases (includes labels t)) [
    | inl hit ↦ rw hit (includes_cases (P v) t labels here hit)
    | inr miss ↦ rw miss (switch_cases P t cases d later k)
  ]
