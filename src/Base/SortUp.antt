-- ===== src/Base/SortUp.antt =====
-- `Array.sort` by a numeric key, the lowest first, and its first item. It is stable: equal keys keep
-- their order, so that the first is the earliest of those with the lowest key.
use Prim.Native.Nat.{ℕ, ◌≤◌}
use mathlib.Core.Path.{◌≡◌, refl, ap}
use mathlib.Core.Logic.{◌≢◌, inl, inr}
use mathlib.Core.Option.{Option, none, some}
use mathlib.Core.List.{List, [], ◌∷◌}
use native.Mathlib.Omega.{arith}
use aljama_wallet.Base.Tests.{leb, if◌then◌else◌, Bool-cases, Option-cases}
use aljama_wallet.Base.Lists.{All, All-map}

module _ {ℓ} {A : Type ℓ} where
  abbrev pub insert_up : (A → ℕ) → A → List A → List A
  insert_up key p [] = p ∷ []
  insert_up key p (q ∷ qs) = if leb (key p) (key q) then p ∷ q ∷ qs else q ∷ insert_up key p qs

  abbrev pub sort_up : (A → ℕ) → List A → List A
  sort_up key [] = []
  sort_up key (p ∷ ps) = insert_up key p (sort_up key ps)

  -- `xs[0]`
  abbrev pub head : List A → Option A
  head [] = none
  head (x ∷ xs) = some x

module _ {ℓ κ} {A : Type ℓ} (P : A → Type κ) (key : A → ℕ) where
  head-insert_up-All :
      (p a : A) (qs : List A)
      → P p
      → ((b : A) → head qs ≡ some b → P b)
      → head (insert_up key p qs) ≡ some a
      → P a
  head-insert_up-All p a [] hp h e = let same : p ≡ a = cc in rw (← same) hp
  head-insert_up-All p a (q ∷ qs) hp h e = elim (Bool-cases (leb (key p) (key q))) [
    | inl first ↦ let same : p ≡ a = ground arith in rw (← same) hp
    | inr later ↦ let same : q ≡ a = ground arith in rw (← same) (h q refl)
  ]

  -- What holds of all holds of the first.
  pub head-sort_up-All : (ps : List A) (a : A) → All P ps → head (sort_up key ps) ≡ some a → P a
  head-sort_up-All [] a h e = cc
  head-sort_up-All (p ∷ ps) a (hp, h) e =
      head-insert_up-All p a (sort_up key ps) hp (λ b e'. head-sort_up-All ps b h e') e

module _ {ℓ} {A : Type ℓ} (key : A → ℕ) where
  head-insert_up-le :
      (p a : A) (qs : List A)
      → head (insert_up key p qs) ≡ some a
      → key a ≤ key p × ((b : A) → head qs ≡ some b → key a ≤ key b)
  head-insert_up-le p a [] e = let same : p ≡ a = cc in (omega (arith, ap key same), λ b e'. cc)
  head-insert_up-le p a (q ∷ qs) e = elim (Bool-cases (leb (key p) (key q))) [
    | inl first ↦
        let same : p ≡ a = ground arith in
        (
          omega (arith, ap key same),
          λ b e'. let other : q ≡ b = cc in ground (arith, ap key same, ap key other),
        )
    | inr later ↦
        let same : q ≡ a = ground arith in
        (
          ground (arith, ap key same),
          λ b e'. let other : q ≡ b = cc in omega (arith, ap key same, ap key other),
        )
  ]

  head-insert_up_some : (p : A) (qs : List A) → head (insert_up key p qs) ≢ none
  head-insert_up_some p [] e = cc
  head-insert_up_some p (q ∷ qs) e = ground arith

  pub head-sort_up-none : (ps : List A) → head (sort_up key ps) ≡ none → ps ≡ []
  head-sort_up-none [] e = refl
  head-sort_up-none (p ∷ ps) e = absurd (head-insert_up_some p (sort_up key ps) e)

  -- Nothing is lower than the first.
  pub head-sort_up-le :
      (ps : List A) (a : A) → head (sort_up key ps) ≡ some a → All (λ q. key a ≤ key q) ps
  head-sort_up-le [] a e = tt
  head-sort_up-le (p ∷ ps) a e =
      let (first, rest) = head-insert_up-le p a (sort_up key ps) e in
      elim (Option-cases (head (sort_up key ps))) [
        | inl none_left ↦ (first, rw (head-sort_up-none ps none_left) tt)
        | inr (b, e') ↦
            (first, All-map (λ q le. omega (arith, rest b e')) ps (head-sort_up-le ps b e'))
      ]
