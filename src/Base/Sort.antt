-- ===== src/Base/Sort.antt =====
-- `Array.sort` by a numeric key, the highest first. It is stable: equal keys keep their order.
use Prim.Native.Nat.{ℕ, suc, ◌≤◌}
use mathlib.Core.Path.{◌≡◌, ap}
use mathlib.Core.Logic.{◌↔◌, inl, inr}
use mathlib.Core.Bool.{Bool, true}
use mathlib.Core.Option.{some}
use mathlib.Core.List.{List, [], ◌∷◌}
use native.Mathlib.Omega.{arith}
use aljama_wallet.Base.Tests.{leb, if◌then◌else◌, Bool-cases}
use aljama_wallet.Base.Lists.{All, All-map, find, length}

module _ {ℓ} {A : Type ℓ} where
  abbrev pub insert_by : (A → ℕ) → A → List A → List A
  insert_by key p [] = p ∷ []
  insert_by key p (q ∷ qs) = if leb (key q) (key p) then p ∷ q ∷ qs else q ∷ insert_by key p qs

  abbrev pub sort_by : (A → ℕ) → List A → List A
  sort_by key [] = []
  sort_by key (p ∷ ps) = insert_by key p (sort_by key ps)

module _ {ℓ κ} {A : Type ℓ} (P : A → Type κ) (key : A → ℕ) where
  insert_by-All : (p : A) (qs : List A) → (P p × All P qs) ↔ All P (insert_by key p qs)
  insert_by-All p [] = (λ h. h, λ h. h)
  insert_by-All p (q ∷ qs) =
      let (to, from) = insert_by-All p qs in
      elim (Bool-cases (leb (key q) (key p))) [
        | inl first ↦ rw first (λ h. h, λ h. h)
        | inr later ↦
            rw later (
              λ (hp, (hq, h)). (hq, to (hp, h)),
              λ (hq, h). let (hp, h') = from h in (hp, (hq, h')),
            )
      ]

  pub sort_by-All : (ps : List A) → All P ps ↔ All P (sort_by key ps)
  sort_by-All [] = (λ h. h, λ h. h)
  sort_by-All (p ∷ ps) =
      let (to, from) = sort_by-All ps in
      let (to', from') = insert_by-All p (sort_by key ps) in
      (λ (h, k). to' (h, to k), λ h. let (hp, k) = from' h in (hp, from k))

module _ {ℓ} {A : Type ℓ} (key : A → ℕ) where
  -- No later policy has a higher key.
  abbrev pub Sorted : List A → Type 0
  Sorted [] = Unit {0}
  Sorted (p ∷ ps) = All (λ q. key q ≤ key p) ps × Sorted ps

  insert_by-Sorted : (p : A) (qs : List A) → Sorted qs → Sorted (insert_by key p qs)
  insert_by-Sorted p [] h = (tt, tt)
  insert_by-Sorted p (q ∷ qs) (most, rest) = elim (Bool-cases (leb (key q) (key p))) [
    | inl first ↦
        let below : key q ≤ key p = ground arith in
        rw first ((below, All-map (λ r le. omega arith) qs most), (most, rest))
    | inr later ↦
        let above : key p ≤ key q = ground arith in
        rw later (
          (insert_by-All (λ r. key r ≤ key q) key p qs).0 (above, most),
          insert_by-Sorted p qs rest,
        )
  ]

  pub sort_by-Sorted : (ps : List A) → Sorted (sort_by key ps)
  sort_by-Sorted [] = tt
  sort_by-Sorted (p ∷ ps) = insert_by-Sorted p (sort_by key ps) (sort_by-Sorted ps)

  -- What is found first has the highest key of all that could be found.
  pub find-Sorted :
      (hit : A → Bool) (ps : List A) (p : A)
      → Sorted ps
      → find hit ps ≡ some p
      → All (λ q. hit q ≡ true → key q ≤ key p) ps
  find-Sorted hit [] p h e = tt
  find-Sorted hit (q ∷ ps) p (most, rest) e = elim (Bool-cases (hit q)) [
    | inl here ↦
        let same : q ≡ p = cc (rw here at e) in
        (λ _. omega (arith, ap key same), All-map (λ r le _. omega (arith, ap key same)) ps most)
    | inr there ↦ (λ h. cc, find-Sorted hit ps p rest (rw there at e))
  ]

  insert_by-length : (p : A) (qs : List A) → length (insert_by key p qs) ≡ suc (length qs)
  insert_by-length p [] = omega arith
  insert_by-length p (q ∷ qs) = ground (arith, insert_by-length p qs)

  pub sort_by-length : (ps : List A) → length (sort_by key ps) ≡ length ps
  sort_by-length [] = omega arith
  sort_by-length (p ∷ ps) = omega (arith, insert_by-length p (sort_by key ps), sort_by-length ps)
