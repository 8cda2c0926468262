-- ===== src/Base/Tests.antt =====
-- Boolean tests on the native numbers, equality by instances, and the conditional.
use Prim.Native.Nat.{ℕ, compare, Ordering}
use mathlib.Core.Path.{◌≡◌, refl}
use mathlib.Core.Logic.{◌≢◌, ◌↔◌, ◌⊎◌, inl, inr}
use mathlib.Core.Bool.{Bool, true, false}
use mathlib.Core.Option.{Option, none, some}
use native.Mathlib.Omega.{arith}

abbrev pub ltb : ℕ → ℕ → Bool
ltb a b = elim (compare a b) [ Ordering.lt ↦ true | _ ↦ false ]

abbrev pub leb : ℕ → ℕ → Bool
leb a b = elim (compare a b) [ Ordering.gt ↦ false | _ ↦ true ]

abbrev nat_equal : ℕ → ℕ → Bool
nat_equal a b = elim (compare a b) [ Ordering.eq ↦ true | _ ↦ false ]

pub nat_equal_iff : (a b : ℕ) → (nat_equal a b ≡ true) ↔ (a ≡ b)
nat_equal_iff a b = ground arith

infix 1 if◌then◌else◌
abbrev pub if◌then◌else◌ {ℓ} : {A : Type ℓ} → Bool → A → A → A
if true then x else y = x
if false then x else y = y

-- `===` of the source, on each type that it is used at.
pub record HasEquality {ℓ} (T : Type ℓ) : Type ℓ where
  pub equal_to : T → T → Bool
  pub equal_to_iff : (x y : T) → (equal_to x y ≡ true) ↔ (x ≡ y)

instance abbrev pub nat_eq : HasEquality ℕ
nat_eq = record { equal_to = nat_equal; equal_to_iff = nat_equal_iff }

module _ {ℓ} {T : Type ℓ} ⦃same : HasEquality T⦄ where
  infix 50 ◌==◌
  abbrev pub ◌==◌ : T → T → Bool
  ◌==◌ = same.equal_to

  pub ==_iff : (x y : T) → ((x == y) ≡ true) ↔ (x ≡ y)
  ==_iff x y = same.equal_to_iff x y

  pub ==_refl : (x : T) → (x == x) ≡ true
  ==_refl x = (==_iff x x).1 refl

  pub ==_apart : (x y : T) → (x == y) ≡ false → x ≢ y
  ==_apart x y h e = let hit = (==_iff x y).1 e in cc

-- To split on a computed value and keep the equation.
pub Bool-cases : (b : Bool) → (b ≡ true) ⊎ (b ≡ false)
Bool-cases true = inl refl
Bool-cases false = inr refl

pub Option-cases {ℓ} : {A : Type ℓ} (o : Option A) → (o ≡ none) ⊎ ((a : A) × (o ≡ some a))
Option-cases none = inl refl
Option-cases (some a) = inr (a, refl)

-- `a ?? b`
abbrev pub or_else {ℓ} : {A : Type ℓ} → Option A → A → A
or_else none d = d
or_else (some a) d = a

abbrev pub is_some {ℓ} : {A : Type ℓ} → Option A → Bool
is_some none = false
is_some (some a) = true

-- The value, if there is one, has the property.
abbrev pub Whenever {ℓ κ} : {A : Type ℓ} → (A → Type κ) → Option A → Type κ
Whenever P none = Unit
Whenever P (some a) = P a
