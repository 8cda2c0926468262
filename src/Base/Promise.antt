-- ===== src/Base/Promise.antt =====
-- A promise that has settled: it has a value, or it was rejected with the message of an error.
use mathlib.Core.Path.{◌≡◌, refl}
use mathlib.Core.Logic.{◌⊎◌, inl, inr}
use aljama_wallet.Base.Strings.{Text}

pub data Outcome {ℓ} (A : Type ℓ) : Type ℓ where
  done : A → Outcome A
  thrown : Text → Outcome A

module _ {ℓ κ} {A : Type ℓ} {B : Type κ} where
  -- `await`: the code goes on with the value.
  abbrev pub and_then : Outcome A → (A → Outcome B) → Outcome B
  and_then (done a) f = f a
  and_then (thrown e) f = thrown e

pub Outcome-cases {ℓ} :
    {A : Type ℓ} (o : Outcome A) → ((a : A) × (o ≡ done a)) ⊎ ((e : Text) × (o ≡ thrown e))
Outcome-cases (done a) = inl (a, refl)
Outcome-cases (thrown e) = inr (e, refl)
