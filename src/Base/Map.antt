-- ===== src/Base/Map.antt =====
-- JavaScript's `Map`: entries in the order of their first insertion. `set` on a present key keeps
-- its place, and `size` counts the entries.
pub mod Values
pub mod Keyed
use native.Mathlib.Omega.{arith}
use Prim.Native.Nat.{◌+◌, ◌≤◌}
use mathlib.Core.Path.{◌≡◌, refl}
use mathlib.Core.Option.{Option, none, some}
use mathlib.Core.List.{List, [], ◌∷◌}
use aljama_wallet.Base.Tests.{HasEquality, ◌==◌, ==_iff, ==_refl, if◌then◌else◌}
use aljama_wallet.Base.Lists.{length}

abbrev pub Map {ℓ κ} : Type ℓ → Type κ → Type (ℓ ⊔ κ)
Map K V = List (K × V)

module _ {ℓ κ} {K : Type ℓ} {V : Type κ} ⦃e : HasEquality K⦄ where
  unfoldable pub get : Map K V → K → Option V
  get [] k = none
  get ((j, v) ∷ m) k = if j == k then some v else get m k

  unfoldable pub set : Map K V → K → V → Map K V
  set [] k v = (k, v) ∷ []
  set ((j, w) ∷ m) k v = if j == k then (j, v) ∷ m else (j, w) ∷ set m k v

  unfoldable pub delete : Map K V → K → Map K V
  delete [] k = []
  delete ((j, v) ∷ m) k = let rest = delete m k in if j == k then rest else (j, v) ∷ rest

  abbrev pub keys : Map K V → List K
  keys [] = []
  keys ((k, v) ∷ m) = k ∷ keys m

  abbrev pub values : Map K V → List V
  values [] = []
  values ((k, v) ∷ m) = v ∷ values m

  pub get-set :
      (m : Map K V) (k j : K) (v : V) → get (set m k v) j ≡ (if k == j then some v else get m j)
  unfolding get set
  get-set [] k j v = refl
  get-set ((i, w) ∷ m) k j v = ground (arith, ==_iff k j, ==_iff i k, ==_iff i j, get-set m k j v)

  pub get-set_self : (m : Map K V) (k : K) (v : V) → get (set m k v) k ≡ some v
  get-set_self m k v = simp (get-set, ==_refl)

  pub get-delete : (m : Map K V) (k j : K) → get (delete m k) j ≡ (if k == j then none else get m j)
  unfolding get delete
  get-delete [] k j = ground arith
  get-delete ((i, w) ∷ m) k j = ground (arith, ==_iff k j, ==_iff i k, ==_iff i j, get-delete m k j)

  pub length-set-le : (m : Map K V) (k : K) (v : V) → length (set m k v) ≤ length m + 1
  unfolding set
  length-set-le [] k v = omega arith
  length-set-le ((j, w) ∷ m) k v = ground (arith, length-set-le m k v)

pub ruleset map_laws = (get-set, get-delete, ==_refl)
