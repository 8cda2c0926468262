-- ===== src/Base/Map/Values.antt =====
-- What `set` does to the values of a map: to a predicate on all of them, to the first that passes a
-- test, and to their being apart under a function.
use mathlib.Core.Path.{◌≡◌, sym}
use mathlib.Core.Logic.{◌≢◌, inl, inr}
use mathlib.Core.Bool.{Bool, true, false}
use mathlib.Core.Option.{none, some}
use mathlib.Core.List.{[], ◌∷◌}
use native.Mathlib.Omega.{arith}
use aljama_wallet.Base.Tests.{==_iff, HasEquality, ◌==◌, Bool-cases}
use aljama_wallet.Base.Lists.{any, find}
use aljama_wallet.Base.Map.{Map, get, set, values}

module _ {ℓ κ} {K : Type ℓ} {V : Type κ} ⦃e : HasEquality K⦄ where
  -- Every value satisfies the predicate.
  abbrev pub AllValues {ρ} : (V → Type ρ) → Map K V → Type ρ
  AllValues P [] = Unit
  AllValues P ((k, v) ∷ m) = P v × AllValues P m

  pub set-AllValues {ρ} :
      (P : V → Type ρ) (m : Map K V) (k : K) (v : V) → AllValues P m → P v → AllValues P (set m k v)
  unfolding set
  set-AllValues P [] k v h p = (p, tt)
  set-AllValues P ((j, w) ∷ m) k v (q, h) p = elim (Bool-cases (j == k)) [
    | inl same ↦ rw (same, set) (p, h)
    | inr other ↦ rw (other, set) (q, set-AllValues P m k v h p)
  ]

  pub AllValues-map {ρ σ} :
      {P : V → Type ρ} {Q : V → Type σ} (f : (v : V) → P v → Q v) (m : Map K V)
      → AllValues P m
      → AllValues Q m
  AllValues-map f [] h = tt
  AllValues-map f ((k, v) ∷ m) (p, h) = (f v p, AllValues-map f m h)

  pub get-AllValues {ρ} :
      (P : V → Type ρ) (m : Map K V) (k : K) (v : V) → AllValues P m → get m k ≡ some v → P v
  unfolding get
  get-AllValues P [] k v h g = cc
  get-AllValues P ((j, w) ∷ m) k v (q, h) g = elim (Bool-cases (j == k)) [
    | inl same ↦ let p : w ≡ v = ground arith in rw (← p) q
    | inr other ↦ get-AllValues P m k v h (ground arith)
  ]

  pub any-values {ρ} :
      (P : V → Type ρ) (p : V → Bool) (m : Map K V)
      → AllValues P m
      → any p (values m) ≡ true
      → (v : V) × P v × (p v ≡ true)
  any-values P p [] h a = cc
  any-values P p ((j, w) ∷ m) (q, h) a = elim (Bool-cases (p w)) [
    | inl hit ↦ (w, q, hit)
    | inr miss ↦ any-values P p m h (rw miss at a)
  ]

  pub not-any-values :
      (p : V → Bool) (m : Map K V) → any p (values m) ≡ false → AllValues (λ v. p v ≡ false) m
  not-any-values p [] a = tt
  not-any-values p ((j, w) ∷ m) a = (ground arith, not-any-values p m (ground arith))

  -- Every entry satisfies the relation between its key and its value.
  abbrev pub AllEntries {ρ} : (K → V → Type ρ) → Map K V → Type ρ
  AllEntries P [] = Unit
  AllEntries P ((k, v) ∷ m) = P k v × AllEntries P m

  pub set-AllEntries {ρ} :
      (P : K → V → Type ρ) (m : Map K V) (k : K) (v : V)
      → AllEntries P m
      → P k v
      → AllEntries P (set m k v)
  unfolding set
  set-AllEntries P [] k v h p = (p, tt)
  set-AllEntries P ((j, w) ∷ m) k v (q, h) p = elim (Bool-cases (j == k)) [
    | inl same ↦ rw (same, set) (rw (sym ((==_iff j k).0 same)) at p, h)
    | inr other ↦ rw (other, set) (q, set-AllEntries P m k v h p)
  ]

  pub get-AllEntries {ρ} :
      (P : K → V → Type ρ) (m : Map K V) (k : K) (v : V) → AllEntries P m → get m k ≡ some v → P k v
  unfolding get
  get-AllEntries P [] k v h g = cc
  get-AllEntries P ((j, w) ∷ m) k v (q, h) g = elim (Bool-cases (j == k)) [
    | inl same ↦
        let e : w ≡ v = ground arith in let j≡k : j ≡ k = (==_iff j k).0 same in rw (← e, ← j≡k) q
    | inr other ↦ get-AllEntries P m k v h (ground arith)
  ]

  -- A new value that passes the test is the first, if none passed before.
  pub find-values-set :
      (p : V → Bool) (m : Map K V) (k : K) (v : V)
      → find p (values m) ≡ none
      → p v ≡ true
      → find p (values (set m k v)) ≡ some v
  unfolding set
  find-values-set p [] k v h q = ground arith
  find-values-set p ((j, w) ∷ m) k v h q = elim (Bool-cases (p w)) [
    | inl hit ↦ ground arith
    | inr miss ↦ ground (arith, find-values-set p m k v (rw miss at h) q)
  ]

  pub find-values {ρ} :
      (P : V → Type ρ) (p : V → Bool) (m : Map K V) (v : V)
      → AllValues P m
      → find p (values m) ≡ some v
      → P v × (p v ≡ true)
  find-values P p [] v h f = cc
  find-values P p ((j, w) ∷ m) v (q, h) f = elim (Bool-cases (p w)) [
    | inl hit ↦ let e : w ≡ v = ground arith in rw (← e) (q, hit)
    | inr miss ↦ find-values P p m v h (rw miss at f)
  ]

  module _ {ρ} {S : Type ρ} (f : V → S) where
    -- No two entries have values with one image.
    abbrev pub Distinct : Map K V → Type ρ
    Distinct [] = Unit
    Distinct ((k, v) ∷ m) = AllValues (λ w. f w ≢ f v) m × Distinct m

    -- But for the entry at the key, no value has this image.
    abbrev Apart : S → K → Map K V → Type ρ
    Apart s k [] = Unit
    Apart s k ((j, v) ∷ m) = elim (j == k) [
      | true ↦ AllValues (λ w. f w ≢ s) m
      | false ↦ (f v ≢ s) × Apart s k m
    ]

    Apart-new : (s : S) (k : K) (m : Map K V) → AllValues (λ w. f w ≢ s) m → Apart s k m
    Apart-new s k [] h = tt
    Apart-new s k ((j, v) ∷ m) (q, h) = elim (Bool-cases (j == k)) [
      | inl same ↦ rw (same, Apart) h
      | inr other ↦ rw (other, Apart) (q, Apart-new s k m h)
    ]

    set-AllValues_apart :
        (s : S) (m : Map K V) (k : K) (v : V)
        → AllValues (λ w. f w ≢ s) m
        → f v ≢ s
        → AllValues (λ w. f w ≢ s) (set m k v)
    set-AllValues_apart s m k v h p = set-AllValues (λ w. f w ≢ s) m k v h p

    set-Distinct_of_Apart :
        (m : Map K V) (k : K) (v : V) → Distinct m → Apart (f v) k m → Distinct (set m k v)
    unfolding set
    set-Distinct_of_Apart [] k v h a = (tt, tt)
    set-Distinct_of_Apart ((j, w) ∷ m) k v (q, h) a = elim (Bool-cases (j == k)) [
      | inl same ↦ rw (same, set) (rw (same, Apart) at a, h)
      | inr other ↦
          let b : (f w ≢ f v) × Apart (f v) k m = rw (other, Apart) at a in
          rw (other, set)
            (
              set-AllValues_apart (f w) m k v q (λ p. b.0 (sym p)),
              set-Distinct_of_Apart m k v h b.1,
            )
    ]

    -- A value that is apart from all keeps the map distinct,
    pub set-Distinct :
        (m : Map K V) (k : K) (v : V)
        → Distinct m
        → AllValues (λ w. f w ≢ f v) m
        → Distinct (set m k v)
    set-Distinct m k v h a = set-Distinct_of_Apart m k v h (Apart-new (f v) k m a)

    Apart-old : (m : Map K V) (k : K) (v : V) → Distinct m → get m k ≡ some v → Apart (f v) k m
    unfolding get
    Apart-old [] k v h g = tt
    Apart-old ((j, w) ∷ m) k v (q, h) g = elim (Bool-cases (j == k)) [
      | inl same ↦ let p : w ≡ v = ground arith in rw (same, Apart, ← p) q
      | inr other ↦
          let found : get m k ≡ some v = ground arith in
          let apart : f v ≢ f w = get-AllValues (λ u. f u ≢ f w) m k v q found in
          rw (other, Apart) ((λ p. apart (sym p)), Apart-old m k v h found)
    ]

    -- and so does one with the image of the value that it replaces.
    pub set-Distinct_same :
        (m : Map K V) (k : K) (v w : V)
        → Distinct m
        → get m k ≡ some v
        → f w ≡ f v
        → Distinct (set m k w)
    set-Distinct_same m k v w h g p = set-Distinct_of_Apart m k w h (rw p (Apart-old m k v h g))
