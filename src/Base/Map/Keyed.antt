-- ===== src/Base/Map/Keyed.antt =====
-- A map whose entries stand under a key that their value gives, each key once.
use native.Mathlib.Omega.{arith}
use mathlib.Core.Path.{◌≡◌, sym, ap, ◌∙◌}
use mathlib.Core.Logic.{◌≢◌, inl, inr}
use mathlib.Core.Option.{some}
use mathlib.Core.List.{[], ◌∷◌}
use aljama_wallet.Base.Tests.{HasEquality, ◌==◌, ==_iff, ==_refl, Bool-cases, if◌then◌else◌}
use aljama_wallet.Base.Lists.{All}
use aljama_wallet.Base.Map.{Map, get, set, delete, values}
use aljama_wallet.Base.Map.Values.{AllValues, AllValues-map, set-AllValues}

module _ {ℓ κ} {K : Type ℓ} {V : Type κ} ⦃e : HasEquality K⦄ where
  pub delete-AllValues {ρ} :
      (P : V → Type ρ) (m : Map K V) (k : K) → AllValues P m → AllValues P (delete m k)
  unfolding delete
  delete-AllValues P [] k h = tt
  delete-AllValues P ((j, v) ∷ m) k (q, h) = elim (Bool-cases (j == k)) [
    | inl same ↦ rw (same, delete) (delete-AllValues P m k h)
    | inr other ↦ rw (other, delete) (q, delete-AllValues P m k h)
  ]

  pub AllValues-All {ρ} : (P : V → Type ρ) (m : Map K V) → AllValues P m → All P (values m)
  AllValues-All P [] h = tt
  AllValues-All P ((k, v) ∷ m) (q, h) = (q, AllValues-All P m h)

  pub AllValues-pair {ρ σ} :
      (P : V → Type ρ) (Q : V → Type σ) (m : Map K V)
      → AllValues P m
      → AllValues Q m
      → AllValues (λ v. P v × Q v) m
  AllValues-pair P Q [] h k = tt
  AllValues-pair P Q ((k, v) ∷ m) (p, h) (q, h') = ((p, q), AllValues-pair P Q m h h')

  module _ (f : V → K) where
    abbrev pub Keyed : Map K V → Type (ℓ ⊔ κ)
    Keyed [] = Unit {ℓ ⊔ κ}
    Keyed ((k, v) ∷ m) = (f v ≡ k) × AllValues (λ w. f w ≢ f v) m × Keyed m

    pub set-Keyed : (m : Map K V) (k : K) (v : V) → f v ≡ k → Keyed m → Keyed (set m k v)
    unfolding set
    set-Keyed [] k v q h = (q, tt, tt)
    set-Keyed ((j, w) ∷ m) k v q (r, apart, h) = elim (Bool-cases (j == k)) [
      | inl same ↦
          let p : f w ≡ f v = r ∙ (==_iff j k).0 same ∙ sym q in
          rw (same, set)
            (q ∙ sym ((==_iff j k).0 same), AllValues-map (λ u ne e'. ne (e' ∙ sym p)) m apart, h)
      | inr other ↦
          let ne : f v ≢ f w = λ p. let same = (==_iff j k).1 (sym r ∙ sym p ∙ q) in cc in
          rw (other, set) (r, set-AllValues (λ u. f u ≢ f w) m k v apart ne, set-Keyed m k v q h)
    ]

    pub delete-Keyed : (m : Map K V) (k : K) → Keyed m → Keyed (delete m k)
    unfolding delete
    delete-Keyed [] k h = tt
    delete-Keyed ((j, w) ∷ m) k (r, apart, h) = elim (Bool-cases (j == k)) [
      | inl same ↦ rw (same, delete) (delete-Keyed m k h)
      | inr other ↦
          rw (other, delete) (r, delete-AllValues (λ u. f u ≢ f w) m k apart, delete-Keyed m k h)
    ]

    pub get-Keyed : (m : Map K V) (k : K) (v : V) → Keyed m → get m k ≡ some v → f v ≡ k
    unfolding get
    get-Keyed [] k v h g = cc
    get-Keyed ((j, w) ∷ m) k v (r, apart, h) g = elim (Bool-cases (j == k)) [
      | inl same ↦ let p : w ≡ v = ground arith in ap f (sym p) ∙ r ∙ (==_iff j k).0 same
      | inr other ↦ get-Keyed m k v h (ground arith)
    ]

    -- Each value is what its key has.
    pub get_of_Keyed : (m : Map K V) → Keyed m → AllValues (λ v. get m (f v) ≡ some v) m
    unfolding get
    get_of_Keyed [] h = tt
    get_of_Keyed ((k, v) ∷ m) (r, apart, h) = (
      simp (r, ==_refl),
      AllValues-map (λ u (ne, g). skip k v m r u ne g) m
          (AllValues-pair (λ u. f u ≢ f v) (λ u. get m (f u) ≡ some u) m apart (get_of_Keyed m h)),
    )
      where
        skip :
            (k : K) (v : V) (m : Map K V)
            → f v ≡ k
            → (u : V) → f u ≢ f v
            → get m (f u) ≡ some u
            → (if k == f u then some v else get m (f u)) ≡ some u
        skip k v m r u ne g = elim (Bool-cases (k == f u)) [
          | inl same ↦ absurd (ne (sym ((==_iff k (f u)).0 same) ∙ sym r))
          | inr other ↦ rw other g
        ]

    -- Under its key the new value is the only one with that key.
    pub set_only {ρ} :
        (P : V → Type ρ) (m : Map K V) (k : K) (v : V)
        → Keyed m
        → P v
        → AllValues (λ w. f w ≡ k → P w) (set m k v)
    unfolding set
    set_only P [] k v h p = ((λ _. p), tt)
    set_only P ((j, w) ∷ m) k v (r, apart, h) p = elim (Bool-cases (j == k)) [
      | inl same ↦
          let at : f w ≡ k = r ∙ (==_iff j k).0 same in
          rw (same, set) ((λ _. p), AllValues-map (λ u ne q. absurd (ne (q ∙ sym at))) m apart)
      | inr other ↦
          rw (other, set)
            ((λ q. absurd (let same = (==_iff j k).1 (sym r ∙ q) in cc)), set_only P m k v h p)
    ]
