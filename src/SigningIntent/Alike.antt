-- ===== src/SigningIntent/Alike.antt =====
-- A record of the map in memory in place of another one, and what the order of the queue makes of it.
use aljama_wallet.Base.{
  true, false, ◌≡◌, ◌⊎◌, refl, ap, sym, ◌∙◌, subst, inl, inr, some, List, [], ◌∷◌, Text, text_eq,
  ◌==◌, Bool-cases, ==_refl, filter, sort_up, insert_up, head, leb, arith,
}
use aljama_wallet.Base.Map
use aljama_wallet.Base.Map.{Map}
use aljama_wallet.SigningIntent.{Stored}
use aljama_wallet.SigningIntent.Memory.{is_queued, created_of}

pub set-set :
    (m : Map Text Stored) (k : Text) (v w : Stored) → Map.set (Map.set m k v) k w ≡ Map.set m k w
unfolding Map.set
set-set [] k v w = simp (==_refl k)
set-set ((j, u) ∷ m) k v w = elim (Bool-cases (j == k)) [
  | inl here ↦ rw (here, here, Map.set) refl
  | inr apart ↦ rw (apart, apart, Map.set) (ap (λ z. (j, u) ∷ z) (set-set m k v w))
]

-- A record in place of another that is queued too and was created with it.
module _ (r r' : Stored) (queued : is_queued r' ≡ is_queued r)
    (created : created_of r' ≡ created_of r) where
  abbrev pub Like : Stored → Stored → Type 0
  Like q q' = (q ≡ q') ⊎ ((q ≡ r) × (q' ≡ r'))

  abbrev pub AllLike : List Stored → List Stored → Type 0
  AllLike [] [] = Unit
  AllLike [] (y ∷ ys) = ⊥
  AllLike (x ∷ xs) [] = ⊥
  AllLike (x ∷ xs) (y ∷ ys) = Like x y × AllLike xs ys

  all_like : (xs : List Stored) → AllLike xs xs
  all_like [] = tt
  all_like (x ∷ xs) = (inl refl, all_like xs)

  pub set-AllLike :
      (m : Map Text Stored) (id : Text)
      → Map.get m id ≡ some r
      → AllLike (Map.values m) (Map.values (Map.set m id r'))
  unfolding Map.get Map.set
  set-AllLike [] id e = cc
  set-AllLike ((k, v) ∷ m) id e = elim (Bool-cases (k == id)) [
    | inl here ↦
        let same : v ≡ r = ground arith in rw here (inr (same, refl), all_like (Map.values m))
    | inr apart ↦ rw apart (inl refl, set-AllLike m id (rw apart at e))
  ]

  queued_alike : (x y : Stored) → Like x y → is_queued y ≡ is_queued x
  queued_alike x y (inl e) = ap is_queued (sym e)
  queued_alike x y (inr (p, q)) = ap is_queued q ∙ queued ∙ ap is_queued (sym p)

  created_alike : (x y : Stored) → Like x y → created_of y ≡ created_of x
  created_alike x y (inl e) = ap created_of (sym e)
  created_alike x y (inr (p, q)) = ap created_of q ∙ created ∙ ap created_of (sym p)

  pub filter-AllLike :
      (xs ys : List Stored) → AllLike xs ys → AllLike (filter is_queued xs) (filter is_queued ys)
  filter-AllLike [] [] h = tt
  filter-AllLike [] (y ∷ ys) h = absurd h
  filter-AllLike (x ∷ xs) [] h = absurd h
  filter-AllLike (x ∷ xs) (y ∷ ys) (l, h) =
      let same = queued_alike x y l in
      elim (Bool-cases (is_queued x)) [
        | inl hit ↦
            let hit' : is_queued y ≡ true = same ∙ hit in rw (hit, hit') (l, filter-AllLike xs ys h)
        | inr miss ↦
            let miss' : is_queued y ≡ false = same ∙ miss in
            rw (miss, miss') (filter-AllLike xs ys h)
      ]

  insert-AllLike :
      (x y : Stored) (xs ys : List Stored)
      → Like x y
      → AllLike xs ys
      → AllLike (insert_up created_of x xs) (insert_up created_of y ys)
  insert-AllLike x y [] [] l h = (l, tt)
  insert-AllLike x y [] (b ∷ ys) l h = absurd h
  insert-AllLike x y (a ∷ xs) [] l h = absurd h
  insert-AllLike x y (a ∷ xs) (b ∷ ys) l (k, h) =
      elim (Bool-cases (leb (created_of x) (created_of a))) [
        | inl first ↦
            let first' : leb (created_of y) (created_of b) ≡ true =
              rw (created_alike x y l, created_alike a b k) first in
            rw (first, first') (l, (k, h))
        | inr later ↦
            let later' : leb (created_of y) (created_of b) ≡ false =
              rw (created_alike x y l, created_alike a b k) later in
            rw (later, later') (k, insert-AllLike x y xs ys l h)
      ]

  pub sort-AllLike :
      (xs ys : List Stored)
      → AllLike xs ys
      → AllLike (sort_up created_of xs) (sort_up created_of ys)
  sort-AllLike [] [] h = tt
  sort-AllLike [] (y ∷ ys) h = absurd h
  sort-AllLike (x ∷ xs) [] h = absurd h
  sort-AllLike (x ∷ xs) (y ∷ ys) (l, h) = insert-AllLike x y _ _ l (sort-AllLike xs ys h)

  pub head-AllLike :
      (xs ys : List Stored)
      → AllLike xs ys
      → head xs ≡ some r
      → (y : Stored) × (head ys ≡ some y) × Like r y
  head-AllLike [] ys h e = cc
  head-AllLike (x ∷ xs) [] h e = absurd h
  head-AllLike (x ∷ xs) (y ∷ ys) (l, h) e =
      let same : x ≡ r = cc in (y, refl, subst (λ z. Like z y) same l)
