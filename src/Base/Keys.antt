-- ===== src/Base/Keys.antt =====
-- The decimal digits of a number and the keys that template literals build, `${a}:${n}` and
-- `${a}:${n}:${b}`, with the conditions under which two keys differ.
use Prim.Native.Nat.{ℕ, zero, suc, ◌+◌, ◌-◌, ◌*◌, ◌/◌, ◌%◌, ◌<◌}
use mathlib.Core.Path.{◌≡◌, refl, ap, sym, ◌∙◌, subst}
use mathlib.Core.Logic.{◌≢◌}
use mathlib.Core.Bool.{true, false}
use mathlib.Core.List.{[], ◌∷◌, ◌++◌}
use native.Mathlib.Omega.{arith}
use aljama_wallet.Base.Tests.{ltb, Bool-cases}
use mathlib.Core.Logic.{inl, inr}
use aljama_wallet.Base.Lists.{All, All-append}
use aljama_wallet.Base.Strings.{Text}

digits_from : ℕ → ℕ → Text
digits_from zero n = []
digits_from (suc f) n = elim (ltb n 10) [
  | true ↦ (48 + n) ∷ []
  | false ↦ digits_from f (n / 10) ++ (48 + n % 10) ∷ []
]

-- `String(n)`: every division by ten makes the number smaller, so `n + 1` rounds are enough.
unfoldable pub show : ℕ → Text
unfolding digits_from
show n = digits_from (suc n) n

read_from : ℕ → Text → ℕ
read_from acc [] = acc
read_from acc (c ∷ s) = read_from (acc * 10 + (c - 48)) s

read_from-append :
    (acc : ℕ) (s : Text) (c : ℕ) → read_from acc (s ++ c ∷ []) ≡ read_from acc s * 10 + (c - 48)
unfolding read_from
read_from-append acc [] c = refl
read_from-append acc (d ∷ s) c = read_from-append (acc * 10 + (d - 48)) s c

read_from-digits_from : (f n : ℕ) → n < f → read_from 0 (digits_from f n) ≡ n
unfolding digits_from read_from
read_from-digits_from zero n h = elim h [ ]
read_from-digits_from (suc f) n h = elim (Bool-cases (ltb n 10)) [
  | inl small ↦ rw (small, digits_from) (ground arith)
  | inr large ↦
      rw (large, digits_from)
        (ground (
          arith,
          read_from-append 0 (digits_from f (n / 10)) (48 + n % 10),
          read_from-digits_from f (n / 10) (ground arith),
        ))
]

pub show-injective : (m n : ℕ) → show m ≡ show n → m ≡ n
unfolding show
show-injective m n h =
    sym (read_from-digits_from (suc m) m (omega arith))
    ∙ ap (read_from 0) h
    ∙ read_from-digits_from (suc n) n (omega arith)

-- No unit of the text is a colon.
abbrev pub NoColon : Text → Type 0
NoColon = All (λ c. c ≢ 58)

digits_from-NoColon : (f n : ℕ) → NoColon (digits_from f n)
unfolding digits_from
digits_from-NoColon zero n = tt
digits_from-NoColon (suc f) n = elim (Bool-cases (ltb n 10)) [
  | inl small ↦ rw (small, digits_from) (ground arith, tt)
  | inr large ↦
      rw (large, digits_from)
        (All-append (λ c. c ≢ 58) _ ((48 + n % 10) ∷ []) (digits_from-NoColon f (n / 10))
          (ground arith, tt))
]

pub show-NoColon : (n : ℕ) → NoColon (show n)
unfolding show
show-NoColon n = digits_from-NoColon (suc n) n

NoColon-middle : (w d : Text) → ¬ NoColon (w ++ 58 ∷ d)
NoColon-middle [] d (h, _) = h refl
NoColon-middle (c ∷ w) d (_, h) = NoColon-middle w d h

∷-injective : {c d : ℕ} {s t : Text} → c ∷ s ≡ d ∷ t → (c ≡ d) × (s ≡ t)
∷-injective h = (cc, cc)

-- A text is cut at its last colon, if there is none behind it,
pub cut_last :
    (w v d e : Text) → NoColon d → NoColon e → w ++ 58 ∷ d ≡ v ++ 58 ∷ e → (w ≡ v) × (d ≡ e)
cut_last [] [] d e hd he h = (refl, (∷-injective h).1)
cut_last [] (y ∷ v) d e hd he h = absurd (NoColon-middle v e (subst NoColon (∷-injective h).1 hd))
cut_last (x ∷ w) [] d e hd he h =
    absurd (NoColon-middle w d (subst NoColon (sym (∷-injective h).1) he))
cut_last (x ∷ w) (y ∷ v) d e hd he h =
    let (head, tail) = ∷-injective h in let (p, q) = cut_last w v d e hd he tail in (cc, q)

-- and at its first colon, if there is none before it.
pub cut_first :
    (w v d e : Text) → NoColon w → NoColon v → w ++ 58 ∷ d ≡ v ++ 58 ∷ e → (w ≡ v) × (d ≡ e)
cut_first [] [] d e hw hv h = (refl, (∷-injective h).1)
cut_first [] (y ∷ v) d e hw hv h = absurd (hv.0 (sym (∷-injective h).0))
cut_first (x ∷ w) [] d e hw hv h = absurd (hw.0 (∷-injective h).0)
cut_first (x ∷ w) (y ∷ v) d e hw hv h =
    let (head, tail) = ∷-injective h in let (p, q) = cut_first w v d e hw.1 hv.1 tail in (cc, q)
