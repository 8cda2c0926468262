-- ===== src/Base/Strings.antt =====
-- Text as its list of code units, with what the source calls of `String`: `===`, `trim`,
-- `toLowerCase` (of ASCII), `includes`, template literals and the decimal digits of a number.
use Prim.Native.Nat.{ℕ, ◌+◌, ◌-◌}
use Prim.Native.Char.{code}
use Prim.Native.String.{String}
use mathlib.Core.Path.{◌≡◌, refl, ap, ◌∙◌}
use mathlib.Core.Logic.{◌↔◌}
use mathlib.Core.Bool.{Bool, true, false, ◌&&◌, ◌||◌}
use mathlib.Core.Option.{Option, none, some}
use mathlib.Core.List.{List, [], ◌∷◌, ◌++◌, map}
use native.Mathlib.Omega.{arith}
use aljama_wallet.Base.Tests.{leb, if◌then◌else◌, HasEquality, ◌==◌, ==_iff, nat_eq}

abbrev pub Text : Type 0
Text = List ℕ

-- A literal of the source.
abbrev pub text : String → Text
text String.[] = []
text (String.◌∷◌ c s) = code c ∷ text s

abbrev pub text_equal : Text → Text → Bool
text_equal [] [] = true
text_equal (c ∷ s) (d ∷ t) = c == d && text_equal s t
text_equal _ _ = false

pub text_equal_iff : (s t : Text) → (text_equal s t ≡ true) ↔ (s ≡ t)
text_equal_iff [] [] = ground arith
text_equal_iff (c ∷ s) (d ∷ t) = ground (arith, ==_iff c d, text_equal_iff s t)
text_equal_iff [] (d ∷ t) = ground arith
text_equal_iff (c ∷ s) [] = ground arith

instance abbrev pub text_eq : HasEquality Text
text_eq = record { equal_to = text_equal; equal_to_iff = text_equal_iff }

-- White space and line terminators of the language.
unfoldable pub is_space : ℕ → Bool
is_space c =
    (leb 9 c && leb c 13)
    || c == 32
    || c == 160
    || c == 0x1680
    || (leb 0x2000 c && leb c 0x200a)
    || c == 0x2028
    || c == 0x2029
    || c == 0x202f
    || c == 0x205f
    || c == 0x3000
    || c == 0xfeff

trim_start : Text → Text
trim_start [] = []
trim_start (c ∷ s) = if is_space c then trim_start s else c ∷ s

trim_end : Text → Text
trim_end [] = []
trim_end (c ∷ s) = elim (trim_end s) [ [] ↦ if is_space c then [] else c ∷ [] | d ∷ t ↦ c ∷ d ∷ t ]

-- `s.trim()`
unfoldable pub trim : Text → Text
unfolding is_space trim_start trim_end
trim s = trim_end (trim_start s)

trim_end_idem : (s : Text) → trim_end (trim_end s) ≡ trim_end s
unfolding trim_end
trim_end_idem [] = refl
trim_end_idem (c ∷ s) = go (trim_end s) (trim_end_idem s)
  where
    go :
        (t : Text)
        → trim_end t ≡ t
        → trim_end (elim t [ [] ↦ if is_space c then [] else c ∷ [] | d ∷ t' ↦ c ∷ d ∷ t' ])
          ≡ elim t [ [] ↦ if is_space c then [] else c ∷ [] | d ∷ t' ↦ c ∷ d ∷ t' ]
    go [] h = ground arith
    go (d ∷ t) h = rw (h, trim_end)

-- A text that does not begin with a space keeps its first unit under `trim_end`.
abbrev Starts : Text → Type 0
Starts [] = Unit
Starts (c ∷ s) = is_space c ≡ false

trim_start-Starts : (s : Text) → Starts (trim_start s)
unfolding trim_start
trim_start-Starts [] = tt
trim_start-Starts (c ∷ s) = ground (arith, trim_start-Starts s)

trim_end-Starts : (s : Text) → Starts s → Starts (trim_end s)
unfolding trim_end
trim_end-Starts [] h = tt
trim_end-Starts (c ∷ s) h = go (trim_end s)
  where
    go :
        (t : Text)
        → Starts (elim t [ [] ↦ if is_space c then [] else c ∷ [] | d ∷ t' ↦ c ∷ d ∷ t' ])
    go [] = rw h h
    go (d ∷ t) = h

trim_start_of_Starts : (s : Text) → Starts s → trim_start s ≡ s
unfolding trim_start
trim_start_of_Starts [] h = refl
trim_start_of_Starts (c ∷ s) h = rw h

pub trim-trim : (s : Text) → trim (trim s) ≡ trim s
unfolding trim
trim-trim s =
    ap trim_end (trim_start_of_Starts _ (trim_end-Starts (trim_start s) (trim_start-Starts s)))
    ∙ trim_end_idem (trim_start s)

lower_unit : ℕ → ℕ
lower_unit c = if leb b'A' c && leb c b'Z' then c + 32 else c

-- `s.toLowerCase()` and `s.toUpperCase()`, on ASCII; other units stay.
unfoldable pub to_lower : Text → Text
unfolding lower_unit
to_lower = map lower_unit

upper_unit : ℕ → ℕ
upper_unit c = if leb b'a' c && leb c b'z' then c - 32 else c

unfoldable pub to_upper : Text → Text
unfolding upper_unit
to_upper = map upper_unit

-- `value?.trim()` where an empty text counts as missing: `normalizeNullableString`, which several
-- services declare.
abbrev non_empty : Text → Option Text
non_empty [] = none
non_empty (c ∷ s) = some (c ∷ s)

unfoldable pub normalize_nullable : Option Text → Option Text
unfolding trim
normalize_nullable none = none
normalize_nullable (some s) = non_empty (trim s)

pub normalize_nullable_idem :
    (o : Option Text) → normalize_nullable (normalize_nullable o) ≡ normalize_nullable o
unfolding normalize_nullable
normalize_nullable_idem none = refl
normalize_nullable_idem (some s) = go (trim s) (trim-trim s)
  where
    go : (t : Text) → trim t ≡ t → normalize_nullable (non_empty t) ≡ non_empty t
    go [] h = refl
    go (c ∷ t) h = rw h

trim_end-ends : (s : Text) (d : ℕ) → is_space d ≡ false → trim_end (s ++ d ∷ []) ≡ s ++ d ∷ []
unfolding trim_end
trim_end-ends [] d h = rw (trim_end, h) refl
trim_end-ends (c ∷ []) d h = rw (trim_end, h) refl
trim_end-ends (c ∷ e ∷ s) d h = rw (trim_end-ends (e ∷ s) d h, trim_end) refl

-- A text between two units that are not spaces has nothing to trim.
pub trim_between :
    (c : ℕ) (s : Text) (d : ℕ)
    → is_space c ≡ false
    → is_space d ≡ false
    → normalize_nullable (some (c ∷ s ++ d ∷ [])) ≡ some (c ∷ s ++ d ∷ [])
unfolding trim trim_start normalize_nullable
trim_between c s d h k = rw (h, trim_end-ends (c ∷ s) d k) refl
