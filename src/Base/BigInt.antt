-- ===== src/Base/BigInt.antt =====
-- `BigInt(text)`: white space is trimmed and nothing at all is zero; then decimal digits with an
-- optional sign, or digits after 0x, 0o or 0b without one. `none` is the SyntaxError.
use Prim.Native.Nat.{ℕ, zero, suc, ◌+◌, ◌-◌, ◌*◌}
use mathlib.Core.Bool.{◌&&◌, ◌||◌}
use mathlib.Core.Option
use mathlib.Core.Option.{Option, none, some}
use mathlib.Core.List.{[], ◌∷◌}
use aljama_wallet.Base.Tests.{leb, ltb, if◌then◌else◌, nat_eq, ◌==◌}
use aljama_wallet.Base.Strings.{Text, trim}
use aljama_wallet.Base.Int.{ℤ, pos, negsuc}

digit_value : ℕ → Option ℕ
digit_value c =
    if leb 48 c && leb c 57
    then some (c - 48)
    else if leb 65 c && leb c 70
    then some (c - 55)
    else if leb 97 c && leb c 102
    then some (c - 87)
    else none

digits : ℕ → ℕ → Text → Option ℕ
digits radix acc [] = some acc
digits radix acc (c ∷ s) =
    let d = digit_value c in
    elim d [
      | none ↦ none
      | some d ↦ let rest = digits radix (acc * radix + d) s in if ltb d radix then rest else none
    ]

some_digits : ℕ → Text → Option ℕ
some_digits radix [] = none
some_digits radix (c ∷ s) = digits radix 0 (c ∷ s)

negated : ℕ → ℤ
negated zero = pos 0
negated (suc n) = negsuc n

-- What stands behind a leading zero.
behind_zero : Text → Option ℕ
behind_zero [] = some 0
behind_zero (c ∷ s) =
    if c == 120 || c == 88
    then some_digits 16 s
    else if c == 111 || c == 79
    then some_digits 8 s
    else if c == 98 || c == 66
    then some_digits 2 s
    else digits 10 0 (c ∷ s)

signed : Text → Option ℤ
signed [] = some (pos 0)
signed (c ∷ s) =
    if c == 45
    then Option.map negated (some_digits 10 s)
    else if c == 43
    then Option.map pos (some_digits 10 s)
    else if c == 48
    then Option.map pos (behind_zero s)
    else Option.map pos (digits 10 0 (c ∷ s))

unfoldable pub big_int : Text → Option ℤ
unfolding digit_value digits some_digits negated behind_zero signed
big_int s = signed (trim s)
