-- ===== src/Prelude/Numbers.antt =====
-- strconv.Atoi, and the integers of the narrower types.
use Prim.Native.Nat.{ℕ, zero, suc, ◌+◌, ◌-◌, ◌*◌, ◌%◌, ◌^◌, ◌<◌}
use mathlib.Core.Path.{◌≡◌}
use mathlib.Core.Bool.{Bool, true, ◌&&◌}
use mathlib.Core.Option.{Option, none, some}
use mathlib.Core.List.{[], ◌∷◌}
use native.Mathlib.Omega.{arith}
use go_clockwork.Prelude.Tests.{ltb, leb, ◌==◌, if◌then◌else◌}
use go_clockwork.Prelude.Texts.{Text, is_empty}
use go_clockwork.Prelude.Ints.{ℤ, pos, negsuc}

abbrev pub is_digit : ℕ → Bool
is_digit c = leb b'0' c && leb c b'9'

abbrev pub are_digits : Text → Bool
are_digits [] = true
are_digits (c ∷ s) = is_digit c && are_digits s

-- The number that digits spell behind `n`.
abbrev pub decimal : ℕ → Text → ℕ
decimal n [] = n
decimal n (c ∷ s) = decimal (n * 10 + (c - b'0')) s

-- A number without a sign; `limit` is the largest one that is in range.
unfoldable pub unsigned : ℕ → Text → Option ℕ
unsigned limit s =
    if is_empty s
    then none
    else if are_digits s
    then (if leb (decimal 0 s) limit then some (decimal 0 s) else none)
    else none

abbrev pub negated : ℕ → ℤ
negated zero = pos 0
negated (suc n) = negsuc n

abbrev pub as_positive : Option ℕ → Option ℤ
as_positive none = none
as_positive (some n) = some (pos n)

abbrev pub as_negative : Option ℕ → Option ℤ
as_negative none = none
as_negative (some n) = some (negated n)

-- `strconv.Atoi`, and `strconv.ParseInt` of base 10 and 64 bits: `none` is an error, of the form or of
-- the range.
unfoldable pub atoi : Text → Option ℤ
unfolding unsigned
atoi [] = none
atoi (c ∷ s) =
    if c == b'-'
    then as_negative (unsigned (2 ^ 63) s)
    else if c == b'+'
    then as_positive (unsigned (2 ^ 63 - 1) s)
    else as_positive (unsigned (2 ^ 63 - 1) (c ∷ s))

-- The low `w` bits of an integer.
unfoldable pub low_bits : ℕ → ℤ → ℕ
low_bits w (pos n) = n % 2 ^ w
low_bits w (negsuc n) = 2 ^ w - 1 - n % 2 ^ w

-- A conversion to an unsigned and to a signed type of `w` bits.
unfoldable pub to_unsigned : ℕ → ℤ → ℤ
unfolding low_bits
to_unsigned w n = pos (low_bits w n)

unfoldable pub to_signed : ℕ → ℤ → ℤ
unfolding low_bits
to_signed w n =
    let m = low_bits w n in if ltb m (2 ^ (w - 1)) then pos m else negsuc (2 ^ w - 1 - m)

-- Digits in range are read as the number that they spell.
pub atoi_digits :
    (c : ℕ) (s : Text)
    → are_digits (c ∷ s) ≡ true
    → decimal 0 (c ∷ s) < 2 ^ 63
    → atoi (c ∷ s) ≡ some (pos (decimal 0 (c ∷ s)))
unfolding atoi
atoi_digits c s h fits = ground arith
