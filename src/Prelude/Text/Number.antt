-- ===== src/Prelude/Text/Number.antt =====
-- `strconv.Itoa` and `strconv.Atoi` on a 64-bit `int`.
use Prim.Native.Nat.{ℕ, zero, suc, ◌+◌, ◌-◌, ◌*◌, ◌/◌, ◌%◌}
use Prim.Native.Char.{code}
use Prim.Native.String.{String, [], ◌∷◌, ◌++◌, char_at}
use mathlib.Core.Bool.{◌&&◌}
use mathlib.Core.Option.{Option, none, some}
use postee.Prelude.Tests.{ltb, leb, eqb, if◌then◌else◌}
use postee.Prelude.Effects.{Error}
use postee.Prelude.Int.{ℤ, pos, negsuc, neg, int_max, int_min_size}

-- The decimal digits of a number, in front of a text; the fuel is the number itself plus one.
unfoldable pub print_digits : ℕ → ℕ → String → String
print_digits zero n out = out
print_digits (suc f) n out =
    let here = char_at "0123456789" (n % 10) ∷ out in
    let more = print_digits f (n / 10) here in if ltb n 10 then here else more

unfoldable pub itoa_nat : ℕ → String
unfolding print_digits
itoa_nat n = print_digits (suc n) n ""

unfoldable pub itoa : ℤ → String
unfolding itoa_nat
itoa (pos n) = itoa_nat n
itoa (negsuc n) = "-" ++ itoa_nat (suc n)

-- The value of a text of digits, read from an accumulator; `none` at any other character.
unfoldable pub parse_digits : ℕ → String → Option ℕ
parse_digits n [] = some n
parse_digits n (c ∷ s) =
    let rest = parse_digits (n * 10 + (code c - 48)) s in
    if leb 48 (code c) && leb (code c) 57 then rest else none

unfoldable pub parse_unsigned : String → Option ℕ
unfolding parse_digits
parse_unsigned [] = none
parse_unsigned (c ∷ s) = parse_digits 0 (c ∷ s)

-- The value that comes back beside an error is part of the contract: 0 for a text that is no
-- number, the nearest bound for a number out of range.
abbrev pub in_range : (positive : Option ℕ) → ℤ × Option Error
in_range none = (pos 0, some "invalid syntax")
in_range (some n) =
    if leb n int_max then (pos n, none) else (pos int_max, some "value out of range")

abbrev pub in_negative_range : Option ℕ → ℤ × Option Error
in_negative_range none = (pos 0, some "invalid syntax")
in_negative_range (some n) =
    if leb n int_min_size then (neg n, none) else (neg int_min_size, some "value out of range")

unfoldable pub atoi : String → ℤ × Option Error
unfolding parse_unsigned
atoi [] = (pos 0, some "invalid syntax")
atoi (c ∷ s) =
    if eqb (code c) b'-'
    then in_negative_range (parse_unsigned s)
    else if eqb (code c) b'+'
    then in_range (parse_unsigned s)
    else in_range (parse_unsigned (c ∷ s))
