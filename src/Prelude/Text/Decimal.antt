-- ===== src/Prelude/Text/Decimal.antt =====
-- `strconv.Atoi` reads what `strconv.Itoa` prints.
use Prim.Native.Nat.{ℕ, zero, suc, ◌+◌, ◌*◌, ◌/◌, ◌%◌, ◌≤◌, ◌<◌}
use Prim.Native.Char.{code}
use Prim.Native.String.{String, [], ◌∷◌, char_at}
use mathlib.Core.Path.{◌≡◌, refl, ap, ◌∙◌}
use mathlib.Core.Bool.{Bool, true, ◌&&◌}
use mathlib.Core.Option.{none, some}
use mathlib.Core.Logic.{inl, inr}
use native.Mathlib.Omega.{arith}
use postee.Prelude.Tests.{ltb, eqb, Bool-cases}
use postee.Prelude.Int.{pos, int_max}
use postee.Prelude.Text.Number.{print_digits, itoa_nat, parse_digits, parse_unsigned, atoi}

-- Whether each of the first k characters of the table of digits has its code.
digits_right : ℕ → Bool
digits_right zero = true
digits_right (suc k) = eqb (code (char_at "0123456789" k)) (48 + k) && digits_right k

digit_among : (k d : ℕ) → digits_right k ≡ true → d < k → code (char_at "0123456789" d) ≡ 48 + d
unfolding digits_right
digit_among zero d right below = absurd (omega (arith, below))
digit_among (suc k) d right below = ground (arith, digit_among k d)

ten_right : digits_right 10 ≡ true
unfolding digits_right
ten_right = refl

digit_code : (d : ℕ) → d < 10 → code (char_at "0123456789" d) ≡ 48 + d
digit_code d h = digit_among 10 d ten_right h

parse_digits-digit :
    (a d : ℕ) (s : String)
    → d < 10
    → parse_digits a (char_at "0123456789" d ∷ s) ≡ parse_digits (a * 10 + d) s
unfolding parse_digits
parse_digits-digit a d s h = let c = digit_code d h in ground (arith, c)

parse_digits-print_digits :
    (f n : ℕ) (out : String) → n < f → parse_digits 0 (print_digits f n out) ≡ parse_digits n out
unfolding print_digits
parse_digits-print_digits zero n out h = absurd (omega arith)
parse_digits-print_digits (suc f) n out h = elim (Bool-cases (ltb n 10)) [
  | inl small ↦
      let least : n % 10 ≡ n = ground (arith, small) in
      rw (small, least)
        (parse_digits-digit 0 n out (ground (arith, small))
          ∙ ap (λ m. parse_digits m out) (omega arith))
  | inr large ↦ rw large (
      parse_digits-print_digits f (n / 10) _ (ground (arith, large))
      ∙ parse_digits-digit (n / 10) (n % 10) out (omega arith)
      ∙ ap (λ m. parse_digits m out) (omega arith))
]

-- The first character of a printed number.
abbrev StartsWithDigit : String → Type 0
StartsWithDigit [] = ⊥
StartsWithDigit (c ∷ s) = (48 ≤ code c) × (code c ≤ 57)

print_digits-StartsWithDigit :
    (f n : ℕ) (out : String) → n < f → StartsWithDigit (print_digits f n out)
unfolding print_digits
print_digits-StartsWithDigit zero n out h = absurd (omega arith)
print_digits-StartsWithDigit (suc f) n out h = elim (Bool-cases (ltb n 10)) [
  | inl small ↦
      let c = digit_code (n % 10) (omega arith) in rw small (omega (arith, c), omega (arith, c))
  | inr large ↦ rw large (print_digits-StartsWithDigit f (n / 10) _ (ground (arith, large)))
]

atoi_of_digits :
    (s : String) (n : ℕ)
    → StartsWithDigit s
    → parse_digits 0 s ≡ some n
    → n ≤ int_max
    → atoi s ≡ (pos n, none)
unfolding atoi parse_unsigned
atoi_of_digits [] n d p h = absurd d
atoi_of_digits (c ∷ s) n d p h = ground (arith, p, h)

-- Atoi after Itoa, for the numbers that are not negative.
pub atoi-itoa_nat : (n : ℕ) → n ≤ int_max → atoi (itoa_nat n) ≡ (pos n, none)
unfolding itoa_nat
atoi-itoa_nat n h =
    atoi_of_digits (print_digits (suc n) n "") n
      (print_digits-StartsWithDigit (suc n) n "" (omega arith))
      (parse_digits-print_digits (suc n) n "" (omega arith) ∙ unfold parse_digits in refl) h

-- Every character is a digit.
abbrev pub AllDigits : String → Type 0
AllDigits [] = Unit
AllDigits (c ∷ s) = (48 ≤ code c) × (code c ≤ 57) × AllDigits s

print_digits-AllDigits : (f n : ℕ) (out : String) → AllDigits out → AllDigits (print_digits f n out)
unfolding print_digits
print_digits-AllDigits zero n out h = h
print_digits-AllDigits (suc f) n out h =
    let c = digit_code (n % 10) (omega arith) in
    let here : AllDigits (char_at "0123456789" (n % 10) ∷ out) =
      (omega (arith, c), omega (arith, c), h) in
    elim (Bool-cases (ltb n 10)) [
      | inl small ↦ rw small here
      | inr large ↦ rw large (print_digits-AllDigits f (n / 10) _ here)
    ]

pub itoa_nat-AllDigits : (n : ℕ) → AllDigits (itoa_nat n)
unfolding itoa_nat
itoa_nat-AllDigits n = print_digits-AllDigits (suc n) n "" tt
