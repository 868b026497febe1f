-- ===== src/Prelude/Int.antt =====
-- Go's `int`: integers over the native numbers, and the wrap-around of 64 bits.
use Prim.Native.Nat.{ℕ, suc, ◌+◌, ◌-◌, ◌*◌, ◌%◌, ◌^◌}
use mathlib.Core.Bool.{Bool}
use postee.Prelude.Tests.{ltb, leb, eqb, if◌then◌else◌}

-- `negsuc n` is -(n + 1).
pub data ℤ : Type 0 where
  pos : ℕ → ℤ
  negsuc : ℕ → ℤ

abbrev pub pos_part : ℤ → ℕ
pos_part (pos n) = n
pos_part (negsuc n) = 0

abbrev pub neg_part : ℤ → ℕ
neg_part (pos n) = 0
neg_part (negsuc n) = suc n

-- a - b, as an integer.
abbrev pub sub_ℕ : ℕ → ℕ → ℤ
sub_ℕ a b = if leb b a then pos (a - b) else negsuc (b - a - 1)

abbrev pub neg : ℕ → ℤ
neg n = sub_ℕ 0 n

abbrev pub ltb_ℤ : ℤ → ℤ → Bool
ltb_ℤ a b = ltb (pos_part a + neg_part b) (pos_part b + neg_part a)

abbrev pub leb_ℤ : ℤ → ℤ → Bool
leb_ℤ a b = leb (pos_part a + neg_part b) (pos_part b + neg_part a)

abbrev pub eqb_ℤ : ℤ → ℤ → Bool
eqb_ℤ a b = eqb (pos_part a + neg_part b) (pos_part b + neg_part a)

abbrev pub int_max : ℕ
int_max = 2 ^ 63 - 1

-- The least `int` is the negative of this number.
abbrev pub int_min_size : ℕ
int_min_size = 2 ^ 63

-- The `int` with the low 64 bits of a number.
abbrev of_bits : ℕ → ℤ
of_bits b = if ltb b (2 ^ 63) then pos b else negsuc (2 ^ 64 - b - 1)

-- The result of an arithmetic operation, wrapped to 64 bits.
unfoldable pub wrap_int : ℤ → ℤ
wrap_int (pos n) = of_bits (n % 2 ^ 64)
wrap_int (negsuc n) = of_bits (2 ^ 64 - 1 - n % 2 ^ 64)

-- The product by a natural number, as Go's `*` on `int` gives it.
unfoldable pub mul_int : ℤ → ℕ → ℤ
unfolding wrap_int
mul_int (pos n) k = wrap_int (pos (n * k))
mul_int (negsuc n) k = wrap_int (neg (suc n * k))

-- The sum with a natural number, as Go's `+` on `int` gives it.
unfoldable pub add_int : ℤ → ℕ → ℤ
unfolding wrap_int
add_int (pos n) k = wrap_int (pos (n + k))
add_int (negsuc n) k = wrap_int (sub_ℕ k (suc n))

infixl 65 ◌+ℤ◌
unfoldable pub ◌+ℤ◌ : ℤ → ℤ → ℤ
a +ℤ b = sub_ℕ (pos_part a + pos_part b) (neg_part a + neg_part b)
