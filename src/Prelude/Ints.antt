-- ===== src/Prelude/Ints.antt =====
-- Signed integers over the native numbers, and their storage in fewer bits.
use Prim.Native.Nat.{ℕ, suc, zero, ◌*◌, ◌/◌, ◌+◌, ◌-◌, ◌%◌, ◌<◌}
use mathlib.Core.Path.{◌≡◌}
use mathlib.Core.Bool.{Bool}
use native.Mathlib.Omega.{arith}
use durodbms.Prelude.Tests.{ltb, leb, ◌==◌, if◌then◌else◌}

-- `negsuc n` is -(n + 1).
pub data ℤ : Type 0 where
  pos : ℕ → ℤ
  negsuc : ℕ → ℤ

abbrev pub pos_part : ℤ → ℕ
pos_part (pos n) = n
pos_part (negsuc n) = 0

abbrev pub neg_part : ℤ → ℕ
neg_part (pos n) = 0
neg_part (negsuc n) = suc n

-- a - b for natural numbers.
abbrev pub difference : ℕ → ℕ → ℤ
difference a b = if leb b a then pos (a - b) else negsuc (b - a - 1)

abbrev pub plus_ℕ : ℤ → ℕ → ℤ
plus_ℕ a n = difference (pos_part a + n) (neg_part a)

abbrev pub minus_ℕ : ℤ → ℕ → ℤ
minus_ℕ a n = difference (pos_part a) (neg_part a + n)

-- a < n and a > n
abbrev pub below_ℕ : ℤ → ℕ → Bool
below_ℕ a n = ltb (pos_part a) (n + neg_part a)

abbrev pub above_ℕ : ℤ → ℕ → Bool
above_ℕ a n = ltb (n + neg_part a) (pos_part a)

-- `a % k == 0`: the remainder has the sign of `a`.
abbrev pub divides : ℕ → ℤ → Bool
divides k a = (pos_part a + neg_part a) % k == 0

-- The low bits of the two's complement.
abbrev pub bits8 : ℤ → ℕ
bits8 (pos n) = n % 256
bits8 (negsuc n) = 255 - n % 256

abbrev pub bits16 : ℤ → ℕ
bits16 (pos n) = n % 65536
bits16 (negsuc n) = 65535 - n % 65536

-- An `int16_t` from its bits.
abbrev pub signed16 : ℕ → ℤ
signed16 w = if ltb w 32768 then pos w else negsuc (65535 - w)

abbrev pub to_int16 : ℤ → ℤ
to_int16 a = signed16 (bits16 a)

-- The range of an `int16_t`.
abbrev pub IsInt16 : ℤ → Type 0
IsInt16 (pos n) = n < 32768
IsInt16 (negsuc n) = n < 32768

pub to_int16_fits : (a : ℤ) → IsInt16 a → to_int16 a ≡ a
to_int16_fits (pos n) h = ground (arith, h)
to_int16_fits (negsuc n) h = ground (arith, h)

infixl 6 ◌+ℤ◌
abbrev pub ◌+ℤ◌ : ℤ → ℤ → ℤ
a +ℤ b = difference (pos_part a + pos_part b) (neg_part a + neg_part b)

infixl 6 ◌-ℤ◌
abbrev pub ◌-ℤ◌ : ℤ → ℤ → ℤ
a -ℤ b = difference (pos_part a + neg_part b) (neg_part a + pos_part b)

infixl 7 ◌*ℤ◌
abbrev pub ◌*ℤ◌ : ℤ → ℤ → ℤ
a *ℤ b =
    difference (pos_part a * pos_part b + neg_part a * neg_part b)
      (pos_part a * neg_part b + neg_part a * pos_part b)

-- a < b and a == b
abbrev pub ltb_ℤ : ℤ → ℤ → Bool
ltb_ℤ a b = ltb (pos_part a + neg_part b) (pos_part b + neg_part a)

abbrev pub eq_ℤ : ℤ → ℤ → Bool
eq_ℤ a b = pos_part a + neg_part b == pos_part b + neg_part a

-- -n
abbrev pub minus_of : ℕ → ℤ
minus_of zero = pos 0
minus_of (suc n) = negsuc n

-- `a / b`, rounded towards zero, and `a % b`, with the sign of `a`.
abbrev pub quotient : ℤ → ℤ → ℤ
quotient (pos m) (pos n) = pos (m / n)
quotient (pos m) (negsuc n) = minus_of (m / suc n)
quotient (negsuc m) (pos n) = minus_of (suc m / n)
quotient (negsuc m) (negsuc n) = pos (suc m / suc n)

abbrev pub remainder : ℤ → ℤ → ℤ
remainder (pos m) (pos n) = pos (m % n)
remainder (pos m) (negsuc n) = pos (m % suc n)
remainder (negsuc m) (pos n) = minus_of (suc m % n)
remainder (negsuc m) (negsuc n) = minus_of (suc m % suc n)

-- The ranges of `int32_t` and `long long`.
abbrev pub in_int32 : ℤ → Bool
in_int32 (pos n) = ltb n 2147483648
in_int32 (negsuc n) = ltb n 2147483648

abbrev pub in_int64 : ℤ → Bool
in_int64 (pos n) = ltb n 9223372036854775808
in_int64 (negsuc n) = ltb n 9223372036854775808
