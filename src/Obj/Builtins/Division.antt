-- ===== src/Obj/Builtins/Division.antt =====
-- `divide_int` and `modulo` of duro/obj/builtinscops.c together.
use native.Mathlib.Nat.{div-add-mod, div-le_self, div-lt_self, mod-lt}
use durodbms.Obj.Builtins.{abs_int, divide_int, int_min, modulo}
use durodbms.Obj.Builtins.Integers.{IsInt32}
use durodbms.Prelude.{
  Bool-cases, Option, Result, ap, arith, err, inl, inr, invalid_argument, ltb, minus_of, neg_part,
  negsuc, none, ok, pos, pos_part, refl, some, suc, zero, ℕ, ℤ, ◌%◌, ◌*ℤ◌, ◌*◌, ◌+ℤ◌, ◌+◌, ◌/◌, ◌<◌,
  ◌≡◌, ◌≤◌, ◌⊎◌,
}

-- The absolute value.
abbrev pub size : ℤ → ℕ
size z = pos_part z + neg_part z

-- `r` is zero or has the sign of `a`.
abbrev pub HasSignOf : ℤ → ℤ → Type 0
HasSignOf (pos m) r = neg_part r ≡ 0
HasSignOf (negsuc m) r = pos_part r ≡ 0

-- What division and remainder make of two integers.
abbrev pub Division : ℤ → ℤ → Option (Result ℤ) → Option (Result ℤ) → Type 0
Division a b quot rem =
    ((b ≡ pos 0) × (quot ≡ some (err invalid_argument)) × (rem ≡ some (err invalid_argument)))
    ⊎ ((((a ≡ int_min) × (b ≡ negsuc 0)) × (quot ≡ none) × (rem ≡ none))
        ⊎ ((q : ℤ) × (r : ℤ) × (quot ≡ some (ok q))
            × (rem ≡ some (ok r))
            × (b *ℤ q +ℤ r ≡ a)
            × (size r < size b)
            × HasSignOf a r))

size-minus_of : (n : ℕ) → size (minus_of n) ≡ n
size-minus_of zero = refl
size-minus_of (suc n) = omega arith

pos_part-minus_of : (n : ℕ) → pos_part (minus_of n) ≡ 0
pos_part-minus_of zero = refl
pos_part-minus_of (suc n) = refl

value_pp : (m n q r : ℕ) → n * q + r ≡ m → pos n *ℤ pos q +ℤ pos r ≡ pos m
value_pp m n q r h = ground (arith, h)

value_pn : (m n q r : ℕ) → suc n * q + r ≡ m → negsuc n *ℤ minus_of q +ℤ pos r ≡ pos m
value_pn m n zero r h = ground (arith, h)
value_pn m n (suc q) r h = ground (arith, h)

value_np : (m n q r : ℕ) → n * q + r ≡ suc m → pos n *ℤ minus_of q +ℤ minus_of r ≡ negsuc m
value_np m n zero zero h = ground (arith, h)
value_np m n zero (suc r) h = ground (arith, h)
value_np m n (suc q) zero h = ground (arith, h)
value_np m n (suc q) (suc r) h = ground (arith, h)

value_nn : (m n q r : ℕ) → suc n * q + r ≡ suc m → negsuc n *ℤ pos q +ℤ minus_of r ≡ negsuc m
value_nn m n q zero h = ground (arith, h)
value_nn m n q (suc r) h = ground (arith, h)

minus_of-IsInt32 : (n : ℕ) → n ≤ 2147483648 → IsInt32 (minus_of n)
minus_of-IsInt32 zero h = refl
minus_of-IsInt32 (suc n) h = ground (arith, h)

-- The facts on division by a number that is not zero.
remainder_lt : (m n : ℕ) → m % suc n < suc n
remainder_lt m n = mod-lt m (omega arith)

abbrev Divides : ℤ → ℤ → Type 0
Divides a b = Division a b (divide_int a b) (modulo a b)

Divides-pp : (m n : ℕ) → IsInt32 (pos m) → Divides (pos m) (pos (suc n))
unfolding divide_int modulo
Divides-pp m n h =
    let le = div-le_self m (suc n) in
    inr (
      inr (
        pos (m / suc n),
        pos (m % suc n),
        ground (arith, h, le),
        ground (arith, h, le),
        value_pp m (suc n) (m / suc n) (m % suc n) (div-add-mod m (suc n)),
        omega (arith, remainder_lt m n),
        refl,
      ))

Divides-pn : (m n : ℕ) → IsInt32 (pos m) → Divides (pos m) (negsuc n)
unfolding divide_int modulo
Divides-pn m n h =
    let le = div-le_self m (suc n) in
    let small = minus_of-IsInt32 (m / suc n) (ground (arith, h, le)) in
    inr (
      inr (
        minus_of (m / suc n),
        pos (m % suc n),
        ground (arith, small),
        ground (arith, small),
        value_pn m n (m / suc n) (m % suc n) (div-add-mod m (suc n)),
        omega (arith, remainder_lt m n),
        refl,
      ))

Divides-np : (m n : ℕ) → IsInt32 (negsuc m) → Divides (negsuc m) (pos (suc n))
unfolding divide_int modulo
Divides-np m n h =
    let le = div-le_self (suc m) (suc n) in
    let small = minus_of-IsInt32 (suc m / suc n) (ground (arith, h, le)) in
    inr (
      inr (
        minus_of (suc m / suc n),
        minus_of (suc m % suc n),
        ground (arith, small),
        ground (arith, small),
        value_np m (suc n) (suc m / suc n) (suc m % suc n) (div-add-mod (suc m) (suc n)),
        omega (arith, remainder_lt (suc m) n, size-minus_of (suc m % suc n)),
        pos_part-minus_of (suc m % suc n),
      ))

fits_nn :
    (m n : ℕ) → IsInt32 (negsuc m) → ((m ≡ 2147483647) × (n ≡ 0)) ⊎ (suc m / suc n < 2147483648)
fits_nn m zero h = elim (Bool-cases (ltb m 2147483647)) [
  | inl below ↦
      let bound : m < 2147483647 = ground (arith, below) in
      inr (omega (arith, div-le_self (suc m) 1, bound))
  | inr more ↦ inl (ground (arith, h, more), refl)
]
fits_nn m (suc n) h =
    let smaller : suc m / suc (suc n) < suc m = div-lt_self (omega arith) (omega arith) in
    inr (ground (arith, h, smaller))

Divides-nn : (m n : ℕ) → IsInt32 (negsuc m) → Divides (negsuc m) (negsuc n)
unfolding divide_int modulo
Divides-nn m n h = elim (fits_nn m n h) [
  | inl (a, b) ↦
      inr (inl ((ap negsuc a, ap negsuc b), rw (a, b, divide_int) refl, rw (a, b, modulo) refl))
  | inr small ↦ inr (
      inr (
        pos (suc m / suc n),
        minus_of (suc m % suc n),
        ground (arith, small),
        ground (arith, small),
        value_nn m n (suc m / suc n) (suc m % suc n) (div-add-mod (suc m) (suc n)),
        omega (arith, remainder_lt (suc m) n, size-minus_of (suc m % suc n)),
        pos_part-minus_of (suc m % suc n),
      ))
]

-- `divide_int` and `modulo` on arguments in the range of an `int32_t`. Either the divisor is zero
-- and both report `invalid_argument`; or -2 ^ 31 is divided by -1, and the result of both is
-- undefined; or they give a quotient and a remainder: the divisor times the quotient and the
-- remainder add up to the dividend, the remainder is smaller than the divisor in absolute value,
-- and it has the sign of the dividend.
pub divide_int-modulo :
    (a b : ℤ) → IsInt32 a → IsInt32 b → Division a b (divide_int a b) (modulo a b)
unfolding divide_int modulo
divide_int-modulo a (pos zero) h k = inl (refl, ground arith, ground arith)
divide_int-modulo (pos m) (pos (suc n)) h k = Divides-pp m n h
divide_int-modulo (pos m) (negsuc n) h k = Divides-pn m n h
divide_int-modulo (negsuc m) (pos (suc n)) h k = Divides-np m n h
divide_int-modulo (negsuc m) (negsuc n) h k = Divides-nn m n h

-- `abs_int` is undefined on -2 ^ 31 alone.
abs_int-size :
    (a : ℤ) → IsInt32 a → (abs_int a ≡ some (pos (size a))) ⊎ ((a ≡ int_min) × (abs_int a ≡ none))
unfolding abs_int
abs_int-size (pos n) h = inl (ground (arith, h))
abs_int-size (negsuc n) h = elim (Bool-cases (ltb n 2147483647)) [
  | inl below ↦ inl (ground (arith, below))
  | inr more ↦
      let last : n ≡ 2147483647 = ground (arith, h, more) in
      inr (ap negsuc last, rw (last, abs_int) refl)
]
