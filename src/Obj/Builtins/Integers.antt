-- ===== src/Obj/Builtins/Integers.antt =====
-- Addition, subtraction, negation and multiplication of duro/obj/builtinscops.c against the
-- integers.
use native.Mathlib.Nat.{mul-le-mul}
use durodbms.Obj.Builtins.{
  add_int, checked64, int_max, int_min, multiply_int, negate_int, subtract_int,
}
use durodbms.Prelude.{
  Result, arith, difference, err, if◌then◌else◌, in_int32, in_int64, ltb_ℤ, negsuc, ok, pos, some,
  suc, true, type_constraint_violation, ℕ, ℤ, ◌*ℤ◌, ◌*◌, ◌+ℤ◌, ◌+◌, ◌-ℤ◌, ◌>>=?◌, ◌||◌, ◌≡◌, ◌≤◌,
}

abbrev pub IsInt32 : ℤ → Type 0
IsInt32 z = in_int32 z ≡ true

-- The integer itself, where it is an `int32_t`.
abbrev pub exact : ℤ → Result ℤ
exact z = if in_int32 z then ok z else err type_constraint_violation

add_int-exact : (a b : ℤ) → IsInt32 a → IsInt32 b → add_int a b ≡ some (exact (a +ℤ b))
unfolding add_int
add_int-exact (pos m) (pos n) h k = ground (arith, h, k)
add_int-exact (pos m) (negsuc n) h k = ground (arith, h, k)
add_int-exact (negsuc m) (pos n) h k = ground (arith, h, k)
add_int-exact (negsuc m) (negsuc n) h k = ground (arith, h, k)

subtract_int-exact : (a b : ℤ) → IsInt32 a → IsInt32 b → subtract_int a b ≡ some (exact (a -ℤ b))
unfolding subtract_int
subtract_int-exact (pos m) (pos n) h k = ground (arith, h, k)
subtract_int-exact (pos m) (negsuc n) h k = ground (arith, h, k)
subtract_int-exact (negsuc m) (pos n) h k = ground (arith, h, k)
subtract_int-exact (negsuc m) (negsuc n) h k = ground (arith, h, k)

negate_int-exact : (a : ℤ) → IsInt32 a → negate_int a ≡ some (exact (pos 0 -ℤ a))
unfolding negate_int
negate_int-exact (pos m) h = ground (arith, h)
negate_int-exact (negsuc m) h = ground (arith, h)

product_bound : (m n : ℕ) → m ≤ 2147483648 → n ≤ 2147483648 → m * n ≤ 4611686018427387904
product_bound m n h k = mul-le-mul h k

difference-in_int64 :
    (p q : ℕ) → p ≤ 4611686018427387904 → q ≤ 4611686018427387904 → in_int64 (difference p q) ≡ true
difference-in_int64 p q h k = ground (arith, h, k)

-- The test after a multiplication in a wide enough type.
narrowed :
    (z : ℤ)
    → in_int64 z ≡ true
    → (checked64 z >>=? (λ prod.
        if ltb_ℤ int_max prod || ltb_ℤ prod int_min
        then some (err type_constraint_violation)
        else some (ok prod)))
      ≡ some (exact z)
narrowed (pos n) h = ground (arith, h)
narrowed (negsuc n) h = ground (arith, h)

multiply_int-exact : (a b : ℤ) → IsInt32 a → IsInt32 b → multiply_int a b ≡ some (exact (a *ℤ b))
unfolding multiply_int
multiply_int-exact a b h k = narrowed (a *ℤ b) (wide a b h k)
  where
    wide : (a b : ℤ) → IsInt32 a → IsInt32 b → in_int64 (a *ℤ b) ≡ true
    wide (pos m) (pos n) h k =
        let p = product_bound m n (ground (arith, h)) (ground (arith, k)) in
        difference-in_int64 (m * n + 0 * 0) (m * 0 + 0 * n) (omega arith) (omega arith)
    wide (pos m) (negsuc n) h k =
        let p = product_bound m (suc n) (ground (arith, h)) (ground (arith, k)) in
        difference-in_int64 (m * 0 + 0 * suc n) (m * suc n + 0 * 0) (omega arith) (omega arith)
    wide (negsuc m) (pos n) h k =
        let p = product_bound (suc m) n (ground (arith, h)) (ground (arith, k)) in
        difference-in_int64 (0 * n + suc m * 0) (0 * 0 + suc m * n) (omega arith) (omega arith)
    wide (negsuc m) (negsuc n) h k =
        let p = product_bound (suc m) (suc n) (ground (arith, h)) (ground (arith, k)) in
        difference-in_int64 (0 * 0 + suc m * suc n) (0 * suc n + suc m * 0) (omega arith)
          (omega arith)

-- On arguments in the range of an `int32_t` the sum, the difference, the negation and the product
-- are those of the integers where these are in the range, and else a
-- `type_constraint_violation`; no operation on the way leaves the range of its type.
pub int_operators-exact :
    (a b : ℤ)
    → IsInt32 a
    → IsInt32 b
    → (add_int a b ≡ some (exact (a +ℤ b)))
      × (subtract_int a b ≡ some (exact (a -ℤ b)))
      × (negate_int a ≡ some (exact (pos 0 -ℤ a)))
      × (multiply_int a b ≡ some (exact (a *ℤ b)))
int_operators-exact a b h k = (
  add_int-exact a b h k,
  subtract_int-exact a b h k,
  negate_int-exact a h,
  multiply_int-exact a b h k,
)
