-- ===== src/Gen/Strings.antt =====
-- The string functions of duro/gen/strfns.c. A C string is the list of its bytes, without the
-- terminator; `strcmp` of <string.h> is read only as a test for equality. `char` is signed.
use Prim.Native.Nat.{bit_xor}
use durodbms.Prelude.{
  Bool, List, Option, [], ap₂, arith, false, if◌then◌else◌, ltb, none, refl, some, suc, true, ℕ,
  ℕ_discrete, ◌%◌, ◌*◌, ◌+◌, ◌-◌, ◌==◌, ◌>>=?◌, ◌^◌, ◌∷◌, ◌≡◌,
}

abbrev pub Str : Type 0
Str = List ℕ

-- `strcmp(s, t) == 0`
unfoldable pub str_equal : Str → Str → Bool
str_equal [] [] = true
str_equal [] (y ∷ ys) = false
str_equal (x ∷ xs) [] = false
str_equal (x ∷ xs) (y ∷ ys) = if x == y then str_equal xs ys else false

-- `RDB_dup_str`: the Boolean says whether `malloc` succeeds.
unfoldable pub dup_str : Bool → Str → Option Str
dup_str memory s = if memory then some s else none

-- The loop of `RDB_dup_strvec`; after a failure what was copied is freed.
unfoldable pub dup_strings : List Bool → List Str → Option (List Str)
dup_strings memory [] = some []
dup_strings [] (s ∷ strs) = none
dup_strings (m ∷ memory) (s ∷ strs) =
    let rest = dup_strings memory strs in dup_str m s >>=? (λ t. rest >>=? (λ ts. some (t ∷ ts)))

unfoldable pub dup_strvec : Bool → List Bool → List Str → Option (List Str)
dup_strvec vector memory strs = if vector then dup_strings memory strs else none

-- `RDB_find_str`: `none` for -1.
unfoldable pub find_str : List Str → Str → Option ℕ
find_str [] s = none
find_str (t ∷ strs) s =
    let rest = find_str strs s in if str_equal t s then some 0 else rest >>=? (λ i. some (suc i))

-- `RDB_find_str(...) != -1`
abbrev pub is_listed : List Str → Str → Bool
is_listed names n = elim (find_str names n) [ none ↦ false | some i ↦ true ]

-- The conversion of a signed `char` to `unsigned`.
abbrev pub char_unsigned : ℕ → ℕ
char_unsigned c = if ltb c 128 then c else 2 ^ 32 - 256 + c

unfoldable pub hash_from : ℕ → Str → ℕ
hash_from h [] = h
hash_from h (c ∷ s) = hash_from (bit_xor (h * 33 % 2 ^ 32) (char_unsigned c)) s

unfoldable pub hash_str : Str → ℕ
hash_str s = hash_from 5381 s

pub str_equal_refl : (s : Str) → str_equal s s ≡ true
unfolding str_equal
str_equal_refl [] = refl
str_equal_refl (x ∷ xs) = ground (arith, str_equal_refl xs)

pub str_equal_sound : (s t : Str) → str_equal s t ≡ true → s ≡ t
unfolding str_equal
str_equal_sound [] [] h = refl
str_equal_sound [] (y ∷ ys) h = absurd (ground arith)
str_equal_sound (x ∷ xs) [] h = absurd (ground arith)
str_equal_sound (x ∷ xs) (y ∷ ys) h = elim (ℕ_discrete x y) [
  | yes e ↦ ap₂ (λ a b. a ∷ b) e (str_equal_sound xs ys (ground arith))
  | no ne ↦ absurd (ground arith)
]

pub str_equal_symm : (s t : Str) → str_equal s t ≡ str_equal t s
unfolding str_equal
str_equal_symm [] [] = refl
str_equal_symm [] (y ∷ ys) = refl
str_equal_symm (x ∷ xs) [] = refl
str_equal_symm (x ∷ xs) (y ∷ ys) = ground (arith, str_equal_symm xs ys)
