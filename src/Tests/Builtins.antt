-- ===== src/Tests/Builtins.antt =====
-- duro/obj/builtinscops.c on small arguments and at the ends of the range of `int`.
use durodbms.Gen.Strings.{Str}
use durodbms.Obj.Builtins.{
  abs_int, add_int, begins, divide_int, int_max, int_min, modulo, multiply_int, negate_int,
  op_concat, op_starts_with, op_strfind_b, op_strfind_b_pos, op_strlen_b, op_substr, op_substr_b,
  op_substr_b_remaining, skip_chars, span_chars, strstr, subtract_int,
}
use durodbms.Obj.Builtins.Division.{Division, divide_int-modulo}
use durodbms.Obj.Builtins.Find.{Occurs, op_strfind_b-op_substr_b}
use durodbms.Obj.Builtins.Integers.{exact, int_operators-exact}
use durodbms.Prelude.{
  Option, [], arith, err, invalid_argument, negsuc, none, ok, pos, refl, some,
  type_constraint_violation, ℕ, ◌*ℤ◌, ◌+ℤ◌, ◌-ℤ◌, ◌<◌, ◌∷◌, ◌≡◌, ◌⊎◌,
}

builtin_runs : Unit {0}
unfolding add_int subtract_int negate_int multiply_int divide_int modulo abs_int begins strstr
    op_strlen_b op_concat op_starts_with op_strfind_b op_strfind_b_pos op_substr_b
    op_substr_b_remaining skip_chars span_chars op_substr
builtin_runs = tt

int_operators-exact_example :
    (add_int int_max (pos 1) ≡ some (exact (int_max +ℤ pos 1)))
    × (subtract_int int_max (pos 1) ≡ some (exact (int_max -ℤ pos 1)))
    × (negate_int int_max ≡ some (exact (pos 0 -ℤ int_max)))
    × (multiply_int int_max (pos 1) ≡ some (exact (int_max *ℤ pos 1)))
int_operators-exact_example = int_operators-exact int_max (pos 1) refl refl

too_large : add_int int_max (pos 1) ≡ some (err type_constraint_violation)
unfolding builtin_runs
too_large = refl

negated : negate_int int_min ≡ some (err type_constraint_violation)
unfolding builtin_runs
negated = refl

divide_int-modulo_example :
    Division (negsuc 6) (pos 2) (divide_int (negsuc 6) (pos 2)) (modulo (negsuc 6) (pos 2))
divide_int-modulo_example = divide_int-modulo (negsuc 6) (pos 2) refl refl

-- -7 / 2 is -3, and the remainder -1.
towards_zero :
    (divide_int (negsuc 6) (pos 2) ≡ some (ok (negsuc 2)))
    × (modulo (negsuc 6) (pos 2) ≡ some (ok (negsuc 0)))
unfolding builtin_runs
towards_zero = (refl, refl)

undefined : (divide_int int_min (negsuc 0) ≡ none) × (abs_int int_min ≡ none)
unfolding builtin_runs
undefined = (refl, refl)

-- "abab" and "ba"
abbrev abab : Str
abab = 97 ∷ 98 ∷ 97 ∷ 98 ∷ []

abbrev ba : Str
ba = 98 ∷ 97 ∷ []

op_strfind_b-op_substr_b_example :
    ((op_strfind_b abab ba ≡ negsuc 0) × ((i : ℕ) → ¬ Occurs abab ba i))
    ⊎ ((i : ℕ) × (op_strfind_b abab ba ≡ pos i)
        × Occurs abab ba i
        × ((j : ℕ) → j < i → ¬ Occurs abab ba j)
        × (op_substr_b abab (op_strfind_b abab ba) (op_strlen_b ba) ≡ some (ok ba)))
op_strfind_b-op_substr_b_example = op_strfind_b-op_substr_b abab ba (omega arith)

found_at_one : (op_strfind_b abab ba ≡ pos 1) × (op_strfind_b ba abab ≡ negsuc 0)
unfolding builtin_runs
found_at_one = (refl, refl)

found_from :
    (op_strfind_b_pos abab (97 ∷ []) (pos 1) ≡ ok (pos 2))
    × (op_strfind_b_pos abab (97 ∷ []) (pos 5) ≡ err invalid_argument)
unfolding builtin_runs
found_from = (refl, refl)

-- Each byte is a character.
abbrev one_byte_chars : Str → Option ℕ
one_byte_chars [] = some 0
one_byte_chars (c ∷ s) = some 1

-- At the end of a string `op_substr` refuses the empty substring that `op_substr_b` gives.
at_the_end :
    (op_substr one_byte_chars abab (pos 1) (pos 2) ≡ ok (98 ∷ 97 ∷ []))
    × (op_substr one_byte_chars abab (pos 4) (pos 0) ≡ err invalid_argument)
    × (op_substr_b abab (pos 4) (pos 0) ≡ some (ok []))
unfolding builtin_runs
at_the_end = (refl, refl, refl)
