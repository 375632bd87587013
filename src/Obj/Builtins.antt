-- ===== src/Obj/Builtins.antt =====
-- The built-in operators of duro/obj/builtinscops.c on integers and on the bytes of strings. The
-- result of an operation on `int` that leaves its range is undefined in C: it is `none` here. A
-- string is shorter than 2 ^ 31 bytes and has no terminator here; `strstr` and `strncmp` are those
-- of <string.h>, `mblen` is an argument. There is memory for every result.
pub mod Integers
pub mod Division
pub mod Find
use durodbms.Gen.Strings.{Str}
use durodbms.Prelude.{
  Bool, Option, Result, [], drop, eq_ℤ, err, false, if◌then◌else◌, in_int32, in_int64,
  invalid_argument, leb, length, ltb, ltb_ℤ, neg_part, negsuc, none, ok, pos, pos_part, quotient,
  remainder, some, suc, take, true, type_constraint_violation, zero, ℕ, ℤ, ◌*ℤ◌, ◌++◌, ◌+ℤ◌, ◌+◌,
  ◌-ℤ◌, ◌==◌, ◌>>=?◌, ◌||◌, ◌∷◌,
}

-- `RDB_INT_MAX` and `RDB_INT_MIN`
abbrev pub int_max : ℤ
int_max = pos 2147483647

abbrev pub int_min : ℤ
int_min = negsuc 2147483647

-- The value of an operation on `int`.
abbrev pub checked32 : ℤ → Option ℤ
checked32 z = if in_int32 z then some z else none

abbrev pub returns : Option ℤ → Option (Result ℤ)
returns v = v >>=? (λ z. some (ok z))

unfoldable pub negate_int : ℤ → Option (Result ℤ)
negate_int a =
    if eq_ℤ a int_min
    then some (err type_constraint_violation)
    else returns (checked32 (pos 0 -ℤ a))

unfoldable pub add_int : ℤ → ℤ → Option (Result ℤ)
add_int a b =
    if ltb_ℤ (pos 0) b
    then checked32 (int_max -ℤ b) >>=? (λ limit.
      if ltb_ℤ limit a then some (err type_constraint_violation) else returns (checked32 (a +ℤ b)))
    else checked32 (int_min -ℤ b) >>=? (λ limit.
      if ltb_ℤ a limit then some (err type_constraint_violation) else returns (checked32 (a +ℤ b)))

unfoldable pub subtract_int : ℤ → ℤ → Option (Result ℤ)
subtract_int a b =
    if ltb_ℤ (pos 0) b
    then checked32 (int_min +ℤ b) >>=? (λ limit.
      if ltb_ℤ a limit then some (err type_constraint_violation) else returns (checked32 (a -ℤ b)))
    else checked32 (int_max +ℤ b) >>=? (λ limit.
      if ltb_ℤ limit a then some (err type_constraint_violation) else returns (checked32 (a -ℤ b)))

-- The product is a `long long`.
abbrev pub checked64 : ℤ → Option ℤ
checked64 z = if in_int64 z then some z else none

unfoldable pub multiply_int : ℤ → ℤ → Option (Result ℤ)
multiply_int a b = checked64 (a *ℤ b) >>=? (λ prod.
    if ltb_ℤ int_max prod || ltb_ℤ prod int_min
    then some (err type_constraint_violation)
    else some (ok prod))

unfoldable pub divide_int : ℤ → ℤ → Option (Result ℤ)
divide_int a b =
    if eq_ℤ b (pos 0) then some (err invalid_argument) else returns (checked32 (quotient a b))

-- The remainder is undefined where the quotient is.
unfoldable pub modulo : ℤ → ℤ → Option (Result ℤ)
modulo a b =
    if eq_ℤ b (pos 0)
    then some (err invalid_argument)
    else checked32 (quotient a b) >>=? (λ q. some (ok (remainder a b)))

unfoldable pub abs_int : ℤ → Option ℤ
abs_int a = checked32 (pos (pos_part a + neg_part a))

unfoldable pub op_strlen_b : Str → ℤ
op_strlen_b s = pos (length s)

unfoldable pub op_concat : Str → Str → Str
op_concat s t = s ++ t

-- `strncmp(str, pref, strlen(pref)) == 0`
unfoldable pub begins : Str → Str → Bool
begins str [] = true
begins [] (c ∷ pref) = false
begins (d ∷ str) (c ∷ pref) = let rest = begins str pref in if d == c then rest else false

unfoldable pub op_starts_with : Str → Str → Bool
op_starts_with str pref = if ltb (length str) (length pref) then false else begins str pref

-- `strstr`, as the offset of what it points to.
unfoldable pub strstr : Str → Str → Option ℕ
strstr [] needle = if begins [] needle then some 0 else none
strstr (c ∷ haystack) needle =
    let rest = strstr haystack needle in
    if begins (c ∷ haystack) needle then some 0 else rest >>=? (λ i. some (suc i))

abbrev pub offset : ℕ → Option ℕ → ℤ
offset start none = negsuc 0
offset start (some i) = pos (start + i)

unfoldable pub op_strfind_b : Str → Str → ℤ
op_strfind_b haystack needle = offset 0 (strstr haystack needle)

unfoldable pub op_strfind_b_pos : Str → Str → ℤ → Result ℤ
op_strfind_b_pos haystack needle (negsuc n) = err invalid_argument
op_strfind_b_pos haystack needle (pos n) =
    if ltb (length haystack) n
    then err invalid_argument
    else ok (offset n (strstr (drop n haystack) needle))

unfoldable pub op_substr_b_remaining : Str → ℤ → Result Str
op_substr_b_remaining str (negsuc n) = err invalid_argument
op_substr_b_remaining str (pos n) =
    if ltb (length str) n then err invalid_argument else ok (drop n str)

unfoldable pub op_substr_b : Str → ℤ → ℤ → Option (Result Str)
op_substr_b str (negsuc n) len = some (err invalid_argument)
op_substr_b str (pos n) (negsuc l) = some (err invalid_argument)
op_substr_b str (pos n) (pos l) = checked32 (pos (n + l)) >>=? (λ end.
    if ltb (length str) (n + l)
    then some (err invalid_argument)
    else some (ok (take l (drop n str))))

module _ (mblen : Str → Option ℕ) where
  -- The first loop of `op_substr`: the offset of a character of the string.
  unfoldable pub skip_chars : ℕ → Str → ℕ → Option ℕ
  skip_chars zero str bstart = some bstart
  skip_chars (suc start) str bstart =
      if ltb bstart (length str)
      then mblen (drop bstart str) >>=? (λ cl. skip_chars start str (bstart + cl))
      else some bstart

  -- The second loop, from an offset on; it may count the terminator.
  unfoldable pub span_chars : ℕ → Str → ℕ → ℕ → Option ℕ
  span_chars zero str bstart blen = some blen
  span_chars (suc len) str bstart blen =
      if ltb (bstart + blen) (length str + 1)
      then mblen (drop (bstart + blen) str)
        >>=? (λ cl. span_chars len str bstart (blen + (if ltb 0 cl then cl else 1)))
      else some blen

  unfoldable pub op_substr : Str → ℤ → ℤ → Result Str
  op_substr str (pos start) (pos len) = elim (skip_chars start str 0) [
    | none ↦ err invalid_argument
    | some bstart ↦
        if leb (length str) bstart
        then err invalid_argument
        else elim (span_chars len str bstart 0) [
          | none ↦ err invalid_argument
          | some blen ↦
              if leb (length str + 1) (bstart + blen)
              then err invalid_argument
              else ok (take blen (drop bstart str))
        ]
  ]
  op_substr str start len = err invalid_argument
