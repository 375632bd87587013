-- ===== src/Obj/Types/Lookup.antt =====
-- Lists of attributes of duro/obj/type.c as finite maps from names to types, and types whose
-- tuple types hold no name twice.
use durodbms.Gen.Strings.{Str, str_equal, str_equal_sound, str_equal_refl, str_equal_symm}
use durodbms.Obj.Types.{
  Attrs, RdbType, array, attr, attr_count, find_attr, no_attrs, relation, scalar, tuple,
}
use durodbms.Obj.Types.Nesting.{keep}
use durodbms.Obj.Types.Operations.{append_attrs, copy_types, dup_nonscalar_type, new_attrs}
use durodbms.Prelude.{
  Bool, Bool-cases, Option, Option-cases, ap, arith, false, if◌then◌else◌, inl, inr, none, not, ok,
  refl, some, subst, ◌+◌, ◌>>=◌, ◌≡◌, ◌≢◌,
}

unfoldable mutual
  -- No tuple type inside the type has two attributes of the same name.
  pub IsProper : RdbType → Type 0
  IsProper (scalar s sup reps) = Unit
  IsProper (tuple xs) = AreProper xs
  IsProper (relation t) = IsProper t
  IsProper (array t) = IsProper t

  pub AreProper : Attrs → Type 0
  AreProper no_attrs = Unit
  AreProper (attr n t xs) = (find_attr xs n ≡ none) × IsProper t × AreProper xs

-- One round of the loop of `RDB_new_tuple_type`, on a name that is new.
new_attrs_step :
    (n : Str) (t : RdbType) (xs : Attrs)
    → find_attr xs n ≡ none
    → new_attrs (attr n t xs)
      ≡ (dup_nonscalar_type t >>= (λ u. new_attrs xs >>= (λ ys. ok (attr n u ys))))
unfolding dup_nonscalar_type
new_attrs_step n t xs p = ground (arith, p)

mutual
  unfolding IsProper dup_nonscalar_type

  dup_proper : (t : RdbType) → IsProper t → dup_nonscalar_type t ≡ ok t
  dup_proper (scalar s sup reps) p = refl
  dup_proper (tuple xs) p = rw (news_proper xs p) refl
  dup_proper (relation t) p = rw (dup_proper t p) refl
  dup_proper (array t) p = rw (dup_proper t p) refl

  news_proper : (xs : Attrs) → AreProper xs → new_attrs xs ≡ ok xs
  news_proper no_attrs p = refl
  news_proper (attr n t xs) p =
      rw (new_attrs_step n t xs p.0, dup_proper t p.1, news_proper xs p.2) refl

pub dup_nonscalar_type-IsProper : (t : RdbType) → IsProper t → dup_nonscalar_type t ≡ ok t
dup_nonscalar_type-IsProper t p = dup_proper t p

pub new_attrs-AreProper : (xs : Attrs) → AreProper xs → new_attrs xs ≡ ok xs
new_attrs-AreProper xs p = news_proper xs p

pub copy_types-AreProper : (xs : Attrs) → AreProper xs → copy_types xs ≡ ok xs
unfolding copy_types IsProper
copy_types-AreProper no_attrs p = refl
copy_types-AreProper (attr n t xs) p =
    rw (dup_nonscalar_type-IsProper t p.1, copy_types-AreProper xs p.2) refl

-- The first of two results.
abbrev pub or_else : Option RdbType → Option RdbType → Option RdbType
or_else none o = o
or_else (some t) o = some t

pub or_else-none : (o : Option RdbType) → or_else o none ≡ o
or_else-none none = refl
or_else-none (some t) = refl

pub find_attr-append_attrs :
    (xs ys : Attrs) (n : Str)
    → find_attr (append_attrs xs ys) n ≡ or_else (find_attr xs n) (find_attr ys n)
unfolding find_attr append_attrs
find_attr-append_attrs no_attrs ys n = refl
find_attr-append_attrs (attr m t xs) ys n = elim (Bool-cases (str_equal m n)) [
  | inl e ↦ rw e refl
  | inr e ↦ rw (e, find_attr-append_attrs xs ys n) refl
]

pub attr_count-append_attrs :
    (xs ys : Attrs) → attr_count (append_attrs xs ys) ≡ attr_count xs + attr_count ys
unfolding attr_count append_attrs
attr_count-append_attrs no_attrs ys = omega arith
attr_count-append_attrs (attr n t xs) ys = omega (arith, attr_count-append_attrs xs ys)

-- Lists of attributes without a common name.
abbrev pub NoCommonName : Attrs → Attrs → Type 0
NoCommonName xs ys = (n : Str) (t : RdbType) → find_attr xs n ≡ some t → find_attr ys n ≡ none

pub absent_none :
    (xs : Attrs) (n m : Str) (u : RdbType)
    → n ≡ m
    → find_attr xs n ≡ none
    → find_attr xs m ≡ some u
    → ⊥
absent_none xs n m u e p q = cc (p, q, ap (find_attr xs) e)

pub append_attrs-AreProper :
    (xs ys : Attrs)
    → AreProper xs
    → AreProper ys
    → NoCommonName xs ys
    → AreProper (append_attrs xs ys)
unfolding append_attrs find_attr IsProper
append_attrs-AreProper no_attrs ys p q apart = q
append_attrs-AreProper (attr n t xs) ys p q apart =
    let fresh = apart n t (rw (str_equal_refl n) refl) in
    (
      rw (find_attr-append_attrs xs ys n, p.0, fresh) refl,
      p.1,
      append_attrs-AreProper xs ys p.2 q (λ m u found. elim (Bool-cases (str_equal n m)) [
        | inl e ↦ absurd (absent_none xs n m u (str_equal_sound n m e) p.0 found)
        | inr e ↦ apart m u (rw e found)
      ]),
    )

pub find_attr-keep :
    (test : Str → Bool) (xs : Attrs) (n : Str)
    → find_attr (keep test xs) n ≡ (if test n then find_attr xs n else none)
unfolding find_attr keep
find_attr-keep test no_attrs n = ground arith
find_attr-keep test (attr m t xs) n = elim (Bool-cases (str_equal m n)) [
  | inl e ↦
      let same = ap test (str_equal_sound m n e) in
      ground (arith, e, same, find_attr-keep test xs n)
  | inr e ↦ ground (arith, e, find_attr-keep test xs n)
]

pub keep-AreProper : (test : Str → Bool) (xs : Attrs) → AreProper xs → AreProper (keep test xs)
unfolding keep IsProper
keep-AreProper test no_attrs p = tt
keep-AreProper test (attr n t xs) p = elim (Bool-cases (test n)) [
  | inl e ↦
      rw (e, keep) (rw (find_attr-keep test xs n, p.0, e) refl, p.1, keep-AreProper test xs p.2)
  | inr e ↦ rw (e, keep) (keep-AreProper test xs p.2)
]

-- The list without one name.
abbrev pub without : Str → Attrs → Attrs
without n xs = keep (λ m. not (str_equal n m)) xs

without_absent :
    (n : Str) (xs : Attrs) → find_attr xs n ≡ none → attr_count (without n xs) ≡ attr_count xs
unfolding find_attr keep attr_count
without_absent n no_attrs p = refl
without_absent n (attr m t xs) p = ground (arith, p, str_equal_symm m n, without_absent n xs)

pub attr_count-without :
    (n : Str) (t : RdbType) (xs : Attrs)
    → AreProper xs
    → find_attr xs n ≡ some t
    → attr_count (without n xs) + 1 ≡ attr_count xs
unfolding find_attr keep attr_count IsProper
attr_count-without n t no_attrs p h = absurd (ground arith)
attr_count-without n t (attr m u xs) p h = elim (Bool-cases (str_equal m n)) [
  | inl e ↦
      let gone : find_attr xs n ≡ none = rw (← str_equal_sound m n e) p.0 in
      ground (arith, e, str_equal_symm m n, without_absent n xs gone)
  | inr e ↦ ground (arith, e, str_equal_symm m n, attr_count-without n t xs p.2, h)
]

-- If the names of one list are among those of another that is no longer, they are the same names.
pub same_names :
    (xs ys : Attrs)
    → AreProper xs
    → AreProper ys
    → attr_count xs ≡ attr_count ys
    → ((n : Str) (t : RdbType) → find_attr xs n ≡ some t → find_attr ys n ≢ none)
    → (n : Str) → find_attr xs n ≡ none
    → find_attr ys n ≡ none
unfolding find_attr attr_count IsProper
same_names no_attrs no_attrs p q c sub n h = refl
same_names no_attrs (attr m u ys) p q c sub n h = absurd (omega arith)
same_names (attr m t xs) ys p q c sub n h = elim (Option-cases (find_attr ys m)) [
  | inl e ↦ absurd (sub m t (rw (str_equal_refl m) refl) e)
  | inr (u, e) ↦
      let apart : str_equal m n ≡ false = ground (arith, h) in
      let rest =
        same_names xs (without m ys) p.2 (keep-AreProper (λ k. not (str_equal m k)) ys q)
          (omega (arith, c, attr_count-without m u ys q e))
          (λ k v found gone.
            let ne : str_equal m k ≡ false = elim (Bool-cases (str_equal m k)) [
              | inl s ↦ absurd (absent_none xs m k v (str_equal_sound m k s) p.0 found)
              | inr s ↦ s
            ] in
            sub k v (rw ne found)
              (ground (arith, gone, ne, find_attr-keep (λ k. not (str_equal m k)) ys k)))
          n (ground (arith, h)) in
      ground (arith, rest, apart, find_attr-keep (λ k. not (str_equal m k)) ys n)
]

-- Two lists with the same lookups are equally long.
pub attr_count_ext :
    (xs ys : Attrs)
    → AreProper xs
    → AreProper ys
    → ((n : Str) → find_attr xs n ≡ find_attr ys n)
    → attr_count xs ≡ attr_count ys
unfolding find_attr attr_count IsProper
attr_count_ext no_attrs no_attrs p q same = refl
attr_count_ext no_attrs (attr m u ys) p q same = absurd (ground (arith, same m, str_equal_refl m))
attr_count_ext (attr m t xs) ys p q same =
    let there : find_attr ys m ≡ some t = ground (arith, same m, str_equal_refl m) in
    let rest =
      attr_count_ext xs (without m ys) p.2 (keep-AreProper (λ k. not (str_equal m k)) ys q) (λ k.
        elim (Bool-cases (str_equal m k)) [
          | inl e ↦
              let none_here = rw (str_equal_sound m k e) at p.0 in
              ground (arith, none_here, e, find_attr-keep (λ k. not (str_equal m k)) ys k)
          | inr e ↦ ground (arith, same k, e, find_attr-keep (λ k. not (str_equal m k)) ys k)
        ]) in
    omega (arith, rest, attr_count-without m t ys q there)

pub find_attr-IsProper :
    (xs : Attrs) (n : Str) (t : RdbType) → AreProper xs → find_attr xs n ≡ some t → IsProper t
unfolding find_attr IsProper
find_attr-IsProper no_attrs n t p h = absurd (ground arith)
find_attr-IsProper (attr m u xs) n t p h = elim (Bool-cases (str_equal m n)) [
  | inl e ↦ let same : u ≡ t = ground (arith, e) in subst IsProper same p.1
  | inr e ↦ find_attr-IsProper xs n t p.2 (ground (arith, e))
]

-- What the rest of a list holds, the list holds.
pub find_attr_rest :
    (m : Str) (t : RdbType) (xs : Attrs) (n : Str) (u : RdbType)
    → find_attr xs m ≡ none
    → find_attr xs n ≡ some u
    → find_attr (attr m t xs) n ≡ some u
unfolding find_attr
find_attr_rest m t xs n u fresh f = elim (Bool-cases (str_equal m n)) [
  | inl e ↦ absurd (absent_none xs m n u (str_equal_sound m n e) fresh f)
  | inr e ↦ ground (arith, e, f)
]
