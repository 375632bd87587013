-- ===== src/Obj/Types/Operations/Union.antt =====
-- The type of a JOIN, `RDB_union_tuple_types` of duro/obj/type.c.
use durodbms.Gen.Strings.{Str, str_equal, str_equal_sound, str_equal_refl}
use durodbms.Obj.Types.{Attrs, RdbType, attr, find_attr, no_attrs, tuple, type_equals}
use durodbms.Obj.Types.Lookup.{
  AreProper, IsProper, absent_none, append_attrs-AreProper, copy_types-AreProper,
  dup_nonscalar_type-IsProper, find_attr-append_attrs, or_else,
}
use durodbms.Obj.Types.Operations.{
  add_attrs, append_attrs, dup_nonscalar_type, tuple_attrs, union_tuple_types,
}
use durodbms.Prelude.{
  Bool-cases, Option-cases, arith, err, false, if◌then◌else◌, inl, inr, none, ok, refl, some, subst,
  true, type_mismatch, ◌>>=◌, ◌≡◌, ◌⊎◌,
}

-- Attributes of the same name have equal types.
abbrev pub Agree : Attrs → Attrs → Type 0
Agree xs ys =
    (n : Str) (t u : RdbType)
    → find_attr xs n ≡ some u
    → find_attr ys n ≡ some t
    → type_equals t u ≡ true

abbrev pub Clash : Attrs → Attrs → Type 0
Clash xs ys =
    (n : Str) × (t : RdbType) × (u : RdbType) × (find_attr xs n ≡ some u)
    × (find_attr ys n ≡ some t)
    × (type_equals t u ≡ false)

-- The attributes of `ys` whose names are not in `xs`.
abbrev pub Added : Attrs → Attrs → Attrs → Type 0
Added xs ys zs =
    AreProper zs
    × ((n : Str) → find_attr zs n ≡ elim (find_attr xs n) [ none ↦ find_attr ys n | some u ↦ none ])

Agree-attr :
    (xs ys : Attrs) (m : Str) (t u : RdbType)
    → Agree xs ys
    → find_attr xs m ≡ some u
    → type_equals t u ≡ true
    → Agree xs (attr m t ys)
unfolding find_attr
Agree-attr xs ys m t u agree there e n t' u' f g = elim (Bool-cases (str_equal m n)) [
  | inl s ↦
      let moved = rw (str_equal_sound m n s) at there in
      let same : u ≡ u' = ground (arith, moved, f) in
      let same' : t ≡ t' = ground (arith, g, s) in
      subst (λ r. type_equals r u' ≡ true) same' (subst (λ r. type_equals t r ≡ true) same e)
  | inr s ↦ agree n t' u' f (ground (arith, g, s))
]

Clash-attr :
    (xs ys : Attrs) (m : Str) (t : RdbType)
    → find_attr ys m ≡ none
    → Clash xs ys
    → Clash xs (attr m t ys)
unfolding find_attr
Clash-attr xs ys m t fresh (n, t', u, f, g, e) = (
  n,
  t',
  u,
  f,
  elim (Bool-cases (str_equal m n)) [
    | inl s ↦ absurd (absent_none ys m n t' (str_equal_sound m n s) fresh g)
    | inr s ↦ rw (s, find_attr) g
  ],
  e,
)

AddEnds : Attrs → Attrs → Type 0
AddEnds xs ys =
    ((zs : Attrs) × (add_attrs xs ys ≡ ok zs) × Added xs ys zs × Agree xs ys)
    ⊎ ((add_attrs xs ys ≡ err type_mismatch) × Clash xs ys)

Added-attr :
    (xs ys zs : Attrs) (n : Str) (t : RdbType)
    → find_attr xs n ≡ none
    → find_attr ys n ≡ none
    → IsProper t
    → Added xs ys zs
    → Added xs (attr n t ys) (attr n t zs)
unfolding find_attr IsProper
Added-attr xs ys zs n t new fresh p (proper, reads) = (
  (rw (reads n, new, fresh) refl, p, proper),
  λ m. elim (Bool-cases (str_equal n m)) [
    | inl e ↦ let absent = rw (str_equal_sound n m e) at new in ground (arith, e, absent)
    | inr e ↦ ground (arith, e, reads m)
  ],
)

Added-present :
    (xs ys zs : Attrs) (n : Str) (t u : RdbType)
    → find_attr xs n ≡ some u
    → Added xs ys zs
    → Added xs (attr n t ys) zs
unfolding find_attr
Added-present xs ys zs n t u there (proper, reads) = (
  proper,
  λ m. elim (Bool-cases (str_equal n m)) [
    | inl e ↦ let present = rw (str_equal_sound n m e) at there in ground (arith, reads m, present)
    | inr e ↦ ground (arith, e, reads m)
  ],
)

Agree-new :
    (xs ys : Attrs) (m : Str) (t : RdbType)
    → find_attr xs m ≡ none
    → Agree xs ys
    → Agree xs (attr m t ys)
unfolding find_attr
Agree-new xs ys m t new agree n t' u' f g = elim (Bool-cases (str_equal m n)) [
  | inl s ↦ absurd (absent_none xs m n u' (str_equal_sound m n s) new f)
  | inr s ↦ agree n t' u' f (ground (arith, g, s))
]

add_new :
    (xs ys : Attrs) (m : Str) (t : RdbType)
    → find_attr xs m ≡ none
    → add_attrs xs (attr m t ys)
      ≡ (dup_nonscalar_type t >>= (λ u. add_attrs xs ys >>= (λ zs. ok (attr m u zs))))
unfolding add_attrs
add_new xs ys m t new = ground (arith, new)

add_present :
    (xs ys : Attrs) (m : Str) (t u : RdbType)
    → find_attr xs m ≡ some u
    → add_attrs xs (attr m t ys) ≡ (if type_equals t u then add_attrs xs ys else err type_mismatch)
unfolding add_attrs
add_present xs ys m t u there = ground (arith, there)

add_attrs-ends : (xs ys : Attrs) → AreProper ys → AddEnds xs ys
unfolding add_attrs AddEnds IsProper find_attr
add_attrs-ends xs no_attrs p =
    inl (no_attrs, refl, (tt, λ n. ground arith), λ n t u f g. absurd (ground (arith, g)))
add_attrs-ends xs (attr m t ys) p = elim (Option-cases (find_attr xs m)) [
  | inl new ↦ elim (add_attrs-ends xs ys p.2) [
    | inl (zs, run, a, agree) ↦ inl (
      attr m t zs,
      rw (add_new xs ys m t new, dup_nonscalar_type-IsProper t p.1, run) refl,
      Added-attr xs ys zs m t new p.0 p.1 a,
      Agree-new xs ys m t new agree,
    )
    | inr (run, clash) ↦ inr (
      rw (add_new xs ys m t new, dup_nonscalar_type-IsProper t p.1, run) refl,
      Clash-attr xs ys m t p.0 clash,
    )
  ]
  | inr (u, there) ↦ elim (Bool-cases (type_equals t u)) [
    | inr e ↦ inr (
      rw (add_present xs ys m t u there, e) refl,
      (m, t, u, there, rw (str_equal_refl m) refl, e),
    )
    | inl e ↦ elim (add_attrs-ends xs ys p.2) [
      | inl (zs, run, a, agree) ↦ inl (
        zs,
        rw (add_present xs ys m t u there, e) run,
        Added-present xs ys zs m t u there a,
        Agree-attr xs ys m t u agree there e,
      )
      | inr (run, clash) ↦
          inr (rw (add_present xs ys m t u there, e) run, Clash-attr xs ys m t p.0 clash)
    ]
  ]
]

-- The tuple type `zs` holds the attributes of both, each once.
abbrev pub Joins : Attrs → Attrs → Attrs → Type 0
Joins xs ys zs =
    AreProper zs × ((n : Str) → find_attr zs n ≡ or_else (find_attr xs n) (find_attr ys n))

-- `RDB_union_tuple_types` of two tuple types that hold no name twice either returns the tuple type
-- of the attributes of both, which holds no name twice, and then attributes of the same name have
-- equal types; or it reports a type mismatch, and then two attributes of the same name have types
-- that are not equal.
pub union_tuple_types-Joins :
    (xs ys : Attrs)
    → AreProper xs
    → AreProper ys
    → ((zs : Attrs) × (union_tuple_types (tuple xs) (tuple ys) ≡ ok (tuple zs))
        × Joins xs ys zs
        × Agree xs ys)
      ⊎ ((union_tuple_types (tuple xs) (tuple ys) ≡ err type_mismatch) × Clash xs ys)
unfolding union_tuple_types tuple_attrs AddEnds
union_tuple_types-Joins xs ys p q = elim (add_attrs-ends xs ys q) [
  | inl (zs, run, (proper, reads), agree) ↦ inl (
    append_attrs xs zs,
    rw (copy_types-AreProper xs p, run) refl,
    (
      append_attrs-AreProper xs zs p proper (λ n t f. ground (arith, reads n, f)),
      λ n. ground (arith, find_attr-append_attrs xs zs n, reads n),
    ),
    agree,
  )
  | inr (run, clash) ↦ inr (rw (copy_types-AreProper xs p, run) refl, clash)
]
