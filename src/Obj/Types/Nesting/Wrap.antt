-- ===== src/Obj/Types/Nesting/Wrap.antt =====
-- The type of a WRAP, `RDB_wrap_tuple_type` of duro/obj/type.c.
use durodbms.Gen.Strings.{is_listed}
use durodbms.Gen.Strings.{Str, find_str}
use durodbms.Obj.Types.{Attrs, RdbType, attr, attr_count, find_attr, no_attrs, tuple}
use durodbms.Obj.Types.Lookup.{
  AreProper, IsProper, NoCommonName, append_attrs-AreProper, attr_count-append_attrs,
  attr_count_ext, find_attr-IsProper, find_attr-append_attrs, find_attr-keep, keep-AreProper,
}
use durodbms.Obj.Types.Nesting.{
  Wrapping, copy_into, in_wrappings, keep, wrap_attrs, wrap_from, wrap_total, wrap_tuple_type,
  wrapped_attrs,
}
use durodbms.Obj.Types.Nesting.Picks.{
  AreAttrs, DistinctNames, Picks, Picks-cons, Picks-nil, copy_attr-IsProper, is_listed-cons,
}
use durodbms.Obj.Types.Operations.{append_attrs, tuple_attrs}
use durodbms.Prelude.{
  ==_refl, List, Option-cases, [], ap, arith, fun_ext, if◌then◌else◌, inl, inr, length,
  length-append, le→ltb_false, lt→ltb, none, not, ok, refl, some, subst, suc, sym, true, ℕ, ◌++◌,
  ◌+◌, ◌-◌, ◌∙◌, ◌∷◌, ◌≡◌, ◌≤◌,
}

-- The attributes named, with their types.
abbrev pub picked : Attrs → List Str → Attrs
picked xs [] = no_attrs
picked xs (n ∷ names) =
    let rest = picked xs names in elim (find_attr xs n) [ none ↦ rest | some t ↦ attr n t rest ]

-- The tuple-valued attributes of a WRAP.
abbrev pub wrapped : Attrs → List Wrapping → Attrs
wrapped xs [] = no_attrs
wrapped xs (w ∷ wrapv) = attr w.attrname (tuple (picked xs w.attrs)) (wrapped xs wrapv)

-- All names that are wrapped.
abbrev pub wrapped_names : List Wrapping → List Str
wrapped_names [] = []
wrapped_names (w ∷ wrapv) = w.attrs ++ wrapped_names wrapv

pub is_listed-append :
    (names names' : List Str) (m : Str)
    → is_listed (names ++ names') m ≡ (if is_listed names m then true else is_listed names' m)
unfolding find_str
is_listed-append [] names' m = refl
is_listed-append (n ∷ names) names' m = ground (
  arith,
  is_listed-cons n names m,
  is_listed-cons n (names ++ names') m,
  is_listed-append names names' m,
)

AreAttrs-append :
    (xs : Attrs) (names names' : List Str)
    → AreAttrs xs (names ++ names')
    → AreAttrs xs names × AreAttrs xs names'
AreAttrs-append xs [] names' a = (tt, a)
AreAttrs-append xs (n ∷ names) names' a =
    let (b, c) = AreAttrs-append xs names names' a.1 in ((a.0, b), c)

pick_gone :
    (xs : Attrs) (n : Str) (names : List Str)
    → find_attr xs n ≡ none
    → picked xs (n ∷ names) ≡ picked xs names
pick_gone xs n names e = ground (arith, e)

pick_found :
    (xs : Attrs) (n : Str) (names : List Str) (t : RdbType)
    → find_attr xs n ≡ some t
    → picked xs (n ∷ names) ≡ attr n t (picked xs names)
pick_found xs n names t e = ground (arith, e)

pub picked-append :
    (xs : Attrs) (names names' : List Str)
    → picked xs (names ++ names') ≡ append_attrs (picked xs names) (picked xs names')
unfolding append_attrs
picked-append xs [] names' = refl
picked-append xs (n ∷ names) names' = elim (Option-cases (find_attr xs n)) [
  | inl e ↦
      pick_gone xs n (names ++ names') e
      ∙ picked-append xs names names'
      ∙ ap (λ z. append_attrs z (picked xs names')) (sym (pick_gone xs n names e))
  | inr (t, e) ↦
      pick_found xs n (names ++ names') t e
      ∙ ap (attr n t) (picked-append xs names names')
      ∙ ap (λ z. append_attrs z (picked xs names')) (sym (pick_found xs n names t e))
]

pub picked-Picks :
    (xs : Attrs) (names : List Str)
    → AreProper xs
    → DistinctNames names
    → AreAttrs xs names
    → Picks xs names (picked xs names)
picked-Picks xs [] p d a = Picks-nil xs
picked-Picks xs (n ∷ names) p d a = elim (Option-cases (find_attr xs n)) [
  | inl gone ↦ absurd (a.0 gone)
  | inr (t, there) ↦ subst (Picks xs (n ∷ names)) (sym (pick_found xs n names t there)) (
      Picks-cons xs n names t (picked xs names) d.0 there (find_attr-IsProper xs n t p there)
        (picked-Picks xs names p d.1 a.1))
]

wrapped_attrs_lem :
    (xs : Attrs) (names : List Str)
    → AreProper xs
    → AreAttrs xs names
    → wrapped_attrs xs names ≡ ok (picked xs names)
unfolding wrapped_attrs
wrapped_attrs_lem xs [] p a = refl
wrapped_attrs_lem xs (n ∷ names) p a = elim (Option-cases (find_attr xs n)) [
  | inl gone ↦ absurd (a.0 gone)
  | inr (t, there) ↦ ground (
    arith,
    there,
    copy_attr-IsProper t (find_attr-IsProper xs n t p there),
    wrapped_attrs_lem xs names p a.1,
  )
]

wrap_from_lem :
    (n k : ℕ) (xs : Attrs) (wrapv : List Wrapping)
    → AreProper xs
    → AreAttrs xs (wrapped_names wrapv)
    → k + length wrapv ≤ n
    → wrap_from n k xs wrapv ≡ ok (wrapped xs wrapv)
unfolding wrap_from
wrap_from_lem n k xs [] p a room = refl
wrap_from_lem n k xs (w ∷ wrapv) p a room =
    let (b, c) = AreAttrs-append xs w.attrs (wrapped_names wrapv) a in
    rw
      (
        wrapped_attrs_lem xs w.attrs p b,
        lt→ltb k n (omega arith),
        wrap_from_lem n (k + 1) xs wrapv p c (omega arith),
      )
      refl

-- Within its array a copy succeeds.
pub copy_into-AreProper :
    (n k : ℕ) (xs : Attrs) → AreProper xs → k + attr_count xs ≤ n → copy_into n k xs ≡ ok xs
unfolding copy_into IsProper attr_count
copy_into-AreProper n k no_attrs p room = refl
copy_into-AreProper n k (attr m t xs) p room =
    rw
      (
        lt→ltb k n (omega arith),
        copy_attr-IsProper t p.1,
        copy_into-AreProper n (k + 1) xs p.2 (omega arith),
      )
      refl

in_wrappings-is_listed :
    (wrapv : List Wrapping) (m : Str) → in_wrappings wrapv m ≡ is_listed (wrapped_names wrapv) m
unfolding in_wrappings find_str
in_wrappings-is_listed [] m = refl
in_wrappings-is_listed (w ∷ wrapv) m =
    ground (arith, in_wrappings-is_listed wrapv m, is_listed-append w.attrs (wrapped_names wrapv) m)

wrap_total-length : (wrapv : List Wrapping) → wrap_total wrapv ≡ length (wrapped_names wrapv)
unfolding wrap_total
wrap_total-length [] = refl
wrap_total-length (w ∷ wrapv) =
    omega (arith, wrap_total-length wrapv, length-append w.attrs (wrapped_names wrapv))

pub attr_count-wrapped :
    (xs : Attrs) (wrapv : List Wrapping) → attr_count (wrapped xs wrapv) ≡ length wrapv
unfolding attr_count
attr_count-wrapped xs [] = refl
attr_count-wrapped xs (w ∷ wrapv) = ap suc (attr_count-wrapped xs wrapv)

-- The attributes that are not wrapped.
abbrev pub unlisted : Attrs → List Str → Attrs
unlisted xs names = keep (λ m. not (is_listed names m)) xs

pub unlisted_parts :
    (xs gs : Attrs) (names : List Str)
    → AreProper xs
    → Picks xs names gs
    → AreProper (append_attrs gs (unlisted xs names))
      × ((n : Str) → find_attr (append_attrs gs (unlisted xs names)) n ≡ find_attr xs n)
      × (length names + attr_count (unlisted xs names) ≡ attr_count xs)
unlisted_parts xs gs names p g =
    let kept : AreProper (unlisted xs names) = keep-AreProper (λ m. not (is_listed names m)) xs p in
    let apart : NoCommonName gs (unlisted xs names) =
      λ n t f. ground (arith, g.reads n, f, find_attr-keep (λ m. not (is_listed names m)) xs n) in
    let whole : (n : Str) → find_attr (append_attrs gs (unlisted xs names)) n ≡ find_attr xs n =
      λ n. ground (
        arith,
        find_attr-append_attrs gs (unlisted xs names) n,
        g.reads n,
        find_attr-keep (λ m. not (is_listed names m)) xs n,
      ) in
    let proper = append_attrs-AreProper gs (unlisted xs names) g.proper kept apart in
    (
      proper,
      whole,
      omega (
        arith,
        attr_count_ext (append_attrs gs (unlisted xs names)) xs proper p whole,
        attr_count-append_attrs gs (unlisted xs names),
        g.count,
      ),
    )

-- The attributes of a wrapped type.
abbrev pub wrapping : Attrs → List Wrapping → Attrs
wrapping xs wrapv = append_attrs (wrapped xs wrapv) (unlisted xs (wrapped_names wrapv))

-- A wrapping of distinct names of attributes succeeds and stays within its arrays.
pub wrap_tuple_type_lem :
    (xs : Attrs) (wrapv : List Wrapping)
    → AreProper xs
    → DistinctNames (wrapped_names wrapv)
    → AreAttrs xs (wrapped_names wrapv)
    → wrap_tuple_type (tuple xs) wrapv ≡ ok (tuple (wrapping xs wrapv))
unfolding wrap_tuple_type wrap_attrs tuple_attrs
wrap_tuple_type_lem xs wrapv p d a =
    let names = wrapped_names wrapv in
    let (whole, same, parts) =
      unlisted_parts xs (picked xs names) names p (picked-Picks xs names p d a) in
    let total : wrap_total wrapv ≡ length names = wrap_total-length wrapv in
    let n = attr_count xs + length wrapv - wrap_total wrapv in
    let test : keep (λ m. not (in_wrappings wrapv m)) xs ≡ unlisted xs names =
      ap (λ f. keep f xs) (fun_ext (λ m. ap not (in_wrappings-is_listed wrapv m))) in
    let kept = keep-AreProper (λ m. not (is_listed names m)) xs p in
    rw
      (
        le→ltb_false (attr_count xs + length wrapv) (wrap_total wrapv) (omega arith),
        wrap_from_lem n 0 xs wrapv p a (omega arith),
        test,
        copy_into-AreProper n (length wrapv) (unlisted xs names) kept (omega arith),
        ==_refl (attr_count (wrapping xs wrapv)) n (
            omega (
              arith,
              attr_count-append_attrs (wrapped xs wrapv) (unlisted xs names),
              attr_count-wrapped xs wrapv,
            )),
      )
      refl
