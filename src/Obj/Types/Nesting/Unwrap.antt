-- ===== src/Obj/Types/Nesting/Unwrap.antt =====
-- UNWRAP after WRAP: `RDB_unwrap_tuple_type` and `RDB_wrap_tuple_type` of duro/obj/type.c.
use durodbms.Gen.Strings.{Str, is_listed, str_equal, str_equal_refl, str_equal_sound}
use durodbms.Obj.Types.{Attrs, RdbType, attr, attr_count, find_attr, no_attrs, tuple, type_equals}
use durodbms.Obj.Types.Equality.{type_equals_ext}
use durodbms.Obj.Types.Lookup.{
  AreProper, IsProper, attr_count-append_attrs, find_attr-append_attrs, find_attr_rest,
  keep-AreProper,
}
use durodbms.Obj.Types.Nesting.{
  Wrapping, keep, sub_attrs, unwrap_attrs, unwrap_tuple_type, wrap_tuple_type,
}
use durodbms.Obj.Types.Nesting.Picks.{AreAttrs, DistinctNames, is_listed-cons}
use durodbms.Obj.Types.Nesting.Wrap.{
  attr_count-wrapped, copy_into-AreProper, picked, picked-Picks, picked-append, unlisted,
  unlisted_parts, wrap_tuple_type_lem, wrapped, wrapped_names, wrapping,
}
use durodbms.Obj.Types.Operations.{append_attrs, tuple_attrs}
use durodbms.Prelude.{
  ==_refl, Bool, Bool-cases, List, [], ap, arith, false, inl, inr, length, le→ltb_false, none, not,
  ok, refl, some, suc, true, ◌+◌, ◌-◌, ◌∙◌, ◌∷◌, ◌≡◌, ◌≤◌,
}

-- The names of the new attributes.
abbrev pub new_names : List Wrapping → List Str
new_names [] = []
new_names (w ∷ wrapv) = w.attrname ∷ new_names wrapv

-- No new name is that of an attribute that is left, or of another new one.
abbrev pub AreFree : Attrs → List Wrapping → Type 0
AreFree xs wrapv =
    DistinctNames (new_names wrapv)
    × ((n : Str)
        → is_listed (new_names wrapv) n ≡ true
        → find_attr (unlisted xs (wrapped_names wrapv)) n ≡ none)

length-new_names : (wrapv : List Wrapping) → length (new_names wrapv) ≡ length wrapv
length-new_names [] = refl
length-new_names (w ∷ wrapv) = ap suc (length-new_names wrapv)

wrapped_absent :
    (xs : Attrs) (wrapv : List Wrapping) (n : Str)
    → is_listed (new_names wrapv) n ≡ false
    → find_attr (wrapped xs wrapv) n ≡ none
unfolding find_attr
wrapped_absent xs [] n h = refl
wrapped_absent xs (w ∷ wrapv) n h =
    ground (arith, h, is_listed-cons w.attrname (new_names wrapv) n, wrapped_absent xs wrapv n)

keep-append_attrs :
    (test : Str → Bool) (xs ys : Attrs)
    → keep test (append_attrs xs ys) ≡ append_attrs (keep test xs) (keep test ys)
unfolding keep append_attrs
keep-append_attrs test no_attrs ys = refl
keep-append_attrs test (attr n t xs) ys = elim (Bool-cases (test n)) [
  | inl e ↦ rw (e, keep) (ap (attr n t) (keep-append_attrs test xs ys))
  | inr e ↦ rw (e, keep) (keep-append_attrs test xs ys)
]

keep_all :
    (test : Str → Bool) (xs : Attrs)
    → AreProper xs
    → ((n : Str) (t : RdbType) → find_attr xs n ≡ some t → test n ≡ true)
    → keep test xs ≡ xs
unfolding keep find_attr IsProper
keep_all test no_attrs p all = refl
keep_all test (attr n t xs) p all =
    let first = all n t (rw (str_equal_refl n) refl) in
    rw (first, keep)
      (ap (attr n t) (keep_all test xs p.2 (λ m u f. all m u (find_attr_rest n t xs m u p.0 f))))

keep_none :
    (names : List Str) (xs : Attrs) (wrapv : List Wrapping)
    → ((n : Str) → is_listed (new_names wrapv) n ≡ true → is_listed names n ≡ true)
    → unlisted (wrapped xs wrapv) names ≡ no_attrs
unfolding keep
keep_none names xs [] all = refl
keep_none names xs (w ∷ wrapv) all =
    let first = all w.attrname (
      rw (is_listed-cons w.attrname (new_names wrapv) w.attrname, str_equal_refl w.attrname)
        refl) in
    rw first (
      keep_none names xs wrapv
        (λ n l. all n (ground (arith, l, is_listed-cons w.attrname (new_names wrapv) n))))

-- The loop over the attributes to unwrap, where the type holds them.
sub_attrs_lem :
    (zs xs : Attrs) (wrapv : List Wrapping)
    → ((n : Str) (t : RdbType) → find_attr (wrapped xs wrapv) n ≡ some t → find_attr zs n ≡ some t)
    → DistinctNames (new_names wrapv)
    → sub_attrs zs (new_names wrapv) ≡ ok (picked xs (wrapped_names wrapv))
unfolding sub_attrs find_attr
sub_attrs_lem zs xs [] there d = refl
sub_attrs_lem zs xs (w ∷ wrapv) there d =
    let first =
      there w.attrname (tuple (picked xs w.attrs)) (rw (str_equal_refl w.attrname) refl) in
    let later =
      sub_attrs_lem zs xs wrapv
        (λ n t f. there n t (elim (Bool-cases (str_equal w.attrname n)) [
          | inr e ↦ rw (e, find_attr) f
          | inl e ↦
              let moved = rw (str_equal_sound w.attrname n e) at d.0 in
              absurd (ground (arith, f, wrapped_absent xs wrapv n moved))
        ]))
        d.1 in
    ground (arith, first, later, picked-append xs w.attrs (wrapped_names wrapv))

module _ (xs : Attrs) (wrapv : List Wrapping) (p : AreProper xs)
    (d : DistinctNames (wrapped_names wrapv)) (a : AreAttrs xs (wrapped_names wrapv))
    (free : AreFree xs wrapv) where
  -- The attributes that stay are not among the new ones.
  stays : unlisted (wrapping xs wrapv) (new_names wrapv) ≡ unlisted xs (wrapped_names wrapv)
  unfolding append_attrs
  stays =
      let test : Str → Bool = λ m. not (is_listed (new_names wrapv) m) in
      let rest = unlisted xs (wrapped_names wrapv) in
      let kept = keep-AreProper (λ m. not (is_listed (wrapped_names wrapv) m)) xs p in
      keep-append_attrs test (wrapped xs wrapv) rest
      ∙ ap (λ z. append_attrs z (keep test rest)) (keep_none (new_names wrapv) xs wrapv (λ n l. l))
      ∙ keep_all test rest kept (λ n t f. ground (arith, f, free.1 n))

  wrapping_there :
      (n : Str) (t : RdbType)
      → find_attr (wrapped xs wrapv) n ≡ some t
      → find_attr (wrapping xs wrapv) n ≡ some t
  wrapping_there n t f =
      ground
        (arith, f, find_attr-append_attrs (wrapped xs wrapv) (unlisted xs (wrapped_names wrapv)) n)

  -- The unwrapping succeeds and stays within its array.
  unwrap_tuple_type_lem :
      unwrap_tuple_type (tuple (wrapping xs wrapv)) (new_names wrapv)
      ≡ ok (
          tuple
            (append_attrs (picked xs (wrapped_names wrapv)) (unlisted xs (wrapped_names wrapv))))
  unfolding unwrap_tuple_type unwrap_attrs tuple_attrs
  unwrap_tuple_type_lem =
      let zs = wrapping xs wrapv in
      let subs = picked xs (wrapped_names wrapv) in
      let left_over = unlisted xs (wrapped_names wrapv) in
      let g = picked-Picks xs (wrapped_names wrapv) p d a in
      let n = attr_count zs + attr_count subs - length (new_names wrapv) in
      let counts = attr_count-append_attrs (wrapped xs wrapv) left_over in
      let width : n ≡ attr_count subs + attr_count left_over =
        omega (arith, counts, attr_count-wrapped xs wrapv, length-new_names wrapv) in
      let fits : length (new_names wrapv) ≤ attr_count zs + attr_count subs =
        omega (arith, counts, attr_count-wrapped xs wrapv, length-new_names wrapv) in
      rw
        (
          sub_attrs_lem zs xs wrapv wrapping_there free.0,
          le→ltb_false (attr_count zs + attr_count subs) (length (new_names wrapv)) fits,
          stays,
          copy_into-AreProper n 0 subs g.proper (omega (arith, width)),
          copy_into-AreProper n (attr_count subs) left_over
              (keep-AreProper (λ m. not (is_listed (wrapped_names wrapv) m)) xs p)
              (omega (arith, width)),
          ==_refl (attr_count (append_attrs subs left_over)) n
              (omega (arith, width, attr_count-append_attrs subs left_over)),
        )
        refl

-- A tuple type that holds no name twice, wrapped by wrappings whose attributes are distinct
-- attributes of the type and whose own names are distinct and none of the attributes left, and
-- unwrapped again. Both calls succeed, with no write outside an array, and `RDB_type_equals` finds
-- the result equal to the type at the start.
pub unwrap_tuple_type-wrap_tuple_type :
    (xs : Attrs) (wrapv : List Wrapping)
    → AreProper xs
    → DistinctNames (wrapped_names wrapv)
    → AreAttrs xs (wrapped_names wrapv)
    → AreFree xs wrapv
    → (ys : Attrs) × (zs : Attrs) × (wrap_tuple_type (tuple xs) wrapv ≡ ok (tuple ys))
      × (unwrap_tuple_type (tuple ys) (new_names wrapv) ≡ ok (tuple zs))
      × (type_equals (tuple zs) (tuple xs) ≡ true)
unwrap_tuple_type-wrap_tuple_type xs wrapv p d a free =
    let names = wrapped_names wrapv in
    let (proper, same, parts) =
      unlisted_parts xs (picked xs names) names p (picked-Picks xs names p d a) in
    (
      wrapping xs wrapv,
      append_attrs (picked xs names) (unlisted xs names),
      wrap_tuple_type_lem xs wrapv p d a,
      unwrap_tuple_type_lem xs wrapv p d a free,
      type_equals_ext (append_attrs (picked xs names) (unlisted xs names)) xs proper p same,
    )
