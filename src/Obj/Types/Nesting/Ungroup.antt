-- ===== src/Obj/Types/Nesting/Ungroup.antt =====
-- UNGROUP after GROUP: `RDB_ungroup_type` and `RDB_group_type` of duro/obj/type.c.
use durodbms.Gen.Strings.{Str, str_equal, str_equal_refl, str_equal_sound, str_equal_symm}
use durodbms.Obj.Types.{
  Attrs, RdbType, attr, attr_count, find_attr, has_attr, no_attrs, relation, tuple, type_equals,
}
use durodbms.Obj.Types.Equality.{type_equals_ext}
use durodbms.Obj.Types.Lookup.{
  AreProper, IsProper, append_attrs-AreProper, attr_count-without, find_attr-IsProper,
  find_attr-append_attrs, find_attr-keep, find_attr_rest, keep-AreProper, or_else,
}
use durodbms.Obj.Types.Nesting.{
  copy_others, group_type, keep, ungroup_attrs, ungroup_base, ungroup_found, ungroup_type,
}
use durodbms.Obj.Types.Nesting.Group.{IsFree, group_attrs_lem, group_base_lem, grouped}
use durodbms.Obj.Types.Nesting.Picks.{AreAttrs, DistinctNames, Picks, copy_attr-IsProper}
use durodbms.Obj.Types.Operations.{append_attrs, basetyp, tuple_attrs}
use durodbms.Prelude.{
  ==_refl, Bool-cases, List, Option-cases, ap, arith, false, fun_ext, if◌then◌else◌, inl, inr, none,
  not, ok, refl, some, subst, true, ◌+◌, ◌∙◌, ◌≡◌,
}

copy_others-AreProper : (xs : Attrs) → AreProper xs → copy_others xs ≡ ok xs
unfolding copy_others IsProper
copy_others-AreProper no_attrs p = refl
copy_others-AreProper (attr n t xs) p =
    rw (copy_attr-IsProper t p.1, copy_others-AreProper xs p.2) refl

ungroup_attrs_lem :
    (xs : Attrs) (name : Str) (ys : Attrs)
    → AreProper ys
    → ((n : Str) (t : RdbType)
        → find_attr ys n ≡ some t
        → str_equal n name ≡ false
        → find_attr xs n ≡ none)
    → ungroup_attrs xs name ys ≡ ok ys
unfolding ungroup_attrs IsProper find_attr
ungroup_attrs_lem xs name no_attrs p apart = refl
ungroup_attrs_lem xs name (attr n t ys) p apart =
    let later =
      ungroup_attrs_lem xs name ys p.2 (λ m u f e. apart m u (find_attr_rest n t ys m u p.0 f) e) in
    elim (Bool-cases (str_equal n name)) [
      | inl e ↦ rw (e, ungroup_attrs) (rw (copy_attr-IsProper t p.1, later) refl)
      | inr e ↦
          let new = apart n t (rw (str_equal_refl n) refl) e in
          ground (arith, e, new, copy_attr-IsProper t p.1, later)
    ]

-- The other attributes, as the loop of `RDB_ungroup_type` tests them.
abbrev others : Attrs → Str → Attrs
others xs name = keep (λ n. not (str_equal n name)) xs

others_count :
    (xs : Attrs) (name : Str) (t : RdbType)
    → AreProper xs
    → find_attr xs name ≡ some t
    → attr_count (others xs name) + 1 ≡ attr_count xs
others_count xs name t p there =
    subst (λ test. attr_count (keep test xs) + 1 ≡ attr_count xs)
      (fun_ext (λ n. ap not (str_equal_symm name n))) (attr_count-without name t xs p there)

ungroup_base_found :
    (xs : Attrs) (name : Str) (t : RdbType)
    → find_attr xs name ≡ some t
    → ungroup_base xs name ≡ ungroup_found xs name t
unfolding ungroup_base
ungroup_base_found xs name t there = ground (arith, there)

ungroup_base_lem :
    (xs ys : Attrs) (name : Str)
    → AreProper xs
    → find_attr xs name ≡ some (relation (tuple ys))
    → ((n : Str) (t : RdbType)
        → find_attr ys n ≡ some t
        → str_equal n name ≡ false
        → find_attr xs n ≡ none)
    → ungroup_base xs name ≡ ok (tuple (append_attrs (others xs name) ys))
unfolding ungroup_found tuple_attrs IsProper
ungroup_base_lem xs ys name p there apart =
    let proper = find_attr-IsProper xs name (relation (tuple ys)) p there in
    let kept = keep-AreProper (λ n. not (str_equal n name)) xs p in
    ungroup_base_found xs name (relation (tuple ys)) there
    ∙ rw
        (
          copy_others-AreProper (others xs name) kept,
          ungroup_attrs_lem xs name ys proper apart,
          ==_refl (attr_count (others xs name) + 1) (attr_count xs)
              (others_count xs name (relation (tuple ys)) p there),
        )
        refl

grouped-reads :
    (xs gs : Attrs) (gattr n : Str)
    → find_attr (grouped xs gs gattr) n
      ≡ or_else
          (if has_attr gs n then none else find_attr xs n)
          (if str_equal gattr n then some (relation (tuple gs)) else none)
unfolding find_attr
grouped-reads xs gs gattr n = ground (
  arith,
  find_attr-append_attrs (keep (λ n. not (has_attr gs n)) xs)
      (attr gattr (relation (tuple gs)) no_attrs) n,
  find_attr-keep (λ n. not (has_attr gs n)) xs n,
)

module _ (xs gs : Attrs) (names : List Str) (gattr : Str) (p : AreProper xs)
    (free : IsFree xs names gattr) (g : Picks xs names gs) where
  left_free : (if has_attr gs gattr then none else find_attr xs gattr) ≡ none
  left_free = elim (Option-cases (find_attr xs gattr)) [
    | inl e ↦ ground (arith, e)
    | inr (t, e) ↦ ground (arith, e, free t e, g.reads gattr)
  ]

  grouped-AreProper : AreProper (grouped xs gs gattr)
  unfolding IsProper find_attr
  grouped-AreProper =
      append_attrs-AreProper (keep (λ n. not (has_attr gs n)) xs)
        (attr gattr (relation (tuple gs)) no_attrs) (keep-AreProper (λ n. not (has_attr gs n)) xs p)
        (refl, g.proper, tt)
        (λ n t f. elim (Bool-cases (str_equal gattr n)) [
          | inr e ↦ ground (arith, e)
          | inl e ↦
              let moved = rw (str_equal_sound gattr n e) at left_free in
              absurd (ground (arith, moved, f, find_attr-keep (λ n. not (has_attr gs n)) xs n))
        ])

  grouped_there : find_attr (grouped xs gs gattr) gattr ≡ some (relation (tuple gs))
  grouped_there = rw (grouped-reads xs gs gattr gattr, left_free, str_equal_refl gattr) refl

  grouped_apart :
      (n : Str) (t : RdbType)
      → find_attr gs n ≡ some t
      → str_equal n gattr ≡ false
      → find_attr (grouped xs gs gattr) n ≡ none
  grouped_apart n t f e = ground (arith, grouped-reads xs gs gattr n, f, e, str_equal_symm n gattr)

  -- What the relation type has after both operations.
  abbrev restored : Attrs
  restored = append_attrs (others (grouped xs gs gattr) gattr) gs

  restored-reads : (n : Str) → find_attr restored n ≡ find_attr xs n
  restored-reads n =
      let outer = find_attr-append_attrs (others (grouped xs gs gattr) gattr) gs n in
      let kept = find_attr-keep (λ n. not (str_equal n gattr)) (grouped xs gs gattr) n in
      let inside = grouped-reads xs gs gattr n in
      elim (Bool-cases (str_equal n gattr)) [
        | inl e ↦
            let moved = rw (← str_equal_sound n gattr e) at left_free in
            ground (arith, outer, kept, e, moved, g.reads n)
        | inr e ↦ ground (arith, outer, kept, e, inside, g.reads n, str_equal_symm n gattr)
      ]

  restored-AreProper : AreProper restored
  restored-AreProper =
      append_attrs-AreProper (others (grouped xs gs gattr) gattr) gs
        (keep-AreProper (λ n. not (str_equal n gattr)) (grouped xs gs gattr) grouped-AreProper)
        g.proper
        (λ n t f. elim (Option-cases (find_attr gs n)) [
          | inl e ↦ e
          | inr (u, e) ↦
              let kept = find_attr-keep (λ n. not (str_equal n gattr)) (grouped xs gs gattr) n in
              elim (Bool-cases (str_equal n gattr)) [
                | inl s ↦ absurd (ground (arith, kept, s, f))
                | inr s ↦ absurd (ground (arith, kept, s, f, grouped_apart n u e s))
              ]
        ])

-- A relation type whose tuple type holds no name twice, grouped by distinct names of attributes
-- under a name that no other attribute has, and ungrouped again. Both calls succeed, the tuple type
-- of the grouped type holds no name twice, and `RDB_type_equals` finds the result equal to the type
-- at the start.
pub ungroup_type-group_type :
    (xs : Attrs) (names : List Str) (gattr : Str)
    → AreProper xs
    → DistinctNames names
    → AreAttrs xs names
    → IsFree xs names gattr
    → (ys : Attrs) × (zs : Attrs) × (group_type (relation (tuple xs)) names gattr
        ≡ ok (relation (tuple ys)))
      × (ungroup_type (relation (tuple ys)) gattr ≡ ok (relation (tuple zs)))
      × AreProper ys
      × (type_equals (relation (tuple zs)) (relation (tuple xs)) ≡ true)
unfolding group_type ungroup_type basetyp tuple_attrs type_equals
ungroup_type-group_type xs names gattr p d a free =
    let (gs, run, g) = group_attrs_lem xs names p d a in
    let ys = grouped xs gs gattr in
    let proper = grouped-AreProper xs gs names gattr p free g in
    (
      ys,
      restored xs gs names gattr p free g,
      rw (group_base_lem xs gs names gattr p a free run g) refl,
      rw
          (ungroup_base_lem ys gs gattr proper (grouped_there xs gs names gattr p free g)
            (grouped_apart xs gs names gattr p free g))
          refl,
      proper,
      type_equals_ext (restored xs gs names gattr p free g) xs
          (restored-AreProper xs gs names gattr p free g) p
          (restored-reads xs gs names gattr p free g),
    )
