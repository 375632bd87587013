-- ===== src/Obj/Types/Nesting/Group.antt =====
-- GROUP and UNGROUP of relation types, `RDB_group_type` and `RDB_ungroup_type` of duro/obj/type.c.
use durodbms.Gen.Strings.{is_listed}
use durodbms.Gen.Strings.{Str, str_equal, str_equal_sound}
use durodbms.Obj.Types.{
  Attrs, RdbType, attr, attr_count, find_attr, has_attr, no_attrs, relation, tuple,
}
use durodbms.Obj.Types.Lookup.{
  AreProper, IsProper, NoCommonName, append_attrs-AreProper, attr_count-append_attrs,
  attr_count_ext, find_attr-IsProper, find_attr-append_attrs, find_attr-keep, find_attr_rest,
  keep-AreProper, new_attrs-AreProper,
}
use durodbms.Obj.Types.Nesting.{group_attrs, group_base, keep, ungrouped}
use durodbms.Obj.Types.Nesting.Picks.{
  AreAttrs, DistinctNames, Picks, Picks-cons, Picks-nil, copy_attr-IsProper,
}
use durodbms.Obj.Types.Operations.{append_attrs}
use durodbms.Prelude.{
  ==_refl, Bool-cases, List, Option-cases, [], arith, false, inl, inr, length, not, ok, refl, some,
  true, ◌+◌, ◌∷◌, ◌≡◌,
}

pub group_attrs_lem :
    (xs : Attrs) (names : List Str)
    → AreProper xs
    → DistinctNames names
    → AreAttrs xs names
    → (gs : Attrs) × (group_attrs xs names ≡ ok gs) × Picks xs names gs
unfolding group_attrs
group_attrs_lem xs [] p d a = (no_attrs, refl, Picks-nil xs)
group_attrs_lem xs (n ∷ names) p d a = elim (Option-cases (find_attr xs n)) [
  | inl gone ↦ absurd (a.0 gone)
  | inr (t, there) ↦
      let (gs, run, g) = group_attrs_lem xs names p d.1 a.1 in
      (
        attr n t gs,
        ground (arith, there, run),
        Picks-cons xs n names t gs d.0 there (find_attr-IsProper xs n t p there) g,
      )
]

-- The attributes that are not grouped, none of them named like the new one.
ungrouped_lem :
    (gs : Attrs) (gattr : Str) (xs : Attrs)
    → AreProper xs
    → ((t : RdbType) → find_attr xs gattr ≡ some t → has_attr gs gattr ≡ true)
    → ungrouped gs gattr xs ≡ ok (keep (λ n. not (has_attr gs n)) xs)
unfolding ungrouped keep IsProper find_attr
ungrouped_lem gs gattr no_attrs p fresh = refl
ungrouped_lem gs gattr (attr n t xs) p fresh =
    let later =
      ungrouped_lem gs gattr xs p.2 (λ u f. fresh u (find_attr_rest n t xs gattr u p.0 f)) in
    elim (Bool-cases (has_attr gs n)) [
      | inl e ↦ rw (e, ungrouped, keep) later
      | inr e ↦
          let apart : str_equal n gattr ≡ false = elim (Bool-cases (str_equal n gattr)) [
            | inr s ↦ s
            | inl s ↦
                let moved = rw (str_equal_sound n gattr s) at e in
                absurd (cc (moved, fresh t (rw s refl)))
          ] in
          rw (e, ungrouped, keep) (rw (apart, copy_attr-IsProper t p.1, later) refl)
    ]

-- Two parts of a list, one picked by name and the other what is left, are the list.
pub parts_count :
    (xs gs : Attrs) (names : List Str)
    → AreProper xs
    → Picks xs names gs
    → AreAttrs xs names
    → attr_count (keep (λ n. not (has_attr gs n)) xs) + length names ≡ attr_count xs
parts_count xs gs names p g a =
    let rest = keep (λ n. not (has_attr gs n)) xs in
    let apart : NoCommonName rest gs =
      λ n t f. ground (arith, f, find_attr-keep (λ n. not (has_attr gs n)) xs n) in
    let whole : (n : Str) → find_attr (append_attrs rest gs) n ≡ find_attr xs n = λ n. ground (
      arith,
      find_attr-append_attrs rest gs n,
      g.reads n,
      find_attr-keep (λ n. not (has_attr gs n)) xs n,
    ) in
    let proper =
      append_attrs-AreProper rest gs (keep-AreProper (λ n. not (has_attr gs n)) xs p) g.proper
        apart in
    omega (
      arith,
      attr_count_ext (append_attrs rest gs) xs proper p whole,
      attr_count-append_attrs rest gs,
      g.count,
    )

-- The attribute list of the grouped type.
abbrev pub grouped : Attrs → Attrs → Str → Attrs
grouped xs gs gattr =
    append_attrs (keep (λ n. not (has_attr gs n)) xs) (attr gattr (relation (tuple gs)) no_attrs)

-- The name of the new attribute is none of the attributes that are left.
abbrev pub IsFree : Attrs → List Str → Str → Type 0
IsFree xs names gattr = (t : RdbType) → find_attr xs gattr ≡ some t → is_listed names gattr ≡ true

pub group_base_lem :
    (xs gs : Attrs) (names : List Str) (gattr : Str)
    → AreProper xs
    → AreAttrs xs names
    → IsFree xs names gattr
    → group_attrs xs names ≡ ok gs
    → Picks xs names gs
    → group_base xs names gattr ≡ ok (tuple (grouped xs gs gattr))
unfolding group_base
group_base_lem xs gs names gattr p a free run g =
    let left = ungrouped_lem gs gattr xs p (λ t f. ground (arith, f, free t f, g.reads gattr)) in
    rw
      (
        run,
        new_attrs-AreProper gs g.proper,
        left,
        ==_refl (attr_count (keep (λ n. not (has_attr gs n)) xs) + length names) (attr_count xs)
            (parts_count xs gs names p g a),
      )
      refl
