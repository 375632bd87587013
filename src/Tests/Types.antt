-- ===== src/Tests/Types.antt =====
-- duro/obj/type.c on tuple types with attributes `a`, `b`, `c` of two scalar types.
use durodbms.Gen.Strings.{Str, find_str, str_equal, str_equal_sound}
use durodbms.Obj.Types.{
  Attrs, RdbType, among, attr, attr_count, find_attr, is_subtype, no_attrs, no_reps, no_types,
  relation, scalar, tuple, type_equals,
}
use durodbms.Obj.Types.Lookup.{AreProper, IsProper}
use durodbms.Obj.Types.Nesting.{
  Wrapping, copy_attr, copy_into, copy_others, group_attrs, group_base, group_type, in_wrappings,
  keep, sub_attrs, ungroup_attrs, ungroup_base, ungroup_found, ungroup_type, ungrouped,
  unwrap_attrs, unwrap_tuple_type, wrap_attrs, wrap_from, wrap_total, wrap_tuple_type,
  wrapped_attrs,
}
use durodbms.Obj.Types.Nesting.Group.{IsFree}
use durodbms.Obj.Types.Nesting.Picks.{AreAttrs, DistinctNames, is_listed-cons}
use durodbms.Obj.Types.Nesting.Ungroup.{ungroup_type-group_type}
use durodbms.Obj.Types.Nesting.Unwrap.{AreFree, unwrap_tuple_type-wrap_tuple_type}
use durodbms.Obj.Types.Nesting.Wrap.{unlisted}
use durodbms.Obj.Types.Operations.{
  Renaming, add_attrs, appears_again, append_attrs, basetyp, check_renamings, copy_types,
  dup_nonscalar_type, extend_attrs, extend_tuple_type, find_rename_from, rename_attrs,
  rename_tuple_type, tuple_attrs, union_tuple_types,
}
use durodbms.Obj.Types.Operations.Renames.{Renames, rename_tuple_type-Renames}
use durodbms.Obj.Types.Operations.Renamings.{AreRenamings}
use durodbms.Obj.Types.Operations.Union.{Agree, Clash, Joins, union_tuple_types-Joins}
use durodbms.Prelude.{
  List, [], arith, err, invalid_argument, name_error, none, ok, out_of_bounds, refl, subst, true,
  type_mismatch, ◌∷◌, ◌≡◌, ◌⊎◌,
}

abbrev name_a : Str
name_a = 97 ∷ []

abbrev name_b : Str
name_b = 98 ∷ []

abbrev name_c : Str
name_c = 99 ∷ []

abbrev name_d : Str
name_d = 100 ∷ []

abbrev scalar_type : Str → RdbType
scalar_type name =
    scalar
      (record { name = name; ordered = true; builtin = true; compare = true; implemented = true })
      no_types no_reps

abbrev integer : RdbType
integer = scalar_type (105 ∷ [])

abbrev text : RdbType
text = scalar_type (116 ∷ [])

abbrev abc : Attrs
abc = attr name_a integer (attr name_b text (attr name_c integer no_attrs))

type_runs : Unit {0}
unfolding type_equals is_subtype find_attr among attr_count str_equal dup_nonscalar_type copy_types
    add_attrs union_tuple_types rename_attrs check_renamings find_rename_from append_attrs
    appears_again rename_tuple_type tuple_attrs basetyp extend_tuple_type extend_attrs copy_attr
    copy_into wrapped_attrs wrap_from wrap_total in_wrappings find_str keep wrap_attrs
    wrap_tuple_type sub_attrs unwrap_attrs unwrap_tuple_type group_attrs ungrouped group_base
    group_type ungroup_attrs copy_others ungroup_found ungroup_base ungroup_type
type_runs = tt

abc-AreProper : AreProper abc
unfolding type_runs IsProper
abc-AreProper = (refl, tt, (refl, tt, (refl, tt, tt)))

-- The order of attributes does not matter.
reordered :
    type_equals
      (tuple abc)
      (tuple (attr name_c integer (attr name_a integer (attr name_b text no_attrs))))
    ≡ true
unfolding type_runs
reordered = refl

abbrev bd : Attrs
bd = attr name_b text (attr name_d text no_attrs)

bd-AreProper : AreProper bd
unfolding type_runs IsProper
bd-AreProper = (refl, tt, (refl, tt, tt))

union_tuple_types-Joins_example :
    ((zs : Attrs) × (union_tuple_types (tuple abc) (tuple bd) ≡ ok (tuple zs))
      × Joins abc bd zs
      × Agree abc bd)
    ⊎ ((union_tuple_types (tuple abc) (tuple bd) ≡ err type_mismatch) × Clash abc bd)
union_tuple_types-Joins_example = union_tuple_types-Joins abc bd abc-AreProper bd-AreProper

joined :
    union_tuple_types (tuple abc) (tuple bd)
    ≡ ok (
        tuple (
          attr name_a integer (attr name_b text (attr name_c integer (attr name_d text no_attrs)))))
unfolding type_runs
joined = refl

clashing : union_tuple_types (tuple abc) (tuple (attr name_a text no_attrs)) ≡ err type_mismatch
unfolding type_runs
clashing = refl

abbrev a_to_d : List Renaming
a_to_d = record { source = name_a; target = name_d } ∷ []

rename_tuple_type-Renames_example :
    (AreRenamings abc a_to_d
      × ((zs : Attrs) × (rename_tuple_type (tuple abc) a_to_d ≡ ok (tuple zs))
          × Renames a_to_d abc zs))
    ⊎ ((¬ AreRenamings abc a_to_d)
        × ((rename_tuple_type (tuple abc) a_to_d ≡ err name_error)
            ⊎ (rename_tuple_type (tuple abc) a_to_d ≡ err invalid_argument)))
rename_tuple_type-Renames_example = rename_tuple_type-Renames abc a_to_d abc-AreProper

renamed :
    rename_tuple_type (tuple abc) a_to_d
    ≡ ok (tuple (attr name_d integer (attr name_b text (attr name_c integer no_attrs))))
unfolding type_runs
renamed = refl

bc-DistinctNames : DistinctNames (name_b ∷ name_c ∷ [])
unfolding type_runs
bc-DistinctNames = (refl, (refl, tt))

bc-AreAttrs : AreAttrs abc (name_b ∷ name_c ∷ [])
unfolding type_runs
bc-AreAttrs = ((λ e. cc e), ((λ e. cc e), tt))

d-IsFree : IsFree abc (name_b ∷ name_c ∷ []) name_d
unfolding type_runs
d-IsFree t e = absurd (cc e)

ungroup_type-group_type_example :
    (ys : Attrs) × (zs : Attrs) × (group_type (relation (tuple abc)) (name_b ∷ name_c ∷ []) name_d
      ≡ ok (relation (tuple ys)))
    × (ungroup_type (relation (tuple ys)) name_d ≡ ok (relation (tuple zs)))
    × AreProper ys
    × (type_equals (relation (tuple zs)) (relation (tuple abc)) ≡ true)
ungroup_type-group_type_example =
    ungroup_type-group_type abc (name_b ∷ name_c ∷ []) name_d abc-AreProper bc-DistinctNames
      bc-AreAttrs d-IsFree

abbrev bc_as_d : List Wrapping
bc_as_d = record { attrs = name_b ∷ name_c ∷ []; attrname = name_d } ∷ []

bc_as_d-AreFree : AreFree abc bc_as_d
unfolding type_runs
bc_as_d-AreFree = (
  (refl, tt),
  λ n l.
      let named : str_equal name_d n ≡ true = ground (arith, l, is_listed-cons name_d [] n) in
      subst (λ m. find_attr (unlisted abc (name_b ∷ name_c ∷ [])) m ≡ none)
        (str_equal_sound name_d n named) refl,
)

unwrap_tuple_type-wrap_tuple_type_example :
    (ys : Attrs) × (zs : Attrs) × (wrap_tuple_type (tuple abc) bc_as_d ≡ ok (tuple ys))
    × (unwrap_tuple_type (tuple ys) (name_d ∷ []) ≡ ok (tuple zs))
    × (type_equals (tuple zs) (tuple abc) ≡ true)
unwrap_tuple_type-wrap_tuple_type_example =
    unwrap_tuple_type-wrap_tuple_type abc bc_as_d abc-AreProper bc-DistinctNames bc-AreAttrs
      bc_as_d-AreFree

-- An attribute named twice in a wrapping makes the array too small for what is written to it.
wrapped_twice :
    wrap_tuple_type (tuple abc) (record { attrs = name_a ∷ name_a ∷ []; attrname = name_d } ∷ [])
    ≡ err out_of_bounds
unfolding type_runs
wrapped_twice = refl

-- Two new attributes of the same name are not noticed.
extended_twice :
    extend_tuple_type (tuple abc) (attr name_d integer (attr name_d text no_attrs))
    ≡ ok (tuple (append_attrs abc (attr name_d integer (attr name_d text no_attrs))))
unfolding type_runs
extended_twice = refl

-- A new attribute may take the name of one that is left.
wrap_clash :
    wrap_tuple_type (tuple abc) (record { attrs = name_a ∷ []; attrname = name_b } ∷ [])
    ≡ ok (
        tuple (
          attr name_b
            (tuple (attr name_a integer no_attrs))
            (attr name_b text (attr name_c integer no_attrs))))
unfolding type_runs
wrap_clash = refl
