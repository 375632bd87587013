-- ===== src/Obj/Types/Queries.antt =====
-- The questions that duro/obj/type.c answers about one type, and the match of an argument's type
-- with a parameter's, which may be generic. `RDB_type_is_valid` and `RDB_type_depends_type` walk
-- through the possible representations of scalar types.
use durodbms.Gen.Strings.{Str}
use durodbms.Obj.Types.{
  Attrs, Possreps, RdbType, array, attr, find_attr, is_subtype, no_attrs, no_reps, relation, rep,
  scalar, tuple, type_equals,
}
use durodbms.Prelude.{
  Bool, Option, false, if◌then◌else◌, ltb, none, not, some, suc, true, ℕ, ◌&&◌, ◌==◌, ◌||◌,
}

unfoldable pub type_is_scalar : RdbType → Bool
type_is_scalar (scalar s sup reps) = true
type_is_scalar _ = false

unfoldable pub type_is_ordered : RdbType → Bool
type_is_ordered (scalar s sup reps) = s.ordered
type_is_ordered _ = false

-- `repc`
unfoldable pub rep_count : Possreps → ℕ
rep_count no_reps = 0
rep_count (rep comps reps) = suc (rep_count reps)

unfoldable pub type_is_dummy : RdbType → Bool
type_is_dummy (scalar s sup reps) = not s.builtin && (rep_count reps == 0)
type_is_dummy _ = false

unfoldable pub type_is_union : RdbType → Bool
type_is_union t = type_is_dummy t

unfoldable mutual
  pub type_is_valid : RdbType → Bool
  type_is_valid (tuple xs) = all_valid xs
  type_is_valid (relation t) = type_is_valid t
  type_is_valid (array t) = type_is_valid t
  type_is_valid (scalar s sup reps) =
      if ltb 1 (rep_count reps) && s.ordered && not s.compare
      then false
      else if type_is_union (scalar s sup reps)
      then true
      else s.implemented

  pub all_valid : Attrs → Bool
  all_valid no_attrs = true
  all_valid (attr n t xs) = type_is_valid t && all_valid xs

unfoldable mutual
  pub type_depends_type : RdbType → RdbType → Bool
  type_depends_type (tuple xs) d = some_depends xs d
  type_depends_type (relation t) d = type_depends_type t d
  type_depends_type (array t) d = type_depends_type t d
  type_depends_type (scalar s sup reps) d = is_subtype (scalar s sup reps) d || reps_depend reps d

  pub some_depends : Attrs → RdbType → Bool
  some_depends no_attrs d = false
  some_depends (attr n t xs) d = type_depends_type t d || some_depends xs d

  pub reps_depend : Possreps → RdbType → Bool
  reps_depend no_reps d = false
  reps_depend (rep comps reps) d = some_depends comps d || reps_depend reps d

-- `RDB_type_attr_type`: `none` for the null pointer.
unfoldable pub type_attr_type : RdbType → Str → Option RdbType
type_attr_type (relation (tuple xs)) name = find_attr xs name
type_attr_type (tuple xs) name = find_attr xs name
type_attr_type _ name = none

-- The type of a parameter: a type, or a generic tuple type, which has a nameless attribute beside
-- those given, or a relation type of one.
pub data Pattern : Type 0 where
  concrete : RdbType → Pattern
  any_tuple : Attrs → Pattern
  any_relation : Pattern → Pattern

unfoldable pub type_is_generic : Pattern → Bool
type_is_generic (concrete t) = false
type_is_generic (any_tuple xs) = true
type_is_generic (any_relation p) = type_is_generic p

-- The loop over the named attributes of the generic type.
unfoldable pub has_attrs : RdbType → Attrs → Bool
has_attrs t no_attrs = true
has_attrs t (attr n u ys) =
    let rest = has_attrs t ys in
    elim (type_attr_type t n) [ none ↦ false | some v ↦ type_equals u v && rest ]

-- `RDB_type_matches`. A relation type of a concrete tuple type is concrete.
unfoldable pub type_matches : RdbType → Pattern → Bool
type_matches t (concrete u) = is_subtype t u
type_matches (relation t) (any_relation p) = type_matches t p
type_matches (tuple xs) (any_tuple ys) = has_attrs (tuple xs) ys
type_matches _ _ = false
