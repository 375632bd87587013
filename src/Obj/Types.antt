-- ===== src/Obj/Types.antt =====
-- The types of duro/obj/type.c: scalar types, and tuple, relation and array types with the
-- operations on the lists of attributes. Memory is ample: where an allocation fails the C functions
-- free what they have built and report `no_memory`. A type is its value: that two pointers are equal
-- is not tested, and `RDB_type_equals` gives true on a type and itself without the test.
-- Attributes have names; the nameless attribute of a generic type stands in `Pattern` alone.
pub mod Operations
pub mod Nesting
pub mod Lookup
pub mod Equality
pub mod Queries
use durodbms.Gen.Strings.{Str, str_equal}
use durodbms.Prelude.{
  Bool, Option, false, if◌then◌else◌, none, some, suc, true, ℕ, ◌&&◌, ◌==◌, ◌||◌,
}

-- The fields of a scalar type that are read here. `compare` says that `compare_op` is not null,
-- `implemented` that `ireplen` is not `RDB_NOT_IMPLEMENTED`.
pub record Scalar : Type 0 where
  pub name : Str
  pub ordered : Bool
  pub builtin : Bool
  pub compare : Bool
  pub implemented : Bool

mutual
  -- A scalar type with its supertypes and its possible representations.
  pub data RdbType : Type 0 where
    scalar : Scalar → TypeList → Possreps → RdbType
    tuple : Attrs → RdbType
    relation : RdbType → RdbType
    array : RdbType → RdbType

  pub data TypeList : Type 0 where
    no_types : TypeList
    type_of : RdbType → TypeList → TypeList

  pub data Possreps : Type 0 where
    no_reps : Possreps
    rep : Attrs → Possreps → Possreps

  pub data Attrs : Type 0 where
    no_attrs : Attrs
    attr : Str → RdbType → Attrs → Attrs

-- `attrc`
unfoldable pub attr_count : Attrs → ℕ
attr_count no_attrs = 0
attr_count (attr n t xs) = suc (attr_count xs)

-- The loop of `RDB_tuple_type_attr`, with the type of the attribute it points to.
unfoldable pub find_attr : Attrs → Str → Option RdbType
find_attr no_attrs name = none
find_attr (attr n t xs) name =
    let rest = find_attr xs name in if str_equal n name then some t else rest

abbrev pub has_attr : Attrs → Str → Bool
has_attr xs name = elim (find_attr xs name) [ none ↦ false | some t ↦ true ]

-- The inner loop of `RDB_type_equals`, with the comparison of one attribute's type as an argument.
unfoldable pub among : (RdbType → Bool) → Str → Attrs → Bool
among same name no_attrs = false
among same name (attr n t xs) =
    let rest = among same name xs in if same t && str_equal name n then true else rest

unfoldable mutual
  pub type_equals : RdbType → RdbType → Bool
  type_equals (scalar s sup reps) (scalar s' sup' reps') = str_equal s.name s'.name
  type_equals (tuple xs) (tuple ys) = (attr_count xs == attr_count ys) && within xs ys
  type_equals (relation t) (relation u) = type_equals t u
  type_equals (array t) (array u) = type_equals t u
  type_equals _ _ = false

  -- The outer loop: all attributes of the first list also appear in the second.
  pub within : Attrs → Attrs → Bool
  within no_attrs ys = true
  within (attr n t xs) ys = among (type_equals t) n ys && within xs ys

unfoldable mutual
  -- `RDB_is_subtype`
  pub is_subtype : RdbType → RdbType → Bool
  is_subtype (scalar s sup reps) (scalar s' sup' reps') =
      str_equal s.name s'.name || some_subtype sup (scalar s' sup' reps')
  is_subtype (tuple xs) (tuple ys) =
      type_equals (tuple xs) (tuple ys) || (attr_count xs == attr_count ys) && subtypes xs ys
  is_subtype (relation t) (relation u) = type_equals t u || is_subtype t u
  is_subtype (array t) (array u) = type_equals t u || is_subtype t u
  is_subtype _ _ = false

  -- Its loop over the supertypes of a scalar type.
  pub some_subtype : TypeList → RdbType → Bool
  some_subtype no_types u = false
  some_subtype (type_of t ts) u = is_subtype t u || some_subtype ts u

  -- Its loop over attributes.
  pub subtypes : Attrs → Attrs → Bool
  subtypes no_attrs ys = true
  subtypes (attr n t xs) ys =
      let rest = subtypes xs ys in
      elim (find_attr ys n) [ none ↦ false | some u ↦ is_subtype t u && rest ]
