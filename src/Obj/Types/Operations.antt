-- ===== src/Obj/Types/Operations.antt =====
-- The operations of duro/obj/type.c on tuple and relation types: copies, and the types of EXTEND,
-- JOIN, projection, RENAME, WRAP, UNWRAP, GROUP and UNGROUP. A read of another member of the union
-- in `RDB_type` is the error `uninitialised`, as is a result with an attribute that has no name.
pub mod Union
pub mod Renamings
pub mod Rename
pub mod Renames
use durodbms.Gen.Strings.{Str, str_equal}
use durodbms.Obj.Types.{
  Attrs, RdbType, array, attr, find_attr, has_attr, no_attrs, relation, scalar, tuple, type_equals,
}
use durodbms.Prelude.{
  Bool, Error, List, Option, Result, [], err, false, if◌then◌else◌, invalid_argument, name_error,
  none, not, ok, some, true, type_mismatch, uninitialised, ◌>>=◌, ◌||◌, ◌∷◌,
}

unfoldable mutual
  pub dup_nonscalar_type : RdbType → Result RdbType
  dup_nonscalar_type (scalar s sup reps) = ok (scalar s sup reps)
  dup_nonscalar_type (relation t) = dup_nonscalar_type t >>= (λ u. ok (relation u))
  dup_nonscalar_type (array t) = dup_nonscalar_type t >>= (λ u. ok (array u))
  dup_nonscalar_type (tuple xs) = new_attrs xs >>= (λ ys. ok (tuple ys))

  -- The loop of `RDB_new_tuple_type`.
  pub new_attrs : Attrs → Result Attrs
  new_attrs no_attrs = ok no_attrs
  new_attrs (attr n t xs) =
      let copy = dup_nonscalar_type t in
      let rest = new_attrs xs in
      if has_attr xs n
      then err invalid_argument
      else copy >>= (λ u. rest >>= (λ ys. ok (attr n u ys)))

unfoldable pub new_tuple_type : Attrs → Result RdbType
new_tuple_type xs = new_attrs xs >>= (λ ys. ok (tuple ys))

unfoldable pub new_relation_type : Attrs → Result RdbType
new_relation_type xs = new_tuple_type xs >>= (λ t. ok (relation t))

-- `typ->def.basetyp`
unfoldable pub basetyp : RdbType → Result RdbType
basetyp (relation t) = ok t
basetyp (array t) = ok t
basetyp _ = err uninitialised

-- `typ->def.tuple`
unfoldable pub tuple_attrs : RdbType → Result Attrs
tuple_attrs (tuple xs) = ok xs
tuple_attrs _ = err uninitialised

unfoldable pub append_attrs : Attrs → Attrs → Attrs
append_attrs no_attrs ys = ys
append_attrs (attr n t xs) ys = attr n t (append_attrs xs ys)

-- The relation type over the tuple type that an operation makes of the base type.
abbrev pub over_base : (RdbType → Result RdbType) → RdbType → Result RdbType
over_base f typ = do b ← basetyp typ; t ← f b; ok (relation t)

-- The attribute types that the operations copy first.
unfoldable pub copy_types : Attrs → Result Attrs
copy_types no_attrs = ok no_attrs
copy_types (attr n t xs) = do u ← dup_nonscalar_type t; ys ← copy_types xs; ok (attr n u ys)

-- The second loop of `RDB_extend_tuple_type`.
unfoldable pub extend_attrs : Attrs → Attrs → Result Attrs
extend_attrs xs no_attrs = ok no_attrs
extend_attrs xs (attr n t new) =
    let rest = extend_attrs xs new in
    if has_attr xs n
    then err invalid_argument
    else dup_nonscalar_type t >>= (λ u. rest >>= (λ ys. ok (attr n u ys)))

unfoldable pub extend_tuple_type : RdbType → Attrs → Result RdbType
extend_tuple_type typ new = do
  xs ← tuple_attrs typ
  old ← copy_types xs
  added ← extend_attrs xs new
  ok (tuple (append_attrs old added))

unfoldable pub extend_relation_type : RdbType → Attrs → Result RdbType
extend_relation_type typ new = over_base (λ b. extend_tuple_type b new) typ

-- The second loop of `RDB_union_tuple_types`.
unfoldable pub add_attrs : Attrs → Attrs → Result Attrs
add_attrs xs no_attrs = ok no_attrs
add_attrs xs (attr n t ys) =
    let rest = add_attrs xs ys in
    elim (find_attr xs n) [
      | none ↦ dup_nonscalar_type t >>= (λ u. rest >>= (λ zs. ok (attr n u zs)))
      | some u ↦ if type_equals t u then rest else err type_mismatch
    ]

unfoldable pub union_tuple_types : RdbType → RdbType → Result RdbType
union_tuple_types typ1 typ2 = do
  xs ← tuple_attrs typ1
  ys ← tuple_attrs typ2
  old ← copy_types xs
  added ← add_attrs xs ys
  ok (tuple (append_attrs old added))

unfoldable pub join_relation_types : RdbType → RdbType → Result RdbType
join_relation_types typ1 typ2 = do
  b ← basetyp typ1
  c ← basetyp typ2
  t ← union_tuple_types b c
  ok (relation t)

-- The loop of `RDB_project_tuple_type`.
unfoldable pub project_attrs : Attrs → List Str → Result Attrs
project_attrs xs [] = ok no_attrs
project_attrs xs (n ∷ names) =
    let rest = project_attrs xs names in
    elim (find_attr xs n) [
      | none ↦ err name_error
      | some t ↦ dup_nonscalar_type t >>= (λ u. rest >>= (λ ys. ok (attr n u ys)))
    ]

unfoldable pub project_tuple_type : RdbType → List Str → Result RdbType
project_tuple_type typ names = do xs ← tuple_attrs typ; ys ← project_attrs xs names; ok (tuple ys)

unfoldable pub project_relation_type : RdbType → List Str → Result RdbType
project_relation_type typ names = over_base (λ b. project_tuple_type b names) typ

pub record Renaming : Type 0 where
  pub source : Str
  pub target : Str

-- `RDB_find_rename_from`, with the entry that the index stands for.
unfoldable pub find_rename_from : List Renaming → Str → Option Renaming
find_rename_from [] name = none
find_rename_from (r ∷ renv) name =
    let rest = find_rename_from renv name in if str_equal r.source name then some r else rest

-- The inner loop over the later renamings.
unfoldable pub appears_again : Renaming → List Renaming → Bool
appears_again r [] = false
appears_again r (r' ∷ renv) =
    let rest = appears_again r renv in
    if str_equal r.source r'.source || str_equal r.target r'.target then true else rest

-- The checks of `RDB_rename_tuple_type`: `none` if all is well.
unfoldable pub check_renamings : Attrs → List Renaming → Option Error
check_renamings xs [] = none
check_renamings xs (r ∷ renv) =
    let rest = check_renamings xs renv in
    if not (has_attr xs r.source)
    then some name_error
    else if has_attr xs r.target
    then some name_error
    else if appears_again r renv
    then some invalid_argument
    else rest

abbrev pub new_name : List Renaming → Str → Str
new_name renv name = elim (find_rename_from renv name) [ none ↦ name | some r ↦ r.target ]

unfoldable pub rename_attrs : List Renaming → Attrs → Result Attrs
rename_attrs renv no_attrs = ok no_attrs
rename_attrs renv (attr n t xs) = do
  u ← dup_nonscalar_type t
  ys ← rename_attrs renv xs
  ok (attr (new_name renv n) u ys)

unfoldable pub rename_tuple_type : RdbType → List Renaming → Result RdbType
rename_tuple_type typ renv = do
  xs ← tuple_attrs typ
  elim (check_renamings xs renv) [
    | some e ↦ err e
    | none ↦ rename_attrs renv xs >>= (λ ys. ok (tuple ys))
  ]

unfoldable pub rename_relation_type : RdbType → List Renaming → Result RdbType
rename_relation_type typ renv = over_base (λ b. rename_tuple_type b renv) typ
