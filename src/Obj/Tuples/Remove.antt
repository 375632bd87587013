-- ===== src/Obj/Tuples/Remove.antt =====
-- `RDB_remove_tuple` of duro/obj/tuple.c: the values under each name.
use durodbms.Gen.HashTable.{HashTable}
use durodbms.Gen.Strings.{Str, is_listed}
use durodbms.Obj.Tuples.{Object, TupleEntry, tuple_get, tuple_object}
use durodbms.Obj.Tuples.Entries.{names_of}
use durodbms.Obj.Tuples.Project.{stored}
use durodbms.Prelude.{List, Result, if◌then◌else◌, not, ◌&&◌, ◌≡◌}

module _ {ℓ} {V : Type ℓ} (initial_value : V) where
  -- `r` has, of the entries, the copies of those that are not in the list, and else the attributes
  -- of `rest`.
  abbrev Keeps :
      (V → Result V)
      → HashTable (TupleEntry V)
      → List Str
      → List (TupleEntry V)
      → Object V
      → Object V
      → Type ℓ
  Keeps copy t attrv es rest r =
      (q : Str)
      → tuple_get initial_value r q ≡ (
          if is_listed (names_of es) q && not (is_listed attrv q)
          then stored initial_value copy (tuple_get initial_value (tuple_object t) q)
          else tuple_get initial_value rest q)
