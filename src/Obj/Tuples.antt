-- ===== src/Obj/Tuples.antt =====
-- The tuples of duro/obj/tuple.c: a hash table of entries that are hashed and compared by their
-- name. An object is initial, a tuple, or of another kind; the functions that fill a tuple take the
-- first two, and have no result (`none`) on another kind, whose union they would read as a table.
-- The value of an attribute is of any type: `initial_value` is an object as `RDB_init_obj` leaves
-- it, and `copy` is `RDB_copy_obj` onto such an object. A function that calls others in a loop has
-- the answers of `malloc` for each round. A null pointer is never read: `none` stands for that, too.
pub mod Put
pub mod Project
pub mod Entries
pub mod Remove
pub mod Copy
use durodbms.Gen.HashMap.{Memory, assign_entry}
use durodbms.Gen.HashTable.{
  HashTable, Hashing, hashtable_get, hashtable_put, hashtable_size, init_hashtable, iterate,
}
use durodbms.Gen.Strings.{Str, dup_str, hash_str, is_listed, str_equal}
use durodbms.Obj.Types.{array}
use durodbms.Obj.Types.Operations.{Renaming, new_name}
use durodbms.Prelude.{
  Bool, Error, List, Option, Result, [], err, false, if◌then◌else◌, invalid_argument, map,
  name_error, no_memory, none, ok, some, suc, true, ℕ, ◌+◌, ◌>>=?◌, ◌∷◌,
}

pub record TupleEntry {ℓ} (V : Type ℓ) : Type ℓ where
  pub key : Str
  pub obj : V

-- The kind of an object, with the table of a tuple.
pub data Object {ℓ} (V : Type ℓ) : Type ℓ where
  initial : Object V
  tuple_object : HashTable (TupleEntry V) → Object V
  other : Object V

module _ {ℓ} {V : Type ℓ} where
  -- `hash_entry` and `entry_equals`
  abbrev pub entry_hashing : Hashing (TupleEntry V)
  entry_hashing = record { hash = λ e. hash_str e.key; equal = λ a b. str_equal a.key b.key }

  abbrev pub entry : Str → V → TupleEntry V
  entry key obj = record { key = key; obj = obj }

  -- `init_tuple`
  unfoldable pub init_tuple : HashTable (TupleEntry V)
  init_tuple = init_hashtable 31

  -- The table of an object, made where the object is initial.
  unfoldable pub tuple_table : Object V → Option (HashTable (TupleEntry V))
  tuple_table initial = some init_tuple
  tuple_table (tuple_object t) = some t
  tuple_table other = none

  unfoldable pub tuple_size : Object V → Option ℕ
  tuple_size initial = some 0
  tuple_size (tuple_object t) = some (hashtable_size t)
  tuple_size other = none

  -- The entries of a tuple in the order in which the iterator returns them.
  unfoldable pub tuple_entries : HashTable (TupleEntry V) → Option (List (TupleEntry V))
  tuple_entries t = elim (iterate (hashtable_size t + 1) t 0) [ err e ↦ none | ok es ↦ some es ]

  -- The names that `RDB_tuple_attr_names` writes.
  unfoldable pub tuple_attr_names : Object V → Option (List Str)
  tuple_attr_names initial = some []
  tuple_attr_names (tuple_object t) = tuple_entries t >>=? (λ es. some (map (λ e. e.key) es))
  tuple_attr_names other = none

  -- A write of the value of an attribute, through the pointer to its entry.
  unfoldable pub write_value :
      HashTable (TupleEntry V) → Str → V → Option (HashTable (TupleEntry V))
  write_value t attrname v = assign_entry entry_hashing t (entry attrname v) >>=? (λ r. some r.0)

module _ {ℓ} {V : Type ℓ} (initial_value : V) where
  -- The entry that a search compares with; only its key is read.
  unfoldable pub tuple_get : Object V → Str → Option V
  tuple_get (tuple_object t) attrname =
      hashtable_get entry_hashing t (entry attrname initial_value) >>=? (λ e. some e.obj)
  tuple_get _ attrname = none

  -- `provide_entry`; where the Boolean is true the tuple has an entry under the name.
  unfoldable pub provide_entry :
      Memory → HashTable (TupleEntry V) → Str → Option (HashTable (TupleEntry V) × Bool)
  provide_entry m t attrname = elim (hashtable_get entry_hashing t (entry attrname initial_value)) [
    | some old ↦ some (t, true)
    | none ↦
        if m.entry
        then elim (dup_str m.key_copy attrname) [
          | none ↦ some (t, false)
          | some copy ↦ hashtable_put entry_hashing m.array m.larger t (entry copy initial_value)
        ]
        else some (t, false)
  ]

  module _ (copy : V → Result V) where
    -- The value that is left in the attribute, and the error of the copy.
    abbrev pub copied : Option V → V × Option Error
    copied none = (initial_value, none)
    copied (some v) = elim (copy v) [ err e ↦ (initial_value, some e) | ok w ↦ (w, none) ]

    -- The writes through the pointer that `provide_entry` gives, if it succeeds.
    unfoldable pub write_provided :
        HashTable (TupleEntry V) → Bool → Str → Option V → Option (Object V × Option Error)
    write_provided t false attrname objp = some (tuple_object t, some no_memory)
    write_provided t true attrname objp =
        write_value t attrname (copied objp).0 >>=? (λ t'. some (tuple_object t', (copied objp).1))

    unfoldable pub tuple_set : Memory → Object V → Str → Option V → Option (Object V × Option Error)
    tuple_set m o attrname objp =
        tuple_table o
        >>=? (λ t. provide_entry m t attrname)
        >>=? (λ r. write_provided r.0 r.1 attrname objp)

    -- The loop of `RDB_project_tuple`: the result of `RDB_tuple_set` is not looked at.
    unfoldable pub project_values :
        (ℕ → Memory)
        → HashTable (TupleEntry V)
        → List Str
        → Object V
        → Option (Object V × Option Error)
    project_values ms t [] rest = some (rest, none)
    project_values ms t (n ∷ attrv) rest = elim (tuple_get (tuple_object t) n) [
      | none ↦ some (rest, some name_error)
      | some v ↦
          tuple_set (ms 0) rest n (some v) >>=? (λ r. project_values (λ i. ms (suc i)) t attrv r.0)
    ]

    -- The object that is filled is destroyed and initialized first.
    unfoldable pub project_tuple :
        (ℕ → Memory) → Object V → List Str → Object V → Option (Object V × Option Error)
    project_tuple ms (tuple_object t) attrv rest = project_values ms t attrv initial
    project_tuple ms _ attrv rest = some (rest, some invalid_argument)

    -- The loop of `RDB_remove_tuple` over the entries, with the same omission.
    unfoldable pub keep_entries :
        (ℕ → Memory) → List (TupleEntry V) → List Str → Object V → Option (Object V)
    keep_entries ms [] attrv rest = some rest
    keep_entries ms (e ∷ es) attrv rest = elim (is_listed attrv e.key) [
      | true ↦ keep_entries (λ i. ms (suc i)) es attrv rest
      | false ↦
          tuple_set (ms 0) rest e.key (some e.obj)
          >>=? (λ r. keep_entries (λ i. ms (suc i)) es attrv r.0)
    ]

    unfoldable pub remove_tuple :
        (ℕ → Memory) → Object V → List Str → Object V → Option (Object V × Option Error)
    remove_tuple ms (tuple_object t) attrv rest =
        tuple_entries t
        >>=? (λ es. keep_entries ms es attrv initial)
        >>=? (λ filled. some (filled, none))
    remove_tuple ms _ attrv rest = some (rest, some invalid_argument)

    -- The loop of `RDB_rename_tuple` and, with the names as they are, of `RDB_copy_tuple`: to the
    -- first failure.
    unfoldable pub copy_entries :
        (ℕ → Memory)
        → (Str → Str)
        → List (TupleEntry V)
        → Object V
        → Option (Object V × Option Error)
    copy_entries ms name [] dst = some (dst, none)
    copy_entries ms name (e ∷ es) dst = tuple_set (ms 0) dst (name e.key) (some e.obj) >>=? (λ r.
        elim r.1 [
          | some error ↦ some (r.0, some error)
          | none ↦ copy_entries (λ i. ms (suc i)) name es r.0
        ])

    unfoldable pub rename_tuple :
        (ℕ → Memory) → Object V → List Renaming → Object V → Option (Object V × Option Error)
    rename_tuple ms (tuple_object t) renv restup =
        tuple_entries t >>=? (λ es. copy_entries ms (new_name renv) es restup)
    rename_tuple ms _ renv restup = some (restup, some invalid_argument)

    unfoldable pub copy_tuple :
        (ℕ → Memory) → Object V → Object V → Option (Object V × Option Error)
    copy_tuple ms dst initial = some (dst, none)
    copy_tuple ms dst (tuple_object t) =
        tuple_entries t >>=? (λ es. copy_entries ms (λ n. n) es dst)
    copy_tuple ms dst other = some (dst, some invalid_argument)
