-- ===== src/Tests/Tuples.antt =====
-- duro/obj/tuple.c with tuples of numbers.
use durodbms.Gen.HashMap.{ample, assign_entry}
use durodbms.Gen.HashTable.{
  HashTable, alloc_map, copy_old, get_from, hashtable_get, hashtable_next, hashtable_put,
  hashtable_size, init_hashtable, iterate, next, place, probe, probe_free, put_into,
}
use durodbms.Gen.Strings.{dup_str, find_str, hash_from, hash_str, str_equal}
use durodbms.Obj.Tuples.{
  TupleEntry, copy_entries, copy_tuple, entry, entry_hashing, init_tuple, initial, keep_entries,
  project_tuple, project_values, provide_entry, remove_tuple, rename_tuple, tuple_attr_names,
  tuple_entries, tuple_get, tuple_object, tuple_set, tuple_size, tuple_table, write_provided,
  write_value,
}
use durodbms.Obj.Types.Operations.{find_rename_from}
use durodbms.Prelude.{
  Bool, Option, [], err, name_error, no_memory, none, ok, refl, some, true, ℕ, ◌>>=?◌, ◌∷◌, ◌≡◌,
}

abbrev table_of : Option (HashTable (TupleEntry ℕ) × Bool) → HashTable (TupleEntry ℕ)
table_of none = init_tuple
table_of (some r) = r.0

-- An attribute more.
abbrev with_value : HashTable (TupleEntry ℕ) → ℕ → ℕ → HashTable (TupleEntry ℕ)
with_value t c v = table_of (hashtable_put entry_hashing true true t (entry (c ∷ []) v))

abbrev two_values : HashTable (TupleEntry ℕ)
two_values = with_value (with_value init_tuple 97 5) 98 6

tuple_runs : Unit {0}
unfolding assign_entry hash_str hash_from str_equal find_str dup_str init_hashtable probe probe_free
    copy_old place put_into alloc_map hashtable_put get_from hashtable_get hashtable_next iterate
    next hashtable_size init_tuple tuple_table tuple_size tuple_entries tuple_attr_names tuple_get
    provide_entry write_value write_provided tuple_set project_values project_tuple keep_entries
    remove_tuple copy_entries rename_tuple copy_tuple find_rename_from
tuple_runs = tt

names_of_two : tuple_attr_names (tuple_object two_values) ≡ some ((97 ∷ []) ∷ (98 ∷ []) ∷ [])
unfolding tuple_runs
names_of_two = refl

not_an_attribute :
    project_tuple 0 ok (λ i. ample) (tuple_object two_values) ((99 ∷ []) ∷ []) initial
    ≡ some (initial, some name_error)
unfolding tuple_runs
not_an_attribute = refl

renamed :
    rename_tuple 0 ok
        (λ i. ample)
        (tuple_object two_values)
        (record { source = 97 ∷ []; target = 99 ∷ [] } ∷ [])
        initial
      >>=? (λ r. tuple_get 0 r.0 (99 ∷ []))
    ≡ some 5
unfolding tuple_runs
renamed = refl

-- The copy of the value fails, and the projection succeeds with an initial object.
unnoticed :
    project_tuple 0
        (λ v. err no_memory)
        (λ i. ample)
        (tuple_object two_values)
        ((97 ∷ []) ∷ [])
        initial
      >>=? (λ r. tuple_get 0 r.0 (97 ∷ []))
    ≡ some 0
unfolding tuple_runs
unnoticed = refl
