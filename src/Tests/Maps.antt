-- ===== src/Tests/Maps.antt =====
-- duro/gen/hashmap.c and duro/dli/varmap.c with small numbers as pointers.
use durodbms.Dli.VarMap.{VarEntry, init_varmap, var_hashing}
use durodbms.Dli.VarMap.Put.{IsVarMap}
use durodbms.Gen.HashMap.{
  KvPair, ample, assign_entry, hashmap_get, hashmap_keys, hashmap_put, init_hashmap, kv_hashing,
}
use durodbms.Gen.HashMap.Put.{IsMap, Maps, hashmap_put-Maps}
use durodbms.Gen.HashTable.{
  HashTable, alloc_map, copy_old, get_from, hashtable_get, hashtable_next, hashtable_put,
  hashtable_size, init_hashtable, iterate, next, place, probe, probe_free, put_into,
}
use durodbms.Gen.HashTable.Table.{init_hashtable-IsValid}
use durodbms.Gen.Strings.{
  dup_str, dup_strings, dup_strvec, find_str, hash_from, hash_str, str_equal,
}
use durodbms.Prelude.{[], arith, false, none, refl, some, true, ℕ, ◌>>=?◌, ◌∷◌, ◌≡◌}

string_runs : Unit {0}
unfolding hash_str hash_from str_equal find_str dup_strvec dup_strings dup_str
string_runs = tt

-- "ab": ((5381 * 33) ^ 97) * 33 ^ 98
hash_ab : hash_str (97 ∷ 98 ∷ []) ≡ 5860902
unfolding string_runs
hash_ab = refl

find_third : find_str ((97 ∷ []) ∷ [] ∷ (98 ∷ []) ∷ []) (98 ∷ []) ≡ some 2
unfolding string_runs
find_third = refl

no_copy : dup_strvec true (true ∷ false ∷ []) ((97 ∷ []) ∷ [] ∷ []) ≡ none
unfolding string_runs
no_copy = refl

abbrev empty_map : HashTable (KvPair ℕ)
empty_map = init_hashmap 16

empty_map-IsMap : IsMap empty_map
unfolding init_hashmap
empty_map-IsMap = init_hashtable-IsValid kv_hashing 16 (omega arith)

hashmap_put-Maps_example :
    (t' : HashTable (KvPair ℕ)) × (hashmap_put ample empty_map (97 ∷ []) (some 5) ≡ some (t', true))
    × Maps empty_map (97 ∷ []) (some 5) t'
hashmap_put-Maps_example = hashmap_put-Maps empty_map (97 ∷ []) (some 5) empty_map-IsMap

map_runs : Unit {0}
unfolding init_hashmap hashmap_put hashmap_get hashmap_keys assign_entry hash_str hash_from
    str_equal dup_str init_hashtable probe probe_free copy_old place put_into alloc_map
    hashtable_put get_from hashtable_get hashtable_next iterate next hashtable_size
map_runs = tt

-- The second value put under a key replaces the first.
overwrites :
    hashmap_put ample empty_map (97 ∷ []) (some 5)
      >>=? (λ r. hashmap_put ample r.0 (97 ∷ []) (some 6))
      >>=? (λ r. hashmap_get r.0 (97 ∷ []))
    ≡ some 6
unfolding map_runs
overwrites = refl

abbrev no_vars : HashTable (VarEntry ℕ)
no_vars = init_varmap 16

no_vars-IsVarMap : IsVarMap no_vars
unfolding init_varmap
no_vars-IsVarMap = init_hashtable-IsValid var_hashing 16 (omega arith)
