-- ===== src/Dli/VarMap.antt =====
-- The transient variables of duro/dli/varmap.c: a hash table from names to objects and flags. An
-- object is read only by its address, so its type is an argument. The fields of a new entry are
-- written after the entry has been inserted, through the same pointer.

pub mod Put
use durodbms.Gen.HashMap.{Memory, assign_entry}
use durodbms.Gen.HashTable.{HashTable, Hashing, hashtable_get, hashtable_put, init_hashtable}
use durodbms.Gen.Strings.{Str, dup_str, hash_str, str_equal}
use durodbms.Prelude.{Option, Result, err, if◌then◌else◌, no_memory, none, ok, some, ℕ, ◌%◌, ◌>>=?◌}

pub record VarEntry {ℓ} (O : Type ℓ) : Type ℓ where
  pub name : Str
  pub varp : Option O
  pub flags : ℕ

module _ {ℓ} {O : Type ℓ} where
  -- `hash_varentry` and `varentry_equals`
  abbrev pub var_hashing : Hashing (VarEntry O)
  var_hashing = record { hash = λ e. hash_str e.name; equal = λ a b. str_equal a.name b.name }

  abbrev pub var_entry : Str → Option O → ℕ → VarEntry O
  var_entry name varp flags = record { name = name; varp = varp; flags = flags }

  unfoldable pub init_varmap : ℕ → HashTable (VarEntry O)
  init_varmap capacity = init_hashtable capacity

  -- `entryp->varp = varp; entryp->flags = flags;`, the flags in an `RDB_bool`, which is a byte.
  unfoldable pub write_var :
      HashTable (VarEntry O) → VarEntry O → Option O → ℕ → Option (HashTable (VarEntry O))
  write_var t e varp flags =
      assign_entry var_hashing t (record e { varp = varp; flags = flags % 256 })
      >>=? (λ r. some r.0)

  -- The end of a call that succeeds: its result, and the state of the map.
  abbrev pub finished :
      HashTable (VarEntry O) → Option (Result (HashTable (VarEntry O)) × HashTable (VarEntry O))
  finished u = some (ok u, u)

  -- `RDB_hashtable_put` of the new entry and the writes after it.
  unfoldable pub insert_var :
      Memory
      → HashTable (VarEntry O)
      → VarEntry O
      → Option O
      → ℕ
      → Option (Result (HashTable (VarEntry O)) × HashTable (VarEntry O))
  insert_var m t e varp flags = hashtable_put var_hashing m.array m.larger t e >>=? (λ r.
      if r.1 then write_var r.0 e varp flags >>=? finished else some (err no_memory, r.0))

  -- The result and the state of the map after the call.
  unfoldable pub varmap_put :
      Memory
      → HashTable (VarEntry O)
      → Str
      → Option O
      → ℕ
      → Option (Result (HashTable (VarEntry O)) × HashTable (VarEntry O))
  varmap_put m t name varp flags = elim (hashtable_get var_hashing t (var_entry name none 0)) [
    | some e ↦ write_var t e varp flags >>=? finished
    | none ↦
        if m.entry
        then elim (dup_str m.key_copy name) [
          | none ↦ some (err no_memory, t)
          | some copy ↦ insert_var m t (var_entry copy none 0) varp flags
        ]
        else some (err no_memory, t)
  ]

  unfoldable pub varmap_get : HashTable (VarEntry O) → Str → Option (VarEntry O)
  varmap_get t name = hashtable_get var_hashing t (var_entry name none 0)
