-- ===== src/Gen/HashMap.antt =====
-- The maps from strings to pointers of duro/gen/hashmap.c, on the hash table. An entry is changed
-- through the pointer that `RDB_hashtable_get` returns: here the slot at which the search ends is
-- written. A pointer that may be null is an option.
pub mod Put
use durodbms.Gen.HashTable.{
  HashTable, Hashing, clear_hashtable, hashtable_get, hashtable_put, hashtable_size, init_hashtable,
  iterate, probe,
}
use durodbms.Gen.Strings.{Str, dup_str, hash_str, str_equal}
use durodbms.Prelude.{
  Bool, List, Option, Result, false, if◌then◌else◌, map, none, ok, set, some, true, ℕ, ◌%◌, ◌+◌,
  ◌>>=?◌, ◌>>=◌,
}

pub record KvPair {ℓ} (V : Type ℓ) : Type ℓ where
  pub key : Str
  pub valuep : Option V

-- The answers of `malloc`: for the entry, for the copy of its key, and for the two arrays that an
-- insertion may allocate.
pub record Memory : Type 0 where
  pub entry : Bool
  pub key_copy : Bool
  pub array : Bool
  pub larger : Bool

abbrev pub ample : Memory
ample = record { entry = true; key_copy = true; array = true; larger = true }

module _ {ℓ} {E : Type ℓ} (h : Hashing E) where
  -- The slot where the search for `e` ends is given the entry `e`.
  unfoldable pub assign_entry : HashTable E → E → Option (HashTable E × Bool)
  assign_entry t e = elim t.entries [
    | none ↦ some (t, true)
    | some xs ↦ probe h t.capacity xs t.capacity e (h.hash e % t.capacity) >>=? (λ idx. some (
      record {
        entries = some (set xs idx (some e));
        capacity = t.capacity;
        entry_count = t.entry_count;
      },
      true,
    ))
  ]

module _ {ℓ} {V : Type ℓ} where
  -- `hash_str` and `str_equals`
  abbrev pub kv_hashing : Hashing (KvPair V)
  kv_hashing = record { hash = λ e. hash_str e.key; equal = λ a b. str_equal a.key b.key }

  -- The entry that a search compares with; only its key is read.
  abbrev pub kv : Str → Option V → KvPair V
  kv key valuep = record { key = key; valuep = valuep }

  unfoldable pub init_hashmap : ℕ → HashTable (KvPair V)
  init_hashmap capacity = init_hashtable capacity

  unfoldable pub hashmap_put :
      Memory → HashTable (KvPair V) → Str → Option V → Option (HashTable (KvPair V) × Bool)
  hashmap_put m t key valuep = elim (hashtable_get kv_hashing t (kv key none)) [
    | some old ↦ assign_entry kv_hashing t (record old { valuep = valuep })
    | none ↦
        if m.entry
        then elim (dup_str m.key_copy key) [
          | none ↦ some (t, false)
          | some copy ↦ hashtable_put kv_hashing m.array m.larger t (kv copy valuep)
        ]
        else some (t, false)
  ]

  unfoldable pub hashmap_get : HashTable (KvPair V) → Str → Option V
  hashmap_get t key = hashtable_get kv_hashing t (kv key none) >>=? (λ e. e.valuep)

  unfoldable pub hashmap_size : HashTable (KvPair V) → ℕ
  hashmap_size t = hashtable_size t

  -- The loop of `RDB_hashmap_keys`, over as many rounds as the table has entries, and one more.
  unfoldable pub hashmap_keys : HashTable (KvPair V) → Result (List Str)
  hashmap_keys t = do es ← iterate (hashtable_size t + 1) t 0; ok (map (λ e. e.key) es)

  unfoldable pub clear_hashmap : HashTable (KvPair V) → HashTable (KvPair V)
  clear_hashmap t = clear_hashtable t
