-- ===== src/TreeRec/RecMap/Operations.antt =====
-- Update, deletion and lookup of records in duro/treerec/treerecmap.c, and the operations of
-- duro/treerec/treeindex.c that go through an index.
use durodbms.Prelude.{
  Bool, Error, List, Option, Result, [], eq, err, false, if◌then◌else◌, internal, key_violation,
  length, ltb, no_memory, none, not, not_found, ok, some, take, true, ℕ, ◌&&◌, ◌==◌, ◌>>=◌, ◌||◌,
  ◌∷◌,
}
use durodbms.TreeRec.Bytes.{Bytes, memcmp}
use durodbms.TreeRec.Field.{
  Field, Layout, fields_to_mem, get_mem_fields, set_field_left, set_field_mem,
}
use durodbms.TreeRec.Index.{Index}
use durodbms.TreeRec.RecMap.{
  Heap, RecMap, delete_from_tree_indexes, delete_node, delete_tree_rec_by_key, insert_tree_rec_kv,
  key_to_mem, last_error, number_from, value_to_mem,
}
use durodbms.TreeRec.Tree.{Entry, Tree, find, node, null}

abbrev pub contains_no : ℕ → List ℕ → Bool
contains_no n [] = false
contains_no n (m ∷ ms) = (n == m) || contains_no n ms

abbrev pub any_index_has : ℕ → List Index → Bool
any_index_has n [] = false
any_index_has n (ix ∷ ixs) = contains_no n ix.fieldv || any_index_has n ixs

unfoldable pub is_key_update : RecMap → List Field → Bool
is_key_update rm [] = false
is_key_update rm (f ∷ fs) =
    ltb f.no rm.layout.keyfieldcount || any_index_has f.no rm.indexes || is_key_update rm fs

-- The loop over the new fields in `delete_update_reinsert_tree_node`.
unfoldable pub set_fields : Layout → Bool → Entry → List Field → Result Entry
set_fields l mem e [] = ok e
set_fields l mem e (f ∷ fs) =
    if ltb f.no l.keyfieldcount
    then (do
      key ← set_field_mem l mem e.key f l.varkeyfieldcount
      set_fields l mem (record e { key = key }) fs)
    else (do
      value ← set_field_mem l mem e.value f l.vardatafieldcount
      set_fields l mem (record e { value = value }) fs)

-- After the insertion of the changed record: a key violation brings the unmodified one back.
unfoldable pub reinsert_old : Heap → Entry → RecMap × Option Error → RecMap × Option Error
reinsert_old h2 old (rm, none) = (rm, none)
reinsert_old h2 old (rm, some key_violation) =
    last_error key_violation (insert_tree_rec_kv h2 rm old)
reinsert_old h2 old (rm, some x) = (rm, some x)

-- The copies of key and value; nothing is allocated for an empty one.
abbrev pub can_copy : Heap → Entry → Bool
can_copy h e = h.copies || (length e.key == 0) && (length e.value == 0)

-- After the deletion: the copies that serve to bring the record back, and the changes. Every error
-- of the loop is raised as a lack of memory.
unfoldable pub update_reinsert :
    Heap → Heap → Entry → List Field → RecMap × Option Error → RecMap × Option Error
update_reinsert h h2 old fieldv (rm, some x) = (rm, some x)
update_reinsert h h2 old fieldv (rm, none) =
    if not (can_copy h2 old)
    then (rm, some no_memory)
    else elim (set_fields rm.layout h2.buffers old fieldv) [
      | err x ↦ (rm, some no_memory)
      | ok new ↦ reinsert_old h2 old (insert_tree_rec_kv h rm new)
    ]

-- `h2` is the heap after the deletion, for the second copies, the buffers that the new fields need
-- and the insertion of the unmodified record.
unfoldable pub delete_update_reinsert :
    Heap → Heap → RecMap → Entry → List Field → RecMap × Option Error
delete_update_reinsert h h2 rm old fieldv =
    if not (can_copy h old)
    then (rm, some no_memory)
    else update_reinsert h h2 old fieldv (delete_tree_rec_by_key h.buffers rm old.key)

-- The loop over the new fields in `RDB_update_tree_node` writes in place: what is written before
-- an error stays, and so does what the failed call has moved.
unfoldable pub set_value_fields : Layout → Bool → Bytes → List Field → Bytes × Option Error
set_value_fields l mem value [] = (value, none)
set_value_fields l mem value (f ∷ fs) = elim (set_field_mem l mem value f l.vardatafieldcount) [
  | err x ↦ (set_field_left l mem value f, some x)
  | ok value' ↦ set_value_fields l mem value' fs
]

-- `nodep->value = value` for the node at the address `a`.
abbrev pub set_value : ℕ → Bytes → Tree → Tree
set_value a value null = null
set_value a value (node a' p b e l r) =
    node a' p b (if a' == a then record e { value = value } else e) (set_value a value l)
      (set_value a value r)

unfoldable pub update_tree_node :
    Heap → Heap → RecMap → ℕ → Entry → List Field → RecMap × Option Error
update_tree_node h h2 rm a e fieldv =
    if is_key_update rm fieldv
    then delete_update_reinsert h h2 rm e fieldv
    else let (value, x) = set_value_fields rm.layout h.buffers e.value fieldv in
      let t = rm.tree in (record rm { tree = record t { root = set_value a value t.root } }, x)

unfoldable pub update_tree_rec :
    Heap → Heap → RecMap → (keyv fieldv : List Field) → RecMap × Option Error
update_tree_rec h h2 rm keyv fieldv = elim (key_to_mem rm.layout h.buffers keyv) [
  | err x ↦ (rm, some x)
  | ok key ↦ elim (find rm.tree.comparison rm.tree.root key) [
    | null ↦ (rm, some not_found)
    | node a p b e l r ↦ update_tree_node h h2 rm a e fieldv
  ]
]

unfoldable pub delete_tree_rec : Heap → RecMap → List Field → RecMap × Option Error
delete_tree_rec h rm keyv = elim (key_to_mem rm.layout h.buffers keyv) [
  | err x ↦ (rm, some x)
  | ok key ↦ delete_tree_rec_by_key h.buffers rm key
]

-- The key fields are read from the key that the caller gave.
unfoldable pub get_tree_fields :
    Bool → RecMap → (keyv : List Field) → (retfields : List ℕ) → Result (List Field)
get_tree_fields mem rm keyv retfields = do
  key ← key_to_mem rm.layout mem keyv
  elim (find rm.tree.comparison rm.tree.root key) [
    | null ↦ err not_found
    | node a p b e l r ↦ get_mem_fields rm.layout key e.value retfields
  ]

unfoldable pub contains_tree_rec : Bool → RecMap → List Field → Result (Unit {0})
contains_tree_rec mem rm flds = do
  key ← key_to_mem rm.layout mem flds
  elim (find rm.tree.comparison rm.tree.root key) [
    | null ↦ err not_found
    | node a p b e l r ↦ do
      value2 ← value_to_mem rm.layout mem flds
      elim (length e.value == length value2) [
        | false ↦ err not_found
        | true ↦ elim (memcmp e.value value2) [ eq ↦ ok tt | _ ↦ err not_found ]
      ]
  ]

unfoldable pub tree_recmap_est_size : RecMap → ℕ
tree_recmap_est_size rm = 1

-- The record that an index points to: the key is made of the first fields of `keyv`, as many as
-- the primary key has, under the numbers of the primary key.
unfoldable pub index_find : Bool → RecMap → Index → List Field → (missing : Error) → Result Entry
index_find mem rm ix keyv missing = do
  key ← fields_to_mem rm.layout mem (number_from 0 (take rm.layout.keyfieldcount keyv))
  elim (find ix.tree.comparison ix.tree.root key) [
    | null ↦ err not_found
    | node a p b e l r ↦ elim (find rm.tree.comparison rm.tree.root e.value) [
      | null ↦ err missing
      | node a' p' b' e' l' r' ↦ ok e'
    ]
  ]

unfoldable pub tree_index_get_fields :
    Bool → RecMap → Index → (keyv : List Field) → (retfields : List ℕ) → Result (List Field)
tree_index_get_fields mem rm ix keyv retfields = do
  e ← index_find mem rm ix keyv internal
  get_mem_fields rm.layout e.key e.value retfields

unfoldable pub tree_index_delete_rec :
    Bool → RecMap → Index → (keyv : List Field) → RecMap × Option Error
tree_index_delete_rec mem rm ix keyv = elim (index_find mem rm ix keyv not_found) [
  | err x ↦ (rm, some x)
  | ok e ↦
      let (indexes', x) = delete_from_tree_indexes rm.layout mem rm.indexes e in
      let rm' = record rm { indexes = indexes' } in
      elim x [ some y ↦ (rm', some y) | none ↦ delete_node rm' e.key ]
]
