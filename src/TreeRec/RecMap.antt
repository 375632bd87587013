-- ===== src/TreeRec/RecMap.antt =====
-- The record maps in memory of duro/treerec/treerecmap.c: records in a search tree from keys to
-- values, and secondary indexes. A call returns the new state, also where it fails, with the error.
-- A heap says what the calls of the allocators return.

pub mod Operations
pub mod Read
pub mod Steps
pub mod Restore
pub mod Compare
pub mod Atomic
pub mod Values
pub mod Rewrite
use durodbms.Prelude.{
  Bool, Error, List, Option, Ordering, Result, [], drop, eq, err, false, if◌then◌else◌,
  key_violation, length, lt, no_memory, none, not, not_supported, ok, some, suc, take, true, ℕ,
  ◌==◌, ◌>>=◌, ◌∷◌,
}
use durodbms.TreeRec.Bytes.{Bytes, abs_diff, lex, memcmp}
use durodbms.TreeRec.Field.{Field, Layout, fields_to_mem, get_field, get_mem_fields, slice}
use durodbms.TreeRec.Index.{CompareField, Index, compare_values, directed}
use durodbms.TreeRec.Tree.{
  BinaryTree, Entry, create_tree, find, is_null, node, null, tree_delete_node, tree_insert,
}

-- Whether buffers can be allocated, whether a copy of a record can be, and the address of the new
-- node of each tree: of the record map's at 0, of its indexes' from 1 on.
pub record Heap : Type 0 where
  pub buffers : Bool
  pub copies : Bool
  pub nodes : ℕ → Option ℕ

pub record RecMap : Type 0 where
  pub layout : Layout
  pub tree : BinaryTree
  pub indexes : List Index

-- The bytes of a field of a key. An error of `RDB_get_field` is negative.
unfoldable pub compare_fields : Layout → List CompareField → Bytes → Bytes → Ordering → Ordering
compare_fields l [] d1 d2 last = last
compare_fields l (c ∷ cs) d1 d2 last = elim (get_field l c.fno d1) [
  | err e ↦ lt
  | ok at1 ↦ elim (get_field l c.fno d2) [
    | err e ↦ lt
    | ok at2 ↦
        lex (directed c (compare_values c (slice d1 at1) (slice d2 at2)))
          (compare_fields l cs d1 d2 last)
  ]
]

unfoldable pub recmap_compare_key : Layout → List CompareField → Bytes → Bytes → Ordering
recmap_compare_key l cmpv d1 d2 = compare_fields l cmpv d1 d2 (
    if length cmpv == l.fieldcount
    then eq
    else lex (memcmp d1 d2) (abs_diff (length d1) (length d2)))

abbrev pub var_count : List (Option ℕ) → ℕ
var_count [] = 0
var_count (some n ∷ infos) = var_count infos
var_count (none ∷ infos) = suc (var_count infos)

-- The lengths in `fieldinfov`; `RDB_new_recmap` of duro/rec/recmap.c counts the variable ones.
unfoldable pub new_layout : List (Option ℕ) → ℕ → Layout
new_layout infos keyfieldc = record {
  fieldinfos = infos;
  fieldcount = length infos;
  keyfieldcount = keyfieldc;
  varkeyfieldcount = var_count (take keyfieldc infos);
  vardatafieldcount = var_count (drop keyfieldc infos);
}

unfoldable pub create_tree_recmap :
    Heap → List (Option ℕ) → ℕ → List CompareField → (unique : Bool) → Result RecMap
create_tree_recmap h infos keyfieldc cmpv unique =
    if not h.buffers
    then err no_memory
    else if not unique
    then err not_supported
    else let l = new_layout infos keyfieldc in
      ok
        (record { layout = l; tree = create_tree (some (recmap_compare_key l cmpv)); indexes = [] })

abbrev pub number_from : ℕ → List Field → List Field
number_from n [] = []
number_from n (f ∷ fs) = record f { no = n } ∷ number_from (suc n) fs

unfoldable pub key_to_mem : Layout → Bool → List Field → Result Bytes
key_to_mem l mem fldv = fields_to_mem l mem (number_from 0 (take l.keyfieldcount fldv))

unfoldable pub value_to_mem : Layout → Bool → List Field → Result Bytes
value_to_mem l mem fldv =
    fields_to_mem l mem (number_from l.keyfieldcount (drop l.keyfieldcount fldv))

unfoldable pub make_skey : Layout → Bool → Index → Entry → Result Bytes
make_skey l mem ix e =
    if not mem
    then err no_memory
    else get_mem_fields l e.key e.value ix.fieldv >>= fields_to_mem l mem

abbrev pub found : BinaryTree → Bytes → Bool
found t key = not (is_null (find t.comparison t.root key))

unfoldable pub check_in_indexes : Layout → Bool → List Index → Entry → Option Error
check_in_indexes l mem [] e = none
check_in_indexes l mem (ix ∷ ixs) e = elim (make_skey l mem ix e) [
  | err x ↦ some x
  | ok skey ↦ elim (found ix.tree skey) [
    | true ↦ some key_violation
    | false ↦ check_in_indexes l mem ixs e
  ]
]

-- The index entry is the primary key. The indexes before one that fails keep their new entries.
unfoldable pub insert_into_indexes :
    Layout → Heap → ℕ → List Index → Entry → List Index × Option Error
insert_into_indexes l h i [] e = ([], none)
insert_into_indexes l h i (ix ∷ ixs) e = elim (make_skey l h.buffers ix e) [
  | err x ↦ (ix ∷ ixs, some x)
  | ok skey ↦ elim (tree_insert (h.nodes i) ix.tree (record { key = skey; value = e.key })) [
    | err x ↦ (ix ∷ ixs, some x)
    | ok t ↦
        let (rest, x) = insert_into_indexes l h (suc i) ixs e in (record ix { tree = t } ∷ rest, x)
  ]
]

unfoldable pub delete_from_tree_indexes :
    Layout → Bool → List Index → Entry → List Index × Option Error
delete_from_tree_indexes l mem [] e = ([], none)
delete_from_tree_indexes l mem (ix ∷ ixs) e = elim (make_skey l mem ix e) [
  | err x ↦ (ix ∷ ixs, some x)
  | ok skey ↦ elim (tree_delete_node ix.tree skey) [
    | err x ↦ (ix ∷ ixs, some x)
    | ok t ↦
        let (rest, x) = delete_from_tree_indexes l mem ixs e in (record ix { tree = t } ∷ rest, x)
  ]
]

abbrev pub delete_node : RecMap → Bytes → RecMap × Option Error
delete_node rm key = elim (tree_delete_node rm.tree key) [
  | err x ↦ (rm, some x)
  | ok t ↦ (record rm { tree = t }, none)
]

unfoldable pub delete_tree_rec_by_key : Bool → RecMap → Bytes → RecMap × Option Error
delete_tree_rec_by_key mem rm key = elim (find rm.tree.comparison rm.tree.root key) [
  | null ↦ delete_node rm key
  | node a p b e l r ↦
      let (indexes', x) = delete_from_tree_indexes rm.layout mem rm.indexes e in
      let rm' = record rm { indexes = indexes' } in
      elim x [ some y ↦ (rm', some y) | none ↦ delete_node rm' key ]
]

-- An error raised by a call replaces the one that was raised before it.
abbrev pub last_error : Error → RecMap × Option Error → RecMap × Option Error
last_error x (rm, none) = (rm, some x)
last_error x (rm, some y) = (rm, some y)

unfoldable pub insert_tree_rec_kv : Heap → RecMap → Entry → RecMap × Option Error
insert_tree_rec_kv h rm e = elim (check_in_indexes rm.layout h.buffers rm.indexes e) [
  | some x ↦ (rm, some x)
  | none ↦ elim (tree_insert (h.nodes 0) rm.tree e) [
    | err x ↦ (rm, some x)
    | ok t ↦
        let (indexes', x) = insert_into_indexes rm.layout h 1 rm.indexes e in
        let rm' = record rm { tree = t; indexes = indexes' } in
        elim x [
          | none ↦ (rm', none)
          | some y ↦ last_error y (delete_tree_rec_by_key h.buffers rm' e.key)
        ]
  ]
]

unfoldable pub insert_tree_rec : Heap → RecMap → List Field → RecMap × Option Error
insert_tree_rec h rm flds = elim (key_to_mem rm.layout h.buffers flds) [
  | err x ↦ (rm, some x)
  | ok key ↦ elim (value_to_mem rm.layout h.buffers flds) [
    | err x ↦ (rm, some x)
    | ok value ↦ insert_tree_rec_kv h rm (record { key = key; value = value })
  ]
]
