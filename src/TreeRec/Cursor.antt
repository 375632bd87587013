-- ===== src/TreeRec/Cursor.antt =====
-- The cursors of duro/treerec/treecursor.c. `nodep` is the address of a node or none for NULL, and
-- a read through it looks the address up in the tree. A call that moves the cursor returns the new
-- `nodep`; where that is none the code also raises a not-found error.
pub mod Context
pub mod Climb
pub mod Walk
use durodbms.Prelude.{
  Bool, Error, List, Option, Result, [], err, false, if◌then◌else◌, invalid_argument, ltb,
  no_memory, none, not_found, null_pointer, ok, some, suc, take, true, zero, ℕ, ◌+◌, ◌==◌, ◌>>=◌,
  ◌∷◌,
}
use durodbms.TreeRec.Bytes.{Bytes}
use durodbms.TreeRec.Field.{Field, fields_to_mem, get_field, slice}
use durodbms.TreeRec.Index.{Index}
use durodbms.TreeRec.RecMap.{Heap, RecMap, delete_from_tree_indexes, delete_node, number_from}
use durodbms.TreeRec.RecMap.Operations.{is_key_update, set_value, set_value_fields}
use durodbms.TreeRec.Tree.{Tree, find, is_null, node, null}

abbrev pub address : Tree → Option ℕ
address null = none
address (node a p b e l r) = some a

-- The node at an address.
unfoldable pub deref : Tree → ℕ → Tree
deref null a = null
deref (node a' p b e l r) a =
    let in_l = deref l a in
    let in_r = deref r a in
    if a' == a then node a' p b e l r else elim (is_null in_l) [ true ↦ in_r | false ↦ in_l ]

-- A new cursor, with `nodep` NULL.
unfoldable pub tree_recmap_cursor : Bool → Result (Option ℕ)
tree_recmap_cursor mem = if mem then ok none else err no_memory

-- `while (nodep->left != NULL) nodep = nodep->left`
unfoldable pub leftmost : Tree → Option ℕ
leftmost null = none
leftmost (node a p b e l r) = elim (is_null l) [ true ↦ some a | false ↦ leftmost l ]

unfoldable pub rightmost : Tree → Option ℕ
rightmost null = none
rightmost (node a p b e l r) = elim (is_null r) [ true ↦ some a | false ↦ rightmost r ]

unfoldable pub cursor_first : Tree → Option ℕ
unfolding leftmost
cursor_first root = leftmost root

abbrev pub parent : Tree → Option ℕ
parent null = none
parent (node a p b e l r) = p

abbrev pub left : Tree → Tree
left null = null
left (node a p b e l r) = l

abbrev pub right : Tree → Tree
right null = null
right (node a p b e l r) = r

abbrev pub is_at : Option ℕ → ℕ → Bool
is_at none a = false
is_at (some b) a = b == a

-- `while (nodep->parent != NULL && nodep != nodep->parent->left) nodep = nodep->parent`, with the
-- parent of the node where it stops. The fuel is the number of nodes; a climb that has not ended by
-- then stands at a node.
unfoldable pub climb_left : ℕ → Tree → ℕ → Option ℕ
climb_left zero root a = some a
climb_left (suc f) root a = elim (parent (deref root a)) [
  | none ↦ none
  | some p ↦ elim (is_at (address (left (deref root p))) a) [
    | true ↦ some p
    | false ↦ climb_left f root p
  ]
]

unfoldable pub climb_right : ℕ → Tree → ℕ → Option ℕ
climb_right zero root a = some a
climb_right (suc f) root a = elim (parent (deref root a)) [
  | none ↦ none
  | some p ↦ elim (is_at (address (right (deref root p))) a) [
    | true ↦ some p
    | false ↦ climb_right f root p
  ]
]

abbrev pub count : Tree → ℕ
count null = 0
count (node a p b e l r) = suc (count l + count r)

unfoldable pub cursor_next : Tree → Option ℕ → Option ℕ
unfolding leftmost
cursor_next root none = none
cursor_next root (some a) = elim (is_null (right (deref root a))) [
  | false ↦ leftmost (right (deref root a))
  | true ↦ climb_left (count root) root a
]

unfoldable pub cursor_prev : Tree → Option ℕ → Option ℕ
unfolding rightmost
cursor_prev root none = none
cursor_prev root (some a) = elim (is_null (left (deref root a))) [
  | false ↦ rightmost (left (deref root a))
  | true ↦ climb_right (count root) root a
]

unfoldable pub cursor_get : RecMap → Option ℕ → ℕ → Result Bytes
cursor_get rm none fno = err not_found
cursor_get rm (some a) fno = elim (deref rm.tree.root a) [
  | null ↦ err null_pointer
  | node a' p b e l r ↦ do
    let part = if ltb fno rm.layout.keyfieldcount then e.key else e.value
    at ← get_field rm.layout fno part
    ok (slice part at)
]

unfoldable pub cursor_set : Heap → RecMap → Option ℕ → List Field → RecMap × Option Error
cursor_set h rm none fields = (rm, some not_found)
cursor_set h rm (some a) fields =
    if is_key_update rm fields then (rm, some invalid_argument) else elim (deref rm.tree.root a) [
      | null ↦ (rm, some null_pointer)
      | node a' p b e l r ↦
          let (value, x) = set_value_fields rm.layout h.buffers e.value fields in
          let t = rm.tree in (record rm { tree = record t { root = set_value a value t.root } }, x)
    ]

-- The cursor moves on before the record is deleted. Its new `nodep` is the second result.
unfoldable pub cursor_delete : Bool → RecMap → Option ℕ → RecMap × Option ℕ × Option Error
cursor_delete mem rm none = (rm, none, some null_pointer)
cursor_delete mem rm (some a) =
    let nodep = cursor_next rm.tree.root (some a) in
    elim (deref rm.tree.root a) [
      | null ↦ (rm, nodep, some null_pointer)
      | node a' p b e l r ↦
          let (indexes', x) = delete_from_tree_indexes rm.layout mem rm.indexes e in
          let rm' = record rm { indexes = indexes' } in
          elim x [
            | some y ↦ (rm', nodep, some y)
            | none ↦ let (rm'', y) = delete_node rm' e.key in (rm'', nodep, y)
          ]
    ]

-- `keyv[i].no = curp->idxp->fieldv[i]`
abbrev pub number_by : List ℕ → List Field → List Field
number_by [] fs = []
number_by (n ∷ ns) [] = []
number_by (n ∷ ns) (f ∷ fs) = record f { no = n } ∷ number_by ns fs

-- `idxp` is the index of the cursor or none for NULL. The result is the new `nodep`.
unfoldable pub cursor_seek : Bool → RecMap → (idxp : Option Index) → List Field → Result ℕ
cursor_seek mem rm idxp keyv = do
  key ← fields_to_mem rm.layout mem (elim idxp [
    | none ↦ number_from 0 (take rm.layout.keyfieldcount keyv)
    | some ix ↦ number_by ix.fieldv keyv
  ])
  elim (address (find rm.tree.comparison rm.tree.root key)) [ none ↦ err not_found | some a ↦ ok a ]
