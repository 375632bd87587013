-- ===== src/TreeRec/RecMap/Restore.antt =====
-- `delete_update_reinsert_tree_node` of duro/treerec/treerecmap.c: the record is deleted, changed
-- and inserted again, for record maps without secondary indexes.
use durodbms.Prelude.{
  Error, List, Option, Ordering, eq, gt, key_violation, lt, no_memory, none, ok, refl, some, true,
  ℕ, ◌∙◌, ◌≡◌, ◌≢◌, ◌⊎◌,
}
use durodbms.TreeRec.Bytes.{Bytes}
use durodbms.TreeRec.Field.{Field, Layout}
use durodbms.TreeRec.RecMap.{Heap}
use durodbms.TreeRec.RecMap.Operations.{can_copy, delete_update_reinsert, set_fields}
use durodbms.TreeRec.RecMap.Read.{Updates-self, insert_kv_plain, insert_kv_plain_err, plain}
use durodbms.TreeRec.RecMap.Steps.{
  Fails, delete_plain, gone, reinsert_ok, reinsert_violation, same_choice, same_order, twice,
  with_nodes,
}
use durodbms.TreeRec.Sorted.{IsOrderOn}
use durodbms.TreeRec.Tree.{BinaryTree, Entry, compare_key}
use durodbms.TreeRec.Tree.Search.{
  IsSearchTree, Updates, search, tree_delete_node-Updates, tree_insert-Updates, tree_insert-present,
}

-- A change of the key, with memory at hand, to a key that no other record of the map has, moves
-- the record: it is read under its new key, not under the old one, other keys read as before, and
-- the tree of the record map keeps its invariant.
pub delete_update_reinsert-moves :
    {P : Bytes → Type 0} (nodes : ℕ → Option ℕ) (h2 : Heap) (a : ℕ) (l : Layout) (t : BinaryTree)
    (old new : Entry) (fs : List Field)
    → nodes 0 ≡ some a
    → IsOrderOn P (compare_key t.comparison)
    → IsSearchTree P t
    → P old.key
    → search t old.key ≡ some old
    → can_copy h2 old ≡ true
    → set_fields l h2.buffers old fs ≡ ok new
    → P new.key
    → (search t new.key ≡ none) ⊎ (compare_key t.comparison new.key old.key ≡ eq)
    → (t2 : BinaryTree) × (delete_update_reinsert (with_nodes nodes) h2 (plain l t) old fs
        ≡ (plain l t2, none))
      × IsSearchTree P t2
      × ((k : Bytes)
          → P k
          → search t2 k ≡ elim (compare_key t.comparison k new.key) [
            | eq ↦ some new
            | _ ↦ elim (compare_key t.comparison k old.key) [ eq ↦ none | _ ↦ search t k ]
          ])
delete_update_reinsert-moves nodes h2 a l t old new fs at o v pk there c s pn free =
    let (t1, d, up) = tree_delete_node-Updates o v old.key old pk there in
    let away : search t1 new.key ≡ none =
      up.reads new.key pn
      ∙ gone (compare_key t.comparison new.key old.key) (search t new.key) free in
    let (t2, i, up2) =
      tree_insert-Updates (same_order t.comparison t1.comparison up.comparison o) up.valid a new pn
        away in
    (
      t2,
      reinsert_ok nodes h2 l t t1 t2 old new fs (delete_plain true l t t1 old.key old there d) c s
          (insert_kv_plain (with_nodes nodes) l t1 t2 new (rw at i)),
      up2.valid,
      twice t t1 t2 old.key new.key none (some new) up up2,
    )

-- In a record map without secondary indexes, with memory at hand, a change of the key to the key of
-- another record is a key violation. The unmodified record is then inserted again: every key reads
-- as before, and the tree of the record map keeps its invariant.
pub delete_update_reinsert-restores :
    {P : Bytes → Type 0} (nodes : ℕ → Option ℕ) (h2 : Heap) (a a2 : ℕ) (l : Layout) (t : BinaryTree)
    (old new holder : Entry) (fs : List Field)
    → nodes 0 ≡ some a
    → h2.nodes 0 ≡ some a2
    → IsOrderOn P (compare_key t.comparison)
    → IsSearchTree P t
    → P old.key
    → search t old.key ≡ some old
    → can_copy h2 old ≡ true
    → set_fields l h2.buffers old fs ≡ ok new
    → P new.key
    → search t new.key ≡ some holder
    → compare_key t.comparison new.key old.key ≢ eq
    → (t2 : BinaryTree) × (delete_update_reinsert (with_nodes nodes) h2 (plain l t) old fs
        ≡ (plain l t2, some key_violation))
      × Updates P t old.key (some old) t2
delete_update_reinsert-restores {P} nodes h2 a a2 l t old new holder fs at at2 o v pk there c s pn
      held ne =
    let (t1, d, up) = tree_delete_node-Updates o v old.key old pk there in
    let o1 : IsOrderOn P (compare_key t1.comparison) =
      same_order t.comparison t1.comparison up.comparison o in
    let still : search t1 new.key ≡ some holder =
      up.reads new.key pn
      ∙ stays (compare_key t.comparison new.key old.key) (search t new.key) ne
      ∙ held in
    let (t2, i, up2) = tree_insert-Updates o1 up.valid a2 old pk (Updates-self o up pk) in
    (
      t2,
      reinsert_violation nodes h2 l t t1 t2 old new fs
          (delete_plain true l t t1 old.key old there d) c s
          (insert_kv_plain_err (with_nodes nodes) l t1 new key_violation
            (rw at (tree_insert-present o1 up.valid a new holder pn still)))
          (insert_kv_plain h2 l t1 t2 old (rw at2 i)),
      record {
        valid = up2.valid;
        comparison = up2.comparison ∙ up.comparison;
        reads = λ k pk'.
            twice t t1 t2 old.key old.key none (some old) up up2 k pk'
            ∙ same_choice (compare_key t.comparison k old.key) (compare_key t.comparison k old.key)
                (some old) none (search t k) refl;
      },
    )
  where
    stays : (c : Ordering) (s : Option Entry) → c ≢ eq → elim c [ eq ↦ none | _ ↦ s ] ≡ s
    stays lt s h = refl
    stays eq s h = absurd (h refl)
    stays gt s h = refl

-- The memory for the second copies or for the new fields is missing, and the record is lost.
abbrev pub Loses :
    (Bytes → Type 0)
    → Heap
    → Layout
    → BinaryTree
    → Entry
    → List Field
    → BinaryTree
    → Option Error
    → Type 0
Loses P h2 l t old fs t2 e = Fails h2 l old fs × (e ≡ some no_memory) × Updates P t old.key none t2

-- The new key is another record's, and the map reads as before.
abbrev pub Restores :
    (Bytes → Type 0)
    → Heap
    → Layout
    → BinaryTree
    → Entry
    → List Field
    → BinaryTree
    → Option Error
    → Type 0
Restores P h2 l t old fs t2 e =
    (new : Entry) × (holder : Entry) × (can_copy h2 old ≡ true)
    × (set_fields l h2.buffers old fs ≡ ok new)
    × (search t new.key ≡ some holder)
    × (compare_key t.comparison new.key old.key ≢ eq)
    × (e ≡ some key_violation)
    × Updates P t old.key (some old) t2

-- The new key is free or equal to the old one, and the record is read under it alone.
abbrev pub Moves :
    (Bytes → Type 0)
    → Heap
    → Layout
    → BinaryTree
    → Entry
    → List Field
    → BinaryTree
    → Option Error
    → Type 0
Moves P h2 l t old fs t2 e =
    (new : Entry) × (can_copy h2 old ≡ true)
    × (set_fields l h2.buffers old fs ≡ ok new)
    × ((search t new.key ≡ none) ⊎ (compare_key t.comparison new.key old.key ≡ eq))
    × (e ≡ none)
    × IsSearchTree P t2
    × ((k : Bytes)
        → P k
        → search t2 k ≡ elim (compare_key t.comparison k new.key) [
          | eq ↦ some new
          | _ ↦ elim (compare_key t.comparison k old.key) [ eq ↦ none | _ ↦ search t k ]
        ])
