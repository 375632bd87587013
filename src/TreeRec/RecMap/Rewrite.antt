-- ===== src/TreeRec/RecMap/Rewrite.antt =====
-- `RDB_update_tree_rec` of duro/treerec/treerecmap.c where no field of a key changes: the value of
-- the node is rewritten where it stands.
use durodbms.Prelude.{
  ==_ne, ==_refl, Error, List, Option, ap, false, none, ok, refl, some, ℕ, ◌∙◌, ◌≡◌, ◌≢◌,
}
use durodbms.TreeRec.Bytes.{Bytes}
use durodbms.TreeRec.Field.{Field}
use durodbms.TreeRec.RecMap.{Heap, RecMap, key_to_mem}
use durodbms.TreeRec.RecMap.Operations.{
  is_key_update, set_value, set_value_fields, update_tree_node, update_tree_rec,
}
use durodbms.TreeRec.RecMap.Values.{find-set_value, set_value-IsSearchTree}
use durodbms.TreeRec.Tree.{Balance, Comparison, Entry, Tree, find, node, null}
use durodbms.TreeRec.Tree.Refine.{entry_of}
use durodbms.TreeRec.Tree.Search.{IsSearchTree, search}

update_runs :
    (h h2 : Heap) (rm : RecMap) (keyv fieldv : List Field) (key value : Bytes) (a : ℕ)
    (p : Option ℕ) (b : Balance) (e : Entry) (l r : Tree)
    → key_to_mem rm.layout h.buffers keyv ≡ ok key
    → find rm.tree.comparison rm.tree.root key ≡ node a p b e l r
    → is_key_update rm fieldv ≡ false
    → set_value_fields rm.layout h.buffers e.value fieldv ≡ (value, none)
    → update_tree_rec h h2 rm keyv fieldv ≡ (
      record {
        layout = rm.layout;
        tree = record { root = set_value a value rm.tree.root; comparison = rm.tree.comparison };
        indexes = rm.indexes;
      },
      none,
    )
unfolding update_tree_rec update_tree_node
update_runs h h2 rm keyv fieldv key value a p b e l r k f n s =
    let bytes = ap (λ (x : Bytes × Option Error). x.0) s in
    let error = ap (λ (x : Bytes × Option Error). x.1) s in
    rw (k, update_tree_rec)
      (rw (f, update_tree_rec) (rw (n, update_tree_node) (rw error (rw bytes refl))))

-- What a lookup reads in the rewritten tree, by the node that it finds.
reads_same :
    (c : Option Comparison) (a : ℕ) (v : Bytes) (root : Tree) (k : Bytes) (p : Option ℕ)
    (b : Balance) (e : Entry) (l r : Tree)
    → find c root k ≡ node a p b e l r
    → entry_of (find c (set_value a v root) k) ≡ some (record e { value = v })
reads_same c a v root k p b e l r f =
    ap entry_of (find-set_value c a v root k ∙ ap (set_value a v) f) ∙ rw (==_refl a a refl) refl

reads_other :
    (c : Option Comparison) (a : ℕ) (v : Bytes) (root : Tree) (k : Bytes) (a' : ℕ) (p : Option ℕ)
    (b : Balance) (e : Entry) (l r : Tree)
    → find c root k ≡ node a' p b e l r
    → a' ≢ a
    → entry_of (find c (set_value a v root) k) ≡ some e
reads_other c a v root k a' p b e l r f ne =
    ap entry_of (find-set_value c a v root k ∙ ap (set_value a v) f) ∙ rw (==_ne a' a ne) refl

-- An update of a record that the map holds, where `RDB_recmap_is_key_update` finds no field of a
-- key and the new fields can be written, succeeds. The record has its new value under its old key,
-- every key that is found at another node reads as before, a key that is not held is not held
-- afterwards, the indexes are untouched, and the tree keeps its invariant.
pub update_tree_rec-rewrites :
    {P : Bytes → Type 0} (h h2 : Heap) (rm : RecMap) (keyv fieldv : List Field) (key value : Bytes)
    (a : ℕ) (p : Option ℕ) (b : Balance) (e : Entry) (l r : Tree)
    → key_to_mem rm.layout h.buffers keyv ≡ ok key
    → find rm.tree.comparison rm.tree.root key ≡ node a p b e l r
    → is_key_update rm fieldv ≡ false
    → set_value_fields rm.layout h.buffers e.value fieldv ≡ (value, none)
    → IsSearchTree P rm.tree
    → (rm' : RecMap) × (update_tree_rec h h2 rm keyv fieldv ≡ (rm', none))
      × (search rm'.tree key ≡ some (record e { value = value }))
      × ((k : Bytes) (a' : ℕ) (p' : Option ℕ) (b' : Balance) (e' : Entry) (l' r' : Tree)
          → find rm.tree.comparison rm.tree.root k ≡ node a' p' b' e' l' r'
          → a' ≢ a
          → search rm'.tree k ≡ some e')
      × ((k : Bytes) → find rm.tree.comparison rm.tree.root k ≡ null → search rm'.tree k ≡ none)
      × (rm'.indexes ≡ rm.indexes)
      × IsSearchTree P rm'.tree
update_tree_rec-rewrites {P} h h2 rm keyv fieldv key value a p b e l r k f n s v =
    let c = rm.tree.comparison in
    let root = rm.tree.root in
    (
      record {
        layout = rm.layout;
        tree = record { root = set_value a value root; comparison = c };
        indexes = rm.indexes;
      },
      update_runs h h2 rm keyv fieldv key value a p b e l r k f n s,
      reads_same c a value root key p b e l r f,
      λ q a' p' b' e' l' r' g ne. reads_other c a value root q a' p' b' e' l' r' g ne,
      λ q g. ap entry_of (find-set_value c a value root q ∙ ap (set_value a value) g),
      refl,
      set_value-IsSearchTree P a value rm.tree v,
    )
