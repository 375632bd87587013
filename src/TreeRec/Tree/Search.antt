-- ===== src/TreeRec/Tree/Search.antt =====
-- The interface of duro/treerec/tree.c (`RDB_tree_find`, `RDB_tree_insert`,
-- `RDB_tree_delete_node`): the invariant of a tree and what the calls do to its lookups.
use durodbms.Prelude.{ℕ, ◌≡◌, refl, sym, ap, ◌∙◌, Option, none, some, Bool, List}
use durodbms.Prelude.{Error, Result, ok, err, key_violation, not_found, eq, Ends, Whenever, Returns}
use durodbms.TreeRec.Bytes.{Bytes}
use durodbms.TreeRec.Tree.{
  Entry, Tree, BinaryTree, Comparison, compare_key, create_tree, find, avl_tree_insert, tree_insert,
  avl_delete_node, tree_delete_node,
}
use durodbms.TreeRec.Tree.Height.{IsBalanced}
use durodbms.TreeRec.Tree.Avl.{avl_tree_insert-Grown, avl_delete_node-Shrunk}
use durodbms.TreeRec.Tree.Linked.{IsLinked, avl_tree_insert-IsLinked, avl_delete_node-IsLinked}
use durodbms.TreeRec.Tree.Refine.{
  entries, entry_of, Agrees, find-lookup, avl_tree_insert-insert, avl_delete_node-erase,
}
use durodbms.TreeRec.Sorted.{IsOrderOn, IsSorted, lookup}
use durodbms.TreeRec.Sorted.Order.{insert-IsSorted, erase-IsSorted}
use durodbms.TreeRec.Sorted.Lookup.{
  lookup-insert, lookup-erase, insert_absent, insert_present, erase_present, erase_absent,
}

-- The invariant of a tree whose keys satisfy `P`.
pub record IsSearchTree (P : Bytes → Type 0) (t : BinaryTree) : Type 0 where
  pub balanced : IsBalanced t.root
  pub sorted : IsSorted (compare_key t.comparison) P (entries t.root)
  pub linked : IsLinked none t.root

pub create_tree-IsSearchTree :
    (P : Bytes → Type 0) (c : Option Comparison) → IsSearchTree P (create_tree c)
unfolding create_tree
create_tree-IsSearchTree P c = record { balanced = tt; sorted = tt; linked = tt }

-- The entry of the node that `RDB_tree_find` returns.
abbrev pub search : BinaryTree → Bytes → Option Entry
search t k = entry_of (find t.comparison t.root k)

-- The tree `t'` has the invariant and reads `v` under the keys equal to `q`, and what `t` reads
-- under all others.
pub record Updates (P : Bytes → Type 0) (t : BinaryTree) (q : Bytes) (v : Option Entry)
    (t' : BinaryTree) : Type 0 where
  pub valid : IsSearchTree P t'
  pub comparison : t'.comparison ≡ t.comparison
  pub reads :
      (k : Bytes)
      → P k
      → search t' k ≡ elim (compare_key t.comparison k q) [ eq ↦ v | _ ↦ search t k ]

-- Of a call that agrees with a successful operation on the list.
Agrees-ok :
    (r : Result (Tree × Bool)) (s : Result (List Entry)) (es : List Entry)
    → Agrees r s
    → s ≡ ok es
    → (x : Tree × Bool) × (r ≡ ok x) × (entries x.0 ≡ es)
Agrees-ok (ok x) s es h q = (x, refl, rw (q, Agrees) at h)
Agrees-ok (err d) s es h q = absurd (rw (q, Agrees) at h)

Agrees-err :
    (r : Result (Tree × Bool)) (s : Result (List Entry)) {d : Error}
    → Agrees r s
    → s ≡ err d
    → r ≡ err d
Agrees-err (ok x) s h q = absurd (rw (q, Agrees) at h)
Agrees-err (err d) s h q = ap err (rw (q, Agrees) at h)

module _ {P : Bytes → Type 0} {t : BinaryTree} (o : IsOrderOn P (compare_key t.comparison))
    (v : IsSearchTree P t) where
  cmp : Comparison
  cmp = compare_key t.comparison

  searched : (k : Bytes) → P k → search t k ≡ lookup (compare_key t.comparison) k (entries t.root)
  searched k pk = find-lookup t.comparison o t.root k pk v.sorted

  -- What a new root owes: it has the invariants, and its entries are those of the list operation.
  updates :
      (q : Bytes) (w : Option Entry) (root' : Tree) (es : List Entry)
      → IsBalanced root'
      → IsLinked none root'
      → entries root' ≡ es
      → IsSorted (compare_key t.comparison) P es
      → ((k : Bytes)
          → P k
          → lookup (compare_key t.comparison) k es ≡ elim (compare_key t.comparison k q) [
            | eq ↦ w
            | _ ↦ lookup (compare_key t.comparison) k (entries t.root)
          ])
      → Updates P t q w (record t { root = root' })
  updates q w root' es bal link same sorted reads = record {
    valid = record { balanced = bal; sorted = rw same sorted; linked = link };
    comparison = refl;
    reads = λ k pk.
        find-lookup t.comparison o root' k pk (rw same sorted)
        ∙ ap (λ l. lookup (compare_key t.comparison) k l) same
        ∙ reads k pk
        ∙ ap (λ x. elim (compare_key t.comparison k q) [ eq ↦ w | _ ↦ x ]) (sym (searched k pk));
  }

  -- With memory at hand, the insertion of a key that the tree does not hold succeeds. The result
  -- is a search tree again and reads the new entry under that key and the old one elsewhere.
  pub tree_insert-Updates :
      (a : ℕ) (new : Entry)
      → P new.key
      → search t new.key ≡ none
      → Returns (tree_insert (some a) t new) (Updates P t new.key (some new))
  unfolding tree_insert
  tree_insert-Updates a new pn absent =
      let (es, run) =
        insert_absent o new (entries t.root) pn v.sorted (sym (searched new.key pn) ∙ absent) in
      let (x, called, same) =
        Agrees-ok (avl_tree_insert t.comparison (some a) t.root none new) _ es
          (avl_tree_insert-insert t.comparison o a t.root none new pn v.sorted v.balanced) run in
      (
        record t { root = x.0 },
        rw called,
        updates new.key (some new) x.0 es
            (rw (called, Ends) at
              (avl_tree_insert-Grown t.comparison a t.root none new v.balanced)).0
            (rw (called, Whenever) at
              (avl_tree_insert-IsLinked t.comparison (some a) t.root none new v.linked))
            same (rw (run, Ends) at (insert-IsSorted o new (entries t.root) pn v.sorted))
            (λ k pk. rw (run, Ends) at (lookup-insert o new (entries t.root) k pn pk v.sorted)),
      )

  -- The insertion of a key that the tree holds is refused.
  pub tree_insert-present :
      (a : ℕ) (new old : Entry)
      → P new.key
      → search t new.key ≡ some old
      → tree_insert (some a) t new ≡ err key_violation
  unfolding tree_insert
  tree_insert-present a new old pn present = rw (
      Agrees-err (avl_tree_insert t.comparison (some a) t.root none new) _
        (avl_tree_insert-insert t.comparison o a t.root none new pn v.sorted v.balanced)
        (insert_present o new old (entries t.root) (sym (searched new.key pn) ∙ present)))

  -- The deletion of a key that the tree holds succeeds. The result is a search tree again, does
  -- not hold that key and reads as before elsewhere.
  pub tree_delete_node-Updates :
      (k : Bytes) (old : Entry)
      → P k
      → search t k ≡ some old
      → Returns (tree_delete_node t k) (Updates P t k none)
  unfolding tree_delete_node
  tree_delete_node-Updates q old pq present =
      let (es, run) = erase_present o q old (entries t.root) (sym (searched q pq) ∙ present) in
      let (x, called, same) =
        Agrees-ok (avl_delete_node t.comparison t.root q) _ es
          (avl_delete_node-erase t.comparison o t.root q pq v.sorted v.balanced) run in
      (
        record t { root = x.0 },
        rw called,
        updates q none x.0 es
            (rw (called, Ends) at (avl_delete_node-Shrunk t.comparison t.root q v.balanced)).0
            (rw (called, Whenever) at
              (avl_delete_node-IsLinked t.comparison t.root none q v.linked))
            same (rw (run, Ends) at (erase-IsSorted o q (entries t.root) v.sorted))
            (λ k pk. rw (run, Ends) at (lookup-erase o q (entries t.root) k pq pk v.sorted)),
      )

  -- The deletion of a key that the tree does not hold is refused.
  pub tree_delete_node-absent :
      (k : Bytes) → P k → search t k ≡ none → tree_delete_node t k ≡ err not_found
  unfolding tree_delete_node
  tree_delete_node-absent k pk absent = rw (
      Agrees-err (avl_delete_node t.comparison t.root k) _
        (avl_delete_node-erase t.comparison o t.root k pk v.sorted v.balanced)
        (erase_absent o k (entries t.root) (sym (searched k pk) ∙ absent)))
