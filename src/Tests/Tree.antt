-- ===== src/Tests/Tree.antt =====
-- duro/treerec/tree.c with the default comparison and keys of one byte.
use durodbms.Prelude.{ℕ, ◌≡◌, refl, none, some, [], ◌∷◌, arith}
use durodbms.Prelude.{ok, key_violation, not_found, Ends, Whenever, Returns, ◌>>=◌}
use durodbms.TreeRec.Tree.{
  Entry, null, node, even, plus, BinaryTree, compare_key, create_tree, find, avl_tree_insert,
  tree_insert, avl_delete_node, tree_delete_node, create_node, insert_balance_l, insert_balance_r,
  avl_balance_l, avl_balance_r, del_rightmost, delete_here,
}
use durodbms.TreeRec.Tree.Height.{height, Grown, Shrunk}
use durodbms.TreeRec.Tree.Avl.{avl_tree_insert-Grown, avl_delete_node-Shrunk}
use durodbms.TreeRec.Tree.Linked.{IsLinked, avl_tree_insert-IsLinked, avl_delete_node-IsLinked}
use durodbms.TreeRec.Tree.Refine.{entries, Agrees, avl_tree_insert-insert, avl_delete_node-erase}
use durodbms.TreeRec.Tree.Search.{
  IsSearchTree, Updates, search, tree_insert-Updates, tree_delete_node-Updates,
}
use durodbms.TreeRec.Tree.Compare.{HasLength, compare_key-IsOrderOn, extensions_hide_key}
use durodbms.TreeRec.Sorted.{IsOrderOn, lookup, insert, erase}

abbrev entry : ℕ → Entry
entry k = record { key = k ∷ []; value = k ∷ k ∷ [] }

runs : Unit {0}
unfolding compare_key create_tree create_node find insert_balance_l insert_balance_r avl_tree_insert
    tree_insert avl_balance_l avl_balance_r del_rightmost delete_here avl_delete_node
    tree_delete_node lookup insert erase
runs = tt

-- Ascending keys: the third insertion rotates.
ascending :
    (do
      t1 ← tree_insert (some 10) (create_tree none) (entry 2)
      t2 ← tree_insert (some 11) t1 (entry 5)
      tree_insert (some 12) t2 (entry 8))
    ≡ ok (record {
      root =
          node 11 none even
            (entry 5)
            (node 10 (some 11) even (entry 2) null null)
            (node 12 (some 11) even (entry 8) null null);
      comparison = none;
    })
unfolding runs
ascending = refl

abbrev sample : BinaryTree
sample = record {
  root =
      node 11 none plus (entry 5) (node 10 (some 11) even (entry 2) null null)
        (node 12 (some 11) plus (entry 8) null (node 13 (some 12) even (entry 9) null null));
  comparison = none;
}

one_byte : IsOrderOn (HasLength 1) (compare_key none)
one_byte = compare_key-IsOrderOn 1 (omega arith)

sample-IsSearchTree : IsSearchTree (HasLength 1) sample
unfolding compare_key
sample-IsSearchTree = record {
  balanced = omega arith;
  sorted = (
    refl,
    (refl, (refl, (refl, tt))),
    (refl, (refl, (refl, tt)), (refl, (refl, tt), (refl, tt, tt))),
  );
  linked = (refl, (refl, tt, tt), (refl, tt, (refl, tt, tt)));
}

valid : IsSearchTree (HasLength 1) sample
valid = sample-IsSearchTree

absent : search sample (7 ∷ []) ≡ none
unfolding runs
absent = refl

present : search sample (8 ∷ []) ≡ some (entry 8)
unfolding runs
present = refl

tree_insert-Updates_example :
    Returns
      (tree_insert (some 14) sample (entry 7))
      (Updates (HasLength 1) sample (7 ∷ []) (some (entry 7)))
tree_insert-Updates_example = tree_insert-Updates one_byte valid 14 (entry 7) refl absent

tree_delete_node-Updates_example :
    Returns (tree_delete_node sample (8 ∷ [])) (Updates (HasLength 1) sample (8 ∷ []) none)
tree_delete_node-Updates_example =
    tree_delete_node-Updates one_byte valid (8 ∷ []) (entry 8) refl present

avl_tree_insert-Grown_example :
    Ends key_violation
      (Grown (height sample.root))
      (avl_tree_insert none (some 14) sample.root none (entry 9))
avl_tree_insert-Grown_example =
    avl_tree_insert-Grown none 14 sample.root none (entry 9) valid.balanced

avl_delete_node-Shrunk_example :
    Ends not_found (Shrunk (height sample.root)) (avl_delete_node none sample.root (2 ∷ []))
avl_delete_node-Shrunk_example = avl_delete_node-Shrunk none sample.root (2 ∷ []) valid.balanced

avl_tree_insert-IsLinked_example :
    Whenever (λ y. IsLinked none y.0) (avl_tree_insert none (some 14) sample.root none (entry 10))
avl_tree_insert-IsLinked_example =
    avl_tree_insert-IsLinked none (some 14) sample.root none (entry 10) valid.linked

avl_delete_node-IsLinked_example :
    Whenever (λ y. IsLinked none y.0) (avl_delete_node none sample.root (2 ∷ []))
avl_delete_node-IsLinked_example =
    avl_delete_node-IsLinked none sample.root none (2 ∷ []) valid.linked

avl_tree_insert-insert_example :
    Agrees
      (avl_tree_insert none (some 14) sample.root none (entry 7))
      (insert (compare_key none) (entry 7) (entries sample.root))
avl_tree_insert-insert_example =
    avl_tree_insert-insert none one_byte 14 sample.root none (entry 7) refl valid.sorted
      valid.balanced

avl_delete_node-erase_example :
    Agrees
      (avl_delete_node none sample.root (5 ∷ []))
      (erase (compare_key none) (5 ∷ []) (entries sample.root))
avl_delete_node-erase_example =
    avl_delete_node-erase none one_byte sample.root (5 ∷ []) refl valid.sorted valid.balanced

extensions_hide_key_example :
    Returns
      (do
        t1 ← tree_insert (some 1) (create_tree none) (record { key = 7 ∷ []; value = [] })
        t2 ← tree_insert (some 2) t1 (record { key = 7 ∷ 1 ∷ []; value = [] })
        tree_insert (some 3) t2 (record { key = 7 ∷ 1 ∷ 2 ∷ []; value = [] }))
      (λ t. search t (7 ∷ []) ≡ none)
extensions_hide_key_example =
    extensions_hide_key (7 ∷ []) (1 ∷ []) (2 ∷ []) [] 1 2 3 (omega arith) (omega arith)
      (omega arith)
