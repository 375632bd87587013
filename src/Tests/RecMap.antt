-- ===== src/Tests/RecMap.antt =====
-- duro/treerec/treerecmap.c on a record map whose keys are one byte and whose values are two.
use durodbms.Prelude.{
  List, [], arith, eq, false, inl, inr, key_violation, no_memory, none, ok, refl, some, true, ℕ,
  ◌∷◌, ◌≡◌, ◌≢◌, ◌⊎◌,
}
use durodbms.TreeRec.Bytes.{abs_diff, memcmp}
use durodbms.TreeRec.Field.{
  Field, Layout, copy_fixed, copy_var, fields_to_mem, fixed_offset, get_field, locate, mem_size,
  set_field_mem, store,
}
use durodbms.TreeRec.RecMap.{
  Heap, check_in_indexes, compare_fields, delete_from_tree_indexes, delete_tree_rec_by_key,
  insert_into_indexes, insert_tree_rec, insert_tree_rec_kv, key_to_mem, recmap_compare_key,
  value_to_mem,
}
use durodbms.TreeRec.RecMap.Compare.{recmap_compare_key-IsOrderOn}
use durodbms.TreeRec.RecMap.Operations.{
  delete_update_reinsert, get_tree_fields, is_key_update, reinsert_old, set_fields, update_reinsert,
  update_tree_node, update_tree_rec,
}
use durodbms.TreeRec.RecMap.Read.{insert_tree_rec-get_tree_fields, plain}
use durodbms.TreeRec.RecMap.Restore.{delete_update_reinsert-restores}
use durodbms.TreeRec.RecMap.Steps.{with_nodes}
use durodbms.TreeRec.Sorted.{IsOrderOn}
use durodbms.TreeRec.Tree.{
  BinaryTree, Entry, avl_balance_l, avl_balance_r, avl_delete_node, avl_tree_insert, compare_key,
  create_node, del_rightmost, delete_here, even, find, insert_balance_l, insert_balance_r, node,
  null, plus, tree_delete_node, tree_insert,
}
use durodbms.TreeRec.Tree.Compare.{HasLength, compare_key-IsOrderOn}
use durodbms.TreeRec.Tree.Search.{IsSearchTree, Updates, search}

abbrev layout : Layout
layout = record {
  fieldinfos = some 1 ∷ some 2 ∷ [];
  fieldcount = 2;
  keyfieldcount = 1;
  varkeyfieldcount = 0;
  vardatafieldcount = 0;
}

abbrev entry : ℕ → Entry
entry k = record { key = k ∷ []; value = k ∷ k ∷ [] }

abbrev tree : BinaryTree
tree = record {
  root =
      node 11 none plus (entry 5) (node 10 (some 11) even (entry 2) null null)
        (node 12 (some 11) plus (entry 8) null (node 13 (some 12) even (entry 9) null null));
  comparison = some (recmap_compare_key layout []);
}

runs : Unit {0}
unfolding compare_key memcmp abs_diff recmap_compare_key compare_fields find get_field locate
    fixed_offset set_fields set_field_mem store key_to_mem value_to_mem fields_to_mem mem_size
    copy_fixed copy_var create_node insert_balance_l insert_balance_r avl_tree_insert tree_insert
    avl_balance_l avl_balance_r del_rightmost delete_here avl_delete_node tree_delete_node
    check_in_indexes insert_into_indexes delete_from_tree_indexes delete_tree_rec_by_key
    insert_tree_rec_kv is_key_update delete_update_reinsert update_reinsert reinsert_old
    update_tree_node update_tree_rec
runs = tt

order : IsOrderOn (HasLength 1) (compare_key tree.comparison)
order = recmap_compare_key-IsOrderOn layout (omega arith) (compare_key-IsOrderOn 1 (omega arith))

valid : IsSearchTree (HasLength 1) tree
unfolding runs
valid = record {
  balanced = omega arith;
  sorted = (
    refl,
    (refl, (refl, (refl, tt))),
    (refl, (refl, (refl, tt)), (refl, (refl, tt), (refl, tt, tt))),
  );
  linked = (refl, (refl, tt, tt), (refl, tt, (refl, tt, tt)));
}

abbrev key_field : ℕ → Field
key_field k = record { no = 0; value = k ∷ [] }

abbrev value_field : ℕ → Field
value_field k = record { no = 1; value = k ∷ k ∷ [] }

-- The key of the record 8 is changed to 9, which another record has.
restored :
    (update_tree_rec
      (with_nodes (λ i. some 20))
      (with_nodes (λ i. some 21))
      (plain layout tree)
      (key_field 8 ∷ [])
      (key_field 9 ∷ [])).1
    ≡ some key_violation
unfolding runs
restored = refl

absent : search tree (7 ∷ []) ≡ none
unfolding runs
absent = refl

present : (k : ℕ) → (k ≡ 8) ⊎ (k ≡ 9) → search tree (k ∷ []) ≡ some (entry k)
unfolding runs
present k (inl h) = rw h refl
present k (inr h) = rw h refl

changed :
    (k : ℕ)
    → set_fields layout true (entry 8) (key_field k ∷ [])
      ≡ ok (record { key = k ∷ []; value = 8 ∷ 8 ∷ [] })
unfolding runs
changed k = refl

key_in_memory : key_to_mem layout true (key_field 7 ∷ value_field 7 ∷ []) ≡ ok (7 ∷ [])
unfolding runs
key_in_memory = refl

insert_tree_rec-get_tree_fields_example :
    (t' : BinaryTree) × (v : Entry) × (insert_tree_rec
        (with_nodes (λ i. some 20))
        (plain layout tree)
        (key_field 7 ∷ value_field 7 ∷ [])
      ≡ (plain layout t', none))
    × Updates (HasLength 1) tree (7 ∷ []) (some v) t'
    × (get_tree_fields true (plain layout t') (key_field 7 ∷ []) (1 ∷ 0 ∷ [])
        ≡ ok (value_field 7 ∷ key_field 7 ∷ []))
insert_tree_rec-get_tree_fields_example =
    insert_tree_rec-get_tree_fields (with_nodes (λ i. some 20)) 20 layout tree (key_field 7 ∷ [])
      (value_field 7 ∷ []) (7 ∷ []) (1 ∷ 0 ∷ []) refl refl order valid
      (record { numbered = (refl, tt); fits = (refl, tt); filled = refl; counted = refl })
      (record { numbered = (refl, tt); fits = (refl, tt); filled = refl; counted = refl })
      key_in_memory refl absent (omega arith, (omega arith, tt))

other_key : compare_key tree.comparison (9 ∷ []) (8 ∷ []) ≢ eq
unfolding runs
other_key h = cc h

delete_update_reinsert-restores_example :
    (t2 : BinaryTree) × (delete_update_reinsert
        (with_nodes (λ i. some 20))
        (with_nodes (λ i. some 21))
        (plain layout tree)
        (entry 8)
        (key_field 9 ∷ [])
      ≡ (plain layout t2, some key_violation))
    × Updates (HasLength 1) tree (8 ∷ []) (some (entry 8)) t2
delete_update_reinsert-restores_example =
    delete_update_reinsert-restores (λ i. some 20) (with_nodes (λ i. some 21)) 20 21 layout tree
      (entry 8) (record { key = 9 ∷ []; value = 8 ∷ 8 ∷ [] }) (entry 9) (key_field 9 ∷ []) refl refl
      order valid refl (present 8 (inl refl)) refl (changed 9) refl (present 9 (inr refl)) other_key

-- A record map whose values are texts, with one record.
abbrev layout_text : Layout
layout_text = record {
  fieldinfos = some 1 ∷ none ∷ [];
  fieldcount = 2;
  keyfieldcount = 1;
  varkeyfieldcount = 0;
  vardatafieldcount = 1;
}

abbrev greeting : Entry
greeting = record { key = 8 ∷ []; value = 4 ∷ 1 ∷ 0 ∷ 0 ∷ 0 ∷ [] }

abbrev tree_text : BinaryTree
tree_text = record {
  root = node 10 none even greeting null null;
  comparison = some (recmap_compare_key layout_text []);
}

abbrev longer : List Field
longer = record { no = 1; value = 1 ∷ 2 ∷ [] } ∷ key_field 9 ∷ []

-- The heap after the deletion has a node, and no memory for buffers or copies.
abbrev node_only : Heap
node_only = record { buffers = false; copies = false; nodes = λ i. some 21 }

-- The second copies are not got, and the record is lost although the new field has the same length.
lost :
    (delete_update_reinsert
      (with_nodes (λ i. some 20))
      (record { buffers = true; copies = false; nodes = λ i. some 21 })
      (plain layout tree)
      (entry 8)
      (key_field 9 ∷ [])).1
    ≡ some no_memory
unfolding runs
lost = refl
