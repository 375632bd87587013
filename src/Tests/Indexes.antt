-- ===== src/Tests/Indexes.antt =====
-- duro/treerec/treerecmap.c with a secondary index on the value.
use durodbms.Prelude.{
  Error, Option, [], arith, false, if◌then◌else◌, key_violation, none, not_found, ok, refl, some,
  true, ℕ, ◌+◌, ◌==◌, ◌∷◌, ◌≡◌, ◌≢◌, ◌⊎◌,
}
use durodbms.TreeRec.Bytes.{Bytes, abs_diff, memcmp}
use durodbms.TreeRec.Field.{
  Layout, copy_fixed, copy_var, fields_to_mem, fixed_offset, get_field, get_mem_fields, locate,
  mem_size, set_field_mem, store,
}
use durodbms.TreeRec.Index.{Index, index_compare_key}
use durodbms.TreeRec.RecMap.{
  RecMap, check_in_indexes, compare_fields, delete_from_tree_indexes, delete_tree_rec_by_key,
  insert_into_indexes, insert_tree_rec_kv, key_to_mem, make_skey, number_from, recmap_compare_key,
}
use durodbms.TreeRec.RecMap.Atomic.{AllUpdated, Takes, insert_tree_rec_kv-atomic}
use durodbms.TreeRec.RecMap.Compare.{index_compare_key-IsOrderOn, recmap_compare_key-IsOrderOn}
use durodbms.TreeRec.RecMap.Operations.{
  index_find, is_key_update, set_value_fields, tree_index_get_fields, update_tree_rec,
}
use durodbms.TreeRec.RecMap.Rewrite.{update_tree_rec-rewrites}
use durodbms.TreeRec.RecMap.Steps.{with_nodes}
use durodbms.TreeRec.Tree.{
  Balance, Entry, Tree, avl_balance_l, avl_balance_r, avl_delete_node, avl_tree_insert, compare_key,
  create_node, del_rightmost, delete_here, even, find, insert_balance_l, insert_balance_r, node,
  null, plus, tree_delete_node, tree_insert,
}
use durodbms.TreeRec.Tree.Compare.{HasLength, compare_key-IsOrderOn}
use durodbms.TreeRec.Tree.Search.{IsSearchTree, Updates, search}

abbrev layout : Layout
layout = record {
  fieldinfos = some 1 ∷ some 2 ∷ [];
  fieldcount = 2;
  keyfieldcount = 1;
  varkeyfieldcount = 0;
  vardatafieldcount = 0;
}

abbrev entry : ℕ → Entry
entry k = record { key = k ∷ []; value = k ∷ k ∷ [] }

abbrev flipped : ℕ → Entry
flipped k = record { key = k ∷ k ∷ []; value = k ∷ [] }

abbrev ix : Index
ix = record {
  address = 50;
  fieldv = 1 ∷ [];
  cmpv = none;
  tree = record {
    root = node 30 none plus (flipped 2) null (node 31 (some 30) even (flipped 5) null null);
    comparison = some (index_compare_key layout (1 ∷ []) none);
  };
}

abbrev rm : RecMap
rm = record {
  layout = layout;
  tree = record {
    root = node 10 none plus (entry 2) null (node 11 (some 10) even (entry 5) null null);
    comparison = some (recmap_compare_key layout []);
  };
  indexes = ix ∷ [];
}

runs : Unit {0}
unfolding compare_key memcmp abs_diff recmap_compare_key compare_fields index_compare_key find
    get_field locate fixed_offset get_mem_fields fields_to_mem mem_size copy_fixed copy_var store
    make_skey create_node insert_balance_l insert_balance_r avl_tree_insert tree_insert
    check_in_indexes insert_into_indexes insert_tree_rec_kv index_find number_from
    tree_index_get_fields delete_from_tree_indexes delete_tree_rec_by_key avl_balance_l
    avl_balance_r del_rightmost delete_here avl_delete_node tree_delete_node
runs = tt

-- Another record has the value 5, 5.
refused :
    (insert_tree_rec_kv
      (with_nodes (λ j. some (60 + j)))
      rm
      (record { key = 7 ∷ []; value = 5 ∷ 5 ∷ [] })).1
    ≡ some key_violation
unfolding runs
refused = refl

-- There is no memory for the node of the index. The rollback does not find the record in the index
-- and leaves it in the tree of the record map.
abbrev no_index_node : RecMap × Option Error
no_index_node =
    insert_tree_rec_kv
      (record { buffers = true; copies = true; nodes = λ j. if j == 0 then some 60 else none }) rm
      (entry 7)

not_rolled_back :
    (no_index_node.1 ≡ some not_found)
    × (search no_index_node.0.tree (7 ∷ []) ≡ some (entry 7))
    × (no_index_node.0.indexes ≡ rm.indexes)
unfolding runs
not_rolled_back = (refl, refl, refl)

emptied : (delete_tree_rec_by_key true rm (5 ∷ [])).1 ≡ none
unfolding runs
emptied = refl

valid : IsSearchTree (HasLength 1) rm.tree
unfolding runs
valid = record {
  balanced = omega arith;
  sorted = (refl, (refl, tt), (refl, tt, tt));
  linked = (refl, tt, (refl, tt, tt));
}

ix-Takes : Takes (λ ix. HasLength 2) layout (entry 7) ix
unfolding runs
ix-Takes = record {
  skey = 7 ∷ 7 ∷ [];
  made = refl;
  inside = refl;
  order = index_compare_key-IsOrderOn layout (1 ∷ []) (compare_key-IsOrderOn 2 (omega arith));
  valid = record {
    balanced = omega arith;
    sorted = (refl, (refl, tt), (refl, tt, tt));
    linked = (refl, tt, (refl, tt, tt));
  };
}

insert_tree_rec_kv-atomic_example :
    (insert_tree_rec_kv (with_nodes (λ j. some (60 + j))) rm (entry 7) ≡ (rm, some key_violation))
    ⊎ ((rm' : RecMap) × (insert_tree_rec_kv (with_nodes (λ j. some (60 + j))) rm (entry 7)
          ≡ (rm', none))
        × (search rm.tree (7 ∷ []) ≡ none)
        × Updates (HasLength 1) rm.tree (7 ∷ []) (some (entry 7)) rm'.tree
        × AllUpdated (λ ix. HasLength 2) layout (entry 7) (ix ∷ []) rm'.indexes)
insert_tree_rec_kv-atomic_example =
    insert_tree_rec_kv-atomic (λ ix. HasLength 2) (λ j. 60 + j) rm (entry 7)
      (recmap_compare_key-IsOrderOn layout (omega arith) (compare_key-IsOrderOn 1 (omega arith)))
      valid refl (ix-Takes, tt)

-- The record map with no index.
abbrev rm2 : RecMap
rm2 = record { layout = layout; tree = rm.tree; indexes = [] }

rewritten_value :
    set_value_fields layout true (5 ∷ 5 ∷ []) (record { no = 1; value = 1 ∷ 2 ∷ [] } ∷ [])
    ≡ (1 ∷ 2 ∷ [], none)
unfolding runs set_value_fields set_field_mem
rewritten_value = refl

key_five : key_to_mem layout true (record { no = 0; value = 5 ∷ [] } ∷ []) ≡ ok (5 ∷ [])
unfolding runs key_to_mem
key_five = refl

find_five :
    find rm.tree.comparison rm.tree.root (5 ∷ []) ≡ node 11 (some 10) even (entry 5) null null
unfolding runs
find_five = refl

no_key : is_key_update rm2 (record { no = 1; value = 1 ∷ 2 ∷ [] } ∷ []) ≡ false
unfolding is_key_update
no_key = refl

update_tree_rec-rewrites_example :
    (rm' : RecMap) × (update_tree_rec
        (with_nodes (λ j. none))
        (with_nodes (λ j. none))
        rm2
        (record { no = 0; value = 5 ∷ [] } ∷ [])
        (record { no = 1; value = 1 ∷ 2 ∷ [] } ∷ [])
      ≡ (rm', none))
    × (search rm'.tree (5 ∷ []) ≡ some (record { key = 5 ∷ []; value = 1 ∷ 2 ∷ [] }))
    × ((k : Bytes) (a' : ℕ) (p' : Option ℕ) (b' : Balance) (e' : Entry) (l' r' : Tree)
        → find rm2.tree.comparison rm2.tree.root k ≡ node a' p' b' e' l' r'
        → a' ≢ 11
        → search rm'.tree k ≡ some e')
    × ((k : Bytes) → find rm2.tree.comparison rm2.tree.root k ≡ null → search rm'.tree k ≡ none)
    × (rm'.indexes ≡ rm2.indexes)
    × IsSearchTree (HasLength 1) rm'.tree
update_tree_rec-rewrites_example =
    update_tree_rec-rewrites (with_nodes (λ j. none)) (with_nodes (λ j. none)) rm2
      (record { no = 0; value = 5 ∷ [] } ∷ []) (record { no = 1; value = 1 ∷ 2 ∷ [] } ∷ []) (5 ∷ [])
      (1 ∷ 2 ∷ []) 11 (some 10) even (entry 5) null null key_five find_five no_key rewritten_value
      valid
