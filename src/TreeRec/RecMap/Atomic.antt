-- ===== src/TreeRec/RecMap/Atomic.antt =====
-- `insert_tree_rec_kv` of duro/treerec/treerecmap.c with secondary indexes.
use durodbms.Prelude.{
  All, Error, List, Option, Option-cases, [], ap, err, false, inl, inr, key_violation, none, not,
  ok, refl, some, suc, true, ℕ, ◌∙◌, ◌∷◌, ◌≡◌, ◌⊎◌,
}
use durodbms.TreeRec.Bytes.{Bytes}
use durodbms.TreeRec.Field.{Layout}
use durodbms.TreeRec.Index.{Index}
use durodbms.TreeRec.RecMap.{
  RecMap, check_in_indexes, found, insert_into_indexes, insert_tree_rec_kv, make_skey,
}
use durodbms.TreeRec.RecMap.Steps.{with_nodes}
use durodbms.TreeRec.Sorted.{IsOrderOn}
use durodbms.TreeRec.Tree.{
  BinaryTree, Entry, Tree, compare_key, find, is_null, node, null, tree_insert,
}
use durodbms.TreeRec.Tree.Refine.{entry_of}
use durodbms.TreeRec.Tree.Search.{
  IsSearchTree, Updates, search, tree_insert-Updates, tree_insert-present,
}

module _ (P : Index → Bytes → Type 0) (l : Layout) (e : Entry) where
  -- The index is a search tree for its keys, and the record has a key for it.
  pub record Takes (ix : Index) : Type 0 where
    pub skey : Bytes
    pub made : make_skey l true ix e ≡ ok skey
    pub inside : P ix skey
    pub order : IsOrderOn (P ix) (compare_key ix.tree.comparison)
    pub valid : IsSearchTree (P ix) ix.tree

  -- Every index has got the record's key for it, which leads to the primary key.
  abbrev pub AllUpdated : List Index → List Index → Type 0
  AllUpdated [] [] = Unit
  AllUpdated [] (ix ∷ ixs') = ⊥
  AllUpdated (ix ∷ ixs) [] = ⊥
  AllUpdated (ix ∷ ixs) (ix' ∷ ixs') =
      ((skey : Bytes) × (make_skey l true ix e ≡ ok skey)
        × Updates (P ix) ix.tree skey (some (record { key = skey; value = e.key })) ix'.tree
        × (ix'.fieldv ≡ ix.fieldv))
      × AllUpdated ixs ixs'

  found_cases :
      (t : BinaryTree) (k : Bytes)
      → (found t k ≡ true) ⊎ ((found t k ≡ false) × (search t k ≡ none))
  found_cases t k = go (find t.comparison t.root k)
    where
      go : (s : Tree) → (not (is_null s) ≡ true) ⊎ ((not (is_null s) ≡ false) × (entry_of s ≡ none))
      go null = inr (refl, refl)
      go (node a p b e l r) = inl refl

  check_found :
      (ix : Index) (ixs : List Index) (skey : Bytes)
      → make_skey l true ix e ≡ ok skey
      → found ix.tree skey ≡ true
      → check_in_indexes l true (ix ∷ ixs) e ≡ some key_violation
  unfolding check_in_indexes
  check_found ix ixs skey m h = rw (m, check_in_indexes) (rw h refl)

  check_free :
      (ix : Index) (ixs : List Index) (skey : Bytes)
      → make_skey l true ix e ≡ ok skey
      → found ix.tree skey ≡ false
      → check_in_indexes l true (ix ∷ ixs) e ≡ check_in_indexes l true ixs e
  unfolding check_in_indexes
  check_free ix ixs skey m h = rw (m, check_in_indexes) (rw h refl)

  insert_step :
      (nodes : ℕ → Option ℕ) (i : ℕ) (ix : Index) (ixs ixs' : List Index) (skey : Bytes)
      (t : BinaryTree)
      → make_skey l true ix e ≡ ok skey
      → tree_insert (nodes i) ix.tree (record { key = skey; value = e.key }) ≡ ok t
      → insert_into_indexes l (with_nodes nodes) (suc i) ixs e ≡ (ixs', none)
      → insert_into_indexes l (with_nodes nodes) i (ix ∷ ixs) e
        ≡ (record ix { tree = t } ∷ ixs', none)
  unfolding insert_into_indexes
  insert_step nodes i ix ixs ixs' skey t m h k =
      rw (m, insert_into_indexes) (rw (h, insert_into_indexes) (rw k refl))

  -- The check refuses the record, or every insertion succeeds.
  check-insert :
      (addr : ℕ → ℕ) (i : ℕ) (ixs : List Index)
      → All Takes ixs
      → (check_in_indexes l true ixs e ≡ some key_violation)
        ⊎ ((check_in_indexes l true ixs e ≡ none)
            × ((ixs' : List Index) × (insert_into_indexes l
                    (with_nodes (λ j. some (addr j)))
                    i
                    ixs
                    e
                  ≡ (ixs', none))
                × AllUpdated ixs ixs'))
  unfolding check_in_indexes insert_into_indexes
  check-insert addr i [] ts = inr (refl, ([], refl, tt))
  check-insert addr i (ix ∷ ixs) (t, ts) = elim (found_cases ix.tree t.skey) [
    | inl h ↦ inl (check_found ix ixs t.skey t.made h)
    | inr (h, absent) ↦ elim (check-insert addr (suc i) ixs ts) [
      | inl k ↦ inl (check_free ix ixs t.skey t.made h ∙ k)
      | inr (k, (ixs', run, ups)) ↦
          let (t', called, up) =
            tree_insert-Updates t.order t.valid (addr i) (record { key = t.skey; value = e.key })
              t.inside absent in
          inr (
            check_free ix ixs t.skey t.made h ∙ k,
            (
              record ix { tree = t' } ∷ ixs',
              insert_step (λ j. some (addr j)) i ix ixs ixs' t.skey t' t.made called run,
              ((t.skey, t.made, up, refl), ups),
            ),
          )
    ]
  ]

kv_refused :
    (nodes : ℕ → Option ℕ) (rm : RecMap) (e : Entry) (x : Error)
    → check_in_indexes rm.layout true rm.indexes e ≡ some x
    → insert_tree_rec_kv (with_nodes nodes) rm e ≡ (rm, some x)
unfolding insert_tree_rec_kv
kv_refused nodes rm e x h = rw (h, insert_tree_rec_kv) refl

kv_present :
    (nodes : ℕ → Option ℕ) (rm : RecMap) (e : Entry) (x : Error)
    → check_in_indexes rm.layout true rm.indexes e ≡ none
    → tree_insert (nodes 0) rm.tree e ≡ err x
    → insert_tree_rec_kv (with_nodes nodes) rm e ≡ (rm, some x)
unfolding insert_tree_rec_kv
kv_present nodes rm e x h k = rw (h, insert_tree_rec_kv) (rw (k, insert_tree_rec_kv) refl)

kv_inserted :
    (nodes : ℕ → Option ℕ) (rm : RecMap) (e : Entry) (t : BinaryTree) (ixs : List Index)
    → check_in_indexes rm.layout true rm.indexes e ≡ none
    → tree_insert (nodes 0) rm.tree e ≡ ok t
    → insert_into_indexes rm.layout (with_nodes nodes) 1 rm.indexes e ≡ (ixs, none)
    → insert_tree_rec_kv (with_nodes nodes) rm e
      ≡ (record { layout = rm.layout; tree = t; indexes = ixs }, none)
unfolding insert_tree_rec_kv
kv_inserted nodes rm e t ixs h k m =
    let in_list = ap (λ (p : List Index × Option Error). p.0) m in
    let error = ap (λ (p : List Index × Option Error). p.1) m in
    rw (h, insert_tree_rec_kv) (rw (k, insert_tree_rec_kv) (rw error (rw in_list refl)))

-- With memory at hand, in a record map whose tree and indexes have the invariant of search trees,
-- for a record that has a key for every index: the insertion is a key violation and changes
-- nothing, or it succeeds, and then the tree of the record map reads the record under its key, each
-- index leads from the record's key for it to the primary key, and all read as before elsewhere
-- and have their invariant.
pub insert_tree_rec_kv-atomic :
    {Q : Bytes → Type 0} (P : Index → Bytes → Type 0) (addr : ℕ → ℕ) (rm : RecMap) (e : Entry)
    → IsOrderOn Q (compare_key rm.tree.comparison)
    → IsSearchTree Q rm.tree
    → Q e.key
    → All (Takes P rm.layout e) rm.indexes
    → (insert_tree_rec_kv (with_nodes (λ j. some (addr j))) rm e ≡ (rm, some key_violation))
      ⊎ ((rm' : RecMap) × (insert_tree_rec_kv (with_nodes (λ j. some (addr j))) rm e ≡ (rm', none))
          × (search rm.tree e.key ≡ none)
          × Updates Q rm.tree e.key (some e) rm'.tree
          × AllUpdated P rm.layout e rm.indexes rm'.indexes)
insert_tree_rec_kv-atomic P addr rm e o v q ts =
    let nodes : ℕ → Option ℕ = λ j. some (addr j) in
    elim (check-insert P rm.layout e addr 1 rm.indexes ts) [
      | inl h ↦ inl (kv_refused nodes rm e key_violation h)
      | inr (h, (ixs', run, ups)) ↦ elim (Option-cases (search rm.tree e.key)) [
        | inr (old, there) ↦
            inl (
              kv_present nodes rm e key_violation h
                (tree_insert-present o v (addr 0) e old q there))
        | inl absent ↦
            let (t', called, up) = tree_insert-Updates o v (addr 0) e q absent in
            inr (
              record { layout = rm.layout; tree = t'; indexes = ixs' },
              kv_inserted nodes rm e t' ixs' h called run,
              absent,
              up,
              ups,
            )
      ]
    ]
