-- ===== src/TreeRec/RecMap/Steps.antt =====
-- The steps of `delete_update_reinsert_tree_node` of duro/treerec/treerecmap.c on record maps
-- without secondary indexes, and what two updates of a tree read.
use durodbms.Prelude.{
  Bool, Bool-cases, Error, List, Option, Ordering, ap, arith, eq, err, false, gt, inl, inr,
  key_violation, lt, no_memory, none, ok, refl, some, subst, sym, true, ℕ, ◌∙◌, ◌≡◌, ◌⊎◌,
}
use durodbms.TreeRec.Bytes.{Bytes}
use durodbms.TreeRec.Field.{Field, Layout}
use durodbms.TreeRec.RecMap.{
  Heap, delete_from_tree_indexes, delete_tree_rec_by_key, insert_tree_rec_kv,
}
use durodbms.TreeRec.RecMap.Operations.{
  can_copy, delete_update_reinsert, reinsert_old, set_fields, update_reinsert,
}
use durodbms.TreeRec.RecMap.Read.{plain, search_node}
use durodbms.TreeRec.Sorted.{IsOrderOn}
use durodbms.TreeRec.Tree.{BinaryTree, Comparison, Entry, compare_key, find, tree_delete_node}
use durodbms.TreeRec.Tree.Search.{Updates, search}

pub delete_plain :
    (mem : Bool) (l : Layout) (t t' : BinaryTree) (key : Bytes) (e : Entry)
    → search t key ≡ some e
    → tree_delete_node t key ≡ ok t'
    → delete_tree_rec_by_key mem (plain l t) key ≡ (plain l t', none)
unfolding delete_tree_rec_by_key delete_from_tree_indexes
delete_plain mem l t t' key e s k =
    let (a, p, b, l', r', same) = search_node (find t.comparison t.root key) e s in
    ground (arith, same, k)

-- A heap with buffers and copies.
abbrev pub with_nodes : (ℕ → Option ℕ) → Heap
with_nodes nodes = record { buffers = true; copies = true; nodes = nodes }

-- What the call does, by what the insertion of the changed record returns.
pub reinsert_ok :
    (nodes : ℕ → Option ℕ) (h2 : Heap) (l : Layout) (t t1 t2 : BinaryTree) (old new : Entry)
    (fs : List Field)
    → delete_tree_rec_by_key true (plain l t) old.key ≡ (plain l t1, none)
    → can_copy h2 old ≡ true
    → set_fields l h2.buffers old fs ≡ ok new
    → insert_tree_rec_kv (with_nodes nodes) (plain l t1) new ≡ (plain l t2, none)
    → delete_update_reinsert (with_nodes nodes) h2 (plain l t) old fs ≡ (plain l t2, none)
unfolding delete_update_reinsert update_reinsert reinsert_old
reinsert_ok nodes h2 l t t1 t2 old new fs d c s i =
    rw d (rw (c, update_reinsert) (rw (s, update_reinsert) (rw i refl)))

pub reinsert_violation :
    (nodes : ℕ → Option ℕ) (h2 : Heap) (l : Layout) (t t1 t2 : BinaryTree) (old new : Entry)
    (fs : List Field)
    → delete_tree_rec_by_key true (plain l t) old.key ≡ (plain l t1, none)
    → can_copy h2 old ≡ true
    → set_fields l h2.buffers old fs ≡ ok new
    → insert_tree_rec_kv (with_nodes nodes) (plain l t1) new ≡ (plain l t1, some key_violation)
    → insert_tree_rec_kv h2 (plain l t1) old ≡ (plain l t2, none)
    → delete_update_reinsert (with_nodes nodes) h2 (plain l t) old fs
      ≡ (plain l t2, some key_violation)
unfolding delete_update_reinsert update_reinsert reinsert_old
reinsert_violation nodes h2 l t t1 t2 old new fs d c s i j =
    rw d (rw (c, update_reinsert) (rw (s, update_reinsert) (rw i (rw j refl))))

-- After the deletion there is no memory for the copies, or the new fields cannot be written.
abbrev pub Fails : Heap → Layout → Entry → List Field → Type 0
Fails h2 l old fs =
    (can_copy h2 old ≡ false) ⊎ ((x : Error) × (set_fields l h2.buffers old fs ≡ err x))

pub reinsert_no_memory :
    (nodes : ℕ → Option ℕ) (h2 : Heap) (l : Layout) (t t1 : BinaryTree) (old : Entry)
    (fs : List Field)
    → delete_tree_rec_by_key true (plain l t) old.key ≡ (plain l t1, none)
    → Fails h2 l old fs
    → delete_update_reinsert (with_nodes nodes) h2 (plain l t) old fs ≡ (plain l t1, some no_memory)
unfolding delete_update_reinsert update_reinsert reinsert_old
reinsert_no_memory nodes h2 l t t1 old fs d (inl c) = rw d (rw (c, update_reinsert) refl)
reinsert_no_memory nodes h2 l t t1 old fs d (inr (x, s)) = elim (Bool-cases (can_copy h2 old)) [
  | inl c ↦ rw d (rw (c, update_reinsert) (rw (s, update_reinsert) refl))
  | inr c ↦ rw d (rw (c, update_reinsert) refl)
]

-- The order of another tree with the same comparison.
pub same_order :
    {P : Bytes → Type 0} (c c' : Option Comparison)
    → c' ≡ c
    → IsOrderOn P (compare_key c)
    → IsOrderOn P (compare_key c')
same_order {P} c c' e o = subst (λ (x : Option Comparison). IsOrderOn P (compare_key x)) (sym e) o

pub gone :
    (c : Ordering) (s : Option Entry) → (s ≡ none) ⊎ (c ≡ eq) → elim c [ eq ↦ none | _ ↦ s ] ≡ none
gone lt s (inl h) = h
gone eq s h = refl
gone gt s (inl h) = h
gone lt s (inr h) = absurd (cc h)
gone gt s (inr h) = absurd (cc h)

-- What an update after an update reads.
pub twice :
    {P : Bytes → Type 0} (t t1 t2 : BinaryTree) (q q2 : Bytes) (v v2 : Option Entry)
    → Updates P t q v t1
    → Updates P t1 q2 v2 t2
    → (k : Bytes) → P k
    → search t2 k ≡ elim (compare_key t.comparison k q2) [
      | eq ↦ v2
      | _ ↦ elim (compare_key t.comparison k q) [ eq ↦ v | _ ↦ search t k ]
    ]
twice t t1 t2 q q2 v v2 up up2 k pk =
    up2.reads k pk
    ∙ ap (λ c. elim (compare_key c k q2) [ eq ↦ v2 | _ ↦ search t1 k ]) up.comparison
    ∙ ap (λ x. elim (compare_key t.comparison k q2) [ eq ↦ v2 | _ ↦ x ]) (up.reads k pk)

pub same_choice :
    (c c' : Ordering) (v w s : Option Entry)
    → c ≡ c'
    → elim c [ eq ↦ v | _ ↦ elim c' [ eq ↦ w | _ ↦ s ] ] ≡ elim c [ eq ↦ v | _ ↦ s ]
same_choice lt c' v w s e = rw (sym e) refl
same_choice eq c' v w s e = refl
same_choice gt c' v w s e = rw (sym e) refl
