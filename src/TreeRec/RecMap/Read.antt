-- ===== src/TreeRec/RecMap/Read.antt =====
-- `RDB_insert_tree_rec` and `RDB_get_tree_fields` of duro/treerec/treerecmap.c, one after the other,
-- on record maps without secondary indexes.
use durodbms.Prelude.{
  All, Error, List, Option, [], ap, append-nil, arith, drop_all, err, none, ok, ok_injective, refl,
  some, subst, suc, sym, take_all, true, ℕ, ◌++◌, ◌<◌, ◌∙◌, ◌∷◌, ◌≡◌,
}
use durodbms.TreeRec.Bytes.{Bytes}
use durodbms.TreeRec.Field.{Field, Layout, get_mem_fields}
use durodbms.TreeRec.Field.Encode.{encoded, fields_to_mem-encoded}
use durodbms.TreeRec.Field.Locate.{Numbered}
use durodbms.TreeRec.Field.Read.{IsKey, IsValue}
use durodbms.TreeRec.Field.Round.{get_mem_fields_lem, pick}
use durodbms.TreeRec.RecMap.{
  Heap, RecMap, check_in_indexes, insert_into_indexes, insert_tree_rec, insert_tree_rec_kv,
  key_to_mem, number_from, value_to_mem,
}
use durodbms.TreeRec.RecMap.Operations.{get_tree_fields}
use durodbms.TreeRec.Sorted.{IsOrderOn}
use durodbms.TreeRec.Tree.{
  Balance, BinaryTree, Entry, Tree, compare_key, find, node, null, tree_insert,
}
use durodbms.TreeRec.Tree.Refine.{entry_of}
use durodbms.TreeRec.Tree.Search.{IsSearchTree, Updates, search, tree_insert-Updates}

-- What `RDB_tree_find` returns, as an entry of the map.
pub search_node :
    (t : Tree) (e : Entry)
    → entry_of t ≡ some e
    → (a : ℕ) × (p : Option ℕ) × (b : Balance) × (l : Tree) × (r : Tree) × (t ≡ node a p b e l r)
search_node null e h = absurd (cc h)
search_node (node a p b e' l r) e h =
    let same : e' ≡ e = cc h in (a, p, b, l, r, ap (λ (x : Entry). node a p b x l r) same)

pub search_null : (t : Tree) → entry_of t ≡ none → t ≡ null
search_null null h = refl
search_null (node a p b e l r) h = absurd (cc h)

-- A record map without secondary indexes.
abbrev pub plain : Layout → BinaryTree → RecMap
plain l t = record { layout = l; tree = t; indexes = [] }

pub insert_kv_plain :
    (h : Heap) (l : Layout) (t t' : BinaryTree) (e : Entry)
    → tree_insert (h.nodes 0) t e ≡ ok t'
    → insert_tree_rec_kv h (plain l t) e ≡ (plain l t', none)
unfolding insert_tree_rec_kv check_in_indexes insert_into_indexes
insert_kv_plain h l t t' e k = rw (k, insert_tree_rec_kv) refl

pub insert_kv_plain_err :
    (h : Heap) (l : Layout) (t : BinaryTree) (e : Entry) (x : Error)
    → tree_insert (h.nodes 0) t e ≡ err x
    → insert_tree_rec_kv h (plain l t) e ≡ (plain l t, some x)
unfolding insert_tree_rec_kv check_in_indexes insert_into_indexes
insert_kv_plain_err h l t e x k = rw (k, insert_tree_rec_kv) refl

number_from_lem : (n : ℕ) (fs : List Field) → Numbered n fs → number_from n fs ≡ fs
number_from_lem n [] h = refl
number_from_lem n (f ∷ fs) (e, h) =
    rw (sym e) (ap (λ l. f ∷ l) (number_from_lem (suc f.no) fs (rw e h)))

pub key_to_mem_lem :
    (l : Layout) (ks vs : List Field)
    → IsKey l ks
    → key_to_mem l true (ks ++ vs) ≡ ok (encoded l ks)
unfolding key_to_mem
key_to_mem_lem l ks vs p =
    rw (take_all l.keyfieldcount ks vs (omega (arith, p.filled)))
      (rw (number_from_lem 0 ks p.numbered) (fields_to_mem-encoded l ks))

pub value_to_mem_lem :
    (l : Layout) (ks vs : List Field)
    → IsKey l ks
    → IsValue l vs
    → value_to_mem l true (ks ++ vs) ≡ ok (encoded l vs)
unfolding value_to_mem
value_to_mem_lem l ks vs p q =
    rw (drop_all l.keyfieldcount ks vs (omega (arith, p.filled)))
      (rw (number_from_lem l.keyfieldcount vs q.numbered) (fields_to_mem-encoded l vs))

get_found :
    (rm : RecMap) (keyv : List Field) (ns : List ℕ) (key : Bytes) (a : ℕ) (p : Option ℕ)
    (b : Balance) (e : Entry) (l r : Tree)
    → key_to_mem rm.layout true keyv ≡ ok key
    → find rm.tree.comparison rm.tree.root key ≡ node a p b e l r
    → get_tree_fields true rm keyv ns ≡ get_mem_fields rm.layout key e.value ns
unfolding get_tree_fields
get_found rm keyv ns key a p b e l r k f = ground arith

get_stored :
    (l : Layout) (t : BinaryTree) (ks vs : List Field) (ns : List ℕ) (e : Entry)
    → IsKey l ks
    → IsValue l vs
    → All (λ n. n < l.fieldcount) ns
    → e.value ≡ encoded l vs
    → search t (encoded l ks) ≡ some e
    → get_tree_fields true (plain l t) ks ns ≡ ok (pick (ks ++ vs) ns)
get_stored l t ks vs ns e p q a v s =
    let (x, up, b, l', r', same) = search_node (find t.comparison t.root (encoded l ks)) e s in
    let key : key_to_mem l true ks ≡ ok (encoded l ks) =
      subst (λ (z : List Field). key_to_mem l true z ≡ ok (encoded l ks)) (append-nil ks)
        (key_to_mem_lem l ks [] p) in
    get_found (plain l t) ks ns (encoded l ks) x up b e l' r' key same
    ∙ rw v (get_mem_fields_lem l ks vs ns p q a)

insert_runs :
    (h : Heap) (rm : RecMap) (flds : List Field) (key value : Bytes)
    → key_to_mem rm.layout h.buffers flds ≡ ok key
    → value_to_mem rm.layout h.buffers flds ≡ ok value
    → insert_tree_rec h rm flds ≡ insert_tree_rec_kv h rm (record { key = key; value = value })
unfolding insert_tree_rec
insert_runs h rm flds key value k v = ground arith

-- What an update reads under its key.
pub Updates-self :
    {P : Bytes → Type 0} {t : BinaryTree} {q : Bytes} {v : Option Entry} {t' : BinaryTree}
    → IsOrderOn P (compare_key t.comparison)
    → Updates P t q v t'
    → P q
    → search t' q ≡ v
Updates-self {q = q} o up pq = up.reads q pq ∙ rw (o.cmp_refl q pq) refl

-- A record whose key the record map without indexes does not hold is inserted, and its fields are
-- read back by the key as they were given, in the order asked for. The tree of the record map has
-- its invariant, before and after, and other keys read as before. The lengths of the fields are as
-- in `get_field-fields_to_mem`.
pub insert_tree_rec-get_tree_fields :
    {P : Bytes → Type 0} (h : Heap) (a : ℕ) (l : Layout) (t : BinaryTree) (ks vs : List Field)
    (key : Bytes) (ns : List ℕ)
    → h.buffers ≡ true
    → h.nodes 0 ≡ some a
    → IsOrderOn P (compare_key t.comparison)
    → IsSearchTree P t
    → IsKey l ks
    → IsValue l vs
    → key_to_mem l true (ks ++ vs) ≡ ok key
    → P key
    → search t key ≡ none
    → All (λ n. n < l.fieldcount) ns
    → (t' : BinaryTree) × (v : Entry) × (insert_tree_rec h (plain l t) (ks ++ vs)
        ≡ (plain l t', none))
      × Updates P t key (some v) t'
      × (get_tree_fields true (plain l t') ks ns ≡ ok (pick (ks ++ vs) ns))
insert_tree_rec-get_tree_fields {P} h a l t ks vs key ns mem at o i p q k pk absent ns' =
    let same : encoded l ks ≡ key = ok_injective (sym (key_to_mem_lem l ks vs p) ∙ k) in
    let e : Entry = record { key = key; value = encoded l vs } in
    let (t', run, up) = tree_insert-Updates o i a e pk absent in
    let run' : tree_insert (h.nodes 0) t e ≡ ok t' = rw at run in
    let reads : search t' (encoded l ks) ≡ some e = rw same (Updates-self o up pk) in
    let runs : insert_tree_rec h (plain l t) (ks ++ vs) ≡ insert_tree_rec_kv h (plain l t) e =
      insert_runs h (plain l t) (ks ++ vs) key (encoded l vs) (rw mem k)
        (rw mem (value_to_mem_lem l ks vs p q)) in
    (
      t',
      e,
      runs ∙ insert_kv_plain h l t t' e run',
      up,
      get_stored l t' ks vs ns e p q ns' refl reads,
    )
