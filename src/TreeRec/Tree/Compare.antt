-- ===== src/TreeRec/Tree/Compare.antt =====
-- The default comparison of duro/treerec/tree.c, `memcmp` and then `abs` of the difference of the
-- lengths: an order on keys of one length, and none between a key and its extensions.
use durodbms.Prelude.{ℕ, ◌<◌, ◌≡◌, refl, sym, none, some, arith}
use durodbms.Prelude.{
  [], ◌∷◌, ◌++◌, length, length-append, append_assoc, ◌∙◌, lt, eq, gt, Returns, ◌>>=◌,
}
use durodbms.TreeRec.Bytes.{Bytes, memcmp, abs_diff}
use durodbms.TreeRec.Tree.{
  null, node, compare_key, create_tree, find, avl_tree_insert, tree_insert, create_node,
  insert_balance_r,
}
use durodbms.TreeRec.Tree.Search.{search}
use durodbms.TreeRec.Sorted.{IsOrderOn}
use durodbms.TreeRec.Tree.{even}

memcmp_refl : (a : Bytes) → memcmp a a ≡ eq
unfolding memcmp
memcmp_refl [] = refl
memcmp_refl (x ∷ a) = ground (arith, memcmp_refl a)

memcmp_swap_lt : (a b : Bytes) → memcmp a b ≡ lt → memcmp b a ≡ gt
unfolding memcmp
memcmp_swap_lt [] b h = cc
memcmp_swap_lt (x ∷ a) [] h = cc
memcmp_swap_lt (x ∷ a) (y ∷ b) h = ground (arith, memcmp_swap_lt a b)

memcmp_swap_gt : (a b : Bytes) → memcmp a b ≡ gt → memcmp b a ≡ lt
unfolding memcmp
memcmp_swap_gt [] b h = cc
memcmp_swap_gt (x ∷ a) [] h = cc
memcmp_swap_gt (x ∷ a) (y ∷ b) h = ground (arith, memcmp_swap_gt a b)

eq_of_memcmp : (a b : Bytes) → length a ≡ length b → memcmp a b ≡ eq → a ≡ b
unfolding memcmp
eq_of_memcmp [] [] n h = refl
eq_of_memcmp [] (y ∷ b) n h = absurd (omega arith)
eq_of_memcmp (x ∷ a) [] n h = absurd (omega arith)
eq_of_memcmp (x ∷ a) (y ∷ b) n h = ground (arith, eq_of_memcmp a b)

memcmp_trans :
    (a b c : Bytes)
    → length a ≡ length b
    → length b ≡ length c
    → memcmp a b ≡ lt
    → memcmp b c ≡ lt
    → memcmp a c ≡ lt
unfolding memcmp
memcmp_trans [] b c m n h k = cc
memcmp_trans (x ∷ a) [] c m n h k = cc
memcmp_trans (x ∷ a) (y ∷ b) [] m n h k = cc
memcmp_trans (x ∷ a) (y ∷ b) (z ∷ c) m n h k = ground (arith, memcmp_trans a b c)

abbrev pub HasLength : ℕ → Bytes → Type 0
HasLength n k = length k ≡ n

compare_key-memcmp :
    (n : ℕ) (a b : Bytes)
    → 0 < n
    → HasLength n a
    → HasLength n b
    → compare_key none a b ≡ memcmp a b
unfolding compare_key abs_diff
compare_key-memcmp n a b pos ha hb = ground arith

-- On keys of one length the default comparison is an order.
pub compare_key-IsOrderOn : (n : ℕ) → 0 < n → IsOrderOn (HasLength n) (compare_key none)
compare_key-IsOrderOn n pos = record {
  cmp_refl = λ a ha. compare_key-memcmp n a a pos ha ha ∙ memcmp_refl a;
  eq_symm = λ a b ha hb h.
      let same = eq_of_memcmp a b (omega arith) (sym (compare_key-memcmp n a b pos ha hb) ∙ h) in
      rw same (compare_key-memcmp n b b pos hb hb ∙ memcmp_refl b);
  gt_of_lt = λ a b ha hb h.
      compare_key-memcmp n b a pos hb ha
      ∙ memcmp_swap_lt a b (sym (compare_key-memcmp n a b pos ha hb) ∙ h);
  lt_of_gt = λ a b ha hb h.
      compare_key-memcmp n b a pos hb ha
      ∙ memcmp_swap_gt a b (sym (compare_key-memcmp n a b pos ha hb) ∙ h);
  lt_trans = λ a b c ha hb hc h k.
      compare_key-memcmp n a c pos ha hc
      ∙ memcmp_trans a b c (omega arith) (omega arith)
          (sym (compare_key-memcmp n a b pos ha hb) ∙ h)
          (sym (compare_key-memcmp n b c pos hb hc) ∙ k);
  lt_of_lt_eq = λ a b c ha hb hc h k.
      let same = eq_of_memcmp b c (omega arith) (sym (compare_key-memcmp n b c pos hb hc) ∙ k) in
      rw same at h;
}

memcmp-append : (k xs : Bytes) → (memcmp (k ++ xs) k ≡ eq) × (memcmp k (k ++ xs) ≡ eq)
unfolding memcmp
memcmp-append [] [] = (refl, refl)
memcmp-append [] (x ∷ xs) = (refl, refl)
memcmp-append (x ∷ k) xs = ground (arith, memcmp-append k xs)

-- A key and its extension are each above the other.
compare_key_extension :
    (k xs : Bytes)
    → 0 < length k
    → 0 < length xs
    → (compare_key none (k ++ xs) k ≡ gt) × (compare_key none k (k ++ xs) ≡ gt)
unfolding compare_key abs_diff
compare_key_extension k xs hk hx = ground (arith, memcmp-append k xs, length-append k xs)

-- Three keys, each of which compares as above each other one.
hidden :
    (k1 k2 k3 v : Bytes) (a b c : ℕ)
    → compare_key none k2 k1 ≡ gt
    → compare_key none k3 k1 ≡ gt
    → compare_key none k3 k2 ≡ gt
    → compare_key none k1 k2 ≡ gt
    → compare_key none k1 k3 ≡ gt
    → Returns
        (do
          t1 ← tree_insert (some a) (create_tree none) (record { key = k1; value = v })
          t2 ← tree_insert (some b) t1 (record { key = k2; value = v })
          tree_insert (some c) t2 (record { key = k3; value = v }))
        (λ t. search t k1 ≡ none)
unfolding tree_insert create_tree avl_tree_insert create_node insert_balance_r find
hidden k1 k2 k3 v a b c h21 h31 h32 h12 h13 = (
  record {
    root =
        node b none even (record { key = k2; value = v })
          (node a (some b) even (record { key = k1; value = v }) null null)
          (node c (some b) even (record { key = k3; value = v }) null null);
    comparison = none;
  },
  rw (h21, tree_insert, avl_tree_insert) (rw (h31, h32, tree_insert, avl_tree_insert)),
  rw (h12, find) (rw (h13, find)),
)

-- With the default comparison a key is lost when two extensions of it are inserted, each
-- extending the one before: the rotation puts the key where the search does not look.
pub extensions_hide_key :
    (k xs ys v : Bytes) (a b c : ℕ)
    → 0 < length k
    → 0 < length xs
    → 0 < length ys
    → Returns
        (do
          t1 ← tree_insert (some a) (create_tree none) (record { key = k; value = v })
          t2 ← tree_insert (some b) t1 (record { key = k ++ xs; value = v })
          tree_insert (some c) t2 (record { key = (k ++ xs) ++ ys; value = v }))
        (λ t. search t k ≡ none)
extensions_hide_key k xs ys v a b c hk hx hy =
    let (up1, down1) = compare_key_extension k xs hk hx in
    let (up2, down2) = compare_key_extension (k ++ xs) ys (rw length-append (omega arith)) hy in
    let long : 0 < length (xs ++ ys) = rw length-append (omega arith) in
    let (up3, down3) = compare_key_extension k (xs ++ ys) hk long in
    hidden k (k ++ xs) ((k ++ xs) ++ ys) v a b c up1 (rw (append_assoc k xs ys) up3) up2 down1
      (rw (append_assoc k xs ys) down3)
