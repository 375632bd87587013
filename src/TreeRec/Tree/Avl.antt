-- ===== src/TreeRec/Tree/Avl.antt =====
-- The AVL invariant across insertion and deletion of duro/treerec/tree.c.
use Prim.Native.Nat.{max}
use durodbms.Prelude.{ℕ, suc, ◌+◌, ◌≡◌, refl, Option, some, Bool, true, false, arith}
use durodbms.Prelude.{Ordering-cases, inl, inr, if◌then◌else◌}
use durodbms.Prelude.{
  key_violation, not_found, ok, Returns, Ends, Returns-Ends, >>=-Ends, >>=-Returns,
}
use durodbms.TreeRec.Bytes.{Bytes}
use durodbms.TreeRec.Tree.{
  Balance, minus, even, plus, Entry, Tree, null, node, Comparison, compare_key, set_parent,
  create_node, insert_balance_l, insert_balance_r, avl_tree_insert, avl_balance_l, avl_balance_r,
  del_rightmost, delete_here, avl_delete_node,
}
use durodbms.TreeRec.Tree.Height.{
  height, Fits, IsBalanced, Grown, Shrunk, set_parent-IsBalanced, height-set_parent,
  insert_balance_l-Grown, insert_balance_r-Grown, avl_balance_l-Shrunk, avl_balance_r-Shrunk,
}

module _ (a : ℕ) (p : Option ℕ) (b : Balance) (e : Entry) where
  pub after_insert_l :
      (q : Option ℕ) (r : Tree) (n : ℕ) (x : Tree × Bool)
      → Fits b n (height r)
      → IsBalanced r
      → Grown n x
      → Returns
          (if x.1 then insert_balance_l q (node a p b e x.0 r) else ok (node a p b e x.0 r, false))
          (Grown (suc (max n (height r))))
  after_insert_l q r n (l, true) f br g =
      insert_balance_l-Grown q a p b e l r n f (omega arith) g.0 br g.2
  after_insert_l q r n (l, false) f br (bl, same, tilts) =
      let s : height l ≡ n = omega arith in (_, refl, ((rw s f, bl, br), omega arith, tt))

  pub after_insert_r :
      (q : Option ℕ) (l : Tree) (n : ℕ) (x : Tree × Bool)
      → Fits b (height l) n
      → IsBalanced l
      → Grown n x
      → Returns
          (if x.1 then insert_balance_r q (node a p b e l x.0) else ok (node a p b e l x.0, false))
          (Grown (suc (max (height l) n)))
  after_insert_r q l n (r, true) f bl g =
      insert_balance_r-Grown q a p b e l r n f (omega arith) bl g.0 g.2
  after_insert_r q l n (r, false) f bl (br, same, tilts) =
      let s : height r ≡ n = omega arith in (_, refl, ((rw s f, bl, br), omega arith, tt))

  pub after_delete_l :
      (r : Tree) (n : ℕ) (x : Tree × Bool)
      → Fits b n (height r)
      → IsBalanced r
      → Shrunk n x
      → Returns
          (if x.1 then avl_balance_l (node a p b e x.0 r) else ok (node a p b e x.0 r, false))
          (Shrunk (suc (max n (height r))))
  after_delete_l r n (l, true) f br g = avl_balance_l-Shrunk a p b e l r n f (omega arith) g.0 br
  after_delete_l r n (l, false) f br (bl, same) =
      let s : height l ≡ n = omega arith in (_, refl, ((rw s f, bl, br), omega arith))

  pub after_delete_r :
      (l : Tree) (n : ℕ) (x : Tree × Bool)
      → Fits b (height l) n
      → IsBalanced l
      → Shrunk n x
      → Returns
          (if x.1 then avl_balance_r (node a p b e l x.0) else ok (node a p b e l x.0, false))
          (Shrunk (suc (max (height l) n)))
  after_delete_r l n (r, true) f bl g = avl_balance_r-Shrunk a p b e l r n f (omega arith) bl g.0
  after_delete_r l n (r, false) f bl (br, same) =
      let s : height r ≡ n = omega arith in (_, refl, ((rw s f, bl, br), omega arith))

-- On an AVL tree an insertion with memory at hand never reads through a null pointer: it reports
-- a key violation, or returns an AVL tree, and its flag says exactly whether the height grew.
pub avl_tree_insert-Grown :
    (c : Option Comparison) (a : ℕ) (t : Tree) (parent : Option ℕ) (new : Entry)
    → IsBalanced t
    → Ends key_violation (Grown (height t)) (avl_tree_insert c (some a) t parent new)
unfolding avl_tree_insert create_node
avl_tree_insert-Grown c a null parent new bal = ((refl, tt, tt), refl, (refl, refl))
avl_tree_insert-Grown c a (node a' p b e l r) parent new (f, bl, br) =
    elim (Ordering-cases (compare_key c new.key e.key)) [
      | inl below ↦
          rw (below, Ends)
            (>>=-Ends key_violation (Grown (height l)) (Grown _) _ _
              (avl_tree_insert-Grown c a l (some a') new bl)
              (λ x g. Returns-Ends _ _ _ (after_insert_l a' p b e parent r (height l) x f br g)))
      | inr (inl same) ↦ rw (same, Ends) refl
      | inr (inr above) ↦
          rw (above, Ends)
            (>>=-Ends key_violation (Grown (height r)) (Grown _) _ _
              (avl_tree_insert-Grown c a r (some a') new br)
              (λ x g. Returns-Ends _ _ _ (after_insert_r a' p b e parent l (height r) x f bl g)))
    ]

del_rightmost-Shrunk :
    (a : ℕ) (p : Option ℕ) (b : Balance) (e : Entry) (l r : Tree)
    → IsBalanced (node a p b e l r)
    → Returns
        (del_rightmost (node a p b e l r))
        (λ x. Shrunk (height (node a p b e l r)) (x.1, x.2))
unfolding del_rightmost
del_rightmost-Shrunk a p plus e l null (f, bl, br) = absurd (omega arith)
del_rightmost-Shrunk a p minus e l null (f, bl, br) =
    let s = height-set_parent p l in (_, refl, (set_parent-IsBalanced p l bl, omega arith))
del_rightmost-Shrunk a p even e l null (f, bl, br) =
    let s = height-set_parent p l in (_, refl, (set_parent-IsBalanced p l bl, omega arith))
del_rightmost-Shrunk a p b e l (node a1 p1 b1 e1 l1 r1) (f, bl, br) =
    >>=-Returns (λ x. Shrunk (height (node a1 p1 b1 e1 l1 r1)) (x.1, x.2)) _ _ _
      (del_rightmost-Shrunk a1 p1 b1 e1 l1 r1 br)
      (λ x g.
        >>=-Returns (Shrunk _) _ _ _
          (after_delete_r a p b e l (height (node a1 p1 b1 e1 l1 r1)) (x.1, x.2) f bl g)
          (λ y s. (_, refl, s)))

pub delete_here-Shrunk :
    (a : ℕ) (p : Option ℕ) (b : Balance) (e : Entry) (l r : Tree)
    → IsBalanced (node a p b e l r)
    → Returns (delete_here (node a p b e l r)) (Shrunk (height (node a p b e l r)))
unfolding delete_here
delete_here-Shrunk a p b e l null (f, bl, br) = (_, refl, (set_parent-IsBalanced p l bl, tall b f))
  where
    tall :
        (b : Balance) → Fits b (height l) 0 → height (set_parent p l) + 1 ≡ suc (max (height l) 0)
    tall minus f = omega (arith, height-set_parent p l)
    tall even f = omega (arith, height-set_parent p l)
    tall plus f = absurd (omega arith)
delete_here-Shrunk a p b e null (node a1 p1 b1 e1 l1 r1) (f, bl, br) = (_, refl, (br, omega arith))
delete_here-Shrunk a p b e (node a2 p2 b2 e2 l2 r2) (node a1 p1 b1 e1 l1 r1) (f, bl, br) =
    >>=-Returns (λ x. Shrunk (height (node a2 p2 b2 e2 l2 r2)) (x.1, x.2)) _ _ _
      (del_rightmost-Shrunk a2 p2 b2 e2 l2 r2 bl)
      (λ x g.
        after_delete_l a p b x.0 (node a1 p1 b1 e1 l1 r1) (height (node a2 p2 b2 e2 l2 r2))
          (x.1, x.2) f br g)

-- On an AVL tree a deletion never reads through a null pointer: it reports that the key is not
-- found, or returns an AVL tree, and its flag says exactly whether the height shrank.
pub avl_delete_node-Shrunk :
    (c : Option Comparison) (t : Tree) (key : Bytes)
    → IsBalanced t
    → Ends not_found (Shrunk (height t)) (avl_delete_node c t key)
unfolding avl_delete_node
avl_delete_node-Shrunk c null key bal = refl
avl_delete_node-Shrunk c (node a p b e l r) key (f, bl, br) =
    elim (Ordering-cases (compare_key c key e.key)) [
      | inl below ↦
          rw (below, Ends)
            (>>=-Ends not_found (Shrunk (height l)) (Shrunk _) _ _
              (avl_delete_node-Shrunk c l key bl)
              (λ x g. Returns-Ends _ _ _ (after_delete_l a p b e r (height l) x f br g)))
      | inr (inl same) ↦
          rw (same, Ends) (Returns-Ends _ _ _ (delete_here-Shrunk a p b e l r (f, bl, br)))
      | inr (inr above) ↦
          rw (above, Ends)
            (>>=-Ends not_found (Shrunk (height r)) (Shrunk _) _ _
              (avl_delete_node-Shrunk c r key br)
              (λ x g. Returns-Ends _ _ _ (after_delete_r a p b e l (height r) x f bl g)))
    ]
