-- ===== src/TreeRec/Tree/Linked.antt =====
-- Parent pointers of duro/treerec/tree.c: every node points to the node above it.
use durodbms.Prelude.{ℕ, ◌≡◌, refl, Option, none, some, Bool, true, false, ok}
use durodbms.Prelude.{if◌then◌else◌, Whenever, >>=-Whenever, Ordering-cases, inl, inr}
use durodbms.TreeRec.Bytes.{Bytes}
use durodbms.TreeRec.Tree.{
  Balance, minus, even, plus, Entry, Tree, null, node, Comparison, compare_key, set_parent,
  create_node, insert_balance_l, insert_balance_r, avl_tree_insert, avl_balance_l, avl_balance_r,
  del_rightmost, delete_here, avl_delete_node,
}

-- The root's pointer is `q`, and every other node's is the address of the node above it.
abbrev pub IsLinked : Option ℕ → Tree → Type 0
IsLinked q null = Unit
IsLinked q (node a p b e l r) = (p ≡ q) × IsLinked (some a) l × IsLinked (some a) r

pub set_parent-IsLinked : (p q : Option ℕ) (t : Tree) → IsLinked p t → IsLinked q (set_parent q t)
set_parent-IsLinked p q null h = tt
set_parent-IsLinked p q (node a p' b e l r) h = (refl, h.1, h.2)

pub insert_balance_l-IsLinked :
    (q : Option ℕ) (t : Tree) → IsLinked q t → Whenever (λ y. IsLinked q y.0) (insert_balance_l q t)
unfolding insert_balance_l
insert_balance_l-IsLinked q null h = tt
insert_balance_l-IsLinked q (node a p plus e l r) h = h
insert_balance_l-IsLinked q (node a p even e l r) h = h
insert_balance_l-IsLinked q (node a p minus e null r) h = tt
insert_balance_l-IsLinked q (node a p minus e (node a1 p1 minus e1 l1 r1) r)
      (up, (up1, ll1, lr1), lr) =
    (refl, ll1, (refl, set_parent-IsLinked _ (some a) r1 lr1, lr))
insert_balance_l-IsLinked q (node a p minus e (node a1 p1 b1 e1 l1 null) r) h = tt
insert_balance_l-IsLinked q (node a p minus e (node a1 p1 b1 e1 l1 (node a2 p2 b2 e2 l2 r2)) r)
      (up, (up1, ll1, (up2, ll2, lr2)), lr) =
    (
      refl,
      (refl, ll1, set_parent-IsLinked _ (some a1) l2 ll2),
      (refl, set_parent-IsLinked _ (some a) r2 lr2, lr),
    )

pub insert_balance_r-IsLinked :
    (q : Option ℕ) (t : Tree) → IsLinked q t → Whenever (λ y. IsLinked q y.0) (insert_balance_r q t)
unfolding insert_balance_r
insert_balance_r-IsLinked q null h = tt
insert_balance_r-IsLinked q (node a p minus e l r) h = h
insert_balance_r-IsLinked q (node a p even e l r) h = h
insert_balance_r-IsLinked q (node a p plus e l null) h = tt
insert_balance_r-IsLinked q (node a p plus e l (node a1 p1 plus e1 l1 r1))
      (up, ll, (up1, ll1, lr1)) =
    (refl, (refl, ll, set_parent-IsLinked _ (some a) l1 ll1), lr1)
insert_balance_r-IsLinked q (node a p plus e l (node a1 p1 b1 e1 null r1)) h = tt
insert_balance_r-IsLinked q (node a p plus e l (node a1 p1 b1 e1 (node a2 p2 b2 e2 l2 r2) r1))
      (up, ll, (up1, (up2, ll2, lr2), lr1)) =
    (
      refl,
      (refl, ll, set_parent-IsLinked _ (some a) l2 ll2),
      (refl, set_parent-IsLinked _ (some a1) r2 lr2, lr1),
    )

pub avl_balance_l-IsLinked :
    (q : Option ℕ) (t : Tree) → IsLinked q t → Whenever (λ y. IsLinked q y.0) (avl_balance_l t)
unfolding avl_balance_l
avl_balance_l-IsLinked q null h = tt
avl_balance_l-IsLinked q (node a p minus e l r) h = h
avl_balance_l-IsLinked q (node a p even e l r) h = h
avl_balance_l-IsLinked q (node a p plus e l null) h = tt
avl_balance_l-IsLinked q (node a p plus e l (node a1 p1 even e1 l1 r1)) (up, ll, (up1, ll1, lr1)) =
    (up, (refl, ll, set_parent-IsLinked _ (some a) l1 ll1), lr1)
avl_balance_l-IsLinked q (node a p plus e l (node a1 p1 plus e1 l1 r1)) (up, ll, (up1, ll1, lr1)) =
    (up, (refl, ll, set_parent-IsLinked _ (some a) l1 ll1), lr1)
avl_balance_l-IsLinked q (node a p plus e l (node a1 p1 minus e1 null r1)) h = tt
avl_balance_l-IsLinked q (node a p plus e l (node a1 p1 minus e1 (node a2 p2 b2 e2 l2 r2) r1))
      (up, ll, (up1, (up2, ll2, lr2), lr1)) =
    (
      up,
      (refl, ll, set_parent-IsLinked _ (some a) l2 ll2),
      (refl, set_parent-IsLinked _ (some a1) r2 lr2, lr1),
    )

pub avl_balance_r-IsLinked :
    (q : Option ℕ) (t : Tree) → IsLinked q t → Whenever (λ y. IsLinked q y.0) (avl_balance_r t)
unfolding avl_balance_r
avl_balance_r-IsLinked q null h = tt
avl_balance_r-IsLinked q (node a p plus e l r) h = h
avl_balance_r-IsLinked q (node a p even e l r) h = h
avl_balance_r-IsLinked q (node a p minus e null r) h = tt
avl_balance_r-IsLinked q (node a p minus e (node a1 p1 even e1 l1 r1) r) (up, (up1, ll1, lr1), lr) =
    (up, ll1, (refl, set_parent-IsLinked _ (some a) r1 lr1, lr))
avl_balance_r-IsLinked q (node a p minus e (node a1 p1 minus e1 l1 r1) r)
      (up, (up1, ll1, lr1), lr) =
    (up, ll1, (refl, set_parent-IsLinked _ (some a) r1 lr1, lr))
avl_balance_r-IsLinked q (node a p minus e (node a1 p1 plus e1 l1 null) r) h = tt
avl_balance_r-IsLinked q (node a p minus e (node a1 p1 plus e1 l1 (node a2 p2 b2 e2 l2 r2)) r)
      (up, (up1, ll1, (up2, ll2, lr2)), lr) =
    (
      up,
      (refl, ll1, set_parent-IsLinked _ (some a1) l2 ll2),
      (refl, set_parent-IsLinked _ (some a) r2 lr2, lr),
    )

-- Whatever the outcome of an insertion, a tree that it returns has its parent pointers right.
pub avl_tree_insert-IsLinked :
    (c : Option Comparison) (alloc : Option ℕ) (t : Tree) (parent : Option ℕ) (new : Entry)
    → IsLinked parent t
    → Whenever (λ y. IsLinked parent y.0) (avl_tree_insert c alloc t parent new)
unfolding avl_tree_insert create_node
avl_tree_insert-IsLinked c none null parent new h = tt
avl_tree_insert-IsLinked c (some a) null parent new h = (refl, tt, tt)
avl_tree_insert-IsLinked c alloc (node a p b e l r) parent new (up, ll, lr) =
    elim (Ordering-cases (compare_key c new.key e.key)) [
      | inl o ↦
          rw (o, Whenever)
            (>>=-Whenever (λ y. IsLinked (some a) y.0) _ _ _
              (avl_tree_insert-IsLinked c alloc l (some a) new ll) (λ x g. left x g))
      | inr (inl o) ↦ rw (o, Whenever) tt
      | inr (inr o) ↦
          rw (o, Whenever)
            (>>=-Whenever (λ y. IsLinked (some a) y.0) _ _ _
              (avl_tree_insert-IsLinked c alloc r (some a) new lr) (λ x g. right x g))
    ]
  where
    left :
        (x : Tree × Bool)
        → IsLinked (some a) x.0
        → Whenever
            (λ y. IsLinked parent y.0)
            (if x.1
              then insert_balance_l parent (node a p b e x.0 r)
              else ok (node a p b e x.0 r, false))
    left (l', true) g = insert_balance_l-IsLinked parent (node a p b e l' r) (up, g, lr)
    left (l', false) g = (up, g, lr)

    right :
        (x : Tree × Bool)
        → IsLinked (some a) x.0
        → Whenever
            (λ y. IsLinked parent y.0)
            (if x.1
              then insert_balance_r parent (node a p b e l x.0)
              else ok (node a p b e l x.0, false))
    right (r', true) g = insert_balance_r-IsLinked parent (node a p b e l r') (up, ll, g)
    right (r', false) g = (up, ll, g)

module _ (a : ℕ) (p : Option ℕ) (b : Balance) (e : Entry) (q : Option ℕ) (up : p ≡ q) where
  after_delete_l-IsLinked :
      (r : Tree) (x : Tree × Bool)
      → IsLinked (some a) r
      → IsLinked (some a) x.0
      → Whenever
          (λ y. IsLinked q y.0)
          (if x.1 then avl_balance_l (node a p b e x.0 r) else ok (node a p b e x.0 r, false))
  after_delete_l-IsLinked r (l, true) lr g = avl_balance_l-IsLinked q (node a p b e l r) (up, g, lr)
  after_delete_l-IsLinked r (l, false) lr g = (up, g, lr)

  after_delete_r-IsLinked :
      (l : Tree) (x : Tree × Bool)
      → IsLinked (some a) l
      → IsLinked (some a) x.0
      → Whenever
          (λ y. IsLinked q y.0)
          (if x.1 then avl_balance_r (node a p b e l x.0) else ok (node a p b e l x.0, false))
  after_delete_r-IsLinked l (r, true) ll g = avl_balance_r-IsLinked q (node a p b e l r) (up, ll, g)
  after_delete_r-IsLinked l (r, false) ll g = (up, ll, g)

del_rightmost-IsLinked :
    (q : Option ℕ) (t : Tree) → IsLinked q t → Whenever (λ x. IsLinked q x.1) (del_rightmost t)
unfolding del_rightmost
del_rightmost-IsLinked q null h = tt
del_rightmost-IsLinked q (node a p b e l null) (up, ll, lr) =
    rw up (set_parent-IsLinked (some a) q l ll)
del_rightmost-IsLinked q (node a p b e l (node a1 p1 b1 e1 l1 r1)) (up, ll, lr) =
    >>=-Whenever (λ (x : Entry × Tree × Bool). IsLinked (some a) x.1) _ _ _
      (del_rightmost-IsLinked (some a) (node a1 p1 b1 e1 l1 r1) lr)
      (λ x g.
        >>=-Whenever (λ (y : Tree × Bool). IsLinked q y.0) _ _ _
          (after_delete_r-IsLinked a p b e q up l (x.1, x.2) ll g) (λ y h. h))

delete_here-IsLinked :
    (q : Option ℕ) (t : Tree) → IsLinked q t → Whenever (λ y. IsLinked q y.0) (delete_here t)
unfolding delete_here
delete_here-IsLinked q null h = tt
delete_here-IsLinked q (node a p b e l null) (up, ll, lr) =
    rw up (set_parent-IsLinked (some a) q l ll)
delete_here-IsLinked q (node a p b e null (node a1 p1 b1 e1 l1 r1)) (up, ll, lr) = (up, lr.1, lr.2)
delete_here-IsLinked q (node a p b e (node a2 p2 b2 e2 l2 r2) (node a1 p1 b1 e1 l1 r1))
      (up, ll, lr) =
    >>=-Whenever (λ (x : Entry × Tree × Bool). IsLinked (some a) x.1) _ _ _
      (del_rightmost-IsLinked (some a) (node a2 p2 b2 e2 l2 r2) ll)
      (λ x g. after_delete_l-IsLinked a p b x.0 q up (node a1 p1 b1 e1 l1 r1) (x.1, x.2) lr g)

-- So has a tree that a deletion returns.
pub avl_delete_node-IsLinked :
    (c : Option Comparison) (t : Tree) (q : Option ℕ) (key : Bytes)
    → IsLinked q t
    → Whenever (λ y. IsLinked q y.0) (avl_delete_node c t key)
unfolding avl_delete_node
avl_delete_node-IsLinked c null q key h = tt
avl_delete_node-IsLinked c (node a p b e l r) q key (up, ll, lr) =
    elim (Ordering-cases (compare_key c key e.key)) [
      | inl o ↦
          rw (o, Whenever)
            (>>=-Whenever (λ y. IsLinked (some a) y.0) _ _ _
              (avl_delete_node-IsLinked c l (some a) key ll)
              (λ x g. after_delete_l-IsLinked a p b e q up r x lr g))
      | inr (inl o) ↦ rw (o, Whenever) (delete_here-IsLinked q (node a p b e l r) (up, ll, lr))
      | inr (inr o) ↦
          rw (o, Whenever)
            (>>=-Whenever (λ y. IsLinked (some a) y.0) _ _ _
              (avl_delete_node-IsLinked c r (some a) key lr)
              (λ x g. after_delete_r-IsLinked a p b e q up l x ll g))
    ]
