-- ===== src/TreeRec/Tree/Inorder.antt =====
-- What stands in a tree, from left to right.
use durodbms.Prelude.{ℕ, ◌≡◌, refl, sym, Option, Bool, true, false, List, [], ◌∷◌, ◌++◌}
use durodbms.Prelude.{append_assoc, ok, if◌then◌else◌, Whenever, >>=-Whenever}
use durodbms.TreeRec.Tree.{
  Balance, minus, even, plus, Entry, Tree, null, node, set_parent, insert_balance_l,
  insert_balance_r, avl_balance_l, avl_balance_r, del_rightmost,
}

module _ {A : Type 0} (f : ℕ → Entry → A) where
  abbrev pub inorder : Tree → List A
  inorder null = []
  inorder (node a p b e l r) = inorder l ++ f a e ∷ inorder r

  pub inorder-set_parent : (p : Option ℕ) (t : Tree) → inorder (set_parent p t) ≡ inorder t
  inorder-set_parent p null = refl
  inorder-set_parent p (node a q b e l r) = refl

  abbrev pub SameAs : Tree → Tree × Bool → Type 0
  SameAs t x = inorder x.0 ≡ inorder t

  pub insert_balance_l-SameAs :
      (q : Option ℕ) (t : Tree) → Whenever (SameAs t) (insert_balance_l q t)
  unfolding insert_balance_l
  insert_balance_l-SameAs q null = tt
  insert_balance_l-SameAs q (node a p plus e l r) = refl
  insert_balance_l-SameAs q (node a p even e l r) = refl
  insert_balance_l-SameAs q (node a p minus e null r) = tt
  insert_balance_l-SameAs q (node a p minus e (node a1 p1 minus e1 l1 r1) r) =
      simp (inorder-set_parent, append_assoc)
  insert_balance_l-SameAs q (node a p minus e (node a1 p1 b1 e1 l1 null) r) = tt
  insert_balance_l-SameAs q (node a p minus e (node a1 p1 b1 e1 l1 (node a2 p2 b2 e2 l2 r2)) r) =
      simp (inorder-set_parent, append_assoc)

  pub insert_balance_r-SameAs :
      (q : Option ℕ) (t : Tree) → Whenever (SameAs t) (insert_balance_r q t)
  unfolding insert_balance_r
  insert_balance_r-SameAs q null = tt
  insert_balance_r-SameAs q (node a p minus e l r) = refl
  insert_balance_r-SameAs q (node a p even e l r) = refl
  insert_balance_r-SameAs q (node a p plus e l null) = tt
  insert_balance_r-SameAs q (node a p plus e l (node a1 p1 plus e1 l1 r1)) =
      simp (inorder-set_parent, append_assoc)
  insert_balance_r-SameAs q (node a p plus e l (node a1 p1 b1 e1 null r1)) = tt
  insert_balance_r-SameAs q (node a p plus e l (node a1 p1 b1 e1 (node a2 p2 b2 e2 l2 r2) r1)) =
      simp (inorder-set_parent, append_assoc)

  pub avl_balance_l-SameAs : (t : Tree) → Whenever (SameAs t) (avl_balance_l t)
  unfolding avl_balance_l
  avl_balance_l-SameAs null = tt
  avl_balance_l-SameAs (node a p minus e l r) = refl
  avl_balance_l-SameAs (node a p even e l r) = refl
  avl_balance_l-SameAs (node a p plus e l null) = tt
  avl_balance_l-SameAs (node a p plus e l (node a1 p1 even e1 l1 r1)) =
      simp (inorder-set_parent, append_assoc)
  avl_balance_l-SameAs (node a p plus e l (node a1 p1 plus e1 l1 r1)) =
      simp (inorder-set_parent, append_assoc)
  avl_balance_l-SameAs (node a p plus e l (node a1 p1 minus e1 null r1)) = tt
  avl_balance_l-SameAs (node a p plus e l (node a1 p1 minus e1 (node a2 p2 b2 e2 l2 r2) r1)) =
      simp (inorder-set_parent, append_assoc)

  pub avl_balance_r-SameAs : (t : Tree) → Whenever (SameAs t) (avl_balance_r t)
  unfolding avl_balance_r
  avl_balance_r-SameAs null = tt
  avl_balance_r-SameAs (node a p plus e l r) = refl
  avl_balance_r-SameAs (node a p even e l r) = refl
  avl_balance_r-SameAs (node a p minus e null r) = tt
  avl_balance_r-SameAs (node a p minus e (node a1 p1 even e1 l1 r1) r) =
      simp (inorder-set_parent, append_assoc)
  avl_balance_r-SameAs (node a p minus e (node a1 p1 minus e1 l1 r1) r) =
      simp (inorder-set_parent, append_assoc)
  avl_balance_r-SameAs (node a p minus e (node a1 p1 plus e1 l1 null) r) = tt
  avl_balance_r-SameAs (node a p minus e (node a1 p1 plus e1 l1 (node a2 p2 b2 e2 l2 r2)) r) =
      simp (inorder-set_parent, append_assoc)

  module _ (a : ℕ) (p : Option ℕ) (b : Balance) (e : Entry) where
    pub after_insert_l-SameAs :
        (q : Option ℕ) (r : Tree) (x : Tree × Bool)
        → Whenever (SameAs (node a p b e x.0 r)) (
            if x.1 then insert_balance_l q (node a p b e x.0 r) else ok (node a p b e x.0 r, false))
    after_insert_l-SameAs q r (l, true) = insert_balance_l-SameAs q (node a p b e l r)
    after_insert_l-SameAs q r (l, false) = refl

    pub after_insert_r-SameAs :
        (q : Option ℕ) (l : Tree) (x : Tree × Bool)
        → Whenever (SameAs (node a p b e l x.0)) (
            if x.1 then insert_balance_r q (node a p b e l x.0) else ok (node a p b e l x.0, false))
    after_insert_r-SameAs q l (r, true) = insert_balance_r-SameAs q (node a p b e l r)
    after_insert_r-SameAs q l (r, false) = refl

    pub after_delete_l-SameAs :
        (r : Tree) (x : Tree × Bool)
        → Whenever
            (SameAs (node a p b e x.0 r))
            (if x.1 then avl_balance_l (node a p b e x.0 r) else ok (node a p b e x.0 r, false))
    after_delete_l-SameAs r (l, true) = avl_balance_l-SameAs (node a p b e l r)
    after_delete_l-SameAs r (l, false) = refl

    pub after_delete_r-SameAs :
        (l : Tree) (x : Tree × Bool)
        → Whenever
            (SameAs (node a p b e l x.0))
            (if x.1 then avl_balance_r (node a p b e l x.0) else ok (node a p b e l x.0, false))
    after_delete_r-SameAs l (r, true) = avl_balance_r-SameAs (node a p b e l r)
    after_delete_r-SameAs l (r, false) = refl

  -- The rightmost node, at some address, is cut off at the right end.
  abbrev pub CutsLast : Tree → Entry × Tree × Bool → Type 0
  CutsLast t x = (z : ℕ) × (inorder t ≡ inorder x.1 ++ f z x.0 ∷ [])

  pub del_rightmost-CutsLast : (t : Tree) → Whenever (CutsLast t) (del_rightmost t)
  unfolding del_rightmost
  del_rightmost-CutsLast null = tt
  del_rightmost-CutsLast (node a p b e l null) = (a, rw (inorder-set_parent p l))
  del_rightmost-CutsLast (node a p b e l (node a1 p1 b1 e1 l1 r1)) =
      >>=-Whenever (CutsLast (node a1 p1 b1 e1 l1 r1)) _ _ _
        (del_rightmost-CutsLast (node a1 p1 b1 e1 l1 r1))
        (λ x (z, cut).
          >>=-Whenever (SameAs (node a p b e l x.1)) _ _ _
            (after_delete_r-SameAs a p b e l (x.1, x.2))
            (λ y same. (
              z,
              rw (cut, same) (sym (append_assoc (inorder l) (f a e ∷ inorder x.1) (f z x.0 ∷ []))),
            )))
