-- ===== src/TreeRec/Tree/Refine.antt =====
-- The tree of duro/treerec/tree.c beside the sorted list of its entries.
use durodbms.Prelude.{
  ℕ, ◌≡◌, ◌≢◌, refl, ap, sym, ◌∙◌, Option, none, some, Bool, List, [], ◌∷◌, ◌++◌,
}
use durodbms.Prelude.{
  append_assoc, append-nil, Result, ok, err, Whenever, >>=-Whenever, Whenever-imp, Returns,
  Returns_also,
}
use durodbms.Prelude.{Ordering-cases, inl, inr, lt, Error, key_violation, not_found, Ends, ◌>>=◌}
use durodbms.TreeRec.Bytes.{Bytes}
use durodbms.TreeRec.Tree.{
  Balance, Entry, Tree, null, node, Comparison, compare_key, create_node, find, avl_tree_insert,
  delete_here, avl_delete_node,
}
use durodbms.TreeRec.Tree.Height.{height, IsBalanced, Grown, Shrunk}
use durodbms.TreeRec.Tree.Avl.{
  avl_tree_insert-Grown, avl_delete_node-Shrunk, delete_here-Shrunk, after_insert_l, after_insert_r,
  after_delete_l, after_delete_r,
}
use durodbms.TreeRec.Tree.Inorder.{
  inorder, SameAs, inorder-set_parent, after_insert_l-SameAs, after_insert_r-SameAs,
  after_delete_l-SameAs, after_delete_r-SameAs, CutsLast, del_rightmost-CutsLast,
}
use durodbms.TreeRec.Sorted.{IsOrderOn, IsSorted, lookup, insert, erase}
use durodbms.TreeRec.Sorted.Cut.{
  Passes, lookup_below, lookup_above, insert_below, insert_here, insert_beyond, erase_below,
  erase_here, erase_beyond,
}
use durodbms.TreeRec.Sorted.Order.{IsSorted-left, IsSorted-right, Passes-before}

abbrev pub entries : Tree → List Entry
entries t = inorder (λ _ e. e) t

-- The entry of the node that a search has found.
abbrev pub entry_of : Tree → Option Entry
entry_of null = none
entry_of (node a p b e l r) = some e

-- A call on the tree and the operation on the list fail alike or succeed with the same entries.
abbrev pub Agrees : Result (Tree × Bool) → Result (List Entry) → Type 0
Agrees (ok x) (ok es) = entries x.0 ≡ es
Agrees (err d) (err e) = d ≡ e
Agrees _ _ = ⊥

>>=-Agrees :
    (e : Error) (G H : Tree × Bool → Type 0) (m : Result (Tree × Bool)) (s : Result (List Entry))
    (f : Tree × Bool → Result (Tree × Bool)) (g : List Entry → List Entry)
    → Agrees m s
    → Ends e G m
    → ((x : Tree × Bool) → G x → Returns (f x) (λ y. H y × (entries y.0 ≡ g (entries x.0))))
    → Agrees (m >>= f) (s >>= (λ es. ok (g es)))
>>=-Agrees e G H (ok x) (ok es) f g h q k =
    let (y, run, (_, same)) = k x q in rw (run, Agrees) (same ∙ ap g h)
>>=-Agrees e G H (ok x) (err d) f g h q k = absurd h
>>=-Agrees e G H (err d) (ok es) f g h q k = absurd h
>>=-Agrees e G H (err d) (err d') f g h q k = h

module _ {P : Bytes → Type 0} (c : Option Comparison) (o : IsOrderOn P (compare_key c)) where
  abbrev cmp : Comparison
  cmp = compare_key c

  passes :
      (k : Bytes) (a : ℕ) (p : Option ℕ) (b : Balance) (e : Entry) (l r : Tree)
      → P k
      → IsSorted cmp P (entries (node a p b e l r))
      → cmp k e.key ≢ lt
      → Passes cmp k (entries l)
  passes k a p b e l r pk s h = Passes-before o k (entries l) e (entries r) pk s h

  -- In a sorted tree the search finds what the list holds under the key.
  pub find-lookup :
      (t : Tree) (k : Bytes)
      → P k
      → IsSorted (compare_key c) P (entries t)
      → entry_of (find c t k) ≡ lookup (compare_key c) k (entries t)
  unfolding find lookup
  find-lookup null k pk s = refl
  find-lookup (node a p b e l r) k pk s = elim (Ordering-cases (cmp k e.key)) [
    | inl h ↦
        rw (h, find)
          (find-lookup l k pk (IsSorted-left cmp P (entries l) (e ∷ entries r) s)
            ∙ sym (lookup_below cmp k e (entries r) (entries l) h))
    | inr (inl h) ↦
        rw (h, find)
          (rw (lookup_above cmp k e (entries r) (entries l) (passes k a p b e l r pk s (λ q. cc)))
            (rw (h, lookup)))
    | inr (inr h) ↦
        rw (h, find)
          (rw (lookup_above cmp k e (entries r) (entries l) (passes k a p b e l r pk s (λ q. cc))) (
            rw (h, lookup)
              (find-lookup r k pk (IsSorted-right cmp P (entries l) (e ∷ entries r) s).2)))
  ]

  -- An insertion into a sorted AVL tree is the insertion into the list of its entries.
  pub avl_tree_insert-insert :
      (a' : ℕ) (t : Tree) (parent : Option ℕ) (new : Entry)
      → P new.key
      → IsSorted (compare_key c) P (entries t)
      → IsBalanced t
      → Agrees (avl_tree_insert c (some a') t parent new) (insert (compare_key c) new (entries t))
  unfolding avl_tree_insert insert create_node
  avl_tree_insert-insert a' null parent new pn s bal = refl
  avl_tree_insert-insert a' (node a p b e l r) parent new pn s (f, bl, br) =
      elim (Ordering-cases (cmp new.key e.key)) [
        | inl h ↦ rw (insert_below cmp new e (entries r) (entries l) h) (
            rw (h, Agrees)
              (>>=-Agrees key_violation (Grown (height l)) (Grown _) _ _ _
                (λ es. es ++ e ∷ entries r)
                (avl_tree_insert-insert a' l (some a) new pn
                  (IsSorted-left cmp P (entries l) (e ∷ entries r) s) bl)
                (avl_tree_insert-Grown c a' l (some a) new bl)
                (λ x g.
                  Returns_also (Grown _) _ _ (after_insert_l a p b e parent r (height l) x f br g)
                    (after_insert_l-SameAs (λ _ e. e) a p b e parent r x))))
        | inr (inl h) ↦
            rw
              (insert_here cmp new e (entries r) (entries l)
                (passes new.key a p b e l r pn s (λ q. cc)) h)
              (rw (h, Agrees) refl)
        | inr (inr h) ↦
            rw
              (insert_beyond cmp new e (entries r) (entries l)
                (passes new.key a p b e l r pn s (λ q. cc)) h)
              (rw (h, Agrees)
                (>>=-Agrees key_violation (Grown (height r)) (Grown _) _ _ _
                  (λ es. entries l ++ e ∷ es)
                  (avl_tree_insert-insert a' r (some a) new pn
                    (IsSorted-right cmp P (entries l) (e ∷ entries r) s).2 br)
                  (avl_tree_insert-Grown c a' r (some a) new br)
                  (λ x g.
                    Returns_also (Grown _) _ _ (after_insert_r a p b e parent l (height r) x f bl g)
                      (after_insert_r-SameAs (λ _ e. e) a p b e parent l x))))
      ]

  -- Deleting a node joins what stands left and right of it.
  delete_here-entries :
      (a : ℕ) (p : Option ℕ) (b : Balance) (e : Entry) (l r : Tree)
      → Whenever (λ y. entries y.0 ≡ entries l ++ entries r) (delete_here (node a p b e l r))
  unfolding delete_here
  delete_here-entries a p b e l null =
      inorder-set_parent (λ _ e. e) p l ∙ sym (append-nil (entries l))
  delete_here-entries a p b e null (node a1 p1 b1 e1 l1 r1) = refl
  delete_here-entries a p b e (node a2 p2 b2 e2 l2 r2) (node a1 p1 b1 e1 l1 r1) =
      let l = node a2 p2 b2 e2 l2 r2 in
      let r = node a1 p1 b1 e1 l1 r1 in
      >>=-Whenever (CutsLast (λ _ e. e) l) _ _ _ (del_rightmost-CutsLast (λ _ e. e) l)
        (λ x (z, cut).
          Whenever-imp (SameAs (λ _ e. e) (node a p b x.0 x.1 r)) _ _
            (after_delete_l-SameAs (λ _ e. e) a p b x.0 r (x.1, x.2))
            (λ y same.
              same
              ∙ sym (
                  ap (λ t. t ++ entries r) cut
                  ∙ append_assoc (entries x.1) (x.0 ∷ []) (entries r))))

  -- A deletion from a sorted AVL tree is the deletion from the list of its entries.
  pub avl_delete_node-erase :
      (t : Tree) (k : Bytes)
      → P k
      → IsSorted (compare_key c) P (entries t)
      → IsBalanced t
      → Agrees (avl_delete_node c t k) (erase (compare_key c) k (entries t))
  unfolding avl_delete_node erase
  avl_delete_node-erase null k pk s bal = refl
  avl_delete_node-erase (node a p b e l r) k pk s (f, bl, br) =
      elim (Ordering-cases (cmp k e.key)) [
        | inl h ↦ rw (erase_below cmp k e (entries r) (entries l) h) (
            rw (h, Agrees)
              (>>=-Agrees not_found (Shrunk (height l)) (Shrunk _) _ _ _ (λ es. es ++ e ∷ entries r)
                (avl_delete_node-erase l k pk (IsSorted-left cmp P (entries l) (e ∷ entries r) s)
                  bl)
                (avl_delete_node-Shrunk c l k bl)
                (λ x g.
                  Returns_also (Shrunk _) _ _ (after_delete_l a p b e r (height l) x f br g)
                    (after_delete_l-SameAs (λ _ e. e) a p b e r x))))
        | inr (inl h) ↦
            let (y, run, (_, same)) =
              Returns_also (Shrunk _) (λ y. entries y.0 ≡ entries l ++ entries r) _
                (delete_here-Shrunk a p b e l r (f, bl, br)) (delete_here-entries a p b e l r) in
            rw (erase_here cmp k e (entries r) (entries l) (passes k a p b e l r pk s (λ q. cc)) h)
              (rw (h, Agrees) (rw (run, Agrees) same))
        | inr (inr h) ↦
            rw
              (erase_beyond cmp k e (entries r) (entries l) (passes k a p b e l r pk s (λ q. cc)) h)
              (rw (h, Agrees)
                (>>=-Agrees not_found (Shrunk (height r)) (Shrunk _) _ _ _
                  (λ es. entries l ++ e ∷ es)
                  (avl_delete_node-erase r k pk
                    (IsSorted-right cmp P (entries l) (e ∷ entries r) s).2 br)
                  (avl_delete_node-Shrunk c r k br)
                  (λ x g.
                    Returns_also (Shrunk _) _ _ (after_delete_r a p b e l (height r) x f bl g)
                      (after_delete_r-SameAs (λ _ e. e) a p b e l x))))
      ]
