-- ===== src/TreeRec/Sorted/Order.antt =====
-- The operations of the sorted list keep the order.
use durodbms.Prelude.{lt, ◌≡◌, refl, List, [], ◌∷◌, ◌++◌, All}
use durodbms.Prelude.{key_violation, not_found, Ordering-cases, inl, inr}
use durodbms.Prelude.{◌≢◌, All-append, All-append_left, All-append_right, Ends, >>=-Ends, Ends-and}
use durodbms.TreeRec.Bytes.{Bytes}
use durodbms.TreeRec.Tree.{Entry, Comparison}
use durodbms.TreeRec.Sorted.{IsOrderOn, IsSorted, insert, erase}
use durodbms.TreeRec.Sorted.Cut.{Passes}

module _ (cmp : Comparison) (P : Bytes → Type 0) where
  pub IsSorted-left : (xs ys : List Entry) → IsSorted cmp P (xs ++ ys) → IsSorted cmp P xs
  IsSorted-left [] ys s = tt
  IsSorted-left (x ∷ xs) ys (p, a, s) =
      (p, All-append_left (λ x'. cmp x.key x'.key ≡ lt) xs ys a, IsSorted-left xs ys s)

  pub IsSorted-right : (xs ys : List Entry) → IsSorted cmp P (xs ++ ys) → IsSorted cmp P ys
  IsSorted-right [] ys s = s
  IsSorted-right (x ∷ xs) ys (p, a, s) = IsSorted-right xs ys s

  -- Leaving an entry out keeps the order.
  pub IsSorted-without :
      (xs : List Entry) (e : Entry) (ys : List Entry)
      → IsSorted cmp P (xs ++ e ∷ ys)
      → IsSorted cmp P (xs ++ ys)
  IsSorted-without [] e ys s = s.2
  IsSorted-without (x ∷ xs) e ys (p, a, s) = (
    p,
    All-append (λ x'. cmp x.key x'.key ≡ lt) xs ys
        (All-append_left (λ x'. cmp x.key x'.key ≡ lt) xs (e ∷ ys) a)
        (All-append_right (λ x'. cmp x.key x'.key ≡ lt) xs (e ∷ ys) a).1,
    IsSorted-without xs e ys s,
  )

module _ {P : Bytes → Type 0} {cmp : Comparison} (o : IsOrderOn P cmp) where
  -- A key that is equal to an entry's or above it passes all that stands before that entry.
  pub Passes-before :
      (k : Bytes) (xs : List Entry) (e : Entry) (ys : List Entry)
      → P k
      → IsSorted cmp P (xs ++ e ∷ ys)
      → cmp k e.key ≢ lt
      → Passes cmp k xs
  Passes-before k [] e ys pk s h = tt
  Passes-before k (x ∷ xs) e ys pk (px, a, s) h =
      let pe = (IsSorted-right cmp P xs (e ∷ ys) s).0 in
      let below = (All-append_right (λ x'. cmp x.key x'.key ≡ lt) xs (e ∷ ys) a).0 in
      (
        elim (Ordering-cases (cmp k e.key)) [
          | inl l ↦ absurd (h l)
          | inr (inl q) ↦
              o.gt_of_lt x.key k px pk
                (o.lt_of_lt_eq x.key e.key k px pe pk below (o.eq_symm k e.key pk pe q))
          | inr (inr g) ↦
              o.gt_of_lt x.key k px pk
                (o.lt_trans x.key e.key k px pe pk below (o.lt_of_gt k e.key pk pe g))
        ],
        Passes-before k xs e ys pk s h,
      )

  insert-All :
      (Q : Entry → Type 0) (new : Entry) (es : List Entry)
      → Q new
      → All Q es
      → Ends key_violation (All Q) (insert cmp new es)
  unfolding insert
  insert-All Q new [] qn qs = (qn, tt)
  insert-All Q new (e ∷ es) qn (qe, qs) = elim (Ordering-cases (cmp new.key e.key)) [
    | inl c ↦ rw (c, Ends) (qn, (qe, qs))
    | inr (inl c) ↦ rw (c, Ends) refl
    | inr (inr c) ↦
        rw (c, Ends)
          (>>=-Ends key_violation (All Q) (All Q) (insert cmp new es) _ (insert-All Q new es qn qs)
            (λ r h. (qe, h)))
  ]

  erase-All :
      (Q : Entry → Type 0) (k : Bytes) (es : List Entry)
      → All Q es
      → Ends not_found (All Q) (erase cmp k es)
  unfolding erase
  erase-All Q k [] qs = refl
  erase-All Q k (e ∷ es) (qe, qs) = elim (Ordering-cases (cmp k e.key)) [
    | inl c ↦ rw (c, Ends) refl
    | inr (inl c) ↦ rw (c, Ends) qs
    | inr (inr c) ↦
        rw (c, Ends)
          (>>=-Ends not_found (All Q) (All Q) (erase cmp k es) _ (erase-All Q k es qs)
            (λ r h. (qe, h)))
  ]

  -- The new entry takes its place, or its key was there.
  pub insert-IsSorted :
      (new : Entry) (es : List Entry)
      → P new.key
      → IsSorted cmp P es
      → Ends key_violation (IsSorted cmp P) (insert cmp new es)
  unfolding insert
  insert-IsSorted new [] pn s = (pn, tt, tt)
  insert-IsSorted new (e ∷ es) pn (pe, a, s) =
      let Least : Entry → Type 0 = λ x. cmp e.key x.key ≡ lt in
      elim (Ordering-cases (cmp new.key e.key)) [
        | inl c ↦ rw (c, Ends) (pn, (c, below c es a s), (pe, a, s))
        | inr (inl c) ↦ rw (c, Ends) refl
        | inr (inr c) ↦
            rw (c, Ends)
              (>>=-Ends key_violation (λ r. IsSorted cmp P r × All Least r) (IsSorted cmp P)
                (insert cmp new es) _
                (Ends-and key_violation (IsSorted cmp P) (All Least) (insert cmp new es)
                  (insert-IsSorted new es pn s)
                  (insert-All Least new es (o.lt_of_gt new.key e.key pn pe c) a))
                (λ r h. (pe, h.1, h.0)))
      ]
    where
      below :
          cmp new.key e.key ≡ lt
          → (xs : List Entry) → All (λ x. cmp e.key x.key ≡ lt) xs
          → IsSorted cmp P xs
          → All (λ x. cmp new.key x.key ≡ lt) xs
      below c [] a s = tt
      below c (x ∷ xs) a s = (o.lt_trans new.key e.key x.key pn pe s.0 c a.0, below c xs a.1 s.2)

  pub erase-IsSorted :
      (k : Bytes) (es : List Entry)
      → IsSorted cmp P es
      → Ends not_found (IsSorted cmp P) (erase cmp k es)
  unfolding erase
  erase-IsSorted k [] s = refl
  erase-IsSorted k (e ∷ es) (pe, a, s) =
      let Least : Entry → Type 0 = λ x. cmp e.key x.key ≡ lt in
      elim (Ordering-cases (cmp k e.key)) [
        | inl c ↦ rw (c, Ends) refl
        | inr (inl c) ↦ rw (c, Ends) s
        | inr (inr c) ↦
            rw (c, Ends)
              (>>=-Ends not_found (λ r. IsSorted cmp P r × All Least r) (IsSorted cmp P)
                (erase cmp k es) _
                (Ends-and not_found (IsSorted cmp P) (All Least) (erase cmp k es)
                  (erase-IsSorted k es s) (erase-All Least k es a))
                (λ r h. (pe, h.1, h.0)))
      ]
