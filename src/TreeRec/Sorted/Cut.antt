-- ===== src/TreeRec/Sorted/Cut.antt =====
-- The operations of the sorted list at a list that is cut at an entry.
use durodbms.Prelude.{eq, err, key_violation, lt, gt, ◌≡◌, refl, List, [], ◌∷◌, ◌++◌, All}
use durodbms.Prelude.{Result, ok, ◌>>=◌, Ordering-cases, inl, inr}
use durodbms.Prelude.{ap, sym, ◌∙◌, bind_ok, bind_ok_ok}
use durodbms.TreeRec.Bytes.{Bytes}
use durodbms.TreeRec.Tree.{Entry, Comparison}
use durodbms.TreeRec.Sorted.{lookup, insert, erase}

-- Every entry of the list is below the key.
abbrev pub Passes : Comparison → Bytes → List Entry → Type 0
Passes cmp k xs = All (λ x. cmp k x.key ≡ gt) xs

cons_append :
    (x : Entry) (ys : List Entry) (r : Result (List Entry))
    → r >>= (λ l. ok (l ++ ys)) >>= (λ l. ok (x ∷ l))
      ≡ r >>= (λ l. ok (x ∷ l)) >>= (λ l. ok (l ++ ys))
cons_append x ys r =
    bind_ok_ok r (λ l. l ++ ys) (λ l. x ∷ l) ∙ sym (bind_ok_ok r (λ l. x ∷ l) (λ l. l ++ ys))

module _ (cmp : Comparison) (k : Bytes) (e : Entry) (ys : List Entry) where
  -- Before an entry that is above the key, only the left part matters.
  pub lookup_below :
      (xs : List Entry) → cmp k e.key ≡ lt → lookup cmp k (xs ++ e ∷ ys) ≡ lookup cmp k xs
  unfolding lookup
  lookup_below [] h = rw h
  lookup_below (x ∷ xs) h = elim (Ordering-cases (cmp k x.key)) [
    | inl o ↦ rw (o, lookup)
    | inr (inl o) ↦ rw (o, lookup)
    | inr (inr o) ↦ rw (o, lookup) (lookup_below xs h)
  ]

  pub erase_below :
      (xs : List Entry)
      → cmp k e.key ≡ lt
      → erase cmp k (xs ++ e ∷ ys) ≡ erase cmp k xs >>= (λ l. ok (l ++ e ∷ ys))
  unfolding erase
  erase_below [] h = rw h
  erase_below (x ∷ xs) h = elim (Ordering-cases (cmp k x.key)) [
    | inl o ↦ rw (o, erase)
    | inr (inl o) ↦ rw (o, erase)
    | inr (inr o) ↦
        rw (o, erase)
          (ap (λ r. r >>= (λ l. ok (x ∷ l))) (erase_below xs h) ∙ cons_append x (e ∷ ys) _)
  ]

  -- Past entries that are below the key, only the rest matters.
  pub lookup_above :
      (xs : List Entry) → Passes cmp k xs → lookup cmp k (xs ++ e ∷ ys) ≡ lookup cmp k (e ∷ ys)
  unfolding lookup
  lookup_above [] h = refl
  lookup_above (x ∷ xs) h = rw (h.0, lookup) (lookup_above xs h.1)

  pub erase_above :
      (xs : List Entry)
      → Passes cmp k xs
      → erase cmp k (xs ++ e ∷ ys) ≡ erase cmp k (e ∷ ys) >>= (λ l. ok (xs ++ l))
  unfolding erase
  erase_above [] h = sym (bind_ok (erase cmp k (e ∷ ys)))
  erase_above (x ∷ xs) h =
      rw (h.0, erase)
        (ap (λ r. r >>= (λ l. ok (x ∷ l))) (erase_above xs h.1)
          ∙ bind_ok_ok (erase cmp k (e ∷ ys)) (λ l. xs ++ l) (λ l. x ∷ l))

module _ (cmp : Comparison) (new : Entry) (e : Entry) (ys : List Entry) where
  pub insert_below :
      (xs : List Entry)
      → cmp new.key e.key ≡ lt
      → insert cmp new (xs ++ e ∷ ys) ≡ insert cmp new xs >>= (λ l. ok (l ++ e ∷ ys))
  unfolding insert
  insert_below [] h = rw h
  insert_below (x ∷ xs) h = elim (Ordering-cases (cmp new.key x.key)) [
    | inl o ↦ rw (o, insert)
    | inr (inl o) ↦ rw (o, insert)
    | inr (inr o) ↦
        rw (o, insert)
          (ap (λ r. r >>= (λ l. ok (x ∷ l))) (insert_below xs h) ∙ cons_append x (e ∷ ys) _)
  ]

  pub insert_above :
      (xs : List Entry)
      → Passes cmp new.key xs
      → insert cmp new (xs ++ e ∷ ys) ≡ insert cmp new (e ∷ ys) >>= (λ l. ok (xs ++ l))
  unfolding insert
  insert_above [] h = sym (bind_ok (insert cmp new (e ∷ ys)))
  insert_above (x ∷ xs) h =
      rw (h.0, insert)
        (ap (λ r. r >>= (λ l. ok (x ∷ l))) (insert_above xs h.1)
          ∙ bind_ok_ok (insert cmp new (e ∷ ys)) (λ l. xs ++ l) (λ l. x ∷ l))

  pub insert_here :
      (xs : List Entry)
      → Passes cmp new.key xs
      → cmp new.key e.key ≡ eq
      → insert cmp new (xs ++ e ∷ ys) ≡ err key_violation
  unfolding insert
  insert_here xs h q = rw (insert_above xs h) (rw (q, insert))

  pub insert_beyond :
      (xs : List Entry)
      → Passes cmp new.key xs
      → cmp new.key e.key ≡ gt
      → insert cmp new (xs ++ e ∷ ys) ≡ insert cmp new ys >>= (λ l. ok (xs ++ e ∷ l))
  unfolding insert
  insert_beyond xs h q =
      rw (insert_above xs h)
        (rw (q, insert) (bind_ok_ok (insert cmp new ys) (λ l. e ∷ l) (λ l. xs ++ l)))

module _ (cmp : Comparison) (k : Bytes) (e : Entry) (ys : List Entry) where
  pub erase_here :
      (xs : List Entry)
      → Passes cmp k xs
      → cmp k e.key ≡ eq
      → erase cmp k (xs ++ e ∷ ys) ≡ ok (xs ++ ys)
  unfolding erase
  erase_here xs h q = rw (erase_above cmp k e ys xs h) (rw (q, erase))

  pub erase_beyond :
      (xs : List Entry)
      → Passes cmp k xs
      → cmp k e.key ≡ gt
      → erase cmp k (xs ++ e ∷ ys) ≡ erase cmp k ys >>= (λ l. ok (xs ++ e ∷ l))
  unfolding erase
  erase_beyond xs h q =
      rw (erase_above cmp k e ys xs h)
        (rw (q, erase) (bind_ok_ok (erase cmp k ys) (λ l. e ∷ l) (λ l. xs ++ l)))
