-- ===== src/TreeRec/Sorted/Lookup.antt =====
-- What an insertion or a deletion does to the lookups in the sorted list.
use durodbms.Prelude.{eq, gt, ◌≡◌, refl, List, [], ◌∷◌, none, some}
use durodbms.Prelude.{key_violation, not_found, Ordering-cases, inl, inr, arith}
use durodbms.Prelude.{◌≢◌, Ends, >>=-Ends}
use durodbms.TreeRec.Bytes.{Bytes}
use durodbms.TreeRec.Tree.{Entry, Comparison}
use durodbms.TreeRec.Sorted.{IsOrderOn, IsSorted, lookup, insert, erase}
use durodbms.Prelude.{err, ok}

module _ {P : Bytes → Type 0} {cmp : Comparison} (o : IsOrderOn P cmp) where
  -- A key that is equal to an entry's or below it is not found behind that entry.
  lookup_behind :
      (k : Bytes) (e : Entry) (es : List Entry)
      → P k
      → IsSorted cmp P (e ∷ es)
      → cmp k e.key ≢ gt
      → lookup cmp k es ≡ none
  unfolding lookup
  lookup_behind k e [] pk s h = refl
  lookup_behind k e (x ∷ xs) pk (pe, a, (px, below, s)) h = ground (
    arith,
    a.0,
    o.lt_trans k e.key x.key pk pe px,
    o.eq_symm k e.key pk pe,
    o.gt_of_lt e.key x.key pe px,
    o.lt_of_gt k x.key pk px,
    o.lt_trans x.key k e.key px pk pe,
    o.lt_of_lt_eq x.key k e.key px pk pe,
    o.lt_of_lt_eq e.key x.key k pe px pk,
    o.eq_symm k x.key pk px,
    o.gt_of_lt x.key e.key px pe,
    o.gt_of_lt e.key k pe pk,
  )

  lookup-insert_step :
      (new e : Entry) (es rest : List Entry) (k : Bytes)
      → P new.key
      → P e.key
      → P k
      → cmp new.key e.key ≡ gt
      → lookup cmp k rest ≡ (elim (cmp k new.key) [ eq ↦ some new | _ ↦ lookup cmp k es ])
      → lookup cmp k (e ∷ rest)
        ≡ (elim (cmp k new.key) [ eq ↦ some new | _ ↦ lookup cmp k (e ∷ es) ])
  unfolding lookup
  lookup-insert_step new e es rest k pn pe pk c ih = ground (
    arith,
    o.lt_of_gt new.key e.key pn pe,
    o.lt_trans k e.key new.key pk pe pn,
    o.lt_of_lt_eq e.key new.key k pe pn pk,
    o.eq_symm k new.key pk pn,
    o.eq_symm k e.key pk pe,
    o.lt_of_gt k new.key pk pn,
    o.lt_of_lt_eq new.key k e.key pn pk pe,
  )

  -- After an insertion the map reads the new entry at its key and is unchanged elsewhere.
  pub lookup-insert :
      (new : Entry) (es : List Entry) (k : Bytes)
      → P new.key
      → P k
      → IsSorted cmp P es
      → Ends key_violation
          (λ r. lookup cmp k r ≡ elim (cmp k new.key) [ eq ↦ some new | _ ↦ lookup cmp k es ])
          (insert cmp new es)
  unfolding lookup insert
  lookup-insert new [] k pn pk s = ground arith
  lookup-insert new (e ∷ es) k pn pk (pe, a, s) = elim (Ordering-cases (cmp new.key e.key)) [
    | inl c ↦ rw (c, Ends) (ground (arith, o.lt_trans k new.key e.key pk pn pe))
    | inr (inl c) ↦ rw (c, Ends) refl
    | inr (inr c) ↦
        rw (c, Ends)
          (>>=-Ends key_violation _ _ (insert cmp new es) _ (lookup-insert new es k pn pk s)
            (λ r h. lookup-insert_step new e es r k pn pe pk c h))
  ]

  lookup-erase_step :
      (q : Bytes) (e : Entry) (es rest : List Entry) (k : Bytes)
      → P q
      → P e.key
      → P k
      → cmp q e.key ≡ gt
      → lookup cmp k rest ≡ (elim (cmp k q) [ eq ↦ none | _ ↦ lookup cmp k es ])
      → lookup cmp k (e ∷ rest) ≡ (elim (cmp k q) [ eq ↦ none | _ ↦ lookup cmp k (e ∷ es) ])
  unfolding lookup
  lookup-erase_step q e es rest k pq pe pk c ih = ground (
    arith,
    o.lt_of_gt q e.key pq pe,
    o.lt_trans k e.key q pk pe pq,
    o.lt_of_lt_eq e.key q k pe pq pk,
    o.eq_symm k q pk pq,
    o.eq_symm k e.key pk pe,
    o.lt_of_gt k q pk pq,
    o.lt_of_lt_eq q k e.key pq pk pe,
  )

  -- After a deletion the key is gone and the map is unchanged elsewhere.
  pub lookup-erase :
      (q : Bytes) (es : List Entry) (k : Bytes)
      → P q
      → P k
      → IsSorted cmp P es
      → Ends not_found
          (λ r. lookup cmp k r ≡ elim (cmp k q) [ eq ↦ none | _ ↦ lookup cmp k es ])
          (erase cmp q es)
  unfolding lookup erase
  lookup-erase q [] k pq pk s = refl
  lookup-erase q (e ∷ es) k pq pk (pe, a, s) = elim (Ordering-cases (cmp q e.key)) [
    | inl c ↦ rw (c, Ends) refl
    | inr (inl c) ↦
        rw (c, Ends)
          (ground (
            arith,
            lookup_behind k e es pk (pe, a, s),
            o.lt_of_lt_eq k q e.key pk pq pe,
            o.lt_of_lt_eq k e.key q pk pe pq,
            o.eq_symm q e.key pq pe,
            o.eq_symm k q pk pq,
            o.lt_of_gt k e.key pk pe,
            o.lt_of_gt k q pk pq,
            o.lt_of_lt_eq e.key k q pe pk pq,
            o.lt_of_lt_eq q k e.key pq pk pe,
            o.cmp_refl q pq,
          ))
    | inr (inr c) ↦
        rw (c, Ends)
          (>>=-Ends not_found _ _ (erase cmp q es) _ (lookup-erase q es k pq pk s)
            (λ r h. lookup-erase_step q e es r k pq pe pk c h))
  ]

  -- An insertion fails exactly where the key is found.
  pub insert_absent :
      (new : Entry) (es : List Entry)
      → P new.key
      → IsSorted cmp P es
      → lookup cmp new.key es ≡ none
      → (r : List Entry) × (insert cmp new es ≡ ok r)
  unfolding lookup insert
  insert_absent new [] pn s h = (_, refl)
  insert_absent new (e ∷ es) pn (pe, a, s) h = elim (Ordering-cases (cmp new.key e.key)) [
    | inl c ↦ (new ∷ e ∷ es, rw (c, insert))
    | inr (inl c) ↦ absurd (ground arith)
    | inr (inr c) ↦
        let (r, run) = insert_absent new es pn s (ground arith) in (e ∷ r, rw (c, insert) (rw run))
  ]

  pub insert_present :
      (new old : Entry) (es : List Entry)
      → lookup cmp new.key es ≡ some old
      → insert cmp new es ≡ err key_violation
  unfolding lookup insert
  insert_present new old [] h = cc
  insert_present new old (e ∷ es) h = ground (arith, insert_present new old es)

  -- A deletion fails exactly where the key is not found.
  pub erase_present :
      (k : Bytes) (old : Entry) (es : List Entry)
      → lookup cmp k es ≡ some old
      → (r : List Entry) × (erase cmp k es ≡ ok r)
  unfolding lookup erase
  erase_present k old [] h = cc
  erase_present k old (e ∷ es) h = elim (Ordering-cases (cmp k e.key)) [
    | inl c ↦ absurd (ground arith)
    | inr (inl c) ↦ (es, rw (c, erase))
    | inr (inr c) ↦
        let (r, run) = erase_present k old es (ground arith) in (e ∷ r, rw (c, erase) (rw run))
  ]

  pub erase_absent :
      (k : Bytes) (es : List Entry) → lookup cmp k es ≡ none → erase cmp k es ≡ err not_found
  unfolding lookup erase
  erase_absent k [] h = refl
  erase_absent k (e ∷ es) h = ground (arith, erase_absent k es)
