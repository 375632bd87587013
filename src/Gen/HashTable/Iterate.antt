-- ===== src/Gen/HashTable/Iterate.antt =====
-- The iterator of duro/gen/hashtabit.c, and what a failed rehash leaves behind.
use durodbms.Prelude.{
  ℕ, zero, suc, ◌+◌, ◌*◌, ◌/◌, ◌<◌, ◌≤◌, ◌≡◌, refl, sym, ap, ◌∙◌, Option, none, some, arith,
}
use durodbms.Prelude.{
  true, false, List, [], ◌∷◌, length, get_elem?, drop, ok, err, null_pointer, ◌⊎◌, inl, inr, ◌↔◌,
  ◌==◌, Bool-cases,
}
use native.Mathlib.Numerals.{add-one}
use native.Mathlib.Nat.{zero-div}
use durodbms.Gen.HashTable.{
  Hashing, HashTable, slot, put_into, alloc_map, hashtable_put, hashtable_get, scan, hashtable_next,
  iterate,
}
use durodbms.Gen.HashTable.Probe.{IsHashing}
use durodbms.Gen.HashTable.Filled.{occupied, get_stored, stored_get}
use durodbms.Gen.HashTable.Table.{IsValid, Array}

module _ {ℓ} {E : Type ℓ} where
  -- The entries of an array, in the order of the slots.
  abbrev pub taken : List (Option E) → List E
  taken [] = []
  taken (none ∷ xs) = taken xs
  taken (some e ∷ xs) = e ∷ taken xs

  abbrev pub listed : HashTable E → List E
  listed t = elim t.entries [ none ↦ [] | some xs ↦ taken xs ]

  abbrev pub Among : E → List E → Type ℓ
  Among e xs = (i : ℕ) × (get_elem? xs i ≡ some e)

  length-taken : (xs : List (Option E)) → length (taken xs) ≡ occupied xs
  length-taken [] = refl
  length-taken (none ∷ xs) = length-taken xs
  length-taken (some e ∷ xs) = ap suc (length-taken xs)

  taken-slot : (xs : List (Option E)) (e : E) → Among e (taken xs) → (j : ℕ) × (slot xs j ≡ some e)
  taken-slot [] e (i, s) = absurd (ground arith)
  taken-slot (none ∷ xs) e (i, s) = let (j, t) = taken-slot xs e (i, s) in (suc j, t)
  taken-slot (some x ∷ xs) e (zero, s) = (0, s)
  taken-slot (some x ∷ xs) e (suc i, s) = let (j, t) = taken-slot xs e (i, s) in (suc j, t)

  slot-taken : (xs : List (Option E)) (e : E) (j : ℕ) → slot xs j ≡ some e → Among e (taken xs)
  slot-taken [] e j s = absurd (ground arith)
  slot-taken (none ∷ xs) e zero s = absurd (ground arith)
  slot-taken (none ∷ xs) e (suc j) s = slot-taken xs e j s
  slot-taken (some x ∷ xs) e zero s = (0, s)
  slot-taken (some x ∷ xs) e (suc j) s = let (i, t) = slot-taken xs e j s in (suc i, t)

  drop_next :
      (pos : ℕ) (xs ys : List (Option E)) (o : Option E)
      → drop pos xs ≡ o ∷ ys
      → drop (pos + 1) xs ≡ ys
  drop_next pos xs ys o h = rw add-one (go pos xs h)
    where
      go : (pos : ℕ) (xs : List (Option E)) → drop pos xs ≡ o ∷ ys → drop (suc pos) xs ≡ ys
      go zero [] h = absurd (ground arith)
      go zero (x ∷ xs) h = ground arith
      go (suc pos) [] h = absurd (ground arith)
      go (suc pos) (x ∷ xs) h = go pos xs h

  -- One scan over the slots from `pos` on.
  scan_lem :
      (xs ys : List (Option E)) (pos : ℕ)
      → drop pos xs ≡ ys
      → ((p : ℕ) × (taken ys ≡ []) × (scan ys pos ≡ (none, p)))
        ⊎ ((e : E) × (p : ℕ) × (scan ys pos ≡ (some e, p)) × (taken ys ≡ e ∷ taken (drop p xs)))
  unfolding scan
  scan_lem xs [] pos h = inl (pos, refl, refl)
  scan_lem xs (none ∷ ys) pos h = scan_lem xs ys (pos + 1) (drop_next pos xs ys none h)
  scan_lem xs (some e ∷ ys) pos h =
      inr (e, pos + 1, refl, ap (λ l. e ∷ taken l) (sym (drop_next pos xs ys (some e) h)))

  iterate_lem :
      (rounds : ℕ) (t : HashTable E) (xs : List (Option E)) (pos : ℕ)
      → t.entries ≡ some xs
      → (t.entry_count == 0) ≡ false
      → length (taken (drop pos xs)) < rounds
      → iterate rounds t pos ≡ ok (taken (drop pos xs))
  unfolding iterate hashtable_next
  iterate_lem zero t xs pos there some_left enough = absurd (omega arith)
  iterate_lem (suc rounds) t xs pos there some_left enough =
      elim (scan_lem xs (drop pos xs) pos refl) [
        | inl (p, done, run) ↦ rw (there, iterate, hashtable_next) (rw some_left (rw run (rw done)))
        | inr (e, p, run, rest) ↦
            let fewer : length (taken (drop p xs)) < rounds = omega (arith, ap length rest) in
            rw (there, iterate, hashtable_next)
              (rw some_left
                (rw run (rw (iterate_lem rounds t xs p there some_left fewer) (rw rest))))
      ]

  iterate_empty :
      (rounds : ℕ) (t : HashTable E) (pos : ℕ) → t.entry_count ≡ 0 → iterate rounds t pos ≡ ok []
  unfolding iterate hashtable_next
  iterate_empty zero t pos none_left = refl
  iterate_empty (suc rounds) t pos none_left = rw (none_left, iterate, hashtable_next)

  empty_of_length : (es : List E) → length es ≡ 0 → es ≡ []
  empty_of_length [] h = refl
  empty_of_length (e ∷ es) h = absurd (omega arith)

module _ {ℓ} {E : Type ℓ} (h : Hashing E) (l : IsHashing h) where
  -- Iterating over a valid table from the start ends after one round more than it has entries. It
  -- returns as many entries as the table counts, and exactly those that a search finds.
  pub iterate-listed :
      (t : HashTable E) (rounds : ℕ)
      → IsValid h t
      → t.entry_count < rounds
      → (es : List E) × (iterate rounds t 0 ≡ ok es)
        × (length es ≡ t.entry_count)
        × ((e : E) → Among e es ↔ (hashtable_get h t e ≡ some e))
  unfolding hashtable_get
  iterate-listed t rounds v more = go t.entries t.capacity t.entry_count v.roomy v.array more
    where
      go :
          (o : Option (List (Option E))) (n c : ℕ)
          → 0 < n
          → Array h n c o
          → c < rounds
          → let s : HashTable E = record { entries = o; capacity = n; entry_count = c } in
            (es : List E) × (iterate rounds s 0 ≡ ok es)
            × (length es ≡ c)
            × ((e : E) → Among e es ↔ (hashtable_get h s e ≡ some e))
      go none n c pos a more = (
        [],
        iterate_empty rounds _ 0 a.1,
        sym a.1,
        (λ e. ((λ among. absurd (ground (arith, among.1))), (λ found. absurd (ground arith)))),
      )
      go (some xs) n c pos f more =
          let counted = length-taken xs ∙ f.counted in
          (
            taken xs,
            elim (Bool-cases (c == 0)) [
              | inl zero_left ↦
                  let none_left : c ≡ 0 = ground arith in
                  iterate_empty rounds _ 0 none_left
                  ∙ ap ok (sym (empty_of_length (taken xs) (counted ∙ none_left)))
              | inr some_left ↦ iterate_lem rounds _ xs 0 refl some_left (rw counted more)
            ],
            counted,
            (λ e. (
              (λ among.
                  let (j, s) = taken-slot xs e among in
                  get_stored h l n pos c xs j e e f s (l.equal_refl e)),
              (λ found. let (j, s, _) = stored_get h l n pos xs e e found in slot-taken xs e j s),
            )),
          )

  null_read :
      (c n : ℕ)
      → 10 ≤ c * 16 / n
      → let s : HashTable E = record { entries = none; capacity = n * 2; entry_count = c } in
        hashtable_next s 0 ≡ err null_pointer
  unfolding hashtable_next
  null_read zero n full = absurd (omega (arith, zero-div n))
  null_read (suc c) n full = ground arith

  -- When a rehash finds no memory, the call reports it, the table has lost every entry while its
  -- count stays, and iterating over it reads through a null pointer.
  pub failed_rehash_loses :
      (t : HashTable E) (xs : List (Option E)) (e : E)
      → t.entries ≡ some xs
      → 10 ≤ t.entry_count * 16 / t.capacity
      → (t' : HashTable E) × (hashtable_put h true false t e ≡ some (t', false))
        × (t'.entry_count ≡ t.entry_count)
        × ((q : E) → hashtable_get h t' q ≡ none)
        × (hashtable_next t' 0 ≡ err null_pointer)
  unfolding hashtable_put alloc_map put_into hashtable_get hashtable_next
  failed_rehash_loses t xs e there full = (
    record { entries = none; capacity = t.capacity * 2; entry_count = t.entry_count },
    rw (there, hashtable_put, alloc_map) (ground arith),
    refl,
    (λ q. refl),
    null_read t.entry_count t.capacity full,
  )
