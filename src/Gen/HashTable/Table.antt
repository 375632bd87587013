-- ===== src/Gen/HashTable/Table.antt =====
-- `RDB_hashtable_put` and `RDB_hashtable_get` of duro/gen/hashtable.c as a map, with the
-- invariant of a table.
use durodbms.Prelude.{
  ℕ, zero, suc, ◌+◌, ◌*◌, ◌/◌, ◌%◌, ◌<◌, ◌≤◌, ◌≡◌, refl, Option, none, some, arith,
}
use durodbms.Prelude.{
  true, false, List, [], ◌∷◌, set, replicate, leb, if◌then◌else◌, Bool-cases, Option-cases, inl,
  inr,
}
use native.Mathlib.Nat.{lt-mul-div-succ, mul-le-mul_left}
use durodbms.Prelude.{subst, length-replicate, get_or-replicate}
use durodbms.Gen.HashTable.{
  Hashing, HashTable, init_hashtable, slot, get_from, place, put_into, alloc_map, hashtable_put,
  hashtable_get, clear_hashtable,
}
use durodbms.Gen.HashTable.Probe.{IsHashing}
use durodbms.Gen.HashTable.Filled.{
  occupied, occupied-le, get, IsFilled, write_free, write_taken, probe_total,
}
use durodbms.Gen.HashTable.Rehash.{Each, Distinct-of, IsFilled-IsInjective, get-seek, copy_old_lem}

module _ {ℓ} {E : Type ℓ} where
  unfoldable pub found : Option E → ℕ
  found none = 0
  found (some x) = 1

module _ {ℓ} {E : Type ℓ} (h : Hashing E) where
  -- Without an array the table is empty; with one, it has a slot for each unit of capacity and
  -- every entry is found from its home slot.
  abbrev pub Array : ℕ → ℕ → Option (List (Option E)) → Type ℓ
  Array capacity count none = Unit {ℓ} × (count ≡ 0)
  Array capacity count (some xs) = IsFilled h capacity count xs

  pub record IsValid (t : HashTable E) : Type ℓ where
    pub roomy : 0 < t.capacity
    pub array : Array t.capacity t.entry_count t.entries

  -- The table `t'` reads `e` under the entries equal to it and what `t` reads elsewhere, and
  -- counts `e` if its key is new.
  pub record Puts (t : HashTable E) (e : E) (t' : HashTable E) : Type ℓ where
    pub valid : IsValid t'
    pub reads :
        (q : E) → hashtable_get h t' q ≡ (if h.equal e q then some e else hashtable_get h t q)
    pub counts : t'.entry_count + found (hashtable_get h t e) ≡ t.entry_count + 1

  pub init_hashtable-IsValid : (n : ℕ) → 0 < n → IsValid (init_hashtable n)
  unfolding init_hashtable
  init_hashtable-IsValid n pos = record { roomy = pos; array = (tt, refl) }

  pub clear_hashtable-IsValid : (t : HashTable E) → IsValid t → IsValid (clear_hashtable t)
  unfolding clear_hashtable
  clear_hashtable-IsValid t v = record { roomy = v.roomy; array = (tt, refl) }

module _ {ℓ} {E : Type ℓ} (h : Hashing E) (l : IsHashing h) where
  occupied-replicate : (n : ℕ) → occupied {E = E} (replicate n none) ≡ 0
  occupied-replicate zero = refl
  occupied-replicate (suc n) = occupied-replicate n

  -- An array of free slots.
  blank-IsFilled : (n : ℕ) → IsFilled h n 0 (replicate n none)
  blank-IsFilled n = record {
    width = length-replicate n none;
    counted = occupied-replicate n;
    placed = λ j x s. absurd (ground (arith, get_or-replicate {A = Option E} n j none, s));
  }

  blank-get : (n : ℕ) (q : E) → get h n (replicate n none) q ≡ none
  unfolding get_from
  blank-get zero q = refl
  blank-get (suc n) q =
      rw (get_or-replicate {A = Option E} (suc n) (h.hash q % suc n) none, get_from)

  blank_absent :
      (n : ℕ) (old : List (Option E)) → Each h l (λ x. get h n (replicate n none) x ≡ none) old
  blank_absent n [] = tt
  blank_absent n (none ∷ old) = blank_absent n old
  blank_absent n (some x ∷ old) = (blank-get n x, blank_absent n old)

  -- The write at the end of an insertion, into an array with a free slot.
  place-Puts :
      (t : HashTable E) (xs : List (Option E)) (e : E)
      → 0 < t.capacity
      → t.entry_count < t.capacity
      → IsFilled h t.capacity t.entry_count xs
      → (t' : HashTable E) × (place h t xs e ≡ some (t', true))
        × IsValid h t'
        × ((q : E) → hashtable_get h t' q ≡ (if h.equal e q then some e else get h t.capacity xs q))
        × (t'.entry_count + found (get h t.capacity xs e) ≡ t.entry_count + 1)
  unfolding place hashtable_get found
  place-Puts t xs e pos room f =
      let (j, run, s) = probe_total h l t.capacity pos t.entry_count xs e f room in
      elim (Option-cases (slot xs j)) [
        | inl free ↦
            let one : t.entry_count + 1 ≡ suc t.entry_count = omega arith in
            let w = write_free h l t.capacity pos t.entry_count xs e j f run free in
            (
              record {
                entries = some (set xs j (some e));
                capacity = t.capacity;
                entry_count = t.entry_count + 1;
              },
              rw run (rw free),
              record { roomy = pos; array = rw one w.filled },
              w.reads,
              rw (← s, free) (omega arith),
            )
        | inr (old, taken) ↦
            let w = write_taken h l t.capacity pos t.entry_count xs e j old f run taken in
            (
              record {
                entries = some (set xs j (some e));
                capacity = t.capacity;
                entry_count = t.entry_count;
              },
              rw run (rw taken),
              record { roomy = pos; array = w.filled },
              w.reads,
              rw (← s, taken) refl,
            )
      ]

  below_ratio : (count n : ℕ) → 0 < n → leb 10 (count * 16 / n) ≡ false → count < n
  below_ratio count n pos low =
      let q : count * 16 / n + 1 ≤ 10 = ground arith in
      omega (arith, lt-mul-div-succ (count * 16) pos, mul-le-mul_left n q)

  -- The insertion into an array that is there, with memory for a larger one.
  put_into-Puts :
      (t : HashTable E) (xs : List (Option E)) (e : E)
      → 0 < t.capacity
      → IsFilled h t.capacity t.entry_count xs
      → (t' : HashTable E) × (put_into h true t xs e ≡ some (t', true))
        × IsValid h t'
        × ((q : E) → hashtable_get h t' q ≡ (if h.equal e q then some e else get h t.capacity xs q))
        × (t'.entry_count + found (get h t.capacity xs e) ≡ t.entry_count + 1)
  unfolding put_into
  put_into-Puts t xs e pos f = elim (Bool-cases (leb 10 (t.entry_count * 16 / t.capacity))) [
    | inr low ↦
        let (t', run, valid, reads, counts) =
          place-Puts t xs e pos (below_ratio t.entry_count t.capacity pos low) f in
        (t', rw low run, valid, reads, counts)
    | inl high ↦
        let n = t.capacity * 2 in
        let wide : 0 < n = omega arith in
        let full : occupied xs ≤ t.capacity = rw f.width at (occupied-le xs) in
        let (ys, copied, filled, kept) =
          copy_old_lem h l n wide xs (replicate n none) 0 (blank-IsFilled n) (omega arith)
            (Distinct-of h l xs (IsFilled-IsInjective h l t.capacity pos t.entry_count xs f))
            (blank_absent n xs) in
        let same : 0 + occupied xs ≡ t.entry_count = omega (arith, f.counted) in
        let less : t.entry_count < n = omega (arith, f.counted) in
        let agrees : (q : E) → get h n ys q ≡ get h t.capacity xs q = λ q.
          ground (arith, kept q, blank-get n q, get-seek h l t.capacity pos t.entry_count xs q f) in
        let (t', run, valid, reads, counts) =
          place-Puts (record t { capacity = n }) ys e wide less (rw same at filled) in
        (
          t',
          rw high (rw copied run),
          valid,
          (λ q. rw (← agrees q) (reads q)),
          rw (← agrees e) counts,
        )
  ]

  -- With memory at hand an insertion into a valid table ends, succeeds and is that of a map.
  pub hashtable_put-Puts :
      (t : HashTable E) (e : E)
      → IsValid h t
      → (t' : HashTable E) × (hashtable_put h true true t e ≡ some (t', true)) × Puts h t e t'
  unfolding hashtable_put alloc_map hashtable_get found
  hashtable_put-Puts t e v = go t.entries t.capacity t.entry_count v.roomy v.array
    where
      go :
          (o : Option (List (Option E))) (n c : ℕ)
          → 0 < n
          → Array h n c o
          → let s : HashTable E = record { entries = o; capacity = n; entry_count = c } in
            (t' : HashTable E) × (hashtable_put h true true s e ≡ some (t', true)) × Puts h s e t'
      go (some xs) n c pos f =
          let s : HashTable E = record { entries = some xs; capacity = n; entry_count = c } in
          let (t', run, valid, reads, counts) = put_into-Puts s xs e pos f in
          (t', run, record { valid = valid; reads = reads; counts = counts })
      go none n c pos f =
          let s : HashTable E = record { entries = none; capacity = n; entry_count = c } in
          let (t', run, valid, reads, counts) =
            put_into-Puts s (replicate n none) e pos (rw f.1 (blank-IsFilled n)) in
          (
            t',
            run,
            record {
              valid = valid;
              reads = λ q. rw (← blank-get n q) (reads q);
              counts = subst (λ o. t'.entry_count + found o ≡ c + 1) (blank-get n e) counts;
            },
          )
