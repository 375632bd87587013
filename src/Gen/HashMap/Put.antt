-- ===== src/Gen/HashMap/Put.antt =====
-- `RDB_hashmap_put` of duro/gen/hashmap.c as a map update, and the change of an entry in place.
use durodbms.Gen.HashMap.{
  KvPair, ample, assign_entry, hashmap_get, hashmap_keys, hashmap_put, hashmap_size, kv, kv_hashing,
}
use durodbms.Gen.HashTable.{HashTable, Hashing, hashtable_get, hashtable_size, probe, slot}
use durodbms.Gen.HashTable.Filled.{IsFilled, home, stored_get, write_taken}
use durodbms.Gen.HashTable.Iterate.{iterate-listed}
use durodbms.Gen.HashTable.Probe.{IsHashing, get_from-probe, probe_congr}
use durodbms.Gen.HashTable.Table.{Array, IsValid, Puts, found, hashtable_put-Puts}
use durodbms.Gen.Strings.{
  Str, dup_str, hash_str, str_equal, str_equal_sound, str_equal_refl, str_equal_symm,
}
use durodbms.Prelude.{
  List, Option, Option-cases, ap, arith, if◌then◌else◌, inl, inr, length, length-map, map, none, ok,
  refl, set, some, sym, true, ℕ, ◌+◌, ◌<◌, ◌∙◌, ◌≡◌,
}
use durodbms.TreeRec.Cursor.{count}

module _ {ℓ} {E : Type ℓ} (key : E → Str) where
  -- Entries compared and hashed by a string.
  abbrev pub by_key : Hashing E
  by_key = record { hash = λ e. hash_str (key e); equal = λ a b. str_equal (key a) (key b) }

  pub by_key-IsHashing : IsHashing by_key
  by_key-IsHashing = record {
    equal_refl = λ a. str_equal_refl (key a);
    equal_symm = λ a b. str_equal_symm (key a) (key b);
    equal_trans = λ a b c p q. rw (str_equal_sound (key a) (key b) p) q;
    hash-equal = λ a b p. ap hash_str (str_equal_sound (key a) (key b) p);
  }

module _ {ℓ} {E : Type ℓ} (h : Hashing E) (l : IsHashing h) where
  probe_of_get :
      (n : ℕ) (c : ℕ) (xs : List (Option E)) (e old : E) (j : ℕ)
      → IsFilled h n c xs
      → slot xs j ≡ some old
      → h.equal old e ≡ true
      → probe h n xs n e (home h n e) ≡ some j
  probe_of_get n c xs e old j f is same =
      sym (probe_congr h l n xs n old e (home h n e) same)
      ∙ rw (← l.hash-equal old e same) (f.placed j old is)

  assigned :
      (o : Option (List (Option E))) (n c : ℕ) (e old : E)
      → 0 < n
      → Array h n c o
      → let s : HashTable E = record { entries = o; capacity = n; entry_count = c } in
        hashtable_get h s e ≡ some old
        → (t' : HashTable E) × (assign_entry h s e ≡ some (t', true)) × Puts h s e t'
  unfolding assign_entry hashtable_get found
  assigned none n c e old pos a there = absurd (ground arith)
  assigned (some xs) n c e old pos f there =
      let (j, is, same) = stored_get h l n pos xs old e there in
      let run : probe h n xs n e (home h n e) ≡ some j = probe_of_get n c xs e old j f is same in
      let w = write_taken h l n pos c xs e j old f run is in
      (
        record { entries = some (set xs j (some e)); capacity = n; entry_count = c },
        rw run,
        record {
          valid = record { roomy = pos; array = w.filled };
          reads = w.reads;
          counts = rw there refl;
        },
      )

  -- The change of an entry that is there.
  pub assign_entry-Puts :
      (t : HashTable E) (e old : E)
      → IsValid h t
      → hashtable_get h t e ≡ some old
      → (t' : HashTable E) × (assign_entry h t e ≡ some (t', true)) × Puts h t e t'
  assign_entry-Puts t e old v there =
      assigned t.entries t.capacity t.entry_count e old v.roomy v.array there

  get_equal :
      (o : Option (List (Option E))) (n c : ℕ) (q old : E)
      → 0 < n
      → Array h n c o
      → hashtable_get h (record { entries = o; capacity = n; entry_count = c }) q ≡ some old
      → h.equal old q ≡ true
  unfolding hashtable_get
  get_equal none n c q old pos a s = absurd (ground arith)
  get_equal (some xs) n c q old pos f s =
      let (j, is, same) = stored_get h l n pos xs old q s in same

  -- The entry that a search returns is equal to the one searched for.
  pub hashtable_get-equal :
      (t : HashTable E) (q old : E)
      → IsValid h t
      → hashtable_get h t q ≡ some old
      → h.equal old q ≡ true
  hashtable_get-equal t q old v there =
      get_equal t.entries t.capacity t.entry_count q old v.roomy v.array there

  -- A search reads of its argument no more than the test for equality does.
  pub hashtable_get_congr :
      (t : HashTable E) (p q : E) → h.equal p q ≡ true → hashtable_get h t p ≡ hashtable_get h t q
  unfolding hashtable_get
  hashtable_get_congr t p q same = elim (Option-cases t.entries) [
    | inl e ↦ rw e
    | inr (xs, e) ↦
        let n = t.capacity in
        rw (
          e,
          l.hash-equal p q same,
          get_from-probe h n xs n p (home h n q),
          get_from-probe h n xs n q (home h n q),
          probe_congr h l n xs n p q (home h n q) same,
        )
  ]

module _ {ℓ} {V : Type ℓ} where
  abbrev pub IsMap : HashTable (KvPair V) → Type ℓ
  IsMap t = IsValid kv_hashing t

  -- `t'` maps `key` to `valuep` and every other key as `t` does; its size counts a new key.
  pub record Maps (t : HashTable (KvPair V)) (key : Str) (valuep : Option V)
      (t' : HashTable (KvPair V)) : Type ℓ where
    pub valid : IsMap t'
    pub reads : (q : Str) → hashmap_get t' q ≡ (if str_equal key q then valuep else hashmap_get t q)
    pub sizes :
        hashmap_size t' + found (hashtable_get kv_hashing t (kv key none)) ≡ hashmap_size t + 1

  Puts-Maps :
      (t t' : HashTable (KvPair V)) (key : Str) (valuep : Option V)
      → Puts kv_hashing t (kv key valuep) t'
      → hashtable_get kv_hashing t (kv key valuep) ≡ hashtable_get kv_hashing t (kv key none)
      → Maps t key valuep t'
  unfolding hashmap_get hashmap_size hashtable_size
  Puts-Maps t t' key valuep p same = record {
    valid = p.valid;
    reads = λ q. ground (arith, p.reads (kv q none));
    sizes = rw (← same) p.counts;
  }

  kv_same :
      (t : HashTable (KvPair V)) (key : Str) (v w : Option V)
      → hashtable_get kv_hashing t (kv key v) ≡ hashtable_get kv_hashing t (kv key w)
  kv_same t key v w =
      hashtable_get_congr kv_hashing (by_key-IsHashing (λ e. e.key)) t (kv key v) (kv key w)
        (str_equal_refl key)

  overwritten :
      (t : HashTable (KvPair V)) (key : Str) (valuep : Option V) (old : KvPair V)
      → IsMap t
      → hashtable_get kv_hashing t (kv key none) ≡ some old
      → old.key ≡ key
      → (t' : HashTable (KvPair V)) × (assign_entry kv_hashing t (record old { valuep = valuep })
          ≡ some (t', true))
        × Maps t key valuep t'
  overwritten t key valuep old valid there same =
      let l = by_key-IsHashing (λ (e : KvPair V). e.key) in
      let (t', run, p) =
        assign_entry-Puts kv_hashing l t (kv key valuep) old valid
          (kv_same t key valuep none ∙ there) in
      (t', rw same run, Puts-Maps t t' key valuep p (kv_same t key valuep none))

  -- With memory at hand `RDB_hashmap_put` on a valid map ends and succeeds, and the new map is
  -- valid: it gives the value under the key put, what the old map gave under every other key, and
  -- is larger by one exactly if the key is new.
  pub hashmap_put-Maps :
      (t : HashTable (KvPair V)) (key : Str) (valuep : Option V)
      → IsMap t
      → (t' : HashTable (KvPair V)) × (hashmap_put ample t key valuep ≡ some (t', true))
        × Maps t key valuep t'
  unfolding hashmap_put dup_str
  hashmap_put-Maps t key valuep valid =
      let l = by_key-IsHashing (λ (e : KvPair V). e.key) in
      elim (Option-cases (hashtable_get kv_hashing t (kv key none))) [
        | inl absent ↦
            let (t', run, p) = hashtable_put-Puts kv_hashing l t (kv key valuep) valid in
            (
              t',
              rw (absent, hashmap_put) run,
              Puts-Maps t t' key valuep p (kv_same t key valuep none),
            )
        | inr (old, there) ↦
            let same =
              str_equal_sound old.key key
                (hashtable_get-equal kv_hashing l t (kv key none) old valid there) in
            rw (there, hashmap_put) (overwritten t key valuep old valid there same)
      ]

  -- `RDB_hashmap_keys` ends on a valid map and gives as many keys as the map has entries.
  pub hashmap_keys-size :
      (t : HashTable (KvPair V))
      → IsMap t
      → (ks : List Str) × (hashmap_keys t ≡ ok ks) × (length ks ≡ hashmap_size t)
  unfolding hashmap_keys hashmap_size hashtable_size
  hashmap_keys-size t valid =
      let l = by_key-IsHashing (λ (e : KvPair V). e.key) in
      let (es, run, count, among) =
        iterate-listed kv_hashing l t (t.entry_count + 1) valid (omega arith) in
      (map (λ e. e.key) es, rw (run, hashmap_keys), length-map (λ e. e.key) es ∙ count)
