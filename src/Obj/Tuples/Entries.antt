-- ===== src/Obj/Tuples/Entries.antt =====
-- What the iterator of a tuple returns, in duro/obj/tuple.c.
use durodbms.Gen.HashMap.Put.{hashtable_get-equal}
use durodbms.Gen.HashTable.{HashTable, hashtable_get, hashtable_size}
use durodbms.Gen.HashTable.Iterate.{Among, iterate-listed}
use durodbms.Gen.HashTable.Table.{IsValid}
use durodbms.Gen.Strings.{Str, find_str, is_listed, str_equal, str_equal_refl, str_equal_sound}
use durodbms.Obj.Tuples.{TupleEntry, entry, entry_hashing, tuple_entries, tuple_get, tuple_object}
use durodbms.Obj.Tuples.Project.{is_listed_step}
use durodbms.Obj.Tuples.Put.{entry_same, keys-IsHashing}
use durodbms.Prelude.{
  Bool-cases, List, Option-cases, [], arith, false, get_elem?, inl, inr, map, none, refl, some,
  subst, suc, sym, true, zero, ℕ, ◌+◌, ◌∙◌, ◌∷◌, ◌≡◌,
}

module _ {ℓ} {V : Type ℓ} where
  abbrev pub names_of : List (TupleEntry V) → List Str
  names_of es = map (λ e. e.key) es

  is_listed-among :
      (es : List (TupleEntry V)) (i : ℕ) (e : TupleEntry V)
      → get_elem? es i ≡ some e
      → is_listed (names_of es) e.key ≡ true
  is_listed-among [] i e at = absurd (ground (arith, at))
  is_listed-among (x ∷ es) zero e at =
      ground (arith, at, is_listed_step x.key (names_of es) e.key, str_equal_refl e.key)
  is_listed-among (x ∷ es) (suc i) e at =
      ground (arith, is_listed-among es i e at, is_listed_step x.key (names_of es) e.key)

module _ {ℓ} {V : Type ℓ} (initial_value : V) where
  -- Each entry listed is what the tuple has under its name.
  abbrev pub AreEntries : HashTable (TupleEntry V) → List (TupleEntry V) → Type ℓ
  AreEntries t es =
      (i : ℕ) (e : TupleEntry V)
      → get_elem? es i ≡ some e
      → tuple_get initial_value (tuple_object t) e.key ≡ some e.obj

  -- The names of the entries are those that the tuple has.
  abbrev pub AreAll : HashTable (TupleEntry V) → List (TupleEntry V) → Type ℓ
  AreAll t es =
      (q : Str)
      → is_listed (names_of es) q ≡ false
      → tuple_get initial_value (tuple_object t) q ≡ none

  -- What the iterator returns is what the tuple has.
  get_entry :
      (t : HashTable (TupleEntry V)) (e : TupleEntry V)
      → hashtable_get entry_hashing t e ≡ some e
      → tuple_get initial_value (tuple_object t) e.key ≡ some e.obj
  unfolding tuple_get
  get_entry t e there =
      let same : hashtable_get entry_hashing t (entry e.key initial_value) ≡ some e =
        entry_same t e.key initial_value e.obj ∙ there in
      rw same refl

  get_unlisted :
      (t : HashTable (TupleEntry V)) (es : List (TupleEntry V)) (q : Str)
      → IsValid entry_hashing t
      → ((e : TupleEntry V) → hashtable_get entry_hashing t e ≡ some e → Among e es)
      → is_listed (names_of es) q ≡ false
      → tuple_get initial_value (tuple_object t) q ≡ none
  unfolding tuple_get
  get_unlisted t es q valid all absent =
      elim (Option-cases (hashtable_get entry_hashing t (entry q initial_value))) [
        | inl e ↦ rw e refl
        | inr (old, there) ↦
            let same : old.key ≡ q = str_equal_sound old.key q (
              hashtable_get-equal entry_hashing keys-IsHashing t (entry q initial_value) old valid
                there) in
            let self : hashtable_get entry_hashing t old ≡ some old =
              entry_same t old.key old.obj initial_value
              ∙ subst (λ n. hashtable_get entry_hashing t (entry n initial_value) ≡ some old)
                  (sym same) there in
            let (i, at) = all old self in
            let listed_q : is_listed (names_of es) q ≡ true =
              rw (← same) (is_listed-among es i old at) in
            absurd (cc (listed_q, absent))
      ]

  pub tuple_entries_lem :
      (t : HashTable (TupleEntry V))
      → IsValid entry_hashing t
      → (es : List (TupleEntry V)) × (tuple_entries t ≡ some es) × AreEntries t es × AreAll t es
  unfolding tuple_entries tuple_get hashtable_size
  tuple_entries_lem t valid =
      let (es, run, size, all) =
        iterate-listed entry_hashing keys-IsHashing t (t.entry_count + 1) valid (omega arith) in
      (
        es,
        rw (run, tuple_entries) refl,
        (λ i e at. get_entry t e ((all e).0 (i, at))),
        λ q absent. get_unlisted t es q valid (λ e there. (all e).1 there) absent,
      )

  pub listed_present :
      (t : HashTable (TupleEntry V)) (es : List (TupleEntry V)) (q : Str)
      → AreEntries t es
      → is_listed (names_of es) q ≡ true
      → (v : V) × (tuple_get initial_value (tuple_object t) q ≡ some v)
  unfolding find_str
  listed_present t [] q entries h = absurd (ground (arith, h))
  listed_present t (e ∷ es) q entries h = elim (Bool-cases (str_equal e.key q)) [
    | inl same ↦ (e.obj, rw (← str_equal_sound e.key q same) (entries 0 e refl))
    | inr d ↦
        listed_present t es q (λ i x at. entries (suc i) x at)
          (ground (arith, h, d, is_listed_step e.key (names_of es) q))
  ]
