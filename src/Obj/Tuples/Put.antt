-- ===== src/Obj/Tuples/Put.antt =====
-- `RDB_tuple_set` of duro/obj/tuple.c as a map update, where there is memory.
use durodbms.Gen.HashMap.{ample}
use durodbms.Gen.HashMap.Put.{assign_entry-Puts, by_key-IsHashing, hashtable_get_congr}
use durodbms.Gen.HashTable.{HashTable, hashtable_get, init_hashtable}
use durodbms.Gen.HashTable.Probe.{IsHashing}
use durodbms.Gen.HashTable.Table.{IsValid, hashtable_put-Puts, init_hashtable-IsValid}
use durodbms.Gen.Strings.{Str, dup_str, str_equal, str_equal_refl}
use durodbms.Obj.Tuples.{
  Object, TupleEntry, copied, entry, entry_hashing, init_tuple, initial, other, provide_entry,
  tuple_get, tuple_object, tuple_set, tuple_table, write_provided, write_value,
}
use durodbms.Prelude.{
  Bool-cases, Option, Option-cases, Result, arith, false, if◌then◌else◌, inl, inr, refl, some, true,
  ◌∙◌, ◌≡◌,
}

module _ {ℓ} {V : Type ℓ} where
  pub keys-IsHashing : IsHashing (entry_hashing {V = V})
  keys-IsHashing = by_key-IsHashing (λ e. e.key)

  -- An object that can be filled: its table, if there is one, is valid.
  abbrev pub IsTuple : Object V → Type ℓ
  IsTuple initial = Unit {ℓ}
  IsTuple (tuple_object t) = IsValid entry_hashing t
  IsTuple other = Unit {ℓ} × ⊥

  pub entry_same :
      (t : HashTable (TupleEntry V)) (n : Str) (v w : V)
      → hashtable_get entry_hashing t (entry n v) ≡ hashtable_get entry_hashing t (entry n w)
  entry_same t n v w =
      hashtable_get_congr entry_hashing keys-IsHashing t (entry n v) (entry n w) (str_equal_refl n)

module _ {ℓ} {V : Type ℓ} (initial_value : V) where
  -- `o'` has the value under the name, and under every other name what `o` has.
  pub record Sets (o : Object V) (attrname : Str) (v : V) (o' : Object V) : Type ℓ where
    pub valid : IsTuple o'
    pub reads :
        (q : Str)
        → tuple_get initial_value o' q
          ≡ (if str_equal attrname q then some v else tuple_get initial_value o q)

  tuple_table-IsTuple :
      (o : Object V)
      → IsTuple o
      → (t : HashTable (TupleEntry V)) × (tuple_table o ≡ some t)
        × IsValid entry_hashing t
        × ((q : Str) → tuple_get initial_value o q ≡ tuple_get initial_value (tuple_object t) q)
  unfolding tuple_table init_tuple tuple_get hashtable_get init_hashtable
  tuple_table-IsTuple initial v =
      (init_tuple, refl, init_hashtable-IsValid entry_hashing 31 (omega arith), λ q. refl)
  tuple_table-IsTuple (tuple_object t) v = (t, refl, v, λ q. refl)
  tuple_table-IsTuple other v = absurd v.1

  -- The table has an entry under the name then, and reads other names as before.
  provide_entry-found :
      (t : HashTable (TupleEntry V)) (n : Str)
      → IsValid entry_hashing t
      → (t' : HashTable (TupleEntry V)) × (provide_entry initial_value ample t n ≡ some (t', true))
        × IsValid entry_hashing t'
        × ((old : TupleEntry V) × (hashtable_get entry_hashing t' (entry n initial_value)
              ≡ some old))
        × ((q : Str)
            → str_equal n q ≡ false
            → tuple_get initial_value (tuple_object t') q
              ≡ tuple_get initial_value (tuple_object t) q)
  unfolding provide_entry dup_str tuple_get
  provide_entry-found t n valid =
      let e = entry n initial_value in
      elim (Option-cases (hashtable_get entry_hashing t e)) [
        | inr (old, there) ↦ (t, rw (there, provide_entry) refl, valid, (old, there), λ q d. refl)
        | inl absent ↦
            let (t', run, p) = hashtable_put-Puts entry_hashing keys-IsHashing t e valid in
            (
              t',
              rw (absent, provide_entry) run,
              p.valid,
              (e, ground (arith, p.reads e, str_equal_refl n)),
              λ q d. ground (arith, p.reads (entry q initial_value), d),
            )
      ]

  write_value-Sets :
      (t : HashTable (TupleEntry V)) (n : Str) (v : V) (old : TupleEntry V)
      → IsValid entry_hashing t
      → hashtable_get entry_hashing t (entry n initial_value) ≡ some old
      → (t' : HashTable (TupleEntry V)) × (write_value t n v ≡ some t')
        × Sets (tuple_object t) n v (tuple_object t')
  unfolding write_value tuple_get
  write_value-Sets t n v old valid there =
      let (t', run, p) =
        assign_entry-Puts entry_hashing keys-IsHashing t (entry n v) old valid
          (entry_same t n v initial_value ∙ there) in
      (
        t',
        rw run refl,
        record { valid = p.valid; reads = λ q. ground (arith, p.reads (entry q initial_value)) },
      )

  module _ (copy : V → Result V) where
    -- With memory at hand `RDB_tuple_set` ends on an object that is initial or a valid tuple: the
    -- attribute gets the copy of the value, or an initial object where no value is given or the
    -- copy fails, and every other attribute is kept. The error is that of the copy.
    pub tuple_set-Sets :
        (o : Object V) (n : Str) (objp : Option V)
        → IsTuple o
        → (o' : Object V) × (tuple_set initial_value copy ample o n objp
            ≡ some (o', (copied initial_value copy objp).1))
          × Sets o n (copied initial_value copy objp).0 o'
    unfolding tuple_set write_provided
    tuple_set-Sets o n objp valid =
        let v = (copied initial_value copy objp).0 in
        let (t, made, sound, same) = tuple_table-IsTuple o valid in
        let (u, provided, sound_u, (old, there), kept) = provide_entry-found t n sound in
        let (w, written, s) = write_value-Sets u n v old sound_u there in
        (
          tuple_object w,
          rw (made, provided, written) refl,
          record {
            valid = s.valid;
            reads = λ q. elim (Bool-cases (str_equal n q)) [
              | inl e ↦ ground (arith, s.reads q, e)
              | inr d ↦ ground (arith, s.reads q, d, kept q d, same q)
            ];
          },
        )
