-- ===== src/Obj/Tuples/Copy.antt =====
-- `RDB_copy_tuple` of duro/obj/tuple.c: the values under each name.
use durodbms.Gen.HashMap.{ample}
use durodbms.Gen.HashTable.{HashTable}
use durodbms.Gen.Strings.{Str, find_str, is_listed}
use durodbms.Obj.Tuples.{
  Object, TupleEntry, copied, copy_entries, copy_tuple, tuple_get, tuple_object,
}
use durodbms.Obj.Tuples.Entries.{AreEntries, listed_present, names_of, tuple_entries_lem}
use durodbms.Obj.Tuples.Project.{Overlays, overlay_step, stored}
use durodbms.Obj.Tuples.Put.{IsTuple, tuple_set-Sets}
use durodbms.Prelude.{
  Bool-cases, List, Result, [], arith, inl, inr, none, ok, refl, some, suc, ◌∷◌, ◌≡◌,
}

module _ {ℓ} {V : Type ℓ} (initial_value : V) (copy : V → Result V) where
  -- A copy that succeeds reports no error.
  copied_fine : (v : V) → (w : V) × (copy v ≡ ok w) → (copied initial_value copy (some v)).1 ≡ none
  copied_fine v (w, fine) = rw (fine, copied) refl

  copy_entries_lem :
      (t : HashTable (TupleEntry V)) (es : List (TupleEntry V)) (dst : Object V)
      → ((v : V) → (w : V) × (copy v ≡ ok w))
      → AreEntries initial_value t es
      → IsTuple dst
      → (r : Object V) × (copy_entries initial_value copy (λ i. ample) (λ n. n) es dst
          ≡ some (r, none))
        × IsTuple r
        × Overlays initial_value copy t (names_of es) dst r
  unfolding copy_entries find_str
  copy_entries_lem t [] dst fine entries valid = (dst, refl, valid, λ q. refl)
  copy_entries_lem t (e ∷ es) dst fine entries valid =
      let there = entries 0 e refl in
      let (o, set, s) = tuple_set-Sets initial_value copy dst e.key (some e.obj) valid in
      let (r, run, valid_r, reads) =
        copy_entries_lem t es o fine (λ i x at. entries (suc i) x at) s.valid in
      (
        r,
        rw (set, copy_entries, copied_fine e.obj (fine e.obj)) run,
        valid_r,
        overlay_step initial_value copy t e.key (names_of es) e.obj dst o r there s reads,
      )

  -- With memory at hand, and where each copy of a value succeeds, `RDB_copy_tuple` of a valid
  -- tuple ends and succeeds: the destination has the copies of all attributes of the source, and
  -- keeps the others that it had.
  pub copy_tuple-Copies :
      (t : HashTable (TupleEntry V)) (dst : Object V)
      → ((v : V) → (w : V) × (copy v ≡ ok w))
      → IsTuple (tuple_object t)
      → IsTuple dst
      → (r : Object V) × (copy_tuple initial_value copy (λ i. ample) dst (tuple_object t)
          ≡ some (r, none))
        × IsTuple r
        × ((q : Str)
            → tuple_get initial_value r q ≡ elim (tuple_get initial_value (tuple_object t) q) [
              | none ↦ tuple_get initial_value dst q
              | some v ↦ stored initial_value copy (some v)
            ])
  unfolding copy_tuple
  copy_tuple-Copies t dst fine valid valid_dst =
      let (es, run, entries, all) = tuple_entries_lem initial_value t valid in
      let (r, copies, valid_r, reads) = copy_entries_lem t es dst fine entries valid_dst in
      (
        r,
        rw (run, copies) refl,
        valid_r,
        λ q. elim (Bool-cases (is_listed (names_of es) q)) [
          | inl e ↦
              let (v, there) = listed_present initial_value t es q entries e in
              ground (arith, reads q, e, there)
          | inr e ↦ ground (arith, reads q, e, all q e)
        ],
      )
