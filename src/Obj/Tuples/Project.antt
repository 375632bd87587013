-- ===== src/Obj/Tuples/Project.antt =====
-- `RDB_project_tuple` and `RDB_remove_tuple` of duro/obj/tuple.c: the values under each name.
use durodbms.Gen.HashTable.{HashTable}
use durodbms.Gen.Strings.{Str, find_str, is_listed, str_equal, str_equal_sound}
use durodbms.Obj.Tuples.{Object, TupleEntry, copied, tuple_get, tuple_object}
use durodbms.Obj.Tuples.Put.{Sets}
use durodbms.Prelude.{
  Bool-cases, Error, List, Option, Option-cases, Result, arith, if◌then◌else◌, inl, inr, name_error,
  none, some, true, ◌∷◌, ◌≡◌, ◌≢◌, ◌⊎◌,
}

pub is_listed_step :
    (n : Str) (ns : List Str) (q : Str)
    → is_listed (n ∷ ns) q ≡ (if str_equal n q then true else is_listed ns q)
unfolding find_str
is_listed_step n ns q = elim (Option-cases (find_str ns q)) [
  | inl e ↦ ground (arith, e)
  | inr (i, e) ↦ ground (arith, e)
]

module _ {ℓ} {V : Type ℓ} (initial_value : V) (copy : V → Result V) where
  -- What the copy of a value leaves in an attribute.
  abbrev pub stored : Option V → Option V
  stored none = none
  stored (some v) = some (copied initial_value copy (some v)).0

  -- `r` has the copies of the listed attributes of `t`, and the other attributes of `rest`.
  abbrev pub Overlays : HashTable (TupleEntry V) → List Str → Object V → Object V → Type ℓ
  Overlays t names rest r =
      (q : Str)
      → tuple_get initial_value r q ≡ (
          if is_listed names q
          then stored (tuple_get initial_value (tuple_object t) q)
          else tuple_get initial_value rest q)

  pub overlay_step :
      (t : HashTable (TupleEntry V)) (n : Str) (names : List Str) (v : V) (rest o r : Object V)
      → tuple_get initial_value (tuple_object t) n ≡ some v
      → Sets initial_value rest n (copied initial_value copy (some v)).0 o
      → Overlays t names o r
      → Overlays t (n ∷ names) rest r
  overlay_step t n names v rest o r there s tail q = elim (Bool-cases (str_equal n q)) [
    | inl e ↦
        let here : tuple_get initial_value (tuple_object t) q ≡ some v =
          rw (← str_equal_sound n q e) there in
        ground (arith, tail q, s.reads q, e, is_listed_step n names q, here)
    | inr d ↦ ground (arith, tail q, s.reads q, d, is_listed_step n names q)
  ]

  -- The two ways in which the loop ends.
  abbrev pub Projection :
      HashTable (TupleEntry V) → List Str → Object V → Object V → Option Error → Type ℓ
  Projection t attrv rest r e =
      ((e ≡ none)
        × ((q : Str) → is_listed attrv q ≡ true → tuple_get initial_value (tuple_object t) q ≢ none)
        × Overlays t attrv rest r)
      ⊎ ((e ≡ some name_error)
          × ((q : Str) × (is_listed attrv q ≡ true)
              × (tuple_get initial_value (tuple_object t) q ≡ none)))
