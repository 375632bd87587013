-- ===== src/Obj/Arrays.antt =====
-- The arrays of duro/obj/array.c. An object is initial or an array; the values of the elements are
-- of any type. `initial_value` is an object as `RDB_init_obj` leaves it; `copy` is `RDB_copy_obj`: of
-- the destination's value and the source's it gives what the destination then holds, and the error,
-- if any; `destroy` is the error of `RDB_destroy_obj`, if any. A length that is set is not negative.
-- Where C reads memory that is not the array's the result is `none`.
pub mod Length
pub mod Copy
use durodbms.Prelude.{
  Bool, Error, List, Option, Result, [], drop, err, get_elem?, if◌then◌else◌, leb, ltb, negsuc,
  no_memory, none, not_found, ok, pos, replicate, set, some, suc, take, zero, ℕ, ℤ, ◌++◌, ◌+◌, ◌-◌,
  ◌==◌, ◌>>=?◌, ◌||◌, ◌∷◌,
}

-- `length` elements of the buffer are those of the array, and `capacity` are initialized.
pub record ArrayValue {ℓ} (V : Type ℓ) : Type ℓ where
  pub elemv : List V
  pub length_of : ℕ
  pub capacity : ℕ

pub data ArrayObject {ℓ} (V : Type ℓ) : Type ℓ where
  initial_array : ArrayObject V
  -- The kind is that of an array, and no field has been written.
  unset_array : ArrayObject V
  array_object : ArrayValue V → ArrayObject V

module _ {ℓ} {V : Type ℓ} where
  unfoldable pub array_length : ArrayObject V → Option ℕ
  array_length initial_array = some 0
  array_length unset_array = none
  array_length (array_object a) = some a.length_of

  unfoldable pub array_get : ArrayObject V → ℤ → Option (Result V)
  array_get (array_object a) (negsuc n) = some (err not_found)
  array_get (array_object a) (pos i) =
      if leb a.length_of i
      then some (err not_found)
      else get_elem? a.elemv i >>=? (λ v. some (ok v))
  array_get _ idx = none

  -- The loop over the elements that a shorter array loses, to the first error.
  unfoldable pub destroy_all : (V → Option Error) → List V → Option Error
  destroy_all destroy [] = none
  destroy_all destroy (v ∷ vs) =
      let rest = destroy_all destroy vs in elim (destroy v) [ some e ↦ some e | none ↦ rest ]

  abbrev pub enlarged : ℕ → ArrayValue V × Option Error → Option (ArrayObject V × Option Error)
  enlarged len (a, some e) = some (array_object a, some e)
  enlarged len (a, none) = some (array_object (record a { length_of = len }), none)

module _ {ℓ} {V : Type ℓ} (initial_value : V) where
  -- The Boolean says whether `realloc` succeeds.
  unfoldable pub enlarge_array_buf : Bool → ArrayValue V → ℕ → ArrayValue V × Option Error
  enlarge_array_buf memory a len =
      if memory
      then (
        record {
          elemv = take len (take a.capacity a.elemv) ++ replicate (len - a.capacity) initial_value;
          length_of = a.length_of;
          capacity = len;
        },
        none,
      )
      else (a, some no_memory)

  -- The branch for a shorter array.
  unfoldable pub shrink_array :
      (V → Option Error) → Bool → ArrayValue V → ℕ → ArrayValue V × Option Error
  shrink_array destroy memory a len =
      let shorter : ArrayValue V = record { elemv = a.elemv; length_of = len; capacity = len } in
      elim (destroy_all destroy (drop len (take a.capacity a.elemv))) [
        | some e ↦ (shorter, some e)
        | none ↦
            if len == 0
            then (record shorter { elemv = [] }, none)
            else if memory
            then (record shorter { elemv = take len a.elemv }, none)
            else (shorter, some no_memory)
      ]

  abbrev pub as_object : ArrayValue V × Option Error → Option (ArrayObject V × Option Error)
  as_object (a, e) = some (array_object a, e)

  unfoldable pub set_array_length :
      (V → Option Error) → Bool → ArrayObject V → ℕ → Option (ArrayObject V × Option Error)
  set_array_length destroy memory initial_array len =
      let blank : ArrayValue V = record {
        elemv = replicate len initial_value;
        length_of = len;
        capacity = len;
      } in
      if len == 0 || memory
      then some (array_object blank, none)
      else some (unset_array, some no_memory)
  set_array_length destroy memory unset_array len = none
  set_array_length destroy memory (array_object a) len =
      if ltb len a.length_of
      then as_object (shrink_array destroy memory a len)
      else if ltb a.length_of len
      then enlarged len (enlarge_array_buf memory a len)
      else some (array_object a, none)

module _ {ℓ} {V : Type ℓ} (copy : V → V → V × Option Error) where
  unfoldable pub array_set : ArrayObject V → ℤ → V → Option (ArrayObject V × Option Error)
  array_set (array_object a) (pos i) v =
      if leb a.length_of i
      then some (array_object a, some not_found)
      else get_elem? a.elemv i >>=? (λ old.
        some (array_object (record a { elemv = set a.elemv i (copy old v).0 }), (copy old v).1))
  array_set _ idx v = none

  -- The loop of `RDB_copy_array` from an index on, over a number of elements.
  unfoldable pub copy_elements :
      ArrayObject V → ℕ → ℕ → ArrayObject V → Option (ArrayObject V × Option Error)
  copy_elements src i zero dst = some (dst, none)
  copy_elements src i (suc n) dst = array_get src (pos i) >>=? (λ got. elim got [
    | err e ↦ some (dst, some e)
    | ok v ↦ array_set dst (pos i) v >>=? (λ r. elim r.1 [
      | some e ↦ some (r.0, some e)
      | none ↦ copy_elements src (i + 1) n r.0
    ])
  ])

module _ {ℓ} {V : Type ℓ} (initial_value : V) (copy : V → V → V × Option Error) where
  unfoldable pub copy_array :
      (V → Option Error)
      → Bool
      → ArrayObject V
      → ArrayObject V
      → Option (ArrayObject V × Option Error)
  copy_array destroy memory dst src = array_length src >>=? (λ len.
      set_array_length initial_value destroy memory dst len
      >>=? (λ r. elim r.1 [ some e ↦ some r | none ↦ copy_elements copy src 0 len r.0 ]))
