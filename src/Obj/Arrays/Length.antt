-- ===== src/Obj/Arrays/Length.antt =====
-- `RDB_set_array_length` of duro/obj/array.c: the invariant, and the elements that are kept.
use Prim.Native.Nat.{min}
use durodbms.Obj.Arrays.{
  ArrayObject, ArrayValue, array_get, array_object, destroy_all, enlarge_array_buf, enlarged,
  initial_array, set_array_length, shrink_array, unset_array,
}
use durodbms.Prelude.{
  Bool, Bool-cases, Error, Option, Option-cases, [], ap, arith, drop, false, get_elem?,
  get_elem?-append_left, get_elem?-take, inl, inr, length, length-append, length-replicate,
  length-take, ltb, no_memory, none, pos, refl, replicate, some, suc, take, true, zero, ℕ, ◌++◌,
  ◌-◌, ◌<◌, ◌==◌, ◌∙◌, ◌≡◌, ◌≤◌,
}

module _ {ℓ} {V : Type ℓ} where
  pub record IsArray (a : ArrayValue V) : Type ℓ where
    pub within : a.length_of ≤ a.capacity
    pub room : a.capacity ≤ length a.elemv

  -- An object whose length can be set.
  abbrev pub IsArrayObject : ArrayObject V → Type ℓ
  IsArrayObject initial_array = Unit
  IsArrayObject unset_array = Unit {ℓ} × ⊥
  IsArrayObject (array_object a) = IsArray a

-- What is left of an array `a` by a change of its length, in every case.
record Kept {ℓ} {V : Type ℓ} (a : ArrayValue V) (len : ℕ) (b : ArrayValue V) (e : Option Error)
    : Type ℓ where
  pub valid : IsArray b
  pub size : e ≡ none → b.length_of ≡ len
  pub kept : (i : ℕ) → i < a.length_of → i < b.length_of → get_elem? b.elemv i ≡ get_elem? a.elemv i

module _ {ℓ} {V : Type ℓ} (initial_value : V) where
  length_shorter :
      (a : ArrayValue V) (len : ℕ) → IsArray a → len < a.length_of → len ≤ length (take len a.elemv)
  length_shorter a len v less = omega (arith, length-take len a.elemv, v.within, v.room)

  not_zero : (n : ℕ) → (suc n == 0) ≡ false
  not_zero n = ground arith

  -- The end of the branch, once the elements are destroyed.
  released :
      (destroy : V → Option Error) (memory : Bool) (a : ArrayValue V) (len : ℕ)
      → IsArray a
      → len < a.length_of
      → destroy_all destroy (drop len (take a.capacity a.elemv)) ≡ none
      → (b : ArrayValue V) × (e : Option Error) × (shrink_array initial_value destroy memory a len
          ≡ (b, e))
        × Kept a len b e
  unfolding shrink_array
  released destroy memory a zero v less fine = (
    record { elemv = []; length_of = 0; capacity = 0 },
    none,
    rw (fine, shrink_array) refl,
    record {
      valid = record { within = omega arith; room = omega arith };
      size = λ h. refl;
      kept = λ i h k. absurd (omega (arith, k));
    },
  )
  released destroy true a (suc n) v less fine = (
    record { elemv = take (suc n) a.elemv; length_of = suc n; capacity = suc n },
    none,
    rw (fine, shrink_array, not_zero n) refl,
    record {
      valid = record { within = omega arith; room = length_shorter a (suc n) v less };
      size = λ h. refl;
      kept = λ i h k. get_elem?-take (suc n) a.elemv i k;
    },
  )
  released destroy false a (suc n) v less fine = (
    record { elemv = a.elemv; length_of = suc n; capacity = suc n },
    some no_memory,
    rw (fine, shrink_array, not_zero n) refl,
    record {
      valid = record { within = omega arith; room = omega (arith, v.within, v.room) };
      size = λ h. absurd (cc h);
      kept = λ i h k. refl;
    },
  )

  shrink_array-Kept :
      (destroy : V → Option Error) (memory : Bool) (a : ArrayValue V) (len : ℕ)
      → IsArray a
      → len < a.length_of
      → (b : ArrayValue V) × (e : Option Error) × (shrink_array initial_value destroy memory a len
          ≡ (b, e))
        × Kept a len b e
  unfolding shrink_array
  shrink_array-Kept destroy memory a len v less =
      let shorter : ArrayValue V = record { elemv = a.elemv; length_of = len; capacity = len } in
      let same : IsArray shorter = record {
        within = omega arith;
        room = omega (arith, v.within, v.room);
      } in
      elim (Option-cases (destroy_all destroy (drop len (take a.capacity a.elemv)))) [
        | inr (e, failed) ↦ (
          shorter,
          some e,
          rw (failed, shrink_array) refl,
          record { valid = same; size = λ h. refl; kept = λ i h k. refl },
        )
        | inl fine ↦ released destroy memory a len v less fine
      ]

  enlarge_array_buf-Kept :
      (memory : Bool) (a : ArrayValue V) (len : ℕ)
      → IsArray a
      → a.length_of < len
      → (b : ArrayValue V) × (e : Option Error) × (enlarged len
            (enlarge_array_buf initial_value memory a len)
          ≡ some (array_object b, e))
        × Kept a len b e
  unfolding enlarge_array_buf
  enlarge_array_buf-Kept false a len v longer = (
    a,
    some no_memory,
    refl,
    record { valid = v; size = λ h. absurd (cc h); kept = λ i h k. refl },
  )
  enlarge_array_buf-Kept true a len v longer =
      let front = take len (take a.capacity a.elemv) in
      let back = replicate (len - a.capacity) initial_value in
      let front_size : length front ≡ min len (min a.capacity (length a.elemv)) =
        length-take len (take a.capacity a.elemv) ∙ ap (min len) (length-take a.capacity a.elemv) in
      let full : len ≤ length (front ++ back) = omega (
        arith,
        length-append front back,
        length-replicate (len - a.capacity) initial_value,
        front_size,
        v.room,
      ) in
      (
        record { elemv = front ++ back; length_of = len; capacity = len },
        none,
        refl,
        record {
          valid = record { within = omega arith; room = full };
          size = λ h. refl;
          kept = λ i h k.
              get_elem?-append_left front back i
                (omega (arith, front_size, v.within, v.room, h, longer))
              ∙ get_elem?-take len (take a.capacity a.elemv) i k
              ∙ get_elem?-take a.capacity a.elemv i (omega (arith, v.within, h));
        },
      )

  array_get_kept :
      (a b : ArrayValue V) (i : ℕ)
      → i < a.length_of
      → i < b.length_of
      → get_elem? b.elemv i ≡ get_elem? a.elemv i
      → array_get (array_object b) (pos i) ≡ array_get (array_object a) (pos i)
  unfolding array_get
  array_get_kept a b i h k same = ground (arith, h, k, same)

  -- `RDB_set_array_length` of a valid array returns, and the array is valid, also where it fails.
  -- If it succeeds the array has the length asked for. The elements that both the old array and
  -- the new one have are the same, whatever is returned.
  pub set_array_length-IsArray :
      (destroy : V → Option Error) (memory : Bool) (a : ArrayValue V) (len : ℕ)
      → IsArray a
      → (b : ArrayValue V) × (e : Option Error) × (set_array_length initial_value destroy memory
            (array_object a)
            len
          ≡ some (array_object b, e))
        × IsArray b
        × (e ≡ none → b.length_of ≡ len)
        × ((i : ℕ)
            → i < a.length_of
            → i < b.length_of
            → array_get (array_object b) (pos i) ≡ array_get (array_object a) (pos i))
  unfolding set_array_length
  set_array_length-IsArray destroy memory a len v = elim (Bool-cases (ltb len a.length_of)) [
    | inl shorter ↦
        let (b, e, run, k) = shrink_array-Kept destroy memory a len v (ground (arith, shorter)) in
        (
          b,
          e,
          rw (shorter, set_array_length, run) refl,
          k.valid,
          k.size,
          λ i h l. array_get_kept a b i h l (k.kept i h l),
        )
    | inr not_shorter ↦ elim (Bool-cases (ltb a.length_of len)) [
      | inl longer ↦
          let (b, e, run, k) = enlarge_array_buf-Kept memory a len v (ground (arith, longer)) in
          (
            b,
            e,
            rw (not_shorter, set_array_length, longer) run,
            k.valid,
            k.size,
            λ i h l. array_get_kept a b i h l (k.kept i h l),
          )
      | inr not_longer ↦ (
        a,
        none,
        rw (not_shorter, set_array_length, not_longer) refl,
        v,
        (λ h. ground (arith, not_shorter, not_longer)),
        λ i h l. refl,
      )
    ]
  ]
