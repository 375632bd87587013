-- ===== src/Tests/Arrays.antt =====
-- duro/obj/array.c with arrays of numbers.
use durodbms.Obj.Arrays.{
  ArrayValue, array_get, array_length, array_object, array_set, copy_array, copy_elements,
  destroy_all, enlarge_array_buf, initial_array, set_array_length, shrink_array, unset_array,
}
use durodbms.Obj.Arrays.Copy.{copy_array-Copies}
use durodbms.Obj.Arrays.Length.{IsArray, set_array_length-IsArray}
use durodbms.Prelude.{
  Error, Option, [], arith, err, false, negsuc, no_memory, none, not_found, ok, pos, refl, some,
  true, ℕ, ◌<◌, ◌∷◌, ◌≡◌,
}

abbrev three_numbers : ArrayValue ℕ
three_numbers = record { elemv = 5 ∷ 6 ∷ 7 ∷ []; length_of = 3; capacity = 3 }

three_numbers-IsArray : IsArray three_numbers
three_numbers-IsArray = record { within = omega arith; room = omega arith }

abbrev quiet : ℕ → Option Error
quiet v = none

set_array_length-IsArray_example :
    (b : ArrayValue ℕ) × (e : Option Error) × (set_array_length 0 quiet false
        (array_object three_numbers)
        2
      ≡ some (array_object b, e))
    × IsArray b
    × (e ≡ none → b.length_of ≡ 2)
    × ((i : ℕ)
        → i < 3
        → i < b.length_of
        → array_get (array_object b) (pos i) ≡ array_get (array_object three_numbers) (pos i))
set_array_length-IsArray_example =
    set_array_length-IsArray 0 quiet false three_numbers 2 three_numbers-IsArray

-- A copy replaces what the destination holds.
abbrev replace : ℕ → ℕ → ℕ × Option Error
replace old v = (v, none)

copy_array-Copies_example :
    (b : ArrayValue ℕ) × (copy_array 0 replace quiet true initial_array (array_object three_numbers)
      ≡ some (array_object b, none))
    × IsArray b
    × (array_length (array_object b) ≡ array_length (array_object three_numbers))
    × ((i : ℕ) (v : ℕ)
        → array_get (array_object three_numbers) (pos i) ≡ some (ok v)
        → array_get (array_object b) (pos i) ≡ some (ok v))
copy_array-Copies_example =
    copy_array-Copies 0 replace quiet three_numbers (λ v. refl) three_numbers-IsArray

array_runs : Unit {0}
unfolding array_length array_get destroy_all enlarge_array_buf shrink_array set_array_length
    array_set copy_elements copy_array
array_runs = tt

copied_all :
    copy_array 0 replace quiet true initial_array (array_object three_numbers)
    ≡ some (array_object three_numbers, none)
unfolding array_runs
copied_all = refl

-- A failed allocation leaves an array whose length is not written.
unset : set_array_length 0 quiet false initial_array 2 ≡ some (unset_array, some no_memory)
unfolding array_runs
unset = refl

-- `RDB_array_set` writes before the buffer at a negative index, which `RDB_array_get` refuses.
before_the_buffer :
    (array_set replace (array_object three_numbers) (negsuc 0) 1 ≡ none)
    × (array_get (array_object three_numbers) (negsuc 0) ≡ some (err not_found))
unfolding array_runs
before_the_buffer = (refl, refl)
