-- ===== src/Tests/Keys.antt =====
-- duro/obj/key.c on a type with attributes `a`, `b`, `c`.
use durodbms.Gen.Strings.{Str, find_str, str_equal}
use durodbms.Obj.Keys.{
  appear, check_attributes, check_keys, check_subsets, clashes, find_key, keys_appear, keys_equal,
  none_twice, strvec_is_subset,
}
use durodbms.Obj.Keys.Checks.{AreKeys, check_keys-AreKeys}
use durodbms.Obj.Keys.Equal.{Covers, keys_equal-Covers}
use durodbms.Obj.Types.{Attrs, RdbType, attr, find_attr, no_attrs, no_reps, no_types, scalar}
use durodbms.Prelude.{
  List, [], invalid_argument, none, refl, some, true, ℕ, ◌+◌, ◌↔◌, ◌∷◌, ◌≡◌, ◌⊎◌,
}

key_runs : Unit {0}
unfolding check_keys check_attributes appear none_twice check_subsets clashes strvec_is_subset
    find_str str_equal find_attr keys_equal keys_appear find_key
key_runs = tt

abbrev letter : ℕ → Str
letter n = (97 + n) ∷ []

abbrev number : RdbType
number =
    scalar
      (record {
        name = 105 ∷ [];
        ordered = true;
        builtin = true;
        compare = true;
        implemented = true;
      })
      no_types no_reps

abbrev three : Attrs
three = attr (letter 0) number (attr (letter 1) number (attr (letter 2) number no_attrs))

abbrev two_keys : List (List Str)
two_keys = (letter 0 ∷ letter 1 ∷ []) ∷ (letter 2 ∷ []) ∷ []

abbrev keys_again : List (List Str)
keys_again = (letter 2 ∷ []) ∷ (letter 1 ∷ letter 0 ∷ []) ∷ []

two_keys_checked : check_keys three two_keys ≡ none
unfolding key_runs
two_keys_checked = refl

keys_again_checked : check_keys three keys_again ≡ none
unfolding key_runs
keys_again_checked = refl

subset_refused :
    check_keys three ((letter 0 ∷ letter 1 ∷ []) ∷ (letter 1 ∷ []) ∷ []) ≡ some invalid_argument
unfolding key_runs
subset_refused = refl

equal_again : keys_equal two_keys keys_again ≡ true
unfolding key_runs
equal_again = refl

check_keys-AreKeys_example :
    (AreKeys three two_keys × (check_keys three two_keys ≡ none))
    ⊎ ((¬ AreKeys three two_keys) × (check_keys three two_keys ≡ some invalid_argument))
check_keys-AreKeys_example = check_keys-AreKeys three two_keys

keys_equal-Covers_example :
    (keys_equal two_keys keys_again ≡ true)
    ↔ (Covers two_keys keys_again × Covers keys_again two_keys)
keys_equal-Covers_example =
    keys_equal-Covers three two_keys keys_again two_keys_checked keys_again_checked
