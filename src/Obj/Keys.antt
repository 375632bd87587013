-- ===== src/Obj/Keys.antt =====
-- The keys of duro/obj/key.c: a key is the list of the names of its attributes.
pub mod Sets
pub mod Checks
pub mod Equal
use durodbms.Gen.Strings.{Str, is_listed}
use durodbms.Obj.Types.{Attrs, attr, has_attr, no_attrs}
use durodbms.Prelude.{
  Bool, Error, List, Option, [], false, if◌then◌else◌, invalid_argument, leb, length, ltb, none,
  some, true, ◌&&◌, ◌==◌, ◌∷◌,
}

-- `strvec_is_subset`
unfoldable pub strvec_is_subset : List Str → List Str → Bool
strvec_is_subset [] v2 = true
strvec_is_subset (s ∷ v1) v2 =
    let rest = strvec_is_subset v1 v2 in if is_listed v2 s then rest else false

-- All the key attributes appear in the type.
unfoldable pub appear : Attrs → List Str → Bool
appear xs [] = true
appear xs (s ∷ key) = let rest = appear xs key in if has_attr xs s then rest else false

-- No attribute is found again in the rest of the key.
unfoldable pub none_twice : List Str → Bool
none_twice [] = true
none_twice (s ∷ key) = let rest = none_twice key in if is_listed key s then false else rest

-- The first loop of `RDB_check_keys`.
unfoldable pub check_attributes : Attrs → List (List Str) → Bool
check_attributes xs [] = true
check_attributes xs (key ∷ keyv) =
    let rest = check_attributes xs keyv in
    if appear xs key then (if none_twice key then rest else false) else false

-- The inner loop over the later keys: the shorter of two keys is not a subset of the longer.
unfoldable pub clashes : List Str → List (List Str) → Bool
clashes key [] = false
clashes key (key' ∷ keyv) =
    let rest = clashes key keyv in
    if (if leb (length key) (length key')
      then strvec_is_subset key key'
      else strvec_is_subset key' key)
    then true
    else rest

unfoldable pub check_subsets : List (List Str) → Bool
check_subsets [] = true
check_subsets (key ∷ keyv) =
    let rest = check_subsets keyv in if clashes key keyv then false else rest

-- `none` if all is well.
unfoldable pub check_keys : Attrs → List (List Str) → Option Error
check_keys xs keyv =
    if ltb (length keyv) 1
    then some invalid_argument
    else if check_attributes xs keyv
    then (if check_subsets keyv then none else some invalid_argument)
    else some invalid_argument

-- `RDB_all_key`
unfoldable pub all_key : Attrs → List Str
all_key no_attrs = []
all_key (attr n t xs) = n ∷ all_key xs

-- The test of `find_key`.
abbrev pub same_key : List Str → List Str → Bool
same_key key key' = (length key == length key') && strvec_is_subset key key'

-- `find_key(...) != -1`
unfoldable pub find_key : List Str → List (List Str) → Bool
find_key key [] = false
find_key key (key' ∷ keyv) =
    let rest = find_key key keyv in if same_key key key' then true else rest

unfoldable pub keys_appear : List (List Str) → List (List Str) → Bool
keys_appear [] keyv2 = true
keys_appear (key ∷ keyv1) keyv2 =
    let rest = keys_appear keyv1 keyv2 in if find_key key keyv2 then rest else false

unfoldable pub keys_equal : List (List Str) → List (List Str) → Bool
keys_equal keyv1 keyv2 = (length keyv1 == length keyv2) && keys_appear keyv1 keyv2
