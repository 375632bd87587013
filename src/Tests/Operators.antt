-- ===== src/Tests/Operators.antt =====
-- duro/obj/opmap.c with two operators of one name.
use durodbms.Gen.HashMap.{ample, init_hashmap, kv_hashing}
use durodbms.Gen.HashMap.Put.{IsMap}
use durodbms.Gen.HashTable.Table.{init_hashtable-IsValid}
use durodbms.Gen.Strings.{Str, str_equal}
use durodbms.Obj.OpMap.{
  OpMap, Operator, any_takes, arguments_match, del_ops, drop_cmp_op, find_op, fits, get_op,
  init_op_map, put_op, search_ops, takes,
}
use durodbms.Obj.OpMap.Put.{Adds, del_ops-get_op, put_op-Adds}
use durodbms.Obj.Types.{RdbType, array, is_subtype, no_reps, no_types, scalar, type_equals}
use durodbms.Obj.Types.Queries.{concrete, type_matches}
use durodbms.Prelude.{
  List, Option, [], arith, err, false, none, ok, operator_not_found, refl, some, true,
  type_mismatch, ◌∷◌, ◌≡◌,
}

abbrev plus_name : Str
plus_name = 43 ∷ []

abbrev integer_type : RdbType
integer_type =
    scalar
      (record {
        name = 105 ∷ [];
        ordered = true;
        builtin = true;
        compare = true;
        implemented = true;
      })
      no_types no_reps

abbrev plus_op : Operator
plus_op = record {
  name = plus_name;
  paramv = some (
      record { typ = some (concrete integer_type); update = false }
      ∷ record { typ = none; update = false }
      ∷ []);
}

init_op_map-IsMap : IsMap init_op_map
unfolding init_op_map init_hashmap
init_op_map-IsMap = init_hashtable-IsValid kv_hashing 256 (omega arith)

put_op-Adds_example :
    (m' : OpMap) × (put_op ample true init_op_map plus_op ≡ some (m', true))
    × Adds init_op_map plus_op m'
put_op-Adds_example = put_op-Adds init_op_map plus_op init_op_map-IsMap

del_ops-get_op_example :
    (m' : OpMap) × (del_ops ample init_op_map plus_name ≡ some (m', true))
    × IsMap m'
    × ((argtv : List (Option RdbType)) → get_op m' plus_name argtv ≡ err operator_not_found)
    × ((n : Str) (argtv : List (Option RdbType))
        → str_equal plus_name n ≡ false
        → get_op m' n argtv ≡ get_op init_op_map n argtv)
del_ops-get_op_example = del_ops-get_op init_op_map plus_name init_op_map-IsMap

operator_runs : Unit {0}
unfolding search_ops find_op takes fits arguments_match any_takes type_matches is_subtype
    type_equals str_equal drop_cmp_op
operator_runs = tt

accepted : search_ops (plus_op ∷ []) (some integer_type ∷ none ∷ []) ≡ ok plus_op
unfolding operator_runs
accepted = refl

mismatch : search_ops (plus_op ∷ []) (some (array integer_type) ∷ none ∷ []) ≡ err type_mismatch
unfolding operator_runs
mismatch = refl

wrong_count : search_ops (plus_op ∷ []) (none ∷ []) ≡ err operator_not_found
unfolding operator_runs
wrong_count = refl
