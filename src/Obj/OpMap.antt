-- ===== src/Obj/OpMap.antt =====
-- The operator map of duro/obj/opmap.c: a map from names to linked lists of operators. A pointer to
-- the first entry of a list is the list, the null pointer `none`; a write through that pointer
-- changes the value of the map under the name. The deletion of a comparison operator tests whether
-- a parameter's type is a given pointer: that test is an argument.
pub mod Put
use durodbms.Gen.HashMap.{KvPair, Memory, hashmap_get, hashmap_put, init_hashmap}
use durodbms.Gen.HashTable.{HashTable}
use durodbms.Gen.Strings.{Str}
use durodbms.Obj.Types.{RdbType}
use durodbms.Obj.Types.Queries.{Pattern, type_matches}
use durodbms.Prelude.{
  Bool, List, Option, Result, [], err, false, if◌then◌else◌, length, none, ok, operator_not_found,
  some, true, type_mismatch, ◌&&◌, ◌==◌, ◌>>=?◌, ◌∷◌,
}

-- A null type matches every type.
pub record Parameter : Type 0 where
  pub typ : Option Pattern
  pub update : Bool

-- `paramv` is `none` where `paramc` is `RDB_VAR_PARAMS`.
pub record Operator : Type 0 where
  pub name : Str
  pub paramv : Option (List Parameter)

abbrev pub OpMap : Type 0
OpMap = HashTable (KvPair (List Operator))

unfoldable pub init_op_map : OpMap
init_op_map = init_hashmap 256

-- The list under a name.
unfoldable pub operators : OpMap → Str → List Operator
operators m name = elim (hashmap_get m name) [ none ↦ [] | some ops ↦ ops ]

-- `RDB_put_op`: a new operator comes second in its list.
unfoldable pub put_op : Memory → Bool → OpMap → Operator → Option (OpMap × Bool)
put_op memory entry m op =
    if entry
    then elim (hashmap_get m op.name) [
      | some (first ∷ rest) ↦ hashmap_put memory m op.name (some (first ∷ op ∷ rest))
      | _ ↦ hashmap_put memory m op.name (some (op ∷ []))
    ]
    else some (m, false)

-- The loop over the parameters; an argument whose type is null matches.
unfoldable pub arguments_match : List (Option RdbType) → List Parameter → Bool
arguments_match [] [] = true
arguments_match (t ∷ ts) (p ∷ ps) =
    let rest = arguments_match ts ps in
    if elim p.typ [ none ↦ true | some pat ↦ elim t [ none ↦ true | some u ↦ type_matches u pat ] ]
    then rest
    else false
arguments_match _ _ = false

-- The number of parameters is that of the arguments.
unfoldable pub takes : Operator → List (Option RdbType) → Bool
takes op argtv = elim op.paramv [ none ↦ false | some ps ↦ length ps == length argtv ]

unfoldable pub fits : Operator → List (Option RdbType) → Bool
fits op argtv = elim op.paramv [ none ↦ false | some ps ↦ arguments_match argtv ps ]

abbrev pub is_variadic : Operator → Bool
is_variadic op = elim op.paramv [ none ↦ true | some ps ↦ false ]

-- A loop over the list, to the first operator that passes a test.
unfoldable pub find_op : (Operator → Bool) → List Operator → Option Operator
find_op test [] = none
find_op test (op ∷ ops) = let rest = find_op test ops in if test op then some op else rest

-- `argc_match` at the end of the first loop.
unfoldable pub any_takes : List Operator → List (Option RdbType) → Bool
any_takes [] argtv = false
any_takes (op ∷ ops) argtv = let rest = any_takes ops argtv in if takes op argtv then true else rest

-- What the call returns, from the results of its loops.
abbrev pub chosen : Option Operator → Option Operator → Bool → Result Operator
chosen (some op) variadic argc_match = ok op
chosen none (some op) argc_match = ok op
chosen none none true = err type_mismatch
chosen none none false = err operator_not_found

abbrev pub accepts : List (Option RdbType) → Operator → Bool
accepts argtv op = takes op argtv && fits op argtv

unfoldable pub search_ops : List Operator → List (Option RdbType) → Result Operator
search_ops ops argtv =
    chosen (find_op (accepts argtv) ops) (find_op is_variadic ops) (any_takes ops argtv)

unfoldable pub get_op : OpMap → Str → List (Option RdbType) → Result Operator
get_op m name argtv = elim (hashmap_get m name) [
  | none ↦ err operator_not_found
  | some ops ↦ search_ops ops argtv
]

-- The loop of `RDB_del_cmp_op`: the list without the first comparison operator of the type, if
-- there is one.
unfoldable pub drop_cmp_op : (Option Pattern → Bool) → List Operator → Option (List Operator)
drop_cmp_op is_typ [] = none
drop_cmp_op is_typ (op ∷ ops) =
    let rest = drop_cmp_op is_typ ops >>=? (λ left. some (op ∷ left)) in
    elim op.paramv [ some (p ∷ q ∷ []) ↦ if is_typ p.typ then some ops else rest | _ ↦ rest ]

-- A pointer to the first entry.
abbrev pub pointer : List Operator → Option (List Operator)
pointer [] = none
pointer (op ∷ ops) = some (op ∷ ops)

unfoldable pub del_cmp_op : Memory → OpMap → Str → (Option Pattern → Bool) → Option (OpMap × Bool)
del_cmp_op memory m name is_typ = elim (drop_cmp_op is_typ (operators m name)) [
  | none ↦ some (m, true)
  | some ops ↦ hashmap_put memory m name (pointer ops)
]

unfoldable pub del_ops : Memory → OpMap → Str → Option (OpMap × Bool)
del_ops memory m name = elim (hashmap_get m name) [
  | none ↦ some (m, true)
  | some ops ↦ hashmap_put memory m name none
]
