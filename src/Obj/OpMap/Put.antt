-- ===== src/Obj/OpMap/Put.antt =====
-- `RDB_put_op`, `RDB_del_ops` and `RDB_get_op` of duro/obj/opmap.c together.
use durodbms.Gen.HashMap.{ample, hashmap_get, hashmap_put}
use durodbms.Gen.HashMap.Put.{IsMap, hashmap_put-Maps}
use durodbms.Gen.Strings.{Str, str_equal, str_equal_refl}
use durodbms.Obj.OpMap.{
  OpMap, Operator, accepts, any_takes, chosen, del_ops, find_op, get_op, is_variadic, operators,
  put_op, search_ops,
}
use durodbms.Obj.Types.{RdbType}
use durodbms.Prelude.{
  Bool, List, Option, Option-cases, [], ap, arith, err, false, if◌then◌else◌, inl, inr, none, ok,
  operator_not_found, refl, some, subst, sym, true, ◌∙◌, ◌∷◌, ◌≡◌,
}

find_op_insert :
    (test : Operator → Bool) (first op : Operator) (ops : List Operator)
    → test op ≡ false
    → find_op test (first ∷ op ∷ ops) ≡ find_op test (first ∷ ops)
unfolding find_op
find_op_insert test first op ops h = rw h refl

chosen_first :
    (a b : Option Operator) (c : Bool) (op : Operator) → a ≡ some op → chosen a b c ≡ ok op
chosen_first none b c op e = absurd (ground (arith, e))
chosen_first (some o) b c op e = ground (arith, e)

chosen_ok :
    (a b : Option Operator) (c d : Bool) (op : Operator)
    → chosen a b c ≡ ok op
    → chosen a b d ≡ ok op
chosen_ok (some o) b c d op h = h
chosen_ok none (some o) c d op h = h
chosen_ok none none true d op h = absurd (cc h)
chosen_ok none none false d op h = absurd (cc h)

-- A search that succeeds depends on the operators that the loops find.
search_ops_congr :
    (xs ys : List Operator) (argtv : List (Option RdbType)) (op : Operator)
    → find_op (accepts argtv) xs ≡ find_op (accepts argtv) ys
    → find_op is_variadic xs ≡ find_op is_variadic ys
    → search_ops xs argtv ≡ ok op
    → search_ops ys argtv ≡ ok op
unfolding search_ops
search_ops_congr xs ys argtv op e f h =
    subst (λ z. chosen z (find_op is_variadic ys) (any_takes ys argtv) ≡ ok op) e
      (subst (λ z. chosen (find_op (accepts argtv) xs) z (any_takes ys argtv) ≡ ok op) f
        (chosen_ok (find_op (accepts argtv) xs) (find_op is_variadic xs) (any_takes xs argtv)
          (any_takes ys argtv) op h))

-- The list under a name once an operator has been added to it.
abbrev added_second : Operator → Option (List Operator) → List Operator
added_second op none = op ∷ []
added_second op (some []) = op ∷ []
added_second op (some (first ∷ ops)) = first ∷ op ∷ ops

abbrev list_of : Option (List Operator) → List Operator
list_of none = []
list_of (some ops) = ops

-- The first operator of a list if it passes a test, and otherwise a new one.
abbrev pub preferred : (Operator → Bool) → List Operator → Operator → Operator
preferred test [] op = op
preferred test (first ∷ ops) op = if test first then first else op

-- What the loops find after the addition.
find_op_new :
    (test : Operator → Bool) (o : Option (List Operator)) (op : Operator)
    → test op ≡ true
    → find_op test (added_second op o) ≡ some (preferred test (list_of o) op)
unfolding find_op
find_op_new test none op h = rw h refl
find_op_new test (some []) op h = rw h refl
find_op_new test (some (first ∷ ops)) op h = ground (arith, h)

find_op_old :
    (test : Operator → Bool) (o : Option (List Operator)) (op : Operator)
    → test op ≡ false
    → find_op test (added_second op o) ≡ find_op test (list_of o)
unfolding find_op
find_op_old test none op h = rw h refl
find_op_old test (some []) op h = rw h refl
find_op_old test (some (first ∷ ops)) op h = find_op_insert test first op ops h

-- What a search under the name gives after the addition.
added_new :
    (o : Option (List Operator)) (op : Operator) (argtv : List (Option RdbType))
    → accepts argtv op ≡ true
    → search_ops (added_second op o) argtv ≡ ok (preferred (accepts argtv) (list_of o) op)
unfolding search_ops
added_new o op argtv h =
    let ops = added_second op o in
    chosen_first (find_op (accepts argtv) ops) (find_op is_variadic ops) (any_takes ops argtv)
      (preferred (accepts argtv) (list_of o) op) (find_op_new (accepts argtv) o op h)

-- An operator found by its parameters, and else a variadic one.
abbrev pub or_variadic : Option Operator → Operator → Operator
or_variadic (some o) op = o
or_variadic none op = op

chosen_variadic :
    (a b : Option Operator) (c : Bool) (op : Operator)
    → b ≡ some op
    → chosen a b c ≡ ok (or_variadic a op)
chosen_variadic (some o) b c op e = refl
chosen_variadic none (some o) c op e = ground (arith, e)
chosen_variadic none none c op e = absurd (cc e)

added_variadic :
    (o : Option (List Operator)) (op : Operator) (argtv : List (Option RdbType))
    → accepts argtv op ≡ false
    → is_variadic op ≡ true
    → search_ops (added_second op o) argtv
      ≡ ok
          (or_variadic (find_op (accepts argtv) (list_of o)) (preferred is_variadic (list_of o) op))
unfolding search_ops
added_variadic o op argtv h v =
    let ops = added_second op o in
    chosen_variadic (find_op (accepts argtv) ops) (find_op is_variadic ops) (any_takes ops argtv)
      (preferred is_variadic (list_of o) op) (find_op_new is_variadic o op v)
    ∙ ap (λ a. ok (or_variadic a (preferred is_variadic (list_of o) op)))
        (find_op_old (accepts argtv) o op h)

added_kept :
    (o : Option (List Operator)) (op found : Operator) (argtv : List (Option RdbType))
    → accepts argtv op ≡ false
    → is_variadic op ≡ false
    → (elim o [ none ↦ err operator_not_found | some ops ↦ search_ops ops argtv ]) ≡ ok found
    → search_ops (added_second op o) argtv ≡ ok found
unfolding search_ops find_op any_takes
added_kept none op found argtv h v e = absurd (cc e)
added_kept (some []) op found argtv h v e = absurd (cc e)
added_kept (some (first ∷ ops)) op found argtv h v e =
    search_ops_congr (first ∷ ops) (first ∷ op ∷ ops) argtv found
      (sym (find_op_insert (accepts argtv) first op ops h))
      (sym (find_op_insert is_variadic first op ops v)) e

-- What a new operator does to the lookups of a map.
pub record Adds (m : OpMap) (op : Operator) (m' : OpMap) : Type 0 where
  pub valid : IsMap m'
  pub others :
      (name : Str) (argtv : List (Option RdbType))
      → str_equal op.name name ≡ false
      → get_op m' name argtv ≡ get_op m name argtv
  pub finds :
      (argtv : List (Option RdbType))
      → accepts argtv op ≡ true
      → get_op m' op.name argtv ≡ ok (preferred (accepts argtv) (operators m op.name) op)
  pub varies :
      (argtv : List (Option RdbType))
      → accepts argtv op ≡ false
      → is_variadic op ≡ true
      → get_op m' op.name argtv
        ≡ ok (
            or_variadic
              (find_op (accepts argtv) (operators m op.name))
              (preferred is_variadic (operators m op.name) op))
  pub keeps :
      (argtv : List (Option RdbType)) (o : Operator)
      → accepts argtv op ≡ false
      → is_variadic op ≡ false
      → get_op m op.name argtv ≡ ok o
      → get_op m' op.name argtv ≡ ok o

put_op-hashmap_put :
    (m : OpMap) (op : Operator)
    → put_op ample true m op
      ≡ hashmap_put ample m op.name (some (added_second op (hashmap_get m op.name)))
unfolding put_op
put_op-hashmap_put m op = go (hashmap_get m op.name)
  where
    go :
        (o : Option (List Operator))
        → (elim o [
          | some (first ∷ rest) ↦ hashmap_put ample m op.name (some (first ∷ op ∷ rest))
          | _ ↦ hashmap_put ample m op.name (some (op ∷ []))
        ])
          ≡ hashmap_put ample m op.name (some (added_second op o))
    go none = refl
    go (some []) = refl
    go (some (first ∷ ops)) = refl

-- With memory at hand `RDB_put_op` on a valid map succeeds and the new map is valid. Under other
-- names every lookup gives what it gave. Under the operator's own name, for arguments that it
-- accepts, a lookup gives the first operator of the list if that accepts them, and else the new
-- one, which comes before the rest of the list. For other arguments: if the new operator is
-- variadic, a lookup gives the first operator that accepts the arguments, and where none does the
-- first of the list if that is variadic, and else the new one; if it has a fixed number of
-- parameters, what a lookup found it still finds.
pub put_op-Adds :
    (m : OpMap) (op : Operator)
    → IsMap m
    → (m' : OpMap) × (put_op ample true m op ≡ some (m', true)) × Adds m op m'
unfolding get_op operators
put_op-Adds m op valid =
    let new = added_second op (hashmap_get m op.name) in
    let (m', run, maps) = hashmap_put-Maps m op.name (some new) valid in
    let here : hashmap_get m' op.name ≡ some new =
      maps.reads op.name ∙ ground (arith, str_equal_refl op.name) in
    (
      m',
      put_op-hashmap_put m op ∙ run,
      record {
        valid = maps.valid;
        others = λ name argtv e. ground (arith, maps.reads name, e);
        finds = λ argtv h. elim (Option-cases (hashmap_get m op.name)) [
          | inl e ↦ ground (arith, here, e, added_new (hashmap_get m op.name) op argtv h)
          | inr (ops, e) ↦ ground (arith, here, e, added_new (hashmap_get m op.name) op argtv h)
        ];
        varies = λ argtv h v. elim (Option-cases (hashmap_get m op.name)) [
          | inl e ↦ ground (arith, here, e, added_variadic (hashmap_get m op.name) op argtv h v)
          | inr (ops, e) ↦
              ground (arith, here, e, added_variadic (hashmap_get m op.name) op argtv h v)
        ];
        keeps = λ argtv o h v e.
            ground (arith, here, added_kept (hashmap_get m op.name) op o argtv h v e);
      },
    )

-- With memory at hand `RDB_del_ops` on a valid map succeeds and the new map is valid: every lookup
-- under the name reports that there is no operator, and under other names gives what it gave.
pub del_ops-get_op :
    (m : OpMap) (name : Str)
    → IsMap m
    → (m' : OpMap) × (del_ops ample m name ≡ some (m', true))
      × IsMap m'
      × ((argtv : List (Option RdbType)) → get_op m' name argtv ≡ err operator_not_found)
      × ((n : Str) (argtv : List (Option RdbType))
          → str_equal name n ≡ false
          → get_op m' n argtv ≡ get_op m n argtv)
unfolding get_op del_ops
del_ops-get_op m name valid = elim (Option-cases (hashmap_get m name)) [
  | inl e ↦ (m, ground (arith, e), valid, (λ argtv. ground (arith, e)), λ n argtv d. refl)
  | inr (ops, e) ↦
      let (m', run, maps) = hashmap_put-Maps m name none valid in
      let gone : hashmap_get m' name ≡ none =
        maps.reads name ∙ ground (arith, str_equal_refl name) in
      (
        m',
        ground (arith, e, run),
        maps.valid,
        (λ argtv. ground (arith, gone)),
        λ n argtv d. ground (arith, maps.reads n, d),
      )
]
