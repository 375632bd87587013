-- ===== src/TreeRec/Index.antt =====
-- The secondary indexes of duro/treerec/treeindex.c: a search tree from the index key of each
-- record to its primary key, in the list `indexes` of the record map. Only unique indexes exist.
use durodbms.Prelude.{
  Bool, List, Option, Ordering, Result, [], eq, err, false, get_or, gt, if◌then◌else◌,
  invalid_argument, length, lt, no_memory, none, ok, some, suc, true, zero, ℕ, ◌+◌, ◌-◌, ◌==◌,
  ◌>>=◌, ◌∷◌,
}
use durodbms.TreeRec.Bytes.{Bytes, abs_diff, lex, memcmp}
use durodbms.TreeRec.Field.{Layout, Place, field_len, get_vflen, slice}
use durodbms.TreeRec.Tree.{BinaryTree, Comparison, create_tree}

-- `RDB_compare_field`, with `envp` and `arg` in the function. A function that is missing is none.
pub record CompareField : Type 0 where
  pub fno : ℕ
  pub comparep : Option Comparison
  pub asc : Bool

pub record Index : Type 0 where
  pub address : ℕ
  pub fieldv : List ℕ
  pub cmpv : Option (List CompareField)
  pub tree : BinaryTree

-- `RDB_VARIABLE_LEN` is -1. Below 0, before the block, the offset stops.
unfoldable pub add_len : ℕ → Option ℕ → ℕ
add_len offs (some len) = offs + len
add_len offs none = offs - 1

unfoldable pub index_fixed_offset : Layout → List ℕ → ℕ → ℕ
index_fixed_offset l fieldv zero = 0
index_fixed_offset l [] (suc n) = 0
index_fixed_offset l (fno ∷ fieldv) (suc n) = elim (field_len l fno) [
  | some len ↦ len + index_fixed_offset l fieldv n
  | none ↦ index_fixed_offset l fieldv n
]

unfoldable pub index_var_count : Layout → List ℕ → ℕ
index_var_count l [] = 0
index_var_count l (fno ∷ fieldv) = elim (field_len l fno) [
  | some len ↦ index_var_count l fieldv
  | none ↦ suc (index_var_count l fieldv)
]

-- The loop in front of a variable-length field: `n` steps from the field `i` of the index on. It
-- adds the length of the field `i` of the record, not of the field `fieldv[i]`.
unfoldable pub index_var_offset : Layout → Bytes → ℕ → List ℕ → ℕ → ℕ → ℕ → ℕ → Result (ℕ × ℕ)
unfolding add_len
index_var_offset l mem vfcnt fieldv zero i offs vpos = ok (offs, vpos)
index_var_offset l mem vfcnt fieldv (suc n) i offs vpos = elim (field_len l (get_or fieldv i 0)) [
  | some len ↦ index_var_offset l mem vfcnt fieldv n (suc i) (add_len offs (field_len l i)) vpos
  | none ↦ do
    len ← get_vflen mem vfcnt vpos
    index_var_offset l mem vfcnt fieldv n (suc i) (offs + len) (suc vpos)
]

unfoldable pub index_get_field : Layout → List ℕ → ℕ → Bytes → Result Place
unfolding index_var_offset
index_get_field l fieldv fi mem = elim (field_len l (get_or fieldv fi 0)) [
  | some len ↦ ok (record { offs = index_fixed_offset l fieldv fi; len = len; vpos = none })
  | none ↦ do
    let vfcnt = index_var_count l fieldv
    (offs, vpos) ← index_var_offset l mem vfcnt fieldv fi 0 0 0
    len ← get_vflen mem vfcnt vpos
    ok (record { offs = offs; len = len; vpos = some vpos })
]

abbrev pub negate : Ordering → Ordering
negate lt = gt
negate eq = eq
negate gt = lt

abbrev pub directed : CompareField → Ordering → Ordering
directed c res = if c.asc then res else negate res

-- The bytes of a field, as a comparison function gets them.
abbrev pub index_field : Layout → List ℕ → ℕ → Bytes → Bytes
index_field l fieldv fi mem = elim (index_get_field l fieldv fi mem) [
  | ok at ↦ slice mem at
  | err e ↦ []
]

-- The comparison of two fields; without a function the code calls none, which stands as equal.
abbrev pub compare_values : CompareField → Bytes → Bytes → Ordering
compare_values c a b = elim c.comparep [ some f ↦ f a b | none ↦ eq ]

unfoldable pub index_compare_fields :
    Layout → List ℕ → List CompareField → ℕ → ℕ → Bytes → Bytes → Ordering
index_compare_fields l fieldv cmpv zero i d1 d2 = eq
index_compare_fields l fieldv [] (suc n) i d1 d2 = eq
index_compare_fields l fieldv (c ∷ cmpv) (suc n) i d1 d2 =
    lex (directed c (compare_values c (index_field l fieldv i d1) (index_field l fieldv i d2)))
      (index_compare_fields l fieldv cmpv n (suc i) d1 d2)

unfoldable pub index_compare_key :
    Layout → List ℕ → Option (List CompareField) → Bytes → Bytes → Ordering
index_compare_key l fieldv none d1 d2 = lex (memcmp d1 d2) (abs_diff (length d1) (length d2))
index_compare_key l fieldv (some cmpv) d1 d2 =
    index_compare_fields l fieldv cmpv (length fieldv) 0 d1 d2

unfoldable pub all_cmpfn : List CompareField → Bool
all_cmpfn [] = true
all_cmpfn (c ∷ cs) = elim c.comparep [ some f ↦ all_cmpfn cs | none ↦ false ]

unfoldable pub index_comparison : Layout → List ℕ → Option (List CompareField) → Option Comparison
index_comparison l fieldv none = some (index_compare_key l fieldv none)
index_comparison l fieldv (some cmpv) =
    if all_cmpfn cmpv then some (index_compare_key l fieldv (some cmpv)) else none

-- `alloc` is the address of the new index, if there is memory for all parts of it.
unfoldable pub new_tree_index :
    Option ℕ → Layout → List ℕ → Option (List CompareField) → (unique : Bool) → Result Index
new_tree_index alloc l fieldv cmpv false = err invalid_argument
new_tree_index none l fieldv cmpv true = err no_memory
new_tree_index (some a) l fieldv cmpv true = ok (record {
  address = a;
  fieldv = fieldv;
  cmpv = cmpv;
  tree = create_tree (index_comparison l fieldv cmpv);
})

-- The new index comes first. It is empty whatever the record map holds.
unfoldable pub create_tree_index :
    Option ℕ
    → Layout
    → List Index
    → List ℕ
    → Option (List CompareField)
    → Bool
    → Result (List Index)
create_tree_index alloc l indexes fieldv cmpv unique = do
  ix ← new_tree_index alloc l fieldv cmpv unique
  ok (ix ∷ indexes)

-- The index is unlinked from the list.
unfoldable pub delete_tree_index : ℕ → List Index → List Index
delete_tree_index a [] = []
delete_tree_index a (ix ∷ indexes) =
    let rest = delete_tree_index a indexes in if ix.address == a then indexes else ix ∷ rest
