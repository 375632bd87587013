-- ===== src/TreeRec/RecMap/Compare.antt =====
-- `compare_key` of duro/treerec/treerecmap.c for a record map with no order of its own (`cmpc` is
-- 0), beside that of a search tree with no comparison function.
use durodbms.Prelude.{==_ne, List, [], arith, fun_ext, none, refl, some, subst, sym, ℕ, ◌<◌, ◌≡◌}
use durodbms.TreeRec.Bytes.{Bytes}
use durodbms.TreeRec.Field.{Layout}
use durodbms.TreeRec.Index.{index_compare_key}
use durodbms.TreeRec.RecMap.{compare_fields, recmap_compare_key}
use durodbms.TreeRec.Sorted.{IsOrderOn}
use durodbms.TreeRec.Tree.{compare_key}

same_compare :
    (l : Layout) (a b : Bytes)
    → 0 < l.fieldcount
    → compare_key (some (recmap_compare_key l [])) a b ≡ compare_key none a b
unfolding compare_key recmap_compare_key compare_fields
same_compare l a b h = rw (==_ne 0 l.fieldcount (omega arith)) refl

pub recmap_compare_key-IsOrderOn :
    {P : Bytes → Type 0} (l : Layout)
    → 0 < l.fieldcount
    → IsOrderOn P (compare_key none)
    → IsOrderOn P (compare_key (some (recmap_compare_key l [])))
recmap_compare_key-IsOrderOn {P} l h o =
    subst (IsOrderOn P) (fun_ext (λ a. fun_ext (λ b. sym (same_compare l a b h)))) o

-- So does an index that has no order of its own.
pub index_compare_key-IsOrderOn :
    {P : Bytes → Type 0} (l : Layout) (fieldv : List ℕ)
    → IsOrderOn P (compare_key none)
    → IsOrderOn P (compare_key (some (index_compare_key l fieldv none)))
unfolding compare_key index_compare_key
index_compare_key-IsOrderOn l fieldv o = o
