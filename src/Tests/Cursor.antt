-- ===== src/Tests/Cursor.antt =====
-- duro/treerec/treecursor.c on a tree of four nodes.
use durodbms.Prelude.{List, [], arith, map, none, refl, some, ℕ, ◌∷◌, ◌≡◌}
use durodbms.TreeRec.Bytes.{Bytes, abs_diff, memcmp}
use durodbms.TreeRec.Cursor.{
  climb_left, climb_right, cursor_first, cursor_next, cursor_prev, deref, leftmost, rightmost,
}
use durodbms.TreeRec.Cursor.Context.{Unique}
use durodbms.TreeRec.Cursor.Walk.{Scans, cursor_first-Scans, cursor_first-entries}
use durodbms.TreeRec.Sorted.{IsSorted, lookup}
use durodbms.TreeRec.Tree.{BinaryTree, Entry, Tree, compare_key, even, node, null, plus}
use durodbms.TreeRec.Tree.Compare.{HasLength, compare_key-IsOrderOn}
use durodbms.TreeRec.Tree.Linked.{IsLinked}
use durodbms.TreeRec.Tree.Refine.{entry_of}
use durodbms.TreeRec.Tree.Search.{IsSearchTree, search}

abbrev entry : ℕ → Entry
entry k = record { key = k ∷ []; value = [] }

abbrev low : Tree
low = node 10 (some 11) even (entry 2) null null

abbrev high : Tree
high = node 12 (some 11) plus (entry 8) null (node 13 (some 12) even (entry 9) null null)

abbrev root : Tree
root = node 11 none plus (entry 5) low high

runs : Unit {0}
unfolding deref leftmost rightmost cursor_first cursor_next cursor_prev climb_left climb_right
runs = tt

backwards : cursor_prev root (some 12) ≡ some 11
unfolding runs
backwards = refl

at_end : cursor_next root (some 13) ≡ none
unfolding runs
at_end = refl

root-Unique : Unique root
root-Unique = (
  ((λ h. omega arith, tt, tt), (λ h. omega arith, tt, (λ h. omega arith, tt, tt))),
  ((λ h. omega arith, tt, (λ h. omega arith, tt, tt)), tt, tt),
  (
    ((tt, tt), tt, (tt, tt)),
    ((tt, (λ h. omega arith, tt, tt)), tt, (tt, ((tt, tt), tt, (tt, tt)))),
  ),
)

root-IsLinked : IsLinked none root
root-IsLinked = (refl, (refl, tt, tt), (refl, tt, (refl, tt, tt)))

cursor_first-Scans_example : Scans root (cursor_first root) (10 ∷ 11 ∷ 12 ∷ 13 ∷ [])
cursor_first-Scans_example = cursor_first-Scans root root-Unique root-IsLinked

abbrev tree : BinaryTree
tree = record { root = root; comparison = none }

tree-IsSearchTree : IsSearchTree (HasLength 1) tree
unfolding compare_key memcmp abs_diff
tree-IsSearchTree = record {
  balanced = omega arith;
  sorted = (
    refl,
    (refl, (refl, (refl, tt))),
    (refl, (refl, (refl, tt)), (refl, (refl, tt), (refl, tt, tt))),
  );
  linked = root-IsLinked;
}

cursor_first-entries_example :
    (xs : List ℕ) × (es : List Entry) × Scans root (cursor_first root) xs
    × (map (λ a. entry_of (deref root a)) xs ≡ map some es)
    × IsSorted (compare_key none) (HasLength 1) es
    × ((k : Bytes) → HasLength 1 k → search tree k ≡ lookup (compare_key none) k es)
cursor_first-entries_example =
    cursor_first-entries tree root-Unique (compare_key-IsOrderOn 1 (omega arith)) tree-IsSearchTree
