-- ===== src/TreeRec/Tree.antt =====
-- The AVL tree of duro/treerec/tree.c. A node is its address, its parent pointer, its balance,
-- its key and value, and its two subtrees; a write through `RDB_tree_node **nodepp` is the
-- returned tree. Freed memory leaves no trace. The allocator is an argument: the address of the
-- node that `RDB_alloc` returns, or none.

pub mod Height
pub mod Avl
pub mod Inorder
pub mod Linked
pub mod Refine
pub mod Search
pub mod Compare
use durodbms.Prelude.{ℕ, zero, suc, ◌+◌, ◌≡◌, Option, none, some, Bool, true, false, ◌&&◌}
use durodbms.Prelude.{Ordering, lt, eq, gt, length, ltb, if◌then◌else◌}
use durodbms.Prelude.{
  Error, Result, ok, err, key_violation, not_found, no_memory, null_pointer, ◌>>=◌,
}
use durodbms.TreeRec.Bytes.{Bytes, lex, memcmp, abs_diff}

-- The values -1, 0 and 1 of the field `balance`.
pub data Balance : Type 0 where
  minus even plus : Balance

pub record Entry : Type 0 where
  pub key : Bytes
  pub value : Bytes

-- `RDB_tree_node *`: address, parent, balance, entry, left, right.
pub data Tree : Type 0 where
  null : Tree
  node : ℕ → Option ℕ → Balance → Entry → Tree → Tree → Tree

abbrev pub Comparison : Type 0
Comparison = Bytes → Bytes → Ordering

pub record BinaryTree : Type 0 where
  pub root : Tree
  pub comparison : Option Comparison

unfoldable pub compare_key : Option Comparison → Bytes → Bytes → Ordering
unfolding memcmp abs_diff
compare_key c key nkey =
    if ltb 0 (length key) && ltb 0 (length nkey)
    then elim c [
      | some f ↦ f key nkey
      | none ↦ lex (memcmp key nkey) (abs_diff (length key) (length nkey))
    ]
    else abs_diff (length key) (length nkey)

unfoldable pub create_tree : Option Comparison → BinaryTree
create_tree c = record { root = null; comparison = c }

unfoldable pub find : Option Comparison → Tree → Bytes → Tree
find c null key = null
find c (node a p b e l r) key = elim (compare_key c key e.key) [
  | eq ↦ node a p b e l r
  | lt ↦ find c l key
  | gt ↦ find c r key
]

unfoldable pub create_node : Option ℕ → Option ℕ → Entry → Result Tree
create_node none parent e = err no_memory
create_node (some a) parent e = ok (node a parent even e null null)

-- `if (t != NULL) t->parent = p`
abbrev pub set_parent : Option ℕ → Tree → Tree
set_parent p null = null
set_parent p (node a q b e l r) = node a p b e l r

-- The outer and the inner node of a double rotation.
unfoldable pub outer_balance : Balance → Balance
outer_balance minus = plus
outer_balance _ = even

unfoldable pub inner_balance : Balance → Balance
inner_balance plus = minus
inner_balance _ = even

-- The `switch` after an insertion into the left subtree that grew it, in a node whose parent
-- is `q`.
unfoldable pub insert_balance_l : Option ℕ → Tree → Result (Tree × Bool)
unfolding outer_balance inner_balance
insert_balance_l q null = err null_pointer
insert_balance_l q (node a p plus e l r) = ok (node a p even e l r, false)
insert_balance_l q (node a p even e l r) = ok (node a p minus e l r, true)
insert_balance_l q (node a p minus e null r) = err null_pointer
insert_balance_l q (node a p minus e (node a1 p1 minus e1 l1 r1) r) =
    ok (node a1 q even e1 l1 (node a (some a1) even e (set_parent (some a) r1) r), false)
insert_balance_l q (node a p minus e (node a1 p1 b1 e1 l1 null) r) = err null_pointer
insert_balance_l q (node a p minus e (node a1 p1 b1 e1 l1 (node a2 p2 b2 e2 l2 r2)) r) = ok (
  node a2 q even e2 (node a1 (some a2) (inner_balance b2) e1 l1 (set_parent (some a1) l2))
      (node a (some a2) (outer_balance b2) e (set_parent (some a) r2) r),
  false,
)

unfoldable pub insert_balance_r : Option ℕ → Tree → Result (Tree × Bool)
unfolding outer_balance inner_balance
insert_balance_r q null = err null_pointer
insert_balance_r q (node a p minus e l r) = ok (node a p even e l r, false)
insert_balance_r q (node a p even e l r) = ok (node a p plus e l r, true)
insert_balance_r q (node a p plus e l null) = err null_pointer
insert_balance_r q (node a p plus e l (node a1 p1 plus e1 l1 r1)) =
    ok (node a1 q even e1 (node a (some a1) even e l (set_parent (some a) l1)) r1, false)
insert_balance_r q (node a p plus e l (node a1 p1 b1 e1 null r1)) = err null_pointer
insert_balance_r q (node a p plus e l (node a1 p1 b1 e1 (node a2 p2 b2 e2 l2 r2) r1)) = ok (
  node a2 q even e2 (node a (some a2) (inner_balance b2) e l (set_parent (some a) l2))
      (node a1 (some a2) (outer_balance b2) e1 (set_parent (some a1) r2) r1),
  false,
)

-- The result is `*nodepp` and `*hp`, "the height has grown".
unfoldable pub avl_tree_insert :
    Option Comparison → Option ℕ → Tree → Option ℕ → Entry → Result (Tree × Bool)
avl_tree_insert c alloc null parent new = do t ← create_node alloc parent new; ok (t, true)
avl_tree_insert c alloc (node a p b e l r) parent new = elim (compare_key c new.key e.key) [
  | eq ↦ err key_violation
  | lt ↦ do
    (l', h) ← avl_tree_insert c alloc l (some a) new
    if h then insert_balance_l parent (node a p b e l' r) else ok (node a p b e l' r, false)
  | gt ↦ do
    (r', h) ← avl_tree_insert c alloc r (some a) new
    if h then insert_balance_r parent (node a p b e l r') else ok (node a p b e l r', false)
]

unfoldable pub tree_insert : Option ℕ → BinaryTree → Entry → Result BinaryTree
tree_insert alloc t new = do
  (root', h) ← avl_tree_insert t.comparison alloc t.root none new
  ok (record t { root = root' })

-- The left subtree has shrunk. The second result is `*hp`, "the height has shrunk".
unfoldable pub avl_balance_l : Tree → Result (Tree × Bool)
unfolding outer_balance inner_balance
avl_balance_l null = err null_pointer
avl_balance_l (node a p minus e l r) = ok (node a p even e l r, true)
avl_balance_l (node a p even e l r) = ok (node a p plus e l r, false)
avl_balance_l (node a p plus e l null) = err null_pointer
avl_balance_l (node a p plus e l (node a1 p1 even e1 l1 r1)) =
    ok (node a1 p minus e1 (node a (some a1) plus e l (set_parent (some a) l1)) r1, false)
avl_balance_l (node a p plus e l (node a1 p1 plus e1 l1 r1)) =
    ok (node a1 p even e1 (node a (some a1) even e l (set_parent (some a) l1)) r1, true)
avl_balance_l (node a p plus e l (node a1 p1 minus e1 null r1)) = err null_pointer
avl_balance_l (node a p plus e l (node a1 p1 minus e1 (node a2 p2 b2 e2 l2 r2) r1)) = ok (
  node a2 p even e2 (node a (some a2) (inner_balance b2) e l (set_parent (some a) l2))
      (node a1 (some a2) (outer_balance b2) e1 (set_parent (some a1) r2) r1),
  true,
)

unfoldable pub avl_balance_r : Tree → Result (Tree × Bool)
unfolding outer_balance inner_balance
avl_balance_r null = err null_pointer
avl_balance_r (node a p plus e l r) = ok (node a p even e l r, true)
avl_balance_r (node a p even e l r) = ok (node a p minus e l r, false)
avl_balance_r (node a p minus e null r) = err null_pointer
avl_balance_r (node a p minus e (node a1 p1 even e1 l1 r1) r) =
    ok (node a1 p plus e1 l1 (node a (some a1) minus e (set_parent (some a) r1) r), false)
avl_balance_r (node a p minus e (node a1 p1 minus e1 l1 r1) r) =
    ok (node a1 p even e1 l1 (node a (some a1) even e (set_parent (some a) r1) r), true)
avl_balance_r (node a p minus e (node a1 p1 plus e1 l1 null) r) = err null_pointer
avl_balance_r (node a p minus e (node a1 p1 plus e1 l1 (node a2 p2 b2 e2 l2 r2)) r) = ok (
  node a2 p even e2 (node a1 (some a2) (inner_balance b2) e1 l1 (set_parent (some a1) l2))
      (node a (some a2) (outer_balance b2) e (set_parent (some a) r2) r),
  true,
)

abbrev pub is_null : Tree → Bool
is_null null = true
is_null (node a p b e l r) = false

-- Unlinks the rightmost node. Its entry, which the code moves into `*delnodepp`, is the first
-- result.
unfoldable pub del_rightmost : Tree → Result (Entry × Tree × Bool)
del_rightmost null = err null_pointer
del_rightmost (node a p b e l r) = elim (is_null r) [
  | true ↦ ok (e, set_parent p l, true)
  | false ↦ do
    (m, r', h) ← del_rightmost r
    (t, h') ← if h then avl_balance_r (node a p b e l r') else ok (node a p b e l r', false)
    ok (m, t, h')
]

-- The branch for the node itself. With two subtrees the node keeps its address and takes the
-- entry of its predecessor. The writes of `parent` after the branch repeat those of
-- `del_rightmost` there.
unfoldable pub delete_here : Tree → Result (Tree × Bool)
delete_here null = err null_pointer
delete_here (node a p b e l r) =
    if is_null r
    then ok (set_parent p l, true)
    else if is_null l
    then ok (set_parent p r, true)
    else do
      (m, l', h) ← del_rightmost l
      if h then avl_balance_l (node a p b m l' r) else ok (node a p b m l' r, false)

unfoldable pub avl_delete_node : Option Comparison → Tree → Bytes → Result (Tree × Bool)
unfolding delete_here
avl_delete_node c null key = err not_found
avl_delete_node c (node a p b e l r) key = elim (compare_key c key e.key) [
  | lt ↦ do
    (l', h) ← avl_delete_node c l key
    if h then avl_balance_l (node a p b e l' r) else ok (node a p b e l' r, false)
  | gt ↦ do
    (r', h) ← avl_delete_node c r key
    if h then avl_balance_r (node a p b e l r') else ok (node a p b e l r', false)
  | eq ↦ delete_here (node a p b e l r)
]

unfoldable pub tree_delete_node : BinaryTree → Bytes → Result BinaryTree
tree_delete_node t key = do
  (root', h) ← avl_delete_node t.comparison t.root key
  ok (record t { root = root' })
