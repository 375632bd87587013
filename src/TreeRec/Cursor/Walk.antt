-- ===== src/TreeRec/Cursor/Walk.antt =====
-- Scans with a cursor of duro/treerec/treecursor.c: `RDB_tree_cursor_first` and then
-- `RDB_tree_cursor_next`.
use durodbms.Prelude.{
  List, Option, [], ap, append-nil, append_assoc, arith, false, get_elem?, length, map, map-append,
  none, refl, some, subst, suc, sym, true, zero, ℕ, ◌++◌, ◌+◌, ◌∙◌, ◌∷◌, ◌≡◌, ◌≤◌,
}
use durodbms.TreeRec.Bytes.{Bytes}
use durodbms.TreeRec.Cursor.{climb_left, count, cursor_first, cursor_next, deref, leftmost, right}
use durodbms.TreeRec.Cursor.Climb.{Stands, climb_left-Stands}
use durodbms.TreeRec.Cursor.Context.{
  Step, Unique, addresses, after, deref-plug, plug, to_left, to_right,
}
use durodbms.TreeRec.Sorted.{IsOrderOn, IsSorted, lookup}
use durodbms.TreeRec.Tree.{Balance, BinaryTree, Entry, Tree, compare_key, is_null, node, null}
use durodbms.TreeRec.Tree.Linked.{IsLinked}
use durodbms.TreeRec.Tree.Refine.{entries, entry_of, find-lookup}
use durodbms.TreeRec.Tree.Search.{IsSearchTree, search}

leftmost-Stands :
    (ctx : List Step) (a : ℕ) (p : Option ℕ) (b : Balance) (e : Entry) (l r : Tree)
    → Stands
        (plug ctx (node a p b e l r))
        (leftmost (node a p b e l r))
        (addresses (node a p b e l r) ++ after ctx)
unfolding leftmost
leftmost-Stands ctx a p b e null r = (ctx, p, b, e, null, r, refl, refl)
leftmost-Stands ctx a p b e (node a1 p1 b1 e1 l1 r1) r =
    let l = node a1 p1 b1 e1 l1 r1 in
    rw (append_assoc (addresses l) (a ∷ addresses r) (after ctx))
      (leftmost-Stands (to_left a p b e r ∷ ctx) a1 p1 b1 e1 l1 r1)

count-plug : (ctx : List Step) (t : Tree) → length ctx + count t ≤ count (plug ctx t)
count-plug [] t = omega arith
count-plug (to_left a p b e r ∷ up) t = omega (arith, count-plug up (node a p b e t r))
count-plug (to_right a p b e l ∷ up) t = omega (arith, count-plug up (node a p b e l t))

next_climbs :
    (root : Tree) (a : ℕ)
    → is_null (right (deref root a)) ≡ true
    → cursor_next root (some a) ≡ climb_left (count root) root a
unfolding cursor_next
next_climbs root a h = rw (h, cursor_next) refl

next_descends :
    (root : Tree) (a : ℕ) (r : Tree)
    → right (deref root a) ≡ r
    → is_null r ≡ false
    → cursor_next root (some a) ≡ leftmost r
unfolding cursor_next
next_descends root a r h k =
    let e : is_null (right (deref root a)) ≡ false = ap is_null h ∙ k in
    rw (e, cursor_next) (ap leftmost h)

next_at :
    (ctx : List Step) (a : ℕ) (p : Option ℕ) (b : Balance) (e : Entry) (l r : Tree)
    → Unique (plug ctx (node a p b e l r))
    → IsLinked none (plug ctx (node a p b e l r))
    → Stands
        (plug ctx (node a p b e l r))
        (cursor_next (plug ctx (node a p b e l r)) (some a))
        (addresses r ++ after ctx)
next_at ctx a p b e l null u k =
    let t = node a p b e l null in
    let root = plug ctx t in
    let none_right : is_null (right (deref root a)) ≡ true =
      rw (deref-plug ctx a p b e l null u) refl in
    rw (next_climbs root a none_right)
      (climb_left-Stands (count root) ctx a p b e l null u k (omega (arith, count-plug ctx t)))
next_at ctx a p b e l (node a1 p1 b1 e1 l1 r1) u k =
    let r = node a1 p1 b1 e1 l1 r1 in
    let root = plug ctx (node a p b e l r) in
    let at_right : right (deref root a) ≡ r = ap right (deref-plug ctx a p b e l r u) in
    rw (next_descends root a r at_right refl)
      (leftmost-Stands (to_right a p b e l ∷ ctx) a1 p1 b1 e1 l1 r1)

-- The visits of a scan: of the node that the cursor stands at, and then from where
-- `RDB_tree_cursor_next` takes it. A scan is over where there is no next node, and only there.
pub data Scans (root : Tree) : Option ℕ → List ℕ → Type 0 where
  over : Scans root none []
  visit :
      {a : ℕ} {xs : List ℕ}
      → Scans root (cursor_next root (some a)) xs
      → Scans root (some a) (a ∷ xs)

-- From a node on, the cursor goes through what follows it in order.
Scans-Stands :
    (root : Tree) (o : Option ℕ) (xs : List ℕ) (n : ℕ)
    → Unique root
    → IsLinked none root
    → length xs ≤ n
    → Stands root o xs
    → Scans root o xs
Scans-Stands root none xs n u k h s = subst (Scans root none) (sym s) over
Scans-Stands root (some a) xs zero u k h (ctx, p, b, e, l, r, same, list) =
    absurd (omega (arith, ap length list))
Scans-Stands root (some a) xs (suc n) u k h (ctx, p, b, e, l, r, same, list) =
    let u' : Unique (plug ctx (node a p b e l r)) = rw same u in
    let k' : IsLinked none (plug ctx (node a p b e l r)) = rw same k in
    let next : Stands root (cursor_next root (some a)) (addresses r ++ after ctx) =
      rw (sym same) (next_at ctx a p b e l r u' k') in
    subst (Scans root (some a)) (sym list) (
      visit (
        Scans-Stands root (cursor_next root (some a)) (addresses r ++ after ctx) n u k
          (omega (arith, ap length list)) next))

first-Stands : (root : Tree) → Stands root (cursor_first root) (addresses root)
unfolding cursor_first leftmost
first-Stands null = refl
first-Stands (node a p b e l r) =
    subst (Stands (node a p b e l r) (leftmost (node a p b e l r)))
      (append-nil (addresses (node a p b e l r))) (leftmost-Stands [] a p b e l r)

-- In a tree whose nodes have different addresses and right parent pointers, the scan that starts
-- with `RDB_tree_cursor_first` and goes on with `RDB_tree_cursor_next` comes to its end, and has
-- then visited every node once, in the order of the tree.
pub cursor_first-Scans :
    (root : Tree)
    → Unique root
    → IsLinked none root
    → Scans root (cursor_first root) (addresses root)
cursor_first-Scans root u k =
    Scans-Stands root (cursor_first root) (addresses root) (length (addresses root)) u k
      (omega arith) (first-Stands root)

-- From the node at an address, `RDB_tree_cursor_next` moves to the node that follows it in the
-- order of the tree, or to the end where no node does. The tree is as in `cursor_first-Scans`.
pub cursor_next-after :
    (ctx : List Step) (a : ℕ) (p : Option ℕ) (b : Balance) (e : Entry) (l r : Tree)
    → Unique (plug ctx (node a p b e l r))
    → IsLinked none (plug ctx (node a p b e l r))
    → cursor_next (plug ctx (node a p b e l r)) (some a) ≡ get_elem? (addresses r ++ after ctx) 0
cursor_next-after ctx a p b e l r u k =
    Stands-head (plug ctx (node a p b e l r)) (cursor_next (plug ctx (node a p b e l r)) (some a))
      (addresses r ++ after ctx) (next_at ctx a p b e l r u k)
  where
    Stands-head : (root : Tree) (o : Option ℕ) (xs : List ℕ) → Stands root o xs → o ≡ get_elem? xs 0
    Stands-head root none xs s = rw s refl
    Stands-head root (some x) xs (ctx, p, b, e, l, r, same, list) = rw list refl

read_subtree :
    (ctx : List Step) (t : Tree)
    → Unique (plug ctx t)
    → map (λ a. entry_of (deref (plug ctx t) a)) (addresses t) ≡ map some (entries t)
read_subtree ctx null u = refl
read_subtree ctx (node a p b e l r) u =
    let root = plug ctx (node a p b e l r) in
    let at = λ (x : ℕ). entry_of (deref root x) in
    rw (map-append at (addresses l) (a ∷ addresses r)) (
      rw (map-append some (entries l) (e ∷ entries r)) (
        rw (read_subtree (to_left a p b e r ∷ ctx) l u) (
          rw (read_subtree (to_right a p b e l ∷ ctx) r u)
            (rw (deref-plug ctx a p b e l r u) refl))))

-- In a search tree whose nodes have different addresses, the scan with `RDB_tree_cursor_first` and
-- `RDB_tree_cursor_next` comes to its end. At each node visited there is an entry, these entries are
-- sorted by key, and a search of the tree finds under a key what the list of them holds.
pub cursor_first-entries :
    {P : Bytes → Type 0} (t : BinaryTree)
    → Unique t.root
    → IsOrderOn P (compare_key t.comparison)
    → IsSearchTree P t
    → (xs : List ℕ) × (es : List Entry) × Scans t.root (cursor_first t.root) xs
      × (map (λ a. entry_of (deref t.root a)) xs ≡ map some es)
      × IsSorted (compare_key t.comparison) P es
      × ((k : Bytes) → P k → search t k ≡ lookup (compare_key t.comparison) k es)
cursor_first-entries {P} t u o v = (
  addresses t.root,
  entries t.root,
  cursor_first-Scans t.root u v.linked,
  read_subtree [] t.root u,
  v.sorted,
  λ k pk. find-lookup t.comparison o t.root k pk v.sorted,
)
