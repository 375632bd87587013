-- ===== src/TreeRec/Cursor/Climb.antt =====
-- The climb along the parent pointers in duro/treerec/treecursor.c.
use durodbms.Prelude.{
  ==_ne, ==_refl, Bool, List, Option, [], arith, false, length, none, refl, some, suc, true, zero,
  ℕ, ◌++◌, ◌<◌, ◌∷◌, ◌≡◌,
}
use durodbms.TreeRec.Cursor.{address, climb_left, deref, is_at, left, parent}
use durodbms.TreeRec.Cursor.Context.{
  Apart, Step, Unique, addresses, after, deref-plug, plug, plug-Unique, to_left, to_right,
  up_address,
}
use durodbms.TreeRec.Tree.{Balance, Entry, Tree, node, null}
use durodbms.TreeRec.Tree.Linked.{IsLinked}

plug-IsLinked :
    (ctx : List Step) (t : Tree) → IsLinked none (plug ctx t) → IsLinked (up_address none ctx) t
plug-IsLinked [] t k = k
plug-IsLinked (to_left a p b e r ∷ up) t k = (plug-IsLinked up (node a p b e t r) k).1
plug-IsLinked (to_right a p b e l ∷ up) t k = (plug-IsLinked up (node a p b e l t) k).2

parent_lem :
    (ctx : List Step) (a : ℕ) (p : Option ℕ) (b : Balance) (e : Entry) (l r : Tree)
    → Unique (plug ctx (node a p b e l r))
    → IsLinked none (plug ctx (node a p b e l r))
    → parent (deref (plug ctx (node a p b e l r)) a) ≡ up_address none ctx
parent_lem ctx a p b e l r u k =
    rw (deref-plug ctx a p b e l r u) (plug-IsLinked ctx (node a p b e l r) k).0

not_at :
    (a : ℕ) (t : Tree) (l r : Tree) (p : Option ℕ) (b : Balance) (e : Entry)
    → Apart t (node a p b e l r)
    → is_at (address t) a ≡ false
not_at a null l r p b e h = refl
not_at a (node a' p' b' e' l' r') l r p b e ((f, g, g'), h, h') = ==_ne a' a f

-- The cursor stands in front of the addresses listed, or at the end.
abbrev pub Stands : Tree → Option ℕ → List ℕ → Type 0
Stands root none xs = xs ≡ []
Stands root (some a) xs =
    (ctx : List Step) × (p : Option ℕ) × (b : Balance) × (e : Entry) × (l : Tree) × (r : Tree)
    × (plug ctx (node a p b e l r) ≡ root)
    × (xs ≡ a ∷ (addresses r ++ after ctx))

climb_top :
    (f : ℕ) (root : Tree) (a : ℕ) → parent (deref root a) ≡ none → climb_left (suc f) root a ≡ none
unfolding climb_left
climb_top f root a e = rw (e, climb_left) refl

climb_stop :
    (f : ℕ) (root : Tree) (a p : ℕ)
    → parent (deref root a) ≡ some p
    → is_at (address (left (deref root p))) a ≡ true
    → climb_left (suc f) root a ≡ some p
unfolding climb_left
climb_stop f root a p e k = rw (e, climb_left) (rw k refl)

climb_more :
    (f : ℕ) (root : Tree) (a p : ℕ)
    → parent (deref root a) ≡ some p
    → is_at (address (left (deref root p))) a ≡ false
    → climb_left (suc f) root a ≡ climb_left f root p
unfolding climb_left
climb_more f root a p e k = rw (e, climb_left) (rw k refl)

at_left :
    (root : Tree) (x : ℕ) (t : Tree) (a : ℕ) (v : Bool)
    → deref root x ≡ t
    → is_at (address (left t)) a ≡ v
    → is_at (address (left (deref root x))) a ≡ v
at_left root x t a v e h = rw e h

-- The climb stops at the next node in order.
pub climb_left-Stands :
    (f : ℕ) (ctx : List Step) (a : ℕ) (p : Option ℕ) (b : Balance) (e : Entry) (l r : Tree)
    → Unique (plug ctx (node a p b e l r))
    → IsLinked none (plug ctx (node a p b e l r))
    → length ctx < f
    → Stands
        (plug ctx (node a p b e l r))
        (climb_left f (plug ctx (node a p b e l r)) a)
        (after ctx)
climb_left-Stands zero ctx a p b e l r u k h = absurd (omega arith)
climb_left-Stands (suc f) [] a p b e l r u k h =
    rw (climb_top f (node a p b e l r) a (parent_lem [] a p b e l r u k)) refl
climb_left-Stands (suc f) (to_left a' p' b' e' r' ∷ up) a p b e l r u k h =
    let t = node a p b e l r in
    let above = deref-plug up a' p' b' e' t r' u in
    rw
      (climb_stop f (plug up (node a' p' b' e' t r')) a a'
        (parent_lem (to_left a' p' b' e' r' ∷ up) a p b e l r u k)
        (at_left (plug up (node a' p' b' e' t r')) a' (node a' p' b' e' t r') a true above
          (==_refl a a refl)))
      (up, p', b', e', t, r', refl, refl)
climb_left-Stands (suc f) (to_right a' p' b' e' l' ∷ up) a p b e l r u k h =
    let t = node a p b e l r in
    let above = deref-plug up a' p' b' e' l' t u in
    rw
      (climb_more f (plug up (node a' p' b' e' l' t)) a a'
        (parent_lem (to_right a' p' b' e' l' ∷ up) a p b e l r u k)
        (at_left (plug up (node a' p' b' e' l' t)) a' (node a' p' b' e' l' t) a false above
          (not_at a l' l r p b e (plug-Unique up (node a' p' b' e' l' t) u).1)))
      (climb_left-Stands f up a' p' b' e' l' t u k (omega arith))
