-- ===== src/TreeRec/Tree/Height.antt =====
-- Heights and balance fields of duro/treerec/tree.c: the AVL invariant.
use Prim.Native.Nat.{max}
use durodbms.Prelude.{ℕ, suc, ◌+◌, ◌≡◌, refl, Option, some, Bool, true, false, arith, Returns}
use durodbms.TreeRec.Tree.{
  Balance, minus, even, plus, Entry, Tree, null, node, set_parent, outer_balance, inner_balance,
  insert_balance_l, insert_balance_r, avl_balance_l, avl_balance_r,
}

abbrev pub height : Tree → ℕ
height null = 0
height (node a p b e l r) = suc (max (height l) (height r))

-- The balance field of a node over subtrees of these heights.
abbrev pub Fits : Balance → ℕ → ℕ → Type 0
Fits minus m n = m ≡ suc n
Fits even m n = m ≡ n
Fits plus m n = n ≡ suc m

abbrev pub IsBalanced : Tree → Type 0
IsBalanced null = Unit
IsBalanced (node a p b e l r) = Fits b (height l) (height r) × IsBalanced l × IsBalanced r

abbrev pub to_nat : Bool → ℕ
to_nat true = 1
to_nat false = 0

-- A subtree that an insertion has grown is a single node or leans to a side.
abbrev pub Tilts : Bool → Tree → Type 0
Tilts false t = Unit
Tilts true null = ⊥
Tilts true (node a p even e l r) = (height l ≡ 0) × (height r ≡ 0)
Tilts true (node a p b e l r) = Unit

pub height-set_parent : (p : Option ℕ) (t : Tree) → height (set_parent p t) ≡ height t
height-set_parent p null = refl
height-set_parent p (node a q b e l r) = refl

pub set_parent-IsBalanced : (p : Option ℕ) (t : Tree) → IsBalanced t → IsBalanced (set_parent p t)
set_parent-IsBalanced p null h = h
set_parent-IsBalanced p (node a q b e l r) h = h

-- What a rebalancing owes after an insertion: `n` is the height before it.
abbrev pub Grown : ℕ → Tree × Bool → Type 0
Grown n (t, h) = IsBalanced t × (height t ≡ n + to_nat h) × Tilts h t

double-Fits :
    (b : Balance) (x y m : ℕ)
    → Fits b x y
    → m ≡ max x y
    → Fits (inner_balance b) m x × Fits (outer_balance b) y m
unfolding inner_balance outer_balance
double-Fits minus x y m f g = (omega arith, omega arith)
double-Fits even x y m f g = (omega arith, omega arith)
double-Fits plus x y m f g = (omega arith, omega arith)

-- Both double rotations build this tree, over four subtrees.
abbrev joined :
    Option ℕ → ℕ → ℕ → ℕ → Balance → Entry → Entry → Entry → Tree → Tree → Tree → Tree → Tree
joined q a2 a1 a b e2 e1 e t x y u =
    node a2 q even e2 (node a1 (some a2) (inner_balance b) e1 t (set_parent (some a1) x))
      (node a (some a2) (outer_balance b) e (set_parent (some a) y) u)

joined-IsBalanced :
    (q : Option ℕ) (a2 a1 a : ℕ) (b : Balance) (e2 e1 e : Entry) (t x y u : Tree) (m : ℕ)
    → Fits b (height x) (height y)
    → m ≡ max (height x) (height y)
    → height t ≡ m
    → height u ≡ m
    → IsBalanced t × IsBalanced x × IsBalanced y × IsBalanced u
    → IsBalanced (joined q a2 a1 a b e2 e1 e t x y u)
      × (height (joined q a2 a1 a b e2 e1 e t x y u) ≡ suc (suc m))
joined-IsBalanced q a2 a1 a b e2 e1 e t x y u m f g ht hu (bt, bx, by, bu) =
    let (fi, fo) = double-Fits b (height x) (height y) m f g in
    rw (height-set_parent, height-set_parent, ht, hu)
      (
        (
          omega arith,
          (fi, bt, set_parent-IsBalanced (some a1) x bx),
          (fo, set_parent-IsBalanced (some a) y by, bu),
        ),
        omega arith,
      )

-- After an insertion into the left subtree, of height `n` before, has grown it.
pub insert_balance_l-Grown :
    (q : Option ℕ) (a : ℕ) (p : Option ℕ) (b : Balance) (e : Entry) (l r : Tree) (n : ℕ)
    → Fits b n (height r)
    → height l ≡ suc n
    → IsBalanced l
    → IsBalanced r
    → Tilts true l
    → Returns (insert_balance_l q (node a p b e l r)) (Grown (suc (max n (height r))))
unfolding insert_balance_l
insert_balance_l-Grown q a p plus e l r n f g bl br t =
    (_, refl, ((omega arith, bl, br), omega arith, tt))
insert_balance_l-Grown q a p even e l r n f g bl br t =
    (_, refl, ((omega arith, bl, br), omega arith, tt))
insert_balance_l-Grown q a p minus e null r n f g bl br t = absurd t
insert_balance_l-Grown q a p minus e (node a1 p1 minus e1 l1 r1) r n f g bl br t =
    let s = height-set_parent (some a) r1 in
    let (fl, bl1, br1) = bl in
    (
      _,
      refl,
      (
        (omega arith, bl1, (omega arith, set_parent-IsBalanced (some a) r1 br1, br)),
        omega arith,
        tt,
      ),
    )
insert_balance_l-Grown q a p minus e (node a1 p1 even e1 l1 r1) r n f g bl br t =
    absurd (omega arith)
insert_balance_l-Grown q a p minus e (node a1 p1 plus e1 l1 null) r n f g bl br t =
    absurd (omega arith)
insert_balance_l-Grown q a p minus e (node a1 p1 plus e1 l1 (node a2 p2 b2 e2 l2 r2)) r n f g bl br
      t =
    let (fl, bl1, (f2, bl2, br2)) = bl in
    let (bal, tall) =
      joined-IsBalanced q a2 a1 a b2 e2 e1 e l1 l2 r2 r (height r) f2 (omega arith) (omega arith)
        refl (bl1, bl2, br2, br) in
    (_, refl, (bal, omega arith, tt))

pub insert_balance_r-Grown :
    (q : Option ℕ) (a : ℕ) (p : Option ℕ) (b : Balance) (e : Entry) (l r : Tree) (n : ℕ)
    → Fits b (height l) n
    → height r ≡ suc n
    → IsBalanced l
    → IsBalanced r
    → Tilts true r
    → Returns (insert_balance_r q (node a p b e l r)) (Grown (suc (max (height l) n)))
unfolding insert_balance_r
insert_balance_r-Grown q a p minus e l r n f g bl br t =
    (_, refl, ((omega arith, bl, br), omega arith, tt))
insert_balance_r-Grown q a p even e l r n f g bl br t =
    (_, refl, ((omega arith, bl, br), omega arith, tt))
insert_balance_r-Grown q a p plus e l null n f g bl br t = absurd t
insert_balance_r-Grown q a p plus e l (node a1 p1 plus e1 l1 r1) n f g bl br t =
    let s = height-set_parent (some a) l1 in
    let (fr, bl1, br1) = br in
    (
      _,
      refl,
      (
        (omega arith, (omega arith, bl, set_parent-IsBalanced (some a) l1 bl1), br1),
        omega arith,
        tt,
      ),
    )
insert_balance_r-Grown q a p plus e l (node a1 p1 even e1 l1 r1) n f g bl br t =
    absurd (omega arith)
insert_balance_r-Grown q a p plus e l (node a1 p1 minus e1 null r1) n f g bl br t =
    absurd (omega arith)
insert_balance_r-Grown q a p plus e l (node a1 p1 minus e1 (node a2 p2 b2 e2 l2 r2) r1) n f g bl br
      t =
    let (fr, (f2, bl2, br2), br1) = br in
    let (bal, tall) =
      joined-IsBalanced q a2 a a1 b2 e2 e e1 l l2 r2 r1 (height l) f2 (omega arith) refl
        (omega arith) (bl, bl2, br2, br1) in
    (_, refl, (bal, omega arith, tt))

-- What a rebalancing owes after a deletion: `n` is the height before it.
abbrev pub Shrunk : ℕ → Tree × Bool → Type 0
Shrunk n (t, h) = IsBalanced t × (height t + to_nat h ≡ n)

-- After a deletion from the left subtree, of height `n` before, has shrunk it.
pub avl_balance_l-Shrunk :
    (a : ℕ) (p : Option ℕ) (b : Balance) (e : Entry) (l r : Tree) (n : ℕ)
    → Fits b n (height r)
    → suc (height l) ≡ n
    → IsBalanced l
    → IsBalanced r
    → Returns (avl_balance_l (node a p b e l r)) (Shrunk (suc (max n (height r))))
unfolding avl_balance_l
avl_balance_l-Shrunk a p minus e l r n f g bl br = (_, refl, ((omega arith, bl, br), omega arith))
avl_balance_l-Shrunk a p even e l r n f g bl br = (_, refl, ((omega arith, bl, br), omega arith))
avl_balance_l-Shrunk a p plus e l null n f g bl br = absurd (omega arith)
avl_balance_l-Shrunk a p plus e l (node a1 p1 even e1 l1 r1) n f g bl br =
    let s = height-set_parent (some a) l1 in
    let (fr, bl1, br1) = br in
    (
      _,
      refl,
      ((omega arith, (omega arith, bl, set_parent-IsBalanced (some a) l1 bl1), br1), omega arith),
    )
avl_balance_l-Shrunk a p plus e l (node a1 p1 plus e1 l1 r1) n f g bl br =
    let s = height-set_parent (some a) l1 in
    let (fr, bl1, br1) = br in
    (
      _,
      refl,
      ((omega arith, (omega arith, bl, set_parent-IsBalanced (some a) l1 bl1), br1), omega arith),
    )
avl_balance_l-Shrunk a p plus e l (node a1 p1 minus e1 null r1) n f g bl br = absurd (omega arith)
avl_balance_l-Shrunk a p plus e l (node a1 p1 minus e1 (node a2 p2 b2 e2 l2 r2) r1) n f g bl br =
    let (fr, (f2, bl2, br2), br1) = br in
    let (bal, tall) =
      joined-IsBalanced p a2 a a1 b2 e2 e e1 l l2 r2 r1 (height l) f2 (omega arith) refl
        (omega arith) (bl, bl2, br2, br1) in
    (_, refl, (bal, omega arith))

pub avl_balance_r-Shrunk :
    (a : ℕ) (p : Option ℕ) (b : Balance) (e : Entry) (l r : Tree) (n : ℕ)
    → Fits b (height l) n
    → suc (height r) ≡ n
    → IsBalanced l
    → IsBalanced r
    → Returns (avl_balance_r (node a p b e l r)) (Shrunk (suc (max (height l) n)))
unfolding avl_balance_r
avl_balance_r-Shrunk a p plus e l r n f g bl br = (_, refl, ((omega arith, bl, br), omega arith))
avl_balance_r-Shrunk a p even e l r n f g bl br = (_, refl, ((omega arith, bl, br), omega arith))
avl_balance_r-Shrunk a p minus e null r n f g bl br = absurd (omega arith)
avl_balance_r-Shrunk a p minus e (node a1 p1 even e1 l1 r1) r n f g bl br =
    let s = height-set_parent (some a) r1 in
    let (fl, bl1, br1) = bl in
    (
      _,
      refl,
      ((omega arith, bl1, (omega arith, set_parent-IsBalanced (some a) r1 br1, br)), omega arith),
    )
avl_balance_r-Shrunk a p minus e (node a1 p1 minus e1 l1 r1) r n f g bl br =
    let s = height-set_parent (some a) r1 in
    let (fl, bl1, br1) = bl in
    (
      _,
      refl,
      ((omega arith, bl1, (omega arith, set_parent-IsBalanced (some a) r1 br1, br)), omega arith),
    )
avl_balance_r-Shrunk a p minus e (node a1 p1 plus e1 l1 null) r n f g bl br = absurd (omega arith)
avl_balance_r-Shrunk a p minus e (node a1 p1 plus e1 l1 (node a2 p2 b2 e2 l2 r2)) r n f g bl br =
    let (fl, bl1, (f2, bl2, br2)) = bl in
    let (bal, tall) =
      joined-IsBalanced p a2 a1 a b2 e2 e1 e l1 l2 r2 r (height r) f2 (omega arith) (omega arith)
        refl (bl1, bl2, br2, br) in
    (_, refl, (bal, omega arith))
