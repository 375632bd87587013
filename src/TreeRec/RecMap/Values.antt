-- ===== src/TreeRec/RecMap/Values.antt =====
-- A tree of duro/treerec/tree.c in which the value of one node is rewritten where it stands.
use durodbms.Prelude.{
  All, Bool-cases, List, Option, Ordering-cases, [], ap, ap₂, eq, gt, if◌then◌else◌, inl, inr, lt,
  none, refl, some, sym, ℕ, ◌++◌, ◌==◌, ◌∙◌, ◌∷◌, ◌≡◌,
}
use durodbms.TreeRec.Bytes.{Bytes}
use durodbms.TreeRec.RecMap.Operations.{set_value}
use durodbms.TreeRec.Sorted.{IsSorted}
use durodbms.TreeRec.Tree.{
  Balance, BinaryTree, Comparison, Entry, Tree, compare_key, find, node, null,
}
use durodbms.TreeRec.Tree.Height.{IsBalanced, height}
use durodbms.TreeRec.Tree.Linked.{IsLinked}
use durodbms.TreeRec.Tree.Refine.{entries}
use durodbms.TreeRec.Tree.Search.{IsSearchTree}

-- The entry of the node at `a'`, when the value at `a` is rewritten.
abbrev pub rewritten : ℕ → Bytes → ℕ → Entry → Entry
rewritten a v a' e = if a' == a then record e { value = v } else e

rewritten_key : (a : ℕ) (v : Bytes) (a' : ℕ) (e : Entry) → (rewritten a v a' e).key ≡ e.key
rewritten_key a v a' e = elim (Bool-cases (a' == a)) [
  | inl h ↦ rw (h, rewritten) refl
  | inr h ↦ rw (h, rewritten) refl
]

module _ (c : Option Comparison) (a : ℕ) (p : Option ℕ) (b : Balance) (e : Entry) (l r : Tree)
    (k : Bytes) where
  find_below : compare_key c k e.key ≡ lt → find c (node a p b e l r) k ≡ find c l k
  unfolding find
  find_below h = rw (h, find) refl

  find_here : compare_key c k e.key ≡ eq → find c (node a p b e l r) k ≡ node a p b e l r
  unfolding find
  find_here h = rw (h, find) refl

  find_above : compare_key c k e.key ≡ gt → find c (node a p b e l r) k ≡ find c r k
  unfolding find
  find_above h = rw (h, find) refl

pub find-set_value :
    (c : Option Comparison) (a : ℕ) (v : Bytes) (t : Tree) (k : Bytes)
    → find c (set_value a v t) k ≡ set_value a v (find c t k)
unfolding find
find-set_value c a v null k = refl
find-set_value c a v (node a' p b e l r) k =
    let e' = rewritten a v a' e in
    let l' = set_value a v l in
    let r' = set_value a v r in
    let same : compare_key c k e'.key ≡ compare_key c k e.key =
      ap (compare_key c k) (rewritten_key a v a' e) in
    elim (Ordering-cases (compare_key c k e.key)) [
      | inl h ↦
          find_below c a' p b e' l' r' k (same ∙ h)
          ∙ find-set_value c a v l k
          ∙ ap (set_value a v) (sym (find_below c a' p b e l r k h))
      | inr (inl h) ↦
          find_here c a' p b e' l' r' k (same ∙ h)
          ∙ ap (set_value a v) (sym (find_here c a' p b e l r k h))
      | inr (inr h) ↦
          find_above c a' p b e' l' r' k (same ∙ h)
          ∙ find-set_value c a v r k
          ∙ ap (set_value a v) (sym (find_above c a' p b e l r k h))
    ]

height-set_value : (a : ℕ) (v : Bytes) (t : Tree) → height (set_value a v t) ≡ height t
height-set_value a v null = refl
height-set_value a v (node a' p b e l r) =
    rw (height-set_value a v l) (rw (height-set_value a v r) refl)

set_value-IsBalanced : (a : ℕ) (v : Bytes) (t : Tree) → IsBalanced t → IsBalanced (set_value a v t)
set_value-IsBalanced a v null h = tt
set_value-IsBalanced a v (node a' p b e l r) (h, hl, hr) = (
  rw (height-set_value a v l) (rw (height-set_value a v r) h),
  set_value-IsBalanced a v l hl,
  set_value-IsBalanced a v r hr,
)

set_value-IsLinked :
    (a : ℕ) (v : Bytes) (q : Option ℕ) (t : Tree) → IsLinked q t → IsLinked q (set_value a v t)
set_value-IsLinked a v q null h = tt
set_value-IsLinked a v q (node a' p b e l r) (h, hl, hr) =
    (h, set_value-IsLinked a v (some a') l hl, set_value-IsLinked a v (some a') r hr)

-- Two lists of entries with the same keys.
abbrev SameKeys : List Entry → List Entry → Type 0
SameKeys [] [] = Unit
SameKeys [] (e ∷ es) = ⊥
SameKeys (e ∷ es) [] = ⊥
SameKeys (e ∷ es) (e' ∷ es') = (e'.key ≡ e.key) × SameKeys es es'

SameKeys-append :
    (xs ys xs' ys' : List Entry)
    → SameKeys xs xs'
    → SameKeys ys ys'
    → SameKeys (xs ++ ys) (xs' ++ ys')
SameKeys-append [] ys [] ys' h k = k
SameKeys-append [] ys (x ∷ xs') ys' h k = absurd h
SameKeys-append (x ∷ xs) ys [] ys' h k = absurd h
SameKeys-append (x ∷ xs) ys (x' ∷ xs') ys' (h, hs) k = (h, SameKeys-append xs ys xs' ys' hs k)

set_value-SameKeys :
    (a : ℕ) (v : Bytes) (t : Tree) → SameKeys (entries t) (entries (set_value a v t))
set_value-SameKeys a v null = tt
set_value-SameKeys a v (node a' p b e l r) =
    SameKeys-append (entries l) (e ∷ entries r) (entries (set_value a v l))
      (rewritten a v a' e ∷ entries (set_value a v r)) (set_value-SameKeys a v l)
      (rewritten_key a v a' e, set_value-SameKeys a v r)

All-imp_keys :
    (cmp : Comparison) (q q' : Bytes) (es es' : List Entry)
    → q' ≡ q
    → SameKeys es es'
    → All (λ x. cmp q x.key ≡ lt) es
    → All (λ x. cmp q' x.key ≡ lt) es'
All-imp_keys cmp q q' [] [] h k a = tt
All-imp_keys cmp q q' [] (e ∷ es') h k a = absurd k
All-imp_keys cmp q q' (e ∷ es) [] h k a = absurd k
All-imp_keys cmp q q' (e ∷ es) (e' ∷ es') h (k, ks) (a, as') =
    (ap₂ cmp h k ∙ a, All-imp_keys cmp q q' es es' h ks as')

SameKeys-IsSorted :
    (cmp : Comparison) (P : Bytes → Type 0) (es es' : List Entry)
    → SameKeys es es'
    → IsSorted cmp P es
    → IsSorted cmp P es'
SameKeys-IsSorted cmp P [] [] k s = tt
SameKeys-IsSorted cmp P [] (e ∷ es') k s = absurd k
SameKeys-IsSorted cmp P (e ∷ es) [] k s = absurd k
SameKeys-IsSorted cmp P (e ∷ es) (e' ∷ es') (k, ks) (p, a, s) =
    (rw k p, All-imp_keys cmp e.key e'.key es es' k ks a, SameKeys-IsSorted cmp P es es' ks s)

pub set_value-IsSearchTree :
    (P : Bytes → Type 0) (a : ℕ) (v : Bytes) (t : BinaryTree)
    → IsSearchTree P t
    → IsSearchTree P (record t { root = set_value a v t.root })
set_value-IsSearchTree P a v t s = record {
  balanced = set_value-IsBalanced a v t.root s.balanced;
  sorted =
      SameKeys-IsSorted (compare_key t.comparison) P (entries t.root)
        (entries (set_value a v t.root)) (set_value-SameKeys a v t.root) s.sorted;
  linked = set_value-IsLinked a v none t.root s.linked;
}
