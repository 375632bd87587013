-- ===== src/TreeRec/Cursor/Context.antt =====
-- A node in its surroundings, for duro/treerec/treecursor.c, and reads through its address.
use durodbms.Prelude.{
  ==_ne, ==_refl, List, Option, [], false, refl, some, ℕ, ◌++◌, ◌∙◌, ◌∷◌, ◌≡◌, ◌≢◌,
}
use durodbms.TreeRec.Cursor.{deref}
use durodbms.TreeRec.Tree.{Balance, Entry, Tree, is_null, node, null}

-- A step from a node to one of its subtrees: the node without that subtree.
pub data Step : Type 0 where
  to_left to_right : ℕ → Option ℕ → Balance → Entry → Tree → Step

abbrev pub wrap : Step → Tree → Tree
wrap (to_left a p b e r) t = node a p b e t r
wrap (to_right a p b e l) t = node a p b e l t

-- The steps are listed from the subtree up.
abbrev pub plug : List Step → Tree → Tree
plug [] t = t
plug (s ∷ up) t = plug up (wrap s t)

abbrev pub addresses : Tree → List ℕ
addresses null = []
addresses (node a p b e l r) = addresses l ++ (a ∷ addresses r)

-- The addresses that follow in order.
abbrev pub after : List Step → List ℕ
after [] = []
after (to_left a p b e r ∷ up) = a ∷ (addresses r ++ after up)
after (to_right a p b e l ∷ up) = after up

abbrev pub step_address : Step → ℕ
step_address (to_left a p b e r) = a
step_address (to_right a p b e l) = a

abbrev pub up_address : Option ℕ → List Step → Option ℕ
up_address q [] = q
up_address q (s ∷ up) = some (step_address s)

-- The address does not occur in the tree, none of one tree's occur in another, and none occurs
-- twice.
abbrev pub Fresh : ℕ → Tree → Type 0
Fresh a null = Unit
Fresh a (node a' p b e l r) = (a ≢ a') × Fresh a l × Fresh a r

abbrev pub Apart : Tree → Tree → Type 0
Apart null t = Unit
Apart (node a p b e l r) t = Fresh a t × Apart l t × Apart r t

abbrev pub Unique : Tree → Type 0
Unique null = Unit
Unique (node a p b e l r) = (Fresh a l × Fresh a r) × Apart l r × (Unique l × Unique r)

-- A node occurs in the tree, at its address.
pub data Occurs : ℕ → Tree → Type 0 where
  here : {a : ℕ} {p : Option ℕ} {b : Balance} {e : Entry} {l r : Tree} → Occurs a (node a p b e l r)
  in_left :
      {a x : ℕ} {p : Option ℕ} {b : Balance} {e : Entry} {l r : Tree}
      → Occurs x l
      → Occurs x (node a p b e l r)
  in_right :
      {a x : ℕ} {p : Option ℕ} {b : Balance} {e : Entry} {l r : Tree}
      → Occurs x r
      → Occurs x (node a p b e l r)

ne_of_Fresh : {a x : ℕ} {t : Tree} → Occurs x t → Fresh a t → a ≢ x
ne_of_Fresh here (f, g, h) = f
ne_of_Fresh (in_left o) (f, g, h) = ne_of_Fresh o g
ne_of_Fresh (in_right o) (f, g, h) = ne_of_Fresh o h

fresh_of_Apart : {x : ℕ} {t : Tree} (l : Tree) → Occurs x t → Apart l t → deref l x ≡ null
unfolding deref
fresh_of_Apart null o p = refl
fresh_of_Apart {x} (node a p b e l r) o (f, g, h) =
    rw (==_ne a x (ne_of_Fresh o f)) (rw (fresh_of_Apart l o g) (fresh_of_Apart r o h))

deref_right :
    {x : ℕ} (a : ℕ) (p : Option ℕ) (b : Balance) (e : Entry) (l r : Tree)
    → Occurs x r
    → Unique (node a p b e l r)
    → deref (node a p b e l r) x ≡ deref r x
unfolding deref
deref_right {x} a p b e l r o ((f, g), h, i) =
    rw (==_ne a x (ne_of_Fresh o g)) (rw (fresh_of_Apart l o h) refl)

deref_here :
    (a : ℕ) (p : Option ℕ) (b : Balance) (e : Entry) (l r : Tree)
    → deref (node a p b e l r) a ≡ node a p b e l r
unfolding deref
deref_here a p b e l r = rw (==_refl a a refl) refl

deref-Occurs : {x : ℕ} (t : Tree) → Occurs x t → Unique t → is_null (deref t x) ≡ false
unfolding deref
deref-Occurs {x} t here u = rw (==_refl x x refl) refl
deref-Occurs {x} (node a p b e l r) (in_left o) ((f, g), h, (i, j)) =
    rw (==_ne a x (ne_of_Fresh o f)) (rw (deref-Occurs l o i) (deref-Occurs l o i))
deref-Occurs {x} (node a p b e l r) (in_right o) ((f, g), h, (i, j)) =
    rw (==_ne a x (ne_of_Fresh o g)) (rw (fresh_of_Apart l o h) (deref-Occurs r o j))

deref_left :
    {x : ℕ} (a : ℕ) (p : Option ℕ) (b : Balance) (e : Entry) (l r : Tree)
    → Occurs x l
    → Unique (node a p b e l r)
    → deref (node a p b e l r) x ≡ deref l x
unfolding deref
deref_left {x} a p b e l r o ((f, g), h, (i, j)) =
    rw (==_ne a x (ne_of_Fresh o f)) (rw (deref-Occurs l o i) refl)

pub plug-Unique : (ctx : List Step) (t : Tree) → Unique (plug ctx t) → Unique t
plug-Unique [] t u = u
plug-Unique (to_left a p b e r ∷ up) t u = (plug-Unique up (node a p b e t r) u).2.0
plug-Unique (to_right a p b e l ∷ up) t u = (plug-Unique up (node a p b e l t) u).2.1

-- A read through an address finds the subtree that holds it.
deref-plug-Occurs :
    {x : ℕ} (ctx : List Step) (t : Tree)
    → Occurs x t
    → Unique (plug ctx t)
    → deref (plug ctx t) x ≡ deref t x
deref-plug-Occurs [] t o u = refl
deref-plug-Occurs (to_left a p b e r ∷ up) t o u =
    deref-plug-Occurs up (node a p b e t r) (in_left o) u
    ∙ deref_left a p b e t r o (plug-Unique up (node a p b e t r) u)
deref-plug-Occurs (to_right a p b e l ∷ up) t o u =
    deref-plug-Occurs up (node a p b e l t) (in_right o) u
    ∙ deref_right a p b e l t o (plug-Unique up (node a p b e l t) u)

pub deref-plug :
    (ctx : List Step) (a : ℕ) (p : Option ℕ) (b : Balance) (e : Entry) (l r : Tree)
    → Unique (plug ctx (node a p b e l r))
    → deref (plug ctx (node a p b e l r)) a ≡ node a p b e l r
deref-plug ctx a p b e l r u =
    deref-plug-Occurs ctx (node a p b e l r) here u ∙ deref_here a p b e l r
