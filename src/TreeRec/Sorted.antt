-- ===== src/TreeRec/Sorted.antt =====
-- The abstract view of a search tree of duro/treerec: the list of its entries in order of their
-- keys, with the three operations of a map on it. Keys that compare equal are one key.
pub mod Cut
pub mod Order
pub mod Lookup
use durodbms.Prelude.{Ordering, lt, eq, gt, ◌≡◌, List, [], ◌∷◌, Option, none, some, All}
use durodbms.Prelude.{Result, ok, err, key_violation, not_found, ◌>>=◌}
use durodbms.TreeRec.Bytes.{Bytes}
use durodbms.TreeRec.Tree.{Entry, Comparison}

-- What a comparison owes on the keys that satisfy `P`.
pub record IsOrderOn (P : Bytes → Type 0) (cmp : Comparison) : Type 0 where
  pub cmp_refl : (a : Bytes) → P a → cmp a a ≡ eq
  pub eq_symm : (a b : Bytes) → P a → P b → cmp a b ≡ eq → cmp b a ≡ eq
  pub gt_of_lt : (a b : Bytes) → P a → P b → cmp a b ≡ lt → cmp b a ≡ gt
  pub lt_of_gt : (a b : Bytes) → P a → P b → cmp a b ≡ gt → cmp b a ≡ lt
  pub lt_trans : (a b c : Bytes) → P a → P b → P c → cmp a b ≡ lt → cmp b c ≡ lt → cmp a c ≡ lt
  pub lt_of_lt_eq : (a b c : Bytes) → P a → P b → P c → cmp a b ≡ lt → cmp b c ≡ eq → cmp a c ≡ lt

module _ (cmp : Comparison) where
  abbrev pub IsSorted : (Bytes → Type 0) → List Entry → Type 0
  IsSorted P [] = Unit
  IsSorted P (e ∷ es) = P e.key × All (λ x. cmp e.key x.key ≡ lt) es × IsSorted P es

  unfoldable pub lookup : Bytes → List Entry → Option Entry
  lookup k [] = none
  lookup k (e ∷ es) = elim (cmp k e.key) [ lt ↦ none | eq ↦ some e | gt ↦ lookup k es ]

  unfoldable pub insert : Entry → List Entry → Result (List Entry)
  insert new [] = ok (new ∷ [])
  insert new (e ∷ es) = elim (cmp new.key e.key) [
    | lt ↦ ok (new ∷ e ∷ es)
    | eq ↦ err key_violation
    | gt ↦ insert new es >>= (λ rest. ok (e ∷ rest))
  ]

  unfoldable pub erase : Bytes → List Entry → Result (List Entry)
  erase k [] = err not_found
  erase k (e ∷ es) = elim (cmp k e.key) [
    | lt ↦ err not_found
    | eq ↦ ok es
    | gt ↦ erase k es >>= (λ rest. ok (e ∷ rest))
  ]
