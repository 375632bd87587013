-- ===== src/Prelude/Pigeons.antt =====
-- Pigeonhole arguments for a Boolean relation between the items of two lists.
use Prim.Native.Nat.{suc, ◌≤◌}
use mathlib.Core.Path.{◌≡◌, refl}
use mathlib.Core.Logic.{inl, inr}
use mathlib.Core.Bool.{Bool, true, false}
use mathlib.Core.List.{List, [], ◌∷◌}
use native.Mathlib.Omega.{arith}
use durodbms.Prelude.Tests.{if◌then◌else◌, Bool-cases}
use durodbms.Prelude.Lists.{length}

module _ {ℓ κ} {A : Type ℓ} {B : Type κ} (r : A → B → Bool) where
  -- `x` is related to some item, and the list without the first one.
  abbrev pub hits : A → List B → Bool
  hits x [] = false
  hits x (y ∷ ys) = let rest = hits x ys in if r x y then true else rest

  abbrev pub drop_hit : A → List B → List B
  drop_hit x [] = []
  drop_hit x (y ∷ ys) = let rest = drop_hit x ys in if r x y then ys else y ∷ rest

  -- `y` has some item related to it.
  abbrev pub hit_by : List A → B → Bool
  hit_by [] y = false
  hit_by (x ∷ xs) y = let rest = hit_by xs y in if r x y then true else rest

  -- No item is related to the same as `x` is.
  abbrev pub AllApart : A → List A → Type κ
  AllApart x [] = Unit
  AllApart x (x' ∷ xs) = ((y : B) → r x y ≡ true → r x' y ≡ false) × AllApart x xs

  abbrev pub AreSeparate : List A → Type κ
  AreSeparate [] = Unit
  AreSeparate (x ∷ xs) = AllApart x xs × AreSeparate xs

  abbrev pub all_hit : List A → List B → Bool
  all_hit [] ys = true
  all_hit (x ∷ xs) ys = let rest = all_hit xs ys in if hits x ys then rest else false

  abbrev pub all_hit_by : List A → List B → Bool
  all_hit_by xs [] = true
  all_hit_by xs (y ∷ ys) = let rest = all_hit_by xs ys in if hit_by xs y then rest else false

  length-drop_hit :
      (x : A) (ys : List B) → hits x ys ≡ true → suc (length (drop_hit x ys)) ≡ length ys
  length-drop_hit x [] h = absurd (ground arith)
  length-drop_hit x (y ∷ ys) h = elim (Bool-cases (r x y)) [
    | inl e ↦ ground (arith, e)
    | inr e ↦ ground (arith, e, length-drop_hit x ys (ground (arith, e, h)))
  ]

  hits-drop_hit :
      (x x' : A) (ys : List B)
      → ((y : B) → r x y ≡ true → r x' y ≡ false)
      → hits x' ys ≡ true
      → hits x' (drop_hit x ys) ≡ true
  hits-drop_hit x x' [] apart h = absurd (ground arith)
  hits-drop_hit x x' (y ∷ ys) apart h = elim (Bool-cases (r x y)) [
    | inl e ↦ ground (arith, e, apart y e, h)
    | inr e ↦ elim (Bool-cases (r x' y)) [
      | inl f ↦ ground (arith, e, f)
      | inr f ↦ ground (arith, e, f, hits-drop_hit x x' ys apart (ground (arith, f, h)))
    ]
  ]

  all_hit-drop_hit :
      (x : A) (xs : List A) (ys : List B)
      → AllApart x xs
      → all_hit xs ys ≡ true
      → all_hit xs (drop_hit x ys) ≡ true
  all_hit-drop_hit x [] ys apart h = refl
  all_hit-drop_hit x (x' ∷ xs) ys apart h = elim (Bool-cases (hits x' ys)) [
    | inl e ↦ ground (
      arith,
      hits-drop_hit x x' ys apart.0 e,
      all_hit-drop_hit x xs ys apart.1 (ground (arith, e, h)),
    )
    | inr e ↦ absurd (ground (arith, e, h))
  ]

  -- Separate items that are all related to items of a list are no more than these.
  pub length-all_hit :
      (xs : List A) (ys : List B) → AreSeparate xs → all_hit xs ys ≡ true → length xs ≤ length ys
  length-all_hit [] ys s h = omega arith
  length-all_hit (x ∷ xs) ys s h = elim (Bool-cases (hits x ys)) [
    | inr e ↦ absurd (ground (arith, e, h))
    | inl e ↦
        let rest =
          length-all_hit xs (drop_hit x ys) s.1
            (all_hit-drop_hit x xs ys s.0 (ground (arith, e, h))) in
        omega (arith, rest, length-drop_hit x ys e)
  ]

  all_hit_by-cons :
      (x : A) (xs : List A) (ys : List B)
      → all_hit_by xs (drop_hit x ys) ≡ true
      → hits x ys ≡ true
      → all_hit_by (x ∷ xs) ys ≡ true
  all_hit_by-cons x xs [] h k = refl
  all_hit_by-cons x xs (y ∷ ys) h k = elim (Bool-cases (r x y)) [
    | inl e ↦ ground (arith, e, weaken x xs ys (ground (arith, e, h)))
    | inr e ↦ elim (Bool-cases (hit_by xs y)) [
      | inr f ↦ absurd (ground (arith, e, f, h))
      | inl f ↦
          ground
            (arith, e, f, all_hit_by-cons x xs ys (ground (arith, e, f, h)) (ground (arith, e, k)))
    ]
  ]
    where
      weaken :
          (x : A) (xs : List A) (ys : List B)
          → all_hit_by xs ys ≡ true
          → all_hit_by (x ∷ xs) ys ≡ true
      weaken x xs [] h = refl
      weaken x xs (y ∷ ys) h = elim (Bool-cases (hit_by xs y)) [
        | inl f ↦ ground (arith, f, weaken x xs ys (ground (arith, f, h)))
        | inr f ↦ absurd (ground (arith, f, h))
      ]

  -- If they are as many, all items of the list are reached.
  pub all_hit_by-all_hit :
      (xs : List A) (ys : List B)
      → AreSeparate xs
      → all_hit xs ys ≡ true
      → length xs ≡ length ys
      → all_hit_by xs ys ≡ true
  all_hit_by-all_hit [] [] s h c = refl
  all_hit_by-all_hit [] (y ∷ ys) s h c = absurd (omega arith)
  all_hit_by-all_hit (x ∷ xs) ys s h c = elim (Bool-cases (hits x ys)) [
    | inr e ↦ absurd (ground (arith, e, h))
    | inl e ↦
        all_hit_by-cons x xs ys
          (all_hit_by-all_hit xs (drop_hit x ys) s.1
            (all_hit-drop_hit x xs ys s.0 (ground (arith, e, h)))
            (omega (arith, length-drop_hit x ys e)))
          e
  ]
