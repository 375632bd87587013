-- ===== src/Obj/Keys/Checks.antt =====
-- What `RDB_check_keys` of duro/obj/key.c accepts.
use durodbms.Gen.Strings.{Str}
use durodbms.Obj.Keys.{
  appear, check_attributes, check_keys, check_subsets, clashes, none_twice, strvec_is_subset,
}
use durodbms.Obj.Keys.Sets.{
  IsSubset, IsSubset-back, appear_complete, appear_sound, length-IsSubset, none_twice_complete,
  none_twice_sound, strvec_is_subset_complete, strvec_is_subset_sound,
}
use durodbms.Obj.Types.{Attrs}
use durodbms.Obj.Types.Nesting.Picks.{AreAttrs, DistinctNames}
use durodbms.Prelude.{
  Bool, Bool-cases, List, [], arith, false, if◌then◌else◌, inl, inr, invalid_argument, leb, leb→le,
  length, ltb, none, refl, some, true, ◌∷◌, ◌≡◌, ◌≤◌, ◌⊎◌,
}

-- No later key is a subset of this one, nor the other way round.
abbrev pub NoSubset : List Str → List (List Str) → Type 0
NoSubset key [] = Unit
NoSubset key (key' ∷ keyv) = (¬ IsSubset key key') × (¬ IsSubset key' key) × NoSubset key keyv

abbrev pub NoSubsets : List (List Str) → Type 0
NoSubsets [] = Unit
NoSubsets (key ∷ keyv) = NoSubset key keyv × NoSubsets keyv

-- Each key lists attributes of the type, none of them twice.
abbrev pub ListAttrs : Attrs → List (List Str) → Type 0
ListAttrs xs [] = Unit
ListAttrs xs (key ∷ keyv) = AreAttrs xs key × DistinctNames key × ListAttrs xs keyv

-- At least one key, and none that is a subset of another.
abbrev pub AreKeys : Attrs → List (List Str) → Type 0
AreKeys xs keyv = (1 ≤ length keyv) × ListAttrs xs keyv × NoSubsets keyv

check_attributes_sound :
    (xs : Attrs) (keyv : List (List Str)) → check_attributes xs keyv ≡ true → ListAttrs xs keyv
unfolding check_attributes
check_attributes_sound xs [] h = tt
check_attributes_sound xs (key ∷ keyv) h = elim (Bool-cases (appear xs key)) [
  | inr a ↦ absurd (ground (arith, a, h))
  | inl a ↦ elim (Bool-cases (none_twice key)) [
    | inr b ↦ absurd (ground (arith, a, b, h))
    | inl b ↦ (
      appear_sound xs key a,
      none_twice_sound key b,
      check_attributes_sound xs keyv (ground (arith, a, b, h)),
    )
  ]
]

check_attributes_complete :
    (xs : Attrs) (keyv : List (List Str)) → ListAttrs xs keyv → check_attributes xs keyv ≡ true
unfolding check_attributes
check_attributes_complete xs [] v = refl
check_attributes_complete xs (key ∷ keyv) v = ground (
  arith,
  appear_complete xs key v.0,
  none_twice_complete key v.1,
  check_attributes_complete xs keyv v.2,
)

-- One round of the inner loop.
abbrev clash : List Str → List Str → Bool
clash key key' =
    if leb (length key) (length key') then strvec_is_subset key key' else strvec_is_subset key' key

-- It is enough to test the shorter key.
clash_cases :
    (key key' : List Str)
    → DistinctNames key
    → DistinctNames key'
    → ((clash key key' ≡ true) × (IsSubset key key' ⊎ IsSubset key' key))
      ⊎ ((clash key key' ≡ false) × (¬ IsSubset key key') × (¬ IsSubset key' key))
clash_cases key key' d d' = elim (Bool-cases (leb (length key) (length key'))) [
  | inl shorter ↦ elim (Bool-cases (strvec_is_subset key key')) [
    | inl e ↦ inl (ground (arith, shorter, e), inl (strvec_is_subset_sound key key' e))
    | inr e ↦
        let no_subset : ¬ IsSubset key key' = λ h. cc (e, strvec_is_subset_complete key key' h) in
        inr (
          ground (arith, shorter, e),
          no_subset,
          λ h.
              let size = length-IsSubset key' key d' h in
              no_subset (
                IsSubset-back key' key d'
                  (omega (arith, size, leb→le (length key) (length key') shorter)) h),
        )
  ]
  | inr longer ↦ elim (Bool-cases (strvec_is_subset key' key)) [
    | inl e ↦ inl (ground (arith, longer, e), inr (strvec_is_subset_sound key' key e))
    | inr e ↦
        let no_subset : ¬ IsSubset key' key = λ h. cc (e, strvec_is_subset_complete key' key h) in
        inr (
          ground (arith, longer, e),
          (λ h. absurd (ground (arith, longer, length-IsSubset key key' d h))),
          no_subset,
        )
  ]
]

clashes_cases :
    (xs : Attrs) (key : List Str) (keyv : List (List Str))
    → DistinctNames key
    → ListAttrs xs keyv
    → ((clashes key keyv ≡ true) × (¬ NoSubset key keyv))
      ⊎ ((clashes key keyv ≡ false) × NoSubset key keyv)
unfolding clashes
clashes_cases xs key [] d v = inr (refl, tt)
clashes_cases xs key (key' ∷ keyv) d v = elim (clash_cases key key' d v.1) [
  | inl (e, inl h) ↦ inl (ground (arith, e), λ n. n.0 h)
  | inl (e, inr h) ↦ inl (ground (arith, e), λ n. n.1 h)
  | inr (e, a, b) ↦ elim (clashes_cases xs key keyv d v.2) [
    | inl (f, bad) ↦ inl (ground (arith, e, f), λ n. bad n.2)
    | inr (f, good) ↦ inr (ground (arith, e, f), (a, b, good))
  ]
]

check_subsets_cases :
    (xs : Attrs) (keyv : List (List Str))
    → ListAttrs xs keyv
    → ((check_subsets keyv ≡ true) × NoSubsets keyv)
      ⊎ ((check_subsets keyv ≡ false) × (¬ NoSubsets keyv))
unfolding check_subsets
check_subsets_cases xs [] v = inl (refl, tt)
check_subsets_cases xs (key ∷ keyv) v = elim (clashes_cases xs key keyv v.1 v.2) [
  | inl (e, bad) ↦ inr (ground (arith, e), λ n. bad n.0)
  | inr (e, good) ↦ elim (check_subsets_cases xs keyv v.2) [
    | inl (f, rest) ↦ inl (ground (arith, e, f), (good, rest))
    | inr (f, bad) ↦ inr (ground (arith, e, f), λ n. bad n.1)
  ]
]

-- `RDB_check_keys` accepts a list of keys exactly if there is a key, each key lists attributes of
-- the type and none of them twice, and no key is a subset of another, in either order; otherwise
-- it reports an invalid argument.
pub check_keys-AreKeys :
    (xs : Attrs) (keyv : List (List Str))
    → (AreKeys xs keyv × (check_keys xs keyv ≡ none))
      ⊎ ((¬ AreKeys xs keyv) × (check_keys xs keyv ≡ some invalid_argument))
unfolding check_keys
check_keys-AreKeys xs keyv = elim (Bool-cases (ltb (length keyv) 1)) [
  | inl few ↦ inr ((λ k. absurd (ground (arith, few, k.0))), ground (arith, few))
  | inr enough ↦
      let some_key : 1 ≤ length keyv = ground (arith, enough) in
      elim (Bool-cases (check_attributes xs keyv)) [
        | inr e ↦
            inr ((λ k. cc (e, check_attributes_complete xs keyv k.1)), ground (arith, enough, e))
        | inl e ↦
            let v = check_attributes_sound xs keyv e in
            elim (check_subsets_cases xs keyv v) [
              | inl (f, good) ↦ inl ((some_key, v, good), ground (arith, enough, e, f))
              | inr (f, bad) ↦ inr ((λ k. bad k.2), ground (arith, enough, e, f))
            ]
      ]
]
