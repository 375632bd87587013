-- ===== src/Obj/Keys/Equal.antt =====
-- `RDB_keys_equal` of duro/obj/key.c compares keys as sets of sets of names.
use durodbms.Gen.Strings.{Str}
use durodbms.Obj.Keys.{check_keys, find_key, keys_appear, keys_equal, same_key}
use durodbms.Obj.Keys.Checks.{AreKeys, ListAttrs, NoSubset, NoSubsets, check_keys-AreKeys}
use durodbms.Obj.Keys.Sets.{
  IsSubset, IsSubset-back, length-IsSubset, strvec_is_subset_complete, strvec_is_subset_sound,
}
use durodbms.Obj.Types.{Attrs}
use durodbms.Obj.Types.Nesting.Picks.{DistinctNames}
use durodbms.Prelude.{
  AllApart, AreSeparate, Bool-cases, List, [], all_hit, all_hit_by, all_hit_by-all_hit, arith,
  hit_by, hits, inl, inr, length, length-all_hit, none, refl, sym, true, ◌↔◌, ◌∙◌, ◌∷◌, ◌≡◌, ◌⊎◌,
}

abbrev pub SameSet : List Str → List Str → Type 0
SameSet key key' = IsSubset key key' × IsSubset key' key

-- Some key of the list satisfies `P`.
abbrev pub SomeKey : (List Str → Type 0) → List (List Str) → Type 0
SomeKey P [] = ⊥
SomeKey P (key ∷ keyv) = P key ⊎ SomeKey P keyv

-- Each key of the first list is, as a set, one of the second.
abbrev pub Covers : List (List Str) → List (List Str) → Type 0
Covers [] keyv2 = Unit
Covers (key ∷ keyv1) keyv2 = SomeKey (SameSet key) keyv2 × Covers keyv1 keyv2

same_key_sound :
    (key key' : List Str) → DistinctNames key → same_key key key' ≡ true → SameSet key key'
same_key_sound key key' d h =
    let sub = strvec_is_subset_sound key key' (ground (arith, h)) in
    (sub, IsSubset-back key key' d (ground (arith, h)) sub)

same_key_complete :
    (key key' : List Str)
    → DistinctNames key
    → DistinctNames key'
    → SameSet key key'
    → same_key key key' ≡ true
same_key_complete key key' d d' s =
    let size : length key ≡ length key' =
      omega (arith, length-IsSubset key key' d s.0, length-IsSubset key' key d' s.1) in
    ground (arith, size, strvec_is_subset_complete key key' s.0)

hits-find_key :
    (key : List Str) (keyv : List (List Str)) → hits same_key key keyv ≡ find_key key keyv
unfolding find_key
hits-find_key key [] = refl
hits-find_key key (key' ∷ keyv) = ground (arith, hits-find_key key keyv)

all_hit-keys_appear :
    (keyv1 keyv2 : List (List Str)) → all_hit same_key keyv1 keyv2 ≡ keys_appear keyv1 keyv2
unfolding keys_appear
all_hit-keys_appear [] keyv2 = refl
all_hit-keys_appear (key ∷ keyv1) keyv2 =
    ground (arith, hits-find_key key keyv2, all_hit-keys_appear keyv1 keyv2)

-- Keys of which none is a subset of another are not the same key as a third one.
keys_apart :
    (xs : Attrs) (key : List Str) (keyv : List (List Str))
    → DistinctNames key
    → ListAttrs xs keyv
    → NoSubset key keyv
    → AllApart same_key key keyv
keys_apart xs key [] d v n = tt
keys_apart xs key (key' ∷ keyv) d v n = (
  (λ k e. elim (Bool-cases (same_key key' k)) [
    | inr f ↦ f
    | inl f ↦
        let (a, b) = same_key_sound key k d e in
        let (a', b') = same_key_sound key' k v.1 f in absurd (n.0 (λ s l. b' s (a s l)))
  ]),
  keys_apart xs key keyv d v.2 n.2,
)

keys_separate :
    (xs : Attrs) (keyv : List (List Str))
    → ListAttrs xs keyv
    → NoSubsets keyv
    → AreSeparate same_key keyv
keys_separate xs [] v n = tt
keys_separate xs (key ∷ keyv) v n =
    (keys_apart xs key keyv v.1 v.2 n.0, keys_separate xs keyv v.2 n.1)

hits_cover :
    (key : List Str) (keyv : List (List Str))
    → DistinctNames key
    → hits same_key key keyv ≡ true
    → SomeKey (SameSet key) keyv
hits_cover key [] d h = absurd (ground (arith, h))
hits_cover key (key' ∷ keyv) d h = elim (Bool-cases (same_key key key')) [
  | inl e ↦ inl (same_key_sound key key' d e)
  | inr e ↦ inr (hits_cover key keyv d (ground (arith, e, h)))
]

cover_hits :
    (xs : Attrs) (key : List Str) (keyv : List (List Str))
    → DistinctNames key
    → ListAttrs xs keyv
    → SomeKey (SameSet key) keyv
    → hits same_key key keyv ≡ true
cover_hits xs key [] d v c = absurd c
cover_hits xs key (key' ∷ keyv) d v (inl s) = ground (arith, same_key_complete key key' d v.1 s)
cover_hits xs key (key' ∷ keyv) d v (inr c) = ground (arith, cover_hits xs key keyv d v.2 c)

all_hit-Covers :
    (xs : Attrs) (keyv1 keyv2 : List (List Str))
    → ListAttrs xs keyv1
    → all_hit same_key keyv1 keyv2 ≡ true
    → Covers keyv1 keyv2
all_hit-Covers xs [] keyv2 v h = tt
all_hit-Covers xs (key ∷ keyv1) keyv2 v h = elim (Bool-cases (hits same_key key keyv2)) [
  | inl e ↦ (hits_cover key keyv2 v.1 e, all_hit-Covers xs keyv1 keyv2 v.2 (ground (arith, e, h)))
  | inr e ↦ absurd (ground (arith, e, h))
]

Covers-all_hit :
    (xs : Attrs) (keyv1 keyv2 : List (List Str))
    → ListAttrs xs keyv1
    → ListAttrs xs keyv2
    → Covers keyv1 keyv2
    → all_hit same_key keyv1 keyv2 ≡ true
Covers-all_hit xs [] keyv2 v w c = refl
Covers-all_hit xs (key ∷ keyv1) keyv2 v w c =
    ground (arith, cover_hits xs key keyv2 v.1 w c.0, Covers-all_hit xs keyv1 keyv2 v.2 w c.1)

hit_by_cover :
    (xs : Attrs) (keyv : List (List Str)) (key' : List Str)
    → ListAttrs xs keyv
    → hit_by same_key keyv key' ≡ true
    → SomeKey (SameSet key') keyv
hit_by_cover xs [] key' v h = absurd (ground (arith, h))
hit_by_cover xs (key ∷ keyv) key' v h = elim (Bool-cases (same_key key key')) [
  | inl e ↦ let (a, b) = same_key_sound key key' v.1 e in inl (b, a)
  | inr e ↦ inr (hit_by_cover xs keyv key' v.2 (ground (arith, e, h)))
]

all_hit_by-Covers :
    (xs : Attrs) (keyv1 keyv2 : List (List Str))
    → ListAttrs xs keyv1
    → all_hit_by same_key keyv1 keyv2 ≡ true
    → Covers keyv2 keyv1
all_hit_by-Covers xs keyv1 [] v h = tt
all_hit_by-Covers xs keyv1 (key ∷ keyv2) v h = elim (Bool-cases (hit_by same_key keyv1 key)) [
  | inl e ↦
      (hit_by_cover xs keyv1 key v e, all_hit_by-Covers xs keyv1 keyv2 v (ground (arith, e, h)))
  | inr e ↦ absurd (ground (arith, e, h))
]

-- On two lists of keys that `RDB_check_keys` accepts for one type, `RDB_keys_equal` gives true
-- exactly if each key of either list has, as a set of names, its like in the other.
pub keys_equal-Covers :
    (xs : Attrs) (keyv1 keyv2 : List (List Str))
    → check_keys xs keyv1 ≡ none
    → check_keys xs keyv2 ≡ none
    → (keys_equal keyv1 keyv2 ≡ true) ↔ (Covers keyv1 keyv2 × Covers keyv2 keyv1)
unfolding keys_equal
keys_equal-Covers xs keyv1 keyv2 h1 h2 =
    let (c1, v1, n1) = accepted xs keyv1 h1 in
    let (c2, v2, n2) = accepted xs keyv2 h2 in
    (
      (λ e.
          let hit = all_hit-keys_appear keyv1 keyv2 ∙ ground (arith, e) in
          let size : length keyv1 ≡ length keyv2 = ground (arith, e) in
          (
            all_hit-Covers xs keyv1 keyv2 v1 hit,
            all_hit_by-Covers xs keyv1 keyv2 v1
                (all_hit_by-all_hit same_key keyv1 keyv2 (keys_separate xs keyv1 v1 n1) hit size),
          )),
      λ (a, b).
          let hit = Covers-all_hit xs keyv1 keyv2 v1 v2 a in
          let back = Covers-all_hit xs keyv2 keyv1 v2 v1 b in
          let size : length keyv1 ≡ length keyv2 = omega (
            arith,
            length-all_hit same_key keyv1 keyv2 (keys_separate xs keyv1 v1 n1) hit,
            length-all_hit same_key keyv2 keyv1 (keys_separate xs keyv2 v2 n2) back,
          ) in
          let found : keys_appear keyv1 keyv2 ≡ true =
            sym (all_hit-keys_appear keyv1 keyv2) ∙ hit in
          ground (arith, size, found),
    )
  where
    accepted : (xs : Attrs) (keyv : List (List Str)) → check_keys xs keyv ≡ none → AreKeys xs keyv
    accepted xs keyv h = elim (check_keys-AreKeys xs keyv) [
      | inl (k, e) ↦ k
      | inr (k, e) ↦ absurd (cc (h, e))
    ]
