-- ===== src/Obj/Keys/Sets.antt =====
-- The keys of duro/obj/key.c as sets of names.
use durodbms.Gen.Strings.{
  Str, is_listed, str_equal, str_equal_refl, str_equal_sound, str_equal_symm,
}
use durodbms.Obj.Keys.{appear, none_twice, strvec_is_subset}
use durodbms.Obj.Types.{Attrs, find_attr}
use durodbms.Obj.Types.Nesting.Picks.{AreAttrs, DistinctNames, is_listed-cons, is_listed_nil}
use durodbms.Prelude.{
  AllApart, AreSeparate, Bool, Bool-cases, List, Option-cases, [], all_hit, all_hit_by,
  all_hit_by-all_hit, arith, false, hit_by, hits, inl, inr, length, length-all_hit, refl, subst,
  sym, true, ◌∙◌, ◌∷◌, ◌≡◌, ◌≤◌,
}

abbrev pub IsSubset : List Str → List Str → Type 0
IsSubset key key' = (s : Str) → is_listed key s ≡ true → is_listed key' s ≡ true

pub strvec_is_subset_sound :
    (key key' : List Str) → strvec_is_subset key key' ≡ true → IsSubset key key'
unfolding strvec_is_subset
strvec_is_subset_sound [] key' h s l = absurd (empty_list s l)
  where
    empty_list : (s : Str) → is_listed [] s ≡ true → ⊥
    empty_list s l = cc (l, is_listed_nil s)
strvec_is_subset_sound (t ∷ key) key' h s l = elim (Bool-cases (is_listed key' t)) [
  | inr e ↦ absurd (ground (arith, e, h))
  | inl e ↦ elim (Bool-cases (str_equal t s)) [
    | inl q ↦ subst (λ z. is_listed key' z ≡ true) (str_equal_sound t s q) e
    | inr q ↦
        strvec_is_subset_sound key key' (ground (arith, e, h)) s
          (ground (arith, l, q, is_listed-cons t key s))
  ]
]

pub strvec_is_subset_complete :
    (key key' : List Str) → IsSubset key key' → strvec_is_subset key key' ≡ true
unfolding strvec_is_subset
strvec_is_subset_complete [] key' h = refl
strvec_is_subset_complete (t ∷ key) key' h =
    let first = h t (ground (arith, is_listed-cons t key t, str_equal_refl t)) in
    let rest =
      strvec_is_subset_complete key key' (λ s l. h s (ground (arith, l, is_listed-cons t key s))) in
    ground (arith, first, rest)

-- The search of a name as a relation between names.
abbrev names : Str → Str → Bool
names s t = str_equal t s

hits-is_listed : (key : List Str) (s : Str) → hits names s key ≡ is_listed key s
hits-is_listed [] s = sym (is_listed_nil s)
hits-is_listed (t ∷ key) s = ground (arith, is_listed-cons t key s, hits-is_listed key s)

all_hit-subset : (key key' : List Str) → all_hit names key key' ≡ strvec_is_subset key key'
unfolding strvec_is_subset
all_hit-subset [] key' = refl
all_hit-subset (t ∷ key) key' = ground (arith, hits-is_listed key' t, all_hit-subset key key')

names_apart : (t : Str) (key : List Str) → is_listed key t ≡ false → AllApart names t key
names_apart t [] h = tt
names_apart t (s ∷ key) h = (
  (λ u e.
      let same = str_equal_sound u t e in
      let apart : str_equal s t ≡ false = ground (arith, h, is_listed-cons s key t) in
      ground (arith, subst (λ z. str_equal s z ≡ false) (sym same) apart, str_equal_symm u s)),
  names_apart t key (ground (arith, h, is_listed-cons s key t)),
)

names_separate : (key : List Str) → DistinctNames key → AreSeparate names key
names_separate [] d = tt
names_separate (t ∷ key) d = (names_apart t key d.0, names_separate key d.1)

pub length-IsSubset :
    (key key' : List Str) → DistinctNames key → IsSubset key key' → length key ≤ length key'
length-IsSubset key key' d h =
    length-all_hit names key key' (names_separate key d)
      (all_hit-subset key key' ∙ strvec_is_subset_complete key key' h)

hit_by-is_listed : (key : List Str) (s : Str) → hit_by names key s ≡ is_listed key s
hit_by-is_listed [] s = sym (is_listed_nil s)
hit_by-is_listed (t ∷ key) s =
    ground (arith, is_listed-cons t key s, hit_by-is_listed key s, str_equal_symm t s)

all_hit_by-subset : (key key' : List Str) → all_hit_by names key key' ≡ strvec_is_subset key' key
unfolding strvec_is_subset
all_hit_by-subset key [] = refl
all_hit_by-subset key (t ∷ key') =
    ground (arith, hit_by-is_listed key t, all_hit_by-subset key key')

-- A subset that is as large is the whole set.
pub IsSubset-back :
    (key key' : List Str)
    → DistinctNames key
    → length key ≡ length key'
    → IsSubset key key'
    → IsSubset key' key
IsSubset-back key key' d c h = strvec_is_subset_sound key' key (
    sym (all_hit_by-subset key key')
    ∙ all_hit_by-all_hit names key key' (names_separate key d)
        (all_hit-subset key key' ∙ strvec_is_subset_complete key key' h) c)

pub none_twice_sound : (key : List Str) → none_twice key ≡ true → DistinctNames key
unfolding none_twice
none_twice_sound [] h = tt
none_twice_sound (s ∷ key) h = elim (Bool-cases (is_listed key s)) [
  | inl e ↦ absurd (ground (arith, e, h))
  | inr e ↦ (e, none_twice_sound key (ground (arith, e, h)))
]

pub none_twice_complete : (key : List Str) → DistinctNames key → none_twice key ≡ true
unfolding none_twice
none_twice_complete [] d = refl
none_twice_complete (s ∷ key) d = ground (arith, d.0, none_twice_complete key d.1)

pub appear_sound : (xs : Attrs) (key : List Str) → appear xs key ≡ true → AreAttrs xs key
unfolding appear
appear_sound xs [] h = tt
appear_sound xs (s ∷ key) h = elim (Option-cases (find_attr xs s)) [
  | inl e ↦ absurd (ground (arith, e, h))
  | inr (t, e) ↦ ((λ gone. cc (e, gone)), appear_sound xs key (ground (arith, e, h)))
]

pub appear_complete : (xs : Attrs) (key : List Str) → AreAttrs xs key → appear xs key ≡ true
unfolding appear
appear_complete xs [] a = refl
appear_complete xs (s ∷ key) a = elim (Option-cases (find_attr xs s)) [
  | inl e ↦ absurd (a.0 e)
  | inr (t, e) ↦ ground (arith, e, appear_complete xs key a.1)
]
