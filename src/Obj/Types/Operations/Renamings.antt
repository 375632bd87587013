-- ===== src/Obj/Types/Operations/Renamings.antt =====
-- The checks on the renamings in `RDB_rename_tuple_type` of duro/obj/type.c.
use durodbms.Gen.Strings.{Str, str_equal, str_equal_sound, str_equal_refl}
use durodbms.Obj.Types.{Attrs, find_attr}
use durodbms.Obj.Types.Operations.{Renaming, appears_again, check_renamings}
use durodbms.Prelude.{
  Bool-cases, Error, List, Option-cases, [], ap, arith, false, inl, inr, invalid_argument,
  name_error, none, refl, some, ◌∷◌, ◌≡◌, ◌≢◌, ◌⊎◌,
}

-- No later renaming has the same source or the same target.
abbrev pub NoneAgain : Renaming → List Renaming → Type 0
NoneAgain r [] = Unit
NoneAgain r (r' ∷ renv) = (r.source ≢ r'.source) × (r.target ≢ r'.target) × NoneAgain r renv

-- Each source is an attribute, no target is one, and none appears twice.
abbrev pub AreRenamings : Attrs → List Renaming → Type 0
AreRenamings xs [] = Unit
AreRenamings xs (r ∷ renv) =
    (find_attr xs r.source ≢ none)
    × (find_attr xs r.target ≡ none)
    × NoneAgain r renv
    × AreRenamings xs renv

pub str_equal_ne : (s t : Str) → s ≢ t → str_equal s t ≡ false
str_equal_ne s t ne = elim (Bool-cases (str_equal s t)) [
  | inl e ↦ absurd (ne (str_equal_sound s t e))
  | inr e ↦ e
]

pub str_equal-false : (s t : Str) → str_equal s t ≡ false → s ≢ t
str_equal-false s t e same = cc (e, ap (str_equal s) same, str_equal_refl s)

NoneAgain-sound :
    (r : Renaming) (renv : List Renaming) → appears_again r renv ≡ false → NoneAgain r renv
unfolding appears_again
NoneAgain-sound r [] h = tt
NoneAgain-sound r (r' ∷ renv) h = (
  str_equal-false r.source r'.source (ground (arith, h)),
  str_equal-false r.target r'.target (ground (arith, h)),
  NoneAgain-sound r renv (ground (arith, h)),
)

NoneAgain-complete :
    (r : Renaming) (renv : List Renaming) → NoneAgain r renv → appears_again r renv ≡ false
unfolding appears_again
NoneAgain-complete r [] h = refl
NoneAgain-complete r (r' ∷ renv) (a, b, rest) =
    rw (str_equal_ne r.source r'.source a, str_equal_ne r.target r'.target b)
      (NoneAgain-complete r renv rest)

pub check_renamings_sound :
    (xs : Attrs) (renv : List Renaming) → check_renamings xs renv ≡ none → AreRenamings xs renv
unfolding check_renamings
check_renamings_sound xs [] h = tt
check_renamings_sound xs (r ∷ renv) h = elim (Option-cases (find_attr xs r.source)) [
  | inl a ↦ absurd (ground (arith, h, a))
  | inr (t, a) ↦ elim (Option-cases (find_attr xs r.target)) [
    | inr (u, b) ↦ absurd (ground (arith, h, a, b))
    | inl b ↦ elim (Bool-cases (appears_again r renv)) [
      | inl c ↦ absurd (ground (arith, h, a, b, c))
      | inr c ↦ (
        (λ gone. cc (a, gone)),
        b,
        NoneAgain-sound r renv c,
        check_renamings_sound xs renv (ground (arith, h, a, b, c)),
      )
    ]
  ]
]

abbrev pub IsRenameError : Error → Type 0
IsRenameError e = (e ≡ name_error) ⊎ (e ≡ invalid_argument)

pub check_renamings_complete :
    (xs : Attrs) (renv : List Renaming) (e : Error)
    → check_renamings xs renv ≡ some e
    → (¬ AreRenamings xs renv) × IsRenameError e
unfolding check_renamings
check_renamings_complete xs [] e h = absurd (ground (arith, h))
check_renamings_complete xs (r ∷ renv) e h = elim (Option-cases (find_attr xs r.source)) [
  | inl a ↦ ((λ v. v.0 a), inl (ground (arith, h, a)))
  | inr (t, a) ↦ elim (Option-cases (find_attr xs r.target)) [
    | inr (u, b) ↦ ((λ v. cc (v.1, b)), inl (ground (arith, h, a, b)))
    | inl b ↦ elim (Bool-cases (appears_again r renv)) [
      | inl c ↦ ((λ v. cc (c, NoneAgain-complete r renv v.2)), inr (ground (arith, h, a, b, c)))
      | inr c ↦
          let (bad, kind) = check_renamings_complete xs renv e (ground (arith, h, a, b, c)) in
          ((λ v. bad v.3), kind)
    ]
  ]
]
