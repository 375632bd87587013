-- ===== src/Obj/Types/Operations/Rename.antt =====
-- The type of a RENAME, `RDB_rename_tuple_type` of duro/obj/type.c.
use durodbms.Gen.Strings.{Str, str_equal, str_equal_sound, str_equal_refl}
use durodbms.Obj.Types.{Attrs, RdbType, attr, attr_count, find_attr, no_attrs, tuple}
use durodbms.Obj.Types.Lookup.{
  AreProper, IsProper, absent_none, dup_nonscalar_type-IsProper, find_attr_rest,
}
use durodbms.Obj.Types.Operations.{
  Renaming, check_renamings, find_rename_from, new_name, rename_attrs, rename_tuple_type,
  tuple_attrs,
}
use durodbms.Obj.Types.Operations.Renamings.{AreRenamings, NoneAgain, str_equal-false, str_equal_ne}
use durodbms.Prelude.{
  Bool-cases, Error, List, Option-cases, [], ap, arith, err, false, inl, inr, none, ok, refl, some,
  subst, suc, sym, ◌>>=◌, ◌∙◌, ◌∷◌, ◌≡◌, ◌≢◌,
}

-- The renaming found has the name as its source, and its target is no attribute.
find_rename_from_sound :
    (xs : Attrs) (renv : List Renaming) (n : Str) (r : Renaming)
    → AreRenamings xs renv
    → find_rename_from renv n ≡ some r
    → (r.source ≡ n) × (find_attr xs r.target ≡ none)
unfolding find_rename_from
find_rename_from_sound xs [] n r v h = absurd (ground (arith, h))
find_rename_from_sound xs (r' ∷ renv) n r v h = elim (Bool-cases (str_equal r'.source n)) [
  | inl e ↦
      let same : r' ≡ r = ground (arith, h, e) in
      subst (λ q. (q.source ≡ n) × (find_attr xs q.target ≡ none)) same
        (str_equal_sound r'.source n e, v.1)
  | inr e ↦ find_rename_from_sound xs renv n r v.3 (ground (arith, h, e))
]

later_target :
    (r : Renaming) (renv : List Renaming) (m : Str) (r' : Renaming)
    → NoneAgain r renv
    → find_rename_from renv m ≡ some r'
    → r.target ≢ r'.target
unfolding find_rename_from
later_target r [] m r' a h = absurd (ground (arith, h))
later_target r (q ∷ renv) m r' a h = elim (Bool-cases (str_equal q.source m)) [
  | inl e ↦ let same : q ≡ r' = ground (arith, h, e) in subst (λ z. r.target ≢ z.target) same a.1
  | inr e ↦ later_target r renv m r' a.2 (ground (arith, h, e))
]

-- Two names renamed to the same target are the same name.
same_target :
    (xs : Attrs) (renv : List Renaming) (n m : Str) (r r' : Renaming)
    → AreRenamings xs renv
    → find_rename_from renv n ≡ some r
    → find_rename_from renv m ≡ some r'
    → r.target ≡ r'.target
    → n ≡ m
unfolding find_rename_from
same_target xs [] n m r r' v h k t = absurd (ground (arith, h))
same_target xs (q ∷ renv) n m r r' v h k t = elim (Bool-cases (str_equal q.source n)) [
  | inl a ↦ elim (Bool-cases (str_equal q.source m)) [
    | inl b ↦ sym (str_equal_sound q.source n a) ∙ str_equal_sound q.source m b
    | inr b ↦
        let same : q ≡ r = ground (arith, h, a) in
        let apart = later_target q renv m r' v.2 (ground (arith, k, b)) in
        absurd (apart (ap (λ (z : Renaming). z.target) same ∙ t))
  ]
  | inr a ↦ elim (Bool-cases (str_equal q.source m)) [
    | inl b ↦
        let same : q ≡ r' = ground (arith, k, b) in
        let apart = later_target q renv n r v.2 (ground (arith, h, a)) in
        absurd (apart (ap (λ (z : Renaming). z.target) same ∙ sym t))
    | inr b ↦ same_target xs renv n m r r' v.3 (ground (arith, h, a)) (ground (arith, k, b)) t
  ]
]

-- On the attributes of the type the renaming is one to one.
pub new_name_injective :
    (xs : Attrs) (renv : List Renaming)
    → AreRenamings xs renv
    → (n m : Str) (t u : RdbType) → find_attr xs n ≡ some t
    → find_attr xs m ≡ some u
    → new_name renv n ≡ new_name renv m
    → n ≡ m
new_name_injective xs renv v n m t u f g same = elim (Option-cases (find_rename_from renv n)) [
  | inl a ↦ elim (Option-cases (find_rename_from renv m)) [
    | inl b ↦ ground (arith, same, a, b)
    | inr (r, b) ↦
        let (src, new) = find_rename_from_sound xs renv m r v b in
        let q : n ≡ r.target = ground (arith, same, a, b) in
        absurd (absent_none xs r.target n t (sym q) new f)
  ]
  | inr (r, a) ↦ elim (Option-cases (find_rename_from renv m)) [
    | inl b ↦
        let (src, new) = find_rename_from_sound xs renv n r v a in
        let q : r.target ≡ m = ground (arith, same, a, b) in
        absurd (absent_none xs r.target m u q new g)
    | inr (r', b) ↦ same_target xs renv n m r r' v a b (ground (arith, same, a, b))
  ]
]

-- `zs` is `xs` with each name `n` replaced by `f n`.
pub record IsRenamed (f : Str → Str) (xs zs : Attrs) : Type 0 where
  pub proper : AreProper zs
  pub length_same : attr_count zs ≡ attr_count xs
  pub reads : (n : Str) (t : RdbType) → find_attr xs n ≡ some t → find_attr zs (f n) ≡ some t
  pub from :
      (k : Str) (t : RdbType)
      → find_attr zs k ≡ some t
      → (n : Str) × (k ≡ f n) × (find_attr xs n ≡ some t)

abbrev Injective : (Str → Str) → Attrs → Type 0
Injective f xs =
    (n m : Str) (t u : RdbType)
    → find_attr xs n ≡ some t
    → find_attr xs m ≡ some u
    → f n ≡ f m
    → n ≡ m

IsRenamed-attr :
    (f : Str → Str) (m : Str) (t : RdbType) (xs zs : Attrs)
    → AreProper (attr m t xs)
    → Injective f (attr m t xs)
    → IsRenamed f xs zs
    → IsRenamed f (attr m t xs) (attr (f m) t zs)
unfolding find_attr IsProper attr_count
IsRenamed-attr f m t xs zs p inj r = record {
  proper = (
    elim (Option-cases (find_attr zs (f m))) [
      | inl e ↦ e
      | inr (u, e) ↦
          let (n, q, g) = r.from (f m) u e in
          let clash =
            inj m n t u (rw (str_equal_refl m) refl) (find_attr_rest m t xs n u p.0 g) q in
          absurd (absent_none xs m n u clash p.0 g)
    ],
    p.1,
    r.proper,
  );
  length_same = ap suc r.length_same;
  reads = λ n u g. elim (Bool-cases (str_equal m n)) [
    | inl e ↦
        let same : t ≡ u = ground (arith, g, e) in
        rw (← str_equal_sound m n e, str_equal_refl (f m), same) refl
    | inr e ↦
        let g' : find_attr xs n ≡ some u = ground (arith, g, e) in
        let apart : str_equal (f m) (f n) ≡ false = str_equal_ne (f m) (f n) (λ q.
          str_equal-false m n e
            (inj m n t u (rw (str_equal_refl m) refl) (find_attr_rest m t xs n u p.0 g') q)) in
        rw (apart, find_attr) (r.reads n u g')
  ];
  from = λ k u g. elim (Bool-cases (str_equal (f m) k)) [
    | inl e ↦
        let same : t ≡ u = ground (arith, g, e) in
        (m, sym (str_equal_sound (f m) k e), rw (str_equal_refl m, same) refl)
    | inr e ↦
        let (n, q, g') = r.from k u (ground (arith, g, e)) in
        (n, q, find_attr_rest m t xs n u p.0 g')
  ];
}

pub rename_attrs_lem :
    (renv : List Renaming) (xs : Attrs)
    → AreProper xs
    → Injective (new_name renv) xs
    → (zs : Attrs) × (rename_attrs renv xs ≡ ok zs) × IsRenamed (new_name renv) xs zs
unfolding rename_attrs IsProper find_attr
rename_attrs_lem renv no_attrs p inj = (
  no_attrs,
  refl,
  record {
    proper = tt;
    length_same = refl;
    reads = λ n t g. absurd (ground (arith, g));
    from = λ k t g. absurd (ground (arith, g));
  },
)
rename_attrs_lem renv (attr m t xs) p inj =
    let (zs, run, r) = rename_attrs_lem renv xs p.2 (λ n k u v g g' q.
      inj n k u v (find_attr_rest m t xs n u p.0 g) (find_attr_rest m t xs k v p.0 g') q) in
    (
      attr (new_name renv m) t zs,
      rw (dup_nonscalar_type-IsProper t p.1, run) refl,
      IsRenamed-attr (new_name renv) m t xs zs p inj r,
    )

pub rename_checked :
    (xs : Attrs) (renv : List Renaming)
    → check_renamings xs renv ≡ none
    → rename_tuple_type (tuple xs) renv ≡ (rename_attrs renv xs >>= (λ ys. ok (tuple ys)))
unfolding rename_tuple_type tuple_attrs
rename_checked xs renv e = ground (arith, e)

pub rename_refused :
    (xs : Attrs) (renv : List Renaming) (e : Error)
    → check_renamings xs renv ≡ some e
    → rename_tuple_type (tuple xs) renv ≡ err e
unfolding rename_tuple_type tuple_attrs
rename_refused xs renv e h = ground (arith, h)
