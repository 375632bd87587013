-- ===== src/Obj/Types/Operations/Renames.antt =====
-- `RDB_rename_tuple_type` of duro/obj/type.c against the list of renamings.
use durodbms.Gen.Strings.{Str, str_equal, str_equal_sound}
use durodbms.Obj.Types.{Attrs, RdbType, attr_count, find_attr, tuple}
use durodbms.Obj.Types.Lookup.{AreProper}
use durodbms.Obj.Types.Operations.{
  Renaming, check_renamings, find_rename_from, new_name, rename_tuple_type,
}
use durodbms.Obj.Types.Operations.Rename.{
  IsRenamed, new_name_injective, rename_attrs_lem, rename_checked, rename_refused,
}
use durodbms.Obj.Types.Operations.Renamings.{
  AreRenamings, check_renamings_complete, check_renamings_sound, str_equal-false,
}
use durodbms.Prelude.{
  Bool-cases, List, Option-cases, [], ap, arith, err, get_elem?, inl, inr, invalid_argument,
  name_error, ok, refl, some, subst, suc, sym, zero, ℕ, ◌∙◌, ◌∷◌, ◌≡◌, ◌≢◌, ◌⊎◌,
}

abbrev pub Listed : Renaming → List Renaming → Type 0
Listed r renv = (i : ℕ) × (get_elem? renv i ≡ some r)

-- A renaming in the list has the name as its source and `m` as its target; or none has the name as
-- its source, and the name stays.
abbrev pub RenamesTo : List Renaming → Str → Str → Type 0
RenamesTo renv n m =
    ((r : Renaming) × Listed r renv × (r.source ≡ n) × (r.target ≡ m))
    ⊎ (((r : Renaming) → Listed r renv → r.source ≢ n) × (m ≡ n))

RenamesTo-head :
    (r : Renaming) (renv : List Renaming) (n : Str) → r.source ≡ n → RenamesTo (r ∷ renv) n r.target
RenamesTo-head r renv n e = inl (r, (0, refl), e, refl)

RenamesTo-tail :
    (r : Renaming) (renv : List Renaming) (n m : Str)
    → r.source ≢ n
    → RenamesTo renv n m
    → RenamesTo (r ∷ renv) n m
RenamesTo-tail r renv n m ne (inl (q, (i, at), e, f)) = inl (q, (suc i, at), e, f)
RenamesTo-tail r renv n m ne (inr (none_has, e)) = inr (no_source, e)
  where
    no_source : (q : Renaming) → Listed q (r ∷ renv) → q.source ≢ n
    no_source q (zero, at) same =
        let first : r ≡ q = cc at in ne (ap (λ (z : Renaming). z.source) first ∙ same)
    no_source q (suc i, at) same = none_has q (i, at) same

-- The name that the code finds.
RenamesTo-new_name : (renv : List Renaming) (n : Str) → RenamesTo renv n (new_name renv n)
unfolding find_rename_from
RenamesTo-new_name [] n = inr ((λ q l same. absurd (ground (arith, l.1))), refl)
RenamesTo-new_name (r ∷ renv) n = elim (Bool-cases (str_equal r.source n)) [
  | inl e ↦
      let here : new_name (r ∷ renv) n ≡ r.target = ground (arith, e) in
      subst (RenamesTo (r ∷ renv) n) (sym here)
        (RenamesTo-head r renv n (str_equal_sound r.source n e))
  | inr e ↦
      let later : new_name (r ∷ renv) n ≡ new_name renv n = ground (arith, e) in
      subst (RenamesTo (r ∷ renv) n) (sym later) (
        RenamesTo-tail r renv n (new_name renv n) (str_equal-false r.source n e)
          (RenamesTo-new_name renv n))
]

-- `zs` has the attributes of `xs` under the names that the renamings give them.
pub record Renames (renv : List Renaming) (xs zs : Attrs) : Type 0 where
  pub proper : AreProper zs
  pub length_same : attr_count zs ≡ attr_count xs
  pub reads :
      (n : Str) (t : RdbType)
      → find_attr xs n ≡ some t
      → (m : Str) × RenamesTo renv n m × (find_attr zs m ≡ some t)
  pub from :
      (m : Str) (t : RdbType)
      → find_attr zs m ≡ some t
      → (n : Str) × RenamesTo renv n m × (find_attr xs n ≡ some t)

IsRenamed-Renames :
    (renv : List Renaming) (xs zs : Attrs) → IsRenamed (new_name renv) xs zs → Renames renv xs zs
IsRenamed-Renames renv xs zs r = record {
  proper = r.proper;
  length_same = r.length_same;
  reads = λ n t at. (new_name renv n, RenamesTo-new_name renv n, r.reads n t at);
  from = λ m t at.
      let (n, e, there) = r.from m t at in
      (n, subst (RenamesTo renv n) (sym e) (RenamesTo-new_name renv n), there);
}

-- `RDB_rename_tuple_type` of a tuple type that holds no name twice. If each source is an attribute,
-- no target is one, and no two sources or targets are the same, it returns a tuple type that holds
-- no name twice and has as many attributes. An attribute that is the source of a renaming stands in
-- it under the target, every other under its own name, each with its type, and there are no further
-- ones. Otherwise it reports a name error or an invalid argument.
pub rename_tuple_type-Renames :
    (xs : Attrs) (renv : List Renaming)
    → AreProper xs
    → (AreRenamings xs renv
        × ((zs : Attrs) × (rename_tuple_type (tuple xs) renv ≡ ok (tuple zs)) × Renames renv xs zs))
      ⊎ ((¬ AreRenamings xs renv)
          × ((rename_tuple_type (tuple xs) renv ≡ err name_error)
              ⊎ (rename_tuple_type (tuple xs) renv ≡ err invalid_argument)))
rename_tuple_type-Renames xs renv p = elim (Option-cases (check_renamings xs renv)) [
  | inl e ↦
      let v = check_renamings_sound xs renv e in
      let (zs, run, r) = rename_attrs_lem renv xs p (new_name_injective xs renv v) in
      inl (v, (zs, rename_checked xs renv e ∙ rw run refl, IsRenamed-Renames renv xs zs r))
  | inr (er, e) ↦
      let (bad, kind) = check_renamings_complete xs renv er e in
      inr (
        bad,
        elim kind [
          | inl q ↦ inl (rename_refused xs renv er e ∙ ap err q)
          | inr q ↦ inr (rename_refused xs renv er e ∙ ap err q)
        ],
      )
]
