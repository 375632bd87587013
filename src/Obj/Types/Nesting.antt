-- ===== src/Obj/Types/Nesting.antt =====
-- The types of WRAP, UNWRAP, GROUP and UNGROUP in duro/obj/type.c. The arrays of attributes are
-- allocated before they are filled, and a write behind the end of one is the error `out_of_bounds`.
-- Where the number of attributes computed is negative, the allocation of that many fails.
pub mod Picks
pub mod Group
pub mod Ungroup
pub mod Wrap
pub mod Unwrap
use durodbms.Gen.Strings.{Str, is_listed, str_equal}
use durodbms.Obj.Types.{
  Attrs, RdbType, attr, attr_count, find_attr, has_attr, no_attrs, relation, tuple,
}
use durodbms.Obj.Types.Operations.{
  append_attrs, dup_nonscalar_type, new_attrs, over_base, tuple_attrs,
}
use durodbms.Prelude.{
  Bool, List, Result, [], err, false, if◌then◌else◌, invalid_argument, length, ltb, name_error,
  no_memory, none, not, ok, out_of_bounds, some, true, uninitialised, ℕ, ◌&&◌, ◌+◌, ◌-◌, ◌==◌,
  ◌>>=◌, ◌∷◌,
}

-- `copy_attr` reports any failure as `no_memory`.
unfoldable pub copy_attr : RdbType → Result RdbType
copy_attr t = elim (dup_nonscalar_type t) [ ok u ↦ ok u | err e ↦ err no_memory ]

-- Copies attributes into an array of `n`, from position `k` on.
unfoldable pub copy_into : ℕ → ℕ → Attrs → Result Attrs
copy_into n k no_attrs = ok no_attrs
copy_into n k (attr name t xs) =
    let rest = copy_into n (k + 1) xs in
    if ltb k n
    then copy_attr t >>= (λ u. rest >>= (λ ys. ok (attr name u ys)))
    else err out_of_bounds

-- `nattrc = more - fewer`, then the array.
abbrev pub with_array : ℕ → ℕ → (ℕ → Result Attrs) → Result Attrs
with_array more fewer fill = if ltb more fewer then err no_memory else fill (more - fewer)

-- The test at the end.
abbrev pub if_filled : ℕ → Attrs → Result Attrs
if_filled n ys = if attr_count ys == n then ok ys else err invalid_argument

pub record Wrapping : Type 0 where
  pub attrs : List Str
  pub attrname : Str

-- The attributes of one wrapping.
unfoldable pub wrapped_attrs : Attrs → List Str → Result Attrs
wrapped_attrs xs [] = ok no_attrs
wrapped_attrs xs (n ∷ names) =
    let rest = wrapped_attrs xs names in
    elim (find_attr xs n) [
      | none ↦ err name_error
      | some t ↦ copy_attr t >>= (λ u. rest >>= (λ ys. ok (attr n u ys)))
    ]

-- The loop over the wrappings, which writes from position `k` on.
unfoldable pub wrap_from : ℕ → ℕ → Attrs → List Wrapping → Result Attrs
wrap_from n k xs [] = ok no_attrs
wrap_from n k xs (w ∷ wrapv) =
    let rest = wrap_from n (k + 1) xs wrapv in
    wrapped_attrs xs w.attrs >>= (λ ys.
      if ltb k n then rest >>= (λ zs. ok (attr w.attrname (tuple ys) zs)) else err out_of_bounds)

unfoldable pub wrap_total : List Wrapping → ℕ
wrap_total [] = 0
wrap_total (w ∷ wrapv) = length w.attrs + wrap_total wrapv

unfoldable pub in_wrappings : List Wrapping → Str → Bool
in_wrappings [] n = false
in_wrappings (w ∷ wrapv) n =
    let rest = in_wrappings wrapv n in if is_listed w.attrs n then true else rest

-- The attributes that a loop passes on.
unfoldable pub keep : (Str → Bool) → Attrs → Attrs
keep test no_attrs = no_attrs
keep test (attr n t xs) = let rest = keep test xs in if test n then attr n t rest else rest

unfoldable pub wrap_attrs : Attrs → List Wrapping → ℕ → Result Attrs
wrap_attrs xs wrapv n = do
  ws ← wrap_from n 0 xs wrapv
  rest ← copy_into n (length wrapv) (keep (λ m. not (in_wrappings wrapv m)) xs)
  if_filled n (append_attrs ws rest)

unfoldable pub wrap_tuple_type : RdbType → List Wrapping → Result RdbType
wrap_tuple_type typ wrapv = do
  xs ← tuple_attrs typ
  ys ← with_array (attr_count xs + length wrapv) (wrap_total wrapv) (wrap_attrs xs wrapv)
  ok (tuple ys)

unfoldable pub wrap_relation_type : RdbType → List Wrapping → Result RdbType
wrap_relation_type typ wrapv = over_base (λ b. wrap_tuple_type b wrapv) typ

-- The attributes of the attributes to unwrap, in the order of their names.
unfoldable pub sub_attrs : Attrs → List Str → Result Attrs
sub_attrs xs [] = ok no_attrs
sub_attrs xs (n ∷ names) =
    let rest = sub_attrs xs names in
    elim (find_attr xs n) [
      | none ↦ err name_error
      | some (tuple ys) ↦ rest >>= (λ zs. ok (append_attrs ys zs))
      | some _ ↦ err invalid_argument
    ]

unfoldable pub unwrap_attrs : Attrs → List Str → Attrs → ℕ → Result Attrs
unwrap_attrs xs names subs n = do
  ys ← copy_into n 0 subs
  rest ← copy_into n (attr_count subs) (keep (λ m. not (is_listed names m)) xs)
  if_filled n (append_attrs ys rest)

unfoldable pub unwrap_tuple_type : RdbType → List Str → Result RdbType
unwrap_tuple_type typ names = do
  xs ← tuple_attrs typ
  subs ← sub_attrs xs names
  ys ← with_array (attr_count xs + attr_count subs) (length names) (unwrap_attrs xs names subs)
  ok (tuple ys)

unfoldable pub unwrap_relation_type : RdbType → List Str → Result RdbType
unwrap_relation_type typ names = over_base (λ b. unwrap_tuple_type b names) typ

-- The attributes of the new relation, as the type holds them.
unfoldable pub group_attrs : Attrs → List Str → Result Attrs
group_attrs xs [] = ok no_attrs
group_attrs xs (n ∷ names) =
    let rest = group_attrs xs names in
    elim (find_attr xs n) [ none ↦ err name_error | some t ↦ rest >>= (λ ys. ok (attr n t ys)) ]

-- The loop over the attributes that are not grouped.
unfoldable pub ungrouped : Attrs → Str → Attrs → Result Attrs
ungrouped grouped gattr no_attrs = ok no_attrs
ungrouped grouped gattr (attr n t xs) =
    let rest = ungrouped grouped gattr xs in
    if has_attr grouped n
    then rest
    else if str_equal n gattr
    then err invalid_argument
    else copy_attr t >>= (λ u. rest >>= (λ ys. ok (attr n u ys)))

unfoldable pub group_base : Attrs → List Str → Str → Result RdbType
group_base xs names gattr = do
  given ← group_attrs xs names
  grouped ← new_attrs given
  rest ← ungrouped grouped gattr xs
  if attr_count rest + length names == attr_count xs
      then ok (tuple (append_attrs rest (attr gattr (relation (tuple grouped)) no_attrs)))
      else err uninitialised

unfoldable pub group_type : RdbType → List Str → Str → Result RdbType
group_type typ names gattr =
    over_base (λ b. tuple_attrs b >>= (λ xs. group_base xs names gattr)) typ

-- The copy of the attributes of the attribute type, with the test for a clash of names.
unfoldable pub ungroup_attrs : Attrs → Str → Attrs → Result Attrs
ungroup_attrs xs name no_attrs = ok no_attrs
ungroup_attrs xs name (attr n t ys) =
    let rest = ungroup_attrs xs name ys in
    if not (str_equal n name) && has_attr xs n
    then err invalid_argument
    else copy_attr t >>= (λ u. rest >>= (λ zs. ok (attr n u zs)))

unfoldable pub copy_others : Attrs → Result Attrs
copy_others no_attrs = ok no_attrs
copy_others (attr n t xs) = copy_attr t >>= (λ u. copy_others xs >>= (λ ys. ok (attr n u ys)))

-- The attributes of the tuple type of a relation type.
abbrev pub relation_attrs : RdbType → Result Attrs
relation_attrs t = elim t [ relation u ↦ tuple_attrs u | _ ↦ err invalid_argument ]

-- The part of `RDB_ungroup_type` behind its checks of the attribute.
unfoldable pub ungroup_found : Attrs → Str → RdbType → Result RdbType
ungroup_found xs name t = do
  ys ← relation_attrs t
  others ← copy_others (keep (λ n. not (str_equal n name)) xs)
  added ← ungroup_attrs xs name ys
  if attr_count others + 1 == attr_count xs
      then ok (tuple (append_attrs others added))
      else err uninitialised

unfoldable pub ungroup_base : Attrs → Str → Result RdbType
ungroup_base xs name = elim (find_attr xs name) [
  | none ↦ err name_error
  | some t ↦ ungroup_found xs name t
]

unfoldable pub ungroup_type : RdbType → Str → Result RdbType
ungroup_type typ name = over_base (λ b. tuple_attrs b >>= (λ xs. ungroup_base xs name)) typ
