-- ===== src/Obj/Types/Nesting/Picks.antt =====
-- The attributes that a list of names picks from a type, in the loops of duro/obj/type.c.
use durodbms.Gen.Strings.{Str, find_str, is_listed, str_equal, str_equal_sound}
use durodbms.Obj.Types.{Attrs, RdbType, attr, attr_count, find_attr, no_attrs}
use durodbms.Obj.Types.Lookup.{AreProper, IsProper, dup_nonscalar_type-IsProper}
use durodbms.Obj.Types.Nesting.{copy_attr}
use durodbms.Prelude.{
  Bool-cases, List, [], ap, arith, false, if◌then◌else◌, inl, inr, length, none, ok, refl, some,
  suc, true, ◌∷◌, ◌≡◌, ◌≢◌,
}

-- No name twice.
abbrev pub DistinctNames : List Str → Type 0
DistinctNames [] = Unit
DistinctNames (n ∷ names) = (is_listed names n ≡ false) × DistinctNames names

-- Each name is that of an attribute.
abbrev pub AreAttrs : Attrs → List Str → Type 0
AreAttrs xs [] = Unit
AreAttrs xs (n ∷ names) = (find_attr xs n ≢ none) × AreAttrs xs names

pub is_listed-cons :
    (n : Str) (names : List Str) (m : Str)
    → is_listed (n ∷ names) m ≡ (if str_equal n m then true else is_listed names m)
unfolding find_str
is_listed-cons n names m = ground arith

pub is_listed_nil : (m : Str) → is_listed [] m ≡ false
unfolding find_str
is_listed_nil m = refl

-- What the list of the attributes named holds.
pub record Picks (xs : Attrs) (names : List Str) (gs : Attrs) : Type 0 where
  pub proper : AreProper gs
  pub count : attr_count gs ≡ length names
  pub reads : (n : Str) → find_attr gs n ≡ (if is_listed names n then find_attr xs n else none)

pub Picks-cons :
    (xs : Attrs) (n : Str) (names : List Str) (t : RdbType) (gs : Attrs)
    → is_listed names n ≡ false
    → find_attr xs n ≡ some t
    → IsProper t
    → Picks xs names gs
    → Picks xs (n ∷ names) (attr n t gs)
unfolding find_attr IsProper attr_count
Picks-cons xs n names t gs new there p g = record {
  proper = (rw (g.reads n, new) refl, p, g.proper);
  count = ap suc g.count;
  reads = λ m. elim (Bool-cases (str_equal n m)) [
    | inl e ↦
        let moved = rw (str_equal_sound n m e) at there in
        ground (arith, is_listed-cons n names m, e, moved)
    | inr e ↦ ground (arith, is_listed-cons n names m, e, g.reads m)
  ];
}

pub Picks-nil : (xs : Attrs) → Picks xs [] no_attrs
unfolding find_attr IsProper attr_count find_str
Picks-nil xs = record { proper = tt; count = refl; reads = λ n. refl }

pub copy_attr-IsProper : (t : RdbType) → IsProper t → copy_attr t ≡ ok t
unfolding copy_attr
copy_attr-IsProper t p = ground (arith, dup_nonscalar_type-IsProper t p)
