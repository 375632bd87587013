-- ===== src/Obj/Types/Equality.antt =====
-- `RDB_type_equals` of duro/obj/type.c as an equivalence. The order of the attributes of a tuple
-- type does not matter to it.
use durodbms.Gen.Strings.{Str, str_equal, str_equal_sound, str_equal_refl, str_equal_symm}
use durodbms.Obj.Types.{
  Attrs, RdbType, among, array, attr, attr_count, find_attr, no_attrs, relation, scalar, tuple,
  type_equals, within,
}
use durodbms.Obj.Types.Lookup.{
  AreProper, IsProper, absent_none, attr_count_ext, find_attr-IsProper, same_names,
}
use durodbms.Prelude.{
  Bool, Bool-cases, Option-cases, arith, inl, inr, refl, some, subst, sym, true, ◌&&◌, ◌∙◌, ◌≡◌,
  ◌⊎◌,
}

-- The attribute `n` of type `t` is in the list.
abbrev pub Occurs : Str → RdbType → Attrs → Type 0
Occurs n t no_attrs = ⊥
Occurs n t (attr m u xs) = ((m ≡ n) × (u ≡ t)) ⊎ Occurs n t xs

pub among_intro :
    (same : RdbType → Bool) (n : Str) (u : RdbType) (ys : Attrs)
    → Occurs n u ys
    → same u ≡ true
    → among same n ys ≡ true
unfolding among
among_intro same n u no_attrs o h = absurd o
among_intro same n u (attr m v ys) (inl (e, f)) h = rw (e, f, h, str_equal_refl n) refl
among_intro same n u (attr m v ys) (inr o) h = ground (arith, among_intro same n u ys o h)

pub among_elim :
    (same : RdbType → Bool) (n : Str) (ys : Attrs)
    → among same n ys ≡ true
    → (u : RdbType) × Occurs n u ys × (same u ≡ true)
unfolding among
among_elim same n no_attrs h = absurd (ground arith)
among_elim same n (attr m v ys) h = elim (Bool-cases (same v && str_equal n m)) [
  | inl e ↦ (v, inl (sym (str_equal_sound n m (ground (arith, e))), refl), ground (arith, e))
  | inr e ↦ let (u, o, s) = among_elim same n ys (ground (arith, e)) in (u, inr o, s)
]

within_elim :
    (xs ys : Attrs) (n : Str) (t : RdbType)
    → within xs ys ≡ true
    → Occurs n t xs
    → (u : RdbType) × Occurs n u ys × (type_equals t u ≡ true)
unfolding type_equals
within_elim no_attrs ys n t h o = absurd o
within_elim (attr m u xs) ys n t h (inl (e, f)) =
    subst (λ k. (v : RdbType) × Occurs k v ys × (type_equals t v ≡ true)) e
      (subst (λ r. (v : RdbType) × Occurs m v ys × (type_equals r v ≡ true)) f
        (among_elim (type_equals u) m ys (ground (arith, h))))
within_elim (attr m u xs) ys n t h (inr o) = within_elim xs ys n t (ground (arith, h)) o

mutual
  unfolding type_equals

  equals_refl : (t : RdbType) → type_equals t t ≡ true
  equals_refl (scalar s sup reps) = str_equal_refl s.name
  equals_refl (tuple xs) = ground (arith, within_self xs xs (λ n t o. o))
  equals_refl (relation t) = equals_refl t
  equals_refl (array t) = equals_refl t

  within_self :
      (xs ys : Attrs)
      → ((n : Str) (t : RdbType) → Occurs n t xs → Occurs n t ys)
      → within xs ys ≡ true
  within_self no_attrs ys sub = refl
  within_self (attr n t xs) ys sub =
      rw (among_intro (type_equals t) n t ys (sub n t (inl (refl, refl))) (equals_refl t))
        (within_self xs ys (λ m u o. sub m u (inr o)))

mutual
  unfolding type_equals

  equals_trans :
      (t u v : RdbType) → type_equals t u ≡ true → type_equals u v ≡ true → type_equals t v ≡ true
  equals_trans (scalar s a b) (scalar s' a' b') (scalar s'' a'' b'') h k =
      rw (str_equal_sound s.name s'.name h) k
  equals_trans (tuple xs) (tuple ys) (tuple zs) h k =
      ground (arith, h, k, within_trans xs ys zs (ground (arith, h)) (ground (arith, k)))
  equals_trans (relation t) (relation u) (relation v) h k = equals_trans t u v h k
  equals_trans (array t) (array u) (array v) h k = equals_trans t u v h k
  equals_trans _ _ _ h k = absurd (ground (arith, h, k))

  within_trans :
      (xs ys zs : Attrs) → within xs ys ≡ true → within ys zs ≡ true → within xs zs ≡ true
  within_trans no_attrs ys zs h k = refl
  within_trans (attr n t xs) ys zs h k =
      let (u, o, s) = among_elim (type_equals t) n ys (ground (arith, h)) in
      let (v, o', s') = within_elim ys zs n u k o in
      rw (among_intro (type_equals t) n v zs o' (equals_trans t u v s s'))
        (within_trans xs ys zs (ground (arith, h)) k)

-- In a list without a name twice an occurrence is what a lookup finds.
find_attr-Occurs :
    (xs : Attrs) (n : Str) (t : RdbType) → AreProper xs → Occurs n t xs → find_attr xs n ≡ some t
unfolding find_attr IsProper
find_attr-Occurs no_attrs n t p o = absurd o
find_attr-Occurs (attr m u xs) n t p (inl (e, f)) = rw (e, f, str_equal_refl n) refl
find_attr-Occurs (attr m u xs) n t p (inr o) =
    let later = find_attr-Occurs xs n t p.2 o in
    elim (Bool-cases (str_equal m n)) [
      | inl e ↦ absurd (absent_none xs m n t (str_equal_sound m n e) p.0 later)
      | inr e ↦ rw (e, find_attr) later
    ]

Occurs-find_attr : (xs : Attrs) (n : Str) (t : RdbType) → find_attr xs n ≡ some t → Occurs n t xs
unfolding find_attr
Occurs-find_attr no_attrs n t h = absurd (ground arith)
Occurs-find_attr (attr m u xs) n t h = elim (Bool-cases (str_equal m n)) [
  | inl e ↦ inl (str_equal_sound m n e, ground (arith, e))
  | inr e ↦ inr (Occurs-find_attr xs n t (ground (arith, e)))
]

within_intro :
    (xs ys : Attrs)
    → ((n : Str) (t : RdbType)
        → Occurs n t xs
        → (u : RdbType) × (find_attr ys n ≡ some u) × (type_equals t u ≡ true))
    → within xs ys ≡ true
unfolding type_equals
within_intro no_attrs ys give = refl
within_intro (attr n t xs) ys give =
    let (u, h, e) = give n t (inl (refl, refl)) in
    rw (among_intro (type_equals t) n u ys (Occurs-find_attr ys n u h) e)
      (within_intro xs ys (λ m v o. give m v (inr o)))

mutual
  unfolding type_equals IsProper find_attr

  equals_symm :
      (t u : RdbType) → IsProper t → IsProper u → type_equals t u ≡ true → type_equals u t ≡ true
  equals_symm (scalar s a b) (scalar s' a' b') p q h = rw (← h) (str_equal_symm s'.name s.name)
  equals_symm (tuple xs) (tuple ys) p q h =
      let c : attr_count xs ≡ attr_count ys = ground (arith, h) in
      let w : within xs ys ≡ true = ground (arith, h) in
      let back = within_intro ys xs (λ n u o.
        let there = find_attr-Occurs ys n u q o in
        elim (Option-cases (find_attr xs n)) [
          | inl gone ↦ absurd (
              cc (
                there,
                same_names xs ys p q c
                    (λ m t f g. let (v, f', e) = matched_back xs ys p q w m t f in cc (f', g)) n
                    gone,
              ))
          | inr (t, f) ↦
              let (v, f', e) = matched_back xs ys p q w n t f in
              let same : v ≡ u = ground (arith, f', there) in
              (t, f, subst (λ r. type_equals r t ≡ true) same e)
        ]) in
      ground (arith, c, back)
  equals_symm (relation t) (relation u) p q h = equals_symm t u p q h
  equals_symm (array t) (array u) p q h = equals_symm t u p q h
  equals_symm _ _ p q h = absurd (ground (arith, h))

  -- What the second list has for an attribute of the first one is equal to it.
  matched_back :
      (xs ys : Attrs)
      → AreProper xs
      → AreProper ys
      → within xs ys ≡ true
      → (n : Str) (t : RdbType) → find_attr xs n ≡ some t
      → (u : RdbType) × (find_attr ys n ≡ some u) × (type_equals u t ≡ true)
  matched_back no_attrs ys p q w n t f = absurd (ground (arith, f))
  matched_back (attr m v xs) ys p q w n t f = elim (Bool-cases (str_equal m n)) [
    | inl e ↦
        let (u, o, s) = among_elim (type_equals v) m ys (ground (arith, w)) in
        let there = find_attr-Occurs ys m u q o in
        let back = equals_symm v u p.1 (find_attr-IsProper ys m u q there) s in
        let same : v ≡ t = ground (arith, f, e) in
        (u, rw (← str_equal_sound m n e) there, subst (λ r. type_equals u r ≡ true) same back)
    | inr e ↦ matched_back xs ys p.2 q (ground (arith, w)) n t (ground (arith, f, e))
  ]

-- `RDB_type_equals` is an equivalence: it gives true on every type and itself, is transitive, and
-- gives the same either way round on types whose tuple types hold no name twice.
pub type_equals_equivalence :
    ((t : RdbType) → type_equals t t ≡ true)
    × ((t u v : RdbType) → type_equals t u ≡ true → type_equals u v ≡ true → type_equals t v ≡ true)
    × ((t u : RdbType) → IsProper t → IsProper u → type_equals t u ≡ type_equals u t)
type_equals_equivalence =
    (equals_refl, equals_trans, λ t u p q. ground (arith, equals_symm t u p q, equals_symm u t q p))

-- Tuple types with the same lookups are equal, whatever the order of their attributes.
pub type_equals_ext :
    (xs ys : Attrs)
    → AreProper xs
    → AreProper ys
    → ((n : Str) → find_attr xs n ≡ find_attr ys n)
    → type_equals (tuple xs) (tuple ys) ≡ true
unfolding type_equals
type_equals_ext xs ys p q same =
    let c = attr_count_ext xs ys p q same in
    let w =
      within_intro xs ys
        (λ n t o. (t, sym (same n) ∙ find_attr-Occurs xs n t p o, equals_refl t)) in
    ground (arith, c, w)
