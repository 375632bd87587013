-- ===== src/Obj/Arrays/Copy.antt =====
-- `RDB_copy_array` of duro/obj/array.c: the elements of the copy.
use durodbms.Obj.Arrays.{
  ArrayValue, array_get, array_length, array_object, array_set, copy_array, copy_elements,
  initial_array, set_array_length,
}
use durodbms.Obj.Arrays.Length.{IsArray}
use durodbms.Prelude.{
  Bool-cases, Error, Option, Option-cases, ap, arith, get_elem?, get_elem?-in, get_elem?-replicate,
  get_elem?-set_ne, get_elem?-set_self, inl, inr, leb, length, length-replicate, length-set, none,
  ok, pos, refl, replicate, set, some, subst, suc, sym, true, zero, ℕ, ℕ_discrete, ◌+◌, ◌<◌, ◌∙◌,
  ◌≡◌, ◌≤◌,
}

module _ {ℓ} {V : Type ℓ} (initial_value : V) where
  -- With memory an initial object becomes an array of initial objects.
  sized :
      (destroy : V → Option Error) (len : ℕ)
      → set_array_length initial_value destroy true initial_array len
        ≡ some (
          array_object
              (record { elemv = replicate len initial_value; length_of = len; capacity = len }),
          none,
        )
  unfolding set_array_length
  sized destroy len = ground arith

  module _ (copy : V → V → V × Option Error) where
    -- From index `i` on, `n` elements of `b` are copies of those of `a`; the others are those of `c`.
    abbrev CopiedFrom : ArrayValue V → ℕ → ℕ → ArrayValue V → ArrayValue V → Type ℓ
    CopiedFrom a i n c b =
        (j : ℕ)
        → (j < i → get_elem? b.elemv j ≡ get_elem? c.elemv j)
          × (i ≤ j
              → j < i + n
              → (v : V) → get_elem? a.elemv j ≡ some v
              → get_elem? b.elemv j ≡ some (copy initial_value v).0)

    -- The elements from an index on are initial objects.
    abbrev IsBlankFrom : ℕ → ArrayValue V → Type ℓ
    IsBlankFrom i c = (j : ℕ) → i ≤ j → j < c.length_of → get_elem? c.elemv j ≡ some initial_value

    copied_step :
        (a b c : ArrayValue V) (i n : ℕ) (v w : V)
        → get_elem? a.elemv i ≡ some v
        → (copy initial_value v).0 ≡ w
        → i < length c.elemv
        → CopiedFrom a (i + 1) n (record c { elemv = set c.elemv i w }) b
        → CopiedFrom a i (suc n) c b
    copied_step a b c i n v w here is room all j = (
      (λ less.
          (all j).0 (omega arith)
          ∙ get_elem?-set_ne c.elemv i j w (λ e. absurd (omega (arith, e, less)))),
      λ le less u at. elim (ℕ_discrete i j) [
        | yes e ↦
            let self : get_elem? b.elemv i ≡ some w =
              (all i).0 (omega arith) ∙ get_elem?-set_self c.elemv i w room in
            let there : get_elem? a.elemv i ≡ some u = rw e at in
            let same : v ≡ u = cc (here, there) in
            let value : w ≡ (copy initial_value u).0 =
              sym is ∙ ap (λ x. (copy initial_value x).0) same in
            subst (λ k. get_elem? b.elemv k ≡ some (copy initial_value u).0) e
              (self ∙ ap some value)
        | no ne ↦ (all j).1 (omega (arith, le, ne)) (omega (arith, less)) u at
      ],
    )

    copy_elements_lem :
        (a : ArrayValue V) (i n : ℕ) (c : ArrayValue V)
        → ((v : V) → (copy initial_value v).1 ≡ none)
        → IsArray a
        → IsArray c
        → IsBlankFrom i c
        → i + n ≤ a.length_of
        → c.length_of ≡ a.length_of
        → (b : ArrayValue V) × (copy_elements copy (array_object a) i n (array_object c)
            ≡ some (array_object b, none))
          × IsArray b
          × (b.length_of ≡ a.length_of)
          × CopiedFrom a i n c b
    unfolding copy_elements array_get array_set
    copy_elements_lem a i zero c fine va vc blank le same =
        (c, refl, vc, same, λ j. ((λ h. refl), λ h k. absurd (omega arith)))
    copy_elements_lem a i (suc n) c fine va vc blank le same =
        let (v, here) = get_elem?-in a.elemv i (omega (arith, va.within, va.room)) in
        let w = (copy initial_value v).0 in
        let c' : ArrayValue V = record c { elemv = set c.elemv i w } in
        let old = blank i (omega arith) (omega (arith, same, le)) in
        let blank' : IsBlankFrom (i + 1) c' = λ j from below.
          get_elem?-set_ne c.elemv i j w (λ e. absurd (omega (arith, e, from)))
          ∙ blank j (omega (arith, from)) below in
        let (b, run, vb, size, all) =
          copy_elements_lem a (i + 1) n c' fine va
            (record { within = vc.within; room = omega (arith, vc.room, length-set c.elemv i w) })
            blank' (omega arith) same in
        (
          b,
          ground (arith, here, old, fine v, run, le, same),
          vb,
          size,
          copied_step a b c i n v w here refl (omega (arith, vc.within, vc.room, le, same)) all,
        )

    element :
        (a : ArrayValue V) (i : ℕ) (v : V)
        → array_get (array_object a) (pos i) ≡ some (ok v)
        → (i < a.length_of) × (get_elem? a.elemv i ≡ some v)
    unfolding array_get
    element a i v h = elim (Bool-cases (leb a.length_of i)) [
      | inl out ↦ absurd (ground (arith, h, out))
      | inr inside ↦ elim (Option-cases (get_elem? a.elemv i)) [
        | inl none_there ↦ absurd (ground (arith, h, inside, none_there))
        | inr (u, there) ↦
            let same : u ≡ v = ground (arith, h, inside, there) in
            (ground (arith, inside), there ∙ ap some same)
      ]
    ]

    -- With memory, and where each copy of a value onto an initial object succeeds, `RDB_copy_array`
    -- of a valid array to an initial object returns and succeeds. The destination is then a valid
    -- array of the length of the source, and `RDB_array_get` gives of it, for each element that it
    -- gives of the source, the copy of that element onto an initial object.
    pub copy_array-Copies :
        (destroy : V → Option Error) (a : ArrayValue V)
        → ((v : V) → (copy initial_value v).1 ≡ none)
        → IsArray a
        → (b : ArrayValue V) × (copy_array initial_value copy destroy true initial_array
              (array_object a)
            ≡ some (array_object b, none))
          × IsArray b
          × (array_length (array_object b) ≡ array_length (array_object a))
          × ((i : ℕ) (v : V)
              → array_get (array_object a) (pos i) ≡ some (ok v)
              → array_get (array_object b) (pos i) ≡ some (ok (copy initial_value v).0))
    unfolding copy_array array_length array_get
    copy_array-Copies destroy a fine valid =
        let n = a.length_of in
        let c : ArrayValue V = record {
          elemv = replicate n initial_value;
          length_of = n;
          capacity = n;
        } in
        let valid_c : IsArray c = record {
          within = omega arith;
          room = omega (arith, length-replicate n initial_value);
        } in
        let (b, run, valid_b, size_b, all) =
          copy_elements_lem a 0 n c fine valid valid_c
            (λ j from below. get_elem?-replicate n j initial_value below) (omega arith) refl in
        (
          b,
          rw (sized destroy n) run,
          valid_b,
          ap some size_b,
          λ i v at.
              let (inside, there) = element a i v at in
              let new = (all i).1 (omega arith) (omega (arith, inside)) v there in
              ground (arith, new, inside, size_b),
        )
