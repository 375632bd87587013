-- ===== src/TreeRec/Field/Read.antt =====
-- `RDB_get_field` of duro/treerec/field.c on the fields of an encoded record.
use durodbms.Prelude.{
  All-append_left, All-append_right, List, Option-cases, [], ap, append_assoc, arith, drop,
  if◌then◌else◌, inl, inr, length, length-append, length-drop, length-take, le→ltb_false, ltb,
  lt→ltb, none, ok, refl, sym, ℕ, ◌++◌, ◌+◌, ◌-◌, ◌∙◌, ◌∷◌, ◌≡◌, ◌≤◌, ◌⊎◌,
}
use durodbms.TreeRec.Field.{
  Field, Layout, field_len, fixed_fields, fixed_offset, get_field, locate, var_fields, var_pos,
}
use durodbms.TreeRec.Field.Encode.{datas, encoded, lens}
use durodbms.TreeRec.Field.Locate.{
  HasFit, IsPart, Numbered-append, fixed_fields-append, fixed_offset_lem, get_vflen_lem, place_of,
  slice-place_of, var_fields-IsShort, var_fields-append, var_offset_lem, var_pos_lem,
}

module _ (l : Layout) (lo hi vfcnt : ℕ) (fs : List Field) (f : Field) (gs : List Field)
    (p : IsPart l lo hi vfcnt (fs ++ (f ∷ gs))) where
  pub no_lem : f.no ≡ lo + length fs
  no_lem = (Numbered-append lo fs (f ∷ gs) p.numbered).1.0

  before_fixed : fixed_offset l (f.no - lo) lo ≡ length (datas (fixed_fields l fs))
  before_fixed =
      let e : f.no - lo ≡ length fs = omega (arith, no_lem) in
      rw e (
        fixed_offset_lem l lo fs (Numbered-append lo fs (f ∷ gs) p.numbered).0 (
          All-append_left (λ (f : Field). HasFit (field_len l f.no) (length f.value)) fs (f ∷ gs)
            p.fits))

  before_var : var_pos l (f.no - lo) lo ≡ length (var_fields l fs)
  before_var =
      let e : f.no - lo ≡ length fs = omega (arith, no_lem) in
      rw e (var_pos_lem l lo fs (Numbered-append lo fs (f ∷ gs) p.numbered).0)

  pub fit : HasFit (field_len l f.no) (length f.value)
  fit =
      (All-append_right (λ (f : Field). HasFit (field_len l f.no) (length f.value)) fs (f ∷ gs)
        p.fits).0

  same_fixed : field_len l f.no ≡ none → fixed_fields l (fs ++ (f ∷ gs)) ≡ fixed_fields l (fs ++ gs)
  same_fixed e =
      rw (fixed_fields-append l fs (f ∷ gs))
        (rw (fixed_fields-append l fs gs) (rw (e, fixed_fields) refl))

  more_var :
      field_len l f.no ≡ none
      → var_fields l (fs ++ (f ∷ gs)) ≡ var_fields l fs ++ (f ∷ var_fields l gs)
  more_var e = rw (var_fields-append l fs (f ∷ gs)) (rw (e, var_fields) refl)

  all_fixed :
      field_len l f.no ≡ none
      → fixed_offset l (hi - lo) lo ≡ length (datas (fixed_fields l (fs ++ gs)))
  all_fixed e =
      let n : hi - lo ≡ length (fs ++ (f ∷ gs)) = omega (arith, p.filled) in
      rw n (rw (fixed_offset_lem l lo (fs ++ (f ∷ gs)) p.numbered p.fits) (rw (same_fixed e) refl))

  -- The field is found at its place.
  pub locate_lem : locate l lo hi vfcnt f.no (encoded l (fs ++ (f ∷ gs))) ≡ ok (place_of l fs f gs)
  unfolding locate
  locate_lem = elim (Option-cases (field_len l f.no)) [
    | inr (n, e) ↦
        rw (e, locate, place_of)
          (rw before_fixed (
            ap
              (λ (k : ℕ).
                ok (record { offs = length (datas (fixed_fields l fs)); len = k; vpos = none }))
              (sym (rw e at fit))))
    | inl e ↦
        let vs = var_fields l fs in
        let ws = var_fields l gs in
        let body = datas (fixed_fields l (fs ++ gs)) ++ datas (vs ++ (f ∷ ws)) in
        let c : vfcnt ≡ length (vs ++ (f ∷ ws)) = p.counted ∙ ap length (more_var e) in
        let whole : encoded l (fs ++ (f ∷ gs)) ≡ body ++ lens (vs ++ (f ∷ ws)) = rw (same_fixed e) (
          rw (more_var e) (
            sym (
              append_assoc (datas (fixed_fields l (fs ++ gs))) (datas (vs ++ (f ∷ ws)))
                (lens (vs ++ (f ∷ ws)))))) in
        rw (e, locate, place_of)
          (rw before_var (
            rw (all_fixed e) (
              rw whole (
                rw
                  (var_offset_lem body [] vs (f ∷ ws) vfcnt 0 refl c (
                    var_fields-IsShort l fs (
                      All-append_left (λ (f : Field). HasFit (field_len l f.no) (length f.value)) fs
                        (f ∷ gs) p.fits)))
                  (rw (get_vflen_lem body vs ws f vfcnt (length vs) refl c (rw e at fit)) refl)))))
  ]

-- The fields of a key, in the order of their numbers, and those of a value.
abbrev pub IsKey : Layout → List Field → Type 0
IsKey l fs = IsPart l 0 l.keyfieldcount l.varkeyfieldcount fs

abbrev pub IsValue : Layout → List Field → Type 0
IsValue l fs = IsPart l l.keyfieldcount l.fieldcount l.vardatafieldcount fs

part_lem :
    (l : Layout) (fs : List Field) (f : Field) (gs : List Field)
    → IsKey l (fs ++ (f ∷ gs)) ⊎ IsValue l (fs ++ (f ∷ gs))
    → (if ltb f.no l.keyfieldcount
        then locate l 0 l.keyfieldcount l.varkeyfieldcount f.no (encoded l (fs ++ (f ∷ gs)))
        else locate l l.keyfieldcount l.fieldcount l.vardatafieldcount f.no
            (encoded l (fs ++ (f ∷ gs))))
      ≡ ok (place_of l fs f gs)
part_lem l fs f gs (inl p) =
    rw
      (lt→ltb f.no l.keyfieldcount (
        omega (
          arith,
          p.filled,
          no_lem l 0 l.keyfieldcount l.varkeyfieldcount fs f gs p,
          length-append {0} fs (f ∷ gs),
        )))
      (locate_lem l 0 l.keyfieldcount l.varkeyfieldcount fs f gs p)
part_lem l fs f gs (inr p) =
    rw
      (le→ltb_false f.no l.keyfieldcount
        (omega (arith, no_lem l l.keyfieldcount l.fieldcount l.vardatafieldcount fs f gs p)))
      (locate_lem l l.keyfieldcount l.fieldcount l.vardatafieldcount fs f gs p)

place_len :
    (l : Layout) (fs : List Field) (f : Field) (gs : List Field)
    → (place_of l fs f gs).len ≡ length f.value
place_len l fs f gs = elim (Option-cases (field_len l f.no)) [
  | inl e ↦ rw (e, place_of) refl
  | inr (n, e) ↦ rw (e, place_of) refl
]

-- No field is longer than the block.
place_fits :
    (l : Layout) (fs : List Field) (f : Field) (gs : List Field)
    → (place_of l fs f gs).len ≤ length (encoded l (fs ++ (f ∷ gs)))
place_fits l fs f gs =
    let mem = encoded l (fs ++ (f ∷ gs)) in
    let at = place_of l fs f gs in
    omega (
      arith,
      place_len l fs f gs,
      ap length (slice-place_of l fs f gs),
      length-take {0} at.len (drop at.offs mem),
      length-drop {0} at.offs mem,
    )

pub get_field_lem :
    (l : Layout) (fs : List Field) (f : Field) (gs : List Field)
    → IsKey l (fs ++ (f ∷ gs)) ⊎ IsValue l (fs ++ (f ∷ gs))
    → get_field l f.no (encoded l (fs ++ (f ∷ gs))) ≡ ok (place_of l fs f gs)
unfolding get_field
get_field_lem l fs f gs p = rw (part_lem l fs f gs p) (
    rw
      (le→ltb_false (length (encoded l (fs ++ (f ∷ gs)))) (place_of l fs f gs).len
        (place_fits l fs f gs))
      refl)
