-- ===== src/TreeRec/Field/Locate.antt =====
-- Where the fields of an encoded record stand: `RDB_get_field` of duro/treerec/field.c.
use durodbms.Prelude.{
  All, List, Option, Option-cases, [], ap, append_assoc, arith, drop_all, inl, inr, length,
  length-append, le→ltb_false, none, ok, refl, some, subst, suc, sym, take_all, ℕ, ◌*◌, ◌++◌, ◌+◌,
  ◌-◌, ◌<◌, ◌^◌, ◌∙◌, ◌∷◌, ◌≡◌,
}
use durodbms.TreeRec.Bytes.{Bytes}
use durodbms.TreeRec.Field.{
  Field, Layout, Place, field_len, fixed_fields, fixed_offset, get_vflen, set_len, slice,
  var_fields, var_offset, var_pos,
}
use durodbms.TreeRec.Field.Encode.{datas, encoded, length-lens, lens}
use durodbms.TreeRec.Field.Store.{drop_two, get_len-set_len}

-- The fields are numbered from `lo` on.
abbrev pub Numbered : ℕ → List Field → Type 0
Numbered lo [] = Unit
Numbered lo (f ∷ fs) = (f.no ≡ lo) × Numbered (suc lo) fs

-- A field has the length that the layout says, or one that four bytes hold.
abbrev pub HasFit : Option ℕ → ℕ → Type 0
HasFit (some n) len = len ≡ n
HasFit none len = len < 2 ^ 31

abbrev pub Fits : Layout → List Field → Type 0
Fits l = All (λ f. HasFit (field_len l f.no) (length f.value))

-- A part of a record: its fields fill the places from `lo` up to `hi`, `vfcnt` of them with a
-- length of their own.
pub record IsPart (l : Layout) (lo hi vfcnt : ℕ) (fs : List Field) : Type 0 where
  pub numbered : Numbered lo fs
  pub fits : Fits l fs
  pub filled : hi ≡ lo + length fs
  pub counted : vfcnt ≡ length (var_fields l fs)

pub fixed_offset_lem :
    (l : Layout) (lo : ℕ) (fs : List Field)
    → Numbered lo fs
    → Fits l fs
    → fixed_offset l (length fs) lo ≡ length (datas (fixed_fields l fs))
unfolding fixed_offset
fixed_offset_lem l lo [] n h = refl
fixed_offset_lem l lo (f ∷ fs) (e, n) (h, hs) = ground (
  arith,
  fixed_offset_lem l (suc lo) fs n hs,
  length-append {0} f.value (datas (fixed_fields l fs)),
)

pub var_pos_lem :
    (l : Layout) (lo : ℕ) (fs : List Field)
    → Numbered lo fs
    → var_pos l (length fs) lo ≡ length (var_fields l fs)
unfolding var_pos
var_pos_lem l lo [] n = refl
var_pos_lem l lo (f ∷ fs) (e, n) = ground (arith, var_pos_lem l (suc lo) fs n)

-- The loops stop in front of the field looked for.
pub Numbered-append :
    (lo : ℕ) (fs gs : List Field)
    → Numbered lo (fs ++ gs)
    → Numbered lo fs × Numbered (lo + length fs) gs
Numbered-append lo [] gs n = let e : lo + 0 ≡ lo = omega arith in (tt, rw e n)
Numbered-append lo (f ∷ fs) gs (e, n) =
    let (a, b) = Numbered-append (suc lo) fs gs n in
    let e' : lo + suc (length fs) ≡ suc lo + length fs = omega arith in ((e, a), rw e' b)

pub fixed_fields-append :
    (l : Layout) (fs gs : List Field)
    → fixed_fields l (fs ++ gs) ≡ fixed_fields l fs ++ fixed_fields l gs
fixed_fields-append l [] gs = refl
fixed_fields-append l (f ∷ fs) gs = ground (arith, fixed_fields-append l fs gs)

pub var_fields-append :
    (l : Layout) (fs gs : List Field) → var_fields l (fs ++ gs) ≡ var_fields l fs ++ var_fields l gs
var_fields-append l [] gs = refl
var_fields-append l (f ∷ fs) gs = ground (arith, var_fields-append l fs gs)

pub datas-append : (fs gs : List Field) → datas (fs ++ gs) ≡ datas fs ++ datas gs
datas-append [] gs = refl
datas-append (f ∷ fs) gs =
    rw (datas-append fs gs) (sym (append_assoc f.value (datas fs) (datas gs)))

pub lens-append : (fs gs : List Field) → lens (fs ++ gs) ≡ lens fs ++ lens gs
lens-append [] gs = refl
lens-append (f ∷ fs) gs =
    rw (lens-append fs gs) (sym (append_assoc (set_len (length f.value)) (lens fs) (lens gs)))

-- The length of the variable-length field at `vpos`.
pub get_vflen_lem :
    (body : Bytes) (fs gs : List Field) (f : Field) (vfcnt vpos : ℕ)
    → vpos ≡ length fs
    → vfcnt ≡ length (fs ++ (f ∷ gs))
    → length f.value < 2 ^ 31
    → get_vflen (body ++ lens (fs ++ (f ∷ gs))) vfcnt vpos ≡ ok (length f.value)
unfolding get_vflen
get_vflen_lem body fs gs f vfcnt vpos h k m =
    let all = lens (fs ++ (f ∷ gs)) in
    let size : length (body ++ all) ≡ length body + vfcnt * 4 =
      omega (arith, length-append {0} body all, length-lens (fs ++ (f ∷ gs)), k) in
    let off : length (body ++ all) - vfcnt * 4 + vpos * 4 ≡ length body + vpos * 4 =
      omega (arith, size) in
    rw (le→ltb_false (length (body ++ all)) (vfcnt * 4) (omega (arith, size))) (
      rw off (
        rw (lens-append fs (f ∷ gs)) (
          rw
            (drop_two (length body) (vpos * 4) body (lens fs) (lens (f ∷ gs)) refl
              (omega (arith, length-lens fs, h)))
            (get_len-set_len (length f.value) (lens gs) m))))

abbrev pub IsShort : Field → Type 0
IsShort f = length f.value < 2 ^ 31

pub var_fields-IsShort : (l : Layout) (fs : List Field) → Fits l fs → All IsShort (var_fields l fs)
var_fields-IsShort l [] h = tt
var_fields-IsShort l (f ∷ fs) (h, hs) = elim (Option-cases (field_len l f.no)) [
  | inl e ↦ rw (e, var_fields) (rw e at h, var_fields-IsShort l fs hs)
  | inr (n, e) ↦ rw (e, var_fields) (var_fields-IsShort l fs hs)
]

pub var_offset_lem :
    (body : Bytes) (done fs gs : List Field) (vfcnt i : ℕ)
    → i ≡ length done
    → vfcnt ≡ length (done ++ (fs ++ gs))
    → All IsShort fs
    → var_offset (body ++ lens (done ++ (fs ++ gs))) vfcnt (length fs) i ≡ ok (length (datas fs))
unfolding var_offset
var_offset_lem body done [] gs vfcnt i h k m = refl
var_offset_lem body done (f ∷ fs) gs vfcnt i h k (m, ms) =
    let move : done ++ ((f ∷ fs) ++ gs) ≡ (done ++ (f ∷ [])) ++ (fs ++ gs) =
      sym (append_assoc done (f ∷ []) (fs ++ gs)) in
    let ih : var_offset (body ++ lens (done ++ ((f ∷ fs) ++ gs))) vfcnt (length fs) (suc i)
        ≡ ok (length (datas fs)) =
      subst
        (λ (z : List Field).
          var_offset (body ++ lens z) vfcnt (length fs) (suc i) ≡ ok (length (datas fs)))
        (sym move)
        (var_offset_lem body (done ++ (f ∷ [])) fs gs vfcnt (suc i)
          (omega (arith, length-append {0} done (f ∷ []))) (k ∙ ap length move) ms) in
    rw (get_vflen_lem body done (fs ++ gs) f vfcnt i h k m)
      (rw ih (ap (λ (n : ℕ). ok n) (sym (length-append f.value (datas fs)))))

-- The place of the field `f` between `fs` and `gs`.
abbrev pub place_of : Layout → List Field → Field → List Field → Place
place_of l fs f gs = elim (field_len l f.no) [
  | some n ↦ record { offs = length (datas (fixed_fields l fs)); len = length f.value; vpos = none }
  | none ↦ record {
    offs = length (datas (fixed_fields l (fs ++ gs))) + length (datas (var_fields l fs));
    len = length f.value;
    vpos = some (length (var_fields l fs));
  }
]

pub fixed_split :
    (l : Layout) (fs : List Field) (f : Field) (gs : List Field) (n : ℕ)
    → field_len l f.no ≡ some n
    → encoded l (fs ++ (f ∷ gs))
      ≡ datas (fixed_fields l fs)
        ++ (f.value
            ++ (datas (fixed_fields l gs)
                ++ (datas (var_fields l (fs ++ gs)) ++ lens (var_fields l (fs ++ gs)))))
fixed_split l fs f gs n e = rw (fixed_fields-append l fs (f ∷ gs)) (
    rw (var_fields-append l fs (f ∷ gs)) (
      rw (e, fixed_fields, var_fields)
        (rw (var_fields-append l fs gs)
          (rw (datas-append (fixed_fields l fs) (f ∷ fixed_fields l gs)) (simp append_assoc)))))

pub var_split :
    (l : Layout) (fs : List Field) (f : Field) (gs : List Field)
    → field_len l f.no ≡ none
    → encoded l (fs ++ (f ∷ gs))
      ≡ (datas (fixed_fields l (fs ++ gs)) ++ datas (var_fields l fs))
        ++ (f.value
            ++ (datas (var_fields l gs)
                ++ (lens (var_fields l fs)
                    ++ (set_len (length f.value) ++ lens (var_fields l gs)))))
var_split l fs f gs e = rw (fixed_fields-append l fs (f ∷ gs)) (
    rw (var_fields-append l fs (f ∷ gs)) (
      rw (e, fixed_fields, var_fields)
        (rw (fixed_fields-append l fs gs) (
          rw (datas-append (var_fields l fs) (f ∷ var_fields l gs))
            (rw (lens-append (var_fields l fs) (f ∷ var_fields l gs)) (simp append_assoc))))))

pub slice_between :
    (a b c : Bytes) (p : Place) → p.offs ≡ length a → p.len ≡ length b → slice (a ++ (b ++ c)) p ≡ b
slice_between a b c p h k = rw (drop_all p.offs a (b ++ c) h) (take_all p.len b c k)

-- The place of a field holds its bytes.
pub slice-place_of :
    (l : Layout) (fs : List Field) (f : Field) (gs : List Field)
    → slice (encoded l (fs ++ (f ∷ gs))) (place_of l fs f gs) ≡ f.value
slice-place_of l fs f gs = elim (Option-cases (field_len l f.no)) [
  | inl e ↦ rw (var_split l fs f gs e) (
      rw (e, place_of)
        (slice_between (datas (fixed_fields l (fs ++ gs)) ++ datas (var_fields l fs)) f.value
          (datas (var_fields l gs)
            ++ (lens (var_fields l fs) ++ (set_len (length f.value) ++ lens (var_fields l gs))))
          (record {
            offs = length (datas (fixed_fields l (fs ++ gs))) + length (datas (var_fields l fs));
            len = length f.value;
            vpos = some (length (var_fields l fs));
          })
          (omega (
            arith,
            length-append {0} (datas (fixed_fields l (fs ++ gs))) (datas (var_fields l fs)),
          ))
          refl))
  | inr (n, e) ↦ rw (fixed_split l fs f gs n e) (
      rw (e, place_of)
        (slice_between (datas (fixed_fields l fs)) f.value
          (datas (fixed_fields l gs)
            ++ (datas (var_fields l (fs ++ gs)) ++ lens (var_fields l (fs ++ gs))))
          (record { offs = length (datas (fixed_fields l fs)); len = length f.value; vpos = none })
          refl refl))
]
