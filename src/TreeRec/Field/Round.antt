-- ===== src/TreeRec/Field/Round.antt =====
-- Reading what was written: `RDB_get_field` and `RDB_get_mem_fields` of duro/treerec/field.c on a
-- block that `RDB_fields_to_mem` has filled.
use durodbms.Prelude.{
  All, List, Returns, [], ap, arith, dec_lt, get_or, get_or-append_left, get_or-append_right,
  if◌then◌else◌, inl, inr, length, le→ltb_false, ltb, lt→ltb, map, ok, ok_injective, refl, suc, sym,
  true, zero, ℕ, ◌++◌, ◌+◌, ◌-◌, ◌<◌, ◌∙◌, ◌∷◌, ◌≡◌, ◌⊎◌,
}
use durodbms.TreeRec.Bytes.{Bytes}
use durodbms.TreeRec.Field.{Field, Layout, Place, fields_to_mem, get_field, get_mem_fields, slice}
use durodbms.TreeRec.Field.Encode.{encoded, fields_to_mem-encoded}
use durodbms.TreeRec.Field.Locate.{IsPart, place_of, slice-place_of}
use durodbms.TreeRec.Field.Read.{IsKey, IsValue, get_field_lem, no_lem}

-- A field of a key or value that `RDB_fields_to_mem` has written, where every fixed-length field has
-- its length and every other one a length below 2 ^ 31, is found by `RDB_get_field` without an
-- error, and the bytes at the place that it returns are those of the field.
pub get_field-fields_to_mem :
    (l : Layout) (fs : List Field) (f : Field) (gs : List Field) (mem : Bytes)
    → IsKey l (fs ++ (f ∷ gs)) ⊎ IsValue l (fs ++ (f ∷ gs))
    → fields_to_mem l true (fs ++ (f ∷ gs)) ≡ ok mem
    → Returns (get_field l f.no mem) (λ at. slice mem at ≡ f.value)
get_field-fields_to_mem l fs f gs mem p h =
    let e : encoded l (fs ++ (f ∷ gs)) ≡ mem =
      ok_injective (sym (fields_to_mem-encoded l (fs ++ (f ∷ gs))) ∙ h) in
    rw (sym e) (place_of l fs f gs, get_field_lem l fs f gs p, slice-place_of l fs f gs)

-- The fields with the given numbers.
abbrev pub pick : List Field → List ℕ → List Field
pick fs ns = map (λ n. get_or fs n (record { no = n; value = [] })) ns

split_at :
    (fs : List Field) (n : ℕ) (d : Field)
    → n < length fs
    → (gs : List Field) × (f : Field) × (hs : List Field) × (fs ≡ gs ++ (f ∷ hs))
      × (n ≡ length gs)
      × (get_or fs n d ≡ f)
split_at [] n d h = absurd (omega arith)
split_at (f ∷ fs) zero d h = ([], f, fs, refl, refl, refl)
split_at (f ∷ fs) (suc n) d h =
    let (gs, g, hs, e, k, m) = split_at fs n d (omega arith) in
    (f ∷ gs, g, hs, ap (λ l. f ∷ l) e, ap suc k, m)

same_field :
    (f : Field) (n : ℕ) (v : Bytes) → f.no ≡ n → v ≡ f.value → record { no = n; value = v } ≡ f
same_field f n v h k = rw (sym h) (rw k refl)

-- One step of `RDB_get_mem_fields`, in the part that holds the field.
pick_in :
    (l : Layout) (lo hi vfcnt : ℕ) (fs : List Field) (n m : ℕ) (d : Field)
    → IsKey l fs ⊎ IsValue l fs
    → IsPart l lo hi vfcnt fs
    → n ≡ lo + m
    → m < length fs
    → (at : Place) × (get_field l n (encoded l fs) ≡ ok at)
      × (record { no = n; value = slice (encoded l fs) at } ≡ get_or fs m d)
pick_in l lo hi vfcnt fs n m d p q h k =
    let (gs, f, hs, e, r, g) = split_at fs m d k in
    let p' : IsKey l (gs ++ (f ∷ hs)) ⊎ IsValue l (gs ++ (f ∷ hs)) = rw e at p in
    let no : f.no ≡ n = omega (arith, no_lem l lo hi vfcnt gs f hs (rw e at q), h, r) in
    rw g (
      rw e (
        rw (sym no) (
          place_of l gs f hs,
          get_field_lem l gs f hs p',
          same_field f f.no (slice (encoded l (gs ++ (f ∷ hs))) (place_of l gs f hs)) refl
              (slice-place_of l gs f hs),
        )))

abbrev part : Layout → List Field → List Field → ℕ → Bytes
part l ks vs n = if ltb n l.keyfieldcount then encoded l ks else encoded l vs

pick_one :
    (l : Layout) (ks vs : List Field) (n : ℕ) (d : Field)
    → IsKey l ks
    → IsValue l vs
    → n < l.fieldcount
    → (at : Place) × (get_field l n (part l ks vs n) ≡ ok at)
      × (record { no = n; value = slice (part l ks vs n) at } ≡ get_or (ks ++ vs) n d)
pick_one l ks vs n d p q h = elim (dec_lt n l.keyfieldcount) [
  | yes k ↦
      let m : n < length ks = omega (arith, p.filled) in
      rw (lt→ltb n l.keyfieldcount k) (
        rw (get_or-append_left ks vs n d m)
          (pick_in l 0 l.keyfieldcount l.varkeyfieldcount ks n n d (inl p) p (omega arith) m))
  | no k ↦
      let m : n - length ks < length vs = omega (arith, p.filled, q.filled) in
      rw (le→ltb_false n l.keyfieldcount (omega arith)) (
        rw (get_or-append_right ks vs n d (omega (arith, p.filled))) (
          pick_in l l.keyfieldcount l.fieldcount l.vardatafieldcount vs n (n - length ks) d (inr q)
            q (omega (arith, p.filled)) m))
]

pub get_mem_fields_lem :
    (l : Layout) (ks vs : List Field) (ns : List ℕ)
    → IsKey l ks
    → IsValue l vs
    → All (λ n. n < l.fieldcount) ns
    → get_mem_fields l (encoded l ks) (encoded l vs) ns ≡ ok (pick (ks ++ vs) ns)
unfolding get_mem_fields
get_mem_fields_lem l ks vs [] p q a = refl
get_mem_fields_lem l ks vs (n ∷ ns) p q (a, a') =
    let (at, e, same) = pick_one l ks vs n (record { no = n; value = [] }) p q a in
    rw e (rw (get_mem_fields_lem l ks vs ns p q a') (ap (λ f. ok (f ∷ pick (ks ++ vs) ns)) same))

-- The fields that `RDB_get_mem_fields` reads from a key and a value, as `RDB_fields_to_mem` writes
-- them, are the fields that were written, in the order asked for. The lengths are as in
-- `get_field-fields_to_mem`.
pub get_mem_fields-fields_to_mem :
    (l : Layout) (ks vs : List Field) (key value : Bytes) (ns : List ℕ)
    → IsKey l ks
    → IsValue l vs
    → fields_to_mem l true ks ≡ ok key
    → fields_to_mem l true vs ≡ ok value
    → All (λ n. n < l.fieldcount) ns
    → get_mem_fields l key value ns ≡ ok (pick (ks ++ vs) ns)
get_mem_fields-fields_to_mem l ks vs key value ns p q h k a =
    rw (sym (ok_injective (sym (fields_to_mem-encoded l ks) ∙ h))) (
      rw (sym (ok_injective (sym (fields_to_mem-encoded l vs) ∙ k)))
        (get_mem_fields_lem l ks vs ns p q a))
