-- ===== src/TreeRec/Field/Update.antt =====
-- `RDB_set_field_mem` of duro/treerec/field.c on a block that `RDB_fields_to_mem` has
-- filled: the blocks in between.
use durodbms.Prelude.{
  ==_ne, ==_refl, List, Option-cases, ap, append_assoc, arith, inl, inr, length, length-append,
  le→ltb_false, none, ok, ok_injective, refl, some, sym, take_all, true, ℕ, ℕ_discrete, ◌*◌, ◌++◌,
  ◌+◌, ◌-◌, ◌>>=◌, ◌∙◌, ◌∷◌, ◌≡◌, ◌≢◌, ◌⊎◌,
}
use durodbms.TreeRec.Bytes.{Bytes}
use durodbms.TreeRec.Field.{
  Field, Layout, Place, field_len, fields_to_mem, fixed_fields, resize, set_field_mem, set_len,
  store, var_fields,
}
use durodbms.TreeRec.Field.Encode.{datas, encoded, fields_to_mem-encoded, length-lens, lens}
use durodbms.TreeRec.Field.Locate.{HasFit, fixed_split, place_of, var_fields-append, var_split}
use durodbms.TreeRec.Field.Read.{IsKey, IsValue, fit, get_field_lem}
use durodbms.TreeRec.Field.Store.{drop_two, length-set_len, length-zeros, store_between, zeros}

resize_between :
    (a b c : Bytes) (p : Place) (n : ℕ)
    → p.offs ≡ length a
    → p.len ≡ length b
    → resize (a ++ (b ++ c)) p n ≡ ok (a ++ (zeros n ++ c))
unfolding resize
resize_between a b c p n h k =
    rw
      (le→ltb_false (length (a ++ (b ++ c))) (p.offs + p.len)
        (omega (arith, length-append {0} a (b ++ c), length-append {0} b c, h, k)))
      (rw (take_all p.offs a (b ++ c) h) (rw (drop_two p.offs p.len a b c h k) refl))

-- A new length, then the new bytes: `d` holds the old length.
rewrite_between :
    (a c d e new : Bytes) (p : Place) (at : ℕ)
    → p.offs ≡ length a
    → at ≡ length a + length new + length c
    → length d ≡ 4
    → store (a ++ (zeros (length new) ++ (c ++ (d ++ e)))) at (set_len (length new))
        >>= (λ buf. store buf p.offs new)
      ≡ ok (a ++ (new ++ (c ++ (set_len (length new) ++ e))))
rewrite_between a c d e new p at h k m =
    let z = zeros (length new) in
    rw (left z d) (
      rw
        (store_between at (a ++ (z ++ c)) d e (set_len (length new))
          (omega (
            arith,
            length-append {0} a (z ++ c),
            length-append {0} z c,
            length-zeros (length new),
            k,
          ))
          (length-set_len (length new) ∙ sym m))
        (rw (sym (left z (set_len (length new)))) (
          store_between p.offs a z (c ++ (set_len (length new) ++ e)) new h
            (sym (length-zeros (length new))))))
  where
    left : (z d : Bytes) → a ++ (z ++ (c ++ (d ++ e))) ≡ (a ++ (z ++ c)) ++ (d ++ e)
    left z d = simp append_assoc

abbrev pub with_value : Field → Bytes → Field
with_value f v = record { no = f.no; value = v }

module _ (l : Layout) (vfcnt : ℕ) (fs : List Field) (f : Field) (gs : List Field)
    (new : Bytes) where
  abbrev front : Bytes
  front = datas (fixed_fields l (fs ++ gs)) ++ datas (var_fields l fs)

  abbrev middle : Bytes
  middle = datas (var_fields l gs) ++ lens (var_fields l fs)

  abbrev back : Bytes
  back = lens (var_fields l gs)

  cut :
      (g : Field)
      → field_len l g.no ≡ none
      → encoded l (fs ++ (g ∷ gs))
        ≡ front ++ (g.value ++ (middle ++ (set_len (length g.value) ++ back)))
  cut g e =
      var_split l fs g gs e
      ∙ ap (λ (z : Bytes). front ++ (g.value ++ z))
          (sym (
            append_assoc (datas (var_fields l gs)) (lens (var_fields l fs))
              (set_len (length g.value) ++ back)))

  more_var :
      field_len l f.no ≡ none
      → length (var_fields l (fs ++ (f ∷ gs)))
        ≡ length (var_fields l fs) + length (var_fields l gs) + 1
  more_var e = rw (var_fields-append l fs (f ∷ gs)) (
      rw (e, var_fields) (omega (arith, length-append {0} (var_fields l fs) (f ∷ var_fields l gs))))

  set_fixed :
      (n : ℕ)
      → field_len l f.no ≡ some n
      → IsKey l (fs ++ (f ∷ gs)) ⊎ IsValue l (fs ++ (f ∷ gs))
      → length new ≡ length f.value
      → set_field_mem l true (encoded l (fs ++ (f ∷ gs))) (with_value f new) vfcnt
        ≡ ok (encoded l (fs ++ (with_value f new ∷ gs)))
  unfolding set_field_mem
  set_fixed n e q k = rw (get_field_lem l fs f gs q) (
      rw (e, place_of)
        (rw (==_refl (length f.value) (length new) (sym k)) (
          rw (fixed_split l fs f gs n e) (
            rw (fixed_split l fs (with_value f new) gs n e) (
              store_between (length (datas (fixed_fields l fs))) (datas (fixed_fields l fs)) f.value
                (datas (fixed_fields l gs)
                  ++ (datas (var_fields l (fs ++ gs)) ++ lens (var_fields l (fs ++ gs))))
                new refl k)))))

  set_var_same :
      field_len l f.no ≡ none
      → IsKey l (fs ++ (f ∷ gs)) ⊎ IsValue l (fs ++ (f ∷ gs))
      → length f.value ≡ length new
      → set_field_mem l true (encoded l (fs ++ (f ∷ gs))) (with_value f new) vfcnt
        ≡ ok (encoded l (fs ++ (with_value f new ∷ gs)))
  unfolding set_field_mem
  set_var_same e q k = rw (get_field_lem l fs f gs q) (
      rw (e, place_of)
        (rw (==_refl (length f.value) (length new) k) (
          rw (cut f e) (
            rw (cut (with_value f new) e) (
              rw (sym k) (
                store_between
                  (length (datas (fixed_fields l (fs ++ gs))) + length (datas (var_fields l fs)))
                  front f.value (middle ++ (set_len (length f.value) ++ back)) new
                  (sym (
                    length-append {0} (datas (fixed_fields l (fs ++ gs)))
                      (datas (var_fields l fs))))
                  (sym k)))))))

  set_var_other :
      field_len l f.no ≡ none
      → IsKey l (fs ++ (f ∷ gs)) ⊎ IsValue l (fs ++ (f ∷ gs))
      → length f.value ≢ length new
      → vfcnt ≡ length (var_fields l (fs ++ (f ∷ gs)))
      → set_field_mem l true (encoded l (fs ++ (f ∷ gs))) (with_value f new) vfcnt
        ≡ ok (encoded l (fs ++ (with_value f new ∷ gs)))
  unfolding set_field_mem
  set_var_other e q k m =
      let at : Place = record {
        offs = length (datas (fixed_fields l (fs ++ gs))) + length (datas (var_fields l fs));
        len = length f.value;
        vpos = some (length (var_fields l fs));
      } in
      let o : at.offs ≡ length front =
        sym (length-append {0} (datas (fixed_fields l (fs ++ gs))) (datas (var_fields l fs))) in
      rw (get_field_lem l fs f gs q) (
        rw (e, place_of)
          (rw (==_ne (length f.value) (length new) k) (
            rw (cut f e) (
              rw (cut (with_value f new) e) (
                rw
                  (resize_between front f.value (middle ++ (set_len (length f.value) ++ back)) at
                    (length new) o refl)
                  (rewrite_between front middle (set_len (length f.value)) back new at
                    (length (
                        front
                        ++ (zeros (length new) ++ (middle ++ (set_len (length f.value) ++ back))))
                      - vfcnt * 4
                      + length (var_fields l fs) * 4)
                    o
                    (omega (
                      arith,
                      o,
                      m,
                      more_var e,
                      length-append {0} front
                          (zeros (length new) ++ (middle ++ (set_len (length f.value) ++ back))),
                      length-append {0} (zeros (length new))
                          (middle ++ (set_len (length f.value) ++ back)),
                      length-zeros (length new),
                      length-append {0} middle (set_len (length f.value) ++ back),
                      length-append {0} (set_len (length f.value)) back,
                      length-set_len (length f.value),
                      length-append {0} (datas (var_fields l gs)) (lens (var_fields l fs)),
                      length-lens (var_fields l fs),
                      length-lens (var_fields l gs),
                    ))
                    (length-set_len (length f.value))))))))

-- On a key or value that `RDB_fields_to_mem` has written, `RDB_set_field_mem` with memory, given a
-- field of the record with new bytes of a fitting length and the number of the variable-length
-- fields, makes the block that `RDB_fields_to_mem` writes for the fields with the new bytes: no
-- other field changes, whether the field grows, shrinks or keeps its length.
pub set_field_mem-fields_to_mem :
    (l : Layout) (vfcnt : ℕ) (fs : List Field) (f : Field) (gs : List Field) (new mem : Bytes)
    → IsKey l (fs ++ (f ∷ gs)) ⊎ IsValue l (fs ++ (f ∷ gs))
    → vfcnt ≡ length (var_fields l (fs ++ (f ∷ gs)))
    → HasFit (field_len l f.no) (length new)
    → fields_to_mem l true (fs ++ (f ∷ gs)) ≡ ok mem
    → set_field_mem l true mem (with_value f new) vfcnt
      ≡ fields_to_mem l true (fs ++ (with_value f new ∷ gs))
set_field_mem-fields_to_mem l vfcnt fs f gs new mem p c fits h =
    rw (sym (ok_injective (sym (fields_to_mem-encoded l (fs ++ (f ∷ gs))) ∙ h))) (
      rw (fields_to_mem-encoded l (fs ++ (with_value f new ∷ gs)))
        (elim (Option-cases (field_len l f.no)) [
          | inr (n, e) ↦
              set_fixed l vfcnt fs f gs new n e p (rw e at fits ∙ sym (rw e at (fits_in p)))
          | inl e ↦ elim (ℕ_discrete (length f.value) (length new)) [
            | yes k ↦ set_var_same l vfcnt fs f gs new e p k
            | no k ↦ set_var_other l vfcnt fs f gs new e p k c
          ]
        ]))
  where
    fits_in :
        IsKey l (fs ++ (f ∷ gs)) ⊎ IsValue l (fs ++ (f ∷ gs))
        → HasFit (field_len l f.no) (length f.value)
    fits_in (inl q) = fit l 0 l.keyfieldcount l.varkeyfieldcount fs f gs q
    fits_in (inr q) = fit l l.keyfieldcount l.fieldcount l.vardatafieldcount fs f gs q
