-- ===== src/TreeRec/Field/Encode.antt =====
-- What `RDB_fields_to_mem` of duro/treerec/field.c writes.
use durodbms.Prelude.{
  List, Option-cases, [], ap, append-nil, append_assoc, arith, bind_assoc, inl, inr, length,
  length-append, ok, refl, suc, sym, true, ℕ, ◌*◌, ◌++◌, ◌+◌, ◌-◌, ◌>>=◌, ◌∙◌, ◌∷◌, ◌≡◌,
}
use durodbms.TreeRec.Bytes.{Bytes}
use durodbms.TreeRec.Field.{
  Field, Layout, copy_fixed, copy_var, field_len, fields_to_mem, fixed_fields, mem_size, set_len,
  store, var_fields,
}
use durodbms.TreeRec.Field.Store.{
  length-set_len, length-zeros, store_between, zeros, zeros_add, zeros_append,
}

abbrev pub datas : List Field → Bytes
datas [] = []
datas (f ∷ fs) = f.value ++ datas fs

abbrev pub lens : List Field → Bytes
lens [] = []
lens (f ∷ fs) = set_len (length f.value) ++ lens fs

-- The fixed-length fields, the others, and the lengths of these.
abbrev pub encoded : Layout → List Field → Bytes
encoded l fs = datas (fixed_fields l fs) ++ (datas (var_fields l fs) ++ lens (var_fields l fs))

pub length-lens : (fs : List Field) → length (lens fs) ≡ length fs * 4
unfolding set_len
length-lens [] = omega arith
length-lens (f ∷ fs) = omega (arith, length-lens fs)

pub mem_size_lem :
    (l : Layout) (fs : List Field)
    → mem_size l fs
      ≡ length (datas (fixed_fields l fs))
        + length (datas (var_fields l fs))
        + length (var_fields l fs) * 4
unfolding mem_size
mem_size_lem l [] = omega arith
mem_size_lem l (f ∷ fs) = elim (Option-cases (field_len l f.no)) [
  | inl e ↦
      rw (e, mem_size, fixed_fields, var_fields)
        (omega (arith, mem_size_lem l fs, length-append {0} f.value (datas (var_fields l fs))))
  | inr (n, e) ↦
      rw (e, mem_size, fixed_fields, var_fields)
        (omega (arith, mem_size_lem l fs, length-append {0} f.value (datas (fixed_fields l fs))))
]

-- The copies fill the next part of the block.
copy_fixed_lem :
    (a c : Bytes) (offs : ℕ) (fs : List Field)
    → offs ≡ length a
    → copy_fixed (a ++ (zeros (length (datas fs)) ++ c)) offs fs
      ≡ ok (a ++ (datas fs ++ c), length (a ++ datas fs))
unfolding copy_fixed
copy_fixed_lem a c offs [] h = rw (append-nil a) (rw h refl)
copy_fixed_lem a c offs (f ∷ fs) h = rw (zeros_append f.value (datas fs)) (
    rw (append_assoc (zeros (length f.value)) (zeros (length (datas fs))) c) (
      rw
        (store_between offs a (zeros (length f.value)) (zeros (length (datas fs)) ++ c) f.value h
          (sym (length-zeros (length f.value))))
        (rw (sym (append_assoc a f.value (zeros (length (datas fs)) ++ c))) (
          rw
            (copy_fixed_lem (a ++ f.value) c (offs + length f.value) fs
              (omega (arith, length-append {0} a f.value)))
            (rw (append_assoc f.value (datas fs) c) (
              rw (append_assoc a f.value (datas fs ++ c))
                (rw (append_assoc a f.value (datas fs)) refl)))))))

-- One variable-length field and its length are written.
store_field :
    (a x y d z r : Bytes) (offs at : ℕ) (new : Bytes)
    → offs ≡ length a
    → length x ≡ length new
    → at ≡ length a + length new + length y + length d
    → length z ≡ 4
    → store (a ++ ((x ++ y) ++ (d ++ (z ++ r)))) offs new
        >>= (λ buf. store buf at (set_len (length new)))
      ≡ ok ((a ++ new) ++ (y ++ ((d ++ set_len (length new)) ++ r)))
unfolding set_len
store_field a x y d z r offs at new h k m n = rw (append_assoc x y (d ++ (z ++ r))) (
    rw (store_between offs a x (y ++ (d ++ (z ++ r))) new h (sym k)) (
      rw (regroup z) (
        rw
          (store_between at ((a ++ new) ++ (y ++ d)) z r (set_len (length new))
            (omega (
              arith,
              length-append {0} (a ++ new) (y ++ d),
              length-append {0} a new,
              length-append {0} y d,
            ))
            (sym n))
          (ap (λ b. ok b) (back (set_len (length new)))))))
  where
    regroup :
        (z : Bytes) → a ++ (new ++ (y ++ (d ++ (z ++ r)))) ≡ ((a ++ new) ++ (y ++ d)) ++ (z ++ r)
    regroup z = simp append_assoc

    back : (s : Bytes) → ((a ++ new) ++ (y ++ d)) ++ (s ++ r) ≡ (a ++ new) ++ (y ++ ((d ++ s) ++ r))
    back s = simp append_assoc

-- The block while the variable-length fields are written: `a` and `d` are done.
copy_var_lem :
    (a d : Bytes) (offs top i : ℕ) (fs : List Field)
    → offs ≡ length a
    → top + i * 4 ≡ length a + length (datas fs) + length d
    → copy_var (a ++ (zeros (length (datas fs)) ++ (d ++ zeros (length (lens fs))))) offs top i fs
      ≡ ok (a ++ (datas fs ++ (d ++ lens fs)))
unfolding copy_var
copy_var_lem a d offs top i [] h k = refl
copy_var_lem a d offs top i (f ∷ fs) h k =
    let size = length f.value in
    let s = set_len (length f.value) in
    rw (zeros_append f.value (datas fs)) (
      rw (zeros_append s (lens fs)) (
        rw
          (bind_assoc
            (store
              (a
                ++ ((zeros size ++ zeros (length (datas fs)))
                    ++ (d ++ (zeros (length s) ++ zeros (length (lens fs))))))
              offs f.value)
            (λ b. store b (top + i * 4) s) (λ b. copy_var b (offs + size) top (suc i) fs))
          (rw
            (store_field a (zeros size) (zeros (length (datas fs))) d (zeros (length s))
              (zeros (length (lens fs))) offs (top + i * 4) f.value h (length-zeros size)
              (omega
                (arith, length-append {0} f.value (datas fs), length-zeros (length (datas fs)), k))
              (length-zeros (length s) ∙ length-set_len size))
            (rw
              (copy_var_lem (a ++ f.value) (d ++ s) (offs + size) top (suc i) fs
                (omega (arith, length-append {0} a f.value))
                (omega (
                  arith,
                  length-append {0} f.value (datas fs),
                  length-append {0} a f.value,
                  length-append {0} d s,
                  length-set_len size,
                  k,
                )))
              (ap (λ b. ok b) (simp append_assoc))))))

-- `RDB_fields_to_mem` stays inside the block that it allocates, and fills it.
pub fields_to_mem-encoded :
    (l : Layout) (fs : List Field) → fields_to_mem l true fs ≡ ok (encoded l fs)
unfolding fields_to_mem
fields_to_mem-encoded l fs =
    let fixed = fixed_fields l fs in
    let vars = var_fields l fs in
    let nf = length (datas fixed) in
    let nv = length (datas vars) in
    let all : zeros (mem_size l fs) ≡ zeros nf ++ (zeros nv ++ zeros (length (lens vars))) =
      rw (mem_size_lem l fs) (
        rw (sym (length-lens vars)) (
          rw (zeros_add (nf + nv) (length (lens vars))) (
            rw (zeros_add nf nv)
              (append_assoc (zeros nf) (zeros nv) (zeros (length (lens vars))))))) in
    rw all (
      rw (copy_fixed_lem [] (zeros nv ++ zeros (length (lens vars))) 0 fixed refl) (
        copy_var_lem (datas fixed) [] nf (mem_size l fs - length vars * 4) 0 vars refl
          (omega (arith, mem_size_lem l fs))))
