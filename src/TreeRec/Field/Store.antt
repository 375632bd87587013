-- ===== src/TreeRec/Field/Store.antt =====
-- Lemmas on blocks: writing into a block at the boundary of two parts of it (the `copyfp` calls of
-- duro/treerec/field.c), and reading back a length.
use durodbms.Prelude.{
  [], ap, append_assoc, arith, drop, drop_all, length, length-append, length-replicate, le→leb, ok,
  refl, replicate, suc, sym, take_all, zero, ℕ, ◌++◌, ◌+◌, ◌<◌, ◌^◌, ◌∷◌, ◌≡◌,
}
use durodbms.TreeRec.Bytes.{Bytes}
use durodbms.TreeRec.Field.{get_len, read_len, set_len, store}

pub drop_two :
    (n m : ℕ) (a b c : Bytes) → n ≡ length a → m ≡ length b → drop (n + m) (a ++ (b ++ c)) ≡ c
drop_two n m a b c h k =
    rw (sym (append_assoc a b c))
      (drop_all (n + m) (a ++ b) c (omega (arith, length-append {0} a b)))

pub store_between :
    (offs : ℕ) (a b c new : Bytes)
    → offs ≡ length a
    → length new ≡ length b
    → store (a ++ (b ++ c)) offs new ≡ ok (a ++ (new ++ c))
unfolding store
store_between offs a b c new h k =
    rw
      (le→leb (offs + length new) (length (a ++ (b ++ c)))
        (omega (arith, length-append {0} a (b ++ c), length-append {0} b c)))
      (rw (take_all offs a (b ++ c) h) (rw (drop_two offs (length new) a b c h k) refl))

abbrev pub zeros : ℕ → Bytes
zeros n = replicate n 0

pub length-zeros : (n : ℕ) → length (zeros n) ≡ n
length-zeros n = length-replicate n 0

pub zeros_add : (n m : ℕ) → zeros (n + m) ≡ zeros n ++ zeros m
zeros_add zero m = let e : 0 + m ≡ m = omega arith in rw e refl
zeros_add (suc n) m =
    let e : suc n + m ≡ suc (n + m) = omega arith in rw e (ap (λ l. 0 ∷ l) (zeros_add n m))

pub zeros_append : (x y : Bytes) → zeros (length (x ++ y)) ≡ zeros (length x) ++ zeros (length y)
zeros_append [] y = refl
zeros_append (x ∷ xs) y = ap (λ l. 0 ∷ l) (zeros_append xs y)

pub length-set_len : (n : ℕ) → length (set_len n) ≡ 4
unfolding set_len
length-set_len n = refl

-- A length below 2 ^ 31 is read back as it was written.
pub get_len-set_len :
    (len : ℕ) (rest : Bytes) → len < 2 ^ 31 → read_len (set_len len ++ rest) ≡ ok len
unfolding get_len set_len
get_len-set_len len rest h = ground arith
