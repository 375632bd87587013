-- ===== src/TreeRec/Field.antt =====
-- The records of duro/treerec/field.c: a key or a value is one block of memory, with the fields of
-- fixed length first, then those of variable length, then the lengths of these. An `RDB_field` is
-- its number and the bytes that its `copyfp` copies. The offsets, `int` in the code, are natural
-- numbers. A fresh block is taken as zeros.

pub mod Store
pub mod Encode
pub mod Locate
pub mod Read
pub mod Round
pub mod Update
use durodbms.Obj.Builtins.Division.{size}
use durodbms.Prelude.{
  Bool, List, Option, Result, [], drop, err, get_or, if◌then◌else◌, leb, length, ltb, no_memory,
  none, not, ok, out_of_bounds, record_corrupted, replicate, some, suc, take, uninitialised, zero,
  ℕ, ◌%◌, ◌&&◌, ◌*◌, ◌++◌, ◌+◌, ◌-◌, ◌/◌, ◌==◌, ◌>>=◌, ◌^◌, ◌∷◌,
}
use durodbms.TreeRec.Bytes.{Bytes}

pub record Field : Type 0 where
  pub no : ℕ
  pub value : Bytes

-- The part of `RDB_recmap` that lays out the records. A length is none for `RDB_VARIABLE_LEN`.
pub record Layout : Type 0 where
  pub fieldinfos : List (Option ℕ)
  pub fieldcount : ℕ
  pub keyfieldcount : ℕ
  pub varkeyfieldcount : ℕ
  pub vardatafieldcount : ℕ

abbrev pub field_len : Layout → ℕ → Option ℕ
field_len l fno = get_or l.fieldinfos fno none

-- `databp[3] << 24` is an `int`, negative from 128 on, which widens to 64 bits.
unfoldable pub get_len : ℕ → ℕ → ℕ → ℕ → ℕ
get_len b0 b1 b2 b3 =
    if ltb b3 128
    then b0 + b1 * 256 + b2 * 65536 + b3 * 16777216
    else (b0 + b1 * 256 + b2 * 65536 + b3 * 16777216 + (2 ^ 64 - 2 ^ 32)) % 2 ^ 64

unfoldable pub set_len : ℕ → Bytes
set_len len = len % 256 ∷ (len / 256) % 256 ∷ (len / 65536) % 256 ∷ (len / 16777216) % 256 ∷ []

-- A write of some bytes into a block.
unfoldable pub store : Bytes → ℕ → Bytes → Result Bytes
store buf offs bytes =
    if leb (offs + length bytes) (length buf)
    then ok (take offs buf ++ (bytes ++ drop (offs + length bytes) buf))
    else err out_of_bounds

abbrev pub read_len : Bytes → Result ℕ
read_len (b0 ∷ b1 ∷ b2 ∷ b3 ∷ rest) = ok (get_len b0 b1 b2 b3)
read_len _ = err out_of_bounds

unfoldable pub get_vflen : Bytes → ℕ → ℕ → Result ℕ
get_vflen mem vfcnt vpos =
    if ltb (length mem) (vfcnt * 4)
    then err out_of_bounds
    else read_len (drop (length mem - vfcnt * 4 + vpos * 4) mem)

-- The loops of `RDB_get_field` take `n` steps, the first one at the field `i`.
unfoldable pub fixed_offset : Layout → ℕ → ℕ → ℕ
fixed_offset l zero i = 0
fixed_offset l (suc n) i = elim (field_len l i) [
  | some len ↦ len + fixed_offset l n (suc i)
  | none ↦ fixed_offset l n (suc i)
]

unfoldable pub var_pos : Layout → ℕ → ℕ → ℕ
var_pos l zero i = 0
var_pos l (suc n) i = elim (field_len l i) [
  | some len ↦ var_pos l n (suc i)
  | none ↦ suc (var_pos l n (suc i))
]

unfoldable pub var_offset : Bytes → ℕ → ℕ → ℕ → Result ℕ
var_offset mem vfcnt zero i = ok 0
var_offset mem vfcnt (suc n) i = do
  len ← get_vflen mem vfcnt i
  rest ← var_offset mem vfcnt n (suc i)
  ok (len + rest)

-- Where a field stands: the result of `RDB_get_field`, `*lenp` and `*vposp`, which is left
-- without a value at a field of fixed length.
pub record Place : Type 0 where
  pub offs : ℕ
  pub len : ℕ
  pub vpos : Option ℕ

-- One branch of `RDB_get_field`, for the part of the record with the fields from `lo` up to `hi`.
unfoldable pub locate : Layout → ℕ → ℕ → ℕ → ℕ → Bytes → Result Place
locate l lo hi vfcnt fno mem = elim (field_len l fno) [
  | some n ↦ ok (record { offs = fixed_offset l (fno - lo) lo; len = n; vpos = none })
  | none ↦ do
    prev ← var_offset mem vfcnt (var_pos l (fno - lo) lo) 0
    n ← get_vflen mem vfcnt (var_pos l (fno - lo) lo)
    ok (record {
      offs = fixed_offset l (hi - lo) lo + prev;
      len = n;
      vpos = some (var_pos l (fno - lo) lo);
    })
]

unfoldable pub get_field : Layout → ℕ → Bytes → Result Place
get_field l fno mem = do
  at ←
      if ltb fno l.keyfieldcount
      then locate l 0 l.keyfieldcount l.varkeyfieldcount fno mem
      else locate l l.keyfieldcount l.fieldcount l.vardatafieldcount fno mem
  if ltb (length mem) at.len then err record_corrupted else ok at

-- The bytes at a place.
abbrev pub slice : Bytes → Place → Bytes
slice mem at = take at.len (drop at.offs mem)

abbrev pub fixed_fields : Layout → List Field → List Field
fixed_fields l [] = []
fixed_fields l (f ∷ fs) = elim (field_len l f.no) [
  | some len ↦ f ∷ fixed_fields l fs
  | none ↦ fixed_fields l fs
]

abbrev pub var_fields : Layout → List Field → List Field
var_fields l [] = []
var_fields l (f ∷ fs) = elim (field_len l f.no) [
  | some len ↦ var_fields l fs
  | none ↦ f ∷ var_fields l fs
]

unfoldable pub mem_size : Layout → List Field → ℕ
mem_size l [] = 0
mem_size l (f ∷ fs) = elim (field_len l f.no) [
  | some len ↦ length f.value + mem_size l fs
  | none ↦ length f.value + 4 + mem_size l fs
]

unfoldable pub copy_fixed : Bytes → ℕ → List Field → Result (Bytes × ℕ)
copy_fixed buf offs [] = ok (buf, offs)
copy_fixed buf offs (f ∷ fs) = do
  buf' ← store buf offs f.value
  copy_fixed buf' (offs + length f.value) fs

-- `top` is `*sizep - vfldc * RECLEN_SIZE`.
unfoldable pub copy_var : Bytes → ℕ → ℕ → ℕ → List Field → Result Bytes
copy_var buf offs top i [] = ok buf
copy_var buf offs top i (f ∷ fs) = do
  buf' ← store buf offs f.value
  buf'' ← store buf' (top + i * 4) (set_len (length f.value))
  copy_var buf'' (offs + length f.value) top (suc i) fs

-- `mem`: the calls of malloc succeed.
unfoldable pub fields_to_mem : Layout → Bool → List Field → Result Bytes
fields_to_mem l mem fs = if not mem && ltb 0 (length fs) then err no_memory else do
  let size = mem_size l fs
  let top = size - length (var_fields l fs) * 4
  (buf, offs) ← copy_fixed (replicate size 0) 0 (fixed_fields l fs)
  copy_var buf offs top 0 (var_fields l fs)

unfoldable pub get_mem_fields : Layout → Bytes → Bytes → List ℕ → Result (List Field)
get_mem_fields l key value [] = ok []
get_mem_fields l key value (n ∷ ns) = do
  let part = if ltb n l.keyfieldcount then key else value
  at ← get_field l n part
  rest ← get_mem_fields l key value ns
  ok (record { no = n; value = slice part at } ∷ rest)

-- The block after a change of the length of the field at `at` to `len`, before the new length and
-- the new bytes are written. The code moves what follows the field.
unfoldable pub resize : Bytes → Place → ℕ → Result Bytes
resize mem at len =
    if ltb (length mem) (at.offs + at.len)
    then err out_of_bounds
    else ok (take at.offs mem ++ (replicate len 0 ++ drop (at.offs + at.len) mem))

-- `mem`: the call of realloc succeeds. What a failure leaves in the old block is `set_field_left`.
unfoldable pub set_field_mem : Layout → Bool → Bytes → Field → ℕ → Result Bytes
set_field_mem l mem old f varfieldc = do
  at ← get_field l f.no old
  buf ← if at.len == length f.value then ok old else if not mem then err no_memory else do
    buf ← resize old at (length f.value)
    elim at.vpos [
      | some vpos ↦ store buf (length buf - varfieldc * 4 + vpos * 4) (set_len (length f.value))
      | none ↦ err uninitialised
    ]
  store buf at.offs f.value

-- The move of the bytes behind a field that shrinks, which comes before the call of realloc.
abbrev pub shrunk : Bytes → Place → ℕ → Bytes
shrunk old at len =
    take (at.offs + len) old
    ++ (drop (at.offs + at.len) old ++ drop (length old - (at.len - len)) old)

-- The old block after a call that has failed: the move is not undone.
unfoldable pub set_field_left : Layout → Bool → Bytes → Field → Bytes
set_field_left l mem old f = elim (get_field l f.no old) [
  | err e ↦ old
  | ok at ↦ if ltb (length f.value) at.len && not mem then shrunk old at (length f.value) else old
]
