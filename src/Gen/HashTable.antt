-- ===== src/Gen/HashTable.antt =====
-- The hash table of duro/gen/hashtable.c and its iterator, duro/gen/hashtabit.c: open addressing
-- with linear probing. `malloc` is an argument, one Boolean for each call that may fail; a table
-- whose array is not allocated has no entries. A `while` loop over the slots takes as fuel the
-- number of slots; `none` means that it has not ended by then.
pub mod Probe
pub mod Filled
pub mod Rehash
pub mod Table
pub mod Iterate
use durodbms.Prelude.{ℕ, zero, suc, ◌+◌, ◌*◌, ◌/◌, ◌%◌, Option, none, some, Bool, true, false}
use durodbms.Prelude.{List, [], ◌∷◌, get_or, set, drop, replicate, leb, ◌==◌, if◌then◌else◌, ◌>>=?◌}
use durodbms.Prelude.{Result, ok, err, null_pointer, ◌>>=◌}

-- `RDB_hashfn` and `RDB_equalsfn`, with their argument.
pub record Hashing {ℓ} (E : Type ℓ) : Type ℓ where
  pub hash : E → ℕ
  pub equal : E → E → Bool

pub record HashTable {ℓ} (E : Type ℓ) : Type ℓ where
  pub entries : Option (List (Option E))
  pub capacity : ℕ
  pub entry_count : ℕ

-- `if (++idx >= hp->capacity) idx = 0;`
unfoldable pub next : ℕ → ℕ → ℕ
next capacity idx = if leb capacity (idx + 1) then 0 else idx + 1

module _ {ℓ} {E : Type ℓ} where
  unfoldable pub init_hashtable : ℕ → HashTable E
  init_hashtable capacity = record { entries = none; capacity = capacity; entry_count = 0 }

  -- `hp->entries[i]`
  abbrev pub slot : List (Option E) → ℕ → Option E
  slot xs i = get_or xs i none

  -- The loop of a rehash: to the first free slot.
  unfoldable pub probe_free : ℕ → List (Option E) → ℕ → ℕ → Option ℕ
  probe_free zero xs capacity idx = none
  probe_free (suc fuel) xs capacity idx = elim (slot xs idx) [
    | none ↦ some idx
    | some x ↦ probe_free fuel xs capacity (next capacity idx)
  ]

module _ {ℓ} {E : Type ℓ} (h : Hashing E) where
  -- The loop of an insertion: to the first slot that is free or holds an equal entry.
  unfoldable pub probe : ℕ → List (Option E) → ℕ → E → ℕ → Option ℕ
  probe zero xs capacity e idx = none
  probe (suc fuel) xs capacity e idx = elim (slot xs idx) [
    | none ↦ some idx
    | some x ↦ elim (h.equal x e) [
      | true ↦ some idx
      | false ↦ probe fuel xs capacity e (next capacity idx)
    ]
  ]

  -- Copies the old array, slot by slot, into the new one.
  unfoldable pub copy_old : List (Option E) → List (Option E) → ℕ → Option (List (Option E))
  copy_old [] xs capacity = some xs
  copy_old (none ∷ old) xs capacity = copy_old old xs capacity
  copy_old (some e ∷ old) xs capacity =
      probe_free capacity xs capacity (h.hash e % capacity)
      >>=? (λ idx. copy_old old (set xs idx (some e)) capacity)

  -- The end of an insertion, into an array that is there and not too full.
  unfoldable pub place : HashTable E → List (Option E) → E → Option (HashTable E × Bool)
  place t xs e = probe t.capacity xs t.capacity e (h.hash e % t.capacity) >>=? (λ idx. some (
    record {
      entries = some (set xs idx (some e));
      capacity = t.capacity;
      entry_count = elim (slot xs idx) [ none ↦ t.entry_count + 1 | some _ ↦ t.entry_count ];
    },
    true,
  ))

  -- The rehash at a fill ratio of 62.5%. If there is no memory the array is lost.
  unfoldable pub put_into : Bool → HashTable E → List (Option E) → E → Option (HashTable E × Bool)
  put_into memory t xs e =
      if leb 10 (t.entry_count * 16 / t.capacity)
      then if memory
        then copy_old xs (replicate (t.capacity * 2) none) (t.capacity * 2)
          >>=? (λ ys. place (record t { capacity = t.capacity * 2 }) ys e)
        else some (record t { entries = none; capacity = t.capacity * 2 }, false)
      else place t xs e

  -- `alloc_map`, where the array is not there yet.
  unfoldable pub alloc_map : Bool → HashTable E → Option (List (Option E))
  alloc_map memory t = elim t.entries [
    | some xs ↦ some xs
    | none ↦ if memory then some (replicate t.capacity none) else none
  ]

  -- The Boolean of the result: `RDB_OK`, or else `ENOMEM`.
  unfoldable pub hashtable_put : Bool → Bool → HashTable E → E → Option (HashTable E × Bool)
  hashtable_put memory1 memory2 t e = elim (alloc_map memory1 t) [
    | none ↦ some (t, false)
    | some xs ↦ put_into memory2 t xs e
  ]

  -- The loop of a search: `count` is the number of slots that are left to read.
  unfoldable pub get_from : ℕ → List (Option E) → ℕ → E → ℕ → Option E
  get_from zero xs capacity e idx = none
  get_from (suc count) xs capacity e idx = elim (slot xs idx) [
    | none ↦ none
    | some x ↦ elim (h.equal x e) [
      | true ↦ some x
      | false ↦ get_from count xs capacity e (next capacity idx)
    ]
  ]

  unfoldable pub hashtable_get : HashTable E → E → Option E
  hashtable_get t e = elim t.entries [
    | none ↦ none
    | some xs ↦ get_from t.capacity xs t.capacity e (h.hash e % t.capacity)
  ]

module _ {ℓ} {E : Type ℓ} where
  unfoldable pub hashtable_size : HashTable E → ℕ
  hashtable_size t = t.entry_count

  unfoldable pub clear_hashtable : HashTable E → HashTable E
  clear_hashtable t = record t { entries = none; entry_count = 0 }

  -- The scan of `RDB_hashtable_next`, over the slots from position `pos` on.
  unfoldable pub scan : List (Option E) → ℕ → Option E × ℕ
  scan [] pos = (none, pos)
  scan (none ∷ xs) pos = scan xs (pos + 1)
  scan (some e ∷ xs) pos = (some e, pos + 1)

  -- `RDB_hashtable_next`: the entry and the new position of the iterator.
  unfoldable pub hashtable_next : HashTable E → ℕ → Result (Option E × ℕ)
  unfolding scan
  hashtable_next t pos =
      if t.entry_count == 0
      then ok (none, pos)
      else elim t.entries [ none ↦ err null_pointer | some xs ↦ ok (scan (drop pos xs) pos) ]

  -- `while ((entryp = RDB_hashtable_next(&it)) != NULL) ...`: the entries in the order of the
  -- calls. The first argument bounds the rounds.
  unfoldable pub iterate : ℕ → HashTable E → ℕ → Result (List E)
  iterate zero t pos = ok []
  iterate (suc rounds) t pos = do
    (found, pos') ← hashtable_next t pos
    elim found [ none ↦ ok [] | some e ↦ do rest ← iterate rounds t pos'; ok (e ∷ rest) ]
