-- ===== src/Tests/HashTable.antt =====
-- duro/gen/hashtable.c with numbers as entries, equal up to their last two digits.
use durodbms.Prelude.{ℕ, ◌%◌, ◌≡◌, refl, Option, none, some, true, false, [], ◌∷◌, List, arith}
use durodbms.Prelude.{ok, err, null_pointer, ◌↔◌, ◌==◌, length, ◌>>=?◌}
use durodbms.Gen.HashTable.{
  Hashing, HashTable, init_hashtable, probe, probe_free, copy_old, place, put_into, alloc_map,
  hashtable_put, get_from, hashtable_get, hashtable_next, iterate, next,
}
use durodbms.Gen.HashTable.Probe.{IsHashing}
use durodbms.Gen.HashTable.Table.{IsValid, Puts, hashtable_put-Puts}
use durodbms.Gen.HashTable.Iterate.{Among, iterate-listed, failed_rehash_loses}
use durodbms.Gen.HashTable.{slot}
use durodbms.Gen.HashTable.Filled.{home}
use durodbms.Prelude.{suc, zero}

abbrev residues : Hashing ℕ
residues = record { hash = λ a. a % 100; equal = λ a b. a % 100 == b % 100 }

residues-IsHashing : IsHashing residues
residues-IsHashing = record {
  equal_refl = λ a. ground arith;
  equal_symm = λ a b. ground arith;
  equal_trans = λ a b c. ground arith;
  hash-equal = λ a b. ground arith;
}

runs : Unit {0}
unfolding init_hashtable probe probe_free copy_old place put_into alloc_map hashtable_put get_from
    hashtable_get hashtable_next iterate next
runs = tt

abbrev puts : HashTable ℕ → List ℕ → Option (HashTable ℕ)
puts t [] = some t
puts t (e ∷ es) = hashtable_put residues true true t e >>=? (λ r. puts r.0 es)

-- The fourth entry finds the fill ratio reached, and the array doubled.
four_entries :
    puts (init_hashtable 4) (3 ∷ 7 ∷ 11 ∷ 5 ∷ [])
    ≡ some (record {
      entries = some (none ∷ none ∷ none ∷ some 11 ∷ some 3 ∷ some 5 ∷ none ∷ some 7 ∷ []);
      capacity = 8;
      entry_count = 4;
    })
unfolding runs
four_entries = refl

abbrev sample : HashTable ℕ
sample = record {
  entries = some (some 7 ∷ some 11 ∷ none ∷ some 3 ∷ []);
  capacity = 4;
  entry_count = 3;
}

sample_is : puts (init_hashtable 4) (3 ∷ 7 ∷ 11 ∷ []) ≡ some sample
unfolding runs
sample_is = refl

abbrev slots : List (Option ℕ)
slots = some 7 ∷ some 11 ∷ none ∷ some 3 ∷ []

sample_placed :
    (j x : ℕ) → slot slots j ≡ some x → probe residues 4 slots 4 x (home residues 4 x) ≡ some j
unfolding runs
sample_placed zero x s = let is : 7 ≡ x = ground arith in rw (← is)
sample_placed (suc zero) x s = let is : 11 ≡ x = ground arith in rw (← is)
sample_placed (suc (suc zero)) x s = absurd (ground arith)
sample_placed (suc (suc (suc zero))) x s = let is : 3 ≡ x = ground arith in rw (← is)
sample_placed (suc (suc (suc (suc j)))) x s = absurd (ground arith)

sample-IsValid : IsValid residues sample
sample-IsValid = record {
  roomy = omega arith;
  array = record { width = refl; counted = refl; placed = sample_placed };
}

hashtable_put-Puts_example :
    (t' : HashTable ℕ) × (hashtable_put residues true true sample 105 ≡ some (t', true))
    × Puts residues sample 105 t'
hashtable_put-Puts_example =
    hashtable_put-Puts residues residues-IsHashing sample 105 sample-IsValid

iterate-listed_example :
    (es : List ℕ) × (iterate 4 sample 0 ≡ ok es)
    × (length es ≡ sample.entry_count)
    × ((e : ℕ) → Among e es ↔ (hashtable_get residues sample e ≡ some e))
iterate-listed_example =
    iterate-listed residues residues-IsHashing sample 4 sample-IsValid (omega arith)

failed_rehash_loses_example :
    (t' : HashTable ℕ) × (hashtable_put residues true false sample 105 ≡ some (t', false))
    × (t'.entry_count ≡ sample.entry_count)
    × ((q : ℕ) → hashtable_get residues t' q ≡ none)
    × (hashtable_next t' 0 ≡ err null_pointer)
failed_rehash_loses_example =
    failed_rehash_loses residues residues-IsHashing sample slots 105 refl (omega arith)
