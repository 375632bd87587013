-- ===== src/Dli/VarMap/Put.antt =====
-- `Duro_varmap_put` of duro/dli/varmap.c as a map update.
use durodbms.Dli.VarMap.{
  VarEntry, finished, insert_var, var_entry, var_hashing, varmap_get, varmap_put, write_var,
}
use durodbms.Gen.HashMap.{ample}
use durodbms.Gen.HashMap.Put.{
  assign_entry-Puts, by_key-IsHashing, hashtable_get-equal, hashtable_get_congr,
}
use durodbms.Gen.HashTable.{HashTable, hashtable_get}
use durodbms.Gen.HashTable.Probe.{IsHashing}
use durodbms.Gen.HashTable.Table.{IsValid, hashtable_put-Puts}
use durodbms.Gen.Strings.{Str, dup_str, str_equal, str_equal_sound, str_equal_refl}
use durodbms.Prelude.{
  Option, Option-cases, arith, if◌then◌else◌, inl, inr, none, ok, refl, some, subst, sym, ℕ, ◌%◌,
  ◌>>=?◌, ◌∙◌, ◌≡◌,
}

module _ {ℓ} {O : Type ℓ} where
  abbrev pub IsVarMap : HashTable (VarEntry O) → Type ℓ
  IsVarMap t = IsValid var_hashing t

  -- `t'` has the entry `e` under its name and what `t` has elsewhere.
  abbrev pub Stores : HashTable (VarEntry O) → VarEntry O → HashTable (VarEntry O) → Type ℓ
  Stores t e t' =
      IsVarMap t'
      × ((q : Str) → varmap_get t' q ≡ (if str_equal e.name q then some e else varmap_get t q))

  abbrev names-IsHashing : IsHashing (var_hashing {O = O})
  names-IsHashing = by_key-IsHashing (λ (e : VarEntry O). e.name)

  var_same :
      (t : HashTable (VarEntry O)) (name : Str) (v w : Option O) (f g : ℕ)
      → hashtable_get var_hashing t (var_entry name v f)
        ≡ hashtable_get var_hashing t (var_entry name w g)
  var_same t name v w f g =
      hashtable_get_congr var_hashing names-IsHashing t (var_entry name v f) (var_entry name w g)
        (str_equal_refl name)

  -- The writes to the fields of an entry that is there.
  write_var-Stores :
      (t : HashTable (VarEntry O)) (name : Str) (v w : Option O) (f g : ℕ) (old : VarEntry O)
      → IsVarMap t
      → hashtable_get var_hashing t (var_entry name v f) ≡ some old
      → (t' : HashTable (VarEntry O)) × (write_var t (var_entry name v f) w g ≡ some t')
        × Stores t (var_entry name w (g % 256)) t'
  unfolding write_var varmap_get
  write_var-Stores t name v w f g old valid there =
      let (t', run, p) =
        assign_entry-Puts var_hashing names-IsHashing t (var_entry name w (g % 256)) old valid
          (var_same t name w v (g % 256) f ∙ there) in
      (t', rw run refl, (p.valid, λ q. p.reads (var_entry q none 0)))

  -- A new entry, and the writes to its fields.
  insert_var-Stores :
      (t : HashTable (VarEntry O)) (name : Str) (varp : Option O) (flags : ℕ)
      → IsVarMap t
      → (t' : HashTable (VarEntry O)) × (insert_var ample t (var_entry name none 0) varp flags
          ≡ some (ok t', t'))
        × Stores t (var_entry name varp (flags % 256)) t'
  unfolding insert_var varmap_get
  insert_var-Stores t name varp flags valid =
      let blank = var_entry name none 0 in
      let (u, run, p) = hashtable_put-Puts var_hashing names-IsHashing t blank valid in
      let there : hashtable_get var_hashing u blank ≡ some blank =
        ground (arith, p.reads blank, str_equal_refl name) in
      let (t', write, (valid', reads)) =
        write_var-Stores u name none varp 0 flags blank p.valid there in
      (
        t',
        rw (run, write) refl,
        (valid', λ q. ground (arith, reads q, p.reads (var_entry q none 0))),
      )

  -- With memory at hand `Duro_varmap_put` on a valid map ends and succeeds, and the new map is
  -- valid: the name put has an entry with that object and the last byte of the flags, every other
  -- name the entry it had.
  pub varmap_put-Stores :
      (t : HashTable (VarEntry O)) (name : Str) (varp : Option O) (flags : ℕ)
      → IsVarMap t
      → (t' : HashTable (VarEntry O)) × (varmap_put ample t name varp flags ≡ some (ok t', t'))
        × Stores t (var_entry name varp (flags % 256)) t'
  unfolding varmap_put dup_str
  varmap_put-Stores t name varp flags valid =
      elim (Option-cases (hashtable_get var_hashing t (var_entry name none 0))) [
        | inl absent ↦ rw (absent, varmap_put) (insert_var-Stores t name varp flags valid)
        | inr (old, there) ↦
            let same = str_equal_sound old.name name (
              hashtable_get-equal var_hashing names-IsHashing t (var_entry name none 0) old valid
                there) in
            rw (there, varmap_put) (rewritten t name varp flags old valid there same)
      ]
    where
      rewritten :
          (t : HashTable (VarEntry O)) (name : Str) (varp : Option O) (flags : ℕ) (old : VarEntry O)
          → IsVarMap t
          → hashtable_get var_hashing t (var_entry name none 0) ≡ some old
          → old.name ≡ name
          → (t' : HashTable (VarEntry O)) × (write_var t old varp flags >>=? finished
              ≡ some (ok t', t'))
            × Stores t (var_entry name varp (flags % 256)) t'
      rewritten t name varp flags old valid there same =
          let (t', run, s) = write_var-Stores t old.name old.varp varp old.flags flags old valid (
            subst (λ n. hashtable_get var_hashing t (var_entry n old.varp old.flags) ≡ some old)
              (sym same) (var_same t name old.varp none old.flags 0 ∙ there)) in
          (t', rw run refl, rw (← same) s)
