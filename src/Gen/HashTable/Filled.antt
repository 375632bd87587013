-- ===== src/Gen/HashTable/Filled.antt =====
-- Arrays of duro/gen/hashtable.c in which every entry is found from its home slot, and the write
-- of one entry into such an array.
use durodbms.Prelude.{
  ℕ, zero, suc, ◌%◌, ◌<◌, ◌≤◌, ◌≡◌, ◌≢◌, refl, sym, ap, ◌∙◌, Option, none, some, arith,
}
use durodbms.Prelude.{
  true, List, [], ◌∷◌, length, set, if◌then◌else◌, Bool-cases, Option-cases, inl, inr,
}
use durodbms.Prelude.{length-set, get_or-set_self, get_or-set_ne, ℕ_discrete}
use durodbms.Gen.HashTable.{Hashing, slot, probe, get_from}
use durodbms.Gen.HashTable.Probe.{
  IsHashing, rounds, probe_hit, probe-lt, probe_ends, probe-set_free, probe-set_self,
  probe-set_equal, get_from-probe, probe_congr,
}

module _ {ℓ} {E : Type ℓ} where
  abbrev pub occupied : List (Option E) → ℕ
  occupied [] = 0
  occupied (none ∷ xs) = occupied xs
  occupied (some e ∷ xs) = suc (occupied xs)

  pub occupied-le : (xs : List (Option E)) → occupied xs ≤ length xs
  occupied-le [] = omega arith
  occupied-le (none ∷ xs) = omega (arith, occupied-le xs)
  occupied-le (some e ∷ xs) = omega (arith, occupied-le xs)

  pub free_slot :
      (xs : List (Option E))
      → occupied xs < length xs
      → (m : ℕ) × (m < length xs) × (slot xs m ≡ none)
  free_slot [] h = absurd (omega arith)
  free_slot (none ∷ xs) h = (0, omega arith, refl)
  free_slot (some e ∷ xs) h =
      let (m, lt, free) = free_slot xs (omega arith) in (suc m, omega arith, free)

  pub occupied-set_free :
      (xs : List (Option E)) (j : ℕ) (e : E)
      → slot xs j ≡ none
      → j < length xs
      → occupied (set xs j (some e)) ≡ suc (occupied xs)
  occupied-set_free [] j e s lt = absurd (omega arith)
  occupied-set_free (none ∷ xs) zero e s lt = refl
  occupied-set_free (some x ∷ xs) zero e s lt = absurd (ground arith)
  occupied-set_free (none ∷ xs) (suc j) e s lt = occupied-set_free xs j e s (omega arith)
  occupied-set_free (some x ∷ xs) (suc j) e s lt = ap suc (occupied-set_free xs j e s (omega arith))

  pub occupied-set_taken :
      (xs : List (Option E)) (j : ℕ) (x e : E)
      → slot xs j ≡ some x
      → occupied (set xs j (some e)) ≡ occupied xs
  occupied-set_taken [] j x e s = refl
  occupied-set_taken (none ∷ xs) zero x e s = absurd (ground arith)
  occupied-set_taken (some y ∷ xs) zero x e s = refl
  occupied-set_taken (none ∷ xs) (suc j) x e s = occupied-set_taken xs j x e s
  occupied-set_taken (some y ∷ xs) (suc j) x e s = ap suc (occupied-set_taken xs j x e s)

  -- Two options that hold the same values.
  pub option_ext :
      (a b : Option E)
      → ((x : E) → a ≡ some x → b ≡ some x)
      → ((x : E) → b ≡ some x → a ≡ some x)
      → a ≡ b
  option_ext none none f g = refl
  option_ext none (some y) f g = g y refl
  option_ext (some x) b f g = sym (f x refl)

module _ {ℓ} {E : Type ℓ} (h : Hashing E) where
  abbrev pub home : ℕ → E → ℕ
  home n e = h.hash e % n

  -- The search of `RDB_hashtable_get` in an array of `n` slots.
  abbrev pub get : ℕ → List (Option E) → E → Option E
  get n xs q = get_from h n xs n q (home n q)

  -- The array has `n` slots, `count` of them taken, and the loop of each stored entry ends at it.
  pub record IsFilled (n count : ℕ) (xs : List (Option E)) : Type ℓ where
    pub width : length xs ≡ n
    pub counted : occupied xs ≡ count
    pub placed : (j : ℕ) (x : E) → slot xs j ≡ some x → probe h n xs n x (home n x) ≡ some j

module _ {ℓ} {E : Type ℓ} (h : Hashing E) (l : IsHashing h) (n : ℕ) (pos : 0 < n) where
  home-lt : (e : E) → home h n e < n
  home-lt e = omega arith

  pub get_stored :
      (count : ℕ) (xs : List (Option E)) (j : ℕ) (x q : E)
      → IsFilled h n count xs
      → slot xs j ≡ some x
      → h.equal x q ≡ true
      → get h n xs q ≡ some x
  get_stored count xs j x q f s same =
      let there = f.placed j x s in
      let run : probe h n xs n q (home h n q) ≡ some j =
        sym (probe_congr h l n xs n x q (home h n q) same) ∙ rw (← l.hash-equal x q same) there in
      get_from-probe h n xs n q (home h n q) ∙ rw run s

  pub stored_get :
      (xs : List (Option E)) (x q : E)
      → get h n xs q ≡ some x
      → (j : ℕ) × (slot xs j ≡ some x) × (h.equal x q ≡ true)
  stored_get xs x q found = elim (Option-cases (probe h n xs n q (home h n q))) [
    | inl run ↦ absurd (ground (arith, get_from-probe h n xs n q (home h n q), run))
    | inr (j, run) ↦
        let s : slot xs j ≡ some x = ground (arith, get_from-probe h n xs n q (home h n q), run) in
        (j, s, probe_hit h n xs n q (home h n q) j x run s)
  ]

  -- What the write of `e` owes.
  pub record Writes (count : ℕ) (xs : List (Option E)) (e : E) (ys : List (Option E)) : Type ℓ where
    pub filled : IsFilled h n count ys
    pub reads : (q : E) → get h n ys q ≡ (if h.equal e q then some e else get h n xs q)

  reads_of_stored :
      (c d : ℕ) (xs ys : List (Option E)) (e : E) (j : ℕ)
      → IsFilled h n c xs
      → IsFilled h n d ys
      → slot ys j ≡ some e
      → ((m : ℕ) → j ≢ m → slot ys m ≡ slot xs m)
      → ((x : E) → slot xs j ≡ some x → h.equal x e ≡ true)
      → (q : E) → get h n ys q ≡ (if h.equal e q then some e else get h n xs q)
  reads_of_stored c d xs ys e j fx fy there others old q = elim (Bool-cases (h.equal e q)) [
    | inl same ↦ rw same (get_stored d ys j e q fy there same)
    | inr apart ↦ rw apart (
        option_ext (get h n ys q) (get h n xs q)
          (λ x found.
            let (m, s, eq) = stored_get ys x q found in
            elim (ℕ_discrete j m) [
              | yes here ↦ absurd (ground (arith, here))
              | no ne ↦ get_stored c xs m x q fx (sym (others m ne) ∙ s) eq
            ])
          (λ x found.
            let (m, s, eq) = stored_get xs x q found in
            elim (ℕ_discrete j m) [
              | yes here ↦
                  let s' : slot xs j ≡ some x = rw here s in
                  absurd (ground (arith, old x s', l.equal_symm x e, l.equal_trans e x q))
              | no ne ↦ get_stored d ys m x q fy (others m ne ∙ s) eq
            ]))
  ]

  -- A write to the free slot at which the loop for the entry ends.
  pub write_free :
      (c : ℕ) (xs : List (Option E)) (e : E) (j : ℕ)
      → IsFilled h n c xs
      → probe h n xs n e (home h n e) ≡ some j
      → slot xs j ≡ none
      → Writes (suc c) xs e (set xs j (some e))
  write_free c xs e j f run free =
      let lt : j < length xs = rw f.width (probe-lt h n xs n e (home h n e) j (home-lt e) run) in
      let there = get_or-set_self xs j (some e) none lt in
      let filled : IsFilled h n (suc c) (set xs j (some e)) = record {
        width = length-set xs j (some e) ∙ f.width;
        counted = occupied-set_free xs j e free lt ∙ ap suc f.counted;
        placed = λ m x s. elim (ℕ_discrete j m) [
          | yes here ↦
              let same : x ≡ e = ground (arith, here) in
              rw (same, ← here)
                (probe-set_self h n xs n e (home h n e) j e run free lt (l.equal_refl e))
          | no apart ↦
              let s' = sym (get_or-set_ne xs j m (some e) none apart) ∙ s in
              probe-set_free h n xs n x (home h n x) m j x (some e) (f.placed m x s') s' free
        ];
      } in
      record {
        filled = filled;
        reads =
            reads_of_stored c (suc c) xs (set xs j (some e)) e j f filled there
              (λ m apart. get_or-set_ne xs j m (some e) none apart)
              (λ x s. absurd (ground (arith, s)));
      }

  -- A write over an equal entry.
  pub write_taken :
      (c : ℕ) (xs : List (Option E)) (e : E) (j : ℕ) (old : E)
      → IsFilled h n c xs
      → probe h n xs n e (home h n e) ≡ some j
      → slot xs j ≡ some old
      → Writes c xs e (set xs j (some e))
  write_taken c xs e j old f run taken =
      let lt : j < length xs = rw f.width (probe-lt h n xs n e (home h n e) j (home-lt e) run) in
      let there = get_or-set_self xs j (some e) none lt in
      let equal = probe_hit h n xs n e (home h n e) j old run taken in
      let filled : IsFilled h n c (set xs j (some e)) = record {
        width = length-set xs j (some e) ∙ f.width;
        counted = occupied-set_taken xs j old e taken ∙ f.counted;
        placed = λ m x s. elim (ℕ_discrete j m) [
          | yes here ↦
              let same : x ≡ e = ground (arith, here) in
              rw (same, ← here)
                (probe-set_equal h n xs n e (home h n e) j old e taken lt
                    (equal ∙ sym (l.equal_refl e))
                  ∙ run)
          | no apart ↦
              let s' = sym (get_or-set_ne xs j m (some e) none apart) ∙ s in
              probe-set_equal h n xs n x (home h n x) j old e taken lt (
                ground
                  (arith, equal, l.equal_trans old e x, l.equal_trans e old x, l.equal_symm old e))
              ∙ f.placed m x s'
        ];
      } in
      record {
        filled = filled;
        reads =
            reads_of_stored c c xs (set xs j (some e)) e j f filled there
              (λ m apart. get_or-set_ne xs j m (some e) none apart)
              (λ x s. ground (arith, s, taken, equal));
      }

  -- In an array with a free slot the loop for an entry ends, and whether at a free slot is
  -- whether the search fails.
  pub probe_total :
      (c : ℕ) (xs : List (Option E)) (e : E)
      → IsFilled h n c xs
      → c < n
      → (j : ℕ) × (probe h n xs n e (home h n e) ≡ some j) × (slot xs j ≡ get h n xs e)
  probe_total c xs e f room =
      let (m, lt, free) = free_slot xs (rw (f.counted, f.width) room) in
      let (j, run) =
        probe_ends h n xs n e (home h n e) m (home-lt e) (rw f.width at lt) free
          (close (home h n e) m (home-lt e) (rw f.width at lt)) in
      (j, run, sym (get_from-probe h n xs n e (home h n e) ∙ rw run refl))
    where
      close : (i m : ℕ) → i < n → m < n → rounds n i m < n
      close i m a b = ground arith
