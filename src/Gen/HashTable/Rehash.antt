-- ===== src/Gen/HashTable/Rehash.antt =====
-- The rehash of duro/gen/hashtable.c: the entries of the old array in the new one.
use durodbms.Prelude.{ℕ, zero, suc, ◌+◌, ◌<◌, ◌≡◌, refl, ap, ◌∙◌, Option, none, some, arith}
use durodbms.Prelude.{true, false, List, [], ◌∷◌, set, if◌then◌else◌, Bool-cases, inl, inr}
use durodbms.Gen.HashTable.{Hashing, slot, copy_old}
use durodbms.Gen.HashTable.Probe.{IsHashing, probe_free-probe, probe_congr}
use durodbms.Gen.HashTable.Filled.{
  occupied, option_ext, home, get, IsFilled, get_stored, stored_get, write_free, probe_total,
}

module _ {ℓ} {E : Type ℓ} (h : Hashing E) (l : IsHashing h) where
  -- No entry of the list is equal to `e`.
  abbrev pub Avoids : List (Option E) → E → Type 0
  Avoids [] e = Unit
  Avoids (none ∷ xs) e = Avoids xs e
  Avoids (some x ∷ xs) e = (h.equal x e ≡ false) × Avoids xs e

  abbrev pub Distinct : List (Option E) → Type 0
  Distinct [] = Unit
  Distinct (none ∷ xs) = Distinct xs
  Distinct (some x ∷ xs) = Avoids xs x × Distinct xs

  abbrev pub Each {κ} : (E → Type κ) → List (Option E) → Type κ
  Each P [] = Unit
  Each P (none ∷ xs) = Each P xs
  Each P (some x ∷ xs) = P x × Each P xs

  -- What a linear search for an equal entry finds.
  abbrev pub seek : List (Option E) → E → Option E
  seek [] q = none
  seek (none ∷ xs) q = seek xs q
  seek (some x ∷ xs) q = if h.equal x q then some x else seek xs q

  seek-Avoids :
      (xs : List (Option E)) (e q : E) → Avoids xs e → h.equal e q ≡ true → seek xs q ≡ none
  seek-Avoids [] e q a s = refl
  seek-Avoids (none ∷ xs) e q a s = seek-Avoids xs e q a s
  seek-Avoids (some x ∷ xs) e q a s =
      ground (arith, seek-Avoids xs e q a.1 s, a.0, l.equal_trans x q e, l.equal_symm e q)

  -- No two slots hold equal entries.
  abbrev pub IsInjective : List (Option E) → Type ℓ
  IsInjective xs =
      (i j : ℕ) (x y : E) → slot xs i ≡ some x → slot xs j ≡ some y → h.equal x y ≡ true → i ≡ j

  IsInjective-tail : (o : Option E) (xs : List (Option E)) → IsInjective (o ∷ xs) → IsInjective xs
  IsInjective-tail o xs inj i j x y s t q = omega (arith, inj (suc i) (suc j) x y s t q)

  Avoids-of :
      (xs : List (Option E)) (e : E)
      → ((j : ℕ) (y : E) → slot xs j ≡ some y → h.equal y e ≡ false)
      → Avoids xs e
  Avoids-of [] e a = tt
  Avoids-of (none ∷ xs) e a = Avoids-of xs e (λ j. a (suc j))
  Avoids-of (some x ∷ xs) e a = (a 0 x refl, Avoids-of xs e (λ j. a (suc j)))

  pub Distinct-of : (xs : List (Option E)) → IsInjective xs → Distinct xs
  Distinct-of [] inj = tt
  Distinct-of (none ∷ xs) inj = Distinct-of xs (IsInjective-tail none xs inj)
  Distinct-of (some x ∷ xs) inj = (
    Avoids-of xs x (λ j y s. elim (Bool-cases (h.equal y x)) [
      | inl q ↦ absurd (omega (arith, inj (suc j) 0 y x s refl q))
      | inr q ↦ q
    ]),
    Distinct-of xs (IsInjective-tail (some x) xs inj),
  )

  seek_found :
      (xs : List (Option E)) (q x : E)
      → seek xs q ≡ some x
      → (j : ℕ) × (slot xs j ≡ some x) × (h.equal x q ≡ true)
  seek_found [] q x f = absurd (ground arith)
  seek_found (none ∷ xs) q x f = let (j, s, e) = seek_found xs q x f in (suc j, s, e)
  seek_found (some y ∷ xs) q x f = elim (Bool-cases (h.equal y q)) [
    | inl e ↦ let same : y ≡ x = ground arith in (0, ap some same, rw same at e)
    | inr e ↦ let (j, s, k) = seek_found xs q x (ground arith) in (suc j, s, k)
  ]

  seek_stored :
      (xs : List (Option E)) (q x : E) (j : ℕ)
      → IsInjective xs
      → slot xs j ≡ some x
      → h.equal x q ≡ true
      → seek xs q ≡ some x
  seek_stored [] q x j inj s e = absurd (ground arith)
  seek_stored (none ∷ xs) q x zero inj s e = absurd (ground arith)
  seek_stored (none ∷ xs) q x (suc j) inj s e =
      seek_stored xs q x j (IsInjective-tail none xs inj) s e
  seek_stored (some y ∷ xs) q x zero inj s e = let same : y ≡ x = ground arith in rw same (rw e)
  seek_stored (some y ∷ xs) q x (suc j) inj s e = elim (Bool-cases (h.equal y q)) [
    | inl f ↦
        absurd
          (omega (arith, inj 0 (suc j) y x refl s (l.equal_trans y q x f (l.equal_symm q x ∙ e))))
    | inr f ↦ rw f (seek_stored xs q x j (IsInjective-tail (some y) xs inj) s e)
  ]

  module _ (n : ℕ) (pos : 0 < n) where
    pub IsFilled-IsInjective : (c : ℕ) (xs : List (Option E)) → IsFilled h n c xs → IsInjective xs
    IsFilled-IsInjective c xs f i j x y s t q =
        let a = f.placed i x s in
        let b = f.placed j y t in
        let same = l.hash-equal x y q in
        ground (arith, probe_congr h l n xs n x y (home h n x) q, a, b, same)

    pub get-seek :
        (c : ℕ) (xs : List (Option E)) (q : E) → IsFilled h n c xs → get h n xs q ≡ seek xs q
    get-seek c xs q f =
        option_ext (get h n xs q) (seek xs q)
          (λ x found.
            let (j, s, e) = stored_get h l n pos xs x q found in
            seek_stored xs q x j (IsFilled-IsInjective c xs f) s e)
          (λ x found.
            let (j, s, e) = seek_found xs q x found in get_stored h l n pos c xs j x q f s e)

    still_absent :
        (xs ys old : List (Option E)) (e : E)
        → ((q : E) → get h n ys q ≡ (if h.equal e q then some e else get h n xs q))
        → Avoids old e
        → Each (λ x. get h n xs x ≡ none) old
        → Each (λ x. get h n ys x ≡ none) old
    still_absent xs ys [] e reads a b = tt
    still_absent xs ys (none ∷ old) e reads a b = still_absent xs ys old e reads a b
    still_absent xs ys (some x ∷ old) e reads a b = (
      ground (arith, reads x, a.0, b.0, l.equal_symm x e),
      still_absent xs ys old e reads a.1 b.1,
    )

    -- Copying distinct entries, none of which the new array holds, ends and adds them.
    pub copy_old_lem :
        (old xs : List (Option E)) (c : ℕ)
        → IsFilled h n c xs
        → c + occupied old < n
        → Distinct old
        → Each (λ x. get h n xs x ≡ none) old
        → (ys : List (Option E)) × (copy_old h old xs n ≡ some ys)
          × IsFilled h n (c + occupied old) ys
          × ((q : E) → get h n ys q ≡ elim (seek old q) [ some x ↦ some x | none ↦ get h n xs q ])
    unfolding copy_old
    copy_old_lem [] xs c f room distinct apart =
        let e : c + 0 ≡ c = omega arith in (xs, refl, rw e f, (λ q. refl))
    copy_old_lem (none ∷ old) xs c f room distinct apart =
        copy_old_lem old xs c f room distinct apart
    copy_old_lem (some e ∷ old) xs c f room (avoids, distinct) (absent, apart) =
        let (j, run, free) = probe_total h l n pos c xs e f (omega arith) in
        let w = write_free h l n pos c xs e j f run (free ∙ absent) in
        let lone : (i : ℕ) (x : E) → slot xs i ≡ some x → h.equal x e ≡ false = λ i x s.
          elim (Bool-cases (h.equal x e)) [
            | inl q ↦ absurd (ground (arith, get_stored h l n pos c xs i x e f s q, absent))
            | inr q ↦ q
          ] in
        let free_run = probe_free-probe h l n xs n e (home h n e) lone ∙ run in
        let ys = set xs j (some e) in
        let (zs, copied, filled, reads) =
          copy_old_lem old ys (suc c) w.filled (omega arith) distinct
            (still_absent xs ys old e w.reads avoids apart) in
        let total : c + suc (occupied old) ≡ suc c + occupied old = omega arith in
        (
          zs,
          rw free_run copied,
          rw total filled,
          (λ q. ground (arith, reads q, w.reads q, seek-Avoids old e q avoids)),
        )
