-- ===== src/Gen/HashTable/Probe.antt =====
-- The probe loops of duro/gen/hashtable.c: where they end, and how a write to one slot changes
-- that.
use durodbms.Prelude.{ℕ, zero, suc, ◌+◌, ◌-◌, ◌<◌, ◌≡◌, ◌≢◌, refl, sym, Option, none, some, arith}
use durodbms.Prelude.{
  true, false, List, length, set, leb, if◌then◌else◌, Bool-cases, Option-cases, inl, inr,
}
use durodbms.Prelude.{ℕ_discrete, ◌>>=?◌, get_or-set_self, get_or-set_ne}
use durodbms.Gen.HashTable.{Hashing, slot, next, probe, probe_free, get_from}

-- What an entry type's functions owe.
pub record IsHashing {ℓ} {E : Type ℓ} (h : Hashing E) : Type ℓ where
  pub equal_refl : (a : E) → h.equal a a ≡ true
  pub equal_symm : (a b : E) → h.equal a b ≡ h.equal b a
  pub equal_trans : (a b c : E) → h.equal a b ≡ true → h.equal b c ≡ true → h.equal a c ≡ true
  pub hash-equal : (a b : E) → h.equal a b ≡ true → h.hash a ≡ h.hash b

-- The number of rounds from `i` to `m`, around the end of the array.
abbrev pub rounds : ℕ → ℕ → ℕ → ℕ
rounds n i m = if leb i m then m - i else m + n - i

pub next-lt : (n i : ℕ) → i < n → next n i < n
unfolding next
next-lt n i h = ground arith

rounds-next : (n i m : ℕ) → i < n → m < n → i ≢ m → rounds n (next n i) m + 1 ≡ rounds n i m
unfolding next
rounds-next n i m h k ne = ground arith

module _ {ℓ} {E : Type ℓ} (h : Hashing E) where
  -- The loop ends at a slot that is free or holds an equal entry, within the array.
  pub probe_hit :
      (f : ℕ) (xs : List (Option E)) (n : ℕ) (e : E) (i m : ℕ) (x : E)
      → probe h f xs n e i ≡ some m
      → slot xs m ≡ some x
      → h.equal x e ≡ true
  unfolding probe
  probe_hit zero xs n e i m x run s = absurd (ground arith)
  probe_hit (suc f) xs n e i m x run s = ground (arith, probe_hit f xs n e (next n i) m x)

  pub probe-lt :
      (f : ℕ) (xs : List (Option E)) (n : ℕ) (e : E) (i m : ℕ)
      → i < n
      → probe h f xs n e i ≡ some m
      → m < n
  unfolding probe
  probe-lt zero xs n e i m lt run = absurd (ground arith)
  probe-lt (suc f) xs n e i m lt run = ground (arith, probe-lt f xs n e (next n i) m, next-lt n i)

  -- With a free slot in reach the loop ends.
  pub probe_ends :
      (f : ℕ) (xs : List (Option E)) (n : ℕ) (e : E) (i m : ℕ)
      → i < n
      → m < n
      → slot xs m ≡ none
      → rounds n i m < f
      → (r : ℕ) × (probe h f xs n e i ≡ some r)
  unfolding probe
  probe_ends zero xs n e i m lt lm free reach = absurd (omega arith)
  probe_ends (suc f) xs n e i m lt lm free reach = elim (Option-cases (slot xs i)) [
    | inl s ↦ (i, rw (s, probe))
    | inr (x, s) ↦ elim (Bool-cases (h.equal x e)) [
      | inl q ↦ (i, rw (s, probe) (rw q))
      | inr q ↦
          let apart : i ≢ m = ground arith in
          let (r, run) =
            probe_ends f xs n e (next n i) m (next-lt n i lt) lm free
              (omega (arith, rounds-next n i m lt lm apart)) in
          (r, rw (s, probe) (rw q run))
    ]
  ]

  -- A write to a slot that was free leaves the loops that end at taken slots alone.
  pub probe-set_free :
      (f : ℕ) (xs : List (Option E)) (n : ℕ) (e : E) (i m j : ℕ) (y : E) (v : Option E)
      → probe h f xs n e i ≡ some m
      → slot xs m ≡ some y
      → slot xs j ≡ none
      → probe h f (set xs j v) n e i ≡ some m
  unfolding probe
  probe-set_free zero xs n e i m j y v run taken free = absurd (ground arith)
  probe-set_free (suc f) xs n e i m j y v run taken free = elim (Option-cases (slot xs i)) [
    | inl s ↦ absurd (ground arith)
    | inr (x, s) ↦
        let apart : j ≢ i = ground arith in
        let same = get_or-set_ne xs j i v none apart in
        ground (arith, same, probe-set_free f xs n e (next n i) m j y v)
  ]

  -- The loop of the entry itself, and of those equal to it, ends at the slot that it has taken.
  pub probe-set_self :
      (f : ℕ) (xs : List (Option E)) (n : ℕ) (e : E) (i j : ℕ) (y : E)
      → probe h f xs n e i ≡ some j
      → slot xs j ≡ none
      → j < length xs
      → h.equal y e ≡ true
      → probe h f (set xs j (some y)) n e i ≡ some j
  unfolding probe
  probe-set_self zero xs n e i j y run free lt same = absurd (ground arith)
  probe-set_self (suc f) xs n e i j y run free lt same = elim (Option-cases (slot xs i)) [
    | inl s ↦
        let here : i ≡ j = ground arith in
        rw here (rw (get_or-set_self xs j (some y) none lt, probe) (rw same))
    | inr (x, s) ↦
        let apart : j ≢ i = ground arith in
        let kept = get_or-set_ne xs j i (some y) none apart in
        ground (arith, kept, probe-set_self f xs n e (next n i) j y)
  ]

  -- Overwriting an entry by an equal one changes no loop.
  pub probe-set_equal :
      (f : ℕ) (xs : List (Option E)) (n : ℕ) (e : E) (i j : ℕ) (x y : E)
      → slot xs j ≡ some x
      → j < length xs
      → h.equal x e ≡ h.equal y e
      → probe h f (set xs j (some y)) n e i ≡ probe h f xs n e i
  unfolding probe
  probe-set_equal zero xs n e i j x y s lt same = refl
  probe-set_equal (suc f) xs n e i j x y s lt same = elim (ℕ_discrete j i) [
    | yes here ↦
        let kept = get_or-set_self xs j (some y) none lt in
        let ih = probe-set_equal f xs n e (next n i) j x y s lt same in
        ground (arith, kept, ih, here)
    | no apart ↦
        let kept = get_or-set_ne xs j i (some y) none apart in
        let ih = probe-set_equal f xs n e (next n i) j x y s lt same in ground (arith, kept, ih)
  ]

  -- A search reads the slot at which the loop of an insertion ends.
  pub get_from-probe :
      (f : ℕ) (xs : List (Option E)) (n : ℕ) (e : E) (i : ℕ)
      → get_from h f xs n e i ≡ probe h f xs n e i >>=? slot xs
  unfolding probe get_from
  get_from-probe zero xs n e i = refl
  get_from-probe (suc f) xs n e i = elim (Option-cases (slot xs i)) [
    | inl s ↦ rw (s, probe, get_from) (sym s)
    | inr (x, s) ↦ ground (arith, get_from-probe f xs n e (next n i), s)
  ]

module _ {ℓ} {E : Type ℓ} (h : Hashing E) (l : IsHashing h) where
  -- Equal entries have one loop.
  pub probe_congr :
      (f : ℕ) (xs : List (Option E)) (n : ℕ) (d e : E) (i : ℕ)
      → h.equal d e ≡ true
      → probe h f xs n d i ≡ probe h f xs n e i
  unfolding probe
  probe_congr zero xs n d e i q = refl
  probe_congr (suc f) xs n d e i q = elim (Option-cases (slot xs i)) [
    | inl s ↦ rw (s, probe)
    | inr (x, s) ↦ ground (
      arith,
      s,
      probe_congr f xs n d e (next n i),
      l.equal_trans x d e,
      l.equal_trans x e d,
      l.equal_symm d e,
    )
  ]

  -- Where nothing equal is stored, the loop of a rehash is the loop of an insertion.
  pub probe_free-probe :
      (f : ℕ) (xs : List (Option E)) (n : ℕ) (e : E) (i : ℕ)
      → ((j : ℕ) (x : E) → slot xs j ≡ some x → h.equal x e ≡ false)
      → probe_free f xs n i ≡ probe h f xs n e i
  unfolding probe probe_free
  probe_free-probe zero xs n e i fresh = refl
  probe_free-probe (suc f) xs n e i fresh = elim (Option-cases (slot xs i)) [
    | inl s ↦ rw (s, probe, probe_free)
    | inr (x, s) ↦ ground (arith, s, fresh i x s, probe_free-probe f xs n e (next n i) fresh)
  ]
