-- ===== src/Obj/Builtins/Find.antt =====
-- The operators of duro/obj/builtinscops.c on the bytes of strings: searches and substrings.
use durodbms.Gen.Strings.{Str}
use durodbms.Obj.Builtins.{
  begins, op_concat, op_starts_with, op_strfind_b, op_strlen_b, op_substr_b, strstr,
}
use durodbms.Prelude.{
  Bool-cases, Option, [], ap, append-nil, ap₂, arith, drop, drop_all, false, inl, inr, length,
  length-append, negsuc, none, ok, pos, refl, some, suc, sym, take, take_all, true, zero, ℕ, ◌++◌,
  ◌+◌, ◌<◌, ◌>>=?◌, ◌↔◌, ◌∷◌, ◌≡◌, ◌≤◌, ◌⊎◌,
}

-- The needle stands in the haystack at an offset.
abbrev pub Occurs : Str → Str → ℕ → Type 0
Occurs haystack needle i =
    (pre : Str) × (post : Str) × (haystack ≡ pre ++ (needle ++ post)) × (length pre ≡ i)

begins_sound : (str pref : Str) → begins str pref ≡ true → (post : Str) × (str ≡ pref ++ post)
unfolding begins
begins_sound str [] h = (str, refl)
begins_sound [] (c ∷ pref) h = absurd (ground (arith, h))
begins_sound (d ∷ str) (c ∷ pref) h =
    let (post, e) = begins_sound str pref (ground (arith, h)) in
    let same : d ≡ c = ground (arith, h) in (post, ap₂ (λ x xs. x ∷ xs) same e)

begins_complete : (pref post : Str) → begins (pref ++ post) pref ≡ true
unfolding begins
begins_complete [] [] = refl
begins_complete [] (x ∷ post) = refl
begins_complete (c ∷ pref) post = ground (arith, begins_complete pref post)

Occurs-zero : (haystack needle : Str) → Occurs haystack needle 0 → begins haystack needle ≡ true
Occurs-zero haystack needle ([], post, e, l) = rw e (begins_complete needle post)
Occurs-zero haystack needle (x ∷ pre, post, e, l) = absurd (omega (arith, l))

Occurs-tail :
    (c : ℕ) (haystack needle : Str) (i : ℕ)
    → Occurs (c ∷ haystack) needle (suc i)
    → Occurs haystack needle i
Occurs-tail c haystack needle i ([], post, e, l) = absurd (omega (arith, l))
Occurs-tail c haystack needle i (x ∷ pre, post, e, l) = (pre, post, ap (drop 1) e, omega (arith, l))

Occurs-later : (needle : Str) (i : ℕ) → ¬ Occurs [] needle (suc i)
Occurs-later needle i ([], post, e, l) = absurd (omega (arith, l))
Occurs-later needle i (x ∷ pre, post, e, l) = absurd (omega (arith, ap length e))

-- What a search finds.
abbrev First : Str → Str → Option ℕ → Type 0
First haystack needle result =
    ((result ≡ none) × ((i : ℕ) → ¬ Occurs haystack needle i))
    ⊎ ((i : ℕ) × (result ≡ some i)
        × Occurs haystack needle i
        × ((j : ℕ) → j < i → ¬ Occurs haystack needle j))

First-zero :
    (haystack needle : Str) → begins haystack needle ≡ true → First haystack needle (some 0)
First-zero haystack needle h =
    let (post, e) = begins_sound haystack needle h in
    inr (0, refl, ([], post, e, refl), λ j less. absurd (omega (arith, less)))

First-suc :
    (c : ℕ) (haystack needle : Str) (r : Option ℕ)
    → begins (c ∷ haystack) needle ≡ false
    → First haystack needle r
    → First (c ∷ haystack) needle (r >>=? (λ i. some (suc i)))
First-suc c haystack needle r h (inl (e, never)) = inl (rw e refl, not_at)
  where
    not_at : (i : ℕ) → ¬ Occurs (c ∷ haystack) needle i
    not_at zero o = cc (h, Occurs-zero (c ∷ haystack) needle o)
    not_at (suc i) o = never i (Occurs-tail c haystack needle i o)
First-suc c haystack needle r h (inr (i, e, (pre, post, at, l), earlier)) =
    inr (suc i, rw e refl, (c ∷ pre, post, ap (λ xs. c ∷ xs) at, omega (arith, l)), not_at)
  where
    not_at : (j : ℕ) → j < suc i → ¬ Occurs (c ∷ haystack) needle j
    not_at zero less o = cc (h, Occurs-zero (c ∷ haystack) needle o)
    not_at (suc j) less o = earlier j (omega (arith, less)) (Occurs-tail c haystack needle j o)

strstr-First : (haystack needle : Str) → First haystack needle (strstr haystack needle)
unfolding strstr
strstr-First [] needle = elim (Bool-cases (begins [] needle)) [
  | inl h ↦ rw h (First-zero [] needle h)
  | inr h ↦ rw h (inl (refl, not_at h))
]
  where
    not_at : begins [] needle ≡ false → (i : ℕ) → ¬ Occurs [] needle i
    not_at h zero o = cc (h, Occurs-zero [] needle o)
    not_at h (suc i) o = Occurs-later needle i o
strstr-First (c ∷ haystack) needle = elim (Bool-cases (begins (c ∷ haystack) needle)) [
  | inl h ↦ rw h (First-zero (c ∷ haystack) needle h)
  | inr h ↦
      rw h (First-suc c haystack needle (strstr haystack needle) h (strstr-First haystack needle))
]

substr_found :
    (haystack needle : Str) (i : ℕ)
    → length haystack < 2147483648
    → Occurs haystack needle i
    → op_substr_b haystack (pos i) (op_strlen_b needle) ≡ some (ok needle)
unfolding op_substr_b op_strlen_b
substr_found haystack needle i short (pre, post, e, l) =
    let size : length haystack ≡ i + (length needle + length post) =
      omega
        (arith, ap length e, length-append pre (needle ++ post), length-append needle post, l) in
    let cut : take (length needle) (drop i haystack) ≡ needle =
      rw (e, drop_all i pre (needle ++ post) (sym l)) (take_all (length needle) needle post refl) in
    ground (arith, short, size, cut)

-- On a string shorter than 2 ^ 31 bytes `op_strfind_b` either gives -1, and the second string does
-- not occur in the first; or it gives the offset of the first place where it does, and
-- `op_substr_b` of the first string at that offset, with the length that `op_strlen_b` gives for
-- the second, is the second string.
pub op_strfind_b-op_substr_b :
    (haystack needle : Str)
    → length haystack < 2147483648
    → ((op_strfind_b haystack needle ≡ negsuc 0) × ((i : ℕ) → ¬ Occurs haystack needle i))
      ⊎ ((i : ℕ) × (op_strfind_b haystack needle ≡ pos i)
          × Occurs haystack needle i
          × ((j : ℕ) → j < i → ¬ Occurs haystack needle j)
          × (op_substr_b haystack (op_strfind_b haystack needle) (op_strlen_b needle)
              ≡ some (ok needle)))
unfolding op_strfind_b
op_strfind_b-op_substr_b haystack needle short = elim (strstr-First haystack needle) [
  | inl (e, never) ↦ inl (rw e refl, never)
  | inr (i, e, here, earlier) ↦
      let found : op_strfind_b haystack needle ≡ pos i = ground (arith, e) in
      inr (i, found, here, earlier, rw found (substr_found haystack needle i short here))
]

-- `op_starts_with` tests for a prefix.
op_starts_with-prefix :
    (str pref : Str) → (op_starts_with str pref ≡ true) ↔ ((post : Str) × (str ≡ pref ++ post))
unfolding op_starts_with
op_starts_with-prefix str pref = (
  (λ h. begins_sound str pref (ground (arith, h))),
  λ p.
      let starts : begins str pref ≡ true = rw p.1 (begins_complete pref p.0) in
      let long : length pref ≤ length str = omega (arith, ap length p.1, length-append pref p.0) in
      ground (arith, starts, long),
)

-- The second operand of a concatenation is read back behind the first.
op_substr_b-op_concat :
    (s t : Str)
    → length s + length t < 2147483648
    → op_substr_b (op_concat s t) (op_strlen_b s) (op_strlen_b t) ≡ some (ok t)
unfolding op_concat op_strlen_b
op_substr_b-op_concat s t short =
    substr_found (s ++ t) t (length s) (omega (arith, short, length-append s t))
      (s, [], ap (λ xs. s ++ xs) (sym (append-nil t)), refl)
