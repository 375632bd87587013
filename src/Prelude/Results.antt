-- ===== src/Prelude/Results.antt =====
-- Results and error kinds, for functions that report through the execution context
-- (obj/excontext.c, the error types of obj/builtintypes.c) or by an error code.
use mathlib.Core.Logic.{◌⊎◌, inl, inr}
use mathlib.Core.Path.{◌≡◌, refl}

-- The last three are not raised by the code. They stand for undefined behaviour: a read through a
-- null pointer, an access outside a block, a use of a variable that has no value yet.
pub data Error : Type 0 where
  key_violation not_found no_memory invalid_argument not_supported name_error : Error
  type_mismatch type_constraint_violation operator_not_found element_exists : Error
  record_corrupted internal null_pointer out_of_bounds uninitialised : Error

pub data Result {ℓ} (A : Type ℓ) : Type ℓ where
  err : Error → Result A
  ok : A → Result A

-- What follows a call, unless the call has failed.
infixl 5 ◌>>=◌
abbrev pub ◌>>=◌ {ℓ κ} :
    {A : Type ℓ} {B : Type κ} (call : Result A) (rest : A → Result B) → Result B
err reason >>= rest = err reason
ok value >>= rest = rest value

-- The call succeeds, with a result that satisfies `P`.
abbrev pub Returns {ℓ κ} : {A : Type ℓ} → Result A → (A → Type κ) → Type (ℓ ⊔ κ)
Returns {A} r P = (a : A) × (r ≡ ok a) × P a

-- The call returns what satisfies `P`, or reports exactly the error `e`.
abbrev pub Ends {ℓ} : {A : Type ℓ} → Error → (A → Type 0) → Result A → Type 0
Ends e P (ok a) = P a
Ends e P (err e') = e' ≡ e

module _ {ℓ} {A : Type ℓ} where
  pub Returns-Ends : (e : Error) (P : A → Type 0) (r : Result A) → Returns r P → Ends e P r
  Returns-Ends e P r (a, q, p) = rw q p

  pub >>=-Ends {κ} :
      {B : Type κ} (e : Error) (P : A → Type 0) (Q : B → Type 0) (m : Result A) (f : A → Result B)
      → Ends e P m
      → ((a : A) → P a → Ends e Q (f a))
      → Ends e Q (m >>= f)
  >>=-Ends e P Q (ok a) f h k = k a h
  >>=-Ends e P Q (err x) f h k = h

  pub >>=-Returns {κ} :
      {B : Type κ} (P : A → Type 0) (Q : B → Type 0) (m : Result A) (f : A → Result B)
      → Returns m P
      → ((a : A) → P a → Returns (f a) Q)
      → Returns (m >>= f) Q
  >>=-Returns P Q m f (a, q, p) k = rw q (k a p)

pub ok_injective {ℓ} : {A : Type ℓ} {a b : A} → ok a ≡ ok b → a ≡ b
ok_injective e = cc

pub bind_ok_ok {ℓ κ μ} :
    {A : Type ℓ} {B : Type κ} {C : Type μ} (r : Result A) (f : A → B) (g : B → C)
    → r >>= (λ a. ok (f a)) >>= (λ b. ok (g b)) ≡ r >>= (λ a. ok (g (f a)))
bind_ok_ok (ok a) f g = refl
bind_ok_ok (err e) f g = refl

pub bind_assoc {ℓ κ μ} :
    {A : Type ℓ} {B : Type κ} {C : Type μ} (r : Result A) (f : A → Result B) (g : B → Result C)
    → r >>= (λ a. f a >>= g) ≡ r >>= f >>= g
bind_assoc (ok a) f g = refl
bind_assoc (err e) f g = refl

pub Result-cases {ℓ} :
    {A : Type ℓ} (r : Result A) → ((x : Error) × (r ≡ err x)) ⊎ ((a : A) × (r ≡ ok a))
Result-cases (err x) = inl (x, refl)
Result-cases (ok a) = inr (a, refl)

pub bind_ok {ℓ} : {A : Type ℓ} (r : Result A) → r >>= (λ a. ok a) ≡ r
bind_ok (ok a) = refl
bind_ok (err e) = refl

pub Ends-and {ℓ} :
    {A : Type ℓ} (e : Error) (P Q : A → Type 0) (r : Result A)
    → Ends e P r
    → Ends e Q r
    → Ends e (λ a. P a × Q a) r
Ends-and e P Q (ok a) p q = (p, q)
Ends-and e P Q (err m) p q = p

-- A successful call returns what satisfies `P`.
abbrev pub Whenever {ℓ} : {A : Type ℓ} → (A → Type 0) → Result A → Type 0
Whenever P (ok a) = P a
Whenever P (err e) = Unit

pub >>=-Whenever {ℓ κ} :
    {A : Type ℓ} {B : Type κ} (P : A → Type 0) (Q : B → Type 0) (m : Result A) (f : A → Result B)
    → Whenever P m
    → ((a : A) → P a → Whenever Q (f a))
    → Whenever Q (m >>= f)
>>=-Whenever P Q (ok a) f h k = k a h
>>=-Whenever P Q (err e) f h k = tt

pub Returns_also {ℓ} :
    {A : Type ℓ} (P Q : A → Type 0) (r : Result A)
    → Returns r P
    → Whenever Q r
    → Returns r (λ a. P a × Q a)
Returns_also P Q r (a, e, p) w = (a, e, (p, rw e at w))

pub Whenever-imp {ℓ} :
    {A : Type ℓ} (P Q : A → Type 0) (r : Result A)
    → Whenever P r
    → ((a : A) → P a → Q a)
    → Whenever Q r
Whenever-imp P Q (ok a) h k = k a h
Whenever-imp P Q (err e) h k = tt
