-- ===== src/Base/Results.antt =====
-- The results of fallible Go code: a value or an error.
use mathlib.Core.Path.{◌≡◌, refl}
use mathlib.Core.Logic.{◌⊎◌, inl, inr}
use mathlib.Core.Option.{Option, none, some}
use mathlib.Core.Bool.{Bool, true, false}

pub data Result {ℓ κ} (E : Type ℓ) (A : Type κ) : Type (ℓ ⊔ κ) where
  ok : A → Result E A
  err : E → Result E A

infixl 5 ◌>>=◌ ◌>>◌
abbrev pub ◌>>=◌ {ℓ κ μ} :
    {E : Type ℓ} {A : Type κ} {B : Type μ} → Result E A → (A → Result E B) → Result E B
ok a >>= f = f a
err e >>= f = err e

abbrev pub ◌>>◌ {ℓ κ} : {E : Type ℓ} {B : Type κ} → Result E (Unit {0}) → Result E B → Result E B
m >> k = m >>= λ _. k

-- An early return with an error, unless the test holds.
abbrev pub guard {ℓ} : {E : Type ℓ} → Bool → E → Result E (Unit {0})
guard true e = ok tt
guard false e = err e

abbrev pub required {ℓ κ} : {E : Type ℓ} {A : Type κ} → Option A → E → Result E A
required none e = err e
required (some a) e = ok a

-- The error replaced.
abbrev pub or_error {ℓ κ μ} : {E : Type ℓ} {F : Type κ} {A : Type μ} → Result E A → F → Result F A
or_error (ok a) f = ok a
or_error (err e) f = err f

pub Result-cases {ℓ κ} :
    {E : Type ℓ} {A : Type κ} (r : Result E A) → ((a : A) × (r ≡ ok a)) ⊎ ((e : E) × (r ≡ err e))
Result-cases (ok a) = inl (a, refl)
Result-cases (err e) = inr (e, refl)

-- What the success of a chain says of its first step and of the rest.
pub ok_of_bind {ℓ κ μ} :
    {E : Type ℓ} {A : Type κ} {B : Type μ} (r : Result E A) (f : A → Result E B) (b : B)
    → (r >>= f) ≡ ok b
    → (a : A) × (r ≡ ok a) × (f a ≡ ok b)
ok_of_bind (ok a) f b h = (a, refl, h)
ok_of_bind (err e) f b h = absurd cc

pub ok_of_guard {ℓ κ} :
    {E : Type ℓ} {B : Type κ} (t : Bool) (e : E) (r : Result E B) (b : B)
    → (guard t e >> r) ≡ ok b
    → (t ≡ true) × (r ≡ ok b)
ok_of_guard true e r b h = (refl, h)
ok_of_guard false e r b h = absurd cc

pub ok_of_or_error {ℓ κ μ} :
    {E : Type ℓ} {F : Type κ} {A : Type μ} (r : Result E A) (f : F) (a : A)
    → or_error r f ≡ ok a
    → r ≡ ok a
ok_of_or_error (ok x) f a h = cc
ok_of_or_error (err e) f a h = absurd cc
