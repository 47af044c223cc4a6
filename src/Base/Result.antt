-- ===== src/Base/Result.antt =====
-- Results that are a value or an error, chained by `do`.
use mathlib.Core.Path.{◌≡◌, refl}
use mathlib.Core.Logic.{◌⊎◌, inl, inr}
use mathlib.Core.Bool.{Bool, true, false}
use mathlib.Core.Option.{Option, none, some}

infixl 5 ◌>>=◌ ◌>>◌
abbrev pub ◌>>=◌ {ℓ κ μ} : {E : Type ℓ} {A : Type κ} {B : Type μ} → E ⊎ A → (A → E ⊎ B) → E ⊎ B
inl e >>= f = inl e
inr a >>= f = f a

abbrev pub ◌>>◌ {ℓ μ} : {E : Type ℓ} {B : Type μ} → E ⊎ Unit {0} → E ⊎ B → E ⊎ B
m >> k = m >>= λ _. k

-- An error unless the test holds.
abbrev pub check {ℓ} : {E : Type ℓ} → Bool → E → E ⊎ Unit {0}
check true e = inr tt
check false e = inl e

abbrev pub or_error {ℓ κ} : {E : Type ℓ} {A : Type κ} → E → Option A → E ⊎ A
or_error e none = inl e
or_error e (some a) = inr a

-- The value that a chain with a result has passed on.
pub >>=-inr {ℓ κ μ} :
    {E : Type ℓ} {A : Type κ} {B : Type μ} (m : E ⊎ A) (f : A → E ⊎ B) {b : B}
    → (m >>= f) ≡ inr b
    → (a : A) × (m ≡ inr a) × (f a ≡ inr b)
>>=-inr (inl e) f h = cc
>>=-inr (inr a) f h = (a, refl, h)

pub check-inr {ℓ μ} :
    {E : Type ℓ} {B : Type μ} (t : Bool) (e : E) (k : E ⊎ B) {b : B}
    → (check t e >>= λ _. k) ≡ inr b
    → (t ≡ true) × (k ≡ inr b)
check-inr true e k h = (refl, h)
check-inr false e k h = cc

pub or_error-inr {ℓ κ} :
    {E : Type ℓ} {A : Type κ} (e : E) (o : Option A) {a : A} → or_error e o ≡ inr a → o ≡ some a
or_error-inr e none h = cc
or_error-inr e (some a) h = cc
