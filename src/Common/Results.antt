-- ===== src/Common/Results.antt =====
-- A call that returns or raises. An error carries no state: a raise inside `transaction.atomic`
-- leaves the stored rows as they were.
use mathlib.Core.Logic.{◌⊎◌, inl, inr}
use mathlib.Core.Path.{◌≡◌, refl}
use mathlib.Core.Bool.{Bool, true, false}
use mathlib.Core.Option.{Option, none, some}

pub data Result {ℓ} (E : Type 0) (A : Type ℓ) : Type ℓ where
  ok : A → Result E A
  err : E → Result E A

infixl 5 ◌>>=◌ ◌>>◌
abbrev pub ◌>>=◌ {ℓ κ} :
    {E : Type 0} {A : Type ℓ} {B : Type κ} → Result E A → (A → Result E B) → Result E B
ok a >>= f = f a
err e >>= f = err e

abbrev pub ◌>>◌ {ℓ} : {E : Type 0} {B : Type ℓ} → Result E (Unit {0}) → Result E B → Result E B
m >> k = m >>= λ _. k

-- `if test: raise e`
abbrev pub raise_if : {E : Type 0} → Bool → E → Result E (Unit {0})
raise_if true e = err e
raise_if false e = ok tt

abbrev pub or_raise {ℓ} : {E : Type 0} {A : Type ℓ} → Option A → E → Result E A
or_raise none e = err e
or_raise (some a) e = ok a

-- What a call has established when it returns; nothing when it raises.
abbrev pub Returns {ℓ κ} : {E : Type 0} {A : Type ℓ} → (A → Type κ) → Result E A → Type κ
Returns P (ok a) = P a
Returns P (err e) = Unit

-- What a call has established when it raises; nothing when it returns.
abbrev pub Raises {ℓ κ} : {E : Type 0} {A : Type ℓ} → (E → Type κ) → Result E A → Type κ
Raises P (ok a) = Unit
Raises P (err e) = P e

-- Every run of a call ends in one of two ways.
pub Result-cases {ℓ} :
    {E : Type 0} {A : Type ℓ} (r : Result E A) → ((e : E) × (r ≡ err e)) ⊎ ((a : A) × (r ≡ ok a))
Result-cases (err e) = inl (e, refl)
Result-cases (ok a) = inr (a, refl)

-- A call that goes on after a test, or after a lookup.
pub Returns-raise_if {ℓ κ} :
    {E : Type 0} {A : Type ℓ} (P : A → Type κ) (e : E) (b : Bool) (k : Result E A)
    → (b ≡ false → Returns P k)
    → Returns P (raise_if b e >> k)
Returns-raise_if P e true k h = tt
Returns-raise_if P e false k h = h refl

pub Returns-or_raise {ℓ κ ι} :
    {E : Type 0} {A : Type ℓ} {B : Type κ} (P : B → Type ι) (e : E) (o : Option A)
    (k : A → Result E B)
    → ((a : A) → o ≡ some a → Returns P (k a))
    → Returns P (or_raise o e >>= k)
Returns-or_raise P e none k h = tt
Returns-or_raise P e (some a) k h = h a refl
