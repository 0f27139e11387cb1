-- ===== src/Prelude/Results.antt =====
-- errors.py and Python's own exceptions: code that may raise returns a `Result`. The message of
-- an exception is diagnostic text and is left out.
use mathlib.Core.Bool.{Bool, true, false}
use mathlib.Core.Path.{◌≡◌, refl}

pub data Exception : Type 0 where
  validation_error mismatch_error workload_complete infrastructure_error : Exception
  key_error value_error runtime_error assertion_error attribute_error type_error : Exception

pub data Result {ℓ} (A : Type ℓ) : Type ℓ where
  ok : A → Result A
  raise : Exception → Result A

infixl 5 ◌>>=◌ ◌>>◌
abbrev pub ◌>>=◌ {ℓ κ} : {A : Type ℓ} {B : Type κ} → Result A → (A → Result B) → Result B
ok a >>= f = f a
raise e >>= f = raise e

abbrev pub ◌>>◌ {ℓ} : {B : Type ℓ} → Result (Unit {0}) → Result B → Result B
m >> k = m >>= λ _. k

-- `require(condition, message)` of util.py
abbrev pub require : Bool → Result (Unit {0})
require true = ok tt
require false = raise validation_error

-- `if condition: raise e`
abbrev pub raise_if : Bool → Exception → Result (Unit {0})
raise_if true e = raise e
raise_if false e = ok tt

-- a run that returns has a step that returns and a rest that returns
pub bind-ok {ℓ κ} :
    {A : Type ℓ} {B : Type κ} (m : Result A) (f : A → Result B) (b : B)
    → (m >>= f) ≡ ok b
    → (a : A) × (m ≡ ok a) × (f a ≡ ok b)
bind-ok (ok a) f b h = (a, refl, h)
bind-ok (raise e) f b h = cc

pub require-ok {ℓ} :
    {A : Type ℓ} (b : Bool) (m : Result A) (a : A)
    → (require b >> m) ≡ ok a
    → (b ≡ true) × (m ≡ ok a)
require-ok true m a h = (refl, h)
require-ok false m a h = cc

pub ok_injective {ℓ} : {A : Type ℓ} (a b : A) → ok a ≡ ok b → a ≡ b
ok_injective a b h = cc
