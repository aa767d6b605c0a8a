-- ===== src/Prelude/Throws.antt =====
-- Computations that may throw: a value, or the thrown error.
use mathlib.Core.Path.{◌≡◌, refl}
use mathlib.Core.Logic.{◌⊎◌, inl, inr}
use mathlib.Core.Bool.{Bool, true, false}
use mathlib.Core.Option.{Option, none, some}

pub data Result (E : Type 0) (A : Type 0) : Type 0 where
  ok : A → Result E A
  err : E → Result E A

infixl 5 ◌>>=◌ ◌>>◌
abbrev pub ◌>>=◌ : {E A B : Type 0} → Result E A → (A → Result E B) → Result E B
ok a >>= f = f a
err e >>= f = err e

abbrev pub ◌>>◌ : {E B : Type 0} → Result E (Unit {0}) → Result E B → Result E B
m >> k = m >>= λ _. k

-- `if (test) throw e`.
abbrev pub throw_if : {E : Type 0} → Bool → E → Result E (Unit {0})
throw_if true e = err e
throw_if false e = ok tt

-- `if (x === null) throw e`, and the value after it.
abbrev pub require : {E A : Type 0} → Option A → E → Result E A
require none e = err e
require (some a) e = ok a

module _ {E A B : Type 0} where
  pub bind-eq-ok :
      (first : Result E A) (then_run : A → Result E B) {b : B}
      → (first >>= then_run) ≡ ok b
      → (a : A) × (first ≡ ok a) × (then_run a ≡ ok b)
  bind-eq-ok (ok a) f h = (a, refl, h)
  bind-eq-ok (err e) f h = cc

module _ {E B : Type 0} where
  pub throw_if-eq-ok :
      (t : Bool) (e : E) (k : Result E B) {b : B}
      → (throw_if t e >> k) ≡ ok b
      → (t ≡ false) × (k ≡ ok b)
  throw_if-eq-ok false e k h = (refl, h)
  throw_if-eq-ok true e k h = cc

  pub require-eq-ok :
      {A : Type 0} (o : Option A) (e : E) (f : A → Result E B) {b : B}
      → (require o e >>= f) ≡ ok b
      → (a : A) × (o ≡ some a) × (f a ≡ ok b)
  require-eq-ok (some a) e f h = (a, refl, h)
  require-eq-ok none e f h = cc

-- To split on a computation and keep the equation.
pub Result-cases :
    {E A : Type 0} (m : Result E A) → ((a : A) × (m ≡ ok a)) ⊎ ((e : E) × (m ≡ err e))
Result-cases (ok a) = inl (a, refl)
Result-cases (err e) = inr (e, refl)
