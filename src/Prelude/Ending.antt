-- ===== src/Prelude/Ending.antt =====
-- How a C function ends: it returns a value, or a failed `assert`, a `laik_panic` or an `exit`
-- ends the process.
use mathlib.Core.Path.{◌≡◌, refl, ap}
use mathlib.Core.Logic.{◌⊎◌, inl, inr}
use mathlib.Core.Bool.{Bool, true, false}

pub data Outcome {ℓ} (A : Type ℓ) : Type ℓ where
  done : A → Outcome A
  aborted : Outcome A

infixl 5 ◌>>=◌ ◌>>◌
abbrev pub ◌>>=◌ {ℓ κ} : {A : Type ℓ} {B : Type κ} → Outcome A → (A → Outcome B) → Outcome B
done a >>= f = f a
aborted >>= f = aborted

abbrev pub ◌>>◌ {ℓ κ} : {A : Type ℓ} {B : Type κ} → Outcome A → Outcome B → Outcome B
m >> k = m >>= λ _. k

-- `assert(b)`
abbrev pub assert : Bool → Outcome (Unit {0})
assert true = done tt
assert false = aborted

pub Outcome-cases {ℓ} : {A : Type ℓ} (o : Outcome A) → (o ≡ aborted) ⊎ ((a : A) × (o ≡ done a))
Outcome-cases (done a) = inr (a, refl)
Outcome-cases aborted = inl refl

abbrev value_or {ℓ} : {A : Type ℓ} → A → Outcome A → A
value_or d (done a) = a
value_or d aborted = d

pub done-injective {ℓ} : {A : Type ℓ} {a b : A} → done a ≡ done b → a ≡ b
done-injective {a = a} e = ap (value_or a) e

pub bind-done {ℓ κ} :
    {A : Type ℓ} {B : Type κ} (o : Outcome A) (f : A → Outcome B) {b : B}
    → (o >>= f) ≡ done b
    → (a : A) × (o ≡ done a) × (f a ≡ done b)
bind-done (done a) f e = (a, refl, e)
bind-done aborted f e = absurd cc
