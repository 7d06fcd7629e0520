-- ===== src/Common/Outcomes.antt =====
-- The outcome of code that may abort: a failed `g_assert` or a call through a null pointer.
use mathlib.Core.Path.{◌≡◌, refl, ap}
use mathlib.Core.Bool.{Bool, true, false}

pub data Outcome {ℓ} (A : Type ℓ) : Type ℓ where
  done : A → Outcome A
  abort : Outcome A

infixl 5 ◌>>=◌ ◌>>◌
abbrev pub ◌>>=◌ {ℓ κ} : {A : Type ℓ} {B : Type κ} → Outcome A → (A → Outcome B) → Outcome B
done a >>= f = f a
abort >>= f = abort

abbrev pub ◌>>◌ {ℓ} : {B : Type ℓ} → Outcome (Unit {0}) → Outcome B → Outcome B
m >> k = m >>= λ _. k

-- `g_assert (b)`
abbrev pub g_assert : Bool → Outcome (Unit {0})
g_assert true = done tt
g_assert false = abort

pub >>=-eq-done {ℓ κ} :
    {A : Type ℓ} {B : Type κ} (m : Outcome A) (f : A → Outcome B) {b : B}
    → (m >>= f) ≡ done b
    → (a : A) × (m ≡ done a) × (f a ≡ done b)
>>=-eq-done (done a) f h = (a, refl, h)
>>=-eq-done abort f h = cc

or_else {ℓ} : {A : Type ℓ} → A → Outcome A → A
or_else d (done a) = a
or_else d abort = d

pub done_injective {ℓ} : {A : Type ℓ} {a b : A} → done a ≡ done b → a ≡ b
unfolding or_else
done_injective {a} e = ap (or_else a) e
