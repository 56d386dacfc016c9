-- ===== src/Base/Steps.antt =====
-- Go code that changes the state of the host and may return an error: a step from a state to the
-- next one, which an error leaves as it is.
use mathlib.Core.Path.{◌≡◌, refl}
use mathlib.Core.Logic.{◌⊎◌, inl, inr}
use mathlib.Core.Bool.{Bool, true, false}
use mathlib.Core.Option.{Option, none, some}
use plugin_vm.Base.Errors.{Outcome, ok, err}
use plugin_vm.Base.Tests.{if◌then◌else◌}

abbrev pub Step {ℓ} : Type 0 → Type 0 → Type ℓ → Type ℓ
Step W E A = W → W × Outcome E A

abbrev pub after {ℓ κ} :
    {W E : Type 0} {A : Type ℓ} {B : Type κ} → (A → Step W E B) → W × Outcome E A → W × Outcome E B
after f (w, ok a) = f a w
after f (w, err e) = (w, err e)

infixl 5 ◌>>=◌ ◌>>◌
abbrev pub ◌>>=◌ {ℓ κ} :
    {W E : Type 0} {A : Type ℓ} {B : Type κ} → Step W E A → (A → Step W E B) → Step W E B
(m >>= f) w = after f (m w)

abbrev pub ◌>>◌ {ℓ} : {W E : Type 0} {B : Type ℓ} → Step W E (Unit {0}) → Step W E B → Step W E B
m >> k = m >>= λ _. k

abbrev pub pure {ℓ} : {W E : Type 0} {A : Type ℓ} → A → Step W E A
pure a w = (w, ok a)

abbrev pub fail {ℓ} : {W E : Type 0} {A : Type ℓ} → E → Step W E A
fail e w = (w, err e)

-- A call that reads the state.
abbrev pub reading {ℓ} : {W E : Type 0} {A : Type ℓ} → (W → Outcome E A) → Step W E A
reading f w = (w, f w)

-- A guard: the error, unless the test holds; and a value that has to be there.
abbrev pub require : {W E : Type 0} → Bool → E → Step W E (Unit {0})
require test e = if test then pure tt else fail e

abbrev pub given : {W E A : Type 0} → E → Option A → Step W E A
given e none = fail e
given e (some a) = pure a

-- What follows a guard, where the two succeed.
pub require-then :
    {W E A : Type 0} (test : Bool) (e : E) (next : Step W E A) {w w' : W} {a : A}
    → (require test e >> next) w ≡ (w', ok a)
    → (test ≡ true) × (next w ≡ (w', ok a))
require-then true e next h = (refl, h)
require-then false e next h = cc

-- How a step ends.
pub Step-cases :
    {W E A : Type 0} (r : W × Outcome E A)
    → ((w' : W) × (e : E) × (r ≡ (w', err e))) ⊎ ((w' : W) × (a : A) × (r ≡ (w', ok a)))
Step-cases (w', err e) = inl (w', e, refl)
Step-cases (w', ok a) = inr (w', a, refl)

pub Outcome-cases :
    {E A : Type 0} (r : Outcome E A) → ((e : E) × (r ≡ err e)) ⊎ ((a : A) × (r ≡ ok a))
Outcome-cases (err e) = inl (e, refl)
Outcome-cases (ok a) = inr (a, refl)

after-ok {ℓ κ} :
    {W E : Type 0} {A : Type ℓ} {B : Type κ} (f : A → Step W E B) (r : W × Outcome E A) {w' : W}
    {b : B}
    → after f r ≡ (w', ok b)
    → (w₁ : W) × (a : A) × (r ≡ (w₁, ok a)) × (f a w₁ ≡ (w', ok b))
after-ok f (w₁, ok a) h = (w₁, a, refl, h)
after-ok f (w₁, err e) h = cc

-- A sequence that succeeds has a first step that succeeds.
pub >>=-ok {ℓ κ} :
    {W E : Type 0} {A : Type ℓ} {B : Type κ} (m : Step W E A) (f : A → Step W E B) (w : W) {w' : W}
    {b : B}
    → (m >>= f) w ≡ (w', ok b)
    → (w₁ : W) × (a : A) × (m w ≡ (w₁, ok a)) × (f a w₁ ≡ (w', ok b))
>>=-ok m f w h = after-ok f (m w) h
