-- ===== src/Base/Errors.antt =====
-- Go's (value, error) pairs: a value, or an error.
use mathlib.Core.Path.{◌≡◌, refl}
use mathlib.Core.Bool.{Bool, true, false}

pub data Outcome {ℓ} (E : Type 0) (A : Type ℓ) : Type ℓ where
  ok : A → Outcome E A
  err : E → Outcome E A

-- What follows a call: it runs on the value, and an error skips it.
abbrev pub on_value {ℓ κ} :
    {E : Type 0} {A : Type ℓ} {B : Type κ} → (A → Outcome E B) → Outcome E A → Outcome E B
on_value next (err e) = err e
on_value next (ok value) = next value

infixl 5 ◌>>=◌ ◌>>◌
abbrev pub ◌>>=◌ {ℓ κ} :
    {E : Type 0} {A : Type ℓ} {B : Type κ} → Outcome E A → (A → Outcome E B) → Outcome E B
call >>= next = on_value next call

abbrev pub ◌>>◌ {ℓ} : {E : Type 0} {B : Type ℓ} → Outcome E (Unit {0}) → Outcome E B → Outcome E B
call >> next = on_value (λ done. next) call

-- A chain that succeeds has a first call that succeeds.
pub >>=-eq-ok {ℓ κ} :
    {E : Type 0} {A : Type ℓ} {B : Type κ} (call : Outcome E A) (next : A → Outcome E B)
    {result : B}
    → (call >>= next) ≡ ok result
    → (value : A) × (call ≡ ok value) × (next value ≡ ok result)
>>=-eq-ok (err e) next succeeded = cc
>>=-eq-ok (ok value) next succeeded = (value, refl, succeeded)

abbrev pub is_ok {ℓ} : {E : Type 0} {A : Type ℓ} → Outcome E A → Bool
is_ok (ok _) = true
is_ok (err _) = false

-- Whether a call succeeds.
abbrev pub Succeeds {ℓ} : {E : Type 0} {A : Type ℓ} → Outcome E A → Type ℓ
Succeeds {E} {A} m = (a : A) × (Path (Outcome E A) m (ok a))

pub is_ok-Succeeds {ℓ} : {E : Type 0} {A : Type ℓ} (m : Outcome E A) → is_ok m ≡ true → Succeeds m
is_ok-Succeeds (ok a) h = (a, refl)
is_ok-Succeeds (err e) h = cc
