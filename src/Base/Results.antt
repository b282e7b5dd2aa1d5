-- ===== src/Base/Results.antt =====
-- Code that may fail: `undefined` stands for an access out of range or a failed assertion,
-- `throws` for a C++ exception that leaves the function.
use mathlib.Core.Path.{◌≡◌, refl, ap, subst}
use mathlib.Core.Logic.{◌⊎◌, inl, inr}
use mathlib.Core.Option.{Option, none, some}
use mathlib.Core.Bool.{Bool, true, false}
use megumi.Base.Tests.{if◌then◌else◌}
use native.Mathlib.Omega.{arith}

pub data Fault : Type 0 where
  undefined throws : Fault

pub data Result {ℓ} (A : Type ℓ) : Type ℓ where
  ok : A → Result A
  err : Fault → Result A

infixl 5 ◌>>=◌
abbrev pub ◌>>=◌ {ℓ κ} : {A : Type ℓ} {B : Type κ} → Result A → (A → Result B) → Result B
ok a >>= f = f a
err e >>= f = err e

-- An element of a vector, or undefined behaviour.
abbrev pub or_undefined {ℓ} : {A : Type ℓ} → Option A → Result A
or_undefined none = err undefined
or_undefined (some a) = ok a

-- To split on a computed result and keep the equation.
pub Result-cases {ℓ} :
    {A : Type ℓ} (m : Result A) → ((a : A) × (m ≡ ok a)) ⊎ ((e : Fault) × (m ≡ err e))
Result-cases (ok a) = inl (a, refl)
Result-cases (err e) = inr (e, refl)

abbrev value_or {ℓ} : {A : Type ℓ} → A → Result A → A
value_or d (ok a) = a
value_or d (err e) = d

pub ok_injective {ℓ} : {A : Type ℓ} {a b : A} → ok a ≡ ok b → a ≡ b
ok_injective {a = a} h = ap (value_or a) h

-- A chain that succeeds, taken apart.
pub bind_ok {ℓ κ} :
    {A : Type ℓ} {B : Type κ} {last : B} (m : Result A) (f : A → Result B)
    → m >>= f ≡ ok last
    → (a : A) × (m ≡ ok a) × (f a ≡ ok last)
bind_ok (ok a) f h = (a, refl, h)
bind_ok (err e) f h = absurd (ground (arith, h))

-- A test that throws, passed.
pub guard_ok {ℓ} :
    {A : Type ℓ} (test : Bool) (e : Fault) (r : Result A) {a : A}
    → (if test then err e else r) ≡ ok a
    → r ≡ ok a
guard_ok true e r h = absurd (ground (arith, h))
guard_ok false e r h = h

-- What holds of the value, when there is one.
abbrev pub IfOk {ℓ κ} : {A : Type ℓ} → (A → Type κ) → Result A → Type κ
IfOk P (ok a) = P a
IfOk P (err e) = Unit

pub IfOk-holds {ℓ κ} :
    {A : Type ℓ} (P : A → Type κ) (r : Result A) {a : A} → IfOk P r → r ≡ ok a → P a
IfOk-holds P (ok b) p h = subst P (ok_injective h) p
IfOk-holds P (err e) p h = absurd (ground (arith, h))

pub IfOk-if {ℓ κ} :
    {A : Type ℓ} (P : A → Type κ) (test : Bool) (r s : Result A)
    → IfOk P r
    → IfOk P s
    → IfOk P (if test then r else s)
IfOk-if P true r s p q = p
IfOk-if P false r s p q = q

pub IfOk-bind {ℓ κ μ ν} :
    {A : Type ℓ} {B : Type κ} (Q : A → Type μ) (P : B → Type ν) (m : Result A) (f : A → Result B)
    → IfOk Q m
    → ((a : A) → Q a → IfOk P (f a))
    → IfOk P (m >>= f)
IfOk-bind Q P (ok a) f q next = next a q
IfOk-bind Q P (err e) f q next = _

pub IfOk-any {ℓ} : {A : Type ℓ} (r : Result A) → IfOk {ℓ, 0} (λ a. Unit) r
IfOk-any (ok a) = _
IfOk-any (err e) = _
