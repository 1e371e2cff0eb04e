-- ===== src/Base/Fuel.antt =====
-- A result that the model's fuel did not cut short.
use mathlib.Core.Path.{◌≡◌, refl}
use mathlib.Core.Logic.{◌≢◌}
use mathlib.Core.Bool.{Bool, true, false}
use mathlib.Core.Option.{Option, none, some}
use inet_lisp.Base.Tests.{if◌then◌else◌}
use inet_lisp.Base.Results.{
  dangling, assertion_failed, exited, out_of_fuel, Result, ok, err, ◌>>=◌, deref, check,
}

abbrev pub Ends {ℓ} : {A : Type ℓ} → Result A → Type 0
Ends (ok a) = Unit
Ends (err out_of_fuel) = ⊥
Ends (err e) = Unit

pub Ends-bind {ℓ κ} :
    {A : Type ℓ} {B : Type κ} (m : Result A) (f : A → Result B)
    → Ends m
    → ((a : A) → m ≡ ok a → Ends (f a))
    → Ends (m >>= f)
Ends-bind (ok a) f e k = k a refl
Ends-bind (err out_of_fuel) f e k = e
Ends-bind (err dangling) f e k = tt
Ends-bind (err assertion_failed) f e k = tt
Ends-bind (err exited) f e k = tt

pub Ends-deref {ℓ} : {A : Type ℓ} (o : Option A) → Ends (deref o)
Ends-deref none = tt
Ends-deref (some a) = tt

pub Ends-check : (b : Bool) → Ends (check b)
Ends-check true = tt
Ends-check false = tt

pub Ends-if {ℓ} :
    {A : Type ℓ} (b : Bool) (x y : Result A) → Ends x → Ends y → Ends (if b then x else y)
Ends-if true x y h k = h
Ends-if false x y h k = k

pub Ends-ne {ℓ} : {A : Type ℓ} (r : Result A) → Ends r → r ≢ err out_of_fuel
Ends-ne (ok a) e p = cc
Ends-ne (err out_of_fuel) e p = e
Ends-ne (err dangling) e p = cc
Ends-ne (err assertion_failed) e p = cc
Ends-ne (err exited) e p = cc
