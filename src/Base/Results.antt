-- ===== src/Base/Results.antt =====
-- How a run of the C code ends: a value, or one of the ways in which the process stops.
use mathlib.Core.Path.{◌≡◌, refl, ap}
use mathlib.Core.Bool.{Bool, true, false}
use mathlib.Core.Option.{Option, none, some}

-- `dangling`: a read through NULL or a freed pointer. `assertion_failed`: an `assert`.
-- `exited`: a diagnostic and `exit(1)`. `out_of_fuel` is of the model alone.
pub data Error : Type 0 where
  dangling assertion_failed exited out_of_fuel : Error

pub data Result {ℓ} (A : Type ℓ) : Type ℓ where
  err : Error → Result A
  ok : A → Result A

-- a read through a pointer
abbrev pub deref {ℓ} : {A : Type ℓ} → Option A → Result A
deref none = err dangling
deref (some a) = ok a

-- The code that follows runs when the process has not stopped.
infixl 5 ◌>>=◌
abbrev pub ◌>>=◌ {ℓ κ} : {A : Type ℓ} {B : Type κ} → Result A → (A → Result B) → Result B
err stop >>= next = err stop
ok value >>= next = next value

-- `assert (b)`
abbrev pub check : Bool → Result (Unit {0})
check true = ok tt
check false = err assertion_failed

infixl 5 ◌>>◌
abbrev pub ◌>>◌ {ℓ} : {B : Type ℓ} → Result (Unit {0}) → Result B → Result B
first >> next = first >>= λ _. next

module _ {ℓ κ} {A : Type ℓ} {B : Type κ} where
  pub >>=-eq-ok :
      (first : Result A) (next : A → Result B) {r : B}
      → (first >>= next) ≡ ok r
      → (value : A) × (first ≡ ok value) × (next value ≡ ok r)
  >>=-eq-ok (err stop) next e = cc
  >>=-eq-ok (ok value) next e = (value, refl, e)

pub bind_assoc {ℓ κ μ} :
    {A : Type ℓ} {B : Type κ} {C : Type μ} (first : Result A) (next : A → Result B)
    (last : B → Result C)
    → ((first >>= next) >>= last) ≡ (first >>= (λ a. next a >>= last))
bind_assoc (err stop) next last = refl
bind_assoc (ok a) next last = refl

abbrev pub ok_or {ℓ} : {A : Type ℓ} → A → Result A → A
ok_or d (ok a) = a
ok_or d (err e) = d

pub ok_injective {ℓ} : {A : Type ℓ} {a b : A} → ok a ≡ ok b → a ≡ b
ok_injective {a} h = ap (ok_or a) h
