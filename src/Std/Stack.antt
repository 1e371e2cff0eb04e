-- ===== src/Std/Stack.antt =====
-- packages/std/stack: a stack over the growable array, and `stack_tuck_n`.
pub mod Refine
pub mod Tuck
mod Tests
use inet_lisp.Base.{
  ℕ, zero, suc, List, [], ◌∷◌, Bool, not, if◌then◌else◌, Result, ok, ◌>>=◌, ◌>>◌, check,
}
use inet_lisp.Std.Array.{
  Array, array_new_auto, array_length, array_is_empty, array_top, array_pop, array_push, array_get,
  array_pick,
}

-- `stack_t`
pub record Stack {ℓ} (A : Type ℓ) : Type ℓ where
  pub array : Array A

module _ {ℓ} {A : Type ℓ} where
  unfoldable pub stack_length : Stack A → ℕ
  unfolding array_length
  stack_length self = array_length self.array

  unfoldable pub stack_is_empty : Stack A → Bool
  unfolding array_is_empty
  stack_is_empty self = array_is_empty self.array

module _ {ℓ} {A : Type ℓ} (null : A) where
  unfoldable pub stack_new : Stack A
  unfolding array_new_auto
  stack_new = record { array = array_new_auto null }

  unfoldable pub stack_top : Stack A → Result A
  stack_top self = array_top null self.array

  unfoldable pub stack_pop : Stack A → Result (A × Stack A)
  stack_pop self = do
    (value, array) ← array_pop null self.array
    ok (value, record { array = array })

  unfoldable pub stack_push : Stack A → A → Result (Stack A)
  stack_push self value = do array ← array_push null self.array value; ok (record { array = array })

  unfoldable pub stack_get : Stack A → ℕ → A
  stack_get self index = array_get null self.array index

  unfoldable pub stack_pick : Stack A → ℕ → Result A
  stack_pick self index = array_pick null self.array index

  -- the first loop of `stack_tuck_n`: `n` values popped, each unshifted to the list
  unfoldable pub pop_values : (A → Bool) → ℕ → Stack A → List A → Result (List A × Stack A)
  pop_values is_null zero self value_list = ok (value_list, self)
  pop_values is_null (suc n) self value_list = do
    (value, rest) ← stack_pop self
    check (not (is_null value))
    pop_values is_null n rest (value ∷ value_list)

  -- its second loop, which stops at a null value as it would at the end of the list
  unfoldable pub push_values : (A → Bool) → List A → Stack A → Result (Stack A)
  push_values is_null [] self = ok self
  push_values is_null (value ∷ value_list) self =
      if is_null value then ok self else (stack_push self value >>= push_values is_null value_list)

  unfoldable pub stack_tuck_n : (A → Bool) → Stack A → A → ℕ → Result (Stack A)
  unfolding pop_values push_values
  stack_tuck_n is_null self target n = do
    (value_list, rest) ← pop_values is_null n self []
    tucked ← stack_push rest target
    push_values is_null value_list tucked
