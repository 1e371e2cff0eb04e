-- ===== src/Std/Stack/Tests.antt =====
-- Runs of the stack, after packages/std/stack/test_stack.c.
use inet_lisp.Base.{ℕ, ◌≡◌, ◌==◌, refl, [], ◌∷◌, ok, arith}
use inet_lisp.Std.Array.Laws.{IsValid}
use inet_lisp.Std.Stack.{Stack, stack_tuck_n}
use inet_lisp.Std.Stack.Refine.{items}
use inet_lisp.Std.Stack.Tuck.{stack_tuck_n_lem}

-- a stack of two slots, both in use, 2 on top
abbrev two_items : Stack ℕ
two_items = record { array = record { size = 2; grow_step = 2; cursor = 2; values = 1 ∷ 2 ∷ [] } }

two_items-IsValid : IsValid two_items.array
two_items-IsValid = record { sized = refl; within = omega arith; grows = omega arith }

stack_tuck_n_example :
    (t : Stack ℕ) × (stack_tuck_n 0 (λ x. x == 0) two_items 9 1 ≡ ok t)
    × IsValid t.array
    × (items 0 t ≡ 2 ∷ 9 ∷ 1 ∷ [])
stack_tuck_n_example =
    stack_tuck_n_lem 0 (λ x. x == 0) (2 ∷ []) (1 ∷ []) two_items 9 two_items-IsValid refl (refl, tt)
