-- ===== src/Std/Allocator/Tests.antt =====
-- Runs of the allocator, after packages/std/allocator/test_allocator.c.
use mathlib.Core.List.{Perm}
use inet_lisp.Base.{ℕ, ◌≡◌, [], ◌∷◌, some, ok, arith}
use inet_lisp.Std.Allocator.{Pool, allocator_maybe_allocate, allocator_recycle, refill}
use inet_lisp.Std.Allocator.Laws.{
  free_values, Allocated, allocator_maybe_allocate_lem, allocator_recycle_lem,
}

-- three values, all in the shared stack, and a cache of two
abbrev three_values : Pool ℕ
three_values = record { shared = record { stack = 5 ∷ 6 ∷ 7 ∷ []; cache_size = 2 }; local = [] }

allocator_maybe_allocate_example :
    Allocated three_values
      (some 6)
      (record { shared = record { stack = 7 ∷ []; cache_size = 2 }; local = 5 ∷ [] })
unfolding allocator_maybe_allocate refill
allocator_maybe_allocate_example = allocator_maybe_allocate_lem three_values (omega arith)

allocator_recycle_example :
    (after : Pool ℕ) × (allocator_recycle three_values 8 ≡ ok after)
    × Perm (free_values after) (8 ∷ 5 ∷ 6 ∷ 7 ∷ [])
    × (after.shared.cache_size ≡ 2)
allocator_recycle_example = allocator_recycle_lem three_values 8
