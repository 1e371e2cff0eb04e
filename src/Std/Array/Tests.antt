-- ===== src/Std/Array/Tests.antt =====
-- Runs of the array, after packages/std/array/test_array_auto_grow.c.
use inet_lisp.Base.{ℕ, ◌≡◌, ◌==◌, if◌then◌else◌, ok, arith}
use inet_lisp.Std.Array.{Array, array_new, array_get, array_set}
use inet_lisp.Std.Array.Laws.{IsValid, array_new-IsValid, array_set_lem}

array_set_example :
    (b : Array ℕ) × (array_set 0 (array_new 0 10) 100 7 ≡ ok b)
    × IsValid b
    × (b.cursor ≡ 101)
    × ((j : ℕ) → array_get 0 b j ≡ (if 100 == j then 7 else array_get 0 (array_new 0 10) j))
unfolding array_new
array_set_example = array_set_lem 0 (array_new 0 10) 100 7 (array_new-IsValid 0 10 (omega arith))
