-- ===== src/Value/Tests.antt =====
-- Runs of value/xint.c.
use inet_lisp.Base.{ℕ, ◌%◌, ◌^◌, ◌≡◌, ok, arith}
use inet_lisp.Base.Int.{ℤ, pos, negsuc, ◌+ℤ◌}
use inet_lisp.Value.Tags.{pattern_of}
use inet_lisp.Value.Xint.{xint, to_int64, xint_add}
use inet_lisp.Value.Xint.Laws.{Fits, to_int64-xint, to_int64-xint_wrap, xint_add_lem}

to_int64-xint_example : to_int64 (xint (negsuc 4)) ≡ ok (negsuc 4)
to_int64-xint_example = to_int64-xint (negsuc 4) (omega arith)

-- an integer that does not fit
to_int64-xint_wrap_example :
    (r : ℤ) × (to_int64 (xint (pos (2 ^ 60))) ≡ ok r)
    × Fits r
    × (pattern_of r % 2 ^ 61 ≡ pattern_of (pos (2 ^ 60)) % 2 ^ 61)
to_int64-xint_wrap_example = to_int64-xint_wrap (pos (2 ^ 60))

xint_add_example :
    (s : ℕ) × (r : ℤ) × (xint_add (xint (pos 2)) (xint (negsuc 4)) ≡ ok s)
    × (to_int64 s ≡ ok r)
    × Fits r
    × (pattern_of r % 2 ^ 61 ≡ pattern_of (pos 2 +ℤ negsuc 4) % 2 ^ 61)
    × (Fits (pos 2 +ℤ negsuc 4) → r ≡ pos 2 +ℤ negsuc 4)
xint_add_example = xint_add_lem (pos 2) (negsuc 4) (omega arith) (omega arith)
