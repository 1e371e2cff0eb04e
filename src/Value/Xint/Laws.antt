-- ===== src/Value/Xint/Laws.antt =====
-- value/xint.c: which integers a word holds, and arithmetic on them.
use inet_lisp.Base.{
  ok_injective, sym, ◌∙◌, ℕ, ◌-◌, ◌%◌, ◌^◌, ◌<◌, ◌≡◌, refl, true, ltb, if◌then◌else◌, ok, arith,
}
use inet_lisp.Base.Int.{ℤ, pos, negsuc, ◌+ℤ◌}
use inet_lisp.Value.Tags.{pattern_of}
use inet_lisp.Value.Xint.{xint, is_xint, to_int64, xint_add}

-- the integers from -2^60 to 2^60 - 1
abbrev pub Fits : ℤ → Type 0
Fits (pos n) = n < 2 ^ 60
Fits (negsuc n) = n < 2 ^ 60

-- An integer of 61 bits survives the round trip through a word.
pub to_int64-xint : (z : ℤ) → Fits z → to_int64 (xint z) ≡ ok z
unfolding to_int64 xint
to_int64-xint (pos n) h = ground arith
to_int64-xint (negsuc n) h = ground arith

-- the integer of 61 bits with the same lower 61 bits
abbrev pub wrap_61 : ℤ → ℤ
wrap_61 z =
    let low = pattern_of z % 2 ^ 61 in
    if ltb low (2 ^ 60) then pos low else negsuc (2 ^ 61 - 1 - low)

wrap_61-Fits : (z : ℤ) → Fits (wrap_61 z)
wrap_61-Fits z = ground arith

-- A word keeps the lower 61 bits of an integer: reading it back gives the integer of 61 bits that
-- agrees with it modulo 2^61, whatever the integer.
pub to_int64-xint_wrap :
    (z : ℤ)
    → (r : ℤ) × (to_int64 (xint z) ≡ ok r)
      × Fits r
      × (pattern_of r % 2 ^ 61 ≡ pattern_of z % 2 ^ 61)
unfolding to_int64 xint
to_int64-xint_wrap z = (wrap_61 z, ground arith, wrap_61-Fits z, ground arith)

-- Every result of `xint` carries the integer tag.
pub is_xint-xint : (z : ℤ) → is_xint (xint z) ≡ true
unfolding is_xint xint
is_xint-xint z = ground arith

-- The sum of two integers of 61 bits is right if it fits, and else is off by 2^61.
pub xint_add_lem :
    (a b : ℤ)
    → Fits a
    → Fits b
    → (s : ℕ) × (r : ℤ) × (xint_add (xint a) (xint b) ≡ ok s)
      × (to_int64 s ≡ ok r)
      × Fits r
      × (pattern_of r % 2 ^ 61 ≡ pattern_of (a +ℤ b) % 2 ^ 61)
      × (Fits (a +ℤ b) → r ≡ a +ℤ b)
unfolding xint_add
xint_add_lem a b p q =
    let (r, e, f, c) = to_int64-xint_wrap (a +ℤ b) in
    (
      xint (a +ℤ b),
      r,
      rw (to_int64-xint a p, to_int64-xint b q) refl,
      e,
      f,
      c,
      λ fits. ok_injective (sym e ∙ to_int64-xint (a +ℤ b) fits),
    )
