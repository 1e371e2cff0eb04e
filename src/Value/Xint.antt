-- ===== src/Value/Xint.antt =====
-- value/xint.c: integers in the upper 61 bits of a word.
pub mod Laws
use inet_lisp.Base.{
  ℕ, ◌+◌, ◌*◌, ◌%◌, Bool, true, false, not, ◌==◌, if◌then◌else◌, Result, ok, err, dangling, exited,
  check, ◌>>=◌, ◌>>◌,
}
use inet_lisp.Base.Int.{ℤ, pos, negsuc, ◌+ℤ◌, ◌-ℤ◌, ◌*ℤ◌, quot_ℤ, rem_ℤ, magnitude}
use inet_lisp.Value.Tags.{word_mod, tag_xint, value_tag, pattern_of, signed, shift_right_3}

-- `(target << 3) | XINT`. The shift leaves three zero bits, so that `|` adds the tag.
unfoldable pub xint : ℤ → ℕ
xint target = pattern_of target * 8 % word_mod + tag_xint

unfoldable pub is_xint : ℕ → Bool
unfolding value_tag
is_xint value = value_tag value == tag_xint

unfoldable pub to_int64 : ℕ → Result ℤ
unfolding is_xint
to_int64 value = do check (is_xint value); ok (shift_right_3 (signed value))

-- Two operands of 61 bits: no sum or difference leaves the range of `int64_t`.
unfoldable pub xint_add : ℕ → ℕ → Result ℕ
unfolding to_int64 xint
xint_add x y = do a ← to_int64 x; b ← to_int64 y; ok (xint (a +ℤ b))

unfoldable pub xint_sub : ℕ → ℕ → Result ℕ
unfolding to_int64 xint
xint_sub x y = do a ← to_int64 x; b ← to_int64 y; ok (xint (a -ℤ b))

-- A product may leave the range, which C leaves undefined; here it wraps.
unfoldable pub xint_mul : ℕ → ℕ → Result ℕ
unfolding to_int64 xint
xint_mul x y = do a ← to_int64 x; b ← to_int64 y; ok (xint (a *ℤ b))

-- Division by zero stops the process.
unfoldable pub xint_div : ℕ → ℕ → Result ℕ
unfolding to_int64 xint
xint_div x y = do
  a ← to_int64 x
  b ← to_int64 y
  if magnitude b == 0 then err exited else ok (xint (quot_ℤ a b))

unfoldable pub xint_mod : ℕ → ℕ → Result ℕ
unfolding to_int64 xint
xint_mod x y = do
  a ← to_int64 x
  b ← to_int64 y
  if magnitude b == 0 then err exited else ok (xint (rem_ℤ a b))
