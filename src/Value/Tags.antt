-- ===== src/Value/Tags.antt =====
-- value/types.h, value/value.h, value/xfloat.c: the tag of a value, and words as patterns.
use inet_lisp.Base.{ℕ, ◌+◌, ◌-◌, ◌*◌, ◌/◌, ◌%◌, ◌^◌, Bool, ◌==◌, ltb, if◌then◌else◌}
use inet_lisp.Base.Int.{ℤ, pos, negsuc}

abbrev pub word_mod : ℕ
word_mod = 2 ^ 64

-- `XOBJECT`, `XINT`, `XFLOAT` and `XEXTENDED`
abbrev pub tag_xobject : ℕ
tag_xobject = 0

abbrev pub tag_xint : ℕ
tag_xint = 2

abbrev pub tag_xfloat : ℕ
tag_xfloat = 3

-- `value & TAG_MASK`
unfoldable pub value_tag : ℕ → ℕ
value_tag value = value % 8

-- an `int64_t` as its two's complement pattern, and back
abbrev pub pattern_of : ℤ → ℕ
pattern_of (pos n) = n % word_mod
pattern_of (negsuc n) = word_mod - 1 - n % word_mod

abbrev pub signed : ℕ → ℤ
signed value = if ltb value (2 ^ 63) then pos value else negsuc (word_mod - 1 - value)

-- `>>` on an `int64_t`, by three
abbrev pub shift_right_3 : ℤ → ℤ
shift_right_3 (pos n) = pos (n / 8)
shift_right_3 (negsuc n) = negsuc (n / 8)

unfoldable pub is_xfloat : ℕ → Bool
unfolding value_tag
is_xfloat value = value_tag value == tag_xfloat

-- `xfloat` of a double with that pattern: `(bits & DATA_MASK) | XFLOAT`
unfoldable pub xfloat_of_bits : ℕ → ℕ
xfloat_of_bits bits = bits / 8 * 8 + tag_xfloat

-- the pattern of the double that `to_double` gives
unfoldable pub double_bits : ℕ → ℕ
double_bits value = value / 8 * 8
