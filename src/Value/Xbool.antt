-- ===== src/Value/Xbool.antt =====
-- value/xbool.c, prelude/value.c: the two static booleans, and equality of words.
use inet_lisp.Base.{ℕ, Bool, not, ◌&&◌, ◌||◌, ◌==◌, if◌then◌else◌, Result, ok, check, ◌>>=◌, ◌>>◌}

abbrev pub xtrue : ℕ
xtrue = 0x00ff_ffff_ffff_ffff

abbrev pub xfalse : ℕ
xfalse = 0x01ff_ffff_ffff_ffff

unfoldable pub xbool : Bool → ℕ
xbool target = if target then xtrue else xfalse

unfoldable pub is_xbool : ℕ → Bool
is_xbool value = value == xtrue || value == xfalse

unfoldable pub to_bool : ℕ → Result Bool
unfolding is_xbool
to_bool value = do check (is_xbool value); ok (value == xtrue)

unfoldable pub xbool_and : ℕ → ℕ → Result ℕ
unfolding to_bool xbool
xbool_and x y = do a ← to_bool x; b ← to_bool y; ok (xbool (a && b))

unfoldable pub xbool_or : ℕ → ℕ → Result ℕ
unfolding to_bool xbool
xbool_or x y = do a ← to_bool x; b ← to_bool y; ok (xbool (a || b))

unfoldable pub xbool_not : ℕ → Result ℕ
unfolding to_bool xbool
xbool_not x = do a ← to_bool x; ok (xbool (not a))
