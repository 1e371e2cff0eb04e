-- ===== src/Std/String/Laws.antt =====
-- packages/std/string/string.c: the equality of strings, their prefixes, and numbers in decimal.
use inet_lisp.Base.{ℕ, ◌≡◌, refl, [], ◌∷◌, true, ◌&&◌, ◌==◌, arith}
use inet_lisp.Std.String.{String, string_equal, string_starts_with}

pub string_equal_refl : (s : String) → string_equal s s ≡ true
unfolding string_equal
string_equal_refl [] = refl
string_equal_refl (c ∷ s) = ground (arith, string_equal_refl s)

-- Strings that are equal to `string_equal` are the same bytes.
pub string_equal_eq : (s t : String) → string_equal s t ≡ true → s ≡ t
unfolding string_equal
string_equal_eq [] [] h = refl
string_equal_eq [] (d ∷ t) h = cc
string_equal_eq (c ∷ s) [] h = cc
string_equal_eq (c ∷ s) (d ∷ t) h = ground (arith, string_equal_eq s t)

pub string_equal_sym : (s t : String) → string_equal s t ≡ string_equal t s
unfolding string_equal
string_equal_sym [] [] = refl
string_equal_sym [] (d ∷ t) = refl
string_equal_sym (c ∷ s) [] = refl
string_equal_sym (c ∷ s) (d ∷ t) = ground (arith, string_equal_sym s t)

pub starts_with_cons :
    (c d : ℕ) (s p : String)
    → string_starts_with (c ∷ s) (d ∷ p) ≡ (c == d && string_starts_with s p)
unfolding string_starts_with string_equal
starts_with_cons c d s p = ground arith

pub starts_with_nil : (s : String) → string_starts_with s [] ≡ true
unfolding string_starts_with string_equal
starts_with_nil [] = refl
starts_with_nil (c ∷ s) = ground arith
