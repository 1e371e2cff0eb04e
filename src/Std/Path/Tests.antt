-- ===== src/Std/Path/Tests.antt =====
-- packages/std/path/path.c: runs, after packages/std/path/test_path.c.
use inet_lisp.Base.{[], ◌∷◌, ok, ◌>>=◌, ◌≡◌, refl}
use inet_lisp.Std.String.{String, string_starts_with}
use inet_lisp.Std.Path.{FilePath, path_new, path_copy, path_string}
use inet_lisp.Std.Path.Normal.{Normal}
use inet_lisp.Std.Path.RoundTrip.{path_new-path_copy}

-- /a/./b//../c
abbrev sample : String
sample = b'/' ∷ b'a' ∷ b'/' ∷ b'.' ∷ b'/' ∷ b'b' ∷ b'/' ∷ b'/' ∷ b'.' ∷ b'.' ∷ b'/' ∷ b'c' ∷ []

path_new-path_copy_example :
    (p : FilePath) × (path_new sample ≡ ok p) × Normal p.segment_stack × (path_copy p ≡ ok p)
path_new-path_copy_example = path_new-path_copy sample

sample_string :
    (path_new sample >>= (λ p. ok (path_string p))) ≡ ok (b'/' ∷ b'a' ∷ b'/' ∷ b'c' ∷ [])
unfolding path_new path_string string_starts_with
sample_string = refl

-- `..` at the root stays.
above_root :
    (path_new (b'/' ∷ b'.' ∷ b'.' ∷ []) >>= (λ p. ok (path_string p)))
    ≡ ok (b'/' ∷ b'.' ∷ b'.' ∷ [])
unfolding path_new path_string string_starts_with
above_root = refl
