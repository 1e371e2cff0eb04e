-- ===== src/Std/Path/RoundTrip.antt =====
-- packages/std/path/path.c: a path is what its string says.
use inet_lisp.Base.{
  ℕ, suc, List, [], ◌∷◌, ◌++◌, Bool, true, false, ◌==◌, ◌&&◌, length, reverse_onto, none, ok, ◌≡◌,
  refl, ap, ◌∙◌, arith,
}
use inet_lisp.Std.String.{String, string_equal, string_is_empty, string_starts_with}
use inet_lisp.Std.String.Laws.{starts_with_cons, starts_with_nil}
use inet_lisp.Std.Path.{
  FilePath, slash, dot, dot_dot, join_segments, path_execute, path_leave, path_join, path_new,
  path_update_string, path_string, path_copy,
}
use inet_lisp.Std.Path.Split.{
  split, execute_all, SlashFree, split-SlashFree, split-append, join_loop_lem,
}
use inet_lisp.Std.Path.Normal.{
  at_root, above, Normal, ups, name, AllFree, split-AllFree, execute_all-Normal,
}

-- A path takes the segments of a string in turn.
pub path_join_lem :
    (self : FilePath) (s : String)
    → path_join self s
      ≡ ok (
          path_update_string
            (record self { segment_stack = execute_all self.segment_stack (split s) }))
unfolding path_join
path_join_lem self s = rw (join_loop_lem (suc (length s)) self.segment_stack s (omega arith))

by_tests :
    (segment_stack : List String) (s : String)
    → string_is_empty s ≡ false
    → string_equal s dot ≡ false
    → string_equal s dot_dot ≡ false
    → path_execute segment_stack s ≡ s ∷ segment_stack
unfolding path_execute
by_tests segment_stack s e d u = rw (e, d, u)

pushed :
    {s : String} {segment_stack : List String}
    → Normal (s ∷ segment_stack)
    → path_execute segment_stack s ≡ s ∷ segment_stack
unfolding path_execute path_leave string_equal string_is_empty
pushed (ups (above at_root)) = refl
pushed (ups (above (above u))) = refl
pushed (name s {segment_stack} i n) = by_tests segment_stack s i.filled i.not_dot i.not_dot_dot

below :
    {s : String} {segment_stack : List String} → Normal (s ∷ segment_stack) → Normal segment_stack
below (ups (above u)) = ups u
below (name s i n) = n

execute_all-reverse_onto :
    (segment_stack segments : List String)
    → Normal segment_stack
    → execute_all [] (reverse_onto segment_stack segments) ≡ execute_all segment_stack segments
unfolding execute_all
execute_all-reverse_onto [] segments n = refl
execute_all-reverse_onto (s ∷ segment_stack) segments n =
    execute_all-reverse_onto segment_stack (s ∷ segments) (below n)
    ∙ ap (λ st. execute_all st segments) (pushed n)

unfoldable AllFilled : List String → Type 0
AllFilled [] = Unit {0}
AllFilled (s ∷ segments) = (string_is_empty s ≡ false) × AllFilled segments

ok_segment :
    {s : String} {segment_stack : List String}
    → Normal (s ∷ segment_stack)
    → SlashFree s × (string_is_empty s ≡ false)
unfolding SlashFree string_is_empty string_equal
ok_segment (ups (above u)) = ((refl, (refl, tt)), refl)
ok_segment (name s i n) = (i.free, i.filled)

reverse_onto-AllFree :
    (segment_stack segments : List String)
    → Normal segment_stack
    → AllFree segments
    → AllFilled segments
    → AllFree (reverse_onto segment_stack segments)
      × AllFilled (reverse_onto segment_stack segments)
unfolding AllFree AllFilled
reverse_onto-AllFree [] segments n f g = (f, g)
reverse_onto-AllFree (s ∷ segment_stack) segments n f g =
    let here = ok_segment n in
    reverse_onto-AllFree segment_stack (s ∷ segments) (below n) (here.0, f) (here.1, g)

split-join_segments :
    (s : String) (segments : List String)
    → AllFree (s ∷ segments)
    → split (join_segments (s ∷ segments)) ≡ s ∷ segments
unfolding AllFree join_segments
split-join_segments s [] f = split-SlashFree s f.0
split-join_segments s (t ∷ segments) f =
    split-append s (join_segments (t ∷ segments)) f.0
    ∙ ap (λ r. s ∷ r) (split-join_segments t segments f.1)

execute_all-join_segments :
    (segments : List String)
    → AllFree segments
    → execute_all [] (split (join_segments segments)) ≡ execute_all [] segments
unfolding execute_all split join_segments path_execute
execute_all-join_segments [] f = refl
execute_all-join_segments (s ∷ segments) f = ap (execute_all []) (split-join_segments s segments f)

starts_free :
    (c : ℕ) (cs : String) → (c == slash) ≡ false → string_starts_with (c ∷ cs) (slash ∷ []) ≡ false
starts_free c cs e = starts_with_cons c slash cs [] ∙ ap (λ b. b && string_starts_with cs []) e

starts_slash : (cs : String) → string_starts_with (slash ∷ cs) (slash ∷ []) ≡ true
starts_slash cs = starts_with_cons slash slash cs [] ∙ starts_with_nil cs

no_slash_first :
    (segments : List String)
    → AllFree segments
    → AllFilled segments
    → string_starts_with (join_segments segments) (slash ∷ []) ≡ false
unfolding AllFree AllFilled join_segments SlashFree string_starts_with string_is_empty string_equal
no_slash_first [] f g = refl
no_slash_first ([] ∷ segments) f g = cc
no_slash_first ((c ∷ cs) ∷ []) f g = starts_free c cs f.0.0
no_slash_first ((c ∷ cs) ∷ t ∷ segments) f g =
    starts_free c (cs ++ slash ∷ join_segments (t ∷ segments)) f.0.0

abbrev updated : List String → Bool → FilePath
updated segment_stack is_absolute =
    path_update_string
      (record { segment_stack = segment_stack; string = none; is_absolute = is_absolute })

new_lem :
    (s : String) (is_absolute : Bool)
    → string_starts_with s (slash ∷ []) ≡ is_absolute
    → path_new s ≡ ok (updated (execute_all [] (split s)) is_absolute)
unfolding path_new
new_lem s is_absolute e =
    path_join_lem
      (record {
        segment_stack = [];
        string = none;
        is_absolute = string_starts_with s (slash ∷ []);
      })
      s
    ∙ ap (λ b. ok (updated (execute_all [] (split s)) b)) e

-- The segments of a normal stack, joined and taken again.
taken_again :
    (segment_stack : List String)
    → Normal segment_stack
    → execute_all [] (split (join_segments (reverse_onto segment_stack []))) ≡ segment_stack
unfolding AllFree AllFilled execute_all
taken_again segment_stack n =
    execute_all-join_segments (reverse_onto segment_stack [])
      (reverse_onto-AllFree segment_stack [] n tt tt).0
    ∙ execute_all-reverse_onto segment_stack [] n

execute_all-slash : (s : String) → execute_all [] (split (slash ∷ s)) ≡ execute_all [] (split s)
unfolding execute_all split path_execute string_is_empty string_equal
execute_all-slash s = refl

copy_lem :
    (segment_stack : List String) (is_absolute : Bool)
    → Normal segment_stack
    → path_copy (updated segment_stack is_absolute) ≡ ok (updated segment_stack is_absolute)
unfolding path_copy path_string path_update_string AllFree AllFilled
copy_lem segment_stack true n =
    let joined = join_segments (reverse_onto segment_stack []) in
    new_lem (slash ∷ joined) true (starts_slash joined)
    ∙ ap (λ st. ok (updated st true)) (execute_all-slash joined ∙ taken_again segment_stack n)
copy_lem segment_stack false n =
    let good = reverse_onto-AllFree segment_stack [] n tt tt in
    let joined = join_segments (reverse_onto segment_stack []) in
    new_lem joined false (no_slash_first (reverse_onto segment_stack []) good.0 good.1)
    ∙ ap (λ st. ok (updated st false)) (taken_again segment_stack n)

-- Every string makes a path, whose segments are names on top of `..` alone, and the path that is
-- made of the path's own string is the same.
pub path_new-path_copy :
    (s : String)
    → (p : FilePath) × (path_new s ≡ ok p) × Normal p.segment_stack × (path_copy p ≡ ok p)
unfolding path_update_string
path_new-path_copy s =
    let n = execute_all-Normal [] (split s) (split-AllFree s) (ups at_root) in
    (
      updated (execute_all [] (split s)) (string_starts_with s (slash ∷ [])),
      new_lem s (string_starts_with s (slash ∷ [])) refl,
      n,
      copy_lem (execute_all [] (split s)) (string_starts_with s (slash ∷ [])) n,
    )
