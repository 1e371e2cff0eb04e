-- ===== src/Std/Path.antt =====
-- packages/std/path/path.c: paths as stacks of segments, last pushed first.
pub mod Split
pub mod Normal
pub mod RoundTrip
mod Tests
use inet_lisp.Base.{
  ℕ, zero, suc, ◌+◌, ◌-◌, List, [], ◌∷◌, ◌++◌, Bool, true, false, not, ◌&&◌, ◌||◌, ltb, length,
  drop, if◌then◌else◌, Option, none, some, Result, ok, err, out_of_fuel, assertion_failed, ◌>>=◌,
  ◌>>◌, check, reverse_onto,
}
use inet_lisp.Base.Int.{ℤ, pos, negsuc}
use inet_lisp.Std.String.{
  String, string_equal, string_is_empty, string_starts_with, string_find_index, string_slice,
}

-- `path_t`; `string` is none before `path_update_string`.
pub record FilePath : Type 0 where
  pub segment_stack : List String
  pub string : Option String
  pub is_absolute : Bool

abbrev pub slash : ℕ
slash = b'/'

abbrev pub dot : String
dot = b'.' ∷ []

abbrev pub dot_dot : String
dot_dot = b'.' ∷ b'.' ∷ []

unfoldable pub path_is_relative : FilePath → Bool
path_is_relative self = not self.is_absolute

-- The rest of the string, and the segment before it.
unfoldable pub segment_at : String → ℤ → Result (String × String)
unfolding string_slice
segment_at string (negsuc n) = ok ([], string)
segment_at string (pos index) = do
  segment ← string_slice string 0 index
  ok (drop (index + 1) string, segment)

unfoldable pub next_segment : String → Result (Option (String × String))
unfolding segment_at string_find_index
next_segment [] = ok none
next_segment string = do entry ← segment_at string (string_find_index string slash); ok (some entry)

-- The loop of `path_update_string`, from the first segment.
unfoldable pub join_segments : List String → String
join_segments [] = []
join_segments (segment ∷ []) = segment
join_segments (segment ∷ segments) = segment ++ slash ∷ join_segments segments

unfoldable pub path_update_string : FilePath → FilePath
unfolding join_segments
path_update_string self =
    let joined = join_segments (reverse_onto self.segment_stack []) in
    record self { string = some (if self.is_absolute then slash ∷ joined else joined) }

-- `..` on the stack: it is kept where there is nothing to leave.
unfoldable pub path_leave : List String → List String
unfolding string_equal
path_leave [] = dot_dot ∷ []
path_leave (top ∷ segment_stack) =
    if string_equal top dot_dot then dot_dot ∷ top ∷ segment_stack else segment_stack

-- `path_execute`, on the stack
unfoldable pub path_execute : List String → String → List String
unfolding path_leave string_equal string_is_empty
path_execute segment_stack segment =
    if string_is_empty segment
    then segment_stack
    else if string_equal segment dot
    then segment_stack
    else if string_equal segment dot_dot
    then path_leave segment_stack
    else segment ∷ segment_stack

-- The loop of `path_join`; each round takes a byte at least.
unfoldable pub join_loop : ℕ → List String → String → Result (List String)
unfolding next_segment path_execute
join_loop zero segment_stack string = err out_of_fuel
join_loop (suc fuel) segment_stack string = next_segment string >>= (λ entry. elim entry [
  | none ↦ ok segment_stack
  | some (rest, segment) ↦ join_loop fuel (path_execute segment_stack segment) rest
])

unfoldable pub path_join : FilePath → String → Result FilePath
unfolding join_loop path_update_string
path_join self string = do
  segment_stack ← join_loop (suc (length string)) self.segment_stack string
  ok (path_update_string (record self { segment_stack = segment_stack }))

unfoldable pub path_new : String → Result FilePath
unfolding path_join string_starts_with
path_new string =
    path_join
      (record {
        segment_stack = [];
        string = none;
        is_absolute = string_starts_with string (slash ∷ []);
      })
      string

unfoldable pub path_resolve : FilePath → String → Result FilePath
unfolding path_join string_starts_with
path_resolve self string =
    path_join
      (if string_starts_with string (slash ∷ [])
        then record self { segment_stack = []; is_absolute = true }
        else self)
      string

unfoldable pub path_string : FilePath → String
unfolding path_update_string
path_string self = elim self.string [
  | some string ↦ string
  | none ↦ elim (path_update_string self).string [ some string ↦ string | none ↦ [] ]
]

unfoldable pub path_copy : FilePath → Result FilePath
unfolding path_new path_string
path_copy self = path_new (path_string self)

unfoldable pub path_equal : FilePath → FilePath → Bool
unfolding string_equal path_string
path_equal x y = string_equal (path_string x) (path_string y)

-- `find_relative_index`, on the segments from the first: what is left of both behind what is equal.
unfoldable pub drop_common : List String → List String → List String × List String
unfolding string_equal
drop_common [] to = ([], to)
drop_common from [] = (from, [])
drop_common (f ∷ from) (t ∷ to) =
    let rest = drop_common from to in if string_equal f t then rest else (f ∷ from, t ∷ to)

unfoldable pub push_ups : List String → List String → List String
push_ups [] segment_stack = segment_stack
push_ups (f ∷ from) segment_stack = push_ups from (dot_dot ∷ segment_stack)

unfoldable pub path_relative : FilePath → FilePath → Result FilePath
unfolding drop_common push_ups path_new path_update_string path_is_relative
path_relative from to = do
  check ((path_is_relative from && path_is_relative to) || (from.is_absolute && to.is_absolute))
  relative_path ← path_new []
  let (from_rest, to_rest) =
      drop_common (reverse_onto from.segment_stack []) (reverse_onto to.segment_stack [])
  ok (
      path_update_string (record relative_path {
        segment_stack = reverse_onto to_rest (push_ups from_rest relative_path.segment_stack);
      }))
