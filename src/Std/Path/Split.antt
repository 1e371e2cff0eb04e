-- ===== src/Std/Path/Split.antt =====
-- packages/std/path/path.c: the segments of a string.
use inet_lisp.Base.{
  ℕ, zero, suc, ◌+◌, ◌<◌, ◌≤◌, List, [], ◌∷◌, ◌++◌, false, ◌==◌, ==_iff, le→leb, length-append,
  length, take, drop, if◌then◌else◌, none, some, Result, ok, ◌>>=◌, ◌≡◌, refl, ap, sym, subst, ◌∙◌,
  arith, Bool-cases, inl, inr,
}
use inet_lisp.Base.Int.{pos, negsuc}
use inet_lisp.Std.String.{String, string_find_index, index_from, string_slice}
use inet_lisp.Std.Path.{slash, segment_at, next_segment, path_execute, join_loop}

-- The segments between the slashes.
abbrev pub onto_first : ℕ → List String → List String
onto_first c [] = (c ∷ []) ∷ []
onto_first c (segment ∷ segments) = (c ∷ segment) ∷ segments

unfoldable pub split : String → List String
split [] = [] ∷ []
split (c ∷ cs) = let rest = split cs in if c == slash then [] ∷ rest else onto_first c rest

-- The segments are executed in turn.
unfoldable pub execute_all : List String → List String → List String
unfolding path_execute
execute_all segment_stack [] = segment_stack
execute_all segment_stack (segment ∷ segments) =
    execute_all (path_execute segment_stack segment) segments

unfoldable pub SlashFree : String → Type 0
SlashFree [] = Unit {0}
SlashFree (c ∷ cs) = ((c == slash) ≡ false) × SlashFree cs

-- A string without a slash is its only segment, and one with a slash has the segment before it.
pub split-SlashFree : (s : String) → SlashFree s → split s ≡ s ∷ []
unfolding split SlashFree
split-SlashFree [] f = refl
split-SlashFree (c ∷ cs) f = rw (f.0, split-SlashFree cs f.1)

pub split-append : (s rest : String) → SlashFree s → split (s ++ slash ∷ rest) ≡ s ∷ split rest
unfolding split SlashFree
split-append [] rest f = refl
split-append (c ∷ cs) rest f = rw (f.0, split-append cs rest f.1)

-- Where the first slash is.
pub data FirstSlash : String → Type 0 where
  no_slash : (s : String) → SlashFree s → FirstSlash s
  a_slash : (s rest : String) → SlashFree s → FirstSlash (s ++ slash ∷ rest)

FirstSlash-behind : (c : ℕ) {s : String} → (c == slash) ≡ false → FirstSlash s → FirstSlash (c ∷ s)
unfolding SlashFree
FirstSlash-behind c e (no_slash s f) = no_slash (c ∷ s) (e, f)
FirstSlash-behind c e (a_slash s rest f) = a_slash (c ∷ s) rest (e, f)

pub first_slash : (s : String) → FirstSlash s
unfolding SlashFree
first_slash [] = no_slash [] tt
first_slash (c ∷ cs) = elim (Bool-cases (c == slash)) [
  | inl e ↦ subst (λ x. FirstSlash (x ∷ cs)) (sym ((==_iff c slash).0 e)) (a_slash [] cs tt)
  | inr e ↦ FirstSlash-behind c e (first_slash cs)
]

index_from-SlashFree : (i : ℕ) (s : String) → SlashFree s → index_from i slash s ≡ negsuc 0
unfolding index_from SlashFree
index_from-SlashFree i [] f = refl
index_from-SlashFree i (c ∷ cs) f = rw (f.0, index_from-SlashFree (i + 1) cs f.1)

index_from-append :
    (i : ℕ) (s rest : String)
    → SlashFree s
    → index_from i slash (s ++ slash ∷ rest) ≡ pos (i + length s)
unfolding index_from SlashFree
index_from-append i [] rest f = ap pos (omega arith)
index_from-append i (c ∷ cs) rest f =
    rw (f.0, index_from-append (i + 1) cs rest f.1) (ap pos (omega arith))

take-append : (s rest : String) → take (length s) (s ++ rest) ≡ s
take-append [] rest = refl
take-append (c ∷ cs) rest = ap (λ t. c ∷ t) (take-append cs rest)

drop-append : (s : String) (c : ℕ) (rest : String) → drop (length s + 1) (s ++ c ∷ rest) ≡ rest
drop-append [] c rest = refl
drop-append (x ∷ s) c rest =
    ap (λ n. drop n (x ∷ s ++ c ∷ rest)) {y = suc (length s + 1)} (omega arith)
    ∙ drop-append s c rest

slice-append : (s rest : String) → string_slice (s ++ rest) 0 (length s) ≡ ok s
unfolding string_slice
slice-append s rest =
    rw
      (
        le→leb 0 (length s) (omega arith),
        le→leb (length s) (length (s ++ rest)) (omega (arith, length-append s rest)),
      )
      (ap (λ n. ok (take n (s ++ rest))) (omega arith) ∙ ap ok (take-append s rest))

next_segment-cons :
    (c : ℕ) (cs : String)
    → next_segment (c ∷ cs)
      ≡ (segment_at (c ∷ cs) (string_find_index (c ∷ cs) slash) >>= (λ entry. ok (some entry)))
unfolding next_segment
next_segment-cons c cs = refl

find_index-slash :
    (s rest : String) → SlashFree s → string_find_index (s ++ slash ∷ rest) slash ≡ pos (length s)
unfolding string_find_index
find_index-slash s rest f = index_from-append 0 s rest f ∙ ap pos (omega arith)

find_index-SlashFree : (s : String) → SlashFree s → string_find_index s slash ≡ negsuc 0
unfolding string_find_index
find_index-SlashFree s f = index_from-SlashFree 0 s f

segment_at-slash :
    (s rest : String) → segment_at (s ++ slash ∷ rest) (pos (length s)) ≡ ok (rest, s)
unfolding segment_at
segment_at-slash s rest = rw (slice-append s (slash ∷ rest), drop-append s slash rest)

segment_at-end : (s : String) (n : ℕ) → segment_at s (negsuc n) ≡ ok ([], s)
unfolding segment_at
segment_at-end s n = refl

-- A round on a string with a slash, and the last one.
next_segment-slash :
    (s rest : String) → SlashFree s → next_segment (s ++ slash ∷ rest) ≡ ok (some (rest, s))
next_segment-slash [] rest f =
    next_segment-cons slash rest ∙ rw (find_index-slash [] rest f, segment_at-slash [] rest)
next_segment-slash (c ∷ cs) rest f =
    next_segment-cons c (cs ++ slash ∷ rest)
    ∙ rw (find_index-slash (c ∷ cs) rest f, segment_at-slash (c ∷ cs) rest)

next_segment-last :
    (c : ℕ) (cs : String) → SlashFree (c ∷ cs) → next_segment (c ∷ cs) ≡ ok (some ([], c ∷ cs))
next_segment-last c cs f =
    next_segment-cons c cs ∙ rw (find_index-SlashFree (c ∷ cs) f, segment_at-end (c ∷ cs) 0)

join_loop-more :
    (fuel : ℕ) (segment_stack : List String) (s rest : String)
    → SlashFree s
    → join_loop (suc fuel) segment_stack (s ++ slash ∷ rest)
      ≡ join_loop fuel (path_execute segment_stack s) rest
unfolding join_loop
join_loop-more fuel segment_stack s rest f = rw (next_segment-slash s rest f)

join_loop-last :
    (fuel : ℕ) (segment_stack : List String) (s : String)
    → SlashFree s
    → length s ≤ fuel
    → join_loop (suc fuel) segment_stack s ≡ ok (path_execute segment_stack s)
unfolding join_loop next_segment path_execute
join_loop-last fuel segment_stack [] f l = refl
join_loop-last zero segment_stack (c ∷ cs) f l = absurd (omega (arith, l))
join_loop-last (suc fuel) segment_stack (c ∷ cs) f l =
    ap
      (λ r. r >>= (λ entry. elim entry as (λ x. Result (List String)) [
        | none ↦ ok segment_stack
        | some x ↦ join_loop (suc fuel) (path_execute segment_stack x.1) x.0
      ]))
      (next_segment-last c cs f)

-- One round, given the first slash and what the rounds on fewer bytes do.
join_loop-round :
    (fuel : ℕ)
    → ((segment_stack : List String) (s : String)
        → length s < fuel
        → join_loop fuel segment_stack s ≡ ok (execute_all segment_stack (split s)))
    → (segment_stack : List String) {s : String} → FirstSlash s
    → length s ≤ fuel
    → join_loop (suc fuel) segment_stack s ≡ ok (execute_all segment_stack (split s))
unfolding execute_all
join_loop-round fuel fewer segment_stack (no_slash s f) l =
    join_loop-last fuel segment_stack s f l
    ∙ ap (λ segments. ok (execute_all segment_stack segments)) (sym (split-SlashFree s f))
join_loop-round fuel fewer segment_stack (a_slash s rest f) l =
    join_loop-more fuel segment_stack s rest f
    ∙ fewer (path_execute segment_stack s) rest (omega (arith, l, length-append s (slash ∷ rest)))
    ∙ ap (λ segments. ok (execute_all segment_stack segments)) (sym (split-append s rest f))

-- With fuel for its bytes, the loop executes the segments of the string.
pub join_loop_lem :
    (fuel : ℕ) (segment_stack : List String) (s : String)
    → length s < fuel
    → join_loop fuel segment_stack s ≡ ok (execute_all segment_stack (split s))
join_loop_lem zero segment_stack s l = absurd (omega (arith, l))
join_loop_lem (suc fuel) segment_stack s l =
    join_loop-round fuel (join_loop_lem fuel) segment_stack (first_slash s) (omega (arith, l))
