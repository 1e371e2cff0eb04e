-- ===== src/Std/Lexer/Termination.antt =====
-- packages/std/lexer/lexer.c: the loop of `lexer_run` ends, since each step reads a byte.
use inet_lisp.Base.{
  ℕ, zero, suc, ◌+◌, ◌≤◌, ◌≡◌, ◌≢◌, refl, sym, ap, subst, ◌⊎◌, inl, inr, List, [], ◌∷◌, ◌++◌, Bool,
  true, false, ◌==◌, ◌||◌, leb, Option, none, some, length, Result, ok, err, dangling,
  assertion_failed, exited, out_of_fuel, ◌>>=◌, arith, Bool-cases, Option-cases, Ends, Ends-bind,
  ok_injective,
}
use inet_lisp.Std.String.{String, isspace, string_length, string_starts_with}
use inet_lisp.Std.Lexer.{
  Lexer, Token, push_token, step_over, match_first, match_delimiter, escaped_char, push_buffer,
  collect_char, step, step_from, forward, skip_spaces, skip_line, is_some, collect_string_loop,
  collect_generic_loop, lexer_step, lexer_loop, lexer_init, lexer_run,
}
use inet_lisp.Std.Lexer.Steps.{
  here, NoComment, lexer_step-space, lexer_step-comment, lexer_step-delimiter, lexer_step-string,
  lexer_step-generic,
}

abbrev string_or : String → Option String → String
string_or d none = d
string_or d (some s) = s

comment_cases :
    (o : Option String) (text : String)
    → ((comment : String) × (o ≡ some comment) × (string_starts_with text comment ≡ true))
      ⊎ NoComment o text
comment_cases none text = inr tt
comment_cases (some comment) text = elim (Bool-cases (string_starts_with text comment)) [
  | inl starts ↦ inl (comment, refl, starts)
  | inr absent ↦ inr absent
]

-- What is left after a step has at most `n` bytes, and the delimiters are still `ds`.
abbrev Fine : List String → ℕ → Result Lexer → Type 0
Fine ds n (ok next) = (length next.rest ≤ n) × (next.delimiter_list ≡ ds)
Fine ds n (err out_of_fuel) = ⊥
Fine ds n (err e) = Unit

module _ (ds : List String) (n : ℕ) where
  Fine-bind :
      (m : ℕ) (r : Result Lexer) (f : Lexer → Result Lexer)
      → Fine ds n r
      → ((next : Lexer) → length next.rest ≤ n → next.delimiter_list ≡ ds → Fine ds m (f next))
      → Fine ds m (r >>= f)
  Fine-bind m (ok next) f (short, same) k = k next short same
  Fine-bind m (err out_of_fuel) f h k = h
  Fine-bind m (err dangling) f h k = tt
  Fine-bind m (err assertion_failed) f h k = tt
  Fine-bind m (err exited) f h k = tt

  Fine-elim :
      (b : Bool) (x y : Result Lexer)
      → Fine ds n x
      → Fine ds n y
      → Fine ds n (elim b [ true ↦ x | false ↦ y ])
  Fine-elim true x y h k = h
  Fine-elim false x y h k = k

  Fine-option :
      (o : Option ℕ) (x : Result Lexer) (f : ℕ → Result Lexer)
      → Fine ds n x
      → ((e : ℕ) → Fine ds n (f e))
      → Fine ds n (elim o [ none ↦ x | some e ↦ f e ])
  Fine-option none x f h k = h
  Fine-option (some e) x f h k = k e

  step_from-Fine :
      (text : String) (self : Lexer)
      → self.delimiter_list ≡ ds
      → length text ≤ suc n
      → Fine ds n (step_from text self)
  unfolding step_from
  step_from-Fine [] self same short = tt
  step_from-Fine (c ∷ cs) self same short = (omega arith, same)

  step-Fine :
      (self : Lexer) → self.delimiter_list ≡ ds → length self.rest ≤ suc n → Fine ds n (step self)
  unfolding step
  step-Fine self same short = step_from-Fine self.rest self same short

  -- a step, and then what keeps the bound
  step_then :
      (f : Lexer → Result Lexer) (self : Lexer)
      → self.delimiter_list ≡ ds
      → length self.rest ≤ suc n
      → ((next : Lexer) → next.delimiter_list ≡ ds → length next.rest ≤ n → Fine ds n (f next))
      → Fine ds n (step self >>= f)
  step_then f self same short k =
      Fine-bind n (step self) f (step-Fine self same short) (λ next h e. k next e h)

  collect_char_then :
      (c : ℕ) (f : Lexer → Result Lexer) (self : Lexer)
      → ((buffer : String) → Fine ds n (f (record self { buffer = buffer })))
      → Fine ds n (collect_char self c >>= f)
  unfolding collect_char
  collect_char_then c f self k = elim (Bool-cases (leb (length self.buffer + 1) 1024)) [
    | inl fits ↦ rw (fits, Fine) (k (self.buffer ++ c ∷ []))
    | inr long ↦ rw (long, Fine) tt
  ]

  forward-Fine :
      (l : ℕ) (self : Lexer)
      → self.delimiter_list ≡ ds
      → length self.rest ≤ n
      → Fine ds n (forward self l)
  unfolding forward
  forward-Fine zero self same short = (short, same)
  forward-Fine (suc l) self same short =
      step_then (λ next. forward next l) self same (omega arith) (forward-Fine l)

  skip_spaces-Fine :
      (cs : String) (self : Lexer)
      → self.delimiter_list ≡ ds
      → length self.rest ≤ n
      → Fine ds n (skip_spaces cs self)
  unfolding skip_spaces
  skip_spaces-Fine [] self same short = (short, same)
  skip_spaces-Fine (c ∷ cs) self same short =
      Fine-elim (isspace c) _ _
        (step_then (skip_spaces cs) self same (omega arith) (skip_spaces-Fine cs)) (short, same)

  skip_line-Fine :
      (cs : String) (self : Lexer)
      → self.delimiter_list ≡ ds
      → length self.rest ≤ n
      → Fine ds n (skip_line cs self)
  unfolding skip_line
  skip_line-Fine [] self same short = (short, same)
  skip_line-Fine (c ∷ cs) self same short =
      Fine-elim (c == b'\n') _ _ (step-Fine self same (omega arith))
        (step_then (skip_line cs) self same (omega arith) (skip_line-Fine cs))

  collect_string_loop-Fine :
      (cs : String) (self : Lexer)
      → self.delimiter_list ≡ ds
      → length self.rest ≤ n
      → Fine ds n (collect_string_loop cs self)
  unfolding collect_string_loop push_buffer push_token
  collect_string_loop-Fine [] self same short = tt
  collect_string_loop-Fine (c ∷ []) self same short =
      Fine-elim (c == b'"') _ _ (step-Fine _ same (omega arith)) tt
  collect_string_loop-Fine (c ∷ d ∷ cs) self same short =
      Fine-elim (c == b'\\') _ _
        (Fine-option (escaped_char d) _ _ tt λ e.
          step_then
            (λ behind.
              collect_char behind e >>= λ collected. step collected >>= collect_string_loop cs)
            self same (omega arith)
            λ behind same₁ short₁.
              collect_char_then e (λ collected. step collected >>= collect_string_loop cs) behind
                λ b.
                  step_then (collect_string_loop cs) _ same₁ (omega arith)
                    (collect_string_loop-Fine cs))
        (Fine-elim (c == b'"') _ _ (step-Fine _ same (omega arith)) (
          collect_char_then c _ self λ b.
            step_then (collect_string_loop (d ∷ cs)) _ same (omega arith)
              (collect_string_loop-Fine (d ∷ cs))))

  collect_generic_loop-Fine :
      (cs : String) (self : Lexer)
      → self.delimiter_list ≡ ds
      → length self.rest ≤ n
      → Fine ds n (collect_generic_loop cs self)
  unfolding collect_generic_loop push_buffer push_token
  collect_generic_loop-Fine [] self same short = (short, same)
  collect_generic_loop-Fine (c ∷ cs) self same short =
      Fine-elim (isspace c || is_some (match_delimiter self)) _ _ (short, same)
        (collect_char_then c _ self λ b.
          step_then (collect_generic_loop cs) _ same (omega arith) (collect_generic_loop-Fine cs))

-- Delimiters are not empty.
abbrev pub NoneEmpty : List String → Type 0
NoneEmpty [] = Unit
NoneEmpty (d ∷ ds) = (d ≢ []) × NoneEmpty ds

match_first_lem :
    (ds : List String) (text : String) {d : String}
    → NoneEmpty ds
    → match_first ds text ≡ some d
    → (c : ℕ) × (cs : String) × (d ≡ c ∷ cs)
match_first_lem [] text full found = cc
match_first_lem ([] ∷ ds) text full found = absurd (full.0 refl)
match_first_lem ((c ∷ cs) ∷ ds) text {d} full found =
    elim (Bool-cases (string_starts_with text (c ∷ cs))) [
      | inl here ↦
          let same : some (c ∷ cs) ≡ some d = rw here at found in
          (c, cs, sym (ap (string_or []) same))
      | inr later ↦ match_first_lem ds text full.1 (rw later at found)
    ]

module _ (self : Lexer) (c : ℕ) (cs : String) where
  abbrev delimiters : List String
  delimiters = self.delimiter_list

  space_Fine :
      isspace c ≡ true → Fine delimiters (length cs) (skip_spaces (c ∷ cs) (here self c cs))
  unfolding skip_spaces
  space_Fine space =
      rw (space, Fine)
        (step_then delimiters (length cs) (skip_spaces cs) (here self c cs) refl (omega arith)
          (skip_spaces-Fine delimiters (length cs) cs))

  comment_Fine :
      (comment : String)
      → Fine delimiters
          (length cs)
          (forward (here self c cs) (string_length comment) >>= λ b. skip_line b.rest b)
  unfolding string_length forward skip_line
  comment_Fine [] =
      Fine-elim delimiters (length cs) (c == b'\n') _ _
        (step-Fine delimiters (length cs) (here self c cs) refl (omega arith))
        (step_then delimiters (length cs) (skip_line cs) (here self c cs) refl (omega arith)
          (skip_line-Fine delimiters (length cs) cs))
  comment_Fine (d ∷ comment) =
      Fine-bind delimiters (length cs) (length cs) (forward (here self c cs) (suc (length comment)))
        (λ b. skip_line b.rest b)
        (step_then delimiters (length cs) (λ next. forward next (length comment)) (here self c cs)
          refl (omega arith) (forward-Fine delimiters (length cs) (length comment)))
        (λ next short same. skip_line-Fine delimiters (length cs) next.rest next same short)

  delimiter_Fine :
      (x : ℕ) (xs : String) (token : Lexer → Token)
      → Fine delimiters (length cs) (
          forward (here self c cs) (string_length (x ∷ xs)) >>= λ next.
          ok (push_token next (token next)))
  unfolding string_length forward push_token
  delimiter_Fine x xs token =
      Fine-bind delimiters (length cs) (length cs) (forward (here self c cs) (suc (length xs)))
        (λ next. ok (push_token next (token next)))
        (step_then delimiters (length cs) (λ next. forward next (length xs)) (here self c cs) refl
          (omega arith) (forward-Fine delimiters (length cs) (length xs)))
        (λ next short same. (short, same))

  generic_Fine :
      isspace c ≡ false
      → match_first delimiters (c ∷ cs) ≡ none
      → Fine delimiters
          (length cs)
          (collect_generic_loop (c ∷ cs) (record (here self c cs) { buffer = [] }))
  unfolding collect_generic_loop match_delimiter
  generic_Fine other none_found =
      rw (other, none_found, Fine)
        (collect_char_then delimiters (length cs) c
          (λ collected. step collected >>= collect_generic_loop cs)
          (record (here self c cs) { buffer = [] })
          λ b.
            step_then delimiters (length cs) (collect_generic_loop cs)
              (record (here self c cs) { buffer = b }) refl (omega arith)
              (collect_generic_loop-Fine delimiters (length cs) cs))

  word_Fine :
      isspace c ≡ false
      → NoComment self.line_comment (c ∷ cs)
      → match_first delimiters (c ∷ cs) ≡ none
      → Fine delimiters (length cs) (lexer_step (here self c cs))
  word_Fine other absent none_found =
      let generic : (self.enable_string ≡ false) ⊎ (c == b'"' ≡ false)
          → Fine delimiters (length cs) (lexer_step (here self c cs)) =
        λ off.
          rw (lexer_step-generic self c cs other absent none_found off)
            (generic_Fine other none_found) in
      elim (Bool-cases self.enable_string) [
        | inr off ↦ generic (inl off)
        | inl on ↦ elim (Bool-cases (c == b'"')) [
          | inr not_quote ↦ generic (inr not_quote)
          | inl quote ↦ rw (lexer_step-string self c cs other absent none_found on quote) (
              collect_string_loop-Fine delimiters (length cs) cs
                (step_over c cs (record self { buffer = [] })) refl (omega arith))
        ]
      ]

  -- What `lexer_step` leaves is shorter than the text that it starts from.
  lexer_step-Fine : NoneEmpty delimiters → Fine delimiters (length cs) (lexer_step (here self c cs))
  lexer_step-Fine full = elim (Bool-cases (isspace c)) [
    | inl space ↦ rw (lexer_step-space self c cs space) (space_Fine space)
    | inr other ↦ elim (comment_cases self.line_comment (c ∷ cs)) [
      | inl (comment, has, starts) ↦
          rw (lexer_step-comment self c cs other has starts) (comment_Fine comment)
      | inr absent ↦ elim (Option-cases (match_first delimiters (c ∷ cs))) [
        | inr (d, found) ↦
            let (x, xs, e) = match_first_lem delimiters (c ∷ cs) full found in
            rw (lexer_step-delimiter self c cs other absent found, e) (delimiter_Fine x xs _)
        | inl none_found ↦ word_Fine other absent none_found
      ]
    ]
  ]

Fine-Ends : (ds : List String) (n : ℕ) (r : Result Lexer) → Fine ds n r → Ends r
Fine-Ends ds n (ok next) h = tt
Fine-Ends ds n (err out_of_fuel) h = h
Fine-Ends ds n (err dangling) h = tt
Fine-Ends ds n (err assertion_failed) h = tt
Fine-Ends ds n (err exited) h = tt

Fine-ok :
    (ds : List String) (n : ℕ) (r : Result Lexer) {next : Lexer}
    → Fine ds n r
    → r ≡ ok next
    → (length next.rest ≤ n) × (next.delimiter_list ≡ ds)
Fine-ok ds n (ok m) h e =
    subst (λ x. (length x.rest ≤ n) × (x.delimiter_list ≡ ds)) (ok_injective e) h
Fine-ok ds n (err out_of_fuel) h e = absurd h
Fine-ok ds n (err dangling) h e = cc
Fine-ok ds n (err assertion_failed) h e = cc
Fine-ok ds n (err exited) h e = cc

-- A step that gives a lexer leaves it less to read.
pub lexer_step-shorter :
    (self : Lexer) (c : ℕ) (cs : String) {next : Lexer}
    → NoneEmpty self.delimiter_list
    → lexer_step (here self c cs) ≡ ok next
    → length next.rest ≤ length cs
lexer_step-shorter self c cs full runs =
    (Fine-ok self.delimiter_list (length cs) (lexer_step (here self c cs))
      (lexer_step-Fine self c cs full) runs).0

lexer_loop-Ends :
    (fuel : ℕ) (self : Lexer) (text : String)
    → NoneEmpty self.delimiter_list
    → length text ≤ fuel
    → Ends (lexer_loop fuel (record self { rest = text }))
unfolding lexer_loop
lexer_loop-Ends zero self [] full enough = tt
lexer_loop-Ends zero self (c ∷ cs) full enough = elim enough [ ]
lexer_loop-Ends (suc fuel) self [] full enough = tt
lexer_loop-Ends (suc fuel) self (c ∷ cs) full enough =
    let ds = self.delimiter_list in
    let fine = lexer_step-Fine self c cs full in
    Ends-bind (lexer_step (here self c cs)) (lexer_loop fuel)
      (Fine-Ends ds (length cs) (lexer_step (here self c cs)) fine)
      (λ next e.
        let (short, same) = Fine-ok ds (length cs) (lexer_step (here self c cs)) fine e in
        lexer_loop-Ends fuel next next.rest (rw same full) (omega arith))

-- With delimiters that are not empty, `lexer_run` ends on every string: it gives its tokens, or an
-- assertion fails, within as many steps as the string has bytes, whatever the lexer's switches, its
-- comment and the C library's doubles are.
pub lexer_run-Ends :
    (strtod : String → Option ℕ) (self : Lexer) (string : String)
    → NoneEmpty self.delimiter_list
    → Ends (lexer_run strtod self string)
unfolding lexer_run lexer_init
lexer_run-Ends strtod self string full =
    let start = record (lexer_init self) { rest = string; token_list = [] } in
    Ends-bind (lexer_loop (length string) start) _
      (lexer_loop-Ends (length string) start string full (omega arith)) (λ next e. tt)
