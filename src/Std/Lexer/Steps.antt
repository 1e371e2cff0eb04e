-- ===== src/Std/Lexer/Steps.antt =====
-- packages/std/lexer/lexer.c: `lexer_step` on each kind of text at the cursor.
use inet_lisp.Base.{
  ℕ, ◌+◌, ◌≡◌, refl, ap, ◌∙◌, ◌⊎◌, inl, inr, [], ◌∷◌, Bool, true, false, ◌==◌, Option, none, some,
  Result, ok, err, ◌>>=◌,
}
use inet_lisp.Std.String.{String, isspace, string_length, string_starts_with}
use inet_lisp.Std.Lexer.{
  Lexer, delimiter_token, token_new, push_token, current_char, match_first, match_delimiter,
  step_over, step, step_from, forward, skip_spaces, ignore_space, skip_line, ignore_line,
  ignore_comment, ignore_space_from, collect_matched, collect_if, collect_quoted, collect_delimiter,
  collect_string_loop, collect_string, collect_generic_loop, collect_generic, try_first, lexer_step,
  step_comment, step_delimiter, step_string,
}

try_done :
    (r : Result Lexer) (f : Lexer → Result Lexer) → try_first (r >>= (λ n. ok (true, n))) f ≡ r
unfolding try_first
try_done (ok n) f = refl
try_done (err e) f = refl

try_bind :
    (r : Result Lexer) (g f : Lexer → Result Lexer)
    → try_first (r >>= (λ a. g a >>= (λ n. ok (true, n)))) f ≡ r >>= g
try_bind (ok a) g f = try_done (g a) f
try_bind (err e) g f = try_done (err e) f

try_pure :
    (r : Result Lexer) (g : Lexer → Lexer) (f : Lexer → Result Lexer)
    → try_first (r >>= (λ a. ok (true, g a))) f ≡ r >>= (λ a. ok (g a))
unfolding try_first
try_pure (ok a) g f = refl
try_pure (err e) g f = refl

-- No comment starts at the text.
abbrev pub NoComment : Option String → String → Type 0
NoComment none text = Unit
NoComment (some comment) text = string_starts_with text comment ≡ false

try_not : (self : Lexer) (f : Lexer → Result Lexer) → try_first (ok (false, self)) f ≡ f self
unfolding try_first
try_not self f = refl

ignore_line_no :
    (self : Lexer) (o : Option String)
    → NoComment o self.rest
    → ignore_line o self ≡ ok (false, self)
unfolding ignore_line
ignore_line_no self none absent = refl
ignore_line_no self (some s) absent = rw (absent, ignore_line) refl

ignore_line_yes :
    (self : Lexer) (s : String) (f : Lexer → Result Lexer)
    → string_starts_with self.rest s ≡ true
    → try_first (ignore_line (some s) self) f
      ≡ forward self (string_length s) >>= (λ behind. skip_line behind.rest behind)
unfolding ignore_line
ignore_line_yes self s f starts =
    rw (starts, ignore_line) (try_bind (forward self (string_length s)) (λ b. skip_line b.rest b) f)

-- a lexer with the byte `c`, before `cs`, at its cursor
module _ (self : Lexer) (c : ℕ) (cs : String) where
  abbrev pub here : Lexer
  here = record self { rest = c ∷ cs }

  pub lexer_step-space : isspace c ≡ true → lexer_step here ≡ skip_spaces (c ∷ cs) here
  unfolding lexer_step ignore_space current_char ignore_space_from
  lexer_step-space space =
      ap (λ b. try_first (ignore_space_from b here) step_comment) space
      ∙ try_done (skip_spaces (c ∷ cs) here) step_comment

  module _ (space : isspace c ≡ false) where
    not_space : lexer_step here ≡ try_first (ignore_line self.line_comment here) step_delimiter
    unfolding lexer_step ignore_space ignore_comment current_char ignore_space_from step_comment
    not_space =
        ap (λ b. try_first (ignore_space_from b here) step_comment) space
        ∙ try_not here step_comment

    pub lexer_step-comment :
        {comment : String}
        → self.line_comment ≡ some comment
        → string_starts_with (c ∷ cs) comment ≡ true
        → lexer_step here
          ≡ forward here (string_length comment) >>= (λ behind. skip_line behind.rest behind)
    lexer_step-comment {comment} has starts =
        not_space
        ∙ ap (λ o. try_first (ignore_line o here) step_delimiter) has
        ∙ ignore_line_yes here comment step_delimiter starts

    module _ (no_comment : NoComment self.line_comment (c ∷ cs)) where
      not_comment :
          lexer_step here
          ≡ try_first (collect_matched (match_first self.delimiter_list (c ∷ cs)) here) step_string
      unfolding collect_delimiter match_delimiter step_delimiter
      not_comment =
          not_space
          ∙ ap (λ r. try_first r step_delimiter) (ignore_line_no here self.line_comment no_comment)
          ∙ try_not here step_delimiter

      pub lexer_step-delimiter :
          {d : String}
          → match_first self.delimiter_list (c ∷ cs) ≡ some d
          → lexer_step here
            ≡ forward here (string_length d) >>= (λ next. ok (
                push_token next (
                  token_new d delimiter_token self.cursor
                    (self.cursor + string_length d)
                    next.lineno
                    next.column)))
      unfolding collect_matched
      lexer_step-delimiter {d} found =
          not_comment
          ∙ ap (λ o. try_first (collect_matched o here) step_string) found
          ∙ try_pure (forward here (string_length d))
              (λ next. push_token next (
                token_new d delimiter_token self.cursor (self.cursor + string_length d) next.lineno
                  next.column))
              step_string

      module _ (no_delimiter : match_first self.delimiter_list (c ∷ cs) ≡ none) where
        not_delimiter :
            lexer_step here ≡ try_first (collect_if self.enable_string here) collect_generic
        unfolding collect_matched step_string
        not_delimiter =
            not_comment
            ∙ ap (λ o. try_first (collect_matched o here) step_string) no_delimiter
            ∙ try_not here step_string

        pub lexer_step-string :
            self.enable_string ≡ true
            → c == b'"' ≡ true
            → lexer_step here
              ≡ collect_string_loop cs (step_over c cs (record self { buffer = [] }))
        unfolding collect_if collect_string collect_quoted current_char step step_from
        lexer_step-string on quote =
            not_delimiter
            ∙ ap (λ b. try_first (collect_if b here) collect_generic) on
            ∙ ap (λ b. try_first (collect_quoted b here) collect_generic) quote
            ∙ try_done (collect_string_loop cs (step_over c cs (record self { buffer = [] })))
                collect_generic

        generic_lem :
            (b : Bool)
            → (b ≡ false) ⊎ (c == b'"' ≡ false)
            → try_first (collect_if b here) collect_generic ≡ collect_generic here
        unfolding collect_if collect_string collect_quoted current_char
        generic_lem false off = try_not here collect_generic
        generic_lem true (inl off) = cc
        generic_lem true (inr off) =
            ap (λ b. try_first (collect_quoted b here) collect_generic) off
            ∙ try_not here collect_generic

        pub lexer_step-generic :
            (self.enable_string ≡ false) ⊎ (c == b'"' ≡ false)
            → lexer_step here ≡ collect_generic_loop (c ∷ cs) (record here { buffer = [] })
        unfolding collect_generic
        lexer_step-generic off = not_delimiter ∙ generic_lem self.enable_string off
