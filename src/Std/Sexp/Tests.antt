-- ===== src/Std/Sexp/Tests.antt =====
-- packages/std/sexp/sexp.c: s-expressions read and printed.
use inet_lisp.Base.{
  ℕ, arith, ◌≡◌, refl, ◌==◌, [], ◌∷◌, true, false, Option, none, some, Result, ok, err,
  assertion_failed, Ends,
}
use inet_lisp.Std.String.{String, isspace, string_starts_with, string_is_xint}
use inet_lisp.Std.Lexer.{generic_token, Token, token_new, lexer_run}
use inet_lisp.Std.Lexer.Termination.{lexer_run-Ends}
use inet_lisp.Std.Sexp.{
  SexpList, atom_sexp, list_sexp, sexp_nil, sexp_cons, sexp_lexer, sexp_parse_list, sexp_list_print,
}
use inet_lisp.Std.Sexp.Parse.{TreeList, leaf, node, tree_nil, tree_cons, shapes}
use inet_lisp.Std.Sexp.Lexing.{word_byte, IsWord}
use inet_lisp.Std.Sexp.RoundTrip.{IsPlain, IsPlainList, sexp_parse_list-print}

abbrev no_double : String → Option ℕ
no_double s = none

abbrev word : String → Token
word s = token_new s generic_token 0 0 0 0

-- (add (n) 1) x
abbrev sample : SexpList
sample =
    sexp_cons
      (list_sexp (word (b'(' ∷ [])) (some (word (b')' ∷ []))) (
        sexp_cons (atom_sexp (word (b'a' ∷ b'd' ∷ b'd' ∷ []))) (
          sexp_cons
            (list_sexp (word (b'(' ∷ [])) (some (word (b')' ∷ [])))
              (sexp_cons (atom_sexp (word (b'n' ∷ []))) sexp_nil))
            (sexp_cons (atom_sexp (word (b'1' ∷ []))) sexp_nil))))
      (sexp_cons (atom_sexp (word (b'x' ∷ []))) sexp_nil)

one_byte :
    (c : ℕ) → word_byte c ≡ true → (c == b';') ≡ false → (c == b'"') ≡ false → IsWord (c ∷ [])
one_byte c plain no_comment no_quote = ((((plain, tt), omega arith)), no_comment, no_quote)

sample-IsPlainList : IsPlainList sample
unfolding IsPlain word_byte isspace token_new
sample-IsPlainList = (
  (
    (tt, (((refl, (refl, (refl, tt))), omega arith), refl, refl)),
    (((tt, one_byte b'n' refl refl refl), tt), ((tt, one_byte b'1' refl refl refl), tt)),
  ),
  ((tt, one_byte b'x' refl refl refl), tt),
)

sexp_parse_list-print_example :
    (read : SexpList) × (sexp_parse_list no_double (sexp_list_print sample) ≡ ok read)
    × (shapes read ≡ shapes sample)
sexp_parse_list-print_example = sexp_parse_list-print no_double sample sample-IsPlainList

-- (f;
abbrev unfinished : String
unfinished = b'(' ∷ b'f' ∷ b';' ∷ []

lexer_run_example : Ends (lexer_run no_double sexp_lexer unfinished)
unfolding sexp_lexer
lexer_run_example = lexer_run-Ends no_double sexp_lexer unfinished ((λ e. cc), ((λ e. cc), tt))

shape_of : Result SexpList → Option TreeList
shape_of (ok l) = some (shapes l)
shape_of _ = none

-- A comment behind a word is a part of the word, and a list need not end.
comment_in_word :
    shape_of (sexp_parse_list no_double unfinished)
    ≡ some (tree_cons (node (tree_cons (leaf (b'f' ∷ b';' ∷ [])) tree_nil)) tree_nil)
unfolding shape_of sexp_parse_list shapes isspace string_starts_with string_is_xint
comment_in_word = refl

-- A parenthesis in quotes is read as a parenthesis: "(" x
quoted_paren :
    shape_of (sexp_parse_list no_double (b'"' ∷ b'(' ∷ b'"' ∷ b' ' ∷ b'x' ∷ []))
    ≡ some (tree_cons (node (tree_cons (leaf (b'x' ∷ [])) tree_nil)) tree_nil)
unfolding shape_of sexp_parse_list shapes isspace string_starts_with string_is_xint
quoted_paren = refl

-- A right parenthesis too many fails an assertion.
stray_paren : sexp_parse_list no_double (b'x' ∷ b')' ∷ []) ≡ err assertion_failed
unfolding sexp_parse_list isspace string_starts_with string_is_xint
stray_paren = refl
