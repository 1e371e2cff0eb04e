-- ===== src/Std/Sexp.antt =====
-- packages/std/sexp/sexp.c: s-expressions over the tokens of the lexer, read and printed.
pub mod Parse
pub mod Lexing
pub mod RoundTrip
mod Tests
use inet_lisp.Base.{
  ℕ, zero, suc, ◌+◌, ◌*◌, List, [], ◌∷◌, ◌++◌, Bool, true, false, Option, none, some, length,
  Result, ok, err, dangling, assertion_failed, out_of_fuel, ◌>>=◌, ◌>>◌, check,
}
use inet_lisp.Std.String.{String, string_equal}
use inet_lisp.Std.Lexer.{
  TokenKind, generic_token, delimiter_token, int_token, float_token, string_token, Token, Lexer,
  lexer_new, lexer_add_delimiter, lexer_run,
}

abbrev pub left_paren : String
left_paren = b'(' ∷ []

abbrev pub right_paren : String
right_paren = b')' ∷ []

mutual
  -- `sexp_t`: `atom_sexp_t` and `list_sexp_t`. The end token is NULL where the tokens end in a list.
  pub data Sexp : Type 0 where
    atom_sexp : Token → Sexp
    list_sexp : Token → Option Token → SexpList → Sexp

  pub data SexpList : Type 0 where
    sexp_nil : SexpList
    sexp_cons : Sexp → SexpList → SexpList

-- `list_shift`, which gives NULL on the empty list
abbrev pub list_shift : List Token → Option Token × List Token
list_shift [] = (none, [])
list_shift (token ∷ tokens) = (some token, tokens)

-- Each call of one of the two is on fewer tokens, or on the same tokens from `parse_list`.
unfoldable mutual
  unfolding string_equal

  pub parse_sexp : ℕ → List Token → Result (Sexp × List Token)
  parse_sexp zero token_list = err out_of_fuel
  parse_sexp (suc fuel) [] = err dangling
  parse_sexp (suc fuel) (token ∷ token_list) = elim (string_equal token.string left_paren) [
    | true ↦ do
      (sexp_list, rest) ← parse_list fuel token_list
      let (end_token, left) = list_shift rest in ok (list_sexp token end_token sexp_list, left)
    | false ↦ ok (atom_sexp token, token_list)
  ]

  pub parse_list : ℕ → List Token → Result (SexpList × List Token)
  parse_list zero token_list = err out_of_fuel
  parse_list (suc fuel) [] = ok (sexp_nil, [])
  parse_list (suc fuel) (token ∷ token_list) = elim (string_equal token.string right_paren) [
    | true ↦ ok (sexp_nil, token ∷ token_list)
    | false ↦ do
      (sexp, rest) ← parse_sexp fuel (token ∷ token_list)
      (sexp_list, left) ← parse_list fuel rest
      ok (sexp_cons sexp sexp_list, left)
  ]

-- the lexer that `sexp_parse_list` makes
unfoldable pub sexp_lexer : Lexer
unfolding lexer_new lexer_add_delimiter
sexp_lexer =
    let self = record lexer_new {
      line_comment = some (b';' ∷ []);
      enable_int = true;
      enable_float = true;
      enable_string = true;
    } in
    lexer_add_delimiter (lexer_add_delimiter self left_paren) right_paren

abbrev pub is_empty : List Token → Bool
is_empty [] = true
is_empty (token ∷ token_list) = false

module _ (strtod : String → Option ℕ) where
  unfoldable pub sexp_parse_list : String → Result SexpList
  unfolding lexer_run parse_list sexp_lexer
  sexp_parse_list string = do
    lexer ← lexer_run strtod sexp_lexer string
    (result, rest) ← parse_list (2 * length lexer.token_list + 1) lexer.token_list
    check (is_empty rest)
    ok result

  -- The first s-expression, or NULL where there is none.
  unfoldable pub sexp_parse : String → Result (Option Sexp)
  unfolding sexp_parse_list
  sexp_parse string = do
    sexp_list ← sexp_parse_list string
    ok (elim sexp_list [ sexp_nil ↦ none | sexp_cons sexp rest ↦ some sexp ])

-- `atom_sexp_print`, given the kind and the string of the token
unfoldable pub token_print : TokenKind → String → String
token_print string_token string = b'"' ∷ string ++ b'"' ∷ []
token_print _ string = string

unfoldable pub atom_sexp_print : Token → String
unfolding token_print
atom_sexp_print token = token_print token.kind token.string

unfoldable mutual
  unfolding atom_sexp_print

  pub sexp_print : Sexp → String
  sexp_print (atom_sexp token) = atom_sexp_print token
  sexp_print (list_sexp start_token end_token sexp_list) =
      b'(' ∷ sexp_list_print sexp_list ++ b')' ∷ []

  -- the loop of `list_sexp_print`: a space behind each element but the last
  pub sexp_list_print : SexpList → String
  sexp_list_print sexp_nil = []
  sexp_list_print (sexp_cons sexp sexp_nil) = sexp_print sexp
  sexp_list_print (sexp_cons sexp (sexp_cons next rest)) =
      sexp_print sexp ++ b' ' ∷ sexp_list_print (sexp_cons next rest)

unfoldable pub is_atom_sexp : Sexp → Bool
is_atom_sexp (atom_sexp token) = true
is_atom_sexp (list_sexp start_token end_token sexp_list) = false

unfoldable pub is_list_sexp : Sexp → Bool
is_list_sexp (atom_sexp token) = false
is_list_sexp (list_sexp start_token end_token sexp_list) = true

unfoldable pub sexp_token : Sexp → Result Token
sexp_token (atom_sexp token) = ok token
sexp_token (list_sexp start_token end_token sexp_list) = err assertion_failed

unfoldable pub sexp_string : Sexp → Result String
sexp_string (atom_sexp token) = ok token.string
sexp_string (list_sexp start_token end_token sexp_list) = err assertion_failed

unfoldable pub sexp_sexp_list : Sexp → Result SexpList
sexp_sexp_list (atom_sexp token) = err assertion_failed
sexp_sexp_list (list_sexp start_token end_token sexp_list) = ok sexp_list

-- A list that is empty, or that starts with a list, starts with no string.
unfoldable pub sexp_starts_with : Sexp → String → Bool
unfolding string_equal
sexp_starts_with (list_sexp start_token end_token (sexp_cons (atom_sexp token) rest)) string =
    string_equal token.string string
sexp_starts_with _ string = false
