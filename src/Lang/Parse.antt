-- ===== src/Lang/Parse.antt =====
-- lang/parse_exp.c, lang/parse_stmt.c: expressions and statements from s-expressions.
pub mod Grammar
mod Tests
use inet_lisp.Base.{
  List, [], ◌∷◌, Bool, true, false, ◌||◌, ℕ, if◌then◌else◌, Option, none, some, Result, ok, err,
  dangling, assertion_failed, ◌>>=◌,
}
use inet_lisp.Net.Ctor.{Name}
use inet_lisp.Std.String.{String, string_equal, string_copy, string_parse_xint}
use inet_lisp.Std.Lexer.{
  TokenKind, generic_token, delimiter_token, int_token, float_token, string_token, Token,
}
use inet_lisp.Std.Sexp.{
  Sexp, SexpList, atom_sexp, list_sexp, sexp_nil, sexp_cons, sexp_string, sexp_sexp_list,
  sexp_starts_with,
}
use inet_lisp.Lang.Exp.{
  Exp, ExpList, exp_var, exp_ap, exp_assign, exp_int, exp_float, exp_null, exp_nil, exp_cons,
}
use inet_lisp.Lang.Stmt.{
  Stmt, stmt_define, stmt_define_function, stmt_define_node, stmt_define_rule,
  stmt_define_rule_star, stmt_run_exp, stmt_import,
}

abbrev pub equals_name : String
equals_name = b'=' ∷ []

abbrev pub assign_name : String
assign_name = b'a' ∷ b's' ∷ b's' ∷ b'i' ∷ b'g' ∷ b'n' ∷ []

abbrev pub define_node_keyword : String
define_node_keyword =
    b'd' ∷ b'e' ∷ b'f' ∷ b'i' ∷ b'n' ∷ b'e' ∷ b'-' ∷ b'n' ∷ b'o' ∷ b'd' ∷ b'e' ∷ []

abbrev pub define_rule_keyword : String
define_rule_keyword =
    b'd' ∷ b'e' ∷ b'f' ∷ b'i' ∷ b'n' ∷ b'e' ∷ b'-' ∷ b'r' ∷ b'u' ∷ b'l' ∷ b'e' ∷ []

abbrev pub define_rule_star_keyword : String
define_rule_star_keyword =
    b'd' ∷ b'e' ∷ b'f' ∷ b'i' ∷ b'n' ∷ b'e' ∷ b'-' ∷ b'r' ∷ b'u' ∷ b'l' ∷ b'e' ∷ b'*' ∷ []

abbrev pub define_keyword : String
define_keyword = b'd' ∷ b'e' ∷ b'f' ∷ b'i' ∷ b'n' ∷ b'e' ∷ []

abbrev pub import_keyword : String
import_keyword = b'i' ∷ b'm' ∷ b'p' ∷ b'o' ∷ b'r' ∷ b't' ∷ []

-- the elements of a list behind its first
abbrev pub behind_first : Sexp → SexpList
behind_first (list_sexp start_token end_token (sexp_cons first rest)) = rest
behind_first _ = sexp_nil

-- the first test of `parse_exp`
unfoldable pub is_assign : Sexp → Bool
unfolding sexp_starts_with
is_assign sexp = sexp_starts_with sexp equals_name || sexp_starts_with sexp assign_name

-- The C library's `strtod` gives the bits of a double.
module _ (string_parse_double : String → ℕ) where
  -- `parse_exp` on an atom: `parse_int`, `parse_float` or `parse_var`
  unfoldable pub parse_atom : TokenKind → String → Exp
  parse_atom int_token string = exp_int (string_parse_xint string)
  parse_atom float_token string = exp_float (string_parse_double string)
  parse_atom _ string = exp_var (string_copy string)

  unfoldable mutual
    unfolding is_assign parse_atom sexp_string

    pub parse_exp : Sexp → Result Exp
    parse_exp (atom_sexp token) = ok (parse_atom token.kind token.string)
    parse_exp (list_sexp start_token end_token sexp_nil) = err assertion_failed
    parse_exp (list_sexp start_token end_token (sexp_cons first rest)) =
        elim (is_assign (list_sexp start_token end_token (sexp_cons first rest))) [
          | true ↦ do (name_list, exp) ← parse_assign rest; ok (exp_assign name_list exp)
          | false ↦ do
            target ← parse_exp first
            arg_list ← parse_exp_list rest
            ok (exp_ap target arg_list)
        ]

    -- the loop of `parse_ap`, and of the statements that have expressions
    pub parse_exp_list : SexpList → Result ExpList
    parse_exp_list sexp_nil = ok exp_nil
    parse_exp_list (sexp_cons sexp sexp_list) = do
      exp ← parse_exp sexp
      exp_list ← parse_exp_list sexp_list
      ok (exp_cons exp exp_list)

    -- the loop of `parse_assign`: names, and an expression at the end, which is NULL where the loop
    -- has no round
    pub parse_assign : SexpList → Result (List Name × Exp)
    parse_assign sexp_nil = ok ([], exp_null)
    parse_assign (sexp_cons sexp sexp_nil) = do exp ← parse_exp sexp; ok ([], exp)
    parse_assign (sexp_cons sexp (sexp_cons next sexp_list)) = do
      name ← sexp_string sexp
      (name_list, exp) ← parse_assign (sexp_cons next sexp_list)
      ok (name ∷ name_list, exp)

  -- the loops that copy the strings of atoms
  unfoldable pub parse_names : SexpList → Result (List Name)
  unfolding sexp_string
  parse_names sexp_nil = ok []
  parse_names (sexp_cons sexp sexp_list) = do
    name ← sexp_string sexp
    name_list ← parse_names sexp_list
    ok (name ∷ name_list)

  -- The elements behind the keyword; `list_next` gives NULL at the end.
  unfoldable pub parse_define_node : SexpList → Result Stmt
  unfolding parse_names sexp_string
  parse_define_node sexp_nil = err dangling
  parse_define_node (sexp_cons name_sexp sexp_list) = do
    name ← sexp_string name_sexp
    port_name_list ← parse_names sexp_list
    ok (stmt_define_node name port_name_list)

  unfoldable pub parse_define_value : Sexp → SexpList → Result Stmt
  unfolding parse_exp sexp_string
  parse_define_value name_sexp sexp_nil = do name ← sexp_string name_sexp; err dangling
  parse_define_value name_sexp (sexp_cons exp_sexp sexp_nil) = do
    name ← sexp_string name_sexp
    exp ← parse_exp exp_sexp
    ok (stmt_define name exp)
  parse_define_value name_sexp (sexp_cons exp_sexp (sexp_cons next sexp_list)) = do
    name ← sexp_string name_sexp
    err assertion_failed

  unfoldable pub parse_define_function : SexpList → SexpList → Result Stmt
  unfolding parse_names parse_exp sexp_string
  parse_define_function sexp_nil sexp_list = err dangling
  parse_define_function (sexp_cons first_name_sexp name_sexp_list) sexp_list = do
    name ← sexp_string first_name_sexp
    arg_name_list ← parse_names name_sexp_list
    exp_list ← parse_exp_list sexp_list
    ok (stmt_define_function name arg_name_list exp_list)

  unfoldable pub parse_define : SexpList → Result Stmt
  unfolding parse_define_value parse_define_function
  parse_define sexp_nil = err dangling
  parse_define (sexp_cons (atom_sexp token) sexp_list) =
      parse_define_value (atom_sexp token) sexp_list
  parse_define (sexp_cons (list_sexp start_token end_token name_sexp_list) sexp_list) =
      parse_define_function name_sexp_list sexp_list

  unfoldable pub parse_define_rule : SexpList → Result Stmt
  unfolding parse_exp
  parse_define_rule sexp_nil = err dangling
  parse_define_rule (sexp_cons pattern_sexp sexp_list) = do
    pattern_exp ← parse_exp pattern_sexp
    exp_list ← parse_exp_list sexp_list
    ok (stmt_define_rule pattern_exp exp_list)

  unfoldable pub parse_define_rule_star : SexpList → Result Stmt
  unfolding parse_exp sexp_sexp_list
  parse_define_rule_star sexp_nil = err dangling
  parse_define_rule_star (sexp_cons pattern_list_sexp sexp_list) = do
    pattern_exp_sexp_list ← sexp_sexp_list pattern_list_sexp
    pattern_exp_list ← parse_exp_list pattern_exp_sexp_list
    exp_list ← parse_exp_list sexp_list
    ok (stmt_define_rule_star pattern_exp_list exp_list)

  -- names, and a path at the end; without any there is no path
  unfoldable pub parse_import_loop : SexpList → Result (List Name × String)
  unfolding sexp_string
  parse_import_loop sexp_nil = err dangling
  parse_import_loop (sexp_cons sexp sexp_nil) = do path ← sexp_string sexp; ok ([], path)
  parse_import_loop (sexp_cons sexp (sexp_cons next sexp_list)) = do
    name ← sexp_string sexp
    (name_list, path) ← parse_import_loop (sexp_cons next sexp_list)
    ok (name ∷ name_list, path)

  unfoldable pub parse_import : SexpList → Result Stmt
  unfolding parse_import_loop
  parse_import sexp_list = do
    (name_list, path) ← parse_import_loop sexp_list
    ok (stmt_import name_list path)

  unfoldable pub parse_run_exp : Sexp → Result Stmt
  unfolding parse_exp
  parse_run_exp sexp = do exp ← parse_exp sexp; ok (stmt_run_exp exp)

  unfoldable pub parse_stmt : Sexp → Result Stmt
  unfolding parse_define_node parse_define_rule parse_define_rule_star parse_define parse_import
      parse_run_exp sexp_starts_with
  parse_stmt sexp =
      if sexp_starts_with sexp define_node_keyword
      then parse_define_node (behind_first sexp)
      else if sexp_starts_with sexp define_rule_keyword
      then parse_define_rule (behind_first sexp)
      else if sexp_starts_with sexp define_rule_star_keyword
      then parse_define_rule_star (behind_first sexp)
      else if sexp_starts_with sexp define_keyword
      then parse_define (behind_first sexp)
      else if sexp_starts_with sexp import_keyword
      then parse_import (behind_first sexp)
      else parse_run_exp sexp

  unfoldable pub parse_stmt_list : SexpList → Result (List Stmt)
  unfolding parse_stmt
  parse_stmt_list sexp_nil = ok []
  parse_stmt_list (sexp_cons sexp sexp_list) = do
    stmt ← parse_stmt sexp
    stmt_list ← parse_stmt_list sexp_list
    ok (stmt ∷ stmt_list)
