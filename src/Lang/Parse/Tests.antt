-- ===== src/Lang/Parse/Tests.antt =====
-- lang/parse_exp.c, lang/parse_stmt.c: parsed runs.
use inet_lisp.Base.{ℕ, ◌≡◌, ◌↔◌, refl, [], ◌∷◌, none, ok, err, dangling, assertion_failed}
use inet_lisp.Std.String.{String, string_parse_xint, string_starts_with, isspace, string_copy}
use inet_lisp.Std.Lexer.{TokenKind, generic_token, int_token, float_token, token_new}
use inet_lisp.Std.Sexp.{Sexp, SexpList, atom_sexp, list_sexp, sexp_nil, sexp_cons}
use inet_lisp.Base.Int.{pos}
use inet_lisp.Lang.Exp.{
  Exp, exp_var, exp_ap, exp_assign, exp_int, exp_float, exp_null, exp_nil, exp_cons,
}
use inet_lisp.Core.Mod.{Mod, Function}
use inet_lisp.Lang.Compile.{compile_exp}
use inet_lisp.Lang.Stmt.{stmt_define_node}
use inet_lisp.Lang.Parse.{equals_name, define_node_keyword, parse_exp, parse_stmt}
use inet_lisp.Lang.Parse.Grammar.{Writes, parse_exp-Writes}

abbrev zero_double : String → ℕ
zero_double s = 0

abbrev word : TokenKind → String → Sexp
word kind s = atom_sexp (token_new s kind 0 0 0 0)

abbrev listed : SexpList → Sexp
listed l = list_sexp (token_new (b'(' ∷ []) generic_token 0 0 0 0) none l

-- (= x (f 12))
abbrev sample : Sexp
sample = listed (
    sexp_cons (word generic_token equals_name) (
      sexp_cons (word generic_token (b'x' ∷ [])) (
        sexp_cons
          (listed (
            sexp_cons (word generic_token (b'f' ∷ []))
              (sexp_cons (word int_token (b'1' ∷ b'2' ∷ [])) sexp_nil)))
          sexp_nil)))

abbrev sample_exp : Exp
sample_exp =
    exp_assign ((b'x' ∷ []) ∷ [])
      (exp_ap (exp_var (b'f' ∷ [])) (exp_cons (exp_int (pos 12)) exp_nil))

sample_parsed : parse_exp zero_double sample ≡ ok sample_exp
unfolding parse_exp string_parse_xint token_new isspace string_starts_with string_copy
sample_parsed = refl

parse_exp-Writes_example :
    (parse_exp zero_double sample ≡ ok sample_exp) ↔ Writes zero_double sample sample_exp
parse_exp-Writes_example = parse_exp-Writes zero_double sample sample_exp

-- (define-node f x)
node_parsed :
    parse_stmt zero_double (
      listed (
        sexp_cons (word generic_token define_node_keyword) (
          sexp_cons
            (word generic_token (b'f' ∷ []))
            (sexp_cons (word generic_token (b'x' ∷ [])) sexp_nil))))
    ≡ ok (stmt_define_node (b'f' ∷ []) ((b'x' ∷ []) ∷ []))
unfolding parse_stmt token_new
node_parsed = refl

-- An assignment without an expression holds NULL, which the compiler reads.
empty_assign :
    parse_exp zero_double (listed (sexp_cons (word generic_token equals_name) sexp_nil))
    ≡ ok (exp_assign [] exp_null)
unfolding parse_exp token_new
empty_assign = refl

empty_assign_compiled :
    (m : Mod) (f : Function) → compile_exp m f (exp_assign [] exp_null) ≡ err dangling
unfolding compile_exp
empty_assign_compiled m f = refl

-- A double is not a name.
float_parsed : parse_exp (λ s. 7) (word float_token (b'1' ∷ b'.' ∷ b'5' ∷ [])) ≡ ok (exp_float 7)
unfolding parse_exp token_new
float_parsed = refl

-- The empty list is no expression.

empty_list : parse_exp zero_double (listed sexp_nil) ≡ err assertion_failed
unfolding parse_exp
empty_list = refl
