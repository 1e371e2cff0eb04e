-- ===== src/Lang/Stmt.antt =====
-- lang/stmt.c: statements.
use inet_lisp.Base.{List}
use inet_lisp.Net.Ctor.{Name}
use inet_lisp.Std.String.{String}
use inet_lisp.Lang.Exp.{Exp, ExpList}

-- `stmt_t`. The path of an import is its string.
pub data Stmt : Type 0 where
  stmt_define : Name → Exp → Stmt
  stmt_define_function : Name → List Name → ExpList → Stmt
  stmt_define_node : Name → List Name → Stmt
  stmt_define_rule : Exp → ExpList → Stmt
  stmt_define_rule_star : ExpList → ExpList → Stmt
  stmt_run_exp : Exp → Stmt
  stmt_import : List Name → String → Stmt
