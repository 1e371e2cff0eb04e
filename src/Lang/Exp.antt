-- ===== src/Lang/Exp.antt =====
-- lang/exp.c: expressions.
use inet_lisp.Base.{ℕ, List, Result, ok, err, dangling, ◌>>=◌}
use inet_lisp.Base.Int.{ℤ}
use inet_lisp.Net.Ctor.{Name}

-- `exp_t`. A float is the bit pattern of its `double`.
mutual
  pub data Exp : Type 0 where
    exp_var : Name → Exp
    exp_ap : Exp → ExpList → Exp
    exp_assign : List Name → Exp → Exp
    exp_int : ℤ → Exp
    exp_float : ℕ → Exp
    -- the NULL pointer; it stands only in an assignment, where `parse_assign` found no expression
    exp_null : Exp

  -- a `list_t` of expressions
  pub data ExpList : Type 0 where
    exp_nil : ExpList
    exp_cons : Exp → ExpList → ExpList

-- The code reads the kind of the expression, and so through NULL.
unfoldable mutual
  pub exp_copy : Exp → Result Exp
  exp_copy (exp_var name) = ok (exp_var name)
  exp_copy (exp_ap target arg_list) = do
    new_target ← exp_copy target
    new_arg_list ← exp_list_copy arg_list
    ok (exp_ap new_target new_arg_list)
  exp_copy (exp_assign name_list exp) = do new_exp ← exp_copy exp; ok (exp_assign name_list new_exp)
  exp_copy (exp_int target) = ok (exp_int target)
  exp_copy (exp_float target) = ok (exp_float target)
  exp_copy exp_null = err dangling

  pub exp_list_copy : ExpList → Result ExpList
  exp_list_copy exp_nil = ok exp_nil
  exp_list_copy (exp_cons exp exp_list) = do
    new_exp ← exp_copy exp
    new_exp_list ← exp_list_copy exp_list
    ok (exp_cons new_exp new_exp_list)
