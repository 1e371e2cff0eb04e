-- ===== src/Lang/Execute.antt =====
-- lang/execute.c, lang/run_exp.c: statements run by a worker. An import, which reads another file, is a
-- parameter; nothing is printed. The worker works alone, as with `single_threaded_flag`.
pub mod Patterns
mod Tests
use inet_lisp.Base.{
  ℕ, zero, suc, ◌+◌, ◌-◌, List, [], ◌∷◌, ◌++◌, Bool, true, false, leb, if◌then◌else◌, length,
  replicate, Option, none, some, Result, ok, err, exited, assertion_failed, ◌>>=◌, ◌>>◌, check,
}
use inet_lisp.Std.String.{String}
use inet_lisp.Net.Ctor.{Name, NodeCtor, port_info_from_name}
use inet_lisp.Net.Heap.{Value, null, function}
use inet_lisp.Core.Mod.{Mod, Function, load_ctor}
use inet_lisp.Core.Frame.{frame_new}
use inet_lisp.Core.Worker.{Config, Worker, pop_value, push_frame}
use inet_lisp.Core.Worker.Run.{worker_run_until}
use inet_lisp.Core.Worker.Handle.{worker_work_sequentially}
use inet_lisp.Lang.Exp.{
  Exp, ExpList, exp_var, exp_ap, exp_assign, exp_int, exp_float, exp_nil, exp_cons, exp_copy,
}
use inet_lisp.Lang.Stmt.{
  Stmt, stmt_define, stmt_define_function, stmt_define_node, stmt_define_rule,
  stmt_define_rule_star, stmt_run_exp, stmt_import,
}
use inet_lisp.Lang.Compile.{
  mod_find, function_new, compile_set_variable_list, compile_exp, compile_exp_list,
}
use inet_lisp.Lang.Define.{
  NodePattern, node_pattern_set_port_info, as_node_ctor, define, define_node, define_rule_star,
}

unfoldable pub node_pattern_new : Mod → ℕ → Result NodePattern
node_pattern_new m c = do
  ctor ← load_ctor m c
  ok (record { ctor = c; port_infos = replicate ctor.arity none })

-- The loop of `build_node_pattern`; whether a port is taken is not looked at.
unfoldable pub set_port_infos : Mod → NodePattern → ℕ → ExpList → Result NodePattern
unfolding node_pattern_set_port_info port_info_from_name
set_port_infos m pattern index exp_nil = ok pattern
set_port_infos m pattern index (exp_cons (exp_var name) arg_list) = do
  (taken, next) ← node_pattern_set_port_info m pattern index (port_info_from_name name)
  set_port_infos m next (index + 1) arg_list
set_port_infos m pattern index (exp_cons _ arg_list) = err assertion_failed

-- `build_node_pattern`, with the value of its target's name
unfoldable pub build_from_value : Mod → Value → ExpList → Result NodePattern
unfolding node_pattern_new set_port_infos
build_from_value m null arg_list = err exited
build_from_value m value arg_list = do
  c ← as_node_ctor value
  pattern ← node_pattern_new m c
  set_port_infos m pattern 0 arg_list

unfoldable pub build_node_pattern : Mod → Exp → Result NodePattern
unfolding build_from_value mod_find
build_node_pattern m (exp_ap (exp_var name) arg_list) =
    build_from_value m (mod_find m name) arg_list
build_node_pattern m _ = err assertion_failed

unfoldable pub build_node_pattern_list : Mod → ExpList → Result (List NodePattern)
unfolding build_node_pattern
build_node_pattern_list m exp_nil = ok []
build_node_pattern_list m (exp_cons pattern_exp pattern_exp_list) = do
  pattern ← build_node_pattern m pattern_exp
  pattern_list ← build_node_pattern_list m pattern_exp_list
  ok (pattern ∷ pattern_list)

-- The name of the port at which a pattern meets the pattern around it.
abbrev pub bang : Name
bang = b'!' ∷ []

-- `list_push`
unfoldable pub exp_list_push : ExpList → Exp → ExpList
exp_list_push exp_nil exp = exp_cons exp exp_nil
exp_list_push (exp_cons first rest) exp = exp_cons first (exp_list_push rest exp)

-- The second list is `pattern_exp_list`, at whose front each pattern inside another is put.
unfoldable mutual
  unfolding exp_copy exp_list_push

  pub translate_pattern_arg_list : ExpList → ExpList → Result (ExpList × ExpList)
  translate_pattern_arg_list exp_nil pattern_exp_list = ok (exp_nil, pattern_exp_list)
  translate_pattern_arg_list (exp_cons (exp_var name) arg_list) pattern_exp_list = do
    copied ← exp_copy (exp_var name)
    (new_arg_list, patterns) ← translate_pattern_arg_list arg_list pattern_exp_list
    ok (exp_cons copied new_arg_list, patterns)
  translate_pattern_arg_list (exp_cons arg_exp arg_list) pattern_exp_list = do
    inner ← translate_pattern_sub_tree arg_exp bang pattern_exp_list
    (new_arg_list, patterns) ← translate_pattern_arg_list arg_list inner
    ok (exp_cons (exp_var bang) new_arg_list, patterns)

  pub translate_pattern_sub_tree : Exp → Name → ExpList → Result ExpList
  translate_pattern_sub_tree (exp_ap target arg_list) last_arg_name pattern_exp_list = do
    new_target ← exp_copy target
    (new_arg_list, patterns) ← translate_pattern_arg_list arg_list pattern_exp_list
    ok (exp_cons (exp_ap new_target (exp_list_push new_arg_list (exp_var last_arg_name))) patterns)
  translate_pattern_sub_tree _ last_arg_name pattern_exp_list = err assertion_failed

unfoldable pub translate_pattern_tree : Exp → Result ExpList
unfolding translate_pattern_arg_list exp_copy
translate_pattern_tree (exp_ap target arg_list) = do
  new_target ← exp_copy target
  (new_arg_list, patterns) ← translate_pattern_arg_list arg_list exp_nil
  ok (exp_cons (exp_ap new_target new_arg_list) patterns)
translate_pattern_tree _ = err assertion_failed

module _ (rounds fuel : ℕ) (cfg : Config) (m : Mod) where
  -- The function of the expression is there while it runs.
  unfoldable pub build_net : Exp → Worker → Result Worker
  unfolding compile_exp function_new frame_new worker_run_until push_frame
  build_net exp worker = do
    f ← compile_exp m (function_new 0) exp
    (u, started) ← push_frame (frame_new (length m.functions)) worker
    (v, finished) ←
        worker_run_until fuel cfg (record m { functions = m.functions ++ f ∷ [] })
          (length worker.return_stack) started
    ok finished

  -- The count of the values that are left, and the worker; the flag is `no_run_top_level_exp`.
  unfoldable pub run_exp : Bool → Exp → Worker → Result (ℕ × Worker)
  unfolding build_net worker_work_sequentially
  run_exp no_run exp worker = do
    built ← build_net exp worker
    worked ←
        (if no_run
          then ok built
          else worker_work_sequentially rounds fuel cfg m built >>= (λ r. ok r.1))
    check (leb (length worker.value_stack) (length worked.value_stack))
    ok (length worked.value_stack - length worker.value_stack, worked)

-- An import brings names of another mod into this one.
module _ (import_names : List Name → String → Mod → Worker → Result (Mod × Worker))
    (rounds fuel : ℕ) (cfg : Config) (no_run : Bool) where
  unfoldable pub execute : Mod → Worker → Stmt → Result (Mod × Worker)
  unfolding run_exp pop_value define define_node define_rule_star compile_exp_list
      compile_set_variable_list function_new translate_pattern_tree build_node_pattern_list
  execute m worker (stmt_define name exp) = do
    (value_count, after) ← run_exp rounds fuel cfg m no_run exp worker
    (value, popped) ← pop_value after
    defined ← define m name value
    ok (defined, popped)
  execute m worker (stmt_define_function name arg_name_list exp_list) = do
    let new : Function = record (function_new (length arg_name_list)) { name = name }
    f ← compile_exp_list m (compile_set_variable_list new arg_name_list) exp_list
    defined ←
        define (record m { functions = m.functions ++ f ∷ [] }) name (function (length m.functions))
    ok (defined, worker)
  execute m worker (stmt_define_node name port_name_list) = do
    defined ← define_node m name port_name_list
    ok (defined, worker)
  execute m worker (stmt_define_rule pattern_exp exp_list) = do
    pattern_exp_list ← translate_pattern_tree pattern_exp
    pattern_list ← build_node_pattern_list m pattern_exp_list
    defined ← define_rule_star m pattern_list exp_list
    ok (defined, worker)
  execute m worker (stmt_define_rule_star pattern_exp_list exp_list) = do
    pattern_list ← build_node_pattern_list m pattern_exp_list
    defined ← define_rule_star m pattern_list exp_list
    ok (defined, worker)
  execute m worker (stmt_run_exp exp) = do
    (value_count, after) ← run_exp rounds fuel cfg m no_run exp worker
    ok (m, after)
  execute m worker (stmt_import name_list path) = import_names name_list path m worker

  -- the loop of `load_mod` over the statements of a file
  unfoldable pub execute_list : Mod → Worker → List Stmt → Result (Mod × Worker)
  unfolding execute
  execute_list m worker [] = ok (m, worker)
  execute_list m worker (stmt ∷ stmt_list) = do
    (next_mod, next_worker) ← execute m worker stmt
    execute_list next_mod next_worker stmt_list
