-- ===== src/Lang/Execute/Tests.antt =====
-- lang/execute.c: a program with a rule, run from its statements.
use inet_lisp.Base.{
  ℕ, ◌≡◌, refl, [], ◌∷◌, ◌++◌, List, Result, ok, ok_or, map, Option, false, none, some, ◌>>=◌,
}
use inet_lisp.Std.String.{string_equal, String}
use inet_lisp.Net.Ctor.{Name}
use inet_lisp.Net.Heap.{
  load_node, store_node, node_set_value, principal_wire_new, node_new, wire_new, load_fuzed,
  store_fuzed, load_principal, store_principal, node_get_value, principal_wire_destroy, node_clean,
  wire_destroy, Value, primitive, wire, principal_wire,
}
use inet_lisp.Core.Mod.{
  load_ctor, load_function, node_ctor_pointer, load_primitive, Mod, Task, fn, x_connect,
}
use inet_lisp.Core.Worker.{
  push_value, worker_new_node, worker_add_task, worker_recycle_node, worker_connect, Config, Worker,
}
use inet_lisp.Lang.Exp.{Exp, ExpList, exp_nil, exp_cons, exp_ap, exp_var}
use inet_lisp.Lang.Stmt.{
  Stmt, stmt_run_exp, stmt_define_node, stmt_define_rule, stmt_define_rule_star,
}
use inet_lisp.Lang.Execute.{bang, translate_pattern_tree, execute, execute_list}
use inet_lisp.Lang.Execute.Patterns.{
  PatternTree, node, done, port, inner, tree_exp, flat_exp_list, tree_patterns,
  translate_pattern_tree_lem, execute-stmt_define_rule,
}
use inet_lisp.Core.Frame.{
  frame_is_finished, frame_fetch_opcode, frame_set_variable, frame_get_variable,
}
use inet_lisp.Core.Worker.Apply.{worker_apply}
use inet_lisp.Net.NodeAllocator.{node_allocator_allocate, node_allocator_recycle}
use inet_lisp.Core.Worker.Node.{worker_reconnect_node, worker_disconnect_node}
use inet_lisp.Std.Array.{array_set, array_get}
use inet_lisp.Core.Connect.{connect}

-- (add (add1 prev) addend result)
abbrev add_tree : PatternTree
add_tree =
    node (b'+' ∷ [])
      (inner (node (b's' ∷ []) (port (b'p' ∷ []) done)) (port (b'a' ∷ []) (port (b'r' ∷ []) done)))

translate_pattern_tree_example :
    translate_pattern_tree (tree_exp add_tree)
    ≡ ok (
        flat_exp_list (
          (b'+' ∷ [], bang ∷ (b'a' ∷ []) ∷ (b'r' ∷ []) ∷ [])
          ∷ (b's' ∷ [], (b'p' ∷ []) ∷ bang ∷ [])
          ∷ []))
unfolding tree_patterns
translate_pattern_tree_example = translate_pattern_tree_lem add_tree

-- (+ (0) a r)
abbrev zero_tree : PatternTree
zero_tree =
    node (b'+' ∷ []) (inner (node (b'0' ∷ []) done) (port (b'a' ∷ []) (port (b'r' ∷ []) done)))

-- (connect a r)
abbrev zero_body : ExpList
zero_body =
    exp_cons
      (exp_ap (exp_var (b'c' ∷ []))
        (exp_cons (exp_var (b'a' ∷ [])) (exp_cons (exp_var (b'r' ∷ [])) exp_nil)))
      exp_nil

abbrev sum : Exp
sum = exp_ap (exp_var (b'+' ∷ [])) (
    exp_cons
      (exp_ap (exp_var (b's' ∷ [])) (exp_cons (exp_ap (exp_var (b'0' ∷ [])) exp_nil) exp_nil))
      (exp_cons (exp_ap (exp_var (b'0' ∷ [])) exp_nil) exp_nil))

abbrev no_import : List Name → String → Mod → Worker → Result (Mod × Worker)
no_import name_list path m worker = ok (m, worker)

abbrev config : Config
config = record { batch_size = 2; queue_size = 8 }

-- A mod with `connect` alone.
abbrev empty_mod : Mod
empty_mod = record {
  value_hash = (b'c' ∷ [], primitive 0) ∷ [];
  node_ctors = [];
  functions = [];
  primitives =
      record {
        name = b'c' ∷ [];
        node_ctor = none;
        input_arity = 2;
        output_arity = 0;
        primitive_fn = fn x_connect;
      }
      ∷ [];
  apply_primitives = [];
}

abbrev idle : Worker
idle = record {
  task_queue = [];
  value_stack = [];
  return_stack = [];
  nodes = record {
    pool = record { shared = record { stack = []; cache_size = 2 }; local = [] };
    heap = record { wires = []; principal_wires = []; nodes = [] };
  };
}

-- The nodes zero, add1 and add, and the rules that add.
abbrev nodes : List Stmt
nodes =
    stmt_define_node (b'0' ∷ []) ((b'v' ∷ b'!' ∷ []) ∷ [])
    ∷ stmt_define_node (b's' ∷ []) ((b'p' ∷ []) ∷ (b'v' ∷ b'!' ∷ []) ∷ [])
    ∷ stmt_define_node (b'+' ∷ []) ((b't' ∷ b'!' ∷ []) ∷ (b'a' ∷ []) ∷ (b'r' ∷ []) ∷ [])
    ∷ []

abbrev defined : Mod
defined =
    ok_or empty_mod (execute_list no_import 2 9 config false empty_mod idle nodes >>= (λ r. ok r.0))

-- (add1 (add prev addend) result)
abbrev body : ExpList
body =
    exp_cons
      (exp_ap (exp_var (b's' ∷ [])) (
        exp_cons
          (exp_ap (exp_var (b'+' ∷ []))
            (exp_cons (exp_var (b'p' ∷ [])) (exp_cons (exp_var (b'a' ∷ [])) exp_nil)))
          (exp_cons (exp_var (b'r' ∷ [])) exp_nil)))
      exp_nil

execute-stmt_define_rule_example :
    execute no_import 2 9 config false defined idle (stmt_define_rule (tree_exp add_tree) body)
    ≡ execute no_import 2 9 config false defined idle
        (stmt_define_rule_star (flat_exp_list (tree_patterns add_tree)) body)
execute-stmt_define_rule_example =
    execute-stmt_define_rule no_import 2 9 config false defined idle add_tree body

-- one and zero are added
abbrev program : List Stmt
program =
    nodes
    ++ stmt_define_rule (tree_exp zero_tree) zero_body
      ∷ stmt_define_rule (tree_exp add_tree) body
      ∷ stmt_run_exp sum
      ∷ []

abbrev ran : Result (List Task × List Value × List (Option Value) × List (Option ℕ))
ran = execute_list no_import 9 99 config false empty_mod idle program >>= (λ r.
    ok (
      r.1.task_queue,
      r.1.value_stack,
      r.1.nodes.heap.wires,
      map (λ n. n.ctor) r.1.nodes.heap.nodes,
    ))

-- The root is wire 2, at the add1 of node 3, whose argument is the zero of node 2.
one_and_zero :
    ran
    ≡ ok (
      [],
      wire 2 ∷ [],
      none ∷ none ∷ some (principal_wire 5) ∷ some (principal_wire 2) ∷ [],
      none ∷ none ∷ some 0 ∷ some 1 ∷ [],
    )
unfolding execute_list string_equal tree_exp load_ctor frame_is_finished load_function
    frame_fetch_opcode push_value worker_apply worker_new_node node_allocator_allocate load_node
    store_node worker_reconnect_node node_ctor_pointer node_set_value principal_wire_new array_set
    node_new wire_new connect load_fuzed store_fuzed load_principal store_principal worker_add_task
    worker_disconnect_node node_get_value array_get principal_wire_destroy worker_recycle_node
    node_allocator_recycle frame_set_variable frame_get_variable node_clean wire_destroy
    load_primitive worker_connect
one_and_zero = refl
