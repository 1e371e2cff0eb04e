-- ===== src/Lang/Tests.antt =====
-- Runs of lang/compile.c on a function of two names.
use inet_lisp.Base.{
  ℕ, ◌+◌, ◌-◌, ◌≡◌, refl, [], ◌∷◌, Option, none, some, false, arith, ok, get_elem?,
}
use inet_lisp.Net.Ctor.{Name, PortInfo, NodeCtor, Rule}
use inet_lisp.Std.String.{string_equal}
use inet_lisp.Net.Heap.{Value, word, node_ctor}
use inet_lisp.Core.Mod.{Mod, Function, get_variable, load_function, load_ctor}
use inet_lisp.Lang.Exp.{exp_nil, exp_cons, exp_var}
use inet_lisp.Lang.Compile.Extends.{Extends, compile_exp_list-Extends}
use inet_lisp.Lang.Define.{define_rule_star, auxiliary_names}
use inet_lisp.Lang.Define.Rules.{RuleDefined, define_rule_star_lem}
use inet_lisp.Core.Frame.{Frame, frame_new}
use inet_lisp.Core.Frame.Laws.{variable}
use inet_lisp.Core.Worker.Run.{worker_run_until}
use inet_lisp.Core.Worker.{Config, Worker}
use inet_lisp.Lang.Compile.{
  maybe_compile_get_variable, compile_set_variable, mod_find, compile_exp, compile_exp_list,
  hash_get_entry, function_new, function_add_opcode, compile_set_variable_list,
}
use inet_lisp.Lang.Compile.Binding.Run.{at, names_get_values}

abbrev x : Name
x = b'x' ∷ []

abbrev y : Name
y = b'y' ∷ []

-- It sets x and y, and reads y.
abbrev reads_y : Function
reads_y =
    function_add_opcode (compile_set_variable_list (function_new 2) (x ∷ y ∷ [])) (get_variable 0)

abbrev with_reads_y : Mod
with_reads_y = record {
  value_hash = [];
  node_ctors = [];
  functions = reads_y ∷ [];
  primitives = [];
  apply_primitives = [];
}

abbrev config : Config
config = record { batch_size = 2; queue_size = 8 }

abbrev idle : Worker
idle = record {
  task_queue = [];
  value_stack = [];
  return_stack = [];
  nodes = record {
    pool = record { shared = record { stack = []; cache_size = 2 }; local = [] };
    heap = record { wires = []; principal_wires = []; nodes = [] };
  };
}

-- 7 is pushed first, for x; 8 is on top, for y.
names_get_values_example :
    (f' : Frame) × ((fuel : ℕ)
      → worker_run_until
          (fuel + 2)
          config
          with_reads_y
          0
          (at idle (frame_new 0) [] (word 8 ∷ word 7 ∷ word 6 ∷ []))
        ≡ worker_run_until fuel config with_reads_y 0 (at idle f' [] (word 6 ∷ [])))
    × ((i : ℕ) (name : Name) (v : Value)
        → get_elem? (x ∷ y ∷ []) i ≡ some name
        → get_elem? (word 8 ∷ word 7 ∷ []) (2 - 1 - i) ≡ some v
        → (j : ℕ) × (hash_get_entry
              (compile_set_variable_list (function_new 2) (x ∷ y ∷ [])).local_index_hash
              name
            ≡ some j)
          × (variable f' j ≡ v))
unfolding load_function function_add_opcode string_equal
names_get_values_example =
    names_get_values config with_reads_y reads_y idle 0 2 [] (x ∷ y ∷ []) (word 8 ∷ word 7 ∷ [])
      (word 6 ∷ []) (get_variable 0) [] ((refl, tt), (tt, tt)) refl refl refl

abbrev port : Name → Option PortInfo
port name = some (record { name = name; is_principal = false })

abbrev ctor_of : Name → NodeCtor
ctor_of name = record {
  name = name;
  arity = 1;
  port_infos = port x ∷ [];
  rule_array = [];
  primitive = none;
}

-- the constructors x and y
abbrev with_ctors : Mod
with_ctors = record {
  value_hash = (x, node_ctor 0) ∷ (y, node_ctor 1) ∷ [];
  node_ctors = ctor_of x ∷ ctor_of y ∷ [];
  functions = [];
  primitives = [];
  apply_primitives = [];
}

define_rule_star_example :
    (m' : Mod) × (rule : Rule) × (define_rule_star with_ctors
        (record { ctor = 0; port_infos = port x ∷ [] }
          ∷ record { ctor = 1; port_infos = port y ∷ [] }
          ∷ [])
        exp_nil
      ≡ ok m')
    × RuleDefined with_ctors m' 0 1
        (ctor_of x)
        (ctor_of y)
        (compile_set_variable_list (function_new 2) (x ∷ y ∷ []))
        rule
unfolding auxiliary_names compile_exp_list load_ctor mod_find hash_get_entry string_equal
define_rule_star_example =
    define_rule_star_lem with_ctors (record { ctor = 0; port_infos = port x ∷ [] })
      (record { ctor = 1; port_infos = port y ∷ [] }) exp_nil (x ∷ []) (y ∷ [])
      (compile_set_variable_list (function_new 2) (x ∷ y ∷ [])) (ctor_of x) (ctor_of y) refl refl
      refl refl refl refl refl (λ e. omega arith)

compile_exp_list-Extends_example :
    Extends (compile_set_variable_list (function_new 2) (x ∷ y ∷ [])) reads_y
unfolding compile_exp_list compile_exp maybe_compile_get_variable hash_get_entry string_equal
    function_add_opcode compile_set_variable_list compile_set_variable function_new
compile_exp_list-Extends_example =
    compile_exp_list-Extends with_reads_y (compile_set_variable_list (function_new 2) (x ∷ y ∷ []))
      (exp_cons (exp_var y) exp_nil) reads_y refl
