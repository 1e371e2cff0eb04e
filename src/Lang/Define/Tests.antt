-- ===== src/Lang/Define/Tests.antt =====
-- A run of a rule of two names on two nodes that face one another.
use inet_lisp.Base.{
  ℕ, zero, suc, ◌+◌, ◌≡◌, ◌≢◌, refl, [], ◌∷◌, true, false, none, some, get_elem?, arith,
}
use inet_lisp.Std.Array.{array_get}
use inet_lisp.Net.Ctor.{Name, NodeCtor, Rule}
use inet_lisp.Std.String.{string_equal}
use inet_lisp.Net.Heap.{
  Value, null, wire, principal_wire, Node, PrincipalWire, load_node, load_principal,
}
use inet_lisp.Core.Mod.{Mod, get_variable, load_ctor, load_function}
use inet_lisp.Core.Frame.{Frame}
use inet_lisp.Core.Frame.Laws.{variable}
use inet_lisp.Core.Worker.{Config, Worker}
use inet_lisp.Core.Worker.Node.ActivePair.{Stands}
use inet_lisp.Core.Worker.Run.{worker_run_until}
use inet_lisp.Core.Worker.Handle.{worker_handle_task_active_pair}
use inet_lisp.Lang.Compile.{
  function_new, function_add_opcode, compile_set_variable_list, hash_get_entry,
}
use inet_lisp.Lang.Compile.Binding.Run.{at}
use inet_lisp.Lang.Define.Fires.{rule_fires}

abbrev a : Name
a = b'a' ∷ []

abbrev b : Name
b = b'b' ∷ []

abbrev pair_ctor : NodeCtor
pair_ctor = record {
  name = [];
  arity = 2;
  port_infos =
      some (record { name = []; is_principal = true })
      ∷ some (record { name = []; is_principal = false })
      ∷ [];
  rule_array = [];
  primitive = none;
}

-- Its function sets a and b, and reads b.
abbrev two_names : Mod
two_names = record {
  value_hash = [];
  node_ctors = pair_ctor ∷ [];
  functions =
      function_add_opcode (compile_set_variable_list (function_new 2) (a ∷ b ∷ [])) (get_variable 0)
      ∷ [];
  primitives = [];
  apply_primitives = [];
}

abbrev rule_of_pair : Rule
rule_of_pair = record { left_node_ctor = 0; right_node_ctor = 0; function = 0 }

abbrev facing : ℕ → Node
facing i = record {
  ctor = some 0;
  id = i;
  is_allocated = true;
  value_array = record {
    size = 2;
    grow_step = 2;
    cursor = 2;
    values = principal_wire i ∷ wire i ∷ [];
  };
  primitive_arg_count = 0;
}

abbrev end_of : ℕ → ℕ → PrincipalWire
end_of n other = record { node = n; index = 0; oppsite = some other }

abbrev two_nodes : Worker
two_nodes = record {
  task_queue = [];
  value_stack = [];
  return_stack = [];
  nodes = record {
    pool = record { shared = record { stack = []; cache_size = 2 }; local = [] };
    heap = record {
      wires = some null ∷ some null ∷ [];
      principal_wires = some (end_of 0 1) ∷ some (end_of 1 0) ∷ [];
      nodes = facing 0 ∷ facing 1 ∷ [];
    };
  };
}

abbrev left_Stands : Stands two_names two_nodes.nodes.heap 0
unfolding load_node load_ctor
left_Stands = record {
  node = facing 0;
  c = 0;
  ctor = pair_ctor;
  loaded = refl;
  has_ctor = refl;
  defined = refl;
}

abbrev right_Stands : Stands two_names two_nodes.nodes.heap 1
unfolding load_node load_ctor
right_Stands = record {
  node = facing 1;
  c = 0;
  ctor = pair_ctor;
  loaded = refl;
  has_ctor = refl;
  defined = refl;
}

not_a_left_port : (i : ℕ) → get_elem? (principal_wire 0 ∷ wire 0 ∷ []) i ≢ some (principal_wire 1)
not_a_left_port zero e = cc
not_a_left_port (suc zero) e = cc
not_a_left_port (suc (suc i)) e = cc

abbrev config : Config
config = record { batch_size = 2; queue_size = 8 }

rule_fires_example :
    (s' : Worker) × (f' : Frame) × ((fuel : ℕ)
      → worker_handle_task_active_pair (fuel + 2) config two_names 0 1 rule_of_pair two_nodes
        ≡ worker_run_until fuel config two_names 0 (at s' f' [] []))
    × (s'.task_queue ≡ [])
    × (s'.nodes.heap.wires ≡ some null ∷ some null ∷ [])
    × ((i : ℕ) (name : Name) (v : Value)
        → get_elem? (a ∷ b ∷ []) i ≡ some name
        → get_elem? (wire 0 ∷ wire 1 ∷ []) i ≡ some v
        → (j : ℕ) × (hash_get_entry
              (compile_set_variable_list (function_new 2) (a ∷ b ∷ [])).local_index_hash
              name
            ≡ some j)
          × (variable f' j ≡ v))
unfolding load_principal left_Stands right_Stands array_get load_function function_add_opcode
    string_equal
rule_fires_example =
    rule_fires config two_names two_nodes 0 1 (end_of 0 1) (end_of 1 0) left_Stands right_Stands
      rule_of_pair
      (function_add_opcode (compile_set_variable_list (function_new 2) (a ∷ b ∷ []))
        (get_variable 0))
      2 (a ∷ b ∷ []) (get_variable 0) [] refl refl (λ e. omega arith) not_a_left_port refl refl
      ((refl, tt), (tt, tt)) refl
