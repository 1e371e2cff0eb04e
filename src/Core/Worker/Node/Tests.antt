-- ===== src/Core/Worker/Node/Tests.antt =====
-- Runs of core/worker_disconnect_node.c on two nodes that face one another.
use mathlib.Core.List.{Perm}
use inet_lisp.Base.{
  ℕ, zero, suc, ◌≡◌, ◌≢◌, refl, [], ◌∷◌, true, false, none, some, get_elem?, ok, arith,
}
use inet_lisp.Std.Array.{array_get}
use inet_lisp.Std.Allocator.Laws.{free_values}
use inet_lisp.Net.Ctor.{NodeCtor, Rule}
use inet_lisp.Net.Heap.{null, wire, principal_wire, Node, PrincipalWire, load_node, load_principal}
use inet_lisp.Core.Mod.{Mod, load_ctor}
use inet_lisp.Core.Frame.{frame_new}
use inet_lisp.Core.Worker.{Config, Worker}
use inet_lisp.Core.Worker.Node.{worker_disconnect_node}
use inet_lisp.Core.Worker.Node.Disconnect.{Disconnected, worker_disconnect_node_lem}
use inet_lisp.Core.Worker.Node.ActivePair.{Stands, active_pair_lem}
use inet_lisp.Core.Worker.Run.{worker_run_until}
use inet_lisp.Core.Worker.Handle.{worker_handle_task_active_pair}

abbrev pair_ctor : NodeCtor
pair_ctor = record {
  name = [];
  arity = 2;
  port_infos =
      some (record { name = []; is_principal = true })
      ∷ some (record { name = []; is_principal = false })
      ∷ [];
  rule_array = [];
  primitive = none;
}

abbrev pair_mod : Mod
pair_mod = record {
  value_hash = [];
  node_ctors = pair_ctor ∷ [];
  functions = [];
  primitives = [];
  apply_primitives = [];
}

abbrev facing : ℕ → Node
facing i = record {
  ctor = some 0;
  id = i;
  is_allocated = true;
  value_array = record {
    size = 2;
    grow_step = 2;
    cursor = 2;
    values = principal_wire i ∷ wire i ∷ [];
  };
  primitive_arg_count = 0;
}

abbrev end_of : ℕ → ℕ → PrincipalWire
end_of n other = record { node = n; index = 0; oppsite = some other }

abbrev two_nodes : Worker
two_nodes = record {
  task_queue = [];
  value_stack = [];
  return_stack = [];
  nodes = record {
    pool = record { shared = record { stack = []; cache_size = 2 }; local = [] };
    heap = record {
      wires = some null ∷ some null ∷ [];
      principal_wires = some (end_of 0 1) ∷ some (end_of 1 0) ∷ [];
      nodes = facing 0 ∷ facing 1 ∷ [];
    };
  };
}

worker_disconnect_node_example :
    (s' : Worker) × (worker_disconnect_node pair_mod 1 two_nodes ≡ ok (tt, s'))
    × Disconnected two_nodes s' 1 (principal_wire 1 ∷ wire 1 ∷ [])
unfolding load_node load_ctor array_get
worker_disconnect_node_example =
    worker_disconnect_node_lem pair_mod 1 0 (facing 1) pair_ctor refl refl two_nodes refl

abbrev left_Stands : Stands pair_mod two_nodes.nodes.heap 0
unfolding load_node load_ctor
left_Stands = record {
  node = facing 0;
  c = 0;
  ctor = pair_ctor;
  loaded = refl;
  has_ctor = refl;
  defined = refl;
}

abbrev right_Stands : Stands pair_mod two_nodes.nodes.heap 1
unfolding load_node load_ctor
right_Stands = record {
  node = facing 1;
  c = 0;
  ctor = pair_ctor;
  loaded = refl;
  has_ctor = refl;
  defined = refl;
}

not_a_left_port : (i : ℕ) → get_elem? (principal_wire 0 ∷ wire 0 ∷ []) i ≢ some (principal_wire 1)
not_a_left_port zero e = cc
not_a_left_port (suc zero) e = cc
not_a_left_port (suc (suc i)) e = cc

abbrev config : Config
config = record { batch_size = 2; queue_size = 8 }

active_pair_example :
    (s' : Worker) × ((fuel : ℕ) (rule : Rule)
      → worker_handle_task_active_pair fuel config pair_mod 0 1 rule two_nodes
        ≡ worker_run_until fuel config pair_mod 0
            (record s' { return_stack = frame_new rule.function ∷ [] }))
    × (s'.value_stack ≡ wire 1 ∷ wire 0 ∷ [])
    × (s'.task_queue ≡ [])
    × (s'.nodes.heap.wires ≡ some null ∷ some null ∷ [])
    × Perm (free_values s'.nodes.pool) (1 ∷ 0 ∷ [])
unfolding load_principal left_Stands right_Stands array_get
active_pair_example =
    active_pair_lem config pair_mod two_nodes 0 1 (end_of 0 1) (end_of 1 0) left_Stands right_Stands
      refl refl (λ e. omega arith) not_a_left_port
