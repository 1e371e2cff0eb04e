-- ===== src/Core/Connect/Tests.antt =====
-- Runs of core/connect.c on small heaps.
use inet_lisp.Base.{
  ℕ, suc, ◌+◌, ◌≡◌, ◌≢◌, refl, [], ◌∷◌, true, Option, none, some, ok, err, out_of_fuel, ◌>>=◌,
  arith,
}
use inet_lisp.Std.Array.{array_new, array_new_auto}
use inet_lisp.Std.Array.Laws.{array_new-IsValid}
use inet_lisp.Net.Ctor.{Rule, PortInfo, port_info, node_ctor_principal_port_count}
use inet_lisp.Net.Heap.{
  Value, null, word, wire, principal_wire, Heap, PrincipalWire, Node, load_fuzed, wire_destroy,
  load_principal, load_node,
}
use inet_lisp.Net.Wire.{walk}
use inet_lisp.Net.Wire.Walks.{Walks, non_wire, unfuzed, fuzed}
use inet_lisp.Core.Mod.{Mod, Task, primitive, load_ctor, node_ctor_pointer}
use inet_lisp.Core.Connect.{connect, collect_primitive_arg}
use inet_lisp.Core.Connect.Union.{connect_merges}
use inet_lisp.Core.Connect.Cycle.{connect_cycle}
use inet_lisp.Core.Connect.Edge.{connect_both_ends}
use inet_lisp.Core.Connect.Pair.{Linked, Chosen, connect_active_pair_lem}
use inet_lisp.Core.Connect.Args.{Awaiting, Collected, collect_primitive_arg_lem}
use inet_lisp.Core.Connect.Feed.{feed, feed_lem}
use inet_lisp.Core.Connect.Termination.{connect_ends}

abbrev no_mod : Mod
no_mod = record {
  value_hash = [];
  node_ctors = [];
  functions = [];
  primitives = [];
  apply_primitives = [];
}

-- a free wire, and one that is fuzed to a word
abbrev two_wires : Heap
two_wires = record { wires = some null ∷ some (word 9) ∷ []; principal_wires = []; nodes = [] }

connect_merges_example :
    (h' : Heap) × (connect 1 no_mod (wire 0) (wire 1) two_wires ≡ ok (none, h'))
    × ((k : ℕ) (u : Value) → Walks two_wires k u (wire 0) → Walks h' (k + 2) u (word 9))
    × ((k : ℕ) (u t : Value) → Walks two_wires k u t → t ≢ wire 0 → Walks h' k u t)
unfolding load_fuzed
connect_merges_example =
    connect_merges no_mod 0 two_wires 0 (wire 1) refl refl
      (fuzed 1 (word 9) refl refl (non_wire (word 9) refl)) (λ e. cc)

-- both ends of one wire
connect_cycle_example :
    (h' : Heap) × (connect 1 no_mod (wire 0) (wire 0) two_wires ≡ ok (none, h'))
    × ((fuel : ℕ) (r : Value) → walk fuel h' (wire 0) ≢ ok r)
unfolding load_fuzed
connect_cycle_example = connect_cycle two_wires 0 (wire 0) refl refl (unfuzed 0 refl) no_mod 0

connect_both_ends_example :
    (connect 3 no_mod (wire 0) (wire 1) two_wires >>= λ a. connect 3 no_mod (wire 0) (word 5) a.1)
    ≡ connect 2 no_mod (wire 1) (word 5) (wire_destroy two_wires 0)
unfolding load_fuzed
connect_both_ends_example = connect_both_ends no_mod 2 two_wires 0 (wire 1) (word 5) refl refl

connect_ends_example : connect 3 no_mod (wire 1) (wire 0) two_wires ≢ err out_of_fuel
connect_ends_example = connect_ends 3 no_mod (wire 1) (wire 0) two_wires (omega arith)

abbrev principal_port : Option PortInfo
principal_port = some (record { name = []; is_principal = true })

abbrev zero_add : Rule
zero_add = record { left_node_ctor = 0; right_node_ctor = 1; function = 0 }

-- zero, with one principal port; add, with a principal port; a primitive with two of them
abbrev numbers : Mod
numbers = record {
  value_hash = [];
  node_ctors =
      record {
        name = [];
        arity = 1;
        port_infos = principal_port ∷ [];
        rule_array = zero_add ∷ [];
        primitive = none;
      }
      ∷ record {
        name = [];
        arity = 1;
        port_infos = principal_port ∷ [];
        rule_array = zero_add ∷ [];
        primitive = none;
      }
      ∷ record {
        name = [];
        arity = 2;
        port_infos = principal_port ∷ principal_port ∷ [];
        rule_array = [];
        primitive = some 0;
      }
      ∷ [];
  functions = [];
  primitives = [];
  apply_primitives = [];
}

abbrev node_of : ℕ → Node
node_of c = record {
  ctor = some c;
  id = c + 1;
  is_allocated = true;
  value_array = array_new_auto null;
  primitive_arg_count = 0;
}

abbrev port_of : ℕ → ℕ → PrincipalWire
port_of n i = record { node = n; index = i; oppsite = none }

abbrev three_nodes : Heap
three_nodes = record {
  wires = [];
  principal_wires =
      some (port_of 0 0) ∷ some (port_of 1 0) ∷ some (port_of 2 0) ∷ some (port_of 2 1) ∷ [];
  nodes = node_of 0 ∷ node_of 1 ∷ node_of 2 ∷ [];
}

connect_active_pair_example :
    (task : Option Task) × (h' : Heap) × ((f : ℕ)
      → connect (suc f) numbers (principal_wire 1) (principal_wire 0) three_nodes ≡ ok (task, h'))
    × Linked three_nodes h' 1 0 (port_of 1 0) (port_of 0 0)
    × Chosen 1 1 0 0 (zero_add ∷ zero_add ∷ []) task
unfolding load_principal node_ctor_pointer load_node load_ctor
connect_active_pair_example =
    connect_active_pair_lem numbers three_nodes 1 0 (port_of 1 0) (port_of 0 0) refl refl 1 0
      (record {
        name = [];
        arity = 1;
        port_infos = principal_port ∷ [];
        rule_array = zero_add ∷ [];
        primitive = none;
      })
      (record {
        name = [];
        arity = 1;
        port_infos = principal_port ∷ [];
        rule_array = zero_add ∷ [];
        primitive = none;
      })
      refl refl refl refl

awaiting_two : Awaiting numbers three_nodes 2 2 0
unfolding load_node load_ctor node_ctor_principal_port_count port_info array_new_auto array_new
awaiting_two = record {
  node = node_of 2;
  c = 2;
  ctor = record {
    name = [];
    arity = 2;
    port_infos = principal_port ∷ principal_port ∷ [];
    rule_array = [];
    primitive = some 0;
  };
  p = 0;
  stands = refl;
  has_ctor = refl;
  defined = refl;
  is_primitive = refl;
  ports = refl;
  counted = refl;
  valid = array_new-IsValid null 64 (omega arith);
}

collect_primitive_arg_example :
    (task : Option Task) × (h' : Heap) × (collect_primitive_arg numbers 3 (word 7) three_nodes
      ≡ ok (task, h'))
    × Collected numbers three_nodes h' 3 2 1 2 0 (word 7) awaiting_two task
unfolding load_principal
collect_primitive_arg_example =
    collect_primitive_arg_lem numbers three_nodes 2 2 0 awaiting_two 3 (port_of 2 1) (word 7) refl
      refl

feed_example :
    (h' : Heap) × (feed numbers ((3, word 7) ∷ (2, word 8) ∷ []) three_nodes
      ≡ ok (none ∷ some (primitive 2) ∷ [], h'))
unfolding load_principal
feed_example =
    feed_lem numbers three_nodes 2 2 0 3 (word 7) ((2, word 8) ∷ []) awaiting_two
      ((port_of 2 1, refl, refl), ((λ e. omega arith), tt), ((port_of 2 0, refl, refl), tt, tt))
      refl
