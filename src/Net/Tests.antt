-- ===== src/Net/Tests.antt =====
-- Runs of net/wire.c and net/node_allocator.c.
use inet_lisp.Base.{ℕ, ◌≡◌, ◌≤◌, refl, [], ◌∷◌, some, ok, arith}
use inet_lisp.Net.Heap.{word, wire, Heap, load_fuzed}
use inet_lisp.Net.Wire.{walk}
use inet_lisp.Net.Wire.Walks.{Walks, non_wire, fuzed, walk-Walks, Walks-walk}
use inet_lisp.Net.NodeAllocator.{Nodes, allocate_loop}
use inet_lisp.Net.NodeAllocator.Laws.{HandsOut, allocate_loop_lem}

-- wire 1 is fuzed to wire 0, which is fuzed to a word
abbrev chain : Heap
chain = record { wires = some (word 9) ∷ some (wire 0) ∷ []; principal_wires = []; nodes = [] }

chain-Walks : Walks chain 3 (wire 1) (word 9)
unfolding load_fuzed
chain-Walks = fuzed 1 (wire 0) refl refl (fuzed 0 (word 9) refl refl (non_wire (word 9) refl))

walk-Walks_example : walk 5 chain (wire 1) ≡ ok (word 9)
walk-Walks_example = walk-Walks chain-Walks 5 (omega arith)

Walks-walk_example : (n : ℕ) × (n ≤ 5) × Walks chain n (wire 1) (word 9)
unfolding walk load_fuzed
Walks-walk_example = Walks-walk chain 5 (wire 1) refl

abbrev no_nodes : Nodes
no_nodes = record {
  pool = record { shared = record { stack = []; cache_size = 2 }; local = [] };
  heap = record { wires = []; principal_wires = []; nodes = [] };
}

allocate_loop_example :
    (n : ℕ) × (after : Nodes) × (allocate_loop 2 3 no_nodes ≡ ok (n, after))
    × HandsOut 3 no_nodes n after
allocate_loop_example = allocate_loop_lem 3 (omega arith) no_nodes (omega arith)
