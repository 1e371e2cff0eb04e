-- ===== src/Net/NodeAllocator.antt =====
-- net/node_allocator.c: nodes are made in batches, handed out and recycled. `node_array` is the list
-- of nodes of the heap; a node's `id` is its index plus one, as `++self->node_count` gives it.
pub mod Laws
use inet_lisp.Base.{
  ℕ, zero, suc, ◌+◌, List, [], ◌∷◌, ◌++◌, true, Option, none, some, length, Result, ok, err,
  out_of_fuel, ◌>>=◌,
}
use inet_lisp.Std.Allocator.{Allocator, Pool, allocator_maybe_allocate, allocator_recycle}
use inet_lisp.Net.Heap.{Heap, Node, node_new, node_clean, load_node, store_node}

-- The allocator with the heap that holds its nodes, and the calling thread's free nodes.
pub record Nodes : Type 0 where
  pub pool : Pool ℕ
  pub heap : Heap

-- the loop of `prepare_one_batch_of_nodes`, with `n` rounds left
unfoldable pub prepare_nodes : ℕ → List ℕ → Heap → List ℕ × Heap
prepare_nodes zero stack h = (stack, h)
prepare_nodes (suc n) stack h =
    prepare_nodes n (length h.nodes ∷ stack)
      (record h { nodes = h.nodes ++ node_new (length h.nodes + 1) ∷ [] })

unfoldable pub prepare_one_batch_of_nodes : ℕ → Nodes → Nodes
unfolding prepare_nodes
prepare_one_batch_of_nodes batch_size self =
    let (stack, heap) = prepare_nodes batch_size self.pool.shared.stack self.heap in
    record {
      pool = record self.pool { shared = record self.pool.shared { stack = stack } };
      heap = heap;
    }

-- The `while` loop, on fuel: a batch follows an empty pool, so two rounds are taken at most.
unfoldable pub allocate_loop : ℕ → ℕ → Nodes → Result (ℕ × Nodes)
unfolding allocator_maybe_allocate prepare_one_batch_of_nodes
allocate_loop zero batch_size self = err out_of_fuel
allocate_loop (suc fuel) batch_size self =
    let (node, pool) = allocator_maybe_allocate self.pool in
    let again =
      allocate_loop fuel batch_size
        (prepare_one_batch_of_nodes batch_size (record self { pool = pool })) in
    elim node [ some n ↦ ok (n, record self { pool = pool }) | none ↦ again ]

unfoldable pub node_allocator_allocate : ℕ → Nodes → Result (ℕ × Nodes)
unfolding allocate_loop
node_allocator_allocate batch_size self = do
  (n, after) ← allocate_loop 2 batch_size self
  node ← load_node after.heap n
  ok (n, record after { heap = store_node after.heap n (record node { is_allocated = true }) })

unfoldable pub node_allocator_recycle : Nodes → ℕ → Result Nodes
unfolding allocator_recycle
node_allocator_recycle self n = do
  node ← load_node self.heap n
  let heap = store_node self.heap n (node_clean node)
  pool ← allocator_recycle self.pool n
  ok (record { pool = pool; heap = heap })
