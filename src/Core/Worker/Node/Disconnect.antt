-- ===== src/Core/Worker/Node/Disconnect.antt =====
-- core/worker_disconnect_node.c: what a node leaves on the value stack when it is taken apart.
use mathlib.Core.List.{Perm}
use inet_lisp.Base.{
  reverse_onto, ℕ, zero, suc, ◌+◌, ◌≡◌, ◌≢◌, refl, sym, ap, ◌∙◌, subst, List, [], ◌∷◌, ◌++◌, true,
  false, ◌==◌, if◌then◌else◌, Option, none, some, get_elem?, set, get_elem?-set_ne, length, Result,
  ok, err, dangling, check, arith, ℕ_discrete,
}
use inet_lisp.Base
use inet_lisp.Std.Array.{array_get}
use inet_lisp.Std.Allocator.Laws.{free_values, allocator_recycle_lem}
use inet_lisp.Net.Ctor.{NodeCtor}
use inet_lisp.Net.Heap.{
  Value, null, word, wire, principal_wire, node_ctor, function, primitive, Heap, Node, load_node,
  store_node, node_clean, node_get_value, load_principal, principal_wire_destroy,
}
use inet_lisp.Net.Heap.Laws.{load_node-store_node}
use inet_lisp.Net.NodeAllocator.{node_allocator_recycle}
use inet_lisp.Core.Mod.{Mod, load_ctor, node_ctor_pointer}
use inet_lisp.Core.Worker.{Worker, worker_recycle_node, push_value}
use inet_lisp.Core.Worker.Node.Freed.{
  free_principals, free_principals-nodes, free_principals-wires, free_principals-gone,
  free_principals-kept,
}
use inet_lisp.Core.Worker.Node.{
  disconnect_value, disconnect_ports, node_ctor_of, worker_disconnect_node,
}

-- what the ports of a node hold, a number of them from an index on
abbrev pub port_values : Node → ℕ → ℕ → List Value
port_values node zero index = []
port_values node (suc count) index =
    array_get null node.value_array index ∷ port_values node count (index + 1)

-- the values among them that are no principal wires
abbrev pub auxiliary : List Value → List Value
auxiliary [] = []
auxiliary (principal_wire p ∷ values) = auxiliary values
auxiliary (v ∷ values) = v ∷ auxiliary values

-- The worker after the values of some ports have been taken.
abbrev pub taken : List Value → Worker → Worker
taken values s = record s {
  value_stack = reverse_onto (auxiliary values) s.value_stack;
  nodes = record s.nodes { heap = free_principals values s.nodes.heap };
}

disconnect_value_lem : (v : Value) (s : Worker) → disconnect_value v s ≡ ok (tt, taken (v ∷ []) s)
unfolding push_value principal_wire_destroy
disconnect_value_lem null s = refl
disconnect_value_lem (word n) s = refl
disconnect_value_lem (wire w) s = refl
disconnect_value_lem (principal_wire p) s = refl
disconnect_value_lem (node_ctor c) s = refl
disconnect_value_lem (function f) s = refl
disconnect_value_lem (primitive p) s = refl

taken-taken :
    (v : Value) (values : List Value) (s : Worker)
    → taken values (taken (v ∷ []) s) ≡ taken (v ∷ values) s
taken-taken null values s = refl
taken-taken (word n) values s = refl
taken-taken (wire w) values s = refl
taken-taken (principal_wire p) values s = refl
taken-taken (node_ctor c) values s = refl
taken-taken (function f) values s = refl
taken-taken (primitive p) values s = refl

load_node-taken :
    (values : List Value) (s : Worker) (n : ℕ)
    → load_node (taken values s).nodes.heap n ≡ load_node s.nodes.heap n
unfolding load_node
load_node-taken values s n =
    ap (λ nodes. Base.deref (get_elem? nodes n)) (free_principals-nodes values s.nodes.heap)

module _ (n c : ℕ) (node : Node) (has_ctor : node.ctor ≡ some c) where
  node_get_value_lem :
      (h : Heap) (index : ℕ)
      → load_node h n ≡ ok node
      → node_get_value h n index ≡ ok (array_get null node.value_array index)
  unfolding node_get_value
  node_get_value_lem h index e = rw (e, has_ctor) refl

  disconnect_ports_lem :
      (count index : ℕ) (s : Worker)
      → load_node s.nodes.heap n ≡ ok node
      → disconnect_ports n count index s ≡ ok (tt, taken (port_values node count index) s)
  unfolding disconnect_ports
  disconnect_ports_lem zero index s e = refl
  disconnect_ports_lem (suc count) index s e =
      let v = array_get null node.value_array index in
      let rest =
        disconnect_ports_lem count (index + 1) (taken (v ∷ []) s)
          (load_node-taken (v ∷ []) s n ∙ e) in
      rw (node_get_value_lem s.nodes.heap index e, disconnect_value_lem v s)
        (rest ∙ ap (λ x. ok (tt, x)) (taken-taken v (port_values node count (index + 1)) s))

  -- The node goes back to the free nodes, and nothing else of the worker changes.
  abbrev pub Recycled : Worker → Worker → Type 0
  Recycled s s' =
      (s'.value_stack ≡ s.value_stack)
      × (s'.return_stack ≡ s.return_stack)
      × (s'.task_queue ≡ s.task_queue)
      × (s'.nodes.heap.wires ≡ s.nodes.heap.wires)
      × (s'.nodes.heap.principal_wires ≡ s.nodes.heap.principal_wires)
      × ((k : ℕ) → n ≢ k → load_node s'.nodes.heap k ≡ load_node s.nodes.heap k)
      × Perm (free_values s'.nodes.pool) (n ∷ free_values s.nodes.pool)

  worker_recycle_node_lem :
      (s : Worker)
      → load_node s.nodes.heap n ≡ ok node
      → (s' : Worker) × (worker_recycle_node n s ≡ ok (tt, s')) × Recycled s s'
  unfolding worker_recycle_node node_allocator_recycle store_node
  worker_recycle_node_lem s e =
      let h₁ = store_node s.nodes.heap n (node_clean node) in
      let e₁ : load_node h₁ n ≡ ok (node_clean node) =
        ground (arith, load_node-store_node s.nodes.heap n n (node_clean node) e) in
      let (pool, r, perm, same) = allocator_recycle_lem s.nodes.pool n in
      let h₂ = store_node h₁ n (node_clean (node_clean node)) in
      (
        record s { nodes = record { pool = pool; heap = h₂ } },
        rw (e, e₁, r) refl,
        (
          refl,
          refl,
          refl,
          refl,
          refl,
          λ k ne. ground (
            arith,
            load_node-store_node s.nodes.heap n k (node_clean node) e,
            load_node-store_node h₁ n k (node_clean (node_clean node)) e₁,
          ),
          perm,
        ),
      )

-- What taking a node apart does: the values of its auxiliary ports go on the value stack in the
-- order of the ports, its principal wires are freed, and the node is free again.
pub record Disconnected (s s' : Worker) (n : ℕ) (values : List Value) : Type 0 where
  pub stack : s'.value_stack ≡ reverse_onto (auxiliary values) s.value_stack
  pub frames : s'.return_stack ≡ s.return_stack
  pub tasks : s'.task_queue ≡ s.task_queue
  pub wires : s'.nodes.heap.wires ≡ s.nodes.heap.wires
  pub gone :
      (i p : ℕ)
      → get_elem? values i ≡ some (principal_wire p)
      → load_principal s'.nodes.heap p ≡ err dangling
  pub kept :
      (p : ℕ)
      → ((i : ℕ) → get_elem? values i ≢ some (principal_wire p))
      → load_principal s'.nodes.heap p ≡ load_principal s.nodes.heap p
  pub others : (k : ℕ) → n ≢ k → load_node s'.nodes.heap k ≡ load_node s.nodes.heap k
  pub free : Perm (free_values s'.nodes.pool) (n ∷ free_values s.nodes.pool)

load_principal_eq :
    (h h' : Heap) (p : ℕ)
    → h'.principal_wires ≡ h.principal_wires
    → load_principal h' p ≡ load_principal h p
unfolding load_principal
load_principal_eq h h' p e = rw e refl

module _ (m : Mod) (n c : ℕ) (node : Node) (ctor : NodeCtor) (has_ctor : node.ctor ≡ some c)
    (defined : load_ctor m c ≡ ok ctor) where
  node_ctor_of_lem :
      (s : Worker) → load_node s.nodes.heap n ≡ ok node → node_ctor_of m n s ≡ ok (ctor, s)
  unfolding node_ctor_of node_ctor_pointer
  node_ctor_of_lem s e = rw (e, has_ctor, defined) refl

  -- A node with a constructor is taken apart, whatever its ports hold: the values of its auxiliary
  -- ports go on the value stack in the order of the ports, exactly its principal wires are freed,
  -- and the node joins the free nodes. Other nodes, the wires, the frames and the tasks stay.
  pub worker_disconnect_node_lem :
      (s : Worker)
      → load_node s.nodes.heap n ≡ ok node
      → (s' : Worker) × (worker_disconnect_node m n s ≡ ok (tt, s'))
        × Disconnected s s' n (port_values node ctor.arity 0)
  unfolding worker_disconnect_node
  worker_disconnect_node_lem s e =
      let values = port_values node ctor.arity 0 in
      let s₁ = taken values s in
      let (s', r, (stack, frames, tasks, wires, principals, others, perm)) =
        worker_recycle_node_lem n c node has_ctor s₁ (load_node-taken values s n ∙ e) in
      (
        s',
        rw (node_ctor_of_lem s e, disconnect_ports_lem n c node has_ctor ctor.arity 0 s e) r,
        record {
          stack = stack;
          frames = frames;
          tasks = tasks;
          wires = wires ∙ free_principals-wires values s.nodes.heap;
          gone = λ i p q.
              load_principal_eq s₁.nodes.heap s'.nodes.heap p principals
              ∙ free_principals-gone values s.nodes.heap i p q;
          kept = λ p k.
              load_principal_eq s₁.nodes.heap s'.nodes.heap p principals
              ∙ free_principals-kept values s.nodes.heap p k;
          others = λ k ne. others k ne ∙ load_node-taken values s k;
          free = perm;
        },
      )
