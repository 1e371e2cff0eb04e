-- ===== src/Core/Worker/Node/ActivePair.antt =====
-- core/worker_handle_task.c, the two nodes of an active pair.
use mathlib.Core.List.{Perm}
use mathlib.Core.List.Perm
use inet_lisp.Base.{
  reverse_onto, reverse_onto-append, ℕ, ◌≡◌, ◌≢◌, refl, sym, ap, ◌∙◌, subst, List, [], ◌∷◌, ◌++◌,
  Option, some, get_elem?, Result, ok,
}
use inet_lisp.Base
use inet_lisp.Std.Allocator.Laws.{free_values}
use inet_lisp.Net.Ctor.{NodeCtor, Rule}
use inet_lisp.Net.Heap.{Value, principal_wire, Heap, Node, PrincipalWire, load_node, load_principal}
use inet_lisp.Core.Mod.{Mod, load_ctor}
use inet_lisp.Core.Frame.{frame_new}
use inet_lisp.Core.Worker.{Config, Worker, push_frame}
use inet_lisp.Core.Worker.Node.{worker_disconnect_node}
use inet_lisp.Core.Worker.Node.Disconnect.{port_values, auxiliary, worker_disconnect_node_lem}
use inet_lisp.Core.Worker.Run.{worker_run_until}
use inet_lisp.Core.Worker.Handle.{worker_handle_task_active_pair}

-- A node that stands, with its constructor.
pub record Stands (m : Mod) (h : Heap) (n : ℕ) : Type 0 where
  pub node : Node
  pub c : ℕ
  pub ctor : NodeCtor
  pub loaded : load_node h n ≡ ok node
  pub has_ctor : node.ctor ≡ some c
  pub defined : load_ctor m c ≡ ok ctor

-- what the ports of a standing node hold
abbrev pub ports : {m : Mod} {h : Heap} {n : ℕ} → Stands m h n → List Value
ports x = port_values x.node x.ctor.arity 0

module _ (cfg : Config) (m : Mod) (s : Worker) (left right : ℕ) (l r : PrincipalWire) where
  handle-run :
      (s₁ s₂ : Worker) (fuel : ℕ) (rule : Rule)
      → load_principal s.nodes.heap left ≡ ok l
      → worker_disconnect_node m l.node s ≡ ok (tt, s₁)
      → load_principal s₁.nodes.heap right ≡ ok r
      → worker_disconnect_node m r.node s₁ ≡ ok (tt, s₂)
      → worker_handle_task_active_pair fuel cfg m left right rule s
        ≡ worker_run_until fuel cfg m
            (Base.length s₂.return_stack)
            (record s₂ { return_stack = frame_new rule.function ∷ s₂.return_stack })
  unfolding worker_handle_task_active_pair push_frame
  handle-run s₁ s₂ fuel rule e p q t = rw (e, p, q, t) refl

  -- Two principal wires of different nodes that stand, the right one at none of the left node's
  -- ports: handling their pair comes down to running the rule's function in a new frame, over the
  -- frames that were there. The value stack then holds the auxiliary ports of the left node and
  -- then those of the right, in order, the last on top; both nodes are free.
  pub active_pair_lem :
      (x : Stands m s.nodes.heap l.node) (y : Stands m s.nodes.heap r.node)
      → load_principal s.nodes.heap left ≡ ok l
      → load_principal s.nodes.heap right ≡ ok r
      → l.node ≢ r.node
      → ((i : ℕ) → get_elem? (ports x) i ≢ some (principal_wire right))
      → (s' : Worker) × ((fuel : ℕ) (rule : Rule)
          → worker_handle_task_active_pair fuel cfg m left right rule s
            ≡ worker_run_until fuel cfg m
                (Base.length s.return_stack)
                (record s' { return_stack = frame_new rule.function ∷ s.return_stack }))
        × (s'.value_stack ≡ reverse_onto (auxiliary (ports x) ++ auxiliary (ports y)) s.value_stack)
        × (s'.task_queue ≡ s.task_queue)
        × (s'.nodes.heap.wires ≡ s.nodes.heap.wires)
        × Perm (free_values s'.nodes.pool) (r.node ∷ l.node ∷ free_values s.nodes.pool)
  active_pair_lem x y el er ne apart =
      let (s₁, p, a) =
        worker_disconnect_node_lem m l.node x.c x.node x.ctor x.has_ctor x.defined s x.loaded in
      let (s₂, q, b) =
        worker_disconnect_node_lem m r.node y.c y.node y.ctor y.has_ctor y.defined s₁
          (a.others r.node ne ∙ y.loaded) in
      (
        s₂,
        λ fuel rule.
            handle-run s₁ s₂ fuel rule el p (a.kept right apart ∙ er) q
            ∙ ap
                (λ frames.
                  worker_run_until fuel cfg m (Base.length frames)
                    (record s₂ { return_stack = frame_new rule.function ∷ frames }))
                (b.frames ∙ a.frames),
        b.stack
            ∙ (ap (reverse_onto (auxiliary (ports y))) a.stack
                ∙ reverse_onto-append (auxiliary (ports x)) (auxiliary (ports y)) s.value_stack),
        b.tasks ∙ a.tasks,
        b.wires ∙ a.wires,
        Perm.trans b.free (Perm.cons r.node a.free),
      )
