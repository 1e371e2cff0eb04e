-- ===== src/Core/Worker.antt =====
-- core/worker.h, core/worker.c, core/worker_add_task.c, core/worker_next_task.c,
-- core/worker_connect.c: the state of a worker and its basic operations, for one thread.
-- The value stack and the return stack are lists, last pushed first (Std.Stack.Refine); the task
-- queue is a list, front first, that holds at most `queue_size` tasks (Std.Queue).
pub mod Node
pub mod Apply
pub mod Run
pub mod Handle
pub mod Grows
mod Tests
use inet_lisp.Base.{
  ℕ, zero, suc, ◌+◌, ◌-◌, List, [], ◌∷◌, ◌++◌, Bool, true, false, ltb, leb, ◌==◌, if◌then◌else◌,
  Option, none, some, length, Result, ok, err, Error, assertion_failed, check, deref,
}
use inet_lisp.Base
use inet_lisp.Std.Allocator.{Allocator}
use inet_lisp.Net.Heap.{Value, Heap, load_node, store_node, node_clean}
use inet_lisp.Net.NodeAllocator.{Nodes, node_allocator_allocate, node_allocator_recycle}
use inet_lisp.Core.Mod.{Mod, Task}
use inet_lisp.Core.Connect.{connect}
use inet_lisp.Core.Frame.{Frame}

-- The constants of config.h.
pub record Config : Type 0 where
  pub batch_size : ℕ
  pub queue_size : ℕ

-- `worker_t`, with the heap and the shared part of the node allocator.
pub record Worker : Type 0 where
  pub task_queue : List Task
  pub value_stack : List Value
  pub return_stack : List Frame
  pub nodes : Nodes

-- Stateful code that may stop.
abbrev pub M : Type 0 → Type 0
M A = Worker → Result (A × Worker)

abbrev pub pure : {A : Type 0} → A → M A
pure a s = ok (a, s)

infixl 5 ◌>>=◌ ◌>>◌
abbrev pub ◌>>=◌ : {A B : Type 0} → M A → (A → M B) → M B
◌>>=◌ m f s = Base.◌>>=◌ (m s) (λ r. f r.0 r.1)

abbrev pub ◌>>◌ : {B : Type 0} → M (Unit {0}) → M B → M B
m >> k = m >>= λ _. k

-- a computation that reads nothing of the worker
abbrev pub lift : {A : Type 0} → Result A → M A
lift r s = Base.◌>>=◌ r (λ a. ok (a, s))

abbrev pub get_heap : M Heap
get_heap s = ok (s.nodes.heap, s)

abbrev pub put_heap : Heap → M (Unit {0})
put_heap h s = ok (tt, record s { nodes = record s.nodes { heap = h } })

abbrev pub on_heap : {A : Type 0} → (Heap → Result (A × Heap)) → M A
on_heap f s =
    Base.◌>>=◌ (f s.nodes.heap) (λ r. ok (r.0, record s { nodes = record s.nodes { heap = r.1 } }))

unfoldable pub pop_value : M Value
pop_value s = elim s.value_stack [
  | [] ↦ err assertion_failed
  | v ∷ rest ↦ ok (v, record s { value_stack = rest })
]

unfoldable pub push_value : Value → M (Unit {0})
push_value v s = ok (tt, record s { value_stack = v ∷ s.value_stack })

unfoldable pub push_frame : Frame → M (Unit {0})
push_frame f s = ok (tt, record s { return_stack = f ∷ s.return_stack })

-- The result of `queue_push_back` is not looked at: a task that finds the queue full is dropped.
unfoldable pub worker_add_task : Config → Task → M (Unit {0})
worker_add_task cfg task s = ok (
  tt,
  if length s.task_queue == cfg.queue_size
      then s
      else record s { task_queue = s.task_queue ++ task ∷ [] },
)

abbrev pub worker_add_task_maybe : Config → Option Task → M (Unit {0})
worker_add_task_maybe cfg none = pure tt
worker_add_task_maybe cfg (some task) = worker_add_task cfg task

-- `worker_offer_task` is the same code.
unfoldable pub worker_next_task : M (Option Task)
worker_next_task s = elim s.task_queue [
  | [] ↦ ok (none, s)
  | task ∷ rest ↦ ok (some task, record s { task_queue = rest })
]

-- Fuel for `connect`: there are no more live wires than wires (Core.Connect.Termination).
abbrev pub run_connect : Mod → Value → Value → M (Option Task)
run_connect m left right = on_heap (λ h. connect (suc (length h.wires)) m left right h)

unfoldable pub worker_connect : Config → Mod → Value → Value → M (Unit {0})
worker_connect cfg m left right = do task ← run_connect m left right; worker_add_task_maybe cfg task

unfoldable pub worker_new_node : Config → ℕ → M ℕ
worker_new_node cfg ctor s =
    Base.◌>>=◌ (node_allocator_allocate cfg.batch_size s.nodes) λ (n, nodes).
      Base.◌>>=◌ (load_node nodes.heap n) λ node. ok (
        n,
        record s {
          nodes = record nodes {
            heap = store_node nodes.heap n (record node { ctor = some ctor });
          };
        },
      )

-- The node is cleaned here, and once more by the allocator.
unfoldable pub worker_recycle_node : ℕ → M (Unit {0})
worker_recycle_node n s = Base.◌>>=◌ (load_node s.nodes.heap n) λ node.
    let cleaned = record s.nodes { heap = store_node s.nodes.heap n (node_clean node) } in
    Base.◌>>=◌ (node_allocator_recycle cleaned n) λ nodes. ok (tt, record s { nodes = nodes })
