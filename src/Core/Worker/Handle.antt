-- ===== src/Core/Worker/Handle.antt =====
-- core/worker_handle_task.c, core/worker_work_sequentially.c.
use inet_lisp.Base.{
  ℕ, zero, suc, ◌+◌, ◌-◌, Bool, true, false, if◌then◌else◌, Option, none, some, length, Result, ok,
  err, out_of_fuel, assertion_failed, check, deref,
}
use inet_lisp.Base
use inet_lisp.Net.Ctor.{Rule}
use inet_lisp.Net.Heap.{is_wire, load_principal, node_get_value}
use inet_lisp.Core.Mod.{Mod, Task, active_pair, primitive, load_primitive}
use inet_lisp.Core.Connect.{node_is_primitive}
use inet_lisp.Core.Frame.{frame_new}
use inet_lisp.Core.Worker.{
  Config, M, pure, ◌>>=◌, ◌>>◌, lift, get_heap, pop_value, push_value, push_frame, worker_connect,
  worker_next_task, worker_recycle_node,
}
use inet_lisp.Core.Worker.Node.{worker_disconnect_node, node_ctor_of}
use inet_lisp.Core.Worker.Apply.{worker_apply, worker_apply_primitive}
use inet_lisp.Core.Worker.Run.{apply_fuel, worker_run_until}

-- `stack_length (worker->return_stack)`
abbrev pub return_stack_length : M ℕ
return_stack_length s = ok (length s.return_stack, s)

unfoldable pub worker_handle_task_active_pair : ℕ → Config → Mod → ℕ → ℕ → Rule → M (Unit {0})
worker_handle_task_active_pair fuel cfg m left right rule = do
  h ← get_heap
  l ← lift (load_principal h left)
  worker_disconnect_node m l.node
  h' ← get_heap
  r ← lift (load_principal h' right)
  worker_disconnect_node m r.node
  return_stack_base ← return_stack_length
  push_frame (frame_new rule.function)
  worker_run_until fuel cfg m return_stack_base

-- The loop that pushes the arguments, with `count` rounds left, at a port.
unfoldable pub push_arguments : ℕ → ℕ → ℕ → M (Unit {0})
push_arguments n zero index = pure tt
push_arguments n (suc count) index = do
  h ← get_heap
  value ← lift (node_get_value h n index)
  push_value value
  push_arguments n count (index + 1)

-- The loop that connects the results, with `count` rounds left, at the port before a number.
unfoldable pub connect_results : Config → Mod → ℕ → ℕ → ℕ → M (Unit {0})
connect_results cfg m n zero arity = pure tt
connect_results cfg m n (suc count) arity = do
  h ← get_heap
  value ← lift (node_get_value h n (arity - 1))
  lift (check (is_wire value))
  result ← pop_value
  worker_connect cfg m value result
  connect_results cfg m n count (arity - 1)

unfoldable pub worker_handle_task_primitive : ℕ → Config → Mod → ℕ → M (Unit {0})
unfolding push_arguments connect_results
worker_handle_task_primitive fuel cfg m n = do
  h ← get_heap
  is_primitive ← lift (node_is_primitive m h n)
  lift (check is_primitive)
  ctor ← node_ctor_of m n
  p ← lift (deref ctor.primitive)
  callee ← lift (load_primitive m p)
  push_arguments n callee.input_arity 0
  return_stack_base ← return_stack_length
  worker_apply_primitive cfg m (worker_apply apply_fuel cfg m) callee.primitive_fn
  worker_run_until fuel cfg m return_stack_base
  connect_results cfg m n callee.output_arity (callee.input_arity + callee.output_arity)
  worker_recycle_node n

unfoldable pub worker_handle_task : ℕ → Config → Mod → Task → M (Unit {0})
unfolding worker_handle_task_active_pair worker_handle_task_primitive
worker_handle_task fuel cfg m (active_pair left right rule) =
    worker_handle_task_active_pair fuel cfg m left right rule
worker_handle_task fuel cfg m (primitive n) = worker_handle_task_primitive fuel cfg m n

-- The `while (true)` loop, on fuel.
unfoldable pub worker_work_sequentially : ℕ → ℕ → Config → Mod → M (Unit {0})
unfolding worker_handle_task worker_next_task
worker_work_sequentially zero fuel cfg m s = err out_of_fuel
worker_work_sequentially (suc rounds) fuel cfg m s = Base.◌>>=◌ (worker_next_task s) λ r. elim r.0 [
  | none ↦ ok (tt, r.1)
  | some task ↦
      Base.◌>>=◌ (worker_handle_task fuel cfg m task r.1)
        (λ t. worker_work_sequentially rounds fuel cfg m t.1)
]
