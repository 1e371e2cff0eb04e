-- ===== src/Core/Worker/Node.antt =====
-- core/worker_reconnect_node.c, core/worker_disconnect_node.c: the ports of a node and the value
-- stack. The node's lock is left out: one thread runs.
pub mod Freed
pub mod Disconnect
pub mod ActivePair
mod Tests
use inet_lisp.Base.{
  ℕ, zero, suc, ◌+◌, ◌-◌, ltb, if◌then◌else◌, Option, none, some, Result, ok, err, assertion_failed,
  check,
}
use inet_lisp.Net.Ctor.{NodeCtor, PortInfo, port_info}
use inet_lisp.Net.Heap.{
  Value, wire, principal_wire, is_principal_wire, wire_new, principal_wire_new,
  principal_wire_destroy, node_set_value, node_get_value,
}
use inet_lisp.Core.Mod.{Mod, Task, load_ctor, node_ctor_pointer}
use inet_lisp.Core.Worker.{
  Config, M, pure, ◌>>=◌, ◌>>◌, lift, get_heap, put_heap, on_heap, pop_value, push_value,
  worker_add_task_maybe, run_connect, worker_recycle_node,
}

-- `node->ctor`
unfoldable pub node_ctor_of : Mod → ℕ → M NodeCtor
node_ctor_of m n = do h ← get_heap; c ← lift (node_ctor_pointer h n); lift (load_ctor m c)

unfoldable pub node_get_port_info : Mod → ℕ → ℕ → M PortInfo
unfolding node_ctor_of
node_get_port_info m n index = do
  ctor ← node_ctor_of m n
  lift (check (ltb index ctor.arity))
  lift (port_info ctor index)

-- `node_set_value`
unfoldable pub set_port : ℕ → ℕ → Value → M (Unit {0})
set_port n index value = do h ← get_heap; h' ← lift (node_set_value h n index value); put_heap h'

unfoldable pub new_wire : M ℕ
new_wire = on_heap (λ h. ok (wire_new h))

unfoldable pub new_principal_wire : ℕ → ℕ → M ℕ
new_principal_wire n index = on_heap (λ h. ok (principal_wire_new h n index))

unfoldable pub reconnect_input : Mod → ℕ → ℕ → Value → M (Option Task)
unfolding node_get_port_info set_port new_wire new_principal_wire
reconnect_input m n index value = do
  info ← node_get_port_info m n index
  if info.is_principal
      then (do
        p ← new_principal_wire n index
        set_port n index (principal_wire p)
        run_connect m (principal_wire p) value)
      else if is_principal_wire value
      then (do w ← new_wire; set_port n index (wire w); run_connect m (wire w) value)
      else (do set_port n index value; pure none)

unfoldable pub reconnect_output : Mod → ℕ → ℕ → M Value
unfolding node_get_port_info set_port new_wire new_principal_wire
reconnect_output m n index = do
  info ← node_get_port_info m n index
  if info.is_principal
      then (do
        p ← new_principal_wire n index
        set_port n index (principal_wire p)
        pure (principal_wire p))
      else (do w ← new_wire; set_port n index (wire w); pure (wire w))

-- `assert (!found_task); found_task = task;`
abbrev pub keep_task : Option Task → Option Task → Result (Option Task)
keep_task found none = ok found
keep_task none (some task) = ok (some task)
keep_task (some found) (some task) = err assertion_failed

-- The first loop with `count` rounds left, which is at the port before that number.
unfoldable pub reconnect_inputs : Mod → ℕ → ℕ → Option Task → M (Option Task)
unfolding reconnect_input
reconnect_inputs m n zero found = pure found
reconnect_inputs m n (suc count) found = do
  value ← pop_value
  task ← reconnect_input m n count value
  found' ← lift (keep_task found task)
  reconnect_inputs m n count found'

-- The second loop with `count` rounds left, at a port.
unfoldable pub reconnect_outputs : Mod → ℕ → ℕ → ℕ → M (Unit {0})
unfolding reconnect_output
reconnect_outputs m n zero index = pure tt
reconnect_outputs m n (suc count) index = do
  value ← reconnect_output m n index
  push_value value
  reconnect_outputs m n count (index + 1)

-- `node->ctor->arity - arity` does not wrap: a greater arity has failed in the first loop.
unfoldable pub worker_reconnect_node : Config → Mod → ℕ → ℕ → M (Unit {0})
unfolding reconnect_inputs reconnect_outputs node_ctor_of
worker_reconnect_node cfg m n arity = do
  found_task ← reconnect_inputs m n arity none
  ctor ← node_ctor_of m n
  reconnect_outputs m n (ctor.arity - arity) arity
  worker_add_task_maybe cfg found_task

abbrev pub disconnect_value : Value → M (Unit {0})
disconnect_value (principal_wire p) = do h ← get_heap; put_heap (principal_wire_destroy h p)
disconnect_value value = push_value value

-- The loop with `count` rounds left, at a port.
unfoldable pub disconnect_ports : ℕ → ℕ → ℕ → M (Unit {0})
disconnect_ports n zero index = pure tt
disconnect_ports n (suc count) index = do
  h ← get_heap
  value ← lift (node_get_value h n index)
  disconnect_value value
  disconnect_ports n count (index + 1)

unfoldable pub worker_disconnect_node : Mod → ℕ → M (Unit {0})
unfolding disconnect_ports node_ctor_of
worker_disconnect_node m n = do
  ctor ← node_ctor_of m n
  disconnect_ports n ctor.arity 0
  worker_recycle_node n
