-- ===== src/Core/Worker/Grows/Ops.antt =====
-- The return stack under the operations of core/worker_apply.c and what it calls.
use inet_lisp.Base.{
  ℕ, zero, suc, ◌+◌, ◌-◌, ◌≤◌, ◌≡◌, refl, List, [], ◌∷◌, Bool, true, false, not, ltb, leb, ◌==◌,
  ◌&&◌, if◌then◌else◌, Option, none, some, get_elem?, length, Result, ok, err, check, arith, ap,
  sym, >>=-eq-ok, ok_injective,
}
use inet_lisp.Base
use inet_lisp.Net.Heap.{Value, null, wire, principal_wire, node_ctor, function, primitive}
use inet_lisp.Core.Mod.{
  Mod, Task, PrimitiveFn, fn, fn_0, fn_1, fn_2, fn_3, fn_4, WorkerFn, x_connect, x_link, x_assert,
  x_int_dup, x_float_dup, x_fn_dup, x_apply, Primitive,
}
use inet_lisp.Core.Frame.{Frame, frame_new}
use inet_lisp.Core.Worker.{
  Config, M, ◌>>=◌, ◌>>◌, lift, pop_value, push_value, push_frame, worker_add_task,
  worker_add_task_maybe, worker_connect, worker_new_node, worker_recycle_node,
}
use inet_lisp.Core.Worker.Node
use inet_lisp.Core.Worker.Apply
use inet_lisp.Core.Worker.Grows.{
  Grows, IsNew, Grows-bind, Grows-same, Grows-lift, Grows-pure, Grows-on_heap, Grows-if,
  Grows-get_heap, Grows-put_heap,
}

pub Grows-push_value : {P : Frame → Type 0} {k : ℕ} (v : Value) → Grows P k (push_value v)
unfolding push_value
Grows-push_value v =
    Grows-same (push_value v) λ s a s' p. sym (ap (λ x. x.1.return_stack) (ok_injective p))

pub Grows-pop_value : {P : Frame → Type 0} {k : ℕ} → Grows P k pop_value
unfolding pop_value
Grows-pop_value = Grows-same pop_value λ s a s' p. ground arith

pub Grows-push_frame : {P : Frame → Type 0} (f : Frame) → P f → Grows P 1 (push_frame f)
unfolding push_frame
Grows-push_frame f new = record {
  over = λ s a s' p.
      (f ∷ [], sym (ap (λ x. x.1.return_stack) (ok_injective p)), omega arith, (new, tt));
}

Grows-worker_add_task : {k : ℕ} (cfg : Config) (t : Task) → Grows IsNew k (worker_add_task cfg t)
unfolding worker_add_task
Grows-worker_add_task cfg t = Grows-same (worker_add_task cfg t) λ s a s' p. ground arith

Grows-worker_add_task_maybe :
    {k : ℕ} (cfg : Config) (t : Option Task) → Grows IsNew k (worker_add_task_maybe cfg t)
Grows-worker_add_task_maybe cfg none = Grows-pure tt
Grows-worker_add_task_maybe cfg (some t) = Grows-worker_add_task cfg t

-- A frame that a call pushes is new.
Grows-call : (f : ℕ) → Grows IsNew 1 (push_frame (frame_new f))
Grows-call f = Grows-push_frame (frame_new f) (f, refl)

ruleset basic = (
  Grows-bind, Grows-lift, Grows-pure, Grows-on_heap, Grows-if, Grows-get_heap, Grows-put_heap,
  Grows-push_value, Grows-pop_value, Grows-worker_add_task, Grows-worker_add_task_maybe,
)

Grows-worker_connect :
    {k : ℕ} (cfg : Config) (m : Mod) (l r : Value) → Grows IsNew k (worker_connect cfg m l r)
unfolding worker_connect
Grows-worker_connect cfg m l r = search basic

Grows-worker_new_node : {k : ℕ} (cfg : Config) (c : ℕ) → Grows IsNew k (worker_new_node cfg c)
unfolding worker_new_node
Grows-worker_new_node cfg c = Grows-same (worker_new_node cfg c) λ s a s' p. ground arith

Grows-reconnect_input :
    {k : ℕ} (m : Mod) (n i : ℕ) (v : Value) → Grows IsNew k (Node.reconnect_input m n i v)
unfolding Node.reconnect_input
Grows-reconnect_input m n i v = search basic depth 12

Grows-reconnect_output : {k : ℕ} (m : Mod) (n i : ℕ) → Grows IsNew k (Node.reconnect_output m n i)
unfolding Node.reconnect_output
Grows-reconnect_output m n i = search basic depth 12

Grows-reconnect_inputs :
    {k : ℕ} (m : Mod) (n c : ℕ) (t : Option Task) → Grows IsNew k (Node.reconnect_inputs m n c t)
unfolding Node.reconnect_inputs
Grows-reconnect_inputs m n zero t = Grows-pure t
Grows-reconnect_inputs m n (suc c) t = Grows-bind _ _ Grows-pop_value λ v.
    Grows-bind _ _ (Grows-reconnect_input m n c v)
      λ t'. Grows-bind _ _ (Grows-lift _) λ t''. Grows-reconnect_inputs m n c t''

Grows-reconnect_outputs :
    {k : ℕ} (m : Mod) (n c i : ℕ) → Grows IsNew k (Node.reconnect_outputs m n c i)
unfolding Node.reconnect_outputs
Grows-reconnect_outputs m n zero i = Grows-pure tt
Grows-reconnect_outputs m n (suc c) i =
    Grows-bind _ _ (Grows-reconnect_output m n i)
      λ v. Grows-bind _ _ (Grows-push_value v) λ _. Grows-reconnect_outputs m n c (i + 1)

ruleset node_rules = (basic, Grows-reconnect_inputs, Grows-reconnect_outputs)

Grows-worker_reconnect_node :
    {k : ℕ} (cfg : Config) (m : Mod) (n a : ℕ)
    → Grows IsNew k (Node.worker_reconnect_node cfg m n a)
unfolding Node.worker_reconnect_node
Grows-worker_reconnect_node cfg m n a = search node_rules depth 12

Grows-recycle_node : {k : ℕ} (n : ℕ) → Grows IsNew k (worker_recycle_node n)
unfolding worker_recycle_node
Grows-recycle_node n = Grows-same (worker_recycle_node n) λ s a s' p. ground arith

Grows-disconnect_value : {k : ℕ} (v : Value) → Grows IsNew k (Node.disconnect_value v)
Grows-disconnect_value (principal_wire p) = search basic
Grows-disconnect_value v = Grows-push_value v

Grows-disconnect_ports : {k : ℕ} (n c i : ℕ) → Grows IsNew k (Node.disconnect_ports n c i)
unfolding Node.disconnect_ports
Grows-disconnect_ports n zero i = Grows-pure tt
Grows-disconnect_ports n (suc c) i = Grows-bind _ _ Grows-get_heap λ h.
    Grows-bind _ _ (Grows-lift _)
      λ v. Grows-bind _ _ (Grows-disconnect_value v) λ _. Grows-disconnect_ports n c (i + 1)

pub Grows-worker_disconnect_node :
    {k : ℕ} (m : Mod) (n : ℕ) → Grows IsNew k (Node.worker_disconnect_node m n)
unfolding Node.worker_disconnect_node
Grows-worker_disconnect_node m n =
    search (basic, Grows-disconnect_ports, Grows-recycle_node) depth 12

Grows-pop_values : {k : ℕ} (n : ℕ) (l : List Value) → Grows IsNew k (Apply.pop_values n l)
unfolding Apply.pop_values
Grows-pop_values zero l = Grows-pure l
Grows-pop_values (suc n) l = Grows-bind _ _ Grows-pop_value λ v. Grows-pop_values n (v ∷ l)

Grows-pop_nonnull : {k : ℕ} (n : ℕ) (l : List Value) → Grows IsNew k (Apply.pop_nonnull n l)
unfolding Apply.pop_nonnull
Grows-pop_nonnull zero l = Grows-pure l
Grows-pop_nonnull (suc n) l =
    Grows-bind _ _ Grows-pop_value
      λ v. Grows-bind _ _ (Grows-lift _) λ _. Grows-pop_nonnull n (v ∷ l)

Grows-push_values : {k : ℕ} (l : List Value) → Grows IsNew k (Apply.push_values l)
unfolding Apply.push_values
Grows-push_values [] = Grows-pure tt
Grows-push_values (v ∷ l) = Grows-bind _ _ (Grows-push_value v) λ _. Grows-push_values l

ruleset apply_rules = (
  basic, Grows-worker_connect, Grows-worker_new_node, Grows-worker_reconnect_node, Grows-pop_values,
  Grows-pop_nonnull, Grows-push_values, Grows-call,
)

-- `worker_apply` for a target and an arity, as its callers use it
abbrev pub GrowsApply : (Value → ℕ → M (Unit {0})) → Type 0
GrowsApply apply = (v : Value) (a : ℕ) → Grows IsNew 1 (apply v a)

module _ (cfg : Config) (m : Mod) (apply : Value → ℕ → M (Unit {0})) (g : GrowsApply apply) where
  Grows-run_worker_fn : (f : WorkerFn) → Grows IsNew 1 (Apply.run_worker_fn cfg m apply f)
  unfolding Apply.run_worker_fn Apply.dup Node.new_wire
  Grows-run_worker_fn x_connect = search apply_rules depth 12
  Grows-run_worker_fn x_link = search apply_rules depth 12
  Grows-run_worker_fn x_assert = search apply_rules depth 12
  Grows-run_worker_fn x_int_dup = search apply_rules depth 12
  Grows-run_worker_fn x_float_dup = search apply_rules depth 12
  Grows-run_worker_fn x_fn_dup = search apply_rules depth 12
  Grows-run_worker_fn (x_apply k) = search (apply_rules, g) depth 12

  Grows-push_result : {k : ℕ} (v : Value) → Grows IsNew k (Apply.push_result v)
  Grows-push_result null = Grows-pure tt
  Grows-push_result v = Grows-push_value v

  pub Grows-worker_apply_primitive :
      (f : PrimitiveFn) → Grows IsNew 1 (Apply.worker_apply_primitive cfg m apply f)
  unfolding Apply.worker_apply_primitive
  Grows-worker_apply_primitive (fn f) = Grows-run_worker_fn f
  Grows-worker_apply_primitive (fn_0 f) = search (basic, Grows-push_result) depth 12
  Grows-worker_apply_primitive (fn_1 f) = search (basic, Grows-push_result) depth 12
  Grows-worker_apply_primitive (fn_2 f) = search (basic, Grows-push_result) depth 12
  Grows-worker_apply_primitive (fn_3 f) = search (basic, Grows-push_result) depth 14
  Grows-worker_apply_primitive (fn_4 f) = search (basic, Grows-push_result) depth 16

  Grows-apply_primitive_object :
      (p : Primitive) (a : ℕ) → Grows IsNew 1 (Apply.apply_primitive_object cfg m apply p a)
  unfolding Apply.apply_primitive_object
  Grows-apply_primitive_object p a = go p.node_ctor
    where
      go :
          (o : Option ℕ)
          → Grows IsNew 1 (elim o [
            | some c ↦ ((worker_new_node cfg c) >>= λ n. Node.worker_reconnect_node cfg m n a)
            | none ↦
                (lift (check (p.input_arity == a))
                  >> Apply.worker_apply_primitive cfg m apply p.primitive_fn)
          ])
      go (some c) = search apply_rules depth 12
      go none = Grows-bind _ _ (Grows-lift _) λ _. Grows-worker_apply_primitive p.primitive_fn

  Grows-worker_apply_wire : (w a : ℕ) → Grows IsNew 1 (Apply.worker_apply_wire m apply w a)
  unfolding Apply.worker_apply_wire Apply.tuck_value
  Grows-worker_apply_wire w a = search (apply_rules, g) depth 16

-- `worker_apply` pushes at most one frame, whatever it is applied to.
pub Grows-worker_apply :
    (f : ℕ) (cfg : Config) (m : Mod) (v : Value) (a : ℕ)
    → Grows IsNew 1 (Apply.worker_apply f cfg m v a)
unfolding Apply.worker_apply
Grows-worker_apply zero cfg m v a = Grows-lift (err Base.out_of_fuel)
Grows-worker_apply (suc f) cfg m (node_ctor c) a = search apply_rules depth 12
Grows-worker_apply (suc f) cfg m (function g) a = search apply_rules depth 12
Grows-worker_apply (suc f) cfg m (primitive p) a =
    Grows-bind _ _ (Grows-lift _)
      λ callee. Grows-apply_primitive_object cfg m _ (Grows-worker_apply f cfg m) callee a
Grows-worker_apply (suc f) cfg m (wire w) a =
    Grows-worker_apply_wire cfg m _ (Grows-worker_apply f cfg m) w a
Grows-worker_apply (suc f) cfg m v a = Grows-lift (err Base.exited)
