-- ===== src/Core/Worker/Apply.antt =====
-- core/worker_apply.c, core/worker_apply_wire.c, core/worker_apply_primitive.c.
use inet_lisp.Value.Tags
use inet_lisp.Value.Xint
use inet_lisp.Value.Xbool
use inet_lisp.Base.{
  assertion_failed, ℕ, zero, suc, ◌+◌, ◌-◌, List, [], ◌∷◌, Bool, true, false, ltb, leb, ◌==◌, ◌&&◌,
  not, if◌then◌else◌, none, some, length, get_elem?, Result, err, out_of_fuel, exited, check, deref,
}
use inet_lisp.Net.Heap.{Value, null, word, wire, node_ctor, function, primitive, is_null, is_wire}
use inet_lisp.Net.Wire.{defuze}
use inet_lisp.Core.Mod.{
  Mod, WorkerFn, x_connect, x_link, x_assert, x_int_dup, x_float_dup, x_fn_dup, x_apply,
  PrimitiveFn, fn, fn_0, fn_1, fn_2, fn_3, fn_4, Primitive, load_function, load_primitive,
}
use inet_lisp.Core.Frame.{frame_new}
use inet_lisp.Core.Worker.{
  Config, M, pure, ◌>>=◌, ◌>>◌, lift, on_heap, pop_value, push_value, push_frame, worker_connect,
  worker_new_node,
}
use inet_lisp.Core.Worker.Node.{worker_reconnect_node, new_wire}

-- `n` values popped, the last popped first in the list
unfoldable pub pop_values : ℕ → List Value → M (List Value)
pop_values zero values = pure values
pop_values (suc n) values = do value ← pop_value; pop_values n (value ∷ values)

unfoldable pub push_values : List Value → M (Unit {0})
push_values [] = pure tt
push_values (value ∷ values) = do push_value value; push_values values

-- `if (result != NULL) stack_push (...)`
abbrev pub push_result : Value → M (Unit {0})
push_result null = pure tt
push_result value = push_value value

-- A pop and a look at the value that was there.
unfoldable pub top_value : M Value
top_value = do value ← pop_value; push_value value; pure value

abbrev pub is_function : Value → Bool
is_function (function f) = true
is_function _ = false

abbrev pub is_word_where : (ℕ → Bool) → Value → Bool
is_word_where test (word x) = test x
is_word_where test _ = false

-- `to_bool`, with its assertion
abbrev pub to_bool : Value → Result Bool
to_bool (word x) = Xbool.to_bool x
to_bool _ = err assertion_failed

-- `x_int_dup`, `x_float_dup` and `x_fn_dup`: the value on top again
unfoldable pub dup : (Value → Bool) → M (Unit {0})
unfolding top_value
dup test = do target ← top_value; lift (check (test target)); push_value target

-- `x_connect`
unfoldable pub x_connect_fn : Config → Mod → M (Unit {0})
x_connect_fn cfg m = do
  second ← pop_value
  first ← pop_value
  lift (check (not (is_null second)))
  lift (check (not (is_null first)))
  worker_connect cfg m first second

-- `x_link`
unfoldable pub x_link_fn : M (Unit {0})
x_link_fn = do w ← new_wire; push_value (wire w); push_value (wire w)

unfoldable pub x_assert_fn : M (Unit {0})
x_assert_fn = do
  value ← pop_value
  passed ← lift (to_bool value)
  if passed then pure tt else lift (err exited)

-- `x_apply1` to `x_apply4`, over `worker_apply`
unfoldable pub x_apply_fn : (Value → ℕ → M (Unit {0})) → ℕ → M (Unit {0})
unfolding pop_values push_values
x_apply_fn apply k = do args ← pop_values k []; target ← pop_value; push_values args; apply target k

unfoldable pub run_worker_fn : Config → Mod → (Value → ℕ → M (Unit {0})) → WorkerFn → M (Unit {0})
unfolding x_connect_fn x_link_fn x_assert_fn dup x_apply_fn
run_worker_fn cfg m apply x_connect = x_connect_fn cfg m
run_worker_fn cfg m apply x_link = x_link_fn
run_worker_fn cfg m apply x_assert = x_assert_fn
run_worker_fn cfg m apply x_int_dup = dup (is_word_where Xint.is_xint)
run_worker_fn cfg m apply x_float_dup = dup (is_word_where Tags.is_xfloat)
run_worker_fn cfg m apply x_fn_dup = dup is_function
run_worker_fn cfg m apply (x_apply k) = x_apply_fn apply k

unfoldable pub worker_apply_primitive :
    Config → Mod → (Value → ℕ → M (Unit {0})) → PrimitiveFn → M (Unit {0})
unfolding run_worker_fn
worker_apply_primitive cfg m apply (fn f) = run_worker_fn cfg m apply f
worker_apply_primitive cfg m apply (fn_0 f) = do result ← lift f; push_result result
worker_apply_primitive cfg m apply (fn_1 f) = do
  x ← pop_value
  result ← lift (f x)
  push_result result
worker_apply_primitive cfg m apply (fn_2 f) = do
  y ← pop_value
  x ← pop_value
  result ← lift (f x y)
  push_result result
worker_apply_primitive cfg m apply (fn_3 f) = do
  z ← pop_value
  y ← pop_value
  x ← pop_value
  result ← lift (f x y z)
  push_result result
worker_apply_primitive cfg m apply (fn_4 f) = do
  w ← pop_value
  z ← pop_value
  y ← pop_value
  x ← pop_value
  result ← lift (f x y z w)
  push_result result

-- the first loop of `stack_tuck_n`, which asserts that the values are not null
unfoldable pub pop_nonnull : ℕ → List Value → M (List Value)
pop_nonnull zero values = pure values
pop_nonnull (suc n) values = do
  value ← pop_value
  lift (check (not (is_null value)))
  pop_nonnull n (value ∷ values)

-- `stack_tuck_n (worker->value_stack, wire, arity)` (Std.Stack.Tuck)
unfoldable pub tuck_value : Value → ℕ → M (Unit {0})
unfolding pop_nonnull push_values
tuck_value target n = do values ← pop_nonnull n []; push_value target; push_values values

-- `defuze` with fuel for every wire
abbrev pub run_defuze : Value → M Value
run_defuze value = on_heap (λ h. defuze (suc (length h.wires)) h value)

-- The wire that is tucked is the argument, not the wire that `defuze` returned.
unfoldable pub worker_apply_wire : Mod → (Value → ℕ → M (Unit {0})) → ℕ → ℕ → M (Unit {0})
unfolding tuck_value
worker_apply_wire m apply w arity = do
  defuzed ← run_defuze (wire w)
  if not (is_wire defuzed) then apply defuzed arity else (do
    if ltb 0 arity && leb arity 4 then pure tt else lift (err exited)
    p ← lift (deref (get_elem? m.apply_primitives (arity - 1)))
    tuck_value (wire w) arity
    apply (primitive p) (arity + 1))

-- the branch of `worker_apply` for a primitive
unfoldable pub apply_primitive_object :
    Config → Mod → (Value → ℕ → M (Unit {0})) → Primitive → ℕ → M (Unit {0})
unfolding worker_apply_primitive
apply_primitive_object cfg m apply callee arity = elim callee.node_ctor [
  | some c ↦ do n ← worker_new_node cfg c; worker_reconnect_node cfg m n arity
  | none ↦ do
    lift (check (callee.input_arity == arity))
    worker_apply_primitive cfg m apply callee.primitive_fn
]

-- The fuel bounds the calls of `worker_apply` through wires and the `apply` primitives.
unfoldable pub worker_apply : ℕ → Config → Mod → Value → ℕ → M (Unit {0})
unfolding apply_primitive_object worker_apply_wire
worker_apply zero cfg m target arity = lift (err out_of_fuel)
worker_apply (suc fuel) cfg m (node_ctor c) arity = do
  n ← worker_new_node cfg c
  worker_reconnect_node cfg m n arity
worker_apply (suc fuel) cfg m (function f) arity = do
  callee ← lift (load_function m f)
  if callee.arity == arity then push_frame (frame_new f) else lift (err exited)
worker_apply (suc fuel) cfg m (primitive p) arity = do
  callee ← lift (load_primitive m p)
  apply_primitive_object cfg m (worker_apply fuel cfg m) callee arity
worker_apply (suc fuel) cfg m (wire w) arity = worker_apply_wire m (worker_apply fuel cfg m) w arity
worker_apply (suc fuel) cfg m target arity = lift (err exited)
