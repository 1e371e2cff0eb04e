-- ===== src/Core/Mod.antt =====
-- core/mod.h, core/opcode.h, core/function.h, core/primitive.h, core/task.h: what a mod defines, and
-- the tasks that its workers exchange.
use inet_lisp.Base.{ℕ, List, Option, Result, get_elem?, deref, ◌>>=◌}
use inet_lisp.Net.Ctor.{Name, NodeCtor, Rule}
use inet_lisp.Net.Heap.{Value, Heap, load_node}

-- `opcode_t`
pub data Opcode : Type 0 where
  apply : ℕ → Opcode
  literal : Value → Opcode
  get_variable : ℕ → Opcode
  set_variable : ℕ → Opcode

pub record Function : Type 0 where
  pub name : Name
  pub arity : ℕ
  pub local_index_hash : List (Name × ℕ)
  pub opcode_array : List Opcode

-- The primitives that work on the worker itself; `x_apply k` is `x_apply1` to `x_apply4`.
pub data WorkerFn : Type 0 where
  x_connect x_link x_assert x_int_dup x_float_dup x_fn_dup : WorkerFn
  x_apply : ℕ → WorkerFn

-- `fn_kind` with its function; those on values may stop the process.
pub data PrimitiveFn : Type 0 where
  fn : WorkerFn → PrimitiveFn
  fn_0 : Result Value → PrimitiveFn
  fn_1 : (Value → Result Value) → PrimitiveFn
  fn_2 : (Value → Value → Result Value) → PrimitiveFn
  fn_3 : (Value → Value → Value → Result Value) → PrimitiveFn
  fn_4 : (Value → Value → Value → Value → Result Value) → PrimitiveFn

pub record Primitive : Type 0 where
  pub name : Name
  pub node_ctor : Option ℕ
  pub input_arity : ℕ
  pub output_arity : ℕ
  pub primitive_fn : PrimitiveFn

-- The objects that values point to, with the names that `value_hash` gives them.
-- `apply_primitives` is the static array of core/worker_apply_wire.c, after its initialization.
pub record Mod : Type 0 where
  pub value_hash : List (Name × Value)
  pub node_ctors : List NodeCtor
  pub functions : List Function
  pub primitives : List Primitive
  pub apply_primitives : List ℕ

unfoldable pub load_ctor : Mod → ℕ → Result NodeCtor
load_ctor m c = deref (get_elem? m.node_ctors c)

unfoldable pub load_function : Mod → ℕ → Result Function
load_function m f = deref (get_elem? m.functions f)

unfoldable pub load_primitive : Mod → ℕ → Result Primitive
load_primitive m p = deref (get_elem? m.primitives p)

-- `node->ctor`, as an address
unfoldable pub node_ctor_pointer : Heap → ℕ → Result ℕ
unfolding load_node
node_ctor_pointer h n = do node ← load_node h n; deref node.ctor

-- `task_t`
pub data Task : Type 0 where
  active_pair : ℕ → ℕ → Rule → Task
  primitive : ℕ → Task
