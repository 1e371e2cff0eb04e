-- ===== src/Core/Frame.antt =====
-- core/frame.c: the cursor and the linear variables of one call.
pub mod Laws
pub mod Linear
mod Tests
use inet_lisp.Base.{
  ℕ, suc, ◌+◌, List, length, get_elem?, Bool, true, false, ◌==◌, if◌then◌else◌, Result, ok, err,
  exited, dangling, ◌>>=◌, deref,
}
use inet_lisp.Std.Array.{Array, array_new_auto, array_get, array_set}
use inet_lisp.Net.Heap.{Value, null, is_null}
use inet_lisp.Core.Mod.{Mod, Function, Opcode, load_function}

-- `frame_t`. The function is a pointer.
pub record Frame : Type 0 where
  pub cursor : ℕ
  pub function : ℕ
  pub variable_array : Array Value

unfoldable pub frame_new : ℕ → Frame
unfolding array_new_auto
frame_new function = record {
  cursor = 0;
  function = function;
  variable_array = array_new_auto null;
}

unfoldable pub function_length : Function → ℕ
function_length self = length self.opcode_array

unfoldable pub frame_is_finished : Mod → Frame → Result Bool
unfolding function_length
frame_is_finished m self = do
  function ← load_function m self.function
  ok (self.cursor == function_length function)

unfoldable pub frame_fetch_opcode : Mod → Frame → Result (Opcode × Frame)
frame_fetch_opcode m self = do
  function ← load_function m self.function
  opcode ← deref (get_elem? function.opcode_array self.cursor)
  ok (opcode, record self { cursor = self.cursor + 1 })

-- Reading a variable takes it out of its slot.
unfoldable pub frame_get_variable : Frame → ℕ → Result (Value × Frame)
frame_get_variable self index =
    let value = array_get null self.variable_array index in
    if is_null value then err exited else do
      variable_array ← array_set null self.variable_array index null
      ok (value, record self { variable_array = variable_array })

-- A slot is written only while it is empty.
unfoldable pub frame_set_variable : Frame → ℕ → Value → Result Frame
frame_set_variable self index value =
    if is_null (array_get null self.variable_array index)
    then (array_set null self.variable_array index value >>= λ variable_array.
        ok (record self { variable_array = variable_array }))
    else err exited
