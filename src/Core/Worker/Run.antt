-- ===== src/Core/Worker/Run.antt =====
-- core/worker_run_until.c: the inner interpreter.
pub mod Pushes
pub mod TailCall
use inet_lisp.Base.{
  ℕ, zero, suc, List, [], ◌∷◌, Bool, true, false, ltb, if◌then◌else◌, length, Result, ok, err,
  out_of_fuel,
}
use inet_lisp.Base
use inet_lisp.Net.Heap.{Value}
use inet_lisp.Core.Mod.{Mod, Opcode, apply, literal, get_variable, set_variable}
use inet_lisp.Core.Frame.{
  Frame, frame_is_finished, frame_fetch_opcode, frame_get_variable, frame_set_variable,
}
use inet_lisp.Core.Worker.{
  Config, Worker, M, pure, ◌>>=◌, ◌>>◌, lift, pop_value, push_value, push_frame,
}
use inet_lisp.Core.Worker.Apply.{worker_apply}

-- Calls of `worker_apply` within one opcode: through a wire, to an `apply` primitive.
abbrev pub apply_fuel : ℕ
apply_fuel = 4

-- `if (!finished) stack_push (worker->return_stack, frame)`
abbrev pub keep_frame : Bool → Frame → M (Unit {0})
keep_frame true frame = pure tt
keep_frame false frame = push_frame frame

-- The source pushes the frame and then runs the opcode, which may change the frame through its
-- pointer: the two opcodes that do so push nothing, so the changed frame is pushed after them.
unfoldable pub worker_execute_opcode : Config → Mod → Bool → Frame → Opcode → M (Unit {0})
worker_execute_opcode cfg m finished frame (apply arity) = do
  keep_frame finished frame
  target ← pop_value
  worker_apply apply_fuel cfg m target arity
worker_execute_opcode cfg m finished frame (literal value) = do
  keep_frame finished frame
  push_value value
worker_execute_opcode cfg m finished frame (get_variable index) = do
  (value, frame') ← lift (frame_get_variable frame index)
  keep_frame finished frame'
  push_value value
worker_execute_opcode cfg m finished frame (set_variable index) = do
  value ← pop_value
  frame' ← lift (frame_set_variable frame index value)
  keep_frame finished frame'

-- a step with the frame on top, which has been popped
unfoldable pub run_frame : Config → Mod → Frame → M (Unit {0})
unfolding worker_execute_opcode
run_frame cfg m frame = do
  finished ← lift (frame_is_finished m frame)
  if finished then pure tt else (do
    (opcode, frame') ← lift (frame_fetch_opcode m frame)
    last ← lift (frame_is_finished m frame')
    worker_execute_opcode cfg m last frame' opcode)

unfoldable pub worker_run_one_step : Config → Mod → M (Unit {0})
unfolding run_frame
worker_run_one_step cfg m s = elim s.return_stack [
  | [] ↦ ok (tt, s)
  | frame ∷ rest ↦ run_frame cfg m frame (record s { return_stack = rest })
]

-- The `while` loop, on fuel: a program may run for ever.
unfoldable pub worker_run_until : ℕ → Config → Mod → ℕ → M (Unit {0})
unfolding worker_run_one_step
worker_run_until zero cfg m base s = err out_of_fuel
worker_run_until (suc fuel) cfg m base s =
    let more =
      Base.◌>>=◌ (worker_run_one_step cfg m s) (λ r. worker_run_until fuel cfg m base r.1) in
    if ltb base (length s.return_stack) then more else ok (tt, s)
