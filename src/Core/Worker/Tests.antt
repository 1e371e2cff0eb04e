-- ===== src/Core/Worker/Tests.antt =====
-- Runs of core/worker_run_until.c on a function of one opcode.
use inet_lisp.Base.{◌≡◌, refl, List, [], ◌∷◌, ok, arith}
use inet_lisp.Net.Heap.{Value, word, function}
use inet_lisp.Core.Mod.{Mod, apply, literal, load_function}
use inet_lisp.Core.Frame.{Frame, frame_new, frame_is_finished, frame_fetch_opcode, function_length}
use inet_lisp.Core.Worker.{Config, Worker, push_value, pop_value, push_frame}
use inet_lisp.Core.Worker.Apply.{worker_apply}
use inet_lisp.Core.Worker.Run.{
  worker_run_one_step, worker_run_until, run_frame, worker_execute_opcode,
}
use inet_lisp.Core.Worker.Run.TailCall.{Leaves, tail_call, run_until_restores}

abbrev config : Config
config = record { batch_size = 2; queue_size = 8 }

-- the function of the opcode `literal 5`
abbrev five : Mod
five = record {
  value_hash = [];
  node_ctors = [];
  functions =
      record { name = []; arity = 0; local_index_hash = []; opcode_array = literal (word 5) ∷ [] }
      ∷ [];
  primitives = [];
  apply_primitives = [];
}

abbrev worker_with : List Frame → List Value → Worker
worker_with frames values = record {
  task_queue = [];
  value_stack = values;
  return_stack = frames;
  nodes = record {
    pool = record { shared = record { stack = []; cache_size = 2 }; local = [] };
    heap = record { wires = []; principal_wires = []; nodes = [] };
  };
}

abbrev waiting : Frame
unfolding frame_new
waiting = record (frame_new 0) { cursor = 1 }

-- A function that ends with a call of no arguments, and one for it to call.
abbrev calls : Mod
calls = record five {
  functions =
      record { name = []; arity = 0; local_index_hash = []; opcode_array = apply 0 ∷ [] }
      ∷ record { name = []; arity = 0; local_index_hash = []; opcode_array = literal (word 5) ∷ [] }
      ∷ [];
}

tail_call_runs :
    worker_run_one_step config calls (worker_with (frame_new 0 ∷ waiting ∷ []) (function 1 ∷ []))
    ≡ ok (tt, worker_with (frame_new 1 ∷ waiting ∷ []) [])
unfolding worker_run_one_step run_frame worker_execute_opcode frame_is_finished frame_fetch_opcode
    function_length load_function push_value pop_value push_frame frame_new worker_apply
tail_call_runs = refl

tail_call_example : Leaves (apply 0) (function 1 ∷ []) (waiting ∷ []) (frame_new 1 ∷ waiting ∷ [])
unfolding frame_is_finished frame_fetch_opcode function_length load_function frame_new
tail_call_example =
    tail_call config calls (worker_with (frame_new 0 ∷ waiting ∷ []) (function 1 ∷ []))
      (worker_with (frame_new 1 ∷ waiting ∷ []) []) (frame_new 0) waiting (apply 0) (waiting ∷ [])
      refl refl refl refl tail_call_runs

run_until_runs :
    worker_run_until 3 config five 1 (worker_with (frame_new 0 ∷ waiting ∷ []) [])
    ≡ ok (tt, worker_with (waiting ∷ []) (word 5 ∷ []))
unfolding worker_run_until worker_run_one_step run_frame worker_execute_opcode frame_is_finished
    frame_fetch_opcode function_length load_function push_value push_frame frame_new
run_until_runs = refl

run_until_restores_example : waiting ∷ [] ≡ waiting ∷ []
run_until_restores_example =
    run_until_restores config five 3 1 (worker_with (frame_new 0 ∷ waiting ∷ []) [])
      (worker_with (waiting ∷ []) (word 5 ∷ [])) (waiting ∷ [])
      (frame_new 0 ∷ [], refl, omega arith) run_until_runs
