-- ===== src/Lang/Compile/Binding/Run.antt =====
-- core/worker_run_until.c, on the opcodes of lang/compile.c that set the variables of a new frame.
use inet_lisp.Base.{
  lt→ltb, ℕ, zero, suc, ◌+◌, ◌-◌, ◌<◌, ◌≤◌, ◌≡◌, ◌≢◌, refl, sym, ap, ◌∙◌, subst, List, [], ◌∷◌,
  ◌++◌, Bool, true, false, ◌==◌, if◌then◌else◌, Option, none, some, length, get_elem?, arith,
  Result, length-append, get_elem?-append_left, replicate, leb, get_or, ok, deref,
}
use inet_lisp.Base
use inet_lisp.Std.Array.{Array, array_new, array_new_auto, array_get, array_set}
use inet_lisp.Std.Array.Laws
use inet_lisp.Std.Array.Laws.{array_set_lem, array_new-IsValid, get_or-replicate}
use inet_lisp.Net.Heap.{Value, null}
use inet_lisp.Net.Ctor.{Name}
use inet_lisp.Lang.Compile.{function_new, compile_set_variable_list, hash_get_entry}
use inet_lisp.Lang.Compile.Binding.{
  Distinct, opcodes, entries-found, length-opcodes, opcodes-at, compile_set_variable_list_lem,
}
use inet_lisp.Core.Mod.{Mod, Function, Opcode, set_variable, load_function}
use inet_lisp.Core.Frame.{
  Frame, frame_new, frame_is_finished, frame_fetch_opcode, frame_set_variable, function_length,
}
use inet_lisp.Core.Frame.Laws.{variable}
use inet_lisp.Core.Worker.{Config, Worker, pop_value, push_frame}
use inet_lisp.Core.Worker.Run.{
  worker_execute_opcode, run_frame, worker_run_one_step, worker_run_until,
}
use inet_lisp.Core.Worker.Run.TailCall.{until-more}

array_new_get : (j : ℕ) → array_get null (array_new null 64) j ≡ null
unfolding array_new array_get
array_new_get j = ground (arith, get_or-replicate 64 j null)

new_variable : (p j : ℕ) → variable (frame_new p) j ≡ null
unfolding frame_new array_new_auto
new_variable p j = array_new_get j

-- The worker with a frame on top, and with values on its stack.
abbrev pub at : Worker → Frame → List Frame → List Value → Worker
at s f rest values = record s { return_stack = f ∷ rest; value_stack = values }

cons_found :
    (f : Frame) (c : ℕ) (v : Value) (values : List Value)
    → variable f c ≡ v
    → ((j : ℕ) (u : Value) → get_elem? values j ≡ some u → variable f (c + 1 + j) ≡ u)
    → (j : ℕ) (u : Value) → get_elem? (v ∷ values) j ≡ some u
    → variable f (c + j) ≡ u
cons_found f c v values h k zero u e =
    let q : v ≡ u = cc in subst (λ i. variable f i ≡ u) (omega arith) (h ∙ q)
cons_found f c v values h k (suc j) u e = subst (λ i. variable f i ≡ u) (omega arith) (k j u e)

add_zero : (n : ℕ) → n + 0 ≡ n
add_zero n = omega arith

add_suc : (n k : ℕ) → n + suc k ≡ suc (n + k)
add_suc n k = omega arith

zero_add : (n : ℕ) → 0 + n ≡ n
zero_add n = omega arith

module _ (cfg : Config) (m : Mod) (fn : Function) where
  -- One opcode that sets a variable, not the last of its function.
  step_set :
      (s : Worker) (f : Frame) (rest : List Frame) (i : ℕ) (v : Value) (values : List Value)
      → load_function m f.function ≡ ok fn
      → get_elem? fn.opcode_array f.cursor ≡ some (set_variable i)
      → (f.cursor == length fn.opcode_array) ≡ false
      → (f.cursor + 1 == length fn.opcode_array) ≡ false
      → (a : Array Value) → array_set null f.variable_array i v ≡ ok a
      → variable f i ≡ null
      → worker_run_one_step cfg m (at s f rest (v ∷ values))
        ≡ ok (tt, at s (record f { cursor = f.cursor + 1; variable_array = a }) rest values)
  unfolding worker_run_one_step run_frame worker_execute_opcode frame_is_finished frame_fetch_opcode
      frame_set_variable function_length pop_value push_frame
  step_set s f rest i v values l g p q a e u = rw (l, p, g, l, q, u, e) refl

  -- The values on top go into the variables from the cursor on, the first into the first.
  sets_run :
      (s : Worker) (f : Frame) (rest : List Frame) (values below : List Value)
      → load_function m f.function ≡ ok fn
      → Laws.IsValid f.variable_array
      → ((j : ℕ)
          → j < length values
          → get_elem? fn.opcode_array (f.cursor + j) ≡ some (set_variable (f.cursor + j)))
      → f.cursor + length values < length fn.opcode_array
      → ((j : ℕ) → f.cursor ≤ j → variable f j ≡ null)
      → (f' : Frame) × ((fuel : ℕ)
          → worker_run_until
              (fuel + length values)
              cfg
              m
              (length rest)
              (at s f rest (values ++ below))
            ≡ worker_run_until fuel cfg m (length rest) (at s f' rest below))
        × ((j : ℕ) (v : Value) → get_elem? values j ≡ some v → variable f' (f.cursor + j) ≡ v)
        × ((j : ℕ) → j < f.cursor → variable f' j ≡ variable f j)
  sets_run s f rest [] below l w sets room empty = (
    f,
    λ fuel. ap (λ n. worker_run_until n cfg m (length rest) (at s f rest below)) (add_zero fuel),
    λ j v e. cc,
    λ j h. refl,
  )
  sets_run s f rest (v ∷ values) below l w sets room empty =
      let (a, e, w', c, r) = array_set_lem null f.variable_array f.cursor v w in
      let f₁ : Frame = record f { cursor = f.cursor + 1; variable_array = a } in
      let here : get_elem? fn.opcode_array f.cursor ≡ some (set_variable f.cursor) =
        subst (λ k. get_elem? fn.opcode_array k ≡ some (set_variable k)) (omega arith)
          (sets 0 (omega arith)) in
      let step =
        step_set s f rest f.cursor v (values ++ below) l here (ground arith) (ground arith) a e
          (empty f.cursor (omega arith)) in
      let (f', run, found, kept) =
        sets_run s f₁ rest values below l w'
          (λ j h.
            subst (λ k. get_elem? fn.opcode_array k ≡ some (set_variable k)) (omega arith)
              (sets (suc j) (omega arith)))
          (omega arith) (λ j h. ground (arith, r j, empty j)) in
      (
        f',
        λ fuel.
            ap (λ n. worker_run_until n cfg m (length rest) (at s f rest (v ∷ (values ++ below))))
              (add_suc fuel (length values))
            ∙ (until-more cfg m (fuel + length values) (length rest)
                  (at s f rest (v ∷ (values ++ below)))
                  (lt→ltb (length rest) (suc (length rest)) (omega arith))
                ∙ (ap
                      (λ x.
                        Base.◌>>=◌ x
                          (λ q. worker_run_until (fuel + length values) cfg m (length rest) q.1))
                      step
                    ∙ run fuel)),
        cons_found f' f.cursor v values (kept f.cursor (omega arith) ∙ ground (arith, r f.cursor))
            found,
        λ j h. kept j (omega arith) ∙ ground (arith, r j),
      )

  -- A function that begins with the opcodes of distinct names and goes on, called with as many
  -- values on the stack: running it comes down, after as many steps, to running it from a frame in
  -- which each name's variable holds its value, with exactly these values off the stack and the
  -- other frames as they were. The values stand in the order of the names, the last on top.
  pub names_get_values :
      (s : Worker) (p arity : ℕ) (rest : List Frame) (names : List Name) (values below : List Value)
      (o : Opcode) (more : List Opcode)
      → Distinct names
      → length values ≡ length names
      → load_function m p ≡ ok fn
      → fn.opcode_array
        ≡ (compile_set_variable_list (function_new arity) names).opcode_array ++ o ∷ more
      → (f' : Frame) × ((fuel : ℕ)
          → worker_run_until
              (fuel + length names)
              cfg
              m
              (length rest)
              (at s (frame_new p) rest (values ++ below))
            ≡ worker_run_until fuel cfg m (length rest) (at s f' rest below))
        × ((i : ℕ) (name : Name) (v : Value)
            → get_elem? names i ≡ some name
            → get_elem? values (length names - 1 - i) ≡ some v
            → (j : ℕ) × (hash_get_entry
                  (compile_set_variable_list (function_new arity) names).local_index_hash
                  name
                ≡ some j)
              × (variable f' j ≡ v))
  unfolding frame_new array_new_auto
  names_get_values s p arity rest names values below o more d size l code =
      let (hash, array) = compile_set_variable_list_lem arity names d in
      let code' : fn.opcode_array ≡ opcodes names ++ o ∷ more =
        code ∙ ap (λ x. x ++ o ∷ more) array in
      let (f', run, found, kept) =
        sets_run s (frame_new p) rest values below l (array_new-IsValid null 64 (omega arith))
          (λ j h.
            ap (λ x. get_elem? x (0 + j)) code'
            ∙ (get_elem?-append_left (opcodes names) (o ∷ more) (0 + j)
                  (omega (arith, length-opcodes names))
                ∙ opcodes-at names (0 + j) (omega arith)))
          (omega (
            arith,
            ap length code',
            length-append (opcodes names) (o ∷ more),
            length-opcodes names,
          ))
          (λ j h. new_variable p j) in
      (
        f',
        λ fuel.
            ap
              (λ n.
                worker_run_until (fuel + n) cfg m (length rest)
                  (at s (frame_new p) rest (values ++ below)))
              (sym size)
            ∙ run fuel,
        λ i name v e q. (
          length names - 1 - i,
          ap (λ h. hash_get_entry h name) hash ∙ entries-found names i name d e,
          subst (λ k. variable f' k ≡ v) (zero_add (length names - 1 - i))
              (found (length names - 1 - i) v q),
        ),
      )
