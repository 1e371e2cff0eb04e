-- ===== src/Lang/Define/Fires.antt =====
-- core/worker_handle_task.c on a rule of lang/define.c: its names stand for the ports of the pair.
use inet_lisp.Base.{
  reverse_onto, reverse_onto_nil, length-reverse_onto, get_elem?-reverse_onto, ℕ, ◌+◌, ◌-◌, ◌≡◌,
  ◌≢◌, ap, ◌∙◌, subst, List, [], ◌∷◌, ◌++◌, some, length, get_elem?, arith, ok,
}
use inet_lisp.Net.Ctor.{Name, Rule}
use inet_lisp.Net.Heap.{Value, principal_wire, PrincipalWire, load_principal}
use inet_lisp.Core.Mod.{Mod, Function, Opcode, load_function}
use inet_lisp.Core.Frame.{Frame, frame_new}
use inet_lisp.Core.Frame.Laws.{variable}
use inet_lisp.Core.Worker.{Config, Worker}
use inet_lisp.Core.Worker.Node.Disconnect.{auxiliary}
use inet_lisp.Core.Worker.Node.ActivePair.{Stands, ports, active_pair_lem}
use inet_lisp.Core.Worker.Run.{worker_run_until}
use inet_lisp.Core.Worker.Handle.{worker_handle_task_active_pair}
use inet_lisp.Lang.Compile.{function_new, compile_set_variable_list, hash_get_entry}
use inet_lisp.Lang.Compile.Binding.{Distinct}
use inet_lisp.Lang.Compile.Binding.Run.{at, names_get_values}

module _ (cfg : Config) (m : Mod) (s : Worker) (left right : ℕ) (l r : PrincipalWire)
    (x : Stands m s.nodes.heap l.node) (y : Stands m s.nodes.heap r.node) where
  -- An active pair of two different nodes, as `connect` makes it, with a rule whose function begins
  -- by setting as many distinct names as the two nodes have auxiliary ports: handling the task comes
  -- down to running the rest of that function, over the frames and the values that were there, in a
  -- frame in which each name's variable holds the auxiliary port of its position, the left node's
  -- ports before the right node's. The tasks and the wires stay.
  pub rule_fires :
      (rule : Rule) (function : Function) (arity : ℕ) (names : List Name) (o : Opcode)
      (more : List Opcode)
      → load_principal s.nodes.heap left ≡ ok l
      → load_principal s.nodes.heap right ≡ ok r
      → l.node ≢ r.node
      → ((i : ℕ) → get_elem? (ports x) i ≢ some (principal_wire right))
      → load_function m rule.function ≡ ok function
      → function.opcode_array
        ≡ (compile_set_variable_list (function_new arity) names).opcode_array ++ o ∷ more
      → Distinct names
      → length (auxiliary (ports x) ++ auxiliary (ports y)) ≡ length names
      → (s' : Worker) × (f' : Frame) × ((fuel : ℕ)
          → worker_handle_task_active_pair (fuel + length names) cfg m left right rule s
            ≡ worker_run_until fuel cfg m
                (length s.return_stack)
                (at s' f' s.return_stack s.value_stack))
        × (s'.task_queue ≡ s.task_queue)
        × (s'.nodes.heap.wires ≡ s.nodes.heap.wires)
        × ((i : ℕ) (name : Name) (v : Value)
            → get_elem? names i ≡ some name
            → get_elem? (auxiliary (ports x) ++ auxiliary (ports y)) i ≡ some v
            → (j : ℕ) × (hash_get_entry
                  (compile_set_variable_list (function_new arity) names).local_index_hash
                  name
                ≡ some j)
              × (variable f' j ≡ v))
  rule_fires rule function arity names o more el er ne apart lf code d size =
      let args = auxiliary (ports x) ++ auxiliary (ports y) in
      let (s', run, stack, tasks, wires, free) =
        active_pair_lem cfg m s left right l r x y el er ne apart in
      let values = reverse_onto args [] in
      let (f', binds, found) =
        names_get_values cfg m function s' rule.function arity s.return_stack names values
          s.value_stack o more d (omega (arith, length-reverse_onto args [], size)) lf code in
      (
        s',
        f',
        λ fuel.
            run (fuel + length names) rule
            ∙ (ap
                  (λ vs.
                    worker_run_until (fuel + length names) cfg m (length s.return_stack)
                      (record s' {
                        return_stack = frame_new rule.function ∷ s.return_stack;
                        value_stack = vs;
                      }))
                  (stack ∙ reverse_onto_nil args [] s.value_stack)
                ∙ binds fuel),
        tasks,
        wires,
        λ i name v e q. found i name v e (
            subst (λ n. get_elem? values (n - 1 - i) ≡ some v) size
              (get_elem?-reverse_onto args [] i q)),
      )
