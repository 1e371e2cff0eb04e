-- ===== src/Core/Connect/Feed.antt =====
-- core/connect.c: a primitive node that receives all of its arguments, one after the other.
use inet_lisp.Base.{
  ℕ, suc, ◌+◌, ◌≡◌, ◌≢◌, refl, List, [], ◌∷◌, ◌++◌, ◌==◌, if◌then◌else◌, Option, none, some, set,
  replicate, length, Result, ok, ◌>>=◌, arith, ap, ◌∙◌, get_elem?-set_ne,
}
use inet_lisp.Net.Heap.{Value, Heap, PrincipalWire, load_principal}
use inet_lisp.Core.Mod.{Mod, Task, primitive}
use inet_lisp.Core.Connect.{collect_primitive_arg}
use inet_lisp.Core.Connect.Args.{Awaiting, collect_primitive_arg_lem}

-- Arguments given at principal wires, in order, with the task that each call returns.
unfoldable pub feed : Mod → List (ℕ × Value) → Heap → Result (List (Option Task) × Heap)
feed m [] h = ok ([], h)
feed m ((p, arg) ∷ args) h = do
  (task, h₁) ← collect_primitive_arg m p arg h
  (tasks, h₂) ← feed m args h₁
  ok (task ∷ tasks, h₂)

-- a principal wire is not among those of the arguments
abbrev pub Fresh : ℕ → List (ℕ × Value) → Type 0
Fresh p [] = Unit
Fresh p ((q, v) ∷ args) = (p ≢ q) × Fresh p args

-- The principal wires of the arguments stand, are those of the node, and are distinct.
abbrev pub Pending : Heap → ℕ → List (ℕ × Value) → Type 0
Pending h n [] = Unit
Pending h n ((p, v) ∷ args) =
    ((self : PrincipalWire) × (load_principal h p ≡ ok self) × (self.node ≡ n))
    × Fresh p args
    × Pending h n args

load_principal-freed :
    (h h' : Heap) (p q : ℕ)
    → h'.principal_wires ≡ set h.principal_wires p none
    → p ≢ q
    → load_principal h' q ≡ load_principal h q
unfolding load_principal
load_principal-freed h h' p q e ne = rw (e, get_elem?-set_ne h.principal_wires none ne) refl

Pending-freed :
    (h h' : Heap) (n p : ℕ) (args : List (ℕ × Value))
    → h'.principal_wires ≡ set h.principal_wires p none
    → Fresh p args
    → Pending h n args
    → Pending h' n args
Pending-freed h h' n p [] e f w = tt
Pending-freed h h' n p ((q, v) ∷ args) e f w = (
  (w.0.0, load_principal-freed h h' p q e f.0 ∙ w.0.1, w.0.2),
  w.1,
  Pending-freed h h' n p args e f.1 w.2,
)

task_last : (x k : ℕ) (t : Task) → x ≡ k → (if x == k then some t else none) ≡ some t
task_last x k t e = ground arith

task_early : (x k : ℕ) (t : Task) → x ≢ k → (if x == k then some t else none) ≡ none
task_early x k t e = ground arith

-- A primitive node whose missing arguments all arrive, at distinct principal wires of its own that
-- stand, in any order of its ports, becomes a task exactly once: at the last of them. No earlier
-- call returns a task, and none fails.
pub feed_lem :
    (m : Mod) (h : Heap) (n k a : ℕ) (p : ℕ) (v : Value) (args : List (ℕ × Value))
    → Awaiting m h n k a
    → Pending h n ((p, v) ∷ args)
    → a + suc (length args) ≡ k
    → (h' : Heap) × (feed m ((p, v) ∷ args) h
        ≡ ok (replicate (length args) none ++ some (primitive n) ∷ [], h'))
unfolding feed
feed_lem m h n k a p v [] s w q =
    let (t, h₁, e, c) = collect_primitive_arg_lem m h n k a s p w.0.0 v w.0.1 w.0.2 in
    (h₁, rw e (ap (λ o. ok (o ∷ [], h₁)) (c.task_eq ∙ task_last (a + 1) k (primitive n) q)))
feed_lem m h n k a p v ((p', v') ∷ args) s w q =
    let (t, h₁, e, c) = collect_primitive_arg_lem m h n k a s p w.0.0 v w.0.1 w.0.2 in
    let (h₂, e₂) =
      feed_lem m h₁ n k (a + 1) p' v' args c.after
        (Pending-freed h h₁ n p ((p', v') ∷ args) c.freed w.1 w.2) (omega arith) in
    (
      h₂,
      rw (e, e₂)
          (ap (λ o. ok (o ∷ (replicate (length args) none ++ some (primitive n) ∷ []), h₂))
            (c.task_eq ∙ task_early (a + 1) k (primitive n) (omega arith))),
    )
