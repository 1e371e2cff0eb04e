-- ===== src/Core/Worker/Run/TailCall.antt =====
-- core/worker_run_until.c: the return stack over one step, and over the whole loop.
use inet_lisp.Base.{
  ℕ, zero, suc, ◌+◌, ◌≤◌, ◌<◌, ◌≡◌, refl, List, [], ◌∷◌, ◌++◌, Bool, true, false, ltb,
  if◌then◌else◌, length, Result, ok, err, arith, ap, ◌∙◌, sym, length-append, >>=-eq-ok,
  ok_injective, Bool-cases, inl, inr, ◌⊎◌, ◌==◌, subst, exited, ltb→lt, lt→ltb,
}
use inet_lisp.Base
use mathlib.Core.Bool.{false≢true}
use mathlib.Core.List.{append_assoc}
use inet_lisp.Core.Mod.{Mod, load_function, Opcode, apply}
use inet_lisp.Core.Frame.{Frame, frame_new, frame_is_finished, frame_fetch_opcode}
use inet_lisp.Net.Heap.{Value, function}
use inet_lisp.Core.Worker.{Config, Worker, M, pop_value, push_frame}
use inet_lisp.Core.Worker.Apply.{worker_apply}
use inet_lisp.Core.Worker
use inet_lisp.Core.Worker.Run.{
  worker_execute_opcode, run_frame, worker_run_one_step, worker_run_until,
}
use inet_lisp.Core.Worker.Grows.{
  Over, OverBy, IsNew, Grows, Grows-le, Grows-bind, Grows-lift, Grows-pure,
}
use inet_lisp.Core.Worker.Run.Pushes.{
  pushes, kept_le, pushes_le, AnyFrame, Grows-keep_frame, Grows-worker_execute_opcode,
}

-- what the last opcode of a function leaves on the frames below, by the value stack before it
abbrev pub Leaves : Opcode → List Value → List Frame → List Frame → Type 0
Leaves (apply a) (function g ∷ values) rest new = new ≡ frame_new g ∷ rest
Leaves (apply a) values rest new = (new ≡ rest) ⊎ ((g : ℕ) × (new ≡ frame_new g ∷ rest))
Leaves _ values rest new = new ≡ rest

module _ (cfg : Config) (m : Mod) where
  Grows-unfinished :
      (f : Frame)
      → Grows AnyFrame 2 (
          Worker.◌>>=◌ (Worker.lift (frame_fetch_opcode m f)) λ (o, f').
            Worker.◌>>=◌
              (Worker.lift (frame_is_finished m f'))
              λ last. worker_execute_opcode cfg m last f' o)
  Grows-unfinished f = Grows-bind _ _ (Grows-lift (frame_fetch_opcode m f)) λ r.
      Grows-bind _ _ (Grows-lift (frame_is_finished m r.1)) λ last.
        Grows-le _ (omega (arith, kept_le last, pushes_le r.0))
          (Grows-worker_execute_opcode last (Grows-keep_frame last) (λ f' new. tt) cfg m r.1 r.0)

  Grows-run_frame : (f : Frame) → Grows AnyFrame 2 (run_frame cfg m f)
  unfolding run_frame
  Grows-run_frame f = Grows-bind _ _ (Grows-lift _) λ finished. branch finished
    where
      branch :
          (b : Bool)
          → Grows AnyFrame 2 (
              if b
              then Worker.pure tt
              else (Worker.◌>>=◌ (Worker.lift (frame_fetch_opcode m f)) λ (o, f').
                  Worker.◌>>=◌
                    (Worker.lift (frame_is_finished m f'))
                    λ last. worker_execute_opcode cfg m last f' o))
      branch true = Grows-pure tt
      branch false = Grows-unfinished f

  -- A step is a step of the top frame, with the frames below it.
  step-run_frame :
      (s : Worker) (f : Frame) (rest : List Frame)
      → s.return_stack ≡ f ∷ rest
      → worker_run_one_step cfg m s ≡ run_frame cfg m f (record s { return_stack = rest })
  unfolding worker_run_one_step
  step-run_frame s f rest e = rw e refl

  pub one_step_frames :
      (s s' : Worker) (f : Frame) (rest : List Frame)
      → s.return_stack ≡ f ∷ rest
      → worker_run_one_step cfg m s ≡ ok (tt, s')
      → Over 2 rest s'.return_stack
  one_step_frames s s' f rest e p =
      let (frames, same, few, all) =
        (Grows-run_frame f).over (record s { return_stack = rest }) tt s'
          (sym (step-run_frame s f rest e) ∙ p) in
      (frames, same, few)

  run_frame-last :
      (f f' : Frame) (o : Opcode) (s : Worker)
      → frame_is_finished m f ≡ ok false
      → frame_fetch_opcode m f ≡ ok (o, f')
      → frame_is_finished m f' ≡ ok true
      → run_frame cfg m f s ≡ worker_execute_opcode cfg m true f' o s
  unfolding run_frame
  run_frame-last f f' o s a b c = rw (a, b, c) refl

  last_step :
      (s : Worker) (f f' : Frame) (o : Opcode) (rest : List Frame)
      → s.return_stack ≡ f ∷ rest
      → frame_is_finished m f ≡ ok false
      → frame_fetch_opcode m f ≡ ok (o, f')
      → frame_is_finished m f' ≡ ok true
      → worker_run_one_step cfg m s
        ≡ worker_execute_opcode cfg m true f' o (record s { return_stack = rest })
  last_step s f f' o rest e a b c = step-run_frame s f rest e ∙ run_frame-last f f' o _ a b c

  -- what the last opcode of a function pushes
  opcode-IsNew :
      (o : Opcode) (f : Frame) (s s' : Worker)
      → worker_execute_opcode cfg m true f o s ≡ ok (tt, s')
      → OverBy IsNew (pushes o) s.return_stack s'.return_stack
  opcode-IsNew o f s s' p =
      let grows =
        Grows-le {P = IsNew} {l = pushes o} (worker_execute_opcode cfg m true f o) (omega arith) (
          Grows-worker_execute_opcode {P = IsNew} true (λ f'. Grows-pure tt) (λ f' new. new) cfg m f
            o) in
      grows.over s tt s' p

  none_new : (rest new : List Frame) → OverBy IsNew 0 rest new → new ≡ rest
  none_new rest new ([], e, l, all) = e
  none_new rest new (f ∷ frames, e, l, all) = absurd (omega (arith, l))

  one_new :
      (rest new : List Frame)
      → OverBy IsNew 1 rest new
      → (new ≡ rest) ⊎ ((g : ℕ) × (new ≡ frame_new g ∷ rest))
  one_new rest new ([], e, l, all) = inl e
  one_new rest new (f ∷ [], e, l, ((g, is_new), u)) = inr (g, e ∙ ap (λ x. x ∷ rest) is_new)
  one_new rest new (f ∷ g ∷ frames, e, l, all) = absurd (omega (arith, l))

  applied :
      (a g : ℕ) (values : List Value) (f : Frame) (s : Worker)
      → worker_execute_opcode cfg m true f
          (apply a)
          (record s { value_stack = function g ∷ values })
        ≡ Base.◌>>=◌ (load_function m g) (λ callee.
          (if callee.arity == a then push_frame (frame_new g) else Worker.lift (err exited))
            (record s { value_stack = values }))
  unfolding worker_execute_opcode worker_apply pop_value
  applied a g values f s = Base.bind_assoc (load_function m g) _ _

  entered :
      (b : Bool) (g : ℕ) (s s' : Worker)
      → (if b then push_frame (frame_new g) else Worker.lift (err exited)) s ≡ ok (tt, s')
      → s'.return_stack ≡ frame_new g ∷ s.return_stack
  unfolding push_frame
  entered true g s s' p = sym (ap (λ r. r.1.return_stack) (ok_injective p))
  entered false g s s' p = cc

  -- An application of a function, when it returns, has pushed the frame of that function.
  called :
      (a g : ℕ) (values : List Value) (f : Frame) (s s' : Worker)
      → s.value_stack ≡ function g ∷ values
      → worker_execute_opcode cfg m true f (apply a) s ≡ ok (tt, s')
      → s'.return_stack ≡ frame_new g ∷ s.return_stack
  called a g values f s s' v p =
      let run =
        subst
          (λ vs.
            worker_execute_opcode cfg m true f (apply a) (record s { value_stack = vs })
            ≡ ok (tt, s'))
          v p in
      let (callee, q, r) = >>=-eq-ok (load_function m g) _ (sym (applied a g values f s) ∙ run) in
      entered (callee.arity == a) g (record s { value_stack = values }) s' r

  left :
      (o : Opcode) (values : List Value) (f : Frame) (s s' : Worker)
      → s.value_stack ≡ values
      → worker_execute_opcode cfg m true f o s ≡ ok (tt, s')
      → Leaves o values s.return_stack s'.return_stack
  left (apply a) (function g ∷ values) f s s' v p = called a g values f s s' v p
  left (apply a) values f s s' v p =
      one_new s.return_stack s'.return_stack (opcode-IsNew (apply a) f s s' p)
  left o values f s s' v p = none_new s.return_stack s'.return_stack (opcode-IsNew o f s s' p)

  -- A step of a frame that is at its function's last opcode, when it returns, has taken the frame off
  -- the return stack. It leaves the frames below as they are, under nothing, or under a new frame, at
  -- its function's first opcode, where the opcode applies; where it applies a function, under that
  -- function's new frame.
  pub tail_call :
      (s s' : Worker) (f f' : Frame) (o : Opcode) (rest : List Frame)
      → s.return_stack ≡ f ∷ rest
      → frame_is_finished m f ≡ ok false
      → frame_fetch_opcode m f ≡ ok (o, f')
      → frame_is_finished m f' ≡ ok true
      → worker_run_one_step cfg m s ≡ ok (tt, s')
      → Leaves o s.value_stack rest s'.return_stack
  tail_call s s' f f' o rest e a b c p =
      left o s.value_stack f' (record s { return_stack = rest }) s' refl
        (sym (last_step s f f' o rest e a b c) ∙ p)

  no_less : {a b : ℕ} → a ≡ b → b < a → ⊥
  no_less e h = omega arith

  -- frames over a base, one of which is on top
  split_top :
      {k : ℕ} (base new : List Frame)
      → Over k base new
      → length base < length new
      → (f : Frame) × (rest : List Frame) × (new ≡ f ∷ rest) × Over k base rest
  split_top base new ([], e, l) h = absurd (no_less (ap length e) h)
  split_top base new (f ∷ fs, e, l) h = (f, fs ++ base, e, (fs, refl, omega arith))

  no_more :
      {k : ℕ} (base new : List Frame)
      → Over k base new
      → ltb (length base) (length new) ≡ false
      → new ≡ base
  no_more base new ([], e, l) h = e
  no_more base new (f ∷ fs, e, l) h = absurd (
      false≢true (
        sym h
        ∙ lt→ltb (length base) (length new) (omega (arith, ap length e, length-append fs base))))

  Over-trans : {k l : ℕ} (x y z : List Frame) → Over k x y → Over l y z → Over (l + k) x z
  Over-trans x y z (a, e, p) (b, q, r) = (
    b ++ a,
    q ∙ (ap (λ t. b ++ t) e ∙ sym (append_assoc b a x)),
    omega (arith, length-append b a),
  )

  until-done :
      (fuel base : ℕ) (s : Worker)
      → ltb base (length s.return_stack) ≡ false
      → worker_run_until (suc fuel) cfg m base s ≡ ok (tt, s)
  unfolding worker_run_until
  until-done fuel base s q = rw q refl

  pub until-more :
      (fuel base : ℕ) (s : Worker)
      → ltb base (length s.return_stack) ≡ true
      → worker_run_until (suc fuel) cfg m base s
        ≡ Base.◌>>=◌ (worker_run_one_step cfg m s) (λ r. worker_run_until fuel cfg m base r.1)
  unfolding worker_run_until
  until-more fuel base s q = rw q refl

  -- The loop that starts with a base of frames below its own, when it returns, leaves exactly that
  -- base: a call by the scheduler neither leaks a frame nor takes one that is not its own.
  pub run_until_restores :
      (fuel k : ℕ) (s s' : Worker) (base : List Frame)
      → Over k base s.return_stack
      → worker_run_until fuel cfg m (length base) s ≡ ok (tt, s')
      → s'.return_stack ≡ base
  unfolding worker_run_until
  run_until_restores zero k s s' base o p = cc
  run_until_restores (suc fuel) k s s' base o p =
      elim (Bool-cases (ltb (length base) (length s.return_stack))) [
        | inl q ↦
            let ((u, s₁), step, more) =
              >>=-eq-ok (worker_run_one_step cfg m s) _
                (sym (until-more fuel (length base) s q) ∙ p) in
            let (f, rest, e, below) = split_top base s.return_stack o (ltb→lt (length base) _ q) in
            run_until_restores fuel (2 + k) s₁ s' base
              (Over-trans base rest s₁.return_stack below (one_step_frames s s₁ f rest e step)) more
        | inr q ↦
            sym (
              ap (λ x. x.1.return_stack)
                (ok_injective (sym (until-done fuel (length base) s q) ∙ p)))
            ∙ no_more base s.return_stack o q
      ]
