-- ===== src/Core/Worker/Run/Pushes.antt =====
-- core/worker_run_until.c: the frames that one opcode pushes.
use inet_lisp.Base.{ℕ, ◌+◌, ◌≤◌, Bool, true, false, arith}
use inet_lisp.Core.Mod.{Mod, Opcode, apply, literal, get_variable, set_variable}
use inet_lisp.Core.Frame.{Frame}
use inet_lisp.Core.Worker.{Config}
use inet_lisp.Core.Worker.Run.{keep_frame, apply_fuel, worker_execute_opcode}
use inet_lisp.Core.Worker.Grows.{
  IsNew, Grows, Grows-le, Grows-weaken, Grows-seq, Grows-bind, Grows-lift, Grows-pure,
}
use inet_lisp.Core.Worker.Grows.Ops.{
  Grows-push_value, Grows-pop_value, Grows-push_frame, Grows-worker_apply,
}

-- the frames that `keep_frame` pushes
abbrev pub kept : Bool → ℕ
kept true = 0
kept false = 1

-- the frames that an opcode pushes
abbrev pub pushes : Opcode → ℕ
pushes (apply a) = 1
pushes _ = 0

pub kept_le : (b : Bool) → kept b ≤ 1
kept_le true = omega arith
kept_le false = omega arith

pub pushes_le : (o : Opcode) → pushes o ≤ 1
pushes_le (apply a) = omega arith
pushes_le _ = omega arith

abbrev pub AnyFrame : Frame → Type 0
AnyFrame f = Unit {0}

pub Grows-keep_frame : (b : Bool) (f : Frame) → Grows AnyFrame (kept b) (keep_frame b f)
Grows-keep_frame true f = Grows-pure tt
Grows-keep_frame false f = Grows-push_frame f tt

-- An opcode pushes the frame that is kept and, if it applies, a new one.
module _ {P : Frame → Type 0} (last : Bool)
    (keep : (f : Frame) → Grows P (kept last) (keep_frame last f))
    (new : (f : Frame) → IsNew f → P f) where
  pub Grows-worker_execute_opcode :
      (cfg : Config) (m : Mod) (f : Frame) (o : Opcode)
      → Grows P (kept last + pushes o) (worker_execute_opcode cfg m last f o)
  unfolding worker_execute_opcode
  Grows-worker_execute_opcode cfg m f (apply a) =
      Grows-seq {l = 1} _ _ (keep f)
        (λ _.
          Grows-bind _ _ Grows-pop_value
            λ v. Grows-weaken _ new (Grows-worker_apply apply_fuel cfg m v a))
        (omega arith)
  Grows-worker_execute_opcode cfg m f (literal v) =
      Grows-seq _ _ (keep f) (λ _. Grows-push_value {k = 0} v) (omega arith)
  Grows-worker_execute_opcode cfg m f (get_variable i) = Grows-bind _ _ (Grows-lift _) λ r.
      Grows-seq {k = kept last} {l = 0} _ _ (keep r.1) (λ _. Grows-push_value r.0) (omega arith)
  Grows-worker_execute_opcode cfg m f (set_variable i) =
      Grows-bind _ _ Grows-pop_value
        λ v. Grows-bind _ _ (Grows-lift _) λ f'. Grows-le _ (omega arith) (keep f')
