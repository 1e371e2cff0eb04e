-- ===== src/Core/Worker/Grows.antt =====
-- What the operations of a worker may do to its return stack: push frames, and nothing else.
pub mod Ops
use mathlib.Core.List.{append_assoc}
use inet_lisp.Base.{
  ℕ, zero, suc, ◌+◌, ◌≤◌, ◌≡◌, refl, List, [], ◌∷◌, ◌++◌, Bool, true, false, if◌then◌else◌, Option,
  none, some, length, Result, ok, err, arith, ap, ◌∙◌, sym, length-append, >>=-eq-ok, ok_injective,
}
use inet_lisp.Base
use inet_lisp.Net.Heap.{Heap}
use inet_lisp.Core.Frame.{Frame, frame_new}
use inet_lisp.Core.Worker.{Worker, M, pure, ◌>>=◌, ◌>>◌, lift, get_heap, put_heap, on_heap}

-- The new stack is the old one under at most `k` frames.
abbrev pub Over : ℕ → List Frame → List Frame → Type 0
Over k old new = (frames : List Frame) × (new ≡ frames ++ old) × (length frames ≤ k)

abbrev pub AllOf : (Frame → Type 0) → List Frame → Type 0
AllOf P [] = Unit {0}
AllOf P (f ∷ frames) = P f × AllOf P frames

AllOf-append :
    (P : Frame → Type 0) (fs gs : List Frame) → AllOf P fs → AllOf P gs → AllOf P (fs ++ gs)
AllOf-append P [] gs a b = b
AllOf-append P (f ∷ fs) gs a b = (a.0, AllOf-append P fs gs a.1 b)

-- A frame at its function's first opcode, with no variable.
abbrev pub IsNew : Frame → Type 0
IsNew f = (g : ℕ) × (f ≡ frame_new g)

-- The same, where the frames have a property.
abbrev pub OverBy : (Frame → Type 0) → ℕ → List Frame → List Frame → Type 0
OverBy P k old new =
    (frames : List Frame) × (new ≡ frames ++ old) × (length frames ≤ k) × AllOf P frames

-- Whenever the computation returns, it has pushed at most `k` frames, which have the property.
pub record Grows {A : Type 0} (P : Frame → Type 0) (k : ℕ) (m : M A) : Type 0 where
  pub over :
      (s : Worker) (a : A) (s' : Worker)
      → m s ≡ ok (a, s')
      → OverBy P k s.return_stack s'.return_stack

module _ {P : Frame → Type 0} {A B : Type 0} where
  pub Grows-seq :
      {k l n : ℕ} (m : M A) (f : A → M B)
      → Grows P k m
      → ((a : A) → Grows P l (f a))
      → k + l ≤ n
      → Grows P n (m >>= f)
  Grows-seq {k} {l} {n} m f g h e = record {
    over = λ s b s' p.
        let ((a, s₁), q, r) = >>=-eq-ok (m s) (λ r. f r.0 r.1) p in
        let (new₁, e₁, l₁, p₁) = g.over s a s₁ q in
        let (new₂, e₂, l₂, p₂) = (h a).over s₁ b s' r in
        (
          new₂ ++ new₁,
          e₂ ∙ (ap (λ x. new₂ ++ x) e₁ ∙ sym (append_assoc new₂ new₁ s.return_stack)),
          omega (arith, length-append new₂ new₁),
          AllOf-append P new₂ new₁ p₂ p₁,
        );
  }

  pub Grows-bind :
      {l : ℕ} (m : M A) (f : A → M B)
      → Grows P 0 m
      → ((a : A) → Grows P l (f a))
      → Grows P l (m >>= f)
  Grows-bind {l} m f g h = Grows-seq m f g h (omega arith)

module _ {P : Frame → Type 0} {A : Type 0} where
  -- A computation that leaves the return stack alone.
  pub Grows-same :
      {k : ℕ} (m : M A)
      → ((s : Worker) (a : A) (s' : Worker) → m s ≡ ok (a, s') → s'.return_stack ≡ s.return_stack)
      → Grows P k m
  Grows-same m h = record { over = λ s a s' p. ([], h s a s' p, omega arith, tt) }

  pub Grows-le : {k l : ℕ} (m : M A) → k ≤ l → Grows P k m → Grows P l m
  Grows-le m le g = record {
    over = λ s a s' p.
        let (frames, e, l, all) = g.over s a s' p in (frames, e, omega (arith, l, le), all);
  }

  pub Grows-lift : {k : ℕ} (r : Result A) → Grows P k (lift r)
  Grows-lift r = Grows-same (lift r) λ s a s' p.
      let (b, q, e) = >>=-eq-ok r (λ a. ok (a, s)) p in
      sym (ap (λ x. x.1.return_stack) (ok_injective e))

  pub Grows-pure : {k : ℕ} (a : A) → Grows P k (pure a)
  Grows-pure a = Grows-same (pure a) λ s b s' p. sym (ap (λ x. x.1.return_stack) (ok_injective p))

  pub Grows-on_heap : {k : ℕ} (f : Heap → Result (A × Heap)) → Grows P k (on_heap f)
  Grows-on_heap f = Grows-same (on_heap f) λ s a s' p.
      let (b, q, e) = >>=-eq-ok (f s.nodes.heap) _ p in
      sym (ap (λ x. x.1.return_stack) (ok_injective e))

  pub Grows-if :
      {k : ℕ} (b : Bool) (x y : M A) → Grows P k x → Grows P k y → Grows P k (if b then x else y)
  Grows-if true x y h g = h
  Grows-if false x y h g = g

pub Grows-get_heap : {P : Frame → Type 0} {k : ℕ} → Grows P k get_heap
Grows-get_heap = Grows-same get_heap λ s b s' p. sym (ap (λ x. x.1.return_stack) (ok_injective p))

pub Grows-put_heap : {P : Frame → Type 0} {k : ℕ} (h : Heap) → Grows P k (put_heap h)
Grows-put_heap h =
    Grows-same (put_heap h) λ s b s' p. sym (ap (λ x. x.1.return_stack) (ok_injective p))

AllOf-weaken :
    {P Q : Frame → Type 0} (frames : List Frame)
    → ((f : Frame) → P f → Q f)
    → AllOf P frames
    → AllOf Q frames
AllOf-weaken [] h all = tt
AllOf-weaken (f ∷ frames) h all = (h f all.0, AllOf-weaken frames h all.1)

pub Grows-weaken :
    {P Q : Frame → Type 0} {A : Type 0} {k : ℕ} (m : M A)
    → ((f : Frame) → P f → Q f)
    → Grows P k m
    → Grows Q k m
Grows-weaken m h g = record {
  over = λ s a s' p.
      let (frames, e, l, all) = g.over s a s' p in (frames, e, l, AllOf-weaken frames h all);
}
