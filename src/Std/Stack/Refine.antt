-- ===== src/Std/Stack/Refine.antt =====
-- The stack of packages/std/stack against a list, last pushed first.
use mathlib.Core.Path.{ap₂}
use native.Mathlib.Numerals.{add-one}
use inet_lisp.Base.{
  ◌∙◌, ℕ, zero, suc, ◌+◌, ◌-◌, ◌<◌, ◌≡◌, refl, List, [], ◌∷◌, ok, err, assertion_failed, get_or,
  arith, ◌==◌, if◌then◌else◌,
}
use inet_lisp.Std.Array.{array_pop}
use inet_lisp.Std.Array.Laws
use inet_lisp.Std.Array.Laws.{array_push_lem, array_pop_lem}
use inet_lisp.Std.Stack.{Stack, stack_push, stack_pop}

module _ {A : Type 0} (null : A) where
  -- the `n` lowest slots, the highest of them first
  abbrev pub below : List A → ℕ → List A
  below xs zero = []
  below xs (suc n) = get_or xs n null ∷ below xs n

  abbrev pub items : Stack A → List A
  items s = below s.array.values s.array.cursor

  -- A write at or above a height leaves what lies below it.
  below-agree :
      (xs ys : List A) (n : ℕ)
      → ((j : ℕ) → j < n → get_or xs j null ≡ get_or ys j null)
      → below xs n ≡ below ys n
  below-agree xs ys zero h = refl
  below-agree xs ys (suc n) h =
      rw (h n (omega arith), below-agree xs ys n (λ j k. h j (omega arith))) refl

  -- The slot at a height, with what lies below it.
  below-top :
      (xs ys : List A) (n m : ℕ) (value : A)
      → m ≡ n + 1
      → ((j : ℕ) → get_or ys j null ≡ (if n == j then value else get_or xs j null))
      → below ys m ≡ value ∷ below xs n
  below-top xs ys n m value e h =
      rw (e, add-one)
        (ap₂ ◌∷◌ (ground (arith, h n)) (below-agree ys xs n (λ j k. ground (arith, h j))))

  -- What a first item says of the height and of its slot.
  below-cons :
      (xs : List A) (n : ℕ) (x : A) (r : List A)
      → below xs n ≡ x ∷ r
      → (0 < n) × (get_or xs (n - 1) null ≡ x) × (below xs (n - 1) ≡ r)
  below-cons xs zero x r e = cc
  below-cons xs (suc n) x r e =
      let p : suc n - 1 ≡ n = omega arith in (omega arith, rw p (cc), rw p (cc))

  below-nil : (xs : List A) (n : ℕ) → below xs n ≡ [] → n ≡ 0
  below-nil xs zero e = refl
  below-nil xs (suc n) e = cc

module _ {A : Type 0} (null : A) where
  -- A push on a valid stack succeeds, keeps it valid, and puts the value in front of its items.
  pub items-stack_push :
      (s : Stack A) (value : A)
      → Laws.IsValid s.array
      → (t : Stack A) × (stack_push null s value ≡ ok t)
        × Laws.IsValid t.array
        × (items null t ≡ value ∷ items null s)
  unfolding stack_push
  items-stack_push s value v =
      let (b, e, w, c, r) = array_push_lem null s.array value v in
      (
        record { array = b },
        rw e refl,
        w,
        below-top null s.array.values b.values s.array.cursor b.cursor value c r,
      )

  -- A pop on a valid stack gives the first item and leaves the others, and the stack valid.
  pub items-stack_pop :
      (s : Stack A) (x : A) (r : List A)
      → Laws.IsValid s.array
      → items null s ≡ x ∷ r
      → (t : Stack A) × (stack_pop null s ≡ ok (x, t)) × Laws.IsValid t.array × (items null t ≡ r)
  unfolding stack_pop
  items-stack_pop s x r v e =
      let (h, top, rest) = below-cons null s.array.values s.array.cursor x r e in
      let (b, p, w, c, q) = array_pop_lem null s.array v h in
      (
        record { array = b },
        rw (p, top) refl,
        w,
        rw c (
            below-agree null b.values s.array.values (s.array.cursor - 1)
              (λ j k. ground (arith, q j))
            ∙ rest),
      )

  -- A pop on an empty stack stops at the assertion.
  pub stack_pop-empty : (s : Stack A) → items null s ≡ [] → stack_pop null s ≡ err assertion_failed
  unfolding stack_pop array_pop
  stack_pop-empty s e = ground (arith, below-nil null s.array.values s.array.cursor e)
