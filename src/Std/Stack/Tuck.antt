-- ===== src/Std/Stack/Tuck.antt =====
-- `stack_tuck_n` of packages/std/stack/stack.h.
use inet_lisp.Base.{
  reverse_onto, reverse_onto-reverse_onto, ◌≡◌, refl, List, [], ◌∷◌, ◌++◌, Bool, false, ok, length,
  ◌∙◌,
}
use inet_lisp.Std.Array.Laws
use inet_lisp.Std.Stack.{Stack, pop_values, push_values, stack_tuck_n}
use inet_lisp.Std.Stack.Refine.{items, items-stack_push, items-stack_pop}

-- no value of the list is null
abbrev pub NonNull {ℓ} : {A : Type ℓ} → (A → Bool) → List A → Type 0
NonNull is_null [] = Unit
NonNull is_null (x ∷ xs) = (is_null x ≡ false) × NonNull is_null xs

module _ {A : Type 0} (null : A) (is_null : A → Bool) where
  reverse_onto-NonNull :
      (xs ys : List A)
      → NonNull is_null xs
      → NonNull is_null ys
      → NonNull is_null (reverse_onto xs ys)
  reverse_onto-NonNull [] ys h k = k
  reverse_onto-NonNull (x ∷ xs) ys h k = reverse_onto-NonNull xs (x ∷ ys) h.1 (h.0, k)

  pop_values_lem :
      (xs ys l : List A) (s : Stack A)
      → Laws.IsValid s.array
      → items null s ≡ xs ++ ys
      → NonNull is_null xs
      → (t : Stack A) × (pop_values null is_null (length xs) s l ≡ ok (reverse_onto xs l, t))
        × Laws.IsValid t.array
        × (items null t ≡ ys)
  unfolding pop_values
  pop_values_lem [] ys l s v e h = (s, refl, v, e)
  pop_values_lem (x ∷ xs) ys l s v e h =
      let (t, p, w, q) = items-stack_pop null s x (xs ++ ys) v e in
      let (u, p', w', q') = pop_values_lem xs ys (x ∷ l) t w q h.1 in (u, rw (p, h.0) p', w', q')

  push_values_lem :
      (l : List A) (s : Stack A)
      → Laws.IsValid s.array
      → NonNull is_null l
      → (t : Stack A) × (push_values null is_null l s ≡ ok t)
        × Laws.IsValid t.array
        × (items null t ≡ reverse_onto l (items null s))
  unfolding push_values
  push_values_lem [] s v h = (s, refl, v, refl)
  push_values_lem (x ∷ l) s v h =
      let (t, p, w, q) = items-stack_push null s x v in
      let (u, p', w', q') = push_values_lem l t w h.1 in (u, rw (h.0, p) p', w', rw (← q) q')

  -- On a valid stack with at least `n` non-null values on top, `stack_tuck_n` succeeds, keeps the
  -- stack valid, and puts the target beneath exactly those values.
  pub stack_tuck_n_lem :
      (xs ys : List A) (s : Stack A) (target : A)
      → Laws.IsValid s.array
      → items null s ≡ xs ++ ys
      → NonNull is_null xs
      → (t : Stack A) × (stack_tuck_n null is_null s target (length xs) ≡ ok t)
        × Laws.IsValid t.array
        × (items null t ≡ xs ++ target ∷ ys)
  unfolding stack_tuck_n
  stack_tuck_n_lem xs ys s target v e h =
      let (s₁, p₁, v₁, q₁) = pop_values_lem xs ys [] s v e h in
      let (s₂, p₂, v₂, q₂) = items-stack_push null s₁ target v₁ in
      let (s₃, p₃, v₃, q₃) =
        push_values_lem (reverse_onto xs []) s₂ v₂ (reverse_onto-NonNull xs [] h tt) in
      (s₃, rw (p₁, p₂) p₃, v₃, q₃ ∙ rw (q₂, q₁) (reverse_onto-reverse_onto xs [] (target ∷ ys)))
