-- ===== src/Base/Reverse.antt =====
-- Lists reversed in front of others, as a stack takes them.
use Prim.Native.Nat.{ℕ, zero, suc, ◌+◌, ◌-◌}
use mathlib.Core.Path.{◌≡◌, refl, subst}
use mathlib.Core.Option.{some}
use mathlib.Core.List.{List, [], ◌∷◌, ◌++◌}
use native.Mathlib.Omega.{arith}
use inet_lisp.Base.Lists.{length, get_elem?}

-- the first list reversed in front of the second
abbrev pub reverse_onto {ℓ} : {A : Type ℓ} → List A → List A → List A
reverse_onto [] ys = ys
reverse_onto (x ∷ xs) ys = reverse_onto xs (x ∷ ys)

module _ {A : Type 0} where
  pub reverse_onto_nil : (xs ys zs : List A) → reverse_onto xs (ys ++ zs) ≡ reverse_onto xs ys ++ zs
  reverse_onto_nil [] ys zs = refl
  reverse_onto_nil (x ∷ xs) ys zs = reverse_onto_nil xs (x ∷ ys) zs

  pub length-reverse_onto : (xs ys : List A) → length (reverse_onto xs ys) ≡ length xs + length ys
  length-reverse_onto [] ys = omega arith
  length-reverse_onto (x ∷ xs) ys = omega (arith, length-reverse_onto xs (x ∷ ys))

  get_elem?-reverse_onto_past :
      (xs ys : List A) (j : ℕ) {v : A}
      → get_elem? ys j ≡ some v
      → get_elem? (reverse_onto xs ys) (length xs + j) ≡ some v
  get_elem?-reverse_onto_past [] ys j {v} e =
      let same : j ≡ 0 + j = omega arith in subst (λ k. get_elem? ys k ≡ some v) same e
  get_elem?-reverse_onto_past (x ∷ xs) ys j {v} e =
      let same : length xs + suc j ≡ suc (length xs) + j = omega arith in
      subst (λ k. get_elem? (reverse_onto xs (x ∷ ys)) k ≡ some v) same
        (get_elem?-reverse_onto_past xs (x ∷ ys) (suc j) e)

  pub get_elem?-reverse_onto :
      (xs ys : List A) (i : ℕ) {v : A}
      → get_elem? xs i ≡ some v
      → get_elem? (reverse_onto xs ys) (length xs - 1 - i) ≡ some v
  get_elem?-reverse_onto [] ys i e = cc
  get_elem?-reverse_onto (x ∷ xs) ys zero {v} e =
      let same : length xs + 0 ≡ suc (length xs) - 1 - 0 = omega arith in
      subst (λ k. get_elem? (reverse_onto xs (x ∷ ys)) k ≡ some v) same
        (get_elem?-reverse_onto_past xs (x ∷ ys) 0 e)
  get_elem?-reverse_onto (x ∷ xs) ys (suc i) {v} e =
      let same : length xs - 1 - i ≡ suc (length xs) - 1 - suc i = omega arith in
      subst (λ k. get_elem? (reverse_onto xs (x ∷ ys)) k ≡ some v) same
        (get_elem?-reverse_onto xs (x ∷ ys) i e)

  pub reverse_onto-append :
      (xs ys zs : List A) → reverse_onto ys (reverse_onto xs zs) ≡ reverse_onto (xs ++ ys) zs
  reverse_onto-append [] ys zs = refl
  reverse_onto-append (x ∷ xs) ys zs = reverse_onto-append xs ys (x ∷ zs)

  pub reverse_onto-reverse_onto :
      (xs ys zs : List A) → reverse_onto (reverse_onto xs ys) zs ≡ reverse_onto ys (xs ++ zs)
  reverse_onto-reverse_onto [] ys zs = refl
  reverse_onto-reverse_onto (x ∷ xs) ys zs = reverse_onto-reverse_onto xs (x ∷ ys) zs
