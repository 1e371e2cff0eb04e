-- ===== src/Lang/Compile/Extends.antt =====
-- lang/compile.c: compilation only adds to a function.
use mathlib.Core.List.{append_assoc, append-nil}
use inet_lisp.Base.{
  ℕ, zero, suc, ◌≡◌, refl, sym, ap, ◌∙◌, subst, List, [], ◌∷◌, ◌++◌, Bool, true, false,
  if◌then◌else◌, Option, none, some, Option-cases, Bool-cases, inl, inr, Result, ok, err, >>=-eq-ok,
  ok_injective,
}
use inet_lisp.Base
use inet_lisp.Net.Ctor.{Name}
use inet_lisp.Value.Xint.{xint}
use inet_lisp.Value.Tags.{xfloat_of_bits}
use inet_lisp.Net.Heap.{is_null, word}
use inet_lisp.Core.Mod.{Mod, Function, Opcode, apply, literal, get_variable, set_variable}
use inet_lisp.Lang.Exp.{
  Exp, ExpList, exp_var, exp_ap, exp_assign, exp_int, exp_float, exp_null, exp_nil, exp_cons,
}
use inet_lisp.Lang.Compile.{
  hash_get_entry, mod_find, function_add_opcode, compile_set_variable, compile_set_variable_list,
  maybe_compile_get_variable, compile_literal, exp_list_length, compile_exp, compile_exp_list,
}
use inet_lisp.Lang.Compile.Binding.{hash_get_entry-append, compile_set_variable-new}

-- The second function is the first with opcodes added behind; names keep their variables.
pub record Extends (f f' : Function) : Type 0 where
  pub added : List Opcode
  pub code : f'.opcode_array ≡ f.opcode_array ++ added
  pub arity : f'.arity ≡ f.arity
  pub names :
      (name : Name) (i : ℕ)
      → hash_get_entry f.local_index_hash name ≡ some i
      → hash_get_entry f'.local_index_hash name ≡ some i

Extends-refl : (f : Function) → Extends f f
Extends-refl f = record {
  added = [];
  code = sym (append-nil f.opcode_array);
  arity = refl;
  names = λ name i e. e;
}

Extends-trans : {f g h : Function} → Extends f g → Extends g h → Extends f h
Extends-trans {f} x y = record {
  added = x.added ++ y.added;
  code = y.code ∙ (ap (λ l. l ++ y.added) x.code ∙ append_assoc f.opcode_array x.added y.added);
  arity = y.arity ∙ x.arity;
  names = λ name i e. y.names name i (x.names name i e);
}

Extends-function_add_opcode : (f : Function) (o : Opcode) → Extends f (function_add_opcode f o)
unfolding function_add_opcode
Extends-function_add_opcode f o = record {
  added = o ∷ [];
  code = refl;
  arity = refl;
  names = λ name i e. e;
}

found_before :
    (xs ys : List (Name × ℕ)) (name : Name) (i : ℕ)
    → hash_get_entry xs name ≡ some i
    → hash_get_entry (xs ++ ys) name ≡ some i
found_before xs ys name i e = hash_get_entry-append xs ys name ∙ rw e refl

compile_set_variable-old :
    (f : Function) (name : Name) (i : ℕ)
    → hash_get_entry f.local_index_hash name ≡ some i
    → compile_set_variable f name ≡ function_add_opcode f (set_variable i)
unfolding compile_set_variable
compile_set_variable-old f name i e =
    let index = Base.length f.local_index_hash in
    ap
      (λ o. elim o [
        | some old_index ↦ function_add_opcode f (set_variable old_index)
        | none ↦
            function_add_opcode
              (record f { local_index_hash = f.local_index_hash ++ (name, index) ∷ [] })
              (set_variable index)
      ])
      e

Extends-compile_set_variable :
    (f : Function) (name : Name) → Extends f (compile_set_variable f name)
Extends-compile_set_variable f name = elim (Option-cases (hash_get_entry f.local_index_hash name)) [
  | inl new ↦ subst (Extends f) (sym (compile_set_variable-new f name new)) (record {
    added = set_variable (Base.length f.local_index_hash) ∷ [];
    code = refl;
    arity = refl;
    names = λ n i e. found_before f.local_index_hash _ n i e;
  })
  | inr (i, old) ↦
      subst (Extends f) (sym (compile_set_variable-old f name i old))
        (Extends-function_add_opcode f (set_variable i))
]

Extends-compile_set_variable_list :
    (f : Function) (names : List Name) → Extends f (compile_set_variable_list f names)
unfolding compile_set_variable_list
Extends-compile_set_variable_list f [] = Extends-refl f
Extends-compile_set_variable_list f (name ∷ names) =
    Extends-trans (Extends-compile_set_variable_list f names)
      (Extends-compile_set_variable (compile_set_variable_list f names) name)

Extends-compile_literal :
    (m : Mod) (f : Function) (name : Name) {f' : Function}
    → compile_literal m f name ≡ ok f'
    → Extends f f'
unfolding compile_literal
Extends-compile_literal m f name e = elim (Bool-cases (is_null (mod_find m name))) [
  | inl undefined ↦ absurd (not_ok (rw undefined at e))
  | inr found ↦
      subst (Extends f) (ok_injective (rw found at e))
        (Extends-function_add_opcode f (literal (mod_find m name)))
]
  where
    not_ok : {r : Function} → err Base.exited ≡ ok r → ⊥
    not_ok q = cc

get_or_function : Function → Option Function → Function
get_or_function d none = d
get_or_function d (some f) = f

Extends-get_variable :
    (f : Function) (o : Option ℕ) (c : Function)
    → (elim o [ none ↦ none | some index ↦ some (function_add_opcode f (get_variable index)) ])
      ≡ some c
    → Extends f c
unfolding get_or_function
Extends-get_variable f none c e = cc
Extends-get_variable f (some i) c e =
    subst (Extends f) (ap (get_or_function f) e) (Extends-function_add_opcode f (get_variable i))

Extends-maybe_compile_get_variable :
    (m : Mod) (f : Function) (name : Name) (o : Option Function)
    → maybe_compile_get_variable f name ≡ o
    → {f' : Function}
    → (elim o [ some compiled ↦ ok compiled | none ↦ compile_literal m f name ]) ≡ ok f'
    → Extends f f'
unfolding maybe_compile_get_variable
Extends-maybe_compile_get_variable m f name none q e = Extends-compile_literal m f name e
Extends-maybe_compile_get_variable m f name (some c) q e =
    subst (Extends f) (ok_injective e)
      (Extends-get_variable f (hash_get_entry f.local_index_hash name) c q)

mutual
  unfolding compile_exp

  exp-Extends :
      (m : Mod) (f : Function) (exp : Exp) {f' : Function}
      → compile_exp m f exp ≡ ok f'
      → Extends f f'
  exp-Extends m f (exp_var name) e =
      Extends-maybe_compile_get_variable m f name (maybe_compile_get_variable f name) refl e
  exp-Extends m f (exp_ap target args) e =
      let (f₁, p, r) = >>=-eq-ok (compile_exp_list m f args) _ e in
      let (f₂, q, t) = >>=-eq-ok (compile_exp m f₁ target) _ r in
      Extends-trans (exp_list-Extends m f args p) (
        Extends-trans (exp-Extends m f₁ target q) (
          subst (Extends f₂) (ok_injective t)
            (Extends-function_add_opcode f₂ (apply (exp_list_length args)))))
  exp-Extends m f (exp_assign names exp) e =
      let (f₁, p, r) = >>=-eq-ok (compile_exp m f exp) _ e in
      Extends-trans (exp-Extends m f exp p)
        (subst (Extends f₁) (ok_injective r) (Extends-compile_set_variable_list f₁ names))
  exp-Extends m f (exp_int z) e =
      subst (Extends f) (ok_injective e) (Extends-function_add_opcode f (literal (word (xint z))))
  exp-Extends m f (exp_float d) e =
      subst (Extends f) (ok_injective e)
        (Extends-function_add_opcode f (literal (word (xfloat_of_bits d))))
  exp-Extends m f exp_null e = cc

  exp_list-Extends :
      (m : Mod) (f : Function) (exps : ExpList) {f' : Function}
      → compile_exp_list m f exps ≡ ok f'
      → Extends f f'
  exp_list-Extends m f exp_nil e = subst (Extends f) (ok_injective e) (Extends-refl f)
  exp_list-Extends m f (exp_cons exp exps) e =
      let (f₁, p, r) = >>=-eq-ok (compile_exp m f exp) _ e in
      Extends-trans (exp-Extends m f exp p) (exp_list-Extends m f₁ exps r)

-- Compiling expressions, when it succeeds, only adds opcodes behind those of the function, and a
-- name that had a variable keeps it: what the function did before it still does first.
pub compile_exp_list-Extends :
    (m : Mod) (f : Function) (exps : ExpList) (f' : Function)
    → compile_exp_list m f exps ≡ ok f'
    → Extends f f'
compile_exp_list-Extends m f exps f' e = exp_list-Extends m f exps e
