-- ===== src/Std/Path/Normal.antt =====
-- packages/std/path/path.c: the stacks of segments that a path can have.
use inet_lisp.Base.{
  ℕ, List, [], ◌∷◌, Bool, true, false, ◌==◌, if◌then◌else◌, ◌≡◌, refl, sym, subst, Bool-cases, inl,
  inr,
}
use inet_lisp.Std.String.{String, string_equal, string_is_empty}
use inet_lisp.Std.Path.{slash, dot, dot_dot, path_execute, path_leave}
use inet_lisp.Std.Path.Split.{split, onto_first, execute_all, SlashFree}

pub record IsName (s : String) : Type 0 where
  pub filled : string_is_empty s ≡ false
  pub not_dot : string_equal s dot ≡ false
  pub not_dot_dot : string_equal s dot_dot ≡ false
  pub free : SlashFree s

pub data AllUps : List String → Type 0 where
  at_root : AllUps []
  above : {segment_stack : List String} → AllUps segment_stack → AllUps (dot_dot ∷ segment_stack)

-- Names, on top of `..` alone.
pub data Normal : List String → Type 0 where
  ups : {segment_stack : List String} → AllUps segment_stack → Normal segment_stack
  name :
      (s : String) {segment_stack : List String}
      → IsName s
      → Normal segment_stack
      → Normal (s ∷ segment_stack)

unfoldable pub AllFree : List String → Type 0
AllFree [] = Unit {0}
AllFree (s ∷ segments) = SlashFree s × AllFree segments

onto_first-AllFree :
    (c : ℕ) (segments : List String)
    → (c == slash) ≡ false
    → AllFree segments
    → AllFree (onto_first c segments)
unfolding AllFree SlashFree
onto_first-AllFree c [] e f = ((e, tt), tt)
onto_first-AllFree c (s ∷ segments) e f = ((e, f.0), f.1)

pub split-AllFree : (s : String) → AllFree (split s)
unfolding split AllFree SlashFree
split-AllFree [] = (tt, tt)
split-AllFree (c ∷ cs) = elim (Bool-cases (c == slash)) [
  | inl e ↦
      subst (λ b. AllFree (if b then [] ∷ split cs else onto_first c (split cs))) (sym e)
        (tt, split-AllFree cs)
  | inr e ↦
      subst (λ b. AllFree (if b then [] ∷ split cs else onto_first c (split cs))) (sym e)
        (onto_first-AllFree c (split cs) e (split-AllFree cs))
]

-- A segment keeps the stack normal.
leave-Normal :
    (segment_stack : List String) → Normal segment_stack → Normal (path_leave segment_stack)
unfolding path_leave string_equal
leave-Normal [] n = ups (above at_root)
leave-Normal (top ∷ segment_stack) (ups (above u)) = ups (above (above u))
leave-Normal (top ∷ segment_stack) (name s i n) =
    subst (λ b. Normal (if b then dot_dot ∷ top ∷ segment_stack else segment_stack))
      (sym i.not_dot_dot) n

pick {ℓ} :
    {A : Type ℓ} (P : A → Type 0) (b : Bool) {x y : A}
    → (b ≡ true → P x)
    → (b ≡ false → P y)
    → P (if b then x else y)
pick P true f g = f refl
pick P false f g = g refl

path_execute-Normal :
    (segment_stack : List String) (s : String)
    → SlashFree s
    → Normal segment_stack
    → Normal (path_execute segment_stack s)
unfolding path_execute
path_execute-Normal segment_stack s f n =
    pick Normal (string_is_empty s) (λ e. n)
      (λ filled.
        pick Normal (string_equal s dot) (λ e. n)
          (λ not_dot.
            pick Normal (string_equal s dot_dot) (λ e. leave-Normal segment_stack n)
              (λ not_dot_dot.
                name s
                  (record {
                    filled = filled;
                    not_dot = not_dot;
                    not_dot_dot = not_dot_dot;
                    free = f;
                  })
                  n)))

pub execute_all-Normal :
    (segment_stack segments : List String)
    → AllFree segments
    → Normal segment_stack
    → Normal (execute_all segment_stack segments)
unfolding execute_all AllFree
execute_all-Normal segment_stack [] f n = n
execute_all-Normal segment_stack (s ∷ segments) f n =
    execute_all-Normal (path_execute segment_stack s) segments f.1
      (path_execute-Normal segment_stack s f.0 n)
