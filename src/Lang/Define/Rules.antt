-- ===== src/Lang/Define/Rules.antt =====
-- lang/define.c, `define_rule_star`: what a rule that is defined changes in the mod.
use inet_lisp.Base.{
  ℕ, ◌<◌, ◌≡◌, ◌≢◌, refl, sym, ap, ◌∙◌, List, [], ◌∷◌, ◌++◌, length, set, get_elem?-set_self,
  get_elem?-set_ne, get_elem?-append_end, get_elem?-append_left, lt_of_get_elem?, ok, deref, arith,
}
use inet_lisp.Net.Ctor.{Name, NodeCtor, Rule}
use inet_lisp.Net.Heap.{node_ctor}
use inet_lisp.Core.Mod.{Mod, Function, load_ctor, load_function}
use inet_lisp.Lang.Exp.{ExpList}
use inet_lisp.Lang.Compile.{mod_find, function_new, compile_set_variable_list, compile_exp_list}
use inet_lisp.Lang.Define.{NodePattern, auxiliary_names, push_rule, define_rule, define_rule_star}

-- a constructor with one more rule, the last
abbrev pub with_rule : NodeCtor → Rule → NodeCtor
with_rule ctor rule = record ctor { rule_array = ctor.rule_array ++ rule ∷ [] }

-- The mods differ in one constructor, which has one more rule.
pub record RulePushed (m m' : Mod) (c : ℕ) (ctor : NodeCtor) (rule : Rule) : Type 0 where
  pub has_rule : load_ctor m' c ≡ ok (with_rule ctor rule)
  pub others : (k : ℕ) → c ≢ k → load_ctor m' k ≡ load_ctor m k
  pub names : m'.value_hash ≡ m.value_hash
  pub functions : m'.functions ≡ m.functions

lt_of_load_ctor :
    (m : Mod) (c : ℕ) {ctor : NodeCtor} → load_ctor m c ≡ ok ctor → c < length m.node_ctors
unfolding load_ctor
lt_of_load_ctor m c {ctor} e = lt_of_get_elem? m.node_ctors c {a = ctor} (ground arith)

push_rule_lem :
    (m : Mod) (c : ℕ) (ctor : NodeCtor) (rule : Rule)
    → load_ctor m c ≡ ok ctor
    → (m' : Mod) × (push_rule m c rule ≡ ok m') × RulePushed m m' c ctor rule
unfolding push_rule load_ctor
push_rule_lem m c ctor rule e = (
  record m { node_ctors = set m.node_ctors c (with_rule ctor rule) },
  rw e refl,
  record {
    has_rule =
        ap deref (get_elem?-set_self m.node_ctors c (with_rule ctor rule) (lt_of_load_ctor m c e));
    others = λ k ne. ap deref (get_elem?-set_ne m.node_ctors (with_rule ctor rule) ne);
    names = refl;
    functions = refl;
  },
)

mod_find_eq :
    (m m' : Mod) (name : Name) → m'.value_hash ≡ m.value_hash → mod_find m' name ≡ mod_find m name
unfolding mod_find
mod_find_eq m m' name e = rw e refl

define_rule_lem :
    (m : Mod) (name : Name) (c : ℕ) (ctor : NodeCtor) (rule : Rule)
    → mod_find m name ≡ node_ctor c
    → load_ctor m c ≡ ok ctor
    → (m' : Mod) × (define_rule m name rule ≡ ok m') × RulePushed m m' c ctor rule
unfolding define_rule
define_rule_lem m name c ctor rule f e =
    let (m', p, w) = push_rule_lem m c ctor rule e in (m', rw (f, p) refl, w)

-- The mods differ by one rule of two constructors, and by its function.
pub record RuleDefined (m m' : Mod) (left right : ℕ) (left_ctor right_ctor : NodeCtor)
    (function : Function) (rule : Rule) : Type 0 where
  pub for_left : rule.left_node_ctor ≡ left
  pub for_right : rule.right_node_ctor ≡ right
  pub runs : load_function m' rule.function ≡ ok function
  pub left_has : load_ctor m' left ≡ ok (with_rule left_ctor rule)
  pub right_has : load_ctor m' right ≡ ok (with_rule right_ctor rule)
  pub others : (k : ℕ) → left ≢ k → right ≢ k → load_ctor m' k ≡ load_ctor m k
  pub names : m'.value_hash ≡ m.value_hash
  pub old_functions : (f : ℕ) → f < length m.functions → load_function m' f ≡ load_function m f

load_function_eq :
    (m m' : Mod) (f : ℕ) → m'.functions ≡ m.functions → load_function m' f ≡ load_function m f
unfolding load_function
load_function_eq m m' f e = rw e refl

-- the mod with the function of a rule
abbrev with_function : Mod → Function → Mod
with_function m function = record m { functions = m.functions ++ function ∷ [] }

load_function-new :
    (m : Mod) (function : Function)
    → load_function (with_function m function) (length m.functions) ≡ ok function
unfolding load_function
load_function-new m function = ap deref (get_elem?-append_end m.functions function)

load_function-old :
    (m : Mod) (function : Function) (f : ℕ)
    → f < length m.functions
    → load_function (with_function m function) f ≡ load_function m f
unfolding load_function
load_function-old m function f h = ap deref (get_elem?-append_left m.functions (function ∷ []) f h)

load_ctor-with_function :
    (m : Mod) (function : Function) (c : ℕ) → load_ctor (with_function m function) c ≡ load_ctor m c
unfolding load_ctor
load_ctor-with_function m function c = refl

mod_find-with_function :
    (m : Mod) (function : Function) (name : Name)
    → mod_find (with_function m function) name ≡ mod_find m name
unfolding mod_find
mod_find-with_function m function name = refl

module _ (m : Mod) (left right : NodePattern) (exps : ExpList) where
  -- A rule on the patterns of two different constructors, which their names lead to, whose body
  -- compiles: the definition succeeds, and both constructors get the rule, for the two in the order
  -- of the patterns, as their last. Its function is the body compiled behind the assignments to the
  -- names of the auxiliary ports, the left pattern's before the right's. Other constructors, the
  -- names and the functions that were there stay.
  pub define_rule_star_lem :
      (ln rn : List Name) (function : Function) (lc rc : NodeCtor)
      → auxiliary_names left.port_infos ≡ ok ln
      → auxiliary_names right.port_infos ≡ ok rn
      → compile_exp_list m
          (compile_set_variable_list (function_new (length (ln ++ rn))) (ln ++ rn))
          exps
        ≡ ok function
      → load_ctor m left.ctor ≡ ok lc
      → load_ctor m right.ctor ≡ ok rc
      → mod_find m lc.name ≡ node_ctor left.ctor
      → mod_find m rc.name ≡ node_ctor right.ctor
      → left.ctor ≢ right.ctor
      → (m' : Mod) × (rule : Rule) × (define_rule_star m (left ∷ right ∷ []) exps ≡ ok m')
        × RuleDefined m m' left.ctor right.ctor lc rc function rule
  unfolding define_rule_star
  define_rule_star_lem ln rn function lc rc el er ec ll lr fl fr ne =
      let m₀ = with_function m function in
      let rule : Rule = record {
        left_node_ctor = left.ctor;
        right_node_ctor = right.ctor;
        function = length m.functions;
      } in
      let (m₁, p, a) =
        define_rule_lem m₀ lc.name left.ctor lc rule
          (mod_find-with_function m function lc.name ∙ fl)
          (load_ctor-with_function m function left.ctor ∙ ll) in
      let (m₂, q, b) =
        define_rule_lem m₁ rc.name right.ctor rc rule
          (mod_find_eq m₀ m₁ rc.name a.names ∙ (mod_find-with_function m function rc.name ∙ fr))
          (a.others right.ctor ne ∙ (load_ctor-with_function m function right.ctor ∙ lr)) in
      (
        m₂,
        rule,
        rw (el, er, ec, ll, lr, p) q,
        record {
          for_left = refl;
          for_right = refl;
          runs =
              load_function_eq m₁ m₂ (length m.functions) b.functions
              ∙ (load_function_eq m₀ m₁ (length m.functions) a.functions
                  ∙ load_function-new m function);
          left_has = b.others left.ctor (λ e. ne (sym e)) ∙ a.has_rule;
          right_has = b.has_rule;
          others = λ k x y. b.others k y ∙ (a.others k x ∙ load_ctor-with_function m function k);
          names = b.names ∙ a.names;
          old_functions = λ f h.
              load_function_eq m₁ m₂ f b.functions
              ∙ (load_function_eq m₀ m₁ f a.functions ∙ load_function-old m function f h);
        },
      )
