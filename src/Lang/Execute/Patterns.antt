-- ===== src/Lang/Execute/Patterns.antt =====
-- lang/execute.c: the patterns of a rule, which a pattern with others inside it stands for.
use inet_lisp.Base.{List, [], ◌∷◌, ◌++◌, Result, ok, ◌>>=◌, ◌≡◌, refl, ap, ◌∙◌, Bool, ℕ, bind_assoc}
use inet_lisp.Std.String.{String}
use inet_lisp.Net.Ctor.{Name}
use inet_lisp.Core.Mod.{Mod}
use inet_lisp.Core.Worker.{Config, Worker}
use inet_lisp.Lang.Exp.{Exp, ExpList, exp_var, exp_ap, exp_nil, exp_cons, exp_copy}
use inet_lisp.Lang.Stmt.{stmt_define_rule, stmt_define_rule_star}
use inet_lisp.Lang.Execute.{
  bang, exp_list_push, translate_pattern_arg_list, translate_pattern_sub_tree,
  translate_pattern_tree, execute,
}
use mathlib.Core.List.{append_assoc, append-nil}

-- A pattern has the name of a node and its places, each the name of a port or another pattern.
mutual
  pub data PatternTree : Type 0 where
    node : Name → PlaceList → PatternTree

  pub data PlaceList : Type 0 where
    done : PlaceList
    port : Name → PlaceList → PlaceList
    inner : PatternTree → PlaceList → PlaceList

-- The expression that is written for a tree.
unfoldable mutual
  pub tree_exp : PatternTree → Exp
  tree_exp (node name places) = exp_ap (exp_var name) (place_exp_list places)

  pub place_exp_list : PlaceList → ExpList
  place_exp_list done = exp_nil
  place_exp_list (port name places) = exp_cons (exp_var name) (place_exp_list places)
  place_exp_list (inner tree places) = exp_cons (tree_exp tree) (place_exp_list places)

-- A flat pattern: the name of a node and the names of its ports.
unfoldable pub var_list : List Name → ExpList
var_list [] = exp_nil
var_list (name ∷ name_list) = exp_cons (exp_var name) (var_list name_list)

unfoldable pub flat_exp_list : List (Name × List Name) → ExpList
unfolding var_list
flat_exp_list [] = exp_nil
flat_exp_list ((name, name_list) ∷ flat_list) =
    exp_cons (exp_ap (exp_var name) (var_list name_list)) (flat_exp_list flat_list)

unfoldable pub place_names : PlaceList → List Name
place_names done = []
place_names (port name places) = name ∷ place_names places
place_names (inner tree places) = bang ∷ place_names places

-- The flat patterns of what is inside, those of the later places first.
unfoldable pub inner_patterns : PlaceList → List (Name × List Name)
unfolding place_names
inner_patterns done = []
inner_patterns (port name places) = inner_patterns places
inner_patterns (inner (node name inner_places) places) =
    inner_patterns places
    ++ (name, place_names inner_places ++ bang ∷ []) ∷ inner_patterns inner_places

unfoldable pub tree_patterns : PatternTree → List (Name × List Name)
unfolding inner_patterns
tree_patterns (node name places) = (name, place_names places) ∷ inner_patterns places

exp_list_push-var_list :
    (names : List Name) (name : Name)
    → exp_list_push (var_list names) (exp_var name) ≡ var_list (names ++ name ∷ [])
unfolding exp_list_push var_list
exp_list_push-var_list [] name = refl
exp_list_push-var_list (first ∷ names) name =
    ap (exp_cons (exp_var first)) (exp_list_push-var_list names name)

-- One round of the loop at a name, and at another pattern.
arg_list-port :
    (name : Name) (arg_list patterns : ExpList)
    → translate_pattern_arg_list (exp_cons (exp_var name) arg_list) patterns ≡ (
        translate_pattern_arg_list arg_list patterns
        >>= (λ r. ok (exp_cons (exp_var name) r.0, r.1)))
unfolding translate_pattern_arg_list exp_copy
arg_list-port name arg_list patterns = refl

arg_list-nil :
    (patterns : ExpList) → translate_pattern_arg_list exp_nil patterns ≡ ok (exp_nil, patterns)
unfolding translate_pattern_arg_list
arg_list-nil patterns = refl

arg_list-inner :
    (name : Name) (inner_list arg_list patterns : ExpList)
    → translate_pattern_arg_list (exp_cons (exp_ap (exp_var name) inner_list) arg_list) patterns ≡ (
        translate_pattern_arg_list inner_list patterns >>= (λ r.
          translate_pattern_arg_list arg_list
            (exp_cons (exp_ap (exp_var name) (exp_list_push r.0 (exp_var bang))) r.1)
          >>= (λ q. ok (exp_cons (exp_var bang) q.0, q.1))))
unfolding translate_pattern_arg_list translate_pattern_sub_tree exp_copy
arg_list-inner name inner_list arg_list patterns =
    bind_assoc (translate_pattern_arg_list inner_list patterns) _ _

translate_pattern_arg_list_lem :
    (places : PlaceList) (flat_list : List (Name × List Name))
    → translate_pattern_arg_list (place_exp_list places) (flat_exp_list flat_list)
      ≡ ok (var_list (place_names places), flat_exp_list (inner_patterns places ++ flat_list))
unfolding place_exp_list flat_exp_list place_names inner_patterns var_list
translate_pattern_arg_list_lem done flat_list = arg_list-nil (flat_exp_list flat_list)
translate_pattern_arg_list_lem (port name places) flat_list = rw (
  arg_list-port name (place_exp_list places) (flat_exp_list flat_list),
  translate_pattern_arg_list_lem places flat_list,
)
translate_pattern_arg_list_lem (inner (node name inner_places) places) flat_list = rw (
  arg_list-inner name (place_exp_list inner_places) (place_exp_list places)
      (flat_exp_list flat_list),
  translate_pattern_arg_list_lem inner_places flat_list,
  exp_list_push-var_list (place_names inner_places) bang,
  translate_pattern_arg_list_lem places
      ((name, place_names inner_places ++ bang ∷ []) ∷ inner_patterns inner_places ++ flat_list),
  append_assoc (inner_patterns places)
      ((name, place_names inner_places ++ bang ∷ []) ∷ inner_patterns inner_places) flat_list,
)

-- The patterns of a rule are those of the tree: the outer one, then those inside.
pub translate_pattern_tree_lem :
    (tree : PatternTree)
    → translate_pattern_tree (tree_exp tree) ≡ ok (flat_exp_list (tree_patterns tree))
unfolding translate_pattern_tree tree_exp tree_patterns flat_exp_list exp_copy
translate_pattern_tree_lem (node name places) =
    ap (λ r. r >>= (λ q. ok (exp_cons (exp_ap (exp_var name) q.0) q.1)))
      (translate_pattern_arg_list_lem places []
        ∙ ap (λ flat_list. ok (var_list (place_names places), flat_exp_list flat_list))
            (append-nil (inner_patterns places)))

module _ (import_names : List Name → String → Mod → Worker → Result (Mod × Worker))
    (rounds fuel : ℕ) (cfg : Config) (no_run : Bool) where
  -- A rule that is written as a tree is the rule that is written with its flat patterns.
  pub execute-stmt_define_rule :
      (m : Mod) (worker : Worker) (tree : PatternTree) (exp_list : ExpList)
      → execute import_names rounds fuel cfg no_run m worker
          (stmt_define_rule (tree_exp tree) exp_list)
        ≡ execute import_names rounds fuel cfg no_run m worker
            (stmt_define_rule_star (flat_exp_list (tree_patterns tree)) exp_list)
  unfolding execute
  execute-stmt_define_rule m worker tree exp_list = rw (translate_pattern_tree_lem tree)
