-- ===== src/Lang/Define.antt =====
-- lang/define.c, lang/node_pattern.c, core/mod.c: names, nodes and rules enter a mod.
pub mod Rules
pub mod Fires
mod Tests
use inet_lisp.Base.{
  ℕ, List, [], ◌∷◌, ◌++◌, map, Bool, true, false, ◌==◌, if◌then◌else◌, Option, none, some, length,
  set, Result, ok, err, dangling, assertion_failed, ◌>>=◌,
}
use inet_lisp.Net.Ctor.{
  Name, NodeCtor, PortInfo, Rule, node_ctor_new, port_info, port_info_from_name,
}
use inet_lisp.Net.Heap.{Value, null, node_ctor}
use inet_lisp.Core.Mod.{Mod, load_ctor}
use inet_lisp.Lang.Exp.{ExpList}
use inet_lisp.Lang.Compile.{
  hash_get_entry, mod_find, function_new, compile_set_variable_list, compile_exp_list,
}

-- `node_pattern_t`
pub record NodePattern : Type 0 where
  pub ctor : ℕ
  pub port_infos : List (Option PortInfo)

-- The pattern takes a port that is principal where the constructor's is; the answer is `false` for
-- another, and the pattern as it was.
unfoldable pub node_pattern_set_port_info :
    Mod → NodePattern → ℕ → PortInfo → Result (Bool × NodePattern)
unfolding port_info
node_pattern_set_port_info m self index info = do
  ctor ← load_ctor m self.ctor
  expected ← port_info ctor index
  let same =
      if info.is_principal
      then expected.is_principal
      else (if expected.is_principal then false else true)
  ok (
    same,
    if same then record self { port_infos = set self.port_infos index (some info) } else self,
  )

-- The assertion in `define` is that the name is new.
unfoldable pub define : Mod → Name → Value → Result Mod
unfolding hash_get_entry
define self name value = elim (hash_get_entry self.value_hash name) [
  | some old ↦ err assertion_failed
  | none ↦ ok (record self { value_hash = self.value_hash ++ (name, value) ∷ [] })
]

-- `as_node_ctor`; NULL is no object, so it fails the assertion too.
abbrev pub as_node_ctor : Value → Result ℕ
as_node_ctor (node_ctor c) = ok c
as_node_ctor _ = err assertion_failed

-- `array_push (node_ctor->rule_array, rule)`
unfoldable pub push_rule : Mod → ℕ → Rule → Result Mod
push_rule self c rule = do
  ctor ← load_ctor self c
  ok (record self {
    node_ctors = set self.node_ctors c (record ctor { rule_array = ctor.rule_array ++ rule ∷ [] });
  })

unfoldable pub define_rule : Mod → Name → Rule → Result Mod
unfolding mod_find push_rule
define_rule self name rule = do c ← as_node_ctor (mod_find self name); push_rule self c rule

-- the loop that lists the names of the ports that are not principal
unfoldable pub auxiliary_names : List (Option PortInfo) → Result (List Name)
auxiliary_names [] = ok []
auxiliary_names (none ∷ port_infos) = err dangling
auxiliary_names (some info ∷ port_infos) = do
  names ← auxiliary_names port_infos
  ok (if info.is_principal then names else info.name ∷ names)

-- The worker counts for its mod alone.
unfoldable pub define_rule_star : Mod → List NodePattern → ExpList → Result Mod
unfolding auxiliary_names define_rule compile_set_variable_list compile_exp_list function_new
define_rule_star m (left ∷ right ∷ []) exp_list = do
  left_names ← auxiliary_names left.port_infos
  right_names ← auxiliary_names right.port_infos
  let local_name_list = left_names ++ right_names
  function ←
      compile_exp_list m
        (compile_set_variable_list (function_new (length local_name_list)) local_name_list) exp_list
  let rule : Rule = record {
    left_node_ctor = left.ctor;
    right_node_ctor = right.ctor;
    function = length m.functions;
  }
  left_ctor ← load_ctor m left.ctor
  right_ctor ← load_ctor m right.ctor
  first ← define_rule (record m { functions = m.functions ++ function ∷ [] }) left_ctor.name rule
  define_rule first right_ctor.name rule
define_rule_star m _ exp_list = err assertion_failed

unfoldable pub define_node : Mod → Name → List Name → Result Mod
unfolding node_ctor_new define
define_node m name port_name_list =
    let ctor : NodeCtor = record (node_ctor_new name (length port_name_list)) {
      port_infos = map (λ port_name. some (port_info_from_name port_name)) port_name_list;
    } in
    define (record m { node_ctors = m.node_ctors ++ ctor ∷ [] }) name
      (node_ctor (length m.node_ctors))

-- A rule of a constructor with itself is entered once, unlike in `define_rule_star`.
unfoldable pub mod_define_rule : Mod → Name → Name → ℕ → Result Mod
unfolding mod_find push_rule
mod_define_rule self first_name second_name function = do
  left ← as_node_ctor (mod_find self first_name)
  right ← as_node_ctor (mod_find self second_name)
  let rule : Rule = record { left_node_ctor = left; right_node_ctor = right; function = function }
  after ← push_rule self left rule
  let both = push_rule after right rule
  if left == right then ok after else both
