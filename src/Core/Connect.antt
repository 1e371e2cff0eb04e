-- ===== src/Core/Connect.antt =====
-- core/connect.c
pub mod Union
pub mod Cycle
pub mod Edge
pub mod Args
pub mod Feed
pub mod Pair
pub mod Termination
pub mod Rules
mod Tests
use inet_lisp.Base.{
  ℕ, zero, suc, ◌+◌, List, [], ◌∷◌, Bool, true, false, ◌&&◌, ◌==◌, if◌then◌else◌, Option, none,
  some, Result, ok, err, out_of_fuel, assertion_failed, ◌>>=◌, ◌>>◌, check,
}
use inet_lisp.Net.Ctor.{NodeCtor, Rule, node_ctor_principal_port_count}
use inet_lisp.Net.Heap.{
  Value, null, wire, principal_wire, is_null, Heap, PrincipalWire, load_fuzed, store_fuzed,
  wire_destroy, load_principal, store_principal, principal_wire_destroy, node_set_value,
  node_primitive_arg_count_fetch_add1,
}
use inet_lisp.Core.Mod.{Mod, Task, active_pair, primitive, load_ctor, node_ctor_pointer}

-- `cl` and `cr` are the constructors of the nodes of `left` and `right`.
unfoldable pub rule_match : Rule → ℕ → ℕ → ℕ → ℕ → Option Task
rule_match rule left cl right cr =
    if rule.left_node_ctor == cl && rule.right_node_ctor == cr
    then some (active_pair left right rule)
    else if rule.left_node_ctor == cr && rule.right_node_ctor == cl
    then some (active_pair right left rule)
    else none

-- the first task that is found
abbrev pub or_else : Option Task → Option Task → Option Task
or_else (some task) other = some task
or_else none other = other

-- the first rule of an array that matches
unfoldable pub find_rule : List Rule → ℕ → ℕ → ℕ → ℕ → Option Task
unfolding rule_match
find_rule [] left cl right cr = none
find_rule (rule ∷ rules) left cl right cr =
    or_else (rule_match rule left cl right cr) (find_rule rules left cl right cr)

unfoldable pub set_oppsite : Heap → ℕ → ℕ → Result Heap
set_oppsite h p q = do
  self ← load_principal h p
  ok (store_principal h p (record self { oppsite = some q }))

unfoldable pub connect_active_pair : Mod → ℕ → ℕ → Heap → Result (Option Task × Heap)
unfolding set_oppsite find_rule
connect_active_pair m left right h = do
  h₁ ← set_oppsite h left right
  h₂ ← set_oppsite h₁ right left
  l ← load_principal h₂ left
  r ← load_principal h₂ right
  cl ← node_ctor_pointer h₂ l.node
  cr ← node_ctor_pointer h₂ r.node
  left_ctor ← load_ctor m cl
  right_ctor ← load_ctor m cr
  let right_task = find_rule right_ctor.rule_array left cl right cr
  ok (or_else (find_rule left_ctor.rule_array left cl right cr) right_task, h₂)

unfoldable pub node_is_primitive : Mod → Heap → ℕ → Result Bool
node_is_primitive m h n = do
  c ← node_ctor_pointer h n
  ctor ← load_ctor m c
  ok (elim ctor.primitive [ none ↦ false | some p ↦ true ])

unfoldable pub node_principal_port_count : Mod → Heap → ℕ → Result ℕ
node_principal_port_count m h n = do
  c ← node_ctor_pointer h n
  ctor ← load_ctor m c
  node_ctor_principal_port_count ctor

unfoldable pub collect_primitive_arg : Mod → ℕ → Value → Heap → Result (Option Task × Heap)
unfolding node_is_primitive node_principal_port_count
collect_primitive_arg m p arg h = do
  self ← load_principal h p
  is_primitive ← node_is_primitive m h self.node
  check is_primitive
  h₁ ← node_set_value (principal_wire_destroy h p) self.node self.index arg
  (old_count, h₂) ← node_primitive_arg_count_fetch_add1 h₁ self.node
  port_count ← node_principal_port_count m h₂ self.node
  ok (if old_count + 1 == port_count then some (primitive self.node) else none, h₂)

-- the cases of `connect` in which neither side is a wire
unfoldable pub connect_non_wires : Mod → Value → Value → Heap → Result (Option Task × Heap)
unfolding connect_active_pair collect_primitive_arg
connect_non_wires m (principal_wire p) (principal_wire q) h = connect_active_pair m p q h
connect_non_wires m (principal_wire p) right h = collect_primitive_arg m p right h
connect_non_wires m left (principal_wire q) h = collect_primitive_arg m q left h
connect_non_wires m left right h = err assertion_failed

-- `connect` and `fuze` call one another; each round frees a wire, which bounds the fuel.
unfoldable pub connect : ℕ → Mod → Value → Value → Heap → Result (Option Task × Heap)
unfolding connect_non_wires
connect zero m left right h = err out_of_fuel
connect (suc fuel) m (wire w) right h = do
  fuzed_value ← load_fuzed h w
  let again = connect fuel m fuzed_value right (wire_destroy h w)
  if is_null fuzed_value then ok (none, store_fuzed h w right) else again
connect (suc fuel) m left (wire w) h = do
  fuzed_value ← load_fuzed h w
  let again = connect fuel m fuzed_value left (wire_destroy h w)
  if is_null fuzed_value then ok (none, store_fuzed h w left) else again
connect (suc fuel) m left right h = connect_non_wires m left right h
