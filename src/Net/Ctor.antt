-- ===== src/Net/Ctor.antt =====
-- net/node_ctor.c, net/port_info.c, core/rule.h: the constructors of nodes and the rules on them.
-- A pointer to a constructor, a function or a primitive is an index into the table of its kind.
use inet_lisp.Base.{
  ℕ, suc, zero, ◌+◌, List, [], ◌∷◌, Bool, true, false, ◌==◌, if◌then◌else◌, Option, none, some,
  get_elem?, replicate, Result, ok, err, assertion_failed, ◌>>=◌, deref,
}
use inet_lisp.Std.String.{string_equal}

-- a C string, as its bytes
abbrev pub Name : Type 0
Name = List ℕ

pub record PortInfo : Type 0 where
  pub name : Name
  pub is_principal : Bool

pub record Rule : Type 0 where
  pub left_node_ctor : ℕ
  pub right_node_ctor : ℕ
  pub function : ℕ

pub record NodeCtor : Type 0 where
  pub name : Name
  pub arity : ℕ
  pub port_infos : List (Option PortInfo)
  pub rule_array : List Rule
  pub primitive : Option ℕ

unfoldable pub node_ctor_new : Name → ℕ → NodeCtor
node_ctor_new name arity = record {
  name = name;
  arity = arity;
  port_infos = replicate arity none;
  rule_array = [];
  primitive = none;
}

-- `self->port_infos[index]`, through a pointer that may still be NULL
unfoldable pub port_info : NodeCtor → ℕ → Result PortInfo
port_info self index = do slot ← deref (get_elem? self.port_infos index); deref slot

-- the loop of `node_ctor_find_port_index` with `n` ports left, from index `i`
unfoldable pub find_port_index_from : NodeCtor → Name → ℕ → ℕ → Result ℕ
find_port_index_from self port_name zero i = err assertion_failed
find_port_index_from self port_name (suc n) i = do
  info ← port_info self i
  if string_equal info.name port_name then ok i else find_port_index_from self port_name n (i + 1)

unfoldable pub node_ctor_find_port_index : NodeCtor → Name → Result ℕ
unfolding find_port_index_from
node_ctor_find_port_index self port_name = find_port_index_from self port_name self.arity 0

-- the loop of `node_ctor_principal_port_count` with `n` ports left, from index `i`
unfoldable pub principal_port_count_from : NodeCtor → ℕ → ℕ → ℕ → Result ℕ
principal_port_count_from self zero i count = ok count
principal_port_count_from self (suc n) i count = do
  info ← port_info self i
  principal_port_count_from self n (i + 1) (if info.is_principal then count + 1 else count)

unfoldable pub node_ctor_principal_port_count : NodeCtor → Result ℕ
unfolding principal_port_count_from
node_ctor_principal_port_count self = principal_port_count_from self self.arity 0 0

abbrev pub bang : ℕ
bang = b'!'

-- `string_ends_with (name, "!")` with the name before the mark, if it is there
unfoldable pub strip_bang : Name → Option Name
strip_bang [] = none
strip_bang (c ∷ []) = if c == bang then some [] else none
strip_bang (c ∷ d ∷ name) =
    let rest = strip_bang (d ∷ name) in elim rest [ none ↦ none | some prefix ↦ some (c ∷ prefix) ]

unfoldable pub port_info_from_name : Name → PortInfo
unfolding strip_bang
port_info_from_name name = elim (strip_bang name) [
  | some new_name ↦ record { name = new_name; is_principal = true }
  | none ↦ record { name = name; is_principal = false }
]
