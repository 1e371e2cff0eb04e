-- ===== src/Net/Heap.antt =====
-- value/types.h, net/wire.h, net/principal_wire.h, net/node.c: values and the memory they point to.
-- A wire, a principal wire and a node are addressed by their index in a list of cells.
pub mod Laws
use inet_lisp.Base.{
  ℕ, zero, suc, ◌+◌, List, [], ◌∷◌, ◌++◌, Bool, true, false, Option, none, some, length, get_elem?,
  set, Result, ok, err, dangling, ◌>>=◌, ◌>>◌, deref, ltb, check,
}
use inet_lisp.Std.Array.{Array, array_new_auto, array_get, array_set, array_purge}

-- `value_t`: NULL, an immediate word, or a pointer to an object by its `spec`.
pub data Value : Type 0 where
  null : Value
  word : ℕ → Value
  wire : ℕ → Value
  principal_wire : ℕ → Value
  node_ctor : ℕ → Value
  function : ℕ → Value
  primitive : ℕ → Value

abbrev pub is_null : Value → Bool
is_null null = true
is_null _ = false

abbrev pub is_wire : Value → Bool
is_wire (wire w) = true
is_wire _ = false

abbrev pub is_principal_wire : Value → Bool
is_principal_wire (principal_wire p) = true
is_principal_wire _ = false

-- `is_non_wire`
abbrev pub is_non_wire : Value → Bool
is_non_wire (wire w) = false
is_non_wire (principal_wire p) = false
is_non_wire _ = true

pub record PrincipalWire : Type 0 where
  pub node : ℕ
  pub index : ℕ
  pub oppsite : Option ℕ

-- `node_t`, less its lock
pub record Node : Type 0 where
  pub ctor : Option ℕ
  pub id : ℕ
  pub is_allocated : Bool
  pub value_array : Array Value
  pub primitive_arg_count : ℕ

-- A wire's cell holds its `atomic_fuzed_value`; a freed cell holds nothing.
pub record Heap : Type 0 where
  pub wires : List (Option Value)
  pub principal_wires : List (Option PrincipalWire)
  pub nodes : List Node

-- `atomic_load (&wire->atomic_fuzed_value)`
unfoldable pub load_fuzed : Heap → ℕ → Result Value
load_fuzed h w = do cell ← deref (get_elem? h.wires w); deref cell

unfoldable pub store_fuzed : Heap → ℕ → Value → Heap
store_fuzed h w v = record h { wires = set h.wires w (some v) }

unfoldable pub wire_new : Heap → ℕ × Heap
wire_new h = (length h.wires, record h { wires = h.wires ++ some null ∷ [] })

unfoldable pub wire_destroy : Heap → ℕ → Heap
wire_destroy h w = record h { wires = set h.wires w none }

unfoldable pub load_principal : Heap → ℕ → Result PrincipalWire
load_principal h p = do cell ← deref (get_elem? h.principal_wires p); deref cell

unfoldable pub store_principal : Heap → ℕ → PrincipalWire → Heap
store_principal h p c = record h { principal_wires = set h.principal_wires p (some c) }

unfoldable pub principal_wire_new : Heap → ℕ → ℕ → ℕ × Heap
principal_wire_new h node index = (
  length h.principal_wires,
  record h {
    principal_wires =
        h.principal_wires ++ some (record { node = node; index = index; oppsite = none }) ∷ [];
  },
)

unfoldable pub principal_wire_destroy : Heap → ℕ → Heap
principal_wire_destroy h p = record h { principal_wires = set h.principal_wires p none }

unfoldable pub load_node : Heap → ℕ → Result Node
load_node h n = deref (get_elem? h.nodes n)

unfoldable pub store_node : Heap → ℕ → Node → Heap
store_node h n c = record h { nodes = set h.nodes n c }

unfoldable pub node_new : ℕ → Node
unfolding array_new_auto
node_new id = record {
  ctor = none;
  id = id;
  is_allocated = false;
  value_array = array_new_auto null;
  primitive_arg_count = 0;
}

unfoldable pub node_clean : Node → Node
unfolding array_purge
node_clean self = record self {
  ctor = none;
  is_allocated = false;
  value_array = array_purge null self.value_array;
  primitive_arg_count = 0;
}

unfoldable pub node_set_value : Heap → ℕ → ℕ → Value → Result Heap
node_set_value h n index value = do
  self ← load_node h n
  value_array ← array_set null self.value_array index value
  ok (store_node h n (record self { value_array = value_array }))

-- with the assertion that the node has a constructor
unfoldable pub node_get_value : Heap → ℕ → ℕ → Result Value
node_get_value h n index = do
  self ← load_node h n
  check (elim self.ctor [ none ↦ false | some c ↦ true ])
  ok (array_get null self.value_array index)

-- the count before the addition, which wraps as `size_t` does not within any run
unfoldable pub node_primitive_arg_count_fetch_add1 : Heap → ℕ → Result (ℕ × Heap)
node_primitive_arg_count_fetch_add1 h n = do
  self ← load_node h n
  ok (
    self.primitive_arg_count,
    store_node h n (record self { primitive_arg_count = self.primitive_arg_count + 1 }),
  )
