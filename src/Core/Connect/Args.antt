-- ===== src/Core/Connect/Args.antt =====
-- core/connect.c, `collect_primitive_arg`: a primitive node counts its arguments.
use inet_lisp.Base.{
  ℕ, ◌+◌, ◌≡◌, refl, true, ◌==◌, if◌then◌else◌, Option, none, some, set, ok, arith, ap, ◌∙◌,
}
use inet_lisp.Std.Array.{array_get}
use inet_lisp.Std.Array.Laws
use inet_lisp.Std.Array.Laws.{array_set_lem}
use inet_lisp.Net.Ctor.{NodeCtor, node_ctor_principal_port_count}
use inet_lisp.Net.Heap.{
  Value, null, Heap, PrincipalWire, Node, load_principal, load_node, store_node,
  principal_wire_destroy, node_set_value, node_primitive_arg_count_fetch_add1,
}
use inet_lisp.Net.Heap.Laws.{load_node-store_node}
use inet_lisp.Core.Mod.{Mod, Task, primitive, load_ctor, node_ctor_pointer}
use inet_lisp.Core.Connect.{collect_primitive_arg, node_is_primitive, node_principal_port_count}

-- A primitive node with `k` principal ports has received `a` arguments.
pub record Awaiting (m : Mod) (h : Heap) (n k a : ℕ) : Type 0 where
  pub node : Node
  pub c : ℕ
  pub ctor : NodeCtor
  pub p : ℕ
  pub stands : load_node h n ≡ ok node
  pub has_ctor : node.ctor ≡ some c
  pub defined : load_ctor m c ≡ ok ctor
  pub is_primitive : ctor.primitive ≡ some p
  pub ports : node_ctor_principal_port_count ctor ≡ ok k
  pub counted : node.primitive_arg_count ≡ a
  pub valid : Laws.IsValid node.value_array

module _ (m : Mod) (h : Heap) (n k a : ℕ) (s : Awaiting m h n k a) where
  open s use {node, c, ctor, p, stands, has_ctor, defined, is_primitive, ports, counted, valid}

  pointer : node_ctor_pointer h n ≡ ok c
  unfolding node_ctor_pointer
  pointer = rw (stands, has_ctor) refl

  node_is_primitive_lem : node_is_primitive m h n ≡ ok true
  unfolding node_is_primitive
  node_is_primitive_lem = rw (pointer, defined, is_primitive) refl

  node_principal_port_count_lem : node_principal_port_count m h n ≡ ok k
  unfolding node_principal_port_count
  node_principal_port_count_lem = rw (pointer, defined, ports) refl

  -- Freeing a principal wire leaves the node.
  Awaiting-principal_wire_destroy : (q : ℕ) → Awaiting m (principal_wire_destroy h q) n k a
  unfolding principal_wire_destroy load_node
  Awaiting-principal_wire_destroy q = record {
    node = node;
    c = c;
    ctor = ctor;
    p = p;
    stands = stands;
    has_ctor = has_ctor;
    defined = defined;
    is_primitive = is_primitive;
    ports = ports;
    counted = counted;
    valid = valid;
  }

  -- An argument is written at its port.
  node_set_value_lem :
      (i : ℕ) (v : Value)
      → (h' : Heap) × (s' : Awaiting m h' n k a) × (node_set_value h n i v ≡ ok h')
        × (h'.principal_wires ≡ h.principal_wires)
        × (h'.wires ≡ h.wires)
        × ((j : ℕ)
            → array_get null s'.node.value_array j
              ≡ (if i == j then v else array_get null node.value_array j))
  unfolding node_set_value store_node
  node_set_value_lem i v =
      let (b, e, w, l, r) = array_set_lem null node.value_array i v valid in
      (
        store_node h n (record node { value_array = b }),
        record {
          node = record node { value_array = b };
          c = c;
          ctor = ctor;
          p = p;
          stands =
              ground (arith, load_node-store_node h n n (record node { value_array = b }) stands);
          has_ctor = has_ctor;
          defined = defined;
          is_primitive = is_primitive;
          ports = ports;
          counted = counted;
          valid = w;
        },
        rw (stands, e) refl,
        refl,
        refl,
        r,
      )

  fetch_add1_lem :
      (h' : Heap) × (s' : Awaiting m h' n k (a + 1)) × (node_primitive_arg_count_fetch_add1 h n
        ≡ ok (a, h'))
      × (h'.principal_wires ≡ h.principal_wires)
      × (h'.wires ≡ h.wires)
      × (s'.node.value_array ≡ node.value_array)
  unfolding node_primitive_arg_count_fetch_add1 store_node
  fetch_add1_lem =
      let node' : Node = record node { primitive_arg_count = node.primitive_arg_count + 1 } in
      (
        store_node h n node',
        record {
          node = node';
          c = c;
          ctor = ctor;
          p = p;
          stands = ground (arith, load_node-store_node h n n node' stands);
          has_ctor = has_ctor;
          defined = defined;
          is_primitive = is_primitive;
          ports = ports;
          counted = ap (λ (x : ℕ). x + 1) counted;
          valid = valid;
        },
        rw (stands, counted) refl,
        refl,
        refl,
        refl,
      )

-- What one argument does: the value stands at its port, the principal wire is freed, the count goes
-- up by one, and the task arises when the count reaches the number of principal ports.
pub record Collected (m : Mod) (h h' : Heap) (p n i k a : ℕ) (arg : Value) (s : Awaiting m h n k a)
    (task : Option Task) : Type 0 where
  pub after : Awaiting m h' n k (a + 1)
  pub task_eq : task ≡ (if a + 1 == k then some (primitive n) else none)
  pub freed : h'.principal_wires ≡ set h.principal_wires p none
  pub wires : h'.wires ≡ h.wires
  pub written :
      (j : ℕ)
      → array_get null after.node.value_array j
        ≡ (if i == j then arg else array_get null s.node.value_array j)

module _ (m : Mod) (h : Heap) (n k a : ℕ) (s : Awaiting m h n k a) where
  -- A primitive node that has received some of its arguments takes one more at a live principal
  -- wire of its own.
  pub collect_primitive_arg_lem :
      (p : ℕ) (self : PrincipalWire) (arg : Value)
      → load_principal h p ≡ ok self
      → self.node ≡ n
      → (task : Option Task) × (h' : Heap) × (collect_primitive_arg m p arg h ≡ ok (task, h'))
        × Collected m h h' p n self.index k a arg s task
  unfolding collect_primitive_arg principal_wire_destroy Awaiting-principal_wire_destroy
  collect_primitive_arg_lem p self arg e q =
      let s₀ = Awaiting-principal_wire_destroy m h n k a s p in
      let (h₁, s₁, e₁, w₁, x₁, r₁) =
        node_set_value_lem m (principal_wire_destroy h p) n k a s₀ self.index arg in
      let (h₂, s₂, e₂, w₂, x₂, r₂) = fetch_add1_lem m h₁ n k a s₁ in
      (
        if a + 1 == k then some (primitive n) else none,
        h₂,
        rw
            (
              e,
              q,
              node_is_primitive_lem m h n k a s,
              e₁,
              e₂,
              node_principal_port_count_lem m h₂ n k (a + 1) s₂,
            )
            refl,
        record {
          after = s₂;
          task_eq = refl;
          freed = w₂ ∙ w₁;
          wires = x₂ ∙ x₁;
          written = λ j. ap (λ x. array_get null x j) r₂ ∙ r₁ j;
        },
      )
