-- ===== src/Core/Connect/Termination.antt =====
-- core/connect.c: the recursion of `connect` and `fuze` ends, since each round frees a wire.
use inet_lisp.Base.{
  ◌==◌, leb, ℕ, zero, suc, ◌+◌, ◌<◌, ◌≡◌, ◌≢◌, List, [], ◌∷◌, if◌then◌else◌, Option, none, some,
  Result, ok, err, out_of_fuel, ◌>>=◌, deref, check, get_elem?, set, arith, Ends, Ends-bind,
  Ends-deref, Ends-check, Ends-if, Ends-ne,
}
use inet_lisp.Net.Ctor.{
  NodeCtor, principal_port_count_from, node_ctor_principal_port_count, port_info,
}
use inet_lisp.Std.Array.{Array, array_set, array_resize}
use inet_lisp.Net.Heap.{
  Value, null, wire, principal_wire, is_null, Heap, store_fuzed, load_fuzed, wire_destroy,
  load_principal, load_node, node_set_value, node_primitive_arg_count_fetch_add1,
  principal_wire_destroy,
}
use inet_lisp.Net.Heap.Laws.{cell_of_load_fuzed}
use inet_lisp.Core.Mod.{Mod, Task, load_ctor, node_ctor_pointer}
use inet_lisp.Core.Connect.{
  connect, connect_non_wires, connect_active_pair, set_oppsite, collect_primitive_arg,
  node_is_primitive, node_principal_port_count,
}

-- the wires that are not freed
abbrev pub live : List (Option Value) → ℕ
live [] = 0
live (none ∷ cells) = live cells
live (some v ∷ cells) = suc (live cells)

live-set-none :
    (cells : List (Option Value)) (w : ℕ) {v : Value}
    → get_elem? cells w ≡ some (some v)
    → live (set cells w none) + 1 ≡ live cells
live-set-none [] w e = cc
live-set-none (none ∷ cells) zero e = cc
live-set-none (some u ∷ cells) zero e = omega arith
live-set-none (none ∷ cells) (suc w) e = live-set-none cells w e
live-set-none (some u ∷ cells) (suc w) e = omega (arith, live-set-none cells w e)

live-wire_destroy :
    (h : Heap) (w : ℕ) {v : Value}
    → load_fuzed h w ≡ ok v
    → live (wire_destroy h w).wires + 1 ≡ live h.wires
unfolding wire_destroy
live-wire_destroy h w e = live-set-none h.wires w (cell_of_load_fuzed h w e)

Ends-load_fuzed : (h : Heap) (w : ℕ) → Ends (load_fuzed h w)
unfolding load_fuzed
Ends-load_fuzed h w =
    Ends-bind (deref (get_elem? h.wires w)) deref (Ends-deref _) (λ c _. Ends-deref c)

Ends-port_info : (c : NodeCtor) (i : ℕ) → Ends (port_info c i)
unfolding port_info
Ends-port_info c i =
    Ends-bind (deref (get_elem? c.port_infos i)) deref (Ends-deref _) (λ s _. Ends-deref s)

Ends-principal_port_count_from :
    (c : NodeCtor) (n i k : ℕ) → Ends (principal_port_count_from c n i k)
unfolding principal_port_count_from
Ends-principal_port_count_from c zero i k = tt
Ends-principal_port_count_from c (suc n) i k =
    Ends-bind (port_info c i) _ (Ends-port_info c i)
      (λ info _. Ends-principal_port_count_from c n (i + 1) _)

Ends-node_ctor_pointer : (h : Heap) (n : ℕ) → Ends (node_ctor_pointer h n)
unfolding node_ctor_pointer
Ends-node_ctor_pointer h n = Ends-bind (load_node h n) _ (Ends-deref _) (λ c _. Ends-deref c.ctor)

Ends-load_principal : (h : Heap) (p : ℕ) → Ends (load_principal h p)
unfolding load_principal
Ends-load_principal h p =
    Ends-bind (deref (get_elem? h.principal_wires p)) deref (Ends-deref _) (λ c _. Ends-deref c)

Ends-set_oppsite : (h : Heap) (p q : ℕ) → Ends (set_oppsite h p q)
unfolding set_oppsite
Ends-set_oppsite h p q = Ends-bind (load_principal h p) _ (Ends-load_principal h p) (λ c _. tt)

Ends-connect_active_pair : (m : Mod) (p q : ℕ) (h : Heap) → Ends (connect_active_pair m p q h)
unfolding connect_active_pair load_ctor
Ends-connect_active_pair m p q h = Ends-bind (set_oppsite h p q) _ (Ends-set_oppsite h p q) λ h₁ _.
    Ends-bind (set_oppsite h₁ q p) _ (Ends-set_oppsite h₁ q p) λ h₂ _.
      Ends-bind (load_principal h₂ p) _ (Ends-load_principal h₂ p) λ l _.
        Ends-bind (load_principal h₂ q) _ (Ends-load_principal h₂ q) λ r _.
          Ends-bind (node_ctor_pointer h₂ l.node) _ (Ends-node_ctor_pointer h₂ l.node) λ cl _.
            Ends-bind (node_ctor_pointer h₂ r.node) _ (Ends-node_ctor_pointer h₂ r.node) λ cr _.
              Ends-bind (load_ctor m cl) _ (Ends-deref _)
                λ lc _. Ends-bind (load_ctor m cr) _ (Ends-deref _) λ rc _. tt

Ends-node_is_primitive : (m : Mod) (h : Heap) (n : ℕ) → Ends (node_is_primitive m h n)
unfolding node_is_primitive load_ctor
Ends-node_is_primitive m h n =
    Ends-bind (node_ctor_pointer h n) _ (Ends-node_ctor_pointer h n)
      λ c _. Ends-bind (load_ctor m c) _ (Ends-deref _) λ ctor _. tt

Ends-node_principal_port_count :
    (m : Mod) (h : Heap) (n : ℕ) → Ends (node_principal_port_count m h n)
unfolding node_principal_port_count load_ctor node_ctor_principal_port_count
Ends-node_principal_port_count m h n =
    Ends-bind (node_ctor_pointer h n) _ (Ends-node_ctor_pointer h n) λ c _.
      Ends-bind (load_ctor m c) _ (Ends-deref _)
        λ ctor _. Ends-principal_port_count_from ctor ctor.arity 0 0

Ends-array_resize : (a : Array Value) (n : ℕ) → Ends (array_resize null a n)
unfolding array_resize
Ends-array_resize a n =
    Ends-bind {B = Array Value} (check (leb a.size n)) _ (Ends-check (leb a.size n))
      λ _ _. Ends-if (n == a.size) _ _ tt tt

Ends-array_set : (a : Array Value) (i : ℕ) (v : Value) → Ends (array_set null a i v)
unfolding array_set
Ends-array_set a i v =
    Ends-bind (if leb a.size i then array_resize null a (i + a.grow_step) else ok a) _
      (Ends-if (leb a.size i) _ _ (Ends-array_resize a (i + a.grow_step)) tt) λ g _. tt

Ends-node_set_value : (h : Heap) (n i : ℕ) (v : Value) → Ends (node_set_value h n i v)
unfolding node_set_value load_node
Ends-node_set_value h n i v = Ends-bind (load_node h n) _ (Ends-deref _) λ node _.
    Ends-bind (array_set null node.value_array i v) _ (Ends-array_set node.value_array i v)
      λ a _. tt

Ends-fetch_add1 : (h : Heap) (n : ℕ) → Ends (node_primitive_arg_count_fetch_add1 h n)
unfolding node_primitive_arg_count_fetch_add1 load_node
Ends-fetch_add1 h n = Ends-bind (load_node h n) _ (Ends-deref _) λ node _. tt

Ends-collect_primitive_arg :
    (m : Mod) (p : ℕ) (v : Value) (h : Heap) → Ends (collect_primitive_arg m p v h)
unfolding collect_primitive_arg
Ends-collect_primitive_arg m p v h =
    Ends-bind (load_principal h p) _ (Ends-load_principal h p) λ self _.
      Ends-bind (node_is_primitive m h self.node) _ (Ends-node_is_primitive m h self.node) λ b _.
        Ends-bind (check b) _ (Ends-check b) λ _ _.
          Ends-bind (node_set_value (principal_wire_destroy h p) self.node self.index v) _
            (Ends-node_set_value (principal_wire_destroy h p) self.node self.index v)
            λ h₁ _.
              Ends-bind (node_primitive_arg_count_fetch_add1 h₁ self.node) _
                (Ends-fetch_add1 h₁ self.node)
                λ r _.
                  Ends-bind (node_principal_port_count m r.1 self.node) _
                    (Ends-node_principal_port_count m r.1 self.node) λ k _. tt

Ends-connect_non_wires : (m : Mod) (l r : Value) (h : Heap) → Ends (connect_non_wires m l r h)
unfolding connect_non_wires
Ends-connect_non_wires m (principal_wire p) (principal_wire q) h = Ends-connect_active_pair m p q h
Ends-connect_non_wires m (principal_wire p) r h = Ends-collect_primitive_arg m p r h
Ends-connect_non_wires m l (principal_wire q) h = Ends-collect_primitive_arg m q l h
Ends-connect_non_wires m l r h = tt

-- One round of `fuze`, over the rest of the recursion.
Ends-fuze :
    (h : Heap) (w f : ℕ) (v : Value) (again : Value → Heap → Result (Option Task × Heap))
    → live h.wires < suc f
    → ((u : Value) (h' : Heap) → live h'.wires < f → Ends (again u h'))
    → Ends (
        load_fuzed h w >>= λ u.
        if is_null u then ok (none, store_fuzed h w v) else again u (wire_destroy h w))
Ends-fuze h w f v again k rest = Ends-bind (load_fuzed h w) _ (Ends-load_fuzed h w) λ u e.
    Ends-if (is_null u) _ _ tt (rest u (wire_destroy h w) (omega (arith, live-wire_destroy h w e)))

Ends-connect :
    (f : ℕ) (m : Mod) (l r : Value) (h : Heap) → live h.wires < f → Ends (connect f m l r h)
unfolding connect
Ends-connect zero m l r h k = elim k [ ]
Ends-connect (suc f) m (wire w) r h k =
    Ends-fuze h w f r (λ u. connect f m u r) k (λ u h'. Ends-connect f m u r h')
Ends-connect (suc f) m l (wire w) h k =
    Ends-fuze h w f l (λ u. connect f m u l) k (λ u h'. Ends-connect f m u l h')
Ends-connect (suc f) m l r h k = Ends-connect_non_wires m l r h

-- As much fuel as there are live wires, and one more, is enough: `connect` comes to an end,
-- whatever the two values and the heap.
pub connect_ends :
    (f : ℕ) (m : Mod) (l r : Value) (h : Heap)
    → live h.wires < f
    → connect f m l r h ≢ err out_of_fuel
connect_ends f m l r h k = Ends-ne _ (Ends-connect f m l r h k)
