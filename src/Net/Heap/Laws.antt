-- ===== src/Net/Heap/Laws.antt =====
-- Reads after writes on the cells of net/wire.c, net/principal_wire.c and net/node.c.
use inet_lisp.Base.{
  ℕ, zero, suc, ◌≡◌, refl, List, [], ◌∷◌, true, ◌==◌, if◌then◌else◌, Option, some, get_elem?, set,
  length, ok, ◌>>=◌, arith, lt_of_get_elem?, set-set, deref, ◌<◌,
}
use inet_lisp.Net.Heap.{
  Value, null, is_null, Heap, PrincipalWire, Node, load_fuzed, store_fuzed, wire_destroy,
  load_principal, store_principal, load_node, store_node,
}

pub null_of_is_null : (v : Value) → is_null v ≡ true → v ≡ null
null_of_is_null null e = refl
null_of_is_null _ e = cc

-- A cell that is read through stands in its list.
cell_of_deref :
    {A : Type 0} (xs : List (Option A)) (i : ℕ) {a : A}
    → (deref (get_elem? xs i) >>= deref) ≡ ok a
    → get_elem? xs i ≡ some (some a)
cell_of_deref xs i e = ground arith

get_elem?-set :
    {A : Type 0} (xs : List A) (i j : ℕ) (v : A)
    → i < length xs
    → get_elem? (set xs i v) j ≡ (if i == j then some v else get_elem? xs j)
get_elem?-set [] i j v h = elim h [ ]
get_elem?-set (x ∷ xs) zero zero v h = refl
get_elem?-set (x ∷ xs) zero (suc j) v h = ground arith
get_elem?-set (x ∷ xs) (suc i) zero v h = ground arith
get_elem?-set (x ∷ xs) (suc i) (suc j) v h = ground (arith, get_elem?-set xs i j v (omega arith))

-- A node that is read stands in the list.
lt_of_load_node : (h : Heap) (n : ℕ) {d : Node} → load_node h n ≡ ok d → n < length h.nodes
unfolding load_node
lt_of_load_node h n {d} e = lt_of_get_elem? h.nodes n {a = d} (ground arith)

pub cell_of_load_fuzed :
    (h : Heap) (w : ℕ) {v : Value} → load_fuzed h w ≡ ok v → get_elem? h.wires w ≡ some (some v)
unfolding load_fuzed
cell_of_load_fuzed h w e = cell_of_deref h.wires w e

-- A wire that is written reads back, and the others stay.
pub load_fuzed-store_fuzed :
    (h : Heap) (w j : ℕ) (v : Value) {u : Value}
    → load_fuzed h w ≡ ok u
    → load_fuzed (store_fuzed h w v) j ≡ (if w == j then ok v else load_fuzed h j)
unfolding load_fuzed store_fuzed
load_fuzed-store_fuzed h w j v e = ground (
  arith,
  get_elem?-set h.wires w j (some v) (lt_of_get_elem? h.wires w (cell_of_deref h.wires w e)),
)

-- Freeing a wire forgets what was written to it.
pub wire_destroy-store_fuzed :
    (h : Heap) (w : ℕ) (v : Value) → wire_destroy (store_fuzed h w v) w ≡ wire_destroy h w
unfolding wire_destroy store_fuzed
wire_destroy-store_fuzed h w v = rw set-set

pub load_principal-store_principal :
    (h : Heap) (p q : ℕ) (c : PrincipalWire) {d : PrincipalWire}
    → load_principal h p ≡ ok d
    → load_principal (store_principal h p c) q ≡ (if p == q then ok c else load_principal h q)
unfolding load_principal store_principal
load_principal-store_principal h p q c e = ground (
  arith,
  get_elem?-set h.principal_wires p q (some c)
      (lt_of_get_elem? h.principal_wires p (cell_of_deref h.principal_wires p e)),
)

pub load_node-store_node :
    (h : Heap) (n m : ℕ) (c : Node) {d : Node}
    → load_node h n ≡ ok d
    → load_node (store_node h n c) m ≡ (if n == m then ok c else load_node h m)
unfolding load_node store_node
load_node-store_node h n m c e = ground (arith, get_elem?-set h.nodes n m c (lt_of_load_node h n e))
