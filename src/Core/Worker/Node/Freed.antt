-- ===== src/Core/Worker/Node/Freed.antt =====
-- net/principal_wire.c, `principal_wire_destroy` of several principal wires.
use inet_lisp.Base.{
  ℕ, zero, suc, ◌+◌, ◌≡◌, ◌≢◌, refl, sym, ap, ◌∙◌, subst, List, [], ◌∷◌, Option, none, some,
  get_elem?, set, get_elem?-set_ne, Result, ok, err, dangling, ℕ_discrete,
}
use inet_lisp.Base
use inet_lisp.Net.Heap.{
  Value, principal_wire, Heap, PrincipalWire, load_principal, principal_wire_destroy,
}

-- the heap without the principal wires among them
abbrev pub free_principals : List Value → Heap → Heap
free_principals [] h = h
free_principals (principal_wire p ∷ values) h = free_principals values (principal_wire_destroy h p)
free_principals (v ∷ values) h = free_principals values h

-- Freeing principal wires leaves the nodes and the wires.
pub free_principals-nodes :
    (values : List Value) (h : Heap) → (free_principals values h).nodes ≡ h.nodes
unfolding principal_wire_destroy
free_principals-nodes [] h = refl
free_principals-nodes (principal_wire p ∷ values) h =
    free_principals-nodes values (principal_wire_destroy h p)
free_principals-nodes (_ ∷ values) h = free_principals-nodes values h

pub free_principals-wires :
    (values : List Value) (h : Heap) → (free_principals values h).wires ≡ h.wires
unfolding principal_wire_destroy
free_principals-wires [] h = refl
free_principals-wires (principal_wire p ∷ values) h =
    free_principals-wires values (principal_wire_destroy h p)
free_principals-wires (_ ∷ values) h = free_principals-wires values h

destroy-gone : (h : Heap) (p : ℕ) → load_principal (principal_wire_destroy h p) p ≡ err dangling
unfolding load_principal principal_wire_destroy
destroy-gone h p = go h.principal_wires p
  where
    go :
        (xs : List (Option PrincipalWire)) (i : ℕ)
        → Base.◌>>=◌ (Base.deref (get_elem? (set xs i none) i)) Base.deref ≡ err dangling
    go [] i = refl
    go (x ∷ xs) zero = refl
    go (x ∷ xs) (suc i) = go xs i

destroy-other :
    (h : Heap) (p q : ℕ)
    → q ≢ p
    → load_principal (principal_wire_destroy h q) p ≡ load_principal h p
unfolding load_principal principal_wire_destroy
destroy-other h p q ne = rw (get_elem?-set_ne h.principal_wires none ne) refl

destroy-stays :
    (h : Heap) (p q : ℕ)
    → load_principal h p ≡ err dangling
    → load_principal (principal_wire_destroy h q) p ≡ err dangling
destroy-stays h p q e = elim (ℕ_discrete q p) [
  | yes same ↦
      subst (λ i. load_principal (principal_wire_destroy h q) i ≡ err dangling) same
        (destroy-gone h q)
  | no ne ↦ destroy-other h p q ne ∙ e
]

stays_gone :
    (values : List Value) (h : Heap) (p : ℕ)
    → load_principal h p ≡ err dangling
    → load_principal (free_principals values h) p ≡ err dangling
stays_gone [] h p e = e
stays_gone (principal_wire q ∷ values) h p e =
    stays_gone values (principal_wire_destroy h q) p (destroy-stays h p q e)
stays_gone (_ ∷ values) h p e = stays_gone values h p e

abbrev principal_of : Value → ℕ
principal_of (principal_wire p) = p
principal_of _ = 0

-- Each principal wire among the values is gone.
pub free_principals-gone :
    (values : List Value) (h : Heap) (i p : ℕ)
    → get_elem? values i ≡ some (principal_wire p)
    → load_principal (free_principals values h) p ≡ err dangling
free_principals-gone [] h i p e = cc
free_principals-gone (principal_wire q ∷ values) h zero p e =
    let same : principal_wire q ≡ principal_wire p = cc in
    stays_gone values (principal_wire_destroy h q) p (
      subst (λ k. load_principal (principal_wire_destroy h q) k ≡ err dangling)
        (ap principal_of same) (destroy-gone h q))
free_principals-gone (principal_wire q ∷ values) h (suc i) p e =
    free_principals-gone values (principal_wire_destroy h q) i p e
free_principals-gone (_ ∷ values) h (suc i) p e = free_principals-gone values h i p e
free_principals-gone (_ ∷ values) h zero p e = cc

-- Every other stands.
pub free_principals-kept :
    (values : List Value) (h : Heap) (p : ℕ)
    → ((i : ℕ) → get_elem? values i ≢ some (principal_wire p))
    → load_principal (free_principals values h) p ≡ load_principal h p
free_principals-kept [] h p k = refl
free_principals-kept (principal_wire q ∷ values) h p k =
    free_principals-kept values (principal_wire_destroy h q) p (λ i. k (suc i))
    ∙ destroy-other h p q (λ same. k 0 (ap (λ x. some (principal_wire x)) same))
free_principals-kept (_ ∷ values) h p k = free_principals-kept values h p (λ i. k (suc i))
