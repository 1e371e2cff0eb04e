-- ===== src/Net/NodeAllocator/Laws.antt =====
-- net/node_allocator.c, `node_allocator_allocate`: its loop ends, and hands out one free node.
use mathlib.Core.List.{Perm}
use inet_lisp.Base.{
  ℕ, zero, suc, ◌+◌, ◌<◌, ◌≡◌, ◌≢◌, ◌⊎◌, inl, inr, refl, sym, ap, ◌∙◌, List, [], ◌∷◌, ◌++◌, Bool,
  true, false, if◌then◌else◌, Option, none, some, length, length-append, ok, arith, subst,
}
use inet_lisp.Std.Allocator.{Allocator, Pool, refill, is_empty, pop_local, allocator_maybe_allocate}
use inet_lisp.Std.Allocator.Laws.{free_values, Allocated, allocator_maybe_allocate_lem}
use inet_lisp.Net.Heap.{Heap, node_new}
use inet_lisp.Net.NodeAllocator.{Nodes, prepare_nodes, prepare_one_batch_of_nodes, allocate_loop}

-- the addresses of `n` nodes that are made one after the other, from an address, the last in front
abbrev pub fresh : ℕ → ℕ → List ℕ → List ℕ
fresh zero k stack = stack
fresh (suc n) k stack = fresh n (k + 1) (k ∷ stack)

fresh-cons : (n k x : ℕ) (stack : List ℕ) → fresh n k (x ∷ stack) ≢ []
fresh-cons zero k x stack e = cc
fresh-cons (suc n) k x stack e = fresh-cons n (k + 1) k (x ∷ stack) e

fresh-nonempty : (n k : ℕ) → 0 < n → fresh n k [] ≢ []
fresh-nonempty zero k h e = elim h [ ]
fresh-nonempty (suc n) k h e = fresh-cons n (k + 1) k [] e

prepare_nodes_lem :
    (n : ℕ) (stack : List ℕ) (h : Heap)
    → ((prepare_nodes n stack h).0 ≡ fresh n (length h.nodes) stack)
      × (length (prepare_nodes n stack h).1.nodes ≡ length h.nodes + n)
unfolding prepare_nodes
prepare_nodes_lem zero stack h = (refl, omega arith)
prepare_nodes_lem (suc n) stack h =
    let h' : Heap = record h { nodes = h.nodes ++ node_new (length h.nodes + 1) ∷ [] } in
    let (e, l) = prepare_nodes_lem n (length h.nodes ∷ stack) h' in
    let grown : length h'.nodes ≡ length h.nodes + 1 = length-append h.nodes _ in
    (e ∙ ap (λ k. fresh n k (length h.nodes ∷ stack)) grown, omega (arith, l, grown))

pop_local-cache_size :
    {A : Type 0} (shared : Allocator A) (local : List A)
    → (pop_local shared local).1.shared.cache_size ≡ shared.cache_size
pop_local-cache_size shared [] = refl
pop_local-cache_size shared (x ∷ local) = refl

maybe_allocate-cache_size :
    {A : Type 0} (pool : Pool A)
    → (allocator_maybe_allocate pool).1.shared.cache_size ≡ pool.shared.cache_size
unfolding allocator_maybe_allocate
maybe_allocate-cache_size pool = go (is_empty pool.local)
  where
    go :
        (b : Bool)
        → let refilled = refill pool.shared.cache_size pool.shared.stack pool.local in
          (if b
            then pop_local (record pool.shared { stack = refilled.0 }) refilled.1
            else pop_local pool.shared pool.local).1.shared.cache_size
          ≡ pool.shared.cache_size
    go true = pop_local-cache_size _ _
    go false = pop_local-cache_size _ _

append-nil : {A : Type 0} (xs ys : List A) → xs ++ ys ≡ [] → (xs ≡ []) × (ys ≡ [])
append-nil [] ys e = (refl, e)
append-nil (x ∷ xs) ys e = cc

-- What an allocation may do: hand out a node that was free, or, when none was, make a batch of new
-- nodes and hand out one of them; the others stay free.
abbrev pub HandsOut : ℕ → Nodes → ℕ → Nodes → Type 0
HandsOut batch_size before n after =
    ((after.heap ≡ before.heap) × Perm (n ∷ free_values after.pool) (free_values before.pool))
    ⊎ ((free_values before.pool ≡ [])
        × (length after.heap.nodes ≡ length before.heap.nodes + batch_size)
        × Perm (n ∷ free_values after.pool) (fresh batch_size (length before.heap.nodes) []))

module _ (batch_size : ℕ) (positive : 0 < batch_size) where
  loop-some :
      (fuel : ℕ) (self : Nodes) (n : ℕ) (pool : Pool ℕ)
      → allocator_maybe_allocate self.pool ≡ (some n, pool)
      → allocate_loop (suc fuel) batch_size self ≡ ok (n, record self { pool = pool })
  unfolding allocate_loop
  loop-some fuel self n pool e =
      ap
        (λ r. elim r.0 [
          | some m ↦ ok (m, record self { pool = r.1 })
          | none ↦
              allocate_loop fuel batch_size
                (prepare_one_batch_of_nodes batch_size (record self { pool = r.1 }))
        ])
        e

  loop-none :
      (fuel : ℕ) (self : Nodes) (pool : Pool ℕ)
      → allocator_maybe_allocate self.pool ≡ (none, pool)
      → allocate_loop (suc fuel) batch_size self
        ≡ allocate_loop fuel batch_size
            (prepare_one_batch_of_nodes batch_size (record self { pool = pool }))
  unfolding allocate_loop
  loop-none fuel self pool e =
      ap
        (λ r. elim r.0 [
          | some m ↦ ok (m, record self { pool = r.1 })
          | none ↦
              allocate_loop fuel batch_size
                (prepare_one_batch_of_nodes batch_size (record self { pool = r.1 }))
        ])
        e

  -- The pool that was found empty, with a batch of new nodes.
  prepared :
      (self : Nodes)
      → free_values self.pool ≡ []
      → let next = prepare_one_batch_of_nodes batch_size self in
        (free_values next.pool ≡ fresh batch_size (length self.heap.nodes) [])
        × (length next.heap.nodes ≡ length self.heap.nodes + batch_size)
        × (next.pool.shared.cache_size ≡ self.pool.shared.cache_size)
  unfolding prepare_one_batch_of_nodes
  prepared self e =
      let (no_local, no_shared) = append-nil self.pool.local self.pool.shared.stack e in
      let (stack, grown) = prepare_nodes_lem batch_size self.pool.shared.stack self.heap in
      (
        rw no_local (stack ∙ ap (λ s. fresh batch_size (length self.heap.nodes) s) no_shared),
        grown,
        refl,
      )

  second_round :
      (self : Nodes) (o : Option ℕ) (pool : Pool ℕ)
      → free_values self.pool ≢ []
      → allocator_maybe_allocate self.pool ≡ (o, pool)
      → Allocated self.pool o pool
      → (n : ℕ) × (allocate_loop 1 batch_size self ≡ ok (n, record self { pool = pool }))
        × Perm (n ∷ free_values pool) (free_values self.pool)
  second_round self none pool h e a = absurd (h a.0)
  second_round self (some n) pool h e a = (n, loop-some 0 self n pool e, a)

  first_round :
      (self : Nodes) (o : Option ℕ) (pool : Pool ℕ)
      → 0 < self.pool.shared.cache_size
      → allocator_maybe_allocate self.pool ≡ (o, pool)
      → Allocated self.pool o pool
      → (n : ℕ) × (after : Nodes) × (allocate_loop 2 batch_size self ≡ ok (n, after))
        × HandsOut batch_size self n after
  first_round self (some n) pool c e a =
      (n, record self { pool = pool }, loop-some 1 self n pool e, inl (refl, a))
  first_round self none pool c e a =
      let emptied : Nodes = record self { pool = pool } in
      let next = prepare_one_batch_of_nodes batch_size emptied in
      let (free, grown, cached) = prepared emptied a.1 in
      let kept : pool.shared.cache_size ≡ self.pool.shared.cache_size =
        sym (ap (λ r. r.1.shared.cache_size) e) ∙ maybe_allocate-cache_size self.pool in
      let (o', pool') = allocator_maybe_allocate next.pool in
      let (n, r, p) =
        second_round next o' pool'
          (λ q. fresh-nonempty batch_size (length self.heap.nodes) positive (sym free ∙ q)) refl
          (allocator_maybe_allocate_lem next.pool (omega (arith, c, cached, kept))) in
      (
        n,
        record next { pool = pool' },
        loop-none 1 self pool e ∙ r,
        inr (a.0, grown, subst (λ l. Perm (n ∷ free_values pool') l) free p),
      )

  -- With batches and a cache of at least one node, two rounds of the loop are enough: an allocation
  -- succeeds. It hands out a node that was free and leaves the heap, or, only when no node is free,
  -- makes a batch and hands out one of its nodes; all other free nodes stay free, each once.
  pub allocate_loop_lem :
      (self : Nodes)
      → 0 < self.pool.shared.cache_size
      → (n : ℕ) × (after : Nodes) × (allocate_loop 2 batch_size self ≡ ok (n, after))
        × HandsOut batch_size self n after
  allocate_loop_lem self c =
      let (o, pool) = allocator_maybe_allocate self.pool in
      first_round self o pool c refl (allocator_maybe_allocate_lem self.pool c)
