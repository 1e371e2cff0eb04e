-- ===== src/Std/Allocator/Laws.antt =====
-- What the operations of packages/std/allocator keep: no value is lost, made up or handed out twice.
use mathlib.Core.List.{Perm, perm_middle}
use mathlib.Core.List.Perm
use inet_lisp.Base.{
  Bool-cases, inl, inr, leb→le, ℕ, zero, suc, ◌*◌, ◌<◌, ◌≤◌, ◌≡◌, ◌≢◌, refl, List, [], ◌∷◌, ◌++◌,
  leb, Option, none, some, length, ok, arith,
}
use inet_lisp.Std.Allocator.{
  Allocator, Pool, refill, pop_local, allocator_maybe_allocate, give_back, allocator_free,
  allocator_recycle,
}

module _ {A : Type 0} where
  -- all values of a pool
  abbrev pub free_values : Pool A → List A
  free_values pool = pool.local ++ pool.shared.stack

  refill-perm :
      (n : ℕ) (shared local : List A)
      → Perm ((refill n shared local).1 ++ (refill n shared local).0) (local ++ shared)
  unfolding refill
  refill-perm zero shared local = Perm.refl _
  refill-perm (suc n) [] local = Perm.refl _
  refill-perm (suc n) (value ∷ shared) local =
      Perm.trans (refill-perm n shared (value ∷ local)) (Perm.symm (perm_middle local shared))

  refill-cons :
      (n : ℕ) (shared : List A) (value : A) (local : List A)
      → (refill n shared (value ∷ local)).1 ≢ []
  unfolding refill
  refill-cons zero shared value local e = cc
  refill-cons (suc n) [] value local e = cc
  refill-cons (suc n) (v ∷ shared) value local e = refill-cons n shared v (value ∷ local) e

  refill-nil :
      (n : ℕ) (shared : List A)
      → 0 < n
      → (refill n shared []).1 ≡ []
      → (shared ≡ []) × ((refill n shared []).0 ≡ [])
  unfolding refill
  refill-nil zero shared h e = elim h [ ]
  refill-nil (suc n) [] h e = (refl, refl)
  refill-nil (suc n) (value ∷ shared) h e = absurd (refill-cons n shared value [] e)

  -- What an allocation may answer: a value that was free, the others staying free; or none, when
  -- nothing was free.
  abbrev pub Allocated : Pool A → Option A → Pool A → Type 0
  Allocated before none after = (free_values before ≡ []) × (free_values after ≡ [])
  Allocated before (some value) after = Perm (value ∷ free_values after) (free_values before)

  pop_local-Allocated :
      (before : Pool A) (shared : Allocator A) (local : List A)
      → Perm (local ++ shared.stack) (free_values before)
      → (local ≡ [] → (free_values before ≡ []) × (shared.stack ≡ []))
      → let (value, after) = pop_local shared local in Allocated before value after
  pop_local-Allocated before shared [] p h = h refl
  pop_local-Allocated before shared (value ∷ local) p h = p

  maybe_allocate_parts :
      (shared : Allocator A) (local : List A)
      → 0 < shared.cache_size
      → let (value, after) = allocator_maybe_allocate (record { shared = shared; local = local }) in
        Allocated (record { shared = shared; local = local }) value after
  unfolding allocator_maybe_allocate
  maybe_allocate_parts shared [] h =
      pop_local-Allocated (record { shared = shared; local = [] }) _ _
        (refill-perm shared.cache_size shared.stack [])
        (refill-nil shared.cache_size shared.stack h)
  maybe_allocate_parts shared (x ∷ local) h = Perm.refl _

  -- An allocation hands out one of the free values and keeps the others, or finds that nothing is
  -- free, neither in the thread's stack nor in the shared one.
  pub allocator_maybe_allocate_lem :
      (pool : Pool A)
      → 0 < pool.shared.cache_size
      → let (value, after) = allocator_maybe_allocate pool in Allocated pool value after
  allocator_maybe_allocate_lem pool h = maybe_allocate_parts pool.shared pool.local h

  give_back-perm :
      (n : ℕ) (shared local : List A)
      → n ≤ length local
      → (s l : List A) × (give_back n shared local ≡ ok (s, l)) × Perm (l ++ s) (local ++ shared)
  unfolding give_back
  give_back-perm zero shared local h = (shared, local, refl, Perm.refl _)
  give_back-perm (suc n) shared [] h = elim h [ ]
  give_back-perm (suc n) shared (value ∷ local) h =
      let (s, l, e, p) = give_back-perm n (value ∷ shared) local (omega arith) in
      (s, l, e, Perm.trans p (perm_middle local shared))

  -- Recycling always succeeds, and makes the value free beside those that were.
  pub allocator_recycle_lem :
      (pool : Pool A) (value : A)
      → (after : Pool A) × (allocator_recycle pool value ≡ ok after)
        × Perm (free_values after) (value ∷ free_values pool)
        × (after.shared.cache_size ≡ pool.shared.cache_size)
  unfolding allocator_recycle allocator_free
  allocator_recycle_lem pool value =
      elim (Bool-cases (leb (2 * pool.shared.cache_size) (length pool.local))) [
        | inl full ↦
            let (s, l, e, p) =
              give_back-perm pool.shared.cache_size pool.shared.stack pool.local
                (omega (arith, leb→le _ _ full)) in
            (
              record { shared = record pool.shared { stack = s }; local = value ∷ l },
              rw (full, e) refl,
              Perm.cons value p,
              refl,
            )
        | inr room ↦ (
          record { shared = pool.shared; local = value ∷ pool.local },
          rw room refl,
          Perm.refl _,
          refl,
        )
      ]
