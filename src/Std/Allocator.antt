-- ===== src/Std/Allocator.antt =====
-- packages/std/allocator/allocator.c: a shared stack of free values behind a mutex, with a stack of
-- each thread in front of it. Both stacks are lists, last pushed first (Std.Stack.Refine).
pub mod Laws
mod Tests
use inet_lisp.Base.{
  ℕ, zero, suc, ◌*◌, List, [], ◌∷◌, Bool, true, false, leb, if◌then◌else◌, Option, none, some,
  length, Result, ok, err, assertion_failed, exited, ◌>>=◌,
}

-- `allocator_t`, less its mutex
pub record Allocator {ℓ} (A : Type ℓ) : Type ℓ where
  pub stack : List A
  pub cache_size : ℕ

-- what a thread holds, with the shared part
pub record Pool {ℓ} (A : Type ℓ) : Type ℓ where
  pub shared : Allocator A
  pub local : List A

module _ {ℓ} {A : Type ℓ} where
  -- the loop of `allocator_maybe_allocate`, which ends early when the shared stack is empty
  unfoldable pub refill : ℕ → List A → List A → List A × List A
  refill zero shared local = (shared, local)
  refill (suc n) [] local = ([], local)
  refill (suc n) (value ∷ shared) local = refill n shared (value ∷ local)

  abbrev pub is_empty : List A → Bool
  is_empty [] = true
  is_empty (x ∷ xs) = false

  -- the final pop, with NULL for an empty stack
  abbrev pub pop_local : Allocator A → List A → Option A × Pool A
  pop_local shared [] = (none, record { shared = shared; local = [] })
  pop_local shared (value ∷ local) = (some value, record { shared = shared; local = local })

  unfoldable pub allocator_maybe_allocate : Pool A → Option A × Pool A
  unfolding refill
  allocator_maybe_allocate pool =
      let refilled = refill pool.shared.cache_size pool.shared.stack pool.local in
      if is_empty pool.local
      then pop_local (record pool.shared { stack = refilled.0 }) refilled.1
      else pop_local pool.shared pool.local

  unfoldable pub allocator_allocate : Pool A → Result (A × Pool A)
  unfolding allocator_maybe_allocate
  allocator_allocate pool =
      let (value, rest) = allocator_maybe_allocate pool in
      elim value [ some value ↦ ok (value, rest) | none ↦ err exited ]

  -- the loop of `allocator_free`, each round a `stack_pop` and a `stack_push`
  unfoldable pub give_back : ℕ → List A → List A → Result (List A × List A)
  give_back zero shared local = ok (shared, local)
  give_back (suc n) shared [] = err assertion_failed
  give_back (suc n) shared (value ∷ local) = give_back n (value ∷ shared) local

  unfoldable pub allocator_free : Pool A → A → Result (Pool A)
  unfolding give_back
  allocator_free pool value = do
    let cache_size = pool.shared.cache_size
    (shared, local) ←
        if leb (2 * cache_size) (length pool.local)
        then give_back cache_size pool.shared.stack pool.local
        else ok (pool.shared.stack, pool.local)
    ok (record { shared = record pool.shared { stack = shared }; local = value ∷ local })

  -- `allocator_recycle` of a non-null pointer
  unfoldable pub allocator_recycle : Pool A → A → Result (Pool A)
  unfolding allocator_free
  allocator_recycle pool value = allocator_free pool value
