-- ===== src/Std/Hash/Purge.antt =====
-- packages/std/hash/hash.c: `hash_new`, and `hash_purge`, which deletes every entry.
use inet_lisp.Base.{
  ℕ, zero, suc, ◌+◌, ◌-◌, ◌%◌, ◌^◌, ◌≤◌, ◌≡◌, refl, sym, ap, ◌∙◌, List, [], ◌∷◌, Option, none, some,
  length, get_elem?, get_or, set, set-set, length-set, get_elem?-set_self, get_elem?-set_ne,
  lt_of_get_elem?, lt→ltb, subst, replicate, arith, ok, ◌>>=◌,
}
use inet_lisp.Std.Hash.Chain.{KeyLaws, Indexed}
use inet_lisp.Std.Hash.Buckets.{get_elem?-get_or, replicate-Holds}
use inet_lisp.Std.Hash.Rehash.{Laws, IsValid, find}
use inet_lisp.Std.Hash.FiniteMap.{Models}
use inet_lisp.Std.Hash.{
  Pointer, Chain, Hash, key_equal, hash_base, hash_init, hash_new, hash_delete_entry, unlink,
  purge_chain, purge_chains, hash_purge_without_shrink, hash_purge,
}

module _ {A : Type 0} where
  abbrev get_default : A → Option A → A
  get_default d none = d
  get_default d (some a) = a

  set_same : (xs : List A) (i : ℕ) {x : A} → get_elem? xs i ≡ some x → set xs i x ≡ xs
  set_same [] i h = refl
  set_same (y ∷ xs) zero {x} h = ap (λ z. z ∷ xs) (sym (ap (get_default x) h))
  set_same (y ∷ xs) (suc i) h = ap (λ l. y ∷ l) (set_same xs i h)

  get_or_of : (xs : List A) (i : ℕ) (d : A) {x : A} → get_elem? xs i ≡ some x → get_or xs i d ≡ x
  get_or_of xs i d {x} h =
      ap (get_default x) (sym (get_elem?-get_or xs i d (lt_of_get_elem? xs i h)) ∙ h)

module _ {K : Type 0} ⦃pointer : Pointer K⦄ where
  address_laws : KeyLaws {K = K} (key_equal none) (hash_base none)
  address_laws = record {
    equal_refl = λ a. ground arith;
    equal_sym = λ a b. ground arith;
    equal_trans = λ a b c h k. ground arith;
    base-equal = λ a b h. ground arith;
  }

module _ {K V : Type 0} ⦃pointer : Pointer K⦄ where
  pub hash_init-Models :
      (self : Hash K V)
      → Laws self
      → (next : Hash K V) × (hash_init self ≡ ok next) × Models self (λ q. none) next
  unfolding hash_init find
  hash_init-Models self laws =
      let h = replicate-Holds (key_equal self.key_equal_fn) (hash_base self.hash_fn) 13 in
      (
        record self {
          prime_index = 0;
          used_indexes_size = 0;
          length = 0;
          entries = replicate 13 [];
          cursor_index = 0;
          cursor_entry = [];
        },
        refl,
        record {
          valid = record { laws = laws; sized = refl; placed = h.placed; counted = h.entries };
          finds = h.reads;
          same_hash_fn = refl;
          same_key_equal_fn = refl;
        },
      )

module _ {K V : Type 0} where
  -- `purge_chain` takes out a chain that stands whole at its index.
  purge_chain_lem :
      (c : Chain K V) (i : ℕ) (self : Hash K V)
      → get_elem? self.entries i ≡ some c
      → Indexed i c
      → (n used : ℕ) × (purge_chain c self
          ≡ ok (record self {
            entries = set self.entries i [];
            length = n;
            used_indexes_size = used;
          }))
  unfolding purge_chain hash_delete_entry unlink
  purge_chain_lem [] i self found indexed =
      (self.length, self.used_indexes_size, rw (set_same self.entries i found) refl)
  purge_chain_lem (e ∷ c) i self found (at_i, indexed) =
      let used_next : ℕ = (self.used_indexes_size + (2 ^ 64 - 1)) % 2 ^ 64 in
      let next : Hash K V = record self {
        entries = set self.entries i c;
        length = self.length - 1;
        used_indexes_size = used_next;
      } in
      let here = get_elem?-set_self self.entries i c (lt_of_get_elem? self.entries i found) in
      let (n, used, runs) = purge_chain_lem c i next here indexed in
      (
        n,
        used,
        rw (at_i, found, ◌>>=◌, lt→ltb 0 (length (e ∷ c)) (omega arith))
            (rw (set-set self.entries i c []) at runs),
      )

  -- The chains from `i` on stand at their indexes.
  abbrev IndexedFrom : ℕ → List (Chain K V) → Type 0
  IndexedFrom i bs = (j : ℕ) (c : Chain K V) → i ≤ j → get_elem? bs j ≡ some c → Indexed j c

  IndexedFrom-set :
      (i : ℕ) (c : Chain K V) (bs : List (Chain K V))
      → IndexedFrom i bs
      → IndexedFrom (i + 1) (set bs i c)
  IndexedFrom-set i c bs h j d after found =
      h j d (omega arith) (sym (get_elem?-set_ne bs c (λ e. omega arith)) ∙ found)

  purge_chains_lem :
      (n i : ℕ) (self : Hash K V)
      → n + i ≡ length self.entries
      → IndexedFrom i self.entries
      → (next : Hash K V) × (purge_chains n i self ≡ ok next)
        × (next.hash_fn ≡ self.hash_fn)
        × (next.key_equal_fn ≡ self.key_equal_fn)
  unfolding purge_chains
  purge_chains_lem zero i self h indexed = (self, refl, refl, refl)
  purge_chains_lem (suc n) i self h indexed =
      let c = get_or self.entries i [] in
      let found = get_elem?-get_or self.entries i [] (omega arith) in
      let (l, used, runs) = purge_chain_lem c i self found (indexed i c (omega arith) found) in
      let emptied : Hash K V = record self {
        entries = set self.entries i [];
        length = l;
        used_indexes_size = used;
      } in
      let (next, rest, same_hash_fn, same_key_equal_fn) =
        purge_chains_lem n (i + 1) emptied (rw length-set (omega arith))
          (IndexedFrom-set i [] self.entries indexed) in
      (next, rw (found, ◌>>=◌, runs, set-set) rest, same_hash_fn, same_key_equal_fn)

module _ {K V : Type 0} ⦃pointer : Pointer K⦄ where
  -- `hash_purge` does not fail, and leaves a valid hash that finds nothing.
  pub hash_purge-Models :
      (self : Hash K V)
      → IsValid self
      → (next : Hash K V) × (hash_purge self ≡ ok next) × Models self (λ q. none) next
  unfolding hash_purge hash_purge_without_shrink
  hash_purge-Models self valid =
      let (mid, purged, same_hash_fn, same_key_equal_fn) =
        purge_chains_lem (length self.entries) 0 self (omega arith) (λ j c _ found.
          subst (λ x. Indexed j x) (get_or_of self.entries j [] found) (valid.placed.indexed j)) in
      let (next, runs, m) =
        hash_init-Models mid (rw (same_key_equal_fn, same_hash_fn) valid.laws) in
      (
        next,
        rw (valid.sized, ◌>>=◌, purged) runs,
        record {
          valid = m.valid;
          finds = m.finds;
          same_hash_fn = m.same_hash_fn ∙ same_hash_fn;
          same_key_equal_fn = m.same_key_equal_fn ∙ same_key_equal_fn;
        },
      )

  -- A new hash finds nothing; its keys are compared and hashed as pointers.
  pub hash_new-Models :
      (next : Hash K V) × (hash_new ≡ ok next) × (IsValid next × ((q : K) → find next q ≡ none))
  unfolding hash_new
  hash_new-Models =
      let start : Hash K V = record {
        prime_index = 0;
        used_indexes_size = 0;
        length = 0;
        entries = [];
        cursor_index = 0;
        cursor_entry = [];
        cursor_key = none;
        hash_fn = none;
        key_equal_fn = none;
      } in
      let (next, runs, m) = hash_init-Models start address_laws in (next, runs, (m.valid, m.finds))
