-- ===== src/Std/Hash/Set.antt =====
-- packages/std/hash/hash.c: `hash_set` and `hash_put` against a finite map.
use inet_lisp.Base.{
  ℕ, ◌+◌, ◌*◌, ◌/◌, ◌%◌, ◌^◌, ◌≡◌, refl, ap, ◌∙◌, Bool, true, not, ◌||◌, leb, none, some, length,
  get_elem?, arith, ok, ◌>>=◌, inl, inr, Bool-cases, Option-cases,
}
use inet_lisp.Std.Hash.Buckets.{update}
use inet_lisp.Std.Hash.Rehash.{IsValid, Rehashed, find, hash_rehash-Rehashed}
use inet_lisp.Std.Hash.FiniteMap.{
  equal_of, is_none, set_new, Models, hash_set_entry-Models, hash_put_present,
  hash_get_entry-find_entry, find_entry_absent, find_congr, hash_get-find, hash_delete-Models,
}
use inet_lisp.Std.Hash.{
  Pointer, Hash, hash_primes, key_equal, hash_set_entry_if_not_exists, hash_is_overload, hash_set,
  hash_put, hash_get, hash_delete,
}

module _ {K V : Type 0} ⦃pointer : Pointer K⦄ where
  equal_after :
      {self mid : Hash K V} {i : ℕ} (a b : K)
      → Rehashed self i mid
      → equal_of mid a b ≡ equal_of self a b
  equal_after a b r = ap (λ o. key_equal o a b) r.same_key_equal_fn

  module _ (self : Hash K V) (valid : IsValid self) (key : K) where
    hash_set_after_rehash :
        (value : V) {mid : Hash K V} {i : ℕ}
        → Rehashed self i mid
        → (next : Hash K V) × (hash_set_entry_if_not_exists mid key value
            ≡ ok (is_none (find self key), next))
          × Models self (set_new (equal_of self) (find self) key value) next
    hash_set_after_rehash value {mid} r =
        let (next, runs, m) = hash_set_entry-Models mid r.valid key value in
        (
          next,
          rw r.finds at runs,
          record {
            valid = m.valid;
            finds = λ q. m.finds q ∙ rw (r.finds q, equal_after key q r) refl;
            same_hash_fn = m.same_hash_fn ∙ r.same_hash_fn;
            same_key_equal_fn = m.same_key_equal_fn ∙ r.same_key_equal_fn;
          },
        )

    -- `hash_set` grows a hash that is overloaded, if the table of primes has a larger size.
    pub hash_set-Models :
        (value : V) (limit : ℕ)
        → get_elem? hash_primes (self.prime_index + 1) ≡ some limit
        → (next : Hash K V) × (hash_set self key value ≡ ok (is_none (find self key), next))
          × Models self (set_new (equal_of self) (find self) key value) next
    unfolding hash_set hash_is_overload
    hash_set-Models value limit larger =
        let size = length self.entries in
        let overload : Bool =
          leb ((size * 75 % 2 ^ 64) / 100) self.length
          || leb ((size * 50 % 2 ^ 64) / 100) self.used_indexes_size in
        elim (Bool-cases overload) [
          | inl full ↦
              let (mid, grown, r) =
                hash_rehash-Rehashed self (self.prime_index + 1) limit valid larger in
              let (next, runs, m) = hash_set_after_rehash value r in
              (next, rw (valid.sized, ◌>>=◌, full, grown) runs, m)
          | inr room ↦
              let (next, runs, m) = hash_set_entry-Models self valid key value in
              (next, rw (valid.sized, ◌>>=◌, room) runs, m)
        ]

    -- `hash_put` overwrites the value of the key.
    pub hash_put-Models :
        (value : V) (limit : ℕ)
        → get_elem? hash_primes (self.prime_index + 1) ≡ some limit
        → (next : Hash K V) × (hash_put self key value ≡ ok next)
          × Models self (update (equal_of self) (find self) key (some value)) next
    unfolding hash_put
    hash_put-Models value limit larger = elim (Option-cases (find self key)) [
      | inr (old, present) ↦ hash_put_present self valid key value present
      | inl absent ↦
          let (next, runs, m) = hash_set-Models value limit larger in
          let is_new : hash_set self key value ≡ ok (true, next) = rw absent at runs in
          (
            next,
            rw
                (
                  hash_get_entry-find_entry self valid key,
                  ◌>>=◌,
                  find_entry_absent self valid key absent,
                  is_new,
                )
                refl,
            record {
              valid = m.valid;
              finds = λ q. ground (arith, m.finds q, find_congr self valid key q);
              same_hash_fn = m.same_hash_fn;
              same_key_equal_fn = m.same_key_equal_fn;
            },
          )
    ]

    -- On a valid hash that has a larger size to grow to, no operation fails. `hash_get` finds what the
    -- finite map of the hash has; `hash_set` adds a key that is new and answers whether it was;
    -- `hash_put` overwrites the key; `hash_delete` takes it out and answers whether it was there.
    -- Each leaves a valid hash of that map, under the same functions on keys.
    pub hash_refines_map :
        (value : V) (limit : ℕ)
        → get_elem? hash_primes (self.prime_index + 1) ≡ some limit
        → (hash_get self key ≡ ok (find self key))
          × ((next : Hash K V) × (hash_set self key value ≡ ok (is_none (find self key), next))
              × Models self (set_new (equal_of self) (find self) key value) next)
          × ((next : Hash K V) × (hash_put self key value ≡ ok next)
              × Models self (update (equal_of self) (find self) key (some value)) next)
          × ((next : Hash K V) × (hash_delete self key ≡ ok (not (is_none (find self key)), next))
              × Models self (update (equal_of self) (find self) key none) next)
    hash_refines_map value limit larger = (
      hash_get-find self valid key,
      hash_set-Models value limit larger,
      hash_put-Models value limit larger,
      hash_delete-Models self valid key,
    )
