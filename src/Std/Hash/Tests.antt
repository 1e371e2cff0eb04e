-- ===== src/Std/Hash/Tests.antt =====
-- packages/std/hash/hash.c: runs of the table, and its theorems at a hash of two keys in one chain.
use mathlib.Core.List.{flatten}
use inet_lisp.Base.{
  ℕ, ◌+◌, ◌-◌, ◌^◌, ◌≡◌, refl, sym, ◌∙◌, subst, [], ◌∷◌, Bool, true, not, Option, none, some,
  get_elem?, replicate, set, Result, ok, ◌>>=◌, ok_injective,
}
use inet_lisp.Std.Hash.Buckets.{update}
use inet_lisp.Std.Hash.Rehash.{IsValid, Rehashed, find, hash_rehash-Rehashed}
use inet_lisp.Std.Hash.FiniteMap.{Models, equal_of, is_none, set_new}
use inet_lisp.Std.Hash.Set.{hash_put-Models, hash_refines_map}
use inet_lisp.Std.Hash.Iterate.{values, hash_value_list_lem}
use inet_lisp.Std.Hash.Purge.{hash_new-Models}
use inet_lisp.Std.Hash.{
  Pointer, Entry, Hash, hash_primes, hash_new, hash_get, hash_set, hash_put, hash_delete,
  hash_rehash, hash_is_overload, hash_value_list,
}

instance number_pointer : Pointer ℕ
number_pointer = record { address = λ n. n }

abbrev empty : Hash ℕ ℕ
empty = record {
  prime_index = 0;
  used_indexes_size = 0;
  length = 0;
  entries = replicate 13 [];
  cursor_index = 0;
  cursor_entry = [];
  cursor_key = none;
  hash_fn = none;
  key_equal_fn = none;
}

abbrev entry : ℕ → ℕ → ℕ → Entry ℕ ℕ
entry index key value = record { index = index; key = key; value = value }

abbrev one_key : Hash ℕ ℕ
one_key = record empty {
  used_indexes_size = 1;
  length = 1;
  entries = set (replicate 13 []) 1 (entry 1 14 5 ∷ []);
}

abbrev two_keys : Hash ℕ ℕ
two_keys = record empty {
  used_indexes_size = 1;
  length = 2;
  entries = set (replicate 13 []) 1 (entry 1 27 6 ∷ entry 1 14 5 ∷ []);
}

empty-IsValid : IsValid empty
unfolding hash_new
empty-IsValid =
    let (next, runs, made) = hash_new-Models {K = ℕ} {V = ℕ} in
    subst (λ h. IsValid h) (ok_injective (sym runs)) made.0

put-IsValid :
    (self next : Hash ℕ ℕ) (key value : ℕ)
    → IsValid self
    → get_elem? hash_primes (self.prime_index + 1) ≡ some 31
    → hash_put self key value ≡ ok next
    → IsValid next
put-IsValid self next key value valid larger put =
    let (n, runs, m) = hash_put-Models self valid key value 31 larger in
    subst (λ h. IsValid h) (ok_injective (sym runs ∙ put)) m.valid

one_key-IsValid : IsValid one_key
unfolding hash_put number_pointer
one_key-IsValid = put-IsValid empty one_key 14 5 empty-IsValid refl refl

two_keys-IsValid : IsValid two_keys
unfolding hash_put number_pointer
two_keys-IsValid = put-IsValid one_key two_keys 27 6 one_key-IsValid refl refl

hash_refines_map_example :
    (hash_get two_keys 14 ≡ ok (find two_keys 14))
    × ((next : Hash ℕ ℕ) × (hash_set two_keys 14 9 ≡ ok (is_none (find two_keys 14), next))
        × Models two_keys (set_new (equal_of two_keys) (find two_keys) 14 9) next)
    × ((next : Hash ℕ ℕ) × (hash_put two_keys 14 9 ≡ ok next)
        × Models two_keys (update (equal_of two_keys) (find two_keys) 14 (some 9)) next)
    × ((next : Hash ℕ ℕ) × (hash_delete two_keys 14 ≡ ok (not (is_none (find two_keys 14)), next))
        × Models two_keys (update (equal_of two_keys) (find two_keys) 14 none) next)
hash_refines_map_example = hash_refines_map two_keys two_keys-IsValid 14 9 31 refl

hash_rehash_example :
    (next : Hash ℕ ℕ) × (hash_rehash two_keys 1 ≡ ok next) × Rehashed two_keys 1 next
hash_rehash_example = hash_rehash-Rehashed two_keys 1 31 two_keys-IsValid refl

hash_value_list_example :
    (next : Hash ℕ ℕ) × (hash_value_list two_keys ≡ ok (values (flatten two_keys.entries), next))
    × (next.entries ≡ two_keys.entries)
hash_value_list_example = hash_value_list_lem two_keys two_keys-IsValid

-- `hash_delete_entry` counts a chain as empty when its first entry goes: with one of the two keys
-- left the count is 0, and with none it wraps around, so that the hash seems overloaded.
used_of : Result (Bool × Hash ℕ ℕ) → Option ℕ
used_of (ok (answer, h)) = some h.used_indexes_size
used_of _ = none

delete_undercounts : used_of (hash_delete two_keys 27) ≡ some 0
unfolding hash_delete used_of number_pointer
delete_undercounts = refl

delete_wraps :
    used_of (do (answer, h) ← hash_delete two_keys 27; hash_delete h 14) ≡ some (2 ^ 64 - 1)
unfolding hash_delete used_of number_pointer
delete_wraps = refl

empty_seems_overloaded :
    (do (a, h) ← hash_delete two_keys 27; (b, k) ← hash_delete h 14; hash_is_overload k) ≡ ok true
unfolding hash_delete hash_is_overload number_pointer
empty_seems_overloaded = refl
