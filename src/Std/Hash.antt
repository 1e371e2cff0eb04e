-- ===== src/Std/Hash.antt =====
-- packages/std/hash/hash.c: a table of chains, over the sizes of hash_primes.h. A pointer to an
-- entry is the entry with its position in its chain. Values are pointers that are not NULL; freeing
-- keys, values and entries is left out.
pub mod Chain
pub mod Buckets
pub mod Rehash
pub mod FiniteMap
pub mod Set
pub mod Iterate
pub mod Purge
pub mod StringKey
mod Tests
use inet_lisp.Base.{
  ℕ, zero, suc, ◌+◌, ◌-◌, ◌*◌, ◌/◌, ◌%◌, ◌^◌, List, [], ◌∷◌, ◌++◌, Bool, true, false, ◌||◌, ◌==◌,
  ltb, leb, if◌then◌else◌, Option, none, some, length, get_elem?, set, replicate, Result, ok, err,
  out_of_fuel, ◌>>=◌, ◌>>◌, deref, check,
}

-- `hash_primes`
abbrev pub hash_primes : List ℕ
hash_primes =
    13 ∷ 31 ∷ 61 ∷ 127 ∷ 251 ∷ 509 ∷ 1021 ∷ 2039 ∷ 4093 ∷ 8191 ∷ 16381 ∷ 32749 ∷ 65521 ∷ 131071
    ∷ 262139 ∷ 524287 ∷ 1048573 ∷ 2097143 ∷ 4194301 ∷ 8388593 ∷ 16777213 ∷ 33554393 ∷ 67108859
    ∷ 134217689 ∷ 268435399 ∷ 536870909 ∷ 1073741789 ∷ 2147483647 ∷ 4294967295 ∷ 8589934591
    ∷ 17179869183 ∷ 34359738367 ∷ 68719476735 ∷ 137438953471 ∷ 274877906943 ∷ 549755813887
    ∷ 1099511627775 ∷ 2199023255551 ∷ 4398046511103 ∷ 8796093022207 ∷ 17592186044415
    ∷ 35184372088831 ∷ 70368744177663 ∷ 140737488355327 ∷ 281474976710655 ∷ 562949953421311
    ∷ 1125899906842623 ∷ 2251799813685247 ∷ 4503599627370495 ∷ 9007199254740991 ∷ 18014398509481983
    ∷ 36028797018963967 ∷ 72057594037927935 ∷ 144115188075855871 ∷ 288230376151711743
    ∷ 576460752303423487 ∷ 1152921504606846975 ∷ 2305843009213693949 ∷ 4611686018427387903
    ∷ 9223372036854775807 ∷ []

-- `(size_t) key`, which stands for the pointer itself
pub record Pointer (K : Type 0) : Type 0 where
  pub address : K → ℕ

-- `entry_t`, without the link: a chain is a list
pub record Entry (K V : Type 0) : Type 0 where
  pub index : ℕ
  pub key : K
  pub value : V

abbrev pub Chain : Type 0 → Type 0 → Type 0
Chain K V = List (Entry K V)

-- `hash_t`. The cursor entry is the rest of its chain.
pub record Hash (K V : Type 0) : Type 0 where
  pub prime_index : ℕ
  pub used_indexes_size : ℕ
  pub length : ℕ
  pub entries : List (Chain K V)
  pub cursor_index : ℕ
  pub cursor_entry : Chain K V
  pub cursor_key : Option K
  pub hash_fn : Option (K → ℕ)
  pub key_equal_fn : Option (K → K → Bool)

module _ {K V : Type 0} where
  abbrev pub is_nil : Chain K V → Bool
  is_nil [] = true
  is_nil (entry ∷ chain) = false

  abbrev pub advance : Option (ℕ × Entry K V) → Option (ℕ × Entry K V)
  advance none = none
  advance (some (position, entry)) = some (suc position, entry)

  -- the loop that looks for a key along a chain
  unfoldable pub find_entry : (K → K → Bool) → Chain K V → K → Option (ℕ × Entry K V)
  find_entry equal [] key = none
  find_entry equal (entry ∷ chain) key =
      let rest = advance (find_entry equal chain key) in
      if equal entry.key key then some (0, entry) else rest

  -- `*entry_pointer = entry->next`
  unfoldable pub unlink : ℕ → Chain K V → Chain K V
  unlink position [] = []
  unlink zero (entry ∷ chain) = chain
  unlink (suc position) (entry ∷ chain) = entry ∷ unlink position chain

  -- `entry->value = value`, at a position of a chain
  unfoldable pub put_value : ℕ → V → Chain K V → Chain K V
  put_value position value [] = []
  put_value zero value (entry ∷ chain) = record entry { value = value } ∷ chain
  put_value (suc position) value (entry ∷ chain) = entry ∷ put_value position value chain

  unfoldable pub hash_init : Hash K V → Result (Hash K V)
  hash_init self = do
    limit ← deref (get_elem? hash_primes 0)
    ok (record self {
      prime_index = 0;
      used_indexes_size = 0;
      length = 0;
      entries = replicate limit [];
      cursor_index = 0;
      cursor_entry = [];
    })

  unfoldable pub hash_new : Result (Hash K V)
  unfolding hash_init
  hash_new = hash_init (record {
    prime_index = 0;
    used_indexes_size = 0;
    length = 0;
    entries = [];
    cursor_index = 0;
    cursor_entry = [];
    cursor_key = none;
    hash_fn = none;
    key_equal_fn = none;
  })

  unfoldable pub hash_set_hash_fn : Hash K V → (K → ℕ) → Hash K V
  hash_set_hash_fn self hash_fn = record self { hash_fn = some hash_fn }

  unfoldable pub hash_set_key_equal_fn : Hash K V → (K → K → Bool) → Hash K V
  hash_set_key_equal_fn self key_equal_fn = record self { key_equal_fn = some key_equal_fn }

  unfoldable pub hash_length : Hash K V → ℕ
  hash_length self = self.length

  -- The entry is looked up by its position in the chain of its index.
  unfoldable pub hash_delete_entry : Hash K V → ℕ → Entry K V → Result (Hash K V)
  unfolding unlink
  hash_delete_entry self position entry = do
    chain ← deref (get_elem? self.entries entry.index)
    check (ltb position (length chain))
    ok (record self {
      entries = set self.entries entry.index (unlink position chain);
      length = self.length - 1;
      used_indexes_size =
          (if position == 0
            then (self.used_indexes_size + (2 ^ 64 - 1)) % 2 ^ 64
            else self.used_indexes_size);
    })

  -- the inner loop of `hash_purge_without_shrink`: each entry is the first of what is left
  unfoldable pub purge_chain : Chain K V → Hash K V → Result (Hash K V)
  unfolding hash_delete_entry
  purge_chain [] self = ok self
  purge_chain (entry ∷ chain) self = do
    next ← hash_delete_entry self 0 entry
    purge_chain chain next

  -- its outer loop, with `n` chains to go
  unfoldable pub purge_chains : ℕ → ℕ → Hash K V → Result (Hash K V)
  unfolding purge_chain
  purge_chains zero index self = ok self
  purge_chains (suc n) index self = do
    chain ← deref (get_elem? self.entries index)
    next ← purge_chain chain self
    purge_chains n (index + 1) (record next { entries = set next.entries index [] })

  unfoldable pub hash_purge_without_shrink : Hash K V → Result (Hash K V)
  unfolding purge_chains
  hash_purge_without_shrink self = do
    limit ← deref (get_elem? hash_primes self.prime_index)
    purge_chains limit 0 self

  unfoldable pub hash_purge : Hash K V → Result (Hash K V)
  unfolding hash_purge_without_shrink hash_init
  hash_purge self = do next ← hash_purge_without_shrink self; hash_init next

  unfoldable pub hash_cursor : Hash K V → Option K
  hash_cursor self = self.cursor_key

  -- the loop of `hash_next`, with `n` chains after the cursor's
  unfoldable pub scan : ℕ → Chain K V → Hash K V → Result (Option V × Hash K V)
  scan n (entry ∷ chain) self =
      ok (some entry.value, record self { cursor_key = some entry.key; cursor_entry = chain })
  scan zero [] self = ok (none, self)
  scan (suc n) [] self = do
    chain ← deref (get_elem? self.entries (self.cursor_index + 1))
    scan n chain (record self { cursor_index = self.cursor_index + 1; cursor_entry = chain })

  unfoldable pub hash_next : Hash K V → Result (Option V × Hash K V)
  unfolding scan
  hash_next self = do
    limit ← deref (get_elem? hash_primes self.prime_index)
    scan (limit - 1 - self.cursor_index) self.cursor_entry self

  unfoldable pub hash_first : Hash K V → Result (Option V × Hash K V)
  unfolding hash_next
  hash_first self = do
    chain ← deref (get_elem? self.entries 0)
    hash_next (record self { cursor_index = 0; cursor_entry = chain })

  -- the loop of `hash_value_list`
  unfoldable pub push_all : ℕ → Option V → Hash K V → List V → Result (List V × Hash K V)
  unfolding hash_next
  push_all fuel none self list = ok (list, self)
  push_all zero (some value) self list = err out_of_fuel
  push_all (suc fuel) (some value) self list = do
    (next_value, next) ← hash_next self
    push_all fuel next_value next (list ++ value ∷ [])

  unfoldable pub hash_value_list : Hash K V → Result (List V × Hash K V)
  unfolding hash_first push_all
  hash_value_list self = do (value, next) ← hash_first self; push_all self.length value next []

  unfoldable pub hash_is_overload : Hash K V → Result Bool
  hash_is_overload self = do
    limit ← deref (get_elem? hash_primes self.prime_index)
    ok (
        leb ((limit * 75 % 2 ^ 64) / 100) self.length
        || leb ((limit * 50 % 2 ^ 64) / 100) self.used_indexes_size)

module _ {K : Type 0} ⦃pointer : Pointer K⦄ where
  abbrev pub hash_base : Option (K → ℕ) → K → ℕ
  hash_base none key = pointer.address key
  hash_base (some hash_fn) key = hash_fn key

  abbrev pub key_equal : Option (K → K → Bool) → K → K → Bool
  key_equal none key1 key2 = pointer.address key1 == pointer.address key2
  key_equal (some key_equal_fn) key1 key2 = key_equal_fn key1 key2

module _ {K V : Type 0} ⦃pointer : Pointer K⦄ where
  unfoldable pub hash_key_index : Hash K V → K → Result ℕ
  hash_key_index self key = do
    limit ← deref (get_elem? hash_primes self.prime_index)
    ok (hash_base self.hash_fn key % limit)

  unfoldable pub hash_key_equal : Hash K V → K → K → Bool
  hash_key_equal self key1 key2 = key_equal self.key_equal_fn key1 key2

  unfoldable pub hash_new_entry : Hash K V → K → V → Result (Entry K V)
  unfolding hash_key_index
  hash_new_entry self key value = do
    index ← hash_key_index self key
    ok (record { index = index; key = key; value = value })

  unfoldable pub hash_get_entry : Hash K V → K → Result (Option (ℕ × Entry K V))
  unfolding hash_key_index hash_key_equal find_entry
  hash_get_entry self key = do
    index ← hash_key_index self key
    chain ← deref (get_elem? self.entries index)
    ok (find_entry (hash_key_equal self) chain key)

  unfoldable pub hash_has : Hash K V → K → Result Bool
  unfolding hash_get_entry
  hash_has self key = do
    entry ← hash_get_entry self key
    ok (elim entry [ none ↦ false | some (position, e) ↦ true ])

  unfoldable pub hash_get : Hash K V → K → Result (Option V)
  unfolding hash_get_entry
  hash_get self key = do
    entry ← hash_get_entry self key
    ok (elim entry [ none ↦ none | some (position, e) ↦ some e.value ])

  unfoldable pub hash_set_entry_if_not_exists : Hash K V → K → V → Result (Bool × Hash K V)
  unfolding hash_key_index hash_key_equal hash_new_entry find_entry
  hash_set_entry_if_not_exists self key value = do
    index ← hash_key_index self key
    chain ← deref (get_elem? self.entries index)
    new_entry ← hash_new_entry self key value
    ok (elim (find_entry (hash_key_equal self) chain key) [
      | none ↦ (
        true,
        record self {
          entries = set self.entries index (new_entry ∷ chain);
          used_indexes_size = (self.used_indexes_size + (if is_nil chain then 1 else 0)) % 2 ^ 64;
          length = self.length + 1;
        },
      )
      | some (position, e) ↦ (false, self)
    ])

  unfoldable pub hash_delete : Hash K V → K → Result (Bool × Hash K V)
  unfolding hash_get_entry hash_delete_entry
  hash_delete self key = do
    entry ← hash_get_entry self key
    elim entry [
      | none ↦ ok (false, self)
      | some (position, e) ↦ do next ← hash_delete_entry self position e; ok (true, next)
    ]

  -- the inner loop of `hash_rehash`: one old chain, each entry put in front of its new chain
  unfoldable pub rehash_chain :
      Chain K V → Hash K V → List (Chain K V) → Result (Hash K V × List (Chain K V))
  unfolding hash_key_index
  rehash_chain [] self new_entries = ok (self, new_entries)
  rehash_chain (entry ∷ chain) self new_entries = do
    new_index ← hash_key_index self entry.key
    top_entry ← deref (get_elem? new_entries new_index)
    rehash_chain chain
        (record self {
          used_indexes_size = self.used_indexes_size + (if is_nil top_entry then 1 else 0);
        })
        (set new_entries new_index (record entry { index = new_index } ∷ top_entry))

  -- its outer loop
  unfoldable pub rehash_chains :
      List (Chain K V) → Hash K V → List (Chain K V) → Result (Hash K V × List (Chain K V))
  unfolding rehash_chain
  rehash_chains [] self new_entries = ok (self, new_entries)
  rehash_chains (chain ∷ chains) self new_entries = do
    (next, filled) ← rehash_chain chain self new_entries
    rehash_chains chains next filled

  -- The assertion is on the size of the table of primes in bytes.
  unfoldable pub hash_rehash : Hash K V → ℕ → Result (Hash K V)
  unfolding rehash_chains
  hash_rehash self new_prime_index = do
    check (ltb new_prime_index (8 * length hash_primes))
    new_limit ← deref (get_elem? hash_primes new_prime_index)
    (next, new_entries) ←
        rehash_chains self.entries
          (record self { prime_index = new_prime_index; used_indexes_size = 0 })
          (replicate new_limit [])
    ok (record next { entries = new_entries })

  unfoldable pub hash_set : Hash K V → K → V → Result (Bool × Hash K V)
  unfolding hash_is_overload hash_rehash hash_set_entry_if_not_exists
  hash_set self key value = do
    overload ← hash_is_overload self
    next ← (if overload then hash_rehash self (self.prime_index + 1) else ok self)
    hash_set_entry_if_not_exists next key value

  unfoldable pub hash_put : Hash K V → K → V → Result (Hash K V)
  unfolding hash_get_entry hash_set put_value
  hash_put self key value = do
    entry ← hash_get_entry self key
    elim entry [
      | none ↦ do (is_new, next) ← hash_set self key value; check is_new; ok next
      | some (position, e) ↦ do
        chain ← deref (get_elem? self.entries e.index)
        ok (record self { entries = set self.entries e.index (put_value position value chain) })
    ]
