-- ===== src/Std/Hash/Iterate.antt =====
-- packages/std/hash/hash.c: `hash_first`, `hash_next`, `hash_value_list`.
use mathlib.Core.List.{flatten, append-nil, append_assoc}
use inet_lisp.Base.{
  ℕ, zero, suc, ◌+◌, ◌-◌, ◌≤◌, ◌<◌, ◌≡◌, refl, ap, ◌∙◌, List, [], ◌∷◌, ◌++◌, map, Option, none,
  some, length, get_elem?, get_or, drop, arith, Result, ok, ◌>>=◌,
}
use inet_lisp.Std.Hash.Buckets.{get_elem?-get_or}
use inet_lisp.Std.Hash.Rehash.{IsValid, hash_primes_positive}
use inet_lisp.Std.Hash.{
  Pointer, Chain, Hash, hash_primes, scan, hash_next, hash_first, push_all, hash_value_list,
}

module _ {A : Type 0} where
  abbrev some_or : A → Option A → A
  some_or d none = d
  some_or d (some a) = a

  drop-get_elem? :
      (xs : List A) (i : ℕ) {x : A} → get_elem? xs i ≡ some x → drop i xs ≡ x ∷ drop (suc i) xs
  drop-get_elem? [] i h = cc
  drop-get_elem? (y ∷ xs) zero {x} h = ap (λ z. z ∷ xs) (ap (some_or x) h)
  drop-get_elem? (y ∷ xs) (suc i) h = drop-get_elem? xs i h

  drop_past : (xs : List A) (i : ℕ) → length xs ≤ i → drop i xs ≡ []
  drop_past [] zero h = refl
  drop_past [] (suc i) h = refl
  drop_past (x ∷ xs) zero h = elim h [ ]
  drop_past (x ∷ xs) (suc i) h = drop_past xs i (omega arith)

module _ {K V : Type 0} where
  abbrev pub values : Chain K V → List V
  values c = map (λ e. e.value) c

  -- The entries that the cursor has still to pass.
  abbrev remaining : Hash K V → Chain K V
  remaining self = self.cursor_entry ++ flatten (drop (suc self.cursor_index) self.entries)

  abbrev head_value : Chain K V → Option V
  head_value [] = none
  head_value (e ∷ c) = some e.value

  abbrev tail : Chain K V → Chain K V
  tail [] = []
  tail (e ∷ c) = c

  first_chain :
      (bs : List (Chain K V)) → 0 < length bs → flatten bs ≡ get_or bs 0 [] ++ flatten (drop 1 bs)
  unfolding flatten
  first_chain [] h = elim h [ ]
  first_chain (c ∷ bs) h = refl

  -- The answer of `hash_next` on a hash with the entries `c` to pass.
  record Steps (self : Hash K V) (c : Chain K V) (run : Result (Option V × Hash K V)) : Type 0 where
    next : Hash K V
    runs : run ≡ ok (head_value c, next)
    left : remaining next ≡ tail c
    same_entries : next.entries ≡ self.entries
    same_index : next.prime_index ≡ self.prime_index
    inside : next.cursor_index < length self.entries

  scan-Steps :
      (n : ℕ) (c : Chain K V) (self : Hash K V)
      → n + self.cursor_index + 1 ≡ length self.entries
      → self.cursor_entry ≡ c
      → Steps self (remaining self) (scan n c self)
  unfolding scan flatten
  scan-Steps n (e ∷ c) self h at_c = record {
    next = record self { cursor_key = some e.key; cursor_entry = c };
    runs = rw at_c refl;
    left = rw at_c refl;
    same_entries = refl;
    same_index = refl;
    inside = omega arith;
  }
  scan-Steps zero [] self h at_c =
      let end : drop (suc self.cursor_index) self.entries ≡ [] =
        drop_past self.entries (suc self.cursor_index) (omega arith) in
      record {
        next = self;
        runs = rw (at_c, end) refl;
        left = rw (at_c, end) refl;
        same_entries = refl;
        same_index = refl;
        inside = omega arith;
      }
  scan-Steps (suc n) [] self h at_c =
      let i = self.cursor_index + 1 in
      let c = get_or self.entries i [] in
      let found : get_elem? self.entries i ≡ some c =
        get_elem?-get_or self.entries i [] (omega arith) in
      let next_index : suc self.cursor_index ≡ i = omega arith in
      let same : drop (suc self.cursor_index) self.entries ≡ c ∷ drop (suc i) self.entries =
        rw next_index (drop-get_elem? self.entries i found) in
      let t =
        scan-Steps n c (record self { cursor_index = i; cursor_entry = c }) (omega arith) refl in
      record {
        next = t.next;
        runs = rw (found, at_c, same) t.runs;
        left = rw (at_c, same) t.left;
        same_entries = t.same_entries;
        same_index = t.same_index;
        inside = t.inside;
      }

  hash_next-Steps :
      (self : Hash K V)
      → get_elem? hash_primes self.prime_index ≡ some (length self.entries)
      → self.cursor_index < length self.entries
      → Steps self (remaining self) (hash_next self)
  unfolding hash_next
  hash_next-Steps self sized inside =
      rw (sized, ◌>>=◌)
        (scan-Steps (length self.entries - 1 - self.cursor_index) self.cursor_entry self
          (omega arith) refl)

  -- enough fuel for what is left
  push_all_lem :
      (fuel : ℕ) (c : Chain K V) (self : Hash K V) (list : List V)
      → get_elem? hash_primes self.prime_index ≡ some (length self.entries)
      → self.cursor_index < length self.entries
      → remaining self ≡ tail c
      → length c ≤ fuel
      → (next : Hash K V) × (push_all fuel (head_value c) self list ≡ ok (list ++ values c, next))
        × (next.entries ≡ self.entries)
  unfolding push_all
  push_all_lem fuel [] self list sized inside left enough = (self, rw append-nil refl, refl)
  push_all_lem zero (e ∷ c) self list sized inside left enough = elim enough [ ]
  push_all_lem (suc fuel) (e ∷ c) self list sized inside left enough =
      let t = hash_next-Steps self sized inside in
      let (next, runs, kept) =
        push_all_lem fuel c t.next (list ++ e.value ∷ []) (rw (t.same_index, t.same_entries) sized)
          (rw t.same_entries t.inside) (rw left at t.left) (omega arith) in
      (next, rw (t.runs, left, ◌>>=◌, runs, append_assoc) refl, kept ∙ t.same_entries)

module _ {K V : Type 0} ⦃pointer : Pointer K⦄ where
  -- On a valid hash, `hash_value_list` does not fail: its list has the value of each entry, chain
  -- after chain, and the entries are kept.
  pub hash_value_list_lem :
      (self : Hash K V)
      → IsValid self
      → (next : Hash K V) × (hash_value_list self ≡ ok (values (flatten self.entries), next))
        × (next.entries ≡ self.entries)
  unfolding hash_value_list hash_first
  hash_value_list_lem self valid =
      let pos = hash_primes_positive self.prime_index valid.sized in
      let c = get_or self.entries 0 [] in
      let found = get_elem?-get_or self.entries 0 [] pos in
      let start = record self { cursor_index = 0; cursor_entry = c } in
      let t = hash_next-Steps start valid.sized pos in
      let whole : flatten self.entries ≡ remaining start = first_chain self.entries pos in
      let (next, runs, kept) =
        push_all_lem self.length (remaining start) t.next []
          (rw (t.same_index, t.same_entries) valid.sized) (rw t.same_entries t.inside) t.left
          (omega (arith, valid.counted, ap length whole)) in
      (next, rw (found, ◌>>=◌, t.runs, whole) runs, kept ∙ t.same_entries)
