-- ===== src/Std/Hash/FiniteMap.antt =====
-- packages/std/hash/hash.c: the operations against a finite map from keys to values.
use inet_lisp.Base.{
  ℕ, ◌+◌, ◌-◌, ◌%◌, ◌^◌, ◌≤◌, ◌<◌, ◌≡◌, refl, sym, ap, ◌∙◌, [], ◌∷◌, Bool, true, false, not, ◌==◌,
  if◌then◌else◌, Option, none, some, length, get_elem?, set, arith, ok, ◌>>=◌, lt→ltb, inl, inr,
  Option-cases,
}
use inet_lisp.Std.Hash.Chain.{
  value_at, value_at-eq-none, value_at-eq-some, lookup, count, Indexed, find_entry-FoundAt,
  FoundAt-lt, FoundAt-index, lookup-find_entry, lookup-unlink, count-unlink_le, lookup-put_value,
  count-put_value, length-unlink, length-put_value, Indexed-unlink, Indexed-put_value, lookup_congr,
}
use inet_lisp.Std.Hash.Buckets.{
  get_elem?-get_or, entries-set, chain_of, view, update, Holds, set-Holds, push-Holds,
}
use inet_lisp.Std.Hash.Rehash.{IsValid, find, or_else, hash_primes_positive}
use inet_lisp.Std.Hash.{
  Pointer, Entry, Chain, Hash, hash_base, key_equal, find_entry, unlink, put_value, hash_key_index,
  hash_key_equal, hash_new_entry, hash_get_entry, hash_get, hash_set_entry_if_not_exists,
  hash_delete_entry, hash_delete, hash_put, is_nil,
}

module _ {V : Type 0} where
  abbrev pub is_none : Option V → Bool
  is_none none = true
  is_none (some v) = false

module _ {K V : Type 0} ⦃pointer : Pointer K⦄ where
  abbrev pub equal_of : Hash K V → K → K → Bool
  equal_of self = key_equal self.key_equal_fn

  -- The hash is valid, finds what `f` has, and keeps its functions on keys.
  pub record Models (self : Hash K V) (f : K → Option V) (next : Hash K V) : Type 0 where
    pub valid : IsValid next
    pub finds : (q : K) → find next q ≡ f q
    pub same_hash_fn : next.hash_fn ≡ self.hash_fn
    pub same_key_equal_fn : next.key_equal_fn ≡ self.key_equal_fn

  -- The map `f` with `value` at `key`, unless `key` has a value.
  abbrev pub set_new : (K → K → Bool) → (K → Option V) → K → V → K → Option V
  set_new equal f key value q = or_else (f q) (if equal key q then some value else none)

  module _ (self : Hash K V) (valid : IsValid self) (key : K) where
    abbrev chain : Chain K V
    chain = chain_of (equal_of self) (hash_base self.hash_fn) self.entries key

    abbrev home : ℕ
    home = hash_base self.hash_fn key % length self.entries

    pos : 0 < length self.entries
    pos = hash_primes_positive self.prime_index valid.sized

    home-lt : home < length self.entries
    home-lt = let positive = pos in omega arith

    hash_key_index-home : hash_key_index self key ≡ ok home
    unfolding hash_key_index
    hash_key_index-home = rw (valid.sized, ◌>>=◌) refl

    entries_home : get_elem? self.entries home ≡ some chain
    entries_home = get_elem?-get_or self.entries home [] home-lt

    pub hash_get_entry-find_entry :
        hash_get_entry self key ≡ ok (find_entry (equal_of self) chain key)
    unfolding hash_get_entry hash_key_equal
    hash_get_entry-find_entry = rw (hash_key_index-home, ◌>>=◌, entries_home) refl

    find-find_entry : value_at (find_entry (equal_of self) chain key) ≡ find self key
    unfolding find view
    find-find_entry = lookup-find_entry (equal_of self) chain key

    -- A key that is looked up is found as the finite map has it, and never fails.
    pub hash_get-find : hash_get self key ≡ ok (find self key)
    unfolding hash_get
    hash_get-find =
        rw (hash_get_entry-find_entry, ◌>>=◌, ← find-find_entry)
          (elim (Option-cases (find_entry (equal_of self) chain key)) [
            | inl absent ↦ rw absent refl
            | inr ((p, e), found) ↦ rw found refl
          ])

    replace-Models :
        (v : Option V) (c : Chain K V) (n used : ℕ)
        → Holds
            (equal_of self)
            (hash_base self.hash_fn)
            (length self.entries)
            n
            (update (equal_of self) (find self) key v)
            (set self.entries home c)
        → Models self (update (equal_of self) (find self) key v) (record self {
          entries = set self.entries home c;
          length = n;
          used_indexes_size = used;
        })
    unfolding find
    replace-Models v c n used h = record {
      valid = record {
        laws = valid.laws;
        sized = valid.sized ∙ ap some (sym h.width);
        placed = h.placed;
        counted = h.entries;
      };
      finds = h.reads;
      same_hash_fn = refl;
      same_key_equal_fn = refl;
    }

    pub find_entry_absent : find self key ≡ none → find_entry (equal_of self) chain key ≡ none
    find_entry_absent absent = value_at-eq-none _ (find-find_entry ∙ absent)

    find_entry_present :
        {v : V}
        → find self key ≡ some v
        → (p : ℕ) × (e : Entry K V) × (find_entry (equal_of self) chain key ≡ some (p, e))
    find_entry_present present = value_at-eq-some _ (find-find_entry ∙ present)

    pub hash_set_entry_absent :
        (value : V)
        → find self key ≡ none
        → (next : Hash K V) × (hash_set_entry_if_not_exists self key value ≡ ok (true, next))
          × Models self (update (equal_of self) (find self) key (some value)) next
    unfolding hash_set_entry_if_not_exists hash_new_entry hash_key_equal find
    hash_set_entry_absent value absent =
        let new_entry : Entry K V = record { index = home; key = key; value = value } in
        let c : Chain K V = new_entry ∷ chain in
        let used : ℕ = (self.used_indexes_size + (if is_nil chain then 1 else 0)) % 2 ^ 64 in
        let step =
          push-Holds (equal_of self) (hash_base self.hash_fn) valid.laws self.entries pos
            valid.placed key new_entry refl refl absent in
        (
          record self {
            entries = set self.entries home c;
            length = self.length + 1;
            used_indexes_size = used;
          },
          rw (hash_key_index-home, ◌>>=◌, entries_home, find_entry_absent absent) refl,
          replace-Models (some value) c (self.length + 1) used (rw valid.counted at step),
        )

    pub hash_set_entry_present :
        (value : V) {old : V}
        → find self key ≡ some old
        → hash_set_entry_if_not_exists self key value ≡ ok (false, self)
    unfolding hash_set_entry_if_not_exists hash_new_entry hash_key_equal
    hash_set_entry_present value present =
        let (p, e, found) = find_entry_present present in
        rw (hash_key_index-home, ◌>>=◌, entries_home, found) refl

    pub find_congr : (q : K) → equal_of self key q ≡ true → find self key ≡ find self q
    unfolding find view
    find_congr q same =
        rw (← valid.laws.base-equal key q same)
          (lookup_congr (equal_of self) valid.laws q chain same)

    -- A key that is there is left as it is, and the answer says whether the key is new.
    pub hash_set_entry-Models :
        (value : V)
        → (next : Hash K V) × (hash_set_entry_if_not_exists self key value
            ≡ ok (is_none (find self key), next))
          × Models self (set_new (equal_of self) (find self) key value) next
    hash_set_entry-Models value = elim (Option-cases (find self key)) [
      | inl absent ↦
          let (next, runs, m) = hash_set_entry_absent value absent in
          (
            next,
            rw absent runs,
            record {
              valid = m.valid;
              finds = λ q. ground (arith, m.finds q, find_congr q);
              same_hash_fn = m.same_hash_fn;
              same_key_equal_fn = m.same_key_equal_fn;
            },
          )
      | inr (old, present) ↦ (
        self,
        rw present (hash_set_entry_present value present),
        record {
          valid = valid;
          finds = λ q. ground (arith, find_congr q);
          same_hash_fn = refl;
          same_key_equal_fn = refl;
        },
      )
    ]

    -- An entry that is found, and a change of its chain that keeps its other keys.
    found_Holds :
        (v : Option V) (c : Chain K V) (n : ℕ)
        → n + length chain ≡ self.length + length c
        → ((q : K) → count (equal_of self) c q ≤ count (equal_of self) chain q)
        → ((q : K)
            → lookup (equal_of self) c q
              ≡ (if equal_of self key q then v else lookup (equal_of self) chain q))
        → Indexed home c
        → Holds
            (equal_of self)
            (hash_base self.hash_fn)
            (length self.entries)
            n
            (update (equal_of self) (find self) key v)
            (set self.entries home c)
    unfolding find
    found_Holds v c n size few reads indexed =
        set-Holds (equal_of self) (hash_base self.hash_fn) valid.laws self.entries pos valid.placed
          key c v n (omega (arith, size, valid.counted)) (λ q. omega (arith, few q)) reads indexed

    -- `hash_delete` takes the key out of the map, and answers whether it was there.
    pub hash_delete-Models :
        (next : Hash K V) × (hash_delete self key ≡ ok (not (is_none (find self key)), next))
        × Models self (update (equal_of self) (find self) key none) next
    unfolding hash_delete hash_delete_entry
    hash_delete-Models = elim (Option-cases (find self key)) [
      | inl absent ↦ (
        self,
        rw (hash_get_entry-find_entry, ◌>>=◌, find_entry_absent absent, absent) refl,
        record {
          valid = valid;
          finds = λ q. ground (arith, find_congr q);
          same_hash_fn = refl;
          same_key_equal_fn = refl;
        },
      )
      | inr (old, present) ↦
          let (p, e, found) = find_entry_present present in
          let at_p = find_entry-FoundAt (equal_of self) chain key found in
          let index = FoundAt-index (equal_of self) home at_p (valid.placed.indexed home) in
          let short = length-unlink chain p (FoundAt-lt (equal_of self) at_p) in
          let c = unlink p chain in
          let used =
            (if p == 0
              then (self.used_indexes_size + (2 ^ 64 - 1)) % 2 ^ 64
              else self.used_indexes_size) in
          let part = entries-set self.entries home [] (home-lt) in
          let h =
            found_Holds none c (self.length - 1) (omega (arith, part, short, valid.counted))
              (λ q. count-unlink_le (equal_of self) valid.laws q at_p)
              (λ q. lookup-unlink (equal_of self) valid.laws q at_p (valid.placed.once q home))
              (Indexed-unlink chain p home (valid.placed.indexed home)) in
          (
            record self {
              entries = set self.entries home c;
              length = self.length - 1;
              used_indexes_size = used;
            },
            rw
                (
                  hash_get_entry-find_entry,
                  ◌>>=◌,
                  found,
                  index,
                  entries_home,
                  lt→ltb p (length chain) (FoundAt-lt (equal_of self) at_p),
                  present,
                )
                refl,
            replace-Models none c (self.length - 1) used h,
          )
    ]

    -- a value written in place
    pub hash_put_present :
        (value : V) {old : V}
        → find self key ≡ some old
        → (next : Hash K V) × (hash_put self key value ≡ ok next)
          × Models self (update (equal_of self) (find self) key (some value)) next
    unfolding hash_put
    hash_put_present value present =
        let (p, e, found) = find_entry_present present in
        let at_p = find_entry-FoundAt (equal_of self) chain key found in
        let index = FoundAt-index (equal_of self) home at_p (valid.placed.indexed home) in
        let c = put_value p value chain in
        let h =
          found_Holds (some value) c self.length (omega (arith, length-put_value chain p value))
            (λ q. omega (arith, count-put_value (equal_of self) chain p value q))
            (λ q. lookup-put_value (equal_of self) valid.laws q value at_p)
            (Indexed-put_value chain p home value (valid.placed.indexed home)) in
        (
          record self { entries = set self.entries home c },
          rw (hash_get_entry-find_entry, ◌>>=◌, found, index, entries_home) refl,
          replace-Models (some value) c self.length self.used_indexes_size h,
        )
