-- ===== src/Std/Hash/Rehash.antt =====
-- packages/std/hash/hash.c: `hash_rehash`, which moves every entry to a larger table.
use mathlib.Core.List.{flatten}
use inet_lisp.Base.{
  ℕ, zero, suc, ◌+◌, ◌*◌, ◌%◌, ◌≤◌, ◌<◌, ◌≡◌, refl, sym, ap, ◌∙◌, List, [], ◌∷◌, ◌++◌, Bool, true,
  false, ltb, if◌then◌else◌, Option, none, some, length, get_elem?, get_or, set, replicate, arith,
  Result, ok, err, ◌>>=◌, lt_of_get_elem?, lt→ltb,
}
use inet_lisp.Std.Hash.Chain.{KeyLaws, lookup, count}
use inet_lisp.Std.Hash.Buckets.{
  get_elem?-get_or, chain_of, view, Placed, Holds, flatten-view, replicate-Holds, push-Holds,
}
use inet_lisp.Std.Hash.{
  Pointer, Entry, Chain, Hash, hash_primes, hash_base, key_equal, is_nil, hash_key_index,
  rehash_chain, rehash_chains, hash_rehash,
}

abbrev all_positive : List ℕ → Bool
all_positive [] = true
all_positive (n ∷ ns) = let rest = all_positive ns in if ltb 0 n then rest else false

positive_of_all :
    (ns : List ℕ) (i : ℕ) {n : ℕ} → all_positive ns ≡ true → get_elem? ns i ≡ some n → 0 < n
positive_of_all [] i h e = cc
positive_of_all (m ∷ ns) zero h e = ground arith
positive_of_all (m ∷ ns) (suc i) h e = positive_of_all ns i (ground arith) e

-- No size of a table is zero.
pub hash_primes_positive : (i : ℕ) {n : ℕ} → get_elem? hash_primes i ≡ some n → 0 < n
hash_primes_positive i e = positive_of_all hash_primes i refl e

in_bytes :
    (i : ℕ) {n : ℕ} → get_elem? hash_primes i ≡ some n → ltb i (8 * length hash_primes) ≡ true
in_bytes i e = lt→ltb i _ (omega (arith, lt_of_get_elem? hash_primes i e))

module _ {A B C : Type 0} where
  >>=_assoc :
      (m : Result A) (f : A → Result B) (g : B → Result C)
      → (m >>= f) >>= g ≡ m >>= (λ a. f a >>= g)
  >>=_assoc (ok a) f g = refl
  >>=_assoc (err e) f g = refl

module _ {A B : Type 0} where
  >>=_congr : (m : Result A) {f g : A → Result B} → ((a : A) → f a ≡ g a) → m >>= f ≡ m >>= g
  >>=_congr (ok a) h = h a
  >>=_congr (err e) h = refl

module _ {A : Type 0} where
  abbrev pub or_else : Option A → Option A → Option A
  or_else none p = p
  or_else (some a) p = some a

  pub or_else-none : (o : Option A) → o ≡ or_else o none
  or_else-none none = refl
  or_else-none (some a) = refl

module _ {K V : Type 0} where
  -- the chains that are not empty
  unfoldable pub occupied : List (Chain K V) → ℕ
  occupied [] = 0
  occupied (c ∷ bs) = (if is_nil c then 0 else 1) + occupied bs

  occupied-set :
      (bs : List (Chain K V)) (i : ℕ) (e : Entry K V) (c : Chain K V)
      → i < length bs
      → occupied bs + (if is_nil (get_or bs i []) then 1 else 0) ≡ occupied (set bs i (e ∷ c))
  unfolding occupied
  occupied-set [] i e c h = elim h [ ]
  occupied-set (b ∷ bs) zero e c h = ground arith
  occupied-set (b ∷ bs) (suc i) e c h = omega (arith, occupied-set bs i e c (omega arith))

module _ (K V : Type 0) where
  occupied-replicate : (n : ℕ) → occupied {K = K} {V = V} (replicate n []) ≡ 0
  unfolding occupied
  occupied-replicate zero = refl
  occupied-replicate (suc n) = omega (arith, occupied-replicate n)

module _ {K V : Type 0} ⦃pointer : Pointer K⦄ where
  abbrev pub Laws : Hash K V → Type 0
  Laws self = KeyLaws (key_equal self.key_equal_fn) (hash_base self.hash_fn)

  abbrev pub used : ℕ → Hash K V → Hash K V
  used n self = record self { used_indexes_size = n }

  -- The entries `es` moved to the chains `fresh`, which keep what they have.
  pub record Moved (self : Hash K V) (es : Chain K V) (fresh : List (Chain K V)) : Type 0 where
    pub n : ℕ
    pub chains : List (Chain K V)
    pub runs : rehash_chain es self fresh ≡ ok (used n self, chains)
    pub holds :
        Holds
          (key_equal self.key_equal_fn)
          (hash_base self.hash_fn)
          (length fresh)
          (length (flatten fresh) + length es)
          (λ q.
            let equal = key_equal self.key_equal_fn in
            or_else (view equal (hash_base self.hash_fn) fresh q) (lookup equal es q))
          chains
    pub counts : self.used_indexes_size ≡ occupied fresh → n ≡ occupied chains

  rehash_chain_lem :
      (es : Chain K V) (self : Hash K V) (fresh : List (Chain K V))
      → Laws self
      → get_elem? hash_primes self.prime_index ≡ some (length fresh)
      → Placed (key_equal self.key_equal_fn) (hash_base self.hash_fn) fresh
      → ((q : K) → count (key_equal self.key_equal_fn) es q ≤ 1)
      → ((q : K)
          → 0 < count (key_equal self.key_equal_fn) es q
          → view (key_equal self.key_equal_fn) (hash_base self.hash_fn) fresh q ≡ none)
      → Moved self es fresh
  unfolding rehash_chain hash_key_index count lookup
  rehash_chain_lem [] self fresh laws sized placed once apart = record {
    n = self.used_indexes_size;
    chains = fresh;
    runs = refl;
    holds = record {
      width = refl;
      entries = omega arith;
      placed = placed;
      reads = λ q. or_else-none _;
    };
    counts = λ h. h;
  }
  rehash_chain_lem (e ∷ es) self fresh laws sized placed once apart =
      let pos = hash_primes_positive self.prime_index sized in
      let equal = key_equal self.key_equal_fn in
      let base = hash_base self.hash_fn in
      let home = base e.key % length fresh in
      let top = chain_of equal base fresh e.key in
      let moved : Entry K V = record e { index = home } in
      let step =
        push-Holds equal base laws fresh pos placed e.key moved refl refl
          (apart e.key (rw laws.equal_refl (omega arith))) in
      let t =
        rehash_chain_lem es (used (self.used_indexes_size + (if is_nil top then 1 else 0)) self)
          (set fresh home (moved ∷ top)) laws (sized ∙ ap some (sym step.width)) step.placed
          (λ q. omega (arith, once q)) (λ q h. ground (arith, step.reads q, once q, apart q)) in
      record {
        n = t.n;
        chains = t.chains;
        runs = rw (sized, ◌>>=◌, get_elem?-get_or fresh home [] (omega arith)) t.runs;
        holds = record {
          width = t.holds.width ∙ step.width;
          entries = omega (arith, t.holds.entries, step.entries);
          placed = t.holds.placed;
          reads = λ q. ground (arith, t.holds.reads q, step.reads q, apart q);
        };
        counts = λ h. t.counts (rw h (occupied-set fresh home moved top (omega arith)));
      }

  rehash_chain-append :
      (a b : Chain K V) (self : Hash K V) (fresh : List (Chain K V))
      → rehash_chain (a ++ b) self fresh
        ≡ rehash_chain a self fresh >>= (λ r. rehash_chain b r.0 r.1)
  unfolding rehash_chain
  rehash_chain-append [] b self fresh = refl
  rehash_chain-append (e ∷ a) b self fresh = simp (>>=_assoc, rehash_chain-append a b)

  -- The two nested loops are one loop over all the entries.
  rehash_chains-flatten :
      (bs : List (Chain K V)) (self : Hash K V) (fresh : List (Chain K V))
      → rehash_chains bs self fresh ≡ rehash_chain (flatten bs) self fresh
  unfolding rehash_chains rehash_chain flatten
  rehash_chains-flatten [] self fresh = refl
  rehash_chains-flatten (c ∷ bs) self fresh =
      rw (rehash_chain-append c (flatten bs) self fresh)
        (>>=_congr (rehash_chain c self fresh) (λ r. rehash_chains-flatten bs r.0 r.1))

  -- The number of entries is their number, and keys are where they are looked up.
  pub record IsValid (self : Hash K V) : Type 0 where
    pub laws : Laws self
    pub sized : get_elem? hash_primes self.prime_index ≡ some (length self.entries)
    pub placed : Placed (key_equal self.key_equal_fn) (hash_base self.hash_fn) self.entries
    pub counted : length (flatten self.entries) ≡ self.length

  unfoldable pub find : Hash K V → K → Option V
  find self q = view (key_equal self.key_equal_fn) (hash_base self.hash_fn) self.entries q

  -- A valid hash of the size of index `i`, with the entries of `self` and its occupied chains counted.
  pub record Rehashed (self : Hash K V) (i : ℕ) (next : Hash K V) : Type 0 where
    pub valid : IsValid next
    pub index : next.prime_index ≡ i
    pub same_length : next.length ≡ self.length
    pub same_hash_fn : next.hash_fn ≡ self.hash_fn
    pub same_key_equal_fn : next.key_equal_fn ≡ self.key_equal_fn
    pub finds : (q : K) → find next q ≡ find self q
    pub counts : next.used_indexes_size ≡ occupied next.entries

  -- `hash_rehash` of a valid hash to any size of the table of primes does not fail. It leaves a valid
  -- hash of that size in which every key is found as before; the number of entries and the functions
  -- on keys are kept, and `used_indexes_size` is the number of the chains that are not empty.
  pub hash_rehash-Rehashed :
      (self : Hash K V) (i limit : ℕ)
      → IsValid self
      → get_elem? hash_primes i ≡ some limit
      → (next : Hash K V) × (hash_rehash self i ≡ ok next) × Rehashed self i next
  unfolding hash_rehash find
  hash_rehash-Rehashed self i limit valid sized =
      let equal = key_equal self.key_equal_fn in
      let base = hash_base self.hash_fn in
      let start = replicate-Holds equal base limit in
      let t =
        rehash_chain_lem (flatten self.entries)
          (record self { prime_index = i; used_indexes_size = 0 }) (replicate limit []) valid.laws
          (sized ∙ ap some (sym start.width)) start.placed
          (λ q. (flatten-view equal base self.entries q valid.placed).1) (λ q _. start.reads q) in
      (
        record self { prime_index = i; used_indexes_size = t.n; entries = t.chains },
        rw (in_bytes i sized, ◌>>=◌, sized, rehash_chains-flatten, t.runs) refl,
        record {
          valid = record {
            laws = valid.laws;
            sized = sized ∙ ap some (sym (t.holds.width ∙ start.width));
            placed = t.holds.placed;
            counted = omega (arith, t.holds.entries, start.entries, valid.counted);
          };
          index = refl;
          same_length = refl;
          same_hash_fn = refl;
          same_key_equal_fn = refl;
          finds = λ q.
              rw (t.holds.reads q, start.reads q)
                (flatten-view equal base self.entries q valid.placed).0;
          counts = t.counts (sym (occupied-replicate K V limit));
        },
      )
