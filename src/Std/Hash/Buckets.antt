-- ===== src/Std/Hash/Buckets.antt =====
-- packages/std/hash/hash.c: the places of keys in the chains, and a change of one chain.
use mathlib.Core.List.{flatten}
use Prim.Native.Nat.{max}
use inet_lisp.Base.{
  ℕ, zero, suc, ◌+◌, ◌%◌, ◌≤◌, ◌<◌, ◌≡◌, ◌≢◌, refl, List, [], ◌∷◌, Bool, true, if◌then◌else◌,
  Option, none, some, length, get_elem?, get_or, set, replicate, arith, length-append, length-set,
  length-replicate, ◌==◌, ℕ_discrete, subst,
}
use inet_lisp.Std.Array.Laws.{get_or-set, get_or-replicate}
use inet_lisp.Std.Hash.Chain.{
  KeyLaws, to_nat, Indexed, lookup, count, count-eq-zero, lookup-append, lookup-append_left,
  count-append, lookup_congr,
}
use inet_lisp.Std.Hash.{Entry, Chain}

module _ {A : Type 0} where
  pub get_elem?-get_or :
      (xs : List A) (i : ℕ) (d : A) → i < length xs → get_elem? xs i ≡ some (get_or xs i d)
  get_elem?-get_or [] i d h = elim h [ ]
  get_elem?-get_or (x ∷ xs) zero d h = refl
  get_elem?-get_or (x ∷ xs) (suc i) d h = get_elem?-get_or xs i d (omega arith)

  -- One chain replaced: what the other chains hold is the same.
  pub entries-set :
      (table : List (List A)) (index : ℕ) (chain : List A)
      → index < length table
      → length chain + length (flatten table)
        ≡ length (get_or table index []) + length (flatten (set table index chain))
  unfolding flatten
  entries-set [] index chain inside = elim inside [ ]
  entries-set (first ∷ table) zero chain inside =
      omega (arith, length-append first (flatten table), length-append chain (flatten table))
  entries-set (first ∷ table) (suc index) chain inside =
      let rest = entries-set table index chain (omega arith) in
      omega (
        arith,
        rest,
        length-append first (flatten table),
        length-append first (flatten (set table index chain)),
      )

  pub flatten-replicate : (n : ℕ) → flatten {A = A} (replicate n []) ≡ []
  unfolding flatten
  flatten-replicate zero = refl
  flatten-replicate (suc n) = flatten-replicate n

module _ {K V : Type 0} where
  abbrev pub update : (K → K → Bool) → (K → Option V) → K → Option V → K → Option V
  update equal f k v q = if equal k q then v else f q

-- `bs` are the chains of a table whose keys are compared by `equal` and hashed to `base`.
module _ {K V : Type 0} (equal : K → K → Bool) (base : K → ℕ) where
  abbrev pub chain_of : List (Chain K V) → K → Chain K V
  chain_of bs k = get_or bs (base k % length bs) []

  unfoldable pub view : List (Chain K V) → K → Option V
  view bs q = lookup equal (chain_of bs q) q

  -- A key stands at most once, in its own chain alone, and each entry has the index of its chain.
  pub record Placed (bs : List (Chain K V)) : Type 0 where
    pub once : (q : K) (i : ℕ) → count equal (get_or bs i []) q ≤ 1
    pub home : (q : K) (i : ℕ) → base q % length bs ≢ i → count equal (get_or bs i []) q ≡ 0
    pub indexed : (i : ℕ) → Indexed i (get_or bs i [])

  -- `bs` has `n` chains and `total` entries, all in place, and reads as `f`.
  pub record Holds (n total : ℕ) (f : K → Option V) (bs : List (Chain K V)) : Type 0 where
    pub width : length bs ≡ n
    pub entries : length (flatten bs) ≡ total
    pub placed : Placed bs
    pub reads : (q : K) → view bs q ≡ f q

  count-flatten_absent :
      (key : K) (table : List (Chain K V))
      → ((j : ℕ) → count equal (get_or table j []) key ≡ 0)
      → count equal (flatten table) key ≡ 0
  unfolding flatten count
  count-flatten_absent key [] absent = refl
  count-flatten_absent key (first ∷ table) absent =
      let later = count-flatten_absent key table (λ j. absent (suc j)) in
      rw count-append (omega (arith, absent 0))

  -- A key that stands in one chain alone is looked up along all the entries as in that chain.
  flatten_one_chain :
      (place : ℕ) (key : K) (table : List (Chain K V))
      → ((j : ℕ) → place ≢ j → count equal (get_or table j []) key ≡ 0)
      → (count equal (get_or table place []) key ≡ count equal (flatten table) key)
        × (lookup equal (flatten table) key ≡ lookup equal (get_or table place []) key)
  unfolding flatten
  flatten_one_chain place key [] elsewhere = (refl, refl)
  flatten_one_chain zero key (first ∷ table) elsewhere =
      let later = count-flatten_absent key table (λ j. elsewhere (suc j) (λ e. omega arith)) in
      (rw count-append (omega arith), lookup-append_left equal first (flatten table) key later)
  flatten_one_chain (suc place) key (first ∷ table) elsewhere =
      let missed = elsewhere 0 (λ e. omega arith) in
      let (counted, found) =
        flatten_one_chain place key table
          (λ j other. elsewhere (suc j) (λ e. other (omega arith))) in
      (
        rw count-append (omega arith),
        rw (lookup-append equal first (flatten table) key missed) found,
      )

  pub flatten-view :
      (bs : List (Chain K V)) (q : K)
      → Placed bs
      → (lookup equal (flatten bs) q ≡ view bs q) × (count equal (flatten bs) q ≤ 1)
  unfolding view
  flatten-view bs q placed =
      let (counted, found) = flatten_one_chain (base q % length bs) q bs (placed.home q) in
      (found, rw (← counted) (placed.once q (base q % length bs)))

  pub replicate-Holds : (n : ℕ) → Holds n 0 (λ _. none) (replicate n [])
  unfolding view lookup count
  replicate-Holds n = record {
    width = length-replicate n [];
    entries = rw flatten-replicate refl;
    placed = record {
      once = λ q i. rw get_or-replicate (omega arith);
      home = λ q i ne. rw get_or-replicate refl;
      indexed = λ i. rw get_or-replicate tt;
    };
    reads = λ q. rw get_or-replicate refl;
  }

  Indexed-if :
      (i j : ℕ) (c d : Chain K V) → Indexed i c → Indexed j d → Indexed j (if i == j then c else d)
  Indexed-if i j c d h k = elim (ℕ_discrete i j) [
    | yes e ↦
        let taken : c ≡ (if i == j then c else d) = ground arith in
        subst (λ x. Indexed j x) taken (subst (λ x. Indexed x c) e h)
    | no n ↦
        let passed : d ≡ (if i == j then c else d) = ground arith in
        subst (λ x. Indexed j x) passed k
  ]

  module _ (laws : KeyLaws equal base) (bs : List (Chain K V)) (pos : 0 < length bs)
      (placed : Placed bs) (k : K) where
    home-lt : base k % length bs < length bs
    home-lt = omega arith

    home_congr : (q : K) → equal k q ≡ true → base k % length bs ≡ base q % length bs
    home_congr q h = rw (laws.base-equal k q h) refl

    -- All writes replace the chain of one key.
    pub set-Holds :
        (c : Chain K V) (v : Option V) (total : ℕ)
        → length c + length (flatten bs) ≡ length (chain_of bs k) + total
        → ((q : K) → count equal c q ≤ max (to_nat (equal k q)) (count equal (chain_of bs k) q))
        → ((q : K) → lookup equal c q ≡ (if equal k q then v else lookup equal (chain_of bs k) q))
        → Indexed (base k % length bs) c
        → Holds (length bs) total (update equal (view bs) k v) (set bs (base k % length bs) c)
    unfolding view
    set-Holds c v total size few reads indexed = record {
      width = length-set bs _ c;
      entries = omega (arith, entries-set bs (base k % length bs) c home-lt);
      placed = record {
        once =
            λ q j. rw (get_or-set, home-lt) (ground (arith, placed.once q j, placed.once q, few q));
        home = λ q j ne.
            let home : base q % length bs ≢ j = rw length-set at ne in
            rw (get_or-set, home-lt) (ground (arith, few q, home_congr q, placed.home q j home));
        indexed = λ j. rw (get_or-set, home-lt) (Indexed-if _ j c _ indexed (placed.indexed j));
      };
      reads = λ q. rw (length-set, get_or-set, home-lt) (ground (arith, reads q, home_congr q));
    }

    pub push-Holds :
        (e : Entry K V)
        → e.index ≡ base k % length bs
        → e.key ≡ k
        → view bs k ≡ none
        → Holds
            (length bs)
            (length (flatten bs) + 1)
            (update equal (view bs) k (some e.value))
            (set bs (base k % length bs) (e ∷ chain_of bs k))
    unfolding view count lookup
    push-Holds e at_home same absent =
        let old = chain_of bs k in
        set-Holds (e ∷ chain_of bs k) (some e.value) (length (flatten bs) + 1) (omega arith)
          (λ q.
            rw same
              (ground (arith, count-eq-zero equal old q, lookup_congr equal laws {k = k} q old)))
          (λ q. rw same refl) (at_home, placed.indexed _)
