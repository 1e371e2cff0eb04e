-- ===== src/Std/Hash/Chain.antt =====
-- packages/std/hash/hash.c: one chain, its keys counted and looked up.
use inet_lisp.Base.{
  ℕ, zero, suc, ◌+◌, ◌≤◌, ◌<◌, ◌≡◌, refl, [], ◌∷◌, ◌++◌, Bool, true, false, if◌then◌else◌, Option,
  none, some, length, ap, inl, inr, Bool-cases, arith,
}
use inet_lisp.Std.Hash.{Entry, Chain, advance, find_entry, unlink, put_value}

-- What a hash asks of the equality of keys and of the number that a key is hashed to.
pub record KeyLaws {K : Type 0} (equal : K → K → Bool) (base : K → ℕ) : Type 0 where
  pub equal_refl : (a : K) → equal a a ≡ true
  pub equal_sym : (x y : K) → equal x y ≡ equal y x
  pub equal_trans : (x y z : K) → equal x y ≡ true → equal y z ≡ true → equal x z ≡ true
  pub base-equal : (a b : K) → equal a b ≡ true → base a ≡ base b

abbrev pub to_nat : Bool → ℕ
to_nat true = 1
to_nat false = 0

module _ {K : Type 0} {equal : K → K → Bool} {base : K → ℕ} (laws : KeyLaws equal base) where
  pub equal_congr : (a b c : K) → equal a b ≡ true → equal a c ≡ equal b c
  equal_congr a b c e =
      ground (arith, laws.equal_sym a b, laws.equal_trans a b c, laws.equal_trans b a c)

  pub equal_congr_right : (a b c : K) → equal b c ≡ true → equal a b ≡ equal a c
  equal_congr_right a b c e = rw (laws.equal_sym a b, laws.equal_sym a c) (equal_congr b c a e)

module _ {K V : Type 0} where
  abbrev pub value_at : Option (ℕ × Entry K V) → Option V
  value_at none = none
  value_at (some (position, e)) = some e.value

  pub value_at-eq-none : (o : Option (ℕ × Entry K V)) → value_at o ≡ none → o ≡ none
  value_at-eq-none none h = refl
  value_at-eq-none (some (p, e)) h = cc

  pub value_at-eq-some :
      (o : Option (ℕ × Entry K V)) {v : V}
      → value_at o ≡ some v
      → (p : ℕ) × (e : Entry K V) × (o ≡ some (p, e))
  value_at-eq-some none h = cc
  value_at-eq-some (some (p, e)) h = (p, e, refl)

  abbrev pub Indexed : ℕ → Chain K V → Type 0
  Indexed i [] = Unit
  Indexed i (e ∷ c) = (e.index ≡ i) × Indexed i c

  abbrev entry_or : Entry K V → Option (ℕ × Entry K V) → Entry K V
  entry_or d none = d
  entry_or d (some (p, e)) = e

  abbrev position_or : ℕ → Option (ℕ × Entry K V) → ℕ
  position_or n none = n
  position_or n (some (p, e)) = p

  advance-eq-some :
      (o : Option (ℕ × Entry K V)) {p : ℕ} {e : Entry K V}
      → advance o ≡ some (p, e)
      → (n : ℕ) × (o ≡ some (n, e)) × (suc n ≡ p)
  advance-eq-some none h = cc
  advance-eq-some (some (n, d)) {p} {e} h =
      (n, ap (λ o. some (n, entry_or d o)) h, ap (position_or 0) h)

  -- The first entry with a key that is equal to `k` is `e`, at position `p`.
  pub data FoundAt (equal : K → K → Bool) (k : K) : Chain K V → ℕ → Entry K V → Type 0 where
    here : {e : Entry K V} {c : Chain K V} → equal e.key k ≡ true → FoundAt equal k (e ∷ c) 0 e
    there :
        {d e : Entry K V} {c : Chain K V} {p : ℕ}
        → equal d.key k ≡ false
        → FoundAt equal k c p e
        → FoundAt equal k (d ∷ c) (suc p) e

module _ {K V : Type 0} (equal : K → K → Bool) where
  unfoldable pub lookup : Chain K V → K → Option V
  lookup [] q = none
  lookup (e ∷ c) q = let rest = lookup c q in if equal e.key q then some e.value else rest

  unfoldable pub count : Chain K V → K → ℕ
  count [] q = 0
  count (e ∷ c) q = to_nat (equal e.key q) + count c q

  value_at-advance : (o : Option (ℕ × Entry K V)) → value_at (advance o) ≡ value_at o
  value_at-advance none = refl
  value_at-advance (some (p, e)) = refl

  pub lookup-find_entry : (c : Chain K V) (q : K) → value_at (find_entry equal c q) ≡ lookup c q
  unfolding lookup find_entry
  lookup-find_entry [] q = refl
  lookup-find_entry (e ∷ c) q =
      ground (arith, lookup-find_entry c q, value_at-advance (find_entry equal c q))

  pub lookup-eq-none : (c : Chain K V) (q : K) → count c q ≡ 0 → lookup c q ≡ none
  unfolding lookup count
  lookup-eq-none [] q h = refl
  lookup-eq-none (e ∷ c) q h = ground (arith, lookup-eq-none c q)

  pub count-eq-zero : (c : Chain K V) (q : K) → lookup c q ≡ none → count c q ≡ 0
  unfolding lookup count
  count-eq-zero [] q h = refl
  count-eq-zero (e ∷ c) q h = ground (arith, count-eq-zero c q)

  pub lookup-append : (a b : Chain K V) (q : K) → count a q ≡ 0 → lookup (a ++ b) q ≡ lookup b q
  unfolding lookup count
  lookup-append [] b q h = refl
  lookup-append (e ∷ a) b q h = ground (arith, lookup-append a b q)

  pub lookup-append_left :
      (a b : Chain K V) (q : K) → count b q ≡ 0 → lookup (a ++ b) q ≡ lookup a q
  unfolding lookup count
  lookup-append_left [] b q h = lookup-eq-none b q h
  lookup-append_left (e ∷ a) b q h = ground (arith, lookup-append_left a b q)

  pub count-append : (a b : Chain K V) (q : K) → count (a ++ b) q ≡ count a q + count b q
  unfolding count
  count-append [] b q = omega arith
  count-append (e ∷ a) b q = omega (arith, count-append a b q)

  pub find_entry-FoundAt :
      (c : Chain K V) (k : K) {p : ℕ} {e : Entry K V}
      → find_entry equal c k ≡ some (p, e)
      → FoundAt equal k c p e
  unfolding find_entry
  find_entry-FoundAt [] k h = cc
  find_entry-FoundAt (d ∷ c) k {p} {e} h = elim (Bool-cases (equal d.key k)) [
    | inl same ↦
        let first : some (0, d) ≡ some (p, e) = rw same at h in
        rw (← ap (position_or 0) first, ← ap (λ o. entry_or d o) first) (here same)
    | inr other ↦
        let (n, found, past) = advance-eq-some (find_entry equal c k) (rw other at h) in
        rw (← past) (there other (find_entry-FoundAt c k found))
  ]

  module _ {k : K} where
    pub FoundAt-lt : {c : Chain K V} {p : ℕ} {e : Entry K V} → FoundAt equal k c p e → p < length c
    FoundAt-lt (here h) = omega arith
    FoundAt-lt (there h f) = omega (arith, FoundAt-lt f)

    pub FoundAt-same :
        {c : Chain K V} {p : ℕ} {e : Entry K V} → FoundAt equal k c p e → equal e.key k ≡ true
    FoundAt-same (here h) = h
    FoundAt-same (there h f) = FoundAt-same f

    pub FoundAt-index :
        {c : Chain K V} {p : ℕ} {e : Entry K V} (i : ℕ)
        → FoundAt equal k c p e
        → Indexed i c
        → e.index ≡ i
    FoundAt-index i (here h) x = x.0
    FoundAt-index i (there h f) x = FoundAt-index i f x.1

    pub FoundAt-lookup :
        {c : Chain K V} {p : ℕ} {e : Entry K V} → FoundAt equal k c p e → lookup c k ≡ some e.value
    unfolding lookup
    FoundAt-lookup (here h) = ground arith
    FoundAt-lookup (there h f) = ground (arith, FoundAt-lookup f)

  module _ {base : K → ℕ} (laws : KeyLaws equal base) {k : K} (q : K) where
    pub lookup_congr : (c : Chain K V) → equal k q ≡ true → lookup c k ≡ lookup c q
    unfolding lookup
    lookup_congr [] h = refl
    lookup_congr (e ∷ c) h = ground (arith, lookup_congr c, equal_congr_right laws e.key k q h)

    pub lookup-unlink :
        {c : Chain K V} {p : ℕ} {e : Entry K V}
        → FoundAt equal k c p e
        → count c q ≤ 1
        → lookup (unlink p c) q ≡ (if equal k q then none else lookup c q)
    unfolding lookup count unlink
    lookup-unlink (here {e} {c} h) few =
        ground (arith, lookup-eq-none c q, equal_congr laws e.key k q)
    lookup-unlink (there {d} {c} h f) few =
        ground (arith, lookup-unlink f, equal_congr laws d.key q k, laws.equal_sym k q)

    pub count-unlink_le :
        {c : Chain K V} {p : ℕ} {e : Entry K V}
        → FoundAt equal k c p e
        → count (unlink p c) q ≤ count c q
    unfolding count unlink
    count-unlink_le (here h) = omega arith
    count-unlink_le (there h f) = omega (arith, count-unlink_le f)

    pub lookup-put_value :
        {c : Chain K V} {p : ℕ} {e : Entry K V} (v : V)
        → FoundAt equal k c p e
        → lookup (put_value p v c) q ≡ (if equal k q then some v else lookup c q)
    unfolding lookup put_value
    lookup-put_value v (here {e} {c} h) = ground (arith, equal_congr laws e.key k q)
    lookup-put_value v (there {d} {c} h f) =
        ground (arith, lookup-put_value v f, equal_congr laws d.key q k, laws.equal_sym k q)

  pub count-put_value :
      (c : Chain K V) (p : ℕ) (v : V) (q : K) → count (put_value p v c) q ≡ count c q
  unfolding count put_value
  count-put_value [] p v q = refl
  count-put_value (e ∷ c) zero v q = refl
  count-put_value (e ∷ c) (suc p) v q = omega (arith, count-put_value c p v q)

module _ {K V : Type 0} where
  pub length-unlink : (c : Chain K V) (p : ℕ) → p < length c → length (unlink p c) + 1 ≡ length c
  unfolding unlink
  length-unlink [] p h = elim h [ ]
  length-unlink (e ∷ c) zero h = omega arith
  length-unlink (e ∷ c) (suc p) h = omega (arith, length-unlink c p (omega arith))

  pub length-put_value : (c : Chain K V) (p : ℕ) (v : V) → length (put_value p v c) ≡ length c
  unfolding put_value
  length-put_value [] p v = refl
  length-put_value (e ∷ c) zero v = refl
  length-put_value (e ∷ c) (suc p) v = omega (arith, length-put_value c p v)

  pub Indexed-unlink : (c : Chain K V) (p i : ℕ) → Indexed i c → Indexed i (unlink p c)
  unfolding unlink
  Indexed-unlink [] p i h = tt
  Indexed-unlink (e ∷ c) zero i h = h.1
  Indexed-unlink (e ∷ c) (suc p) i h = (h.0, Indexed-unlink c p i h.1)

  pub Indexed-put_value :
      (c : Chain K V) (p i : ℕ) (v : V) → Indexed i c → Indexed i (put_value p v c)
  unfolding put_value
  Indexed-put_value [] p i v h = tt
  Indexed-put_value (e ∷ c) zero i v h = h
  Indexed-put_value (e ∷ c) (suc p) i v h = (h.0, Indexed-put_value c p i v h.1)
