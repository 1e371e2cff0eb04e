-- ===== src/Std/Array/Laws.antt =====
-- What the operations of packages/std/array do to the sequence of slots.
use Prim.Native.Nat.{max}
use inet_lisp.Base.{
  Bool-cases, inl, inr, ◌∙◌, ℕ, zero, suc, ◌+◌, ◌-◌, ◌≤◌, ◌<◌, ◌≡◌, refl, List, [], ◌∷◌, ◌++◌, Bool,
  true, false, leb, ◌==◌, if◌then◌else◌, length, get_or, set, replicate, ok, arith, length-append,
  length-set, length-replicate,
}
use inet_lisp.Std.Array.{
  Array, array_new, array_get, array_set, array_push, array_pop, array_resize,
}

-- The block has `size` slots, the length is within it, and growing makes room.
pub record IsValid {ℓ} {A : Type ℓ} (a : Array A) : Type 0 where
  pub sized : length a.values ≡ a.size
  pub within : a.cursor ≤ a.size
  pub grows : 0 < a.grow_step

module _ {A : Type 0} where
  pub get_or-set :
      (xs : List A) (i j : ℕ) (v d : A)
      → i < length xs
      → get_or (set xs i v) j d ≡ (if i == j then v else get_or xs j d)
  get_or-set [] i j v d h = elim h [ ]
  get_or-set (x ∷ xs) zero zero v d h = refl
  get_or-set (x ∷ xs) zero (suc j) v d h = ground arith
  get_or-set (x ∷ xs) (suc i) zero v d h = ground arith
  get_or-set (x ∷ xs) (suc i) (suc j) v d h = ground (arith, get_or-set xs i j v d)

  pub get_or-replicate : (n j : ℕ) (d : A) → get_or (replicate n d) j d ≡ d
  get_or-replicate zero j d = refl
  get_or-replicate (suc n) zero d = refl
  get_or-replicate (suc n) (suc j) d = get_or-replicate n j d

  get_or-grow : (xs : List A) (n j : ℕ) (d : A) → get_or (xs ++ replicate n d) j d ≡ get_or xs j d
  get_or-grow [] n j d = get_or-replicate n j d
  get_or-grow (x ∷ xs) n zero d = refl
  get_or-grow (x ∷ xs) n (suc j) d = get_or-grow xs n j d

  get_or-past : (xs : List A) (j : ℕ) (d : A) → length xs ≤ j → get_or xs j d ≡ d
  get_or-past [] j d h = refl
  get_or-past (x ∷ xs) zero d h = elim h [ ]
  get_or-past (x ∷ xs) (suc j) d h = get_or-past xs j d (omega arith)

module _ {A : Type 0} (null : A) where
  -- A new array of at least one slot is valid.
  pub array_new-IsValid : (n : ℕ) → 0 < n → IsValid (array_new null n)
  unfolding array_new
  array_new-IsValid n h = record {
    sized = length-replicate n null;
    within = omega arith;
    grows = h;
  }

  -- On a valid array a read is a read of the block, with null past its end.
  pub array_get_lem :
      (a : Array A) (j : ℕ) → IsValid a → array_get null a j ≡ get_or a.values j null
  unfolding array_get
  array_get_lem a j v = ground (arith, get_or-past a.values j null, v.sized)

  -- Growing keeps every slot, and makes the block as long as it says.
  array_resize_lem :
      (a : Array A) (n : ℕ)
      → IsValid a
      → a.size ≤ n
      → (b : Array A) × (array_resize null a n ≡ ok b)
        × IsValid b
        × (b.size ≡ n)
        × (b.cursor ≡ a.cursor)
        × ((j : ℕ) → get_or b.values j null ≡ get_or a.values j null)
  unfolding array_resize
  array_resize_lem a n v h = elim (Bool-cases (n == a.size)) [
    | inl same ↦ (a, ground arith, v, ground arith, refl, λ j. refl)
    | inr more ↦ (
      record a { size = n; values = a.values ++ replicate (n - a.size) null },
      ground arith,
      record {
        sized = omega (
          arith,
          length-append a.values (replicate (n - a.size) null),
          length-replicate (n - a.size) null,
          v.sized,
        );
        within = omega (arith, v.within);
        grows = v.grows;
      },
      refl,
      refl,
      λ j. get_or-grow a.values (n - a.size) j null,
    )
  ]

  -- The write that follows the growing, at an index inside the block.
  array_write_lem :
      (a : Array A) (index cursor : ℕ) (value : A)
      → IsValid a
      → index < a.size
      → cursor ≤ a.size
      → let b = record a { cursor = cursor; values = set a.values index value } in
        IsValid b
        × ((j : ℕ)
            → get_or b.values j null ≡ (if index == j then value else get_or a.values j null))
  array_write_lem a index cursor value v h k = (
    record { sized = length-set a.values index value ∙ v.sized; within = k; grows = v.grows },
    λ j. get_or-set a.values index j value null (omega (arith, v.sized)),
  )

  -- `array_set` and `array_push` grow the block when an index is past its end.
  array_room_lem :
      (a : Array A) (full : Bool) (index n : ℕ)
      → IsValid a
      → (full ≡ false → index < a.size)
      → index < n
      → (full ≡ true → a.size ≤ n)
      → (g : Array A) × ((if full then array_resize null a n else ok a) ≡ ok g)
        × IsValid g
        × (index < g.size)
        × (g.cursor ≡ a.cursor)
        × ((j : ℕ) → get_or g.values j null ≡ get_or a.values j null)
  array_room_lem a true index n v h k l =
      let (g, e, w, s, c, r) = array_resize_lem a n v (l refl) in (g, e, w, omega arith, c, r)
  array_room_lem a false index n v h k l = (a, refl, v, h refl, refl, λ j. refl)

  -- The state that a write leaves, seen through `array_get`.
  array_get_written :
      (a g b : Array A) (index : ℕ) (value : A)
      → IsValid a
      → IsValid b
      → ((j : ℕ) → get_or g.values j null ≡ get_or a.values j null)
      → ((j : ℕ) → get_or b.values j null ≡ (if index == j then value else get_or g.values j null))
      → (j : ℕ) → array_get null b j ≡ (if index == j then value else array_get null a j)
  array_get_written a g b index value v w h k j =
      ground (arith, array_get_lem a j v, array_get_lem b j w, h j, k j)

  -- A read after a write finds the written value at its index and the old slots elsewhere, at any
  -- index: the array grows as needed. The length covers the index.
  pub array_set_lem :
      (a : Array A) (index : ℕ) (value : A)
      → IsValid a
      → (b : Array A) × (array_set null a index value ≡ ok b)
        × IsValid b
        × (b.cursor ≡ max a.cursor (index + 1))
        × ((j : ℕ) → array_get null b j ≡ (if index == j then value else array_get null a j))
  unfolding array_set
  array_set_lem a index value v =
      let (g, e, w, s, c, r) =
        array_room_lem a (leb a.size index) index (index + a.grow_step) v (λ p. ground arith)
          (omega (arith, v.grows)) (λ p. ground arith) in
      let cursor = if leb g.cursor index then index + 1 else g.cursor in
      let (bv, br) = array_write_lem g index cursor value w s (ground (arith, w.within)) in
      (
        record g { cursor = cursor; values = set g.values index value },
        rw e refl,
        bv,
        ground arith,
        array_get_written a g _ index value v bv r br,
      )

  -- A push writes at the length and advances it.
  pub array_push_lem :
      (a : Array A) (value : A)
      → IsValid a
      → (b : Array A) × (array_push null a value ≡ ok b)
        × IsValid b
        × (b.cursor ≡ a.cursor + 1)
        × ((j : ℕ)
            → get_or b.values j null ≡ (if a.cursor == j then value else get_or a.values j null))
  unfolding array_push
  array_push_lem a value v =
      let (g, e, w, s, c, r) =
        array_room_lem a (a.cursor == a.size) a.cursor (a.size + a.grow_step) v
          (λ p. ground (arith, v.within)) (omega (arith, v.grows, v.within)) (λ p. omega arith) in
      let (bv, br) =
        array_write_lem g g.cursor (g.cursor + 1) value w (omega arith) (omega arith) in
      (
        record g { cursor = g.cursor + 1; values = set g.values g.cursor value },
        rw e refl,
        bv,
        omega arith,
        λ j. ground (arith, r j, br j),
      )

  -- A pop returns the last value and clears its slot; on an empty array the assertion fails.
  pub array_pop_lem :
      (a : Array A)
      → IsValid a
      → 0 < a.cursor
      → (b : Array A) × (array_pop null a ≡ ok (get_or a.values (a.cursor - 1) null, b))
        × IsValid b
        × (b.cursor ≡ a.cursor - 1)
        × ((j : ℕ)
            → get_or b.values j null ≡ (if a.cursor - 1 == j then null else get_or a.values j null))
  unfolding array_pop
  array_pop_lem a v h =
      let (bv, br) =
        array_write_lem a (a.cursor - 1) (a.cursor - 1) null v (omega (arith, v.within))
          (omega (arith, v.within)) in
      (
        record a { cursor = a.cursor - 1; values = set a.values (a.cursor - 1) null },
        ground arith,
        bv,
        refl,
        br,
      )
