-- ===== src/Std/Queue/Pop.antt =====
-- packages/std/queue/queue.c, `queue_pop_front` as an operation of a bounded list.
use Prim.Native.Nat.{bit_and}
use mathlib.Core.Bool.{false≢true}
use inet_lisp.Base.{
  ℕ, suc, ◌+◌, ◌%◌, ◌^◌, ◌≤◌, ◌<◌, ◌≡◌, ◌≢◌, inl, inr, refl, sym, ap, subst, ◌∙◌, List, [], ◌∷◌,
  true, false, length, get_or, arith, Bool-cases, ==_iff,
}
use inet_lisp.Std.Queue.{Queue, cursor_mod, is_empty, get_value, pop_value, queue_pop_front}
use inet_lisp.Std.Queue.Laws.{Holds, same_cursor, size_lt, mask_lem}

lt_of_not_eq : (a b : ℕ) → a ≤ b → a ≢ b → a < b
lt_of_not_eq a b h n = ground arith

module _ {A : Type 0} (null : A) where
  abbrev see_back :
      (q : Queue A) (xs : List A)
      → Holds null q xs
      → Holds null (record q { cached_back_cursor = q.back_cursor }) xs
  see_back q xs h = record {
    k = h.k;
    d = h.d;
    bits = h.bits;
    sized = h.sized;
    masked = h.masked;
    block = h.block;
    front = h.front;
    at_front = h.at_front;
    at_back = h.at_back;
    fits = h.fits;
    seen_front = h.seen_front;
    cached_front = h.cached_front;
    front_lags = h.front_lags;
    front_near = h.front_near;
    seen_back = h.front + length xs;
    cached_back = h.at_back;
    back_after = omega arith;
    back_lags = omega arith;
    slots = h.slots;
  }

  -- The end of a pop, where an item has been seen.
  pop_value-Holds :
      (q : Queue A) (x : A) (xs : List A) (h : Holds null q (x ∷ xs))
      → h.front < h.seen_back
      → (q' : Queue A) × (pop_value null q ≡ (x, q')) × Holds null q' xs
  unfolding pop_value get_value
  pop_value-Holds q x xs h seen = (
    record q { front_cursor = (q.front_cursor + 1) % cursor_mod },
    ap (λ y. (y, record q { front_cursor = (q.front_cursor + 1) % cursor_mod }))
        (ap (λ c. get_or q.values (bit_and c q.mask) null) h.at_front
          ∙ (ap (λ i. get_or q.values i null) (mask_lem null q (x ∷ xs) h h.front)
              ∙ subst (λ c. get_or q.values (c % 2 ^ h.k) null ≡ x) (omega arith)
                  (h.slots 0 x refl))),
    record {
      k = h.k;
      d = h.d;
      bits = h.bits;
      sized = h.sized;
      masked = h.masked;
      block = h.block;
      front = h.front + 1;
      at_front = ap (λ n. (n + 1) % 2 ^ 64) h.at_front ∙ omega arith;
      at_back = h.at_back ∙ ap (λ n. n % 2 ^ 64) (omega arith);
      fits = omega (arith, h.fits);
      seen_front = h.seen_front;
      cached_front = h.cached_front;
      front_lags = omega (arith, h.front_lags);
      front_near = omega (arith, h.front_near);
      seen_back = h.seen_back;
      cached_back = h.cached_back;
      back_after = omega arith;
      back_lags = omega (arith, h.back_lags);
      slots = λ i y e.
          subst (λ c. get_or q.values (c % 2 ^ h.k) null ≡ y) (omega arith) (h.slots (suc i) y e);
    },
  )

  -- what a pop answers and leaves
  abbrev pub Popped : Queue A → List A → Type 0
  Popped q [] = (q' : Queue A) × (queue_pop_front null q ≡ (null, q')) × Holds null q' []
  Popped q (x ∷ xs) = (q' : Queue A) × (queue_pop_front null q ≡ (x, q')) × Holds null q' xs

  pop-empty :
      (q : Queue A)
      → is_empty q q.front_cursor q.cached_back_cursor ≡ true
      → is_empty q q.front_cursor q.back_cursor ≡ true
      → queue_pop_front null q ≡ (null, record q { cached_back_cursor = q.back_cursor })
  unfolding queue_pop_front is_empty
  pop-empty q e r = rw (e, r) refl

  pop-refreshed :
      (q : Queue A)
      → is_empty q q.front_cursor q.cached_back_cursor ≡ true
      → is_empty q q.front_cursor q.back_cursor ≡ false
      → queue_pop_front null q ≡ pop_value null (record q { cached_back_cursor = q.back_cursor })
  unfolding queue_pop_front is_empty
  pop-refreshed q e r = rw (e, r) refl

  pop-seen :
      (q : Queue A)
      → is_empty q q.front_cursor q.cached_back_cursor ≡ false
      → queue_pop_front null q ≡ pop_value null q
  unfolding queue_pop_front
  pop-seen q e = rw e refl

  -- What the test says of the counts.
  seen_none :
      (q : Queue A) (xs : List A) (h : Holds null q xs)
      → is_empty q q.front_cursor q.cached_back_cursor ≡ true
      → h.seen_back ≡ h.front
  unfolding is_empty
  seen_none q xs h e =
      same_cursor h.seen_back h.front h.back_after
        (omega (arith, h.back_lags, h.fits, size_lt null q xs h))
        (sym h.cached_back ∙ ((==_iff q.cached_back_cursor q.front_cursor).0 e ∙ h.at_front))

  seen_some :
      (q : Queue A) (xs : List A) (h : Holds null q xs)
      → is_empty q q.front_cursor q.cached_back_cursor ≡ false
      → h.front < h.seen_back
  unfolding is_empty
  seen_some q xs h e = lt_of_not_eq h.front h.seen_back h.back_after λ same. false≢true (
      sym e
      ∙ (==_iff q.cached_back_cursor q.front_cursor).1
          (h.cached_back ∙ (ap (λ n. n % 2 ^ 64) (sym same) ∙ sym h.at_front)))

  pop_some :
      (q q₁ : Queue A) (xs : List A) (h : Holds null q₁ xs)
      → queue_pop_front null q ≡ pop_value null q₁
      → h.front < h.seen_back
      → Popped q xs
  pop_some q q₁ [] h e seen = absurd (omega (arith, seen, h.back_lags))
  pop_some q q₁ (x ∷ xs) h e seen =
      let (q', p, w) = pop_value-Holds q₁ x xs h seen in (q', e ∙ p, w)

  pop_none :
      (q q₁ : Queue A) (xs : List A) (h : Holds null q₁ xs)
      → queue_pop_front null q ≡ (null, q₁)
      → h.front + length xs ≡ h.front
      → Popped q xs
  pop_none q q₁ [] h e none_left = (q₁, e, h)
  pop_none q q₁ (x ∷ xs) h e none_left = absurd (omega (arith, none_left))

  -- A pop takes the first item, and leaves the others in order; on an empty queue it answers NULL.
  -- Neither how far the cached cursor lags nor the wrap-around of the cursors makes a difference.
  pub queue_pop_front_lem : (q : Queue A) (xs : List A) → Holds null q xs → Popped q xs
  unfolding is_empty
  queue_pop_front_lem q xs h = elim (Bool-cases (is_empty q q.front_cursor q.cached_back_cursor)) [
    | inl old ↦
        let h' = see_back q xs h in
        let q' : Queue A = record q { cached_back_cursor = q.back_cursor } in
        elim (Bool-cases (is_empty q q.front_cursor q.back_cursor)) [
          | inl now ↦ pop_none q q' xs h' (pop-empty q old now) (seen_none q' xs h' now)
          | inr now ↦ pop_some q q' xs h' (pop-refreshed q old now) (seen_some q' xs h' now)
        ]
    | inr some_seen ↦ pop_some q q xs h (pop-seen q some_seen) (seen_some q xs h some_seen)
  ]
