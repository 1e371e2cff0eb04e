-- ===== src/Std/Queue/Laws.antt =====
-- packages/std/queue/queue.c against a bounded list, front first.
use Prim.Native.Nat.{bit_and}
use native.Mathlib.Nat.{pow-le-pow_right, mod-lt, one-le-pow, div-add-mod}
use inet_lisp.Base.{
  ℕ, suc, ◌+◌, ◌-◌, ◌%◌, ◌^◌, ◌≤◌, ◌<◌, ◌≡◌, ◌≢◌, sym, ap, ◌∙◌, List, [], ◌∷◌, ◌++◌, ◌==◌,
  if◌then◌else◌, Option, none, some, length, get_elem?, get_or, set, arith, length-append,
  length-set, get_elem?-append_left, get_elem?-append_end, lt_of_get_elem?, dec_lt,
}
use inet_lisp.Std.Array.Laws.{get_or-set}
use inet_lisp.Std.Queue.{Queue, distance, is_full, set_value, push_value}
use inet_lisp.Std.Queue.Mask.{bit_and-wrapped}

-- The queue holds the items of a list. `front` counts the items ever taken, without wrap-around;
-- `seen_front` and `seen_back` are what the cached cursors stand for, and may lag behind.
pub record Holds {A : Type 0} (null : A) (q : Queue A) (xs : List A) : Type 0 where
  pub k : ℕ
  pub d : ℕ
  pub bits : k + suc d ≡ 64
  pub sized : q.size ≡ 2 ^ k
  pub masked : q.mask ≡ 2 ^ k - 1
  pub block : length q.values ≡ 2 ^ k
  pub front : ℕ
  pub at_front : q.front_cursor ≡ front % 2 ^ 64
  pub at_back : q.back_cursor ≡ (front + length xs) % 2 ^ 64
  pub fits : length xs ≤ 2 ^ k
  pub seen_front : ℕ
  pub cached_front : q.cached_front_cursor ≡ seen_front % 2 ^ 64
  pub front_lags : seen_front ≤ front
  pub front_near : front + length xs ≤ seen_front + 2 ^ k
  pub seen_back : ℕ
  pub cached_back : q.cached_back_cursor ≡ seen_back % 2 ^ 64
  pub back_after : front ≤ seen_back
  pub back_lags : seen_back ≤ front + length xs
  pub slots :
      (i : ℕ) (x : A) → get_elem? xs i ≡ some x → get_or q.values ((front + i) % 2 ^ k) null ≡ x

pub distance_lem : (a b : ℕ) → b ≤ a → a < b + 2 ^ 64 → distance (a % 2 ^ 64) (b % 2 ^ 64) ≡ a - b
distance_lem a b h k = omega arith

pub same_cursor : (a b : ℕ) → b ≤ a → a < b + 2 ^ 64 → a % 2 ^ 64 ≡ b % 2 ^ 64 → a ≡ b
same_cursor a b h k e = omega arith

-- Two counts less than a size apart have different remainders.
apart : (a b m : ℕ) → a < b → b < a + m → a % m ≢ b % m
apart a b m h k e = grind (arith, div-add-mod a m, div-add-mod b m)

module _ {A : Type 0} where
  if_other : (y z : A) (a b : ℕ) → a ≢ b → (if a == b then y else z) ≡ z
  if_other y z a b r = ground arith

  if_same : (y z : A) (a b : ℕ) → a ≡ b → (if a == b then y else z) ≡ y
  if_same y z a b r = ground arith

  or_default : A → Option A → A
  or_default d none = d
  or_default d (some y) = y

  some_injective : (y z : A) → some y ≡ some z → y ≡ z
  unfolding or_default
  some_injective y z r = ap (or_default y) r

module _ {A : Type 0} (null : A) where
  pub size_lt : (q : Queue A) (xs : List A) (h : Holds null q xs) → 2 ^ h.k < 2 ^ 64
  size_lt q xs h =
      let le : 2 ^ h.k ≤ 2 ^ 63 =
        pow-le-pow_right {n = 2} (omega arith) {j = 63} (omega (arith, h.bits)) in
      omega arith

  pub size_pos : (q : Queue A) (xs : List A) (h : Holds null q xs) → 0 < 2 ^ h.k
  size_pos q xs h = one-le-pow h.k 2 (omega arith)

  -- `is_full` at the cached front cursor.
  pub is_full_lem :
      (q : Queue A) (xs : List A) (h : Holds null q xs)
      → is_full q q.cached_front_cursor q.back_cursor
        ≡ (h.front + length xs - h.seen_front == 2 ^ h.k)
  unfolding is_full
  is_full_lem q xs h =
      rw (h.at_back, h.cached_front, h.sized)
        (ap (λ n. n == 2 ^ h.k)
          (distance_lem (h.front + length xs) h.seen_front (omega (arith, h.front_lags))
            (omega (arith, h.front_near, size_lt q xs h))))

  -- A slot is found by its count.
  pub mask_lem :
      (q : Queue A) (xs : List A) (h : Holds null q xs) (c : ℕ)
      → bit_and (c % 2 ^ 64) q.mask ≡ c % 2 ^ h.k
  mask_lem q xs h c = rw h.masked (bit_and-wrapped c h.k (suc h.d) h.bits)

  -- The cached cursor is read again.
  abbrev pub see_front :
      (q : Queue A) (xs : List A)
      → Holds null q xs
      → Holds null (record q { cached_front_cursor = q.front_cursor }) xs
  see_front q xs h = record {
    k = h.k;
    d = h.d;
    bits = h.bits;
    sized = h.sized;
    masked = h.masked;
    block = h.block;
    front = h.front;
    at_front = h.at_front;
    at_back = h.at_back;
    fits = h.fits;
    seen_front = h.front;
    cached_front = h.at_front;
    front_lags = omega arith;
    front_near = omega (arith, h.fits);
    seen_back = h.seen_back;
    cached_back = h.cached_back;
    back_after = h.back_after;
    back_lags = h.back_lags;
    slots = h.slots;
  }

  push_slot :
      (q : Queue A) (xs : List A) (h : Holds null q xs) (value : A) (i : ℕ) (x : A)
      → length xs < 2 ^ h.k
      → get_elem? (xs ++ value ∷ []) i ≡ some x
      → get_or (set q.values ((h.front + length xs) % 2 ^ h.k) value) ((h.front + i) % 2 ^ h.k) null
        ≡ x
  push_slot q xs h value i x room e =
      let m = 2 ^ h.k in
      let p = (h.front + length xs) % m in
      let t = (h.front + i) % m in
      let read =
        get_or-set q.values p t value null
          (omega (arith, h.block, mod-lt (h.front + length xs) (size_pos q xs h))) in
      elim (dec_lt i (length xs)) [
        | yes l ↦
            read
            ∙ (if_other _ _ p t (λ r.
                  apart (h.front + i) (h.front + length xs) m (omega arith) (omega arith) (sym r))
                ∙ h.slots i x (sym (get_elem?-append_left xs (value ∷ []) i l) ∙ e))
        | no l ↦
            let last : i ≡ length xs =
              omega
                (arith, lt_of_get_elem? (xs ++ value ∷ []) i e, length-append xs (value ∷ [])) in
            read
            ∙ (if_same _ _ p t (ap (λ j. (h.front + j) % m) (sym last))
                ∙ some_injective _ _ (
                    sym (get_elem?-append_end xs value)
                    ∙ (ap (get_elem? (xs ++ value ∷ [])) (sym last) ∙ e)))
      ]

  pub push_value-Holds :
      (q : Queue A) (xs : List A) (h : Holds null q xs) (value : A)
      → length xs < 2 ^ h.k
      → h.front + length xs < h.seen_front + 2 ^ h.k
      → Holds null (push_value q value) (xs ++ value ∷ [])
  unfolding push_value set_value
  push_value-Holds q xs h value room near =
      let grown : length (xs ++ value ∷ []) ≡ length xs + 1 = length-append xs (value ∷ []) in
      record {
        k = h.k;
        d = h.d;
        bits = h.bits;
        sized = h.sized;
        masked = h.masked;
        block = length-set q.values _ value ∙ h.block;
        front = h.front;
        at_front = h.at_front;
        at_back = ap (λ n. (n + 1) % 2 ^ 64) h.at_back ∙ omega (arith, grown);
        fits = omega (arith, grown);
        seen_front = h.seen_front;
        cached_front = h.cached_front;
        front_lags = h.front_lags;
        front_near = omega (arith, grown);
        seen_back = h.seen_back;
        cached_back = h.cached_back;
        back_after = h.back_after;
        back_lags = omega (arith, grown, h.back_lags);
        slots = λ i x e.
            ap (λ p. get_or (set q.values p value) ((h.front + i) % 2 ^ h.k) null)
              (ap (λ c. bit_and c q.mask) h.at_back ∙ mask_lem q xs h (h.front + length xs))
            ∙ push_slot q xs h value i x room e;
      }
