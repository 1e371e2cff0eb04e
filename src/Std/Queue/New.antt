-- ===== src/Std/Queue/New.antt =====
-- packages/std/queue/queue.c, `queue_new` and `queue_length`.
use Prim.Native.Nat.{bit_and}
use native.Mathlib.Nat.{pow-le-pow_right, mod_self}
use inet_lisp.Base.{
  ℕ, suc, ◌+◌, ◌-◌, ◌^◌, ◌≤◌, ◌<◌, ◌≡◌, refl, ◌∙◌, List, [], lt→ltb, length, arith, replicate,
  length-replicate, ok,
}
use inet_lisp.Std.Queue.{Queue, queue_length, queue_new, is_power_of_two}
use inet_lisp.Std.Queue.Mask.{bit_and-mask}
use inet_lisp.Std.Queue.Laws.{Holds, distance_lem, size_lt}

module _ {A : Type 0} (null : A) where
  -- A new queue of a power of two, from 2 up to 2 ^ 63, is made and holds nothing.
  pub queue_new_lem :
      (k d : ℕ)
      → 0 < k
      → k + suc d ≡ 64
      → (q : Queue A) × (queue_new null (2 ^ k) ≡ ok q) × Holds null q [] × (q.size ≡ 2 ^ k)
  unfolding queue_new is_power_of_two
  queue_new_lem k d p e =
      let two_le : 2 ^ 1 ≤ 2 ^ k =
        pow-le-pow_right {n = 2} (omega arith) {i = 1} {j = k} (omega arith) in
      let masked_off : bit_and (2 ^ k) (2 ^ k - 1) ≡ 0 =
        bit_and-mask (2 ^ k) k ∙ mod_self (2 ^ k) in
      (
        record {
          size = 2 ^ k;
          mask = 2 ^ k - 1;
          values = replicate (2 ^ k) null;
          front_cursor = 0;
          back_cursor = 0;
          cached_front_cursor = 0;
          cached_back_cursor = 0;
        },
        rw
            (
              lt→ltb 1 (2 ^ k) (omega (arith, two_le)),
              lt→ltb 0 (2 ^ k) (omega (arith, two_le)),
              masked_off,
            )
            refl,
        record {
          k = k;
          d = d;
          bits = e;
          sized = refl;
          masked = refl;
          block = length-replicate (2 ^ k) null;
          front = 0;
          at_front = refl;
          at_back = refl;
          fits = omega arith;
          seen_front = 0;
          cached_front = refl;
          front_lags = omega arith;
          front_near = omega arith;
          seen_back = 0;
          cached_back = refl;
          back_after = omega arith;
          back_lags = omega arith;
          slots = λ i x q. cc;
        },
        refl,
      )

  -- The length is the number of items, also when the cursors have wrapped around.
  pub queue_length_lem : (q : Queue A) (xs : List A) → Holds null q xs → queue_length q ≡ length xs
  unfolding queue_length
  queue_length_lem q xs h =
      rw (h.at_back, h.at_front)
        (distance_lem (h.front + length xs) h.front (omega arith)
            (omega (arith, h.fits, size_lt null q xs h))
          ∙ omega arith)
