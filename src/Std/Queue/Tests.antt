-- ===== src/Std/Queue/Tests.antt =====
-- Runs of the queue, after packages/std/queue/test_queue_single_thread.c, where the cursors wrap.
use inet_lisp.Base.{
  ℕ, zero, suc, ◌+◌, ◌%◌, ◌^◌, ◌-◌, ◌≡◌, refl, [], ◌∷◌, true, some, get_elem?, get_or, ok, arith,
}
use inet_lisp.Std.Queue.{Queue, queue_new, queue_length, queue_push_back, queue_pop_front}
use inet_lisp.Std.Queue.Laws.{Holds}
use inet_lisp.Std.Queue.New.{queue_new_lem, queue_length_lem}
use inet_lisp.Std.Queue.Push.{queue_push_back_lem}
use inet_lisp.Std.Queue.Pop.{queue_pop_front_lem}

-- One item, 7, in the second of two slots; the next push goes to the first slot.
abbrev at_the_end : Queue ℕ
at_the_end = record {
  size = 2;
  mask = 1;
  values = 0 ∷ 7 ∷ [];
  front_cursor = 2 ^ 64 - 1;
  back_cursor = 0;
  cached_front_cursor = 2 ^ 64 - 1;
  cached_back_cursor = 2 ^ 64 - 1;
}

at_the_end-slots :
    (i x : ℕ)
    → get_elem? (7 ∷ []) i ≡ some x
    → get_or at_the_end.values ((2 ^ 64 - 1 + i) % 2) 0 ≡ x
at_the_end-slots zero x e = cc
at_the_end-slots (suc i) x e = cc

at_the_end-Holds : Holds 0 at_the_end (7 ∷ [])
at_the_end-Holds = record {
  k = 1;
  d = 62;
  bits = refl;
  sized = refl;
  masked = refl;
  block = refl;
  front = 2 ^ 64 - 1;
  at_front = refl;
  at_back = refl;
  fits = omega arith;
  seen_front = 2 ^ 64 - 1;
  cached_front = refl;
  front_lags = omega arith;
  front_near = omega arith;
  seen_back = 2 ^ 64 - 1;
  cached_back = refl;
  back_after = omega arith;
  back_lags = omega arith;
  slots = at_the_end-slots;
}

queue_push_back_example :
    (q' : Queue ℕ) × (queue_push_back at_the_end 8 ≡ (true, q'))
    × Holds 0 q' (7 ∷ 8 ∷ [])
    × (q'.size ≡ 2)
queue_push_back_example = queue_push_back_lem 0 at_the_end (7 ∷ []) 8 at_the_end-Holds

queue_pop_front_example : (q' : Queue ℕ) × (queue_pop_front 0 at_the_end ≡ (7, q')) × Holds 0 q' []
queue_pop_front_example = queue_pop_front_lem 0 at_the_end (7 ∷ []) at_the_end-Holds

queue_new_example : (q : Queue ℕ) × (queue_new 0 8 ≡ ok q) × Holds 0 q [] × (q.size ≡ 8)
queue_new_example = queue_new_lem 0 3 60 (omega arith) refl

queue_length_example : queue_length at_the_end ≡ 1
queue_length_example = queue_length_lem 0 at_the_end (7 ∷ []) at_the_end-Holds
