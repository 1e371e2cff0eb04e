-- ===== src/Core/Scheduler/Done.antt =====
-- core/scheduler.c: what `scheduler_no_more_tasks` says.
use inet_lisp.Base.{
  ℕ, zero, suc, ◌+◌, ◌*◌, ◌%◌, ◌/◌, ◌<◌, List, [], ◌∷◌, true, ==_iff, ◌↔◌, some, length, get_elem?,
  map, ◌≡◌, refl, ap, arith, subst,
}
use mathlib.Core.Option.{some-injective}
use inet_lisp.Core.Mod.{Task}
use inet_lisp.Core.Scheduler.{
  word_count, stats_counter_total_from, stats_counter_total, scheduler_no_more_tasks, Thread,
  Scheduler, Steps, scheduler_new, scheduler_prepare,
}
use inet_lisp.Core.Scheduler.Counted.{
  in_hand, uncounted, tasks_of, counted_of, sum_of, Counted, Steps-Counted, scheduler_new-Counted,
  scheduler_prepare-Counted,
}

-- No task waits, none is in the hands of a thread, and none was lost.
pub record Done (s : Scheduler) : Type 0 where
  pub none_lost : s.lost ≡ 0
  pub none_left :
      (i : ℕ) (t : Thread)
      → get_elem? s.threads i ≡ some t
      → (t.task_queue ≡ []) × (in_hand t.phase ≡ 0)

-- The total is the sum of the counts, as words.
total_of :
    (total : ℕ) (ts : List Thread)
    → ((i : ℕ) (t : Thread) → get_elem? ts i ≡ some t → uncounted t.phase ≡ 0)
    → (k : ℕ) × (stats_counter_total_from total (map (λ t. t.count) ts) + k * word_count
        ≡ total + sum_of counted_of ts)
unfolding stats_counter_total_from sum_of
total_of total [] all = (0, omega arith)
total_of total (t ∷ ts) all =
    let rest = total_of ((total + t.count) % word_count) ts (λ i u e. all (suc i) u e) in
    (rest.0 + (total + t.count) / word_count, omega (arith, rest.1, all 0 t refl))

small_total :
    (total : ℕ) (counts : List ℕ)
    → total < word_count
    → stats_counter_total_from total counts < word_count
unfolding stats_counter_total_from
small_total total [] l = l
small_total total (count ∷ counts) l =
    small_total ((total + count) % word_count) counts (omega arith)

empty_of_length : (q : List Task) → length q ≡ 0 → q ≡ []
empty_of_length [] e = refl
empty_of_length (task ∷ q) e = absurd (omega (arith, e))

all_of_sum :
    (ts : List Thread)
    → sum_of tasks_of ts ≡ 0
    → (i : ℕ) (t : Thread) → get_elem? ts i ≡ some t
    → tasks_of t ≡ 0
unfolding sum_of
all_of_sum [] z i t e = cc
all_of_sum (x ∷ ts) z zero t e =
    subst (λ u. tasks_of u ≡ 0) (some-injective x t e) (omega (arith, z))
all_of_sum (x ∷ ts) z (suc i) t e = all_of_sum ts (omega (arith, z)) i t e

sum_of_all :
    (ts : List Thread)
    → ((i : ℕ) (t : Thread) → get_elem? ts i ≡ some t → (t.task_queue ≡ []) × (in_hand t.phase ≡ 0))
    → sum_of tasks_of ts ≡ 0
unfolding sum_of
sum_of_all [] all = refl
sum_of_all (t ∷ ts) all =
    let first = all 0 t refl in
    omega (arith, ap length first.0, first.1, sum_of_all ts (λ i u e. all (suc i) u e))

module _ (s : Scheduler)
    (all : (i : ℕ) (t : Thread) → get_elem? s.threads i ≡ some t → uncounted t.phase ≡ 0)
    (c : Counted s) where
  zero→Done :
      sum_of tasks_of s.threads + s.lost < word_count → scheduler_no_more_tasks s ≡ true → Done s
  unfolding scheduler_no_more_tasks stats_counter_total
  zero→Done less e =
      let total = total_of 0 s.threads all in
      let z : stats_counter_total_from 0 (map (λ t. t.count) s.threads) ≡ 0 = (==_iff _ 0).0 e in
      let both : sum_of tasks_of s.threads + s.lost ≡ 0 =
        omega (arith, total.1, z, c.balanced, less) in
      record {
        none_lost = omega (arith, both);
        none_left = λ i t found.
            let none_of = all_of_sum s.threads (omega (arith, both)) i t found in
            (empty_of_length t.task_queue (omega (arith, none_of)), omega (arith, none_of));
      }

  Done→zero : Done s → scheduler_no_more_tasks s ≡ true
  unfolding scheduler_no_more_tasks stats_counter_total
  Done→zero done =
      let total = total_of 0 s.threads all in
      (==_iff _ 0).1 (
        omega (
          arith,
          total.1,
          c.balanced,
          done.none_lost,
          sum_of_all s.threads done.none_left,
          small_total 0 (map (λ t. t.count) s.threads) (omega arith),
        ))

-- From where the tasks have been dealt, in whatever order the threads step: while no thread is
-- between adding a task and counting it, and the tasks are fewer than 2 ^ 64, there are no more
-- tasks by the counters if and only if no queue holds one, no thread handles one, and none was lost
-- to a full queue.
pub scheduler_no_more_tasks-Done :
    (queue_size worker_count : ℕ) (tasks : List Task) (s : Scheduler)
    → Steps queue_size (scheduler_prepare queue_size tasks 0 (scheduler_new worker_count)) s
    → ((i : ℕ) (t : Thread) → get_elem? s.threads i ≡ some t → uncounted t.phase ≡ 0)
    → sum_of tasks_of s.threads + s.lost < word_count
    → (scheduler_no_more_tasks s ≡ true) ↔ Done s
scheduler_no_more_tasks-Done queue_size worker_count tasks s steps all less =
    let c = Steps-Counted steps (
      scheduler_prepare-Counted queue_size tasks 0 (scheduler_new worker_count)
        (scheduler_new-Counted worker_count)) in
    (zero→Done s all c less, Done→zero s all c)
