-- ===== src/Core/Scheduler/Counted.antt =====
-- core/scheduler.c, core/worker_work_parallelly.c: the counters count the tasks that are there.
use inet_lisp.Base.{
  ℕ, zero, suc, ◌+◌, ◌*◌, ◌%◌, ◌/◌, ◌-◌, List, [], ◌∷◌, ◌++◌, true, Option, none, some, length,
  get_elem?, set, get_elem?-set_ne, Bool-cases, inl, inr, ◌==◌, if◌then◌else◌, ◌≡◌, refl, ap, sym,
  ◌∙◌, arith, subst,
}
use mathlib.Core.Option.{some-injective}
use inet_lisp.Core.Mod.{Task}
use inet_lisp.Core.Scheduler.{
  word_count, stats_counter_per_thread_add1, stats_counter_per_thread_sub1, Phase, reading,
  choosing, handling, adding, Thread, Scheduler, Move, read, no_more_tasks, more_tasks,
  more_to_steal, next_task, no_next_task, add_task, add_to_full, count_add1, count_sub1, Step, move,
  steal, nothing_to_steal, Steps, none_yet, and_then, scheduler_new, scheduler_prepare, add_task_to,
}

-- A task in the hands of a thread, and a task that it has added and not yet counted.
abbrev pub in_hand : Phase → ℕ
in_hand handling = 1
in_hand adding = 1
in_hand _ = 0

abbrev pub uncounted : Phase → ℕ
uncounted adding = 1
uncounted _ = 0

abbrev pub tasks_of : Thread → ℕ
tasks_of t = length t.task_queue + in_hand t.phase

abbrev pub counted_of : Thread → ℕ
counted_of t = t.count + uncounted t.phase

unfoldable pub sum_of : (Thread → ℕ) → List Thread → ℕ
sum_of f [] = 0
sum_of f (t ∷ ts) = f t + sum_of f ts

-- The counts are the tasks, up to the number of words.
pub record Counted (s : Scheduler) : Type 0 where
  pub above : ℕ
  pub below : ℕ
  pub balanced :
      sum_of counted_of s.threads + above * word_count
      ≡ sum_of tasks_of s.threads + s.lost + below * word_count

sum_of-set :
    (f : Thread → ℕ) (ts : List Thread) (i : ℕ) (t t' : Thread)
    → get_elem? ts i ≡ some t
    → sum_of f (set ts i t') + f t ≡ sum_of f ts + f t'
unfolding sum_of
sum_of-set f [] i t t' e = cc
sum_of-set f (x ∷ ts) zero t t' e =
    let same : f x ≡ f t = ap f (some-injective x t e) in omega (arith, same)
sum_of-set f (x ∷ ts) (suc i) t t' e = omega (arith, sum_of-set f ts i t t' e)

length-push : (q : List Task) (task : Task) → length (q ++ task ∷ []) ≡ length q + 1
length-push [] task = refl
length-push (x ∷ q) task = omega (arith, length-push q task)

-- A step of one thread keeps the balance of its tasks and counts.
Move-balance :
    {queue_size : ℕ} {counts : List ℕ} {t t' : Thread} {more : ℕ}
    → Move queue_size counts t t' more
    → (up : ℕ) × (down : ℕ) × (counted_of t' + tasks_of t + up * word_count
        ≡ counted_of t + tasks_of t' + more + down * word_count)
unfolding stats_counter_per_thread_add1 stats_counter_per_thread_sub1
Move-balance (read q n stealing i total count e) = (0, 0, omega arith)
Move-balance (no_more_tasks q n stealing) = (0, 0, omega arith)
Move-balance (more_tasks q n total e) = (0, 0, omega arith)
Move-balance (more_to_steal q n total e) = (0, 0, omega arith)
Move-balance (next_task task q n) = (0, 0, omega arith)
Move-balance (no_next_task n) = (0, 0, omega arith)
Move-balance (add_task task q n room) = (0, 0, omega (arith, length-push q task))
Move-balance (add_to_full q n full) = (0, 0, omega arith)
Move-balance (count_add1 q n) = ((n + 1) / word_count, 0, omega arith)
Move-balance (count_sub1 q n) = ((n + (word_count - 1)) / word_count, 1, omega arith)

-- One thread is replaced, with its balance kept.
replaced-Counted :
    (ts : List Thread) (lost lost' more i : ℕ) (t t' : Thread) (up down : ℕ)
    → lost' ≡ lost + more
    → get_elem? ts i ≡ some t
    → counted_of t' + tasks_of t + up * word_count
      ≡ counted_of t + tasks_of t' + more + down * word_count
    → Counted (record { threads = ts; lost = lost })
    → Counted (record { threads = set ts i t'; lost = lost' })
replaced-Counted ts lost lost' more i t t' up down l e b c = record {
  above = c.above + up;
  below = c.below + down;
  balanced =
      omega (
        arith,
        l,
        b,
        c.balanced,
        sum_of-set counted_of ts i t t' e,
        sum_of-set tasks_of ts i t t' e,
      );
}

Step-Counted : {queue_size : ℕ} {s s' : Scheduler} → Step queue_size s s' → Counted s → Counted s'
Step-Counted (move ts lost more i t t' e m) c =
    let b = Move-balance m in
    replaced-Counted ts lost (lost + more) more i t t' b.0 b.1 refl e b.2 c
Step-Counted (steal ts lost i j q victim_q n victim_n phase task ne e victim_e) c =
    let robbed : Thread = record { task_queue = victim_q; count = victim_n; phase = phase } in
    let thief : Thread = record { task_queue = q; count = n; phase = choosing } in
    let after : Thread = record { task_queue = q; count = n; phase = handling } in
    let victim : Thread = record {
      task_queue = task ∷ victim_q;
      count = victim_n;
      phase = phase;
    } in
    let there = get_elem?-set_ne ts robbed (λ x. ne (sym x)) ∙ e in
    record {
      above = c.above;
      below = c.below;
      balanced = omega (
        arith,
        c.balanced,
        sum_of-set counted_of ts j victim robbed victim_e,
        sum_of-set tasks_of ts j victim robbed victim_e,
        sum_of-set counted_of (set ts j robbed) i thief after there,
        sum_of-set tasks_of (set ts j robbed) i thief after there,
      );
    }
Step-Counted (nothing_to_steal ts lost i j q n victim_n phase ne e victim_e) c =
    let thief : Thread = record { task_queue = q; count = n; phase = choosing } in
    let after : Thread = record { task_queue = q; count = n; phase = reading true 0 0 } in
    record {
      above = c.above;
      below = c.below;
      balanced = omega (
        arith,
        c.balanced,
        sum_of-set counted_of ts i thief after e,
        sum_of-set tasks_of ts i thief after e,
      );
    }

-- Every step keeps the balance.
pub Steps-Counted :
    {queue_size : ℕ} {s s' : Scheduler} → Steps queue_size s s' → Counted s → Counted s'
Steps-Counted (none_yet s) c = c
Steps-Counted (and_then steps step) c = Step-Counted step (Steps-Counted steps c)

pub scheduler_new-Counted : (worker_count : ℕ) → Counted (scheduler_new worker_count)
unfolding scheduler_new sum_of
scheduler_new-Counted zero = record { above = 0; below = 0; balanced = refl }
scheduler_new-Counted (suc n) =
    let c = scheduler_new-Counted n in
    record { above = c.above; below = c.below; balanced = omega (arith, c.balanced) }

abbrev counted : Thread → Thread
counted t = record t { count = stats_counter_per_thread_add1 t.count }

abbrev pushed : Thread → Task → Thread
pushed t task = record t { task_queue = t.task_queue ++ task ∷ [] }

abbrev lost_at : Scheduler → ℕ → Thread → Scheduler
lost_at s i t = record { threads = set s.threads i t; lost = s.lost + 1 }

abbrev kept_at : Scheduler → ℕ → Thread → Task → Scheduler
kept_at s i t task = record { threads = set s.threads i (pushed t task); lost = s.lost }

-- The one who prepares adds a task that is counted.
add_task_to-Counted :
    (queue_size : ℕ) (task : Task) (t : Thread) (s : Scheduler) (i : ℕ)
    → get_elem? s.threads i ≡ some t
    → Counted s
    → Counted (add_task_to queue_size task t s i)
unfolding add_task_to stats_counter_per_thread_add1
add_task_to-Counted queue_size task t s i e c =
    elim (Bool-cases (length t.task_queue == queue_size)) [
      | inl full ↦
          subst (λ b. Counted (if b then lost_at s i (counted t) else kept_at s i (counted t) task))
            (sym full)
            (replaced-Counted s.threads s.lost (s.lost + 1) 1 i t (counted t)
              ((t.count + 1) / word_count) 0 refl e (omega arith) c)
      | inr room ↦
          subst (λ b. Counted (if b then lost_at s i (counted t) else kept_at s i (counted t) task))
            (sym room)
            (replaced-Counted s.threads s.lost s.lost 0 i t (pushed (counted t) task)
              ((t.count + 1) / word_count) 0 (omega arith) e
              (omega (arith, length-push t.task_queue task)) c)
    ]

dealt-Counted :
    (queue_size : ℕ) (task : Task) (s : Scheduler) (i : ℕ) (o : Option Thread)
    → get_elem? s.threads i ≡ o
    → Counted s
    → Counted (elim o as (λ x. Scheduler) [ none ↦ s | some t ↦ add_task_to queue_size task t s i ])
dealt-Counted queue_size task s i none e c = c
dealt-Counted queue_size task s i (some t) e c = add_task_to-Counted queue_size task t s i e c

pub scheduler_prepare-Counted :
    (queue_size : ℕ) (tasks : List Task) (cursor : ℕ) (s : Scheduler)
    → Counted s
    → Counted (scheduler_prepare queue_size tasks cursor s)
unfolding scheduler_prepare
scheduler_prepare-Counted queue_size [] cursor s c = c
scheduler_prepare-Counted queue_size (task ∷ tasks) cursor s c =
    let i = cursor % length s.threads in
    scheduler_prepare-Counted queue_size tasks (cursor + 1) _
      (dealt-Counted queue_size task s i (get_elem? s.threads i) refl c)
