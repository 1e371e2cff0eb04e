-- ===== src/Core/Scheduler/Tests.antt =====
-- core/worker_work_parallelly.c: runs of two workers.
use inet_lisp.Base.{
  ℕ, zero, suc, ◌-◌, List, [], ◌∷◌, true, false, some, get_elem?, ◌≡◌, ◌↔◌, refl, arith, subst,
}
use mathlib.Core.Option.{some-injective}
use inet_lisp.Core.Mod.{Task, primitive}
use inet_lisp.Core.Scheduler.{
  word_count, scheduler_no_more_tasks, Phase, reading, choosing, adding, returned, Thread,
  Scheduler, Move, read, no_more_tasks, more_tasks, more_to_steal, next_task, no_next_task,
  add_task, count_sub1, Step, move, steal, Steps, none_yet, and_then, scheduler_new,
  scheduler_prepare, add_task_to, stats_counter_per_thread_add1, stats_counter_per_thread_sub1,
}
use inet_lisp.Core.Scheduler.Counted.{uncounted, sum_of}
use inet_lisp.Core.Scheduler.Done.{Done, scheduler_no_more_tasks-Done}

abbrev two : Thread → Thread → Scheduler
two t u = record { threads = t ∷ u ∷ []; lost = 0 }

first_steps :
    {t t' u : Thread} → Move 8 (t.count ∷ u.count ∷ []) t t' 0 → Step 8 (two t u) (two t' u)
first_steps {t} {t'} {u} m = move (t ∷ u ∷ []) 0 0 0 t t' refl m

second_steps :
    {t u u' : Thread} → Move 8 (t.count ∷ u.count ∷ []) u u' 0 → Step 8 (two t u) (two t u')
second_steps {t} {u} {u'} m = move (t ∷ u ∷ []) 0 0 1 u u' refl m

abbrev at : List Task → ℕ → Phase → Thread
at q n phase = record { task_queue = q; count = n; phase = phase }

abbrev start : Phase
start = reading false 0 0

abbrev task : Task
task = primitive 7

abbrev dealt : Scheduler
dealt = scheduler_prepare 8 (task ∷ []) 0 (scheduler_new 2)

dealt_lem : dealt ≡ two (at (task ∷ []) 1 start) (at [] 0 start)
unfolding scheduler_prepare scheduler_new add_task_to stats_counter_per_thread_add1
dealt_lem = refl

-- The first worker finds that there is a task, takes it, handles it, and counts it off.
handled_alone :
    Steps 8 (two (at (task ∷ []) 1 start) (at [] 0 start)) (two (at [] 0 start) (at [] 0 start))
unfolding stats_counter_per_thread_sub1
handled_alone =
    and_then
      (and_then
        (and_then
          (and_then (and_then (none_yet _) (first_steps (read (task ∷ []) 1 false 0 0 1 refl)))
            (first_steps (read (task ∷ []) 1 false 1 1 0 refl)))
          (first_steps (more_tasks (task ∷ []) 1 1 (λ e. omega (arith, e)))))
        (first_steps (next_task task [] 1)))
      (first_steps (count_sub1 [] 1))

none_adds :
    (i : ℕ) (t : Thread)
    → get_elem? (two (at [] 0 start) (at [] 0 start)).threads i ≡ some t
    → uncounted t.phase ≡ 0
none_adds zero t e = subst (λ u. uncounted u.phase ≡ 0) (some-injective _ t e) refl
none_adds (suc zero) t e = subst (λ u. uncounted u.phase ≡ 0) (some-injective _ t e) refl
none_adds (suc (suc i)) t e = cc

scheduler_no_more_tasks-Done_example :
    (scheduler_no_more_tasks (two (at [] 0 start) (at [] 0 start)) ≡ true)
    ↔ Done (two (at [] 0 start) (at [] 0 start))
unfolding scheduler_prepare scheduler_new add_task_to stats_counter_per_thread_add1 sum_of
scheduler_no_more_tasks-Done_example =
    scheduler_no_more_tasks-Done 8 2 (task ∷ []) (two (at [] 0 start) (at [] 0 start)) handled_alone
      none_adds (omega arith)

-- The first worker adds a task and has not counted it; the second takes it and counts it off.
-- Then the counts are 1 and -1, and the second returns, while the first still handles its task.
returns_early :
    Steps 8
      (two (at (task ∷ []) 1 start) (at [] 0 start))
      (two (at [] 1 adding) (at [] (word_count - 1) returned))
unfolding stats_counter_per_thread_sub1
returns_early =
    let taken =
      and_then
        (and_then
          (and_then
            (and_then (none_yet _) (
              first_steps {t = at (task ∷ []) 1 start} {u = at [] 0 start}
                (read (task ∷ []) 1 false 0 0 1 refl)))
            (first_steps (read (task ∷ []) 1 false 1 1 0 refl)))
          (first_steps (more_tasks (task ∷ []) 1 1 (λ e. omega (arith, e)))))
        (first_steps (next_task task [] 1)) in
    let waits =
      and_then
        (and_then
          (and_then
            (and_then
              (and_then
                (and_then
                  (and_then taken (second_steps {u = at [] 0 start} (read [] 0 false 0 0 1 refl)))
                  (second_steps (read [] 0 false 1 1 0 refl)))
                (second_steps (more_tasks [] 0 1 (λ e. omega (arith, e)))))
              (second_steps (no_next_task 0)))
            (second_steps (read [] 0 true 0 0 1 refl)))
          (second_steps (read [] 0 true 1 1 0 refl)))
        (second_steps (more_to_steal [] 0 1 (λ e. omega (arith, e)))) in
    let robs = and_then (and_then waits (first_steps (add_task task [] 1 (omega arith)))) (
      steal (at (task ∷ []) 1 adding ∷ at [] 0 choosing ∷ []) 0 1 0 [] [] 0 1 adding task
        (λ e. omega (arith, e)) refl refl) in
    and_then
      (and_then
        (and_then (and_then robs (second_steps {t = at [] 1 adding} (count_sub1 [] 0)))
          (second_steps (read [] (word_count - 1) false 0 0 1 refl)))
        (second_steps (read [] (word_count - 1) false 1 1 (word_count - 1) refl)))
      (second_steps (no_more_tasks [] (word_count - 1) false))
