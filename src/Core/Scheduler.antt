-- ===== src/Core/Scheduler.antt =====
-- core/scheduler.c, core/worker_work_parallelly.c, core/worker_offer_task.c,
-- packages/std/counter/stats_counter.c: workers that run at the same time.
-- Each step is one that the other workers see whole: an operation on a queue, under its lock, or one
-- load or store of a counter. A counter is an `int64_t`, which is its word here.
pub mod Counted
pub mod Done
mod Tests
use inet_lisp.Base.{
  ℕ, zero, suc, ◌+◌, ◌-◌, ◌<◌, ◌^◌, ◌%◌, List, [], ◌∷◌, ◌++◌, Bool, true, false, Option, none, some,
  length, get_elem?, set, replicate, map, ◌≡◌, ◌≢◌, ◌==◌, if◌then◌else◌,
}
use inet_lisp.Core.Mod.{Task}

-- The number of words of 64 bits.
abbrev pub word_count : ℕ
word_count = 2 ^ 64

unfoldable pub stats_counter_per_thread_add1 : ℕ → ℕ
stats_counter_per_thread_add1 count = (count + 1) % word_count

unfoldable pub stats_counter_per_thread_sub1 : ℕ → ℕ
stats_counter_per_thread_sub1 count = (count + (word_count - 1)) % word_count

-- The loop of `stats_counter_total`, when no thread stores in between.
unfoldable pub stats_counter_total_from : ℕ → List ℕ → ℕ
stats_counter_total_from total [] = total
stats_counter_total_from total (count ∷ counts) =
    stats_counter_total_from ((total + count) % word_count) counts

unfoldable pub stats_counter_total : List ℕ → ℕ
unfolding stats_counter_total_from
stats_counter_total counts = stats_counter_total_from 0 counts

-- Where a thread stands in `worker_thread_fn`.
pub data Phase : Type 0 where
  -- in the loop of `stats_counter_total`, for the loop of `worker_steal_task` or its own
  reading : Bool → ℕ → ℕ → Phase
  -- before `worker_next_task`, and before `worker_offer_task` of a victim
  taking choosing : Phase
  -- in `worker_handle_task`
  handling : Phase
  -- in `worker_add_task`, before `scheduler_task_count_add1`
  adding : Phase
  returned : Phase

-- A worker with its counter and its thread.
pub record Thread : Type 0 where
  pub task_queue : List Task
  pub count : ℕ
  pub phase : Phase

-- `lost` is of the model alone: the number of tasks that found a queue full.
pub record Scheduler : Type 0 where
  pub threads : List Thread
  pub lost : ℕ

unfoldable pub scheduler_no_more_tasks : Scheduler → Bool
unfolding stats_counter_total
scheduler_no_more_tasks s = stats_counter_total (map (λ t. t.count) s.threads) == 0

-- A step of one thread, with the counters of all; the number is that of the tasks it loses.
pub data Move (queue_size : ℕ) (counts : List ℕ) : Thread → Thread → ℕ → Type 0 where
  read :
      (q : List Task) (n : ℕ) (stealing : Bool) (i total count : ℕ)
      → get_elem? counts i ≡ some count
      → Move queue_size counts
          (record { task_queue = q; count = n; phase = reading stealing i total })
          (record {
            task_queue = q;
            count = n;
            phase = reading stealing (i + 1) ((total + count) % word_count);
          })
          0
  no_more_tasks :
      (q : List Task) (n : ℕ) (stealing : Bool)
      → Move queue_size counts
          (record { task_queue = q; count = n; phase = reading stealing (length counts) 0 })
          (record { task_queue = q; count = n; phase = returned })
          0
  more_tasks :
      (q : List Task) (n : ℕ) (total : ℕ)
      → total ≢ 0
      → Move queue_size counts
          (record { task_queue = q; count = n; phase = reading false (length counts) total })
          (record { task_queue = q; count = n; phase = taking })
          0
  more_to_steal :
      (q : List Task) (n : ℕ) (total : ℕ)
      → total ≢ 0
      → Move queue_size counts
          (record { task_queue = q; count = n; phase = reading true (length counts) total })
          (record { task_queue = q; count = n; phase = choosing })
          0
  next_task :
      (task : Task) (q : List Task) (n : ℕ)
      → Move queue_size counts
          (record { task_queue = task ∷ q; count = n; phase = taking })
          (record { task_queue = q; count = n; phase = handling })
          0
  no_next_task :
      (n : ℕ)
      → Move queue_size counts
          (record { task_queue = []; count = n; phase = taking })
          (record { task_queue = []; count = n; phase = reading true 0 0 })
          0
  add_task :
      (task : Task) (q : List Task) (n : ℕ)
      → length q < queue_size
      → Move queue_size counts
          (record { task_queue = q; count = n; phase = handling })
          (record { task_queue = q ++ task ∷ []; count = n; phase = adding })
          0
  -- The result of `queue_push_back` is not looked at.
  add_to_full :
      (q : List Task) (n : ℕ)
      → length q ≡ queue_size
      → Move queue_size counts
          (record { task_queue = q; count = n; phase = handling })
          (record { task_queue = q; count = n; phase = adding })
          1
  count_add1 :
      (q : List Task) (n : ℕ)
      → Move queue_size counts
          (record { task_queue = q; count = n; phase = adding })
          (record { task_queue = q; count = stats_counter_per_thread_add1 n; phase = handling })
          0
  count_sub1 :
      (q : List Task) (n : ℕ)
      → Move queue_size counts
          (record { task_queue = q; count = n; phase = handling })
          (record {
            task_queue = q;
            count = stats_counter_per_thread_sub1 n;
            phase = reading false 0 0;
          })
          0

-- A victim is another worker, whichever `rand` finds.
pub data Step (queue_size : ℕ) : Scheduler → Scheduler → Type 0 where
  move :
      (ts : List Thread) (lost more i : ℕ) (t t' : Thread)
      → get_elem? ts i ≡ some t
      → Move queue_size (map (λ x. x.count) ts) t t' more
      → Step queue_size
          (record { threads = ts; lost = lost })
          (record { threads = set ts i t'; lost = lost + more })
  steal :
      (ts : List Thread) (lost i j : ℕ) (q victim_q : List Task) (n victim_n : ℕ) (phase : Phase)
      (task : Task)
      → i ≢ j
      → get_elem? ts i ≡ some (record { task_queue = q; count = n; phase = choosing })
      → get_elem? ts j
        ≡ some (record { task_queue = task ∷ victim_q; count = victim_n; phase = phase })
      → Step queue_size
          (record { threads = ts; lost = lost })
          (record {
            threads =
                set
                  (set ts j (record { task_queue = victim_q; count = victim_n; phase = phase }))
                  i
                  (record { task_queue = q; count = n; phase = handling });
            lost = lost;
          })
  nothing_to_steal :
      (ts : List Thread) (lost i j : ℕ) (q : List Task) (n victim_n : ℕ) (phase : Phase)
      → i ≢ j
      → get_elem? ts i ≡ some (record { task_queue = q; count = n; phase = choosing })
      → get_elem? ts j ≡ some (record { task_queue = []; count = victim_n; phase = phase })
      → Step queue_size
          (record { threads = ts; lost = lost })
          (record {
            threads = set ts i (record { task_queue = q; count = n; phase = reading true 0 0 });
            lost = lost;
          })

pub data Steps (queue_size : ℕ) : Scheduler → Scheduler → Type 0 where
  none_yet : (s : Scheduler) → Steps queue_size s s
  and_then : {s t u : Scheduler} → Steps queue_size s t → Step queue_size t u → Steps queue_size s u

-- `worker_add_task` by the thread that prepares, with its count
unfoldable pub add_task_to : ℕ → Task → Thread → Scheduler → ℕ → Scheduler
unfolding stats_counter_per_thread_add1
add_task_to queue_size task t s i =
    let counted = stats_counter_per_thread_add1 t.count in
    if length t.task_queue == queue_size
    then record { threads = set s.threads i (record t { count = counted }); lost = s.lost + 1 }
    else record {
      threads =
          set s.threads i (record t { task_queue = t.task_queue ++ task ∷ []; count = counted });
      lost = s.lost;
    }

unfoldable pub scheduler_new : ℕ → Scheduler
scheduler_new worker_count = record {
  threads =
      replicate worker_count (record { task_queue = []; count = 0; phase = reading false 0 0 });
  lost = 0;
}

-- The tasks are dealt in turn, on the index of the next.
unfoldable pub scheduler_prepare : ℕ → List Task → ℕ → Scheduler → Scheduler
unfolding add_task_to
scheduler_prepare queue_size [] cursor s = s
scheduler_prepare queue_size (task ∷ tasks) cursor s =
    let i = cursor % length s.threads in
    let next : Scheduler = elim (get_elem? s.threads i) [
      | none ↦ s
      | some t ↦ add_task_to queue_size task t s i
    ] in
    scheduler_prepare queue_size tasks (cursor + 1) next
