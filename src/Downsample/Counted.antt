-- ===== src/Downsample/Counted.antt =====
-- The tasks that are marked as running and their places. A task that is cancelled or timed out gives
-- its place up while its worker goes on, which the scheduler does not count.
use chono_db.Prelude.{
  ℕ, zero, suc, ◌-◌, ◌≡◌, refl, String, false, Option, none, some, List, [], ◌∷◌, All, length, leb,
  Bool-cases, Option-cases, inl, inr, ◌||◌,
}
use chono_db.Prelude.Assoc.{text_key, lookup}
use chono_db.Prelude.Int.{ℤ}
use chono_db.Error.{Result, ok, err, stuck, on_ok}
use chono_db.Downsample.Task.{DownsampleTask, is_terminal, is_running, mark_running, mark_cancelled}
use chono_db.Downsample.Queue.{pop}
use chono_db.Downsample.Worker.{WorkerTask, WorkerPool}
use chono_db.Downsample.Scheduler.{
  DownsampleScheduler, new, start, stop, submit_task, cancel_task, cancel_found, submit, start_task,
  schedule_popped, schedule_loop, schedule_tasks, expire, expire_all, check_timeouts,
  handle_task_result, after_result, timed_out,
}
use chono_db.Downsample.Run.{
  Event, step, run, starts, stops, submits, cancels, schedules, checks, reports,
}
use chono_db.Downsample.Idle.{runs, expired_stops, after_result_stops, mark_cancelled_stops}
use chono_db.Downsample.Limit.{IsLimited, run-new-IsLimited}
use chono_db.Downsample.Places.{Counts, Counts-release, Counts-take, Counts-submit, Counts-change}

abbrev pub IsCounted : DownsampleScheduler → Type 0
IsCounted s = Counts s.all_tasks s.running_tasks

submit-IsCounted :
    (worker : WorkerTask) (s : DownsampleScheduler) (pool : Option WorkerPool)
    → IsCounted s
    → IsCounted (submit worker s pool).1
unfolding submit
submit-IsCounted worker s none h = h
submit-IsCounted worker s (some pool) h = elim (Bool-cases pool.is_open) [
  | inl e ↦ rw e h
  | inr e ↦ rw e h
]

cancel_found-IsCounted :
    (id : String) (s : DownsampleScheduler) (task : Option DownsampleTask)
    → IsCounted s
    → IsCounted (cancel_found id s task).1
unfolding cancel_found
cancel_found-IsCounted id s none h = h
cancel_found-IsCounted id s (some task) h = elim (Bool-cases (is_terminal task.status)) [
  | inl e ↦ rw e h
  | inr e ↦ rw e (
      Counts-release s.all_tasks s.running_tasks id (mark_cancelled task)
        (mark_cancelled_stops task) h)
]

start_task-IsCounted :
    (now : ℤ) (queued : DownsampleTask) (s : DownsampleScheduler) (task : Option DownsampleTask)
    → IsCounted s
    → IsCounted (start_task now queued s task).1
unfolding start_task
start_task-IsCounted now queued s none h = h
start_task-IsCounted now queued s (some task) h =
    elim (Bool-cases (is_terminal task.status || is_running task.status)) [
      | inl e ↦ rw e h
      | inr e ↦ rw e (
          submit-IsCounted _ _ s.worker_pool
            (Counts-take s.all_tasks s.running_tasks queued.task_id (mark_running now task) h))
    ]

on_ok-IsCounted :
    (next : DownsampleScheduler → Result (Unit {0}) × DownsampleScheduler)
    (r : Result (Unit {0}) × DownsampleScheduler)
    → ((s : DownsampleScheduler) → IsCounted s → IsCounted (next s).1)
    → IsCounted r.1
    → IsCounted (on_ok next r).1
unfolding on_ok
on_ok-IsCounted next (ok _, s) all h = all s h
on_ok-IsCounted next (err reason, s) all h = h
on_ok-IsCounted next (stuck, s) all h = h

schedule_loop-IsCounted :
    (clock : ℕ → ℤ) (left : ℕ) (s : DownsampleScheduler)
    → IsCounted s
    → IsCounted (schedule_loop clock left s).1
unfolding schedule_loop schedule_popped
schedule_loop-IsCounted clock zero s h = h
schedule_loop-IsCounted clock (suc left) s h = elim (Option-cases (pop s.task_queue)) [
  | inl e ↦ rw (schedule_loop, e) h
  | inr ((queued, rest), e) ↦
      rw (schedule_loop, e)
        (on_ok-IsCounted (schedule_loop clock left) _ (schedule_loop-IsCounted clock left) (
          start_task-IsCounted (clock left) queued.task (record s { task_queue = rest })
            (lookup queued.task.task_id s.all_tasks) h))
]

schedule_tasks-IsCounted :
    (clock : ℕ → ℤ) (s : DownsampleScheduler) → IsCounted s → IsCounted (schedule_tasks clock s).1
unfolding schedule_tasks
schedule_tasks-IsCounted clock s h =
    elim (Bool-cases (leb s.concurrency (length s.running_tasks))) [
      | inl e ↦ rw (schedule_tasks, e) h
      | inr e ↦
          rw (schedule_tasks, e)
            (schedule_loop-IsCounted clock (s.concurrency - length s.running_tasks) s h)
    ]

expire_all-IsCounted :
    (ids : List String) (s : DownsampleScheduler) → IsCounted s → IsCounted (expire_all ids s)
unfolding expire_all expire
expire_all-IsCounted [] s h = h
expire_all-IsCounted (id ∷ ids) s h =
    expire_all-IsCounted ids (expire id s)
      (Counts-change s.all_tasks s.running_tasks id (lookup id s.all_tasks) _ refl expired_stops h)

-- A submitted task is not marked as running, as `new` makes it.
abbrev pub IsFresh : Event → Type 0
IsFresh starts = Unit {0}
IsFresh stops = Unit {0}
IsFresh (submits now p task) = is_running task.status ≡ false
IsFresh (cancels id) = Unit {0}
IsFresh (schedules clock) = Unit {0}
IsFresh (checks now) = Unit {0}
IsFresh (reports now result) = Unit {0}

step-IsCounted :
    (event : Event) (s : DownsampleScheduler)
    → IsFresh event
    → IsCounted s
    → IsCounted (step event s)
unfolding step start stop submit_task cancel_task schedule_tasks check_timeouts handle_task_result
step-IsCounted starts s fresh h = elim (Bool-cases s.is_running) [
  | inl e ↦ simp e h
  | inr e ↦ simp e h
]
step-IsCounted stops s fresh h = elim (Bool-cases s.is_running) [
  | inl e ↦ simp e h
  | inr e ↦ simp e h
]
step-IsCounted (submits now p task) s fresh h =
    Counts-submit s.all_tasks s.running_tasks task.task_id task fresh h
step-IsCounted (cancels id) s fresh h = cancel_found-IsCounted id s (lookup id s.all_tasks) h
step-IsCounted (schedules clock) s fresh h = schedule_tasks-IsCounted clock s h
step-IsCounted (checks now) s fresh h = expire_all-IsCounted (timed_out now s.all_tasks) s h
step-IsCounted (reports now result) s fresh h =
    Counts-change s.all_tasks s.running_tasks result.task_id (lookup result.task_id s.all_tasks)
      (after_result now result) refl (after_result_stops now result) h

run-IsCounted :
    (events : List Event) (s : DownsampleScheduler)
    → All IsFresh events
    → IsCounted s
    → IsCounted (run events s)
unfolding run
run-IsCounted [] s fresh h = h
run-IsCounted (event ∷ events) s (first, fresh) h =
    run-IsCounted events (step event s) fresh (step-IsCounted event s first h)

-- Whatever is submitted, cancelled, scheduled, reported and timed out, and in whatever order, where no
-- submitted task is marked as running already: each task whose status is `Running` has its name among
-- `running_tasks`, these are no more than the scheduler was made for, and that number never changes.
pub running-IsCounted :
    (events : List Event) (c : ℕ)
    → All IsFresh events
    → IsLimited c (run events (new c)) × IsCounted (run events (new c))
running-IsCounted events c fresh = (
  run-new-IsLimited events c,
  run-IsCounted events (new c) fresh (unfold new lookup runs in λ id r. cc r),
)
