-- ===== src/Downsample/Idle.antt =====
-- A task that neither runs nor waits in the queue, and what a round of the scheduler leaves of that.
use chono_db.Prelude.{
  ℕ, zero, suc, ◌≡◌, ◌≢◌, refl, subst, arith, String, Bool, false, Option, none, some, All,
  Bool-cases, Option-cases, inl, inr, ◌||◌, if◌then◌else◌,
}
use chono_db.Prelude.Assoc.{text_key, Assoc, lookup, insert, lookup-insert, same_ne}
use chono_db.Prelude.Int.{ℤ}
use chono_db.Error.{Result, ok, err, stuck, on_ok}
use chono_db.Downsample.Task.{
  DownsampleTask, TaskResult, is_terminal, is_running, mark_running, mark_completed, mark_failed,
  mark_cancelled, can_retry, reset_for_retry,
}
use chono_db.Downsample.Queue.{ScheduledTask, pop, AllPopped, pop-All}
use chono_db.Downsample.Worker.{WorkerTask, WorkerPool}
use chono_db.Downsample.Scheduler.{
  DownsampleScheduler, cancel_found, submit, start_task, schedule_popped, schedule_loop,
  after_result,
}
use chono_db.Downsample.Run.{}

-- Whether there is a task and it is running.
unfoldable pub runs : Option DownsampleTask → Bool
runs none = false
runs (some task) = is_running task.status

abbrev pub IsOther : String → ScheduledTask → Type 0
IsOther id queued = queued.task.task_id ≢ id

-- The task neither runs nor waits in the queue.
pub record IsIdle (id : String) (s : DownsampleScheduler) : Type 0 where
  pub not_running : runs (lookup id s.all_tasks) ≡ false
  pub not_queued : All (IsOther id) s.task_queue

-- A task that does not run is put under the name `j`.
runs-insert :
    (id j : String) (task : DownsampleTask) (tasks : Assoc String DownsampleTask)
    → is_running task.status ≡ false
    → runs (lookup id tasks) ≡ false
    → runs (lookup id (insert j task tasks)) ≡ false
unfolding runs
runs-insert id j task tasks h old = elim (Bool-cases (text_key.same j id)) [
  | inl e ↦ rw (lookup-insert j id task tasks) (rw e h)
  | inr e ↦ rw (lookup-insert j id task tasks) (rw e old)
]

pub runs-insert_other :
    (id j : String) (task : DownsampleTask) (tasks : Assoc String DownsampleTask)
    → j ≢ id
    → runs (lookup id tasks) ≡ false
    → runs (lookup id (insert j task tasks)) ≡ false
runs-insert_other id j task tasks other old =
    rw (lookup-insert j id task tasks) (rw (same_ne j id other) old)

pub mark_cancelled_stops : (task : DownsampleTask) → is_running (mark_cancelled task).status ≡ false
unfolding mark_cancelled is_running
mark_cancelled_stops task = refl

pub expired_stops :
    (task : DownsampleTask)
    → is_running
        (if can_retry task then reset_for_retry task else mark_failed "Task timeout" task).status
      ≡ false
unfolding reset_for_retry mark_failed is_running
expired_stops task = ground arith

pub after_result_stops :
    (now : ℤ) (result : TaskResult) (task : DownsampleTask)
    → is_running (after_result now result task).status ≡ false
unfolding after_result reset_for_retry mark_completed mark_failed is_running
after_result_stops now result task = ground arith

submit-Idle :
    (id : String) (worker : WorkerTask) (s : DownsampleScheduler) (pool : Option WorkerPool)
    → IsIdle id s
    → IsIdle id (submit worker s pool).1
unfolding submit
submit-Idle id worker s none h = h
submit-Idle id worker s (some pool) h = elim (Bool-cases pool.is_open) [
  | inl e ↦ rw e (record { not_running = h.not_running; not_queued = h.not_queued })
  | inr e ↦ rw e h
]

pub cancel_found-Idle :
    (id j : String) (s : DownsampleScheduler) (task : Option DownsampleTask)
    → IsIdle id s
    → IsIdle id (cancel_found j s task).1
unfolding cancel_found
cancel_found-Idle id j s none h = h
cancel_found-Idle id j s (some task) h = elim (Bool-cases (is_terminal task.status)) [
  | inl e ↦ rw e h
  | inr e ↦ rw e (record {
    not_running =
        runs-insert id j (mark_cancelled task) s.all_tasks (mark_cancelled_stops task)
          h.not_running;
    not_queued = h.not_queued;
  })
]

start_task-Idle :
    (id : String) (now : ℤ) (queued : DownsampleTask) (s : DownsampleScheduler)
    (task : Option DownsampleTask)
    → queued.task_id ≢ id
    → IsIdle id s
    → IsIdle id (start_task now queued s task).1
unfolding start_task
start_task-Idle id now queued s none other h = h
start_task-Idle id now queued s (some task) other h =
    elim (Bool-cases (is_terminal task.status || is_running task.status)) [
      | inl e ↦ rw e h
      | inr e ↦ rw e (
          submit-Idle id _ _ s.worker_pool (record {
            not_running =
                runs-insert_other id queued.task_id (mark_running now task) s.all_tasks other
                  h.not_running;
            not_queued = h.not_queued;
          }))
    ]

on_ok-Idle :
    (id : String) (next : DownsampleScheduler → Result (Unit {0}) × DownsampleScheduler)
    (r : Result (Unit {0}) × DownsampleScheduler)
    → ((s : DownsampleScheduler) → IsIdle id s → IsIdle id (next s).1)
    → IsIdle id r.1
    → IsIdle id (on_ok next r).1
unfolding on_ok
on_ok-Idle id next (ok _, s) all h = all s h
on_ok-Idle id next (err reason, s) all h = h
on_ok-Idle id next (stuck, s) all h = h

pub schedule_loop-Idle :
    (id : String) (clock : ℕ → ℤ) (left : ℕ) (s : DownsampleScheduler)
    → IsIdle id s
    → IsIdle id (schedule_loop clock left s).1
unfolding schedule_loop schedule_popped
schedule_loop-Idle id clock zero s h = h
schedule_loop-Idle id clock (suc left) s h = elim (Option-cases (pop s.task_queue)) [
  | inl e ↦ rw (schedule_loop, e) h
  | inr ((queued, rest), e) ↦
      let others : AllPopped (IsOther id) (some (queued, rest)) =
        subst (AllPopped (IsOther id)) e (pop-All (IsOther id) s.task_queue h.not_queued) in
      rw (schedule_loop, e)
        (on_ok-Idle id (schedule_loop clock left) _ (schedule_loop-Idle id clock left) (
          start_task-Idle id (clock left) queued.task (record s { task_queue = rest })
            (lookup queued.task.task_id s.all_tasks) others.0
            (record { not_running = h.not_running; not_queued = others.1 })))
]

-- A change of one task that leaves it at rest.
pub put-Idle :
    (id j : String) (s : DownsampleScheduler) (old : Option DownsampleTask)
    (change : DownsampleTask → DownsampleTask) (runners : Assoc String (Unit {0}))
    → ((task : DownsampleTask) → is_running (change task).status ≡ false)
    → IsIdle id s
    → IsIdle id (record s {
      all_tasks = elim old [ none ↦ s.all_tasks | some task ↦ insert j (change task) s.all_tasks ];
      running_tasks = runners;
    })
put-Idle id j s none change runners still h = record {
  not_running = h.not_running;
  not_queued = h.not_queued;
}
put-Idle id j s (some task) change runners still h = record {
  not_running = runs-insert id j (change task) s.all_tasks (still task) h.not_running;
  not_queued = h.not_queued;
}
