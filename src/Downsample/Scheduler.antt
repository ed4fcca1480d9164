-- ===== src/Downsample/Scheduler.antt =====
-- storage/src/downsample/scheduler.rs: `DownsampleScheduler`. A handler runs alone; what its loops
-- react to are events.
use chono_db.Prelude.{
  ℕ, zero, suc, ◌-◌, String, Bool, true, false, ◌||◌, Option, none, some, List, [], ◌∷◌, ◌++◌,
  length, leb, if◌then◌else◌,
}
use chono_db.Prelude.Assoc.{text_key, Assoc, lookup, insert, remove}
use chono_db.Prelude.Int.{ℤ}
use chono_db.Error.{Result, ok, err, internal, on_ok}
use chono_db.Downsample.Task.{
  DownsampleTask, TaskResult, is_terminal, is_running, mark_running, mark_completed, mark_failed,
  mark_cancelled, can_retry, reset_for_retry, is_timeout,
}
use chono_db.Downsample.Worker.{WorkerTask, WorkerPool, worker_task}
use chono_db.Downsample.Queue.{ScheduledTask, TaskPriority, pop}

-- The set of the running tasks is a map to the unit.
pub record DownsampleScheduler : Type 0 where
  pub task_queue : List ScheduledTask
  pub running_tasks : Assoc String (Unit {0})
  pub all_tasks : Assoc String DownsampleTask
  pub worker_pool : Option WorkerPool
  pub concurrency : ℕ
  pub is_running : Bool

unfoldable pub new : ℕ → DownsampleScheduler
new c = record {
  task_queue = [];
  running_tasks = [];
  all_tasks = [];
  worker_pool = none;
  concurrency = c;
  is_running = false;
}

unfoldable pub start : DownsampleScheduler → DownsampleScheduler
start s =
    if s.is_running
    then s
    else record s { is_running = true; worker_pool = some (record { is_open = true; sent = [] }) }

unfoldable pub stop : DownsampleScheduler → DownsampleScheduler
stop s = if s.is_running then record s { is_running = false; worker_pool = none } else s

unfoldable pub submit_task :
    ℤ → TaskPriority → DownsampleTask → DownsampleScheduler → String × DownsampleScheduler
submit_task now p task s = (
  task.task_id,
  record s {
    all_tasks = insert task.task_id task s.all_tasks;
    task_queue = record { task = task; priority = p; enqueue_time = now } ∷ s.task_queue;
  },
)

unfoldable pub cancel_found :
    String → DownsampleScheduler → Option DownsampleTask → Bool × DownsampleScheduler
cancel_found id s none = (false, s)
cancel_found id s (some task) = if is_terminal task.status then (false, s) else (
  true,
  record s {
    all_tasks = insert id (mark_cancelled task) s.all_tasks;
    running_tasks = remove id s.running_tasks;
  },
)

unfoldable pub cancel_task : String → DownsampleScheduler → Bool × DownsampleScheduler
unfolding cancel_found
cancel_task id s = cancel_found id s (lookup id s.all_tasks)

-- `pool.submit(worker_task).await?`, where there is a pool.
unfoldable pub submit :
    WorkerTask → DownsampleScheduler → Option WorkerPool → Result (Unit {0}) × DownsampleScheduler
submit worker s none = (ok tt, s)
submit worker s (some pool) =
    if pool.is_open
    then (
      ok tt,
      record s { worker_pool = some (record pool { sent = pool.sent ++ (worker ∷ []) }) },
    )
    else (err (internal "Failed to submit task"), s)

unfoldable pub start_task :
    ℤ
    → DownsampleTask
    → DownsampleScheduler
    → Option DownsampleTask
    → Result (Unit {0}) × DownsampleScheduler
unfolding submit worker_task
start_task now queued s none = (ok tt, s)
start_task now queued s (some task) =
    if is_terminal task.status || is_running task.status
    then (ok tt, s)
    else submit (worker_task queued)
        (record s {
          all_tasks = insert queued.task_id (mark_running now task) s.all_tasks;
          running_tasks = insert queued.task_id tt s.running_tasks;
        })
        s.worker_pool

-- A round of the loop of `schedule_tasks`; `none` leaves the loop.
unfoldable pub schedule_popped :
    ℤ
    → DownsampleScheduler
    → Option (ScheduledTask × List ScheduledTask)
    → Option (Result (Unit {0}) × DownsampleScheduler)
unfolding start_task
schedule_popped now s none = none
schedule_popped now s (some (queued, rest)) = some (
    start_task now queued.task (record s { task_queue = rest })
      (lookup queued.task.task_id s.all_tasks))

-- The rounds that are left number the readings of the clock.
unfoldable pub schedule_loop :
    (ℕ → ℤ) → ℕ → DownsampleScheduler → Result (Unit {0}) × DownsampleScheduler
unfolding schedule_popped
schedule_loop clock zero s = (ok tt, s)
schedule_loop clock (suc left) s = elim (schedule_popped (clock left) s (pop s.task_queue)) [
  | none ↦ (ok tt, s)
  | some round ↦ on_ok (schedule_loop clock left) round
]

unfoldable pub schedule_tasks :
    (ℕ → ℤ) → DownsampleScheduler → Result (Unit {0}) × DownsampleScheduler
unfolding schedule_loop
schedule_tasks clock s =
    if leb s.concurrency (length s.running_tasks)
    then (ok tt, s)
    else schedule_loop clock (s.concurrency - length s.running_tasks) s

unfoldable pub timed_out : ℤ → Assoc String DownsampleTask → List String
timed_out now [] = []
timed_out now ((id, task) ∷ tasks) =
    let rest = timed_out now tasks in
    if is_running task.status then (if is_timeout now task then id ∷ rest else rest) else rest

unfoldable pub expire : String → DownsampleScheduler → DownsampleScheduler
expire id s = record s {
  all_tasks = elim (lookup id s.all_tasks) [
    | none ↦ s.all_tasks
    | some task ↦
        insert id (if can_retry task then reset_for_retry task else mark_failed "Task timeout" task)
          s.all_tasks
  ];
  running_tasks = remove id s.running_tasks;
}

unfoldable pub expire_all : List String → DownsampleScheduler → DownsampleScheduler
unfolding expire
expire_all [] s = s
expire_all (id ∷ ids) s = expire_all ids (expire id s)

unfoldable pub check_timeouts : ℤ → DownsampleScheduler → DownsampleScheduler
unfolding timed_out expire_all
check_timeouts now s = expire_all (timed_out now s.all_tasks) s

unfoldable pub message_of : TaskResult → String
message_of result = elim result.error [ none ↦ "Unknown error" | some text ↦ text ]

unfoldable pub after_result : ℤ → TaskResult → DownsampleTask → DownsampleTask
unfolding message_of
after_result now result task =
    if result.success
    then mark_completed now result.samples_processed result.samples_generated task
    else if can_retry task
    then reset_for_retry (mark_failed (message_of result) task)
    else mark_failed (message_of result) task

unfoldable pub handle_task_result : ℤ → TaskResult → DownsampleScheduler → DownsampleScheduler
unfolding after_result
handle_task_result now result s = record s {
  all_tasks = elim (lookup result.task_id s.all_tasks) [
    | none ↦ s.all_tasks
    | some task ↦ insert result.task_id (after_result now result task) s.all_tasks
  ];
  running_tasks = remove result.task_id s.running_tasks;
}
