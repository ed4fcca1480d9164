-- ===== src/Downsample/Retry.antt =====
-- storage/src/downsample/scheduler.rs: what becomes of a task after its result.
use chono_db.Prelude.{
  ◌-◌, length, leb, ◌≡◌, ◌≢◌, refl, String, Bool, true, false, Option, none, some, List, [], ◌∷◌,
  All, if◌then◌else◌,
}
use chono_db.Prelude.Assoc.{text_key, Assoc, lookup, insert, lookup-insert, same_self}
use chono_db.Prelude.Int.{ℤ}
use chono_db.Error.{Result}
use chono_db.Downsample.Task.{DownsampleTask, TaskResult, is_running}
use chono_db.Downsample.Scheduler.{
  DownsampleScheduler, start, stop, submit_task, cancel_task, schedule_tasks, expire, expire_all,
  check_timeouts, timed_out, handle_task_result, after_result,
}
use chono_db.Downsample.Run.{
  Event, step, run, starts, stops, submits, cancels, schedules, checks, reports,
}
use chono_db.Downsample.Idle.{
  runs, IsOther, IsIdle, runs-insert_other, expired_stops, after_result_stops, cancel_found-Idle,
  schedule_loop-Idle, put-Idle,
}

expire-Idle : (id j : String) (s : DownsampleScheduler) → IsIdle id s → IsIdle id (expire j s)
unfolding expire
expire-Idle id j s h = put-Idle id j s (lookup j s.all_tasks) _ _ expired_stops h

expire_all-Idle :
    (id : String) (ids : List String) (s : DownsampleScheduler)
    → IsIdle id s
    → IsIdle id (expire_all ids s)
unfolding expire_all
expire_all-Idle id [] s h = h
expire_all-Idle id (j ∷ ids) s h = expire_all-Idle id ids (expire j s) (expire-Idle id j s h)

-- The event submits no task of that name.
abbrev pub IsNotSubmitted : String → Event → Type 0
IsNotSubmitted id starts = Unit {0}
IsNotSubmitted id stops = Unit {0}
IsNotSubmitted id (submits now p task) = task.task_id ≢ id
IsNotSubmitted id (cancels j) = Unit {0}
IsNotSubmitted id (schedules clock) = Unit {0}
IsNotSubmitted id (checks now) = Unit {0}
IsNotSubmitted id (reports now result) = Unit {0}

if_Idle :
    {id : String} {s s' : DownsampleScheduler} (b : Bool)
    → IsIdle id s
    → IsIdle id s'
    → IsIdle id (if b then s else s')
if_Idle true h h' = h
if_Idle false h h' = h'

if_fst_Idle :
    {id : String} (b : Bool) (r r' : Result (Unit {0}) × DownsampleScheduler)
    → IsIdle id r.1
    → IsIdle id r'.1
    → IsIdle id (if b then r else r').1
if_fst_Idle true r r' h h' = h
if_fst_Idle false r r' h h' = h'

step-Idle :
    (id : String) (event : Event) (s : DownsampleScheduler)
    → IsNotSubmitted id event
    → IsIdle id s
    → IsIdle id (step event s)
unfolding step start stop submit_task cancel_task schedule_tasks check_timeouts handle_task_result
step-Idle id starts s other h =
    if_Idle s.is_running h (record { not_running = h.not_running; not_queued = h.not_queued })
step-Idle id stops s other h =
    if_Idle s.is_running (record { not_running = h.not_running; not_queued = h.not_queued }) h
step-Idle id (submits now p task) s other h = record {
  not_running = runs-insert_other id task.task_id task s.all_tasks other h.not_running;
  not_queued = (other, h.not_queued);
}
step-Idle id (cancels j) s other h = cancel_found-Idle id j s (lookup j s.all_tasks) h
step-Idle id (schedules clock) s other h =
    if_fst_Idle (leb s.concurrency (length s.running_tasks)) _ _ h
      (schedule_loop-Idle id clock (s.concurrency - length s.running_tasks) s h)
step-Idle id (checks now) s other h = expire_all-Idle id (timed_out now s.all_tasks) s h
step-Idle id (reports now result) s other h =
    put-Idle id result.task_id s (lookup result.task_id s.all_tasks) (after_result now result) _
      (after_result_stops now result) h

run-Idle :
    (id : String) (events : List Event) (s : DownsampleScheduler)
    → All (IsNotSubmitted id) events
    → IsIdle id s
    → IsIdle id (run events s)
unfolding run
run-Idle id [] s others h = h
run-Idle id (event ∷ events) s (other, others) h =
    run-Idle id events (step event s) others (step-Idle id event s other h)

put_stops :
    (j : String) (tasks : Assoc String DownsampleTask) (old : Option DownsampleTask)
    (change : DownsampleTask → DownsampleTask)
    → ((task : DownsampleTask) → is_running (change task).status ≡ false)
    → lookup j tasks ≡ old
    → runs (lookup j (elim old [ none ↦ tasks | some task ↦ insert j (change task) tasks ])) ≡ false
unfolding runs
put_stops j tasks none change still e = rw e refl
put_stops j tasks (some task) change still e =
    rw (lookup-insert j j (change task) tasks, same_self j) (still task)

handle_task_result-Idle :
    (now : ℤ) (result : TaskResult) (s : DownsampleScheduler)
    → All (IsOther result.task_id) s.task_queue
    → IsIdle result.task_id (handle_task_result now result s)
unfolding handle_task_result
handle_task_result-Idle now result s others = record {
  not_running =
      put_stops result.task_id s.all_tasks (lookup result.task_id s.all_tasks)
        (after_result now result) (after_result_stops now result) refl;
  not_queued = others;
}

-- A result ends a task for good, a failure like a success: a task whose name is not in the queue does
-- not run after its result, nor after any calls and rounds behind it that submit no task of that name,
-- however many retries its configuration allows.
pub result_is_final :
    (now : ℤ) (result : TaskResult) (events : List Event) (s : DownsampleScheduler)
    → All (IsOther result.task_id) s.task_queue
    → All (IsNotSubmitted result.task_id) events
    → runs (lookup result.task_id (run events (handle_task_result now result s)).all_tasks) ≡ false
result_is_final now result events s others unsubmitted =
    (run-Idle result.task_id events (handle_task_result now result s) unsubmitted
      (handle_task_result-Idle now result s others)).not_running
