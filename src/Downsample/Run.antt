-- ===== src/Downsample/Run.antt =====
-- storage/src/downsample/scheduler.rs: sequences of calls and of rounds of the loops of `start`.
use chono_db.Prelude.{ℕ, String, List, [], ◌∷◌}
use chono_db.Prelude.Int.{ℤ}
use chono_db.Downsample.Task.{DownsampleTask, TaskResult}
use chono_db.Downsample.Queue.{TaskPriority}
use chono_db.Downsample.Scheduler.{
  DownsampleScheduler, start, stop, submit_task, cancel_task, schedule_tasks, check_timeouts,
  handle_task_result,
}

-- What callers and the three loops do, at the times they read.
pub data Event : Type 0 where
  starts stops : Event
  submits : ℤ → TaskPriority → DownsampleTask → Event
  cancels : String → Event
  schedules : (ℕ → ℤ) → Event
  checks : ℤ → Event
  reports : ℤ → TaskResult → Event

unfoldable pub step : Event → DownsampleScheduler → DownsampleScheduler
unfolding start stop submit_task cancel_task schedule_tasks check_timeouts handle_task_result
step starts s = start s
step stops s = stop s
step (submits now p task) s = (submit_task now p task s).1
step (cancels id) s = (cancel_task id s).1
step (schedules clock) s = (schedule_tasks clock s).1
step (checks now) s = check_timeouts now s
step (reports now result) s = handle_task_result now result s

unfoldable pub run : List Event → DownsampleScheduler → DownsampleScheduler
unfolding step
run [] s = s
run (event ∷ events) s = run events (step event s)
