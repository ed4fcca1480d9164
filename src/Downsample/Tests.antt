-- ===== src/Downsample/Tests.antt =====
-- A scheduler for one task at a time, and the theorems at concrete inputs.
use chono_db.Prelude.{◌≡◌, refl, true, false, none, some, List, [], ◌∷◌}
use chono_db.Prelude.Assoc.{text_key, lookup, insert}
use chono_db.Prelude.Int.{pos}
use chono_db.Error.{on_ok}
use chono_db.ColumnStore.Level.{l0, l1}
use chono_db.Downsample.Task.{
  DownsampleTask, TaskResult, failed, pending, is_terminal, is_running, mark_running, mark_failed,
  can_retry, is_failed,
}
use chono_db.Downsample.Queue.{ScheduledTask, low, high, pick, pop, is_greater, rank}
use chono_db.Downsample.Scheduler.{
  DownsampleScheduler, start, submit_task, schedule_tasks, schedule_loop, schedule_popped,
  start_task, handle_task_result, after_result, check_timeouts, timed_out, expire, expire_all,
}
use chono_db.Downsample.Scheduler as Scheduler
use chono_db.Downsample.Run.{Event, starts, submits, schedules, checks, step, run}
use chono_db.Downsample.Limit.{IsLimited}
use chono_db.Downsample.Counted.{IsCounted, running-IsCounted}
use chono_db.Downsample.Order.{TakesFirst, round-TakesFirst}
use chono_db.Downsample.Idle.{runs}
use chono_db.Downsample.Retry.{result_is_final}

abbrev task_a : DownsampleTask
task_a = record {
  task_id = "a";
  target_level = l1;
  source_level = l0;
  start_time = pos 0;
  end_time = pos 1000;
  series_ids = none;
  status = pending;
  created_at = pos 5;
  started_at = none;
  completed_at = none;
  samples_processed = 0;
  samples_generated = 0;
  error_message = none;
  retry_count = 0;
  config = record { timeout = 10; max_retries = 3; batch_size = 1; concurrency = 1 };
}

abbrev task_b : DownsampleTask
task_b = record task_a { task_id = "b" }

abbrev failure_a : TaskResult
failure_a = record {
  task_id = "a";
  success = false;
  samples_processed = 0;
  samples_generated = 0;
  error = none;
  duration_ms = pos 3;
}

-- `b` comes later with the higher priority, and takes the only place.
abbrev events : List Event
events =
    starts ∷ submits (pos 5) low task_a ∷ submits (pos 6) high task_b ∷ schedules (λ n. pos 7) ∷ []

abbrev queued_a : ScheduledTask
queued_a = record { task = task_a; priority = low; enqueue_time = pos 5 }

abbrev queued_b : ScheduledTask
queued_b = record { task = task_b; priority = high; enqueue_time = pos 6 }

b_first : pop (queued_a ∷ queued_b ∷ []) ≡ some (queued_b, queued_a ∷ [])
unfolding pop is_greater rank
b_first = refl

abbrev waiting : DownsampleScheduler
waiting = record (Scheduler.new 1) {
  task_queue = queued_a ∷ queued_b ∷ [];
  all_tasks = ("a", task_a) ∷ ("b", task_b) ∷ [];
}

round-TakesFirst_example :
    (first : ScheduledTask) × TakesFirst
      (pos 7)
      waiting
      (start_task (pos 7) task_b (record waiting { task_queue = queued_a ∷ [] }) (some task_b)).1
      first
unfolding Scheduler.new
round-TakesFirst_example =
    round-TakesFirst (pos 7) waiting
      (start_task (pos 7) task_b (record waiting { task_queue = queued_a ∷ [] }) (some task_b))
      (unfold schedule_popped pop pick is_greater rank lookup Scheduler.new in refl)

running-IsCounted_example :
    IsLimited 1 (run events (Scheduler.new 1)) × IsCounted (run events (Scheduler.new 1))
running-IsCounted_example =
    running-IsCounted events 1
      (tt, (unfold is_running in refl, (unfold is_running in refl, (tt, tt))))

b_runs : runs (lookup "b" (run events (Scheduler.new 1)).all_tasks) ≡ true
unfolding runs lookup run step start submit_task schedule_tasks schedule_loop schedule_popped
    Scheduler.new pop is_greater on_ok insert is_terminal is_running mark_running
b_runs = refl

abbrev one_running : DownsampleScheduler
one_running =
    run (starts ∷ submits (pos 5) low task_a ∷ schedules (λ n. pos 7) ∷ []) (Scheduler.new 1)

-- After its first failure the task has two retries left, and is in no queue.
fails_once :
    lookup "a" (handle_task_result (pos 9) failure_a one_running).all_tasks
    ≡ some (record task_a {
      status = failed;
      started_at = some (pos 7);
      error_message = some "Unknown error";
      retry_count = 1;
    })
unfolding lookup run step start submit_task schedule_tasks schedule_loop schedule_popped
    Scheduler.new pop on_ok insert is_terminal is_running mark_running handle_task_result
    after_result can_retry mark_failed is_failed
fails_once = refl

result_is_final_example :
    runs (
      lookup "a"
        (run
          (schedules (λ n. pos 8) ∷ checks (pos 9) ∷ schedules (λ n. pos 10) ∷ [])
          (handle_task_result (pos 9) failure_a one_running)).all_tasks)
    ≡ false
unfolding run step start submit_task schedule_tasks schedule_loop schedule_popped Scheduler.new pop
    on_ok insert lookup is_terminal is_running mark_running
result_is_final_example =
    result_is_final (pos 9) failure_a
      (schedules (λ n. pos 8) ∷ checks (pos 9) ∷ schedules (λ n. pos 10) ∷ []) one_running tt
      (tt, (tt, (tt, tt)))
