-- ===== src/Downsample/Limit.antt =====
-- No more names stand in `running_tasks` than the scheduler is made for.
use chono_db.Prelude.{
  ℕ, zero, suc, ◌+◌, ◌-◌, ◌≤◌, ◌≡◌, refl, arith, String, Option, none, some, List, [], ◌∷◌, length,
  leb, Bool-cases, Option-cases, inl, inr, ◌||◌,
}
use chono_db.Prelude.Assoc.{text_key, lookup, length-insert, length-remove}
use chono_db.Prelude.Int.{ℤ}
use chono_db.Error.{Result, ok, err, stuck, on_ok}
use chono_db.Downsample.Task.{DownsampleTask, is_terminal, is_running}
use chono_db.Downsample.Queue.{pop}
use chono_db.Downsample.Worker.{WorkerTask, WorkerPool}
use chono_db.Downsample.Scheduler.{
  DownsampleScheduler, new, start, stop, submit_task, cancel_task, cancel_found, submit, start_task,
  schedule_popped, schedule_loop, schedule_tasks, expire, expire_all, check_timeouts,
  handle_task_result, timed_out,
}
use chono_db.Downsample.Run.{
  Event, step, run, starts, stops, submits, cancels, schedules, checks, reports,
}

-- The state after `s` may hold `more` names of running tasks more.
record Grows (more : ℕ) (s s' : DownsampleScheduler) : Type 0 where
  pub running_le : length s'.running_tasks ≤ more + length s.running_tasks
  pub same_limit : s'.concurrency ≡ s.concurrency

Grows-refl : (s : DownsampleScheduler) → Grows 0 s s
Grows-refl s = record { running_le = omega arith; same_limit = refl }

Grows-trans :
    {n m : ℕ} {s s' s'' : DownsampleScheduler} → Grows n s s' → Grows m s' s'' → Grows (m + n) s s''
Grows-trans p q = record {
  running_le = omega (arith, p.running_le, q.running_le);
  same_limit = omega (arith, p.same_limit, q.same_limit);
}

Grows-more : {n m : ℕ} {s s' : DownsampleScheduler} → n ≤ m → Grows n s s' → Grows m s s'
Grows-more h p = record { running_le = omega (arith, p.running_le); same_limit = p.same_limit }

submit-Grows :
    (worker : WorkerTask) (s : DownsampleScheduler) (pool : Option WorkerPool)
    → Grows 0 s (submit worker s pool).1
unfolding submit
submit-Grows worker s none = Grows-refl s
submit-Grows worker s (some pool) = record { running_le = ground arith; same_limit = ground arith }

cancel_found-Grows :
    (id : String) (s : DownsampleScheduler) (task : Option DownsampleTask)
    → Grows 0 s (cancel_found id s task).1
unfolding cancel_found
cancel_found-Grows id s none = Grows-refl s
cancel_found-Grows id s (some task) = record {
  running_le = ground (arith, length-remove id s.running_tasks);
  same_limit = ground arith;
}

start_task-Grows :
    (now : ℤ) (queued : DownsampleTask) (s : DownsampleScheduler) (task : Option DownsampleTask)
    → Grows 1 s (start_task now queued s task).1
unfolding start_task
start_task-Grows now queued s none = Grows-more (omega arith) (Grows-refl s)
start_task-Grows now queued s (some task) =
    elim (Bool-cases (is_terminal task.status || is_running task.status)) [
      | inl e ↦ rw e (Grows-more (omega arith) (Grows-refl s))
      | inr e ↦ rw e (
          Grows-trans {n = 1} {m = 0}
            (record {
              running_le = ground (arith, length-insert queued.task_id tt s.running_tasks);
              same_limit = refl;
            })
            (submit-Grows _ _ s.worker_pool))
    ]

on_ok-Grows :
    {n m : ℕ} (next : DownsampleScheduler → Result (Unit {0}) × DownsampleScheduler)
    (s : DownsampleScheduler) (r : Result (Unit {0}) × DownsampleScheduler)
    → ((s' : DownsampleScheduler) → Grows m s' (next s').1)
    → Grows n s r.1
    → Grows (m + n) s (on_ok next r).1
unfolding on_ok
on_ok-Grows next s (ok _, s') all first = Grows-trans first (all s')
on_ok-Grows next s (err reason, s') all first = Grows-more (omega arith) first
on_ok-Grows next s (stuck, s') all first = Grows-more (omega arith) first

schedule_loop-Grows :
    (clock : ℕ → ℤ) (left : ℕ) (s : DownsampleScheduler)
    → Grows left s (schedule_loop clock left s).1
unfolding schedule_loop schedule_popped
schedule_loop-Grows clock zero s = Grows-refl s
schedule_loop-Grows clock (suc left) s = elim (Option-cases (pop s.task_queue)) [
  | inl e ↦ rw (schedule_loop, e) (Grows-more (omega arith) (Grows-refl s))
  | inr ((queued, rest), e) ↦
      let queue_left = record s { task_queue = rest } in
      let first : Grows 1 queue_left
          (start_task (clock left) queued.task queue_left
            (lookup queued.task.task_id s.all_tasks)).1 =
        start_task-Grows (clock left) queued.task queue_left
          (lookup queued.task.task_id s.all_tasks) in
      rw (schedule_loop, e)
        (Grows-more {n = left + 1} (omega arith) (
          on_ok-Grows (schedule_loop clock left) s _ (schedule_loop-Grows clock left)
            (record { running_le = first.running_le; same_limit = first.same_limit })))
]

expire_all-Grows : (ids : List String) (s : DownsampleScheduler) → Grows 0 s (expire_all ids s)
unfolding expire_all expire
expire_all-Grows [] s = Grows-refl s
expire_all-Grows (id ∷ ids) s =
    Grows-trans {n = 0} {m = 0}
      (record { running_le = omega (arith, length-remove id s.running_tasks); same_limit = refl })
      (expire_all-Grows ids (expire id s))

-- A scheduler made for `c` tasks holds no more names of running ones.
pub record IsLimited (c : ℕ) (s : DownsampleScheduler) : Type 0 where
  pub made_for : s.concurrency ≡ c
  pub running_le : length s.running_tasks ≤ c

Grows-IsLimited :
    {c : ℕ} {s s' : DownsampleScheduler} → Grows 0 s s' → IsLimited c s → IsLimited c s'
Grows-IsLimited grows h = record {
  made_for = omega (arith, grows.same_limit, h.made_for);
  running_le = omega (arith, grows.running_le, h.running_le);
}

schedule_tasks-IsLimited :
    (clock : ℕ → ℤ) (c : ℕ) (s : DownsampleScheduler)
    → IsLimited c s
    → IsLimited c (schedule_tasks clock s).1
unfolding schedule_tasks
schedule_tasks-IsLimited clock c s h =
    elim (Bool-cases (leb s.concurrency (length s.running_tasks))) [
      | inl e ↦ rw e h
      | inr e ↦
          let grows = schedule_loop-Grows clock (s.concurrency - length s.running_tasks) s in
          rw e (record {
            made_for = omega (arith, grows.same_limit, h.made_for);
            running_le = ground (arith, grows.running_le, h.made_for, h.running_le);
          })
    ]

step-IsLimited :
    (event : Event) (c : ℕ) (s : DownsampleScheduler) → IsLimited c s → IsLimited c (step event s)
unfolding step start stop submit_task cancel_task check_timeouts handle_task_result
step-IsLimited starts c s h = record {
  made_for = ground (arith, h.made_for);
  running_le = ground (arith, h.running_le);
}
step-IsLimited stops c s h = record {
  made_for = ground (arith, h.made_for);
  running_le = ground (arith, h.running_le);
}
step-IsLimited (submits now p task) c s h = record {
  made_for = h.made_for;
  running_le = h.running_le;
}
step-IsLimited (cancels id) c s h =
    Grows-IsLimited (cancel_found-Grows id s (lookup id s.all_tasks)) h
step-IsLimited (schedules clock) c s h = schedule_tasks-IsLimited clock c s h
step-IsLimited (checks now) c s h =
    Grows-IsLimited (expire_all-Grows (timed_out now s.all_tasks) s) h
step-IsLimited (reports now result) c s h = record {
  made_for = h.made_for;
  running_le = omega (arith, length-remove result.task_id s.running_tasks, h.running_le);
}

run-IsLimited :
    (events : List Event) (c : ℕ) (s : DownsampleScheduler)
    → IsLimited c s
    → IsLimited c (run events s)
unfolding run
run-IsLimited [] c s h = h
run-IsLimited (event ∷ events) c s h =
    run-IsLimited events c (step event s) (step-IsLimited event c s h)

pub run-new-IsLimited : (events : List Event) (c : ℕ) → IsLimited c (run events (new c))
unfolding new
run-new-IsLimited events c =
    run-IsLimited events c (new c) (record { made_for = refl; running_le = omega arith })
