-- ===== src/Downsample/Order.antt =====
-- A round of the scheduler takes the most urgent task.
use chono_db.Prelude.{
  ◌<◌, ◌≡◌, ◌≢◌, ◌⊎◌, refl, sym, ◌∙◌, ap, arith, String, Bool, true, false, Option, none, some,
  List, [], ◌∷◌, All, Bool-cases, inl, inr, count, subst, ◌||◌,
}
use chono_db.Prelude.Assoc.{text_key, lookup, insert, lookup-insert, same_ne, same_self}
use chono_db.Prelude.Int.{ℤ, ◌≤ℤ◌}
use chono_db.Error.{Result}
use chono_db.Downsample.Task.{DownsampleTask, is_terminal, is_running, mark_running}
use chono_db.Downsample.Queue.{ScheduledTask, is_greater, pick, pop, rank}
use chono_db.Downsample.Worker.{WorkerTask, WorkerPool, worker_task}
use chono_db.Downsample.Scheduler.{DownsampleScheduler, submit, start_task, schedule_popped}

-- `x` has the higher priority, or the same one and came no later.
abbrev pub IsFirst : ScheduledTask → ScheduledTask → Type 0
IsFirst x y =
    (rank y.priority < rank x.priority)
    ⊎ ((rank y.priority ≡ rank x.priority) × (x.enqueue_time ≤ℤ y.enqueue_time))

IsFirst-trans : (x y z : ScheduledTask) → IsFirst x y → IsFirst y z → IsFirst x z
IsFirst-trans x y z (inl h) (inl h') = inl (omega arith)
IsFirst-trans x y z (inl h) (inr h') = inl (omega (arith, h'.0))
IsFirst-trans x y z (inr h) (inl h') = inl (omega (arith, h.0))
IsFirst-trans x y z (inr h) (inr h') = inr (omega (arith, h.0, h'.0), omega (arith, h.1, h'.1))

not_greater-IsFirst : (x y : ScheduledTask) → is_greater y x ≡ false → IsFirst x y
unfolding is_greater
not_greater-IsFirst x y h = ground arith

is_greater-IsFirst : (x y : ScheduledTask) → is_greater x y ≡ true → IsFirst x y
unfolding is_greater
is_greater-IsFirst x y h = ground arith

All-IsFirst :
    (x y : ScheduledTask) (xs : List ScheduledTask)
    → IsFirst x y
    → All (IsFirst y) xs
    → All (IsFirst x) xs
All-IsFirst x y [] h hs = tt
All-IsFirst x y (z ∷ xs) h (h', hs) = (IsFirst-trans x y z h h', All-IsFirst x y xs h hs)

-- A taken task comes before those that stay, and together they are the queue, in whatever order.
abbrev IsTaken : List ScheduledTask → Option (ScheduledTask × List ScheduledTask) → Type 0
IsTaken queue none = queue ≡ []
IsTaken queue (some (x, rest)) =
    All (IsFirst x) rest × ((p : ScheduledTask → Bool) → count p (x ∷ rest) ≡ count p queue)

pick-IsTaken :
    (x : ScheduledTask) (xs : List ScheduledTask)
    (popped : Option (ScheduledTask × List ScheduledTask))
    → IsTaken xs popped
    → IsTaken (x ∷ xs) (pick x popped)
unfolding pick
pick-IsTaken x xs none empty = (tt, λ p. rw empty refl)
pick-IsTaken x xs (some (y, rest)) (first, same) = elim (Bool-cases (is_greater y x)) [
  | inl e ↦ rw e ((is_greater-IsFirst y x e, first), λ p. omega (arith, same p))
  | inr e ↦
      let before = not_greater-IsFirst x y e in
      rw e ((before, All-IsFirst x y rest before first), λ p. omega (arith, same p))
]

pop-IsTaken : (queue : List ScheduledTask) → IsTaken queue (pop queue)
unfolding pop
pop-IsTaken [] = refl
pop-IsTaken (x ∷ xs) = pick-IsTaken x xs (pop xs) (pop-IsTaken xs)

submit_keeps :
    (worker : WorkerTask) (s : DownsampleScheduler) (pool : Option WorkerPool)
    → ((submit worker s pool).1.task_queue ≡ s.task_queue)
      × ((submit worker s pool).1.all_tasks ≡ s.all_tasks)
unfolding submit
submit_keeps worker s none = (refl, refl)
submit_keeps worker s (some pool) = (ground arith, ground arith)

-- What a round makes of the tasks: only the taken one changes, to a running one if it was waiting.
pub record Starts (now : ℤ) (queued : DownsampleTask) (s s' : DownsampleScheduler) : Type 0 where
  pub same_queue : s'.task_queue ≡ s.task_queue
  pub others : (id : String) → queued.task_id ≢ id → lookup id s'.all_tasks ≡ lookup id s.all_tasks
  pub marked :
      (task : DownsampleTask)
      → lookup queued.task_id s.all_tasks ≡ some task
      → (is_terminal task.status || is_running task.status) ≡ false
      → lookup queued.task_id s'.all_tasks ≡ some (mark_running now task)

start_task-Starts :
    (now : ℤ) (queued : DownsampleTask) (s : DownsampleScheduler) (found : Option DownsampleTask)
    → lookup queued.task_id s.all_tasks ≡ found
    → Starts now queued s (start_task now queued s found).1
unfolding start_task
start_task-Starts now queued s none e = record {
  same_queue = refl;
  others = λ id other. refl;
  marked = λ task there waits. cc (e, there);
}
start_task-Starts now queued s (some found) e =
    elim (Bool-cases (is_terminal found.status || is_running found.status)) [
      | inl ended ↦ rw ended (record {
        same_queue = refl;
        others = λ id other. refl;
        marked = λ task there waits.
            let same : some found ≡ some task = sym e ∙ there in cc (same, ended, waits);
      })
      | inr waiting ↦
          let state = record s {
            all_tasks = insert queued.task_id (mark_running now found) s.all_tasks;
            running_tasks = insert queued.task_id tt s.running_tasks;
          } in
          let (queue_kept, tasks_kept) = submit_keeps (worker_task queued) state s.worker_pool in
          rw waiting (record {
            same_queue = queue_kept;
            others = λ id other.
                ap (lookup id) tasks_kept
                ∙ lookup-insert queued.task_id id (mark_running now found) s.all_tasks
                ∙ rw (same_ne queued.task_id id other) refl;
            marked = λ task there waits.
                let same : found ≡ task =
                  let both : some found ≡ some task = sym e ∙ there in cc both in
                ap (lookup queued.task_id) tasks_kept
                ∙ lookup-insert queued.task_id queued.task_id (mark_running now found) s.all_tasks
                ∙ rw (same_self queued.task_id) (ap (λ t. some (mark_running now t)) same);
          })
    ]

-- What is proved of a round that takes `first` from the queue.
pub record TakesFirst (now : ℤ) (s s' : DownsampleScheduler) (first : ScheduledTask) : Type 0 where
  pub before_rest : All (IsFirst first) s'.task_queue
  pub same_tasks :
      (p : ScheduledTask → Bool) → count p (first ∷ s'.task_queue) ≡ count p s.task_queue
  pub others :
      (id : String) → first.task.task_id ≢ id → lookup id s'.all_tasks ≡ lookup id s.all_tasks
  pub marked :
      (task : DownsampleTask)
      → lookup first.task.task_id s.all_tasks ≡ some task
      → (is_terminal task.status || is_running task.status) ≡ false
      → lookup first.task.task_id s'.all_tasks ≡ some (mark_running now task)

round_of_taken :
    (now : ℤ) (s : DownsampleScheduler) (popped : Option (ScheduledTask × List ScheduledTask))
    (r : Result (Unit {0}) × DownsampleScheduler)
    → IsTaken s.task_queue popped
    → schedule_popped now s popped ≡ some r
    → (first : ScheduledTask) × TakesFirst now s r.1 first
unfolding schedule_popped
round_of_taken now s none r taken e = cc e
round_of_taken now s (some (first, rest)) r (before, same) e =
    let left = record s { task_queue = rest } in
    let found = lookup first.task.task_id s.all_tasks in
    let starts = start_task-Starts now first.task left found refl in
    let result : start_task now first.task left found ≡ r = cc e in
    (
      first,
      subst (λ (q : Result (Unit {0}) × DownsampleScheduler). TakesFirst now s q.1 first) result
          (record {
            before_rest = rw starts.same_queue before;
            same_tasks = λ p. rw starts.same_queue (same p);
            others = starts.others;
            marked = starts.marked;
          }),
    )

-- A round of `schedule_tasks` takes from the queue a task of the highest priority there, and of those
-- one that was queued no later than any other; it leaves the other queued tasks in the queue, marks the
-- taken task as running if it waits, and changes no other task.
pub round-TakesFirst :
    (now : ℤ) (s : DownsampleScheduler) (r : Result (Unit {0}) × DownsampleScheduler)
    → schedule_popped now s (pop s.task_queue) ≡ some r
    → (first : ScheduledTask) × TakesFirst now s r.1 first
round-TakesFirst now s r e = round_of_taken now s (pop s.task_queue) r (pop-IsTaken s.task_queue) e
