-- ===== src/Downsample/Places.antt =====
-- The running tasks and the places that they take, under the changes of one task.
use chono_db.Prelude.{
  ◌≡◌, refl, String, true, false, Option, none, some, is_some, Bool-cases, inl, inr,
}
use chono_db.Prelude.Assoc.{text_key, Assoc, lookup, insert, remove, lookup-insert, lookup-remove}
use chono_db.Downsample.Task.{DownsampleTask, is_running}
use chono_db.Downsample.Scheduler.{}
use chono_db.Downsample.Run.{}
use chono_db.Downsample.Idle.{runs}

-- A name of a running task is one of `running`.
abbrev pub Counts : Assoc String DownsampleTask → Assoc String (Unit {0}) → Type 0
Counts tasks running =
    (id : String) → runs (lookup id tasks) ≡ true → is_some (lookup id running) ≡ true

-- A task that does not run replaces one, whose place is given up.
pub Counts-release :
    (tasks : Assoc String DownsampleTask) (running : Assoc String (Unit {0})) (j : String)
    (task : DownsampleTask)
    → is_running task.status ≡ false
    → Counts tasks running
    → Counts (insert j task tasks) (remove j running)
unfolding runs
Counts-release tasks running j task still h id =
    rw (lookup-insert j id task tasks, lookup-remove j id running)
      (elim (Bool-cases (text_key.same j id)) [
        | inl e ↦ rw e (λ r. cc (r, still))
        | inr e ↦ rw e (h id)
      ])

-- A task takes a place.
pub Counts-take :
    (tasks : Assoc String DownsampleTask) (running : Assoc String (Unit {0})) (j : String)
    (task : DownsampleTask)
    → Counts tasks running
    → Counts (insert j task tasks) (insert j tt running)
unfolding runs
Counts-take tasks running j task h id =
    rw (lookup-insert j id task tasks, lookup-insert j id tt running)
      (elim (Bool-cases (text_key.same j id)) [ inl e ↦ rw e (λ r. refl) | inr e ↦ rw e (h id) ])

-- A task that does not run is put where a place may be taken.
pub Counts-submit :
    (tasks : Assoc String DownsampleTask) (running : Assoc String (Unit {0})) (j : String)
    (task : DownsampleTask)
    → is_running task.status ≡ false
    → Counts tasks running
    → Counts (insert j task tasks) running
unfolding runs
Counts-submit tasks running j task still h id =
    rw (lookup-insert j id task tasks) (elim (Bool-cases (text_key.same j id)) [
      | inl e ↦ rw e (λ r. cc (r, still))
      | inr e ↦ rw e (h id)
    ])

pub Counts-change :
    (tasks : Assoc String DownsampleTask) (running : Assoc String (Unit {0})) (j : String)
    (old : Option DownsampleTask) (change : DownsampleTask → DownsampleTask)
    → lookup j tasks ≡ old
    → ((task : DownsampleTask) → is_running (change task).status ≡ false)
    → Counts tasks running
    → Counts
        (elim old [ none ↦ tasks | some task ↦ insert j (change task) tasks ])
        (remove j running)
Counts-change tasks running j none change e still h = λ id.
    rw (lookup-remove j id running) (elim (Bool-cases (text_key.same j id)) [
      | inl s ↦ λ r.
          let same : j ≡ id = (text_key.same_iff j id).0 s in
          let absent : lookup id tasks ≡ none = cc (e, same) in
          let idle : runs (lookup id tasks) ≡ false = rw absent (unfold runs in refl) in
          cc (r, idle)
      | inr s ↦ rw s (h id)
    ])
Counts-change tasks running j (some task) change e still h =
    Counts-release tasks running j (change task) (still task) h
