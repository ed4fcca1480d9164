-- ===== src/Downsample/Queue.antt =====
-- storage/src/downsample/scheduler.rs: `ScheduledTask`, its order, and the standard library's
-- `BinaryHeap` of them as a list, of which `pop` takes a greatest element.
use Prim.Native.Nat.{compare, Ordering}
use chono_db.Prelude.{
  ℕ, Bool, true, false, Option, none, some, List, [], ◌∷◌, All, Bool-cases, inl, inr, if◌then◌else◌,
}
use chono_db.Prelude.Int.{ℤ, ltb_ℤ}
use chono_db.Downsample.Task.{DownsampleTask}

pub data TaskPriority : Type 0 where
  low normal high critical : TaskPriority

unfoldable pub rank : TaskPriority → ℕ
rank low = 0
rank normal = 1
rank high = 2
rank critical = 3

pub record ScheduledTask : Type 0 where
  pub task : DownsampleTask
  pub priority : TaskPriority
  pub enqueue_time : ℤ

-- `self.cmp(other) == Greater`: of equal priority, the one that came earlier is the greater.
unfoldable pub is_greater : ScheduledTask → ScheduledTask → Bool
unfolding rank
is_greater a b = elim (compare (rank a.priority) (rank b.priority)) [
  | Ordering.lt ↦ false
  | Ordering.eq ↦ ltb_ℤ a.enqueue_time b.enqueue_time
  | Ordering.gt ↦ true
]

unfoldable pub pick :
    ScheduledTask
    → Option (ScheduledTask × List ScheduledTask)
    → Option (ScheduledTask × List ScheduledTask)
pick x none = some (x, [])
pick x (some (y, rest)) = if is_greater y x then some (y, x ∷ rest) else some (x, y ∷ rest)

unfoldable pub pop : List ScheduledTask → Option (ScheduledTask × List ScheduledTask)
unfolding pick
pop [] = none
pop (x ∷ xs) = pick x (pop xs)

-- What holds of all that is queued holds of what is taken and of what stays.
abbrev pub AllPopped {κ} :
    (ScheduledTask → Type κ) → Option (ScheduledTask × List ScheduledTask) → Type κ
AllPopped P none = Unit {κ}
AllPopped P (some (x, rest)) = P x × All P rest

pick-All {κ} :
    (P : ScheduledTask → Type κ) (x : ScheduledTask)
    (popped : Option (ScheduledTask × List ScheduledTask))
    → P x
    → AllPopped P popped
    → AllPopped P (pick x popped)
unfolding pick
pick-All P x none px ppopped = (px, tt)
pick-All P x (some (y, rest)) px (py, prest) = elim (Bool-cases (is_greater y x)) [
  | inl e ↦ rw e (py, (px, prest))
  | inr e ↦ rw e (px, (py, prest))
]

pub pop-All {κ} :
    (P : ScheduledTask → Type κ) (queue : List ScheduledTask)
    → All P queue
    → AllPopped P (pop queue)
unfolding pop
pop-All P [] h = tt
pop-All P (x ∷ xs) h = pick-All P x (pop xs) h.0 (pop-All P xs h.1)
