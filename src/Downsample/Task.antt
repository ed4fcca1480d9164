-- ===== src/Downsample/Task.antt =====
-- storage/src/downsample/task.rs: a task and its states. A time is the number of milliseconds that
-- the clock gives, as an argument of what reads it.
use chono_db.Prelude.{
  ℕ, ◌+◌, ◌%◌, ◌^◌, String, Bool, true, false, ◌&&◌, Option, none, some, List, ltb, if◌then◌else◌,
}
use chono_db.Prelude.Int.{ℤ, ltb_ℤ}
use chono_db.Prelude.Word.{as_i64, overflowing_sub}
use chono_db.Model.{Timestamp, TimeSeriesId}
use chono_db.ColumnStore.Level.{DownsampleLevel}

pub data TaskStatus : Type 0 where
  pending running completed failed cancelled : TaskStatus

unfoldable pub is_terminal : TaskStatus → Bool
is_terminal pending = false
is_terminal running = false
is_terminal completed = true
is_terminal failed = true
is_terminal cancelled = true

-- `status == TaskStatus::Running`
unfoldable pub is_running : TaskStatus → Bool
is_running pending = false
is_running running = true
is_running completed = false
is_running failed = false
is_running cancelled = false

-- `status == TaskStatus::Failed`
unfoldable pub is_failed : TaskStatus → Bool
is_failed pending = false
is_failed running = false
is_failed completed = false
is_failed failed = true
is_failed cancelled = false

-- The timeout is in milliseconds.
pub record TaskConfig : Type 0 where
  pub timeout : ℕ
  pub max_retries : ℕ
  pub batch_size : ℕ
  pub concurrency : ℕ

abbrev pub default_config : TaskConfig
default_config = record { timeout = 3600000; max_retries = 3; batch_size = 1000; concurrency = 4 }

pub record DownsampleTask : Type 0 where
  pub task_id : String
  pub target_level : DownsampleLevel
  pub source_level : DownsampleLevel
  pub start_time : Timestamp
  pub end_time : Timestamp
  pub series_ids : Option (List TimeSeriesId)
  pub status : TaskStatus
  pub created_at : ℤ
  pub started_at : Option ℤ
  pub completed_at : Option ℤ
  pub samples_processed : ℕ
  pub samples_generated : ℕ
  pub error_message : Option String
  pub retry_count : ℕ
  pub config : TaskConfig

-- The name holds random digits, and is an argument.
unfoldable pub new :
    String
    → DownsampleLevel
    → DownsampleLevel
    → Timestamp
    → Timestamp
    → Option (List TimeSeriesId)
    → ℤ
    → DownsampleTask
new id target source start last series now = record {
  task_id = id;
  target_level = target;
  source_level = source;
  start_time = start;
  end_time = last;
  series_ids = series;
  status = pending;
  created_at = now;
  started_at = none;
  completed_at = none;
  samples_processed = 0;
  samples_generated = 0;
  error_message = none;
  retry_count = 0;
  config = default_config;
}

unfoldable pub with_config : TaskConfig → DownsampleTask → DownsampleTask
with_config c task = record task { config = c }

unfoldable pub mark_running : ℤ → DownsampleTask → DownsampleTask
mark_running now task = record task { status = running; started_at = some now }

unfoldable pub mark_completed : ℤ → ℕ → ℕ → DownsampleTask → DownsampleTask
mark_completed now processed generated task = record task {
  status = completed;
  completed_at = some now;
  samples_processed = processed;
  samples_generated = generated;
}

unfoldable pub mark_failed : String → DownsampleTask → DownsampleTask
mark_failed reason task = record task {
  status = failed;
  error_message = some reason;
  retry_count = (task.retry_count + 1) % 2 ^ 32;
}

unfoldable pub mark_cancelled : DownsampleTask → DownsampleTask
mark_cancelled task = record task { status = cancelled }

unfoldable pub can_retry : DownsampleTask → Bool
can_retry task = is_failed task.status && ltb task.retry_count task.config.max_retries

unfoldable pub reset_for_retry : DownsampleTask → DownsampleTask
reset_for_retry task =
    if can_retry task then record task { status = pending; error_message = none } else task

-- A task that is not completed is measured up to `now`.
unfoldable pub duration_ms : ℤ → DownsampleTask → Option ℤ
duration_ms now task = elim task.started_at [
  | none ↦ none
  | some started ↦ elim task.completed_at [
    | none ↦ some (overflowing_sub now started).0
    | some ended ↦ some (overflowing_sub ended started).0
  ]
]

unfoldable pub is_timeout : ℤ → DownsampleTask → Bool
is_timeout now task =
    if is_running task.status
    then (elim task.started_at [
      | none ↦ false
      | some started ↦ ltb_ℤ (as_i64 (task.config.timeout % 2 ^ 64)) (overflowing_sub now started).0
    ])
    else false

pub record TaskResult : Type 0 where
  pub task_id : String
  pub success : Bool
  pub samples_processed : ℕ
  pub samples_generated : ℕ
  pub error : Option String
  pub duration_ms : ℤ
