-- ===== src/Downsample/Worker.antt =====
-- storage/src/downsample/worker.rs: what a worker pool is sent.
use chono_db.Prelude.{String, Bool, none, some, List, []}
use chono_db.Model.{Timestamp, TimeSeriesId}
use chono_db.ColumnStore.Level.{DownsampleLevel}
use chono_db.Downsample.Task.{DownsampleTask}

pub record WorkerTask : Type 0 where
  pub task_id : String
  pub target_level : DownsampleLevel
  pub source_level : DownsampleLevel
  pub start_time : Timestamp
  pub end_time : Timestamp
  pub series_ids : List TimeSeriesId

-- The channel of a worker pool: whether its receiver is alive, and what was sent.
pub record WorkerPool : Type 0 where
  pub is_open : Bool
  pub sent : List WorkerTask

unfoldable pub worker_task : DownsampleTask → WorkerTask
worker_task task = record {
  task_id = task.task_id;
  target_level = task.target_level;
  source_level = task.source_level;
  start_time = task.start_time;
  end_time = task.end_time;
  series_ids = elim task.series_ids [ none ↦ [] | some ids ↦ ids ];
}
