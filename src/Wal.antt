-- ===== src/Wal.antt =====
-- storage/src/wal/mod.rs: `Wal`, the write-ahead log over its segments. The lock around the writer
-- makes its calls atomic; the clock is an argument, in milliseconds.
pub mod Entry
pub mod Header
pub mod Reader
pub mod Writer
pub mod Recovery
pub mod Lost
pub mod Kept
pub mod Cleanup
pub mod Stored
mod Tests
use chono_db.Prelude.{
  ℕ, ◌+◌, ◌-◌, ◌*◌, ◌/◌, ◌%◌, ◌^◌, List, [], ◌∷◌, ◌++◌, length, Option, none, some, Bool, ltb, leb,
  ◌||◌, if◌then◌else◌,
}
use chono_db.Prelude.Assoc.{lookup, remove, number_key}
use chono_db.Prelude.Int.{ℤ, pos}
use chono_db.Prelude.Sort.{sort_by}
use chono_db.Error.{Result, ok, err, stuck, ◌>>=◌}
use chono_db.Model.{TimeSeriesId, Labels, Sample}
use chono_db.MemStore.Store.{LogOps}
use chono_db.Wal.Entry.{WalEntry, Codec, new_write, new_delete}
use chono_db.Wal.Reader.{Directory, SegmentFile, list_segments, read_segment}
use chono_db.Wal.Writer.{
  WalWriter, WalSegmentConfig, default_segment_config, with_config as new_writer, write,
  sync as sync_writer, rotate as rotate_writer,
}

pub record WalConfig : Type 0 where
  pub segment_config : WalSegmentConfig
  pub retention_hours : ℕ
  pub max_retention_bytes : ℕ
  pub min_segments_to_keep : ℕ

unfoldable pub default_config : WalConfig
default_config = record {
  segment_config = default_segment_config;
  retention_hours = 24;
  max_retention_bytes = 10737418240;
  min_segments_to_keep = 2;
}

-- The directory stands in the writer.
pub record Wal : Type 0 where
  pub writer : WalWriter
  pub config : WalConfig

unfoldable pub with_config : ℕ → Directory → WalConfig → Wal
with_config now files config = record {
  writer = new_writer now files config.segment_config;
  config = config;
}

unfoldable pub log_write :
    Codec → ℕ → Wal → TimeSeriesId → Labels → List Sample → Result (Unit {0}) × Wal
log_write codec now wal series_id labels samples =
    let (logged, writer) =
      write codec now (new_write (pos now) series_id labels samples) wal.writer in
    (logged, record wal { writer = writer })

unfoldable pub log_delete : Codec → ℕ → Wal → TimeSeriesId → Result (Unit {0}) × Wal
log_delete codec now wal series_id =
    let (logged, writer) = write codec now (new_delete (pos now) series_id) wal.writer in
    (logged, record wal { writer = writer })

unfoldable pub sync : Wal → Result (Unit {0}) × Wal
sync wal = let (synced, writer) = sync_writer wal.writer in (synced, record wal { writer = writer })

unfoldable pub rotate : ℕ → Wal → Result (Unit {0}) × Wal
rotate now wal =
    let (rotated, writer) = rotate_writer now wal.writer in
    (rotated, record wal { writer = writer })

-- The log that the store writes to.
unfoldable pub wal_ops : Codec → ℕ → LogOps Wal
wal_ops codec now = record { log_write = log_write codec now; sync = sync }

-- `segments_by_time` before the sort: number, second of creation and size of each segment.
unfoldable pub with_metadata : Directory → List ℕ → List (ℕ × ℕ × ℕ)
with_metadata files [] = []
with_metadata files (segment ∷ segments) = elim (lookup segment files) [
  | none ↦ with_metadata files segments
  | some file ↦ (segment, file.created, length file.bytes) ∷ with_metadata files segments
]

unfoldable pub bytes_in : List (ℕ × ℕ × ℕ) → ℕ
bytes_in [] = 0
bytes_in ((segment, created, size) ∷ more) = size + bytes_in more

-- `should_delete_by_time || should_delete_by_size`; the age wraps around below 0.
unfoldable pub should_delete : WalConfig → ℕ → ℕ → ℕ → Bool
should_delete config now created left =
    ltb (config.retention_hours * 3600 % 2 ^ 64) ((now / 1000 + 2 ^ 64 - created) % 2 ^ 64)
    || ltb config.max_retention_bytes left

-- The loop over the segments by age, of which `total` stood there: the count of the deleted ones, and
-- the files that are left.
unfoldable pub cleanup_loop :
    WalConfig → ℕ → ℕ → ℕ → ℕ → ℕ → List (ℕ × ℕ × ℕ) → Directory → ℕ × Directory
cleanup_loop config now total bytes_total deleted_count bytes_to_delete [] files =
    (deleted_count, files)
cleanup_loop config now total bytes_total deleted_count bytes_to_delete
      ((segment, created, size) ∷ more) files =
    let kept = cleanup_loop config now total bytes_total deleted_count bytes_to_delete more files in
    let gone =
      cleanup_loop config now total bytes_total (deleted_count + 1) (bytes_to_delete + size) more
        (remove segment files) in
    if leb (total - deleted_count) config.min_segments_to_keep
    then (deleted_count, files)
    else if should_delete config now created (bytes_total - bytes_to_delete)
    then gone
    else kept

-- The oldest segments first.
unfoldable pub by_age : Directory → List (ℕ × ℕ × ℕ)
by_age files = sort_by (λ (s : ℕ × ℕ × ℕ). pos s.1) (with_metadata files (list_segments files))

unfoldable pub cleanup_old_segments : ℕ → Wal → ℕ × Wal
cleanup_old_segments now wal =
    let files = wal.writer.files in
    let segments_by_time = by_age files in
    let (deleted_count, files') =
      cleanup_loop wal.config now (length segments_by_time) (bytes_in segments_by_time) 0 0
        segments_by_time files in
    if leb (length (list_segments files)) wal.config.min_segments_to_keep
    then (0, wal)
    else (deleted_count, record wal { writer = record wal.writer { files = files' } })

-- The entries of a segment before those of the later ones; a segment that cannot be read is passed
-- over.
unfoldable pub append_entries :
    Result (List WalEntry) → Result (List WalEntry) → Result (List WalEntry)
append_entries (ok segment_entries) rest = do entries ← rest; ok (segment_entries ++ entries)
append_entries (err e) rest = rest
append_entries stuck rest = stuck

unfoldable pub recover_each : Codec → Directory → List ℕ → Result (List WalEntry)
recover_each codec files [] = ok []
recover_each codec files (segment ∷ segments) =
    append_entries (read_segment codec files segment) (recover_each codec files segments)

unfoldable pub recover : Codec → Wal → Result (List WalEntry)
recover codec wal = do
  entries ← recover_each codec wal.writer.files (list_segments wal.writer.files)
  ok (sort_by (λ (e : WalEntry). e.timestamp) entries)

unfoldable pub validate_each : Codec → Directory → List ℕ → Result (Unit {0})
validate_each codec files [] = ok tt
validate_each codec files (segment ∷ segments) = do
  _ ← read_segment codec files segment
  validate_each codec files segments

unfoldable pub validate : Codec → Wal → Result (Unit {0})
validate codec wal = validate_each codec wal.writer.files (list_segments wal.writer.files)
