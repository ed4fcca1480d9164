-- ===== src/MemStore/Store.antt =====
-- storage/src/memstore/store.rs: `MemStore`, which writes through the log into the head block and
-- answers queries.
pub mod Find
pub mod Query
pub mod Windows
pub mod Steps
pub mod Write
pub mod ReadBack
pub mod Logged
use chono_db.Prelude.{
  ℕ, ◌+◌, ◌-◌, ◌*◌, ◌/◌, ◌%◌, ◌^◌, ◌==◌, List, [], ◌∷◌, ◌++◌, length, filter, String, Bool, true,
  false, not, Option, none, some, if◌then◌else◌,
}
use chono_db.Prelude.Int.{ℤ, pos, negsuc, ◌-ℤ◌}
use chono_db.Prelude.Sort.{sort_by}
use chono_db.Error.{Result, ok, err, stuck}
use chono_db.Model.{Timestamp, TimeSeriesId, Labels, Sample, F64, TimeSeries}
use chono_db.Index.Inverted.{find, all_series_ids, intersect_series_ids}
use chono_db.ColumnStore.Level.{DownsampleLevel, l0, resolution_ms, auto_select_downsample_level}
use chono_db.MemStore.Chunk.{greatest, least}
use chono_db.MemStore.Head.{
  HeadBlock, add_sample, get_or_create_series, series_count, query as head_query,
  get_series_labels as head_labels, remove_series_batch as head_remove,
}

pub record MemStoreStats : Type 0 where
  pub total_series : ℕ
  pub total_samples : ℕ
  pub total_bytes : ℕ
  pub writes : ℕ
  pub reads : ℕ

-- What the store asks of a write-ahead log: appending a write, and syncing.
pub record LogOps (Wal : Type 0) : Type 0 where
  pub log_write : Wal → TimeSeriesId → Labels → List Sample → Result (Unit {0}) × Wal
  pub sync : Wal → Result (Unit {0}) × Wal

-- The bloom filter is made with the store and never used, so it is not part of the model.
pub record MemStore (Wal : Type 0) : Type 0 where
  pub head : HeadBlock
  pub wal : Option Wal
  pub stats : MemStoreStats

-- `for sample in samples { self.head.add_sample(series_id, sample)?; }`
unfoldable pub add_each : HeadBlock → TimeSeriesId → List Sample → Result (Unit {0}) × HeadBlock
add_each head series_id [] = (ok tt, head)
add_each head series_id (sample ∷ samples) =
    let (added, head') = add_sample head series_id sample in
    elim added [
      | ok _ ↦ add_each head' series_id samples
      | err e ↦ (err e, head')
      | stuck ↦ (stuck, head')
    ]

module _ {Wal : Type 0} (ops : LogOps Wal) (calculate_series_id : Labels → TimeSeriesId) where
  unfoldable pub log :
      Option Wal → TimeSeriesId → Labels → List Sample → Result (Unit {0}) × Option Wal
  log none series_id labels samples = (ok tt, none)
  log (some wal) series_id labels samples =
      let (logged, wal') = ops.log_write wal series_id labels samples in (logged, some wal')

  unfoldable pub log_and_add :
      MemStore Wal → TimeSeriesId → Labels → List Sample → Result (Unit {0}) × MemStore Wal
  log_and_add store series_id labels samples =
      let (logged, wal) = log store.wal series_id labels samples in
      elim logged [
        | ok _ ↦
            let (stored, head) =
              add_each store.head series_id (sort_by (λ (s : Sample). s.timestamp) samples) in
            (stored, record store { head = head; wal = wal })
        | err e ↦ (err e, record store { wal = wal })
        | stuck ↦ (stuck, record store { wal = wal })
      ]

  -- What `write` and each round of `write_batch` do before they count: the series, the log, then the
  -- samples in the order of time.
  unfoldable pub store_samples :
      MemStore Wal → Labels → List Sample → Result (Unit {0}) × MemStore Wal
  store_samples store labels samples =
      let (created, head) = get_or_create_series calculate_series_id store.head labels in
      elim created [
        | ok series_id ↦ log_and_add (record store { head = head }) series_id labels samples
        | err e ↦ (err e, record store { head = head })
        | stuck ↦ (stuck, record store { head = head })
      ]

  -- The statistics are `u64`s, which wrap.
  unfoldable pub count_writes : MemStore Wal → ℕ → ℕ → MemStore Wal
  count_writes store sample_count writes = record store {
    stats = record store.stats {
      total_samples = (store.stats.total_samples + sample_count) % 2 ^ 64;
      writes = (store.stats.writes + writes) % 2 ^ 64;
      total_series = series_count store.head;
    };
  }

  unfoldable pub write : MemStore Wal → Labels → List Sample → Result (Unit {0}) × MemStore Wal
  write store labels samples =
      let (stored, store') = store_samples store labels samples in
      elim stored [
        | ok _ ↦ (ok tt, count_writes store' (length samples) 1)
        | err e ↦ (err e, store')
        | stuck ↦ (stuck, store')
      ]

  unfoldable pub write_single : MemStore Wal → Labels → Sample → Result (Unit {0}) × MemStore Wal
  write_single store labels sample = write store labels (sample ∷ [])

  unfoldable pub batch_loop :
      MemStore Wal → List (Labels × List Sample) → ℕ → Result ℕ × MemStore Wal
  batch_loop store [] total = (ok total, store)
  batch_loop store ((labels, samples) ∷ batch) total =
      let (stored, store') = store_samples store labels samples in
      elim stored [
        | ok _ ↦ batch_loop store' batch (total + length samples)
        | err e ↦ (err e, store')
        | stuck ↦ (stuck, store')
      ]

  -- An error in the batch leaves the writes before it, which the statistics then do not count.
  unfoldable pub write_batch :
      MemStore Wal → List (Labels × List Sample) → Result (Unit {0}) × MemStore Wal
  write_batch store batch =
      let (stored, store') = batch_loop store batch 0 in
      elim stored [
        | ok total ↦ (ok tt, count_writes store' total (length batch))
        | err e ↦ (err e, store')
        | stuck ↦ (stuck, store')
      ]

  -- `flush` and `close`
  unfoldable pub flush : MemStore Wal → Result (Unit {0}) × MemStore Wal
  flush store = elim store.wal [
    | none ↦ (ok tt, store)
    | some wal ↦ let (synced, wal') = ops.sync wal in (synced, record store { wal = some wal' })
  ]

unfoldable pub remove_series_batch :
    {Wal : Type 0} → MemStore Wal → List TimeSeriesId → MemStore Wal
remove_series_batch store series_ids = record store { head = head_remove store.head series_ids }

unfoldable pub find_loop :
    HeadBlock → List (String × String) → Option (List TimeSeriesId) → Option (List TimeSeriesId)
find_loop head [] result = result
find_loop head ((name, value) ∷ matchers) result =
    let series = find head.index name value in
    find_loop head matchers (elim result [
      | none ↦ some series
      | some previous ↦ some (intersect_series_ids previous series)
    ])

unfoldable pub find_series : HeadBlock → List (String × String) → List TimeSeriesId
find_series head [] = all_series_ids head.index
find_series head (matcher ∷ matchers) = elim (find_loop head (matcher ∷ matchers) none) [
  | none ↦ []
  | some series ↦ series
]
