-- ===== src/MemStore/Store/Query.antt =====
-- storage/src/memstore/store.rs: the queries of `MemStore` and their downsampling.
use chono_db.Prelude.{
  ℕ, ◌+◌, ◌%◌, ◌^◌, ◌==◌, List, [], ◌∷◌, ◌++◌, String, Bool, Option, none, some, true, false, not,
  ◌&&◌, if◌then◌else◌,
}
use chono_db.Prelude.Int.{ℤ, pos, negsuc, ◌-ℤ◌, sub_ℕ, ltb_ℤ}
use chono_db.Model.{Timestamp, TimeSeriesId, Labels, Sample, F64, TimeSeries}
use chono_db.ColumnStore.Level.{
  DownsampleLevel, l0, l1, l2, l3, l4, resolution_ms, auto_select_downsample_level,
}
use chono_db.MemStore.Chunk.{greatest, least}
use chono_db.MemStore.Head.{HeadBlock, query as head_query, get_series_labels as head_labels}
use chono_db.MemStore.Store.{MemStore, find_series}

-- The arithmetic on `f64` that averaging uses; the division is by a count.
pub record FloatOps : Type 0 where
  pub zero_f64 : F64
  pub add_f64 : F64 → F64 → F64
  pub div_count : F64 → ℕ → F64

-- `t % resolution`, with the sign of `t`.
abbrev pub rem : ℤ → ℕ → ℤ
rem (pos n) r = pos (n % r)
rem (negsuc n) r = sub_ℕ 0 ((n + 1) % r)

unfoldable pub window_of : ℕ → Timestamp → Timestamp
window_of resolution t = t -ℤ rem t resolution

unfoldable pub same_ℤ : ℤ → ℤ → Bool
same_ℤ a b = not (ltb_ℤ a b) && not (ltb_ℤ b a)

unfoldable pub is_l0 : DownsampleLevel → Bool
is_l0 l0 = true
is_l0 l1 = false
is_l0 l2 = false
is_l0 l3 = false
is_l0 l4 = false

-- `if samples.is_empty() { return None; }`, after the downsampling as before it: an empty list stays
-- empty.
unfoldable pub series_unless_empty : TimeSeriesId → Labels → List Sample → Option TimeSeries
series_unless_empty series_id labels [] = none
series_unless_empty series_id labels (sample ∷ samples) =
    some (record { id = series_id; labels = labels; samples = sample ∷ samples })

module _ (floats : FloatOps) where
  -- `if window_count > 0 { downsampled.push(..) }`
  unfoldable pub close_window : List Sample → Timestamp → F64 → ℕ → List Sample
  close_window downsampled window sum count =
      if count == 0
      then downsampled
      else downsampled ++ (record { timestamp = window; value = floats.div_count sum count } ∷ [])

  unfoldable pub downsample_loop : ℕ → List Sample → List Sample → Timestamp → F64 → ℕ → List Sample
  downsample_loop resolution [] downsampled window sum count =
      close_window downsampled window sum count
  downsample_loop resolution (sample ∷ samples) downsampled window sum count =
      let sample_window = window_of resolution sample.timestamp in
      let go_on =
        downsample_loop resolution samples downsampled window (floats.add_f64 sum sample.value)
          (count + 1) in
      let start_new =
        downsample_loop resolution samples (close_window downsampled window sum count) sample_window
          (floats.add_f64 floats.zero_f64 sample.value) 1 in
      if same_ℤ sample_window window then go_on else start_new

  unfoldable pub apply_downsampling : List Sample → DownsampleLevel → List Sample
  apply_downsampling [] level = []
  apply_downsampling (sample ∷ samples) level =
      let resolution = resolution_ms level in
      let windows =
        downsample_loop resolution (sample ∷ samples) [] (window_of resolution sample.timestamp)
          floats.zero_f64 0 in
      if is_l0 level
      then sample ∷ samples
      else if resolution == 0
      then sample ∷ samples
      else windows

  -- The result of one series, `none` if it has no samples in the range. The two branches of the
  -- source, one of them in parallel, compute the same list.
  unfoldable pub query_one :
      HeadBlock → Timestamp → Timestamp → DownsampleLevel → TimeSeriesId → Option TimeSeries
  query_one head start stop level series_id = elim (head_labels head series_id) [
    | none ↦ none
    | some labels ↦ elim (head_query head series_id start stop) [
      | none ↦ none
      | some samples ↦ series_unless_empty series_id labels (apply_downsampling samples level)
    ]
  ]

  unfoldable pub query_all :
      HeadBlock → Timestamp → Timestamp → DownsampleLevel → List TimeSeriesId → List TimeSeries
  query_all head start stop level [] = []
  query_all head start stop level (series_id ∷ series_ids) =
      let rest = query_all head start stop level series_ids in
      elim (query_one head start stop level series_id) [ none ↦ rest | some series ↦ series ∷ rest ]

  unfoldable pub query_with_downsample :
      {Wal : Type 0}
      → MemStore Wal
      → List (String × String)
      → Timestamp
      → Timestamp
      → DownsampleLevel
      → List TimeSeries × MemStore Wal
  query_with_downsample store matchers start stop level = (
    query_all store.head start stop level (find_series store.head matchers),
    record store { stats = record store.stats { reads = (store.stats.reads + 1) % 2 ^ 64 } },
  )

  unfoldable pub query :
      {Wal : Type 0}
      → MemStore Wal
      → List (String × String)
      → Timestamp
      → Timestamp
      → List TimeSeries × MemStore Wal
  query store matchers start stop =
      query_with_downsample store matchers start stop (auto_select_downsample_level start stop)

unfoldable pub get_series : HeadBlock → TimeSeriesId → Option TimeSeries
get_series head series_id = elim (head_labels head series_id) [
  | none ↦ none
  | some labels ↦ elim (head_query head series_id least greatest) [
    | none ↦ none
    | some samples ↦ some (record { id = series_id; labels = labels; samples = samples })
  ]
]
