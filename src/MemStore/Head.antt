-- ===== src/MemStore/Head.antt =====
-- storage/src/memstore/head.rs: `HeadBlock`, the series by their id. The locks are not modelled:
-- an operation holds the write lock over all that it does to the map.
pub mod Invariant
pub mod Reachable
use chono_db.Prelude.{ℕ, ◌+◌, leb, List, [], ◌∷◌, length, Option, none, some, if◌then◌else◌}
use chono_db.Prelude.Assoc.{Assoc, number_key, lookup, insert, remove, values}
use chono_db.Error.{Result, ok, err, storage_full, series_not_found, ◌>>◌}
use chono_db.Model.{Timestamp, TimeSeriesId, Labels, Sample}
use chono_db.Index.Inverted.{InvertedIndex, add_series as index_add, remove_series as index_remove}
use chono_db.Index.Inverted.{new as new_index}
use chono_db.MemStore.Entry.{TimeSeriesEntry, samples_in_range, new as new_entry}
use chono_db.MemStore.Entry.{add_sample as add_to_entry}

pub record HeadConfig : Type 0 where
  pub max_series : ℕ
  pub max_samples_per_series : ℕ
  pub chunk_capacity : ℕ

pub record HeadBlock : Type 0 where
  pub series : Assoc TimeSeriesId TimeSeriesEntry
  pub index : InvertedIndex
  pub config : HeadConfig

unfoldable pub new : HeadConfig → HeadBlock
new config = record { series = []; index = new_index; config = config }

-- The guard comes first: on a full block it refuses a series that is there as well.
unfoldable pub add_series : HeadBlock → TimeSeriesId → Labels → Result (Unit {0}) × HeadBlock
add_series head series_id labels =
    if leb head.config.max_series (length head.series)
    then (err storage_full, head)
    else elim (lookup series_id head.series) [
      | some entry ↦ (ok tt, head)
      | none ↦ (
        ok tt,
        record head {
          series = insert series_id (new_entry labels) head.series;
          index = index_add head.index series_id labels;
        },
      )
    ]

unfoldable pub add_sample : HeadBlock → TimeSeriesId → Sample → Result (Unit {0}) × HeadBlock
add_sample head series_id sample = elim (lookup series_id head.series) [
  | none ↦ (err (series_not_found series_id), head)
  | some entry ↦
      (ok tt, record head { series = insert series_id (add_to_entry entry sample) head.series })
]

-- `calculate_series_id`, which hashes the sorted labels, is a parameter: Rust does not say what
-- `DefaultHasher` computes.
module _ (calculate_series_id : Labels → TimeSeriesId) where
  unfoldable pub get_or_create_series : HeadBlock → Labels → Result TimeSeriesId × HeadBlock
  get_or_create_series head labels =
      let series_id = calculate_series_id labels in
      elim (lookup series_id head.series) [
        | some entry ↦ (ok series_id, head)
        | none ↦
            let (added, head') = add_series head series_id labels in (added >> ok series_id, head')
      ]

unfoldable pub query : HeadBlock → TimeSeriesId → Timestamp → Timestamp → Option (List Sample)
query head series_id start stop = elim (lookup series_id head.series) [
  | none ↦ none
  | some entry ↦ some (samples_in_range entry start stop)
]

unfoldable pub get_series_labels : HeadBlock → TimeSeriesId → Option Labels
get_series_labels head series_id = elim (lookup series_id head.series) [
  | none ↦ none
  | some entry ↦ some entry.labels
]

unfoldable pub series_count : HeadBlock → ℕ
series_count head = length head.series

unfoldable pub sum_samples : List TimeSeriesEntry → ℕ
sum_samples [] = 0
sum_samples (entry ∷ entries) = entry.total_samples + sum_samples entries

unfoldable pub total_samples : HeadBlock → ℕ
total_samples head = sum_samples (values head.series)

unfoldable pub drop_series : HeadBlock → TimeSeriesId → HeadBlock
drop_series head series_id = record head {
  series = remove series_id head.series;
  index = index_remove head.index series_id;
}

unfoldable pub remove_series : HeadBlock → TimeSeriesId → Result (Unit {0}) × HeadBlock
remove_series head series_id = elim (lookup series_id head.series) [
  | none ↦ (err (series_not_found series_id), head)
  | some entry ↦ (ok tt, drop_series head series_id)
]

-- `remove_series_batch` returns no error.
unfoldable pub remove_series_batch : HeadBlock → List TimeSeriesId → HeadBlock
remove_series_batch head [] = head
remove_series_batch head (series_id ∷ series_ids) = elim (lookup series_id head.series) [
  | none ↦ remove_series_batch head series_ids
  | some entry ↦ remove_series_batch (drop_series head series_id) series_ids
]
