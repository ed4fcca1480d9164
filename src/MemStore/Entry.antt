-- ===== src/MemStore/Entry.antt =====
-- storage/src/memstore/head.rs: `TimeSeriesEntry`, the chunks of one series.
pub mod Samples
use chono_db.Prelude.{ℕ, ◌+◌, List, [], ◌∷◌, ◌++◌, if◌then◌else◌}
use chono_db.Model.{Timestamp, Sample, Labels}
use chono_db.MemStore.Chunk.{Chunk, is_full}
use chono_db.MemStore.Chunk.{new as new_chunk, add as add_to_chunk, samples_in_range as chunk_range}

pub record TimeSeriesEntry : Type 0 where
  pub labels : Labels
  pub current_chunk : Chunk
  pub frozen_chunks : List Chunk
  pub total_samples : ℕ

unfoldable pub new : Labels → TimeSeriesEntry
new labels = record {
  labels = labels;
  current_chunk = new_chunk;
  frozen_chunks = [];
  total_samples = 0;
}

-- `if self.current_chunk.is_full()`: the full chunk is frozen and a new one takes its place.
unfoldable pub freeze : TimeSeriesEntry → TimeSeriesEntry
freeze entry =
    if is_full entry.current_chunk
    then (record entry {
      current_chunk = new_chunk;
      frozen_chunks = entry.frozen_chunks ++ (entry.current_chunk ∷ []);
    })
    else entry

-- `add_sample` returns no error: `Chunk::add` has none.
unfoldable pub add_sample : TimeSeriesEntry → Sample → TimeSeriesEntry
add_sample entry sample =
    let ready = freeze entry in
    record ready {
      current_chunk = add_to_chunk ready.current_chunk sample;
      total_samples = ready.total_samples + 1;
    }

unfoldable pub frozen_range : List Chunk → Timestamp → Timestamp → List Sample
frozen_range [] start stop = []
frozen_range (chunk ∷ chunks) start stop =
    chunk_range chunk start stop ++ frozen_range chunks start stop

unfoldable pub samples_in_range : TimeSeriesEntry → Timestamp → Timestamp → List Sample
samples_in_range entry start stop =
    frozen_range entry.frozen_chunks start stop ++ chunk_range entry.current_chunk start stop

unfoldable pub add_samples : TimeSeriesEntry → List Sample → TimeSeriesEntry
add_samples entry [] = entry
add_samples entry (s ∷ ss) = add_samples (add_sample entry s) ss
