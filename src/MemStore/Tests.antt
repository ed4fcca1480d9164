-- ===== src/MemStore/Tests.antt =====
-- Concrete runs of the memory store.
use chono_db.Prelude.{
  map, ◌/◌, ℕ, ◌+◌, ◌≡◌, refl, ap, subst, List, [], ◌∷◌, count, true, ◌&&◌, ◌||◌, not, leb, length,
  some, is_some, arith, if◌then◌else◌,
}
use chono_db.Prelude.Assoc.{number_key, lookup}
use chono_db.Prelude.Int.{negsuc, pos, ◌-ℤ◌}
use chono_db.Prelude.Sort.{sort_by, insert_each, insert_by}
use chono_db.Prelude.Word.{overflowing_sub}
use chono_db.Error.{ok, err, storage_full}
use chono_db.Model.{Labels, Sample, TimeSeriesId, in_range}
use chono_db.ColumnStore.Level.{}
use chono_db.Index.Inverted.{contains}
use chono_db.MemStore.Chunk.{
  Chunk, new, add, add_all, samples_in_range, push, is_empty, sort_by_timestamp, as_sample,
  ChunkEncoder, EncodedChunk, new_coder, encode_chunk, decode_chunk, join_columns, len,
}
use chono_db.MemStore.Chunk.Order.{IsChunk, new-IsChunk}
use chono_db.MemStore.Chunk.Query.{add_all-pairs}
use chono_db.MemStore.Chunk.RoundTrip.{new_coder-IsReady, decode_chunk-encode_chunk}
use chono_db.MemStore.Entry.{samples_in_range as entry_range, add_samples, new as new_entry}
use chono_db.MemStore.Entry.Samples.{samples_in_range-add_samples}
use chono_db.MemStore.Head.{HeadBlock, HeadConfig, get_series_labels, new as new_head}
use chono_db.MemStore.Head.Invariant.{IsHead, new-IsHead}
use chono_db.MemStore.Head.Reachable.{get_or_create, store, delete, apply_all, IsHead-reachable}
use chono_db.MemStore.Store.{MemStore, LogOps, log, write, find_series}
use chono_db.MemStore.Store.Find.{satisfies, find_series_lem}
use chono_db.MemStore.Store.Write.{Stored}
use chono_db.MemStore.Store.ReadBack.{write-Stored, write_decides}
use chono_db.Compression.ZigZag.{zigzag_encode}
use chono_db.Compression.Varint.{encode_varint}
use chono_db.Compression.Stream.{encode, encode_batch, encode_batch_loop}
use chono_db.Compression.Delta.{checked_difference, delta_emit, delta_of_delta_emit}
use chono_db.ColumnStore.Level.{l1, resolution_ms, interval_ms}
use chono_db.MemStore.Store.Query.{
  FloatOps, apply_downsampling, is_l0, downsample_loop, close_window, window_of, same_ℤ,
}
use chono_db.MemStore.Store.Windows.{runs, average, apply_downsampling-runs}

abbrev late : Sample
late = record { timestamp = pos 20; value = 7 }

abbrev early : Sample
early = record { timestamp = pos 10; value = 8 }

abbrev early_again : Sample
early_again = record { timestamp = pos 10; value = 9 }

abbrev three : List Sample
three = late ∷ early ∷ early_again ∷ []

early_first : samples_in_range (add_all new three) (pos 0) (pos 15) ≡ early ∷ early_again ∷ []
unfolding samples_in_range add_all add new is_empty push sort_by_timestamp as_sample sort_by
    insert_each insert_by
early_first = refl

samples_in_range-add_samples_example :
    count (λ s. true) (entry_range (add_samples (new_entry []) three) (pos 0) (pos 15))
    ≡ count (λ s. in_range (pos 0) (pos 15) s.timestamp && true) three
samples_in_range-add_samples_example =
    samples_in_range-add_samples (λ s. true) (pos 0) (pos 15) [] three

-- The chunk of the three samples.
abbrev sorted_three : Chunk
sorted_three = record {
  timestamps = pos 10 ∷ pos 10 ∷ pos 20 ∷ [];
  values = 8 ∷ 9 ∷ 7 ∷ [];
  min_timestamp = pos 10;
  max_timestamp = pos 20;
}

three_sorted : add_all new three ≡ sorted_three
unfolding add_all add new is_empty push sort_by_timestamp sort_by insert_each insert_by
three_sorted = refl

sorted_three-IsChunk : IsChunk sorted_three
sorted_three-IsChunk = subst IsChunk three_sorted ((add_all-pairs new three new-IsChunk).0)

abbrev encoded_three : EncodedChunk
encoded_three = record {
  time_data = 20 ∷ 19 ∷ 20 ∷ [];
  value_data = 16 ∷ 2 ∷ 3 ∷ [];
  min_timestamp = pos 10;
  max_timestamp = pos 20;
  count = 3;
}

abbrev after_three : ChunkEncoder
after_three = record {
  time_encoder = record { last_value = some (pos 20); last_delta = some (pos 10) };
  value_encoder = record { last_value = some (pos 7) };
}

encodes_three : encode_chunk new_coder sorted_three ≡ (ok encoded_three, after_three)
unfolding encode_chunk new_coder join_columns len encode_batch encode_batch_loop encode delta_emit
    delta_of_delta_emit checked_difference overflowing_sub ◌-ℤ◌ encode_varint zigzag_encode
encodes_three = refl

decode_chunk-encode_chunk_example :
    decode_chunk new_coder encoded_three ≡ (ok sorted_three, after_three)
decode_chunk-encode_chunk_example =
    decode_chunk-encode_chunk sorted_three new_coder after_three encoded_three sorted_three-IsChunk
      (omega arith) (omega arith) new_coder-IsReady encodes_three

-- A hash that tells labels apart by their number.
abbrev by_number : Labels → TimeSeriesId
by_number ls = length ls

abbrev small : HeadConfig
small = record { max_series = 1; max_samples_per_series = 10000; chunk_capacity = 120 }

abbrev job : Labels
job = record { name = "job"; value = "test" } ∷ []

IsHead-reachable_example : IsHead (
    apply_all by_number
      (new_head small)
      (get_or_create job ∷ store 1 late ∷ delete 1 ∷ get_or_create [] ∷ []))
IsHead-reachable_example =
    IsHead-reachable by_number small
      (get_or_create job ∷ store 1 late ∷ delete 1 ∷ get_or_create [] ∷ [])

abbrev one_series : HeadBlock
one_series = apply_all by_number (new_head small) (get_or_create job ∷ [])

find_series_lem_example :
    contains 1 (find_series one_series (("job", "test") ∷ []))
    ≡ satisfies (get_series_labels one_series 1) (("job", "test") ∷ [])
find_series_lem_example =
    find_series_lem one_series (("job", "test") ∷ []) 1
      (IsHead-reachable by_number small (get_or_create job ∷ []))

-- A log that takes every write and counts them.
abbrev counting : LogOps ℕ
counting = record { log_write = λ n i labels ss. (ok tt, n + 1); sync = λ n. (ok tt, n) }

abbrev empty_store : MemStore ℕ
empty_store = record {
  head = new_head small;
  wal = some 0;
  stats = record { total_series = 0; total_samples = 0; total_bytes = 0; writes = 0; reads = 0 };
}

write_decides_example : (write counting by_number empty_store job three).0 ≡ (
    if is_some (lookup 1 (new_head small).series) || not (leb 1 (length (new_head small).series))
    then ok tt
    else err storage_full)
unfolding new_head log
write_decides_example =
    write_decides counting by_number empty_store job three (new-IsHead small) refl

abbrev full_store : MemStore ℕ
full_store = (write counting by_number empty_store job three).1

write_works : (write counting by_number empty_store job three).0 ≡ ok tt
unfolding lookup new_head
write_works = write_decides_example

write-Stored_example : Stored (new_head small) full_store.head 1 three
write-Stored_example =
    write-Stored counting by_number empty_store full_store job three (new-IsHead small)
      (ap (λ r. (r, full_store)) write_works)

-- Numbers in place of floating-point ones.
abbrev integers : FloatOps
integers = record { zero_f64 = 0; add_f64 = λ a b. a + b; div_count = λ a n. a / n }

apply_downsampling-runs_example :
    apply_downsampling integers three l1
    ≡ (if is_l0 l1 then three else map (average integers) (runs (resolution_ms l1) three))
apply_downsampling-runs_example = apply_downsampling-runs integers three l1

-- Before 1970 the time of a window is its end, and the window around 1970 has twice the length.
averages_around_zero :
    apply_downsampling integers
      (record { timestamp = negsuc 0; value = 4 }
        ∷ record { timestamp = pos 59999; value = 6 }
        ∷ [])
      l1
    ≡ record { timestamp = pos 0; value = 5 } ∷ []
unfolding apply_downsampling is_l0 resolution_ms interval_ms downsample_loop close_window window_of
    same_ℤ ◌-ℤ◌
averages_around_zero = refl

averages_three : apply_downsampling integers three l1 ≡ record { timestamp = pos 0; value = 8 } ∷ []
unfolding apply_downsampling is_l0 resolution_ms interval_ms downsample_loop close_window window_of
    same_ℤ ◌-ℤ◌
averages_three = refl
