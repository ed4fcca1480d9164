-- ===== src/Wal/Tests.antt =====
-- The log on concrete entries, with a small codec for entries without labels and samples.
use chono_db.Prelude.Bytes.{to_le_bytes, u64_bytes}
use chono_db.Prelude.{
  ap, ℕ, ◌≤◌, List, [], ◌∷◌, ◌++◌, length, map, ◌≡◌, ◌≢◌, refl, arith, some, ◌==◌, if◌then◌else◌,
}
use chono_db.Prelude.Assoc.{lookup, keys, number_key}
use chono_db.Prelude.Int.{pos, pos_part}
use chono_db.Prelude.Sort.{sort_by, insert_each, insert_by}
use chono_db.Error.{Result, ok, err, stuck, serialization, ◌>>=◌}
use chono_db.Wal.Entry.{
  WalEntry, Codec, encode, decode, frame, as_u8, new_write, new_delete, delete,
}
use chono_db.Wal.Entry.RoundTrip.{IsStorable, decode-encode_entry}
use chono_db.Wal.Header.{WalHeader, new_header, IsHeader}
use chono_db.Wal.Reader.{Directory, read_segment, list_segments}
use chono_db.Wal.Reader.Enough.{read_segment-ends}
use chono_db.Wal.Reader.Segments.{Written, IsWritten, bytes_of}
use chono_db.Wal.Writer.{default_segment_config, write, with_config as new_writer}
use chono_db.Wal.Writer.First.{write-first_rotates}
use chono_db.Wal.Writer.Directories.{Segment, IsSegment, IsRising, IsBelow, directory, entries_in}
use chono_db.Wal.{
  Wal, wal_ops, log_write, default_config, with_config, recover, validate, cleanup_old_segments,
  by_age, bytes_in, with_metadata,
}
use chono_db.Wal.Recovery.{
  Call, writes, deletes, call_each, entry_of, time_of, IsCall, recover-call_each, with_config-IsLog,
}
use chono_db.Model.{TimeSeriesId, Labels}
use chono_db.MemStore.Head.{new as new_head}
use chono_db.MemStore.Head.Invariant.{new-IsHead}
use chono_db.MemStore.Store.{MemStore, log, write as store_write}
use chono_db.MemStore.Store.ReadBack.{write_decides}
use chono_db.Wal.Writer.Log.{IsLog}
use chono_db.Wal.Writer.Writes.{write-IsLonger}
use chono_db.Wal.Stored.{HasLogged, write-HasLogged}
use chono_db.Wal.Lost.{torn, recover-torn}
use chono_db.Wal.Cleanup.{IsRecent, Leaves, cleanup_old_segments-Leaves}

tiny_from_slice : List ℕ → Result WalEntry
tiny_from_slice (kind ∷ time ∷ series_id ∷ []) =
    if kind == 1
    then ok (new_write (pos time) series_id [] [])
    else ok (new_delete (pos time) series_id)
tiny_from_slice bytes = err serialization

abbrev tiny : Codec
tiny = record {
  to_vec = λ entry. ok (as_u8 entry.entry_type ∷ pos_part entry.timestamp ∷ entry.series_id ∷ []);
  from_slice = tiny_from_slice;
  hash = λ bytes. length bytes;
}

abbrev deleted : WalEntry
deleted = new_delete (pos 7000) 3

deleted-IsStorable : IsStorable tiny deleted
unfolding tiny_from_slice new_delete as_u8
deleted-IsStorable = record {
  json = 2 ∷ 7000 ∷ 3 ∷ [];
  json_of = refl;
  reads_back = refl;
  short = omega arith;
  checksum = omega arith;
}

decode-encode_entry_example :
    (encode tiny deleted >>= λ bytes. decode tiny (bytes ++ (9 ∷ []))) ≡ ok deleted
decode-encode_entry_example = decode-encode_entry tiny deleted (9 ∷ []) deleted-IsStorable

abbrev header : WalHeader
header = record { sequence = 300; created_at = pos 70000; version = 1 }

header-IsHeader : IsHeader header
header-IsHeader = record {
  sequence_fits = omega arith;
  created_fits = ground arith;
  version_fits = omega arith;
}

tiny_from_slice-ends : (json : List ℕ) → tiny_from_slice json ≢ stuck
unfolding tiny_from_slice
tiny_from_slice-ends [] e = cc
tiny_from_slice-ends (a ∷ []) e = cc
tiny_from_slice-ends (a ∷ b ∷ []) e = cc
tiny_from_slice-ends (a ∷ b ∷ c ∷ []) e = ground arith
tiny_from_slice-ends (a ∷ b ∷ c ∷ d ∷ rest) e = cc

abbrev three_bytes : Directory
three_bytes = (4, record { bytes = 1 ∷ 2 ∷ 3 ∷ []; created = 10 }) ∷ []

read_segment-ends_example : read_segment tiny three_bytes 4 ≢ stuck
read_segment-ends_example = read_segment-ends tiny tiny_from_slice-ends three_bytes 4

write-first_rotates_example :
    (write tiny 7200000 deleted (new_writer 7000000 [] default_segment_config)).1.current_segment
    ≡ 1
unfolding default_segment_config
write-first_rotates_example =
    write-first_rotates tiny 7000000 7200000 default_segment_config deleted
      (frame tiny delete (2 ∷ 7000 ∷ 3 ∷ [])) (omega arith) (omega arith) (omega arith)
      (unfold encode in unfold new_delete in unfold as_u8 in refl)

abbrev calls : List Call
calls = writes 9000 1 [] [] ∷ deletes 8000 1 ∷ []

calls-IsCall : IsCall tiny (writes 9000 1 [] []) × (IsCall tiny (deletes 8000 1) × Unit {0})
unfolding IsCall time_of entry_of tiny_from_slice new_delete new_write as_u8
calls-IsCall = (
  (
    omega arith,
    record {
      json = 1 ∷ 9000 ∷ 1 ∷ [];
      json_of = refl;
      reads_back = refl;
      short = omega arith;
      checksum = omega arith;
    },
  ),
  (
    (
      omega arith,
      record {
        json = 2 ∷ 8000 ∷ 1 ∷ [];
        json_of = refl;
        reads_back = refl;
        short = omega arith;
        checksum = omega arith;
      },
    ),
    tt,
  ),
)

-- The clock went back: the deletion comes first.
recover-call_each_example :
    let wal = call_each tiny calls (with_config 8500 [] default_config) in
    (wal.0 ≡ ok tt)
    × (recover tiny wal.1 ≡ ok (sort_by (λ (e : WalEntry). e.timestamp) (map entry_of calls)))
    × (validate tiny wal.1 ≡ ok tt)
recover-call_each_example =
    recover-call_each tiny 8500 default_config calls (omega arith) calls-IsCall (omega arith)

deletion_first :
    sort_by (λ (e : WalEntry). e.timestamp) (map entry_of calls)
    ≡ new_delete (pos 8000) 1 ∷ new_write (pos 9000) 1 [] [] ∷ []
unfolding sort_by insert_each insert_by entry_of new_write new_delete
deletion_first = refl

abbrev deletion : ℕ → Written
deletion sequence = record { sequence = sequence; entry = deleted; json = 2 ∷ 7000 ∷ 3 ∷ [] }

deletion-IsWritten : (sequence : ℕ) → IsWritten tiny (deletion sequence)
unfolding tiny_from_slice new_delete as_u8
deletion-IsWritten sequence = record {
  json_of = refl;
  reads_back = refl;
  short = omega arith;
  checksum = omega arith;
}

abbrev segment : ℕ → Segment
segment number = record {
  number = number;
  header = header;
  created = 70;
  written = deletion 300 ∷ [];
}

segment-IsSegment : (number : ℕ) → IsSegment tiny (segment number)
segment-IsSegment number = record {
  heading = header-IsHeader;
  entries = (deletion-IsWritten 300, tt);
}

abbrev after_crash : Wal
after_crash = record {
  writer = record {
    files = directory tiny (segment 4 ∷ []) ++ ((5, torn tiny (segment 5) (deletion 301) 20) ∷ []);
    current_segment = 5;
    current_size = 54;
    current_entries = 1;
    segment_created_at = 70;
    sequence = 301;
    config = default_segment_config;
  };
  config = default_config;
}

recover-torn_example :
    recover tiny after_crash
    ≡ ok (sort_by (λ (e : WalEntry). e.timestamp) (entries_in (segment 4 ∷ [])))
recover-torn_example =
    recover-torn tiny after_crash (segment 4 ∷ []) (segment 5) (deletion 301) 20 refl
      (unfold IsRising in (tt, tt)) (unfold IsBelow in (omega arith, tt)) (segment-IsSegment 4, tt)
      (segment-IsSegment 5) (deletion-IsWritten 301) (omega arith)
      (unfold bytes_of in unfold frame in unfold u64_bytes in unfold to_le_bytes in omega arith)

-- Three segments, of which the oldest is more than a day old.
abbrev three_segments : Wal
three_segments = record {
  writer = record {
    files =
        (0, record { bytes = 0 ∷ []; created = 1000 })
        ∷ (1, record { bytes = 0 ∷ []; created = 90000 })
        ∷ (2, record { bytes = 0 ∷ []; created = 91000 })
        ∷ [];
    current_segment = 2;
    current_size = 1;
    current_entries = 0;
    segment_created_at = 91000;
    sequence = 0;
    config = default_segment_config;
  };
  config = default_config;
}

few_bytes : bytes_in (by_age three_segments.writer.files) ≤ 10737418240
unfolding by_age with_metadata list_segments sort_by insert_each insert_by bytes_in keys lookup
few_bytes = omega arith

cleanup_old_segments-Leaves_example : Leaves 92000000 three_segments
cleanup_old_segments-Leaves_example =
    cleanup_old_segments-Leaves 92000000 three_segments
      (unfold lookup in (refl, (refl, (refl, tt)))) (unfold default_config in omega arith)

-- The middle segment is recent.
keeps_recent :
    lookup 1 (cleanup_old_segments 92000000 three_segments).1.writer.files
    ≡ some (record { bytes = 0 ∷ []; created = 90000 })
unfolding default_config
keeps_recent =
    cleanup_old_segments-Leaves_example.recent_kept 1 (record { bytes = 0 ∷ []; created = 90000 })
      few_bytes (unfold IsRecent in unfold default_config in omega arith) (unfold lookup in refl)

-- A store over an empty log, and a write without labels and samples.
abbrev by_number : Labels → TimeSeriesId
by_number ls = length ls

abbrev small_store : MemStore Wal
small_store = record {
  head = new_head (record { max_series = 1; max_samples_per_series = 10; chunk_capacity = 10 });
  wal = some (with_config 8500 [] default_config);
  stats = record { total_series = 0; total_samples = 0; total_bytes = 0; writes = 0; reads = 0 };
}

abbrev empty_segment : Segment
empty_segment = record { number = 0; header = new_header (pos 8500) 0; created = 8; written = [] }

empty-IsLog : IsLog tiny (with_config 8500 [] default_config).writer [] empty_segment
unfolding with_config
empty-IsLog = with_config-IsLog tiny 8500 default_config.segment_config (omega arith)

abbrev no_samples : WalEntry
no_samples = new_write (pos 9000) 0 [] []

no_samples-IsStorable : IsStorable tiny no_samples
unfolding tiny_from_slice new_write as_u8
no_samples-IsStorable = record {
  json = 1 ∷ 9000 ∷ 0 ∷ [];
  json_of = refl;
  reads_back = refl;
  short = omega arith;
  checksum = omega arith;
}

log_works : (log (wal_ops tiny 9000) by_number small_store.wal 0 [] []).0 ≡ ok tt
unfolding log wal_ops log_write with_config
log_works =
    (write-IsLonger tiny 9000 no_samples (with_config 8500 [] default_config).writer []
      empty_segment empty-IsLog no_samples-IsStorable (omega (arith, empty-IsLog.current))
      (omega arith)).succeeds

store_works : (store_write (wal_ops tiny 9000) by_number small_store [] []).0 ≡ ok tt
unfolding new_head lookup
store_works = write_decides (wal_ops tiny 9000) by_number small_store [] [] (new-IsHead _) log_works

write-HasLogged_example :
    HasLogged tiny
      (entries_in (empty_segment ∷ []))
      no_samples
      (store_write (wal_ops tiny 9000) by_number small_store [] []).1
write-HasLogged_example =
    write-HasLogged tiny 9000 by_number small_store
      (store_write (wal_ops tiny 9000) by_number small_store [] []).1
      (with_config 8500 [] default_config) [] empty_segment [] [] refl empty-IsLog
      no_samples-IsStorable (omega (arith, empty-IsLog.current)) (omega arith)
      (ap (λ r. (r, (store_write (wal_ops tiny 9000) by_number small_store [] []).1)) store_works)
