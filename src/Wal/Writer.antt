-- ===== src/Wal/Writer.antt =====
-- storage/src/wal/writer.rs: `WalWriter`, which appends to the newest segment and starts another
-- where a limit is reached. The clock is an argument, in milliseconds. Every write ends with a flush,
-- so the buffer is empty between calls; a full disk is not part of the model.
pub mod Directories
pub mod Log
pub mod First
pub mod Writes
use chono_db.Prelude.Bytes.{u64_bytes}
use chono_db.Prelude.{
  ℕ, ◌+◌, ◌-◌, ◌/◌, ◌%◌, ◌^◌, List, [], ◌∷◌, ◌++◌, length, Option, none, some, Bool, ltb, leb, ◌==◌,
  ◌||◌, ◌&&◌, not, if◌then◌else◌, is_some,
}
use chono_db.Prelude.Assoc.{lookup, number_key}
use chono_db.Prelude.Int.{pos}
use chono_db.Error.{Result, ok, err, stuck, io, ◌>>=◌}
use chono_db.Wal.Entry.{WalEntry, Codec, encode}
use chono_db.Wal.Header.{WalHeader, new_header, encode_header, header_size}
use chono_db.Wal.Reader.{SegmentFile, Directory}

pub record WalSegmentConfig : Type 0 where
  pub max_segment_size : ℕ
  pub max_segment_entries : ℕ
  pub max_segment_duration_secs : ℕ

unfoldable pub default_segment_config : WalSegmentConfig
default_segment_config = record {
  max_segment_size = 134217728;
  max_segment_entries = 100000;
  max_segment_duration_secs = 3600;
}

-- `files` is the directory that `path` names.
pub record WalWriter : Type 0 where
  pub files : Directory
  pub current_segment : ℕ
  pub current_size : ℕ
  pub current_entries : ℕ
  pub segment_created_at : ℕ
  pub sequence : ℕ
  pub config : WalSegmentConfig

-- A file is made at the end of the directory.
unfoldable pub create_file : ℕ → ℕ → Directory → Directory
create_file segment now files =
    files ++ ((segment, record { bytes = []; created = now / 1000 }) ∷ [])

-- Writing to the open file of a segment; once the file is deleted, the bytes go nowhere.
unfoldable pub append_to : ℕ → List ℕ → Directory → Directory
append_to segment more [] = []
append_to segment more ((number, file) ∷ files) =
    let rest = append_to segment more files in
    if number == segment
    then (number, record file { bytes = file.bytes ++ more }) ∷ files
    else (number, file) ∷ rest

-- Every file tells the time of its creation.
-- The loop of `find_latest_segment`: the number and the time of creation so far.
unfoldable pub find_loop : ℕ → ℕ → Directory → ℕ × ℕ
find_loop latest_segment created_at [] = (latest_segment, created_at)
find_loop latest_segment created_at ((segment, file) ∷ files) =
    let newer = find_loop segment file.created files in
    let same = find_loop latest_segment created_at files in
    if ltb latest_segment segment then newer else same

-- The latest segment, the sequence number, which stays 0, and the time of creation.
unfoldable pub find_latest_segment : Directory → ℕ × ℕ × ℕ
find_latest_segment files =
    let (latest_segment, created_at) = find_loop 0 0 files in (latest_segment, 0, created_at)

-- The entries are counted as if each had 1024 bytes.
unfoldable pub count_entries : ℕ → ℕ
count_entries file_size = if leb file_size header_size then 0 else (file_size - header_size) / 1024

unfoldable pub file_size : ℕ → Directory → ℕ
file_size segment files = elim (lookup segment files) [ none ↦ 0 | some file ↦ length file.bytes ]

unfoldable pub with_config : ℕ → Directory → WalSegmentConfig → WalWriter
with_config now files config =
    let (segment, sequence, created_at) = find_latest_segment files in
    let file_exists = is_some (lookup segment files) in
    let opened = if file_exists then files else create_file segment now files in
    let current_size = file_size segment opened in
    let header = encode_header (new_header (pos now) sequence) in
    record {
      files =
          if not file_exists || current_size == 0 then append_to segment header opened else opened;
      current_segment = segment;
      current_size = current_size;
      current_entries = count_entries current_size;
      segment_created_at = created_at;
      sequence = sequence;
      config = config;
    }

-- `self.writer.flush()?` and `sync_all`
unfoldable pub sync : WalWriter → Result (Unit {0}) × WalWriter
sync writer = (ok tt, writer)

-- The three limits; a clock that was set back makes the age wrap around.
unfoldable pub should_rotate : ℕ → WalWriter → Bool
should_rotate now writer =
    leb writer.config.max_segment_size writer.current_size
    || leb writer.config.max_segment_entries writer.current_entries
    || (ltb 0 writer.config.max_segment_duration_secs
        && leb writer.config.max_segment_duration_secs
            ((now / 1000 + 2 ^ 64 - writer.segment_created_at) % 2 ^ 64))

-- The fields are set before the file is made, which fails where it is there (`create_new`). The
-- program then goes on in the old file, and a later `put` of the model in the file that is there; with
-- the writers of `with_config`, which stand at the last segment, no file is in the way.
unfoldable pub rotate : ℕ → WalWriter → Result (Unit {0}) × WalWriter
rotate now writer =
    let segment = (writer.current_segment + 1) % 2 ^ 64 in
    let next = record writer {
      current_segment = segment;
      current_size = 0;
      current_entries = 0;
      segment_created_at = now / 1000;
    } in
    let header = encode_header (new_header (pos now) writer.sequence) in
    if is_some (lookup segment writer.files) then (err io, next) else (
      ok tt,
      record next { files = append_to segment header (create_file segment now writer.files) },
    )

-- The bytes of an entry are there: they are written behind the sequence number, and counted.
unfoldable pub put : List ℕ → WalWriter → WalWriter
put encoded writer =
    let header = u64_bytes writer.sequence in
    record writer {
      files = append_to writer.current_segment (header ++ encoded) writer.files;
      current_size = writer.current_size + (length header + length encoded);
      current_entries = writer.current_entries + 1;
      sequence = (writer.sequence + 1) % 2 ^ 64;
    }

unfoldable pub write_bytes : ℕ → List ℕ → WalWriter → Result (Unit {0}) × WalWriter
write_bytes now encoded writer =
    let written = put encoded writer in
    if should_rotate now written then rotate now written else (ok tt, written)

unfoldable pub write : Codec → ℕ → WalEntry → WalWriter → Result (Unit {0}) × WalWriter
write codec now entry writer = elim (encode codec entry) [
  | ok encoded ↦ write_bytes now encoded writer
  | err e ↦ (err e, writer)
  | stuck ↦ (stuck, writer)
]
