-- ===== src/Wal/Entry.antt =====
-- storage/src/wal/entry.rs: the entries of the log and their bytes. The
-- JSON of serde and the checksum of crc32fast are parameters; the clock is an argument.
pub mod RoundTrip
use chono_db.Prelude.Bytes.{to_le_bytes, u32_at}
use chono_db.Prelude.{
  ℕ, ◌+◌, ◌*◌, ◌/◌, ◌%◌, ◌^◌, List, [], ◌∷◌, ◌++◌, length, get_or, take, drop, Option, none, some,
  Bool, not, ltb, ◌==◌, if◌then◌else◌,
}
use chono_db.Prelude.Int.{ℤ}
use chono_db.Prelude.Word.{as_u64, as_i64}
use chono_db.Error.{Result, ok, err, stuck, wal, ◌>>=◌, ◌>>◌, ensure}
use chono_db.Model.{Timestamp, TimeSeriesId, Labels, Sample}

abbrev pub wal_entry_header_size : ℕ
wal_entry_header_size = 16

-- `0x43_48_52_4F`
abbrev pub wal_magic : ℕ
wal_magic = 1128813135

pub data WalEntryType : Type 0 where
  write : WalEntryType
  delete : WalEntryType
  series : WalEntryType
  tombstone : WalEntryType
  checkpoint : WalEntryType

-- `entry_type as u8`
unfoldable pub as_u8 : WalEntryType → ℕ
as_u8 write = 1
as_u8 delete = 2
as_u8 series = 3
as_u8 tombstone = 4
as_u8 checkpoint = 5

unfoldable pub try_from : ℕ → Result WalEntryType
try_from value =
    if value == 1
    then ok write
    else if value == 2
    then ok delete
    else if value == 3
    then ok series
    else if value == 4
    then ok tombstone
    else if value == 5
    then ok checkpoint
    else err (wal "Invalid WAL entry type")

pub record WalEntry : Type 0 where
  pub entry_type : WalEntryType
  pub series_id : TimeSeriesId
  pub labels : Option Labels
  pub samples : List Sample
  pub timestamp : Timestamp

unfoldable pub new_write : Timestamp → TimeSeriesId → Labels → List Sample → WalEntry
new_write now series_id labels samples = record {
  entry_type = write;
  series_id = series_id;
  labels = some labels;
  samples = samples;
  timestamp = now;
}

unfoldable pub new_delete : Timestamp → TimeSeriesId → WalEntry
new_delete now series_id = record {
  entry_type = delete;
  series_id = series_id;
  labels = none;
  samples = [];
  timestamp = now;
}

unfoldable pub new_series : Timestamp → TimeSeriesId → Labels → WalEntry
new_series now series_id labels = record {
  entry_type = series;
  series_id = series_id;
  labels = some labels;
  samples = [];
  timestamp = now;
}

unfoldable pub new_checkpoint : Timestamp → ℕ → WalEntry
new_checkpoint now sequence = record {
  entry_type = checkpoint;
  series_id = sequence;
  labels = none;
  samples = [];
  timestamp = now;
}

-- `serde_json::to_vec`, `serde_json::from_slice` and `crc32fast::hash`.
pub record Codec : Type 0 where
  pub to_vec : WalEntry → Result (List ℕ)
  pub from_slice : List ℕ → Result WalEntry
  pub hash : List ℕ → ℕ

module _ (codec : Codec) where
  -- The bytes around the JSON of an entry.
  unfoldable pub frame : WalEntryType → List ℕ → List ℕ
  frame entry_type json =
      to_le_bytes wal_magic
      ++ ((as_u8 entry_type ∷ 0 ∷ 0 ∷ 0 ∷ [])
          ++ (to_le_bytes (length json % 2 ^ 32) ++ (to_le_bytes (codec.hash json) ++ json)))

  unfoldable pub encode : WalEntry → Result (List ℕ)
  encode entry = do json ← codec.to_vec entry; ok (frame entry.entry_type json)

  unfoldable pub decode : List ℕ → Result WalEntry
  decode bytes = do
    ensure (not (ltb (length bytes) wal_entry_header_size)) (wal "WAL entry too short")
    ensure (u32_at bytes 0 == wal_magic) (wal "Invalid WAL magic number")
    _ ← try_from (get_or bytes 4 0)
    let data_len = u32_at bytes 8
    let expected_crc = u32_at bytes 12
    ensure (not (ltb (length bytes) (wal_entry_header_size + data_len))) (wal "WAL entry truncated")
    let entry_data = take data_len (drop wal_entry_header_size bytes)
    ensure (expected_crc == codec.hash entry_data) (wal "WAL entry CRC mismatch")
    codec.from_slice entry_data
