-- ===== src/Wal/Reader.antt =====
-- storage/src/wal/reader.rs: `WalReader`. The directory of the log maps the number in a segment's
-- name to its file; reading a file that is there fails only where its bytes end.
pub mod Enough
pub mod Segments
pub mod Torn
use chono_db.Prelude.Bytes.{u32_at}
use chono_db.Prelude.{
  ℕ, suc, zero, ◌+◌, List, [], ◌∷◌, ◌++◌, length, take, drop, Option, none, some, ltb,
  if◌then◌else◌, get_elem?,
}
use chono_db.Prelude.Assoc.{Assoc, lookup, keys, number_key}
use chono_db.Prelude.Int.{ℤ, pos}
use chono_db.Prelude.Sort.{sort_by}
use chono_db.Error.{Result, ok, err, stuck, io, ◌>>=◌}
use chono_db.Wal.Entry.{WalEntry, Codec, decode, wal_entry_header_size}
use chono_db.Wal.Header.{decode_header, header_size}

-- A file: its bytes, and the second of its creation.
pub record SegmentFile : Type 0 where
  pub bytes : List ℕ
  pub created : ℕ

abbrev pub Directory : Type 0
Directory = Assoc ℕ SegmentFile

-- The sort of the numbers.
unfoldable pub list_segments : Directory → List ℕ
list_segments files = sort_by (λ (n : ℕ). pos n) (keys files)

-- `entries.push(entry)` before the rounds that follow, or what ends the loop.
unfoldable pub push_entry : Result WalEntry → Result (List WalEntry) → Result (List WalEntry)
push_entry (ok entry) rest = do entries ← rest; ok (entry ∷ entries)
push_entry (err e) rest = ok []
push_entry stuck rest = stuck

module _ (codec : Codec) where
  -- The `loop` of `read_segment` on the bytes that are left: eight of the sequence number, sixteen of
  -- the header, then those that the header counts.
  unfoldable pub read_loop : ℕ → List ℕ → Result (List WalEntry)
  read_loop zero bytes = stuck
  read_loop (suc fuel) bytes =
      let after = drop 8 bytes in
      let data_len = u32_at after 8 in
      let rest = read_loop fuel (drop (wal_entry_header_size + data_len) after) in
      if ltb (length bytes) 8
      then ok []
      else if ltb (length after) wal_entry_header_size
      then err io
      else if ltb (length after) (wal_entry_header_size + data_len)
      then err io
      else push_entry (decode codec (take (wal_entry_header_size + data_len) after)) rest

  unfoldable pub read_file : List ℕ → Result (List WalEntry)
  read_file bytes = if ltb (length bytes) header_size then err io else do
    _ ← decode_header (take header_size bytes)
    read_loop (suc (length bytes)) (drop header_size bytes)

  unfoldable pub read_segment : Directory → ℕ → Result (List WalEntry)
  read_segment files segment = elim (lookup segment files) [
    | none ↦ err io
    | some file ↦ read_file file.bytes
  ]

  -- The loop of `read_all`.
  unfoldable pub read_each : Directory → List ℕ → Result (List WalEntry)
  read_each files [] = ok []
  read_each files (segment ∷ segments) = do
    segment_entries ← read_segment files segment
    entries ← read_each files segments
    ok (segment_entries ++ entries)

  unfoldable pub read_all : Directory → Result (List WalEntry)
  read_all files = read_each files (list_segments files)
