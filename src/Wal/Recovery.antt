-- ===== src/Wal/Recovery.antt =====
-- What `recover` gives: the entries that were logged, in the order of time; a segment that a crash left
-- torn is lost.
use chono_db.Prelude.{
  ◌/◌, ℕ, ◌<◌, ◌^◌, List, [], ◌∷◌, map, length, length-map, ◌≡◌, refl, ap, arith, All, append-nil,
}
use chono_db.Prelude.Assoc.{lookup, number_key}
use chono_db.Prelude.Int.{pos}
use chono_db.Prelude.Sort.{sort_by}
use chono_db.Error.{on_ok, on_ok-carry, Result, ok, >>=-eq-ok}
use chono_db.Model.{TimeSeriesId, Labels, Sample}
use chono_db.Wal.Entry.{WalEntry, Codec, new_write, new_delete}
use chono_db.Wal.Header.{new_header, encode_header}
use chono_db.Wal.Reader.{Directory, read_segment, read_each, read_all}
use chono_db.Wal.Entry.RoundTrip.{IsStorable}
use chono_db.Wal.Reader.Segments.{body}
use chono_db.Wal.Writer.{
  WalWriter, WalSegmentConfig, with_config as new_writer, write, create_file, append_to,
  find_latest_segment, find_loop, file_size,
}
use chono_db.Wal.Writer.Directories.{directory, file_of, entries_in, IsBelow, IsRising}
use chono_db.Wal.Writer.Log.{IsLog, new_header-IsHeader}
use chono_db.Wal.Writer.Writes.{write_each, write_each-reads, asked, IsRequest}
use chono_db.Wal.{
  Wal, WalConfig, with_config, log_write, log_delete, append_entries, recover_each, recover,
  validate_each, validate,
}

-- A call of the log, at its time.
pub data Call : Type 0 where
  writes : ℕ → TimeSeriesId → Labels → List Sample → Call
  deletes : ℕ → TimeSeriesId → Call

unfoldable pub entry_of : Call → WalEntry
entry_of (writes now series_id labels samples) = new_write (pos now) series_id labels samples
entry_of (deletes now series_id) = new_delete (pos now) series_id

unfoldable pub time_of : Call → ℕ
time_of (writes now series_id labels samples) = now
time_of (deletes now series_id) = now

unfoldable pub call : Codec → Call → Wal → Result (Unit {0}) × Wal
call codec (writes now series_id labels samples) wal =
    log_write codec now wal series_id labels samples
call codec (deletes now series_id) wal = log_delete codec now wal series_id

-- Calls one after the other; an error ends them.
unfoldable pub call_each : Codec → List Call → Wal → Result (Unit {0}) × Wal
call_each codec [] wal = (ok tt, wal)
call_each codec (c ∷ calls) wal = on_ok (call_each codec calls) (call codec c wal)

unfoldable pub request_of : Call → ℕ × WalEntry
request_of c = (time_of c, entry_of c)

call-write :
    (codec : Codec) (c : Call) (wal : Wal)
    → call codec c wal ≡ (
      (write codec (time_of c) (entry_of c) wal.writer).0,
      record wal { writer = (write codec (time_of c) (entry_of c) wal.writer).1 },
    )
unfolding call log_write log_delete time_of entry_of
call-write codec (writes now series_id labels samples) wal = refl
call-write codec (deletes now series_id) wal = refl

call_each-write_each :
    (codec : Codec) (calls : List Call) (wal : Wal)
    → call_each codec calls wal ≡ (
      (write_each codec (map request_of calls) wal.writer).0,
      record wal { writer = (write_each codec (map request_of calls) wal.writer).1 },
    )
unfolding call_each write_each request_of
call_each-write_each codec [] wal = refl
call_each-write_each codec (c ∷ calls) wal = rw (call-write codec c wal) (
    on_ok-carry (λ (writer : WalWriter). record wal { writer = writer }) (call_each codec calls)
      (write_each codec (map request_of calls))
      (λ writer. call_each-write_each codec calls (record wal { writer = writer }))
      (write codec (time_of c) (entry_of c) wal.writer))

pub with_config-IsLog :
    (codec : Codec) (now : ℕ) (config : WalSegmentConfig)
    → now < 2 ^ 63
    → IsLog codec
        (new_writer now [] config)
        []
        (record { number = 0; header = new_header (pos now) 0; created = now / 1000; written = [] })
unfolding new_writer find_latest_segment find_loop lookup file_size create_file append_to directory
    file_of body IsBelow IsRising
with_config-IsLog codec now config time = record {
  files_are = rw (append-nil (encode_header (new_header (pos now) 0))) refl;
  current = refl;
  below = tt;
  rising = tt;
  olds_good = tt;
  last_good = record { heading = new_header-IsHeader codec now 0 time (omega arith); entries = tt };
  counted = omega arith;
}

-- Where every segment reads, recovering reads the same.
recover_each-read_each :
    (codec : Codec) (files : Directory) (ns : List ℕ) (entries : List WalEntry)
    → read_each codec files ns ≡ ok entries
    → (recover_each codec files ns ≡ ok entries) × (validate_each codec files ns ≡ ok tt)
unfolding read_each recover_each validate_each append_entries
recover_each-read_each codec files [] entries h = (h, refl)
recover_each-read_each codec files (n ∷ ns) entries h =
    let (first, ok_first, later) = >>=-eq-ok (read_segment codec files n) _ h in
    let (rest, ok_rest, last) = >>=-eq-ok (read_each codec files ns) _ later in
    let (recovered, valid) = recover_each-read_each codec files ns rest ok_rest in
    rw (ok_first, recovered, valid) (last, refl)

-- What a caller logs: at a time that fits, an entry that can be stored.
unfoldable pub IsCall : Codec → Call → Type 0
IsCall codec c = (time_of c < 2 ^ 63) × IsStorable codec (entry_of c)

requests-All :
    (codec : Codec) (calls : List Call)
    → All (IsCall codec) calls
    → All (IsRequest codec) (map request_of calls)
unfolding IsCall request_of
requests-All codec [] h = tt
requests-All codec (c ∷ calls) (first, h) = (first, requests-All codec calls h)

asked-entries :
    (codec : Codec) (calls : List Call) → asked codec (map request_of calls) ≡ map entry_of calls
unfolding request_of
asked-entries codec [] = refl
asked-entries codec (c ∷ calls) = ap (λ l. entry_of c ∷ l) (asked-entries codec calls)

-- On a log in an empty directory, calls that can be stored succeed, and recovering then gives
-- their entries, sorted by time; every segment is valid.
pub recover-call_each :
    (codec : Codec) (now : ℕ) (config : WalConfig) (calls : List Call)
    → now < 2 ^ 63
    → All (IsCall codec) calls
    → length calls < 2 ^ 64
    → let wal = call_each codec calls (with_config now [] config) in
      (wal.0 ≡ ok tt)
      × (recover codec wal.1 ≡ ok (sort_by (λ (e : WalEntry). e.timestamp) (map entry_of calls)))
      × (validate codec wal.1 ≡ ok tt)
unfolding with_config recover validate read_all entries_in
recover-call_each codec now config calls time good room =
    let (done, reads) =
      write_each-reads codec (map request_of calls) (new_writer now [] config.segment_config) [] _
        (with_config-IsLog codec now config.segment_config time) (requests-All codec calls good)
        (omega (
          arith,
          (with_config-IsLog codec now config.segment_config time).current,
          length-map calls request_of,
        )) in
    let (recovered, valid) = recover_each-read_each codec _ _ _ reads in
    rw (call_each-write_each codec calls (with_config now [] config))
      (done, rw (recovered, asked-entries codec calls) refl, valid)
