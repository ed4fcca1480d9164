-- ===== src/Wal/Stored.antt =====
-- The store over the log: what `MemStore::write` writes is what the log gives back.
use chono_db.Prelude.{ℕ, ◌+◌, ◌<◌, ◌^◌, ◌≡◌, sym, ap, ◌∙◌, List, [], ◌∷◌, ◌++◌, some}
use chono_db.Prelude.Int.{pos}
use chono_db.Error.{ok}
use chono_db.Model.{TimeSeriesId, Labels, Sample}
use chono_db.MemStore.Store.{MemStore, log, write}
use chono_db.MemStore.Store.Logged.{write-logs}
use chono_db.Wal.Entry.{WalEntry, Codec, new_write}
use chono_db.Wal.Entry.RoundTrip.{IsStorable}
use chono_db.Wal.Reader.{read_all}
use chono_db.Wal.Writer.Directories.{Segment, entries_in}
use chono_db.Wal.Writer.Log.{IsLog, read_all-IsLog}
use chono_db.Wal.Writer.Writes.{write-IsLonger}
use chono_db.Wal.{Wal, wal_ops, log_write}

-- The log of the store has one entry more.
pub record HasLogged (codec : Codec) (before : List WalEntry) (entry : WalEntry)
    (store : MemStore Wal) : Type 0 where
  pub wal : Wal
  pub is_there : store.wal ≡ some wal
  pub reads : read_all codec wal.writer.files ≡ ok (before ++ (entry ∷ []))

log_write-reads :
    (codec : Codec) (now : ℕ) (wal : Wal) (olds : List Segment) (last : Segment) (i : TimeSeriesId)
    (labels : Labels) (ss : List Sample)
    → IsLog codec wal.writer olds last
    → IsStorable codec (new_write (pos now) i labels ss)
    → wal.writer.current_segment + 1 < 2 ^ 64
    → now < 2 ^ 63
    → read_all codec (log_write codec now wal i labels ss).1.writer.files
      ≡ ok (entries_in (olds ++ (last ∷ [])) ++ (new_write (pos now) i labels ss ∷ []))
unfolding log_write
log_write-reads codec now wal olds last i labels ss h storable room time =
    let longer =
      write-IsLonger codec now (new_write (pos now) i labels ss) wal.writer olds last h storable
        room time in
    read_all-IsLog codec _ longer.olds longer.last longer.is_log ∙ ap ok longer.one_more

-- Let the log be well-formed: its segments have a header and whole entries that can be stored, and the
-- writer stands at the end of the last one. Let the entry of the write be one that can be stored: its
-- JSON reads back as the entry, so that no value is infinite or no number, and its numbers fit their
-- fields. Let the next segment number and the time fit a `u64` and an `i64`. Where
-- `MemStore::write` then succeeds, reading all segments gives the entries that they held, and behind
-- them the write, under the id of its labels.
pub write-HasLogged :
    (codec : Codec) (now : ℕ) (id_of : Labels → TimeSeriesId) (store store' : MemStore Wal)
    (wal : Wal) (olds : List Segment) (last : Segment) (labels : Labels) (ss : List Sample)
    → store.wal ≡ some wal
    → IsLog codec wal.writer olds last
    → IsStorable codec (new_write (pos now) (id_of labels) labels ss)
    → wal.writer.current_segment + 1 < 2 ^ 64
    → now < 2 ^ 63
    → write (wal_ops codec now) id_of store labels ss ≡ (ok tt, store')
    → HasLogged codec
        (entries_in (olds ++ (last ∷ [])))
        (new_write (pos now) (id_of labels) labels ss)
        store'
unfolding log wal_ops
write-HasLogged codec now id_of store store' wal olds last labels ss there h storable room time e =
    let logs = write-logs (wal_ops codec now) id_of store store' labels ss e in
    let here =
      ap (λ w. log (wal_ops codec now) id_of w (id_of labels) labels ss) (sym there) ∙ logs in
    record {
      wal = (log_write codec now wal (id_of labels) labels ss).1;
      is_there = sym (ap (λ r. r.1) here);
      reads = log_write-reads codec now wal olds last (id_of labels) labels ss h storable room time;
    }
