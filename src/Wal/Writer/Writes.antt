-- ===== src/Wal/Writer/Writes.antt =====
-- The log as a list of entries: what is written is what is read, in the order of the writes, whatever
-- segments the writer starts.
use chono_db.Prelude.{
  ℕ, ◌+◌, ◌^◌, ◌≤◌, ◌<◌, List, [], ◌∷◌, ◌++◌, map, length, ◌≡◌, refl, ap, ◌∙◌, subst, arith, All,
  append_assoc, append-nil, Bool-cases, inl, inr,
}
use chono_db.Prelude.Assoc.{number_key}
use chono_db.Error.{on_ok, on_ok-first, Result, ok}
use chono_db.Wal.Entry.{encode, WalEntry, Codec, frame}
use chono_db.Wal.Reader.{read_all}
use chono_db.Wal.Entry.RoundTrip.{IsStorable}
use chono_db.Wal.Reader.Segments.{Written, IsWritten, IsStorable-IsWritten}
use chono_db.Wal.Writer.{WalWriter, should_rotate, rotate, put, write_bytes, write}
use chono_db.Wal.Writer.Directories.{Segment, entries_in, entries_in-append}
use chono_db.Wal.Writer.Log.{
  IsLog, read_all-IsLog, with_entry, fresh, put-IsLog, rotate-IsLog, entries_in-with_entry,
}

module _ (codec : Codec) where
  -- A write succeeds, and the log has one entry more.
  pub record IsLonger (entry : WalEntry) (before : List WalEntry) (segment : ℕ)
      (r : Result (Unit {0}) × WalWriter) : Type 0 where
    pub olds : List Segment
    pub last : Segment
    pub succeeds : r.0 ≡ ok tt
    pub is_log : IsLog codec r.1 olds last
    pub one_more : entries_in (olds ++ (last ∷ [])) ≡ before ++ (entry ∷ [])
    pub next_segment : r.1.current_segment ≤ segment + 1

  entries_in-fresh :
      (now : ℕ) (writer : WalWriter) (ss : List Segment)
      → entries_in (ss ++ (fresh codec now writer ∷ [])) ≡ entries_in ss
  unfolding fresh entries_in
  entries_in-fresh now writer ss =
      rw (entries_in-append ss (fresh codec now writer ∷ []), append-nil (entries_in ss)) refl

  put-current :
      (encoded : List ℕ) (writer : WalWriter)
      → (put encoded writer).current_segment ≡ writer.current_segment
  unfolding put
  put-current encoded writer = refl

  fresh-number :
      (now : ℕ) (writer : WalWriter) → (fresh codec now writer).number ≡ writer.current_segment + 1
  unfolding fresh
  fresh-number now writer = refl

  rotated-IsLonger :
      (now : ℕ) (writer : WalWriter) (olds : List Segment) (last : Segment) (entry : WalEntry)
      (before : List WalEntry)
      → IsLog codec writer olds last
      → writer.current_segment + 1 < 2 ^ 64
      → now < 2 ^ 63
      → entries_in (olds ++ (last ∷ [])) ≡ before ++ (entry ∷ [])
      → IsLonger entry before writer.current_segment (rotate now writer)
  rotated-IsLonger now writer olds last entry before h room time longer =
      let (succeeds, is_log) = rotate-IsLog codec now writer olds last h room time in
      record {
        olds = olds ++ (last ∷ []);
        last = fresh codec now writer;
        succeeds = succeeds;
        is_log = is_log;
        one_more = entries_in-fresh now writer (olds ++ (last ∷ [])) ∙ longer;
        next_segment = omega (arith, is_log.current, fresh-number now writer);
      }

  write_bytes-IsLonger :
      (now : ℕ) (writer : WalWriter) (olds : List Segment) (last : Segment) (w : Written)
      → IsLog codec writer olds last
      → w.sequence ≡ writer.sequence
      → IsWritten codec w
      → writer.current_segment + 1 < 2 ^ 64
      → now < 2 ^ 63
      → IsLonger w.entry
          (entries_in (olds ++ (last ∷ [])))
          writer.current_segment
          (write_bytes now (frame codec w.entry.entry_type w.json) writer)
  unfolding write_bytes
  write_bytes-IsLonger now writer olds last w h same good room time =
      let encoded = frame codec w.entry.entry_type w.json in
      let logged = put-IsLog codec writer olds last w h same good in
      let current = put-current (frame codec w.entry.entry_type w.json) writer in
      let longer = entries_in-with_entry codec olds last w in
      elim (Bool-cases (should_rotate now (put (frame codec w.entry.entry_type w.json) writer))) [
        | inl e ↦ rw e (
            subst
              (λ n.
                IsLonger w.entry (entries_in (olds ++ (last ∷ []))) n
                  (rotate now (put (frame codec w.entry.entry_type w.json) writer)))
              current
              (rotated-IsLonger now (put (frame codec w.entry.entry_type w.json) writer) olds
                (with_entry codec last w) w.entry (entries_in (olds ++ (last ∷ []))) logged
                (omega (arith, current)) time longer))
        | inr e ↦ rw e (record {
          olds = olds;
          last = with_entry codec last w;
          succeeds = refl;
          is_log = logged;
          one_more = longer;
          next_segment = omega (arith, current);
        })
      ]

  encode-IsStorable :
      (entry : WalEntry) (h : IsStorable codec entry)
      → encode codec entry ≡ ok (frame codec entry.entry_type h.json)
  unfolding encode
  encode-IsStorable entry h = rw h.json_of refl

  pub write-IsLonger :
      (now : ℕ) (entry : WalEntry) (writer : WalWriter) (olds : List Segment) (last : Segment)
      → IsLog codec writer olds last
      → IsStorable codec entry
      → writer.current_segment + 1 < 2 ^ 64
      → now < 2 ^ 63
      → IsLonger entry
          (entries_in (olds ++ (last ∷ [])))
          writer.current_segment
          (write codec now entry writer)
  unfolding write
  write-IsLonger now entry writer olds last h storable room time =
      let w : Written = record {
        sequence = writer.sequence;
        entry = entry;
        json = storable.json;
      } in
      rw (write, encode-IsStorable entry storable)
        (write_bytes-IsLonger now writer olds last w h refl
          (IsStorable-IsWritten codec writer.sequence entry storable) room time)

  -- Writes one after the other, each at its time; an error ends them.
  unfoldable pub write_each : List (ℕ × WalEntry) → WalWriter → Result (Unit {0}) × WalWriter
  write_each [] writer = (ok tt, writer)
  write_each ((now, entry) ∷ requests) writer =
      on_ok (write_each requests) (write codec now entry writer)

  write_each-first :
      (now : ℕ) (entry : WalEntry) (requests : List (ℕ × WalEntry)) (writer : WalWriter)
      → (write codec now entry writer).0 ≡ ok tt
      → write_each ((now, entry) ∷ requests) writer
        ≡ write_each requests (write codec now entry writer).1
  unfolding write_each
  write_each-first now entry requests writer h =
      on_ok-first (write_each requests) (write codec now entry writer) h

  abbrev pub asked : List (ℕ × WalEntry) → List WalEntry
  asked requests = map (λ (r : ℕ × WalEntry). r.1) requests

  abbrev pub IsRequest : ℕ × WalEntry → Type 0
  IsRequest r = (r.0 < 2 ^ 63) × IsStorable codec r.1

  pub write_each-reads :
      (requests : List (ℕ × WalEntry)) (writer : WalWriter) (olds : List Segment) (last : Segment)
      → IsLog codec writer olds last
      → All IsRequest requests
      → writer.current_segment + length requests < 2 ^ 64
      → ((write_each requests writer).0 ≡ ok tt)
        × (read_all codec (write_each requests writer).1.files
            ≡ ok (entries_in (olds ++ (last ∷ [])) ++ asked requests))
  unfolding write_each
  write_each-reads [] writer olds last h good room = (
    refl,
    rw (append-nil (entries_in (olds ++ (last ∷ [])))) (read_all-IsLog codec writer olds last h),
  )
  write_each-reads ((now, entry) ∷ requests) writer olds last h ((time, storable), good) room =
      let step = write-IsLonger now entry writer olds last h storable (omega arith) time in
      let (done, reads) =
        write_each-reads requests (write codec now entry writer).1 step.olds step.last step.is_log
          good (omega (arith, step.next_segment)) in
      rw (write_each-first now entry requests writer step.succeeds) (
        done,
        reads
            ∙ ap ok (
                ap (λ l. l ++ asked requests) step.one_more
                ∙ append_assoc (entries_in (olds ++ (last ∷ []))) (entry ∷ []) (asked requests)),
      )
