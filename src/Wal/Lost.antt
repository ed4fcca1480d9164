-- ===== src/Wal/Lost.antt =====
-- What a crash in the middle of a write costs: the whole segment is passed over by `recover`.
use chono_db.Prelude.{ℕ, ◌≤◌, ◌<◌, List, [], ◌∷◌, ◌++◌, length, take, ◌≡◌, refl, ◌∙◌, arith, All}
use chono_db.Prelude.Assoc.{keys, number_key}
use chono_db.Prelude.Sort.{sort_by, sort_by_sorted}
use chono_db.Prelude.Int.{pos}
use chono_db.Error.{ok, err, io}
use chono_db.Wal.Entry.{WalEntry, Codec}
use chono_db.Wal.Header.{encode_header}
use chono_db.Wal.Reader.{Directory, SegmentFile, read_file, list_segments}
use chono_db.Wal.Reader.Segments.{Written, IsWritten, bytes_of, body, read_file-whole}
use chono_db.Wal.Reader.Torn.{read_file-torn}
use chono_db.Wal.Writer.Directories.{
  Segment, directory, file_of, entries_in, IsBelow, IsRising, IsSegment, read_segment-behind,
  read_segment-first, last-IsSorted,
}
use chono_db.Wal.{Wal, append_entries, recover_each, recover}

module _ (codec : Codec) where
  recover_each-behind :
      (n : ℕ) (file : SegmentFile) (files : Directory) (ns : List ℕ)
      → All (λ (m : ℕ). n < m) ns
      → recover_each codec ((n, file) ∷ files) ns ≡ recover_each codec files ns
  unfolding recover_each
  recover_each-behind n file files [] h = refl
  recover_each-behind n file files (m ∷ ns) (first, h) =
      rw (read_segment-behind codec n m file files first, recover_each-behind n file files ns h)
        refl

  -- The keys of segments that are followed by one more file.
  above-last :
      (n m : ℕ) (file : SegmentFile) (ss : List Segment)
      → All (λ (t : Segment). n < t.number) ss
      → n < m
      → All (λ (k : ℕ). n < k) (keys (directory codec ss ++ ((m, file) ∷ [])))
  unfolding directory keys
  above-last n m file [] h less = (less, tt)
  above-last n m file (t ∷ ss) (first, h) less = (first, above-last n m file ss h less)

  recover_each-unreadable :
      (ss : List Segment) (n : ℕ) (file : SegmentFile)
      → IsRising ss
      → IsBelow n ss
      → All (IsSegment codec) ss
      → read_file codec file.bytes ≡ err io
      → recover_each codec
          (directory codec ss ++ ((n, file) ∷ []))
          (keys (directory codec ss ++ ((n, file) ∷ [])))
        ≡ ok (entries_in ss)
  unfolding IsRising IsBelow directory keys recover_each entries_in append_entries file_of
  recover_each-unreadable [] n file h below sound bad =
      rw (read_segment-first codec n file [], bad) refl
  recover_each-unreadable (s ∷ ss) n file (first, h) (less, below) (good, sound) bad =
      rw
        (
          read_segment-first codec s.number (file_of codec s)
              (directory codec ss ++ ((n, file) ∷ [])),
          recover_each-behind s.number (file_of codec s) (directory codec ss ++ ((n, file) ∷ []))
              (keys (directory codec ss ++ ((n, file) ∷ [])))
              (above-last s.number n file ss first less),
          recover_each-unreadable ss n file h below sound bad,
        )
        (rw (read_file-whole codec s.header s.written good.heading good.entries) refl)

  -- The newest segment holds whole entries, and the write of one more that stopped after `n` bytes.
  unfoldable pub torn : Segment → Written → ℕ → SegmentFile
  torn s w n = record {
    bytes = encode_header s.header ++ (body codec s.written ++ take n (bytes_of codec w));
    created = s.created;
  }

  -- After a crash that cut the last write behind its sequence number, where the older segments and the
  -- earlier entries of the newest one are whole, recovering gives the entries of the older segments,
  -- sorted by time, and none of the newest segment's.
  pub recover-torn :
      (wal : Wal) (olds : List Segment) (last : Segment) (w : Written) (n : ℕ)
      → wal.writer.files ≡ directory codec olds ++ ((last.number, torn last w n) ∷ [])
      → IsRising olds
      → IsBelow last.number olds
      → All (IsSegment codec) olds
      → IsSegment codec last
      → IsWritten codec w
      → 8 ≤ n
      → n < length (bytes_of codec w)
      → recover codec wal ≡ ok (sort_by (λ (e : WalEntry). e.timestamp) (entries_in olds))
  unfolding recover list_segments torn
  recover-torn wal olds last w n files rising below good last_good w_good long cut =
      let bad : read_file codec (torn last w n).bytes ≡ err io =
        read_file-torn codec last.header last.written w n last_good.heading last_good.entries w_good
          cut
        ∙ ground (arith, long) in
      let sorted =
        sort_by_sorted (λ (k : ℕ). pos k) _
          (last-IsSorted codec olds last.number (torn last w n) rising below) in
      let recovered =
        recover_each-unreadable olds last.number (torn last w n) rising below good bad in
      rw (files, sorted, recovered) refl
