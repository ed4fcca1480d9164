-- ===== src/Wal/Writer/Log.antt =====
-- The invariant of the writer: its directory is a log. Writing an entry and starting a segment keep
-- it.
use chono_db.Prelude.{
  ℕ, ◌+◌, ◌/◌, ◌%◌, ◌^◌, ◌<◌, List, [], ◌∷◌, ◌++◌, ◌≡◌, refl, sym, ap, arith, All, All-append,
  append_assoc, append-nil, none,
}
use chono_db.Prelude.Assoc.{lookup, number_key}
use chono_db.Prelude.Int.{pos}
use chono_db.Error.{ok}
use chono_db.Wal.Entry.{Codec, frame}
use chono_db.Wal.Header.{WalHeader, IsHeader, encode_header, new_header}
use chono_db.Wal.Reader.{read_all}
use chono_db.Wal.Reader.Segments.{Written, entries_of, IsWritten, bytes_of, body, body-last}
use chono_db.Wal.Writer.{WalWriter, append_to, create_file, rotate, put}
use chono_db.Wal.Writer.Directories.{
  Segment, entries_in, entries_in-append, IsBelow, IsRising, IsRising-last, IsSegment, file_of,
  directory, directory-append, lookup-below, append_to-last, read_all-directory,
}

entries_of-last :
    (ws : List Written) (w : Written)
    → entries_of (ws ++ (w ∷ [])) ≡ entries_of ws ++ (w.entry ∷ [])
entries_of-last [] w = refl
entries_of-last (v ∷ ws) w = ap (λ l. v.entry ∷ l) (entries_of-last ws w)

IsBelow-append :
    (n : ℕ) (ss : List Segment) (s : Segment)
    → IsBelow n ss
    → s.number < n
    → IsBelow n (ss ++ (s ∷ []))
unfolding IsBelow
IsBelow-append n ss s h less = All-append (λ (t : Segment). t.number < n) ss (s ∷ []) h (less, tt)

module _ (codec : Codec) where
  -- The files are the segments `olds`, then the one that is written.
  pub record IsLog (writer : WalWriter) (olds : List Segment) (last : Segment) : Type 0 where
    pub files_are : writer.files ≡ directory codec (olds ++ (last ∷ []))
    pub current : writer.current_segment ≡ last.number
    pub below : IsBelow last.number olds
    pub rising : IsRising olds
    pub olds_good : All (IsSegment codec) olds
    pub last_good : IsSegment codec last
    pub counted : writer.sequence < 2 ^ 64

  pub read_all-IsLog :
      (writer : WalWriter) (olds : List Segment) (last : Segment)
      → IsLog writer olds last
      → read_all codec writer.files ≡ ok (entries_in (olds ++ (last ∷ [])))
  read_all-IsLog writer olds last h = rw h.files_are (
      read_all-directory codec (olds ++ (last ∷ [])) (IsRising-last olds last h.rising h.below)
        (All-append (IsSegment codec) olds (last ∷ []) h.olds_good (h.last_good, tt)))

  -- The last segment with one more entry.
  unfoldable pub with_entry : Segment → Written → Segment
  with_entry s w = record {
    number = s.number;
    header = s.header;
    created = s.created;
    written = s.written ++ (w ∷ []);
  }

  with_entry-IsSegment :
      (s : Segment) (w : Written)
      → IsSegment codec s
      → IsWritten codec w
      → IsSegment codec (with_entry s w)
  unfolding with_entry
  with_entry-IsSegment s w h g = record {
    heading = h.heading;
    entries = All-append (IsWritten codec) s.written (w ∷ []) h.entries (g, tt);
  }

  append_to-with_entry :
      (olds : List Segment) (s : Segment) (w : Written)
      → IsBelow s.number olds
      → append_to s.number (bytes_of codec w) (directory codec (olds ++ (s ∷ [])))
        ≡ directory codec (olds ++ (with_entry s w ∷ []))
  unfolding with_entry directory file_of
  append_to-with_entry olds s w below =
      rw
        (
          directory-append codec olds (s ∷ []),
          directory-append codec olds (with_entry s w ∷ []),
          append_to-last codec olds s.number (file_of codec s) (bytes_of codec w) below,
          body-last codec s.written w,
          append_assoc (encode_header s.header) (body codec s.written) (bytes_of codec w),
        )
        refl

  pub entries_in-with_entry :
      (olds : List Segment) (s : Segment) (w : Written)
      → entries_in (olds ++ (with_entry s w ∷ [])) ≡ entries_in (olds ++ (s ∷ [])) ++ (w.entry ∷ [])
  unfolding with_entry entries_in
  entries_in-with_entry olds s w =
      rw
        (
          entries_in-append olds (with_entry s w ∷ []),
          entries_in-append olds (s ∷ []),
          entries_of-last s.written w,
          append-nil (entries_of s.written),
          append-nil (entries_of s.written ++ (w.entry ∷ [])),
        )
        (sym (append_assoc (entries_in olds) (entries_of s.written) (w.entry ∷ [])))

  -- The segment that a rotation starts.
  unfoldable pub fresh : ℕ → WalWriter → Segment
  fresh now writer = record {
    number = writer.current_segment + 1;
    header = new_header (pos now) writer.sequence;
    created = now / 1000;
    written = [];
  }

  pub create-fresh :
      (now n : ℕ) (header : WalHeader) (ss : List Segment)
      → IsBelow n ss
      → append_to n (encode_header header) (create_file n now (directory codec ss))
        ≡ directory codec (
            ss ++ (record { number = n; header = header; created = now / 1000; written = [] } ∷ []))
  unfolding create_file directory file_of body
  create-fresh now n header ss below =
      rw
        (
          append_to-last codec ss n (record { bytes = []; created = now / 1000 })
              (encode_header header) below,
          directory-append codec ss
              (record { number = n; header = header; created = now / 1000; written = [] } ∷ []),
          append-nil (encode_header header),
        )
        refl

  IsBelow-next : (n m : ℕ) (ss : List Segment) → n < m → IsBelow n ss → IsBelow m ss
  unfolding IsBelow
  IsBelow-next n m [] less h = tt
  IsBelow-next n m (s ∷ ss) less (first, h) = (omega arith, IsBelow-next n m ss less h)

  pub new_header-IsHeader :
      (now sequence : ℕ)
      → now < 2 ^ 63
      → sequence < 2 ^ 64
      → IsHeader (new_header (pos now) sequence)
  unfolding new_header
  new_header-IsHeader now sequence h g = record {
    sequence_fits = g;
    created_fits = ground arith;
    version_fits = omega arith;
  }

  pub rotate-IsLog :
      (now : ℕ) (writer : WalWriter) (olds : List Segment) (last : Segment)
      → IsLog writer olds last
      → writer.current_segment + 1 < 2 ^ 64
      → now < 2 ^ 63
      → ((rotate now writer).0 ≡ ok tt)
        × IsLog (rotate now writer).1 (olds ++ (last ∷ [])) (fresh now writer)
  unfolding rotate fresh
  rotate-IsLog now writer olds last h room time =
      let next : (writer.current_segment + 1) % 2 ^ 64 ≡ writer.current_segment + 1 = omega arith in
      let less : last.number < writer.current_segment + 1 = omega (arith, h.current) in
      let below : IsBelow (writer.current_segment + 1) (olds ++ (last ∷ [])) =
        IsBelow-append (writer.current_segment + 1) olds last
          (IsBelow-next last.number (writer.current_segment + 1) olds less h.below) less in
      let free : lookup (writer.current_segment + 1) writer.files ≡ none =
        rw h.files_are
          (lookup-below codec (olds ++ (last ∷ [])) (writer.current_segment + 1) below) in
      rw (next, free)
        (
          refl,
          record {
            files_are = rw h.files_are (
                create-fresh now (writer.current_segment + 1) (new_header (pos now) writer.sequence)
                  (olds ++ (last ∷ [])) below);
            current = refl;
            below = below;
            rising = IsRising-last olds last h.rising h.below;
            olds_good = All-append (IsSegment codec) olds (last ∷ []) h.olds_good (h.last_good, tt);
            last_good = record {
              heading = new_header-IsHeader now writer.sequence time h.counted;
              entries = tt;
            };
            counted = h.counted;
          },
        )

  pub put-IsLog :
      (writer : WalWriter) (olds : List Segment) (last : Segment) (w : Written)
      → IsLog writer olds last
      → w.sequence ≡ writer.sequence
      → IsWritten codec w
      → IsLog (put (frame codec w.entry.entry_type w.json) writer) olds (with_entry last w)
  unfolding put with_entry bytes_of
  put-IsLog writer olds last w h same good = record {
    files_are = rw (h.files_are, h.current, sym same) (append_to-with_entry olds last w h.below);
    current = h.current;
    below = h.below;
    rising = h.rising;
    olds_good = h.olds_good;
    last_good = with_entry-IsSegment last w h.last_good good;
    counted = omega arith;
  }
