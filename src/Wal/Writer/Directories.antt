-- ===== src/Wal/Writer/Directories.antt =====
-- The directory of a log: segments of whole entries, in the order of their numbers.
use chono_db.Prelude.{
  ℕ, ◌<◌, List, [], ◌∷◌, ◌++◌, ◌≡◌, refl, sym, arith, All, append_assoc, none, All-append,
}
use chono_db.Prelude.Assoc.{lookup, keys, number_key, same_self, same_ne}
use chono_db.Prelude.Int.{pos, ◌≤ℤ◌}
use chono_db.Prelude.Sort.{IsSorted, sort_by_sorted}
use chono_db.Error.{ok}
use chono_db.Wal.Entry.{WalEntry, Codec}
use chono_db.Wal.Header.{WalHeader, IsHeader, encode_header}
use chono_db.Wal.Reader.{
  SegmentFile, Directory, read_segment, read_each, read_all, read_file, list_segments,
}
use chono_db.Wal.Reader.Segments.{Written, entries_of, IsWritten, body, read_file-whole}
use chono_db.Wal.Writer.{append_to}

pub record Segment : Type 0 where
  pub number : ℕ
  pub header : WalHeader
  pub created : ℕ
  pub written : List Written

unfoldable pub entries_in : List Segment → List WalEntry
entries_in [] = []
entries_in (s ∷ ss) = entries_of s.written ++ entries_in ss

pub entries_in-append :
    (front back : List Segment) → entries_in (front ++ back) ≡ entries_in front ++ entries_in back
unfolding entries_in
entries_in-append [] back = refl
entries_in-append (s ∷ front) back =
    rw (entries_in-append front back)
      (sym (append_assoc (entries_of s.written) (entries_in front) (entries_in back)))

-- Every segment of the list has a number below `n`.
unfoldable pub IsBelow : ℕ → List Segment → Type 0
IsBelow n ss = All (λ (s : Segment). s.number < n) ss

unfoldable pub IsRising : List Segment → Type 0
IsRising [] = Unit {0}
IsRising (s ∷ ss) = All (λ (t : Segment). s.number < t.number) ss × IsRising ss

pub IsRising-last :
    (ss : List Segment) (s : Segment)
    → IsRising ss
    → IsBelow s.number ss
    → IsRising (ss ++ (s ∷ []))
unfolding IsRising IsBelow
IsRising-last [] s h below = (tt, tt)
IsRising-last (t ∷ ss) s (first, h) (less, below) = (
  All-append (λ (u : Segment). t.number < u.number) ss (s ∷ []) first (less, tt),
  IsRising-last ss s h below,
)

module _ (codec : Codec) where
  pub record IsSegment (s : Segment) : Type 0 where
    pub heading : IsHeader s.header
    pub entries : All (IsWritten codec) s.written

  unfoldable pub file_of : Segment → SegmentFile
  file_of s = record { bytes = encode_header s.header ++ body codec s.written; created = s.created }

  unfoldable pub directory : List Segment → Directory
  directory [] = []
  directory (s ∷ ss) = (s.number, file_of s) ∷ directory ss

  pub directory-append :
      (front back : List Segment) → directory (front ++ back) ≡ directory front ++ directory back
  unfolding directory
  directory-append [] back = refl
  directory-append (s ∷ front) back = rw (directory-append front back) refl

  pub lookup-below : (ss : List Segment) (n : ℕ) → IsBelow n ss → lookup n (directory ss) ≡ none
  unfolding directory lookup IsBelow
  lookup-below [] n h = refl
  lookup-below (s ∷ ss) n (first, h) =
      rw (same_ne s.number n (λ e. omega arith), lookup-below ss n h) refl

  pub append_to-last :
      (ss : List Segment) (n : ℕ) (file : SegmentFile) (more : List ℕ)
      → IsBelow n ss
      → append_to n more (directory ss ++ ((n, file) ∷ []))
        ≡ directory ss ++ ((n, record file { bytes = file.bytes ++ more }) ∷ [])
  unfolding append_to directory IsBelow
  append_to-last [] n file more h = rw (same_self n) refl
  append_to-last (s ∷ ss) n file more (first, h) =
      rw (same_ne s.number n (λ e. omega arith), append_to-last ss n file more h) refl

  least :
      (n : ℕ) (ss : List Segment)
      → All (λ (t : Segment). n < t.number) ss
      → All (λ (m : ℕ). pos n ≤ℤ pos m) (keys (directory ss))
  unfolding directory keys
  least n [] h = tt
  least n (t ∷ ss) (first, h) = (omega arith, least n ss h)

  rising-IsSorted :
      (ss : List Segment) → IsRising ss → IsSorted (λ (n : ℕ). pos n) (keys (directory ss))
  unfolding IsRising directory keys IsSorted
  rising-IsSorted [] h = tt
  rising-IsSorted (s ∷ ss) (first, h) = (least s.number ss first, rising-IsSorted ss h)

  pub read_segment-behind :
      (n m : ℕ) (file : SegmentFile) (files : Directory)
      → n < m
      → read_segment codec ((n, file) ∷ files) m ≡ read_segment codec files m
  unfolding lookup read_segment
  read_segment-behind n m file files h = rw (read_segment, same_ne n m (λ e. omega arith)) refl

  least-last :
      (n m : ℕ) (file : SegmentFile) (ss : List Segment)
      → All (λ (t : Segment). n < t.number) ss
      → n < m
      → All (λ (k : ℕ). pos n ≤ℤ pos k) (keys (directory ss ++ ((m, file) ∷ [])))
  unfolding directory keys
  least-last n m file [] h less = (omega arith, tt)
  least-last n m file (t ∷ ss) (first, h) less = (omega arith, least-last n m file ss h less)

  pub last-IsSorted :
      (ss : List Segment) (n : ℕ) (file : SegmentFile)
      → IsRising ss
      → IsBelow n ss
      → IsSorted (λ (k : ℕ). pos k) (keys (directory ss ++ ((n, file) ∷ [])))
  unfolding IsRising IsBelow directory keys IsSorted
  last-IsSorted [] n file h below = (tt, tt)
  last-IsSorted (s ∷ ss) n file (first, h) (less, below) =
      (least-last s.number n file ss first less, last-IsSorted ss n file h below)

  -- A longer directory, in front of which segments with smaller numbers stand, reads the same.
  read_each-behind :
      (s : Segment) (files : Directory) (ns : List ℕ)
      → All (λ (n : ℕ). s.number < n) ns
      → read_each codec ((s.number, file_of s) ∷ files) ns ≡ read_each codec files ns
  unfolding read_each
  read_each-behind s files [] h = refl
  read_each-behind s files (n ∷ ns) (first, h) =
      rw (read_segment-behind s.number n (file_of s) files first, read_each-behind s files ns h)
        refl

  above-keys :
      (n : ℕ) (ss : List Segment)
      → All (λ (t : Segment). n < t.number) ss
      → All (λ (m : ℕ). n < m) (keys (directory ss))
  unfolding directory keys
  above-keys n [] h = tt
  above-keys n (t ∷ ss) (first, h) = (first, above-keys n ss h)

  pub read_segment-first :
      (n : ℕ) (file : SegmentFile) (files : Directory)
      → read_segment codec ((n, file) ∷ files) n ≡ read_file codec file.bytes
  unfolding lookup read_segment
  read_segment-first n file files = rw (read_segment, same_self n) refl

  read_each-directory :
      (ss : List Segment)
      → IsRising ss
      → All IsSegment ss
      → read_each codec (directory ss) (keys (directory ss)) ≡ ok (entries_in ss)
  unfolding IsRising directory keys read_each entries_in file_of
  read_each-directory [] h sound = refl
  read_each-directory (s ∷ ss) (first, h) (good, sound) =
      rw
        (
          read_segment-first s.number (file_of s) (directory ss),
          read_each-behind s (directory ss) (keys (directory ss)) (above-keys s.number ss first),
          read_each-directory ss h sound,
          read_file-whole codec s.header s.written good.heading good.entries,
        )
        refl

  -- What `read_all` gives for the directory.
  pub read_all-directory :
      (ss : List Segment)
      → IsRising ss
      → All IsSegment ss
      → read_all codec (directory ss) ≡ ok (entries_in ss)
  unfolding read_all list_segments
  read_all-directory ss h sound =
      rw (sort_by_sorted (λ (n : ℕ). pos n) (keys (directory ss)) (rising-IsSorted ss h))
        (read_each-directory ss h sound)
