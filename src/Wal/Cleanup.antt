-- ===== src/Wal/Cleanup.antt =====
-- What `cleanup_old_segments` leaves: enough segments, and every recent one while the bytes suffice.
use chono_db.Prelude.{
  ◌<◌, min, refl, ap, ℕ, suc, ◌+◌, ◌-◌, ◌*◌, ◌/◌, ◌%◌, ◌^◌, ◌≤◌, List, [], ◌∷◌, length, ◌≡◌, ◌≢◌,
  ◌∙◌, arith, All, leb, false, Bool-cases, inl, inr, Option-cases, some,
}
use chono_db.Prelude.Assoc.{lookup, remove, keys, lookup-remove, number_key, same_ne}
use chono_db.Prelude.Int.{pos}
use chono_db.Prelude.Sort.{length-sort_by, sort_by-All}
use chono_db.Wal.Reader.{Directory, SegmentFile, list_segments}
use chono_db.Wal.{
  Wal, WalConfig, with_metadata, bytes_in, should_delete, cleanup_loop, by_age,
  cleanup_old_segments,
}
use chono_db.Wal.Kept.{IsDirectory, cleanup_loop-files}

cleanup_loop-count :
    (config : WalConfig) (now total bytes_total deleted_count bytes_to_delete : ℕ)
    (more : List (ℕ × ℕ × ℕ)) (files : Directory)
    → deleted_count ≤ total - config.min_segments_to_keep
    → (cleanup_loop config now total bytes_total deleted_count bytes_to_delete more files).0
      ≤ total - config.min_segments_to_keep
unfolding cleanup_loop
cleanup_loop-count config now total bytes_total d b [] files h = h
cleanup_loop-count config now total bytes_total d b ((segment, created, size) ∷ more) files h =
    elim (Bool-cases (leb (total - d) config.min_segments_to_keep)) [
      | inl few ↦ rw few h
      | inr enough ↦ elim (Bool-cases (should_delete config now created (bytes_total - b))) [
        | inl e ↦
            rw (enough, e)
              (cleanup_loop-count config now total bytes_total (d + 1) (b + size) more
                (remove segment files) (ground (arith, enough)))
        | inr e ↦ rw (enough, e) (cleanup_loop-count config now total bytes_total d b more files h)
      ]
    ]

-- The loop knows the age of the segment `n`.
IsDated : ℕ → ℕ → ℕ × ℕ × ℕ → Type 0
IsDated n created s = s.0 ≡ n → s.1 ≡ created

-- The segment is not older than `retention_hours`.
unfoldable pub IsRecent : WalConfig → ℕ → ℕ → Type 0
IsRecent config now created =
    (now / 1000 + 2 ^ 64 - created) % 2 ^ 64 ≤ config.retention_hours * 3600

should_delete-recent :
    (config : WalConfig) (now created left : ℕ)
    → config.retention_hours * 3600 < 2 ^ 64
    → IsRecent config now created
    → left ≤ config.max_retention_bytes
    → should_delete config now created left ≡ false
unfolding should_delete IsRecent
should_delete-recent config now created left fits recent room = ground arith

cleanup_loop-keeps :
    (config : WalConfig) (now total bytes_total d b : ℕ) (more : List (ℕ × ℕ × ℕ))
    (files : Directory) (n : ℕ) (file : SegmentFile)
    → config.retention_hours * 3600 < 2 ^ 64
    → bytes_total ≤ config.max_retention_bytes
    → IsRecent config now file.created
    → All (IsDated n file.created) more
    → lookup n files ≡ some file
    → lookup n (cleanup_loop config now total bytes_total d b more files).1 ≡ some file
unfolding cleanup_loop IsDated
cleanup_loop-keeps config now total bytes_total d b [] files n file fits room recent dated h = h
cleanup_loop-keeps config now total bytes_total d b ((segment, created, size) ∷ more) files n file
      fits room recent (date, dated) h =
    elim (Bool-cases (leb (total - d) config.min_segments_to_keep)) [
      | inl few ↦ rw few h
      | inr enough ↦ elim (Bool-cases (should_delete config now created (bytes_total - b))) [
        | inl e ↦
            let other : segment ≢ n = λ same.
              let created_then : created ≡ file.created = date same in
              let stays =
                should_delete-recent config now file.created (bytes_total - b) fits recent
                  (omega arith) in
              cc (created_then, stays, e) in
            rw (enough, e)
              (cleanup_loop-keeps config now total bytes_total (d + 1) (b + size) more
                (remove segment files) n file fits room recent dated
                (lookup-remove segment n files ∙ rw (same_ne segment n other) h))
        | inr e ↦
            rw (enough, e)
              (cleanup_loop-keeps config now total bytes_total d b more files n file fits room
                recent dated h)
      ]
    ]

with_metadata-IsDated :
    (files : Directory) (n : ℕ) (file : SegmentFile) (segments : List ℕ)
    → lookup n files ≡ some file
    → All (IsDated n file.created) (with_metadata files segments)
unfolding with_metadata IsDated
with_metadata-IsDated files n file [] h = tt
with_metadata-IsDated files n file (segment ∷ segments) h =
    let rest = with_metadata-IsDated files n file segments h in
    elim (Option-cases (lookup segment files)) [
      | inl e ↦ rw (with_metadata, e) rest
      | inr (found, e) ↦
          rw (with_metadata, e)
            (λ same. let equal : some found ≡ some file = cc (e, h, same) in cc equal, rest)
    ]

length-with_metadata :
    (files : Directory) (segments : List ℕ)
    → length (with_metadata files segments) ≤ length segments
unfolding with_metadata
length-with_metadata files [] = omega arith
length-with_metadata files (segment ∷ segments) =
    let rest = length-with_metadata files segments in
    elim (Option-cases (lookup segment files)) [
      | inl e ↦ rw (with_metadata, e) (omega (arith, rest))
      | inr (found, e) ↦ rw (with_metadata, e) (omega (arith, rest))
    ]

length-keys : (files : Directory) → length (keys files) ≡ length files
unfolding keys
length-keys [] = refl
length-keys ((segment, file) ∷ files) = ap suc (length-keys files)

length-by_age : (files : Directory) → length (by_age files) ≤ length files
unfolding by_age list_segments
length-by_age files = omega (
  arith,
  length-sort_by (λ (s : ℕ × ℕ × ℕ). pos s.1) (with_metadata files (list_segments files)),
  length-with_metadata files (list_segments files),
  length-sort_by (λ (n : ℕ). pos n) (keys files),
  length-keys files,
)

cleanup_old_segments-files :
    (now : ℕ) (wal : Wal)
    → IsDirectory wal.writer.files
    → (min (length wal.writer.files) wal.config.min_segments_to_keep
        ≤ length (cleanup_old_segments now wal).1.writer.files)
      × (length wal.writer.files
          ≤ length (cleanup_old_segments now wal).1.writer.files + (cleanup_old_segments now wal).0)
unfolding cleanup_old_segments
cleanup_old_segments-files now wal h =
    let files = wal.writer.files in
    let segments = by_age files in
    let taken =
      cleanup_loop-files wal.config now (length segments) (bytes_in segments) 0 0 segments files
        h in
    let count =
      cleanup_loop-count wal.config now (length segments) (bytes_in segments) 0 0 segments files
        (omega arith) in
    elim (Bool-cases (leb (length (list_segments files)) wal.config.min_segments_to_keep)) [
      | inl e ↦ rw e (omega arith, omega arith)
      | inr e ↦ rw e (omega (arith, taken, count, length-by_age files), omega (arith, taken))
    ]

cleanup_old_segments-recent :
    (now : ℕ) (wal : Wal) (n : ℕ) (file : SegmentFile)
    → wal.config.retention_hours * 3600 < 2 ^ 64
    → bytes_in (by_age wal.writer.files) ≤ wal.config.max_retention_bytes
    → IsRecent wal.config now file.created
    → lookup n wal.writer.files ≡ some file
    → lookup n (cleanup_old_segments now wal).1.writer.files ≡ some file
unfolding cleanup_old_segments by_age
cleanup_old_segments-recent now wal n file fits room recent h =
    let files = wal.writer.files in
    elim (Bool-cases (leb (length (list_segments files)) wal.config.min_segments_to_keep)) [
      | inl e ↦ rw e h
      | inr e ↦
          let dated =
            sort_by-All (λ (s : ℕ × ℕ × ℕ). pos s.1) (IsDated n file.created)
              (with_metadata files (list_segments files))
              (with_metadata-IsDated files n file (list_segments files) h) in
          rw e (
            cleanup_loop-keeps wal.config now (length (by_age files)) (bytes_in (by_age files)) 0 0
              (by_age files) files n file fits room recent dated h)
    ]

-- What a cleanup at `now` leaves of the files of a log.
pub record Leaves (now : ℕ) (wal : Wal) : Type 0 where
  pub enough :
      min (length wal.writer.files) wal.config.min_segments_to_keep
      ≤ length (cleanup_old_segments now wal).1.writer.files
  pub counted :
      length wal.writer.files
      ≤ length (cleanup_old_segments now wal).1.writer.files + (cleanup_old_segments now wal).0
  pub recent_kept :
      (n : ℕ) (file : SegmentFile)
      → bytes_in (by_age wal.writer.files) ≤ wal.config.max_retention_bytes
      → IsRecent wal.config now file.created
      → lookup n wal.writer.files ≡ some file
      → lookup n (cleanup_old_segments now wal).1.writer.files ≡ some file

pub cleanup_old_segments-Leaves :
    (now : ℕ) (wal : Wal)
    → IsDirectory wal.writer.files
    → wal.config.retention_hours * 3600 < 2 ^ 64
    → Leaves now wal
cleanup_old_segments-Leaves now wal h fits =
    let (enough, counted) = cleanup_old_segments-files now wal h in
    record {
      enough = enough;
      counted = counted;
      recent_kept = λ n file. cleanup_old_segments-recent now wal n file fits;
    }
