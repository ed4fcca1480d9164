-- ===== src/Wal/Kept.antt =====
-- storage/src/wal/mod.rs: the loop of `cleanup_old_segments` takes no more files than it counts.
use chono_db.Prelude.{
  ◌==◌, none, refl, ap, sym, ==_iff, ℕ, ◌+◌, ◌-◌, ◌≤◌, List, [], ◌∷◌, length, ◌≡◌, ◌∙◌, arith, leb,
  Bool-cases, inl, inr, some,
}
use chono_db.Prelude.Assoc.{lookup, remove, lookup-remove, number_key}
use chono_db.Wal.Reader.{Directory}
use chono_db.Wal.{WalConfig, should_delete, cleanup_loop}

-- No segment number stands twice in the directory.
abbrev pub IsDirectory : Directory → Type 0
IsDirectory [] = Unit {0}
IsDirectory ((segment, file) ∷ files) = (lookup segment files ≡ none) × IsDirectory files

remove_absent :
    (segment : ℕ) (files : Directory) → lookup segment files ≡ none → remove segment files ≡ files
unfolding lookup remove
remove_absent segment [] h = refl
remove_absent segment ((j, file) ∷ files) h = elim (Bool-cases (j == segment)) [
  | inl e ↦ let found : some file ≡ none = rw e at h in cc found
  | inr e ↦ rw e (ap (λ l. (j, file) ∷ l) (remove_absent segment files (rw e at h)))
]

-- A removal takes one file at most.
length-remove_one :
    (segment : ℕ) (files : Directory)
    → IsDirectory files
    → length files ≤ length (remove segment files) + 1
unfolding remove
length-remove_one segment [] h = omega arith
length-remove_one segment ((j, file) ∷ files) (fresh, h) = elim (Bool-cases (j == segment)) [
  | inl e ↦
      let absent : lookup segment files ≡ none =
        ap (λ k. lookup k files) (sym ((==_iff j segment).0 e)) ∙ fresh in
      rw (e, remove_absent segment files absent) (omega arith)
  | inr e ↦ rw e (omega (arith, length-remove_one segment files h))
]

remove-IsDirectory :
    (segment : ℕ) (files : Directory) → IsDirectory files → IsDirectory (remove segment files)
unfolding remove
remove-IsDirectory segment [] h = tt
remove-IsDirectory segment ((j, file) ∷ files) (fresh, h) = elim (Bool-cases (j == segment)) [
  | inl e ↦ rw e (remove-IsDirectory segment files h)
  | inr e ↦
      rw e
        (lookup-remove segment j files ∙ ground (arith, fresh), remove-IsDirectory segment files h)
]

-- The loop takes no more files than it counts.
pub cleanup_loop-files :
    (config : WalConfig) (now total bytes_total d b : ℕ) (more : List (ℕ × ℕ × ℕ))
    (files : Directory)
    → IsDirectory files
    → length files + d
      ≤ length (cleanup_loop config now total bytes_total d b more files).1
        + (cleanup_loop config now total bytes_total d b more files).0
unfolding cleanup_loop
cleanup_loop-files config now total bytes_total d b [] files h = omega arith
cleanup_loop-files config now total bytes_total d b ((segment, created, size) ∷ more) files h =
    elim (Bool-cases (leb (total - d) config.min_segments_to_keep)) [
      | inl few ↦ rw few (omega arith)
      | inr enough ↦ elim (Bool-cases (should_delete config now created (bytes_total - b))) [
        | inl e ↦
            rw (enough, e)
              (omega (
                arith,
                length-remove_one segment files h,
                cleanup_loop-files config now total bytes_total (d + 1) (b + size) more
                    (remove segment files) (remove-IsDirectory segment files h),
              ))
        | inr e ↦ rw (enough, e) (cleanup_loop-files config now total bytes_total d b more files h)
      ]
    ]
