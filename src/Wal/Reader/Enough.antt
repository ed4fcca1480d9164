-- ===== src/Wal/Reader/Enough.antt =====
-- The loop of `read_segment` ends: a round takes at least 24 bytes.
use chono_db.Prelude.Bytes.{u32_at}
use chono_db.Prelude.{
  ℕ, suc, zero, ◌+◌, ◌<◌, List, length, length-drop, take, drop, ◌≡◌, ◌≢◌, refl, arith, ltb,
  Bool-cases, inl, inr, Option-cases,
}
use chono_db.Prelude.Assoc.{lookup, number_key}
use chono_db.Error.{Result, ok, err, stuck}
use chono_db.Wal.Entry.{WalEntry, Codec, decode, try_from, wal_entry_header_size}
use chono_db.Wal.Header.{decode_header}
use chono_db.Wal.Reader.{Directory, push_entry, read_loop, read_file, read_segment}

module _ (codec : Codec) where
  -- Fuel for more than all bytes is as good as any.
  pub read_loop-enough :
      (n m : ℕ) (bytes : List ℕ)
      → length bytes < n
      → length bytes < m
      → read_loop codec n bytes ≡ read_loop codec m bytes
  unfolding read_loop
  read_loop-enough zero m bytes hn hm = absurd (omega arith)
  read_loop-enough (suc n) zero bytes hn hm = absurd (omega arith)
  read_loop-enough (suc n) (suc m) bytes hn hm = elim (Bool-cases (ltb (length bytes) 8)) [
    | inl short ↦ rw short refl
    | inr long ↦
        let left = drop (16 + u32_at (drop 8 bytes) 8) (drop 8 bytes) in
        let one = length-drop (16 + u32_at (drop 8 bytes) 8) (drop 8 bytes) in
        let size = length-drop 8 bytes in
        rw
          (read_loop-enough n m (drop (16 + u32_at (drop 8 bytes) 8) (drop 8 bytes))
            (ground (arith, one, size)) (ground (arith, one, size)))
          refl
  ]

  decode-ends :
      ((json : List ℕ) → codec.from_slice json ≢ stuck)
      → (bytes : List ℕ) → decode codec bytes ≢ stuck
  unfolding decode try_from
  decode-ends total bytes e =
      ground (arith, total (take (u32_at bytes 8) (drop wal_entry_header_size bytes)))

  push_entry-ends :
      (first : Result WalEntry) (rest : Result (List WalEntry))
      → first ≢ stuck
      → rest ≢ stuck
      → push_entry first rest ≢ stuck
  unfolding push_entry
  push_entry-ends stuck rest h g e = h refl
  push_entry-ends (err reason) rest h g e = cc
  push_entry-ends (ok entry) stuck h g e = g refl
  push_entry-ends (ok entry) (err reason) h g e = cc
  push_entry-ends (ok entry) (ok entries) h g e = cc

  pub read_loop-ends :
      ((json : List ℕ) → codec.from_slice json ≢ stuck)
      → (n : ℕ) (bytes : List ℕ) → length bytes < n
      → read_loop codec n bytes ≢ stuck
  unfolding read_loop
  read_loop-ends total zero bytes h = absurd (omega arith)
  read_loop-ends total (suc n) bytes h = elim (Bool-cases (ltb (length bytes) 8)) [
    | inl short ↦ rw short (λ e. cc)
    | inr long ↦
        let size = length-drop (16 + u32_at (drop 8 bytes) 8) (drop 8 bytes) in
        let rest =
          read_loop-ends total n (drop (16 + u32_at (drop 8 bytes) 8) (drop 8 bytes))
            (ground (arith, size, length-drop 8 bytes)) in
        let first = decode-ends total (take (16 + u32_at (drop 8 bytes) 8) (drop 8 bytes)) in
        let pushed = push_entry-ends _ _ first rest in λ e. ground (arith, pushed)
  ]

  -- Reading a segment comes to an end, with entries or an error, where reading JSON does.
  pub read_segment-ends :
      ((json : List ℕ) → codec.from_slice json ≢ stuck)
      → (files : Directory) (segment : ℕ) → read_segment codec files segment ≢ stuck
  unfolding read_segment read_file decode_header
  read_segment-ends total files segment = elim (Option-cases (lookup segment files)) [
    | inl e ↦ rw (read_segment, e) (λ h. cc)
    | inr (file, e) ↦
        let loop =
          read_loop-ends total (suc (length file.bytes)) (drop 20 file.bytes)
            (ground (arith, length-drop 20 file.bytes)) in
        rw (read_segment, e) (λ h. ground (arith, loop))
  ]
