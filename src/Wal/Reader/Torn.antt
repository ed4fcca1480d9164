-- ===== src/Wal/Reader/Torn.antt =====
-- What reading gives for a segment whose last write was cut by a crash.
use chono_db.Prelude.Bytes.{from_to_le_bytes, to_le_bytes, u32_at, u64_bytes}
use chono_db.Prelude.{
  ℕ, suc, ◌+◌, ◌-◌, ◌≤◌, ◌<◌, List, [], ◌++◌, length, length-take, length-drop, take-append, take,
  drop, ◌≡◌, refl, sym, ap, ◌∙◌, subst, arith, ltb, All, if◌then◌else◌, Bool-cases, inl, inr,
  append-nil, ◌^◌, ◌%◌,
}
use chono_db.Error.{ok, err, io}
use chono_db.Wal.Entry.{Codec, frame}
use chono_db.Wal.Header.{WalHeader, encode_header, IsHeader}
use chono_db.Wal.Reader.{read_loop, read_file}
use chono_db.Wal.Reader.Segments.{
  Written, entries_of, IsWritten, bytes_of, body, read_file-body, length-bytes_of,
}

module _ (codec : Codec) where
  front_of : Written → List ℕ
  unfolding bytes_of
  front_of w = take 24 (bytes_of codec w)

  front_of-bytes :
      (w : Written) → (length (front_of w) ≡ 24) × (bytes_of codec w ≡ front_of w ++ w.json)
  unfolding front_of bytes_of frame u64_bytes to_le_bytes
  front_of-bytes w = (refl, refl)

  front_of-data_len :
      (w : Written) (rest : List ℕ)
      → length w.json < 2 ^ 32
      → u32_at (drop 8 (front_of w ++ rest)) 8 ≡ length w.json
  unfolding front_of bytes_of frame u64_bytes to_le_bytes u32_at
  front_of-data_len w rest h =
      let n : length w.json % 2 ^ 32 ≡ length w.json = omega arith in
      rw n (from_to_le_bytes (length w.json) h)

  cut-data_len :
      (w : Written) (n : ℕ)
      → 24 ≤ n
      → length w.json < 2 ^ 32
      → u32_at (drop 8 (take n (bytes_of codec w))) 8 ≡ length w.json
  cut-data_len w n h short =
      let (size, parts) = front_of-bytes w in
      let whole : length (front_of w) + (n - 24) ≡ n = omega (arith, size) in
      let cut : take n (bytes_of codec w) ≡ front_of w ++ take (n - 24) w.json = rw parts (
        subst (λ k. take k (front_of w ++ w.json) ≡ front_of w ++ take (n - 24) w.json) whole
          (take-append (front_of w) (n - 24) w.json)) in
      rw cut (front_of-data_len w (take (n - 24) w.json) short)

  read_loop-cut :
      (m n : ℕ) (w : Written)
      → IsWritten codec w
      → n < length (bytes_of codec w)
      → read_loop codec (suc m) (take n (bytes_of codec w)) ≡ (if ltb n 8 then ok [] else err io)
  unfolding read_loop
  read_loop-cut m n w h cut =
      let total : length (bytes_of codec w) ≡ 24 + (length w.json + 0) =
        ap length (sym (append-nil (bytes_of codec w))) ∙ length-bytes_of codec w [] in
      let size : length (take n (bytes_of codec w)) ≡ n =
        omega (arith, length-take n (bytes_of codec w)) in
      let left : length (drop 8 (take n (bytes_of codec w))) ≡ n - 8 =
        omega (arith, size, length-drop 8 (take n (bytes_of codec w))) in
      elim (Bool-cases (ltb n 24)) [
        | inl e ↦ rw (size, left) (ground arith)
        | inr e ↦
            let data_len = cut-data_len w n (ground arith) h.short in
            rw (size, left, data_len) (ground arith)
      ]

  -- A segment whose last entry was cut after `n` of its bytes gives the entries before it where the
  -- cut falls into the sequence number, and else fails as a whole.
  pub read_file-torn :
      (header : WalHeader) (ws : List Written) (w : Written) (n : ℕ)
      → IsHeader header
      → All (IsWritten codec) ws
      → IsWritten codec w
      → n < length (bytes_of codec w)
      → read_file codec (encode_header header ++ (body codec ws ++ take n (bytes_of codec w)))
        ≡ (if ltb n 8 then ok (entries_of ws) else err io)
  read_file-torn header ws w n h sound last cut =
      rw
        (
          read_file-body codec header ws (take n (bytes_of codec w)) h sound,
          read_loop-cut (length (take n (bytes_of codec w))) n w last cut,
        )
        (elim (Bool-cases (ltb n 8)) [
          | inl e ↦ rw (e, append-nil (entries_of ws)) refl
          | inr e ↦ rw e refl
        ])
