-- ===== src/Wal/Reader/Segments.antt =====
-- What reading gives for a segment that the writer wrote, also one whose last entry is cut.
use chono_db.Prelude.Bytes.{from_to_le_bytes, to_le_bytes, u32_at, u64_bytes}
use chono_db.Prelude.{
  ℕ, suc, zero, ◌+◌, ◌%◌, ◌^◌, ◌<◌, List, [], ◌∷◌, ◌++◌, length, drop-append_length, drop-append,
  take-append, take-append_length, take, drop, map, ◌≡◌, refl, sym, ap, ◌∙◌, subst, arith, ltb, All,
  false, append_assoc, append-nil,
}
use chono_db.Error.{Result, ok, err, stuck, ◌>>=◌}
use chono_db.Wal.Entry.{WalEntry, Codec, frame}
use chono_db.Wal.Entry.RoundTrip.{IsStorable, decode-frame, length-frame}
use chono_db.Wal.Header.{WalHeader, encode_header, IsHeader, decode-encode_header}
use chono_db.Wal.Reader.{push_entry, read_loop, read_file}
use chono_db.Wal.Reader.Enough.{read_loop-enough}

-- An entry in a segment, with its sequence number and its JSON.
pub record Written : Type 0 where
  pub sequence : ℕ
  pub entry : WalEntry
  pub json : List ℕ

abbrev pub entries_of : List Written → List WalEntry
entries_of ws = map (λ (w : Written). w.entry) ws

>>=-ok : (r : Result (List WalEntry)) → r ≡ (r >>= λ entries. ok ([] ++ entries))
>>=-ok stuck = refl
>>=-ok (err e) = refl
>>=-ok (ok entries) = refl

>>=-twice :
    (r : Result (List WalEntry)) (front : List WalEntry) (entry : WalEntry)
    → ((r >>= λ entries. ok (front ++ entries)) >>= λ entries. ok (entry ∷ entries))
      ≡ (r >>= λ entries. ok ((entry ∷ front) ++ entries))
>>=-twice stuck front entry = refl
>>=-twice (err e) front entry = refl
>>=-twice (ok entries) front entry = refl

module _ (codec : Codec) where
  -- The JSON is that of the entry, reads back as it, and fits into the fields of the header.
  pub record IsWritten (w : Written) : Type 0 where
    pub json_of : codec.to_vec w.entry ≡ ok w.json
    pub reads_back : codec.from_slice w.json ≡ ok w.entry
    pub short : length w.json < 2 ^ 32
    pub checksum : codec.hash w.json < 2 ^ 32

  pub IsStorable-IsWritten :
      (sequence : ℕ) (entry : WalEntry) (h : IsStorable codec entry)
      → IsWritten (record { sequence = sequence; entry = entry; json = h.json })
  IsStorable-IsWritten sequence entry h = record {
    json_of = h.json_of;
    reads_back = h.reads_back;
    short = h.short;
    checksum = h.checksum;
  }

  unfoldable pub bytes_of : Written → List ℕ
  bytes_of w = u64_bytes w.sequence ++ frame codec w.entry.entry_type w.json

  unfoldable pub body : List Written → List ℕ
  body [] = []
  body (w ∷ ws) = bytes_of w ++ body ws

  pub length-bytes_of :
      (w : Written) (rest : List ℕ)
      → length (bytes_of w ++ rest) ≡ 24 + (length w.json + length rest)
  unfolding bytes_of u64_bytes to_le_bytes
  length-bytes_of w rest = omega (arith, length-frame codec w.entry.entry_type w.json rest)

  -- The bytes behind the sequence number.
  drop-bytes_of :
      (w : Written) (rest : List ℕ)
      → drop 8 (bytes_of w ++ rest) ≡ frame codec w.entry.entry_type w.json ++ rest
  unfolding bytes_of u64_bytes to_le_bytes
  drop-bytes_of w rest = refl

  data_len-frame :
      (w : Written) (rest : List ℕ)
      → length w.json < 2 ^ 32
      → u32_at (frame codec w.entry.entry_type w.json ++ rest) 8 ≡ length w.json
  unfolding frame u32_at to_le_bytes
  data_len-frame w rest h =
      let n : length w.json % 2 ^ 32 ≡ length w.json = omega arith in
      rw n (from_to_le_bytes (length w.json) h)

  -- The sixteen bytes in front of the JSON.
  header_of : Written → List ℕ
  unfolding frame
  header_of w = take 16 (frame codec w.entry.entry_type w.json)

  header_of-frame :
      (w : Written) (rest : List ℕ)
      → (length (header_of w) ≡ 16)
        × (frame codec w.entry.entry_type w.json ++ rest ≡ header_of w ++ (w.json ++ rest))
  unfolding header_of frame to_le_bytes
  header_of-frame w rest = (refl, refl)

  take-frame :
      (w : Written) (rest : List ℕ)
      → take (16 + length w.json) (frame codec w.entry.entry_type w.json ++ rest)
        ≡ frame codec w.entry.entry_type w.json ++ []
  take-frame w rest =
      let (size, parts) = header_of-frame w rest in
      let (_, parts') = header_of-frame w [] in
      rw (parts, parts', append-nil w.json)
        (subst
          (λ n. take (n + length w.json) (header_of w ++ (w.json ++ rest)) ≡ header_of w ++ w.json)
          size
          (take-append (header_of w) (length w.json) (w.json ++ rest)
            ∙ ap (λ l. header_of w ++ l) (take-append_length w.json rest)))

  after-frame :
      (w : Written) (rest : List ℕ)
      → drop (16 + length w.json) (frame codec w.entry.entry_type w.json ++ rest) ≡ rest
  after-frame w rest =
      let (size, parts) = header_of-frame w rest in
      rw parts (
        subst (λ n. drop (n + length w.json) (header_of w ++ (w.json ++ rest)) ≡ rest) size
          (drop-append (header_of w) (length w.json) (w.json ++ rest)
            ∙ drop-append_length w.json rest))

  -- A round reads one entry.
  read_loop-round :
      (n : ℕ) (w : Written) (rest : List ℕ)
      → IsWritten w
      → read_loop codec (suc n) (bytes_of w ++ rest)
        ≡ (read_loop codec n rest >>= λ entries. ok (w.entry ∷ entries))
  unfolding read_loop push_entry
  read_loop-round n w rest h =
      let size = length-bytes_of w rest in
      let long : ltb (length (bytes_of w ++ rest)) 8 ≡ false = ground (arith, size) in
      let size' = length-frame codec w.entry.entry_type w.json rest in
      let header : ltb (length (frame codec w.entry.entry_type w.json ++ rest)) 16 ≡ false =
        ground (arith, size') in
      let whole : ltb (length (frame codec w.entry.entry_type w.json ++ rest)) (16 + length w.json)
          ≡ false =
        ground (arith, size') in
      rw
        (
          long,
          drop-bytes_of w rest,
          data_len-frame w rest h.short,
          header,
          whole,
          take-frame w rest,
          after-frame w rest,
          decode-frame codec w.entry.entry_type w.json [] h.short h.checksum,
          h.reads_back,
        )
        refl

  read_loop-body :
      (n : ℕ) (ws : List Written) (tail : List ℕ)
      → All IsWritten ws
      → length (body ws ++ tail) < n
      → read_loop codec n (body ws ++ tail)
        ≡ (read_loop codec (suc (length tail)) tail >>= λ entries. ok (entries_of ws ++ entries))
  unfolding body
  read_loop-body zero ws tail h enough = absurd (omega arith)
  read_loop-body (suc n) [] tail h enough =
      rw (read_loop-enough codec (suc n) (suc (length tail)) tail enough (omega arith))
        (>>=-ok (read_loop codec (suc (length tail)) tail))
  read_loop-body (suc n) (w ∷ ws) tail (first, h) enough =
      let parts = ap length (append_assoc (bytes_of w) (body ws) tail) in
      let size = length-bytes_of w (body ws ++ tail) in
      let less : length (body ws ++ tail) < n = omega arith in
      rw
        (
          append_assoc (bytes_of w) (body ws) tail,
          read_loop-round n w (body ws ++ tail) first,
          read_loop-body n ws tail h less,
        )
        (>>=-twice (read_loop codec (suc (length tail)) tail) (entries_of ws) w.entry)

  header_first :
      (header : WalHeader) (rest : List ℕ)
      → (take 20 (encode_header header ++ rest) ≡ encode_header header ++ [])
        × (drop 20 (encode_header header ++ rest) ≡ rest)
        × (length (encode_header header ++ rest) ≡ 20 + length rest)
  unfolding encode_header u64_bytes to_le_bytes
  header_first header rest = (refl, refl, omega arith)

  -- A segment of whole entries with `tail` behind them.
  pub read_file-body :
      (header : WalHeader) (ws : List Written) (tail : List ℕ)
      → IsHeader header
      → All IsWritten ws
      → read_file codec (encode_header header ++ (body ws ++ tail))
        ≡ (read_loop codec (suc (length tail)) tail >>= λ entries. ok (entries_of ws ++ entries))
  unfolding read_file
  read_file-body header ws tail h sound =
      let bytes = encode_header header ++ (body ws ++ tail) in
      let (front, back, size) = header_first header (body ws ++ tail) in
      let long : ltb (length (encode_header header ++ (body ws ++ tail))) 20 ≡ false =
        ground (arith, size) in
      rw (long, front, back, decode-encode_header header [] h)
        (read_loop-body (suc (length (encode_header header ++ (body ws ++ tail)))) ws tail sound
          (omega (arith, size)))

  pub read_file-whole :
      (header : WalHeader) (ws : List Written)
      → IsHeader header
      → All IsWritten ws
      → read_file codec (encode_header header ++ body ws) ≡ ok (entries_of ws)
  read_file-whole header ws h sound =
      let nothing : read_loop codec (suc (length {A = ℕ} [])) [] ≡ ok [] =
        unfold read_loop in refl in
      let whole = read_file-body header ws [] h sound in
      ap (λ l. read_file codec (encode_header header ++ l)) (sym (append-nil (body ws)))
      ∙ (whole ∙ rw (nothing, append-nil (entries_of ws)) refl)

  pub body-last : (ws : List Written) (w : Written) → body (ws ++ (w ∷ [])) ≡ body ws ++ bytes_of w
  unfolding body
  body-last [] w = append-nil (bytes_of w)
  body-last (v ∷ ws) w =
      rw (body-last ws w) (sym (append_assoc (bytes_of v) (body ws) (bytes_of w)))
