-- ===== src/Wal/Entry/RoundTrip.antt =====
-- What entries of the log encode, they decode.
use chono_db.Prelude.Bytes.{from_le_bytes, from_to_le_bytes, to_le_bytes, u32_at}
use chono_db.Prelude.{
  take-append_length, ℕ, ◌+◌, ◌%◌, ◌^◌, ◌<◌, ◌≡◌, refl, List, ◌++◌, length, length-append, take,
  drop, arith, ◌==◌, true, false, ltb,
}
use chono_db.Error.{◌>>=◌, ok}
use chono_db.Wal.Entry.{
  WalEntry, encode, WalEntryType, write, delete, series, tombstone, checkpoint, as_u8, try_from,
  Codec, frame, decode,
}

pub try_from-as_u8 : (t : WalEntryType) → try_from (as_u8 t) ≡ ok t
unfolding try_from as_u8
try_from-as_u8 write = refl
try_from-as_u8 delete = refl
try_from-as_u8 series = refl
try_from-as_u8 tombstone = refl
try_from-as_u8 checkpoint = refl

-- The JSON stands behind the header.
frame_json :
    (codec : Codec) (t : WalEntryType) (json rest : List ℕ)
    → take (length json) (drop 16 (frame codec t json ++ rest)) ≡ json
unfolding frame to_le_bytes
frame_json codec t json rest = take-append_length json rest

pub length-frame :
    (codec : Codec) (t : WalEntryType) (json rest : List ℕ)
    → length (frame codec t json ++ rest) ≡ 16 + (length json + length rest)
unfolding frame to_le_bytes
length-frame codec t json rest = omega (arith, length-append json rest)

-- A framed entry is read up to the JSON in it, whatever stands behind it.
pub decode-frame :
    (codec : Codec) (t : WalEntryType) (json rest : List ℕ)
    → length json < 2 ^ 32
    → codec.hash json < 2 ^ 32
    → decode codec (frame codec t json ++ rest) ≡ codec.from_slice json
unfolding decode u32_at frame to_le_bytes from_le_bytes
decode-frame codec t json rest small crc =
    let n : length json % 2 ^ 32 ≡ length json = omega arith in
    let size = length-frame codec t json rest in
    let short : ltb (length (frame codec t json ++ rest)) 16 ≡ false = ground (arith, size) in
    let whole : ltb (length (frame codec t json ++ rest)) (16 + length json) ≡ false =
      ground (arith, size) in
    let same : (codec.hash json == codec.hash json) ≡ true = ground arith in
    rw
      (
        n,
        from_to_le_bytes (length json) small,
        from_to_le_bytes (codec.hash json) crc,
        try_from-as_u8 t,
        short,
        whole,
        frame_json codec t json rest,
        same,
      )
      refl

-- The JSON of the entry is read back as it, and fits with its checksum into the fields of the header.
pub record IsStorable (codec : Codec) (entry : WalEntry) : Type 0 where
  pub json : List ℕ
  pub json_of : codec.to_vec entry ≡ ok json
  pub reads_back : codec.from_slice json ≡ ok entry
  pub short : length json < 2 ^ 32
  pub checksum : codec.hash json < 2 ^ 32

-- An entry whose JSON reads back and fits, encoded with any bytes behind it, is decoded to itself.
pub decode-encode_entry :
    (codec : Codec) (entry : WalEntry) (rest : List ℕ)
    → IsStorable codec entry
    → (encode codec entry >>= λ bytes. decode codec (bytes ++ rest)) ≡ ok entry
unfolding encode
decode-encode_entry codec entry rest h =
    rw (h.json_of, decode-frame codec entry.entry_type h.json rest h.short h.checksum) h.reads_back
