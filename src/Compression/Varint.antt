-- ===== src/Compression/Varint.antt =====
-- storage/src/compression/delta.rs: the variable-length form of one `i64`.
pub mod RoundTrip
use mathlib.Core.WellFounded.{Acc}
use mathlib.Core.Logic.{dite}
use native.Mathlib.Decide.{dec_lt}
use chono_db.Prelude.{
  ℕ, ◌+◌, ◌*◌, ◌/◌, ◌%◌, ◌^◌, ◌≤◌, ◌<◌, arith, ◌==◌, leb, if◌then◌else◌, List, [], ◌∷◌, ◌++◌,
}
use chono_db.Prelude.Int.{ℤ}
use chono_db.Prelude.Bits.{bit_and, bit_or}
use chono_db.Prelude.Order.{lt_wf}
use chono_db.Error.{Result, ok, err, invalid_data}
use chono_db.Compression.ZigZag.{zigzag_encode, zigzag_decode}

abbrev pub shift_smaller : (v : ℕ) → 127 < v → v / 128 < v
shift_smaller v h = omega arith

-- `while v >= 0x80 { result.push((v as u8) | 0x80); v >>= 7; } result.push(v as u8)`
encode_loop : List ℕ → (v : ℕ) → Acc ◌<◌ v → List ℕ
encode_loop result v (Acc.intro _ smaller) =
    dite (dec_lt 127 v)
      (λ more.
        encode_loop (result ++ (bit_or (v % 256) 0x80 ∷ [])) (v / 128)
          (smaller _ (shift_smaller v more)))
      (λ _. result ++ (v % 256 ∷ []))

unfoldable pub encode_varint : ℤ → List ℕ
unfolding encode_loop lt_wf dec_lt
encode_varint value = encode_loop [] (zigzag_encode value) (lt_wf.apply (zigzag_encode value))

-- The list is the part of `data` that has not been read, from `pos` on.
decode_loop : List ℕ → ℕ → ℕ → ℕ → Result (ℤ × ℕ)
decode_loop [] result shift pos = err (invalid_data "Unexpected end of varint data")
decode_loop (byte ∷ rest) result shift pos =
    let result' = bit_or result (bit_and byte 0x7F * 2 ^ shift % 2 ^ 64) in
    let more = decode_loop rest result' (shift + 7) (pos + 1) in
    if bit_and byte 0x80 == 0
    then ok (zigzag_decode result', pos + 1)
    else if leb 64 (shift + 7)
    then err (invalid_data "Varint too long")
    else more

unfoldable pub decode_varint : List ℕ → Result (ℤ × ℕ)
unfolding decode_loop
decode_varint data' = decode_loop data' 0 0 0
