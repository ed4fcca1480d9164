-- ===== src/Compression/ZigZag.antt =====
-- storage/src/compression/delta.rs: the zigzag map between `i64` and `u64`.
use chono_db.Prelude.{ℕ, ◌+◌, ◌-◌, ◌*◌, ◌/◌, ◌%◌, ◌^◌, ◌≤◌, ◌<◌, ◌≡◌, arith}
use native.Mathlib.Decide.{dec_lt}
use chono_db.Prelude.Int.{ℤ, pos, negsuc, pos_part, neg_part}
use chono_db.Prelude.Bits.{bit_and, bit_xor, bit_and-mask, bit_xor-zero, bit_xor-ones}
use chono_db.Prelude.Word.{IsU64, IsI64, as_u64, as_i64}

-- `(value >> 63) as u64`, the arithmetic shift: all ones below zero, else 0.
abbrev sign_mask : ℤ → ℕ
sign_mask (pos n) = 0
sign_mask (negsuc n) = 2 ^ 64 - 1

-- `((value << 1) ^ (value >> 63)) as u64`
unfoldable pub zigzag_encode : ℤ → ℕ
zigzag_encode value = bit_xor (as_u64 value * 2 % 2 ^ 64) (sign_mask value)

-- `((value >> 1) as i64) ^ (-((value & 1) as i64))`
unfoldable pub zigzag_decode : ℕ → ℤ
zigzag_decode value = as_i64 (bit_xor (value / 2) ((2 ^ 64 - bit_and value 1) % 2 ^ 64))

pub zigzag_encode-pos : (n : ℕ) → n < 2 ^ 63 → zigzag_encode (pos n) ≡ 2 * n
unfolding zigzag_encode
zigzag_encode-pos n h = omega (arith, bit_xor-zero (n * 2 % 2 ^ 64))

pub zigzag_encode-negsuc : (n : ℕ) → n < 2 ^ 63 → zigzag_encode (negsuc n) ≡ 2 * n + 1
unfolding zigzag_encode
zigzag_encode-negsuc n h = omega (
  arith,
  bit_xor-ones 64 ((2 ^ 64 - 1 - n) * 2 % 2 ^ 64) (2 ^ 64 - 1) (omega arith) (omega arith),
)

-- The mask that `-((value & 1) as i64)` gives.
low_bit_mask : (u m : ℕ) → (2 ^ 64 - u % 2) % 2 ^ 64 ≡ m → (2 ^ 64 - bit_and u 1) % 2 ^ 64 ≡ m
low_bit_mask u m h = omega (arith, bit_and-mask 1 u 1 (omega arith))

zigzag_decode-even : (u n : ℕ) → u ≡ 2 * n → n < 2 ^ 63 → zigzag_decode u ≡ pos n
unfolding zigzag_decode
zigzag_decode-even u n e h =
    rw (low_bit_mask u 0 (omega arith), bit_xor-zero (u / 2)) (ground arith)

zigzag_decode-odd : (u n : ℕ) → u ≡ 2 * n + 1 → n < 2 ^ 63 → zigzag_decode u ≡ negsuc n
unfolding zigzag_decode
zigzag_decode-odd u n e h =
    rw
      (
        low_bit_mask u (2 ^ 64 - 1) (omega arith),
        bit_xor-ones 64 (u / 2) (2 ^ 64 - 1) (omega arith) (omega arith),
      )
      (ground arith)

-- Decoding gives back every `i64`.
pub zigzag_decode-encode : (v : ℤ) → IsI64 v → zigzag_decode (zigzag_encode v) ≡ v
zigzag_decode-encode (pos n) h = zigzag_decode-even _ n (zigzag_encode-pos n h.0) h.0
zigzag_decode-encode (negsuc n) h =
    zigzag_decode-odd _ n (zigzag_encode-negsuc n (omega arith)) (omega arith)

-- Encoding gives a `u64`, the smaller the nearer to 0 the number lies, whatever its sign.
pub zigzag_encode_size :
    (v : ℤ) → IsI64 v → zigzag_encode v ≤ 2 * (pos_part v + neg_part v) × IsU64 (zigzag_encode v)
zigzag_encode_size (pos n) h = omega (arith, zigzag_encode-pos n)
zigzag_encode_size (negsuc n) h = omega (arith, zigzag_encode-negsuc n)

-- Decoding a `u64` gives an `i64` that encodes to it.
pub zigzag_encode-decode :
    (u : ℕ) → IsU64 u → IsI64 (zigzag_decode u) × (zigzag_encode (zigzag_decode u) ≡ u)
zigzag_encode-decode u h = elim (dec_lt 0 (u % 2)) [
  | yes odd ↦
      let n : ℕ = u / 2 in
      rw (zigzag_decode-odd u n (omega arith) (omega arith))
        (omega (arith, zigzag_encode-negsuc n (omega arith)))
  | no even ↦
      let n : ℕ = u / 2 in
      rw (zigzag_decode-even u n (omega arith) (omega arith))
        (omega (arith, zigzag_encode-pos n (omega arith)))
]
