-- ===== src/Compression/Simple8b.antt =====
-- storage/src/compression/delta.rs: packing of small numbers into 64-bit words.
pub mod Loss
use chono_db.Prelude.{
  ℕ, zero, suc, ◌+◌, ◌-◌, ◌*◌, ◌/◌, ◌%◌, ◌^◌, min, max, leb, ◌==◌, if◌then◌else◌, List, [], ◌∷◌,
  ◌++◌, drop, length, Option, none, some,
}
use chono_db.Prelude.Bits.{bit_and, bit_or}

-- `values.iter().max().unwrap_or(&0)`
unfoldable pub maximum : List ℕ → ℕ
maximum [] = 0
maximum (v ∷ vs) = max v (maximum vs)

-- The `match max_value`: bits for each value, and values for each word.
unfoldable pub layout : ℕ → ℕ × ℕ
layout max_value =
    if leb max_value 1
    then (0, 60)
    else if leb max_value 3
    then (1, 30)
    else if leb max_value 15
    then (2, 20)
    else if leb max_value 255
    then (4, 15)
    else if leb max_value 65535
    then (8, 7)
    else if leb max_value 4294967295
    then (16, 3)
    else (32, 1)

-- `for j in 0..count { result |= (values[j] & mask) << (j * bits) }`: `n` rounds from round `j` on,
-- over `values[j..]`. The loop's count is at most the number of values.
pack_loop : ℕ → ℕ → ℕ → List ℕ → ℕ → ℕ
pack_loop zero bits j values result = result
pack_loop (suc n) bits j [] result = result
pack_loop (suc n) bits j (v ∷ vs) result =
    pack_loop n bits (j + 1) vs (bit_or result (bit_and v (2 ^ bits - 1) * 2 ^ (j * bits) % 2 ^ 64))

-- `(bits_per_value as u64) << 60` loses what goes past bit 63.
unfoldable pub encode_simple8b_chunk : List ℕ → ℕ × ℕ
unfolding pack_loop layout maximum
encode_simple8b_chunk [] = (0, 0)
encode_simple8b_chunk (v ∷ vs) =
    let (bits_per_value, most) = layout (maximum (v ∷ vs)) in
    let count = min most (length (v ∷ vs)) in
    (pack_loop count bits_per_value 0 (v ∷ vs) (bits_per_value * 2 ^ 60 % 2 ^ 64), count)

-- `while i < values.len()`; the list is `values[i..]`. A round takes a value at least.
encode_loop : ℕ → List ℕ → List ℕ → Option (List ℕ)
encode_loop fuel [] result = some result
encode_loop zero (v ∷ vs) result = none
encode_loop (suc fuel) (v ∷ vs) result =
    let (encoded, count) = encode_simple8b_chunk (v ∷ vs) in
    encode_loop fuel (drop count (v ∷ vs)) (result ++ (encoded ∷ []))

-- `none` says that the loop of the model ran out of fuel.
unfoldable pub encode_simple8b : List ℕ → Option (List ℕ)
unfolding encode_loop
encode_simple8b values = encode_loop (length values) values []

unpack_loop : ℕ → ℕ → ℕ → ℕ → List ℕ → List ℕ
unpack_loop zero bits i encoded result = result
unpack_loop (suc n) bits i encoded result =
    unpack_loop n bits (i + 1) encoded
      (result ++ (bit_and (encoded / 2 ^ (i * bits)) (2 ^ bits - 1) ∷ []))

-- The `match selector`; the selectors 16 and 32 are there, though four bits never reach them.
selected : ℕ → Option (ℕ × ℕ)
selected selector =
    if selector == 0
    then some (0, 60)
    else if selector == 1
    then some (1, 30)
    else if selector == 2
    then some (2, 20)
    else if selector == 4
    then some (4, 15)
    else if selector == 8
    then some (8, 7)
    else if selector == 16
    then some (16, 3)
    else if selector == 32
    then some (32, 1)
    else none

unpack : ℕ → Option (ℕ × ℕ) → List ℕ
unpack encoded none = []
unpack encoded (some (bits_per_value, count)) = unpack_loop count bits_per_value 0 encoded []

unfoldable pub decode_simple8b : ℕ → List ℕ
unfolding unpack unpack_loop selected
decode_simple8b encoded = unpack encoded (selected (encoded / 2 ^ 60 % 256))
