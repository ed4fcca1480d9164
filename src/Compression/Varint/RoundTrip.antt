-- ===== src/Compression/Varint/RoundTrip.antt =====
-- A varint is 1 to 10 bytes, and decoding it gives the number back whatever follows.
use mathlib.Core.WellFounded.{Acc}
use native.Mathlib.Nat.{mod-eq_of_lt}
use native.Mathlib.Numerals.{towards_suc}
use chono_db.Prelude.{
  ℕ, zero, suc, ◌+◌, ◌*◌, ◌/◌, ◌%◌, ◌^◌, ◌≤◌, ◌<◌, ◌≡◌, refl, ap, ◌∙◌, arith, true, Bool, ◌==◌,
  ==_iff, ◌&&◌, leb, if◌then◌else◌, List, [], ◌∷◌, ◌++◌, append_assoc, length,
}
use chono_db.Prelude.Int.{ℤ}
use chono_db.Prelude.Bits.{bit_and, bit_or, bit_or-shifted, bit_and-mask}
use chono_db.Prelude.Order.{lt_wf}
use chono_db.Prelude.Word.{IsI64}
use chono_db.Error.{ok}
use chono_db.Compression.ZigZag.{
  zigzag_encode, zigzag_decode, zigzag_decode-encode, zigzag_encode_size,
}
use chono_db.Compression.Varint.{encode_loop, encode_varint, decode_loop, decode_varint}

-- What a test of every byte shows.
holds_below : ℕ → (ℕ → Bool) → Bool
holds_below zero p = true
holds_below (suc n) p = p n && holds_below n p

holds_below_sound : (n : ℕ) (p : ℕ → Bool) (x : ℕ) → holds_below n p ≡ true → x < n → p x ≡ true
unfolding holds_below
holds_below_sound zero p x h lt = absurd (omega arith)
holds_below_sound (suc n) p x h lt = ground (arith, holds_below_sound n p x)

set_top_table : holds_below 256 (λ b. bit_or b 0x80 == (b % 128 + 128)) ≡ true
unfolding holds_below
set_top_table = refl

set_top : (b : ℕ) → b < 256 → bit_or b 0x80 ≡ b % 128 + 128
set_top b h = (==_iff _ _).0 (holds_below_sound 256 _ b set_top_table h)

top_bit_table : holds_below 256 (λ b. bit_and b 0x80 == b / 128 * 128) ≡ true
unfolding holds_below
top_bit_table = refl

top_bit : (b : ℕ) → b < 256 → bit_and b 0x80 ≡ b / 128 * 128
top_bit b h = (==_iff _ _).0 (holds_below_sound 256 _ b top_bit_table h)

-- The bytes of `v`, lowest seven bits first, for `v` below 128 ^ (k + 1).
encoding : ℕ → ℕ → List ℕ
encoding (suc k) v =
    let higher = encoding k (v / 128) in if leb 128 v then (128 + v % 128) ∷ higher else v ∷ []
encoding zero v = v ∷ []

encode_loop-encoding :
    (k : ℕ) (result : List ℕ) (v : ℕ) (w : Acc ◌<◌ v)
    → v < 128 ^ suc k
    → encode_loop result v w ≡ result ++ encoding k v
unfolding encode_loop encoding
encode_loop-encoding zero result v (Acc.intro _ smaller) h = ground arith
encode_loop-encoding (suc k) result v (Acc.intro _ smaller) h =
    let longer : List ℕ = result ++ ((128 + v % 128) ∷ []) in
    let above =
      λ (w : Acc ◌<◌ (v / 128)). encode_loop-encoding k longer (v / 128) w (omega arith) in
    grind (
      arith,
      above,
      set_top (v % 256),
      append_assoc result ((128 + v % 128) ∷ []) (encoding k (v / 128)),
    )

encode_varint-encoding : (v : ℤ) → IsI64 v → encode_varint v ≡ encoding 9 (zigzag_encode v)
unfolding encode_varint
encode_varint-encoding v h =
    encode_loop-encoding 9 [] _ (lt_wf.apply (zigzag_encode v))
      (omega (arith, zigzag_encode_size v h))

length-encoding_pos : (v k : ℕ) → 0 < length (encoding k v)
unfolding encoding
length-encoding_pos v zero = omega arith
length-encoding_pos v (suc k) = ground arith

length-encoding_le : (v k : ℕ) → length (encoding k v) < k + 2
unfolding encoding
length-encoding_le v (suc k) = ground (arith, length-encoding_le (v / 128) k)
length-encoding_le v zero = omega arith

-- The bits of a byte above the `shift` bits that have been read.
add_group :
    (byte g result shift : ℕ)
    → byte % 128 ≡ g
    → result < 2 ^ shift
    → g * 2 ^ shift < 2 ^ 64
    → bit_or result (bit_and byte 0x7F * 2 ^ shift % 2 ^ 64) ≡ result + g * 2 ^ shift
add_group byte g result shift e h fits =
    rw (bit_and-mask 7 byte 127 refl, e, mod-eq_of_lt fits) (bit_or-shifted shift result g h)

last_byte :
    (w result shift pos : ℕ) (rest : List ℕ)
    → w < 128
    → result < 2 ^ shift
    → w * 2 ^ shift < 2 ^ 64
    → decode_loop (w ∷ rest) result shift pos ≡ ok (zigzag_decode (result + w * 2 ^ shift), pos + 1)
unfolding decode_loop
last_byte w result shift pos rest hw hr fits =
    ground (arith, add_group w w result shift (omega arith), top_bit w)

inner_byte :
    (g result shift pos : ℕ) (rest : List ℕ)
    → g < 128
    → result < 2 ^ shift
    → g * 2 ^ shift < 2 ^ 64
    → shift + 7 < 64
    → decode_loop ((g + 128) ∷ rest) result shift pos
      ≡ decode_loop rest (result + g * 2 ^ shift) (shift + 7) (pos + 1)
unfolding decode_loop
inner_byte g result shift pos rest hg hr fits hs =
    ground (arith, add_group (g + 128) g result shift (omega arith), top_bit (g + 128))

seven_more : (s : ℕ) → 2 ^ (s + 7) ≡ 128 * 2 ^ s
seven_more s = simp towards_suc (omega arith)

split_product : (low high p : ℕ) → (low + high * 128) * p ≡ low * p + high * (128 * p)
split_product low high p = grind arith

-- The lowest group of `w` and the groups above it.
low_and_high : (w s : ℕ) → w * 2 ^ s ≡ w % 128 * 2 ^ s + w / 128 * 2 ^ (s + 7)
low_and_high w s =
    let parts : w ≡ w % 128 + w / 128 * 128 = omega arith in
    rw (seven_more s)
      (ap (λ (all : ℕ). all * 2 ^ s) parts ∙ split_product (w % 128) (w / 128) (2 ^ s))

group_fits : (g result s : ℕ) → g < 128 → result < 2 ^ s → result + g * 2 ^ s < 2 ^ (s + 7)
group_fits g result s hg hr = rw (seven_more s) (grind arith)

-- `w`, counted from bit `shift` on, is what is still to be read.
decode_loop-encoding :
    (k w result shift pos : ℕ) (rest : List ℕ)
    → w < 128 ^ suc k
    → result < 2 ^ shift
    → w * 2 ^ shift < 2 ^ 64
    → shift + 7 * k ≤ 63
    → decode_loop (encoding k w ++ rest) result shift pos
      ≡ ok (zigzag_decode (result + w * 2 ^ shift), pos + length (encoding k w))
unfolding encoding
decode_loop-encoding zero w result shift pos rest hw hr fits hs =
    last_byte w result shift pos rest hw hr fits
decode_loop-encoding (suc k) w result shift pos rest hw hr fits hs = ground (
  arith,
  last_byte w result shift pos rest,
  low_and_high w shift,
  group_fits (w % 128) result shift (omega arith),
  inner_byte (w % 128) result shift pos (encoding k (w / 128) ++ rest) (omega arith) hr,
  decode_loop-encoding k (w / 128) (result + w % 128 * 2 ^ shift) (shift + 7) (pos + 1) rest
      (omega arith),
)

-- Decoding reads back every `i64` from its encoding, whatever bytes follow, and says how many
-- bytes it took.
pub decode_varint-encode_varint :
    (v : ℤ) (rest : List ℕ)
    → IsI64 v
    → decode_varint (encode_varint v ++ rest) ≡ ok (v, length (encode_varint v))
unfolding decode_varint
decode_varint-encode_varint v rest h = rw (encode_varint-encoding v h) (
    decode_loop-encoding 9 (zigzag_encode v) 0 0 0 rest (omega (arith, zigzag_encode_size v h))
      (omega arith) (omega (arith, zigzag_encode_size v h)) (omega arith)
    ∙ ground (arith, zigzag_decode-encode v h))

-- An encoding has 1 to 10 bytes.
pub length-encode_varint :
    (v : ℤ) → IsI64 v → (1 ≤ length (encode_varint v)) × (length (encode_varint v) ≤ 10)
length-encode_varint v h = rw (encode_varint-encoding v h) (
  omega (arith, length-encoding_pos (zigzag_encode v) 9),
  omega (arith, length-encoding_le (zigzag_encode v) 9),
)
