-- ===== src/Compression/Simple8b/Loss.antt =====
-- What packing loses.
use native.Mathlib.Decide.{dec_lt}
use native.Mathlib.Nat.{one-le-pow, mod-lt}
use chono_db.Prelude.{
  ℕ, zero, suc, ◌+◌, ◌-◌, ◌*◌, ◌/◌, ◌%◌, ◌^◌, ◌≤◌, ◌<◌, ◌≡◌, ◌≢◌, refl, sym, ap, ◌∙◌, arith, min,
  List, [], ◌∷◌, ◌++◌, get_elem?, some,
}
use chono_db.Prelude.Bits.{bit_and, bit_or, bit_and-mask, shifted-bit_or}
use chono_db.Compression.Simple8b.{
  encode_simple8b_chunk, encode_loop, encode_simple8b, decode_simple8b, unpack_loop, selected,
  layout, maximum,
}

chunk_of_one :
    (v bits most : ℕ)
    → layout v ≡ (bits, suc most)
    → encode_simple8b_chunk (v ∷ [])
      ≡ (bit_or (bits * 2 ^ 60 % 2 ^ 64) (bit_and v (2 ^ bits - 1) * 2 ^ (0 * bits) % 2 ^ 64), 1)
unfolding encode_simple8b_chunk
chunk_of_one v bits most e =
    let whole : maximum (v ∷ []) ≡ v = omega arith in
    let one : min (suc most) 1 ≡ 1 = omega arith in rw (whole, e, encode_simple8b_chunk) (rw one)

-- The selector of that word is the layout's number of bits modulo 16.
selector_of_one :
    (v bits most : ℕ)
    → layout v ≡ (bits, suc most)
    → 2 ^ bits ≤ 2 ^ 32
    → (encode_simple8b_chunk (v ∷ [])).0 / 2 ^ 60 % 256 ≡ bits % 16
selector_of_one v bits most e fits =
    let none_shifted : 0 * bits ≡ 0 = omega arith in
    let top : bits * 2 ^ 60 % 2 ^ 64 ≡ bits % 16 * 2 ^ 60 = omega arith in
    let mask : 2 ^ bits - 1 + 1 ≡ 2 ^ bits = omega (arith, one-le-pow bits 2 (omega arith)) in
    let low : v % 2 ^ bits < 2 ^ bits = mod-lt v (one-le-pow bits 2 (omega arith)) in
    let small : v % 2 ^ bits * 1 % 2 ^ 64 ≡ v % 2 ^ bits = omega arith in
    rw
      (
        chunk_of_one v bits most e,
        none_shifted,
        top,
        bit_and-mask bits v (2 ^ bits - 1) mask,
        small,
      )
      (rw (shifted-bit_or 60 (bits % 16) (v % 2 ^ bits) (omega arith)) (omega arith))

-- What is decoded first is below 2 ^ b, for the number of bits b that the selector stands for.
first_stays :
    (n bits i encoded x : ℕ) (r : List ℕ)
    → get_elem? (unpack_loop n bits i encoded (x ∷ r)) 0 ≡ some x
unfolding unpack_loop
first_stays zero bits i encoded x r = refl
first_stays (suc n) bits i encoded x r = first_stays n bits (i + 1) encoded x (r ++ _ ∷ [])

first_small :
    (w v bits n : ℕ)
    → selected (w / 2 ^ 60 % 256) ≡ some (bits, suc n)
    → 2 ^ bits ≤ v
    → get_elem? (decode_simple8b w) 0 ≢ some v
unfolding decode_simple8b
first_small w v bits n e le h =
    let masked : bit_and (w / 2 ^ (0 * bits)) (2 ^ bits - 1) ≡ w / 2 ^ (0 * bits) % 2 ^ bits =
      bit_and-mask bits _ (2 ^ bits - 1) (omega (arith, one-le-pow bits 2 (omega arith))) in
    let low : w / 2 ^ (0 * bits) % 2 ^ bits < 2 ^ bits =
      mod-lt _ (one-le-pow bits 2 (omega arith)) in
    let x : ℕ = bit_and (w / 2 ^ (0 * bits)) (2 ^ bits - 1) in
    let decoded : decode_simple8b w ≡ unpack_loop n bits 1 w (x ∷ []) = rw (e, decode_simple8b) in
    let first : some x ≡ some v =
      sym (first_stays n bits 1 w x []) ∙ ap (λ l. get_elem? l 0) (sym decoded) ∙ h in
    let same : x ≡ v = cc in absurd (omega arith)

-- How a chunk of one value is laid out: which selector its word gets, and what that stands for.
layout-cases :
    (v : ℕ)
    → 1 ≤ v
    → (bits : ℕ) × (most : ℕ) × (read_bits : ℕ) × (n : ℕ) × (layout v ≡ (bits, suc most))
      × (2 ^ bits ≤ 2 ^ 32)
      × (selected (bits % 16) ≡ some (read_bits, suc n))
      × (2 ^ read_bits ≤ v)
unfolding layout selected
layout-cases v h = elim (dec_lt v 2) [
  | yes p ↦ (0, 59, 0, 59, ground arith, omega arith, refl, omega arith)
  | no p ↦ elim (dec_lt v 4) [
    | yes q ↦ (1, 29, 1, 29, ground arith, omega arith, refl, omega arith)
    | no q ↦ elim (dec_lt v 16) [
      | yes r ↦ (2, 19, 2, 19, ground arith, omega arith, refl, omega arith)
      | no r ↦ elim (dec_lt v 256) [
        | yes s ↦ (4, 14, 4, 14, ground arith, omega arith, refl, omega arith)
        | no s ↦ elim (dec_lt v 65536) [
          | yes t ↦ (8, 6, 8, 6, ground arith, omega arith, refl, omega arith)
          | no t ↦ elim (dec_lt v 4294967296) [
            | yes u ↦ (16, 2, 0, 59, ground arith, omega arith, refl, omega arith)
            | no u ↦ (32, 0, 0, 59, ground arith, omega arith, refl, omega arith)
          ]
        ]
      ]
    ]
  ]
]

encode_one :
    (v w : ℕ) → encode_simple8b_chunk (v ∷ []) ≡ (w, 1) → encode_simple8b (v ∷ []) ≡ some (w ∷ [])
unfolding encode_simple8b
encode_one v w e = rw (e, encode_loop)

-- A single value of at least 1 is packed into one word, and what that word decodes to begins with
-- another value.
pub simple8b_loses :
    (v : ℕ)
    → 1 ≤ v
    → (w : ℕ) × (encode_simple8b (v ∷ []) ≡ some (w ∷ []))
      × (get_elem? (decode_simple8b w) 0 ≢ some v)
simple8b_loses v h =
    let (bits, most, read_bits, n, laid, fits, chosen, big) = layout-cases v h in
    let word : ℕ = (encode_simple8b_chunk (v ∷ [])).0 in
    (
      word,
      encode_one v word (rw (chunk_of_one v bits most laid)),
      first_small word v read_bits n (rw (selector_of_one v bits most laid fits) chosen) big,
    )
