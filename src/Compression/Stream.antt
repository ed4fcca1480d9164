-- ===== src/Compression/Stream.antt =====
-- storage/src/compression/delta.rs: what `DeltaEncoder`, `DeltaOfDeltaEncoder` and their decoders
-- have in common. The Rust code writes these loops out once for each of the two pairs.
pub mod RoundTrip
use chono_db.Prelude.{ℕ, zero, suc, List, [], ◌∷◌, ◌++◌, drop, length, ◌≡◌}
use chono_db.Prelude.Int.{ℤ}
use chono_db.Prelude.Word.{IsI64}
use chono_db.Error.{Result, ok, err, stuck}
use chono_db.Compression.Varint.{encode_varint, decode_varint}

-- A pair of an encoder and a decoder, which keep the same fields.
-- `emit` is the part of `encode` before `encode_varint`: the number that is written and the new
-- state, or an error that leaves the state alone. `absorb` is the part of the loop of `decode`
-- behind `decode_varint`: the value that is read, and the new state.
pub record Coder : Type 1 where
  pub State : Type 0
  pub new : State
  pub emit : State → ℤ → Result (ℤ × State)
  pub absorb : State → ℤ → ℤ × State

-- From a valid state, absorbing what was emitted gives the value back, and the two states agree.
pub record IsExact (c : Coder) : Type 1 where
  pub Valid : c.State → Type 0
  pub exact :
      (s s' : c.State) (v d : ℤ)
      → Valid s
      → IsI64 v
      → c.emit s v ≡ ok (d, s')
      → IsI64 d × (c.absorb s d ≡ (v, s')) × Valid s'

module _ (c : Coder) where
  -- `encode(&mut self, value)`: the result and the state that it leaves.
  unfoldable pub encode : c.State → ℤ → Result (List ℕ) × c.State
  encode s value = elim (c.emit s value) [
    | ok (d, s') ↦ (ok (encode_varint d), s')
    | err e ↦ (err e, s)
    | stuck ↦ (stuck, s)
  ]

  unfoldable pub encode_batch_loop : List ℕ → c.State → List ℤ → Result (List ℕ) × c.State
  encode_batch_loop result s [] = (ok result, s)
  encode_batch_loop result s (value ∷ values) =
      let (r, s') = encode s value in
      elim r [
        | ok bytes ↦ encode_batch_loop (result ++ bytes) s' values
        | err e ↦ (err e, s')
        | stuck ↦ (stuck, s')
      ]

  unfoldable pub encode_batch : c.State → List ℤ → Result (List ℕ) × c.State
  unfolding encode encode_batch_loop
  encode_batch s values = encode_batch_loop [] s values

  -- `while pos < data.len()`; the list is `data[pos..]`.
  decode_loop : ℕ → List ℕ → c.State → List ℤ → Result (List ℤ) × c.State
  decode_loop fuel [] s values = (ok values, s)
  decode_loop zero (b ∷ bs) s values = (stuck, s)
  decode_loop (suc fuel) (b ∷ bs) s values = elim (decode_varint (b ∷ bs)) [
    | ok (d, bytes_read) ↦
        let (value, s') = c.absorb s d in
        decode_loop fuel (drop bytes_read (b ∷ bs)) s' (values ++ (value ∷ []))
    | err e ↦ (err e, s)
    | stuck ↦ (stuck, s)
  ]

  -- Each round reads a byte at least, so a round for each byte is enough.
  unfoldable pub decode : c.State → List ℕ → Result (List ℤ) × c.State
  unfolding decode_loop
  decode s bytes = decode_loop (length bytes) bytes s []
