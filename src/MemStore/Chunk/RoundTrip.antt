-- ===== src/MemStore/Chunk/RoundTrip.antt =====
-- `ChunkDecoder` rebuilds the chunk that `ChunkEncoder` encoded.
use chono_db.Prelude.{
  ◌≡◌, ℕ, refl, sym, ap, ◌∙◌, List, [], ◌∷◌, map, length, All, map-zip_first, map-zip_second, arith,
  ==_iff,
}
use chono_db.Prelude.Word.{IsI64, IsU64, as_i64, as_u64}
use chono_db.Prelude.Sort.{sort_by_sorted}
use chono_db.Model.{F64}
use chono_db.Error.{Result, ok, err, stuck}
use chono_db.Compression.Delta.{DeltaState, DeltaOfDeltaState}
use chono_db.Compression.Delta.Exact.{delta-decode-encode, delta_of_delta-decode-encode, IsStored}
use chono_db.MemStore.Chunk.{
  Chunk, new, new_coder, add_all, as_sample, ChunkEncoder, EncodedChunk, encode_chunk, decode_chunk,
  rebuild, join_columns, join_decoded, len, greatest, least,
}
use chono_db.MemStore.Chunk.Order.{Pair, time, pairs, IsChunk, new-IsChunk, lowest, highest}
use chono_db.MemStore.Chunk.Query.{as_pair, add_all-pairs, add_all-new}

-- A chunk is what its pairs make it.
of_pairs : List Pair → Chunk
of_pairs ps = record {
  timestamps = map (λ p. p.0) ps;
  values = map (λ p. p.1) ps;
  min_timestamp = lowest greatest ps;
  max_timestamp = highest least ps;
}

of_pairs-pairs : (c : Chunk) → IsChunk c → of_pairs (pairs c) ≡ c
unfolding of_pairs
of_pairs-pairs c h =
    rw
      (
        map-zip_first c.timestamps c.values h.paired,
        map-zip_second c.timestamps c.values h.paired,
        ← h.lower,
        ← h.upper,
      )
      refl

map-as_pair : (ps : List Pair) → map as_pair (map as_sample ps) ≡ ps
unfolding as_sample
map-as_pair [] = refl
map-as_pair (p ∷ ps) = ap (λ rest. p ∷ rest) (map-as_pair ps)

-- Adding the samples of a chunk in their order makes the chunk.
add_all-samples : (c : Chunk) → IsChunk c → add_all new (map as_sample (pairs c)) ≡ c
add_all-samples c h =
    let made = add_all new (map as_sample (pairs c)) in
    let same : pairs made ≡ pairs c =
      rw (add_all-new (map as_sample (pairs c)), map-as_pair (pairs c))
        (sort_by_sorted time (pairs c) h.sorted) in
    sym (of_pairs-pairs made ((add_all-pairs new (map as_sample (pairs c)) new-IsChunk).0))
    ∙ ap of_pairs same
    ∙ of_pairs-pairs c h

as_u64-as_i64 : (w : F64) → IsU64 w → as_u64 (as_i64 w) ≡ w
as_u64-as_i64 w h = ground arith

map-as_u64 : (ws : List F64) → All IsU64 ws → map as_u64 (map as_i64 ws) ≡ ws
map-as_u64 [] h = refl
map-as_u64 (w ∷ ws) (first, h) = rw (as_u64-as_i64 w first, map-as_u64 ws h) refl

as_i64-IsI64 : (w : F64) → IsU64 w → IsI64 (as_i64 w)
as_i64-IsI64 w h = ground arith

map-IsI64 : (ws : List F64) → All IsU64 ws → All IsI64 (map as_i64 ws)
map-IsI64 [] h = tt
map-IsI64 (w ∷ ws) (first, h) = (as_i64-IsI64 w first, map-IsI64 ws h)

rebuild-columns :
    (c : Chunk) → IsChunk c → All IsU64 c.values → rebuild c.timestamps (map as_i64 c.values) ≡ ok c
unfolding rebuild
rebuild-columns c h words =
    let even = (==_iff (length c.timestamps) (length c.values)).1 h.paired in
    rw (map-as_u64 c.values words, even) (ap ok (add_all-samples c h))

-- What the encoder and the decoder remember of the numbers before is an `i64`.
pub IsReady : ChunkEncoder → Type 0
IsReady e =
    (IsStored e.time_encoder.last_value × IsStored e.time_encoder.last_delta)
    × IsStored e.value_encoder.last_value

pub new_coder-IsReady : IsReady new_coder
unfolding IsReady new_coder
new_coder-IsReady = ((tt, tt), tt)

join_columns_parts :
    (c : Chunk) (e e' : ChunkEncoder) (encoded : EncodedChunk)
    → (times : Result (List ℕ) × DeltaOfDeltaState) (bits : Result (List ℕ) × DeltaState)
    → join_columns c e times bits ≡ (ok encoded, e')
    → (times ≡ (ok encoded.time_data, e'.time_encoder))
      × (bits ≡ (ok encoded.value_data, e'.value_encoder))
unfolding join_columns
join_columns_parts c e e' encoded (ok ts, te) (ok vs, ve) h =
    let made : record {
      time_data = ts;
      value_data = vs;
      min_timestamp = c.min_timestamp;
      max_timestamp = c.max_timestamp;
      count = len c;
    }
        ≡ encoded =
      cc in
    let left : record { time_encoder = te; value_encoder = ve } ≡ e' = cc in
    (rw (← made, ← left) refl, rw (← made, ← left) refl)
join_columns_parts c e e' encoded (ok ts, te) (err x, ve) h = cc
join_columns_parts c e e' encoded (ok ts, te) (stuck, ve) h = cc
join_columns_parts c e e' encoded (err x, te) bits h = cc
join_columns_parts c e e' encoded (stuck, te) bits h = cc

-- A decoder in the state that the encoder was in rebuilds every well-formed chunk of 64-bit
-- timestamps and values from what the encoder made of it, and ends in the encoder's new state.
pub decode_chunk-encode_chunk :
    (c : Chunk) (e e' : ChunkEncoder) (encoded : EncodedChunk)
    → IsChunk c
    → All IsI64 c.timestamps
    → All IsU64 c.values
    → IsReady e
    → encode_chunk e c ≡ (ok encoded, e')
    → decode_chunk e encoded ≡ (ok c, e')
unfolding encode_chunk decode_chunk IsReady
decode_chunk-encode_chunk c e e' encoded h times words ready h' =
    let (t, v) = join_columns_parts c e e' encoded _ _ h' in
    let t' =
      delta_of_delta-decode-encode c.timestamps encoded.time_data e.time_encoder e'.time_encoder
        ready.0 times t in
    let v' =
      delta-decode-encode (map as_i64 c.values) encoded.value_data e.value_encoder e'.value_encoder
        ready.1 (map-IsI64 c.values words) v in
    rw (t', v') (unfold join_decoded in ap (λ r. (r, e')) (rebuild-columns c h words))
