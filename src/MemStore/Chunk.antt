-- ===== src/MemStore/Chunk.antt =====
-- storage/src/memstore/chunk.rs: `Chunk`, `ChunkEncoder` and `ChunkDecoder`.
pub mod Order
pub mod Query
pub mod RoundTrip
use chono_db.Prelude.{
  ℕ, ◌-◌, ◌^◌, ◌==◌, List, [], ◌∷◌, ◌++◌, map, length, zip, filter, Bool, leb, if◌then◌else◌,
  Option, none, some, ◌&&◌, not,
}
use chono_db.Prelude.Int.{ℤ, pos, negsuc, ltb_ℤ}
use chono_db.Prelude.Sort.{sort_by}
use chono_db.Prelude.Word.{as_i64, as_u64}
use chono_db.Model.{Timestamp, F64, Sample, in_range}
use chono_db.Error.{Result, ok, err, stuck, invalid_data, ◌>>=◌, ◌>>◌, ensure}
use chono_db.Compression.Stream.{encode_batch, decode}
use chono_db.Compression.Delta.{DeltaState, DeltaOfDeltaState, delta_coder, delta_of_delta_coder}

-- i64::MAX and i64::MIN
abbrev pub greatest : Timestamp
greatest = pos (2 ^ 63 - 1)

abbrev pub least : Timestamp
least = negsuc (2 ^ 63 - 1)

abbrev pub default_chunk_capacity : ℕ
default_chunk_capacity = 120

pub record Chunk : Type 0 where
  pub timestamps : List Timestamp
  pub values : List F64
  pub min_timestamp : Timestamp
  pub max_timestamp : Timestamp

-- `new` and `with_capacity`: a capacity reserves memory and is not part of the state.
unfoldable pub new : Chunk
new = record { timestamps = []; values = []; min_timestamp = greatest; max_timestamp = least }

abbrev pub min_ℤ : ℤ → ℤ → ℤ
min_ℤ a b = if ltb_ℤ b a then b else a

abbrev pub max_ℤ : ℤ → ℤ → ℤ
max_ℤ a b = if ltb_ℤ b a then a else b

unfoldable pub is_empty : Chunk → Bool
is_empty c = length c.timestamps == 0

unfoldable pub len : Chunk → ℕ
len c = length c.timestamps

unfoldable pub is_full : Chunk → Bool
is_full c = leb default_chunk_capacity (length c.timestamps)

-- The index that `enumerate` adds is not used by the sort and dropped behind it.
unfoldable pub sort_by_timestamp : Chunk → Chunk
sort_by_timestamp c =
    let indexed = sort_by (λ (p : Timestamp × F64). p.0) (zip c.timestamps c.values) in
    record c { timestamps = map (λ p. p.0) indexed; values = map (λ p. p.1) indexed }

unfoldable pub push : Chunk → Sample → Chunk
push c sample = record c {
  timestamps = c.timestamps ++ (sample.timestamp ∷ []);
  values = c.values ++ (sample.value ∷ []);
}

-- `add` returns no error.
unfoldable pub add : Chunk → Sample → Chunk
add c sample =
    let pushed =
      if not (is_empty c) && not (ltb_ℤ c.max_timestamp sample.timestamp)
      then sort_by_timestamp (push c sample)
      else push c sample in
    record pushed {
      min_timestamp = min_ℤ pushed.min_timestamp sample.timestamp;
      max_timestamp = max_ℤ pushed.max_timestamp sample.timestamp;
    }

unfoldable pub as_sample : Timestamp × F64 → Sample
as_sample (t, v) = record { timestamp = t; value = v }

unfoldable pub samples : Chunk → List Sample
samples c = map as_sample (zip c.timestamps c.values)

unfoldable pub samples_in_range : Chunk → Timestamp → Timestamp → List Sample
samples_in_range c start stop =
    map as_sample (filter (λ p. in_range start stop p.0) (zip c.timestamps c.values))

unfoldable pub min_timestamp : Chunk → Option Timestamp
min_timestamp c = if is_empty c then none else some c.min_timestamp

unfoldable pub max_timestamp : Chunk → Option Timestamp
max_timestamp c = if is_empty c then none else some c.max_timestamp

pub record ChunkEncoder : Type 0 where
  pub time_encoder : DeltaOfDeltaState
  pub value_encoder : DeltaState

pub record EncodedChunk : Type 0 where
  pub time_data : List ℕ
  pub value_data : List ℕ
  pub min_timestamp : Timestamp
  pub max_timestamp : Timestamp
  pub count : ℕ

-- `new` of the encoder and of the decoder, which keep the same fields.
unfoldable pub new_coder : ChunkEncoder
new_coder = record { time_encoder = delta_of_delta_coder.new; value_encoder = delta_coder.new }

-- The results of the two columns: an error in the first ends the call before the second.
unfoldable pub join_columns :
    Chunk
    → ChunkEncoder
    → Result (List ℕ) × DeltaOfDeltaState
    → Result (List ℕ) × DeltaState
    → Result EncodedChunk × ChunkEncoder
join_columns c e (ok time_data, times) (ok value_data, values) = (
  ok (record {
    time_data = time_data;
    value_data = value_data;
    min_timestamp = c.min_timestamp;
    max_timestamp = c.max_timestamp;
    count = len c;
  }),
  record { time_encoder = times; value_encoder = values },
)
join_columns c e (ok time_data, times) (err x, values) =
    (err x, record { time_encoder = times; value_encoder = values })
join_columns c e (ok time_data, times) (stuck, values) =
    (stuck, record { time_encoder = times; value_encoder = values })
join_columns c e (err x, times) bits = (err x, record e { time_encoder = times })
join_columns c e (stuck, times) bits = (stuck, record e { time_encoder = times })

-- The timestamps are encoded one by one, in the loop that `encode_batch` is.
unfoldable pub encode_chunk : ChunkEncoder → Chunk → Result EncodedChunk × ChunkEncoder
encode_chunk e c =
    join_columns c e (encode_batch delta_of_delta_coder e.time_encoder c.timestamps)
      (encode_batch delta_coder e.value_encoder (map as_i64 c.values))

unfoldable pub add_all : Chunk → List Sample → Chunk
add_all c [] = c
add_all c (s ∷ ss) = add_all (add c s) ss

-- What the decoder makes of the two columns.
unfoldable pub rebuild : List Timestamp → List ℤ → Result Chunk
rebuild timestamps values_bits =
    let values = map as_u64 values_bits in
    do
      ensure (length timestamps == length values)
          (invalid_data "Timestamp and value count mismatch")
      ok (add_all new (map as_sample (zip timestamps values)))

unfoldable pub join_decoded :
    ChunkEncoder
    → Result (List Timestamp) × DeltaOfDeltaState
    → Result (List ℤ) × DeltaState
    → Result Chunk × ChunkEncoder
join_decoded d (ok timestamps, times) (ok values_bits, values) =
    (rebuild timestamps values_bits, record { time_encoder = times; value_encoder = values })
join_decoded d (ok timestamps, times) (err x, values) =
    (err x, record { time_encoder = times; value_encoder = values })
join_decoded d (ok timestamps, times) (stuck, values) =
    (stuck, record { time_encoder = times; value_encoder = values })
join_decoded d (err x, times) bits = (err x, record d { time_encoder = times })
join_decoded d (stuck, times) bits = (stuck, record d { time_encoder = times })

unfoldable pub decode_chunk : ChunkEncoder → EncodedChunk → Result Chunk × ChunkEncoder
decode_chunk d encoded =
    join_decoded d (decode delta_of_delta_coder d.time_encoder encoded.time_data)
      (decode delta_coder d.value_encoder encoded.value_data)
