-- ===== src/Compression/Tests.antt =====
-- Runs of the encodings at small inputs, and their theorems at concrete ones.
use chono_db.Prelude.Bytes.{to_le_bytes}
use chono_db.Prelude.{ltb, length, ◌<◌, ◌^◌, All, Bool, true, ◌&&◌}
use chono_db.Prelude.Assoc.{lookup, insert}
use chono_db.Compression.Dictionary.{
  Text, new, add, add_all, same_bytes, serialize, deserialize, encode as encode_words,
  decode as decode_words,
}
use chono_db.Compression.Dictionary.Coding.{decode-encode}
use chono_db.Compression.Dictionary.Storing.{IsStorable, deserialize-serialize}
use chono_db.Prelude.{
  ℕ, ◌≡◌, ◌≢◌, refl, arith, none, some, List, [], ◌∷◌, ◌++◌, length, get_elem?, ◌⊎◌,
}
use chono_db.Prelude.Int.{ℤ, pos, negsuc, ◌-ℤ◌}
use chono_db.Prelude.Word.{overflowing_sub}
use chono_db.Error.{ok, err, overflow}
use chono_db.Compression.ZigZag.{zigzag_encode}
use chono_db.Compression.Varint.{encode_varint, decode_varint}
use chono_db.Compression.Varint.RoundTrip.{decode_varint-encode_varint}
use chono_db.Compression.Stream.{encode_batch, decode}
use chono_db.Compression.Delta.{
  DeltaState, delta_coder, delta_of_delta_coder, delta_emit, delta_of_delta_emit,
  checked_difference, delta_text,
}
use chono_db.Compression.Delta.Exact.{delta_round_trip, delta_of_delta_round_trip}
use chono_db.Compression.Delta.Success.{StepsFit, difference_bytes, delta_encode_decides}
use chono_db.Compression.Simple8b.{encode_simple8b, decode_simple8b}
use chono_db.Compression.Simple8b.Loss.{simple8b_loses}

varint_minus_128 : encode_varint (negsuc 127) ≡ 0xff ∷ 1 ∷ []
unfolding encode_varint zigzag_encode
varint_minus_128 = refl

decode_varint-encode_varint_example :
    decode_varint (encode_varint (pos 1000) ++ 9 ∷ [])
    ≡ ok (pos 1000, length (encode_varint (pos 1000)))
decode_varint-encode_varint_example = decode_varint-encode_varint (pos 1000) (9 ∷ []) (omega arith)

abbrev rising : List ℤ
rising = pos 100 ∷ pos 105 ∷ pos 110 ∷ []

delta_rising :
    encode_batch delta_coder delta_coder.new rising
    ≡ (ok (0xc8 ∷ 1 ∷ 10 ∷ 10 ∷ []), record { last_value = some (pos 110) })
unfolding encode_batch encode_varint zigzag_encode delta_emit checked_difference overflowing_sub
    ◌-ℤ◌
delta_rising = refl

delta_round_trip_example :
    decode delta_coder delta_coder.new (0xc8 ∷ 1 ∷ 10 ∷ 10 ∷ [])
    ≡ (ok rising, record { last_value = some (pos 110) })
delta_round_trip_example = delta_round_trip rising _ _ (omega arith) delta_rising

delta_of_delta_rising : encode_batch delta_of_delta_coder delta_of_delta_coder.new rising ≡ (
  ok (0xc8 ∷ 1 ∷ 0xbd ∷ 1 ∷ 0 ∷ []),
  record { last_value = some (pos 110); last_delta = some (pos 5) },
)
unfolding encode_batch encode_varint zigzag_encode delta_of_delta_emit checked_difference
    overflowing_sub ◌-ℤ◌
delta_of_delta_rising = refl

delta_of_delta_round_trip_example :
    decode delta_of_delta_coder delta_of_delta_coder.new (0xc8 ∷ 1 ∷ 0xbd ∷ 1 ∷ 0 ∷ [])
    ≡ (ok rising, record { last_value = some (pos 110); last_delta = some (pos 5) })
delta_of_delta_round_trip_example =
    delta_of_delta_round_trip rising _ _ (omega arith) delta_of_delta_rising

abbrev extremes : List ℤ
extremes = pos 9223372036854775807 ∷ negsuc 9223372036854775807 ∷ []

delta_encode_decides_example :
    StepsFit none extremes
      × ((s : DeltaState) × (encode_batch delta_coder delta_coder.new extremes
            ≡ (ok (difference_bytes none extremes), s)))
    ⊎ (¬ StepsFit none extremes)
      × ((s : DeltaState) × (encode_batch delta_coder delta_coder.new extremes
            ≡ (err (overflow delta_text), s)))
delta_encode_decides_example = delta_encode_decides extremes (omega arith)

simple8b_loses_example :
    (w : ℕ) × (encode_simple8b (5 ∷ []) ≡ some (w ∷ []))
    × (get_elem? (decode_simple8b w) 0 ≢ some 5)
simple8b_loses_example = simple8b_loses 5 (omega arith)

-- "a", "b" and "a" again.
abbrev words : List Text
words = (97 ∷ []) ∷ (98 ∷ []) ∷ (97 ∷ []) ∷ []

words_encoded :
    encode_words (add_all new words) words ≡ ok (0 ∷ 0 ∷ 0 ∷ 0 ∷ 1 ∷ 0 ∷ 0 ∷ 0 ∷ 0 ∷ 0 ∷ 0 ∷ 0 ∷ [])
unfolding encode_words add_all add new lookup insert same_bytes to_le_bytes
words_encoded = refl

decode-encode_example :
    decode_words (add_all new words) (0 ∷ 0 ∷ 0 ∷ 0 ∷ 1 ∷ 0 ∷ 0 ∷ 0 ∷ 0 ∷ 0 ∷ 0 ∷ 0 ∷ []) ≡ ok words
decode-encode_example = decode-encode words words _ (omega arith) words_encoded

abbrev is_ascii : List ℕ → Bool
is_ascii [] = true
is_ascii (b ∷ bs) = ltb b 128 && is_ascii bs

words_few : length (add_all new words).strings < 2 ^ 32
unfolding add_all add new lookup insert same_bytes
words_few = omega arith

words-IsStorable : All (IsStorable is_ascii) (add_all new words).strings
unfolding add_all add new lookup insert same_bytes
words-IsStorable = ((omega arith, refl), ((omega arith, refl), tt))

deserialize-serialize_example :
    deserialize is_ascii (serialize (add_all new words)) ≡ ok (add_all new words)
deserialize-serialize_example = deserialize-serialize is_ascii words words_few words-IsStorable
