-- ===== src/Compression/Delta.antt =====
-- storage/src/compression/delta.rs: `DeltaEncoder` and `DeltaOfDeltaEncoder` with their decoders.
-- An encoder and its decoder keep the same fields, so one record stands for both.
pub mod Exact
pub mod Success
use chono_db.Prelude.{◌≡◌, Option, none, some, Bool, true, false, if◌then◌else◌, String}
use chono_db.Prelude.Int.{ℤ}
use chono_db.Prelude.Word.{overflowing_sub, wrapping_add}
use chono_db.Error.{Result, ok, err, overflow, ◌>>=◌}
use chono_db.Compression.Stream.{Coder}

pub record DeltaState : Type 0 where
  pub last_value : Option ℤ

pub record DeltaOfDeltaState : Type 0 where
  pub last_value : Option ℤ
  pub last_delta : Option ℤ

-- `match last { Some(last) => checked difference, None => value }`, with the error's text.
unfoldable pub checked_difference : String → ℤ → Option ℤ → Result ℤ
checked_difference text value none = ok value
checked_difference text value (some last) =
    let (result, overflowed) = overflowing_sub value last in
    if overflowed then err (overflow text) else ok result

-- `match last { Some(last) => last + step, None => step }`
unfoldable pub add_to : Option ℤ → ℤ → ℤ
add_to none step = step
add_to (some last) step = wrapping_add last step

abbrev pub delta_text : String
delta_text = "Delta encoding overflow"

abbrev pub delta_of_delta_text : String
delta_of_delta_text = "Delta of delta encoding overflow"

unfoldable pub delta_emit : DeltaState → ℤ → Result (ℤ × DeltaState)
delta_emit s value = do
  delta ← checked_difference delta_text value s.last_value
  ok (delta, record { last_value = some value })

unfoldable pub delta_absorb : DeltaState → ℤ → ℤ × DeltaState
delta_absorb s delta =
    let value = add_to s.last_value delta in (value, record { last_value = some value })

abbrev pub delta_coder : Coder
delta_coder = record {
  State = DeltaState;
  new = record { last_value = none };
  emit = delta_emit;
  absorb = delta_absorb;
}

unfoldable pub delta_of_delta_emit : DeltaOfDeltaState → ℤ → Result (ℤ × DeltaOfDeltaState)
delta_of_delta_emit s value = do
  delta ← checked_difference delta_text value s.last_value
  dod ← checked_difference delta_of_delta_text delta s.last_delta
  ok (dod, record { last_value = some value; last_delta = some delta })

unfoldable pub delta_of_delta_absorb : DeltaOfDeltaState → ℤ → ℤ × DeltaOfDeltaState
delta_of_delta_absorb s dod =
    let delta = add_to s.last_delta dod in
    let value = add_to s.last_value delta in
    (value, record { last_value = some value; last_delta = some delta })

abbrev pub delta_of_delta_coder : Coder
delta_of_delta_coder = record {
  State = DeltaOfDeltaState;
  new = record { last_value = none; last_delta = none };
  emit = delta_of_delta_emit;
  absorb = delta_of_delta_absorb;
}
