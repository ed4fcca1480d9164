-- ===== src/Compression/Delta/Exact.antt =====
-- Both coders are exact: no value is lost between the encoder and the decoder.
use chono_db.Prelude.{
  ℕ, List, All, ◌≡◌, refl, Option, none, some, false, Bool-cases, inl, inr, subst, String,
}
use chono_db.Prelude.Int.{ℤ, ◌-ℤ◌}
use chono_db.Prelude.Word.{
  IsI64, is_i64, is_i64_iff, overflowing_sub, overflowing_sub_fits, wrapping_add-sub,
}
use chono_db.Error.{ok, err, overflow, >>=-eq-ok}
use chono_db.Compression.Stream.{IsExact, encode_batch, decode}
use chono_db.Compression.Stream.RoundTrip.{decode-encode_batch}
use chono_db.Compression.Delta.{
  DeltaState, DeltaOfDeltaState, delta_text, delta_of_delta_text, checked_difference, add_to,
  delta_emit, delta_absorb, delta_coder, delta_of_delta_emit, delta_of_delta_absorb,
  delta_of_delta_coder,
}

abbrev pub IsStored : Option ℤ → Type 0
IsStored none = Unit {0}
IsStored (some v) = IsI64 v

-- The difference fits: from `none` every value does.
abbrev pub Fits : ℤ → Option ℤ → Type 0
Fits value none = Unit {0}
Fits value (some last) = IsI64 (value -ℤ last)

abbrev pub difference : ℤ → Option ℤ → ℤ
difference value none = value
difference value (some last) = value -ℤ last

-- `checked_difference` succeeds exactly where the true difference is an `i64`, and returns it.
pub checked_difference-Fits :
    (text : String) (value : ℤ) (last : Option ℤ)
    → IsI64 value
    → IsStored last
    → Fits value last
    → checked_difference text value last ≡ ok (difference value last)
unfolding checked_difference
checked_difference-Fits text value none hv hl f = refl
checked_difference-Fits text value (some last) hv hl f =
    rw (overflowing_sub_fits value last hv hl f)

pub checked_difference_overflows :
    (text : String) (value last : ℤ)
    → is_i64 (value -ℤ last) ≡ false
    → checked_difference text value (some last) ≡ err (overflow text)
unfolding checked_difference overflowing_sub
checked_difference_overflows text value last e = rw e

pub checked_difference_ok :
    (text : String) (value d : ℤ) (last : Option ℤ)
    → IsI64 value
    → IsStored last
    → checked_difference text value last ≡ ok d
    → IsI64 d × (add_to last d ≡ value) × Fits value last
checked_difference_ok text value d none hv hl e =
    subst (λ x. IsI64 x × (add_to none x ≡ value) × Unit {0}) same (hv, unfold add_to in refl, tt)
  where
    same : value ≡ d
    same = unfold checked_difference in cc
checked_difference_ok text value d (some last) hv hl e =
    elim (Bool-cases (is_i64 (value -ℤ last))) [
      | inl fits ↦
          let f : Fits value (some last) = (is_i64_iff (value -ℤ last)).0 fits in
          let same : value -ℤ last ≡ d =
            cc (checked_difference-Fits text value (some last) hv hl f) in
          subst (λ x. IsI64 x × (add_to (some last) x ≡ value) × IsI64 (value -ℤ last)) same
            (f, unfold add_to in wrapping_add-sub value last hv hl f, f)
      | inr over ↦ cc (checked_difference_overflows text value last over)
    ]

-- What one step of each coder does, from what it emitted.
delta_step :
    (s s' : DeltaState) (v d : ℤ)
    → IsStored s.last_value
    → IsI64 v
    → delta_emit s v ≡ ok (d, s')
    → IsI64 d × (delta_absorb s d ≡ (v, s')) × IsStored s'.last_value
unfolding delta_emit delta_absorb
delta_step s s' v d valid hv e =
    let (delta, checked, rest) = >>=-eq-ok (checked_difference delta_text v s.last_value) _ e in
    let (hd, back, _) = checked_difference_ok delta_text v delta s.last_value hv valid checked in
    let same : delta ≡ d = cc in
    let state : record { last_value = some v } ≡ s' = cc in
    (subst IsI64 same hd, rw (← same, back) (rw state), rw (← state) hv)

delta_of_delta_step :
    (s s' : DeltaOfDeltaState) (v d : ℤ)
    → IsStored s.last_value × IsStored s.last_delta
    → IsI64 v
    → delta_of_delta_emit s v ≡ ok (d, s')
    → IsI64 d
      × (delta_of_delta_absorb s d ≡ (v, s'))
      × (IsStored s'.last_value × IsStored s'.last_delta)
unfolding delta_of_delta_emit delta_of_delta_absorb
delta_of_delta_step s s' v d (valid, valid') hv e =
    let (delta, checked, rest) = >>=-eq-ok (checked_difference delta_text v s.last_value) _ e in
    let (hd, back, _) = checked_difference_ok delta_text v delta s.last_value hv valid checked in
    let (dod, checked', rest') =
      >>=-eq-ok (checked_difference delta_of_delta_text delta s.last_delta) _ rest in
    let (hdod, back', _) =
      checked_difference_ok delta_of_delta_text delta dod s.last_delta hd valid' checked' in
    let same : dod ≡ d = cc in
    let state : record { last_value = some v; last_delta = some delta } ≡ s' = cc in
    (
      subst IsI64 same hdod,
      rw (← same, back') (rw back (rw state)),
      (rw (← state) hv, rw (← state) hd),
    )

pub delta-IsExact : IsExact delta_coder
delta-IsExact = record { Valid = λ s. IsStored s.last_value; exact = delta_step }

pub delta_of_delta-IsExact : IsExact delta_of_delta_coder
delta_of_delta-IsExact = record {
  Valid = λ s. IsStored s.last_value × IsStored s.last_delta;
  exact = delta_of_delta_step;
}

-- The round trip from any state that the two have in common, which may remember earlier numbers.
pub delta-decode-encode :
    (values : List ℤ) (bytes : List ℕ) (s s' : DeltaState)
    → IsStored s.last_value
    → All IsI64 values
    → encode_batch delta_coder s values ≡ (ok bytes, s')
    → decode delta_coder s bytes ≡ (ok values, s')
unfolding delta-IsExact
delta-decode-encode values bytes s s' stored h e =
    decode-encode_batch delta_coder delta-IsExact bytes s s' values stored h e

pub delta_of_delta-decode-encode :
    (values : List ℤ) (bytes : List ℕ) (s s' : DeltaOfDeltaState)
    → IsStored s.last_value × IsStored s.last_delta
    → All IsI64 values
    → encode_batch delta_of_delta_coder s values ≡ (ok bytes, s')
    → decode delta_of_delta_coder s bytes ≡ (ok values, s')
unfolding delta_of_delta-IsExact
delta_of_delta-decode-encode values bytes s s' stored h e =
    decode-encode_batch delta_of_delta_coder delta_of_delta-IsExact bytes s s' values stored h e

-- `DeltaDecoder` reads back every batch of `i64`s that a fresh `DeltaEncoder` encoded, and the two
-- end with the same last value.
pub delta_round_trip :
    (values : List ℤ) (bytes : List ℕ) (s : DeltaState)
    → All IsI64 values
    → encode_batch delta_coder delta_coder.new values ≡ (ok bytes, s)
    → decode delta_coder delta_coder.new bytes ≡ (ok values, s)
delta_round_trip values bytes s h e = delta-decode-encode values bytes delta_coder.new s tt h e

-- `DeltaOfDeltaDecoder` reads back every batch of `i64`s that a fresh `DeltaOfDeltaEncoder` encoded,
-- and the two end with the same last value and delta.
pub delta_of_delta_round_trip :
    (values : List ℤ) (bytes : List ℕ) (s : DeltaOfDeltaState)
    → All IsI64 values
    → encode_batch delta_of_delta_coder delta_of_delta_coder.new values ≡ (ok bytes, s)
    → decode delta_of_delta_coder delta_of_delta_coder.new bytes ≡ (ok values, s)
delta_of_delta_round_trip values bytes s h e =
    delta_of_delta-decode-encode values bytes delta_of_delta_coder.new s (tt, tt) h e
