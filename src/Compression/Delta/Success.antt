-- ===== src/Compression/Delta/Success.antt =====
-- When the encoders succeed: exactly while the differences stay in the range of `i64`.
use chono_db.Prelude.{
  ℕ, subst, append-nil, ◌≡◌, refl, ◌∙◌, Option, none, some, List, [], ◌∷◌, ◌++◌, All, inl, inr,
  false, append_assoc, Bool-cases, ◌⊎◌,
}
use chono_db.Prelude.Int.{ℤ, ◌-ℤ◌}
use chono_db.Prelude.Word.{IsI64, is_i64, is_i64_iff}
use chono_db.Error.{ok, err, overflow}
use chono_db.Compression.Stream.{encode_batch, encode_batch_loop}
use chono_db.Compression.Stream.RoundTrip.{batch_ok, batch_err}
use chono_db.Compression.Varint.{encode_varint}
use chono_db.Compression.Delta.{DeltaState, delta_text, delta_emit, delta_coder}
use chono_db.Compression.Delta.Exact.{
  IsStored, Fits, difference, checked_difference-Fits, checked_difference_overflows,
}

-- Every step from one value to the next is an `i64`.
abbrev pub StepsFit : Option ℤ → List ℤ → Type 0
StepsFit last [] = Unit {0}
StepsFit last (v ∷ vs) = Fits v last × StepsFit (some v) vs

-- What `DeltaEncoder` writes: the varints of the first value and of the differences.
abbrev pub difference_bytes : Option ℤ → List ℤ → List ℕ
difference_bytes last [] = []
difference_bytes last (v ∷ vs) = encode_varint (difference v last) ++ difference_bytes (some v) vs

emit-Fits :
    (s : DeltaState) (v : ℤ)
    → IsI64 v
    → IsStored s.last_value
    → Fits v s.last_value
    → delta_emit s v ≡ ok (difference v s.last_value, record { last_value = some v })
unfolding delta_emit
emit-Fits s v hv hs f = rw (checked_difference-Fits delta_text v s.last_value hv hs f)

-- One round of the batch loop, where the step fits and where it does not.
loop-Fits :
    (result : List ℕ) (s : DeltaState) (v : ℤ) (vs : List ℤ)
    → IsI64 v
    → IsStored s.last_value
    → Fits v s.last_value
    → encode_batch_loop delta_coder result s (v ∷ vs)
      ≡ encode_batch_loop delta_coder
          (result ++ encode_varint (difference v s.last_value))
          (record { last_value = some v })
          vs
loop-Fits result s v vs hv hs f = batch_ok delta_coder result s _ v _ vs (emit-Fits s v hv hs f)

emit_overflows :
    (s : DeltaState) (v last : ℤ)
    → s.last_value ≡ some last
    → is_i64 (v -ℤ last) ≡ false
    → delta_emit s v ≡ err (overflow delta_text)
unfolding delta_emit
emit_overflows s v last e over = rw (e, checked_difference_overflows delta_text v last over)

-- The loop's outcome, and the condition that decides it.
Outcome : List ℕ → DeltaState → List ℤ → Type 0
Outcome result s vs =
    StepsFit s.last_value vs
      × ((s' : DeltaState) × (encode_batch_loop delta_coder result s vs
            ≡ (ok (result ++ difference_bytes s.last_value vs), s')))
    ⊎ (¬ StepsFit s.last_value vs)
      × ((s' : DeltaState) × (encode_batch_loop delta_coder result s vs
            ≡ (err (overflow delta_text), s')))

next_round :
    (result : List ℕ) (s : DeltaState) (v : ℤ) (vs : List ℤ)
    → IsI64 v
    → IsStored s.last_value
    → Fits v s.last_value
    → Outcome
        (result ++ encode_varint (difference v s.last_value))
        (record { last_value = some v })
        vs
    → Outcome result s (v ∷ vs)
unfolding Outcome
next_round result s v vs hv hs f (inl (rest, (s', e))) =
    inl ((f, rest), (s', loop-Fits result s v vs hv hs f ∙ e ∙ rw append_assoc))
next_round result s v vs hv hs f (inr (no_rest, (s', e))) =
    inr ((λ h. no_rest h.1), (s', loop-Fits result s v vs hv hs f ∙ e))

Fits-cases :
    (v : ℤ) (last : Option ℤ)
    → Fits v last ⊎ ((l : ℤ) × (last ≡ some l) × (is_i64 (v -ℤ l) ≡ false))
Fits-cases v none = inl tt
Fits-cases v (some l) = elim (Bool-cases (is_i64 (v -ℤ l))) [
  | inl fits ↦ inl ((is_i64_iff (v -ℤ l)).0 fits)
  | inr over ↦ inr (l, refl, over)
]

first_overflows :
    (result : List ℕ) (s : DeltaState) (v : ℤ) (vs : List ℤ) (l : ℤ)
    → s.last_value ≡ some l
    → is_i64 (v -ℤ l) ≡ false
    → Outcome result s (v ∷ vs)
unfolding Outcome
first_overflows result s v vs l e over = inr (
  (λ h. not_fits (subst (Fits v) e h.0)),
  (s, batch_err delta_coder result s v vs _ (emit_overflows s v l e over)),
)
  where
    not_fits : ¬ IsI64 (v -ℤ l)
    not_fits h = cc ((is_i64_iff (v -ℤ l)).1 h)

encode_batch_loop-Outcome :
    (result : List ℕ) (s : DeltaState) (vs : List ℤ)
    → IsStored s.last_value
    → All IsI64 vs
    → Outcome result s vs
encode_batch_loop-Outcome result s [] hs h =
    unfold Outcome encode_batch_loop in inl (tt, (s, rw append-nil))
encode_batch_loop-Outcome result s (v ∷ vs) hs h = elim (Fits-cases v s.last_value) [
  | inl f ↦ next_round result s v vs h.0 hs f (
      encode_batch_loop-Outcome (result ++ encode_varint (difference v s.last_value))
        (record { last_value = some v }) vs h.0 h.1)
  | inr (l, e, over) ↦ first_overflows result s v vs l e over
]

-- A fresh `DeltaEncoder` succeeds on a batch of `i64`s exactly when each value less the one before
-- is an `i64`, and then writes the varints of the first value and of these differences; otherwise
-- it fails with the overflow error.
pub delta_encode_decides :
    (values : List ℤ)
    → All IsI64 values
    → StepsFit none values
        × ((s : DeltaState) × (encode_batch delta_coder delta_coder.new values
              ≡ (ok (difference_bytes none values), s)))
      ⊎ (¬ StepsFit none values)
        × ((s : DeltaState) × (encode_batch delta_coder delta_coder.new values
              ≡ (err (overflow delta_text), s)))
unfolding encode_batch Outcome
delta_encode_decides values h = encode_batch_loop-Outcome [] delta_coder.new values tt h
