-- ===== src/Compression/Stream/RoundTrip.antt =====
-- What a batch encoder writes, the decoder of the same pair reads back.
use chono_db.Prelude.{
  ℕ, zero, suc, ◌≤◌, ◌<◌, ◌≡◌, refl, sym, ◌∙◌, arith, List, [], ◌∷◌, ◌++◌, append-nil, append_assoc,
  drop, drop-append_length, length, length-append, All, ◌⊎◌, inl, inr,
}
use chono_db.Prelude.Int.{ℤ}
use chono_db.Prelude.Word.{IsI64}
use chono_db.Error.{Result, Error, ok, err, stuck}
use chono_db.Compression.Varint.{encode_varint, decode_varint}
use chono_db.Compression.Varint.RoundTrip.{decode_varint-encode_varint, length-encode_varint}
use chono_db.Compression.Stream.{
  Coder, IsExact, encode, encode_batch_loop, encode_batch, decode_loop, decode,
}

pub Result-cases {ℓ} :
    {A : Type ℓ} (r : Result A)
    → ((a : A) × (r ≡ ok a)) ⊎ (((e : Error) × (r ≡ err e)) ⊎ (r ≡ stuck))
Result-cases (ok a) = inl (a, refl)
Result-cases (err e) = inr (inl (e, refl))
Result-cases stuck = inr (inr refl)

module _ (c : Coder) where
  -- The rounds of the encoder's loop.
  pub batch_ok :
      (result : List ℕ) (s s' : c.State) (v d : ℤ) (vs : List ℤ)
      → c.emit s v ≡ ok (d, s')
      → encode_batch_loop c result s (v ∷ vs)
        ≡ encode_batch_loop c (result ++ encode_varint d) s' vs
  unfolding encode_batch_loop encode
  batch_ok result s s' v d vs e = rw (e, encode_batch_loop) (rw (e, encode))

  pub batch_err :
      (result : List ℕ) (s : c.State) (v : ℤ) (vs : List ℤ) (x : Error)
      → c.emit s v ≡ err x
      → encode_batch_loop c result s (v ∷ vs) ≡ (err x, s)
  unfolding encode_batch_loop encode
  batch_err result s v vs x e = rw (e, encode_batch_loop) (rw (e, encode))

  pub batch_stuck :
      (result : List ℕ) (s : c.State) (v : ℤ) (vs : List ℤ)
      → c.emit s v ≡ stuck
      → encode_batch_loop c result s (v ∷ vs) ≡ (stuck, s)
  unfolding encode_batch_loop encode
  batch_stuck result s v vs e = rw (e, encode_batch_loop) (rw (e, encode))

module _ (c : Coder) (law : IsExact c) where
  decode_step :
      (f : ℕ) (l : List ℕ) (s s' : c.State) (acc : List ℤ) (d v : ℤ) (n : ℕ)
      → 0 < length l
      → decode_varint l ≡ ok (d, n)
      → c.absorb s d ≡ (v, s')
      → decode_loop c (suc f) l s acc ≡ decode_loop c f (drop n l) s' (acc ++ (v ∷ []))
  unfolding decode_loop
  decode_step f [] s s' acc d v n h e a = absurd (omega arith)
  decode_step f (b ∷ bs) s s' acc d v n h e a = rw (e, decode_loop) (rw a)

  -- One value, as `encode` wrote it, in front of anything.
  decode_one :
      (f : ℕ) (rest : List ℕ) (s s' : c.State) (acc : List ℤ) (d v : ℤ)
      → law.Valid s
      → IsI64 v
      → c.emit s v ≡ ok (d, s')
      → decode_loop c (suc f) (encode_varint d ++ rest) s acc
        ≡ decode_loop c f rest s' (acc ++ (v ∷ []))
  decode_one f rest s s' acc d v valid hv e =
      let (hd, back, _) = law.exact s s' v d valid hv e in
      decode_step f _ s s' acc d v _
        (omega (arith, length-append (encode_varint d) rest, length-encode_varint d hd))
        (decode_varint-encode_varint d rest hd) back
      ∙ rw (drop-append_length (encode_varint d) rest)

  -- The bytes that the loop adds to `result` decode to the values, at the same state.
  record Written (result bytes : List ℕ) (s s' : c.State) (values : List ℤ) : Type 0 where
    tail : List ℕ
    added : bytes ≡ result ++ tail
    read :
        (fuel : ℕ) (acc : List ℤ)
        → length tail ≤ fuel
        → decode_loop c fuel tail s acc ≡ (ok (acc ++ values), s')

  Written-nil :
      (result bytes : List ℕ) (s s' : c.State)
      → encode_batch_loop c result s [] ≡ (ok bytes, s')
      → Written result bytes s s' []
  unfolding encode_batch_loop decode_loop
  Written-nil result bytes s s' e = record {
    tail = [];
    added = rw append-nil (cc);
    read = λ fuel acc p. rw append-nil (cc);
  }

  Written-cons :
      (result bytes : List ℕ) (s s1 s' : c.State) (v d : ℤ) (vs : List ℤ)
      → law.Valid s
      → IsI64 v
      → c.emit s v ≡ ok (d, s1)
      → Written (result ++ encode_varint d) bytes s1 s' vs
      → Written result bytes s s' (v ∷ vs)
  Written-cons result bytes s s1 s' v d vs valid hv em w = record {
    tail = encode_varint d ++ w.tail;
    added = w.added ∙ append_assoc result (encode_varint d) w.tail;
    read = read;
  }
    where
      long : 0 < length (encode_varint d)
      long = (length-encode_varint d ((law.exact s s1 v d valid hv em).0)).0

      read :
          (fuel : ℕ) (acc : List ℤ)
          → length (encode_varint d ++ w.tail) ≤ fuel
          → decode_loop c fuel (encode_varint d ++ w.tail) s acc ≡ (ok (acc ++ v ∷ vs), s')
      read zero acc p = absurd (omega (arith, long, length-append (encode_varint d) w.tail))
      read (suc f) acc p =
          decode_one f w.tail s s1 acc d v valid hv em
          ∙ w.read f (acc ++ (v ∷ [])) (omega (arith, long, length-append (encode_varint d) w.tail))
          ∙ rw append_assoc

  encode_batch_loop-Written :
      (result bytes : List ℕ) (s s' : c.State) (values : List ℤ)
      → law.Valid s
      → All IsI64 values
      → encode_batch_loop c result s values ≡ (ok bytes, s')
      → Written result bytes s s' values
  encode_batch_loop-Written result bytes s s' [] valid h e = Written-nil result bytes s s' e
  encode_batch_loop-Written result bytes s s' (v ∷ vs) valid h e =
      elim (Result-cases (c.emit s v)) [
        | inl ((d, s1), em) ↦ Written-cons result bytes s s1 s' v d vs valid h.0 em (
            encode_batch_loop-Written (result ++ encode_varint d) bytes s1 s' vs
              ((law.exact s s1 v d valid h.0 em).2) h.1
              (sym (batch_ok c result s s1 v d vs em) ∙ e))
        | inr (inl (x, em)) ↦ cc (batch_err c result s v vs x em)
        | inr (inr em) ↦ cc (batch_stuck c result s v vs em)
      ]

  -- Whatever a batch encoder wrote, the decoder reads back, and ends in the encoder's state.
  pub decode-encode_batch :
      (bytes : List ℕ) (s s' : c.State) (values : List ℤ)
      → law.Valid s
      → All IsI64 values
      → encode_batch c s values ≡ (ok bytes, s')
      → decode c s bytes ≡ (ok values, s')
  unfolding encode_batch decode
  decode-encode_batch bytes s s' values valid h e =
      let w = encode_batch_loop-Written [] bytes s s' values valid h e in
      rw w.added (w.read (length w.tail) [] (omega arith))
