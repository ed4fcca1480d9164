-- ===== src/Compression/Dictionary/Coding.antt =====
-- What a dictionary encodes, it decodes.
use chono_db.Prelude.Bytes.{from_to_le_bytes, to_le_bytes}
use chono_db.Prelude.{
  ℕ, zero, suc, ◌+◌, ◌*◌, ◌%◌, ◌^◌, ◌<◌, ◌≤◌, ◌≡◌, refl, sym, ap, ◌∙◌, subst, List, [], ◌∷◌, ◌++◌,
  length, length-append, get_elem?, true, ◌==◌, none, some, Option-cases, Bool-cases, inl, inr,
  arith, if◌then◌else◌,
}
use chono_db.Prelude.Assoc.{lookup, insert, lookup-insert}
use chono_db.Error.{ok, err, invalid_data, ◌>>=◌, >>=-eq-ok}
use chono_db.Compression.Dictionary.{
  Text, bytes_key, Dictionary, new, add, add_all, get, encode, decode, decode_loop,
}

-- The index of a string is where it stands.
pub record IsDictionary (d : Dictionary) : Type 0 where
  pub stands : (s : Text) (i : ℕ) → lookup s d.indices ≡ some i → get_elem? d.strings i ≡ some s
  pub small : (s : Text) (i : ℕ) → lookup s d.indices ≡ some i → i < 2 ^ 32

new-IsDictionary : IsDictionary new
unfolding new lookup
new-IsDictionary = record { stands = λ s i e. cc; small = λ s i e. cc }

get_elem?-append :
    (xs ys : List Text) (i : ℕ) (x : Text)
    → get_elem? xs i ≡ some x
    → get_elem? (xs ++ ys) i ≡ some x
get_elem?-append [] ys i x h = cc
get_elem?-append (y ∷ xs) ys zero x h = h
get_elem?-append (y ∷ xs) ys (suc i) x h = get_elem?-append xs ys i x h

get_elem?-last : (xs : List Text) (x : Text) → get_elem? (xs ++ (x ∷ [])) (length xs) ≡ some x
get_elem?-last [] x = refl
get_elem?-last (y ∷ xs) x = get_elem?-last xs x

unfold_if :
    (d : Dictionary) (s t : Text) (i : ℕ)
    → lookup t (insert s (length d.strings % 2 ^ 32) d.indices) ≡ some i
    → (if bytes_key.same s t then some (length d.strings % 2 ^ 32) else lookup t d.indices) ≡ some i
unfold_if d s t i found = sym (lookup-insert s t (length d.strings % 2 ^ 32) d.indices) ∙ found

longer_small :
    (d : Dictionary) (s : Text)
    → IsDictionary d
    → (t : Text) (i : ℕ)
    → (if bytes_key.same s t then some (length d.strings % 2 ^ 32) else lookup t d.indices) ≡ some i
    → i < 2 ^ 32
longer_small d s h t i found = elim (Bool-cases (bytes_key.same s t)) [
  | inl e ↦ ground (arith, e)
  | inr e ↦ h.small t i (cc (found, e))
]

last_index : (n i : ℕ) → n < 2 ^ 32 → some (n % 2 ^ 32) ≡ some i → n ≡ i
last_index n i h e = let same : n % 2 ^ 32 ≡ i = cc in omega (arith, same)

longer_stands :
    (d : Dictionary) (s : Text)
    → IsDictionary d
    → length d.strings < 2 ^ 32
    → (t : Text) (i : ℕ)
    → (if bytes_key.same s t then some (length d.strings % 2 ^ 32) else lookup t d.indices) ≡ some i
    → get_elem? (d.strings ++ (s ∷ [])) i ≡ some t
longer_stands d s h room t i found = elim (Bool-cases (bytes_key.same s t)) [
  | inl e ↦
      let equal : s ≡ t = (bytes_key.same_iff s t).0 e in
      let index : some (length d.strings % 2 ^ 32) ≡ some i = cc (found, e) in
      let last : length d.strings ≡ i = last_index (length d.strings) i room index in
      subst (λ k. get_elem? (d.strings ++ (s ∷ [])) k ≡ some t) last
        (get_elem?-last d.strings s ∙ ap some equal)
  | inr e ↦ get_elem?-append d.strings (s ∷ []) i t (h.stands t i (cc (found, e)))
]

add-IsDictionary :
    (d : Dictionary) (s : Text)
    → IsDictionary d
    → length d.strings < 2 ^ 32
    → IsDictionary (add d s).1
unfolding add
add-IsDictionary d s h room = elim (Option-cases (lookup s d.indices)) [
  | inr (idx, e) ↦ rw (add, e) h
  | inl e ↦
      rw (add, e)
        (record {
          stands = λ t i found. longer_stands d s h room t i (unfold_if d s t i found);
          small = λ t i found. longer_small d s h t i (unfold_if d s t i found);
        })
]

pub four : (idx : ℕ) → length (to_le_bytes idx) ≡ 4
unfolding to_le_bytes
four idx = refl

encode_missing :
    (d : Dictionary) (s : Text) (ss : List Text)
    → lookup s d.indices ≡ none
    → encode d (s ∷ ss) ≡ err (invalid_data "String not found in dictionary")
unfolding encode
encode_missing d s ss e = rw (encode, e) refl

encode_there :
    (d : Dictionary) (s : Text) (ss : List Text) (idx : ℕ)
    → lookup s d.indices ≡ some idx
    → encode d (s ∷ ss) ≡ (encode d ss >>= λ rest. ok (to_le_bytes idx ++ rest))
unfolding encode
encode_there d s ss idx e = rw (encode, e) refl

decode_step :
    (d : Dictionary) (s : Text) (ss : List Text) (idx : ℕ) (rest : List ℕ)
    → IsDictionary d
    → lookup s d.indices ≡ some idx
    → decode_loop d rest ≡ ok ss
    → decode_loop d (to_le_bytes idx ++ rest) ≡ ok (s ∷ ss)
unfolding decode_loop to_le_bytes get
decode_step d s ss idx rest h there e =
    rw (decode_loop, from_to_le_bytes idx (h.small s idx there))
      (rw (h.stands s idx there) (rw e refl))

decode-encode_loop :
    (d : Dictionary) (ss : List Text) (bytes : List ℕ)
    → IsDictionary d
    → encode d ss ≡ ok bytes
    → (decode_loop d bytes ≡ ok ss) × (length bytes ≡ 4 * length ss)
unfolding encode
decode-encode_loop d [] bytes h e =
    let none_yet : [] ≡ bytes = cc in
    subst (λ x. (decode_loop d x ≡ ok []) × (length x ≡ 0)) none_yet
      (unfold decode_loop in (refl, refl))
decode-encode_loop d (s ∷ ss) bytes h e = elim (Option-cases (lookup s d.indices)) [
  | inl missing ↦ cc (encode_missing d s ss missing, e)
  | inr (idx, there) ↦
      let (rest, ok_rest, last) =
        >>=-eq-ok (encode d ss) _ (sym (encode_there d s ss idx there) ∙ e) in
      let whole : to_le_bytes idx ++ rest ≡ bytes = cc in
      let (decoded, size) = decode-encode_loop d ss rest h ok_rest in
      subst (λ x. (decode_loop d x ≡ ok (s ∷ ss)) × (length x ≡ 4 * length (s ∷ ss))) whole
        (decode_step d s ss idx rest h there decoded, longer idx rest ss size)
]
  where
    longer :
        (idx : ℕ) (rest : List ℕ) (ss : List Text)
        → length rest ≡ 4 * length ss
        → length (to_le_bytes idx ++ rest) ≡ 4 * suc (length ss)
    longer idx rest ss h = omega (arith, length-append (to_le_bytes idx) rest, four idx)

length-add : (d : Dictionary) (s : Text) → length (add d s).1.strings ≤ length d.strings + 1
unfolding add
length-add d s = elim (Option-cases (lookup s d.indices)) [
  | inr (idx, e) ↦ rw (add, e) (omega arith)
  | inl e ↦ rw (add, e) (omega (arith, length-append d.strings (s ∷ [])))
]

add_all-IsDictionary :
    (d : Dictionary) (texts : List Text)
    → IsDictionary d
    → length d.strings + length texts < 2 ^ 32
    → IsDictionary (add_all d texts)
unfolding add_all
add_all-IsDictionary d [] h room = h
add_all-IsDictionary d (s ∷ texts) h room =
    add_all-IsDictionary (add d s).1 texts (add-IsDictionary d s h (omega (arith, room)))
      (omega (arith, room, length-add d s))

length_new : length new.strings ≡ 0
unfolding new
length_new = refl

-- A dictionary that fewer than 2^32 strings were inserted into decodes whatever it encodes to the
-- strings that were encoded.
pub decode-encode :
    (texts ss : List Text) (bytes : List ℕ)
    → length texts < 2 ^ 32
    → encode (add_all new texts) ss ≡ ok bytes
    → decode (add_all new texts) bytes ≡ ok ss
unfolding decode
decode-encode texts ss bytes room e =
    let well = add_all-IsDictionary new texts new-IsDictionary (omega (arith, room, length_new)) in
    let (decoded, size) = decode-encode_loop (add_all new texts) ss bytes well e in
    let whole : (length bytes % 4 == 0) ≡ true = ground (arith, size) in rw whole decoded
