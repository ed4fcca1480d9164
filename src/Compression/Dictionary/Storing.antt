-- ===== src/Compression/Dictionary/Storing.antt =====
-- A stored dictionary is read back.
use chono_db.Prelude.Bytes.{from_to_le_bytes, to_le_bytes}
use chono_db.Prelude.{
  ℕ, suc, ◌%◌, ◌^◌, ◌<◌, ◌≡◌, ◌⊎◌, refl, sym, ap, subst, ◌∙◌, List, [], ◌∷◌, ◌++◌, length,
  length-append, take, All, drop-append_length, ltb, Bool, true, false, Option-cases, inl, inr,
  arith,
}
use chono_db.Prelude.Assoc.{lookup}
use chono_db.Error.{ok}
use chono_db.Compression.Dictionary.{
  Text, bytes_key, Dictionary, new, add, add_all, serialize, serialize_strings, read_strings,
  deserialize,
}

take-append_length : (xs ys : List ℕ) → take (length xs) (xs ++ ys) ≡ xs
take-append_length [] ys = refl
take-append_length (x ∷ xs) ys = ap (λ rest. x ∷ rest) (take-append_length xs ys)

add_all-append :
    (d : Dictionary) (ss ts : List Text) → add_all d (ss ++ ts) ≡ add_all (add_all d ss) ts
unfolding add_all
add_all-append d [] ts = refl
add_all-append d (s ∷ ss) ts = add_all-append (add d s).1 ss ts

-- Inserting the strings of a dictionary in their order makes the dictionary.
abbrev pub IsOrdered : Dictionary → Type 0
IsOrdered d = add_all new d.strings ≡ d

strings-add :
    (d : Dictionary) (s : Text)
    → (((add d s).1 ≡ d) ⊎ ((add d s).1.strings ≡ d.strings ++ (s ∷ [])))
unfolding add
strings-add d s = elim (Option-cases (lookup s d.indices)) [
  | inr (idx, e) ↦ inl (rw (add, e) refl)
  | inl e ↦ inr (rw (add, e) refl)
]

add-IsOrdered : (d : Dictionary) (s : Text) → IsOrdered d → IsOrdered (add d s).1
add-IsOrdered d s h = elim (strings-add d s) [
  | inl same ↦ subst IsOrdered (sym same) h
  | inr longer ↦
      ap (add_all new) longer
      ∙ add_all-append new d.strings (s ∷ [])
      ∙ ap (λ x. add_all x (s ∷ [])) h
      ∙ unfold add_all in refl
]

new-IsOrdered : IsOrdered new
unfolding new add_all
new-IsOrdered = refl

pub add_all-IsOrdered : (d : Dictionary) (ss : List Text) → IsOrdered d → IsOrdered (add_all d ss)
unfolding add_all
add_all-IsOrdered d [] h = h
add_all-IsOrdered d (s ∷ ss) h = add_all-IsOrdered (add d s).1 ss (add-IsOrdered d s h)

module _ (is_utf8 : List ℕ → Bool) where
  -- Strings whose length a `u32` holds.
  abbrev pub IsStorable : Text → Type 0
  IsStorable s = (length s < 2 ^ 32) × (is_utf8 s ≡ true)

  read_one :
      (n : ℕ) (s : Text) (rest : List ℕ) (d : Dictionary)
      → IsStorable s
      → read_strings is_utf8 (suc n) (to_le_bytes (length s % 2 ^ 32) ++ (s ++ rest)) d
        ≡ read_strings is_utf8 n rest (add d s).1
  unfolding read_strings to_le_bytes
  read_one n s rest d (short, valid) =
      let whole : length s % 2 ^ 32 ≡ length s = omega (arith, short) in
      let fits : ltb (length (s ++ rest)) (length s) ≡ false =
        ground (arith, length-append s rest) in
      rw (whole, from_to_le_bytes (length s) short)
        (rw fits (rw (take-append_length s rest, valid, drop-append_length s rest) refl))

  read_strings-serialize_strings :
      (ss : List Text) (d : Dictionary)
      → All IsStorable ss
      → read_strings is_utf8 (length ss) (serialize_strings ss) d ≡ ok (add_all d ss)
  unfolding serialize_strings add_all
  read_strings-serialize_strings [] d h = unfold read_strings in refl
  read_strings-serialize_strings (s ∷ ss) d (storable, h) =
      read_one (length ss) s (serialize_strings ss) d storable
      ∙ read_strings-serialize_strings ss (add d s).1 h

read_header :
    (is_utf8 : List ℕ → Bool) (n : ℕ) (rest : List ℕ)
    → n < 2 ^ 32
    → deserialize is_utf8 (to_le_bytes (n % 2 ^ 32) ++ rest) ≡ read_strings is_utf8 n rest new
unfolding deserialize to_le_bytes
read_header is_utf8 n rest h =
    let whole : n % 2 ^ 32 ≡ n = omega (arith, h) in rw (whole, from_to_le_bytes n h) refl

-- A dictionary made by insertion, of fewer than 2^32 strings that are UTF-8 and shorter than 2^32
-- bytes, is what `deserialize` makes of its serialization.
pub deserialize-serialize :
    (is_utf8 : List ℕ → Bool) (texts : List Text)
    → length (add_all new texts).strings < 2 ^ 32
    → All (IsStorable is_utf8) (add_all new texts).strings
    → deserialize is_utf8 (serialize (add_all new texts)) ≡ ok (add_all new texts)
unfolding serialize
deserialize-serialize is_utf8 texts few storable =
    let d = add_all new texts in
    read_header is_utf8 (length d.strings) (serialize_strings d.strings) few
    ∙ read_strings-serialize_strings is_utf8 d.strings new storable
    ∙ ap ok (add_all-IsOrdered new texts new-IsOrdered)
