-- ===== src/Compression/Dictionary.antt =====
-- storage/src/compression/dictionary.rs: `Dictionary`. A `String` is the list of its bytes.
pub mod Coding
pub mod Storing
use chono_db.Prelude.Bytes.{from_le_bytes, to_le_bytes}
use chono_db.Prelude.{
  zero, suc, ℕ, ◌+◌, ◌*◌, ◌/◌, ◌%◌, ◌^◌, ◌==◌, ==_iff, ltb, List, [], ◌∷◌, ◌++◌, length, take, drop,
  get_elem?, Bool, true, false, ◌&&◌, ◌≡◌, ◌↔◌, refl, Option, none, some, arith, if◌then◌else◌,
  String,
}
use chono_db.Prelude.Assoc.{Assoc, Key, text_key, lookup, insert}
use chono_db.Error.{Result, ok, err, stuck, invalid_data, ◌>>=◌, ◌>>◌, ensure}

abbrev pub Text : Type 0
Text = List ℕ

unfoldable pub same_bytes : Text → Text → Bool
same_bytes [] [] = true
same_bytes [] (b ∷ bs) = false
same_bytes (a ∷ more) [] = false
same_bytes (a ∷ more) (b ∷ bs) = a == b && same_bytes more bs

pub same_bytes_iff : (a b : Text) → (same_bytes a b ≡ true) ↔ (a ≡ b)
unfolding same_bytes
same_bytes_iff [] [] = ground arith
same_bytes_iff [] (b ∷ bs) = (λ e. cc, λ e. cc)
same_bytes_iff (a ∷ more) [] = (λ e. cc, λ e. cc)
same_bytes_iff (a ∷ more) (b ∷ bs) = ground (arith, ==_iff a b, same_bytes_iff more bs)

instance abbrev pub bytes_key : Key Text
bytes_key = record { same = same_bytes; same_iff = same_bytes_iff }

pub record Dictionary : Type 0 where
  pub strings : List Text
  pub indices : Assoc Text ℕ

unfoldable pub new : Dictionary
new = record { strings = []; indices = [] }

-- `insert`: the index of the string, and the dictionary with it.
unfoldable pub add : Dictionary → Text → ℕ × Dictionary
add d s = elim (lookup s d.indices) [
  | some idx ↦ (idx, d)
  | none ↦
      let idx = length d.strings % 2 ^ 32 in
      (idx, record { strings = d.strings ++ (s ∷ []); indices = insert s idx d.indices })
]

unfoldable pub get : Dictionary → ℕ → Option Text
get d idx = get_elem? d.strings idx

unfoldable pub get_index : Dictionary → Text → Option ℕ
get_index d s = lookup s d.indices

unfoldable pub len : Dictionary → ℕ
len d = length d.strings

-- The texts of the errors leave out the string and the index that Rust's name.
unfoldable pub encode : Dictionary → List Text → Result (List ℕ)
encode d [] = ok []
encode d (s ∷ ss) = elim (lookup s d.indices) [
  | none ↦ err (invalid_data "String not found in dictionary")
  | some idx ↦ do rest ← encode d ss; ok (to_le_bytes idx ++ rest)
]

-- The chunks of four bytes; a shorter last one does not come up behind the test of the length.
unfoldable pub decode_loop : Dictionary → List ℕ → Result (List Text)
decode_loop d (x0 ∷ x1 ∷ x2 ∷ x3 ∷ rest) = elim (get d (from_le_bytes x0 x1 x2 x3)) [
  | none ↦ err (invalid_data "Invalid dictionary index")
  | some s ↦ do ss ← decode_loop d rest; ok (s ∷ ss)
]
decode_loop d [] = ok []
decode_loop d (x0 ∷ []) = stuck
decode_loop d (x0 ∷ x1 ∷ []) = stuck
decode_loop d (x0 ∷ x1 ∷ x2 ∷ []) = stuck

unfoldable pub decode : Dictionary → List ℕ → Result (List Text)
decode d bytes =
    if length bytes % 4 == 0
    then decode_loop d bytes
    else err (invalid_data "Invalid dictionary encoded data length")

unfoldable pub serialize_strings : List Text → List ℕ
serialize_strings [] = []
serialize_strings (s ∷ ss) = to_le_bytes (length s % 2 ^ 32) ++ (s ++ serialize_strings ss)

-- `serialize` returns no error.
unfoldable pub serialize : Dictionary → List ℕ
serialize d = to_le_bytes (length d.strings % 2 ^ 32) ++ serialize_strings d.strings

unfoldable pub add_all : Dictionary → List Text → Dictionary
add_all d [] = d
add_all d (s ∷ ss) = add_all (add d s).1 ss

-- Whether bytes are UTF-8 is a parameter.
module _ (is_utf8 : List ℕ → Bool) where
  -- A round for each string; the list is `data[pos..]`.
  unfoldable pub read_strings : ℕ → List ℕ → Dictionary → Result Dictionary
  read_strings zero rest d = ok d
  read_strings (suc n) (x0 ∷ x1 ∷ x2 ∷ x3 ∷ rest) d =
      let str_len = from_le_bytes x0 x1 x2 x3 in
      let s = take str_len rest in
      let go_on = read_strings n (drop str_len rest) (add d s).1 in
      if ltb (length rest) str_len
      then err (invalid_data "Unexpected end of dictionary data")
      else if is_utf8 s
      then go_on
      else err (invalid_data "Invalid UTF-8 string")
  read_strings (suc n) [] d = err (invalid_data "Unexpected end of dictionary data")
  read_strings (suc n) (x0 ∷ []) d = err (invalid_data "Unexpected end of dictionary data")
  read_strings (suc n) (x0 ∷ x1 ∷ []) d = err (invalid_data "Unexpected end of dictionary data")
  read_strings (suc n) (x0 ∷ x1 ∷ x2 ∷ []) d =
      err (invalid_data "Unexpected end of dictionary data")

  unfoldable pub deserialize : List ℕ → Result Dictionary
  deserialize (x0 ∷ x1 ∷ x2 ∷ x3 ∷ rest) = read_strings (from_le_bytes x0 x1 x2 x3) rest new
  deserialize [] = err (invalid_data "Dictionary data too short")
  deserialize (x0 ∷ []) = err (invalid_data "Dictionary data too short")
  deserialize (x0 ∷ x1 ∷ []) = err (invalid_data "Dictionary data too short")
  deserialize (x0 ∷ x1 ∷ x2 ∷ []) = err (invalid_data "Dictionary data too short")

-- `DictionaryBuilder`, the dictionaries by name.
pub record DictionaryBuilder : Type 0 where
  pub dictionaries : Assoc String Dictionary

-- `get_or_create`: the dictionary that Rust hands out a reference to, and the builder that has it.
unfoldable pub get_or_create : DictionaryBuilder → String → Dictionary × DictionaryBuilder
get_or_create b name = elim (lookup name b.dictionaries) [
  | some d ↦ (d, b)
  | none ↦ (new, record { dictionaries = insert name new b.dictionaries })
]

unfoldable pub get_dictionary : DictionaryBuilder → String → Option Dictionary
get_dictionary b name = lookup name b.dictionaries

unfoldable pub serialize_each : Assoc String Dictionary → Assoc String (List ℕ)
serialize_each [] = []
serialize_each ((name, d) ∷ ds) = (name, serialize d) ∷ serialize_each ds

unfoldable pub serialize_all : DictionaryBuilder → Assoc String (List ℕ)
serialize_all b = serialize_each b.dictionaries
