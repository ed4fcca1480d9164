-- ===== src/Index/Bitmap.antt =====
-- storage/src/index/bitmap.rs: `RoaringBitmap`, a set of numbers as the bits of `u64` words, and
-- `BitmapIndex`.
pub mod Members
pub mod Missed
use chono_db.Prelude.{
  zero, suc, max, String, Option, none, some, ℕ, ◌+◌, ◌-◌, ◌/◌, ◌%◌, ◌^◌, leb, List, [], ◌∷◌, ◌++◌,
  length, get_or, set, replicate, Bool, true, false, ◌==◌, ◌&&◌, if◌then◌else◌,
}
use chono_db.Prelude.Assoc.{Assoc, text_key, lookup, insert}
use chono_db.Prelude.Bits.{bit_and, bit_or}
use chono_db.Prelude.BitTest.{bit}

pub record RoaringBitmap : Type 0 where
  pub bits : List ℕ

unfoldable pub new : RoaringBitmap
new = record { bits = [] }

-- `if index >= self.bits.len() { self.bits.resize(index + 1, 0); }`
unfoldable pub resize_for : List ℕ → ℕ → List ℕ
resize_for bits index =
    if leb (length bits) index then bits ++ replicate (index + 1 - length bits) 0 else bits

unfoldable pub add : RoaringBitmap → ℕ → RoaringBitmap
add b value =
    let index = value / 64 in
    let bits = resize_for b.bits index in
    record { bits = set bits index (bit_or (get_or bits index 0) (2 ^ (value % 64))) }

unfoldable pub contains : RoaringBitmap → ℕ → Bool
contains b value =
    let index = value / 64 in
    if leb (length b.bits) index then false else bit (get_or b.bits index 0) (value % 64)

unfoldable pub and_words : List ℕ → List ℕ → List ℕ
and_words [] bs = []
and_words (a ∷ rest) [] = []
and_words (a ∷ rest) (b ∷ bs) = bit_and a b ∷ and_words rest bs

-- A word that is missing on one side counts as 0.
unfoldable pub or_words : List ℕ → List ℕ → List ℕ
or_words [] [] = []
or_words [] (b ∷ bs) = bit_or 0 b ∷ or_words [] bs
or_words (a ∷ rest) [] = bit_or a 0 ∷ or_words rest []
or_words (a ∷ rest) (b ∷ bs) = bit_or a b ∷ or_words rest bs

-- `and` and `or`
unfoldable pub intersection : RoaringBitmap → RoaringBitmap → RoaringBitmap
intersection a b = record { bits = and_words a.bits b.bits }

unfoldable pub union : RoaringBitmap → RoaringBitmap → RoaringBitmap
union a b = record { bits = or_words a.bits b.bits }

unfoldable pub all_zero : List ℕ → Bool
all_zero [] = true
all_zero (w ∷ ws) = w == 0 && all_zero ws

unfoldable pub is_empty : RoaringBitmap → Bool
is_empty b = all_zero b.bits

abbrev pub ones : ℕ
ones = 2 ^ 64 - 1

-- `vec![!0u64; max_index]` with the complements of the words that there are.
unfoldable pub not_words : ℕ → List ℕ → List ℕ
not_words zero ws = []
not_words (suc n) [] = ones ∷ not_words n []
not_words (suc n) (w ∷ ws) = (ones - w) ∷ not_words n ws

-- `not`. The shift of a release build takes the amount modulo 64.
unfoldable pub complement : RoaringBitmap → ℕ → RoaringBitmap
complement b max_value =
    let last = max_value / 64 in
    let words = not_words (last + 1) b.bits in
    let mask = 2 ^ ((max_value % 64 + 1) % 64) - 1 in
    record { bits = set words last (bit_and (get_or words last 0) mask) }

pub record BitmapIndex : Type 0 where
  pub index : Assoc String (Assoc String RoaringBitmap)
  pub series_count : ℕ

unfoldable pub new_index : BitmapIndex
new_index = record { index = []; series_count = 0 }

abbrev pub or_new : Option RoaringBitmap → RoaringBitmap
or_new none = new
or_new (some b) = b

abbrev pub or_no_values : Option (Assoc String RoaringBitmap) → Assoc String RoaringBitmap
or_no_values none = []
or_no_values (some values) = values

unfoldable pub add_labels :
    Assoc String (Assoc String RoaringBitmap)
    → ℕ
    → List (String × String)
    → Assoc String (Assoc String RoaringBitmap)
add_labels index id [] = index
add_labels index id ((name, value) ∷ labels) =
    let name_index = or_no_values (lookup name index) in
    let bitmap = add (or_new (lookup value name_index)) id in
    add_labels (insert name (insert value bitmap name_index) index) id labels

-- `series_id as u32`
unfoldable pub add_series : BitmapIndex → ℕ → List (String × String) → BitmapIndex
add_series ix series_id labels = record {
  index = add_labels ix.index (series_id % 2 ^ 32) labels;
  series_count = max ix.series_count ((series_id + 1) % 2 ^ 64);
}

unfoldable pub query_equal : BitmapIndex → String → String → RoaringBitmap
query_equal ix name value = elim (lookup name ix.index) [
  | none ↦ new
  | some values ↦ or_new (lookup value values)
]

-- `for i in 0..self.series_count { all.add(i as u32); }`
unfoldable pub add_below : ℕ → RoaringBitmap
add_below zero = new
add_below (suc n) = add (add_below n) (n % 2 ^ 32)

unfoldable pub get_all_series : BitmapIndex → RoaringBitmap
get_all_series ix = add_below ix.series_count

unfoldable pub query_not_equal : BitmapIndex → String → String → RoaringBitmap
query_not_equal ix name value =
    intersection (get_all_series ix)
      (complement (query_equal ix name value) (ix.series_count % 2 ^ 32))
