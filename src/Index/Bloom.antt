-- ===== src/Index/Bloom.antt =====
-- storage/src/index/bloom.rs: `BloomFilter`. The two hashes of an item, the standard library's
-- `DefaultHasher`, are a parameter, as are the sizes that `new` computes with logarithms.
pub mod Members
pub mod Items
use chono_db.Prelude.Bytes.{u64_bytes, u64_at}
use chono_db.Prelude.{
  ℕ, zero, suc, ◌+◌, ◌*◌, ◌/◌, ◌%◌, ◌^◌, List, [], ◌∷◌, ◌++◌, length, get_or, set, replicate, drop,
  Bool, true, false, not, ltb, ◌==◌, if◌then◌else◌,
}
use chono_db.Prelude.Bits.{bit_or}
use chono_db.Prelude.BitTest.{bit}
use chono_db.Error.{Result, ok, err, invalid_data}
use chono_db.Model.{F64}

pub record BloomFilter : Type 0 where
  pub bits : List ℕ
  pub num_bits : ℕ
  pub num_hashes : ℕ

unfoldable pub with_size : ℕ → ℕ → BloomFilter
with_size num_bits num_hashes = record {
  bits = replicate ((num_bits + 7) % 2 ^ 64 / 8) 0;
  num_bits = num_bits;
  num_hashes = num_hashes;
}

-- With `optimal_num_bits` and `optimal_num_hashes`.
unfoldable pub new : (ℕ → F64 → ℕ) → (ℕ → ℕ → ℕ) → ℕ → F64 → BloomFilter
new optimal_num_bits optimal_num_hashes expected_items false_positive_rate =
    let num_bits = optimal_num_bits expected_items false_positive_rate in
    with_size num_bits (optimal_num_hashes num_bits expected_items)

-- An index outside of the bytes, and a filter of no bits, make the program panic; the filters that
-- `with_size` makes of at least one bit have no such index.
unfoldable pub bit_index : BloomFilter → ℕ → ℕ → ℕ → ℕ
bit_index filter hash1 hash2 i = (hash1 + i * hash2 % 2 ^ 64) % 2 ^ 64 % filter.num_bits

unfoldable pub set_bit : BloomFilter → ℕ → BloomFilter
set_bit filter index = record filter {
  bits = set filter.bits (index / 8) (bit_or (get_or filter.bits (index / 8) 0) (2 ^ (index % 8)));
}

unfoldable pub get_bit : BloomFilter → ℕ → Bool
get_bit filter index = bit (get_or filter.bits (index / 8) 0) (index % 8)

-- The loop of `insert` from `i` on, for as many rounds as are left.
unfoldable pub insert_loop : BloomFilter → ℕ → ℕ → ℕ → ℕ → BloomFilter
insert_loop filter hash1 hash2 i zero = filter
insert_loop filter hash1 hash2 i (suc left) =
    insert_loop (set_bit filter (bit_index filter hash1 hash2 i)) hash1 hash2 (i + 1) left

unfoldable pub contains_loop : BloomFilter → ℕ → ℕ → ℕ → ℕ → Bool
contains_loop filter hash1 hash2 i zero = true
contains_loop filter hash1 hash2 i (suc left) =
    let later = contains_loop filter hash1 hash2 (i + 1) left in
    if get_bit filter (bit_index filter hash1 hash2 i) then later else false

module _ (hashes : List ℕ → ℕ × ℕ) where
  unfoldable pub insert : BloomFilter → List ℕ → BloomFilter
  insert filter item =
      let (hash1, hash2) = hashes item in insert_loop filter hash1 hash2 0 filter.num_hashes

  unfoldable pub contains : BloomFilter → List ℕ → Bool
  contains filter item =
      let (hash1, hash2) = hashes item in contains_loop filter hash1 hash2 0 filter.num_hashes

unfoldable pub zero_bytes : List ℕ → List ℕ
zero_bytes [] = []
zero_bytes (b ∷ bytes) = 0 ∷ zero_bytes bytes

unfoldable pub clear : BloomFilter → BloomFilter
clear filter = record filter { bits = zero_bytes filter.bits }

unfoldable pub or_bytes : List ℕ → List ℕ → List ℕ
or_bytes [] others = []
or_bytes (b ∷ bytes) [] = b ∷ or_bytes bytes []
or_bytes (b ∷ bytes) (c ∷ others) = bit_or b c ∷ or_bytes bytes others

-- Filters of the same size have as many bytes; fewer in `other` would make the program panic.
unfoldable pub union : BloomFilter → BloomFilter → Result BloomFilter
union filter other =
    if filter.num_bits == other.num_bits
    then ok (record filter { bits = or_bytes filter.bits other.bits })
    else err (invalid_data "Bloom filters have different sizes")

unfoldable pub serialize : BloomFilter → List ℕ
serialize filter = u64_bytes filter.num_bits ++ (u64_bytes filter.num_hashes ++ filter.bits)

unfoldable pub deserialize : List ℕ → Result BloomFilter
deserialize data' =
    if ltb (length data') 16
    then err (invalid_data "Bloom filter data too short")
    else ok
        (record { bits = drop 16 data'; num_bits = u64_at data' 0; num_hashes = u64_at data' 8 })
