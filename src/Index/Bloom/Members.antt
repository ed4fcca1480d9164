-- ===== src/Index/Bloom/Members.antt =====
-- The bits of a bloom filter: an insertion sets those that a test of the item reads, and keeps others.
use chono_db.Prelude.{
  ℕ, zero, suc, ◌+◌, ◌*◌, ◌/◌, ◌%◌, ◌^◌, ◌≤◌, ◌<◌, ◌≡◌, refl, sym, ◌∙◌, length, length-set,
  length-replicate, get_or, true, ◌||◌, ◌==◌, ==_iff, Bool-cases, inl, inr, arith,
}
use chono_db.Prelude.Bits.{bit_or}
use chono_db.Prelude.BitTest.{bit-or, bit_one}
use chono_db.Index.Bitmap.Members.{get_or-set}
use chono_db.Index.Bloom.{
  BloomFilter, with_size, bit_index, set_bit, get_bit, insert_loop, contains_loop,
}

-- Every bit has its place.
pub record IsBloom (filter : BloomFilter) : Type 0 where
  pub some_bits : 0 < filter.num_bits
  pub room : filter.num_bits ≤ 8 * length filter.bits

pub with_size-IsBloom :
    (num_bits num_hashes : ℕ)
    → 0 < num_bits
    → num_bits + 7 < 2 ^ 64
    → IsBloom (with_size num_bits num_hashes)
unfolding with_size
with_size-IsBloom num_bits num_hashes some_bits fits = record {
  some_bits = some_bits;
  room = omega (arith, length-replicate {A = ℕ} ((num_bits + 7) % 2 ^ 64 / 8) 0);
}

-- The bits of `filter` are bits of `more`, which is as large.
pub record IsWithin (filter more : BloomFilter) : Type 0 where
  pub same_size : more.num_bits ≡ filter.num_bits
  pub same_hashes : more.num_hashes ≡ filter.num_hashes
  pub same_bytes : length more.bits ≡ length filter.bits
  pub bits_of : (j : ℕ) → get_bit filter j ≡ true → get_bit more j ≡ true

pub IsWithin-IsBloom :
    (filter more : BloomFilter) → IsWithin filter more → IsBloom filter → IsBloom more
IsWithin-IsBloom filter more w h = record {
  some_bits = omega (arith, w.same_size, h.some_bits);
  room = omega (arith, w.same_size, w.same_bytes, h.room);
}

get_bit-set_bit :
    (filter : BloomFilter) (i j : ℕ)
    → i / 8 < length filter.bits
    → get_bit (set_bit filter i) j ≡ (i == j) || get_bit filter j
unfolding get_bit set_bit
get_bit-set_bit filter i j h =
    let byte = bit_or (get_or filter.bits (i / 8) 0) (2 ^ (i % 8)) in
    rw
      (get_or-set filter.bits (i / 8) (j / 8) (bit_or (get_or filter.bits (i / 8) 0) (2 ^ (i % 8)))
        h)
      (elim (Bool-cases (i / 8 == j / 8)) [
        | inl e ↦
            let same : i / 8 ≡ j / 8 = (==_iff (i / 8) (j / 8)).0 e in
            rw
              (
                e,
                bit-or (j % 8) (get_or filter.bits (i / 8) 0) (2 ^ (i % 8)),
                bit_one (i % 8) (j % 8),
                same,
              )
              (ground (arith, same))
        | inr e ↦ rw e (ground (arith, e))
      ])

bit_index-inside :
    (filter : BloomFilter) (hash1 hash2 i : ℕ)
    → IsBloom filter
    → bit_index filter hash1 hash2 i / 8 < length filter.bits
unfolding bit_index
bit_index-inside filter hash1 hash2 i h = omega (arith, h.some_bits, h.room)

set_bit-IsWithin :
    (filter : BloomFilter) (i : ℕ) → i / 8 < length filter.bits → IsWithin filter (set_bit filter i)
unfolding set_bit
set_bit-IsWithin filter i h = record {
  same_size = refl;
  same_hashes = refl;
  same_bytes = length-set filter.bits (i / 8) _;
  bits_of = λ j e. get_bit-set_bit filter i j h ∙ ground (arith, e);
}

pub IsWithin-trans : (a b c : BloomFilter) → IsWithin a b → IsWithin b c → IsWithin a c
IsWithin-trans a b c h g = record {
  same_size = g.same_size ∙ h.same_size;
  same_hashes = g.same_hashes ∙ h.same_hashes;
  same_bytes = g.same_bytes ∙ h.same_bytes;
  bits_of = λ j e. g.bits_of j (h.bits_of j e);
}

pub insert_loop-IsWithin :
    (filter : BloomFilter) (hash1 hash2 i left : ℕ)
    → IsBloom filter
    → IsWithin filter (insert_loop filter hash1 hash2 i left)
unfolding insert_loop
insert_loop-IsWithin filter hash1 hash2 i zero h = record {
  same_size = refl;
  same_hashes = refl;
  same_bytes = refl;
  bits_of = λ j e. e;
}
insert_loop-IsWithin filter hash1 hash2 i (suc left) h =
    let index = bit_index filter hash1 hash2 i in
    let first =
      set_bit-IsWithin filter (bit_index filter hash1 hash2 i)
        (bit_index-inside filter hash1 hash2 i h) in
    IsWithin-trans filter (set_bit filter (bit_index filter hash1 hash2 i)) _ first (
      insert_loop-IsWithin (set_bit filter (bit_index filter hash1 hash2 i)) hash1 hash2 (i + 1)
        left (IsWithin-IsBloom filter (set_bit filter (bit_index filter hash1 hash2 i)) first h))

bit_index-same :
    (a b : BloomFilter) (hash1 hash2 i : ℕ)
    → b.num_bits ≡ a.num_bits
    → bit_index b hash1 hash2 i ≡ bit_index a hash1 hash2 i
unfolding bit_index
bit_index-same a b hash1 hash2 i e = rw e refl

-- Fewer hashes and more bits find as much.
pub contains_loop-more :
    (a b : BloomFilter) (hash1 hash2 i n m : ℕ)
    → b.num_bits ≡ a.num_bits
    → ((j : ℕ) → get_bit a j ≡ true → get_bit b j ≡ true)
    → m ≤ n
    → contains_loop a hash1 hash2 i n ≡ true
    → contains_loop b hash1 hash2 i m ≡ true
unfolding contains_loop
contains_loop-more a b hash1 hash2 i n zero size more less found = refl
contains_loop-more a b hash1 hash2 i zero (suc m) size more less found = absurd (omega arith)
contains_loop-more a b hash1 hash2 i (suc n) (suc m) size more less found =
    elim (Bool-cases (get_bit a (bit_index a hash1 hash2 i))) [
      | inl e ↦
          let rest : contains_loop a hash1 hash2 (i + 1) n ≡ true = sym (rw e refl) ∙ found in
          rw
            (
              bit_index-same a b hash1 hash2 i size,
              more (bit_index a hash1 hash2 i) e,
              contains_loop-more a b hash1 hash2 (i + 1) n m size more (omega arith) rest,
            )
            refl
      | inr e ↦ ground (arith, e, found)
    ]

-- A round sets its bit, and the others keep it.
pub contains_loop-insert_loop :
    (filter more : BloomFilter) (hash1 hash2 i left : ℕ)
    → IsBloom filter
    → IsWithin (insert_loop filter hash1 hash2 i left) more
    → contains_loop more hash1 hash2 i left ≡ true
unfolding insert_loop contains_loop
contains_loop-insert_loop filter more hash1 hash2 i zero h w = refl
contains_loop-insert_loop filter more hash1 hash2 i (suc left) h w =
    let index = bit_index filter hash1 hash2 i in
    let inside = bit_index-inside filter hash1 hash2 i h in
    let first = set_bit-IsWithin filter (bit_index filter hash1 hash2 i) inside in
    let next = IsWithin-IsBloom filter (set_bit filter (bit_index filter hash1 hash2 i)) first h in
    let later =
      insert_loop-IsWithin (set_bit filter (bit_index filter hash1 hash2 i)) hash1 hash2 (i + 1)
        left next in
    let all = IsWithin-trans (set_bit filter (bit_index filter hash1 hash2 i)) _ more later w in
    let is_set : get_bit more (bit_index filter hash1 hash2 i) ≡ true =
      all.bits_of (bit_index filter hash1 hash2 i) (
        get_bit-set_bit filter (bit_index filter hash1 hash2 i) (bit_index filter hash1 hash2 i)
          inside
        ∙ ground arith) in
    rw
      (
        bit_index-same filter more hash1 hash2 i (all.same_size ∙ first.same_size),
        is_set,
        contains_loop-insert_loop (set_bit filter (bit_index filter hash1 hash2 i)) more hash1 hash2
            (i + 1) left next w,
      )
      refl
