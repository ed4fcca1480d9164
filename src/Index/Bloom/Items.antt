-- ===== src/Index/Bloom/Items.antt =====
-- A bloom filter finds what was inserted, also in a union and after storing it.
use chono_db.Prelude.Bytes.{u64_bytes, u64_at, u64_at-u64_bytes, to_le_bytes, u32_at}
use chono_db.Prelude.Word.{IsU64}
use chono_db.Prelude.{
  All, false, ℕ, zero, suc, ◌+◌, ◌/◌, ◌%◌, ◌^◌, ◌≤◌, ◌<◌, ◌≡◌, refl, sym, ◌∙◌, subst, List, [], ◌∷◌,
  ◌++◌, length, get_or, true, false, ◌||◌, ltb, ◌==◌, ==_iff, Bool-cases, inl, inr, arith,
}
use chono_db.Prelude.BitTest.{bit, bit-or, bit_none}
use chono_db.Error.{err, invalid_data, ok}
use chono_db.Index.Bloom.{
  BloomFilter, with_size, get_bit, contains_loop, insert, contains, or_bytes, union, serialize,
  deserialize,
}
use chono_db.Index.Bloom.Members.{
  IsBloom, with_size-IsBloom, IsWithin, IsWithin-IsBloom, IsWithin-trans, insert_loop-IsWithin,
  contains_loop-more, contains_loop-insert_loop,
}

pub serialize-deserialize :
    (filter : BloomFilter)
    → IsU64 filter.num_bits
    → IsU64 filter.num_hashes
    → deserialize (serialize filter) ≡ ok filter
unfolding deserialize serialize u64_bytes to_le_bytes u64_at u32_at
serialize-deserialize filter bits_fit hashes_fit =
    let n : u64_at (serialize filter) 0 ≡ filter.num_bits =
      u64_at-u64_bytes filter.num_bits (u64_bytes filter.num_hashes ++ filter.bits) bits_fit in
    let k : u64_at (serialize filter) 8 ≡ filter.num_hashes =
      u64_at-u64_bytes filter.num_hashes filter.bits hashes_fit in
    let long : ltb (length (serialize filter)) 16 ≡ false = ground arith in rw (long, n, k) refl

module _ (hashes : List ℕ → ℕ × ℕ) where
  insert-IsWithin :
      (filter : BloomFilter) (item : List ℕ)
      → IsBloom filter
      → IsWithin filter (insert hashes filter item)
  unfolding insert
  insert-IsWithin filter item h =
      insert_loop-IsWithin filter (hashes item).0 (hashes item).1 0 filter.num_hashes h

  contains-insert :
      (filter more : BloomFilter) (item : List ℕ)
      → IsBloom filter
      → IsWithin (insert hashes filter item) more
      → contains hashes more item ≡ true
  unfolding insert contains
  contains-insert filter more item h w =
      let one = insert-IsWithin filter item h in
      subst (λ n. contains_loop more (hashes item).0 (hashes item).1 0 n ≡ true)
        (sym (w.same_hashes ∙ one.same_hashes))
        (contains_loop-insert_loop filter more (hashes item).0 (hashes item).1 0 filter.num_hashes h
          w)

  -- Insertions one after the other.
  unfoldable pub insert_each : BloomFilter → List (List ℕ) → BloomFilter
  insert_each filter [] = filter
  insert_each filter (item ∷ items) = insert_each (insert hashes filter item) items

  insert_each-IsWithin :
      (filter : BloomFilter) (items : List (List ℕ))
      → IsBloom filter
      → IsWithin filter (insert_each filter items)
  unfolding insert_each
  insert_each-IsWithin filter [] h = record {
    same_size = refl;
    same_hashes = refl;
    same_bytes = refl;
    bits_of = λ j e. e;
  }
  insert_each-IsWithin filter (item ∷ items) h =
      let first = insert-IsWithin filter item h in
      IsWithin-trans filter (insert hashes filter item) _ first (
        insert_each-IsWithin (insert hashes filter item) items
          (IsWithin-IsBloom filter (insert hashes filter item) first h))

  contains-insert_each :
      (filter : BloomFilter) (items : List (List ℕ))
      → IsBloom filter
      → All (λ item. contains hashes (insert_each filter items) item ≡ true) items
  unfolding insert_each
  contains-insert_each filter [] h = tt
  contains-insert_each filter (item ∷ items) h =
      let next =
        IsWithin-IsBloom filter (insert hashes filter item) (insert-IsWithin filter item h) h in
      (
        contains-insert filter (insert_each (insert hashes filter item) items) item h
            (insert_each-IsWithin (insert hashes filter item) items next),
        contains-insert_each (insert hashes filter item) items next,
      )

  -- With whatever hashes, a filter made for at least one bit finds all of the items that were inserted,
  -- and storing it and loading it again gives the filter.
  pub no_false_negatives :
      (num_bits num_hashes : ℕ) (items : List (List ℕ))
      → 0 < num_bits
      → num_bits + 7 < 2 ^ 64
      → num_hashes < 2 ^ 64
      → let filter = insert_each (with_size num_bits num_hashes) items in
        All (λ item. contains hashes filter item ≡ true) items
        × (deserialize (serialize filter) ≡ ok filter)
  unfolding with_size
  no_false_negatives num_bits num_hashes items some_bits fits hashes_fit =
      let h = with_size-IsBloom num_bits num_hashes some_bits fits in
      let w = insert_each-IsWithin (with_size num_bits num_hashes) items h in
      (
        contains-insert_each (with_size num_bits num_hashes) items h,
        serialize-deserialize (insert_each (with_size num_bits num_hashes) items)
            (omega (arith, w.same_size)) (omega (arith, w.same_hashes)),
      )

get_or-or_bytes :
    (xs ys : List ℕ) (i k : ℕ)
    → length xs ≡ length ys
    → bit (get_or (or_bytes xs ys) i 0) k ≡ bit (get_or xs i 0) k || bit (get_or ys i 0) k
unfolding or_bytes
get_or-or_bytes [] [] i k h = ground (arith, bit_none k)
get_or-or_bytes [] (y ∷ ys) i k h = absurd (omega arith)
get_or-or_bytes (x ∷ xs) [] i k h = absurd (omega arith)
get_or-or_bytes (x ∷ xs) (y ∷ ys) zero k h = bit-or k x y
get_or-or_bytes (x ∷ xs) (y ∷ ys) (suc i) k h = get_or-or_bytes xs ys i k (omega arith)

joined : BloomFilter → BloomFilter → BloomFilter
joined a b = record a { bits = or_bytes a.bits b.bits }

get_bit-joined :
    (a b : BloomFilter) (j : ℕ)
    → length a.bits ≡ length b.bits
    → get_bit (joined a b) j ≡ get_bit a j || get_bit b j
unfolding get_bit joined
get_bit-joined a b j h = get_or-or_bytes a.bits b.bits (j / 8) (j % 8) h

union-joined :
    (a b u : BloomFilter) → union a b ≡ ok u → (joined a b ≡ u) × (a.num_bits ≡ b.num_bits)
unfolding union joined
union-joined a b u e = elim (Bool-cases (a.num_bits == b.num_bits)) [
  | inl same ↦
      let done : union a b ≡ ok (joined a b) = rw same refl in
      (cc (done, e), (==_iff a.num_bits b.num_bits).0 same)
  | inr other ↦
      let bad : union a b ≡ err (invalid_data "Bloom filters have different sizes") =
        rw other refl in
      cc (bad, e)
]

-- A union of filters with as many bytes finds what the first one finds, and what the other one finds
-- where that was made with at least as many hashes.
pub contains-union :
    (hashes : List ℕ → ℕ × ℕ) (a b u : BloomFilter) (item : List ℕ)
    → union a b ≡ ok u
    → length a.bits ≡ length b.bits
    → (contains hashes a item ≡ true → contains hashes u item ≡ true)
      × (a.num_hashes ≤ b.num_hashes
          → contains hashes b item ≡ true
          → contains hashes u item ≡ true)
unfolding contains joined
contains-union hashes a b u item e size =
    let (same, bits) = union-joined a b u e in
    subst
      (λ x.
        (contains hashes a item ≡ true → contains hashes x item ≡ true)
        × (a.num_hashes ≤ b.num_hashes
            → contains hashes b item ≡ true
            → contains hashes x item ≡ true))
      same
      (
        contains_loop-more a (joined a b) (hashes item).0 (hashes item).1 0 a.num_hashes
            a.num_hashes refl (λ j h. get_bit-joined a b j size ∙ ground (arith, h)) (omega arith),
        λ fewer.
            contains_loop-more b (joined a b) (hashes item).0 (hashes item).1 0 b.num_hashes
              a.num_hashes bits (λ j h. get_bit-joined a b j size ∙ ground (arith, h)) fewer,
      )
