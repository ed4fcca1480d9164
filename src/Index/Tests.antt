-- ===== src/Index/Tests.antt =====
-- Concrete runs of the bitmaps.
use chono_db.Prelude.{List, ℕ, All, ◌≤◌, length, true}
use chono_db.Error.{ok}
use chono_db.Index.Bloom.{
  bit_index, BloomFilter, with_size, or_bytes, serialize, deserialize, set_bit, insert_loop,
  contains as filter_contains, insert as filter_insert, union as filter_union,
}
use chono_db.Index.Bloom.Items.{insert_each, no_false_negatives, contains-union}
use chono_db.Prelude.{◌≡◌, refl, ◌||◌, ◌&&◌, ◌==◌, false, [], ◌∷◌, arith}
use chono_db.Index.Bitmap.{BitmapIndex, new, add, contains, intersection, union, query_not_equal}
use chono_db.Index.Bitmap.Members.{contains-add, contains-and-or}
use chono_db.Index.Bitmap.Missed.{query_not_equal_misses}

contains-add_example : contains (add new 70) 70 ≡ (70 == 70) || contains new 70
contains-add_example = contains-add new 70 70

contains-and-or_example :
    (contains (intersection (add new 70) new) 70 ≡ contains (add new 70) 70 && contains new 70)
    × (contains (union (add new 70) new) 70 ≡ contains (add new 70) 70 || contains new 70)
contains-and-or_example = contains-and-or (add new 70) new 70

-- The series 62 of an index that has 63.
abbrev sixty_three : BitmapIndex
sixty_three = record { index = ("job", ("test", add new 62) ∷ []) ∷ []; series_count = 63 }

query_not_equal_misses_example : contains (query_not_equal sixty_three "job" "other") 62 ≡ false
query_not_equal_misses_example =
    query_not_equal_misses sixty_three "job" "other" 62 (omega arith) refl refl

-- The length of an item and 3 as its hashes.
abbrev by_length : List ℕ → ℕ × ℕ
by_length item = (length item, 3)

no_false_negatives_example :
    let filter = insert_each by_length (with_size 20 2) ((1 ∷ []) ∷ (2 ∷ 2 ∷ []) ∷ []) in
    (All (λ item. filter_contains by_length filter item ≡ true) ((1 ∷ []) ∷ (2 ∷ 2 ∷ []) ∷ []))
    × (deserialize (serialize filter) ≡ ok filter)
no_false_negatives_example =
    no_false_negatives by_length 20 2 ((1 ∷ []) ∷ (2 ∷ 2 ∷ []) ∷ []) (omega arith) (omega arith)
      (omega arith)

abbrev of_one : BloomFilter
of_one = insert_each by_length (with_size 20 2) ((1 ∷ []) ∷ [])

abbrev of_two : BloomFilter
of_two = insert_each by_length (with_size 20 2) ((2 ∷ 2 ∷ []) ∷ [])

contains-union_example :
    (filter_contains by_length of_one (2 ∷ 2 ∷ []) ≡ true
      → filter_contains by_length
          (record of_one { bits = or_bytes of_one.bits of_two.bits })
          (2 ∷ 2 ∷ [])
        ≡ true)
    × (2 ≤ 2
        → filter_contains by_length of_two (2 ∷ 2 ∷ []) ≡ true
        → filter_contains by_length
            (record of_one { bits = or_bytes of_one.bits of_two.bits })
            (2 ∷ 2 ∷ [])
          ≡ true)
unfolding with_size insert_each filter_insert insert_loop set_bit bit_index
contains-union_example =
    contains-union by_length of_one of_two
      (record of_one { bits = or_bytes of_one.bits of_two.bits }) (2 ∷ 2 ∷ [])
      (unfold filter_union in refl) refl
