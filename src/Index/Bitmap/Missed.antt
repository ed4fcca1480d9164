-- ===== src/Index/Bitmap/Missed.antt =====
-- What `not` and the not-equal queries miss.
use chono_db.Prelude.{
  ℕ, zero, suc, ◌+◌, ◌-◌, ◌/◌, ◌%◌, ◌^◌, ◌<◌, ◌≡◌, refl, ap, ◌∙◌, List, [], ◌∷◌, length, get_or,
  String, true, false, ◌&&◌, ◌==◌, ==_iff, arith,
}
use chono_db.Prelude.Bits.{bit_and}
use chono_db.Prelude.BitTest.{bit, bit-and, bit_none}
use chono_db.Index.Bitmap.{
  RoaringBitmap, BitmapIndex, not_words, complement, contains, query_equal, get_all_series,
  query_not_equal,
}
use chono_db.Index.Bitmap.Members.{get_or-set, contains-bit, contains-and-or}

length-not_words : (n : ℕ) (ws : List ℕ) → length (not_words n ws) ≡ n
unfolding not_words
length-not_words zero ws = refl
length-not_words (suc n) [] = ap suc (length-not_words n [])
length-not_words (suc n) (w ∷ ws) = ap suc (length-not_words n ws)

no_bit : (x k m : ℕ) → m ≡ 0 → bit (bit_and x m) k ≡ false
no_bit x k m e = bit-and k x m ∙ ap (λ y. bit x k && bit y k) e ∙ ground (arith, bit_none k)

empty_mask : (m : ℕ) → m % 64 ≡ 63 → 2 ^ ((m % 64 + 1) % 64) - 1 ≡ 0
empty_mask m e = rw e refl

-- Where the greatest number is the last one of its word, `not` contains no number of that word.
pub complement_misses :
    (b : RoaringBitmap) (m w : ℕ)
    → m % 64 ≡ 63
    → m / 64 ≡ w / 64
    → contains (complement b m) w ≡ false
unfolding complement
complement_misses b m w last same =
    let words = not_words (m / 64 + 1) b.bits in
    let mask = 2 ^ ((m % 64 + 1) % 64) - 1 in
    let inside : m / 64 < length words = omega (arith, length-not_words (m / 64 + 1) b.bits) in
    let here : (m / 64 == w / 64) ≡ true = (==_iff (m / 64) (w / 64)).1 same in
    contains-bit (complement b m) w
    ∙ ap (λ x. bit x (w % 64))
        (get_or-set words (m / 64) (w / 64) (bit_and (get_or words (m / 64) 0) mask) inside)
    ∙ rw here (no_bit (get_or words (m / 64) 0) (w % 64) mask (empty_mask m last))

-- A not-equal query on an index whose count of series is below 2^32 and leaves 63 modulo 64 finds
-- none of the series in the word that the count falls into, whatever their labels.
pub query_not_equal_misses :
    (ix : BitmapIndex) (name value : String) (w : ℕ)
    → ix.series_count < 2 ^ 32
    → ix.series_count % 64 ≡ 63
    → ix.series_count / 64 ≡ w / 64
    → contains (query_not_equal ix name value) w ≡ false
unfolding query_not_equal
query_not_equal_misses ix name value w few last same =
    let whole : ix.series_count % 2 ^ 32 ≡ ix.series_count = omega (arith, few) in
    let missed = complement_misses (query_equal ix name value) ix.series_count w last same in
    rw whole (
      (contains-and-or (get_all_series ix) (complement (query_equal ix name value) ix.series_count)
        w).0
      ∙ rw missed (ground arith))
