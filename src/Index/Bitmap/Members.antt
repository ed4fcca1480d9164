-- ===== src/Index/Bitmap/Members.antt =====
-- The bitmap is the set of the numbers that it contains.
use chono_db.Prelude.{
  ℕ, zero, suc, ◌+◌, ◌-◌, ◌/◌, ◌%◌, ◌^◌, ◌≤◌, ◌<◌, leb, ◌≡◌, refl, sym, ap, ◌∙◌, List, [], ◌∷◌,
  ◌++◌, length, length-append, length-replicate, get_or, set, replicate, Bool-cases, inl, inr, ◌==◌,
  ==_iff, ◌&&◌, ◌||◌, arith, if◌then◌else◌,
}
use chono_db.Prelude.Bits.{bit_or}
use chono_db.Prelude.BitTest.{bit, bit-or, bit-and, bit_none, bit_one}
use chono_db.Index.Bitmap.{
  RoaringBitmap, resize_for, add, contains, and_words, or_words, intersection, union,
}

get_or-replicate : (n i : ℕ) → get_or {A = ℕ} (replicate n 0) i 0 ≡ 0
get_or-replicate zero i = refl
get_or-replicate (suc n) zero = refl
get_or-replicate (suc n) (suc i) = get_or-replicate n i

get_or-append : (xs : List ℕ) (n i : ℕ) → get_or (xs ++ replicate n 0) i 0 ≡ get_or xs i 0
get_or-append [] n i = get_or-replicate n i
get_or-append (x ∷ xs) n zero = refl
get_or-append (x ∷ xs) n (suc i) = get_or-append xs n i

pub get_or-set :
    (xs : List ℕ) (i j v : ℕ)
    → i < length xs
    → get_or (set xs i v) j 0 ≡ (if i == j then v else get_or xs j 0)
get_or-set [] i j v h = absurd (omega arith)
get_or-set (x ∷ xs) zero zero v h = refl
get_or-set (x ∷ xs) zero (suc j) v h = ground arith
get_or-set (x ∷ xs) (suc i) zero v h = ground arith
get_or-set (x ∷ xs) (suc i) (suc j) v h = get_or-set xs i j v (omega arith) ∙ ground arith

get_or_outside : (xs : List ℕ) (i : ℕ) → length xs ≤ i → get_or xs i 0 ≡ 0
get_or_outside [] i h = refl
get_or_outside (x ∷ xs) zero h = absurd (omega arith)
get_or_outside (x ∷ xs) (suc i) h = get_or_outside xs i (omega arith)

-- The test of the length does not matter: a missing word is 0.
pub contains-bit :
    (b : RoaringBitmap) (w : ℕ) → contains b w ≡ bit (get_or b.bits (w / 64) 0) (w % 64)
unfolding contains
contains-bit b w = elim (Bool-cases (leb (length b.bits) (w / 64))) [
  | inl e ↦ rw (e, get_or_outside b.bits (w / 64) (ground (arith, e))) (sym (bit_none (w % 64)))
  | inr e ↦ rw e refl
]

get_or-resize_for : (xs : List ℕ) (i j : ℕ) → get_or (resize_for xs i) j 0 ≡ get_or xs j 0
unfolding resize_for
get_or-resize_for xs i j = elim (Bool-cases (leb (length xs) i)) [
  | inl e ↦ rw e (get_or-append xs (i + 1 - length xs) j)
  | inr e ↦ rw e refl
]

length-resize_for : (xs : List ℕ) (i : ℕ) → i < length (resize_for xs i)
unfolding resize_for
length-resize_for xs i = elim (Bool-cases (leb (length xs) i)) [
  | inl e ↦ rw e (
      ground (
        arith,
        e,
        length-append xs (replicate (i + 1 - length xs) 0),
        length-replicate {A = ℕ} (i + 1 - length xs) 0,
      ))
  | inr e ↦ rw e (ground (arith, e))
]

-- Adding a number to a bitmap adds it and no other.
pub contains-add : (b : RoaringBitmap) (v w : ℕ) → contains (add b v) w ≡ (v == w) || contains b w
unfolding add
contains-add b v w =
    let index = v / 64 in
    let bits = resize_for b.bits index in
    let word = bit_or (get_or bits index 0) (2 ^ (v % 64)) in
    contains-bit (add b v) w
    ∙ ap (λ x. bit x (w % 64))
        (get_or-set bits index (w / 64) word (length-resize_for b.bits index))
    ∙ elim (Bool-cases (index == w / 64)) [
      | inl e ↦
          let same : index ≡ w / 64 = (==_iff index (w / 64)).0 e in
          rw e (
            bit-or (w % 64) (get_or bits index 0) (2 ^ (v % 64))
            ∙ ground (
              arith,
              bit_one (v % 64) (w % 64),
              same,
              ap (λ x. bit x (w % 64)) (get_or-resize_for b.bits index (w / 64)),
              ap (λ x. bit (get_or bits x 0) (w % 64)) same,
              contains-bit b w,
            ))
      | inr e ↦ rw e (
          ap (λ x. bit x (w % 64)) (get_or-resize_for b.bits index (w / 64))
          ∙ sym (contains-bit b w)
          ∙ ground (arith, e))
    ]

get_or-and_words :
    (xs ys : List ℕ) (i k : ℕ)
    → bit (get_or (and_words xs ys) i 0) k ≡ bit (get_or xs i 0) k && bit (get_or ys i 0) k
unfolding and_words
get_or-and_words [] ys i k = ground (arith, bit_none k)
get_or-and_words (x ∷ xs) [] i k = ground (arith, bit_none k)
get_or-and_words (x ∷ xs) (y ∷ ys) zero k = bit-and k x y
get_or-and_words (x ∷ xs) (y ∷ ys) (suc i) k = get_or-and_words xs ys i k

get_or-or_words :
    (xs ys : List ℕ) (i k : ℕ)
    → bit (get_or (or_words xs ys) i 0) k ≡ bit (get_or xs i 0) k || bit (get_or ys i 0) k
unfolding or_words
get_or-or_words [] [] i k = ground (arith, bit_none k)
get_or-or_words [] (y ∷ ys) zero k = bit-or k 0 y
get_or-or_words [] (y ∷ ys) (suc i) k = get_or-or_words [] ys i k
get_or-or_words (x ∷ xs) [] zero k = bit-or k x 0
get_or-or_words (x ∷ xs) [] (suc i) k = get_or-or_words xs [] i k
get_or-or_words (x ∷ xs) (y ∷ ys) zero k = bit-or k x y
get_or-or_words (x ∷ xs) (y ∷ ys) (suc i) k = get_or-or_words xs ys i k

-- The intersection contains what both bitmaps contain, and the union what one of them contains.
pub contains-and-or :
    (a b : RoaringBitmap) (w : ℕ)
    → (contains (intersection a b) w ≡ contains a w && contains b w)
      × (contains (union a b) w ≡ contains a w || contains b w)
unfolding intersection union
contains-and-or a b w =
    let left = contains-bit a w in
    let right = contains-bit b w in
    (
      contains-bit (intersection a b) w
          ∙ rw (left, right) (get_or-and_words a.bits b.bits (w / 64) (w % 64)),
      contains-bit (union a b) w
          ∙ rw (left, right) (get_or-or_words a.bits b.bits (w / 64) (w % 64)),
    )
