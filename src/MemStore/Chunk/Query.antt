-- ===== src/MemStore/Chunk/Query.antt =====
-- A range query over a chunk that was filled in any order.
use chono_db.Prelude.{◌≡◌, refl, ap, ◌∙◌, List, [], ◌∷◌, map, filter, Bool, Bool-cases, inl, inr}
use chono_db.Prelude.Int.{ℤ, ltb_ℤ}
use chono_db.Prelude.Sort.{
  insert_by, insert_each, sort_by, IsSorted, insert_by-IsSorted, filter-insert_by,
}
use chono_db.Model.{Timestamp, Sample, in_range}
use chono_db.MemStore.Chunk.{Chunk, new, add, add_all, as_sample, samples_in_range}
use chono_db.MemStore.Chunk.Order.{Pair, time, pairs, IsChunk, new-IsChunk, pairs-add, add-IsChunk}

-- Sorting keeps its place under a map that keeps the key, and under a filter.
module _ {ℓ κ} {A : Type ℓ} {B : Type κ} (key : A → ℤ) (key' : B → ℤ) (f : A → B) where
  pub map-insert_by :
      ((x : A) → key' (f x) ≡ key x)
      → (x : A) (xs : List A) → map f (insert_by key x xs) ≡ insert_by key' (f x) (map f xs)
  unfolding insert_by
  map-insert_by same x [] = refl
  map-insert_by same x (y ∷ ys) = elim (Bool-cases (ltb_ℤ (key x) (key y))) [
    | inl e ↦ rw (same x, same y) (rw e refl)
    | inr e ↦ rw (same x, same y) (rw e (ap (λ rest. f y ∷ rest) (map-insert_by same x ys)))
  ]

  pub map-insert_each :
      ((x : A) → key' (f x) ≡ key x)
      → (front xs : List A)
      → map f (insert_each key front xs) ≡ insert_each key' (map f front) (map f xs)
  unfolding insert_each
  map-insert_each same front [] = refl
  map-insert_each same front (x ∷ xs) =
      map-insert_each same (insert_by key x front) xs
      ∙ ap (λ front'. insert_each key' front' (map f xs)) (map-insert_by same x front)

  pub map-sort_by :
      ((x : A) → key' (f x) ≡ key x)
      → (xs : List A) → map f (sort_by key xs) ≡ sort_by key' (map f xs)
  unfolding sort_by
  map-sort_by same xs = map-insert_each same [] xs

module _ {ℓ} {A : Type ℓ} (key : A → ℤ) (p : A → Bool) where
  filter-insert_each :
      (front xs : List A)
      → IsSorted key front
      → filter p (insert_each key front xs) ≡ insert_each key (filter p front) (filter p xs)
  unfolding insert_each
  filter-insert_each front [] h = refl
  filter-insert_each front (x ∷ xs) h =
      filter-insert_each (insert_by key x front) xs (insert_by-IsSorted key x front h)
      ∙ elim (Bool-cases (p x)) [
        | inl e ↦ rw (filter-insert_by key p x front h, e) refl
        | inr e ↦ rw (filter-insert_by key p x front h, e) refl
      ]

  pub filter-sort_by : (xs : List A) → filter p (sort_by key xs) ≡ sort_by key (filter p xs)
  unfolding sort_by
  filter-sort_by xs = filter-insert_each [] xs (unfold IsSorted in tt)

abbrev pub as_pair : Sample → Pair
as_pair s = (s.timestamp, s.value)

pub add_all-pairs :
    (c : Chunk) (ss : List Sample)
    → IsChunk c
    → IsChunk (add_all c ss) × (pairs (add_all c ss) ≡ insert_each time (pairs c) (map as_pair ss))
unfolding add_all insert_each
add_all-pairs c [] h = (h, refl)
add_all-pairs c (s ∷ ss) h =
    let (kept, after) = add_all-pairs (add c s) ss (add-IsChunk c s h) in
    (kept, after ∙ ap (λ ps. insert_each time ps (map as_pair ss)) (pairs-add c s h))

pub time-as_sample : (p : Pair) → (as_sample p).timestamp ≡ time p
unfolding as_sample
time-as_sample p = refl

pub filter-map_time :
    (start stop : Timestamp) (ss : List Sample)
    → map as_sample (filter (λ p. in_range start stop p.0) (map as_pair ss))
      ≡ filter (λ s. in_range start stop s.timestamp) ss
unfolding as_sample
filter-map_time start stop [] = refl
filter-map_time start stop (s ∷ ss) = elim (Bool-cases (in_range start stop s.timestamp)) [
  | inl e ↦ rw e (ap (λ rest. s ∷ rest) (filter-map_time start stop ss))
  | inr e ↦ rw e (filter-map_time start stop ss)
]

pub add_all-new : (ss : List Sample) → pairs (add_all new ss) ≡ sort_by time (map as_pair ss)
unfolding new sort_by
add_all-new ss = (add_all-pairs new ss new-IsChunk).1

-- A range query on a chunk that samples were added to in any order returns the samples of the range
-- in the order of time, and those of one time in the order in which they were added.
pub samples_in_range-add_all :
    (start stop : Timestamp) (ss : List Sample)
    → samples_in_range (add_all new ss) start stop
      ≡ sort_by (λ s. s.timestamp) (filter (λ s. in_range start stop s.timestamp) ss)
unfolding samples_in_range
samples_in_range-add_all start stop ss =
    let kept : Pair → Bool = λ p. in_range start stop p.0 in
    ap (λ ps. map as_sample (filter kept ps)) (add_all-new ss)
    ∙ ap (map as_sample) (filter-sort_by time kept (map as_pair ss))
    ∙ map-sort_by time (λ (s : Sample). s.timestamp) as_sample time-as_sample
        (filter kept (map as_pair ss))
    ∙ ap (sort_by (λ s. s.timestamp)) (filter-map_time start stop ss)
