-- ===== src/MemStore/Chunk/Order.antt =====
-- The samples of a chunk are sorted by time whatever the order they were added in.
use chono_db.Prelude.{
  ◌≡◌, refl, sym, ap, ◌∙◌, List, [], ◌∷◌, ◌++◌, length, length-append, zip, zip-append, zip-map,
  length-map, ◌==◌, true, false, Bool-cases, inl, inr, not, ◌&&◌, arith,
}
use chono_db.Prelude.Int.{ℤ, ltb_ℤ, ◌≤ℤ◌}
use chono_db.Prelude.Sort.{
  insert_by, sort_by, IsSorted, IsUpTo, insert_by-IsSorted, insert_by_last, sort_by_last,
  sort_by_sorted,
}
use chono_db.Model.{Timestamp, F64, Sample}
use chono_db.MemStore.Chunk.{
  Chunk, new, push, add, sort_by_timestamp, is_empty, min_ℤ, max_ℤ, greatest, least,
}

abbrev pub Pair : Type 0
Pair = Timestamp × F64

abbrev pub time : Pair → ℤ
time p = p.0

abbrev pub pairs : Chunk → List Pair
pairs c = zip c.timestamps c.values

-- The least timestamp, if it is below `b`, and the greatest above `b`.
unfoldable pub lowest : ℤ → List Pair → ℤ
lowest b [] = b
lowest b (p ∷ ps) = min_ℤ (lowest b ps) (time p)

unfoldable pub highest : ℤ → List Pair → ℤ
highest b [] = b
highest b (p ∷ ps) = max_ℤ (highest b ps) (time p)

-- The columns of a chunk go together and are sorted, and its bounds are those of its timestamps.
pub record IsChunk (c : Chunk) : Type 0 where
  pub paired : length c.timestamps ≡ length c.values
  pub sorted : IsSorted time (pairs c)
  pub lower : c.min_timestamp ≡ lowest greatest (pairs c)
  pub upper : c.max_timestamp ≡ highest least (pairs c)

pub new-IsChunk : IsChunk new
unfolding new IsSorted lowest highest
new-IsChunk = record { paired = refl; sorted = tt; lower = refl; upper = refl }

min_ℤ_swap : (a b c : ℤ) → min_ℤ (min_ℤ a b) c ≡ min_ℤ (min_ℤ a c) b
min_ℤ_swap a b c = ground arith

max_ℤ_swap : (a b c : ℤ) → max_ℤ (max_ℤ a b) c ≡ max_ℤ (max_ℤ a c) b
max_ℤ_swap a b c = ground arith

lowest-insert_by :
    (b : ℤ) (p : Pair) (ps : List Pair)
    → lowest b (insert_by time p ps) ≡ min_ℤ (lowest b ps) (time p)
unfolding lowest insert_by
lowest-insert_by b p [] = refl
lowest-insert_by b p (q ∷ qs) = elim (Bool-cases (ltb_ℤ (time p) (time q))) [
  | inl e ↦ rw e refl
  | inr e ↦ rw (e, lowest-insert_by b p qs) (min_ℤ_swap (lowest b qs) (time p) (time q))
]

highest-insert_by :
    (b : ℤ) (p : Pair) (ps : List Pair)
    → highest b (insert_by time p ps) ≡ max_ℤ (highest b ps) (time p)
unfolding highest insert_by
highest-insert_by b p [] = refl
highest-insert_by b p (q ∷ qs) = elim (Bool-cases (ltb_ℤ (time p) (time q))) [
  | inl e ↦ rw e refl
  | inr e ↦ rw (e, highest-insert_by b p qs) (max_ℤ_swap (highest b qs) (time p) (time q))
]

max_ℤ_bound : (a b c : ℤ) → max_ℤ a b ≤ℤ c → (a ≤ℤ c) × (b ≤ℤ c)
max_ℤ_bound a b c h = ground arith

IsUpTo-highest : (b : ℤ) (p : Pair) (ps : List Pair) → highest b ps ≤ℤ time p → IsUpTo time ps p
unfolding highest IsUpTo
IsUpTo-highest b p [] h = tt
IsUpTo-highest b p (q ∷ qs) h =
    let (rest, first) = max_ℤ_bound (highest b qs) (time q) (time p) h in
    (first, IsUpTo-highest b p qs rest)

pairs-push :
    (c : Chunk) (s : Sample)
    → length c.timestamps ≡ length c.values
    → pairs (push c s) ≡ pairs c ++ ((s.timestamp, s.value) ∷ [])
unfolding push
pairs-push c s h = zip-append c.timestamps (s.timestamp ∷ []) c.values (s.value ∷ []) h

pairs-sort_by_timestamp : (c : Chunk) → pairs (sort_by_timestamp c) ≡ sort_by time (pairs c)
unfolding sort_by_timestamp
pairs-sort_by_timestamp c = zip-map (sort_by time (pairs c))

pairs_empty : (c : Chunk) → is_empty c ≡ true → pairs c ≡ []
unfolding is_empty
pairs_empty c h = empty c.timestamps c.values h
  where
    empty : (ts : List Timestamp) (vs : List F64) → (length ts == 0) ≡ true → zip ts vs ≡ []
    empty [] vs h = refl
    empty (t ∷ ts) vs h = ground arith

last_pair :
    (c : Chunk) (s : Sample)
    → IsChunk c
    → (not (is_empty c) && not (ltb_ℤ c.max_timestamp s.timestamp)) ≡ false
    → IsUpTo time (pairs c) (s.timestamp, s.value)
last_pair c s h e = elim (Bool-cases (is_empty c)) [
  | inl none_yet ↦ rw (pairs_empty c none_yet) (unfold IsUpTo in tt)
  | inr some_yet ↦
      let above : c.max_timestamp ≤ℤ s.timestamp = ground arith in
      IsUpTo-highest least (s.timestamp, s.value) (pairs c) (rw (← h.upper) above)
]

length-push :
    (c : Chunk) (s : Sample)
    → length c.timestamps ≡ length c.values
    → length (push c s).timestamps ≡ length (push c s).values
unfolding push
length-push c s h =
    omega
      (arith, length-append c.timestamps (s.timestamp ∷ []), length-append c.values (s.value ∷ []))

length-sort_by_timestamp :
    (c : Chunk) → length (sort_by_timestamp c).timestamps ≡ length (sort_by_timestamp c).values
unfolding sort_by_timestamp
length-sort_by_timestamp c =
    length-map (sort_by time (pairs c)) (λ p. p.0)
    ∙ sym (length-map (sort_by time (pairs c)) (λ p. p.1))

-- In each branch `add` puts the sample behind those that are not later.
pub pairs-add :
    (c : Chunk) (s : Sample)
    → IsChunk c
    → pairs (add c s) ≡ insert_by time (s.timestamp, s.value) (pairs c)
unfolding add
pairs-add c s h = elim (Bool-cases (not (is_empty c) && not (ltb_ℤ c.max_timestamp s.timestamp))) [
  | inl e ↦ rw e (
      pairs-sort_by_timestamp (push c s)
      ∙ ap (sort_by time) (pairs-push c s h.paired)
      ∙ sort_by_last time (pairs c) (s.timestamp, s.value)
      ∙ ap (insert_by time (s.timestamp, s.value)) (sort_by_sorted time (pairs c) h.sorted))
  | inr e ↦ rw e (
      pairs-push c s h.paired
      ∙ sym (insert_by_last time (s.timestamp, s.value) (pairs c) (last_pair c s h e)))
]

length-add :
    (c : Chunk) (s : Sample) → IsChunk c → length (add c s).timestamps ≡ length (add c s).values
unfolding add
length-add c s h = elim (Bool-cases (not (is_empty c) && not (ltb_ℤ c.max_timestamp s.timestamp))) [
  | inl e ↦ rw e (length-sort_by_timestamp (push c s))
  | inr e ↦ rw e (length-push c s h.paired)
]

bounds-add :
    (c : Chunk) (s : Sample)
    → ((add c s).min_timestamp ≡ min_ℤ c.min_timestamp s.timestamp)
      × ((add c s).max_timestamp ≡ max_ℤ c.max_timestamp s.timestamp)
unfolding add sort_by_timestamp push
bounds-add c s = elim (Bool-cases (not (is_empty c) && not (ltb_ℤ c.max_timestamp s.timestamp))) [
  | inl e ↦ rw e (refl, refl)
  | inr e ↦ rw e (refl, refl)
]

pub add-IsChunk : (c : Chunk) (s : Sample) → IsChunk c → IsChunk (add c s)
add-IsChunk c s h = record {
  paired = length-add c s h;
  sorted = rw (pairs-add c s h) (insert_by-IsSorted time (s.timestamp, s.value) (pairs c) h.sorted);
  lower =
      (bounds-add c s).0
      ∙ ap (λ m. min_ℤ m s.timestamp) h.lower
      ∙ sym (lowest-insert_by greatest (s.timestamp, s.value) (pairs c))
      ∙ ap (lowest greatest) (sym (pairs-add c s h));
  upper =
      (bounds-add c s).1
      ∙ ap (λ m. max_ℤ m s.timestamp) h.upper
      ∙ sym (highest-insert_by least (s.timestamp, s.value) (pairs c))
      ∙ ap (highest least) (sym (pairs-add c s h));
}
