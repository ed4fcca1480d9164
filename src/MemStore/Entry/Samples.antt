-- ===== src/MemStore/Entry/Samples.antt =====
-- Freezing chunks loses and doubles no sample of a series.
use chono_db.Prelude.{
  ◌+◌, ◌*◌, ◌≤◌, ◌≡◌, ◌⊎◌, All-append, refl, sym, ap, ◌∙◌, List, [], ◌∷◌, ◌++◌, map, length,
  length-append, length-zip, filter, count, count-append, append-nil, append_assoc, ◌<◌, Bool, true,
  false, Bool-cases, inl, inr, ◌&&◌, leb, All, arith, if◌then◌else◌,
}
use chono_db.Prelude.Sort.{count-insert_by, length-insert_by}
use chono_db.Model.{Timestamp, Sample, Labels, in_range}
use chono_db.MemStore.Chunk.{Chunk, is_full, len, as_sample, add as add_to_chunk}
use chono_db.MemStore.Chunk.{new as new_chunk, samples_in_range as chunk_range}
use chono_db.MemStore.Chunk.Order.{Pair, time, pairs, IsChunk, new-IsChunk, pairs-add, add-IsChunk}
use chono_db.MemStore.Entry.{
  TimeSeriesEntry, new, freeze, add_sample, add_samples, frozen_range, samples_in_range,
}

-- A sample counts when it is in the range and passes the test.
abbrev pub counted : (Sample → Bool) → Timestamp → Timestamp → Sample → Bool
counted p start stop s = in_range start stop s.timestamp && p s

count-chunk :
    (p : Sample → Bool) (start stop : Timestamp) (c : Chunk)
    → count p (chunk_range c start stop) ≡ count (λ q. counted p start stop (as_sample q)) (pairs c)
unfolding chunk_range as_sample
count-chunk p start stop c = over (pairs c)
  where
    over :
        (ps : List Pair)
        → count p (map as_sample (filter (λ q. in_range start stop q.0) ps))
          ≡ count (λ q. counted p start stop (as_sample q)) ps
    over [] = refl
    over (q ∷ qs) = elim (Bool-cases (in_range start stop q.0)) [
      | inl e ↦ rw e (ap (λ n. (if p (as_sample q) then 1 else 0) + n) (over qs))
      | inr e ↦ rw e (omega (arith, over qs))
    ]

count-chunk-add :
    (p : Sample → Bool) (start stop : Timestamp) (c : Chunk) (s : Sample)
    → IsChunk c
    → count p (chunk_range (add_to_chunk c s) start stop)
      ≡ (if counted p start stop s then 1 else 0) + count p (chunk_range c start stop)
count-chunk-add p start stop c s h =
    let test : Pair → Bool = λ q. counted p start stop (as_sample q) in
    count-chunk p start stop (add_to_chunk c s)
    ∙ ap (count test) (pairs-add c s h)
    ∙ count-insert_by time test (s.timestamp, s.value) (pairs c)
    ∙ unfold as_sample in
      ap (λ n. (if counted p start stop s then 1 else 0) + n) (sym (count-chunk p start stop c))

pub len-add : (c : Chunk) (s : Sample) → IsChunk c → len (add_to_chunk c s) ≡ len c + 1
unfolding len
len-add c s h =
    let after = add-IsChunk c s h in
    sym (length-zip (add_to_chunk c s).timestamps (add_to_chunk c s).values after.paired)
    ∙ ap length (pairs-add c s h)
    ∙ length-insert_by time (s.timestamp, s.value) (pairs c)
    ∙ ap (λ n. n + 1) (length-zip c.timestamps c.values h.paired)

-- The frozen chunks hold 120 samples each, the current one at most as many, and the count of the
-- samples is right.
pub record IsEntry (entry : TimeSeriesEntry) : Type 0 where
  pub frozen : All (λ c. IsChunk c × (len c ≡ 120)) entry.frozen_chunks
  pub current : IsChunk entry.current_chunk
  pub not_over : len entry.current_chunk ≤ 120
  pub total : entry.total_samples ≡ 120 * length entry.frozen_chunks + len entry.current_chunk

frozen_range-append :
    (cs ds : List Chunk) (start stop : Timestamp)
    → frozen_range (cs ++ ds) start stop ≡ frozen_range cs start stop ++ frozen_range ds start stop
unfolding frozen_range
frozen_range-append [] ds start stop = refl
frozen_range-append (c ∷ cs) ds start stop =
    ap (λ rest. chunk_range c start stop ++ rest) (frozen_range-append cs ds start stop)
    ∙ sym (
        append_assoc (chunk_range c start stop) (frozen_range cs start stop)
          (frozen_range ds start stop))

empty_chunk : (start stop : Timestamp) → chunk_range new_chunk start stop ≡ []
unfolding chunk_range new_chunk
empty_chunk start stop = refl

-- Freezing changes no answer.
samples_in_range-freeze :
    (entry : TimeSeriesEntry) (start stop : Timestamp)
    → samples_in_range (freeze entry) start stop ≡ samples_in_range entry start stop
unfolding samples_in_range freeze
samples_in_range-freeze entry start stop = elim (Bool-cases (is_full entry.current_chunk)) [
  | inl e ↦
      rw (e, empty_chunk start stop)
        (append-nil _
          ∙ frozen_range-append entry.frozen_chunks (entry.current_chunk ∷ []) start stop
          ∙ ap (λ rest. frozen_range entry.frozen_chunks start stop ++ rest)
              (unfold frozen_range in append-nil (chunk_range entry.current_chunk start stop)))
  | inr e ↦ rw e refl
]

len_new : len new_chunk ≡ 0
unfolding len new_chunk
len_new = refl

full_or_room :
    (c : Chunk) → ((is_full c ≡ true) × (120 ≤ len c)) ⊎ ((is_full c ≡ false) × (len c < 120))
unfolding is_full len
full_or_room c = elim (Bool-cases (leb 120 (length c.timestamps))) [
  | inl e ↦ inl (e, ground arith)
  | inr e ↦ inr (e, ground arith)
]

freeze-IsEntry :
    (entry : TimeSeriesEntry)
    → IsEntry entry
    → IsEntry (freeze entry) × (len (freeze entry).current_chunk < 120)
unfolding freeze
freeze-IsEntry entry h = elim (full_or_room entry.current_chunk) [
  | inl (e, full) ↦
      let exact : len entry.current_chunk ≡ 120 = omega (arith, full, h.not_over) in
      rw e (
        record {
          frozen =
              All-append _ entry.frozen_chunks (entry.current_chunk ∷ []) h.frozen
                ((h.current, exact), tt);
          current = new-IsChunk;
          not_over = omega (arith, len_new);
          total = omega (
            arith,
            exact,
            h.total,
            len_new,
            length-append entry.frozen_chunks (entry.current_chunk ∷ []),
          );
        },
        omega (arith, len_new),
      )
  | inr (e, room) ↦ rw e (h, room)
]

pub add_sample-IsEntry :
    (entry : TimeSeriesEntry) (s : Sample) → IsEntry entry → IsEntry (add_sample entry s)
unfolding add_sample
add_sample-IsEntry entry s h =
    let (ready, room) = freeze-IsEntry entry h in
    let longer = len-add (freeze entry).current_chunk s ready.current in
    record {
      frozen = ready.frozen;
      current = add-IsChunk (freeze entry).current_chunk s ready.current;
      not_over = omega (arith, longer);
      total = omega (arith, longer, ready.total);
    }

pub count-add_sample :
    (p : Sample → Bool) (start stop : Timestamp) (entry : TimeSeriesEntry) (s : Sample)
    → IsEntry entry
    → count p (samples_in_range (add_sample entry s) start stop)
      ≡ (if counted p start stop s then 1 else 0) + count p (samples_in_range entry start stop)
unfolding samples_in_range add_sample
count-add_sample p start stop entry s h =
    let (ready, room) = freeze-IsEntry entry h in
    let chunk = count-chunk-add p start stop (freeze entry).current_chunk s ready.current in
    let before = frozen_range (freeze entry).frozen_chunks start stop in
    count-append p before (chunk_range (add_to_chunk (freeze entry).current_chunk s) start stop)
    ∙ omega
        (arith, chunk, count-append p before (chunk_range (freeze entry).current_chunk start stop))
    ∙ ap (λ ss. (if counted p start stop s then 1 else 0) + count p ss)
        (samples_in_range-freeze entry start stop)

total_samples-add_sample :
    (entry : TimeSeriesEntry) (s : Sample)
    → (add_sample entry s).total_samples ≡ entry.total_samples + 1
unfolding add_sample freeze
total_samples-add_sample entry s = ground arith

pub new-IsEntry : (labels : Labels) → IsEntry (new labels)
unfolding new
new-IsEntry labels = record {
  frozen = tt;
  current = new-IsChunk;
  not_over = omega (arith, len_new);
  total = omega (arith, len_new);
}

pub count-add_samples :
    (p : Sample → Bool) (start stop : Timestamp) (entry : TimeSeriesEntry) (ss : List Sample)
    → IsEntry entry
    → IsEntry (add_samples entry ss)
      × (count p (samples_in_range (add_samples entry ss) start stop)
          ≡ count (counted p start stop) ss + count p (samples_in_range entry start stop))
unfolding add_samples
count-add_samples p start stop entry [] h = (h, omega arith)
count-add_samples p start stop entry (s ∷ ss) h =
    let (kept, rest) =
      count-add_samples p start stop (add_sample entry s) ss (add_sample-IsEntry entry s h) in
    (kept, omega (arith, rest, count-add_sample p start stop entry s h))

pub samples_in_range-new :
    (labels : Labels) (start stop : Timestamp) → samples_in_range (new labels) start stop ≡ []
unfolding samples_in_range new frozen_range
samples_in_range-new labels start stop = empty_chunk start stop

-- A range query on a series that samples were added to returns each of those that lie in the range
-- as often as it was added, and nothing else: as many pass any test as passed it of the added ones.
pub samples_in_range-add_samples :
    (p : Sample → Bool) (start stop : Timestamp) (labels : Labels) (ss : List Sample)
    → count p (samples_in_range (add_samples (new labels) ss) start stop)
      ≡ count (λ s. in_range start stop s.timestamp && p s) ss
samples_in_range-add_samples p start stop labels ss =
    (count-add_samples p start stop (new labels) ss (new-IsEntry labels)).1
    ∙ omega (arith, ap (count p) (samples_in_range-new labels start stop))

-- The number that a series keeps of its samples is that of the samples that were added to it.
pub total_samples-add_samples :
    (entry : TimeSeriesEntry) (ss : List Sample)
    → (add_samples entry ss).total_samples ≡ entry.total_samples + length ss
unfolding add_samples
total_samples-add_samples entry [] = omega arith
total_samples-add_samples entry (s ∷ ss) =
    omega
      (arith, total_samples-add_samples (add_sample entry s) ss, total_samples-add_sample entry s)
