-- ===== src/MemStore/Store/Steps.antt =====
-- What the parts of a write change: making the series, and adding the samples.
use chono_db.Prelude.{
  ◌+◌, ==_iff, ◌≡◌, ◌≢◌, leb, length, refl, sym, ap, ◌∙◌, subst, List, [], ◌∷◌, count, Bool, true,
  false, none, some, Option-cases, Bool-cases, inl, inr, arith,
}
use chono_db.Prelude.Assoc.{number_key, lookup, insert, lookup-insert}
use chono_db.Prelude.Sort.{insert_by, insert_each, sort_by, count-insert_by}
use chono_db.Error.{Result, ok, err, stuck, storage_full}
use chono_db.Model.{Timestamp, TimeSeriesId, Labels, Sample}
use chono_db.MemStore.Entry.{TimeSeriesEntry, add_samples, samples_in_range, new as new_entry}
use chono_db.MemStore.Entry.{add_sample as add_to_entry}
use chono_db.MemStore.Entry.Samples.{samples_in_range-new}
use chono_db.MemStore.Head.{HeadBlock, add_sample, add_series, get_or_create_series, query}
use chono_db.MemStore.Head.Invariant.{IsHead, with_series, add_sample-IsHead}
use chono_db.MemStore.Store.{add_each}

-- What a query finds, nothing where there is no series.
unfoldable pub answer : HeadBlock → TimeSeriesId → Timestamp → Timestamp → List Sample
answer head i start stop = elim (query head i start stop) [ none ↦ [] | some ss ↦ ss ]

add_sample-some :
    (head : HeadBlock) (i : TimeSeriesId) (entry : TimeSeriesEntry) (s : Sample)
    → lookup i head.series ≡ some entry
    → add_sample head i s
      ≡ (ok tt, record head { series = insert i (add_to_entry entry s) head.series })
unfolding add_sample
add_sample-some head i entry s e = rw (add_sample, e) refl

add_each-cons :
    (head : HeadBlock) (i : TimeSeriesId) (entry : TimeSeriesEntry) (s : Sample) (ss : List Sample)
    → lookup i head.series ≡ some entry
    → add_each head i (s ∷ ss)
      ≡ add_each (record head { series = insert i (add_to_entry entry s) head.series }) i ss
unfolding add_each
add_each-cons head i entry s ss e =
    ap
      (λ (r : Result (Unit {0}) × HeadBlock). elim r.0 [
        | ok _ ↦ add_each r.1 i ss
        | err x ↦ (err x, r.1)
        | stuck ↦ (stuck, r.1)
      ])
      (add_sample-some head i entry s e)

-- The block after the samples of one series were added.
pub record Added (head head' : HeadBlock) (i : TimeSeriesId) (entry : TimeSeriesEntry)
    (ss : List Sample) : Type 0 where
  pub here : lookup i head'.series ≡ some (add_samples entry ss)
  pub elsewhere : (j : TimeSeriesId) → i ≢ j → lookup j head'.series ≡ lookup j head.series
  pub kept : IsHead head'

pub add_each-Added :
    (head : HeadBlock) (i : TimeSeriesId) (entry : TimeSeriesEntry) (ss : List Sample)
    → IsHead head
    → lookup i head.series ≡ some entry
    → (head' : HeadBlock) × (add_each head i ss ≡ (ok tt, head')) × Added head head' i entry ss
unfolding add_each add_samples
add_each-Added head i entry [] h e =
    (head, refl, record { here = e; elsewhere = λ j ne. refl; kept = h })
add_each-Added head i entry (s ∷ ss) h e =
    let next = record head { series = insert i (add_to_entry entry s) head.series } in
    let one = add_sample-some head i entry s e in
    let there : lookup i next.series ≡ some (add_to_entry entry s) =
      lookup-insert i i (add_to_entry entry s) head.series ∙ ground (arith, ==_iff i i) in
    let well : IsHead next = subst (λ r. IsHead r.1) one (add_sample-IsHead head i s h) in
    let (head', same, rest) = add_each-Added next i (add_to_entry entry s) ss well there in
    (
      head',
      add_each-cons head i entry s ss e ∙ same,
      record {
        here = rest.here;
        elsewhere = λ j ne.
            rest.elsewhere j ne
            ∙ lookup-insert i j (add_to_entry entry s) head.series
            ∙ ground (arith, ==_iff i j, ne);
        kept = rest.kept;
      },
    )

count-insert_each :
    (p : Sample → Bool) (front ss : List Sample)
    → count p (insert_each (λ s. s.timestamp) front ss) ≡ count p front + count p ss
unfolding insert_each
count-insert_each p front [] = omega arith
count-insert_each p front (s ∷ ss) = omega (
  arith,
  count-insert_each p (insert_by (λ (x : Sample). x.timestamp) s front) ss,
  count-insert_by (λ (x : Sample). x.timestamp) p s front,
)

pub count-sort_by :
    (p : Sample → Bool) (ss : List Sample) → count p (sort_by (λ s. s.timestamp) ss) ≡ count p ss
unfolding sort_by
count-sort_by p ss = omega (arith, count-insert_each p [] ss)

pub found :
    (id_of : Labels → TimeSeriesId) (head : HeadBlock) (labels : Labels) (entry : TimeSeriesEntry)
    → lookup (id_of labels) head.series ≡ some entry
    → get_or_create_series id_of head labels ≡ (ok (id_of labels), head)
unfolding get_or_create_series
found id_of head labels entry e = rw (get_or_create_series, e) refl

pub made_room :
    (id_of : Labels → TimeSeriesId) (head : HeadBlock) (labels : Labels)
    → lookup (id_of labels) head.series ≡ none
    → leb head.config.max_series (length head.series) ≡ false
    → get_or_create_series id_of head labels
      ≡ (ok (id_of labels), with_series head (id_of labels) labels)
unfolding get_or_create_series add_series with_series
made_room id_of head labels e room =
    rw (get_or_create_series, e) (rw (add_series, room) (rw e refl))

pub made_full :
    (id_of : Labels → TimeSeriesId) (head : HeadBlock) (labels : Labels)
    → lookup (id_of labels) head.series ≡ none
    → leb head.config.max_series (length head.series) ≡ true
    → get_or_create_series id_of head labels ≡ (err storage_full, head)
unfolding get_or_create_series add_series
made_full id_of head labels e full = rw (get_or_create_series, e) (rw (add_series, full) refl)

-- The series is there, with the answers that it had before, and the others are as they were.
pub record Ready (head head' : HeadBlock) (i : TimeSeriesId) : Type 0 where
  pub entry : TimeSeriesEntry
  pub there : lookup i head'.series ≡ some entry
  pub answers :
      (start stop : Timestamp) → samples_in_range entry start stop ≡ answer head i start stop
  pub elsewhere : (j : TimeSeriesId) → i ≢ j → lookup j head'.series ≡ lookup j head.series

pub answer-some :
    (head : HeadBlock) (i : TimeSeriesId) (entry : TimeSeriesEntry) (start stop : Timestamp)
    → lookup i head.series ≡ some entry
    → answer head i start stop ≡ samples_in_range entry start stop
unfolding answer query
answer-some head i entry start stop e = rw (answer, query, e) refl

answer-none :
    (head : HeadBlock) (i : TimeSeriesId) (start stop : Timestamp)
    → lookup i head.series ≡ none
    → answer head i start stop ≡ []
unfolding answer query
answer-none head i start stop e = rw (answer, query, e) refl

pub found-Ready :
    (head : HeadBlock) (i : TimeSeriesId) (entry : TimeSeriesEntry)
    → lookup i head.series ≡ some entry
    → Ready head head i
found-Ready head i entry e = record {
  entry = entry;
  there = e;
  answers = λ start stop. sym (answer-some head i entry start stop e);
  elsewhere = λ j ne. refl;
}

pub made-Ready :
    (head : HeadBlock) (i : TimeSeriesId) (labels : Labels)
    → lookup i head.series ≡ none
    → Ready head (with_series head i labels) i
unfolding with_series
made-Ready head i labels e = record {
  entry = new_entry labels;
  there = lookup-insert i i (new_entry labels) head.series ∙ ground (arith, ==_iff i i);
  answers =
      λ start stop. samples_in_range-new labels start stop ∙ sym (answer-none head i start stop e);
  elsewhere =
      λ j ne. lookup-insert i j (new_entry labels) head.series ∙ ground (arith, ==_iff i j, ne);
}

-- What `get_or_create_series` does when it succeeds.
pub created :
    (id_of : Labels → TimeSeriesId) (head head' : HeadBlock) (labels : Labels) (i : TimeSeriesId)
    → get_or_create_series id_of head labels ≡ (ok i, head')
    → (i ≡ id_of labels) × Ready head head' i
created id_of head head' labels i h = elim (Option-cases (lookup (id_of labels) head.series)) [
  | inl none_yet ↦ elim (Bool-cases (leb head.config.max_series (length head.series))) [
    | inl full ↦ cc (made_full id_of head labels none_yet full, h)
    | inr room ↦
        let e = made_room id_of head labels none_yet room in
        let id : id_of labels ≡ i = cc in
        let after : with_series head (id_of labels) labels ≡ head' = cc in
        (
          sym id,
          subst (λ k. Ready head head' k) id
              (subst (λ x. Ready head x (id_of labels)) after
                (made-Ready head (id_of labels) labels none_yet)),
        )
  ]
  | inr (entry, there) ↦
      let e = found id_of head labels entry there in
      let id : id_of labels ≡ i = cc in
      let after : head ≡ head' = cc in
      (
        sym id,
        subst (λ k. Ready head head' k) id
            (subst (λ x. Ready head x (id_of labels)) after
              (found-Ready head (id_of labels) entry there)),
      )
]
