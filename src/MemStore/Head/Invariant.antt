-- ===== src/MemStore/Head/Invariant.antt =====
-- What every operation of the head block keeps.
use chono_db.Prelude.{
  ℕ, ◌+◌, ◌≤◌, ◌==◌, ==_iff, leb, ◌≡◌, ◌⊎◌, refl, sym, ap, ◌∙◌, subst, length, Option, none, some,
  Option-cases, Bool, true, false, Bool-cases, inl, inr, arith, if◌then◌else◌,
}
use chono_db.Prelude.Assoc.{Assoc, number_key, lookup, insert, lookup-insert, length-insert}
use chono_db.Model.{TimeSeriesId, Labels, Sample}
use chono_db.Index.Inverted.{add_series as index_add}
use chono_db.Index.Inverted.{new as new_index}
use chono_db.Index.Inverted.Consistent.{
  IsConsistent, new-IsConsistent, add_series-IsConsistent, add_series-series_labels,
}
use chono_db.MemStore.Entry.{TimeSeriesEntry, new as new_entry, add_sample as add_to_entry, freeze}
use chono_db.MemStore.Entry.Samples.{IsEntry, new-IsEntry, add_sample-IsEntry}
use chono_db.MemStore.Head.{
  HeadBlock, HeadConfig, new, add_series, add_sample, get_or_create_series,
}

abbrev pub labels_of : Option TimeSeriesEntry → Option Labels
labels_of none = none
labels_of (some entry) = some entry.labels

-- The index keeps the labels of exactly the series of the block and is consistent, the chunks of
-- each series are well-formed, and there are at most `max_series`.
pub record IsHead (head : HeadBlock) : Type 0 where
  pub entries :
      (i : TimeSeriesId) (entry : TimeSeriesEntry)
      → lookup i head.series ≡ some entry
      → IsEntry entry
  pub labelled :
      (i : TimeSeriesId) → lookup i head.index.series_labels ≡ labels_of (lookup i head.series)
  pub consistent : IsConsistent head.index
  pub bounded : length head.series ≤ head.config.max_series

pub new-IsHead : (config : HeadConfig) → IsHead (new config)
unfolding new lookup new_index
new-IsHead config = record {
  entries = λ i entry e. cc;
  labelled = λ i. refl;
  consistent = new-IsConsistent;
  bounded = omega arith;
}

-- A map with one more entry, which satisfies what the others do.
insert-entries :
    (m : Assoc TimeSeriesId TimeSeriesEntry) (i : TimeSeriesId) (entry : TimeSeriesEntry)
    → ((j : TimeSeriesId) (e : TimeSeriesEntry) → lookup j m ≡ some e → IsEntry e)
    → IsEntry entry
    → (j : TimeSeriesId) (e : TimeSeriesEntry) → lookup j (insert i entry m) ≡ some e
    → IsEntry e
insert-entries m i entry h new_one j e found =
    let found' : (if i == j then some entry else lookup j m) ≡ some e =
      sym (lookup-insert i j entry m) ∙ found in
    pick (i == j) found'
  where
    pick : (b : Bool) → (if b then some entry else lookup j m) ≡ some e → IsEntry e
    pick true same = let equal : entry ≡ e = cc in subst IsEntry equal new_one
    pick false other = h j e other

labels_of-if :
    (b : Bool) (entry : TimeSeriesEntry) (o : Option TimeSeriesEntry)
    → labels_of (if b then some entry else o) ≡ (if b then some entry.labels else labels_of o)
labels_of-if b entry o = ground arith

pub labels_of-unless :
    (b : Bool) (o : Option TimeSeriesEntry)
    → labels_of (if b then none else o) ≡ (if b then none else labels_of o)
labels_of-unless b o = ground arith

-- The block with a series that it did not have.
unfoldable pub with_series : HeadBlock → TimeSeriesId → Labels → HeadBlock
with_series head i labels = record head {
  series = insert i (new_entry labels) head.series;
  index = index_add head.index i labels;
}

with_series-IsHead :
    (head : HeadBlock) (i : TimeSeriesId) (labels : Labels)
    → IsHead head
    → lookup i head.series ≡ none
    → length head.series + 1 ≤ head.config.max_series
    → IsHead (with_series head i labels)
unfolding with_series new_entry
with_series-IsHead head i labels h fresh room = record {
  entries = insert-entries head.series i (new_entry labels) h.entries (new-IsEntry labels);
  labelled = λ j.
      ap (lookup j) (add_series-series_labels head.index labels i)
      ∙ lookup-insert i j labels head.index.series_labels
      ∙ ap (λ o. if i == j then some labels else o) (h.labelled j)
      ∙ sym (labels_of-if (i == j) (new_entry labels) (lookup j head.series))
      ∙ sym (ap labels_of (lookup-insert i j (new_entry labels) head.series));
  consistent =
      add_series-IsConsistent head.index i labels h.consistent (h.labelled i ∙ ap labels_of fresh);
  bounded = rw (length-insert i (new_entry labels) head.series) (rw fresh room);
}

-- `add_series` keeps the block, or adds a series that is new and for which there is room.
add_series_cases :
    (head : HeadBlock) (i : TimeSeriesId) (labels : Labels)
    → (((add_series head i labels).1 ≡ head)
        ⊎ (((add_series head i labels).1 ≡ with_series head i labels)
            × (lookup i head.series ≡ none)
            × (length head.series + 1 ≤ head.config.max_series)))
unfolding add_series with_series
add_series_cases head i labels =
    elim (Bool-cases (leb head.config.max_series (length head.series))) [
      | inl e ↦ inl (rw (add_series, e) refl)
      | inr e ↦ elim (Option-cases (lookup i head.series)) [
        | inl none_yet ↦ inr (rw (add_series, e) (rw none_yet refl), none_yet, ground arith)
        | inr (entry, there) ↦ inl (rw (add_series, e) (rw there refl))
      ]
    ]

pub add_series-IsHead :
    (head : HeadBlock) (i : TimeSeriesId) (labels : Labels)
    → IsHead head
    → IsHead (add_series head i labels).1
add_series-IsHead head i labels h = elim (add_series_cases head i labels) [
  | inl same ↦ subst IsHead (sym same) h
  | inr (added, fresh, room) ↦
      subst IsHead (sym added) (with_series-IsHead head i labels h fresh room)
]

pub get_or_create_series-IsHead :
    (calculate_series_id : Labels → TimeSeriesId) (head : HeadBlock) (labels : Labels)
    → IsHead head
    → IsHead (get_or_create_series calculate_series_id head labels).1
unfolding get_or_create_series
get_or_create_series-IsHead id_of head labels h =
    elim (Option-cases (lookup (id_of labels) head.series)) [
      | inl e ↦ rw (get_or_create_series, e) (add_series-IsHead head (id_of labels) labels h)
      | inr (entry, e) ↦ rw (get_or_create_series, e) h
    ]

-- The block with one more sample in a series that it has.
with_sample : HeadBlock → TimeSeriesId → TimeSeriesEntry → Sample → HeadBlock
with_sample head i entry sample = record head {
  series = insert i (add_to_entry entry sample) head.series;
}

pub labels-add_sample :
    (entry : TimeSeriesEntry) (sample : Sample) → (add_to_entry entry sample).labels ≡ entry.labels
unfolding add_to_entry freeze
labels-add_sample entry sample = ground arith

same_labels :
    (b : Bool) (entry entry' : TimeSeriesEntry) (o : Option TimeSeriesEntry)
    → entry'.labels ≡ entry.labels
    → (b ≡ true → o ≡ some entry)
    → labels_of o ≡ labels_of (if b then some entry' else o)
same_labels true entry entry' o e h = rw (h refl) (ap some (sym e))
same_labels false entry entry' o e h = refl

with_sample-IsHead :
    (head : HeadBlock) (i : TimeSeriesId) (entry : TimeSeriesEntry) (sample : Sample)
    → IsHead head
    → lookup i head.series ≡ some entry
    → IsHead (with_sample head i entry sample)
unfolding with_sample
with_sample-IsHead head i entry sample h there = record {
  entries =
      insert-entries head.series i (add_to_entry entry sample) h.entries
        (add_sample-IsEntry entry sample (h.entries i entry there));
  labelled = λ j.
      h.labelled j
      ∙ same_labels (i == j) entry (add_to_entry entry sample) (lookup j head.series)
          (labels-add_sample entry sample)
          (λ e. subst (λ (k : ℕ). lookup k head.series ≡ some entry) ((==_iff i j).0 e) there)
      ∙ sym (ap labels_of (lookup-insert i j (add_to_entry entry sample) head.series));
  consistent = h.consistent;
  bounded = rw (length-insert i (add_to_entry entry sample) head.series) (rw there h.bounded);
}

pub add_sample-IsHead :
    (head : HeadBlock) (i : TimeSeriesId) (sample : Sample)
    → IsHead head
    → IsHead (add_sample head i sample).1
unfolding add_sample with_sample
add_sample-IsHead head i sample h = elim (Option-cases (lookup i head.series)) [
  | inl e ↦ rw (add_sample, e) h
  | inr (entry, e) ↦ rw (add_sample, e) (with_sample-IsHead head i entry sample h e)
]
