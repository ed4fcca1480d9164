-- ===== src/MemStore/Head/Reachable.antt =====
-- Removing series, and what holds of the head block after any operations.
use chono_db.Prelude.{
  ◌==◌, ◌≡◌, sym, ap, ◌∙◌, List, [], ◌∷◌, none, some, Option-cases, Bool, true, false, inl, inr,
  arith, if◌then◌else◌,
}
use chono_db.Prelude.Assoc.{Assoc, number_key, lookup, remove, lookup-remove, length-remove}
use chono_db.Model.{TimeSeriesId, Labels, Sample}
use chono_db.Index.Inverted.Consistent.{remove_series-IsConsistent, remove_series-series_labels}
use chono_db.MemStore.Entry.{TimeSeriesEntry}
use chono_db.MemStore.Entry.Samples.{IsEntry}
use chono_db.MemStore.Head.{
  HeadBlock, HeadConfig, new, add_series, add_sample, get_or_create_series, drop_series,
  remove_series, remove_series_batch,
}
use chono_db.MemStore.Head.Invariant.{
  IsHead, new-IsHead, labels_of, labels_of-unless, add_series-IsHead, add_sample-IsHead,
  get_or_create_series-IsHead,
}

remove-entries :
    (m : Assoc TimeSeriesId TimeSeriesEntry) (i : TimeSeriesId)
    → ((j : TimeSeriesId) (e : TimeSeriesEntry) → lookup j m ≡ some e → IsEntry e)
    → (j : TimeSeriesId) (e : TimeSeriesEntry) → lookup j (remove i m) ≡ some e
    → IsEntry e
remove-entries m i h j e found = pick (i == j) (sym (lookup-remove i j m) ∙ found)
  where
    pick : (b : Bool) → (if b then none else lookup j m) ≡ some e → IsEntry e
    pick true same = cc
    pick false other = h j e other

drop_series-IsHead :
    (head : HeadBlock) (i : TimeSeriesId) (entry : TimeSeriesEntry)
    → IsHead head
    → lookup i head.series ≡ some entry
    → IsHead (drop_series head i)
unfolding drop_series
drop_series-IsHead head i entry h there = record {
  entries = remove-entries head.series i h.entries;
  labelled = λ j.
      ap (lookup j)
        (remove_series-series_labels head.index i entry.labels (h.labelled i ∙ ap labels_of there))
      ∙ lookup-remove i j head.index.series_labels
      ∙ ap (λ o. if i == j then none else o) (h.labelled j)
      ∙ sym (labels_of-unless (i == j) (lookup j head.series))
      ∙ sym (ap labels_of (lookup-remove i j head.series));
  consistent = remove_series-IsConsistent head.index i h.consistent;
  bounded = omega (arith, length-remove i head.series, h.bounded);
}

pub remove_series-IsHead :
    (head : HeadBlock) (i : TimeSeriesId) → IsHead head → IsHead (remove_series head i).1
unfolding remove_series
remove_series-IsHead head i h = elim (Option-cases (lookup i head.series)) [
  | inl e ↦ rw (remove_series, e) h
  | inr (entry, e) ↦ rw (remove_series, e) (drop_series-IsHead head i entry h e)
]

pub remove_series_batch-IsHead :
    (head : HeadBlock) (is : List TimeSeriesId) → IsHead head → IsHead (remove_series_batch head is)
unfolding remove_series_batch
remove_series_batch-IsHead head [] h = h
remove_series_batch-IsHead head (i ∷ is) h = elim (Option-cases (lookup i head.series)) [
  | inl e ↦ rw (remove_series_batch, e) (remove_series_batch-IsHead head is h)
  | inr (entry, e) ↦
      rw (remove_series_batch, e)
        (remove_series_batch-IsHead (drop_series head i) is (drop_series-IsHead head i entry h e))
]

-- What clients of the block do; the id of a new series is the hash of its labels, or given.
pub data Operation : Type 0 where
  get_or_create : Labels → Operation
  add : TimeSeriesId → Labels → Operation
  store : TimeSeriesId → Sample → Operation
  delete : TimeSeriesId → Operation
  delete_batch : List TimeSeriesId → Operation

module _ (calculate_series_id : Labels → TimeSeriesId) where
  unfoldable pub apply : HeadBlock → Operation → HeadBlock
  apply head (get_or_create labels) = (get_or_create_series calculate_series_id head labels).1
  apply head (add i labels) = (add_series head i labels).1
  apply head (store i sample) = (add_sample head i sample).1
  apply head (delete i) = (remove_series head i).1
  apply head (delete_batch is) = remove_series_batch head is

  unfoldable pub apply_all : HeadBlock → List Operation → HeadBlock
  apply_all head [] = head
  apply_all head (o ∷ os) = apply_all (apply head o) os

  apply-IsHead : (head : HeadBlock) (o : Operation) → IsHead head → IsHead (apply head o)
  unfolding apply
  apply-IsHead head (get_or_create labels) h =
      get_or_create_series-IsHead calculate_series_id head labels h
  apply-IsHead head (add i labels) h = add_series-IsHead head i labels h
  apply-IsHead head (store i sample) h = add_sample-IsHead head i sample h
  apply-IsHead head (delete i) h = remove_series-IsHead head i h
  apply-IsHead head (delete_batch is) h = remove_series_batch-IsHead head is h

  pub apply_all-IsHead :
      (head : HeadBlock) (os : List Operation) → IsHead head → IsHead (apply_all head os)
  unfolding apply_all
  apply_all-IsHead head [] h = h
  apply_all-IsHead head (o ∷ os) h = apply_all-IsHead (apply head o) os (apply-IsHead head o h)

-- Whatever is done to a new block, with whatever hash of the labels: its index keeps the labels of
-- exactly its series and lists a series under a label exactly when the series has it, the frozen
-- chunks of each series are full and sorted, and there are no more series than `max_series`.
pub IsHead-reachable :
    (calculate_series_id : Labels → TimeSeriesId) (config : HeadConfig) (os : List Operation)
    → IsHead (apply_all calculate_series_id (new config) os)
IsHead-reachable id_of config os = apply_all-IsHead id_of (new config) os (new-IsHead config)
