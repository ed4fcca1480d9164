-- ===== src/MemStore/Store/Write.antt =====
-- What was written is read, and nothing else changes.
use chono_db.Prelude.{
  ◌+◌, ◌≤◌, ◌≡◌, ◌≢◌, ◌⊎◌, refl, sym, ap, ◌∙◌, subst, List, count, Bool, ◌&&◌, inl, inr, arith,
}
use chono_db.Prelude.Assoc.{number_key, lookup}
use chono_db.Prelude.Sort.{sort_by}
use chono_db.Error.{Error, Result, ok, err, stuck}
use chono_db.Model.{Timestamp, TimeSeriesId, Labels, Sample, in_range}
use chono_db.Compression.Stream.RoundTrip.{Result-cases}
use chono_db.MemStore.Entry.{add_samples, samples_in_range}
use chono_db.MemStore.Entry.Samples.{counted, count-add_samples}
use chono_db.MemStore.Head.{HeadBlock, get_or_create_series, query}
use chono_db.MemStore.Head.Invariant.{IsHead, get_or_create_series-IsHead}
use chono_db.MemStore.Store.{MemStore, LogOps, add_each, log, log_and_add, store_samples}
use chono_db.MemStore.Store.Steps.{
  answer, answer-some, Added, add_each-Added, count-sort_by, Ready, created,
}

abbrev pub by_time : List Sample → List Sample
by_time ss = sort_by (λ s. s.timestamp) ss

-- The head block after the samples of the labels were stored.
pub record Stored (head head' : HeadBlock) (i : TimeSeriesId) (ss : List Sample) : Type 0 where
  pub kept : IsHead head'
  pub reads :
      (p : Sample → Bool) (start stop : Timestamp)
      → count p (answer head' i start stop)
        ≡ count (λ s. in_range start stop s.timestamp && p s) ss
          + count p (answer head i start stop)
  pub others :
      (j : TimeSeriesId) (start stop : Timestamp)
      → i ≢ j
      → query head' j start stop ≡ query head j start stop

query_same :
    (head head' : HeadBlock) (j : TimeSeriesId) (start stop : Timestamp)
    → lookup j head'.series ≡ lookup j head.series
    → query head' j start stop ≡ query head j start stop
unfolding query
query_same head head' j start stop e = rw (query, e) refl

Added-Stored :
    (head ready head' : HeadBlock) (i : TimeSeriesId) (ss : List Sample)
    → IsHead ready
    → (r : Ready head ready i) → Added ready head' i r.entry (by_time ss)
    → Stored head head' i ss
Added-Stored head ready head' i ss h r a = record {
  kept = a.kept;
  reads = λ p start stop.
      ap (count p) (answer-some head' i (add_samples r.entry (by_time ss)) start stop a.here)
      ∙ (count-add_samples p start stop r.entry (by_time ss) (h.entries i r.entry r.there)).1
      ∙ ap (λ n. n + count p (samples_in_range r.entry start stop))
          (count-sort_by (counted p start stop) ss)
      ∙ ap (λ found. count (counted p start stop) ss + count p found) (r.answers start stop);
  others =
      λ j start stop ne. query_same head head' j start stop (a.elsewhere j ne ∙ r.elsewhere j ne);
}

module _ {Wal : Type 0} (ops : LogOps Wal) (id_of : Labels → TimeSeriesId) where
  pub logged :
      (store : MemStore Wal) (i : TimeSeriesId) (labels : Labels) (ss : List Sample)
      → (log ops id_of store.wal i labels ss).0 ≡ ok tt
      → log_and_add ops id_of store i labels ss ≡ (
        (add_each store.head i (by_time ss)).0,
        record store {
          head = (add_each store.head i (by_time ss)).1;
          wal = (log ops id_of store.wal i labels ss).1;
        },
      )
  unfolding log_and_add
  logged store i labels ss e = rw (log_and_add, e) refl

  pub not_logged :
      (store : MemStore Wal) (i : TimeSeriesId) (labels : Labels) (ss : List Sample) (x : Error)
      → (log ops id_of store.wal i labels ss).0 ≡ err x
      → (log_and_add ops id_of store i labels ss).0 ≡ err x
  unfolding log_and_add
  not_logged store i labels ss x e = rw (log_and_add, e) refl

  pub log_stuck :
      (store : MemStore Wal) (i : TimeSeriesId) (labels : Labels) (ss : List Sample)
      → (log ops id_of store.wal i labels ss).0 ≡ stuck
      → (log_and_add ops id_of store i labels ss).0 ≡ stuck
  unfolding log_and_add
  log_stuck store i labels ss e = rw (log_and_add, e) refl

  -- A success logged the write and added the samples.
  log_and_add-ok :
      (store store' : MemStore Wal) (i : TimeSeriesId) (labels : Labels) (ss : List Sample)
      → log_and_add ops id_of store i labels ss ≡ (ok tt, store')
      → (add_each store.head i (by_time ss)).1 ≡ store'.head
  log_and_add-ok store store' i labels ss h =
      elim (Result-cases (log ops id_of store.wal i labels ss).0) [
        | inl (_, e) ↦ ap (λ r. r.1.head) (sym (logged store i labels ss e) ∙ h)
        | inr (inl (x, e)) ↦ let bad = not_logged store i labels ss x e in cc (bad, ap (λ r. r.0) h)
        | inr (inr e) ↦ let bad = log_stuck store i labels ss e in cc (bad, ap (λ r. r.0) h)
      ]

  pub store_samples_step :
      (store : MemStore Wal) (labels : Labels) (ss : List Sample) (i : TimeSeriesId)
      (head : HeadBlock)
      → get_or_create_series id_of store.head labels ≡ (ok i, head)
      → store_samples ops id_of store labels ss
        ≡ log_and_add ops id_of (record store { head = head }) i labels ss
  unfolding store_samples
  store_samples_step store labels ss i head e =
      ap
        (λ (r : Result TimeSeriesId × HeadBlock). elim r.0 [
          | ok k ↦ log_and_add ops id_of (record store { head = r.1 }) k labels ss
          | err x ↦ (err x, record store { head = r.1 })
          | stuck ↦ (stuck, record store { head = r.1 })
        ])
        e

  pub not_created :
      (store : MemStore Wal) (labels : Labels) (ss : List Sample)
      → (((x : Error) × ((get_or_create_series id_of store.head labels).0 ≡ err x))
          ⊎ ((get_or_create_series id_of store.head labels).0 ≡ stuck))
      → (store_samples ops id_of store labels ss).0 ≡ ok tt
      → (1 ≤ 0)
  unfolding store_samples
  not_created store labels ss (inl (x, e)) h =
      let bad : (store_samples ops id_of store labels ss).0 ≡ err x = rw (store_samples, e) refl in
      cc (bad, h)
  not_created store labels ss (inr e) h =
      let bad : (store_samples ops id_of store labels ss).0 ≡ stuck = rw (store_samples, e) refl in
      cc (bad, h)

  -- A success of the part of `write` and `write_batch` that stores samples.
  pub store_samples-Stored :
      (store store' : MemStore Wal) (labels : Labels) (ss : List Sample)
      → IsHead store.head
      → store_samples ops id_of store labels ss ≡ (ok tt, store')
      → Stored store.head store'.head (id_of labels) ss
  store_samples-Stored store store' labels ss h e =
      elim (Result-cases (get_or_create_series id_of store.head labels).0) [
        | inl (i, made) ↦
            let head = (get_or_create_series id_of store.head labels).1 in
            let created_here : get_or_create_series id_of store.head labels ≡ (ok i, head) =
              ap (λ r. (r, head)) made in
            let (same, ready) = created id_of store.head head labels i created_here in
            let well : IsHead head = get_or_create_series-IsHead id_of store.head labels h in
            let (head', added, a) =
              add_each-Added head i ready.entry (by_time ss) well ready.there in
            let last =
              log_and_add-ok (record store { head = head }) store' i labels ss
                (sym (store_samples_step store labels ss i head created_here) ∙ e) in
            let after : head' ≡ store'.head = sym (ap (λ r. r.1) added) ∙ last in
            subst (λ x. Stored store.head x (id_of labels) ss) after
              (subst (λ k. Stored store.head head' k ss) same
                (Added-Stored store.head head head' i ss well ready a))
        | inr bad ↦ absurd (omega (arith, not_created store labels ss bad (ap (λ r. r.0) e)))
      ]
