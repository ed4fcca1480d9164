-- ===== src/MemStore/Store/ReadBack.antt =====
-- `write` as a whole: what it makes readable, and when it succeeds.
use chono_db.Prelude.{
  ℕ, ◌≡◌, refl, sym, ap, ◌∙◌, subst, List, length, not, ◌||◌, leb, is_some, Option-cases,
  Bool-cases, inl, inr, if◌then◌else◌,
}
use chono_db.Prelude.Assoc.{number_key, lookup}
use chono_db.Error.{Result, ok, err, stuck, storage_full}
use chono_db.Model.{TimeSeriesId, Labels, Sample}
use chono_db.Compression.Stream.RoundTrip.{Result-cases}
use chono_db.MemStore.Head.{HeadBlock, get_or_create_series}
use chono_db.MemStore.Head.Invariant.{IsHead, get_or_create_series-IsHead}
use chono_db.MemStore.Store.{MemStore, LogOps, log, store_samples, count_writes, write}
use chono_db.MemStore.Store.Steps.{add_each-Added, created, found, made_room, made_full}
use chono_db.MemStore.Store.Write.{
  by_time, Stored, store_samples-Stored, store_samples_step, logged,
}

module _ {Wal : Type 0} (ops : LogOps Wal) (id_of : Labels → TimeSeriesId) where
  pub write_ok :
      (store store' : MemStore Wal) (labels : Labels) (ss : List Sample)
      → store_samples ops id_of store labels ss ≡ (ok tt, store')
      → write ops id_of store labels ss ≡ (ok tt, count_writes ops id_of store' (length ss) 1)
  unfolding write
  write_ok store store' labels ss e =
      ap
        (λ (r : Result (Unit {0}) × MemStore Wal). elim r.0 [
          | ok _ ↦ (ok tt, count_writes ops id_of r.1 (length ss) 1)
          | err x ↦ (err x, r.1)
          | stuck ↦ (stuck, r.1)
        ])
        e

  pub write-result :
      (store : MemStore Wal) (labels : Labels) (ss : List Sample)
      → (write ops id_of store labels ss).0 ≡ (store_samples ops id_of store labels ss).0
  unfolding write
  write-result store labels ss = elim (Result-cases (store_samples ops id_of store labels ss).0) [
    | inl (_, e) ↦ rw (write, e) refl
    | inr (inl (x, e)) ↦ rw (write, e) refl
    | inr (inr e) ↦ rw (write, e) refl
  ]

  head-count_writes :
      (store : MemStore Wal) (n m : ℕ) → (count_writes ops id_of store n m).head ≡ store.head
  unfolding count_writes
  head-count_writes store n m = refl

-- A successful `write`, with whatever log and hash, keeps the head block well-formed, makes each
-- sample readable exactly once in the series of the labels, next to those that it had, and changes
-- the answer of no other series.
pub write-Stored :
    {Wal : Type 0} (ops : LogOps Wal) (id_of : Labels → TimeSeriesId)
    → (store store' : MemStore Wal) (labels : Labels) (ss : List Sample) → IsHead store.head
    → write ops id_of store labels ss ≡ (ok tt, store')
    → Stored store.head store'.head (id_of labels) ss
write-Stored ops id_of store store' labels ss h e =
    let done : (store_samples ops id_of store labels ss).0 ≡ ok tt =
      sym (write-result ops id_of store labels ss) ∙ ap (λ r. r.0) e in
    let mid = (store_samples ops id_of store labels ss).1 in
    let stored : store_samples ops id_of store labels ss ≡ (ok tt, mid) = ap (λ r. (r, mid)) done in
    let after : mid.head ≡ store'.head =
      sym (head-count_writes ops id_of mid (length ss) 1)
      ∙ ap (λ r. r.1.head) (sym (write_ok ops id_of store mid labels ss stored) ∙ e) in
    subst (λ x. Stored store.head x (id_of labels) ss) after
      (store_samples-Stored ops id_of store mid labels ss h stored)

module _ {Wal : Type 0} (ops : LogOps Wal) (id_of : Labels → TimeSeriesId) where
  -- Once the series is there and the log has the write, nothing can fail.
  adds_all :
      (store : MemStore Wal) (labels : Labels) (ss : List Sample) (head : HeadBlock)
      → IsHead store.head
      → get_or_create_series id_of store.head labels ≡ (ok (id_of labels), head)
      → (log ops id_of store.wal (id_of labels) labels ss).0 ≡ ok tt
      → (store_samples ops id_of store labels ss).0 ≡ ok tt
  adds_all store labels ss head h e logs =
      let (_, ready) = created id_of store.head head labels (id_of labels) e in
      let well : IsHead head =
        subst (λ r. IsHead r.1) e (get_or_create_series-IsHead id_of store.head labels h) in
      let (head', added, _) =
        add_each-Added head (id_of labels) ready.entry (by_time ss) well ready.there in
      ap (λ r. r.0) (store_samples_step ops id_of store labels ss (id_of labels) head e)
      ∙ ap (λ r. r.0)
          (logged ops id_of (record store { head = head }) (id_of labels) labels ss logs)
      ∙ ap (λ r. r.0) added

  refuses :
      (store : MemStore Wal) (labels : Labels) (ss : List Sample)
      → get_or_create_series id_of store.head labels ≡ (err storage_full, store.head)
      → store_samples ops id_of store labels ss ≡ (err storage_full, store)
  unfolding store_samples
  refuses store labels ss e = rw (store_samples, ap (λ r. r.0) e) (rw e refl)

-- Where the log takes the write, `write` on a well-formed block succeeds exactly when the series is
-- there already or the block has room for one more; otherwise it fails with the storage-full error.
pub write_decides :
    {Wal : Type 0} (ops : LogOps Wal) (id_of : Labels → TimeSeriesId)
    → (store : MemStore Wal) (labels : Labels) (ss : List Sample) → IsHead store.head
    → (log ops id_of store.wal (id_of labels) labels ss).0 ≡ ok tt
    → (write ops id_of store labels ss).0 ≡ (
        if is_some (lookup (id_of labels) store.head.series)
          || not (leb store.head.config.max_series (length store.head.series))
        then ok tt
        else err storage_full)
write_decides ops id_of store labels ss h logs =
    write-result ops id_of store labels ss
    ∙ elim (Option-cases (lookup (id_of labels) store.head.series)) [
      | inr (entry, there) ↦ rw there (
          adds_all ops id_of store labels ss store.head h
            (found id_of store.head labels entry there) logs)
      | inl none_yet ↦
          rw none_yet
            (elim (Bool-cases (leb store.head.config.max_series (length store.head.series))) [
              | inl full ↦ rw full (
                  ap (λ r. r.0)
                    (refuses ops id_of store labels ss
                      (made_full id_of store.head labels none_yet full)))
              | inr room ↦ rw room (
                  adds_all ops id_of store labels ss _ h
                    (made_room id_of store.head labels none_yet room) logs)
            ])
    ]
