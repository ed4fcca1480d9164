-- ===== src/MemStore/Store/Logged.antt =====
-- A `write` that succeeds is in the log.
use chono_db.Prelude.{◌≡◌, refl, sym, ap, ◌∙◌, subst, List, length, inl, inr, arith, ℕ}
use chono_db.Error.{ok}
use chono_db.Model.{TimeSeriesId, Labels, Sample}
use chono_db.Compression.Stream.RoundTrip.{Result-cases}
use chono_db.MemStore.Head.{get_or_create_series}
use chono_db.MemStore.Store.{MemStore, LogOps, log, log_and_add, store_samples, count_writes, write}
use chono_db.MemStore.Store.Steps.{created}
use chono_db.MemStore.Store.Write.{store_samples_step, logged, not_logged, log_stuck, not_created}
use chono_db.MemStore.Store.ReadBack.{write_ok, write-result}

module _ {Wal : Type 0} (ops : LogOps Wal) (id_of : Labels → TimeSeriesId) where
  log_and_add-logs :
      (store store' : MemStore Wal) (i : TimeSeriesId) (labels : Labels) (ss : List Sample)
      → log_and_add ops id_of store i labels ss ≡ (ok tt, store')
      → log ops id_of store.wal i labels ss ≡ (ok tt, store'.wal)
  log_and_add-logs store store' i labels ss h =
      elim (Result-cases (log ops id_of store.wal i labels ss).0) [
        | inl (tt, e) ↦
            let after = ap (λ r. r.1.wal) (sym (logged ops id_of store i labels ss e) ∙ h) in
            ap (λ r. (r, (log ops id_of store.wal i labels ss).1)) e ∙ ap (λ w. (ok tt, w)) after
        | inr (inl (x, e)) ↦
            let bad = not_logged ops id_of store i labels ss x e in cc (bad, ap (λ r. r.0) h)
        | inr (inr e) ↦
            let bad = log_stuck ops id_of store i labels ss e in cc (bad, ap (λ r. r.0) h)
      ]

  store_samples-logs :
      (store store' : MemStore Wal) (labels : Labels) (ss : List Sample)
      → store_samples ops id_of store labels ss ≡ (ok tt, store')
      → log ops id_of store.wal (id_of labels) labels ss ≡ (ok tt, store'.wal)
  store_samples-logs store store' labels ss e =
      elim (Result-cases (get_or_create_series id_of store.head labels).0) [
        | inl (i, made) ↦
            let head = (get_or_create_series id_of store.head labels).1 in
            let here : get_or_create_series id_of store.head labels ≡ (ok i, head) =
              ap (λ r. (r, head)) made in
            let (same, _) = created id_of store.head head labels i here in
            let logs =
              log_and_add-logs (record store { head = head }) store' i labels ss
                (sym (store_samples_step ops id_of store labels ss i head here) ∙ e) in
            subst (λ k. log ops id_of store.wal k labels ss ≡ (ok tt, store'.wal)) same logs
        | inr bad ↦
            absurd (omega (arith, not_created ops id_of store labels ss bad (ap (λ r. r.0) e)))
      ]

  wal-count_writes :
      (store : MemStore Wal) (n m : ℕ) → (count_writes ops id_of store n m).wal ≡ store.wal
  unfolding count_writes
  wal-count_writes store n m = refl

  -- A write that succeeds was logged under the id of its labels, and its log is the store's.
  pub write-logs :
      (store store' : MemStore Wal) (labels : Labels) (ss : List Sample)
      → write ops id_of store labels ss ≡ (ok tt, store')
      → log ops id_of store.wal (id_of labels) labels ss ≡ (ok tt, store'.wal)
  write-logs store store' labels ss e =
      let done : (store_samples ops id_of store labels ss).0 ≡ ok tt =
        sym (write-result ops id_of store labels ss) ∙ ap (λ r. r.0) e in
      let mid = (store_samples ops id_of store labels ss).1 in
      let stored : store_samples ops id_of store labels ss ≡ (ok tt, mid) =
        ap (λ r. (r, mid)) done in
      let after : mid.wal ≡ store'.wal =
        sym (wal-count_writes mid (length ss) 1)
        ∙ ap (λ r. r.1.wal) (sym (write_ok ops id_of store mid labels ss stored) ∙ e) in
      store_samples-logs store mid labels ss stored ∙ ap (λ w. (ok tt, w)) after
