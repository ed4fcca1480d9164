-- ===== src/MemStore/Store/Windows.antt =====
-- Downsampling against its definition: one average for each run of samples in one window.
use native.Mathlib.Nat.{div-add-mod'}
use chono_db.Prelude.{
  ℕ, ◌+◌, ◌*◌, ◌/◌, ◌%◌, ◌<◌, ◌≡◌, refl, sym, ap, ◌∙◌, List, [], ◌∷◌, ◌++◌, append_assoc, map,
  length, true, false, ◌==◌, Bool-cases, inl, inr, arith, if◌then◌else◌,
}
use chono_db.Prelude.Int.{ℤ, pos, negsuc, sub_ℕ, ◌-ℤ◌}
use chono_db.Model.{Timestamp, Sample, F64}
use chono_db.ColumnStore.Level.{DownsampleLevel, l0, l1, l2, l3, l4, resolution_ms, interval_ms}
use chono_db.MemStore.Store.Query.{
  FloatOps, window_of, same_ℤ, close_window, downsample_loop, is_l0, apply_downsampling,
}

abbrev pub Run : Type 0
Run = Timestamp × List F64

-- The value in front of the runs: it joins the first one if that lies in its window.
unfoldable pub join_run : Timestamp → F64 → List Run → List Run
join_run w v [] = (w, v ∷ []) ∷ []
join_run w v ((w', vs) ∷ rest) =
    if same_ℤ w' w then (w, v ∷ vs) ∷ rest else (w, v ∷ []) ∷ (w', vs) ∷ rest

-- The samples in runs of one window each, as `window_of` computes it.
unfoldable window_runs : ℕ → List Sample → List Run
window_runs resolution [] = []
window_runs resolution (s ∷ ss) =
    join_run (window_of resolution s.timestamp) s.value (window_runs resolution ss)

same_ℤ-refl : (a : ℤ) → same_ℤ a a ≡ true
unfolding same_ℤ
same_ℤ-refl a = ground arith

same_ℤ-eq : (a b : ℤ) → same_ℤ a b ≡ true → a ≡ b
unfolding same_ℤ
same_ℤ-eq a b h = ground arith

module _ (floats : FloatOps) where
  unfoldable pub sum_from : F64 → List F64 → F64
  sum_from sum [] = sum
  sum_from sum (v ∷ vs) = sum_from (floats.add_f64 sum v) vs

  unfoldable pub average : Run → Sample
  average (w, vs) = record {
    timestamp = w;
    value = floats.div_count (sum_from floats.zero_f64 vs) (length vs);
  }

  abbrev pub closed : Timestamp → F64 → ℕ → Sample
  closed w sum n = record { timestamp = w; value = floats.div_count sum n }

  -- What an open window and the window_runs behind it come to.
  unfoldable pub finish : Timestamp → F64 → ℕ → List Run → List Sample
  finish w sum n [] = closed w sum n ∷ []
  finish w sum n ((w', vs) ∷ rest) =
      if same_ℤ w' w
      then closed w (sum_from sum vs) (n + length vs) ∷ map average rest
      else closed w sum n ∷ map average ((w', vs) ∷ rest)

  -- A window that opens with one value.
  opens :
      (w : Timestamp) (v : F64) (rs : List Run)
      → map average (join_run w v rs) ≡ finish w (floats.add_f64 floats.zero_f64 v) 1 rs
  unfolding join_run finish average sum_from
  opens w v [] = refl
  opens w v ((w', vs) ∷ rest) = elim (Bool-cases (same_ℤ w' w)) [
    | inl e ↦ rw e (
        ap (λ n. closed w (sum_from (floats.add_f64 floats.zero_f64 v) vs) n ∷ map average rest)
          (omega arith))
    | inr e ↦ rw e refl
  ]

  -- A value in the open window.
  goes_on :
      (w : Timestamp) (v sum : F64) (n : ℕ) (rs : List Run)
      → finish w (floats.add_f64 sum v) (n + 1) rs ≡ finish w sum n (join_run w v rs)
  unfolding join_run finish sum_from
  goes_on w v sum n [] = rw (same_ℤ-refl w) refl
  goes_on w v sum n ((w', vs) ∷ rest) = elim (Bool-cases (same_ℤ w' w)) [
    | inl e ↦
        rw (e, same_ℤ-refl w)
          (ap (λ k. closed w (sum_from (floats.add_f64 sum v) vs) k ∷ map average rest)
            (omega arith))
    | inr e ↦ rw (e, same_ℤ-refl w) refl
  ]

  -- A value in another window.
  starts_new :
      (w w' : Timestamp) (v sum : F64) (n : ℕ) (rs : List Run)
      → same_ℤ w' w ≡ false
      → finish w sum n (join_run w' v rs) ≡ closed w sum n ∷ map average (join_run w' v rs)
  unfolding join_run finish
  starts_new w w' v sum n [] e = rw e refl
  starts_new w w' v sum n ((w'', vs) ∷ rest) e = elim (Bool-cases (same_ℤ w'' w')) [
    | inl e' ↦ rw (e', e) refl
    | inr e' ↦ rw (e', e) refl
  ]

  close_window_lem :
      (done : List Sample) (w : Timestamp) (sum : F64) (n : ℕ)
      → 0 < n
      → close_window floats done w sum n ≡ done ++ (closed w sum n ∷ [])
  unfolding close_window
  close_window_lem done w sum n h = ground arith

  downsample_loop-window_runs :
      (r : ℕ) (ss done : List Sample) (w : Timestamp) (sum : F64) (n : ℕ)
      → 0 < n
      → downsample_loop floats r ss done w sum n ≡ done ++ finish w sum n (window_runs r ss)
  unfolding downsample_loop window_runs
  downsample_loop-window_runs r [] done w sum n h =
      close_window_lem done w sum n h ∙ unfold finish in refl
  downsample_loop-window_runs r (s ∷ ss) done w sum n h =
      let w' = window_of r s.timestamp in
      elim (Bool-cases (same_ℤ (window_of r s.timestamp) w)) [
        | inl e ↦
            rw (e, same_ℤ-eq (window_of r s.timestamp) w e)
              (downsample_loop-window_runs r ss done w (floats.add_f64 sum s.value) (n + 1)
                  (omega arith)
                ∙ ap (λ rest. done ++ rest) (goes_on w s.value sum n (window_runs r ss)))
        | inr e ↦ rw e (
            downsample_loop-window_runs r ss (close_window floats done w sum n)
              (window_of r s.timestamp) (floats.add_f64 floats.zero_f64 s.value) 1 (omega arith)
            ∙ ap
                (λ front.
                  front ++ finish w' (floats.add_f64 floats.zero_f64 s.value) 1 (window_runs r ss))
                (close_window_lem done w sum n h)
            ∙ append_assoc done (closed w sum n ∷ [])
                (finish w' (floats.add_f64 floats.zero_f64 s.value) 1 (window_runs r ss))
            ∙ ap (λ rest. done ++ (closed w sum n ∷ rest))
                (sym (opens w' s.value (window_runs r ss)))
            ∙ ap (λ rest. done ++ rest) (sym (starts_new w w' s.value sum n (window_runs r ss) e)))
      ]

  first_run :
      (r : ℕ) (s : Sample) (ss : List Sample)
      → downsample_loop floats r (s ∷ ss) [] (window_of r s.timestamp) floats.zero_f64 0
        ≡ map average (window_runs r (s ∷ ss))
  unfolding downsample_loop window_runs
  first_run r s ss = rw (same_ℤ-refl (window_of r s.timestamp)) (
      downsample_loop-window_runs r ss [] (window_of r s.timestamp)
        (floats.add_f64 floats.zero_f64 s.value) 1 (omega arith)
      ∙ sym (opens (window_of r s.timestamp) s.value (window_runs r ss)))

  resolution_positive : (level : DownsampleLevel) → (resolution_ms level == 0) ≡ false
  unfolding resolution_ms interval_ms
  resolution_positive l0 = refl
  resolution_positive l1 = refl
  resolution_positive l2 = refl
  resolution_positive l3 = refl
  resolution_positive l4 = refl

-- The multiple of `resolution` that is next to the timestamp in the direction of zero.
unfoldable pub multiple_towards_zero : ℕ → Timestamp → Timestamp
multiple_towards_zero resolution (pos n) = pos (n / resolution * resolution)
multiple_towards_zero resolution (negsuc n) = sub_ℕ 0 ((n + 1) / resolution * resolution)

less_rest_pos : (n q m : ℕ) → q + m ≡ n → pos n -ℤ pos m ≡ pos q
unfolding ◌-ℤ◌
less_rest_pos n q m e = ground arith

less_rest_neg : (n q m : ℕ) → q + m ≡ n + 1 → negsuc n -ℤ sub_ℕ 0 m ≡ sub_ℕ 0 q
unfolding ◌-ℤ◌
less_rest_neg n q m e = ground arith

window_of_lem : (r : ℕ) (t : Timestamp) → window_of r t ≡ multiple_towards_zero r t
unfolding window_of multiple_towards_zero
window_of_lem r (pos n) = less_rest_pos n (n / r * r) (n % r) (div-add-mod' n r)
window_of_lem r (negsuc n) =
    less_rest_neg n ((n + 1) / r * r) ((n + 1) % r) (div-add-mod' (n + 1) r)

-- The samples in runs of one window each, with the multiple of the resolution that names it.
unfoldable pub runs : ℕ → List Sample → List Run
runs resolution [] = []
runs resolution (s ∷ ss) =
    join_run (multiple_towards_zero resolution s.timestamp) s.value (runs resolution ss)

runs-window_runs : (r : ℕ) (ss : List Sample) → window_runs r ss ≡ runs r ss
unfolding runs window_runs
runs-window_runs r [] = refl
runs-window_runs r (s ∷ ss) = rw (window_of_lem r s.timestamp, runs-window_runs r ss) refl

-- With whatever arithmetic on floating-point numbers, downsampling to a level above the first one
-- gives the average of each run of consecutive samples whose timestamps have the same multiple of the
-- level's resolution next to them in the direction of zero, at that multiple: at or before a sample
-- from 1970 on, at or behind an earlier one. The first level gives the samples as they are.
pub apply_downsampling-runs :
    (floats : FloatOps) (ss : List Sample) (level : DownsampleLevel)
    → apply_downsampling floats ss level
      ≡ (if is_l0 level then ss else map (average floats) (runs (resolution_ms level) ss))
unfolding apply_downsampling
apply_downsampling-runs floats [] level = unfold runs in ground arith
apply_downsampling-runs floats (s ∷ ss) level = rw (resolution_positive floats level) (
    rw
      (first_run floats (resolution_ms level) s ss, runs-window_runs (resolution_ms level) (s ∷ ss))
      refl)
