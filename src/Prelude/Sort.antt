-- ===== src/Prelude/Sort.antt =====
-- Rust's `sort_by_key`, which is stable, for keys that are signed integers: elements are inserted
-- one after the other, each behind those of the same key.
use chono_db.Prelude.{
  ◌≡◌, refl, ◌∙◌, List, [], ◌∷◌, ◌++◌, All, arith, if◌then◌else◌, append-nil, append_assoc,
  Bool-cases, inl, inr, Bool, true, filter, count, length, All-append, ◌+◌,
}
use chono_db.Prelude.Int.{ℤ, ltb_ℤ, ◌≤ℤ◌}

module _ {ℓ} {A : Type ℓ} (key : A → ℤ) where
  unfoldable pub insert_by : A → List A → List A
  insert_by x [] = x ∷ []
  insert_by x (y ∷ ys) =
      let rest = insert_by x ys in if ltb_ℤ (key x) (key y) then x ∷ y ∷ ys else y ∷ rest

  unfoldable pub insert_each : List A → List A → List A
  insert_each sorted [] = sorted
  insert_each sorted (x ∷ xs) = insert_each (insert_by x sorted) xs

  unfoldable pub sort_by : List A → List A
  unfolding insert_each
  sort_by xs = insert_each [] xs

  unfoldable pub IsSorted : List A → Type 0
  IsSorted [] = Unit {0}
  IsSorted (x ∷ xs) = All (λ y. key x ≤ℤ key y) xs × IsSorted xs

  -- No key of the list is greater than that of `x`.
  unfoldable pub IsUpTo : List A → A → Type 0
  IsUpTo xs x = All (λ y. key y ≤ℤ key x) xs

  at_least : (b c : ℤ) (xs : List A) → b ≤ℤ c → All (λ y. c ≤ℤ key y) xs → All (λ y. b ≤ℤ key y) xs
  at_least b c [] h all = tt
  at_least b c (x ∷ xs) h (first, all) = (omega arith, at_least b c xs h all)

  insert_by-All {κ} :
      (P : A → Type κ) (x : A) (xs : List A) → P x → All P xs → All P (insert_by x xs)
  unfolding insert_by
  insert_by-All P x [] p all = (p, tt)
  insert_by-All P x (y ∷ ys) p (q, all) = elim (Bool-cases (ltb_ℤ (key x) (key y))) [
    | inl e ↦ rw e (p, (q, all))
    | inr e ↦ rw e (q, insert_by-All P x ys p all)
  ]

  pub insert_by-IsSorted : (x : A) (xs : List A) → IsSorted xs → IsSorted (insert_by x xs)
  unfolding insert_by IsSorted
  insert_by-IsSorted x [] h = (tt, tt)
  insert_by-IsSorted x (y ∷ ys) (all, h) = elim (Bool-cases (ltb_ℤ (key x) (key y))) [
    | inl e ↦ rw e ((ground arith, at_least (key x) (key y) ys (ground arith) all), (all, h))
    | inr e ↦
        rw e
          (insert_by-All (λ z. key y ≤ℤ key z) x ys (ground arith) all, insert_by-IsSorted x ys h)
  ]

  -- Behind everything that is not greater an element comes last.
  pub insert_by_last : (x : A) (xs : List A) → IsUpTo xs x → insert_by x xs ≡ xs ++ (x ∷ [])
  unfolding insert_by IsUpTo
  insert_by_last x [] h = refl
  insert_by_last x (y ∷ ys) (first, h) = ground (arith, insert_by_last x ys h)

  -- The elements of `front` are not greater than those of `back`.
  IsBefore : List A → List A → Type 0
  unfolding IsUpTo
  IsBefore front back = All (IsUpTo front) back

  IsBefore-append :
      (x : A) (front back : List A)
      → IsBefore front back
      → All (λ y. key x ≤ℤ key y) back
      → IsBefore (front ++ (x ∷ [])) back
  unfolding IsBefore IsUpTo
  IsBefore-append x front [] h all = tt
  IsBefore-append x front (y ∷ back) (first, h) (least, all) =
      (All-append _ front (x ∷ []) first (least, tt), IsBefore-append x front back h all)

  insert_each_sorted :
      (front back : List A)
      → IsSorted back
      → IsBefore front back
      → insert_each front back ≡ front ++ back
  unfolding insert_each IsSorted IsBefore
  insert_each_sorted front [] sorted before = ground (arith, append-nil front)
  insert_each_sorted front (x ∷ back) (least, sorted) (first, before) =
      rw (insert_by_last x front first) (
        insert_each_sorted (front ++ (x ∷ [])) back sorted
          (IsBefore-append x front back before least)
        ∙ append_assoc front (x ∷ []) back)

  IsBefore-nil : (back : List A) → IsBefore [] back
  unfolding IsBefore IsUpTo
  IsBefore-nil [] = tt
  IsBefore-nil (x ∷ xs) = (tt, IsBefore-nil xs)

  -- A sorted list stays as it is.
  pub sort_by_sorted : (xs : List A) → IsSorted xs → sort_by xs ≡ xs
  unfolding sort_by
  sort_by_sorted xs h = insert_each_sorted [] xs h (IsBefore-nil xs)

  insert_each-append :
      (front xs ys : List A) → insert_each front (xs ++ ys) ≡ insert_each (insert_each front xs) ys
  unfolding insert_each
  insert_each-append front [] ys = refl
  insert_each-append front (x ∷ xs) ys = insert_each-append (insert_by x front) xs ys

  pub sort_by_last : (xs : List A) (x : A) → sort_by (xs ++ (x ∷ [])) ≡ insert_by x (sort_by xs)
  unfolding sort_by insert_each
  sort_by_last xs x = insert_each-append [] xs (x ∷ [])

  insert_each-IsSorted : (front xs : List A) → IsSorted front → IsSorted (insert_each front xs)
  unfolding insert_each
  insert_each-IsSorted front [] h = h
  insert_each-IsSorted front (x ∷ xs) h =
      insert_each-IsSorted (insert_by x front) xs (insert_by-IsSorted x front h)

  pub sort_by-IsSorted : (xs : List A) → IsSorted (sort_by xs)
  unfolding sort_by IsSorted
  sort_by-IsSorted xs = insert_each-IsSorted [] xs tt

  filter-All {κ} : (P : A → Type κ) (p : A → Bool) (xs : List A) → All P xs → All P (filter p xs)
  filter-All P p [] all = tt
  filter-All P p (x ∷ xs) (first, all) = elim (Bool-cases (p x)) [
    | inl e ↦ rw e (first, filter-All P p xs all)
    | inr e ↦ rw e (filter-All P p xs all)
  ]

  insert_by_first :
      (x : A) (xs : List A) → All (λ y. ltb_ℤ (key x) (key y) ≡ true) xs → insert_by x xs ≡ x ∷ xs
  unfolding insert_by
  insert_by_first x [] h = refl
  insert_by_first x (y ∷ ys) (less, h) = rw less refl

  All-above :
      (x y : A) (ys : List A)
      → ltb_ℤ (key x) (key y) ≡ true
      → All (λ z. key y ≤ℤ key z) ys
      → All (λ z. ltb_ℤ (key x) (key z) ≡ true) ys
  All-above x y [] h all = tt
  All-above x y (z ∷ zs) h (first, all) = (ground arith, All-above x y zs h all)

  -- Filtering and then inserting is inserting and then filtering.
  pub filter-insert_by :
      (p : A → Bool) (x : A) (xs : List A)
      → IsSorted xs
      → filter p (insert_by x xs) ≡ (if p x then insert_by x (filter p xs) else filter p xs)
  unfolding insert_by IsSorted
  filter-insert_by p x [] h = ground arith
  filter-insert_by p x (y ∷ ys) (all, h) = elim (Bool-cases (ltb_ℤ (key x) (key y))) [
    | inl less ↦
        let above : All (λ z. ltb_ℤ (key x) (key z) ≡ true) (y ∷ ys) =
          (less, All-above x y ys less all) in
        let kept = filter-All (λ z. ltb_ℤ (key x) (key z) ≡ true) p (y ∷ ys) above in
        let first = insert_by_first x (filter p (y ∷ ys)) kept in rw less (ground (arith, first))
    | inr e ↦ rw e (ground (arith, filter-insert_by p x ys h))
  ]

  pub count-insert_by :
      (p : A → Bool) (x : A) (xs : List A)
      → count p (insert_by x xs) ≡ (if p x then 1 else 0) + count p xs
  unfolding insert_by
  count-insert_by p x [] = refl
  count-insert_by p x (y ∷ ys) = elim (Bool-cases (ltb_ℤ (key x) (key y))) [
    | inl e ↦ rw e refl
    | inr e ↦ rw (e, count-insert_by p x ys) (omega arith)
  ]

  pub length-insert_by : (x : A) (xs : List A) → length (insert_by x xs) ≡ length xs + 1
  unfolding insert_by
  length-insert_by x [] = refl
  length-insert_by x (y ∷ ys) = ground (arith, length-insert_by x ys)

  length-insert_each :
      (sorted xs : List A) → length (insert_each sorted xs) ≡ length sorted + length xs
  unfolding insert_each
  length-insert_each sorted [] = omega arith
  length-insert_each sorted (x ∷ xs) =
      omega (arith, length-insert_each (insert_by x sorted) xs, length-insert_by x sorted)

  pub length-sort_by : (xs : List A) → length (sort_by xs) ≡ length xs
  unfolding sort_by
  length-sort_by xs = omega (arith, length-insert_each [] xs)

  insert_each-All {κ} :
      (P : A → Type κ) (sorted xs : List A)
      → All P sorted
      → All P xs
      → All P (insert_each sorted xs)
  unfolding insert_each
  insert_each-All P sorted [] h all = h
  insert_each-All P sorted (x ∷ xs) h (first, all) =
      insert_each-All P (insert_by x sorted) xs (insert_by-All P x sorted first h) all

  pub sort_by-All {κ} : (P : A → Type κ) (xs : List A) → All P xs → All P (sort_by xs)
  unfolding sort_by
  sort_by-All P xs all = insert_each-All P [] xs tt all
