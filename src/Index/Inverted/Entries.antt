-- ===== src/Index/Inverted/Entries.antt =====
-- What one entry of the index is after another one was changed.
use chono_db.Prelude.{
  ℕ, ◌≡◌, ◌⊎◌, refl, ◌∙◌, ◌==◌, List, [], ◌∷◌, String, Bool, true, false, not, ◌&&◌, ◌||◌, Option,
  some, if◌then◌else◌, arith, Option-cases, Bool-cases, inl, inr,
}
use chono_db.Prelude.Assoc.{Assoc, text_key, number_key, lookup, insert, lookup-insert}
use chono_db.Model.{TimeSeriesId, Labels}
use chono_db.Index.Inverted.{
  InvertedIndex, set_insert, set_remove, contains, or_empty, add_label_entry, remove_label_entry,
  find,
}

unfoldable pub carries : Labels → String → String → Bool
carries [] name value = false
carries (label ∷ labels) name value =
    (text_key.same label.name name && text_key.same label.value value) || carries labels name value

pub contains-set_insert :
    (i j : ℕ) (ids : List ℕ) → contains j (set_insert i ids) ≡ i == j || contains j ids
unfolding contains set_insert
contains-set_insert i j [] = refl
contains-set_insert i j (k ∷ ks) = ground (arith, contains-set_insert i j ks)

pub contains-set_remove :
    (i j : ℕ) (ids : List ℕ) → contains j (set_remove i ids) ≡ not (i == j) && contains j ids
unfolding contains set_remove
contains-set_remove i j [] = ground arith
contains-set_remove i j (k ∷ ks) = ground (arith, contains-set_remove i j ks)

-- The ids under a name and a value, with an absent entry as an empty one.
abbrev pub under : Assoc String (Assoc String (List ℕ)) → String → String → List ℕ
under index n v = or_empty (lookup v (or_empty (lookup n index)))

pub find_lem : (ix : InvertedIndex) (n v : String) → find ix n v ≡ under ix.label_name_to_values n v
unfolding find lookup
find_lem ix n v = elim (Option-cases (lookup n ix.label_name_to_values)) [
  | inl e ↦ ground (arith, e)
  | inr (m, e) ↦ ground (arith, e)
]

some_or :
    (b : Bool) (ids : List ℕ) (o : Option (List ℕ))
    → or_empty (if b then some ids else o) ≡ (if b then ids else or_empty o)
some_or b ids o = ground arith

under-insert :
    (m : Assoc String (Assoc String (List ℕ))) (n v n' v' : String) (ids : List ℕ)
    → under (insert n (insert v ids (or_empty (lookup n m))) m) n' v'
      ≡ (if text_key.same n n' && text_key.same v v' then ids else under m n' v')
under-insert m n v n' v' ids =
    let outer = lookup-insert n n' (insert v ids (or_empty (lookup n m))) m in
    let inner = lookup-insert v v' ids (or_empty (lookup n m)) in
    elim (Bool-cases (text_key.same n n')) [
      | inl e ↦
          let equal : n ≡ n' = (text_key.same_iff n n').0 e in
          rw (outer, e)
            (rw inner
              (rw (← equal) (some_or (text_key.same v v') ids (lookup v' (or_empty (lookup n m))))))
      | inr e ↦ rw (outer, e) refl
    ]

pub find-add_label_entry :
    (ix : InvertedIndex) (n v n' v' : String) (i : TimeSeriesId)
    → find (add_label_entry ix n v i) n' v' ≡ (
        if text_key.same n n' && text_key.same v v'
        then set_insert i (find ix n v)
        else find ix n' v')
unfolding add_label_entry
find-add_label_entry ix n v n' v' i =
    let ids = set_insert i (under ix.label_name_to_values n v) in
    find_lem (add_label_entry ix n v i) n' v'
    ∙ under-insert ix.label_name_to_values n v n' v' ids
    ∙ rw (find_lem ix n v, find_lem ix n' v') refl

pub both_same :
    (n n' v v' : String) → (text_key.same n n' && text_key.same v v') ≡ true → (n ≡ n') × (v ≡ v')
both_same n n' v v' e =
    ((text_key.same_iff n n').0 (ground arith), (text_key.same_iff v v').0 (ground arith))

-- Removing from no entry is no change.
absent :
    (ix : InvertedIndex) (n v n' v' : String) (i : TimeSeriesId)
    → find ix n v ≡ []
    → find ix n' v' ≡ (
        if text_key.same n n' && text_key.same v v'
        then set_remove i (find ix n v)
        else find ix n' v')
absent ix n v n' v' i none_yet = elim (Bool-cases (text_key.same n n' && text_key.same v v')) [
  | inl e ↦
      let (names, values) = both_same n n' v v' e in
      rw e (rw (← names, ← values) (rw none_yet (unfold set_remove in refl)))
  | inr e ↦ rw e refl
]

-- An absent entry stays absent; one that is there is replaced.
remove_label_entry_cases :
    (ix : InvertedIndex) (n v : String) (i : TimeSeriesId)
    → ((remove_label_entry ix n v i ≡ ix) × (find ix n v ≡ []))
      ⊎ (remove_label_entry ix n v i ≡ record ix {
        label_name_to_values =
            insert n
              (insert v (set_remove i (find ix n v)) (or_empty (lookup n ix.label_name_to_values)))
              ix.label_name_to_values;
      })
unfolding remove_label_entry find
remove_label_entry_cases ix n v i = elim (Option-cases (lookup n ix.label_name_to_values)) [
  | inl e ↦ inl (rw (remove_label_entry, e) refl, rw (find, e) refl)
  | inr (m, e) ↦ elim (Option-cases (lookup v m)) [
    | inl e' ↦ inl (rw (remove_label_entry, e) (rw e' refl), rw (find, e) (rw e' refl))
    | inr (ids, e') ↦ inr (rw (remove_label_entry, find, e) (rw e' refl))
  ]
]

pub find-remove_label_entry :
    (ix : InvertedIndex) (n v n' v' : String) (i : TimeSeriesId)
    → find (remove_label_entry ix n v i) n' v' ≡ (
        if text_key.same n n' && text_key.same v v'
        then set_remove i (find ix n v)
        else find ix n' v')
find-remove_label_entry ix n v n' v' i = elim (remove_label_entry_cases ix n v i) [
  | inl (same, none_yet) ↦ rw same (absent ix n v n' v' i none_yet)
  | inr replaced ↦ rw replaced (
      find_lem _ n' v'
      ∙ under-insert ix.label_name_to_values n v n' v' (set_remove i (find ix n v))
      ∙ rw (find_lem ix n' v') refl)
]

pub remove_label_entry-series_labels :
    (ix : InvertedIndex) (n v : String) (i : TimeSeriesId)
    → (remove_label_entry ix n v i).series_labels ≡ ix.series_labels
remove_label_entry-series_labels ix n v i = elim (remove_label_entry_cases ix n v i) [
  | inl (same, none_yet) ↦ rw same refl
  | inr replaced ↦ rw replaced refl
]
