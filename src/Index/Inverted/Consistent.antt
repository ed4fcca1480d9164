-- ===== src/Index/Inverted/Consistent.antt =====
-- An id stands under a label exactly when the labels of its series say so.
use chono_db.Prelude.{
  ℕ, ◌≡◌, refl, sym, ap, subst, ◌∙◌, ◌==◌, ==_iff, [], ◌∷◌, String, Bool, true, false, not, ◌&&◌,
  ◌||◌, Option, none, some, if◌then◌else◌, arith, Option-cases, Bool-cases, inl, inr,
}
use chono_db.Prelude.Assoc.{
  text_key, number_key, lookup, insert, remove, lookup-insert, lookup-remove,
}
use chono_db.Model.{TimeSeriesId, Labels}
use chono_db.Index.Inverted.{
  InvertedIndex, new, contains, add_label_entry, add_entries, add_series, remove_label_entry,
  remove_entries, forget_series, remove_series, find,
}
use chono_db.Index.Inverted.Entries.{
  carries, contains-set_insert, contains-set_remove, find-add_label_entry, find-remove_label_entry,
  both_same, remove_label_entry-series_labels,
}

listed-add_label_entry :
    (ix : InvertedIndex) (n v n' v' : String) (i j : TimeSeriesId)
    → contains j (find (add_label_entry ix n v i) n' v')
      ≡ (i == j && (text_key.same n n' && text_key.same v v')) || contains j (find ix n' v')
listed-add_label_entry ix n v n' v' i j =
    rw (find-add_label_entry ix n v n' v' i)
      (elim (Bool-cases (text_key.same n n' && text_key.same v v')) [
        | inl e ↦
            let (names, values) = both_same n n' v v' e in
            rw e (rw (← names, ← values, contains-set_insert i j (find ix n v)) (ground arith))
        | inr e ↦ rw e (ground arith)
      ])

listed-remove_label_entry :
    (ix : InvertedIndex) (n v n' v' : String) (i j : TimeSeriesId)
    → contains j (find (remove_label_entry ix n v i) n' v')
      ≡ not (i == j && (text_key.same n n' && text_key.same v v')) && contains j (find ix n' v')
listed-remove_label_entry ix n v n' v' i j =
    rw (find-remove_label_entry ix n v n' v' i)
      (elim (Bool-cases (text_key.same n n' && text_key.same v v')) [
        | inl e ↦
            let (names, values) = both_same n n' v v' e in
            rw e (rw (← names, ← values, contains-set_remove i j (find ix n v)) (ground arith))
        | inr e ↦ rw e (ground arith)
      ])

listed-add_entries :
    (ix : InvertedIndex) (labels : Labels) (n v : String) (i j : TimeSeriesId)
    → contains j (find (add_entries ix labels i) n v)
      ≡ (i == j && carries labels n v) || contains j (find ix n v)
unfolding add_entries carries
listed-add_entries ix [] n v i j = ground arith
listed-add_entries ix (l ∷ ls) n v i j = ground (
  arith,
  listed-add_entries (add_label_entry ix l.name l.value i) ls n v i j,
  listed-add_label_entry ix l.name l.value n v i j,
)

listed-remove_entries :
    (ix : InvertedIndex) (labels : Labels) (n v : String) (i j : TimeSeriesId)
    → contains j (find (remove_entries ix labels i) n v)
      ≡ not (i == j && carries labels n v) && contains j (find ix n v)
unfolding remove_entries carries
listed-remove_entries ix [] n v i j = ground arith
listed-remove_entries ix (l ∷ ls) n v i j = ground (
  arith,
  listed-remove_entries (remove_label_entry ix l.name l.value i) ls n v i j,
  listed-remove_label_entry ix l.name l.value n v i j,
)

unfoldable pub carried : Option Labels → String → String → Bool
carried none n v = false
carried (some labels) n v = carries labels n v

-- The index lists a series under a label exactly when the labels that it keeps of the series have
-- the label.
unfoldable pub IsConsistent : InvertedIndex → Type 0
IsConsistent ix =
    (j : TimeSeriesId) (n v : String)
    → contains j (find ix n v) ≡ carried (lookup j ix.series_labels) n v

pub new-IsConsistent : IsConsistent new
unfolding IsConsistent new find contains carried lookup
new-IsConsistent j n v = refl

add_entries-series_labels :
    (ix : InvertedIndex) (labels : Labels) (i : TimeSeriesId)
    → (add_entries ix labels i).series_labels ≡ ix.series_labels
unfolding add_entries add_label_entry
add_entries-series_labels ix [] i = refl
add_entries-series_labels ix (l ∷ ls) i =
    add_entries-series_labels (add_label_entry ix l.name l.value i) ls i

pub add_series-series_labels :
    (ix : InvertedIndex) (labels : Labels) (i : TimeSeriesId)
    → (add_series ix i labels).series_labels ≡ insert i labels ix.series_labels
unfolding add_series
add_series-series_labels ix labels i =
    add_entries-series_labels (record ix { series_labels = insert i labels ix.series_labels })
      labels i

find-series_labels :
    (ix : InvertedIndex) (labels : Labels) (i : TimeSeriesId) (n v : String)
    → find (record ix { series_labels = insert i labels ix.series_labels }) n v ≡ find ix n v
unfolding find
find-series_labels ix labels i n v = refl

listed-add_series :
    (ix : InvertedIndex) (labels : Labels) (n v : String) (i j : TimeSeriesId)
    → contains j (find (add_series ix i labels) n v)
      ≡ (i == j && carries labels n v) || contains j (find ix n v)
unfolding add_series
listed-add_series ix labels n v i j =
    listed-add_entries (record ix { series_labels = insert i labels ix.series_labels }) labels n v i
      j
    ∙ ap (λ ids. (i == j && carries labels n v) || contains j ids)
        (find-series_labels ix labels i n v)

carried-if :
    (b : Bool) (labels : Labels) (o : Option Labels) (n v : String)
    → (b ≡ true → o ≡ none)
    → (b && carries labels n v) || carried o n v ≡ carried (if b then some labels else o) n v
unfolding carried
carried-if true labels o n v h = rw (h refl) (ground arith)
carried-if false labels o n v h = refl

-- Adding a series that the index does not have keeps the index consistent.
pub add_series-IsConsistent :
    (ix : InvertedIndex) (i : TimeSeriesId) (labels : Labels)
    → IsConsistent ix
    → lookup i ix.series_labels ≡ none
    → IsConsistent (add_series ix i labels)
unfolding IsConsistent
add_series-IsConsistent ix i labels h fresh j n v =
    let new_here : i == j ≡ true → lookup j ix.series_labels ≡ none =
      λ e. subst (λ (k : ℕ). lookup k ix.series_labels ≡ none) ((==_iff i j).0 e) fresh in
    listed-add_series ix labels n v i j
    ∙ ap (λ b. (i == j && carries labels n v) || b) (h j n v)
    ∙ carried-if (i == j) labels (lookup j ix.series_labels) n v new_here
    ∙ ap (λ o. carried o n v) (sym (lookup-insert i j labels ix.series_labels))
    ∙ ap (λ m. carried (lookup j m) n v) (sym (add_series-series_labels ix labels i))

remove_entries-series_labels :
    (ix : InvertedIndex) (labels : Labels) (i : TimeSeriesId)
    → (remove_entries ix labels i).series_labels ≡ ix.series_labels
unfolding remove_entries
remove_entries-series_labels ix [] i = refl
remove_entries-series_labels ix (l ∷ ls) i =
    remove_entries-series_labels (remove_label_entry ix l.name l.value i) ls i
    ∙ remove_label_entry-series_labels ix l.name l.value i

pub remove_series-series_labels :
    (ix : InvertedIndex) (i : TimeSeriesId) (labels : Labels)
    → lookup i ix.series_labels ≡ some labels
    → (remove_series ix i).series_labels ≡ remove i ix.series_labels
unfolding remove_series forget_series
remove_series-series_labels ix i labels e =
    rw (remove_series, e) (rw (remove_entries-series_labels ix labels i) refl)

find-forget_series :
    (ix : InvertedIndex) (i : TimeSeriesId) (n v : String)
    → find (forget_series ix i) n v ≡ find ix n v
unfolding find forget_series
find-forget_series ix i n v = refl

carried-unless :
    (b : Bool) (labels : Labels) (o : Option Labels) (n v : String)
    → (b ≡ true → o ≡ some labels)
    → not (b && carries labels n v) && carried o n v ≡ carried (if b then none else o) n v
unfolding carried
carried-unless true labels o n v h = rw (h refl) (ground arith)
carried-unless false labels o n v h = ground arith

remove_series-some :
    (ix : InvertedIndex) (i : TimeSeriesId) (labels : Labels)
    → lookup i ix.series_labels ≡ some labels
    → remove_series ix i ≡ forget_series (remove_entries ix labels i) i
unfolding remove_series
remove_series-some ix i labels e = rw (remove_series, e) refl

remove_series-none :
    (ix : InvertedIndex) (i : TimeSeriesId)
    → lookup i ix.series_labels ≡ none
    → remove_series ix i ≡ ix
unfolding remove_series
remove_series-none ix i e = rw (remove_series, e) refl

-- Removing a series keeps the index consistent.
pub remove_series-IsConsistent :
    (ix : InvertedIndex) (i : TimeSeriesId) → IsConsistent ix → IsConsistent (remove_series ix i)
remove_series-IsConsistent ix i h = elim (Option-cases (lookup i ix.series_labels)) [
  | inl e ↦ subst IsConsistent (sym (remove_series-none ix i e)) h
  | inr (labels, e) ↦
      unfold IsConsistent in
      λ j n v.
        let here : i == j ≡ true → lookup j ix.series_labels ≡ some labels = λ same.
          subst (λ (k : ℕ). lookup k ix.series_labels ≡ some labels) ((==_iff i j).0 same) e in
        ap (λ after. contains j (find after n v)) (remove_series-some ix i labels e)
        ∙ ap (contains j) (find-forget_series (remove_entries ix labels i) i n v)
        ∙ listed-remove_entries ix labels n v i j
        ∙ ap (λ b. not (i == j && carries labels n v) && b) (h j n v)
        ∙ carried-unless (i == j) labels (lookup j ix.series_labels) n v here
        ∙ ap (λ o. carried o n v) (sym (lookup-remove i j ix.series_labels))
        ∙ ap (λ m. carried (lookup j m) n v) (sym (remove_series-series_labels ix i labels e))
]
