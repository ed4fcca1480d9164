-- ===== src/MemStore/Store/Find.antt =====
-- Finding series by their labels.
use chono_db.Prelude.{
  ℕ, ◌==◌, ==_iff, ◌≡◌, refl, ap, ◌∙◌, List, [], ◌∷◌, filter, String, Bool, true, ◌&&◌, Option,
  none, some, is_some, Bool-cases, inl, inr, arith,
}
use chono_db.Prelude.Assoc.{Assoc, number_key, lookup, keys}
use chono_db.Model.{TimeSeriesId, Labels}
use chono_db.Index.Inverted.{contains, find, all_series_ids, intersect_series_ids, or_empty}
use chono_db.Index.Inverted.Consistent.{IsConsistent, carried}
use chono_db.MemStore.Head.{HeadBlock, get_series_labels}
use chono_db.MemStore.Head.Invariant.{IsHead, labels_of}
use chono_db.MemStore.Store.{find_loop, find_series}

unfoldable pub carries_each : Option Labels → List (String × String) → Bool
carries_each labels [] = true
carries_each labels ((name, value) ∷ matchers) =
    carried labels name value && carries_each labels matchers

-- A series that exists satisfies the matchers when it has all their labels.
unfoldable pub satisfies : Option Labels → List (String × String) → Bool
satisfies labels matchers = is_some labels && carries_each labels matchers

contains-filter :
    (i : ℕ) (p : ℕ → Bool) (js : List ℕ) → contains i (filter p js) ≡ p i && contains i js
unfolding contains
contains-filter i p [] = ground arith
contains-filter i p (j ∷ js) = elim (Bool-cases (j == i)) [
  | inl e ↦ rw ((==_iff j i).0 e) (ground (arith, contains-filter i p js))
  | inr e ↦ ground (arith, contains-filter i p js, e)
]

contains-keys : {V : Type 0} (i : ℕ) (m : Assoc ℕ V) → contains i (keys m) ≡ is_some (lookup i m)
unfolding contains keys lookup
contains-keys i [] = refl
contains-keys i ((j, v) ∷ m) = ground (arith, contains-keys i m)

listed :
    (head : HeadBlock) (i : TimeSeriesId) (name value : String)
    → IsHead head
    → contains i (find head.index name value)
      ≡ carried (labels_of (lookup i head.series)) name value
unfolding IsConsistent
listed head i name value h =
    h.consistent i name value ∙ ap (λ o. carried o name value) (h.labelled i)

contains-find_loop :
    (head : HeadBlock) (ms : List (String × String)) (found : List TimeSeriesId) (i : TimeSeriesId)
    → IsHead head
    → contains i (or_empty (find_loop head ms (some found)))
      ≡ contains i found && carries_each (labels_of (lookup i head.series)) ms
unfolding find_loop carries_each intersect_series_ids
contains-find_loop head [] found i h = ground arith
contains-find_loop head ((name, value) ∷ ms) found i h =
    let series = find head.index name value in
    contains-find_loop head ms (intersect_series_ids found series) i h
    ∙ ground (arith, contains-filter i (λ j. contains j series) found, listed head i name value h)

find_series-cons :
    (head : HeadBlock) (name value : String) (ms : List (String × String))
    → find_series head ((name, value) ∷ ms)
      ≡ or_empty (find_loop head ms (some (find head.index name value)))
unfolding find_series find_loop
find_series-cons head name value ms = refl

labels_of-lookup :
    (head : HeadBlock) (i : TimeSeriesId)
    → get_series_labels head i ≡ labels_of (lookup i head.series)
unfolding get_series_labels
labels_of-lookup head i = refl

find_series-nil :
    (head : HeadBlock) (i : TimeSeriesId)
    → IsHead head
    → contains i (find_series head []) ≡ is_some (labels_of (lookup i head.series))
unfolding find_series all_series_ids
find_series-nil head i h = contains-keys i head.index.series_labels ∙ ap is_some (h.labelled i)

carried_some :
    (o : Option Labels) (name value : String) (b : Bool)
    → carried o name value && b ≡ is_some o && (carried o name value && b)
unfolding carried
carried_some none name value b = refl
carried_some (some labels) name value b = refl

-- In a well-formed block `find_series` returns exactly the series that exist and have the labels of
-- all matchers; without a matcher, every series.
pub find_series_lem :
    (head : HeadBlock) (ms : List (String × String)) (i : TimeSeriesId)
    → IsHead head
    → contains i (find_series head ms) ≡ satisfies (get_series_labels head i) ms
find_series_lem head [] i h =
    rw (labels_of-lookup head i)
      (find_series-nil head i h ∙ unfold satisfies in unfold carries_each in ground arith)
find_series_lem head ((name, value) ∷ ms) i h = rw (labels_of-lookup head i) (
    ap (contains i) (find_series-cons head name value ms)
    ∙ contains-find_loop head ms (find head.index name value) i h
    ∙ ap (λ b. b && carries_each (labels_of (lookup i head.series)) ms) (listed head i name value h)
    ∙ unfold satisfies in
      unfold carries_each in
      carried_some (labels_of (lookup i head.series)) name value
        (carries_each (labels_of (lookup i head.series)) ms))
