-- ===== src/Index/Inverted.antt =====
-- storage/src/index/inverted.rs: `InvertedIndex`, `LabelMatcher` and the set operations.
pub mod Entries
pub mod Consistent
use chono_db.Prelude.{
  ℕ, ◌==◌, ltb, List, [], ◌∷◌, ◌++◌, map, length, filter, String, Bool, true, false, not, ◌&&◌,
  ◌||◌, Option, none, some, if◌then◌else◌,
}
use chono_db.Prelude.Assoc.{Assoc, Key, text_key, number_key, lookup, insert, remove, keys}
use chono_db.Model.{TimeSeriesId, Label, Labels}

pub record InvertedIndex : Type 0 where
  pub label_name_to_values : Assoc String (Assoc String (List TimeSeriesId))
  pub series_labels : Assoc TimeSeriesId Labels

unfoldable pub new : InvertedIndex
new = record { label_name_to_values = []; series_labels = [] }

-- A `BTreeSet` is its elements in ascending order.
unfoldable pub set_insert : ℕ → List ℕ → List ℕ
set_insert i [] = i ∷ []
set_insert i (j ∷ js) =
    let rest = set_insert i js in
    if ltb i j then i ∷ j ∷ js else if i == j then j ∷ js else j ∷ rest

unfoldable pub set_remove : ℕ → List ℕ → List ℕ
set_remove i js = filter (λ j. not (i == j)) js

unfoldable pub contains : ℕ → List ℕ → Bool
contains i [] = false
contains i (j ∷ js) = j == i || contains i js

-- `entry(key).or_insert(empty)`
abbrev pub or_empty {ℓ} : {A : Type ℓ} → Option (List A) → List A
or_empty none = []
or_empty (some xs) = xs

unfoldable pub add_label_entry : InvertedIndex → String → String → TimeSeriesId → InvertedIndex
add_label_entry index name value series_id =
    let values_map = or_empty (lookup name index.label_name_to_values) in
    let series_set = set_insert series_id (or_empty (lookup value values_map)) in
    record index {
      label_name_to_values =
          insert name (insert value series_set values_map) index.label_name_to_values;
    }

unfoldable pub add_entries : InvertedIndex → Labels → TimeSeriesId → InvertedIndex
add_entries index [] series_id = index
add_entries index (label ∷ labels) series_id =
    add_entries (add_label_entry index label.name label.value series_id) labels series_id

-- `add_series` returns no error.
unfoldable pub add_series : InvertedIndex → TimeSeriesId → Labels → InvertedIndex
add_series index series_id labels =
    add_entries (record index { series_labels = insert series_id labels index.series_labels })
      labels series_id

unfoldable pub remove_label_entry : InvertedIndex → String → String → TimeSeriesId → InvertedIndex
remove_label_entry index name value series_id = elim (lookup name index.label_name_to_values) [
  | none ↦ index
  | some values_map ↦ elim (lookup value values_map) [
    | none ↦ index
    | some series_set ↦ record index {
      label_name_to_values =
          insert name (insert value (set_remove series_id series_set) values_map)
            index.label_name_to_values;
    }
  ]
]

unfoldable pub remove_entries : InvertedIndex → Labels → TimeSeriesId → InvertedIndex
remove_entries index [] series_id = index
remove_entries index (label ∷ labels) series_id =
    remove_entries (remove_label_entry index label.name label.value series_id) labels series_id

unfoldable pub forget_series : InvertedIndex → TimeSeriesId → InvertedIndex
forget_series index series_id = record index {
  series_labels = remove series_id index.series_labels;
}

-- `remove_series` returns no error.
unfoldable pub remove_series : InvertedIndex → TimeSeriesId → InvertedIndex
remove_series index series_id = elim (lookup series_id index.series_labels) [
  | none ↦ index
  | some labels ↦ forget_series (remove_entries index labels series_id) series_id
]

-- `lookup`
unfoldable pub find : InvertedIndex → String → String → List TimeSeriesId
find index name value = elim (lookup name index.label_name_to_values) [
  | none ↦ []
  | some values_map ↦ or_empty (lookup value values_map)
]

pub data LabelMatcher : Type 0 where
  equal : String → LabelMatcher
  not_equal : String → LabelMatcher
  regex : String → LabelMatcher
  not_regex : String → LabelMatcher

unfoldable pub all_series_ids : InvertedIndex → List TimeSeriesId
all_series_ids index = keys index.series_labels

unfoldable pub series_count : InvertedIndex → ℕ
series_count index = length index.series_labels

unfoldable pub get_series_labels : InvertedIndex → TimeSeriesId → Option Labels
get_series_labels index series_id = lookup series_id index.series_labels

unfoldable pub label_names : InvertedIndex → List String
label_names index = keys index.label_name_to_values

unfoldable pub label_values : InvertedIndex → String → List String
label_values index name = elim (lookup name index.label_name_to_values) [
  | none ↦ []
  | some values_map ↦ keys values_map
]

-- The ids of the values that `accepted` takes.
unfoldable pub ids_of_values :
    (String → Bool) → Assoc String (List TimeSeriesId) → List TimeSeriesId
ids_of_values accepted [] = []
ids_of_values accepted ((value, ids) ∷ values_map) =
    let rest = ids_of_values accepted values_map in if accepted value then ids ++ rest else rest

-- `regex::Regex::new` is a parameter, `none` on a pattern that it refuses.
module _ (compile : String → Option (String → Bool)) where
  -- `none` is the panic of `unwrap` on a pattern that the regex library refuses.
  unfoldable pub lookup_by_matcher :
      InvertedIndex → String → LabelMatcher → Option (List TimeSeriesId)
  lookup_by_matcher index name (equal value) = some (find index name value)
  lookup_by_matcher index name (not_equal value) =
      some (filter (λ i. not (contains i (find index name value))) (all_series_ids index))
  lookup_by_matcher index name (regex pattern) = elim (compile pattern) [
    | none ↦ none
    | some is_match ↦
        some (ids_of_values is_match (or_empty (lookup name index.label_name_to_values)))
  ]
  lookup_by_matcher index name (not_regex pattern) = elim (compile pattern) [
    | none ↦ none
    | some is_match ↦
        some (
          ids_of_values (λ v. not (is_match v)) (or_empty (lookup name index.label_name_to_values)))
  ]

  unfoldable pub matches : LabelMatcher → String → Bool
  matches (equal v) value = text_key.same value v
  matches (not_equal v) value = not (text_key.same value v)
  matches (regex pattern) value = elim (compile pattern) [
    | none ↦ false
    | some is_match ↦ is_match value
  ]
  matches (not_regex pattern) value = elim (compile pattern) [
    | none ↦ true
    | some is_match ↦ not (is_match value)
  ]

-- The program collects both lists in sets; the lists that it intersects, those of an index, name no
-- series twice, and come here in the order of the first one. The order in which
-- a hash set is listed is not modelled.
unfoldable pub intersect_series_ids : List TimeSeriesId → List TimeSeriesId → List TimeSeriesId
intersect_series_ids a b = filter (λ i. contains i b) a
