-- ===== src/Alert.antt =====
-- server/src/rules/alerting.rs: `AlertManager`. A time is a number of nanoseconds; `none` is the panic
-- of `duration_since(..).unwrap()` on a clock that went back. What every notifier is sent, in order,
-- stands beside the new state.
use chono_db.Prelude.{
  ℕ, zero, suc, ◌-◌, ◌*◌, ◌^◌, String, Bool, true, false, ◌&&◌, Option, none, some, List, [], ◌∷◌,
  ◌++◌, map, reverse, length, filter, ltb, leb, ◌==◌, if◌then◌else◌, get_elem?,
}
use chono_db.Prelude.Assoc.{text_key, Assoc, lookup, insert}
use chono_db.Model.{F64, Label}
pub mod Expiry
mod Tests

pub data AlertState : Type 0 where
  inactive pending firing : AlertState

-- `state == AlertState::Firing`
unfoldable pub is_firing : AlertState → Bool
is_firing inactive = false
is_firing pending = false
is_firing firing = true

pub record Alert : Type 0 where
  pub name : String
  pub state : AlertState
  pub labels : Assoc String String
  pub annotations : Assoc String String
  pub active_at : Option ℕ
  pub last_evaluation : Option ℕ
  pub value : F64

abbrev pub seconds : ℕ → ℕ
seconds n = n * 10 ^ 9

-- `labels.into_iter().map(..).collect()`, in which the last of equal names counts.
unfoldable pub collect_labels : List Label → Assoc String String → Assoc String String
collect_labels [] done = done
collect_labels (label ∷ labels) done = collect_labels labels (insert label.name label.value done)

unfoldable pub has_value : Option String → String → Bool
has_value none v = false
has_value (some w) v = text_key.same w v

unfoldable pub has_all : Assoc String String → Assoc String String → Bool
unfolding has_value
has_all [] b = true
has_all ((k, v) ∷ a) b = has_value (lookup k b) v && has_all a b

-- Equality of two `HashMap`s.
unfoldable pub same_map : Assoc String String → Assoc String String → Bool
unfolding has_all
same_map a b = (length a == length b) && has_all a b

abbrev pub AlertManager : Type 0
AlertManager = List Alert

-- The change of the state of an alert that is evaluated at `now`.
unfoldable pub transition : ℕ → Alert → AlertState → Option (Alert × List Alert)
transition now a inactive =
    let a' = record a { state = pending; active_at = some now } in some (a', a' ∷ [])
transition now a pending = elim a.active_at [
  | none ↦ some (a, [])
  | some since ↦
      if ltb now since
      then none
      else if leb (seconds 300) (now - since)
      then (let a' = record a { state = firing } in some (a', a' ∷ []))
      else some (a, [])
]
transition now a firing = some (a, [])

unfoldable pub evaluate : ℕ → F64 → Assoc String String → Alert → Option (Alert × List Alert)
unfolding transition
evaluate now v notes a =
    transition now (record a { value = v; last_evaluation = some now; annotations = notes }) a.state

unfoldable pub with_rest :
    AlertManager → Option (Alert × List Alert) → Option (AlertManager × List Alert)
with_rest rest none = none
with_rest rest (some (a, sent)) = some (a ∷ rest, sent)

unfoldable pub behind :
    Alert → Option (AlertManager × List Alert) → Option (AlertManager × List Alert)
behind a none = none
behind a (some (rest, sent)) = some (a ∷ rest, sent)

unfoldable pub create_or_update :
    ℕ
    → String
    → Assoc String String
    → F64
    → Assoc String String
    → AlertManager
    → Option (AlertManager × List Alert)
unfolding evaluate with_rest behind same_map
create_or_update now n ls v notes [] =
    let a : Alert = record {
      name = n;
      state = pending;
      labels = ls;
      annotations = notes;
      active_at = some now;
      last_evaluation = some now;
      value = v;
    } in
    some (a ∷ [], a ∷ [])
create_or_update now n ls v notes (a ∷ alerts) =
    let later = create_or_update now n ls v notes alerts in
    if text_key.same a.name n && same_map a.labels ls
    then with_rest alerts (evaluate now v notes a)
    else behind a later

unfoldable pub create_alert :
    ℕ
    → String
    → List Label
    → F64
    → Assoc String String
    → AlertManager
    → Option (AlertManager × List Alert)
unfolding collect_labels create_or_update
create_alert now n ls v notes alerts = create_or_update now n (collect_labels ls []) v notes alerts

unfoldable pub add_alert : Alert → AlertManager → AlertManager
add_alert a alerts = alerts ++ a ∷ []

unfoldable pub is_expired : ℕ → Option ℕ → Bool
is_expired now none = false
is_expired now (some last) = ltb (seconds 3600) (now - last)

unfoldable pub is_past : ℕ → Option ℕ → Bool
is_past now none = true
is_past now (some last) = leb last now

-- The indices behind an alert are one more than those in the list that follows it.
unfoldable pub push_index : ℕ → Option ℕ → Option (List ℕ) → Option (List ℕ)
unfolding is_expired is_past
push_index now last none = none
push_index now last (some rest) =
    if is_past now last
    then some (if is_expired now last then 0 ∷ map suc rest else map suc rest)
    else none

-- The ascending indices of the expired alerts.
unfoldable pub to_remove : ℕ → AlertManager → Option (List ℕ)
unfolding push_index
to_remove now [] = some []
to_remove now (a ∷ alerts) = push_index now a.last_evaluation (to_remove now alerts)

unfoldable pub remove_at : ℕ → AlertManager → AlertManager
remove_at i [] = []
remove_at zero (a ∷ alerts) = alerts
remove_at (suc i) (a ∷ alerts) = a ∷ remove_at i alerts

unfoldable pub notified : Option Alert → List Alert → List Alert
notified none sent = sent
notified (some a) sent = sent ++ a ∷ []

unfoldable pub remove_each : List ℕ → AlertManager → List Alert → AlertManager × List Alert
unfolding remove_at notified
remove_each [] alerts sent = (alerts, sent)
remove_each (i ∷ is) alerts sent =
    remove_each is (remove_at i alerts) (notified (get_elem? alerts i) sent)

unfoldable pub clean_expired_alerts : ℕ → AlertManager → Option (AlertManager × List Alert)
unfolding to_remove remove_each
clean_expired_alerts now alerts = elim (to_remove now alerts) [
  | none ↦ none
  | some indices ↦ some (remove_each (reverse indices) alerts [])
]

unfoldable pub get_active_alerts : AlertManager → List Alert
unfolding is_firing
get_active_alerts alerts = filter (λ a. is_firing a.state) alerts

unfoldable pub get_active_alert_count : AlertManager → ℕ
unfolding get_active_alerts
get_active_alert_count alerts = length (get_active_alerts alerts)
