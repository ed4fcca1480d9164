-- ===== src/Alert/Expiry.antt =====
-- The removal of the expired alerts by index.
use chono_db.Prelude.{
  ℕ, suc, ◌≡◌, refl, sym, ◌∙◌, ap, true, not, Option, none, some, List, [], ◌∷◌, ◌++◌, map, All,
  reverse, filter, Bool-cases, inl, inr, if◌then◌else◌, get_elem?, append_assoc, append-nil,
}
use mathlib.Core.List.{reverse-cons}
use mathlib.Mathlib.Data.List.Basic.{map-reverse_aux}
use chono_db.Alert.{
  Alert, AlertManager, is_expired, is_past, push_index, to_remove, remove_at, notified, remove_each,
  clean_expired_alerts,
}

-- The expired alerts, and those that stay.
abbrev pub expired : ℕ → AlertManager → List Alert
expired now alerts = filter (λ a. is_expired now a.last_evaluation) alerts

abbrev pub live : ℕ → AlertManager → AlertManager
live now alerts = filter (λ a. not (is_expired now a.last_evaluation)) alerts

remove_each-map :
    (is : List ℕ) (a : Alert) (alerts : AlertManager) (sent : List Alert)
    → remove_each (map suc is) (a ∷ alerts) sent
      ≡ (a ∷ (remove_each is alerts sent).0, (remove_each is alerts sent).1)
unfolding remove_each remove_at
remove_each-map [] a alerts sent = refl
remove_each-map (i ∷ is) a alerts sent =
    remove_each-map is a (remove_at i alerts) (notified (get_elem? alerts i) sent)

remove_each-append :
    (is js : List ℕ) (alerts : AlertManager) (sent : List Alert)
    → remove_each (is ++ js) alerts sent
      ≡ remove_each js (remove_each is alerts sent).0 (remove_each is alerts sent).1
unfolding remove_each
remove_each-append [] js alerts sent = refl
remove_each-append (i ∷ is) js alerts sent =
    remove_each-append is js (remove_at i alerts) (notified (get_elem? alerts i) sent)

push_index-some :
    (now : ℕ) (last : Option ℕ) (tail : Option (List ℕ)) (indices : List ℕ)
    → push_index now last tail ≡ some indices
    → (rest : List ℕ) × (tail ≡ some rest)
      × (indices ≡ (if is_expired now last then 0 ∷ map suc rest else map suc rest))
unfolding push_index
push_index-some now last none indices e = cc
push_index-some now last (some rest) indices e = elim (Bool-cases (is_past now last)) [
  | inl past ↦ (rest, refl, cc (e, past))
  | inr ahead ↦ cc (e, ahead)
]

to_remove-some :
    (now : ℕ) (alerts : AlertManager)
    → All (λ a. is_past now a.last_evaluation ≡ true) alerts
    → (indices : List ℕ) × (to_remove now alerts ≡ some indices)
unfolding to_remove push_index
to_remove-some now [] h = ([], refl)
to_remove-some now (a ∷ alerts) (past, h) =
    let (rest, e) = to_remove-some now alerts h in
    (if is_expired now a.last_evaluation then 0 ∷ map suc rest else map suc rest, rw (e, past) refl)

-- An alert before those that the indices count is passed over.
remove_each-shifted :
    (rest : List ℕ) (a : Alert) (alerts : AlertManager) (sent : List Alert)
    → remove_each (reverse (map suc rest)) (a ∷ alerts) sent
      ≡ (a ∷ (remove_each (reverse rest) alerts sent).0, (remove_each (reverse rest) alerts sent).1)
remove_each-shifted rest a alerts sent =
    ap (λ (is : List ℕ). remove_each is (a ∷ alerts) sent) (sym (map-reverse_aux suc rest []))
    ∙ remove_each-map (reverse rest) a alerts sent

remove_each-first :
    (rest : List ℕ) (a : Alert) (alerts : AlertManager) (sent : List Alert)
    → remove_each (reverse (0 ∷ map suc rest)) (a ∷ alerts) sent ≡ (
      (remove_each (reverse rest) alerts sent).0,
      (remove_each (reverse rest) alerts sent).1 ++ a ∷ [],
    )
remove_each-first rest a alerts sent =
    ap (λ (is : List ℕ). remove_each is (a ∷ alerts) sent) (reverse-cons 0 (map suc rest))
    ∙ remove_each-append (reverse (map suc rest)) (0 ∷ []) (a ∷ alerts) sent
    ∙ rw (remove_each-shifted rest a alerts sent) (unfold remove_each remove_at notified in refl)

removed_expired :
    (now : ℕ) (alerts : AlertManager) (indices : List ℕ) (sent : List Alert)
    → to_remove now alerts ≡ some indices
    → remove_each (reverse indices) alerts sent
      ≡ (live now alerts, sent ++ reverse (expired now alerts))
unfolding to_remove
removed_expired now [] indices sent e =
    let none_left : [] ≡ indices = cc e in
    rw (sym none_left) (rw (append-nil sent) (unfold remove_each in refl))
removed_expired now (a ∷ alerts) indices sent e =
    let (rest, tail, shape) =
      push_index-some now a.last_evaluation (to_remove now alerts) indices e in
    let later = removed_expired now alerts rest sent tail in
    elim (Bool-cases (is_expired now a.last_evaluation)) [
      | inl gone ↦
          rw
            (
              shape,
              gone,
              remove_each-first rest a alerts sent,
              later,
              reverse-cons a (expired now alerts),
              append_assoc sent (reverse (expired now alerts)) (a ∷ []),
            )
            refl
      | inr stays ↦ rw (shape, stays, remove_each-shifted rest a alerts sent, later) refl
    ]

-- Where no alert was evaluated after `now`, what `clean_expired_alerts` leaves is the alerts that were
-- never evaluated, or no more than an hour ago, in their order; and the others are notified, from the
-- last to the first.
pub clean_expired_alerts_lem :
    (now : ℕ) (alerts : AlertManager)
    → All (λ a. is_past now a.last_evaluation ≡ true) alerts
    → clean_expired_alerts now alerts ≡ some (live now alerts, reverse (expired now alerts))
unfolding clean_expired_alerts
clean_expired_alerts_lem now alerts past =
    let (indices, e) = to_remove-some now alerts past in
    rw (clean_expired_alerts, e) (ap (λ r. some r) (removed_expired now alerts indices [] e))
