-- ===== src/Alert/Tests.antt =====
-- Two alerts, and the theorems at concrete inputs.
use chono_db.Prelude.{◌≡◌, refl, some, [], ◌∷◌, reverse}
use chono_db.Prelude.Assoc.{text_key, lookup, insert}
use chono_db.Alert.{
  Alert, pending, firing, create_alert, create_or_update, evaluate, transition, with_rest,
  collect_labels, same_map, has_all, has_value, seconds, clean_expired_alerts, is_past,
}
use chono_db.Alert.Expiry.{live, expired, clean_expired_alerts_lem}

abbrev disk : Alert
disk = record {
  name = "disk";
  state = pending;
  labels = ("host", "a") ∷ [];
  annotations = [];
  active_at = some 0;
  last_evaluation = some 0;
  value = 5;
}

abbrev load : Alert
load = record disk { name = "load"; last_evaluation = some (seconds 4000) }

clean_expired_alerts_lem_example :
    clean_expired_alerts (seconds 4000) (disk ∷ load ∷ [])
    ≡ some (
      live (seconds 4000) (disk ∷ load ∷ []),
      reverse (expired (seconds 4000) (disk ∷ load ∷ [])),
    )
clean_expired_alerts_lem_example =
    clean_expired_alerts_lem (seconds 4000) (disk ∷ load ∷ [])
      (unfold is_past in refl, (unfold is_past in refl, tt))

-- After five minutes the alert fires.
fires :
    create_alert (seconds 300) "disk" (record { name = "host"; value = "a" } ∷ []) 7 [] (disk ∷ [])
    ≡ (let a = record disk { state = firing; value = 7; last_evaluation = some (seconds 300) } in
        some (a ∷ [], a ∷ []))
unfolding create_alert create_or_update evaluate transition with_rest collect_labels same_map
    has_all has_value lookup insert
fires = refl
