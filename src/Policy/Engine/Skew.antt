-- ===== src/Policy/Engine/Skew.antt =====
-- The clock check of crates/kms-policy/src/engine.rs and its list of alerts.
use gm_kms.Base.{
  ℕ, ◌≤◌, ◌≡◌, refl, Option, none, some, List, [], ◌∷◌, push, length, length-push, arith,
}
use gm_kms.Policy.Json.{ℤ}
use gm_kms.Policy.Time.{TimeSkewStatus, check_skew, skew_secs}
use gm_kms.Policy.Engine.{TimeSkewAlert, PbacEngine, drop_oldest, log_alert, check_time_skew}

length-drop_oldest :
    (alerts : List TimeSkewAlert) → length alerts ≤ 101 → length (drop_oldest alerts) ≤ 100
length-drop_oldest [] h = omega arith
length-drop_oldest (a ∷ alerts) h = ground arith

log_alert_bounded :
    (stamp : ℕ) (status : TimeSkewStatus) (e : PbacEngine) (s : Option ℕ)
    → length e.time_skew_alerts ≤ 100
    → (length (log_alert stamp status e s).time_skew_alerts ≤ 100)
      × ((log_alert stamp status e s).policies ≡ e.policies)
unfolding log_alert
log_alert_bounded stamp status e none h = (h, refl)
log_alert_bounded stamp status e (some s) h = (
  length-drop_oldest (push e.time_skew_alerts alert)
      (omega (arith, length-push e.time_skew_alerts alert)),
  refl,
)
  where
    alert : TimeSkewAlert
    alert = record { timestamp = stamp; skew_seconds = s; severity = status }

-- A check of the clocks keeps the list of alerts at 100 or fewer, and leaves the policies alone.
pub check_time_skew_bounded :
    (system : ℕ) (trusted : Option ℤ) (stamp : ℕ) (e : PbacEngine)
    → length e.time_skew_alerts ≤ 100
    → (length (check_time_skew system trusted stamp e).0.time_skew_alerts ≤ 100)
      × ((check_time_skew system trusted stamp e).0.policies ≡ e.policies)
unfolding check_time_skew
check_time_skew_bounded system none stamp e h = (h, refl)
check_time_skew_bounded system (some t) stamp e h =
    log_alert_bounded stamp (check_skew system t) e (skew_secs (check_skew system t)) h
