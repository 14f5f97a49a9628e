-- ===== src/Alerts/Tests.antt =====
-- Runs of the alert state machine of app/monitor/scheduler.py.
use justup.Prelude.{ℤ, pos, negsuc, Bool, ◌*◌, ◌≡◌, refl, true, false, none, some, List, [], ◌∷◌}
use justup.Alerts.{
  second, Outcome, Snapshot, Runtime, up, down, unknown, ping, opened, resolved, track, maybe_alert,
  connectivity_issue, alerting, timeout_seconds,
}
use justup.Alerts.Certs.{cert_opened, cert_resolved, no_alert, watch, IsOnce, watch-IsOnce}
use justup.Alerts.Cycles.{Op, measured, decided, run, fresh}
use justup.Alerts.Pairs.{Paired, run-Paired, recovery_after_unknown}

abbrev no_ping : Snapshot
no_ping = record { http_up = none; ping_up = some false; tcp_up = none; cert_up = none }

abbrev works : Outcome
works = record { written = true; dispatched = true }

-- The ping fails from 60 s on, and five minutes later the alert opens.
abbrev outage : List Op
outage =
    measured (60 * second) no_ping
    ∷ decided works true 5 (60 * second) down
    ∷ decided works true 5 (360 * second) down
    ∷ decided works true 5 (420 * second) down
    ∷ []

alert_opens_once : (run outage fresh).log ≡ opened 1 (360 * second) (ping ∷ []) true ∷ []
unfolding run track maybe_alert alerting
alert_opens_once = refl

run-Paired_example : Paired (run outage fresh)
run-Paired_example = run-Paired outage

abbrev open_runtime : Runtime
open_runtime = record fresh {
  current = some 1;
  log = opened 1 (360 * second) (ping ∷ []) true ∷ [];
}

nothing_overdue : alerting (timeout_seconds 5) (600 * second) open_runtime.downs ≡ []
unfolding alerting
nothing_overdue = refl

recovery_after_unknown_example :
    (maybe_alert works true 5
      (600 * second)
      up
      (maybe_alert works true 5 (540 * second) unknown (connectivity_issue open_runtime))).log
    ≡ resolved 1 (600 * second) ∷ open_runtime.log
recovery_after_unknown_example =
    recovery_after_unknown works true 5 (540 * second) (600 * second) open_runtime refl
      nothing_overdue

-- A certificate with 6 days left, then expired, then renewed, with one write that fails.
abbrev cert_days : List (Bool × ℤ)
cert_days = (false, pos 6) ∷ (true, pos 5) ∷ (true, negsuc 0) ∷ (true, pos 89) ∷ (true, pos 7) ∷ []

cert_log :
    (watch cert_days no_alert).log
    ≡ cert_opened 2 (pos 7) ∷ cert_resolved 1 ∷ cert_opened 1 (pos 5) ∷ []
unfolding watch
cert_log = refl

watch-IsOnce_example : IsOnce (watch cert_days no_alert)
watch-IsOnce_example = watch-IsOnce cert_days
