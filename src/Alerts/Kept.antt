-- ===== src/Alerts/Kept.antt =====
-- What the decisions of app/monitor/scheduler.py leave of the times since when services fail.
use justup.Prelude.{
  ℕ, ◌≡◌, refl, subst, Bool, true, false, Option, some, List, [], ◌∷◌, if◌then◌else◌, arith,
  Bool-cases, Option-cases, inl, inr,
}
use justup.Alerts.{
  TargetStatus, up, down, unknown, Service, http, ping, tcp, cert, Outcome, Downs, Runtime,
  no_downs, alerting, timeout_seconds, prune, has_alert, is_limited, counted, open_alert,
  alert_down, recover, execute, maybe_alert, connectivity_issue,
}

abbrev pub since : Service → Downs → Option ℕ
since http d = d.http_since
since ping d = d.ping_since
since tcp d = d.tcp_since
since cert d = d.cert_since

-- No time appears in the second that is not in the first.
abbrev pub Fewer : Downs → Downs → Type 0
Fewer a b = (svc : Service) (t : ℕ) → since svc b ≡ some t → since svc a ≡ some t

no_downs-Fewer : (a : Downs) → Fewer a no_downs
no_downs-Fewer a http t h = absurd (ground arith)
no_downs-Fewer a ping t h = absurd (ground arith)
no_downs-Fewer a tcp t h = absurd (ground arith)
no_downs-Fewer a cert t h = absurd (ground arith)

open_alert-downs :
    (outcome : Outcome) (now : ℕ) (services : List Service) (rt : Runtime)
    → (open_alert outcome now services rt).downs ≡ rt.downs
unfolding open_alert
open_alert-downs outcome now services rt = ground arith

recover-Fewer :
    (outcome : Outcome) (auto_close : Bool) (now id : ℕ) (rt : Runtime)
    → Fewer rt.downs (recover outcome auto_close now id rt).downs
unfolding recover
recover-Fewer outcome auto_close now id rt = elim (Bool-cases outcome.written) [
  | inl e ↦ rw e (no_downs-Fewer rt.downs)
  | inr e ↦ rw e (λ svc t h. h)
]

alert_down-downs :
    (outcome : Outcome) (now : ℕ) (services : List Service) (rt : Runtime)
    → (alert_down outcome now services rt).downs ≡ rt.downs
unfolding alert_down
alert_down-downs outcome now services rt = elim (Option-cases rt.current) [
  | inl e ↦ rw (alert_down, e) (open_alert-downs outcome now services rt)
  | inr (id, e) ↦ rw (alert_down, e) refl
]

execute-Fewer :
    (outcome : Outcome) (auto_close : Bool) (now : ℕ) (services : List Service) (rt : Runtime)
    → Fewer rt.downs (execute outcome auto_close now services rt).downs
unfolding execute
execute-Fewer outcome auto_close now [] rt = elim (Option-cases rt.current) [
  | inl e ↦ rw (execute, e) (λ svc t h. h)
  | inr (id, e) ↦
      rw (execute, e)
        (recover-Fewer outcome auto_close now id (record rt { last_overall_ok = some true }))
]
execute-Fewer outcome auto_close now (s ∷ services) rt =
    let noted = record rt {
      last_overall_ok = some false;
      failed_services = if has_alert rt then s ∷ services else rt.failed_services;
    } in
    elim (Bool-cases (is_limited now rt)) [
      | inl e ↦ rw (execute, e) (λ svc t h. h)
      | inr e ↦ rw (execute, e, alert_down-downs outcome now (s ∷ services) noted) (λ svc t h. h)
    ]

counted-downs :
    (now : ℕ) (services : List Service) (rt : Runtime) → (counted now services rt).downs ≡ rt.downs
unfolding counted
counted-downs now [] rt = refl
counted-downs now (s ∷ services) rt = refl

chosen-Fewer :
    (b : Bool) (a : Downs) (x y : Runtime)
    → Fewer a x.downs
    → Fewer a y.downs
    → Fewer a (if b then x else y).downs
chosen-Fewer true a x y p q = p
chosen-Fewer false a x y p q = q

module _ (outcome : Outcome) (auto_close : Bool) (minutes now : ℕ) (rt : Runtime) where
  decision-Fewer :
      (b : Bool)
      → Fewer rt.downs
          (if b
            then record rt {
              fail_timestamps = prune now rt.fail_timestamps;
              consecutive_successes = 0;
              last_overall_ok = some false;
            }
            else execute outcome auto_close now (alerting (timeout_seconds minutes) now rt.downs) (
                counted now
                  (alerting (timeout_seconds minutes) now rt.downs)
                  (record rt { fail_timestamps = prune now rt.fail_timestamps }))).downs
  decision-Fewer b =
      let services = alerting (timeout_seconds minutes) now rt.downs in
      let pruned = record rt { fail_timestamps = prune now rt.fail_timestamps } in
      chosen-Fewer b rt.downs
        (record pruned { consecutive_successes = 0; last_overall_ok = some false })
        (execute outcome auto_close now services (counted now services pruned)) (λ svc t h. h)
        (λ svc t h.
          subst (λ d. since svc d ≡ some t) (counted-downs now services pruned)
            (execute-Fewer outcome auto_close now services (counted now services pruned) svc t h))

  pub maybe_alert-Fewer :
      (status : TargetStatus)
      → Fewer rt.downs (maybe_alert outcome auto_close minutes now status rt).downs
  unfolding maybe_alert
  maybe_alert-Fewer unknown = λ svc t h. h
  maybe_alert-Fewer up = decision-Fewer _
  maybe_alert-Fewer down = decision-Fewer _

pub connectivity_issue-Fewer : (rt : Runtime) → Fewer rt.downs (connectivity_issue rt).downs
unfolding connectivity_issue
connectivity_issue-Fewer rt = elim (Option-cases rt.current) [
  | inl e ↦ rw (connectivity_issue, e) (no_downs-Fewer rt.downs)
  | inr (id, e) ↦ rw (connectivity_issue, e) (λ svc t h. h)
]
