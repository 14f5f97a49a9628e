-- ===== src/Alerts/Pairs.antt =====
-- What the log of alerts looks like after any cycles (app/monitor/scheduler.py).
use justup.Prelude.{
  ℕ, ◌+◌, ◌-◌, ◌*◌, ◌≤◌, ◌≡◌, refl, subst, Bool, true, false, not, Option, none, some, List, [],
  ◌∷◌, ltb, count_if, if◌then◌else◌, arith, Bool-cases, Option-cases, inl, inr,
}
use justup.Alerts.{
  second, alert_cooldown_seconds, TargetStatus, up, down, unknown, Service, Event, opened, resolved,
  deactivated, Outcome, Runtime, track, alerting, timeout_seconds, prune, has_alert, is_limited,
  counted, open_alert, alert_down, recover, execute, maybe_alert, connectivity_issue,
}
use justup.Alerts.Cycles.{Op, measured, decided, disconnected, step, run, fresh}

abbrev pub is_opened : Event → Bool
is_opened (opened id now services told) = true
is_opened _ = false

abbrev pub is_closed : Event → Bool
is_closed e = not (is_opened e)

-- When the last alert was opened whose dispatch returned.
abbrev pub latest_told : List Event → Option ℕ
latest_told [] = none
latest_told (opened id now services true ∷ log) = some now
latest_told (opened id now services false ∷ log) = latest_told log
latest_told (resolved id now ∷ log) = latest_told log
latest_told (deactivated id now ∷ log) = latest_told log

abbrev pub Cooled : ℕ → Option ℕ → Type 0
Cooled now none = Unit
Cooled now (some last) = last + alert_cooldown_seconds * second ≤ now

-- Each opening comes at least the cooldown after the last one before it that was told.
abbrev pub Spaced : List Event → Type 0
Spaced [] = Unit
Spaced (opened id now services told ∷ log) = Cooled now (latest_told log) × Spaced log
Spaced (resolved id now ∷ log) = Spaced log
Spaced (deactivated id now ∷ log) = Spaced log

pub record Paired (rt : Runtime) : Type 0 where
  pub pairs :
      count_if is_opened rt.log ≡ count_if is_closed rt.log + (if has_alert rt then 1 else 0)
  pub latest : rt.last_alert_at ≡ latest_told rt.log
  pub spaced : Spaced rt.log

Cooled-free :
    (now : ℕ) (last : Option ℕ)
    → (elim last [ none ↦ false | some t ↦ ltb (now - t) (alert_cooldown_seconds * second) ])
      ≡ false
    → Cooled now last
Cooled-free now none free = tt
Cooled-free now (some last) free = ground arith

recover-Paired :
    (outcome : Outcome) (auto_close : Bool) (now id : ℕ) (rt : Runtime)
    → rt.current ≡ some id
    → Paired rt
    → Paired (recover outcome auto_close now id rt)
unfolding recover
recover-Paired outcome auto_close now id rt e p =
    let known : has_alert rt ≡ true = rw e refl in
    elim (Bool-cases outcome.written) [
      | inr w ↦ rw w p
      | inl w ↦ elim (Bool-cases auto_close) [
        | inl a ↦
            rw (w, a)
              (record {
                pairs = ground (arith, p.pairs, known);
                latest = p.latest;
                spaced = p.spaced;
              })
        | inr a ↦
            rw (w, a)
              (record {
                pairs = ground (arith, p.pairs, known);
                latest = p.latest;
                spaced = p.spaced;
              })
      ]
    ]

open_alert-Paired :
    (outcome : Outcome) (now : ℕ) (services : List Service) (rt : Runtime)
    → rt.current ≡ none
    → is_limited now rt ≡ false
    → Paired rt
    → Paired (open_alert outcome now services rt)
unfolding open_alert
open_alert-Paired outcome now services rt e free p =
    let known : has_alert rt ≡ false = rw e refl in
    let cooled : Cooled now (latest_told rt.log) =
      subst (Cooled now) p.latest (Cooled-free now rt.last_alert_at free) in
    elim (Bool-cases outcome.written) [
      | inr w ↦ rw w (record { pairs = p.pairs; latest = p.latest; spaced = p.spaced })
      | inl w ↦ elim (Bool-cases outcome.dispatched) [
        | inl d ↦
            rw (w, d)
              (record {
                pairs = ground (arith, p.pairs, known);
                latest = refl;
                spaced = (cooled, p.spaced);
              })
        | inr d ↦
            rw (w, d)
              (record {
                pairs = ground (arith, p.pairs, known);
                latest = p.latest;
                spaced = (cooled, p.spaced);
              })
      ]
    ]

alert_down-Paired :
    (outcome : Outcome) (now : ℕ) (services : List Service) (rt : Runtime)
    → is_limited now rt ≡ false
    → Paired rt
    → Paired (alert_down outcome now services rt)
unfolding alert_down
alert_down-Paired outcome now services rt free p = elim (Option-cases rt.current) [
  | inl e ↦ rw (alert_down, e) (open_alert-Paired outcome now services rt e free p)
  | inr (id, e) ↦
      rw (alert_down, e) (record { pairs = p.pairs; latest = p.latest; spaced = p.spaced })
]

execute-Paired :
    (outcome : Outcome) (auto_close : Bool) (now : ℕ) (services : List Service) (rt : Runtime)
    → Paired rt
    → Paired (execute outcome auto_close now services rt)
unfolding execute
execute-Paired outcome auto_close now [] rt p = elim (Option-cases rt.current) [
  | inl e ↦ rw (execute, e) p
  | inr (id, e) ↦
      rw (execute, e)
        (recover-Paired outcome auto_close now id (record rt { last_overall_ok = some true }) e
          (record { pairs = p.pairs; latest = p.latest; spaced = p.spaced }))
]
execute-Paired outcome auto_close now (s ∷ services) rt p =
    let noted = record rt {
      last_overall_ok = some false;
      failed_services = if has_alert rt then s ∷ services else rt.failed_services;
    } in
    let kept : Paired noted = record { pairs = p.pairs; latest = p.latest; spaced = p.spaced } in
    elim (Bool-cases (is_limited now rt)) [
      | inl e ↦ rw (execute, e) kept
      | inr e ↦ rw (execute, e) (alert_down-Paired outcome now (s ∷ services) noted e kept)
    ]

counted-Paired :
    (now : ℕ) (services : List Service) (rt : Runtime)
    → Paired rt
    → Paired (counted now services rt)
unfolding counted
counted-Paired now [] rt p = record { pairs = p.pairs; latest = p.latest; spaced = p.spaced }
counted-Paired now (s ∷ services) rt p = record {
  pairs = p.pairs;
  latest = p.latest;
  spaced = p.spaced;
}

chosen-Paired : (b : Bool) (x y : Runtime) → Paired x → Paired y → Paired (if b then x else y)
chosen-Paired true x y p q = p
chosen-Paired false x y p q = q

module _ (outcome : Outcome) (auto_close : Bool) (minutes now : ℕ) (rt : Runtime)
    (p : Paired rt) where
  branches-Paired :
      (b : Bool)
      → Paired (
          if b
          then record rt {
            fail_timestamps = prune now rt.fail_timestamps;
            consecutive_successes = 0;
            last_overall_ok = some false;
          }
          else execute outcome auto_close now (alerting (timeout_seconds minutes) now rt.downs) (
              counted now
                (alerting (timeout_seconds minutes) now rt.downs)
                (record rt { fail_timestamps = prune now rt.fail_timestamps })))
  branches-Paired b =
      let services = alerting (timeout_seconds minutes) now rt.downs in
      let pruned = record rt { fail_timestamps = prune now rt.fail_timestamps } in
      chosen-Paired b (record pruned { consecutive_successes = 0; last_overall_ok = some false })
        (execute outcome auto_close now services (counted now services pruned))
        (record { pairs = p.pairs; latest = p.latest; spaced = p.spaced })
        (execute-Paired outcome auto_close now services (counted now services pruned) (
          counted-Paired now services pruned
            (record { pairs = p.pairs; latest = p.latest; spaced = p.spaced })))

  decided-Paired :
      (status : TargetStatus) → Paired (maybe_alert outcome auto_close minutes now status rt)
  unfolding maybe_alert
  decided-Paired unknown = p
  decided-Paired up = branches-Paired _
  decided-Paired down = branches-Paired _

disconnected-Paired : (rt : Runtime) → Paired rt → Paired (connectivity_issue rt)
unfolding connectivity_issue
disconnected-Paired rt p = elim (Option-cases rt.current) [
  | inl e ↦
      rw (connectivity_issue, e) (record { pairs = p.pairs; latest = p.latest; spaced = p.spaced })
  | inr (id, e) ↦ rw (connectivity_issue, e) p
]

step-Paired : (op : Op) (rt : Runtime) → Paired rt → Paired (step op rt)
unfolding step track
step-Paired (measured now s) rt p = record { pairs = p.pairs; latest = p.latest; spaced = p.spaced }
step-Paired (decided outcome auto_close minutes now status) rt p =
    decided-Paired outcome auto_close minutes now rt p status
step-Paired disconnected rt p = disconnected-Paired rt p

run-fresh : (ops : List Op) (rt : Runtime) → Paired rt → Paired (run ops rt)
unfolding run
run-fresh [] rt p = p
run-fresh (op ∷ ops) rt p = run-fresh ops (step op rt) (step-Paired op rt p)

-- After any measurements, decisions and connectivity issues, at whatever times, also where the database
-- or a dispatch raises: at most one alert of a target is open, since as many were closed as opened, but
-- for the one in the runtime. The runtime has the time of the last opening whose dispatch returned,
-- and each opening comes at least five minutes after the last such opening before it.
pub run-Paired : (ops : List Op) → Paired (run ops fresh)
run-Paired ops = run-fresh ops fresh (record { pairs = omega arith; latest = refl; spaced = tt })

-- A recovery that follows an unknown status is told: an open alert is kept through a connectivity
-- issue and an unknown status, and the next full UP with no service overdue resolves it, when the
-- target closes its alerts by itself and the database takes it.
pub recovery_after_unknown :
    (outcome : Outcome) (dispatched : Bool) (minutes now later : ℕ) (rt : Runtime) {id : ℕ}
    → rt.current ≡ some id
    → alerting (timeout_seconds minutes) later rt.downs ≡ []
    → (maybe_alert
        (record { written = true; dispatched = dispatched })
        true
        minutes
        later
        up
        (maybe_alert outcome true minutes now unknown (connectivity_issue rt))).log
      ≡ resolved id later ∷ rt.log
unfolding maybe_alert connectivity_issue execute counted recover
recovery_after_unknown outcome dispatched minutes now later rt {id} e quiet =
    rw (connectivity_issue, e, maybe_alert, quiet, execute, e) refl
