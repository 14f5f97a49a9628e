-- ===== src/Alerts.antt =====
-- The alert state machine of one target, from app/monitor/scheduler.py: the tracking of failing
-- services, `_maybe_alert`, and what a connectivity issue resets. Times are microseconds.
pub mod Pairs
pub mod Certs
pub mod Outage
pub mod Kept
pub mod Cycles
mod Tests
use justup.Prelude.{
  ℕ, zero, suc, ◌+◌, ◌-◌, ◌*◌, Bool, true, false, not, ◌&&◌, ◌||◌, Option, none, some, List, [],
  ◌∷◌, ◌++◌, leb, ltb, max, length, if◌then◌else◌,
}

abbrev pub second : ℕ
second = 1000000

-- `ALERT_COOLDOWN_SECONDS`
abbrev pub alert_cooldown_seconds : ℕ
alert_cooldown_seconds = 300

-- `FAIL_WINDOW_SECONDS`
abbrev pub fail_window_seconds : ℕ
fail_window_seconds = 300

pub data TargetStatus : Type 0 where
  up down unknown : TargetStatus

pub data Service : Type 0 where
  http ping tcp cert : Service

-- `down_since_by_service`
pub record Downs : Type 0 where
  pub http_since : Option ℕ
  pub ping_since : Option ℕ
  pub tcp_since : Option ℕ
  pub cert_since : Option ℕ

abbrev pub no_downs : Downs
no_downs = record { http_since = none; ping_since = none; tcp_since = none; cert_since = none }

-- What the scheduler writes to the alerts table, the newest first. An opening says whether
-- `_dispatch_alert` returned for it.
pub data Event : Type 0 where
  opened : ℕ → ℕ → List Service → Bool → Event
  resolved deactivated : ℕ → ℕ → Event

-- `TargetRuntime` as far as alerts go, with the target's entry of `_last_alert_at`. Alert ids are
-- numbers, the next one in `next_id`.
pub record Runtime : Type 0 where
  pub downs : Downs
  pub current : Option ℕ
  pub failed_services : List Service
  pub consecutive_failures : ℕ
  pub consecutive_successes : ℕ
  pub fail_timestamps : List ℕ
  pub last_overall_ok : Option Bool
  pub last_alert_at : Option ℕ
  pub next_id : ℕ
  pub log : List Event

-- `_update_service` on one service's entry.
abbrev pub update_since : ℕ → Option Bool → Option ℕ → Option ℕ
update_since now none since = since
update_since now (some true) since = none
update_since now (some false) none = some now
update_since now (some false) (some since) = some since

-- The snapshot of the enabled checks; `none` is a check without a result or one that is not enabled.
pub record Snapshot : Type 0 where
  pub http_up : Option Bool
  pub ping_up : Option Bool
  pub tcp_up : Option Bool
  pub cert_up : Option Bool

unfoldable pub track : ℕ → Snapshot → Runtime → Runtime
track now s rt = record rt {
  downs = record {
    http_since = update_since now s.http_up rt.downs.http_since;
    ping_since = update_since now s.ping_up rt.downs.ping_since;
    tcp_since = update_since now s.tcp_up rt.downs.tcp_since;
    cert_since = update_since now s.cert_up rt.downs.cert_since;
  };
}

abbrev pub is_overdue : ℕ → ℕ → Option ℕ → Bool
is_overdue timeout now none = false
is_overdue timeout now (some since) = leb (timeout * second) (now - since)

abbrev pub add_if : Bool → Service → List Service → List Service
add_if true s rest = s ∷ rest
add_if false s rest = rest

-- `alerting_services`; `timeout` is `metrics_timeout_seconds`.
unfoldable pub alerting : ℕ → ℕ → Downs → List Service
alerting timeout now d = add_if (is_overdue timeout now d.http_since) http (
    add_if (is_overdue timeout now d.ping_since) ping (
      add_if (is_overdue timeout now d.tcp_since) tcp
        (add_if (is_overdue timeout now d.cert_since) cert [])))

-- int(max(1, self._metrics_timeout_minutes)) * 60
abbrev pub timeout_seconds : ℕ → ℕ
timeout_seconds minutes = max 1 minutes * 60

-- The stamps that the sliding window keeps.
prune : ℕ → List ℕ → List ℕ
prune now [] = []
prune now (t ∷ ts) =
    let rest = prune now ts in if ltb (fail_window_seconds * second) (now - t) then rest else t ∷ ts

-- A deque of at most six: the oldest stamp goes.
push_bounded : ℕ → List ℕ → List ℕ
push_bounded t [] = t ∷ []
push_bounded t (x ∷ xs) = if leb 6 (length (x ∷ xs)) then xs ++ t ∷ [] else x ∷ xs ++ t ∷ []

abbrev pub some_service : List Service → Bool
some_service [] = false
some_service (s ∷ services) = true

abbrev pub is_up : TargetStatus → Bool
is_up up = true
is_up _ = false

abbrev pub has_alert : Runtime → Bool
has_alert rt = elim rt.current [ none ↦ false | some id ↦ true ]

-- The cooldown of DOWN alerts.
abbrev pub is_limited : ℕ → Runtime → Bool
is_limited now rt = elim rt.last_alert_at [
  | none ↦ false
  | some last ↦ ltb (now - last) (alert_cooldown_seconds * second)
]

-- The counters, before the decision.
counted : ℕ → List Service → Runtime → Runtime
unfolding push_bounded
counted now [] rt = record rt {
  fail_timestamps = [];
  consecutive_failures = 0;
  consecutive_successes = rt.consecutive_successes + 1;
}
counted now (s ∷ services) rt =
    let stamps = push_bounded now rt.fail_timestamps in
    record rt {
      fail_timestamps = stamps;
      consecutive_successes = 0;
      consecutive_failures = length stamps;
    }

-- What a decision meets outside: whether the database commits the change of the alert, and whether
-- `_dispatch_alert` returns, where it raises again what a maintenance window raises.
pub record Outcome : Type 0 where
  pub written : Bool
  pub dispatched : Bool

-- A new alert. The time of the last one is kept only once its dispatch has returned.
open_alert : Outcome → ℕ → List Service → Runtime → Runtime
open_alert outcome now services rt =
    if outcome.written
    then record rt {
      failed_services = services;
      current = some rt.next_id;
      next_id = rt.next_id + 1;
      last_alert_at = if outcome.dispatched then some now else rt.last_alert_at;
      log = opened rt.next_id now services outcome.dispatched ∷ rt.log;
    }
    else record rt { failed_services = services }

-- The DOWN branch, past the cooldown.
alert_down : Outcome → ℕ → List Service → Runtime → Runtime
unfolding open_alert
alert_down outcome now services rt = elim rt.current [
  | none ↦ open_alert outcome now services rt
  | some id ↦ record rt { failed_services = services }
]

-- The recovery branch of the alert `id`: an error of the database is raised before anything changes.
recover : Outcome → Bool → ℕ → ℕ → Runtime → Runtime
recover outcome auto_close now id rt =
    if outcome.written
    then record rt {
      current = none;
      failed_services = [];
      downs = no_downs;
      log = (if auto_close then resolved id now else deactivated id now) ∷ rt.log;
    }
    else rt

-- `_maybe_alert` from the execution part on.
execute : Outcome → Bool → ℕ → List Service → Runtime → Runtime
unfolding alert_down recover
execute outcome auto_close now [] rt = elim rt.current [
  | none ↦ rt
  | some id ↦ recover outcome auto_close now id (record rt { last_overall_ok = some true })
]
execute outcome auto_close now (s ∷ services) rt =
    let noted = record rt {
      last_overall_ok = some false;
      failed_services = if has_alert rt then s ∷ services else rt.failed_services;
    } in
    if is_limited now rt then noted else alert_down outcome now (s ∷ services) noted

-- `_maybe_alert`: the outcome, and whether the target closes alerts by itself, are given. It runs to its
-- end before the next decision on the target.
unfoldable pub maybe_alert : Outcome → Bool → ℕ → ℕ → TargetStatus → Runtime → Runtime
unfolding alerting prune counted execute
maybe_alert outcome auto_close minutes now unknown rt = rt
maybe_alert outcome auto_close minutes now status rt =
    let services = alerting (timeout_seconds minutes) now rt.downs in
    let pruned = record rt { fail_timestamps = prune now rt.fail_timestamps } in
    if has_alert rt && not (some_service services) && not (is_up status)
    then record pruned { consecutive_successes = 0; last_overall_ok = some false }
    else execute outcome auto_close now services (counted now services pruned)

-- `_handle_connectivity_issue`
unfoldable pub connectivity_issue : Runtime → Runtime
connectivity_issue rt = elim rt.current [
  | none ↦ record rt {
    downs = no_downs;
    fail_timestamps = [];
    consecutive_failures = 0;
    consecutive_successes = 0;
  }
  | some id ↦ rt
]
