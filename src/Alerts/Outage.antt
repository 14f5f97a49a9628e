-- ===== src/Alerts/Outage.antt =====
-- What an alert rests on: a service that failed and has not recovered since
-- (app/monitor/scheduler.py).
use justup.Prelude.{ℕ, ◌+◌, ◌*◌, ◌≤◌, ◌≡◌, ◌≢◌, Bool, true, false, Option, some, List, [], ◌∷◌}
use justup.Alerts.{second, Service, http, ping, tcp, cert, Runtime, Snapshot}
use justup.Alerts.Cycles.{Op, measured, decided, disconnected, step, fresh}

abbrev pub result_of : Service → Snapshot → Option Bool
result_of http s = s.http_up
result_of ping s = s.ping_up
result_of tcp s = s.tcp_up
result_of cert s = s.cert_up

-- The operations, the newest first.
pub replay : List Op → Runtime
replay [] = fresh
replay (op ∷ h) = step op (replay h)

-- The operation is no success of the service.
abbrev pub IsNoSuccess : Service → Op → Type 0
IsNoSuccess svc (measured now s) = result_of svc s ≢ some true
IsNoSuccess svc (decided outcome auto_close minutes now status) = Unit
IsNoSuccess svc disconnected = Unit

-- The service failed at `t`, and no measurement since then was a success of it.
pub data Failing (svc : Service) (t : ℕ) : List Op → Type 0 where
  failed_now :
      (s : Snapshot) (h : List Op) → result_of svc s ≡ some false → Failing svc t (measured t s ∷ h)
  still_failing :
      (op : Op) (h : List Op) → IsNoSuccess svc op → Failing svc t h → Failing svc t (op ∷ h)

-- The service failed at least `timeout` ago and has not succeeded since.
abbrev pub IsOut : ℕ → ℕ → List Op → Service → Type 0
IsOut timeout now h svc = (t : ℕ) × (t + timeout * second ≤ now) × Failing svc t h
