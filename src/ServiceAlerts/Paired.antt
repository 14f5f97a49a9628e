-- ===== src/ServiceAlerts/Paired.antt =====
-- Openings and recoveries of an incident (app/db/notifications.py, app/services/service_alerts.py).
use justup.Prelude.{ℕ, ◌+◌, List, [], ◌∷◌}
use justup.ServiceAlerts.Incidents.{Storage, refuses_row, Alert}

-- A recovery row that the database refuses is lost.
abbrev pub cost : Storage → ℕ
cost refuses_row = 1
cost _ = 0

abbrev pub costs : List (Storage × Alert) → ℕ
costs [] = 0
costs ((o, alert) ∷ rest) = cost o + costs rest
