-- ===== src/Alerts/Cycles.antt =====
-- The cycles of one target in app/monitor/scheduler.py, from a fresh runtime on.
use justup.Prelude.{ℕ, Bool, none, List, [], ◌∷◌}
use justup.Alerts.{
  TargetStatus, Outcome, Runtime, Snapshot, no_downs, track, maybe_alert, connectivity_issue,
}

-- What happens to a target in the scheduler.
pub data Op : Type 0 where
  measured : ℕ → Snapshot → Op
  decided : Outcome → Bool → ℕ → ℕ → TargetStatus → Op
  disconnected : Op

unfoldable pub step : Op → Runtime → Runtime
unfolding track maybe_alert connectivity_issue
step (measured now s) rt = track now s rt
step (decided outcome auto_close minutes now status) rt =
    maybe_alert outcome auto_close minutes now status rt
step disconnected rt = connectivity_issue rt

unfoldable pub run : List Op → Runtime → Runtime
unfolding step
run [] rt = rt
run (op ∷ ops) rt = run ops (step op rt)

abbrev pub fresh : Runtime
fresh = record {
  downs = no_downs;
  current = none;
  failed_services = [];
  consecutive_failures = 0;
  consecutive_successes = 0;
  fail_timestamps = [];
  last_overall_ok = none;
  last_alert_at = none;
  next_id = 1;
  log = [];
}
