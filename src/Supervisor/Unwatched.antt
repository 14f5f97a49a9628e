-- ===== src/Supervisor/Unwatched.antt =====
-- A wait for the task that has no time limit (app/utils/supervisor.py, `watching` of `_run_once`).
use justup.Prelude.{ℕ, String, ◌≡◌, Bool, true, false, List, [], ◌∷◌, arith, All}
use justup.Supervisor.Service.{Setup, Service, is_degraded}
use justup.Supervisor.Operations.{
  report_failure, judge_series, count_failure, degrade, notify, report_success, recent_hangs,
}
use justup.Supervisor.Machine.{
  supervised, World, Event, passes, shuts_down, cancels, opens_maintenance, closes_maintenance,
  succeeds, beats, looks, wakes, times_out, fails, ends, wake, time_out, while_running, step, run,
}

-- The task goes on, and nobody stops it.
abbrev pub goes_on : Event → Bool
goes_on shuts_down = false
goes_on cancels = false
goes_on (ends exc draw) = false
goes_on _ = true

pub record IsStuck (w : World) : Type 0 where
  pub started : ℕ
  pub unwatched : w.phase ≡ supervised started false
  pub degraded : is_degraded w.svc.state ≡ true

module _ (c : Setup) where
  report_failure_degraded :
      (now : ℕ) (exc_type : String) (svc : Service)
      → is_degraded svc.state ≡ true
      → is_degraded (report_failure c now exc_type svc).state ≡ true
  unfolding report_failure judge_series count_failure degrade notify
  report_failure_degraded now exc_type svc h = ground arith

  step-IsStuck : (e : Event) (w : World) → goes_on e ≡ true → IsStuck w → IsStuck (step c e w)
  unfolding step wake time_out while_running report_success recent_hangs
  step-IsStuck (passes d) w g h = ground (arith, h.unwatched, h.degraded)
  step-IsStuck shuts_down w g h = cc
  step-IsStuck cancels w g h = cc
  step-IsStuck opens_maintenance w g h = ground (arith, h.unwatched, h.degraded)
  step-IsStuck closes_maintenance w g h = ground (arith, h.unwatched, h.degraded)
  step-IsStuck (fails exc_type) w g h =
      ground
        (arith, h.unwatched, h.degraded, report_failure_degraded w.now exc_type w.svc h.degraded)
  step-IsStuck succeeds w g h = ground (arith, h.unwatched, h.degraded)
  step-IsStuck beats w g h = ground (arith, h.unwatched, h.degraded)
  step-IsStuck looks w g h = ground (arith, h.unwatched, h.degraded)
  step-IsStuck wakes w g h = ground (arith, h.unwatched, h.degraded)
  step-IsStuck times_out w g h = ground (arith, h.unwatched, h.degraded)
  step-IsStuck (ends exc draw) w g h = cc

  run-IsStuck :
      (es : List Event) (w : World)
      → All (λ e. goes_on e ≡ true) es
      → IsStuck w
      → IsStuck (run c es w)
  unfolding run
  run-IsStuck [] w g h = h
  run-IsStuck (e ∷ es) w g h = run-IsStuck es (step c e w) g.1 (step-IsStuck e w g.0 h)

-- A service that is degraded while the supervisor waits for its task without a time limit stays
-- degraded for as long as its task goes on, through successes, failures, heartbeats, restores and
-- any time: no check that could clear the state is made.
pub unwatched_stays_degraded :
    (c : Setup) (es : List Event) (w : World)
    → All (λ e. goes_on e ≡ true) es
    → IsStuck w
    → is_degraded (run c es w).svc.state ≡ true
unwatched_stays_degraded c es w g h = (run-IsStuck c es w g h).degraded
