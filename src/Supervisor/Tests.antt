-- ===== src/Supervisor/Tests.antt =====
-- Runs of a supervised service, and the theorems at them.
use justup.Prelude.{◌≡◌, refl, true, none, List, [], ◌∷◌, ◌++◌, inl, map}
use justup.Supervisor.Service.{
  Setup, Kind, crashed, went_degraded, recovered, ServiceAlert, default_policy, raised, prune_old,
  is_degraded,
}
use justup.Supervisor.Operations.{
  notify, recent_hangs, degrade, count_failure, judge_series, report_failure, report_success,
  settle, mark_stable, forgive, count_crash, record_crash, backoff_of, decide_delay, next_delay,
}
use justup.Supervisor.Machine.{
  init, Event, passes, succeeds, wakes, times_out, fails, ends, begin_run, launch, enter,
  restart_later, after_run, check_stable, check_series, check_hangs, check_health, tick, wake,
  time_out, end, while_running, step, run,
}
use justup.Supervisor.Announced.{IsAnnounced, run-init-IsAnnounced}
use justup.Supervisor.Stops.{IsUndisturbed, run-IsUndisturbed}
use justup.Supervisor.Unwatched.{unwatched_stays_degraded}
use justup.Supervisor.Delays.{IsPaced}
use justup.Supervisor.Paced.{run-sleeping-IsPaced}

-- The notification worker: no heartbeat timeout.
abbrev worker : Setup
worker = record {
  policy = default_policy;
  heartbeat_timeout = none;
  failure_limit = none;
  has_notifier = true;
}

-- Settled after a minute, then five failures in two minutes and a success.
abbrev failing_worker : List Event
failing_worker =
    wakes
    ∷ passes 60000
    ∷ times_out
    ∷ fails "OSError"
    ∷ passes 30000
    ∷ fails "OSError"
    ∷ passes 30000
    ∷ fails "OSError"
    ∷ passes 30000
    ∷ fails "OSError"
    ∷ passes 30000
    ∷ fails "OSError"
    ∷ succeeds
    ∷ []

abbrev kinds : List ServiceAlert → List Kind
kinds = map (λ a. a.kind)

failing_worker_alerts :
    kinds (run worker failing_worker (init 0)).svc.alerts ≡ went_degraded ∷ recovered ∷ []
unfolding run step wake enter launch begin_run time_out tick check_health check_stable check_series
    check_hangs mark_stable settle notify while_running report_failure judge_series count_failure
    degrade report_success
failing_worker_alerts = refl

abbrev crash : List Event
crash = ends (raised "ValueError") 250 ∷ passes 60000 ∷ wakes ∷ []

-- Five crashes within the window: the service waits for the slow retry.
abbrev crash_loop : List Event
crash_loop = wakes ∷ (crash ++ crash ++ crash ++ crash ++ ends (raised "ValueError") 250 ∷ [])

crash_loop_alerts :
    kinds (run worker crash_loop (init 0)).svc.alerts
    ≡ went_degraded ∷ crashed ∷ crashed ∷ crashed ∷ crashed ∷ crashed ∷ []
unfolding run step wake enter launch begin_run end after_run restart_later record_crash forgive
    count_crash notify degrade recent_hangs decide_delay next_delay prune_old backoff_of
crash_loop_alerts = refl

run-init-IsAnnounced_example : IsAnnounced worker (run worker failing_worker (init 0))
run-init-IsAnnounced_example = run-init-IsAnnounced worker failing_worker 0

run-IsUndisturbed_example :
    IsUndisturbed
      (record (init 0) { stopping = true }).svc
      (run worker crash_loop (record (init 0) { stopping = true })).svc
run-IsUndisturbed_example =
    run-IsUndisturbed worker crash_loop (record (init 0) { stopping = true }) (inl refl)

unwatched_stays_degraded_example :
    is_degraded
      (run worker
        (passes 3600000 ∷ times_out ∷ succeeds ∷ [])
        (run worker failing_worker (init 0))).svc.state
    ≡ true
unfolding run step wake enter launch begin_run time_out tick check_health check_stable check_series
    check_hangs mark_stable settle notify while_running report_failure judge_series count_failure
    degrade report_success
unwatched_stays_degraded_example =
    unwatched_stays_degraded worker (passes 3600000 ∷ times_out ∷ succeeds ∷ [])
      (run worker failing_worker (init 0)) (refl, (refl, (refl, tt)))
      (record { started = 0; unwatched = refl; degraded = refl })

run-sleeping-IsPaced_example : IsPaced 300000 (run worker crash_loop (init 0)).svc
unfolding run step wake enter launch begin_run end after_run restart_later record_crash forgive
    count_crash notify degrade recent_hangs decide_delay next_delay prune_old backoff_of
run-sleeping-IsPaced_example = run-sleeping-IsPaced worker crash_loop 0 300000 refl refl
