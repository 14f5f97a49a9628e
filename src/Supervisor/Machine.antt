-- ===== src/Supervisor/Machine.antt =====
-- The task that supervises a service (`_supervise`, `_run_once`, `_wait_for_maintenance` and
-- `_wait_until_ended` of app/utils/supervisor.py), cut at its waits. Between two of them the service,
-- the clock, a shutdown, a restore and `snapshot` have their turns.
use justup.Prelude.{
  ℕ, ◌+◌, ◌-◌, String, Bool, true, false, not, ◌&&◌, ◌||◌, Option, none, some, List, [], ◌∷◌, ltb,
  leb, if◌then◌else◌,
}
use justup.Supervisor.Service.{
  ServiceState, starting, running, paused, stopped, Exit, is_refusal, hung, Setup, Service,
  new_service, any_of, is_degraded, hang_not_cancellable,
}
use justup.Supervisor.Operations.{
  recent_hangs, report_failure, report_success, mark_stable, clear_failure_series, clear_hangs,
  record_crash, decide_delay, next_delay, degrade,
}

-- The wait at which the supervising task stands. `supervised started watched` is inside `_run_once`,
-- where only a watched wait ends by itself; `reaping` and `holding` are for a hung task that was
-- cancelled and has not ended.
pub data Phase : Type 0 where
  ready : Phase
  pausing : ServiceState → Phase
  supervised : ℕ → Bool → Phase
  reaping holding : ℕ → Phase
  sleeping : ℕ → Phase
  ended : Phase

pub record World : Type 0 where
  pub now : ℕ
  pub stopping : Bool
  pub maintenance : Bool
  pub phase : Phase
  pub svc : Service

abbrev pub init : ℕ → World
init now = record {
  now = now;
  stopping = false;
  maintenance = false;
  phase = ready;
  svc = new_service now;
}

-- A number that comes with an end of the task is what the random number generator draws.
pub data Event : Type 0 where
  passes : ℕ → Event
  shuts_down cancels opens_maintenance closes_maintenance succeeds beats looks wakes times_out :
      Event
  fails : String → Event
  ends : Exit → ℕ → Event

-- The task of the service exists and has not ended.
abbrev pub has_task : Phase → Bool
has_task (supervised started watched) = true
has_task (reaping started) = true
has_task (holding started) = true
has_task _ = false

module _ (c : Setup) where
  unfoldable pub stop : World → World
  stop w = record w { phase = ended; svc = record w.svc { state = stopped } }

  abbrev pub unless_degraded : ServiceState → ServiceState → ServiceState
  unless_degraded new old = if is_degraded old then old else new

  -- `watching`: whether the next wait for the task has a time limit
  abbrev pub has_timeout : Option ℕ → Bool
  has_timeout none = false
  has_timeout (some t) = true

  abbrev pub is_unsettled : Service → Bool
  is_unsettled svc = c.has_notifier && not svc.settled

  abbrev pub is_watched : Service → Bool
  is_watched svc =
      has_timeout c.heartbeat_timeout
      || (svc.needs_recovery_log
          || (ltb 0 svc.attempt || (any_of svc.hangs || (svc.fail_degraded || is_unsettled svc))))

  -- A new run: its state is "starting" and, once its task is created, "running".
  unfoldable pub begin_run : ℕ → Service → Service
  begin_run now svc = record svc {
    starts = svc.starts + 1;
    fail_streak = 0;
    fail_since = none;
    ok_since = none;
    state = unless_degraded running (unless_degraded starting svc.state);
    last_beat = now;
  }

  unfoldable pub launch : World → World
  launch w =
      let svc = begin_run w.now w.svc in
      record w { phase = supervised w.now (is_watched svc); svc = svc }

  -- The head of the loop of `_supervise`, up to its first wait.
  unfoldable pub enter : World → World
  enter w =
      if w.stopping
      then stop w
      else if w.maintenance
      then record w { phase = pausing w.svc.state; svc = record w.svc { state = paused } }
      else launch w

  -- The poll of `_wait_for_maintenance` ends.
  unfoldable pub resume : ServiceState → World → World
  resume previous w =
      if w.stopping
      then stop w
      else if w.maintenance
      then w
      else launch (record w { svc = record w.svc { state = previous } })

  unfoldable pub restart_later : ℕ → Service → World → World
  restart_later draw svc w =
      let s = recent_hangs c w.now svc in
      record w { phase = sleeping (next_delay c draw s); svc = decide_delay c s }

  -- `_supervise` after `_run_once`
  unfoldable pub after_run : ℕ → Exit → ℕ → World → World
  after_run started exc draw w =
      if w.stopping
      then stop w
      else if is_refusal exc || w.maintenance
      then enter w
      else restart_later draw (record_crash c w.now exc (w.now - started) w.svc) w

  abbrev pub elapsed : ℕ → Option ℕ → ℕ → Bool
  elapsed now none span = false
  elapsed now (some t) span = leb span (now - t)

  abbrev pub is_silent : ℕ → ℕ → Option ℕ → Bool
  is_silent now last_beat none = false
  is_silent now last_beat (some t) = ltb t (now - last_beat)

  unfoldable pub check_stable : ℕ → ℕ → Service → Service
  check_stable now started svc =
      if (ltb 0 svc.attempt || (svc.needs_recovery_log || is_unsettled svc))
        && leb c.policy.stable_after (now - started)
      then mark_stable c now svc
      else svc

  unfoldable pub check_series : ℕ → Service → Service
  check_series now svc =
      if svc.fail_degraded && elapsed now svc.ok_since c.policy.stable_after
      then clear_failure_series c now svc
      else svc

  unfoldable pub check_hangs : ℕ → ℕ → Service → Service
  check_hangs now started svc =
      if any_of svc.hangs && leb c.policy.hang_recovery_after (now - started)
      then clear_hangs c svc
      else svc

  unfoldable pub check_health : ℕ → ℕ → Service → Service
  check_health now started svc =
      check_hangs now started (check_series now (check_stable now started svc))

  -- The wait for the task ends by its time limit.
  unfoldable pub tick : ℕ → World → World
  tick started w =
      let svc = check_health w.now started w.svc in
      record w {
        svc = svc;
        phase =
            if is_silent w.now svc.last_beat c.heartbeat_timeout
            then reaping started
            else supervised started (is_watched svc);
      }

  -- `_reaped` gives up: the restart is held until the old task is gone.
  unfoldable pub hold : ℕ → World → World
  hold started w =
      let v = record w { phase = holding started; svc = degrade c hang_not_cancellable w.svc } in
      if w.stopping then stop v else v

  unfoldable pub wake : Phase → World → World
  wake ready w = enter w
  wake (pausing previous) w = resume previous w
  wake (sleeping delay) w = enter w
  wake _ w = w

  unfoldable pub time_out : Phase → World → World
  time_out (supervised started true) w = tick started w
  time_out (reaping started) w = hold started w
  time_out (holding started) w = if w.stopping then stop w else w
  time_out _ w = w

  unfoldable pub end : Phase → Exit → ℕ → World → World
  end (supervised started watched) exc draw w = after_run started exc draw w
  end (reaping started) exc draw w = after_run started hung draw w
  end (holding started) exc draw w = after_run started hung draw w
  end _ exc draw w = w

  -- Reports come from the running service, so only while its task exists.
  unfoldable pub while_running : (Service → Service) → World → World
  while_running f w = if has_task w.phase then record w { svc = f w.svc } else w

  unfoldable pub step : Event → World → World
  step (passes d) w = record w { now = w.now + d }
  step shuts_down w = record w { stopping = true }
  step cancels w = if w.stopping then stop w else w
  step opens_maintenance w = record w { maintenance = true }
  step closes_maintenance w = record w { maintenance = false }
  step (fails exc_type) w =
      if w.stopping || w.maintenance then w else while_running (report_failure c w.now exc_type) w
  step succeeds w = while_running (report_success c w.now) w
  step beats w = record w { svc = record w.svc { last_beat = w.now } }
  step looks w = record w { svc = recent_hangs c w.now w.svc }
  step wakes w = wake w.phase w
  step times_out w = time_out w.phase w
  step (ends exc draw) w = end w.phase exc draw w

  unfoldable pub run : List Event → World → World
  run [] w = w
  run (e ∷ es) w = run es (step e w)
