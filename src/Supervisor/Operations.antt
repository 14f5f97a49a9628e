-- ===== src/Supervisor/Operations.antt =====
-- The operations that change the record of a supervised service (app/utils/supervisor.py,
-- `ServiceSupervisor`), but for the waits of its task.
use justup.Prelude.{
  ℕ, ◌+◌, ◌-◌, ◌*◌, ◌/◌, ◌^◌, String, Bool, true, false, not, ◌&&◌, ◌||◌, Option, none, some, [],
  ◌∷◌, ◌++◌, ltb, leb, min, length, if◌then◌else◌,
}
use justup.Supervisor.Service.{
  Exit, Kind, Reason, Service, ServiceState, Setup, any_of, backoff, crash_loop, crashed, degraded,
  exc_type_of, failure_series, hangs, is_degraded, is_hung, no_reason, nonzero_or, prune_old,
  recovered, running, went_degraded,
}

module _ (c : Setup) where
  unfoldable pub notify : Kind → Reason → Service → Service
  notify kind reason svc =
      if c.has_notifier
      then record svc {
        alerts =
            record {
              kind = kind;
              state = svc.state;
              exc_type = svc.last_exc_type;
              crashes_total = svc.crashes_total;
              reason = reason;
            }
            ∷ svc.alerts;
      }
      else svc

  unfoldable pub recover : Service → Service
  recover svc = notify recovered no_reason (record svc { state = running })

  -- `_recent_hangs`: it also forgets the old ones, and the number is what is left.
  unfoldable pub recent_hangs : ℕ → Service → Service
  recent_hangs now svc = record svc { hangs = prune_old c.policy.hang_window now svc.hangs }

  -- The state turns to degraded, announced unless it was degraded already.
  unfoldable pub degrade : Reason → Service → Service
  degrade reason svc =
      if is_degraded svc.state
      then svc
      else notify went_degraded reason (record svc { state = degraded })

  -- How long the current failure series has lasted.
  abbrev pub span_of : ℕ → Option ℕ → ℕ
  span_of now none = 0
  span_of now (some since) = now - since

  unfoldable pub count_failure : ℕ → String → Service → Service
  count_failure now exc_type svc = record svc {
    fail_since = if leb svc.fail_streak 0 then some now else svc.fail_since;
    fail_streak = svc.fail_streak + 1;
    ok_since = none;
    last_exc_type = some exc_type;
  }

  unfoldable pub judge_series : ℕ → Service → Service
  judge_series now svc =
      if leb (nonzero_or c.failure_limit c.policy.failure_limit) svc.fail_streak
        && (leb c.policy.failure_min_span (span_of now svc.fail_since) && not svc.fail_degraded)
      then degrade failure_series (record svc { fail_degraded = true })
      else svc

  -- `report_failure`, outside a shutdown and a restore
  unfoldable pub report_failure : ℕ → String → Service → Service
  report_failure now exc_type svc = judge_series now (count_failure now exc_type svc)

  abbrev pub first_success : ℕ → Option ℕ → Option ℕ
  first_success now none = some now
  first_success now (some t) = some t

  unfoldable pub report_success : ℕ → Service → Service
  report_success now svc = record svc {
    fail_streak = 0;
    fail_since = none;
    ok_since = if svc.fail_degraded then first_success now svc.ok_since else svc.ok_since;
  }

  unfoldable pub settle_crash : ℕ → Service → Service
  settle_crash now svc =
      let s = recent_hangs now (record svc { needs_recovery_log = false; settled = true }) in
      if ltb (length s.hangs) c.policy.hang_limit then recover s else s

  unfoldable pub settle : ℕ → Service → Service
  settle now svc =
      if svc.fail_degraded
      then svc
      else if svc.needs_recovery_log
      then settle_crash now svc
      else if svc.settled
      then svc
      else notify recovered no_reason (record svc { settled = true })

  unfoldable pub mark_stable : ℕ → Service → Service
  mark_stable now svc =
      if ltb 0 svc.fail_streak then svc else settle now (record svc { attempt = 0; crashes = [] })

  unfoldable pub clear_failure_series : ℕ → Service → Service
  clear_failure_series now svc =
      let s = record svc { fail_degraded = false; ok_since = none } in
      let t = recent_hangs now s in
      if is_degraded s.state && not (any_of s.crashes)
      then if ltb (length t.hangs) c.policy.hang_limit then recover t else t
      else s

  unfoldable pub clear_hangs : Service → Service
  clear_hangs svc =
      let s = record svc { hangs = [] } in
      if is_degraded s.state && (not (any_of s.crashes) && not s.fail_degraded)
      then recover s
      else s

  abbrev pub backing_off : ServiceState → ServiceState
  backing_off degraded = degraded
  backing_off _ = backoff

  -- A run that was long enough makes this an isolated failure.
  unfoldable pub forgive : ℕ → Service → Service
  forgive ran_for svc =
      if leb c.policy.stable_after ran_for then record svc { attempt = 0; crashes = [] } else svc

  unfoldable pub count_crash : ℕ → Exit → Service → Service
  count_crash now exc svc = record svc {
    attempt = svc.attempt + 1;
    crashes_total = svc.crashes_total + 1;
    last_exc_type = some (exc_type_of exc);
    crashes = prune_old c.policy.crash_window now (svc.crashes ++ now ∷ []);
    hangs = if is_hung exc then svc.hangs ++ now ∷ [] else svc.hangs;
    needs_recovery_log = true;
    settled = true;
    state = backing_off svc.state;
  }

  unfoldable pub record_crash : ℕ → Exit → ℕ → Service → Service
  record_crash now exc ran_for svc =
      notify crashed no_reason (count_crash now exc (forgive ran_for svc))

  -- Before its jitter; `draw` is what `uniform` gives, counted from the lowest value.
  unfoldable pub backoff_of : ℕ → ℕ → ℕ
  backoff_of draw attempt =
      let p = c.policy in
      let delay = min p.backoff_max (p.backoff_initial * p.backoff_factor ^ min (attempt - 1) 64) in
      min p.backoff_max (delay * (1000 + draw - p.jitter) / 1000)

  abbrev pub reason_of : Bool → Reason
  reason_of hang_degraded = if hang_degraded then hangs else crash_loop

  abbrev pub is_hopeless : Service → Bool
  is_hopeless svc =
      leb c.policy.crash_limit (length svc.crashes)
      || (leb c.policy.hang_limit (length svc.hangs) || is_degraded svc.state)

  -- `_next_delay`, on the service that has forgotten its old hangs: the new state, and the delay
  unfoldable pub decide_delay : Service → Service
  decide_delay svc =
      if is_hopeless svc
      then degrade (reason_of (leb c.policy.hang_limit (length svc.hangs))) svc
      else svc

  unfoldable pub next_delay : ℕ → Service → ℕ
  next_delay draw svc =
      if is_hopeless svc then c.policy.degraded_retry else backoff_of draw svc.attempt
