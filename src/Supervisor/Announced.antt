-- ===== src/Supervisor/Announced.antt =====
-- The alerts of a whole run of the supervising task (app/utils/supervisor.py, `_supervise`).
use justup.Prelude.{
  ℕ, ◌-◌, ◌≡◌, refl, Bool, true, false, List, [], ◌∷◌, arith, Bool-cases, inl, inr, subst, sym,
}
use justup.Supervisor.Service.{
  ServiceState, Exit, Setup, Service, is_degraded, hang_not_cancellable, hung,
}
use justup.Supervisor.Operations.{
  recent_hangs, degrade, report_failure, report_success, record_crash,
}
use justup.Supervisor.Told.{
  IsTold, Told, Alternates, is_open, recent_hangs-Told, degrade-Told, report_failure-Told,
  report_success-Told, mark_stable-Told, clear_failure_series-Told, clear_hangs-Told,
  record_crash-Told, decide_delay-Told,
}
use justup.Supervisor.Machine.{
  Phase, ready, pausing, supervised, reaping, holding, sleeping, ended, World, init, Event, passes,
  shuts_down, cancels, opens_maintenance, closes_maintenance, succeeds, beats, looks, wakes,
  times_out, fails, ends, has_task, stop, begin_run, launch, enter, resume, restart_later,
  after_run, check_stable, check_series, check_hangs, check_health, tick, hold, wake, time_out, end,
  while_running, step, run,
}

-- Whether an open alert is as it should be: the service is degraded, also where a restore has
-- paused it, or is supervised no more.
abbrev pub may_be_open : Phase → ServiceState → Bool
may_be_open (pausing previous) state = is_degraded previous
may_be_open ended state = true
may_be_open ready state = is_degraded state
may_be_open (supervised _ _) state = is_degraded state
may_be_open (reaping _) state = is_degraded state
may_be_open (holding _) state = is_degraded state
may_be_open (sleeping _) state = is_degraded state

module _ (c : Setup) where
  abbrev pub IsAnnounced : World → Type 0
  IsAnnounced w = IsTold c.has_notifier (may_be_open w.phase w.svc.state) w.svc.alerts

  stop-IsAnnounced :
      (w : World)
      → Alternates w.svc.alerts
      → (c.has_notifier ≡ false → is_open w.svc.alerts ≡ false)
      → IsAnnounced (stop c w)
  unfolding stop
  stop-IsAnnounced w h m = record { alternates = h; open_allowed = λ _. refl; mute = m }

  launch-IsAnnounced : (w : World) → Told c w.svc → IsAnnounced (launch c w)
  unfolding launch begin_run
  launch-IsAnnounced w h = ground (arith, h.alternates, h.open_allowed, h.mute)

  enter-IsAnnounced : (w : World) → Told c w.svc → IsAnnounced (enter c w)
  unfolding enter
  enter-IsAnnounced w h = ground (
    arith,
    stop-IsAnnounced w h.alternates h.mute,
    launch-IsAnnounced w h,
    h.alternates,
    h.open_allowed,
    h.mute,
  )

  resume-IsAnnounced :
      (previous : ServiceState) (w : World)
      → w.phase ≡ pausing previous
      → IsTold c.has_notifier (is_degraded previous) w.svc.alerts
      → IsAnnounced (resume c previous w)
  unfolding resume
  resume-IsAnnounced previous w e h = ground (
    arith,
    stop-IsAnnounced w h.alternates h.mute,
    launch-IsAnnounced (record w { svc = record w.svc { state = previous } }) h,
    h.alternates,
    h.open_allowed,
    h.mute,
  )

  after_run-IsAnnounced :
      (started : ℕ) (exc : Exit) (draw : ℕ) (w : World)
      → Told c w.svc
      → IsAnnounced (after_run c started exc draw w)
  unfolding after_run restart_later
  after_run-IsAnnounced started exc draw w h =
      let crashed_svc = record_crash c w.now exc (w.now - started) w.svc in
      ground (
        arith,
        stop-IsAnnounced w h.alternates h.mute,
        enter-IsAnnounced w h,
        decide_delay-Told c (recent_hangs c w.now crashed_svc) (
            recent_hangs-Told c w.now crashed_svc
              (record_crash-Told c w.now exc (w.now - started) w.svc h)),
      )

  check_stable-Told :
      (now started : ℕ) (svc : Service) → Told c svc → Told c (check_stable c now started svc)
  unfolding check_stable
  check_stable-Told now started svc h = ground (arith, mark_stable-Told c now svc h)

  check_series-Told : (now : ℕ) (svc : Service) → Told c svc → Told c (check_series c now svc)
  unfolding check_series
  check_series-Told now svc h = ground (arith, clear_failure_series-Told c now svc h)

  check_hangs-Told :
      (now started : ℕ) (svc : Service) → Told c svc → Told c (check_hangs c now started svc)
  unfolding check_hangs
  check_hangs-Told now started svc h = ground (arith, clear_hangs-Told c svc h)

  tick-IsAnnounced : (started : ℕ) (w : World) → Told c w.svc → IsAnnounced (tick c started w)
  unfolding tick check_health
  tick-IsAnnounced started w h =
      let t =
        check_hangs-Told w.now started (check_series c w.now (check_stable c w.now started w.svc)) (
          check_series-Told w.now (check_stable c w.now started w.svc)
            (check_stable-Told w.now started w.svc h)) in
      ground (arith, t.alternates, t.open_allowed, t.mute)

  hold-IsAnnounced : (started : ℕ) (w : World) → Told c w.svc → IsAnnounced (hold c started w)
  unfolding hold
  hold-IsAnnounced started w h =
      let svc = degrade c hang_not_cancellable w.svc in
      let t = degrade-Told c hang_not_cancellable w.svc h in
      ground (
        arith,
        t.alternates,
        t.open_allowed,
        t.mute,
        stop-IsAnnounced (record w { phase = holding started; svc = svc }) t.alternates t.mute,
      )

  abbrev Allowed : Phase → World → Type 0
  Allowed phase w = IsTold c.has_notifier (may_be_open phase w.svc.state) w.svc.alerts

  wake-IsAnnounced :
      (phase : Phase) (w : World)
      → w.phase ≡ phase
      → Allowed phase w
      → IsAnnounced w
      → IsAnnounced (wake c phase w)
  unfolding wake
  wake-IsAnnounced ready w e a h = enter-IsAnnounced w a
  wake-IsAnnounced (pausing previous) w e a h = resume-IsAnnounced previous w e a
  wake-IsAnnounced (sleeping delay) w e a h = enter-IsAnnounced w a
  wake-IsAnnounced (supervised started watched) w e a h = h
  wake-IsAnnounced (reaping started) w e a h = h
  wake-IsAnnounced (holding started) w e a h = h
  wake-IsAnnounced ended w e a h = h

  time_out-IsAnnounced :
      (phase : Phase) (w : World)
      → Allowed phase w
      → IsAnnounced w
      → IsAnnounced (time_out c phase w)
  unfolding time_out
  time_out-IsAnnounced ready w a h = h
  time_out-IsAnnounced (pausing previous) w a h = h
  time_out-IsAnnounced (sleeping delay) w a h = h
  time_out-IsAnnounced (supervised started true) w a h = tick-IsAnnounced started w a
  time_out-IsAnnounced (supervised started false) w a h = h
  time_out-IsAnnounced (reaping started) w a h = hold-IsAnnounced started w a
  time_out-IsAnnounced (holding started) w a h =
      ground (arith, h.alternates, h.open_allowed, h.mute, stop-IsAnnounced w a.alternates a.mute)
  time_out-IsAnnounced ended w a h = h

  end-IsAnnounced :
      (phase : Phase) (exc : Exit) (draw : ℕ) (w : World)
      → Allowed phase w
      → IsAnnounced w
      → IsAnnounced (end c phase exc draw w)
  unfolding end
  end-IsAnnounced ready exc draw w a h = h
  end-IsAnnounced (pausing previous) exc draw w a h = h
  end-IsAnnounced (sleeping delay) exc draw w a h = h
  end-IsAnnounced (supervised started watched) exc draw w a h =
      after_run-IsAnnounced started exc draw w a
  end-IsAnnounced (reaping started) exc draw w a h = after_run-IsAnnounced started hung draw w a
  end-IsAnnounced (holding started) exc draw w a h = after_run-IsAnnounced started hung draw w a
  end-IsAnnounced ended exc draw w a h = h

  may_be_open_running :
      (phase : Phase) (state : ServiceState)
      → has_task phase ≡ true
      → may_be_open phase state ≡ is_degraded state
  may_be_open_running ready state h = cc
  may_be_open_running (pausing previous) state h = cc
  may_be_open_running (supervised started watched) state h = refl
  may_be_open_running (reaping started) state h = refl
  may_be_open_running (holding started) state h = refl
  may_be_open_running (sleeping delay) state h = cc
  may_be_open_running ended state h = cc

  while_running-IsAnnounced :
      (f : Service → Service) (w : World)
      → (Told c w.svc → Told c (f w.svc))
      → IsAnnounced w
      → IsAnnounced (while_running c f w)
  unfolding while_running
  while_running-IsAnnounced f w keep h = elim (Bool-cases (has_task w.phase)) [
    | inl e ↦
        let t = keep (
          subst (λ b. IsTold c.has_notifier b w.svc.alerts)
            (may_be_open_running w.phase w.svc.state e) h) in
        rw e (
          subst (λ b. IsTold c.has_notifier b (f w.svc).alerts)
            (sym (may_be_open_running w.phase (f w.svc).state e)) t)
    | inr e ↦ rw e h
  ]

  step-IsAnnounced : (e : Event) (w : World) → IsAnnounced w → IsAnnounced (step c e w)
  unfolding step recent_hangs
  step-IsAnnounced (passes d) w h = h
  step-IsAnnounced shuts_down w h = h
  step-IsAnnounced cancels w h =
      ground (arith, h.alternates, h.open_allowed, h.mute, stop-IsAnnounced w h.alternates h.mute)
  step-IsAnnounced opens_maintenance w h = h
  step-IsAnnounced closes_maintenance w h = h
  step-IsAnnounced (fails exc_type) w h =
      let t =
        while_running-IsAnnounced (report_failure c w.now exc_type) w
          (report_failure-Told c w.now exc_type w.svc) h in
      ground (arith, h.alternates, h.open_allowed, h.mute, t.alternates, t.open_allowed, t.mute)
  step-IsAnnounced succeeds w h =
      while_running-IsAnnounced (report_success c w.now) w (report_success-Told c w.now w.svc) h
  step-IsAnnounced beats w h = h
  step-IsAnnounced looks w h = h
  step-IsAnnounced wakes w h = wake-IsAnnounced w.phase w refl h h
  step-IsAnnounced times_out w h = time_out-IsAnnounced w.phase w h h
  step-IsAnnounced (ends exc draw) w h = end-IsAnnounced w.phase exc draw w h h

  run-IsAnnounced : (es : List Event) (w : World) → IsAnnounced w → IsAnnounced (run c es w)
  unfolding run
  run-IsAnnounced [] w h = h
  run-IsAnnounced (e ∷ es) w h = run-IsAnnounced es (step c e w) (step-IsAnnounced e w h)

-- Whatever a service, its clock, restores and a shutdown do, the degraded state is announced again
-- only after a recovery was, and where the last word to the notifier is that the service is
-- degraded, the service is degraded, also as the state that a restore has set aside, or is
-- supervised no more.
pub run-init-IsAnnounced :
    (c : Setup) (es : List Event) (now : ℕ) → IsAnnounced c (run c es (init now))
run-init-IsAnnounced c es now =
    run-IsAnnounced c es (init now)
      (record { alternates = tt; open_allowed = λ h. cc; mute = λ _. refl })
