-- ===== src/Supervisor/Paced.antt =====
-- The waits of a whole run of the supervising task (app/utils/supervisor.py, `_supervise`).
use justup.Prelude.{
  ℕ, ◌-◌, ◌≡◌, refl, Bool, true, false, ◌||◌, List, [], ◌∷◌, arith, if◌then◌else◌, subst,
  Bool-cases, inl, inr,
}
use justup.Supervisor.Service.{ServiceState, Exit, is_refusal, Setup, Service, default_policy, hung}
use justup.Supervisor.Operations.{recent_hangs, report_failure, report_success, record_crash}
use justup.Supervisor.Machine.{
  Phase, ready, pausing, supervised, reaping, holding, sleeping, ended, World, init, Event, passes,
  shuts_down, cancels, opens_maintenance, closes_maintenance, succeeds, beats, looks, wakes,
  times_out, fails, ends, has_task, stop, launch, enter, resume, restart_later, after_run, tick,
  hold, wake, time_out, end, while_running, step, run,
}
use justup.Supervisor.Delays.{IsPaced, PacedAt, length-prune_old-le, decide_delay-IsPaced}

abbrev is_asleep : Phase → Bool
is_asleep (sleeping delay) = true
is_asleep _ = false

awake-PacedAt : (phase : Phase) (svc : Service) → is_asleep phase ≡ false → PacedAt phase svc
awake-PacedAt ready svc h = tt
awake-PacedAt (pausing previous) svc h = tt
awake-PacedAt (supervised started watched) svc h = tt
awake-PacedAt (reaping started) svc h = tt
awake-PacedAt (holding started) svc h = tt
awake-PacedAt (sleeping delay) svc h = cc
awake-PacedAt ended svc h = tt

abbrev Paced : World → Type 0
Paced w = PacedAt w.phase w.svc

if-Paced : (test : Bool) (u v : World) → Paced u → Paced v → Paced (if test then u else v)
if-Paced true u v p q = p
if-Paced false u v p q = q

module _ (c : Setup) (usual : c.policy ≡ default_policy) where
  enter_awake : (w : World) → is_asleep (enter c w).phase ≡ false
  unfolding enter launch stop
  enter_awake w = ground arith

  after_run-Paced :
      (started : ℕ) (exc : Exit) (draw : ℕ) (w : World) → Paced (after_run c started exc draw w)
  unfolding after_run restart_later stop
  after_run-Paced started exc draw w =
      let later = restart_later c draw (record_crash c w.now exc (w.now - started) w.svc) w in
      if-Paced w.stopping (stop c w) (if is_refusal exc || w.maintenance then enter c w else later)
        tt
        (if-Paced (is_refusal exc || w.maintenance) (enter c w) later
          (awake-PacedAt (enter c w).phase (enter c w).svc (enter_awake w))
          (decide_delay-IsPaced c draw
            (recent_hangs c w.now (record_crash c w.now exc (w.now - started) w.svc)) usual))

  resume_awake :
      (previous : ServiceState) (w : World)
      → w.phase ≡ pausing previous
      → is_asleep (resume c previous w).phase ≡ false
  unfolding resume launch stop
  resume_awake previous w e = ground arith

  wake-Paced : (phase : Phase) (w : World) → w.phase ≡ phase → Paced w → Paced (wake c phase w)
  unfolding wake
  wake-Paced ready w e h = awake-PacedAt (enter c w).phase (enter c w).svc (enter_awake w)
  wake-Paced (pausing previous) w e h =
      awake-PacedAt (resume c previous w).phase (resume c previous w).svc
        (resume_awake previous w e)
  wake-Paced (sleeping delay) w e h =
      awake-PacedAt (enter c w).phase (enter c w).svc (enter_awake w)
  wake-Paced (supervised started watched) w e h = h
  wake-Paced (reaping started) w e h = h
  wake-Paced (holding started) w e h = h
  wake-Paced ended w e h = h

  tick_awake : (started : ℕ) (w : World) → is_asleep (tick c started w).phase ≡ false
  unfolding tick
  tick_awake started w = ground arith

  hold_awake : (started : ℕ) (w : World) → is_asleep (hold c started w).phase ≡ false
  unfolding hold stop
  hold_awake started w = ground arith

  time_out-Paced : (phase : Phase) (w : World) → Paced w → Paced (time_out c phase w)
  unfolding time_out stop
  time_out-Paced ready w h = h
  time_out-Paced (pausing previous) w h = h
  time_out-Paced (sleeping delay) w h = h
  time_out-Paced (supervised started true) w h =
      awake-PacedAt (tick c started w).phase (tick c started w).svc (tick_awake started w)
  time_out-Paced (supervised started false) w h = h
  time_out-Paced (reaping started) w h =
      awake-PacedAt (hold c started w).phase (hold c started w).svc (hold_awake started w)
  time_out-Paced (holding started) w h = if-Paced w.stopping (stop c w) w tt h
  time_out-Paced ended w h = h

  end-Paced :
      (phase : Phase) (exc : Exit) (draw : ℕ) (w : World) → Paced w → Paced (end c phase exc draw w)
  unfolding end
  end-Paced ready exc draw w h = h
  end-Paced (pausing previous) exc draw w h = h
  end-Paced (sleeping delay) exc draw w h = h
  end-Paced (supervised started watched) exc draw w h = after_run-Paced started exc draw w
  end-Paced (reaping started) exc draw w h = after_run-Paced started hung draw w
  end-Paced (holding started) exc draw w h = after_run-Paced started hung draw w
  end-Paced ended exc draw w h = h

  -- What leaves the phase and the counts of crashes and hangs no higher keeps the pace.
  looks-PacedAt :
      (phase : Phase) (now : ℕ) (svc : Service)
      → PacedAt phase svc
      → PacedAt phase (recent_hangs c now svc)
  unfolding recent_hangs
  looks-PacedAt (sleeping delay) now svc h =
      let l = length-prune_old-le c.policy.hang_window now svc.hangs in
      record {
        slow = h.slow;
        quick = h.quick;
        few_crashes = h.few_crashes;
        few_hangs = λ d. let f = h.few_hangs d in omega arith;
      }
  looks-PacedAt ready now svc h = tt
  looks-PacedAt (pausing previous) now svc h = tt
  looks-PacedAt (supervised started watched) now svc h = tt
  looks-PacedAt (reaping started) now svc h = tt
  looks-PacedAt (holding started) now svc h = tt
  looks-PacedAt ended now svc h = tt

  beats-PacedAt :
      (phase : Phase) (now : ℕ) (svc : Service)
      → PacedAt phase svc
      → PacedAt phase (record svc { last_beat = now })
  beats-PacedAt (sleeping delay) now svc h = record {
    slow = h.slow;
    quick = h.quick;
    few_crashes = h.few_crashes;
    few_hangs = h.few_hangs;
  }
  beats-PacedAt ready now svc h = tt
  beats-PacedAt (pausing previous) now svc h = tt
  beats-PacedAt (supervised started watched) now svc h = tt
  beats-PacedAt (reaping started) now svc h = tt
  beats-PacedAt (holding started) now svc h = tt
  beats-PacedAt ended now svc h = tt

  running-PacedAt :
      (phase : Phase) (svc t : Service)
      → has_task phase ≡ true
      → PacedAt phase svc
      → PacedAt phase t
  running-PacedAt (sleeping delay) svc t e h = cc
  running-PacedAt ready svc t e h = tt
  running-PacedAt (pausing previous) svc t e h = tt
  running-PacedAt (supervised started watched) svc t e h = tt
  running-PacedAt (reaping started) svc t e h = tt
  running-PacedAt (holding started) svc t e h = tt
  running-PacedAt ended svc t e h = tt

  while_running-Paced : (f : Service → Service) (w : World) → Paced w → Paced (while_running c f w)
  unfolding while_running
  while_running-Paced f w h = elim (Bool-cases (has_task w.phase)) [
    | inl e ↦ rw e (running-PacedAt w.phase w.svc (f w.svc) e h)
    | inr e ↦ rw e h
  ]

  step-Paced : (e : Event) (w : World) → Paced w → Paced (step c e w)
  unfolding step stop
  step-Paced (passes d) w h = h
  step-Paced shuts_down w h = h
  step-Paced cancels w h = if-Paced w.stopping (stop c w) w tt h
  step-Paced opens_maintenance w h = h
  step-Paced closes_maintenance w h = h
  step-Paced (fails exc_type) w h =
      if-Paced (w.stopping || w.maintenance) w (while_running c (report_failure c w.now exc_type) w)
        h (while_running-Paced (report_failure c w.now exc_type) w h)
  step-Paced succeeds w h = while_running-Paced (report_success c w.now) w h
  step-Paced beats w h = beats-PacedAt w.phase w.now w.svc h
  step-Paced looks w h = looks-PacedAt w.phase w.now w.svc h
  step-Paced wakes w h = wake-Paced w.phase w refl h
  step-Paced times_out w h = time_out-Paced w.phase w h
  step-Paced (ends exc draw) w h = end-Paced w.phase exc draw w h

  run-Paced : (es : List Event) (w : World) → Paced w → Paced (run c es w)
  unfolding run
  run-Paced [] w h = h
  run-Paced (e ∷ es) w h = run-Paced es (step c e w) (step-Paced e w h)

-- Under the default policy, whenever a service waits for its restart after a crash, it either is
-- degraded and waits 300 s, or it has fewer than five crashes and fewer than three hangs on
-- record and waits between 0.75 s and 60 s, whatever happened before and is drawn.
pub run-sleeping-IsPaced :
    (c : Setup) (es : List Event) (now delay : ℕ)
    → c.policy ≡ default_policy
    → (run c es (init now)).phase ≡ sleeping delay
    → IsPaced delay (run c es (init now)).svc
run-sleeping-IsPaced c es now delay usual e =
    subst (λ phase. PacedAt phase (run c es (init now)).svc) e (run-Paced c usual es (init now) tt)
