-- ===== src/Supervisor/Stops.antt =====
-- A shutdown and a restore are intended stops, never crashes (app/utils/supervisor.py).
use justup.Prelude.{
  ℕ, String, ◌≡◌, refl, Bool, true, false, ◌||◌, List, [], ◌∷◌, ◌∙◌, ◌⊎◌, arith, inl, inr, All,
}
use justup.Supervisor.Service.{
  ServiceState, Exit, Kind, Reason, Setup, Service, hung, hang_not_cancellable, failure_series,
}
use justup.Supervisor.Operations.{
  notify, recover, recent_hangs, degrade, count_failure, judge_series, report_failure,
  report_success, settle_crash, settle, mark_stable, clear_failure_series, clear_hangs,
}
use justup.Supervisor.Machine.{
  Phase, ready, pausing, supervised, reaping, holding, sleeping, ended, World, Event, passes,
  shuts_down, cancels, opens_maintenance, closes_maintenance, succeeds, beats, looks, wakes,
  times_out, fails, ends, stop, enter, resume, after_run, check_stable, check_series, check_hangs,
  check_health, tick, hold, wake, time_out, end, while_running, step, run,
}

-- No run was started and no crash was counted.
pub record IsUndisturbed (s t : Service) : Type 0 where
  pub starts : t.starts ≡ s.starts
  pub crashes_total : t.crashes_total ≡ s.crashes_total

-- A shutdown has begun, or a restore holds the application.
abbrev pub is_halted : World → Bool
is_halted w = w.stopping || w.maintenance

abbrev pub is_closing : Event → Bool
is_closing closes_maintenance = true
is_closing _ = false

-- A shutdown has begun, or a restore holds the application until after these events.
abbrev pub Halted : List Event → World → Type 0
Halted es w = (w.stopping ≡ true) ⊎ ((w.maintenance ≡ true) × All (λ e. is_closing e ≡ false) es)

module _ (c : Setup) where
  notify-IsUndisturbed :
      (kind : Kind) (r : Reason) (s svc : Service)
      → IsUndisturbed s svc
      → IsUndisturbed s (notify c kind r svc)
  unfolding notify
  notify-IsUndisturbed kind r s svc h = ground (arith, h.starts, h.crashes_total)

  degrade-IsUndisturbed :
      (r : Reason) (s svc : Service) → IsUndisturbed s svc → IsUndisturbed s (degrade c r svc)
  unfolding degrade notify
  degrade-IsUndisturbed r s svc h = ground (arith, h.starts, h.crashes_total)

  report_failure-IsUndisturbed :
      (now : ℕ) (exc_type : String) (svc : Service)
      → IsUndisturbed svc (report_failure c now exc_type svc)
  unfolding report_failure judge_series count_failure
  report_failure-IsUndisturbed now exc_type svc = ground (
    arith,
    degrade-IsUndisturbed failure_series svc
        (record (count_failure c now exc_type svc) { fail_degraded = true })
        (record { starts = refl; crashes_total = refl }),
  )

  mark_stable-IsUndisturbed : (now : ℕ) (svc : Service) → IsUndisturbed svc (mark_stable c now svc)
  unfolding mark_stable settle settle_crash recover notify recent_hangs
  mark_stable-IsUndisturbed now svc = ground arith

  check_stable-IsUndisturbed :
      (now started : ℕ) (svc : Service) → IsUndisturbed svc (check_stable c now started svc)
  unfolding check_stable
  check_stable-IsUndisturbed now started svc = ground (arith, mark_stable-IsUndisturbed now svc)

  check_series-IsUndisturbed :
      (now : ℕ) (svc : Service) → IsUndisturbed svc (check_series c now svc)
  unfolding check_series clear_failure_series recover notify recent_hangs
  check_series-IsUndisturbed now svc = ground arith

  check_hangs-IsUndisturbed :
      (now started : ℕ) (svc : Service) → IsUndisturbed svc (check_hangs c now started svc)
  unfolding check_hangs clear_hangs recover notify
  check_hangs-IsUndisturbed now started svc = ground arith

  check_health-IsUndisturbed :
      (now started : ℕ) (svc : Service) → IsUndisturbed svc (check_health c now started svc)
  unfolding check_health
  check_health-IsUndisturbed now started svc =
      let a = check_stable-IsUndisturbed now started svc in
      let b = check_series-IsUndisturbed now (check_stable c now started svc) in
      let d =
        check_hangs-IsUndisturbed now started
          (check_series c now (check_stable c now started svc)) in
      record {
        starts = d.starts ∙ b.starts ∙ a.starts;
        crashes_total = d.crashes_total ∙ b.crashes_total ∙ a.crashes_total;
      }

  record IsKept (w v : World) : Type 0 where
    pub svc : IsUndisturbed w.svc v.svc
    pub stopping : v.stopping ≡ w.stopping
    pub maintenance : v.maintenance ≡ w.maintenance

  stop-IsKept : (w : World) → IsKept w (stop c w)
  unfolding stop
  stop-IsKept w = ground arith

  enter-IsKept : (w : World) → is_halted w ≡ true → IsKept w (enter c w)
  unfolding enter stop
  enter-IsKept w h = ground arith

  resume-IsKept :
      (previous : ServiceState) (w : World) → is_halted w ≡ true → IsKept w (resume c previous w)
  unfolding resume stop
  resume-IsKept previous w h = ground arith

  after_run-IsKept :
      (started : ℕ) (exc : Exit) (draw : ℕ) (w : World)
      → is_halted w ≡ true
      → IsKept w (after_run c started exc draw w)
  unfolding after_run
  after_run-IsKept started exc draw w h = ground (arith, stop-IsKept w, enter-IsKept w h)

  tick-IsKept : (started : ℕ) (w : World) → IsKept w (tick c started w)
  unfolding tick
  tick-IsKept started w = record {
    svc = check_health-IsUndisturbed w.now started w.svc;
    stopping = refl;
    maintenance = refl;
  }

  hold-IsKept : (started : ℕ) (w : World) → IsKept w (hold c started w)
  unfolding hold stop
  hold-IsKept started w =
      let t =
        degrade-IsUndisturbed hang_not_cancellable w.svc w.svc
          (record { starts = refl; crashes_total = refl }) in
      ground (arith, t.starts, t.crashes_total)

  same-IsKept : (w : World) → IsKept w w
  same-IsKept w = ground arith

  wake-IsKept : (phase : Phase) (w : World) → is_halted w ≡ true → IsKept w (wake c phase w)
  unfolding wake
  wake-IsKept ready w h = enter-IsKept w h
  wake-IsKept (pausing previous) w h = resume-IsKept previous w h
  wake-IsKept (sleeping delay) w h = enter-IsKept w h
  wake-IsKept (supervised started watched) w h = same-IsKept w
  wake-IsKept (reaping started) w h = same-IsKept w
  wake-IsKept (holding started) w h = same-IsKept w
  wake-IsKept ended w h = same-IsKept w

  time_out-IsKept : (phase : Phase) (w : World) → IsKept w (time_out c phase w)
  unfolding time_out
  time_out-IsKept ready w = same-IsKept w
  time_out-IsKept (pausing previous) w = same-IsKept w
  time_out-IsKept (sleeping delay) w = same-IsKept w
  time_out-IsKept (supervised started true) w = tick-IsKept started w
  time_out-IsKept (supervised started false) w = same-IsKept w
  time_out-IsKept (reaping started) w = hold-IsKept started w
  time_out-IsKept (holding started) w = ground (arith, stop-IsKept w)
  time_out-IsKept ended w = same-IsKept w

  end-IsKept :
      (phase : Phase) (exc : Exit) (draw : ℕ) (w : World)
      → is_halted w ≡ true
      → IsKept w (end c phase exc draw w)
  unfolding end
  end-IsKept ready exc draw w h = same-IsKept w
  end-IsKept (pausing previous) exc draw w h = same-IsKept w
  end-IsKept (sleeping delay) exc draw w h = same-IsKept w
  end-IsKept (supervised started watched) exc draw w h = after_run-IsKept started exc draw w h
  end-IsKept (reaping started) exc draw w h = after_run-IsKept started hung draw w h
  end-IsKept (holding started) exc draw w h = after_run-IsKept started hung draw w h
  end-IsKept ended exc draw w h = same-IsKept w

  Halted-is_halted : (es : List Event) (w : World) → Halted es w → is_halted w ≡ true
  Halted-is_halted es w (inl s) = ground arith
  Halted-is_halted es w (inr m) = ground (arith, m.0)

  IsKept-Halted :
      (e : Event) (es : List Event) (w v : World)
      → IsKept w v
      → Halted (e ∷ es) w
      → IsUndisturbed w.svc v.svc × Halted es v
  IsKept-Halted e es w v k (inl s) = (k.svc, inl (k.stopping ∙ s))
  IsKept-Halted e es w v k (inr m) = (k.svc, inr (k.maintenance ∙ m.0, m.1.1))

  fails-IsKept : (exc_type : String) (w : World) → IsKept w (step c (fails exc_type) w)
  unfolding step while_running
  fails-IsKept exc_type w = ground (arith, report_failure-IsUndisturbed w.now exc_type w.svc)

  step-Halted :
      (e : Event) (es : List Event) (w : World)
      → Halted (e ∷ es) w
      → IsUndisturbed w.svc (step c e w).svc × Halted es (step c e w)
  unfolding step recent_hangs
  step-Halted (passes d) es w h =
      IsKept-Halted (passes d) es w (step c (passes d) w) (ground arith) h
  step-Halted shuts_down es w h = (ground arith, inl refl)
  step-Halted cancels es w h =
      IsKept-Halted cancels es w (step c cancels w) (ground (arith, stop-IsKept w)) h
  step-Halted opens_maintenance es w (inl s) = (ground arith, inl s)
  step-Halted opens_maintenance es w (inr m) = (ground arith, inr (refl, m.1.1))
  step-Halted closes_maintenance es w (inl s) = (ground arith, inl s)
  step-Halted closes_maintenance es w (inr m) = absurd (let r = m.1.0 in ground arith)
  step-Halted (fails exc_type) es w h =
      IsKept-Halted (fails exc_type) es w _ (fails-IsKept exc_type w) h
  step-Halted succeeds es w h =
      IsKept-Halted succeeds es w (step c succeeds w)
        (unfold while_running report_success in ground arith) h
  step-Halted beats es w h = IsKept-Halted beats es w (step c beats w) (ground arith) h
  step-Halted looks es w h = IsKept-Halted looks es w (step c looks w) (ground arith) h
  step-Halted wakes es w h =
      IsKept-Halted wakes es w _ (wake-IsKept w.phase w (Halted-is_halted (wakes ∷ es) w h)) h
  step-Halted times_out es w h = IsKept-Halted times_out es w _ (time_out-IsKept w.phase w) h
  step-Halted (ends exc draw) es w h =
      IsKept-Halted (ends exc draw) es w _
        (end-IsKept w.phase exc draw w (Halted-is_halted (ends exc draw ∷ es) w h)) h

-- While a shutdown or a restore is in effect nothing is restarted and nothing counts as a crash,
-- whatever the service, its clock and the supervising task do, from any state and at any wait.
pub run-IsUndisturbed :
    (c : Setup) (es : List Event) (w : World) → Halted es w → IsUndisturbed w.svc (run c es w).svc
unfolding run
run-IsUndisturbed c [] w h = ground arith
run-IsUndisturbed c (e ∷ es) w h =
    let (now, later) = step-Halted c e es w h in
    let rest = run-IsUndisturbed c es (step c e w) later in
    record {
      starts = rest.starts ∙ now.starts;
      crashes_total = rest.crashes_total ∙ now.crashes_total;
    }
