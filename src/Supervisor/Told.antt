-- ===== src/Supervisor/Told.antt =====
-- What each operation of a service tells the notifier (app/utils/supervisor.py, `_notify`).
use justup.Prelude.{ℕ, String, ◌≡◌, Bool, true, false, not, List, [], ◌∷◌, arith}
use justup.Supervisor.Service.{
  Exit, Kind, crashed, went_degraded, recovered, Reason, ServiceAlert, Setup, Service, is_degraded,
}
use justup.Supervisor.Operations.{
  notify, recover, recent_hangs, degrade, count_failure, judge_series, report_failure,
  report_success, settle_crash, settle, mark_stable, clear_failure_series, clear_hangs, forgive,
  count_crash, record_crash, decide_delay,
}

-- Whether the newest alert on the degraded state says that it has begun.
abbrev pub is_open_after : Kind → Bool → Bool
is_open_after crashed before = before
is_open_after went_degraded before = true
is_open_after recovered before = false

abbrev pub is_open : List ServiceAlert → Bool
is_open [] = false
is_open (a ∷ older) = is_open_after a.kind (is_open older)

abbrev pub may_follow : Kind → Bool → Bool
may_follow went_degraded before = not before
may_follow _ before = true

-- The degraded state is announced only where it was not open.
abbrev pub Alternates : List ServiceAlert → Type 0
Alternates [] = Unit
Alternates (a ∷ older) = (may_follow a.kind (is_open older) ≡ true) × Alternates older

pub record IsTold (can_tell allowed : Bool) (alerts : List ServiceAlert) : Type 0 where
  pub alternates : Alternates alerts
  pub open_allowed : is_open alerts ≡ true → allowed ≡ true
  pub mute : can_tell ≡ false → is_open alerts ≡ false

module _ (c : Setup) where
  abbrev pub Told : Service → Type 0
  Told svc = IsTold c.has_notifier (is_degraded svc.state) svc.alerts

  notify-crashed-Told : (svc : Service) → Told svc → Told (notify c crashed Reason.no_reason svc)
  unfolding notify
  notify-crashed-Told svc h = ground (arith, h.alternates, h.open_allowed, h.mute)

  notify-recovered-Told :
      (svc : Service) → Told svc → Told (notify c recovered Reason.no_reason svc)
  unfolding notify
  notify-recovered-Told svc h = ground (arith, h.alternates, h.open_allowed, h.mute)

  recover-Told : (svc : Service) → Told svc → Told (recover c svc)
  unfolding recover notify
  recover-Told svc h = ground (arith, h.alternates, h.open_allowed, h.mute)

  pub recent_hangs-Told : (now : ℕ) (svc : Service) → Told svc → Told (recent_hangs c now svc)
  unfolding recent_hangs
  recent_hangs-Told now svc h = record {
    alternates = h.alternates;
    open_allowed = h.open_allowed;
    mute = h.mute;
  }

  pub degrade-Told : (r : Reason) (svc : Service) → Told svc → Told (degrade c r svc)
  unfolding degrade notify
  degrade-Told r svc h = ground (arith, h.alternates, h.open_allowed, h.mute)

  pub report_failure-Told :
      (now : ℕ) (exc_type : String) (svc : Service)
      → Told svc
      → Told (report_failure c now exc_type svc)
  unfolding report_failure judge_series count_failure
  report_failure-Told now exc_type svc h = ground (
    arith,
    degrade-Told Reason.failure_series
        (record (count_failure c now exc_type svc) { fail_degraded = true })
        (record { alternates = h.alternates; open_allowed = h.open_allowed; mute = h.mute }),
    h.alternates,
    h.open_allowed,
    h.mute,
  )

  pub report_success-Told : (now : ℕ) (svc : Service) → Told svc → Told (report_success c now svc)
  unfolding report_success
  report_success-Told now svc h = record {
    alternates = h.alternates;
    open_allowed = h.open_allowed;
    mute = h.mute;
  }

  settle_crash-Told : (now : ℕ) (svc : Service) → Told svc → Told (settle_crash c now svc)
  unfolding settle_crash recover notify recent_hangs
  settle_crash-Told now svc h = ground (arith, h.alternates, h.open_allowed, h.mute)

  settle-Told : (now : ℕ) (svc : Service) → Told svc → Told (settle c now svc)
  unfolding settle notify
  settle-Told now svc h =
      ground (arith, h.alternates, h.open_allowed, h.mute, settle_crash-Told now svc h)

  pub mark_stable-Told : (now : ℕ) (svc : Service) → Told svc → Told (mark_stable c now svc)
  unfolding mark_stable
  mark_stable-Told now svc h = ground (
    arith,
    settle-Told now (record svc { attempt = 0; crashes = [] })
        (record { alternates = h.alternates; open_allowed = h.open_allowed; mute = h.mute }),
  )

  pub clear_failure_series-Told :
      (now : ℕ) (svc : Service) → Told svc → Told (clear_failure_series c now svc)
  unfolding clear_failure_series recover notify recent_hangs
  clear_failure_series-Told now svc h = ground (arith, h.alternates, h.open_allowed, h.mute)

  pub clear_hangs-Told : (svc : Service) → Told svc → Told (clear_hangs c svc)
  unfolding clear_hangs recover notify
  clear_hangs-Told svc h = ground (arith, h.alternates, h.open_allowed, h.mute)

  pub record_crash-Told :
      (now : ℕ) (exc : Exit) (ran_for : ℕ) (svc : Service)
      → Told svc
      → Told (record_crash c now exc ran_for svc)
  unfolding record_crash count_crash forgive notify
  record_crash-Told now exc ran_for svc h = ground (arith, h.alternates, h.open_allowed, h.mute)

  pub decide_delay-Told : (svc : Service) → Told svc → Told (decide_delay c svc)
  unfolding decide_delay
  decide_delay-Told svc h =
      ground (arith, degrade-Told Reason.crash_loop svc h, degrade-Told Reason.hangs svc h)
