-- ===== src/Supervisor/Service.antt =====
-- The record of a supervised service and its policy (app/utils/supervisor.py). Times are milliseconds
-- of the monotonic clock.
use justup.Prelude.{
  ℕ, zero, suc, ◌-◌, String, Bool, true, false, Option, none, some, List, [], ◌∷◌, ltb,
  if◌then◌else◌,
}

pub data ServiceState : Type 0 where
  starting running backoff degraded paused stopped : ServiceState

abbrev pub is_degraded : ServiceState → Bool
is_degraded degraded = true
is_degraded _ = false

-- Why a run of the service ended.
pub data Exit : Type 0 where
  hung exited cancelled maintenance_active : Exit
  raised : String → Exit

-- type(exc).__name__
abbrev pub exc_type_of : Exit → String
exc_type_of hung = "ServiceHungError"
exc_type_of exited = "ServiceExitedError"
exc_type_of cancelled = "CancelledError"
exc_type_of maintenance_active = "MaintenanceActiveError"
exc_type_of (raised exc_type) = exc_type

abbrev pub is_hung : Exit → Bool
is_hung hung = true
is_hung _ = false

abbrev pub is_refusal : Exit → Bool
is_refusal maintenance_active = true
is_refusal _ = false

-- The kinds of a `ServiceAlert`: "crashed", "degraded" and "recovered".
pub data Kind : Type 0 where
  crashed went_degraded recovered : Kind

pub data Reason : Type 0 where
  no_reason crash_loop hangs failure_series hang_not_cancellable : Reason

pub record ServiceAlert : Type 0 where
  pub kind : Kind
  pub state : ServiceState
  pub exc_type : Option String
  pub crashes_total : ℕ
  pub reason : Reason

-- `jitter` is in thousandths.
pub record SupervisionPolicy : Type 0 where
  pub backoff_initial : ℕ
  pub backoff_max : ℕ
  pub backoff_factor : ℕ
  pub jitter : ℕ
  pub crash_window : ℕ
  pub crash_limit : ℕ
  pub degraded_retry : ℕ
  pub stable_after : ℕ
  pub hang_window : ℕ
  pub hang_limit : ℕ
  pub hang_recovery_after : ℕ
  pub failure_limit : ℕ
  pub failure_min_span : ℕ

abbrev pub default_policy : SupervisionPolicy
default_policy = record {
  backoff_initial = 1000;
  backoff_max = 60000;
  backoff_factor = 2;
  jitter = 250;
  crash_window = 300000;
  crash_limit = 5;
  degraded_retry = 300000;
  stable_after = 60000;
  hang_window = 86400000;
  hang_limit = 3;
  hang_recovery_after = 3600000;
  failure_limit = 5;
  failure_min_span = 120000;
}

-- What never changes: the policy, the spec of the service, and whether there is a notifier.
pub record Setup : Type 0 where
  pub policy : SupervisionPolicy
  pub heartbeat_timeout : Option ℕ
  pub failure_limit : Option ℕ
  pub has_notifier : Bool

-- `alerts` are those that the notifier was given, the newest first.
pub record Service : Type 0 where
  pub state : ServiceState
  pub attempt : ℕ
  pub starts : ℕ
  pub crashes_total : ℕ
  pub crashes : List ℕ
  pub hangs : List ℕ
  pub last_exc_type : Option String
  pub last_beat : ℕ
  pub needs_recovery_log : Bool
  pub settled : Bool
  pub fail_streak : ℕ
  pub fail_since : Option ℕ
  pub fail_degraded : Bool
  pub ok_since : Option ℕ
  pub alerts : List ServiceAlert

abbrev pub new_service : ℕ → Service
new_service now = record {
  state = starting;
  attempt = 0;
  starts = 0;
  crashes_total = 0;
  crashes = [];
  hangs = [];
  last_exc_type = none;
  last_beat = now;
  needs_recovery_log = false;
  settled = false;
  fail_streak = 0;
  fail_since = none;
  fail_degraded = false;
  ok_since = none;
  alerts = [];
}

-- `while xs and now - xs[0] > window: xs.popleft()`
unfoldable pub prune_old : ℕ → ℕ → List ℕ → List ℕ
prune_old window now [] = []
prune_old window now (x ∷ xs) =
    let rest = prune_old window now xs in if ltb window (now - x) then rest else x ∷ xs

abbrev pub any_of : List ℕ → Bool
any_of [] = false
any_of (x ∷ xs) = true

-- `value or default`, where zero and none are both taken as absent
abbrev pub nonzero_or : Option ℕ → ℕ → ℕ
nonzero_or none d = d
nonzero_or (some zero) d = d
nonzero_or (some (suc n)) d = suc n
