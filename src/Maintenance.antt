-- ===== src/Maintenance.antt =====
-- The process-wide maintenance gate, app/utils/maintenance.py. Each function is what the code does
-- while it holds `_COND`; `begin_maintenance` gives the lock up while it waits, so it is two
-- functions, the entry and one turn of its loop.
pub mod Threads
pub mod Safety
pub mod Stale
mod Tests
use justup.Prelude.{
  ℕ, ◌+◌, ◌-◌, Bool, true, false, not, ◌&&◌, Option, none, some, ◌==◌, if◌then◌else◌, ltb,
}

-- `_ACTIVE`, `_INFLIGHT` and `_GENERATION`.
pub record Gate : Type 0 where
  pub active : Bool
  pub inflight : ℕ
  pub generation : ℕ

-- `MaintenanceActiveError`, `StaleWorkError`, and the `RuntimeError` of `confirm_data_replaced`.
pub data Refusal : Type 0 where
  maintenance_active stale_work no_window : Refusal

pub data Result {ℓ} (A : Type ℓ) : Type ℓ where
  ok : A → Result A
  err : Refusal → Result A

-- `expected_generation is not None and expected_generation != _GENERATION`
pub is_stale : Option ℕ → ℕ → Bool
is_stale none current = false
is_stale (some expected) current = not (expected == current)

-- The entry of `work_section`.
pub enter : Option ℕ → Gate → Result Gate
unfolding is_stale
enter expected g =
    if g.active
    then err maintenance_active
    else if is_stale expected g.generation
    then err stale_work
    else ok (record g { inflight = g.inflight + 1 })

-- The `finally` of `work_section`. It runs once for each entry, so the count is above zero.
pub leave : Gate → Gate
leave g = record g { inflight = g.inflight - 1 }

-- `begin_maintenance` up to its loop: `none` is the early `return False`.
pub begin : Gate → Option Gate
begin g = if g.active then none else some (record g { active = true })

pub data Poll : Type 0 where
  drained : Poll
  gave_up waits : Gate → Poll

-- One turn of the loop of `begin_maintenance`; `expired` says that the deadline has passed.
pub poll : Bool → Gate → Poll
poll expired g =
    if ltb 0 g.inflight
    then (if expired then gave_up (record g { active = false }) else waits g)
    else drained

-- `confirm_data_replaced`
pub confirm : Gate → Result Gate
confirm g = if g.active then ok (record g { generation = g.generation + 1 }) else err no_window

-- `end_maintenance`
pub end : Gate → Gate
end g = record g { active = false }
