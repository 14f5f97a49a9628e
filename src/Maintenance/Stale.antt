-- ===== src/Maintenance/Stale.antt =====
-- Work that was computed before a restore (app/utils/maintenance.py, `expected_generation`).
use justup.Prelude.{ℕ, ◌≤◌, ◌<◌, ◌≡◌, some, arith, if◌then◌else◌}
use justup.Maintenance.{
  Gate, ok, err, maintenance_active, stale_work, enter, leave, begin, poll, confirm, end,
}
use justup.Maintenance.Threads.{
  World, Step, enters, leaves, begins, drains, times_out, confirms, ends, holding, Reach, here,
  next,
}

Step-generation-le : {w u : World} → Step w u → w.gate.generation ≤ u.gate.generation
unfolding enter leave begin poll confirm end
Step-generation-le (enters e g p q) = ground arith
Step-generation-le (leaves xs y ys p q) = ground arith
Step-generation-le (begins g p q) = ground arith
Step-generation-le (drains e k p q) = ground arith
Step-generation-le (times_out e g k p q) = ground arith
Step-generation-le (confirms g k p q) = ground arith
Step-generation-le (ends k q) = ground arith

pub Reach-generation-le : {w u : World} → Reach w u → w.gate.generation ≤ u.gate.generation
Reach-generation-le here = omega arith
Reach-generation-le (next r st) = omega (arith, Reach-generation-le r, Step-generation-le st)

enter_older :
    (g : ℕ) (t : Gate)
    → g < t.generation
    → enter (some g) t ≡ err (if t.active then maintenance_active else stale_work)
unfolding enter
enter_older g t h = ground arith

-- A work section that expects the generation read at `w` is refused at every later moment `v` at
-- which a restore has been confirmed in between: as maintenance while a window is open, and as
-- stale work at any time after it.
pub stale_work_refused :
    {w t v : World} (g : Gate)
    → Reach w t
    → t.phase ≡ holding
    → confirm t.gate ≡ ok g
    → Reach (record t { gate = g }) v
    → enter (some w.gate.generation) v.gate
      ≡ err (if v.gate.active then maintenance_active else stale_work)
unfolding confirm
stale_work_refused {w} {t} {v} g r h c r' =
    enter_older w.gate.generation v.gate
      (ground (arith, Reach-generation-le r, Reach-generation-le r'))
