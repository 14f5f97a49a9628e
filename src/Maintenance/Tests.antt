-- ===== src/Maintenance/Tests.antt =====
-- Runs of the maintenance gate, and the theorems at concrete worlds (app/utils/maintenance.py).
use justup.Prelude.{ℕ, ◌≡◌, refl, Bool, true, false, none, some, [], ◌∷◌}
use justup.Maintenance.{
  Gate, err, maintenance_active, stale_work, enter, leave, begin, poll, confirm, end,
}
use justup.Maintenance.Threads.{
  World, idle, draining, holding, enters, leaves, begins, drains, ends, Reach, here, next, fresh,
}
use justup.Maintenance.Safety.{IsSafe, Reach-IsSafe, draining_reaches_holding}
use justup.Maintenance.Stale.{stale_work_refused}

program : Unit {0}
unfolding enter leave begin poll confirm end
program = tt

abbrev gate : Bool → ℕ → ℕ → Gate
gate active inflight generation = record {
  active = active;
  inflight = inflight;
  generation = generation;
}

abbrev working : World
working = record { gate = gate false 1 0; sections = 0 ∷ []; phase = idle }

abbrev waiting : World
waiting = record { gate = gate true 1 0; sections = 0 ∷ []; phase = draining }

abbrev drained_world : World
drained_world = record { gate = gate true 0 0; sections = []; phase = draining }

abbrev held : World
held = record { gate = gate true 0 0; sections = []; phase = holding }

abbrev restored : World
restored = record { gate = gate false 0 1; sections = []; phase = idle }

waiting-Reach : Reach fresh waiting
unfolding program
waiting-Reach =
    next (next here (enters none (gate false 1 0) refl refl)) (begins (gate true 1 0) refl refl)

held-Reach : Reach fresh held
unfolding program
held-Reach = next (next waiting-Reach (leaves [] 0 [] refl refl)) (drains false refl refl refl)

refused_while_held : enter none held.gate ≡ err maintenance_active
unfolding program
refused_while_held = refl

Reach-IsSafe_example : IsSafe held
Reach-IsSafe_example = Reach-IsSafe held-Reach

draining_reaches_holding_example :
    (u : World) × Reach waiting u
    × (u.phase ≡ holding)
    × (u.sections ≡ [])
    × (u.gate.generation ≡ 0)
draining_reaches_holding_example =
    draining_reaches_holding waiting (Reach-IsSafe waiting-Reach) refl

stale_work_refused_example : enter (some 0) restored.gate ≡ err stale_work
unfolding program
stale_work_refused_example =
    stale_work_refused {w = waiting} {t = held} {v = restored} (gate true 0 1)
      (next (next here (leaves [] 0 [] refl refl)) (drains false refl refl refl)) refl refl
      (next here (ends refl refl))
