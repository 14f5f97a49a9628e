-- ===== src/Maintenance/Threads.antt =====
-- The threads that use the gate of app/utils/maintenance.py: any number of work sections, and one
-- caller at a time between `begin_maintenance` and `end_maintenance`.
use justup.Prelude.{ℕ, ◌≡◌, Bool, false, Option, some, List, [], ◌∷◌, ◌++◌}
use justup.Maintenance.{Gate, ok, drained, gave_up, enter, leave, begin, poll, confirm, end}

-- Where the restore stands: not begun, in the loop of `begin_maintenance`, or past its `return True`.
pub data Phase : Type 0 where
  idle draining holding : Phase

-- `sections` holds the generation at which each running work section was entered.
pub record World : Type 0 where
  pub gate : Gate
  pub sections : List ℕ
  pub phase : Phase

-- `begin_maintenance` calls that are refused, and turns that go on waiting, change nothing.
pub data Step (w u : World) : Type 0 where
  enters :
      (expected : Option ℕ) (g : Gate)
      → enter expected w.gate ≡ ok g
      → u ≡ record { gate = g; sections = w.gate.generation ∷ w.sections; phase = w.phase }
      → Step w u
  leaves :
      (before : List ℕ) (at_generation : ℕ) (after : List ℕ)
      → w.sections ≡ before ++ at_generation ∷ after
      → u ≡ record { gate = leave w.gate; sections = before ++ after; phase = w.phase }
      → Step w u
  begins :
      (g : Gate)
      → begin w.gate ≡ some g
      → u ≡ record { gate = g; sections = w.sections; phase = draining }
      → Step w u
  drains :
      (expired : Bool)
      → w.phase ≡ draining
      → poll expired w.gate ≡ drained
      → u ≡ record w { phase = holding }
      → Step w u
  times_out :
      (expired : Bool) (g : Gate)
      → w.phase ≡ draining
      → poll expired w.gate ≡ gave_up g
      → u ≡ record { gate = g; sections = w.sections; phase = idle }
      → Step w u
  confirms :
      (g : Gate)
      → w.phase ≡ holding
      → confirm w.gate ≡ ok g
      → u ≡ record { gate = g; sections = w.sections; phase = holding }
      → Step w u
  ends :
      w.phase ≡ holding
      → u ≡ record { gate = end w.gate; sections = w.sections; phase = idle }
      → Step w u

pub data Reach (w : World) : World → Type 0 where
  here : Reach w w
  next : {t u : World} → Reach w t → Step t u → Reach w u

abbrev pub fresh : World
fresh = record {
  gate = record { active = false; inflight = 0; generation = 0 };
  sections = [];
  phase = idle;
}
