-- ===== src/Maintenance/Safety.antt =====
-- What the maintenance gate guarantees at every moment, in every interleaving of the threads.
use justup.Prelude.{
  ℕ, ◌≢◌, ◌≡◌, refl, Bool, true, false, List, [], ◌∷◌, ◌++◌, arith, length, length-append, All,
  if◌then◌else◌,
}
use justup.Maintenance.{enter, leave, begin, poll, confirm, end}
use justup.Maintenance.Threads.{
  Phase, idle, draining, holding, World, Step, enters, leaves, begins, drains, times_out, confirms,
  ends, Reach, here, next, fresh,
}

abbrev pub is_idle : Phase → Bool
is_idle idle = true
is_idle _ = false

abbrev pub Current : ℕ → List ℕ → Type 0
Current g = All (λ at_generation. at_generation ≡ g)

pub record IsSafe (w : World) : Type 0 where
  pub counted : w.gate.inflight ≡ length w.sections
  pub flagged : is_idle w.phase ≡ (if w.gate.active then false else true)
  pub alone : w.phase ≡ holding → w.sections ≡ []
  pub current : Current w.gate.generation w.sections

Current-split :
    (g : ℕ) (xs : List ℕ) (y : ℕ) (ys : List ℕ) → Current g (xs ++ y ∷ ys) → Current g (xs ++ ys)
Current-split g [] y ys h = h.1
Current-split g (x ∷ xs) y ys h = (h.0, Current-split g xs y ys h.1)

pub Step-IsSafe : {w u : World} → Step w u → IsSafe w → IsSafe u
unfolding enter leave begin poll confirm end
Step-IsSafe {w} {u} (enters e g p q) s = ground arith
Step-IsSafe {w} {u} (leaves xs y ys p q) s =
    ground (
      arith,
      length-append xs (y ∷ ys),
      length-append xs ys,
      Current-split w.gate.generation xs y ys,
    )
Step-IsSafe {w} {u} (begins g p q) s = ground arith
Step-IsSafe {w} {u} (drains e h p q) s = ground arith
Step-IsSafe {w} {u} (times_out e g h p q) s = ground arith
Step-IsSafe {w} {u} (confirms g h p q) s = ground arith
Step-IsSafe {w} {u} (ends h q) s = ground arith

-- In every world that the threads can reach, the in-flight count is the number of running sections,
-- the flag is raised exactly from the start of a maintenance window to its end, no section runs
-- while a window is held, and every running section entered at the current data generation.
pub Reach-IsSafe : {w : World} → Reach fresh w → IsSafe w
Reach-IsSafe here = ground arith
Reach-IsSafe (next r st) = Step-IsSafe st (Reach-IsSafe r)

-- While a work section runs, no step of any thread advances the data generation.
pub sections_keep_generation :
    {w u : World} → IsSafe w → Step w u → w.sections ≢ [] → u.gate.generation ≡ w.gate.generation
unfolding enter leave begin poll confirm end
sections_keep_generation s (enters e g p q) h = ground arith
sections_keep_generation s (leaves xs y ys p q) h = ground arith
sections_keep_generation s (begins g p q) h = ground arith
sections_keep_generation s (drains e k p q) h = ground arith
sections_keep_generation s (times_out e g k p q) h = ground arith
sections_keep_generation s (confirms g k p q) h = ground arith
sections_keep_generation s (ends k q) h = ground arith

Reach-trans : {w t u : World} → Reach w t → Reach t u → Reach w u
Reach-trans r here = r
Reach-trans r (next q st) = next (Reach-trans r q) st

abbrev left : World → List ℕ → World
left w rest = record w { gate = leave w.gate; sections = rest }

drain-to_holding :
    (xs : List ℕ) (w : World)
    → IsSafe w
    → w.sections ≡ xs
    → w.phase ≡ draining
    → (u : World) × Reach w u
      × (u.phase ≡ holding)
      × (u.sections ≡ [])
      × (u.gate.generation ≡ w.gate.generation)
unfolding poll leave
drain-to_holding [] w s e h =
    (record w { phase = holding }, next here (drains true h (ground arith) refl), refl, e, refl)
drain-to_holding (x ∷ xs) w s e h =
    let st : Step w (left w xs) = leaves [] x xs e refl in
    let (u, r, p, q, k) = drain-to_holding xs (left w xs) (Step-IsSafe st s) refl h in
    (u, Reach-trans (next here st) r, p, q, k)

-- A restore that waits in `begin_maintenance` is not stuck: from any safe world in which one waits,
-- the running sections can leave, and then the wait ends with the window held, no section running
-- and the data generation as it was.
pub draining_reaches_holding :
    (w : World)
    → IsSafe w
    → w.phase ≡ draining
    → (u : World) × Reach w u
      × (u.phase ≡ holding)
      × (u.sections ≡ [])
      × (u.gate.generation ≡ w.gate.generation)
draining_reaches_holding w s h = drain-to_holding w.sections w s refl h
