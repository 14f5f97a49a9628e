-- ===== src/ServiceAlerts/Accounts.antt =====
-- What becomes of each alert that is handed to the sink (app/services/service_alerts.py).
use justup.Prelude.{ℕ, ◌<◌, ◌≡◌, refl, Bool, true, false, ◌||◌, List, [], ◌∷◌, ◌==◌}
use justup.ServiceAlerts.{End, write_failed, write_stored, gave_up, Queued, Sink, retry}
use justup.ServiceAlerts.Patient.{Patient}

abbrev pub has_id : ℕ → List ℕ → Bool
has_id i [] = false
has_id i (j ∷ js) = j == i || has_id i js

-- The alert was stored or given up.
abbrev pub is_ended_by : ℕ → End → Bool
is_ended_by i (write_failed j) = false
is_ended_by i (write_stored j) = j == i
is_ended_by i (gave_up j) = j == i

abbrev pub has_ended : ℕ → List End → Bool
has_ended i [] = false
has_ended i (e ∷ log) = is_ended_by i e || has_ended i log

abbrev pub is_queued : {A : Type 0} → ℕ → List (Queued A) → Bool
is_queued i [] = false
is_queued i (q ∷ qs) = q.id == i || is_queued i qs

module _ {A D : Type 0} where
  -- An alert is in the queue, or was stored, given up, or dropped to make room.
  abbrev pub is_known : ℕ → Sink A D → Bool
  is_known i s = is_queued i s.pending || (has_ended i s.log || has_id i s.dropped)

  abbrev IsAccounted : Sink A D → Type 0
  IsAccounted s = (i : ℕ) → i < s.next_id → is_known i s ≡ true

  retry_known : (i : ℕ) (s : Sink A D) → is_known i (retry s) ≡ is_known i s
  unfolding retry
  retry_known i s = refl

abbrev pub is_settled : {A D : Type 0} → ℕ → Sink A D → Bool
is_settled i s = has_ended i s.log || has_id i s.dropped
