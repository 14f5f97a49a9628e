-- ===== src/ServiceAlerts/Patient.antt =====
-- When the sink gives an alert up (app/services/service_alerts.py, `_drain`).
use justup.Prelude.{
  ℕ, suc, ◌+◌, ◌≤◌, ◌≡◌, refl, Option, none, some, List, [], ◌∷◌, leb, arith, Bool-cases, inl, inr,
}
use justup.ServiceAlerts.{
  End, write_failed, write_stored, gave_up, Queued, Phase, idle, sleeping, writing, Sink, make_room,
  append, start_task, call, settle, fail, end_write, retry, go_on, drain, Event, calls, goes_on,
  step, run,
}

-- How many writes in a row have failed.
abbrev pub streak : List End → ℕ
streak [] = 0
streak (write_failed i ∷ log) = suc (streak log)
streak (write_stored i ∷ log) = 0
streak (gave_up i ∷ log) = 0

abbrev pub LastFailed : ℕ → List End → Type 0
LastFailed i [] = ⊥
LastFailed i (write_failed j ∷ log) = j ≡ i
LastFailed i (write_stored j ∷ log) = ⊥
LastFailed i (gave_up j ∷ log) = ⊥

abbrev pub Patient : List End → Type 0
Patient [] = Unit
Patient (write_failed i ∷ log) = Patient log
Patient (write_stored i ∷ log) = Patient log
Patient (gave_up i ∷ log) = LastFailed i log × (30 ≤ streak log) × Patient log

module _ {A D : Type 0} where
  abbrev pub IsPatient : Sink A D → Type 0
  IsPatient s = (s.attempts ≤ streak s.log) × Patient s.log

  end_write-IsPatient :
      (q : Queued A) (o : Option D) (s : Sink A D) → IsPatient s → IsPatient (end_write q o s)
  unfolding end_write fail settle
  end_write-IsPatient q (some db) s h = (omega arith, h.1)
  end_write-IsPatient q none s h = elim (Bool-cases (leb 30 (s.attempts + 1))) [
    | inl e ↦ rw e (omega arith, (refl, ground (arith, e, h.0), h.1))
    | inr e ↦ rw e (omega (arith, h.0), h.1)
  ]

  call_log :
      (alert : A) (s : Sink A D)
      → ((call alert s).log ≡ s.log) × ((call alert s).attempts ≤ s.attempts)
  unfolding call make_room append start_task
  call_log alert s = (ground arith, ground arith)

  call-IsPatient : (alert : A) (s : Sink A D) → IsPatient s → IsPatient (call alert s)
  call-IsPatient alert s h =
      let (same, fewer) = call_log alert s in rw same (omega (arith, h.0, fewer), h.1)

  retry-IsPatient : (s : Sink A D) → IsPatient s → IsPatient (retry s)
  unfolding retry
  retry-IsPatient s h = h

module _ {A D O : Type 0} (write : O → A → D → Option D) where
  go_on-IsPatient :
      (phase : Phase A) (o : O) (s : Sink A D) → IsPatient s → IsPatient (go_on write phase o s)
  unfolding go_on
  go_on-IsPatient idle o s h = h
  go_on-IsPatient sleeping o s h = retry-IsPatient s h
  go_on-IsPatient (writing q) o s h = end_write-IsPatient q (write o q.alert s.db) s h

  pub run-Patient :
      (es : List (Event write)) (s : Sink A D) → IsPatient s → IsPatient (run write es s)
  unfolding run step
  run-Patient [] s h = h
  run-Patient (calls alert ∷ es) s h = run-Patient es (call alert s) (call-IsPatient alert s h)
  run-Patient (goes_on o ∷ es) s h =
      run-Patient es (go_on write s.phase o s) (go_on-IsPatient s.phase o s h)

  pub drain-Patient : (os : List O) (s : Sink A D) → IsPatient s → IsPatient (drain write os s)
  unfolding drain
  drain-Patient [] s h = h
  drain-Patient (o ∷ os) s h =
      drain-Patient os (go_on write s.phase o s) (go_on-IsPatient s.phase o s h)
