-- ===== src/ServiceAlerts/Tests.antt =====
-- Alerts of a service through the sink, and the theorems at them.
use justup.Prelude.{ℕ, zero, suc, ◌≡◌, refl, true, false, List, [], ◌∷◌, ◌++◌, ◌==◌, count_if}
use justup.ServiceAlerts.{
  Sink, Event, calls, goes_on, new_sink, run, drain, append, call, make_room, start_task, retry,
  end_write, End, write_failed,
}
use justup.ServiceAlerts.Patient.{Patient}
use justup.ServiceAlerts.Accounts.{has_ended}
use justup.ServiceAlerts.Incidents.{
  Alert, recovered, degraded, crashed, Inbox, Storage, works, refuses, write, empty_inbox,
}

abbrev refusals : ℕ → List Storage
refusals zero = []
refusals (suc n) = refuses ∷ refusals n

-- Two alerts, of which the first was stored.
abbrev two_alerts : List (Event write)
two_alerts = calls (crashed 10 false) ∷ calls (degraded 20) ∷ goes_on works ∷ []

abbrev settled : Sink Alert Inbox
settled = drain write (refusals 3060) (run write two_alerts (new_sink empty_inbox))

-- The first alert fails 29 times and is dropped from the full queue in the wait that follows: the next one
-- is given up after a single write of its own.
failures : ℕ → List (Event write)
failures zero = []
failures (suc zero) = goes_on refuses ∷ []
failures (suc (suc n)) = goes_on refuses ∷ goes_on works ∷ failures (suc n)

more_alerts : ℕ → List (Event write)
more_alerts zero = []
more_alerts (suc n) = calls (degraded 20) ∷ more_alerts n

impatient : List (Event write)
unfolding failures more_alerts
impatient =
    calls (crashed 10 false) ∷ failures 29 ++ more_alerts 50 ++ goes_on works ∷ goes_on refuses ∷ []

abbrev writes_of : ℕ → List End → ℕ
writes_of i log = count_if (λ e. elim e [ write_failed j ↦ j == i | _ ↦ false ]) log

given_up_after_one : has_ended 1 (run write impatient (new_sink empty_inbox)).log ≡ true
unfolding run impatient failures more_alerts call make_room append start_task end_write retry write
given_up_after_one = refl

one_write : writes_of 1 (run write impatient (new_sink empty_inbox)).log ≡ 1
unfolding run impatient failures more_alerts call make_room append start_task end_write retry write
one_write = refl

abbrev writes : List (Storage × Alert)
writes = (works, crashed 10 false) ∷ (refuses, recovered 100) ∷ (works, recovered 101) ∷ []
