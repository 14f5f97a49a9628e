-- ===== src/Spooler/Lifecycle.antt =====
-- Runs of the notification queue: any operations of app/services/notifications/spooler.py, one
-- after another, from an empty database on.
use justup.Prelude.{ℕ, ◌≡◌, refl, Bool, false, Option, none, some, List, [], ◌∷◌, arith}
use justup.Spooler.{
  Row, State, Message, enqueue, mark_sent, mark_retry, mark_failed_permanent, renew_lease, release,
  expire_stale, finalize_retried_tests, record_attempt, set_cooldown, is_open, find,
}
use justup.Spooler.Claim.{get_pending_items}
use justup.Spooler.Claim.Recovery.{get_pending_items-Step}
use justup.Spooler.Send.{DeliveryResult, apply_result}
use justup.Spooler.Worker.{Turn, process_items, begin_run}
use justup.Spooler.Worker.Sends.{process_items-Step}
use justup.Spooler.Send.Outage.{apply_result-Step}
use justup.Spooler.Ledger.{Step, Sound, Step-refl, Step-trans, side-Step}
use justup.Spooler.Outcomes.{
  mark_sent-Step, mark_retry-Step, mark_failed_permanent-Step, renew_lease-Step, release-Step,
}
use justup.Spooler.Cleanup.{expire_stale-Step, finalize_retried_tests-Step}
use justup.Spooler.Admission.{enqueue-Step}

-- One transaction of a caller or a worker.
pub data Op : Type 0 where
  enqueues : ℕ → ℕ → Message → Op
  claims : ℕ → ℕ → Op
  finishes : ℕ → ℕ → Row → DeliveryResult → Op
  works : List (Row × Turn) → Op
  is_sent : ℕ → ℕ → Op
  retries : ℕ → ℕ → ℕ → List ℕ → Option ℕ → Bool → Bool → Op
  fails : ℕ → ℕ → List ℕ → Op
  renews : ℕ → ℕ → ℕ → Op
  releases : ℕ → ℕ → Op
  starts : ℕ → Op
  expires : ℕ → Op
  attempts : ℕ → List ℕ → Op
  cools : ℕ → List ℕ → ℕ → List ℕ → Op

pub step : Op → State → State
unfolding enqueue record_attempt set_cooldown
step (enqueues now drawn m) st = (enqueue now drawn m st).1
step (claims limit now) st = (get_pending_items limit now st).1
step (finishes now drawn r result) st = apply_result now drawn r result st
step (works items) st = (process_items items (begin_run st)).state
step (is_sent now id) st = mark_sent now id st
step (retries now drawn id error delay uncertain passing) st =
    (mark_retry now drawn id error delay uncertain passing st).1
step (fails now id error) st = mark_failed_permanent now id error st
step (renews now id held_stamp) st = (renew_lease now id held_stamp st).1
step (releases now id) st = (release now id st).1
step (starts now) st = finalize_retried_tests now st
step (expires now) st = (expire_stale now st).1
step (attempts now key) st = record_attempt now key st
step (cools now key seconds reason) st = set_cooldown now key seconds reason st

unfoldable pub run : List Op → State → State
unfolding step
run [] st = st
run (op ∷ ops) st = run ops (step op st)

-- A new database.
abbrev pub empty : State
empty = record { rows = []; next_id = 1; channels = []; series = none; events = [] }

step-Step : (op : Op) (st : State) → Step st (step op st)
unfolding step record_attempt set_cooldown
step-Step (enqueues now drawn m) st = enqueue-Step now drawn m st
step-Step (claims limit now) st = get_pending_items-Step limit now st
step-Step (finishes now drawn r result) st = apply_result-Step now drawn r result st
step-Step (works items) st = process_items-Step items (begin_run st)
step-Step (is_sent now id) st = mark_sent-Step now id st
step-Step (retries now drawn id error delay uncertain passing) st =
    mark_retry-Step now drawn id error delay uncertain passing st
step-Step (fails now id error) st = mark_failed_permanent-Step now id error st
step-Step (renews now id held_stamp) st = renew_lease-Step now id held_stamp st
step-Step (releases now id) st = release-Step now id st
step-Step (starts now) st = finalize_retried_tests-Step now st
step-Step (expires now) st = expire_stale-Step now st
step-Step (attempts now key) st = side-Step st (record_attempt now key st) refl refl refl
step-Step (cools now key seconds reason) st =
    side-Step st (set_cooldown now key seconds reason st) refl refl refl

pub run-Step : (ops : List Op) (st : State) → Step st (run ops st)
unfolding run
run-Step [] st = Step-refl st
run-Step (op ∷ ops) st = Step-trans (step-Step op st) (run-Step ops (step op st))

-- After any operations of `Op` on a new database: no two rows have the same id, and ids are below the
-- next one; for each channel the inbox has heard of exactly as many hand-offs as rows were sent on
-- it; for each id it has heard of a failure at most once, and only where the row has failed; it has
-- heard of the failure of each failed message that is no test; and no row that still waits has spent
-- more than the five attempts of its budget.
pub queue-Sound : (ops : List Op) → Sound (run ops empty)
queue-Sound ops = (run-Step ops empty).sound (record {
  unique = λ i. omega arith;
  older = tt;
  sent_told = λ c. refl;
  told_failed = λ i. omega arith;
  failed_told = λ i. omega arith;
  budget = tt;
})

-- A row that was sent or has failed stays exactly as it is, whatever operations of `Op` follow: no
-- late retry, claim, release, lease or expiry brings it back.
pub final_rows_stay :
    (ops : List Op) (st : State) (id : ℕ) {r : Row}
    → find id st.rows ≡ some r
    → is_open r.status ≡ false
    → find id (run ops st).rows ≡ some r
final_rows_stay ops st id found final = (run-Step ops st).frozen id found final
