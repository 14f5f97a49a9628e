-- ===== src/Spooler/Send/Outage.antt =====
-- Writing an outcome keeps the ledger, and an outage costs a message nothing of its budget
-- (app/services/notifications/spooler.py).
use justup.Prelude.{
  ℕ, ◌+◌, ◌-◌, ◌*◌, ◌≤◌, ◌<◌, ◌≡◌, refl, ◌∙◌, Bool, true, false, none, some, List, ltb,
  if◌then◌else◌, arith, Bool-cases, Option-cases, inl, inr,
}
use justup.DeliveryPolicy.{max_retries, backoff_delay}
use justup.DeliveryPolicy.Backoff.{backoff_delay_bounds}
use justup.Spooler.{
  Row, State, ResultKind, accepted, transient, rate_limited, retry, permanent, deferred, is_open,
  is_test, find, mark_retry, set_cooldown, marked, is_email, is_pending, is_expired, open_row,
  counted, retry_counted, rescheduled, second, retry_delay, truncated,
}
use justup.Spooler.Rows.{find-modify}
use justup.Spooler.Ledger.{Step, Step-refl, Step-trans, side-Step}
use justup.Spooler.Outcomes.{
  mark_sent-Step, mark_retry-Step, mark_failed_permanent-Step, release-Step,
}
use justup.Spooler.Send.{
  DeliveryResult, apply_result, by_kind, retry_result, cool_down, remember_failure_kind, is_passing,
  item_key,
}

cool_down-Step :
    (now : ℕ) (r : Row) (result : DeliveryResult) (st : State) → Step st (cool_down now r result st)
unfolding cool_down set_cooldown
cool_down-Step now r result st = elim (Option-cases result.cooldown_seconds) [
  | inl e ↦ rw (cool_down, e) (Step-refl st)
  | inr (seconds, e) ↦ elim (Bool-cases (ltb 0 seconds)) [
    | inl q ↦
        rw (cool_down, e, q)
          (side-Step st (set_cooldown now (item_key r) seconds result.error st) refl refl refl)
    | inr q ↦ rw (cool_down, e, q) (Step-refl st)
  ]
]

told-Step :
    (now : ℕ) (mail : Bool) (kind : ResultKind) (st : State)
    → Step st (if mail then remember_failure_kind now kind st else st)
unfolding remember_failure_kind
told-Step now true kind st = side-Step st (remember_failure_kind now kind st) refl refl refl
told-Step now false kind st = Step-refl st

retry_result-Step :
    (now drawn : ℕ) (r : Row) (result : DeliveryResult) (st : State)
    → Step st (retry_result now drawn r result st)
unfolding retry_result
retry_result-Step now drawn r result st = elim (Bool-cases (is_test r.type)) [
  | inl e ↦
      rw (retry_result, e)
        (mark_failed_permanent-Step now r.id (marked result.uncertain result.error) st)
  | inr e ↦
      let told = if is_email r.channel then remember_failure_kind now result.kind st else st in
      rw (retry_result, e)
        (Step-trans (told-Step now (is_email r.channel) result.kind st) (
          mark_retry-Step now drawn r.id result.error result.delay_seconds result.uncertain
            (is_passing result.kind) told))
]

by_kind-Step :
    (now drawn : ℕ) (r : Row) (result : DeliveryResult) (kind : ResultKind) (st : State)
    → Step st (by_kind now drawn r (record result { kind = kind }) st)
unfolding by_kind
by_kind-Step now drawn r result accepted st = mark_sent-Step now r.id st
by_kind-Step now drawn r result permanent st = mark_failed_permanent-Step now r.id result.error st
by_kind-Step now drawn r result deferred st = release-Step now r.id st
by_kind-Step now drawn r result transient st =
    retry_result-Step now drawn r (record result { kind = transient }) st
by_kind-Step now drawn r result rate_limited st =
    retry_result-Step now drawn r (record result { kind = rate_limited }) st
by_kind-Step now drawn r result retry st =
    retry_result-Step now drawn r (record result { kind = retry }) st

pub apply_result-Step :
    (now drawn : ℕ) (r : Row) (result : DeliveryResult) (st : State)
    → Step st (apply_result now drawn r result st)
unfolding apply_result
apply_result-Step now drawn r result st =
    Step-trans (cool_down-Step now r result st)
      (by_kind-Step now drawn r result result.kind (cool_down now r result st))

-- The row after an attempt that failed for no fault of the message.
abbrev rescheduled_counted : ℕ → ℕ → List ℕ → Row → Row
rescheduled_counted now at text x = rescheduled now at text (counted true x)

pub record Waits (now : ℕ) (before after : Row) : Type 0 where
  pub status : is_pending after.status ≡ true
  pub budget : after.limited_attempts ≡ before.limited_attempts
  pub attempts : after.retry_count ≡ before.retry_count + 1
  pub later : now + 60 * second ≤ after.next_retry_at

abbrev pub transient_result : List ℕ → Bool → DeliveryResult
transient_result error uncertain = record {
  kind = transient;
  error = error;
  delay_seconds = none;
  uncertain = uncertain;
  cooldown_seconds = none;
}

mark_retry-Waits :
    (now drawn : ℕ) (r : Row) (error : List ℕ) (uncertain : Bool) (st : State)
    → find r.id st.rows ≡ some r
    → is_open r.status ≡ true
    → is_expired now r ≡ false
    → r.limited_attempts ≤ max_retries
    → drawn < 250000
    → (x : Row) × (find r.id (mark_retry now drawn r.id error none uncertain true st).1.rows
        ≡ some x)
      × Waits now r x
unfolding mark_retry open_row retry_counted retry_delay
mark_retry-Waits now drawn r error uncertain st found opens fresh budget lot =
    let within : ltb max_retries (r.limited_attempts + 0) ≡ false = ground arith in
    let text = truncated (marked uncertain error) in
    let at = now + backoff_delay 250000 drawn (r.retry_count + 1 - 1) in
    let enough = backoff_delay_bounds 250000 drawn (r.retry_count + 1 - 1) lot in
    let f = rescheduled_counted now at text in
    (
      f r,
      rw (mark_retry, open_row, found, opens, retry_counted, fresh, within)
          (find-modify r.id r.id f st.rows (λ y. refl) ∙ rw found (ground arith)),
      record {
        status = refl;
        budget = omega arith;
        attempts = refl;
        later = omega (arith, enough);
      },
    )

-- An outage spends none of a message's budget: after a failure that is classed as transient, with no delay given, a
-- message that is open, no test, within its validity and its budget, waits in the queue again, with
-- one more attempt counted, the same budget spent, and at least a minute until the next attempt.
pub outage_spends_nothing :
    (now drawn : ℕ) (r : Row) (error : List ℕ) (uncertain : Bool) (st : State)
    → find r.id st.rows ≡ some r
    → is_open r.status ≡ true
    → is_test r.type ≡ false
    → is_expired now r ≡ false
    → r.limited_attempts ≤ max_retries
    → drawn < 250000
    → (x : Row) × (find r.id (apply_result now drawn r (transient_result error uncertain) st).rows
        ≡ some x)
      × Waits now r x
unfolding apply_result cool_down by_kind retry_result remember_failure_kind
outage_spends_nothing now drawn r error uncertain st found opens real fresh budget lot =
    elim (Bool-cases (is_email r.channel)) [
      | inl e ↦
          rw (retry_result, real, e)
            (mark_retry-Waits now drawn r error uncertain (remember_failure_kind now transient st)
              found opens fresh budget lot)
      | inr e ↦
          rw (retry_result, real, e)
            (mark_retry-Waits now drawn r error uncertain st found opens fresh budget lot)
    ]
