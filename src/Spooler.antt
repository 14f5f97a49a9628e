-- ===== src/Spooler.antt =====
-- The persistent notification queue of app/services/notifications/spooler.py: the rows, the state of
-- the send paths, and the inbox events that final delivery states are told by. Each method is one
-- immediate transaction, so a state goes in and a state comes out.
mod Rows
mod Inbox
mod Channels
mod Enqueue
pub mod Ledger
pub mod Outcomes
pub mod Pacing
pub mod Claim
pub mod Send
pub mod Worker
pub mod Lifecycle
pub mod Admission
pub mod Repeats
mod Cleanup
mod Tests
pub use Rows.{
  NotificationType, welcome, alert, test, QueueStatus, pending, processing, sent, failed, Payload,
  Row, is_open, is_processing, is_pending, is_test, Reason, expired, rejected, exhausted, Event,
  delivery_sent, handoff_recovered, delivery_failed, handoff_failed,
}
pub use Inbox.{
  second, or_empty, ResultKind, accepted, transient, rate_limited, retry, permanent, deferred,
  Series, ChannelState, State, is_email,
}
unfoldable pub use Inbox.{record_delivery, settle, open_row, tell_sent, tell_failed}
pub use Enqueue.{
  Message, is_alert, same_channel, same_id, same_word, stored_event, given_event, same_alert,
  same_test, is_signal_test, if_named, over_limit, new_row, signal_test_pending_limit,
}
unfoldable pub use Enqueue.{latest_id, insert, known_alert, enqueue_new, enqueue}
unfoldable pub use Channels.{
  find_channel, upsert, policy_of_key, is_cooling, spacing_left, is_blocked_row, blocked_keys,
  pacing_wait, wait_of, record_attempt, attempted, cooled, set_cooldown,
}
unfoldable pub use Rows.{find, modify, truncated}
use justup.Prelude.{
  ℕ, ◌+◌, ◌-◌, ◌*◌, String, Bool, true, false, not, ◌||◌, ◌&&◌, Option, none, some, List, [], ◌∷◌,
  ◌++◌, ◌==◌, leb, ltb, take, max, filter_if, length, map, if◌then◌else◌,
}
use justup.Text.{codes, starts_with}
use justup.DeliveryPolicy.{
  Channel, email, signal, backoff_delay, max_retries, message_validity_seconds,
}

pub mark_sent : ℕ → ℕ → State → State
unfolding open_row settle
mark_sent now id st = elim (open_row id st.rows) [
  | none ↦ st
  | some r ↦ settle true id (λ x. record x { status = sent; updated_at = now }) st
]

-- `held_stamp` is the claim that the worker holds; the new stamp is `now`.
pub renew_lease : ℕ → ℕ → ℕ → State → Option ℕ × State
renew_lease now id held_stamp st = elim (find id st.rows) [
  | none ↦ (none, st)
  | some r ↦
      if is_processing r.status && r.updated_at == held_stamp
      then (some now, record st { rows = modify id (λ x. record x { updated_at = now }) st.rows })
      else (none, st)
]

pub release : ℕ → ℕ → State → Bool × State
release now id st = elim (find id st.rows) [
  | none ↦ (false, st)
  | some r ↦
      if is_processing r.status
      then (
        true,
        record st {
          rows = modify id (λ x. record x { status = pending; updated_at = now }) st.rows;
        },
      )
      else (false, st)
]

uncertain_marker : List ℕ
uncertain_marker = codes "[UNCERTAIN]"

-- f"{UNCERTAIN_MARKER} {error}"
marked : Bool → List ℕ → List ℕ
unfolding uncertain_marker
marked uncertain error = if uncertain then uncertain_marker ++ codes " " ++ error else error

-- `_expired_error`
expired_error : Option (List ℕ) → List ℕ
expired_error none = codes "[EXPIRED] not delivered within 24 h"
expired_error (some []) = codes "[EXPIRED] not delivered within 24 h"
expired_error (some (c ∷ error)) =
    codes "[EXPIRED] not delivered within 24 h" ++ codes "; last error: " ++ c ∷ error

-- Whether the message is older than its validity.
abbrev pub is_expired : ℕ → Row → Bool
is_expired now r = leb (message_validity_seconds * second) (now - r.created_at)

-- UPDATE ... SET retry_count = retry_count + 1, limited_attempts = limited_attempts + ?
abbrev pub counted : Bool → Row → Row
counted passing r = record r {
  retry_count = r.retry_count + 1;
  limited_attempts = r.limited_attempts + (if passing then 0 else 1);
}

-- The delay, where an override of 0 counts as none; `drawn` is the random number of the jitter in
-- units of 1 / 250000, so a delay is in microseconds.
retry_delay : ℕ → Option ℕ → ℕ → ℕ
retry_delay drawn none attempt = backoff_delay 250000 drawn attempt
retry_delay drawn (some seconds) attempt =
    if ltb 0 seconds then seconds * second else backoff_delay 250000 drawn attempt

abbrev pub rescheduled : ℕ → ℕ → List ℕ → Row → Row
rescheduled now at error x = record x {
  status = pending;
  next_retry_at = at;
  last_error = some error;
  updated_at = now;
}

abbrev pub failed_with : ℕ → List ℕ → Row → Row
failed_with now error x = record x { status = failed; last_error = some error; updated_at = now }

-- `mark_retry` past the increment, on the row `r` that it has read back.
retry_counted : ℕ → ℕ → ℕ → List ℕ → Option ℕ → Bool → Row → State → Bool × State
unfolding settle expired_error retry_delay
retry_counted now drawn id error delay passing r st =
    if is_expired now r
    then (
      false,
      settle false id
          (λ x. failed_with now (take 500 (expired_error (some error))) (counted passing x)) st,
    )
    else if ltb max_retries r.limited_attempts
    then (false, settle false id (λ x. failed_with now (take 500 error) (counted passing x)) st)
    else let attempt = (if passing then r.retry_count else r.limited_attempts) - 1 in
      let at = now + retry_delay drawn delay attempt in
      (
        true,
        record st { rows = modify id (λ x. rescheduled now at error (counted passing x)) st.rows },
      )

pub mark_retry : ℕ → ℕ → ℕ → List ℕ → Option ℕ → Bool → Bool → State → Bool × State
unfolding open_row marked truncated retry_counted
mark_retry now drawn id error delay uncertain passing st = elim (open_row id st.rows) [
  | none ↦ (false, st)
  | some r ↦
      retry_counted now drawn id (truncated (marked uncertain error)) delay passing
        (counted passing r) st
]

pub mark_failed_permanent : ℕ → ℕ → List ℕ → State → State
unfolding open_row truncated settle
mark_failed_permanent now id error st = elim (open_row id st.rows) [
  | none ↦ st
  | some r ↦ settle false id (failed_with now (codes "[PERMANENT] " ++ truncated error)) st
]

-- The rows that `_expire_stale` selects.
stale_row : ℕ → Row → Bool
stale_row now r = is_pending r.status && ltb (r.created_at + message_validity_seconds * second) now

-- The body of the loop of `_expire_stale`, for a row that it has selected.
expire_one : ℕ → Row → State → State
unfolding settle expired_error
expire_one now r st = elim (find r.id st.rows) [
  | none ↦ st
  | some x ↦
      if is_pending x.status
      then settle false r.id (failed_with now (take 500 (expired_error r.last_error))) st
      else st
]

expire_all : ℕ → List Row → State → State
unfolding expire_one
expire_all now [] st = st
expire_all now (r ∷ rows) st = expire_all now rows (expire_one now r st)

-- `_expire_stale`, with the number of rows.
pub expire_stale : ℕ → State → ℕ × State
unfolding expire_all stale_row
expire_stale now st =
    let rows = filter_if (stale_row now) st.rows in (length rows, expire_all now rows st)

finalized_test : ℕ → Row → Row
finalized_test now r =
    if is_test r.type && is_pending r.status && ltb 0 r.retry_count
    then failed_with now
        (or_empty r.last_error ++ codes " [PERMANENT] test message is never retried") r
    else r

-- `_finalize_retried_tests`
pub finalize_retried_tests : ℕ → State → State
unfolding finalized_test
finalize_retried_tests now st = record st { rows = map (finalized_test now) st.rows }
