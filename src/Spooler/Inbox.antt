-- ===== src/Spooler/Inbox.antt =====
-- The tables of the notification queue and what a final delivery state tells the inbox
-- (app/services/notifications/spooler.py).
use justup.Prelude.{
  ℕ, Bool, true, false, not, ◌||◌, ◌&&◌, Option, none, some, List, [], ◌∷◌, ◌==◌, leb,
  if◌then◌else◌,
}
use justup.Text.{codes, starts_with}
use justup.DeliveryPolicy.{Channel, email, signal}
use justup.Spooler.Rows.{
  Row, is_open, is_test, find, modify, Reason, expired, rejected, exhausted, Event, delivery_sent,
  handoff_recovered, delivery_failed, handoff_failed,
}

abbrev pub second : ℕ
second = 1000000

-- `DeliveryResult.kind`; `lost` never reaches `_apply_result`.
pub data ResultKind : Type 0 where
  accepted transient rate_limited retry permanent deferred : ResultKind

-- The running email failure series in the settings table.
pub record Series : Type 0 where
  pub since : ℕ
  pub at : ℕ
  pub kind : ResultKind

pub record ChannelState : Type 0 where
  pub last_attempt_at : Option ℕ
  pub cooldown_until : Option ℕ
  pub cooldown_reason : Option (List ℕ)

-- The tables notification_queue and notification_channel_state, the setting, and the inbox calls,
-- the newest first.
pub record State : Type 0 where
  pub rows : List Row
  pub next_id : ℕ
  pub channels : List (List ℕ × ChannelState)
  pub series : Option Series
  pub events : List Event

abbrev pub is_email : Channel → Bool
is_email email = true
is_email signal = false

-- `_other_stuck_email`, row by row; 2 is `HANDOFF_ALERT_MIN_ATTEMPTS`.
other_stuck_email : ℕ → List Row → Bool
other_stuck_email id [] = false
other_stuck_email id (r ∷ rows) =
    is_email r.channel
      && is_open r.status
      && not (is_test r.type)
      && leb 2 r.retry_count
      && not (r.id == id)
    || other_stuck_email id rows

final_reason : List ℕ → Reason
final_reason error =
    if starts_with (codes "[EXPIRED]") error
    then expired
    else if starts_with (codes "[PERMANENT]") error
    then rejected
    else exhausted

-- error or ""
abbrev pub or_empty : Option (List ℕ) → List ℕ
or_empty none = []
or_empty (some text) = text

unfoldable pub tell_sent : Row → State → State
unfolding other_stuck_email
tell_sent r st =
    if not (is_email r.channel) || other_stuck_email r.id st.rows
    then record st { events = delivery_sent r.channel ∷ st.events }
    else record st {
      events = handoff_recovered ∷ delivery_sent r.channel ∷ st.events;
      series = none;
    }

unfoldable pub tell_failed : Row → State → State
unfolding final_reason
tell_failed r st =
    let reason = final_reason (or_empty r.last_error) in
    if is_email r.channel
    then record st {
      events =
          handoff_failed reason ∷ delivery_failed r.id r.channel r.target_id reason ∷ st.events;
    }
    else record st { events = delivery_failed r.id r.channel r.target_id reason ∷ st.events }

-- `_record_delivery`
unfoldable pub record_delivery : Bool → ℕ → State → State
unfolding tell_sent tell_failed
record_delivery done id st = elim (find id st.rows) [
  | none ↦ st
  | some r ↦ if done then tell_sent r st else tell_failed r st
]

-- A row update of one transaction, and `_record_delivery` in the same one.
unfoldable pub settle : Bool → ℕ → (Row → Row) → State → State
unfolding record_delivery
settle done id f st = record_delivery done id (record st { rows = modify id f st.rows })

-- WHERE id = ? AND status IN ('pending', 'processing')
unfoldable pub open_row : ℕ → List Row → Option Row
open_row id rows = elim (find id rows) [
  | none ↦ none
  | some r ↦ if is_open r.status then some r else none
]
