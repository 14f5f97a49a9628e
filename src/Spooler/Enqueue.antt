-- ===== src/Spooler/Enqueue.antt =====
-- `enqueue` of app/services/notifications/spooler.py. The payload's JSON text stands in its record;
-- `recipient_id = ?` holds for no row when either side is NULL.
use justup.Prelude.{
  ℕ, ◌+◌, ◌*◌, String, Bool, true, false, ◌&&◌, ◌||◌, Option, none, some, List, [], ◌∷◌, ◌++◌, ◌==◌,
  leb, count_if, str_eq, if◌then◌else◌,
}
use justup.DeliveryPolicy.{Channel, email, signal, backoff_delay}
use justup.Spooler.Rows.{NotificationType, alert, Payload, Row, pending, is_open, is_test}
use justup.Spooler.Inbox.{second, State}

abbrev pub signal_test_hourly_limit : ℕ
signal_test_hourly_limit = 30

abbrev pub signal_test_recipient_limit : ℕ
signal_test_recipient_limit = 5

abbrev pub signal_test_pending_limit : ℕ
signal_test_pending_limit = 50

abbrev pub is_alert : NotificationType → Bool
is_alert alert = true
is_alert _ = false

abbrev pub same_channel : Channel → Channel → Bool
same_channel email email = true
same_channel signal signal = true
same_channel _ _ = false

-- An SQL comparison: NULL is equal to nothing.
abbrev pub same_id : Option ℕ → Option ℕ → Bool
same_id (some a) (some b) = a == b
same_id _ _ = false

abbrev pub same_word : Option String → Option String → Bool
same_word (some a) (some b) = str_eq a b
same_word _ _ = false

-- COALESCE(json_extract(payload, '$.alert_event'), 'open')
abbrev pub stored_event : Payload → String
stored_event p = elim p.alert_event [ none ↦ "open" | some event ↦ event ]

-- payload.get("alert_event") or "open"
abbrev pub given_event : Payload → String
given_event p = elim p.alert_event [
  | none ↦ "open"
  | some event ↦ if str_eq event "" then "open" else event
]

-- The arguments of `enqueue`.
pub record Message : Type 0 where
  pub type : NotificationType
  pub channel : Channel
  pub recipient_id : Option ℕ
  pub address : String
  pub payload : Payload
  pub error : Option (List ℕ)
  pub immediate : Bool
  pub target_id : Option ℕ

-- SELECT id ... ORDER BY id DESC LIMIT 1, on rows in the order of their ids.
unfoldable pub latest_id : (Row → Bool) → List Row → Option ℕ
latest_id p [] = none
latest_id p (r ∷ rows) = elim (latest_id p rows) [
  | some id ↦ some id
  | none ↦ if p r then some r.id else none
]

abbrev pub same_alert : Message → Row → Bool
same_alert m r =
    is_alert r.type
    && same_channel r.channel m.channel
    && same_id r.recipient_id m.recipient_id
    && same_word r.payload.alert_id m.payload.alert_id
    && str_eq (stored_event r.payload) (given_event m.payload)

abbrev pub is_signal_test : Row → Bool
is_signal_test r = same_channel r.channel signal && is_test r.type

abbrev pub same_test : Message → Row → Bool
same_test m r =
    is_signal_test r
    && str_eq r.address m.address
    && str_eq r.payload.text m.payload.text
    && is_open r.status

-- `created_at >= now - seconds`
abbrev pub created_within : ℕ → ℕ → Row → Bool
created_within now seconds r = leb now (r.created_at + seconds * second)

abbrev pub over_limit : ℕ → String → List Row → Bool
over_limit now address rows =
    leb signal_test_hourly_limit
      (count_if (λ r. is_signal_test r && created_within now 3600 r) rows)
    || leb signal_test_recipient_limit (
        count_if
          (λ r.
            is_signal_test r
            && created_within now 3600 r
            && str_eq r.address address
            && created_within now 600 r)
          rows)
    || leb signal_test_pending_limit (count_if (λ r. is_signal_test r && is_open r.status) rows)

-- The row of the INSERT.
abbrev pub new_row : ℕ → ℕ → ℕ → Message → Row
new_row now drawn id m = record {
  id = id;
  type = m.type;
  channel = m.channel;
  recipient_id = m.recipient_id;
  address = m.address;
  payload = m.payload;
  status = pending;
  retry_count = 0;
  limited_attempts = 0;
  next_retry_at = if m.immediate then now else now + backoff_delay 250000 drawn 0;
  last_error = m.error;
  created_at = now;
  updated_at = now;
  target_id = m.target_id;
}

unfoldable pub insert : ℕ → ℕ → Message → State → Option ℕ × State
unfolding backoff_delay
insert now drawn m st = (
  some st.next_id,
  record st { rows = st.rows ++ new_row now drawn st.next_id m ∷ []; next_id = st.next_id + 1 },
)

-- What a search for an alert finds, where the payload names one.
abbrev pub if_named : Option String → NotificationType → Option ℕ → Option ℕ
if_named none type found = none
if_named (some id) type found = if is_alert type then found else none

-- The alert that is queued already.
unfoldable pub known_alert : Message → State → Option ℕ
unfolding latest_id
known_alert m st = if_named m.payload.alert_id m.type (latest_id (same_alert m) st.rows)

-- The second half of `enqueue`; `none` stands for `SignalQueueLimitError`.
unfoldable pub enqueue_new : ℕ → ℕ → Message → State → Option ℕ × State
unfolding latest_id insert
enqueue_new now drawn m st =
    if same_channel m.channel signal && is_test m.type
    then elim (latest_id (same_test m) st.rows) [
      | some id ↦ (some id, st)
      | none ↦ if over_limit now m.address st.rows then (none, st) else insert now drawn m st
    ]
    else insert now drawn m st

unfoldable pub enqueue : ℕ → ℕ → Message → State → Option ℕ × State
unfolding known_alert enqueue_new
enqueue now drawn m st = elim (known_alert m st) [
  | some id ↦ (some id, st)
  | none ↦ enqueue_new now drawn m st
]
