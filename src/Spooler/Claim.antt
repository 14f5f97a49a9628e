-- ===== src/Spooler/Claim.antt =====
-- The claim of `get_pending_items` (app/services/notifications/spooler.py): the candidates of its
-- query, and the recovery and the claim of each of them, row by row of its bulk updates.
pub mod Exclusive
pub mod Disjoint
pub mod Recovery
pub mod Openings
pub mod Allowed
use justup.Prelude.{
  ℕ, ◌+◌, ◌-◌, ◌*◌, String, Bool, true, false, not, ◌&&◌, ◌||◌, Option, none, some, List, [], ◌∷◌,
  ◌++◌, ◌==◌, leb, ltb, reverse, drop, take, length, count_if, filter_if, str_eq, if◌then◌else◌,
}
use justup.Text.{codes, same_text}
use justup.DeliveryPolicy.{Channel, email, signal, channel_text, channel_policy, max_retries}
use justup.Spooler.{
  second, or_empty, Row, State, processing, is_open, is_pending, is_processing, find, modify,
  settle, is_alert, same_channel, same_word, stored_event, blocked_keys, expire_stale,
  finalize_retried_tests, failed_with,
}

-- `PROCESSING_TIMEOUT_SECONDS`
abbrev pub processing_timeout : ℕ
processing_timeout = 600

-- SQL's TRIM takes off spaces only.
ltrim : List ℕ → List ℕ
ltrim [] = []
ltrim (c ∷ s) = let rest = ltrim s in if c == 32 then rest else c ∷ s

-- `_CHANNEL_KEY_SQL`
unfoldable sql_key : Row → List ℕ
unfolding ltrim channel_text
sql_key r = elim r.channel [
  | signal ↦ codes "signal:" ++ reverse (ltrim (reverse (ltrim r.payload.sender)))
  | email ↦ channel_text email
]

pub member_text : List ℕ → List (List ℕ) → Bool
unfolding same_text
member_text key [] = false
member_text key (k ∷ keys) = same_text k key || member_text key keys

-- `IS` takes two NULLs for the same.
abbrev is_same_id : Option ℕ → Option ℕ → Bool
is_same_id none none = true
is_same_id (some a) (some b) = a == b
is_same_id _ _ = false

-- The older, unsent open message that a resolved one waits for.
abbrev pub holds_back : Row → Row → Bool
holds_back q o =
    ltb o.id q.id
    && is_open o.status
    && is_alert o.type
    && same_channel o.channel q.channel
    && is_same_id o.recipient_id q.recipient_id
    && same_word o.payload.alert_id q.payload.alert_id
    && str_eq (stored_event o.payload) "open"

some_row : (Row → Bool) → List Row → Bool
some_row p [] = false
some_row p (r ∷ rows) = p r || some_row p rows

-- `_HELD_BEHIND_OPEN_SQL`
abbrev pub is_held : List Row → Row → Bool
unfolding some_row
is_held rows q =
    is_alert q.type && str_eq (stored_event q.payload) "resolved" && some_row (holds_back q) rows

-- The claim was lost: `status = 'processing' AND updated_at < processing_cutoff`.
abbrev pub is_stuck : ℕ → Row → Bool
is_stuck now r = is_processing r.status && ltb (r.updated_at + processing_timeout * second) now

-- `status = 'pending' AND next_retry_at <= now`
abbrev pub is_ready : ℕ → Row → Bool
is_ready now r = is_pending r.status && leb r.next_retry_at now

abbrev pub is_due : ℕ → Row → Bool
is_due now r = is_ready now r || is_stuck now r

abbrev pub is_candidate : ℕ → List (List ℕ) → List Row → Row → Bool
unfolding is_held member_text sql_key
is_candidate now blocked rows r =
    is_due now r && not (member_text (sql_key r) blocked) && not (is_held rows r)

-- ORDER BY next_retry_at, id
abbrev pub is_before : Row → Row → Bool
is_before a b =
    ltb a.next_retry_at b.next_retry_at || a.next_retry_at == b.next_retry_at && ltb a.id b.id

-- `channel_rank`, counted from 0.
abbrev channel_rank : List Row → Row → ℕ
channel_rank rows r = count_if (λ o. same_channel o.channel r.channel && is_before o r) rows

insert_row : Row → List Row → List Row
insert_row r [] = r ∷ []
insert_row r (x ∷ rows) = if is_before x r then x ∷ insert_row r rows else r ∷ x ∷ rows

sort_rows : List Row → List Row
unfolding insert_row
sort_rows [] = []
sort_rows (r ∷ rows) = insert_row r (sort_rows rows)

-- The query of the candidates.
pub candidates : ℕ → ℕ → List (List ℕ) → List Row → List Row
unfolding is_candidate channel_policy sort_rows
candidates limit now blocked rows =
    let ranked = filter_if (is_candidate now blocked rows) rows in
    take limit (
      sort_rows (
        filter_if (λ r. ltb (channel_rank ranked r) (channel_policy r.channel).batch_limit) ranked))

-- The text that crash recovery appends; SUBSTR(last_error, -400) is the last 400 characters.
abbrev recovered_error : List ℕ → List ℕ
recovered_error error =
    if ltb 1000 (length error)
    then codes "[...] " ++ drop (length error - 400) error ++ codes " [RECOVERED]"
    else error ++ codes " [RECOVERED]"

abbrev pub recovered : Row → Row
recovered r = record r {
  retry_count = r.retry_count + 1;
  limited_attempts = r.limited_attempts + 1;
  last_error = some (recovered_error (or_empty r.last_error));
}

abbrev pub claimed : ℕ → Row → Row
claimed now r = record r { status = processing; updated_at = now }

-- The recovery of a row that crashed too often.
abbrev pub given_up : ℕ → Row → Row
given_up now r =
    failed_with now
      (or_empty (recovered r).last_error ++ codes " [MAX RETRIES EXCEEDED after recovery]")
      (recovered r)

-- One candidate; `none` when it is not claimed.
pub claim_one : ℕ → ℕ → State → Option ℕ × State
unfolding settle
claim_one now id st = elim (find id st.rows) [
  | none ↦ (none, st)
  | some r ↦
      if is_stuck now r
      then if ltb max_retries (r.limited_attempts + 1)
        then (none, settle false id (given_up now) st)
        else (some id, record st { rows = modify id (λ x. claimed now (recovered x)) st.rows })
      else if is_ready now r
      then (some id, record st { rows = modify id (claimed now) st.rows })
      else (none, st)
]

abbrev pub and_claimed : Option ℕ → List ℕ → List ℕ
and_claimed none ids = ids
and_claimed (some id) ids = id ∷ ids

-- The ids that are claimed, and the state.
pub claim_all : ℕ → List Row → State → List ℕ × State
unfolding claim_one
claim_all now [] st = ([], st)
claim_all now (r ∷ rows) st =
    let one = claim_one now r.id st in
    let rest = claim_all now rows one.1 in (and_claimed one.0 rest.0, rest.1)

pub get_pending_items : ℕ → ℕ → State → List ℕ × State
unfolding claim_all candidates blocked_keys
get_pending_items limit now st =
    let ready = (expire_stale now (finalize_retried_tests now st)).1 in
    claim_all now (candidates limit now (blocked_keys now ready.channels) ready.rows) ready
