-- ===== src/Spooler/Tests.antt =====
-- Runs of app/services/notifications/spooler.py on concrete queues.
use justup.Prelude.{
  ℕ, length, ◌*◌, ◌≤◌, ◌≡◌, ◌≢◌, refl, true, none, some, List, [], ◌∷◌, All, arith,
}
use justup.Text.{codes, before}
use justup.DeliveryPolicy.{email, channel_policy}
use justup.Spooler.{
  Row, State, Message, alert, pending, sent, second, find, enqueue, policy_of_key, pacing_wait,
  record_attempt,
}
use justup.Spooler.Ledger.{Sound}
use justup.Spooler.Lifecycle.{
  Op, enqueues, claims, is_sent, run, empty, queue-Sound, final_rows_stay,
}
use justup.Spooler.Repeats.{enqueue_alert_once}
use justup.Spooler.Claim.{get_pending_items, candidates}
use justup.Spooler.Claim.Openings.{IsAllowed}
use justup.Spooler.Claim.Allowed.{FromOldest, Accounted, candidates-IsAllowed}
use justup.Spooler.Claim.Disjoint.{claims_disjoint}
use justup.Spooler.Send.{apply_result}
use justup.Spooler.Send.Outage.{outage_spends_nothing, transient_result, Waits}

abbrev down : Message
down = record {
  type = alert;
  channel = email;
  recipient_id = some 7;
  address = "ops@example.org";
  payload = record { text = "{}"; alert_id = some "a1"; alert_event = some "open"; sender = [] };
  error = none;
  immediate = true;
  target_id = some 3;
}

-- The row that `enqueue` makes of the message at 1000 s.
abbrev down_row : Row
down_row = record {
  id = 1;
  type = alert;
  channel = email;
  recipient_id = some 7;
  address = "ops@example.org";
  payload = down.payload;
  status = pending;
  retry_count = 0;
  limited_attempts = 0;
  next_retry_at = 1000 * second;
  last_error = none;
  created_at = 1000 * second;
  updated_at = 1000 * second;
  target_id = some 3;
}

abbrev one_down : State
one_down = record { rows = down_row ∷ []; next_id = 2; channels = []; series = none; events = [] }

abbrev down_sent : Row
down_sent = record down_row { status = sent; updated_at = 1002 * second }

abbrev one_sent : State
one_sent = record one_down { rows = down_sent ∷ [] }

abbrev day : List Op
day = enqueues (1000 * second) 0 down ∷ claims 20 (1001 * second) ∷ is_sent (1002 * second) 1 ∷ []

found_down : find 1 one_down.rows ≡ some down_row
unfolding find
found_down = refl

found_sent : find 1 one_sent.rows ≡ some down_sent
unfolding find
found_sent = refl

queue-Sound_example : Sound (run day empty)
queue-Sound_example = queue-Sound day

final_rows_stay_example : find 1 (run day one_sent).rows ≡ some down_sent
final_rows_stay_example = final_rows_stay day one_sent 1 found_sent refl

claims_disjoint_example :
    All
      (λ id.
        All
          (λ k. k ≢ id)
          (get_pending_items 20
            (1060 * second)
            (get_pending_items 20 (1001 * second) one_down).1).0)
      (get_pending_items 20 (1001 * second) one_down).0
claims_disjoint_example =
    claims_disjoint 20 (1001 * second) 20 (1060 * second) one_down (omega arith)

outage_spends_nothing_example :
    (x : Row) × (find 1
        (apply_result
          (1005 * second)
          9
          down_row
          (transient_result (codes "timed out") true)
          one_down).rows
      ≡ some x)
    × Waits (1005 * second) down_row x
outage_spends_nothing_example =
    outage_spends_nothing (1005 * second) 9 down_row (codes "timed out") true one_down found_down
      refl refl refl (omega arith) (omega arith)

-- The message is claimed and sent before it is queued again.
abbrev sent_between : List Op
sent_between = claims 20 (1001 * second) ∷ is_sent (1002 * second) 1 ∷ []

enqueue_alert_once_example :
    (found : ℕ) × (enqueue
        (1009 * second)
        4
        down
        (run sent_between (enqueue (1000 * second) 0 down empty).1)
      ≡ (some found, run sent_between (enqueue (1000 * second) 0 down empty).1))
enqueue_alert_once_example =
    enqueue_alert_once (1000 * second) (1009 * second) 0 4 down sent_between empty refl refl refl
      refl

email_policy : policy_of_key (codes "email") ≡ some (channel_policy email)
unfolding policy_of_key before
email_policy = refl

waits_after :
    pacing_wait 1000000 (codes "email") (record_attempt 0 (codes "email") one_down) ≡ some 1500000
unfolding pacing_wait record_attempt before
waits_after = refl

candidates-IsAllowed_example :
    (length (candidates 20 (1001 * second) [] one_down.rows) ≤ 20)
    × FromOldest (candidates 20 (1001 * second) [] one_down.rows)
    × All
        (IsAllowed (1001 * second) [] one_down.rows)
        (candidates 20 (1001 * second) [] one_down.rows)
    × All (Accounted 20 (1001 * second) [] one_down.rows) one_down.rows
candidates-IsAllowed_example = candidates-IsAllowed 20 (1001 * second) [] one_down.rows
