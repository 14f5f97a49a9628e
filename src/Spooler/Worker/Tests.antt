-- ===== src/Spooler/Worker/Tests.antt =====
-- Runs of the worker of app/services/notifications/spooler.py on one claimed message.
use justup.Prelude.{◌*◌, ◌≡◌, refl, true, none, some, [], ◌∷◌}
use justup.Text.{codes}
use justup.DeliveryPolicy.{email}
use justup.Spooler.{
  Row, State, alert, processing, second, accepted, rate_limited, find, renew_lease, pacing_wait,
}
use justup.Spooler.Send.{DeliveryResult, item_key, plain_result}
use justup.Spooler.Worker.{
  entered, Turn, attempt, begin_run, is_cooled, process_items, take_lease, reserve_send,
}
use justup.Spooler.Worker.Lease.{Leased, sent_under_lease}
use justup.Spooler.Worker.Sends.{sends_on, cooled_path_rests}

-- A message that was claimed at 1001 s.
abbrev claimed_row : Row
claimed_row = record {
  id = 1;
  type = alert;
  channel = email;
  recipient_id = some 7;
  address = "ops@example.org";
  payload = record { text = "{}"; alert_id = some "a1"; alert_event = none; sender = [] };
  status = processing;
  retry_count = 0;
  limited_attempts = 0;
  next_retry_at = 1000 * second;
  last_error = none;
  created_at = 1000 * second;
  updated_at = 1001 * second;
  target_id = some 3;
}

abbrev one_claimed : State
one_claimed = record {
  rows = claimed_row ∷ [];
  next_id = 2;
  channels = [];
  series = none;
  events = [];
}

abbrev turn : Turn
turn = record {
  may_send = true;
  first = entered;
  later = entered;
  asked = 1002 * second;
  now = 1002 * second;
  answer = plain_result accepted [];
  finals = entered ∷ [];
  ended = 1003 * second;
  drawn = 0;
}

goes_ahead : (attempt [] turn claimed_row one_claimed).0 ≡ some (true, plain_result accepted [])
unfolding attempt is_cooled reserve_send take_lease pacing_wait renew_lease find
goes_ahead = refl

sent_under_lease_example :
    Leased (1002 * second) claimed_row one_claimed (attempt [] turn claimed_row one_claimed).1
sent_under_lease_example = sent_under_lease [] turn claimed_row one_claimed goes_ahead

-- The provider asks for a pause of 60 seconds.
abbrev limit : DeliveryResult
limit = record (plain_result rate_limited (codes "slow down")) { cooldown_seconds = some 60 }

abbrev limited_turn : Turn
limited_turn = record turn { answer = limit }

is_limited :
    (attempt [] limited_turn claimed_row (begin_run one_claimed).state).0 ≡ some (true, limit)
unfolding attempt is_cooled reserve_send take_lease pacing_wait renew_lease find
is_limited = refl

cooled_path_rests_example :
    sends_on (item_key claimed_row) (
      process_items
        ((claimed_row, limited_turn) ∷ (claimed_row, turn) ∷ [])
        (begin_run one_claimed))
    ≡ sends_on
        (item_key claimed_row)
        (process_items ((claimed_row, limited_turn) ∷ []) (begin_run one_claimed))
cooled_path_rests_example =
    cooled_path_rests limited_turn claimed_row ((claimed_row, turn) ∷ []) (begin_run one_claimed)
      is_limited refl
