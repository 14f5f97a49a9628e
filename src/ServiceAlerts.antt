-- ===== src/ServiceAlerts.antt =====
-- The sink that stores the alerts of the supervisor (app/services/service_alerts.py,
-- `ServiceAlertSink`). Its task is cut at its waits: for a write, and for the next attempt. What a
-- write does to the database is a parameter here, and is modelled in ServiceAlerts/Incidents.
mod Incidents
mod Drain
mod Accounts
mod Patient
mod Rows
mod Paired
mod Tests
use justup.Prelude.{
  ℕ, ◌+◌, ◌*◌, Bool, true, false, ◌||◌, Option, none, some, List, [], ◌∷◌, ◌++◌, ◌==◌, leb, min,
  length, if◌then◌else◌,
}

-- A number tells alerts apart, as `is` does.
pub record Queued (A : Type 0) : Type 0 where
  pub id : ℕ
  pub alert : A

pub data Phase (A : Type 0) : Type 0 where
  idle sleeping : Phase A
  writing : Queued A → Phase A

-- What became of a write, and of an alert that is not tried again
pub data End : Type 0 where
  write_failed write_stored gave_up : ℕ → End

-- `log` has the ends of the writes, the newest first, and `dropped` the alerts that made room.
pub record Sink (A D : Type 0) : Type 0 where
  pub pending : List (Queued A)
  pub phase : Phase A
  pub attempts : ℕ
  pub delay : ℕ
  pub next_id : ℕ
  pub db : D
  pub log : List End
  pub dropped : List ℕ

abbrev pub max_pending : ℕ
max_pending = 50

abbrev pub max_attempts : ℕ
max_attempts = 30

module _ {A : Type 0} where
  -- The head of the loop of `_drain`.
  abbrev pub begin_next : List (Queued A) → Phase A
  begin_next [] = idle
  begin_next (q ∷ qs) = writing q

  abbrev pub without_first : List (Queued A) → List (Queued A)
  without_first [] = []
  without_first (q ∷ qs) = qs

  abbrev pub first_id : List (Queued A) → List ℕ
  first_id [] = []
  first_id (q ∷ qs) = q.id ∷ []

  abbrev pub is_idle : Phase A → Bool
  is_idle idle = true
  is_idle sleeping = false
  is_idle (writing q) = false

  -- The queue may have dropped the alert while it was written.
  abbrev pub discard : ℕ → List (Queued A) → List (Queued A)
  discard id [] = []
  discard id (q ∷ qs) = if q.id == id then qs else q ∷ qs

module _ {A D : Type 0} where
  abbrev pub new_sink : D → Sink A D
  new_sink db = record {
    pending = [];
    phase = idle;
    attempts = 0;
    delay = 1;
    next_id = 0;
    db = db;
    log = [];
    dropped = [];
  }

  -- `append` on a queue of limited length: the oldest alert makes room.
  unfoldable pub make_room : Sink A D → Sink A D
  make_room s =
      if leb max_pending (length s.pending)
      then record s { pending = without_first s.pending; dropped = first_id s.pending ++ s.dropped }
      else s

  unfoldable pub append : A → Sink A D → Sink A D
  append alert s = record s {
    pending = s.pending ++ record { id = s.next_id; alert = alert } ∷ [];
    next_id = s.next_id + 1;
  }

  -- `__call__`: a new task begins with the head of the queue.
  unfoldable pub start_task : Sink A D → Sink A D
  start_task s =
      if is_idle s.phase
      then record s { attempts = 0; delay = 1; phase = begin_next s.pending }
      else s

  unfoldable pub call : A → Sink A D → Sink A D
  unfolding make_room append start_task
  call alert s = start_task (append alert (make_room s))

  unfoldable pub settle : ℕ → Sink A D → Sink A D
  settle id s =
      let rest = discard id s.pending in
      record s { pending = rest; attempts = 0; delay = 1; phase = begin_next rest }

  unfoldable pub fail : Queued A → Sink A D → Sink A D
  unfolding settle
  fail q s =
      let log = write_failed q.id ∷ s.log in
      if leb max_attempts (s.attempts + 1)
      then settle q.id (record s { log = gave_up q.id ∷ log })
      else record s { attempts = s.attempts + 1; phase = sleeping; log = log }

  -- The write of `q` ends: `none` is an exception.
  unfoldable pub end_write : Queued A → Option D → Sink A D → Sink A D
  unfolding settle fail
  end_write q none s = fail q s
  end_write q (some db) s = settle q.id (record s { db = db; log = write_stored q.id ∷ s.log })

  -- The wait for the next attempt ends.
  unfoldable pub retry : Sink A D → Sink A D
  retry s = record s { delay = min (s.delay * 2) 60; phase = begin_next s.pending }

-- `write o alert db`, where `o` is how the database behaves in that write
module _ {A D O : Type 0} (write : O → A → D → Option D) where
  -- The task goes on from where it waits.
  unfoldable pub go_on : Phase A → O → Sink A D → Sink A D
  unfolding end_write retry
  go_on idle o s = s
  go_on sleeping o s = retry s
  go_on (writing q) o s = end_write q (write o q.alert s.db) s

  unfoldable pub drain : List O → Sink A D → Sink A D
  unfolding go_on
  drain [] s = s
  drain (o ∷ os) s = drain os (go_on s.phase o s)

  pub data Event : Type 0 where
    calls : A → Event
    goes_on : O → Event

  unfoldable pub step : Event → Sink A D → Sink A D
  unfolding call go_on
  step (calls alert) s = call alert s
  step (goes_on o) s = go_on s.phase o s

  unfoldable pub run : List Event → Sink A D → Sink A D
  unfolding step
  run [] s = s
  run (e ∷ es) s = run es (step e s)
