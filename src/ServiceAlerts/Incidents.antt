-- ===== src/ServiceAlerts/Incidents.antt =====
-- The incident of one service in the inbox (app/db/notifications.py, `report_incident` and the calls
-- beside it), and how an alert is written to it (`_apply` and `write` of
-- app/services/service_alerts.py). Times are seconds.
use justup.Prelude.{
  ℕ, ◌+◌, ◌-◌, Bool, true, false, ◌||◌, Option, none, some, List, [], ◌∷◌, ◌==◌, leb, if◌then◌else◌,
}

-- What a row says; its texts follow from that.
pub data Notice : Type 0 where
  service_crashed service_degraded service_recovered : Notice

-- The idempotency key of a row: of an opening at a second, or of the recovery of an incident.
pub data Key : Type 0 where
  opening recovery : ℕ → Key

pub record Row : Type 0 where
  pub id : ℕ
  pub key : Key
  pub notice : Notice
  pub unread : Bool

pub record OpenIncident : Type 0 where
  pub notification_id : ℕ
  pub last_update : ℕ
  pub count : ℕ

-- The rows of the service, the newest first, and the state in the settings.
pub record Inbox : Type 0 where
  pub incident : Option OpenIncident
  pub rows : List Row
  pub next_id : ℕ

-- How the database behaves in a write: it works, refuses the new row alone, or refuses all.
pub data Storage : Type 0 where
  works refuses_row refuses : Storage

abbrev pub takes_row : Storage → Bool
takes_row works = true
takes_row _ = false

abbrev pub same_key : Key → Key → Bool
same_key (opening m) (opening n) = m == n
same_key (recovery m) (recovery n) = m == n
same_key _ _ = false

unfoldable pub has_key : Key → List Row → Bool
has_key key [] = false
has_key key (r ∷ rs) = same_key r.key key || has_key key rs

-- `emit`: no row where the key exists, or the database refuses it.
unfoldable pub emit : Storage → Key → Notice → Inbox → Option ℕ × Inbox
unfolding has_key
emit o key notice b =
    if has_key key b.rows
    then (none, b)
    else if takes_row o
    then (
      some b.next_id,
      record b {
        rows = record { id = b.next_id; key = key; notice = notice; unread = true } ∷ b.rows;
        next_id = b.next_id + 1;
      },
    )
    else (none, b)

-- `_rewrite_incident_row`
abbrev pub rewrite_row : ℕ → Notice → Bool → Row → Row
rewrite_row id notice renotify r =
    if r.id == id then record r { notice = notice; unread = renotify || r.unread } else r

unfoldable pub rewrite_incident_row : ℕ → Notice → Bool → List Row → List Row
rewrite_incident_row id notice renotify [] = []
rewrite_incident_row id notice renotify (r ∷ rs) =
    rewrite_row id notice renotify r ∷ rewrite_incident_row id notice renotify rs

abbrev pub opened : ℕ → Option ℕ × Inbox → Inbox
opened now (none, b) = b
opened now (some id, b) = record b {
  incident = some (record { notification_id = id; last_update = now; count = 1 });
}

unfoldable pub refresh : ℕ → Notice → OpenIncident → Inbox → Inbox
unfolding rewrite_incident_row
refresh now notice i b =
    if leb 1800 (now - i.last_update)
    then record b {
      incident = some (record i { count = i.count + 1; last_update = now });
      rows = rewrite_incident_row i.notification_id notice false b.rows;
    }
    else record b { incident = some (record i { count = i.count + 1 }) }

abbrev pub report_on : Option OpenIncident → Storage → ℕ → Notice → Inbox → Inbox
report_on none o now notice b = opened now (emit o (opening now) notice b)
report_on (some i) o now notice b = refresh now notice i b

abbrev pub is_refused : Storage → Bool
is_refused refuses = true
is_refused _ = false

-- `report_incident`; where the database refuses all, nothing is changed.
unfoldable pub report_incident : Storage → ℕ → Notice → Inbox → Inbox
unfolding emit refresh
report_incident o now notice b = if is_refused o then b else report_on b.incident o now notice b

abbrev pub resolve_on : Option OpenIncident → Storage → Inbox → Inbox
resolve_on none o b = b
resolve_on (some i) o b =
    (emit o (recovery i.notification_id) service_recovered (record b { incident = none })).1

unfoldable pub resolve_incident : Storage → Inbox → Inbox
unfolding emit
resolve_incident o b = if is_refused o then b else resolve_on b.incident o b

abbrev pub update_on : Option OpenIncident → Notice → Inbox → Option Inbox
update_on none notice b = none
update_on (some i) notice b =
    some (record b { rows = rewrite_incident_row i.notification_id notice true b.rows })

-- `update_incident`; `none` is False.
unfoldable pub update_incident : Storage → Notice → Inbox → Option Inbox
unfolding rewrite_incident_row
update_incident o notice b = if is_refused o then none else update_on b.incident notice b

abbrev pub is_open : Option OpenIncident → Bool
is_open none = false
is_open (some i) = true

-- An alert of the service: its kind, and its state where it crashed.
pub data Alert : Type 0 where
  recovered degraded : ℕ → Alert
  crashed : ℕ → Bool → Alert

abbrev pub crash_notice : Bool → Notice
crash_notice was_degraded = if was_degraded then service_degraded else service_crashed

-- `write`: an alert that is not persisted raises, which undoes the transaction: `none`.
abbrev pub persisted_if : Bool → Inbox → Option Inbox
persisted_if true b = some b
persisted_if false b = none

abbrev pub report : Storage → ℕ → Notice → Inbox → Option Inbox
report o now notice b =
    let b' = report_incident o now notice b in persisted_if (is_open b'.incident) b'

abbrev pub closed : Inbox → Option Inbox
closed b = elim b.incident [ none ↦ some b | some i ↦ none ]

unfoldable pub write : Storage → Alert → Inbox → Option Inbox
unfolding report_incident resolve_incident update_incident
write o (recovered at) b = closed (resolve_incident o b)
write o (degraded at) b =
    if is_open b.incident
    then update_incident o service_degraded b
    else report o at service_degraded b
write o (crashed at was_degraded) b = report o at (crash_notice was_degraded) b

-- The sink's writes in a row: what raises leaves the inbox as it was.
abbrev pub kept : Option Inbox → Inbox → Inbox
kept none b = b
kept (some b') b = b'

unfoldable pub write_all : List (Storage × Alert) → Inbox → Inbox
unfolding write
write_all [] b = b
write_all ((o, alert) ∷ rest) b = write_all rest (kept (write o alert b) b)

abbrev pub empty_inbox : Inbox
empty_inbox = record { incident = none; rows = []; next_id = 1 }
