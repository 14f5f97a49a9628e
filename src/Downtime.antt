-- ===== src/Downtime.antt =====
-- The downtime history of a target (app/db/tsdb.py, `query_downtime_periods`). Times are
-- microseconds.
mod Outages
mod Order
mod Unchecked
mod Tests
use justup.Prelude.{
  ℕ, ◌-◌, ◌/◌, String, Bool, true, false, ◌||◌, Option, none, some, List, [], ◌∷◌, ◌++◌, ltb, leb,
  ◌==◌, take, reverse, if◌then◌else◌,
}

pub data Metric : Type 0 where
  http_up ping_up tcp_up : Metric

-- A point that `query` reads, and whether its value is 1.
pub record Point : Type 0 where
  pub ts : ℕ
  pub is_up : Bool

-- A dict from the three metrics to their states, as far as they are known.
pub record States : Type 0 where
  pub http : Option Bool
  pub ping : Option Bool
  pub tcp : Option Bool

abbrev pub newer : Option Bool → Option Bool → Option Bool
newer none old = old
newer (some b) old = some b

-- last_state.update(states)
unfoldable pub update : States → States → States
update states last = record {
  http = newer states.http last.http;
  ping = newer states.ping last.ping;
  tcp = newer states.tcp last.tcp;
}

abbrev pub state_of : Metric → Bool → States
state_of http_up b = record { http = some b; ping = none; tcp = none }
state_of ping_up b = record { http = none; ping = some b; tcp = none }
state_of tcp_up b = record { http = none; ping = none; tcp = some b }

-- The timeline, whose times are kept in the order that `sorted` gives them.
pub record Row : Type 0 where
  pub at : ℕ
  pub states : States

unfoldable pub add_states : ℕ → States → List Row → List Row
unfolding update
add_states ts states [] = record { at = ts; states = states } ∷ []
add_states ts states (r ∷ rs) =
    let rest = add_states ts states rs in
    if ltb ts r.at
    then record { at = ts; states = states } ∷ r ∷ rs
    else if ts == r.at
    then record { at = ts; states = update states r.states } ∷ rs
    else r ∷ rest

unfoldable pub add_points : Metric → List Point → List Row → List Row
unfolding add_states
add_points m [] rows = rows
add_points m (p ∷ ps) rows = add_points m ps (add_states p.ts (state_of m p.is_up) rows)

unfoldable pub timeline : (Metric → List Point) → List Row
unfolding add_points
timeline series =
    add_points tcp_up (series tcp_up)
      (add_points ping_up (series ping_up) (add_points http_up (series http_up) []))

-- A set of metrics
pub record Failed : Type 0 where
  pub http : Bool
  pub ping : Bool
  pub tcp : Bool

abbrev pub none_failed : Failed
none_failed = record { http = false; ping = false; tcp = false }

abbrev pub is_down : Option Bool → Bool
is_down (some false) = true
is_down (some true) = false
is_down none = false

-- {m for m, is_up in last_state.items() if not is_up}
unfoldable pub failed_now : States → Failed
failed_now last = record {
  http = is_down last.http;
  ping = is_down last.ping;
  tcp = is_down last.tcp;
}

unfoldable pub any_failed : Failed → Bool
any_failed f = f.http || (f.ping || f.tcp)

unfoldable pub union : Failed → Failed → Failed
union f g = record { http = f.http || g.http; ping = f.ping || g.ping; tcp = f.tcp || g.tcp }

abbrev pub label_if : Bool → String → List String → List String
label_if b label rest = if b then label ∷ rest else rest

-- sorted([metric_labels[m] for m in current_failed])
unfoldable pub failed_labels : Failed → List String
failed_labels f = label_if f.http "HTTP" (label_if f.ping "Ping" (label_if f.tcp "TCP" []))

pub record DowntimePeriod : Type 0 where
  pub start : ℕ
  pub end : Option ℕ
  pub duration_seconds : Option ℕ
  pub failed_services : List String

-- The end of a downtime at a time, kept where it lasted long enough.
unfoldable pub close_period : ℕ → Option ℕ → Failed → ℕ → List DowntimePeriod
close_period least none failed ts = []
close_period least (some start) failed ts =
    let duration = (ts - start) / 1000000 in
    if leb least duration
    then record {
      start = start;
      end = some ts;
      duration_seconds = some duration;
      failed_services = failed_labels failed;
    }
      ∷ []
    else []

unfoldable pub ongoing_period : Option ℕ → Failed → List DowntimePeriod
ongoing_period none failed = []
ongoing_period (some start) failed =
    record {
      start = start;
      end = none;
      duration_seconds = none;
      failed_services = failed_labels failed;
    }
    ∷ []

abbrev pub or_start : Option ℕ → ℕ → ℕ
or_start none ts = ts
or_start (some start) ts = start

abbrev pub joined : Option ℕ → Failed → Failed → Failed
joined none failed now = now
joined (some start) failed now = union failed now

-- The loop over the times, from `downtime_start`, `current_failed` and `last_state`; the periods come
-- in the order in which they are appended.
unfoldable pub scan : ℕ → Option ℕ → Failed → States → List Row → List DowntimePeriod
unfolding update failed_now any_failed union close_period ongoing_period
scan least start failed last [] = ongoing_period start failed
scan least start failed last (r ∷ rs) =
    let last' = update r.states last in
    let now = failed_now last' in
    let down = any_failed now in
    let start' = if down then some (or_start start r.at) else none in
    let failed' = if down then joined start failed now else none_failed in
    (if down then [] else close_period least start failed r.at)
    ++ scan least start' failed' last' rs

-- `before` has the newest states up to `since`, and none without it; `series` has the points of the
-- window, and `least` is `min_duration_seconds`.
unfoldable pub query_downtime_periods : (Metric → List Point) → States → ℕ → ℕ → List DowntimePeriod
unfolding scan timeline
query_downtime_periods series before limit least =
    take limit (reverse (scan least none none_failed before (timeline series)))
