-- ===== src/Uptime.antt =====
-- The availability of a target (app/utils/uptime_metric.py), and how the store counts it
-- (`count_binary_points` and `count_availability` of app/db/tsdb.py). Times are milliseconds.
mod Cycles
mod Single
mod Tests
use justup.Prelude.{
  ℕ, ◌+◌, ◌-◌, String, Bool, true, false, ◌&&◌, ◌||◌, Option, none, some, List, [], ◌∷◌, ◌++◌, ltb,
  leb, if◌then◌else◌,
}
use justup.Dict
use justup.Dict.{Dict}

-- The flags of a target; a missing column counts as disabled.
pub record Target : Type 0 where
  pub enable_http_check : Bool
  pub enable_ping : Bool
  pub enable_tcp_connect : Bool

abbrev pub keep_if : Bool → String → List String → List String
keep_if flag metric rest = if flag then metric ∷ rest else rest

unfoldable pub enabled_availability_metrics : Target → List String
enabled_availability_metrics t =
    keep_if t.enable_http_check "http_up"
      (keep_if t.enable_ping "ping_up" (keep_if t.enable_tcp_connect "tcp_up" []))

unfoldable pub select_uptime_metric : Target → Option String
select_uptime_metric t =
    if t.enable_http_check
    then some "http_up"
    else if t.enable_ping
    then some "ping_up"
    else if t.enable_tcp_connect
    then some "tcp_up"
    else none

-- `(ts, metric, value)`, where the value is 1 or 0
pub record Event : Type 0 where
  pub ts : ℕ
  pub metric : String
  pub up : Bool

-- _CYCLE_WINDOW
abbrev pub cycle_window : ℕ
cycle_window = 2000

abbrev pub is_some {ℓ} : {A : Type ℓ} → Option A → Bool
is_some none = false
is_some (some a) = true

-- all(v == 1 for v in seen.values())
unfoldable pub all_up : Dict Bool → Bool
all_up [] = true
all_up ((metric, up) ∷ seen) = up && all_up seen

-- Whether an event ends the cycle that is open.
unfoldable pub closes : Option ℕ → Dict Bool → Event → Bool
closes none seen e = false
closes (some start) seen e = is_some (Dict.get e.metric seen) || ltb cycle_window (e.ts - start)

abbrev pub emit : Option ℕ → Dict Bool → List (ℕ × Bool)
emit none seen = []
emit (some start) seen = (start, all_up seen) ∷ []

abbrev pub or_start : Option ℕ → ℕ → ℕ
or_start none ts = ts
or_start (some start) ts = start

-- The loop, from the start of the open cycle and the metrics seen in it.
unfoldable pub combine_from : Option ℕ → Dict Bool → List Event → List (ℕ × Bool)
unfolding closes all_up
combine_from start seen [] = emit start seen
combine_from start seen (e ∷ es) =
    let ended = closes start seen e in
    let start' = or_start (if ended then none else start) e.ts in
    let seen' = Dict.put e.metric e.up (if ended then [] else seen) in
    (if ended then emit start seen else []) ++ combine_from (some start') seen' es

unfoldable pub combine_availability : List Event → List (ℕ × Bool)
unfolding combine_from
combine_availability events = combine_from none [] events

-- A stored point of a binary series within the window.
pub data Reading : Type 0 where
  value_0 value_1 other_value : Reading

pub record Point : Type 0 where
  pub at : ℕ
  pub value : Reading

abbrev pub count_value : Reading → ℕ × ℕ → ℕ × ℕ
count_value value_0 (ups, total) = (ups, total + 1)
count_value value_1 (ups, total) = (ups + 1, total + 1)
count_value other_value counts = counts

unfoldable pub count_points : List Point → ℕ × ℕ
count_points [] = (0, 0)
count_points (p ∷ ps) = count_value p.value (count_points ps)

abbrev pub event_if : String → ℕ → Reading → List Event → List Event
event_if metric at value_0 rest = record { ts = at; metric = metric; up = false } ∷ rest
event_if metric at value_1 rest = record { ts = at; metric = metric; up = true } ∷ rest
event_if metric at other_value rest = rest

unfoldable pub events_of : String → List Point → List Event
events_of metric [] = []
events_of metric (p ∷ ps) = event_if metric p.at p.value (events_of metric ps)

-- heapq.merge by time; of two events at one time, that of the earlier stream comes first
unfoldable pub merge : List Event → List Event → List Event
merge [] ys = ys
merge (x ∷ xs) [] = x ∷ xs
merge (x ∷ xs) (y ∷ ys) =
    let left = x ∷ merge xs (y ∷ ys) in
    let right = y ∷ merge (x ∷ xs) ys in if leb x.ts y.ts then left else right

unfoldable pub merge_all : List (List Event) → List Event
unfolding merge
merge_all [] = []
merge_all (s ∷ ss) = merge s (merge_all ss)

abbrev pub one_more : Bool → ℕ × ℕ → ℕ × ℕ
one_more up (ups, total) = (ups + (if up then 1 else 0), total + 1)

unfoldable pub count_samples : List (ℕ × Bool) → ℕ × ℕ
count_samples [] = (0, 0)
count_samples ((ts, up) ∷ samples) = one_more up (count_samples samples)

-- `series` has the points of each metric within the window, in the order of their times.
module _ (series : String → List Point) where
  unfoldable pub count_binary_points : String → ℕ × ℕ
  unfolding count_points
  count_binary_points metric = count_points (series metric)

  unfoldable pub streams : List String → List (List Event)
  unfolding events_of
  streams [] = []
  streams (m ∷ ms) = events_of m (series m) ∷ streams ms

  -- The general path of `count_availability`.
  unfoldable pub count_merged : List String → ℕ × ℕ
  unfolding merge_all combine_availability count_samples streams
  count_merged metrics = count_samples (combine_availability (merge_all (streams metrics)))

  unfoldable pub count_availability : List String → ℕ × ℕ
  unfolding count_binary_points count_merged
  count_availability (m ∷ []) = count_binary_points m
  count_availability [] = count_merged []
  count_availability (m ∷ n ∷ ms) = count_merged (m ∷ n ∷ ms)

-- The figures are in hundredths of a percent.
pub data Level : Type 0 where
  ok warn bad no_data : Level

-- An SLA that is enabled and has a goal decides alone.
abbrev pub goal_of : Bool → Option ℕ → Option ℕ
goal_of true goal = goal
goal_of false goal = none

unfoldable pub uptime_level : Option ℕ → Bool → Option ℕ → Level
uptime_level none sla_enabled goal = no_data
uptime_level (some uptime) sla_enabled goal = elim (goal_of sla_enabled goal) [
  | some g ↦ if leb g uptime then ok else bad
  | none ↦ if leb 9900 uptime then ok else if leb 9500 uptime then warn else bad
]
