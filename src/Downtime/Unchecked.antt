-- ===== src/Downtime/Unchecked.antt =====
-- A check that was down and is no longer made (app/db/tsdb.py, `query_downtime_periods`).
use justup.Prelude.{
  ℕ, zero, suc, ◌<◌, ◌≡◌, refl, ap, Bool, true, false, Option, none, some, List, [], ◌∷◌, reverse,
  take, length, arith, All,
}
use justup.Downtime.{
  Metric, http_up, ping_up, tcp_up, Point, States, Row, Failed, DowntimePeriod, update, failed_now,
  any_failed, add_states, add_points, state_of, ongoing_period, scan, timeline, none_failed,
  query_downtime_periods,
}
use justup.Downtime.Outages.{scan-down, scan-first}

abbrev pub known : Metric → States → Option Bool
known http_up s = s.http
known ping_up s = s.ping
known tcp_up s = s.tcp

abbrev Lacks : Metric → List Row → Type 0
Lacks m rows = All (λ r. known m r.states ≡ none) rows

update-none : (m : Metric) (s t : States) → known m s ≡ none → known m (update s t) ≡ known m t
unfolding update
update-none http_up s t h = rw h
update-none ping_up s t h = rw h
update-none tcp_up s t h = rw h

known_down-failed :
    (m : Metric) (s : States) → known m s ≡ some false → any_failed (failed_now s) ≡ true
unfolding any_failed failed_now
known_down-failed http_up s h = rw h
known_down-failed ping_up s h = ground (arith, h)
known_down-failed tcp_up s h = ground (arith, h)

add_states-Lacks :
    (m : Metric) (ts : ℕ) (s : States) (rows : List Row)
    → known m s ≡ none
    → Lacks m rows
    → Lacks m (add_states ts s rows)
unfolding add_states
add_states-Lacks m ts s [] h l = (h, tt)
add_states-Lacks m ts s (r ∷ rs) h l =
    ground (arith, h, l.0, l.1, update-none m s r.states h, add_states-Lacks m ts s rs h l.1)

add_points-Lacks :
    (m m' : Metric) (ps : List Point) (rows : List Row)
    → ((b : Bool) → known m (state_of m' b) ≡ none)
    → Lacks m rows
    → Lacks m (add_points m' ps rows)
unfolding add_points
add_points-Lacks m m' [] rows h l = l
add_points-Lacks m m' (p ∷ ps) rows h l =
    add_points-Lacks m m' ps (add_states p.ts (state_of m' p.is_up) rows) h
      (add_states-Lacks m p.ts (state_of m' p.is_up) rows (h p.is_up) l)

timeline-Lacks :
    (series : Metric → List Point) (m : Metric) → series m ≡ [] → Lacks m (timeline series)
unfolding timeline add_points
timeline-Lacks series http_up h = rw h (
    add_points-Lacks http_up tcp_up (series tcp_up) _ (λ b. refl)
      (add_points-Lacks http_up ping_up (series ping_up) [] (λ b. refl) tt))
timeline-Lacks series ping_up h = rw h (
    add_points-Lacks ping_up tcp_up (series tcp_up) _ (λ b. refl)
      (add_points-Lacks ping_up http_up (series http_up) [] (λ b. refl) tt))
timeline-Lacks series tcp_up h = rw h (
    add_points-Lacks tcp_up ping_up (series ping_up) _ (λ b. refl)
      (add_points-Lacks tcp_up http_up (series http_up) [] (λ b. refl) tt))

-- A timeline with a point is not empty.
add_states-length : (ts : ℕ) (s : States) (rows : List Row) → 0 < length (add_states ts s rows)
unfolding add_states
add_states-length ts s [] = ground arith
add_states-length ts s (r ∷ rs) = ground arith

add_points-length :
    (m : Metric) (ps : List Point) (rows : List Row)
    → 0 < length rows
    → 0 < length (add_points m ps rows)
unfolding add_points
add_points-length m [] rows h = h
add_points-length m (p ∷ ps) rows h =
    add_points-length m ps (add_states p.ts (state_of m p.is_up) rows)
      (add_states-length p.ts (state_of m p.is_up) rows)

first_point :
    (m : Metric) (p : Point) (ps : List Point) (rows : List Row)
    → 0 < length (add_points m (p ∷ ps) rows)
unfolding add_points
first_point m p ps rows =
    add_points-length m ps (add_states p.ts (state_of m p.is_up) rows)
      (add_states-length p.ts (state_of m p.is_up) rows)

timeline-length :
    (series : Metric → List Point) (m : Metric) (p : Point) (ps : List Point)
    → series m ≡ p ∷ ps
    → 0 < length (timeline series)
unfolding timeline
timeline-length series http_up p ps h = rw h (
    add_points-length tcp_up (series tcp_up) _
      (add_points-length ping_up (series ping_up) _ (first_point http_up p ps [])))
timeline-length series ping_up p ps h =
    rw h (add_points-length tcp_up (series tcp_up) _ (first_point ping_up p ps _))
timeline-length series tcp_up p ps h = rw h (first_point tcp_up p ps _)

-- One period, which goes on
abbrev pub IsOngoing : List DowntimePeriod → Type 0
IsOngoing ps = (p : DowntimePeriod) × (ps ≡ p ∷ []) × (p.end ≡ none)

scan-open-IsOngoing :
    (least : ℕ) (m : Metric) (start : ℕ) (f : Failed) (last : States) (rows : List Row)
    → known m last ≡ some false
    → Lacks m rows
    → IsOngoing (scan least (some start) f last rows)
unfolding scan ongoing_period
scan-open-IsOngoing least m start f last [] h l = (_, refl, refl)
scan-open-IsOngoing least m start f last (r ∷ rs) h l =
    let h' : known m (update r.states last) ≡ some false = rw (update-none m r.states last l.0) h in
    rw (scan-down least start f last r rs (known_down-failed m (update r.states last) h'))
      (scan-open-IsOngoing least m start _ (update r.states last) rs h' l.1)

scan-IsOngoing :
    (least : ℕ) (m : Metric) (last : States) (rows : List Row)
    → 0 < length rows
    → known m last ≡ some false
    → Lacks m rows
    → IsOngoing (scan least none none_failed last rows)
scan-IsOngoing least m last [] n h l = ground (arith, n)
scan-IsOngoing least m last (r ∷ rs) n h l =
    let h' : known m (update r.states last) ≡ some false = rw (update-none m r.states last l.0) h in
    rw (scan-first least none_failed last r rs (known_down-failed m (update r.states last) h'))
      (scan-open-IsOngoing least m r.at _ (update r.states last) rs h' l.1)

take-nil : (n : ℕ) → take {A = DowntimePeriod} n [] ≡ []
take-nil zero = refl
take-nil (suc n) = refl

take-IsOngoing :
    (limit : ℕ) (ps : List DowntimePeriod)
    → IsOngoing ps
    → IsOngoing (take (suc limit) (reverse ps))
take-IsOngoing limit ps h = rw (h.1) (h.0, ap (λ ps. h.0 ∷ ps) (take-nil limit), h.2)

-- A check that was down before the window and has no point in it, as one that was switched off since,
-- leaves the target down: whatever the points of another check say, the result is one period that
-- goes on.
pub unchecked_stays_down :
    (series : Metric → List Point) (before : States) (limit least : ℕ) (m m' : Metric) (p : Point)
    (ps : List Point)
    → known m before ≡ some false
    → series m ≡ []
    → series m' ≡ p ∷ ps
    → IsOngoing (query_downtime_periods series before (suc limit) least)
unfolding query_downtime_periods
unchecked_stays_down series before limit least m m' p ps down no_points points =
    take-IsOngoing limit _ (
      scan-IsOngoing least m before (timeline series) (timeline-length series m' p ps points) down
        (timeline-Lacks series m no_points))
