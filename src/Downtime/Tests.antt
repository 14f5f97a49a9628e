-- ===== src/Downtime/Tests.antt =====
-- Points, downtimes, and the theorems at them.
use justup.Prelude.{ℕ, ◌≡◌, refl, Bool, true, false, some, none, List, [], ◌∷◌, All}
use justup.Downtime.{
  Metric, http_up, ping_up, tcp_up, Point, States, failed_labels, timeline, query_downtime_periods,
}
use justup.Downtime.Outages.{samples, IsHistory, query_downtime_periods-IsHistory}
use justup.Downtime.Order.{NewestFirst, IsPeriod, query_downtime_periods-NewestFirst}
use justup.Downtime.Unchecked.{IsOngoing, unchecked_stays_down}

abbrev point : ℕ → Bool → Point
point ts b = record { ts = ts; is_up = b }

abbrev unknown : States
unknown = record { http = none; ping = none; tcp = none }

abbrev ping_down : States
ping_down = record { http = some true; ping = some false; tcp = none }

-- HTTP fails from 60 s to 180 s and again from 240 s on, ping only at 120 s.
abbrev series : Metric → List Point
series http_up =
    point 0 true ∷ point 60000000 false ∷ point 180000000 true ∷ point 240000000 false ∷ []
series ping_up = point 120000000 false ∷ point 180000000 true ∷ []
series tcp_up = []

abbrev only_http : Metric → List Point
only_http http_up = point 60000000 true ∷ point 120000000 true ∷ []
only_http ping_up = []
only_http tcp_up = []

two_periods :
    query_downtime_periods series unknown 20 60
    ≡ record {
      start = 240000000;
      end = none;
      duration_seconds = none;
      failed_services = "HTTP" ∷ [];
    }
      ∷ record {
        start = 60000000;
        end = some 180000000;
        duration_seconds = some 120;
        failed_services = "HTTP" ∷ "Ping" ∷ [];
      }
      ∷ []
unfolding query_downtime_periods failed_labels
two_periods = refl

query_downtime_periods-IsHistory_example :
    IsHistory 60 20
      (samples unknown (timeline series))
      (query_downtime_periods series unknown 20 60)
query_downtime_periods-IsHistory_example = query_downtime_periods-IsHistory series unknown 20 60

query_downtime_periods-NewestFirst_example :
    NewestFirst (query_downtime_periods series unknown 20 60)
    × All (IsPeriod 60) (query_downtime_periods series unknown 20 60)
query_downtime_periods-NewestFirst_example = query_downtime_periods-NewestFirst series unknown 20 60

unchecked_stays_down_example : IsOngoing (query_downtime_periods only_http ping_down 20 60)
unchecked_stays_down_example =
    unchecked_stays_down only_http ping_down 19 60 ping_up http_up (point 60000000 true)
      (point 120000000 true ∷ []) refl refl refl
