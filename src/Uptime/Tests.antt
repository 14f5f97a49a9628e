-- ===== src/Uptime/Tests.antt =====
-- Check cycles and counts, and the theorems at them.
use justup.Prelude.{ℕ, String, ◌≡◌, refl, Bool, true, false, List, [], ◌∷◌}
use justup.Dict
use justup.Uptime.{
  Event, Point, value_0, value_1, other_value, closes, all_up, combine_availability,
  count_availability, count_merged,
}
use justup.Uptime.Cycles.{IsSplit, combine_availability-IsSplit}
use justup.Uptime.Single.{count_availability-merged}

abbrev at : ℕ → String → Bool → Event
at ts metric up = record { ts = ts; metric = metric; up = up }

-- Two cycles, the second of which lacks a metric.
abbrev events : List Event
events = at 5000 "http_up" true ∷ at 5000 "ping_up" false ∷ at 65000 "http_up" true ∷ []

two_samples : combine_availability events ≡ (5000, false) ∷ (65000, true) ∷ []
unfolding combine_availability closes all_up Dict.get Dict.put
two_samples = refl

combine_availability-IsSplit_example : IsSplit events (combine_availability events)
combine_availability-IsSplit_example = combine_availability-IsSplit events

abbrev points : List Point
points =
    record { at = 1; value = value_1 }
    ∷ record { at = 2; value = other_value }
    ∷ record { at = 3; value = value_0 }
    ∷ []

count_availability-merged_example :
    count_availability (λ m. points) ("ping_up" ∷ []) ≡ count_merged (λ m. points) ("ping_up" ∷ [])
count_availability-merged_example = count_availability-merged (λ m. points) "ping_up"
