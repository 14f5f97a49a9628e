-- ===== src/Availability/Tests.antt =====
-- Lines of points and their limits, and the theorems at them.
use justup.Prelude.{ℕ, ◌≡◌, refl, max, Bool, true, false, Option, none, some, List, [], ◌∷◌, arith}
use justup.Availability.{Observed, episodes_from, get_elem?, keep_last, limit_availability_points}
use justup.Availability.Indices.{Contains}
use justup.Availability.Limited.{IsLimited, limit_availability_points-IsLimited}
use justup.Availability.Covered.{needed, outages_shown}

abbrev at : ℕ → Option Bool → Observed
at ts up = record { ts = ts; up = up }

-- An outage, a state that flaps up, and a gap before the newest point
abbrev line : List Observed
line =
    at 0 (some true)
    ∷ at 1 (some false)
    ∷ at 2 (some true)
    ∷ at 3 (some true)
    ∷ at 4 (some true)
    ∷ at 5 none
    ∷ at 6 (some true)
    ∷ []

six_of_seven :
    limit_availability_points line 6
    ≡ some (
        at 0 (some true)
        ∷ at 1 (some false)
        ∷ at 2 (some true)
        ∷ at 4 (some true)
        ∷ at 5 none
        ∷ at 6 (some true)
        ∷ [])
unfolding limit_availability_points
six_of_seven = refl

newest_first :
    limit_availability_points line 4
    ≡ some (at 2 (some true) ∷ at 4 (some true) ∷ at 5 none ∷ at 6 (some true) ∷ [])
unfolding limit_availability_points
newest_first = refl

-- An episode of as many points as the limit, which does not reach the newest point, loses its outage.
abbrev early : List Observed
early = at 0 (some false) ∷ at 1 (some true) ∷ at 2 (some true) ∷ []

outage_cut : limit_availability_points early 2 ≡ some (at 1 (some true) ∷ at 2 (some true) ∷ [])
unfolding limit_availability_points
outage_cut = refl

limit_availability_points-IsLimited_example :
    IsLimited line (max 6 1) (limit_availability_points line 6)
limit_availability_points-IsLimited_example = limit_availability_points-IsLimited line 6

line_needs : needed line ≡ 6
unfolding needed episodes_from keep_last
line_needs = refl

second_point : get_elem? line 1 ≡ some (at 1 (some false))
unfolding get_elem?
second_point = refl

outages_shown_example :
    (shown : List Observed) × (limit_availability_points line 6 ≡ some shown)
    × Contains (at 1 (some false)) shown
outages_shown_example =
    outages_shown line 6 1 (at 1 (some false)) (rw line_needs (omega arith)) second_point refl
