-- ===== src/Availability.antt =====
-- The points of an availability line that are shown (app/db/tsdb.py, `_limit_availability_points`).
mod Indices
mod Kept
mod Limited
mod Covered
mod Tests
use justup.Prelude.{
  ℕ, zero, suc, ◌+◌, ◌-◌, min, max, Bool, true, false, Option, none, some, List, [], ◌∷◌, ltb, leb,
  ◌==◌, length, if◌then◌else◌,
}

-- `up` is none for a gap.
pub record Observed : Type 0 where
  pub ts : ℕ
  pub up : Option Bool

-- point.get("up") == 1
abbrev pub is_up : Observed → Bool
is_up p = elim p.up [ none ↦ false | some b ↦ b ]

-- The first and the last index of points that belong together
pub record Episode : Type 0 where
  pub lo : ℕ
  pub hi : ℕ

-- The newest episode is the first of the list.
unfoldable pub add_episode : ℕ → ℕ → List Episode → List Episode
add_episode lo hi [] = record { lo = lo; hi = hi } ∷ []
add_episode lo hi (e ∷ es) =
    if leb lo (e.hi + 1)
    then record { lo = e.lo; hi = hi } ∷ es
    else record { lo = lo; hi = hi } ∷ e ∷ es

-- The loop over the points, from index `i` on
unfoldable pub episodes_from : ℕ → ℕ → List Observed → List Episode → List Episode
unfolding add_episode
episodes_from last i [] episodes = episodes
episodes_from last i (p ∷ points) episodes =
    episodes_from last (suc i) points
      (if is_up p then episodes else add_episode (i - 1) (min (i + 1) last) episodes)

-- A set of indices, in ascending order
unfoldable pub add : ℕ → List ℕ → List ℕ
add i [] = i ∷ []
add i (j ∷ js) =
    let rest = add i js in if ltb i j then i ∷ j ∷ js else if i == j then j ∷ js else j ∷ rest

-- keep.update(range(lo, lo + n))
unfoldable pub add_range : ℕ → ℕ → List ℕ → List ℕ
unfolding add
add_range lo zero keep = keep
add_range lo (suc n) keep = add_range (suc lo) n (add lo keep)

-- Where the kept part of an episode begins: an oversized one keeps its newest points.
unfoldable pub range_start : ℕ → Episode → ℕ
range_start free e = if ltb free (e.hi + 1 - e.lo) then max e.lo (e.hi + 1 - free) else e.lo

unfoldable pub keep_episodes : ℕ → List Episode → List ℕ → List ℕ
unfolding range_start add_range
keep_episodes budget [] keep = keep
keep_episodes budget (e ∷ es) keep =
    let free = budget - length keep in
    let start = range_start free e in
    let more = keep_episodes budget es (add_range start (e.hi + 1 - start) keep) in
    if leb free 0 then keep else more

-- The most recent observation is kept where no episode reaches it.
unfoldable pub keep_last : ℕ → List Episode → List ℕ
keep_last last [] = last ∷ []
keep_last last (e ∷ es) = if e.hi == last then [] else last ∷ []

unfoldable pub get_elem? : List Observed → ℕ → Option Observed
get_elem? [] i = none
get_elem? (p ∷ points) zero = some p
get_elem? (p ∷ points) (suc i) = get_elem? points i

abbrev pub cons_if : Option Observed → Option (List Observed) → Option (List Observed)
cons_if none ps = none
cons_if (some p) none = none
cons_if (some p) (some ps) = some (p ∷ ps)

-- [points[i] for i in sorted(keep)], where `none` is an `IndexError`
unfoldable pub pick : List Observed → List ℕ → Option (List Observed)
unfolding get_elem?
pick points [] = some []
pick points (i ∷ keep) = cons_if (get_elem? points i) (pick points keep)

unfoldable pub kept_indices : ℕ → List Observed → List ℕ
unfolding episodes_from keep_last keep_episodes
kept_indices budget points =
    let last = length points - 1 in
    let episodes = episodes_from last 0 points [] in
    keep_episodes budget episodes (keep_last last episodes)

unfoldable pub limit_availability_points : List Observed → ℕ → Option (List Observed)
unfolding kept_indices pick
limit_availability_points points limit =
    let budget = max limit 1 in
    if leb (length points) budget then some points else pick points (kept_indices budget points)
