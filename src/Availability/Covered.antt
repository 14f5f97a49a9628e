-- ===== src/Availability/Covered.antt =====
-- The outages that `_limit_availability_points` keeps (app/db/tsdb.py).
use justup.Prelude.{
  ℕ, zero, suc, ◌+◌, ◌-◌, ◌≤◌, ◌≡◌, refl, sym, min, max, Bool, true, false, ◌&&◌, ◌||◌, some, List,
  [], ◌∷◌, leb, length, arith, All, All-map, Bool-cases, inl, inr, subst,
}
use justup.Availability.{
  Episode, Observed, add_episode, add_range, episodes_from, get_elem?, is_up, keep_episodes,
  keep_last, kept_indices, limit_availability_points, range_start,
}
use justup.Availability.Indices.{
  Contains, length-add_range, member, member-add_range, pick-Contains, pick-Sublist,
}
use justup.Availability.Kept.{
  Inside, kept_indices-Indices, keep_episodes-old, older, add_episode-Inside,
}

abbrev pub size : Episode → ℕ
size e = e.hi + 1 - e.lo

abbrev pub sizes : List Episode → ℕ
sizes [] = 0
sizes (e ∷ es) = size e + sizes es

abbrev covers : ℕ → Episode → Bool
covers k e = leb e.lo k && leb k e.hi

abbrev covered : ℕ → List Episode → Bool
covered k [] = false
covered k (e ∷ es) = covers k e || covered k es

covered-sizes : (k : ℕ) (es : List Episode) → covered k es ≡ true → 1 ≤ sizes es
covered-sizes k [] h = ground (arith, h)
covered-sizes k (e ∷ es) h = ground (arith, h, covered-sizes k es)

-- A new episode, joined to the newest one or not, covers its index and what was covered.
add_episode-covered :
    (last i : ℕ) (es : List Episode)
    → i ≤ last
    → All (Inside last i) es
    → covered i (add_episode (i - 1) (min (i + 1) last) es) ≡ true
unfolding add_episode
add_episode-covered last i [] h a = ground (arith, h)
add_episode-covered last i (e ∷ es) h a = ground (arith, h, a.0)

add_episode-covered-old :
    (last i k : ℕ) (es : List Episode)
    → i ≤ last
    → All (Inside last i) es
    → covered k es ≡ true
    → covered k (add_episode (i - 1) (min (i + 1) last) es) ≡ true
unfolding add_episode
add_episode-covered-old last i k [] h a c = ground (arith, c)
add_episode-covered-old last i k (e ∷ es) h a c = ground (arith, h, a.0, c)

episodes_from-covered-old :
    (last i k : ℕ) (ps : List Observed) (es : List Episode)
    → i + length ps ≤ suc last
    → All (Inside last i) es
    → covered k es ≡ true
    → covered k (episodes_from last i ps es) ≡ true
unfolding episodes_from
episodes_from-covered-old last i k [] es h a c = c
episodes_from-covered-old last i k (p ∷ ps) es h a c = elim (Bool-cases (is_up p)) [
  | inl u ↦ rw u (
      episodes_from-covered-old last (suc i) k ps es (omega (arith, h))
        (All-map (λ e h. older last i e h) es a) c)
  | inr d ↦
      let i-le : i ≤ last = omega (arith, h) in
      rw d (
        episodes_from-covered-old last (suc i) k ps (add_episode (i - 1) (min (i + 1) last) es)
          (omega (arith, h)) (add_episode-Inside last i es i-le a)
          (add_episode-covered-old last i k es i-le a c))
]

episodes_from-covered :
    (last i k : ℕ) (ps : List Observed) (es : List Episode) (p : Observed)
    → i + length ps ≤ suc last
    → All (Inside last i) es
    → get_elem? ps k ≡ some p
    → is_up p ≡ false
    → covered (i + k) (episodes_from last i ps es) ≡ true
unfolding episodes_from get_elem?
episodes_from-covered last i k [] es p h a g d = ground (arith, g)
episodes_from-covered last i zero (q ∷ ps) es p h a g d =
    let same : q ≡ p = ground (arith, g) in
    let down : is_up q ≡ false = subst (λ x. is_up x ≡ false) (sym same) d in
    let i-le : i ≤ last = omega (arith, h) in
    let es' = add_episode (i - 1) (min (i + 1) last) es in
    rw down (
      subst (λ n. covered n (episodes_from last (suc i) ps es') ≡ true) (omega arith)
        (episodes_from-covered-old last (suc i) i ps es' (omega (arith, h))
          (add_episode-Inside last i es i-le a) (add_episode-covered last i es i-le a)))
episodes_from-covered last i (suc k) (q ∷ ps) es p h a g d = elim (Bool-cases (is_up q)) [
  | inl u ↦ rw u (
      subst (λ n. covered n (episodes_from last (suc i) ps es) ≡ true) (omega arith)
        (episodes_from-covered last (suc i) k ps es p (omega (arith, h))
          (All-map (λ e h. older last i e h) es a) g d))
  | inr n ↦
      let es' = add_episode (i - 1) (min (i + 1) last) es in
      rw n (
        subst (λ n. covered n (episodes_from last (suc i) ps es') ≡ true) (omega arith)
          (episodes_from-covered last (suc i) k ps es' p (omega (arith, h))
            (add_episode-Inside last i es (omega (arith, h)) a) g d))
]

-- An episode that fits is kept as a whole.
range_start-lo : (free : ℕ) (e : Episode) → size e ≤ free → range_start free e ≡ e.lo
unfolding range_start
range_start-lo free e h = ground (arith, h)

keep_episodes-covered :
    (budget k : ℕ) (es : List Episode) (keep : List ℕ)
    → sizes es + length keep ≤ budget
    → covered k es ≡ true
    → member k (keep_episodes budget es keep) ≡ true
unfolding keep_episodes
keep_episodes-covered budget k [] keep h c = ground (arith, c)
keep_episodes-covered budget k (e ∷ es) keep h c =
    let fits : size e ≤ budget - length keep = omega (arith, h) in
    let next = add_range e.lo (size e) keep in
    let free : leb (budget - length keep) 0 ≡ false =
      ground (arith, h, covered-sizes k (e ∷ es) c) in
    rw (free, range_start-lo (budget - length keep) e fits)
      (elim (Bool-cases (covers k e)) [
        | inl here ↦
            keep_episodes-old budget k es next
              (member-add_range e.lo (size e) k keep (ground (arith, here)) (ground (arith, here)))
        | inr other ↦
            keep_episodes-covered budget k es next
              (omega (arith, h, length-add_range e.lo (size e) keep)) (ground (arith, c, other))
      ])

get_elem?-length :
    (ps : List Observed) (k : ℕ) (p : Observed) → get_elem? ps k ≡ some p → 1 ≤ length ps
unfolding get_elem?
get_elem?-length [] k p g = ground (arith, g)
get_elem?-length (q ∷ ps) k p g = omega arith

-- How many points have to be kept: those of all episodes, and the newest point
unfoldable pub needed : List Observed → ℕ
needed points =
    let last = length points - 1 in
    let episodes = episodes_from last 0 points [] in
    sizes episodes + length (keep_last last episodes)

kept_indices-down :
    (budget k : ℕ) (points : List Observed) (p : Observed)
    → needed points ≤ budget
    → get_elem? points k ≡ some p
    → is_up p ≡ false
    → member k (kept_indices budget points) ≡ true
unfolding kept_indices needed
kept_indices-down budget k points p h g d =
    let last = length points - 1 in
    let episodes = episodes_from last 0 points [] in
    keep_episodes-covered budget k episodes (keep_last last episodes) h (
      subst (λ n. covered n episodes ≡ true) (omega arith)
        (episodes_from-covered last 0 k points [] p (omega (arith, get_elem?-length points k p g))
          tt g d))

-- Where the limit allows for the points of all episodes and for the newest point, every point that
-- is down or a gap is shown.
pub outages_shown :
    (points : List Observed) (limit k : ℕ) (p : Observed)
    → needed points ≤ max limit 1
    → get_elem? points k ≡ some p
    → is_up p ≡ false
    → (shown : List Observed) × (limit_availability_points points limit ≡ some shown)
      × Contains p shown
unfolding limit_availability_points
outages_shown points limit k p h g d = elim (Bool-cases (leb (length points) (max limit 1))) [
  | inl few ↦ rw few (points, refl, (k, g))
  | inr many ↦
      let (shown, answered, ordered, same) =
        pick-Sublist 0 points (kept_indices (max limit 1) points)
          (kept_indices-Indices (max limit 1) points (get_elem?-length points k p g)) in
      rw many (
        shown,
        answered,
        pick-Contains points (kept_indices (max limit 1) points) shown k p answered
            (kept_indices-down (max limit 1) k points p h g d) g,
      )
]
