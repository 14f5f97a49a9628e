-- ===== src/Availability/Kept.antt =====
-- What `_limit_availability_points` keeps (app/db/tsdb.py): few enough points, in their order.
use justup.Prelude.{
  ℕ, suc, ◌+◌, ◌-◌, ◌≤◌, ◌<◌, ◌≡◌, min, true, false, List, [], ◌∷◌, leb, length, arith, All,
  All-map, subst, ◌==◌, Bool-cases, inl, inr,
}
use justup.Availability.{
  Observed, Episode, add_episode, add_range, episodes_from, is_up, keep_episodes, keep_last,
  kept_indices, range_start,
}
use justup.Availability.Indices.{
  Indices, add_range-Indices, length-add_range, member, member-add_range, member-add_range-old,
}

-- The episodes of the points before index `i` + 1
abbrev pub Inside : ℕ → ℕ → Episode → Type 0
Inside last i e = (e.lo ≤ e.hi) × (e.hi ≤ last) × (e.hi ≤ i)

-- The two ends of an episode
abbrev pub Spans : ℕ → Episode → Type 0
Spans last e = (e.lo ≤ e.hi) × (e.hi ≤ last)

pub older : (last i : ℕ) (e : Episode) → Inside last i e → Inside last (suc i) e
older last i e (a, b, c) = (a, b, omega (arith, c))

pub add_episode-Inside :
    (last i : ℕ) (es : List Episode)
    → i ≤ last
    → All (Inside last i) es
    → All (Inside last (suc i)) (add_episode (i - 1) (min (i + 1) last) es)
unfolding add_episode
add_episode-Inside last i [] h a = ((omega (arith, h), omega arith, omega arith), tt)
add_episode-Inside last i (e ∷ es) h a =
    let rest = All-map (λ e h. older last i e h) es a.1 in
    let (p, q, r) = a.0 in
    elim (Bool-cases (leb (i - 1) (e.hi + 1))) [
      | inl near ↦ rw near ((omega (arith, p, q, r, h), omega arith, omega arith), rest)
      | inr far ↦ rw far ((omega (arith, h), omega arith, omega arith), (older last i e a.0, rest))
    ]

pub episodes_from-Inside :
    (last i : ℕ) (ps : List Observed) (es : List Episode)
    → i + length ps ≤ suc last
    → All (Inside last i) es
    → All (Spans last) (episodes_from last i ps es)
unfolding episodes_from
episodes_from-Inside last i [] es h a = All-map (λ e h. (h.0, h.1)) es a
episodes_from-Inside last i (p ∷ ps) es h a = elim (Bool-cases (is_up p)) [
  | inl u ↦ rw u (
      episodes_from-Inside last (suc i) ps es (omega (arith, h))
        (All-map (λ e h. older last i e h) es a))
  | inr d ↦ rw d (
      episodes_from-Inside last (suc i) ps (add_episode (i - 1) (min (i + 1) last) es)
        (omega (arith, h)) (add_episode-Inside last i es (omega (arith, h)) a))
]

range_start-le : (free : ℕ) (e : Episode) → e.hi + 1 - range_start free e ≤ free
unfolding range_start
range_start-le free e = ground arith

-- An episode adds to the set at most what is free, and not more than its own length.
length-episode :
    (free : ℕ) (e : Episode) (keep : List ℕ)
    → length (add_range (range_start free e) (e.hi + 1 - range_start free e) keep)
      ≤ free + length keep
length-episode free e keep = omega (
  arith,
  range_start-le free e,
  length-add_range (range_start free e) (e.hi + 1 - range_start free e) keep,
)

keep_episodes-length :
    (budget : ℕ) (es : List Episode) (keep : List ℕ)
    → length keep ≤ budget
    → length (keep_episodes budget es keep) ≤ budget
unfolding keep_episodes
keep_episodes-length budget [] keep h = h
keep_episodes-length budget (e ∷ es) keep h = elim (Bool-cases (leb (budget - length keep) 0)) [
  | inl full ↦ rw full h
  | inr free ↦ rw free (
      keep_episodes-length budget es _
        (omega (arith, h, length-episode (budget - length keep) e keep)))
]

keep_episodes-Indices :
    (budget n : ℕ) (es : List Episode) (keep : List ℕ)
    → All (λ e. e.hi < n) es
    → Indices 0 n keep
    → Indices 0 n (keep_episodes budget es keep)
unfolding keep_episodes
keep_episodes-Indices budget n [] keep a h = h
keep_episodes-Indices budget n (e ∷ es) keep a h =
    elim (Bool-cases (leb (budget - length keep) 0)) [
      | inl full ↦ rw full h
      | inr free ↦ rw free (
          keep_episodes-Indices budget n es _ (a.1) (
            add_range-Indices (range_start (budget - length keep) e)
              (e.hi + 1 - range_start (budget - length keep) e) n keep (omega (arith, a.0)) h))
    ]

pub keep_episodes-old :
    (budget i : ℕ) (es : List Episode) (keep : List ℕ)
    → member i keep ≡ true
    → member i (keep_episodes budget es keep) ≡ true
unfolding keep_episodes
keep_episodes-old budget i [] keep h = h
keep_episodes-old budget i (e ∷ es) keep h = elim (Bool-cases (leb (budget - length keep) 0)) [
  | inl full ↦ rw full h
  | inr free ↦ rw free (
      keep_episodes-old budget i es _ (
        member-add_range-old (range_start (budget - length keep) e)
          (e.hi + 1 - range_start (budget - length keep) e) i keep h))
]

keep_last-Indices : (last n : ℕ) (es : List Episode) → last < n → Indices 0 n (keep_last last es)
unfolding keep_last
keep_last-Indices last n [] h = (omega arith, h, tt)
keep_last-Indices last n (e ∷ es) h = ground (arith, h)

length-keep_last : (last : ℕ) (es : List Episode) → length (keep_last last es) ≤ 1
unfolding keep_last
length-keep_last last [] = omega arith
length-keep_last last (e ∷ es) = ground arith

range_start-hi : (free : ℕ) (e : Episode) → e.lo ≤ e.hi → 1 ≤ free → range_start free e ≤ e.hi
unfolding range_start
range_start-hi free e h f = ground (arith, h, f)

-- The newest index is kept, by itself or with the newest episode.
keep_first-hi :
    (budget : ℕ) (e : Episode) (es : List Episode)
    → 1 ≤ budget
    → e.lo ≤ e.hi
    → member e.hi (keep_episodes budget (e ∷ es) []) ≡ true
unfolding keep_episodes
keep_first-hi budget e es h l =
    let free = budget - 0 in
    let start = range_start free e in
    let in_range = range_start-hi free e l (omega (arith, h)) in
    let some_free : leb (budget - 0) 0 ≡ false = ground (arith, h) in
    rw some_free (
      keep_episodes-old budget e.hi es (add_range start (e.hi + 1 - start) [])
        (member-add_range start (e.hi + 1 - start) e.hi [] in_range (omega (arith, in_range))))

keep_episodes-last :
    (budget last : ℕ) (es : List Episode)
    → 1 ≤ budget
    → All (λ e. e.lo ≤ e.hi) es
    → member last (keep_episodes budget es (keep_last last es)) ≡ true
unfolding keep_last
keep_episodes-last budget last [] h a = keep_episodes-old budget last [] (last ∷ []) (ground arith)
keep_episodes-last budget last (e ∷ es) h a = elim (Bool-cases (e.hi == last)) [
  | inl same ↦ rw same (
      subst (λ i. member i (keep_episodes budget (e ∷ es) []) ≡ true) (ground (arith, same))
        (keep_first-hi budget e es h a.0))
  | inr other ↦ rw other (keep_episodes-old budget last (e ∷ es) (last ∷ []) (ground arith))
]

pub episodes_from-Spans :
    (ps : List Observed)
    → 1 ≤ length ps
    → All (Spans (length ps - 1)) (episodes_from (length ps - 1) 0 ps [])
episodes_from-Spans ps h = episodes_from-Inside (length ps - 1) 0 ps [] (omega (arith, h)) tt

pub kept_indices-Indices :
    (budget : ℕ) (ps : List Observed)
    → 1 ≤ length ps
    → Indices 0 (length ps) (kept_indices budget ps)
unfolding kept_indices
kept_indices-Indices budget ps h =
    let last = length ps - 1 in
    let episodes = episodes_from last 0 ps [] in
    keep_episodes-Indices budget (length ps) episodes (keep_last last episodes)
      (All-map (λ e s. omega (arith, h, s.1)) episodes (episodes_from-Spans ps h))
      (keep_last-Indices last (length ps) episodes (omega (arith, h)))

pub length-kept_indices :
    (budget : ℕ) (ps : List Observed) → 1 ≤ budget → length (kept_indices budget ps) ≤ budget
unfolding kept_indices
length-kept_indices budget ps h =
    let last = length ps - 1 in
    let episodes = episodes_from last 0 ps [] in
    keep_episodes-length budget episodes (keep_last last episodes)
      (omega (arith, h, length-keep_last last episodes))

pub kept_indices-last :
    (budget : ℕ) (ps : List Observed)
    → 1 ≤ budget
    → 1 ≤ length ps
    → member (length ps - 1) (kept_indices budget ps) ≡ true
unfolding kept_indices
kept_indices-last budget ps h n =
    let last = length ps - 1 in
    let episodes = episodes_from last 0 ps [] in
    keep_episodes-last budget last episodes h
      (All-map (λ e s. s.0) episodes (episodes_from-Spans ps n))
