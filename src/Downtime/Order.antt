-- ===== src/Downtime/Order.antt =====
-- How the periods of `query_downtime_periods` (app/db/tsdb.py) lie to each other.
use justup.Prelude.{
  ℕ, zero, suc, ◌-◌, ◌/◌, ◌≤◌, ◌<◌, ◌≡◌, refl, none, some, List, [], ◌∷◌, ◌++◌, leb, take, reverse,
  arith, All, All-append, All-map, Bool-cases, inl, inr, ◌⊎◌, leb→le,
}
use mathlib.Core.List.{reverse-cons}
use justup.Downtime.{
  Metric, http_up, ping_up, tcp_up, Point, States, Row, Failed, DowntimePeriod, update, failed_now,
  any_failed, add_states, add_points, state_of, close_period, ongoing_period, scan, timeline,
  none_failed, query_downtime_periods,
}
use justup.Downtime.Outages.{scan-down, scan-first, scan-up}

-- A period that goes on has neither end nor duration; another has lasted at least `least` seconds.
abbrev pub IsPeriod : ℕ → DowntimePeriod → Type 0
IsPeriod least p =
    ((p.end ≡ none) × (p.duration_seconds ≡ none))
    ⊎ ((e : ℕ) × (p.end ≡ some e)
        × (p.start < e)
        × (p.duration_seconds ≡ some ((e - p.start) / 1000000))
        × (least ≤ (e - p.start) / 1000000))

abbrev pub EndsBefore : DowntimePeriod → DowntimePeriod → Type 0
EndsBefore q p = (e : ℕ) × (q.end ≡ some e) × (e < p.start)

-- Of two periods, the later one in the list has ended before the other began.
abbrev pub NewestFirst : List DowntimePeriod → Type 0
NewestFirst [] = Unit
NewestFirst (p ∷ ps) = All (λ q. EndsBefore q p) ps × NewestFirst ps

abbrev OldestFirst : List DowntimePeriod → Type 0
OldestFirst [] = Unit
OldestFirst (p ∷ ps) = All (λ q. EndsBefore p q) ps × OldestFirst ps

abbrev Ascending : ℕ → List Row → Type 0
Ascending lo [] = Unit
Ascending lo (r ∷ rs) = (lo ≤ r.at) × Ascending (suc r.at) rs

Ascending-le : (lo lo' : ℕ) (rs : List Row) → lo ≤ lo' → Ascending lo' rs → Ascending lo rs
Ascending-le lo lo' [] h a = tt
Ascending-le lo lo' (r ∷ rs) h a = (omega (arith, h, a.0), a.1)

add_states-Ascending :
    (ts : ℕ) (s : States) (lo : ℕ) (rs : List Row)
    → lo ≤ ts
    → Ascending lo rs
    → Ascending lo (add_states ts s rs)
unfolding add_states
add_states-Ascending ts s lo [] h a = (h, tt)
add_states-Ascending ts s lo (r ∷ rs) h a =
    ground (arith, h, a.0, a.1, add_states-Ascending ts s (suc r.at) rs)

add_points-Ascending :
    (m : Metric) (ps : List Point) (rs : List Row)
    → Ascending 0 rs
    → Ascending 0 (add_points m ps rs)
unfolding add_points
add_points-Ascending m [] rs a = a
add_points-Ascending m (p ∷ ps) rs a =
    add_points-Ascending m ps (add_states p.ts (state_of m p.is_up) rs)
      (add_states-Ascending p.ts (state_of m p.is_up) 0 rs (omega arith) a)

timeline-Ascending : (series : Metric → List Point) → Ascending 0 (timeline series)
unfolding timeline
timeline-Ascending series = add_points-Ascending tcp_up (series tcp_up) _ (
    add_points-Ascending ping_up (series ping_up) _
      (add_points-Ascending http_up (series http_up) [] tt))

-- The periods of a part of the times, none of which begins before `lo`
record Good (least : ℕ) (lo : ℕ) (ps : List DowntimePeriod) : Type 0 where
  pub since : All (λ p. lo ≤ p.start) ps
  pub ordered : OldestFirst ps
  pub each : All (IsPeriod least) ps

Good-le :
    (least : ℕ) (lo lo' : ℕ) (ps : List DowntimePeriod)
    → lo ≤ lo'
    → Good least lo' ps
    → Good least lo ps
Good-le least lo lo' ps h g = record {
  since = All-map (λ p l. omega (arith, h, l)) ps g.since;
  ordered = g.ordered;
  each = g.each;
}

close_period-Good :
    (least start : ℕ) (f : Failed) (ts : ℕ) (ps : List DowntimePeriod)
    → start < ts
    → Good least (suc ts) ps
    → Good least start (close_period least (some start) f ts ++ ps)
unfolding close_period
close_period-Good least start f ts ps h g = elim (Bool-cases (leb least ((ts - start) / 1000000))) [
  | inr short ↦ rw short (Good-le least start (suc ts) ps (omega (arith, h)) g)
  | inl long ↦ rw long record {
    since = (omega arith, (Good-le least start (suc ts) ps (omega (arith, h)) g).since);
    ordered = (All-map (λ p l. (ts, refl, l)) ps g.since, g.ordered);
    each = (inr (ts, refl, h, refl, leb→le _ _ long), g.each);
  }
]

abbrev Closed : ℕ → List Row → Type 0
Closed least rs =
    (lo : ℕ) (last : States) → Ascending lo rs → Good least lo (scan least none none_failed last rs)

abbrev Open : ℕ → List Row → Type 0
Open least rs =
    (start : ℕ) (f : Failed) (last : States)
    → Ascending (suc start) rs
    → Good least start (scan least (some start) f last rs)

Closed-cons :
    (least : ℕ) (r : Row) (rs : List Row) → Closed least rs → Open least rs → Closed least (r ∷ rs)
unfolding close_period
Closed-cons least r rs c o lo last a =
    elim (Bool-cases (any_failed (failed_now (update r.states last)))) [
      | inl d ↦
          rw (scan-first least none_failed last r rs d)
            (Good-le least lo r.at _ a.0 (o r.at _ (update r.states last) a.1))
      | inr u ↦ rw (scan-up least none none_failed last r rs u) (
          Good-le least lo (suc r.at) _ (omega (arith, a.0))
            (c (suc r.at) (update r.states last) a.1))
    ]

Open-cons :
    (least : ℕ) (r : Row) (rs : List Row) → Closed least rs → Open least rs → Open least (r ∷ rs)
Open-cons least r rs c o start f last a =
    elim (Bool-cases (any_failed (failed_now (update r.states last)))) [
      | inl d ↦ rw (scan-down least start f last r rs d) (
          o start _ (update r.states last)
            (Ascending-le (suc start) (suc r.at) rs (omega (arith, a.0)) a.1))
      | inr u ↦
          rw (scan-up least (some start) f last r rs u)
            (close_period-Good least start f r.at _ a.0 (c (suc r.at) (update r.states last) a.1))
    ]

scan-Good : (least : ℕ) (rs : List Row) → Closed least rs × Open least rs
unfolding scan ongoing_period
scan-Good least [] = (
  λ lo last a. record { since = tt; ordered = tt; each = tt },
  λ start f last a. record {
    since = (omega arith, tt);
    ordered = (tt, tt);
    each = (inl (refl, refl), tt);
  },
)
scan-Good least (r ∷ rs) =
    let next = scan-Good least rs in
    (Closed-cons least r rs next.0 next.1, Open-cons least r rs next.0 next.1)

-- The result
NewestFirst-append :
    (ps : List DowntimePeriod) (p : DowntimePeriod)
    → NewestFirst ps
    → All (λ q. EndsBefore p q) ps
    → NewestFirst (ps ++ p ∷ [])
NewestFirst-append [] p n h = (tt, tt)
NewestFirst-append (q ∷ ps) p n h =
    (All-append (λ x. EndsBefore x q) ps (p ∷ []) n.0 (h.0, tt), NewestFirst-append ps p n.1 h.1)

All-reverse {ℓ} : {A : Type ℓ} (P : A → Type 0) (xs : List A) → All P xs → All P (reverse xs)
All-reverse P [] h = tt
All-reverse P (x ∷ xs) h =
    rw (reverse-cons x xs) (All-append P (reverse xs) (x ∷ []) (All-reverse P xs h.1) (h.0, tt))

reverse-NewestFirst : (ps : List DowntimePeriod) → OldestFirst ps → NewestFirst (reverse ps)
reverse-NewestFirst [] h = tt
reverse-NewestFirst (p ∷ ps) h =
    rw (reverse-cons p ps)
      (NewestFirst-append (reverse ps) p (reverse-NewestFirst ps h.1) (All-reverse _ ps h.0))

All-take {ℓ} : {A : Type ℓ} (P : A → Type 0) (n : ℕ) (xs : List A) → All P xs → All P (take n xs)
All-take P zero xs h = tt
All-take P (suc n) [] h = tt
All-take P (suc n) (x ∷ xs) h = (h.0, All-take P n xs h.1)

take-NewestFirst : (n : ℕ) (ps : List DowntimePeriod) → NewestFirst ps → NewestFirst (take n ps)
take-NewestFirst zero ps h = tt
take-NewestFirst (suc n) [] h = tt
take-NewestFirst (suc n) (p ∷ ps) h = (All-take _ n ps h.0, take-NewestFirst n ps h.1)

-- Whatever the points of the window are and in whatever order they are read: of two periods, the one
-- that comes later in the result has ended before the other began, so that only the first can
-- go on; one that has ended did so after it began, has its length in seconds, and lasted at
-- least the least duration.
pub query_downtime_periods-NewestFirst :
    (series : Metric → List Point) (before : States) (limit least : ℕ)
    → NewestFirst (query_downtime_periods series before limit least)
      × All (IsPeriod least) (query_downtime_periods series before limit least)
unfolding query_downtime_periods
query_downtime_periods-NewestFirst series before limit least =
    let g = (scan-Good least (timeline series)).0 0 before (timeline-Ascending series) in
    (
      take-NewestFirst limit _ (reverse-NewestFirst _ g.ordered),
      All-take _ limit _ (All-reverse _ _ g.each),
    )
