-- ===== src/Uptime/Cycles.antt =====
-- The samples of `combine_availability` against the check cycles that they stand for
-- (app/utils/uptime_metric.py).
use justup.Prelude.{
  ℕ, ◌-◌, ◌≤◌, String, ◌≡◌, refl, ap, ◌∙◌, Bool, true, false, ◌&&◌, ◌||◌, some, List, [], ◌∷◌, ◌++◌,
  ltb, map, append_assoc, arith, All, All-append, Bool-cases, inl, inr, str_eq, eq_iff,
}
use justup.Dict
use justup.Dict.{Dict}
use justup.Uptime.{Event, is_some, all_up, closes, combine_from, combine_availability, cycle_window}

-- What the loop has seen of the events of a cycle.
abbrev seen_of : List Event → Dict Bool
seen_of [] = []
seen_of (e ∷ es) = (e.metric, e.up) ∷ seen_of es

abbrev pub has_metric : String → List Event → Bool
has_metric m [] = false
has_metric m (e ∷ es) = str_eq e.metric m || has_metric m es

abbrev pub Distinct : List Event → Type 0
Distinct [] = Unit
Distinct (e ∷ es) = (has_metric e.metric es ≡ false) × Distinct es

abbrev pub all_events_up : List Event → Bool
all_events_up [] = true
all_events_up (e ∷ es) = e.up && all_events_up es

-- A cycle is its first event and the others.
pub record Cycle : Type 0 where
  pub first : Event
  pub others : List Event

abbrev pub events_in : Cycle → List Event
events_in c = c.first ∷ c.others

abbrev pub concat : List Cycle → List Event
concat [] = []
concat (c ∷ cs) = events_in c ++ concat cs

-- One point of each metric, none more than two seconds after the first.
pub record IsCycle (c : Cycle) : Type 0 where
  pub distinct : Distinct (events_in c)
  pub close_by : All (λ e. (e.ts - c.first.ts) ≤ cycle_window) c.others

-- The next cycle begins where its first event does not fit into the one before.
abbrev pub ends_before : Cycle → Event → Bool
ends_before c e = has_metric e.metric (events_in c) || ltb cycle_window (e.ts - c.first.ts)

abbrev pub Chained : List Cycle → Type 0
Chained [] = Unit
Chained (c ∷ []) = Unit
Chained (c ∷ d ∷ cs) = (ends_before c d.first ≡ true) × Chained (d ∷ cs)

abbrev pub sample_of : Cycle → ℕ × Bool
sample_of c = (c.first.ts, all_events_up (events_in c))

pub record IsSplit (events : List Event) (samples : List (ℕ × Bool)) : Type 0 where
  pub cycles : List Cycle
  pub whole : concat cycles ≡ events
  pub each : All IsCycle cycles
  pub chained : Chained cycles
  pub sampled : samples ≡ map sample_of cycles

has_metric-seen :
    (m : String) (es : List Event) → is_some (Dict.get m (seen_of es)) ≡ has_metric m es
unfolding Dict.get
has_metric-seen m [] = refl
has_metric-seen m (e ∷ es) = ground (arith, has_metric-seen m es)

all_up-seen : (es : List Event) → all_up (seen_of es) ≡ all_events_up es
unfolding all_up
all_up-seen [] = refl
all_up-seen (e ∷ es) = ap (λ b. e.up && b) (all_up-seen es)

-- A metric that was not seen goes to the end.
put-seen :
    (e : Event) (es : List Event)
    → has_metric e.metric es ≡ false
    → Dict.put e.metric e.up (seen_of es) ≡ seen_of (es ++ e ∷ [])
unfolding Dict.put
put-seen e [] h = refl
put-seen e (x ∷ es) h = ground (arith, put-seen e es)

has_metric-append :
    (m : String) (es : List Event) (e : Event)
    → has_metric m (es ++ e ∷ []) ≡ (has_metric m es || str_eq e.metric m)
has_metric-append m [] e = ground arith
has_metric-append m (x ∷ es) e = ground (arith, has_metric-append m es e)

Distinct-append :
    (es : List Event) (e : Event)
    → Distinct es
    → has_metric e.metric es ≡ false
    → Distinct (es ++ e ∷ [])
Distinct-append [] e d h = (refl, tt)
Distinct-append (x ∷ es) e d h = (
  ground (
    arith,
    d.0,
    has_metric-append x.metric es e,
    eq_iff x.metric e.metric,
    eq_iff e.metric x.metric,
  ),
  Distinct-append es e d.1 (ground (arith, h)),
)

closes-seen :
    (c : Cycle) (e : Event) → closes (some c.first.ts) (seen_of (events_in c)) e ≡ ends_before c e
unfolding closes
closes-seen c e =
    ap (λ b. b || ltb cycle_window (e.ts - c.first.ts)) (has_metric-seen e.metric (events_in c))

abbrev grown : Cycle → Event → Cycle
grown c e = record { first = c.first; others = c.others ++ e ∷ [] }

abbrev begun : Event → Cycle
begun e = record { first = e; others = [] }

begun-IsCycle : (e : Event) → IsCycle (begun e)
begun-IsCycle e = record { distinct = (refl, tt); close_by = tt }

grown-IsCycle : (c : Cycle) (e : Event) → IsCycle c → ends_before c e ≡ false → IsCycle (grown c e)
grown-IsCycle c e h n = record {
  distinct = Distinct-append (events_in c) e h.distinct (ground (arith, n));
  close_by =
      All-append (λ d. (d.ts - c.first.ts) ≤ cycle_window) c.others (e ∷ []) h.close_by
        (ground (arith, n), tt);
}

-- The samples of what is left, where `c` is the open cycle: it grows to `full`, and others follow.
record Continues (c : Cycle) (es : List Event) (samples : List (ℕ × Bool)) : Type 0 where
  pub full : Cycle
  pub rest : List Cycle
  pub same_first : full.first ≡ c.first
  pub whole : concat (full ∷ rest) ≡ events_in c ++ es
  pub each : All IsCycle (full ∷ rest)
  pub chained : Chained (full ∷ rest)
  pub sampled : samples ≡ map sample_of (full ∷ rest)

combine_open : Cycle → List Event → List (ℕ × Bool)
combine_open c es = combine_from (some c.first.ts) (seen_of (events_in c)) es

combine_open-nil : (c : Cycle) → combine_open c [] ≡ sample_of c ∷ []
unfolding combine_open combine_from
combine_open-nil c = ap (λ b. (c.first.ts, b) ∷ []) (all_up-seen (events_in c))

combine_open-ended :
    (c : Cycle) (e : Event) (es : List Event)
    → ends_before c e ≡ true
    → combine_open c (e ∷ es) ≡ sample_of c ∷ combine_open (begun e) es
unfolding combine_open combine_from Dict.put
combine_open-ended c e es h = rw (closes-seen c e, h, all_up-seen (events_in c))

combine_open-grown :
    (c : Cycle) (e : Event) (es : List Event)
    → ends_before c e ≡ false
    → combine_open c (e ∷ es) ≡ combine_open (grown c e) es
unfolding combine_open combine_from
combine_open-grown c e es h = rw (closes-seen c e, h, put-seen e (events_in c) (ground (arith, h)))

combine_open-Continues :
    (es : List Event) (c : Cycle) → IsCycle c → Continues c es (combine_open c es)
combine_open-Continues [] c h = record {
  full = c;
  rest = [];
  same_first = refl;
  whole = refl;
  each = (h, tt);
  chained = tt;
  sampled = combine_open-nil c;
}
combine_open-Continues (e ∷ es) c h = elim (Bool-cases (ends_before c e)) [
  | inl t ↦
      let next = combine_open-Continues es (begun e) (begun-IsCycle e) in
      record {
        full = c;
        rest = next.full ∷ next.rest;
        same_first = refl;
        whole = ap (λ xs. events_in c ++ xs) next.whole;
        each = (h, next.each);
        chained = (ap (λ x. ends_before c x) next.same_first ∙ t, next.chained);
        sampled = combine_open-ended c e es t ∙ ap (λ xs. sample_of c ∷ xs) next.sampled;
      }
  | inr f ↦
      let next = combine_open-Continues es (grown c e) (grown-IsCycle c e h f) in
      record {
        full = next.full;
        rest = next.rest;
        same_first = next.same_first;
        whole = next.whole ∙ append_assoc (events_in c) (e ∷ []) es;
        each = next.each;
        chained = next.chained;
        sampled = combine_open-grown c e es f ∙ next.sampled;
      }
]

combine_availability-cons :
    (e : Event) (es : List Event) → combine_availability (e ∷ es) ≡ combine_open (begun e) es
unfolding combine_availability combine_open combine_from closes Dict.put
combine_availability-cons e es = refl

-- The samples are those of the check cycles: the events, in their order, are cut into cycles that
-- have each metric at most once and no event more than two seconds after the first; a cycle ends only where
-- the next event does not fit into it, and its sample has the time of its first event and is up
-- exactly where all its events are.
pub combine_availability-IsSplit :
    (events : List Event) → IsSplit events (combine_availability events)
unfolding combine_availability combine_from
combine_availability-IsSplit [] = record {
  cycles = [];
  whole = refl;
  each = tt;
  chained = tt;
  sampled = refl;
}
combine_availability-IsSplit (e ∷ es) =
    let next = combine_open-Continues es (begun e) (begun-IsCycle e) in
    record {
      cycles = next.full ∷ next.rest;
      whole = next.whole;
      each = next.each;
      chained = next.chained;
      sampled = combine_availability-cons e es ∙ next.sampled;
    }
